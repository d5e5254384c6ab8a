-- ===== src/Log/Padding.antt =====
-- The blanks in front of a trace message in src/common/log.c, and their array.
use swh.Base.{
  ℕ, zero, suc, ◌+◌, ◌-◌, ◌*◌, ◌≤◌, ◌<◌, ◌≡◌, ◌≢◌, refl, pos, none, some, [], ◌∷◌, ◌++◌, min,
  length, length-append, length-replicate, Option, replicate, set, arith, lt→ltb, ok, ◌>>=◌,
}
use swh.Memory.{Block, store}
use swh.Log.{log_trace}
use swh.Log.Arrays.{text_of}
use swh.Log.Line.{pad_width, pad_block, pad_text}

text_of-blanks :
    (d : ℕ) (m : Block)
    → 0 < length m
    → text_of (set (replicate d (some 32) ++ m) d (some 0)) ≡ ok (replicate d 32)
unfolding text_of
text_of-blanks zero [] h = absurd (ground arith)
text_of-blanks zero (y ∷ m) h = refl
text_of-blanks (suc d) m h = rw (text_of-blanks d m h) refl

pad_block-text : (d : ℕ) → d ≤ 255 → (pad_block d >>= text_of) ≡ ok (replicate d 32)
unfolding pad_block store
pad_block-text d h =
    let blanks : Block = replicate d (some 32) in
    let rest : Block = replicate (256 - d) none in
    let l : length (blanks ++ rest) ≡ length blanks + length rest = length-append blanks rest in
    let l1 : length blanks ≡ d = length-replicate d (some 32) in
    let l2 : length rest ≡ 256 - d = length-replicate {A = Option ℕ} (256 - d) none in
    rw (lt→ltb d (length (blanks ++ rest)) (omega arith)) (text_of-blanks d rest (omega arith))

pad_width_lem :
    (depth : ℕ) → depth ≢ 128 → depth ≤ 1073741823 → pad_width depth ≡ ok (min (depth * 2) 255)
pad_width_lem depth n h = ground arith

-- For a trace message at a call depth of at most 2 ^ 30 - 1 that is not 128, the padding stays
-- within its array of 256 bytes and is two blanks for each level of the depth, and not more than
-- 255.
pub pad_text-blanks :
    (depth : ℕ)
    → depth ≢ 128
    → depth ≤ 1073741823
    → pad_text (pos log_trace) depth ≡ ok (replicate (min (depth * 2) 255) 32)
unfolding pad_text
pad_text-blanks depth n h =
    rw (pad_width_lem depth n h) (pad_block-text (min (depth * 2) 255) (omega arith))
