-- ===== src/Common/Blocks.antt =====
-- Blocks of memory that are resized, copied into and moved: `xrealloc` and `shiftbuf` of
-- src/common/common.c.
use swh.Base.{
  ℕ, zero, suc, ◌+◌, ◌-◌, ◌%◌, ◌≤◌, ◌<◌, ◌≡◌, ◌≢◌, refl, sym, ap, ◌∙◌, true, Option, none, ◌++◌,
  append_assoc, arith, ne→not-==, length, length-append, length-take, length-drop, length-replicate,
  take, drop, replicate, take-append_le, take-take, take-drop, take-length_append, ok,
}
use swh.Memory.{Block}
use swh.Common.{Libc, resize, slice, memcpy, shiftbuf, size_mod}

-- Requests of up to `n` bytes are granted.
abbrev pub Grants : Libc → ℕ → Type 0
Grants libc n = (m : ℕ) → m ≤ n → libc.alloc m ≡ true

pub length-resize : (m : Block) (n : ℕ) → length (resize m n) ≡ n
length-resize m n = omega (
  arith,
  length-append (take n m) (replicate (n - length m) none),
  length-take n m,
  length-replicate {A = Option ℕ} (n - length m) none,
)

pub take-resize : (m : Block) (n k : ℕ) → k ≤ length m → k ≤ n → take k (resize m n) ≡ take k m
take-resize m n k h l =
    take-append_le k (take n m) (replicate (n - length m) none) (omega (arith, length-take n m))
    ∙ take-take k n m l

-- `memcpy` to the front of a block that is long enough.
pub memcpy_front :
    (m xs : Block)
    → length xs ≤ length m
    → (m' : Block) × (memcpy m 0 xs ≡ ok m') × (length m' ≡ length m) × (take (length xs) m' ≡ xs)
unfolding memcpy
memcpy_front m xs h = (
  xs ++ drop (length xs) m,
  ground arith,
  omega (arith, length-append xs (drop (length xs) m), length-drop (length xs) m),
  take-length_append xs (drop (length xs) m),
)

pub slice_lem : (m : Block) (i n : ℕ) → i + n ≤ length m → slice m i n ≡ ok (take n (drop i m))
unfolding slice
slice_lem m i n h = ground arith

shiftbuf_steps :
    (m : Block) (cnt n cnt' : ℕ) {xs m' : Block}
    → n ≢ 0
    → (cnt + size_mod - n) % size_mod ≡ cnt'
    → slice m n cnt' ≡ ok xs
    → memcpy m 0 xs ≡ ok m'
    → shiftbuf m cnt n ≡ ok (m', cnt')
unfolding shiftbuf
shiftbuf_steps m cnt n cnt' h e p q = rw (ne→not-== n 0 h, e, p, q) refl

-- shiftbuf, with no more bytes to drop than are in use, and no more in use than the block and
-- size_t hold, returns; the count is reduced by what was dropped, the block keeps its size, and
-- the bytes in use are those that were in use without the first ones.
pub shiftbuf_drops :
    (m : Block) (cnt n : ℕ)
    → n ≤ cnt
    → cnt ≤ length m
    → cnt < size_mod
    → (m' : Block) × (shiftbuf m cnt n ≡ ok (m', cnt - n))
      × (length m' ≡ length m)
      × (take (cnt - n) m' ≡ drop n (take cnt m))
unfolding shiftbuf
shiftbuf_drops m cnt zero h l b = (m, ground arith, refl, ap (λ k. take k m) (omega arith))
shiftbuf_drops m cnt (suc n) h l b =
    let xs : Block = take (cnt - suc n) (drop (suc n) m) in
    let len : length xs ≡ cnt - suc n =
      omega (arith, length-take (cnt - suc n) (drop (suc n) m), length-drop (suc n) m) in
    let z : suc n + (cnt - suc n) ≡ cnt = omega arith in
    let (m', p, q, r) = memcpy_front m xs (omega arith) in
    (
      m',
      shiftbuf_steps m cnt (suc n) (cnt - suc n) (omega arith) (omega arith)
          (slice_lem m (suc n) (cnt - suc n) (omega arith)) p,
      q,
      ap (λ k. take k m') (sym len)
          ∙ r
          ∙ take-drop (cnt - suc n) (suc n) m
          ∙ ap (λ k. drop (suc n) (take k m)) z,
    )

front : (a b c : Block) (i : ℕ) → length a ≡ i → take (i + length b) (a ++ (b ++ c)) ≡ a ++ b
front a b c i e =
    ap (λ n. take n (a ++ (b ++ c))) (omega (arith, length-append a b))
    ∙ ap (take (length (a ++ b))) (sym (append_assoc a b c))
    ∙ take-length_append (a ++ b) c

-- `memcpy` behind the first `i` cells.
pub memcpy_behind :
    (m xs : Block) (i : ℕ)
    → i + length xs ≤ length m
    → (m' : Block) × (memcpy m i xs ≡ ok m')
      × (length m' ≡ length m)
      × (take (i + length xs) m' ≡ take i m ++ xs)
unfolding memcpy
memcpy_behind m xs i h =
    let rest : Block = drop (i + length xs) m in
    let len : length (take i m) ≡ i = omega (arith, length-take i m) in
    (
      take i m ++ (xs ++ rest),
      ground arith,
      omega (
        arith,
        len,
        length-append (take i m) (xs ++ rest),
        length-append xs rest,
        length-drop (i + length xs) m,
      ),
      front (take i m) xs rest i len,
    )
