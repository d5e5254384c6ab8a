-- ===== src/Ansiseq/Strings.antt =====
-- String sequences, ESC ] text BEL: how they are written, and single steps of the machine of
-- src/back/ansiseq.c on them.
use swh.Base.{
  ℕ, zero, suc, ◌-◌, ◌≤◌, ◌<◌, ◌≡◌, ◌≢◌, refl, sym, ap, ◌∙◌, Bool-cases, inl, inr, Option, some, [],
  ◌∷◌, ◌++◌, append_assoc, map, length, length-append, length-replicate, replicate, set, arith, ltb,
  ◌==◌, if◌then◌else◌, lt→ltb, ne→not-==, ok, ◌>>=◌,
}
use native.Mathlib.Decide.{dec_lt, ℕ_discrete}
use mathlib.Core.List.{map-append}
use swh.Hp.Contents.{length-map-some}
use swh.Memory.{Bytes, Block, store, strlen}
use swh.Ansiseq.Data.{Statics, esc, sqc, fin}
use swh.Ansiseq.Actions.{act_mkstr}
use swh.Ansiseq.Eat.{step}

abbrev pub osc_text : Bytes → Bytes
osc_text text = 0o33 ∷ b']' ∷ (text ++ (7 ∷ []))

-- Neither ESC nor BEL is in the text.
abbrev pub IsOsc : Bytes → Type 0
IsOsc [] = Unit
IsOsc (c ∷ cs) = (c ≤ 255) × (c ≢ 0o33) × (c ≢ 7) × IsOsc cs

-- A NUL that is stored at the end of a string leaves the string as it is; a string that fills the
-- array is left as it is.
abbrev pub add_char : Bytes → ℕ → Bytes
add_char xs c = if c == 0 then xs else if ltb (length xs) 255 then xs ++ (c ∷ []) else xs

abbrev pub add_text : Bytes → Bytes → Bytes
add_text xs [] = xs
add_text xs (c ∷ cs) = add_text (add_char xs c) cs

abbrev pub AreSome : Bytes → Type 0
AreSome [] = Unit
AreSome (x ∷ xs) = (x ≢ 0) × AreSome xs

-- the array `strarg` with the string
abbrev pub cells : Bytes → Block
cells xs = map some xs ++ replicate (256 - length xs) (some 0)

AreSome-append : (xs : Bytes) (c : ℕ) → AreSome xs → c ≢ 0 → AreSome (xs ++ (c ∷ []))
AreSome-append [] c h z = (z, tt)
AreSome-append (x ∷ xs) c (n, h) z = (n, AreSome-append xs c h z)

strlen-string :
    (xs : Bytes) (k : ℕ)
    → AreSome xs
    → strlen (map some xs ++ replicate (suc k) (some 0)) ≡ ok (length xs)
unfolding strlen
strlen-string [] k h = refl
strlen-string (zero ∷ xs) k (h, hs) = absurd (h refl)
strlen-string (suc x ∷ xs) k (h, hs) = rw (strlen-string xs k hs) refl

set-string :
    (xs : Bytes) (k c : ℕ)
    → set (map some xs ++ replicate (suc k) (some 0)) (length xs) (some c)
      ≡ map some (xs ++ (c ∷ [])) ++ replicate k (some 0)
set-string [] k c = refl
set-string (x ∷ xs) k c = ap (◌∷◌ (some x)) (set-string xs k c)

-- with that string
abbrev pub holding : Bytes → Statics → Statics
holding xs s = record s { curseq = record (s.curseq) { strarg = cells xs } }

pub step-sqc :
    (c : ℕ) (s : Statics)
    → c ≤ 255
    → c ≢ 0o33
    → c ≢ 7
    → step sqc c s ≡ (act_mkstr c s >>= λ s'. ok (sqc, s'))
unfolding step
step-sqc c s h n m = ground arith

pub step-bell : (s : Statics) → step sqc 7 s ≡ ok (fin, s)
unfolding step
step-bell s = refl

pub step-bracket :
    (s : Statics)
    → step esc b']' s ≡ ok (sqc, record s { curseq = record (s.curseq) { cls = b']' } })
unfolding step
step-bracket s = refl

strlen-cells : (xs : Bytes) → AreSome xs → length xs ≤ 255 → strlen (cells xs) ≡ ok (length xs)
strlen-cells xs h l =
    let e : 256 - length xs ≡ suc (255 - length xs) = omega arith in
    ap (λ k. strlen (map some xs ++ replicate k (some 0))) e ∙ strlen-string xs (255 - length xs) h

length-cells : (xs : Bytes) → length xs ≤ 255 → length (cells xs) ≡ 256
length-cells xs l = omega (
  arith,
  length-append (map some xs) (replicate (256 - length xs) (some 0)),
  length-map-some xs,
  length-replicate {A = Option ℕ} (256 - length xs) (some 0),
)

set-cells :
    (xs : Bytes) (c : ℕ)
    → length xs < 255
    → set (cells xs) (length xs) (some c)
      ≡ map some (xs ++ (c ∷ [])) ++ replicate (255 - length xs) (some 0)
set-cells xs c l =
    let e : 256 - length xs ≡ suc (255 - length xs) = omega arith in
    ap (λ k. set (map some xs ++ replicate k (some 0)) (length xs) (some c)) e
    ∙ set-string xs (255 - length xs) c

mkstr_full :
    (c : ℕ) (s : Statics) {n : ℕ} → strlen s.curseq.strarg ≡ ok n → 255 ≤ n → act_mkstr c s ≡ ok s
unfolding act_mkstr
mkstr_full c s e l = rw e (ground arith)

mkstr_room :
    (c : ℕ) (s : Statics) {n : ℕ}
    → strlen s.curseq.strarg ≡ ok n
    → n < 255
    → n < length s.curseq.strarg
    → act_mkstr c s
      ≡ ok (record s { curseq = record (s.curseq) { strarg = set s.curseq.strarg n (some c) } })
unfolding act_mkstr store
mkstr_room c s e l h = rw e (ground arith)

-- what is left of the array when the byte is added
cells-add_char :
    (xs : Bytes) (c : ℕ)
    → length xs < 255
    → set (cells xs) (length xs) (some c) ≡ cells (add_char xs c)
cells-add_char xs c l = elim (ℕ_discrete c 0) [
  | yes z ↦
      let e : 256 - length xs ≡ suc (255 - length xs) = omega arith in
      set-cells xs c l
      ∙ ap (λ y. y ++ replicate (255 - length xs) (some 0)) (map-append some xs (c ∷ []))
      ∙ append_assoc (map some xs) (some c ∷ []) (replicate (255 - length xs) (some 0))
      ∙ ap (λ y. map some xs ++ (some y ∷ replicate (255 - length xs) (some 0))) z
      ∙ ap (λ k. map some xs ++ replicate k (some 0)) (sym e)
      ∙ ap cells (
          sym (
            ap (λ t. if t then xs else if ltb (length xs) 255 then xs ++ (c ∷ []) else xs)
              (ap (λ y. y == 0) z)))
  | no z ↦
      let n : 255 - length xs ≡ 256 - length (xs ++ (c ∷ [])) =
        omega (arith, length-append xs (c ∷ [])) in
      set-cells xs c l
      ∙ ap (λ k. map some (xs ++ (c ∷ [])) ++ replicate k (some 0)) n
      ∙ (let q : xs ++ (c ∷ []) ≡ add_char xs c =
            rw (ne→not-== c 0 z, lt→ltb (length xs) 255 l) refl in
          ap cells q)
]

pub add_char_full : (xs : Bytes) (c : ℕ) → 255 ≤ length xs → add_char xs c ≡ xs
add_char_full xs c l = ground arith

pub mkstr-string :
    (c : ℕ) (xs : Bytes) (s : Statics)
    → AreSome xs
    → length xs ≤ 255
    → act_mkstr c (holding xs s) ≡ ok (holding (add_char xs c) s)
mkstr-string c xs s h l = elim (dec_lt (length xs) 255) [
  | yes m ↦
      mkstr_room c (holding xs s) (strlen-cells xs h l) m (omega (arith, length-cells xs l))
      ∙ ap (λ y. ok (record s { curseq = record (s.curseq) { strarg = y } }))
          (cells-add_char xs c m)
  | no m ↦
      mkstr_full c (holding xs s) (strlen-cells xs h l) (omega arith)
      ∙ ap (λ y. ok (holding y s)) (sym (add_char_full xs c (omega arith)))
]

pub AreSome-add_char : (xs : Bytes) (c : ℕ) → AreSome xs → AreSome (add_char xs c)
AreSome-add_char xs c h = elim (ℕ_discrete c 0) [
  | yes z ↦ rw z h
  | no z ↦ elim (Bool-cases (ltb (length xs) 255)) [
    | inl e ↦ rw (ne→not-== c 0 z, e) (AreSome-append xs c h z)
    | inr e ↦ rw (ne→not-== c 0 z, e) h
  ]
]
