-- ===== src/Log/Arrays.antt =====
-- The strings that src/common/log.c puts into arrays of a fixed size.
use swh.Base.{
  ℕ, zero, suc, ◌+◌, ◌<◌, ◌≡◌, refl, none, some, [], ◌∷◌, ◌++◌, map, length, length-append,
  length-replicate, take, replicate, Option, arith, Outcome, ok, fault, undefined, out_of_bounds,
  uninitialised, ◌>>=◌,
}
use swh.Memory.{Bytes, Block}
use swh.Common.{memcpy}
use swh.Common.Blocks.{memcpy_front}
use swh.Hp.Contents.{length-map-some}

-- the text in front of the first NUL
unfoldable pub text_of : Block → Outcome Bytes
text_of [] = fault (undefined out_of_bounds)
text_of (none ∷ m) = fault (undefined uninitialised)
text_of (some zero ∷ m) = ok []
text_of (some (suc c) ∷ m) = text_of m >>= λ xs. ok (suc c ∷ xs)

-- a string with the NUL behind it
abbrev pub string : Bytes → Block
string xs = map some xs ++ (some 0 ∷ [])

-- A string is copied into an array of so many bytes, and read back.
unfoldable pub in_array : ℕ → Bytes → Outcome Bytes
unfolding memcpy text_of
in_array size xs = memcpy (replicate size none) 0 (string xs) >>= text_of

text_of-string :
    (xs : Bytes) (m : Block)
    → take (length (string xs)) m ≡ string xs
    → (ys : Bytes) × (text_of m ≡ ok ys)
unfolding text_of
text_of-string [] [] h = absurd (ground arith)
text_of-string [] (none ∷ m) h = absurd (ground arith)
text_of-string [] (some zero ∷ m) h = ([], refl)
text_of-string [] (some (suc c) ∷ m) h = absurd (ground arith)
text_of-string (x ∷ xs) [] h = absurd (ground arith)
text_of-string (x ∷ xs) (none ∷ m) h = absurd (ground arith)
text_of-string (x ∷ xs) (some zero ∷ m) h = ([], refl)
text_of-string (x ∷ xs) (some (suc c) ∷ m) h =
    let (ys, p) = text_of-string xs m (ground arith) in (suc c ∷ ys, rw p refl)

in_array-steps :
    (size : ℕ) (xs : Bytes) {m : Block} {ys : Bytes}
    → memcpy (replicate size none) 0 (string xs) ≡ ok m
    → text_of m ≡ ok ys
    → in_array size xs ≡ ok ys
unfolding in_array
in_array-steps size xs p q = rw p q

-- A string for which there is room with its NUL stays within the array.
pub in_array_returns :
    (size : ℕ) (xs : Bytes) → length xs < size → (ys : Bytes) × (in_array size xs ≡ ok ys)
in_array_returns size xs h =
    let n : length (string xs) ≡ length (map some xs) + 1 =
      length-append (map some xs) (some 0 ∷ []) in
    let k = length-map-some xs in
    let r = length-replicate {A = Option ℕ} size none in
    let (m, p, _, t) = memcpy_front (replicate size none) (string xs) (omega arith) in
    let (ys, q) = text_of-string xs m t in (ys, in_array-steps size xs p q)
