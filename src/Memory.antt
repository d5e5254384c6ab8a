-- ===== src/Memory.antt =====
-- Arrays and blocks of memory as lists of cells; an access outside is undefined behaviour, and so
-- is reading a byte of a heap block that was never written (a cell `none`).
use swh.Base.{
  ℕ, zero, suc, Option, none, some, List, [], ◌∷◌, ◌++◌, ltb, if◌then◌else◌, length, set, Outcome,
  ok, fault, undefined, out_of_bounds, uninitialised, ◌>>=◌,
}

abbrev pub Bytes : Type 0
Bytes = List ℕ

abbrev pub Block : Type 0
Block = List (Option ℕ)

-- pieces put together
abbrev pub flat : List Bytes → Bytes
flat [] = []
flat (e ∷ es) = e ++ flat es

-- `xs[i] = v`
unfoldable pub store {ℓ} : {A : Type ℓ} → List A → ℕ → A → Outcome (List A)
store xs i v = if ltb i (length xs) then ok (set xs i v) else fault (undefined out_of_bounds)

-- `xs[i]`
unfoldable pub load {ℓ} : {A : Type ℓ} → List A → ℕ → Outcome A
load [] i = fault (undefined out_of_bounds)
load (x ∷ xs) zero = ok x
load (x ∷ xs) (suc i) = load xs i

-- `strlen`: the number of bytes in front of the first NUL.
unfoldable pub strlen : Block → Outcome ℕ
strlen [] = fault (undefined out_of_bounds)
strlen (none ∷ m) = fault (undefined uninitialised)
strlen (some zero ∷ m) = ok 0
strlen (some (suc c) ∷ m) = strlen m >>= λ n. ok (suc n)
