-- ===== src/UcIa/Printing.antt =====
-- What `uc_ia_putdata` prints.
use swh.Base.{
  ℕ, zero, suc, ◌<◌, ◌≡◌, refl, true, none, some, [], ◌∷◌, ◌++◌, map, length, take, arith, ok,
}
use swh.Memory.{Bytes, Block}
use swh.Hp.Contents.{c_string}
use swh.UcIa.{UcIa, text_upto, precision, uc_ia_putdata}

-- A C string is printed whole.
text_upto-c_string :
    (m : Block) (xs : Bytes)
    → take (suc (length xs)) m ≡ map some xs ++ (some 0 ∷ [])
    → text_upto (length (c_string xs)) m ≡ ok (c_string xs)
unfolding text_upto
text_upto-c_string m [] h = refl
text_upto-c_string m (zero ∷ xs) h = refl
text_upto-c_string [] (suc c ∷ xs) h = absurd (ground arith)
text_upto-c_string (none ∷ m) (suc c ∷ xs) h = absurd (ground arith)
text_upto-c_string (some x ∷ m) (suc c ∷ xs) h =
    let e : x ≡ suc c = ground arith in rw (e, text_upto-c_string m xs (ground arith)) refl

precision_lem : (n : ℕ) (m : Block) → n < 2147483648 → precision n m ≡ n
precision_lem n m l = ground arith

pub uc_ia_putdata-shows :
    (m : Block) (xs : Bytes) (u : UcIa)
    → take (suc (length xs)) m ≡ map some xs ++ (some 0 ∷ [])
    → length (c_string xs) < 2147483648
    → uc_ia_putdata m (length (c_string xs)) u
      ≡ ok (true, record u { shown = u.shown ++ c_string xs })
unfolding uc_ia_putdata
uc_ia_putdata-shows m xs u h l =
    rw (precision_lem (length (c_string xs)) m l, text_upto-c_string m xs h) refl
