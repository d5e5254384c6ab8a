-- ===== src/Common/Hexdump/Writing.antt =====
-- What the steps of `hexdump` of src/common/common.c write to the array of a line.
use swh.Base.{
  ℕ, suc, ◌+◌, ◌<◌, ◌≡◌, refl, sym, ap, ◌∙◌, some, [], ◌∷◌, ◌++◌, map, length, length-append,
  length-set, take, take-set_next, take-set_behind, set, arith, lt→ltb, ok,
}
use mathlib.Core.List.{map-append}
use swh.Memory.{Bytes, Block, store}
use swh.Common.{memcpy}
use swh.Common.Blocks.{memcpy_behind}
use swh.Hp.Contents.{length-map-some}
use swh.Common.Hexdump.{Line, sprint, put_char}

-- The array has its size, and so far it holds `xs`.
pub record Written (l : Line) (xs : Bytes) : Type 0 where
  pub size_eq : length l.0 ≡ 79
  pub end_eq : l.1 ≡ length xs
  pub text : take (length xs) l.0 ≡ map some xs

pub put_char-Written :
    (c : ℕ) (m : Block) (p : ℕ) (xs : Bytes)
    → Written (m, p) xs
    → length xs < 79
    → (l : Line) × (put_char c (m, p) ≡ ok l) × Written l (xs ++ (c ∷ []))
unfolding put_char store
put_char-Written c m p xs w h =
    let n : length (xs ++ (c ∷ [])) ≡ suc (length xs) = omega (arith, length-append xs (c ∷ [])) in
    let z = w.end_eq in
    let size = w.size_eq in
    (
      (set m p (some c), p + 1),
      rw (lt→ltb p (length m) (omega arith)) refl,
      record {
        size_eq = length-set m p (some c) ∙ w.size_eq;
        end_eq = omega arith;
        text =
            ap (λ k. take k (set m p (some c))) n
            ∙ ap (λ k. take (suc (length xs)) (set m k (some c))) z
            ∙ take-set_next m (length xs) (some c) (omega arith)
            ∙ ap (λ y. y ++ (some c ∷ [])) w.text
            ∙ sym (map-append some xs (c ∷ []));
      },
    )

sprint_steps :
    (ys : Bytes) (m m' : Block) (p : ℕ)
    → memcpy m p (map some ys) ≡ ok m'
    → p + length ys < length m'
    → sprint ys (m, p) ≡ ok (set m' (p + length ys) (some 0), p + length ys)
unfolding sprint store
sprint_steps ys m m' p e h = rw (e, lt→ltb (p + length ys) (length m') h) refl

pub sprint-Written :
    (ys : Bytes) (m : Block) (p : ℕ) (xs : Bytes)
    → Written (m, p) xs
    → length xs + length ys < 79
    → (l : Line) × (sprint ys (m, p) ≡ ok l) × Written l (xs ++ ys)
sprint-Written ys m p xs w h =
    let n = length-append xs ys in
    let k = length-map-some ys in
    let z = w.end_eq in
    let size = w.size_eq in
    let (m', e, e1, e2) = memcpy_behind m (map some ys) p (omega arith) in
    (
      (set m' (p + length ys) (some 0), p + length ys),
      sprint_steps ys m m' p e (omega arith),
      record {
        size_eq = length-set m' (p + length ys) (some 0) ∙ e1 ∙ w.size_eq;
        end_eq = omega arith;
        text =
            take-set_behind m' (length (xs ++ ys)) (p + length ys) (some 0) (omega arith)
            ∙ (let q : length (xs ++ ys) ≡ p + length (map some ys) = omega arith in
                ap (λ j. take j m') q)
            ∙ e2
            ∙ ap (λ j. take j m ++ map some ys) z
            ∙ ap (λ y. y ++ map some ys) w.text
            ∙ sym (map-append some xs ys);
      },
    )
