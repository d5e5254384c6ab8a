-- ===== src/UcIa/Reading.antt =====
-- What `read_more` of src/front/ia/uc_ia.c puts into the buffer.
use swh.Base.{
  ℕ, suc, ◌+◌, ◌%◌, ◌<◌, ◌≡◌, refl, sym, ap, ◌∙◌, Option, some, List, [], ◌∷◌, ◌++◌, map, length,
  length-append, length-set, set, take, take-set_next, arith, lt→ltb, ok,
}
use mathlib.Core.List.{map-append}
use swh.Memory.{Bytes, Block, store}
use swh.Common.{size_mod, memcpy}
use swh.Common.Blocks.{memcpy_behind}
use swh.Common.Io.{ReadAnswer, xread}
use swh.Hp.Contents.{length-map-some, take_shorter}
use swh.UcIa.{UcIa, put_read, read_more}
use swh.UcIa.Lines.{Text}

put_read_steps :
    (xs : Bytes) (u : UcIa) {m : Block} {n : ℕ}
    → memcpy u.readbuf u.readbufcnt (map some xs) ≡ ok m
    → (u.readbufcnt + length xs) % size_mod ≡ n
    → n < length m
    → put_read (some xs) u ≡ ok (length xs, record u { readbuf = set m n (some 0); readbufcnt = n })
unfolding put_read store
put_read_steps xs u {m} {n} p q l = rw (p, q, lt→ltb n (length m) l) refl

read_more_steps :
    (u : UcIa) {r : Option Bytes} {as' : List ReadAnswer} {v : ℕ × UcIa}
    → xread u.reads ≡ ok (r, as')
    → put_read r (record u { reads = as' }) ≡ ok v
    → read_more u ≡ ok v
unfolding read_more
read_more_steps u {r} {as'} p q = rw p q

-- The front end's buffer holds a text, and read gives bytes for which, with the terminator, there
-- is room. Then read_more of the front end returns their number, and the buffer, of the same
-- size, holds the text and the bytes behind it; that answer of the kernel is used up.
pub read_more-appends :
    (u : UcIa) (xs ys : Bytes) {as' : List ReadAnswer}
    → Text u xs
    → xread u.reads ≡ ok (some ys, as')
    → length xs + length ys < length u.readbuf
    → (u' : UcIa) × (read_more u ≡ ok (length ys, u'))
      × Text u' (xs ++ ys)
      × (length u'.readbuf ≡ length u.readbuf)
      × (u'.reads ≡ as')
      × (u'.selects ≡ u.selects)
read_more-appends u xs ys {as'} t e l =
    let some_len : length (map some ys) ≡ length ys = length-map-some ys in
    let (m, p, q, r) =
      memcpy_behind u.readbuf (map some ys) u.readbufcnt (omega (arith, t.count_eq)) in
    let n : ℕ = u.readbufcnt + length ys in
    let n_eq : n ≡ length (xs ++ ys) = omega (arith, t.count_eq, length-append xs ys) in
    let len : length (set m n (some 0)) ≡ length u.readbuf =
      omega (arith, q, length-set m n (some 0)) in
    (
      record u { readbuf = set m n (some 0); readbufcnt = n; reads = as' },
      read_more_steps u e (
          put_read_steps ys (record u { reads = as' }) p (omega (arith, t.count_eq, t.size_small))
            (omega (arith, t.count_eq, q))),
      record {
        count_eq = n_eq;
        room = omega (arith, len, length-append xs ys);
        size_small = omega (arith, len, t.size_small);
        text =
            ap (λ j. take (suc (length (xs ++ ys))) (set m j (some 0))) n_eq
            ∙ take-set_next m (length (xs ++ ys)) (some 0) (omega (arith, q, length-append xs ys))
            ∙ ap (λ j. j ++ (some 0 ∷ []))
                (ap (λ j. take j m) (omega (arith, length-append xs ys, t.count_eq))
                  ∙ r
                  ∙ ap (λ j. take j u.readbuf ++ map some ys) t.count_eq
                  ∙ ap (λ j. j ++ map some ys) (take_shorter u.readbuf xs (some 0) t.text)
                  ∙ sym (map-append some xs ys));
      },
      len,
      refl,
      refl,
    )
