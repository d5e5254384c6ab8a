-- ===== src/UcIa/Waiting.antt =====
-- The loop of `uc_ia_hasdata` of src/front/ia/uc_ia.c, when a line is typed in pieces.
use swh.Base.{
  ℕ, zero, suc, ◌+◌, ◌<◌, ◌≡◌, refl, sym, ap, ◌∙◌, true, none, some, List, [], ◌∷◌, ◌++◌,
  append_assoc, map, length, length-append, take, arith, ne→not-==, ok,
}
use mathlib.Core.Path.{subst}
use swh.Memory.{Bytes, Block, flat}
use swh.Common.Io.{ReadAnswer, xread, got}
use swh.Common.Select.{SelectAnswer, readable, selectfd}
use swh.Sc.Pieces.{gots, AllSome, xread-got}
use swh.Hp.Contents.{take_shorter}
use swh.UcIa.{UcIa, strchr, read_more, read_line, uc_ia_hasdata}
use swh.UcIa.Lines.{Text, IsLine, strchr-line}
use swh.UcIa.Reading.{read_more-appends}

strchr-none :
    (m : Block) (xs : Bytes)
    → IsLine xs
    → take (suc (length xs)) m ≡ map some xs ++ (some 0 ∷ [])
    → strchr 10 m ≡ ok none
unfolding strchr
strchr-none [] [] h e = absurd (ground arith)
strchr-none (y ∷ m) [] h e = ground arith
strchr-none [] (c ∷ xs) h e = absurd (ground arith)
strchr-none (none ∷ m) (c ∷ xs) h e = absurd (ground arith)
strchr-none (some x ∷ m) (c ∷ xs) (n, n0, h) e =
    let x_eq : x ≡ c = ground arith in
    rw (x_eq, ne→not-== c 10 n, ne→not-== c 0 n0, strchr-none m xs h (ground arith)) refl

IsLine-append : (xs ys : Bytes) → IsLine xs → IsLine ys → IsLine (xs ++ ys)
IsLine-append [] ys h k = k
IsLine-append (x ∷ xs) ys (n, n0, h) k = (n, n0, IsLine-append xs ys h k)

-- with fewer answers of select(2)
abbrev selected : List SelectAnswer → UcIa → UcIa
selected as' u = record u { selects = as' }

round_ends :
    (fuel : ℕ) (u u' : UcIa) {as' : List SelectAnswer} {n i : ℕ}
    → u.selects ≡ readable ∷ as'
    → read_more (selected as' u) ≡ ok (n, u')
    → strchr 10 u'.readbuf ≡ ok (some i)
    → read_line (suc fuel) true u ≡ ok (1, u')
unfolding read_line selectfd
round_ends fuel u u' e p q = rw (e, p, q) refl

round_goes_on :
    (fuel : ℕ) (u u' : UcIa) {as' : List SelectAnswer} {n : ℕ}
    → u.selects ≡ readable ∷ as'
    → read_more (selected as' u) ≡ ok (n, u')
    → strchr 10 u'.readbuf ≡ ok none
    → read_line (suc fuel) true u ≡ read_line fuel true u'
unfolding read_line selectfd
round_goes_on fuel u u' e p q = rw (e, p, q) refl

selected-Text :
    (as' : List SelectAnswer) (u : UcIa) {xs : Bytes} → Text u xs → Text (selected as' u) xs
selected-Text as' u t = record {
  count_eq = t.count_eq;
  room = t.room;
  size_small = t.size_small;
  text = t.text;
}

-- select(2) finds the descriptor readable once for each piece, and for one more
abbrev pub ready_for : List Bytes → List SelectAnswer → List SelectAnswer
ready_for [] as' = readable ∷ as'
ready_for (p ∷ ps) as' = readable ∷ ready_for ps as'

-- No piece has a newline or a NUL.
abbrev pub AreLines : List Bytes → Type 0
AreLines [] = Unit
AreLines (p ∷ ps) = IsLine p × AreLines ps

some_line : (l more : Bytes) → 0 < length (l ++ (10 ∷ more))
some_line l more = let n = length-append l (10 ∷ more) in omega arith

lines_read :
    (fuel : ℕ) (ps : List Bytes) (l more : Bytes) (u : UcIa) (xs : Bytes) (as' : List SelectAnswer)
    {todo : List ReadAnswer}
    → length ps < fuel
    → Text u xs
    → IsLine xs
    → AllSome ps
    → AreLines ps
    → IsLine l
    → u.reads ≡ gots ps (got (l ++ (10 ∷ more)) ∷ todo)
    → u.selects ≡ ready_for ps as'
    → length xs + length (flat ps) + length (l ++ (10 ∷ more)) < length u.readbuf
    → (u' : UcIa) × (read_line fuel true u ≡ ok (1, u'))
      × Text u' (xs ++ (flat ps ++ (l ++ (10 ∷ more))))
      × (u'.reads ≡ todo)
lines_read zero ps l more u xs as' f t h a b k rd sl room = absurd (ground arith)
lines_read (suc fuel) [] l more u xs as' {todo} f t h a b k rd sl room =
    let (u', p, t', _, r', _) =
      read_more-appends (selected as' u) xs (l ++ (10 ∷ more)) (selected-Text as' u t)
        (ap xread rd ∙ xread-got (l ++ (10 ∷ more)) todo (some_line l more)) (omega arith) in
    let whole : Text u' ((xs ++ l) ++ (10 ∷ more)) =
      subst (Text u') (sym (append_assoc xs l (10 ∷ more))) t' in
    (
      u',
      round_ends fuel u u' sl p (
          strchr-line u'.readbuf (xs ++ l) more (IsLine-append xs l h k)
            (take_shorter u'.readbuf ((xs ++ l) ++ (10 ∷ more)) (some 0) whole.text)),
      t',
      r',
    )
lines_read (suc fuel) (q ∷ ps) l more u xs as' {todo} f t h (a, as1) (b, bs) k rd sl room =
    let n = length-append q (flat ps) in
    let n2 = length-append xs q in
    let rest : List SelectAnswer = ready_for ps as' in
    let (u', p, t', s', r', e') =
      read_more-appends (selected rest u) xs q (selected-Text rest u t)
        (ap xread rd ∙ xread-got q _ a) (omega arith) in
    let (u2, p2, t2, r2) =
      lines_read fuel ps l more u' (xs ++ q) as' (omega arith) t' (IsLine-append xs q h b) as1 bs k
        r' e' (omega arith) in
    (
      u2,
      round_goes_on fuel u u' sl p
            (strchr-none u'.readbuf (xs ++ q) (IsLine-append xs q h b) t'.text)
          ∙ p2,
      subst (Text u2)
          (append_assoc xs q (flat ps ++ (l ++ (10 ∷ more)))
            ∙ ap (λ z. xs ++ z) (sym (append_assoc q (flat ps) (l ++ (10 ∷ more)))))
          t2,
      r2,
    )

length-ready_for :
    (ps : List Bytes) (as' : List SelectAnswer)
    → length (ready_for ps as') ≡ length ps + 1 + length as'
length-ready_for [] as' = omega arith
length-ready_for (p ∷ ps) as' = let n = length-ready_for ps as' in omega arith

hasdata_steps :
    (u : UcIa)
    → strchr 10 u.readbuf ≡ ok none
    → uc_ia_hasdata true u ≡ read_line (length u.selects + 1) true u
unfolding uc_ia_hasdata
hasdata_steps u e = rw e refl

-- The front end's buffer holds a text without a newline or a NUL; select finds the descriptor
-- readable once for each of some pieces, and read gives them, none of them empty: some without a
-- newline or a NUL, and one with a newline, with no other and no NUL in front of it. There is
-- room for all of them with the terminator. Then uc_ia_hasdata, when it may block, returns 1, and
-- the buffer holds the text and the pieces behind it; the answers of read are used up to the last
-- piece.
pub uc_ia_hasdata-waits :
    (ps : List Bytes) (l more : Bytes) (u : UcIa) (xs : Bytes) (as' : List SelectAnswer)
    {todo : List ReadAnswer}
    → Text u xs
    → IsLine xs
    → AllSome ps
    → AreLines ps
    → IsLine l
    → u.reads ≡ gots ps (got (l ++ (10 ∷ more)) ∷ todo)
    → u.selects ≡ ready_for ps as'
    → length xs + length (flat ps) + length (l ++ (10 ∷ more)) < length u.readbuf
    → (u' : UcIa) × (uc_ia_hasdata true u ≡ ok (1, u'))
      × Text u' (xs ++ (flat ps ++ (l ++ (10 ∷ more))))
      × (u'.reads ≡ todo)
uc_ia_hasdata-waits ps l more u xs as' t h a b k rd sl room =
    let n : length u.selects ≡ length ps + 1 + length as' =
      ap length sl ∙ length-ready_for ps as' in
    let (u', p, t', r) =
      lines_read (length u.selects + 1) ps l more u xs as' (omega arith) t h a b k rd sl room in
    (u', hasdata_steps u (strchr-none u.readbuf xs h t.text) ∙ p, t', r)
