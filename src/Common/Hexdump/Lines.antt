-- ===== src/Common/Hexdump/Lines.antt =====
-- The lines of `hexdump` of src/common/common.c fit their array.
use swh.Base.{
  ℕ, zero, suc, ◌+◌, ◌-◌, ◌*◌, ◌/◌, ◌%◌, ◌≤◌, ◌<◌, ◌≡◌, refl, sym, ap, ◌∙◌, Bool, true, false,
  Option, none, some, List, [], ◌∷◌, ◌++◌, map, append_assoc, append-nil, inl, inr, Bool-cases,
  ◌==◌, if◌then◌else◌, length, length-append, length-set, length-take, length-drop,
  length-replicate, take, take-all, take-set_next, drop, replicate, set, arith, lt→ltb, ne→not-==,
  ok,
}
use mathlib.Core.Path.{subst}
use swh.Memory.{Bytes, Block, store}
use swh.Hp.Contents.{length-map-some}
use swh.Common.Hexdump.{
  Line, line_size, hex_digit, hex_digits, hex_width, offset_text, cell_text, printable, sprint,
  put_char, put_cells, put_chars, put_line, put_lines, hexdump,
}
use swh.Common.Hexdump.Writing.{Written, put_char-Written, sprint-Written}

-- the blank behind a group of eight
abbrev pub group_text : ℕ → Bytes
group_text c = if c % 8 == 7 then 32 ∷ [] else []

abbrev pub cells_text : ℕ → List (Option ℕ) → Bytes
cells_text c [] = []
cells_text c (b ∷ bs) = cell_text b ++ (group_text c ++ cells_text (c + 1) bs)

-- a line of the dump
abbrev pub row_text : ℕ → Bytes → Bytes
row_text co row =
    offset_text co
    ++ (cells_text 0 (map some row ++ replicate (16 - length row) none) ++ (32 ∷ map printable row))

length-hex_digits : (k n : ℕ) → length (hex_digits k n) ≡ k
length-hex_digits zero n = refl
length-hex_digits (suc k) n =
    let l = length-append (hex_digits k (n / 16)) (hex_digit (n % 16) ∷ []) in
    let i = length-hex_digits k (n / 16) in omega arith

length-cell_text : (b : Option ℕ) → length (cell_text b) ≡ 3
unfolding cell_text
length-cell_text none = refl
length-cell_text (some b) = ap suc (length-hex_digits 2 b)

hex_width-small : (n : ℕ) → hex_width n ≤ 8
hex_width-small n = ground arith

offset_short : (co : ℕ) → length (offset_text co) ≤ 11
unfolding offset_text
offset_short co =
    let n : ℕ = co % 4294967296 in
    elim (Bool-cases (n == 0)) [
      | inl e ↦ rw e (omega arith)
      | inr e ↦
          let l = length-append (hex_digits (hex_width n) n) (32 ∷ []) in
          let k = length-hex_digits (hex_width n) n in
          let w = hex_width-small n in rw e (omega arith)
    ]

-- A blank stands behind every eighth column.
length-group_text : (c : ℕ) → length (group_text c) + c / 8 ≡ (c + 1) / 8
length-group_text c = ground arith

length-cells_text :
    (c : ℕ) (bs : List (Option ℕ))
    → length (cells_text c bs) + c / 8 ≡ 3 * length bs + (c + length bs) / 8
length-cells_text c [] = omega arith
length-cells_text c (b ∷ bs) =
    let l1 = length-append (cell_text b) (group_text c ++ cells_text (c + 1) bs) in
    let l2 = length-append (group_text c) (cells_text (c + 1) bs) in
    let l3 = length-cell_text b in
    let l4 = length-group_text c in let l5 = length-cells_text (c + 1) bs in omega arith

put_cells_steps :
    (c : ℕ) (b : Option ℕ) (bs : List (Option ℕ)) (l l1 l2 : Line)
    → sprint (cell_text b) l ≡ ok l1
    → (if c % 8 == 7 then put_char 32 l1 else ok l1) ≡ ok l2
    → put_cells c (b ∷ bs) l ≡ put_cells (c + 1) bs l2
unfolding put_cells
put_cells_steps c b bs l l1 l2 p q = rw (p, q) refl

put_group-Written :
    (t : Bool) (l : Line) (xs : Bytes)
    → Written l xs
    → length xs < 79
    → (l' : Line) × ((if t then put_char 32 l else ok l) ≡ ok l')
      × Written l' (xs ++ (if t then 32 ∷ [] else []))
put_group-Written true (m, p) xs w h = put_char-Written 32 m p xs w h
put_group-Written false l xs w h = (l, refl, rw (append-nil xs) w)

put_cells-Written :
    (c : ℕ) (bs : List (Option ℕ)) (l : Line) (xs : Bytes)
    → Written l xs
    → length xs + length (cells_text c bs) < 79
    → (l' : Line) × (put_cells c bs l ≡ ok l') × Written l' (xs ++ cells_text c bs)
unfolding put_cells
put_cells-Written c [] l xs w h = (l, refl, rw (append-nil xs) w)
put_cells-Written c (b ∷ bs) (m, p) xs w h =
    let cell : Bytes = cell_text b in
    let group : Bytes = group_text c in
    let rest : Bytes = cells_text (c + 1) bs in
    let n1 = length-append cell (group ++ rest) in
    let n2 = length-append group rest in
    let n3 = length-append xs cell in
    let n4 = length-append (xs ++ cell) group in
    let (l1, e1, w1) = sprint-Written cell m p xs w (omega arith) in
    let (l2, e2, w2) =
      put_group-Written (c % 8 == 7) l1 (xs ++ cell) w1 (omega (arith, length-cell_text b)) in
    let (l3, e3, w3) = put_cells-Written (c + 1) bs l2 ((xs ++ cell) ++ group) w2 (omega arith) in
    (
      l3,
      put_cells_steps c b bs (m, p) l1 l2 e1 e2 ∙ e3,
      subst (Written l3)
          (append_assoc (xs ++ cell) group rest ∙ append_assoc xs cell (group ++ rest)) w3,
    )

put_chars-Written :
    (bs : Bytes) (l : Line) (xs : Bytes)
    → Written l xs
    → length xs + length bs < 79
    → (l' : Line) × (put_chars bs l ≡ ok l') × Written l' (xs ++ map printable bs)
unfolding put_chars
put_chars-Written [] l xs w h = (l, refl, rw (append-nil xs) w)
put_chars-Written (b ∷ bs) (m, p) xs w h =
    let n = length-append xs (printable b ∷ []) in
    let (l1, e1, w1) = put_char-Written (printable b) m p xs w (omega arith) in
    let (l2, e2, w2) = put_chars-Written bs l1 (xs ++ (printable b ∷ [])) w1 (omega arith) in
    (l2, rw e1 e2, subst (Written l2) (append_assoc xs (printable b ∷ []) (map printable bs)) w2)

-- the array holds the line and its terminator
abbrev pub Shows : Block → Bytes → Type 0
Shows m xs = (length m ≡ 79) × (take (suc (length xs)) m ≡ map some xs ++ (some 0 ∷ []))

-- one line for every 16 bytes or less
abbrev pub AreShown : ℕ → Bytes → List Block → Type 0
AreShown co d [] = d ≡ []
AreShown co d (m ∷ ms) = Shows m (row_text co (take 16 d)) × AreShown (co + 16) (drop 16 d) ms

length-map : (bs : Bytes) → length (map printable bs) ≡ length bs
length-map [] = refl
length-map (b ∷ bs) = ap suc (length-map bs)

put_line_steps :
    (co : ℕ) (row : Bytes) (l l1 l2 : Line) (m : Block) (p : ℕ)
    → sprint (offset_text co) (replicate line_size none, 0) ≡ ok l
    → put_cells 0 (map some row ++ replicate (16 - length row) none) l ≡ ok l1
    → put_char 32 l1 ≡ ok l2
    → put_chars row l2 ≡ ok (m, p)
    → p < length m
    → put_line co row ≡ ok (set m p (some 0))
unfolding put_line store
put_line_steps co row l l1 l2 m p a b c d h = rw (a, b, c, d, lt→ltb p (length m) h) refl

put_line-Shows :
    (co : ℕ) (row : Bytes)
    → length row ≤ 16
    → (m : Block) × (put_line co row ≡ ok m) × Shows m (row_text co row)
put_line-Shows co row h =
    let cells : List (Option ℕ) = map some row ++ replicate (16 - length row) none in
    let first : Bytes = offset_text co in
    let mid : Bytes = cells_text 0 cells in
    let last : Bytes = map printable row in
    let k1 = length-append (map some row) (replicate (16 - length row) none) in
    let k2 = length-map-some row in
    let k3 = length-replicate {A = Option ℕ} (16 - length row) none in
    let k4 = length-cells_text 0 cells in
    let k5 = offset_short co in
    let k6 = length-map row in
    let n1 = length-append first mid in
    let n2 = length-append (first ++ mid) (32 ∷ []) in
    let n3 = length-append first (mid ++ (32 ∷ last)) in
    let n4 = length-append mid (32 ∷ last) in
    let fits : length mid ≤ 50 = omega arith in
    let empty : Written (replicate line_size none, 0) [] = record {
      size_eq = refl;
      end_eq = refl;
      text = refl;
    } in
    let (l1, e1, w1) = sprint-Written first (replicate line_size none) 0 [] empty (omega arith) in
    let (l2, e2, w2) = put_cells-Written 0 cells l1 first w1 (omega arith) in
    let (l3, e3, w3) = put_char-Written 32 l2.0 l2.1 (first ++ mid) w2 (omega arith) in
    let ((m, p), e4, w4) =
      put_chars-Written row l3 ((first ++ mid) ++ (32 ∷ [])) w3 (omega arith) in
    let whole : ((first ++ mid) ++ (32 ∷ [])) ++ last ≡ row_text co row =
      append_assoc (first ++ mid) (32 ∷ []) last ∙ append_assoc first mid (32 ∷ last) in
    let w5 : Written (m, p) (row_text co row) = subst (Written (m, p)) whole w4 in
    let size = w5.size_eq in
    let z = w5.end_eq in
    (
      set m p (some 0),
      put_line_steps co row l1 l2 l3 m p e1 e2 e3 e4 (omega arith),
      (
        length-set m p (some 0) ∙ size,
        ap (λ j. take (suc (length (row_text co row))) (set m j (some 0))) z
            ∙ take-set_next m (length (row_text co row)) (some 0) (omega arith)
            ∙ ap (λ y. y ++ (some 0 ∷ [])) w5.text,
      ),
    )

drop_all : (xs : Bytes) (n : ℕ) → length xs ≤ n → drop n xs ≡ []
drop_all [] zero h = refl
drop_all [] (suc n) h = refl
drop_all (x ∷ xs) zero h = absurd (ground arith)
drop_all (x ∷ xs) (suc n) h = drop_all xs n (omega arith)

put_lines-shown :
    (lines co : ℕ) (d : Bytes)
    → lines ≡ length d / 16
    → (ms : List Block) × (put_lines lines co d ≡ ok ms)
      × (length ms ≡ (length d + 15) / 16)
      × AreShown co d ms
unfolding put_lines
put_lines-shown zero co [] h = ([], refl, omega arith, refl)
put_lines-shown zero co (x ∷ d) h =
    let (m, e, s) = put_line-Shows co (x ∷ d) (omega arith) in
    (
      m ∷ [],
      rw (ne→not-== (suc (length d)) 0 (omega arith), e) refl,
      omega arith,
      (
        subst (λ y. Shows m (row_text co y)) (sym (take-all (x ∷ d) 16 (omega arith))) s,
        drop_all (x ∷ d) 16 (omega arith),
      ),
    )
put_lines-shown (suc lines) co d h =
    let t = length-take 16 d in
    let r = length-drop 16 d in
    let (m, e, s) = put_line-Shows co (take 16 d) (omega arith) in
    let (ms, f, n, k) = put_lines-shown lines (co + 16) (drop 16 d) (omega arith) in
    (m ∷ ms, rw (e, f) refl, omega arith, (s, k))

-- Whatever the data is, the code of hexdump that puts lines together stays within its array of 79
-- bytes, on each of the lines, of which there is one for every 16 bytes or less. Each line is the
-- offset, a cell for each of the 16 columns, with a blank behind every eighth and dashes for
-- columns behind the end, a blank, and the bytes as characters, printable or replaced.
pub hexdump-shown :
    (d : Bytes)
    → (ms : List Block) × (hexdump d ≡ ok ms) × (length ms ≡ (length d + 15) / 16) × AreShown 0 d ms
unfolding hexdump
hexdump-shown d = put_lines-shown (length d / 16) 0 d refl
