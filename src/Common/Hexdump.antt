-- ===== src/Common/Hexdump.antt =====
-- `hexdump` of src/common/common.c: the lines that it puts together in an array and gives to the log.
pub mod Writing
pub mod Lines
use swh.Base.{
  ℕ, zero, suc, ◌+◌, ◌-◌, ◌*◌, ◌/◌, ◌%◌, Bool, true, false, not, ◌&&◌, Option, none, some, List, [],
  ◌∷◌, ◌++◌, map, ltb, ◌==◌, if◌then◌else◌, length, take, drop, replicate, Outcome, ok, ◌>>=◌,
}
use swh.Memory.{Bytes, Block, store}
use swh.Common.{memcpy}

-- `char line[2+8+1+ 3*BPL+1 +1+BPL+1+1]`
abbrev pub line_size : ℕ
line_size = 79

-- the array and the offset of `lnend`
abbrev pub Line : Type 0
Line = Block × ℕ

abbrev pub hex_digit : ℕ → ℕ
hex_digit n = if ltb n 10 then 48 + n else 87 + n

-- `%x` of so many digits, zeros in front
abbrev pub hex_digits : ℕ → ℕ → Bytes
hex_digits zero n = []
hex_digits (suc k) n = hex_digits k (n / 16) ++ (hex_digit (n % 16) ∷ [])

-- the digits that a number below 2 ^ 32 is shown with, six at least
abbrev pub hex_width : ℕ → ℕ
hex_width n = if ltb n 16777216 then 6 else if ltb n 268435456 then 7 else 8

-- `%#08x ` of `(unsigned)co`: zeros in front up to eight characters, and `0x` in front of those but
-- for 0
unfoldable pub offset_text : ℕ → Bytes
offset_text co =
    let n = co % 4294967296 in
    if n == 0
    then replicate 8 48 ++ (32 ∷ [])
    else 48 ∷ 120 ∷ (hex_digits (hex_width n) n ++ (32 ∷ []))

-- ` %02x`, or ` --` where there is no byte
unfoldable pub cell_text : Option ℕ → Bytes
cell_text none = 32 ∷ 45 ∷ 45 ∷ []
cell_text (some b) = 32 ∷ hex_digits 2 b

abbrev pub printable : ℕ → ℕ
printable b = if not (ltb b 32) && ltb b 127 then b else 95

-- `lnend += sprintf(lnend, ...)`, which writes a NUL behind the text
unfoldable pub sprint : Bytes → Line → Outcome Line
unfolding memcpy store
sprint xs (m, p) = do
  m1 ← memcpy m p (map some xs)
  m2 ← store m1 (p + length xs) (some 0)
  ok (m2, p + length xs)

-- `*lnend++ = c`
unfoldable pub put_char : ℕ → Line → Outcome Line
unfolding store
put_char c (m, p) = store m p (some c) >>= λ m'. ok (m', p + 1)

-- the loop over the columns from `c` on
unfoldable pub put_cells : ℕ → List (Option ℕ) → Line → Outcome Line
unfolding cell_text sprint put_char
put_cells c [] l = ok l
put_cells c (b ∷ bs) l = do
  l1 ← sprint (cell_text b) l
  l2 ← (if c % 8 == 7 then put_char 32 l1 else ok l1)
  put_cells (c + 1) bs l2

-- the loop over the characters
unfoldable pub put_chars : Bytes → Line → Outcome Line
unfolding put_char
put_chars [] l = ok l
put_chars (b ∷ bs) l = put_char (printable b) l >>= put_chars bs

-- a line of so many bytes, and of blanks for the columns behind them
unfoldable pub put_line : ℕ → Bytes → Outcome Block
unfolding offset_text sprint put_cells put_char put_chars store
put_line co row = do
  l ← sprint (offset_text co) (replicate line_size none, 0)
  l1 ← put_cells 0 (map some row ++ replicate (16 - length row) none) l
  l2 ← put_char 32 l1
  (m, p) ← put_chars row l2
  store m p (some 0)

-- the lines, of which the last may be shorter
unfoldable pub put_lines : ℕ → ℕ → Bytes → Outcome (List Block)
unfolding put_line
put_lines zero co d =
    let last = put_line co d >>= λ m. ok (m ∷ []) in if length d == 0 then ok [] else last
put_lines (suc lines) co d = do
  m ← put_line co (take 16 d)
  ms ← put_lines lines (co + 16) (drop 16 d)
  ok (m ∷ ms)

unfoldable pub hexdump : Bytes → Outcome (List Block)
unfolding put_lines
hexdump d = put_lines (length d / 16) 0 d
