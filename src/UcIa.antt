-- ===== src/UcIa.antt =====
-- src/front/ia/uc_ia.c: the interactive front end, which hands out what the user types line by line.
pub mod Lines
pub mod Printing
pub mod Reading
pub mod Waiting
use swh.Base.{
  ℕ, zero, suc, ◌+◌, ◌-◌, ◌*◌, ◌%◌, Bool, true, false, Option, none, some, List, [], ◌∷◌, ◌++◌, map,
  length, leb, ltb, ◌==◌, if◌then◌else◌, Outcome, ok, fault, critical, undefined, starved,
  out_of_bounds, uninitialised, read_failed, ◌>>=◌,
}
use swh.Memory.{Bytes, Block, store}
use swh.Common.{size_mod, slice, memcpy, shiftbuf}
use swh.Common.Io.{ReadAnswer, xread}
use swh.Common.Select.{SelectAnswer, selectfd}

abbrev pub readbufsz : ℕ
readbufsz = 4095

-- `s_readbuf` and `s_readbufcnt`, with what the kernel will answer on the descriptor 0, and what the
-- descriptor 1 got
pub record UcIa : Type 0 where
  pub readbuf : Block
  pub readbufcnt : ℕ
  pub reads : List ReadAnswer
  pub selects : List SelectAnswer
  -- what was printed
  pub shown : Bytes

abbrev next : Option ℕ → Option ℕ
next none = none
next (some i) = some (suc i)

-- `strchr`, with the offset of the character
unfoldable pub strchr : ℕ → Block → Outcome (Option ℕ)
strchr c [] = fault (undefined out_of_bounds)
strchr c (none ∷ m) = fault (undefined uninitialised)
strchr c (some x ∷ m) =
    let rest = strchr c m >>= λ p. ok (next p) in
    if x == c then ok (some 0) else if x == 0 then ok none else rest

-- the buffer behind what is read, or the end of the process for EAGAIN
unfoldable pub put_read : Option Bytes → UcIa → Outcome (ℕ × UcIa)
unfolding memcpy store
put_read none u = fault (critical read_failed)
put_read (some xs) u = do
  m ← memcpy u.readbuf u.readbufcnt (map some xs)
  let n = (u.readbufcnt + length xs) % size_mod
  m' ← store m n (some 0)
  ok (length xs, record u { readbuf = m'; readbufcnt = n })

unfoldable pub read_more : UcIa → Outcome (ℕ × UcIa)
unfolding xread put_read
read_more u = xread u.reads >>= λ (r, as'). put_read r (record u { reads = as' })

-- the loop of `uc_ia_hasdata`
unfoldable pub read_line : ℕ → Bool → UcIa → Outcome (ℕ × UcIa)
unfolding selectfd read_more strchr
read_line zero block u = fault starved
read_line (suc fuel) block u = do
  (r, as') ← selectfd block u.selects
  let u1 = record u { selects = as' }
  let more = read_more u1 >>= λ (n, u2).
      strchr 10 u2.readbuf >>= λ p. elim p [ none ↦ read_line fuel block u2 | some i ↦ ok (1, u2) ]
  (if r then more else ok (0, u1))

unfoldable pub uc_ia_hasdata : Bool → UcIa → Outcome (ℕ × UcIa)
unfolding strchr read_line
uc_ia_hasdata block u = strchr 10 u.readbuf >>= λ p. elim p [
  | none ↦ read_line (length u.selects + 1) block u
  | some i ↦ ok (1, u)
]

-- the bytes that `memcpy` takes: `copy`
abbrev pub copied : ℕ → ℕ → ℕ
copied len destsz = if leb destsz len then (destsz + size_mod - 1) % size_mod else len

-- `uc_ia_getdata`: the value, and what `dest` holds after it
unfoldable pub uc_ia_getdata : Block → ℕ → UcIa → Outcome (ℕ × Block × UcIa)
unfolding strchr slice memcpy shiftbuf store
uc_ia_getdata dest destsz u = strchr 10 u.readbuf >>= λ p. elim p [
  | none ↦ ok (0, dest, u)
  | some i ↦ do
    xs ← slice u.readbuf 0 (copied (i + 1) destsz)
    d ← memcpy dest 0 xs
    (m, n) ← shiftbuf u.readbuf u.readbufcnt (i + 1)
    m' ← store m n (some 0)
    ok (i + 1, d, record u { readbuf = m'; readbufcnt = n })
]

-- `%.*s`: the bytes in front of the first NUL, and not more than the precision
unfoldable pub text_upto : ℕ → Block → Outcome Bytes
text_upto zero m = ok []
text_upto (suc n) [] = fault (undefined out_of_bounds)
text_upto (suc n) (none ∷ m) = fault (undefined uninitialised)
text_upto (suc n) (some zero ∷ m) = ok []
text_upto (suc n) (some (suc c) ∷ m) = text_upto n m >>= λ xs. ok (suc c ∷ xs)

-- `(int)datalen`; a negative precision is as none at all
abbrev pub precision : ℕ → Block → ℕ
precision datalen m = let n = datalen % 4294967296 in if ltb n 2147483648 then n else length m + 1

unfoldable pub uc_ia_putdata : Block → ℕ → UcIa → Outcome (Bool × UcIa)
unfolding text_upto
uc_ia_putdata dat datalen u =
    text_upto (precision datalen dat) dat >>= λ xs. ok (true, record u { shown = u.shown ++ xs })
