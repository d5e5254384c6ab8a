-- ===== src/Common.antt =====
-- src/common/common.c: memory, buffers, and the wrappers of read(2) and write(2). What malloc(3)
-- and realloc(3) grant is the record `Libc`; a `size_t` has 64 bits.
pub mod Blocks
pub mod Growth
pub mod Io
pub mod Select
pub mod Hexdump
pub mod Modes
pub mod Transcript
pub mod Transcribing
use swh.Base.{
  ℕ, zero, suc, ◌+◌, ◌-◌, ◌*◌, ◌%◌, ◌^◌, ◌<◌, ◌≡◌, Bool, true, Option, none, some, List, [], ◌∷◌,
  ◌++◌, ltb, leb, ◌==◌, if◌then◌else◌, length, take, drop, replicate, Outcome, ok, fault, critical,
  undefined, starved, out_of_bounds, malloc_failed, realloc_failed, ◌>>=◌,
}
use swh.Memory.{Bytes, Block}

abbrev pub size_mod : ℕ
size_mod = 18446744073709551616

-- The system's allocator. A request that is granted is not above PTRDIFF_MAX.
pub record Libc : Type 0 where
  pub alloc : ℕ → Bool
  pub alloc_small : (n : ℕ) → alloc n ≡ true → n < 9223372036854775808

-- a fresh block, its bytes not yet written
unfoldable pub xmalloc : Libc → ℕ → Outcome Block
xmalloc libc n = if libc.alloc n then ok (replicate n none) else fault (critical malloc_failed)

-- a block with its bytes kept, cut off or extended to the new size
abbrev pub resize : Block → ℕ → Block
resize m n = take n m ++ replicate (n - length m) none

unfoldable pub xrealloc : Libc → Block → ℕ → Outcome Block
xrealloc libc m n = if libc.alloc n then ok (resize m n) else fault (critical realloc_failed)

-- `memcpy` or `memmove` of bytes to the block's offset `i`
unfoldable pub memcpy : Block → ℕ → Block → Outcome Block
memcpy m i xs =
    if leb (i + length xs) (length m)
    then ok (take i m ++ (xs ++ drop (i + length xs) m))
    else fault (undefined out_of_bounds)

-- `n` bytes of a block from offset `i`
unfoldable pub slice : Block → ℕ → ℕ → Outcome Block
slice m i n =
    if leb (i + n) (length m) then ok (take n (drop i m)) else fault (undefined out_of_bounds)

-- `shiftbuf`: the block and the new count. `*bufcnt -= n` wraps.
unfoldable pub shiftbuf : Block → ℕ → ℕ → Outcome (Block × ℕ)
shiftbuf m cnt n = if n == 0 then ok (m, cnt) else (do
  let cnt' = (cnt + size_mod - n) % size_mod
  xs ← slice m n cnt'
  m' ← memcpy m 0 xs
  ok (m', cnt'))

-- `while (nsz < minsz) nsz *= 2;`
unfoldable pub double_until : ℕ → ℕ → ℕ → Outcome ℕ
double_until zero nsz minsz = fault starved
double_until (suc fuel) nsz minsz =
    let more = double_until fuel (nsz * 2 % size_mod) minsz in
    if ltb nsz minsz then more else ok nsz

-- 64 doublings bring any size that is not 0 to its bound, or past the end of `size_t`.
abbrev pub doublings : ℕ
doublings = 65

unfoldable pub growbuf : Libc → Block → ℕ → ℕ → Outcome (Block × ℕ)
unfolding double_until xrealloc
growbuf libc m bufsz minsz =
    if ltb minsz bufsz
    then ok (m, bufsz)
    else (do nsz ← double_until doublings bufsz minsz; m' ← xrealloc libc m nsz; ok (m', nsz))
