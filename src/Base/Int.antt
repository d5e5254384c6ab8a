-- ===== src/Base/Int.antt =====
-- The signed `int` and `char` values that the program stores or compares.
use Prim.Native.Nat.{ℕ, ◌-◌, ◌%◌, ◌≤◌}
use mathlib.Core.Path.{◌≡◌, refl, ap}
use mathlib.Core.Bool.{Bool, false}
use swh.Base.Tests.{ltb, ◌==◌, if◌then◌else◌, lt→ltb}
use native.Mathlib.Omega.{arith}

-- `negsuc n` is -(n + 1).
pub data ℤ : Type 0 where
  pos : ℕ → ℤ
  negsuc : ℕ → ℤ

abbrev pub int_max : ℕ
int_max = 2147483647

-- A character constant has the value of a `char`, which is signed with gcc on x86-64.
abbrev pub char_value : ℕ → ℤ
char_value n = if ltb n 128 then pos n else negsuc (255 - n)

-- `c == k` for an `int` c that is not negative.
abbrev pub int_eq : ℕ → ℤ → Bool
int_eq c (pos n) = c == n
int_eq c (negsuc n) = false

-- The conversions between `size_t`, of 64 bits, and `int`, of 32.
unfoldable pub int_of_size : ℕ → ℤ
int_of_size i =
    let n = i % 4294967296 in if ltb n 2147483648 then pos n else negsuc (4294967295 - n)

unfoldable pub size_of_int : ℤ → ℕ
size_of_int (pos n) = n
size_of_int (negsuc n) = 18446744073709551615 - n

pub int_of_size-small : (i : ℕ) → i ≤ int_max → int_of_size i ≡ pos i
unfolding int_of_size
int_of_size-small i h =
    let e : i % 4294967296 ≡ i = omega arith in rw (e, lt→ltb i 2147483648 (omega arith)) refl

pub int_of_size_pos : (i n : ℕ) → int_of_size i ≡ pos n → n ≤ int_max
unfolding int_of_size
int_of_size_pos i n e = ground arith

abbrev number : ℤ → ℕ
number (pos n) = n
number (negsuc n) = n

pub pos-inj : {m n : ℕ} → pos m ≡ pos n → m ≡ n
pos-inj e = ap number e
