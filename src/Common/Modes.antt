-- ===== src/Common/Modes.antt =====
-- `setblocking` and `msleep` of src/common/common.c. The status flags of a descriptor are a number, in which
-- O_NONBLOCK is the bit of 2048; fcntl(2) is given as what it answers.
use swh.Base.{
  ℕ, ◌+◌, ◌-◌, ◌*◌, ◌/◌, ◌%◌, ◌≡◌, ◌≢◌, refl, Bool, true, false, Option, none, some, ◌==◌,
  if◌then◌else◌, arith, Outcome, ok, fault, critical, fcntl_failed,
}

abbrev o_nonblock : ℕ
o_nonblock = 2048

-- `fl & O_NONBLOCK`
abbrev nonblocking : ℕ → Bool
nonblocking fl = fl / o_nonblock % 2 == 1

-- `fl &= ~O_NONBLOCK` and `fl |= O_NONBLOCK`
abbrev pub with_mode : Bool → ℕ → ℕ
with_mode true fl = if nonblocking fl then fl - o_nonblock else fl
with_mode false fl = if nonblocking fl then fl else fl + o_nonblock

-- the flags that are set, given those that F_GETFL gives, if it does not fail, and whether F_SETFL
-- succeeds
unfoldable pub setblocking : Bool → Option ℕ → Bool → Outcome ℕ
setblocking blocking none set = fault (critical fcntl_failed)
setblocking blocking (some fl) set =
    if set then ok (with_mode blocking fl) else fault (critical fcntl_failed)

-- the seconds and nanoseconds that nanosleep(2) is asked for
unfoldable pub msleep : ℕ → ℕ × ℕ
msleep ms = (ms / 1000, ms % 1000 * 1000000)

-- the value of the bit
abbrev mode_bit : Bool → ℕ
mode_bit true = 0
mode_bit false = 1

-- what the flags are to be: the bit has a value, the others are kept
record Moded (fl bit r : ℕ) : Type 0 where
  this : r / 2048 % 2 ≡ bit
  below : r % 2048 ≡ fl % 2048
  above : r / 4096 ≡ fl / 4096

cleared : (fl : ℕ) → fl / 2048 % 2 ≡ 1 → Moded fl 0 (fl - 2048)
cleared fl h = record { this = omega arith; below = omega arith; above = omega arith }

added : (fl : ℕ) → fl / 2048 % 2 ≢ 1 → Moded fl 1 (fl + 2048)
added fl h = record { this = omega arith; below = omega arith; above = omega arith }

kept : (fl bit : ℕ) → fl / 2048 % 2 ≡ bit → Moded fl bit fl
kept fl bit h = record { this = h; below = refl; above = refl }

if-Moded :
    (fl bit x y : ℕ) (c : Bool)
    → (c ≡ true → Moded fl bit x)
    → (c ≡ false → Moded fl bit y)
    → Moded fl bit (if c then x else y)
if-Moded fl bit x y true f g = f refl
if-Moded fl bit x y false f g = g refl

is_one : (n : ℕ) → (n == 1) ≡ true → n ≡ 1
is_one n h = ground arith

not_one : (n : ℕ) → (n == 1) ≡ false → n ≢ 1
not_one n h = ground arith

with_mode-Moded : (blocking : Bool) (fl : ℕ) → Moded fl (mode_bit blocking) (with_mode blocking fl)
with_mode-Moded true fl =
    if-Moded fl 0 (fl - 2048) fl (nonblocking fl) (λ h. cleared fl (is_one _ h))
      (λ h. let n = not_one (fl / 2048 % 2) h in kept fl 0 (omega arith))
with_mode-Moded false fl =
    if-Moded fl 1 fl (fl + 2048) (nonblocking fl) (λ h. kept fl 1 (is_one _ h))
      (λ h. added fl (not_one _ h))

-- When fcntl gives the flags and sets them, setblocking sets flags in which O_NONBLOCK is off for
-- blocking and on otherwise, and every other bit is as it was.
setblocking-bit :
    (blocking : Bool) (fl : ℕ)
    → (r : ℕ) × (setblocking blocking (some fl) true ≡ ok r)
      × (r / o_nonblock % 2 ≡ mode_bit blocking)
      × (r % o_nonblock ≡ fl % o_nonblock)
      × (r / (o_nonblock * 2) ≡ fl / (o_nonblock * 2))
unfolding setblocking
setblocking-bit blocking fl =
    let m = with_mode-Moded blocking fl in (with_mode blocking fl, refl, m.this, m.below, m.above)
