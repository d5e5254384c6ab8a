-- ===== src/Base/Results.antt =====
-- What a C function may do: return, end the process by the macro `C`, or do what C leaves
-- undefined. `starved` is the model's own: its fuel, or the given list of answers of the system,
-- has run out.
use mathlib.Core.Path.{◌≡◌, refl, subst}
use mathlib.Core.Logic.{◌⊎◌, inl, inr}
use mathlib.Core.Bool.{Bool, true, false}
use swh.Base.Tests.{if◌then◌else◌}

-- The calls of `C` and `CE`, by their place.
pub data Message : Type 0 where
  char_out_of_range ansi_error_state : Message
  malloc_failed realloc_failed : Message
  select_failed read_failed read_eof write_failed write_zero : Message
  no_such_backend : Message
  operate_ready operate_offline write_not_ready writebuf_not_empty : Message
  no_newline fsm_error_state meh outbuf_not_empty : Message
  no_such_uc sc_went_offline uc_failed uc_no_data wrong_child sc_not_started : Message
  host_missing fcntl_failed gettimeofday_failed transcript_failed close_failed : Message

pub data Misuse : Type 0 where
  out_of_bounds uninitialised int_overflow null_call : Misuse

pub data Fault : Type 0 where
  critical : Message → Fault
  undefined : Misuse → Fault
  starved : Fault

pub data Outcome {ℓ} (A : Type ℓ) : Type ℓ where
  ok : A → Outcome A
  fault : Fault → Outcome A

infixl 5 ◌>>=◌ ◌>>◌
abbrev pub ◌>>=◌ {ℓ κ} : {A : Type ℓ} {B : Type κ} → Outcome A → (A → Outcome B) → Outcome B
ok a >>= f = f a
fault e >>= f = fault e

abbrev pub ◌>>◌ {ℓ} : {B : Type ℓ} → Outcome (Unit {0}) → Outcome B → Outcome B
m >> k = m >>= λ _. k

pub Outcome-cases {ℓ} :
    {A : Type ℓ} (m : Outcome A) → ((a : A) × (m ≡ ok a)) ⊎ ((e : Fault) × (m ≡ fault e))
Outcome-cases (ok a) = inl (a, refl)
Outcome-cases (fault e) = inr (e, refl)

-- Inversion of a chain that returns.
pub bind-eq-ok {ℓ κ} :
    {A : Type ℓ} {B : Type κ} (m : Outcome A) (f : A → Outcome B) {b : B}
    → (m >>= f) ≡ ok b
    → (a : A) × (m ≡ ok a) × (f a ≡ ok b)
bind-eq-ok (ok a) f h = (a, refl, h)
bind-eq-ok (fault e) f h = cc

-- What holds of the result, if there is one.
abbrev pub Ensures {ℓ κ} : {A : Type ℓ} → (A → Type κ) → Outcome A → Type κ
Ensures P (ok a) = P a
Ensures P (fault e) = Unit

pub ensured {ℓ κ} :
    {A : Type ℓ} (P : A → Type κ) (m : Outcome A) {a : A} → Ensures P m → m ≡ ok a → P a
ensured P m h e = subst (Ensures P) e h

pub Ensures-bind {ℓ κ μ} :
    {A : Type ℓ} {B : Type κ} (P : B → Type μ) (m : Outcome A) (f : A → Outcome B)
    → ((a : A) → Ensures P (f a))
    → Ensures P (m >>= f)
Ensures-bind P (ok a) f h = h a
Ensures-bind P (fault e) f h = tt

pub Ensures-if {ℓ κ} :
    {A : Type ℓ} (P : A → Type κ) (c : Bool) (m n : Outcome A)
    → (c ≡ true → Ensures P m)
    → (c ≡ false → Ensures P n)
    → Ensures P (if c then m else n)
Ensures-if P true m n g h = g refl
Ensures-if P false m n g h = h refl

pub Ensures-follow {ℓ κ μ ν} :
    {A : Type ℓ} {B : Type κ} (P : A → Type ν) (Q : B → Type μ) (m : Outcome A) (f : A → Outcome B)
    → Ensures P m
    → ((a : A) → P a → Ensures Q (f a))
    → Ensures Q (m >>= f)
Ensures-follow P Q (ok a) f h g = g a h
Ensures-follow P Q (fault e) f h g = tt

pub Ensures-weaken {ℓ κ μ} :
    {A : Type ℓ} (P : A → Type κ) (Q : A → Type μ) (m : Outcome A)
    → Ensures P m
    → ((a : A) → P a → Ensures Q (ok a))
    → Ensures Q m
Ensures-weaken P Q (ok a) h g = g a h
Ensures-weaken P Q (fault e) h g = tt
