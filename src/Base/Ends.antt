-- ===== src/Base/Ends.antt =====
-- Code that never waits: it runs out of neither fuel nor answers.
use mathlib.Core.Path.{◌≡◌, ap}
use mathlib.Core.Logic.{◌≢◌}
use mathlib.Core.Bool.{Bool, true, false}
use swh.Base.Tests.{if◌then◌else◌}
use swh.Base.Results.{Outcome, ok, Fault, fault, undefined, starved, Misuse, ◌>>=◌}

-- The fault does not say what was to be returned.
pub fault_same :
    {A B : Type 0} (e : Fault)
    → ◌≡◌ {A = Outcome A} (fault e) (fault starved)
    → ◌≡◌ {A = Outcome B} (fault e) (fault starved)
fault_same e h = let s : e ≡ starved = cc h in ap fault s

pub bind_ends :
    {A B : Type 0} (m : Outcome A) (k : A → Outcome B)
    → m ≢ fault starved
    → ((a : A) → k a ≢ fault starved)
    → (m >>= k) ≢ fault starved
bind_ends (ok a) k p q h = q a h
bind_ends (fault e) k p q h = p (fault_same e h)

pub if_ends :
    {A : Type 0} (b : Bool) (m n : Outcome A)
    → m ≢ fault starved
    → n ≢ fault starved
    → (if b then m else n) ≢ fault starved
if_ends true m n p q = p
if_ends false m n p q = q

pub ok_ends : {A : Type 0} (a : A) → ok a ≢ fault starved
ok_ends a h = cc h

pub undefined_ends :
    {A : Type 0} (u : Misuse) → ◌≢◌ {A = Outcome A} (fault (undefined u)) (fault starved)
undefined_ends u h = cc h
