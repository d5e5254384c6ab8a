-- ===== src/Ansiseq/Steps.antt =====
-- Single rounds of the loop of `ansiseq_eatone`.
use swh.Base.{
  ℕ, ◌≤◌, ◌<◌, ◌≡◌, ◌≢◌, refl, true, false, arith, ok, fault, critical, char_out_of_range,
  ansi_error_state,
}
use swh.Ansiseq.Data.{Statics, State, sta, esc, fin, err}
use swh.Ansiseq.Actions.{act_begin}
use swh.Ansiseq.Eat.{step, is_fin}

pub is_fin→fin : (st : State) → is_fin st ≡ true → st ≡ fin
unfolding is_fin
is_fin→fin st h = ground arith

pub ne_fin : (st : State) → is_fin st ≡ false → st ≢ fin
unfolding is_fin
ne_fin st h = ground arith

-- ESC begins a sequence, and begins it again in the middle of one.
pub step-escape :
    (st : State) (s : Statics) → st ≢ fin → st ≢ err → step st 0o33 s ≡ ok (esc, act_begin s)
unfolding step
step-escape sta s h g = refl
step-escape fin s h g = absurd (h refl)
step-escape err s h g = absurd (g refl)
step-escape _ s h g = refl

-- Only ESC begins a sequence.
pub step-sta :
    (c : ℕ) (s : Statics) → c ≢ 0o33 → c ≤ 255 → step sta c s ≡ fault (critical ansi_error_state)
unfolding step
step-sta c s h b = ground arith

pub step-sta_ne_fin : (c : ℕ) (s s' : Statics) → step sta c s ≢ ok (fin, s')
unfolding step
step-sta_ne_fin c s s' h = ground arith

pub step-high :
    (st : State) (c : ℕ) (s : Statics) → 255 < c → step st c s ≡ fault (critical char_out_of_range)
unfolding step
step-high st c s h = ground arith
