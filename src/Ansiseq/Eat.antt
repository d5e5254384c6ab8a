-- ===== src/Ansiseq/Eat.antt =====
-- `ansiseq_eatone` of src/back/ansiseq.c.
use swh.Base.{
  ℕ, ◌+◌, ℤ, negsuc, int_of_size, Bool, true, false, Option, none, some, [], ◌∷◌, if◌then◌else◌,
  Outcome, ok, fault, critical, ansi_error_state, ◌>>=◌,
}
use swh.Memory.{Bytes}
use swh.Ansiseq.Data.{Ansiseq, Statics, State, sta, fin, err}
use swh.Ansiseq.Table.{mktok, delta}
use swh.Ansiseq.Actions.{run_action}

-- the check of the new state: the error state ends the process
unfoldable pub arrive : State → Statics → Outcome (State × Statics)
arrive err s = fault (critical ansi_error_state)
arrive st s = ok (st, s)

-- one round of the loop
unfoldable pub step : State → ℕ → Statics → Outcome (State × Statics)
unfolding mktok delta run_action arrive
step st c s = do t ← mktok c; tr ← delta st t; s' ← run_action tr.1 c s; arrive tr.0 s'

unfoldable pub is_fin : State → Bool
is_fin fin = true
is_fin _ = false

-- the loop, with the number of bytes read so far
unfoldable pub eat : State → Statics → ℕ → Bytes → Outcome (State × Statics × ℕ)
eat st s i [] = ok (st, s, i)
eat st s i (c ∷ cs) = do
  (st', s') ← step st c s
  let more = eat st' s' (i + 1) cs
  (if is_fin st' then ok (fin, s', i + 1) else more)

-- `consumed` is the value, an `int`; `dst` is what is stored through the pointer, when it is not NULL.
pub record Eaten : Type 0 where
  pub consumed : ℤ
  pub dst : Option Ansiseq
  pub statics : Statics

-- `return -1`, or `return i`, which makes an `int` of a `size_t`
unfoldable pub finish : State × Statics × ℕ → Eaten
finish (fin, s, i) = record { consumed = int_of_size i; dst = some s.curseq; statics = s }
finish (st, s, i) = record { consumed = negsuc 0; dst = none; statics = s }

unfoldable pub ansiseq_eatone : Statics → Bytes → Outcome Eaten
unfolding eat finish step is_fin
ansiseq_eatone s input = eat sta s 0 input >>= λ r. ok (finish r)
