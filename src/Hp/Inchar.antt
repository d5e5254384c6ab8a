-- ===== src/Hp/Inchar.antt =====
-- src/back/hp/fsm_inchar_hp.c: the machine that eats the echo of one character.
use swh.Base.{ℕ, some, List, [], ◌∷◌, Outcome, ok}
use swh.Common.{Libc}
use swh.Fsm.{Input, Trans, Fsm, fsm_new}
use swh.Hp.State.{Hp}
use swh.Hp.Tokens.{num_tokens, mktok}

abbrev pub s_sta : ℕ
s_sta = 0

abbrev pub s_cm1 : ℕ
s_cm1 = 1

abbrev pub s_inc : ℕ
s_inc = 2

abbrev pub s_cm2 : ℕ
s_cm2 = 3

abbrev pub s_fin : ℕ
s_fin = 4

abbrev pub s_err : ℕ
s_err = 5

abbrev pub num_states : ℕ
num_states = 6

unfoldable pub reset : Hp → Outcome Hp
reset w = ok w

unfoldable pub act_nop : Input → Hp → Outcome Hp
act_nop c w = ok w

abbrev to : ℕ → Trans Hp
to st = record { state = st; action = act_nop }

abbrev to_err : Trans Hp
to_err = to s_err

unfoldable pub delta : List (Trans Hp)
unfolding act_nop
delta =
    to s_cm1
    ∷ to_err
    ∷ to_err
    ∷ to_err
    ∷ to s_inc
    ∷ to_err
    ∷ to s_cm2
    ∷ to_err
    ∷ to_err
    ∷ to s_cm2
    ∷ to_err
    ∷ to s_fin
    ∷ to_err
    ∷ to_err
    ∷ to_err
    ∷ to_err
    ∷ to_err
    ∷ to_err
    ∷ []

unfoldable pub init : Libc → Outcome (Fsm Hp)
unfolding delta fsm_new mktok reset
init libc = fsm_new libc num_states num_tokens s_err s_sta (s_fin ∷ []) 1 delta mktok (some reset)
