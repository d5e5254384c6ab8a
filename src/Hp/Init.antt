-- ===== src/Hp/Init.antt =====
-- src/back/hp/fsm_init_hp.c: the machine that eats what a switch says first.
use swh.Base.{ℕ, Bool, true, false, some, List, [], ◌∷◌, Outcome, ok, ◌>>=◌}
use swh.Memory.{Block}
use swh.Common.{Libc}
use swh.Fsm.{Input, Trans, Fsm, fsm_new}
use swh.Hp.State.{Buf, Hp}
use swh.Hp.Tokens.{num_tokens, mktok}
use swh.Hp.Buffers.{char_of, new_buf, clear, recps}

abbrev pub s_sta : ℕ
s_sta = 0

abbrev pub s_lic : ℕ
s_lic = 1

abbrev pub s_cm1 : ℕ
s_cm1 = 2

abbrev pub s_any : ℕ
s_any = 3

abbrev pub s_cm2 : ℕ
s_cm2 = 4

abbrev pub s_las : ℕ
s_las = 5

abbrev pub s_cm3 : ℕ
s_cm3 = 6

abbrev pub s_ps1 : ℕ
s_ps1 = 7

abbrev pub s_cm4 : ℕ
s_cm4 = 8

abbrev pub s_fin : ℕ
s_fin = 9

abbrev pub s_err : ℕ
s_err = 10

abbrev pub num_states : ℕ
num_states = 11

abbrev pub ps1bufsz : ℕ
ps1bufsz = 256

-- `f` on the buffer of the prompt
abbrev on_ps1 : (Buf → Outcome Buf) → Hp → Outcome Hp
on_ps1 f w = f w.init.ps1buf >>= λ b. ok (record w { init = record (w.init) { ps1buf = b } })

unfoldable pub reset : Hp → Outcome Hp
unfolding clear
reset w = do
  b ← clear w.init.ps1buf
  ok (record w { init = record { ps1buf = b; anykey = false; report = false } })

unfoldable pub act_nop : Input → Hp → Outcome Hp
act_nop c w = ok w

unfoldable pub act_ak : Input → Hp → Outcome Hp
act_ak c w = ok (record w { init = record (w.init) { anykey = true } })

unfoldable pub act_report : Input → Hp → Outcome Hp
act_report c w = ok (record w { init = record (w.init) { report = true } })

unfoldable pub act_recps : Libc → Input → Hp → Outcome Hp
unfolding recps
act_recps libc c = on_ps1 (recps libc (char_of c))

module _ (libc : Libc) where
  abbrev to : ℕ → (Input → Hp → Outcome Hp) → Trans Hp
  to st act = record { state = st; action = act }

  abbrev to_err : Trans Hp
  to_err = to s_err act_nop

  unfoldable pub delta : List (Trans Hp)
  unfolding act_nop act_ak act_report act_recps
  delta =
      to_err
      ∷ to s_lic act_nop
      ∷ to_err
      ∷ to s_cm1 act_nop
      ∷ to s_lic act_nop
      ∷ to_err
      ∷ to s_cm1 act_nop
      ∷ to s_any act_nop
      ∷ to_err
      ∷ to s_cm2 act_ak
      ∷ to s_any act_nop
      ∷ to_err
      ∷ to s_cm2 act_nop
      ∷ to s_las act_report
      ∷ to_err
      ∷ to s_cm3 act_nop
      ∷ to s_las act_nop
      ∷ to_err
      ∷ to s_cm3 act_nop
      ∷ to s_ps1 (act_recps libc)
      ∷ to_err
      ∷ to s_cm4 act_nop
      ∷ to s_ps1 (act_recps libc)
      ∷ to_err
      ∷ to s_cm4 act_nop
      ∷ to_err
      ∷ to s_fin act_nop
      ∷ to_err
      ∷ to_err
      ∷ to_err
      ∷ to_err
      ∷ to_err
      ∷ to_err
      ∷ []

  unfoldable pub init : Hp → Outcome (Fsm Hp × Hp)
  unfolding delta fsm_new new_buf mktok reset
  init w = do
    f ← fsm_new libc num_states num_tokens s_err s_sta (s_fin ∷ []) 1 delta mktok (some reset)
    w' ← on_ps1 (new_buf libc ps1bufsz) w
    ok (f, w')

unfoldable pub ps1buf : Hp → Block
ps1buf w = w.init.ps1buf.mem

-- A flag is cleared as it is read.
unfoldable pub anykey : Hp → Bool × Hp
anykey w = (w.init.anykey, record w { init = record (w.init) { anykey = false } })

unfoldable pub report : Hp → Bool × Hp
report w = (w.init.report, record w { init = record (w.init) { report = false } })
