-- ===== src/Hp/Cmdout.antt =====
-- src/back/hp/fsm_cmdout_hp.c: the machine that eats the output of a command and the prompt.
use swh.Base.{ℕ, ◌+◌, ◌*◌, ◌%◌, some, List, [], ◌∷◌, ltb, leb, if◌then◌else◌, Outcome, ok, ◌>>=◌}
use swh.Memory.{Block, store}
use swh.Common.{Libc, size_mod, xrealloc, slice, memcpy, doublings, double_until}
use swh.Fsm.{Input, Trans, Fsm, fsm_new}
use swh.Hp.State.{Buf, Hp}
use swh.Hp.Tokens.{num_tokens, mktok}
use swh.Hp.Buffers.{char_of, new_buf, clear, append_char, recps}

abbrev pub s_sta : ℕ
s_sta = 0

abbrev pub s_cm1 : ℕ
s_cm1 = 1

abbrev pub s_out : ℕ
s_out = 2

abbrev pub s_cm2 : ℕ
s_cm2 = 3

abbrev pub s_ps1 : ℕ
s_ps1 = 4

abbrev pub s_cm3 : ℕ
s_cm3 = 5

abbrev pub s_fin : ℕ
s_fin = 6

abbrev pub s_err : ℕ
s_err = 7

abbrev pub num_states : ℕ
num_states = 8

abbrev pub outbufsz : ℕ
outbufsz = 4096

abbrev pub ps1bufsz : ℕ
ps1bufsz = 256

-- `f` on the buffer of the output, and on that of the prompt
abbrev pub on_out : (Buf → Outcome Buf) → Hp → Outcome Hp
on_out f w = f w.cmdout.outbuf >>= λ b. ok (record w { cmdout = record (w.cmdout) { outbuf = b } })

abbrev pub on_ps1 : (Buf → Outcome Buf) → Hp → Outcome Hp
on_ps1 f w = f w.cmdout.ps1buf >>= λ b. ok (record w { cmdout = record (w.cmdout) { ps1buf = b } })

unfoldable pub reset : Hp → Outcome Hp
unfolding clear
reset w = do
  b ← clear w.cmdout.outbuf
  b' ← clear w.cmdout.ps1buf
  ok (record w { cmdout = record { outbuf = b; ps1buf = b' } })

unfoldable pub act_nop : Input → Hp → Outcome Hp
act_nop c w = ok w

-- twice the size, with the terminator written again, when the character does not fit
unfoldable pub grow_out : Libc → Buf → Outcome Buf
unfolding xrealloc store
grow_out libc b =
    if leb b.size (b.count + 1)
    then (do
      let n = b.size * 2 % size_mod
      m ← xrealloc libc b.mem n
      m' ← store m b.count (some 0)
      ok (record b { mem = m'; size = n }))
    else ok b

unfoldable pub rec_char : Libc → ℕ → Buf → Outcome Buf
unfolding grow_out append_char
rec_char libc c b = grow_out libc b >>= append_char c

unfoldable pub act_rec : Libc → Input → Hp → Outcome Hp
unfolding rec_char
act_rec libc c = on_out (rec_char libc (char_of c))

unfoldable pub act_recps : Libc → Input → Hp → Outcome Hp
unfolding recps
act_recps libc c = on_ps1 (recps libc (char_of c))

-- `while (s_outbufcnt >= nsz) nsz *= 2;` and the growth of the prompt's buffer
unfoldable pub fit_ps1 : Libc → ℕ → Buf → Outcome Buf
unfolding double_until xrealloc
fit_ps1 libc n b = do
  nsz ← double_until doublings b.size (n + 1)
  (if ltb b.size nsz
      then (xrealloc libc b.mem nsz >>= λ m. ok (record b { mem = m; size = nsz }))
      else ok b)

-- the output recorded so far was the prompt
unfoldable pub act_noout : Libc → Input → Hp → Outcome Hp
unfolding fit_ps1 slice memcpy store clear
act_noout libc c w = do
  let out = w.cmdout.outbuf
  p ← fit_ps1 libc out.count w.cmdout.ps1buf
  xs ← slice out.mem 0 out.count
  m ← memcpy p.mem 0 xs
  m' ← store m out.count (some 0)
  out' ← clear out
  ok (record w {
    cmdout = record { outbuf = out'; ps1buf = record p { mem = m'; count = out.count } };
  })

module _ (libc : Libc) where
  abbrev to : ℕ → (Input → Hp → Outcome Hp) → Trans Hp
  to st act = record { state = st; action = act }

  abbrev to_err : Trans Hp
  to_err = to s_err act_nop

  unfoldable pub delta : List (Trans Hp)
  unfolding act_nop act_rec act_recps act_noout
  delta =
      to s_cm1 act_nop
      ∷ to_err
      ∷ to_err
      ∷ to s_cm1 act_nop
      ∷ to s_out (act_rec libc)
      ∷ to_err
      ∷ to s_cm2 act_nop
      ∷ to s_out (act_rec libc)
      ∷ to_err
      ∷ to s_cm2 act_nop
      ∷ to s_ps1 (act_recps libc)
      ∷ to s_fin (act_noout libc)
      ∷ to s_cm3 act_nop
      ∷ to s_ps1 (act_recps libc)
      ∷ to_err
      ∷ to s_cm3 act_nop
      ∷ to_err
      ∷ to s_fin act_nop
      ∷ to_err
      ∷ to_err
      ∷ to_err
      ∷ to_err
      ∷ to_err
      ∷ to_err
      ∷ []

  unfoldable pub init : Hp → Outcome (Fsm Hp × Hp)
  unfolding delta fsm_new new_buf mktok reset
  init w = do
    f ← fsm_new libc num_states num_tokens s_err s_sta (s_fin ∷ []) 1 delta mktok (some reset)
    w1 ← on_ps1 (new_buf libc ps1bufsz) w
    w2 ← on_out (new_buf libc outbufsz) w1
    ok (f, w2)

unfoldable pub ps1buf : Hp → Block
ps1buf w = w.cmdout.ps1buf.mem

unfoldable pub outbuf : Hp → Block
outbuf w = w.cmdout.outbuf.mem

unfoldable pub outbufcnt : Hp → ℕ
outbufcnt w = w.cmdout.outbuf.count
