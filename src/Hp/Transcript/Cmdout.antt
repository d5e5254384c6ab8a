-- ===== src/Hp/Transcript/Cmdout.antt =====
-- The machine of src/back/hp/fsm_cmdout_hp.c over the echo of a command line: escape sequences, the
-- output, escape sequences, the prompt, escape sequences.
use swh.Base.{
  ℕ, ◌+◌, ◌*◌, ◌≤◌, ◌<◌, ◌≡◌, ◌≢◌, refl, List, [], ◌∷◌, ◌++◌, length, arith, Outcome, ok,
}
use swh.Memory.{flat, Bytes, load}
use swh.Common.{Libc}
use swh.Common.Blocks.{Grants}
use swh.Fsm.{Input, Fsm, fsm_feed, null, input}
use swh.Fsm.Runs.{Runs, Runs-append, feed-Runs}
use swh.Hp.State.{Hp}
use swh.Hp.Tokens.{t_eseq, mktok}
use swh.Hp.Contents.{Holds, recps-Holds, rec_char-Holds}
use swh.Hp.Machine.{
  Clean, AreEscapes, IsText, machine, Entry, Records, Runs-text_enter, Runs-escapes_enter,
}
use swh.Hp.Cmdout.{
  s_sta, s_cm1, s_out, s_cm2, s_ps1, s_cm3, s_fin, s_err, num_states, act_rec, act_recps, reset,
  delta,
}

module _ (libc : Libc) where
  abbrev pub cmdout_fsm : ℕ → Fsm Hp
  cmdout_fsm = machine num_states s_err s_fin (delta libc) reset

  -- `xs` is the output recorded so far, `ps` the prompt.
  pub record Recorded (xs ps : Bytes) (w : Hp) : Type 0 where
    pub clean : Clean w
    pub output : Holds w.cmdout.outbuf xs
    pub prompt : Holds w.cmdout.ps1buf ps

  module _ (limit : ℕ) (g : Grants libc (2 * limit)) where
    less : {n : ℕ} → n < limit → Grants libc (2 * (n + 1))
    less l m h = g m (omega arith)

    act_rec-Records : (ps : Bytes) → Records limit (act_rec libc) (λ xs. Recorded xs ps)
    unfolding act_rec
    act_rec-Records ps c xs w l h =
        let (b, p, k) = rec_char-Holds libc h.output (less l) c in
        (
          record w { cmdout = record (w.cmdout) { outbuf = b } },
          rw p refl,
          record { clean = h.clean; output = k; prompt = h.prompt },
        )

    act_recps-Records : (xs : Bytes) → Records limit (act_recps libc) (λ ps. Recorded xs ps)
    unfolding act_recps
    act_recps-Records xs c ps w l h =
        let (b, p, k) = recps-Holds libc h.prompt (less l) c in
        (
          record w { cmdout = record (w.cmdout) { ps1buf = b } },
          rw p refl,
          record { clean = h.clean; output = h.output; prompt = k },
        )

  abbrev pub At : ℕ → ℕ → ℕ → (Input → Hp → Outcome Hp) → Type 0
  At = Entry num_states s_err s_fin (delta libc) reset

  abbrev pub quiet : Input → Hp → Outcome Hp
  quiet c w = ok w

  -- One escape sequence or more leave what is recorded.
  pub munch :
      (e : Bytes) (es : List Bytes) (st st' : ℕ) {xs ps : Bytes} (w : Hp)
      → At st t_eseq st' quiet
      → At st' t_eseq st' quiet
      → AreEscapes (e ∷ es)
      → Recorded xs ps w
      → (w' : Hp) × Recorded xs ps w' × Runs (cmdout_fsm st) w (flat (e ∷ es)) (cmdout_fsm st') w'
  munch e es st st' w l l' h k =
      let (s, p, r) =
        Runs-escapes_enter num_states s_err s_fin (delta libc) reset e es st st' w l l' h k.clean in
      (record w { ansi = s }, record { clean = p; output = k.output; prompt = k.prompt }, r)

  -- escape sequences, output
  eat_output :
      (limit : ℕ)
      → Grants libc (2 * limit)
      → (e : Bytes) (es : List Bytes) (c : ℕ) (cs : Bytes) (w : Hp) → AreEscapes (e ∷ es)
      → IsText (c ∷ cs)
      → length (c ∷ cs) ≤ limit
      → Recorded [] [] w
      → (w' : Hp) × Recorded (c ∷ cs) [] w'
        × Runs (cmdout_fsm s_sta) w (flat (e ∷ es) ++ (c ∷ cs)) (cmdout_fsm s_out) w'
  unfolding delta load
  eat_output limit g e es c cs w h t b k =
      let (w1, k1, r1) = munch e es s_sta s_cm1 w (refl, refl) (refl, refl) h k in
      let (w2, k2, r2) =
        Runs-text_enter num_states s_err s_fin (delta libc) reset limit (λ xs. Recorded xs [])
          (act_rec libc) s_cm1 s_out (refl, refl) (refl, refl) (act_rec-Records limit g []) c cs w1
          t b k1 in
      (w2, k2, Runs-append r1 r2)

  -- escape sequences, prompt, escape sequences
  eat_prompt :
      (limit : ℕ)
      → Grants libc (2 * limit)
      → (e : Bytes) (es : List Bytes) (c : ℕ) (cs : Bytes) (e' : Bytes) (es' : List Bytes)
        {xs : Bytes} (w : Hp)
      → AreEscapes (e ∷ es)
      → IsText (c ∷ cs)
      → length (c ∷ cs) ≤ limit
      → AreEscapes (e' ∷ es')
      → Recorded xs [] w
      → (w' : Hp) × Recorded xs (c ∷ cs) w'
        × Runs
            (cmdout_fsm s_out)
            w
            (flat (e ∷ es) ++ ((c ∷ cs) ++ flat (e' ∷ es')))
            (cmdout_fsm s_cm3)
            w'
  unfolding delta load
  eat_prompt limit g e es c cs e' es' {xs} w h t b h' k =
      let (w1, k1, r1) = munch e es s_out s_cm2 w (refl, refl) (refl, refl) h k in
      let (w2, k2, r2) =
        Runs-text_enter num_states s_err s_fin (delta libc) reset limit (λ ps. Recorded xs ps)
          (act_recps libc) s_cm2 s_ps1 (refl, refl) (refl, refl) (act_recps-Records limit g xs) c cs
          w1 t b k1 in
      let (w3, k3, r3) = munch e' es' s_ps1 s_cm3 w2 (refl, refl) (refl, refl) h' k2 in
      (w3, k3, Runs-append r1 (Runs-append r2 r3))

-- What a switch says to a command line: the echo's escape sequences, the output, escape sequences,
-- the prompt, escape sequences.
pub record Reply : Type 0 where
  pub before : List Bytes
  pub output : Bytes
  pub between : List Bytes
  pub prompt : Bytes
  pub after : List Bytes

pub record IsReply (r : Reply) : Type 0 where
  pub before_some : r.before ≢ []
  pub before_escapes : AreEscapes r.before
  pub output_some : r.output ≢ []
  pub output_text : IsText r.output
  pub between_some : r.between ≢ []
  pub between_escapes : AreEscapes r.between
  pub prompt_some : r.prompt ≢ []
  pub prompt_text : IsText r.prompt
  pub after_some : r.after ≢ []
  pub after_escapes : AreEscapes r.after

abbrev pub echo_text : Reply → Bytes
echo_text r = flat r.before ++ r.output

abbrev pub reply_text : Reply → Bytes
reply_text r = echo_text r ++ (flat r.between ++ (r.prompt ++ flat r.after))

module _ (libc : Libc) (limit : ℕ) (g : Grants libc (2 * limit)) where
  pub Runs-echo :
      (es : List Bytes) (xs : Bytes) (w : Hp)
      → es ≢ []
      → xs ≢ []
      → AreEscapes es
      → IsText xs
      → length xs ≤ limit
      → Recorded libc [] [] w
      → (w' : Hp) × Recorded libc xs [] w'
        × Runs (cmdout_fsm libc s_sta) w (flat es ++ xs) (cmdout_fsm libc s_out) w'
  Runs-echo [] xs w n m = absurd (n refl)
  Runs-echo (e ∷ es) [] w n m = absurd (m refl)
  Runs-echo (e ∷ es) (c ∷ cs) w n m = eat_output libc limit g e es c cs w

  Runs-prompt :
      (es : List Bytes) (ps : Bytes) (es' : List Bytes) {xs : Bytes} (w : Hp)
      → es ≢ []
      → ps ≢ []
      → es' ≢ []
      → AreEscapes es
      → IsText ps
      → length ps ≤ limit
      → AreEscapes es'
      → Recorded libc xs [] w
      → (w' : Hp) × Recorded libc xs ps w'
        × Runs (cmdout_fsm libc s_out) w (flat es ++ (ps ++ flat es')) (cmdout_fsm libc s_cm3) w'
  Runs-prompt [] ps es' w n m k = absurd (n refl)
  Runs-prompt (e ∷ es) [] es' w n m k = absurd (m refl)
  Runs-prompt (e ∷ es) (c ∷ cs) [] w n m k = absurd (k refl)
  Runs-prompt (e ∷ es) (c ∷ cs) (e' ∷ es') w n m k = eat_prompt libc limit g e es c cs e' es' w

  pub Runs-reply :
      (r : Reply) (w : Hp)
      → IsReply r
      → length r.output ≤ limit
      → length r.prompt ≤ limit
      → Recorded libc [] [] w
      → (w' : Hp) × Recorded libc r.output r.prompt w'
        × Runs (cmdout_fsm libc s_sta) w (reply_text r) (cmdout_fsm libc s_cm3) w'
  Runs-reply r w i l l' k =
      let (w1, k1, r1) =
        Runs-echo r.before r.output w i.before_some i.output_some i.before_escapes i.output_text l
          k in
      let (w2, k2, r2) =
        Runs-prompt r.between r.prompt r.after w1 i.between_some i.prompt_some i.after_some
          i.between_escapes i.prompt_text l' i.after_escapes k1 in
      (w2, k2, Runs-append r1 r2)

  -- The machine for the output of a command is in its starting state with cleared buffers, and
  -- the prototype of the escape sequences as at the start. It is fed a reply, escape sequences,
  -- output, escape sequences, a prompt, escape sequences, none of them empty, and the output and
  -- the prompt free of ESC and not longer than a limit up to which the allocator grants the
  -- buffers' growth. It eats all of it and records the output and the prompt; the probe for the
  -- end of the data says yes and changes nothing; and the end of the data brings it to its
  -- accepting state.
  pub feed-reply :
      (r : Reply) (w : Hp)
      → IsReply r
      → length r.output ≤ limit
      → length r.prompt ≤ limit
      → Recorded libc [] [] w
      → (w' : Hp) × Recorded libc r.output r.prompt w'
        × (fsm_feed (cmdout_fsm libc s_sta) (input (reply_text r)) w
            ≡ ok (length (reply_text r), cmdout_fsm libc s_cm3, w'))
        × (fsm_feed (cmdout_fsm libc s_cm3) (null 0) w' ≡ ok (1, cmdout_fsm libc s_cm3, w'))
        × (fsm_feed (cmdout_fsm libc s_cm3) (null 1) w' ≡ ok (1, cmdout_fsm libc s_fin, w'))
  unfolding fsm_feed load delta mktok
  feed-reply r w i l l' k =
      let (w', k', rs) = Runs-reply r w i l l' k in (w', k', feed-Runs refl rs, refl, refl)
