-- ===== src/Hp/Transcript/Greeting.antt =====
-- The runs of the machine of src/back/hp/fsm_init_hp.c over the two pieces of a greeting.
use swh.Base.{
  ℕ, ◌*◌, ◌≤◌, ◌≡◌, refl, Bool, true, false, List, [], ◌∷◌, ◌++◌, length, arith, Outcome, ok,
}
use swh.Memory.{flat, Bytes, load}
use swh.Common.{Libc}
use swh.Common.Blocks.{Grants}
use swh.Ansiseq.Data.{start}
use swh.Ansiseq.Escape.{eatone-protoseq}
use swh.Fsm.{Input, Fsm}
use swh.Fsm.Runs.{Runs, Runs-nil, Runs-append}
use swh.Hp.State.{Hp, CmdoutVars}
use swh.Hp.Tokens.{t_eseq, t_rest}
use swh.Hp.Contents.{Holds, recps-Holds}
use swh.Hp.Machine.{
  Clean, AreEscapes, IsText, machine, Entry, Records, Runs-escape, Runs-escapes, Runs-escapes_enter,
  Runs-char, Runs-text_enter,
}
use swh.Hp.Init.{
  s_sta, s_lic, s_cm1, s_any, s_cm2, s_las, s_cm3, s_ps1, s_cm4, s_fin, s_err, num_states, delta,
  reset, act_recps,
}

module _ (libc : Libc) where
  abbrev pub init_fsm : ℕ → Fsm Hp
  init_fsm = machine num_states s_err s_fin (delta libc) reset

  -- the prompt recorded so far, the two flags, and the variables of the other machine
  pub record Greeted (ps : Bytes) (ak rp : Bool) (cm : CmdoutVars) (w : Hp) : Type 0 where
    pub clean : Clean w
    pub prompt : Holds w.init.ps1buf ps
    pub anykey : w.init.anykey ≡ ak
    pub report : w.init.report ≡ rp
    -- the variables of the machine for a command's output
    pub kept : w.cmdout ≡ cm

  abbrev At : ℕ → ℕ → ℕ → (Input → Hp → Outcome Hp) → Type 0
  At = Entry num_states s_err s_fin (delta libc) reset

  abbrev quiet : Input → Hp → Outcome Hp
  quiet c w = ok w

  munch :
      (e : Bytes) (es : List Bytes) (st st' : ℕ) {ps : Bytes} {ak rp : Bool} {cm : CmdoutVars}
      (w : Hp)
      → At st t_eseq st' quiet
      → At st' t_eseq st' quiet
      → AreEscapes (e ∷ es)
      → Greeted ps ak rp cm w
      → (w' : Hp) × Greeted ps ak rp cm w' × Runs (init_fsm st) w (flat (e ∷ es)) (init_fsm st') w'
  munch e es st st' w l l' h k =
      let (s, p, r) =
        Runs-escapes_enter num_states s_err s_fin (delta libc) reset e es st st' w l l' h k.clean in
      (
        record w { ansi = s },
        record {
          clean = p;
          prompt = k.prompt;
          anykey = k.anykey;
          report = k.report;
          kept = k.kept;
        },
        r,
      )

  -- text that is not recorded
  skim :
      (cs : Bytes) (st : ℕ) {ps : Bytes} {ak rp : Bool} {cm : CmdoutVars} (w : Hp)
      → At st t_rest st quiet
      → IsText cs
      → Greeted ps ak rp cm w
      → Runs (init_fsm st) w cs (init_fsm st) w
  skim [] st w l t k = Runs-nil (init_fsm st) w
  skim (c ∷ cs) st w l (t0, t1, ts) k =
      Runs-append (Runs-char num_states s_err s_fin (delta libc) reset c w t0 t1 l refl)
        (skim cs st w l ts k)

  skim_enter :
      (c : ℕ) (cs : Bytes) (st st' : ℕ) {ps : Bytes} {ak rp : Bool} {cm : CmdoutVars} (w : Hp)
      → At st t_rest st' quiet
      → At st' t_rest st' quiet
      → IsText (c ∷ cs)
      → Greeted ps ak rp cm w
      → Runs (init_fsm st) w (c ∷ cs) (init_fsm st') w
  skim_enter c cs st st' w l l' (t0, t1, ts) k =
      Runs-append (Runs-char num_states s_err s_fin (delta libc) reset c w t0 t1 l refl)
        (skim cs st' w l' ts k)

  act_recps-Records :
      (limit : ℕ) {ak rp : Bool} {cm : CmdoutVars}
      → Grants libc (2 * limit)
      → Records limit (act_recps libc) (λ ps. Greeted ps ak rp cm)
  unfolding act_recps
  act_recps-Records limit g c ps w l h =
      let (b, p, k) = recps-Holds libc h.prompt (λ m e. g m (omega arith)) c in
      (
        record w { init = record (w.init) { ps1buf = b } },
        rw p refl,
        record { clean = h.clean; prompt = k; anykey = h.anykey; report = h.report; kept = h.kept },
      )

  -- The first part of the greeting: text, escape sequences, the request to press a key, escape
  -- sequences. It sets the flag for the key.
  pub Runs-license :
      (c : ℕ) (cs e : Bytes) (es : List Bytes) (d : ℕ) (ds e' : Bytes) (es' : List Bytes)
      {cm : CmdoutVars} (w : Hp)
      → IsText (c ∷ cs)
      → AreEscapes (e ∷ es)
      → IsText (d ∷ ds)
      → AreEscapes (e' ∷ es')
      → Greeted [] false false cm w
      → (w' : Hp) × Greeted [] true false cm w'
        × Runs
            (init_fsm s_sta)
            w
            ((c ∷ cs) ++ (flat (e ∷ es) ++ ((d ∷ ds) ++ flat (e' ∷ es'))))
            (init_fsm s_cm2)
            w'
  unfolding delta load
  Runs-license c cs e es d ds e' es' w t h u (h', hs) k =
      let r1 = skim_enter c cs s_sta s_lic w (refl, refl) (refl, refl) t k in
      let (w2, k2, r2) = munch e es s_lic s_cm1 w (refl, refl) (refl, refl) h k in
      let r3 = skim_enter d ds s_cm1 s_any w2 (refl, refl) (refl, refl) u k2 in
      let w3 : Hp = record w2 {
        ansi = h'.eaten.statics;
        init = record (w2.init) { anykey = true };
      } in
      let p3 : Clean w3 = eatone-protoseq start e' h'.eats in
      let r4 : Runs (init_fsm s_any) w2 e' (init_fsm s_cm2) w3 =
        Runs-escape num_states s_err s_fin (delta libc) reset h' k2.clean (refl, refl) refl in
      let (s, q, r5) =
        Runs-escapes num_states s_err s_fin (delta libc) reset es' s_cm2 w3 (refl, refl) hs p3 in
      (
        record w3 { ansi = s },
        record { clean = q; prompt = k2.prompt; anykey = refl; report = k2.report; kept = k2.kept },
        Runs-append r1 (Runs-append r2 (Runs-append r3 (Runs-append r4 r5))),
      )

  -- The second part: the last login, escape sequences, the prompt, escape sequences. It sets the
  -- flag for the report and records the prompt.
  pub Runs-login :
      (limit : ℕ) (c : ℕ) (cs e : Bytes) (es : List Bytes) (p : ℕ) (ps e' : Bytes)
      (es' : List Bytes) {ak : Bool} {cm : CmdoutVars} (w : Hp)
      → Grants libc (2 * limit)
      → length (p ∷ ps) ≤ limit
      → IsText (c ∷ cs)
      → AreEscapes (e ∷ es)
      → IsText (p ∷ ps)
      → AreEscapes (e' ∷ es')
      → Greeted [] ak false cm w
      → (w' : Hp) × Greeted (p ∷ ps) ak true cm w'
        × Runs
            (init_fsm s_cm2)
            w
            ((c ∷ cs) ++ (flat (e ∷ es) ++ ((p ∷ ps) ++ flat (e' ∷ es'))))
            (init_fsm s_cm4)
            w'
  unfolding delta load
  Runs-login limit c cs e es p ps e' es' {ak} {cm} w g l (t0, t1, ts) h u h' k =
      let w1 : Hp = record w { init = record (w.init) { report = true } } in
      let k1 : Greeted [] ak true cm w1 = record {
        clean = k.clean;
        prompt = k.prompt;
        anykey = k.anykey;
        report = refl;
        kept = k.kept;
      } in
      let r1 : Runs (init_fsm s_cm2) w (c ∷ cs) (init_fsm s_las) w1 =
        Runs-append
          (Runs-char num_states s_err s_fin (delta libc) reset c {st = s_cm2} {st' = s_las} w t0 t1
            (refl, refl) refl)
          (skim cs s_las w1 (refl, refl) ts k1) in
      let (w2, k2, r2) = munch e es s_las s_cm3 w1 (refl, refl) (refl, refl) h k1 in
      let (w3, k3, r3) =
        Runs-text_enter num_states s_err s_fin (delta libc) reset limit
          (λ xs. Greeted xs ak true cm) (act_recps libc) s_cm3 s_ps1 (refl, refl) (refl, refl)
          (act_recps-Records limit g) p ps w2 u l k2 in
      let (w4, k4, r4) = munch e' es' s_ps1 s_cm4 w3 (refl, refl) (refl, refl) h' k3 in
      (w4, k4, Runs-append r1 (Runs-append r2 (Runs-append r3 r4)))
