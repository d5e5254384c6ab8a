-- ===== src/Hp/Transcript/Init.antt =====
-- The machine of src/back/hp/fsm_init_hp.c over what a switch says first: up to the request to
-- press a key, and from there to the first prompt.
use swh.Base.{ℕ, ◌*◌, ◌≤◌, ◌≡◌, ◌≢◌, refl, Bool, true, false, List, [], ◌∷◌, ◌++◌, length, ok}
use swh.Memory.{flat, Bytes, load}
use swh.Common.{Libc}
use swh.Common.Blocks.{Grants}
use swh.Fsm.{fsm_feed, null, input}
use swh.Fsm.Runs.{Runs, feed-Runs}
use swh.Hp.State.{Hp, CmdoutVars}
use swh.Hp.Tokens.{mktok}
use swh.Hp.Machine.{AreEscapes, IsText}
use swh.Hp.Init.{s_sta, s_cm2, s_cm4, s_fin, delta, anykey, report}
use swh.Hp.Transcript.Greeting.{init_fsm, Greeted, Runs-license, Runs-login}

-- A piece of a greeting: text, escape sequences, text, escape sequences.
pub record Part : Type 0 where
  pub first : Bytes
  pub between : List Bytes
  pub second : Bytes
  pub after : List Bytes

pub record IsPart (r : Part) : Type 0 where
  pub first_some : r.first ≢ []
  pub first_text : IsText r.first
  pub between_some : r.between ≢ []
  pub between_escapes : AreEscapes r.between
  pub second_some : r.second ≢ []
  pub second_text : IsText r.second
  pub after_some : r.after ≢ []
  pub after_escapes : AreEscapes r.after

abbrev pub part_text : Part → Bytes
part_text r = r.first ++ (flat r.between ++ (r.second ++ flat r.after))

module _ (libc : Libc) where
  license :
      (a : Bytes) (b : List Bytes) (c : Bytes) (d : List Bytes) {cm : CmdoutVars} (w : Hp)
      → a ≢ []
      → b ≢ []
      → c ≢ []
      → d ≢ []
      → IsText a
      → AreEscapes b
      → IsText c
      → AreEscapes d
      → Greeted libc [] false false cm w
      → (w' : Hp) × Greeted libc [] true false cm w'
        × Runs (init_fsm libc s_sta) w (a ++ (flat b ++ (c ++ flat d))) (init_fsm libc s_cm2) w'
  license [] b c d w n m k l t h u h' r = absurd (n refl)
  license (x ∷ a) [] c d w n m k l t h u h' r = absurd (m refl)
  license (x ∷ a) (y ∷ b) [] d w n m k l t h u h' r = absurd (k refl)
  license (x ∷ a) (y ∷ b) (z ∷ c) [] w n m k l t h u h' r = absurd (l refl)
  license (x ∷ a) (y ∷ b) (z ∷ c) (v ∷ d) w n m k l t h u h' r =
      Runs-license libc x a y b z c v d w t h u h' r

  login :
      (limit : ℕ) (a : Bytes) (b : List Bytes) (c : Bytes) (d : List Bytes) {ak : Bool}
      {cm : CmdoutVars} (w : Hp)
      → Grants libc (2 * limit)
      → length c ≤ limit
      → a ≢ []
      → b ≢ []
      → c ≢ []
      → d ≢ []
      → IsText a
      → AreEscapes b
      → IsText c
      → AreEscapes d
      → Greeted libc [] ak false cm w
      → (w' : Hp) × Greeted libc c ak true cm w'
        × Runs (init_fsm libc s_cm2) w (a ++ (flat b ++ (c ++ flat d))) (init_fsm libc s_cm4) w'
  login limit [] b c d w g i n m k l t h u h' r = absurd (n refl)
  login limit (x ∷ a) [] c d w g i n m k l t h u h' r = absurd (m refl)
  login limit (x ∷ a) (y ∷ b) [] d w g i n m k l t h u h' r = absurd (k refl)
  login limit (x ∷ a) (y ∷ b) (z ∷ c) [] w g i n m k l t h u h' r = absurd (l refl)
  login limit (x ∷ a) (y ∷ b) (z ∷ c) (v ∷ d) w g i n m k l t h u h' r =
      Runs-login libc limit x a y b z c v d w g i t h u h' r

  probe_cm4 : (w : Hp) → fsm_feed (init_fsm libc s_cm4) (null 0) w ≡ ok (1, init_fsm libc s_cm4, w)
  unfolding fsm_feed load delta mktok
  probe_cm4 w = refl

  finish_cm4 : (w : Hp) → fsm_feed (init_fsm libc s_cm4) (null 1) w ≡ ok (1, init_fsm libc s_fin, w)
  unfolding fsm_feed load delta mktok
  finish_cm4 w = refl

  -- with both flags read
  unset :
      {ps : Bytes} {ak rp : Bool} {cm : CmdoutVars} {w : Hp}
      → Greeted libc ps ak rp cm w
      → Greeted libc ps false false cm
          (record w { init = record { ps1buf = w.init.ps1buf; anykey = false; report = false } })
  unset k = record {
    clean = k.clean;
    prompt = k.prompt;
    anykey = refl;
    report = refl;
    kept = k.kept;
  }

  -- The machine for the greeting is in its starting state with a cleared buffer and cleared
  -- flags, and the prototype of the escape sequences as at the start. The greeting comes in two
  -- pieces, each of text, escape sequences, text and escape sequences, none of them empty and the
  -- texts free of ESC; the last text, the prompt, is not longer than a limit up to which the
  -- allocator grants the buffer's growth. The machine eats both pieces whole. After the first the
  -- flag for the key is set and that for the report is not; reading clears both. After the second
  -- the flag for the report is set and that for the key is not, and reading clears them again;
  -- the prompt is recorded, and the variables of the machine for a command's output are as
  -- before. Then the probe for the end of the data says yes, and the end of the data brings the
  -- machine to its accepting state.
  pub feed-greeting :
      (limit : ℕ) (r s : Part) {cm : CmdoutVars} (w : Hp)
      → Grants libc (2 * limit)
      → length s.second ≤ limit
      → IsPart r
      → IsPart s
      → Greeted libc [] false false cm w
      → (w1 u1 u w2 v w3 : Hp) × (fsm_feed (init_fsm libc s_sta) (input (part_text r)) w
          ≡ ok (length (part_text r), init_fsm libc s_cm2, w1))
        × (anykey w1 ≡ (true, u1))
        × (report u1 ≡ (false, u))
        × (fsm_feed (init_fsm libc s_cm2) (input (part_text s)) u
            ≡ ok (length (part_text s), init_fsm libc s_cm4, w2))
        × (anykey w2 ≡ (false, v))
        × (report v ≡ (true, w3))
        × Greeted libc s.second false false cm w3
        × (fsm_feed (init_fsm libc s_cm4) (null 0) w3 ≡ ok (1, init_fsm libc s_cm4, w3))
        × (fsm_feed (init_fsm libc s_cm4) (null 1) w3 ≡ ok (1, init_fsm libc s_fin, w3))
  unfolding anykey report
  feed-greeting limit r s {cm} w g l i j k =
      let (w1, k1, r1) =
        license r.first r.between r.second r.after w i.first_some i.between_some i.second_some
          i.after_some i.first_text i.between_escapes i.second_text i.after_escapes k in
      let u1 : Hp = record w1 { init = record (w1.init) { anykey = false } } in
      let u : Hp = record u1 { init = record (u1.init) { report = false } } in
      let (w2, k2, r2) =
        login limit s.first s.between s.second s.after u g l j.first_some j.between_some
          j.second_some j.after_some j.first_text j.between_escapes j.second_text j.after_escapes
          (unset k1) in
      let v : Hp = record w2 { init = record (w2.init) { anykey = false } } in
      let w3 : Hp = record v { init = record (v.init) { report = false } } in
      (
        w1,
        u1,
        u,
        w2,
        v,
        w3,
        feed-Runs refl r1,
        rw k1.anykey refl,
        rw k1.report refl,
        feed-Runs refl r2,
        rw k2.anykey refl,
        rw k2.report refl,
        unset k2,
        probe_cm4 w3,
        finish_cm4 w3,
      )
