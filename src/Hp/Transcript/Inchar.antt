-- ===== src/Hp/Transcript/Inchar.antt =====
-- The machine of src/back/hp/fsm_inchar_hp.c over the echo of one character: one escape sequence,
-- the character, escape sequences.
use swh.Base.{ℕ, ◌≤◌, ◌≡◌, ◌≢◌, refl, List, [], ◌∷◌, ◌++◌, length, ok}
use swh.Memory.{flat, Bytes, load}
use swh.Ansiseq.Data.{Statics, zero_seq, start}
use swh.Ansiseq.Escape.{IsEscape, eatone-protoseq}
use swh.Fsm.{Fsm, fsm_feed, null, input}
use swh.Fsm.Runs.{Runs, Runs-append, feed-Runs}
use swh.Hp.State.{Hp}
use swh.Hp.Tokens.{mktok}
use swh.Hp.Machine.{Clean, AreEscapes, machine, Runs-escape, Runs-escapes_enter, Runs-char}
use swh.Hp.Inchar.{s_sta, s_cm1, s_inc, s_cm2, s_fin, s_err, num_states, delta, reset}

abbrev pub inchar_fsm : ℕ → Fsm Hp
inchar_fsm = machine num_states s_err s_fin delta reset

abbrev pub echo_text : Bytes → ℕ → List Bytes → Bytes
echo_text e c es = e ++ ((c ∷ []) ++ flat es)

pub Runs-inchar :
    (e : Bytes) (c : ℕ) (es : List Bytes) (w : Hp)
    → IsEscape e
    → c ≤ 255
    → c ≢ 0o33
    → es ≢ []
    → AreEscapes es
    → Clean w
    → (s : Statics) × (s.protoseq ≡ zero_seq)
      × Runs (inchar_fsm s_sta) w (echo_text e c es) (inchar_fsm s_cm2) (record w { ansi = s })
unfolding delta load
Runs-inchar e c [] w h b n m k p = absurd (m refl)
Runs-inchar e c (e' ∷ es) w h b n m k p =
    let w1 : Hp = record w { ansi = h.eaten.statics } in
    let p1 : Clean w1 = eatone-protoseq start e h.eats in
    let (s, q, r) =
      Runs-escapes_enter num_states s_err s_fin delta reset e' es s_inc s_cm2 w1 (refl, refl)
        (refl, refl) k p1 in
    (
      s,
      q,
      Runs-append (Runs-escape num_states s_err s_fin delta reset h p (refl, refl) refl) (
          Runs-append
            (Runs-char num_states s_err s_fin delta reset c {st = s_cm1} {st' = s_inc} w1 b n
              (refl, refl) refl)
            r),
    )

-- The machine for the echo of a character is in its starting state, and the prototype of the
-- escape sequences is as at the start. It is fed one escape sequence, a byte that is not ESC, and
-- one or more escape sequences. It eats all of it; nothing but the variables of the escape
-- sequences changes, and their prototype does not; the probe for the end of the data says yes;
-- and the end of the data brings it to its accepting state.
pub feed-inchar :
    (e : Bytes) (c : ℕ) (es : List Bytes) (w : Hp)
    → IsEscape e
    → c ≤ 255
    → c ≢ 0o33
    → es ≢ []
    → AreEscapes es
    → Clean w
    → (s : Statics) × (s.protoseq ≡ zero_seq)
      × (fsm_feed (inchar_fsm s_sta) (input (echo_text e c es)) w
          ≡ ok (length (echo_text e c es), inchar_fsm s_cm2, record w { ansi = s }))
      × (fsm_feed (inchar_fsm s_cm2) (null 0) (record w { ansi = s })
          ≡ ok (1, inchar_fsm s_cm2, record w { ansi = s }))
      × (fsm_feed (inchar_fsm s_cm2) (null 1) (record w { ansi = s })
          ≡ ok (1, inchar_fsm s_fin, record w { ansi = s }))
unfolding fsm_feed load delta mktok
feed-inchar e c es w h b n m k p =
    let (s, q, r) = Runs-inchar e c es w h b n m k p in (s, q, feed-Runs refl r, refl, refl)
