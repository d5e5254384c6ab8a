-- ===== src/Hp/Transcript/Question.antt =====
-- The machine of src/back/hp/fsm_cmdout_hp.c over a reply with no output: a question, or only a
-- prompt. What was recorded as output is the prompt.
use swh.Base.{
  ℕ, suc, ◌+◌, ◌*◌, ◌<◌, ◌≡◌, ◌≢◌, refl, ◌∙◌, true, some, List, [], ◌∷◌, ◌++◌, map, length,
  length-set, length-take, take, set, take-set_next, arith, lt→ltb, le→not-ltb, ok,
}
use native.Mathlib.Decide.{dec_lt}
use swh.Memory.{flat, Bytes, Block, load, store}
use swh.Common.{Libc, slice, memcpy, resize}
use swh.Common.Blocks.{Grants, slice_lem, memcpy_front}
use swh.Common.Growth.{double_until_ends}
use swh.Fsm.{eof, fsm_feed, null, input}
use swh.Fsm.Runs.{Runs, Runs-append, feed-Runs}
use swh.Hp.State.{Hp, Buf}
use swh.Hp.Tokens.{mktok}
use swh.Hp.Buffers.{clear}
use swh.Hp.Contents.{Holds, resize-Holds, take_shorter, clear-Holds}
use swh.Hp.Machine.{AreEscapes, IsText}
use swh.Hp.Cmdout.{s_sta, s_out, s_cm2, s_fin, fit_ps1, act_noout, delta}
use swh.Hp.Transcript.Cmdout.{cmdout_fsm, Recorded, Runs-echo, munch}

copied_text :
    (b m : Block) (xs : Bytes) {n k : ℕ}
    → n ≡ length xs
    → k ≡ length xs
    → length xs < length m
    → take (suc (length xs)) b ≡ map some xs ++ (some 0 ∷ [])
    → take k m ≡ take n b
    → take (suc (length xs)) (set m n (some 0)) ≡ map some xs ++ (some 0 ∷ [])
copied_text b m xs e d l h t =
    let t' = rw (d, e) at t in
    rw e (take-set_next m (length xs) (some 0) l ∙ rw (t', take_shorter b xs (some 0) h) refl)

act_noout_steps :
    (libc : Libc) (w : Hp) {p out' : Buf} {xs m m' : Block}
    → fit_ps1 libc w.cmdout.outbuf.count w.cmdout.ps1buf ≡ ok p
    → slice w.cmdout.outbuf.mem 0 w.cmdout.outbuf.count ≡ ok xs
    → memcpy p.mem 0 xs ≡ ok m
    → store m w.cmdout.outbuf.count (some 0) ≡ ok m'
    → clear w.cmdout.outbuf ≡ ok out'
    → act_noout libc eof w
      ≡ ok (record w {
        cmdout = record {
          outbuf = out';
          ps1buf = record p { mem = m'; count = w.cmdout.outbuf.count };
        };
      })
unfolding act_noout
act_noout_steps libc w e1 e2 e3 e4 e5 = rw (e1, e2, e3, e4, e5) refl

probe_cm2 :
    (libc : Libc) (w : Hp)
    → fsm_feed (cmdout_fsm libc s_cm2) (null 0) w ≡ ok (1, cmdout_fsm libc s_cm2, w)
unfolding fsm_feed load delta mktok
probe_cm2 libc w = refl

finish_cm2 :
    (libc : Libc) (w : Hp) {w' : Hp}
    → act_noout libc eof w ≡ ok w'
    → fsm_feed (cmdout_fsm libc s_cm2) (null 1) w ≡ ok (1, cmdout_fsm libc s_fin, w')
unfolding fsm_feed load delta mktok
finish_cm2 libc w a = rw a refl

-- the echo's escape sequences, the text, escape sequences
abbrev pub question_text : List Bytes → Bytes → List Bytes → Bytes
question_text es xs es' = (flat es ++ xs) ++ flat es'

module _ (libc : Libc) (limit : ℕ) (g : Grants libc (2 * limit)) where
  fit_ps1-Holds :
      {b : Buf} (n : ℕ)
      → Holds b []
      → n < limit
      → n < 9223372036854775808
      → (b' : Buf) × (fit_ps1 libc n b ≡ ok b') × Holds b' [] × (n < b'.size)
  unfolding fit_ps1
  fit_ps1-Holds {b} n h l u =
      let (z, p, q, q', d) = double_until_ends b.size (n + 1) h.room (omega arith) in
      elim (dec_lt b.size z) [
        | yes more ↦
            let a : libc.alloc z ≡ true = g z (ground arith) in
            (
              record b { mem = resize b.mem z; size = z },
              rw (p, lt→ltb b.size z more, a) refl,
              resize-Holds z h q' (libc.alloc_small z a),
              omega arith,
            )
        | no same ↦ (b, rw (p, le→not-ltb b.size z (omega arith)) refl, h, omega arith)
      ]

  -- A text of a block copied to the front of another, and a terminator written behind it.
  copy-Holds :
      {b p : Buf} {xs : Bytes}
      → Holds b xs
      → Holds p []
      → length xs < p.size
      → (m m' : Block) × (slice b.mem 0 b.count ≡ ok (take b.count b.mem))
        × (memcpy p.mem 0 (take b.count b.mem) ≡ ok m)
        × (store m b.count (some 0) ≡ ok m')
        × Holds (record p { mem = m'; count = b.count }) xs
  unfolding store
  copy-Holds {b} {p} {xs} h k l =
      let len : length (take b.count b.mem) ≡ length xs =
        omega (arith, length-take b.count b.mem, h.count_eq, h.size_eq, h.room) in
      let (m, c, lm, t) = memcpy_front p.mem (take b.count b.mem) (omega (arith, k.size_eq)) in
      (
        m,
        set m b.count (some 0),
        slice_lem b.mem 0 b.count (omega (arith, h.count_eq, h.size_eq, h.room)),
        c,
        ground (arith, h.count_eq, k.size_eq),
        record {
          size_eq = omega (arith, length-set m b.count (some 0), k.size_eq);
          size_small = k.size_small;
          count_eq = h.count_eq;
          room = l;
          text = copied_text b.mem m xs h.count_eq len (omega (arith, k.size_eq)) h.text t;
        },
      )

  -- `act_noout` moves what was recorded as output to the prompt.
  act_noout-Recorded :
      {xs : Bytes} (w : Hp)
      → length xs < limit
      → Recorded libc xs [] w
      → (w' : Hp) × (act_noout libc eof w ≡ ok w') × Recorded libc [] xs w'
  act_noout-Recorded {xs} w l k =
      let h = k.output in
      let (p, e1, k1, l1) =
        fit_ps1-Holds w.cmdout.outbuf.count k.prompt (omega (arith, h.count_eq))
          (omega (arith, h.count_eq, h.room, h.size_small)) in
      let (m, m', e2, e3, e4, k2) = copy-Holds h k1 (omega (arith, h.count_eq)) in
      let (b, e5, k3) = clear-Holds h in
      (
        record w {
          cmdout = record {
            outbuf = b;
            ps1buf = record p { mem = m'; count = w.cmdout.outbuf.count };
          };
        },
        act_noout_steps libc w e1 e2 e3 e4 e5,
        record { clean = k.clean; output = k3; prompt = k2 },
      )

  Runs-question :
      (es : List Bytes) (xs : Bytes) (es' : List Bytes) (w : Hp)
      → es ≢ []
      → xs ≢ []
      → es' ≢ []
      → AreEscapes es
      → IsText xs
      → AreEscapes es'
      → length xs < limit
      → Recorded libc [] [] w
      → (w' : Hp) × Recorded libc xs [] w'
        × Runs (cmdout_fsm libc s_sta) w (question_text es xs es') (cmdout_fsm libc s_cm2) w'
  unfolding load delta
  Runs-question es xs [] w n m k h t h' l r = absurd (k refl)
  Runs-question es xs (e ∷ es') w n m k h t h' l r =
      let (w1, k1, r1) = Runs-echo libc limit g es xs w n m h t (omega arith) r in
      let (w2, k2, r2) = munch libc e es' s_out s_cm2 w1 (refl, refl) (refl, refl) h' k1 in
      (w2, k2, Runs-append r1 r2)

  -- The machine for the output of a command is in its starting state with cleared buffers, and
  -- the prototype of the escape sequences as at the start. It is fed escape sequences, a text
  -- free of ESC and shorter than a limit up to which the allocator grants the buffers' growth,
  -- and escape sequences, none of them empty, and no prompt. It eats all of it; the probe for the
  -- end of the data says yes; and the end of the data brings it to its accepting state, with the
  -- text as the prompt and no output.
  pub feed-question :
      (es : List Bytes) (xs : Bytes) (es' : List Bytes) (w : Hp)
      → es ≢ []
      → xs ≢ []
      → es' ≢ []
      → AreEscapes es
      → IsText xs
      → AreEscapes es'
      → length xs < limit
      → Recorded libc [] [] w
      → (w1 w2 : Hp) × (fsm_feed (cmdout_fsm libc s_sta) (input (question_text es xs es')) w
          ≡ ok (length (question_text es xs es'), cmdout_fsm libc s_cm2, w1))
        × (fsm_feed (cmdout_fsm libc s_cm2) (null 0) w1 ≡ ok (1, cmdout_fsm libc s_cm2, w1))
        × (fsm_feed (cmdout_fsm libc s_cm2) (null 1) w1 ≡ ok (1, cmdout_fsm libc s_fin, w2))
        × Recorded libc [] xs w2
  feed-question es xs es' w n m k h t h' l r =
      let (w1, k1, rs) = Runs-question es xs es' w n m k h t h' l r in
      let (w2, a, k2) = act_noout-Recorded w1 l k1 in
      (w1, w2, feed-Runs refl rs, probe_cm2 libc w1, finish_cm2 libc w1 a, k2)
