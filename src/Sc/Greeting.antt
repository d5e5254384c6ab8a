-- ===== src/Sc/Greeting.antt =====
-- src/sc.c from `sc_init` to the first prompt, with the machines of src/back/hp and the inner loop of
-- src/core.c: the switch greets, is answered, and shows its prompt.
use swh.Base.{
  ℕ, ◌+◌, ◌≤◌, ◌<◌, ◌≡◌, refl, sym, ap, ◌∙◌, false, List, [], ◌∷◌, ◌++◌, append_assoc, length,
  length-append, drop, arith, ok,
}
use mathlib.Core.Path.{subst}
use swh.Memory.{Bytes, flat}
use swh.Common.{Libc}
use swh.Common.Blocks.{Grants}
use swh.Common.Io.{ReadAnswer, got, again, System, xread}
use swh.Common.Io.Sends.{Willing, writing_answers}
use swh.Fsm.{fsm_error}
use swh.Hp.State.{Buf, Hp, initial}
use swh.Hp.Contents.{c_string, Holds}
use swh.Hp.Init
use swh.Hp.Cmdout
use swh.Hp.Inchar
use swh.Hp.Transcript.Init.{Part, IsPart, part_text, feed-greeting}
use swh.Hp.Transcript.Greeting.{init_fsm, Greeted}
use swh.Hp.Transcript.Cmdout.{Recorded}
use swh.Back.{fsm_init_hp_attach, hp_name, attach_all}
use swh.Sc.State.{init, Sc, put, sc_init, ready}
use swh.Sc.Operate.{key_text, report_text}
use swh.Sc.Buffers.{Filled}
use swh.Sc.Reading.{with_reads}
use swh.Sc.Completing.{Begins, oper_busy-completes}
use swh.Sc.Answering.{oper_busy-greets}
use swh.Sc.Pieces.{xread-got, drop-length}
use swh.Sc.Conversation.{hp, xread_again}
use swh.Sc.Session.{Waiting, some_length, ready-ready, ready_busy}
use swh.Sc.Start.{clean-Filled, clean-Holds, sc_init-starts, started, after_cmdout}
use swh.Core.{while_busy, Works-step, Works-append, Works-ends, busy_busy, operate_busy}

part_some : (r : Part) → IsPart r → 0 < length (part_text r)
part_some r i =
    let l = length-append r.first (flat r.between ++ (r.second ++ flat r.after)) in
    let m = some_length r.first i.first_some in omega arith

pub second_short : (r : Part) → length r.second ≤ length (part_text r)
second_short r =
    let l1 = length-append r.first (flat r.between ++ (r.second ++ flat r.after)) in
    let l2 = length-append (flat r.between) (r.second ++ flat r.after) in
    let l3 = length-append r.second (flat r.after) in omega arith

emptied : {b : Buf} (xs : Bytes) → Filled b (drop (length xs) ([] ++ xs)) → Filled b []
emptied {b} xs h = subst (Filled b) (drop-length xs) h

prompt_Begins :
    (libc : Libc) (w : Hp) {xs : Bytes}
    → Holds w.init.ps1buf xs
    → Begins ((hp libc).init.f_ps1buf w) xs
unfolding fsm_init_hp_attach Init.ps1buf
prompt_Begins libc w h = h.text

module _ (libc : Libc) where
  cm2_no_error : fsm_error (init_fsm libc Init.s_cm2) ≡ false
  unfolding fsm_error
  cm2_no_error = refl

  cm4_no_error : fsm_error (init_fsm libc Init.s_cm4) ≡ false
  unfolding fsm_error
  cm4_no_error = refl

  start_Greeted : Greeted libc [] false false after_cmdout.cmdout after_cmdout
  start_Greeted = record {
    clean = refl;
    prompt = clean-Holds 255 (omega arith);
    anykey = refl;
    report = refl;
    kept = refl;
  }

  recorded :
      {w : Hp} {ps : Bytes}
      → Greeted libc ps false false after_cmdout.cmdout w
      → Recorded libc [] [] w
  recorded {w} k = record {
    clean = k.clean;
    output = subst (λ c. Holds c.outbuf []) (sym k.kept) (clean-Holds 4095 (omega arith));
    prompt = subst (λ c. Holds c.ps1buf []) (sym k.kept) (clean-Holds 255 (omega arith));
  }

  -- The backend is that for HP switches; the allocator grants up to 8194 bytes; the switch greets
  -- in two parts of at most 4096 bytes, each of text, escape sequences, text and escape
  -- sequences, none of them empty and the texts free of ESC, each part read at once, and then
  -- says no more for a moment; no write fails, and 24 of them and so many more write something.
  -- Then sc_init returns, and the inner loop of core_run ends after some number of rounds in the
  -- state READY, with well-formed buffers and nothing queued or unread. The switch has got the
  -- key and the report that it asked for, in this order; there is no reply, and the prompt is
  -- that of the greeting up to its first NUL; and so many writes are left.
  pub greeting-answered :
      (r s : Part) (spare : ℕ) {todo : List ReadAnswer} (k : System)
      → IsPart r
      → IsPart s
      → length (part_text r) ≤ 4096
      → length (part_text s) ≤ 4096
      → Grants libc 8194
      → k.reads ≡ got (part_text r) ∷ got (part_text s) ∷ again ∷ todo
      → Willing k.writes
      → 24 + spare ≤ writing_answers k.writes
      → (s0 s1 : Sc Hp) × (rounds : ℕ) × (sc_init libc (attach_all libc hp_name) initial k
          ≡ ok (hp libc, s0))
        × (while_busy libc (hp libc) rounds s0 ≡ ok s1)
        × Waiting libc spare todo (k.sent ++ (key_text ++ report_text)) [] (c_string s.second) s1
  unfolding fsm_init_hp_attach
  greeting-answered r s spare {todo} k i j lr ls g rd wl en =
      let b = hp libc in
      let short = second_short s in
      let s0 : Sc Hp = started libc k in
      let (w1, u1, u, w2, v, w3, f1, a1, c1, f2, a2, c2, k3, f3, f4) =
        feed-greeting libc 4096 r s after_cmdout (λ n l. g n (omega arith)) (omega arith) i j
          start_Greeted in
      let (rb1, k1, p1, q1, e1, n1, d1, x1, y1) =
        oper_busy-greets libc b s0 {ys = []} {xs = part_text r}
          {as' = got (part_text s) ∷ again ∷ todo} (clean-Filled 4095 (omega arith))
          (ap xread rd ∙ xread-got (part_text r) _ (part_some r i)) (part_some r i) (omega arith) f1
          (part_some r i) (omega arith) cm2_no_error a1 c1 wl (omega arith) in
      let s1 : Sc Hp = record s0 {
        nodataflag = false;
        readbuf = rb1;
        fsm_init = init_fsm libc Init.s_cm2;
        back = u;
        system = k1;
      } in
      let (rb2, k2, p2, q2, e2, n2, d2, x2, y2) =
        oper_busy-greets libc b s1 {ys = []} {xs = part_text s} {as' = again ∷ todo}
          (emptied (part_text r) q1) (ap xread d1 ∙ xread-got (part_text s) _ (part_some s j))
          (part_some s j) (omega (arith, e1)) f2 (part_some s j) (omega arith) cm4_no_error a2 c2 x1
          (omega arith) in
      let s2 : Sc Hp = record s1 {
        nodataflag = false;
        readbuf = rb2;
        fsm_init = init_fsm libc Init.s_cm4;
        back = w3;
        system = k2;
      } in
      let (o, p, p3, ho, hp') =
        oper_busy-completes libc b s2 {as' = todo} [] s.second (emptied (part_text s) q2)
          (ap xread d2 ∙ xread_again libc todo) f3 (omega arith) f4
          (clean-Filled 4095 (omega arith)) (clean-Holds 4095 (omega arith))
          (clean-Holds 127 (omega arith)) refl (prompt_Begins libc w3 k3.prompt) (omega arith)
          (omega arith) (λ n l. g n (omega arith)) (λ n l. g n (omega arith)) in
      let s3 : Sc Hp = record (put init (init_fsm libc Init.s_fin) w3 (with_reads todo s2)) {
        outbuf = o;
        ps1buf = p;
        state = ready;
      } in
      let (rounds, done) =
        Works-ends libc b
          (Works-append libc b
            (Works-step libc b s0 (busy_busy libc b s0 refl) (operate_busy libc b s0 refl ∙ p1))
            (Works-append libc b
              (Works-step libc b s1 (busy_busy libc b s1 refl) (operate_busy libc b s1 refl ∙ p2))
              (Works-step libc b s2 (busy_busy libc b s2 refl) (operate_busy libc b s2 refl ∙ p3))))
          (ready_busy s3 refl) in
      (
        s0,
        s3,
        rounds,
        sc_init-starts libc k (λ n l. g n (omega arith)),
        done,
        record {
          ready_eq = ready-ready s3 refl;
          queued = clean-Filled 4095 (omega arith);
          unread = emptied (part_text s) q2;
          reply_kept = ho;
          prompt_kept = hp';
          xs = [];
          ys = [];
          recorded = recorded k3;
          st1 = Cmdout.s_sta;
          st2 = Inchar.s_sta;
          cmdout_fsm_eq = refl;
          inchar_fsm_eq = refl;
          willing = x2;
          enough = omega arith;
          reads_eq = refl;
          sent_eq = n2 ∙ ap (λ z. z ++ report_text) n1 ∙ append_assoc k.sent key_text report_text;
          large = omega (arith, e1, e2);
        },
      )
