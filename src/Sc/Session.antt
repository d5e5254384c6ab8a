-- ===== src/Sc/Session.antt =====
-- A command from `sc_write` to the reply: src/sc.c, the inner loop of src/core.c, and the machines of
-- src/back/hp together.
use swh.Base.{
  ℕ, ◌+◌, ◌*◌, ◌≤◌, ◌<◌, ◌≡◌, ◌≢◌, refl, sym, ap, ◌∙◌, true, false, not, ◌&&◌, some, List, [], ◌∷◌,
  ◌++◌, append-nil, append_assoc, map, length, length-append, take, arith, ok,
}
use swh.Memory.{flat, Bytes, Block}
use swh.Common.{Libc}
use swh.Common.Blocks.{Grants}
use swh.Common.Io.{ReadAnswer, again}
use swh.Common.Io.Sends.{Willing, writing_answers}
use swh.Fsm.{fsm_reset, fsm_error}
use swh.Hp.State.{Hp}
use swh.Hp.Contents.{Holds, c_string}
use swh.Hp.Cmdout
use swh.Back.{fsm_cmdout_hp_attach}
use swh.Hp.Transcript.Cmdout.{cmdout_fsm, Recorded, Reply, IsReply, reply_text, feed-reply}
use swh.Hp.Transcript.Inchar.{inchar_fsm}
use swh.Sc.State.{
  busy, ready, writing, cmdout, Sc, put, sc_busy, sc_ready, sc_offline, is_ready, is_offline,
}
use swh.Sc.Operate.{sc_write}
use swh.Hp.Tokenizer.{mktok-IsTokenizer}
use swh.Sc.Pieces.{gots, AllSome, reading-pieces}
use swh.Sc.Buffers.{Filled}
use swh.Sc.Writing.{oper_writing-to, sc_write-queues}
use swh.Sc.Reading.{with_reads}
use swh.Sc.Completing.{Begins, oper_busy-completes}
use swh.Sc.Conversation.{hp, Typing, Echo, IsEcho, type_char, reset_cmdout, xread_again, feed_whole}
use swh.Core.{
  while_busy, Works, Works-nil, Works-step, Works-append, Works-ends, busy_busy, busy_writing,
  operate_busy, operate_writing,
}

-- One echo for each character, and no character is a newline.
abbrev pub Typed : Bytes → List Echo → Type 0
Typed [] [] = Unit
Typed [] (e ∷ es) = ⊥
Typed (c ∷ cs) [] = ⊥
Typed (c ∷ cs) (e ∷ es) = (c ≢ 10) × IsEcho e × Typed cs es

-- Each echo comes in its pieces, and nothing more until the next character is sent.
abbrev pub echoes : List Echo → List ReadAnswer → List ReadAnswer
echoes [] todo = todo
echoes (e ∷ es) todo = gots (e.first_piece ∷ e.pieces) (again ∷ echoes es todo)

abbrev pub newline : Bytes
newline = 10 ∷ []

not_error : (libc : Libc) → fsm_error (cmdout_fsm libc Cmdout.s_cm3) ≡ false
unfolding fsm_error
not_error libc = refl

pub ready-ready : {W : Type 0} (s : Sc W) → s.state ≡ ready → sc_ready s ≡ true
unfolding sc_ready
ready-ready s e = ap is_ready e

pub ready_busy : {W : Type 0} (s : Sc W) → s.state ≡ ready → sc_busy s ≡ false
unfolding sc_busy sc_ready sc_offline
ready_busy s e = ap (λ p. not (is_ready p) && not (is_offline p)) e

pub some_length : (xs : Bytes) → xs ≢ [] → 0 < length xs
some_length [] h = absurd (h refl)
some_length (x ∷ xs) h = omega arith

-- The parts of a reply are not longer than the whole, which is not empty.
pub reply_lengths :
    (r : Reply)
    → IsReply r
    → (length r.output ≤ length (reply_text r))
      × (length r.prompt ≤ length (reply_text r))
      × (0 < length (reply_text r))
reply_lengths r i =
    let rest = flat r.between ++ (r.prompt ++ flat r.after) in
    let l1 = length-append (flat r.before ++ r.output) rest in
    let l2 = length-append (flat r.before) r.output in
    let l3 = length-append (flat r.between) (r.prompt ++ flat r.after) in
    let l4 = length-append r.prompt (flat r.after) in
    let l5 = some_length r.output i.output_some in (omega arith, omega arith, omega arith)

out_Begins :
    (libc : Libc) (w : Hp) {xs : Bytes}
    → Holds w.cmdout.outbuf xs
    → Begins ((hp libc).cmdout.f_outbuf w) xs
unfolding fsm_cmdout_hp_attach Cmdout.outbuf
out_Begins libc w h = h.text

prompt_Begins :
    (libc : Libc) (w : Hp) {xs : Bytes}
    → Holds w.cmdout.ps1buf xs
    → Begins ((hp libc).cmdout.f_ps1buf w) xs
unfolding fsm_cmdout_hp_attach Cmdout.ps1buf
prompt_Begins libc w h = h.text

module _ (libc : Libc) where
  type_line :
      (cs : Bytes) (es : List Echo) {spare : ℕ} {todo : List ReadAnswer} {done : Bytes} (s : Sc Hp)
      → Typed cs es
      → Typing libc spare (cs ++ newline) (echoes es todo) done s
      → (s' : Sc Hp) × Typing libc spare newline todo (done ++ cs) s' × Works libc (hp libc) s s'
  type_line [] [] {todo} {done} s h t = (s, rw append-nil t, Works-nil libc (hp libc) s)
  type_line [] (e ∷ es) s h t = absurd h
  type_line (c ∷ cs) [] s h t = absurd h
  type_line (c ∷ cs) (e ∷ es) {todo} {done} s (n, i, h) t =
      let (s1, t1, r1) =
        type_char libc c (cs ++ newline) e s n (omega (arith, length-append cs newline)) i t in
      let (s2, t2, r2) = type_line cs es s1 h t1 in
      (s2, rw⁻¹ (append_assoc done (c ∷ []) cs) t2, Works-append libc (hp libc) r1 r2)

  -- Between two commands: READY, with the last reply and prompt, and enough answers for `spare` bytes.
  pub record Waiting (spare : ℕ) (todo : List ReadAnswer) (done reply ps : Bytes) (s : Sc Hp)
      : Type 0 where
    pub ready_eq : sc_ready s ≡ true
    pub queued : Filled s.writebuf []
    pub unread : Filled s.readbuf []
    pub reply_kept : Holds s.outbuf reply
    pub prompt_kept : Holds s.ps1buf ps
    pub xs : Bytes
    pub ys : Bytes
    pub recorded : Recorded libc xs ys s.back
    pub st1 : ℕ
    pub st2 : ℕ
    pub cmdout_fsm_eq : s.fsm_cmdout ≡ cmdout_fsm libc st1
    pub inchar_fsm_eq : s.fsm_inchar ≡ inchar_fsm st2
    pub willing : Willing s.system.writes
    pub enough : spare ≤ writing_answers s.system.writes
    pub reads_eq : s.system.reads ≡ todo
    pub sent_eq : s.system.sent ≡ done
    pub large : 4096 ≤ s.readbuf.size

  -- The newline is sent, the reply is eaten, and the end of the data is accepted: three rounds.
  type_newline :
      (r : Reply) (piece : Bytes) (pieces : List Bytes) {spare : ℕ} {todo : List ReadAnswer}
      {done : Bytes} (s : Sc Hp)
      → IsReply r
      → length (reply_text r) ≤ 4096
      → AllSome (piece ∷ pieces)
      → flat (piece ∷ pieces) ≡ reply_text r
      → ((n : ℕ) → n ≤ 8194 → libc.alloc n ≡ true)
      → Typing libc spare newline (gots (piece ∷ pieces) (again ∷ todo)) done s
      → (s' : Sc Hp) × Waiting spare todo
          (done ++ newline)
          (c_string r.output)
          (c_string r.prompt)
          s'
        × (sc_busy s' ≡ false)
        × Works libc (hp libc) s s'
  type_newline r piece pieces {todo} {done} s i short sm wh g t =
      let (lo, lp, lx) = reply_lengths r i in
      let (w1, f0, k1) = reset_cmdout libc t.st1 s.back t.recorded in
      let (wb, k, p1, q1, q2, q3, q4, q5) =
        oper_writing-to s 10 [] cmdout {f = cmdout_fsm libc Cmdout.s_sta} {w = w1} refl t.queued
          t.willing (omega (arith, t.enough)) (ap (λ f. fsm_reset f s.back) t.cmdout_fsm_eq ∙ f0) in
      let s1 : Sc Hp =
        record (put cmdout (cmdout_fsm libc Cmdout.s_sta) w1
          (record s { system = k; writebuf = wb; curfsm = cmdout })) { state = busy } in
      let (w2, k2, f1, f2, f3) =
        feed-reply libc 4096 (λ n l. g n (omega arith)) r w1 i (omega arith) (omega arith) k1 in
      let (rb, p2, g2', e2) =
        reading-pieces libc (hp libc) piece pieces s1 {u = []} {todo = again ∷ todo}
          {g = cmdout_fsm libc Cmdout.s_cm3} {w' = w2} refl t.unread (q3 ∙ t.reads_eq) sm
          (omega (arith, short, t.large, ap length wh)) refl mktok-IsTokenizer
          (omega (arith, short, ap length wh))
          (feed_whole (cmdout_fsm libc Cmdout.s_sta) w1 (sym wh) f1) (not_error libc) in
      let s2 : Sc Hp =
        record (put cmdout (cmdout_fsm libc Cmdout.s_cm3) w2 (with_reads (again ∷ todo) s1)) {
          nodataflag = false;
          readbuf = rb;
        } in
      let (o, p, p3, ho, hp') =
        oper_busy-completes libc (hp libc) s2 {as' = todo} r.output r.prompt g2'
          (xread_again libc todo) f2 (omega arith) f3 q1 t.purged t.prompt
          (out_Begins libc w2 k2.output) (prompt_Begins libc w2 k2.prompt) (omega arith)
          (omega arith) (λ n l. g n (omega arith)) (λ n l. g n (omega arith)) in
      let s3 : Sc Hp = record (put cmdout (cmdout_fsm libc Cmdout.s_fin) w2 (with_reads todo s2)) {
        outbuf = o;
        ps1buf = p;
        state = ready;
      } in
      (
        s3,
        record {
          ready_eq = ready-ready s3 refl;
          queued = q1;
          unread = g2';
          reply_kept = ho;
          prompt_kept = hp';
          xs = r.output;
          ys = r.prompt;
          recorded = k2;
          st1 = Cmdout.s_fin;
          st2 = t.st2;
          cmdout_fsm_eq = refl;
          inchar_fsm_eq = t.inchar_fsm_eq;
          willing = q4;
          enough = omega (arith, t.enough, q5);
          reads_eq = refl;
          sent_eq = q2 ∙ ap (λ b. b ++ newline) t.sent_eq;
          large = omega (arith, t.large, e2);
        },
        ready_busy s3 refl,
        Works-append libc (hp libc)
            (Works-step libc (hp libc) s (busy_writing libc (hp libc) s t.state_eq)
              (operate_writing libc (hp libc) s t.state_eq ∙ p1))
            (Works-append libc (hp libc) p2 (
              Works-step libc (hp libc) s2 (busy_busy libc (hp libc) s2 refl)
                (operate_busy libc (hp libc) s2 refl ∙ p3))),
      )

  -- With the backend for HP switches, in the state READY, with well-formed buffers, one for
  -- reading of at least 4096 bytes, nothing queued or unread, and the prototype of the escape
  -- sequences as at the start, a line of less than 2 ^ 62 bytes whose last byte is its only
  -- newline is written; the switch echoes each character and answers the newline with a reply,
  -- each in any non-empty pieces of at most 4096 bytes together, and after each of them there is
  -- nothing to read for a moment; no write fails and enough of them write something; the
  -- allocator grants what the line and the reply need. Then sc_write returns, and the inner loop
  -- of core_run ends after some number of rounds. The state is READY again in the same sense;
  -- exactly the line was sent to the switch; the reply and the prompt that the client gets are
  -- the output and the prompt in the switch's reply, up to their first NUL; and the answers of
  -- the kernel are used up to the end of the reply.
  pub command-answered :
      (str : Block) (cs : Bytes) (es : List Echo) (r : Reply) (piece : Bytes) (pieces : List Bytes)
      {spare : ℕ} {todo : List ReadAnswer} {done old_reply old_prompt : Bytes} (s : Sc Hp)
      → Typed cs es
      → IsReply r
      → length (reply_text r) ≤ 4096
      → AllSome (piece ∷ pieces)
      → flat (piece ∷ pieces) ≡ reply_text r
      → take (length (cs ++ newline)) str ≡ map some (cs ++ newline)
      → length (cs ++ newline) + 1 ≤ 4611686018427387904
      → Grants libc (2 * (length (cs ++ newline) + 1) + 8194)
      → Waiting
          (length (cs ++ newline) + spare)
          (echoes es (gots (piece ∷ pieces) (again ∷ todo)))
          done
          old_reply
          old_prompt
          s
      → (s1 s2 : Sc Hp) × (rounds : ℕ) × (sc_write libc str (length (cs ++ newline)) s ≡ ok s1)
        × (while_busy libc (hp libc) rounds s1 ≡ ok s2)
        × Waiting spare todo (done ++ (cs ++ newline)) (c_string r.output) (c_string r.prompt) s2
  command-answered str cs es r piece pieces {spare} {todo} {done} {old_reply} {old_prompt} s h i
        short sm wh t l g w =
      let (b, o, p, hb, ho) =
        sc_write-queues libc str (cs ++ newline) s w.ready_eq w.queued w.reply_kept t l
          (λ n e. g n (omega arith)) in
      let s1 : Sc Hp = record s { writebuf = b; state = writing; outbuf = o } in
      let t1 : Typing libc spare (cs ++ newline) (echoes es (gots (piece ∷ pieces) (again ∷ todo)))
          done s1 =
        record {
          state_eq = refl;
          queued = hb;
          unread = w.unread;
          purged = ho;
          old_prompt = old_prompt;
          prompt = w.prompt_kept;
          xs = w.xs;
          ys = w.ys;
          recorded = w.recorded;
          st1 = w.st1;
          st2 = w.st2;
          cmdout_fsm_eq = w.cmdout_fsm_eq;
          inchar_fsm_eq = w.inchar_fsm_eq;
          willing = w.willing;
          enough = w.enough;
          reads_eq = w.reads_eq;
          sent_eq = w.sent_eq;
          large = w.large;
        } in
      let (s2, t2, r2) = type_line cs es s1 h t1 in
      let (s3, w3, d, r3) =
        type_newline r piece pieces s2 i short sm wh (λ n e. g n (omega arith)) t2 in
      let (n, q) = Works-ends libc (hp libc) (Works-append libc (hp libc) r2 r3) d in
      (s1, s3, n, p, q, rw⁻¹ (append_assoc done cs newline) w3)
