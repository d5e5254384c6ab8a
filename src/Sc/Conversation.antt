-- ===== src/Sc/Conversation.antt =====
-- src/sc.c with the machines of src/back/hp: a line is typed character by character, each echoed by
-- the switch, and the newline is answered by a reply.
use swh.Base.{
  ℕ, ◌+◌, ◌≤◌, ◌<◌, ◌≡◌, ◌≢◌, refl, sym, ap, ◌∙◌, false, none, List, [], ◌∷◌, ◌++◌, length, arith,
  ne→not-==, ok,
}
use swh.Memory.{flat, Bytes}
use swh.Common.{Libc}
use swh.Common.Io.{ReadAnswer, again, xread}
use swh.Common.Io.Sends.{Willing, writing_answers}
use swh.Ansiseq.Escape.{IsEscape}
use mathlib.Core.Path.{subst}
use swh.Fsm.{Fsm, fsm_feed, input, fsm_reset, fsm_error}
use swh.Hp.Tokenizer.{mktok-IsTokenizer}
use swh.Sc.Pieces.{gots, AllSome, reading-pieces}
use swh.Hp.State.{Hp}
use swh.Hp.Contents.{Holds, clear-Holds}
use swh.Hp.Machine.{AreEscapes}
use swh.Hp.Cmdout
use swh.Hp.Inchar
use swh.Hp.Transcript.Cmdout.{cmdout_fsm, Recorded}
use swh.Hp.Transcript.Inchar.{inchar_fsm, echo_text, feed-inchar}
use swh.Back.{Backend, fsm_init_hp_attach, fsm_cmdout_hp_attach, fsm_inchar_hp_attach}
use swh.Sc.State.{busy, writing, inchar, Sc, put}
use swh.Sc.Buffers.{Filled}
use swh.Sc.Writing.{oper_writing-to}
use swh.Sc.Reading.{with_reads}
use swh.Sc.Completing.{oper_busy-continues}
use swh.Core.{
  Works, Works-step, Works-append, busy_busy, busy_writing, operate_busy, operate_writing,
}

-- what `attach_all` gives for "hp"
abbrev pub hp : Libc → Backend Hp
hp libc = record {
  init = fsm_init_hp_attach libc;
  cmdout = fsm_cmdout_hp_attach libc;
  inchar = fsm_inchar_hp_attach libc;
}

module _ (libc : Libc) where
  -- Between two characters: the characters `line` are queued, nothing is unread, `todo` is what the
  -- kernel will answer, `done` was sent, and `spare` answers are there for what follows the line.
  pub record Typing (spare : ℕ) (line : Bytes) (todo : List ReadAnswer) (done : Bytes) (s : Sc Hp)
      : Type 0 where
    pub state_eq : s.state ≡ writing
    pub queued : Filled s.writebuf line
    pub unread : Filled s.readbuf []
    pub purged : Holds s.outbuf []
    pub old_prompt : Bytes
    pub prompt : Holds s.ps1buf old_prompt
    pub xs : Bytes
    pub ys : Bytes
    pub recorded : Recorded libc xs ys s.back
    pub st1 : ℕ
    pub st2 : ℕ
    pub cmdout_fsm_eq : s.fsm_cmdout ≡ cmdout_fsm libc st1
    pub inchar_fsm_eq : s.fsm_inchar ≡ inchar_fsm st2
    pub willing : Willing s.system.writes
    pub enough : length line + spare ≤ writing_answers s.system.writes
    pub reads_eq : s.system.reads ≡ todo
    pub sent_eq : s.system.sent ≡ done
    pub large : 4096 ≤ s.readbuf.size

  reset_inchar : (st : ℕ) (w : Hp) → fsm_reset (inchar_fsm st) w ≡ ok (inchar_fsm Inchar.s_sta, w)
  unfolding fsm_reset Inchar.reset
  reset_inchar st w = refl

  pub reset_cmdout :
      (st : ℕ) (w : Hp) {xs ys : Bytes}
      → Recorded libc xs ys w
      → (w' : Hp) × (fsm_reset (cmdout_fsm libc st) w ≡ ok (cmdout_fsm libc Cmdout.s_sta, w'))
        × Recorded libc [] [] w'
  unfolding fsm_reset Cmdout.reset
  reset_cmdout st w h =
      let (b, p, k) = clear-Holds h.output in
      let (b', p', k') = clear-Holds h.prompt in
      (
        record w { cmdout = record { outbuf = b; ps1buf = b' } },
        rw (p, p') refl,
        record { clean = h.clean; output = k; prompt = k' },
      )

  pub xread_again : (as' : List ReadAnswer) → xread (again ∷ as') ≡ ok (none, as')
  unfolding xread
  xread_again as' = refl

-- The echo of a character: an escape sequence, what is shown, and escape sequences.
pub record Echo : Type 0 where
  pub before : Bytes
  pub shown : ℕ
  pub after : List Bytes
  -- the pieces that it arrives in
  pub first_piece : Bytes
  pub pieces : List Bytes

abbrev pub text_of : Echo → Bytes
text_of e = echo_text e.before e.shown e.after

pub record IsEcho (e : Echo) : Type 0 where
  pub before_escape : IsEscape e.before
  pub shown_byte : e.shown ≤ 255
  pub shown_text : e.shown ≢ 0o33
  pub after_some : e.after ≢ []
  pub after_escapes : AreEscapes e.after
  pub short : length (text_of e) ≤ 4096
  pub pieces_some : AllSome (e.first_piece ∷ e.pieces)
  pub pieces_whole : flat (e.first_piece ∷ e.pieces) ≡ text_of e

-- The pieces are fed as the whole is.
pub feed_whole :
    (f : Fsm Hp) (w : Hp) {g : Fsm Hp} {xs ys : Bytes} {w' : Hp}
    → xs ≡ ys
    → fsm_feed f (input xs) w ≡ ok (length xs, g, w')
    → fsm_feed f (input ys) w ≡ ok (length ys, g, w')
feed_whole f w {g} {w' = w'} e h =
    subst (λ (z : Bytes). fsm_feed f (input z) w ≡ ok (length z, g, w')) e h

not_error : fsm_error (inchar_fsm Inchar.s_cm2) ≡ false
unfolding fsm_error
not_error = refl

module _ (libc : Libc) where
  -- One character is sent and its echo is eaten.
  pub type_char :
      (c : ℕ) (ds : Bytes) (e : Echo) {spare : ℕ} {todo : List ReadAnswer} {done : Bytes}
      (s : Sc Hp)
      → c ≢ 10
      → 0 < length ds
      → IsEcho e
      → Typing libc spare (c ∷ ds) (gots (e.first_piece ∷ e.pieces) (again ∷ todo)) done s
      → (s' : Sc Hp) × Typing libc spare ds todo (done ++ (c ∷ [])) s' × Works libc (hp libc) s s'
  type_char c ds e {todo} {done} s h l i t =
      let (wb, k, p1, q1, q2, q3, q4, q5) =
        oper_writing-to s c ds inchar {f = inchar_fsm Inchar.s_sta} {w = s.back}
          (rw (ne→not-== c 10 h) refl) t.queued t.willing (omega (arith, t.enough))
          (ap (λ f. fsm_reset f s.back) t.inchar_fsm_eq ∙ reset_inchar libc t.st2 s.back) in
      let s1 : Sc Hp =
        record (put inchar (inchar_fsm Inchar.s_sta) s.back
          (record s { system = k; writebuf = wb; curfsm = inchar })) { state = busy } in
      let (a, z, f1, f2, f3) =
        feed-inchar e.before e.shown e.after s.back i.before_escape i.shown_byte i.shown_text
          i.after_some i.after_escapes t.recorded.clean in
      let w2 : Hp = record (s.back) { ansi = a } in
      let (rb, p2, g2', e2) =
        reading-pieces libc (hp libc) e.first_piece e.pieces s1 {u = []} {todo = again ∷ todo}
          {g = inchar_fsm Inchar.s_cm2} {w' = w2} refl t.unread (q3 ∙ t.reads_eq) i.pieces_some
          (omega (arith, i.short, t.large, ap length i.pieces_whole)) refl mktok-IsTokenizer
          (omega (arith, i.short, ap length i.pieces_whole))
          (feed_whole (inchar_fsm Inchar.s_sta) s.back (sym i.pieces_whole) f1) not_error in
      let s2 : Sc Hp =
        record (put inchar (inchar_fsm Inchar.s_cm2) w2 (with_reads (again ∷ todo) s1)) {
          nodataflag = false;
          readbuf = rb;
        } in
      let p3 =
        oper_busy-continues libc (hp libc) s2 {as' = todo} g2' (xread_again libc todo) f2
          (omega arith) f3 (omega (arith, q1.count_eq)) in
      let s3 : Sc Hp = record (put inchar (inchar_fsm Inchar.s_fin) w2 (with_reads todo s2)) {
        state = writing;
      } in
      (
        s3,
        record {
          state_eq = refl;
          queued = q1;
          unread = g2';
          purged = t.purged;
          old_prompt = t.old_prompt;
          prompt = t.prompt;
          xs = t.xs;
          ys = t.ys;
          recorded = record { clean = z; output = t.recorded.output; prompt = t.recorded.prompt };
          st1 = t.st1;
          st2 = Inchar.s_fin;
          cmdout_fsm_eq = t.cmdout_fsm_eq;
          inchar_fsm_eq = refl;
          willing = q4;
          enough = omega (arith, t.enough, q5);
          reads_eq = refl;
          sent_eq = q2 ∙ ap (λ b. b ++ (c ∷ [])) t.sent_eq;
          large = omega (arith, t.large, e2);
        },
        Works-append libc (hp libc)
            (Works-step libc (hp libc) s (busy_writing libc (hp libc) s t.state_eq)
              (operate_writing libc (hp libc) s t.state_eq ∙ p1))
            (Works-append libc (hp libc) p2 (
              Works-step libc (hp libc) s2 (busy_busy libc (hp libc) s2 refl)
                (operate_busy libc (hp libc) s2 refl ∙ p3))),
      )
