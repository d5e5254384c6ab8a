-- ===== src/Core/Turn.antt =====
-- One turn of the loop of `core_run` of src/core.c with the interactive front end and the backend for
-- HP switches: what the last command gave is shown, and the next one goes to the switch.
use swh.Base.{
  ℕ, suc, ◌+◌, ◌-◌, ◌≤◌, ◌<◌, ◌≡◌, refl, sym, ap, ◌∙◌, true, false, some, List, [], ◌∷◌, ◌++◌,
  append-nil, append_assoc, map, min, take, length, length-append, arith, ne→not-==, ok,
}
use mathlib.Core.Path.{subst}
use swh.Memory.{Bytes, Block, flat}
use swh.Common.{Libc}
use swh.Common.Blocks.{Grants}
use swh.Common.Io.{ReadAnswer, again}
use swh.Hp.State.{Hp, Buf}
use swh.Hp.Contents.{c_string, Holds, take_shorter, strlen-Holds}
use swh.Hp.Transcript.Cmdout.{Reply, IsReply, reply_text}
use swh.Sc.State.{
  Phase, busy, ready, writing, offline, is_ready, is_offline, Sc, sc_ready, sc_offline, sc_hasreply,
  sc_getreply, sc_getps1,
}
use swh.Sc.Operate.{sc_write}
use swh.Sc.Buffers.{length-c_string}
use swh.Sc.Conversation.{hp, Echo}
use swh.Sc.Pieces.{gots, AllSome}
use swh.Sc.Session.{Typed, echoes, newline, Waiting, command-answered}
use swh.UcIa.{UcIa, uc_ia_hasdata, uc_ia_getdata}
use swh.UcIa.Lines.{Text, IsLine, strchr-line, uc_ia_getdata-line}
use swh.UcIa.Printing.{uc_ia_putdata-shows}
use swh.Uc.{uc_ia_attach}
use swh.Spawn.{spawn_operate}
use swh.Core.{while_busy}
use swh.Core.Run.{World, bufsz, turn, put_string, put_reply, take_command}

-- a line that the user types, without its newline, and what the switch says to it
pub record Command : Type 0 where
  pub line : Bytes
  pub echoed : List Echo
  pub reply : Reply
  -- the pieces that the reply arrives in
  pub piece : Bytes
  pub pieces : List Bytes

pub record IsCommand (c : Command) : Type 0 where
  pub line_text : IsLine c.line
  pub line_short : length c.line + 1 < bufsz
  pub line_typed : Typed c.line c.echoed
  pub is_reply : IsReply c.reply
  pub reply_short : length (reply_text c.reply) ≤ 4096
  pub pieces_some : AllSome (c.piece ∷ c.pieces)
  pub pieces_whole : flat (c.piece ∷ c.pieces) ≡ reply_text c.reply

abbrev pub typed : Command → Bytes
typed c = c.line ++ newline

abbrev pub replies : Command → List ReadAnswer → List ReadAnswer
replies c todo = echoes c.echoed (gots (c.piece ∷ c.pieces) (again ∷ todo))

-- with more printed
abbrev pub say : Bytes → UcIa → UcIa
say xs u = record u { shown = u.shown ++ xs }

say-Text : (ys : Bytes) (u : UcIa) {xs : Bytes} → Text u xs → Text (say ys u) xs
say-Text ys u t = record {
  count_eq = t.count_eq;
  room = t.room;
  size_small = t.size_small;
  text = t.text;
}

take_all : (xs : Bytes) → take (length xs) (map some xs) ≡ map some xs
take_all [] = refl
take_all (x ∷ xs) = ap (◌∷◌ (some x)) (take_all xs)

ready_online : (p : Phase) → is_ready p ≡ true → is_offline p ≡ false
ready_online busy e = refl
ready_online ready e = refl
ready_online writing e = refl
ready_online offline e = ground arith

module _ {W : Type 0} where
  ready-online : (s : Sc W) → sc_ready s ≡ true → sc_offline s ≡ false
  unfolding sc_ready sc_offline
  ready-online s e = ready_online s.state e

put_string-shows :
    (m : Buf) (xs : Bytes) (u : UcIa)
    → Holds m xs
    → length xs < 2147483648
    → put_string uc_ia_attach m.mem u ≡ ok (say (c_string xs) u)
unfolding put_string uc_ia_attach
put_string-shows m xs u h l =
    rw (strlen-Holds h, uc_ia_putdata-shows m.mem xs u h.text (omega (arith, length-c_string xs)))
      refl

put_reply-shows :
    {W : Type 0} (s : Sc W) (xs : Bytes) (u : UcIa)
    → Holds s.outbuf xs
    → length xs < 2147483648
    → put_reply uc_ia_attach s u ≡ ok (say (c_string xs) u)
unfolding put_reply sc_hasreply sc_getreply
put_reply-shows s [] u h l =
    rw (h.count_eq) (ap (λ z. ok (record u { shown = z })) (sym (append-nil u.shown)))
put_reply-shows s (x ∷ xs) u h l =
    rw
      (
        h.count_eq,
        ne→not-== (suc (length xs)) 0 (omega arith),
        put_string-shows s.outbuf (x ∷ xs) u h l,
      )
      refl

module _ (libc : Libc) where
  turn_steps :
      (fuel : ℕ) (buf : Block) (x : World Hp UcIa) (s : Sc Hp) {buf' : Block} {s' : Sc Hp}
      {u1 u2 u3 : UcIa}
      → spawn_operate x.child ≡ ok x.child
      → while_busy libc (hp libc) fuel x.sc ≡ ok s
      → sc_offline s ≡ false
      → put_reply uc_ia_attach s x.uc ≡ ok u1
      → put_string uc_ia_attach (sc_getps1 s) u1 ≡ ok u2
      → take_command uc_ia_attach libc buf s u2 ≡ ok (buf', s', u3)
      → turn libc (hp libc) uc_ia_attach fuel buf x
        ≡ ok (buf', record { sc = s'; uc = u3; child = x.child })
  unfolding turn
  turn_steps fuel buf x s a b c d e f = rw (a, b, c, d, e, f) refl

  take_command_steps :
      (buf : Block) (s s' : Sc Hp) (u u' : UcIa) (n : ℕ) {buf' : Block}
      → uc_ia_hasdata true u ≡ ok (1, u)
      → uc_ia_getdata buf bufsz u ≡ ok (n + 1, buf', u')
      → sc_write libc buf' (n + 1) s ≡ ok s'
      → take_command uc_ia_attach libc buf s u ≡ ok (buf', s', u')
  unfolding take_command uc_ia_attach
  take_command_steps buf s s' u u' n p q r = rw (p, q, ne→not-== (n + 1) 0 (omega arith), r) refl

  hasdata-line :
      (u : UcIa) (l more : Bytes)
      → Text u (l ++ (10 ∷ more))
      → IsLine l
      → uc_ia_hasdata true u ≡ ok (1, u)
  unfolding uc_ia_hasdata
  hasdata-line u l more t h =
      rw
        (strchr-line u.readbuf l more h (take_shorter u.readbuf (l ++ (10 ∷ more)) (some 0) t.text))
        refl

  -- A command that stands in the front end's buffer is typed, and what was answered before is shown.
  pub turn-answers :
      (c : Command) (more : Bytes) {spare : ℕ} {todo : List ReadAnswer} {done reply ps : Bytes}
      (fuel : ℕ) (buf : Block) (x : World Hp UcIa) (s : Sc Hp)
      → IsCommand c
      → x.child.seen ≡ false
      → Text x.uc (typed c ++ more)
      → length buf ≡ bufsz
      → length reply ≤ 4096
      → length ps ≤ 4096
      → Grants libc 10000
      → while_busy libc (hp libc) fuel x.sc ≡ ok s
      → Waiting libc (length (typed c) + spare) (replies c todo) done reply ps s
      → (buf' : Block) × (x' : World Hp UcIa) × (s' : Sc Hp) × (rounds : ℕ) × (turn libc
            (hp libc)
            uc_ia_attach
            fuel
            buf
            x
          ≡ ok (buf', x'))
        × (length buf' ≡ bufsz)
        × (x'.uc.shown ≡ x.uc.shown ++ (c_string reply ++ c_string ps))
        × Text x'.uc more
        × (x'.child ≡ x.child)
        × (while_busy libc (hp libc) rounds x'.sc ≡ ok s')
        × Waiting libc spare todo
            (done ++ typed c)
            (c_string c.reply.output)
            (c_string c.reply.prompt)
            s'
  unfolding spawn_operate sc_getps1
  turn-answers c more {reply = reply} {ps = ps} fuel buf x s i e t lb lr lp g r w =
      let cs : Bytes = c.line in
      let u2 : UcIa = say (c_string ps) (say (c_string reply) x.uc) in
      let t1 : Text x.uc (cs ++ (10 ∷ more)) = subst (Text x.uc) (append_assoc cs newline more) t in
      let t2 : Text u2 (cs ++ (10 ∷ more)) =
        say-Text (c_string ps) (say (c_string reply) x.uc) (say-Text (c_string reply) x.uc t1) in
      let n : length (cs ++ newline) ≡ length cs + 1 = length-append cs newline in
      let (d, u3, p, q, z, t3, sh3) =
        uc_ia_getdata-line buf bufsz u2 cs more t2 i.line_text (omega arith) (omega (arith, lb))
          (omega arith) in
      let m : min (length cs + 1) (bufsz - 1) ≡ length (cs ++ newline) =
        omega (arith, n, i.line_short) in
      let whole : take (length (cs ++ newline)) d ≡ map some (cs ++ newline) =
        ap (λ j. take j d) (sym m)
        ∙ z
        ∙ ap (λ j. take j (map some (cs ++ newline))) m
        ∙ take_all (cs ++ newline) in
      let (s1, s2, rounds, p1, p2, w2) =
        command-answered libc d cs c.echoed c.reply c.piece c.pieces s i.line_typed i.is_reply
          i.reply_short i.pieces_some i.pieces_whole whole (omega (arith, n, i.line_short))
          (λ k l. g k (omega (arith, n, i.line_short))) w in
      (
        d,
        record { sc = s1; uc = u3; child = x.child },
        s2,
        rounds,
        turn_steps fuel buf x s (rw e refl) r (ready-online s w.ready_eq)
            (put_reply-shows s reply x.uc w.reply_kept (omega arith))
            (put_string-shows s.ps1buf ps (say (c_string reply) x.uc) w.prompt_kept (omega arith))
            (take_command_steps buf s s1 u2 u3 (length cs) (hasdata-line u2 cs more t2 i.line_text)
              p (ap (λ k. sc_write libc d k s) (sym n) ∙ p1)),
        q ∙ lb,
        sh3 ∙ append_assoc x.uc.shown (c_string reply) (c_string ps),
        t3,
        refl,
        p2,
        w2,
      )
