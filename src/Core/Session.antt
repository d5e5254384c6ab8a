-- ===== src/Core/Session.antt =====
-- Turns of the loop of `core_run` of src/core.c, one for each command, and the program from
-- `core_init` on.
use swh.Base.{
  ℕ, suc, ◌+◌, ◌≤◌, ◌≡◌, refl, sym, ap, ◌∙◌, true, false, some, take, List, [], ◌∷◌, ◌++◌,
  append-nil, append_assoc, length, length-append, arith, ok,
}
use mathlib.Core.Path.{subst}
use swh.Memory.{Bytes, Block}
use swh.Common.{Libc}
use swh.Common.Modes.{with_mode}
use swh.Common.Blocks.{Grants}
use swh.Common.Io.{ReadAnswer}
use swh.Hp.State.{Hp}
use swh.Hp.Contents.{c_string}
use swh.Sc.State.{Sc}
use swh.Sc.Buffers.{length-c_string}
use swh.Sc.Conversation.{hp}
use swh.Sc.Session.{Waiting, reply_lengths}
use swh.UcIa.{UcIa}
use swh.UcIa.Lines.{Text}
use swh.Uc.{uc_ia_attach}
use swh.Spawn.{Spawn, pid, ends, forked}
use swh.Core.{while_busy}
use swh.Core.Run.{World, bufsz, turn, turns, Launch}
use swh.Core.Turn.{Command, IsCommand, typed, replies, turn-answers}

abbrev pub AllCommands : List Command → Type 0
AllCommands [] = Unit
AllCommands (c ∷ cs) = IsCommand c × AllCommands cs

abbrev pub typed_all : List Command → Bytes
typed_all [] = []
typed_all (c ∷ cs) = typed c ++ typed_all cs

abbrev pub replies_all : List Command → List ReadAnswer → List ReadAnswer
replies_all [] todo = todo
replies_all (c ∷ cs) todo = replies c (replies_all cs todo)

-- what the user sees until the last command is typed, given what is to be shown before the first
abbrev pub shown_all : Bytes → Bytes → List Command → Bytes
shown_all reply ps [] = []
shown_all reply ps (c ∷ cs) =
    (c_string reply ++ c_string ps)
    ++ shown_all (c_string c.reply.output) (c_string c.reply.prompt) cs

-- what is to be shown after the last
abbrev pub last_reply : Bytes → List Command → Bytes
last_reply reply [] = reply
last_reply reply (c ∷ cs) = last_reply (c_string c.reply.output) cs

abbrev pub last_prompt : Bytes → List Command → Bytes
last_prompt ps [] = ps
last_prompt ps (c ∷ cs) = last_prompt (c_string c.reply.prompt) cs

-- All three pipes are made, fork(2) gives the child's number, and fcntl(2) gives the flags and sets them.
abbrev pub launched : Bytes → ℕ × ℕ → ℕ × ℕ → ℕ × ℕ → ℕ → ℕ → Launch
launched host i o e p fl = record {
  host = host;
  pipe_in = some i;
  pipe_out = some o;
  pipe_err = some e;
  fork = pid p;
  getfl = some fl;
  setfl = true;
}

-- `spawn_init` has run.
abbrev pub begun : List Bytes → Spawn → Spawn
begun envp c = record c { env = envp; handled = true }

-- the parent's side after that
abbrev pub forked_child : Bytes → ℕ × ℕ → ℕ × ℕ → ℕ × ℕ → ℕ → ℕ → Spawn → Spawn
forked_child host i o e p fl c =
    record ((forked (pid p)
      (record c { stdin = ends i; stdout = ends o; stderr = ends e; host = take 255 host })).1) {
        flags = with_mode false fl;
      }

kept_short :
    (c : Command)
    → IsCommand c
    → (length (c_string c.reply.output) ≤ 4096) × (length (c_string c.reply.prompt) ≤ 4096)
kept_short c i =
    let (lo, lp, _) = reply_lengths c.reply i.is_reply in
    let a = length-c_string c.reply.output in
    let b = length-c_string c.reply.prompt in let s = i.reply_short in (omega arith, omega arith)

module _ (libc : Libc) where
  turns_cons :
      (fuel : ℕ) (fuels : List ℕ) (buf : Block) (x : World Hp UcIa) {buf' : Block}
      {x' : World Hp UcIa}
      → turn libc (hp libc) uc_ia_attach fuel buf x ≡ ok (buf', x')
      → turns libc (hp libc) uc_ia_attach (fuel ∷ fuels) buf x
        ≡ turns libc (hp libc) uc_ia_attach fuels buf' x'
  unfolding turns
  turns_cons fuel fuels buf x e = rw e refl

  turns_nil :
      (buf : Block) (x : World Hp UcIa) → turns libc (hp libc) uc_ia_attach [] buf x ≡ ok (buf, x)
  unfolding turns
  turns_nil buf x = refl

  same-Waiting :
      {a b : ℕ} {todo : List ReadAnswer} {d d' reply ps : Bytes} {s : Sc Hp}
      → a ≡ b
      → d ≡ d'
      → Waiting libc a todo d reply ps s
      → Waiting libc b todo d' reply ps s
  same-Waiting {b = b} {todo = todo} {d = d} {reply = reply} {ps = ps} {s = s} e f w =
      subst (λ z. Waiting libc b todo z reply ps s) f
        (subst (λ n. Waiting libc n todo d reply ps s) e w)

  -- A turn for each of the commands in the front end's buffer.
  pub turns-answer :
      (cs : List Command) (more : Bytes) {spare : ℕ} {todo : List ReadAnswer}
      {done reply ps : Bytes} (fuel : ℕ) (buf : Block) (x : World Hp UcIa) (s : Sc Hp)
      → AllCommands cs
      → x.child.seen ≡ false
      → Text x.uc (typed_all cs ++ more)
      → length buf ≡ bufsz
      → length reply ≤ 4096
      → length ps ≤ 4096
      → Grants libc 10000
      → while_busy libc (hp libc) fuel x.sc ≡ ok s
      → Waiting libc (length (typed_all cs) + spare) (replies_all cs todo) done reply ps s
      → (fuels : List ℕ) × (buf' : Block) × (x' : World Hp UcIa) × (s' : Sc Hp) × (rounds : ℕ)
        × (turns libc (hp libc) uc_ia_attach fuels buf x ≡ ok (buf', x'))
        × (length fuels ≡ length cs)
        × (x'.child ≡ x.child)
        × (x'.uc.shown ≡ x.uc.shown ++ shown_all reply ps cs)
        × Text x'.uc more
        × (while_busy libc (hp libc) rounds x'.sc ≡ ok s')
        × Waiting libc spare todo
            (done ++ typed_all cs)
            (last_reply reply cs)
            (last_prompt ps cs)
            s'
  turns-answer [] more {spare} {todo} {done} {reply} {ps} fuel buf x s h e t lb lr lp g r w = (
    [],
    buf,
    x,
    s,
    fuel,
    turns_nil buf x,
    refl,
    refl,
    sym (append-nil x.uc.shown),
    t,
    r,
    same-Waiting (omega arith) (sym (append-nil done)) w,
  )
  turns-answer (c ∷ cs) more {spare} {todo} {done} {reply} {ps} fuel buf x s (i, h) e t lb lr lp g r
        w =
      let n = length-append (typed c) (typed_all cs) in
      let (lo, lp') = kept_short c i in
      let (buf1, x1, s1, rounds1, p1, q1, z1, t1, c1, r1, w1) =
        turn-answers libc c (typed_all cs ++ more) {spare = length (typed_all cs) + spare}
          {todo = replies_all cs todo} fuel buf x s i e
          (subst (Text x.uc) (append_assoc (typed c) (typed_all cs) more) t) lb lr lp g r
          (same-Waiting (omega (arith, n)) refl w) in
      let (fuels, buf2, x2, s2, rounds2, p2, l2, c2, z2, t2, r2, w2) =
        turns-answer cs more rounds1 buf1 x1 s1 h (ap (λ (y : Spawn). y.seen) c1 ∙ e) t1 q1 lo lp' g
          r1 w1 in
      (
        fuel ∷ fuels,
        buf2,
        x2,
        s2,
        rounds2,
        turns_cons fuel fuels buf x p1 ∙ p2,
        ap suc l2,
        c2 ∙ c1,
        z2
            ∙ ap (λ y. y ++ shown_all (c_string c.reply.output) (c_string c.reply.prompt) cs) z1
            ∙ append_assoc x.uc.shown (c_string reply ++ c_string ps)
                (shown_all (c_string c.reply.output) (c_string c.reply.prompt) cs),
        t2,
        r2,
        same-Waiting refl (append_assoc done (typed c) (typed_all cs)) w2,
      )
