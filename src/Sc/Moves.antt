-- ===== src/Sc/Moves.antt =====
-- The exchange with the switch as an abstract machine: a state of src/sc.c and the number of characters that
-- are queued.
use swh.Base.{
  ℕ, zero, suc, sym, ◌-◌, ◌%◌, ◌<◌, ◌+◌, ◌≡◌, ◌≢◌, refl, ap, ◌∙◌, true, ◌==◌, if◌then◌else◌, not,
  arith, Outcome, ok, fault, Ensures, ensured, Ensures-bind, Ensures-if, Ensures-follow,
  Ensures-weaken, some, [], ◌∷◌, ◌||◌, no_newline, outbuf_not_empty, write_not_ready, critical,
  Message, Fault, writebuf_not_empty,
}
use mathlib.Core.Path.{subst}
use swh.Memory.{Block, load, store}
use swh.Common.{Libc, shiftbuf, slice, memcpy}
use swh.Common.Io.{xwrite}
use swh.Fsm.{null, fsm_feed, fsm_reset}
use swh.Hp.State.{Buf}
use swh.Back.{Backend}
use swh.Sc.State.{
  Phase, busy, ready, writing, offline, Machine, cmdout, inchar, Sc, put, pick, is_ready, sc_ready,
  current,
}
use swh.Sc.Operate.{
  read_more, eat, complete, finish, starve, oper_busy, oper_writing, sc_write, sc_operate, by_state,
  byte_of, require, reply_of, prompt_of, copy_string, grow,
}
use swh.Common.{size_mod}
use swh.Sc.Still.{not_zero, is_zero, not_added, require-zero, Stays, read_more-Stays, eat-Stays}

-- The moves of the abstract machine.
pub data Moves : Phase → ℕ → Phase → ℕ → Type 0 where
  waits : {q : ℕ} → Moves busy q busy q
  goes_on : {q : ℕ} → q ≢ 0 → Moves busy q writing q
  ends : Moves busy 0 ready 0
  sends : {q : ℕ} → Moves writing (suc q) busy q
  types : {n : ℕ} → n ≢ 0 → Moves ready 0 writing n

waits_at : (p : Phase) (q r : ℕ) → p ≡ busy → r ≡ q → Moves busy q p r
waits_at p q r e f = rw (e, f) waits

ends_at : (q : ℕ) → q ≡ 0 → Moves busy q ready q
ends_at q e = rw e ends

sends_at : (q : ℕ) → q < size_mod → q ≢ 0 → Moves writing q busy ((q + size_mod - 1) % size_mod)
sends_at zero l e = absurd (ground arith)
sends_at (suc q) l e = let d : (suc q + size_mod - 1) % size_mod ≡ q = omega arith in rw d sends

types_at : (p : Phase) (q n : ℕ) → p ≡ ready → q ≡ 0 → n ≢ 0 → Moves p q writing n
types_at p q n e f z = rw (e, f) (types z)

Ensures-phase :
    {A : Type 0} (P : Phase → A → Type 0) (p : Phase) (m n : Outcome A) (x y : Fault)
    → (p ≡ busy → Ensures (P busy) m)
    → Ensures (P writing) n
    → Ensures (P p) (by_state p m (fault x) n (fault y))
Ensures-phase P busy m n x y f g = f refl
Ensures-phase P ready m n x y f g = tt
Ensures-phase P writing m n x y f g = g
Ensures-phase P offline m n x y f g = tt

shiftbuf-count :
    (m : Block) (q : ℕ)
    → Ensures (λ (p : Block × ℕ). p.1 ≡ (q + size_mod - 1) % size_mod) (shiftbuf m q 1)
unfolding shiftbuf
shiftbuf-count m q =
    let n : ℕ = (q + size_mod - 1) % size_mod in
    Ensures-bind (λ (p : Block × ℕ). p.1 ≡ n) (slice m 1 n) _
      λ xs. Ensures-bind (λ (p : Block × ℕ). p.1 ≡ n) (memcpy m 0 xs) _ λ m'. refl

require-some : (n : ℕ) (m : Message) → Ensures (λ z. n ≢ 0) (require (not (n == 0)) m)
require-some n m =
    Ensures-if (λ z. n ≢ 0) (not (n == 0)) (ok true) (fault (critical m)) (not_zero n) (λ i. tt)

is_ready-true : (p : Phase) → is_ready p ≡ true → p ≡ ready
is_ready-true busy e = absurd (ground arith)
is_ready-true ready e = refl
is_ready-true writing e = absurd (ground arith)
is_ready-true offline e = absurd (ground arith)

require-ready : (p : Phase) (m : Message) → Ensures (λ z. p ≡ ready) (require (is_ready p) m)
require-ready p m =
    Ensures-if (λ z. p ≡ ready) (is_ready p) (ok true) (fault (critical m)) (is_ready-true p)
      (λ i. tt)

module _ {W : Type 0} where
  -- from a state and a number of characters to those of a result
  abbrev To : ℕ → Phase → ℕ × Sc W → Type 0
  To q p r = Moves p q r.1.state r.1.writebuf.count

  complete-To :
      (libc : Libc) (b : Backend W) (s : Sc W)
      → Ensures (To s.writebuf.count busy) (complete libc b s)
  unfolding complete
  complete-To libc b s =
      let q : ℕ = s.writebuf.count in
      Ensures-if (To q busy) (not (q == 0)) _ _ (λ i. goes_on (not_zero q i))
        (λ i. Ensures-bind (To q busy) (require (s.outbuf.count == 0) outbuf_not_empty) _ λ z.
          Ensures-bind (To q busy) (copy_string libc (reply_of b s) s.outbuf) _ λ o.
            Ensures-bind (To q busy) (copy_string libc (prompt_of b s) s.ps1buf) _
              λ p. ends_at q (is_zero q i))

  finish-To :
      (libc : Libc) (b : Backend W) (s : Sc W)
      → Ensures (To s.writebuf.count busy) (finish libc b s)
  unfolding finish
  finish-To libc b s =
      Ensures-bind (To s.writebuf.count busy) (fsm_feed (current s) (null 1) s.back) _
        λ p. complete-To libc b (put s.curfsm p.1 p.2 s)

  starve-To :
      (libc : Libc) (b : Backend W) (s : Sc W)
      → s.state ≡ busy
      → Ensures (To s.writebuf.count busy) (starve libc b s)
  unfolding starve
  starve-To libc b s st =
      let q : ℕ = s.writebuf.count in
      Ensures-bind (To q busy) (fsm_feed (current s) (null 0) s.back) _ λ p.
        let s1 : Sc W = put s.curfsm p.1 p.2 s in
        Ensures-if (To q busy) (not (p.0 == 0)) (finish libc b s1) _ (λ i. finish-To libc b s1)
          (λ i.
            Ensures-if (To q busy) (not s.nodataflag) _ _ (λ j. waits_at s.state q q st refl)
              (λ j. tt))

  oper_busy-To :
      (libc : Libc) (b : Backend W) (s : Sc W)
      → s.state ≡ busy
      → Ensures (To s.writebuf.count busy) (oper_busy libc b s)
  unfolding oper_busy
  oper_busy-To libc b s st =
      let q : ℕ = s.writebuf.count in
      Ensures-follow (Stays s) (To q busy) (read_more libc s) _ (read_more-Stays libc s) λ p e.
        let same_count : p.1.writebuf.count ≡ q = ap (λ (x : Buf). x.count) e.queue in
        Ensures-if (To q busy) (not (p.0 == 0) || not (p.1.readbuf.count == 0)) _ _
          (λ i. Ensures-weaken (Stays s) (To q busy) (eat b p.1) (eat-Stays b s p.1 e) λ t r.
            waits_at t.1.state q t.1.writebuf.count (r.phase ∙ st)
              (ap (λ (x : Buf). x.count) r.queue))
          (λ i.
            subst (λ n. Ensures (To n busy) (starve libc b p.1)) same_count
              (starve-To libc b p.1 (e.phase ∙ st)))

  oper_writing-To :
      (s : Sc W)
      → s.writebuf.count < size_mod
      → Ensures (To s.writebuf.count writing) (oper_writing s)
  unfolding oper_writing
  oper_writing-To s l =
      let q : ℕ = s.writebuf.count in
      Ensures-follow (λ z. q ≢ 0) (To q writing) (require (not (q == 0)) no_newline) _
        (require-some q no_newline)
        λ z nz. Ensures-bind (To q writing) (load s.writebuf.mem 0) _ λ cell.
          Ensures-bind (To q writing) (byte_of cell) _ λ c.
            Ensures-bind (To q writing) (xwrite (c ∷ []) s.system) _ λ k.
              Ensures-follow (λ (p : Block × ℕ). p.1 ≡ (q + size_mod - 1) % size_mod) (To q writing)
                (shiftbuf s.writebuf.mem q 1) _ (shiftbuf-count s.writebuf.mem q)
                λ m e.
                  let cur : Machine = if c == 10 then cmdout else inchar in
                  Ensures-bind (To q writing)
                    (fsm_reset (pick cur s.fsm_init s.fsm_cmdout s.fsm_inchar) s.back)
                    (λ p. ok (
                      1,
                      record (put cur p.0 p.1 (record s {
                        system = k;
                        writebuf = record (s.writebuf) { mem = m.0; count = m.1 };
                        curfsm = cur;
                      })) { state = busy },
                    ))
                    λ p. subst (λ n. Moves writing q busy n) (sym e) (sends_at q l nz)

  sc_operate-To :
      (libc : Libc) (b : Backend W) (s : Sc W)
      → s.writebuf.count < size_mod
      → Ensures (To s.writebuf.count s.state) (sc_operate libc b s)
  unfolding sc_operate
  sc_operate-To libc b s l =
      Ensures-phase (To s.writebuf.count) s.state (oper_busy libc b s) (oper_writing s) _ _
        (oper_busy-To libc b s) (oper_writing-To s l)

  abbrev Typed : Phase → ℕ → Sc W → Type 0
  Typed p q r = Moves p q r.state r.writebuf.count

  sc_write-Typed :
      (libc : Libc) (str : Block) (len : ℕ) (s : Sc W)
      → len ≢ 0
      → Ensures (Typed s.state s.writebuf.count) (sc_write libc str len s)
  unfolding sc_write sc_ready
  sc_write-Typed libc str len s nz =
      let T : Sc W → Type 0 = Typed s.state s.writebuf.count in
      Ensures-follow (λ z. s.state ≡ ready) T (require (is_ready s.state) write_not_ready) _
        (require-ready s.state write_not_ready)
        λ z st.
          Ensures-follow (λ z. s.writebuf.count ≡ 0) T
            (require (s.writebuf.count == 0) writebuf_not_empty) _
            (require-zero s.writebuf.count writebuf_not_empty)
            λ z' e. Ensures-bind T (grow libc (s.writebuf.count + len + 1) s.writebuf) _ λ q.
              Ensures-bind T (slice str 0 len) _ λ xs.
                Ensures-bind T (memcpy q.mem q.count xs) _ λ m.
                  Ensures-bind T (store m (q.count + len) (some 0)) _ λ m'.
                    Ensures-bind T (store s.outbuf.mem 0 (some 0)) _ λ o.
                      types_at s.state s.writebuf.count (q.count + len) st e
                        (not_added q.count len nz)

  -- a call of an operation that returns; the client of `sc_write` has something to write
  pub data Step (libc : Libc) (b : Backend W) : Sc W → Sc W → Type 0 where
    operates : {s s' : Sc W} (r : ℕ) → sc_operate libc b s ≡ ok (r, s') → Step libc b s s'
    writes :
        {s s' : Sc W} (str : Block) (len : ℕ)
        → len ≢ 0
        → sc_write libc str len s ≡ ok s'
        → Step libc b s s'

  -- A call of sc_operate, or of sc_write with something to write, that returns, from a state
  -- whose number of queued characters fits size_t, whatever the backend, the switch, the
  -- allocator and the kernel do, is a move of an abstract machine over the state and that number:
  -- BUSY may stay BUSY with the same number, go on to WRITING when it is not 0, or end in READY
  -- when it is 0; WRITING, with some number, becomes BUSY with one less; and READY, with 0,
  -- becomes WRITING with a number that is not 0.
  pub Step-Moves :
      (libc : Libc) (b : Backend W) (s s' : Sc W)
      → s.writebuf.count < size_mod
      → Step libc b s s'
      → Moves s.state s.writebuf.count s'.state s'.writebuf.count
  Step-Moves libc b s s' l (operates r e) =
      ensured (To s.writebuf.count s.state) (sc_operate libc b s) (sc_operate-To libc b s l) e
  Step-Moves libc b s s' l (writes str len nz e) =
      ensured (Typed s.state s.writebuf.count) (sc_write libc str len s)
        (sc_write-Typed libc str len s nz) e
