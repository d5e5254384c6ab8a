-- ===== src/Sc/Protocol.antt =====
-- What the operations of src/sc.c make of the state, the queue of characters and the reply, whatever
-- the switch and the machines do.
use swh.Base.{
  ℕ, ◌+◌, ◌≡◌, ◌≢◌, refl, ap, ◌∙◌, ◌==◌, if◌then◌else◌, not, Outcome, ok, fault, Ensures, ensured,
  Ensures-bind, Ensures-if, Ensures-follow, Ensures-weaken, some, [], ◌∷◌, ◌||◌, no_newline,
  outbuf_not_empty, write_not_ready, Fault, writebuf_not_empty,
}
use swh.Memory.{Block, load, store}
use swh.Common.{xmalloc, Libc, shiftbuf, slice, memcpy}
use swh.Common.Io.{System, xwrite}
use swh.Fsm.{null, fsm_feed, fsm_reset}
use swh.Hp.State.{Buf}
use swh.Back.{Backend}
use swh.Sc.State.{
  Phase, busy, ready, writing, offline, Machine, cmdout, inchar, Sc, put, pick, fresh, sc_init,
  readbufsz, writebufsz, ps1bufsz, outbufsz, sc_ready, current,
}
use swh.Sc.Operate.{
  read_more, eat, complete, finish, starve, oper_busy, oper_writing, sc_write, sc_operate, by_state,
  byte_of, require, reply_of, prompt_of, copy_string, grow,
}
use swh.Sc.Still.{not_zero, is_zero, not_added, Still, Stays, read_more-Stays, eat-Stays}

-- OFFLINE is not reached; nothing is queued in READY, something is in WRITING; and there is a reply
-- in READY only.
abbrev pub Agrees : Phase → ℕ → ℕ → Type 0
Agrees busy queued reply = reply ≡ 0
Agrees ready queued reply = queued ≡ 0
Agrees writing queued reply = (queued ≢ 0) × (reply ≡ 0)
Agrees offline queued reply = ⊥

fresh-Clean : (libc : Libc) (n : ℕ) → Ensures (λ (b : Buf). b.count ≡ 0) (fresh libc n)
unfolding fresh
fresh-Clean libc n =
    Ensures-bind (λ (b : Buf). b.count ≡ 0) (xmalloc libc n) _
      λ m. Ensures-bind (λ (b : Buf). b.count ≡ 0) (store m 0 (some 0)) _ λ m'. refl

Ensures-by_state {ℓ} :
    {A : Type 0} (P : A → Type ℓ) (p : Phase) (q r : ℕ) (m n : Outcome A) (x y : Fault)
    → Agrees p q r
    → (p ≡ busy → r ≡ 0 → Ensures P m)
    → (r ≡ 0 → Ensures P n)
    → Ensures P (by_state p m (fault x) n (fault y))
Ensures-by_state P busy q r m n x y h f g = f refl h
Ensures-by_state P ready q r m n x y h f g = tt
Ensures-by_state P writing q r m n x y h f g = g h.1
Ensures-by_state P offline q r m n x y h f g = tt

module _ {W : Type 0} where
  abbrev pub InOrder : Sc W → Type 0
  InOrder s = Agrees s.state s.writebuf.count s.outbuf.count

  abbrev Fine : ℕ × Sc W → Type 0
  Fine p = InOrder p.1

  Still-InOrder : {s s' : Sc W} → Still s s' → InOrder s → InOrder s'
  Still-InOrder {s} {s'} e h = rw (e.phase, e.queue, e.reply) h

  complete-Fine :
      (libc : Libc) (b : Backend W) (s : Sc W)
      → s.outbuf.count ≡ 0
      → Ensures Fine (complete libc b s)
  unfolding complete
  complete-Fine libc b s e =
      Ensures-if Fine (not (s.writebuf.count == 0)) _ _ (λ i. (not_zero s.writebuf.count i, e))
        (λ i. Ensures-bind Fine (require (s.outbuf.count == 0) outbuf_not_empty) _ λ z.
          Ensures-bind Fine (copy_string libc (reply_of b s) s.outbuf) _ λ o.
            Ensures-bind Fine (copy_string libc (prompt_of b s) s.ps1buf) _
              λ p. is_zero s.writebuf.count i)

  finish-Fine :
      (libc : Libc) (b : Backend W) (s : Sc W) → s.outbuf.count ≡ 0 → Ensures Fine (finish libc b s)
  unfolding finish
  finish-Fine libc b s e =
      Ensures-bind Fine (fsm_feed (current s) (null 1) s.back) _
        λ p. complete-Fine libc b (put s.curfsm p.1 p.2 s) e

  starve-Fine :
      (libc : Libc) (b : Backend W) (s : Sc W)
      → s.state ≡ busy
      → s.outbuf.count ≡ 0
      → Ensures Fine (starve libc b s)
  unfolding starve
  starve-Fine libc b s st e = Ensures-bind Fine (fsm_feed (current s) (null 0) s.back) _ λ p.
      let s1 : Sc W = put s.curfsm p.1 p.2 s in
      Ensures-if Fine (not (p.0 == 0)) (finish libc b s1) _ (λ i. finish-Fine libc b s1 e)
        (λ i. Ensures-if Fine (not s.nodataflag) _ _ (λ j. rw st e) (λ j. tt))

  oper_busy-Fine :
      (libc : Libc) (b : Backend W) (s : Sc W)
      → s.state ≡ busy
      → s.outbuf.count ≡ 0
      → Ensures Fine (oper_busy libc b s)
  unfolding oper_busy
  oper_busy-Fine libc b s st e =
      Ensures-follow (Stays s) Fine (read_more libc s) _ (read_more-Stays libc s) λ p q.
        Ensures-if Fine (not (p.0 == 0) || not (p.1.readbuf.count == 0)) _ _
          (λ i.
            Ensures-weaken (Stays s) Fine (eat b p.1) (eat-Stays b s p.1 q)
              λ t r. Still-InOrder r (rw st e))
          (λ i. starve-Fine libc b p.1 (q.phase ∙ st) (ap (λ (x : Buf). x.count) q.reply ∙ e))

  oper_writing-Fine : (s : Sc W) → s.outbuf.count ≡ 0 → Ensures Fine (oper_writing s)
  unfolding oper_writing
  oper_writing-Fine s e =
      Ensures-bind Fine (require (not (s.writebuf.count == 0)) no_newline) _ λ z.
        Ensures-bind Fine (load s.writebuf.mem 0) _ λ cell. Ensures-bind Fine (byte_of cell) _ λ c.
          Ensures-bind Fine (xwrite (c ∷ []) s.system) _ λ k.
            Ensures-bind Fine (shiftbuf s.writebuf.mem s.writebuf.count 1) _ λ m.
              let cur : Machine = if c == 10 then cmdout else inchar in
              Ensures-bind Fine (fsm_reset (pick cur s.fsm_init s.fsm_cmdout s.fsm_inchar) s.back)
                (λ p. ok (
                  1,
                  record (put cur p.0 p.1 (record s {
                    system = k;
                    writebuf = record (s.writebuf) { mem = m.0; count = m.1 };
                    curfsm = cur;
                  })) { state = busy },
                ))
                λ p. e

  sc_operate-Fine :
      (libc : Libc) (b : Backend W) (s : Sc W) → InOrder s → Ensures Fine (sc_operate libc b s)
  unfolding sc_operate
  sc_operate-Fine libc b s h =
      Ensures-by_state Fine s.state s.writebuf.count s.outbuf.count (oper_busy libc b s)
        (oper_writing s) _ _ h (oper_busy-Fine libc b s) (oper_writing-Fine s)

  sc_write-InOrder :
      (libc : Libc) (str : Block) (len : ℕ) (s : Sc W)
      → len ≢ 0
      → Ensures InOrder (sc_write libc str len s)
  unfolding sc_write
  sc_write-InOrder libc str len s nz =
      Ensures-bind InOrder (require (sc_ready s) write_not_ready) _ λ z.
        Ensures-bind InOrder (require (s.writebuf.count == 0) writebuf_not_empty) _ λ e.
          Ensures-bind InOrder (grow libc (s.writebuf.count + len + 1) s.writebuf) _ λ q.
            Ensures-bind InOrder (slice str 0 len) _ λ xs.
              Ensures-bind InOrder (memcpy q.mem q.count xs) _ λ m.
                Ensures-bind InOrder (store m (q.count + len) (some 0)) _ λ m'.
                  Ensures-bind InOrder (store s.outbuf.mem 0 (some 0)) _
                    λ o. (not_added q.count len nz, refl)

  abbrev Begun : Backend W × Sc W → Type 0
  Begun p = InOrder p.1

  sc_init-InOrder :
      (libc : Libc) (attached : Outcome (Backend W)) (w : W) (k : System)
      → Ensures Begun (sc_init libc attached w k)
  unfolding sc_init
  sc_init-InOrder libc attached w k = Ensures-bind Begun (fresh libc readbufsz) _ λ rb.
      Ensures-bind Begun (fresh libc writebufsz) _ λ wb.
        Ensures-bind Begun (fresh libc ps1bufsz) _ λ pb.
          Ensures-follow (λ (b : Buf). b.count ≡ 0) Begun (fresh libc outbufsz) _
            (fresh-Clean libc outbufsz)
            λ ob e. Ensures-bind Begun attached _ λ b. Ensures-bind Begun (b.init.f_init w) _ λ i.
              Ensures-bind Begun (b.cmdout.f_init i.1) _
                λ c. Ensures-bind Begun (b.inchar.f_init c.1) _ λ h. e

  -- The states that calls of `sc_operate` and `sc_write` lead to after `sc_init`. The client of `sc_write` has
  -- something to write.
  pub data Reached (libc : Libc) (b : Backend W) : Sc W → Type 0 where
    began :
        (attached : Outcome (Backend W)) (w : W) (k : System) (s : Sc W)
        → sc_init libc attached w k ≡ ok (b, s)
        → Reached libc b s
    operated :
        (s s' : Sc W) (r : ℕ)
        → Reached libc b s
        → sc_operate libc b s ≡ ok (r, s')
        → Reached libc b s'
    queued :
        (s s' : Sc W) (str : Block) (len : ℕ)
        → Reached libc b s
        → len ≢ 0
        → sc_write libc str len s ≡ ok s'
        → Reached libc b s'

  -- In every state that calls of sc_operate and of sc_write with something to write lead to after
  -- sc_init, whatever the backend, the switch, the allocator and the kernel do: the state is not
  -- OFFLINE; when it is READY nothing is queued for the switch; when it is WRITING something is
  -- queued; and when it is BUSY or WRITING there is no reply.
  pub Reached-InOrder : (libc : Libc) (b : Backend W) {s : Sc W} → Reached libc b s → InOrder s
  Reached-InOrder libc b (began attached w k s e) =
      ensured Begun (sc_init libc attached w k) (sc_init-InOrder libc attached w k) e
  Reached-InOrder libc b (operated s0 s r h e) =
      ensured Fine (sc_operate libc b s0) (sc_operate-Fine libc b s0 (Reached-InOrder libc b h)) e
  Reached-InOrder libc b (queued s0 s str len h nz e) =
      ensured InOrder (sc_write libc str len s0) (sc_write-InOrder libc str len s0 nz) e
