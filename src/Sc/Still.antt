-- ===== src/Sc/Still.antt =====
-- What an operation of src/sc.c that neither starts nor ends an exchange leaves alone.
use swh.Base.{
  ℕ, ◌+◌, ◌≡◌, ◌≢◌, refl, true, false, ◌==◌, not, arith, ok, fault, Ensures, Ensures-bind,
  Ensures-if, Ensures-follow, critical, Message,
}
use swh.Common.{Libc, shiftbuf, slice, growbuf}
use swh.Common.Io.{xread}
use swh.Fsm.{input, fsm_feed, fsm_error}
use swh.Hp.State.{Buf}
use swh.Back.{Backend}
use swh.Sc.State.{Sc, put, current, is_init}
use swh.Sc.Operate.{
  read_more, respond, drop_eaten, eat, grow_full, received, answer, key_text, report_text, bytes_of,
  require, grow,
}

pub not_zero : (n : ℕ) → not (n == 0) ≡ true → n ≢ 0
not_zero n h = ground arith

pub is_zero : (n : ℕ) → not (n == 0) ≡ false → n ≡ 0
is_zero n h = ground arith

pub not_added : (n k : ℕ) → k ≢ 0 → n + k ≢ 0
not_added n k h = omega arith

pub grow-count :
    (libc : Libc) (n : ℕ) (b : Buf) → Ensures (λ b'. b'.count ≡ b.count) (grow libc n b)
unfolding grow
grow-count libc n b =
    Ensures-bind (λ b'. b'.count ≡ b.count) (growbuf libc b.mem b.size n) _ λ p. refl

pub require-zero : (n : ℕ) (m : Message) → Ensures (λ z. n ≡ 0) (require (n == 0) m)
require-zero n m =
    Ensures-if (λ z. n ≡ 0) (n == 0) (ok true) (fault (critical m)) (λ i. ground arith) (λ i. tt)

module _ {W : Type 0} where
  -- neither the state nor the queue nor the reply
  pub record Still (s s' : Sc W) : Type 0 where
    pub phase : s'.state ≡ s.state
    pub queue : s'.writebuf ≡ s.writebuf
    pub reply : s'.outbuf ≡ s.outbuf

  abbrev pub Stays : Sc W → ℕ × Sc W → Type 0
  Stays s p = Still s p.1

  pub read_more-Stays : (libc : Libc) (s : Sc W) → Ensures (Stays s) (read_more libc s)
  unfolding read_more
  read_more-Stays libc s = Ensures-bind (Stays s) (grow_full libc s.readbuf) _ λ b.
      Ensures-bind (Stays s) (xread s.system.reads) _ λ r.
        Ensures-bind (Stays s) (received r.0 b) _
          λ p. record { phase = refl; queue = refl; reply = refl }

  respond-Still : (b : Backend W) (s s1 : Sc W) → Still s s1 → Ensures (Still s) (respond b s1)
  unfolding respond
  respond-Still b s s1 e =
      Ensures-if (Still s) (is_init s1.curfsm) _ (ok s1)
        (λ i. Ensures-bind (Still s) (answer (b.init.f_anykey s1.back).0 key_text s1.system) _ λ k1.
          Ensures-bind (Still s)
            (answer (b.init.f_report (b.init.f_anykey s1.back).1).0 report_text k1) _
            λ k2. record { phase = e.phase; queue = e.queue; reply = e.reply })
        (λ i. e)

  drop_eaten-Stays : (r : ℕ) (s s1 : Sc W) → Still s s1 → Ensures (Stays s) (drop_eaten r s1)
  unfolding drop_eaten
  drop_eaten-Stays r s s1 e =
      Ensures-bind (Stays s) (shiftbuf s1.readbuf.mem s1.readbuf.count r) _ λ p.
        Ensures-if (Stays s)
          (fsm_error
            (current (record s1 { readbuf = record (s1.readbuf) { mem = p.0; count = p.1 } })))
          _ _ (λ i. tt) (λ i. record { phase = e.phase; queue = e.queue; reply = e.reply })

  pub eat-Stays : (b : Backend W) (s s1 : Sc W) → Still s s1 → Ensures (Stays s) (eat b s1)
  unfolding eat
  eat-Stays b s s1 e =
      let s2 : Sc W = record s1 { nodataflag = false } in
      Ensures-bind (Stays s) (slice s1.readbuf.mem 0 s1.readbuf.count) _ λ cells.
        Ensures-bind (Stays s) (bytes_of cells) _ λ xs.
          Ensures-bind (Stays s) (fsm_feed (current s2) (input xs) s1.back) _ λ p.
            let s3 : Sc W = put s1.curfsm p.1 p.2 s2 in
            let q : Still s s3 = record { phase = e.phase; queue = e.queue; reply = e.reply } in
            Ensures-if (Stays s) (p.0 == 0) (ok (0, s3)) _ (λ i. q)
              (λ i.
                Ensures-follow (Still s) (Stays s) (respond b s3) _ (respond-Still b s s3 q)
                  (λ s4 q4. drop_eaten-Stays p.0 s s4 q4))
