-- ===== src/Sc/Answering.antt =====
-- `oper_busy` of src/sc.c over the greeting: the machine's two flags are answered.
use swh.Base.{
  ℕ, ◌+◌, ◌≤◌, ◌<◌, ◌≡◌, refl, sym, ap, ◌∙◌, Bool, true, false, some, List, [], ◌++◌, append-nil,
  append_assoc, length, drop, arith, if◌then◌else◌, ok,
}
use swh.Memory.{Bytes}
use swh.Common.{Libc}
use swh.Common.Io.{ReadAnswer, System, xread}
use swh.Common.Io.Sends.{Willing, writing_answers, xwrite-sends}
use swh.Fsm.{Fsm, fsm_feed, fsm_error, input}
use swh.Hp.State.{Buf}
use swh.Back.{Backend}
use swh.Sc.State.{init, Sc}
use swh.Sc.Operate.{answer, respond, oper_busy, key_text, report_text}
use swh.Sc.Buffers.{Filled}
use swh.Sc.Reading.{
  with_reads, oper_busy-eats, read_more-got, input-Filled, shifted-Filled, eat_steps,
  drop_eaten_steps,
}
use swh.Sc.Writing.{at}

-- what is sent for a flag
abbrev pub if_set : Bool → Bytes → Bytes
if_set wanted xs = if wanted then xs else []

pub answer-sends :
    (wanted : Bool) (xs : Bytes) (k : System)
    → Willing k.writes
    → length xs ≤ writing_answers k.writes
    → (k' : System) × (answer wanted xs k ≡ ok k')
      × (k'.sent ≡ k.sent ++ if_set wanted xs)
      × (k'.reads ≡ k.reads)
      × Willing k'.writes
      × (writing_answers k.writes ≤ writing_answers k'.writes + length xs)
unfolding answer
answer-sends true xs k w l = xwrite-sends xs k w l
answer-sends false xs k w l = (k, refl, sym (append-nil k.sent), refl, w, omega arith)

module _ {W : Type 0} where
  respond_steps :
      (b : Backend W) (s : Sc W) {key rep : Bool} {w1 w2 : W} {k1 k2 : System}
      → b.init.f_anykey s.back ≡ (key, w1)
      → b.init.f_report w1 ≡ (rep, w2)
      → answer key key_text s.system ≡ ok k1
      → answer rep report_text k1 ≡ ok k2
      → respond b (at init s) ≡ ok (record (at init s) { back = w2; system = k2 })
  unfolding respond
  respond_steps b s p q a c = rw (p, q, a, c) refl

  -- The machine for the greeting eats what was read, and what it asks for is sent.
  pub oper_busy-greets :
      (libc : Libc) (b : Backend W) (s : Sc W) {ys xs : Bytes} {as' : List ReadAnswer} {r : ℕ}
      {f : Fsm W} {w w1 w2 : W} {key rep : Bool}
      → Filled s.readbuf ys
      → xread s.system.reads ≡ ok (some xs, as')
      → 0 < length xs
      → length ys + length xs ≤ s.readbuf.size
      → fsm_feed s.fsm_init (input (ys ++ xs)) s.back ≡ ok (r, f, w)
      → 0 < r
      → r ≤ length (ys ++ xs)
      → fsm_error f ≡ false
      → b.init.f_anykey w ≡ (key, w1)
      → b.init.f_report w1 ≡ (rep, w2)
      → Willing s.system.writes
      → 12 ≤ writing_answers s.system.writes
      → (rb : Buf) × (k : System) × (oper_busy libc b (at init s)
          ≡ ok (
            1,
            record (at init s) {
              nodataflag = false;
              readbuf = rb;
              fsm_init = f;
              back = w2;
              system = k;
            },
          ))
        × Filled rb (drop r (ys ++ xs))
        × (rb.size ≡ s.readbuf.size)
        × (k.sent ≡ s.system.sent ++ (if_set key key_text ++ if_set rep report_text))
        × (k.reads ≡ as')
        × Willing k.writes
        × (writing_answers s.system.writes ≤ writing_answers k.writes + 12)
  oper_busy-greets libc b s {ys} {xs} {as'} {r} {f} {w} {w1} {w2} {key} {rep} h p l l' e z z' d c c'
        wl en =
      let (b1, q, g, e1) = read_more-got libc (at init s) h p l l' in
      let s1 : Sc W = record (with_reads as' (at init s)) { readbuf = b1 } in
      let s2 : Sc W = record s1 { fsm_init = f; back = w; nodataflag = false } in
      let (b2, t, e2, m) = shifted-Filled r g z' in
      let (u, v) = input-Filled g in
      let (k1, a1, a2, a3, a4, a5) = answer-sends key key_text s1.system wl (omega arith) in
      let (k2, c1, c2, c3, c4, c5) = answer-sends rep report_text k1 a4 (omega arith) in
      let s3 : Sc W = record s2 { back = w2; system = k2 } in
      (
        b2,
        k2,
        oper_busy-eats libc b (at init s) q (omega arith)
            ∙ eat_steps b s1 u v e (omega arith) (respond_steps b s2 c c' a1 c1)
            ∙ drop_eaten_steps r s3 t d
            ∙ ap
                (λ n.
                  ok (
                    1,
                    record s3 { readbuf = record { mem = b2.mem; size = n; count = b2.count } },
                  ))
                (sym e2),
        m,
        omega (arith, e1, e2),
        c2
            ∙ ap (λ x. x ++ if_set rep report_text) a2
            ∙ append_assoc s.system.sent (if_set key key_text) (if_set rep report_text),
        c3 ∙ a3,
        c4,
        omega arith,
      )
