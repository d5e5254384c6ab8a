-- ===== src/Fsm/Tokenizer.antt =====
-- What `fsm_feed` needs of a tokenizer, and the rounds of its loop over one.
use swh.Base.{
  ℕ, suc, ◌+◌, ◌≤◌, ◌≡◌, refl, ap, ◌∙◌, inl, inr, Bool, true, false, Bool-cases, none, some, [],
  ◌∷◌, ◌++◌, length, drop, arith, ◌==◌, if◌then◌else◌, Outcome, ok, Fault, fault, Outcome-cases,
}
use swh.Memory.{Bytes, load}
use swh.Fsm.{Trans, Mktok, Fsm, ind, feed_from, byte}

-- On input that is not longer than a limit, a token has one byte at least and lies within the input, and
-- input behind it plays no part. Input behind what makes the tokenizer fail plays no part either. After
-- "not enough data" it can be called again.
pub record IsTokenizer {W : Type 0} (limit : ℕ) (mktok : Mktok W) : Type 0 where
  pub whole :
      (c : ℕ) (cs more : Bytes) (w : W) {t n : ℕ} {w1 : W}
      → suc (length cs) ≤ limit
      → mktok (some (c ∷ cs)) 1 w ≡ ok (some t, n, w1)
      → (1 ≤ n) × (n ≤ suc (length cs)) × (mktok (some (c ∷ (cs ++ more))) 1 w ≡ ok (some t, n, w1))
  pub retry :
      (c : ℕ) (cs more : Bytes) (w : W) {n : ℕ} {w1 : W}
      → mktok (some (c ∷ cs)) 1 w ≡ ok (none, n, w1)
      → mktok (some (c ∷ (cs ++ more))) 1 w1 ≡ mktok (some (c ∷ (cs ++ more))) 1 w
  pub fails :
      (c : ℕ) (cs more : Bytes) (w : W) {e : Fault}
      → mktok (some (c ∷ cs)) 1 w ≡ fault e
      → mktok (some (c ∷ (cs ++ more))) 1 w ≡ fault e

go_on : {A : Type 0} {t : Bool} (a b : A) → t ≡ false → (if t then a else b) ≡ b
go_on a b h = ap (λ s. if s then a else b) h

module _ {W : Type 0} where
  -- One round of the loop over `c ∷ cs`, whatever stands behind it.
  pub data Round (f : Fsm W) (c : ℕ) (cs : Bytes) (w : W) : Type 0 where
    broken :
        (e : Fault)
        → ((more : Bytes) (k i : ℕ) → feed_from (suc k) f i (c ∷ (cs ++ more)) w ≡ fault e)
        → Round f c cs w
    waiting :
        (w1 : W)
        → ((k i : ℕ) → feed_from (suc k) f i (c ∷ cs) w ≡ ok (i, f, w1))
        → ((more : Bytes) (k i : ℕ)
            → feed_from (suc k) f i (c ∷ (cs ++ more)) w1
              ≡ feed_from (suc k) f i (c ∷ (cs ++ more)) w)
        → Round f c cs w
    halted :
        (n : ℕ) (w1 : W)
        → 1 ≤ n
        → n ≤ suc (length cs)
        → ((more : Bytes) (k i : ℕ)
            → feed_from (suc k) f i (c ∷ (cs ++ more)) w
              ≡ ok (i + n, record f { curst = f.errst }, w1))
        → Round f c cs w
    moved :
        (n st : ℕ) (w1 : W)
        → 1 ≤ n
        → n ≤ suc (length cs)
        → (st == f.errst) ≡ false
        → ((more : Bytes) (k i : ℕ)
            → feed_from (suc k) f i (c ∷ (cs ++ more)) w
              ≡ feed_from k (record f { curst = st }) (i + n) (drop n (c ∷ (cs ++ more))) w1)
        → Round f c cs w

  round-broken :
      (f : Fsm W) (c : ℕ) (cs : Bytes) (w : W) (k i : ℕ) {e : Fault}
      → f.f_mktok (some (c ∷ cs)) 1 w ≡ fault e
      → feed_from (suc k) f i (c ∷ cs) w ≡ fault e
  unfolding feed_from
  round-broken f c cs w k i p = rw p refl

  round-waiting :
      (f : Fsm W) (c : ℕ) (cs : Bytes) (w : W) (k i : ℕ) {n : ℕ} {w1 : W}
      → f.f_mktok (some (c ∷ cs)) 1 w ≡ ok (none, n, w1)
      → feed_from (suc k) f i (c ∷ cs) w ≡ ok (i, f, w1)
  unfolding feed_from
  round-waiting f c cs w k i p = rw p refl

  round-same :
      (f : Fsm W) (c : ℕ) (cs : Bytes) (w w1 : W) (k i : ℕ)
      → f.f_mktok (some (c ∷ cs)) 1 w1 ≡ f.f_mktok (some (c ∷ cs)) 1 w
      → feed_from (suc k) f i (c ∷ cs) w1 ≡ feed_from (suc k) f i (c ∷ cs) w
  unfolding feed_from
  round-same f c cs w w1 k i p = rw p refl

  round-load_fault :
      (f : Fsm W) (c : ℕ) (cs : Bytes) (w : W) (k i : ℕ) {t n : ℕ} {w1 : W} {e : Fault}
      → f.f_mktok (some (c ∷ cs)) 1 w ≡ ok (some t, n, w1)
      → load f.delta (ind f f.curst t) ≡ fault e
      → feed_from (suc k) f i (c ∷ cs) w ≡ fault e
  unfolding feed_from
  round-load_fault f c cs w k i p q = rw (p, q) refl

  round-action_fault :
      (f : Fsm W) (c : ℕ) (cs : Bytes) (w : W) (k i : ℕ) {t n : ℕ} {w1 : W} {tr : Trans W}
      {e : Fault}
      → f.f_mktok (some (c ∷ cs)) 1 w ≡ ok (some t, n, w1)
      → load f.delta (ind f f.curst t) ≡ ok tr
      → tr.action (byte c) w1 ≡ fault e
      → feed_from (suc k) f i (c ∷ cs) w ≡ fault e
  unfolding feed_from
  round-action_fault f c cs w k i p q r = rw (p, q, r) refl

  round-moved :
      (f : Fsm W) (c : ℕ) (cs : Bytes) (w : W) (k i : ℕ) {t n : ℕ} {w1 w2 : W} {tr : Trans W}
      → f.f_mktok (some (c ∷ cs)) 1 w ≡ ok (some t, n, w1)
      → load f.delta (ind f f.curst t) ≡ ok tr
      → tr.action (byte c) w1 ≡ ok w2
      → feed_from (suc k) f i (c ∷ cs) w ≡ (
          if tr.state == f.errst
          then ok (i + n, record f { curst = tr.state }, w2)
          else feed_from k (record f { curst = tr.state }) (i + n) (drop n (c ∷ cs)) w2)
  unfolding feed_from
  round-moved f c cs w k i p q r = rw (p, q, r) refl

  -- The error state ends the loop.
  halted_lem :
      (f : Fsm W) (n st : ℕ) (i : ℕ) (w : W) (rest : Outcome (ℕ × Fsm W × W))
      → (st == f.errst) ≡ true
      → (if st == f.errst then ok (i + n, record f { curst = st }, w) else rest)
        ≡ ok (i + n, record f { curst = f.errst }, w)
  halted_lem f n st i w rest h =
      let e : st ≡ f.errst = ground arith in
      rw h (ap (λ s. ok (i + n, record f { curst = s }, w)) e)

  -- Every round is of one of the four kinds.
  pub Round-cases :
      {limit : ℕ} (f : Fsm W) (c : ℕ) (cs : Bytes) (w : W)
      → IsTokenizer limit f.f_mktok
      → suc (length cs) ≤ limit
      → Round f c cs w
  Round-cases f c cs w l b = elim (Outcome-cases (f.f_mktok (some (c ∷ cs)) 1 w)) [
    | inl ((none, n, w1), p) ↦
        waiting w1 (λ k i. round-waiting f c cs w k i p)
          (λ more k i. round-same f c (cs ++ more) w w1 k i (l.retry c cs more w p))
    | inl ((some t, n, w1), p) ↦
        let (lo, hi, _) = l.whole c cs [] w b p in
        let q : (more : Bytes) → f.f_mktok (some (c ∷ (cs ++ more))) 1 w ≡ ok (some t, n, w1) =
          λ more. (l.whole c cs more w b p).2 in
        elim (Outcome-cases (load f.delta (ind f f.curst t))) [
          | inl (tr, r) ↦ elim (Outcome-cases (tr.action (byte c) w1)) [
            | inl (w2, s) ↦ elim (Bool-cases (tr.state == f.errst)) [
              | inl h ↦ halted n w2 lo hi (λ more k i.
                  round-moved f c (cs ++ more) w k i (q more) r s
                  ∙ halted_lem f n tr.state i w2 _ h)
              | inr h ↦
                  moved n tr.state w2 lo hi h
                    (λ more k i. round-moved f c (cs ++ more) w k i (q more) r s ∙ go_on _ _ h)
            ]
            | inr (e, s) ↦
                broken e (λ more k i. round-action_fault f c (cs ++ more) w k i (q more) r s)
          ]
          | inr (e, r) ↦ broken e (λ more k i. round-load_fault f c (cs ++ more) w k i (q more) r)
        ]
    | inr (e, p) ↦
        broken e (λ more k i. round-broken f c (cs ++ more) w k i (l.fails c cs more w p))
  ]
