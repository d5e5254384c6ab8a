-- ===== src/Fsm/Ends.antt =====
-- The end of the loop of `fsm_feed` of src/back/fsm.c.
use swh.Base.{
  ℕ, zero, suc, ◌+◌, ◌≤◌, ◌<◌, ◌≡◌, ◌≢◌, refl, ap, ◌∙◌, inl, inr, Bool, true, false, none, some,
  List, [], ◌∷◌, length, drop, arith, ◌==◌, if◌then◌else◌, Outcome, ok, fault, fault_same, if_ends,
  ok_ends, starved, Outcome-cases,
}
use swh.Memory.{Bytes, load}
use swh.Fsm.{Trans, Mktok, Fsm, ind, feed_from, byte, fsm_feed, input}
use swh.Fsm.Fuel.{drop-suc_length}

-- A token of input that is not longer than a limit has one byte at least and lies within it. Neither
-- the tokenizer nor an action of the table runs out of fuel or of answers.
pub record Proceeds {W : Type 0} (limit : ℕ) (mktok : Mktok W) (delta : List (Trans W))
    : Type 0 where
  pub some_bytes :
      (c : ℕ) (cs : Bytes) (w : W) {t n : ℕ} {w1 : W}
      → suc (length cs) ≤ limit
      → mktok (some (c ∷ cs)) 1 w ≡ ok (some t, n, w1)
      → (1 ≤ n) × (n ≤ suc (length cs))
  pub tokenizes : (c : ℕ) (cs : Bytes) (w : W) → mktok (some (c ∷ cs)) 1 w ≢ fault starved
  pub acts :
      (i : ℕ) {tr : Trans W}
      → load delta i ≡ ok tr
      → (c : ℕ) (w : W) → tr.action (byte c) w ≢ fault starved

load_ends : {A : Type 0} (xs : List A) (i : ℕ) → load xs i ≢ fault starved
unfolding load
load_ends [] i h = cc h
load_ends (x ∷ xs) zero h = cc h
load_ends (x ∷ xs) (suc i) h = load_ends xs i h

module _ {W : Type 0} where
  -- No action of these rows runs out of fuel or of answers.
  abbrev pub Acts : List (Trans W) → Type 0
  Acts [] = Unit
  Acts (tr ∷ trs) = ((c : ℕ) (w : W) → tr.action (byte c) w ≢ fault starved) × Acts trs

  pub Acts-load :
      (trs : List (Trans W)) (i : ℕ) {tr : Trans W}
      → Acts trs
      → load trs i ≡ ok tr
      → (c : ℕ) (w : W) → tr.action (byte c) w ≢ fault starved
  unfolding load
  Acts-load [] i a h c w = absurd (ground arith)
  Acts-load (x ∷ xs) zero {tr} (a, as') h c w =
      let e : x ≡ tr = cc h in λ k. a c w (ap (λ t. t.action (byte c) w) e ∙ k)
  Acts-load (x ∷ xs) (suc i) (a, as') h c w = Acts-load xs i as' h c w

  -- what more fuel makes of it: nothing, and the fuel is enough
  abbrev pub Agree : Outcome (ℕ × Fsm W × W) → Outcome (ℕ × Fsm W × W) → Type 0
  Agree m n = (m ≡ n) × (n ≢ fault starved)

  if-Agree :
      (b : Bool) (v : ℕ × Fsm W × W) (m n : Outcome (ℕ × Fsm W × W))
      → Agree m n
      → Agree (if b then ok v else m) (if b then ok v else n)
  if-Agree true v m n a = (refl, λ h. cc h)
  if-Agree false v m n a = a

  -- One round, which the rest of the rounds agree on.
  round-Agree :
      (f : Fsm W) (limit c : ℕ) (cs : Bytes) (i m n : ℕ) (w : W)
      → Proceeds limit f.f_mktok f.delta
      → suc (length cs) ≤ limit
      → ((k st : ℕ) (v : W)
          → 1 ≤ k
          → Agree
              (feed_from m (record f { curst = st }) (i + k) (drop k (c ∷ cs)) v)
              (feed_from n (record f { curst = st }) (i + k) (drop k (c ∷ cs)) v))
      → Agree (feed_from (suc m) f i (c ∷ cs) w) (feed_from (suc n) f i (c ∷ cs) w)
  unfolding feed_from
  round-Agree f limit c cs i m n w p b ih = elim (Outcome-cases (f.f_mktok (some (c ∷ cs)) 1 w)) [
    | inl ((none, k, w1), q) ↦ rw q (refl, λ h. cc h)
    | inl ((some t, k, w1), q) ↦ elim (Outcome-cases (load f.delta (ind f f.curst t))) [
      | inl (tr, r) ↦ elim (Outcome-cases (tr.action (byte c) w1)) [
        | inl (w2, s) ↦
            rw (q, r, s)
              (if-Agree (tr.state == f.errst) _ _ _ (ih k tr.state w2 (p.some_bytes c cs w b q).0))
        | inr (e, s) ↦
            rw (q, r, s) (refl, λ h. p.acts (ind f f.curst t) r c w1 (s ∙ fault_same e h))
      ]
      | inr (e, r) ↦ rw (q, r) (refl, λ h. load_ends f.delta (ind f f.curst t) (r ∙ fault_same e h))
    ]
    | inr (e, q) ↦ rw q (refl, λ h. p.tokenizes c cs w (q ∙ fault_same e h))
  ]

  nil-Agree :
      (f : Fsm W) (i m n : ℕ) (w : W)
      → Agree (feed_from (suc m) f i [] w) (feed_from (suc n) f i [] w)
  unfolding feed_from
  nil-Agree f i m n w = (refl, λ h. cc h)

  pub above_length :
      (f : Fsm W) (limit i m n : ℕ) (xs : Bytes) (w : W)
      → Proceeds limit f.f_mktok f.delta
      → length xs ≤ limit
      → length xs < m
      → length xs < n
      → Agree (feed_from m f i xs w) (feed_from n f i xs w)
  above_length f limit i zero n xs w p b h k = absurd (ground arith)
  above_length f limit i (suc m) zero xs w p b h k = absurd (ground arith)
  above_length f limit i (suc m) (suc n) [] w p b h k = nil-Agree f i m n w
  above_length f limit i (suc m) (suc n) (c ∷ cs) w p b h k =
      round-Agree f limit c cs i m n w p b (λ j st v lo.
        let l = drop-suc_length j c cs lo in
        above_length (record f { curst = st }) limit (i + j) m n (drop j (c ∷ cs)) v p (omega arith)
          (omega arith) (omega arith))

  -- For a machine whose tokenizer, on input that is not longer than a limit, gives only tokens
  -- that have one byte at least and lie within the input, and of which neither the tokenizer nor
  -- an action of the table runs out of fuel or of the system's answers, fed data that is not
  -- longer than the limit: as many rounds of the loop of fsm_feed as there are bytes and one more
  -- are enough, for the loop does not run out of them, more rounds change nothing, and fsm_feed
  -- does not run out of anything.
  pub feed_from_ends :
      {limit : ℕ} (f : Fsm W) (more : ℕ) (xs : Bytes) (w : W)
      → Proceeds limit f.f_mktok f.delta
      → length xs ≤ limit
      → (feed_from (length xs + 1 + more) f 0 xs w ≡ feed_from (length xs + 1) f 0 xs w)
        × (feed_from (length xs + 1) f 0 xs w ≢ fault starved)
        × (fsm_feed f (input xs) w ≢ fault starved)
  unfolding fsm_feed
  feed_from_ends {limit} f more xs w p b =
      let (same, ends) =
        above_length f limit 0 (length xs + 1 + more) (length xs + 1) xs w p b (omega arith)
          (omega arith) in
      (same, ends, if_ends (f.curst == f.errst) _ _ (ok_ends _) ends)
