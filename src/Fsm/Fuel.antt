-- ===== src/Fsm/Fuel.antt =====
-- The fuel of `fsm_feed`, and how much it eats.
use swh.Base.{
  ℕ, zero, suc, ◌+◌, ◌≤◌, ◌<◌, ◌≡◌, refl, sym, ap, ◌∙◌, [], ◌∷◌, ◌++◌, append-nil, length,
  length-drop, drop, arith, Outcome, ok, fault,
}
use swh.Memory.{Bytes}
use swh.Fsm.{Fsm, feed_from}
use swh.Fsm.Tokenizer.{IsTokenizer, Round, broken, waiting, halted, moved, Round-cases}

pub drop-append_le : (n : ℕ) (xs ys : Bytes) → n ≤ length xs → drop n (xs ++ ys) ≡ drop n xs ++ ys
drop-append_le zero xs ys h = refl
drop-append_le (suc n) [] ys h = absurd (ground arith)
drop-append_le (suc n) (x ∷ xs) ys h = drop-append_le n xs ys (omega arith)

pub drop-nil : (n : ℕ) → drop {A = ℕ} n [] ≡ []
drop-nil zero = refl
drop-nil (suc n) = refl

pub drop-drop : (n k : ℕ) (xs : Bytes) → drop n (drop k xs) ≡ drop (k + n) xs
drop-drop n zero xs = ap (λ j. drop j xs) (omega arith)
drop-drop n (suc k) [] = drop-nil n ∙ sym (drop-nil (suc k + n))
drop-drop n (suc k) (x ∷ xs) =
    let e : suc k + n ≡ suc (k + n) = omega arith in
    drop-drop n k xs ∙ ap (λ j. drop j (x ∷ xs)) (sym e)

pub drop-suc_length : (n c : ℕ) (cs : Bytes) → 1 ≤ n → length (drop n (c ∷ cs)) ≤ length cs
drop-suc_length n c cs h = omega (arith, length-drop n (c ∷ cs))

-- the three parts of a result
abbrev parts : {W : Type 0} → ℕ × Fsm W × W → Outcome (ℕ × Fsm W × W) → ℕ × Fsm W × W
parts v (ok u) = u
parts v (fault e) = v

pub ok-inj :
    {W : Type 0} {r r' : ℕ} {f g : Fsm W} {w w' : W}
    → ◌≡◌ {A = Outcome (ℕ × Fsm W × W)} (ok (r, f, w)) (ok (r', g, w'))
    → (r ≡ r') × (f ≡ g) × (w ≡ w')
ok-inj {r = r} {f = f} {w = w} e = (
  ap (λ v. (parts (r, f, w) v).0) e,
  ap (λ v. (parts (r, f, w) v).1) e,
  ap (λ v. (parts (r, f, w) v).2) e,
)

module _ {W : Type 0} where
  pub feed_from-nil :
      (k : ℕ) (f : Fsm W) (i : ℕ) (w : W) → feed_from (suc k) f i [] w ≡ ok (i, f, w)
  unfolding feed_from
  feed_from-nil k f i w = refl

  pub nil_behind :
      (k : ℕ) (f : Fsm W) (i c : ℕ) (cs : Bytes) (w : W)
      → feed_from k f i (c ∷ cs) w ≡ feed_from k f i (c ∷ (cs ++ [])) w
  nil_behind k f i c cs w = ap (λ z. feed_from k f i (c ∷ z) w) (sym (append-nil cs))

  pub nil_behind_drop :
      (k : ℕ) (f : Fsm W) (i n c : ℕ) (cs : Bytes) (w : W)
      → feed_from k f i (drop n (c ∷ (cs ++ []))) w ≡ feed_from k f i (drop n (c ∷ cs)) w
  nil_behind_drop k f i n c cs w = ap (λ z. feed_from k f i (drop n (c ∷ z)) w) (append-nil cs)

  pub same_round :
      (f : Fsm W) (i m n c : ℕ) (cs : Bytes) (w : W)
      → Round f c cs w
      → ((k st : ℕ) (v : W)
          → 1 ≤ k
          → feed_from m (record f { curst = st }) (i + k) (drop k (c ∷ cs)) v
            ≡ feed_from n (record f { curst = st }) (i + k) (drop k (c ∷ cs)) v)
      → feed_from (suc m) f i (c ∷ cs) w ≡ feed_from (suc n) f i (c ∷ cs) w
  same_round f i m n c cs w (broken e p) ih =
      nil_behind (suc m) f i c cs w
      ∙ p [] m i
      ∙ sym (p [] n i)
      ∙ sym (nil_behind (suc n) f i c cs w)
  same_round f i m n c cs w (waiting w1 p q) ih = p m i ∙ sym (p n i)
  same_round f i m n c cs w (halted k w1 lo hi p) ih =
      nil_behind (suc m) f i c cs w
      ∙ p [] m i
      ∙ sym (p [] n i)
      ∙ sym (nil_behind (suc n) f i c cs w)
  same_round f i m n c cs w (moved k st w1 lo hi ne p) ih =
      nil_behind (suc m) f i c cs w
      ∙ p [] m i
      ∙ nil_behind_drop m (record f { curst = st }) (i + k) k c cs w1
      ∙ ih k st w1 lo
      ∙ sym (nil_behind_drop n (record f { curst = st }) (i + k) k c cs w1)
      ∙ sym (p [] n i)
      ∙ sym (nil_behind (suc n) f i c cs w)

  -- Fuel above the length of the input is enough: more of it changes nothing.
  pub enough :
      {limit : ℕ} (bound : ℕ) (f : Fsm W) (i m n : ℕ) (xs : Bytes) (w : W)
      → IsTokenizer limit f.f_mktok
      → length xs ≤ limit
      → length xs ≤ bound
      → length xs < m
      → length xs < n
      → feed_from m f i xs w ≡ feed_from n f i xs w
  enough bound f i zero n xs w l q h a b = absurd (ground arith)
  enough bound f i (suc m) zero xs w l q h a b = absurd (ground arith)
  enough bound f i (suc m) (suc n) [] w l q h a b =
      feed_from-nil m f i w ∙ sym (feed_from-nil n f i w)
  enough zero f i (suc m) (suc n) (c ∷ cs) w l q h a b = absurd (ground arith)
  enough (suc bound) f i (suc m) (suc n) (c ∷ cs) w l q h a b =
      same_round f i m n c cs w (Round-cases f c cs w l q) (λ k st v lo.
        enough bound (record f { curst = st }) (i + k) m n (drop k (c ∷ cs)) v l
          (omega (arith, drop-suc_length k c cs lo)) (omega (arith, drop-suc_length k c cs lo))
          (omega (arith, drop-suc_length k c cs lo)) (omega (arith, drop-suc_length k c cs lo)))

  pub ended :
      {f g : Fsm W} {j i r n : ℕ} {w w' : W}
      → ◌≡◌ {A = Outcome (ℕ × Fsm W × W)} (ok (j, f, w)) (ok (r, g, w'))
      → i ≤ j
      → j ≤ n
      → (i ≤ r) × (r ≤ n) × (g ≡ record f { curst = g.curst })
  ended {f} {g} e a b =
      let (e1, e2, _) = ok-inj e in
      (omega arith, omega arith, sym e2 ∙ ap (λ h. record f { curst = h.curst }) e2)

  pub ended_error :
      (f : Fsm W) {g : Fsm W} {j i r n st : ℕ} {w w' : W}
      → ◌≡◌ {A = Outcome (ℕ × Fsm W × W)} (ok (j, record f { curst = st }, w)) (ok (r, g, w'))
      → i ≤ j
      → j ≤ n
      → (i ≤ r) × (r ≤ n) × (g ≡ record f { curst = g.curst })
  ended_error f {g} e a b =
      let (e1, e2, _) = ok-inj e in
      (omega arith, omega arith, sym e2 ∙ ap (λ h. record f { curst = h.curst }) e2)

  -- The count stays within the input, and the machine is the same but for its state.
  pub counted :
      {limit : ℕ} (n : ℕ) (f : Fsm W) (i : ℕ) (xs : Bytes) (w : W) {r : ℕ} {g : Fsm W} {w' : W}
      → IsTokenizer limit f.f_mktok
      → length xs ≤ limit
      → length xs < n
      → feed_from n f i xs w ≡ ok (r, g, w')
      → (i ≤ r) × (r ≤ i + length xs) × (g ≡ record f { curst = g.curst })
  counted zero f i xs w l b h e = absurd (ground arith)
  counted (suc n) f i [] w {r} l b h e =
      let q = sym (feed_from-nil n f i w) ∙ e in ended q (omega arith) (omega arith)
  counted (suc n) f i (c ∷ cs) w {r} {g} {w'} l y h e = elim (Round-cases f c cs w l y) [
    | broken x p ↦ cc (nil_behind (suc n) f i c cs w, p [] n i, e)
    | waiting w1 p q ↦ ended (sym (p n i) ∙ e) (omega arith) (omega arith)
    | halted k w1 lo hi p ↦
        ended_error f (sym (p [] n i) ∙ sym (nil_behind (suc n) f i c cs w) ∙ e) (omega arith)
          (omega arith)
    | moved k st w1 lo hi ne p ↦
        let e' : feed_from n (record f { curst = st }) (i + k) (drop k (c ∷ cs)) w1
            ≡ ok (r, g, w') =
          sym (nil_behind_drop n (record f { curst = st }) (i + k) k c cs w1)
          ∙ sym (p [] n i)
          ∙ sym (nil_behind (suc n) f i c cs w)
          ∙ e in
        let (a, b, d) =
          counted n (record f { curst = st }) (i + k) (drop k (c ∷ cs)) w1 l
            (omega (arith, drop-suc_length k c cs lo)) (omega (arith, drop-suc_length k c cs lo))
            e' in
        (omega arith, omega (arith, length-drop k (c ∷ cs)), d)
  ]
