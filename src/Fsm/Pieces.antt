-- ===== src/Fsm/Pieces.antt =====
-- A stream that is fed in pieces.
use swh.Base.{
  ℕ, zero, suc, ◌+◌, ◌-◌, ◌≤◌, ◌<◌, ◌≡◌, refl, sym, ap, ◌∙◌, inl, inr, true, false, Bool-cases, [],
  ◌∷◌, ◌++◌, length, length-append, length-drop, drop, arith, ◌==◌, if◌then◌else◌, Outcome, ok,
  Outcome-cases, ◌>>=◌,
}
use mathlib.Core.Path.{subst}
use swh.Memory.{Bytes}
use swh.Fsm.{Fsm, feed_from, fsm_feed, input}
use swh.Fsm.Tokenizer.{IsTokenizer, Round, broken, waiting, halted, moved, Round-cases}
use swh.Fsm.Fuel.{
  drop-suc_length, drop-append_le, drop-nil, drop-drop, feed_from-nil, nil_behind, nil_behind_drop,
  enough, ended, counted,
}

module _ {W : Type 0} where
  -- what feeding one piece makes of the feeding of the next
  abbrev go_on : ℕ → ℕ → Bytes → Bytes → ℕ × Fsm W × W → Outcome (ℕ × Fsm W × W)
  go_on n i xs ys (r, g, w) =
      if g.curst == g.errst then ok (r, g, w) else feed_from n g r (drop (r - i) xs ++ ys) w

  go_on_running :
      (n i : ℕ) (xs ys : Bytes) (r : ℕ) (g : Fsm W) (w : W)
      → (g.curst == g.errst) ≡ false
      → go_on n i xs ys (r, g, w) ≡ feed_from n g r (drop (r - i) xs ++ ys) w
  go_on_running n i xs ys r g w h =
      ap (λ t. if t then ok (r, g, w) else feed_from n g r (drop (r - i) xs ++ ys) w) h

  go_on_error :
      (n i : ℕ) (xs ys : Bytes) (r : ℕ) (g : Fsm W) (w : W)
      → (g.curst == g.errst) ≡ true
      → go_on n i xs ys (r, g, w) ≡ ok (r, g, w)
  go_on_error n i xs ys r g w h =
      ap (λ t. if t then ok (r, g, w) else feed_from n g r (drop (r - i) xs ++ ys) w) h

  -- The continuation behind a round is that behind the rest of the round's input.
  go_on_moved :
      {limit : ℕ} (n i k : ℕ) (xs ys : Bytes) (r : ℕ) (g : Fsm W) (w : W)
      → IsTokenizer limit g.f_mktok
      → length xs + length ys ≤ limit
      → i + k ≤ r
      → 1 ≤ k
      → length xs + length ys < suc n
      → 0 < length xs
      → go_on n (i + k) (drop k xs) ys (r, g, w) ≡ go_on (suc n) i xs ys (r, g, w)
  go_on_moved n i k xs ys r g w l y a b c d = elim (Bool-cases (g.curst == g.errst)) [
    | inl h ↦
        go_on_error n (i + k) (drop k xs) ys r g w h ∙ sym (go_on_error (suc n) i xs ys r g w h)
    | inr h ↦
        let z : Bytes = drop (r - i) xs ++ ys in
        go_on_running n (i + k) (drop k xs) ys r g w h
        ∙ ap (λ u. feed_from n g r (u ++ ys) w)
            (drop-drop (r - (i + k)) k xs ∙ ap (λ j. drop j xs) (omega arith))
        ∙ enough (length z) g r n (suc n) z w l
            (omega (arith, length-append (drop (r - i) xs) ys, length-drop (r - i) xs))
            (omega arith)
            (omega (arith, length-append (drop (r - i) xs) ys, length-drop (r - i) xs))
            (omega (arith, length-append (drop (r - i) xs) ys, length-drop (r - i) xs))
        ∙ sym (go_on_running (suc n) i xs ys r g w h)
  ]

  -- The machine is the same but for its state, so its tokenizer is.
  pub same-IsTokenizer :
      {limit : ℕ} (f : Fsm W) {g : Fsm W}
      → g ≡ record f { curst = g.curst }
      → IsTokenizer limit f.f_mktok
      → IsTokenizer limit g.f_mktok
  same-IsTokenizer {limit} f {g} e l = subst (IsTokenizer limit) (ap (λ h. h.f_mktok) (sym e)) l

  -- The rest of a round, over two pieces.
  moved_on :
      {limit : ℕ} (n i k c : ℕ) (cs ys : Bytes) (g : Fsm W) (w : W)
      → IsTokenizer limit g.f_mktok
      → length (c ∷ cs) + length ys ≤ limit
      → 1 ≤ k
      → length (c ∷ cs) + length ys < suc n
      → (feed_from n g (i + k) (drop k (c ∷ cs)) w >>= go_on n (i + k) (drop k (c ∷ cs)) ys)
        ≡ (feed_from n g (i + k) (drop k (c ∷ cs)) w >>= go_on (suc n) i (c ∷ cs) ys)
  moved_on n i k c cs ys g w l y a b =
      elim (Outcome-cases (feed_from n g (i + k) (drop k (c ∷ cs)) w)) [
        | inl ((r, h, v), e) ↦
            let (lo, hi, same) =
              counted n g (i + k) (drop k (c ∷ cs)) w l (omega (arith, drop-suc_length k c cs a))
                (omega (arith, drop-suc_length k c cs a)) e in
            rw e (
              go_on_moved n i k (c ∷ cs) ys r h v (same-IsTokenizer g same l) y lo a b
                (omega arith))
        | inr (x, e) ↦ rw e
      ]

  first_round :
      {limit : ℕ} (n i c : ℕ) (cs ys : Bytes) (f : Fsm W) (w : W)
      → (f.curst == f.errst) ≡ false
      → length (c ∷ cs) + length ys < suc n
      → IsTokenizer limit f.f_mktok
      → length (c ∷ cs) + length ys ≤ limit
      → ((k st : ℕ) (v : W)
          → 1 ≤ k
          → (st == f.errst) ≡ false
          → feed_from n (record f { curst = st }) (i + k) (drop k (c ∷ cs) ++ ys) v ≡ (
              feed_from n (record f { curst = st }) (i + k) (drop k (c ∷ cs)) v
              >>= go_on n (i + k) (drop k (c ∷ cs)) ys))
      → Round f c cs w
      → feed_from (suc n) f i ((c ∷ cs) ++ ys) w
        ≡ (feed_from (suc n) f i (c ∷ cs) w >>= go_on (suc n) i (c ∷ cs) ys)
  first_round n i c cs ys f w h b l y ih (broken e p) =
      p ys n i
      ∙ sym (ap (λ z. z >>= go_on (suc n) i (c ∷ cs) ys) (nil_behind (suc n) f i c cs w ∙ p [] n i))
  first_round n i c cs ys f w h b l y ih (waiting w1 p q) =
      let z : 0 ≡ i - i = omega arith in
      sym (q ys n i)
      ∙ ap (λ j. feed_from (suc n) f i (drop j (c ∷ cs) ++ ys) w1) z
      ∙ sym (go_on_running (suc n) i (c ∷ cs) ys i f w1 h)
      ∙ sym (ap (λ z. z >>= go_on (suc n) i (c ∷ cs) ys) (p n i))
  first_round n i c cs ys f w h b l y ih (halted k w1 lo hi p) =
      p ys n i
      ∙ sym (
          go_on_error (suc n) i (c ∷ cs) ys (i + k) (record f { curst = f.errst }) w1
            (ground arith))
      ∙ sym (ap (λ z. z >>= go_on (suc n) i (c ∷ cs) ys) (nil_behind (suc n) f i c cs w ∙ p [] n i))
  first_round n i c cs ys f w h b l y ih (moved k st w1 lo hi ne p) =
      let g : Fsm W = record f { curst = st } in
      p ys n i
      ∙ ap (λ z. feed_from n g (i + k) z w1) (drop-append_le k (c ∷ cs) ys hi)
      ∙ ih k st w1 lo ne
      ∙ moved_on n i k c cs ys g w1 l y lo b
      ∙ sym (
          ap (λ z. z >>= go_on (suc n) i (c ∷ cs) ys)
            (nil_behind (suc n) f i c cs w ∙ p [] n i ∙ nil_behind_drop n g (i + k) k c cs w1))

  appended :
      {limit : ℕ} (bound n i : ℕ) (xs ys : Bytes) (f : Fsm W) (w : W)
      → length xs ≤ bound
      → length xs + length ys < n
      → (f.curst == f.errst) ≡ false
      → IsTokenizer limit f.f_mktok
      → length xs + length ys ≤ limit
      → feed_from n f i (xs ++ ys) w ≡ (feed_from n f i xs w >>= go_on n i xs ys)
  appended bound zero i xs ys f w a b h l y = absurd (ground arith)
  appended bound (suc n) i [] ys f w a b h l y =
      ap (λ z. feed_from (suc n) f i (z ++ ys) w) (sym (drop-nil (i - i)))
      ∙ sym (go_on_running (suc n) i [] ys i f w h)
      ∙ sym (ap (λ z. z >>= go_on (suc n) i [] ys) (feed_from-nil n f i w))
  appended zero (suc n) i (c ∷ cs) ys f w a b h l y = absurd (ground arith)
  appended (suc bound) (suc n) i (c ∷ cs) ys f w a b h l y =
      first_round n i c cs ys f w h b l y
        (λ k st v lo ne.
          appended bound n (i + k) (drop k (c ∷ cs)) ys (record f { curst = st }) v
            (omega (arith, drop-suc_length k c cs lo)) (omega (arith, drop-suc_length k c cs lo)) ne
            l (omega (arith, drop-suc_length k c cs lo)))
        (Round-cases f c cs w l (omega arith))

  abbrev add_count : ℕ → ℕ × Fsm W × W → Outcome (ℕ × Fsm W × W)
  add_count j (r, g, w) = ok (j + r, g, w)

  -- The count goes on from where it starts.
  shifted :
      {limit : ℕ} (n j i : ℕ) (xs : Bytes) (f : Fsm W) (w : W)
      → IsTokenizer limit f.f_mktok
      → length xs ≤ limit
      → length xs < n
      → feed_from n f (j + i) xs w ≡ (feed_from n f i xs w >>= add_count j)
  shifted zero j i xs f w l y h = absurd (ground arith)
  shifted (suc n) j i [] f w l y h =
      feed_from-nil n f (j + i) w ∙ sym (ap (λ z. z >>= add_count j) (feed_from-nil n f i w))
  shifted (suc n) j i (c ∷ cs) f w l y h = elim (Round-cases f c cs w l y) [
    | broken e p ↦
        nil_behind (suc n) f (j + i) c cs w
        ∙ p [] n (j + i)
        ∙ sym (ap (λ z. z >>= add_count j) (nil_behind (suc n) f i c cs w ∙ p [] n i))
    | waiting w1 p q ↦ p n (j + i) ∙ sym (ap (λ z. z >>= add_count j) (p n i))
    | halted k w1 lo hi p ↦
        let e : j + i + k ≡ j + (i + k) = omega arith in
        nil_behind (suc n) f (j + i) c cs w
        ∙ p [] n (j + i)
        ∙ ap (λ m. ok (m, record f { curst = f.errst }, w1)) e
        ∙ sym (ap (λ z. z >>= add_count j) (nil_behind (suc n) f i c cs w ∙ p [] n i))
    | moved k st w1 lo hi ne p ↦
        let g : Fsm W = record f { curst = st } in
        let e : j + i + k ≡ j + (i + k) = omega arith in
        nil_behind (suc n) f (j + i) c cs w
        ∙ p [] n (j + i)
        ∙ nil_behind_drop n g (j + i + k) k c cs w1
        ∙ ap (λ m. feed_from n g m (drop k (c ∷ cs)) w1) e
        ∙ shifted n j (i + k) (drop k (c ∷ cs)) g w1 l (omega (arith, drop-suc_length k c cs lo))
            (omega (arith, drop-suc_length k c cs lo))
        ∙ sym (
            ap (λ z. z >>= add_count j)
              (nil_behind (suc n) f i c cs w ∙ p [] n i ∙ nil_behind_drop n g (i + k) k c cs w1))
  ]

  pub feed_running :
      (f : Fsm W) (xs : Bytes) (w : W)
      → (f.curst == f.errst) ≡ false
      → fsm_feed f (input xs) w ≡ feed_from (length xs + 1) f 0 xs w
  unfolding fsm_feed
  feed_running f xs w h = rw h refl

  pub feed_error :
      (f : Fsm W) (xs : Bytes) (w : W)
      → (f.curst == f.errst) ≡ true
      → fsm_feed f (input xs) w ≡ ok (0, f, w)
  unfolding fsm_feed
  feed_error f xs w h = rw h refl

  -- the second feeding, with the bytes that the first has left
  abbrev pub feed_next : Bytes → Bytes → ℕ × Fsm W × W → Outcome (ℕ × Fsm W × W)
  feed_next xs ys (r, g, w) = fsm_feed g (input (drop r xs ++ ys)) w >>= add_count r

  next-go_on :
      {limit : ℕ} (n : ℕ) (xs ys : Bytes) (r : ℕ) (g : Fsm W) (w : W)
      → IsTokenizer limit g.f_mktok
      → length xs + length ys ≤ limit
      → length xs + length ys < n
      → go_on n 0 xs ys (r, g, w) ≡ feed_next xs ys (r, g, w)
  next-go_on n xs ys r g w l y b = elim (Bool-cases (g.curst == g.errst)) [
    | inl h ↦
        let e : r ≡ r + 0 = omega arith in
        go_on_error n 0 xs ys r g w h
        ∙ ap (λ m. ok (m, g, w)) e
        ∙ sym (ap (λ z. z >>= add_count r) (feed_error g (drop r xs ++ ys) w h))
    | inr h ↦
        let z : Bytes = drop r xs ++ ys in
        let len : length z ≤ length xs + length ys =
          omega (arith, length-append (drop r xs) ys, length-drop r xs) in
        let e : r ≡ r + 0 = omega arith in
        let e0 : r - 0 ≡ r = omega arith in
        go_on_running n 0 xs ys r g w h
        ∙ ap (λ j. feed_from n g r (drop j xs ++ ys) w) e0
        ∙ ap (λ m. feed_from n g m z w) e
        ∙ shifted n r 0 z g w l (omega arith) (omega arith)
        ∙ ap (λ u. u >>= add_count r)
            (enough (length z) g 0 n (length z + 1) z w l (omega arith) (omega arith) (omega arith)
                (omega arith)
              ∙ sym (feed_running g z w h))
  ]

  joined :
      {limit : ℕ} (n : ℕ) (f : Fsm W) (xs ys : Bytes) (w : W)
      → IsTokenizer limit f.f_mktok
      → length xs + length ys ≤ limit
      → length xs + length ys < n
      → (feed_from n f 0 xs w >>= go_on n 0 xs ys) ≡ (feed_from n f 0 xs w >>= feed_next xs ys)
  joined n f xs ys w l y b = elim (Outcome-cases (feed_from n f 0 xs w)) [
    | inl ((r, g, v), e) ↦
        let (_, _, same) = counted n f 0 xs w l (omega arith) (omega arith) e in
        rw e (next-go_on n xs ys r g v (same-IsTokenizer f same l) y b)
    | inr (x, e) ↦ rw e
  ]

  -- A machine's tokenizer, on input that is not longer than a limit, eats at least one byte and
  -- not more than there are and does not depend on the input behind a token; nor does it depend
  -- on the input behind what makes it fail; and it can be called again after it had not enough
  -- data. Then, for two pieces of data that are together not longer than the limit, feeding it
  -- both as one gives what feeding the first gives, followed by feeding what was left of the
  -- first with the second behind it, the counts added; also when a machine ends in its error
  -- state or the process fails.
  pub fsm_feed-append :
      {limit : ℕ} (f : Fsm W) (xs ys : Bytes) (w : W)
      → IsTokenizer limit f.f_mktok
      → length xs + length ys ≤ limit
      → fsm_feed f (input (xs ++ ys)) w ≡ (fsm_feed f (input xs) w >>= feed_next xs ys)
  fsm_feed-append f xs ys w l y = elim (Bool-cases (f.curst == f.errst)) [
    | inl h ↦
        feed_error f (xs ++ ys) w h
        ∙ sym (ap (λ z. z >>= add_count 0) (feed_error f (xs ++ ys) w h))
        ∙ sym (ap (λ z. z >>= feed_next xs ys) (feed_error f xs w h))
    | inr h ↦
        let n : ℕ = length xs + length ys + 1 in
        let whole : fsm_feed f (input xs) w ≡ feed_from n f 0 xs w =
          feed_running f xs w h
          ∙ enough (length xs) f 0 (length xs + 1) n xs w l (omega arith) (omega arith)
              (omega arith) (omega arith) in
        feed_running f (xs ++ ys) w h
        ∙ enough (length (xs ++ ys)) f 0 (length (xs ++ ys) + 1) n (xs ++ ys) w l
            (omega (arith, length-append xs ys)) (omega arith) (omega arith)
            (omega (arith, length-append xs ys))
        ∙ appended (length xs) n 0 xs ys f w (omega arith) (omega arith) h l y
        ∙ joined n f xs ys w l y (omega arith)
        ∙ sym (ap (λ z. z >>= feed_next xs ys) whole)
  ]

  -- What is eaten lies within the input, and the machine is the same but for its state.
  pub feed_count :
      {limit : ℕ} (f : Fsm W) (xs : Bytes) (w : W) {r : ℕ} {g : Fsm W} {w' : W}
      → IsTokenizer limit f.f_mktok
      → length xs ≤ limit
      → fsm_feed f (input xs) w ≡ ok (r, g, w')
      → (r ≤ length xs) × (g ≡ record f { curst = g.curst })
  feed_count f xs w {r} {g} {w'} l y e = elim (Bool-cases (f.curst == f.errst)) [
    | inl h ↦
        let (_, a, b) =
          ended {i = 0} {n = length xs} (sym (feed_error f xs w h) ∙ e) (omega arith)
            (omega arith) in
        (a, b)
    | inr h ↦
        let (_, a, b) =
          counted (length xs + 1) f 0 xs w l y (omega arith) (sym (feed_running f xs w h) ∙ e) in
        (omega arith, b)
  ]
