-- ===== src/Sc/Pieces.antt =====
-- `oper_busy` of src/sc.c over data that arrives in pieces: the machine may leave the start of an
-- escape sequence behind, which then stands in front of the next piece.
use swh.Base.{
  ℕ, ◌+◌, ◌≤◌, ◌<◌, ◌≡◌, ◌≢◌, ◌⊎◌, refl, sym, ap, ◌∙◌, inl, inr, true, false, some, List, [], ◌∷◌,
  ◌++◌, append-nil, append_assoc, length, length-append, length-drop, drop, arith, ◌==◌, Bool-cases,
  Outcome, ok, Fault, fault, Outcome-cases, ◌>>=◌,
}
use mathlib.Core.Path.{subst}
use native.Mathlib.Decide.{ℕ_discrete}
use swh.Memory.{Bytes, flat}
use swh.Common.{Libc}
use swh.Common.Io.{ReadAnswer, got, xread}
use swh.Fsm.{Fsm, fsm_feed, fsm_error, input}
use swh.Fsm.Tokenizer.{IsTokenizer}
use swh.Fsm.Fuel.{ok-inj}
use swh.Fsm.Pieces.{fsm_feed-append, feed_next, feed_count, feed_error, same-IsTokenizer}
use swh.Hp.State.{Buf}
use swh.Back.{Backend}
use swh.Sc.State.{busy, Machine, init, cmdout, inchar, Sc, current, put, is_init}
use swh.Sc.Operate.{oper_busy}
use swh.Sc.Buffers.{Filled}
use swh.Sc.Reading.{
  with_reads, oper_busy-feeds, oper_busy-eats, eat_none_steps, read_more-got, input-Filled,
  pick_same,
}
use swh.Core.{Works, Works-step, Works-append, busy_busy, operate_busy}

-- what read(2) answers: each piece in turn
abbrev pub gots : List Bytes → List ReadAnswer → List ReadAnswer
gots [] todo = todo
gots (p ∷ ps) todo = got p ∷ gots ps todo

-- No piece is empty.
abbrev pub AllSome : List Bytes → Type 0
AllSome [] = Unit
AllSome (p ∷ ps) = (0 < length p) × AllSome ps

pub xread-got :
    (xs : Bytes) (as' : List ReadAnswer) → 0 < length xs → xread (got xs ∷ as') ≡ ok (some xs, as')
unfolding xread
xread-got [] as' l = absurd (ground arith)
xread-got (x ∷ xs) as' l = refl

pub drop-length : (xs : Bytes) → drop (length xs) xs ≡ []
drop-length [] = refl
drop-length (x ∷ xs) = drop-length xs

module _ {W : Type 0} where
  -- Data arrives, and the machine eats some of it or nothing.
  oper_busy-takes :
      (libc : Libc) (b : Backend W) (s : Sc W) {ys xs : Bytes} {as' : List ReadAnswer} {r : ℕ}
      {f : Fsm W} {w : W}
      → Filled s.readbuf ys
      → xread s.system.reads ≡ ok (some xs, as')
      → 0 < length xs
      → length ys + length xs ≤ s.readbuf.size
      → is_init s.curfsm ≡ false
      → fsm_feed (current s) (input (ys ++ xs)) s.back ≡ ok (r, f, w)
      → r ≤ length (ys ++ xs)
      → fsm_error f ≡ false
      → (code : ℕ) × (rb : Buf) × (oper_busy libc b s
          ≡ ok (
            code,
            record (put s.curfsm f w (with_reads as' s)) { nodataflag = false; readbuf = rb },
          ))
        × Filled rb (drop r (ys ++ xs))
        × (rb.size ≡ s.readbuf.size)
  oper_busy-takes libc b s {ys} {xs} {as'} {r} {f} {w} h p l l' i e z d = elim (ℕ_discrete r 0) [
    | yes r0 ↦
        let (b1, q, g, e1) = read_more-got libc s h p l l' in
        let s1 : Sc W = record (with_reads as' s) { readbuf = b1 } in
        let (u, v) = input-Filled g in
        let e' : fsm_feed (current s1) (input (ys ++ xs)) s1.back ≡ ok (0, f, w) =
          e ∙ ap (λ n. ok (n, f, w)) r0 in
        (
          0,
          b1,
          oper_busy-eats libc b s q (omega arith) ∙ eat_none_steps b s1 u v e',
          subst (Filled b1) (ap (λ n. drop n (ys ++ xs)) (sym r0)) g,
          e1,
        )
    | no r1 ↦
        let (rb, q, g, e1) = oper_busy-feeds libc b s h p l l' i e (omega arith) z d in
        (1, rb, q, g, e1)
  ]

  -- What was made of two pieces was made of the first and then of its rest with the second.
  feed-split :
      {limit : ℕ} (f : Fsm W) (xs ys : Bytes) (w : W) {g : Fsm W} {w' : W}
      → IsTokenizer limit f.f_mktok
      → length xs + length ys ≤ limit
      → fsm_error g ≡ false
      → fsm_feed f (input (xs ++ ys)) w ≡ ok (length (xs ++ ys), g, w')
      → (r : ℕ) × (f1 : Fsm W) × (w1 : W) × (fsm_feed f (input xs) w ≡ ok (r, f1, w1))
        × (r ≤ length xs)
        × (fsm_error f1 ≡ false)
        × IsTokenizer limit f1.f_mktok
        × (fsm_feed f1 (input (drop r xs ++ ys)) w1 ≡ ok (length (drop r xs ++ ys), g, w'))
  unfolding fsm_error
  feed-split {limit} f xs ys w {g} {w'} l y ne e =
      let e' : (fsm_feed f (input xs) w >>= feed_next xs ys) ≡ ok (length (xs ++ ys), g, w') =
        sym (fsm_feed-append f xs ys w l y) ∙ e in
      elim (Outcome-cases (fsm_feed f (input xs) w)) [
        | inl ((r, f1, w1), p) ↦
            let (hi, same) = feed_count f xs w l (omega arith) p in
            let q : feed_next xs ys (r, f1, w1) ≡ ok (length (xs ++ ys), g, w') =
              sym (ap (λ z. z >>= feed_next xs ys) p) ∙ e' in
            second r f1 w1 p hi (same-IsTokenizer f same l) q
              (Outcome-cases (fsm_feed f1 (input (drop r xs ++ ys)) w1))
        | inr (x, p) ↦ absurd (not_fault x (sym (ap (λ z. z >>= feed_next xs ys) p) ∙ e'))
      ]
    where
      not_fault :
          (x : Fault) {v : ℕ × Fsm W × W} → ◌≢◌ {A = Outcome (ℕ × Fsm W × W)} (fault x) (ok v)
      not_fault x h = cc h

      second :
          (r : ℕ) (f1 : Fsm W) (w1 : W)
          → fsm_feed f (input xs) w ≡ ok (r, f1, w1)
          → r ≤ length xs
          → IsTokenizer limit f1.f_mktok
          → feed_next xs ys (r, f1, w1) ≡ ok (length (xs ++ ys), g, w')
          → ((v : ℕ × Fsm W × W) × (fsm_feed f1 (input (drop r xs ++ ys)) w1 ≡ ok v))
            ⊎ ((x : Fault) × (fsm_feed f1 (input (drop r xs ++ ys)) w1 ≡ fault x))
          → (r : ℕ) × (f1 : Fsm W) × (w1 : W) × (fsm_feed f (input xs) w ≡ ok (r, f1, w1))
            × (r ≤ length xs)
            × (fsm_error f1 ≡ false)
            × IsTokenizer limit f1.f_mktok
            × (fsm_feed f1 (input (drop r xs ++ ys)) w1 ≡ ok (length (drop r xs ++ ys), g, w'))
      second r f1 w1 p hi l1 q (inr (x, k)) = absurd (not_fault x (rw k at q))
      second r f1 w1 p hi l1 q (inl ((n, g', v), k)) =
          let (n_eq, g_eq, v_eq) = ok-inj (rw k at q) in
          let len : length (drop r xs ++ ys) ≡ n =
            omega (arith, length-append xs ys, length-append (drop r xs) ys, length-drop r xs) in
          let done : fsm_feed f1 (input (drop r xs ++ ys)) w1
              ≡ ok (length (drop r xs ++ ys), g, w') =
            k
            ∙ ap (λ m. ok (m, g', v)) (sym len)
            ∙ ap (λ h. ok (length (drop r xs ++ ys), h, v)) g_eq
            ∙ ap (λ u. ok (length (drop r xs ++ ys), g, u)) v_eq in
          (r, f1, w1, p, hi, running f1 w1 (drop r xs ++ ys) done, l1, done)
        where
          running :
              (h : Fsm W) (u : W) (zs : Bytes) {m : ℕ}
              → fsm_feed h (input zs) u ≡ ok (m, g, w')
              → (h.curst == h.errst) ≡ false
          running h u zs e1 = elim (Bool-cases (h.curst == h.errst)) [
            | inl t ↦
                let (_, same, _) = ok-inj (sym (feed_error h zs u t) ∙ e1) in
                absurd (clash (sym t ∙ ap (λ j. j.curst == j.errst) same ∙ ne))
            | inr t ↦ t
          ]
            where
              clash : true ≢ false
              clash c = ground arith

  put-put :
      (c : Machine) (s : Sc W) (f g : Fsm W) (w w' : W) (as' bs : List ReadAnswer) (rb rb' : Buf)
      → record (put c g w' (
          with_reads bs
            (record (put c f w (with_reads as' s)) { nodataflag = false; readbuf = rb }))) {
              nodataflag = false;
              readbuf = rb';
            }
        ≡ record (put c g w' (with_reads bs s)) { nodataflag = false; readbuf = rb' }
  put-put init s f g w w' as' bs rb rb' = refl
  put-put cmdout s f g w w' as' bs rb rb' = refl
  put-put inchar s f g w w' as' bs rb rb' = refl

  module _ (libc : Libc) (b : Backend W) where
    -- the state behind the reading
    abbrev pub fed : Fsm W → W → List ReadAnswer → Buf → Sc W → Sc W
    fed f w as' rb s = record (put s.curfsm f w (with_reads as' s)) {
      nodataflag = false;
      readbuf = rb;
    }

    current-fed :
        (f : Fsm W) (w : W) (as' : List ReadAnswer) (rb : Buf) (s : Sc W)
        → current (fed f w as' rb s) ≡ f
    current-fed f w as' rb s = pick_same s.curfsm f s.fsm_init s.fsm_cmdout s.fsm_inchar

    one_piece :
        (p : Bytes) (s : Sc W) {u : Bytes} {as' : List ReadAnswer} {r : ℕ} {f : Fsm W} {w : W}
        → s.state ≡ busy
        → Filled s.readbuf u
        → s.system.reads ≡ got p ∷ as'
        → 0 < length p
        → length u + length p ≤ s.readbuf.size
        → is_init s.curfsm ≡ false
        → fsm_feed (current s) (input (u ++ p)) s.back ≡ ok (r, f, w)
        → r ≤ length (u ++ p)
        → fsm_error f ≡ false
        → (rb : Buf) × Works libc b s (fed f w as' rb s)
          × Filled rb (drop r (u ++ p))
          × (rb.size ≡ s.readbuf.size)
    one_piece p s {u} {as'} k h e l room i q hi ne =
        let (code, rb, t, g, z) =
          oper_busy-takes libc b s h (ap xread e ∙ xread-got p as' l) l room i q hi ne in
        (rb, Works-step libc b s (busy_busy libc b s k) (operate_busy libc b s k ∙ t), g, z)

    -- All the pieces are eaten.
    pub reading-pieces :
        {limit : ℕ} (p : Bytes) (ps : List Bytes) (s : Sc W) {u : Bytes} {todo : List ReadAnswer}
        {g : Fsm W} {w' : W}
        → s.state ≡ busy
        → Filled s.readbuf u
        → s.system.reads ≡ gots (p ∷ ps) todo
        → AllSome (p ∷ ps)
        → length u + length (flat (p ∷ ps)) ≤ s.readbuf.size
        → is_init s.curfsm ≡ false
        → IsTokenizer limit (current s).f_mktok
        → length u + length (flat (p ∷ ps)) ≤ limit
        → fsm_feed (current s) (input (u ++ flat (p ∷ ps))) s.back
          ≡ ok (length (u ++ flat (p ∷ ps)), g, w')
        → fsm_error g ≡ false
        → (rb : Buf) × Works libc b s (fed g w' todo rb s)
          × Filled rb []
          × (rb.size ≡ s.readbuf.size)
    reading-pieces p [] s {u} {todo} {g} {w'} k h e (l, _) room i tk y q ne =
        let z : flat (p ∷ []) ≡ p = append-nil p in
        let q' : fsm_feed (current s) (input (u ++ p)) s.back ≡ ok (length (u ++ p), g, w') =
          rw z at q in
        let (rb, t, f, n) =
          one_piece p s k h e l (omega (arith, ap length z)) i q' (omega arith) ne in
        (rb, t, subst (Filled rb) (drop-length (u ++ p)) f, n)
    reading-pieces {limit} p (p' ∷ ps) s {u} {todo} {g} {w'} k h e (l, ls) room i tk y q ne =
        let ys : Bytes = flat (p' ∷ ps) in
        let asc : (u ++ p) ++ ys ≡ u ++ (p ++ ys) = append_assoc u p ys in
        let q' : fsm_feed (current s) (input ((u ++ p) ++ ys)) s.back
            ≡ ok (length ((u ++ p) ++ ys), g, w') =
          rw (sym asc) at q in
        let (r, f1, w1, a, hi, ne1, tk1, c) =
          feed-split (current s) (u ++ p) ys s.back tk
            (omega (arith, length-append u p, length-append p ys)) ne q' in
        let (rb, t, f, n) = one_piece p s k h e l (omega (arith, length-append p ys)) i a hi ne1 in
        let s1 : Sc W = fed f1 w1 (gots (p' ∷ ps) todo) rb s in
        let cur : current s1 ≡ f1 = current-fed f1 w1 (gots (p' ∷ ps) todo) rb s in
        let (rb', t', f', n') =
          reading-pieces p' ps s1 {u = drop r (u ++ p)} {todo = todo} {g = g} {w' = w'} k f refl ls
            (omega (arith, n, length-drop r (u ++ p), length-append u p, length-append p ys)) i
            (subst (λ (m : Fsm W). IsTokenizer limit m.f_mktok) (sym cur) tk1)
            (omega (arith, length-drop r (u ++ p), length-append u p, length-append p ys))
            (ap (λ m. fsm_feed m (input (drop r (u ++ p) ++ ys)) w1) cur ∙ c) ne in
        (
          rb',
          Works-append libc b t
              (works_eq (put-put s.curfsm s f1 g w1 w' (gots (p' ∷ ps) todo) todo rb rb') t'),
          f',
          n' ∙ n,
        )
      where
        works_eq : {s0 s2 s3 : Sc W} → s2 ≡ s3 → Works libc b s0 s2 → Works libc b s0 s3
        works_eq {s0} e0 v = subst (Works libc b s0) e0 v
