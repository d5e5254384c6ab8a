-- ===== src/Fsm/Runs.antt =====
-- Rounds of `fsm_feed` put together: a machine that eats all of a piece of input, whatever stands
-- behind the piece.
use swh.Base.{
  ℕ, suc, ◌+◌, ◌-◌, ◌≤◌, ◌≡◌, refl, sym, ap, ◌∙◌, false, some, [], ◌∷◌, ◌++◌, append_assoc,
  append-nil, length, length-append, drop-length_append, arith, ◌==◌, ok,
}
use swh.Memory.{Bytes, load}
use swh.Fsm.{byte, Trans, Fsm, ind, feed_from, fsm_feed, input}

pub record Runs {W : Type 0} (f : Fsm W) (w : W) (xs : Bytes) (g : Fsm W) (w' : W) : Type 0 where
  pub rounds : ℕ
  pub few : rounds ≤ length xs
  pub runs :
      (n i : ℕ) (rest : Bytes)
      → feed_from (rounds + n) f i (xs ++ rest) w ≡ feed_from n g (i + length xs) rest w'

module _ {W : Type 0} where
  fuel :
      (f : Fsm W) (w : W) (xs : Bytes) (i m n : ℕ)
      → m ≡ n
      → feed_from m f i xs w ≡ feed_from n f i xs w
  fuel f w xs i m n e = ap (λ k. feed_from k f i xs w) e

  count :
      (f : Fsm W) (w : W) (xs : Bytes) (n : ℕ) {i j : ℕ}
      → i ≡ j
      → feed_from n f i xs w ≡ feed_from n f j xs w
  count f w xs n e = ap (λ k. feed_from n f k xs w) e

  pub Runs-nil : (f : Fsm W) (w : W) → Runs f w [] f w
  Runs-nil f w = record {
    rounds = 0;
    few = omega arith;
    runs = λ n i rest. fuel f w rest i _ n (omega arith) ∙ count f w rest n (omega arith);
  }

  pub Runs-append :
      {f g h : Fsm W} {w w1 w2 : W} {xs ys : Bytes}
      → Runs f w xs g w1
      → Runs g w1 ys h w2
      → Runs f w (xs ++ ys) h w2
  Runs-append {f} {g} {h} {w} {w1} {w2} {xs} {ys} r s = record {
    rounds = r.rounds + s.rounds;
    few = omega (arith, r.few, s.few, length-append xs ys);
    runs = λ n i rest.
        fuel f w ((xs ++ ys) ++ rest) i _ (r.rounds + (s.rounds + n)) (omega arith)
        ∙ ap (λ z. feed_from (r.rounds + (s.rounds + n)) f i z w) (append_assoc xs ys rest)
        ∙ r.runs (s.rounds + n) i (ys ++ rest)
        ∙ s.runs n (i + length xs) rest
        ∙ count h w2 rest n (omega (arith, length-append xs ys));
  }

  -- One token, read from the input that begins with it.
  pub Runs-token :
      (f : Fsm W) (w : W) (c : ℕ) (cs : Bytes) {t : ℕ} {tr : Trans W} {w1 w2 : W}
      → ((more : Bytes)
          → f.f_mktok (some (c ∷ (cs ++ more))) 1 w ≡ ok (some t, suc (length cs), w1))
      → load f.delta (ind f f.curst t) ≡ ok tr
      → tr.action (byte c) w1 ≡ ok w2
      → (tr.state == f.errst) ≡ false
      → Runs f w (c ∷ cs) (record f { curst = tr.state }) w2
  unfolding feed_from
  Runs-token f w c cs {t} {tr} {w1} {w2} p q a e = record {
    rounds = 1;
    few = omega arith;
    runs = λ n i rest.
        fuel f w (c ∷ (cs ++ rest)) i _ (suc n) (omega arith)
        ∙ rw (p rest, q, a, e, drop-length_append cs rest) refl;
  }

  -- A machine that is fed such a piece eats it to its end.
  pub feed-Runs :
      {f g : Fsm W} {w w' : W} {xs : Bytes}
      → (f.curst == f.errst) ≡ false
      → Runs f w xs g w'
      → fsm_feed f (input xs) w ≡ ok (length xs, g, w')
  unfolding fsm_feed
  feed-Runs {f} {g} {w} {w'} {xs} e r = rw e (
      fuel f w xs 0 _ (r.rounds + suc (length xs - r.rounds)) (omega (arith, r.few))
      ∙ ap (λ z. feed_from (r.rounds + suc (length xs - r.rounds)) f 0 z w) (sym (append-nil xs))
      ∙ r.runs (suc (length xs - r.rounds)) 0 []
      ∙ count g w' [] (suc (length xs - r.rounds)) (omega arith))
