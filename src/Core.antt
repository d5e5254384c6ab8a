-- ===== src/Core.antt =====
-- src/core.c: the inner loop of `core_run`, which lets the conversation with the switch proceed.
pub mod Run
pub mod Turn
pub mod Session
use swh.Base.{
  arith, ℕ, zero, suc, ◌+◌, ◌≡◌, refl, ap, ◌∙◌, true, false, not, ◌&&◌, if◌then◌else◌, Outcome, ok,
  fault, critical, operate_ready, operate_offline, starved, ◌>>=◌,
}
use swh.Common.{Libc}
use swh.Back.{Backend}
use swh.Sc.State.{busy, writing, is_ready, is_offline, Sc, sc_ready, sc_offline, sc_busy}
use swh.Sc.Operate.{by_state, oper_busy, oper_writing, sc_operate}

module _ {W : Type 0} (libc : Libc) (b : Backend W) where
  -- `while (sc_busy()) if (!sc_operate()) selectfd(sc_getfd(), true);`
  unfoldable pub while_busy : ℕ → Sc W → Outcome (Sc W)
  unfolding sc_busy sc_operate
  while_busy zero s = fault starved
  while_busy (suc fuel) s =
      let more = sc_operate libc b s >>= λ (r, s'). while_busy fuel s' in
      if sc_busy s then more else ok s

  more_fuel : (s : Sc W) (m n : ℕ) → m ≡ n → while_busy m s ≡ while_busy n s
  more_fuel s m n e = ap (λ k. while_busy k s) e

  -- a number of rounds of the loop
  pub record Works (s s' : Sc W) : Type 0 where
    pub rounds : ℕ
    pub works : (k : ℕ) → while_busy (rounds + k) s ≡ while_busy k s'

  pub Works-step :
      (s : Sc W) {r : ℕ} {s' : Sc W}
      → sc_busy s ≡ true
      → sc_operate libc b s ≡ ok (r, s')
      → Works s s'
  unfolding while_busy
  Works-step s {r} {s'} t p = record {
    rounds = 1;
    works = λ k. more_fuel s _ (suc k) (omega arith) ∙ rw (t, p) refl;
  }

  pub Works-nil : (s : Sc W) → Works s s
  Works-nil s = record { rounds = 0; works = λ k. more_fuel s _ k (omega arith) }

  -- The loop ends where the state is not BUSY or WRITING.
  pub Works-ends :
      {s s' : Sc W} → Works s s' → sc_busy s' ≡ false → (n : ℕ) × (while_busy n s ≡ ok s')
  unfolding while_busy
  Works-ends {s} {s'} r e = (r.rounds + 1, r.works 1 ∙ rw e refl)

  pub Works-append : {s s1 s2 : Sc W} → Works s s1 → Works s1 s2 → Works s s2
  Works-append {s} {s1} p q = record {
    rounds = p.rounds + q.rounds;
    works = λ k.
        more_fuel s _ (p.rounds + (q.rounds + k)) (omega arith)
        ∙ p.works (q.rounds + k)
        ∙ q.works k;
  }

  pub operate_writing : (s : Sc W) → s.state ≡ writing → sc_operate libc b s ≡ oper_writing s
  unfolding sc_operate
  operate_writing s e =
      ap
        (λ p.
          by_state p (oper_busy libc b s) (fault (critical operate_ready)) (oper_writing s)
            (fault (critical operate_offline)))
        e

  pub operate_busy : (s : Sc W) → s.state ≡ busy → sc_operate libc b s ≡ oper_busy libc b s
  unfolding sc_operate
  operate_busy s e =
      ap
        (λ p.
          by_state p (oper_busy libc b s) (fault (critical operate_ready)) (oper_writing s)
            (fault (critical operate_offline)))
        e

  pub busy_writing : (s : Sc W) → s.state ≡ writing → sc_busy s ≡ true
  unfolding sc_busy sc_ready sc_offline
  busy_writing s e = ap (λ p. not (is_ready p) && not (is_offline p)) e

  pub busy_busy : (s : Sc W) → s.state ≡ busy → sc_busy s ≡ true
  unfolding sc_busy sc_ready sc_offline
  busy_busy s e = ap (λ p. not (is_ready p) && not (is_offline p)) e
