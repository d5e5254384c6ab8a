-- ===== src/Ansiseq/Escape.antt =====
-- Whole escape sequences: what `ansiseq_eatone` eats to the last byte.
use swh.Base.{
  ℕ, pos, ◌+◌, ◌≡◌, ◌≢◌, refl, ap, ◌∙◌, inl, inr, [], ◌∷◌, ◌++◌, length, take, arith, Bool-cases,
  ok, Outcome-cases, bind-eq-ok, ◌>>=◌,
}
use native.Mathlib.Decide.{dec_lt, ℕ_discrete}
use swh.Memory.{Bytes}
use swh.Ansiseq.Data.{Statics, start, State, Action, sta, err}
use swh.Ansiseq.Actions.{run_action}
use swh.Ansiseq.Steps.{step-sta, step-high}
use swh.Ansiseq.Eat.{step, eat, arrive, is_fin, finish, Eaten, ansiseq_eatone}
use swh.Ansiseq.Table.{mktok, delta}
use swh.Ansiseq.Stream.{consumed_small, eatone_prefix, eatone_forgets}

-- `e` is an escape sequence that fits the machine.
pub record IsEscape (e : Bytes) : Type 0 where
  pub eaten : Eaten
  pub eats : ansiseq_eatone start e ≡ ok eaten
  pub whole : eaten.consumed ≡ pos (length e)

-- No action writes the prototype.
run_action-protoseq :
    (a : Action) (c : ℕ) (s : Statics) {s' : Statics}
    → run_action a c s ≡ ok s'
    → s'.protoseq ≡ s.protoseq
unfolding run_action
run_action-protoseq _ c s h = ground arith

step-protoseq :
    (st : State) (c : ℕ) (s : Statics) {st' : State} {s' : Statics}
    → step st c s ≡ ok (st', s')
    → s'.protoseq ≡ s.protoseq
unfolding step
step-protoseq st c s {st'} {s'} h =
    let (t, _, h1) =
      bind-eq-ok (mktok c) (λ t. delta st t >>= λ tr. run_action tr.1 c s >>= arrive tr.0) h in
    let (tr, _, h2) = bind-eq-ok (delta st t) (λ tr. run_action tr.1 c s >>= arrive tr.0) h1 in
    let (s1, p, h3) = bind-eq-ok (run_action tr.1 c s) (arrive tr.0) h2 in
    arrive-eq tr.0 s1 h3 ∙ run_action-protoseq tr.1 c s p
  where
    arrive-eq : (u : State) (v : Statics) → arrive u v ≡ ok (st', s') → s'.protoseq ≡ v.protoseq
    arrive-eq err v e = cc
    arrive-eq _ v e = ground arith

eat-protoseq :
    (xs : Bytes) (st : State) (s : Statics) (i : ℕ) {r : State × Statics × ℕ}
    → eat st s i xs ≡ ok r
    → r.1.protoseq ≡ s.protoseq
unfolding eat
eat-protoseq [] st s i h = ground arith
eat-protoseq (c ∷ xs) st s i h = elim (Outcome-cases (step st c s)) [
  | inl ((st', s'), p) ↦ elim (Bool-cases (is_fin st')) [
    | inl f ↦ ground (arith, step-protoseq st c s p)
    | inr f ↦ eat-protoseq xs st' s' (i + 1) (rw (p, f) at h) ∙ step-protoseq st c s p
  ]
  | inr (w, p) ↦ cc (rw p at h)
]

-- `ansiseq_eatone` leaves the prototype as it was.
pub eatone-protoseq :
    (s : Statics) (xs : Bytes) {e : Eaten}
    → ansiseq_eatone s xs ≡ ok e
    → e.statics.protoseq ≡ s.protoseq
unfolding ansiseq_eatone
eatone-protoseq s xs h =
    let (r, p, q) = bind-eq-ok (eat sta s 0 xs) (λ r. ok (finish r)) h in
    ground (arith, eat-protoseq xs sta s 0 p)

eat-sta_other :
    (c : ℕ) (cs : Bytes) (s : Statics) {e : Eaten} → c ≢ 0o33 → ansiseq_eatone s (c ∷ cs) ≢ ok e
unfolding ansiseq_eatone
eat-sta_other c cs s h p = elim (dec_lt 255 c) [
  | yes b ↦ cc (rw (step-high sta c s b) at p)
  | no b ↦ cc (rw (step-sta c s h (omega arith)) at p)
]

head-escape :
    (e : Bytes) {r : Eaten}
    → ansiseq_eatone start e ≡ ok r
    → r.consumed ≡ pos (length e)
    → (cs : Bytes) × (e ≡ 0o33 ∷ cs)
unfolding ansiseq_eatone
head-escape [] p q = absurd (ground arith)
head-escape (c ∷ cs) p q = elim (ℕ_discrete c 0o33) [
  | yes h ↦ (cs, ap (λ d. d ∷ cs) h)
  | no h ↦ absurd (eat-sta_other c cs start h p)
]

-- An escape sequence begins with ESC.
pub IsEscape-head : {e : Bytes} → IsEscape e → (cs : Bytes) × (e ≡ 0o33 ∷ cs)
IsEscape-head {e} h = head-escape e h.eats h.whole

take-all : (e : Bytes) → take (length e) e ≡ e
take-all [] = refl
take-all (c ∷ cs) = ap (◌∷◌ c) (take-all cs)

-- A text that ansiseq_eatone eats whole from the starting state of its variables is eaten whole,
-- with the same result, from any state of the variables with the same prototype, and whatever
-- stands behind it.
pub eatone-IsEscape :
    {e : Bytes} (h : IsEscape e) (s : Statics) (behind : Bytes)
    → s.protoseq ≡ start.protoseq
    → ansiseq_eatone s (e ++ behind) ≡ ok h.eaten
eatone-IsEscape {e} h s behind p =
    let (cs, q) = IsEscape-head h in
    forget cs q
    ∙ rw (take-all e) at
        (eatone_prefix start e behind h.eats (consumed_small start e h.eats h.whole) h.whole).2
  where
    forget :
        (cs : Bytes)
        → e ≡ 0o33 ∷ cs
        → ansiseq_eatone s (e ++ behind) ≡ ansiseq_eatone start (e ++ behind)
    forget cs q = rw q (eatone_forgets s start (cs ++ behind) p)
