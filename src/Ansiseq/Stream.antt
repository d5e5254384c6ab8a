-- ===== src/Ansiseq/Stream.antt =====
-- How `ansiseq_eatone` reads a stream: what it eats, and what it looks at.
use swh.Base.{
  ℕ, ◌+◌, pos, negsuc, int_max, int_of_size, int_of_size-small, int_of_size_pos, pos-inj, ensured,
  ◌≢◌, ◌⊎◌, ◌≤◌, ◌<◌, ◌≡◌, refl, ◌∙◌, ap, false, some, [], ◌∷◌, ◌++◌, append_assoc, drop,
  take-append-drop, sym, Fault, fault, length, take, take-length_append, length-append, arith, inl,
  inr, Bool-cases, if◌then◌else◌, ok, Outcome-cases, ◌>>=◌,
}
use swh.Memory.{Bytes}
use swh.Ansiseq.Data.{Statics, State, sta, fin}
use swh.Ansiseq.Actions.{act_begin}
use swh.Ansiseq.Steps.{is_fin→fin, ne_fin, step-sta_ne_fin}
use swh.Ansiseq.Eat.{step, eat, is_fin, finish, Eaten, ansiseq_eatone}

-- The loop over two pieces of input is the loop over the first, and then, unless it has stopped,
-- over the second.
pub eat-append :
    (xs ys : Bytes) (st : State) (s : Statics) (i : ℕ)
    → is_fin st ≡ false
    → eat st s i (xs ++ ys)
      ≡ (eat st s i xs >>= λ r. (if is_fin r.0 then ok r else eat r.0 r.1 r.2 ys))
unfolding eat
eat-append [] ys st s i h = rw h
eat-append (c ∷ xs) ys st s i h = elim (Outcome-cases (step st c s)) [
  | inl ((st', s'), e) ↦ rw e (elim (Bool-cases (is_fin st')) [
    | inl f ↦ rw f (unfold is_fin in refl)
    | inr f ↦ rw f (eat-append xs ys st' s' (i + 1) f)
  ])
  | inr (w, e) ↦ rw e
]

-- Where the loop stops by its `break`: behind a first piece of the input that is not empty.
record Stopped (st : State) (s : Statics) (i : ℕ) (xs : Bytes) (s' : Statics) (n : ℕ) : Type 0 where
  used : Bytes
  unread : Bytes
  splits : xs ≡ used ++ unread
  count : n ≡ i + length used
  nonempty : 0 < length used
  eats : eat st s i used ≡ ok (fin, s', n)

Stopped-last :
    {st : State} {s s' : Statics} (i : ℕ) (c : ℕ) (xs : Bytes)
    → step st c s ≡ ok (fin, s')
    → Stopped st s i (c ∷ xs) s' (i + 1)
unfolding eat is_fin
Stopped-last i c xs e = record {
  used = c ∷ [];
  unread = xs;
  splits = refl;
  count = omega arith;
  nonempty = omega arith;
  eats = rw e;
}

Stopped-cons :
    {st st' : State} {s t s' : Statics} {i n : ℕ} (c : ℕ) {xs : Bytes}
    → step st c s ≡ ok (st', t)
    → is_fin st' ≡ false
    → Stopped st' t (i + 1) xs s' n
    → Stopped st s i (c ∷ xs) s' n
unfolding eat
Stopped-cons c e f r = record {
  used = c ∷ r.used;
  unread = r.unread;
  splits = ap (◌∷◌ c) r.splits;
  count = omega (arith, r.count);
  nonempty = omega arith;
  eats = rw (e, f) r.eats;
}

eat-Stopped :
    (xs : Bytes) (st : State) (s : Statics) (i : ℕ) {s' : Statics} {n : ℕ}
    → is_fin st ≡ false
    → eat st s i xs ≡ ok (fin, s', n)
    → Stopped st s i xs s' n
unfolding eat
eat-Stopped [] st s i h e = absurd (ne_fin st h (ground arith))
eat-Stopped (c ∷ xs) st s i {s'} {n} h e = elim (Outcome-cases (step st c s)) [
  | inl ((st', t), p) ↦ elim (Bool-cases (is_fin st')) [
    | inl f ↦ ground (arith, is_fin→fin st' f, Stopped-last {st = st} {s = s} {s' = t} i c xs)
    | inr f ↦ Stopped-cons c p f (eat-Stopped xs st' t (i + 1) f (rw (p, f) at e))
  ]
  | inr (w, p) ↦ cc (rw p at e)
]

two_at_least :
    (used : Bytes) (s : Statics) {s' : Statics} {n : ℕ}
    → eat sta s 0 used ≡ ok (fin, s', n)
    → 2 ≤ length used
unfolding eat
two_at_least [] s e = cc
two_at_least (c ∷ []) s {s'} e = elim (Outcome-cases (step sta c s)) [
  | inl ((st, t), p) ↦ elim (Bool-cases (is_fin st)) [
    | inl f ↦ absurd (step-sta_ne_fin c s t (rw (is_fin→fin st f) at p))
    | inr f ↦ absurd (ne_fin st f (unfold eat in cc (rw (p, f) at e)))
  ]
  | inr (w, p) ↦ cc (rw p at e)
]
two_at_least (c ∷ d ∷ used) s e = omega arith

Stopped-length :
    {st : State} {s s' : Statics} {xs : Bytes} {n : ℕ} → Stopped st s 0 xs s' n → n ≤ length xs
Stopped-length r = omega (arith, r.count, length-append r.used r.unread, ap length r.splits)

-- What a call returns: -1, and the loop has read all, or the number of bytes that the loop has read,
-- as an `int`.
data Result (s : Statics) (input : Bytes) (e : Eaten) : Type 0 where
  whole :
      (s' : Statics) (n : ℕ)
      → eat sta s 0 input ≡ ok (fin, s', n)
      → e ≡ record { consumed = int_of_size n; dst = some s'.curseq; statics = s' }
      → Result s input e
  unfinished : e.consumed ≡ negsuc 0 → Result s input e

finish_fin :
    (s' : Statics) (n : ℕ)
    → finish (fin, s', n) ≡ record { consumed = int_of_size n; dst = some s'.curseq; statics = s' }
unfolding finish
finish_fin s' n = refl

finish_other :
    (st : State) (s' : Statics) (n : ℕ) → st ≢ fin → (finish (st, s', n)).consumed ≡ negsuc 0
unfolding finish
finish_other st s' n h = ground arith

Result-finish :
    (s : Statics) (input : Bytes) {e : Eaten} (st : State) (t : Statics) (k : ℕ)
    → eat sta s 0 input ≡ ok (st, t, k)
    → finish (st, t, k) ≡ e
    → Result s input e
Result-finish s input st t k r q = elim (Bool-cases (is_fin st)) [
  | inl f ↦
      let h = is_fin→fin st f in
      whole t k (r ∙ ap (λ z. ok (z, t, k)) h)
        (sym q ∙ ap (λ z. finish (z, t, k)) h ∙ finish_fin t k)
  | inr f ↦ unfinished (ap (λ (z : Eaten). z.consumed) (sym q) ∙ finish_other st t k (ne_fin st f))
]

Result-cases :
    (s : Statics) (input : Bytes) {e : Eaten} → ansiseq_eatone s input ≡ ok e → Result s input e
unfolding ansiseq_eatone
Result-cases s input {e} p = elim (Outcome-cases (eat sta s 0 input)) [
  | inl ((st, t, k), r) ↦
      Result-finish s input st t k r (ensured (λ z. finish (st, t, k) ≡ z) _ refl (rw r at p))
  | inr (w, r) ↦ cc (rw r at p)
]

-- The number of bytes that a call returns fits an `int`.
pub consumed_small :
    (s : Statics) (input : Bytes) {e : Eaten} {n : ℕ}
    → ansiseq_eatone s input ≡ ok e
    → e.consumed ≡ pos n
    → n ≤ int_max
consumed_small s input {e} {n} p q = elim (Result-cases s input p) [
  | whole s' k l m ↦ int_of_size_pos k n (ap (λ (z : Eaten). z.consumed) (sym m) ∙ q)
  | unfinished c ↦ cc (c, q)
]

-- On input whose length fits an `int`, a call returns -1 or the number of bytes that the loop has read.
pub consumed-cases :
    (s : Statics) (input : Bytes) {e : Eaten}
    → ansiseq_eatone s input ≡ ok e
    → length input ≤ int_max
    → ((n : ℕ) × (e.consumed ≡ pos n)) ⊎ (e.consumed ≡ negsuc 0)
consumed-cases s input {e} p h = elim (Result-cases s input p) [
  | whole s' k l m ↦
      let r = eat-Stopped input sta s 0 (unfold is_fin in refl) l in
      inl (
        k,
        ap (λ (z : Eaten). z.consumed) m ∙ int_of_size-small k (omega (arith, Stopped-length r)),
      )
  | unfinished c ↦ inr c
]

eatone-eat :
    (s : Statics) (input : Bytes) {e : Eaten} {n : ℕ}
    → ansiseq_eatone s input ≡ ok e
    → length input ≤ int_max
    → e.consumed ≡ pos n
    → (s' : Statics) × (eat sta s 0 input ≡ ok (fin, s', n)) × (finish (fin, s', n) ≡ e)
eatone-eat s input {e} {n} p h q = elim (Result-cases s input p) [
  | whole s' k l m ↦
      let r = eat-Stopped input sta s 0 (unfold is_fin in refl) l in
      let small : int_of_size k ≡ pos k = int_of_size-small k (omega (arith, Stopped-length r)) in
      let same : k ≡ n = pos-inj (sym small ∙ ap (λ (z : Eaten). z.consumed) (sym m) ∙ q) in
      (
        s',
        l ∙ ap (λ z. ok (fin, s', z)) same,
        ap (λ z. finish (fin, s', z)) (sym same) ∙ finish_fin s' k ∙ sym m,
      )
  | unfinished c ↦ cc (c, q)
]

take-used :
    {xs : Bytes} (used unread : Bytes) (n : ℕ)
    → xs ≡ used ++ unread
    → n ≡ length used
    → take n xs ≡ used
take-used used unread n e l = rw (e, l) (take-length_append used unread)

eat-used :
    (s : Statics) {s' : Statics} (used behind : Bytes) {n : ℕ}
    → eat sta s 0 used ≡ ok (fin, s', n)
    → eat sta s 0 (used ++ behind) ≡ ok (fin, s', n)
unfolding is_fin
eat-used s used behind e = rw (eat-append used behind sta s 0 refl, e) refl

-- When ansiseq_eatone eats a sequence, of an input of at most INT_MAX bytes, it has eaten at
-- least two bytes and not more than there are, and it gives the same result on those bytes
-- followed by anything else: it does not depend on what stands behind the sequence.
pub eatone_prefix :
    (s : Statics) (input behind : Bytes) {e : Eaten} {n : ℕ}
    → ansiseq_eatone s input ≡ ok e
    → length input ≤ int_max
    → e.consumed ≡ pos n
    → (2 ≤ n) × (n ≤ length input) × (ansiseq_eatone s (take n input ++ behind) ≡ ok e)
unfolding ansiseq_eatone
eatone_prefix s input behind {e} {n} p h q =
    let (s', l, m) = eatone-eat s input p h q in
    let r = eat-Stopped input sta s 0 (unfold is_fin in refl) l in
    (
      omega (arith, two_at_least r.used s r.eats, r.count),
      omega (arith, r.count, length-append r.used r.unread, ap length r.splits),
      rw
          (
            take-used r.used r.unread n r.splits (omega (arith, r.count)),
            eat-used s r.used behind r.eats,
          )
          (ap ok m),
    )

-- On input that begins with ESC, ansiseq_eatone gives the same from any two states of its
-- variables that agree on the prototype: what an earlier, possibly unfinished call has left
-- behind plays no part.
pub eatone_forgets :
    (s t : Statics) (cs : Bytes)
    → s.protoseq ≡ t.protoseq
    → ansiseq_eatone s (0o33 ∷ cs) ≡ ansiseq_eatone t (0o33 ∷ cs)
unfolding ansiseq_eatone act_begin
eatone_forgets s t cs h = rw h refl

-- Input behind what makes ansiseq_eatone fail plays no part.
pub eatone_fails :
    (s : Statics) (xs ys : Bytes) {e : Fault}
    → ansiseq_eatone s xs ≡ fault e
    → ansiseq_eatone s (xs ++ ys) ≡ fault e
unfolding ansiseq_eatone
eatone_fails s xs ys {e} h = elim (Outcome-cases (eat sta s 0 xs)) [
  | inl (r, p) ↦ cc (rw p at h)
  | inr (w, p) ↦ rw (eat-append xs ys sta s 0 (unfold is_fin in refl), p) (rw p at h)
]

-- What is eaten is eaten in the same way whatever stands behind the whole input.
pub eatone-append :
    (s : Statics) (xs ys : Bytes) {e : Eaten} {n : ℕ}
    → ansiseq_eatone s xs ≡ ok e
    → length xs ≤ int_max
    → e.consumed ≡ pos n
    → (2 ≤ n) × (n ≤ length xs) × (ansiseq_eatone s (xs ++ ys) ≡ ok e)
eatone-append s xs ys {e} {n} p h q =
    let (lo, hi, r) = eatone_prefix s xs (drop n xs ++ ys) p h q in
    (
      lo,
      hi,
      ap (ansiseq_eatone s) (
            ap (λ z. z ++ ys) (sym (take-append-drop n xs))
            ∙ append_assoc (take n xs) (drop n xs) ys)
          ∙ r,
    )
