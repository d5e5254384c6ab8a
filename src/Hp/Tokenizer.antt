-- ===== src/Hp/Tokenizer.antt =====
-- The tokenizer of src/back/hp/common_hp.c keeps what `fsm_feed` needs.
use swh.Base.{
  ℕ, zero, suc, ℤ, pos, negsuc, int_max, size_of_int, ◌≤◌, ◌<◌, ◌≡◌, ◌≢◌, refl, sym, ap, ◌∙◌, inl,
  inr, Bool, true, false, Option, none, some, ◌∷◌, ◌++◌, length, arith, critical, char_out_of_range,
  lt→ltb, le→not-ltb, ne→not-==, Outcome, ok, Fault, fault, Outcome-cases,
}
use native.Mathlib.Decide.{dec_lt, ℕ_discrete}
use swh.Memory.{Bytes}
use swh.Ansiseq.Eat.{Eaten, ansiseq_eatone}
use swh.Ansiseq.Stream.{consumed-cases, eatone-append, eatone_fails, eatone_forgets}
use swh.Ansiseq.Escape.{eatone-protoseq}
use swh.Fsm.Tokenizer.{IsTokenizer}
use swh.Ansiseq.Data.{Statics}
use swh.Hp.State.{Hp}
use swh.Hp.Tokens.{t_eseq, t_rest, eseq_tok, mktok}

-- The outcomes over `c ∷ cs`; a count that does not fit an `int` is odd.
data Token (c : ℕ) (cs : Bytes) (w : Hp) : Type 0 where
  high : 255 < c → Token c cs w
  text : c ≤ 255 → c ≢ 0o33 → Token c cs w
  escape :
      c ≡ 0o33
      → (e : Eaten) (n : ℕ) → ansiseq_eatone w.ansi (c ∷ cs) ≡ ok e
      → e.consumed ≡ pos n
      → Token c cs w
  odd :
      c ≡ 0o33
      → (e : Eaten) (n : ℕ) → ansiseq_eatone w.ansi (c ∷ cs) ≡ ok e
      → e.consumed ≡ negsuc (suc n)
      → Token c cs w
  part :
      c ≡ 0o33
      → (e : Eaten) → ansiseq_eatone w.ansi (c ∷ cs) ≡ ok e
      → e.consumed ≡ negsuc 0
      → Token c cs w
  broken : c ≡ 0o33 → (e : Fault) → ansiseq_eatone w.ansi (c ∷ cs) ≡ fault e → Token c cs w

Token-cases : (c : ℕ) (cs : Bytes) (w : Hp) → Token c cs w
Token-cases c cs w = elim (dec_lt 255 c) [
  | yes h ↦ high h
  | no h ↦ elim (ℕ_discrete c 0o33) [
    | yes p ↦ elim (Outcome-cases (ansiseq_eatone w.ansi (c ∷ cs))) [
      | inl (e, q) ↦ kind p e q (e.consumed) refl
      | inr (x, q) ↦ broken p x q
    ]
    | no p ↦ text (omega arith) p
  ]
]
  where
    kind :
        c ≡ 0o33
        → (e : Eaten) → ansiseq_eatone w.ansi (c ∷ cs) ≡ ok e
        → (o : ℤ) → e.consumed ≡ o
        → Token c cs w
    kind p e q (negsuc zero) r = part p e q r
    kind p e q (negsuc (suc n)) r = odd p e n q r
    kind p e q (pos n) r = escape p e n q r

tok-high :
    (c : ℕ) (cs : Bytes) (w : Hp)
    → 255 < c
    → mktok (some (c ∷ cs)) 1 w ≡ fault (critical char_out_of_range)
unfolding mktok
tok-high c cs w h = rw (lt→ltb 255 c h) refl

tok-text :
    (c : ℕ) (cs : Bytes) (w : Hp)
    → c ≤ 255
    → c ≢ 0o33
    → mktok (some (c ∷ cs)) 1 w ≡ ok (some t_rest, 1, w)
unfolding mktok
tok-text c cs w h n = rw (le→not-ltb 255 c h, ne→not-== c 0o33 n) refl

tok-escape :
    (c : ℕ) (cs : Bytes) (w : Hp) {e : Eaten} {n : ℕ}
    → c ≡ 0o33
    → ansiseq_eatone w.ansi (c ∷ cs) ≡ ok e
    → e.consumed ≡ pos n
    → mktok (some (c ∷ cs)) 1 w ≡ ok (some t_eseq, n, record w { ansi = e.statics })
unfolding mktok eseq_tok
tok-escape c cs w h p q = let p' = rw h at p in rw (h, p', q) refl

tok-odd :
    (c : ℕ) (cs : Bytes) (w : Hp) {e : Eaten} {n : ℕ}
    → c ≡ 0o33
    → ansiseq_eatone w.ansi (c ∷ cs) ≡ ok e
    → e.consumed ≡ negsuc (suc n)
    → mktok (some (c ∷ cs)) 1 w
      ≡ ok (some t_eseq, size_of_int (negsuc (suc n)), record w { ansi = e.statics })
unfolding mktok eseq_tok
tok-odd c cs w h p q = let p' = rw h at p in rw (h, p', q) refl

tok-part :
    (c : ℕ) (cs : Bytes) (w : Hp) {e : Eaten}
    → c ≡ 0o33
    → ansiseq_eatone w.ansi (c ∷ cs) ≡ ok e
    → e.consumed ≡ negsuc 0
    → mktok (some (c ∷ cs)) 1 w ≡ ok (none, 1, record w { ansi = e.statics })
unfolding mktok eseq_tok
tok-part c cs w h p q = let p' = rw h at p in rw (h, p', q) refl

tok-broken :
    (c : ℕ) (cs : Bytes) (w : Hp) {e : Fault}
    → c ≡ 0o33
    → ansiseq_eatone w.ansi (c ∷ cs) ≡ fault e
    → mktok (some (c ∷ cs)) 1 w ≡ fault e
unfolding mktok
tok-broken c cs w h p = let p' = rw h at p in rw (h, p') refl

-- After a part of a sequence, the sequence is read from its start.
tok-again :
    (c : ℕ) (cs : Bytes) (w : Hp) (s : Statics)
    → c ≡ 0o33
    → s.protoseq ≡ w.ansi.protoseq
    → mktok (some (c ∷ cs)) 1 (record w { ansi = s }) ≡ mktok (some (c ∷ cs)) 1 w
unfolding mktok
tok-again c cs w s h p = rw (h, eatone_forgets s w.ansi cs p) refl

abbrev count_of : Outcome (Option ℕ × ℕ × Hp) → ℕ
count_of (ok (t, n, w)) = n
count_of (fault e) = 0

abbrev is_token : Outcome (Option ℕ × ℕ × Hp) → Bool
is_token (ok (none, n, w)) = false
is_token (ok (some t, n, w)) = true
is_token (fault e) = false

abbrev is_ok : Outcome (Option ℕ × ℕ × Hp) → Bool
is_ok (ok v) = true
is_ok (fault e) = false

true-ne-false : true ≢ false
true-ne-false h = ground arith

not_odd : (k : ℕ) → negsuc 0 ≢ negsuc (suc k)
not_odd k h = ground arith

mktok-whole :
    (c : ℕ) (cs more : Bytes) (w : Hp) {t n : ℕ} {w1 : Hp}
    → suc (length cs) ≤ int_max
    → mktok (some (c ∷ cs)) 1 w ≡ ok (some t, n, w1)
    → (1 ≤ n) × (n ≤ suc (length cs)) × (mktok (some (c ∷ (cs ++ more))) 1 w ≡ ok (some t, n, w1))
mktok-whole c cs more w {n = n} b p = elim (Token-cases c cs w) [
  | high h ↦ absurd (true-ne-false (ap is_ok (sym p ∙ tok-high c cs w h)))
  | text h k ↦
      let e : n ≡ 1 = ap count_of (sym p ∙ tok-text c cs w h k) in
      (omega arith, omega arith, tok-text c (cs ++ more) w h k ∙ sym (tok-text c cs w h k) ∙ p)
  | escape h e k q r ↦
      let (lo, hi, q') = eatone-append w.ansi (c ∷ cs) more q b r in
      let same : n ≡ k = ap count_of (sym p ∙ tok-escape c cs w h q r) in
      (
        omega arith,
        omega arith,
        tok-escape c (cs ++ more) w h q' r ∙ sym (tok-escape c cs w h q r) ∙ p,
      )
  | odd h e k q r ↦ elim (consumed-cases w.ansi (c ∷ cs) q b) [
    | inl (m, u) ↦ cc (u, r)
    | inr u ↦ absurd (not_odd k (sym u ∙ r))
  ]
  | part h e q r ↦ absurd (true-ne-false (ap is_token (sym p ∙ tok-part c cs w h q r)))
  | broken h e q ↦ absurd (true-ne-false (ap is_ok (sym p ∙ tok-broken c cs w h q)))
]

state_of : Hp → Outcome (Option ℕ × ℕ × Hp) → Hp
state_of w (ok (t, n, w')) = w'
state_of w (fault e) = w

mktok-retry :
    (c : ℕ) (cs more : Bytes) (w : Hp) {n : ℕ} {w1 : Hp}
    → mktok (some (c ∷ cs)) 1 w ≡ ok (none, n, w1)
    → mktok (some (c ∷ (cs ++ more))) 1 w1 ≡ mktok (some (c ∷ (cs ++ more))) 1 w
unfolding state_of
mktok-retry c cs more w {w1 = w1} p = elim (Token-cases c cs w) [
  | high h ↦ absurd (true-ne-false (ap is_ok (sym p ∙ tok-high c cs w h)))
  | text h k ↦ absurd (true-ne-false (ap is_token (sym (tok-text c cs w h k) ∙ p)))
  | escape h e k q r ↦ absurd (true-ne-false (ap is_token (sym (tok-escape c cs w h q r) ∙ p)))
  | odd h e k q r ↦ absurd (true-ne-false (ap is_token (sym (tok-odd c cs w h q r) ∙ p)))
  | part h e q r ↦
      let same : w1 ≡ record w { ansi = e.statics } =
        ap (state_of w) (sym p ∙ tok-part c cs w h q r) in
      ap (λ v. mktok (some (c ∷ (cs ++ more))) 1 v) same
      ∙ tok-again c (cs ++ more) w e.statics h (eatone-protoseq w.ansi (c ∷ cs) q)
  | broken h e q ↦ absurd (true-ne-false (ap is_ok (sym p ∙ tok-broken c cs w h q)))
]

mktok-fails :
    (c : ℕ) (cs more : Bytes) (w : Hp) {e : Fault}
    → mktok (some (c ∷ cs)) 1 w ≡ fault e
    → mktok (some (c ∷ (cs ++ more))) 1 w ≡ fault e
mktok-fails c cs more w p = elim (Token-cases c cs w) [
  | high h ↦ tok-high c (cs ++ more) w h ∙ sym (tok-high c cs w h) ∙ p
  | text h k ↦ absurd (true-ne-false (ap is_ok (sym (tok-text c cs w h k) ∙ p)))
  | escape h e k q r ↦ absurd (true-ne-false (ap is_ok (sym (tok-escape c cs w h q r) ∙ p)))
  | odd h e k q r ↦ absurd (true-ne-false (ap is_ok (sym (tok-odd c cs w h q r) ∙ p)))
  | part h e q r ↦ absurd (true-ne-false (ap is_ok (sym (tok-part c cs w h q r) ∙ p)))
  | broken h e q ↦
      tok-broken c (cs ++ more) w h (eatone_fails w.ansi (c ∷ cs) more q)
      ∙ sym (tok-broken c cs w h q)
      ∙ p
]

-- The tokenizer of the machines for HP switches has the laws of the interface IsTokenizer up to
-- INT_MAX bytes: a token of input that is not longer has at least one byte and lies within the
-- input, and input behind it plays no part; input behind what makes the tokenizer fail plays no
-- part; and after it had not enough data it gives on longer input what it would have given
-- without that call.
pub mktok-IsTokenizer : IsTokenizer int_max mktok
mktok-IsTokenizer = record {
  whole = λ c cs more w b p. mktok-whole c cs more w b p;
  retry = λ c cs more w p. mktok-retry c cs more w p;
  fails = λ c cs more w p. mktok-fails c cs more w p;
}
