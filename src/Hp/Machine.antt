-- ===== src/Hp/Machine.antt =====
-- The three machines of src/back/hp over escape sequences and text. They share the tokenizer, the
-- number of tokens and the starting state, and have one accepting state each.
use swh.Base.{
  ℕ, pos, ◌+◌, ◌*◌, ◌≤◌, ◌<◌, ◌≡◌, ◌≢◌, refl, false, some, List, [], ◌∷◌, ◌++◌, append_assoc,
  append-nil, length, length-append, arith, ◌==◌, Outcome, ok,
}
use swh.Memory.{flat, Bytes, load}
use swh.Ansiseq.Data.{Statics, zero_seq, start}
use swh.Ansiseq.Escape.{IsEscape, IsEscape-head, eatone-IsEscape, eatone-protoseq}
use swh.Fsm.{Input, byte, Trans, Fsm}
use swh.Fsm.Runs.{Runs, Runs-nil, Runs-append, Runs-token}
use swh.Ansiseq.Eat.{Eaten, ansiseq_eatone}
use swh.Hp.State.{Hp}
use swh.Hp.Tokens.{eseq_tok, t_eseq, t_rest, num_tokens, mktok}

-- The prototype of a sequence is as it was when the process started.
abbrev pub Clean : Hp → Type 0
Clean w = w.ansi.protoseq ≡ zero_seq

abbrev pub AreEscapes : List Bytes → Type 0
AreEscapes [] = Unit
AreEscapes (e ∷ es) = IsEscape e × AreEscapes es

-- bytes that are no ESC
abbrev pub IsText : Bytes → Type 0
IsText [] = Unit
IsText (c ∷ cs) = (c ≤ 255) × (c ≢ 0o33) × IsText cs

mktok-eaten :
    (e cs more : Bytes) (w : Hp) {r : Eaten} {n : ℕ}
    → e ≡ 0o33 ∷ cs
    → ansiseq_eatone w.ansi (e ++ more) ≡ ok r
    → r.consumed ≡ pos n
    → mktok (some (e ++ more)) 1 w ≡ ok (some t_eseq, n, record w { ansi = r.statics })
unfolding mktok eseq_tok
mktok-eaten e cs more w q p c = let p' = rw q at p in rw (q, p', c) refl

-- An escape sequence is one token.
pub mktok-escape :
    {e : Bytes} (h : IsEscape e) (w : Hp) (more : Bytes)
    → Clean w
    → mktok (some (e ++ more)) 1 w ≡ ok (some t_eseq, length e, record w { ansi = h.eaten.statics })
mktok-escape {e} h w more p =
    let (cs, q) = IsEscape-head h in
    mktok-eaten e cs more w q (eatone-IsEscape h w.ansi more p) h.whole

-- Any other byte is one token.
pub mktok-text :
    (c : ℕ) (cs : Bytes) (n : ℕ) (w : Hp)
    → c ≤ 255
    → c ≢ 0o33
    → mktok (some (c ∷ cs)) n w ≡ ok (some t_rest, 1, w)
unfolding mktok
mktok-text c cs n w h l = ground arith

-- An action that records text: `P xs w` says that the state `w` holds the text `xs`, and up to
-- `limit` characters can be recorded.
abbrev pub Records : ℕ → (Input → Hp → Outcome Hp) → (Bytes → Hp → Type 0) → Type 0
Records limit act P =
    (c : ℕ) (xs : Bytes) (w : Hp)
    → length xs < limit
    → P xs w
    → (w' : Hp) × (act (byte c) w ≡ ok w') × P (xs ++ (c ∷ [])) w'

module _ (nsta errst finst : ℕ) (delta : List (Trans Hp)) (reset : Hp → Outcome Hp) where
  abbrev pub machine : ℕ → Fsm Hp
  machine st = record {
    nsta = nsta;
    ntok = num_tokens;
    curst = st;
    errst = errst;
    inist = 0;
    accst = finst ∷ [];
    delta = delta;
    f_mktok = mktok;
    f_reset = some reset;
  }

  -- the table's entry for a state and a token
  abbrev pub Entry : ℕ → ℕ → ℕ → (Input → Hp → Outcome Hp) → Type 0
  Entry st tok st' act =
      (load delta (st * num_tokens + tok) ≡ ok (record { state = st'; action = act }))
      × ((st' == errst) ≡ false)

  Runs-eaten :
      {st st' : ℕ} {act : Input → Hp → Outcome Hp} {w w1 w' : Hp} (e cs : Bytes)
      → e ≡ 0o33 ∷ cs
      → ((more : Bytes) → mktok (some (e ++ more)) 1 w ≡ ok (some t_eseq, length e, w1))
      → Entry st t_eseq st' act
      → act (byte 0o33) w1 ≡ ok w'
      → Runs (machine st) w e (machine st') w'
  Runs-eaten {st} {w = w} e cs q p (l, ne) a =
      rw q (Runs-token (machine st) w 0o33 cs (rw q at p) l a ne)

  pub Runs-escape :
      {e : Bytes} {st st' : ℕ} {act : Input → Hp → Outcome Hp} {w w' : Hp} (h : IsEscape e)
      → Clean w
      → Entry st t_eseq st' act
      → act (byte 0o33) (record w { ansi = h.eaten.statics }) ≡ ok w'
      → Runs (machine st) w e (machine st') w'
  Runs-escape {e} {w = w} h p l a =
      let (cs, q) = IsEscape-head h in Runs-eaten e cs q (λ more. mktok-escape h w more p) l a

  -- Escape sequences that the machine eats without a change of state.
  pub Runs-escapes :
      (es : List Bytes) (st : ℕ) (w : Hp)
      → Entry st t_eseq st (λ c u. ok u)
      → AreEscapes es
      → Clean w
      → (s : Statics) × (s.protoseq ≡ zero_seq)
        × Runs (machine st) w (flat es) (machine st) (record w { ansi = s })
  Runs-escapes [] st w l h p = (w.ansi, p, Runs-nil (machine st) w)
  Runs-escapes (e ∷ es) st w l (h, hs) p =
      let s1 = h.eaten.statics in
      let p1 : s1.protoseq ≡ zero_seq = eatone-protoseq start e h.eats in
      let (s, p', r) = Runs-escapes es st (record w { ansi = s1 }) l hs p1 in
      (s, p', Runs-append (Runs-escape h p l refl) r)

  -- One escape sequence or more, the first with a change of state.
  pub Runs-escapes_enter :
      (e : Bytes) (es : List Bytes) (st st' : ℕ) (w : Hp)
      → Entry st t_eseq st' (λ c u. ok u)
      → Entry st' t_eseq st' (λ c u. ok u)
      → AreEscapes (e ∷ es)
      → Clean w
      → (s : Statics) × (s.protoseq ≡ zero_seq)
        × Runs (machine st) w (flat (e ∷ es)) (machine st') (record w { ansi = s })
  Runs-escapes_enter e es st st' w l l' (h, hs) p =
      let w1 : Hp = record w { ansi = h.eaten.statics } in
      let (s, q, r) = Runs-escapes es st' w1 l' hs (eatone-protoseq start e h.eats) in
      (s, q, Runs-append (Runs-escape h p l refl) r)

  pub Runs-char :
      (c : ℕ) {st st' : ℕ} {act : Input → Hp → Outcome Hp} (w : Hp) {w' : Hp}
      → c ≤ 255
      → c ≢ 0o33
      → Entry st t_rest st' act
      → act (byte c) w ≡ ok w'
      → Runs (machine st) w (c ∷ []) (machine st') w'
  Runs-char c {st} w b n (l, ne) a =
      Runs-token (machine st) w c [] (λ more. mktok-text c more 1 w b n) l a ne

  -- Text that the machine records without a change of state.
  pub Runs-text :
      (limit : ℕ) (P : Bytes → Hp → Type 0) (act : Input → Hp → Outcome Hp) (st : ℕ)
      → Entry st t_rest st act
      → Records limit act P
      → (txt xs : Bytes) (w : Hp) → IsText txt
      → length xs + length txt ≤ limit
      → P xs w
      → (w' : Hp) × P (xs ++ txt) w' × Runs (machine st) w txt (machine st) w'
  Runs-text limit P act st l k [] xs w t b h = (w, rw append-nil h, Runs-nil (machine st) w)
  Runs-text limit P act st l k (c ∷ cs) xs w (t0, t1, ts) b h =
      let (w1, a, h1) = k c xs w (omega arith) h in
      let (w2, h2, r) =
        Runs-text limit P act st l k cs (xs ++ (c ∷ [])) w1 ts
          (omega (arith, length-append xs (c ∷ []))) h1 in
      (w2, rw append_assoc at h2, Runs-append (Runs-char c w t0 t1 l a) r)

  -- Text, its first character with a change of state.
  pub Runs-text_enter :
      (limit : ℕ) (P : Bytes → Hp → Type 0) (act : Input → Hp → Outcome Hp) (st st' : ℕ)
      → Entry st t_rest st' act
      → Entry st' t_rest st' act
      → Records limit act P
      → (c : ℕ) (cs : Bytes) (w : Hp) → IsText (c ∷ cs)
      → length (c ∷ cs) ≤ limit
      → P [] w
      → (w' : Hp) × P (c ∷ cs) w' × Runs (machine st) w (c ∷ cs) (machine st') w'
  Runs-text_enter limit P act st st' l l' k c cs w (t0, t1, ts) b h =
      let (w1, a, h1) = k c [] w (omega arith) h in
      let (w2, h2, r) = Runs-text limit P act st' l' k cs (c ∷ []) w1 ts (omega arith) h1 in
      (w2, h2, Runs-append (Runs-char c w t0 t1 l a) r)
