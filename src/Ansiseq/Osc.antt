-- ===== src/Ansiseq/Osc.antt =====
-- String sequences, and what the machine of src/back/ansiseq.c makes of them.
use swh.Base.{
  ℕ, pos, int_max, int_of_size, int_of_size-small, ◌+◌, ◌≤◌, ◌≡◌, refl, sym, ap, ◌∙◌, false, some,
  [], ◌∷◌, ◌++◌, append_assoc, append-nil, length, length-append, replicate, take, take-append_le,
  take-all, arith, ◌==◌, if◌then◌else◌, lt→ltb, ne→not-==, ok, ◌>>=◌,
}
use native.Mathlib.Decide.{dec_lt, ℕ_discrete}
use swh.Memory.{Bytes}
use swh.Ansiseq.Data.{Ansiseq, Statics, State, sta, esc, sqc, fin}
use swh.Ansiseq.Actions.{act_begin}
use swh.Ansiseq.Eat.{step, eat, is_fin, finish, ansiseq_eatone}
use swh.Ansiseq.Steps.{step-escape}
use swh.Ansiseq.Strings.{
  osc_text, IsOsc, add_char, add_text, AreSome, cells, holding, step-sqc, step-bell, step-bracket,
  add_char_full, mkstr-string, AreSome-add_char,
}

length-add_char : (xs : Bytes) (c : ℕ) → length xs ≤ 255 → length (add_char xs c) ≤ 255
length-add_char xs c l = let n = length-append xs (c ∷ []) in ground arith

eat_round :
    (st st' : State) (s s' : Statics) (i c : ℕ) (cs : Bytes)
    → step st c s ≡ ok (st', s')
    → is_fin st' ≡ false
    → eat st s i (c ∷ cs) ≡ eat st' s' (i + 1) cs
unfolding eat
eat_round st st' s s' i c cs e f = rw (e, f) refl

eat_fin :
    (st : State) (s s' : Statics) (i c : ℕ) (cs : Bytes)
    → step st c s ≡ ok (fin, s')
    → eat st s i (c ∷ cs) ≡ ok (fin, s', i + 1)
unfolding eat is_fin
eat_fin st s s' i c cs e = rw e refl

eat-text :
    (text more xs : Bytes) (s : Statics) (i : ℕ)
    → IsOsc text
    → AreSome xs
    → length xs ≤ 255
    → eat sqc (holding xs s) i ((text ++ (7 ∷ [])) ++ more)
      ≡ ok (fin, holding (add_text xs text) s, i + length text + 1)
unfolding is_fin
eat-text [] more xs s i h k l =
    eat_fin sqc (holding xs s) (holding xs s) i 7 more (step-bell (holding xs s))
    ∙ ap (λ n. ok (fin, holding xs s, n)) (omega arith)
eat-text (c ∷ cs) more xs s i (b, n, m, h) k l =
    eat_round sqc sqc (holding xs s) (holding (add_char xs c) s) i c ((cs ++ (7 ∷ [])) ++ more)
      (step-sqc c (holding xs s) b n m ∙ rw (mkstr-string c xs s k l) refl) refl
    ∙ eat-text cs more (add_char xs c) s (i + 1) h (AreSome-add_char xs c k)
        (length-add_char xs c l)
    ∙ (let e : i + 1 + length cs + 1 ≡ i + length (c ∷ cs) + 1 = omega arith in
        ap (λ j. ok (fin, holding (add_text (add_char xs c) cs) s, j)) e)

abbrev pub without_nuls : Bytes → Bytes
without_nuls [] = []
without_nuls (c ∷ cs) = let rest = without_nuls cs in if c == 0 then rest else c ∷ rest

-- The string is cut where the array leaves no room but for its terminator.
take-full : (xs ys : Bytes) → length xs ≡ 255 → take 255 (xs ++ ys) ≡ xs
take-full xs ys l = take-append_le 255 xs ys (omega arith) ∙ take-all xs 255 (omega arith)

add_text-take :
    (xs cs : Bytes) → length xs ≤ 255 → add_text xs cs ≡ take 255 (xs ++ without_nuls cs)
add_text-take xs [] l = sym (ap (take 255) (append-nil xs) ∙ take-all xs 255 l)
add_text-take xs (c ∷ cs) l = elim (ℕ_discrete c 0) [
  | yes z ↦ rw z (add_text-take xs cs l)
  | no z ↦ elim (dec_lt (length xs) 255) [
    | yes m ↦
        rw (ne→not-== c 0 z, lt→ltb (length xs) 255 m)
          (add_text-take (xs ++ (c ∷ [])) cs (omega (arith, length-append xs (c ∷ [])))
            ∙ ap (take 255) (append_assoc xs (c ∷ []) (without_nuls cs)))
    | no m ↦
        ap (λ y. add_text y cs) (add_char_full xs c (omega arith))
        ∙ add_text-take xs cs l
        ∙ take-full xs (without_nuls cs) (omega arith)
        ∙ sym (take-full xs (without_nuls (c ∷ cs)) (omega arith))
  ]
]

-- The result: no action but those of the text, on the prototype with the class.
abbrev pub osc_seq : Ansiseq → Bytes → Ansiseq
osc_seq proto text = record proto { cls = b']'; strarg = cells (take 255 (without_nuls text)) }

-- A string sequence is written out: ESC, a closing bracket, a text of bytes other than ESC and
-- BEL, and BEL, all of it at most INT_MAX bytes; the string of the prototype is empty. Whatever
-- was eaten before and whatever stands behind it, ansiseq_eatone eats exactly the sequence, never
-- writes behind its array of 256 bytes, and stores the class and, as the string, the text without
-- its NULs, cut at 255 bytes.
pub eatone-osc_text :
    (text : Bytes) (s : Statics) (more : Bytes)
    → IsOsc text
    → length (osc_text text) ≤ int_max
    → s.protoseq.strarg ≡ replicate 256 (some 0)
    → ansiseq_eatone s (osc_text text ++ more)
      ≡ ok (record {
        consumed = pos (length (osc_text text));
        dst = some (osc_seq s.protoseq text);
        statics = record s { curseq = osc_seq s.protoseq text; parmv = 0; gotparm = false };
      })
unfolding ansiseq_eatone is_fin finish act_begin
eatone-osc_text text s more h b z =
    let s1 : Statics = record s {
      curseq = record (s.protoseq) { cls = b']' };
      parmv = 0;
      gotparm = false;
    } in
    let e1 =
      eat_round sta esc s (act_begin s) 0 0o33 (b']' ∷ ((text ++ (7 ∷ [])) ++ more))
        (step-escape sta s (ground arith) (ground arith)) refl in
    let e2 =
      eat_round esc sqc (act_begin s) s1 1 b']' ((text ++ (7 ∷ [])) ++ more)
        (step-bracket (act_begin s)) refl in
    let q : s1 ≡ holding [] s1 =
      ap (λ y. record s1 { curseq = record (s1.curseq) { strarg = y } }) z in
    let e3 = eat-text text more [] s1 2 h tt (omega arith) in
    let n : 2 + length text + 1 ≡ length (osc_text text) =
      omega (arith, length-append text (7 ∷ [])) in
    let w : add_text [] text ≡ take 255 (without_nuls text) = add_text-take [] text (omega arith) in
    ap (λ r. r >>= λ v. ok (finish v))
      (e1
        ∙ e2
        ∙ ap (λ y. eat sqc y 2 ((text ++ (7 ∷ [])) ++ more)) q
        ∙ e3
        ∙ ap (λ y. ok (fin, holding y s1, 2 + length text + 1)) w)
    ∙ ap
        (λ k. ok (record {
          consumed = k;
          dst = some (osc_seq s.protoseq text);
          statics = record s { curseq = osc_seq s.protoseq text; parmv = 0; gotparm = false };
        }))
        (ap int_of_size n ∙ int_of_size-small (length (osc_text text)) b)
