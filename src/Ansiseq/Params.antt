-- ===== src/Ansiseq/Params.antt =====
-- Control sequences, ESC [ parameters command: how they are written, and single steps of the machine of
-- src/back/ansiseq.c on them.
use swh.Base.{
  ℕ, suc, ◌+◌, ◌*◌, ◌≤◌, ◌<◌, ◌≡◌, ◌⊎◌, refl, ap, ◌∙◌, Bool, true, false, List, [], ◌∷◌, ◌++◌,
  length, set, arith, if◌then◌else◌, ℤ, pos, int_max, Outcome, ok, fault, undefined, out_of_bounds,
}
use swh.Memory.{Bytes, store}
use swh.Ansiseq.Data.{Ansiseq, Statics, State, absent, csi, fin}
use swh.Ansiseq.Table.{is_cchr}
use swh.Ansiseq.Eat.{step, eat, is_fin}

-- the digits of a parameter, as numbers below 10
abbrev pub Digits : Type 0
Digits = List ℕ

abbrev pub digits_text : Digits → Bytes
digits_text [] = []
digits_text (d ∷ ds) = (d + b'0') ∷ digits_text ds

-- the parameters, with `;` between them
abbrev pub params_text : List Digits → Bytes
params_text [] = []
params_text (p ∷ []) = digits_text p
params_text (p ∷ q ∷ ps) = digits_text p ++ (b';' ∷ params_text (q ∷ ps))

abbrev pub csi_text : List Digits → ℕ → Bytes
csi_text ps cmd = 0o33 ∷ b'[' ∷ (params_text ps ++ (cmd ∷ []))

abbrev pub value_from : ℕ → Digits → ℕ
value_from v [] = v
value_from v (d ∷ ds) = value_from (v * 10 + d) ds

abbrev pub value : Digits → ℕ
value = value_from 0

abbrev pub arg : Digits → ℤ
arg [] = absent
arg (d ∷ ds) = pos (value (d ∷ ds))

-- A last parameter that is empty is not stored.
abbrev pub args : List Digits → List ℤ
args [] = []
args ([] ∷ []) = []
args ((d ∷ ds) ∷ []) = arg (d ∷ ds) ∷ []
args (p ∷ q ∷ ps) = arg p ∷ args (q ∷ ps)

abbrev pub AreDigits : Digits → Type 0
AreDigits [] = Unit
AreDigits (d ∷ ds) = (d < 10) × AreDigits ds

-- Every parameter is a decimal number that fits an `int`.
abbrev pub AreParams : List Digits → Type 0
AreParams [] = Unit
AreParams (p ∷ ps) = AreDigits p × (value p ≤ int_max) × AreParams ps

step-csi_digit :
    (d : ℕ) (s : Statics)
    → d < 10
    → s.parmv * 10 + d ≤ int_max
    → step csi (d + b'0') s ≡ ok (csi, record s { parmv = s.parmv * 10 + d; gotparm = true })
unfolding step
step-csi_digit d s h b = ground arith

abbrev pub push : ℤ → Ansiseq → Ansiseq
push a q = record q { argv = set q.argv q.argc a; argc = q.argc + 1 }

abbrev current : Bool → ℕ → ℤ
current got v = if got then pos v else absent

pub step-csi_semicolon :
    (s : Statics)
    → s.curseq.argc < length s.curseq.argv
    → step csi b';' s
      ≡ ok (
        csi,
        record s { curseq = push (current s.gotparm s.parmv) s.curseq; parmv = 0; gotparm = false },
      )
unfolding step store
step-csi_semicolon s h = ground arith

pub step-csi_semicolon_full :
    (s : Statics)
    → length s.curseq.argv ≤ s.curseq.argc
    → step csi b';' s ≡ fault (undefined out_of_bounds)
unfolding step store
step-csi_semicolon_full s h = ground arith

-- The final byte stores a parameter that is still open.
abbrev closed : Bool → ℕ → Ansiseq → Ansiseq
closed true v q = push (pos v) q
closed false v q = q

pub step-csi_cmd :
    (c : ℕ) (s : Statics)
    → is_cchr c ≡ true
    → (s.gotparm ≡ false) ⊎ (s.curseq.argc < length s.curseq.argv)
    → step csi c s
      ≡ ok (
        fin,
        record s {
          curseq = record (closed s.gotparm s.parmv s.curseq) { cmd = c };
          parmv = if s.gotparm then 0 else s.parmv;
          gotparm = false;
        },
      )
unfolding step store is_cchr
step-csi_cmd c s h r = ground arith

pub step-csi_cmd_full :
    (c : ℕ) (s : Statics)
    → is_cchr c ≡ true
    → s.gotparm ≡ true
    → length s.curseq.argv ≤ s.curseq.argc
    → step csi c s ≡ fault (undefined out_of_bounds)
unfolding step store is_cchr
step-csi_cmd_full c s h g r = ground arith

le-value_from : (v : ℕ) (ds : Digits) → v ≤ value_from v ds
le-value_from v [] = omega arith
le-value_from v (d ∷ ds) = omega (arith, le-value_from (v * 10 + d) ds)

abbrev pub any_digit : Bool → Digits → Bool
any_digit got [] = got
any_digit got (d ∷ ds) = true

any_digit-true : (ds : Digits) → any_digit true ds ≡ true
any_digit-true [] = refl
any_digit-true (d ∷ ds) = refl

eat-count :
    (st : State) (s : Statics) (xs : Bytes) {i j : ℕ} → i ≡ j → eat st s i xs ≡ eat st s j xs
eat-count st s xs e = ap (λ k. eat st s k xs) e

pub fin-count :
    (s : Statics) {i j : ℕ}
    → i ≡ j
    → ◌≡◌ {A = Outcome (State × Statics × ℕ)} (ok (fin, s, i)) (ok (fin, s, j))
fin-count s e = ap (λ k. ok (fin, s, k)) e

pub length-digits_text : (ds : Digits) → length (digits_text ds) ≡ length ds
length-digits_text [] = refl
length-digits_text (d ∷ ds) = ap suc (length-digits_text ds)

-- The loop over the digits of one parameter.
pub eat-digits :
    (ds : Digits) (s : Statics) (i : ℕ) (more : Bytes)
    → AreDigits ds
    → value_from s.parmv ds ≤ int_max
    → eat csi s i (digits_text ds ++ more)
      ≡ eat csi
          (record s { parmv = value_from s.parmv ds; gotparm = any_digit s.gotparm ds })
          (i + length ds)
          more
unfolding eat is_fin
eat-digits [] s i more h b = eat-count csi s more (omega arith)
eat-digits (d ∷ ds) s i more h b =
    rw (step-csi_digit d s h.0 (omega (arith, le-value_from (s.parmv * 10 + d) ds))) (
      eat-digits ds (record s { parmv = s.parmv * 10 + d; gotparm = true }) (i + 1) more h.1 b
      ∙ rw (any_digit-true ds) (eat-count csi _ more (omega arith)))

abbrev pub store_args : List ℤ → Ansiseq → Ansiseq
store_args [] q = q
store_args (a ∷ as') q = store_args as' (push a q)

-- between two parameters
abbrev pub ready : Ansiseq → Ansiseq → Statics
ready p q = record { protoseq = p; curseq = q; parmv = 0; gotparm = false }

pub current-arg : (p : Digits) → current (any_digit false p) (value p) ≡ arg p
current-arg [] = refl
current-arg (d ∷ ds) = refl
