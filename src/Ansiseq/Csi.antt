-- ===== src/Ansiseq/Csi.antt =====
-- Control sequences, and what the machine of src/back/ansiseq.c makes of them.
use swh.Base.{
  ℕ, pos, Outcome, int_of_size, int_of_size-small, ◌+◌, ◌≤◌, ◌<◌, ◌≡◌, refl, ap, ◌∙◌, true, false,
  some, List, [], ◌∷◌, ◌++◌, append_assoc, append-nil, length, length-set, length-append, take,
  take-set_next, arith, inl, inr, ℤ, int_max, ok, fault, undefined, out_of_bounds,
}
use native.Mathlib.Decide.{dec_lt}
use native.Mathlib.Nat.{add-zero}
use native.Mathlib.Numerals.{add-one}
use swh.Memory.{Bytes}
use swh.Ansiseq.Data.{Ansiseq, Statics, sta, csi, fin}
use swh.Ansiseq.Table.{is_cchr}
use swh.Ansiseq.Eat.{step, eat, is_fin, Eaten, finish, ansiseq_eatone}
use swh.Ansiseq.Params.{
  Digits, digits_text, params_text, csi_text, value, arg, args, AreDigits, AreParams, push,
  step-csi_semicolon, step-csi_semicolon_full, step-csi_cmd, step-csi_cmd_full, any_digit,
  fin-count, length-digits_text, eat-digits, store_args, ready, current-arg,
}

eat-last :
    (p : Digits) (proto q : Ansiseq) (cmd i : ℕ) (more : Bytes)
    → is_cchr cmd ≡ true
    → AreDigits p
    → value p ≤ int_max
    → q.argc + length (args (p ∷ [])) ≤ length q.argv
    → eat csi (ready proto q) i (digits_text p ++ (cmd ∷ more))
      ≡ ok (
        fin,
        ready proto (record (store_args (args (p ∷ [])) q) { cmd = cmd }),
        i + length (digits_text p) + 1,
      )
unfolding eat is_fin
eat-last [] proto q cmd i more h a b l =
    rw (step-csi_cmd cmd (ready proto q) h (inl refl)) (ground arith)
eat-last (d ∷ ds) proto q cmd i more h a b l =
    eat-digits (d ∷ ds) (ready proto q) i (cmd ∷ more) a b
    ∙ rw
        (step-csi_cmd cmd
          (record { protoseq = proto; curseq = q; parmv = value (d ∷ ds); gotparm = true }) h
          (inr (omega arith)))
        (ground (arith, length-digits_text ds))

-- The loop over the parameters and the command.
eat-params :
    (ps : List Digits) (proto q : Ansiseq) (cmd i : ℕ) (more : Bytes)
    → is_cchr cmd ≡ true
    → AreParams ps
    → q.argc + length (args ps) ≤ length q.argv
    → eat csi (ready proto q) i (params_text ps ++ (cmd ∷ more))
      ≡ ok (
        fin,
        ready proto (record (store_args (args ps) q) { cmd = cmd }),
        i + length (params_text ps) + 1,
      )
unfolding eat is_fin
eat-params [] proto q cmd i more h a l =
    eat-last [] proto q cmd i more h tt (omega arith) (omega arith)
eat-params (p ∷ []) proto q cmd i more h a l = eat-last p proto q cmd i more h a.0 a.1 l
eat-params (p ∷ r ∷ ps) proto q cmd i more h a l =
    rw (append_assoc (digits_text p) (b';' ∷ params_text (r ∷ ps)) (cmd ∷ more)) (
      eat-digits p (ready proto q) i (b';' ∷ (params_text (r ∷ ps) ++ (cmd ∷ more))) a.0 a.1
      ∙ rw
          (step-csi_semicolon
            (record { protoseq = proto; curseq = q; parmv = value p; gotparm = any_digit false p })
            (omega arith))
          (rw (current-arg p) (
            eat-params (r ∷ ps) proto (push (arg p) q) cmd (i + length p + 1) more h a.2
              (omega (arith, length-set q.argv q.argc (arg p)))
            ∙ fin-count _ (
                omega (
                  arith,
                  length-digits_text p,
                  length-append (digits_text p) (b';' ∷ params_text (r ∷ ps)),
                )))))

-- One parameter more than `argv` has room for is stored behind its end.
eat-params_full :
    (ps : List Digits) (proto q : Ansiseq) (cmd i : ℕ) (more : Bytes)
    → is_cchr cmd ≡ true
    → AreParams ps
    → q.argc ≤ length q.argv
    → length q.argv < q.argc + length (args ps)
    → eat csi (ready proto q) i (params_text ps ++ (cmd ∷ more)) ≡ fault (undefined out_of_bounds)
unfolding eat is_fin
eat-params_full [] proto q cmd i more h a b l = absurd (omega arith)
eat-params_full ([] ∷ []) proto q cmd i more h a b l = absurd (omega arith)
eat-params_full ((d ∷ ds) ∷ []) proto q cmd i more h a b l =
    eat-digits (d ∷ ds) (ready proto q) i (cmd ∷ more) a.0 a.1
    ∙ rw (
        step-csi_cmd_full cmd
          (record { protoseq = proto; curseq = q; parmv = value (d ∷ ds); gotparm = true }) h refl
          (omega arith))
eat-params_full (p ∷ r ∷ ps) proto q cmd i more h a b l =
    rw (append_assoc (digits_text p) (b';' ∷ params_text (r ∷ ps)) (cmd ∷ more)) (
      eat-digits p (ready proto q) i (b';' ∷ (params_text (r ∷ ps) ++ (cmd ∷ more))) a.0 a.1
      ∙ elim (dec_lt q.argc (length q.argv)) [
        | yes room ↦
            rw
              (step-csi_semicolon
                (record {
                  protoseq = proto;
                  curseq = q;
                  parmv = value p;
                  gotparm = any_digit false p;
                })
                room)
              (rw (current-arg p) (
                eat-params_full (r ∷ ps) proto (push (arg p) q) cmd (i + length p + 1) more h a.2
                  (omega (arith, length-set q.argv q.argc (arg p)))
                  (omega (arith, length-set q.argv q.argc (arg p)))))
        | no full ↦ rw (
            step-csi_semicolon_full
              (record {
                protoseq = proto;
                curseq = q;
                parmv = value p;
                gotparm = any_digit false p;
              })
              (omega arith))
      ])

take-store_args :
    (xs : List ℤ) (q : Ansiseq)
    → q.argc + length xs ≤ length q.argv
    → (take (q.argc + length xs) (store_args xs q).argv ≡ take q.argc q.argv ++ xs)
      × ((store_args xs q).argc ≡ q.argc + length xs)
take-store_args [] q h = (rw (add-zero, append-nil) refl, omega arith)
take-store_args (x ∷ xs) q h =
    let (a, b) = take-store_args xs (push x q) (omega (arith, length-set q.argv q.argc x)) in
    (
      ap (λ k. take k (store_args xs (push x q)).argv) (omega arith)
          ∙ a
          ∙ rw (add-one, take-set_next q.argv q.argc x (omega arith), append_assoc) refl,
      omega (arith, b),
    )

cls-store_args : (xs : List ℤ) (q : Ansiseq) → (store_args xs q).cls ≡ q.cls
cls-store_args [] q = refl
cls-store_args (x ∷ xs) q = cls-store_args xs (push x q)

-- the statics just behind ESC [
abbrev opened : Statics → Statics
opened s = ready s.protoseq (record (s.protoseq) { cls = b'[' })

eat-open : (s : Statics) (xs : Bytes) → eat sta s 0 (0o33 ∷ b'[' ∷ xs) ≡ eat csi (opened s) 2 xs
unfolding eat is_fin step
eat-open s xs = refl

eaten_at :
    (i n : ℕ) (d : Ansiseq) (s : Statics)
    → n ≤ int_max
    → i ≡ n
    → ◌≡◌ {A = Outcome Eaten}
        (ok (record { consumed = int_of_size i; dst = some d; statics = s }))
        (ok (record { consumed = pos n; dst = some d; statics = s }))
eaten_at i n d s b e =
    ap (λ z. ok (record { consumed = z; dst = some d; statics = s }))
      (ap int_of_size e ∙ int_of_size-small n b)

-- A control sequence is written out: ESC, an opening bracket, parameters of decimal digits, some
-- of them possibly empty, with semicolons between them, and a command character. No parameter is
-- above INT_MAX, the prototype has no parameters, the parameters that are stored fit the array,
-- and the sequence has at most INT_MAX bytes. Whatever was eaten before and whatever stands
-- behind it, ansiseq_eatone eats exactly the sequence and stores its class, its command and the
-- values of its parameters.
pub eatone-csi_text :
    (ps : List Digits) (cmd : ℕ) (s : Statics) (more : Bytes)
    → is_cchr cmd ≡ true
    → AreParams ps
    → s.protoseq.argc ≡ 0
    → length (args ps) ≤ length s.protoseq.argv
    → length (csi_text ps cmd) ≤ int_max
    → (q : Ansiseq) × (ansiseq_eatone s (csi_text ps cmd ++ more)
        ≡ ok (record {
          consumed = pos (length (csi_text ps cmd));
          dst = some q;
          statics = ready s.protoseq q;
        }))
      × (q.cls ≡ b'[')
      × (q.cmd ≡ cmd)
      × (take q.argc q.argv ≡ args ps)
unfolding ansiseq_eatone finish
eatone-csi_text ps cmd s more h a z l b =
    let q : Ansiseq = (opened s).curseq in
    let (t, c) = take-store_args (args ps) q (omega arith) in
    (
      record (store_args (args ps) q) { cmd = cmd },
      rw
          (
            append_assoc (params_text ps) (cmd ∷ []) more,
            eat-open s (params_text ps ++ (cmd ∷ more)),
            eat-params ps s.protoseq q cmd 2 more h a (omega arith),
          )
          (eaten_at _ (length (csi_text ps cmd)) _ _ b
            (omega (arith, length-append (params_text ps) (cmd ∷ [])))),
      cls-store_args (args ps) q,
      refl,
      rw (c, t, z) refl,
    )

-- A control sequence is written out as ESC, an opening bracket, parameters of decimal digits with
-- semicolons between them, and a command character. When it has more stored parameters than the
-- array has elements, no parameter is above INT_MAX and the prototype has no parameters,
-- ansiseq_eatone writes behind the array, which is undefined behaviour.
pub eatone-csi_text_full :
    (ps : List Digits) (cmd : ℕ) (s : Statics) (more : Bytes)
    → is_cchr cmd ≡ true
    → AreParams ps
    → s.protoseq.argc ≡ 0
    → length s.protoseq.argv < length (args ps)
    → ansiseq_eatone s (csi_text ps cmd ++ more) ≡ fault (undefined out_of_bounds)
unfolding ansiseq_eatone
eatone-csi_text_full ps cmd s more h a z l =
    rw
      (
        append_assoc (params_text ps) (cmd ∷ []) more,
        eat-open s (params_text ps ++ (cmd ∷ more)),
        eat-params_full ps s.protoseq (opened s).curseq cmd 2 more h a (omega arith) (omega arith),
      )
      refl
