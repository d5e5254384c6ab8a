-- ===== src/Sc/Start.antt =====
-- `sc_init` of src/sc.c with the backend for HP switches: the buffers and machines that it makes.
use swh.Base.{
  ℕ, suc, ◌<◌, ◌≤◌, ◌≡◌, refl, ap, true, false, Option, none, some, [], List, ◌∷◌, ◌*◌, length,
  replicate, lt→ltb, length-replicate, lt→ltb, arith, Outcome, ok,
}
use swh.Memory.{store}
use swh.Common.{Libc, xmalloc}
use swh.Common.Blocks.{Grants}
use swh.Common.Io.{System}
use swh.Fsm.{Trans, Mktok, copy, fsm_new}
use swh.Hp.State.{Buf, Hp, no_buf, initial}
use swh.Hp.Tokens.{mktok}
use swh.Hp.Buffers.{new_buf}
use swh.Hp.Contents.{Holds}
use swh.Hp.Init
use swh.Hp.Cmdout
use swh.Hp.Inchar
use swh.Hp.Transcript.Greeting.{init_fsm}
use swh.Hp.Transcript.Cmdout.{cmdout_fsm}
use swh.Hp.Transcript.Inchar.{inchar_fsm}
use swh.Back.{
  hp_name, attach_all, attach, fsm_init_hp_attach, fsm_cmdout_hp_attach, fsm_inchar_hp_attach, same,
}
use swh.Sc.State.{busy, init, Sc, fresh, sc_init}
use swh.Sc.Buffers.{Filled}
use swh.Sc.Conversation.{hp}

-- what `fresh` makes: one NUL, the rest not yet written
abbrev pub clean_buf : ℕ → Buf
clean_buf m = record { mem = some 0 ∷ replicate m none; size = suc m; count = 0 }

pub clean-Filled : (m : ℕ) → suc m < 9223372036854775808 → Filled (clean_buf m) []
clean-Filled m l = record {
  size_eq = ap suc (length-replicate {A = Option ℕ} m none);
  size_some = omega arith;
  size_small = l;
  count_eq = refl;
  room = omega arith;
  text = refl;
}

pub clean-Holds : (m : ℕ) → suc m < 9223372036854775808 → Holds (clean_buf m) []
clean-Holds m l = record {
  size_eq = ap suc (length-replicate {A = Option ℕ} m none);
  size_small = l;
  count_eq = refl;
  room = omega arith;
  text = refl;
}

-- the variables of the backend after two of its `init` functions, and after all
abbrev after_init : Hp
after_init = record initial {
  init = record { ps1buf = clean_buf 255; anykey = false; report = false };
}

abbrev pub after_cmdout : Hp
after_cmdout = record after_init {
  cmdout = record { outbuf = clean_buf 4095; ps1buf = clean_buf 255 };
}

store_head :
    (m : ℕ)
    → store {A = Option ℕ} (none ∷ replicate m none) 0 (some 0) ≡ ok (some 0 ∷ replicate m none)
unfolding store
store_head m = rw (lt→ltb 0 (suc (length (replicate {A = Option ℕ} m none))) (omega arith)) refl

module _ (libc : Libc) where
  fresh_lem : (m : ℕ) → libc.alloc (suc m) ≡ true → fresh libc (suc m) ≡ ok (clean_buf m)
  unfolding fresh xmalloc
  fresh_lem m e = rw (e, store_head m) refl

  new_buf_lem : (m : ℕ) → libc.alloc (suc m) ≡ true → new_buf libc (suc m) no_buf ≡ ok (clean_buf m)
  unfolding new_buf xmalloc
  new_buf_lem m e = rw (e, store_head m) refl

  attach_all-hp : attach_all libc hp_name ≡ ok (hp libc)
  unfolding attach_all attach same
  attach_all-hp = refl

  fsm_new_lem :
      {W : Type 0} (nsta ntok errst inist fin : ℕ) (delta : List (Trans W)) (mktok : Mktok W)
      (reset : Option (W → Outcome W))
      → Grants libc 4096
      → ntok * nsta * 16 ≤ 4096
      → copy (ntok * nsta) delta ≡ ok delta
      → fsm_new libc nsta ntok errst inist (fin ∷ []) 1 delta mktok reset
        ≡ ok (record {
          nsta = nsta;
          ntok = ntok;
          curst = inist;
          errst = errst;
          inist = inist;
          accst = fin ∷ [];
          delta = delta;
          f_mktok = mktok;
          f_reset = reset;
        })
  unfolding fsm_new xmalloc copy
  fsm_new_lem nsta ntok errst inist fin delta mktok reset g l e =
      rw (g 80 (omega arith), g 4 (omega arith), g (ntok * nsta * 16) (omega arith), e) refl

  init_lem : Grants libc 4096 → Init.init libc initial ≡ ok (init_fsm libc Init.s_sta, after_init)
  unfolding Init.init Init.delta copy
  init_lem g =
      rw
        (
          fsm_new_lem 11 3 Init.s_err Init.s_sta Init.s_fin (Init.delta libc) mktok
              (some Init.reset) g (omega arith) refl,
          new_buf_lem 255 (g 256 (omega arith)),
        )
        refl

  cmdout_lem :
      Grants libc 4096
      → Cmdout.init libc after_init ≡ ok (cmdout_fsm libc Cmdout.s_sta, after_cmdout)
  unfolding Cmdout.init Cmdout.delta copy
  cmdout_lem g =
      rw
        (
          fsm_new_lem 8 3 Cmdout.s_err Cmdout.s_sta Cmdout.s_fin (Cmdout.delta libc) mktok
              (some Cmdout.reset) g (omega arith) refl,
          new_buf_lem 255 (g 256 (omega arith)),
          new_buf_lem 4095 (g 4096 (omega arith)),
        )
        refl

  inchar_lem : Grants libc 4096 → Inchar.init libc ≡ ok (inchar_fsm Inchar.s_sta)
  unfolding Inchar.init Inchar.delta copy
  inchar_lem g =
      fsm_new_lem 6 3 Inchar.s_err Inchar.s_sta Inchar.s_fin Inchar.delta mktok (some Inchar.reset)
        g (omega arith) refl

  -- what `sc_init` makes
  abbrev pub started : System → Sc Hp
  started k = record {
    nodataflag = false;
    state = busy;
    readbuf = clean_buf 4095;
    writebuf = clean_buf 4095;
    ps1buf = clean_buf 127;
    outbuf = clean_buf 4095;
    fsm_init = init_fsm libc Init.s_sta;
    fsm_cmdout = cmdout_fsm libc Cmdout.s_sta;
    fsm_inchar = inchar_fsm Inchar.s_sta;
    curfsm = init;
    back = after_cmdout;
    system = k;
  }

  pub sc_init-starts :
      (k : System)
      → Grants libc 4096
      → sc_init libc (attach_all libc hp_name) initial k ≡ ok (hp libc, started k)
  unfolding sc_init fsm_init_hp_attach fsm_cmdout_hp_attach fsm_inchar_hp_attach
  sc_init-starts k g =
      rw
        (
          attach_all-hp,
          fresh_lem 4095 (g 4096 (omega arith)),
          fresh_lem 127 (g 128 (omega arith)),
          init_lem g,
          cmdout_lem g,
          inchar_lem g,
        )
        refl
