-- ===== src/Back.antt =====
-- src/back/fsm_init.c, fsm_cmdout.c and fsm_inchar.c: the interfaces that a backend attaches to,
-- looked up by name in the table of src/back/backends.h. A function pointer that an attach function
-- does not set is NULL.
use swh.Base.{
  ℕ, Bool, Option, none, some, List, [], ◌∷◌, ◌==◌, ◌&&◌, true, false, if◌then◌else◌, Outcome, ok,
  fault, critical, undefined, no_such_backend, null_call, ◌>>=◌,
}
use swh.Memory.{Bytes, Block}
use swh.Common.{Libc}
use swh.Fsm.{Fsm}
use swh.Hp.State.{Hp}
use swh.Hp.Init
use swh.Hp.Cmdout
use swh.Hp.Inchar

-- struct fsm_init_if
pub record FsmInitIf (W : Type 0) : Type 0 where
  pub f_init : W → Outcome (Fsm W × W)
  pub f_ps1buf : W → Block
  pub f_anykey : W → Bool × W
  pub f_report : W → Bool × W

-- struct fsm_cmdout_if
pub record FsmCmdoutIf (W : Type 0) : Type 0 where
  pub f_init : W → Outcome (Fsm W × W)
  pub f_ps1buf : W → Block
  pub f_anykey : Option (W → Bool × W)
  pub f_report : Option (W → Bool × W)
  pub f_outbuf : W → Block
  pub f_outbufcnt : W → ℕ

-- struct fsm_inchar_if
pub record FsmIncharIf (W : Type 0) : Type 0 where
  pub f_init : W → Outcome (Fsm W × W)

-- a pointer to a function, called
unfoldable pub call : {W : Type 0} → Option (W → Bool × W) → W → Outcome (Bool × W)
call none w = fault (undefined null_call)
call (some f) w = ok (f w)

unfoldable pub fsm_cmdout_anykey : {W : Type 0} → FsmCmdoutIf W → W → Outcome (Bool × W)
unfolding call
fsm_cmdout_anykey b w = call b.f_anykey w

unfoldable pub fsm_cmdout_report : {W : Type 0} → FsmCmdoutIf W → W → Outcome (Bool × W)
unfolding call
fsm_cmdout_report b w = call b.f_report w

-- The other calls through the interfaces.
module _ {W : Type 0} where
  abbrev pub fsm_init_init : FsmInitIf W → W → Outcome (Fsm W × W)
  fsm_init_init b w = b.f_init w

  abbrev pub fsm_init_ps1buf : FsmInitIf W → W → Block
  fsm_init_ps1buf b w = b.f_ps1buf w

  abbrev pub fsm_init_anykey : FsmInitIf W → W → Bool × W
  fsm_init_anykey b w = b.f_anykey w

  abbrev pub fsm_init_report : FsmInitIf W → W → Bool × W
  fsm_init_report b w = b.f_report w

  abbrev pub fsm_cmdout_init : FsmCmdoutIf W → W → Outcome (Fsm W × W)
  fsm_cmdout_init b w = b.f_init w

  abbrev pub fsm_cmdout_ps1buf : FsmCmdoutIf W → W → Block
  fsm_cmdout_ps1buf b w = b.f_ps1buf w

  abbrev pub fsm_cmdout_outbuf : FsmCmdoutIf W → W → Block
  fsm_cmdout_outbuf b w = b.f_outbuf w

  abbrev pub fsm_cmdout_outbufcnt : FsmCmdoutIf W → W → ℕ
  fsm_cmdout_outbufcnt b w = b.f_outbufcnt w

  abbrev pub fsm_inchar_init : FsmIncharIf W → W → Outcome (Fsm W × W)
  fsm_inchar_init b w = b.f_init w

-- the three `s_backend`
pub record Backend (W : Type 0) : Type 0 where
  pub init : FsmInitIf W
  pub cmdout : FsmCmdoutIf W
  pub inchar : FsmIncharIf W

unfoldable pub fsm_init_hp_attach : Libc → FsmInitIf Hp
unfolding Init.init Init.ps1buf Init.anykey Init.report
fsm_init_hp_attach libc = record {
  f_init = Init.init libc;
  f_ps1buf = Init.ps1buf;
  f_anykey = Init.anykey;
  f_report = Init.report;
}

unfoldable pub fsm_cmdout_hp_attach : Libc → FsmCmdoutIf Hp
unfolding Cmdout.init Cmdout.ps1buf Cmdout.outbuf Cmdout.outbufcnt
fsm_cmdout_hp_attach libc = record {
  f_init = Cmdout.init libc;
  f_ps1buf = Cmdout.ps1buf;
  f_anykey = none;
  f_report = none;
  f_outbuf = Cmdout.outbuf;
  f_outbufcnt = Cmdout.outbufcnt;
}

unfoldable pub fsm_inchar_hp_attach : Libc → FsmIncharIf Hp
unfolding Inchar.init
fsm_inchar_hp_attach libc = record { f_init = λ w. Inchar.init libc >>= λ f. ok (f, w) }

-- strcmp() == 0
unfoldable pub same : Bytes → Bytes → Bool
same [] [] = true
same [] (y ∷ ys) = false
same (x ∷ xs) [] = false
same (x ∷ xs) (y ∷ ys) = x == y && same xs ys

-- the loop over the table of names and attach functions
unfoldable pub attach : {I : Type 0} → List (Bytes × I) → Bytes → Outcome I
unfolding same
attach [] name = fault (critical no_such_backend)
attach ((n, i) ∷ bs) name = let rest = attach bs name in if same n name then ok i else rest

-- "hp"
abbrev pub hp_name : Bytes
hp_name = 104 ∷ 112 ∷ []

-- X(hp)
abbrev pub fsm_init_backends : Libc → List (Bytes × FsmInitIf Hp)
fsm_init_backends libc = (hp_name, fsm_init_hp_attach libc) ∷ []

abbrev pub fsm_cmdout_backends : Libc → List (Bytes × FsmCmdoutIf Hp)
fsm_cmdout_backends libc = (hp_name, fsm_cmdout_hp_attach libc) ∷ []

abbrev pub fsm_inchar_backends : Libc → List (Bytes × FsmIncharIf Hp)
fsm_inchar_backends libc = (hp_name, fsm_inchar_hp_attach libc) ∷ []

abbrev pub fsm_init_attach : Libc → Bytes → Outcome (FsmInitIf Hp)
fsm_init_attach libc ifname = attach (fsm_init_backends libc) ifname

abbrev pub fsm_cmdout_attach : Libc → Bytes → Outcome (FsmCmdoutIf Hp)
fsm_cmdout_attach libc ifname = attach (fsm_cmdout_backends libc) ifname

abbrev pub fsm_inchar_attach : Libc → Bytes → Outcome (FsmIncharIf Hp)
fsm_inchar_attach libc ifname = attach (fsm_inchar_backends libc) ifname

-- the three attach functions, in the order of `sc_init`
unfoldable pub attach_all : Libc → Bytes → Outcome (Backend Hp)
unfolding attach fsm_init_hp_attach fsm_cmdout_hp_attach fsm_inchar_hp_attach
attach_all libc name = do
  i ← fsm_init_attach libc name
  c ← fsm_cmdout_attach libc name
  h ← fsm_inchar_attach libc name
  ok (record { init = i; cmdout = c; inchar = h })
