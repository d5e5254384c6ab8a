-- ===== src/Core/Run.antt =====
-- `core_init` and `core_run` of src/core.c: the main loop over the conversation with the switch, the
-- front end and the child process.
use swh.Base.{
  ℕ, ℤ, pos, negsuc, Bool, true, false, Option, List, [], ◌∷◌, ◌==◌, if◌then◌else◌, Outcome, ok,
  fault, critical, sc_went_offline, uc_failed, uc_no_data, sc_not_started, ◌>>=◌,
}
use swh.Memory.{Bytes, Block, strlen}
use swh.Common.{Libc}
use swh.Common.Modes.{setblocking}
use swh.Common.Io.{System}
use swh.Back.{Backend, attach_all}
use swh.Hp.State.{Hp, initial}
use swh.Uc.{UcIf, uc_attach, uc_init, uc_hasdata, uc_getdata, uc_putdata}
use swh.UcIa.{UcIa}
use swh.Spawn.{Spawn, ForkAnswer, spawn_init, spawn_operate, spawn_launch, not_negative}
use swh.Sc.State.{Sc, sc_init, sc_offline, sc_hasreply, sc_getreply, sc_getps1}
use swh.Sc.Operate.{sc_write}
use swh.Core.{while_busy}

-- what the subsystems keep
pub record World (W U : Type 0) : Type 0 where
  pub sc : Sc W
  pub uc : U
  pub child : Spawn

abbrev pub bufsz : ℕ
bufsz = 512

-- what `uc_getdata` says is there
abbrev pub some_data : ℤ → Outcome ℕ
some_data (negsuc n) = fault (critical uc_failed)
some_data (pos n) = if n == 0 then fault (critical uc_no_data) else ok n

-- `uc_hasdata(true) == -1`
abbrev pub uc_alive : ℤ → Outcome (Unit {0})
uc_alive (pos n) = ok tt
uc_alive (negsuc n) = if n == 0 then fault (critical uc_failed) else ok tt

abbrev pub online : Bool → Outcome (Unit {0})
online offline = if offline then fault (critical sc_went_offline) else ok tt

unfoldable pub core_init :
    Libc
    → Bytes
    → Bytes
    → List Bytes
    → Spawn
    → UcIa
    → System
    → Outcome (Backend Hp × Sc Hp × UcIf UcIa × UcIa × Spawn)
unfolding spawn_init sc_init attach_all uc_attach
core_init libc frontend backend envp c u k = do
  let c' = spawn_init envp c
  (b, s) ← sc_init libc (attach_all libc backend) initial k
  ifc ← uc_attach frontend
  u' ← uc_init ifc u
  ok (b, s, ifc, u', c')

-- the name of the host, and what pipe(2), fork(2) and the two calls of fcntl(2) answer
pub record Launch : Type 0 where
  pub host : Bytes
  pub pipe_in : Option (ℕ × ℕ)
  pub pipe_out : Option (ℕ × ℕ)
  pub pipe_err : Option (ℕ × ℕ)
  pub fork : ForkAnswer
  pub getfl : Option ℕ
  pub setfl : Bool

-- `sc_start`, as `core_run` calls it
unfoldable pub sc_start : Launch → Spawn → Outcome Spawn
unfolding spawn_launch setblocking
sc_start l s =
    let (r, s') = spawn_launch l.host l.pipe_in l.pipe_out l.pipe_err l.fork s in
    let going = setblocking false l.getfl l.setfl >>= λ fl. ok (record s' { flags = fl }) in
    if not_negative r then going else fault (critical sc_not_started)

module _ {U : Type 0} (ifc : UcIf U) where
  -- `const char *rep = sc_getreply(); uc_putdata(rep, strlen(rep));`, likewise for the prompt
  unfoldable pub put_string : Block → U → Outcome U
  unfolding strlen
  put_string m u = strlen m >>= λ n. uc_putdata ifc m n u >>= λ (r, u'). ok u'

  unfoldable pub put_reply : {W : Type 0} → Sc W → U → Outcome U
  unfolding sc_hasreply sc_getreply put_string
  put_reply s u = let shown = put_string (sc_getreply s) u in if sc_hasreply s then shown else ok u

  -- from `uc_hasdata` to `sc_write`: what the user said goes to the switch
  unfoldable pub take_command : {W : Type 0} → Libc → Block → Sc W → U → Outcome (Block × Sc W × U)
  unfolding sc_write
  take_command libc buf s u = do
    (h, u1) ← uc_hasdata ifc true u
    _ ← uc_alive h
    (n, buf', u2) ← uc_getdata ifc buf bufsz u1
    len ← some_data n
    s' ← sc_write libc buf' len s
    ok (buf', s', u2)

module _ {W U : Type 0} (libc : Libc) (b : Backend W) (ifc : UcIf U) where
  -- the body of the loop, with its `buf` and fuel for the inner loop
  unfoldable pub turn : ℕ → Block → World W U → Outcome (Block × World W U)
  unfolding spawn_operate while_busy sc_offline put_reply sc_getps1 put_string take_command
  turn fuel buf x = do
    c ← spawn_operate x.child
    s ← while_busy libc b fuel x.sc
    _ ← online (sc_offline s)
    u1 ← put_reply ifc s x.uc
    u2 ← put_string ifc (sc_getps1 s) u1
    (buf', s', u3) ← take_command ifc libc buf s u2
    ok (buf', record { sc = s'; uc = u3; child = c })

  -- the loop, for so many turns, with the fuel of each
  unfoldable pub turns : List ℕ → Block → World W U → Outcome (Block × World W U)
  unfolding turn
  turns [] buf x = ok (buf, x)
  turns (fuel ∷ fuels) buf x = turn fuel buf x >>= λ (buf', x'). turns fuels buf' x'

  -- `core_run`, for so many turns, given what `sc_start` meets
  unfoldable pub core_run : Launch → List ℕ → Block → World W U → Outcome (Block × World W U)
  unfolding sc_start turns
  core_run l fuels buf x = sc_start l x.child >>= λ c. turns fuels buf (record x { child = c })
