-- ===== src/Init/Main.antt =====
-- `init` and `main` of src/init.c.
use swh.Base.{ℕ, Bool, List, Option, Outcome, ok, ◌>>=◌}
use swh.Memory.{Bytes, Block}
use swh.Common.{Libc}
use swh.Common.Io.{System}
use swh.Back.{Backend}
use swh.Hp.State.{Hp}
use swh.Uc.{UcIf}
use swh.UcIa.{UcIa}
use swh.Log.{log_set_ourname}
use swh.Log.Environment.{Environment, log_init, package_name}
use swh.Spawn.{Spawn, ForkAnswer}
use swh.Sc.State.{Sc}
use swh.Core.Run.{World, Launch, core_init, core_run}
use swh.Init.{Program, Options, Argument, Parsed, going, exited, process_args}

-- What the program meets until it runs: the names of the modules, the environment, the options and
-- the arguments behind them, and what the front end and the conversation with the switch start with.
pub record Given : Type 0 where
  pub program : Program
  pub names : List Bytes
  pub environment : Environment
  pub arguments : List Argument
  pub rest : List Bytes
  pub options : Options
  pub envp : List Bytes
  pub child : Spawn
  pub uc : UcIa
  pub system : System

-- the subsystems are there, or the program has ended with a code
pub data Initialized : Type 0 where
  initialized : Options → Backend Hp → Sc Hp → UcIf UcIa → UcIa → Spawn → Initialized
  ended : ℕ → Options → Initialized

unfoldable pub begin : Libc → List Bytes → Spawn → UcIa → System → Parsed → Outcome Initialized
unfolding core_init
begin libc envp c u k (going o) =
    core_init libc o.ux o.sx envp c u k >>= λ (b, s, ifc, u', c'). ok (initialized o b s ifc u' c')
begin libc envp c u k (exited code o) = ok (ended code o)

unfoldable pub init : Libc → Given → Outcome Initialized
unfolding log_init log_set_ourname process_args begin
init libc g = do
  l ← log_init g.names g.environment g.options.log
  let o = record (g.options) { log = log_set_ourname package_name l }
  p ← process_args g.program g.arguments g.rest o
  begin libc g.envp g.child g.uc g.system p

-- what pipe(2), fork(2) and fcntl(2) answer, `buf` of `core_run`, and the fuel of each turn
pub record Running : Type 0 where
  pub pipe_in : Option (ℕ × ℕ)
  pub pipe_out : Option (ℕ × ℕ)
  pub pipe_err : Option (ℕ × ℕ)
  pub fork : ForkAnswer
  pub getfl : Option ℕ
  pub setfl : Bool
  pub buf : Block
  pub fuels : List ℕ

-- the program has run for its turns, or it has ended with a code
pub data Result : Type 0 where
  ran : Options → Block → World Hp UcIa → Result
  stopped : ℕ → Options → Result

-- the call of `core_run`
abbrev pub launch : Running → Options → Launch
launch r o = record {
  host = o.host;
  pipe_in = r.pipe_in;
  pipe_out = r.pipe_out;
  pipe_err = r.pipe_err;
  fork = r.fork;
  getfl = r.getfl;
  setfl = r.setfl;
}

unfoldable pub go_on : Libc → Running → Initialized → Outcome Result
unfolding core_run
go_on libc r (initialized o b s ifc u c) =
    core_run libc b ifc (launch r o) r.fuels r.buf (record { sc = s; uc = u; child = c })
    >>= λ (buf, x). ok (ran o buf x)
go_on libc r (ended code o) = ok (stopped code o)

unfoldable pub main : Libc → Given → Running → Outcome Result
unfolding init go_on
main libc g r = init libc g >>= go_on libc r
