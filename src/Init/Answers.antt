-- ===== src/Init/Answers.antt =====
-- The whole program, from `main` of src/init.c on.
use swh.Base.{ℕ, pos, Bool, true, Option, none, some, List, map, take, replicate}
use swh.Memory.{Bytes, Block}
use swh.Common.Io.{System}
use swh.Back.{hp_name}
use swh.Hp.State.{Hp}
use swh.Uc.{ia_name}
use swh.UcIa.{UcIa}
use swh.Log.{Log}
use swh.Log.Environment.{is_fancy, package_name}
use swh.Spawn.{Spawn, pid}
use swh.Sc.State.{Sc}
use swh.Init.{Program, Options}
use swh.Init.Verbosity.{verbosity, level_after}
use swh.Init.Main.{Given, Running}

-- "swh_DEBUG" is not set; the options are any number of -v and -q.
abbrev pub given :
    Program
    → List Bytes
    → Option Bytes
    → List Bool
    → List Bytes
    → Options
    → List Bytes
    → Spawn
    → UcIa
    → System
    → Given
given pr names fancy vs rest o envp child u k = record {
  program = pr;
  names = names;
  environment = record { debug = none; fancy = fancy };
  arguments = map verbosity vs;
  rest = rest;
  options = o;
  envp = envp;
  child = child;
  uc = u;
  system = k;
}

-- All three pipes are made, fork(2) gives the child's number, and fcntl(2) gives the flags and sets them.
abbrev pub running : ℕ × ℕ → ℕ × ℕ → ℕ × ℕ → ℕ → ℕ → Block → List ℕ → Running
running i o e p fl buf fuels = record {
  pipe_in = some i;
  pipe_out = some o;
  pipe_err = some e;
  fork = pid p;
  getfl = some fl;
  setfl = true;
  buf = buf;
  fuels = fuels;
}

-- the log after `log_init` and `log_set_ourname`
abbrev pub logging : ℕ → Option Bytes → ℕ → Log → Log
logging n fancy l s = record s {
  fancy = is_fancy fancy;
  ready = true;
  lvlarr = replicate n (pos l);
  ourname = package_name;
}

-- the options after `process_args`
abbrev pub parsed : ℕ → Option Bytes → List Bool → Bytes → Options → Options
parsed n fancy vs a o = record o {
  host = take 255 a;
  ux = ia_name;
  sx = hp_name;
  log = logging n fancy (level_after 4 vs) o.log;
}
