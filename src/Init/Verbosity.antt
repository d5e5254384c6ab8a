-- ===== src/Init/Verbosity.antt =====
-- The options of src/init.c that set how much is logged.
use swh.Base.{ℕ, ◌+◌, ◌-◌, pos, Bool, true, false, List, [], ◌∷◌, replicate}
use swh.Log.{Log}
use swh.Init.{Options, Argument}

-- -v or -q
abbrev pub verbosity : Bool → Argument
verbosity true = (118, [])
verbosity false = (113, [])

-- the level after some -v and -q, which does not fall below 0
abbrev pub level_after : ℕ → List Bool → ℕ
level_after l [] = l
level_after l (true ∷ vs) = level_after (l + 1) vs
level_after l (false ∷ vs) = level_after (l - 1) vs

abbrev logs : ℕ → ℕ → Options → Options
logs n l o = record o { log = record (o.log) { lvlarr = replicate n (pos l) } }
