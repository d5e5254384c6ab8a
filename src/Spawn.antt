-- ===== src/Spawn.antt =====
-- src/spawn.c: the process that runs ssh; Child has what fork(2) leaves to it.
pub mod Child
use swh.Base.{
  ℕ, ℤ, pos, negsuc, Bool, true, false, Option, none, some, List, [], ◌∷◌, ◌++◌, take, ◌==◌,
  if◌then◌else◌, Outcome, ok, fault, critical, starved, wrong_child, ◌>>=◌,
}
use swh.Memory.{Bytes}

-- what fork(2) answers the parent: the child's number, or -1
pub data ForkAnswer : Type 0 where
  pid : ℕ → ForkAnswer
  no_fork : ForkAnswer

-- The file-scope variables; `handled` says that `sigchld` is set as a signal's handler, `waits` is what
-- wait(2) will answer, `closed` what was closed, and `flags` are the status flags of the end that the
-- child's output is read from.
pub record Spawn : Type 0 where
  pub stdin : ℤ × ℤ
  pub stdout : ℤ × ℤ
  pub stderr : ℤ × ℤ
  pub host : Bytes
  pub childpid : ℕ
  pub seen : Bool
  pub waits : List ℕ
  pub closed : List ℤ
  pub env : List Bytes
  pub handled : Bool
  pub flags : ℕ

unfoldable pub spawn_init : List Bytes → Spawn → Spawn
spawn_init envp s = record s { env = envp; handled = true }

abbrev pub not_negative : ℤ → Bool
not_negative (pos n) = true
not_negative (negsuc n) = false

abbrev pub close : List ℤ → Spawn → Spawn
close fds s = record s { closed = s.closed ++ fds }

abbrev pub forked : ForkAnswer → Spawn → ℤ × Spawn
forked no_fork s = (negsuc 0, s)
forked (pid p) s =
    (pos 0, record (close (s.stdin.0 ∷ s.stdout.1 ∷ s.stderr.1 ∷ []) s) { childpid = p })

abbrev pub ends : ℕ × ℕ → ℤ × ℤ
ends (r, w) = (pos r, pos w)

-- `spawn_launch`, given what the three calls of pipe(2) answer: its value, and the descriptors that
-- it hands out are those of the state
unfoldable pub spawn_launch :
    Bytes → Option (ℕ × ℕ) → Option (ℕ × ℕ) → Option (ℕ × ℕ) → ForkAnswer → Spawn → ℤ × Spawn
spawn_launch name none o e f s = (negsuc 0, s)
spawn_launch name (some i) none e f s = (negsuc 0, record s { stdin = ends i })
spawn_launch name (some i) (some o) none f s =
    (negsuc 0, record s { stdin = ends i; stdout = ends o })
spawn_launch name (some i) (some o) (some e) f s =
    forked f (record s { stdin = ends i; stdout = ends o; stderr = ends e; host = take 255 name })

unfoldable pub spawn_kill : Spawn → Spawn
spawn_kill s =
    if s.childpid == 0
    then s
    else record (close (s.stdin.1 ∷ []) s) { stdin = (s.stdin.0, negsuc 0) }

-- the end of the child that was waited for
abbrev pub buried : Spawn → Spawn
buried s =
    let s1 = record (close (s.stdout.0 ∷ s.stderr.0 ∷ []) s) { childpid = 0 } in
    if not_negative s.stdin.1 then close (s.stdin.1 ∷ []) s1 else s1

unfoldable pub dowait : List ℕ → Spawn → Outcome Spawn
dowait [] s = fault starved
dowait (p ∷ ps) s =
    if p == s.childpid then ok (buried (record s { waits = ps })) else fault (critical wrong_child)

unfoldable pub sigchld : Spawn → Spawn
sigchld s = record s { seen = true }

unfoldable pub spawn_operate : Spawn → Outcome Spawn
unfolding dowait
spawn_operate s = if s.seen then dowait s.waits (record s { seen = false }) else ok s
