-- ===== src/Log.antt =====
-- src/common/log.c: the levels of the modules, and what the macros of src/common/log.h set and read.
-- The number of modules and their names come from a generated file: the array has the length of the
-- list that `log_init` is given.
pub mod Arrays
pub mod Line
pub mod Environment
pub mod Padding
pub mod Levels
pub mod Macros
pub mod Tracing
use swh.Base.{
  ℕ, zero, suc, ◌+◌, ◌-◌, ◌%◌, ℤ, pos, negsuc, Bool, true, false, List, [], ◌∷◌, ◌++◌, ◌==◌, ltb,
  if◌then◌else◌, length, take, replicate, Outcome, ok, fault, undefined, out_of_bounds,
  int_overflow, int_max, ◌>>=◌,
}
use swh.Memory.{Bytes, store, load}

-- The file-scope variables; `errout` is what was written to the descriptor 2.
pub record Log : Type 0 where
  pub fancy : Bool
  pub ready : Bool
  pub lvlarr : List ℤ
  pub w_modnam : ℤ
  pub w_file : ℤ
  pub w_line : ℤ
  pub w_func : ℤ
  pub calldepth : ℕ
  pub ourname : Bytes
  pub errout : Bytes

abbrev pub log_crit : ℕ
log_crit = 2

abbrev pub log_err : ℕ
log_err = 3

abbrev pub log_warning : ℕ
log_warning = 4

abbrev pub log_notice : ℕ
log_notice = 5

abbrev pub log_info : ℕ
log_info = 6

abbrev pub log_debug : ℕ
log_debug = 7

abbrev pub log_vivi : ℕ
log_vivi = 8

abbrev pub log_hex : ℕ
log_hex = 9

abbrev pub log_trace : ℕ
log_trace = 10

-- INT_MIN
abbrev pub int_min : ℤ
int_min = negsuc 2147483647

abbrev pub int_same : ℤ → ℤ → Bool
int_same (pos m) (pos n) = m == n
int_same (pos m) (negsuc n) = false
int_same (negsuc m) (pos n) = false
int_same (negsuc m) (negsuc n) = m == n

-- `a > b`
abbrev pub int_above : ℤ → ℤ → Bool
int_above (pos m) (pos n) = ltb n m
int_above (pos m) (negsuc n) = true
int_above (negsuc m) (pos n) = false
int_above (negsuc m) (negsuc n) = ltb m n

-- `s_lvlarr[mod]`
unfoldable pub level_at : ℤ → Log → Outcome ℤ
unfolding load
level_at (pos n) s = load s.lvlarr n
level_at (negsuc n) s = fault (undefined out_of_bounds)

unfoldable pub log_setlvl : ℕ → ℤ → Log → Outcome Log
unfolding store
log_setlvl which lvl s = store s.lvlarr which lvl >>= λ a. ok (record s { lvlarr = a })

unfoldable pub log_setlvl_all : ℤ → Log → Log
log_setlvl_all lvl s = record s { lvlarr = replicate (length s.lvlarr) lvl }

unfoldable pub log_getlvl : ℕ → Log → Outcome ℤ
unfolding level_at
log_getlvl which s = level_at (pos which) s

unfoldable pub log_setfancy : Bool → Log → Log
log_setfancy fancy s = record s { fancy = fancy }

unfoldable pub log_getfancy : Log → Bool
log_getfancy s = s.fancy

-- `strncpy` into 32 bytes, the last of which stays NUL
unfoldable pub log_set_ourname : Bytes → Log → Log
log_set_ourname name s = record s { ourname = take 31 name }

-- "call depth would be <0\n"
abbrev pub depth_text : Bytes
depth_text =
    99 ∷ 97 ∷ 108 ∷ 108 ∷ 32 ∷ 100 ∷ 101 ∷ 112 ∷ 116 ∷ 104 ∷ 32 ∷ 119 ∷ 111 ∷ 117 ∷ 108 ∷ 100 ∷ 32
    ∷ 98 ∷ 101 ∷ 32 ∷ 60 ∷ 48 ∷ 10 ∷ []

unfoldable pub log_tret : Log → Log
log_tret s =
    if s.calldepth == 0
    then record s { errout = s.errout ++ depth_text }
    else record s { calldepth = s.calldepth - 1 }

unfoldable pub log_tcall : Log → Outcome Log
log_tcall s =
    if ltb s.calldepth int_max
    then ok (record s { calldepth = s.calldepth + 1 })
    else fault (undefined int_overflow)
