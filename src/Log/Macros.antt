-- ===== src/Log/Macros.antt =====
-- The macros of src/common/log.h, without NOTRACE. A place in the code is `LOG_MOD`, `__FILE__`,
-- `__LINE__` and `__func__`, with the text that the C library makes of the format and its arguments, the
-- text of `errno`, and that of the time.
use swh.Base.{
  ℕ, ℤ, pos, negsuc, Option, none, some, ◌++◌, List, [], ◌∷◌, Bool, true, false, Outcome, ok, ◌>>=◌,
}
use swh.Memory.{Bytes}
use swh.Log.{
  Log, log_crit, log_err, log_warning, log_notice, log_info, log_debug, log_vivi, log_hex,
  log_trace, int_min, log_tret, log_tcall,
}
use swh.Log.Line.{Call}
use swh.Log.Environment.{Environment, log_log}

pub record Site : Type 0 where
  pub log_mod : ℕ
  pub file : Bytes
  pub line : ℕ
  pub func : Bytes
  pub text : Bytes
  pub errno : Bytes
  pub time : Option Bytes

abbrev pub call : ℤ → ℤ → Option Bytes → Site → Call
call which lvl error p = record {
  of_module = which;
  lvl = lvl;
  error = error;
  file = p.file;
  line = p.line;
  func = p.func;
  text = p.text;
  time = p.time;
}

-- the end of the process: what was logged, the code, and whether a child was made to dump core
pub record Exit : Type 0 where
  pub log : Log
  pub code : ℕ
  pub dumped : Bool

-- "dumping core\n"
abbrev dump_text : Bytes
dump_text = 100 ∷ 117 ∷ 109 ∷ 112 ∷ 105 ∷ 110 ∷ 103 ∷ 32 ∷ 99 ∷ 111 ∷ 114 ∷ 101 ∷ 10 ∷ []

-- `COREDUMP`, in the parent
unfoldable pub coredump : Log → Log
coredump s = record s { errout = s.errout ++ dump_text }

-- the table of names and the environment are those of `log_init`
module _ (names : List Bytes) (env : Environment) where
  abbrev pub logged : ℕ → Option Bytes → Site → Log → Outcome Log
  logged lvl error p = log_log names env (call (pos p.log_mod) (pos lvl) error p)

  unfoldable pub log_h : Site → Log → Outcome Log
  unfolding log_log
  log_h p = logged log_hex none p

  unfoldable pub log_v : Site → Log → Outcome Log
  unfolding log_log
  log_v p = logged log_vivi none p

  unfoldable pub log_ve : Site → Log → Outcome Log
  unfolding log_log
  log_ve p = logged log_vivi (some p.errno) p

  unfoldable pub log_d : Site → Log → Outcome Log
  unfolding log_log
  log_d p = logged log_debug none p

  unfoldable pub log_de : Site → Log → Outcome Log
  unfolding log_log
  log_de p = logged log_debug (some p.errno) p

  unfoldable pub log_i : Site → Log → Outcome Log
  unfolding log_log
  log_i p = logged log_info none p

  unfoldable pub log_ie : Site → Log → Outcome Log
  unfolding log_log
  log_ie p = logged log_info (some p.errno) p

  unfoldable pub log_n : Site → Log → Outcome Log
  unfolding log_log
  log_n p = logged log_notice none p

  unfoldable pub log_ne : Site → Log → Outcome Log
  unfolding log_log
  log_ne p = logged log_notice (some p.errno) p

  unfoldable pub log_w : Site → Log → Outcome Log
  unfolding log_log
  log_w p = logged log_warning none p

  unfoldable pub log_we : Site → Log → Outcome Log
  unfolding log_log
  log_we p = logged log_warning (some p.errno) p

  unfoldable pub log_e : Site → Log → Outcome Log
  unfolding log_log
  log_e p = logged log_err none p

  unfoldable pub log_ee : Site → Log → Outcome Log
  unfolding log_log
  log_ee p = logged log_err (some p.errno) p

  unfoldable pub log_cn : Site → Log → Outcome Exit
  unfolding log_log
  log_cn p s = logged log_crit none p s >>= λ s'. ok (record { log = s'; code = 1; dumped = false })

  unfoldable pub log_cne : Site → Log → Outcome Exit
  unfolding log_log
  log_cne p s = logged log_crit (some p.errno) p s >>= λ s'.
      ok (record { log = s'; code = 1; dumped = false })

  unfoldable pub log_c : Site → Log → Outcome Exit
  unfolding log_log coredump
  log_c p s =
      logged log_crit none p s >>= λ s'. ok (record { log = coredump s'; code = 1; dumped = true })

  unfoldable pub log_ce : Site → Log → Outcome Exit
  unfolding log_log coredump
  log_ce p s = logged log_crit (some p.errno) p s >>= λ s'.
      ok (record { log = coredump s'; code = 1; dumped = true })

  unfoldable pub log_a : Site → Log → Outcome Log
  unfolding log_log
  log_a p = log_log names env (call (negsuc 0) int_min none p)

  unfoldable pub log_t : Site → Log → Outcome Log
  unfolding log_log
  log_t p = logged log_trace none p

  unfoldable pub log_tc : Site → Log → Outcome Log
  unfolding log_log log_tcall
  log_tc p s = logged log_trace none p s >>= log_tcall

  unfoldable pub log_tr : Site → Log → Outcome Log
  unfolding log_log log_tret
  log_tr p s = logged log_trace none p (log_tret s)
