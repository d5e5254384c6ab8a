-- ===== src/Log/Tracing.antt =====
-- Calls of the macros of src/common/log.h with those for tracing nested in each other.
use swh.Base.{
  length-take, ℕ, zero, suc, ◌+◌, ◌≤◌, ◌<◌, ◌≡◌, inl, inr, ◌==◌, take, Bool-cases, ne→not-==,
  lt→ltb, int_max, refl, ap, ◌∙◌, ℤ, pos, Bool, true, false, Option, none, some, ◌-◌, List, [], ◌∷◌,
  length, if◌then◌else◌, arith, Outcome, ok, ◌>>=◌,
}
use swh.Memory.{Bytes, load}
use swh.Log.{
  Log, log_err, log_warning, log_notice, log_info, log_debug, log_vivi, log_hex, log_trace,
  int_same, int_above, level_at, log_tcall, log_tret,
}
use swh.Log.Arrays.{in_array_returns}
use swh.Log.Line.{Call, errmsg, log_message, pad_text, shown, tidy}
use swh.Log.Padding.{pad_text-blanks}
use swh.Log.Environment.{Environment, log_log}
use swh.Log.Macros.{
  call, Site, log_h, log_v, log_ve, log_d, log_de, log_i, log_ie, log_n, log_ne, log_w, log_we,
  log_e, log_ee, log_t, log_tc, log_tr, logged,
}

-- the macros that leave the depth alone
pub data Macro : Type 0 where
  hex vivi vivi_errno debug debug_errno info info_errno notice notice_errno warning warning_errno
        err err_errno trace :
      Macro

-- messages, and calls with what is logged between TC and TR
pub data Trace : Type 0 where
  done : Trace
  message : Macro → Site → Trace → Trace
  called : Site → Trace → Site → Trace → Trace

-- All modules are below a bound, and calls nest no deeper than 127, given the depth at the start.
abbrev pub Within : ℕ → ℕ → Trace → Type 0
Within k depth done = Unit
Within k depth (message m p r) = (p.log_mod < k) × Within k depth r
Within k depth (called p a q r) =
    (depth < 127) × (p.log_mod < k) × (q.log_mod < k) × Within k (suc depth) a × Within k depth r

module _ (names : List Bytes) (env : Environment) where
  abbrev pub expand : Macro → Site → Log → Outcome Log
  expand hex = log_h names env
  expand vivi = log_v names env
  expand vivi_errno = log_ve names env
  expand debug = log_d names env
  expand debug_errno = log_de names env
  expand info = log_i names env
  expand info_errno = log_ie names env
  expand notice = log_n names env
  expand notice_errno = log_ne names env
  expand warning = log_w names env
  expand warning_errno = log_we names env
  expand err = log_e names env
  expand err_errno = log_ee names env
  expand trace = log_t names env

  unfoldable pub run : Trace → Log → Outcome Log
  unfolding log_tc log_tr
  run done s = ok s
  run (message m p r) s = expand m p s >>= run r
  run (called p a q r) s = do
    s1 ← log_tc names env p s
    s2 ← run a s1
    s3 ← log_tr names env q s2
    run r s3

-- The log has got nothing but text.
abbrev pub Logs : Outcome Log → Log → Type 0
Logs m s = (xs : Bytes) × (m ≡ ok (record s { errout = xs }))

load-some : (n : ℕ) (xs : List ℤ) → n < length xs → (l : ℤ) × (load xs n ≡ ok l)
unfolding load
load-some n [] h = absurd (ground arith)
load-some zero (x ∷ xs) h = (x, refl)
load-some (suc n) (x ∷ xs) h = load-some n xs (omega arith)

pad_text-other :
    (lvl : ℤ) (depth : ℕ) → int_same lvl (pos log_trace) ≡ false → pad_text lvl depth ≡ ok []
unfolding pad_text
pad_text-other lvl depth h = rw h refl

trace-same : (lvl : ℕ) → (lvl == log_trace) ≡ true → lvl ≡ log_trace
trace-same lvl e = ground arith

pad_text-returns : (lvl depth : ℕ) → depth ≤ 127 → (xs : Bytes) × (pad_text (pos lvl) depth ≡ ok xs)
pad_text-returns lvl depth h = elim (Bool-cases (lvl == log_trace)) [
  | inl e ↦ (
    _,
    ap (λ l. pad_text (pos l) depth) (trace-same lvl e)
        ∙ pad_text-blanks depth (omega arith) (omega arith),
  )
  | inr e ↦ ([], pad_text-other (pos lvl) depth e)
]

errmsg_returns : (error : Option Bytes) → (err : Bytes) × (errmsg error ≡ ok err)
unfolding errmsg
errmsg_returns none = in_array_returns 256 [] (omega arith)
errmsg_returns (some e) =
    in_array_returns 256 (58 ∷ 32 ∷ take 253 e) (omega (arith, length-take 253 e))

message-steps :
    (k lvl : ℕ) (error : Option Bytes) (p : Site) (s : Log) (l : ℤ) (msg pad : Bytes)
    → level_at (pos k) s ≡ ok l
    → errmsg error ≡ ok msg
    → pad_text (pos lvl) s.calldepth ≡ ok pad
    → log_message (call (pos k) (pos lvl) error p) s ≡ (
        if int_above (pos lvl) l
        then ok s
        else ok (shown (call (pos k) (pos lvl) error p) s pad (tidy (take 4095 p.text)) msg))
unfolding log_message
message-steps k lvl error p s l msg pad g f h = rw (g, f, h) refl

if-true : (b : Bool) (m n : Outcome Log) → b ≡ true → (if b then m else n) ≡ m
if-true true m n h = refl
if-true false m n h = absurd (ground arith)

if-Logs :
    (b : Bool) (s : Log) (ys : Bytes) → Logs (if b then ok s else ok (record s { errout = ys })) s
if-Logs true s ys = (s.errout, refl)
if-Logs false s ys = (ys, refl)

message-Logs :
    (k lvl : ℕ) (error : Option Bytes) (p : Site) (s : Log)
    → k < length s.lvlarr
    → s.calldepth ≤ 127
    → Logs (log_message (call (pos k) (pos lvl) error p) s) s
unfolding level_at
message-Logs k lvl error p s h b =
    let (l, g) = load-some k s.lvlarr h in
    let (pad, r) = pad_text-returns lvl s.calldepth b in
    let (msg, f) = errmsg_returns error in
    let (ys, q) = if-Logs (int_above (pos lvl) l) s _ in
    (ys, message-steps k lvl error p s l msg pad g f r ∙ q)

tcall_lem :
    (s : Log) → s.calldepth ≤ 127 → log_tcall s ≡ ok (record s { calldepth = suc s.calldepth })
unfolding log_tcall
tcall_lem s b =
    let up : s.calldepth + 1 ≡ suc s.calldepth = omega arith in
    rw (lt→ltb s.calldepth int_max (omega arith), up) refl

tret_lem : (s : Log) (d : ℕ) → s.calldepth ≡ suc d → log_tret s ≡ record s { calldepth = d }
unfolding log_tret
tret_lem s d e =
    let down : suc d - 1 ≡ d = omega arith in rw (e, down, ne→not-== (suc d) 0 (omega arith)) refl

module _ (names : List Bytes) (env : Environment) where
  log_log-ready : (c : Call) (s : Log) → s.ready ≡ true → log_log names env c s ≡ log_message c s
  unfolding log_log
  log_log-ready c s r = if-true s.ready _ _ r

  logged-Logs :
      (lvl : ℕ) (error : Option Bytes) (p : Site) (s : Log)
      → s.ready ≡ true
      → p.log_mod < length s.lvlarr
      → s.calldepth ≤ 127
      → Logs (logged names env lvl error p s) s
  logged-Logs lvl error p s r h b =
      let (ys, q) = message-Logs p.log_mod lvl error p s h b in
      (ys, log_log-ready (call (pos p.log_mod) (pos lvl) error p) s r ∙ q)

  expand-Logs :
      (m : Macro) (p : Site) (s : Log)
      → s.ready ≡ true
      → p.log_mod < length s.lvlarr
      → s.calldepth ≤ 127
      → Logs (expand names env m p s) s
  unfolding log_h log_v log_ve log_d log_de log_i log_ie log_n log_ne log_w log_we log_e log_ee
      log_t
  expand-Logs hex p = logged-Logs log_hex none p
  expand-Logs vivi p = logged-Logs log_vivi none p
  expand-Logs vivi_errno p = logged-Logs log_vivi (some p.errno) p
  expand-Logs debug p = logged-Logs log_debug none p
  expand-Logs debug_errno p = logged-Logs log_debug (some p.errno) p
  expand-Logs info p = logged-Logs log_info none p
  expand-Logs info_errno p = logged-Logs log_info (some p.errno) p
  expand-Logs notice p = logged-Logs log_notice none p
  expand-Logs notice_errno p = logged-Logs log_notice (some p.errno) p
  expand-Logs warning p = logged-Logs log_warning none p
  expand-Logs warning_errno p = logged-Logs log_warning (some p.errno) p
  expand-Logs err p = logged-Logs log_err none p
  expand-Logs err_errno p = logged-Logs log_err (some p.errno) p
  expand-Logs trace p = logged-Logs log_trace none p

  tc-steps :
      (p : Site) (s : Log) {s' : Log}
      → logged names env log_trace none p s ≡ ok s'
      → log_tc names env p s ≡ log_tcall s'
  unfolding log_tc
  tc-steps p s e = rw e refl

  tr-steps :
      (p : Site) (s : Log) → log_tr names env p s ≡ logged names env log_trace none p (log_tret s)
  unfolding log_tr
  tr-steps p s = refl

  -- The log is ready; messages of any of the macros that leave the depth alone are logged, and TC
  -- and TR with messages and further calls between them, each in a module that has a level; from
  -- the depth at the start on, they nest no deeper than 127. Then all of it returns, without an
  -- access outside of an array, and nothing but the text written has changed: the call depth is
  -- what it was.
  pub run-Logs :
      (t : Trace) (s : Log)
      → s.ready ≡ true
      → s.calldepth ≤ 127
      → Within (length s.lvlarr) s.calldepth t
      → Logs (run names env t s) s
  unfolding run
  run-Logs done s r b w = (s.errout, refl)
  run-Logs (message m p t) s r b (h, w) =
      let (xs, e) = expand-Logs m p s r h b in
      let (ys, f) = run-Logs t (record s { errout = xs }) r b w in (ys, rw e f)
  run-Logs (called p a q t) s r b (l, h, h', w, w') =
      let (xs, e) = logged-Logs log_trace none p s r h b in
      let e1 = tc-steps p s e ∙ tcall_lem (record s { errout = xs }) b in
      let (ys, f) =
        run-Logs a (record s { calldepth = suc s.calldepth; errout = xs }) r (omega arith) w in
      let (zs, g) = logged-Logs log_trace none q (record s { errout = ys }) r h' b in
      let g1 =
        tr-steps q (record s { calldepth = suc s.calldepth; errout = ys })
        ∙ ap (logged names env log_trace none q)
            (tret_lem (record s { calldepth = suc s.calldepth; errout = ys }) s.calldepth refl)
        ∙ g in
      let (us, k) = run-Logs t (record s { errout = zs }) r b w' in (us, rw (e1, f, g1) k)
