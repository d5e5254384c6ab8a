-- ===== src/Ansiseq/Actions.antt =====
-- The actions of src/back/ansiseq.c. What C leaves undefined is a fault: a parameter stored behind
-- the end of `argv`, and a parameter that passes INT_MAX.
use swh.Base.{
  ℕ, ◌+◌, ◌-◌, ◌*◌, true, false, some, leb, ◌==◌, if◌then◌else◌, ℤ, pos, int_max, Outcome, ok,
  fault, undefined, int_overflow, ◌>>=◌,
}
use swh.Memory.{store, strlen}
use swh.Ansiseq.Data.{
  Ansiseq, Statics, max_osc_str_sz, absent, Action, nop, begin, stor, mkctl, mkpar, mkstr, setcls,
  set_ext,
}

unfoldable pub act_begin : Statics → Statics
act_begin s = record s { curseq = s.protoseq; gotparm = false; parmv = 0 }

-- `s_curseq.argv[s_curseq.argc++] = v`
unfoldable pub push_arg : ℤ → Ansiseq → Outcome Ansiseq
push_arg v q = store q.argv q.argc v >>= λ a. ok (record q { argv = a; argc = q.argc + 1 })

unfoldable pub stor_arg : ℕ → Statics → Outcome Ansiseq
unfolding push_arg
stor_arg c s =
    if c == b';'
    then push_arg (if s.gotparm then pos s.parmv else absent) s.curseq
    else if s.gotparm
    then push_arg (pos s.parmv) s.curseq
    else ok s.curseq

unfoldable pub act_stor : ℕ → Statics → Outcome Statics
unfolding stor_arg
act_stor c s = stor_arg c s >>= λ q. ok (record s { curseq = q; parmv = 0; gotparm = false })

unfoldable pub act_mkctl : ℕ → Statics → Outcome Statics
unfolding act_stor
act_mkctl c s = do
  s' ← (if s.gotparm then act_stor 0 s else ok s)
  ok (record s' { curseq = record (s'.curseq) { cmd = c } })

-- A signed overflow is undefined.
unfoldable pub act_mkpar : ℕ → Statics → Outcome Statics
act_mkpar c s =
    let v = s.parmv * 10 + (c - b'0') in
    if leb v int_max
    then ok (record s { parmv = v; gotparm = true })
    else fault (undefined int_overflow)

-- A string that fills the array is cut off, with a warning.
unfoldable pub act_mkstr : ℕ → Statics → Outcome Statics
act_mkstr c s = do
  len ← strlen s.curseq.strarg
  (if leb max_osc_str_sz (len + 1)
      then ok s
      else (store s.curseq.strarg len (some c) >>= λ b.
          ok (record s { curseq = record (s.curseq) { strarg = b } })))

unfoldable pub run_action : Action → ℕ → Statics → Outcome Statics
unfolding act_begin act_stor act_mkctl act_mkpar act_mkstr
run_action nop c s = ok s
run_action begin c s = ok (act_begin s)
run_action stor c s = act_stor c s
run_action mkctl c s = act_mkctl c s
run_action mkpar c s = act_mkpar c s
run_action mkstr c s = act_mkstr c s
run_action setcls c s = ok (record s { curseq = record (s.curseq) { cls = c } })
run_action set_ext c s = ok (record s { curseq = record (s.curseq) { ext = true } })
