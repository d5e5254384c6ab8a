-- ===== src/Ansiseq/Ends.antt =====
-- `ansiseq_eatone` never waits: nothing in it runs out of fuel or of answers.
use swh.Base.{
  ℕ, zero, suc, ◌+◌, ◌≢◌, leb, ◌==◌, none, some, List, [], ◌∷◌, arith, ℤ, fault, starved, bind_ends,
  if_ends, ok_ends, undefined_ends,
}
use swh.Memory.{Bytes, Block, store, strlen}
use swh.Ansiseq.Data.{
  max_osc_str_sz, Ansiseq, Statics, State, Token, Action, nop, begin, stor, mkctl, mkpar, mkstr,
  setcls, set_ext, sta,
}
use swh.Ansiseq.Actions.{push_arg, stor_arg, act_stor, act_mkctl, act_mkpar, act_mkstr, run_action}
use swh.Ansiseq.Table.{mktok, delta}
use swh.Ansiseq.Eat.{step, arrive, is_fin, eat, ansiseq_eatone}

store_ends : {A : Type 0} (xs : List A) (i : ℕ) (v : A) → store xs i v ≢ fault starved
unfolding store
store_ends xs i v = if_ends _ _ _ (ok_ends _) (undefined_ends _)

strlen_ends : (m : Block) → strlen m ≢ fault starved
unfolding strlen
strlen_ends [] h = cc h
strlen_ends (none ∷ m) h = cc h
strlen_ends (some zero ∷ m) h = cc h
strlen_ends (some (suc c) ∷ m) h = bind_ends (strlen m) _ (strlen_ends m) (λ n. ok_ends _) h

push_arg_ends : (v : ℤ) (q : Ansiseq) → push_arg v q ≢ fault starved
unfolding push_arg
push_arg_ends v q = bind_ends _ _ (store_ends q.argv q.argc v) (λ a. ok_ends _)

act_stor_ends : (c : ℕ) (s : Statics) → act_stor c s ≢ fault starved
unfolding act_stor stor_arg
act_stor_ends c s =
    bind_ends (stor_arg c s) _
      (if_ends (c == b';') _ _ (push_arg_ends _ s.curseq)
        (if_ends s.gotparm _ _ (push_arg_ends _ s.curseq) (ok_ends _)))
      (λ q. ok_ends _)

act_mkstr_ends : (c : ℕ) (s : Statics) → act_mkstr c s ≢ fault starved
unfolding act_mkstr
act_mkstr_ends c s = bind_ends _ _ (strlen_ends s.curseq.strarg) (λ n.
    if_ends (leb max_osc_str_sz (n + 1)) _ _ (ok_ends _)
      (bind_ends _ _ (store_ends s.curseq.strarg n (some c)) (λ b. ok_ends _)))

run_action_ends : (a : Action) (c : ℕ) (s : Statics) → run_action a c s ≢ fault starved
unfolding run_action act_mkctl act_mkpar
run_action_ends nop c s = ok_ends _
run_action_ends begin c s = ok_ends _
run_action_ends stor c s = act_stor_ends c s
run_action_ends mkctl c s =
    bind_ends _ _ (if_ends s.gotparm _ _ (act_stor_ends 0 s) (ok_ends _)) (λ x. ok_ends _)
run_action_ends mkpar c s = if_ends _ _ _ (ok_ends _) (undefined_ends _)
run_action_ends mkstr c s = act_mkstr_ends c s
run_action_ends setcls c s = ok_ends _
run_action_ends set_ext c s = ok_ends _

mktok_ends : (c : ℕ) → mktok c ≢ fault starved
unfolding mktok
mktok_ends c h = ground arith

delta_ends : (st : State) (t : Token) → delta st t ≢ fault starved
unfolding delta
delta_ends st t h = ground arith

arrive_ends : (st : State) (s : Statics) → arrive st s ≢ fault starved
unfolding arrive
arrive_ends st s h = ground arith

step_ends : (st : State) (c : ℕ) (s : Statics) → step st c s ≢ fault starved
unfolding step
step_ends st c s = bind_ends (mktok c) _ (mktok_ends c) (λ t.
    bind_ends (delta st t) _ (delta_ends st t) (λ tr.
      bind_ends (run_action tr.1 c s) _ (run_action_ends tr.1 c s) (λ x. arrive_ends tr.0 x)))

eat_ends : (st : State) (s : Statics) (i : ℕ) (cs : Bytes) → eat st s i cs ≢ fault starved
unfolding eat
eat_ends st s i [] = ok_ends _
eat_ends st s i (c ∷ cs) =
    bind_ends (step st c s) _ (step_ends st c s)
      (λ x. if_ends (is_fin x.0) _ _ (ok_ends _) (eat_ends x.0 x.1 (i + 1) cs))

pub eatone_ends : (s : Statics) (input : Bytes) → ansiseq_eatone s input ≢ fault starved
unfolding ansiseq_eatone
eatone_ends s input = bind_ends (eat sta s 0 input) _ (eat_ends sta s 0 input) (λ r. ok_ends _)
