-- ===== src/Hp/Ends.antt =====
-- The tokenizer of src/back/hp/common_hp.c and the actions of src/back/hp/inchar.c never wait.
use swh.Base.{
  ℕ, ltb, ◌==◌, ◌≢◌, ◌∷◌, [], some, int_max, fault, starved, bind_ends, if_ends, ok_ends,
}
use swh.Memory.{Bytes}
use swh.Ansiseq.Eat.{ansiseq_eatone}
use swh.Ansiseq.Ends.{eatone_ends}
use swh.Fsm.{byte}
use swh.Fsm.Ends.{Proceeds, Acts, Acts-load}
use swh.Hp.State.{Hp}
use swh.Hp.Tokens.{mktok}
use swh.Hp.Tokenizer.{mktok-IsTokenizer}
use swh.Hp.Inchar.{delta, act_nop}

mktok_ends : (c : ℕ) (cs : Bytes) (w : Hp) → mktok (some (c ∷ cs)) 1 w ≢ fault starved
unfolding mktok
mktok_ends c cs w =
    if_ends (ltb 255 c) _ _ (λ h. cc h)
      (if_ends (c == 0o33) _ _
        (bind_ends (ansiseq_eatone w.ansi (c ∷ cs)) _ (eatone_ends w.ansi (c ∷ cs))
          (λ e. ok_ends _))
        (ok_ends _))

nop_ends : (c : ℕ) (w : Hp) → act_nop (byte c) w ≢ fault starved
unfolding act_nop
nop_ends c w = ok_ends w

-- Every action of the table does nothing.
delta-Acts : Acts delta
unfolding delta
delta-Acts =
    let n : (c : ℕ) (w : Hp) → act_nop (byte c) w ≢ fault starved = nop_ends in
    (n, (n, (n, (n, (n, (n, (n, (n, (n, (n, (n, (n, (n, (n, (n, (n, (n, (n, tt))))))))))))))))))

pub inchar-Proceeds : Proceeds int_max mktok delta
inchar-Proceeds = record {
  some_bytes = λ c cs w b p. let (lo, hi, _) = mktok-IsTokenizer.whole c cs [] w b p in (lo, hi);
  tokenizes = mktok_ends;
  acts = λ i h c w. Acts-load delta i delta-Acts h c w;
}
