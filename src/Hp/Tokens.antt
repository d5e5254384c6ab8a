-- ===== src/Hp/Tokens.antt =====
-- src/back/hp/common_hp.c: the tokenizer of the three machines. An escape sequence is one token,
-- and so is any other byte.
use swh.Base.{
  ℕ, zero, suc, ℤ, pos, negsuc, size_of_int, ◌∷◌, [], Option, none, some, ltb, ◌==◌, if◌then◌else◌,
  Outcome, ok, fault, critical, undefined, out_of_bounds, char_out_of_range, ◌>>=◌,
}
use swh.Memory.{Bytes}
use swh.Ansiseq.Eat.{ansiseq_eatone}
use swh.Hp.State.{Hp}

abbrev pub t_eseq : ℕ
t_eseq = 0

abbrev pub t_rest : ℕ
t_rest = 1

abbrev pub t_eof : ℕ
t_eof = 2

abbrev pub num_tokens : ℕ
num_tokens = 3

-- what follows the call of `ansiseq_eatone`: `if (r == -1)`, and `*toklen = r`, which makes a `size_t`
-- of an `int`
unfoldable pub eseq_tok : ℕ → ℕ → ℤ → Option ℕ × ℕ
eseq_tok eseq toklen (pos n) = (some eseq, n)
eseq_tok eseq toklen (negsuc zero) = (none, toklen)
eseq_tok eseq toklen (negsuc (suc n)) = (some eseq, size_of_int (negsuc (suc n)))

unfoldable pub fsm_hp_mktok : ℕ → ℕ → ℕ → Option Bytes → ℕ → Hp → Outcome (Option ℕ × ℕ × Hp)
unfolding eseq_tok
fsm_hp_mktok eseq rest eof none toklen w = ok (some eof, toklen, w)
fsm_hp_mktok eseq rest eof (some []) toklen w = fault (undefined out_of_bounds)
fsm_hp_mktok eseq rest eof (some (c ∷ cs)) toklen w =
    if ltb 255 c
    then fault (critical char_out_of_range)
    else if c == 0o33
    then (do
      e ← ansiseq_eatone w.ansi (c ∷ cs)
      let (t, n) = eseq_tok eseq toklen e.consumed
      ok (t, n, record w { ansi = e.statics }))
    else ok (some rest, 1, w)

-- `mktok` of the three files
unfoldable pub mktok : Option Bytes → ℕ → Hp → Outcome (Option ℕ × ℕ × Hp)
unfolding fsm_hp_mktok
mktok = fsm_hp_mktok t_eseq t_rest t_eof
