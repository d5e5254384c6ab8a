-- ===== src/Ansiseq/Terminator.antt =====
-- The token of src/back/ansiseq.c for the byte that ends a string sequence.
use swh.Base.{
  ℕ, ◌≢◌, Bool, true, false, arith, if◌then◌else◌, Outcome, ok, fault, critical, char_out_of_range,
  ltb, ◌==◌,
}
use swh.Ansiseq.Data.{
  Token, escp, cchr, ndig, bell, strm, hash, oprn, cprn, osqb, csqb, qmrk, smcl, rest,
}
use swh.Ansiseq.Table.{is_digit, is_cchr, switch_tok, mktok}

-- A choice between two tokens that are not T_STRM is none.
either_token : (t : Bool) (a b : Token) → a ≢ strm → b ≢ strm → (if t then a else b) ≢ strm
either_token true a b h k = h
either_token false a b h k = k

either_outcome :
    (t : Bool) (a b : Outcome Token) → a ≢ ok strm → b ≢ ok strm → (if t then a else b) ≢ ok strm
either_outcome true a b h k = h
either_outcome false a b h k = k

switch_tok-strm : (c : ℕ) → switch_tok c ≢ strm
unfolding switch_tok
switch_tok-strm c = either_token _ escp _ (ground arith) (
    either_token _ bell _ (ground arith) (
      either_token _ hash _ (ground arith) (
        either_token _ oprn _ (ground arith) (
          either_token _ cprn _ (ground arith) (
            either_token _ osqb _ (ground arith) (
              either_token _ csqb _ (ground arith) (
                either_token _ qmrk _ (ground arith)
                  (either_token _ smcl rest (ground arith) (ground arith)))))))))

-- The tokenizer of ansiseq.c gives the token T_STRM for no byte at all.
pub mktok-strm : (c : ℕ) → mktok c ≢ ok strm
unfolding mktok
mktok-strm c = either_outcome (ltb 255 c) (fault (critical char_out_of_range)) _ (ground arith) (
    either_outcome (c == 0) (ok rest) _ (ground arith) (
      either_outcome (is_digit c) (ok ndig) _ (ground arith) (
        either_outcome (is_cchr c) (ok cchr) (ok (switch_tok c)) (ground arith)
          (λ e. switch_tok-strm c (ground (arith, e))))))
