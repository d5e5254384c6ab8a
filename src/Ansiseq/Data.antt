-- ===== src/Ansiseq/Data.antt =====
-- src/back/ansiseq.h and the definitions at the top of src/back/ansiseq.c. The file-scope
-- variables `s_protoseq`, `s_curseq`, `s_parmv` and `s_gotparm` are the record `Statics`.
use swh.Base.{ℕ, Bool, false, some, List, replicate, ℤ, pos, negsuc}
use swh.Memory.{Block}

abbrev pub max_ansiseq_params : ℕ
max_ansiseq_params = 8

abbrev pub max_osc_str_sz : ℕ
max_osc_str_sz = 256

-- INT_MIN
abbrev pub absent : ℤ
absent = negsuc 2147483647

pub record Ansiseq : Type 0 where
  pub cls : ℕ
  pub cmd : ℕ
  pub strarg : Block
  pub ext : Bool
  pub argv : List ℤ
  pub argc : ℕ

pub record Statics : Type 0 where
  pub protoseq : Ansiseq
  pub curseq : Ansiseq
  -- an `int` that is never negative
  pub parmv : ℕ
  pub gotparm : Bool

-- Static storage starts as zeros.
unfoldable pub zero_seq : Ansiseq
zero_seq = record {
  cls = 0;
  cmd = 0;
  strarg = replicate max_osc_str_sz (some 0);
  ext = false;
  argv = replicate max_ansiseq_params (pos 0);
  argc = 0;
}

abbrev pub start : Statics
start = record { protoseq = zero_seq; curseq = zero_seq; parmv = 0; gotparm = false }

unfoldable pub ansiseq_init : Statics → Statics
ansiseq_init s = record s {
  protoseq = record (s.protoseq) { argv = replicate max_ansiseq_params absent };
}

pub data State : Type 0 where
  sta esc csi sqc pph fin err : State

pub data Token : Type 0 where
  escp cchr ndig bell strm hash oprn cprn osqb csqb qmrk smcl rest : Token

pub data Action : Type 0 where
  nop begin stor mkctl mkpar mkstr setcls set_ext : Action
