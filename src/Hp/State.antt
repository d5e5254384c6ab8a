-- ===== src/Hp/State.antt =====
-- The file-scope variables of src/back/hp/fsm_init_hp.c and src/back/hp/fsm_cmdout_hp.c, with those
-- of src/back/ansiseq.c: the state that the tokenizers and the actions share.
use swh.Base.{ℕ, Bool, false, []}
use swh.Memory.{Block}
use swh.Ansiseq.Data.{Statics, start}

-- a buffer that grows: the block, its size, and the bytes in use (`s_outbuf`, `s_outbufsz`,
-- `s_outbufcnt`)
pub record Buf : Type 0 where
  pub mem : Block
  pub size : ℕ
  pub count : ℕ

-- a pointer that is NULL and numbers that are 0
abbrev pub no_buf : Buf
no_buf = record { mem = []; size = 0; count = 0 }

pub record InitVars : Type 0 where
  pub ps1buf : Buf
  pub anykey : Bool
  pub report : Bool

pub record CmdoutVars : Type 0 where
  pub outbuf : Buf
  pub ps1buf : Buf

pub record Hp : Type 0 where
  pub ansi : Statics
  pub init : InitVars
  pub cmdout : CmdoutVars

-- before the process has run anything
abbrev pub initial : Hp
initial = record {
  ansi = start;
  init = record { ps1buf = no_buf; anykey = false; report = false };
  cmdout = record { outbuf = no_buf; ps1buf = no_buf };
}
