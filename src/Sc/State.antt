-- ===== src/Sc/State.antt =====
-- The file-scope variables of src/sc.c, with the streams of the child process and the variables `W`
-- of the backend, on which the three machines work.
use swh.Base.{ℕ, Bool, true, false, ◌&&◌, not, ◌==◌, some, Outcome, ok, ◌>>=◌}
use swh.Memory.{Block, store}
use swh.Common.{Libc, xmalloc}
use swh.Common.Io.{System}
use swh.Fsm.{Fsm}
use swh.Hp.State.{Buf}
use swh.Back.{Backend, fsm_init_init, fsm_cmdout_init, fsm_inchar_init}

-- `s_state`: BUSY, READY, WRITING, OFFLINE
pub data Phase : Type 0 where
  busy ready writing offline : Phase

-- the three values of `s_curfsm`
pub data Machine : Type 0 where
  init cmdout inchar : Machine

pub record Sc (W : Type 0) : Type 0 where
  pub nodataflag : Bool
  pub state : Phase
  pub readbuf : Buf
  pub writebuf : Buf
  pub ps1buf : Buf
  pub outbuf : Buf
  pub fsm_init : Fsm W
  pub fsm_cmdout : Fsm W
  pub fsm_inchar : Fsm W
  pub curfsm : Machine
  pub back : W
  pub system : System

abbrev pub readbufsz : ℕ
readbufsz = 4096

abbrev pub outbufsz : ℕ
outbufsz = 4096

abbrev pub ps1bufsz : ℕ
ps1bufsz = 128

abbrev pub writebufsz : ℕ
writebufsz = 4096

-- `(buf = xmalloc(bufsz = n))[0] = '\0'`, with the count 0 of a static variable
unfoldable pub fresh : Libc → ℕ → Outcome Buf
unfolding xmalloc store
fresh libc n = do
  m ← xmalloc libc n
  m' ← store m 0 (some 0)
  ok (record { mem = m'; size = n; count = 0 })

abbrev pub is_ready : Phase → Bool
is_ready busy = false
is_ready ready = true
is_ready writing = false
is_ready offline = false

abbrev pub is_offline : Phase → Bool
is_offline busy = false
is_offline ready = false
is_offline writing = false
is_offline offline = true

-- what stands at a machine, of three
abbrev pub pick {ℓ} : {A : Type ℓ} → Machine → A → A → A → A
pick init a b c = a
pick cmdout a b c = b
pick inchar a b c = c

-- `s_curfsm == s_fsm_init`
abbrev pub is_init : Machine → Bool
is_init init = true
is_init cmdout = false
is_init inchar = false

module _ {W : Type 0} where
  -- `sc_init`, with what the attach functions give and the variables of the backend before it
  unfoldable pub sc_init : Libc → Outcome (Backend W) → W → System → Outcome (Backend W × Sc W)
  unfolding fresh
  sc_init libc attached w0 k = do
    rb ← fresh libc readbufsz
    wb ← fresh libc writebufsz
    pb ← fresh libc ps1bufsz
    ob ← fresh libc outbufsz
    b ← attached
    (i, w1) ← fsm_init_init b.init w0
    (c, w2) ← fsm_cmdout_init b.cmdout w1
    (h, w3) ← fsm_inchar_init b.inchar w2
    ok (
      b,
      record {
        nodataflag = false;
        state = busy;
        readbuf = rb;
        writebuf = wb;
        ps1buf = pb;
        outbuf = ob;
        fsm_init = i;
        fsm_cmdout = c;
        fsm_inchar = h;
        curfsm = init;
        back = w3;
        system = k;
      },
    )

  -- `*s_curfsm`
  abbrev pub current : Sc W → Fsm W
  current s = pick s.curfsm s.fsm_init s.fsm_cmdout s.fsm_inchar

  -- what a call on the machine leaves behind
  abbrev pub put : Machine → Fsm W → W → Sc W → Sc W
  put cur f w s = record s {
    fsm_init = pick cur f s.fsm_init s.fsm_init;
    fsm_cmdout = pick cur s.fsm_cmdout f s.fsm_cmdout;
    fsm_inchar = pick cur s.fsm_inchar s.fsm_inchar f;
    back = w;
  }

  unfoldable pub sc_ready : Sc W → Bool
  sc_ready s = is_ready s.state

  unfoldable pub sc_offline : Sc W → Bool
  sc_offline s = is_offline s.state

  unfoldable pub sc_busy : Sc W → Bool
  unfolding sc_ready sc_offline
  sc_busy s = not (sc_ready s) && not (sc_offline s)

  unfoldable pub sc_hasreply : Sc W → Bool
  sc_hasreply s = not (s.outbuf.count == 0)

  unfoldable pub sc_getreply : Sc W → Block
  sc_getreply s = s.outbuf.mem

  unfoldable pub sc_getps1 : Sc W → Block
  sc_getps1 s = s.ps1buf.mem
