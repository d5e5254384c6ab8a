-- ===== src/Sc/Operate.antt =====
-- The operations of src/sc.c that change its state.
use swh.Base.{
  ℕ, Bool, true, false, Option, none, some, [], ◌∷◌, map, length, ◌+◌, ◌-◌, ◌*◌, ◌%◌, ◌==◌, ◌||◌,
  not, if◌then◌else◌, Outcome, ok, fault, critical, Message, undefined, uninitialised,
  operate_ready, operate_offline, write_not_ready, writebuf_not_empty, no_newline, fsm_error_state,
  meh, outbuf_not_empty, ◌>>=◌,
}
use swh.Memory.{Bytes, Block, store, load, strlen}
use swh.Common.{Libc, size_mod, memcpy, slice, shiftbuf, growbuf}
use swh.Common.Io.{System, xread, xwrite}
use swh.Fsm.{null, input, fsm_feed, fsm_reset, fsm_error}
use swh.Hp.State.{Buf}
use swh.Back.{
  Backend, fsm_init_anykey, fsm_init_report, fsm_init_ps1buf, fsm_cmdout_ps1buf, fsm_cmdout_outbuf,
}
use swh.Sc.State.{
  Phase, busy, ready, writing, offline, cmdout, inchar, Sc, current, put, pick, is_init, sc_ready,
}

-- `growbuf(&buf, &bufsz, n)`
unfoldable pub grow : Libc → ℕ → Buf → Outcome Buf
unfolding growbuf
grow libc n b = growbuf libc b.mem b.size n >>= λ (m, z). ok (record b { mem = m; size = z })

-- `if (!cond) C(...)`
abbrev pub require : Bool → Message → Outcome Bool
require cond m = if cond then ok true else fault (critical m)

-- a byte that has been written
unfoldable pub byte_of : Option ℕ → Outcome ℕ
byte_of none = fault (undefined uninitialised)
byte_of (some c) = ok c

unfoldable pub bytes_of : Block → Outcome Bytes
unfolding byte_of
bytes_of [] = ok []
bytes_of (c ∷ m) = byte_of c >>= λ x. bytes_of m >>= λ xs. ok (x ∷ xs)

-- `growbuf`, `memcpy` and the terminator: the buffer becomes a copy of the C string `out`
unfoldable pub copy_string : Libc → Block → Buf → Outcome Buf
unfolding grow strlen slice memcpy store
copy_string libc out b = do
  len ← strlen out
  b' ← grow libc (len + 1) b
  xs ← slice out 0 len
  m ← memcpy b'.mem 0 xs
  m' ← store m len (some 0)
  ok (record b' { mem = m'; count = len })

-- `const char *out = "";`
abbrev pub empty_string : Block
empty_string = some 0 ∷ []

-- "x" and "\033[9999;130R"
abbrev pub key_text : Bytes
key_text = 120 ∷ []

abbrev pub report_text : Bytes
report_text = 27 ∷ 91 ∷ 57 ∷ 57 ∷ 57 ∷ 57 ∷ 59 ∷ 49 ∷ 51 ∷ 48 ∷ 82 ∷ []

unfoldable pub grow_full : Libc → Buf → Outcome Buf
unfolding grow
grow_full libc b =
    if (b.size + size_mod - b.count) % size_mod == 0
    then grow libc (b.size * 2 % size_mod) b
    else ok b

-- what is read is put behind the bytes in use
unfoldable pub received : Option Bytes → Buf → Outcome (ℕ × Buf)
unfolding memcpy
received none b = ok (0, b)
received (some xs) b = do
  m ← memcpy b.mem b.count (map some xs)
  ok (length xs, record b { mem = m; count = (b.count + length xs) % size_mod })

-- a write of the client's, if a flag is set
unfoldable pub answer : Bool → Bytes → System → Outcome System
unfolding xwrite
answer wanted xs k = if wanted then xwrite xs k else ok k

-- `switch (s_state)`
abbrev pub by_state {ℓ} : {A : Type ℓ} → Phase → A → A → A → A → A
by_state busy a b c d = a
by_state ready a b c d = b
by_state writing a b c d = c
by_state offline a b c d = d

module _ {W : Type 0} where
  unfoldable pub read_more : Libc → Sc W → Outcome (ℕ × Sc W)
  unfolding grow_full xread received
  read_more libc s = do
    b ← grow_full libc s.readbuf
    (r, as') ← xread s.system.reads
    (n, b') ← received r b
    ok (n, record s { readbuf = b'; system = record (s.system) { reads = as' } })

  unfoldable pub sc_write : Libc → Block → ℕ → Sc W → Outcome (Sc W)
  unfolding sc_ready grow slice memcpy store
  sc_write libc str len s = do
    _ ← require (sc_ready s) write_not_ready
    _ ← require (s.writebuf.count == 0) writebuf_not_empty
    b ← grow libc (s.writebuf.count + len + 1) s.writebuf
    xs ← slice str 0 len
    m ← memcpy b.mem b.count xs
    m' ← store m (b.count + len) (some 0)
    o ← store s.outbuf.mem 0 (some 0)
    ok (record s {
      writebuf = record b { mem = m'; count = b.count + len };
      state = writing;
      outbuf = record (s.outbuf) { mem = o; count = 0 };
    })

  unfoldable pub oper_writing : Sc W → Outcome (ℕ × Sc W)
  unfolding load byte_of xwrite shiftbuf fsm_reset
  oper_writing s = do
    _ ← require (not (s.writebuf.count == 0)) no_newline
    cell ← load s.writebuf.mem 0
    c ← byte_of cell
    k ← xwrite (c ∷ []) s.system
    (m, n) ← shiftbuf s.writebuf.mem s.writebuf.count 1
    let cur = if c == 10 then cmdout else inchar
    let s1 = record s {
      system = k;
      writebuf = record (s.writebuf) { mem = m; count = n };
      curfsm = cur;
    }
    (f, w) ← fsm_reset (current s1) s1.back
    ok (1, record (put cur f w s1) { state = busy })

  -- the answers to what the first machine has seen
  unfoldable pub respond : Backend W → Sc W → Outcome (Sc W)
  unfolding answer
  respond b s =
      if is_init s.curfsm
      then (do
        let (key, w1) = fsm_init_anykey b.init s.back
        k1 ← answer key key_text s.system
        let (rep, w2) = fsm_init_report b.init w1
        k2 ← answer rep report_text k1
        ok (record s { back = w2; system = k2 }))
      else ok s

  -- `shiftbuf` of what the machine has eaten, and its error
  unfoldable pub drop_eaten : ℕ → Sc W → Outcome (ℕ × Sc W)
  unfolding shiftbuf fsm_error
  drop_eaten r s = do
    (m, n) ← shiftbuf s.readbuf.mem s.readbuf.count r
    let s' = record s { readbuf = record (s.readbuf) { mem = m; count = n } }
    (if fsm_error (current s') then fault (critical fsm_error_state) else ok (1, s'))

  -- there is data
  unfoldable pub eat : Backend W → Sc W → Outcome (ℕ × Sc W)
  unfolding slice bytes_of fsm_feed respond drop_eaten
  eat b s0 = do
    let s = record s0 { nodataflag = false }
    cells ← slice s.readbuf.mem 0 s.readbuf.count
    xs ← bytes_of cells
    (r, f, w) ← fsm_feed (current s) (input xs) s.back
    let s1 = put s.curfsm f w s
    (if r == 0 then ok (0, s1) else (respond b s1 >>= drop_eaten r))

  -- what `out` and `ps1` point to
  abbrev pub reply_of : Backend W → Sc W → Block
  reply_of b s = pick s.curfsm empty_string (fsm_cmdout_outbuf b.cmdout s.back) empty_string

  abbrev pub prompt_of : Backend W → Sc W → Block
  prompt_of b s =
      pick s.curfsm (fsm_init_ps1buf b.init s.back) (fsm_cmdout_ps1buf b.cmdout s.back) empty_string

  -- the answer is complete
  unfoldable pub complete : Libc → Backend W → Sc W → Outcome (ℕ × Sc W)
  unfolding copy_string
  complete libc b s =
      if not (s.writebuf.count == 0) then ok (1, record s { state = writing }) else (do
        _ ← require (s.outbuf.count == 0) outbuf_not_empty
        o ← copy_string libc (reply_of b s) s.outbuf
        p ← copy_string libc (prompt_of b s) s.ps1buf
        ok (1, record s { outbuf = o; ps1buf = p; state = ready }))

  -- `fsm_feed(s_curfsm, NULL, 1)`, and what follows it
  unfoldable pub finish : Libc → Backend W → Sc W → Outcome (ℕ × Sc W)
  unfolding fsm_feed complete
  finish libc b s =
      fsm_feed (current s) (null 1) s.back >>= λ (r, f, w). complete libc b (put s.curfsm f w s)

  -- there is no data
  unfoldable pub starve : Libc → Backend W → Sc W → Outcome (ℕ × Sc W)
  unfolding fsm_feed finish
  starve libc b s = do
    (probe, f, w) ← fsm_feed (current s) (null 0) s.back
    let s1 = put s.curfsm f w s
    (if not (probe == 0)
        then finish libc b s1
        else (if not s1.nodataflag
            then ok (0, record s1 { nodataflag = true })
            else fault (critical meh)))

  unfoldable pub oper_busy : Libc → Backend W → Sc W → Outcome (ℕ × Sc W)
  unfolding read_more eat starve
  oper_busy libc b s = do
    (r, s1) ← read_more libc s
    (if not (r == 0) || not (s1.readbuf.count == 0) then eat b s1 else starve libc b s1)

  unfoldable pub sc_operate : Libc → Backend W → Sc W → Outcome (ℕ × Sc W)
  unfolding oper_writing oper_busy
  sc_operate libc b s =
      by_state s.state (oper_busy libc b s) (fault (critical operate_ready)) (oper_writing s)
        (fault (critical operate_offline))
