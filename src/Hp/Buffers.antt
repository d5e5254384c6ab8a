-- ===== src/Hp/Buffers.antt =====
-- The steps on buffers that the actions of src/back/hp take.
use swh.Base.{ℕ, ◌+◌, ◌*◌, ◌%◌, some, leb, if◌then◌else◌, Outcome, ok, ◌>>=◌}
use swh.Memory.{store}
use swh.Common.{Libc, size_mod, xmalloc, xrealloc}
use swh.Fsm.{Input, byte, eof}
use swh.Hp.State.{Buf}

-- a `char` holds EOF as 255
abbrev pub char_of : Input → ℕ
char_of (byte c) = c
char_of eof = 255

-- `(buf = xmalloc(bufsz = n))[0] = '\0'`
unfoldable pub new_buf : Libc → ℕ → Buf → Outcome Buf
unfolding xmalloc store
new_buf libc n b = do
  m ← xmalloc libc n
  m' ← store m 0 (some 0)
  ok (record b { mem = m'; size = n })

-- `bufcnt = 0; buf[0] = '\0'`
unfoldable pub clear : Buf → Outcome Buf
unfolding store
clear b = store b.mem 0 (some 0) >>= λ m. ok (record b { mem = m; count = 0 })

-- `buf[bufcnt++] = c; buf[bufcnt] = '\0'`
unfoldable pub append_char : ℕ → Buf → Outcome Buf
unfolding store
append_char c b = do
  m ← store b.mem b.count (some c)
  m' ← store m (b.count + 1) (some 0)
  ok (record b { mem = m'; count = b.count + 1 })

-- twice the size when the next character and its terminator do not fit
unfoldable pub make_room : Libc → Buf → Outcome Buf
unfolding xrealloc
make_room libc b =
    if leb b.size (b.count + 1)
    then (let n = b.size * 2 % size_mod in
        xrealloc libc b.mem n >>= λ m. ok (record b { mem = m; size = n }))
    else ok b

-- the body of both functions `act_recps`
unfoldable pub recps : Libc → ℕ → Buf → Outcome Buf
unfolding make_room append_char
recps libc c b = make_room libc b >>= append_char c
