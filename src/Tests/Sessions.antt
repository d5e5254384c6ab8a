-- ===== src/Tests/Sessions.antt =====
-- src/sc.c at concrete inputs.
use swh.Base.{
  ℕ, ◌≡◌, ◌≤◌, ◌+◌, refl, false, Option, some, none, List, [], ◌∷◌, ◌++◌, map, arith, length,
  length-replicate, replicate, ok,
}
use swh.Memory.{Bytes, load}
use swh.Common.Io.{ReadAnswer, got, again, wrote, System, xread}
use swh.Common.Io.Sends.{Willing, writing_answers}
use swh.Fsm.{fsm_feed, fsm_reset, fsm_error}
use swh.Hp.State.{Buf, Hp}
use swh.Hp.Contents.{Holds, c_string}
use swh.Hp.Init
use swh.Hp.Tokens.{mktok}
use swh.Back.{fsm_cmdout_hp_attach}
use swh.Hp.Cmdout
use swh.Hp.Inchar
use swh.Hp.Transcript.Cmdout.{cmdout_fsm}
use swh.Hp.Transcript.Inchar.{inchar_fsm}
use swh.Hp.Transcript.Greeting.{init_fsm}
use swh.Sc.State.{ready, writing, busy, Machine, init, cmdout, inchar, Sc, sc_ready, put}
use swh.Sc.Moves.{Moves, Step-Moves, operates}
use swh.Common.{shiftbuf, slice, memcpy}
use swh.Common.Io.{xwrite, ywrite}
use swh.Sc.Operate.{sc_operate, byte_of, sc_write, oper_writing, oper_busy}
use swh.Sc.Buffers.{Filled}
use swh.Sc.Writing.{sc_write-queues, oper_writing-sends, after}
use swh.Sc.Reading.{oper_busy-feeds, with_reads}
use swh.Sc.Completing.{oper_busy-completes}
use swh.Sc.Conversation.{hp, Echo, IsEcho}
use swh.Sc.Pieces.{gots}
use swh.Sc.Session.{Waiting, echoes, newline, command-answered}
use swh.Core.{while_busy}
use swh.Tests.Data.{
  libc, libc-Grants, home, home-IsEscape, homes, homes-AreEscapes, quiet, quiet-Recorded, blank,
  blank-Holds, hello, hello-IsReply,
}

abbrev pub room : Buf
room = record { mem = replicate 4096 none; size = 4096; count = 0 }

pub room-Filled : Filled room []
room-Filled = record {
  size_eq = length-replicate {A = Option ℕ} 4096 none;
  size_some = omega arith;
  size_small = omega arith;
  count_eq = refl;
  room = omega arith;
  text = refl;
}

-- READY after a greeting that left no prompt
abbrev resting : List ReadAnswer → Sc Hp
resting todo = record {
  nodataflag = false;
  state = ready;
  readbuf = room;
  writebuf = room;
  ps1buf = blank;
  outbuf = blank;
  fsm_init = init_fsm libc Init.s_fin;
  fsm_cmdout = cmdout_fsm libc Cmdout.s_sta;
  fsm_inchar = inchar_fsm Inchar.s_sta;
  curfsm = init;
  back = quiet;
  system = record { reads = todo; writes = wrote 1 ∷ wrote 1 ∷ wrote 1 ∷ []; sent = [] };
}

-- "a" and "a\n"
abbrev typed : Bytes
typed = 97 ∷ []

abbrev line : Bytes
line = 97 ∷ 10 ∷ []

abbrev pub echo : Echo
echo = record {
  before = home;
  shown = 97;
  after = homes;
  first_piece = 27 ∷ 91 ∷ [];
  pieces = (72 ∷ 97 ∷ 27 ∷ []) ∷ (91 ∷ 72 ∷ []) ∷ [];
}

pub echo-IsEcho : IsEcho echo
echo-IsEcho = record {
  before_escape = home-IsEscape;
  shown_byte = omega arith;
  shown_text = omega arith;
  after_some = ground arith;
  after_escapes = homes-AreEscapes;
  short = omega arith;
  pieces_some = (omega arith, (omega arith, (omega arith, tt)));
  pieces_whole = refl;
}

abbrev pub reply_piece : Bytes
reply_piece = 27 ∷ 91 ∷ 72 ∷ 104 ∷ []

abbrev pub reply_pieces : List Bytes
reply_pieces = (105 ∷ 27 ∷ []) ∷ (91 ∷ 72 ∷ 62 ∷ 27 ∷ 91 ∷ 72 ∷ []) ∷ []

abbrev answers : List ReadAnswer
answers = echoes (echo ∷ []) (gots (reply_piece ∷ reply_pieces) (again ∷ []))

resting-Waiting : Waiting libc 2 answers [] [] [] (resting answers)
unfolding sc_ready
resting-Waiting = record {
  ready_eq = refl;
  queued = room-Filled;
  unread = room-Filled;
  reply_kept = blank-Holds;
  prompt_kept = blank-Holds;
  xs = [];
  ys = [];
  recorded = quiet-Recorded;
  st1 = Cmdout.s_sta;
  st2 = Inchar.s_sta;
  cmdout_fsm_eq = refl;
  inchar_fsm_eq = refl;
  willing = tt;
  enough = omega arith;
  reads_eq = refl;
  sent_eq = refl;
  large = omega arith;
}

command-answered_example :
    (s1 s2 : Sc Hp) × (rounds : ℕ) × (sc_write libc
        (map some line)
        (length (typed ++ newline))
        (resting answers)
      ≡ ok s1)
    × (while_busy libc (hp libc) rounds s1 ≡ ok s2)
    × Waiting libc 0 [] line (c_string hello.output) (c_string hello.prompt) s2
command-answered_example =
    command-answered libc (map some line) typed (echo ∷ []) hello reply_piece reply_pieces
      (resting answers) (omega arith, echo-IsEcho, tt) hello-IsReply (omega arith)
      (omega arith, (omega arith, (omega arith, tt))) refl refl (omega arith)
      (libc-Grants 8200 (omega arith)) resting-Waiting

sc_write-queues_example :
    (b o : Buf) × (sc_write libc (map some line) (length line) (resting [])
      ≡ ok (record (resting []) { writebuf = b; state = writing; outbuf = o }))
    × Filled b line
    × Holds o []
unfolding sc_ready
sc_write-queues_example =
    sc_write-queues libc (map some line) line (resting []) refl room-Filled blank-Holds refl
      (omega arith) (libc-Grants 6 (omega arith))

-- one character is queued
abbrev queue : Buf
queue = record { mem = some 97 ∷ some 0 ∷ []; size = 2; count = 1 }

queue-Filled : Filled queue (97 ∷ [])
queue-Filled = record {
  size_eq = refl;
  size_some = omega arith;
  size_small = omega arith;
  count_eq = refl;
  room = omega arith;
  text = refl;
}

abbrev typing : Sc Hp
typing = record (resting []) { state = writing; writebuf = queue }

oper_writing-sends_example :
    (b : Buf) × (k : System) × (oper_writing typing
      ≡ ok (
        1,
        record (put
            (after 97)
            (inchar_fsm Inchar.s_sta)
            quiet
            (record typing { system = k; writebuf = b; curfsm = after 97 })) { state = busy },
      ))
    × Filled b []
    × (k.sent ≡ typing.system.sent ++ (97 ∷ []))
    × (k.reads ≡ typing.system.reads)
    × Willing k.writes
    × (writing_answers typing.system.writes ≤ writing_answers k.writes + 1)
unfolding fsm_reset Inchar.reset
oper_writing-sends_example =
    oper_writing-sends typing 97 [] {f = inchar_fsm Inchar.s_sta} {w = quiet} queue-Filled tt
      (omega arith) refl

-- the same character, written
abbrev typed_one : Sc Hp
typed_one = record typing {
  state = busy;
  writebuf = record queue { count = 0 };
  curfsm = inchar;
  fsm_inchar = inchar_fsm Inchar.s_sta;
  system = record (typing.system) { writes = wrote 1 ∷ wrote 1 ∷ []; sent = 97 ∷ [] };
}

type_step : sc_operate libc (hp libc) typing ≡ ok (1, typed_one)
unfolding sc_operate oper_writing load byte_of xwrite ywrite shiftbuf slice memcpy fsm_reset
    Inchar.reset
type_step = refl

Step-Moves_example : Moves writing 1 busy 0
Step-Moves_example = Step-Moves libc (hp libc) typing typed_one (omega arith) (operates 1 type_step)

-- in front of the echo of a character, its escape sequence eaten
abbrev listening : Sc Hp
listening = record (resting (got (97 ∷ []) ∷ [])) {
  state = busy;
  fsm_inchar = inchar_fsm Inchar.s_cm1;
  curfsm = inchar;
}

oper_busy-feeds_example :
    (rb : Buf) × (oper_busy libc (hp libc) listening
      ≡ ok (
        1,
        record (put inchar (inchar_fsm Inchar.s_inc) quiet (with_reads [] listening)) {
          nodataflag = false;
          readbuf = rb;
        },
      ))
    × Filled rb []
    × (rb.size ≡ 4096)
unfolding xread fsm_feed fsm_error load Inchar.delta mktok
oper_busy-feeds_example =
    oper_busy-feeds libc (hp libc) listening {ys = []} {xs = 97 ∷ []} {as' = []} {r = 1}
      {f = inchar_fsm Inchar.s_inc} {w = quiet} room-Filled refl (omega arith) (omega arith) refl
      refl (omega arith) (omega arith) refl

-- behind the echo of a character, with nothing to read
abbrev waiting : Buf → Machine → Sc Hp
waiting b cur = record (resting (again ∷ [])) {
  state = busy;
  writebuf = b;
  fsm_inchar = inchar_fsm Inchar.s_cm2;
  fsm_cmdout = cmdout_fsm libc Cmdout.s_cm3;
  curfsm = cur;
}

oper_busy-completes_example :
    (o p : Buf) × (oper_busy libc (hp libc) (waiting room cmdout)
      ≡ ok (
        1,
        record (put cmdout
            (cmdout_fsm libc Cmdout.s_fin)
            quiet
            (with_reads [] (waiting room cmdout))) { outbuf = o; ps1buf = p; state = ready },
      ))
    × Holds o []
    × Holds p []
unfolding xread fsm_feed load Cmdout.delta mktok fsm_cmdout_hp_attach Cmdout.outbuf Cmdout.ps1buf
oper_busy-completes_example =
    oper_busy-completes libc (hp libc) (waiting room cmdout) {as' = []} {n = 1} {r = 1}
      {f = cmdout_fsm libc Cmdout.s_cm3} {f' = cmdout_fsm libc Cmdout.s_fin} {w = quiet}
      {w' = quiet} [] [] room-Filled refl refl (omega arith) refl room-Filled blank-Holds
      blank-Holds refl refl (omega arith) (omega arith) (libc-Grants 2 (omega arith))
      (libc-Grants 2 (omega arith))

-- The machine for the echo has had nothing yet.
abbrev early : Sc Hp
early = record (waiting queue inchar) { fsm_inchar = inchar_fsm Inchar.s_sta }
