-- ===== src/Tests/Programs.antt =====
-- src/core.c, and src/sc.c over a greeting and over data in pieces, at concrete inputs.
use swh.Base.{
  ℕ, ◌≡◌, refl, true, false, pos, some, none, List, [], ◌∷◌, ◌++◌, arith, replicate, ok, ◌>>=◌, ◌≢◌,
  fault, starved,
}
use swh.Memory.{Block}
use swh.Common.Io.{ReadAnswer, got, again, wrote, System, xread}
use swh.Fsm.{fsm_feed, feed_from, input}
use swh.Fsm.Ends.{feed_from_ends}
use swh.Hp.Ends.{inchar-Proceeds}
use swh.Fsm.Pieces.{fsm_feed-append, feed_next}
use swh.Hp.State.{Hp, initial}
use swh.Hp.Contents.{c_string}
use swh.Hp.Inchar
use swh.Hp.Tokenizer.{mktok-IsTokenizer}
use swh.Hp.Transcript.Init.{part_text}
use swh.Hp.Transcript.Inchar.{inchar_fsm}
use swh.Back.{hp_name, attach_all}
use swh.Sc.State.{Sc, sc_init}
use swh.Sc.Operate.{key_text, report_text}
use swh.Sc.Conversation.{hp}
use swh.Sc.Session.{Waiting}
use swh.Sc.Greeting.{greeting-answered}
use swh.UcIa.{UcIa}
use swh.Spawn.{Spawn}
use swh.Core.{while_busy}
use swh.Core.Turn.{Command}
use swh.Memory.{load}
use swh.Hp.Init
use swh.Hp.Tokens.{mktok}
use swh.Hp.Transcript.Greeting.{init_fsm}
use swh.Sc.Operate.{sc_operate}
use swh.Sc.Reading.{with_reads}
use swh.Sc.Completing.{oper_busy-waits}
use swh.Sc.Start.{after_cmdout, clean-Filled, started, sc_init-starts}
use swh.Sc.Protocol.{InOrder, began, operated, Reached-InOrder}
use swh.Tests.Logs.{flags}
use swh.Tests.Data.{libc, libc-Grants, quiet, hello}
use swh.Tests.Machines.{part, part-IsPart}
use swh.Tests.Sessions.{echo, reply_piece, reply_pieces}

abbrev command : Command
command = record {
  line = 97 ∷ [];
  echoed = echo ∷ [];
  reply = hello;
  piece = reply_piece;
  pieces = reply_pieces;
}

abbrev commands : List Command
commands = command ∷ command ∷ []

-- "a\na\n" was typed.
abbrev user : UcIa
user = record {
  readbuf = some 97 ∷ some 10 ∷ some 97 ∷ some 10 ∷ some 0 ∷ none ∷ [];
  readbufcnt = 4;
  reads = [];
  selects = [];
  shown = [];
}

abbrev ssh : Spawn
ssh = record {
  stdin = (pos 0, pos 0);
  stdout = (pos 0, pos 0);
  stderr = (pos 0, pos 0);
  host = [];
  childpid = 0;
  seen = false;
  waits = [];
  closed = [];
  env = [];
  handled = false;
  flags = 0;
}

abbrev system : List ReadAnswer → System
system todo = record {
  reads = got (part_text part) ∷ got (part_text part) ∷ again ∷ todo;
  writes = wrote 1 ∷ wrote 11 ∷ replicate 30 (wrote 1);
  sent = [];
}

abbrev idle : List ReadAnswer → System
idle todo = record { reads = todo; writes = []; sent = [] }

greeting-answered_example :
    (s0 s1 : Sc Hp) × (rounds : ℕ) × (sc_init libc (attach_all libc hp_name) initial (system [])
      ≡ ok (hp libc, s0))
    × (while_busy libc (hp libc) rounds s0 ≡ ok s1)
    × Waiting libc 4 [] (key_text ++ report_text) [] (c_string part.second) s1
greeting-answered_example =
    greeting-answered libc part part 4 (system []) part-IsPart part-IsPart (omega arith)
      (omega arith) (libc-Grants 8194 (omega arith)) refl tt (omega arith)

abbrev page : Block
page = replicate 512 none

-- A call of sc_operate finds nothing to read.
abbrev idling : Sc Hp
idling = record (with_reads [] (started libc (idle (again ∷ [])))) { nodataflag = true }

idle_step : sc_operate libc (hp libc) (started libc (idle (again ∷ []))) ≡ ok (0, idling)
unfolding xread fsm_feed load Init.delta mktok sc_operate
idle_step =
    (oper_busy-waits libc (hp libc) (started libc (idle (again ∷ []))) {as' = []}
      {f = init_fsm libc Init.s_sta} {w = after_cmdout} (clean-Filled 4095 (omega arith)) refl
      refl).0

Reached-InOrder_example : InOrder idling
Reached-InOrder_example = Reached-InOrder libc (hp libc) (
    operated (started libc (idle (again ∷ []))) idling 0
      (began (attach_all libc hp_name) initial (idle (again ∷ []))
        (started libc (idle (again ∷ [])))
        (sc_init-starts libc (idle (again ∷ [])) (libc-Grants 4096 (omega arith))))
      idle_step)

-- An escape sequence comes in two pieces.
fsm_feed-append_example :
    fsm_feed (inchar_fsm Inchar.s_sta) (input ((27 ∷ 91 ∷ []) ++ (72 ∷ 97 ∷ []))) quiet ≡ (
      fsm_feed (inchar_fsm Inchar.s_sta) (input (27 ∷ 91 ∷ [])) quiet
      >>= feed_next (27 ∷ 91 ∷ []) (72 ∷ 97 ∷ []))
fsm_feed-append_example =
    fsm_feed-append (inchar_fsm Inchar.s_sta) (27 ∷ 91 ∷ []) (72 ∷ 97 ∷ []) quiet mktok-IsTokenizer
      (omega arith)

feed_from_ends_example :
    (feed_from 12 (inchar_fsm Inchar.s_sta) 0 (97 ∷ []) quiet
      ≡ feed_from 2 (inchar_fsm Inchar.s_sta) 0 (97 ∷ []) quiet)
    × (feed_from 2 (inchar_fsm Inchar.s_sta) 0 (97 ∷ []) quiet ≢ fault starved)
    × (fsm_feed (inchar_fsm Inchar.s_sta) (input (97 ∷ [])) quiet ≢ fault starved)
feed_from_ends_example =
    feed_from_ends (inchar_fsm Inchar.s_sta) 10 (97 ∷ []) quiet inchar-Proceeds (omega arith)
