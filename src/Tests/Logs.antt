-- ===== src/Tests/Logs.antt =====
-- src/common/log.c, the hexdump of src/common/common.c, src/spawn.c and the options of src/init.c at concrete inputs.
use swh.Base.{
  ℕ, pos, ◌≡◌, refl, true, false, Bool, none, some, List, [], ◌∷◌, length, replicate, arith, ok,
  fault, undefined, out_of_bounds, ltb, if◌then◌else◌,
}
use swh.Memory.{Bytes, Block, store}
use swh.Common.Hexdump.{hexdump}
use swh.Common.Hexdump.Lines.{AreShown, hexdump-shown}
use swh.Common.Io.{got, wrote, stopped, refused, xread, ywrite}
use swh.Common.Transcribing.{
  tsnam, Desk, IsAble, Grows, literal, xread_noted, ywrite_noted, xread_noted-ywrite_noted,
}
use swh.Common.Transcript.{Clerk, Transcripts}
use swh.Log.Macros.{Site}
use swh.Log.Tracing.{Trace, done, message, called, debug, warning_errno, Logs, run, run-Logs}
use swh.Back.{same}
use swh.Log.{Log, log_trace}
use swh.Log.Line.{pad_text, pad_block}
use swh.Log.Padding.{pad_text-blanks}
use swh.Log.Environment.{
  Environment, log_init, words, read_words, cut_at, read_word, isdigitstr, int_of, index_of,
}
use swh.Log.Levels.{log_init-ready}
use swh.Spawn.{Spawn}
use swh.Spawn.Child.{Table, child_files, child_files-wired}
use swh.Init.{Program, Options, auto_name}

-- the variables of three modules, before `log_init`
abbrev pub unset : Log
unset = record {
  fancy = false;
  ready = false;
  lvlarr = pos 0 ∷ pos 0 ∷ pos 0 ∷ [];
  w_modnam = pos 8;
  w_file = pos 15;
  w_line = pos 4;
  w_func = pos 19;
  calldepth = 0;
  ourname = [];
  errout = [];
}

-- "SC", "INIT" and "?"
abbrev pub names : List Bytes
names = (83 ∷ 67 ∷ []) ∷ (73 ∷ 78 ∷ 73 ∷ 84 ∷ []) ∷ (63 ∷ []) ∷ []

-- "6 SC=9 line:5"
abbrev env : Environment
env = record {
  debug = some (54 ∷ 32 ∷ 83 ∷ 67 ∷ 61 ∷ 57 ∷ 32 ∷ 108 ∷ 105 ∷ 110 ∷ 101 ∷ 58 ∷ 53 ∷ []);
  fancy = none;
}

log_init-ready_example :
    (s' : Log) × (log_init names env unset ≡ ok s') × (s'.ready ≡ true) × (length s'.lvlarr ≡ 3)
log_init-ready_example = log_init-ready names env unset

-- The module SC has the level 9, the others 6, and lines are 5 wide.
levels_run :
    read_words names
      (words [] (54 ∷ 32 ∷ 83 ∷ 67 ∷ 61 ∷ 57 ∷ 32 ∷ 108 ∷ 105 ∷ 110 ∷ 101 ∷ 58 ∷ 53 ∷ []))
      (pos 4, unset)
    ≡ ok (pos 6, record unset { lvlarr = pos 9 ∷ pos 0 ∷ pos 0 ∷ []; w_line = pos 5 })
unfolding read_words words cut_at read_word isdigitstr int_of index_of same store
levels_run = refl

pad_text-blanks_example : pad_text (pos log_trace) 200 ≡ ok (replicate 255 32)
pad_text-blanks_example = pad_text-blanks 200 (omega arith) (omega arith)

-- At the depth of 128 the NUL is written behind the array.
pad_run : pad_text (pos log_trace) 128 ≡ fault (undefined out_of_bounds)
unfolding pad_text pad_block store
pad_run = refl

abbrev pub options : Options
options = record {
  ux = auto_name;
  sx = auto_name;
  host = [];
  log = record unset { lvlarr = replicate 3 (pos 4) };
  printed = [];
}

-- -v -q -q
abbrev pub flags : List Bool
flags = true ∷ false ∷ false ∷ []

-- "swh"
abbrev pub program : Program
program = record { mod_init = 1; a0 = 115 ∷ 119 ∷ 104 ∷ [] }

hexdump-shown_example :
    (ms : List Block) × (hexdump (65 ∷ 10 ∷ []) ≡ ok ms)
    × (length ms ≡ 1)
    × AreShown 0 (65 ∷ 10 ∷ []) ms
hexdump-shown_example = hexdump-shown (65 ∷ 10 ∷ [])

-- The descriptors 3 to 8 stand for themselves, and the first three for 0.
abbrev files : Table ℕ
files n = if ltb n 3 then some 0 else if ltb n 9 then some n else none

abbrev forking : Spawn
forking = record {
  stdin = (pos 3, pos 4);
  stdout = (pos 5, pos 6);
  stderr = (pos 7, pos 8);
  host = [];
  childpid = 0;
  seen = false;
  waits = [];
  closed = [];
  env = [];
  handled = false;
  flags = 0;
}

child_files-wired_example :
    (child_files forking files 0 ≡ some 3)
    × (child_files forking files 1 ≡ some 6)
    × (child_files forking files 2 ≡ some 8)
    × (child_files forking files 4 ≡ none)
    × (child_files forking files 5 ≡ none)
    × (child_files forking files 7 ≡ none)
child_files-wired_example =
    child_files-wired (3, 4) (5, 6) (7, 8) forking files
      (record {
        in_read = (omega arith, omega arith, omega arith, omega arith);
        out_write = (omega arith, omega arith, omega arith, omega arith);
        err_write = (omega arith, omega arith, omega arith, omega arith);
        parents = (omega arith, omega arith, omega arith);
      })
      refl refl refl refl refl refl

-- TC, a message and TR, and then a message of the level W
abbrev site : Site
site = record {
  log_mod = 1;
  file = 97 ∷ [];
  line = 12;
  func = 102 ∷ [];
  text = 104 ∷ 105 ∷ [];
  errno = [];
  time = none;
}

abbrev traced : Trace
traced = called site (message debug site done) site (message warning_errno site done)

-- before `log_init`, but with levels
abbrev loud : Log
loud = record unset { ready = true; lvlarr = replicate 3 (pos 10) }

run-Logs_example : Logs (run names env traced loud) loud
run-Logs_example =
    run-Logs names env traced loud refl (omega arith)
      (omega arith, omega arith, omega arith, (omega arith, tt), (omega arith, tt))

-- "a" was read, at 5 seconds and 7 milliseconds.
abbrev clerk : Clerk
clerk = record {
  time = some (5, 7000);
  opened = true;
  writes = replicate 60 (wrote 1);
  closed = true;
}

abbrev transcripts : Transcripts
transcripts = record { seq = 0; contents = λ path. [] }

clerk-IsAble : IsAble 57 clerk
clerk-IsAble = record {
  secs = 5;
  usec = 7000;
  timed = refl;
  opens = refl;
  closes = refl;
  willing = tt;
  enough = omega arith;
}

-- "a" is read, and "b" is written after an interruption.
xread_noted-ywrite_noted_example :
    ((d : Desk) × (xread_noted
          (tsnam 6)
          (got (97 ∷ []) ∷ [])
          (record { clerks = clerk ∷ clerk ∷ clerk ∷ []; done = transcripts })
        ≡ ok (some (97 ∷ []), [], d))
      × Grows (tsnam 6) transcripts d.done)
    × ((d : Desk) × (ywrite_noted
            (tsnam 6)
            (stopped ∷ wrote 1 ∷ [])
            []
            (98 ∷ [])
            (record { clerks = clerk ∷ clerk ∷ []; done = transcripts })
          ≡ ok (98 ∷ [], [], d))
        × Grows (tsnam 6) transcripts d.done)
unfolding xread ywrite
xread_noted-ywrite_noted_example =
    xread_noted-ywrite_noted (tsnam 6) 57 (got (97 ∷ []) ∷ []) (stopped ∷ wrote 1 ∷ []) [] (98 ∷ [])
      clerk (clerk ∷ clerk ∷ []) transcripts {r = some (97 ∷ [])} {rs' = []} {sent' = 98 ∷ []}
      {ws' = []} refl refl (omega arith) (omega arith) (omega arith)
      (clerk-IsAble, (clerk-IsAble, (clerk-IsAble, tt)))

-- When a write fails, 13 bytes are taken of the 12 of "[WRITE ERR]".
write_err_run :
    ywrite_noted
      (tsnam 6)
      (refused ∷ [])
      []
      (98 ∷ [])
      (record { clerks = clerk ∷ []; done = transcripts })
    ≡ fault (undefined out_of_bounds)
unfolding ywrite_noted literal
write_err_run = refl
