-- ===== src/Tests/Data.antt =====
-- Test data: an allocator that grants requests of less than a megabyte, an escape sequence, and
-- states of the backend of src/back/hp whose buffers are empty.
use swh.Base.{ℕ, ◌<◌, refl, false, none, some, pos, List, [], ◌∷◌, arith, ltb, lt→ltb, ltb→lt}
use swh.Memory.{Bytes}
use swh.Common.{Libc}
use swh.Common.Blocks.{Grants}
use swh.Ansiseq.Data.{start, zero_seq}
use swh.Ansiseq.Table.{is_cchr}
use swh.Ansiseq.Params.{ready}
use swh.Ansiseq.Csi.{eatone-csi_text}
use swh.Ansiseq.Escape.{IsEscape}
use swh.Hp.State.{Buf, Hp}
use swh.Hp.Contents.{Holds}
use swh.Hp.Machine.{AreEscapes}
use swh.Hp.Transcript.Cmdout.{Recorded, Reply, IsReply}

abbrev pub libc : Libc
libc = record {
  alloc = λ n. ltb n 1048576;
  alloc_small = λ n e. let l = ltb→lt n 1048576 e in omega arith;
}

pub libc-Grants : (n : ℕ) → n < 1048576 → Grants libc n
libc-Grants n h m l = lt→ltb m 1048576 (omega arith)

-- ESC [ H
abbrev pub home : Bytes
home = 27 ∷ 91 ∷ 72 ∷ []

pub home-IsEscape : IsEscape home
unfolding is_cchr zero_seq
home-IsEscape =
    let (q, p, _, _, _) = eatone-csi_text [] 72 start [] refl tt refl (omega arith) (omega arith) in
    record {
      eaten = record { consumed = pos 3; dst = some q; statics = ready zero_seq q };
      eats = p;
      whole = refl;
    }

abbrev pub homes : List Bytes
homes = home ∷ []

pub homes-AreEscapes : AreEscapes homes
homes-AreEscapes = (home-IsEscape, tt)

-- an empty text in a block of two bytes
abbrev pub blank : Buf
blank = record { mem = some 0 ∷ none ∷ []; size = 2; count = 0 }

pub blank-Holds : Holds blank []
blank-Holds = record {
  size_eq = refl;
  size_small = omega arith;
  count_eq = refl;
  room = omega arith;
  text = refl;
}

abbrev pub quiet : Hp
quiet = record {
  ansi = start;
  init = record { ps1buf = blank; anykey = false; report = false };
  cmdout = record { outbuf = blank; ps1buf = blank };
}

pub quiet-Recorded : Recorded libc [] [] quiet
quiet-Recorded = record { clean = refl; output = blank-Holds; prompt = blank-Holds }

abbrev pub hello : Reply
hello = record {
  before = homes;
  output = 104 ∷ 105 ∷ [];
  between = homes;
  prompt = 62 ∷ [];
  after = homes;
}

pub hello-IsReply : IsReply hello
hello-IsReply = record {
  before_some = ground arith;
  before_escapes = homes-AreEscapes;
  output_some = ground arith;
  output_text = (omega arith, omega arith, (omega arith, omega arith, tt));
  between_some = ground arith;
  between_escapes = homes-AreEscapes;
  prompt_some = ground arith;
  prompt_text = (omega arith, omega arith, tt);
  after_some = ground arith;
  after_escapes = homes-AreEscapes;
}
