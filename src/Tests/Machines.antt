-- ===== src/Tests/Machines.antt =====
-- The machines of src/back/hp at concrete inputs.
use swh.Base.{◌≡◌, refl, true, false, [], ◌∷◌, arith, length, ok}
use swh.Ansiseq.Data.{Statics, zero_seq}
use swh.Fsm.{fsm_feed, null, input}
use swh.Hp.State.{Hp}
use swh.Hp.Init.{anykey, report}
use swh.Hp.Init
use swh.Hp.Cmdout
use swh.Hp.Inchar
use swh.Hp.Transcript.Cmdout.{Recorded, reply_text, cmdout_fsm, feed-reply}
use swh.Hp.Transcript.Question.{question_text, feed-question}
use swh.Hp.Transcript.Inchar.{inchar_fsm, echo_text, feed-inchar}
use swh.Hp.Transcript.Init.{Part, IsPart, part_text, feed-greeting}
use swh.Hp.Transcript.Greeting.{init_fsm, Greeted}
use swh.Tests.Data.{
  libc, libc-Grants, home, home-IsEscape, homes, homes-AreEscapes, quiet, quiet-Recorded,
  blank-Holds, hello, hello-IsReply,
}

feed-reply_example :
    (w' : Hp) × Recorded libc hello.output hello.prompt w'
    × (fsm_feed (cmdout_fsm libc Cmdout.s_sta) (input (reply_text hello)) quiet
        ≡ ok (length (reply_text hello), cmdout_fsm libc Cmdout.s_cm3, w'))
    × (fsm_feed (cmdout_fsm libc Cmdout.s_cm3) (null 0) w'
        ≡ ok (1, cmdout_fsm libc Cmdout.s_cm3, w'))
    × (fsm_feed (cmdout_fsm libc Cmdout.s_cm3) (null 1) w'
        ≡ ok (1, cmdout_fsm libc Cmdout.s_fin, w'))
feed-reply_example =
    feed-reply libc 100 (libc-Grants 200 (omega arith)) hello quiet hello-IsReply (omega arith)
      (omega arith) quiet-Recorded

feed-question_example :
    (w1 w2 : Hp) × (fsm_feed
        (cmdout_fsm libc Cmdout.s_sta)
        (input (question_text homes (63 ∷ []) homes))
        quiet
      ≡ ok (length (question_text homes (63 ∷ []) homes), cmdout_fsm libc Cmdout.s_cm2, w1))
    × (fsm_feed (cmdout_fsm libc Cmdout.s_cm2) (null 0) w1
        ≡ ok (1, cmdout_fsm libc Cmdout.s_cm2, w1))
    × (fsm_feed (cmdout_fsm libc Cmdout.s_cm2) (null 1) w1
        ≡ ok (1, cmdout_fsm libc Cmdout.s_fin, w2))
    × Recorded libc [] (63 ∷ []) w2
feed-question_example =
    feed-question libc 100 (libc-Grants 200 (omega arith)) homes (63 ∷ []) homes quiet
      (ground arith) (ground arith) (ground arith) homes-AreEscapes (omega arith, omega arith, tt)
      homes-AreEscapes (omega arith) quiet-Recorded

feed-inchar_example :
    (s : Statics) × (s.protoseq ≡ zero_seq)
    × (fsm_feed (inchar_fsm Inchar.s_sta) (input (echo_text home 120 homes)) quiet
        ≡ ok
            (length (echo_text home 120 homes), inchar_fsm Inchar.s_cm2, record quiet { ansi = s }))
    × (fsm_feed (inchar_fsm Inchar.s_cm2) (null 0) (record quiet { ansi = s })
        ≡ ok (1, inchar_fsm Inchar.s_cm2, record quiet { ansi = s }))
    × (fsm_feed (inchar_fsm Inchar.s_cm2) (null 1) (record quiet { ansi = s })
        ≡ ok (1, inchar_fsm Inchar.s_fin, record quiet { ansi = s }))
feed-inchar_example =
    feed-inchar home 120 homes quiet home-IsEscape (omega arith) (omega arith) (ground arith)
      homes-AreEscapes refl

abbrev pub part : Part
part = record { first = 72 ∷ 80 ∷ []; between = homes; second = 49 ∷ 35 ∷ []; after = homes }

pub part-IsPart : IsPart part
part-IsPart = record {
  first_some = ground arith;
  first_text = (omega arith, omega arith, (omega arith, omega arith, tt));
  between_some = ground arith;
  between_escapes = homes-AreEscapes;
  second_some = ground arith;
  second_text = (omega arith, omega arith, (omega arith, omega arith, tt));
  after_some = ground arith;
  after_escapes = homes-AreEscapes;
}

quiet-Greeted : Greeted libc [] false false quiet.cmdout quiet
quiet-Greeted = record {
  clean = refl;
  prompt = blank-Holds;
  anykey = refl;
  report = refl;
  kept = refl;
}

feed-greeting_example :
    (w1 u1 u w2 v w3 : Hp) × (fsm_feed (init_fsm libc Init.s_sta) (input (part_text part)) quiet
      ≡ ok (length (part_text part), init_fsm libc Init.s_cm2, w1))
    × (anykey w1 ≡ (true, u1))
    × (report u1 ≡ (false, u))
    × (fsm_feed (init_fsm libc Init.s_cm2) (input (part_text part)) u
        ≡ ok (length (part_text part), init_fsm libc Init.s_cm4, w2))
    × (anykey w2 ≡ (false, v))
    × (report v ≡ (true, w3))
    × Greeted libc part.second false false quiet.cmdout w3
    × (fsm_feed (init_fsm libc Init.s_cm4) (null 0) w3 ≡ ok (1, init_fsm libc Init.s_cm4, w3))
    × (fsm_feed (init_fsm libc Init.s_cm4) (null 1) w3 ≡ ok (1, init_fsm libc Init.s_fin, w3))
feed-greeting_example =
    feed-greeting libc 100 part part quiet (libc-Grants 200 (omega arith)) (omega arith) part-IsPart
      part-IsPart quiet-Greeted
