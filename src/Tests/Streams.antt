-- ===== src/Tests/Streams.antt =====
-- src/back/ansiseq.c at concrete inputs.
use swh.Base.{
  ◌≡◌, ◌≢◌, ◌≤◌, refl, some, [], ◌∷◌, ◌++◌, arith, true, false, length, take, pos, int_of_size, ok,
  fault, undefined, out_of_bounds, ◌>>=◌,
}
use swh.Memory.{store}
use swh.Ansiseq.Data.{strm, start, zero_seq, Ansiseq, Statics}
use swh.Ansiseq.Eat.{ansiseq_eatone}
use swh.Ansiseq.Table.{is_cchr, mktok}
use swh.Ansiseq.Params.{csi_text, ready}
use swh.Ansiseq.Csi.{eatone-csi_text, eatone-csi_text_full}
use swh.Ansiseq.Strings.{osc_text}
use swh.Ansiseq.Osc.{osc_seq, eatone-osc_text}
use swh.Ansiseq.Stream.{eatone_prefix, eatone_forgets}
use swh.Ansiseq.Terminator.{mktok-strm}
use swh.Ansiseq.Escape.{eatone-IsEscape}
use swh.Tests.Data.{home, home-IsEscape}

-- "\033[12;3Hx"
twelve_three :
    (ansiseq_eatone start (0o33 ∷ b'[' ∷ b'1' ∷ b'2' ∷ b';' ∷ b'3' ∷ b'H' ∷ b'x' ∷ []) >>= λ e.
    ok e.consumed)
    ≡ ok (pos 7)
unfolding ansiseq_eatone store int_of_size zero_seq
twelve_three = refl

eatone-csi_text_example :
    (q : Ansiseq) × (ansiseq_eatone start (csi_text ((1 ∷ 2 ∷ []) ∷ (3 ∷ []) ∷ []) 72 ++ (120 ∷ []))
      ≡ ok (record {
        consumed = pos (length (csi_text ((1 ∷ 2 ∷ []) ∷ (3 ∷ []) ∷ []) 72));
        dst = some q;
        statics = ready zero_seq q;
      }))
    × (q.cls ≡ 91)
    × (q.cmd ≡ 72)
    × (take q.argc q.argv ≡ pos 12 ∷ pos 3 ∷ [])
unfolding is_cchr zero_seq
eatone-csi_text_example =
    eatone-csi_text ((1 ∷ 2 ∷ []) ∷ (3 ∷ []) ∷ []) 72 start (120 ∷ []) refl
      ((omega arith, (omega arith, tt)), omega arith, ((omega arith, tt), omega arith, tt)) refl
      (omega arith) (omega arith)

eatone-csi_text_full_example :
    ansiseq_eatone start (csi_text ([] ∷ [] ∷ [] ∷ [] ∷ [] ∷ [] ∷ [] ∷ [] ∷ (1 ∷ []) ∷ []) 72 ++ [])
    ≡ fault (undefined out_of_bounds)
unfolding is_cchr zero_seq
eatone-csi_text_full_example =
    eatone-csi_text_full ([] ∷ [] ∷ [] ∷ [] ∷ [] ∷ [] ∷ [] ∷ [] ∷ (1 ∷ []) ∷ []) 72 start [] refl
      (
        tt,
        omega arith,
        (
          tt,
          omega arith,
          (
            tt,
            omega arith,
            (
              tt,
              omega arith,
              (
                tt,
                omega arith,
                (
                  tt,
                  omega arith,
                  (tt, omega arith, (tt, omega arith, ((omega arith, tt), omega arith, tt))),
                ),
              ),
            ),
          ),
        ),
      )
      refl (omega arith)

-- The NUL is left out.
eatone-osc_text_example :
    ansiseq_eatone start (osc_text (48 ∷ 59 ∷ 0 ∷ 104 ∷ []) ++ (120 ∷ []))
    ≡ ok (record {
      consumed = pos 7;
      dst = some (osc_seq zero_seq (48 ∷ 59 ∷ 0 ∷ 104 ∷ []));
      statics = record start {
        curseq = osc_seq zero_seq (48 ∷ 59 ∷ 0 ∷ 104 ∷ []);
        parmv = 0;
        gotparm = false;
      };
    })
unfolding zero_seq
eatone-osc_text_example =
    eatone-osc_text (48 ∷ 59 ∷ 0 ∷ 104 ∷ []) start (120 ∷ [])
      (
        omega arith,
        omega arith,
        omega arith,
        (
          omega arith,
          omega arith,
          omega arith,
          (omega arith, omega arith, omega arith, (omega arith, omega arith, omega arith, tt)),
        ),
      )
      (omega arith) refl

eatone-IsEscape_example : ansiseq_eatone start (home ++ (120 ∷ [])) ≡ ok home-IsEscape.eaten
eatone-IsEscape_example = eatone-IsEscape home-IsEscape start (120 ∷ []) refl

eatone_prefix_example :
    (2 ≤ 3)
    × (3 ≤ length home)
    × (ansiseq_eatone start (take 3 home ++ (7 ∷ [])) ≡ ok home-IsEscape.eaten)
eatone_prefix_example =
    eatone_prefix start home (7 ∷ []) home-IsEscape.eats (omega arith) home-IsEscape.whole

abbrev interrupted : Statics
interrupted = record { protoseq = zero_seq; curseq = zero_seq; parmv = 42; gotparm = true }

eatone_forgets_example :
    ansiseq_eatone interrupted (0o33 ∷ 91 ∷ 72 ∷ []) ≡ ansiseq_eatone start (0o33 ∷ 91 ∷ 72 ∷ [])
eatone_forgets_example = eatone_forgets interrupted start (91 ∷ 72 ∷ []) refl

-- the byte 234 (octal)
mktok-strm_example : mktok 156 ≢ ok strm
mktok-strm_example = mktok-strm 156
