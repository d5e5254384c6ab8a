-- ===== src/Tests/Lines.antt =====
-- src/front/ia/uc_ia.c at concrete inputs.
use swh.Base.{◌≡◌, refl, none, some, [], ◌∷◌, arith, length, take, ok, true, replicate}
use swh.Memory.{Block}
use swh.Common.Io.{got, xread}
use swh.Common.Select.{readable}
use swh.UcIa.Waiting.{uc_ia_hasdata-waits}
use swh.UcIa.{uc_ia_hasdata, UcIa, uc_ia_getdata, read_more}
use swh.UcIa.Lines.{Text, uc_ia_getdata-line}
use swh.UcIa.Reading.{read_more-appends}

-- "a\nb" was typed, and "c" comes next.
abbrev typed : UcIa
typed = record {
  readbuf = some 97 ∷ some 10 ∷ some 98 ∷ some 0 ∷ none ∷ none ∷ [];
  readbufcnt = 3;
  reads = got (99 ∷ []) ∷ [];
  selects = [];
  shown = [];
}

typed-Text : Text typed (97 ∷ 10 ∷ 98 ∷ [])
typed-Text = record { count_eq = refl; room = omega arith; size_small = omega arith; text = refl }

abbrev dest : Block
dest = none ∷ none ∷ []

-- The buffer is too short for the line.
uc_ia_getdata-line_example :
    (d : Block) × (u' : UcIa) × (uc_ia_getdata dest 2 typed ≡ ok (2, d, u'))
    × (length d ≡ 2)
    × (take 1 d ≡ some 97 ∷ [])
    × Text u' (98 ∷ [])
    × (u'.shown ≡ [])
uc_ia_getdata-line_example =
    uc_ia_getdata-line dest 2 typed (97 ∷ []) (98 ∷ []) typed-Text (omega arith, omega arith, tt)
      (omega arith) (omega arith) (omega arith)

read_more-appends_example :
    (u' : UcIa) × (read_more typed ≡ ok (1, u'))
    × Text u' (97 ∷ 10 ∷ 98 ∷ 99 ∷ [])
    × (length u'.readbuf ≡ 6)
    × (u'.reads ≡ [])
    × (u'.selects ≡ [])
unfolding xread
read_more-appends_example =
    read_more-appends typed (97 ∷ 10 ∷ 98 ∷ []) (99 ∷ []) typed-Text refl (omega arith)

-- "a" was typed, and "b" and "c\nd" come.
abbrev typing : UcIa
typing = record {
  readbuf = some 97 ∷ some 0 ∷ replicate 14 none;
  readbufcnt = 1;
  reads = got (98 ∷ []) ∷ got (99 ∷ 10 ∷ 100 ∷ []) ∷ [];
  selects = readable ∷ readable ∷ [];
  shown = [];
}

typing-Text : Text typing (97 ∷ [])
typing-Text = record { count_eq = refl; room = omega arith; size_small = omega arith; text = refl }

uc_ia_hasdata-waits_example :
    (u' : UcIa) × (uc_ia_hasdata true typing ≡ ok (1, u'))
    × Text u' (97 ∷ 98 ∷ 99 ∷ 10 ∷ 100 ∷ [])
    × (u'.reads ≡ [])
uc_ia_hasdata-waits_example =
    uc_ia_hasdata-waits ((98 ∷ []) ∷ []) (99 ∷ []) (100 ∷ []) typing (97 ∷ []) [] typing-Text
      (omega arith, omega arith, tt) (omega arith, tt) ((omega arith, omega arith, tt), tt)
      (omega arith, omega arith, tt) refl refl (omega arith)
