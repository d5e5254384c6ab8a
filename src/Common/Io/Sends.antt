-- ===== src/Common/Io/Sends.antt =====
-- `ywrite` of src/common/common.c over a descriptor that writes in pieces and is interrupted.
use swh.Base.{
  ℕ, zero, suc, ◌+◌, ◌≤◌, ◌≡◌, refl, ap, ◌∙◌, List, [], ◌∷◌, ◌++◌, append_assoc, append-nil, arith,
  length, length-drop, take, drop, take-append-drop, ok,
}
use swh.Memory.{Bytes}
use swh.Common.Io.{WriteAnswer, wrote, stopped, refused, System, ywrite, xwrite}

-- No answer is an error or a 0.
abbrev pub Willing : List WriteAnswer → Type 0
Willing [] = Unit
Willing (wrote zero ∷ as') = ⊥
Willing (wrote (suc n) ∷ as') = Willing as'
Willing (stopped ∷ as') = Willing as'
Willing (refused ∷ as') = ⊥

-- how many of the answers write something
abbrev pub writing_answers : List WriteAnswer → ℕ
writing_answers [] = 0
writing_answers (wrote n ∷ as') = suc (writing_answers as')
writing_answers (stopped ∷ as') = writing_answers as'
writing_answers (refused ∷ as') = writing_answers as'

-- When no answer of write is an error or 0, and as many of them write something as there are
-- bytes, the loop of ywrite ends, and the descriptor has got exactly the data, in order and once,
-- in whatever pieces it went and however often a call was interrupted.
pub ywrite-sends :
    (as' : List WriteAnswer) (sent xs : Bytes)
    → Willing as'
    → length xs ≤ writing_answers as'
    → (bs : List WriteAnswer) × (ywrite as' sent xs ≡ ok (sent ++ xs, bs))
      × Willing bs
      × (writing_answers as' ≤ writing_answers bs + length xs)
unfolding ywrite
ywrite-sends [] sent [] h l = ([], rw append-nil refl, h, omega arith)
ywrite-sends [] sent (x ∷ xs) h l = absurd (ground arith)
ywrite-sends (a ∷ as') sent [] h l = (a ∷ as', rw append-nil refl, h, omega arith)
ywrite-sends (wrote zero ∷ as') sent (x ∷ xs) h l = absurd h
ywrite-sends (wrote (suc n) ∷ as') sent (x ∷ xs) h l =
    let len : length (drop n xs) ≤ writing_answers as' = omega (arith, length-drop n xs, l) in
    let (bs, p, w, c) = ywrite-sends as' (sent ++ (x ∷ take n xs)) (drop n xs) h len in
    (
      bs,
      p
          ∙ ap (λ z. ok (z, bs))
              (append_assoc sent (x ∷ take n xs) (drop n xs)
                ∙ ap (λ z. sent ++ (x ∷ z)) (take-append-drop n xs)),
      w,
      omega (arith, length-drop n xs, c),
    )
ywrite-sends (stopped ∷ as') sent (x ∷ xs) h l = ywrite-sends as' sent (x ∷ xs) h l
ywrite-sends (refused ∷ as') sent (x ∷ xs) h l = absurd h

-- The same of the client's writes: the stream gets exactly the data behind what it got before.
pub xwrite-sends :
    (xs : Bytes) (k : System)
    → Willing k.writes
    → length xs ≤ writing_answers k.writes
    → (k' : System) × (xwrite xs k ≡ ok k')
      × (k'.sent ≡ k.sent ++ xs)
      × (k'.reads ≡ k.reads)
      × Willing k'.writes
      × (writing_answers k.writes ≤ writing_answers k'.writes + length xs)
unfolding xwrite
xwrite-sends xs k h l =
    let (bs, p, w, c) = ywrite-sends k.writes k.sent xs h l in
    (record k { writes = bs; sent = k.sent ++ xs }, rw p refl, refl, refl, w, c)
