-- ===== src/Common/Transcribing.antt =====
-- `xread` and `ywrite` of src/common/common.c with the transcripts that they write, which Io leaves out.
use swh.Base.{
  ℕ, zero, suc, ◌+◌, ◌%◌, ◌≤◌, ◌≡◌, refl, sym, ap, ◌∙◌, Bool, true, false, Option, none, some, List,
  [], ◌∷◌, ◌++◌, if◌then◌else◌, leb, take, drop, length, length-take, length-drop, append-nil,
  append_assoc, arith, Outcome, ok, fault, critical, undefined, out_of_bounds, starved, read_failed,
  read_eof, write_failed, write_zero, ◌>>=◌,
}
use mathlib.Core.Path.{subst}
use swh.Memory.{Bytes}
use swh.Common.{size_mod}
use swh.Common.Io.{
  ReadAnswer, got, end, again, interrupted, failed, WriteAnswer, wrote, stopped, refused, xread,
  ywrite,
}
use swh.Common.Io.Sends.{Willing, writing_answers}
use swh.Common.Transcript.{
  Clerk, Transcripts, tscribe, path_of, put_there, put, entry, length-entry, tscribe_lem,
}
use swh.Log.Line.{decimal}

-- "swh_ts.fd"
abbrev name_start : Bytes
name_start = 115 ∷ 119 ∷ 104 ∷ 95 ∷ 116 ∷ 115 ∷ 46 ∷ 102 ∷ 100 ∷ []

-- `tsnam`, cut at its size
abbrev pub tsnam : ℕ → Bytes
tsnam fd = take 15 (name_start ++ decimal fd)

-- so many bytes of a string literal and its NUL
unfoldable pub literal : Bytes → ℕ → Outcome Bytes
literal xs n =
    if leb n (length xs + 1) then ok (take n (xs ++ (0 ∷ []))) else fault (undefined out_of_bounds)

-- "[READ ERROR]", "[EOF]", "[WRITE ERR]" and "[WRITE 0]"
abbrev read_error : Bytes
read_error = 91 ∷ 82 ∷ 69 ∷ 65 ∷ 68 ∷ 32 ∷ 69 ∷ 82 ∷ 82 ∷ 79 ∷ 82 ∷ 93 ∷ []

abbrev eof : Bytes
eof = 91 ∷ 69 ∷ 79 ∷ 70 ∷ 93 ∷ []

abbrev write_err : Bytes
write_err = 91 ∷ 87 ∷ 82 ∷ 73 ∷ 84 ∷ 69 ∷ 32 ∷ 69 ∷ 82 ∷ 82 ∷ 93 ∷ []

abbrev write_0 : Bytes
write_0 = 91 ∷ 87 ∷ 82 ∷ 73 ∷ 84 ∷ 69 ∷ 32 ∷ 48 ∷ 93 ∷ []

-- the transcripts so far, with what the system will answer to those that come
pub record Desk : Type 0 where
  pub clerks : List Clerk
  pub done : Transcripts

-- a call of `tscribe`, with the answers that it gets
unfoldable pub note_with : Bytes → Bool → Bytes → List Clerk → Transcripts → Outcome Desk
unfolding tscribe
note_with name reading text [] t = fault starved
note_with name reading text (k ∷ ks) t =
    tscribe name text reading k t >>= λ t'. ok (record { clerks = ks; done = t' })

abbrev pub note : Bytes → Bool → Bytes → Desk → Outcome Desk
note name reading text d = note_with name reading text d.clerks d.done

-- a call of `tscribe` before the end of the process
abbrev last_note {ℓ} : {A : Type ℓ} → Bytes → Bool → Bytes → ℕ → Desk → Outcome A → Outcome A
last_note name reading xs n d m = literal xs n >>= λ text. note name reading text d >>= λ d'. m

unfoldable pub xread_noted :
    Bytes → List ReadAnswer → Desk → Outcome (Option Bytes × List ReadAnswer × Desk)
unfolding literal note_with
xread_noted name [] d = fault starved
xread_noted name (got [] ∷ as') d = last_note name true eof 5 d (fault (critical read_eof))
xread_noted name (got (x ∷ xs) ∷ as') d =
    note name true (x ∷ xs) d >>= λ d'. ok (some (x ∷ xs), as', d')
xread_noted name (end ∷ as') d = last_note name true eof 5 d (fault (critical read_eof))
xread_noted name (again ∷ as') d = ok (none, as', d)
xread_noted name (interrupted ∷ as') d = xread_noted name as' d
xread_noted name (failed ∷ as') d =
    last_note name true read_error 12 d (fault (critical read_failed))

unfoldable pub ywrite_noted :
    Bytes → List WriteAnswer → Bytes → Bytes → Desk → Outcome (Bytes × List WriteAnswer × Desk)
unfolding literal note_with
ywrite_noted name as' sent [] d = ok (sent, as', d)
ywrite_noted name [] sent (x ∷ xs) d = fault starved
ywrite_noted name (wrote zero ∷ as') sent (x ∷ xs) d =
    last_note name false write_0 9 d (fault (critical write_zero))
ywrite_noted name (wrote (suc n) ∷ as') sent (x ∷ xs) d = do
  d' ← note name false (take (suc n) (x ∷ xs)) d
  ywrite_noted name as' (sent ++ take (suc n) (x ∷ xs)) (drop (suc n) (x ∷ xs)) d'
ywrite_noted name (stopped ∷ as') sent (x ∷ xs) d = ywrite_noted name as' sent (x ∷ xs) d
ywrite_noted name (refused ∷ as') sent (x ∷ xs) d =
    last_note name false write_err 13 d (fault (critical write_failed))

-- The system does what `tscribe` asks for, and enough of the writes write something.
pub record IsAble (n : ℕ) (k : Clerk) : Type 0 where
  pub secs : ℕ
  pub usec : ℕ
  pub timed : k.time ≡ some (secs, usec)
  pub opens : k.opened ≡ true
  pub closes : k.closed ≡ true
  pub willing : Willing k.writes
  pub enough : n ≤ writing_answers k.writes

abbrev pub AreAble : ℕ → List Clerk → Type 0
AreAble n [] = Unit
AreAble n (k ∷ ks) = IsAble n k × AreAble n ks

-- The file of a name has only got more text.
abbrev pub Grows : Bytes → Transcripts → Transcripts → Type 0
Grows name t t' = (zs : Bytes) × (t'.contents (path_of name) ≡ t.contents (path_of name) ++ zs)

Grows-trans :
    (name : Bytes) (t1 t2 t3 : Transcripts) → Grows name t1 t2 → Grows name t2 t3 → Grows name t1 t3
Grows-trans name t1 t2 t3 (xs, e) (ys, f) =
    (xs ++ ys, f ∙ ap (λ z. z ++ ys) e ∙ append_assoc (t1.contents (path_of name)) xs ys)

note_with-able :
    (name : Bytes) (reading : Bool) (text : Bytes) (n : ℕ) (k : Clerk) (ks : List Clerk)
    (t : Transcripts)
    → IsAble n k
    → length text + 56 ≤ n
    → (t' : Transcripts) × (note_with name reading text (k ∷ ks) t
        ≡ ok (record { clerks = ks; done = t' }))
      × Grows name t t'
unfolding note_with
note_with-able name reading text n k ks t a l =
    let b = length-entry a.secs a.usec t.seq reading text in
    let e = a.enough in
    let p =
      tscribe_lem name text reading k t a.secs a.usec a.timed a.opens a.closes a.willing
        (omega (arith, b, e)) in
    let path : Bytes = path_of name in
    let all : Bytes = t.contents path ++ entry a.secs a.usec t.seq reading text in
    let t' : Transcripts = record {
      seq = (t.seq + 1) % size_mod;
      contents = put path all t.contents;
    } in
    (t', rw p refl, (entry a.secs a.usec t.seq reading text, put_there path all t.contents))

noted_step :
    (name : Bytes) (n : ℕ) (as' : List WriteAnswer) (sent : Bytes) (x : ℕ) (xs : Bytes)
    (d d' : Desk)
    → note name false (take (suc n) (x ∷ xs)) d ≡ ok d'
    → ywrite_noted name (wrote (suc n) ∷ as') sent (x ∷ xs) d
      ≡ ywrite_noted name as' (sent ++ take (suc n) (x ∷ xs)) (drop (suc n) (x ∷ xs)) d'
unfolding ywrite_noted
noted_step name n as' sent x xs d d' e = rw e refl

abbrev pub bytes_read : Option Bytes → Bytes
bytes_read none = []
bytes_read (some xs) = xs

-- A read that succeeds does so with its transcript.
pub xread_noted-reads :
    (name : Bytes) (n : ℕ) (as' : List ReadAnswer) (k : Clerk) (ks : List Clerk) (t : Transcripts)
    {r : Option Bytes} {bs : List ReadAnswer}
    → xread as' ≡ ok (r, bs)
    → length (bytes_read r) + 56 ≤ n
    → IsAble n k
    → (d' : Desk) × (xread_noted name as' (record { clerks = k ∷ ks; done = t }) ≡ ok (r, bs, d'))
      × Grows name t d'.done
unfolding xread xread_noted
xread_noted-reads name n [] k ks t e b h = absurd (ground arith)
xread_noted-reads name n (got [] ∷ as') k ks t e b h = absurd (ground arith)
xread_noted-reads name n (got (x ∷ xs) ∷ as') k ks t {r} e b h =
    let q : some (x ∷ xs) ≡ r = cc in
    let (t', p, g) =
      note_with-able name true (x ∷ xs) n k ks t h
        (subst (λ z. length (bytes_read z) + 56 ≤ n) (sym q) b) in
    let d : Desk = record { clerks = ks; done = t' } in
    (d, rw p (ap (λ m. m >>= λ (s, rest). ok (s, rest, d)) e), g)
xread_noted-reads name n (end ∷ as') k ks t e b h = absurd (ground arith)
xread_noted-reads name n (again ∷ as') k ks t e b h =
    let d : Desk = record { clerks = k ∷ ks; done = t } in
    (
      d,
      ap (λ m. m >>= λ (s, rest). ok (s, rest, d)) e,
      ([], sym (append-nil (t.contents (path_of name)))),
    )
xread_noted-reads name n (interrupted ∷ as') k ks t e b h =
    xread_noted-reads name n as' k ks t e b h
xread_noted-reads name n (failed ∷ as') k ks t e b h = absurd (ground arith)

-- Likewise, writes that succeed.
pub ywrite_noted-sends :
    (name : Bytes) (n : ℕ) (as' : List WriteAnswer) (sent xs : Bytes) (ks : List Clerk)
    (t : Transcripts) {sent' : Bytes} {bs : List WriteAnswer}
    → ywrite as' sent xs ≡ ok (sent', bs)
    → length as' ≤ length ks
    → length xs + 56 ≤ n
    → AreAble n ks
    → (d' : Desk) × (ywrite_noted name as' sent xs (record { clerks = ks; done = t })
        ≡ ok (sent', bs, d'))
      × Grows name t d'.done
unfolding ywrite ywrite_noted
ywrite_noted-sends name n as' sent [] ks t e l b h =
    let d : Desk = record { clerks = ks; done = t } in
    (
      d,
      ap (λ m. m >>= λ (s, rest). ok (s, rest, d)) e,
      ([], sym (append-nil (t.contents (path_of name)))),
    )
ywrite_noted-sends name n [] sent (x ∷ xs) ks t e l b h = absurd (ground arith)
ywrite_noted-sends name n (wrote zero ∷ as') sent (x ∷ xs) ks t e l b h = absurd (ground arith)
ywrite_noted-sends name n (wrote (suc m) ∷ as') sent (x ∷ xs) [] t e l b h = absurd (ground arith)
ywrite_noted-sends name n (wrote (suc m) ∷ as') sent (x ∷ xs) (k ∷ ks) t e l b (a, h) =
    let len = length-take m xs in
    let len' = length-drop m xs in
    let (t1, p, g) =
      note_with-able name false (take (suc m) (x ∷ xs)) n k ks t a (omega (arith, len)) in
    let (d2, q, g2) =
      ywrite_noted-sends name n as' (sent ++ take (suc m) (x ∷ xs)) (drop (suc m) (x ∷ xs)) ks t1 e
        (omega arith) (omega (arith, len')) h in
    (
      d2,
      noted_step name m as' sent x xs (record { clerks = k ∷ ks; done = t })
            (record { clerks = ks; done = t1 }) p
          ∙ q,
      Grows-trans name t t1 d2.done g g2,
    )
ywrite_noted-sends name n (stopped ∷ as') sent (x ∷ xs) ks t e l b h =
    ywrite_noted-sends name n as' sent (x ∷ xs) ks t e (omega arith) b h
ywrite_noted-sends name n (refused ∷ as') sent (x ∷ xs) ks t e l b h = absurd (ground arith)

-- A read that returns and a write that writes all of its data are done with the transcripts that
-- xread and xwrite make of each piece. For the read and for each answer of write there is a call
-- of tscribe in which the system does what it asks for, and in which enough of the writes write
-- something for the longer of the two data and 56 bytes more. Then both give the same as without
-- the transcripts, and the file of the transcript has only got more text.
pub xread_noted-ywrite_noted :
    (name : Bytes) (n : ℕ) (rs : List ReadAnswer) (ws : List WriteAnswer) (sent xs : Bytes)
    (k : Clerk) (ks : List Clerk) (t : Transcripts) {r : Option Bytes} {rs' : List ReadAnswer}
    {sent' : Bytes} {ws' : List WriteAnswer}
    → xread rs ≡ ok (r, rs')
    → ywrite ws sent xs ≡ ok (sent', ws')
    → length ws ≤ length ks
    → length (bytes_read r) + 56 ≤ n
    → length xs + 56 ≤ n
    → AreAble n (k ∷ ks)
    → ((d : Desk) × (xread_noted name rs (record { clerks = k ∷ ks; done = t }) ≡ ok (r, rs', d))
        × Grows name t d.done)
      × ((d : Desk) × (ywrite_noted name ws sent xs (record { clerks = ks; done = t })
            ≡ ok (sent', ws', d))
          × Grows name t d.done)
xread_noted-ywrite_noted name n rs ws sent xs k ks t e f l b c (h, hs) =
    (xread_noted-reads name n rs k ks t e b h, ywrite_noted-sends name n ws sent xs ks t f l c hs)
