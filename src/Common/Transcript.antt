-- ===== src/Common/Transcript.antt =====
-- `tscribe` of src/common/common.c, which appends what was read or written to a file.
use swh.Base.{
  ℕ, ◌+◌, ◌-◌, ◌/◌, ◌%◌, ◌≤◌, ◌≡◌, refl, ap, ◌∙◌, Bool, true, false, Option, none, some, List, [],
  ◌∷◌, ◌++◌, if◌then◌else◌, take, length, length-append, length-take, append_assoc, append-nil,
  ==-refl, replicate, arith, Outcome, ok, fault, critical, gettimeofday_failed, transcript_failed,
  close_failed, ◌>>=◌,
}
use swh.Memory.{Bytes, flat}
use swh.Common.{size_mod}
use swh.Common.Io.{WriteAnswer, ywrite}
use swh.Common.Io.Sends.{Willing, writing_answers, ywrite-sends}
use swh.Back.{same}
use swh.Log.Line.{decimal}

-- `s_seq`, and the contents of the files by their paths
pub record Transcripts : Type 0 where
  pub seq : ℕ
  pub contents : Bytes → Bytes

-- what gettimeofday(2), open(2), write(2) and close(2) answer
pub record Clerk : Type 0 where
  pub time : Option (ℕ × ℕ)
  pub opened : Bool
  pub writes : List WriteAnswer
  pub closed : Bool

-- `%04u`
abbrev four_digits : ℕ → Bytes
four_digits n = replicate (4 - length (decimal n)) 48 ++ decimal n

-- "%u.%04u/%lu: ", cut at the size of `timestr`
unfoldable pub time_text : ℕ → ℕ → ℕ → Bytes
time_text secs usec seq =
    take 31
      (decimal secs ++ (46 ∷ four_digits (usec / 1000) ++ (47 ∷ decimal seq ++ (58 ∷ 32 ∷ []))))

abbrev path_start : Bytes
path_start =
    47 ∷ 116 ∷ 109 ∷ 112 ∷ 47 ∷ 116 ∷ 114 ∷ 97 ∷ 110 ∷ 115 ∷ 99 ∷ 114 ∷ 105 ∷ 112 ∷ 116 ∷ 46 ∷ []

-- "/tmp/transcript.%s", cut at the size of `path`
unfoldable pub path_of : Bytes → Bytes
path_of name = take 255 (path_start ++ name)

abbrev read_label : Bytes
read_label =
    82 ∷ 69 ∷ 65 ∷ 68 ∷ 32 ∷ 100 ∷ 97 ∷ 116 ∷ 97 ∷ 43 ∷ 50 ∷ 120 ∷ 32 ∷ 110 ∷ 101 ∷ 119 ∷ 108 ∷ 105
    ∷ 110 ∷ 101 ∷ 58 ∷ 10 ∷ []

abbrev write_label : Bytes
write_label =
    87 ∷ 82 ∷ 73 ∷ 84 ∷ 69 ∷ 32 ∷ 100 ∷ 97 ∷ 116 ∷ 97 ∷ 43 ∷ 50 ∷ 120 ∷ 32 ∷ 110 ∷ 101 ∷ 119 ∷ 108
    ∷ 105 ∷ 110 ∷ 101 ∷ 58 ∷ 10 ∷ []

unfoldable pub label : Bool → Bytes
label true = read_label
label false = write_label

abbrev pub put : Bytes → Bytes → (Bytes → Bytes) → Bytes → Bytes
put path text contents p = if same p path then text else contents p

-- the four writes, behind what the file holds
unfoldable pub append_all :
    List WriteAnswer → Bytes → List Bytes → Outcome (Bytes × List WriteAnswer)
unfolding ywrite
append_all as' sent [] = ok (sent, as')
append_all as' sent (xs ∷ xss) = ywrite as' sent xs >>= λ (s, bs). append_all bs s xss

-- from open(2) on
unfoldable pub transcribe : Bytes → List Bytes → ℕ → Clerk → Transcripts → Outcome Transcripts
unfolding append_all
transcribe path xss seq k t =
    if k.opened
    then (append_all k.writes (t.contents path) xss >>= λ (text, as').
        (if k.closed
          then ok (record { seq = seq; contents = put path text t.contents })
          else fault (critical close_failed)))
    else fault (critical transcript_failed)

-- "\n\n"
abbrev pub two_newlines : Bytes
two_newlines = 10 ∷ 10 ∷ []

-- once gettimeofday(2) has answered
abbrev stamped : Option (ℕ × ℕ) → Bytes → Bytes → Bool → Clerk → Transcripts → Outcome Transcripts
stamped none name text reading k t = fault (critical gettimeofday_failed)
stamped (some (secs, usec)) name text reading k t =
    transcribe (path_of name) (time_text secs usec t.seq ∷ label reading ∷ text ∷ two_newlines ∷ [])
      ((t.seq + 1) % size_mod) k t

unfoldable pub tscribe : Bytes → Bytes → Bool → Clerk → Transcripts → Outcome Transcripts
unfolding time_text path_of label transcribe
tscribe name text reading k t = stamped k.time name text reading k t

append_all-sends :
    (as' : List WriteAnswer) (sent : Bytes) (xss : List Bytes)
    → Willing as'
    → length (flat xss) ≤ writing_answers as'
    → (bs : List WriteAnswer) × (append_all as' sent xss ≡ ok (sent ++ flat xss, bs))
unfolding append_all
append_all-sends as' sent [] w l = (as', rw append-nil refl)
append_all-sends as' sent (xs ∷ xss) w l =
    let n = length-append xs (flat xss) in
    let (bs, p, w', c) = ywrite-sends as' sent xs w (omega (arith, n)) in
    let (ds, q) = append_all-sends bs (sent ++ xs) xss w' (omega (arith, n, c)) in
    (ds, rw p (q ∙ ap (λ z. ok (z, ds)) (append_assoc sent xs (flat xss))))

transcribe_steps :
    (path : Bytes) (xss : List Bytes) (seq : ℕ) (k : Clerk) (t : Transcripts) {text : Bytes}
    {bs : List WriteAnswer}
    → k.opened ≡ true
    → k.closed ≡ true
    → append_all k.writes (t.contents path) xss ≡ ok (text, bs)
    → transcribe path xss seq k t ≡ ok (record { seq = seq; contents = put path text t.contents })
unfolding transcribe
transcribe_steps path xss seq k t o c e = rw (o, e, c) refl

tscribe_steps :
    (name text : Bytes) (reading : Bool) (k : Clerk) (t : Transcripts) (secs usec : ℕ)
    → k.time ≡ some (secs, usec)
    → tscribe name text reading k t
      ≡ transcribe
          (path_of name)
          (time_text secs usec t.seq ∷ label reading ∷ text ∷ two_newlines ∷ [])
          ((t.seq + 1) % size_mod)
          k
          t
unfolding tscribe
tscribe_steps name text reading k t secs usec e = rw e refl

same_refl : (xs : Bytes) → same xs xs ≡ true
unfolding same
same_refl [] = refl
same_refl (x ∷ xs) = rw (==-refl x) (same_refl xs)

pub put_there : (path text : Bytes) (contents : Bytes → Bytes) → put path text contents path ≡ text
put_there path text contents = rw (same_refl path) refl

-- what one call appends
abbrev pub entry : ℕ → ℕ → ℕ → Bool → Bytes → Bytes
entry secs usec seq reading text =
    flat (time_text secs usec seq ∷ label reading ∷ text ∷ two_newlines ∷ [])

pub tscribe_lem :
    (name text : Bytes) (reading : Bool) (k : Clerk) (t : Transcripts) (secs usec : ℕ)
    → k.time ≡ some (secs, usec)
    → k.opened ≡ true
    → k.closed ≡ true
    → Willing k.writes
    → length (entry secs usec t.seq reading text) ≤ writing_answers k.writes
    → tscribe name text reading k t
      ≡ ok (record {
        seq = (t.seq + 1) % size_mod;
        contents =
            put
              (path_of name)
              (t.contents (path_of name) ++ entry secs usec t.seq reading text)
              t.contents;
      })
tscribe_lem name text reading k t secs usec e o c w l =
    let path : Bytes = path_of name in
    let xss : List Bytes = time_text secs usec t.seq ∷ label reading ∷ text ∷ two_newlines ∷ [] in
    let (bs, p) = append_all-sends k.writes (t.contents path) xss w l in
    tscribe_steps name text reading k t secs usec e
    ∙ transcribe_steps path xss ((t.seq + 1) % size_mod) k t o c p

take_short : (n : ℕ) (xs : Bytes) → length (take n xs) ≤ n
take_short n xs = omega (arith, length-take n xs)

time_text_short : (secs usec seq : ℕ) → length (time_text secs usec seq) ≤ 31
unfolding time_text
time_text_short secs usec seq = take_short 31 _

label_short : (reading : Bool) → length (label reading) ≤ 23
unfolding label
label_short true = let l : length read_label ≡ 22 = refl in omega (arith, l)
label_short false = let l : length write_label ≡ 23 = refl in omega (arith, l)

pub length-entry :
    (secs usec seq : ℕ) (reading : Bool) (text : Bytes)
    → length (entry secs usec seq reading text) ≤ length text + 56
length-entry secs usec seq reading text =
    let a = length-append (time_text secs usec seq) (label reading ++ (text ++ two_newlines)) in
    let b = length-append (label reading) (text ++ two_newlines) in
    let c = length-append text two_newlines in
    omega (arith, a, b, c, time_text_short secs usec seq, label_short reading)
