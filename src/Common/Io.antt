-- ===== src/Common/Io.antt =====
-- The wrappers of read(2) and write(2) in src/common/common.c. What the kernel answers is a
-- sequence, one answer for each call; Transcribing has them with the transcripts that `tscribe` writes.
pub mod Sends
use swh.Base.{
  ℕ, zero, suc, List, [], ◌∷◌, ◌++◌, Option, none, some, take, drop, Outcome, ok, fault, critical,
  starved, read_failed, read_eof, write_failed, write_zero, ◌>>=◌,
}
use swh.Memory.{Bytes}

-- `got xs` is a positive result with those bytes; `again` and `interrupted` are -1 with EAGAIN and
-- EINTR, `failed` is -1 with any other error.
pub data ReadAnswer : Type 0 where
  got : Bytes → ReadAnswer
  end again interrupted failed : ReadAnswer

-- `wrote n` is the result `n`; `refused` is -1 with an error that is not EINTR.
pub data WriteAnswer : Type 0 where
  wrote : ℕ → WriteAnswer
  stopped refused : WriteAnswer

-- the two streams of the child process: what its output and its input will answer, and all that was
-- written to it
pub record System : Type 0 where
  pub reads : List ReadAnswer
  pub writes : List WriteAnswer
  pub sent : Bytes

-- the bytes that were read, or -1 for EAGAIN, and the answers that are left
unfoldable pub xread : List ReadAnswer → Outcome (Option Bytes × List ReadAnswer)
xread [] = fault starved
xread (got [] ∷ as') = fault (critical read_eof)
xread (got (x ∷ xs) ∷ as') = ok (some (x ∷ xs), as')
xread (end ∷ as') = fault (critical read_eof)
xread (again ∷ as') = ok (none, as')
xread (interrupted ∷ as') = xread as'
xread (failed ∷ as') = fault (critical read_failed)

-- the bytes that were written, and the answers that are left; `data` is what lies behind `bc`
unfoldable pub ywrite : List WriteAnswer → Bytes → Bytes → Outcome (Bytes × List WriteAnswer)
ywrite as' sent [] = ok (sent, as')
ywrite [] sent (x ∷ xs) = fault starved
ywrite (wrote zero ∷ as') sent (x ∷ xs) = fault (critical write_zero)
ywrite (wrote (suc n) ∷ as') sent (x ∷ xs) =
    ywrite as' (sent ++ take (suc n) (x ∷ xs)) (drop (suc n) (x ∷ xs))
ywrite (stopped ∷ as') sent (x ∷ xs) = ywrite as' sent (x ∷ xs)
ywrite (refused ∷ as') sent (x ∷ xs) = fault (critical write_failed)

unfoldable pub xwrite : Bytes → System → Outcome System
unfolding ywrite
xwrite xs k =
    ywrite k.writes k.sent xs >>= λ (sent, as'). ok (record k { writes = as'; sent = sent })
