-- ===== src/Fsm.antt =====
-- src/back/fsm.c: the engine that runs a table of transitions over a stream. `W` is the state that
-- the tokenizer and the actions work on, the file-scope variables of the machine's own file.
pub mod Runs
pub mod Tokenizer
pub mod Fuel
pub mod Ends
pub mod Pieces
use swh.Base.{
  ℕ, zero, suc, ◌+◌, ◌*◌, Bool, true, false, ◌||◌, not, Option, none, some, List, [], ◌∷◌, leb,
  ◌==◌, if◌then◌else◌, length, take, drop, Outcome, ok, fault, undefined, starved, out_of_bounds,
  ◌>>=◌,
}
use swh.Memory.{Bytes, load}
use swh.Common.{Libc, xmalloc}

-- what an action is called with: the first byte of the token, or EOF
pub data Input : Type 0 where
  byte : ℕ → Input
  eof : Input

pub record Trans (W : Type 0) : Type 0 where
  pub state : ℕ
  pub action : Input → W → Outcome W

-- A tokenizer is called with no input or with some, and with the length that `*tlen` holds. It
-- returns a token or -1 (`none`), and the new `*tlen`.
abbrev pub Mktok : Type 0 → Type 0
Mktok W = Option Bytes → ℕ → W → Outcome (Option ℕ × ℕ × W)

pub record Fsm (W : Type 0) : Type 0 where
  pub nsta : ℕ
  pub ntok : ℕ
  pub curst : ℕ
  pub errst : ℕ
  pub inist : ℕ
  pub accst : List ℕ
  pub delta : List (Trans W)
  pub f_mktok : Mktok W
  pub f_reset : Option (W → Outcome W)

-- `memcpy` of the first `n` elements of an array
unfoldable pub copy {ℓ} : {A : Type ℓ} → ℕ → List A → Outcome (List A)
copy n xs = if leb n (length xs) then ok (take n xs) else fault (undefined out_of_bounds)

-- `sizeof` of `fsm`, `int` and `struct fsm_trans` on x86-64
abbrev pub sizeof_fsm : ℕ
sizeof_fsm = 80

abbrev pub sizeof_int : ℕ
sizeof_int = 4

abbrev pub sizeof_trans : ℕ
sizeof_trans = 16

-- the data that `fsm_feed` is given: NULL with a length, or that many bytes
pub data Feed : Type 0 where
  null : ℕ → Feed
  input : Bytes → Feed

unfoldable pub is_accepting : List ℕ → ℕ → Bool
is_accepting [] st = false
is_accepting (a ∷ as') st = st == a || is_accepting as' st

abbrev pub from_bool : Bool → ℕ
from_bool true = 1
from_bool false = 0

module _ {W : Type 0} where
  unfoldable pub fsm_new :
      Libc
      → ℕ
      → ℕ
      → ℕ
      → ℕ
      → List ℕ
      → ℕ
      → List (Trans W)
      → Mktok W
      → Option (W → Outcome W)
      → Outcome (Fsm W)
  unfolding copy xmalloc
  fsm_new libc nsta ntok errst inist accst naccst delta mktok reset = do
    _ ← xmalloc libc sizeof_fsm
    _ ← xmalloc libc (naccst * sizeof_int)
    accst' ← copy naccst accst
    _ ← xmalloc libc (ntok * nsta * sizeof_trans)
    delta' ← copy (ntok * nsta) delta
    ok (record {
      nsta = nsta;
      ntok = ntok;
      curst = inist;
      errst = errst;
      inist = inist;
      accst = accst';
      delta = delta';
      f_mktok = mktok;
      f_reset = reset;
    })

  -- IND
  abbrev pub ind : Fsm W → ℕ → ℕ → ℕ
  ind f st tok = st * f.ntok + tok

  unfoldable pub isaccepting : Fsm W → ℕ → Bool
  unfolding is_accepting
  isaccepting f st = is_accepting f.accst st

  -- The loop over input, with the number of bytes read and the bytes that are left. The sum does not wrap:
  -- a token that is said to be longer than what is left, as one of 2 ^ 31 bytes may be, ends the loop.
  unfoldable pub feed_from : ℕ → Fsm W → ℕ → Bytes → W → Outcome (ℕ × Fsm W × W)
  feed_from zero f i rest w = fault starved
  feed_from (suc fuel) f i [] w = ok (i, f, w)
  feed_from (suc fuel) f i (c ∷ cs) w = do
    (t, toklen, w1) ← f.f_mktok (some (c ∷ cs)) 1 w
    (elim t [
      | none ↦ ok (i, f, w1)
      | some tok ↦ do
        tr ← load f.delta (ind f f.curst tok)
        w2 ← tr.action (byte c) w1
        let g = record f { curst = tr.state }
        let more = feed_from fuel g (i + toklen) (drop toklen (c ∷ cs)) w2
        (if tr.state == f.errst then ok (i + toklen, g, w2) else more)
    ])

  -- the only round of the loop when there is no data: a probe if the length is 0
  unfoldable pub feed_eof : Fsm W → ℕ → W → Outcome (ℕ × Fsm W × W)
  unfolding isaccepting
  feed_eof f len w = do
    (t, toklen, w1) ← f.f_mktok none 1 w
    (elim t [
      | none ↦ fault (undefined out_of_bounds)
      | some tok ↦ do
        tr ← load f.delta (ind f f.curst tok)
        (if len == 0
            then ok (from_bool (isaccepting f tr.state), f, w1)
            else (tr.action eof w1 >>= λ w2. ok (toklen, record f { curst = tr.state }, w2)))
    ])

  unfoldable pub fsm_feed : Fsm W → Feed → W → Outcome (ℕ × Fsm W × W)
  unfolding feed_from feed_eof
  fsm_feed f (null len) w = if f.curst == f.errst then ok (0, f, w) else feed_eof f len w
  fsm_feed f (input xs) w =
      if f.curst == f.errst then ok (0, f, w) else feed_from (length xs + 1) f 0 xs w

  run_reset : Option (W → Outcome W) → W → Outcome W
  run_reset none w = ok w
  run_reset (some r) w = r w

  unfoldable pub fsm_reset : Fsm W → W → Outcome (Fsm W × W)
  unfolding run_reset
  fsm_reset f w = run_reset f.f_reset w >>= λ w'. ok (record f { curst = f.inist }, w')

  unfoldable pub fsm_error : Fsm W → Bool
  fsm_error f = f.curst == f.errst

  unfoldable pub fsm_accepting : Fsm W → Bool
  unfolding isaccepting
  fsm_accepting f = isaccepting f f.curst
