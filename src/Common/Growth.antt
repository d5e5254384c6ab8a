-- ===== src/Common/Growth.antt =====
-- `growbuf` and the loop that doubles a size, of src/common/common.c.
use swh.Base.{
  ℕ, zero, suc, ◌*◌, ◌%◌, ◌≤◌, ◌<◌, ◌≡◌, ◌⊎◌, inl, inr, refl, ◌∙◌, arith, true, lt→ltb, le→not-ltb,
  length, take, take-all, ok,
}
use native.Mathlib.Decide.{dec_lt}
use swh.Memory.{Block}
use swh.Common.Blocks.{length-resize, take-resize}
use swh.Common.{Libc, size_mod, double_until, doublings, growbuf, resize}

-- `n` doubled `k` times
abbrev doubled_times : ℕ → ℕ → ℕ
doubled_times zero n = n
doubled_times (suc k) n = doubled_times k (n * 2)

doubled_times_mono : (k m n : ℕ) → m ≤ n → doubled_times k m ≤ doubled_times k n
doubled_times_mono zero m n h = h
doubled_times_mono (suc k) m n h = doubled_times_mono k (m * 2) (n * 2) (omega arith)

double_until-reaches :
    (k nsz minsz : ℕ)
    → minsz ≤ doubled_times k nsz
    → minsz ≤ 9223372036854775808
    → (n : ℕ) × (double_until (suc k) nsz minsz ≡ ok n)
      × (minsz ≤ n)
      × (nsz ≤ n)
      × ((n ≡ nsz) ⊎ (n < 2 * minsz))
unfolding double_until
double_until-reaches zero nsz minsz h b = (nsz, ground arith, omega arith, omega arith, inl refl)
double_until-reaches (suc k) nsz minsz h b = elim (dec_lt nsz minsz) [
  | yes l ↦
      let (n, p, q, r, d) = double_until-reaches k (nsz * 2) minsz h b in
      let e : nsz * 2 % size_mod ≡ nsz * 2 = omega arith in
      (n, rw (lt→ltb nsz minsz l, e) p, q, omega arith, inr (ground arith))
  | no l ↦ (nsz, ground arith, omega arith, omega arith, inl refl)
]

-- From a size that is not 0 and for a bound of at most 2 ^ 63, the loop that doubles a size ends
-- within 64 rounds without a wrap-around, at the size that it started with or below twice the
-- bound, and not below the bound or the start.
pub double_until_ends :
    (nsz minsz : ℕ)
    → 0 < nsz
    → minsz ≤ 9223372036854775808
    → (n : ℕ) × (double_until doublings nsz minsz ≡ ok n)
      × (minsz ≤ n)
      × (nsz ≤ n)
      × ((n ≡ nsz) ⊎ (n < 2 * minsz))
double_until_ends nsz minsz p b =
    double_until-reaches 64 nsz minsz (omega (arith, doubled_times_mono 64 1 nsz p)) b

-- growbuf, given a block of the size it says, which is not 0, a wanted size of at most 2 ^ 62,
-- and an allocator that grants up to twice the wanted size, returns; the block has the new size
-- it says, which is at least the old size and the wanted one, and either the old size or below
-- twice the wanted one; and the old bytes are kept.
pub growbuf_grows :
    (libc : Libc) (m : Block) (bufsz minsz : ℕ)
    → length m ≡ bufsz
    → 0 < bufsz
    → minsz ≤ 4611686018427387904
    → ((n : ℕ) → n ≤ 2 * minsz → libc.alloc n ≡ true)
    → (m' : Block) × (n : ℕ) × (growbuf libc m bufsz minsz ≡ ok (m', n))
      × (length m' ≡ n)
      × (bufsz ≤ n)
      × (minsz ≤ n)
      × (take bufsz m' ≡ m)
      × ((n ≡ bufsz) ⊎ (n < 2 * minsz))
unfolding growbuf
growbuf_grows libc m bufsz minsz e p b g = elim (dec_lt minsz bufsz) [
  | yes l ↦ (
    m,
    bufsz,
    ground arith,
    e,
    omega arith,
    omega arith,
    take-all m bufsz (omega arith),
    inl refl,
  )
  | no l ↦
      let (n, q, h1, h2, h3) = double_until_ends bufsz minsz p (omega arith) in
      let a : libc.alloc n ≡ true = g n (ground arith) in
      (
        resize m n,
        n,
        rw (le→not-ltb minsz bufsz (omega arith), q, a) refl,
        length-resize m n,
        h2,
        h1,
        take-resize m n bufsz (omega arith) h2 ∙ take-all m bufsz (omega arith),
        h3,
      )
]
