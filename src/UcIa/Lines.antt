-- ===== src/UcIa/Lines.antt =====
-- The lines that `uc_ia_getdata` hands out.
use swh.Base.{
  ℕ, zero, suc, ◌+◌, ◌-◌, ◌≤◌, ◌<◌, ◌≡◌, ◌≢◌, refl, sym, ap, ◌∙◌, none, some, [], ◌∷◌, ◌++◌, map,
  length, length-append, length-set, length-take, set, min, take, drop, take-set_next, take-take,
  arith, lt→ltb, ne→not-==, ok,
}
use native.Mathlib.Numerals.{add-one}
use swh.Memory.{Bytes, Block, store}
use swh.Common.{size_mod, slice, memcpy, shiftbuf}
use swh.Common.Blocks.{memcpy_front, slice_lem, shiftbuf_drops}
use swh.Hp.Contents.{take_shorter}
use swh.UcIa.{UcIa, strchr, copied, uc_ia_getdata}

-- The block holds the text, its count and its terminator.
pub record Text (u : UcIa) (xs : Bytes) : Type 0 where
  pub count_eq : u.readbufcnt ≡ length xs
  pub room : length xs < length u.readbuf
  pub size_small : length u.readbuf ≤ 4096
  pub text : take (suc (length xs)) u.readbuf ≡ map some xs ++ (some 0 ∷ [])

-- no newline, and no NUL, at which `strchr` stops
abbrev pub IsLine : Bytes → Type 0
IsLine [] = Unit
IsLine (c ∷ cs) = (c ≢ 10) × (c ≢ 0) × IsLine cs

pub strchr-line :
    (m : Block) (l more : Bytes)
    → IsLine l
    → take (length (l ++ (10 ∷ more))) m ≡ map some (l ++ (10 ∷ more))
    → strchr 10 m ≡ ok (some (length l))
unfolding strchr
strchr-line [] [] more h e = absurd (ground arith)
strchr-line (y ∷ m) [] more h e = ground arith
strchr-line [] (c ∷ l) more h e = absurd (ground arith)
strchr-line (none ∷ m) (c ∷ l) more h e = absurd (ground arith)
strchr-line (some x ∷ m) (c ∷ l) more (n, n0, h) e =
    let x_eq : x ≡ c = ground arith in
    rw (x_eq, ne→not-== c 10 n, ne→not-== c 0 n0, strchr-line m l more h (ground arith)) refl

getdata_steps :
    (dest : Block) (destsz : ℕ) (u : UcIa) {i k n : ℕ} {xs d m : Block}
    → strchr 10 u.readbuf ≡ ok (some i)
    → copied (i + 1) destsz ≡ k
    → slice u.readbuf 0 k ≡ ok xs
    → memcpy dest 0 xs ≡ ok d
    → shiftbuf u.readbuf u.readbufcnt (i + 1) ≡ ok (m, n)
    → n < length m
    → uc_ia_getdata dest destsz u
      ≡ ok (i + 1, d, record u { readbuf = set m n (some 0); readbufcnt = n })
unfolding uc_ia_getdata store
getdata_steps dest destsz u {n = n} {m = m} p c q r s l =
    rw (p, c, q, r, s, lt→ltb n (length m) l) refl

copied_lem :
    (len destsz : ℕ) → 0 < destsz → destsz < size_mod → copied len destsz ≡ min len (destsz - 1)
copied_lem len destsz h l = ground arith

drop-line : (l more : Bytes) → drop (suc (length l)) (map some (l ++ (10 ∷ more))) ≡ map some more
drop-line [] more = refl
drop-line (c ∷ l) more = drop-line l more

take-line :
    (l more : Bytes) (k : ℕ)
    → k ≤ length l + 1
    → take k (map some (l ++ (10 ∷ more))) ≡ take k (map some (l ++ (10 ∷ [])))
take-line l more zero h = refl
take-line [] more (suc zero) h = refl
take-line [] more (suc (suc k)) h = absurd (ground arith)
take-line (c ∷ l) more (suc k) h = ap (◌∷◌ (some c)) (take-line l more k (omega arith))

-- The front end's buffer holds a line, which ends in a newline and has no other and no NUL, and
-- possibly more; the size that uc_ia_getdata is given is not 0, not larger than the destination,
-- and fits size_t. Then uc_ia_getdata returns the length of the line with its newline, also when
-- that is more than the size; the destination keeps its length and begins with the line's first
-- bytes, all of them or one byte less than the size, whichever is less; the buffer holds what
-- stood behind the line; and nothing is printed.
pub uc_ia_getdata-line :
    (dest : Block) (destsz : ℕ) (u : UcIa) (l more : Bytes)
    → Text u (l ++ (10 ∷ more))
    → IsLine l
    → 0 < destsz
    → destsz ≤ length dest
    → destsz < size_mod
    → (d : Block) × (u' : UcIa) × (uc_ia_getdata dest destsz u ≡ ok (length l + 1, d, u'))
      × (length d ≡ length dest)
      × (take (min (length l + 1) (destsz - 1)) d
          ≡ take (min (length l + 1) (destsz - 1)) (map some (l ++ (10 ∷ []))))
      × Text u' more
      × (u'.shown ≡ u.shown)
uc_ia_getdata-line dest destsz u l more t h z e b =
    let xs : Bytes = l ++ (10 ∷ more) in
    let len : length xs ≡ length l + 1 + length more = omega (arith, length-append l (10 ∷ more)) in
    let k : ℕ = min (length l + 1) (destsz - 1) in
    let front : take (length xs) u.readbuf ≡ map some xs =
      take_shorter u.readbuf xs (some 0) t.text in
    let kl : k ≤ length l + 1 = omega arith in
    let part : length (take k u.readbuf) ≡ k =
      omega (arith, length-take k u.readbuf, t.room, len) in
    let (d, p, q, r) = memcpy_front dest (take k u.readbuf) (omega arith) in
    let (m, p1, q1, r1) =
      shiftbuf_drops u.readbuf u.readbufcnt (length l + 1) (omega (arith, t.count_eq, len))
        (omega (arith, t.count_eq, t.room)) (omega (arith, t.count_eq, t.room, t.size_small)) in
    let n : u.readbufcnt - (length l + 1) ≡ length more = omega (arith, t.count_eq, len) in
    (
      d,
      record u {
        readbuf = set m (u.readbufcnt - (length l + 1)) (some 0);
        readbufcnt = u.readbufcnt - (length l + 1);
      },
      getdata_steps dest destsz u (strchr-line u.readbuf l more h front)
          (copied_lem (length l + 1) destsz z b)
          (slice_lem u.readbuf 0 k (omega (arith, t.room, len))) p p1
          (omega (arith, q1, n, t.room, len)),
      q,
      ap (λ j. take j d) (sym part)
          ∙ r
          ∙ sym (take-take k (length xs) u.readbuf (omega (arith, len)))
          ∙ ap (take k) front
          ∙ take-line l more k kl,
      record {
        count_eq = n;
        room =
            omega (arith, length-set m (u.readbufcnt - (length l + 1)) (some 0), q1, t.room, len);
        size_small =
            omega (arith, length-set m (u.readbufcnt - (length l + 1)) (some 0), q1, t.size_small);
        text =
            ap (λ j. take (suc (length more)) (set m j (some 0))) n
            ∙ take-set_next m (length more) (some 0) (omega (arith, q1, t.room, len))
            ∙ ap (λ j. j ++ (some 0 ∷ []))
                (ap (λ j. take j m) (sym n)
                  ∙ r1
                  ∙ ap (λ j. drop (length l + 1) (take j u.readbuf)) t.count_eq
                  ∙ ap (drop (length l + 1)) front
                  ∙ ap (λ j. drop j (map some (l ++ (10 ∷ more)))) (add-one (length l))
                  ∙ drop-line l more);
      },
      refl,
    )
