-- ===== src/Sc/Buffers.antt =====
-- The buffers of src/sc.c: what `growbuf`, `memcpy` and the terminators leave in them.
use swh.Base.{
  ℕ, zero, suc, ◌+◌, ◌*◌, ◌≤◌, ◌<◌, ◌≡◌, refl, sym, ap, ◌∙◌, some, [], ◌∷◌, ◌++◌, map, length,
  length-set, length-take, set, take, take-set_next, arith, lt→ltb, ok,
}
use swh.Memory.{Bytes, Block, store, strlen}
use swh.Common.{Libc, slice, memcpy}
use swh.Common.Blocks.{Grants, memcpy_front, slice_lem}
use swh.Common.Growth.{growbuf_grows}
use swh.Hp.State.{Buf}
use swh.Hp.Contents.{Holds, c_string, strlen-text, length-map-some, take_shorter}
use swh.Sc.Operate.{grow, bytes_of, copy_string}

-- The buffer's block has its size, which is not 0, and the bytes in use are `xs`.
pub record Filled (b : Buf) (xs : Bytes) : Type 0 where
  pub size_eq : length b.mem ≡ b.size
  pub size_some : 0 < b.size
  pub size_small : b.size < 9223372036854775808
  pub count_eq : b.count ≡ length xs
  pub room : length xs ≤ b.size
  pub text : take (length xs) b.mem ≡ map some xs

-- Bytes that were written can be read.
pub bytes_of-some : (xs : Bytes) → bytes_of (map some xs) ≡ ok xs
unfolding bytes_of
bytes_of-some [] = refl
bytes_of-some (x ∷ xs) = rw (bytes_of-some xs) refl

-- `growbuf` of a buffer: room for what is asked, and nothing lost.
pub grow_lem :
    (libc : Libc) (b : Buf) (n : ℕ)
    → length b.mem ≡ b.size
    → 0 < b.size
    → b.size < 9223372036854775808
    → n ≤ 4611686018427387904
    → Grants libc (2 * n)
    → (m : Block) × (z : ℕ) × (grow libc n b ≡ ok (record b { mem = m; size = z }))
      × (length m ≡ z)
      × (b.size ≤ z)
      × (n ≤ z)
      × (z < 9223372036854775808)
      × (take b.size m ≡ b.mem)
unfolding grow
grow_lem libc b n e p s l g =
    let (m, z, q, h1, h2, h3, h4, d) = growbuf_grows libc b.mem b.size n e p l g in
    (m, z, rw q refl, h1, h2, h3, ground arith, h4)

-- The bytes of a C string, from those of the block that it stands in.
take-c_string :
    (m : Block) (xs : Bytes)
    → take (length xs) m ≡ map some xs
    → take (length (c_string xs)) m ≡ map some (c_string xs)
take-c_string m [] h = refl
take-c_string [] (x ∷ xs) h = absurd (ground arith)
take-c_string (y ∷ m) (zero ∷ xs) h = refl
take-c_string (y ∷ m) (suc c ∷ xs) h = ground (arith, take-c_string m xs)

pub length-c_string : (xs : Bytes) → length (c_string xs) ≤ length xs
length-c_string [] = omega arith
length-c_string (zero ∷ xs) = omega arith
length-c_string (suc c ∷ xs) = omega (arith, length-c_string xs)

copy_string_steps :
    (libc : Libc) (src : Block) (b : Buf) {n z : ℕ} {m m' : Block}
    → strlen src ≡ ok n
    → grow libc (n + 1) b ≡ ok (record b { mem = m; size = z })
    → slice src 0 n ≡ ok (take n src)
    → memcpy m 0 (take n src) ≡ ok m'
    → n < length m'
    → copy_string libc src b ≡ ok (record { mem = set m' n (some 0); size = z; count = n })
unfolding copy_string store
copy_string_steps libc src b {n} {z} {m} {m'} p q r s l =
    rw (p, q, r, s, lt→ltb n (length m') l) refl

-- The copy of a C string, in a buffer that grows for it.
pub copy_string-Holds :
    (libc : Libc) (src : Block) (xs : Bytes) {b : Buf} {ys : Bytes}
    → take (suc (length xs)) src ≡ map some xs ++ (some 0 ∷ [])
    → Holds b ys
    → length xs + 1 ≤ 4611686018427387904
    → Grants libc (2 * (length xs + 1))
    → (b' : Buf) × (copy_string libc src b ≡ ok b') × Holds b' (c_string xs)
copy_string-Holds libc src xs {b} {ys} t h l g =
    let n : ℕ = length (c_string xs) in
    let le : n ≤ length xs = length-c_string xs in
    let t' : take (length xs) src ≡ map some xs = take_shorter src xs (some 0) t in
    let len : length (take n src) ≡ n =
      ap length (take-c_string src xs t') ∙ length-map-some (c_string xs) in
    let (m, z, q, h1, h2, h3, h4, h5) =
      grow_lem libc b (n + 1) h.size_eq (omega (arith, h.room)) h.size_small (omega arith)
        (λ k e. g k (omega arith)) in
    let (m', r, s, u) = memcpy_front m (take n src) (omega arith) in
    (
      record { mem = set m' n (some 0); size = z; count = n },
      copy_string_steps libc src b (strlen-text src xs t) q
          (slice_lem src 0 n (omega (arith, length-take n src))) r (omega arith),
      record {
        size_eq = omega (arith, length-set m' n (some 0));
        size_small = h4;
        count_eq = refl;
        room = omega arith;
        text =
            take-set_next m' n (some 0) (omega arith)
            ∙ ap (λ p. p ++ (some 0 ∷ []))
                (ap (λ k. take k m') (sym len) ∙ u ∙ take-c_string src xs t');
      },
    )
