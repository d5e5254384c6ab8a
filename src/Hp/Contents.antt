-- ===== src/Hp/Contents.antt =====
-- What the growing buffers of src/back/hp hold: a text and its terminator.
use swh.Base.{
  ℕ, zero, suc, ◌+◌, ◌*◌, ◌%◌, ◌≤◌, ◌<◌, ◌≡◌, refl, ap, ◌∙◌, true, Option, none, some, [], ◌∷◌,
  ◌++◌, map, length, length-append, length-set, length-replicate, set, take, replicate,
  take-set_next, arith, ok,
}
use mathlib.Core.List.{map-append}
use native.Mathlib.Decide.{dec_le}
use native.Mathlib.Numerals.{add-one}
use swh.Memory.{Bytes, Block, strlen}
use swh.Common.{Libc, resize, size_mod}
use swh.Common.Blocks.{Grants, length-resize, take-resize}
use swh.Hp.State.{Buf}
use swh.Hp.Buffers.{clear, new_buf, append_char, make_room, recps}
use swh.Hp.Cmdout.{grow_out, rec_char}

-- The buffer's block has its size, and holds the text and behind it a terminator.
pub record Holds (b : Buf) (xs : Bytes) : Type 0 where
  pub size_eq : length b.mem ≡ b.size
  pub size_small : b.size < 9223372036854775808
  pub count_eq : b.count ≡ length xs
  pub room : length xs < b.size
  pub text : take (suc (length xs)) b.mem ≡ map some xs ++ (some 0 ∷ [])

pub length-map-some : (xs : Bytes) → length (map some xs) ≡ length xs
length-map-some [] = refl
length-map-some (x ∷ xs) = ap suc (length-map-some xs)

pub take_shorter :
    (m : Block) (xs : Bytes) (c : Option ℕ)
    → take (suc (length xs)) m ≡ map some xs ++ (c ∷ [])
    → take (length xs) m ≡ map some xs
take_shorter m [] c h = refl
take_shorter [] (x ∷ xs) c h = absurd (ground arith)
take_shorter (y ∷ m) (x ∷ xs) c h = ground (arith, take_shorter m xs c)

-- A character and a terminator written behind a text extend it.
take-set-set :
    (m : Block) (xs : Bytes) (c : ℕ)
    → length xs + 1 < length m
    → take (length xs) m ≡ map some xs
    → take (suc (length xs + 1)) (set (set m (length xs) (some c)) (length xs + 1) (some 0))
      ≡ map some (xs ++ (c ∷ [])) ++ (some 0 ∷ [])
take-set-set m xs c l h =
    rw
      (
        take-set_next (set m (length xs) (some c)) (length xs + 1) (some 0)
            (omega (arith, length-set m (length xs) (some c))),
        add-one,
        take-set_next m (length xs) (some c) (omega arith),
        h,
        map-append,
      )
      refl

-- Appending a character for which there is room.
pub append_char-Holds :
    {b : Buf} {xs : Bytes} (c : ℕ)
    → Holds b xs
    → b.count + 1 < b.size
    → (b' : Buf) × (append_char c b ≡ ok b') × Holds b' (xs ++ (c ∷ []))
unfolding append_char
append_char-Holds {b} {xs} c h l = (
  record b { mem = set (set b.mem b.count (some c)) (b.count + 1) (some 0); count = b.count + 1 },
  ground (arith, length-set b.mem b.count (some c)),
  record {
    size_eq = ground (
      arith,
      length-set b.mem b.count (some c),
      length-set (set b.mem b.count (some c)) (b.count + 1) (some 0),
    );
    size_small = h.size_small;
    count_eq = omega (arith, h.count_eq, length-append xs (c ∷ []));
    room = omega (arith, h.count_eq, length-append xs (c ∷ []));
    text =
        rw (length-append xs (c ∷ []), h.count_eq)
          (take-set-set b.mem xs c (omega arith) (take_shorter b.mem xs (some 0) h.text));
  },
)

-- A larger block keeps the text.
pub resize-Holds :
    {b : Buf} {xs : Bytes} (n : ℕ)
    → Holds b xs
    → b.size ≤ n
    → n < 9223372036854775808
    → Holds (record b { mem = resize b.mem n; size = n }) xs
resize-Holds {b} {xs} n h l u = record {
  size_eq = length-resize b.mem n;
  size_small = u;
  count_eq = h.count_eq;
  room = omega arith;
  text = take-resize b.mem n (suc (length xs)) (omega arith) (omega arith) ∙ h.text;
}

-- Writing the terminator again changes nothing of the text.
terminate-Holds :
    {b : Buf} {xs : Bytes} → Holds b xs → Holds (record b { mem = set b.mem b.count (some 0) }) xs
terminate-Holds {b} {xs} h = record {
  size_eq = omega (arith, length-set b.mem b.count (some 0), h.size_eq);
  size_small = h.size_small;
  count_eq = h.count_eq;
  room = h.room;
  text = rw h.count_eq (
      take-set_next b.mem (length xs) (some 0) (omega (arith, h.size_eq, h.room))
      ∙ rw (take_shorter b.mem xs (some 0) h.text) refl);
}

-- the doubled size, as `size_t` has it
abbrev doubled : Buf → ℕ
doubled b = b.size * 2 % size_mod

module _ (libc : Libc) {b : Buf} {xs : Bytes} (h : Holds b xs)
    (g : Grants libc (2 * (length xs + 1))) where
  grant : b.size ≤ b.count + 1 → libc.alloc (doubled b) ≡ true
  grant l = g (doubled b) (omega (arith, h.count_eq, h.size_small))

  doubled-Holds :
      b.size ≤ b.count + 1
      → Holds (record b { mem = resize b.mem (doubled b); size = doubled b }) xs
  doubled-Holds l =
      resize-Holds (doubled b) h (omega (arith, h.size_small))
        (libc.alloc_small (doubled b) (grant l))

  -- Making room keeps the text, and leaves room for one more character.
  make_room-Holds : (b' : Buf) × (make_room libc b ≡ ok b') × Holds b' xs × (b'.count + 1 < b'.size)
  unfolding make_room
  make_room-Holds = elim (dec_le b.size (b.count + 1)) [
    | yes l ↦ (
      record b { mem = resize b.mem (doubled b); size = doubled b },
      ground (arith, grant l),
      doubled-Holds l,
      omega (arith, h.count_eq, h.room, h.size_small),
    )
    | no l ↦ (b, ground arith, h, omega arith)
  ]

  -- `act_recps` appends a character.
  pub recps-Holds : (c : ℕ) → (b' : Buf) × (recps libc c b ≡ ok b') × Holds b' (xs ++ (c ∷ []))
  unfolding recps
  recps-Holds c =
      let (b1, p, h1, l) = make_room-Holds in
      let (b2, q, h2) = append_char-Holds c h1 l in (b2, rw (p, q) refl, h2)

  grow_out-Holds : (b' : Buf) × (grow_out libc b ≡ ok b') × Holds b' xs × (b'.count + 1 < b'.size)
  unfolding grow_out
  grow_out-Holds = elim (dec_le b.size (b.count + 1)) [
    | yes l ↦
        let k = doubled-Holds l in
        (
          record b { mem = set (resize b.mem (doubled b)) b.count (some 0); size = doubled b },
          ground (arith, grant l, k.size_eq, h.size_small, h.count_eq, h.room),
          terminate-Holds k,
          omega (arith, h.count_eq, h.room, h.size_small),
        )
    | no l ↦ (b, ground arith, h, omega arith)
  ]

  -- `act_rec` appends a character.
  pub rec_char-Holds :
      (c : ℕ) → (b' : Buf) × (rec_char libc c b ≡ ok b') × Holds b' (xs ++ (c ∷ []))
  unfolding rec_char
  rec_char-Holds c =
      let (b1, p, h1, l) = grow_out-Holds in
      let (b2, q, h2) = append_char-Holds c h1 l in (b2, rw (p, q) refl, h2)

-- Clearing a buffer leaves the empty text.
pub clear-Holds : {b : Buf} {xs : Bytes} → Holds b xs → (b' : Buf) × (clear b ≡ ok b') × Holds b' []
unfolding clear
clear-Holds {b} h = (
  record b { mem = set b.mem 0 (some 0); count = 0 },
  ground (arith, h.size_eq, h.room),
  record {
    size_eq = omega (arith, length-set b.mem 0 (some 0), h.size_eq);
    size_small = h.size_small;
    count_eq = refl;
    room = omega (arith, h.room);
    text = take-set_next b.mem 0 (some 0) (omega (arith, h.size_eq, h.room));
  },
)

-- A new buffer holds the empty text.
pub new_buf-Holds :
    (libc : Libc) (n : ℕ) (b : Buf)
    → libc.alloc n ≡ true
    → 0 < n
    → b.count ≡ 0
    → (b' : Buf) × (new_buf libc n b ≡ ok b') × Holds b' []
unfolding new_buf
new_buf-Holds libc n b a l c =
    let m : Block = replicate n none in
    let len : length m ≡ n = length-replicate n none in
    (
      record b { mem = set m 0 (some 0); size = n },
      ground (arith, len),
      record {
        size_eq = omega (arith, length-set m 0 (some 0), len);
        size_small = libc.alloc_small n a;
        count_eq = c;
        room = l;
        text = take-set_next m 0 (some 0) (omega (arith, len));
      },
    )

-- the part of a text in front of its first NUL
abbrev pub c_string : Bytes → Bytes
c_string [] = []
c_string (zero ∷ xs) = []
c_string (suc c ∷ xs) = suc c ∷ c_string xs

pub strlen-text :
    (m : Block) (xs : Bytes)
    → take (suc (length xs)) m ≡ map some xs ++ (some 0 ∷ [])
    → strlen m ≡ ok (length (c_string xs))
unfolding strlen
strlen-text [] [] h = absurd (ground arith)
strlen-text (y ∷ m) [] h = ground arith
strlen-text [] (x ∷ xs) h = absurd (ground arith)
strlen-text (y ∷ m) (zero ∷ xs) h = ground arith
strlen-text (y ∷ m) (suc c ∷ xs) h = ground (arith, strlen-text m xs)

-- `strlen` of a buffer stops at the first NUL of its text.
pub strlen-Holds : {b : Buf} {xs : Bytes} → Holds b xs → strlen b.mem ≡ ok (length (c_string xs))
strlen-Holds {b} {xs} h = strlen-text b.mem xs h.text
