-- ===== src/Sc/Reading.antt =====
-- `read_more` of src/sc.c, and `oper_busy` when there is data.
use swh.Base.{
  ℕ, zero, suc, ◌+◌, ◌-◌, ◌%◌, ◌≤◌, ◌<◌, ◌≡◌, ◌≢◌, refl, sym, ap, ◌∙◌, Bool, false, Option, none,
  some, List, [], ◌∷◌, ◌++◌, map, length, length-append, length-drop, take, drop, arith, ne→not-==,
  if◌then◌else◌, not, ◌||◌, ok, ◌>>=◌,
}
use mathlib.Core.List.{map-append}
use swh.Memory.{Bytes, Block}
use swh.Common.{Libc, size_mod, slice, memcpy, shiftbuf}
use swh.Common.Blocks.{memcpy_behind, slice_lem, shiftbuf_drops}
use swh.Common.Io.{ReadAnswer, xread}
use swh.Fsm.{Fsm, fsm_feed, input, fsm_error}
use swh.Hp.State.{Buf}
use swh.Hp.Contents.{length-map-some}
use swh.Back.{Backend}
use swh.Sc.State.{Machine, init, cmdout, inchar, pick, is_init, Sc, current, put}
use swh.Sc.Operate.{bytes_of, grow_full, received, read_more, respond, drop_eaten, eat, oper_busy}
use swh.Sc.Buffers.{Filled, bytes_of-some}

-- The buffer is not grown while a byte is free.
pub grow_full_lem :
    (libc : Libc) {b : Buf} {xs : Bytes}
    → Filled b xs
    → length xs < b.size
    → grow_full libc b ≡ ok b
unfolding grow_full
grow_full_lem libc {b} {xs} f l =
    rw
      (ne→not-== ((b.size + size_mod - b.count) % size_mod) 0
        (omega (arith, f.count_eq, f.size_small)))
      refl

received_steps :
    (xs : Bytes) (b : Buf) {m : Block} {n : ℕ}
    → memcpy b.mem b.count (map some xs) ≡ ok m
    → (b.count + length xs) % size_mod ≡ n
    → received (some xs) b ≡ ok (length xs, record b { mem = m; count = n })
unfolding received
received_steps xs b p q = rw (p, q) refl

pub received-none : (b : Buf) → received none b ≡ ok (0, b)
unfolding received
received-none b = refl

-- What is read stands behind what was there.
received-Filled :
    {b : Buf} {ys : Bytes} (xs : Bytes)
    → Filled b ys
    → length ys + length xs ≤ b.size
    → (b' : Buf) × (received (some xs) b ≡ ok (length xs, b'))
      × Filled b' (ys ++ xs)
      × (b'.size ≡ b.size)
received-Filled {b} {ys} xs f l =
    let e : length (map some xs) ≡ length xs = length-map-some xs in
    let (m, p, q, r) =
      memcpy_behind b.mem (map some xs) b.count (omega (arith, f.count_eq, f.size_eq)) in
    (
      record b { mem = m; count = b.count + length xs },
      received_steps xs b p (omega (arith, f.count_eq, f.size_small)),
      record {
        size_eq = omega (arith, q, f.size_eq);
        size_some = f.size_some;
        size_small = f.size_small;
        count_eq = omega (arith, f.count_eq, length-append ys xs);
        room = omega (arith, length-append ys xs);
        text =
            ap (λ k. take k m) (omega (arith, f.count_eq, length-append ys xs))
            ∙ r
            ∙ ap (λ k. take k b.mem ++ map some xs) f.count_eq
            ∙ ap (λ z. z ++ map some xs) f.text
            ∙ sym (map-append some ys xs);
      },
      refl,
    )

drop-map-some : (r : ℕ) (xs : Bytes) → drop r (map some xs) ≡ map some (drop r xs)
drop-map-some zero xs = refl
drop-map-some (suc r) [] = refl
drop-map-some (suc r) (x ∷ xs) = drop-map-some r xs

pub if_true :
    {A : Type 0} {t : Bool} (u : Bool) (a b : A) → t ≡ false → (if not t || u then a else b) ≡ a
if_true u a b e = ap (λ z. if not z || u then a else b) e

pub if_false :
    {A : Type 0} {t : Bool} (a : A) {b c : A} → t ≡ false → b ≡ c → (if t then a else b) ≡ c
if_false a {b} e p = ap (λ z. if z then a else b) e ∙ p

pub pick_same :
    {A : Type 0} (c : Machine) (a x y z : A)
    → pick c (pick c a x x) (pick c y a y) (pick c z z a) ≡ a
pick_same init a x y z = refl
pick_same cmdout a x y z = refl
pick_same inchar a x y z = refl

-- The bytes in use are what the machine is given.
pub input-Filled :
    {b : Buf} {xs : Bytes}
    → Filled b xs
    → (slice b.mem 0 b.count ≡ ok (map some xs)) × (bytes_of (map some xs) ≡ ok xs)
input-Filled {b} {xs} f = (
  slice_lem b.mem 0 b.count (omega (arith, f.count_eq, f.size_eq, f.room))
      ∙ ap (λ k. ok (take k b.mem)) f.count_eq
      ∙ ap ok f.text,
  bytes_of-some xs,
)

pub shifted-Filled :
    {b : Buf} {xs : Bytes} (r : ℕ)
    → Filled b xs
    → r ≤ length xs
    → (b' : Buf) × (shiftbuf b.mem b.count r ≡ ok (b'.mem, b'.count))
      × (b'.size ≡ b.size)
      × Filled b' (drop r xs)
shifted-Filled {b} {xs} r f l =
    let (m, p, q, t) =
      shiftbuf_drops b.mem b.count r (omega (arith, f.count_eq))
        (omega (arith, f.count_eq, f.size_eq, f.room))
        (omega (arith, f.count_eq, f.room, f.size_small)) in
    let d : length (drop r xs) ≡ b.count - r = omega (arith, length-drop r xs, f.count_eq) in
    (
      record b { mem = m; count = b.count - r },
      p,
      refl,
      record {
        size_eq = omega (arith, q, f.size_eq);
        size_some = f.size_some;
        size_small = f.size_small;
        count_eq = sym d;
        room = omega (arith, f.room, f.count_eq);
        text =
            ap (λ k. take k m) d
            ∙ t
            ∙ ap (λ k. drop r (take k b.mem)) f.count_eq
            ∙ ap (drop r) f.text
            ∙ drop-map-some r xs;
      },
    )

module _ {W : Type 0} where
  abbrev pub with_reads : List ReadAnswer → Sc W → Sc W
  with_reads as' s = record s { system = record (s.system) { reads = as' } }

  pub read_more_steps :
      (libc : Libc) (s : Sc W) {r : Option Bytes} {as' : List ReadAnswer} {n : ℕ} {b : Buf}
      → grow_full libc s.readbuf ≡ ok s.readbuf
      → xread s.system.reads ≡ ok (r, as')
      → received r s.readbuf ≡ ok (n, b)
      → read_more libc s ≡ ok (n, record (with_reads as' s) { readbuf = b })
  unfolding read_more
  read_more_steps libc s p q r = rw (p, q, r) refl

  pub drop_eaten_steps :
      (r : ℕ) (s : Sc W) {n : ℕ} {m : Block}
      → shiftbuf s.readbuf.mem s.readbuf.count r ≡ ok (m, n)
      → fsm_error (current s) ≡ false
      → drop_eaten r s ≡ ok (1, record s { readbuf = record (s.readbuf) { mem = m; count = n } })
  unfolding drop_eaten
  drop_eaten_steps r s t d = rw (t, d) refl

  pub eat_steps :
      (b : Backend W) (s0 : Sc W) {cells : Block} {xs : Bytes} {r : ℕ} {f : Fsm W} {w : W}
      {s2 : Sc W}
      → slice s0.readbuf.mem 0 s0.readbuf.count ≡ ok cells
      → bytes_of cells ≡ ok xs
      → fsm_feed (current s0) (input xs) s0.back ≡ ok (r, f, w)
      → r ≢ 0
      → respond b (put s0.curfsm f w (record s0 { nodataflag = false })) ≡ ok s2
      → eat b s0 ≡ drop_eaten r s2
  unfolding eat
  eat_steps b s0 {r = r} p q e h a =
      rw (p, q, e) (if_false _ (ne→not-== r 0 h) (ap (λ z. z >>= drop_eaten r) a))

  respond-not_init : (b : Backend W) (s : Sc W) → is_init s.curfsm ≡ false → respond b s ≡ ok s
  unfolding respond
  respond-not_init b s i = if_false _ i refl

  pub eat_none_steps :
      (b : Backend W) (s0 : Sc W) {cells : Block} {xs : Bytes} {f : Fsm W} {w : W}
      → slice s0.readbuf.mem 0 s0.readbuf.count ≡ ok cells
      → bytes_of cells ≡ ok xs
      → fsm_feed (current s0) (input xs) s0.back ≡ ok (0, f, w)
      → eat b s0 ≡ ok (0, put s0.curfsm f w (record s0 { nodataflag = false }))
  unfolding eat
  eat_none_steps b s0 p q e = rw (p, q, e) refl

  pub read_more-got :
      (libc : Libc) (s : Sc W) {ys xs : Bytes} {as' : List ReadAnswer}
      → Filled s.readbuf ys
      → xread s.system.reads ≡ ok (some xs, as')
      → 0 < length xs
      → length ys + length xs ≤ s.readbuf.size
      → (b : Buf) × (read_more libc s ≡ ok (length xs, record (with_reads as' s) { readbuf = b }))
        × Filled b (ys ++ xs)
        × (b.size ≡ s.readbuf.size)
  read_more-got libc s {ys} {xs} f p l l' =
      let (b, q, g, z) = received-Filled xs f l' in
      (b, read_more_steps libc s (grow_full_lem libc f (omega arith)) p q, g, z)

  pub oper_busy-eats :
      (libc : Libc) (b : Backend W) (s : Sc W) {n : ℕ} {s1 : Sc W}
      → read_more libc s ≡ ok (n, s1)
      → n ≢ 0
      → oper_busy libc b s ≡ eat b s1
  unfolding oper_busy
  oper_busy-eats libc b s {n} p h = rw p (if_true _ _ _ (ne→not-== n 0 h))

  -- In oper_busy, with the read buffer well formed and holding some bytes, read gives more, not
  -- more than fit; the current machine, which is not that of the greeting, eats a positive number
  -- of all these bytes and does not end in its error state. Then oper_busy returns 1, the machine
  -- and the backend's variables are as the machine left them, the flag for missing data is
  -- cleared, nothing else changes but the kernel's answers, and the read buffer is well formed,
  -- of the same size, and holds exactly the bytes that were not eaten.
  pub oper_busy-feeds :
      (libc : Libc) (b : Backend W) (s : Sc W) {ys xs : Bytes} {as' : List ReadAnswer} {r : ℕ}
      {f : Fsm W} {w : W}
      → Filled s.readbuf ys
      → xread s.system.reads ≡ ok (some xs, as')
      → 0 < length xs
      → length ys + length xs ≤ s.readbuf.size
      → is_init s.curfsm ≡ false
      → fsm_feed (current s) (input (ys ++ xs)) s.back ≡ ok (r, f, w)
      → 0 < r
      → r ≤ length (ys ++ xs)
      → fsm_error f ≡ false
      → (rb : Buf) × (oper_busy libc b s
          ≡ ok (
            1,
            record (put s.curfsm f w (with_reads as' s)) { nodataflag = false; readbuf = rb },
          ))
        × Filled rb (drop r (ys ++ xs))
        × (rb.size ≡ s.readbuf.size)
  oper_busy-feeds libc b s {ys} {xs} {as'} {r} {f} {w} h p l l' i e z z' d =
      let (b1, q, g, e1) = read_more-got libc s h p l l' in
      let s1 : Sc W = record (with_reads as' s) { readbuf = b1 } in
      let (b2, t, e2, k) = shifted-Filled r g z' in
      let (u, v) = input-Filled g in
      (
        b2,
        oper_busy-eats libc b s q (omega arith)
            ∙ eat_steps b s1 u v e (omega arith)
                (respond-not_init b (put s.curfsm f w (record s1 { nodataflag = false })) i)
            ∙ drop_eaten_steps r (put s.curfsm f w (record s1 { nodataflag = false })) t
                (ap fsm_error (pick_same s.curfsm f s.fsm_init s.fsm_cmdout s.fsm_inchar) ∙ d)
            ∙ ap
                (λ n. ok (
                  1,
                  record (put s.curfsm f w (with_reads as' s)) {
                    nodataflag = false;
                    readbuf = record { mem = b2.mem; size = n; count = b2.count };
                  },
                ))
                (sym e2),
        k,
        omega (arith, e1, e2),
      )
