-- ===== src/Sc/Writing.antt =====
-- `sc_write` and `oper_writing` of src/sc.c.
use swh.Base.{
  ℕ, ◌+◌, ◌-◌, ◌*◌, ◌≤◌, ◌<◌, ◌≡◌, ◌≢◌, refl, sym, ap, ◌∙◌, true, some, [], ◌∷◌, ◌++◌, map, length,
  length-set, length-take, set, take, drop, take-set_next, take-set_behind, arith, lt→ltb,
  ne→not-==, ◌==◌, if◌then◌else◌, ok,
}
use swh.Memory.{Bytes, Block, store, load}
use swh.Common.{Libc, slice, memcpy, shiftbuf}
use swh.Common.Blocks.{Grants, memcpy_behind, slice_lem, shiftbuf_drops}
use swh.Common.Io.{System, xwrite}
use swh.Common.Io.Sends.{Willing, writing_answers, xwrite-sends}
use swh.Fsm.{Fsm, fsm_reset}
use swh.Hp.State.{Buf}
use swh.Hp.Contents.{Holds, length-map-some}
use swh.Sc.State.{busy, writing, Machine, cmdout, inchar, Sc, current, put, sc_ready}
use swh.Sc.Operate.{grow, byte_of, sc_write, oper_writing}
use swh.Sc.Buffers.{Filled, grow_lem}

-- which machine eats the echo of a character: `cmdout` that of a newline
abbrev pub after : ℕ → Machine
after c = if c == 10 then cmdout else inchar

load_first :
    (m : Block) (c : ℕ) (cs : Bytes)
    → take (length (c ∷ cs)) m ≡ map some (c ∷ cs)
    → load m 0 ≡ ok (some c)
unfolding load
load_first [] c cs h = absurd (ground arith)
load_first (x ∷ m) c cs h = ground arith

module _ {W : Type 0} where
  sc_write_steps :
      (libc : Libc) (str : Block) (len : ℕ) (s : Sc W) {m : Block} {z : ℕ} {xs m' : Block}
      → sc_ready s ≡ true
      → (s.writebuf.count == 0) ≡ true
      → grow libc (s.writebuf.count + len + 1) s.writebuf
        ≡ ok (record (s.writebuf) { mem = m; size = z })
      → slice str 0 len ≡ ok xs
      → memcpy m s.writebuf.count xs ≡ ok m'
      → s.writebuf.count + len < length m'
      → 0 < length s.outbuf.mem
      → sc_write libc str len s
        ≡ ok (record s {
          writebuf = record {
            mem = set m' (s.writebuf.count + len) (some 0);
            size = z;
            count = s.writebuf.count + len;
          };
          state = writing;
          outbuf = record (s.outbuf) { mem = set s.outbuf.mem 0 (some 0); count = 0 };
        })
  unfolding sc_write store
  sc_write_steps libc str len s {m} {z} {xs} {m'} e n p q r l l' =
      rw
        (
          e,
          n,
          p,
          q,
          r,
          lt→ltb (s.writebuf.count + len) (length m') l,
          lt→ltb 0 (length s.outbuf.mem) l',
        )
        refl

  -- In the state READY, with an empty write buffer and a well-formed buffer for the reply,
  -- sc_write is given bytes that were written and whose growth of the buffer the allocator
  -- grants. It returns in the state WRITING with exactly these bytes queued and the reply purged,
  -- and nothing else changes.
  pub sc_write-queues :
      (libc : Libc) (str : Block) (xs : Bytes) (s : Sc W) {ys : Bytes}
      → sc_ready s ≡ true
      → Filled s.writebuf []
      → Holds s.outbuf ys
      → take (length xs) str ≡ map some xs
      → length xs + 1 ≤ 4611686018427387904
      → Grants libc (2 * (length xs + 1))
      → (b o : Buf) × (sc_write libc str (length xs) s
          ≡ ok (record s { writebuf = b; state = writing; outbuf = o }))
        × Filled b xs
        × Holds o []
  sc_write-queues libc str xs s e f h t l g =
      let n : ℕ = length xs in
      let n' : ℕ = s.writebuf.count + n in
      let z0 : s.writebuf.count ≡ 0 = f.count_eq in
      let len : length (take n str) ≡ n = ap length t ∙ length-map-some xs in
      let (m, z, q, h1, h2, h3, h4, h5) =
        grow_lem libc s.writebuf (n' + 1) f.size_eq f.size_some f.size_small (omega arith)
          (λ k b. g k (omega arith)) in
      let (m', r, p, u) = memcpy_behind m (take n str) s.writebuf.count (omega arith) in
      (
        record { mem = set m' n' (some 0); size = z; count = n' },
        record (s.outbuf) { mem = set s.outbuf.mem 0 (some 0); count = 0 },
        sc_write_steps libc str n s e (ground arith) q
            (slice_lem str 0 n (omega (arith, length-take n str))) r (omega arith)
            (omega (arith, h.size_eq, h.room)),
        record {
          size_eq = omega (arith, length-set m' n' (some 0));
          size_some = omega arith;
          size_small = h4;
          count_eq = omega arith;
          room = omega arith;
          text =
              take-set_behind m' n n' (some 0) (omega arith)
              ∙ ap (λ k. take k m') (omega arith)
              ∙ u
              ∙ ap (λ k. take k m ++ take n str) z0
              ∙ t;
        },
        record {
          size_eq = omega (arith, length-set s.outbuf.mem 0 (some 0), h.size_eq);
          size_small = h.size_small;
          count_eq = refl;
          room = omega (arith, h.room);
          text = take-set_next s.outbuf.mem 0 (some 0) (omega (arith, h.size_eq, h.room));
        },
      )

  abbrev pub at : Machine → Sc W → Sc W
  at cur s = record s { curfsm = cur }

  oper_writing_steps :
      (s : Sc W) (c : ℕ) {k : System} {m : Block} {n : ℕ} {f : Fsm W} {w : W}
      → s.writebuf.count ≢ 0
      → load s.writebuf.mem 0 ≡ ok (some c)
      → xwrite (c ∷ []) s.system ≡ ok k
      → shiftbuf s.writebuf.mem s.writebuf.count 1 ≡ ok (m, n)
      → fsm_reset (current (at (after c) s)) s.back ≡ ok (f, w)
      → oper_writing s
        ≡ ok (
          1,
          record (put (after c) f w (record s {
            system = k;
            writebuf = record (s.writebuf) { mem = m; count = n };
            curfsm = after c;
          })) { state = busy },
        )
  unfolding oper_writing byte_of
  oper_writing_steps s c h p q r t = rw (ne→not-== s.writebuf.count 0 h, p, q, r, t) refl

  -- In oper_writing, with a character queued and possibly more behind it, no write fails and one
  -- at least writes something, and the machine for the echo, that of the command's output for a
  -- newline and that of a character for any other byte, can be reset. Then oper_writing returns 1
  -- in the state BUSY, exactly the character was sent, the rest stays queued, the machine is
  -- current and as the reset left it, and nothing else changes.
  pub oper_writing-sends :
      (s : Sc W) (c : ℕ) (cs : Bytes) {f : Fsm W} {w : W}
      → Filled s.writebuf (c ∷ cs)
      → Willing s.system.writes
      → 1 ≤ writing_answers s.system.writes
      → fsm_reset (current (at (after c) s)) s.back ≡ ok (f, w)
      → (b : Buf) × (k : System) × (oper_writing s
          ≡ ok (
            1,
            record (put (after c) f w (record s { system = k; writebuf = b; curfsm = after c })) {
              state = busy;
            },
          ))
        × Filled b cs
        × (k.sent ≡ s.system.sent ++ (c ∷ []))
        × (k.reads ≡ s.system.reads)
        × Willing k.writes
        × (writing_answers s.system.writes ≤ writing_answers k.writes + 1)
  oper_writing-sends s c cs {f} {w} h u l e =
      let (k, p, q, q1, q2, q3) = xwrite-sends (c ∷ []) s.system u l in
      let (m', r, r1, r2) =
        shiftbuf_drops s.writebuf.mem s.writebuf.count 1 (omega (arith, h.count_eq))
          (omega (arith, h.count_eq, h.size_eq, h.room))
          (omega (arith, h.count_eq, h.room, h.size_small)) in
      let n : s.writebuf.count - 1 ≡ length cs = omega (arith, h.count_eq) in
      (
        record (s.writebuf) { mem = m'; count = s.writebuf.count - 1 },
        k,
        oper_writing_steps s c (omega (arith, h.count_eq)) (load_first s.writebuf.mem c cs h.text) p
            r e,
        record {
          size_eq = omega (arith, r1, h.size_eq);
          size_some = h.size_some;
          size_small = h.size_small;
          count_eq = n;
          room = omega (arith, h.room);
          text =
              ap (λ z. take z m') (sym n)
              ∙ r2
              ∙ ap (λ z. drop 1 (take z s.writebuf.mem)) h.count_eq
              ∙ ap (drop 1) h.text;
        },
        q,
        q1,
        q2,
        q3,
      )

  -- The same with the name of the machine.
  pub oper_writing-to :
      (s : Sc W) (c : ℕ) (cs : Bytes) (cur : Machine) {f : Fsm W} {w : W}
      → after c ≡ cur
      → Filled s.writebuf (c ∷ cs)
      → Willing s.system.writes
      → 1 ≤ writing_answers s.system.writes
      → fsm_reset (current (at cur s)) s.back ≡ ok (f, w)
      → (b : Buf) × (k : System) × (oper_writing s
          ≡ ok (
            1,
            record (put cur f w (record s { system = k; writebuf = b; curfsm = cur })) {
              state = busy;
            },
          ))
        × Filled b cs
        × (k.sent ≡ s.system.sent ++ (c ∷ []))
        × (k.reads ≡ s.system.reads)
        × Willing k.writes
        × (writing_answers s.system.writes ≤ writing_answers k.writes + 1)
  oper_writing-to s c cs cur {f} {w} e h u l p =
      let p' : fsm_reset (current (at (after c) s)) s.back ≡ ok (f, w) =
        ap (λ m. fsm_reset (current (at m s)) s.back) e ∙ p in
      let (b, k, q, r1, r2, r3, r4, r5) = oper_writing-sends s c cs h u l p' in
      (
        b,
        k,
        q
            ∙ ap
                (λ m. ok (
                  1,
                  record (put m f w (record s { system = k; writebuf = b; curfsm = m })) {
                    state = busy;
                  },
                ))
                e,
        r1,
        r2,
        r3,
        r4,
        r5,
      )
