-- ===== src/Sc/Completing.antt =====
-- `oper_busy` of src/sc.c when there is no data: the answer of the switch is complete.
use swh.Base.{
  ℕ, suc, ◌+◌, ◌*◌, ◌≤◌, ◌<◌, ◌≡◌, ◌≢◌, refl, ap, ◌∙◌, Bool, true, false, none, some, List, [], ◌∷◌,
  ◌++◌, map, length, take, arith, ne→not-==, ◌==◌, if◌then◌else◌, not, ok, fault, critical, meh,
}
use swh.Memory.{Bytes, Block}
use swh.Common.{Libc}
use swh.Common.Blocks.{Grants}
use swh.Common.Io.{ReadAnswer, xread}
use swh.Fsm.{Fsm, fsm_feed, null}
use swh.Hp.State.{Buf}
use swh.Hp.Contents.{Holds, c_string}
use swh.Back.{Backend}
use swh.Sc.State.{writing, ready, Machine, init, cmdout, inchar, Sc, current, put}
use swh.Sc.Operate.{copy_string, complete, finish, starve, oper_busy, reply_of, prompt_of}
use swh.Sc.Buffers.{Filled, copy_string-Holds}
use swh.Sc.Reading.{with_reads, read_more_steps, grow_full_lem, pick_same, received-none}

-- a block begins with the C string, or the bytes with NULs among them, and a terminator
abbrev pub Begins : Block → Bytes → Type 0
Begins m xs = take (suc (length xs)) m ≡ map some xs ++ (some 0 ∷ [])

if_not : {A : Type 0} {t : Bool} (a b : A) → t ≡ false → (if not t then a else b) ≡ a
if_not a b e = ap (λ z. if not z then a else b) e

module _ {W : Type 0} where
  put-put :
      (c : Machine) (s : Sc W) (f f' : Fsm W) (w w' : W) → put c f' w' (put c f w s) ≡ put c f' w' s
  put-put init s f f' w w' = refl
  put-put cmdout s f f' w w' = refl
  put-put inchar s f f' w w' = refl

  complete_steps :
      (libc : Libc) (b : Backend W) (s : Sc W) {o p : Buf}
      → s.writebuf.count ≡ 0
      → s.outbuf.count ≡ 0
      → copy_string libc (reply_of b s) s.outbuf ≡ ok o
      → copy_string libc (prompt_of b s) s.ps1buf ≡ ok p
      → complete libc b s ≡ ok (1, record s { outbuf = o; ps1buf = p; state = ready })
  unfolding complete
  complete_steps libc b s e e' p q =
      let t : (s.writebuf.count == 0) ≡ true = ground arith in
      let t' : (s.outbuf.count == 0) ≡ true = ground arith in rw (t, t', p, q) refl

  complete_more :
      (libc : Libc) (b : Backend W) (s : Sc W)
      → s.writebuf.count ≢ 0
      → complete libc b s ≡ ok (1, record s { state = writing })
  unfolding complete
  complete_more libc b s h = if_not _ _ (ne→not-== s.writebuf.count 0 h)

  finish_steps :
      (libc : Libc) (b : Backend W) (s : Sc W) {r : ℕ} {f : Fsm W} {w : W}
      → fsm_feed (current s) (null 1) s.back ≡ ok (r, f, w)
      → finish libc b s ≡ complete libc b (put s.curfsm f w s)
  unfolding finish
  finish_steps libc b s p = rw p refl

  starve_steps :
      (libc : Libc) (b : Backend W) (s : Sc W) {n r : ℕ} {f f' : Fsm W} {w w' : W}
      → fsm_feed (current s) (null 0) s.back ≡ ok (n, f, w)
      → n ≢ 0
      → fsm_feed f (null 1) w ≡ ok (r, f', w')
      → starve libc b s ≡ complete libc b (put s.curfsm f' w' s)
  unfolding starve
  starve_steps libc b s {n} {r} {f} {f'} {w} {w'} p h q = rw p (
      if_not _ _ (ne→not-== n 0 h)
      ∙ finish_steps libc b (put s.curfsm f w s) (
          ap (λ g. fsm_feed g (null 1) w)
            (pick_same s.curfsm f s.fsm_init s.fsm_cmdout s.fsm_inchar)
          ∙ q)
      ∙ ap (complete libc b) (put-put s.curfsm s f f' w w'))

  oper_busy-starves :
      (libc : Libc) (b : Backend W) (s : Sc W) {as' : List ReadAnswer}
      → Filled s.readbuf []
      → xread s.system.reads ≡ ok (none, as')
      → oper_busy libc b s ≡ starve libc b (with_reads as' s)
  unfolding oper_busy
  oper_busy-starves libc b s f p =
      let c : (s.readbuf.count == 0) ≡ true = ground (arith, f.count_eq) in
      rw (read_more_steps libc s (grow_full_lem libc f f.size_some) p (received-none s.readbuf), c)
        refl

  -- In oper_busy, with nothing unread, read says EAGAIN; the current machine says yes to the
  -- probe for the end of the data and takes the end; some character is queued. Then oper_busy
  -- returns 1 in the state WRITING, and nothing else changes but the machine, the backend's
  -- variables and the kernel's answers.
  pub oper_busy-continues :
      (libc : Libc) (b : Backend W) (s : Sc W) {as' : List ReadAnswer} {n r : ℕ} {f f' : Fsm W}
      {w w' : W}
      → Filled s.readbuf []
      → xread s.system.reads ≡ ok (none, as')
      → fsm_feed (current s) (null 0) s.back ≡ ok (n, f, w)
      → 0 < n
      → fsm_feed f (null 1) w ≡ ok (r, f', w')
      → s.writebuf.count ≢ 0
      → oper_busy libc b s
        ≡ ok (1, record (put s.curfsm f' w' (with_reads as' s)) { state = writing })
  oper_busy-continues libc b s {as'} {f' = f'} {w' = w'} h p q l q' d =
      oper_busy-starves libc b s h p
      ∙ starve_steps libc b (with_reads as' s) q (omega arith) q'
      ∙ complete_more libc b (put s.curfsm f' w' (with_reads as' s)) d

  -- In oper_busy, with nothing unread, read says EAGAIN; the current machine says yes to the
  -- probe for the end of the data and accepts the end; no character is queued and the last reply
  -- was purged; the backend's output and prompt are texts with a terminator, and the allocator
  -- grants their copies. Then oper_busy returns 1 in the state READY, the buffers for the reply
  -- and the prompt hold the backend's output and prompt up to their first NUL, and nothing else
  -- changes but the machine, the backend's variables and the kernel's answers.
  pub oper_busy-completes :
      (libc : Libc) (b : Backend W) (s : Sc W) {as' : List ReadAnswer} {n r : ℕ} {f f' : Fsm W}
      {w w' : W} {ys : Bytes} (out ps : Bytes)
      → Filled s.readbuf []
      → xread s.system.reads ≡ ok (none, as')
      → fsm_feed (current s) (null 0) s.back ≡ ok (n, f, w)
      → 0 < n
      → fsm_feed f (null 1) w ≡ ok (r, f', w')
      → Filled s.writebuf []
      → Holds s.outbuf []
      → Holds s.ps1buf ys
      → Begins (reply_of b (record s { back = w' })) out
      → Begins (prompt_of b (record s { back = w' })) ps
      → length out + 1 ≤ 4611686018427387904
      → length ps + 1 ≤ 4611686018427387904
      → Grants libc (2 * (length out + 1))
      → Grants libc (2 * (length ps + 1))
      → (o p : Buf) × (oper_busy libc b s
          ≡ ok (
            1,
            record (put s.curfsm f' w' (with_reads as' s)) {
              outbuf = o;
              ps1buf = p;
              state = ready;
            },
          ))
        × Holds o (c_string out)
        × Holds p (c_string ps)
  oper_busy-completes libc b s {as'} {f' = f'} {w' = w'} out ps h p q l q' e ho hp bo bp lo lp go
        gp =
      let (o, u, ko) =
        copy_string-Holds libc (reply_of b (record s { back = w' })) out bo ho lo go in
      let (p1, v, kp) =
        copy_string-Holds libc (prompt_of b (record s { back = w' })) ps bp hp lp gp in
      (
        o,
        p1,
        oper_busy-starves libc b s h p
            ∙ starve_steps libc b (with_reads as' s) q (omega arith) q'
            ∙ complete_steps libc b (put s.curfsm f' w' (with_reads as' s)) e.count_eq ho.count_eq u
                v,
        ko,
        kp,
      )

  starve_waits :
      (libc : Libc) (b : Backend W) (s : Sc W) {f : Fsm W} {w : W}
      → fsm_feed (current s) (null 0) s.back ≡ ok (0, f, w)
      → (starve libc b (record s { nodataflag = false })
          ≡ ok (0, record (put s.curfsm f w s) { nodataflag = true }))
        × (starve libc b (record s { nodataflag = true }) ≡ fault (critical meh))
  unfolding starve
  starve_waits libc b s p = (rw p refl, rw p refl)

  -- In oper_busy, with nothing unread, read says EAGAIN and the current machine does not take the
  -- probe for the end of the data. When the flag for missing data is not set, oper_busy returns 0
  -- and sets it, and nothing else changes but the machine, the backend's variables and the
  -- kernel's answers; when it is set, the process ends with the message meh.
  pub oper_busy-waits :
      (libc : Libc) (b : Backend W) (s : Sc W) {as' : List ReadAnswer} {f : Fsm W} {w : W}
      → Filled s.readbuf []
      → xread s.system.reads ≡ ok (none, as')
      → fsm_feed (current s) (null 0) s.back ≡ ok (0, f, w)
      → (oper_busy libc b (record s { nodataflag = false })
          ≡ ok (0, record (put s.curfsm f w (with_reads as' s)) { nodataflag = true }))
        × (oper_busy libc b (record s { nodataflag = true }) ≡ fault (critical meh))
  oper_busy-waits libc b s {as'} h p q =
      let (d, e) = starve_waits libc b (with_reads as' s) q in
      (
        oper_busy-starves libc b (record s { nodataflag = false }) h p ∙ d,
        oper_busy-starves libc b (record s { nodataflag = true }) h p ∙ e,
      )
