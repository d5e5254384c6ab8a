-- ===== src/Spawn/Child.antt =====
-- The side of the child in `spawn_launch` of src/spawn.c, up to execve(2): its descriptors.
use swh.Base.{
  ℕ, ◌<◌, ◌≡◌, ◌≢◌, refl, ◌∙◌, pos, negsuc, ℤ, Option, none, some, ◌==◌, if◌then◌else◌, ne→not-==,
  arith,
}
use swh.Spawn.{Spawn, ends}

-- which open file a descriptor stands for
abbrev pub Table : Type 0 → Type 0
Table F = ℕ → Option F

-- No two of the descriptors that matter are the same, and none is one of the first three.
pub record Apart (i o e : ℕ × ℕ) : Type 0 where
  pub in_read : (2 < i.0) × (i.0 ≢ i.1) × (i.0 ≢ o.0) × (i.0 ≢ e.0)
  pub out_write : (2 < o.1) × (o.1 ≢ i.1) × (o.1 ≢ o.0) × (o.1 ≢ e.0)
  pub err_write : (2 < e.1) × (e.1 ≢ i.1) × (e.1 ≢ o.0) × (e.1 ≢ e.0)
  pub parents : (2 < i.1) × (2 < o.0) × (2 < e.0)

module _ {F : Type 0} where
  abbrev pub close_fd : ℤ → Table F → Table F
  close_fd (negsuc k) t = t
  close_fd (pos k) t = λ n. if n == k then none else t n

  abbrev pub dup_file : Option F → ℕ → Table F → Table F
  dup_file none b t = t
  dup_file (some f) b t = λ n. if n == b then some f else t n

  -- dup2(2), which fails when the first descriptor is not open
  abbrev pub dup2 : ℤ → ℕ → Table F → Table F
  dup2 (negsuc k) b t = t
  dup2 (pos k) b t = dup_file (t k) b t

  abbrev close_six : ℤ → ℤ → ℤ → Table F → Table F
  close_six i o e t =
      close_fd (pos 2)
        (close_fd (pos 1) (close_fd (pos 0) (close_fd e (close_fd o (close_fd i t)))))

  unfoldable pub child_files : Spawn → Table F → Table F
  child_files s t =
      dup2 s.stderr.1 2
        (dup2 s.stdout.1 1 (dup2 s.stdin.0 0 (close_six s.stdin.1 s.stdout.0 s.stderr.0 t)))

  kept :
      (t : Table F) (a b c n : ℕ) {f : Option F}
      → (2 < n) × (n ≢ a) × (n ≢ b) × (n ≢ c)
      → t n ≡ f
      → close_six (pos a) (pos b) (pos c) t n ≡ f
  kept t a b c n (h, p, q, r) e =
      rw
        (
          ne→not-== n a p,
          ne→not-== n b q,
          ne→not-== n c r,
          ne→not-== n 0 (omega arith),
          ne→not-== n 1 (omega arith),
          ne→not-== n 2 (omega arith),
        )
        e

  dup_open :
      (t : Table F) (k b n : ℕ) {f : F}
      → t k ≡ some f
      → dup2 (pos k) b t n ≡ (if n == b then some f else t n)
  dup_open t k b n e = rw e refl

  closed :
      (t : Table F) (a b c : ℕ)
      → (close_six (pos a) (pos b) (pos c) t a ≡ none)
        × (close_six (pos a) (pos b) (pos c) t b ≡ none)
        × (close_six (pos a) (pos b) (pos c) t c ≡ none)
  closed t a b c = (ground arith, ground arith, ground arith)

  dup_kept :
      (t : Table F) (k b n : ℕ) {f : F} {g : Option F}
      → t k ≡ some f
      → n ≢ b
      → t n ≡ g
      → dup2 (pos k) b t n ≡ g
  dup_kept t k b n e h p = dup_open t k b n e ∙ rw (ne→not-== n b h) p

  -- The two ends of each of the three pipes of spawn_launch are open descriptors above 2, and the
  -- ends that the child is to use are none of those of the parent. After what the child does
  -- before execve, its descriptors 0, 1 and 2 stand for the read end of the first pipe and the
  -- write ends of the second and the third, and the parent's ends are closed in the child.
  pub child_files-wired :
      (i o e : ℕ × ℕ) (s : Spawn) (t : Table F) {f g h : F}
      → Apart i o e
      → s.stdin ≡ ends i
      → s.stdout ≡ ends o
      → s.stderr ≡ ends e
      → t i.0 ≡ some f
      → t o.1 ≡ some g
      → t e.1 ≡ some h
      → (child_files s t 0 ≡ some f)
        × (child_files s t 1 ≡ some g)
        × (child_files s t 2 ≡ some h)
        × (child_files s t i.1 ≡ none)
        × (child_files s t o.0 ≡ none)
        × (child_files s t e.0 ≡ none)
  unfolding child_files
  child_files-wired (i0, i1) (o0, o1) (e0, e1) s t {f} {g} {h} a p q r u v w =
      let t0 : Table F = close_six (pos i1) (pos o0) (pos e0) t in
      let t1 : Table F = dup2 (pos i0) 0 t0 in
      let t2 : Table F = dup2 (pos o1) 1 t1 in
      let (li, _, _, _) = a.in_read in
      let (lo, _, _, _) = a.out_write in
      let (le, _, _, _) = a.err_write in
      let u0 : t0 i0 ≡ some f = kept t i1 o0 e0 i0 a.in_read u in
      let v0 : t0 o1 ≡ some g = kept t i1 o0 e0 o1 a.out_write v in
      let w0 : t0 e1 ≡ some h = kept t i1 o0 e0 e1 a.err_write w in
      let v1 : t1 o1 ≡ some g = dup_kept t0 i0 0 o1 u0 (omega arith) v0 in
      let w1 : t1 e1 ≡ some h = dup_kept t0 i0 0 e1 u0 (omega arith) w0 in
      let w2 : t2 e1 ≡ some h = dup_kept t1 o1 1 e1 v1 (omega arith) w1 in
      let z0 : t1 0 ≡ some f = dup_open t0 i0 0 0 u0 in
      let z1 : t2 1 ≡ some g = dup_open t1 o1 1 1 v1 in
      let (li', lo', le') = a.parents in
      let (c1, c2, c3) = closed t i1 o0 e0 in
      let behind : (n : ℕ) → 2 < n → t0 n ≡ none → dup2 (pos e1) 2 t2 n ≡ none = λ n l y.
        dup_kept t2 e1 2 n w2 (omega arith)
          (dup_kept t1 o1 1 n v1 (omega arith) (dup_kept t0 i0 0 n u0 (omega arith) y)) in
      rw (p, q, r)
        (
          dup_kept t2 e1 2 0 w2 (omega arith) (dup_kept t1 o1 1 0 v1 (omega arith) z0),
          dup_kept t2 e1 2 1 w2 (omega arith) z1,
          dup_open t2 e1 2 2 w2,
          behind i1 li' c1,
          behind o0 lo' c2,
          behind e0 le' c3,
        )
