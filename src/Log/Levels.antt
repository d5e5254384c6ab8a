-- ===== src/Log/Levels.antt =====
-- What `log_init` of src/common/log.c leaves behind, whatever the environment is.
use swh.Base.{
  ℕ, suc, pos, ◌≡◌, refl, ap, ◌∙◌, ℤ, Bool, true, false, ltb, Option, none, some, List, [], ◌∷◌,
  map, length, length-set, length-take, arith, take, length-replicate, replicate, set,
  if◌then◌else◌, Outcome, ok, Fault, fault, undefined, out_of_bounds, ◌>>=◌,
}
use swh.Memory.{Bytes, store}
use swh.Back.{same}
use swh.Log.{Log, log_setfancy, int_min, log_warning}
use swh.Log.Arrays.{in_array_returns}
use swh.Log.Environment.{
  getenv_m, words, Environment, read_word, read_words, cut_at, log_init, set_level, usable, int_of,
  index_of, width_word, set_width, modnam_word, file_word, line_word, func_word, filled_in,
  debug_words, package_name, is_fancy,
}

-- The outcome is a result that keeps the number of levels.
abbrev Keeps : ℕ → Outcome (ℤ × Log) → Type 0
Keeps n m = (x : ℤ × Log) × (m ≡ ok x) × (length (x.1).lvlarr ≡ n)

if_both :
    (n : ℕ) (t : Bool) (a b : Outcome (ℤ × Log))
    → Keeps n a
    → Keeps n b
    → Keeps n (if t then a else b)
if_both n true a b h k = h
if_both n false a b h k = k

abbrev with_default : ℤ → Log → Outcome (ℤ × Log)
with_default d s = ok (d, s)

level_tested :
    (t : Bool) (d : ℤ) (s : Log) (a : List ℤ) (e : Fault)
    → ((if t then ((if t then ok a else fault e) >>= λ c. ok (record s { lvlarr = c })) else ok s)
        >>= with_default d)
      ≡ ok (d, if t then record s { lvlarr = a } else s)
level_tested true d s a e = refl
level_tested false d s a e = refl

length_if :
    (t : Bool) (s : Log) (a : List ℤ)
    → length a ≡ length s.lvlarr
    → length (if t then record s { lvlarr = a } else s).lvlarr ≡ length s.lvlarr
length_if true s a h = h
length_if false s a h = refl

set_level-Keeps :
    (names : List Bytes) (t : Bytes) (lvl d : ℤ) (s : Log)
    → Keeps (length s.lvlarr) (set_level names t lvl s >>= with_default d)
unfolding store
set_level-Keeps names t lvl d s =
    let i : ℕ = index_of t names in
    let a : List ℤ = set s.lvlarr i lvl in
    let b : Bool = ltb i (length s.lvlarr) in
    (
      (d, if b then record s { lvlarr = a } else s),
      level_tested b d s a (undefined out_of_bounds),
      length_if b s a (length-set s.lvlarr i lvl),
    )

choice : (P : Log → Type 0) (t : Bool) (a b : Log) → P a → P b → P (if t then a else b)
choice P true a b h k = h
choice P false a b h k = k

width_chosen :
    (a b c e : Bool) (v : ℤ) (s : Log)
    → length
        (if a
          then record s { w_modnam = v }
          else if b
          then record s { w_file = v }
          else if c
          then record s { w_line = v }
          else if e
          then record s { w_func = v }
          else s).lvlarr
      ≡ length s.lvlarr
width_chosen true b c e v s = refl
width_chosen false true c e v s = refl
width_chosen false false true e v s = refl
width_chosen false false false true v s = refl
width_chosen false false false false v s = refl

set_width-keeps : (t : Bytes) (v : ℤ) (s : Log) → length (set_width t v s).lvlarr ≡ length s.lvlarr
set_width-keeps t v s =
    width_chosen (same t modnam_word) (same t file_word) (same t line_word) (same t func_word) v s

width_word-keeps :
    (p : Option (Bytes × Bytes)) (w : Bytes) (d : ℤ) (s : Log)
    → length (width_word p w (d, s)).1.lvlarr ≡ length s.lvlarr
width_word-keeps none w d s = refl
width_word-keeps (some (t, v)) w d s =
    choice (λ z. length z.lvlarr ≡ length s.lvlarr) (usable t v) (set_width t (int_of v) s) s
      (set_width-keeps t (int_of v) s) refl

read_word-Keeps :
    (names : List Bytes) (p : Option (Bytes × Bytes)) (w : Bytes) (d : ℤ) (s : Log)
    → Keeps (length s.lvlarr) (read_word names p w (d, s))
unfolding read_word
read_word-Keeps names none w d s =
    (width_word (cut_at 58 w) w (d, s), refl, width_word-keeps (cut_at 58 w) w d s)
read_word-Keeps names (some (t, v)) w d s =
    if_both (length s.lvlarr) (usable t v) (set_level names t (int_of v) s >>= with_default d)
      (ok (d, s)) (set_level-Keeps names t (int_of v) d s) ((d, s), refl, refl)

read_words-Keeps :
    (names ws : List Bytes) (d : ℤ) (s : Log) → Keeps (length s.lvlarr) (read_words names ws (d, s))
unfolding read_words
read_words-Keeps names [] d s = ((d, s), refl, refl)
read_words-Keeps names (w ∷ ws) d s =
    let ((d1, s1), p, e) = read_word-Keeps names (cut_at 61 w) w d s in
    let (x, q, f) = read_words-Keeps names ws d1 s1 in (x, rw p q, f ∙ e)

length-map : {A B : Type 0} (f : A → B) (xs : List A) → length (map f xs) ≡ length xs
length-map f [] = refl
length-map f (x ∷ xs) = ap suc (length-map f xs)

getenv_m_returns : (v : Bytes) → (xs : Bytes) × (getenv_m 128 v ≡ ok xs)
unfolding getenv_m
getenv_m_returns v = in_array_returns 128 (take 127 v) (omega (arith, length-take 127 v))

debug_words_returns : (v : Option Bytes) → (ws : List Bytes) × (debug_words v ≡ ok ws)
unfolding debug_words
debug_words_returns none = ([], refl)
debug_words_returns (some v) = let (xs, p) = getenv_m_returns v in (words [] xs, rw p refl)

-- Whatever the environment variables hold, also when that for the levels does not fit the array
-- of 128 bytes that it is copied into with its NUL, log_init returns, and no access to this array
-- or to that of the levels is outside of it; the log is ready, and there is a level for each
-- module.
pub log_init-ready :
    (names : List Bytes) (env : Environment) (s : Log)
    → (s' : Log) × (log_init names env s ≡ ok s')
      × (s'.ready ≡ true)
      × (length s'.lvlarr ≡ length names)
unfolding log_init log_setfancy
log_init-ready names env s =
    let s0 : Log = record s { lvlarr = replicate (length names) int_min; ourname = package_name } in
    let (ws, z) = debug_words_returns env.debug in
    let ((d, s1), p, e) = read_words-Keeps names ws (pos log_warning) s0 in
    (
      record s1 { lvlarr = map (filled_in d) s1.lvlarr; fancy = is_fancy env.fancy; ready = true },
      rw (z, p) refl,
      refl,
      length-map (filled_in d) s1.lvlarr ∙ e ∙ length-replicate (length names) int_min,
    )
