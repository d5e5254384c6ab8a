-- ===== src/Log/Environment.antt =====
-- `log_init` and `log_log` of src/common/log.c: the levels and the widths of the columns from the environment.
use swh.Base.{
  ℕ, suc, ◌+◌, ◌-◌, ◌*◌, ◌%◌, ℤ, pos, negsuc, Bool, true, false, not, ◌&&◌, Option, none, some,
  List, [], ◌∷◌, ◌++◌, ◌==◌, ltb, if◌then◌else◌, length, take, map, min, replicate, Outcome, ok,
  ◌>>=◌,
}
use swh.Memory.{Bytes, store}
use swh.Back.{same}
use swh.Log.Arrays.{in_array}
use swh.Log.Line.{Call, log_message}
use swh.Log.{Log, int_min, int_same, log_warning, log_setfancy}

-- what getenv(3) gives for "swh_DEBUG" and "swh_DEBUG_FANCY"
pub record Environment : Type 0 where
  pub debug : Option Bytes
  pub fancy : Option Bytes

abbrev pub isdigit : ℕ → Bool
isdigit c = not (ltb c 48) && ltb c 58

unfoldable pub isdigitstr : Bytes → Bool
isdigitstr [] = true
isdigitstr (c ∷ cs) = isdigit c && isdigitstr cs

-- `strtol` of digits, which stops at LONG_MAX
abbrev value : ℕ → Bytes → ℕ
value n [] = n
value n (c ∷ cs) = value (n * 10 + (c - 48)) cs

-- `(int)strtol(p, NULL, 10)`
unfoldable pub int_of : Bytes → ℤ
int_of cs =
    let n = min (value 0 cs) 9223372036854775807 % 4294967296 in
    if ltb n 2147483648 then pos n else negsuc (4294967295 - n)

-- `strtok` with blanks; `word` is what was read of a word
unfoldable pub words : Bytes → Bytes → List Bytes
words word [] = if length word == 0 then [] else word ∷ []
words word (c ∷ cs) =
    let blank = words [] cs in
    let more = words (word ++ (c ∷ [])) cs in
    if c == 32 then (if length word == 0 then blank else word ∷ blank) else more

abbrev before : ℕ → Option (Bytes × Bytes) → Option (Bytes × Bytes)
before c none = none
before c (some (a, b)) = some (c ∷ a, b)

-- `strchr`: what stands in front of the character and behind it
unfoldable pub cut_at : ℕ → Bytes → Option (Bytes × Bytes)
cut_at k [] = none
cut_at k (c ∷ cs) = let rest = before c (cut_at k cs) in if c == k then some ([], cs) else rest

-- the index of a name in the table, or the table's length
unfoldable pub index_of : Bytes → List Bytes → ℕ
unfolding same
index_of t [] = 0
index_of t (n ∷ ns) = let rest = suc (index_of t ns) in if same n t then 0 else rest

abbrev pub modnam_word : Bytes
modnam_word = 109 ∷ 111 ∷ 100 ∷ 110 ∷ 97 ∷ 109 ∷ []

abbrev pub file_word : Bytes
file_word = 102 ∷ 105 ∷ 108 ∷ 101 ∷ []

abbrev pub line_word : Bytes
line_word = 108 ∷ 105 ∷ 110 ∷ 101 ∷ []

abbrev pub func_word : Bytes
func_word = 102 ∷ 117 ∷ 110 ∷ 99 ∷ []

-- the module `t=`
abbrev pub set_level : List Bytes → Bytes → ℤ → Log → Outcome Log
set_level names t lvl s =
    let which = index_of t names in
    let set = store s.lvlarr which lvl >>= λ a. ok (record s { lvlarr = a }) in
    if ltb which (length s.lvlarr) then set else ok s

-- the column `t:`
abbrev pub set_width : Bytes → ℤ → Log → Log
set_width t val s =
    if same t modnam_word
    then record s { w_modnam = val }
    else if same t file_word
    then record s { w_file = val }
    else if same t line_word
    then record s { w_line = val }
    else if same t func_word
    then record s { w_func = val }
    else s

abbrev pub usable : Bytes → Bytes → Bool
usable t v = not (length t == 0) && isdigitstr v

abbrev pub stray : Bytes → ℤ × Log → ℤ × Log
stray t (deflvl, s) = (if isdigitstr t then int_of t else deflvl, s)

abbrev pub width_word : Option (Bytes × Bytes) → Bytes → ℤ × Log → ℤ × Log
width_word none w x = stray w x
width_word (some (t, v)) w (deflvl, s) =
    (deflvl, if usable t v then set_width t (int_of v) s else s)

-- the body of the loop over the words, with the default level and the variables
unfoldable pub read_word : List Bytes → Option (Bytes × Bytes) → Bytes → ℤ × Log → Outcome (ℤ × Log)
unfolding cut_at store index_of same isdigitstr int_of
read_word names none w x = ok (width_word (cut_at 58 w) w x)
read_word names (some (t, v)) w (deflvl, s) =
    let set = set_level names t (int_of v) s >>= λ s'. ok (deflvl, s') in
    if usable t v then set else ok (deflvl, s)

unfoldable pub read_words : List Bytes → List Bytes → ℤ × Log → Outcome (ℤ × Log)
unfolding cut_at read_word
read_words names [] x = ok x
read_words names (w ∷ ws) x = read_word names (cut_at 61 w) w x >>= λ x'. read_words names ws x'

-- `getenv_m` into an array of so many bytes: `snprintf` cuts the variable so that it fits with its NUL.
unfoldable pub getenv_m : ℕ → Bytes → Outcome Bytes
unfolding in_array
getenv_m size v = in_array size (take (size - 1) v)

-- the words of the variable, in the array `v`
unfoldable pub debug_words : Option Bytes → Outcome (List Bytes)
unfolding getenv_m words
debug_words none = ok []
debug_words (some v) = getenv_m 128 v >>= λ xs. ok (words [] xs)

abbrev pub filled_in : ℤ → ℤ → ℤ
filled_in deflvl l = if int_same l int_min then deflvl else l

abbrev pub is_fancy : Option Bytes → Bool
is_fancy none = false
is_fancy (some []) = true
is_fancy (some (c ∷ cs)) = not (c == 48)

-- PACKAGE_NAME
abbrev pub package_name : Bytes
package_name = 115 ∷ 119 ∷ 104 ∷ []

unfoldable pub log_init : List Bytes → Environment → Log → Outcome Log
unfolding debug_words read_words log_setfancy
log_init names env s = do
  ws ← debug_words env.debug
  (deflvl, s1) ← read_words names ws (
    pos log_warning,
    record s { lvlarr = replicate (length names) int_min; ourname = package_name },
  )
  let s2 = record s1 { lvlarr = map (filled_in deflvl) s1.lvlarr }
  ok (record (log_setfancy (is_fancy env.fancy) s2) { ready = true })

unfoldable pub log_log : List Bytes → Environment → Call → Log → Outcome Log
unfolding log_init log_message
log_log names env c s =
    let first = log_init names env s >>= log_message c in if s.ready then log_message c s else first
