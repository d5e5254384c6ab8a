-- ===== src/Init.antt =====
-- src/init.c: the options of the program, with the lists of src/nami.c. getopt(3) is given as what it
-- answers: the options in turn, each with its argument, and the arguments that are left.
pub mod Verbosity
pub mod Main
pub mod Answers
use swh.Base.{
  ℕ, zero, suc, ◌+◌, ◌-◌, ℤ, pos, negsuc, int_max, Bool, true, false, List, [], ◌∷◌, ◌++◌, ltb,
  ◌==◌, if◌then◌else◌, take, Outcome, ok, fault, critical, undefined, int_overflow, host_missing,
  ◌>>=◌,
}
use swh.Memory.{Bytes}
use swh.Back.{same, hp_name}
use swh.Uc.{ia_name}
use swh.Log.{Log, log_getlvl, log_setlvl_all, log_setfancy, log_getfancy}

-- `s_ux`, `s_sx` and `s_host`, with the variables of the log and what was printed
pub record Options : Type 0 where
  pub ux : Bytes
  pub sx : Bytes
  pub host : Bytes
  pub log : Log
  pub printed : Bytes

-- What the program is given: the number of the module `MOD_INIT`, from the generated file, and `argv[0]`.
pub record Program : Type 0 where
  pub mod_init : ℕ
  pub a0 : Bytes

-- `U(STR)`: the text and a newline
abbrev line : Bytes → Bytes
line xs = xs ++ (10 ∷ [])

abbrev bars : Bytes
bars = 61 ∷ 61 ∷ 61 ∷ 61 ∷ 61 ∷ 61 ∷ 61 ∷ 61 ∷ 61 ∷ 61 ∷ 61 ∷ 61 ∷ 61 ∷ 61 ∷ 61 ∷ 61 ∷ []

-- PACKAGE_NAME and PACKAGE_VERSION are those of configure.ac.
abbrev package_line : Bytes
package_line =
    61 ∷ 61 ∷ 32 ∷ 115 ∷ 119 ∷ 104 ∷ 32 ∷ 118 ∷ 48 ∷ 46 ∷ 48 ∷ 46 ∷ 48 ∷ 32 ∷ 61 ∷ 61 ∷ []

abbrev usage_head : Bytes
usage_head = 117 ∷ 115 ∷ 97 ∷ 103 ∷ 101 ∷ 58 ∷ 32 ∷ []

abbrev usage_tail : Bytes
usage_tail =
    32 ∷ 91 ∷ 45 ∷ 120 ∷ 32 ∷ 60 ∷ 102 ∷ 114 ∷ 111 ∷ 110 ∷ 116 ∷ 101 ∷ 110 ∷ 100 ∷ 62 ∷ 93 ∷ 32 ∷ 91
    ∷ 45 ∷ 115 ∷ 32 ∷ 60 ∷ 98 ∷ 97 ∷ 99 ∷ 107 ∷ 101 ∷ 110 ∷ 100 ∷ 62 ∷ 93 ∷ 32 ∷ 91 ∷ 45 ∷ 88 ∷ 83
    ∷ 99 ∷ 118 ∷ 113 ∷ 104 ∷ 93 ∷ 10 ∷ []

abbrev frontend_line : Bytes
frontend_line =
    9 ∷ 45 ∷ 120 ∷ 32 ∷ 60 ∷ 102 ∷ 114 ∷ 111 ∷ 110 ∷ 116 ∷ 101 ∷ 110 ∷ 100 ∷ 62 ∷ 58 ∷ 32 ∷ 85 ∷ 115
    ∷ 101 ∷ 32 ∷ 117 ∷ 115 ∷ 101 ∷ 114 ∷ 32 ∷ 105 ∷ 110 ∷ 116 ∷ 101 ∷ 114 ∷ 102 ∷ 97 ∷ 99 ∷ 101 ∷ 32
    ∷ 60 ∷ 102 ∷ 114 ∷ 111 ∷ 110 ∷ 116 ∷ 101 ∷ 110 ∷ 100 ∷ 62 ∷ 32 ∷ 40 ∷ 100 ∷ 101 ∷ 102 ∷ 97 ∷ 117
    ∷ 108 ∷ 116 ∷ 58 ∷ 32 ∷ 97 ∷ 117 ∷ 116 ∷ 111 ∷ 41 ∷ []

abbrev frontends_line : Bytes
frontends_line =
    9 ∷ 45 ∷ 88 ∷ 58 ∷ 32 ∷ 76 ∷ 105 ∷ 115 ∷ 116 ∷ 32 ∷ 107 ∷ 110 ∷ 111 ∷ 119 ∷ 110 ∷ 32 ∷ 117 ∷ 115
    ∷ 101 ∷ 114 ∷ 32 ∷ 105 ∷ 110 ∷ 116 ∷ 101 ∷ 114 ∷ 102 ∷ 97 ∷ 99 ∷ 101 ∷ 115 ∷ 32 ∷ 116 ∷ 121
    ∷ 112 ∷ 101 ∷ 115 ∷ 32 ∷ 97 ∷ 110 ∷ 100 ∷ 32 ∷ 101 ∷ 120 ∷ 105 ∷ 116 ∷ []

abbrev backend_line : Bytes
backend_line =
    9 ∷ 45 ∷ 115 ∷ 32 ∷ 60 ∷ 98 ∷ 97 ∷ 99 ∷ 107 ∷ 101 ∷ 110 ∷ 100 ∷ 62 ∷ 58 ∷ 32 ∷ 85 ∷ 115 ∷ 101
    ∷ 32 ∷ 115 ∷ 119 ∷ 105 ∷ 116 ∷ 99 ∷ 104 ∷ 32 ∷ 105 ∷ 110 ∷ 116 ∷ 101 ∷ 114 ∷ 102 ∷ 97 ∷ 99 ∷ 101
    ∷ 32 ∷ 60 ∷ 98 ∷ 97 ∷ 99 ∷ 107 ∷ 101 ∷ 110 ∷ 100 ∷ 62 ∷ 32 ∷ 40 ∷ 100 ∷ 101 ∷ 102 ∷ 97 ∷ 117
    ∷ 108 ∷ 116 ∷ 58 ∷ 32 ∷ 97 ∷ 117 ∷ 116 ∷ 111 ∷ 41 ∷ []

abbrev backends_line : Bytes
backends_line =
    9 ∷ 45 ∷ 83 ∷ 58 ∷ 32 ∷ 76 ∷ 105 ∷ 115 ∷ 116 ∷ 32 ∷ 107 ∷ 110 ∷ 111 ∷ 119 ∷ 110 ∷ 32 ∷ 115 ∷ 119
    ∷ 105 ∷ 116 ∷ 99 ∷ 104 ∷ 32 ∷ 105 ∷ 110 ∷ 116 ∷ 101 ∷ 114 ∷ 102 ∷ 97 ∷ 99 ∷ 101 ∷ 115 ∷ 32 ∷ 116
    ∷ 121 ∷ 112 ∷ 101 ∷ 115 ∷ 32 ∷ 97 ∷ 110 ∷ 100 ∷ 32 ∷ 101 ∷ 120 ∷ 105 ∷ 116 ∷ []

abbrev colour_line : Bytes
colour_line =
    9 ∷ 45 ∷ 99 ∷ 58 ∷ 32 ∷ 85 ∷ 115 ∷ 101 ∷ 32 ∷ 65 ∷ 78 ∷ 83 ∷ 73 ∷ 32 ∷ 99 ∷ 111 ∷ 108 ∷ 111
    ∷ 114 ∷ 32 ∷ 115 ∷ 101 ∷ 113 ∷ 117 ∷ 101 ∷ 110 ∷ 99 ∷ 101 ∷ 115 ∷ 32 ∷ 111 ∷ 110 ∷ 32 ∷ 115
    ∷ 116 ∷ 100 ∷ 101 ∷ 114 ∷ 114 ∷ []

abbrev verbose_line : Bytes
verbose_line =
    9 ∷ 45 ∷ 118 ∷ 58 ∷ 32 ∷ 66 ∷ 101 ∷ 32 ∷ 109 ∷ 111 ∷ 114 ∷ 101 ∷ 32 ∷ 118 ∷ 101 ∷ 114 ∷ 98 ∷ 111
    ∷ 115 ∷ 101 ∷ 32 ∷ 40 ∷ 109 ∷ 117 ∷ 108 ∷ 116 ∷ 105 ∷ 112 ∷ 108 ∷ 101 ∷ 32 ∷ 97 ∷ 114 ∷ 101 ∷ 32
    ∷ 79 ∷ 75 ∷ 41 ∷ []

abbrev quiet_line : Bytes
quiet_line =
    9 ∷ 45 ∷ 113 ∷ 58 ∷ 32 ∷ 66 ∷ 101 ∷ 32 ∷ 108 ∷ 101 ∷ 115 ∷ 115 ∷ 32 ∷ 118 ∷ 101 ∷ 114 ∷ 98 ∷ 111
    ∷ 115 ∷ 101 ∷ 32 ∷ 40 ∷ 109 ∷ 117 ∷ 108 ∷ 116 ∷ 105 ∷ 112 ∷ 108 ∷ 101 ∷ 32 ∷ 97 ∷ 114 ∷ 101 ∷ 32
    ∷ 79 ∷ 75 ∷ 41 ∷ []

abbrev help_line : Bytes
help_line =
    9 ∷ 45 ∷ 104 ∷ 58 ∷ 32 ∷ 68 ∷ 105 ∷ 115 ∷ 112 ∷ 108 ∷ 97 ∷ 121 ∷ 32 ∷ 98 ∷ 114 ∷ 105 ∷ 101 ∷ 102
    ∷ 32 ∷ 117 ∷ 115 ∷ 97 ∷ 103 ∷ 101 ∷ 32 ∷ 115 ∷ 116 ∷ 97 ∷ 116 ∷ 101 ∷ 109 ∷ 101 ∷ 110 ∷ 116 ∷ 32
    ∷ 97 ∷ 110 ∷ 100 ∷ 32 ∷ 116 ∷ 101 ∷ 114 ∷ 109 ∷ 105 ∷ 110 ∷ 97 ∷ 116 ∷ 101 ∷ []

abbrev author_line : Bytes
author_line =
    40 ∷ 67 ∷ 41 ∷ 32 ∷ 50 ∷ 48 ∷ 49 ∷ 55 ∷ 44 ∷ 32 ∷ 84 ∷ 105 ∷ 109 ∷ 111 ∷ 32 ∷ 66 ∷ 117 ∷ 104
    ∷ 114 ∷ 109 ∷ 101 ∷ 115 ∷ 116 ∷ 101 ∷ 114 ∷ 32 ∷ 60 ∷ 118 ∷ 97 ∷ 110 ∷ 46 ∷ 102 ∷ 115 ∷ 116
    ∷ 100 ∷ 64 ∷ 103 ∷ 109 ∷ 97 ∷ 105 ∷ 108 ∷ 46 ∷ 99 ∷ 111 ∷ 109 ∷ 62 ∷ []

-- the text of `usage`
unfoldable pub usage : Bytes → Bytes
usage a0 =
    line bars
    ++ (line package_line
        ++ (line bars
            ++ (usage_head
                ++ (a0
                    ++ (usage_tail
                        ++ (line []
                            ++ (line frontend_line
                                ++ (line frontends_line
                                    ++ (line backend_line
                                        ++ (line backends_line
                                            ++ (line colour_line
                                                ++ (line verbose_line
                                                    ++ (line quiet_line
                                                        ++ (line help_line
                                                            ++ (line []
                                                            ++ (line author_line))))))))))))))))

-- an option and `optarg`
abbrev pub Argument : Type 0
Argument = ℕ × Bytes

-- the program goes on, or it has ended with a code
pub data Parsed : Type 0 where
  going : Options → Parsed
  exited : ℕ → Options → Parsed

-- the sum of two values of `int`
unfoldable pub add_int : ℤ → ℤ → Outcome ℤ
add_int (pos m) (pos n) =
    if ltb int_max (m + n) then fault (undefined int_overflow) else ok (pos (m + n))
add_int (pos m) (negsuc n) = ok (if ltb n m then pos (m - suc n) else negsuc (n - m))
add_int (negsuc m) (pos n) = ok (if ltb m n then pos (n - suc m) else negsuc (m - n))
add_int (negsuc m) (negsuc n) =
    if ltb int_max (m + n + 1) then fault (undefined int_overflow) else ok (negsuc (m + n + 1))

abbrev pub not_below_zero : ℤ → ℤ
not_below_zero (pos n) = pos n
not_below_zero (negsuc n) = pos 0

-- the argument `fancy`: 1, or -1 for no change
pub data Fancy : Type 0 where
  on unchanged : Fancy

abbrev pub fancy_of : Fancy → Bool → Bool
fancy_of on now = true
fancy_of unchanged now = now

unfoldable pub update_logger : ℕ → ℤ → Fancy → Log → Outcome Log
unfolding log_getlvl add_int log_setfancy log_getfancy log_setlvl_all
update_logger mod_init verb fancy s = do
  l ← log_getlvl mod_init s
  v ← add_int l verb
  ok (log_setlvl_all (not_below_zero v) (log_setfancy (fancy_of fancy (log_getfancy s)) s))

-- the texts of `nami_backends` and `nami_frontends`
unfoldable pub nami_backends : Bytes
nami_backends = hp_name ++ (10 ∷ [])

unfoldable pub nami_frontends : Bytes
nami_frontends = ia_name ++ (10 ∷ [])

abbrev pub print : Bytes → Options → Options
print xs o = record o { printed = o.printed ++ xs }

abbrev pub with_log : (Log → Outcome Log) → Options → Outcome Parsed
with_log f o = f o.log >>= λ l. ok (going (record o { log = l }))

-- to the standard error, where the log goes too
abbrev complain : Bytes → Options → Options
complain xs o = record o { log = record (o.log) { errout = o.log.errout ++ xs } }

-- the body of the loop: the switch over the option
unfoldable pub take_option : Program → Argument → Options → Outcome Parsed
unfolding update_logger nami_backends nami_frontends usage
take_option p (ch, optarg) o =
    if ch == 115
    then ok (going (record o { sx = take 31 optarg }))
    else if ch == 83
    then ok (exited 0 (print nami_backends o))
    else if ch == 120
    then ok (going (record o { ux = take 31 optarg }))
    else if ch == 88
    then ok (exited 0 (print nami_frontends o))
    else if ch == 99
    then with_log (update_logger p.mod_init (pos 0) on) o
    else if ch == 118
    then with_log (update_logger p.mod_init (pos 1) unchanged) o
    else if ch == 113
    then with_log (update_logger p.mod_init (negsuc 0) unchanged) o
    else if ch == 104
    then ok (exited 0 (print (usage p.a0) o))
    else ok (exited 1 (complain (usage p.a0) o))

-- "auto"
abbrev pub auto_name : Bytes
auto_name = 97 ∷ 117 ∷ 116 ∷ 111 ∷ []

abbrev pub default : Bytes → Bytes → Bytes
default name other = if same name auto_name then other else name

-- `argv[0]` behind the options, and the names that stand for "auto"
unfoldable pub finish_args : List Bytes → Options → Outcome Parsed
unfolding same
finish_args [] o = fault (critical host_missing)
finish_args (a ∷ as') o =
    ok
      (going (record o { host = take 255 a; ux = default o.ux ia_name; sx = default o.sx hp_name }))

-- what follows an option
abbrev pub after_option : (Options → Outcome Parsed) → Parsed → Outcome Parsed
after_option rest (going o) = rest o
after_option rest (exited code o) = ok (exited code o)

unfoldable pub process_args : Program → List Argument → List Bytes → Options → Outcome Parsed
unfolding take_option finish_args
process_args p [] args o = finish_args args o
process_args p (x ∷ xs) args o = take_option p x o >>= after_option (process_args p xs args)
