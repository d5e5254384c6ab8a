-- ===== src/Log/Line.antt =====
-- `log_log` of src/common/log.c: one message.
use swh.Base.{
  ℕ, zero, suc, ◌+◌, ◌-◌, ◌*◌, ◌/◌, ◌%◌, ℤ, pos, negsuc, Bool, Option, none, some, [], ◌∷◌, ◌++◌,
  ◌==◌, ◌||◌, ltb, if◌then◌else◌, length, take, replicate, Outcome, ok, fault, undefined,
  int_overflow, int_max, ◌>>=◌,
}
use swh.Memory.{Bytes, Block, store}
use swh.Log.Arrays.{text_of, in_array}
use swh.Log.{
  Log, log_crit, log_err, log_warning, log_notice, log_info, log_debug, log_vivi, log_hex,
  log_trace, int_min, int_same, int_above, level_at,
}

-- The arguments of a call, with what the C library makes of them: the text of the format, the text of
-- `errn` where it is not negative, and that of the time where ctime_r does not fail.
pub record Call : Type 0 where
  pub of_module : ℤ
  pub lvl : ℤ
  pub error : Option Bytes
  pub file : Bytes
  pub line : ℕ
  pub func : Bytes
  pub text : Bytes
  pub time : Option Bytes

abbrev col_redinv : Bytes
col_redinv = 27 ∷ 91 ∷ 48 ∷ 55 ∷ 59 ∷ 51 ∷ 49 ∷ 59 ∷ 48 ∷ 49 ∷ 109 ∷ []

abbrev col_red : Bytes
col_red = 27 ∷ 91 ∷ 51 ∷ 49 ∷ 59 ∷ 48 ∷ 49 ∷ 109 ∷ []

abbrev col_yellow : Bytes
col_yellow = 27 ∷ 91 ∷ 51 ∷ 51 ∷ 59 ∷ 48 ∷ 49 ∷ 109 ∷ []

abbrev col_green : Bytes
col_green = 27 ∷ 91 ∷ 51 ∷ 50 ∷ 59 ∷ 48 ∷ 49 ∷ 109 ∷ []

abbrev col_white : Bytes
col_white = 27 ∷ 91 ∷ 51 ∷ 55 ∷ 59 ∷ 48 ∷ 49 ∷ 109 ∷ []

abbrev col_whiteinv : Bytes
col_whiteinv = 27 ∷ 91 ∷ 48 ∷ 55 ∷ 59 ∷ 51 ∷ 55 ∷ 59 ∷ 48 ∷ 49 ∷ 109 ∷ []

abbrev col_gray : Bytes
col_gray = 27 ∷ 91 ∷ 51 ∷ 48 ∷ 59 ∷ 48 ∷ 49 ∷ 109 ∷ []

abbrev col_grayinv : Bytes
col_grayinv = 27 ∷ 91 ∷ 48 ∷ 55 ∷ 59 ∷ 51 ∷ 48 ∷ 59 ∷ 48 ∷ 49 ∷ 109 ∷ []

abbrev col_lblue : Bytes
col_lblue = 27 ∷ 91 ∷ 51 ∷ 52 ∷ 59 ∷ 48 ∷ 49 ∷ 109 ∷ []

abbrev col_rst : Bytes
col_rst = 27 ∷ 91 ∷ 48 ∷ 109 ∷ []

unfoldable pub lvlnam : ℤ → Bytes
lvlnam lvl =
    if int_same lvl (pos log_debug)
    then (68 ∷ 66 ∷ 71 ∷ [])
    else if int_same lvl (pos log_trace)
    then (84 ∷ 82 ∷ 67 ∷ [])
    else if int_same lvl (pos log_hex)
    then (72 ∷ 69 ∷ 88 ∷ [])
    else if int_same lvl (pos log_vivi)
    then (86 ∷ 73 ∷ 86 ∷ [])
    else if int_same lvl (pos log_info)
    then (73 ∷ 78 ∷ 70 ∷ [])
    else if int_same lvl (pos log_notice)
    then (78 ∷ 79 ∷ 84 ∷ [])
    else if int_same lvl (pos log_warning)
    then (87 ∷ 82 ∷ 78 ∷ [])
    else if int_same lvl (pos log_crit)
    then (67 ∷ 82 ∷ 84 ∷ [])
    else if int_same lvl (pos log_err)
    then (69 ∷ 82 ∷ 82 ∷ [])
    else (63 ∷ 63 ∷ 63 ∷ [])

unfoldable pub lvlcol : ℤ → Bytes
lvlcol lvl =
    if int_same lvl (pos log_debug)
    then (col_gray)
    else if int_same lvl (pos log_trace)
    then (col_lblue)
    else if int_same lvl (pos log_hex)
    then (col_whiteinv)
    else if int_same lvl (pos log_vivi)
    then (col_grayinv)
    else if int_same lvl (pos log_info)
    then (col_white)
    else if int_same lvl (pos log_notice)
    then (col_green)
    else if int_same lvl (pos log_warning)
    then (col_yellow)
    else if int_same lvl (pos log_crit)
    then (col_redinv)
    else if int_same lvl (pos log_err)
    then (col_red)
    else col_whiteinv

-- the loop over `payload`
abbrev pub tidy : Bytes → Bytes
tidy [] = []
tidy (c ∷ cs) = (if c == 10 || c == 13 then 36 else c) ∷ tidy cs

-- `errmsg`, in which strerror_r puts as much as fits behind the two characters
unfoldable pub errmsg : Option Bytes → Outcome Bytes
unfolding in_array
errmsg none = in_array 256 []
errmsg (some e) = in_array 256 (58 ∷ 32 ∷ take 253 e)

-- `memset(pad, ' ', d); pad[d] = '\0';`
unfoldable pub pad_block : ℕ → Outcome Block
unfolding store
pad_block d = store (replicate d (some 32) ++ replicate (256 - d) none) d (some 0)

-- the number of blanks: `d`
abbrev pub pad_width : ℕ → Outcome ℕ
pad_width depth =
    if ltb int_max (depth * 2)
    then fault (undefined int_overflow)
    else ok (if ltb 256 (depth * 2) then 255 else depth * 2)

unfoldable pub pad_text : ℤ → ℕ → Outcome Bytes
unfolding pad_block text_of
pad_text lvl depth =
    let pad = pad_width depth >>= pad_block >>= text_of in
    if int_same lvl (pos log_trace) then pad else ok []

-- "(ctime() failed)"
abbrev no_time : Bytes
no_time =
    40 ∷ 99 ∷ 116 ∷ 105 ∷ 109 ∷ 101 ∷ 40 ∷ 41 ∷ 32 ∷ 102 ∷ 97 ∷ 105 ∷ 108 ∷ 101 ∷ 100 ∷ 41 ∷ []

abbrev to_newline : Bytes → Bytes
to_newline [] = []
to_newline (c ∷ cs) = let rest = c ∷ to_newline cs in if c == 10 then [] else rest

abbrev timebuf : Option Bytes → Bytes
timebuf none = no_time
timebuf (some t) = to_newline t

-- `%*s`; a negative width is that of a field to the left
abbrev field : ℤ → Bytes → Bytes
field (pos n) xs = replicate (n - length xs) 32 ++ xs
field (negsuc n) xs = xs ++ replicate (suc n - length xs) 32

-- `%d`, in front of what follows
abbrev pub digits : ℕ → ℕ → Bytes → Bytes
digits zero n rest = rest
digits (suc fuel) n rest =
    let more = digits fuel (n / 10) ((48 + n % 10) ∷ rest) in
    if ltb n 10 then (48 + n) ∷ rest else more

abbrev pub decimal : ℕ → Bytes
decimal n = digits 20 n []

abbrev coloured : Bool → Bytes → Bytes
coloured fancy col = if fancy then col else []

-- `resmsg`, before it is cut at its size
unfoldable pub whole_line : Log → Call → Bytes → Bytes → Bytes → Bytes
unfolding lvlnam lvlcol
whole_line s c pad payload err =
    coloured s.fancy (lvlcol c.lvl)
    ++ (timebuf c.time
        ++ (58 ∷ 32 ∷ s.ourname
            ++ (32 ∷ lvlnam c.lvl
                ++ (58 ∷ 32 ∷ field s.w_file c.file
                    ++ (58 ∷ field s.w_line (decimal c.line)
                        ++ (58 ∷ field s.w_func c.func
                            ++ (40 ∷ 41 ∷ 58 ∷ 32 ∷ pad
                                ++ (payload
                                    ++ (err ++ (coloured s.fancy col_rst ++ (10 ∷ [])))))))))))

abbrev pub say : Bytes → Log → Log
say xs s = record s { errout = s.errout ++ xs }

abbrev pub shown : Call → Log → Bytes → Bytes → Bytes → Log
shown c s pad payload err =
    if int_same c.lvl int_min
    then say (payload ++ (10 ∷ [])) s
    else say (take 4095 (whole_line s c pad payload err)) s

-- what `log_log` does once `log_init` has run
unfoldable pub log_message : Call → Log → Outcome Log
unfolding level_at errmsg pad_text whole_line
log_message c s = do
  l ← level_at c.of_module s
  let payload = tidy (take 4095 c.text)
  let printed =
      errmsg c.error >>= λ err. pad_text c.lvl s.calldepth >>= λ pad. ok (shown c s pad payload err)
  (if int_above c.lvl l then ok s else printed)
