-- ===== src/Ansiseq/Table.antt =====
-- The tokens and the transition table of src/back/ansiseq.c.
use swh.Base.{
  ℕ, Bool, ◌&&◌, ◌||◌, ltb, leb, ◌==◌, if◌then◌else◌, char_value, int_eq, Outcome, ok, fault,
  critical, undefined, char_out_of_range, out_of_bounds,
}
use swh.Ansiseq.Data.{
  State, sta, esc, csi, sqc, pph, fin, err, Token, escp, cchr, ndig, bell, strm, hash, oprn, cprn,
  osqb, csqb, qmrk, smcl, rest, Action, nop, begin, stor, mkctl, mkpar, mkstr, setcls, set_ext,
}

-- isdigit(3)
abbrev pub is_digit : ℕ → Bool
is_digit c = leb b'0' c && leb c b'9'

-- strchr(CCHRS, c) for a `c` that is not NUL
unfoldable pub is_cchr : ℕ → Bool
is_cchr c =
    (leb b'A' c && leb c b'Z') || (leb b'a' c && leb c b'z') || c == b'<' || c == b'=' || c == b'>'

-- the `switch` of `mktok`
unfoldable pub switch_tok : ℕ → Token
switch_tok c =
    if int_eq c (char_value 0o33)
    then escp
    else if int_eq c (char_value 0o7)
    then bell
    else if int_eq c (char_value 0o234)
    then strm
    else if int_eq c (char_value b'#')
    then hash
    else if int_eq c (char_value b'(')
    then oprn
    else if int_eq c (char_value b')')
    then cprn
    else if int_eq c (char_value b'[')
    then osqb
    else if int_eq c (char_value b']')
    then csqb
    else if int_eq c (char_value b'?')
    then qmrk
    else if int_eq c (char_value b';')
    then smcl
    else rest

unfoldable pub mktok : ℕ → Outcome Token
unfolding switch_tok is_cchr
mktok c =
    if ltb 255 c
    then fault (critical char_out_of_range)
    else if c == 0
    then ok rest
    else if is_digit c
    then ok ndig
    else if is_cchr c
    then ok cchr
    else ok (switch_tok c)

abbrev to_err : Outcome (State × Action)
to_err = ok (err, nop)

abbrev go : State → Action → Outcome (State × Action)
go st a = ok (st, a)

-- The table has no rows for `fin` and `err`.
unfoldable pub delta : State → Token → Outcome (State × Action)
delta sta escp = go esc begin
delta sta _ = to_err
delta esc escp = go esc begin
delta esc cchr = go fin mkctl
delta esc ndig = go fin mkctl
delta esc hash = go pph setcls
delta esc oprn = go pph setcls
delta esc cprn = go pph setcls
delta esc osqb = go csi setcls
delta esc csqb = go sqc setcls
delta esc _ = to_err
delta csi escp = go esc begin
delta csi cchr = go fin mkctl
delta csi ndig = go csi mkpar
delta csi qmrk = go csi set_ext
delta csi smcl = go csi stor
delta csi _ = to_err
delta sqc escp = go esc begin
delta sqc bell = go fin nop
delta sqc strm = go fin nop
delta sqc _ = go sqc mkstr
delta pph escp = go esc begin
delta pph cchr = go fin mkctl
delta pph ndig = go fin mkctl
delta pph _ = to_err
delta fin _ = fault (undefined out_of_bounds)
delta err _ = fault (undefined out_of_bounds)
