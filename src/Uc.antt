-- ===== src/Uc.antt =====
-- src/front/uc.c: the interface that a front end attaches to, looked up by name in the table of
-- src/front/frontends.h; with src/front/noop/uc_noop.c, the empty front end, which is not in the table.
use swh.Base.{
  ℕ, ℤ, pos, Bool, true, List, [], ◌∷◌, if◌then◌else◌, Outcome, ok, fault, critical, no_such_uc,
  ◌>>=◌,
}
use swh.Memory.{Bytes, Block}
use swh.Back.{same}
use swh.UcIa.{UcIa, uc_ia_hasdata, uc_ia_getdata, uc_ia_putdata}

-- struct uc_if
pub record UcIf (U : Type 0) : Type 0 where
  pub f_init : U → Outcome U
  pub f_hasdata : Bool → U → Outcome (ℤ × U)
  -- the value, and what `dest` holds after it
  pub f_getdata : Block → ℕ → U → Outcome (ℤ × Block × U)
  pub f_putdata : Block → ℕ → U → Outcome (Bool × U)

-- The calls through the interface.
module _ {U : Type 0} where
  abbrev pub uc_init : UcIf U → U → Outcome U
  uc_init ifc u = ifc.f_init u

  abbrev pub uc_hasdata : UcIf U → Bool → U → Outcome (ℤ × U)
  uc_hasdata ifc block u = ifc.f_hasdata block u

  abbrev pub uc_getdata : UcIf U → Block → ℕ → U → Outcome (ℤ × Block × U)
  uc_getdata ifc dest destsz u = ifc.f_getdata dest destsz u

  abbrev pub uc_putdata : UcIf U → Block → ℕ → U → Outcome (Bool × U)
  uc_putdata ifc dat datalen u = ifc.f_putdata dat datalen u

-- `uc_ia_init`: the result of setvbuf is only logged.
unfoldable pub uc_ia_init : UcIa → Outcome UcIa
uc_ia_init u = ok u

unfoldable pub uc_ia_attach : UcIf UcIa
unfolding uc_ia_init uc_ia_hasdata uc_ia_getdata uc_ia_putdata
uc_ia_attach = record {
  f_init = uc_ia_init;
  f_hasdata = λ block u. uc_ia_hasdata block u >>= λ (r, u'). ok (pos r, u');
  f_getdata = λ dest destsz u. uc_ia_getdata dest destsz u >>= λ (n, d, u'). ok (pos n, d, u');
  f_putdata = uc_ia_putdata;
}

module _ {U : Type 0} where
  unfoldable pub uc_noop_init : U → Outcome U
  uc_noop_init u = ok u

  unfoldable pub uc_noop_hasdata : Bool → U → Outcome (ℤ × U)
  uc_noop_hasdata block u = ok (pos 0, u)

  unfoldable pub uc_noop_getdata : Block → ℕ → U → Outcome (ℤ × Block × U)
  uc_noop_getdata dest destsz u = ok (pos 0, dest, u)

  unfoldable pub uc_noop_putdata : Block → ℕ → U → Outcome (Bool × U)
  uc_noop_putdata dat datalen u = ok (true, u)

  unfoldable pub uc_noop_attach : UcIf U
  unfolding uc_noop_init uc_noop_hasdata uc_noop_getdata uc_noop_putdata
  uc_noop_attach = record {
    f_init = uc_noop_init;
    f_hasdata = uc_noop_hasdata;
    f_getdata = uc_noop_getdata;
    f_putdata = uc_noop_putdata;
  }

-- the loop of `uc_attach` over `s_ucs`
unfoldable pub find_uc : {U : Type 0} → List (Bytes × UcIf U) → Bytes → Outcome (UcIf U)
unfolding same
find_uc [] ifname = fault (critical no_such_uc)
find_uc ((name, ifc) ∷ ucs) ifname =
    let rest = find_uc ucs ifname in if same name ifname then ok ifc else rest

-- "ia"
abbrev pub ia_name : Bytes
ia_name = 105 ∷ 97 ∷ []

-- X(ia)
abbrev pub s_ucs : List (Bytes × UcIf UcIa)
unfolding uc_ia_attach
s_ucs = (ia_name, uc_ia_attach) ∷ []

unfoldable pub uc_attach : Bytes → Outcome (UcIf UcIa)
unfolding find_uc
uc_attach ifname = find_uc s_ucs ifname
