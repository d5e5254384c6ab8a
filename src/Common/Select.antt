-- ===== src/Common/Select.antt =====
-- `selectfd` of src/common/common.c, over the answers of select(2).
use swh.Base.{
  Bool, true, false, List, [], ◌∷◌, if◌then◌else◌, Outcome, ok, fault, critical, starved,
  select_failed,
}

-- a descriptor is readable, the time is over, or -1 with EINTR or any other error
pub data SelectAnswer : Type 0 where
  readable nothing_yet woken broken : SelectAnswer

-- whether the descriptor is readable, and the answers that are left
unfoldable pub selectfd : Bool → List SelectAnswer → Outcome (Bool × List SelectAnswer)
selectfd block [] = fault starved
selectfd block (readable ∷ as') = ok (true, as')
selectfd block (nothing_yet ∷ as') =
    let more = selectfd block as' in if block then more else ok (false, as')
selectfd block (woken ∷ as') = selectfd block as'
selectfd block (broken ∷ as') = fault (critical select_failed)
