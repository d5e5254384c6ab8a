-- ===== src/Tests/Memory.antt =====
-- src/common/common.c at concrete inputs.
use swh.Base.{
  ℕ, ◌≡◌, ◌≤◌, ◌<◌, ◌+◌, ◌-◌, ◌*◌, ◌⊎◌, refl, some, List, [], ◌∷◌, arith, length, take, drop,
  lt→ltb, ok,
}
use swh.Memory.{Block}
use swh.Common.{double_until, doublings, growbuf, shiftbuf}
use swh.Common.Blocks.{shiftbuf_drops}
use swh.Common.Growth.{double_until_ends, growbuf_grows}
use swh.Common.Io.{WriteAnswer, wrote, stopped, ywrite}
use swh.Common.Io.Sends.{Willing, writing_answers, ywrite-sends}
use swh.Tests.Data.{libc}

double_until_ends_example :
    (n : ℕ) × (double_until doublings 128 1000 ≡ ok n)
    × (1000 ≤ n)
    × (128 ≤ n)
    × ((n ≡ 128) ⊎ (n < 2 * 1000))
double_until_ends_example = double_until_ends 128 1000 (omega arith) (omega arith)

abbrev two_cells : Block
two_cells = some 1 ∷ some 2 ∷ []

growbuf_grows_example :
    (m' : Block) × (n : ℕ) × (growbuf libc two_cells 2 5 ≡ ok (m', n))
    × (length m' ≡ n)
    × (2 ≤ n)
    × (5 ≤ n)
    × (take 2 m' ≡ two_cells)
    × ((n ≡ 2) ⊎ (n < 2 * 5))
growbuf_grows_example =
    growbuf_grows libc two_cells 2 5 refl (omega arith) (omega arith)
      (λ n l. lt→ltb n 1048576 (omega arith))

shiftbuf_drops_example :
    (m' : Block) × (shiftbuf two_cells 2 1 ≡ ok (m', 2 - 1))
    × (length m' ≡ length two_cells)
    × (take (2 - 1) m' ≡ drop 1 (take 2 two_cells))
shiftbuf_drops_example = shiftbuf_drops two_cells 2 1 (omega arith) (omega arith) (omega arith)

-- a piece of two bytes, an interruption, and more than is left
abbrev pieces : List WriteAnswer
pieces = wrote 2 ∷ stopped ∷ wrote 1 ∷ wrote 9 ∷ []

ywrite-sends_example :
    (bs : List WriteAnswer) × (ywrite pieces (0 ∷ []) (1 ∷ 2 ∷ 3 ∷ [])
      ≡ ok (0 ∷ 1 ∷ 2 ∷ 3 ∷ [], bs))
    × Willing bs
    × (writing_answers pieces ≤ writing_answers bs + 3)
ywrite-sends_example = ywrite-sends pieces (0 ∷ []) (1 ∷ 2 ∷ 3 ∷ []) tt (omega arith)
