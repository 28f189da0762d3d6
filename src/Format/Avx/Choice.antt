-- ===== src/Format/Avx/Choice.antt =====
-- The prefix that `opVex` chooses for registers.
use xbyak.Prelude.{ℕ, ◌<◌, ◌≡◌, inl, inr, arith, false, has, List, Option, none, some, has-digit16}
use xbyak.Err.{ok}
use xbyak.Flags.{t_map5, t_map6}
use xbyak.Operand.{Operand, get_idx, has_evex, is_ext_idx2}
use xbyak.Vex.Decode.{AreLow, read_vex, vex_meant, vex-Reads}
use xbyak.Format.Avx.{vex_or_evex, needs_evex_reg}

low_number : (o : Operand) → has_evex o ≡ false → get_idx o < 16
unfolding has_evex is_ext_idx2 get_idx
low_number o h = ground (arith, h, has-digit16 (get_idx o) (omega arith))

low_numbers :
    (r : Operand) (p1 : Option Operand) (base : Operand) (type : ℕ)
    → needs_evex_reg r p1 base type ≡ false
    → AreLow r base p1
unfolding needs_evex_reg get_idx
low_numbers r (some v) base type h = (
  low_number r (ground (arith, h)),
  low_number base (ground (arith, h)),
  low_number v (ground (arith, h)),
)
low_numbers r none base type h =
    (low_number r (ground (arith, h)), low_number base (ground (arith, h)), omega arith)

-- Where opVex of registers does not choose EVEX, for an opcode outside of the maps 5 and 6, it never
-- throws, and the processor reads from the prefix VEX that it writes the high bits of both
-- registers, the third operand, the map, W, L and pp that were meant.
pub vex_or_evex-Reads :
    (r : Operand) (p1 : Option Operand) (base : Operand) (type code : ℕ)
    → needs_evex_reg r p1 base type ≡ false
    → has type t_map5 ≡ false
    → has type t_map6 ≡ false
    → (bytes : List ℕ) × (vex_or_evex r p1 base type code ≡ ok bytes)
      × (read_vex bytes ≡ some (vex_meant r base p1 type code false))
unfolding vex_or_evex
vex_or_evex-Reads r p1 base type code by_vex no5 no6 =
    elim (vex-Reads r base p1 type code false no5 no6) [
      | inl (low, (bytes, runs, reads)) ↦ (bytes, rw by_vex runs, reads)
      | inr (high, fails) ↦ absurd (high (low_numbers r p1 base type by_vex))
    ]
