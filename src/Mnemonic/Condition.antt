-- ===== src/Mnemonic/Condition.antt =====
-- xbyak/xbyak_mnemonic.h: the methods that are named for a condition, jcc, setcc, cmovcc, ccmpcc,
-- ctestcc and cfcmovcc, by the letters of the condition. `none` is a name that has no method.
pub mod Codes
pub mod Meaning
pub mod Agree
use Prim.Native.String.{String}
use text.Mathlib.Text.{◌==◌ as str_eq}
use mathlib.Core.Option
use xbyak.Prelude.{
  ℕ, ◌+◌, Bool, true, false, bit_or, if◌then◌else◌, List, [], ◌∷◌, Option, none, some,
}
use xbyak.Err.{Result}
use xbyak.Flags.{t_0f, t_apx, t_nd1}
use xbyak.Operand.{Operand, none_reg}
use xbyak.RegExp.{i32e}
use xbyak.RegMem.{RegMem, in_reg, op_is_reg}
use xbyak.Evex.{none_imm}
use xbyak.CodeArray.{Host}
use xbyak.LabelTable.{JmpLabel}
use xbyak.LabelManager.{LabelManager}
use xbyak.Jump.{Gen, LabelType, t_near, op_jmp, op_jmp_abs}
use xbyak.Format.{op_ro, op_set_cc}
use xbyak.Format.Apx.{op_roo, op_ccmp, op_ccmpi, op_testi, op_cfcmov}
use xbyak.Mnemonic.Condition.Codes.{
  cmov_codes, set_codes, jcc_codes, ccmp_codes, ctest_codes, cfcmov_codes,
}

unfoldable pub find_row {ℓ} : {A : Type ℓ} → String → List (String × A) → Option A
find_row name [] = none
find_row name ((n, v) ∷ rows) = if str_eq name n then some v else find_row name rows

-- What a method does with the two numbers of its row.
abbrev with_codes : (ℕ × ℕ → Result Gen) → String → List (String × (ℕ × ℕ)) → Option (Result Gen)
unfolding find_row
with_codes f name rows = Option.map f (find_row {A = ℕ × ℕ} name rows)

module _ (h : Host) where
  -- jcc(label, type), with the operations of the kind of label
  unfoldable pub jcc :
      {K : Type 0}
      → (K → LabelManager → Result (Option ℕ × K × LabelManager))
      → (K → JmpLabel → LabelManager → LabelManager)
      → String
      → K
      → LabelType
      → Gen
      → Option (Result Gen)
  unfolding find_row
  jcc find_label add name label type g =
      with_codes (λ c. op_jmp h find_label add label type c.0 c.1 0x0F g) name jcc_codes

  -- jcc(addr)
  unfoldable pub jcc_abs : String → ℕ → Gen → Option (Result Gen)
  unfolding find_row
  jcc_abs name addr g = with_codes (λ c. op_jmp_abs h addr t_near c.0 c.1 0x0F g) name jcc_codes

  unfoldable pub set_cc : String → RegMem → Gen → Option (Result Gen)
  unfolding find_row
  set_cc name op g = Option.map (λ c. op_set_cc h op c g) (find_row name set_codes)

  -- cmovcc(reg, op)
  unfoldable pub cmov : String → Operand → RegMem → Gen → Option (Result Gen)
  unfolding find_row
  cmov name reg op g =
      with_codes (λ c. op_ro h reg op t_0f (bit_or 0x40 c.0) (op_is_reg op (bit_or 16 i32e)) 0 g)
        name cmov_codes

  -- cmovcc(d, reg, op)
  unfoldable pub cmov_new : String → Operand → Operand → RegMem → Gen → Option (Result Gen)
  unfolding find_row
  cmov_new name d reg op g =
      with_codes (λ c. op_roo h d op (in_reg reg) (t_apx + t_nd1) (bit_or 0x40 c.1) 0 none_imm g)
        name cmov_codes

  -- ccmpcc(op, imm, dfv)
  unfoldable pub ccmp_imm : String → RegMem → ℕ → ℕ → Gen → Option (Result Gen)
  unfolding find_row
  ccmp_imm name op v dfv g = with_codes (λ c. op_ccmpi h op v dfv c.0 g) name ccmp_codes

  -- ccmpcc(op1, op2, dfv)
  unfoldable pub ccmp : String → RegMem → RegMem → ℕ → Gen → Option (Result Gen)
  unfolding find_row
  ccmp name op1 op2 dfv g = with_codes (λ c. op_ccmp h op1 op2 dfv 0x38 c.1 g) name ccmp_codes

  -- ctestcc(op, r, dfv)
  unfoldable pub ctest : String → RegMem → Operand → ℕ → Gen → Option (Result Gen)
  unfolding find_row
  ctest name op r dfv g = with_codes (λ c. op_ccmp h op (in_reg r) dfv 0x84 c.0 g) name ctest_codes

  -- ctestcc(op, imm, dfv)
  unfoldable pub ctest_imm : String → RegMem → ℕ → ℕ → Gen → Option (Result Gen)
  unfolding find_row
  ctest_imm name op v dfv g = with_codes (λ c. op_testi h op v dfv c.1 g) name ctest_codes

  -- cfcmovcc(op1, op2)
  unfoldable pub cfcmov : String → RegMem → RegMem → Gen → Option (Result Gen)
  unfolding find_row
  cfcmov name op1 op2 g = with_codes (λ c. op_cfcmov h none_reg op1 op2 c.0 g) name cfcmov_codes

  -- cfcmovcc(d, r, op): op_cfcmov is called with (d|T_nf, op, r)
  unfoldable pub cfcmov_new : String → Operand → Operand → RegMem → Gen → Option (Result Gen)
  unfolding find_row
  cfcmov_new name d r op g =
      with_codes (λ c. op_cfcmov h (record d { nf = true }) op (in_reg r) c.1 g) name cfcmov_codes
