-- ===== src/Rex.antt =====
-- xbyak/xbyak.h: `CodeGenerator::rexRXB`, `rex2` and `rex`: the prefixes of an instruction.
-- `type` is a set of flags, `|` of fields that do not overlap is a sum.
pub mod Numbers
use xbyak.Prelude.{
  ℕ, ◌+◌, ◌*◌, ◌/◌, ◌%◌, Bool, true, false, not, ◌&&◌, ◌||◌, has, ◌==◌, if◌then◌else◌, List, [],
  ◌∷◌, ◌++◌,
}
use xbyak.Err.{ErrorCode, Result, ok, err, throw_if, ◌>>=◌, ◌>>◌}
use xbyak.Operand.{Operand, none_reg, test_idx, is, is_bit, is_reg, is_ext8bit, has_rex2}
use xbyak.Flags.{t_66, t_f3, t_0f, t_0f38, t_0f3a, t_f2}
use xbyak.RegExp.{RegExp, Address, i32e, is32bit, get_reg_exp}

-- rexRXB: `weight` is 8 for the bit 3 of a number, and 16 for the bit 4.
unfoldable pub rex_rxb : ℕ → Bool → Operand → Operand → Operand → ℕ
rex_rxb weight bit3 r b x =
    (if bit3 then 8 else 0)
    + (if test_idx r weight then 4 else 0)
    + (if test_idx x weight then 2 else 0)
    + (if test_idx b weight then 1 else 0)

-- The payload of `rex2` behind 0xD5.
unfoldable pub rex2 : Bool → ℕ → Operand → Operand → Operand → List ℕ
unfolding rex_rxb
rex2 bit3 rex4bit r b x = 0xD5 ∷ (rex_rxb 16 bit3 r b x * 16 + rex4bit) ∷ []

-- Address::hasRex2
unfoldable pub address_has_rex2 : Address → Bool
unfolding has_rex2
address_has_rex2 a = has_rex2 a.exp.base || has_rex2 a.exp.index

-- What `rex` writes: the bytes up to the REX prefix, that prefix, and whether it is REX2.
pub record Prefixes : Type 0 where
  pub legacy : List ℕ
  pub body : List ℕ
  pub is_rex2 : Bool

abbrev pub legacy_bytes : Bool → ℕ → List ℕ
legacy_bytes p66 type =
    (if has type t_66 || p66 then 0x66 ∷ [] else [])
    ++ ((if has type t_f2 then 0xF2 ∷ [] else []) ++ (if has type t_f3 then 0xF3 ∷ [] else []))

-- The condition for 0x66, of the sizes of the two operands.
abbrev pub wants_66 : ℕ → ℕ → Bool
wants_66 bit1 bit2 = (has bit1 16 && not (has bit2 i32e)) || (has bit2 16 && not (has bit1 i32e))

-- The ends of the two branches: `ext8` is that a register is one of spl, bpl, sil and dil.
abbrev pub finish : List ℕ → Bool → Bool → ℕ → ℕ → List ℕ → Result Prefixes
finish legacy wants_rex2 ext8 type rex two =
    if wants_rex2
    then (do
      throw_if (has type (t_0f38 + t_0f3a)) ErrorCode.err_cant_use_rex2
      ok (record { legacy = legacy; body = two; is_rex2 = true }))
    else ok (record {
      legacy = legacy;
      body = if not (rex == 0) || ext8 then (0x40 + rex) ∷ [] else [];
      is_rex2 = false;
    })

-- rex(op1, op2) of two registers.
unfoldable pub rex_regs : Operand → Operand → ℕ → Result Prefixes
unfolding rex_rxb rex2 has_rex2 is is_ext8bit
rex_regs op1 op2 type =
    let rex = rex_rxb 8 (is_reg op1 64 || is_reg op2 64) op2 op1 none_reg in
    do
      throw_if (op1.nf || op2.nf) ErrorCode.err_invalid_nf
      throw_if (op1.zu || op2.zu) ErrorCode.err_invalid_zu
      finish (legacy_bytes (wants_66 op1.bit op2.bit) type) (has_rex2 op1 || has_rex2 op2)
          (is_ext8bit op1 || is_ext8bit op2) type rex (rex2 (has type t_0f) rex op2 op1 none_reg)

-- rex(addr, r), in either order.
unfoldable pub rex_mem : Address → Operand → ℕ → Result Prefixes
unfolding rex_rxb rex2 has_rex2 is is_ext8bit address_has_rex2
rex_mem addr r type =
    let e = get_reg_exp addr in
    let rex = rex_rxb 8 (is_reg r 64) r e.base e.index in
    do
      throw_if r.nf ErrorCode.err_invalid_nf
      throw_if r.zu ErrorCode.err_invalid_zu
      finish
          (legacy_bytes (wants_66 addr.bit r.bit) type ++ (if is32bit addr then 0x67 ∷ [] else []))
          (has_rex2 r || address_has_rex2 addr) (is_ext8bit r) type rex
          (rex2 (has type t_0f) rex r e.base e.index)
