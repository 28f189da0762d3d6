-- ===== src/Format/Arith.antt =====
-- Immediate values, shifts, push and pop of a register or of memory.
pub mod Imm
use xbyak.Prelude.{
  ℕ, ◌+◌, ◌*◌, ◌/◌, ◌%◌, min, Bool, true, false, not, ◌&&◌, ◌||◌, bit_and, bit_or, has, leb, ltb,
  ◌==◌, if◌then◌else◌, List, [], ◌∷◌, ◌++◌, Option, none, some,
}
use xbyak.Err.{ErrorCode, Result, ok, err, throw_if, ◌>>=◌, ◌>>◌}
use xbyak.Flags.{t_apx, t_0f, t_66, t_nf, t_nd1, t_code1_if1, t_allow_diff_size}
use xbyak.Operand.{Operand, none_reg, make_reg, get_idx, is, is_bit, is_reg, has_rex2}
use xbyak.Operand.Kind
use xbyak.Rex.{rex_regs, rex_rxb, rex2}
use xbyak.RegMem.{RegMem, in_reg, in_mem, bit_of, idx_of, op_is_bit, is_mem}
use xbyak.Evex.{none_imm}
use xbyak.CodeArray.{Host, is_in_disp8, le_bytes}
use xbyak.Jump.{Gen}
use xbyak.Format.{
  put, prefix_bytes, op_rext, op_roo_or, op_roo_write, needs_apx, op_mr_plain, op_ro,
}

-- verifyMemHasSize
unfoldable pub verify_mem_has_size : RegMem → Result (Unit {0})
verify_mem_has_size op =
    throw_if (is_mem op && bit_of op == 0) ErrorCode.err_mem_size_is_not_specified

-- isInDisp16relaxed: `x & 0xffff0000` is 0 or 0xffff0000, of a word of 32 bits.
abbrev pub is_in_disp16_relaxed : ℕ → Bool
is_in_disp16_relaxed x = x / 0x10000 == 0 || x / 0x10000 == 0xFFFF

-- getImmBit
unfoldable pub get_imm_bit : RegMem → ℕ → Result ℕ
unfolding verify_mem_has_size
get_imm_bit op imm =
    let natural : ℕ = if is_in_disp8 imm then 8 else if is_in_disp16_relaxed imm then 16 else 32 in
    let imm_bit = if op_is_bit op 8 then 8 else natural in
    do
      verify_mem_has_size op
      throw_if (ltb (bit_of op) imm_bit) ErrorCode.err_imm_is_too_big
      ok (if op_is_bit op 96 && imm_bit == 16 then 32 else imm_bit)

-- The number 1 of a shift has an opcode of its own.
abbrev pub shift_type : ℕ → Option Operand → ℕ
shift_type ext d =
    bit_or (t_apx + t_code1_if1)
      (bit_or (if has ext 8 then t_nf else 0) (elim d [ some new ↦ t_nd1 | none ↦ 0 ]))

-- The check of the size of a new destination.
abbrev pub check_new : RegMem → Option Operand → Result (Unit {0})
check_new op none = ok tt
check_new op (some d) =
    throw_if (not (bit_of op == 0) && not (d.bit == bit_of op)) ErrorCode.err_bad_size_of_register

-- Operand::CL
abbrev pub cl : ℕ
cl = 1

module _ (h : Host) where
  -- opOI: `rax`, `eax`, `ax` and `al` have an opcode of their own.
  unfoldable pub op_oi : RegMem → ℕ → ℕ → ℕ → Gen → Result Gen
  unfolding get_imm_bit put is is_bit get_idx op_rext
  op_oi op imm code ext g =
      let general : ℕ → Result Gen = λ imm_bit.
        op_rext h op 0 ext 0 (bit_or 0x80 (if ltb imm_bit (min (bit_of op) 32) then 2 else 0)) false
          (imm_bit / 8) none g in
      do
        imm_bit ← get_imm_bit op imm
        g' ← elim op [
          | in_mem a ↦ general imm_bit
          | in_reg r ↦
              if is_reg r 0
                && (get_idx r == 0 && (r.bit == imm_bit || (is_bit r 64 && imm_bit == 32)))
              then (do
                p ← rex_regs r none_reg 0
                put h
                    (prefix_bytes p ++ bit_or (bit_or code 4) (if imm_bit == 8 then 0 else 1) ∷ [])
                    g)
              else general imm_bit
        ]
        put h (le_bytes (imm_bit / 8) imm) g'

  -- opROI: where opROO writes nothing, only the immediate value is written.
  unfoldable pub op_roi : Operand → RegMem → ℕ → ℕ → ℕ → Gen → Result Gen
  unfolding get_imm_bit put op_roo_or
  op_roi d op imm type ext g = do
    imm_bit ← get_imm_bit (in_reg d) imm
    g' ←
        op_roo_or h d op (in_reg (make_reg ext Kind.reg d.bit)) type
          (bit_or 0x80 (if ltb imm_bit (min d.bit 32) then 2 else 0)) (imm_bit / 8) none_imm
          (λ s. ok s) g
    put h (le_bytes (imm_bit / 8) imm) g'

  unfoldable pub op_inc_dec : Operand → RegMem → ℕ → Gen → Result Gen
  unfolding is is_bit op_roo_or op_rext verify_mem_has_size
  op_inc_dec d op ext g =
      if is_reg d 0
      then op_roo_or h d op (in_reg (make_reg ext Kind.reg d.bit))
          (bit_or (t_apx + t_nf + t_nd1) (if is_bit d 16 then t_66 else 0))
          (if is_bit d 8 then 0xFE else 0xFF) 0 none_imm (λ s. ok s) g
      else (do verify_mem_has_size op; op_rext h op (bit_of op) ext 0 0xFE false 0 none g)

  -- opShift(op, imm, ext, d)
  unfoldable pub op_shift_imm : RegMem → ℕ → ℕ → Option Operand → Gen → Result Gen
  unfolding verify_mem_has_size op_rext put
  op_shift_imm op imm ext d g = do
    elim d [ none ↦ verify_mem_has_size op | some new ↦ ok tt ]
    check_new op d
    g' ←
        op_rext h op 0 (ext % 8) (shift_type ext d) (if imm == 1 then 0xD0 else 0xC0) false
          (if imm == 1 then 0 else 1) d g
    if imm == 1 then ok g' else put h (imm ∷ []) g'

  -- opShift(op, _cl, ext, d)
  unfoldable pub op_shift_cl : RegMem → Operand → ℕ → Option Operand → Gen → Result Gen
  unfolding op_rext get_idx
  op_shift_cl op count ext d g = do
    throw_if (not (get_idx count == cl)) ErrorCode.err_bad_combination
    check_new op d
    op_rext h op 0 (ext % 8) (shift_type ext d) 0xD2 false 0 d g

  -- opShxd; `count` is `_cl`, where it is given.
  unfoldable pub op_shxd :
      Operand → RegMem → Operand → ℕ → ℕ → ℕ → Option Operand → Gen → Result Gen
  unfolding is get_idx op_roo_or op_ro put
  op_shxd d op r imm code code2 count g =
      let by_cl : Bool = elim count [ some c ↦ true | none ↦ false ] in
      let imm_size = if by_cl then 0 else 1 in
      let code' = if by_cl then bit_or code 1 else code in
      let type = bit_or (t_apx + t_nf) (if is_reg d 0 then t_nd1 else 0) in
      do
        elim count [
          | some c ↦ throw_if (not (get_idx c == cl)) ErrorCode.err_bad_combination
          | none ↦ ok tt
        ]
        throw_if (not (is_reg r 112)) ErrorCode.err_bad_size_of_register
        g' ←
            op_roo_or h d op (in_reg r) type (if by_cl then code' else code2) imm_size none_imm
              (op_ro h r op t_0f code' true imm_size) g
        if by_cl then ok g' else put h (imm ∷ []) g'

  -- The branch of opPushPop for the registers above 15, and opPushPopP, whose W is set.
  unfoldable pub push_pop_rex2 : Bool → Operand → ℕ → Gen → Result Gen
  unfolding rex_rxb rex2 get_idx put
  push_pop_rex2 w r alt = put h (
      rex2 false (rex_rxb 8 w none_reg r none_reg) none_reg r none_reg
      ++ bit_or alt (get_idx r % 8) ∷ [])

  unfoldable pub op_push_pop_p : Operand → ℕ → Gen → Result Gen
  unfolding push_pop_rex2
  op_push_pop_p r alt = push_pop_rex2 true r alt

  unfoldable pub op_push_pop : RegMem → ℕ → ℕ → ℕ → Gen → Result Gen
  unfolding has_rex2 is push_pop_rex2 put get_idx op_mr_plain
  op_push_pop (in_mem a) code ext alt g = do
    throw_if (not (a.bit == 16 || a.bit == 64)) ErrorCode.err_bad_combination
    g' ← put h (if a.bit == 16 then 0x66 ∷ [] else []) g
    op_mr_plain h a (make_reg ext Kind.reg 32) t_allow_diff_size code g'
  op_push_pop (in_reg r) code ext alt g =
      if is_reg r 0 && has_rex2 r then push_pop_rex2 false r alt g else (do
        throw_if (not ((r.bit == 16 || r.bit == 64) && is_reg r 0)) ErrorCode.err_bad_combination
        put h
            ((if r.bit == 16 then 0x66 ∷ [] else [])
              ++ (if leb 8 (get_idx r) then 0x41 ∷ [] else [])
              ++ bit_or alt (get_idx r % 8) ∷ [])
            g)
