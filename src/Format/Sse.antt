-- ===== src/Format/Sse.antt =====
-- The formats of MMX, SSE and x87.
use xbyak.Prelude.{
  ℕ, ◌+◌, ◌/◌, Bool, true, not, ◌&&◌, ◌||◌, bit_or, has, ltb, ◌==◌, if◌then◌else◌, [], ◌∷◌, ◌++◌,
  Option, none, some,
}
use xbyak.Err.{ErrorCode, Result, ok, err, throw_if, ◌>>=◌, ◌>>◌}
use xbyak.Flags.{t_0f, t_0f3a, t_66, t_f3, t_allow_diff_size}
use xbyak.Operand.{Operand, reg32, fpu, get_idx, is, is_bit, is_reg, is_xmm}
use xbyak.RegExp.{Address, i32e}
use xbyak.Rex.{rex_mem}
use xbyak.RegMem.{
  RegMem, in_reg, in_mem, bit_of, op_is, op_is_bit, op_is_reg, op_is_xmm, is_mem, is_valid_sse,
}
use xbyak.Operand.Kind
use xbyak.Evex.{none_imm}
use xbyak.CodeArray.{Host}
use xbyak.ModRm.{op_addr}
use xbyak.Jump.{Gen}
use xbyak.Format.{put, prefix_bytes, is_64bit_disp, op_ro, op_rr, op_mr_plain}

-- isXMM_XMMorMEM, isXMM_MMXorMEM and isMMX_XMMorMEM
unfoldable pub is_xmm_xmm_or_mem : RegMem → RegMem → Bool
unfolding op_is
is_xmm_xmm_or_mem op1 op2 = op_is_xmm op1 && (op_is_xmm op2 || is_mem op2)

unfoldable pub is_xmm_mmx_or_mem : RegMem → RegMem → Bool
unfolding op_is
is_xmm_mmx_or_mem op1 op2 = op_is_xmm op1 && (op_is op2 Kind.mmx 0 || is_mem op2)

unfoldable pub is_mmx_xmm_or_mem : RegMem → RegMem → Bool
unfolding op_is
is_mmx_xmm_or_mem op1 op2 = op_is op1 Kind.mmx 0 && (op_is_xmm op2 || is_mem op2)

-- isREG32_XMMorMEM and isREG32_REG32orMEM
unfoldable pub is_reg32_xmm_or_mem : RegMem → RegMem → Bool
unfolding op_is
is_reg32_xmm_or_mem op1 op2 = op_is_reg op1 i32e && (op_is_xmm op2 || is_mem op2)

unfoldable pub is_reg32_reg32_or_mem : RegMem → RegMem → Bool
unfolding op_is
is_reg32_reg32_or_mem op1 op2 =
    op_is_reg op1 i32e && ((op_is_reg op2 i32e && bit_of op1 == bit_of op2) || is_mem op2)

-- isXMMorMMX_MEM
unfoldable pub is_xmm_or_mmx_mem : RegMem → RegMem → Bool
unfolding op_is is_xmm_xmm_or_mem
is_xmm_or_mmx_mem op1 op2 =
    (op_is op1 Kind.mmx 0 && (op_is op2 Kind.mmx 0 || is_mem op2)) || is_xmm_xmm_or_mem op1 op2

-- isXMM_REG32orMEM
unfoldable pub is_xmm_reg32_or_mem : RegMem → RegMem → Bool
unfolding op_is
is_xmm_reg32_or_mem op1 op2 = op_is_xmm op1 && (op_is_reg op2 i32e || is_mem op2)

-- The result of the check that is passed to opSSE, where there is one.
abbrev passes : Option (RegMem → RegMem → Bool) → RegMem → RegMem → Bool
passes none op1 op2 = true
passes (some check) op1 op2 = check op1 op2

module _ (h : Host) where
  -- The immediate value behind an instruction, unless it is NONE.
  unfoldable pub put_imm8 : ℕ → Gen → Result Gen
  unfolding put
  put_imm8 imm8 g = if imm8 == none_imm then ok g else put h (imm8 ∷ []) g

  unfoldable pub op_sse :
      Operand → RegMem → ℕ → ℕ → Option (RegMem → RegMem → Bool) → ℕ → Gen → Result Gen
  unfolding is_valid_sse op_ro put_imm8
  op_sse r op type code check imm8 g = do
    throw_if (not (passes check (in_reg r) op)) ErrorCode.err_bad_combination
    throw_if (not (is_valid_sse (in_reg r)) || not (is_valid_sse op)) ErrorCode.err_not_supported
    g' ← op_ro h r op type code true (if imm8 == none_imm then 0 else 1) g
    put_imm8 imm8 g'

  unfoldable pub op_mmx_imm : Operand → ℕ → ℕ → ℕ → Gen → Result Gen
  unfolding is is_valid_sse op_rr put
  op_mmx_imm r imm8 code ext g = do
    throw_if (not (is_valid_sse (in_reg r))) ErrorCode.err_not_supported
    g' ← op_rr h (reg32 ext) r (bit_or t_0f (if is_xmm r then t_66 else 0)) code g
    put h (imm8 ∷ []) g'

  unfoldable pub op_mmx : Operand → RegMem → ℕ → ℕ → ℕ → ℕ → Gen → Result Gen
  unfolding is op_sse is_xmm_or_mmx_mem
  op_mmx r op code type pref imm8 =
      op_sse r op (bit_or type (if is_xmm r then pref else 0)) code (some is_xmm_or_mmx_mem) imm8

  unfoldable pub op_mov_xmm : RegMem → RegMem → ℕ → ℕ → Gen → Result Gen
  unfolding is is_valid_sse op_mr_plain
  op_mov_xmm op1 op2 type code g = do
    throw_if (not (is_valid_sse op1) || not (is_valid_sse op2)) ErrorCode.err_not_supported
    throw_if (not ((op_is_xmm op1 && is_mem op2) || (is_mem op1 && op_is_xmm op2)))
        ErrorCode.err_bad_combination
    move op1 op2
    where
      move : RegMem → RegMem → Result Gen
      move (in_reg r) (in_mem a) = op_mr_plain h a r type code g
      move (in_mem a) (in_reg r) = op_mr_plain h a r type (bit_or code 1) g
      move _ _ = err ErrorCode.err_bad_combination

  -- opExt: pextrw of a general register is special.
  unfoldable pub op_ext : RegMem → Operand → ℕ → ℕ → Bool → Gen → Result Gen
  unfolding is op_is is_valid_sse op_sse op_rr put is_xmm_reg32_or_mem
  op_ext op r code imm has_mmx2 g =
      let general = op_sse r op (t_66 + t_0f3a) code (some is_xmm_reg32_or_mem) imm g in
      do
        throw_if (not (is_valid_sse op) || not (is_valid_sse (in_reg r)))
            ErrorCode.err_not_supported
        elim op [
          | in_mem a ↦ general
          | in_reg s ↦
              if has_mmx2 && is_reg s i32e
              then (do
                g1 ← put h (if is_xmm r then 0x66 ∷ [] else []) g
                g2 ← op_rr h s r t_0f 0xC5 g1
                put h (imm ∷ []) g2)
              else general
        ]

  unfoldable pub op_movxx : Operand → RegMem → ℕ → Gen → Result Gen
  unfolding is op_ro
  op_movxx r op code g = do
    throw_if (op_is_bit op 32) ErrorCode.err_bad_combination
    throw_if (not (is_reg r 0 && ltb (bit_of op) r.bit)) ErrorCode.err_bad_combination
    op_ro h r op (t_0f + t_allow_diff_size) (bit_or code (if op_is_bit op 16 then 1 else 0)) true 0
        g

  unfoldable pub op_cnt : Operand → RegMem → ℕ → Gen → Result Gen
  unfolding is is_bit op_is op_ro
  op_cnt r op code g =
      let is16bit = is_reg r 16 && (op_is_reg op 16 || is_mem op) in
      do
        throw_if (is_bit r 8) ErrorCode.err_bad_size_of_register
        throw_if (not is16bit && not (is_reg r i32e && (op_is_reg op r.bit || is_mem op)))
            ErrorCode.err_bad_combination
        op_ro h r op (t_f3 + t_0f) code true 0 g

  unfoldable pub op_fpu_mem : Address → ℕ → ℕ → ℕ → ℕ → ℕ → Gen → Result Gen
  unfolding put
  op_fpu_mem a m16 m32 m64 ext m64ext g =
      let code =
        if has a.bit 16
        then m16
        else if has a.bit 32
        then m32
        else if has a.bit 64
        then m64
        else 0 in
      do
        throw_if (is_64bit_disp a) ErrorCode.err_cant_use_64bit_disp
        throw_if (code == 0) ErrorCode.err_bad_mem_size
        p ← rex_mem a (fpu 0) 0
        g' ← put h (prefix_bytes p ++ code ∷ []) g
        op_addr h a (if not (m64ext == 0) && has a.bit 64 then m64ext else ext) g'

  unfoldable pub op_fpu_fpu : Operand → Operand → ℕ → ℕ → Gen → Result Gen
  unfolding get_idx put
  op_fpu_fpu reg1 reg2 code1 code2 g =
      let code = if get_idx reg1 == 0 then code1 else if get_idx reg2 == 0 then code2 else 0 in
      do
        throw_if (code == 0) ErrorCode.err_bad_st_combination
        put h (code / 256 ∷ bit_or code (bit_or (get_idx reg1) (get_idx reg2)) ∷ []) g

  unfoldable pub op_fpu : Operand → ℕ → ℕ → Gen → Result Gen
  unfolding get_idx put
  op_fpu r code1 code2 = put h (code1 ∷ bit_or code2 (get_idx r) ∷ [])
