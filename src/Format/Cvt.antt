-- ===== src/Format/Cvt.antt =====
-- The formats of AVX whose operands have different sizes: conversions, gathers, moves that narrow.
use xbyak.Prelude.{
  ℕ, ◌+◌, Bool, true, false, not, ◌&&◌, ◌||◌, bit_or, has, ◌==◌, if◌then◌else◌, none, some,
}
use xbyak.Err.{ErrorCode, Result, ok, throw_if, ◌>>=◌, ◌>>◌}
use xbyak.Flags.{t_must_evex, t_m_k}
use xbyak.Operand.{Operand, get_idx, is, is_xmm, is_ymm, is_zmm, xmm, ymm, zmm}
use xbyak.Operand.Kind
use xbyak.Operand.Convert.{set_kind}
use xbyak.RegExp.{Address, i32e, get_reg_exp, is_vsib}
use xbyak.RegMem.{RegMem, in_reg, in_mem, bit_of, op_is, op_is_bit, op_is_reg, op_is_xmm, is_mem}
use xbyak.Evex.{none_imm}
use xbyak.CodeArray.{Host}
use xbyak.Jump.{Gen}
use xbyak.Format.Avx.{op_vex, op_avx_x_x_xm}

-- isYMM and isZMM
abbrev op_is_ymm : RegMem → Bool
unfolding op_is
op_is_ymm o = op_is o Kind.ymm 0

abbrev op_is_zmm : RegMem → Bool
unfolding op_is
op_is_zmm o = op_is o Kind.zmm 0

-- xm0, ym0 and zm0
abbrev xm0 : Operand
xm0 = xmm 0

-- cvtIdx0
abbrev pub cvt_idx0 : RegMem → Operand
unfolding op_is
cvt_idx0 x = if op_is_zmm x then zmm 0 else if op_is_ymm x then ymm 0 else xm0

-- The three modes of opGather and of opGather2.
pub data GatherMode : Type 0 where
  y_vx_y y_vy_y x_vy_x : GatherMode

pub data Gather2Mode : Type 0 where
  xx_yy_zz xx_yx_zy xx_xy_yz : Gather2Mode

-- checkGather2
unfoldable pub check_gather2 : Operand → Operand → Gather2Mode → Result (Unit {0})
unfolding is
check_gather2 x1 x2 mode =
    let fits : Bool = elim mode [
      | xx_yy_zz ↦ (is_ymm x1 && is_ymm x2) || (is_zmm x1 && is_zmm x2)
      | xx_yx_zy ↦ (is_ymm x1 && is_xmm x2) || (is_zmm x1 && is_ymm x2)
      | xx_xy_yz ↦ (is_xmm x1 && is_ymm x2) || (is_ymm x1 && is_zmm x2)
    ] in
    throw_if (not ((is_xmm x1 && is_xmm x2) || fits)) ErrorCode.err_bad_vsib_addressing

-- The checks of opGather; `wide` is that the index is a ymm.
unfoldable pub check_gather : Operand → Operand → Operand → GatherMode → Result (Unit {0})
unfolding is get_idx
check_gather x1 index x2 mode =
    let wide = index.bit == 256 in
    let fits : Bool = elim mode [
      | y_vx_y ↦ is_ymm x1 && (not wide && is_ymm x2)
      | y_vy_y ↦ is_ymm x1 && (wide && is_ymm x2)
      | x_vy_x ↦ not (is_ymm x1) && (wide && not (is_ymm x2))
    ] in
    do
      throw_if ((not (is_xmm x1) || wide || not (is_xmm x2)) && not fits)
          ErrorCode.err_bad_vsib_addressing
      throw_if
          (get_idx x1 == get_idx index || get_idx x1 == get_idx x2 || get_idx index == get_idx x2)
          ErrorCode.err_same_regs_are_invalid

-- PreferredEncoding
pub data PreferredEncoding : Type 0 where
  default_encoding vex_encoding evex_encoding pre_avx10v2_encoding avx10v2_encoding :
      PreferredEncoding

-- getEncoding: `defaults` is defaultEncoding_, and `second` is that `sel` is 1.
unfoldable pub get_encoding :
    (Bool → PreferredEncoding) → PreferredEncoding → Bool → Result PreferredEncoding
get_encoding defaults enc second =
    let chosen : PreferredEncoding = elim enc [
      | default_encoding ↦ defaults second
      | other ↦ other
    ] in
    let fits : Bool = elim chosen [
      | vex_encoding ↦ not second
      | evex_encoding ↦ not second
      | pre_avx10v2_encoding ↦ second
      | avx10v2_encoding ↦ second
      | default_encoding ↦ false
    ] in
    do throw_if (not fits) ErrorCode.err_bad_encoding_mode; ok chosen

abbrev is_vex : PreferredEncoding → Bool
is_vex vex_encoding = true
is_vex _ = false

abbrev pub is_avx10v2 : PreferredEncoding → Bool
is_avx10v2 avx10v2_encoding = true
is_avx10v2 _ = false

-- orEvexIf
unfoldable pub or_evex_if : (Bool → PreferredEncoding) → PreferredEncoding → ℕ → ℕ → Bool → Result ℕ
unfolding get_encoding
or_evex_if defaults enc type_vex type_evex second = do
  chosen ← get_encoding defaults enc second
  ok (
      if (not second && is_vex chosen) || (second && not (is_avx10v2 chosen))
      then type_vex
      else bit_or t_must_evex type_evex)

module _ (h : Host) where
  -- opCvt1
  unfoldable pub op_cvt1 : Operand → RegMem → ℕ → ℕ → ℕ → Gen → Result Gen
  unfolding is op_is op_vex
  op_cvt1 x op type code imm8 g = do
    throw_if
        (not (is_mem op)
          && (not (is x (Kind.xmm + Kind.ymm) 0 && op_is_xmm op) && not (is_zmm x && op_is_ymm op)))
        ErrorCode.err_bad_combination
    op_vex h x none op type code imm8 g

  -- opCvt
  unfoldable pub op_cvt : Operand → RegMem → ℕ → ℕ → Gen → Result Gen
  unfolding is set_kind op_vex
  op_cvt x op type code =
      let kind = if is_xmm x then (if op_is_bit op 256 then Kind.ymm else Kind.xmm) else Kind.zmm in
      op_vex h (set_kind x kind) (some xm0) op type code none_imm

  -- opCvt2
  unfoldable pub op_cvt2 : Operand → RegMem → ℕ → ℕ → Gen → Result Gen
  unfolding is op_is op_cvt
  op_cvt2 x op type code g = do
    throw_if
        (not (is_xmm x && op_is op (Kind.xmm + Kind.ymm + Kind.mem) 0)
          && not (is_ymm x && op_is op (Kind.zmm + Kind.mem) 0))
        ErrorCode.err_bad_combination
    op_cvt x op type code g

  -- opCvt3
  unfoldable pub op_cvt3 : Operand → Operand → RegMem → ℕ → ℕ → ℕ → ℕ → Gen → Result Gen
  unfolding is op_is op_vex
  op_cvt3 x1 x2 op type type64 type32 code g = do
    throw_if (not (is_xmm x1 && (is_xmm x2 && (op_is_reg op i32e || is_mem op))))
        ErrorCode.err_bad_size_of_register
    op_vex h x1 (some x2) op (bit_or type (if op_is_bit op 64 then type64 else type32)) code
        none_imm g

  -- opCvt4
  unfoldable pub op_cvt4 : Operand → RegMem → ℕ → ℕ → Gen → Result Gen
  unfolding is op_is op_cvt
  op_cvt4 x op type code g = do
    throw_if
        (not (is_xmm x && (op_is op (Kind.xmm + Kind.ymm + Kind.mem) 0 && op_is_bit op 384))
          && not (is_ymm x && op_is op (Kind.zmm + Kind.mem) 0))
        ErrorCode.err_bad_combination
    op_cvt x op type code g

  -- opCvt5
  unfoldable pub op_cvt5 : Operand → RegMem → ℕ → ℕ → Gen → Result Gen
  unfolding is set_kind op_vex
  op_cvt5 x op type code g =
      let kind =
        if op_is_bit op 128 then Kind.xmm else if op_is_bit op 256 then Kind.ymm else Kind.zmm in
      do
        throw_if (not (is_xmm x && op_is_bit op 896)) ErrorCode.err_bad_combination
        op_vex h (set_kind x kind) (some xm0) op type code none_imm g

  -- opCvt6
  unfoldable pub op_cvt6 : Operand → Operand → RegMem → ℕ → ℕ → Gen → Result Gen
  unfolding op_vex
  op_cvt6 x1 x2 op type code g =
      let b2 = x2.bit in
      do
        throw_if
            (not (
              (x1.bit == 128 && ((b2 == 128 || b2 == 256) && (b2 == bit_of op || is_mem op)))
              || (x1.bit == 256 && (b2 == 512 && (bit_of op == b2 || is_mem op)))))
            ErrorCode.err_bad_combination
        op_vex h x1 (some x2) op type code none_imm g

  -- opCvt7
  unfoldable pub op_cvt7 : Operand → Operand → RegMem → ℕ → ℕ → Gen → Result Gen
  unfolding is op_vex
  op_cvt7 x1 x2 op type code g = do
    throw_if (not (is_xmm x1 && (is_mem op || bit_of op == x2.bit))) ErrorCode.err_bad_combination
    op_vex h x1 (some x2) op type code none_imm g

  -- opAVX_X_XM_IMM
  unfoldable pub op_avx_x_xm_imm : Operand → RegMem → ℕ → ℕ → ℕ → Gen → Result Gen
  unfolding op_avx_x_x_xm
  op_avx_x_xm_imm x op type code imm8 =
      op_avx_x_x_xm h x (in_reg (cvt_idx0 (in_reg x))) op type code imm8

  unfoldable pub op_gather : Operand → Address → Operand → ℕ → ℕ → GatherMode → Gen → Result Gen
  unfolding is_vsib check_gather op_avx_x_x_xm get_idx
  op_gather x1 a x2 type code mode g =
      let e = get_reg_exp a in
      let wide = e.index.bit == 256 in
      do
        throw_if (not (is_vsib e 384)) ErrorCode.err_bad_vsib_addressing
        check_gather x1 e.index x2 mode
        op_avx_x_x_xm h (if wide then ymm (get_idx x1) else x1)
            (in_reg (if wide then ymm (get_idx x2) else x2)) (in_mem a) type code none_imm g

  unfoldable pub op_gather2 : Operand → Address → ℕ → ℕ → Gather2Mode → Gen → Result Gen
  unfolding check_gather2 get_idx op_vex
  op_gather2 x a type code mode g =
      let e = get_reg_exp a in
      do
        throw_if x.zero_flag ErrorCode.err_invalid_zero
        check_gather2 x e.index mode
        throw_if ((if has type t_m_k && not (a.mask == 0) then a.mask else x.mask) == 0)
            ErrorCode.err_k0_is_invalid
        throw_if (not (has type t_m_k) && get_idx x == get_idx e.index)
            ErrorCode.err_same_regs_are_invalid
        op_vex h x none (in_mem a) type code none_imm g

  -- opVmov: `mode` is that the sizes are halved, and else the register is an xmm.
  unfoldable pub op_vmov : RegMem → Operand → ℕ → ℕ → Bool → Gen → Result Gen
  unfolding is op_is op_vex
  op_vmov op x type code mode g =
      let fits =
        if mode
        then (op_is_xmm op && is_xmm x) || (op_is_xmm op && is_ymm x) || (op_is_ymm op && is_zmm x)
        else op_is_xmm op in
      do
        throw_if (not (is_mem op) && not fits) ErrorCode.err_bad_combination
        op_vex h x none op type code none_imm g

  unfoldable pub op_gather_fetch : Address → Operand → ℕ → ℕ → ℕ → Gen → Result Gen
  unfolding op_vex
  op_gather_fetch a x type code kind g = do
    throw_if a.zero_flag ErrorCode.err_invalid_zero
    throw_if (not ((get_reg_exp a).index.kind == kind)) ErrorCode.err_bad_vsib_addressing
    op_vex h x none (in_mem a) type code none_imm g

  unfoldable pub op_encoding :
      (Bool → PreferredEncoding)
      → Operand
      → Operand
      → RegMem
      → ℕ
      → ℕ
      → PreferredEncoding
      → ℕ
      → ℕ
      → ℕ
      → Bool
      → Gen
      → Result Gen
  unfolding or_evex_if op_avx_x_x_xm
  op_encoding defaults x1 x2 op type code enc imm type_vex type_evex second g = do
    extra ← or_evex_if defaults enc type_vex type_evex second
    op_avx_x_x_xm h x1 (in_reg x2) op (bit_or type extra) code imm g
