-- ===== src/Format/Apx.antt =====
-- The formats of APX and AMX, of mask registers, and `in` and `out`. An argument `dfv` is a word, a
-- negative one is above 15.
use xbyak.Prelude.{
  ℕ, ◌+◌, ◌-◌, ◌/◌, min, Bool, true, not, ◌&&◌, ◌||◌, bit_or, leb, ltb, ◌==◌, if◌then◌else◌, List,
  [], ◌∷◌, ◌++◌, none, some,
}
use xbyak.Err.{ErrorCode, Result, ok, err, throw_if, ◌>>=◌, ◌>>◌}
use xbyak.Flags.{t_must_evex, t_apx, t_code1_if1, t_nf, t_f3, t_f2, t_0f, t_66, t_w0, t_w1}
use xbyak.Operand.{Operand, none_reg, make_reg, tmm, get_idx}
use xbyak.Operand.Kind
use xbyak.RegExp.{Address, get_reg_exp, has_bit, clone_no_optimize}
use xbyak.RegMem.{RegMem, in_reg, in_mem, bit_of, op_is, op_is_bit, op_is_reg, is_mem, op_has_rex2}
use xbyak.Evex.{none_imm}
use xbyak.CodeArray.{Host, le_bytes}
use xbyak.ModRm.{mod_rm}
use xbyak.Jump.{Gen}
use xbyak.Format.{put, needs_apx, op_roo_write, op_roo_or}
use xbyak.Format.Arith.{get_imm_bit}
use xbyak.Format.Sse.{op_sse, put_imm8, is_xmm_xmm_or_mem}
use xbyak.Format.Avx.{op_vex}

-- Operand::DX
abbrev pub dx : ℕ
dx = 2

-- The opcode of `in` and `out` by the size of the register.
unfoldable pub in_out_code : ℕ → ℕ → Result (List ℕ)
in_out_code bit code =
    if bit == 8
    then ok (code ∷ [])
    else if bit == 16
    then ok (0x66 ∷ (code + 1) ∷ [])
    else if bit == 32
    then ok ((code + 1) ∷ [])
    else err ErrorCode.err_bad_combination

-- The code and the flags of opKmov.
unfoldable pub kmov_code : RegMem → Bool → Bool → ℕ
unfolding op_is
kmov_code op rev is_register =
    if rev
    then (if is_register then 0x93 else if is_mem op then 0x91 else 0)
    else if op_is op Kind.opmask 0 || is_mem op
    then 0x90
    else if is_register
    then 0x92
    else 0

unfoldable pub kmov_type : Bool → ℕ → ℕ
kmov_type is_register size =
    t_0f
    + (if size == 8
        then t_w0 + t_66
        else if size == 16
        then t_w0
        else if size == 32
        then (if is_register then t_w0 + t_f2 else t_w1 + t_66)
        else if size == 64
        then (if is_register then t_w1 + t_f2 else t_w1)
        else 0)

-- The register of an operand that is no address.
abbrev reg_or_none : RegMem → Operand
reg_or_none (in_reg r) = r
reg_or_none (in_mem a) = none_reg

module _ (h : Host) where
  -- `opROO(...)` whose result is not used
  unfoldable pub op_roo : Operand → RegMem → RegMem → ℕ → ℕ → ℕ → ℕ → Gen → Result Gen
  unfolding op_roo_or
  op_roo d op1 op2 type code imm_size sc = op_roo_or h d op1 op2 type code imm_size sc (λ s. ok s)

  -- opInOut(a, d, code)
  unfoldable pub op_in_out : Operand → Operand → ℕ → Gen → Result Gen
  unfolding get_idx in_out_code put
  op_in_out a d code g = do
    throw_if (not (get_idx a == 0 && (get_idx d == dx && d.bit == 16)))
        ErrorCode.err_bad_combination
    bs ← in_out_code a.bit code
    put h bs g

  -- opInOut(a, code, v)
  unfoldable pub op_in_out_imm : Operand → ℕ → ℕ → Gen → Result Gen
  unfolding get_idx in_out_code put
  op_in_out_imm a code v g = do
    throw_if (not (get_idx a == 0)) ErrorCode.err_bad_combination
    bs ← in_out_code a.bit code
    put h (bs ++ v ∷ []) g

  unfoldable pub op_ccmp : RegMem → RegMem → ℕ → ℕ → ℕ → Gen → Result Gen
  unfolding op_roo
  op_ccmp op1 op2 dfv code sc g = do
    throw_if (ltb 15 dfv) ErrorCode.err_invalid_dfv
    op_roo (make_reg (15 - dfv) Kind.reg (bit_or (bit_of op1) (bit_of op2))) op1 op2
        (t_apx + t_code1_if1) code 0 sc g

  unfoldable pub op_ccmpi : RegMem → ℕ → ℕ → ℕ → Gen → Result Gen
  unfolding op_roo get_imm_bit put
  op_ccmpi op imm dfv sc g =
      let bit = bit_of op in
      do
        throw_if (ltb 15 dfv) ErrorCode.err_invalid_dfv
        imm_bit ← get_imm_bit op imm
        g' ←
            op_roo (make_reg (15 - dfv) Kind.reg bit) op (in_reg (make_reg 15 Kind.reg bit))
              (t_apx + t_code1_if1) (if ltb imm_bit (min bit 32) then 0x82 else 0x80) (imm_bit / 8)
              sc g
        put h (le_bytes (imm_bit / 8) imm) g'

  unfoldable pub op_testi : RegMem → ℕ → ℕ → ℕ → Gen → Result Gen
  unfolding op_roo put
  op_testi op imm dfv sc g =
      let bit = bit_of op in
      do
        throw_if (ltb 15 dfv) ErrorCode.err_invalid_dfv
        throw_if (bit == 0) ErrorCode.err_mem_size_is_not_specified
        g' ←
            op_roo (make_reg (15 - dfv) Kind.reg bit) op (in_reg (make_reg 0 Kind.reg bit))
              (t_apx + t_code1_if1) 0xF6 (min bit 32 / 8) sc g
        put h (le_bytes (min bit 32 / 8) imm) g'

  unfoldable pub op_cfcmov : Operand → RegMem → RegMem → ℕ → Gen → Result Gen
  unfolding op_roo
  op_cfcmov d op1 op2 code g = do
    throw_if (ltb 0 d.bit && (ltb 0 (bit_of op2) && not (d.bit == bit_of op2)))
        ErrorCode.err_bad_size_of_register
    throw_if (op_is_bit op1 8 || bit_of op2 == 8) ErrorCode.err_bad_size_of_register
    elim op2 [
      | in_mem a ↦ (do
        throw_if (is_mem op1) ErrorCode.err_bad_combination
        op_roo d (in_mem a) op1 (if ltb 0 d.bit then t_must_evex + t_nf else t_must_evex) code 0
            none_imm g)
      | in_reg r ↦
          op_roo d op1 (in_reg (record r { nf = true })) (t_must_evex + t_nf) code 0 none_imm g
    ]

  unfoldable pub op_amx : Operand → Address → ℕ → ℕ → Gen → Result Gen
  unfolding op_roo_or op_vex
  op_amx t1 a type code g =
      let a2 = clone_no_optimize a in
      let e = get_reg_exp a2 in
      do
        throw_if (not (code == 0x49) && (not (has_bit e.base) || not (has_bit e.index)))
            ErrorCode.err_not_supported
        op_roo_or h none_reg (in_mem a2) (in_reg t1) (bit_or t_apx type) code 0 none_imm
            (op_vex h t1 (some (tmm 0)) (in_mem a2) type code none_imm) g

  unfoldable pub op_kmov : Operand → RegMem → Bool → ℕ → Gen → Result Gen
  unfolding op_is kmov_code kmov_type op_roo_or op_vex
  op_kmov k op rev size g =
      let is_register = op_is_reg op (if ltb size 64 then 32 else 64) in
      let code = kmov_code op rev is_register in
      let type = kmov_type is_register size in
      let p1 = if code == 0x93 then reg_or_none op else k in
      let p2 = if code == 0x93 then in_reg k else op in
      do
        throw_if (code == 0) ErrorCode.err_bad_combination
        op_roo_or h none_reg p2 (in_reg p1) (t_apx + type) code 0 none_imm
            (op_vex h p1 none p2 type code none_imm) g

  unfoldable pub op_encode_key : Operand → Operand → ℕ → ℕ → Gen → Result Gen
  unfolding get_idx put op_roo
  op_encode_key r1 r2 code1 code2 g =
      if ltb (get_idx r1) 8 && ltb (get_idx r2) 8
      then put h (0xF3 ∷ 0x0F ∷ 0x38 ∷ code1 ∷ mod_rm 3 (get_idx r1) (get_idx r2) ∷ []) g
      else op_roo none_reg (in_reg r2) (in_reg r1) (t_must_evex + t_f3) code2 0 none_imm g

  unfoldable pub op_sse_apx : Operand → RegMem → ℕ → ℕ → ℕ → ℕ → ℕ → Gen → Result Gen
  unfolding get_idx op_has_rex2 needs_apx op_roo_write op_sse put_imm8 is_xmm_xmm_or_mem
  op_sse_apx x op type1 code1 type2 code2 imm g =
      let plain = op_sse h x op type1 code1 (some is_xmm_xmm_or_mem) imm in
      if (leb (get_idx x) 15 && op_has_rex2 op) && needs_apx none_reg op (in_reg x) type2
      then op_roo_write h none_reg op (in_reg x) type2 code2 (if imm == none_imm then 0 else 1)
          none_imm g
        >>= put_imm8 h imm
      else plain g
