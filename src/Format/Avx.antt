-- ===== src/Format/Avx.antt =====
-- The formats of AVX and AVX-512: `opVex`, which chooses between the prefixes VEX and EVEX, and the
-- calls that check its operands.
pub mod Choice
use xbyak.Prelude.{
  ℕ, ◌+◌, ◌%◌, Bool, true, false, not, ◌&&◌, ◌||◌, bit_or, has, ◌==◌, if◌then◌else◌, List, [], ◌∷◌,
  ◌++◌, Option, none, some,
}
use xbyak.Err.{ErrorCode, Result, ok, err, throw_if, ◌>>=◌, ◌>>◌}
use xbyak.Flags.{t_must_evex, t_mem_evex, t_m_k, t_b32, t_b64, t_vsib, t_w0, t_w1, t_ymm}
use xbyak.Operand.{
  Operand, none_reg, get_idx, is, is_bit, is_reg, is_xmm, is_ymm, is_zmm, is_simd, is_ext_idx,
  is_ext_idx2, has_evex, has_rex2,
}
use xbyak.RegExp.{Address, get_reg_exp, is_vsib, is32bit}
use xbyak.Rex.{address_has_rex2}
use xbyak.RegMem.{
  RegMem, in_reg, in_mem, kind_of, bit_of, op_is, op_is_reg, is_mem, op_has_rex2, op_has_zero,
}
use xbyak.Vex.{vex}
use xbyak.Evex.{evex, EvexArgs, default_args, none_imm, zero_or_false}
use xbyak.CodeArray.{Host}
use xbyak.ModRm.{mod_rm, op_addr}
use xbyak.Jump.{Gen}
use xbyak.Format.{put, op_roo_or}
use xbyak.Format.Sse.{put_imm8}

abbrev pub evex_or_false : Option Operand → Bool
unfolding has_evex
evex_or_false (some p) = has_evex p
evex_or_false none = false

-- The choice of EVEX for an address and for a register.
unfoldable pub needs_evex_mem : Operand → Option Operand → Address → ℕ → Bool
unfolding has_evex address_has_rex2
needs_evex_mem r p1 a type =
    has type (t_must_evex + t_mem_evex)
    || has_evex r
    || evex_or_false p1
    || a.broadcast
    || not (a.mask == 0)
    || address_has_rex2 a

unfoldable pub needs_evex_reg : Operand → Option Operand → Operand → ℕ → Bool
unfolding has_evex
needs_evex_reg r p1 base type =
    has type t_must_evex || has_evex r || evex_or_false p1 || has_evex base

-- The prefix and the opcode for a register in r/m.
unfoldable pub vex_or_evex : Operand → Option Operand → Operand → ℕ → ℕ → Result (List ℕ)
unfolding needs_evex_reg evex vex
vex_or_evex r p1 base type code =
    if needs_evex_reg r p1 base type
    then evex r base p1 type code default_args >>= (λ p. ok p.1)
    else vex r base p1 type code false

-- The checks of the mask and the broadcast of an address, and the prefix: disp8N and the bytes.
unfoldable pub evex_of_mem : Operand → Option Operand → Address → ℕ → ℕ → Result (ℕ × List ℕ)
unfolding evex is is_ext_idx2 is_vsib
evex_of_mem r p1 a type code =
    let e = get_reg_exp a in
    do
      throw_if (not (a.mask == 0) && not (has type t_m_k)) ErrorCode.err_invalid_opmask_with_memory
      throw_if (a.broadcast && not (has type (t_b32 + t_b64))) ErrorCode.err_invalid_broadcast
      evex r e.base p1 type code (record {
        x = some e.index;
        b = a.broadcast;
        aaa = a.mask;
        vl = if is_vsib e 896 then e.index.bit else 0;
        hi16_vidx = is_simd e.index && is_ext_idx2 e.index;
      })

module _ (h : Host) where
  -- The branch of opVex for an address.
  unfoldable pub op_vex_mem : Operand → Option Operand → Address → ℕ → ℕ → ℕ → Gen → Result Gen
  unfolding needs_evex_mem evex_of_mem vex is_ext_idx put get_idx
  op_vex_mem r p1 a type code imm8 g =
      let e = get_reg_exp a in
      do
        throw_if (has type t_m_k && (r.zero_flag || zero_or_false p1 || a.zero_flag))
            ErrorCode.err_invalid_zero
        g1 ← put h (if is32bit a then 0x67 ∷ [] else []) g
        p ←
            (if needs_evex_mem r p1 a type
              then evex_of_mem r p1 a type code
              else vex r e.base p1 type code (is_ext_idx e.index) >>= (λ bs. ok (0, bs)))
        g2 ← put h p.1 g1
        op_addr h
            (record a {
              permit_vsib = has type t_vsib || a.permit_vsib;
              disp8n = if p.0 == 0 then a.disp8n else p.0;
              imm_size = if imm8 == none_imm then a.imm_size else 1;
            })
            (get_idx r) g2

  -- opVex
  unfoldable pub op_vex : Operand → Option Operand → RegMem → ℕ → ℕ → ℕ → Gen → Result Gen
  unfolding op_vex_mem vex_or_evex put put_imm8 get_idx
  op_vex r p1 (in_mem a) type code imm8 g = op_vex_mem r p1 a type code imm8 g >>= put_imm8 h imm8
  op_vex r p1 (in_reg base) type code imm8 g = do
    bs ← vex_or_evex r p1 base type code
    g' ← put h (bs ++ mod_rm 3 (get_idx r) (get_idx base) ∷ []) g
    put_imm8 h imm8 g'

  -- opRRO
  unfoldable pub op_rro : Operand → Operand → RegMem → ℕ → ℕ → ℕ → Gen → Result Gen
  unfolding op_is has_rex2 op_has_rex2 op_roo_or op_vex put_imm8
  op_rro d r1 op2 type code imm8 g =
      let type' = bit_or type (if d.bit == 64 then t_w1 else t_w0) in
      do
        throw_if (not (r1.bit == d.bit) || (op_is_reg op2 0 && not (bit_of op2 == d.bit)))
            ErrorCode.err_bad_combination
        (if has_rex2 d || has_rex2 r1 || op_has_rex2 op2 || d.nf
            then op_roo_or h r1 op2 (in_reg d) type' code 0 none_imm (λ s. ok s) g
              >>= put_imm8 h imm8
            else op_vex d (some r1) op2 type' code imm8 g)

  -- The sizes of two vector registers: both xmm, or for a larger instruction both ymm or zmm.
  abbrev pub same_vectors : Operand → Operand → ℕ → Bool
  unfolding is
  same_vectors x1 x2 type =
      (is_xmm x1 && is_xmm x2)
      || (has type t_ymm && ((is_ymm x1 && is_ymm x2) || (is_zmm x1 && is_zmm x2)))

  -- opAVX_X_X_XM: without the last operand, the first one is used twice.
  unfoldable pub op_avx_x_x_xm : Operand → RegMem → RegMem → ℕ → ℕ → ℕ → Gen → Result Gen
  unfolding is op_vex
  op_avx_x_x_xm x1 op1 op2 type code imm8 g =
      if kind_of op2 == 0
      then (do
        throw_if (not (same_vectors x1 x1 type)) ErrorCode.err_bad_combination
        op_vex x1 (some x1) op1 type code imm8 g)
      else elim op1 [
        | in_reg x2 ↦ (do
          throw_if (not (same_vectors x1 x2 type)) ErrorCode.err_bad_combination
          op_vex x1 (some x2) op2 type code imm8 g)
        | in_mem a ↦ err ErrorCode.err_bad_combination
      ]

  -- opAVX_K_X_XM
  unfoldable pub op_avx_k_x_xm : Operand → Operand → RegMem → ℕ → ℕ → ℕ → Gen → Result Gen
  unfolding op_vex
  op_avx_k_x_xm k x2 op3 type code imm8 g = do
    throw_if (not (is_mem op3) && not (x2.kind == kind_of op3)) ErrorCode.err_bad_combination
    op_vex k (some x2) op3 type code imm8 g
