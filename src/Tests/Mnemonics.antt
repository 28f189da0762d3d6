-- ===== src/Tests/Mnemonics.antt =====
-- Methods for AVX and AVX-512 at concrete inputs.
use xbyak.Prelude.{ℕ, ◌+◌, ◌≡◌, refl, ◌⊎◌, arith, Bool, List, [], ◌∷◌, none, some, ◌<◌, bit_or}
use xbyak.Flags.{
  t_0f, t_apx, t_nd1, t_0f38, t_0f3a, t_66, t_w0, t_ew1, t_ymm, t_evex, t_b32, t_b64, t_er_z,
}
use xbyak.Operand.{Operand, make_reg, none_reg, xmm, ymm, opmask, get_idx}
use xbyak.Operand.Kind
use xbyak.RegExp.{i32e}
use xbyak.RegMem.{RegMem, in_reg, op_is_reg}
use xbyak.Evex.{none_imm}
use xbyak.LabelManager.{add_undefined_clabel}
use xbyak.Format.{op_ro, op_set_cc}
use xbyak.Format.Apx.{op_roo, op_ccmp, op_ccmpi, op_testi, op_cfcmov}
use xbyak.Format.Cvt.{PreferredEncoding, vex_encoding}
use xbyak.Jump.{t_near, t_auto, find_clabel, op_jmp, op_jmp_abs}
use xbyak.Mnemonic.{Method, method, Arg, rm, Body}
use xbyak.Mnemonic.Signature.{y_y_o}
use xbyak.Mnemonic.Call.{emit, call}
use xbyak.Mnemonic.Opcode.{vector_methods}
use xbyak.Mnemonic.Legacy.{LegacyLine, sse}
use xbyak.Mnemonic.Confused.{
  vpermq-writes_vpermd, vp2intersectq-writes_vp2intersectd, avx3_is4-drops_register,
}
use xbyak.Mnemonic.Condition.{
  find_row, jcc, jcc_abs, set_cc, cmov, cmov_new, ccmp, ccmp_imm, ctest, ctest_imm, cfcmov,
}
use xbyak.Mnemonic.Condition.Codes.{jcc_codes, ccmp_codes}
use xbyak.Mnemonic.Condition.Meaning.{CpuFlags, holds, source_holds, named_condition, named_source}
use xbyak.Mnemonic.Condition.Agree.{jcc-named_condition, ccmp-named_source}
use xbyak.Tests.Code.{test_host}
use xbyak.Tests.Labels.{known_gen}

abbrev defaults : Bool → PreferredEncoding
defaults _ = vex_encoding

abbrev regs : Operand → Operand → Operand → List Arg
regs r1 r2 r3 = rm (in_reg r1) ∷ rm (in_reg r2) ∷ rm (in_reg r3) ∷ []

abbrev permd : Method
permd = method "vpermd" y_y_o (Body.avx3 (t_66 + t_0f38 + t_w0 + t_ymm + t_evex + t_b32) 0x36)

abbrev permq : Method
permq = method "vpermq" y_y_o (Body.avx3 (t_66 + t_0f38 + t_ew1 + t_ymm + t_evex + t_b64) 0x36)

-- vaddps against addps.
abbrev addps_line : LegacyLine
addps_line = sse t_0f 0x58

abbrev vaddps_body : Body
vaddps_body = Body.avx3 (t_0f + t_w0 + t_ymm + t_evex + t_er_z + t_b32) 0x58

vpermq-writes_vpermd_example :
    call test_host defaults vector_methods "vpermq" (regs (ymm 3) (ymm 8) (ymm 15)) known_gen
    ≡ call test_host defaults vector_methods "vpermd" (regs (ymm 3) (ymm 8) (ymm 15)) known_gen
vpermq-writes_vpermd_example =
    vpermq-writes_vpermd test_host defaults 3 8 15 known_gen (omega arith) (omega arith)
      (omega arith)

vp2intersectq-writes_vp2intersectd_example :
    call test_host defaults vector_methods "vp2intersectq"
      (regs (opmask 2) (xmm 8) (xmm 15))
      known_gen
    ≡ call test_host defaults vector_methods "vp2intersectd"
        (regs (opmask 2) (xmm 8) (xmm 15))
        known_gen
vp2intersectq-writes_vp2intersectd_example =
    vp2intersectq-writes_vp2intersectd test_host defaults 2 8 15 known_gen (omega arith)
      (omega arith) (omega arith)

-- vblendvpd(xmm1, xmm2, xmm3, xmm16)
abbrev blend_type : ℕ
blend_type = t_0f3a + t_66 + t_ymm

avx3_is4-drops_register_example :
    emit test_host defaults
      (Body.avx3_is4 blend_type 0x4B)
      (rm (in_reg (xmm 1)) ∷ rm (in_reg (xmm 2)) ∷ rm (in_reg (xmm 3)) ∷ rm (in_reg (xmm 16)) ∷ [])
      known_gen
    ≡ emit test_host defaults (Body.avx3 blend_type 0x4B) (regs (xmm 1) (xmm 2) (xmm 3)) known_gen
unfolding get_idx
avx3_is4-drops_register_example =
    avx3_is4-drops_register test_host defaults blend_type 0x4B (xmm 1) (in_reg (xmm 2))
      (in_reg (xmm 3)) (xmm 16) known_gen refl

abbrev gpr_32 : ℕ → Operand
gpr_32 i = make_reg i Kind.reg 32

abbrev eax : Operand
eax = gpr_32 0

abbrev edx : Operand
edx = gpr_32 2

abbrev ecx_operand : RegMem
ecx_operand = in_reg (gpr_32 1)

-- jge(1), jge(addr), setge(al), cmovge(eax, ecx), cmovge(edx, eax, ecx)
jcc-named_condition_example :
    (c : ℕ) × (c < 16)
    × ((f : CpuFlags) → named_condition "ge" f ≡ some (holds c f))
    × (jcc test_host find_clabel add_undefined_clabel "ge" 1 t_auto known_gen
        ≡ some (
            op_jmp test_host find_clabel add_undefined_clabel 1 t_auto
              (0x70 + c)
              (0x80 + c)
              0x0F
              known_gen))
    × (jcc_abs test_host "ge" 4096 known_gen
        ≡ some (op_jmp_abs test_host 4096 t_near (0x70 + c) (0x80 + c) 0x0F known_gen))
    × (set_cc test_host "ge" ecx_operand known_gen
        ≡ some (op_set_cc test_host ecx_operand c known_gen))
    × (cmov test_host "ge" eax ecx_operand known_gen
        ≡ some (
            op_ro test_host eax ecx_operand t_0f
              (bit_or 0x40 c)
              (op_is_reg ecx_operand (bit_or 16 i32e))
              0
              known_gen))
    × (cmov_new test_host "ge" edx eax ecx_operand known_gen
        ≡ some (
            op_roo test_host edx ecx_operand
              (in_reg eax)
              (t_apx + t_nd1)
              (bit_or 0x40 c)
              0
              none_imm
              known_gen))
    × ((cfcmov test_host "ge" ecx_operand ecx_operand known_gen ≡ none)
        ⊎ (cfcmov test_host "ge" ecx_operand ecx_operand known_gen
            ≡ some (op_cfcmov test_host none_reg ecx_operand ecx_operand (0x40 + c) known_gen)))
unfolding find_row jcc_codes
jcc-named_condition_example =
    jcc-named_condition test_host find_clabel add_undefined_clabel "ge" 1 t_auto 4096 edx eax
      ecx_operand ecx_operand known_gen refl

-- ccmpnb(ecx, 5, 3), ccmpnb(ecx, ecx, 3), ctestnb(ecx, eax, 3), ctestnb(ecx, 5, 3)
ccmp-named_source_example :
    (c : ℕ) × (c < 16)
    × ((f : CpuFlags) → named_source "nb" f ≡ some (source_holds c f))
    × (ccmp_imm test_host "nb" ecx_operand 5 3 known_gen
        ≡ some (op_ccmpi test_host ecx_operand 5 3 c known_gen))
    × (ccmp test_host "nb" ecx_operand ecx_operand 3 known_gen
        ≡ some (op_ccmp test_host ecx_operand ecx_operand 3 0x38 c known_gen))
    × (ctest test_host "nb" ecx_operand eax 3 known_gen
        ≡ some (op_ccmp test_host ecx_operand (in_reg eax) 3 0x84 c known_gen))
    × (ctest_imm test_host "nb" ecx_operand 5 3 known_gen
        ≡ some (op_testi test_host ecx_operand 5 3 c known_gen))
unfolding find_row ccmp_codes
ccmp-named_source_example =
    ccmp-named_source test_host "nb" ecx_operand ecx_operand eax 5 3 known_gen refl
