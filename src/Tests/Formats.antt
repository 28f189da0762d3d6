-- ===== src/Tests/Formats.antt =====
-- Prefixes and instructions at concrete inputs.
use xbyak.Prelude.{ℕ, ◌≡◌, ◌<◌, ◌≤◌, ◌+◌, ◌⊎◌, inl, inr, refl, arith, true, false, List, some}
use xbyak.Err.{ErrorCode, ok, err}
use xbyak.Flags.{t_0f, t_0f38, t_66, t_w1, t_ew1, t_evex}
use xbyak.Operand.{Operand, xmm, ymm, zmm, reg64, reg32, reg16, is, is_ext_idx2, get_idx}
use xbyak.Vex.{vex}
use xbyak.Vex.Decode.{AreLow, vex_meant, read_vex, vex-Reads}
use xbyak.RegMem.{in_reg}
use xbyak.Format.Arith.{get_imm_bit, op_push_pop}
use xbyak.Format.Arith.Imm.{IsChosen, get_imm_bit-IsChosen, op_push_pop-ignores_size}
use xbyak.Format.Avx.{vex_or_evex}
use xbyak.Format.Avx.Choice.{vex_or_evex-Reads}
use xbyak.Tests.Code.{test_host}
use xbyak.Tests.Labels.{known_gen}

-- vaddps ymm9, ymm3, ymm10
abbrev vaddps_type : ℕ
vaddps_type = t_0f

vex-Reads_example :
    (AreLow (ymm 9) (ymm 10) (some (ymm 3))
      × ((bytes : List ℕ) × (vex (ymm 9) (ymm 10) (some (ymm 3)) vaddps_type 0x58 false ≡ ok bytes)
          × (read_vex bytes
              ≡ some (vex_meant (ymm 9) (ymm 10) (some (ymm 3)) vaddps_type 0x58 false))))
    ⊎ ((¬ AreLow (ymm 9) (ymm 10) (some (ymm 3)))
        × (vex (ymm 9) (ymm 10) (some (ymm 3)) vaddps_type 0x58 false
            ≡ err ErrorCode.err_bad_combination))
vex-Reads_example = vex-Reads (ymm 9) (ymm 10) (some (ymm 3)) vaddps_type 0x58 false refl refl

-- vaddpd zmm20{k3}, zmm5, zmm30
abbrev zmm20_k3 : Operand
zmm20_k3 = record (zmm 20) { mask = 3 }

abbrev vaddpd_type : ℕ
vaddpd_type = t_0f + t_66 + t_ew1 + t_evex

-- add r31, rcx, r16 with {nf}
abbrev r31_nf : Operand
r31_nf = record (reg64 31) { nf = true }

-- add ax, 0x12345678 is refused.
get_imm_bit-IsChosen_example :
    ((n : ℕ) × (get_imm_bit (in_reg (reg16 0)) 0x12345678 ≡ ok n) × IsChosen 16 0x12345678 n)
    ⊎ (((reg16 0).bit ≡ 16)
        × (0x10000 ≤ 0x12345678)
        × (0x12345678 < 0xFFFF0000)
        × (get_imm_bit (in_reg (reg16 0)) 0x12345678 ≡ err ErrorCode.err_imm_is_too_big))
get_imm_bit-IsChosen_example =
    get_imm_bit-IsChosen (reg16 0) 0x12345678 (omega arith) (inr (inl refl))

-- push r20d is push r20.
op_push_pop-ignores_size_example :
    op_push_pop test_host (in_reg (reg32 20)) 0xFF 6 0x50 known_gen
    ≡ op_push_pop test_host (in_reg (reg64 20)) 0xFF 6 0x50 known_gen
unfolding is is_ext_idx2 get_idx
op_push_pop-ignores_size_example =
    op_push_pop-ignores_size test_host (reg32 20) (reg64 20) 0xFF 6 0x50 known_gen refl refl refl
      refl

vex_or_evex-Reads_example :
    (bytes : List ℕ) × (vex_or_evex (xmm 1) (some (xmm 12)) (xmm 9) (t_0f38 + t_66 + t_w1) 0x98
      ≡ ok bytes)
    × (read_vex bytes
        ≡ some (vex_meant (xmm 1) (xmm 9) (some (xmm 12)) (t_0f38 + t_66 + t_w1) 0x98 false))
unfolding xbyak.Format.Avx.needs_evex_reg
vex_or_evex-Reads_example =
    vex_or_evex-Reads (xmm 1) (some (xmm 12)) (xmm 9) (t_0f38 + t_66 + t_w1) 0x98 refl refl refl
