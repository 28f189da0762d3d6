-- ===== src/Mnemonic/Avx512/FromVpcmpb.antt =====
-- xbyak/xbyak_mnemonic.h: the instructions of AVX-512, from vpcmpb to vpmovm2w.
use xbyak.Prelude.{List, [], ◌∷◌, ◌+◌, true, false}
use xbyak.Flags.{
  t_0f, t_0f38, t_0f3a, t_66, t_b32, t_b64, t_ew1, t_f2, t_f3, t_m_k, t_must_evex, t_n1, t_n2, t_n4,
  t_n8, t_n_vl, t_sae_z, t_vsib, t_w0, t_ymm,
}
use xbyak.Format.Cvt.{Gather2Mode}
use xbyak.Mnemonic.{
  Method, method, avx2, avx2_store, avx3, encoding, gather2, k_avx, k_avx_imm, vex2, vmov,
}
use xbyak.Mnemonic.Signature.{k_x, k_x_o, k_x_o_i, o_x, x_k, x_m, x_o, x_x_o, x_x_o_e}

-- vpcmpb to vpmovm2w
unfoldable pub from_vpcmpb : List Method
from_vpcmpb =
    method "vpcmpb" k_x_o_i (k_avx_imm (t_66 + t_0f3a + t_w0 + t_ymm + t_must_evex) 0x3F)
    ∷ method "vpcmpd" k_x_o_i (k_avx_imm (t_66 + t_0f3a + t_w0 + t_ymm + t_must_evex + t_b32) 0x1F)
    ∷ method "vpcmpeqb" k_x_o (k_avx (t_66 + t_0f + t_ymm + t_must_evex) 0x74)
    ∷ method "vpcmpeqd" k_x_o (k_avx (t_66 + t_0f + t_ymm + t_must_evex + t_b32) 0x76)
    ∷ method "vpcmpeqq" k_x_o (k_avx (t_66 + t_0f38 + t_ew1 + t_ymm + t_must_evex + t_b64) 0x29)
    ∷ method "vpcmpeqw" k_x_o (k_avx (t_66 + t_0f + t_ymm + t_must_evex) 0x75)
    ∷ method "vpcmpgtb" k_x_o (k_avx (t_66 + t_0f + t_ymm + t_must_evex) 0x64)
    ∷ method "vpcmpgtd" k_x_o (k_avx (t_66 + t_0f + t_w0 + t_ymm + t_must_evex + t_b32) 0x66)
    ∷ method "vpcmpgtq" k_x_o (k_avx (t_66 + t_0f38 + t_ew1 + t_ymm + t_must_evex + t_b64) 0x37)
    ∷ method "vpcmpgtw" k_x_o (k_avx (t_66 + t_0f + t_ymm + t_must_evex) 0x65)
    ∷ method "vpcmpq" k_x_o_i (k_avx_imm (t_66 + t_0f3a + t_ew1 + t_ymm + t_must_evex + t_b64) 0x1F)
    ∷ method "vpcmpub" k_x_o_i (k_avx_imm (t_66 + t_0f3a + t_w0 + t_ymm + t_must_evex) 0x3E)
    ∷ method "vpcmpud" k_x_o_i (k_avx_imm (t_66 + t_0f3a + t_w0 + t_ymm + t_must_evex + t_b32) 0x1E)
    ∷ method "vpcmpuq" k_x_o_i
        (k_avx_imm (t_66 + t_0f3a + t_ew1 + t_ymm + t_must_evex + t_b64) 0x1E)
    ∷ method "vpcmpuw" k_x_o_i (k_avx_imm (t_66 + t_0f3a + t_ew1 + t_ymm + t_must_evex) 0x3E)
    ∷ method "vpcmpw" k_x_o_i (k_avx_imm (t_66 + t_0f3a + t_ew1 + t_ymm + t_must_evex) 0x3F)
    ∷ method "vpcompressb" o_x
        (avx2_store (t_n1 + t_66 + t_0f38 + t_w0 + t_ymm + t_must_evex + t_m_k) 0x63)
    ∷ method "vpcompressd" o_x
        (avx2_store (t_n4 + t_66 + t_0f38 + t_w0 + t_ymm + t_must_evex + t_m_k) 0x8B)
    ∷ method "vpcompressq" o_x
        (avx2_store (t_n8 + t_66 + t_0f38 + t_ew1 + t_ymm + t_must_evex + t_m_k) 0x8B)
    ∷ method "vpcompressw" o_x
        (avx2_store (t_n2 + t_66 + t_0f38 + t_ew1 + t_ymm + t_must_evex + t_m_k) 0x63)
    ∷ method "vpconflictd" x_o (avx2 (t_66 + t_0f38 + t_w0 + t_ymm + t_must_evex + t_b32) 0xC4)
    ∷ method "vpconflictq" x_o (avx2 (t_66 + t_0f38 + t_ew1 + t_ymm + t_must_evex + t_b64) 0xC4)
    ∷ method "vpdpbssd" x_x_o_e (encoding (t_f2 + t_0f38 + t_w0 + t_ymm) 0x50 0 t_b32 true)
    ∷ method "vpdpbssds" x_x_o_e (encoding (t_f2 + t_0f38 + t_w0 + t_ymm) 0x51 0 t_b32 true)
    ∷ method "vpdpbsud" x_x_o_e (encoding (t_f3 + t_0f38 + t_w0 + t_ymm) 0x50 0 t_b32 true)
    ∷ method "vpdpbsuds" x_x_o_e (encoding (t_f3 + t_0f38 + t_w0 + t_ymm) 0x51 0 t_b32 true)
    ∷ method "vpdpbuud" x_x_o_e (encoding (t_0f38 + t_w0 + t_ymm) 0x50 0 t_b32 true)
    ∷ method "vpdpbuuds" x_x_o_e (encoding (t_0f38 + t_w0 + t_ymm) 0x51 0 t_b32 true)
    ∷ method "vpdpwsud" x_x_o_e (encoding (t_f3 + t_0f38 + t_w0 + t_ymm) 0xD2 0 t_b32 true)
    ∷ method "vpdpwsuds" x_x_o_e (encoding (t_f3 + t_0f38 + t_w0 + t_ymm) 0xD3 0 t_b32 true)
    ∷ method "vpdpwusd" x_x_o_e (encoding (t_66 + t_0f38 + t_w0 + t_ymm) 0xD2 0 t_b32 true)
    ∷ method "vpdpwusds" x_x_o_e (encoding (t_66 + t_0f38 + t_w0 + t_ymm) 0xD3 0 t_b32 true)
    ∷ method "vpdpwuud" x_x_o_e (encoding (t_0f38 + t_w0 + t_ymm) 0xD2 0 t_b32 true)
    ∷ method "vpdpwuuds" x_x_o_e (encoding (t_0f38 + t_w0 + t_ymm) 0xD3 0 t_b32 true)
    ∷ method "vpermb" x_x_o (avx3 (t_66 + t_0f38 + t_w0 + t_ymm + t_must_evex) 0x8D)
    ∷ method "vpermi2b" x_x_o (avx3 (t_66 + t_0f38 + t_w0 + t_ymm + t_must_evex) 0x75)
    ∷ method "vpermi2d" x_x_o (avx3 (t_66 + t_0f38 + t_w0 + t_ymm + t_must_evex + t_b32) 0x76)
    ∷ method "vpermi2pd" x_x_o (avx3 (t_66 + t_0f38 + t_ew1 + t_ymm + t_must_evex + t_b64) 0x77)
    ∷ method "vpermi2ps" x_x_o (avx3 (t_66 + t_0f38 + t_w0 + t_ymm + t_must_evex + t_b32) 0x77)
    ∷ method "vpermi2q" x_x_o (avx3 (t_66 + t_0f38 + t_ew1 + t_ymm + t_must_evex + t_b64) 0x76)
    ∷ method "vpermi2w" x_x_o (avx3 (t_66 + t_0f38 + t_ew1 + t_ymm + t_must_evex) 0x75)
    ∷ method "vpermt2b" x_x_o (avx3 (t_66 + t_0f38 + t_w0 + t_ymm + t_must_evex) 0x7D)
    ∷ method "vpermt2d" x_x_o (avx3 (t_66 + t_0f38 + t_w0 + t_ymm + t_must_evex + t_b32) 0x7E)
    ∷ method "vpermt2pd" x_x_o (avx3 (t_66 + t_0f38 + t_ew1 + t_ymm + t_must_evex + t_b64) 0x7F)
    ∷ method "vpermt2ps" x_x_o (avx3 (t_66 + t_0f38 + t_w0 + t_ymm + t_must_evex + t_b32) 0x7F)
    ∷ method "vpermt2q" x_x_o (avx3 (t_66 + t_0f38 + t_ew1 + t_ymm + t_must_evex + t_b64) 0x7E)
    ∷ method "vpermt2w" x_x_o (avx3 (t_66 + t_0f38 + t_ew1 + t_ymm + t_must_evex) 0x7D)
    ∷ method "vpermw" x_x_o (avx3 (t_66 + t_0f38 + t_ew1 + t_ymm + t_must_evex) 0x8D)
    ∷ method "vpexpandb" x_o
        (avx2 (t_n1 + t_66 + t_0f38 + t_w0 + t_ymm + t_sae_z + t_must_evex) 0x62)
    ∷ method "vpexpandd" x_o (avx2 (t_n4 + t_66 + t_0f38 + t_w0 + t_ymm + t_must_evex) 0x89)
    ∷ method "vpexpandq" x_o (avx2 (t_n8 + t_66 + t_0f38 + t_ew1 + t_ymm + t_must_evex) 0x89)
    ∷ method "vpexpandw" x_o
        (avx2 (t_n2 + t_66 + t_0f38 + t_ew1 + t_ymm + t_sae_z + t_must_evex) 0x62)
    ∷ method "vpgatherdd" x_m (
        gather2 (t_n4 + t_66 + t_0f38 + t_w0 + t_ymm + t_must_evex + t_vsib) 0x90
          Gather2Mode.xx_yy_zz)
    ∷ method "vpgatherdq" x_m (
        gather2 (t_n8 + t_66 + t_0f38 + t_ew1 + t_ymm + t_must_evex + t_vsib) 0x90
          Gather2Mode.xx_yx_zy)
    ∷ method "vpgatherqd" x_m (
        gather2 (t_n4 + t_66 + t_0f38 + t_w0 + t_ymm + t_must_evex + t_vsib) 0x91
          Gather2Mode.xx_xy_yz)
    ∷ method "vpgatherqq" x_m (
        gather2 (t_n8 + t_66 + t_0f38 + t_ew1 + t_ymm + t_must_evex + t_vsib) 0x91
          Gather2Mode.xx_yy_zz)
    ∷ method "vplzcntd" x_o (avx2 (t_66 + t_0f38 + t_w0 + t_ymm + t_must_evex + t_b32) 0x44)
    ∷ method "vplzcntq" x_o (avx2 (t_66 + t_0f38 + t_ew1 + t_ymm + t_must_evex + t_b64) 0x44)
    ∷ method "vpmadd52huq" x_x_o (avx3 (t_66 + t_0f38 + t_ew1 + t_ymm + t_must_evex + t_b64) 0xB5)
    ∷ method "vpmadd52luq" x_x_o (avx3 (t_66 + t_0f38 + t_ew1 + t_ymm + t_must_evex + t_b64) 0xB4)
    ∷ method "vpmaxsq" x_x_o (avx3 (t_66 + t_0f38 + t_ew1 + t_ymm + t_must_evex + t_b64) 0x3D)
    ∷ method "vpmaxuq" x_x_o (avx3 (t_66 + t_0f38 + t_ew1 + t_ymm + t_must_evex + t_b64) 0x3F)
    ∷ method "vpminsq" x_x_o (avx3 (t_66 + t_0f38 + t_ew1 + t_ymm + t_must_evex + t_b64) 0x39)
    ∷ method "vpminuq" x_x_o (avx3 (t_66 + t_0f38 + t_ew1 + t_ymm + t_must_evex + t_b64) 0x3B)
    ∷ method "vpmovb2m" k_x (vex2 (t_f3 + t_0f38 + t_must_evex + t_ymm + t_w0) 0x29)
    ∷ method "vpmovd2m" k_x (vex2 (t_f3 + t_0f38 + t_must_evex + t_ymm + t_w0) 0x39)
    ∷ method "vpmovdb" o_x
        (vmov (t_n4 + t_n_vl + t_f3 + t_0f38 + t_w0 + t_ymm + t_must_evex + t_m_k) 0x31 false)
    ∷ method "vpmovdw" o_x
        (vmov (t_n8 + t_n_vl + t_f3 + t_0f38 + t_w0 + t_ymm + t_must_evex + t_m_k) 0x33 true)
    ∷ method "vpmovm2b" x_k (vex2 (t_f3 + t_0f38 + t_must_evex + t_ymm + t_w0) 0x28)
    ∷ method "vpmovm2d" x_k (vex2 (t_f3 + t_0f38 + t_must_evex + t_ymm + t_w0) 0x38)
    ∷ method "vpmovm2q" x_k (vex2 (t_f3 + t_0f38 + t_must_evex + t_ymm + t_ew1) 0x38)
    ∷ method "vpmovm2w" x_k (vex2 (t_f3 + t_0f38 + t_must_evex + t_ymm + t_ew1) 0x28)
    ∷ []
