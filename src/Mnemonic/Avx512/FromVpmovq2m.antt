-- ===== src/Mnemonic/Avx512/FromVpmovq2m.antt =====
-- xbyak/xbyak_mnemonic.h: the instructions of AVX-512, from vpmovq2m to vrangesd.
use xbyak.Prelude.{List, [], ◌∷◌, ◌+◌, true, false}
use xbyak.Flags.{
  t_0f, t_0f38, t_0f3a, t_66, t_b32, t_b64, t_ew1, t_f3, t_m_k, t_must_evex, t_n16, t_n2, t_n4,
  t_n8, t_n_vl, t_sae_x, t_sae_z, t_vsib, t_w0, t_ymm,
}
use xbyak.Format.Cvt.{Gather2Mode}
use xbyak.Mnemonic.{
  Method, method, avx2, avx3, avx3_imm, avx_ext, gather2_store, k_avx, vex2, vex3, vmov,
}
use xbyak.Mnemonic.Signature.{k_x, k_x_o, m_x, o_x, x_o, x_o_i, x_x_o, x_x_o_i}

-- vpmovq2m to vrangesd
unfoldable pub from_vpmovq2m : List Method
from_vpmovq2m =
    method "vpmovq2m" k_x (vex2 (t_f3 + t_0f38 + t_must_evex + t_ymm + t_ew1) 0x39)
    ∷ method "vpmovqb" o_x
        (vmov (t_n2 + t_n_vl + t_f3 + t_0f38 + t_w0 + t_ymm + t_must_evex + t_m_k) 0x32 false)
    ∷ method "vpmovqd" o_x
        (vmov (t_n8 + t_n_vl + t_f3 + t_0f38 + t_w0 + t_ymm + t_must_evex + t_m_k) 0x35 true)
    ∷ method "vpmovqw" o_x
        (vmov (t_n4 + t_n_vl + t_f3 + t_0f38 + t_w0 + t_ymm + t_must_evex + t_m_k) 0x34 false)
    ∷ method "vpmovsdb" o_x
        (vmov (t_n4 + t_n_vl + t_f3 + t_0f38 + t_w0 + t_ymm + t_must_evex + t_m_k) 0x21 false)
    ∷ method "vpmovsdw" o_x
        (vmov (t_n8 + t_n_vl + t_f3 + t_0f38 + t_w0 + t_ymm + t_must_evex + t_m_k) 0x23 true)
    ∷ method "vpmovsqb" o_x
        (vmov (t_n2 + t_n_vl + t_f3 + t_0f38 + t_w0 + t_ymm + t_must_evex + t_m_k) 0x22 false)
    ∷ method "vpmovsqd" o_x
        (vmov (t_n8 + t_n_vl + t_f3 + t_0f38 + t_w0 + t_ymm + t_must_evex + t_m_k) 0x25 true)
    ∷ method "vpmovsqw" o_x
        (vmov (t_n4 + t_n_vl + t_f3 + t_0f38 + t_w0 + t_ymm + t_must_evex + t_m_k) 0x24 false)
    ∷ method "vpmovswb" o_x
        (vmov (t_n8 + t_n_vl + t_f3 + t_0f38 + t_w0 + t_ymm + t_must_evex + t_m_k) 0x20 true)
    ∷ method "vpmovusdb" o_x
        (vmov (t_n4 + t_n_vl + t_f3 + t_0f38 + t_w0 + t_ymm + t_must_evex + t_m_k) 0x11 false)
    ∷ method "vpmovusdw" o_x
        (vmov (t_n8 + t_n_vl + t_f3 + t_0f38 + t_w0 + t_ymm + t_must_evex + t_m_k) 0x13 true)
    ∷ method "vpmovusqb" o_x
        (vmov (t_n2 + t_n_vl + t_f3 + t_0f38 + t_w0 + t_ymm + t_must_evex + t_m_k) 0x12 false)
    ∷ method "vpmovusqd" o_x
        (vmov (t_n8 + t_n_vl + t_f3 + t_0f38 + t_w0 + t_ymm + t_must_evex + t_m_k) 0x15 true)
    ∷ method "vpmovusqw" o_x
        (vmov (t_n4 + t_n_vl + t_f3 + t_0f38 + t_w0 + t_ymm + t_must_evex + t_m_k) 0x14 false)
    ∷ method "vpmovuswb" o_x
        (vmov (t_n8 + t_n_vl + t_f3 + t_0f38 + t_w0 + t_ymm + t_must_evex + t_m_k) 0x10 true)
    ∷ method "vpmovw2m" k_x (vex2 (t_f3 + t_0f38 + t_must_evex + t_ymm + t_ew1) 0x29)
    ∷ method "vpmovwb" o_x
        (vmov (t_n8 + t_n_vl + t_f3 + t_0f38 + t_w0 + t_ymm + t_must_evex + t_m_k) 0x30 true)
    ∷ method "vpmullq" x_x_o (avx3 (t_66 + t_0f38 + t_ew1 + t_ymm + t_must_evex + t_b64) 0x40)
    ∷ method "vpmultishiftqb" x_x_o
        (avx3 (t_66 + t_0f38 + t_ew1 + t_ymm + t_must_evex + t_b64) 0x83)
    ∷ method "vpopcntb" x_o (avx2 (t_66 + t_0f38 + t_w0 + t_ymm + t_sae_z + t_must_evex) 0x54)
    ∷ method "vpopcntd" x_o
        (avx2 (t_66 + t_0f38 + t_w0 + t_ymm + t_sae_z + t_must_evex + t_b32) 0x55)
    ∷ method "vpopcntq" x_o
        (avx2 (t_66 + t_0f38 + t_ew1 + t_ymm + t_sae_z + t_must_evex + t_b64) 0x55)
    ∷ method "vpopcntw" x_o (avx2 (t_66 + t_0f38 + t_ew1 + t_ymm + t_sae_z + t_must_evex) 0x54)
    ∷ method "vpord" x_x_o (avx3 (t_66 + t_0f + t_w0 + t_ymm + t_must_evex + t_b32) 0xEB)
    ∷ method "vporq" x_x_o (avx3 (t_66 + t_0f + t_ew1 + t_ymm + t_must_evex + t_b64) 0xEB)
    ∷ method "vprold" x_o_i (avx_ext 1 (t_66 + t_0f + t_w0 + t_ymm + t_must_evex + t_b32) 0x72)
    ∷ method "vprolq" x_o_i (avx_ext 1 (t_66 + t_0f + t_ew1 + t_ymm + t_must_evex + t_b64) 0x72)
    ∷ method "vprolvd" x_x_o (avx3 (t_66 + t_0f38 + t_w0 + t_ymm + t_must_evex + t_b32) 0x15)
    ∷ method "vprolvq" x_x_o (avx3 (t_66 + t_0f38 + t_ew1 + t_ymm + t_must_evex + t_b64) 0x15)
    ∷ method "vprord" x_o_i (avx_ext 0 (t_66 + t_0f + t_w0 + t_ymm + t_must_evex + t_b32) 0x72)
    ∷ method "vprorq" x_o_i (avx_ext 0 (t_66 + t_0f + t_ew1 + t_ymm + t_must_evex + t_b64) 0x72)
    ∷ method "vprorvd" x_x_o (avx3 (t_66 + t_0f38 + t_w0 + t_ymm + t_must_evex + t_b32) 0x14)
    ∷ method "vprorvq" x_x_o (avx3 (t_66 + t_0f38 + t_ew1 + t_ymm + t_must_evex + t_b64) 0x14)
    ∷ method "vpscatterdd" m_x (
        gather2_store (t_n4 + t_66 + t_0f38 + t_w0 + t_ymm + t_must_evex + t_m_k + t_vsib) 0xA0
          Gather2Mode.xx_yy_zz)
    ∷ method "vpscatterdq" m_x (
        gather2_store (t_n8 + t_66 + t_0f38 + t_ew1 + t_ymm + t_must_evex + t_m_k + t_vsib) 0xA0
          Gather2Mode.xx_yx_zy)
    ∷ method "vpscatterqd" m_x (
        gather2_store (t_n4 + t_66 + t_0f38 + t_w0 + t_ymm + t_must_evex + t_m_k + t_vsib) 0xA1
          Gather2Mode.xx_xy_yz)
    ∷ method "vpscatterqq" m_x (
        gather2_store (t_n8 + t_66 + t_0f38 + t_ew1 + t_ymm + t_must_evex + t_m_k + t_vsib) 0xA1
          Gather2Mode.xx_yy_zz)
    ∷ method "vpshldd" x_x_o_i
        (avx3_imm (t_66 + t_0f3a + t_w0 + t_ymm + t_sae_z + t_must_evex + t_b32) 0x71)
    ∷ method "vpshldq" x_x_o_i
        (avx3_imm (t_66 + t_0f3a + t_ew1 + t_ymm + t_sae_z + t_must_evex + t_b64) 0x71)
    ∷ method "vpshldvd" x_x_o
        (avx3 (t_66 + t_0f38 + t_w0 + t_ymm + t_sae_z + t_must_evex + t_b32) 0x71)
    ∷ method "vpshldvq" x_x_o
        (avx3 (t_66 + t_0f38 + t_ew1 + t_ymm + t_sae_z + t_must_evex + t_b64) 0x71)
    ∷ method "vpshldvw" x_x_o (avx3 (t_66 + t_0f38 + t_ew1 + t_ymm + t_sae_z + t_must_evex) 0x70)
    ∷ method "vpshldw" x_x_o_i
        (avx3_imm (t_66 + t_0f3a + t_ew1 + t_ymm + t_sae_z + t_must_evex) 0x70)
    ∷ method "vpshrdd" x_x_o_i
        (avx3_imm (t_66 + t_0f3a + t_w0 + t_ymm + t_sae_z + t_must_evex + t_b32) 0x73)
    ∷ method "vpshrdq" x_x_o_i
        (avx3_imm (t_66 + t_0f3a + t_ew1 + t_ymm + t_sae_z + t_must_evex + t_b64) 0x73)
    ∷ method "vpshrdvd" x_x_o
        (avx3 (t_66 + t_0f38 + t_w0 + t_ymm + t_sae_z + t_must_evex + t_b32) 0x73)
    ∷ method "vpshrdvq" x_x_o
        (avx3 (t_66 + t_0f38 + t_ew1 + t_ymm + t_sae_z + t_must_evex + t_b64) 0x73)
    ∷ method "vpshrdvw" x_x_o (avx3 (t_66 + t_0f38 + t_ew1 + t_ymm + t_sae_z + t_must_evex) 0x72)
    ∷ method "vpshrdw" x_x_o_i
        (avx3_imm (t_66 + t_0f3a + t_ew1 + t_ymm + t_sae_z + t_must_evex) 0x72)
    ∷ method "vpshufbitqmb" k_x_o (vex3 (t_66 + t_0f38 + t_w0 + t_ymm + t_must_evex) 0x8F)
    ∷ method "vpsllvw" x_x_o (avx3 (t_66 + t_0f38 + t_ew1 + t_ymm + t_must_evex) 0x12)
    ∷ method "vpsraq" x_o_i (avx_ext 4 (t_66 + t_0f + t_ew1 + t_ymm + t_must_evex + t_b64) 0x72)
    ∷ method "vpsraq" x_x_o (avx3 (t_n16 + t_66 + t_0f + t_ew1 + t_ymm + t_must_evex) 0xE2)
    ∷ method "vpsravq" x_x_o (avx3 (t_66 + t_0f38 + t_ew1 + t_ymm + t_must_evex + t_b64) 0x46)
    ∷ method "vpsravw" x_x_o (avx3 (t_66 + t_0f38 + t_ew1 + t_ymm + t_must_evex) 0x11)
    ∷ method "vpsrlvw" x_x_o (avx3 (t_66 + t_0f38 + t_ew1 + t_ymm + t_must_evex) 0x10)
    ∷ method "vpternlogd" x_x_o_i
        (avx3_imm (t_66 + t_0f3a + t_w0 + t_ymm + t_must_evex + t_b32) 0x25)
    ∷ method "vpternlogq" x_x_o_i
        (avx3_imm (t_66 + t_0f3a + t_ew1 + t_ymm + t_must_evex + t_b64) 0x25)
    ∷ method "vptestmb" k_x_o (k_avx (t_66 + t_0f38 + t_w0 + t_ymm + t_must_evex) 0x26)
    ∷ method "vptestmd" k_x_o (k_avx (t_66 + t_0f38 + t_w0 + t_ymm + t_must_evex + t_b32) 0x27)
    ∷ method "vptestmq" k_x_o (k_avx (t_66 + t_0f38 + t_ew1 + t_ymm + t_must_evex + t_b64) 0x27)
    ∷ method "vptestmw" k_x_o (k_avx (t_66 + t_0f38 + t_ew1 + t_ymm + t_must_evex) 0x26)
    ∷ method "vptestnmb" k_x_o (k_avx (t_f3 + t_0f38 + t_w0 + t_ymm + t_must_evex) 0x26)
    ∷ method "vptestnmd" k_x_o (k_avx (t_f3 + t_0f38 + t_w0 + t_ymm + t_must_evex + t_b32) 0x27)
    ∷ method "vptestnmq" k_x_o (k_avx (t_f3 + t_0f38 + t_ew1 + t_ymm + t_must_evex + t_b64) 0x27)
    ∷ method "vptestnmw" k_x_o (k_avx (t_f3 + t_0f38 + t_ew1 + t_ymm + t_must_evex) 0x26)
    ∷ method "vpxord" x_x_o (avx3 (t_66 + t_0f + t_w0 + t_ymm + t_must_evex + t_b32) 0xEF)
    ∷ method "vpxorq" x_x_o (avx3 (t_66 + t_0f + t_ew1 + t_ymm + t_must_evex + t_b64) 0xEF)
    ∷ method "vrangepd" x_x_o_i
        (avx3_imm (t_66 + t_0f3a + t_ew1 + t_ymm + t_sae_z + t_must_evex + t_b64) 0x50)
    ∷ method "vrangeps" x_x_o_i
        (avx3_imm (t_66 + t_0f3a + t_w0 + t_ymm + t_sae_z + t_must_evex + t_b32) 0x50)
    ∷ method "vrangesd" x_x_o_i
        (avx3_imm (t_n8 + t_66 + t_0f3a + t_ew1 + t_sae_x + t_must_evex) 0x51)
    ∷ []
