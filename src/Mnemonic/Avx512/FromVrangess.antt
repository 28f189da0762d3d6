-- ===== src/Mnemonic/Avx512/FromVrangess.antt =====
-- xbyak/xbyak_mnemonic.h: the instructions of AVX-512, from vrangess to vucomxss.
use xbyak.Prelude.{List, [], ◌∷◌, ◌+◌}
use xbyak.Flags.{
  t_0f, t_0f38, t_0f3a, t_66, t_b16, t_b32, t_b64, t_er_x, t_er_z, t_ew1, t_f2, t_f3, t_m_k, t_map5,
  t_map6, t_must_evex, t_n2, t_n4, t_n8, t_sae_x, t_sae_z, t_vsib, t_w0, t_ymm,
}
use xbyak.Operand.Kind
use xbyak.Format.Cvt.{Gather2Mode}
use xbyak.Mnemonic.{Method, method, avx2, avx2_imm, avx3, avx3_imm, gather2_store, gather_fetch}
use xbyak.Mnemonic.Signature.{m, m_x, x_o, x_o_i, x_o_oo, x_x_o, x_x_o_i, y_y_o_i, z_o}

-- vrangess to vucomxss
unfoldable pub from_vrangess : List Method
from_vrangess =
    method "vrangess" x_x_o_i (avx3_imm (t_n4 + t_66 + t_0f3a + t_w0 + t_sae_x + t_must_evex) 0x51)
    ∷ method "vrcp14pd" x_o (avx2 (t_66 + t_0f38 + t_ew1 + t_ymm + t_must_evex + t_b64) 0x4C)
    ∷ method "vrcp14ps" x_o (avx2 (t_66 + t_0f38 + t_w0 + t_ymm + t_must_evex + t_b32) 0x4C)
    ∷ method "vrcp14sd" x_x_o (avx3 (t_n8 + t_66 + t_0f38 + t_ew1 + t_must_evex) 0x4D)
    ∷ method "vrcp14ss" x_x_o (avx3 (t_n4 + t_66 + t_0f38 + t_w0 + t_must_evex) 0x4D)
    ∷ method "vrcp28pd" z_o
        (avx2 (t_66 + t_0f38 + t_must_evex + t_ymm + t_ew1 + t_b64 + t_sae_z) 0xCA)
    ∷ method "vrcp28ps" z_o
        (avx2 (t_66 + t_0f38 + t_must_evex + t_ymm + t_w0 + t_b32 + t_sae_z) 0xCA)
    ∷ method "vrcp28sd" x_x_o (avx3 (t_n8 + t_66 + t_0f38 + t_ew1 + t_sae_x + t_must_evex) 0xCB)
    ∷ method "vrcp28ss" x_x_o (avx3 (t_n4 + t_66 + t_0f38 + t_w0 + t_sae_x + t_must_evex) 0xCB)
    ∷ method "vrcpbf16" x_o (avx2 (t_map6 + t_w0 + t_ymm + t_must_evex + t_b16) 0x4C)
    ∷ method "vrcpph" x_o (avx2 (t_66 + t_map6 + t_w0 + t_ymm + t_must_evex + t_b16) 0x4C)
    ∷ method "vrcpsh" x_x_o (avx3 (t_n2 + t_66 + t_map6 + t_w0 + t_must_evex) 0x4D)
    ∷ method "vreducebf16" x_o_i
        (avx2_imm (t_f2 + t_0f3a + t_w0 + t_ymm + t_must_evex + t_b16) 0x56)
    ∷ method "vreducepd" x_o_i
        (avx2_imm (t_66 + t_0f3a + t_ew1 + t_ymm + t_sae_z + t_must_evex + t_b64) 0x56)
    ∷ method "vreduceph" x_o_i
        (avx2_imm (t_0f3a + t_w0 + t_ymm + t_sae_z + t_must_evex + t_b16) 0x56)
    ∷ method "vreduceps" x_o_i
        (avx2_imm (t_66 + t_0f3a + t_w0 + t_ymm + t_sae_z + t_must_evex + t_b32) 0x56)
    ∷ method "vreducesd" x_x_o_i
        (avx3_imm (t_n8 + t_66 + t_0f3a + t_ew1 + t_sae_x + t_must_evex) 0x57)
    ∷ method "vreducesh" x_x_o_i (avx3_imm (t_n2 + t_0f3a + t_w0 + t_sae_x + t_must_evex) 0x57)
    ∷ method "vreducess" x_x_o_i
        (avx3_imm (t_n4 + t_66 + t_0f3a + t_w0 + t_sae_x + t_must_evex) 0x57)
    ∷ method "vrndscalebf16" x_o_i
        (avx2_imm (t_f2 + t_0f3a + t_w0 + t_ymm + t_must_evex + t_b16) 0x08)
    ∷ method "vrndscalepd" x_o_i
        (avx2_imm (t_66 + t_0f3a + t_ew1 + t_ymm + t_sae_z + t_must_evex + t_b64) 0x09)
    ∷ method "vrndscaleph" x_o_i
        (avx2_imm (t_0f3a + t_w0 + t_ymm + t_sae_z + t_must_evex + t_b16) 0x08)
    ∷ method "vrndscaleps" x_o_i
        (avx2_imm (t_66 + t_0f3a + t_w0 + t_ymm + t_sae_z + t_must_evex + t_b32) 0x08)
    ∷ method "vrndscalesd" x_x_o_i
        (avx3_imm (t_n8 + t_66 + t_0f3a + t_ew1 + t_sae_x + t_must_evex) 0x0B)
    ∷ method "vrndscalesh" x_x_o_i (avx3_imm (t_n2 + t_0f3a + t_w0 + t_sae_x + t_must_evex) 0x0A)
    ∷ method "vrndscaless" x_x_o_i
        (avx3_imm (t_n4 + t_66 + t_0f3a + t_w0 + t_sae_x + t_must_evex) 0x0A)
    ∷ method "vrsqrt14pd" x_o (avx2 (t_66 + t_0f38 + t_ew1 + t_ymm + t_must_evex + t_b64) 0x4E)
    ∷ method "vrsqrt14ps" x_o (avx2 (t_66 + t_0f38 + t_w0 + t_ymm + t_must_evex + t_b32) 0x4E)
    ∷ method "vrsqrt14sd" x_x_o (avx3 (t_n8 + t_66 + t_0f38 + t_ew1 + t_ymm + t_must_evex) 0x4F)
    ∷ method "vrsqrt14ss" x_x_o (avx3 (t_n4 + t_66 + t_0f38 + t_w0 + t_ymm + t_must_evex) 0x4F)
    ∷ method "vrsqrt28pd" z_o
        (avx2 (t_66 + t_0f38 + t_must_evex + t_ymm + t_ew1 + t_b64 + t_sae_z) 0xCC)
    ∷ method "vrsqrt28ps" z_o
        (avx2 (t_66 + t_0f38 + t_must_evex + t_ymm + t_w0 + t_b32 + t_sae_z) 0xCC)
    ∷ method "vrsqrt28sd" x_x_o (avx3 (t_n8 + t_66 + t_0f38 + t_ew1 + t_sae_x + t_must_evex) 0xCD)
    ∷ method "vrsqrt28ss" x_x_o (avx3 (t_n4 + t_66 + t_0f38 + t_w0 + t_sae_x + t_must_evex) 0xCD)
    ∷ method "vrsqrtbf16" x_o (avx2 (t_map6 + t_w0 + t_ymm + t_must_evex + t_b16) 0x4E)
    ∷ method "vrsqrtph" x_o (avx2 (t_66 + t_map6 + t_w0 + t_ymm + t_must_evex + t_b16) 0x4E)
    ∷ method "vrsqrtsh" x_x_o (avx3 (t_n2 + t_66 + t_map6 + t_w0 + t_must_evex) 0x4F)
    ∷ method "vscalefbf16" x_o (avx2 (t_map6 + t_w0 + t_ymm + t_must_evex + t_b16) 0x2C)
    ∷ method "vscalefbf16" x_x_o (avx3 (t_map6 + t_w0 + t_ymm + t_must_evex + t_b16) 0x2C)
    ∷ method "vscalefpd" x_x_o
        (avx3 (t_66 + t_0f38 + t_ew1 + t_ymm + t_er_z + t_must_evex + t_b64) 0x2C)
    ∷ method "vscalefph" x_x_o
        (avx3 (t_66 + t_map6 + t_w0 + t_ymm + t_er_z + t_must_evex + t_b16) 0x2C)
    ∷ method "vscalefps" x_x_o
        (avx3 (t_66 + t_0f38 + t_w0 + t_ymm + t_er_z + t_must_evex + t_b32) 0x2C)
    ∷ method "vscalefsd" x_x_o (avx3 (t_n8 + t_66 + t_0f38 + t_ew1 + t_er_x + t_must_evex) 0x2D)
    ∷ method "vscalefsh" x_x_o (avx3 (t_n2 + t_66 + t_map6 + t_w0 + t_er_x + t_must_evex) 0x2D)
    ∷ method "vscalefss" x_x_o (avx3 (t_n4 + t_66 + t_0f38 + t_w0 + t_er_x + t_must_evex) 0x2D)
    ∷ method "vscatterdpd" m_x (
        gather2_store (t_n8 + t_66 + t_0f38 + t_ew1 + t_ymm + t_must_evex + t_m_k + t_vsib) 0xA2
          Gather2Mode.xx_yx_zy)
    ∷ method "vscatterdps" m_x (
        gather2_store (t_n4 + t_66 + t_0f38 + t_w0 + t_ymm + t_must_evex + t_m_k + t_vsib) 0xA2
          Gather2Mode.xx_yy_zz)
    ∷ method "vscatterpf0dpd" m
        (gather_fetch 5 (t_n8 + t_66 + t_0f38 + t_ew1 + t_must_evex + t_m_k + t_vsib) 0xC6 Kind.ymm)
    ∷ method "vscatterpf0dps" m
        (gather_fetch 5 (t_n4 + t_66 + t_0f38 + t_w0 + t_must_evex + t_m_k + t_vsib) 0xC6 Kind.zmm)
    ∷ method "vscatterpf0qpd" m
        (gather_fetch 5 (t_n8 + t_66 + t_0f38 + t_ew1 + t_must_evex + t_m_k + t_vsib) 0xC7 Kind.zmm)
    ∷ method "vscatterpf0qps" m
        (gather_fetch 5 (t_n4 + t_66 + t_0f38 + t_w0 + t_must_evex + t_m_k + t_vsib) 0xC7 Kind.zmm)
    ∷ method "vscatterpf1dpd" m
        (gather_fetch 6 (t_n8 + t_66 + t_0f38 + t_ew1 + t_must_evex + t_m_k + t_vsib) 0xC6 Kind.ymm)
    ∷ method "vscatterpf1dps" m
        (gather_fetch 6 (t_n4 + t_66 + t_0f38 + t_w0 + t_must_evex + t_m_k + t_vsib) 0xC6 Kind.zmm)
    ∷ method "vscatterpf1qpd" m
        (gather_fetch 6 (t_n8 + t_66 + t_0f38 + t_ew1 + t_must_evex + t_m_k + t_vsib) 0xC7 Kind.zmm)
    ∷ method "vscatterpf1qps" m
        (gather_fetch 6 (t_n4 + t_66 + t_0f38 + t_w0 + t_must_evex + t_m_k + t_vsib) 0xC7 Kind.zmm)
    ∷ method "vscatterqpd" m_x (
        gather2_store (t_n8 + t_66 + t_0f38 + t_ew1 + t_ymm + t_must_evex + t_m_k + t_vsib) 0xA3
          Gather2Mode.xx_yy_zz)
    ∷ method "vscatterqps" m_x (
        gather2_store (t_n4 + t_66 + t_0f38 + t_w0 + t_ymm + t_must_evex + t_m_k + t_vsib) 0xA3
          Gather2Mode.xx_xy_yz)
    ∷ method "vshuff32x4" y_y_o_i
        (avx3_imm (t_66 + t_0f3a + t_ymm + t_must_evex + t_w0 + t_b32) 0x23)
    ∷ method "vshuff64x2" y_y_o_i
        (avx3_imm (t_66 + t_0f3a + t_ymm + t_must_evex + t_ew1 + t_b64) 0x23)
    ∷ method "vshufi32x4" y_y_o_i
        (avx3_imm (t_66 + t_0f3a + t_ymm + t_must_evex + t_w0 + t_b32) 0x43)
    ∷ method "vshufi64x2" y_y_o_i
        (avx3_imm (t_66 + t_0f3a + t_ymm + t_must_evex + t_ew1 + t_b64) 0x43)
    ∷ method "vsqrtbf16" x_o (avx2 (t_66 + t_map5 + t_w0 + t_ymm + t_must_evex + t_b16) 0x51)
    ∷ method "vsqrtph" x_o (avx2 (t_map5 + t_w0 + t_ymm + t_er_z + t_must_evex + t_b16) 0x51)
    ∷ method "vsqrtsh" x_x_o (avx3 (t_n2 + t_f3 + t_map5 + t_w0 + t_er_x + t_must_evex) 0x51)
    ∷ method "vsubbf16" x_x_o (avx3 (t_66 + t_map5 + t_w0 + t_ymm + t_must_evex + t_b16) 0x5C)
    ∷ method "vsubph" x_o_oo (avx3 (t_map5 + t_w0 + t_ymm + t_must_evex + t_er_z + t_b16) 0x5C)
    ∷ method "vsubsh" x_o_oo (avx3 (t_map5 + t_f3 + t_w0 + t_must_evex + t_er_x + t_n2) 0x5C)
    ∷ method "vucomish" x_o (avx2 (t_n2 + t_map5 + t_w0 + t_sae_x + t_must_evex) 0x2E)
    ∷ method "vucomxsd" x_o (avx2 (t_n8 + t_f2 + t_0f + t_ew1 + t_sae_x + t_must_evex) 0x2E)
    ∷ method "vucomxsh" x_o (avx2 (t_n2 + t_f3 + t_map5 + t_w0 + t_sae_x + t_must_evex) 0x2E)
    ∷ method "vucomxss" x_o (avx2 (t_n4 + t_f3 + t_0f + t_w0 + t_sae_x + t_must_evex) 0x2E)
    ∷ []
