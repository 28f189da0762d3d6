-- ===== src/Mnemonic/Avx512/FromVgatherdpd.antt =====
-- xbyak/xbyak_mnemonic.h: the instructions of AVX-512, from vgatherdpd to vpbroadcastmw2d.
use xbyak.Prelude.{List, [], ◌∷◌, ◌+◌, true, false}
use xbyak.Flags.{
  t_0f, t_0f38, t_0f3a, t_66, t_b16, t_b32, t_b64, t_er_x, t_er_z, t_evex, t_ew1, t_f2, t_f3, t_m_k,
  t_map5, t_map6, t_must_evex, t_n16, t_n2, t_n32, t_n4, t_n8, t_sae_x, t_sae_z, t_vsib, t_w0,
  t_ymm,
}
use xbyak.Operand.Kind
use xbyak.Format.Cvt.{Gather2Mode}
use xbyak.Mnemonic.{
  Method, method, avx2, avx2_imm, avx2_store, avx3, avx3_imm, avx_xm0, encoding_imm, gather2,
  gather_fetch, insert, k_avx_unmasked, vex2,
}
use xbyak.Mnemonic.Signature.{
  k_x_o, m, m_x, x_k, x_m, x_o, x_o_i, x_o_oo, x_r32, x_x_o, x_x_o_i, x_x_o_i_e, x_x_x, y_y_o_i,
  z_z_o_i,
}

-- vgatherdpd to vpblendmw
unfoldable pub from_vgatherdpd : List Method
from_vgatherdpd =
    method "vgatherdpd" x_m (
      gather2 (t_n8 + t_66 + t_0f38 + t_ew1 + t_ymm + t_must_evex + t_vsib) 0x92
        Gather2Mode.xx_yx_zy)
    ∷ method "vgatherdps" x_m (
        gather2 (t_n4 + t_66 + t_0f38 + t_w0 + t_ymm + t_must_evex + t_vsib) 0x92
          Gather2Mode.xx_yy_zz)
    ∷ method "vgatherpf0dpd" m
        (gather_fetch 1 (t_n8 + t_66 + t_0f38 + t_ew1 + t_must_evex + t_m_k + t_vsib) 0xC6 Kind.ymm)
    ∷ method "vgatherpf0dps" m
        (gather_fetch 1 (t_n4 + t_66 + t_0f38 + t_w0 + t_must_evex + t_m_k + t_vsib) 0xC6 Kind.zmm)
    ∷ method "vgatherpf0qpd" m
        (gather_fetch 1 (t_n8 + t_66 + t_0f38 + t_ew1 + t_must_evex + t_m_k + t_vsib) 0xC7 Kind.zmm)
    ∷ method "vgatherpf0qps" m
        (gather_fetch 1 (t_n4 + t_66 + t_0f38 + t_w0 + t_must_evex + t_m_k + t_vsib) 0xC7 Kind.zmm)
    ∷ method "vgatherpf1dpd" m
        (gather_fetch 2 (t_n8 + t_66 + t_0f38 + t_ew1 + t_must_evex + t_m_k + t_vsib) 0xC6 Kind.ymm)
    ∷ method "vgatherpf1dps" m
        (gather_fetch 2 (t_n4 + t_66 + t_0f38 + t_w0 + t_must_evex + t_m_k + t_vsib) 0xC6 Kind.zmm)
    ∷ method "vgatherpf1qpd" m
        (gather_fetch 2 (t_n8 + t_66 + t_0f38 + t_ew1 + t_must_evex + t_m_k + t_vsib) 0xC7 Kind.zmm)
    ∷ method "vgatherpf1qps" m
        (gather_fetch 2 (t_n4 + t_66 + t_0f38 + t_w0 + t_must_evex + t_m_k + t_vsib) 0xC7 Kind.zmm)
    ∷ method "vgatherqpd" x_m (
        gather2 (t_n8 + t_66 + t_0f38 + t_ew1 + t_ymm + t_must_evex + t_vsib) 0x93
          Gather2Mode.xx_yy_zz)
    ∷ method "vgatherqps" x_m (
        gather2 (t_n4 + t_66 + t_0f38 + t_w0 + t_ymm + t_must_evex + t_vsib) 0x93
          Gather2Mode.xx_xy_yz)
    ∷ method "vgetexpbf16" x_o (avx2 (t_map6 + t_w0 + t_ymm + t_must_evex + t_b16) 0x42)
    ∷ method "vgetexppd" x_o
        (avx2 (t_66 + t_0f38 + t_ew1 + t_ymm + t_sae_z + t_must_evex + t_b64) 0x42)
    ∷ method "vgetexpph" x_o
        (avx2 (t_66 + t_map6 + t_w0 + t_ymm + t_sae_z + t_must_evex + t_b16) 0x42)
    ∷ method "vgetexpps" x_o
        (avx2 (t_66 + t_0f38 + t_w0 + t_ymm + t_sae_z + t_must_evex + t_b32) 0x42)
    ∷ method "vgetexpsd" x_x_o (avx3 (t_n8 + t_66 + t_0f38 + t_ew1 + t_sae_x + t_must_evex) 0x43)
    ∷ method "vgetexpsh" x_x_o (avx3 (t_n2 + t_66 + t_map6 + t_w0 + t_sae_x + t_must_evex) 0x43)
    ∷ method "vgetexpss" x_x_o (avx3 (t_n4 + t_66 + t_0f38 + t_w0 + t_sae_x + t_must_evex) 0x43)
    ∷ method "vgetmantbf16" x_o_i
        (avx2_imm (t_f2 + t_0f3a + t_w0 + t_ymm + t_must_evex + t_b16) 0x26)
    ∷ method "vgetmantpd" x_o_i
        (avx2_imm (t_66 + t_0f3a + t_ew1 + t_ymm + t_sae_z + t_must_evex + t_b64) 0x26)
    ∷ method "vgetmantph" x_o_i
        (avx2_imm (t_0f3a + t_w0 + t_ymm + t_sae_z + t_must_evex + t_b16) 0x26)
    ∷ method "vgetmantps" x_o_i
        (avx2_imm (t_66 + t_0f3a + t_w0 + t_ymm + t_sae_z + t_must_evex + t_b32) 0x26)
    ∷ method "vgetmantsd" x_x_o_i
        (avx3_imm (t_n8 + t_66 + t_0f3a + t_ew1 + t_sae_x + t_must_evex) 0x27)
    ∷ method "vgetmantsh" x_x_o_i (avx3_imm (t_n2 + t_0f3a + t_w0 + t_sae_x + t_must_evex) 0x27)
    ∷ method "vgetmantss" x_x_o_i
        (avx3_imm (t_n4 + t_66 + t_0f3a + t_w0 + t_sae_x + t_must_evex) 0x27)
    ∷ method "vinsertf32x4" y_y_o_i
        (insert true Kind.xmm (t_n16 + t_66 + t_0f3a + t_w0 + t_ymm + t_must_evex) 0x18)
    ∷ method "vinsertf32x8" z_z_o_i
        (insert false Kind.ymm (t_n32 + t_66 + t_0f3a + t_w0 + t_ymm + t_must_evex) 0x1A)
    ∷ method "vinsertf64x2" y_y_o_i
        (insert true Kind.xmm (t_n16 + t_66 + t_0f3a + t_ew1 + t_ymm + t_must_evex) 0x18)
    ∷ method "vinsertf64x4" z_z_o_i
        (insert false Kind.ymm (t_n32 + t_66 + t_0f3a + t_ew1 + t_ymm + t_must_evex) 0x1A)
    ∷ method "vinserti32x4" y_y_o_i
        (insert true Kind.xmm (t_n16 + t_66 + t_0f3a + t_w0 + t_ymm + t_must_evex) 0x38)
    ∷ method "vinserti32x8" z_z_o_i
        (insert false Kind.ymm (t_n32 + t_66 + t_0f3a + t_w0 + t_ymm + t_must_evex) 0x3A)
    ∷ method "vinserti64x2" y_y_o_i
        (insert true Kind.xmm (t_n16 + t_66 + t_0f3a + t_ew1 + t_ymm + t_must_evex) 0x38)
    ∷ method "vinserti64x4" z_z_o_i
        (insert false Kind.ymm (t_n32 + t_66 + t_0f3a + t_ew1 + t_ymm + t_must_evex) 0x3A)
    ∷ method "vmaxbf16" x_x_o (avx3 (t_66 + t_map5 + t_w0 + t_ymm + t_must_evex + t_b16) 0x5F)
    ∷ method "vmaxph" x_o_oo (avx3 (t_map5 + t_w0 + t_ymm + t_must_evex + t_sae_z + t_b16) 0x5F)
    ∷ method "vmaxsh" x_o_oo (avx3 (t_map5 + t_f3 + t_w0 + t_must_evex + t_sae_x + t_n2) 0x5F)
    ∷ method "vminbf16" x_x_o (avx3 (t_66 + t_map5 + t_w0 + t_ymm + t_must_evex + t_b16) 0x5D)
    ∷ method "vminmaxbf16" x_x_o_i
        (avx3_imm (t_f2 + t_0f3a + t_w0 + t_ymm + t_must_evex + t_b16) 0x52)
    ∷ method "vminmaxpd" x_x_o_i
        (avx3_imm (t_66 + t_0f3a + t_ew1 + t_ymm + t_sae_z + t_must_evex + t_b64) 0x52)
    ∷ method "vminmaxph" x_x_o_i
        (avx3_imm (t_0f3a + t_w0 + t_ymm + t_sae_z + t_must_evex + t_b16) 0x52)
    ∷ method "vminmaxps" x_x_o_i
        (avx3_imm (t_66 + t_0f3a + t_w0 + t_ymm + t_sae_z + t_must_evex + t_b32) 0x52)
    ∷ method "vminmaxsd" x_x_o_i
        (avx3_imm (t_n8 + t_66 + t_0f3a + t_ew1 + t_sae_x + t_must_evex) 0x53)
    ∷ method "vminmaxsh" x_x_o_i (avx3_imm (t_n2 + t_0f3a + t_w0 + t_sae_x + t_must_evex) 0x53)
    ∷ method "vminmaxss" x_x_o_i
        (avx3_imm (t_n4 + t_66 + t_0f3a + t_w0 + t_sae_x + t_must_evex) 0x53)
    ∷ method "vminph" x_o_oo (avx3 (t_map5 + t_w0 + t_ymm + t_must_evex + t_sae_z + t_b16) 0x5D)
    ∷ method "vminsh" x_o_oo (avx3 (t_map5 + t_f3 + t_w0 + t_must_evex + t_sae_x + t_n2) 0x5D)
    ∷ method "vmovdqa32" m_x (avx2_store (t_66 + t_0f + t_w0 + t_ymm + t_must_evex + t_m_k) 0x7F)
    ∷ method "vmovdqa32" x_o (avx2 (t_66 + t_0f + t_w0 + t_ymm + t_must_evex) 0x6F)
    ∷ method "vmovdqa64" m_x (avx2_store (t_66 + t_0f + t_ew1 + t_ymm + t_must_evex + t_m_k) 0x7F)
    ∷ method "vmovdqa64" x_o (avx2 (t_66 + t_0f + t_ew1 + t_ymm + t_must_evex) 0x6F)
    ∷ method "vmovdqu16" m_x (avx2_store (t_f2 + t_0f + t_ew1 + t_ymm + t_must_evex + t_m_k) 0x7F)
    ∷ method "vmovdqu16" x_o (avx2 (t_f2 + t_0f + t_ew1 + t_ymm + t_must_evex) 0x6F)
    ∷ method "vmovdqu32" m_x (avx2_store (t_f3 + t_0f + t_w0 + t_ymm + t_must_evex + t_m_k) 0x7F)
    ∷ method "vmovdqu32" x_o (avx2 (t_f3 + t_0f + t_w0 + t_ymm + t_must_evex) 0x6F)
    ∷ method "vmovdqu64" m_x (avx2_store (t_f3 + t_0f + t_ew1 + t_ymm + t_must_evex + t_m_k) 0x7F)
    ∷ method "vmovdqu64" x_o (avx2 (t_f3 + t_0f + t_ew1 + t_ymm + t_must_evex) 0x6F)
    ∷ method "vmovdqu8" m_x (avx2_store (t_f2 + t_0f + t_w0 + t_ymm + t_must_evex + t_m_k) 0x7F)
    ∷ method "vmovdqu8" x_o (avx2 (t_f2 + t_0f + t_w0 + t_ymm + t_must_evex) 0x6F)
    ∷ method "vmovsh" m_x (avx2_store (t_n2 + t_f3 + t_map5 + t_w0 + t_must_evex + t_m_k) 0x11)
    ∷ method "vmovsh" x_m (avx_xm0 (t_n2 + t_f3 + t_map5 + t_w0 + t_must_evex) 0x10)
    ∷ method "vmovsh" x_x_x (avx3 (t_n2 + t_f3 + t_map5 + t_w0 + t_must_evex) 0x10)
    ∷ method "vmpsadbw" x_x_o_i_e
        (encoding_imm (t_0f3a + t_ymm) 0x42 (t_66 + t_ymm) (t_f3 + t_0f3a + t_b32) true)
    ∷ method "vmulbf16" x_x_o (avx3 (t_66 + t_map5 + t_w0 + t_ymm + t_must_evex + t_b16) 0x59)
    ∷ method "vmulph" x_o_oo (avx3 (t_map5 + t_w0 + t_ymm + t_must_evex + t_er_z + t_b16) 0x59)
    ∷ method "vmulsh" x_o_oo (avx3 (t_map5 + t_f3 + t_w0 + t_must_evex + t_er_x + t_n2) 0x59)
    ∷ method "vp2intersectd" k_x_o
        (k_avx_unmasked (t_f2 + t_0f38 + t_ymm + t_evex + t_w0 + t_b32) 0x68)
    ∷ method "vp2intersectq" k_x_o
        (k_avx_unmasked (t_f2 + t_0f38 + t_ymm + t_evex + t_ew1 + t_b64) 0x68)
    ∷ method "vpabsq" x_o (avx2 (t_66 + t_0f38 + t_must_evex + t_ew1 + t_b64 + t_ymm) 0x1F)
    ∷ method "vpandd" x_x_o (avx3 (t_66 + t_0f + t_w0 + t_ymm + t_must_evex + t_b32) 0xDB)
    ∷ method "vpandnd" x_x_o (avx3 (t_66 + t_0f + t_w0 + t_ymm + t_must_evex + t_b32) 0xDF)
    ∷ method "vpandnq" x_x_o (avx3 (t_66 + t_0f + t_ew1 + t_ymm + t_must_evex + t_b64) 0xDF)
    ∷ method "vpandq" x_x_o (avx3 (t_66 + t_0f + t_ew1 + t_ymm + t_must_evex + t_b64) 0xDB)
    ∷ method "vpblendmb" x_x_o (avx3 (t_66 + t_0f38 + t_w0 + t_ymm + t_must_evex) 0x66)
    ∷ method "vpblendmd" x_x_o (avx3 (t_66 + t_0f38 + t_w0 + t_ymm + t_must_evex + t_b32) 0x64)
    ∷ method "vpblendmq" x_x_o (avx3 (t_66 + t_0f38 + t_ew1 + t_ymm + t_must_evex + t_b64) 0x64)
    ∷ method "vpblendmw" x_x_o (avx3 (t_66 + t_0f38 + t_ew1 + t_ymm + t_must_evex) 0x66)
    ∷ []

-- vpbroadcastd to vpbroadcastmw2d
unfoldable pub from_vpbroadcastd : List Method
from_vpbroadcastd =
    method "vpbroadcastd" x_r32 (vex2 (t_66 + t_0f38 + t_w0 + t_ymm + t_must_evex) 0x7C)
    ∷ method "vpbroadcastmb2q" x_k (vex2 (t_f3 + t_0f38 + t_ymm + t_must_evex + t_ew1) 0x2A)
    ∷ method "vpbroadcastmw2d" x_k (vex2 (t_f3 + t_0f38 + t_ymm + t_must_evex + t_w0) 0x3A)
    ∷ []
