-- ===== src/Mnemonic/Avx/FromVmovntdq.antt =====
-- xbyak/xbyak_mnemonic.h: the instructions of AVX, from vmovntdq to vpermq.
use xbyak.Prelude.{List, [], ◌∷◌, ◌+◌, false}
use xbyak.Flags.{
  t_0f, t_0f38, t_0f3a, t_66, t_b32, t_b64, t_er_x, t_er_z, t_evex, t_ew1, t_f2, t_f3, t_m_k,
  t_must_evex, t_n1, t_n2, t_n4, t_n8, t_sae_z, t_w0, t_w1, t_ymm,
}
use xbyak.Mnemonic.{
  Method, method, avx2, avx2_imm, avx2_store, avx2_xmm, avx3, avx3_imm, avx3_is4, avx3_or_xmm,
  avx_xm0, avx_xm0_store, calls, encoding, vex2, vex2_store,
}
use xbyak.Mnemonic.Signature.{
  m_x, x_m, x_o, x_o_i, x_o_oo, x_x, x_x_o, x_x_o_e, x_x_o_i, x_x_o_x, x_x_oo, y_o_i, y_y_o,
}

-- vmovntdq to vmovntps
unfoldable pub from_vmovntdq : List Method
from_vmovntdq =
    method "vmovntdq" m_x (vex2_store (t_0f + t_66 + t_ymm + t_evex + t_w0) 0xE7)
    ∷ method "vmovntdqa" x_m (vex2 (t_0f38 + t_66 + t_ymm + t_evex + t_w0) 0x2A)
    ∷ method "vmovntpd" m_x (vex2_store (t_0f + t_66 + t_ymm + t_evex + t_ew1) 0x2B)
    ∷ method "vmovntps" m_x (vex2_store (t_0f + t_ymm + t_evex + t_w0) 0x2B)
    ∷ []

-- vmovq to vpdpwssds
unfoldable pub from_vmovq : List Method
from_vmovq =
    method "vmovq" x_x (avx_xm0 (t_0f + t_f3 + t_evex + t_ew1 + t_n8) 0x7E)
    ∷ method "vmovsd" m_x (avx_xm0_store (t_n8 + t_f2 + t_0f + t_ew1 + t_evex + t_m_k) 0x11)
    ∷ method "vmovsd" x_m (avx_xm0 (t_n8 + t_f2 + t_0f + t_ew1 + t_evex) 0x10)
    ∷ method "vmovsd" x_x_oo (avx3_or_xmm (t_n8 + t_f2 + t_0f + t_ew1 + t_evex) 0x10)
    ∷ method "vmovshdup" x_o (avx2 (t_f3 + t_0f + t_w0 + t_ymm + t_evex) 0x16)
    ∷ method "vmovsldup" x_o (avx2 (t_f3 + t_0f + t_w0 + t_ymm + t_evex) 0x12)
    ∷ method "vmovss" m_x (avx_xm0_store (t_n4 + t_f3 + t_0f + t_w0 + t_evex + t_m_k) 0x11)
    ∷ method "vmovss" x_m (avx_xm0 (t_n4 + t_f3 + t_0f + t_w0 + t_evex) 0x10)
    ∷ method "vmovss" x_x_oo (avx3_or_xmm (t_n4 + t_f3 + t_0f + t_w0 + t_evex) 0x10)
    ∷ method "vmovupd" m_x (avx2_store (t_66 + t_0f + t_ew1 + t_ymm + t_evex + t_m_k) 0x11)
    ∷ method "vmovupd" x_o (avx2 (t_66 + t_0f + t_ew1 + t_ymm + t_evex) 0x10)
    ∷ method "vmovups" m_x (avx2_store (t_0f + t_w0 + t_ymm + t_evex + t_m_k) 0x11)
    ∷ method "vmovups" x_o (avx2 (t_0f + t_w0 + t_ymm + t_evex) 0x10)
    ∷ method "vmulpd" x_o_oo (avx3 (t_0f + t_66 + t_ew1 + t_ymm + t_evex + t_er_z + t_b64) 0x59)
    ∷ method "vmulps" x_o_oo (avx3 (t_0f + t_w0 + t_ymm + t_evex + t_er_z + t_b32) 0x59)
    ∷ method "vmulsd" x_o_oo (avx3 (t_0f + t_f2 + t_ew1 + t_evex + t_er_x + t_n8) 0x59)
    ∷ method "vmulss" x_o_oo (avx3 (t_0f + t_f3 + t_w0 + t_evex + t_er_x + t_n4) 0x59)
    ∷ method "vorpd" x_o_oo (avx3 (t_0f + t_66 + t_ew1 + t_ymm + t_evex + t_b64) 0x56)
    ∷ method "vorps" x_o_oo (avx3 (t_0f + t_w0 + t_ymm + t_evex + t_b32) 0x56)
    ∷ method "vpabsb" x_o (avx2 (t_66 + t_0f38 + t_ymm + t_evex) 0x1C)
    ∷ method "vpabsd" x_o (avx2 (t_66 + t_0f38 + t_w0 + t_ymm + t_evex + t_b32) 0x1E)
    ∷ method "vpabsw" x_o (avx2 (t_66 + t_0f38 + t_ymm + t_evex) 0x1D)
    ∷ method "vpackssdw" x_x_o (avx3 (t_66 + t_0f + t_w0 + t_ymm + t_evex + t_b32) 0x6B)
    ∷ method "vpacksswb" x_x_o (avx3 (t_66 + t_0f + t_ymm + t_evex) 0x63)
    ∷ method "vpackusdw" x_x_o (avx3 (t_66 + t_0f38 + t_w0 + t_ymm + t_evex + t_b32) 0x2B)
    ∷ method "vpackuswb" x_x_o (avx3 (t_66 + t_0f + t_ymm + t_evex) 0x67)
    ∷ method "vpaddb" x_x_o (avx3 (t_66 + t_0f + t_ymm + t_evex) 0xFC)
    ∷ method "vpaddd" x_x_o (avx3 (t_66 + t_0f + t_w0 + t_ymm + t_evex + t_b32) 0xFE)
    ∷ method "vpaddq" x_x_o (avx3 (t_66 + t_0f + t_ew1 + t_ymm + t_evex + t_b64) 0xD4)
    ∷ method "vpaddsb" x_x_o (avx3 (t_66 + t_0f + t_ymm + t_evex) 0xEC)
    ∷ method "vpaddsw" x_x_o (avx3 (t_66 + t_0f + t_ymm + t_evex) 0xED)
    ∷ method "vpaddusb" x_x_o (avx3 (t_66 + t_0f + t_ymm + t_evex) 0xDC)
    ∷ method "vpaddusw" x_x_o (avx3 (t_66 + t_0f + t_ymm + t_evex) 0xDD)
    ∷ method "vpaddw" x_x_o (avx3 (t_66 + t_0f + t_ymm + t_evex) 0xFD)
    ∷ method "vpalignr" x_x_o_i (avx3_imm (t_66 + t_0f3a + t_ymm + t_evex) 0x0F)
    ∷ method "vpand" x_x_o (avx3 (t_66 + t_0f + t_ymm) 0xDB)
    ∷ method "vpandn" x_x_o (avx3 (t_66 + t_0f + t_ymm) 0xDF)
    ∷ method "vpavgb" x_x_o (avx3 (t_66 + t_0f + t_ymm + t_evex) 0xE0)
    ∷ method "vpavgw" x_x_o (avx3 (t_66 + t_0f + t_ymm + t_evex) 0xE3)
    ∷ method "vpblendd" x_x_o_i (avx3_imm (t_66 + t_0f3a + t_w0 + t_ymm) 0x02)
    ∷ method "vpblendvb" x_x_o_x (avx3_is4 (t_0f3a + t_66 + t_ymm) 0x4C)
    ∷ method "vpblendw" x_x_o_i (avx3_imm (t_66 + t_0f3a + t_w0 + t_ymm) 0x0E)
    ∷ method "vpbroadcastb" x_o (avx2_xmm (t_n1 + t_66 + t_0f38 + t_w0 + t_ymm + t_evex) 0x78)
    ∷ method "vpbroadcastd" x_o (avx2_xmm (t_n4 + t_66 + t_0f38 + t_w0 + t_ymm + t_evex) 0x58)
    ∷ method "vpbroadcastq" x_o
        (avx2_xmm (t_n8 + t_66 + t_0f38 + t_w0 + t_ew1 + t_ymm + t_evex) 0x59)
    ∷ method "vpbroadcastw" x_o (avx2_xmm (t_n2 + t_66 + t_0f38 + t_w0 + t_ymm + t_evex) 0x79)
    ∷ method "vpclmulhqhqdq" x_x_o (calls "vpclmulqdq" 0x11)
    ∷ method "vpclmulhqlqdq" x_x_o (calls "vpclmulqdq" 0x01)
    ∷ method "vpclmullqhqdq" x_x_o (calls "vpclmulqdq" 0x10)
    ∷ method "vpclmullqlqdq" x_x_o (calls "vpclmulqdq" 0x00)
    ∷ method "vpclmulqdq" x_x_o_i (avx3_imm (t_66 + t_0f3a + t_w0 + t_ymm + t_evex) 0x44)
    ∷ method "vpcmpeqb" x_x_o (avx3 (t_66 + t_0f + t_ymm) 0x74)
    ∷ method "vpcmpeqd" x_x_o (avx3 (t_66 + t_0f + t_ymm) 0x76)
    ∷ method "vpcmpeqq" x_x_o (avx3 (t_66 + t_0f38 + t_ymm) 0x29)
    ∷ method "vpcmpeqw" x_x_o (avx3 (t_66 + t_0f + t_ymm) 0x75)
    ∷ method "vpcmpestri" x_o_i (avx2_imm (t_66 + t_0f3a) 0x61)
    ∷ method "vpcmpestrm" x_o_i (avx2_imm (t_66 + t_0f3a) 0x60)
    ∷ method "vpcmpgtb" x_x_o (avx3 (t_66 + t_0f + t_ymm) 0x64)
    ∷ method "vpcmpgtd" x_x_o (avx3 (t_66 + t_0f + t_ymm) 0x66)
    ∷ method "vpcmpgtq" x_x_o (avx3 (t_66 + t_0f38 + t_ymm) 0x37)
    ∷ method "vpcmpgtw" x_x_o (avx3 (t_66 + t_0f + t_ymm) 0x65)
    ∷ method "vpcmpistri" x_o_i (avx2_imm (t_66 + t_0f3a) 0x63)
    ∷ method "vpcmpistrm" x_o_i (avx2_imm (t_66 + t_0f3a) 0x62)
    ∷ method "vpdpbusd" x_x_o_e
        (encoding (t_66 + t_0f38 + t_w0 + t_ymm + t_sae_z + t_b32) 0x50 0 t_evex false)
    ∷ method "vpdpbusds" x_x_o_e
        (encoding (t_66 + t_0f38 + t_w0 + t_ymm + t_sae_z + t_b32) 0x51 0 t_evex false)
    ∷ method "vpdpwssd" x_x_o_e
        (encoding (t_66 + t_0f38 + t_w0 + t_ymm + t_sae_z + t_b32) 0x52 0 t_evex false)
    ∷ method "vpdpwssds" x_x_o_e
        (encoding (t_66 + t_0f38 + t_w0 + t_ymm + t_sae_z + t_b32) 0x53 0 t_evex false)
    ∷ []

-- vpermd to vpermq
unfoldable pub from_vpermd : List Method
from_vpermd =
    method "vpermd" y_y_o (avx3 (t_66 + t_0f38 + t_w0 + t_ymm + t_evex + t_b32) 0x36)
    ∷ method "vpermilpd" x_x_o (avx3 (t_66 + t_0f38 + t_w0 + t_ew1 + t_ymm + t_evex + t_b64) 0x0D)
    ∷ method "vpermilpd" x_o_i (avx2_imm (t_66 + t_0f3a + t_ew1 + t_ymm + t_evex + t_b64) 0x05)
    ∷ method "vpermilps" x_x_o (avx3 (t_66 + t_0f38 + t_w0 + t_ymm + t_evex + t_b32) 0x0C)
    ∷ method "vpermilps" x_o_i (avx2_imm (t_66 + t_0f3a + t_w0 + t_ymm + t_evex + t_b32) 0x04)
    ∷ method "vpermpd" y_o_i (avx2_imm (t_66 + t_0f3a + t_w1 + t_ew1 + t_ymm + t_evex + t_b64) 0x01)
    ∷ method "vpermpd" y_y_o (avx3 (t_66 + t_0f38 + t_ew1 + t_ymm + t_must_evex + t_b64) 0x16)
    ∷ method "vpermps" y_y_o (avx3 (t_66 + t_0f38 + t_w0 + t_ymm + t_evex + t_b32) 0x16)
    ∷ method "vpermq" y_o_i (avx2_imm (t_66 + t_0f3a + t_w1 + t_ew1 + t_ymm + t_evex + t_b64) 0x00)
    ∷ method "vpermq" y_y_o (avx3 (t_66 + t_0f38 + t_ew1 + t_ymm + t_evex + t_b64) 0x36)
    ∷ []
