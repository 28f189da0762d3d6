-- ===== src/Mnemonic/Avx/FromVfmadd132pd.antt =====
-- xbyak/xbyak_mnemonic.h: the instructions of AVX, from vfmadd132pd to vmovlps.
use xbyak.Prelude.{List, [], ◌∷◌, ◌+◌}
use xbyak.Flags.{
  t_0f, t_0f38, t_0f3a, t_66, t_b32, t_b64, t_dup, t_er_x, t_er_z, t_evex, t_ew1, t_f2, t_f3, t_m_k,
  t_n4, t_n8, t_sae_x, t_sae_z, t_vsib, t_w0, t_w1, t_ymm,
}
use xbyak.Format.Cvt.{GatherMode}
use xbyak.Mnemonic.{
  Method, method, avx2, avx2_store, avx3, avx3_imm, avx3_or_mem, avx3_or_xmm, avx3_store, avx_xm0,
  avx_xm0_store, gather,
}
use xbyak.Mnemonic.Signature.{m_x, m_x_x, x_m_x, x_o, x_o_oo, x_x, x_x_m, x_x_o, x_x_o_i, x_x_oo}

-- vfmadd132pd to vhsubps
unfoldable pub from_vfmadd132pd : List Method
from_vfmadd132pd =
    method "vfmadd132pd" x_x_o
      (avx3 (t_66 + t_0f38 + t_w1 + t_ew1 + t_ymm + t_evex + t_er_z + t_b64) 0x98)
    ∷ method "vfmadd132ps" x_x_o
        (avx3 (t_66 + t_0f38 + t_w0 + t_ymm + t_evex + t_er_z + t_b32) 0x98)
    ∷ method "vfmadd132sd" x_x_o (avx3 (t_n8 + t_66 + t_0f38 + t_w1 + t_ew1 + t_evex + t_er_x) 0x99)
    ∷ method "vfmadd132ss" x_x_o (avx3 (t_n4 + t_66 + t_0f38 + t_w0 + t_evex + t_er_x) 0x99)
    ∷ method "vfmadd213pd" x_x_o
        (avx3 (t_66 + t_0f38 + t_w1 + t_ew1 + t_ymm + t_evex + t_er_z + t_b64) 0xA8)
    ∷ method "vfmadd213ps" x_x_o
        (avx3 (t_66 + t_0f38 + t_w0 + t_ymm + t_evex + t_er_z + t_b32) 0xA8)
    ∷ method "vfmadd213sd" x_x_o (avx3 (t_n8 + t_66 + t_0f38 + t_w1 + t_ew1 + t_evex + t_er_x) 0xA9)
    ∷ method "vfmadd213ss" x_x_o (avx3 (t_n4 + t_66 + t_0f38 + t_w0 + t_evex + t_er_x) 0xA9)
    ∷ method "vfmadd231pd" x_x_o
        (avx3 (t_66 + t_0f38 + t_w1 + t_ew1 + t_ymm + t_evex + t_er_z + t_b64) 0xB8)
    ∷ method "vfmadd231ps" x_x_o
        (avx3 (t_66 + t_0f38 + t_w0 + t_ymm + t_evex + t_er_z + t_b32) 0xB8)
    ∷ method "vfmadd231sd" x_x_o (avx3 (t_n8 + t_66 + t_0f38 + t_w1 + t_ew1 + t_evex + t_er_x) 0xB9)
    ∷ method "vfmadd231ss" x_x_o (avx3 (t_n4 + t_66 + t_0f38 + t_w0 + t_evex + t_er_x) 0xB9)
    ∷ method "vfmaddsub132pd" x_x_o
        (avx3 (t_66 + t_0f38 + t_w1 + t_ew1 + t_ymm + t_evex + t_er_z + t_b64) 0x96)
    ∷ method "vfmaddsub132ps" x_x_o
        (avx3 (t_66 + t_0f38 + t_w0 + t_ymm + t_evex + t_er_z + t_b32) 0x96)
    ∷ method "vfmaddsub213pd" x_x_o
        (avx3 (t_66 + t_0f38 + t_w1 + t_ew1 + t_ymm + t_evex + t_er_z + t_b64) 0xA6)
    ∷ method "vfmaddsub213ps" x_x_o
        (avx3 (t_66 + t_0f38 + t_w0 + t_ymm + t_evex + t_er_z + t_b32) 0xA6)
    ∷ method "vfmaddsub231pd" x_x_o
        (avx3 (t_66 + t_0f38 + t_w1 + t_ew1 + t_ymm + t_evex + t_er_z + t_b64) 0xB6)
    ∷ method "vfmaddsub231ps" x_x_o
        (avx3 (t_66 + t_0f38 + t_w0 + t_ymm + t_evex + t_er_z + t_b32) 0xB6)
    ∷ method "vfmsub132pd" x_x_o
        (avx3 (t_66 + t_0f38 + t_w1 + t_ew1 + t_ymm + t_evex + t_er_z + t_b64) 0x9A)
    ∷ method "vfmsub132ps" x_x_o
        (avx3 (t_66 + t_0f38 + t_w0 + t_ymm + t_evex + t_er_z + t_b32) 0x9A)
    ∷ method "vfmsub132sd" x_x_o (avx3 (t_n8 + t_66 + t_0f38 + t_w1 + t_ew1 + t_evex + t_er_x) 0x9B)
    ∷ method "vfmsub132ss" x_x_o (avx3 (t_n4 + t_66 + t_0f38 + t_w0 + t_evex + t_er_x) 0x9B)
    ∷ method "vfmsub213pd" x_x_o
        (avx3 (t_66 + t_0f38 + t_w1 + t_ew1 + t_ymm + t_evex + t_er_z + t_b64) 0xAA)
    ∷ method "vfmsub213ps" x_x_o
        (avx3 (t_66 + t_0f38 + t_w0 + t_ymm + t_evex + t_er_z + t_b32) 0xAA)
    ∷ method "vfmsub213sd" x_x_o (avx3 (t_n8 + t_66 + t_0f38 + t_w1 + t_ew1 + t_evex + t_er_x) 0xAB)
    ∷ method "vfmsub213ss" x_x_o (avx3 (t_n4 + t_66 + t_0f38 + t_w0 + t_evex + t_er_x) 0xAB)
    ∷ method "vfmsub231pd" x_x_o
        (avx3 (t_66 + t_0f38 + t_w1 + t_ew1 + t_ymm + t_evex + t_er_z + t_b64) 0xBA)
    ∷ method "vfmsub231ps" x_x_o
        (avx3 (t_66 + t_0f38 + t_w0 + t_ymm + t_evex + t_er_z + t_b32) 0xBA)
    ∷ method "vfmsub231sd" x_x_o (avx3 (t_n8 + t_66 + t_0f38 + t_w1 + t_ew1 + t_evex + t_er_x) 0xBB)
    ∷ method "vfmsub231ss" x_x_o (avx3 (t_n4 + t_66 + t_0f38 + t_w0 + t_evex + t_er_x) 0xBB)
    ∷ method "vfmsubadd132pd" x_x_o
        (avx3 (t_66 + t_0f38 + t_w1 + t_ew1 + t_ymm + t_evex + t_er_z + t_b64) 0x97)
    ∷ method "vfmsubadd132ps" x_x_o
        (avx3 (t_66 + t_0f38 + t_w0 + t_ymm + t_evex + t_er_z + t_b32) 0x97)
    ∷ method "vfmsubadd213pd" x_x_o
        (avx3 (t_66 + t_0f38 + t_w1 + t_ew1 + t_ymm + t_evex + t_er_z + t_b64) 0xA7)
    ∷ method "vfmsubadd213ps" x_x_o
        (avx3 (t_66 + t_0f38 + t_w0 + t_ymm + t_evex + t_er_z + t_b32) 0xA7)
    ∷ method "vfmsubadd231pd" x_x_o
        (avx3 (t_66 + t_0f38 + t_w1 + t_ew1 + t_ymm + t_evex + t_er_z + t_b64) 0xB7)
    ∷ method "vfmsubadd231ps" x_x_o
        (avx3 (t_66 + t_0f38 + t_w0 + t_ymm + t_evex + t_er_z + t_b32) 0xB7)
    ∷ method "vfnmadd132pd" x_x_o
        (avx3 (t_66 + t_0f38 + t_w1 + t_ew1 + t_ymm + t_evex + t_er_z + t_b64) 0x9C)
    ∷ method "vfnmadd132ps" x_x_o
        (avx3 (t_66 + t_0f38 + t_w0 + t_ymm + t_evex + t_er_z + t_b32) 0x9C)
    ∷ method "vfnmadd132sd" x_x_o
        (avx3 (t_n8 + t_66 + t_0f38 + t_w1 + t_ew1 + t_evex + t_er_x) 0x9D)
    ∷ method "vfnmadd132ss" x_x_o (avx3 (t_n4 + t_66 + t_0f38 + t_w0 + t_evex + t_er_x) 0x9D)
    ∷ method "vfnmadd213pd" x_x_o
        (avx3 (t_66 + t_0f38 + t_w1 + t_ew1 + t_ymm + t_evex + t_er_z + t_b64) 0xAC)
    ∷ method "vfnmadd213ps" x_x_o
        (avx3 (t_66 + t_0f38 + t_w0 + t_ymm + t_evex + t_er_z + t_b32) 0xAC)
    ∷ method "vfnmadd213sd" x_x_o
        (avx3 (t_n8 + t_66 + t_0f38 + t_w1 + t_ew1 + t_evex + t_er_x) 0xAD)
    ∷ method "vfnmadd213ss" x_x_o (avx3 (t_n4 + t_66 + t_0f38 + t_w0 + t_evex + t_er_x) 0xAD)
    ∷ method "vfnmadd231pd" x_x_o
        (avx3 (t_66 + t_0f38 + t_w1 + t_ew1 + t_ymm + t_evex + t_er_z + t_b64) 0xBC)
    ∷ method "vfnmadd231ps" x_x_o
        (avx3 (t_66 + t_0f38 + t_w0 + t_ymm + t_evex + t_er_z + t_b32) 0xBC)
    ∷ method "vfnmadd231sd" x_x_o
        (avx3 (t_n8 + t_66 + t_0f38 + t_w1 + t_ew1 + t_evex + t_er_x) 0xBD)
    ∷ method "vfnmadd231ss" x_x_o (avx3 (t_n4 + t_66 + t_0f38 + t_w0 + t_evex + t_er_x) 0xBD)
    ∷ method "vfnmsub132pd" x_x_o
        (avx3 (t_66 + t_0f38 + t_w1 + t_ew1 + t_ymm + t_evex + t_er_z + t_b64) 0x9E)
    ∷ method "vfnmsub132ps" x_x_o
        (avx3 (t_66 + t_0f38 + t_w0 + t_ymm + t_evex + t_er_z + t_b32) 0x9E)
    ∷ method "vfnmsub132sd" x_x_o
        (avx3 (t_n8 + t_66 + t_0f38 + t_w1 + t_ew1 + t_evex + t_er_x) 0x9F)
    ∷ method "vfnmsub132ss" x_x_o (avx3 (t_n4 + t_66 + t_0f38 + t_w0 + t_evex + t_er_x) 0x9F)
    ∷ method "vfnmsub213pd" x_x_o
        (avx3 (t_66 + t_0f38 + t_w1 + t_ew1 + t_ymm + t_evex + t_er_z + t_b64) 0xAE)
    ∷ method "vfnmsub213ps" x_x_o
        (avx3 (t_66 + t_0f38 + t_w0 + t_ymm + t_evex + t_er_z + t_b32) 0xAE)
    ∷ method "vfnmsub213sd" x_x_o
        (avx3 (t_n8 + t_66 + t_0f38 + t_w1 + t_ew1 + t_evex + t_er_x) 0xAF)
    ∷ method "vfnmsub213ss" x_x_o (avx3 (t_n4 + t_66 + t_0f38 + t_w0 + t_evex + t_er_x) 0xAF)
    ∷ method "vfnmsub231pd" x_x_o
        (avx3 (t_66 + t_0f38 + t_w1 + t_ew1 + t_ymm + t_evex + t_er_z + t_b64) 0xBE)
    ∷ method "vfnmsub231ps" x_x_o
        (avx3 (t_66 + t_0f38 + t_w0 + t_ymm + t_evex + t_er_z + t_b32) 0xBE)
    ∷ method "vfnmsub231sd" x_x_o
        (avx3 (t_n8 + t_66 + t_0f38 + t_w1 + t_ew1 + t_evex + t_er_x) 0xBF)
    ∷ method "vfnmsub231ss" x_x_o (avx3 (t_n4 + t_66 + t_0f38 + t_w0 + t_evex + t_er_x) 0xBF)
    ∷ method "vgatherdpd" x_m_x
        (gather (t_0f38 + t_66 + t_ymm + t_vsib + t_w1) 0x92 GatherMode.y_vx_y)
    ∷ method "vgatherdps" x_m_x
        (gather (t_0f38 + t_66 + t_ymm + t_vsib + t_w0) 0x92 GatherMode.y_vy_y)
    ∷ method "vgatherqpd" x_m_x
        (gather (t_0f38 + t_66 + t_ymm + t_vsib + t_w1) 0x93 GatherMode.y_vy_y)
    ∷ method "vgatherqps" x_m_x
        (gather (t_0f38 + t_66 + t_ymm + t_vsib + t_w0) 0x93 GatherMode.x_vy_x)
    ∷ method "vgf2p8affineinvqb" x_x_o_i
        (avx3_imm (t_66 + t_0f3a + t_w1 + t_ew1 + t_ymm + t_evex + t_sae_z + t_b64) 0xCF)
    ∷ method "vgf2p8affineqb" x_x_o_i
        (avx3_imm (t_66 + t_0f3a + t_w1 + t_ew1 + t_ymm + t_evex + t_sae_z + t_b64) 0xCE)
    ∷ method "vgf2p8mulb" x_x_o (avx3 (t_66 + t_0f38 + t_w0 + t_ymm + t_evex + t_sae_z) 0xCF)
    ∷ method "vhaddpd" x_o_oo (avx3 (t_66 + t_0f + t_ymm) 0x7C)
    ∷ method "vhaddps" x_o_oo (avx3 (t_f2 + t_0f + t_ymm) 0x7C)
    ∷ method "vhsubpd" x_o_oo (avx3 (t_66 + t_0f + t_ymm) 0x7D)
    ∷ method "vhsubps" x_o_oo (avx3 (t_f2 + t_0f + t_ymm) 0x7D)
    ∷ []

-- vinsertps
unfoldable pub from_vinsertps : List Method
from_vinsertps =
    method "vinsertps" x_x_o_i (avx3_imm (t_n4 + t_66 + t_0f3a + t_w0 + t_evex) 0x21) ∷ []

-- vmaskmovdqu to vmovlps
unfoldable pub from_vmaskmovdqu : List Method
from_vmaskmovdqu =
    method "vmaskmovdqu" x_x (avx_xm0 (t_0f + t_66) 0xF7)
    ∷ method "vmaskmovpd" m_x_x (avx3_store (t_0f38 + t_66 + t_w0 + t_ymm) 0x2F)
    ∷ method "vmaskmovpd" x_x_m (avx3 (t_0f38 + t_66 + t_w0 + t_ymm) 0x2D)
    ∷ method "vmaskmovps" m_x_x (avx3_store (t_0f38 + t_66 + t_w0 + t_ymm) 0x2E)
    ∷ method "vmaskmovps" x_x_m (avx3 (t_0f38 + t_66 + t_w0 + t_ymm) 0x2C)
    ∷ method "vmaxpd" x_o_oo (avx3 (t_0f + t_66 + t_ew1 + t_ymm + t_evex + t_sae_z + t_b64) 0x5F)
    ∷ method "vmaxps" x_o_oo (avx3 (t_0f + t_w0 + t_ymm + t_evex + t_sae_z + t_b32) 0x5F)
    ∷ method "vmaxsd" x_o_oo (avx3 (t_0f + t_f2 + t_ew1 + t_evex + t_sae_x + t_n8) 0x5F)
    ∷ method "vmaxss" x_o_oo (avx3 (t_0f + t_f3 + t_w0 + t_evex + t_sae_x + t_n4) 0x5F)
    ∷ method "vminpd" x_o_oo (avx3 (t_0f + t_66 + t_ew1 + t_ymm + t_evex + t_sae_z + t_b64) 0x5D)
    ∷ method "vminps" x_o_oo (avx3 (t_0f + t_w0 + t_ymm + t_evex + t_sae_z + t_b32) 0x5D)
    ∷ method "vminsd" x_o_oo (avx3 (t_0f + t_f2 + t_ew1 + t_evex + t_sae_x + t_n8) 0x5D)
    ∷ method "vminss" x_o_oo (avx3 (t_0f + t_f3 + t_w0 + t_evex + t_sae_x + t_n4) 0x5D)
    ∷ method "vmovapd" m_x (avx2_store (t_66 + t_0f + t_ew1 + t_ymm + t_evex + t_m_k) 0x29)
    ∷ method "vmovapd" x_o (avx2 (t_66 + t_0f + t_ew1 + t_ymm + t_evex) 0x28)
    ∷ method "vmovaps" m_x (avx2_store (t_0f + t_w0 + t_ymm + t_evex + t_m_k) 0x29)
    ∷ method "vmovaps" x_o (avx2 (t_0f + t_w0 + t_ymm + t_evex) 0x28)
    ∷ method "vmovddup" x_o (avx2 (t_dup + t_f2 + t_0f + t_ew1 + t_ymm + t_evex) 0x12)
    ∷ method "vmovdqa" m_x (avx2_store (t_66 + t_0f + t_ymm) 0x7F)
    ∷ method "vmovdqa" x_o (avx2 (t_66 + t_0f + t_ymm) 0x6F)
    ∷ method "vmovdqu" m_x (avx2_store (t_f3 + t_0f + t_ymm) 0x7F)
    ∷ method "vmovdqu" x_o (avx2 (t_f3 + t_0f + t_ymm) 0x6F)
    ∷ method "vmovhlps" x_x_oo (avx3_or_xmm (t_0f + t_evex + t_w0) 0x12)
    ∷ method "vmovhpd" m_x (avx_xm0_store (t_n8 + t_66 + t_0f + t_ew1 + t_evex) 0x17)
    ∷ method "vmovhpd" x_o_oo (avx3_or_mem (t_n8 + t_66 + t_0f + t_ew1 + t_evex) 0x16)
    ∷ method "vmovhps" m_x (avx_xm0_store (t_n8 + t_0f + t_w0 + t_evex) 0x17)
    ∷ method "vmovhps" x_o_oo (avx3_or_mem (t_n8 + t_0f + t_w0 + t_evex) 0x16)
    ∷ method "vmovlhps" x_x_oo (avx3_or_xmm (t_0f + t_evex + t_w0) 0x16)
    ∷ method "vmovlpd" m_x (avx_xm0_store (t_n8 + t_66 + t_0f + t_ew1 + t_evex) 0x13)
    ∷ method "vmovlpd" x_o_oo (avx3_or_mem (t_n8 + t_66 + t_0f + t_ew1 + t_evex) 0x12)
    ∷ method "vmovlps" m_x (avx_xm0_store (t_n8 + t_0f + t_w0 + t_evex) 0x13)
    ∷ method "vmovlps" x_o_oo (avx3_or_mem (t_n8 + t_0f + t_w0 + t_evex) 0x12)
    ∷ []
