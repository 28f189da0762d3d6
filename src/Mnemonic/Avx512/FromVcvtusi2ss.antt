-- ===== src/Mnemonic/Avx512/FromVcvtusi2ss.antt =====
-- xbyak/xbyak_mnemonic.h: the instructions of AVX-512, from vcvtusi2ss to vfnmsub231sh.
use xbyak.Prelude.{List, [], ◌∷◌, ◌+◌}
use xbyak.Flags.{
  t_0f, t_0f38, t_0f3a, t_66, t_b16, t_b32, t_b64, t_er_r, t_er_x, t_er_z, t_ew1, t_f2, t_f3, t_m_k,
  t_map5, t_map6, t_must_evex, t_n16, t_n2, t_n32, t_n4, t_n8, t_sae_z, t_w0, t_w1, t_ymm,
}
use xbyak.Operand.Kind
use xbyak.Mnemonic.{Method, method, avx2, avx3, avx3_imm, cvt3, extract}
use xbyak.Mnemonic.Signature.{o_y_i, o_z_i, x_o, x_o_oo, x_x_o, x_x_o_i, z_o}

-- vcvtusi2ss to vfnmsub231sh
unfoldable pub from_vcvtusi2ss : List Method
from_vcvtusi2ss =
    method "vcvtusi2ss" x_x_o
      (cvt3 (t_f3 + t_0f + t_must_evex + t_er_r) (t_w1 + t_ew1 + t_n8) (t_w0 + t_n4) 0x7B)
    ∷ method "vcvtuw2ph" x_o
        (avx2 (t_f2 + t_map5 + t_w0 + t_ymm + t_er_z + t_must_evex + t_b16) 0x7D)
    ∷ method "vcvtw2ph" x_o
        (avx2 (t_f3 + t_map5 + t_w0 + t_ymm + t_er_z + t_must_evex + t_b16) 0x7D)
    ∷ method "vdbpsadbw" x_x_o_i (avx3_imm (t_66 + t_0f3a + t_w0 + t_ymm + t_must_evex) 0x42)
    ∷ method "vdivbf16" x_x_o (avx3 (t_66 + t_map5 + t_w0 + t_ymm + t_must_evex + t_b16) 0x5E)
    ∷ method "vdivph" x_o_oo (avx3 (t_map5 + t_w0 + t_ymm + t_must_evex + t_er_z + t_b16) 0x5E)
    ∷ method "vdivsh" x_o_oo (avx3 (t_map5 + t_f3 + t_w0 + t_must_evex + t_er_x + t_n2) 0x5E)
    ∷ method "vdpbf16ps" x_x_o
        (avx3 (t_f3 + t_0f38 + t_w0 + t_ymm + t_sae_z + t_must_evex + t_b32) 0x52)
    ∷ method "vdpphps" x_x_o (avx3 (t_0f38 + t_w0 + t_ymm + t_sae_z + t_must_evex + t_b32) 0x52)
    ∷ method "vexp2pd" z_o
        (avx2 (t_66 + t_0f38 + t_must_evex + t_ymm + t_ew1 + t_b64 + t_sae_z) 0xC8)
    ∷ method "vexp2ps" z_o
        (avx2 (t_66 + t_0f38 + t_must_evex + t_ymm + t_w0 + t_b32 + t_sae_z) 0xC8)
    ∷ method "vexpandpd" x_o (avx2 (t_n8 + t_66 + t_0f38 + t_ew1 + t_ymm + t_must_evex) 0x88)
    ∷ method "vexpandps" x_o (avx2 (t_n4 + t_66 + t_0f38 + t_w0 + t_ymm + t_must_evex) 0x88)
    ∷ method "vextractf32x4" o_y_i
        (extract Kind.xmm (t_n16 + t_66 + t_0f3a + t_w0 + t_ymm + t_must_evex + t_m_k) 0x19)
    ∷ method "vextractf32x8" o_z_i
        (extract Kind.ymm (t_n32 + t_66 + t_0f3a + t_w0 + t_ymm + t_must_evex + t_m_k) 0x1B)
    ∷ method "vextractf64x2" o_y_i
        (extract Kind.xmm (t_n16 + t_66 + t_0f3a + t_ew1 + t_ymm + t_must_evex + t_m_k) 0x19)
    ∷ method "vextractf64x4" o_z_i
        (extract Kind.ymm (t_n32 + t_66 + t_0f3a + t_ew1 + t_ymm + t_must_evex + t_m_k) 0x1B)
    ∷ method "vextracti32x4" o_y_i
        (extract Kind.xmm (t_n16 + t_66 + t_0f3a + t_w0 + t_ymm + t_must_evex + t_m_k) 0x39)
    ∷ method "vextracti32x8" o_z_i
        (extract Kind.ymm (t_n32 + t_66 + t_0f3a + t_w0 + t_ymm + t_must_evex + t_m_k) 0x3B)
    ∷ method "vextracti64x2" o_y_i
        (extract Kind.xmm (t_n16 + t_66 + t_0f3a + t_ew1 + t_ymm + t_must_evex + t_m_k) 0x39)
    ∷ method "vextracti64x4" o_z_i
        (extract Kind.ymm (t_n32 + t_66 + t_0f3a + t_ew1 + t_ymm + t_must_evex + t_m_k) 0x3B)
    ∷ method "vfcmaddcph" x_x_o
        (avx3 (t_f2 + t_map6 + t_w0 + t_ymm + t_er_z + t_must_evex + t_b32) 0x56)
    ∷ method "vfcmulcph" x_x_o
        (avx3 (t_f2 + t_map6 + t_w0 + t_ymm + t_er_z + t_must_evex + t_b32) 0xD6)
    ∷ method "vfixupimmpd" x_x_o_i
        (avx3_imm (t_66 + t_0f3a + t_ew1 + t_ymm + t_sae_z + t_must_evex + t_b64) 0x54)
    ∷ method "vfixupimmps" x_x_o_i
        (avx3_imm (t_66 + t_0f3a + t_w0 + t_ymm + t_sae_z + t_must_evex + t_b32) 0x54)
    ∷ method "vfixupimmsd" x_x_o_i
        (avx3_imm (t_n8 + t_66 + t_0f3a + t_ew1 + t_sae_z + t_must_evex) 0x55)
    ∷ method "vfixupimmss" x_x_o_i
        (avx3_imm (t_n4 + t_66 + t_0f3a + t_w0 + t_sae_z + t_must_evex) 0x55)
    ∷ method "vfmadd132bf16" x_x_o (avx3 (t_map6 + t_w0 + t_ymm + t_must_evex + t_b16) 0x98)
    ∷ method "vfmadd132ph" x_x_o
        (avx3 (t_66 + t_map6 + t_w0 + t_ymm + t_er_z + t_must_evex + t_b16) 0x98)
    ∷ method "vfmadd132sh" x_x_o (avx3 (t_n2 + t_66 + t_map6 + t_w0 + t_er_x + t_must_evex) 0x99)
    ∷ method "vfmadd213bf16" x_x_o (avx3 (t_map6 + t_w0 + t_ymm + t_must_evex + t_b16) 0xA8)
    ∷ method "vfmadd213ph" x_x_o
        (avx3 (t_66 + t_map6 + t_w0 + t_ymm + t_er_z + t_must_evex + t_b16) 0xA8)
    ∷ method "vfmadd213sh" x_x_o (avx3 (t_n2 + t_66 + t_map6 + t_w0 + t_er_x + t_must_evex) 0xA9)
    ∷ method "vfmadd231bf16" x_x_o (avx3 (t_map6 + t_w0 + t_ymm + t_must_evex + t_b16) 0xB8)
    ∷ method "vfmadd231ph" x_x_o
        (avx3 (t_66 + t_map6 + t_w0 + t_ymm + t_er_z + t_must_evex + t_b16) 0xB8)
    ∷ method "vfmadd231sh" x_x_o (avx3 (t_n2 + t_66 + t_map6 + t_w0 + t_er_x + t_must_evex) 0xB9)
    ∷ method "vfmaddcph" x_x_o
        (avx3 (t_f3 + t_map6 + t_w0 + t_ymm + t_er_z + t_must_evex + t_b32) 0x56)
    ∷ method "vfmaddsub132ph" x_x_o
        (avx3 (t_66 + t_map6 + t_w0 + t_ymm + t_er_z + t_must_evex + t_b16) 0x96)
    ∷ method "vfmaddsub213ph" x_x_o
        (avx3 (t_66 + t_map6 + t_w0 + t_ymm + t_er_z + t_must_evex + t_b16) 0xA6)
    ∷ method "vfmaddsub231ph" x_x_o
        (avx3 (t_66 + t_map6 + t_w0 + t_ymm + t_er_z + t_must_evex + t_b16) 0xB6)
    ∷ method "vfmsub132bf16" x_x_o (avx3 (t_map6 + t_w0 + t_ymm + t_must_evex + t_b16) 0x9A)
    ∷ method "vfmsub132ph" x_x_o
        (avx3 (t_66 + t_map6 + t_w0 + t_ymm + t_er_z + t_must_evex + t_b16) 0x9A)
    ∷ method "vfmsub132sh" x_x_o (avx3 (t_n2 + t_66 + t_map6 + t_w0 + t_er_x + t_must_evex) 0x9B)
    ∷ method "vfmsub213bf16" x_x_o (avx3 (t_map6 + t_w0 + t_ymm + t_must_evex + t_b16) 0xAA)
    ∷ method "vfmsub213ph" x_x_o
        (avx3 (t_66 + t_map6 + t_w0 + t_ymm + t_er_z + t_must_evex + t_b16) 0xAA)
    ∷ method "vfmsub213sh" x_x_o (avx3 (t_n2 + t_66 + t_map6 + t_w0 + t_er_x + t_must_evex) 0xAB)
    ∷ method "vfmsub231bf16" x_x_o (avx3 (t_map6 + t_w0 + t_ymm + t_must_evex + t_b16) 0xBA)
    ∷ method "vfmsub231ph" x_x_o
        (avx3 (t_66 + t_map6 + t_w0 + t_ymm + t_er_z + t_must_evex + t_b16) 0xBA)
    ∷ method "vfmsub231sh" x_x_o (avx3 (t_n2 + t_66 + t_map6 + t_w0 + t_er_x + t_must_evex) 0xBB)
    ∷ method "vfmsubadd132ph" x_x_o
        (avx3 (t_66 + t_map6 + t_w0 + t_ymm + t_er_z + t_must_evex + t_b16) 0x97)
    ∷ method "vfmsubadd213ph" x_x_o
        (avx3 (t_66 + t_map6 + t_w0 + t_ymm + t_er_z + t_must_evex + t_b16) 0xA7)
    ∷ method "vfmsubadd231ph" x_x_o
        (avx3 (t_66 + t_map6 + t_w0 + t_ymm + t_er_z + t_must_evex + t_b16) 0xB7)
    ∷ method "vfmulcph" x_x_o
        (avx3 (t_f3 + t_map6 + t_w0 + t_ymm + t_er_z + t_must_evex + t_b32) 0xD6)
    ∷ method "vfnmadd132bf16" x_x_o (avx3 (t_map6 + t_w0 + t_ymm + t_must_evex + t_b16) 0x9C)
    ∷ method "vfnmadd132ph" x_x_o
        (avx3 (t_66 + t_map6 + t_w0 + t_ymm + t_er_z + t_must_evex + t_b16) 0x9C)
    ∷ method "vfnmadd132sh" x_x_o (avx3 (t_n2 + t_66 + t_map6 + t_w0 + t_er_x + t_must_evex) 0x9D)
    ∷ method "vfnmadd213bf16" x_x_o (avx3 (t_map6 + t_w0 + t_ymm + t_must_evex + t_b16) 0xAC)
    ∷ method "vfnmadd213ph" x_x_o
        (avx3 (t_66 + t_map6 + t_w0 + t_ymm + t_er_z + t_must_evex + t_b16) 0xAC)
    ∷ method "vfnmadd213sh" x_x_o (avx3 (t_n2 + t_66 + t_map6 + t_w0 + t_er_x + t_must_evex) 0xAD)
    ∷ method "vfnmadd231bf16" x_x_o (avx3 (t_map6 + t_w0 + t_ymm + t_must_evex + t_b16) 0xBC)
    ∷ method "vfnmadd231ph" x_x_o
        (avx3 (t_66 + t_map6 + t_w0 + t_ymm + t_er_z + t_must_evex + t_b16) 0xBC)
    ∷ method "vfnmadd231sh" x_x_o (avx3 (t_n2 + t_66 + t_map6 + t_w0 + t_er_x + t_must_evex) 0xBD)
    ∷ method "vfnmsub132bf16" x_x_o (avx3 (t_map6 + t_w0 + t_ymm + t_must_evex + t_b16) 0x9E)
    ∷ method "vfnmsub132ph" x_x_o
        (avx3 (t_66 + t_map6 + t_w0 + t_ymm + t_er_z + t_must_evex + t_b16) 0x9E)
    ∷ method "vfnmsub132sh" x_x_o (avx3 (t_n2 + t_66 + t_map6 + t_w0 + t_er_x + t_must_evex) 0x9F)
    ∷ method "vfnmsub213bf16" x_x_o (avx3 (t_map6 + t_w0 + t_ymm + t_must_evex + t_b16) 0xAE)
    ∷ method "vfnmsub213ph" x_x_o
        (avx3 (t_66 + t_map6 + t_w0 + t_ymm + t_er_z + t_must_evex + t_b16) 0xAE)
    ∷ method "vfnmsub213sh" x_x_o (avx3 (t_n2 + t_66 + t_map6 + t_w0 + t_er_x + t_must_evex) 0xAF)
    ∷ method "vfnmsub231bf16" x_x_o (avx3 (t_map6 + t_w0 + t_ymm + t_must_evex + t_b16) 0xBE)
    ∷ method "vfnmsub231ph" x_x_o
        (avx3 (t_66 + t_map6 + t_w0 + t_ymm + t_er_z + t_must_evex + t_b16) 0xBE)
    ∷ method "vfnmsub231sh" x_x_o (avx3 (t_n2 + t_66 + t_map6 + t_w0 + t_er_x + t_must_evex) 0xBF)
    ∷ []
