-- ===== src/Mnemonic/Avx/FromVpmovsxbd.antt =====
-- xbyak/xbyak_mnemonic.h: the instructions of AVX, from vpmovsxbd to vxorps.
use xbyak.Prelude.{List, [], ◌∷◌, ◌+◌}
use xbyak.Flags.{
  t_0f, t_0f38, t_0f3a, t_66, t_b32, t_b64, t_er_x, t_er_z, t_evex, t_ew1, t_f2, t_f3, t_mem_evex,
  t_n16, t_n2, t_n4, t_n8, t_n_vl, t_sae_x, t_w0, t_w1, t_ymm,
}
use xbyak.Mnemonic.{Method, method, avx2, avx2_imm, avx3, avx3_imm, avx_ext}
use xbyak.Mnemonic.Signature.{x_o, x_o_i, x_o_oo, x_x_o, x_x_o_i}

-- vpmovsxbd to vrsqrtss
unfoldable pub from_vpmovsxbd : List Method
from_vpmovsxbd =
    method "vpmovsxbd" x_o (avx2 (t_n4 + t_n_vl + t_66 + t_0f38 + t_ymm + t_evex) 0x21)
    ∷ method "vpmovsxbq" x_o (avx2 (t_n2 + t_n_vl + t_66 + t_0f38 + t_ymm + t_evex) 0x22)
    ∷ method "vpmovsxbw" x_o (avx2 (t_n8 + t_n_vl + t_66 + t_0f38 + t_ymm + t_evex) 0x20)
    ∷ method "vpmovsxdq" x_o (avx2 (t_n8 + t_n_vl + t_66 + t_0f38 + t_w0 + t_ymm + t_evex) 0x25)
    ∷ method "vpmovsxwd" x_o (avx2 (t_n8 + t_n_vl + t_66 + t_0f38 + t_ymm + t_evex) 0x23)
    ∷ method "vpmovsxwq" x_o (avx2 (t_n4 + t_n_vl + t_66 + t_0f38 + t_ymm + t_evex) 0x24)
    ∷ method "vpmovzxbd" x_o (avx2 (t_n4 + t_n_vl + t_66 + t_0f38 + t_ymm + t_evex) 0x31)
    ∷ method "vpmovzxbq" x_o (avx2 (t_n2 + t_n_vl + t_66 + t_0f38 + t_ymm + t_evex) 0x32)
    ∷ method "vpmovzxbw" x_o (avx2 (t_n8 + t_n_vl + t_66 + t_0f38 + t_ymm + t_evex) 0x30)
    ∷ method "vpmovzxdq" x_o (avx2 (t_n8 + t_n_vl + t_66 + t_0f38 + t_w0 + t_ymm + t_evex) 0x35)
    ∷ method "vpmovzxwd" x_o (avx2 (t_n8 + t_n_vl + t_66 + t_0f38 + t_ymm + t_evex) 0x33)
    ∷ method "vpmovzxwq" x_o (avx2 (t_n4 + t_n_vl + t_66 + t_0f38 + t_ymm + t_evex) 0x34)
    ∷ method "vpmuldq" x_x_o (avx3 (t_66 + t_0f38 + t_ew1 + t_ymm + t_evex + t_b64) 0x28)
    ∷ method "vpmulhrsw" x_x_o (avx3 (t_66 + t_0f38 + t_ymm + t_evex) 0x0B)
    ∷ method "vpmulhuw" x_x_o (avx3 (t_66 + t_0f + t_ymm + t_evex) 0xE4)
    ∷ method "vpmulhw" x_x_o (avx3 (t_66 + t_0f + t_ymm + t_evex) 0xE5)
    ∷ method "vpmulld" x_x_o (avx3 (t_66 + t_0f38 + t_w0 + t_ymm + t_evex + t_b32) 0x40)
    ∷ method "vpmullw" x_x_o (avx3 (t_66 + t_0f + t_ymm + t_evex) 0xD5)
    ∷ method "vpmuludq" x_x_o (avx3 (t_66 + t_0f + t_ew1 + t_ymm + t_evex + t_b64) 0xF4)
    ∷ method "vpor" x_x_o (avx3 (t_66 + t_0f + t_ymm) 0xEB)
    ∷ method "vpsadbw" x_x_o (avx3 (t_66 + t_0f + t_ymm + t_evex) 0xF6)
    ∷ method "vpshufb" x_x_o (avx3 (t_66 + t_0f38 + t_ymm + t_evex) 0x00)
    ∷ method "vpshufd" x_o_i (avx2_imm (t_66 + t_0f + t_w0 + t_ymm + t_evex + t_b32) 0x70)
    ∷ method "vpshufhw" x_o_i (avx2_imm (t_f3 + t_0f + t_ymm + t_evex) 0x70)
    ∷ method "vpshuflw" x_o_i (avx2_imm (t_f2 + t_0f + t_ymm + t_evex) 0x70)
    ∷ method "vpsignb" x_x_o (avx3 (t_66 + t_0f38 + t_ymm) 0x08)
    ∷ method "vpsignd" x_x_o (avx3 (t_66 + t_0f38 + t_ymm) 0x0A)
    ∷ method "vpsignw" x_x_o (avx3 (t_66 + t_0f38 + t_ymm) 0x09)
    ∷ method "vpslld" x_o_i
        (avx_ext 6 (t_66 + t_0f + t_w0 + t_ymm + t_evex + t_b32 + t_mem_evex) 0x72)
    ∷ method "vpslld" x_x_o (avx3 (t_n16 + t_66 + t_0f + t_w0 + t_ymm + t_evex) 0xF2)
    ∷ method "vpslldq" x_o_i (avx_ext 7 (t_66 + t_0f + t_ymm + t_evex + t_mem_evex) 0x73)
    ∷ method "vpsllq" x_o_i
        (avx_ext 6 (t_66 + t_0f + t_ew1 + t_ymm + t_evex + t_b64 + t_mem_evex) 0x73)
    ∷ method "vpsllq" x_x_o (avx3 (t_n16 + t_66 + t_0f + t_ew1 + t_ymm + t_evex) 0xF3)
    ∷ method "vpsllvd" x_x_o (avx3 (t_66 + t_0f38 + t_w0 + t_ymm + t_evex + t_b32) 0x47)
    ∷ method "vpsllvq" x_x_o (avx3 (t_66 + t_0f38 + t_w1 + t_ew1 + t_ymm + t_evex + t_b64) 0x47)
    ∷ method "vpsllw" x_o_i (avx_ext 6 (t_66 + t_0f + t_ymm + t_evex + t_mem_evex) 0x71)
    ∷ method "vpsllw" x_x_o (avx3 (t_n16 + t_66 + t_0f + t_ymm + t_evex) 0xF1)
    ∷ method "vpsrad" x_o_i
        (avx_ext 4 (t_66 + t_0f + t_w0 + t_ymm + t_evex + t_b32 + t_mem_evex) 0x72)
    ∷ method "vpsrad" x_x_o (avx3 (t_n16 + t_66 + t_0f + t_w0 + t_ymm + t_evex) 0xE2)
    ∷ method "vpsravd" x_x_o (avx3 (t_66 + t_0f38 + t_w0 + t_ymm + t_evex + t_b32) 0x46)
    ∷ method "vpsraw" x_o_i (avx_ext 4 (t_66 + t_0f + t_ymm + t_evex + t_mem_evex) 0x71)
    ∷ method "vpsraw" x_x_o (avx3 (t_n16 + t_66 + t_0f + t_ymm + t_evex) 0xE1)
    ∷ method "vpsrld" x_o_i
        (avx_ext 2 (t_66 + t_0f + t_w0 + t_ymm + t_evex + t_b32 + t_mem_evex) 0x72)
    ∷ method "vpsrld" x_x_o (avx3 (t_n16 + t_66 + t_0f + t_w0 + t_ymm + t_evex) 0xD2)
    ∷ method "vpsrldq" x_o_i (avx_ext 3 (t_66 + t_0f + t_ymm + t_evex + t_mem_evex) 0x73)
    ∷ method "vpsrlq" x_o_i
        (avx_ext 2 (t_66 + t_0f + t_ew1 + t_ymm + t_evex + t_b64 + t_mem_evex) 0x73)
    ∷ method "vpsrlq" x_x_o (avx3 (t_n16 + t_66 + t_0f + t_ew1 + t_ymm + t_evex) 0xD3)
    ∷ method "vpsrlvd" x_x_o (avx3 (t_66 + t_0f38 + t_w0 + t_ymm + t_evex + t_b32) 0x45)
    ∷ method "vpsrlvq" x_x_o (avx3 (t_66 + t_0f38 + t_w1 + t_ew1 + t_ymm + t_evex + t_b64) 0x45)
    ∷ method "vpsrlw" x_o_i (avx_ext 2 (t_66 + t_0f + t_ymm + t_evex + t_mem_evex) 0x71)
    ∷ method "vpsrlw" x_x_o (avx3 (t_n16 + t_66 + t_0f + t_ymm + t_evex) 0xD1)
    ∷ method "vpsubb" x_x_o (avx3 (t_66 + t_0f + t_ymm + t_evex) 0xF8)
    ∷ method "vpsubd" x_x_o (avx3 (t_66 + t_0f + t_w0 + t_ymm + t_evex + t_b32) 0xFA)
    ∷ method "vpsubq" x_x_o (avx3 (t_66 + t_0f + t_ew1 + t_ymm + t_evex + t_b64) 0xFB)
    ∷ method "vpsubsb" x_x_o (avx3 (t_66 + t_0f + t_ymm + t_evex) 0xE8)
    ∷ method "vpsubsw" x_x_o (avx3 (t_66 + t_0f + t_ymm + t_evex) 0xE9)
    ∷ method "vpsubusb" x_x_o (avx3 (t_66 + t_0f + t_ymm + t_evex) 0xD8)
    ∷ method "vpsubusw" x_x_o (avx3 (t_66 + t_0f + t_ymm + t_evex) 0xD9)
    ∷ method "vpsubw" x_x_o (avx3 (t_66 + t_0f + t_ymm + t_evex) 0xF9)
    ∷ method "vptest" x_o (avx2 (t_66 + t_0f38 + t_ymm) 0x17)
    ∷ method "vpunpckhbw" x_x_o (avx3 (t_66 + t_0f + t_ymm + t_evex) 0x68)
    ∷ method "vpunpckhdq" x_x_o (avx3 (t_66 + t_0f + t_w0 + t_ymm + t_evex + t_b32) 0x6A)
    ∷ method "vpunpckhqdq" x_x_o (avx3 (t_66 + t_0f + t_ew1 + t_ymm + t_evex + t_b64) 0x6D)
    ∷ method "vpunpckhwd" x_x_o (avx3 (t_66 + t_0f + t_ymm + t_evex) 0x69)
    ∷ method "vpunpcklbw" x_x_o (avx3 (t_66 + t_0f + t_ymm + t_evex) 0x60)
    ∷ method "vpunpckldq" x_x_o (avx3 (t_66 + t_0f + t_w0 + t_ymm + t_evex + t_b32) 0x62)
    ∷ method "vpunpcklqdq" x_x_o (avx3 (t_66 + t_0f + t_ew1 + t_ymm + t_evex + t_b64) 0x6C)
    ∷ method "vpunpcklwd" x_x_o (avx3 (t_66 + t_0f + t_ymm + t_evex) 0x61)
    ∷ method "vpxor" x_x_o (avx3 (t_66 + t_0f + t_ymm) 0xEF)
    ∷ method "vrcpps" x_o (avx2 (t_0f + t_ymm) 0x53)
    ∷ method "vrcpss" x_x_o (avx3 (t_f3 + t_0f) 0x53)
    ∷ method "vroundpd" x_o_i (avx2_imm (t_66 + t_0f3a + t_ymm) 0x09)
    ∷ method "vroundps" x_o_i (avx2_imm (t_66 + t_0f3a + t_ymm) 0x08)
    ∷ method "vroundsd" x_x_o_i (avx3_imm (t_66 + t_0f3a + t_w0) 0x0B)
    ∷ method "vroundss" x_x_o_i (avx3_imm (t_66 + t_0f3a + t_w0) 0x0A)
    ∷ method "vrsqrtps" x_o (avx2 (t_0f + t_ymm) 0x52)
    ∷ method "vrsqrtss" x_x_o (avx3 (t_f3 + t_0f) 0x52)
    ∷ []

-- vshufpd to vsqrtss
unfoldable pub from_vshufpd : List Method
from_vshufpd =
    method "vshufpd" x_x_o_i (avx3_imm (t_66 + t_0f + t_ew1 + t_ymm + t_evex + t_b64) 0xC6)
    ∷ method "vshufps" x_x_o_i (avx3_imm (t_0f + t_w0 + t_ymm + t_evex + t_b32) 0xC6)
    ∷ method "vsm3msg1" x_x_o (avx3 (t_0f38 + t_w0 + t_evex) 0xDA)
    ∷ method "vsm3msg2" x_x_o (avx3 (t_66 + t_0f38 + t_w0 + t_evex) 0xDA)
    ∷ method "vsm3rnds2" x_x_o_i (avx3_imm (t_66 + t_0f3a + t_w0 + t_evex) 0xDE)
    ∷ method "vsm4key4" x_x_o (avx3 (t_f3 + t_0f38 + t_w0 + t_evex) 0xDA)
    ∷ method "vsm4rnds4" x_x_o (avx3 (t_f2 + t_0f38 + t_w0 + t_evex) 0xDA)
    ∷ method "vsqrtpd" x_o (avx2 (t_66 + t_0f + t_ew1 + t_ymm + t_evex + t_er_z + t_b64) 0x51)
    ∷ method "vsqrtps" x_o (avx2 (t_0f + t_w0 + t_ymm + t_evex + t_er_z + t_b32) 0x51)
    ∷ method "vsqrtsd" x_x_o (avx3 (t_n8 + t_f2 + t_0f + t_ew1 + t_evex + t_er_x) 0x51)
    ∷ method "vsqrtss" x_x_o (avx3 (t_n4 + t_f3 + t_0f + t_w0 + t_evex + t_er_x) 0x51)
    ∷ []

-- vsubpd to vxorps
unfoldable pub from_vsubpd : List Method
from_vsubpd =
    method "vsubpd" x_o_oo (avx3 (t_0f + t_66 + t_ew1 + t_ymm + t_evex + t_er_z + t_b64) 0x5C)
    ∷ method "vsubps" x_o_oo (avx3 (t_0f + t_w0 + t_ymm + t_evex + t_er_z + t_b32) 0x5C)
    ∷ method "vsubsd" x_o_oo (avx3 (t_0f + t_f2 + t_ew1 + t_evex + t_er_x + t_n8) 0x5C)
    ∷ method "vsubss" x_o_oo (avx3 (t_0f + t_f3 + t_w0 + t_evex + t_er_x + t_n4) 0x5C)
    ∷ method "vtestpd" x_o (avx2 (t_66 + t_0f38 + t_ymm) 0x0F)
    ∷ method "vtestps" x_o (avx2 (t_66 + t_0f38 + t_ymm) 0x0E)
    ∷ method "vucomisd" x_o (avx2 (t_n8 + t_66 + t_0f + t_ew1 + t_evex + t_sae_x) 0x2E)
    ∷ method "vucomiss" x_o (avx2 (t_n4 + t_0f + t_w0 + t_evex + t_sae_x) 0x2E)
    ∷ method "vunpckhpd" x_x_o (avx3 (t_66 + t_0f + t_ew1 + t_ymm + t_evex + t_b64) 0x15)
    ∷ method "vunpckhps" x_x_o (avx3 (t_0f + t_w0 + t_ymm + t_evex + t_b32) 0x15)
    ∷ method "vunpcklpd" x_x_o (avx3 (t_66 + t_0f + t_ew1 + t_ymm + t_evex + t_b64) 0x14)
    ∷ method "vunpcklps" x_x_o (avx3 (t_0f + t_w0 + t_ymm + t_evex + t_b32) 0x14)
    ∷ method "vxorpd" x_o_oo (avx3 (t_0f + t_66 + t_ew1 + t_ymm + t_evex + t_b64) 0x57)
    ∷ method "vxorps" x_o_oo (avx3 (t_0f + t_w0 + t_ymm + t_evex + t_b32) 0x57)
    ∷ []
