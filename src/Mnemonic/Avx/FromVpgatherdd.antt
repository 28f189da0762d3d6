-- ===== src/Mnemonic/Avx/FromVpgatherdd.antt =====
-- xbyak/xbyak_mnemonic.h: the instructions of AVX, from vpgatherdd to vpminuw.
use xbyak.Prelude.{List, [], ◌∷◌, ◌+◌}
use xbyak.Flags.{
  t_0f, t_0f38, t_0f3a, t_66, t_b32, t_evex, t_ew1, t_n1, t_n2, t_n4, t_n8, t_vsib, t_w0, t_w1,
  t_ymm,
}
use xbyak.Format.Cvt.{GatherMode}
use xbyak.Mnemonic.{Method, method, avx2, avx3, avx3_store, gather, pinsr}
use xbyak.Mnemonic.Signature.{m_x_x, x_m_x, x_o, x_x_m, x_x_o, x_x_o_i}

-- vpgatherdd to vpminuw
unfoldable pub from_vpgatherdd : List Method
from_vpgatherdd =
    method "vpgatherdd" x_m_x
      (gather (t_0f38 + t_66 + t_ymm + t_vsib + t_w0) 0x90 GatherMode.y_vy_y)
    ∷ method "vpgatherdq" x_m_x
        (gather (t_0f38 + t_66 + t_ymm + t_vsib + t_w1) 0x90 GatherMode.y_vx_y)
    ∷ method "vpgatherqd" x_m_x
        (gather (t_0f38 + t_66 + t_ymm + t_vsib + t_w0) 0x91 GatherMode.x_vy_x)
    ∷ method "vpgatherqq" x_m_x
        (gather (t_0f38 + t_66 + t_ymm + t_vsib + t_w1) 0x91 GatherMode.y_vy_y)
    ∷ method "vphaddd" x_x_o (avx3 (t_66 + t_0f38 + t_ymm) 0x02)
    ∷ method "vphaddsw" x_x_o (avx3 (t_66 + t_0f38 + t_ymm) 0x03)
    ∷ method "vphaddw" x_x_o (avx3 (t_66 + t_0f38 + t_ymm) 0x01)
    ∷ method "vphminposuw" x_o (avx2 (t_66 + t_0f38) 0x41)
    ∷ method "vphsubd" x_x_o (avx3 (t_66 + t_0f38 + t_ymm) 0x06)
    ∷ method "vphsubsw" x_x_o (avx3 (t_66 + t_0f38 + t_ymm) 0x07)
    ∷ method "vphsubw" x_x_o (avx3 (t_66 + t_0f38 + t_ymm) 0x05)
    ∷ method "vpinsrb" x_x_o_i (pinsr 32 (t_0f3a + t_66 + t_evex + t_n1) 0x20)
    ∷ method "vpinsrd" x_x_o_i (pinsr 32 (t_0f3a + t_66 + t_w0 + t_evex + t_n4) 0x22)
    ∷ method "vpinsrq" x_x_o_i (pinsr 64 (t_0f3a + t_66 + t_w1 + t_evex + t_ew1 + t_n8) 0x22)
    ∷ method "vpinsrw" x_x_o_i (pinsr 32 (t_0f + t_66 + t_evex + t_n2) 0xC4)
    ∷ method "vpmaddubsw" x_x_o (avx3 (t_66 + t_0f38 + t_ymm + t_evex) 0x04)
    ∷ method "vpmaddwd" x_x_o (avx3 (t_66 + t_0f + t_ymm + t_evex) 0xF5)
    ∷ method "vpmaskmovd" m_x_x (avx3_store (t_0f38 + t_66 + t_w0 + t_ymm) 0x8E)
    ∷ method "vpmaskmovd" x_x_m (avx3 (t_0f38 + t_66 + t_w0 + t_ymm) 0x8C)
    ∷ method "vpmaskmovq" m_x_x (avx3_store (t_0f38 + t_66 + t_w1 + t_ymm) 0x8E)
    ∷ method "vpmaskmovq" x_x_m (avx3 (t_0f38 + t_66 + t_w1 + t_ymm) 0x8C)
    ∷ method "vpmaxsb" x_x_o (avx3 (t_66 + t_0f38 + t_ymm + t_evex) 0x3C)
    ∷ method "vpmaxsd" x_x_o (avx3 (t_66 + t_0f38 + t_w0 + t_ymm + t_evex + t_b32) 0x3D)
    ∷ method "vpmaxsw" x_x_o (avx3 (t_66 + t_0f + t_ymm + t_evex) 0xEE)
    ∷ method "vpmaxub" x_x_o (avx3 (t_66 + t_0f + t_ymm + t_evex) 0xDE)
    ∷ method "vpmaxud" x_x_o (avx3 (t_66 + t_0f38 + t_w0 + t_ymm + t_evex + t_b32) 0x3F)
    ∷ method "vpmaxuw" x_x_o (avx3 (t_66 + t_0f38 + t_ymm + t_evex) 0x3E)
    ∷ method "vpminsb" x_x_o (avx3 (t_66 + t_0f38 + t_ymm + t_evex) 0x38)
    ∷ method "vpminsd" x_x_o (avx3 (t_66 + t_0f38 + t_w0 + t_ymm + t_evex + t_b32) 0x39)
    ∷ method "vpminsw" x_x_o (avx3 (t_66 + t_0f + t_ymm + t_evex) 0xEA)
    ∷ method "vpminub" x_x_o (avx3 (t_66 + t_0f + t_ymm + t_evex) 0xDA)
    ∷ method "vpminud" x_x_o (avx3 (t_66 + t_0f38 + t_w0 + t_ymm + t_evex + t_b32) 0x3B)
    ∷ method "vpminuw" x_x_o (avx3 (t_66 + t_0f38 + t_ymm + t_evex) 0x3A)
    ∷ []
