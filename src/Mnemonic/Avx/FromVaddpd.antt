-- ===== src/Mnemonic/Avx/FromVaddpd.antt =====
-- xbyak/xbyak_mnemonic.h: the instructions of AVX, from vaddpd to vcmpneqps.
use xbyak.Prelude.{List, [], ◌∷◌, ◌+◌}
use xbyak.Flags.{
  t_0f, t_0f38, t_0f3a, t_66, t_b16, t_b32, t_b64, t_er_x, t_er_z, t_evex, t_ew1, t_f2, t_f3, t_n4,
  t_n8, t_w0, t_ymm,
}
use xbyak.Mnemonic.{Method, method, avx2, avx2_imm, avx2_xmm, avx3, avx3_imm, avx3_is4, calls, vex2}
use xbyak.Mnemonic.Signature.{x_m, x_o, x_o_i, x_o_oo, x_x_o, x_x_o_i, x_x_o_x, y_m}

-- vaddpd to vbroadcasti128
unfoldable pub from_vaddpd : List Method
from_vaddpd =
    method "vaddpd" x_o_oo (avx3 (t_0f + t_66 + t_ew1 + t_ymm + t_evex + t_er_z + t_b64) 0x58)
    ∷ method "vaddps" x_o_oo (avx3 (t_0f + t_w0 + t_ymm + t_evex + t_er_z + t_b32) 0x58)
    ∷ method "vaddsd" x_o_oo (avx3 (t_0f + t_f2 + t_ew1 + t_evex + t_er_x + t_n8) 0x58)
    ∷ method "vaddss" x_o_oo (avx3 (t_0f + t_f3 + t_w0 + t_evex + t_er_x + t_n4) 0x58)
    ∷ method "vaddsubpd" x_o_oo (avx3 (t_66 + t_0f + t_ymm) 0xD0)
    ∷ method "vaddsubps" x_o_oo (avx3 (t_f2 + t_0f + t_ymm) 0xD0)
    ∷ method "vaesdec" x_o_oo (avx3 (t_66 + t_0f38 + t_ymm + t_evex) 0xDE)
    ∷ method "vaesdeclast" x_o_oo (avx3 (t_66 + t_0f38 + t_ymm + t_evex) 0xDF)
    ∷ method "vaesenc" x_o_oo (avx3 (t_66 + t_0f38 + t_ymm + t_evex) 0xDC)
    ∷ method "vaesenclast" x_o_oo (avx3 (t_66 + t_0f38 + t_ymm + t_evex) 0xDD)
    ∷ method "vaesimc" x_o (avx2 (t_66 + t_0f38 + t_w0) 0xDB)
    ∷ method "vaeskeygenassist" x_o_i (avx2_imm (t_66 + t_0f3a) 0xDF)
    ∷ method "vandnpd" x_o_oo (avx3 (t_0f + t_66 + t_ew1 + t_ymm + t_evex + t_b64) 0x55)
    ∷ method "vandnps" x_o_oo (avx3 (t_0f + t_w0 + t_ymm + t_evex + t_b32) 0x55)
    ∷ method "vandpd" x_o_oo (avx3 (t_0f + t_66 + t_ew1 + t_ymm + t_evex + t_b64) 0x54)
    ∷ method "vandps" x_o_oo (avx3 (t_0f + t_w0 + t_ymm + t_evex + t_b32) 0x54)
    ∷ method "vbcstnebf162ps" x_m (vex2 (t_f3 + t_0f38 + t_w0 + t_ymm + t_b16) 0xB1)
    ∷ method "vbcstnesh2ps" x_m (vex2 (t_66 + t_0f38 + t_w0 + t_ymm + t_b16) 0xB1)
    ∷ method "vblendpd" x_x_o_i (avx3_imm (t_66 + t_0f3a + t_w0 + t_ymm) 0x0D)
    ∷ method "vblendps" x_x_o_i (avx3_imm (t_66 + t_0f3a + t_w0 + t_ymm) 0x0C)
    ∷ method "vblendvpd" x_x_o_x (avx3_is4 (t_0f3a + t_66 + t_ymm) 0x4B)
    ∷ method "vblendvps" x_x_o_x (avx3_is4 (t_0f3a + t_66 + t_ymm) 0x4A)
    ∷ method "vbroadcastf128" y_m (avx2 (t_0f38 + t_66 + t_w0 + t_ymm) 0x1A)
    ∷ method "vbroadcasti128" y_m (avx2 (t_0f38 + t_66 + t_w0 + t_ymm) 0x5A)
    ∷ []

-- vbroadcastss to vcmpneqps
unfoldable pub from_vbroadcastss : List Method
from_vbroadcastss =
    method "vbroadcastss" x_o (avx2_xmm (t_n4 + t_66 + t_0f38 + t_w0 + t_ymm + t_evex) 0x18)
    ∷ method "vcmpeq_ospd" x_x_o (calls "vcmppd" 16)
    ∷ method "vcmpeq_osps" x_x_o (calls "vcmpps" 16)
    ∷ method "vcmpeq_ossd" x_x_o (calls "vcmpsd" 16)
    ∷ method "vcmpeq_osss" x_x_o (calls "vcmpss" 16)
    ∷ method "vcmpeq_uqpd" x_x_o (calls "vcmppd" 8)
    ∷ method "vcmpeq_uqps" x_x_o (calls "vcmpps" 8)
    ∷ method "vcmpeq_uqsd" x_x_o (calls "vcmpsd" 8)
    ∷ method "vcmpeq_uqss" x_x_o (calls "vcmpss" 8)
    ∷ method "vcmpeq_uspd" x_x_o (calls "vcmppd" 24)
    ∷ method "vcmpeq_usps" x_x_o (calls "vcmpps" 24)
    ∷ method "vcmpeq_ussd" x_x_o (calls "vcmpsd" 24)
    ∷ method "vcmpeq_usss" x_x_o (calls "vcmpss" 24)
    ∷ method "vcmpeqpd" x_x_o (calls "vcmppd" 0)
    ∷ method "vcmpeqps" x_x_o (calls "vcmpps" 0)
    ∷ method "vcmpeqsd" x_x_o (calls "vcmpsd" 0)
    ∷ method "vcmpeqss" x_x_o (calls "vcmpss" 0)
    ∷ method "vcmpfalse_ospd" x_x_o (calls "vcmppd" 27)
    ∷ method "vcmpfalse_osps" x_x_o (calls "vcmpps" 27)
    ∷ method "vcmpfalse_ossd" x_x_o (calls "vcmpsd" 27)
    ∷ method "vcmpfalse_osss" x_x_o (calls "vcmpss" 27)
    ∷ method "vcmpfalsepd" x_x_o (calls "vcmppd" 11)
    ∷ method "vcmpfalseps" x_x_o (calls "vcmpps" 11)
    ∷ method "vcmpfalsesd" x_x_o (calls "vcmpsd" 11)
    ∷ method "vcmpfalsess" x_x_o (calls "vcmpss" 11)
    ∷ method "vcmpge_oqpd" x_x_o (calls "vcmppd" 29)
    ∷ method "vcmpge_oqps" x_x_o (calls "vcmpps" 29)
    ∷ method "vcmpge_oqsd" x_x_o (calls "vcmpsd" 29)
    ∷ method "vcmpge_oqss" x_x_o (calls "vcmpss" 29)
    ∷ method "vcmpgepd" x_x_o (calls "vcmppd" 13)
    ∷ method "vcmpgeps" x_x_o (calls "vcmpps" 13)
    ∷ method "vcmpgesd" x_x_o (calls "vcmpsd" 13)
    ∷ method "vcmpgess" x_x_o (calls "vcmpss" 13)
    ∷ method "vcmpgt_oqpd" x_x_o (calls "vcmppd" 30)
    ∷ method "vcmpgt_oqps" x_x_o (calls "vcmpps" 30)
    ∷ method "vcmpgt_oqsd" x_x_o (calls "vcmpsd" 30)
    ∷ method "vcmpgt_oqss" x_x_o (calls "vcmpss" 30)
    ∷ method "vcmpgtpd" x_x_o (calls "vcmppd" 14)
    ∷ method "vcmpgtps" x_x_o (calls "vcmpps" 14)
    ∷ method "vcmpgtsd" x_x_o (calls "vcmpsd" 14)
    ∷ method "vcmpgtss" x_x_o (calls "vcmpss" 14)
    ∷ method "vcmple_oqpd" x_x_o (calls "vcmppd" 18)
    ∷ method "vcmple_oqps" x_x_o (calls "vcmpps" 18)
    ∷ method "vcmple_oqsd" x_x_o (calls "vcmpsd" 18)
    ∷ method "vcmple_oqss" x_x_o (calls "vcmpss" 18)
    ∷ method "vcmplepd" x_x_o (calls "vcmppd" 2)
    ∷ method "vcmpleps" x_x_o (calls "vcmpps" 2)
    ∷ method "vcmplesd" x_x_o (calls "vcmpsd" 2)
    ∷ method "vcmpless" x_x_o (calls "vcmpss" 2)
    ∷ method "vcmplt_oqpd" x_x_o (calls "vcmppd" 17)
    ∷ method "vcmplt_oqps" x_x_o (calls "vcmpps" 17)
    ∷ method "vcmplt_oqsd" x_x_o (calls "vcmpsd" 17)
    ∷ method "vcmplt_oqss" x_x_o (calls "vcmpss" 17)
    ∷ method "vcmpltpd" x_x_o (calls "vcmppd" 1)
    ∷ method "vcmpltps" x_x_o (calls "vcmpps" 1)
    ∷ method "vcmpltsd" x_x_o (calls "vcmpsd" 1)
    ∷ method "vcmpltss" x_x_o (calls "vcmpss" 1)
    ∷ method "vcmpneq_oqpd" x_x_o (calls "vcmppd" 12)
    ∷ method "vcmpneq_oqps" x_x_o (calls "vcmpps" 12)
    ∷ method "vcmpneq_oqsd" x_x_o (calls "vcmpsd" 12)
    ∷ method "vcmpneq_oqss" x_x_o (calls "vcmpss" 12)
    ∷ method "vcmpneq_ospd" x_x_o (calls "vcmppd" 28)
    ∷ method "vcmpneq_osps" x_x_o (calls "vcmpps" 28)
    ∷ method "vcmpneq_ossd" x_x_o (calls "vcmpsd" 28)
    ∷ method "vcmpneq_osss" x_x_o (calls "vcmpss" 28)
    ∷ method "vcmpneq_uspd" x_x_o (calls "vcmppd" 20)
    ∷ method "vcmpneq_usps" x_x_o (calls "vcmpps" 20)
    ∷ method "vcmpneq_ussd" x_x_o (calls "vcmpsd" 20)
    ∷ method "vcmpneq_usss" x_x_o (calls "vcmpss" 20)
    ∷ method "vcmpneqpd" x_x_o (calls "vcmppd" 4)
    ∷ method "vcmpneqps" x_x_o (calls "vcmpps" 4)
    ∷ []
