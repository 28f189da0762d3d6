-- ===== src/Mnemonic/Avx/FromVcmpneqsd.antt =====
-- xbyak/xbyak_mnemonic.h: the instructions of AVX, from vcmpneqsd to vdpps.
use xbyak.Prelude.{List, [], ◌∷◌, ◌+◌}
use xbyak.Flags.{
  t_0f, t_0f38, t_0f3a, t_66, t_b32, t_b64, t_er_r, t_er_x, t_er_z, t_evex, t_ew1, t_f2, t_f3,
  t_m_k, t_n4, t_n8, t_n_vl, t_sae_x, t_sae_y, t_sae_z, t_w0, t_w1, t_ymm,
}
use xbyak.Mnemonic.{
  Method, method, avx2, avx3, avx3_imm, avx_r_xm0, calls, cvt1, cvt1_store, cvt2, cvt3, vex2,
}
use xbyak.Mnemonic.Signature.{o_x_i, r32_o, x_m, x_o, x_o_oo, x_x_o, x_x_o_i}

-- vcmpneqsd to vcvtneoph2ps
unfoldable pub from_vcmpneqsd : List Method
from_vcmpneqsd =
    method "vcmpneqsd" x_x_o (calls "vcmpsd" 4)
    ∷ method "vcmpneqss" x_x_o (calls "vcmpss" 4)
    ∷ method "vcmpnge_uqpd" x_x_o (calls "vcmppd" 25)
    ∷ method "vcmpnge_uqps" x_x_o (calls "vcmpps" 25)
    ∷ method "vcmpnge_uqsd" x_x_o (calls "vcmpsd" 25)
    ∷ method "vcmpnge_uqss" x_x_o (calls "vcmpss" 25)
    ∷ method "vcmpngepd" x_x_o (calls "vcmppd" 9)
    ∷ method "vcmpngeps" x_x_o (calls "vcmpps" 9)
    ∷ method "vcmpngesd" x_x_o (calls "vcmpsd" 9)
    ∷ method "vcmpngess" x_x_o (calls "vcmpss" 9)
    ∷ method "vcmpngt_uqpd" x_x_o (calls "vcmppd" 26)
    ∷ method "vcmpngt_uqps" x_x_o (calls "vcmpps" 26)
    ∷ method "vcmpngt_uqsd" x_x_o (calls "vcmpsd" 26)
    ∷ method "vcmpngt_uqss" x_x_o (calls "vcmpss" 26)
    ∷ method "vcmpngtpd" x_x_o (calls "vcmppd" 10)
    ∷ method "vcmpngtps" x_x_o (calls "vcmpps" 10)
    ∷ method "vcmpngtsd" x_x_o (calls "vcmpsd" 10)
    ∷ method "vcmpngtss" x_x_o (calls "vcmpss" 10)
    ∷ method "vcmpnle_uqpd" x_x_o (calls "vcmppd" 22)
    ∷ method "vcmpnle_uqps" x_x_o (calls "vcmpps" 22)
    ∷ method "vcmpnle_uqsd" x_x_o (calls "vcmpsd" 22)
    ∷ method "vcmpnle_uqss" x_x_o (calls "vcmpss" 22)
    ∷ method "vcmpnlepd" x_x_o (calls "vcmppd" 6)
    ∷ method "vcmpnleps" x_x_o (calls "vcmpps" 6)
    ∷ method "vcmpnlesd" x_x_o (calls "vcmpsd" 6)
    ∷ method "vcmpnless" x_x_o (calls "vcmpss" 6)
    ∷ method "vcmpnlt_uqpd" x_x_o (calls "vcmppd" 21)
    ∷ method "vcmpnlt_uqps" x_x_o (calls "vcmpps" 21)
    ∷ method "vcmpnlt_uqsd" x_x_o (calls "vcmpsd" 21)
    ∷ method "vcmpnlt_uqss" x_x_o (calls "vcmpss" 21)
    ∷ method "vcmpnltpd" x_x_o (calls "vcmppd" 5)
    ∷ method "vcmpnltps" x_x_o (calls "vcmpps" 5)
    ∷ method "vcmpnltsd" x_x_o (calls "vcmpsd" 5)
    ∷ method "vcmpnltss" x_x_o (calls "vcmpss" 5)
    ∷ method "vcmpord_spd" x_x_o (calls "vcmppd" 23)
    ∷ method "vcmpord_sps" x_x_o (calls "vcmpps" 23)
    ∷ method "vcmpord_ssd" x_x_o (calls "vcmpsd" 23)
    ∷ method "vcmpord_sss" x_x_o (calls "vcmpss" 23)
    ∷ method "vcmpordpd" x_x_o (calls "vcmppd" 7)
    ∷ method "vcmpordps" x_x_o (calls "vcmpps" 7)
    ∷ method "vcmpordsd" x_x_o (calls "vcmpsd" 7)
    ∷ method "vcmpordss" x_x_o (calls "vcmpss" 7)
    ∷ method "vcmppd" x_x_o_i (avx3_imm (t_66 + t_0f + t_ymm) 0xC2)
    ∷ method "vcmpps" x_x_o_i (avx3_imm (t_0f + t_ymm) 0xC2)
    ∷ method "vcmpsd" x_x_o_i (avx3_imm (t_f2 + t_0f) 0xC2)
    ∷ method "vcmpss" x_x_o_i (avx3_imm (t_f3 + t_0f) 0xC2)
    ∷ method "vcmptrue_uspd" x_x_o (calls "vcmppd" 31)
    ∷ method "vcmptrue_usps" x_x_o (calls "vcmpps" 31)
    ∷ method "vcmptrue_ussd" x_x_o (calls "vcmpsd" 31)
    ∷ method "vcmptrue_usss" x_x_o (calls "vcmpss" 31)
    ∷ method "vcmptruepd" x_x_o (calls "vcmppd" 15)
    ∷ method "vcmptrueps" x_x_o (calls "vcmpps" 15)
    ∷ method "vcmptruesd" x_x_o (calls "vcmpsd" 15)
    ∷ method "vcmptruess" x_x_o (calls "vcmpss" 15)
    ∷ method "vcmpunord_spd" x_x_o (calls "vcmppd" 19)
    ∷ method "vcmpunord_sps" x_x_o (calls "vcmpps" 19)
    ∷ method "vcmpunord_ssd" x_x_o (calls "vcmpsd" 19)
    ∷ method "vcmpunord_sss" x_x_o (calls "vcmpss" 19)
    ∷ method "vcmpunordpd" x_x_o (calls "vcmppd" 3)
    ∷ method "vcmpunordps" x_x_o (calls "vcmpps" 3)
    ∷ method "vcmpunordsd" x_x_o (calls "vcmpsd" 3)
    ∷ method "vcmpunordss" x_x_o (calls "vcmpss" 3)
    ∷ method "vcomisd" x_o (avx2 (t_n8 + t_66 + t_0f + t_ew1 + t_evex + t_sae_x) 0x2F)
    ∷ method "vcomiss" x_o (avx2 (t_n4 + t_0f + t_w0 + t_evex + t_sae_x) 0x2F)
    ∷ method "vcvtdq2pd" x_o
        (cvt1 (t_0f + t_f3 + t_ymm + t_evex + t_w0 + t_b32 + t_n8 + t_n_vl) 0xE6)
    ∷ method "vcvtdq2ps" x_o (avx2 (t_0f + t_w0 + t_ymm + t_evex + t_er_z + t_b32) 0x5B)
    ∷ method "vcvtneebf162ps" x_m (vex2 (t_f3 + t_0f38 + t_w0 + t_ymm) 0xB0)
    ∷ method "vcvtneeph2ps" x_m (vex2 (t_66 + t_0f38 + t_w0 + t_ymm) 0xB0)
    ∷ method "vcvtneobf162ps" x_m (vex2 (t_f2 + t_0f38 + t_w0 + t_ymm) 0xB0)
    ∷ method "vcvtneoph2ps" x_m (vex2 (t_0f38 + t_w0 + t_ymm) 0xB0)
    ∷ []

-- vcvtpd2dq to vdpps
unfoldable pub from_vcvtpd2dq : List Method
from_vcvtpd2dq =
    method "vcvtpd2dq" x_o (cvt2 (t_0f + t_f2 + t_ymm + t_evex + t_ew1 + t_b64 + t_er_z) 0xE6)
    ∷ method "vcvtpd2ps" x_o (cvt2 (t_0f + t_66 + t_ymm + t_evex + t_ew1 + t_b64 + t_er_z) 0x5A)
    ∷ method "vcvtph2ps" x_o (cvt1 (t_0f38 + t_66 + t_w0 + t_evex + t_n8 + t_n_vl + t_sae_y) 0x13)
    ∷ method "vcvtps2dq" x_o (avx2 (t_66 + t_0f + t_w0 + t_ymm + t_evex + t_er_z + t_b32) 0x5B)
    ∷ method "vcvtps2pd" x_o
        (cvt1 (t_0f + t_ymm + t_evex + t_w0 + t_b32 + t_n8 + t_n_vl + t_sae_y) 0x5A)
    ∷ method "vcvtps2ph" o_x_i
        (cvt1_store (t_0f3a + t_66 + t_w0 + t_evex + t_n8 + t_n_vl + t_sae_y + t_m_k) 0x1D)
    ∷ method "vcvtsd2si" r32_o (avx_r_xm0 (t_0f + t_f2 + t_w0 + t_evex + t_n4 + t_er_x) 0x2D)
    ∷ method "vcvtsd2ss" x_x_o (avx3 (t_n8 + t_f2 + t_0f + t_ew1 + t_evex + t_er_x) 0x5A)
    ∷ method "vcvtsi2sd" x_x_o
        (cvt3 (t_0f + t_f2 + t_evex) (t_w1 + t_ew1 + t_er_r + t_n8) (t_w0 + t_n4) 0x2A)
    ∷ method "vcvtsi2ss" x_x_o
        (cvt3 (t_0f + t_f3 + t_evex + t_er_r) (t_w1 + t_ew1 + t_n8) (t_w0 + t_n4) 0x2A)
    ∷ method "vcvtss2sd" x_x_o (avx3 (t_n4 + t_f3 + t_0f + t_w0 + t_evex + t_sae_x) 0x5A)
    ∷ method "vcvtss2si" r32_o (avx_r_xm0 (t_0f + t_f3 + t_w0 + t_evex + t_er_x + t_n8) 0x2D)
    ∷ method "vcvttpd2dq" x_o (cvt2 (t_66 + t_0f + t_ymm + t_evex + t_ew1 + t_b64 + t_sae_z) 0xE6)
    ∷ method "vcvttps2dq" x_o (avx2 (t_f3 + t_0f + t_w0 + t_ymm + t_evex + t_sae_z + t_b32) 0x5B)
    ∷ method "vcvttsd2si" r32_o (avx_r_xm0 (t_0f + t_f2 + t_w0 + t_evex + t_n4 + t_sae_x) 0x2C)
    ∷ method "vcvttss2si" r32_o (avx_r_xm0 (t_0f + t_f3 + t_w0 + t_evex + t_sae_x + t_n8) 0x2C)
    ∷ method "vdivpd" x_o_oo (avx3 (t_0f + t_66 + t_ew1 + t_ymm + t_evex + t_er_z + t_b64) 0x5E)
    ∷ method "vdivps" x_o_oo (avx3 (t_0f + t_w0 + t_ymm + t_evex + t_er_z + t_b32) 0x5E)
    ∷ method "vdivsd" x_o_oo (avx3 (t_0f + t_f2 + t_ew1 + t_evex + t_er_x + t_n8) 0x5E)
    ∷ method "vdivss" x_o_oo (avx3 (t_0f + t_f3 + t_w0 + t_evex + t_er_x + t_n4) 0x5E)
    ∷ method "vdppd" x_x_o_i (avx3_imm (t_66 + t_0f3a + t_w0) 0x41)
    ∷ method "vdpps" x_x_o_i (avx3_imm (t_66 + t_0f3a + t_w0 + t_ymm) 0x40)
    ∷ []
