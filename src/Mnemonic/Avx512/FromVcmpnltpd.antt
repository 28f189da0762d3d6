-- ===== src/Mnemonic/Avx512/FromVcmpnltpd.antt =====
-- xbyak/xbyak_mnemonic.h: the instructions of AVX-512, from vcmpnltpd to vcvtsh2usi.
use xbyak.Prelude.{List, [], ◌∷◌, ◌+◌}
use xbyak.Flags.{
  t_0f, t_0f38, t_0f3a, t_66, t_b16, t_b32, t_b64, t_er_x, t_er_y, t_er_z, t_ew1, t_f2, t_f3, t_m_k,
  t_map5, t_map6, t_must_evex, t_n16, t_n2, t_n4, t_n8, t_n_vl, t_sae_x, t_sae_y, t_sae_z, t_w0,
  t_ymm,
}
use xbyak.Mnemonic.{
  Method, method, avx2, avx2_store, avx3, calls, cvt1, cvt2, cvt4, cvt5, cvt6, k_avx_imm, vex2_xmm,
  vex_r_xm0,
}
use xbyak.Mnemonic.Signature.{k_x_o, k_x_o_i, o_x, r32e_o, x_o, x_x_o}

-- vcmpnltpd to vcvtsh2usi
unfoldable pub from_vcmpnltpd : List Method
from_vcmpnltpd =
    method "vcmpnltpd" k_x_o (calls "vcmppd" 5)
    ∷ method "vcmpnltps" k_x_o (calls "vcmpps" 5)
    ∷ method "vcmpnltsd" k_x_o (calls "vcmpsd" 5)
    ∷ method "vcmpnltss" k_x_o (calls "vcmpss" 5)
    ∷ method "vcmpord_spd" k_x_o (calls "vcmppd" 23)
    ∷ method "vcmpord_sps" k_x_o (calls "vcmpps" 23)
    ∷ method "vcmpord_ssd" k_x_o (calls "vcmpsd" 23)
    ∷ method "vcmpord_sss" k_x_o (calls "vcmpss" 23)
    ∷ method "vcmpordpd" k_x_o (calls "vcmppd" 7)
    ∷ method "vcmpordps" k_x_o (calls "vcmpps" 7)
    ∷ method "vcmpordsd" k_x_o (calls "vcmpsd" 7)
    ∷ method "vcmpordss" k_x_o (calls "vcmpss" 7)
    ∷ method "vcmppd" k_x_o_i
        (k_avx_imm (t_66 + t_0f + t_ew1 + t_ymm + t_sae_z + t_must_evex + t_b64) 0xC2)
    ∷ method "vcmpph" k_x_o_i
        (k_avx_imm (t_0f3a + t_w0 + t_ymm + t_sae_z + t_must_evex + t_b16) 0xC2)
    ∷ method "vcmpps" k_x_o_i (k_avx_imm (t_0f + t_w0 + t_ymm + t_sae_z + t_must_evex + t_b32) 0xC2)
    ∷ method "vcmpsd" k_x_o_i (k_avx_imm (t_n8 + t_f2 + t_0f + t_ew1 + t_sae_z + t_must_evex) 0xC2)
    ∷ method "vcmpsh" k_x_o_i (k_avx_imm (t_n2 + t_f3 + t_0f3a + t_w0 + t_sae_x + t_must_evex) 0xC2)
    ∷ method "vcmpss" k_x_o_i (k_avx_imm (t_n4 + t_f3 + t_0f + t_w0 + t_sae_z + t_must_evex) 0xC2)
    ∷ method "vcmptrue_uspd" k_x_o (calls "vcmppd" 31)
    ∷ method "vcmptrue_usps" k_x_o (calls "vcmpps" 31)
    ∷ method "vcmptrue_ussd" k_x_o (calls "vcmpsd" 31)
    ∷ method "vcmptrue_usss" k_x_o (calls "vcmpss" 31)
    ∷ method "vcmptruepd" k_x_o (calls "vcmppd" 15)
    ∷ method "vcmptrueps" k_x_o (calls "vcmpps" 15)
    ∷ method "vcmptruesd" k_x_o (calls "vcmpsd" 15)
    ∷ method "vcmptruess" k_x_o (calls "vcmpss" 15)
    ∷ method "vcmpunord_spd" k_x_o (calls "vcmppd" 19)
    ∷ method "vcmpunord_sps" k_x_o (calls "vcmpps" 19)
    ∷ method "vcmpunord_ssd" k_x_o (calls "vcmpsd" 19)
    ∷ method "vcmpunord_sss" k_x_o (calls "vcmpss" 19)
    ∷ method "vcmpunordpd" k_x_o (calls "vcmppd" 3)
    ∷ method "vcmpunordps" k_x_o (calls "vcmpps" 3)
    ∷ method "vcmpunordsd" k_x_o (calls "vcmpsd" 3)
    ∷ method "vcmpunordss" k_x_o (calls "vcmpss" 3)
    ∷ method "vcomisbf16" x_o (avx2 (t_n2 + t_66 + t_map5 + t_w0 + t_must_evex) 0x2F)
    ∷ method "vcomish" x_o (avx2 (t_n2 + t_map5 + t_w0 + t_sae_x + t_must_evex) 0x2F)
    ∷ method "vcompresspd" o_x
        (avx2_store (t_n8 + t_66 + t_0f38 + t_ew1 + t_ymm + t_must_evex + t_m_k) 0x8A)
    ∷ method "vcompressps" o_x
        (avx2_store (t_n4 + t_66 + t_0f38 + t_w0 + t_ymm + t_must_evex + t_m_k) 0x8A)
    ∷ method "vcomxsd" x_o (avx2 (t_n8 + t_f2 + t_0f + t_ew1 + t_sae_x + t_must_evex) 0x2F)
    ∷ method "vcomxsh" x_o (avx2 (t_n2 + t_f3 + t_map5 + t_w0 + t_sae_x + t_must_evex) 0x2F)
    ∷ method "vcomxss" x_o (avx2 (t_n4 + t_f3 + t_0f + t_w0 + t_sae_x + t_must_evex) 0x2F)
    ∷ method "vcvt2ph2bf8" x_x_o
        (avx3 (t_n16 + t_n_vl + t_f2 + t_0f38 + t_w0 + t_ymm + t_must_evex + t_b16) 0x74)
    ∷ method "vcvt2ph2bf8s" x_x_o
        (avx3 (t_n16 + t_n_vl + t_f2 + t_map5 + t_w0 + t_ymm + t_must_evex + t_b16) 0x74)
    ∷ method "vcvt2ph2hf8" x_x_o
        (avx3 (t_n16 + t_n_vl + t_f2 + t_map5 + t_w0 + t_ymm + t_must_evex + t_b16) 0x18)
    ∷ method "vcvt2ph2hf8s" x_x_o
        (avx3 (t_n16 + t_n_vl + t_f2 + t_map5 + t_w0 + t_ymm + t_must_evex + t_b16) 0x1B)
    ∷ method "vcvt2ps2phx" x_x_o
        (avx3 (t_66 + t_0f38 + t_w0 + t_ymm + t_er_z + t_must_evex + t_b32) 0x67)
    ∷ method "vcvtbf162ibs" x_o (avx2 (t_f2 + t_map5 + t_w0 + t_ymm + t_must_evex + t_b16) 0x69)
    ∷ method "vcvtbf162iubs" x_o (avx2 (t_f2 + t_map5 + t_w0 + t_ymm + t_must_evex + t_b16) 0x6B)
    ∷ method "vcvtbiasph2bf8" x_x_o (cvt6 (t_0f38 + t_w0 + t_ymm + t_must_evex + t_b16) 0x74)
    ∷ method "vcvtbiasph2bf8s" x_x_o (cvt6 (t_map5 + t_w0 + t_ymm + t_must_evex + t_b16) 0x74)
    ∷ method "vcvtbiasph2hf8" x_x_o (cvt6 (t_map5 + t_w0 + t_ymm + t_must_evex + t_b16) 0x18)
    ∷ method "vcvtbiasph2hf8s" x_x_o (cvt6 (t_map5 + t_w0 + t_ymm + t_must_evex + t_b16) 0x1B)
    ∷ method "vcvtdq2ph" x_o
        (cvt4 (t_n16 + t_n_vl + t_map5 + t_w0 + t_ymm + t_er_z + t_must_evex + t_b32) 0x5B)
    ∷ method "vcvthf82ph" x_o
        (cvt1 (t_must_evex + t_f2 + t_map5 + t_w0 + t_ymm + t_n8 + t_n_vl) 0x1E)
    ∷ method "vcvtne2ps2bf16" x_x_o
        (avx3 (t_f2 + t_0f38 + t_w0 + t_ymm + t_sae_z + t_must_evex + t_b32) 0x72)
    ∷ method "vcvtpd2ph" x_o
        (cvt5 (t_n16 + t_n_vl + t_66 + t_map5 + t_ew1 + t_er_z + t_must_evex + t_b64) 0x5A)
    ∷ method "vcvtpd2qq" x_o
        (avx2 (t_66 + t_0f + t_ew1 + t_ymm + t_er_z + t_must_evex + t_b64) 0x7B)
    ∷ method "vcvtpd2udq" x_o (cvt2 (t_0f + t_ew1 + t_ymm + t_er_z + t_must_evex + t_b64) 0x79)
    ∷ method "vcvtpd2uqq" x_o
        (avx2 (t_66 + t_0f + t_ew1 + t_ymm + t_er_z + t_must_evex + t_b64) 0x79)
    ∷ method "vcvtph2bf8" x_o (cvt2 (t_f3 + t_0f38 + t_w0 + t_ymm + t_must_evex + t_b16) 0x74)
    ∷ method "vcvtph2bf8s" x_o (cvt2 (t_f3 + t_map5 + t_w0 + t_ymm + t_must_evex + t_b16) 0x74)
    ∷ method "vcvtph2dq" x_o
        (cvt1 (t_n8 + t_n_vl + t_66 + t_map5 + t_w0 + t_ymm + t_er_y + t_must_evex + t_b16) 0x5B)
    ∷ method "vcvtph2hf8" x_o (cvt2 (t_f3 + t_map5 + t_w0 + t_ymm + t_must_evex + t_b16) 0x18)
    ∷ method "vcvtph2hf8s" x_o (cvt2 (t_f3 + t_map5 + t_w0 + t_ymm + t_must_evex + t_b16) 0x1B)
    ∷ method "vcvtph2ibs" x_o (avx2 (t_map5 + t_w0 + t_ymm + t_er_z + t_must_evex + t_b16) 0x69)
    ∷ method "vcvtph2iubs" x_o (avx2 (t_map5 + t_w0 + t_ymm + t_er_z + t_must_evex + t_b16) 0x6B)
    ∷ method "vcvtph2pd" x_o
        (vex2_xmm (t_n4 + t_n_vl + t_map5 + t_w0 + t_ymm + t_sae_x + t_must_evex + t_b16) 0x5A)
    ∷ method "vcvtph2psx" x_o
        (cvt1 (t_n8 + t_n_vl + t_66 + t_map6 + t_w0 + t_ymm + t_sae_y + t_must_evex + t_b16) 0x13)
    ∷ method "vcvtph2qq" x_o (
        vex2_xmm (t_n4 + t_n_vl + t_66 + t_map5 + t_w0 + t_ymm + t_er_x + t_must_evex + t_b16) 0x7B)
    ∷ method "vcvtph2udq" x_o
        (cvt1 (t_n8 + t_n_vl + t_map5 + t_w0 + t_ymm + t_er_y + t_must_evex + t_b16) 0x79)
    ∷ method "vcvtph2uqq" x_o (
        vex2_xmm (t_n4 + t_n_vl + t_66 + t_map5 + t_w0 + t_ymm + t_er_x + t_must_evex + t_b16) 0x79)
    ∷ method "vcvtph2uw" x_o (avx2 (t_map5 + t_w0 + t_ymm + t_er_z + t_must_evex + t_b16) 0x7D)
    ∷ method "vcvtph2w" x_o
        (avx2 (t_66 + t_map5 + t_w0 + t_ymm + t_er_z + t_must_evex + t_b16) 0x7D)
    ∷ method "vcvtps2ibs" x_o
        (avx2 (t_66 + t_map5 + t_w0 + t_ymm + t_er_z + t_must_evex + t_b32) 0x69)
    ∷ method "vcvtps2iubs" x_o
        (avx2 (t_66 + t_map5 + t_w0 + t_ymm + t_er_z + t_must_evex + t_b32) 0x6B)
    ∷ method "vcvtps2phx" x_o
        (cvt4 (t_n16 + t_n_vl + t_66 + t_map5 + t_w0 + t_er_z + t_must_evex + t_b32) 0x1D)
    ∷ method "vcvtps2qq" x_o
        (cvt1 (t_n8 + t_n_vl + t_66 + t_0f + t_w0 + t_ymm + t_er_y + t_must_evex + t_b32) 0x7B)
    ∷ method "vcvtps2udq" x_o (avx2 (t_0f + t_w0 + t_ymm + t_er_z + t_must_evex + t_b32) 0x79)
    ∷ method "vcvtps2uqq" x_o
        (cvt1 (t_n8 + t_n_vl + t_66 + t_0f + t_w0 + t_ymm + t_er_y + t_must_evex + t_b32) 0x79)
    ∷ method "vcvtqq2pd" x_o
        (avx2 (t_f3 + t_0f + t_ew1 + t_ymm + t_er_z + t_must_evex + t_b64) 0xE6)
    ∷ method "vcvtqq2ph" x_o
        (cvt5 (t_n16 + t_n_vl + t_map5 + t_ew1 + t_er_z + t_must_evex + t_b64) 0x5B)
    ∷ method "vcvtqq2ps" x_o (cvt2 (t_0f + t_ew1 + t_ymm + t_er_z + t_must_evex + t_b64) 0x5B)
    ∷ method "vcvtsd2sh" x_x_o (avx3 (t_n8 + t_f2 + t_map5 + t_ew1 + t_er_x + t_must_evex) 0x5A)
    ∷ method "vcvtsd2usi" r32e_o (vex_r_xm0 (t_n8 + t_f2 + t_0f + t_er_x + t_must_evex) 0x79)
    ∷ method "vcvtsh2sd" x_x_o (avx3 (t_n2 + t_f3 + t_map5 + t_w0 + t_sae_x + t_must_evex) 0x5A)
    ∷ method "vcvtsh2si" r32e_o (vex_r_xm0 (t_n2 + t_f3 + t_map5 + t_er_x + t_must_evex) 0x2D)
    ∷ method "vcvtsh2ss" x_x_o (avx3 (t_n2 + t_map6 + t_w0 + t_sae_x + t_must_evex) 0x13)
    ∷ method "vcvtsh2usi" r32e_o (vex_r_xm0 (t_n2 + t_f3 + t_map5 + t_er_x + t_must_evex) 0x79)
    ∷ []
