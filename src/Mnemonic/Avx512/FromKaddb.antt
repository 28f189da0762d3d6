-- ===== src/Mnemonic/Avx512/FromKaddb.antt =====
-- xbyak/xbyak_mnemonic.h: the instructions of AVX-512, from kaddb to vcmpeq_usss.
use xbyak.Prelude.{List, [], ◌∷◌, ◌+◌, true, false}
use xbyak.Flags.{
  t_0f, t_0f38, t_0f3a, t_66, t_b16, t_b32, t_b64, t_er_x, t_er_z, t_ew1, t_f2, t_f3, t_l1, t_map5,
  t_must_evex, t_n16, t_n2, t_n32, t_n8, t_w0, t_w1, t_ymm,
}
use xbyak.Mnemonic.{
  Method, method, avx2, avx3, avx3_imm, calls, kmov, vex2, vex2_imm, vex3, vex3_imm,
}
use xbyak.Mnemonic.Signature.{
  k_k, k_k_i, k_k_k, k_o, k_x_o, k_x_o_i, m_k, r32_k, x_o, x_o_oo, x_x_o, x_x_o_i, y_m, y_o, z_m,
  z_o,
}

-- kaddb to vcmpeq_usss
unfoldable pub from_kaddb : List Method
from_kaddb =
    method "kaddb" k_k_k (vex3 (t_l1 + t_0f + t_66 + t_w0) 0x4A)
    ∷ method "kaddd" k_k_k (vex3 (t_l1 + t_0f + t_66 + t_w1) 0x4A)
    ∷ method "kaddq" k_k_k (vex3 (t_l1 + t_0f + t_w1) 0x4A)
    ∷ method "kaddw" k_k_k (vex3 (t_l1 + t_0f + t_w0) 0x4A)
    ∷ method "kandb" k_k_k (vex3 (t_l1 + t_0f + t_66 + t_w0) 0x41)
    ∷ method "kandd" k_k_k (vex3 (t_l1 + t_0f + t_66 + t_w1) 0x41)
    ∷ method "kandnb" k_k_k (vex3 (t_l1 + t_0f + t_66 + t_w0) 0x42)
    ∷ method "kandnd" k_k_k (vex3 (t_l1 + t_0f + t_66 + t_w1) 0x42)
    ∷ method "kandnq" k_k_k (vex3 (t_l1 + t_0f + t_w1) 0x42)
    ∷ method "kandnw" k_k_k (vex3 (t_l1 + t_0f + t_w0) 0x42)
    ∷ method "kandq" k_k_k (vex3 (t_l1 + t_0f + t_w1) 0x41)
    ∷ method "kandw" k_k_k (vex3 (t_l1 + t_0f + t_w0) 0x41)
    ∷ method "kmovb" m_k (kmov true 8)
    ∷ method "kmovb" k_o (kmov false 8)
    ∷ method "kmovb" r32_k (kmov true 8)
    ∷ method "kmovd" m_k (kmov true 32)
    ∷ method "kmovd" k_o (kmov false 32)
    ∷ method "kmovd" r32_k (kmov true 32)
    ∷ method "kmovq" m_k (kmov true 64)
    ∷ method "kmovq" k_o (kmov false 64)
    ∷ method "kmovw" m_k (kmov true 16)
    ∷ method "kmovw" k_o (kmov false 16)
    ∷ method "kmovw" r32_k (kmov true 16)
    ∷ method "knotb" k_k (vex2 (t_0f + t_66 + t_w0) 0x44)
    ∷ method "knotd" k_k (vex2 (t_0f + t_66 + t_w1) 0x44)
    ∷ method "knotq" k_k (vex2 (t_0f + t_w1) 0x44)
    ∷ method "knotw" k_k (vex2 (t_0f + t_w0) 0x44)
    ∷ method "korb" k_k_k (vex3 (t_l1 + t_0f + t_66 + t_w0) 0x45)
    ∷ method "kord" k_k_k (vex3 (t_l1 + t_0f + t_66 + t_w1) 0x45)
    ∷ method "korq" k_k_k (vex3 (t_l1 + t_0f + t_w1) 0x45)
    ∷ method "kortestb" k_k (vex2 (t_0f + t_66 + t_w0) 0x98)
    ∷ method "kortestd" k_k (vex2 (t_0f + t_66 + t_w1) 0x98)
    ∷ method "kortestq" k_k (vex2 (t_0f + t_w1) 0x98)
    ∷ method "kortestw" k_k (vex2 (t_0f + t_w0) 0x98)
    ∷ method "korw" k_k_k (vex3 (t_l1 + t_0f + t_w0) 0x45)
    ∷ method "kshiftlb" k_k_i (vex2_imm (t_66 + t_0f3a + t_w0) 0x32)
    ∷ method "kshiftld" k_k_i (vex2_imm (t_66 + t_0f3a + t_w0) 0x33)
    ∷ method "kshiftlq" k_k_i (vex2_imm (t_66 + t_0f3a + t_w1) 0x33)
    ∷ method "kshiftlw" k_k_i (vex2_imm (t_66 + t_0f3a + t_w1) 0x32)
    ∷ method "kshiftrb" k_k_i (vex2_imm (t_66 + t_0f3a + t_w0) 0x30)
    ∷ method "kshiftrd" k_k_i (vex2_imm (t_66 + t_0f3a + t_w0) 0x31)
    ∷ method "kshiftrq" k_k_i (vex2_imm (t_66 + t_0f3a + t_w1) 0x31)
    ∷ method "kshiftrw" k_k_i (vex2_imm (t_66 + t_0f3a + t_w1) 0x30)
    ∷ method "ktestb" k_k (vex2 (t_0f + t_66 + t_w0) 0x99)
    ∷ method "ktestd" k_k (vex2 (t_0f + t_66 + t_w1) 0x99)
    ∷ method "ktestq" k_k (vex2 (t_0f + t_w1) 0x99)
    ∷ method "ktestw" k_k (vex2 (t_0f + t_w0) 0x99)
    ∷ method "kunpckbw" k_k_k (vex3 (t_l1 + t_0f + t_66 + t_w0) 0x4B)
    ∷ method "kunpckdq" k_k_k (vex3 (t_l1 + t_0f + t_w1) 0x4B)
    ∷ method "kunpckwd" k_k_k (vex3 (t_l1 + t_0f + t_w0) 0x4B)
    ∷ method "kxnorb" k_k_k (vex3 (t_l1 + t_0f + t_66 + t_w0) 0x46)
    ∷ method "kxnord" k_k_k (vex3 (t_l1 + t_0f + t_66 + t_w1) 0x46)
    ∷ method "kxnorq" k_k_k (vex3 (t_l1 + t_0f + t_w1) 0x46)
    ∷ method "kxnorw" k_k_k (vex3 (t_l1 + t_0f + t_w0) 0x46)
    ∷ method "kxorb" k_k_k (vex3 (t_l1 + t_0f + t_66 + t_w0) 0x47)
    ∷ method "kxord" k_k_k (vex3 (t_l1 + t_0f + t_66 + t_w1) 0x47)
    ∷ method "kxorq" k_k_k (vex3 (t_l1 + t_0f + t_w1) 0x47)
    ∷ method "kxorw" k_k_k (vex3 (t_l1 + t_0f + t_w0) 0x47)
    ∷ method "vaddbf16" x_x_o (avx3 (t_66 + t_map5 + t_w0 + t_ymm + t_must_evex + t_b16) 0x58)
    ∷ method "vaddph" x_o_oo (avx3 (t_map5 + t_w0 + t_ymm + t_must_evex + t_er_z + t_b16) 0x58)
    ∷ method "vaddsh" x_o_oo (avx3 (t_map5 + t_f3 + t_w0 + t_must_evex + t_er_x + t_n2) 0x58)
    ∷ method "valignd" x_x_o_i (avx3_imm (t_66 + t_0f3a + t_w0 + t_ymm + t_must_evex) 0x03)
    ∷ method "valignq" x_x_o_i (avx3_imm (t_66 + t_0f3a + t_ew1 + t_ymm + t_must_evex) 0x03)
    ∷ method "vblendmpd" x_x_o (avx3 (t_66 + t_0f38 + t_ew1 + t_ymm + t_must_evex + t_b64) 0x65)
    ∷ method "vblendmps" x_x_o (avx3 (t_66 + t_0f38 + t_w0 + t_ymm + t_must_evex + t_b32) 0x65)
    ∷ method "vbroadcastf32x2" y_o (avx2 (t_66 + t_0f38 + t_ymm + t_must_evex + t_w0 + t_n8) 0x19)
    ∷ method "vbroadcastf32x4" y_m (avx2 (t_66 + t_0f38 + t_ymm + t_must_evex + t_w0 + t_n16) 0x1A)
    ∷ method "vbroadcastf32x8" z_m (avx2 (t_66 + t_0f38 + t_ymm + t_must_evex + t_w0 + t_n32) 0x1B)
    ∷ method "vbroadcastf64x2" y_m (avx2 (t_66 + t_0f38 + t_ymm + t_must_evex + t_ew1 + t_n16) 0x1A)
    ∷ method "vbroadcastf64x4" z_m (avx2 (t_66 + t_0f38 + t_ymm + t_must_evex + t_ew1 + t_n32) 0x1B)
    ∷ method "vbroadcasti32x2" x_o (avx2 (t_66 + t_0f38 + t_ymm + t_must_evex + t_w0 + t_n8) 0x59)
    ∷ method "vbroadcasti32x4" y_o (avx2 (t_66 + t_0f38 + t_ymm + t_must_evex + t_w0 + t_n16) 0x5A)
    ∷ method "vbroadcasti32x8" z_o (avx2 (t_66 + t_0f38 + t_ymm + t_must_evex + t_w0 + t_n32) 0x5B)
    ∷ method "vbroadcasti64x2" y_o (avx2 (t_66 + t_0f38 + t_ymm + t_must_evex + t_ew1 + t_n16) 0x5A)
    ∷ method "vbroadcasti64x4" z_o (avx2 (t_66 + t_0f38 + t_ymm + t_must_evex + t_ew1 + t_n32) 0x5B)
    ∷ method "vcmpbf16" k_x_o_i (vex3_imm (t_must_evex + t_f2 + t_0f3a + t_w0 + t_ymm + t_b16) 0xC2)
    ∷ method "vcmpeq_ospd" k_x_o (calls "vcmppd" 16)
    ∷ method "vcmpeq_osps" k_x_o (calls "vcmpps" 16)
    ∷ method "vcmpeq_ossd" k_x_o (calls "vcmpsd" 16)
    ∷ method "vcmpeq_osss" k_x_o (calls "vcmpss" 16)
    ∷ method "vcmpeq_uqpd" k_x_o (calls "vcmppd" 8)
    ∷ method "vcmpeq_uqps" k_x_o (calls "vcmpps" 8)
    ∷ method "vcmpeq_uqsd" k_x_o (calls "vcmpsd" 8)
    ∷ method "vcmpeq_uqss" k_x_o (calls "vcmpss" 8)
    ∷ method "vcmpeq_uspd" k_x_o (calls "vcmppd" 24)
    ∷ method "vcmpeq_usps" k_x_o (calls "vcmpps" 24)
    ∷ method "vcmpeq_ussd" k_x_o (calls "vcmpsd" 24)
    ∷ method "vcmpeq_usss" k_x_o (calls "vcmpss" 24)
    ∷ []
