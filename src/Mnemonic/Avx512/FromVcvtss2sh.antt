-- ===== src/Mnemonic/Avx512/FromVcvtss2sh.antt =====
-- xbyak/xbyak_mnemonic.h: the instructions of AVX-512, from vcvtss2sh to vcvtusi2sd.
use xbyak.Prelude.{List, [], ◌∷◌, ◌+◌}
use xbyak.Flags.{
  t_0f, t_66, t_b16, t_b32, t_b64, t_er_r, t_er_x, t_er_z, t_ew1, t_f2, t_f3, t_map5, t_must_evex,
  t_n16, t_n2, t_n4, t_n8, t_n_vl, t_sae_x, t_sae_y, t_sae_z, t_w0, t_w1, t_ymm,
}
use xbyak.Mnemonic.{Method, method, avx2, avx3, cvt1, cvt2, cvt3, cvt4, cvt5, vex2_xmm, vex_r_xm0}
use xbyak.Mnemonic.Signature.{r32e_o, x_o, x_x_o}

-- vcvtss2sh to vcvtusi2sd
unfoldable pub from_vcvtss2sh : List Method
from_vcvtss2sh =
    method "vcvtss2sh" x_x_o (avx3 (t_n4 + t_map5 + t_w0 + t_er_x + t_must_evex) 0x1D)
    ∷ method "vcvtss2usi" r32e_o (vex_r_xm0 (t_n4 + t_f3 + t_0f + t_er_x + t_must_evex) 0x79)
    ∷ method "vcvttbf162ibs" x_o (avx2 (t_f2 + t_map5 + t_w0 + t_ymm + t_must_evex + t_b16) 0x68)
    ∷ method "vcvttbf162iubs" x_o (avx2 (t_f2 + t_map5 + t_w0 + t_ymm + t_must_evex + t_b16) 0x6A)
    ∷ method "vcvttpd2dqs" x_o (cvt2 (t_map5 + t_ew1 + t_ymm + t_sae_z + t_must_evex + t_b64) 0x6D)
    ∷ method "vcvttpd2qq" x_o
        (avx2 (t_66 + t_0f + t_ew1 + t_ymm + t_sae_z + t_must_evex + t_b64) 0x7A)
    ∷ method "vcvttpd2qqs" x_o
        (avx2 (t_66 + t_map5 + t_ew1 + t_ymm + t_sae_z + t_must_evex + t_b64) 0x6D)
    ∷ method "vcvttpd2udq" x_o (cvt2 (t_0f + t_ew1 + t_ymm + t_sae_z + t_must_evex + t_b64) 0x78)
    ∷ method "vcvttpd2udqs" x_o (cvt2 (t_map5 + t_ew1 + t_ymm + t_sae_z + t_must_evex + t_b64) 0x6C)
    ∷ method "vcvttpd2uqq" x_o
        (avx2 (t_66 + t_0f + t_ew1 + t_ymm + t_sae_z + t_must_evex + t_b64) 0x78)
    ∷ method "vcvttpd2uqqs" x_o
        (avx2 (t_66 + t_map5 + t_ew1 + t_ymm + t_sae_z + t_must_evex + t_b64) 0x6C)
    ∷ method "vcvttph2dq" x_o
        (cvt1 (t_n8 + t_n_vl + t_f3 + t_map5 + t_w0 + t_ymm + t_sae_y + t_must_evex + t_b16) 0x5B)
    ∷ method "vcvttph2ibs" x_o (avx2 (t_map5 + t_w0 + t_ymm + t_sae_z + t_must_evex + t_b16) 0x68)
    ∷ method "vcvttph2iubs" x_o (avx2 (t_map5 + t_w0 + t_ymm + t_sae_z + t_must_evex + t_b16) 0x6A)
    ∷ method "vcvttph2qq" x_o (
        vex2_xmm (t_n4 + t_n_vl + t_66 + t_map5 + t_w0 + t_ymm + t_sae_x + t_must_evex + t_b16)
          0x7A)
    ∷ method "vcvttph2udq" x_o
        (cvt1 (t_n8 + t_n_vl + t_map5 + t_w0 + t_ymm + t_sae_y + t_must_evex + t_b16) 0x78)
    ∷ method "vcvttph2uqq" x_o (
        vex2_xmm (t_n4 + t_n_vl + t_66 + t_map5 + t_w0 + t_ymm + t_sae_x + t_must_evex + t_b16)
          0x78)
    ∷ method "vcvttph2uw" x_o (avx2 (t_map5 + t_w0 + t_ymm + t_sae_z + t_must_evex + t_b16) 0x7C)
    ∷ method "vcvttph2w" x_o
        (avx2 (t_66 + t_map5 + t_w0 + t_ymm + t_sae_z + t_must_evex + t_b16) 0x7C)
    ∷ method "vcvttps2dqs" x_o (avx2 (t_map5 + t_w0 + t_ymm + t_sae_z + t_must_evex + t_b32) 0x6D)
    ∷ method "vcvttps2ibs" x_o
        (avx2 (t_66 + t_map5 + t_w0 + t_ymm + t_sae_z + t_must_evex + t_b32) 0x68)
    ∷ method "vcvttps2iubs" x_o
        (avx2 (t_66 + t_map5 + t_w0 + t_ymm + t_sae_z + t_must_evex + t_b32) 0x6A)
    ∷ method "vcvttps2qq" x_o
        (cvt1 (t_n8 + t_n_vl + t_66 + t_0f + t_w0 + t_ymm + t_sae_y + t_must_evex + t_b32) 0x7A)
    ∷ method "vcvttps2qqs" x_o
        (cvt1 (t_n8 + t_n_vl + t_66 + t_map5 + t_w0 + t_ymm + t_sae_y + t_must_evex + t_b32) 0x6D)
    ∷ method "vcvttps2udq" x_o (avx2 (t_0f + t_w0 + t_ymm + t_sae_z + t_must_evex + t_b32) 0x78)
    ∷ method "vcvttps2udqs" x_o (avx2 (t_map5 + t_w0 + t_ymm + t_sae_z + t_must_evex + t_b32) 0x6C)
    ∷ method "vcvttps2uqq" x_o
        (cvt1 (t_n8 + t_n_vl + t_66 + t_0f + t_w0 + t_ymm + t_sae_y + t_must_evex + t_b32) 0x78)
    ∷ method "vcvttps2uqqs" x_o
        (cvt1 (t_n8 + t_n_vl + t_66 + t_map5 + t_w0 + t_ymm + t_sae_y + t_must_evex + t_b32) 0x6C)
    ∷ method "vcvttsd2sis" r32e_o (vex_r_xm0 (t_n8 + t_f2 + t_map5 + t_sae_x + t_must_evex) 0x6D)
    ∷ method "vcvttsd2usi" r32e_o (vex_r_xm0 (t_n8 + t_f2 + t_0f + t_sae_x + t_must_evex) 0x78)
    ∷ method "vcvttsd2usis" r32e_o (vex_r_xm0 (t_n8 + t_f2 + t_map5 + t_sae_x + t_must_evex) 0x6C)
    ∷ method "vcvttsh2si" r32e_o (vex_r_xm0 (t_n2 + t_f3 + t_map5 + t_sae_x + t_must_evex) 0x2C)
    ∷ method "vcvttsh2usi" r32e_o (vex_r_xm0 (t_n2 + t_f3 + t_map5 + t_sae_x + t_must_evex) 0x78)
    ∷ method "vcvttss2sis" r32e_o (vex_r_xm0 (t_n4 + t_f3 + t_map5 + t_sae_x + t_must_evex) 0x6D)
    ∷ method "vcvttss2usi" r32e_o (vex_r_xm0 (t_n4 + t_f3 + t_0f + t_sae_x + t_must_evex) 0x78)
    ∷ method "vcvttss2usis" r32e_o (vex_r_xm0 (t_n4 + t_f3 + t_map5 + t_sae_x + t_must_evex) 0x6C)
    ∷ method "vcvtudq2pd" x_o
        (cvt1 (t_n8 + t_n_vl + t_f3 + t_0f + t_w0 + t_ymm + t_must_evex + t_b32) 0x7A)
    ∷ method "vcvtudq2ph" x_o
        (cvt4 (t_n16 + t_n_vl + t_f2 + t_map5 + t_w0 + t_er_z + t_must_evex + t_b32) 0x7A)
    ∷ method "vcvtudq2ps" x_o
        (avx2 (t_f2 + t_0f + t_w0 + t_ymm + t_er_z + t_must_evex + t_b32) 0x7A)
    ∷ method "vcvtuqq2pd" x_o
        (avx2 (t_f3 + t_0f + t_ew1 + t_ymm + t_er_z + t_must_evex + t_b64) 0x7A)
    ∷ method "vcvtuqq2ph" x_o
        (cvt5 (t_n16 + t_n_vl + t_f2 + t_map5 + t_ew1 + t_er_z + t_must_evex + t_b64) 0x7A)
    ∷ method "vcvtuqq2ps" x_o
        (cvt2 (t_f2 + t_0f + t_ew1 + t_ymm + t_er_z + t_must_evex + t_b64) 0x7A)
    ∷ method "vcvtusi2sd" x_x_o
        (cvt3 (t_f2 + t_0f + t_must_evex) (t_w1 + t_ew1 + t_er_r + t_n8) (t_w0 + t_n4) 0x7B)
    ∷ []
