-- ===== src/Mnemonic/Legacy.antt =====
-- xbyak/xbyak_mnemonic.h: the methods for SSE that have a register and an operand and call `opSSE` with
-- `isXMM_XMMorMEM`, or `opMMX` (whose flags are
-- T_0F and T_66 where a line has none), where there is a method for AVX of the same name behind a `v`.
use Prim.Native.String.{String}
use xbyak.Prelude.{ℕ, ◌+◌, List, [], ◌∷◌, some}
use xbyak.Err.{Result}
use xbyak.Flags.{
  t_0f, t_0f38, t_0f3a, t_66, t_dup, t_evex, t_ew1, t_f2, t_f3, t_n2, t_n4, t_n8, t_n_vl, t_w0,
  t_ymm,
}
use xbyak.Operand.{Operand}
use xbyak.RegMem.{RegMem}
use xbyak.CodeArray.{Host}
use xbyak.Jump.{Gen}
use xbyak.Format.Sse.{is_xmm_xmm_or_mem, op_sse, op_mmx}

-- The calls: the flags and the opcode, and the opcode, the flags and the prefix for an `Xmm`.
pub data LegacyLine : Type 0 where
  sse : ℕ → ℕ → LegacyLine
  mmx : ℕ → ℕ → ℕ → LegacyLine

-- The call that a line makes; `imm8` is NONE where the method has none.
unfoldable pub legacy_call : Host → LegacyLine → Operand → RegMem → ℕ → Gen → Result Gen
unfolding op_sse op_mmx is_xmm_xmm_or_mem
legacy_call h (sse type code) r op imm8 = op_sse h r op type code (some is_xmm_xmm_or_mem) imm8
legacy_call h (mmx code type pref) r op imm8 = op_mmx h r op code type pref imm8

unfoldable pub legacy_lines : List (String × LegacyLine)
legacy_lines =
    ("addpd", sse (t_0f + t_66) 0x58)
    ∷ ("addps", sse t_0f 0x58)
    ∷ ("addsd", sse (t_0f + t_f2) 0x58)
    ∷ ("addss", sse (t_0f + t_f3) 0x58)
    ∷ ("addsubpd", sse (t_66 + t_0f + t_ymm) 0xD0)
    ∷ ("addsubps", sse (t_f2 + t_0f + t_ymm) 0xD0)
    ∷ ("aesdec", sse (t_66 + t_0f38 + t_ymm + t_evex) 0xDE)
    ∷ ("aesdeclast", sse (t_66 + t_0f38 + t_ymm + t_evex) 0xDF)
    ∷ ("aesenc", sse (t_66 + t_0f38 + t_ymm + t_evex) 0xDC)
    ∷ ("aesenclast", sse (t_66 + t_0f38 + t_ymm + t_evex) 0xDD)
    ∷ ("aesimc", sse (t_66 + t_0f38 + t_w0) 0xDB)
    ∷ ("aeskeygenassist", sse (t_66 + t_0f3a) 0xDF)
    ∷ ("andnpd", sse (t_0f + t_66) 0x55)
    ∷ ("andnps", sse t_0f 0x55)
    ∷ ("andpd", sse (t_0f + t_66) 0x54)
    ∷ ("andps", sse t_0f 0x54)
    ∷ ("blendpd", sse (t_66 + t_0f3a) 0x0D)
    ∷ ("blendps", sse (t_66 + t_0f3a) 0x0C)
    ∷ ("blendvpd", sse (t_66 + t_0f38) 0x15)
    ∷ ("blendvps", sse (t_66 + t_0f38) 0x14)
    ∷ ("cmppd", sse (t_0f + t_66) 0xC2)
    ∷ ("cmpps", sse t_0f 0xC2)
    ∷ ("cmpsd", sse (t_0f + t_f2) 0xC2)
    ∷ ("cmpss", sse (t_0f + t_f3) 0xC2)
    ∷ ("comisd", sse (t_66 + t_0f) 0x2F)
    ∷ ("comiss", sse t_0f 0x2F)
    ∷ ("cvtdq2pd", sse (t_f3 + t_0f) 0xE6)
    ∷ ("cvtdq2ps", sse t_0f 0x5B)
    ∷ ("cvtpd2dq", sse (t_f2 + t_0f) 0xE6)
    ∷ ("cvtpd2ps", sse (t_66 + t_0f) 0x5A)
    ∷ ("cvtps2dq", sse (t_66 + t_0f) 0x5B)
    ∷ ("cvtps2pd", sse t_0f 0x5A)
    ∷ ("cvtsd2ss", sse (t_f2 + t_0f) 0x5A)
    ∷ ("cvtss2sd", sse (t_f3 + t_0f) 0x5A)
    ∷ ("cvttpd2dq", sse (t_66 + t_0f) 0xE6)
    ∷ ("cvttps2dq", sse (t_f3 + t_0f) 0x5B)
    ∷ ("divpd", sse (t_0f + t_66) 0x5E)
    ∷ ("divps", sse t_0f 0x5E)
    ∷ ("divsd", sse (t_0f + t_f2) 0x5E)
    ∷ ("divss", sse (t_0f + t_f3) 0x5E)
    ∷ ("dppd", sse (t_66 + t_0f3a) 0x41)
    ∷ ("dpps", sse (t_66 + t_0f3a) 0x40)
    ∷ ("gf2p8affineinvqb", sse (t_66 + t_0f3a) 0xCF)
    ∷ ("gf2p8affineqb", sse (t_66 + t_0f3a) 0xCE)
    ∷ ("gf2p8mulb", sse (t_66 + t_0f38) 0xCF)
    ∷ ("haddpd", sse (t_66 + t_0f + t_ymm) 0x7C)
    ∷ ("haddps", sse (t_f2 + t_0f + t_ymm) 0x7C)
    ∷ ("hsubpd", sse (t_66 + t_0f + t_ymm) 0x7D)
    ∷ ("hsubps", sse (t_f2 + t_0f + t_ymm) 0x7D)
    ∷ ("insertps", sse (t_66 + t_0f3a) 0x21)
    ∷ ("maxpd", sse (t_0f + t_66) 0x5F)
    ∷ ("maxps", sse t_0f 0x5F)
    ∷ ("maxsd", sse (t_0f + t_f2) 0x5F)
    ∷ ("maxss", sse (t_0f + t_f3) 0x5F)
    ∷ ("minpd", sse (t_0f + t_66) 0x5D)
    ∷ ("minps", sse t_0f 0x5D)
    ∷ ("minsd", sse (t_0f + t_f2) 0x5D)
    ∷ ("minss", sse (t_0f + t_f3) 0x5D)
    ∷ ("movapd", mmx 0x28 t_0f t_66)
    ∷ ("movaps", mmx 0x28 t_0f 0)
    ∷ ("movddup", sse (t_dup + t_f2 + t_0f + t_ew1 + t_ymm + t_evex) 0x12)
    ∷ ("movdqa", mmx 0x6F t_0f t_66)
    ∷ ("movdqu", mmx 0x6F t_0f t_f3)
    ∷ ("movsd", mmx 0x10 t_0f t_f2)
    ∷ ("movshdup", sse (t_f3 + t_0f + t_w0 + t_ymm + t_evex) 0x16)
    ∷ ("movsldup", sse (t_f3 + t_0f + t_w0 + t_ymm + t_evex) 0x12)
    ∷ ("movss", mmx 0x10 t_0f t_f3)
    ∷ ("movupd", mmx 0x10 t_0f t_66)
    ∷ ("movups", mmx 0x10 t_0f 0)
    ∷ ("mpsadbw", sse (t_66 + t_0f3a) 0x42)
    ∷ ("mulpd", sse (t_0f + t_66) 0x59)
    ∷ ("mulps", sse t_0f 0x59)
    ∷ ("mulsd", sse (t_0f + t_f2) 0x59)
    ∷ ("mulss", sse (t_0f + t_f3) 0x59)
    ∷ ("orpd", sse (t_0f + t_66) 0x56)
    ∷ ("orps", sse t_0f 0x56)
    ∷ ("pabsb", mmx 0x1C t_0f38 t_66)
    ∷ ("pabsd", mmx 0x1E t_0f38 t_66)
    ∷ ("pabsw", mmx 0x1D t_0f38 t_66)
    ∷ ("packssdw", mmx 0x6B t_0f t_66)
    ∷ ("packsswb", mmx 0x63 t_0f t_66)
    ∷ ("packusdw", sse (t_66 + t_0f38) 0x2B)
    ∷ ("packuswb", mmx 0x67 t_0f t_66)
    ∷ ("paddb", mmx 0xFC t_0f t_66)
    ∷ ("paddd", mmx 0xFE t_0f t_66)
    ∷ ("paddq", mmx 0xD4 t_0f t_66)
    ∷ ("paddsb", mmx 0xEC t_0f t_66)
    ∷ ("paddsw", mmx 0xED t_0f t_66)
    ∷ ("paddusb", mmx 0xDC t_0f t_66)
    ∷ ("paddusw", mmx 0xDD t_0f t_66)
    ∷ ("paddw", mmx 0xFD t_0f t_66)
    ∷ ("palignr", mmx 0x0F t_0f3a t_66)
    ∷ ("pand", mmx 0xDB t_0f t_66)
    ∷ ("pandn", mmx 0xDF t_0f t_66)
    ∷ ("pavgb", mmx 0xE0 t_0f t_66)
    ∷ ("pavgw", mmx 0xE3 t_0f t_66)
    ∷ ("pblendvb", sse (t_66 + t_0f38) 0x10)
    ∷ ("pblendw", sse (t_66 + t_0f3a) 0x0E)
    ∷ ("pclmulqdq", sse (t_66 + t_0f3a) 0x44)
    ∷ ("pcmpeqb", mmx 0x74 t_0f t_66)
    ∷ ("pcmpeqd", mmx 0x76 t_0f t_66)
    ∷ ("pcmpeqq", sse (t_66 + t_0f38) 0x29)
    ∷ ("pcmpeqw", mmx 0x75 t_0f t_66)
    ∷ ("pcmpestri", sse (t_66 + t_0f3a) 0x61)
    ∷ ("pcmpestrm", sse (t_66 + t_0f3a) 0x60)
    ∷ ("pcmpgtb", mmx 0x64 t_0f t_66)
    ∷ ("pcmpgtd", mmx 0x66 t_0f t_66)
    ∷ ("pcmpgtq", sse (t_66 + t_0f38) 0x37)
    ∷ ("pcmpgtw", mmx 0x65 t_0f t_66)
    ∷ ("pcmpistri", sse (t_66 + t_0f3a) 0x63)
    ∷ ("pcmpistrm", sse (t_66 + t_0f3a) 0x62)
    ∷ ("phaddd", mmx 0x02 t_0f38 t_66)
    ∷ ("phaddsw", mmx 0x03 t_0f38 t_66)
    ∷ ("phaddw", mmx 0x01 t_0f38 t_66)
    ∷ ("phminposuw", sse (t_66 + t_0f38) 0x41)
    ∷ ("phsubd", mmx 0x06 t_0f38 t_66)
    ∷ ("phsubsw", mmx 0x07 t_0f38 t_66)
    ∷ ("phsubw", mmx 0x05 t_0f38 t_66)
    ∷ ("pmaddubsw", mmx 0x04 t_0f38 t_66)
    ∷ ("pmaddwd", mmx 0xF5 t_0f t_66)
    ∷ ("pmaxsb", sse (t_66 + t_0f38) 0x3C)
    ∷ ("pmaxsd", sse (t_66 + t_0f38) 0x3D)
    ∷ ("pmaxsw", mmx 0xEE t_0f t_66)
    ∷ ("pmaxub", mmx 0xDE t_0f t_66)
    ∷ ("pmaxud", sse (t_66 + t_0f38) 0x3F)
    ∷ ("pmaxuw", sse (t_66 + t_0f38) 0x3E)
    ∷ ("pminsb", sse (t_66 + t_0f38) 0x38)
    ∷ ("pminsd", sse (t_66 + t_0f38) 0x39)
    ∷ ("pminsw", mmx 0xEA t_0f t_66)
    ∷ ("pminub", mmx 0xDA t_0f t_66)
    ∷ ("pminud", sse (t_66 + t_0f38) 0x3B)
    ∷ ("pminuw", sse (t_66 + t_0f38) 0x3A)
    ∷ ("pmovsxbd", sse (t_n4 + t_n_vl + t_66 + t_0f38 + t_ymm + t_evex) 0x21)
    ∷ ("pmovsxbq", sse (t_n2 + t_n_vl + t_66 + t_0f38 + t_ymm + t_evex) 0x22)
    ∷ ("pmovsxbw", sse (t_n8 + t_n_vl + t_66 + t_0f38 + t_ymm + t_evex) 0x20)
    ∷ ("pmovsxdq", sse (t_n8 + t_n_vl + t_66 + t_0f38 + t_w0 + t_ymm + t_evex) 0x25)
    ∷ ("pmovsxwd", sse (t_n8 + t_n_vl + t_66 + t_0f38 + t_ymm + t_evex) 0x23)
    ∷ ("pmovsxwq", sse (t_n4 + t_n_vl + t_66 + t_0f38 + t_ymm + t_evex) 0x24)
    ∷ ("pmovzxbd", sse (t_n4 + t_n_vl + t_66 + t_0f38 + t_ymm + t_evex) 0x31)
    ∷ ("pmovzxbq", sse (t_n2 + t_n_vl + t_66 + t_0f38 + t_ymm + t_evex) 0x32)
    ∷ ("pmovzxbw", sse (t_n8 + t_n_vl + t_66 + t_0f38 + t_ymm + t_evex) 0x30)
    ∷ ("pmovzxdq", sse (t_n8 + t_n_vl + t_66 + t_0f38 + t_w0 + t_ymm + t_evex) 0x35)
    ∷ ("pmovzxwd", sse (t_n8 + t_n_vl + t_66 + t_0f38 + t_ymm + t_evex) 0x33)
    ∷ ("pmovzxwq", sse (t_n4 + t_n_vl + t_66 + t_0f38 + t_ymm + t_evex) 0x34)
    ∷ ("pmuldq", sse (t_66 + t_0f38) 0x28)
    ∷ ("pmulhrsw", mmx 0x0B t_0f38 t_66)
    ∷ ("pmulhuw", mmx 0xE4 t_0f t_66)
    ∷ ("pmulhw", mmx 0xE5 t_0f t_66)
    ∷ ("pmulld", sse (t_66 + t_0f38) 0x40)
    ∷ ("pmullw", mmx 0xD5 t_0f t_66)
    ∷ ("pmuludq", mmx 0xF4 t_0f t_66)
    ∷ ("por", mmx 0xEB t_0f t_66)
    ∷ ("psadbw", mmx 0xF6 t_0f t_66)
    ∷ ("pshufb", mmx 0x00 t_0f38 t_66)
    ∷ ("pshufd", mmx 0x70 t_0f t_66)
    ∷ ("pshufhw", mmx 0x70 t_0f t_f3)
    ∷ ("pshuflw", mmx 0x70 t_0f t_f2)
    ∷ ("psignb", mmx 0x08 t_0f38 t_66)
    ∷ ("psignd", mmx 0x0A t_0f38 t_66)
    ∷ ("psignw", mmx 0x09 t_0f38 t_66)
    ∷ ("pslld", mmx 0xF2 t_0f t_66)
    ∷ ("psllq", mmx 0xF3 t_0f t_66)
    ∷ ("psllw", mmx 0xF1 t_0f t_66)
    ∷ ("psrad", mmx 0xE2 t_0f t_66)
    ∷ ("psraw", mmx 0xE1 t_0f t_66)
    ∷ ("psrld", mmx 0xD2 t_0f t_66)
    ∷ ("psrlq", mmx 0xD3 t_0f t_66)
    ∷ ("psrlw", mmx 0xD1 t_0f t_66)
    ∷ ("psubb", mmx 0xF8 t_0f t_66)
    ∷ ("psubd", mmx 0xFA t_0f t_66)
    ∷ ("psubq", mmx 0xFB t_0f t_66)
    ∷ ("psubsb", mmx 0xE8 t_0f t_66)
    ∷ ("psubsw", mmx 0xE9 t_0f t_66)
    ∷ ("psubusb", mmx 0xD8 t_0f t_66)
    ∷ ("psubusw", mmx 0xD9 t_0f t_66)
    ∷ ("psubw", mmx 0xF9 t_0f t_66)
    ∷ ("ptest", sse (t_66 + t_0f38 + t_ymm) 0x17)
    ∷ ("punpckhbw", mmx 0x68 t_0f t_66)
    ∷ ("punpckhdq", mmx 0x6A t_0f t_66)
    ∷ ("punpckhqdq", sse (t_66 + t_0f) 0x6D)
    ∷ ("punpckhwd", mmx 0x69 t_0f t_66)
    ∷ ("punpcklbw", mmx 0x60 t_0f t_66)
    ∷ ("punpckldq", mmx 0x62 t_0f t_66)
    ∷ ("punpcklqdq", sse (t_66 + t_0f) 0x6C)
    ∷ ("punpcklwd", mmx 0x61 t_0f t_66)
    ∷ ("pxor", mmx 0xEF t_0f t_66)
    ∷ ("rcpps", sse t_0f 0x53)
    ∷ ("rcpss", sse (t_0f + t_f3) 0x53)
    ∷ ("roundpd", sse (t_66 + t_0f3a + t_ymm) 0x09)
    ∷ ("roundps", sse (t_66 + t_0f3a + t_ymm) 0x08)
    ∷ ("roundsd", sse (t_66 + t_0f3a) 0x0B)
    ∷ ("roundss", sse (t_66 + t_0f3a) 0x0A)
    ∷ ("rsqrtps", sse t_0f 0x52)
    ∷ ("rsqrtss", sse (t_0f + t_f3) 0x52)
    ∷ ("shufpd", sse (t_0f + t_66) 0xC6)
    ∷ ("shufps", sse t_0f 0xC6)
    ∷ ("sqrtpd", sse (t_0f + t_66) 0x51)
    ∷ ("sqrtps", sse t_0f 0x51)
    ∷ ("sqrtsd", sse (t_0f + t_f2) 0x51)
    ∷ ("sqrtss", sse (t_0f + t_f3) 0x51)
    ∷ ("subpd", sse (t_0f + t_66) 0x5C)
    ∷ ("subps", sse t_0f 0x5C)
    ∷ ("subsd", sse (t_0f + t_f2) 0x5C)
    ∷ ("subss", sse (t_0f + t_f3) 0x5C)
    ∷ ("ucomisd", sse (t_66 + t_0f) 0x2E)
    ∷ ("ucomiss", sse t_0f 0x2E)
    ∷ ("unpckhpd", sse (t_0f + t_66) 0x15)
    ∷ ("unpckhps", sse t_0f 0x15)
    ∷ ("unpcklpd", sse (t_0f + t_66) 0x14)
    ∷ ("unpcklps", sse t_0f 0x14)
    ∷ ("xorpd", sse (t_0f + t_66) 0x57)
    ∷ ("xorps", sse t_0f 0x57)
    ∷ []
