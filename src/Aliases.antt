-- ===== src/Aliases.antt =====
-- xbyak/xbyak.h: the short names of the vector registers (XBYAK_FOR_EACH_CONVENIENCE_ALL): the
-- alias and the name of the register that it copies.
use Prim.Native.String.{String}
use xbyak.Prelude.{List, [], ◌∷◌, ◌++◌}

abbrev pub convenience_table : List (String × String)
convenience_table =
    ("xm0", "xmm0")
    ∷ ("xm1", "xmm1")
    ∷ ("xm2", "xmm2")
    ∷ ("xm3", "xmm3")
    ∷ ("xm4", "xmm4")
    ∷ ("xm5", "xmm5")
    ∷ ("xm6", "xmm6")
    ∷ ("xm7", "xmm7")
    ∷ ("ym0", "ymm0")
    ∷ ("ym1", "ymm1")
    ∷ ("ym2", "ymm2")
    ∷ ("ym3", "ymm3")
    ∷ ("ym4", "ymm4")
    ∷ ("ym5", "ymm5")
    ∷ ("ym6", "ymm6")
    ∷ ("ym7", "ymm7")
    ∷ ("zm0", "zmm0")
    ∷ ("zm1", "zmm1")
    ∷ ("zm2", "zmm2")
    ∷ ("zm3", "zmm3")
    ∷ ("zm4", "zmm4")
    ∷ ("zm5", "zmm5")
    ∷ ("zm6", "zmm6")
    ∷ ("zm7", "zmm7")
    ∷ []

abbrev pub convenience_ext_table : List (String × String)
convenience_ext_table =
    ("xm8", "xmm8")
    ∷ ("xm9", "xmm9")
    ∷ ("xm10", "xmm10")
    ∷ ("xm11", "xmm11")
    ∷ ("xm12", "xmm12")
    ∷ ("xm13", "xmm13")
    ∷ ("xm14", "xmm14")
    ∷ ("xm15", "xmm15")
    ∷ ("xm16", "xmm16")
    ∷ ("xm17", "xmm17")
    ∷ ("xm18", "xmm18")
    ∷ ("xm19", "xmm19")
    ∷ ("xm20", "xmm20")
    ∷ ("xm21", "xmm21")
    ∷ ("xm22", "xmm22")
    ∷ ("xm23", "xmm23")
    ∷ ("xm24", "xmm24")
    ∷ ("xm25", "xmm25")
    ∷ ("xm26", "xmm26")
    ∷ ("xm27", "xmm27")
    ∷ ("xm28", "xmm28")
    ∷ ("xm29", "xmm29")
    ∷ ("xm30", "xmm30")
    ∷ ("xm31", "xmm31")
    ∷ ("ym8", "ymm8")
    ∷ ("ym9", "ymm9")
    ∷ ("ym10", "ymm10")
    ∷ ("ym11", "ymm11")
    ∷ ("ym12", "ymm12")
    ∷ ("ym13", "ymm13")
    ∷ ("ym14", "ymm14")
    ∷ ("ym15", "ymm15")
    ∷ ("ym16", "ymm16")
    ∷ ("ym17", "ymm17")
    ∷ ("ym18", "ymm18")
    ∷ ("ym19", "ymm19")
    ∷ ("ym20", "ymm20")
    ∷ ("ym21", "ymm21")
    ∷ ("ym22", "ymm22")
    ∷ ("ym23", "ymm23")
    ∷ ("ym24", "ymm24")
    ∷ ("ym25", "ymm25")
    ∷ ("ym26", "ymm26")
    ∷ ("ym27", "ymm27")
    ∷ ("ym28", "ymm28")
    ∷ ("ym29", "ymm29")
    ∷ ("ym30", "ymm30")
    ∷ ("ym31", "ymm31")
    ∷ ("zm8", "zmm8")
    ∷ ("zm9", "zmm9")
    ∷ ("zm10", "zmm10")
    ∷ ("zm11", "zmm11")
    ∷ ("zm12", "zmm12")
    ∷ ("zm13", "zmm13")
    ∷ ("zm14", "zmm14")
    ∷ ("zm15", "zmm15")
    ∷ ("zm16", "zmm16")
    ∷ ("zm17", "zmm17")
    ∷ ("zm18", "zmm18")
    ∷ ("zm19", "zmm19")
    ∷ ("zm20", "zmm20")
    ∷ ("zm21", "zmm21")
    ∷ ("zm22", "zmm22")
    ∷ ("zm23", "zmm23")
    ∷ ("zm24", "zmm24")
    ∷ ("zm25", "zmm25")
    ∷ ("zm26", "zmm26")
    ∷ ("zm27", "zmm27")
    ∷ ("zm28", "zmm28")
    ∷ ("zm29", "zmm29")
    ∷ ("zm30", "zmm30")
    ∷ ("zm31", "zmm31")
    ∷ []

unfoldable pub convenience_all : List (String × String)
convenience_all = convenience_table ++ convenience_ext_table
