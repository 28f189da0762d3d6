-- ===== src/Operand/Names.antt =====
-- xbyak/xbyak.h: `Operand::toString`. A read outside of a table is `none` inside the result.
use Prim.Native.String.{String}
use xbyak.Prelude.{◌-◌, ◌==◌, if◌then◌else◌, List, [], ◌∷◌, Option, some, get_elem?}
use xbyak.Err.{ErrorCode, Result, ok, err}
use xbyak.Operand.{Operand, get_idx, is, is_ext8bit, is_xmm, is_ymm, is_zmm, is_mmx}
use xbyak.Operand.Kind

-- `tbl` of the registers with EXT8BIT
abbrev ext_names : List String
ext_names = "spl" ∷ "bpl" ∷ "sil" ∷ "dil" ∷ []

-- `tbl` of the general registers of 8 bits
abbrev names8 : List String
names8 =
    "al" ∷ "cl" ∷ "dl" ∷ "bl" ∷ "ah" ∷ "ch" ∷ "dh" ∷ "bh" ∷ "r8b" ∷ "r9b" ∷ "r10b" ∷ "r11b" ∷ "r12b"
    ∷ "r13b" ∷ "r14b" ∷ "r15b" ∷ "r16b" ∷ "r17b" ∷ "r18b" ∷ "r19b" ∷ "r20b" ∷ "r21b" ∷ "r22b"
    ∷ "r23b" ∷ "r24b" ∷ "r25b" ∷ "r26b" ∷ "r27b" ∷ "r28b" ∷ "r29b" ∷ "r30b" ∷ "r31b" ∷ []

-- `tbl` of the general registers of 16 bits
abbrev names16 : List String
names16 =
    "ax" ∷ "cx" ∷ "dx" ∷ "bx" ∷ "sp" ∷ "bp" ∷ "si" ∷ "di" ∷ "r8w" ∷ "r9w" ∷ "r10w" ∷ "r11w" ∷ "r12w"
    ∷ "r13w" ∷ "r14w" ∷ "r15w" ∷ "r16w" ∷ "r17w" ∷ "r18w" ∷ "r19w" ∷ "r20w" ∷ "r21w" ∷ "r22w"
    ∷ "r23w" ∷ "r24w" ∷ "r25w" ∷ "r26w" ∷ "r27w" ∷ "r28w" ∷ "r29w" ∷ "r30w" ∷ "r31w" ∷ []

-- `tbl` of the general registers of 32 bits
abbrev names32 : List String
names32 =
    "eax" ∷ "ecx" ∷ "edx" ∷ "ebx" ∷ "esp" ∷ "ebp" ∷ "esi" ∷ "edi" ∷ "r8d" ∷ "r9d" ∷ "r10d" ∷ "r11d"
    ∷ "r12d" ∷ "r13d" ∷ "r14d" ∷ "r15d" ∷ "r16d" ∷ "r17d" ∷ "r18d" ∷ "r19d" ∷ "r20d" ∷ "r21d"
    ∷ "r22d" ∷ "r23d" ∷ "r24d" ∷ "r25d" ∷ "r26d" ∷ "r27d" ∷ "r28d" ∷ "r29d" ∷ "r30d" ∷ "r31d" ∷ []

-- `tbl` of the general registers of 64 bits
abbrev names64 : List String
names64 =
    "rax" ∷ "rcx" ∷ "rdx" ∷ "rbx" ∷ "rsp" ∷ "rbp" ∷ "rsi" ∷ "rdi" ∷ "r8" ∷ "r9" ∷ "r10" ∷ "r11"
    ∷ "r12" ∷ "r13" ∷ "r14" ∷ "r15" ∷ "r16" ∷ "r17" ∷ "r18" ∷ "r19" ∷ "r20" ∷ "r21" ∷ "r22" ∷ "r23"
    ∷ "r24" ∷ "r25" ∷ "r26" ∷ "r27" ∷ "r28" ∷ "r29" ∷ "r30" ∷ "r31" ∷ []

-- `tbl` of each other kind
abbrev opmask_names : List String
opmask_names = "k0" ∷ "k1" ∷ "k2" ∷ "k3" ∷ "k4" ∷ "k5" ∷ "k6" ∷ "k7" ∷ []

abbrev tmm_names : List String
tmm_names = "tmm0" ∷ "tmm1" ∷ "tmm2" ∷ "tmm3" ∷ "tmm4" ∷ "tmm5" ∷ "tmm6" ∷ "tmm7" ∷ []

abbrev zmm_names : List String
zmm_names =
    "zmm0" ∷ "zmm1" ∷ "zmm2" ∷ "zmm3" ∷ "zmm4" ∷ "zmm5" ∷ "zmm6" ∷ "zmm7" ∷ "zmm8" ∷ "zmm9"
    ∷ "zmm10" ∷ "zmm11" ∷ "zmm12" ∷ "zmm13" ∷ "zmm14" ∷ "zmm15" ∷ "zmm16" ∷ "zmm17" ∷ "zmm18"
    ∷ "zmm19" ∷ "zmm20" ∷ "zmm21" ∷ "zmm22" ∷ "zmm23" ∷ "zmm24" ∷ "zmm25" ∷ "zmm26" ∷ "zmm27"
    ∷ "zmm28" ∷ "zmm29" ∷ "zmm30" ∷ "zmm31" ∷ []

abbrev ymm_names : List String
ymm_names =
    "ymm0" ∷ "ymm1" ∷ "ymm2" ∷ "ymm3" ∷ "ymm4" ∷ "ymm5" ∷ "ymm6" ∷ "ymm7" ∷ "ymm8" ∷ "ymm9"
    ∷ "ymm10" ∷ "ymm11" ∷ "ymm12" ∷ "ymm13" ∷ "ymm14" ∷ "ymm15" ∷ "ymm16" ∷ "ymm17" ∷ "ymm18"
    ∷ "ymm19" ∷ "ymm20" ∷ "ymm21" ∷ "ymm22" ∷ "ymm23" ∷ "ymm24" ∷ "ymm25" ∷ "ymm26" ∷ "ymm27"
    ∷ "ymm28" ∷ "ymm29" ∷ "ymm30" ∷ "ymm31" ∷ []

abbrev xmm_names : List String
xmm_names =
    "xmm0" ∷ "xmm1" ∷ "xmm2" ∷ "xmm3" ∷ "xmm4" ∷ "xmm5" ∷ "xmm6" ∷ "xmm7" ∷ "xmm8" ∷ "xmm9"
    ∷ "xmm10" ∷ "xmm11" ∷ "xmm12" ∷ "xmm13" ∷ "xmm14" ∷ "xmm15" ∷ "xmm16" ∷ "xmm17" ∷ "xmm18"
    ∷ "xmm19" ∷ "xmm20" ∷ "xmm21" ∷ "xmm22" ∷ "xmm23" ∷ "xmm24" ∷ "xmm25" ∷ "xmm26" ∷ "xmm27"
    ∷ "xmm28" ∷ "xmm29" ∷ "xmm30" ∷ "xmm31" ∷ []

abbrev mmx_names : List String
mmx_names = "mm0" ∷ "mm1" ∷ "mm2" ∷ "mm3" ∷ "mm4" ∷ "mm5" ∷ "mm6" ∷ "mm7" ∷ []

abbrev fpu_names : List String
fpu_names = "st0" ∷ "st1" ∷ "st2" ∷ "st3" ∷ "st4" ∷ "st5" ∷ "st6" ∷ "st7" ∷ []

abbrev bnd_names : List String
bnd_names = "bnd0" ∷ "bnd1" ∷ "bnd2" ∷ "bnd3" ∷ []

unfoldable pub to_string : Operand → Result (Option String)
unfolding get_idx is is_ext8bit
to_string o =
    let idx = get_idx o in
    if is o Kind.bsr 0
    then ok (some "bsr0")
    else if o.kind == Kind.reg
    then (if is_ext8bit o
        then ok (get_elem? ext_names (idx - 4))
        else if o.bit == 8
        then ok (get_elem? names8 idx)
        else if o.bit == 16
        then ok (get_elem? names16 idx)
        else if o.bit == 32
        then ok (get_elem? names32 idx)
        else ok (get_elem? names64 idx))
    else if is o Kind.opmask 0
    then ok (get_elem? opmask_names idx)
    else if is o Kind.tmm 0
    then ok (get_elem? tmm_names idx)
    else if is_zmm o
    then ok (get_elem? zmm_names idx)
    else if is_ymm o
    then ok (get_elem? ymm_names idx)
    else if is_xmm o
    then ok (get_elem? xmm_names idx)
    else if is_mmx o
    then ok (get_elem? mmx_names idx)
    else if is o Kind.fpu 0
    then ok (get_elem? fpu_names idx)
    else if is o Kind.bndreg 0
    then ok (get_elem? bnd_names idx)
    else err ErrorCode.err_internal
