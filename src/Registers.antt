-- ===== src/Registers.antt =====
-- xbyak/xbyak.h: the registers that the macros XBYAK_FOR_EACH_REG_* declare, with XBYAK64: each
-- table holds the C name of the object and the register that it is made as.
pub mod Named
use Prim.Native.String.{String}
use xbyak.Prelude.{true, false, List, [], ◌∷◌, ◌++◌}
use xbyak.Operand.{
  Operand, reg8, reg16, reg32, reg64, mmx, xmm, ymm, zmm, tmm, bsr, opmask, bounds_reg, fpu,
}

abbrev pub Table : Type 0
Table = List (String × Operand)

abbrev pub reg8_table : Table
reg8_table =
    ("al", reg8 0 false)
    ∷ ("cl", reg8 1 false)
    ∷ ("dl", reg8 2 false)
    ∷ ("bl", reg8 3 false)
    ∷ ("ah", reg8 4 false)
    ∷ ("ch", reg8 5 false)
    ∷ ("dh", reg8 6 false)
    ∷ ("bh", reg8 7 false)
    ∷ []

abbrev pub reg16_table : Table
reg16_table =
    ("ax", reg16 0)
    ∷ ("cx", reg16 1)
    ∷ ("dx", reg16 2)
    ∷ ("bx", reg16 3)
    ∷ ("sp", reg16 4)
    ∷ ("bp", reg16 5)
    ∷ ("si", reg16 6)
    ∷ ("di", reg16 7)
    ∷ []

abbrev pub reg32_table : Table
reg32_table =
    ("eax", reg32 0)
    ∷ ("ecx", reg32 1)
    ∷ ("edx", reg32 2)
    ∷ ("ebx", reg32 3)
    ∷ ("esp", reg32 4)
    ∷ ("ebp", reg32 5)
    ∷ ("esi", reg32 6)
    ∷ ("edi", reg32 7)
    ∷ []

abbrev pub mmx_table : Table
mmx_table =
    ("mm0", mmx 0)
    ∷ ("mm1", mmx 1)
    ∷ ("mm2", mmx 2)
    ∷ ("mm3", mmx 3)
    ∷ ("mm4", mmx 4)
    ∷ ("mm5", mmx 5)
    ∷ ("mm6", mmx 6)
    ∷ ("mm7", mmx 7)
    ∷ []

abbrev pub xmm_table : Table
xmm_table =
    ("xmm0", xmm 0)
    ∷ ("xmm1", xmm 1)
    ∷ ("xmm2", xmm 2)
    ∷ ("xmm3", xmm 3)
    ∷ ("xmm4", xmm 4)
    ∷ ("xmm5", xmm 5)
    ∷ ("xmm6", xmm 6)
    ∷ ("xmm7", xmm 7)
    ∷ []

abbrev pub ymm_table : Table
ymm_table =
    ("ymm0", ymm 0)
    ∷ ("ymm1", ymm 1)
    ∷ ("ymm2", ymm 2)
    ∷ ("ymm3", ymm 3)
    ∷ ("ymm4", ymm 4)
    ∷ ("ymm5", ymm 5)
    ∷ ("ymm6", ymm 6)
    ∷ ("ymm7", ymm 7)
    ∷ []

abbrev pub zmm_table : Table
zmm_table =
    ("zmm0", zmm 0)
    ∷ ("zmm1", zmm 1)
    ∷ ("zmm2", zmm 2)
    ∷ ("zmm3", zmm 3)
    ∷ ("zmm4", zmm 4)
    ∷ ("zmm5", zmm 5)
    ∷ ("zmm6", zmm 6)
    ∷ ("zmm7", zmm 7)
    ∷ []

abbrev pub fpu_table : Table
fpu_table =
    ("st0", fpu 0)
    ∷ ("st1", fpu 1)
    ∷ ("st2", fpu 2)
    ∷ ("st3", fpu 3)
    ∷ ("st4", fpu 4)
    ∷ ("st5", fpu 5)
    ∷ ("st6", fpu 6)
    ∷ ("st7", fpu 7)
    ∷ []

abbrev pub opmask_table : Table
opmask_table =
    ("k0", opmask 0)
    ∷ ("k1", opmask 1)
    ∷ ("k2", opmask 2)
    ∷ ("k3", opmask 3)
    ∷ ("k4", opmask 4)
    ∷ ("k5", opmask 5)
    ∷ ("k6", opmask 6)
    ∷ ("k7", opmask 7)
    ∷ []

abbrev pub bounds_table : Table
bounds_table =
    ("bnd0", bounds_reg 0)
    ∷ ("bnd1", bounds_reg 1)
    ∷ ("bnd2", bounds_reg 2)
    ∷ ("bnd3", bounds_reg 3)
    ∷ []

abbrev pub reg8_rex_table : Table
reg8_rex_table =
    ("spl", reg8 4 true) ∷ ("bpl", reg8 5 true) ∷ ("sil", reg8 6 true) ∷ ("dil", reg8 7 true) ∷ []

abbrev pub reg8_ext_table : Table
reg8_ext_table =
    ("r8b", reg8 8 false)
    ∷ ("r9b", reg8 9 false)
    ∷ ("r10b", reg8 10 false)
    ∷ ("r11b", reg8 11 false)
    ∷ ("r12b", reg8 12 false)
    ∷ ("r13b", reg8 13 false)
    ∷ ("r14b", reg8 14 false)
    ∷ ("r15b", reg8 15 false)
    ∷ ("r16b", reg8 16 false)
    ∷ ("r17b", reg8 17 false)
    ∷ ("r18b", reg8 18 false)
    ∷ ("r19b", reg8 19 false)
    ∷ ("r20b", reg8 20 false)
    ∷ ("r21b", reg8 21 false)
    ∷ ("r22b", reg8 22 false)
    ∷ ("r23b", reg8 23 false)
    ∷ ("r24b", reg8 24 false)
    ∷ ("r25b", reg8 25 false)
    ∷ ("r26b", reg8 26 false)
    ∷ ("r27b", reg8 27 false)
    ∷ ("r28b", reg8 28 false)
    ∷ ("r29b", reg8 29 false)
    ∷ ("r30b", reg8 30 false)
    ∷ ("r31b", reg8 31 false)
    ∷ []

abbrev pub reg16_ext_table : Table
reg16_ext_table =
    ("r8w", reg16 8)
    ∷ ("r9w", reg16 9)
    ∷ ("r10w", reg16 10)
    ∷ ("r11w", reg16 11)
    ∷ ("r12w", reg16 12)
    ∷ ("r13w", reg16 13)
    ∷ ("r14w", reg16 14)
    ∷ ("r15w", reg16 15)
    ∷ ("r16w", reg16 16)
    ∷ ("r17w", reg16 17)
    ∷ ("r18w", reg16 18)
    ∷ ("r19w", reg16 19)
    ∷ ("r20w", reg16 20)
    ∷ ("r21w", reg16 21)
    ∷ ("r22w", reg16 22)
    ∷ ("r23w", reg16 23)
    ∷ ("r24w", reg16 24)
    ∷ ("r25w", reg16 25)
    ∷ ("r26w", reg16 26)
    ∷ ("r27w", reg16 27)
    ∷ ("r28w", reg16 28)
    ∷ ("r29w", reg16 29)
    ∷ ("r30w", reg16 30)
    ∷ ("r31w", reg16 31)
    ∷ []

abbrev pub reg32_ext_table : Table
reg32_ext_table =
    ("r8d", reg32 8)
    ∷ ("r9d", reg32 9)
    ∷ ("r10d", reg32 10)
    ∷ ("r11d", reg32 11)
    ∷ ("r12d", reg32 12)
    ∷ ("r13d", reg32 13)
    ∷ ("r14d", reg32 14)
    ∷ ("r15d", reg32 15)
    ∷ ("r16d", reg32 16)
    ∷ ("r17d", reg32 17)
    ∷ ("r18d", reg32 18)
    ∷ ("r19d", reg32 19)
    ∷ ("r20d", reg32 20)
    ∷ ("r21d", reg32 21)
    ∷ ("r22d", reg32 22)
    ∷ ("r23d", reg32 23)
    ∷ ("r24d", reg32 24)
    ∷ ("r25d", reg32 25)
    ∷ ("r26d", reg32 26)
    ∷ ("r27d", reg32 27)
    ∷ ("r28d", reg32 28)
    ∷ ("r29d", reg32 29)
    ∷ ("r30d", reg32 30)
    ∷ ("r31d", reg32 31)
    ∷ []

abbrev pub reg64_table : Table
reg64_table =
    ("rax", reg64 0)
    ∷ ("rcx", reg64 1)
    ∷ ("rdx", reg64 2)
    ∷ ("rbx", reg64 3)
    ∷ ("rsp", reg64 4)
    ∷ ("rbp", reg64 5)
    ∷ ("rsi", reg64 6)
    ∷ ("rdi", reg64 7)
    ∷ ("r8", reg64 8)
    ∷ ("r9", reg64 9)
    ∷ ("r10", reg64 10)
    ∷ ("r11", reg64 11)
    ∷ ("r12", reg64 12)
    ∷ ("r13", reg64 13)
    ∷ ("r14", reg64 14)
    ∷ ("r15", reg64 15)
    ∷ ("r16", reg64 16)
    ∷ ("r17", reg64 17)
    ∷ ("r18", reg64 18)
    ∷ ("r19", reg64 19)
    ∷ ("r20", reg64 20)
    ∷ ("r21", reg64 21)
    ∷ ("r22", reg64 22)
    ∷ ("r23", reg64 23)
    ∷ ("r24", reg64 24)
    ∷ ("r25", reg64 25)
    ∷ ("r26", reg64 26)
    ∷ ("r27", reg64 27)
    ∷ ("r28", reg64 28)
    ∷ ("r29", reg64 29)
    ∷ ("r30", reg64 30)
    ∷ ("r31", reg64 31)
    ∷ []

abbrev pub xmm_ext_table : Table
xmm_ext_table =
    ("xmm8", xmm 8)
    ∷ ("xmm9", xmm 9)
    ∷ ("xmm10", xmm 10)
    ∷ ("xmm11", xmm 11)
    ∷ ("xmm12", xmm 12)
    ∷ ("xmm13", xmm 13)
    ∷ ("xmm14", xmm 14)
    ∷ ("xmm15", xmm 15)
    ∷ ("xmm16", xmm 16)
    ∷ ("xmm17", xmm 17)
    ∷ ("xmm18", xmm 18)
    ∷ ("xmm19", xmm 19)
    ∷ ("xmm20", xmm 20)
    ∷ ("xmm21", xmm 21)
    ∷ ("xmm22", xmm 22)
    ∷ ("xmm23", xmm 23)
    ∷ ("xmm24", xmm 24)
    ∷ ("xmm25", xmm 25)
    ∷ ("xmm26", xmm 26)
    ∷ ("xmm27", xmm 27)
    ∷ ("xmm28", xmm 28)
    ∷ ("xmm29", xmm 29)
    ∷ ("xmm30", xmm 30)
    ∷ ("xmm31", xmm 31)
    ∷ []

abbrev pub ymm_ext_table : Table
ymm_ext_table =
    ("ymm8", ymm 8)
    ∷ ("ymm9", ymm 9)
    ∷ ("ymm10", ymm 10)
    ∷ ("ymm11", ymm 11)
    ∷ ("ymm12", ymm 12)
    ∷ ("ymm13", ymm 13)
    ∷ ("ymm14", ymm 14)
    ∷ ("ymm15", ymm 15)
    ∷ ("ymm16", ymm 16)
    ∷ ("ymm17", ymm 17)
    ∷ ("ymm18", ymm 18)
    ∷ ("ymm19", ymm 19)
    ∷ ("ymm20", ymm 20)
    ∷ ("ymm21", ymm 21)
    ∷ ("ymm22", ymm 22)
    ∷ ("ymm23", ymm 23)
    ∷ ("ymm24", ymm 24)
    ∷ ("ymm25", ymm 25)
    ∷ ("ymm26", ymm 26)
    ∷ ("ymm27", ymm 27)
    ∷ ("ymm28", ymm 28)
    ∷ ("ymm29", ymm 29)
    ∷ ("ymm30", ymm 30)
    ∷ ("ymm31", ymm 31)
    ∷ []

abbrev pub zmm_ext_table : Table
zmm_ext_table =
    ("zmm8", zmm 8)
    ∷ ("zmm9", zmm 9)
    ∷ ("zmm10", zmm 10)
    ∷ ("zmm11", zmm 11)
    ∷ ("zmm12", zmm 12)
    ∷ ("zmm13", zmm 13)
    ∷ ("zmm14", zmm 14)
    ∷ ("zmm15", zmm 15)
    ∷ ("zmm16", zmm 16)
    ∷ ("zmm17", zmm 17)
    ∷ ("zmm18", zmm 18)
    ∷ ("zmm19", zmm 19)
    ∷ ("zmm20", zmm 20)
    ∷ ("zmm21", zmm 21)
    ∷ ("zmm22", zmm 22)
    ∷ ("zmm23", zmm 23)
    ∷ ("zmm24", zmm 24)
    ∷ ("zmm25", zmm 25)
    ∷ ("zmm26", zmm 26)
    ∷ ("zmm27", zmm 27)
    ∷ ("zmm28", zmm 28)
    ∷ ("zmm29", zmm 29)
    ∷ ("zmm30", zmm 30)
    ∷ ("zmm31", zmm 31)
    ∷ []

abbrev pub tmm_table : Table
tmm_table =
    ("tmm0", tmm 0)
    ∷ ("tmm1", tmm 1)
    ∷ ("tmm2", tmm 2)
    ∷ ("tmm3", tmm 3)
    ∷ ("tmm4", tmm 4)
    ∷ ("tmm5", tmm 5)
    ∷ ("tmm6", tmm 6)
    ∷ ("tmm7", tmm 7)
    ∷ []

abbrev pub bsr_table : Table
bsr_table = ("bsr0", bsr 0) ∷ []

-- XBYAK_FOR_EACH_REGISTER, less what is no register (address frames, modifiers, rip, segments).
unfoldable pub all_registers : Table
all_registers =
    reg8_table
    ++ (reg16_table
        ++ (reg32_table
            ++ (mmx_table
                ++ (xmm_table
                    ++ (ymm_table
                        ++ (zmm_table
                            ++ (fpu_table
                                ++ (opmask_table
                                    ++ (bounds_table
                                        ++ (reg8_rex_table
                                            ++ (reg8_ext_table
                                                ++ (reg16_ext_table
                                                    ++ (reg32_ext_table
                                                        ++ (reg64_table
                                                            ++ (xmm_ext_table
                                                            ++ (ymm_ext_table
                                                            ++ (zmm_ext_table
                                                            ++ (tmm_table
                                                            ++ (bsr_table)))))))))))))))))))
