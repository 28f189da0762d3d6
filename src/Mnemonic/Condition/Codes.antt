-- ===== src/Mnemonic/Condition/Codes.antt =====
-- xbyak/xbyak_mnemonic.h: the numbers in the methods that are named for a condition, by the letters
-- of the condition.
use Prim.Native.String.{String}
use xbyak.Prelude.{ℕ, List, [], ◌∷◌}

-- cmovcc: the constants of the forms with two and with three registers.
unfoldable pub cmov_codes : List (String × (ℕ × ℕ))
cmov_codes =
    ("a", (7, 7))
    ∷ ("ae", (3, 3))
    ∷ ("b", (2, 2))
    ∷ ("be", (6, 6))
    ∷ ("c", (2, 2))
    ∷ ("e", (4, 4))
    ∷ ("g", (15, 15))
    ∷ ("ge", (13, 13))
    ∷ ("l", (12, 12))
    ∷ ("le", (14, 14))
    ∷ ("na", (6, 6))
    ∷ ("nae", (2, 2))
    ∷ ("nb", (3, 3))
    ∷ ("nbe", (7, 7))
    ∷ ("nc", (3, 3))
    ∷ ("ne", (5, 5))
    ∷ ("ng", (14, 14))
    ∷ ("nge", (12, 12))
    ∷ ("nl", (13, 13))
    ∷ ("nle", (15, 15))
    ∷ ("no", (1, 1))
    ∷ ("np", (11, 11))
    ∷ ("ns", (9, 9))
    ∷ ("nz", (5, 5))
    ∷ ("o", (0, 0))
    ∷ ("p", (10, 10))
    ∷ ("pe", (10, 10))
    ∷ ("po", (11, 11))
    ∷ ("s", (8, 8))
    ∷ ("z", (4, 4))
    ∷ []

-- setcc
unfoldable pub set_codes : List (String × ℕ)
set_codes =
    ("a", 7)
    ∷ ("ae", 3)
    ∷ ("b", 2)
    ∷ ("be", 6)
    ∷ ("c", 2)
    ∷ ("e", 4)
    ∷ ("g", 15)
    ∷ ("ge", 13)
    ∷ ("l", 12)
    ∷ ("le", 14)
    ∷ ("na", 6)
    ∷ ("nae", 2)
    ∷ ("nb", 3)
    ∷ ("nbe", 7)
    ∷ ("nc", 3)
    ∷ ("ne", 5)
    ∷ ("ng", 14)
    ∷ ("nge", 12)
    ∷ ("nl", 13)
    ∷ ("nle", 15)
    ∷ ("no", 1)
    ∷ ("np", 11)
    ∷ ("ns", 9)
    ∷ ("nz", 5)
    ∷ ("o", 0)
    ∷ ("p", 10)
    ∷ ("pe", 10)
    ∷ ("po", 11)
    ∷ ("s", 8)
    ∷ ("z", 4)
    ∷ []

-- jcc: the short and the long opcode, the same in the methods of a name.
unfoldable pub jcc_codes : List (String × (ℕ × ℕ))
jcc_codes =
    ("a", (0x77, 0x87))
    ∷ ("ae", (0x73, 0x83))
    ∷ ("b", (0x72, 0x82))
    ∷ ("be", (0x76, 0x86))
    ∷ ("c", (0x72, 0x82))
    ∷ ("e", (0x74, 0x84))
    ∷ ("g", (0x7F, 0x8F))
    ∷ ("ge", (0x7D, 0x8D))
    ∷ ("l", (0x7C, 0x8C))
    ∷ ("le", (0x7E, 0x8E))
    ∷ ("na", (0x76, 0x86))
    ∷ ("nae", (0x72, 0x82))
    ∷ ("nb", (0x73, 0x83))
    ∷ ("nbe", (0x77, 0x87))
    ∷ ("nc", (0x73, 0x83))
    ∷ ("ne", (0x75, 0x85))
    ∷ ("ng", (0x7E, 0x8E))
    ∷ ("nge", (0x7C, 0x8C))
    ∷ ("nl", (0x7D, 0x8D))
    ∷ ("nle", (0x7F, 0x8F))
    ∷ ("no", (0x71, 0x81))
    ∷ ("np", (0x7B, 0x8B))
    ∷ ("ns", (0x79, 0x89))
    ∷ ("nz", (0x75, 0x85))
    ∷ ("o", (0x70, 0x80))
    ∷ ("p", (0x7A, 0x8A))
    ∷ ("pe", (0x7A, 0x8A))
    ∷ ("po", (0x7B, 0x8B))
    ∷ ("s", (0x78, 0x88))
    ∷ ("z", (0x74, 0x84))
    ∷ []

-- ccmpcc: the constants of the forms with a constant and with two operands.
unfoldable pub ccmp_codes : List (String × (ℕ × ℕ))
ccmp_codes =
    ("a", (7, 7))
    ∷ ("ae", (3, 3))
    ∷ ("b", (2, 2))
    ∷ ("be", (6, 6))
    ∷ ("c", (2, 2))
    ∷ ("e", (4, 4))
    ∷ ("f", (11, 11))
    ∷ ("g", (15, 15))
    ∷ ("ge", (13, 13))
    ∷ ("l", (12, 12))
    ∷ ("le", (14, 14))
    ∷ ("na", (6, 6))
    ∷ ("nae", (2, 2))
    ∷ ("nb", (3, 3))
    ∷ ("nbe", (7, 7))
    ∷ ("nc", (3, 3))
    ∷ ("ne", (5, 5))
    ∷ ("ng", (14, 14))
    ∷ ("nge", (12, 12))
    ∷ ("nl", (13, 13))
    ∷ ("nle", (15, 15))
    ∷ ("no", (1, 1))
    ∷ ("ns", (9, 9))
    ∷ ("nz", (5, 5))
    ∷ ("o", (0, 0))
    ∷ ("s", (8, 8))
    ∷ ("t", (10, 10))
    ∷ ("z", (4, 4))
    ∷ []

-- ctestcc: the constants of the forms with two operands and with a constant.
unfoldable pub ctest_codes : List (String × (ℕ × ℕ))
ctest_codes =
    ("a", (7, 7))
    ∷ ("ae", (3, 3))
    ∷ ("b", (2, 2))
    ∷ ("be", (6, 6))
    ∷ ("c", (2, 2))
    ∷ ("e", (4, 4))
    ∷ ("f", (11, 11))
    ∷ ("g", (15, 15))
    ∷ ("ge", (13, 13))
    ∷ ("l", (12, 12))
    ∷ ("le", (14, 14))
    ∷ ("na", (6, 6))
    ∷ ("nae", (2, 2))
    ∷ ("nb", (3, 3))
    ∷ ("nbe", (7, 7))
    ∷ ("nc", (3, 3))
    ∷ ("ne", (5, 5))
    ∷ ("ng", (14, 14))
    ∷ ("nge", (12, 12))
    ∷ ("nl", (13, 13))
    ∷ ("nle", (15, 15))
    ∷ ("no", (1, 1))
    ∷ ("ns", (9, 9))
    ∷ ("nz", (5, 5))
    ∷ ("o", (0, 0))
    ∷ ("s", (8, 8))
    ∷ ("t", (10, 10))
    ∷ ("z", (4, 4))
    ∷ []

-- cfcmovcc: the opcodes of the forms with two and with three operands.
unfoldable pub cfcmov_codes : List (String × (ℕ × ℕ))
cfcmov_codes =
    ("b", (0x42, 0x42))
    ∷ ("be", (0x46, 0x46))
    ∷ ("l", (0x4C, 0x4C))
    ∷ ("le", (0x4E, 0x4E))
    ∷ ("nb", (0x43, 0x43))
    ∷ ("nbe", (0x47, 0x47))
    ∷ ("nl", (0x4D, 0x4D))
    ∷ ("nle", (0x4F, 0x4F))
    ∷ ("no", (0x41, 0x41))
    ∷ ("np", (0x4B, 0x4B))
    ∷ ("ns", (0x49, 0x49))
    ∷ ("nz", (0x45, 0x45))
    ∷ ("o", (0x40, 0x40))
    ∷ ("p", (0x4A, 0x4A))
    ∷ ("s", (0x48, 0x48))
    ∷ ("z", (0x44, 0x44))
    ∷ []
