-- ===== src/Operand.antt =====
-- xbyak/xbyak.h: `class Operand` and the register classes derived from it, which add no member.
-- The kinds are flags, and so is the size in bits (a power of two, or 0 where it is not set);
-- `is` and `is_bit` take a set of flags. The model is that of XBYAK64.
-- A member that the C class shares with an address (`Address`) is in that module.

pub mod Kind
pub mod Convert
pub mod Names
pub mod Keeps
use Kind
use xbyak.Prelude.{
  ℕ, ◌+◌, ◌-◌, ◌%◌, ◌≡◌, Bool, true, false, not, ◌&&◌, ◌||◌, bit_and, bit_or, has, leb, ltb, ◌==◌,
  if◌then◌else◌,
}
use xbyak.Err.{ErrorCode, Result, ok, err, throw_if, ◌>>=◌, ◌>>◌}

abbrev pub ext8bit : ℕ
ext8bit = 0x20

-- `idx` has 6 bits, the highest is EXT8BIT (spl, bpl, sil, dil).
pub record Operand : Type 0 where
  pub idx : ℕ
  pub kind : ℕ
  pub bit : ℕ
  pub zero_flag : Bool
  pub mask : ℕ
  pub rounding : ℕ
  pub nf : Bool
  pub zu : Bool

-- Operand(), Reg()
abbrev pub none_reg : Operand
none_reg = record {
  idx = 0;
  kind = 0;
  bit = 0;
  zero_flag = false;
  mask = 0;
  rounding = 0;
  nf = false;
  zu = false;
}

-- Operand(idx, kind, bit), and by it Reg8 to Reg64, Mmx, Xmm, Ymm, Zmm, Tmm, Bsr, Opmask, BoundsReg, Fpu
abbrev pub make_reg : ℕ → ℕ → ℕ → Operand
make_reg idx kind bit = record {
  idx = idx;
  kind = kind;
  bit = bit;
  zero_flag = false;
  mask = 0;
  rounding = 0;
  nf = false;
  zu = false;
}

abbrev pub reg8 : ℕ → Bool → Operand
reg8 idx ext = make_reg (if ext then bit_or idx ext8bit else idx) Kind.reg 8

abbrev pub reg16 : ℕ → Operand
reg16 idx = make_reg idx Kind.reg 16

abbrev pub reg32 : ℕ → Operand
reg32 idx = make_reg idx Kind.reg 32

abbrev pub reg64 : ℕ → Operand
reg64 idx = make_reg idx Kind.reg 64

abbrev pub mmx : ℕ → Operand
mmx idx = make_reg idx Kind.mmx 64

abbrev pub xmm : ℕ → Operand
xmm idx = make_reg idx Kind.xmm 128

abbrev pub ymm : ℕ → Operand
ymm idx = make_reg idx Kind.ymm 256

abbrev pub zmm : ℕ → Operand
zmm idx = make_reg idx Kind.zmm 512

abbrev pub tmm : ℕ → Operand
tmm idx = make_reg idx Kind.tmm 8192

abbrev pub bsr : ℕ → Operand
bsr idx = make_reg idx Kind.bsr 1024

abbrev pub opmask : ℕ → Operand
opmask idx = make_reg idx Kind.opmask 64

abbrev pub bounds_reg : ℕ → Operand
bounds_reg idx = make_reg idx Kind.bndreg 128

abbrev pub fpu : ℕ → Operand
fpu idx = make_reg idx Kind.fpu 32

-- The bit numbered by its weight: `hasIdxBit(3)` is `test_idx 8`.
abbrev pub test_idx : Operand → ℕ → Bool
test_idx o weight = has o.idx weight

-- getIdx: the five bits below EXT8BIT
unfoldable pub get_idx : Operand → ℕ
get_idx o = o.idx % 32

-- is(kind, bit)
unfoldable pub is : Operand → ℕ → ℕ → Bool
is o kind bit = (kind == 0 || has o.kind kind) && (bit == 0 || has o.bit bit)

unfoldable pub is_bit : Operand → ℕ → Bool
is_bit o bit = has o.bit bit

unfoldable pub is_ext8bit : Operand → Bool
is_ext8bit o = has o.idx ext8bit

unfoldable pub is_ext_idx : Operand → Bool
unfolding get_idx
is_ext_idx o = has (get_idx o) 8

unfoldable pub is_ext_idx2 : Operand → Bool
unfolding get_idx
is_ext_idx2 o = has (get_idx o) 16

-- isREG, isMEM, isXMM, isYMM, isZMM, isSIMD, isTMM, isBSR, isOPMASK, isBNDREG, isMMX, isFPU
abbrev pub is_reg : Operand → ℕ → Bool
is_reg o bit = is o Kind.reg bit

abbrev pub is_xmm : Operand → Bool
is_xmm o = is o Kind.xmm 0

abbrev pub is_ymm : Operand → Bool
is_ymm o = is o Kind.ymm 0

abbrev pub is_zmm : Operand → Bool
is_zmm o = is o Kind.zmm 0

abbrev pub is_simd : Operand → Bool
is_simd o = is o (Kind.xmm + Kind.ymm + Kind.zmm) 0

abbrev pub is_mmx : Operand → Bool
is_mmx o = is o Kind.mmx 0

-- hasRex2 of a register
unfoldable pub has_rex2 : Operand → Bool
unfolding is is_ext_idx2
has_rex2 o = is_reg o 0 && is_ext_idx2 o

unfoldable pub has_evex : Operand → Bool
unfolding is is_ext_idx2
has_evex o = is_zmm o || is_ext_idx2 o || not (o.mask == 0) || not (o.rounding == 0)

-- setOpmaskIdx, setRounding
unfoldable pub set_opmask_idx : Operand → ℕ → Result Operand
set_opmask_idx o idx = do
  throw_if (not (o.mask == 0) && not (o.mask == idx)) ErrorCode.err_opmask_is_already_set
  ok (record o { mask = idx })

unfoldable pub set_rounding : Operand → ℕ → Result Operand
set_rounding o idx = do
  throw_if (not (o.rounding == 0) && not (o.rounding == idx)) ErrorCode.err_rounding_is_already_set
  ok (record o { rounding = idx })

-- ah, ch, dh, bh
unfoldable pub is_high8bit : Operand → Bool
unfolding is_bit is_ext8bit get_idx
is_high8bit o = is_bit o 8 && not (is_ext8bit o) && (leb 4 (get_idx o) && leb (get_idx o) 7)
