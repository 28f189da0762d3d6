-- ===== src/RegMem.antt =====
-- xbyak/xbyak.h: an argument of type `Operand` that can be a register or an address: the members
-- of `class Operand` that the instruction formats read of it.
use xbyak.Prelude.{ℕ, Bool, true, false, not, ◌&&◌, ◌||◌, has, leb, ◌==◌}
use xbyak.Err.{ErrorCode, Result, ok, throw_if, ◌>>◌}
use xbyak.Operand.{Operand, none_reg, get_idx, has_rex2}
use xbyak.Operand.Kind
use xbyak.RegExp.{Address}
use xbyak.Rex.{address_has_rex2}

pub data RegMem : Type 0 where
  in_reg : Operand → RegMem
  in_mem : Address → RegMem

-- Operand()
abbrev pub none_op : RegMem
none_op = in_reg none_reg

abbrev pub kind_of : RegMem → ℕ
kind_of (in_reg r) = r.kind
kind_of (in_mem a) = Kind.mem

abbrev pub bit_of : RegMem → ℕ
bit_of (in_reg r) = r.bit
bit_of (in_mem a) = a.bit

-- getIdx: an address has the number 0.
abbrev pub idx_of : RegMem → ℕ
unfolding get_idx
idx_of (in_reg r) = get_idx r
idx_of (in_mem a) = 0

-- is(kind, bit)
unfoldable pub op_is : RegMem → ℕ → ℕ → Bool
op_is o kind bit = (kind == 0 || has (kind_of o) kind) && (bit == 0 || has (bit_of o) bit)

-- isMEM: the kind of a register is not MEM.
abbrev pub is_mem : RegMem → Bool
is_mem (in_reg r) = false
is_mem (in_mem a) = true

abbrev pub op_is_bit : RegMem → ℕ → Bool
op_is_bit o bit = has (bit_of o) bit

abbrev pub op_is_reg : RegMem → ℕ → Bool
unfolding op_is
op_is_reg o bit = op_is o Kind.reg bit

abbrev pub op_is_xmm : RegMem → Bool
unfolding op_is
op_is_xmm o = op_is o Kind.xmm 0

-- Operand::hasRex2 of both kinds of operand
unfoldable pub op_has_rex2 : RegMem → Bool
unfolding has_rex2 address_has_rex2
op_has_rex2 (in_reg r) = has_rex2 r
op_has_rex2 (in_mem a) = address_has_rex2 a

-- hasRex2NFZU: the operators that set NF and ZU return registers.
unfoldable pub has_rex2_nfzu : RegMem → Bool
unfolding has_rex2 address_has_rex2
has_rex2_nfzu (in_reg r) = has_rex2 r || r.nf || r.zu
has_rex2_nfzu (in_mem a) = address_has_rex2 a

-- hasZero
abbrev pub op_has_zero : RegMem → Bool
op_has_zero (in_reg r) = r.zero_flag
op_has_zero (in_mem a) = a.zero_flag

-- isValidSSE: the registers above xmm15 are for EVEX only.
unfoldable pub is_valid_sse : RegMem → Bool
unfolding op_is
is_valid_sse o = not (op_is_xmm o && leb 16 (idx_of o))

-- `address | k`, by setOpmaskIdx
unfoldable pub address_set_opmask_idx : Address → ℕ → Result Address
address_set_opmask_idx a idx = do
  throw_if (not (a.mask == 0) && not (a.mask == idx)) ErrorCode.err_opmask_is_already_set
  ok (record a { mask = idx })
