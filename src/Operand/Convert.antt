-- ===== src/Operand/Convert.antt =====
-- xbyak/xbyak.h: `Operand::setBit`, `Operand::setKind` and the conversions `cvt8` to `cvt512`.
use xbyak.Prelude.{ℕ, ◌+◌, Bool, not, ◌&&◌, ◌||◌, bit_or, bit_and, leb, ltb, ◌==◌, if◌then◌else◌}
use xbyak.Err.{ErrorCode, Result, ok, err, throw_if, ◌>>=◌, ◌>>◌}
use xbyak.Operand.{
  Operand, ext8bit, get_idx, is, is_bit, is_ext8bit, is_reg, reg8, reg16, reg32, reg64, xmm, ymm,
  zmm,
}
use xbyak.Operand.Kind

-- setKind: only for a vector or tile kind
unfoldable pub set_kind : Operand → ℕ → Operand
set_kind o kind =
    if bit_and kind (Kind.xmm + Kind.ymm + Kind.zmm + Kind.tmm) == 0 then o else record o {
      kind = kind;
      bit =
          if kind == Kind.xmm
          then 128
          else if kind == Kind.ymm
          then 256
          else if kind == Kind.zmm
          then 512
          else 8192;
    }

abbrev pub is_size : ℕ → Bool
is_size bit =
    bit == 8
    || (bit == 16
        || (bit == 32
            || (bit == 64 || (bit == 128 || (bit == 256 || (bit == 512 || bit == 8192))))))

-- The kind of the converted register, by its new size.
abbrev kind_of_size : ℕ → ℕ
kind_of_size bit =
    if bit == 128
    then Kind.xmm
    else if bit == 256
    then Kind.ymm
    else if bit == 512
    then Kind.zmm
    else if bit == 8192
    then Kind.tmm
    else Kind.reg

-- The switch of setBit: the new `idx_`. A register has at most 32 numbers, so the check of the
-- number never fails in the 64-bit build.
abbrev pub new_idx : ℕ → ℕ → Result ℕ
new_idx bit idx =
    if bit == 8
    then (do
      throw_if (leb 32 idx) ErrorCode.err_cant_convert
      ok (if leb 4 idx && ltb idx 8 then bit_or idx ext8bit else idx))
    else if bit == 16 || (bit == 32 || bit == 64)
    then (do throw_if (leb 32 idx) ErrorCode.err_cant_convert; ok idx)
    else ok idx

abbrev pub convert : Operand → ℕ → ℕ → Operand
convert o bit idx =
    if leb 128 bit
    then record o { idx = idx; kind = kind_of_size bit; bit = bit }
    else record o { idx = idx; kind = kind_of_size bit; bit = bit; mask = 0; rounding = 0 }

-- Operand::setBit
unfoldable pub set_bit : Operand → ℕ → Result Operand
unfolding get_idx is is_bit is_ext8bit
set_bit o bit =
    if not (is_size bit)
    then err ErrorCode.err_cant_convert
    else if is_bit o bit
    then ok o
    else if is o (Kind.mem + Kind.opmask) 0
    then ok (record o { bit = bit })
    else if is o (Kind.reg + Kind.xmm + Kind.ymm + Kind.zmm + Kind.tmm) 0
    then (let idx = get_idx o in
        do
          throw_if (is_reg o 8 && (leb 4 idx && ltb idx 8) && not (is_ext8bit o))
              ErrorCode.err_cant_convert
          i ← new_idx bit idx
          ok (convert o bit i))
    else err ErrorCode.err_cant_convert

-- Reg::changeBit
unfoldable pub change_bit : Operand → ℕ → Result Operand
unfolding set_bit
change_bit o bit = set_bit o bit

-- Reg::cvt8 to Reg::cvt512: a fresh register of that number.
unfoldable pub cvt8 : Operand → Result Operand
unfolding change_bit
cvt8 o = do r ← change_bit o 8; ok (reg8 (get_idx r) (is_ext8bit r))

unfoldable pub cvt16 : Operand → Result Operand
unfolding change_bit
cvt16 o = do r ← change_bit o 16; ok (reg16 (get_idx r))

unfoldable pub cvt32 : Operand → Result Operand
unfolding change_bit
cvt32 o = do r ← change_bit o 32; ok (reg32 (get_idx r))

unfoldable pub cvt64 : Operand → Result Operand
unfolding change_bit
cvt64 o = do r ← change_bit o 64; ok (reg64 (get_idx r))

unfoldable pub cvt128 : Operand → Result Operand
unfolding change_bit
cvt128 o = do r ← change_bit o 128; ok (xmm (get_idx r))

unfoldable pub cvt256 : Operand → Result Operand
unfolding change_bit
cvt256 o = do r ← change_bit o 256; ok (ymm (get_idx r))

unfoldable pub cvt512 : Operand → Result Operand
unfolding change_bit
cvt512 o = do r ← change_bit o 512; ok (zmm (get_idx r))
