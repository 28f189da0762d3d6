-- ===== src/Nop.antt =====
-- xbyak/xbyak.h: `CodeGenerator::nop` and `CodeGenerator::align`.
pub mod Fill
pub mod Align
use xbyak.Prelude.{
  ℕ, zero, suc, ◌+◌, ◌-◌, ◌%◌, min, bit_and, Bool, true, false, not, ◌&&◌, ◌||◌, ltb, ◌==◌,
  if◌then◌else◌, List, [], ◌∷◌, length, get_or, take, replicate, u64,
}
use xbyak.Err.{ErrorCode, Result, ok, err, throw_if, ◌>>=◌, ◌>>◌}
use xbyak.CodeArray.{CodeArray, Host, db_seq, is_auto_grow, get_curr}

-- The table of the sequences of 1 to 15 bytes, without the zeros that fill the rows up.
abbrev pub nop_tbl : List (List ℕ)
nop_tbl =
    (0x90 ∷ [])
    ∷ (0x66 ∷ 0x90 ∷ [])
    ∷ (0x0F ∷ 0x1F ∷ 0x00 ∷ [])
    ∷ (0x0F ∷ 0x1F ∷ 0x40 ∷ 0x00 ∷ [])
    ∷ (0x0F ∷ 0x1F ∷ 0x44 ∷ 0x00 ∷ 0x00 ∷ [])
    ∷ (0x66 ∷ 0x0F ∷ 0x1F ∷ 0x44 ∷ 0x00 ∷ 0x00 ∷ [])
    ∷ (0x0F ∷ 0x1F ∷ 0x80 ∷ 0x00 ∷ 0x00 ∷ 0x00 ∷ 0x00 ∷ [])
    ∷ (0x0F ∷ 0x1F ∷ 0x84 ∷ 0x00 ∷ 0x00 ∷ 0x00 ∷ 0x00 ∷ 0x00 ∷ [])
    ∷ (0x66 ∷ 0x0F ∷ 0x1F ∷ 0x84 ∷ 0x00 ∷ 0x00 ∷ 0x00 ∷ 0x00 ∷ 0x00 ∷ [])
    ∷ (0x66 ∷ 0x66 ∷ 0x0F ∷ 0x1F ∷ 0x84 ∷ 0x00 ∷ 0x00 ∷ 0x00 ∷ 0x00 ∷ 0x00 ∷ [])
    ∷ (0x66 ∷ 0x66 ∷ 0x66 ∷ 0x0F ∷ 0x1F ∷ 0x84 ∷ 0x00 ∷ 0x00 ∷ 0x00 ∷ 0x00 ∷ 0x00 ∷ [])
    ∷ (0x66 ∷ 0x66 ∷ 0x66 ∷ 0x66 ∷ 0x0F ∷ 0x1F ∷ 0x84 ∷ 0x00 ∷ 0x00 ∷ 0x00 ∷ 0x00 ∷ 0x00 ∷ [])
    ∷ (0x66 ∷ 0x66 ∷ 0x66 ∷ 0x66 ∷ 0x66 ∷ 0x0F ∷ 0x1F ∷ 0x84 ∷ 0x00 ∷ 0x00 ∷ 0x00 ∷ 0x00 ∷ 0x00
        ∷ [])
    ∷ (0x66 ∷ 0x66 ∷ 0x66 ∷ 0x66 ∷ 0x66 ∷ 0x66 ∷ 0x0F ∷ 0x1F ∷ 0x84 ∷ 0x00 ∷ 0x00 ∷ 0x00 ∷ 0x00
        ∷ 0x00 ∷ [])
    ∷ (0x66 ∷ 0x66 ∷ 0x66 ∷ 0x66 ∷ 0x66 ∷ 0x66 ∷ 0x66 ∷ 0x0F ∷ 0x1F ∷ 0x84 ∷ 0x00 ∷ 0x00 ∷ 0x00
        ∷ 0x00 ∷ 0x00 ∷ [])
    ∷ []

-- The `len` bytes of `nopTbl[len - 1]`.
abbrev pub nop_row : ℕ → List ℕ
nop_row len = take len (get_or nop_tbl (len - 1) [])

-- `n`: the number of rows that are used.
abbrev pub row_count : ℕ → ℕ
row_count use_multi_byte_nop = if use_multi_byte_nop == 2 then length nop_tbl else 9

module _ (h : Host) where
  -- The loop `while (size > 0)`: every round serves one byte at least, so `size` rounds are enough.
  unfoldable pub nop_loop : ℕ → ℕ → ℕ → CodeArray → Result CodeArray
  nop_loop n zero size c = ok c
  nop_loop n (suc fuel) zero c = ok c
  nop_loop n (suc fuel) (suc m) c =
      let len = min n (suc m) in db_seq h (nop_row len) c >>= λ c'. nop_loop n fuel (suc m - len) c'

  unfoldable pub nop : ℕ → ℕ → CodeArray → Result CodeArray
  unfolding nop_loop
  nop size use_multi_byte_nop c =
      if use_multi_byte_nop == 0
      then db_seq h (replicate size 0x90) c
      else nop_loop (row_count use_multi_byte_nop) size size c

  unfoldable pub align : ℕ → ℕ → CodeArray → Result CodeArray
  unfolding nop
  align x use_multi_byte_nop c = if x == 1 then ok c else (do
    throw_if (ltb x 1 || not (bit_and x (x - 1) == 0)) ErrorCode.err_bad_align
    throw_if (is_auto_grow c && not (h.page_size % x == 0)) ErrorCode.err_bad_align
    let remain = get_curr c % x
    if remain == 0 then ok c else nop (x - remain) use_multi_byte_nop c)
