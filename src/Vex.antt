-- ===== src/Vex.antt =====
-- xbyak/xbyak.h: `CodeGenerator::vex`, the prefix of the AVX instructions with their opcode.
-- The checks stand before the first byte, so the call returns the bytes that it passes to `db`.
-- `|` of fields that do not overlap is a sum, and `~idx & 15` is `15 - idx % 16`.
pub mod Decode
use xbyak.Prelude.{
  ℕ, ◌+◌, ◌-◌, ◌*◌, ◌%◌, Bool, true, false, not, ◌&&◌, ◌||◌, bit_or, has, leb, if◌then◌else◌, List,
  [], ◌∷◌, ◌++◌, Option, none, some,
}
use xbyak.Err.{ErrorCode, Result, ok, err, throw_if, ◌>>=◌, ◌>>◌}
use xbyak.Operand.{Operand, get_idx, is_ext_idx, is, is_ymm}
use xbyak.Flags.{t_0f, t_l1, t_w1, get_pp, get_map}

-- `v ? v->getIdx() : 0`
abbrev pub idx_or_0 : Option Operand → ℕ
unfolding get_idx
idx_or_0 (some v) = get_idx v
idx_or_0 none = 0

-- The last byte of the prefix without W: the third operand inverted, L and pp.
abbrev pub vvvv : Operand → Option Operand → ℕ → ℕ
unfolding is get_pp
vvvv r v type =
    (15 - idx_or_0 v % 16) * 8 + (if has type t_l1 || is_ymm r then 4 else 0) + get_pp type

-- The two forms of the prefix.
unfoldable pub vex_prefix : Operand → Operand → Option Operand → ℕ → Bool → List ℕ
unfolding is_ext_idx get_idx is get_pp get_map
vex_prefix r base v type x =
    if not (is_ext_idx base) && not x && not (has type t_w1) && has type t_0f
    then 0xC5 ∷ ((if is_ext_idx r then 0 else 0x80) + vvvv r v type) ∷ []
    else 0xC4
      ∷ ((if is_ext_idx r then 0 else 0x80)
          + (if x then 0 else 0x40)
          + (if is_ext_idx base then 0 else 0x20)
          + get_map type)
      ∷ ((if has type t_w1 then 0x80 else 0) + vvvv r v type)
      ∷ []

-- vex(reg, base, v, type, code, x)
unfoldable pub vex : Operand → Operand → Option Operand → ℕ → ℕ → Bool → Result (List ℕ)
unfolding vex_prefix get_idx
vex r base v type code x = do
  throw_if (leb 16 (bit_or (bit_or (idx_or_0 v) (get_idx r)) (get_idx base)))
      ErrorCode.err_bad_combination
  ok (vex_prefix r base v type x ++ code ∷ [])
