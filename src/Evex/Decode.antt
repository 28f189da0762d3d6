-- ===== src/Evex/Decode.antt =====
-- The processor's reading of the prefix that `evex` writes for registers.
use xbyak.Prelude.{
  ℕ, ◌+◌, ◌-◌, ◌*◌, ◌/◌, ◌%◌, ◌<◌, ◌≡◌, refl, max, arith, false, not, ◌&&◌, ◌||◌, leb, has, ◌==◌,
  if◌then◌else◌, List, [], ◌∷◌, Option, none, some, flag, has-digit8, has-digit16,
}
use xbyak.Flags.{t_ew1, get_pp, get_map}
use xbyak.Operand.{Operand, get_idx, is_ext_idx, is_ext_idx2}
use xbyak.Vex.{idx_or_0}
use xbyak.Evex.{
  disp8_scale, Length, bit_or_0, rounding_or_0, mask_or_0, zero_or_false, ext2_or_false,
}

-- The fields, and what follows them. `r` and `rm` are the bits 3 and 4 of the numbers of the
-- field reg and of a vector register in r/m, `v` is the number of the third operand.
pub record EvexFields : Type 0 where
  pub r : ℕ
  pub rm : ℕ
  pub opcode_map : ℕ
  pub w : ℕ
  pub v : ℕ
  pub pp : ℕ
  pub z : ℕ
  pub ll : ℕ
  pub b : ℕ
  pub aaa : ℕ
  pub rest : List ℕ

abbrev fields : ℕ → ℕ → ℕ → List ℕ → EvexFields
fields p q s rest = record {
  r = (1 - p / 128 % 2) + (1 - p / 16 % 2) * 2;
  rm = (1 - p / 32 % 2) + (1 - p / 64 % 2) * 2;
  opcode_map = p % 8;
  w = q / 128 % 2;
  v = (15 - q / 8 % 16) + (1 - s / 8 % 2) * 16;
  pp = q % 4;
  z = s / 128 % 2;
  ll = s / 32 % 4;
  b = s / 16 % 2;
  aaa = s % 8;
  rest = rest;
}

abbrev pub read_evex : List ℕ → Option EvexFields
read_evex (e ∷ p ∷ q ∷ s ∷ rest) = if e == 0x62 then some (fields p q s rest) else none
read_evex _ = none

-- What is meant by the length and the mask that were found.
abbrev pub evex_meant : Operand → Operand → Option Operand → ℕ → ℕ → Length → ℕ → EvexFields
unfolding get_idx get_map get_pp
evex_meant reg base v type code len aaa = record {
  r = get_idx reg / 8;
  rm = get_idx base / 8;
  opcode_map = get_map type;
  w = flag (has type t_ew1);
  v = idx_or_0 v;
  pp = get_pp type;
  z = flag ((reg.zero_flag || base.zero_flag || zero_or_false v) && not (aaa == 0));
  ll = len.ll % 4;
  b = flag len.b;
  aaa = aaa % 8;
  rest = code ∷ [];
}

-- The two high bits of a number.
pub digits : (o : Operand) → flag (is_ext_idx o) + flag (is_ext_idx2 o) * 2 ≡ get_idx o / 8
unfolding is_ext_idx is_ext_idx2 get_idx
digits o =
    let low : get_idx o < 32 = omega arith in
    omega (arith, has-digit8 (get_idx o) low, has-digit16 (get_idx o) low)

pub v_digits : (v : Option Operand) → idx_or_0 v % 16 + flag (ext2_or_false v) * 16 ≡ idx_or_0 v
unfolding is_ext_idx2 get_idx
v_digits (some o) = omega (arith, has-digit16 (get_idx o) (omega arith))
v_digits none = refl

-- The length of registers without a rounding mode.
abbrev pub plain_length : Operand → Operand → Option Operand → ℕ → Length
unfolding disp8_scale
plain_length r base v type =
    let n = max (max r.bit base.bit) (max 0 (bit_or_0 v)) in
    record {
      ll = if leb 512 n then 2 else if n == 256 then 1 else 0;
      b = false;
      disp8n = disp8_scale type n false;
    }

-- No operand has a rounding mode, and only the destination has a mask, a field of three bits.
pub record IsPlain (r base : Operand) (v : Option Operand) : Type 0 where
  pub in_field : r.mask < 8
  pub no_r : r.rounding ≡ 0
  pub no_base : base.rounding ≡ 0
  pub no_v : rounding_or_0 v ≡ 0
  pub unmasked_base : base.mask ≡ 0
  pub unmasked_v : mask_or_0 v ≡ 0
