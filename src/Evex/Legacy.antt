-- ===== src/Evex/Legacy.antt =====
-- The processor's reading of the prefix that `evexLeg` writes.
use xbyak.Prelude.{
  ℕ, ◌+◌, ◌-◌, ◌*◌, ◌/◌, ◌%◌, Bool, not, ◌&&◌, ◌||◌, has, ◌==◌, if◌then◌else◌, List, [], ◌∷◌,
  Option, none, some, flag,
}
use xbyak.Flags.{t_w0, t_w1, get_map}
use xbyak.Operand.{Operand, get_idx, is_bit}
use xbyak.Evex.{legacy_pp, legacy_nd}

-- The fields of the prefix of APX. `r`, `x` and `b` are the bits 3 and 4 of the numbers, `v` is the
-- number of the new destination, `nd` says that there is one, `nf` that the flags are kept.
pub record ApxFields : Type 0 where
  pub r : ℕ
  pub x : ℕ
  pub b : ℕ
  pub opcode_map : ℕ
  pub w : ℕ
  pub v : ℕ
  pub pp : ℕ
  pub nd : ℕ
  pub nf : ℕ

abbrev fields : ℕ → ℕ → ℕ → ApxFields
fields p q s = record {
  r = (1 - p / 128 % 2) + (1 - p / 16 % 2) * 2;
  x = (1 - p / 64 % 2) + (1 - q / 4 % 2) * 2;
  b = (1 - p / 32 % 2) + p / 8 % 2 * 2;
  opcode_map = p % 8;
  w = q / 128 % 2;
  v = (15 - q / 8 % 16) + (1 - s / 8 % 2) * 16;
  pp = q % 4;
  nd = s / 16 % 2;
  nf = s / 4 % 2;
}

abbrev pub read_apx : List ℕ → Option ApxFields
read_apx (e ∷ p ∷ q ∷ s ∷ []) = if e == 0x62 then some (fields p q s) else none
read_apx _ = none

abbrev pub any_nf : Operand → Operand → Operand → Operand → Bool
any_nf r b x v = r.nf || b.nf || x.nf || v.nf

-- What is meant by the call.
abbrev pub apx_meant : Operand → Operand → Operand → Operand → ℕ → ApxFields
unfolding get_idx get_map is_bit legacy_pp legacy_nd
apx_meant reg base x v type = record {
  r = get_idx reg / 8;
  x = get_idx x / 8;
  b = get_idx base / 8;
  opcode_map = if get_map type == 0 then 4 else get_map type;
  w = flag (not (has type t_w0) && (is_bit reg 64 || is_bit v 64 || has type t_w1));
  v = get_idx v;
  pp = legacy_pp reg v type;
  nd = flag (legacy_nd reg base v type);
  nf = flag (any_nf reg base x v);
}
