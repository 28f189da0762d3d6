-- ===== src/Vex/Decode.antt =====
-- The processor's reading of the prefix that `vex` writes.
use xbyak.Prelude.{
  ℕ, ◌+◌, ◌-◌, ◌/◌, ◌%◌, ◌<◌, ◌≡◌, refl, ap, ◌⊎◌, inl, inr, Bool-cases, arith, Bool, true, false,
  not, ◌&&◌, ◌||◌, bit_or, leb, has, ◌==◌, if◌then◌else◌, List, [], ◌∷◌, ◌++◌, Option, none, some,
  flag, has-digit8, leb-bit_or, bit_or-small,
}
use xbyak.Err.{ErrorCode, ok, err}
use xbyak.Flags.{t_0f, t_l1, t_w1, t_map5, t_map6, get_pp, get_map}
use xbyak.Operand.{Operand, get_idx, is_ext_idx, is, is_ymm}
use xbyak.Vex.{vex, vex_prefix, vvvv, idx_or_0}

-- The fields of the prefix, and what follows it. `r`, `x` and `b` are the bits 3 of the numbers of
-- the field reg, of the index and of r/m, `v` is the number of the third operand.
pub record VexFields : Type 0 where
  pub r : ℕ
  pub x : ℕ
  pub b : ℕ
  pub opcode_map : ℕ
  pub w : ℕ
  pub v : ℕ
  pub l : ℕ
  pub pp : ℕ
  pub rest : List ℕ

abbrev read_short : ℕ → List ℕ → VexFields
read_short p rest = record {
  r = 1 - p / 128 % 2;
  x = 0;
  b = 0;
  opcode_map = 1;
  w = 0;
  v = 15 - p / 8 % 16;
  l = p / 4 % 2;
  pp = p % 4;
  rest = rest;
}

abbrev read_long : ℕ → ℕ → List ℕ → VexFields
read_long q p rest = record {
  r = 1 - q / 128 % 2;
  x = 1 - q / 64 % 2;
  b = 1 - q / 32 % 2;
  opcode_map = q % 32;
  w = p / 128 % 2;
  v = 15 - p / 8 % 16;
  l = p / 4 % 2;
  pp = p % 4;
  rest = rest;
}

-- 0xC5 has one more byte, 0xC4 has two.
abbrev pub read_vex : List ℕ → Option VexFields
read_vex (e ∷ p ∷ []) = if e == 0xC5 then some (read_short p []) else none
read_vex (e ∷ q ∷ p ∷ rest) =
    if e == 0xC5
    then some (read_short q (p ∷ rest))
    else if e == 0xC4
    then some (read_long q p rest)
    else none
read_vex _ = none

-- What is meant by the call.
abbrev pub vex_meant : Operand → Operand → Option Operand → ℕ → ℕ → Bool → VexFields
unfolding get_idx is get_map get_pp
vex_meant reg base v type code x = record {
  r = get_idx reg / 8;
  x = flag x;
  b = get_idx base / 8;
  opcode_map = get_map type;
  w = flag (has type t_w1);
  v = idx_or_0 v;
  l = flag (has type t_l1 || is_ymm reg);
  pp = get_pp type;
  rest = code ∷ [];
}

pub get_pp_small : (type : ℕ) → get_pp type < 4
unfolding get_pp
get_pp_small type = ground arith

pub get_map_small : (type : ℕ) → get_map type < 7
unfolding get_map
get_map_small type = ground arith

same_fields :
    (f : VexFields) {r x b m w v l p : ℕ} {rest : List ℕ}
    → f.r ≡ r
    → f.x ≡ x
    → f.b ≡ b
    → f.opcode_map ≡ m
    → f.w ≡ w
    → f.v ≡ v
    → f.l ≡ l
    → f.pp ≡ p
    → f.rest ≡ rest
    → f ≡ record { r = r; x = x; b = b; opcode_map = m; w = w; v = v; l = l; pp = p; rest = rest }
same_fields f h1 h2 h3 h4 h5 h6 h7 h8 h9 = cc

-- The conditions on the operands of a prefix VEX.
abbrev pub AreLow : Operand → Operand → Option Operand → Type 0
unfolding get_idx
AreLow reg base v = (get_idx reg < 16) × (get_idx base < 16) × (idx_or_0 v < 16)

-- A bit that is stored inverted.
digit : (o : Operand) → get_idx o < 16 → flag (is_ext_idx o) ≡ get_idx o / 8
unfolding is_ext_idx
digit o low = omega (arith, has-digit8 (get_idx o) (omega arith))

-- The condition for the short form.
abbrev IsShort : Operand → ℕ → Bool → Type 0
unfolding is_ext_idx get_idx
IsShort base type x =
    (not (is_ext_idx base) && not x && not (has type t_w1) && has type t_0f) ≡ true

short-Reads :
    (reg base : Operand) (v : Option Operand) (type code : ℕ) (x : Bool)
    → AreLow reg base v
    → IsShort base type x
    → has type t_map5 ≡ false
    → has type t_map6 ≡ false
    → read_short ((if is_ext_idx reg then 0 else 0x80) + vvvv reg v type) (code ∷ [])
      ≡ vex_meant reg base v type code x
unfolding get_idx is get_pp get_map is_ext_idx
short-Reads reg base v type code x low short no5 no6 =
    let e = digit reg low.0 in
    let d = digit base low.1 in
    let p = get_pp_small type in
    same_fields _ (ground (arith, e, p, low)) (ground (arith, short)) (ground (arith, short, d))
      (ground (arith, short, no5, no6)) (ground (arith, short)) (ground (arith, e, p, low))
      (ground (arith, e, p, low)) (ground (arith, e, p, low)) refl

long-Reads :
    (reg base : Operand) (v : Option Operand) (type code : ℕ) (x : Bool)
    → AreLow reg base v
    → read_long
        ((if is_ext_idx reg then 0 else 0x80)
          + (if x then 0 else 0x40)
          + (if is_ext_idx base then 0 else 0x20)
          + get_map type)
        ((if has type t_w1 then 0x80 else 0) + vvvv reg v type)
        (code ∷ [])
      ≡ vex_meant reg base v type code x
unfolding get_idx is get_pp get_map
long-Reads reg base v type code x low =
    let e = digit reg low.0 in
    let d = digit base low.1 in
    let p = get_pp_small type in
    let m = get_map_small type in
    same_fields _ (ground (arith, e, d, m, low)) (ground (arith, e, d, m, low))
      (ground (arith, e, d, m, low)) (ground (arith, e, d, m, low)) (ground (arith, e, p, low))
      (ground (arith, p, low)) (ground (arith, p, low)) (ground (arith, p, low)) refl

vex_prefix-Reads :
    (reg base : Operand) (v : Option Operand) (type code : ℕ) (x : Bool)
    → AreLow reg base v
    → has type t_map5 ≡ false
    → has type t_map6 ≡ false
    → read_vex (vex_prefix reg base v type x ++ code ∷ []) ≡ some (vex_meant reg base v type code x)
unfolding vex_prefix get_idx get_map is get_pp
vex_prefix-Reads reg base v type code x low no5 no6 =
    elim (Bool-cases (not (is_ext_idx base) && not x && not (has type t_w1) && has type t_0f)) [
      | inl short ↦ rw short (ap some (short-Reads reg base v type code x low short no5 no6))
      | inr long ↦ rw long (ap some (long-Reads reg base v type code x low))
    ]

-- The test of `vex` on the three numbers: they are all below 16, or it throws.
numbers-cases :
    (reg base : Operand) (v : Option Operand)
    → (AreLow reg base v
        × (leb 16 (bit_or (bit_or (idx_or_0 v) (get_idx reg)) (get_idx base)) ≡ false))
      ⊎ ((¬ AreLow reg base v)
          × (leb 16 (bit_or (bit_or (idx_or_0 v) (get_idx reg)) (get_idx base)) ≡ true))
unfolding get_idx
numbers-cases reg base v =
    let n = idx_or_0 v in
    let small = idx_or_0_small v in
    let outer =
      leb-bit_or (bit_or n (get_idx reg)) (get_idx base)
        (bit_or-small n (get_idx reg) small (omega arith)) (omega arith) in
    let inner = leb-bit_or n (get_idx reg) small (omega arith) in
    elim (Bool-cases (leb 16 (bit_or (bit_or n (get_idx reg)) (get_idx base)))) [
      | inl high ↦ inr (λ low. ground (arith, high, outer, inner, low), high)
      | inr low ↦ inl (
        (
          ground (arith, low, outer, inner),
          ground (arith, low, outer, inner),
          ground (arith, low, outer, inner),
        ),
        low,
      )
    ]
  where
    idx_or_0_small : (o : Option Operand) → idx_or_0 o < 32
    idx_or_0_small (some r) = omega arith
    idx_or_0_small none = omega arith

-- For an opcode outside of the maps 5 and 6: if vex returns, the three numbers are below 16, and
-- the processor reads from the bytes the high bits of the registers, the third operand, the map, W,
-- L and pp that were meant, whichever of the two forms was chosen, and then the opcode. If it
-- throws, it throws ERR_BAD_COMBINATION and one of the numbers is 16 or more.
pub vex-Reads :
    (reg base : Operand) (v : Option Operand) (type code : ℕ) (x : Bool)
    → has type t_map5 ≡ false
    → has type t_map6 ≡ false
    → (AreLow reg base v
        × ((bytes : List ℕ) × (vex reg base v type code x ≡ ok bytes)
            × (read_vex bytes ≡ some (vex_meant reg base v type code x))))
      ⊎ ((¬ AreLow reg base v) × (vex reg base v type code x ≡ err ErrorCode.err_bad_combination))
unfolding vex
vex-Reads reg base v type code x no5 no6 = elim (numbers-cases reg base v) [
  | inl (low, passes) ↦ inl (
    low,
    (
      vex_prefix reg base v type x ++ code ∷ [],
      rw passes refl,
      vex_prefix-Reads reg base v type code x low no5 no6,
    ),
  )
  | inr (high, fails) ↦ inr (high, rw fails refl)
]
