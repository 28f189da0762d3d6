-- ===== src/Evex.antt =====
-- xbyak/xbyak.h: `CodeGenerator::evex` and `evexLeg`, the prefixes of four bytes of AVX-512 and of
-- APX. The checks stand before the first byte, so the calls return the bytes that they pass to
-- `db`. `|` of fields that do not overlap is a sum, and `~idx & 15` is `15 - idx % 16`.
pub mod Decode
pub mod Legacy
use xbyak.Prelude.{
  ℕ, ◌+◌, ◌-◌, ◌*◌, ◌%◌, ◌^◌, max, Bool, true, false, not, ◌&&◌, ◌||◌, bit_and, bit_or, has, leb,
  ltb, ◌==◌, if◌then◌else◌, List, [], ◌∷◌, ◌++◌, Option, none, some, flag,
}
use xbyak.Err.{ErrorCode, Result, ok, err, throw_if, ◌>>=◌, ◌>>◌}
use xbyak.Operand.{
  Operand, get_idx, is, is_bit, is_reg, is_xmm, is_ymm, is_zmm, is_simd, is_ext_idx, is_ext_idx2,
}
use xbyak.Flags.{
  t_evex, t_must_evex, t_ew1, t_er_r, t_er_x, t_er_y, t_er_z, t_sae_x, t_sae_y, t_sae_z, t_b16,
  t_b32, t_nx_mask, t_dup, t_n_vl, t_n16, t_w0, t_w1, t_f2, t_f3, t_66, t_zu, t_nd1, t_apx, t_nf,
  get_pp, get_map,
}
use xbyak.Vex.{idx_or_0}

-- EvexModifierRounding::T_SAE
abbrev pub t_sae : ℕ
t_sae = 5

-- verifySAE
unfoldable pub verify_sae : Operand → ℕ → Result (Unit {0})
unfolding is
verify_sae r type =
    throw_if
      (not (
        (has type t_sae_x && is_xmm r)
        || (has type t_sae_y && is_ymm r)
        || (has type t_sae_z && is_zmm r)))
      ErrorCode.err_sae_is_invalid

-- verifyER
unfoldable pub verify_er : Operand → ℕ → Result (Unit {0})
unfolding is
verify_er r type =
    throw_if
      (not (
        (has type t_er_r && is_reg r 96)
        || (has type t_er_x && is_xmm r)
        || (has type t_er_y && is_ymm r)
        || (has type t_er_z && is_zmm r)))
      ErrorCode.err_er_is_invalid

-- verifyDuplicate: at most one of the values differs from 0, up to the values that agree.
unfoldable pub verify_duplicate : ℕ → ℕ → ℕ → ErrorCode → Result ℕ
verify_duplicate a b c e =
    let v = bit_or (bit_or a b) c in
    do
      throw_if ((ltb 0 a && not (a == v)) || (ltb 0 b && not (b == v)) || (ltb 0 c && not (c == v)))
          e
      ok v

-- The members of the optional third operand, 0 where there is none.
abbrev pub rounding_or_0 : Option Operand → ℕ
rounding_or_0 (some v) = v.rounding
rounding_or_0 none = 0

abbrev pub bit_or_0 : Option Operand → ℕ
bit_or_0 (some v) = v.bit
bit_or_0 none = 0

abbrev pub mask_or_0 : Option Operand → ℕ
mask_or_0 (some v) = v.mask
mask_or_0 none = 0

abbrev pub zero_or_false : Option Operand → Bool
zero_or_false (some v) = v.zero_flag
zero_or_false none = false

abbrev pub ext2_or_false : Option Operand → Bool
unfolding is_ext_idx2
ext2_or_false (some v) = is_ext_idx2 v
ext2_or_false none = false

-- The part of evex behind `rounding`: LL, the flag b, and disp8N.
pub record Length : Type 0 where
  pub ll : ℕ
  pub b : Bool
  pub disp8n : ℕ

-- The scale of a displacement of one byte.
unfoldable pub disp8_scale : ℕ → ℕ → Bool → ℕ
disp8_scale type vl b =
    let type' = if has type (t_nx_mask + t_n_vl) then type else bit_or type (bit_or t_n16 t_n_vl) in
    let low = bit_and type' t_nx_mask in
    if b
    then (if bit_and type t_b16 == t_b16 then 2 else if has type t_b32 then 4 else 8)
    else if bit_and type t_nx_mask == t_dup
    then (if vl == 128 then 8 else if vl == 256 then 32 else 64)
    else if low == 0
    then 1
    else 2 ^ (low - 1)
      * (if has type' t_n_vl then (if vl == 512 then 4 else if vl == 256 then 2 else 1) else 1)

unfoldable pub vector_length : Operand → Operand → Option Operand → ℕ → ℕ → Bool → ℕ → Result Length
unfolding verify_sae verify_er disp8_scale
vector_length r base v type rounding b vl =
    let vl' = max (max r.bit base.bit) (max vl (bit_or_0 v)) in
    if rounding == 0
    then ok (record {
      ll = if leb 512 vl' then 2 else if vl' == 256 then 1 else 0;
      b = b;
      disp8n = disp8_scale type vl' b;
    })
    else if rounding == t_sae
    then verify_sae base type >> ok (record { ll = 0; b = true; disp8n = 1 })
    else verify_er base type >> ok (record { ll = rounding - 1; b = true; disp8n = 1 })

-- The index of an address, with its optional high bits.
abbrev x_ext : Option Operand → Bool
unfolding is_ext_idx
x_ext (some x) = is_ext_idx x
x_ext none = false

abbrev x_reg_ext2 : Option Operand → Bool
unfolding is is_ext_idx2
x_reg_ext2 (some x) = is_reg x 0 && is_ext_idx2 x
x_reg_ext2 none = false

-- The arguments of evex that have default values.
pub record EvexArgs : Type 0 where
  pub x : Option Operand
  pub b : Bool
  pub aaa : ℕ
  pub vl : ℕ
  pub hi16_vidx : Bool

abbrev pub default_args : EvexArgs
default_args = record { x = none; b = false; aaa = 0; vl = 0; hi16_vidx = false }

-- The bytes of evex, of the length and the mask that were found.
unfoldable pub evex_bytes :
    Operand → Operand → Option Operand → ℕ → ℕ → EvexArgs → Length → ℕ → List ℕ
unfolding is_ext_idx is_ext_idx2 is get_map get_pp
evex_bytes r base v type code a len aaa =
    let x3 = x_ext a.x || (is_simd base && is_ext_idx2 base) in
    let z = (r.zero_flag || base.zero_flag || zero_or_false v) && not (aaa == 0) in
    let v4 = ext2_or_false v || a.hi16_vidx in
    0x62
    ∷ ((if is_ext_idx r then 0 else 0x80)
        + (if x3 then 0 else 0x40)
        + (if is_ext_idx base then 0 else 0x20)
        + (if is_ext_idx2 r then 0 else 0x10)
        + (if is_reg base 0 && is_ext_idx2 base then 8 else 0)
        + get_map type)
    ∷ ((if has type t_ew1 then 0x80 else 0)
        + (15 - idx_or_0 v % 16) * 8
        + (if x_reg_ext2 a.x then 0 else 4)
        + get_pp type)
    ∷ ((if z then 0x80 else 0)
        + len.ll % 4 * 32
        + (if len.b then 0x10 else 0)
        + (if v4 then 0 else 8)
        + aaa % 8)
    ∷ code
    ∷ []

-- evex: disp8N, and the bytes.
unfoldable pub evex : Operand → Operand → Option Operand → ℕ → ℕ → EvexArgs → Result (ℕ × List ℕ)
unfolding verify_duplicate vector_length evex_bytes
evex r base v type code a = do
  throw_if (not (has type (t_evex + t_must_evex))) ErrorCode.err_evex_is_invalid
  rounding ←
      verify_duplicate r.rounding base.rounding (rounding_or_0 v)
        ErrorCode.err_rounding_is_already_set
  len ← vector_length r base v type rounding a.b a.vl
  aaa ←
      (if a.aaa == 0
        then verify_duplicate base.mask r.mask (mask_or_0 v) ErrorCode.err_opmask_is_already_set
        else ok a.aaa)
  ok (len.disp8n, evex_bytes r base v type code a len aaa)

-- The field pp of evexLeg, from the flags or from the size 16.
unfoldable pub legacy_pp : Operand → Operand → ℕ → ℕ
unfolding is_bit get_pp
legacy_pp r v type =
    if has type (t_f2 + t_f3 + t_66) then get_pp type else flag (is_bit r 16 || is_bit v 16)

-- The field ND: a new destination, or zero upper.
unfoldable pub legacy_nd : Operand → Operand → Operand → ℕ → Bool
unfolding is
legacy_nd r b v type =
    if has type t_zu
    then r.zu || b.zu
    else if has type t_nd1
    then true
    else if has type t_apx
    then false
    else is_reg v 0

-- `enum { NONE = 256 }`: no immediate value, or no condition.
abbrev pub none_imm : ℕ
none_imm = 256

-- The bytes of evexLeg.
unfoldable pub evex_leg_bytes : Operand → Operand → Operand → Operand → ℕ → ℕ → List ℕ
unfolding is_ext_idx is_ext_idx2 is_bit get_idx get_map legacy_pp legacy_nd
evex_leg_bytes r b x v type sc =
    let w = not (has type t_w0) && (is_bit r 64 || is_bit v 64 || has type t_w1) in
    let nf = r.nf || b.nf || x.nf || v.nf in
    let nd = if legacy_nd r b v type then 0x10 else 0 in
    0x62
    ∷ ((if is_ext_idx r then 0 else 0x80)
        + (if is_ext_idx x then 0 else 0x40)
        + (if is_ext_idx b then 0 else 0x20)
        + (if is_ext_idx2 r then 0 else 0x10)
        + (if is_ext_idx2 b then 8 else 0)
        + (if get_map type == 0 then 4 else get_map type))
    ∷ ((if w then 0x80 else 0)
        + (15 - get_idx v % 16) * 8
        + (if is_ext_idx2 x then 0 else 4)
        + legacy_pp r v type)
    ∷ (if sc == none_imm
        then nd + (if is_ext_idx2 v then 0 else 8) + (if nf then 4 else 0)
        else bit_or nd sc)
    ∷ []

-- evexLeg(r, b, x, v, type, sc)
unfoldable pub evex_leg : Operand → Operand → Operand → Operand → ℕ → ℕ → Result (List ℕ)
unfolding evex_leg_bytes
evex_leg r b x v type sc = do
  throw_if (not (has type t_nf) && (r.nf || b.nf || x.nf || v.nf)) ErrorCode.err_invalid_nf
  throw_if (not (has type t_zu) && r.zu) ErrorCode.err_invalid_zu
  ok (evex_leg_bytes r b x v type sc)
