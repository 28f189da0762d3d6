-- ===== src/RegExp.antt =====
-- xbyak/xbyak.h: `class RegExp`, the expression `base + index * scale + disp` of an address, its
-- operators, and the constructor of `class Address`. A pointer to a `Label` is its number (as in
-- LabelManager), `disp_` is a word of 64 bits. The model is that of XBYAK64.
pub mod Meaning
use xbyak.Prelude.{
  ℕ, ◌+◌, ◌-◌, Bool, true, false, not, ◌&&◌, ◌||◌, has, ltb, leb, ◌==◌, if◌then◌else◌, Option, none,
  some, u64, sub64,
}
use xbyak.Err.{ErrorCode, Result, ok, err, throw_if, ◌>>=◌, ◌>>◌}
use xbyak.Operand.{Operand, none_reg, get_idx, is, is_bit, is_reg}
use xbyak.Operand.Kind

pub record RegExp : Type 0 where
  pub base : Operand
  pub index : Operand
  pub scale : ℕ
  pub disp : ℕ
  pub label : Option ℕ
  pub rip : Bool
  pub as_ptr : Bool

-- `enum { i32e = 32 | 64 }`
abbrev pub i32e : ℕ
i32e = 96

-- Operand::ESP
abbrev pub esp : ℕ
esp = 4

abbrev pub is_some : Option ℕ → Bool
is_some none = false
is_some (some p) = true

abbrev pub has_bit : Operand → Bool
has_bit r = not (r.bit == 0)

-- RegExp(disp), RegExp(addr) and RegExp(rip)
abbrev pub of_disp : ℕ → RegExp
of_disp disp = record {
  base = none_reg;
  index = none_reg;
  scale = 0;
  disp = disp;
  label = none;
  rip = false;
  as_ptr = false;
}

abbrev pub of_ptr : ℕ → RegExp
of_ptr addr = record (of_disp addr) { as_ptr = true }

abbrev pub of_rip : RegExp
of_rip = record (of_disp 0) { rip = true }

-- RegExp(r, scale)
unfoldable pub of_reg : Operand → ℕ → Result RegExp
unfolding is
of_reg r scale =
    let e = record (of_disp 0) { scale = scale } in
    do
      throw_if (not (is_reg r i32e) && not (is r (Kind.xmm + Kind.ymm + Kind.zmm + Kind.tmm) 0))
          ErrorCode.err_bad_size_of_register
      throw_if (not (scale == 0) && not (scale == 1 || (scale == 2 || (scale == 4 || scale == 8))))
          ErrorCode.err_bad_scale
      ok (
          if scale == 0
          then e
          else if leb 128 r.bit || not (scale == 1)
          then record e { index = r }
          else record e { base = r })

unfoldable pub is_vsib : RegExp → ℕ → Bool
unfolding is_bit
is_vsib e bit = is_bit e.index bit

unfoldable pub optimize : RegExp → RegExp
unfolding is_bit
optimize e =
    if is_bit e.index i32e && not (has_bit e.base) && e.scale == 2
    then record e { base = e.index; scale = 1 }
    else e

unfoldable pub is_only_disp : RegExp → Bool
is_only_disp e = not (has_bit e.base) && not (has_bit e.index)

unfoldable pub verify : RegExp → Result RegExp
unfolding get_idx
verify e =
    let as_general = has_bit e.index && leb e.index.bit 64 in
    do
      throw_if (leb 128 e.base.bit) ErrorCode.err_bad_size_of_register
      throw_if (as_general && get_idx e.index == esp) ErrorCode.err_esp_cant_be_index
      throw_if (as_general && (has_bit e.base && not (e.base.bit == e.index.bit)))
          ErrorCode.err_bad_size_of_register
      ok e

-- The part of operator+ that joins the bases, after the indexes have been joined.
unfoldable pub join_base : RegExp → Operand → Result RegExp
unfolding get_idx
join_base ret b =
    if not (has_bit b)
    then ok ret
    else if not (has_bit ret.base)
    then ok (record ret { base = b })
    else if has_bit ret.index
    then err ErrorCode.err_bad_addressing
    else if get_idx b == esp
    then ok (record ret { base = b; index = ret.base; scale = 1 })
    else ok (record ret { index = b; scale = 1 })

-- The expression that operator+ starts from: `a` with the label, the flag and the index of `b`
-- where it has none.
unfoldable pub join_index : RegExp → RegExp → RegExp
join_index a b = record a {
  index = if has_bit a.index then a.index else b.index;
  scale = if has_bit a.index then a.scale else b.scale;
  label = elim (a.label) [ some p ↦ some p | none ↦ b.label ];
  as_ptr = a.as_ptr || b.as_ptr;
}

-- operator+(a, b): its checks, and the rest.
unfoldable pub check_add : RegExp → RegExp → Result (Unit {0})
unfolding is_only_disp
check_add a b = do
  throw_if (has_bit a.index && has_bit b.index) ErrorCode.err_bad_addressing
  throw_if (is_some a.label && is_some b.label) ErrorCode.err_bad_addressing
  throw_if b.rip ErrorCode.err_bad_addressing
  throw_if (a.rip && not (is_only_disp b)) ErrorCode.err_bad_addressing
  throw_if (a.as_ptr && b.as_ptr) ErrorCode.err_bad_addressing

abbrev pub plus_disp : ℕ → RegExp → Result RegExp
plus_disp disp ret = ok (record ret { disp = u64 (ret.disp + disp) })

unfoldable pub add : RegExp → RegExp → Result RegExp
unfolding check_add join_base join_index
add a b = check_add a b >> (join_base (join_index a b) b.base >>= plus_disp b.disp)

-- operator+(e, disp) and operator-(e, disp)
unfoldable pub add_disp : RegExp → ℕ → RegExp
add_disp e disp = record e { disp = u64 (e.disp + disp) }

unfoldable pub sub_disp : RegExp → ℕ → RegExp
sub_disp e disp = record e { disp = sub64 e.disp disp }

-- inner::AddressMode
pub data AddressMode : Type 0 where
  m_none m_mod_rm m_64bit_disp m_rip m_rip_addr : AddressMode

pub record Address : Type 0 where
  pub exp : RegExp
  pub bit : ℕ
  pub label : Option ℕ
  pub mode : AddressMode
  pub imm_size : ℕ
  pub disp8n : ℕ
  pub permit_vsib : Bool
  pub broadcast : Bool
  pub optimized : Bool
  -- The members of Operand that `|` sets.
  pub mask : ℕ
  pub zero_flag : Bool

-- The branches of the constructor of Address.
unfoldable pub address_mode : RegExp → AddressMode
unfolding is_only_disp
address_mode e =
    if e.rip
    then (if is_some e.label || e.as_ptr then m_rip_addr else m_rip)
    else if is_only_disp e
        && ((leb 0x80000000 e.disp && leb e.disp 0xFFFFFFFF80000000) || is_some e.label)
    then m_64bit_disp
    else m_mod_rm

-- Address(sizeBit, broadcast, e)
unfoldable pub address : ℕ → Bool → RegExp → Result Address
unfolding address_mode verify
address size_bit broadcast e = do
  e' ← verify e
  ok (record {
    exp = e';
    bit = size_bit;
    label = e'.label;
    mode = address_mode e';
    imm_size = 0;
    disp8n = 0;
    permit_vsib = false;
    broadcast = broadcast;
    optimized = true;
    mask = 0;
    zero_flag = false;
  })

-- getRegExp and cloneNoOptimize
unfoldable pub get_reg_exp : Address → RegExp
unfolding optimize
get_reg_exp a = if a.optimized then optimize a.exp else a.exp

unfoldable pub clone_no_optimize : Address → Address
clone_no_optimize a = record a { optimized = false }

unfoldable pub is32bit : Address → Bool
is32bit a = a.exp.base.bit == 32 || a.exp.index.bit == 32
