-- ===== src/ModRm.antt =====
-- xbyak/xbyak.h: `CodeGenerator::setModRM`, `setSIB` and `opAddr`: the bytes of an operand in memory.
-- `|` of fields that do not overlap is a sum.
pub mod Decode
pub mod RoundTrip
use xbyak.Prelude.{
  ℕ, ◌+◌, ◌-◌, ◌*◌, ◌/◌, ◌%◌, ◌^◌, Bool, true, false, not, ◌&&◌, ◌||◌, leb, ltb, ◌==◌,
  if◌then◌else◌, List, [], ◌∷◌, ◌++◌, Option, none, some, u8, u32, u64, sub64,
}
use xbyak.Err.{ErrorCode, Result, ok, err, throw_if, ◌>>=◌, ◌>>◌}
use xbyak.Operand.{Operand, get_idx}
use xbyak.RegExp.{
  RegExp, Address, AddressMode, m_mod_rm, m_rip, m_rip_addr, has_bit, is_some, is_vsib, esp,
  get_reg_exp,
}
use xbyak.CodeArray.{
  CodeArray, Host, is_in_disp8, is_auto_grow, get_curr, verify_in_int32, db_seq, le_bytes,
}
use xbyak.LabelManager.{add_undefined_clabel}
use xbyak.Jump.{Gen, find_clabel, put_l_inner}

-- Operand::EBP
abbrev pub ebp : ℕ
ebp = 5

-- setModRM
abbrev pub mod_rm : ℕ → ℕ → ℕ → ℕ
mod_rm m r1 r2 = u8 (m * 64 + r1 % 8 * 8 + r2 % 8)

-- `static_cast<int>(disp) / disp8N`, that rounds to 0, as a word of 32 bits.
abbrev pub scaled_disp : ℕ → ℕ → ℕ
scaled_disp disp n = if ltb disp 0x80000000 then disp / n else u32 (2 ^ 32 - (2 ^ 32 - disp) / n)

-- The field `mod`, and the displacement that is written.
unfoldable pub choose_mod : RegExp → ℕ → ℕ → ℕ × ℕ
unfolding get_idx
choose_mod e disp8n disp =
    if not (has_bit e.base)
      || (not (get_idx e.base % 8 == ebp) && (not (is_some e.label) && disp == 0))
    then (0, disp)
    else if is_some e.label
    then (2, disp)
    else if disp8n == 0
    then (if is_in_disp8 disp then (1, disp) else (2, disp))
    else if disp % disp8n == 0 && is_in_disp8 (scaled_disp disp disp8n)
    then (1, scaled_disp disp disp8n)
    else (2, disp)

abbrev pub scale_bits : ℕ → ℕ
scale_bits scale = if scale == 8 then 3 else if scale == 4 then 2 else if scale == 2 then 1 else 0

-- The bytes in front of the displacement.
unfoldable pub sib_header : RegExp → ℕ → ℕ → List ℕ
unfolding get_idx
sib_header e reg m =
    let new_base_idx = if has_bit e.base then get_idx e.base % 8 else ebp in
    if has_bit e.index
      || (get_idx e.base % 8 == esp || not (has_bit e.base) && not (has_bit e.index))
    then mod_rm m reg esp
      ∷ mod_rm (scale_bits e.scale) (if has_bit e.index then get_idx e.index % 8 else esp)
          new_base_idx
      ∷ []
    else mod_rm m reg new_base_idx ∷ []

-- The displacement, where no label is in the expression.
abbrev pub disp_bytes : RegExp → ℕ × ℕ → List ℕ
disp_bytes e p =
    if p.0 == 1
    then u8 p.1 ∷ []
    else if p.0 == 2 || (p.0 == 0 && not (has_bit e.base))
    then le_bytes 4 p.1
    else []

-- The check that the displacement is a signed 32-bit value.
unfoldable pub check_disp : RegExp → Result (Unit {0})
check_disp e =
    let high = e.disp / 2 ^ 31 in
    throw_if (not (high == 0) && not (high == 0x1FFFFFFFF)) ErrorCode.err_offset_is_too_big

-- What setSIB writes where no label is in the expression.
unfoldable pub sib_bytes : RegExp → ℕ → ℕ → List ℕ
unfolding choose_mod sib_header
sib_bytes e disp8n reg =
    let p = choose_mod e disp8n (u32 e.disp) in sib_header e reg p.0 ++ disp_bytes e p

module _ (h : Host) where
  -- setSIB
  unfoldable pub set_sib : Address → ℕ → Gen → Result Gen
  unfolding check_disp choose_mod sib_header
  set_sib addr reg g =
      let e = get_reg_exp addr in
      let p = choose_mod e addr.disp8n (u32 e.disp) in
      do
        check_disp e
        c ← db_seq h (sib_header e reg p.0) g.array
        elim (e.label) [
          | none ↦ (do c' ← db_seq h (disp_bytes e p) c; ok (record g { array = c' }))
          | some label ↦
              if p.0 == 2 || (p.0 == 0 && not (has_bit e.base))
              then put_l_inner h find_clabel add_undefined_clabel label false
                  (sub64 e.disp addr.imm_size) 4 (record g { array = c })
              else ok (record g { array = c })
        ]

  -- The part of opAddr for `rip`.
  unfoldable pub op_rip : Address → ℕ → Gen → Result Gen
  op_rip addr reg g = do
    c ← db_seq h (mod_rm 0 reg 5 ∷ []) g.array
    elim (addr.label) [
      | some label ↦
          put_l_inner h find_clabel add_undefined_clabel label true
            (sub64 addr.exp.disp addr.imm_size) 4 (record g { array = c })
      | none ↦
          (let is_ptr : Bool = elim (addr.mode) [ m_rip_addr ↦ true | _ ↦ false ] in
            do
              throw_if (is_ptr && is_auto_grow c) ErrorCode.err_invalid_rip_in_auto_grow
              v ← verify_in_int32 (
                  if is_ptr
                  then sub64 addr.exp.disp (u64 (get_curr c + 4 + addr.imm_size))
                  else addr.exp.disp)
              c' ← db_seq h (le_bytes 4 v) c
              ok (record g { array = c' }))
    ]

  unfoldable pub op_addr : Address → ℕ → Gen → Result Gen
  unfolding set_sib op_rip is_vsib
  op_addr addr reg g = do
    throw_if (not addr.permit_vsib && is_vsib addr.exp 896) ErrorCode.err_bad_vsib_addressing
    elim (addr.mode) [
      | m_mod_rm ↦ set_sib addr reg g
      | m_rip ↦ op_rip addr reg g
      | m_rip_addr ↦ op_rip addr reg g
      | _ ↦ ok g
    ]
