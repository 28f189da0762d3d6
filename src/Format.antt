-- ===== src/Format.antt =====
-- xbyak/xbyak.h: the instruction formats of `CodeGenerator`, the calls that a mnemonic is one line
-- of: general registers and memory, immediate values and shifts (Arith), SSE (Sse), AVX (Avx, Cvt),
-- and the moves (Moves). A call takes the state of the generator and returns the next one.
-- The options of the library are those of the default build: XBYAK_STRICT_CHECK_MEM_REG_SIZE is 1.
pub mod Arith
pub mod Sse
pub mod Avx
pub mod Cvt
pub mod Apx
pub mod Moves
use xbyak.Prelude.{
  ℕ, ◌+◌, ◌-◌, Bool, true, false, not, ◌&&◌, ◌||◌, bit_or, has, leb, ltb, ◌==◌, if◌then◌else◌, List,
  [], ◌∷◌, ◌++◌, Option, none, some,
}
use xbyak.Err.{ErrorCode, Result, ok, err, throw_if, ◌>>=◌, ◌>>◌}
use xbyak.Flags.{
  t_apx, t_0f, t_0f38, t_0f3a, t_f2, t_sentry, t_code1_if1, t_allow_diff_size, t_allow_abcdh,
  t_must_evex, t_zu,
}
use xbyak.Operand.{
  Operand, none_reg, make_reg, get_idx, is, is_bit, is_reg, is_ext8bit, is_high8bit, has_rex2,
}
use xbyak.Operand.Kind
use xbyak.Operand.Convert.{change_bit}
use xbyak.RegExp.{Address, AddressMode, m_mod_rm, m_64bit_disp, get_reg_exp, clone_no_optimize}
use xbyak.Rex.{rex_regs, rex_mem, Prefixes}
use xbyak.RegMem.{RegMem, in_reg, in_mem, kind_of, bit_of, idx_of, op_is_reg, op_is, has_rex2_nfzu}
use xbyak.Evex.{evex_leg, none_imm}
use xbyak.CodeArray.{Host, db_seq}
use xbyak.Jump.{Gen}
use xbyak.ModRm.{mod_rm, op_addr}

-- Address::is64bitDisp
abbrev pub is_64bit_disp : Address → Bool
is_64bit_disp a = elim (a.mode) [ m_64bit_disp ↦ true | _ ↦ false ]

-- writeCode
unfoldable pub write_code : ℕ → Operand → ℕ → Bool → List ℕ
unfolding is_bit
write_code type r code rex2 =
    (if has type t_apx || rex2
      then []
      else if has type t_0f
      then 0x0F ∷ []
      else if has type t_0f38
      then 0x0F ∷ 0x38 ∷ []
      else if has type t_0f3a
      then 0x0F ∷ 0x3A ∷ []
      else [])
    ++ (if (not (has type t_sentry) || has type t_code1_if1) && not (is_bit r 8)
        then bit_or code 1
        else code)
      ∷ []

-- isBadCombination
unfoldable pub is_bad_combination : Operand → Operand → Bool
unfolding is_high8bit is_ext8bit get_idx
is_bad_combination r1 r2 = is_high8bit r1 && (is_ext8bit r2 || leb 8 (get_idx r2))

-- The bytes of a prefix.
abbrev pub prefix_bytes : Prefixes → List ℕ
prefix_bytes p = p.legacy ++ p.body

-- opRR: its checks, and the bytes that it passes to `db`.
unfoldable pub op_rr_bytes : Operand → Operand → ℕ → ℕ → Result (List ℕ)
unfolding is is_bad_combination write_code get_idx
op_rr_bytes r1 r2 type code = do
  throw_if
      (not (has type t_allow_diff_size) && (is_reg r1 0 && (is_reg r2 0 && not (r1.bit == r2.bit))))
      ErrorCode.err_bad_size_of_register
  throw_if (not (has type t_allow_abcdh) && (is_bad_combination r1 r2 || is_bad_combination r2 r1))
      ErrorCode.err_cant_use_abcdh
  p ← rex_regs r2 r1 type
  ok (
      prefix_bytes p
      ++ write_code type r1 code p.is_rex2
      ++ mod_rm 3 (get_idx r1) (get_idx r2) ∷ [])

-- The condition for opROO to write something: the result of the call.
unfoldable pub needs_apx : Operand → RegMem → RegMem → ℕ → Bool
unfolding is has_rex2_nfzu
needs_apx d op1 op2 type =
    has type t_must_evex
    || is_reg d 0
    || (has_rex2_nfzu (in_reg d) || has_rex2_nfzu op1 || has_rex2_nfzu op2)

module _ (h : Host) where
  -- Bytes one after the other, by `db`.
  unfoldable pub put : List ℕ → Gen → Result Gen
  put bs g = do c ← db_seq h bs g.array; ok (record g { array = c })

  unfoldable pub op_rr : Operand → Operand → ℕ → ℕ → Gen → Result Gen
  unfolding put op_rr_bytes
  op_rr r1 r2 type code g = do bs ← op_rr_bytes r1 r2 type code; put bs g

  -- The branch of opROO with an address; `code` has its bit 2 already.
  unfoldable pub op_roo_mem : Operand → Operand → Address → ℕ → ℕ → ℕ → ℕ → Gen → Result Gen
  unfolding evex_leg write_code put get_idx
  op_roo_mem d r a type code imm_size sc g =
      let e = get_reg_exp a in
      do
        prefix ← evex_leg r e.base e.index d type sc
        g' ← put (prefix ++ write_code type d code false) g
        op_addr h (record a { imm_size = imm_size }) (get_idx r) g'

  -- The branch of opROO of two registers.
  unfoldable pub op_roo_regs : Operand → Operand → Operand → ℕ → ℕ → ℕ → Gen → Result Gen
  unfolding evex_leg write_code put get_idx
  op_roo_regs d r1 r2 type code sc g = do
    prefix ← evex_leg r2 r1 none_reg d type sc
    put (prefix ++ write_code type d code false ++ mod_rm 3 (get_idx r2) (get_idx r1) ∷ []) g

  -- opROO where `needs_apx` holds.
  unfoldable pub op_roo_write : Operand → RegMem → RegMem → ℕ → ℕ → ℕ → ℕ → Gen → Result Gen
  unfolding op_roo_mem op_roo_regs
  op_roo_write d (in_mem a) (in_mem b) type code imm_size sc g = err ErrorCode.err_bad_combination
  op_roo_write d (in_mem a) (in_reg r) type code imm_size sc g =
      op_roo_mem d r a type code imm_size sc g
  op_roo_write d (in_reg r) (in_mem a) type code imm_size sc g =
      op_roo_mem d r a type (bit_or code 2) imm_size sc g
  op_roo_write d (in_reg r1) (in_reg r2) type code imm_size sc g =
      op_roo_regs d r1 r2 type code sc g

  -- `if (opROO(...)) return; rest`
  unfoldable pub op_roo_or :
      Operand → RegMem → RegMem → ℕ → ℕ → ℕ → ℕ → (Gen → Result Gen) → Gen → Result Gen
  unfolding needs_apx op_roo_write
  op_roo_or d op1 op2 type code imm_size sc rest g =
      if needs_apx d op1 op2 type then op_roo_write d op1 op2 type code imm_size sc g else rest g

  -- opMR without the APX form
  unfoldable pub op_mr_plain : Address → Operand → ℕ → ℕ → Gen → Result Gen
  unfolding put write_code get_idx
  op_mr_plain a r type code g = do
    throw_if (is_64bit_disp a) ErrorCode.err_cant_use_64bit_disp
    throw_if
        (not (has type t_allow_diff_size)
          && (leb r.bit 64 && (ltb 0 a.bit && not (a.bit == r.bit))))
        ErrorCode.err_bad_mem_size
    p ← rex_mem a r type
    g' ← put (prefix_bytes p ++ write_code type r code p.is_rex2) g
    op_addr h a (get_idx r) g'

  -- opMR with its type2 and code2
  unfoldable pub op_mr : Address → Operand → ℕ → ℕ → ℕ → ℕ → Gen → Result Gen
  unfolding op_mr_plain op_roo_or
  op_mr a r type code type2 code2 g =
      let code2' = if code2 == none_imm then code else code2 in
      if type2 == 0
      then op_mr_plain a r type code g
      else op_roo_or none_reg (in_mem a) (in_reg r) type2 code2' 0 none_imm
          (op_mr_plain a r type code) g

  unfoldable pub op_load_seg : Address → Operand → ℕ → ℕ → Gen → Result Gen
  unfolding put is_bit get_idx
  op_load_seg a r type code g = do
    throw_if (is_bit r 8) ErrorCode.err_bad_size_of_register
    throw_if (is_64bit_disp a) ErrorCode.err_cant_use_64bit_disp
    p ← rex_mem a r type
    g' ← put (prefix_bytes p ++ (if has type t_0f then 0x0F ∷ [] else []) ++ code ∷ []) g
    op_addr h a (get_idx r) g'

  unfoldable pub op_mib : Address → Operand → ℕ → ℕ → Gen → Result Gen
  unfolding op_mr_plain
  op_mib a r type code g = do
    throw_if (elim (a.mode) [ m_mod_rm ↦ false | _ ↦ true ]) ErrorCode.err_invalid_mib_address
    op_mr_plain (clone_no_optimize a) r type code g

  unfoldable pub op_ro : Operand → RegMem → ℕ → ℕ → Bool → ℕ → Gen → Result Gen
  unfolding op_mr_plain op_rr
  op_ro r (in_mem a) type code cond_r imm_size g =
      op_mr_plain (record a { imm_size = imm_size }) r type code g
  op_ro r (in_reg s) type code cond_r imm_size g =
      if cond_r then op_rr r s type code g else err ErrorCode.err_bad_combination

  -- opRext where opROO is not called
  unfoldable pub op_rext_plain : RegMem → ℕ → Operand → ℕ → ℕ → ℕ → ℕ → Gen → Result Gen
  unfolding op_mr_plain op_rr is
  op_rext_plain (in_mem a) bit r op_bit type code imm_size g =
      op_mr_plain (record a { imm_size = imm_size }) r type code g
  op_rext_plain (in_reg s) bit r op_bit type code imm_size g =
      if is_reg s bit
      then (do s' ← change_bit s op_bit; op_rr r s' (bit_or type t_allow_abcdh) code g)
      else err ErrorCode.err_bad_combination

  unfoldable pub op_rext : RegMem → ℕ → ℕ → ℕ → ℕ → Bool → ℕ → Option Operand → Gen → Result Gen
  unfolding op_rext_plain op_roo_or has_rex2_nfzu
  op_rext op bit ext type code disable_rex imm_size d g =
      let op_bit = if disable_rex && bit_of op == 64 then 32 else bit_of op in
      let r = make_reg ext Kind.reg op_bit in
      let plain = op_rext_plain op bit r op_bit type code imm_size in
      elim d [
        | some new ↦
            if has type t_apx
            then op_roo_or new op (in_reg r) type code 0 none_imm plain g
            else plain g
        | none ↦
            if has type t_apx && has_rex2_nfzu op
            then op_roo_or (make_reg 0 Kind.reg op_bit) op (in_reg r) type code 0 none_imm plain g
            else plain g
      ]

  unfoldable pub op_set_cc : RegMem → ℕ → Gen → Result Gen
  unfolding op_roo_or op_rext
  op_set_cc op ext =
      op_roo_or none_reg op (in_reg none_reg) (t_apx + t_zu + t_f2) (bit_or 0x40 ext) 0 none_imm
        (op_rext op 8 0 t_0f (bit_or 0x90 ext) false 0 none)

  -- (REG, REG|MEM), (MEM, REG)
  unfoldable pub op_ro_mr : RegMem → RegMem → ℕ → Gen → Result Gen
  unfolding op_ro op_mr_plain is
  op_ro_mr (in_reg r) (in_mem a) code g = do
    throw_if (not (is_reg r 0)) ErrorCode.err_bad_combination
    op_mr_plain a r 0 (bit_or code 2) g
  op_ro_mr (in_mem b) (in_mem a) code g = err ErrorCode.err_bad_combination
  op_ro_mr op1 (in_reg r) code g = op_ro r op1 0 code (kind_of op1 == r.kind) 0 g
