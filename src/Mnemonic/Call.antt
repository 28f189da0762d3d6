-- ===== src/Mnemonic/Call.antt =====
-- The calls that the lines of xbyak/xbyak_mnemonic.h make, and a call of a method by its name.
use Prim.Native.String.{String}
use text.Mathlib.Text.{◌==◌ as str_eq}
use xbyak.Prelude.{
  ℕ, ◌+◌, ◌*◌, Bool, true, false, not, leb, bit_or, ◌&&◌, ◌||◌, ◌==◌, if◌then◌else◌, List, [], ◌∷◌,
  ◌++◌, Option, none, some,
}
use xbyak.Err.{ErrorCode, Result, throw_if, ◌>>◌}
use xbyak.Operand.{Operand, make_reg, xmm, zmm, get_idx, is, is_reg, is_xmm}
use xbyak.Flags.{t_ew1, t_w0}
use xbyak.Operand.Kind
use xbyak.RegMem.{in_reg, in_mem, kind_of, op_is, op_is_reg, op_is_xmm, is_mem}
use xbyak.Evex.{none_imm}
use xbyak.CodeArray.{Host}
use xbyak.Jump.{Gen}
use xbyak.Format.Avx.{op_vex, op_avx_x_x_xm, op_avx_k_x_xm}
use xbyak.Format.Cvt.{
  PreferredEncoding, op_avx_x_xm_imm, op_cvt1, op_cvt2, op_cvt3, op_cvt4, op_cvt5, op_cvt6, op_cvt7,
  op_gather, op_gather2, op_gather_fetch, op_vmov, op_encoding,
}
use xbyak.Format.Apx.{op_kmov}
use xbyak.Mnemonic.{Arg, rm, imm, enc, Body, Method, bind_args}

-- Xmm(kind, idx)
abbrev pub xmm_of_kind : ℕ → ℕ → Operand
xmm_of_kind kind idx =
    make_reg idx kind (if kind == Kind.xmm then 128 else if kind == Kind.ymm then 256 else 512)

-- How many calls of methods of the same file stand before the format is called: a method without its
-- first source can call one that calls another.
abbrev pub level : Body → ℕ
level Body.same_first = 2
level (Body.calls n v) = 1
level _ = 0

-- The first method of that name and at most that level that accepts the arguments, with the
-- arguments that it gets.
unfoldable pub find_method : List Method → ℕ → String → List Arg → Option (Body × List Arg)
unfolding bind_args
find_method [] limit name args = none
find_method (t ∷ table) limit name args =
    let rest = find_method table limit name args in
    if str_eq t.name name && leb (level t.body) limit
    then elim (bind_args t.params args) [ some bound ↦ some (t.body, bound) | none ↦ rest ]
    else rest

module _ (h : Host) (defaults : Bool → PreferredEncoding) where
  -- The formats that check their operands before the call.
  unfoldable pub emit_checked : Body → List Arg → Gen → Option (Result Gen)
  unfolding op_avx_x_x_xm op_avx_x_xm_imm op_avx_k_x_xm op_vex op_is is
  emit_checked (Body.avx3_or_xmm t c) (rm (in_reg x1) ∷ rm x2 ∷ rm op ∷ []) g = some (do
    throw_if (not (kind_of op == 0) && not (op_is_xmm op)) ErrorCode.err_bad_combination
    op_avx_x_x_xm h x1 x2 op t c none_imm g)
  emit_checked (Body.avx3_or_mem t c) (rm (in_reg r) ∷ rm op1 ∷ rm op2 ∷ []) g = some (do
    throw_if (not (kind_of op2 == 0) && not (is_mem op2)) ErrorCode.err_bad_combination
    op_avx_x_x_xm h r op1 op2 t c none_imm g)
  emit_checked (Body.avx2_xmm t c) (rm (in_reg r) ∷ rm op ∷ []) g = some (do
    throw_if (not (op_is_xmm op) && not (is_mem op)) ErrorCode.err_bad_combination
    op_avx_x_xm_imm h r op t c none_imm g)
  emit_checked (Body.k_avx_unmasked t c) (rm (in_reg k) ∷ rm (in_reg r) ∷ rm op ∷ []) g = some (do
    throw_if (not (k.mask == 0)) ErrorCode.err_opmask_is_already_set
    op_avx_k_x_xm h k r op t c none_imm g)
  emit_checked (Body.vex2_xmm t c) (rm (in_reg r) ∷ rm op ∷ []) g = some (do
    throw_if (not (op_is_xmm op) && not (is_mem op)) ErrorCode.err_bad_mem_size
    op_vex h r none op t c none_imm g)
  emit_checked (Body.extract kind t c) (rm op ∷ rm (in_reg r) ∷ imm v ∷ []) g = some (do
    throw_if (not (op_is op (Kind.mem + kind) 0)) ErrorCode.err_bad_combination
    op_vex h r none op t c v g)
  emit_checked (Body.insert same kind t c) (rm (in_reg r1) ∷ rm (in_reg r2) ∷ rm op ∷ imm v ∷ [])
        g =
      some (do
        throw_if (not ((not same || r1.kind == r2.kind) && op_is op (Kind.mem + kind) 0))
            ErrorCode.err_bad_combination
        op_vex h r1 (some r2) op t c v g)
  emit_checked (Body.pinsr size t c) (rm (in_reg x1) ∷ rm (in_reg x2) ∷ rm op ∷ imm v ∷ []) g =
      some (do
        throw_if (not (is_xmm x1 && (is_xmm x2 && (op_is_reg op size || is_mem op))))
            ErrorCode.err_bad_combination
        op_vex h x1 (some x2) op t c v g)
  emit_checked _ _ g = none

  unfoldable pub emit_cvt : Body → List Arg → Gen → Option (Result Gen)
  unfolding op_cvt1 op_cvt2 op_cvt3 op_cvt4 op_cvt5 op_cvt6 op_cvt7 emit_checked
  emit_cvt (Body.cvt1 t c) (rm (in_reg r) ∷ rm op ∷ []) g = some (op_cvt1 h r op t c none_imm g)
  emit_cvt (Body.cvt1_store t c) (rm op ∷ rm (in_reg r) ∷ imm v ∷ []) g =
      some (op_cvt1 h r op t c v g)
  emit_cvt (Body.cvt2 t c) (rm (in_reg r) ∷ rm op ∷ []) g = some (op_cvt2 h r op t c g)
  emit_cvt (Body.cvt3 t t64 t32 c) (rm (in_reg x1) ∷ rm (in_reg x2) ∷ rm op ∷ []) g =
      some (op_cvt3 h x1 x2 op t t64 t32 c g)
  emit_cvt (Body.cvt4 t c) (rm (in_reg r) ∷ rm op ∷ []) g = some (op_cvt4 h r op t c g)
  emit_cvt (Body.cvt5 t c) (rm (in_reg r) ∷ rm op ∷ []) g = some (op_cvt5 h r op t c g)
  emit_cvt (Body.cvt6 t c) (rm (in_reg x1) ∷ rm (in_reg x2) ∷ rm op ∷ []) g =
      some (op_cvt6 h x1 x2 op t c g)
  emit_cvt (Body.cvt7 t c) (rm (in_reg x1) ∷ rm (in_reg x2) ∷ rm op ∷ []) g =
      some (op_cvt7 h x1 x2 op t c g)
  emit_cvt b args g = emit_checked b args g

  unfoldable pub emit_moves : Body → List Arg → Gen → Option (Result Gen)
  unfolding op_gather op_gather2 op_gather_fetch op_vmov op_encoding emit_cvt
  emit_moves (Body.gather t c mode) (rm (in_reg x1) ∷ rm (in_mem a) ∷ rm (in_reg x2) ∷ []) g =
      some (op_gather h x1 a x2 t c mode g)
  emit_moves (Body.gather2 t c mode) (rm (in_reg r) ∷ rm (in_mem a) ∷ []) g =
      some (op_gather2 h r a t c mode g)
  emit_moves (Body.gather2_store t c mode) (rm (in_mem a) ∷ rm (in_reg r) ∷ []) g =
      some (op_gather2 h r a t c mode g)
  emit_moves (Body.gather_fetch n t c kind) (rm (in_mem a) ∷ []) g =
      some (op_gather_fetch h a (zmm n) t c kind g)
  emit_moves (Body.vmov t c mode) (rm op ∷ rm (in_reg r) ∷ []) g = some (op_vmov h op r t c mode g)
  emit_moves (Body.encoding t c t_vex t_evex sel)
        (rm (in_reg x1) ∷ rm (in_reg x2) ∷ rm op ∷ enc e ∷ []) g =
      some (op_encoding h defaults x1 x2 op t c e none_imm t_vex t_evex sel g)
  emit_moves (Body.encoding_imm t c t_vex t_evex sel)
        (rm (in_reg x1) ∷ rm (in_reg x2) ∷ rm op ∷ imm v ∷ enc e ∷ []) g =
      some (op_encoding h defaults x1 x2 op t c e v t_vex t_evex sel g)
  emit_moves b args g = emit_cvt b args g

  unfoldable pub emit_vex : Body → List Arg → Gen → Option (Result Gen)
  unfolding op_vex op_avx_k_x_xm op_kmov is emit_moves
  emit_vex (Body.vex2 t c) (rm (in_reg r) ∷ rm op ∷ []) g = some (op_vex h r none op t c none_imm g)
  emit_vex (Body.vex2_store t c) (rm op ∷ rm (in_reg r) ∷ []) g =
      some (op_vex h r none op t c none_imm g)
  emit_vex (Body.vex3 t c) (rm (in_reg r1) ∷ rm (in_reg r2) ∷ rm op ∷ []) g =
      some (op_vex h r1 (some r2) op t c none_imm g)
  emit_vex (Body.vex2_imm t c) (rm (in_reg r) ∷ rm op ∷ imm v ∷ []) g =
      some (op_vex h r none op t c v g)
  emit_vex (Body.vex3_imm t c) (rm (in_reg r1) ∷ rm (in_reg r2) ∷ rm op ∷ imm v ∷ []) g =
      some (op_vex h r1 (some r2) op t c v g)
  emit_vex (Body.k_avx t c) (rm (in_reg k) ∷ rm (in_reg r) ∷ rm op ∷ []) g =
      some (op_avx_k_x_xm h k r op t c none_imm g)
  emit_vex (Body.k_avx_imm t c) (rm (in_reg k) ∷ rm (in_reg r) ∷ rm op ∷ imm v ∷ []) g =
      some (op_avx_k_x_xm h k r op t c v g)
  -- The flag W depends on the size of the general register.
  emit_vex (Body.vex_r_xm0 t c) (rm (in_reg r) ∷ rm op ∷ []) g =
      some
        (op_vex h r (some (xmm 0)) op (bit_or t (if is_reg r 64 then t_ew1 else t_w0)) c none_imm g)
  emit_vex (Body.kmov true size) (rm op ∷ rm (in_reg k) ∷ []) g = some (op_kmov h k op true size g)
  emit_vex (Body.kmov false size) (rm (in_reg k) ∷ rm op ∷ []) g =
      some (op_kmov h k op false size g)
  emit_vex b args g = emit_moves b args g

  unfoldable pub emit : Body → List Arg → Gen → Option (Result Gen)
  unfolding op_avx_x_x_xm op_avx_x_xm_imm get_idx emit_vex
  emit (Body.avx3 t c) (rm (in_reg x1) ∷ rm op1 ∷ rm op2 ∷ []) g =
      some (op_avx_x_x_xm h x1 op1 op2 t c none_imm g)
  emit (Body.avx3_imm t c) (rm (in_reg x1) ∷ rm op1 ∷ rm op2 ∷ imm v ∷ []) g =
      some (op_avx_x_x_xm h x1 op1 op2 t c v g)
  emit (Body.avx3_is4 t c) (rm (in_reg x1) ∷ rm op1 ∷ rm op2 ∷ rm (in_reg x4) ∷ []) g =
      some (op_avx_x_x_xm h x1 op1 op2 t c (get_idx x4 * 16) g)
  emit (Body.avx3_store t c) (rm op ∷ rm x1 ∷ rm (in_reg x2) ∷ []) g =
      some (op_avx_x_x_xm h x2 x1 op t c none_imm g)
  emit (Body.avx_xm0 t c) (rm (in_reg r) ∷ rm op ∷ []) g =
      some (op_avx_x_x_xm h r (in_reg (xmm 0)) op t c none_imm g)
  emit (Body.avx_xm0_store t c) (rm op ∷ rm (in_reg r) ∷ []) g =
      some (op_avx_x_x_xm h r (in_reg (xmm 0)) op t c none_imm g)
  emit (Body.avx_r_xm0 t c) (rm (in_reg r) ∷ rm op ∷ []) g =
      some (op_avx_x_x_xm h (xmm (get_idx r)) (in_reg (xmm 0)) op t c none_imm g)
  emit (Body.avx_ext ext t c) (rm (in_reg r) ∷ rm op ∷ imm v ∷ []) g =
      some (op_avx_x_x_xm h (xmm_of_kind r.kind ext) (in_reg r) op t c v g)
  emit (Body.avx2 t c) (rm (in_reg r) ∷ rm op ∷ []) g = some (op_avx_x_xm_imm h r op t c none_imm g)
  emit (Body.avx2_imm t c) (rm (in_reg r) ∷ rm op ∷ imm v ∷ []) g =
      some (op_avx_x_xm_imm h r op t c v g)
  emit (Body.avx2_store t c) (rm op ∷ rm (in_reg r) ∷ []) g =
      some (op_avx_x_xm_imm h r op t c none_imm g)
  emit b args g = emit_vex b args g

  -- A call of a method whose body calls a format.
  unfoldable pub call_direct : List Method → String → List Arg → Gen → Option (Result Gen)
  unfolding find_method emit
  call_direct table name args g = elim (find_method table 0 name args) [
    | some (b, bound) ↦ emit b bound g
    | none ↦ none
  ]

  -- The body of a method that has its first source.
  unfoldable pub run_named : List Method → Body → List Arg → Gen → Option (Result Gen)
  unfolding call_direct emit
  run_named table (Body.calls target v) args g = call_direct table target (args ++ imm v ∷ []) g
  run_named table b args g = emit b args g

  unfoldable pub call_named : List Method → String → List Arg → Gen → Option (Result Gen)
  unfolding find_method run_named
  call_named table name args g = elim (find_method table 1 name args) [
    | some (b, bound) ↦ run_named table b bound g
    | none ↦ none
  ]

  -- What the body of a method does in the table that it stands in.
  unfoldable pub run_body : List Method → String → Body → List Arg → Gen → Option (Result Gen)
  unfolding call_named run_named
  run_body table name Body.same_first (a ∷ args) g = call_named table name (a ∷ a ∷ args) g
  run_body table name b args g = run_named table b args g

  -- A call by name.
  unfoldable pub call : List Method → String → List Arg → Gen → Option (Result Gen)
  unfolding find_method run_body
  call table name args g = elim (find_method table 2 name args) [
    | some (b, bound) ↦ run_body table name b bound g
    | none ↦ none
  ]
