-- ===== src/Mnemonic.antt =====
-- xbyak/xbyak_mnemonic.h: the methods named for the instructions. Nearly every one is a line with a
-- name, parameters, and a call of a format with a set of flags and an opcode; the lines are data
-- here, in tables below, `emit` is the calls that they make, and `call` is a call by name. Those
-- that are named for a condition stand in Condition.
-- A call that no parameter list accepts does not compile in C++, and is `none`. A register's kind
-- stands for its class: what is an `Xmm` there is a register of kind xmm, ymm or zmm here.
pub mod Call
pub mod Signature
pub mod Avx
pub mod Omitted
pub mod Avx512
pub mod Opcode
pub mod Confused
pub mod Legacy
pub mod Condition
use Prim.Native.String.{String}
use mathlib.Core.Option
use xbyak.Prelude.{
  ℕ, Bool, true, false, ◌&&◌, ◌||◌, ◌==◌, if◌then◌else◌, List, [], ◌∷◌, Option, none, some,
}
use xbyak.Operand.Kind
use xbyak.RegMem.{RegMem, in_reg, in_mem, none_op}
use xbyak.Format.Cvt.{GatherMode, Gather2Mode, PreferredEncoding, default_encoding}

-- The classes of the parameters, and the two that have a default value.
pub data Param : Type 0 where
  xmm_reg ymm_reg zmm_reg opmask_reg gpr32 gpr64 gpr32e address operand imm8 : Param
  operand_or_none encoding_or_default : Param

pub data Arg : Type 0 where
  rm : RegMem → Arg
  imm : ℕ → Arg
  enc : PreferredEncoding → Arg

-- The calls in the bodies: each has the flags and the opcode, and what else the line writes out.
pub data Body : Type 0 where
  avx3 avx3_imm avx3_is4 avx3_store avx_xm0 avx_xm0_store avx_r_xm0 : ℕ → ℕ → Body
  avx3_or_xmm avx3_or_mem : ℕ → ℕ → Body
  avx_ext : ℕ → ℕ → ℕ → Body
  avx2 avx2_imm avx2_store avx2_xmm : ℕ → ℕ → Body
  k_avx k_avx_imm k_avx_unmasked : ℕ → ℕ → Body
  vex2 vex2_store vex3 vex2_imm vex3_imm vex2_xmm vex_r_xm0 : ℕ → ℕ → Body
  extract : ℕ → ℕ → ℕ → Body
  insert : Bool → ℕ → ℕ → ℕ → Body
  kmov : Bool → ℕ → Body
  cvt1 cvt1_store cvt2 cvt4 cvt5 cvt6 cvt7 : ℕ → ℕ → Body
  cvt3 : ℕ → ℕ → ℕ → ℕ → Body
  gather : ℕ → ℕ → GatherMode → Body
  gather2 gather2_store : ℕ → ℕ → Gather2Mode → Body
  gather_fetch : ℕ → ℕ → ℕ → ℕ → Body
  vmov : ℕ → ℕ → Bool → Body
  encoding encoding_imm : ℕ → ℕ → ℕ → ℕ → Bool → Body
  pinsr : ℕ → ℕ → ℕ → Body
  same_first : Body
  calls : String → ℕ → Body

pub record Method : Type 0 where
  pub name : String
  pub params : List Param
  pub body : Body

abbrev pub method : String → List Param → Body → Method
method n ps b = record { name = n; params = ps; body = b }

-- An argument that a parameter accepts.
abbrev pub accepts : Param → Arg → Bool
accepts Param.xmm_reg (rm (in_reg r)) =
    r.kind == Kind.xmm || r.kind == Kind.ymm || r.kind == Kind.zmm
accepts Param.ymm_reg (rm (in_reg r)) = r.kind == Kind.ymm || r.kind == Kind.zmm
accepts Param.zmm_reg (rm (in_reg r)) = r.kind == Kind.zmm
accepts Param.opmask_reg (rm (in_reg r)) = r.kind == Kind.opmask
accepts Param.gpr32 (rm (in_reg r)) = r.kind == Kind.reg && r.bit == 32
accepts Param.gpr64 (rm (in_reg r)) = r.kind == Kind.reg && r.bit == 64
accepts Param.gpr32e (rm (in_reg r)) = r.kind == Kind.reg && (r.bit == 32 || r.bit == 64)
accepts Param.address (rm (in_mem a)) = true
accepts Param.operand (rm _) = true
accepts Param.operand_or_none (rm _) = true
accepts Param.imm8 (imm _) = true
accepts Param.encoding_or_default (enc _) = true
accepts _ _ = false

-- The arguments with the default values put in, where the list of parameters accepts them.
abbrev pub defaults_of : List Param → Option (List Arg)
defaults_of [] = some []
defaults_of (Param.operand_or_none ∷ []) = some (rm none_op ∷ [])
defaults_of (Param.encoding_or_default ∷ []) = some (enc default_encoding ∷ [])
defaults_of _ = none

unfoldable pub bind_args : List Param → List Arg → Option (List Arg)
bind_args ps [] = defaults_of ps
bind_args [] (_ ∷ _) = none
bind_args (p ∷ ps) (a ∷ args) =
    if accepts p a then Option.map (λ rest. a ∷ rest) (bind_args ps args) else none
