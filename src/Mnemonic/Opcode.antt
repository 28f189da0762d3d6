-- ===== src/Mnemonic/Opcode.antt =====
-- What tells the instructions of AVX apart when they are read: the fields of the prefix that do not
-- depend on the operands, the opcode, and the field reg where a line of
-- xbyak/xbyak_mnemonic.h writes a number into it.
pub mod Distinct
pub mod Sse
use Prim.Native.String.{String}
use text.Mathlib.Text.{◌==◌ as str_eq}
use xbyak.Prelude.{
  ℕ, ◌+◌, ◌*◌, Bool, true, false, not, bit_or, ◌&&◌, ◌||◌, has, if◌then◌else◌, List, [], ◌∷◌, ◌++◌,
  Option, none, some, flag,
}
use xbyak.Flags.{t_evex, t_must_evex, t_w1, t_ew1, t_l1, get_pp, get_map}
use xbyak.Operand.{make_reg, none_reg, opmask}
use xbyak.Operand.Kind
use xbyak.RegExp.{Address, m_mod_rm}
use xbyak.RegMem.{in_reg, in_mem}
use xbyak.Format.Apx.{kmov_type, kmov_code}
use xbyak.Mnemonic.{Method, Body}
use xbyak.Mnemonic.Avx.{avx_methods}
use xbyak.Mnemonic.Avx512.{avx512_methods}

-- The methods of both sections.
unfoldable pub vector_methods : List Method
unfolding avx_methods avx512_methods
vector_methods = avx_methods ++ avx512_methods

-- An operand in memory: which one makes no difference to the opcode of `kmov`.
abbrev an_address : Address
an_address = record {
  exp = record {
    base = none_reg;
    index = none_reg;
    scale = 0;
    disp = 0;
    label = none;
    rip = false;
    as_ptr = false;
  };
  bit = 0;
  label = none;
  mode = m_mod_rm;
  imm_size = 0;
  disp8n = 0;
  permit_vsib = false;
  broadcast = false;
  optimized = true;
  mask = 0;
  zero_flag = false;
}

-- With a prefix EVEX and with a prefix VEX: the flags that the format passes on, the opcode, and one
-- more than the number that a line writes into the field reg. `cvt3` and `kmov` have two of each:
-- the first here is for a value of 32 bits, and for an operand that is no general register.
abbrev pub format_of : Bool → Body → Option (ℕ × ℕ × ℕ)
unfolding kmov_type kmov_code
format_of _ (Body.avx3 t c) = some (t, c, 0)
format_of _ (Body.avx3_imm t c) = some (t, c, 0)
format_of _ (Body.avx3_is4 t c) = some (t, c, 0)
format_of _ (Body.avx3_store t c) = some (t, c, 0)
format_of _ (Body.avx_xm0 t c) = some (t, c, 0)
format_of _ (Body.avx_xm0_store t c) = some (t, c, 0)
format_of _ (Body.avx_r_xm0 t c) = some (t, c, 0)
format_of _ (Body.avx3_or_xmm t c) = some (t, c, 0)
format_of _ (Body.avx3_or_mem t c) = some (t, c, 0)
format_of _ (Body.avx_ext ext t c) = some (t, c, ext + 1)
format_of _ (Body.avx2 t c) = some (t, c, 0)
format_of _ (Body.avx2_imm t c) = some (t, c, 0)
format_of _ (Body.avx2_store t c) = some (t, c, 0)
format_of _ (Body.avx2_xmm t c) = some (t, c, 0)
format_of _ (Body.k_avx t c) = some (t, c, 0)
format_of _ (Body.k_avx_imm t c) = some (t, c, 0)
format_of _ (Body.k_avx_unmasked t c) = some (t, c, 0)
format_of _ (Body.vex2 t c) = some (t, c, 0)
format_of _ (Body.vex2_store t c) = some (t, c, 0)
format_of _ (Body.vex3 t c) = some (t, c, 0)
format_of _ (Body.vex2_imm t c) = some (t, c, 0)
format_of _ (Body.vex3_imm t c) = some (t, c, 0)
format_of _ (Body.vex2_xmm t c) = some (t, c, 0)
format_of _ (Body.vex_r_xm0 t c) = some (t, c, 0)
format_of _ (Body.extract kind t c) = some (t, c, 0)
format_of _ (Body.insert same kind t c) = some (t, c, 0)
format_of _ (Body.cvt1 t c) = some (t, c, 0)
format_of _ (Body.cvt1_store t c) = some (t, c, 0)
format_of _ (Body.cvt2 t c) = some (t, c, 0)
format_of _ (Body.cvt3 t t64 t32 c) = some (bit_or t t32, c, 0)
format_of _ (Body.cvt4 t c) = some (t, c, 0)
format_of _ (Body.cvt5 t c) = some (t, c, 0)
format_of _ (Body.cvt6 t c) = some (t, c, 0)
format_of _ (Body.cvt7 t c) = some (t, c, 0)
format_of _ (Body.gather t c mode) = some (t, c, 0)
format_of _ (Body.gather2 t c mode) = some (t, c, 0)
format_of _ (Body.gather2_store t c mode) = some (t, c, 0)
format_of _ (Body.gather_fetch n t c kind) = some (t, c, n + 1)
format_of _ (Body.vmov t c mode) = some (t, c, 0)
format_of true (Body.encoding t c vex_flags evex_flags sel) =
    some (bit_or t (bit_or t_must_evex evex_flags), c, 0)
format_of false (Body.encoding t c vex_flags evex_flags sel) = some (bit_or t vex_flags, c, 0)
format_of true (Body.encoding_imm t c vex_flags evex_flags sel) =
    some (bit_or t (bit_or t_must_evex evex_flags), c, 0)
format_of false (Body.encoding_imm t c vex_flags evex_flags sel) = some (bit_or t vex_flags, c, 0)
format_of _ (Body.pinsr size t c) = some (t, c, 0)
format_of _ (Body.kmov to size) = some (
  kmov_type false size,
  kmov_code (if to then in_mem an_address else in_reg (opmask 0)) to false,
  0,
)
format_of _ Body.same_first = none
format_of _ (Body.calls target v) = none

-- The second one: for a value of 64 bits, and for a general register.
abbrev pub second_format : Body → Option (ℕ × ℕ × ℕ)
unfolding kmov_type kmov_code
second_format (Body.cvt3 t t64 t32 c) = some (bit_or t t64, c, 0)
second_format (Body.kmov to size) =
    some (kmov_type true size, kmov_code (in_reg (make_reg 0 Kind.reg 64)) to true, 0)
second_format _ = none

-- One number for pp, the map, W, the bit L where the flags set it, the opcode and the field reg.
abbrev pub join_key : ℕ → ℕ → ℕ → ℕ → ℕ → ℕ → ℕ
join_key pp opcode_map w l code ext =
    pp + 4 * (opcode_map + 8 * (w + 2 * (l + 2 * (code + 256 * ext))))

-- The key with a prefix EVEX and with a prefix VEX, for a format that can have that prefix.
abbrev pub key_in : Bool → ℕ × ℕ × ℕ → Option ℕ
unfolding get_pp get_map
key_in evex (t, c, ext) =
    let w = flag (has t (if evex then t_ew1 else t_w1)) in
    if (if evex then has t (t_evex + t_must_evex) else not (has t t_must_evex))
    then some (join_key (get_pp t) (get_map t) w (flag (has t t_l1)) c ext)
    else none

-- The key of the first format of a line, and of its second.
unfoldable pub key_of : Bool → Bool → Body → Option ℕ
unfolding get_pp get_map kmov_type kmov_code
key_of second evex b = elim (if second then second_format b else format_of evex b) [
  | some f ↦ key_in evex f
  | none ↦ none
]

-- Two names that share a key: vmovhlps has a register where vmovlps has an address, and so have
-- vmovlhps and vmovhps; the others are the same bytes.
unfoldable pub are_confused : String → String → Bool
are_confused n n' =
    (str_eq n "vmovhlps" && str_eq n' "vmovlps")
    || (str_eq n "vmovhps" && str_eq n' "vmovlhps")
    || (str_eq n "vpermd" && str_eq n' "vpermq")
    || (str_eq n "vp2intersectd" && str_eq n' "vp2intersectq")
