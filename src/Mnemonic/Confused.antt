-- ===== src/Mnemonic/Confused.antt =====
-- Methods for AVX-512 whose flags let opVex choose the prefix VEX, where only EVEX tells them apart,
-- and the fourth register of the variable blends.
use xbyak.Prelude.{
  ℕ, ◌+◌, ◌*◌, ◌%◌, ◌<◌, ◌≡◌, refl, ap, sym, ◌∙◌, ◌++◌, arith, Bool, false, has, List, [], ◌∷◌,
  some, has-digit16,
}
use xbyak.Err.{Result, ◌>>=◌}
use xbyak.Flags.{t_0f38, t_66, t_f2, t_w0, t_ew1, t_ymm, t_evex, t_b32, t_b64, get_pp, get_map}
use xbyak.Operand.{Operand, xmm, ymm, opmask, get_idx, is, is_ext_idx2, has_evex}
use xbyak.RegMem.{RegMem, in_reg}
use xbyak.Vex.{vex, vex_prefix}
use xbyak.Evex.{none_imm}
use xbyak.CodeArray.{Host}
use xbyak.Jump.{Gen}
use xbyak.ModRm.{mod_rm}
use xbyak.Format.{put}
use xbyak.Format.Sse.{put_imm8}
use xbyak.Format.Avx.{op_vex, op_avx_x_x_xm, vex_or_evex, needs_evex_reg}
use xbyak.Format.Cvt.{PreferredEncoding}
use xbyak.Mnemonic.{Arg, rm, Body}
use xbyak.Mnemonic.Opcode.{vector_methods}
use xbyak.Mnemonic.Call.{call, emit}

abbrev three_regs : Operand → Operand → Operand → List Arg
three_regs r1 r2 r3 = rm (in_reg r1) ∷ rm (in_reg r2) ∷ rm (in_reg r3) ∷ []

-- A register without EVEX.
not_high : (i : ℕ) → i < 16 → has (i % 32) 16 ≡ false
not_high i low = ground (arith, has-digit16 (i % 32) (omega arith))

module _ (h : Host) (defaults : Bool → PreferredEncoding) (a b c : ℕ) (g : Gen) where
  -- The flags matter to opVex of registers only through the prefix.
  op_vex-prefix :
      (r1 r2 base : Operand) (t t' code : ℕ)
      → vex_or_evex r1 (some r2) base t code ≡ vex_or_evex r1 (some r2) base t' code
      → op_vex h r1 (some r2) (in_reg base) t code none_imm g
        ≡ op_vex h r1 (some r2) (in_reg base) t' code none_imm g
  unfolding op_vex get_idx
  op_vex-prefix r1 r2 base t t' code e =
      ap
        (λ (m : Result (List ℕ)). do
          bs ← m
          g' ← put h (bs ++ mod_rm 3 (get_idx r1) (get_idx base) ∷ []) g
          put_imm8 h none_imm g')
        e

  abbrev permd : ℕ
  permd = t_66 + t_0f38 + t_w0 + t_ymm + t_evex + t_b32

  abbrev permq : ℕ
  permq = t_66 + t_0f38 + t_ew1 + t_ymm + t_evex + t_b64

  resolved_d :
      call h defaults vector_methods "vpermd" (three_regs (ymm a) (ymm b) (ymm c)) g
      ≡ some (op_vex h (ymm a) (some (ymm b)) (in_reg (ymm c)) permd 0x36 none_imm g)
  unfolding call vector_methods
  resolved_d = refl

  resolved_q :
      call h defaults vector_methods "vpermq" (three_regs (ymm a) (ymm b) (ymm c)) g
      ≡ some (op_vex h (ymm a) (some (ymm b)) (in_reg (ymm c)) permq 0x36 none_imm g)
  unfolding call vector_methods
  resolved_q = refl

  -- opVex of low registers with flags that do not force EVEX is `vex`, which reads few of the flags.
  same_bytes :
      a < 16
      → b < 16
      → c < 16
      → vex_or_evex (ymm a) (some (ymm b)) (ymm c) permq 0x36
        ≡ vex_or_evex (ymm a) (some (ymm b)) (ymm c) permd 0x36
  unfolding vex_or_evex needs_evex_reg has_evex is is_ext_idx2 get_idx vex vex_prefix get_pp get_map
  same_bytes la lb lc = rw (not_high a la, not_high b lb, not_high c lc) refl

  -- For three of ymm0 to ymm15, a call of vpermq is the call of vpermd: the same bytes, the same
  -- state afterwards, the same error.
  pub vpermq-writes_vpermd :
      a < 16
      → b < 16
      → c < 16
      → call h defaults vector_methods "vpermq" (three_regs (ymm a) (ymm b) (ymm c)) g
        ≡ call h defaults vector_methods "vpermd" (three_regs (ymm a) (ymm b) (ymm c)) g
  vpermq-writes_vpermd la lb lc =
      resolved_q
      ∙ ap some (op_vex-prefix (ymm a) (ymm b) (ymm c) permq permd 0x36 (same_bytes la lb lc))
      ∙ sym resolved_d

  abbrev intersectd : ℕ
  intersectd = t_f2 + t_0f38 + t_ymm + t_evex + t_w0 + t_b32

  abbrev intersectq : ℕ
  intersectq = t_f2 + t_0f38 + t_ymm + t_evex + t_ew1 + t_b64

  intersect_d :
      call h defaults vector_methods "vp2intersectd" (three_regs (opmask a) (xmm b) (xmm c)) g
      ≡ some (op_vex h (opmask a) (some (xmm b)) (in_reg (xmm c)) intersectd 0x68 none_imm g)
  unfolding call vector_methods
  intersect_d = refl

  intersect_q :
      call h defaults vector_methods "vp2intersectq" (three_regs (opmask a) (xmm b) (xmm c)) g
      ≡ some (op_vex h (opmask a) (some (xmm b)) (in_reg (xmm c)) intersectq 0x68 none_imm g)
  unfolding call vector_methods
  intersect_q = refl

  same_intersect :
      a < 8
      → b < 16
      → c < 16
      → vex_or_evex (opmask a) (some (xmm b)) (xmm c) intersectq 0x68
        ≡ vex_or_evex (opmask a) (some (xmm b)) (xmm c) intersectd 0x68
  unfolding vex_or_evex needs_evex_reg has_evex is is_ext_idx2 get_idx vex vex_prefix get_pp get_map
  same_intersect la lb lc = rw (not_high a (omega arith), not_high b lb, not_high c lc) refl

  -- For a mask and two of xmm0 to xmm15, a call of vp2intersectq is the call of vp2intersectd.
  pub vp2intersectq-writes_vp2intersectd :
      a < 8
      → b < 16
      → c < 16
      → call h defaults vector_methods "vp2intersectq" (three_regs (opmask a) (xmm b) (xmm c)) g
        ≡ call h defaults vector_methods "vp2intersectd" (three_regs (opmask a) (xmm b) (xmm c)) g
  vp2intersectq-writes_vp2intersectd la lb lc =
      intersect_q
      ∙ ap some (
          op_vex-prefix (opmask a) (xmm b) (xmm c) intersectq intersectd 0x68
            (same_intersect la lb lc))
      ∙ sym intersect_d

-- Where the fourth register of vblendvpd, vblendvps or vpblendvb, or of any method of that format,
-- has the number 16, its byte is not written: x4.getIdx() << 4 is 256, which is NONE, and the call
-- is that of the format without a fourth operand.
pub avx3_is4-drops_register :
    (h : Host) (defaults : Bool → PreferredEncoding) (t c : ℕ) (x1 : Operand) (op1 op2 : RegMem)
    (x4 : Operand) (g : Gen)
    → get_idx x4 ≡ 16
    → emit h defaults (Body.avx3_is4 t c) (rm (in_reg x1) ∷ rm op1 ∷ rm op2 ∷ rm (in_reg x4) ∷ []) g
      ≡ emit h defaults (Body.avx3 t c) (rm (in_reg x1) ∷ rm op1 ∷ rm op2 ∷ []) g
unfolding emit get_idx
avx3_is4-drops_register h defaults t c x1 op1 op2 x4 g e =
    ap (λ (n : ℕ). some (op_avx_x_x_xm h x1 op1 op2 t c (n * 16) g)) e
