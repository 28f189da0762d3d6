-- ===== src/Format/Arith/Imm.antt =====
-- The size of an immediate value, and the size of the operand of push and pop.
use xbyak.Prelude.{
  ℕ, ◌+◌, ◌-◌, ◌%◌, ◌^◌, ◌≤◌, ◌<◌, ◌≡◌, refl, sym, ◌∙◌, ap, Bool-cases, ◌⊎◌, inl, inr, arith, min,
  true, false, leb, if◌then◌else◌,
}
use xbyak.Err.{ErrorCode, ok, err}
use xbyak.Operand.{Operand, has_rex2, is_reg, is_ext_idx2, get_idx}
use xbyak.Rex.{rex2, rex_rxb}
use xbyak.RegMem.{in_reg}
use xbyak.CodeArray.{Host, is_in_disp8}
use xbyak.Jump.{Gen}
use xbyak.Format.Arith.{get_imm_bit, is_in_disp16_relaxed, op_push_pop, push_pop_rex2}

-- The low `n` bits of a value with the sign that they have, as a word of 32 bits.
abbrev pub extended : ℕ → ℕ → ℕ
extended n imm =
    let low = imm % 2 ^ n in if leb (2 ^ (n - 1)) low then low + 2 ^ 32 - 2 ^ n else low

-- Chosen for an operand of `bit` bits: the field is not larger than the operand, and its value,
-- extended with its sign, is the one that was meant, as far as the operand reaches.
pub record IsChosen (bit imm n : ℕ) : Type 0 where
  pub field : (n ≡ 8) ⊎ ((n ≡ 16) ⊎ (n ≡ 32))
  pub fits : n ≤ bit
  pub same : extended n imm % 2 ^ min bit 32 ≡ imm % 2 ^ min bit 32

chosen8 : (imm : ℕ) → imm < 2 ^ 32 → IsChosen 8 imm 8
chosen8 imm word = record { field = inl refl; fits = omega arith; same = ground arith }

byte_same : (imm : ℕ) → imm < 2 ^ 32 → is_in_disp8 imm ≡ true → extended 8 imm ≡ imm
byte_same imm word byte = ground (arith, byte)

byte_field : (bit imm : ℕ) → 8 ≤ bit → imm < 2 ^ 32 → is_in_disp8 imm ≡ true → IsChosen bit imm 8
byte_field bit imm large word byte = record {
  field = inl refl;
  fits = large;
  same = ap (λ v. v % 2 ^ min bit 32) (byte_same imm word byte);
}

half_field : (imm : ℕ) → IsChosen 16 imm 16
half_field imm = record { field = inr (inl refl); fits = omega arith; same = ground arith }

word_same : (imm : ℕ) → imm < 2 ^ 32 → extended 32 imm ≡ imm
word_same imm word = ground arith

word_field : (bit imm : ℕ) → 32 ≤ bit → imm < 2 ^ 32 → IsChosen bit imm 32
word_field bit imm large word = record {
  field = inr (inr refl);
  fits = large;
  same = ap (λ v. v % 2 ^ min bit 32) (word_same imm word);
}

-- A register of 8, 16, 32 or 64 bits and a value of 32 bits: the call returns a size that fits and
-- keeps the value, unless the register has 16 bits and the upper half of the value is neither zero
-- nor all ones, and then it throws ERR_IMM_IS_TOO_BIG.
pub get_imm_bit-IsChosen :
    (r : Operand) (imm : ℕ)
    → imm < 2 ^ 32
    → (r.bit ≡ 8) ⊎ ((r.bit ≡ 16) ⊎ ((r.bit ≡ 32) ⊎ (r.bit ≡ 64)))
    → ((n : ℕ) × (get_imm_bit (in_reg r) imm ≡ ok n) × IsChosen r.bit imm n)
      ⊎ ((r.bit ≡ 16)
          × (0x10000 ≤ imm)
          × (imm < 0xFFFF0000)
          × (get_imm_bit (in_reg r) imm ≡ err ErrorCode.err_imm_is_too_big))
unfolding get_imm_bit
get_imm_bit-IsChosen r imm word (inl is8) = inl (8, rw is8 refl, rw is8 (chosen8 imm word))
get_imm_bit-IsChosen r imm word (inr (inl is16)) = elim (Bool-cases (is_in_disp8 imm)) [
  | inl byte ↦ inl (8, rw (is16, byte) refl, rw is16 (byte_field 16 imm (omega arith) word byte))
  | inr wide ↦ elim (Bool-cases (is_in_disp16_relaxed imm)) [
    | inl half ↦ inl (16, rw (is16, wide, half) refl, rw is16 (half_field imm))
    | inr large ↦
        inr (is16, ground (arith, large), ground (arith, large, word), rw (is16, wide, large) refl)
  ]
]
get_imm_bit-IsChosen r imm word (inr (inr (inl is32))) = elim (Bool-cases (is_in_disp8 imm)) [
  | inl byte ↦ inl (8, rw (is32, byte) refl, rw is32 (byte_field 32 imm (omega arith) word byte))
  | inr wide ↦ inl (32, ground (arith, is32, wide), rw is32 (word_field 32 imm (omega arith) word))
]
get_imm_bit-IsChosen r imm word (inr (inr (inr is64))) = elim (Bool-cases (is_in_disp8 imm)) [
  | inl byte ↦ inl (8, rw (is64, byte) refl, rw is64 (byte_field 64 imm (omega arith) word byte))
  | inr wide ↦ inl (32, ground (arith, is64, wide), rw is64 (word_field 64 imm (omega arith) word))
]

module _ (h : Host) where
  by_rex2 :
      (r : Operand) (code ext alt : ℕ) (g : Gen)
      → is_reg r 0 ≡ true
      → is_ext_idx2 r ≡ true
      → op_push_pop h (in_reg r) code ext alt g ≡ push_pop_rex2 h false r alt g
  unfolding op_push_pop has_rex2
  by_rex2 r code ext alt g general high = rw (general, high) refl

  ext2_same : (r s : Operand) → r.idx ≡ s.idx → is_ext_idx2 r ≡ true → is_ext_idx2 s ≡ true
  unfolding is_ext_idx2 get_idx
  ext2_same r s same high = rw same at high

  same_number :
      (r s : Operand) (alt : ℕ) (g : Gen)
      → r.idx ≡ s.idx
      → push_pop_rex2 h false r alt g ≡ push_pop_rex2 h false s alt g
  unfolding push_pop_rex2 rex2 rex_rxb get_idx
  same_number r s alt g same = rw same refl

  -- A general register with a number of 16 or more is pushed and popped with the bytes of the
  -- register of 64 bits, whatever size it has: two such registers with one number do the same.
  pub op_push_pop-ignores_size :
      (r s : Operand) (code ext alt : ℕ) (g : Gen)
      → is_reg r 0 ≡ true
      → is_reg s 0 ≡ true
      → is_ext_idx2 r ≡ true
      → r.idx ≡ s.idx
      → op_push_pop h (in_reg r) code ext alt g ≡ op_push_pop h (in_reg s) code ext alt g
  op_push_pop-ignores_size r s code ext alt g gr gs high same =
      by_rex2 r code ext alt g gr high
      ∙ same_number r s alt g same
      ∙ sym (by_rex2 s code ext alt g gs (ext2_same r s same high))
