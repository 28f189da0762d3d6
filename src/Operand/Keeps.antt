-- ===== src/Operand/Keeps.antt =====
-- What a conversion of a register keeps, and when it fails.
use xbyak.Prelude.{
  ℕ, ◌+◌, ◌%◌, ◌<◌, ◌≡◌, refl, arith, true, false, ◌&&◌, bit_or, has, leb, ltb, ◌==◌, ==_iff,
  all_below_sound, ◌⊎◌, Bool-cases, inl, inr,
}
use xbyak.Err.{ErrorCode, ok, err}
use xbyak.Operand.{Operand, ext8bit, get_idx, is, is_bit, is_reg, is_high8bit}
use xbyak.Operand.Convert.{is_size, set_bit, new_idx, convert}
use xbyak.Operand.Kind

with_ext : (i : ℕ) → i < 32 → bit_or i ext8bit % 32 ≡ i
with_ext i h =
    (==_iff (bit_or i ext8bit % 32) i).0
      (all_below_sound 32 (λ j. bit_or j ext8bit % 32 == j) i refl h)

new_idx-keeps : (bit i : ℕ) → i < 32 → (j : ℕ) × (new_idx bit i ≡ ok j) × (j % 32 ≡ i)
new_idx-keeps bit i h = elim (Bool-cases (bit == 8 && (leb 4 i && ltb i 8))) [
  | inl low ↦ (bit_or i ext8bit, ground (arith, low, h), with_ext i h)
  | inr high ↦ (i, ground (arith, high, h), omega (arith, h))
]

has_self : (bit : ℕ) → is_size bit ≡ true → has bit bit ≡ true
has_self bit h = ground (arith, h)

module _ (o : Operand) (bit : ℕ) where
  -- A register of the kinds that can be converted.
  abbrev pub Convertible : Type 0
  Convertible =
      (is_size bit ≡ true)
      × (is o (Kind.mem + Kind.opmask) 0 ≡ false)
      × (is o (Kind.reg + Kind.xmm + Kind.ymm + Kind.zmm + Kind.tmm) 0 ≡ true)

  converted :
      Convertible
      → (is_reg o 8 && is_high8bit o) ≡ false
      → is_bit o bit ≡ false
      → (j : ℕ) → new_idx bit (get_idx o) ≡ ok j
      → set_bit o bit ≡ ok (convert o bit j)
  unfolding set_bit is_high8bit
  converted (size, no_mem, kind) low other j run =
      ground (arith, size, no_mem, kind, low, other, run)

  keeps :
      Convertible
      → (is_reg o 8 && is_high8bit o) ≡ false
      → is_bit o bit ≡ false
      → (r : Operand) × (set_bit o bit ≡ ok r) × (get_idx r ≡ get_idx o) × (is_bit r bit ≡ true)
  unfolding get_idx is_bit
  keeps able low other =
      let (j, run, same) = new_idx-keeps bit (get_idx o) (omega arith) in
      (convert o bit j, converted able low other j run, index j same, bits j)
    where
      index : (j : ℕ) → j % 32 ≡ get_idx o → get_idx (convert o bit j) ≡ get_idx o
      index j same = ground (arith, same)

      bits : (j : ℕ) → is_bit (convert o bit j) bit ≡ true
      bits j = ground (arith, has_self bit able.0)

  unchanged : is_size bit ≡ true → is_bit o bit ≡ true → set_bit o bit ≡ ok o
  unfolding set_bit
  unchanged size same = ground (arith, size, same)

  high_fails :
      Convertible
      → (is_reg o 8 && is_high8bit o) ≡ true
      → is_bit o bit ≡ false
      → set_bit o bit ≡ err ErrorCode.err_cant_convert
  unfolding set_bit is_high8bit
  high_fails (size, no_mem, kind) high other = ground (arith, size, no_mem, kind, high, other)

  -- `setBit` of a general, vector or tile register, to a size that exists. Either the register is one
  -- of ah, ch, dh and bh and of another size, and the call fails with ERR_CANT_CONVERT; or it is
  -- none of them or of that size already, and the call returns a register of that size with the
  -- same number.
  pub set_bit-keeps :
      Convertible
      → ((is_bit o bit ≡ false)
          × ((is_reg o 8 && is_high8bit o) ≡ true)
          × (set_bit o bit ≡ err ErrorCode.err_cant_convert))
        ⊎ (((is_bit o bit ≡ true) ⊎ ((is_reg o 8 && is_high8bit o) ≡ false))
            × ((r : Operand) × (set_bit o bit ≡ ok r)
                × (get_idx r ≡ get_idx o)
                × (is_bit r bit ≡ true)))
  set_bit-keeps able = elim (Bool-cases (is_bit o bit)) [
    | inl same ↦ inr (inl same, (o, unchanged able.0 same, refl, same))
    | inr other ↦ elim (Bool-cases (is_reg o 8 && is_high8bit o)) [
      | inl high ↦ inl (other, high, high_fails able high other)
      | inr low ↦ inr (inr low, keeps able low other)
    ]
  ]
