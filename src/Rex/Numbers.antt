-- ===== src/Rex/Numbers.antt =====
-- The numbers of the registers that the processor reads from a prefix.
use xbyak.Prelude.{
  ℕ, ◌+◌, ◌*◌, ◌/◌, ◌%◌, ◌<◌, ◌≡◌, refl, ap, sym, ◌∙◌, inl, inr, ◌⊎◌, arith, Bool, true, false, not,
  ◌||◌, has, ◌==◌, ==_iff, if◌then◌else◌, List, [], ◌∷◌, Bool-cases, all_below_sound,
}
use mathlib.Core.Path.{subst}
use xbyak.Err.{ErrorCode, ok, throw_if, OnOk, OnOk-bind, OnOk-ok}
use xbyak.Operand.{Operand, none_reg, get_idx, is_reg, is_ext8bit, is_ext_idx2, has_rex2, test_idx}
use xbyak.Flags.{t_0f, t_0f38, t_0f3a}
use xbyak.Rex.{rex_rxb, rex2, rex_regs, finish, Prefixes, legacy_bytes, wants_66}

-- The bits that a REX or REX2 prefix adds to the fields reg, index and base, and W.
pub record HighBits : Type 0 where
  pub w : ℕ
  pub r : ℕ
  pub x : ℕ
  pub b : ℕ

-- 0x40 to 0x4F is REX, 0xD5 with a byte is REX2, whose high half has the bits 4.
abbrev pub read_prefix : List ℕ → HighBits
read_prefix [] = record { w = 0; r = 0; x = 0; b = 0 }
read_prefix (v ∷ []) = record { w = v / 8 % 2; r = v / 4 % 2; x = v / 2 % 2; b = v % 2 }
read_prefix (_ ∷ v ∷ _) = record {
  w = v / 8 % 2;
  r = v / 4 % 2 + v / 64 % 2 * 2;
  x = v / 2 % 2 + v / 32 % 2 * 2;
  b = v % 2 + v / 16 % 2 * 2;
}

abbrev pub is_prefix : List ℕ → Bool
is_prefix [] = true
is_prefix (v ∷ []) = v / 16 == 4
is_prefix (p ∷ v ∷ []) = p == 0xD5
is_prefix (_ ∷ _ ∷ _ ∷ _) = false

abbrev flag : Bool → ℕ
flag t = if t then 1 else 0

has-8 : (i : ℕ) → i < 64 → flag (has i 8) ≡ i / 8 % 2
has-8 i h =
    (==_iff (flag (has i 8)) (i / 8 % 2)).0
      (all_below_sound 64 (λ j. flag (has j 8) == j / 8 % 2) i refl h)

has-16 : (i : ℕ) → i < 64 → flag (has i 16) ≡ i / 16 % 2
has-16 i h =
    (==_iff (flag (has i 16)) (i / 16 % 2)).0
      (all_below_sound 64 (λ j. flag (has j 16) == j / 16 % 2) i refl h)

-- The four bits, as a REX payload and as those of a number.
pub record Payload (v : ℕ) (w : Bool) (r b : Operand) (weight : ℕ) : Type 0 where
  pub below : v < 16
  pub top : v / 8 % 2 ≡ flag w
  pub high_r : v / 4 % 2 ≡ flag (test_idx r weight)
  pub high_x : v / 2 % 2 ≡ 0
  pub high_b : v % 2 ≡ flag (test_idx b weight)

payload :
    (weight : ℕ) (w : Bool) (r b : Operand)
    → has 0 weight ≡ false
    → Payload (rex_rxb weight w r b none_reg) w r b weight
unfolding rex_rxb
payload weight w r b zero_bit = record {
  below = ground (arith, zero_bit);
  top = ground (arith, zero_bit);
  high_r = ground (arith, zero_bit);
  high_x = ground (arith, zero_bit);
  high_b = ground (arith, zero_bit);
}

-- The bytes are no prefix, REX or REX2, and hold the high bits of `reg` and `base`, and W.
pub record Holds (w : Bool) (reg base : ℕ) (body : List ℕ) : Type 0 where
  pub marked : is_prefix body ≡ true
  pub has_w : (read_prefix body).w ≡ flag w
  pub has_r : (read_prefix body).r ≡ reg / 8
  pub has_x : (read_prefix body).x ≡ 0
  pub has_b : (read_prefix body).b ≡ base / 8

number_small : (o : Operand) → is_ext_idx2 o ≡ false → o.idx % 32 / 16 % 2 ≡ 0
unfolding is_ext_idx2 get_idx
number_small o low = sym (has-16 (o.idx % 32) (omega arith)) ∙ ap flag low

abbrev HoldsIn : Bool → Operand → Operand → Prefixes → Type 0
HoldsIn w r b q = Holds w (get_idx r) (get_idx b) q.body

module _ (w : Bool) (r b : Operand) (small_r : r.idx < 64) (small_b : b.idx < 64) where
  Holds-rex2 :
      (bit3 : Bool) (v : ℕ)
      → Payload v w r b 8
      → Holds w (get_idx r) (get_idx b) (rex2 bit3 v r b none_reg)
  unfolding rex2 get_idx
  Holds-rex2 bit3 v p =
      let q = payload 16 bit3 r b refl in
      record {
        marked = refl;
        has_w = omega (arith, p.below, p.top);
        has_r = omega (
          arith,
          p.below,
          p.high_r,
          q.below,
          q.high_r,
          has-8 r.idx small_r,
          has-16 r.idx small_r,
        );
        has_x = omega (arith, p.below, p.high_x, q.below, q.high_x);
        has_b = omega (
          arith,
          p.below,
          p.high_b,
          q.below,
          q.high_b,
          has-8 b.idx small_b,
          has-16 b.idx small_b,
        );
      }

  Holds-rex :
      (v : ℕ)
      → Payload v w r b 8
      → is_ext_idx2 r ≡ false
      → is_ext_idx2 b ≡ false
      → Holds w (get_idx r) (get_idx b) ((0x40 + v) ∷ [])
  unfolding is_ext_idx2 get_idx
  Holds-rex v p low_r low_b = record {
    marked = ground (arith, p.below);
    has_w = omega (arith, p.below, p.top);
    has_r = omega (arith, p.below, p.high_r, has-8 r.idx small_r, number_small r low_r);
    has_x = omega (arith, p.below, p.high_x);
    has_b = omega (arith, p.below, p.high_b, has-8 b.idx small_b, number_small b low_b);
  }

  Holds-none :
      Payload 0 w r b 8
      → is_ext_idx2 r ≡ false
      → is_ext_idx2 b ≡ false
      → Holds w (get_idx r) (get_idx b) []
  unfolding is_ext_idx2 get_idx
  Holds-none p low_r low_b = record {
    marked = refl;
    has_w = omega (arith, p.top);
    has_r = omega (arith, p.high_r, has-8 r.idx small_r, number_small r low_r);
    has_x = refl;
    has_b = omega (arith, p.high_b, has-8 b.idx small_b, number_small b low_b);
  }

  finish-plain :
      (legacy two : List ℕ) (ext8 : Bool) (type v : ℕ)
      → Payload v w r b 8
      → is_ext_idx2 r ≡ false
      → is_ext_idx2 b ≡ false
      → OnOk (HoldsIn w r b) (finish legacy false ext8 type v two)
  finish-plain legacy two ext8 type v p low_r low_b = elim (Bool-cases (not (v == 0) || ext8)) [
    | inl written ↦ rw written (Holds-rex v p low_r low_b)
    | inr nothing ↦
        rw nothing (Holds-none (subst (λ n. Payload n w r b 8) (zero_lem nothing) p) low_r low_b)
  ]
    where
      zero_lem : (not (v == 0) || ext8) ≡ false → v ≡ 0
      zero_lem h = ground (arith, h)

  finish-wide :
      (legacy : List ℕ) (ext8 bit3 : Bool) (type v : ℕ)
      → Payload v w r b 8
      → OnOk (HoldsIn w r b) (finish legacy true ext8 type v (rex2 bit3 v r b none_reg))
  finish-wide legacy ext8 bit3 type v p =
      OnOk-bind (HoldsIn w r b) (throw_if (has type (t_0f38 + t_0f3a)) ErrorCode.err_cant_use_rex2)
        _ λ _ _. Holds-rex2 bit3 v p

finish-returns :
    (legacy two : List ℕ) (wants ext8 : Bool) (type v : ℕ)
    → has type (t_0f38 + t_0f3a) ≡ false
    → (q : Prefixes) × (finish legacy wants ext8 type v two ≡ ok q)
finish-returns legacy two false ext8 type v plain = (_, refl)
finish-returns legacy two true ext8 type v plain =
    (record { legacy = legacy; body = two; is_rex2 = true }, rw plain refl)

-- Only a general register can have a number of 16 or more.
abbrev pub IsNumbered : Operand → Type 0
IsNumbered o = (o.idx < 64) × ((is_ext_idx2 o ≡ false) ⊎ (has_rex2 o ≡ true))

-- The two halves of `rex` of two registers, by whether REX2 is wanted.
finish-Holds :
    (w bit3 ext8 wants : Bool) (op1 op2 : Operand) (type : ℕ) (legacy : List ℕ)
    → IsNumbered op1
    → IsNumbered op2
    → wants ≡ (has_rex2 op1 || has_rex2 op2)
    → OnOk (HoldsIn w op2 op1) (
        finish legacy wants ext8 type
          (rex_rxb 8 w op2 op1 none_reg)
          (rex2 bit3 (rex_rxb 8 w op2 op1 none_reg) op2 op1 none_reg))
finish-Holds w bit3 ext8 true op1 op2 type legacy n1 n2 same =
    finish-wide w op2 op1 n2.0 n1.0 legacy ext8 bit3 type _ (payload 8 w op2 op1 refl)
finish-Holds w bit3 ext8 false op1 op2 type legacy n1 n2 same =
    finish-plain w op2 op1 n2.0 n1.0 legacy
      (rex2 bit3 (rex_rxb 8 w op2 op1 none_reg) op2 op1 none_reg) ext8 type _
      (payload 8 w op2 op1 refl) (ground (arith, n2.1, same)) (ground (arith, n1.1, same))

-- `rex` of two registers with numbers below 32, of which only general ones are 16 or more, without
-- the modifiers NF and ZU, and for an opcode outside of the maps 0F38 and 0F3A: the call returns, and
-- the processor reads from its prefix (REX, REX2 or none) the high bits of both numbers, the
-- second operand in the field reg and the first in r/m, and W if one of them has 64 bits.
pub rex_regs-Holds :
    (op1 op2 : Operand) (type : ℕ)
    → IsNumbered op1
    → IsNumbered op2
    → (op1.nf || op2.nf) ≡ false
    → (op1.zu || op2.zu) ≡ false
    → has type (t_0f38 + t_0f3a) ≡ false
    → (q : Prefixes) × (rex_regs op1 op2 type ≡ ok q)
      × Holds (is_reg op1 64 || is_reg op2 64) (get_idx op2) (get_idx op1) q.body
unfolding rex_regs
rex_regs-Holds op1 op2 type n1 n2 nf zu plain =
    let w = is_reg op1 64 || is_reg op2 64 in
    let v = rex_rxb 8 w op2 op1 none_reg in
    let two = rex2 (has type t_0f) v op2 op1 none_reg in
    let legacy = legacy_bytes (wants_66 op1.bit op2.bit) type in
    let wants = has_rex2 op1 || has_rex2 op2 in
    let ext8 = is_ext8bit op1 || is_ext8bit op2 in
    let (q, runs) = finish-returns legacy two wants ext8 type v plain in
    (
      q,
      rw (nf, zu) runs,
      OnOk-ok (HoldsIn w op2 op1) (finish legacy wants ext8 type v two)
          (finish-Holds w (has type t_0f) ext8 wants op1 op2 type legacy n1 n2 refl) runs,
    )
