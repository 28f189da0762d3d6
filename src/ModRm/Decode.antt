-- ===== src/ModRm/Decode.antt =====
-- The processor's reading of the bytes that `setSIB` writes.
use xbyak.Prelude.{
  ℕ, ◌+◌, ◌-◌, ◌*◌, ◌/◌, ◌%◌, ◌^◌, ◌≤◌, ◌<◌, ◌≡◌, ◌≢◌, refl, ap, ◌⊎◌, inl, inr, Bool-cases, arith,
  Bool, true, false, not, ◌&&◌, ◌||◌, ltb, ◌==◌, if◌then◌else◌, List, [], ◌∷◌, Option, none, some,
  u8, u32, u64,
}
use xbyak.CodeArray.{is_in_disp8}
use xbyak.Err.{ok}
use xbyak.Operand.{get_idx}
use xbyak.RegExp.{RegExp, has_bit}
use xbyak.ModRm.{scaled_disp, choose_mod, disp_bytes, check_disp, mod_rm, scale_bits}

-- The fields of an address in memory: the numbers of the registers without the bits that a prefix
-- holds, and the displacement as a word of 64 bits.
pub record Decoded : Type 0 where
  pub reg : ℕ
  pub base : Option ℕ
  pub index : Option (ℕ × ℕ)
  pub disp : ℕ

-- A signed byte, and a signed word of 32 bits.
abbrev pub sign8 : ℕ → ℕ
sign8 b = if ltb b 128 then b else b + 2 ^ 64 - 2 ^ 8

abbrev pub sign32 : ℕ → ℕ
sign32 v = if ltb v (2 ^ 31) then v else v + 2 ^ 64 - 2 ^ 32

-- What the displacement of one byte counts in: disp8N with EVEX, single bytes without (0).
abbrev pub unit : ℕ → ℕ
unit n = if n == 0 then 1 else n

-- The displacement: its size follows from the field `mod`, and from the lack of a base.
abbrev pub read_disp : ℕ → ℕ → Bool → List ℕ → Option ℕ
read_disp n m no_base [] = if m == 0 && not no_base then some 0 else none
read_disp n m no_base (a ∷ []) = if m == 1 then some (u64 (sign8 a * unit n)) else none
read_disp n m no_base (a ∷ b ∷ c ∷ d ∷ []) =
    if m == 2 || (m == 0 && no_base)
    then some (sign32 (a + 256 * b + 65536 * c + 16777216 * d))
    else none
read_disp n m no_base (_ ∷ _ ∷ []) = none
read_disp n m no_base (_ ∷ _ ∷ _ ∷ []) = none
read_disp n m no_base (_ ∷ _ ∷ _ ∷ _ ∷ _ ∷ _) = none

with_disp : ℕ → Option ℕ → Option (ℕ × ℕ) → Option ℕ → Option Decoded
with_disp reg base index none = none
with_disp reg base index (some d) =
    some (record { reg = reg; base = base; index = index; disp = d })

-- A ModR/M byte, and a SIB byte where `rm` is 4; `n` is disp8N, and `x` says whether the number 4 in
-- the field of the index is one, since a prefix extends it or since it is of a vector register.
unfoldable pub decode_sib : ℕ → Bool → ℕ → ℕ → ℕ → List ℕ → Option Decoded
unfolding with_disp
decode_sib n x m reg s ds =
    let no_base = m == 0 && s % 8 == 5 in
    with_disp reg (if no_base then none else some (s % 8))
      (if s / 8 % 8 == 4 && not x then none else some (s / 8 % 8, 2 ^ (s / 64)))
      (read_disp n m no_base ds)

unfoldable pub decode : ℕ → Bool → List ℕ → Option Decoded
unfolding decode_sib with_disp
decode n x [] = none
decode n x (b ∷ rest) =
    let m = b / 64 in
    if m == 3
    then none
    else if b % 8 == 4
    then (elim rest [ [] ↦ none | s ∷ ds ↦ decode_sib n x m (b / 8 % 8) s ds ])
    else if m == 0 && b % 8 == 5
    then none
    else with_disp (b / 8 % 8) (some (b % 8)) none (read_disp n m false rest)

-- What is known of the displacement that is written.
pub record Written (e : RegExp) (n : ℕ) (p : ℕ × ℕ) : Type 0 where
  pub below : p.0 < 3
  pub base5 : p.0 ≡ 0 → has_bit e.base ≡ true → get_idx e.base % 8 ≢ 5
  pub no_base : has_bit e.base ≡ false → p.0 ≡ 0
  pub reads : read_disp n p.0 (not (has_bit e.base)) (disp_bytes e p) ≡ some e.disp

pub near :
    (e : RegExp)
    → check_disp e ≡ ok tt
    → e.disp < 2 ^ 64
    → (e.disp < 2 ^ 31) ⊎ (2 ^ 64 - 2 ^ 31 ≤ e.disp)
unfolding check_disp
near e checked word = ground (arith, checked, word)

abbrev word4 : ℕ → ℕ
word4 v =
    u8 v + 256 * u8 (v / 256) + 65536 * u8 (v / 256 / 256) + 16777216 * u8 (v / 256 / 256 / 256)

sign32_lem :
    (d : ℕ) → (d < 2 ^ 31) ⊎ (2 ^ 64 - 2 ^ 31 ≤ d) → d < 2 ^ 64 → sign32 (word4 (u32 d)) ≡ d
sign32_lem d n word = rw (whole (u32 d) (omega arith)) (ground (arith, n, word))
  where
    whole : (v : ℕ) → v < 2 ^ 32 → word4 v ≡ v
    whole v h = omega arith

sign8_lem :
    (d : ℕ)
    → (d < 2 ^ 31) ⊎ (2 ^ 64 - 2 ^ 31 ≤ d)
    → d < 2 ^ 64
    → is_in_disp8 (u32 d) ≡ true
    → sign8 (u8 (u32 d)) ≡ d
sign8_lem d n word small = ground (arith, n, word, small)

-- The values that disp8N has.
abbrev pub IsUnit : ℕ → Type 0
IsUnit n = (n ≡ 0) ⊎ (n ≡ 1) ⊎ (n ≡ 2) ⊎ (n ≡ 4) ⊎ (n ≡ 8) ⊎ (n ≡ 16) ⊎ (n ≡ 32) ⊎ (n ≡ 64)

module _ (d : ℕ) (near_zero : (d < 2 ^ 31) ⊎ (2 ^ 64 - 2 ^ 31 ≤ d)) (word : d < 2 ^ 64) where
  abbrev IsScaled : ℕ → Type 0
  IsScaled n =
      (u32 d % n == 0 && is_in_disp8 (scaled_disp (u32 d) n)) ≡ true
      → u64 (sign8 (u8 (scaled_disp (u32 d) n)) * n) ≡ d

  scaled_lem :
      (n : ℕ) → (n ≡ 1) ⊎ (n ≡ 2) ⊎ (n ≡ 4) ⊎ (n ≡ 8) ⊎ (n ≡ 16) ⊎ (n ≡ 32) ⊎ (n ≡ 64) → IsScaled n
  scaled_lem n (inl h) = rw h (λ s. ground (arith, near_zero, word, s))
  scaled_lem n (inr (inl h)) = rw h (λ s. ground (arith, near_zero, word, s))
  scaled_lem n (inr (inr (inl h))) = rw h (λ s. ground (arith, near_zero, word, s))
  scaled_lem n (inr (inr (inr (inl h)))) = rw h (λ s. ground (arith, near_zero, word, s))
  scaled_lem n (inr (inr (inr (inr (inl h))))) = rw h (λ s. ground (arith, near_zero, word, s))
  scaled_lem n (inr (inr (inr (inr (inr (inl h)))))) =
      rw h (λ s. ground (arith, near_zero, word, s))
  scaled_lem n (inr (inr (inr (inr (inr (inr h)))))) =
      rw h (λ s. ground (arith, near_zero, word, s))

module _ (e : RegExp) (no_label : e.label ≡ none)
    (n : (e.disp < 2 ^ 31) ⊎ (2 ^ 64 - 2 ^ 31 ≤ e.disp)) (word : e.disp < 2 ^ 64) (k : ℕ)
    (is_unit : IsUnit k) where
  Written-none : has_bit e.base ≡ false → Written e k (0, u32 e.disp)
  Written-none no_base = record {
    below = omega arith;
    base5 = λ _ h. absurd (ground (arith, no_base, h));
    no_base = λ _. refl;
    reads = rw no_base (ap some (sign32_lem e.disp n word));
  }

  Written-zero :
      has_bit e.base ≡ true → get_idx e.base % 8 ≢ 5 → u32 e.disp ≡ 0 → Written e k (0, u32 e.disp)
  Written-zero base five zero_disp = record {
    below = omega arith;
    base5 = λ _ _. five;
    no_base = λ _. refl;
    reads = rw base (ap some (ground (arith, n, word, zero_disp)));
  }

  Written-one :
      (v : ℕ) → has_bit e.base ≡ true → u64 (sign8 (u8 v) * unit k) ≡ e.disp → Written e k (1, v)
  Written-one v base same = record {
    below = omega arith;
    base5 = λ z. absurd (omega (arith, z));
    no_base = λ h. absurd (ground (arith, base, h));
    reads = ap some same;
  }

  Written-four : has_bit e.base ≡ true → Written e k (2, u32 e.disp)
  Written-four base = record {
    below = omega arith;
    base5 = λ z. absurd (omega (arith, z));
    no_base = λ h. absurd (ground (arith, base, h));
    reads = ap some (sign32_lem e.disp n word);
  }

  at_mod :
      {m v : ℕ}
      → choose_mod e k (u32 e.disp) ≡ (m, v)
      → Written e k (m, v)
      → Written e k (choose_mod e k (u32 e.disp))
  at_mod same w = rw same w

  abbrev bytes_off : Bool
  bytes_off = not (get_idx e.base % 8 == 5) && u32 e.disp == 0

  -- A displacement without a scale, and one with a scale, of an address with a base.
  unscaled :
      has_bit e.base ≡ true → bytes_off ≡ false → k ≡ 0 → Written e k (choose_mod e k (u32 e.disp))
  unfolding choose_mod
  unscaled base some_disp zero_unit = elim (Bool-cases (is_in_disp8 (u32 e.disp))) [
    | inl small ↦
        at_mod (ground (arith, base, no_label, some_disp, zero_unit, small))
          (Written-one (u32 e.disp) base (rw zero_unit (one_lem (sign8_lem e.disp n word small))))
    | inr large ↦
        at_mod (ground (arith, base, no_label, some_disp, zero_unit, large)) (Written-four base)
  ]
    where
      one_lem : {a : ℕ} → a ≡ e.disp → u64 (a * 1) ≡ e.disp
      one_lem same = omega (arith, same, word)

  scaled :
      has_bit e.base ≡ true
      → bytes_off ≡ false
      → (k ≡ 1) ⊎ (k ≡ 2) ⊎ (k ≡ 4) ⊎ (k ≡ 8) ⊎ (k ≡ 16) ⊎ (k ≡ 32) ⊎ (k ≡ 64)
      → (k == 0) ≡ false
      → Written e k (choose_mod e k (u32 e.disp))
  unfolding choose_mod
  scaled base some_disp some_unit positive =
      elim (Bool-cases (u32 e.disp % k == 0 && is_in_disp8 (scaled_disp (u32 e.disp) k))) [
        | inl fits ↦ at_mod (rw (base, no_label, some_disp, positive, fits) refl) (
            Written-one (scaled_disp (u32 e.disp) k) base
              (rw positive (scaled_lem e.disp n word k some_unit fits)))
        | inr large ↦
            at_mod (rw (base, no_label, some_disp, positive, large) refl) (Written-four base)
      ]

  with_base : has_bit e.base ≡ true → bytes_off ≡ false → Written e k (choose_mod e k (u32 e.disp))
  with_base base some_disp = elim is_unit [
    | inl h ↦ unscaled base some_disp h
    | inr h ↦ scaled base some_disp h (ground (arith, h))
  ]

  pub choose_mod-Written : Written e k (choose_mod e k (u32 e.disp))
  unfolding choose_mod
  choose_mod-Written = elim (Bool-cases (has_bit e.base)) [
    | inr no_base ↦ at_mod (ground (arith, no_base)) (Written-none no_base)
    | inl base ↦ elim (Bool-cases bytes_off) [
      | inl zero_disp ↦
          at_mod (ground (arith, base, no_label, zero_disp))
            (Written-zero base (ground (arith, zero_disp)) (ground (arith, zero_disp)))
      | inr some_disp ↦ with_base base some_disp
    ]
  ]

pub fields :
    (m r b : ℕ)
    → m < 4
    → (mod_rm m r b / 64 ≡ m) × (mod_rm m r b / 8 % 8 ≡ r % 8) × (mod_rm m r b % 8 ≡ b % 8)
fields m r b h = (omega arith, omega arith, omega arith)

-- What the bytes of `e` are to be read as.
abbrev pub Reads : RegExp → ℕ → Decoded
Reads e reg = record {
  reg = reg % 8;
  base = if has_bit e.base then some (get_idx e.base % 8) else none;
  index = if has_bit e.index then some (get_idx e.index % 8, e.scale) else none;
  disp = e.disp;
}

abbrev pub IsScale : ℕ → Type 0
IsScale s = (s ≡ 1) ⊎ (s ≡ 2) ⊎ (s ≡ 4) ⊎ (s ≡ 8)

pub scale_bits_lem : (s : ℕ) → IsScale s → (scale_bits s < 4) × (2 ^ scale_bits s ≡ s)
scale_bits_lem s (inl h) = rw h (omega arith, refl)
scale_bits_lem s (inr (inl h)) = rw h (omega arith, refl)
scale_bits_lem s (inr (inr (inl h))) = rw h (omega arith, refl)
scale_bits_lem s (inr (inr (inr h))) = rw h (omega arith, refl)

pub decode-plain :
    (n : ℕ) (x : Bool) (b m g r d : ℕ) (ds : List ℕ)
    → b / 64 ≡ m
    → b / 8 % 8 ≡ g
    → b % 8 ≡ r
    → m < 3
    → r ≢ 4
    → (m ≡ 0 → r ≢ 5)
    → read_disp n m false ds ≡ some d
    → decode n x (b ∷ ds) ≡ some (record { reg = g; base = some r; index = none; disp = d })
unfolding decode with_disp
decode-plain n x b m g r d ds high mid low small four five reads =
    rw (high, mid, low) (ground (arith, small, four, five, reads))

pub decode-with_sib :
    (n : ℕ) (x : Bool) (b s m g : ℕ) (ds : List ℕ)
    → b / 64 ≡ m
    → b / 8 % 8 ≡ g
    → b % 8 ≡ 4
    → m < 3
    → decode n x (b ∷ s ∷ ds) ≡ decode_sib n x m g s ds
unfolding decode
decode-with_sib n x b s m g ds high mid low small = rw (high, mid, low) (ground (arith, small))

pub decode_sib-base :
    (n : ℕ) (x : Bool) (m g s i r k d : ℕ) (ds : List ℕ)
    → s % 8 ≡ r
    → s / 8 % 8 ≡ i
    → s / 64 ≡ k
    → (m ≡ 0 → r ≢ 5)
    → read_disp n m false ds ≡ some d
    → decode_sib n x m g s ds
      ≡ some (record {
        reg = g;
        base = some r;
        index = if i == 4 && not x then none else some (i, 2 ^ k);
        disp = d;
      })
unfolding decode_sib with_disp
decode_sib-base n x m g s i r k d ds low mid high five reads =
    rw (low, mid, high) (go (m == 0 && r == 5) (ground (arith, five)))
  where
    go :
        (t : Bool)
        → t ≡ false
        → with_disp g
            (if t then none else some r)
            (if i == 4 && not x then none else some (i, 2 ^ k))
            (read_disp n m t ds)
          ≡ some (record {
            reg = g;
            base = some r;
            index = if i == 4 && not x then none else some (i, 2 ^ k);
            disp = d;
          })
    go true h = cc
    go false h = rw reads

pub decode_sib-no_base :
    (n : ℕ) (x : Bool) (g s i k d : ℕ) (ds : List ℕ)
    → s % 8 ≡ 5
    → s / 8 % 8 ≡ i
    → s / 64 ≡ k
    → read_disp n 0 true ds ≡ some d
    → decode_sib n x 0 g s ds
      ≡ some (record {
        reg = g;
        base = none;
        index = if i == 4 && not x then none else some (i, 2 ^ k);
        disp = d;
      })
unfolding decode_sib with_disp
decode_sib-no_base n x g s i k d ds low mid high reads = rw (low, mid, high) (rw reads)
