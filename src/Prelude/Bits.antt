-- ===== src/Prelude/Bits.antt =====
-- Flags of small numbers, as their digits in base 2: finite checks.
use Prim.Native.Nat.{ℕ, ◌/◌, ◌%◌, ◌*◌, ◌-◌, ◌≤◌, ◌<◌, bit_or}
use mathlib.Core.Path.{◌≡◌, refl}
use mathlib.Core.Bool.{Bool, true, ◌&&◌, ◌||◌}
use native.Mathlib.Omega.{arith}
use xbyak.Prelude.Tests.{has, leb, ltb, ◌==◌, ==_iff, if◌then◌else◌}
use xbyak.Prelude.Lists.{all_below, all_below_sound}

abbrev pub flag : Bool → ℕ
flag t = if t then 1 else 0

abbrev same_bit : ℕ → ℕ → Bool
same_bit m i = flag (has i m) == i / m % 2

-- The numbers of registers are below 32.
pub has-digit8 : (i : ℕ) → i < 32 → flag (has i 8) ≡ i / 8 % 2
has-digit8 i h = (==_iff _ _).0 (all_below_sound 32 (same_bit 8) i refl h)

pub has-digit16 : (i : ℕ) → i < 32 → flag (has i 16) ≡ i / 16 % 2
has-digit16 i h = (==_iff _ _).0 (all_below_sound 32 (same_bit 16) i refl h)

abbrev or_row : ℕ → ℕ → Bool
or_row i j = ltb (bit_or i j) 32 && (flag (leb 16 (bit_or i j)) == flag (leb 16 i || leb 16 j))

or_row_lem : (i j : ℕ) → i < 32 → j < 32 → or_row i j ≡ true
or_row_lem i j hi hj =
    all_below_sound 32 (or_row i) j (all_below_sound 32 (λ k. all_below 32 (or_row k)) i refl hi) hj

pub bit_or-small : (i j : ℕ) → i < 32 → j < 32 → bit_or i j < 32
bit_or-small i j hi hj = ground (arith, or_row_lem i j hi hj)

-- An alternative of two numbers is 16 or more as soon as one of them is.
pub leb-bit_or : (i j : ℕ) → i < 32 → j < 32 → leb 16 (bit_or i j) ≡ (leb 16 i || leb 16 j)
leb-bit_or i j hi hj = ground (arith, or_row_lem i j hi hj)

-- A flag that is stored in the bit of weight `k`, inverted or as it is.
pub inverted : (t : Bool) (k : ℕ) → ((if t then 0 else k) ≡ (1 - flag t) * k) × (flag t ≤ 1)
inverted t k = ground arith

pub stored : (t : Bool) (k : ℕ) → ((if t then k else 0) ≡ flag t * k) × (flag t ≤ 1)
stored t k = ground arith
