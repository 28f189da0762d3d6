-- ===== src/Mnemonic/Condition/Meaning.antt =====
-- What the conditions of a processor are true of, by their numbers and by their names.
use Prim.Native.String.{String}
use text.Mathlib.Text.{◌==◌ as str_eq}
use xbyak.Prelude.{
  ℕ, ◌/◌, ◌%◌, ◌≡◌, refl, arith, Bool, true, false, not, ◌&&◌, ◌||◌, ◌==◌, if◌then◌else◌, List, [],
  ◌∷◌, Option, none, some, Bool-cases,
}

pub record CpuFlags : Type 0 where
  pub carry : Bool
  pub is_zero : Bool
  pub sign : Bool
  pub overflow : Bool
  pub parity : Bool

abbrev xor : Bool → Bool → Bool
xor true b = not b
xor false b = b

-- The conditions with even numbers in the processor's encoding; the odd ones are their negations.
abbrev even_holds : ℕ → CpuFlags → Bool
even_holds c f =
    if c == 0
    then f.overflow
    else if c == 1
    then f.carry
    else if c == 2
    then f.is_zero
    else if c == 3
    then f.carry || f.is_zero
    else if c == 4
    then f.sign
    else if c == 5
    then f.parity
    else if c == 6
    then xor f.sign f.overflow
    else f.is_zero || xor f.sign f.overflow

unfoldable pub holds : ℕ → CpuFlags → Bool
holds c f = if c % 2 == 0 then even_holds (c / 2) f else not (even_holds (c / 2) f)

-- The same for ccmp and ctest, where 10 and 11 are always and never.
unfoldable pub source_holds : ℕ → CpuFlags → Bool
unfolding holds
source_holds c f = if c == 10 then true else if c == 11 then false else holds c f

-- A name, the name of the opposite, and what the first is true of: after a comparison `b` and `a`
-- are less and greater without a sign, `l` and `g` with it.
abbrev Meanings : Type 0
Meanings = List (String × String × (CpuFlags → Bool))

abbrev common_meanings : Meanings
common_meanings =
    ("o", "no", λ f. f.overflow)
    ∷ ("b", "nb", λ f. f.carry)
    ∷ ("c", "nc", λ f. f.carry)
    ∷ ("ae", "nae", λ f. not f.carry)
    ∷ ("e", "ne", λ f. f.is_zero)
    ∷ ("z", "nz", λ f. f.is_zero)
    ∷ ("be", "nbe", λ f. f.carry || f.is_zero)
    ∷ ("a", "na", λ f. not f.carry && not f.is_zero)
    ∷ ("s", "ns", λ f. f.sign)
    ∷ ("l", "nl", λ f. xor f.sign f.overflow)
    ∷ ("ge", "nge", λ f. not (xor f.sign f.overflow))
    ∷ ("le", "nle", λ f. f.is_zero || xor f.sign f.overflow)
    ∷ ("g", "ng", λ f. not f.is_zero && not (xor f.sign f.overflow))
    ∷ []

find_meaning : String → Meanings → CpuFlags → Option Bool
find_meaning name [] f = none
find_meaning name ((if_so, if_not, p) ∷ ms) f =
    if str_eq name if_so
    then some (p f)
    else if str_eq name if_not
    then some (not (p f))
    else find_meaning name ms f

unfoldable pub named_condition : String → CpuFlags → Option Bool
unfolding find_meaning
named_condition name =
    find_meaning name (("p", "np", λ f. f.parity) ∷ ("pe", "po", λ f. f.parity) ∷ common_meanings)

unfoldable pub named_source : String → CpuFlags → Option Bool
unfolding find_meaning
named_source name = find_meaning name (("t", "f", λ f. true) ∷ common_meanings)

-- A test at every value of the flags.
abbrev both : (Bool → Bool) → Bool
both p = p true && p false

both_sound : (p : Bool → Bool) → both p ≡ true → (b : Bool) → p b ≡ true
both_sound p h true = ground (arith, h)
both_sound p h false = ground (arith, h, Bool-cases (p true))

unfoldable pub every_flag : (CpuFlags → Bool) → Bool
every_flag p = both (λ a. both (λ b. both (λ c.
    both (λ d.
      both (λ e. p (record { carry = a; is_zero = b; sign = c; overflow = d; parity = e }))))))

pub every_flag-holds : (p : CpuFlags → Bool) → every_flag p ≡ true → (f : CpuFlags) → p f ≡ true
unfolding every_flag
every_flag-holds p h f =
    both_sound
      (λ e. p (record {
        carry = f.carry;
        is_zero = f.is_zero;
        sign = f.sign;
        overflow = f.overflow;
        parity = e;
      }))
      (both_sound
        (λ d. both (λ e. p (record {
          carry = f.carry;
          is_zero = f.is_zero;
          sign = f.sign;
          overflow = d;
          parity = e;
        })))
        (both_sound
          (λ c. both (λ d. both (λ e.
            p (record {
              carry = f.carry;
              is_zero = f.is_zero;
              sign = c;
              overflow = d;
              parity = e;
            }))))
          (both_sound
            (λ b. both (λ c. both (λ d. both (λ e.
              p (record { carry = f.carry; is_zero = b; sign = c; overflow = d; parity = e })))))
            (both_sound
              (λ a. both (λ b. both (λ c. both (λ d.
                both (λ e.
                  p (record { carry = a; is_zero = b; sign = c; overflow = d; parity = e }))))))
              h f.carry)
            f.is_zero)
          f.sign)
        f.overflow)
      f.parity

-- Tests of what a table or a name gives.
unfoldable pub is_value : Option Bool → Bool → Bool
is_value (some true) b = b
is_value (some false) b = not b
is_value none b = false

pub is_value-some : (o : Option Bool) (b : Bool) → is_value o b ≡ true → o ≡ some b
unfolding is_value
is_value-some (some true) true h = refl
is_value-some (some true) false h = cc
is_value-some (some false) true h = cc
is_value-some (some false) false h = refl
is_value-some none b h = cc

unfoldable pub is_one : Option ℕ → ℕ → Bool
is_one none c = false
is_one (some a) c = a == c

pub is_one-some : (o : Option ℕ) (c : ℕ) → is_one o c ≡ true → o ≡ some c
unfolding is_one
is_one-some none c h = cc
is_one-some (some a) c h = ground (arith, h)

unfoldable pub is_pair : Option (ℕ × ℕ) → ℕ → ℕ → Bool
is_pair none c d = false
is_pair (some (a, b)) c d = a == c && b == d

pub is_pair-some : (o : Option (ℕ × ℕ)) (c d : ℕ) → is_pair o c d ≡ true → o ≡ some (c, d)
unfolding is_pair
is_pair-some none c d h = cc
is_pair-some (some (a, b)) c d h =
    let first : a ≡ c = ground (arith, h) in
    let second : b ≡ d = ground (arith, h) in rw (first, second) refl
