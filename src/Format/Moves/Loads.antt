-- ===== src/Format/Moves/Loads.antt =====
-- What `mov(reg, imm)` loads.
use xbyak.Prelude.{
  ℕ, ◌+◌, ◌-◌, ◌*◌, ◌/◌, ◌%◌, ◌^◌, ◌≤◌, ◌<◌, ◌≡◌, ◌⊎◌, Bool, true, false, not, ◌&&◌, leb, ◌==◌,
  if◌then◌else◌, List, [], ◌∷◌, Option, none, some,
}
use xbyak.Rex
use xbyak.Err.{Result, ok, err}
use xbyak.Operand.{Operand, make_reg}
use xbyak.Operand.Kind
use xbyak.CodeArray.{le_bytes, is_in_int32}
use xbyak.Format.Moves.{mov_imm}

-- The prefixes in front of an opcode, as bits: 0x66, W, and the high part of the register's number.
pub record Seen : Type 0 where
  pub small : Bool
  pub wide : Bool
  pub high : ℕ

-- The register and what is done with the bytes of the value: the size of the operand in bits,
-- and whether the value is extended with its sign.
pub record Load : Type 0 where
  pub number : ℕ
  pub bits : ℕ
  pub signed : Bool

abbrev bits_of : Seen → ℕ
bits_of s = if s.wide then 64 else if s.small then 16 else 32

abbrev read_opcode : Seen → List ℕ → Option Load
read_opcode s (o ∷ []) =
    if leb 0xB8 o && leb o 0xBF
    then some (record { number = o - 0xB8 + s.high * 8; bits = bits_of s; signed = false })
    else none
read_opcode s (o ∷ m ∷ []) =
    if o == 0xC7 && m / 8 == 0x18
    then some (record { number = m % 8 + s.high * 8; bits = bits_of s; signed = true })
    else none
read_opcode s _ = none

-- REX (0x40 to 0x4F) and REX2 (0xD5), of which W, B3 and B4 matter here.
abbrev read_rex : Bool → List ℕ → Option Load
read_rex small (p ∷ q ∷ rest) =
    if p == 0xD5
    then read_opcode
        (record { small = small; wide = q / 8 % 2 == 1; high = q % 2 + q / 16 % 2 * 2 }) rest
    else if p / 16 == 4
    then read_opcode (record { small = small; wide = p / 8 % 2 == 1; high = p % 2 }) (q ∷ rest)
    else read_opcode (record { small = small; wide = false; high = 0 }) (p ∷ q ∷ rest)
read_rex small bytes = read_opcode (record { small = small; wide = false; high = 0 }) bytes

abbrev pub read_load : List ℕ → Option Load
read_load (p ∷ rest) = if p == 0x66 then read_rex true rest else read_rex false (p ∷ rest)
read_load [] = none

-- How many bytes of a value the processor takes behind the opcode: as many as the operand has, but
-- four where it extends them with the sign to eight.
abbrev pub imm_bytes : Load → ℕ
imm_bytes l = if l.signed && l.bits == 64 then 4 else l.bits / 8

-- The number whose bytes are given, the lowest first.
abbrev pub of_le : List ℕ → ℕ
of_le [] = 0
of_le (b ∷ bs) = b + 256 * of_le bs

-- The value that the register holds afterwards, from the bytes behind the opcode.
abbrev pub value : Load → List ℕ → ℕ
value l bs =
    if l.signed && l.bits == 64 && leb (2 ^ 31) (of_le bs)
    then of_le bs + (2 ^ 64 - 2 ^ 32)
    else of_le bs

-- What a result of `mov_imm` does, as a test.
abbrev is_load : ℕ → ℕ → Bool → Option Load → Bool
is_load i bits signed none = false
is_load i bits signed (some l) =
    (l.number == i && l.bits == bits) && (if signed then l.signed else not l.signed)

abbrev loads : ℕ → ℕ → Bool → ℕ → Result (List ℕ × ℕ) → Bool
loads i bits signed size (err e) = false
loads i bits signed size (ok p) = p.1 == size && is_load i bits signed (read_load p.0)

record Loads (i bits : ℕ) (signed : Bool) (size : ℕ) (m : Result (List ℕ × ℕ)) : Type 0 where
  pub bytes : List ℕ
  pub returned : m ≡ ok (bytes, size)
  pub read : read_load bytes ≡ some (record { number = i; bits = bits; signed = signed })

check : (i bit v : ℕ) (signed : Bool) (bits size : ℕ) → Bool
unfolding mov_imm
check i bit v signed bits size = loads i bits signed size (mov_imm (make_reg i Kind.reg bit) v)

-- The four kinds of value, each with one that stands for it.
abbrev Alike : ℕ → ℕ → Type 0
Alike imm v = ((imm / 2 ^ 32 == 0) ≡ (v / 2 ^ 32 == 0)) × (is_in_int32 imm ≡ is_in_int32 v)

data Range (imm : ℕ) : Type 0 where
  positive : imm < 2 ^ 31 → Alike imm 0 → Range imm
  unsigned : 2 ^ 31 ≤ imm → imm < 2 ^ 32 → Alike imm (2 ^ 31) → Range imm
  negative : 2 ^ 64 - 2 ^ 31 ≤ imm → imm < 2 ^ 64 → Alike imm (2 ^ 64 - 1) → Range imm
  large : imm < 2 ^ 64 → Alike imm (2 ^ 40) → Range imm

-- What the theorem says of the register, the value and a result.
pub record IsLoaded (i bit imm : ℕ) (m : Result (List ℕ × ℕ)) : Type 0 where
  pub result : List ℕ × ℕ
  pub load : Load
  pub returned : m ≡ ok result
  pub read : read_load result.0 ≡ some load
  pub same_number : load.number ≡ i
  pub same_bits : (load.bits ≡ bit) ⊎ ((bit ≡ 64) × (load.bits ≡ 32))
  pub same_bytes : result.1 ≡ imm_bytes load
  pub same_value : value load (le_bytes result.1 imm) ≡ imm % 2 ^ bit
