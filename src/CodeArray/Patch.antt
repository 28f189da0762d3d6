-- ===== src/CodeArray/Patch.antt =====
-- `rewrite`: a word is stored over the bytes at an offset, wherever that lies in the buffer.
use mathlib.Core.Logic.{◌⊎◌, inl, inr}
use native.Mathlib.Nat.{pow-succ', div-add-mod, div-div-eq-div-mul}
use native.Mathlib.Decide.{dec_lt}
use xbyak.Prelude.{
  Bool, ◌||◌, ◌==◌, Bool-cases, ℕ, zero, suc, ◌+◌, ◌-◌, ◌*◌, ◌/◌, ◌%◌, ◌^◌, ◌≤◌, ◌<◌, ◌≡◌, refl,
  ◌∙◌, true, false, List, [], ◌∷◌, arith, length, length-set, get_or, get_or-set_self,
  get_or-set_ne, set,
}
use xbyak.Err.{ErrorCode, ok, err}
use xbyak.CodeArray.{CodeArray, rewrite, le_bytes, write_bytes}
use xbyak.CodeArray.Emit.{IsValid}

-- The word of `n` bytes that the memory holds at an index, the lowest byte first.
abbrev pub read_word : List ℕ → ℕ → ℕ → ℕ
read_word mem i zero = 0
read_word mem i (suc n) = get_or mem i 0 + 256 * read_word mem (i + 1) n

pub length-le_bytes : (n v : ℕ) → length (le_bytes n v) ≡ n
length-le_bytes zero v = refl
length-le_bytes (suc n) v = omega (arith, length-le_bytes n (v / 256))

pub length-write_bytes :
    (mem : List ℕ) (i : ℕ) (bs : List ℕ) → length (write_bytes mem i bs) ≡ length mem
length-write_bytes mem i [] = refl
length-write_bytes mem i (b ∷ bs) = length-write_bytes (set mem i b) (i + 1) bs ∙ length-set mem i b

pub get_or-write_bytes :
    (mem : List ℕ) (i : ℕ) (bs : List ℕ) (j : ℕ)
    → (j < i) ⊎ (i + length bs ≤ j)
    → get_or (write_bytes mem i bs) j 0 ≡ get_or mem j 0
get_or-write_bytes mem i [] j h = refl
get_or-write_bytes mem i (b ∷ bs) j h =
    get_or-write_bytes (set mem i b) (i + 1) bs j (omega arith)
    ∙ get_or-set_ne mem i j b 0 (omega arith)

-- A word depends on its own bytes only.
pub read_word-write_bytes_outside :
    (mem : List ℕ) (i : ℕ) (bs : List ℕ) (j n : ℕ)
    → (j + n ≤ i) ⊎ (i + length bs ≤ j)
    → read_word (write_bytes mem i bs) j n ≡ read_word mem j n
read_word-write_bytes_outside mem i bs j zero h = refl
read_word-write_bytes_outside mem i bs j (suc n) h = omega (
  arith,
  get_or-write_bytes mem i bs j (omega arith),
  read_word-write_bytes_outside mem i bs (j + 1) n (omega arith),
)

mod-pow_256 : (n v : ℕ) → v % 256 ^ suc n ≡ v % 256 + 256 * (v / 256 % 256 ^ n)
mod-pow_256 n v = rw (pow-succ' 256 n) (split (256 ^ n))
  where
    split : (p : ℕ) → v % (256 * p) ≡ v % 256 + 256 * (v / 256 % p)
    split p =
        let whole = rw (← div-div-eq-div-mul v 256 p) at (div-add-mod v (256 * p)) in
        omega (arith, whole, div-add-mod (v / 256) p)

pub read_word-write_bytes :
    (mem : List ℕ) (i n v : ℕ)
    → i + n ≤ length mem
    → read_word (write_bytes mem i (le_bytes n v)) i n ≡ v % 256 ^ n
read_word-write_bytes mem i zero v h = omega arith
read_word-write_bytes mem i (suc n) v h = omega (
  arith,
  mod-pow_256 n v,
  get_or-write_bytes (set mem i (v % 256)) (i + 1) (le_bytes n (v / 256)) i (omega arith),
  get_or-set_self mem i (v % 256) 0 (omega arith),
  read_word-write_bytes (set mem i (v % 256)) (i + 1) n (v / 256)
      (omega (arith, length-set mem i (v % 256))),
)

-- The sizes that `rewrite` accepts.
abbrev pub is_word_size : ℕ → Bool
is_word_size n = n == 1 || (n == 2 || (n == 4 || n == 8))

-- The effect of a rewrite: the word stands at the offset, and all that does not overlap it, the
-- written code too, is as before.
pub record Rewritten (offset disp n : ℕ) (c c' : CodeArray) : Type 0 where
  pub valid : IsValid c'
  pub word : read_word c'.bytes offset n ≡ disp % 256 ^ n
  pub outside :
      (j m : ℕ)
      → (j + m ≤ offset) ⊎ (offset + n ≤ j)
      → read_word c'.bytes j m ≡ read_word c.bytes j m
  pub same_size : c'.size ≡ c.size
  pub same_max_size : c'.max_size ≡ c.max_size
  pub same_type : c'.type_ ≡ c.type_
  pub same_top : c'.top ≡ c.top
  pub same_list : c'.addr_info_list ≡ c.addr_info_list

pub rewrite-Rewritten :
    (offset disp n : ℕ) (c : CodeArray)
    → IsValid c
    → is_word_size n ≡ true
    → offset + n ≤ c.max_size
    → (c' : CodeArray) × (rewrite offset disp n c ≡ ok c') × Rewritten offset disp n c c'
unfolding rewrite
rewrite-Rewritten offset disp n c v sized fits = (
  record c { bytes = write_bytes c.bytes offset (le_bytes n disp) },
  ground arith,
  record {
    valid = record {
      allocated = length-write_bytes c.bytes offset (le_bytes n disp) ∙ v.allocated;
      within = v.within;
      present = v.present;
    };
    word = read_word-write_bytes c.bytes offset n disp (omega (arith, v.allocated));
    outside = λ j m away.
        read_word-write_bytes_outside c.bytes offset (le_bytes n disp) j m
          (omega (arith, length-le_bytes n disp));
    same_size = refl;
    same_max_size = refl;
    same_type = refl;
    same_top = refl;
    same_list = refl;
  },
)

-- `rewrite` of a buffer either stores the word and leaves the rest, where the window lies within
-- the buffer and has a size of 1, 2, 4 or 8 bytes, or fails: with ERR_OFFSET_IS_TOO_BIG where the
-- window sticks out (or starts at the end), and otherwise with ERR_BAD_PARAMETER.
pub rewrite_lem :
    (offset disp n : ℕ) (c : CodeArray)
    → IsValid c
    → ((offset + n ≤ c.max_size)
        × (is_word_size n ≡ true)
        × ((c' : CodeArray) × (rewrite offset disp n c ≡ ok c') × Rewritten offset disp n c c'))
      ⊎ ((c.max_size < offset + suc (n - 1))
          × (rewrite offset disp n c ≡ err ErrorCode.err_offset_is_too_big))
      ⊎ ((offset + n ≤ c.max_size)
          × (is_word_size n ≡ false)
          × (rewrite offset disp n c ≡ err ErrorCode.err_bad_parameter))
rewrite_lem offset disp n c v = elim (dec_lt c.max_size (offset + suc (n - 1))) [
  | yes out ↦ inr (inl (out, (unfold rewrite in ground arith)))
  | no fits ↦ elim (Bool-cases (is_word_size n)) [
    | inl sized ↦ inl (omega arith, sized, rewrite-Rewritten offset disp n c v sized (omega arith))
    | inr odd ↦ inr (inr (omega arith, odd, (unfold rewrite in ground arith)))
  ]
]
