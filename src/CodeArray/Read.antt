-- ===== src/CodeArray/Read.antt =====
-- Reading back what was appended.
use Prim.Native.Nat.add
use native.Mathlib.Nat.{add_assoc}
use xbyak.Prelude.{
  ℕ, zero, suc, ◌+◌, ◌≤◌, ◌<◌, ◌≡◌, refl, ◌∙◌, sym, ap, List, [], ◌∷◌, ◌++◌, map, arith, length,
  get_or, take, u8, length-take_le,
}
use xbyak.CodeArray.{CodeArray}
use xbyak.CodeArray.Emit.{IsValid, Appends, code}
use xbyak.CodeArray.Patch.{read_word}

get_or-take : (n : ℕ) (xs : List ℕ) (i : ℕ) → i < n → get_or (take n xs) i 0 ≡ get_or xs i 0
get_or-take zero xs i h = elim h [ ]
get_or-take (suc n) [] i h = refl
get_or-take (suc n) (x ∷ xs) zero h = refl
get_or-take (suc n) (x ∷ xs) (suc i) h = get_or-take n xs i (omega arith)

get_or-append_left :
    (xs ys : List ℕ) (i : ℕ) → i < length xs → get_or (xs ++ ys) i 0 ≡ get_or xs i 0
get_or-append_left [] ys i h = elim h [ ]
get_or-append_left (x ∷ xs) ys zero h = refl
get_or-append_left (x ∷ xs) ys (suc i) h = get_or-append_left xs ys i (omega arith)

get_or-append_right : (xs ys : List ℕ) (i : ℕ) → get_or (xs ++ ys) (length xs + i) 0 ≡ get_or ys i 0
get_or-append_right [] ys i = rw add.zero
get_or-append_right (x ∷ xs) ys i = rw add.suc (get_or-append_right xs ys i)

length-map-u8 : (bs : List ℕ) → length (map u8 bs) ≡ length bs
length-map-u8 [] = refl
length-map-u8 (b ∷ bs) = ap suc (length-map-u8 bs)

module _ (bs : List ℕ) {c c' : CodeArray} (v : IsValid c) (a : Appends c bs c') where
  length-code : length (code c) ≡ c.size
  length-code = length-take_le c.size c.bytes (omega (arith, v.allocated, v.within))

  byte_old : (i : ℕ) → i < c.size → get_or c'.bytes i 0 ≡ get_or c.bytes i 0
  byte_old i h =
      sym (get_or-take c'.size c'.bytes i (omega (arith, a.size_grows)))
      ∙ ap (λ (m : List ℕ). get_or m i 0) a.code_grows
      ∙ get_or-append_left (code c) (map u8 bs) i (omega (arith, length-code))
      ∙ get_or-take c.size c.bytes i h

  byte_new : (i : ℕ) → i < length bs → get_or c'.bytes (c.size + i) 0 ≡ get_or (map u8 bs) i 0
  byte_new i h =
      sym (get_or-take c'.size c'.bytes (c.size + i) (omega (arith, a.size_grows)))
      ∙ ap (λ (m : List ℕ). get_or m (c.size + i) 0) a.code_grows
      ∙ ap (λ (n : ℕ). get_or (code c ++ map u8 bs) (n + i) 0) (sym length-code)
      ∙ get_or-append_right (code c) (map u8 bs) i

  -- What was written before is as it was.
  pub read_word-old : (n j : ℕ) → j + n ≤ c.size → read_word c'.bytes j n ≡ read_word c.bytes j n
  read_word-old zero j h = refl
  read_word-old (suc n) j h =
      omega (arith, byte_old j (omega arith), read_word-old n (j + 1) (omega arith))

  -- What was appended is read back.
  pub read_word-new :
      (n k : ℕ) → k + n ≤ length bs → read_word c'.bytes (c.size + k) n ≡ read_word (map u8 bs) k n
  read_word-new zero k h = refl
  read_word-new (suc n) k h = omega (
    arith,
    byte_new k (omega arith),
    read_word-new n (k + 1) (omega arith),
    ap (λ (i : ℕ). read_word c'.bytes i n) (add_assoc c.size k 1),
  )
