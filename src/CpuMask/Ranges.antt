-- ===== src/CpuMask/Ranges.antt =====
-- The compact version against the set: `appendRange`, and `size`.
use xbyak.Prelude.{
  ℕ, zero, suc, ◌+◌, ◌-◌, ◌*◌, ◌≤◌, ◌<◌, ◌≡◌, inl, inr, refl, ap, ◌∙◌, leb, ltb, true, false, ◌&&◌,
  ◌||◌, Bool-cases, arith, List, [], ◌∷◌, ◌++◌, length, length-append,
}
use xbyak.CpuMask.{
  CpuMask, append_range, set_append, set_append_range, set_append_loop, is_empty, size, size_from,
  get_field,
}
use xbyak.CpuMask.Values.{values, upto, singles, intervals}
use xbyak.CpuMask.Filled.{IsFilled, IsValid, filled-is_empty, set_append-snoc, values-paired}

-- What the set does with a number that is not behind its last element.
set_append-refused :
    (xs : List ℕ) (x v : ℕ) → v < 1024 → v ≤ x → set_append (xs ++ x ∷ []) v ≡ (xs ++ x ∷ [], false)
set_append-refused xs x v small below =
    let test : leb v x ≡ true = ground arith in rw (set_append-snoc xs x v small, test) refl

loop-refused :
    (k v : ℕ) (xs : List ℕ)
    → 0 < k
    → set_append xs v ≡ (xs, false)
    → set_append_loop k v xs ≡ (xs, false)
unfolding set_append_loop
loop-refused zero v xs some_round refused = absurd (omega arith)
loop-refused (suc k) v xs some_round refused = rw refused refl

module _ (m : CpuMask) (f : IsFilled m) (q : ℕ) (odd : m.n ≡ q * 2 + 1)
    (paired : m.range ≡ true) where
  refused :
      (v : ℕ)
      → v < 1024
      → v ≤ get_field m.a (q * 2) + get_field m.a m.n
      → set_append (values m) v ≡ (values m, false)
  refused v small behind = rw (values-paired m v small f q odd paired) (
      set_append-refused (intervals m.a q ++ upto (get_field m.a (q * 2)) (get_field m.a m.n))
        (get_field m.a (q * 2) + get_field m.a m.n) v small behind)

  -- On an object of intervals with room for one more, a range that does not start behind the last
  -- element is taken by appendRange of the compact version, while the set refuses it and is not
  -- changed.
  pub append_range-unchecked :
      (a b : ℕ)
      → m.n < 5
      → a ≤ b
      → b < 1024
      → a ≤ get_field m.a (q * 2) + get_field m.a m.n
      → ((append_range m a b).1 ≡ true) × (set_append_range (values m) a b ≡ (values m, false))
  unfolding append_range set_append_range
  append_range-unchecked a b room order word behind =
      let ordered : ltb b a ≡ false = ground arith in
      let open_pair : ((is_empty m || (m.range && ltb m.n 5)) && (leb a b && leb b 1023)) ≡ true =
        ground (arith, paired) in
      (
        rw open_pair refl,
        rw ordered
            (loop-refused (b + 1 - a) a (values m) (omega arith) (refused a (omega arith) behind)),
      )

upto-length : (s n : ℕ) → length (upto s n) ≡ n
upto-length s zero = refl
upto-length s (suc n) = rw (length-append (upto s n) ((s + n) ∷ []), upto-length s n) (omega arith)

singles-length : (a n : ℕ) → length (singles a n) ≡ n
singles-length a zero = refl
singles-length a (suc n) =
    rw (length-append (singles a n) (get_field a n ∷ []), singles-length a n) (omega arith)

-- The numbers of elements of the intervals, from one on.
pairs_sum :
    (a q : ℕ)
    → length (intervals a (suc q)) ≡ length (intervals a q) + (get_field a (q * 2 + 1) + 1)
pairs_sum a q =
    length-append (intervals a q) (upto (get_field a (q * 2)) (get_field a (q * 2 + 1) + 1))
    ∙ ap (λ n. length (intervals a q) + n)
        (upto-length (get_field a (q * 2)) (get_field a (q * 2 + 1) + 1))

size-paired :
    (m : CpuMask)
    → IsFilled m
    → (q : ℕ) → m.n ≡ q * 2 + 1
    → m.range ≡ true
    → size m ≡ length (values m)
unfolding size size_from
size-paired m f zero odd paired =
    rw (filled-is_empty f, paired, odd) (omega (arith, pairs_sum m.a 0))
size-paired m f (suc zero) odd paired =
    rw (filled-is_empty f, paired, odd) (omega (arith, pairs_sum m.a 0, pairs_sum m.a 1))
size-paired m f (suc (suc zero)) odd paired =
    rw (filled-is_empty f, paired, odd)
      (omega (arith, pairs_sum m.a 0, pairs_sum m.a 1, pairs_sum m.a 2))
size-paired m f (suc (suc (suc q))) odd paired = absurd (omega (arith, f.in_word))

-- The number of elements that size counts.
pub size-values : (m : CpuMask) → IsValid m → size m ≡ length (values m)
unfolding size
size-values m (inl e) = rw e refl
size-values m (inr f) = elim (Bool-cases (m.range)) [
  | inl paired ↦ let (q, odd) = f.pairs paired in size-paired m f q odd paired
  | inr discrete ↦ rw (filled-is_empty f, discrete, singles-length m.a (m.n + 1)) refl
]
