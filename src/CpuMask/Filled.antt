-- ===== src/CpuMask/Filled.antt =====
-- What append has to do: the objects that it is applied to, the outcome that the set asks for, and
-- the branches that it takes.
use xbyak.Prelude.{
  ℕ, ◌+◌, ◌*◌, ◌≤◌, ◌<◌, ◌≡◌, refl, ap, ◌⊎◌, inl, inr, arith, true, false, leb, ltb, ◌==◌,
  if◌then◌else◌, Bool-cases, List, [], ◌∷◌, ◌++◌,
}
use xbyak.Err.{ErrorCode, ok, err}
use xbyak.CpuMask.{
  CpuMask, get_field, is_empty, append, append_value, append_interval, set_append, mask,
}
use xbyak.CpuMask.Fields.{single_field, no_field}
use xbyak.CpuMask.Words.{singles-next, intervals-next}
use xbyak.CpuMask.Values.{singles, upto, intervals, values, greatest-snoc}

-- An object that is not empty: nothing is stored behind its `n_ + 1` elements, and with intervals
-- the elements are pairs.
pub record IsFilled (m : CpuMask) : Type 0 where
  pub in_word : m.n < 6
  pub clear_behind : (j : ℕ) → m.n < j → j < 6 → get_field m.a j ≡ 0
  pub pairs : m.range ≡ true → (q : ℕ) × (m.n ≡ q * 2 + 1)

abbrev pub IsValid : CpuMask → Type 0
IsValid m = (is_empty m ≡ true) ⊎ IsFilled m

pub filled-is_empty : {m : CpuMask} → IsFilled m → is_empty m ≡ false
unfolding is_empty get_field
filled-is_empty {m} f = elim (Bool-cases (is_empty m)) [
  | inl e ↦ absurd (omega (arith, f.clear_behind 1 (ground (arith, e)) (omega arith), word e))
  | inr e ↦ e
]
  where
    word : is_empty m ≡ true → m.a ≡ 1024
    word e = ground (arith, e)

flag_lem : (m : CpuMask) → is_empty m ≡ true → m.range ≡ false
unfolding is_empty
flag_lem m e = ground (arith, e)

-- What the set does with a last element, and when it is empty.
set_append-nil : (v : ℕ) → v < 1024 → set_append [] v ≡ (v ∷ [], true)
unfolding set_append
set_append-nil v small = ground arith

pub set_append-snoc :
    (xs : List ℕ) (x v : ℕ)
    → v < 1024
    → set_append (xs ++ x ∷ []) v
      ≡ (if leb v x then (xs ++ x ∷ [], false) else ((xs ++ x ∷ []) ++ v ∷ [], true))
unfolding set_append
set_append-snoc xs x v small = rw (greatest-snoc xs x) (ground arith)

-- The outcome of append: the same as that of the set, or there is no room.
abbrev pub Refined : CpuMask → ℕ → Type 0
Refined m v =
    ((m' : CpuMask) × (append m v ≡ ok m')
      × IsValid m'
      × (set_append (values m) v ≡ (values m', true)))
    ⊎ ((append m v ≡ err ErrorCode.err_invalid_cpumask_index)
        × ((set_append (values m) v ≡ (values m, false)) ⊎ (5 ≤ m.n)))

values-single : (v : ℕ) → v < 1024 → values (record { a = v; n = 0; range = false }) ≡ v ∷ []
unfolding is_empty
values-single v small =
    let other : (v == 1024) ≡ false = ground arith in rw (other, single_field v small) refl

pub in_mask : (v : ℕ) → v < 1024 → ltb mask v ≡ false
in_mask v small = ground arith

pub append-empty : (m : CpuMask) (v : ℕ) → v < 1024 → is_empty m ≡ true → Refined m v
unfolding append
append-empty m v small e = inl (
  record { a = v; n = 0; range = false },
  rw (in_mask v small, e) (ap (λ r. ok (record { a = v; n = 0; range = r })) discrete),
  inr (record {
    in_word = omega arith;
    clear_behind = no_field v small;
    pairs = λ impossible. absurd (ground (arith, impossible));
  }),
  in_set,
)
  where
    discrete : m.range ≡ false
    discrete = flag_lem m e

    in_set : set_append (values m) v ≡ (values (record { a = v; n = 0; range = false }), true)
    in_set = rw (e, values-single v small) (set_append-nil v small)

module _ (m : CpuMask) (v : ℕ) (small : v < 1024) (f : IsFilled m) where
  pub by_value : m.range ≡ false → append m v ≡ append_value m v
  unfolding append
  by_value discrete = rw (in_mask v small, filled-is_empty f, discrete) refl

  pub by_interval : m.range ≡ true → append m v ≡ append_interval m v
  unfolding append
  by_interval paired = rw (in_mask v small, filled-is_empty f, paired) refl

  -- The elements up to the last one, and the last one.
  pub values-discrete : m.range ≡ false → values m ≡ singles m.a m.n ++ get_field m.a m.n ∷ []
  values-discrete discrete = rw (filled-is_empty f, discrete) (singles-next m.a m.n)

  pub values-paired :
      (q : ℕ)
      → m.n ≡ q * 2 + 1
      → m.range ≡ true
      → values m
        ≡ (intervals m.a q ++ upto (get_field m.a (q * 2)) (get_field m.a m.n))
          ++ (get_field m.a (q * 2) + get_field m.a m.n) ∷ []
  values-paired q odd paired = rw (filled-is_empty f, paired) (intervals-next m.a q m.n odd)
