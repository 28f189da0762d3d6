-- ===== src/RegExp/Meaning.antt =====
-- The address that a `RegExp` stands for, whatever the registers hold.
use xbyak.Prelude.{
  ℕ, ◌+◌, ◌*◌, ◌≡◌, refl, ap, ◌∙◌, Bool, true, false, ◌⊎◌, inl, inr, arith, ◌&&◌, ◌||◌,
  if◌then◌else◌, Bool-cases, Option, none, some, u64,
}
use xbyak.Err.{ErrorCode, Result, ok, err, ◌>>=◌, OnOk, OnOk-map, OnOk-bind, OnOk-mono, OnOk-both}
use xbyak.Operand.{Operand}
use xbyak.RegExp.{
  RegExp, is_some, has_bit, optimize, join_base, join_index, check_add, plus_disp, add,
}

-- The label and the flags of a sum.
record Marks (a b r : RegExp) : Type 0 where
  label : ((a.label ≡ none) × (r.label ≡ b.label)) ⊎ ((b.label ≡ none) × (r.label ≡ a.label))
  rip : (b.rip ≡ false) × (r.rip ≡ a.rip)
  pointer :
      ((a.as_ptr ≡ false) × (r.as_ptr ≡ b.as_ptr)) ⊎ ((b.as_ptr ≡ false) × (r.as_ptr ≡ a.as_ptr))

-- Of two options that are not both there, the first that is.
joined_label :
    (o p : Option ℕ)
    → (is_some o && is_some p) ≡ false
    → ((o ≡ none) × ((elim o [ some l ↦ some l | none ↦ p ]) ≡ p))
      ⊎ ((p ≡ none) × ((elim o [ some l ↦ some l | none ↦ p ]) ≡ o))
joined_label none p h = inl (refl, refl)
joined_label (some l) none h = inr (refl, refl)
joined_label (some l) (some k) h = cc

joined_flag :
    (s t : Bool)
    → (s && t) ≡ false
    → ((s ≡ false) × ((s || t) ≡ t)) ⊎ ((t ≡ false) × ((s || t) ≡ s))
joined_flag false t h = inl (refl, refl)
joined_flag true false h = inr (refl, refl)
joined_flag true true h = cc

join_base-marks :
    (ret : RegExp) (b : Operand)
    → OnOk
        (λ r. (r.label ≡ ret.label) × (r.rip ≡ ret.rip) × (r.as_ptr ≡ ret.as_ptr))
        (join_base ret b)
unfolding join_base
join_base-marks ret b = ground arith

check_add-lem :
    (a b : RegExp)
    → check_add a b ≡ ok tt
    → ((is_some a.label && is_some b.label) ≡ false)
      × (b.rip ≡ false)
      × ((a.as_ptr && b.as_ptr) ≡ false)
unfolding check_add
check_add-lem a b h = (ground (arith, h), ground (arith, h), ground (arith, h))

add-Marks : (a b : RegExp) → OnOk (Marks a b) (add a b)
unfolding add join_index
add-Marks a b =
    OnOk-bind (Marks a b) (check_add a b)
      (λ _. join_base (join_index a b) b.base >>= plus_disp b.disp)
      λ _ checked.
        let (labels, rip, pointers) = check_add-lem a b checked in
        OnOk-map
          (λ r.
            (r.label ≡ (join_index a b).label)
            × (r.rip ≡ a.rip)
            × (r.as_ptr ≡ (a.as_ptr || b.as_ptr)))
          (Marks a b) (join_base (join_index a b) b.base) (plus_disp b.disp)
          (join_base-marks (join_index a b) b.base)
          λ r (same_label, same_rip, same_pointer). record {
            label = rw same_label (joined_label a.label b.label labels);
            rip = (rip, same_rip);
            pointer = rw same_pointer (joined_flag a.as_ptr b.as_ptr pointers);
          }

module _ (value : Operand → ℕ) where
  -- What a register adds: nothing where there is none.
  abbrev pub part : Operand → ℕ
  part r = if has_bit r then value r else 0

  abbrev pub sum_of : RegExp → ℕ
  sum_of e = part e.base + part e.index * e.scale + e.disp

  abbrev pub effective : RegExp → ℕ
  effective e = u64 (sum_of e)

  join_base_lem :
      (ret : RegExp) (b : Operand) → OnOk (λ r. sum_of r ≡ sum_of ret + part b) (join_base ret b)
  unfolding join_base
  join_base_lem ret b = ground arith

  join_index_lem :
      (a b : RegExp)
      → (has_bit a.index && has_bit b.index) ≡ false
      → sum_of (join_index a b) ≡ sum_of a + part b.index * b.scale
  unfolding join_index
  join_index_lem a b h = ground (arith, h)

  with_disp :
      (r : RegExp) (d : ℕ) → effective (record r { disp = u64 (r.disp + d) }) ≡ u64 (sum_of r + d)
  with_disp r d = omega arith

  combine : (x p q n d s : ℕ) → s ≡ x + q * n + p → u64 (s + d) ≡ u64 (u64 x + u64 (p + q * n + d))
  combine x p q n d s h = omega (arith, h)

  check_add-index :
      (a b : RegExp) → check_add a b ≡ ok tt → (has_bit a.index && has_bit b.index) ≡ false
  unfolding check_add
  check_add-index a b h = elim (Bool-cases (has_bit a.index && has_bit b.index)) [
    | inl both ↦ absurd (refused (rw both at h))
    | inr one ↦ one
  ]
    where
      refused : ◌≡◌ {A = Result (Unit {0})} (err ErrorCode.err_bad_addressing) (ok tt) → ⊥
      refused e = cc

  sum_address : (a b : RegExp) → OnOk (λ r. effective r ≡ u64 (effective a + effective b)) (add a b)
  unfolding add
  sum_address a b =
      let P : RegExp → Type 0 = λ r. effective r ≡ u64 (effective a + effective b) in
      OnOk-bind P (check_add a b) (λ _. join_base (join_index a b) b.base >>= plus_disp b.disp)
        λ _ checked.
          OnOk-map (λ r. sum_of r ≡ sum_of (join_index a b) + part b.base) P
            (join_base (join_index a b) b.base) (plus_disp b.disp)
            (join_base_lem (join_index a b) b.base)
            λ r e.
              with_disp r b.disp
              ∙ combine (sum_of a) (part b.base) (part b.index) b.scale b.disp (sum_of r)
                  (e ∙ ap (λ s. s + part b.base) (join_index_lem a b (check_add-index a b checked)))

  -- What a sum is: its registers and its displacement, and the label and the flags of whichever has
  -- them, of a label and of a pointer not both.
  pub record IsSum (a b r : RegExp) : Type 0 where
    pub address : effective r ≡ u64 (effective a + effective b)
    pub label : ((a.label ≡ none) × (r.label ≡ b.label)) ⊎ ((b.label ≡ none) × (r.label ≡ a.label))
    pub rip : (b.rip ≡ false) × (r.rip ≡ a.rip)
    pub pointer :
        ((a.as_ptr ≡ false) × (r.as_ptr ≡ b.as_ptr)) ⊎ ((b.as_ptr ≡ false) × (r.as_ptr ≡ a.as_ptr))

  -- When `a + b` returns, its registers and its displacement add up to the sum of those of `a` and
  -- `b`, modulo 2 ^ 64, whatever the registers hold; one of the two at most has a label, and the
  -- sum has it, and the same for a pointer; and it is relative to `rip` where `a` is, and `b` is not.
  pub add-effective : (a b : RegExp) → OnOk (IsSum a b) (add a b)
  add-effective a b =
      OnOk-mono (λ r. (effective r ≡ u64 (effective a + effective b)) × Marks a b r) (IsSum a b)
        (add a b)
        (λ r q. record { address = q.0; label = q.1.label; rip = q.1.rip; pointer = q.1.pointer })
        (OnOk-both (λ r. effective r ≡ u64 (effective a + effective b)) (Marks a b) (add a b)
          (sum_address a b) (add-Marks a b))

  -- `optimize`, that writes `[reg * 2]` as `[reg + reg]`, does not change the address.
  pub optimize-effective : (e : RegExp) → effective (optimize e) ≡ effective e
  unfolding optimize
  optimize-effective e = ground arith

-- Two expressions without a label, `rip` or a pointer have a sum, where together they have one
-- index at most, and none if both have a base: `a + b` returns.
pub add-returns :
    (a b : RegExp)
    → (a.label ≡ none) × (b.label ≡ none)
    → (a.rip ≡ false) × (b.rip ≡ false)
    → (a.as_ptr ≡ false) × (b.as_ptr ≡ false)
    → (has_bit a.index && has_bit b.index) ≡ false
    → (has_bit a.base && has_bit b.base && (has_bit a.index || has_bit b.index)) ≡ false
    → (r : RegExp) × (add a b ≡ ok r)
unfolding add
add-returns a b l r p i j = is_ok (add a b) (ground (arith, l, r, p, i, j))
  where
    is_ok :
        (m : Result RegExp)
        → ((elim m [ ok _ ↦ true | err _ ↦ false ]) ≡ true)
        → (r : RegExp) × (m ≡ ok r)
    is_ok (ok r) h = (r, refl)
    is_ok (err e) h = cc
