-- ===== src/CpuMask/Values.antt =====
-- The elements that the compact version stands for.
use xbyak.Prelude.{
  ℕ, zero, suc, ◌+◌, ◌*◌, ◌/◌, ◌≤◌, ◌<◌, ◌≡◌, refl, arith, if◌then◌else◌, List, [], ◌∷◌, ◌++◌, some,
}
use xbyak.CpuMask.{CpuMask, get_field, set_field, is_empty, greatest}
use xbyak.CpuMask.Fields.{field-other}

-- The first elements, as they are and as pairs of a start and a length less 1.
abbrev pub singles : ℕ → ℕ → List ℕ
singles a zero = []
singles a (suc k) = singles a k ++ get_field a k ∷ []

-- start, start + 1, ..., as many as `count` says.
abbrev pub upto : ℕ → ℕ → List ℕ
upto start zero = []
upto start (suc count) = upto start count ++ (start + count) ∷ []

abbrev pub intervals : ℕ → ℕ → List ℕ
intervals a zero = []
intervals a (suc q) = intervals a q ++ upto (get_field a (q * 2)) (get_field a (q * 2 + 1) + 1)

abbrev pub values : CpuMask → List ℕ
values m =
    if is_empty m
    then []
    else if m.range
    then intervals m.a ((m.n + 1) / 2)
    else singles m.a (m.n + 1)

pub greatest-snoc : (xs : List ℕ) (x : ℕ) → greatest (xs ++ x ∷ []) ≡ some x
greatest-snoc [] x = refl
greatest-snoc (y ∷ []) x = refl
greatest-snoc (y ∷ z ∷ xs) x = greatest-snoc (z ∷ xs) x

-- An element that lies behind those that are read does not matter.
pub singles-set_field :
    (a i v k : ℕ) → v < 1024 → i < 6 → k ≤ i → singles (set_field a i v) k ≡ singles a k
singles-set_field a i v zero small h le = refl
singles-set_field a i v (suc k) small h le =
    let same : get_field (set_field a i v) k ≡ get_field a k =
      field-other a i v k small h (omega arith) (λ e. omega (arith, e)) in
    rw (same, singles-set_field a i v k small h (omega arith)) refl

pub intervals-set_field :
    (a i v q : ℕ) → v < 1024 → i < 6 → q * 2 ≤ i → intervals (set_field a i v) q ≡ intervals a q
intervals-set_field a i v zero small h le = refl
intervals-set_field a i v (suc q) small h le =
    let start : get_field (set_field a i v) (q * 2) ≡ get_field a (q * 2) =
      field-other a i v (q * 2) small h (omega arith) (λ e. omega (arith, e)) in
    let length : get_field (set_field a i v) (q * 2 + 1) ≡ get_field a (q * 2 + 1) =
      field-other a i v (q * 2 + 1) small h (omega arith) (λ e. omega (arith, e)) in
    rw (start, length, intervals-set_field a i v q small h (omega arith)) refl
