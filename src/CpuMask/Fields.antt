-- ===== src/CpuMask/Fields.antt =====
-- The six elements in the word `a_`: reading one after another was set.
use xbyak.Prelude.{ℕ, zero, suc, ◌<◌, ◌≡◌, ◌≢◌, arith, ◌==◌, if◌then◌else◌}
use xbyak.CpuMask.{get_field, set_field}

-- To prove a statement of the six indices one by one.
by_six : (P : ℕ → Type 0) → P 0 → P 1 → P 2 → P 3 → P 4 → P 5 → (i : ℕ) → i < 6 → P i
by_six P p0 p1 p2 p3 p4 p5 zero h = p0
by_six P p0 p1 p2 p3 p4 p5 (suc zero) h = p1
by_six P p0 p1 p2 p3 p4 p5 (suc (suc zero)) h = p2
by_six P p0 p1 p2 p3 p4 p5 (suc (suc (suc zero))) h = p3
by_six P p0 p1 p2 p3 p4 p5 (suc (suc (suc (suc zero)))) h = p4
by_six P p0 p1 p2 p3 p4 p5 (suc (suc (suc (suc (suc zero))))) h = p5
by_six P p0 p1 p2 p3 p4 p5 (suc (suc (suc (suc (suc (suc i)))))) h = absurd (omega arith)

abbrev pub AfterSet : ℕ → ℕ → ℕ → ℕ → Type 0
AfterSet a v i j = get_field (set_field a i v) j ≡ (if i == j then v else get_field a j)

pub after_set : (a v : ℕ) → v < 1024 → (i j : ℕ) → i < 6 → j < 6 → AfterSet a v i j
unfolding get_field set_field
after_set a v small i j hi hj =
    by_six (λ k. AfterSet a v k j)
      (by_six (AfterSet a v 0) (omega arith) (omega arith) (omega arith) (omega arith) (omega arith)
        (omega arith) j hj)
      (by_six (AfterSet a v 1) (omega arith) (omega arith) (omega arith) (omega arith) (omega arith)
        (omega arith) j hj)
      (by_six (AfterSet a v 2) (omega arith) (omega arith) (omega arith) (omega arith) (omega arith)
        (omega arith) j hj)
      (by_six (AfterSet a v 3) (omega arith) (omega arith) (omega arith) (omega arith) (omega arith)
        (omega arith) j hj)
      (by_six (AfterSet a v 4) (omega arith) (omega arith) (omega arith) (omega arith) (omega arith)
        (omega arith) j hj)
      (by_six (AfterSet a v 5) (omega arith) (omega arith) (omega arith) (omega arith) (omega arith)
        (omega arith) j hj)
      i hi

-- A word with one element.
pub single_field : (v : ℕ) → v < 1024 → get_field v 0 ≡ v
unfolding get_field
single_field v small = omega arith

pub no_field : (v : ℕ) → v < 1024 → (j : ℕ) → 0 < j → j < 6 → get_field v j ≡ 0
unfolding get_field
no_field v small j above h =
    by_six (λ k. 0 < k → get_field v k ≡ 0) (λ low. absurd (omega (arith, low))) (λ _. omega arith)
      (λ _. omega arith) (λ _. omega arith) (λ _. omega arith) (λ _. omega arith) j h above

pub get_field-small : (a j : ℕ) → get_field a j < 1024
unfolding get_field
get_field-small a j = omega arith

pub field-same : (a i v : ℕ) → v < 1024 → i < 6 → get_field (set_field a i v) i ≡ v
field-same a i v small h = ground (arith, after_set a v small i i h h)

pub field-other :
    (a i v j : ℕ) → v < 1024 → i < 6 → j < 6 → i ≢ j → get_field (set_field a i v) j ≡ get_field a j
field-other a i v j small hi hj apart = ground (arith, after_set a v small i j hi hj, apart)
