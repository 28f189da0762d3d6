-- ===== src/Tests/Masks.antt =====
-- Sets of processors at concrete inputs.
use xbyak.Prelude.{
  ℕ, ◌+◌, ◌*◌, ◌≤◌, ◌<◌, ◌≡◌, ◌⊎◌, inr, refl, arith, true, false, ◌||◌, leb, ◌==◌, length,
  all_below_sound,
}
use xbyak.Err.{ErrorCode, ok, err}
use xbyak.CpuMask.{CpuMask, get_field, append, append_range, size, set_append, set_append_range}
use xbyak.CpuMask.Values.{values}
use xbyak.CpuMask.Filled.{IsFilled, IsValid}
use xbyak.CpuMask.Refines.{append-Refines}
use xbyak.CpuMask.Ranges.{append_range-unchecked, size-values}

-- "5-7"
abbrev five_to_seven : CpuMask
five_to_seven = record { a = 5 + 2 * 1024; n = 1; range = true }

five_to_seven-IsFilled : IsFilled five_to_seven
unfolding get_field
five_to_seven-IsFilled = record {
  in_word = omega arith;
  clear_behind = clear;
  pairs = λ _. (0, refl);
}
  where
    clear : (j : ℕ) → 1 < j → j < 6 → get_field (5 + 2 * 1024) j ≡ 0
    clear j above h =
        ground (
          arith,
          all_below_sound 6 (λ k. leb k 1 || get_field (5 + 2 * 1024) k == 0) j refl h,
          above,
        )

append-Refines_example :
    ((m' : CpuMask) × (append five_to_seven 9 ≡ ok m')
      × IsValid m'
      × (set_append (values five_to_seven) 9 ≡ (values m', true)))
    ⊎ ((append five_to_seven 9 ≡ err ErrorCode.err_invalid_cpumask_index)
        × ((set_append (values five_to_seven) 9 ≡ (values five_to_seven, false)) ⊎ (5 ≤ 1)))
append-Refines_example = append-Refines five_to_seven 9 (inr five_to_seven-IsFilled) (omega arith)

append_range-unchecked_example :
    ((append_range five_to_seven 1 2).1 ≡ true)
    × (set_append_range (values five_to_seven) 1 2 ≡ (values five_to_seven, false))
unfolding get_field
append_range-unchecked_example =
    append_range-unchecked five_to_seven five_to_seven-IsFilled 0 refl refl 1 2 (omega arith)
      (omega arith) (omega arith) (omega arith)

size-values_example : size five_to_seven ≡ length (values five_to_seven)
size-values_example = size-values five_to_seven (inr five_to_seven-IsFilled)
