-- ===== src/CpuMask/Refines.antt =====
-- The compact version against the set.
use xbyak.Prelude.{ℕ, ◌≤◌, ◌<◌, ◌≡◌, ◌⊎◌, inl, inr, true, false, Bool-cases}
use xbyak.Err.{ErrorCode, ok, err}
use xbyak.CpuMask.{CpuMask, append, set_append}
use xbyak.CpuMask.Values.{values}
use xbyak.CpuMask.Filled.{IsValid, append-empty}
use xbyak.CpuMask.Discrete.{append-discrete}
use xbyak.CpuMask.Paired.{append-paired}

-- On a valid object and a number below 1024, append of the compact version either returns a valid
-- object, and the set of the elements of the first takes the number too and has the elements of the
-- second, or it throws ERR_INVALID_CPUMASK_INDEX, and then the set refuses the number or no room is left
-- in the word (n_ is 5 or more).
pub append-Refines :
    (m : CpuMask) (v : ℕ)
    → IsValid m
    → v < 1024
    → ((m' : CpuMask) × (append m v ≡ ok m')
        × IsValid m'
        × (set_append (values m) v ≡ (values m', true)))
      ⊎ ((append m v ≡ err ErrorCode.err_invalid_cpumask_index)
          × ((set_append (values m) v ≡ (values m, false)) ⊎ (5 ≤ m.n)))
append-Refines m v (inl e) small = append-empty m v small e
append-Refines m v (inr f) small = elim (Bool-cases (m.range)) [
  | inl paired ↦ append-paired m v small f paired
  | inr discrete ↦ append-discrete m v small f discrete
]
