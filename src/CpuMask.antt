-- ===== src/CpuMask.antt =====
-- xbyak/xbyak_util.h: both versions of `class CpuMask`, a set of the numbers of logical processors,
-- with the default sizes XBYAK_CPUMASK_N = 6 and XBYAK_CPUMASK_BITN = 10. The compact version packs
-- its six elements into one word; the other version is a `std::set`, here the increasing list of
-- its elements. A call that throws has not changed the object.
use xbyak.Prelude.{
  ℕ, zero, suc, ◌+◌, ◌-◌, ◌*◌, ◌/◌, ◌%◌, ◌^◌, Bool, true, false, not, ◌&&◌, ◌||◌, ltb, leb, ◌==◌,
  if◌then◌else◌, List, [], ◌∷◌, ◌++◌, Option, none, some,
}
use xbyak.Err.{ErrorCode, Result, ok, err, throw_if, ◌>>=◌, ◌>>◌}
pub mod Fields
pub mod Values
pub mod Words
pub mod Filled
pub mod Discrete
pub mod Paired
pub mod Refines
pub mod Ranges

-- N and mask; bitN is written out.
abbrev pub max_n : ℕ
max_n = 6

abbrev pub mask : ℕ
mask = 1023

-- The bit fields `a_`, `n_` and `range_`.
pub record CpuMask : Type 0 where
  pub a : ℕ
  pub n : ℕ
  pub range : Bool

-- The value of an element, and the word with another one: of the fields a_ and an index.
unfoldable pub get_field : ℕ → ℕ → ℕ
get_field a idx = a / 2 ^ (idx * 10) % 1024

unfoldable pub set_field : ℕ → ℕ → ℕ → ℕ
unfolding get_field
set_field a idx v = a - get_field a idx * 2 ^ (idx * 10) + v % 1024 * 2 ^ (idx * 10)

abbrev pub get_a : CpuMask → ℕ → ℕ
unfolding get_field
get_a m idx = get_field m.a idx

abbrev pub set_a : CpuMask → ℕ → ℕ → CpuMask
unfolding set_field
set_a m idx v = record m { a = set_field m.a idx v }

unfoldable pub clear : CpuMask
clear = record { a = 2 ^ 10; n = 0; range = false }

unfoldable pub is_empty : CpuMask → Bool
is_empty m = m.a == 2 ^ 10 && (m.n == 0 && not m.range)

-- The branch of append for discrete values, and the one for intervals.
unfoldable pub append_value : CpuMask → ℕ → Result CpuMask
unfolding get_field set_field
append_value m v =
    let prev = get_a m m.n in
    if leb v prev
    then err ErrorCode.err_invalid_cpumask_index
    else if m.n == 0 && prev + 1 == v
    then ok (record (set_a m 1 1) { range = true; n = 1 })
    else if leb (max_n - 1) m.n
    then err ErrorCode.err_invalid_cpumask_index
    else ok (record (set_a m (m.n + 1) v) { n = m.n + 1 })

unfoldable pub append_interval : CpuMask → ℕ → Result CpuMask
unfolding get_field set_field
append_interval m v =
    let length = get_a m m.n in
    let prev = get_a m (m.n - 1) + length in
    if leb v prev
    then err ErrorCode.err_invalid_cpumask_index
    else if prev + 1 == v
    then ok (set_a m m.n (length + 1))
    else if leb (max_n - 1) m.n
    then err ErrorCode.err_invalid_cpumask_index
    else ok (record (set_a m (m.n + 1) v) { n = m.n + 2 })

unfoldable pub append : CpuMask → ℕ → Result CpuMask
unfolding is_empty append_value append_interval
append m v =
    if ltb mask v
    then err ErrorCode.err_invalid_cpumask_index
    else if is_empty m
    then ok (record { a = v; n = 0; range = m.range })
    else if m.range
    then append_interval m v
    else append_value m v

-- appendRange(a, b)
unfoldable pub append_range : CpuMask → ℕ → ℕ → CpuMask × Bool
unfolding is_empty set_field
append_range m a b =
    if (is_empty m || (m.range && ltb m.n (max_n - 1))) && (leb a b && leb b mask)
    then (let n' = m.n + (if m.n == 0 then 1 else 2) in
        let m' = set_a (record m { range = true; n = n' }) (n' - 1) a in
        (set_a m' n' (b - a), true))
    else (m, false)

-- The loops of `size` and `get` over the intervals, from the element `i` on; `k` bounds the rounds.
unfoldable pub size_from : CpuMask → ℕ → ℕ → ℕ
unfolding get_field
size_from m i zero = 0
size_from m i (suc k) = if leb i m.n then get_a m i + 1 + size_from m (i + 2) k else 0

unfoldable pub size : CpuMask → ℕ
unfolding is_empty size_from
size m = if is_empty m then 0 else if m.range then size_from m 1 max_n else m.n + 1

unfoldable pub get_from : CpuMask → ℕ → ℕ → ℕ → ℕ → ℕ
unfolding get_field
get_from m idx n i zero = 0
get_from m idx n i (suc k) =
    let rest = get_from m idx (n + (get_a m i + 1)) (i + 2) k in
    if leb i m.n
    then (if ltb idx (n + (get_a m i + 1)) then get_a m (i - 1) + (idx - n) else rest)
    else 0

unfoldable pub get : CpuMask → ℕ → ℕ
unfolding get_field get_from
get m idx = if m.range then get_from m idx 0 1 max_n else get_a m idx

-- The version over std::set: the greatest element, `append` and `appendRange`.
abbrev pub greatest : List ℕ → Option ℕ
greatest [] = none
greatest (x ∷ []) = some x
greatest (x ∷ y ∷ xs) = greatest (y ∷ xs)

unfoldable pub set_append : List ℕ → ℕ → List ℕ × Bool
set_append indices idx = if leb (2 ^ 10) idx then (indices, false) else elim (greatest indices) [
  | none ↦ (idx ∷ [], true)
  | some top ↦ if leb idx top then (indices, false) else (indices ++ idx ∷ [], true)
]

-- `while (a <= b)`: `k` is b + 1 - a.
unfoldable pub set_append_loop : ℕ → ℕ → List ℕ → List ℕ × Bool
unfolding set_append
set_append_loop zero a indices = (indices, true)
set_append_loop (suc k) a indices =
    let r = set_append indices a in
    let rest = set_append_loop k (a + 1) r.0 in if r.1 then rest else r

unfoldable pub set_append_range : List ℕ → ℕ → ℕ → List ℕ × Bool
unfolding set_append_loop
set_append_range indices a b =
    if ltb b a then (indices, false) else set_append_loop (b + 1 - a) a indices
