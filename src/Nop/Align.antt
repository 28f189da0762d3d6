-- ===== src/Nop/Align.antt =====
-- What `align` does, in a buffer that does not grow.
use native.Mathlib.Nat.{mod-add-mod, mod_self, mod-lt, mod-one}
use xbyak.Prelude.{
  ℕ, ◌+◌, ◌-◌, ◌%◌, ◌^◌, ◌≤◌, ◌<◌, ◌≡◌, ◌≢◌, ◌∙◌, ap, sym, true, false, inl, inr, arith, ◌==◌,
  ==_iff, bit_and, if◌then◌else◌, Bool-cases,
}
use xbyak.Err.{ok}
use xbyak.CodeArray.{CodeArray, Host, is_auto_grow, get_curr}
use xbyak.CodeArray.Emit.{IsValid}
use xbyak.Nop.{nop, align, row_count}
use xbyak.Nop.Fill.{Filled, nothing, nop-Filled}

fill_to : (a x : ℕ) → 0 < x → (a + (x - a % x)) % x ≡ 0
fill_to a x pos = sym (mod-add-mod a x (x - a % x)) ∙ ap (λ n. n % x) whole ∙ mod_self x
  where
    whole : a % x + (x - a % x) ≡ x
    whole = omega (arith, mod-lt a pos)

-- The buffer after `align`: the next byte is at a multiple of `x`, after less than `x` bytes of nops.
abbrev pub Aligned : ℕ → ℕ → CodeArray → CodeArray → Type 0
Aligned x n c c' = ((c'.top + c'.size) % x ≡ 0) × ((size : ℕ) × (size < x) × Filled n size c c')

module _ (h : Host) where
  align-here :
      (x multi : ℕ) (c : CodeArray)
      → 1 ≤ x
      → bit_and x (x - 1) ≡ 0
      → is_auto_grow c ≡ false
      → get_curr c % x ≡ 0
      → align h x multi c ≡ ok c
  unfolding align
  align-here x multi c pos pow fixed there = ground (arith, pos, pow, fixed, there)

  align-away :
      (x multi : ℕ) (c : CodeArray)
      → x ≢ 1
      → 1 ≤ x
      → bit_and x (x - 1) ≡ 0
      → is_auto_grow c ≡ false
      → get_curr c % x ≢ 0
      → align h x multi c ≡ nop h (x - get_curr c % x) multi c
  unfolding align
  align-away x multi c one pos pow fixed away = ground (arith, one, pos, pow, fixed, away)

  -- In a buffer that does not grow, has room for `x` more bytes and ends below the end of the address
  -- space, and for a power of two `x`, `align` returns: the next byte has an address that is a
  -- multiple of `x`, and the bytes appended are less than `x` and whole nops.
  pub align-Aligned :
      (x multi : ℕ) (c : CodeArray)
      → 1 ≤ x
      → bit_and x (x - 1) ≡ 0
      → IsValid c
      → is_auto_grow c ≡ false
      → c.size + x ≤ c.max_size
      → c.top + c.size < 2 ^ 64
      → (c' : CodeArray) × (align h x multi c ≡ ok c')
        × Aligned x (if multi == 0 then 1 else row_count multi) c c'
  align-Aligned x multi c pos pow v fixed room inside = elim (Bool-cases (get_curr c % x == 0)) [
    | inl there ↦ (
      c,
      align-here x multi c pos pow fixed ((==_iff (get_curr c % x) 0).0 there),
      (zero_lem there, (0, omega arith, nothing _ v)),
    )
    | inr away ↦
        (let (c', run, filled) = nop-Filled h (x - get_curr c % x) multi c v fixed (omega arith) in
          (
            c',
            align-away x multi c (not_one away) pos pow fixed (not_zero away) ∙ run,
            (end_lem c' filled, (x - get_curr c % x, less away, filled)),
          ))
  ]
    where
      zero_lem : (get_curr c % x == 0) ≡ true → (c.top + c.size) % x ≡ 0
      zero_lem there = ap (λ n. n % x) (sym curr) ∙ (==_iff (get_curr c % x) 0).0 there
        where
          curr : get_curr c ≡ c.top + c.size
          curr = omega arith

      not_zero : (get_curr c % x == 0) ≡ false → get_curr c % x ≢ 0
      not_zero away = ground (arith, away)

      not_one : (get_curr c % x == 0) ≡ false → x ≢ 1
      not_one away e = not_zero away (rw e (mod-one (get_curr c)))

      less : (get_curr c % x == 0) ≡ false → x - get_curr c % x < x
      less away = ground (arith, away)

      end_lem :
          (c' : CodeArray)
          → Filled (if multi == 0 then 1 else row_count multi) (x - get_curr c % x) c c'
          → (c'.top + c'.size) % x ≡ 0
      end_lem c' (bs, _, count, a, _, top) = ap (λ n. n % x) place ∙ fill_to (get_curr c) x pos
        where
          place : c'.top + c'.size ≡ get_curr c + (x - get_curr c % x)
          place = omega (arith, count, a.size_grows, top)
