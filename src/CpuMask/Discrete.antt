-- ===== src/CpuMask/Discrete.antt =====
-- append to discrete values.
use xbyak.Prelude.{
  ℕ, ◌+◌, ◌<◌, ◌≡◌, refl, sym, ap, ◌∙◌, inl, inr, arith, true, false, ◌&&◌, leb, ◌==◌, Bool-cases,
  [], ◌∷◌, ◌++◌,
}
use xbyak.Err.{ok}
use xbyak.CpuMask.{CpuMask, get_field, set_field, append_value, set_append}
use xbyak.CpuMask.Fields.{field-other}
use xbyak.CpuMask.Words.{singles-added, first_pair}
use xbyak.CpuMask.Values.{singles, values}
use xbyak.CpuMask.Filled.{
  IsFilled, Refined, filled-is_empty, set_append-snoc, by_value, values-discrete,
}

module _ (m : CpuMask) (v : ℕ) (small : v < 1024) (f : IsFilled m) where
  -- A new element behind the others.
  behind : (j : ℕ) → m.n + 1 < j → j < 6 → get_field (set_field m.a (m.n + 1) v) j ≡ 0
  behind j above h =
      field-other m.a (m.n + 1) v j small (omega arith) h (λ e. omega (arith, e))
      ∙ f.clear_behind j (omega arith) h

  -- The cases of append for discrete values.
  added-IsFilled :
      m.n < 5 → IsFilled (record { a = set_field m.a (m.n + 1) v; n = m.n + 1; range = false })
  added-IsFilled room = record {
    in_word = omega arith;
    clear_behind = behind;
    pairs = λ impossible. absurd (ground (arith, impossible));
  }

  values-added :
      m.range ≡ false
      → m.n < 5
      → values (record { a = set_field m.a (m.n + 1) v; n = m.n + 1; range = false })
        ≡ values m ++ v ∷ []
  values-added discrete room =
      rw (filled-is_empty (added-IsFilled room), filled-is_empty f, discrete)
        (singles-added m.a m.n v small room)

  -- The object with its only element and the next one.
  paired-IsFilled : m.n ≡ 0 → IsFilled (record { a = set_field m.a 1 1; n = 1; range = true })
  paired-IsFilled one = record {
    in_word = omega arith;
    clear_behind = λ j above h.
        field-other m.a 1 1 j (omega arith) (omega arith) h (λ e. omega (arith, e))
        ∙ f.clear_behind j (omega arith) h;
    pairs = λ _. (0, refl);
  }

  set_takes :
      leb v (get_field m.a m.n) ≡ false
      → m.range ≡ false
      → set_append (values m) v ≡ (values m ++ v ∷ [], true)
  set_takes above discrete =
      rw
        (
          values-discrete m v small f discrete,
          set_append-snoc (singles m.a m.n) (get_field m.a m.n) v small,
          above,
        )
        refl

  append-pair :
      leb v (get_field m.a m.n) ≡ false
      → (m.n == 0 && get_field m.a m.n + 1 == v) ≡ true
      → m.range ≡ false
      → Refined m v
  unfolding append_value
  append-pair above pair discrete =
      let one : m.n ≡ 0 = ground (arith, pair) in
      let next : get_field m.a m.n + 1 ≡ v = ground (arith, pair) in
      inl (
        record { a = set_field m.a 1 1; n = 1; range = true },
        by_value m v small f discrete ∙ rw (above, pair) refl,
        inr (paired-IsFilled one),
        set_takes above discrete ∙ ap (λ l. (l, true)) (sym (values-pair one next)),
      )
    where
      values-pair :
          m.n ≡ 0
          → get_field m.a m.n + 1 ≡ v
          → values (record { a = set_field m.a 1 1; n = 1; range = true }) ≡ values m ++ v ∷ []
      values-pair one next =
          rw (filled-is_empty (paired-IsFilled one), filled-is_empty f, discrete, one)
            (first_pair m.a v (rw one at next))

  pub append-discrete : m.range ≡ false → Refined m v
  unfolding append_value
  append-discrete discrete = elim (Bool-cases (leb v (get_field m.a m.n))) [
    | inl below ↦ inr (
      by_value m v small f discrete ∙ rw below refl,
      inl (
          rw
            (
              values-discrete m v small f discrete,
              set_append-snoc (singles m.a m.n) (get_field m.a m.n) v small,
              below,
            )
            refl),
    )
    | inr above ↦ elim (Bool-cases (m.n == 0 && get_field m.a m.n + 1 == v)) [
      | inl pair ↦ append-pair above pair discrete
      | inr apart ↦ elim (Bool-cases (leb 5 m.n)) [
        | inl full ↦ inr (
          by_value m v small f discrete ∙ rw (above, apart, full) refl,
          inr (ground (arith, full)),
        )
        | inr room ↦ inl (
          record { a = set_field m.a (m.n + 1) v; n = m.n + 1; range = false },
          by_value m v small f discrete
              ∙ rw (above, apart, room)
                  (ap (λ r. ok (record { a = set_field m.a (m.n + 1) v; n = m.n + 1; range = r }))
                    discrete),
          inr (added-IsFilled (ground (arith, room))),
          set_takes above discrete
              ∙ ap (λ l. (l, true)) (sym (values-added discrete (ground (arith, room)))),
        )
      ]
    ]
  ]
