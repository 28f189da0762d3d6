-- ===== src/CpuMask/Paired.antt =====
-- append to intervals.
use xbyak.Prelude.{
  ℕ, ◌+◌, ◌-◌, ◌*◌, ◌<◌, ◌≡◌, refl, sym, ap, ◌∙◌, inl, inr, arith, true, false, leb, ◌==◌,
  if◌then◌else◌, Bool-cases, [], ◌∷◌, ◌++◌,
}
use xbyak.Err.{ok}
use xbyak.CpuMask.{CpuMask, get_field, set_field, append_interval, set_append}
use xbyak.CpuMask.Fields.{field-other}
use xbyak.CpuMask.Words.{intervals-grown, intervals-added}
use xbyak.CpuMask.Values.{upto, intervals, values}
use xbyak.CpuMask.Filled.{
  IsFilled, Refined, filled-is_empty, set_append-snoc, by_interval, values-paired,
}

module _ (m : CpuMask) (v : ℕ) (small : v < 1024) (f : IsFilled m) where
  next_pair :
      m.n < 4
      → m.range ≡ true
      → IsFilled (record { a = set_field m.a (m.n + 1) v; n = m.n + 2; range = true })
  next_pair room paired = record {
    in_word = omega arith;
    clear_behind = λ j above h. behind j (omega arith) h;
    pairs = λ _. let (q, odd) = f.pairs paired in (q + 1, omega (arith, odd));
  }
    where
      behind : (j : ℕ) → m.n + 1 < j → j < 6 → get_field (set_field m.a (m.n + 1) v) j ≡ 0
      behind j above h =
          field-other m.a (m.n + 1) v j small (omega arith) h (λ e. omega (arith, e))
          ∙ f.clear_behind j (omega arith) h

  -- The last interval is one longer.
  longer :
      get_field m.a m.n + 1 < 1024
      → m.range ≡ true
      → IsFilled (record { a = set_field m.a m.n (get_field m.a m.n + 1); n = m.n; range = true })
  longer fits paired = record {
    in_word = f.in_word;
    clear_behind = λ j above h.
        field-other m.a m.n (get_field m.a m.n + 1) j fits f.in_word h (λ e. omega (arith, e))
        ∙ f.clear_behind j above h;
    pairs = λ _. f.pairs paired;
  }

  module _ (q : ℕ) (odd : m.n ≡ q * 2 + 1) (paired : m.range ≡ true) where
    -- The last element of all.
    abbrev top : ℕ
    top = get_field m.a (q * 2) + get_field m.a m.n

    last_pair : get_field m.a (m.n - 1) ≡ get_field m.a (q * 2)
    last_pair = ap (get_field m.a) (omega (arith, odd))

    set_side :
        set_append (values m) v
        ≡ (if leb v top then (values m, false) else (values m ++ v ∷ [], true))
    set_side = rw (values-paired m v small f q odd paired) (
        set_append-snoc (intervals m.a q ++ upto (get_field m.a (q * 2)) (get_field m.a m.n)) top v
          small)

    grown : leb v top ≡ false → (top + 1 == v) ≡ true → Refined m v
    unfolding append_interval
    grown above next =
        let fits : get_field m.a m.n + 1 < 1024 = ground (arith, next) in
        inl (
          record { a = set_field m.a m.n (get_field m.a m.n + 1); n = m.n; range = true },
          by_interval m v small f paired
              ∙ rw (last_pair, above, next)
                  (ap
                    (λ r. ok (record {
                      a = set_field m.a m.n (get_field m.a m.n + 1);
                      n = m.n;
                      range = r;
                    }))
                    paired),
          inr (longer fits paired),
          set_side ∙ rw above (ap (λ l. (l, true)) (sym (values_grown fits))),
        )
      where
        values_grown :
            (fits : get_field m.a m.n + 1 < 1024)
            → values
                (record { a = set_field m.a m.n (get_field m.a m.n + 1); n = m.n; range = true })
              ≡ values m ++ v ∷ []
        values_grown fits =
            rw (filled-is_empty (longer fits paired), filled-is_empty f, paired)
              (intervals-grown m.a q m.n v odd f.in_word small (ground (arith, next)))

    added : leb v top ≡ false → (top + 1 == v) ≡ false → leb 5 m.n ≡ false → Refined m v
    unfolding append_interval
    added above apart room =
        let space : m.n < 4 = ground (arith, room, odd) in
        inl (
          record { a = set_field m.a (m.n + 1) v; n = m.n + 2; range = true },
          by_interval m v small f paired
              ∙ rw (last_pair, above, apart, room)
                  (ap (λ r. ok (record { a = set_field m.a (m.n + 1) v; n = m.n + 2; range = r }))
                    paired),
          inr (next_pair space paired),
          set_side ∙ rw above (ap (λ l. (l, true)) (sym (values_added space))),
        )
      where
        values_added :
            (space : m.n < 4)
            → values (record { a = set_field m.a (m.n + 1) v; n = m.n + 2; range = true })
              ≡ values m ++ v ∷ []
        values_added space =
            rw (filled-is_empty (next_pair space paired), filled-is_empty f, paired)
              (intervals-added m.a q m.n v odd space small (
                field-other m.a (m.n + 1) v (m.n + 2) small (omega arith) (omega arith)
                  (λ e. omega (arith, e))
                ∙ f.clear_behind (m.n + 2) (omega arith) (omega arith)))

    by_pairs : Refined m v
    unfolding append_interval
    by_pairs = elim (Bool-cases (leb v top)) [
      | inl below ↦ inr (
        by_interval m v small f paired ∙ rw (last_pair, below) refl,
        inl (set_side ∙ rw below refl),
      )
      | inr above ↦ elim (Bool-cases (top + 1 == v)) [
        | inl next ↦ grown above next
        | inr apart ↦ elim (Bool-cases (leb 5 m.n)) [
          | inl full ↦ inr (
            by_interval m v small f paired ∙ rw (last_pair, above, apart, full) refl,
            inr (ground (arith, full)),
          )
          | inr room ↦ added above apart room
        ]
      ]
    ]

  pub append-paired : m.range ≡ true → Refined m v
  append-paired paired = let (q, odd) = f.pairs paired in by_pairs q odd paired
