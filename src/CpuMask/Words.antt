-- ===== src/CpuMask/Words.antt =====
-- The words that `append` stores, and the elements that they stand for.
use mathlib.Core.List.{append_assoc, append-nil}
use xbyak.Prelude.{ℕ, suc, ◌+◌, ◌*◌, ◌/◌, ◌<◌, ◌≡◌, refl, sym, ap, arith, [], ◌∷◌, ◌++◌}
use xbyak.CpuMask.{get_field, set_field}
use xbyak.CpuMask.Fields.{field-same, field-other}
use xbyak.CpuMask.Values.{singles, upto, intervals, singles-set_field, intervals-set_field}

pub singles-next : (a n : ℕ) → singles a (n + 1) ≡ singles a n ++ get_field a n ∷ []
singles-next a n = let next : n + 1 ≡ suc n = omega arith in rw next refl

upto-next : (start n : ℕ) → upto start (n + 1) ≡ upto start n ++ (start + n) ∷ []
upto-next start n = let next : n + 1 ≡ suc n = omega arith in rw next refl

pub intervals-next :
    (a q n : ℕ)
    → n ≡ q * 2 + 1
    → intervals a ((n + 1) / 2)
      ≡ (intervals a q ++ upto (get_field a (q * 2)) (get_field a n))
        ++ (get_field a (q * 2) + get_field a n) ∷ []
intervals-next a q n odd =
    let half : (n + 1) / 2 ≡ suc q = omega (arith, odd) in
    rw (half, sym odd, upto-next (get_field a (q * 2)) (get_field a n))
      (sym (
        append_assoc (intervals a q) (upto (get_field a (q * 2)) (get_field a n))
          ((get_field a (q * 2) + get_field a n) ∷ [])))

-- The words that append stores, and the elements that they stand for.
pub singles-added :
    (a n v : ℕ)
    → v < 1024
    → n < 5
    → singles (set_field a (n + 1) v) (n + 1 + 1) ≡ singles a (n + 1) ++ v ∷ []
singles-added a n v small room =
    rw
      (
        singles-next (set_field a (n + 1) v) (n + 1),
        singles-set_field a (n + 1) v (n + 1) small (omega arith) (omega arith),
        field-same a (n + 1) v small (omega arith),
      )
      refl

pub intervals-grown :
    (a q n v : ℕ)
    → n ≡ q * 2 + 1
    → n < 6
    → v < 1024
    → get_field a (q * 2) + get_field a n + 1 ≡ v
    → intervals (set_field a n (get_field a n + 1)) ((n + 1) / 2)
      ≡ intervals a ((n + 1) / 2) ++ v ∷ []
intervals-grown a q n v odd h small next =
    let len = get_field a n in
    let longer : len + 1 < 1024 = omega (arith, next) in
    let same : get_field (set_field a n (len + 1)) (q * 2) ≡ get_field a (q * 2) =
      field-other a n (len + 1) (q * 2) longer h (omega arith) (λ e. omega (arith, e)) in
    let end : get_field a (q * 2) + (len + 1) ≡ v = omega (arith, next) in
    rw
      (
        intervals-next (set_field a n (len + 1)) q n odd,
        intervals-next a q n odd,
        same,
        field-same a n (len + 1) longer h,
        intervals-set_field a n (len + 1) q longer h (omega arith),
        upto-next (get_field a (q * 2)) len,
        end,
      )
      (ap (λ l. l ++ v ∷ [])
        (sym (
          append_assoc (intervals a q) (upto (get_field a (q * 2)) len)
            ((get_field a (q * 2) + len) ∷ []))))

pub intervals-added :
    (a q n v : ℕ)
    → n ≡ q * 2 + 1
    → n < 4
    → v < 1024
    → get_field (set_field a (n + 1) v) (n + 2) ≡ 0
    → intervals (set_field a (n + 1) v) ((n + 2 + 1) / 2) ≡ intervals a ((n + 1) / 2) ++ v ∷ []
intervals-added a q n v odd room small zero_length =
    let half : (n + 1) / 2 ≡ q + 1 = omega (arith, odd) in
    let even : (q + 1) * 2 ≡ n + 1 = omega (arith, odd) in
    let end : v + 0 ≡ v = omega arith in
    rw
      (
        intervals-next (set_field a (n + 1) v) (q + 1) (n + 2) (omega (arith, odd)),
        half,
        even,
        zero_length,
        field-same a (n + 1) v small (omega arith),
        intervals-set_field a (n + 1) v (q + 1) small (omega arith) (omega (arith, odd)),
        end,
        append-nil (intervals a (q + 1)),
      )
      refl

pub first_pair :
    (a v : ℕ)
    → get_field a 0 + 1 ≡ v
    → intervals (set_field a 1 1) ((1 + 1) / 2) ≡ singles a (0 + 1) ++ v ∷ []
first_pair a v next =
    let start : get_field (set_field a 1 1) 0 ≡ get_field a 0 =
      field-other a 1 1 0 (omega arith) (omega arith) (omega arith) (λ e. omega (arith, e)) in
    let first : get_field a 0 + 0 ≡ get_field a 0 = omega arith in
    rw
      (
        intervals-next (set_field a 1 1) 0 1 refl,
        start,
        field-same a 1 1 (omega arith) (omega arith),
        first,
        next,
      )
      refl
