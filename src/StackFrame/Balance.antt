-- ===== src/StackFrame/Balance.antt =====
-- The stack of a frame, from its entry to its exit.
use mathlib.Core.List.{reverse, reverse_aux}
use xbyak.Prelude.{
  ℕ, zero, suc, ◌+◌, ◌≡◌, refl, ap, ◌∙◌, ◌⊎◌, inl, inr, arith, Bool, true, false, not, ◌&&◌, ◌||◌,
  ltb, has, ◌==◌, Bool-cases, List, [], ◌∷◌, ◌++◌, map,
}
use xbyak.StackFrame.{rbp, use_rbp, is_use_reg, saved_callees}
use xbyak.StackFrame.Frame.{skip, moves}
use xbyak.StackFrame.Restore.{Machine, push_all, pop_all, set_reg, zeros, run}

-- Two register files that agree on a list of registers.
abbrev pub SameOn : (ℕ → ℕ) → (ℕ → ℕ) → List ℕ → Type 0
SameOn g v [] = Unit
SameOn g v (r ∷ rs) = (g r ≡ v r) × SameOn g v rs

pub SameOn-refl : (v : ℕ → ℕ) (rs : List ℕ) → SameOn v v rs
SameOn-refl v [] = tt
SameOn-refl v (r ∷ rs) = (refl, SameOn-refl v rs)

abbrev pub member : ℕ → List ℕ → Bool
member s [] = false
member s (r ∷ rs) = s == r || member s rs

member-reverse_aux :
    (s : ℕ) (rs acc : List ℕ) → member s (reverse_aux rs acc) ≡ (member s rs || member s acc)
member-reverse_aux s [] acc = refl
member-reverse_aux s (r ∷ rs) acc = member-reverse_aux s rs (r ∷ acc) ∙ ground arith

pub member-reverse : (s : ℕ) (rs : List ℕ) → member s rs ≡ true → member s (reverse rs) ≡ true
member-reverse s rs h = member-reverse_aux s rs [] ∙ ground (arith, h)

abbrev pub without_rbp : List ℕ → Bool
without_rbp [] = true
without_rbp (r ∷ rs) = not (r == rbp) && without_rbp rs

pub SameOn-set_reg :
    (v : ℕ → ℕ) (w : ℕ) (rs : List ℕ) → without_rbp rs ≡ true → SameOn (set_reg rbp w v) v rs
SameOn-set_reg v w [] h = tt
SameOn-set_reg v w (r ∷ rs) h =
    let other : (r == rbp) ≡ false = ground (arith, h) in
    (rw other refl, SameOn-set_reg v w rs (ground (arith, h)))

-- The words that pushes leave on the stack.
pub push_all-stack :
    (v g : ℕ → ℕ) (rs acc st : List ℕ)
    → SameOn g v rs
    → (push_all rs (record { regs = g; stack = map v acc ++ st })).stack
      ≡ map v (reverse_aux rs acc) ++ st
push_all-stack v g [] acc st same = refl
push_all-stack v g (r ∷ rs) acc st same =
    ap (λ x. (push_all rs (record { regs = g; stack = x ∷ (map v acc ++ st) })).stack) (same.0)
    ∙ push_all-stack v g rs (r ∷ acc) st same.1

-- Pops of those words: the stack is as before, and a register holds its value if it did, or if it
-- is one of those that are popped.
pub pop_all-stack :
    (v g : ℕ → ℕ) (rs st : List ℕ)
    → (pop_all rs (record { regs = g; stack = map v rs ++ st })).stack ≡ st
pop_all-stack v g [] st = refl
pop_all-stack v g (r ∷ rs) st = pop_all-stack v (set_reg r (v r) g) rs st

pub pop_all-regs :
    (v g : ℕ → ℕ) (rs st : List ℕ) (s : ℕ)
    → (g s ≡ v s) ⊎ (member s rs ≡ true)
    → (pop_all rs (record { regs = g; stack = map v rs ++ st })).regs s ≡ v s
pop_all-regs v g [] st s (inl same) = same
pop_all-regs v g [] st s (inr none_left) = absurd (ground (arith, none_left))
pop_all-regs v g (r ∷ rs) st s known = pop_all-regs v (set_reg r (v r) g) rs st s (known-tail known)
  where
    known-tail :
        ((g s ≡ v s) ⊎ ((s == r || member s rs) ≡ true))
        → (set_reg r (v r) g s ≡ v s) ⊎ (member s rs ≡ true)
    known-tail h = elim (Bool-cases (s == r)) [
      | inl e ↦ inl (rw e (ap v (ground (arith, e))))
      | inr e ↦ elim h [ inl same ↦ inl (rw e same) | inr later ↦ inr (ground (arith, later, e)) ]
    ]

pub skip-zeros : (n : ℕ) (st : List ℕ) → skip n (zeros n st) ≡ st
skip-zeros zero st = refl
skip-zeros (suc n) st = skip-zeros n st

pub moves-stack :
    (u n : ℕ) (slots : List (ℕ × ℕ × ℕ)) (m : Machine) → (run (moves u n slots) m).stack ≡ m.stack
unfolding moves
moves-stack u n [] m = refl
moves-stack u n ((target, pos, alt) ∷ slots) m =
    elim (Bool-cases (is_use_reg u target && ltb pos n)) [
      | inl h ↦ rw h (moves-stack u n slots _)
      | inr h ↦ rw h (moves-stack u n slots m)
    ]

-- With rbp pushed first, it is not among the others.
pub saved_callees-without_rbp :
    (u base i : ℕ) (rs : List ℕ)
    → has u use_rbp ≡ true
    → without_rbp (saved_callees u base i rs) ≡ true
unfolding saved_callees
saved_callees-without_rbp u base i [] h = refl
saved_callees-without_rbp u base i (r ∷ rs) h =
    elim (Bool-cases ((ltb i base || is_use_reg u r) && not (has u use_rbp && r == rbp))) [
      | inl kept ↦
          let other : (r == rbp) ≡ false = ground (arith, kept, h) in
          rw (kept, other) (saved_callees-without_rbp u base (i + 1) rs h)
      | inr dropped ↦ rw dropped (saved_callees-without_rbp u base (i + 1) rs h)
    ]
