-- ===== src/StackFrame/Restore.antt =====
-- What the calls of a frame do to a machine: the registers and the words on the stack, the last
-- pushed first. As documented for the processor, push2 r, s pushes r and then s, and pop2 r, s pops
-- into r and then into s; the hints of pushp, popp, push2p and pop2p change no value.
use xbyak.Prelude.{
  ℕ, zero, suc, ◌+◌, ◌-◌, ◌/◌, ◌≡◌, refl, ap, ◌∙◌, inl, inr, not, ◌&&◌, ltb, has, ◌==◌,
  if◌then◌else◌, Bool-cases, List, [], ◌∷◌, ◌++◌,
}
use xbyak.StackFrame.{
  Call, push, pop, pushp, popp, push2, push2p, pop2, pop2p, mov, sub_rsp, add_rsp, vzeroupper, ret,
  pushes, pops, push_one, push_two, pop_one, pop_two, use_ppx, use_push2,
}
use xbyak.StackFrame.Frame.{skip}

pub record Machine : Type 0 where
  pub regs : ℕ → ℕ
  pub stack : List ℕ

abbrev pub push_reg : ℕ → Machine → Machine
push_reg r m = record m { stack = m.regs r ∷ m.stack }

abbrev pub set_reg : ℕ → ℕ → (ℕ → ℕ) → ℕ → ℕ
set_reg r v regs s = if s == r then v else regs s

abbrev pub pop_from : ℕ → (ℕ → ℕ) → List ℕ → Machine
pop_from r regs [] = record { regs = regs; stack = [] }
pop_from r regs (v ∷ stack) = record { regs = set_reg r v regs; stack = stack }

abbrev pub pop_reg : ℕ → Machine → Machine
pop_reg r m = pop_from r m.regs m.stack

abbrev pub zeros : ℕ → List ℕ → List ℕ
zeros zero stack = stack
zeros (suc n) stack = 0 ∷ zeros n stack

abbrev pub run_call : Call → Machine → Machine
run_call (push r) m = push_reg r m
run_call (pushp r) m = push_reg r m
run_call (push2 r s) m = push_reg s (push_reg r m)
run_call (push2p r s) m = push_reg s (push_reg r m)
run_call (pop r) m = pop_reg r m
run_call (popp r) m = pop_reg r m
run_call (pop2 r s) m = pop_reg s (pop_reg r m)
run_call (pop2p r s) m = pop_reg s (pop_reg r m)
run_call (mov r s) m = record m { regs = set_reg r (m.regs s) m.regs }
run_call (sub_rsp n) m = record m { stack = zeros (n / 8) m.stack }
run_call (add_rsp n) m = record m { stack = skip (n / 8) m.stack }
run_call vzeroupper m = m
run_call ret m = record m { stack = skip 1 m.stack }

abbrev pub run : List Call → Machine → Machine
run [] m = m
run (c ∷ cs) m = run cs (run_call c m)

pub run-append : (cs ds : List Call) (m : Machine) → run (cs ++ ds) m ≡ run ds (run cs m)
run-append [] ds m = refl
run-append (c ∷ cs) ds m = run-append cs ds (run_call c m)

-- The registers pushed one after the other, and popped.
abbrev pub push_all : List ℕ → Machine → Machine
push_all [] m = m
push_all (r ∷ rs) m = push_all rs (push_reg r m)

abbrev pub pop_all : List ℕ → Machine → Machine
pop_all [] m = m
pop_all (r ∷ rs) m = pop_all rs (pop_reg r m)

pub one_push : (u r : ℕ) (m : Machine) → run_call (push_one u r) m ≡ push_reg r m
one_push u r m = elim (Bool-cases (has u use_ppx)) [ inl h ↦ rw h refl | inr h ↦ rw h refl ]

two_push : (u r s : ℕ) (m : Machine) → run_call (push_two u r s) m ≡ push_reg s (push_reg r m)
two_push u r s m = elim (Bool-cases (has u use_ppx)) [ inl h ↦ rw h refl | inr h ↦ rw h refl ]

one_pop : (u r : ℕ) (m : Machine) → run_call (pop_one u r) m ≡ pop_reg r m
one_pop u r m = elim (Bool-cases (has u use_ppx)) [ inl h ↦ rw h refl | inr h ↦ rw h refl ]

two_pop : (u r s : ℕ) (m : Machine) → run_call (pop_two u r s) m ≡ pop_reg s (pop_reg r m)
two_pop u r s m = elim (Bool-cases (has u use_ppx)) [ inl h ↦ rw h refl | inr h ↦ rw h refl ]

-- However the loop of the constructor pairs the registers, it pushes them in their order.
pub run-pushes : (u i : ℕ) (rs : List ℕ) (m : Machine) → run (pushes u i rs) m ≡ push_all rs m
unfolding pushes
run-pushes u i [] m = refl
run-pushes u i (r ∷ []) m = one_push u r m
run-pushes u i (r ∷ s ∷ rs) m = elim (Bool-cases (has u use_push2 && has i 1)) [
  | inl h ↦ rw h (ap (run (pushes u (i + 2) rs)) (two_push u r s m) ∙ run-pushes u (i + 2) rs _)
  | inr h ↦
      rw h (ap (run (pushes u (i + 1) (s ∷ rs))) (one_push u r m) ∙ run-pushes u (i + 1) (s ∷ rs) _)
]

pub run-pops : (u st i : ℕ) (rs : List ℕ) (m : Machine) → run (pops u st i rs) m ≡ pop_all rs m
unfolding pops
run-pops u st i [] m = refl
run-pops u st i (r ∷ []) m = one_pop u r m
run-pops u st i (r ∷ s ∷ rs) m =
    elim (Bool-cases (has u use_push2 && (not (has i 1) && ltb st i))) [
      | inl h ↦
          rw h (ap (run (pops u st (i - 2) rs)) (two_pop u r s m) ∙ run-pops u st (i - 2) rs _)
      | inr h ↦
          rw h (
            ap (run (pops u st (i - 1) (s ∷ rs))) (one_pop u r m)
            ∙ run-pops u st (i - 1) (s ∷ rs) _)
    ]
