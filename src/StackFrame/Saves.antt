-- ===== src/StackFrame/Saves.antt =====
-- What a function that is made with a frame keeps for its caller.
use mathlib.Core.List.{reverse}
use xbyak.Prelude.{
  ℕ, ◌-◌, ◌/◌, ◌≡◌, refl, sym, ap, ◌∙◌, inl, inr, arith, Bool, true, false, bit_and, has, ◌==◌,
  if◌then◌else◌, Bool-cases, ltb, List, [], ◌∷◌, ◌++◌, map, length,
}
use mathlib.Core.Path.{subst}
use xbyak.Err.{ErrorCode, Result, ok, err, throw_if, >>=-ok_inv}
use xbyak.StackFrame.{
  Call, mov, sub_rsp, add_rsp, vzeroupper, rbp, rsp, use_rbp, use_rbp_as_frame_pointer, pushes,
  push_one, pops, save_regs, slot_tbl, no_save_num, max_reg_num, saved_callees, callee_tbl,
}
use xbyak.StackFrame.Frame.{
  Frame, skip, moves, prolog, close, check_args, reg_num, make_frame, stack_frame,
}
use xbyak.StackFrame.Restore.{
  Machine, pop_all, set_reg, zeros, run, run_call, run-append, one_push, run-pushes, run-pops,
}
use xbyak.StackFrame.Balance.{
  SameOn-refl, SameOn-set_reg, member, member-reverse, without_rbp, push_all-stack, pop_all-stack,
  pop_all-regs, skip-zeros, moves-stack, saved_callees-without_rbp,
}

-- rbp, the copy of rsp to it, and the other registers.
entry_rbp :
    (u : ℕ) (frame_pointer : Bool) (rest : List ℕ) (m : Machine)
    → without_rbp rest ≡ true
    → (run
        (push_one u rbp ∷ ((if frame_pointer then mov rbp rsp ∷ [] else []) ++ pushes u 1 rest))
        m).stack
      ≡ map m.regs (reverse (rbp ∷ rest)) ++ m.stack
entry_rbp u true rest m apart =
    ap (λ k. (run (mov rbp rsp ∷ pushes u 1 rest) k).stack) (one_push u rbp m)
    ∙ ap (λ k. k.stack) (run-pushes u 1 rest _)
    ∙ push_all-stack m.regs (set_reg rbp (m.regs rsp) m.regs) rest (rbp ∷ []) m.stack
        (SameOn-set_reg m.regs (m.regs rsp) rest apart)
entry_rbp u false rest m apart =
    ap (λ k. (run (pushes u 1 rest) k).stack) (one_push u rbp m)
    ∙ ap (λ k. k.stack) (run-pushes u 1 rest _)
    ∙ push_all-stack m.regs m.regs rest (rbp ∷ []) m.stack (SameOn-refl m.regs rest)

entry_plain :
    (u : ℕ) (saved : List ℕ) (m : Machine)
    → (run (pushes u 0 saved) m).stack ≡ map m.regs (reverse saved) ++ m.stack
entry_plain u saved m =
    ap (λ k. k.stack) (run-pushes u 0 saved m)
    ∙ push_all-stack m.regs m.regs saved [] m.stack (SameOn-refl m.regs saved)

-- The registers behind rbp.
others : ℕ → ℕ → List ℕ
unfolding saved_callees
others u base = (if has u 0x400 then 30 ∷ 31 ∷ [] else []) ++ saved_callees u base 0 callee_tbl

others-without_rbp : (u base : ℕ) → has u use_rbp ≡ true → without_rbp (others u base) ≡ true
unfolding others
others-without_rbp u base h = elim (Bool-cases (has u 0x400)) [
  | inl high ↦ rw high (saved_callees-without_rbp u base 0 callee_tbl h)
  | inr low ↦ rw low (saved_callees-without_rbp u base 0 callee_tbl h)
]

-- The calls of the constructor that push.
abbrev entry : ℕ → ℕ → List ℕ → List Call
entry u t_num saved =
    if has u use_rbp
    then push_one u rbp
        ∷ (if bit_and t_num use_rbp_as_frame_pointer == use_rbp_as_frame_pointer
            then mov rbp rsp ∷ []
            else [])
      ++ pushes u 1 (skip 1 saved)
    else pushes u 0 saved

save_regs-rbp : (u base : ℕ) → has u use_rbp ≡ true → save_regs u base ≡ rbp ∷ others u base
unfolding save_regs others
save_regs-rbp u base h = rw h refl

save_regs-plain : (u base : ℕ) → has u use_rbp ≡ false → save_regs u base ≡ others u base
unfolding save_regs others
save_regs-plain u base h = rw h refl

entry-stack :
    (u base t_num : ℕ) (m : Machine)
    → (run (entry u t_num (save_regs u base)) m).stack
      ≡ map m.regs (reverse (save_regs u base)) ++ m.stack
entry-stack u base t_num m = elim (Bool-cases (has u use_rbp)) [
  | inl h ↦
      rw (save_regs-rbp u base h, h)
        (entry_rbp u (bit_and t_num use_rbp_as_frame_pointer == use_rbp_as_frame_pointer)
          (others u base) m (others-without_rbp u base h))
  | inr h ↦ rw (save_regs-plain u base h, h) (entry_plain u (others u base) m)
]

locals-stack :
    (size u n : ℕ) (k : Machine)
    → (run ((if size == 0 then [] else sub_rsp size ∷ []) ++ moves u n slot_tbl) k).stack
      ≡ zeros (size / 8) k.stack
locals-stack size u n k = elim (Bool-cases (size == 0)) [
  | inl h ↦
      let no_words : size / 8 ≡ 0 = ground (arith, h) in
      rw (h, no_words) (moves-stack u n slot_tbl k)
  | inr h ↦ rw h (moves-stack u n slot_tbl (run_call (sub_rsp size) k))
]

saved-stack :
    (u base t_num : ℕ) (saved : List ℕ) (m : Machine)
    → saved ≡ save_regs u base
    → (run (entry u t_num saved) m).stack ≡ map m.regs (reverse saved) ++ m.stack
saved-stack u base t_num saved m same = rw same (entry-stack u base t_num m)

exit_pops : (u a i : ℕ) (rs : List ℕ) (m : Machine) → run (pops u a i rs ++ []) m ≡ pop_all rs m
exit_pops u a i rs m = run-append (pops u a i rs) [] m ∙ run-pops u a i rs m

exit_local :
    (size u a i : ℕ) (rs words : List ℕ) (m : Machine)
    → skip (size / 8) m.stack ≡ words
    → run ((if size == 0 then [] else add_rsp size ∷ []) ++ (pops u a i rs ++ [])) m
      ≡ pop_all rs (record { regs = m.regs; stack = words })
exit_local size u a i rs words m above = elim (Bool-cases (size == 0)) [
  | inl h ↦
      let no_words : size / 8 ≡ 0 = ground (arith, h) in
      rw h (
        exit_pops u a i rs m
        ∙ ap (λ w. pop_all rs (record { regs = m.regs; stack = w })) (rw no_words at above))
  | inr h ↦ rw h (
      exit_pops u a i rs (run_call (add_rsp size) m)
      ∙ ap (λ w. pop_all rs (record { regs = m.regs; stack = w })) above)
]

exit_runs :
    (wants : Bool) (size u a i : ℕ) (rs words : List ℕ) (m : Machine)
    → skip (size / 8) m.stack ≡ words
    → run
        ((if wants then vzeroupper ∷ [] else [])
          ++ ((if size == 0 then [] else add_rsp size ∷ []) ++ (pops u a i rs ++ [])))
        m
      ≡ pop_all rs (record { regs = m.regs; stack = words })
exit_runs true size u a i rs words m above = exit_local size u a i rs words m above
exit_runs false size u a i rs words m above = exit_local size u a i rs words m above

-- The calls of close, on a stack with the saved words behind the local ones.
close-runs :
    (f : Frame) (m : Machine) (v : ℕ → ℕ) (st : List ℕ)
    → skip (f.local_size / 8) m.stack ≡ map v (reverse f.saved) ++ st
    → run (close false f) m
      ≡ pop_all (reverse f.saved) (record { regs = m.regs; stack = map v (reverse f.saved) ++ st })
unfolding close
close-runs f m v st above =
    exit_runs f.wants_vzeroupper f.local_size f.use_regs (if has f.use_regs use_rbp then 1 else 0)
      (length f.saved - 1) (reverse f.saved) (map v (reverse f.saved) ++ st) m above

-- The whole of the constructor's calls.
prolog-stack :
    (p_num t_num base : ℕ) (f : Frame) (m : Machine)
    → f.saved ≡ save_regs f.use_regs base
    → (run (prolog p_num t_num f) m).stack
      ≡ zeros (f.local_size / 8) (map m.regs (reverse f.saved) ++ m.stack)
unfolding prolog
prolog-stack p_num t_num base f m same =
    ap (λ k. k.stack)
      (run-append (entry f.use_regs t_num f.saved)
        ((if f.local_size == 0 then [] else sub_rsp f.local_size ∷ [])
          ++ moves f.use_regs p_num slot_tbl)
        m)
    ∙ locals-stack f.local_size f.use_regs p_num (run (entry f.use_regs t_num f.saved) m)
    ∙ ap (zeros (f.local_size / 8)) (saved-stack f.use_regs base t_num f.saved m same)

-- The frame that the constructor returns, with the registers that it saves.
frame_base : ℕ → ℕ → ℕ
frame_base p_num t_num = reg_num p_num t_num - no_save_num

make_frame-saved :
    (p_num t_num size : ℕ)
    → (make_frame p_num t_num size).saved
      ≡ save_regs (make_frame p_num t_num size).use_regs (frame_base p_num t_num)
unfolding make_frame frame_base
make_frame-saved p_num t_num size = refl

pair_of : Frame × List Call → Result (Frame × List Call) → Frame × List Call
pair_of default (ok p) = p
pair_of default (err e) = default

stack_frame_inv :
    (p_num t_num size : ℕ) (f : Frame) (calls : List Call)
    → stack_frame p_num t_num size ≡ ok (f, calls)
    → ◌≡◌ {A = Frame × List Call}
        (make_frame p_num t_num size, prolog p_num t_num (make_frame p_num t_num size))
        (f, calls)
unfolding stack_frame pair_of
stack_frame_inv p_num t_num size f calls runs =
    let (_, _, checked) = >>=-ok_inv (check_args p_num t_num) _ runs in
    let (_, _, returned) =
      >>=-ok_inv (throw_if (ltb max_reg_num (reg_num p_num t_num)) ErrorCode.err_bad_tnum) _
        checked in
    ap (pair_of (f, calls)) returned

-- A function that begins with the calls of the constructor and ends with those of close, without ret,
-- and whose body leaves the words above the local part of the stack alone: the stack is what it was
-- on entry, and a register of saveRegs_ has the value that it had on entry, whatever the body did
-- to the registers and to the local part.
pub close-restores :
    (p_num t_num size : ℕ) (f : Frame) (calls : List Call) (m body : Machine) (r : ℕ)
    → stack_frame p_num t_num size ≡ ok (f, calls)
    → skip (f.local_size / 8) body.stack ≡ skip (f.local_size / 8) (run calls m).stack
    → member r f.saved ≡ true
    → ((run (close false f) body).stack ≡ m.stack) × ((run (close false f) body).regs r ≡ m.regs r)
close-restores p_num t_num size f calls m body r runs kept saved =
    let pair = stack_frame_inv p_num t_num size f calls runs in
    let base = frame_base p_num t_num in
    let same : f.saved ≡ save_regs f.use_regs base =
      subst (λ k. k.saved ≡ save_regs k.use_regs base) (ap (λ q. q.0) pair)
        (make_frame-saved p_num t_num size) in
    let is_prolog : calls ≡ prolog p_num t_num f =
      sym (ap (λ q. q.1) pair) ∙ ap (prolog p_num t_num) (ap (λ q. q.0) pair) in
    let words = map m.regs (reverse f.saved) ++ m.stack in
    let left : (run calls m).stack ≡ zeros (f.local_size / 8) words =
      ap (λ c. (run c m).stack) is_prolog ∙ prolog-stack p_num t_num base f m same in
    let above : skip (f.local_size / 8) body.stack ≡ words =
      kept ∙ ap (skip (f.local_size / 8)) left ∙ skip-zeros (f.local_size / 8) words in
    let ran = close-runs f body m.regs m.stack above in
    (
      ap (λ k. k.stack) ran ∙ pop_all-stack m.regs body.regs (reverse f.saved) m.stack,
      ap (λ k. k.regs r) ran
          ∙ pop_all-regs m.regs body.regs (reverse f.saved) m.stack r
              (inr (member-reverse r f.saved saved)),
    )
