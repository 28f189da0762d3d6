-- ===== src/StackFrame/Registers.antt =====
-- The registers that a frame hands out: a finite check over all arguments.
use xbyak.Prelude.{
  ℕ, ◌+◌, ◌*◌, ◌<◌, ◌≡◌, refl, arith, Bool, true, false, not, ◌&&◌, ◌||◌, ltb, ◌==◌, List, [], ◌∷◌,
  ◌++◌, length, all_below, all_below_sound,
}
use xbyak.StackFrame.{is_use_reg, rsp, callee_tbl, max_reg_num}
use xbyak.StackFrame.Frame.{Frame, make_frame, reg_num}
use xbyak.StackFrame.Balance.{member}

abbrev distinct : List ℕ → Bool
distinct [] = true
distinct (r ∷ rs) = not (member r rs) && distinct rs

-- Not rsp, not rax, not reserved, and saved if the caller expects it to keep its value.
abbrev all_usable : Frame → List ℕ → Bool
all_usable f [] = true
all_usable f (r ∷ rs) =
    (not (r == rsp || (r == 0 || is_use_reg f.use_regs r))
      && (not (member r callee_tbl) || member r f.saved))
    && all_usable f rs

abbrev pub hands_out : ℕ → ℕ → Frame → Bool
hands_out p_num count f =
    (length f.p == p_num && length f.t == count)
    && (distinct (f.p ++ f.t) && all_usable f (f.p ++ f.t))

abbrev row : ℕ → ℕ → ℕ → Bool
row p_num count flags =
    let t_num = count + flags * 32 in
    ltb max_reg_num (reg_num p_num t_num) || hands_out p_num count (make_frame p_num t_num 0)

all_rows :
    all_below 5 (λ p_num. all_below 15 (λ count. all_below 64 (λ flags. row p_num count flags)))
    ≡ true
unfolding reg_num make_frame
all_rows = refl

one_row :
    (p_num count flags : ℕ) → p_num < 5 → count < 15 → flags < 64 → row p_num count flags ≡ true
one_row p_num count flags hp hc hf =
    all_below_sound 64 (λ k. row p_num count k) flags
      (all_below_sound 15 (λ c. all_below 64 (λ k. row p_num c k)) count
        (all_below_sound 5 (λ p. all_below 15 (λ c. all_below 64 (λ k. row p c k))) p_num all_rows
          hp)
        hc)
      hf

-- For up to four parameters, up to 14 other registers and any of the flags UseRBP, UseRCX, UseRDX,
-- UseRSI, UseRDI and UseR30R31, where the constructor does not find too many of them, and for any size
-- of the local part: there are as many registers p[] and t[] as were asked for, all different, none of
-- them is rax, rsp or a reserved one, and those that the caller expects to keep are among the saved.
pub make_frame-hands_out :
    (p_num count flags size : ℕ)
    → p_num < 5
    → count < 15
    → flags < 64
    → ltb max_reg_num (reg_num p_num (count + flags * 32)) ≡ false
    → hands_out p_num count (make_frame p_num (count + flags * 32) size) ≡ true
unfolding make_frame
make_frame-hands_out p_num count flags size hp hc hf enough =
    ground (arith, one_row p_num count flags hp hc hf, enough)
