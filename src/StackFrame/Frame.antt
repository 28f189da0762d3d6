-- ===== src/StackFrame/Frame.antt =====
-- `StackFrame`: the registers that it hands out, its constructor and `close`.
use xbyak.Prelude.{
  ℕ, zero, suc, ◌+◌, ◌-◌, ◌*◌, ◌/◌, ◌%◌, Bool, not, ◌&&◌, bit_and, has, ltb, ◌==◌, if◌then◌else◌,
  List, [], ◌∷◌, ◌++◌, length, take, Option, none, some,
}
use mathlib.Core.List.{reverse}
use xbyak.Err.{ErrorCode, Result, ok, throw_if, ◌>>◌}
use xbyak.StackFrame.{
  Call, mov, sub_rsp, add_rsp, vzeroupper, ret, use_rbp, use_mask, count_mask,
  use_rbp_as_frame_pointer, no_vzeroupper, use_vec_sse, use_vec_avx, rbp, rsp, caller_tbl,
  callee_tbl, slot_tbl, no_save_num, max_reg_num, is_use_reg, count_used, save_regs, pushes, pops,
  push_one,
}

pub record Frame : Type 0 where
  pub use_regs : ℕ
  pub saved : List ℕ
  -- P_
  pub local_size : ℕ
  pub wants_vzeroupper : Bool
  pub p : List ℕ
  pub t : List ℕ

-- The loop of getRegIdx over the slots, for one register of the table: what is handed out for it.
unfoldable pub handed_out : ℕ → ℕ → List (ℕ × ℕ × ℕ) → Option ℕ
unfolding is_use_reg
handed_out use_regs r [] = if is_use_reg use_regs r then none else some r
handed_out use_regs r ((target, pos, alt) ∷ slots) =
    let rest = handed_out use_regs r slots in
    if not (is_use_reg use_regs target)
    then rest
    else if r == alt
    then none
    else if r == target
    then some alt
    else rest

-- The registers that getRegIdx returns, one call after the other.
unfoldable pub available : ℕ → List ℕ → List ℕ
unfolding handed_out
available use_regs [] = []
available use_regs (r ∷ rs) = elim (handed_out use_regs r slot_tbl) [
  | none ↦ available use_regs rs
  | some s ↦ s ∷ available use_regs rs
]

abbrev pub skip : ℕ → List ℕ → List ℕ
skip zero xs = xs
skip (suc n) [] = []
skip (suc n) (x ∷ xs) = skip n xs

-- The moves of the parameters whose registers are reserved.
unfoldable pub moves : ℕ → ℕ → List (ℕ × ℕ × ℕ) → List Call
unfolding is_use_reg
moves use_regs p_num [] = []
moves use_regs p_num ((target, pos, alt) ∷ slots) =
    (if is_use_reg use_regs target && ltb pos p_num then mov alt target ∷ [] else [])
    ++ moves use_regs p_num slots

-- P_: words, made odd or even so that rsp is a multiple of 16, and then bytes.
unfoldable pub local_bytes : ℕ → ℕ → ℕ
local_bytes stack_size save_num =
    let words = (stack_size + 7) / 8 in
    (if ltb 0 words && words % 2 == save_num % 2 then words + 1 else words) * 8

-- The checks of the constructor.
unfoldable pub check_args : ℕ → ℕ → Result (Unit {0})
check_args p_num t_num =
    let kind = bit_and t_num (use_vec_sse + use_vec_avx) in
    let vec_num = t_num / 0x10000 % 64 in
    do
      throw_if (ltb 4 p_num) ErrorCode.err_bad_pnum
      throw_if (kind == use_vec_sse + use_vec_avx) ErrorCode.err_bad_tnum
      throw_if (has t_num no_vzeroupper && not (kind == use_vec_avx)) ErrorCode.err_bad_tnum
      throw_if (kind == 0 && ltb 0 vec_num) ErrorCode.err_bad_tnum
      throw_if (not (kind == 0) && ltb (if kind == use_vec_avx then 32 else 16) vec_num)
          ErrorCode.err_bad_tnum

-- The calls of the constructor.
unfoldable pub prolog : ℕ → ℕ → Frame → List Call
unfolding pushes moves
prolog p_num t_num f =
    (if has f.use_regs use_rbp
      then push_one f.use_regs rbp
          ∷ (if bit_and t_num use_rbp_as_frame_pointer == use_rbp_as_frame_pointer
              then mov rbp rsp ∷ []
              else [])
        ++ pushes f.use_regs 1 (skip 1 f.saved)
      else pushes f.use_regs 0 f.saved)
    ++ ((if f.local_size == 0 then [] else sub_rsp f.local_size ∷ [])
        ++ moves f.use_regs p_num slot_tbl)

-- pNum + tNum_ + useNum
unfoldable pub reg_num : ℕ → ℕ → ℕ
unfolding count_used
reg_num p_num t_num =
    p_num
    + (t_num - bit_and t_num count_mask)
    + count_used (bit_and t_num use_mask) (caller_tbl ++ callee_tbl)

-- The members as the constructor leaves them.
unfoldable pub make_frame : ℕ → ℕ → ℕ → Frame
unfolding reg_num save_regs available local_bytes
make_frame p_num t_num stack_size =
    let use_regs = bit_and t_num use_mask in
    let saved = save_regs use_regs (reg_num p_num t_num - no_save_num) in
    let regs = available use_regs (caller_tbl ++ callee_tbl) in
    record {
      use_regs = use_regs;
      saved = saved;
      local_size = local_bytes stack_size (length saved);
      wants_vzeroupper = has t_num use_vec_avx && not (has t_num no_vzeroupper);
      p = take p_num regs;
      t = take (t_num - bit_and t_num count_mask) (skip p_num regs);
    }

-- StackFrame(code, pNum, tNum, stackSizeByte)
unfoldable pub stack_frame : ℕ → ℕ → ℕ → Result (Frame × List Call)
unfolding check_args reg_num make_frame prolog
stack_frame p_num t_num stack_size = do
  check_args p_num t_num
  throw_if (ltb max_reg_num (reg_num p_num t_num)) ErrorCode.err_bad_tnum
  ok (make_frame p_num t_num stack_size, prolog p_num t_num (make_frame p_num t_num stack_size))

-- close(callRet)
unfoldable pub close : Bool → Frame → List Call
unfolding pops
close call_ret f =
    (if f.wants_vzeroupper then vzeroupper ∷ [] else [])
    ++ ((if f.local_size == 0 then [] else add_rsp f.local_size ∷ [])
        ++ (pops f.use_regs (if has f.use_regs use_rbp then 1 else 0) (length f.saved - 1)
              (reverse f.saved)
            ++ (if call_ret then ret ∷ [] else [])))
