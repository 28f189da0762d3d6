-- ===== src/StackFrame.antt =====
-- xbyak/xbyak_util.h: `class StackFrame`, the entry and the exit of a function that is generated, in
-- the build for the System V convention (XBYAK64_GCC). What the constructor and `close` write is the
-- list of their calls of the generator. A register is its number, `int` arguments are not negative.
-- The parts for Win64, which saves xmm registers, are left out: `vecSaveNum_` is 0 here.
pub mod Frame
pub mod Restore
pub mod Balance
pub mod Saves
pub mod Registers
use xbyak.Prelude.{
  ℕ, zero, suc, ◌+◌, ◌-◌, ◌*◌, ◌/◌, ◌%◌, Bool, true, false, not, ◌&&◌, ◌||◌, bit_and, has, ltb, leb,
  ◌==◌, if◌then◌else◌, List, [], ◌∷◌, ◌++◌,
}
use xbyak.Err.{ErrorCode, Result, ok, err, throw_if, ◌>>=◌, ◌>>◌}

-- A call of the generator.
pub data Call : Type 0 where
  push pop pushp popp : ℕ → Call
  push2 push2p pop2 pop2p : ℕ → ℕ → Call
  mov : ℕ → ℕ → Call
  sub_rsp add_rsp : ℕ → Call
  vzeroupper ret : Call

-- UseRBP to UsePPX
abbrev pub use_rbp : ℕ
use_rbp = 0x20

abbrev pub use_rcx : ℕ
use_rcx = 0x40

abbrev pub use_rdx : ℕ
use_rdx = 0x80

abbrev pub use_rsi : ℕ
use_rsi = 0x100

abbrev pub use_rdi : ℕ
use_rdi = 0x200

abbrev pub use_r30r31 : ℕ
use_r30r31 = 0x400

abbrev pub use_push2 : ℕ
use_push2 = 0x10000000

abbrev pub use_ppx : ℕ
use_ppx = 0x20000000

-- UseRBPAsFramePointer
abbrev pub use_rbp_as_frame_pointer : ℕ
use_rbp_as_frame_pointer = use_rbp + 0x40000000

abbrev pub no_vzeroupper : ℕ
no_vzeroupper = 0x1000000

-- local::UseVecSSE and local::UseVecAVX, and the arguments that are made of them.
abbrev pub use_vec_sse : ℕ
use_vec_sse = 0x400000

abbrev pub use_vec_avx : ℕ
use_vec_avx = 0x800000

abbrev pub use_sse : ℕ → ℕ
use_sse n = use_vec_sse + n * 0x10000

abbrev pub use_avx : ℕ → ℕ
use_avx n = use_vec_avx + n * 0x10000

-- UseMASK, and what is taken away from `tNum` to get `tNum_`.
abbrev pub use_mask : ℕ
use_mask = 0x300007E0

abbrev pub count_mask : ℕ
count_mask = 0x71FF07E0

-- Operand::RCX, RDX, RSP, RBP, RSI and RDI
abbrev pub rcx : ℕ
rcx = 1

abbrev pub rdx : ℕ
rdx = 2

abbrev pub rsp : ℕ
rsp = 4

abbrev pub rbp : ℕ
rbp = 5

abbrev pub rsi : ℕ
rsi = 6

abbrev pub rdi : ℕ
rdi = 7

-- getRegEntryTbl: the first eight are the caller's, the others are saved.
abbrev pub caller_tbl : List ℕ
caller_tbl = rdi ∷ rsi ∷ rdx ∷ rcx ∷ 8 ∷ 9 ∷ 10 ∷ 11 ∷ []

abbrev pub callee_tbl : List ℕ
callee_tbl = 3 ∷ rbp ∷ 12 ∷ 13 ∷ 14 ∷ 15 ∷ []

abbrev pub no_save_num : ℕ
no_save_num = 8

abbrev pub max_reg_num : ℕ
max_reg_num = 14

-- useFlagOf and isUseReg
unfoldable pub use_flag_of : ℕ → ℕ
use_flag_of r =
    if r == rcx
    then use_rcx
    else if r == rdx
    then use_rdx
    else if r == rsi
    then use_rsi
    else if r == rdi
    then use_rdi
    else if r == rbp
    then use_rbp
    else 0

unfoldable pub is_use_reg : ℕ → ℕ → Bool
unfolding use_flag_of
is_use_reg use_regs r = has use_regs (use_flag_of r)

-- The number of reserved registers of a table.
unfoldable pub count_used : ℕ → List ℕ → ℕ
unfolding is_use_reg
count_used use_regs [] = 0
count_used use_regs (r ∷ rs) = (if is_use_reg use_regs r then 1 else 0) + count_used use_regs rs

-- getRegSlotTbl: the register, its position as a parameter, and the one that stands in for it.
abbrev pub slot_tbl : List (ℕ × ℕ × ℕ)
slot_tbl = (rcx, 3, 10) ∷ (rdx, 2, 11) ∷ (rdi, 0, 8) ∷ (rsi, 1, 9) ∷ []

-- The loop that fills saveRegs_ behind rbp, r30 and r31; `i` is the index in the table.
unfoldable pub saved_callees : ℕ → ℕ → ℕ → List ℕ → List ℕ
unfolding is_use_reg
saved_callees use_regs base i [] = []
saved_callees use_regs base i (r ∷ rs) =
    (if (ltb i base || is_use_reg use_regs r) && not (has use_regs use_rbp && r == rbp)
      then r ∷ []
      else [])
    ++ saved_callees use_regs base (i + 1) rs

-- saveRegs_
unfoldable pub save_regs : ℕ → ℕ → List ℕ
unfolding saved_callees
save_regs use_regs base =
    (if has use_regs use_rbp then rbp ∷ [] else [])
    ++ ((if has use_regs use_r30r31 then 30 ∷ 31 ∷ [] else [])
        ++ saved_callees use_regs base 0 callee_tbl)

-- The calls for one register and for two.
abbrev pub push_one : ℕ → ℕ → Call
push_one use_regs r = if has use_regs use_ppx then pushp r else push r

abbrev pub push_two : ℕ → ℕ → ℕ → Call
push_two use_regs r s = if has use_regs use_ppx then push2p r s else push2 r s

abbrev pub pop_one : ℕ → ℕ → Call
pop_one use_regs r = if has use_regs use_ppx then popp r else pop r

abbrev pub pop_two : ℕ → ℕ → ℕ → Call
pop_two use_regs r s = if has use_regs use_ppx then pop2p r s else pop2 r s

-- The loop of the pushes from the index `i` on.
unfoldable pub pushes : ℕ → ℕ → List ℕ → List Call
pushes use_regs i [] = []
pushes use_regs i (r ∷ []) = push_one use_regs r ∷ []
pushes use_regs i (r ∷ s ∷ rs) =
    let one = push_one use_regs r ∷ pushes use_regs (i + 1) (s ∷ rs) in
    let two = push_two use_regs r s ∷ pushes use_regs (i + 2) rs in
    if has use_regs use_push2 && has i 1 then two else one

-- The loop of the pops: the registers that are left stand in the list from the last one on, `i` is
-- the index of the first of them in saveRegs_.
unfoldable pub pops : ℕ → ℕ → ℕ → List ℕ → List Call
pops use_regs start i [] = []
pops use_regs start i (r ∷ []) = pop_one use_regs r ∷ []
pops use_regs start i (r ∷ s ∷ rs) =
    let one = pop_one use_regs r ∷ pops use_regs start (i - 1) (s ∷ rs) in
    let two = pop_two use_regs r s ∷ pops use_regs start (i - 2) rs in
    if has use_regs use_push2 && (not (has i 1) && ltb start i) then two else one
