-- ===== src/Format/Moves.antt =====
-- mov, test, imul, push, pop, xchg, bswap and the segment registers.
pub mod Loads
use xbyak.Prelude.{
  ℕ, ◌+◌, ◌-◌, ◌*◌, ◌/◌, ◌%◌, ◌^◌, min, Bool, true, false, not, ◌&&◌, ◌||◌, bit_or, has, leb, ltb,
  ◌==◌, if◌then◌else◌, List, [], ◌∷◌, ◌++◌, Option, none, some, u32, sub64,
}
use xbyak.Err.{ErrorCode, Result, ok, err, throw_if, ◌>>=◌, ◌>>◌}
use xbyak.Flags.{t_apx, t_nf, t_zu, t_allow_diff_size, t_allow_abcdh, t_0f}
use xbyak.Operand.{Operand, none_reg, make_reg, reg8, reg32, get_idx, is, is_bit, is_reg}
use xbyak.Operand.Kind
use xbyak.Operand.Convert.{cvt32}
use xbyak.RegExp.{Address, i32e}
use xbyak.Rex.{rex_regs}
use xbyak.RegMem.{RegMem, in_reg, in_mem, bit_of, idx_of, kind_of, op_is, op_is_bit, op_is_reg}
use xbyak.Evex.{none_imm}
use xbyak.CodeArray.{Host, is_in_disp8, is_in_int32, le_bytes}
use xbyak.LabelManager.{add_undefined_clabel}
use xbyak.Jump.{Gen, find_clabel, put_l_inner}
use xbyak.Format.{
  put, prefix_bytes, is_64bit_disp, op_ro, op_ro_mr, op_rext, op_roo_or, op_mr_plain, op_rr,
}
use xbyak.Format.Arith.{verify_mem_has_size, op_push_pop}

-- mov_imm: the bytes, and the number of bytes of the value that follows them.
unfoldable pub mov_imm : Operand → ℕ → Result (List ℕ × ℕ)
unfolding get_idx
mov_imm r imm =
    let low = get_idx r % 8 in
    let code = if r.bit == 8 then 0xB0 else 0xB8 in
    if r.bit == 64 && imm / 2 ^ 32 == 0
    then (do
      p ← rex_regs (reg32 (get_idx r)) none_reg 0
      ok (prefix_bytes p ++ (code + low) ∷ [], 4))
    else (do
      p ← rex_regs r none_reg 0
      ok (
          if r.bit == 64 && is_in_int32 imm
          then (prefix_bytes p ++ 0xC7 ∷ (0xC0 + low) ∷ [], 4)
          else (prefix_bytes p ++ (code + low) ∷ [], r.bit / 8)))

-- The check of the value that `mov` writes to memory: the number of its bytes.
unfoldable pub mem_imm_size : ℕ → ℕ → Result ℕ
mem_imm_size bit imm =
    let size = bit / 8 in
    if leb size 4
    then (do
      throw_if
          (not (imm / 2 ^ (size * 8) == 0) && not (imm / 2 ^ (size * 8) == 2 ^ (64 - size * 8) - 1))
          ErrorCode.err_imm_is_too_big
      ok size)
    else (do throw_if (not (is_in_int32 imm)) ErrorCode.err_imm_is_too_big; ok 4)

-- Segment::es to gs
abbrev pub segment_code : ℕ → List ℕ → List ℕ → List ℕ → List ℕ → List ℕ → List ℕ → List ℕ
segment_code s es cs ss ds fs gs =
    if s == 0
    then es
    else if s == 1
    then cs
    else if s == 2
    then ss
    else if s == 3
    then ds
    else if s == 4
    then fs
    else if s == 5
    then gs
    else []

module _ (h : Host) where
  unfoldable pub test_reg : RegMem → Operand → Gen → Result Gen
  unfolding op_ro
  test_reg op r = op_ro h r op 0 0x84 (kind_of op == r.kind) 0

  unfoldable pub test_imm : RegMem → ℕ → Gen → Result Gen
  unfolding verify_mem_has_size is op_is get_idx op_rext put
  test_imm op imm g =
      let imm_size = min (bit_of op / 8) 4 in
      let general = op_rext h op 0 0 0 0xF6 false imm_size none g in
      do
        verify_mem_has_size op
        g' ← elim op [
          | in_mem a ↦ general
          | in_reg r ↦
              if is_reg r 0 && get_idx r == 0
              then (do
                p ← rex_regs r none_reg 0
                put h (prefix_bytes p ++ bit_or 0xA8 (if is_bit r 8 then 0 else 1) ∷ []) g)
              else general
        ]
        put h (le_bytes imm_size imm) g'

  -- imul(reg, op, imm)
  unfoldable pub imul_imm : Operand → RegMem → ℕ → Gen → Result Gen
  unfolding is op_roo_or op_ro put
  imul_imm r op imm g =
      let s = is_in_disp8 imm in
      let imm_size = if s then 1 else if is_reg r 16 then 2 else 4 in
      let code = if s then 0x6B else 0x69 in
      do
        g' ←
            op_roo_or h none_reg op (in_reg r) (t_apx + t_nf + t_zu) code imm_size none_imm
              (op_ro h r op 0 code (r.kind == kind_of op) imm_size) g
        put h (le_bytes imm_size imm) g'

  unfoldable pub push : RegMem → Gen → Result Gen
  unfolding op_push_pop
  push op = op_push_pop h op 0xFF 6 0x50

  unfoldable pub pop : RegMem → Gen → Result Gen
  unfolding op_push_pop
  pop op = op_push_pop h op 0x8F 0 0x58

  -- push(AddressFrame, imm): the frame is its size.
  unfoldable pub push_sized : ℕ → ℕ → Gen → Result Gen
  unfolding put
  push_sized bit imm = put h (
      if bit == 8
      then 0x6A ∷ imm ∷ []
      else if bit == 16
      then 0x66 ∷ 0x68 ∷ le_bytes 2 imm
      else 0x68 ∷ le_bytes 4 imm)

  -- push(imm)
  unfoldable pub push_imm : ℕ → Gen → Result Gen
  unfolding push_sized
  push_imm imm = if is_in_disp8 imm then push_sized 8 imm else push_sized 32 imm

  -- The branch of mov for `rax` and an address of 64 bits.
  unfoldable pub mov_moffs : Operand → Address → ℕ → Gen → Result Gen
  unfolding put
  mov_moffs r a code g = do
    p ← rex_regs r none_reg 0
    g' ← put h (prefix_bytes p ++ code ∷ []) g
    elim (a.label) [
      | some label ↦
          put_l_inner h find_clabel add_undefined_clabel label false (sub64 a.exp.disp a.imm_size) 8
            g'
      | none ↦ put h (le_bytes 8 a.exp.disp) g'
    ]

  -- mov(op1, op2)
  unfoldable pub mov : RegMem → RegMem → Gen → Result Gen
  unfolding is get_idx mov_moffs op_ro_mr
  mov (in_reg r) (in_mem a) g =
      if is_reg r 0 && get_idx r == 0 && is_64bit_disp a
      then mov_moffs r a (if is_reg r 8 then 0xA0 else 0xA1) g
      else op_ro_mr h (in_reg r) (in_mem a) 0x88 g
  mov (in_mem a) (in_reg r) g =
      if is_reg r 0 && get_idx r == 0 && is_64bit_disp a
      then mov_moffs r a (if is_reg r 8 then 0xA2 else 0xA3) g
      else op_ro_mr h (in_mem a) (in_reg r) 0x88 g
  mov op1 op2 g = op_ro_mr h op1 op2 0x88 g

  -- mov(op, imm)
  unfoldable pub mov_value : RegMem → ℕ → Gen → Result Gen
  unfolding is mov_imm mem_imm_size verify_mem_has_size op_mr_plain put
  mov_value (in_reg r) imm g =
      if is_reg r 0
      then (do p ← mov_imm r imm; put h (p.0 ++ le_bytes p.1 imm) g)
      else err ErrorCode.err_bad_combination
  mov_value (in_mem a) imm g = do
    verify_mem_has_size (in_mem a)
    size ← mem_imm_size a.bit imm
    g' ← op_mr_plain h (record a { imm_size = size }) (make_reg 0 Kind.reg a.bit) 0 0xC6 g
    put h (le_bytes size (u32 imm)) g'

  -- xchg of two registers
  unfoldable pub xchg_regs : Operand → Operand → Gen → Result Gen
  unfolding is is_bit get_idx put op_rr
  xchg_regs op1 op2 g =
      let swap = is_reg op2 112 && get_idx op2 == 0 in
      let p1 = if swap then op2 else op1 in
      let p2 = if swap then op1 else op2 in
      if is_reg p2 0
        && ((is_reg p1 112 && get_idx p1 == 0) && (not (get_idx p2 == 0) || not (is_reg p1 32)))
      then (do p ← rex_regs p2 p1 0; put h (prefix_bytes p ++ (0x90 + get_idx p2 % 8) ∷ []) g)
      else (let both = is_reg p1 0 && is_reg p2 0 in
          let q1 = if both then p2 else p1 in
          let q2 = if both then p1 else p2 in
          if is_reg q1 0 && q1.bit == q2.bit
          then op_rr h q1 q2 0 (bit_or 0x86 (if is_bit q1 8 then 0 else 1)) g
          else err ErrorCode.err_bad_combination)

  unfoldable pub xchg : RegMem → RegMem → Gen → Result Gen
  unfolding xchg_regs is is_bit op_mr_plain
  xchg (in_reg r1) (in_reg r2) g = xchg_regs r1 r2 g
  xchg (in_reg r) (in_mem a) g =
      op_mr_plain h (record a { imm_size = 0 }) r 0 (bit_or 0x86 (if is_bit r 8 then 0 else 1)) g
  xchg (in_mem a) (in_reg r) g =
      op_mr_plain h (record a { imm_size = 0 }) r 0 (bit_or 0x86 (if is_bit r 8 then 0 else 1)) g
  xchg (in_mem a) (in_mem b) g = err ErrorCode.err_bad_combination

  unfoldable pub push_segment : ℕ → Gen → Result Gen
  unfolding put
  push_segment s = put h (
      segment_code s (0x06 ∷ []) (0x0E ∷ []) (0x16 ∷ []) (0x1E ∷ []) (0x0F ∷ 0xA0 ∷ [])
        (0x0F ∷ 0xA8 ∷ []))

  unfoldable pub pop_segment : ℕ → Gen → Result Gen
  unfolding put
  pop_segment s g =
      if s == 1
      then err ErrorCode.err_bad_combination
      else put h
          (segment_code s (0x07 ∷ []) [] (0x17 ∷ []) (0x1F ∷ []) (0x0F ∷ 0xA1 ∷ [])
            (0x0F ∷ 0xA9 ∷ []))
          g

  unfoldable pub put_seg : ℕ → Gen → Result Gen
  unfolding put
  put_seg s =
      put h (segment_code s (0x26 ∷ []) (0x2E ∷ []) (0x36 ∷ []) (0x3E ∷ []) (0x64 ∷ []) (0x65 ∷ []))

  -- mov(op, seg)
  unfoldable pub mov_from_segment : RegMem → ℕ → Gen → Result Gen
  unfolding op_ro op_is
  mov_from_segment op s =
      op_ro h (reg8 s false) op (t_allow_diff_size + t_allow_abcdh) 0x8C (op_is_reg op 112) 0

  -- mov(seg, op)
  unfoldable pub mov_to_segment : ℕ → RegMem → Gen → Result Gen
  unfolding op_ro is
  mov_to_segment s (in_mem a) g =
      op_ro h (reg8 s false) (in_mem a) (t_allow_diff_size + t_allow_abcdh) 0x8E false 0 g
  mov_to_segment s (in_reg r) g =
      if is_reg r 112
      then (do
        r' ← cvt32 r
        op_ro h (reg8 s false) (in_reg r') (t_allow_diff_size + t_allow_abcdh) 0x8E true 0 g)
      else err ErrorCode.err_bad_combination

  unfoldable pub bswap : Operand → Gen → Result Gen
  unfolding get_idx is put
  bswap r =
      let idx = get_idx r in
      let rex = (if is_reg r 64 then 8 else 0) + (if has idx 8 then 1 else 0) in
      put h (
        (if leb 16 idx
          then 0xD5 ∷ (128 + (if has idx 16 then 16 else 0) + rex) ∷ []
          else (if rex == 0 then [] else (0x40 + rex) ∷ []) ++ 0x0F ∷ [])
        ++ (0xC8 + idx % 8) ∷ [])
