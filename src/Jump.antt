-- ===== src/Jump.antt =====
-- xbyak/xbyak.h: the part of `class CodeGenerator` that joins the buffer with the labels: jumps,
-- calls, addresses of labels in the code, `L` and `ready`. `h` is what the system supplies.
-- The templates over the kind of label take the manager's two operations as arguments.
pub mod Site
pub mod Trace
pub mod Program
pub mod Known
use Prim.Native.String.{String}
use xbyak.Prelude.{
  ℕ, suc, ◌+◌, ◌-◌, ◌%◌, ◌^◌, Bool, true, false, not, ◌&&◌, ◌||◌, ltb, leb, ◌==◌, if◌then◌else◌,
  List, [], ◌∷◌, ◌++◌, Option, none, some, u32, u64, sub32, sub64,
}
use xbyak.Err.{ErrorCode, Result, ok, err, throw_if, ◌>>=◌, ◌>>◌}
use xbyak.CodeArray.{
  CodeArray, Host, LabelMode, las_is, labs, ladd_top, ProtectMode, protect_rw, is_in_disp8,
  is_auto_grow, is_alloc_type, get_curr, save, verify_in_int32, grow_memory, db_seq, db_word,
  le_bytes, reset_size, calc_jmp_address, set_protect_mode,
}
use xbyak.LabelTable.{JmpLabel}
use xbyak.LabelManager.{
  LabelManager, define_slabel, define_clabel, assign, get_offset_s, get_offset_c,
  add_undefined_slabel, add_undefined_clabel, has_undef_slabel, has_undef_clabel, enter_local,
  leave_local,
}
use xbyak.LabelManager

-- CodeGenerator::LabelType
pub data LabelType : Type 0 where
  t_short t_near t_far t_auto : LabelType

pub record Gen : Type 0 where
  pub array : CodeArray
  pub manager : LabelManager
  pub is_default_jmp_near : Bool

abbrev pub is_short : LabelType → Bool
is_short t_short = true
is_short _ = false

abbrev pub is_t_near : LabelType → Bool
is_t_near t_near = true
is_t_near _ = false

abbrev pub is_far : LabelType → Bool
is_far t_far = true
is_far _ = false

-- isNEAR
abbrev pub is_near : Gen → LabelType → Bool
is_near g t_near = true
is_near g t_auto = g.is_default_jmp_near
is_near g _ = false

-- `if (longPref) db(longPref); db(longCode);`
abbrev pub long_header : ℕ → ℕ → List ℕ
long_header long_code long_pref =
    if long_pref == 0 then long_code ∷ [] else long_pref ∷ long_code ∷ []

-- makeJmp: what it passes to `db` and `dd`. The distance is from the start of the jump.
unfoldable pub make_jmp : ℕ → LabelType → ℕ → ℕ → ℕ → Result (List ℕ)
make_jmp disp type short_code long_code long_pref =
    let long_jmp_size = (if long_pref == 0 then 1 else 2) + 4 in
    if not (is_t_near type) && is_in_disp8 (sub32 disp 2)
    then ok (short_code ∷ sub32 disp 2 ∷ [])
    else if is_short type
    then err ErrorCode.err_label_is_too_far
    else ok (long_header long_code long_pref ++ le_bytes 4 (sub32 disp long_jmp_size))

-- getOffset and addUndefinedLabel of a text, which `getOffset` may rename, or of a `Label`.
unfoldable pub find_slabel : String → LabelManager → Result (Option ℕ × String × LabelManager)
unfolding get_offset_s
find_slabel label m = do (o, label') ← get_offset_s label m; ok (o, label', m)

unfoldable pub find_clabel : ℕ → LabelManager → Result (Option ℕ × ℕ × LabelManager)
unfolding get_offset_c
find_clabel p m = let r = get_offset_c p m in ok (r.0, p, r.1)

module _ (h : Host) where
  -- `if (isAutoGrow() && size_ + 16 >= maxSize_) growMemory();`
  unfoldable pub reserve : CodeArray → Result CodeArray
  reserve c = if is_auto_grow c && leb c.max_size (c.size + 16) then grow_memory h c else ok c

  module _ {K : Type 0} (find_label : K → LabelManager → Result (Option ℕ × K × LabelManager))
      (add : K → JmpLabel → LabelManager → LabelManager) where
    -- The jump to a label that is not there yet: the bytes of the jump, with the size of the field.
    unfoldable pub forward_jmp : Gen → LabelType → ℕ → ℕ → ℕ → List ℕ × ℕ
    forward_jmp g type short_code long_code long_pref =
        if is_near g type
        then (long_header long_code long_pref ++ le_bytes 4 0, 4)
        else (short_code ∷ 0 ∷ [], 1)

    unfoldable pub op_jmp : K → LabelType → ℕ → ℕ → ℕ → Gen → Result Gen
    unfolding reserve forward_jmp make_jmp
    op_jmp label type short_code long_code long_pref g = do
      throw_if (is_far type) ErrorCode.err_not_supported
      c ← reserve g.array
      (found, label', m) ← find_label label g.manager
      elim found [
        | some offset ↦ (do
          disp ← verify_in_int32 (sub64 offset c.size)
          bs ← make_jmp disp type short_code long_code long_pref
          c' ← db_seq h bs c
          ok (record g { array = c'; manager = m }))
        | none ↦
            (let j = forward_jmp g type short_code long_code long_pref in
              do
                c' ← db_seq h j.0 c
                ok (record g {
                  array = c';
                  manager =
                      add label'
                        (record { end_of_jmp = c'.size; jmp_size = j.1; mode = las_is; disp = 0 })
                        m;
                }))
      ]

    -- putL_inner
    unfoldable pub put_l_inner : K → Bool → ℕ → ℕ → Gen → Result Gen
    unfolding reserve
    put_l_inner label relative disp size g =
        let jmp_size = if relative then 4 else size in
        do
          c ← reserve g.array
          (found, label', m) ← find_label label g.manager
          elim found [
            | some offset ↦
                if relative
                then (do
                  v ← verify_in_int32 (sub64 (sub64 (u64 (offset + disp)) c.size) jmp_size)
                  c' ← db_word h v jmp_size c
                  ok (record g { array = c'; manager = m }))
                else if is_auto_grow c
                then (do
                  c' ← db_word h 0 jmp_size c
                  ok (record g {
                    array = save (sub64 c'.size jmp_size) offset jmp_size ladd_top c';
                    manager = m;
                  }))
                else (do
                  c' ← db_word h (u64 (c.top + offset)) jmp_size c
                  ok (record g { array = c'; manager = m }))
            | none ↦ (do
              c' ← db_word h 0 jmp_size c
              ok (record g {
                array = c';
                manager =
                    add label'
                      (record {
                        end_of_jmp = c'.size;
                        jmp_size = jmp_size;
                        mode =
                            if relative then las_is else if is_auto_grow c' then ladd_top else labs;
                        disp = disp;
                      })
                      m;
              }))
          ]

  -- opJmpAbs with AutoGrow, and in a buffer that stays where it is.
  op_jmp_abs_auto : ℕ → LabelType → ℕ → ℕ → Gen → Result Gen
  unfolding reserve
  op_jmp_abs_auto addr type long_code long_pref g = do
    throw_if (not (is_near g type)) ErrorCode.err_only_t_near_is_supported_in_auto_grow
    c ← reserve g.array
    c' ← db_seq h (long_header long_code long_pref ++ le_bytes 4 0) c
    ok (record g { array = save (sub64 c'.size 4) (sub64 addr c'.size) 4 labs c' })

  op_jmp_abs_fixed : ℕ → LabelType → ℕ → ℕ → ℕ → Gen → Result Gen
  unfolding make_jmp
  op_jmp_abs_fixed addr type short_code long_code long_pref g = do
    disp ← verify_in_int32 (sub64 addr (get_curr g.array))
    bs ← make_jmp disp type short_code long_code long_pref
    c' ← db_seq h bs g.array
    ok (record g { array = c' })

  unfoldable pub op_jmp_abs : ℕ → LabelType → ℕ → ℕ → ℕ → Gen → Result Gen
  unfolding op_jmp_abs_auto op_jmp_abs_fixed
  op_jmp_abs addr type short_code long_code long_pref g = do
    throw_if (is_far type) ErrorCode.err_not_supported
    if is_auto_grow g.array
        then op_jmp_abs_auto addr type long_code long_pref g
        else op_jmp_abs_fixed addr type short_code long_code long_pref g

  -- jmp(label), call(label), putL(label)
  unfoldable pub jmp_c : ℕ → LabelType → Gen → Result Gen
  unfolding op_jmp
  jmp_c p type = op_jmp find_clabel add_undefined_clabel p type 0xEB 0xE9 0

  unfoldable pub jmp_s : String → LabelType → Gen → Result Gen
  unfolding op_jmp
  jmp_s label type = op_jmp find_slabel add_undefined_slabel label type 0xEB 0xE9 0

  unfoldable pub call_c : ℕ → Gen → Result Gen
  unfolding op_jmp
  call_c p = op_jmp find_clabel add_undefined_clabel p t_near 0 0xE8 0

  unfoldable pub call_s : String → Gen → Result Gen
  unfolding op_jmp
  call_s label = op_jmp find_slabel add_undefined_slabel label t_near 0 0xE8 0

  unfoldable pub put_l_c : ℕ → Gen → Result Gen
  unfolding put_l_inner
  put_l_c p = put_l_inner find_clabel add_undefined_clabel p false 0 8

  unfoldable pub put_l_s : String → Gen → Result Gen
  unfolding put_l_inner
  put_l_s label = put_l_inner find_slabel add_undefined_slabel label false 0 8

  ready_auto : ProtectMode → Gen → Result Gen
  ready_auto mode g = do
    c ← calc_jmp_address g.array
    p ← (if h.use_protect then set_protect_mode h mode true c else ok (c, true))
    ok (record g { array = p.0 })

  -- ready(mode)
  unfoldable pub ready : ProtectMode → Gen → Result Gen
  unfolding ready_auto
  ready mode g = do
    throw_if (has_undef_slabel g.manager || has_undef_clabel g.manager)
        ErrorCode.err_label_is_not_found
    if is_auto_grow g.array then ready_auto mode g else ok g

-- L(label), assignL, inLocalLabel, outLocalLabel, setDefaultJmpNEAR
unfoldable pub l_c : ℕ → Gen → Result Gen
unfolding define_clabel
l_c p g = do (m, c) ← define_clabel p g.manager g.array; ok (record g { array = c; manager = m })

unfoldable pub l_s : String → Gen → Result Gen
unfolding define_slabel
l_s label g = do
  (m, c) ← define_slabel label g.manager g.array
  ok (record g { array = c; manager = m })

unfoldable pub assign_l : ℕ → ℕ → Gen → Result Gen
unfolding assign
assign_l dst src g = do
  (m, c) ← assign dst src g.manager g.array
  ok (record g { array = c; manager = m })

unfoldable pub in_local_label : Gen → Gen
in_local_label g = record g { manager = enter_local g.manager }

unfoldable pub out_local_label : Gen → Result Gen
out_local_label g = do m ← leave_local g.manager; ok (record g { manager = m })

unfoldable pub set_default_jmp_near : Bool → Gen → Gen
set_default_jmp_near is_near g = record g { is_default_jmp_near = is_near }
