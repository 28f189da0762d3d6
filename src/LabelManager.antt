-- ===== src/LabelManager.antt =====
-- xbyak/xbyak.h: `class LabelManager` and `class Label`. A `Label` object is known by its address,
-- and `labels` is what the objects hold; the address of the manager is a flag in them. The pointer
-- to the buffer, `base_`, is an argument of the methods that use it.
-- `stateList_` has the global state in front and then one state for each nesting of local labels:
-- `global`, and `locals` with the last one, `back()`, first.
pub mod Anonymous
pub mod Assign
use Prim.Native.String.{String}
use text.Mathlib.Text.{◌==◌ as str_eq, starts_with}
use xbyak.Prelude.{
  ◌≡◌, ◌↔◌, ==_iff, ℕ, suc, ◌+◌, ◌-◌, Bool, true, false, not, ◌&&◌, ◌||◌, ltb, leb, ◌==◌,
  if◌then◌else◌, List, [], ◌∷◌, ◌++◌, length, Option, none, some, map, u64,
}
use xbyak.Err.{ErrorCode, Result, ok, err, throw_if, ◌>>=◌, ◌>>◌}
use xbyak.CodeArray.{CodeArray, is_auto_grow}
use xbyak.LabelTable.{JmpLabel, find, erase, resolve, define_inner}

pub record SlabelState : Type 0 where
  pub def_list : List (String × ℕ)
  pub undef_list : List (String × JmpLabel)

pub record ClabelVal : Type 0 where
  pub offset : ℕ
  pub ref_count : ℕ

-- The members of a `Label`: whether `mgr` is set, and `id`.
pub record Label : Type 0 where
  pub attached : Bool
  pub id : ℕ

pub record LabelManager : Type 0 where
  pub global : SlabelState
  pub locals : List SlabelState
  pub label_id : ℕ
  pub clabel_def_list : List (ℕ × ClabelVal)
  pub clabel_undef_list : List (ℕ × JmpLabel)
  pub label_ptr_list : List ℕ
  pub labels : ℕ → Label

abbrev pub nat_eq : ℕ → ℕ → Bool
nat_eq a b = a == b

pub nat_eq_iff : (a b : ℕ) → (nat_eq a b ≡ true) ↔ (a ≡ b)
nat_eq_iff a b = ==_iff a b

abbrev pub empty_state : SlabelState
empty_state = record { def_list = []; undef_list = [] }

abbrev pub clear_label : Label
clear_label = record { attached = false; id = 0 }

abbrev pub is_linked : List ℕ → ℕ → Bool
is_linked [] p = false
is_linked (q ∷ l) p = q == p || is_linked l p

abbrev pub unlink : List ℕ → ℕ → List ℕ
unlink [] p = []
unlink (q ∷ l) p = if q == p then unlink l p else q ∷ unlink l p

abbrev pub link : List ℕ → ℕ → List ℕ
link l p = if is_linked l p then l else p ∷ l

abbrev pub store_label : (ℕ → Label) → ℕ → Label → ℕ → Label
store_label f p v q = if p == q then v else f q

-- resetLabelPtrList: every linked label is cleared.
unfoldable pub reset_label_ptr_list : LabelManager → LabelManager
reset_label_ptr_list m = record m {
  label_ptr_list = [];
  labels = λ p. if is_linked m.label_ptr_list p then clear_label else m.labels p;
}

-- reset
unfoldable pub reset : LabelManager → LabelManager
unfolding reset_label_ptr_list
reset m = reset_label_ptr_list (record m {
  global = empty_state;
  locals = empty_state ∷ [];
  label_id = 1;
  clabel_def_list = [];
  clabel_undef_list = [];
})

unfoldable pub enter_local : LabelManager → LabelManager
enter_local m = record m { locals = empty_state ∷ m.locals }

-- hasUndefinedLabel_inner
abbrev pub has_entries {ℓ} : {A : Type ℓ} → List A → Bool
has_entries [] = false
has_entries (x ∷ l) = true

unfoldable pub leave_local : LabelManager → Result LabelManager
leave_local m = elim (m.locals) [
  | [] ↦ err ErrorCode.err_under_local_label
  | st ∷ outer ↦ elim outer [
    | [] ↦ err ErrorCode.err_under_local_label
    | next ∷ more ↦ (do
      throw_if (has_entries st.undef_list) ErrorCode.err_label_is_not_found
      ok (record m { locals = next ∷ more }))
  ]
]

-- `*label.c_str() == '.'`
abbrev pub is_local : String → Bool
is_local label = starts_with label "."

-- The state that a label belongs to: `stateList_.back()` or `stateList_.front()`.
abbrev pub state_of : String → LabelManager → SlabelState
state_of label m =
    if is_local label then (elim (m.locals) [ [] ↦ m.global | st ∷ outer ↦ st ]) else m.global

abbrev pub set_state : String → SlabelState → LabelManager → LabelManager
set_state label st m =
    if is_local label
    then (elim (m.locals) [
      | [] ↦ record m { global = st }
      | old ∷ outer ↦ record m { locals = st ∷ outer }
    ])
    else record m { global = st }

abbrev pub set_defs : List (String × ℕ) → LabelManager → LabelManager
set_defs d m = record m { global = record { def_list = d; undef_list = m.global.undef_list } }

-- The start of defineSlabel for "@@": the name under which the label is kept.
unfoldable pub anonymous_name : LabelManager → String × LabelManager
anonymous_name m = elim (find str_eq "@f" m.global.def_list) [
  | some _ ↦ ("@b", set_defs (erase str_eq "@f" m.global.def_list) m)
  | none ↦ ("@f", set_defs (erase str_eq "@b" m.global.def_list) m)
]

-- The end of defineSlabel.
unfoldable pub define_named :
    String → ℕ → LabelManager → CodeArray → Result (LabelManager × CodeArray)
define_named label addr_offset m base =
    let st = state_of label m in
    do
      (d, u, base') ← define_inner str_eq (λ o. o) st.def_list st.undef_list label addr_offset base
      ok (set_state label (record { def_list = d; undef_list = u }) m, base')

unfoldable pub define_slabel : String → LabelManager → CodeArray → Result (LabelManager × CodeArray)
unfolding anonymous_name define_named
define_slabel label m base = do
  throw_if (str_eq label "@b" || str_eq label "@f") ErrorCode.err_bad_label_str
  if str_eq label "@@"
      then (let r = anonymous_name m in define_named r.0 base.size r.1 base)
      else define_named label base.size m base

-- getId
unfoldable pub get_id : ℕ → LabelManager → ℕ × LabelManager
get_id p m =
    if (m.labels p).id == 0
    then (
      m.label_id,
      record m {
        labels =
            store_label m.labels p (record { attached = (m.labels p).attached; id = m.label_id });
        label_id = m.label_id + 1;
      },
    )
    else ((m.labels p).id, m)

abbrev pub new_clabel : ℕ → ClabelVal
new_clabel o = record { offset = o; ref_count = 1 }

-- `label.mgr = this; labelPtrList_.insert(&label)`
abbrev pub attach : ℕ → LabelManager → LabelManager
attach p m = record m {
  labels = store_label m.labels p (record { attached = true; id = (m.labels p).id });
  label_ptr_list = link m.label_ptr_list p;
}

-- define_inner on the tables of the `Label` objects.
abbrev pub define_id : ℕ → ℕ → LabelManager → CodeArray → Result (LabelManager × CodeArray)
define_id id addr_offset m base = do
  (d, u, base') ←
      define_inner nat_eq new_clabel m.clabel_def_list m.clabel_undef_list id addr_offset base
  ok (record m { clabel_def_list = d; clabel_undef_list = u }, base')

unfoldable pub define_clabel : ℕ → LabelManager → CodeArray → Result (LabelManager × CodeArray)
unfolding get_id
define_clabel p m base =
    let i = get_id p m in do (m', base') ← define_id i.0 base.size i.1 base; ok (attach p m', base')

-- assign(dst, src): the number of `dst` is read as it is.
unfoldable pub assign : ℕ → ℕ → LabelManager → CodeArray → Result (LabelManager × CodeArray)
assign dst src m base = elim (find nat_eq (m.labels src).id m.clabel_def_list) [
  | none ↦ err ErrorCode.err_label_isnot_set_by_l
  | some v ↦ (do
    (m', base') ← define_id (m.labels dst).id v.offset m base
    ok (attach dst m', base'))
]

-- getOffset of a text: the label may be renamed, and the caller goes on with the new name.
unfoldable pub rename : String → LabelManager → Result String
rename label m =
    let f = find str_eq "@f" m.global.def_list in
    let b = find str_eq "@b" m.global.def_list in
    if str_eq label "@b"
    then (elim f [
      | some _ ↦ ok "@f"
      | none ↦ elim b [ some _ ↦ ok label | none ↦ err ErrorCode.err_label_is_not_found ]
    ])
    else if str_eq label "@f"
    then (elim f [ some _ ↦ ok "@b" | none ↦ ok label ])
    else ok label

unfoldable pub get_offset_s : String → LabelManager → Result (Option ℕ × String)
unfolding rename
get_offset_s label m = do
  label' ← rename label m
  ok (find str_eq label' (state_of label' m).def_list, label')

-- getOffset of a Label
unfoldable pub get_offset_c : ℕ → LabelManager → Option ℕ × LabelManager
unfolding get_id
get_offset_c p m =
    let i = get_id p m in
    ((elim (find nat_eq i.0 m.clabel_def_list) [ some v ↦ some v.offset | none ↦ none ]), i.1)

unfoldable pub add_undefined_slabel : String → JmpLabel → LabelManager → LabelManager
add_undefined_slabel label jmp m =
    let st = state_of label m in
    set_state label (record { def_list = st.def_list; undef_list = (label, jmp) ∷ st.undef_list }) m

unfoldable pub add_undefined_clabel : ℕ → JmpLabel → LabelManager → LabelManager
add_undefined_clabel p jmp m = record m {
  clabel_undef_list = ((m.labels p).id, jmp) ∷ m.clabel_undef_list;
}

abbrev any_undef : List SlabelState → Bool
any_undef [] = false
any_undef (st ∷ l) = has_entries st.undef_list || any_undef l

unfoldable pub has_undef_slabel : LabelManager → Bool
has_undef_slabel m = any_undef (m.global ∷ m.locals)

unfoldable pub has_undef_clabel : LabelManager → Bool
has_undef_clabel m = has_entries m.clabel_undef_list

-- The count of an entry, changed in place.
abbrev pub set_count : ℕ → ℕ → List (ℕ × ClabelVal) → List (ℕ × ClabelVal)
set_count id n [] = []
set_count id n ((j, v) ∷ l) =
    if j == id
    then (j, record { offset = v.offset; ref_count = n }) ∷ l
    else (j, v) ∷ set_count id n l

-- incRefCount: `clabelDefList_[id]` makes an entry of offset 0 and count 1 where there is none.
unfoldable pub inc_ref_count : ℕ → ℕ → LabelManager → LabelManager
inc_ref_count id p m = record m {
  clabel_def_list = elim (find nat_eq id m.clabel_def_list) [
    | none ↦ (id, record { offset = 0; ref_count = 2 }) ∷ m.clabel_def_list
    | some v ↦ set_count id (v.ref_count + 1) m.clabel_def_list
  ];
  label_ptr_list = link m.label_ptr_list p;
}

unfoldable pub dec_ref_count : ℕ → ℕ → LabelManager → LabelManager
dec_ref_count id p m = record m {
  clabel_def_list = elim (find nat_eq id m.clabel_def_list) [
    | none ↦ m.clabel_def_list
    | some v ↦
        if v.ref_count == 1
        then erase nat_eq id m.clabel_def_list
        else set_count id (v.ref_count - 1) m.clabel_def_list
  ];
  label_ptr_list = unlink m.label_ptr_list p;
}

-- Label(const Label&): the object at `p` is made as a copy of that at `src`.
unfoldable pub copy_label : ℕ → ℕ → LabelManager → LabelManager
unfolding inc_ref_count
copy_label p src m =
    let m' = record m { labels = store_label m.labels p (m.labels src) } in
    if (m.labels src).attached then inc_ref_count (m.labels src).id p m' else m'

-- Label::operator=
unfoldable pub assign_label : ℕ → ℕ → LabelManager → Result LabelManager
unfolding copy_label
assign_label p src m = do
  throw_if (not ((m.labels p).id == 0)) ErrorCode.err_label_is_already_set_by_l
  ok (copy_label p src m)

-- Label::~Label
unfoldable pub destroy_label : ℕ → LabelManager → LabelManager
unfolding dec_ref_count
destroy_label p m =
    let l = m.labels p in if not (l.id == 0) && l.attached then dec_ref_count l.id p m else m

-- Label::isDefined
unfoldable pub is_defined : ℕ → LabelManager → Bool
is_defined p m =
    (m.labels p).attached
    && (elim (find nat_eq (m.labels p).id m.clabel_def_list) [ some _ ↦ true | none ↦ false ])

unfoldable pub is_ready : CodeArray → Bool
is_ready base = not (is_auto_grow base) || base.is_called_calc_jmp_address

-- Label::getAddress: 0 where there is none.
unfoldable pub get_address : ℕ → LabelManager → CodeArray → ℕ × LabelManager
unfolding get_offset_c is_ready
get_address p m base =
    if not ((m.labels p).attached && is_ready base)
    then (0, m)
    else (let r = get_offset_c p m in
        ((elim (r.0) [ some offset ↦ u64 (base.top + offset) | none ↦ 0 ]), r.1))
