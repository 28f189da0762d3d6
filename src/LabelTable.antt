-- ===== src/LabelTable.antt =====
-- xbyak/xbyak.h: the templates of `class LabelManager`, that serve the labels named by a text and
-- the `Label` objects alike: a table of the defined labels with their offsets, and a table of the
-- jumps that wait for a label. Both hash maps are association lists; the order in which the
-- entries of one label are found in the multimap is that of the list.
-- The C loop finds an entry of the label, serves it and erases it until none is left: `resolve`
-- does so in one pass.
pub mod Target
pub mod Resolve
pub mod Define
pub mod Total
use xbyak.Prelude.{
  ℕ, ◌+◌, ◌-◌, ◌%◌, ◌^◌, Bool, true, false, not, ◌&&◌, ◌||◌, ltb, leb, ◌==◌, if◌then◌else◌, List,
  [], ◌∷◌, Option, none, some, u32, u64, sub64,
}
use xbyak.Err.{ErrorCode, Result, ok, err, throw_if, ◌>>=◌, ◌>>◌}
use xbyak.CodeArray.{
  CodeArray, LabelMode, las_is, labs, ladd_top, is_in_int32, is_in_disp8, is_auto_grow, get_curr,
  rewrite, save,
}

pub record JmpLabel : Type 0 where
  pub end_of_jmp : ℕ
  pub jmp_size : ℕ
  pub mode : LabelMode
  pub disp : ℕ

-- The displacement that `define_inner` computes for one jump, with its checks.
unfoldable pub jmp_disp : ℕ → JmpLabel → CodeArray → Result ℕ
jmp_disp addr_offset jmp base = elim (jmp.mode) [
  | ladd_top ↦ ok (u64 (addr_offset + jmp.disp))
  | labs ↦ ok (u64 (get_curr base + jmp.disp))
  | las_is ↦
      (let disp = u64 (sub64 addr_offset jmp.end_of_jmp + jmp.disp) in
        do
          throw_if (leb jmp.jmp_size 4 && not (is_in_int32 disp)) ErrorCode.err_offset_is_too_big
          throw_if (jmp.jmp_size == 1 && not (is_in_disp8 (u32 disp)))
              ErrorCode.err_label_is_too_far
          ok disp)
]

-- One round of the loop: the jump is filled in, or noted for the end of AutoGrow.
unfoldable pub patch : ℕ → JmpLabel → CodeArray → Result CodeArray
unfolding jmp_disp
patch addr_offset jmp base = do
  disp ← jmp_disp addr_offset jmp base
  let offset = sub64 jmp.end_of_jmp jmp.jmp_size
  if is_auto_grow base
      then ok (save offset disp jmp.jmp_size jmp.mode base)
      else rewrite offset disp jmp.jmp_size base

module _ {K : Type 0} (eqk : K → K → Bool) where
  unfoldable pub find {ℓ} : {V : Type ℓ} → K → List (K × V) → Option V
  find k [] = none
  find k ((j, v) ∷ m) = if eqk j k then some v else find k m

  unfoldable pub erase {ℓ} : {V : Type ℓ} → K → List (K × V) → List (K × V)
  erase k [] = []
  erase k ((j, v) ∷ m) = if eqk j k then m else (j, v) ∷ erase k m

  -- The loop of `define_inner`: the jumps that are left, and the buffer.
  unfoldable pub resolve :
      K → ℕ → List (K × JmpLabel) → CodeArray → Result (List (K × JmpLabel) × CodeArray)
  unfolding patch
  resolve k addr_offset [] base = ok ([], base)
  resolve k addr_offset ((j, jmp) ∷ rest) base = elim (eqk j k) [
    | true ↦ patch addr_offset jmp base >>= λ base'. resolve k addr_offset rest base'
    | false ↦ resolve k addr_offset rest base >>= λ r. ok ((j, jmp) ∷ r.0, r.1)
  ]

  -- define_inner: the tables of the labels and of the jumps, and the buffer. `value` makes the
  -- entry of the label.
  unfoldable pub define_inner {ℓ} :
      {V : Type ℓ} (value : ℕ → V) (def_list : List (K × V)) (undef_list : List (K × JmpLabel))
      (k : K) (addr_offset : ℕ) (base : CodeArray)
      → Result (List (K × V) × List (K × JmpLabel) × CodeArray)
  define_inner value def_list undef_list k addr_offset base = elim (find k def_list) [
    | some _ ↦ err ErrorCode.err_label_is_redefined
    | none ↦ resolve k addr_offset undef_list base >>= λ r.
        ok ((k, value addr_offset) ∷ def_list, r.0, r.1)
  ]
