-- ===== src/Tests/Labels.antt =====
-- The tables of labels at concrete inputs.
use xbyak.Prelude.{
  ℕ, ◌≡◌, refl, inr, arith, true, false, List, [], ◌∷◌, ◌==◌, if◌then◌else◌, none, some,
}
use xbyak.Err.{Result, ok, err, OnOk}
use xbyak.CodeArray.{CodeArray, user_buf, las_is}
use xbyak.CodeArray.Emit.{IsValid}
use xbyak.LabelTable.{JmpLabel, find, erase, resolve, patch, define_inner}
use xbyak.LabelTable.Target.{IsField}
use xbyak.LabelTable.Resolve.{start, waits}
use xbyak.LabelTable.Define.{Filled, define_inner-Defined}
use xbyak.LabelTable.Total.{define_inner-total}
use xbyak.LabelManager.{
  LabelManager, ClabelVal, nat_eq, nat_eq_iff, new_clabel, empty_state, clear_label, define_slabel,
  assign, get_offset_c, add_undefined_clabel,
}
use xbyak.LabelManager.Anonymous.{Alternates, Follows, define_slabel-Follows}
use xbyak.LabelManager.Assign.{assign-offset}
use xbyak.Jump.{Gen, find_clabel, put_l_inner}
use xbyak.Jump.Known.{put_l_inner-ignores_disp}
use xbyak.Tests.Code.{buffer, test_host}

-- A jump to label 7 at offset 0, of five bytes, and nothing behind it.
abbrev jump7 : JmpLabel
jump7 = record { end_of_jmp = 5; jmp_size = 4; mode = las_is; disp = 0 }

abbrev written : CodeArray
written = record (buffer user_buf 16) { size = 5 }

written-IsValid : IsValid written
written-IsValid = record {
  allocated = refl;
  within = omega arith;
  present = λ e. absurd (omega (arith, e));
}

jump7-IsField : IsField 5 jump7
jump7-IsField = record {
  sized = inr refl;
  starts = omega arith;
  ends = omega arith;
  relative = refl;
  no_disp = refl;
}

define_inner-Defined_example :
    OnOk
      (Filled nat_eq
        (λ (v : ClabelVal). v.offset)
        nat_eq_iff
        new_clabel
        (λ o. refl)
        5
        []
        7
        5
        written
        ((7, jump7) ∷ []))
      (define_inner nat_eq new_clabel [] ((7, jump7) ∷ []) 7 5 written)
define_inner-Defined_example =
    define_inner-Defined nat_eq (λ (v : ClabelVal). v.offset) nat_eq_iff new_clabel (λ o. refl) 5 []
      7 5 written written-IsValid refl (omega arith) (omega arith) (omega arith) (jump7-IsField, tt)
      (waits 7 jump7 start)

define_inner-total_example :
    (r : List (ℕ × ClabelVal) × List (ℕ × JmpLabel) × CodeArray) × (define_inner nat_eq new_clabel
        []
        ((7, jump7) ∷ [])
        7
        5
        written
      ≡ ok r)
unfolding find
define_inner-total_example =
    define_inner-total nat_eq new_clabel 5 [] ((7, jump7) ∷ []) 7 5 written written-IsValid refl
      (omega arith) (omega arith) (omega arith) ((jump7-IsField, refl), tt) refl

-- A manager whose object 1 holds the label 1, defined at offset 3. Object 0 was never used.
abbrev manager : LabelManager
manager = record {
  global = record { def_list = ("@f", 2) ∷ []; undef_list = [] };
  locals = empty_state ∷ [];
  label_id = 2;
  clabel_def_list = (1, record { offset = 3; ref_count = 1 }) ∷ [];
  clabel_undef_list = [];
  label_ptr_list = 1 ∷ [];
  labels = λ p. if p == 1 then record { attached = true; id = 1 } else clear_label;
}

alternates : Alternates manager.global.def_list
unfolding find erase
alternates = record { once_f = refl; once_b = refl; one = inr refl }

define_slabel-Follows_example :
    OnOk (λ (r : LabelManager × CodeArray). Follows 5 r.0) (define_slabel "@@" manager written)
define_slabel-Follows_example = define_slabel-Follows manager written alternates

abbrev pub value_or {ℓ} : {A : Type ℓ} → A → Result A → A
value_or d (ok a) = a
value_or d (err e) = d

abbrev assigned : LabelManager × CodeArray
unfolding assign find define_inner resolve patch
assigned = value_or (manager, written) (assign 0 1 manager written)

assign_runs : assign 0 1 manager written ≡ ok assigned
unfolding assign find define_inner resolve patch
assign_runs = refl

fresh : find nat_eq 2 manager.clabel_def_list ≡ none
unfolding find
fresh = refl

assign-offset_example : (get_offset_c 0 assigned.0).0 ≡ none
assign-offset_example =
    assign-offset 0 1 manager assigned.0 written assigned.1 (λ e. absurd (omega (arith, e))) fresh
      assign_runs

abbrev pub known_gen : Gen
known_gen = record { array = written; manager = manager; is_default_jmp_near = false }

known_label : find_clabel 1 manager ≡ ok (some 3, 1, manager)
unfolding find_clabel find
known_label = refl

put_l_inner_example :
    put_l_inner test_host find_clabel add_undefined_clabel 1 false 0 8 known_gen
    ≡ put_l_inner test_host find_clabel add_undefined_clabel 1 false 16 8 known_gen
put_l_inner_example =
    put_l_inner-ignores_disp test_host find_clabel add_undefined_clabel 1 0 16 8 known_gen
      known_label
