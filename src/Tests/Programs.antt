-- ===== src/Tests/Programs.antt =====
-- The program `jmp L0; nop; L0:`.
use xbyak.Prelude.{ℕ, false, List, [], ◌∷◌}
use xbyak.CodeArray.{CodeArray, user_buf, db_seq, rewrite}
use xbyak.LabelTable.{JmpLabel, find, resolve, define_inner}
use xbyak.LabelManager.{empty_state, clear_label, define_clabel, add_undefined_clabel}
use xbyak.Jump.{Gen, t_auto, op_jmp, find_clabel, l_c}
use xbyak.Jump.Site.{site}
use xbyak.Jump.Trace.{key}
use xbyak.Tests.Code.{buffer, test_host}
use xbyak.Tests.Labels.{value_or}

abbrev first : Gen
first = record {
  array = buffer user_buf 16;
  manager = record {
    global = empty_state;
    locals = empty_state ∷ [];
    label_id = 1;
    clabel_def_list = [];
    clabel_undef_list = [];
    label_ptr_list = [];
    labels = λ p. clear_label;
  };
  is_default_jmp_near = false;
}

-- jmp L0; nop; L0:
abbrev jumped : Gen
unfolding op_jmp find_clabel add_undefined_clabel find
jumped =
    value_or first (op_jmp test_host find_clabel add_undefined_clabel 0 t_auto 0xEB 0xE9 0 first)

abbrev padded : CodeArray
unfolding db_seq op_jmp find_clabel add_undefined_clabel find
padded = value_or jumped.array (db_seq test_host (0x90 ∷ []) jumped.array)

abbrev last : Gen
unfolding l_c define_clabel define_inner resolve rewrite find db_seq op_jmp find_clabel
    add_undefined_clabel
last = value_or jumped (l_c 0 (record jumped { array = padded }))

abbrev trace : List (ℕ × JmpLabel)
trace = (key 0 first, site first.array jumped.array) ∷ []

abbrev labels : List (ℕ × ℕ)
labels = (key 0 (record jumped { array = padded }), padded.size) ∷ []
