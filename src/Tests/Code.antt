-- ===== src/Tests/Code.antt =====
-- The buffer of `CodeArray`, `nop` and `align`, at concrete inputs.
use xbyak.Prelude.{ℕ, ◌+◌, ◌≤◌, ◌<◌, ◌≡◌, refl, ◌⊎◌, arith, true, false, [], ◌∷◌, replicate}
use xbyak.Err.{ErrorCode, ok, err}
use xbyak.CodeArray.{CodeArray, Host, BufType, user_buf, auto_grow, protect_rw, db_seq, rewrite}
use xbyak.CodeArray.Emit.{IsValid, Appends, db_seq-fixed}
use xbyak.CodeArray.Grow.{NeverFails, db_seq-auto_grow}
use xbyak.CodeArray.Patch.{Rewritten, is_word_size, rewrite_lem}
use xbyak.Nop.{nop, align}
use xbyak.Nop.Fill.{Filled, nop-Filled}
use xbyak.Nop.Align.{Aligned, align-Aligned}

-- A system that hands out the block at 65536.
abbrev pub test_host : Host
test_host = record {
  page_size = 4096;
  aligned_malloc = λ k size alignment. 65536;
  initial = λ k i. 0;
  mprotect = λ addr size m. true;
  use_protect = true;
}

-- A buffer of the user's of `n` bytes, at an odd address.
abbrev pub buffer : BufType → ℕ → CodeArray
buffer t n = record {
  addr_info_list = [];
  type_ = t;
  max_size = n;
  top = 8197;
  bytes = replicate n 0;
  size = 0;
  is_called_calc_jmp_address = false;
  cur_mode = protect_rw;
  requests = 1;
}

pub test-IsValid : IsValid (buffer user_buf 16)
test-IsValid = record {
  allocated = refl;
  within = omega arith;
  present = λ e. absurd (omega (arith, e));
}

auto-IsValid : IsValid (buffer auto_grow 2)
auto-IsValid = record {
  allocated = refl;
  within = omega arith;
  present = λ e. absurd (omega (arith, e));
}

db_seq-fixed_example :
    ((0 + 3 ≤ 16)
      × ((c' : CodeArray) × (db_seq test_host (1 ∷ 2 ∷ 3 ∷ []) (buffer user_buf 16) ≡ ok c')
          × Appends (buffer user_buf 16) (1 ∷ 2 ∷ 3 ∷ []) c'
          × (c'.max_size ≡ 16)))
    ⊎ ((16 < 0 + 3)
        × (db_seq test_host (1 ∷ 2 ∷ 3 ∷ []) (buffer user_buf 16)
            ≡ err ErrorCode.err_code_is_too_big))
db_seq-fixed_example =
    db_seq-fixed test_host (1 ∷ 2 ∷ 3 ∷ []) (buffer user_buf 16) test-IsValid refl

db_seq-auto_grow_example :
    (c' : CodeArray) × (db_seq test_host (1 ∷ 2 ∷ 3 ∷ []) (buffer auto_grow 2) ≡ ok c')
    × Appends (buffer auto_grow 2) (1 ∷ 2 ∷ 3 ∷ []) c'
db_seq-auto_grow_example =
    db_seq-auto_grow test_host has_memory (1 ∷ 2 ∷ 3 ∷ []) (buffer auto_grow 2) auto-IsValid refl
      (omega arith)
  where
    has_memory : NeverFails test_host
    has_memory k size alignment e = absurd (omega (arith, e))

rewrite_example :
    ((4 + 4 ≤ 16)
      × (is_word_size 4 ≡ true)
      × ((c' : CodeArray) × (rewrite 4 258 4 (buffer user_buf 16) ≡ ok c')
          × Rewritten 4 258 4 (buffer user_buf 16) c'))
    ⊎ ((16 < 4 + 4) × (rewrite 4 258 4 (buffer user_buf 16) ≡ err ErrorCode.err_offset_is_too_big))
    ⊎ ((4 + 4 ≤ 16)
        × (is_word_size 4 ≡ false)
        × (rewrite 4 258 4 (buffer user_buf 16) ≡ err ErrorCode.err_bad_parameter))
rewrite_example = rewrite_lem 4 258 4 (buffer user_buf 16) test-IsValid

nop_example :
    (c' : CodeArray) × (nop test_host 16 2 (buffer user_buf 16) ≡ ok c')
    × Filled 15 16 (buffer user_buf 16) c'
nop_example = nop-Filled test_host 16 2 (buffer user_buf 16) test-IsValid refl (omega arith)

align_example :
    (c' : CodeArray) × (align test_host 16 1 (buffer user_buf 16) ≡ ok c')
    × Aligned 16 9 (buffer user_buf 16) c'
align_example =
    align-Aligned test_host 16 1 (buffer user_buf 16) (omega arith) refl test-IsValid refl
      (omega arith) (omega arith)
