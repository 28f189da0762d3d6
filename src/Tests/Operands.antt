-- ===== src/Tests/Operands.antt =====
-- Registers, expressions and errors at concrete inputs.
use Prim.Native.String.{String}
use xbyak.Prelude.{
  Bool, ℕ, ◌+◌, ◌≡◌, refl, inl, inr, ◌⊎◌, arith, true, false, ◌&&◌, ◌||◌, none, some, get_elem?,
}
use xbyak.Prelude.Int.{negsuc}
use xbyak.Err.{ErrorCode, ok, err, OnOk, err_tbl, what, make_error}
use xbyak.Err.Laws.{text_index, what-make_error}
use xbyak.Operand.{
  Operand, none_reg, reg8, reg32, reg64, get_idx, is_bit, is_reg, is_high8bit, is_ext_idx2,
  has_rex2, is,
}
use xbyak.Operand.Convert.{set_bit}
use xbyak.Operand.Keeps.{set_bit-keeps}
use xbyak.RegExp.{RegExp, add, optimize}
use xbyak.RegExp.Meaning.{IsSum, effective, add-effective, add-returns, optimize-effective}
use xbyak.Rex.{Prefixes, rex_regs}
use xbyak.Rex.Numbers.{IsNumbered, Holds, rex_regs-Holds}
use xbyak.ModRm.{sib_bytes, check_disp}
use xbyak.ModRm.Decode.{decode, Reads}
use xbyak.ModRm.RoundTrip.{Indexed, sib_bytes-Reads}

-- [rbx + r12 * 4 + 0x80], the two parts of it, and [rcx * 2].
abbrev index_part : RegExp
index_part = record {
  base = none_reg;
  index = reg64 12;
  scale = 4;
  disp = 0x80;
  label = none;
  rip = false;
  as_ptr = false;
}

abbrev base_part : RegExp
base_part = record {
  base = reg64 3;
  index = none_reg;
  scale = 1;
  disp = 0;
  label = none;
  rip = false;
  as_ptr = false;
}

abbrev whole : RegExp
whole = record {
  base = reg64 3;
  index = reg64 12;
  scale = 4;
  disp = 0x80;
  label = none;
  rip = false;
  as_ptr = false;
}

abbrev twice : RegExp
twice = record {
  base = none_reg;
  index = reg64 1;
  scale = 2;
  disp = 8;
  label = none;
  rip = false;
  as_ptr = false;
}

-- Every register holds 1000 more than its number.
abbrev values : Operand → ℕ
values r = r.idx + 1000

add-effective_example : OnOk (IsSum values base_part index_part) (add base_part index_part)
add-effective_example = add-effective values base_part index_part

add-returns_example : (r : RegExp) × (add base_part index_part ≡ ok r)
add-returns_example =
    add-returns base_part index_part (refl, refl) (refl, refl) (refl, refl) refl refl

optimize-effective_example : effective values (optimize twice) ≡ effective values twice
optimize-effective_example = optimize-effective values twice

whole-Indexed : Indexed true whole
unfolding get_idx
whole-Indexed = record {
  scale = λ _. inr (inr (inl refl));
  four = λ _ _. refl;
  prefix = λ none_there. absurd (clash none_there);
}
  where
    clash : ◌≡◌ {A = Bool} true false → ⊥
    clash e = cc

check_whole : check_disp whole ≡ ok tt
unfolding check_disp
check_whole = refl

-- With disp8N = 64 the displacement is the byte 2.
sib_bytes-Reads_example : decode 64 true (sib_bytes whole 64 5) ≡ some (Reads whole 5)
sib_bytes-Reads_example =
    sib_bytes-Reads whole 64 5 true refl check_whole (omega arith)
      (inr (inr (inr (inr (inr (inr (inr refl))))))) whole-Indexed

-- From cl to rcx.
set_bit-keeps_example :
    ((is_bit (reg8 1 false) 64 ≡ false)
      × ((is_reg (reg8 1 false) 8 && is_high8bit (reg8 1 false)) ≡ true)
      × (set_bit (reg8 1 false) 64 ≡ err ErrorCode.err_cant_convert))
    ⊎ (((is_bit (reg8 1 false) 64 ≡ true)
          ⊎ ((is_reg (reg8 1 false) 8 && is_high8bit (reg8 1 false)) ≡ false))
        × ((r : Operand) × (set_bit (reg8 1 false) 64 ≡ ok r)
            × (get_idx r ≡ get_idx (reg8 1 false))
            × (is_bit r 64 ≡ true)))
unfolding is
set_bit-keeps_example = set_bit-keeps (reg8 1 false) 64 (refl, refl, refl)

what-make_error_example :
    (s : String) × (get_elem? err_tbl (text_index (negsuc 3)) ≡ some s)
    × (what (make_error (negsuc 3)) ≡ some s)
what-make_error_example = what-make_error (negsuc 3)

-- r9 and r18d.
numbered : IsNumbered (reg64 9) × IsNumbered (reg32 18)
unfolding is_ext_idx2 has_rex2
numbered = ((omega arith, inl refl), (omega arith, inr refl))

rex_regs-Holds_example :
    (q : Prefixes) × (rex_regs (reg64 9) (reg32 18) 0 ≡ ok q)
    × Holds
        (is_reg (reg64 9) 64 || is_reg (reg32 18) 64)
        (get_idx (reg32 18))
        (get_idx (reg64 9))
        q.body
rex_regs-Holds_example = rex_regs-Holds (reg64 9) (reg32 18) 0 numbered.0 numbered.1 refl refl refl
