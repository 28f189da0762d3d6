-- ===== src/Mnemonic/Condition/Agree.antt =====
-- The methods named for a condition test the condition that the name says.
use Prim.Native.String.{String}
use text.Mathlib.Text.{◌==◌ as str_eq}
use text.Mathlib.TextEquality.{eq_iff}
use xbyak.Prelude.{
  ℕ, ◌+◌, ◌-◌, ◌<◌, ◌≡◌, refl, ◌⊎◌, inl, inr, arith, Bool, true, ◌&&◌, ltb, ◌==◌, bit_or, List, [],
  ◌∷◌, Option, none, some, Bool-cases,
}
use xbyak.Err.{Result}
use xbyak.Flags.{t_0f, t_apx, t_nd1}
use xbyak.Operand.{Operand, none_reg}
use xbyak.RegExp.{i32e}
use xbyak.RegMem.{RegMem, in_reg, op_is_reg}
use xbyak.Evex.{none_imm}
use xbyak.CodeArray.{Host}
use xbyak.LabelTable.{JmpLabel}
use xbyak.LabelManager.{LabelManager}
use xbyak.Jump.{Gen, LabelType, t_near, op_jmp, op_jmp_abs}
use xbyak.Format.{op_ro, op_set_cc}
use xbyak.Format.Apx.{op_roo, op_ccmp, op_ccmpi, op_testi, op_cfcmov}
use xbyak.Mnemonic.Condition.Codes.{
  cmov_codes, set_codes, jcc_codes, ccmp_codes, ctest_codes, cfcmov_codes,
}
use xbyak.Mnemonic.Condition.{
  find_row, jcc, jcc_abs, set_cc, cmov, cmov_new, ccmp, ccmp_imm, ctest, ctest_imm, cfcmov,
}
use xbyak.Mnemonic.Condition.Meaning.{
  CpuFlags, holds, source_holds, named_condition, named_source, every_flag, every_flag-holds,
  is_value, is_value-some, is_one, is_one-some, is_pair, is_pair-some,
}

-- A test of every row of a table, and of the row that a name finds.
all_rows : (String → ℕ × ℕ → Bool) → List (String × (ℕ × ℕ)) → Bool
all_rows p [] = true
all_rows p ((n, v) ∷ rows) = p n v && all_rows p rows

all_rows-found :
    (p : String → ℕ × ℕ → Bool) (rows : List (String × (ℕ × ℕ))) (name : String) (v : ℕ × ℕ)
    → all_rows p rows ≡ true
    → find_row name rows ≡ some v
    → p name v ≡ true
unfolding all_rows find_row
all_rows-found p [] name v h found = cc
all_rows-found p ((n, w) ∷ rows) name v h found = elim (Bool-cases (str_eq name n)) [
  | inl same ↦
      (let at_name : name ≡ n = (eq_iff name n).0 same in
        let at_value : w ≡ v = ground (arith, found, same) in
        rw (at_name, ← at_value) (ground (arith, h)))
  | inr other ↦ all_rows-found p rows name v (ground (arith, h)) (ground (arith, found, other))
]

-- A name's condition is the one of that number, for jcc and for ccmp.
means : String → ℕ → Bool
unfolding named_condition holds every_flag is_value
means name c = every_flag (λ f. is_value (named_condition name f) (holds c f))

means-holds :
    (name : String) (c : ℕ)
    → means name c ≡ true
    → (f : CpuFlags) → named_condition name f ≡ some (holds c f)
unfolding means
means-holds name c h f =
    is_value-some (named_condition name f) (holds c f)
      (every_flag-holds (λ f'. is_value (named_condition name f') (holds c f')) h f)

source_means : String → ℕ → Bool
unfolding named_source source_holds every_flag is_value
source_means name c = every_flag (λ f. is_value (named_source name f) (source_holds c f))

source_means-holds :
    (name : String) (c : ℕ)
    → source_means name c ≡ true
    → (f : CpuFlags) → named_source name f ≡ some (source_holds c f)
unfolding source_means
source_means-holds name c h f =
    is_value-some (named_source name f) (source_holds c f)
      (every_flag-holds (λ f'. is_value (named_source name f') (source_holds c f')) h f)

none_or_pair : Option (ℕ × ℕ) → ℕ → Bool
unfolding is_pair
none_or_pair none c = true
none_or_pair (some v) c = is_pair (some v) c c

none_or_pair-cases :
    (o : Option (ℕ × ℕ)) (c : ℕ) → none_or_pair o c ≡ true → (o ≡ none) ⊎ (o ≡ some (c, c))
unfolding none_or_pair
none_or_pair-cases none c h = inl refl
none_or_pair-cases (some v) c h = inr (is_pair-some (some v) c c h)

-- The row of a jump against the other tables.
jcc_row : String → ℕ × ℕ → Bool
unfolding means is_one is_pair find_row none_or_pair
jcc_row name (s, l) =
    let c = s - 0x70 in
    s == 0x70 + c
    && (l == 0x80 + c
        && (ltb c 16
            && (means name c
                && (is_one (find_row name set_codes) c
                    && (is_pair (find_row name cmov_codes) c c
                        && none_or_pair (find_row name cfcmov_codes) (0x40 + c))))))

jcc_rows : all_rows jcc_row jcc_codes ≡ true
unfolding all_rows jcc_row jcc_codes set_codes cmov_codes cfcmov_codes
jcc_rows = refl

ccmp_row : String → ℕ × ℕ → Bool
unfolding source_means is_pair find_row
ccmp_row name (a, b) =
    a == b && (ltb a 16 && (source_means name a && is_pair (find_row name ctest_codes) a a))

ccmp_rows : all_rows ccmp_row ccmp_codes ≡ true
unfolding all_rows ccmp_row ccmp_codes ctest_codes
ccmp_rows = refl

-- What the tables have for a condition that a jump is named for.
record Agree (name : String) (s l c : ℕ) : Type 0 where
  short : s ≡ 0x70 + c
  long : l ≡ 0x80 + c
  small : c < 16
  meant : (f : CpuFlags) → named_condition name f ≡ some (holds c f)
  sets : find_row name set_codes ≡ some c
  moves : find_row name cmov_codes ≡ some (c, c)
  moves_cf :
      (find_row name cfcmov_codes ≡ none) ⊎ (find_row name cfcmov_codes ≡ some (0x40 + c, 0x40 + c))

-- The parts of a row's test.
four_parts :
    (a b c d : Bool)
    → (a && (b && (c && d))) ≡ true
    → (a ≡ true) × (b ≡ true) × (c ≡ true) × (d ≡ true)
four_parts a b c d h = (ground (arith, h), ground (arith, h), ground (arith, h), ground (arith, h))

equal_numbers : (a b : ℕ) → (a == b) ≡ true → a ≡ b
equal_numbers a b h = ground (arith, h)

below : (a b : ℕ) → ltb a b ≡ true → a < b
below a b h = ground (arith, h)

jcc_row-Agree : (name : String) (s l : ℕ) → jcc_row name (s, l) ≡ true → Agree name s l (s - 0x70)
unfolding jcc_row
jcc_row-Agree name s l h =
    let c = s - 0x70 in
    let set_one = is_one (find_row name set_codes) c in
    let cmov_pair = is_pair (find_row name cmov_codes) c c in
    let cfcmov_pair = none_or_pair (find_row name cfcmov_codes) (0x40 + c) in
    let (short, long, small, rest) =
      four_parts (s == 0x70 + c) (l == 0x80 + c) (ltb c 16)
        (means name c && (set_one && (cmov_pair && cfcmov_pair))) h in
    let (meant, sets, moves, moves_cf) =
      four_parts (means name c) set_one cmov_pair cfcmov_pair rest in
    record {
      short = equal_numbers s (0x70 + c) short;
      long = equal_numbers l (0x80 + c) long;
      small = below c 16 small;
      meant = means-holds name c meant;
      sets = is_one-some (find_row name set_codes) c sets;
      moves = is_pair-some (find_row name cmov_codes) c c moves;
      moves_cf = none_or_pair-cases (find_row name cfcmov_codes) (0x40 + c) moves_cf;
    }

module _ (h : Host) where
  -- The methods jcc, setcc and cmovcc of a name, and cfcmovcc where it is there, test one and the
  -- same condition of the processor, and it is the condition that the name says, whatever the
  -- flags: for every name that a jump has there is a number below 16 that means the name's
  -- condition, the jump passes on 0x70 and 0x80 with it, the set it, the moves 0x40 with it.
  pub jcc-named_condition :
      {K : Type 0} (find_label : K → LabelManager → Result (Option ℕ × K × LabelManager))
      (add : K → JmpLabel → LabelManager → LabelManager) (name : String) (label : K)
      (type : LabelType) (addr : ℕ) (d r : Operand) (op1 op2 : RegMem) (g : Gen) {s l : ℕ}
      → find_row name jcc_codes ≡ some (s, l)
      → (c : ℕ) × (c < 16)
        × ((f : CpuFlags) → named_condition name f ≡ some (holds c f))
        × (jcc h find_label add name label type g
            ≡ some (op_jmp h find_label add label type (0x70 + c) (0x80 + c) 0x0F g))
        × (jcc_abs h name addr g ≡ some (op_jmp_abs h addr t_near (0x70 + c) (0x80 + c) 0x0F g))
        × (set_cc h name op1 g ≡ some (op_set_cc h op1 c g))
        × (cmov h name r op1 g
            ≡ some (op_ro h r op1 t_0f (bit_or 0x40 c) (op_is_reg op1 (bit_or 16 i32e)) 0 g))
        × (cmov_new h name d r op1 g
            ≡ some (op_roo h d op1 (in_reg r) (t_apx + t_nd1) (bit_or 0x40 c) 0 none_imm g))
        × ((cfcmov h name op1 op2 g ≡ none)
            ⊎ (cfcmov h name op1 op2 g ≡ some (op_cfcmov h none_reg op1 op2 (0x40 + c) g)))
  unfolding jcc jcc_abs set_cc cmov cmov_new cfcmov
  jcc-named_condition find_label add name label type addr d r op1 op2 g {s} {l} found =
      let a =
        jcc_row-Agree name s l (all_rows-found jcc_row jcc_codes name (s, l) jcc_rows found) in
      (
        s - 0x70,
        a.small,
        a.meant,
        rw (found, ← a.short, ← a.long) refl,
        rw (found, ← a.short, ← a.long) refl,
        rw (a.sets) refl,
        rw (a.moves) refl,
        rw (a.moves) refl,
        elim (a.moves_cf) [ inl missing ↦ inl (rw missing refl) | inr there ↦ inr (rw there refl) ],
      )

  -- The methods ccmpcc and ctestcc of a name, with a constant or with two operands, pass on one and
  -- the same source condition, and it is the condition that the name says, whatever the flags: `t`
  -- is always and `f` is never, and no name is of the parity.
  pub ccmp-named_source :
      (name : String) (op1 op2 : RegMem) (r : Operand) (v dfv : ℕ) (g : Gen) {a b : ℕ}
      → find_row name ccmp_codes ≡ some (a, b)
      → (c : ℕ) × (c < 16)
        × ((f : CpuFlags) → named_source name f ≡ some (source_holds c f))
        × (ccmp_imm h name op1 v dfv g ≡ some (op_ccmpi h op1 v dfv c g))
        × (ccmp h name op1 op2 dfv g ≡ some (op_ccmp h op1 op2 dfv 0x38 c g))
        × (ctest h name op1 r dfv g ≡ some (op_ccmp h op1 (in_reg r) dfv 0x84 c g))
        × (ctest_imm h name op1 v dfv g ≡ some (op_testi h op1 v dfv c g))
  unfolding ccmp_row ccmp ccmp_imm ctest ctest_imm
  ccmp-named_source name op1 op2 r v dfv g {a} {b} found =
      let row : ccmp_row name (a, b) ≡ true =
        all_rows-found ccmp_row ccmp_codes name (a, b) ccmp_rows found in
      let in_ctest = is_pair (find_row name ctest_codes) a a in
      let (equal, small, meant, tested) =
        four_parts (a == b) (ltb a 16) (source_means name a) in_ctest row in
      let same = equal_numbers a b equal in
      let tests = is_pair-some (find_row name ctest_codes) a a tested in
      (
        a,
        below a 16 small,
        source_means-holds name a meant,
        rw found refl,
        rw (found, ← same) refl,
        rw tests refl,
        rw tests refl,
      )
