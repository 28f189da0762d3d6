-- ===== src/LabelTable/Target.antt =====
-- The displacement of a jump: what it holds when it has been filled in.
use xbyak.Prelude.{
  ℕ, ◌+◌, ◌-◌, ◌/◌, ◌%◌, ◌^◌, ◌≤◌, ◌<◌, ◌≡◌, ◌⊎◌, inl, inr, true, false, not, arith, ltb, ◌==◌,
  ◌&&◌, if◌then◌else◌, u32, u64, sub64,
}
use mathlib.Core.Path.{subst}
use xbyak.Err.{>>=-ok_inv, ok}
use xbyak.CodeArray.{CodeArray, las_is, is_auto_grow, is_in_int32, is_in_disp8, rewrite}
use xbyak.CodeArray.Emit.{IsValid}
use xbyak.CodeArray.Patch.{read_word, is_word_size, Rewritten, rewrite-Rewritten}
use xbyak.LabelTable.{JmpLabel, jmp_disp, patch}

-- A displacement field of `n` bytes, as the processor extends it to 64 bits.
abbrev pub sign_extend : ℕ → ℕ → ℕ
sign_extend n v = if ltb v (256 ^ n / 2) then v else v + 2 ^ 64 - 256 ^ n

-- The field of a jump lies in the written code: one or four bytes that end at the jump's end.
pub record IsField (limit : ℕ) (jmp : JmpLabel) : Type 0 where
  pub sized : (jmp.jmp_size ≡ 1) ⊎ (jmp.jmp_size ≡ 4)
  pub starts : jmp.jmp_size ≤ jmp.end_of_jmp
  pub ends : jmp.end_of_jmp ≤ limit
  pub relative : jmp.mode ≡ las_is
  pub no_disp : jmp.disp ≡ 0

-- The jump, read from the code as the processor reads it, goes to the offset `target`.
abbrev pub Lands : CodeArray → JmpLabel → ℕ → Type 0
Lands c jmp target =
    u64 (
      jmp.end_of_jmp
      + sign_extend jmp.jmp_size (read_word c.bytes (jmp.end_of_jmp - jmp.jmp_size) jmp.jmp_size))
    ≡ target

-- A displacement that passed the checks survives being cut to its field.
pub sign_extend-cut :
    (n d : ℕ)
    → (n ≡ 1) ⊎ (n ≡ 4)
    → d < 2 ^ 64
    → is_in_int32 d ≡ true
    → (n == 1 && not (is_in_disp8 (u32 d))) ≡ false
    → sign_extend n (d % 256 ^ n) ≡ d
sign_extend-cut n d (inl e) h fits near = rw e (ground arith)
sign_extend-cut n d (inr e) h fits near = rw e (ground arith)

jmp_disp-eq-ok :
    (addr : ℕ) (jmp : JmpLabel) (c : CodeArray) (limit d : ℕ)
    → IsField limit jmp
    → jmp_disp addr jmp c ≡ ok d
    → (d ≡ u64 (sub64 addr jmp.end_of_jmp))
      × (is_in_int32 d ≡ true)
      × ((jmp.jmp_size == 1 && not (is_in_disp8 (u32 d))) ≡ false)
unfolding jmp_disp
jmp_disp-eq-ok addr jmp c limit d f h = (ground arith, ground arith, ground arith)

pub offset_of_field :
    (limit : ℕ) (jmp : JmpLabel)
    → IsField limit jmp
    → limit < 2 ^ 63
    → sub64 jmp.end_of_jmp jmp.jmp_size ≡ jmp.end_of_jmp - jmp.jmp_size
offset_of_field limit jmp f small = omega (arith, f.starts, f.ends)

-- A jump that was filled in lands on its label, and nothing but its field has changed.
pub record Patched (addr : ℕ) (jmp : JmpLabel) (c c' : CodeArray) : Type 0 where
  pub disp : ℕ
  pub rewritten : Rewritten (jmp.end_of_jmp - jmp.jmp_size) disp jmp.jmp_size c c'
  pub lands : Lands c' jmp addr

lands_of_disp :
    (addr d limit : ℕ) (jmp : JmpLabel) (c : CodeArray)
    → IsField limit jmp
    → limit < 2 ^ 63
    → addr < 2 ^ 63
    → jmp_disp addr jmp c ≡ ok d
    → u64 (jmp.end_of_jmp + sign_extend jmp.jmp_size (d % 256 ^ jmp.jmp_size)) ≡ addr
lands_of_disp addr d limit jmp c f small below h =
    let (value, fits, near) = jmp_disp-eq-ok addr jmp c limit d f h in
    rw (sign_extend-cut jmp.jmp_size d f.sized (omega (arith, value)) fits near)
      (omega (arith, value, f.ends))

word_size_of_field :
    (limit : ℕ) (jmp : JmpLabel) → IsField limit jmp → is_word_size jmp.jmp_size ≡ true
word_size_of_field limit jmp f = ground (arith, f.sized)

patch-disp :
    (addr : ℕ) (jmp : JmpLabel) (c : CodeArray) {c' : CodeArray}
    → is_auto_grow c ≡ false
    → patch addr jmp c ≡ ok c'
    → (d : ℕ) × (jmp_disp addr jmp c ≡ ok d)
      × (rewrite (sub64 jmp.end_of_jmp jmp.jmp_size) d jmp.jmp_size c ≡ ok c')
unfolding patch
patch-disp addr jmp c fixed h =
    let (d, e, run) = >>=-ok_inv (jmp_disp addr jmp c) _ h in (d, e, ground arith)

pub patch-Patched :
    (addr limit : ℕ) (jmp : JmpLabel) (c : CodeArray) {c' : CodeArray}
    → IsValid c
    → is_auto_grow c ≡ false
    → IsField limit jmp
    → limit ≤ c.size
    → c.size < 2 ^ 63
    → addr < 2 ^ 63
    → patch addr jmp c ≡ ok c'
    → Patched addr jmp c c'
patch-Patched addr limit jmp c {c'} v fixed f inside small below h =
    let (d, e, run) = patch-disp addr jmp c fixed h in
    let (c'', run', rewritten) =
      rewrite-Rewritten (jmp.end_of_jmp - jmp.jmp_size) d jmp.jmp_size c v
        (word_size_of_field limit jmp f) (omega (arith, f.starts, f.ends, v.within)) in
    let there : rewrite (jmp.end_of_jmp - jmp.jmp_size) d jmp.jmp_size c ≡ ok c' =
      rw (offset_of_field limit jmp f (omega arith)) at run in
    let same : c'' ≡ c' = cc in
    let done : Rewritten (jmp.end_of_jmp - jmp.jmp_size) d jmp.jmp_size c c' =
      subst (λ x. Rewritten (jmp.end_of_jmp - jmp.jmp_size) d jmp.jmp_size c x) same rewritten in
    record {
      disp = d;
      rewritten = done;
      lands = rw done.word (lands_of_disp addr d limit jmp c f (omega arith) below e);
    }
