-- ===== src/LabelTable/Total.antt =====
-- When `patch`, `resolve` and `define_inner` return.
use xbyak.Prelude.{
  ℕ, ◌-◌, ◌^◌, ◌≤◌, ◌<◌, ◌≡◌, refl, inl, inr, Bool, false, List, [], ◌∷◌, arith, none, Bool-cases,
  sub64, u64, All,
}
use xbyak.Err.{Result, ok}
use xbyak.CodeArray.{CodeArray, is_auto_grow, rewrite}
use xbyak.CodeArray.Emit.{IsValid}
use xbyak.CodeArray.Patch.{rewrite-Rewritten}
use xbyak.LabelTable.{JmpLabel, find, jmp_disp, patch, resolve, define_inner}
use xbyak.LabelTable.Target.{IsField, offset_of_field}

jmp_disp-near :
    (addr limit : ℕ) (jmp : JmpLabel) (c : CodeArray)
    → IsField limit jmp
    → jmp.jmp_size ≡ 4
    → limit < 2 ^ 31
    → addr < 2 ^ 31
    → jmp_disp addr jmp c ≡ ok (u64 (sub64 addr jmp.end_of_jmp))
unfolding jmp_disp
jmp_disp-near addr limit jmp c f near small low = ground (arith, f.relative, f.no_disp, f.ends)

-- The buffer after a patch that cannot fail.
record Step (c : CodeArray) (r : Result CodeArray) : Type 0 where
  next : CodeArray
  runs : r ≡ ok next
  valid : IsValid next
  same_size : next.size ≡ c.size
  same_type : next.type_ ≡ c.type_

patch-Step :
    (addr limit : ℕ) (jmp : JmpLabel) (c : CodeArray)
    → IsValid c
    → is_auto_grow c ≡ false
    → IsField limit jmp
    → jmp.jmp_size ≡ 4
    → limit ≤ c.size
    → c.size < 2 ^ 31
    → addr < 2 ^ 31
    → Step c (patch addr jmp c)
patch-Step addr limit jmp c v fixed f near inside small low =
    let d = u64 (sub64 addr jmp.end_of_jmp) in
    let (next, runs, w) =
      rewrite-Rewritten (jmp.end_of_jmp - jmp.jmp_size) d jmp.jmp_size c v (rw near)
        (omega (arith, f.starts, f.ends, v.within)) in
    record {
      next = next;
      runs = written d (jmp_disp-near addr limit jmp c f near (omega arith) low) runs;
      valid = w.valid;
      same_size = w.same_size;
      same_type = w.same_type;
    }
  where
    written :
        (d : ℕ) {next : CodeArray}
        → jmp_disp addr jmp c ≡ ok d
        → rewrite (jmp.end_of_jmp - jmp.jmp_size) d jmp.jmp_size c ≡ ok next
        → patch addr jmp c ≡ ok next
    written d e run =
        unfold patch in ground (arith, e, offset_of_field limit jmp f (omega arith), run)

module _ {K : Type 0} (eqk : K → K → Bool) where
  abbrev pub AllNear : ℕ → List (K × JmpLabel) → Type 0
  AllNear limit = All (λ e. IsField limit e.1 × (e.1.jmp_size ≡ 4))

  pub resolve-total :
      (limit : ℕ) (u : List (K × JmpLabel)) (k : K) (addr : ℕ) (c : CodeArray)
      → IsValid c
      → is_auto_grow c ≡ false
      → limit ≤ c.size
      → c.size < 2 ^ 31
      → addr < 2 ^ 31
      → AllNear limit u
      → (r : List (K × JmpLabel) × CodeArray) × (resolve eqk k addr u c ≡ ok r)
  unfolding resolve
  resolve-total limit [] k addr c v fixed inside small low near = (([], c), refl)
  resolve-total limit ((j, jmp) ∷ u) k addr c v fixed inside small low near =
      elim (Bool-cases (eqk j k)) [
        | inl here ↦
            (let s = patch-Step addr limit jmp c v fixed near.0.0 near.0.1 inside small low in
              let (r, e) =
                resolve-total limit u k addr s.next s.valid (ground (arith, s.same_type))
                  (omega (arith, s.same_size)) (omega (arith, s.same_size)) low near.1 in
              (r, rw (here, resolve) (rw s.runs e)))
        | inr other ↦
            (let (r, e) = resolve-total limit u k addr c v fixed inside small low near.1 in
              (((j, jmp) ∷ r.0, r.1), rw (other, resolve) (rw e)))
      ]

  -- A label that is not in the table yet can be defined: in a buffer that does not grow, with code
  -- and an offset of less than 2 ^ 31 bytes, and jumps that wait with fields of four bytes within the
  -- code, `define_inner` returns.
  pub define_inner-total :
      {V : Type 0} (value : ℕ → V) (limit : ℕ) (defs : List (K × V)) (u : List (K × JmpLabel))
      (k : K) (addr : ℕ) (c : CodeArray)
      → IsValid c
      → is_auto_grow c ≡ false
      → limit ≤ c.size
      → c.size < 2 ^ 31
      → addr < 2 ^ 31
      → AllNear limit u
      → find eqk k defs ≡ none
      → (r : List (K × V) × List (K × JmpLabel) × CodeArray) × (define_inner eqk value defs u k addr
            c
          ≡ ok r)
  unfolding define_inner
  define_inner-total value limit defs u k addr c v fixed inside small low near new =
      let (r, e) = resolve-total limit u k addr c v fixed inside small low near in
      (((k, value addr) ∷ defs, r.0, r.1), rw (new, define_inner) (rw e))
