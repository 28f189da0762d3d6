-- ===== src/Jump/Program.antt =====
-- Programs: any sequence of bytes, jumps and definitions of labels.
use xbyak.Prelude.{ℕ, ◌≤◌, ◌≡◌, refl, ap, ◌∙◌, List, [], ◌∷◌, arith, some}
use mathlib.Core.Option
use mathlib.Core.Path.{ap₂}
use xbyak.Err.{Result, ok, err, ◌>>=◌, OnOk, OnOk-map, OnOk-both}
use xbyak.CodeArray.{CodeArray, Host, db_seq}
use xbyak.LabelTable.{JmpLabel, find, define_inner}
use xbyak.LabelTable.Target.{Lands}
use xbyak.LabelTable.Define.{Defined, define_inner-keeps_trace, define_inner-defs}
use xbyak.LabelManager.{ClabelVal, LabelManager, nat_eq, nat_eq_iff, new_clabel, get_id, attach}
use xbyak.Jump.{Gen, LabelType, op_jmp, find_clabel, add_undefined_clabel, l_c}
use xbyak.Jump.Site.{site}
use xbyak.Jump.Trace.{IsTraced, offsets_of, key, get_id-same}

-- The tables of a manager after `define_inner`.
abbrev Tables : Type 0
Tables = List (ℕ × ClabelVal) × List (ℕ × JmpLabel) × CodeArray

abbrev with_tables : ℕ → Gen → Tables → Gen
with_tables p g r = record g {
  array = r.2;
  manager =
      attach p (record (get_id p g.manager).1 { clabel_def_list = r.0; clabel_undef_list = r.1 });
}

regroup :
    (p : ℕ) (g : Gen) (r : Result Tables)
    → (((r >>= λ (q : Tables).
            ok (
              record (get_id p g.manager).1 { clabel_def_list = q.0; clabel_undef_list = q.1 },
              q.2,
            ))
          >>= λ (q : LabelManager × CodeArray). ok (attach p q.0, q.1))
        >>= λ (q : LabelManager × CodeArray). ok (record g { array = q.1; manager = q.0 }))
      ≡ (r >>= λ q. ok (with_tables p g q))
regroup p g (ok r) = refl
regroup p g (err e) = refl

abbrev define_key : ℕ → Gen → List (ℕ × ClabelVal) → List (ℕ × JmpLabel) → Result Tables
define_key p g defs undef = define_inner nat_eq new_clabel defs undef (key p g) g.array.size g.array

l_c-regroup :
    (p : ℕ) (g : Gen)
    → l_c p g ≡ (
        define_key p g
          (get_id p g.manager).1.clabel_def_list
          (get_id p g.manager).1.clabel_undef_list
        >>= λ r. ok (with_tables p g r))
unfolding l_c
l_c-regroup p g =
    regroup p g (
      define_key p g (get_id p g.manager).1.clabel_def_list
        (get_id p g.manager).1.clabel_undef_list)

l_c-tables :
    (p : ℕ) (g : Gen)
    → l_c p g ≡ (
        define_key p g g.manager.clabel_def_list g.manager.clabel_undef_list >>= λ r.
        ok (with_tables p g r))
l_c-tables p g =
    l_c-regroup p g
    ∙ ap₂ (λ d u. define_key p g d u >>= λ r. ok (with_tables p g r)) (get_id-same p g.manager).0
        (get_id-same p g.manager).1

new_offset :
    (defs : List (ℕ × ClabelVal)) (id k : ℕ) (v : ClabelVal) (size : ℕ)
    → ((j : ℕ) (w : ClabelVal) → find nat_eq j defs ≡ some w → w.offset ≤ size)
    → find nat_eq k ((id, new_clabel size) ∷ defs) ≡ some v
    → (size' : ℕ) → size' ≡ size
    → v.offset ≤ size'
unfolding find
new_offset defs id k v size old e size' same = ground (arith, old k v, e)

with_tables-IsTraced :
    (p : ℕ) (g : Gen) (t : List (ℕ × JmpLabel)) {d : List (ℕ × ℕ)} (r : Tables)
    → IsTraced g t d
    → Defined nat_eq (λ v. v.offset) nat_eq_iff g.array.size g.array t r
    → r.0 ≡ (key p g, new_clabel g.array.size) ∷ g.manager.clabel_def_list
    → IsTraced (with_tables p g r) t ((key p g, g.array.size) ∷ d)
with_tables-IsTraced p g t r i (tracks, frame) defs = record {
  valid = frame.valid;
  fixed = ground (arith, i.fixed, frame.same_type);
  small = rw frame.same_max_size i.small;
  below = rw frame.same_size i.below;
  tracks = tracks;
  offsets = rw defs (λ k v e.
      new_offset g.manager.clabel_def_list (key p g) k v g.array.size i.offsets e r.2.size
        frame.same_size);
  named = ap offsets_of defs ∙ ap (λ l. (key p g, g.array.size) ∷ l) i.named;
}

-- `L(label)`: nothing is added to the trace, and the jumps that waited for the label have landed.
pub l_c-IsTraced :
    (p : ℕ) (g : Gen) (t : List (ℕ × JmpLabel)) {d : List (ℕ × ℕ)}
    → IsTraced g t d
    → OnOk (λ g'. IsTraced g' t ((key p g, g.array.size) ∷ d)) (l_c p g)
l_c-IsTraced p g t {d} i =
    let defined : OnOk (Defined nat_eq (λ v. v.offset) nat_eq_iff g.array.size g.array t) (
        define_inner nat_eq new_clabel g.manager.clabel_def_list g.manager.clabel_undef_list
          (key p g) g.array.size g.array) =
      define_inner-keeps_trace nat_eq (λ v. v.offset) nat_eq_iff new_clabel (λ o. refl) g.array.size
        g.manager.clabel_def_list (key p g) g.array.size g.array i.valid i.fixed (omega arith)
        (omega (arith, i.small, i.valid.within)) (omega (arith, i.small, i.valid.within)) i.below
        i.tracks in
    rw (l_c-tables p g) (
      OnOk-map
        (λ r.
          Defined nat_eq (λ v. v.offset) nat_eq_iff g.array.size g.array t r
          × (r.0 ≡ (key p g, new_clabel g.array.size) ∷ g.manager.clabel_def_list))
        (λ g'. IsTraced g' t ((key p g, g.array.size) ∷ d))
        (define_inner nat_eq new_clabel g.manager.clabel_def_list g.manager.clabel_undef_list
          (key p g) g.array.size g.array)
        _
        (OnOk-both (Defined nat_eq (λ v. v.offset) nat_eq_iff g.array.size g.array t)
          (λ r. r.0 ≡ (key p g, new_clabel g.array.size) ∷ g.manager.clabel_def_list)
          (define_inner nat_eq new_clabel g.manager.clabel_def_list g.manager.clabel_undef_list
            (key p g) g.array.size g.array)
          defined
          (define_inner-defs nat_eq (λ v. v.offset) nat_eq_iff new_clabel (λ o. refl)
            g.manager.clabel_def_list g.manager.clabel_undef_list (key p g) g.array.size g.array))
        λ r q. with_tables-IsTraced p g t r i q.0 q.1)

-- The programs: from a first state, bytes, jumps (and calls), and labels, in any order, with the
-- trace of the jumps and the labels that have been defined: those of the first state, and those of
-- the program, each with the size that the code had where `L` was called. A label is given by the
-- number that `key` finds for it.
pub data Writes (h : Host) (first : Gen) : Gen → List (ℕ × JmpLabel) → List (ℕ × ℕ) → Type 0 where
  begins : Writes h first first [] (offsets_of first.manager.clabel_def_list)
  bytes :
      {g : Gen} {t : List (ℕ × JmpLabel)} {d : List (ℕ × ℕ)} {c' : CodeArray} (bs : List ℕ)
      → Writes h first g t d
      → db_seq h bs g.array ≡ ok c'
      → Writes h first (record g { array = c' }) t d
  jumps :
      {g g' : Gen} {t : List (ℕ × JmpLabel)} {d : List (ℕ × ℕ)} (p : ℕ) (type : LabelType)
      (short long pref : ℕ)
      → Writes h first g t d
      → op_jmp h find_clabel add_undefined_clabel p type short long pref g ≡ ok g'
      → Writes h first g' ((key p g, site g.array g'.array) ∷ t) d
  defines :
      {g g' : Gen} {t : List (ℕ × JmpLabel)} {d : List (ℕ × ℕ)} (p : ℕ)
      → Writes h first g t d
      → l_c p g ≡ ok g'
      → Writes h first g' t ((key p g, g.array.size) ∷ d)

-- The state that a program starts from: the offsets of its table are those that are given.
abbrev pub IsFirst : Gen → Type 0
IsFirst first = IsTraced first [] (offsets_of first.manager.clabel_def_list)

-- A jump that is read from the code as one to the offset at which its label was defined.
abbrev pub Arrives : List (ℕ × ℕ) → Gen → ℕ × JmpLabel → Type 0
Arrives d g e = (o : ℕ) × (find nat_eq e.0 d ≡ some o) × Lands g.array e.1 o
