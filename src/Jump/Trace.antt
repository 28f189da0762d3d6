-- ===== src/Jump/Trace.antt =====
-- A buffer that does not grow, its `Label` objects, and the trace of the jumps to them. The steps
-- of a program that writes code are bytes, jumps and definitions of labels.
use xbyak.Prelude.{
  u32, length, ◌⊎◌, ℕ, ◌+◌, ◌-◌, ◌^◌, ◌≤◌, ◌<◌, ◌≡◌, refl, inl, inr, false, List, [], ◌∷◌, arith,
  ==_iff, none, some, Bool-cases, Option-cases, sub64,
}
use xbyak.Err.{Result, ok, ◌>>=◌, OnOk, OnOk-bind, OnOk-map, OnOk-mono}
use xbyak.CodeArray.{las_is, CodeArray, Host, is_auto_grow, db_seq, verify_in_int32}
use xbyak.CodeArray.Emit.{IsValid, Appends, db_seq-OnOk}
use xbyak.CodeArray.Read.{read_word-old}
use xbyak.LabelTable.{JmpLabel, find}
use xbyak.LabelTable.Target.{IsField}
use xbyak.LabelTable.Resolve.{Below, Below-weaken, Tracks, waits, landed, Tracks-same}
use xbyak.LabelManager.{ClabelVal, LabelManager, nat_eq, get_id, get_offset_c, add_undefined_clabel}
use xbyak.Jump.{is_far, Gen, LabelType, op_jmp, forward_jmp, find_clabel, make_jmp}
use xbyak.Jump.Site.{site, Reaches, make_jmp-Reaches}

-- The labels of a table and their offsets.
abbrev pub offsets_of : List (ℕ × ClabelVal) → List (ℕ × ℕ)
offsets_of [] = []
offsets_of ((k, v) ∷ defs) = (k, v.offset) ∷ offsets_of defs

-- The invariant: the trace `t` of the jumps written so far and the labels `d` with the offsets at
-- which they were defined, the last one first.
pub record IsTraced (g : Gen) (t : List (ℕ × JmpLabel)) (d : List (ℕ × ℕ)) : Type 0 where
  pub valid : IsValid g.array
  pub fixed : is_auto_grow g.array ≡ false
  pub small : g.array.max_size < 2 ^ 31 - 16
  pub below : Below g.array.size t
  pub tracks :
      Tracks nat_eq (λ v. v.offset) g.manager.clabel_def_list g.array g.manager.clabel_undef_list t
  pub offsets :
      (k : ℕ) (v : ClabelVal)
      → find nat_eq k g.manager.clabel_def_list ≡ some v
      → v.offset ≤ g.array.size
  pub named : offsets_of g.manager.clabel_def_list ≡ d

-- The number of the label at `p`, given to it now if it has none.
abbrev pub key : ℕ → Gen → ℕ
key p g = (get_id p g.manager).0

get_id-labels : (p : ℕ) (m : LabelManager) → ((get_id p m).1.labels p).id ≡ (get_id p m).0
unfolding get_id
get_id-labels p m = ground (arith, ==_iff p p)

pub get_id-same :
    (p : ℕ) (m : LabelManager)
    → ((get_id p m).1.clabel_def_list ≡ m.clabel_def_list)
      × ((get_id p m).1.clabel_undef_list ≡ m.clabel_undef_list)
unfolding get_id
get_id-same p m = (ground arith, ground arith)

find_clabel-some :
    (p : ℕ) (m : LabelManager) (v : ClabelVal)
    → find nat_eq (get_id p m).0 m.clabel_def_list ≡ some v
    → find_clabel p m ≡ ok (some v.offset, p, (get_id p m).1)
unfolding find_clabel get_offset_c
find_clabel-some p m v e = ground (arith, e)

find_clabel-none :
    (p : ℕ) (m : LabelManager)
    → find nat_eq (get_id p m).0 m.clabel_def_list ≡ none
    → find_clabel p m ≡ ok (none, p, (get_id p m).1)
unfolding find_clabel get_offset_c
find_clabel-none p m e = ground (arith, e)

-- Code behind the trace leaves it as it is.
appended-Tracks :
    (bs : List ℕ) (g : Gen) (t : List (ℕ × JmpLabel)) {d : List (ℕ × ℕ)} (c' : CodeArray)
    → IsTraced g t d
    → Appends g.array bs c'
    → Tracks nat_eq (λ v. v.offset) g.manager.clabel_def_list c' g.manager.clabel_undef_list t
appended-Tracks bs g t c' i a =
    Tracks-same nat_eq (λ v. v.offset) c' g.array.size i.below
      (λ j n h. read_word-old bs i.valid a n j h) i.tracks

module _ (h : Host) where
  -- Any bytes, by the `db` family.
  pub db_seq-IsTraced :
      (bs : List ℕ) (g : Gen) (t : List (ℕ × JmpLabel)) {d : List (ℕ × ℕ)}
      → IsTraced g t d
      → OnOk (λ c'. IsTraced (record g { array = c' }) t d) (db_seq h bs g.array)
  db_seq-IsTraced bs g t i =
      OnOk-mono (λ c'. Appends g.array bs c' × (c'.max_size ≡ g.array.max_size)) _
        (db_seq h bs g.array)
        (λ c' (a, same). record {
          valid = a.valid;
          fixed = ground (arith, i.fixed, a.same_type);
          small = omega (arith, i.small, same);
          below = Below-weaken g.array.size c'.size t (omega (arith, a.size_grows)) i.below;
          tracks = appended-Tracks bs g t c' i a;
          offsets = λ k v e. omega (arith, i.offsets k v e, a.size_grows);
          named = i.named;
        })
        (db_seq-OnOk h bs g.array i.valid i.fixed)

  module _ (p : ℕ) (type : LabelType) (short long pref : ℕ) (g : Gen) where
    abbrev jump : Result Gen
    jump = op_jmp h find_clabel add_undefined_clabel p type short long pref g

    abbrev with_array : CodeArray → Gen
    with_array c' = record g { array = c'; manager = (get_id p g.manager).1 }

    abbrev with_site : ℕ → CodeArray → Gen
    with_site n c' = record g {
      array = c';
      manager =
          add_undefined_clabel p
            (record { end_of_jmp = c'.size; jmp_size = n; mode = las_is; disp = 0 })
            (get_id p g.manager).1;
    }

    op_jmp-found :
        (v : ClabelVal)
        → is_far type ≡ false
        → is_auto_grow g.array ≡ false
        → find nat_eq (key p g) g.manager.clabel_def_list ≡ some v
        → jump ≡ (
            verify_in_int32 (sub64 v.offset g.array.size) >>= λ disp.
            make_jmp disp type short long pref >>= λ bs.
            db_seq h bs g.array >>= λ c'. ok (with_array c'))
    unfolding op_jmp
    op_jmp-found v near fixed e = rw (near, fixed, find_clabel-some p g.manager v e)

    op_jmp-missing :
        is_far type ≡ false
        → is_auto_grow g.array ≡ false
        → find nat_eq (key p g) g.manager.clabel_def_list ≡ none
        → jump ≡ (
            let j = forward_jmp h find_clabel add_undefined_clabel g type short long pref in
            db_seq h j.0 g.array >>= λ c'. ok (with_site j.1 c'))
    unfolding op_jmp
    op_jmp-missing near fixed e = rw (near, fixed, find_clabel-none p g.manager e)

    abbrev Jumped : List (ℕ × JmpLabel) → List (ℕ × ℕ) → Gen → Type 0
    Jumped t d g' = IsTraced g' ((key p g, site g.array g'.array) ∷ t) d

    -- A jump to a label that is there: it lands at once.
    found_Jumped :
        (t : List (ℕ × JmpLabel)) (v : ClabelVal) (bs : List ℕ) (c' : CodeArray) {d : List (ℕ × ℕ)}
        → IsTraced g t d
        → find nat_eq (key p g) g.manager.clabel_def_list ≡ some v
        → Reaches g.array v.offset bs
        → Appends g.array bs c'
        → c'.max_size ≡ g.array.max_size
        → Jumped t d (with_array c')
    found_Jumped t v bs c' i e reach a same =
        let (field, behind, lands) = reach c' i.valid a in
        let (defs, undef) = get_id-same p g.manager in
        record {
          valid = a.valid;
          fixed = ground (arith, i.fixed, a.same_type);
          small = omega (arith, i.small, same);
          below = (
            field,
            Below-weaken g.array.size (c'.size - (site g.array c').jmp_size) t behind i.below,
          );
          tracks =
              rw (defs, undef)
                (landed (key p g) (site g.array c') v e lands (appended-Tracks bs g t c' i a));
          offsets = rw defs (λ k w f. omega (arith, i.offsets k w f, a.size_grows));
          named = rw defs i.named;
        }

    abbrev forward : List ℕ × ℕ
    forward = forward_jmp h find_clabel add_undefined_clabel g type short long pref

    forward_size :
        (c' : CodeArray)
        → c'.size ≡ g.array.size + length forward.0
        → ((site g.array c').jmp_size ≡ forward.1)
          × ((forward.1 ≡ 1) ⊎ (forward.1 ≡ 4))
          × (forward.1 ≤ length forward.0)
    unfolding forward_jmp
    forward_size c' e = (ground (arith, e), ground arith, ground arith)

    waiting :
        (c' : CodeArray) (n : ℕ)
        → (with_site n c').manager.clabel_undef_list
          ≡ (key p g, record { end_of_jmp = c'.size; jmp_size = n; mode = las_is; disp = 0 })
            ∷ g.manager.clabel_undef_list
    unfolding add_undefined_clabel
    waiting c' n = rw (get_id-labels p g.manager, (get_id-same p g.manager).1)

    waiting_defs :
        (c' : CodeArray) (n : ℕ)
        → (with_site n c').manager.clabel_def_list ≡ g.manager.clabel_def_list
    unfolding add_undefined_clabel
    waiting_defs c' n = (get_id-same p g.manager).0

    -- A jump to a label that is not there yet: it waits.
    missing_Jumped :
        (t : List (ℕ × JmpLabel)) (c' : CodeArray) {d : List (ℕ × ℕ)}
        → IsTraced g t d
        → Appends g.array forward.0 c'
        → c'.max_size ≡ g.array.max_size
        → Jumped t d (with_site forward.1 c')
    missing_Jumped t c' i a same =
        let (size, sized, le) = forward_size c' a.size_grows in
        let field : IsField c'.size (site g.array c') = record {
          sized = rw size sized;
          starts = omega (arith, size, le, a.size_grows);
          ends = omega arith;
          relative = refl;
          no_disp = refl;
        } in
        record {
          valid = a.valid;
          fixed = ground (arith, i.fixed, a.same_type);
          small = omega (arith, i.small, same);
          below = (
            field,
            Below-weaken g.array.size (c'.size - (site g.array c').jmp_size) t
                (omega (arith, size, le, a.size_grows)) i.below,
          );
          tracks =
              rw (waiting_defs c' forward.1, waiting c' forward.1, ← size)
                (waits (key p g) (site g.array c') (appended-Tracks forward.0 g t c' i a));
          offsets =
              rw (waiting_defs c' forward.1)
                (λ k w f. omega (arith, i.offsets k w f, a.size_grows));
          named = rw (waiting_defs c' forward.1) i.named;
        }

    -- A jump or a call to a `Label`, of any type and with any opcodes, adds one entry to the trace.
    pub op_jmp-Jumped :
        (t : List (ℕ × JmpLabel)) {d : List (ℕ × ℕ)} → IsTraced g t d → OnOk (Jumped t d) jump
    op_jmp-Jumped t {d} i = elim (Bool-cases (is_far type)) [
      | inl far ↦ (unfold op_jmp in rw far tt)
      | inr near ↦ elim (Option-cases (find nat_eq (key p g) g.manager.clabel_def_list)) [
        | inl new ↦ rw (op_jmp-missing near i.fixed new) (
            OnOk-map (λ c'. Appends g.array forward.0 c' × (c'.max_size ≡ g.array.max_size))
              (Jumped t d) (db_seq h forward.0 g.array) _
              (db_seq-OnOk h forward.0 g.array i.valid i.fixed)
              λ c' (a, same). missing_Jumped t c' i a same)
        | inr (v, old) ↦ rw (op_jmp-found v near i.fixed old) (
            OnOk-bind (Jumped t d) (verify_in_int32 (sub64 v.offset g.array.size)) _ λ disp e.
              OnOk-map (Reaches g.array v.offset) (Jumped t d) (make_jmp disp type short long pref)
                _
                (make_jmp-Reaches v.offset disp type short long pref g.array
                  (omega (arith, i.offsets _ v old, i.small, i.valid.within))
                  (omega (arith, i.small, i.valid.within)) (verified v e))
                λ bs reach.
                  OnOk-map (λ c'. Appends g.array bs c' × (c'.max_size ≡ g.array.max_size))
                    (Jumped t d) (db_seq h bs g.array) _ (db_seq-OnOk h bs g.array i.valid i.fixed)
                    λ c' (a, same). found_Jumped t v bs c' i old reach a same)
      ]
    ]
      where
        verified :
            (v : ClabelVal) {disp : ℕ}
            → verify_in_int32 (sub64 v.offset g.array.size) ≡ ok disp
            → disp ≡ u32 (sub64 v.offset g.array.size)
        verified v e = unfold verify_in_int32 in ground (arith, e)
