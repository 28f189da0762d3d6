-- ===== src/LabelManager/Assign.antt =====
-- `assignL`: what a lookup of the destination finds afterwards.
use xbyak.Prelude.{
  ℕ, ◌≡◌, ◌≢◌, refl, ap, sym, List, ◌∷◌, arith, ==_iff, ◌==◌, if◌then◌else◌, Option, none, some,
  Option-cases, inl, inr, ◌∙◌,
}
use xbyak.Err.{>>=-ok_inv, Result, ok, ◌>>=◌, OnOk, OnOk-map, OnOk-ok}
use xbyak.CodeArray.{CodeArray}
use xbyak.LabelTable.Define.{define_inner-defs}
use xbyak.LabelTable.{find, define_inner}
use xbyak.LabelManager.{
  LabelManager, ClabelVal, Label, nat_eq, nat_eq_iff, new_clabel, get_offset_c, assign, define_id,
  attach,
}

-- The offset of a label's entry.
abbrev pub offset_of : ℕ → List (ℕ × ClabelVal) → Option ℕ
offset_of id defs = elim (find nat_eq id defs) [ some v ↦ some v.offset | none ↦ none ]

-- What `define_id` leaves in the manager.
abbrev Entered : ℕ → ℕ → LabelManager → LabelManager × CodeArray → Type 0
Entered id addr m r =
    (r.0.clabel_def_list ≡ (id, new_clabel addr) ∷ m.clabel_def_list)
    × (r.0.label_id ≡ m.label_id)
    × (r.0.labels ≡ m.labels)

define_id-Entered :
    (id addr : ℕ) (m : LabelManager) (base : CodeArray)
    → OnOk (Entered id addr m) (define_id id addr m base)
define_id-Entered id addr m base =
    OnOk-map _ (Entered id addr m)
      (define_inner nat_eq new_clabel m.clabel_def_list m.clabel_undef_list id addr base) _
      (define_inner-defs nat_eq (λ v. v.offset) nat_eq_iff new_clabel (λ o. refl) m.clabel_def_list
        m.clabel_undef_list id addr base)
      λ r e. (e, refl, refl)

-- A label that is entered and attached is found by a lookup, unless it has no number.
get_offset_c-attach :
    (dst addr : ℕ) (m m1 : LabelManager) (c : CodeArray)
    → m.label_id ≢ 0
    → find nat_eq m.label_id m.clabel_def_list ≡ none
    → Entered (m.labels dst).id addr m (m1, c)
    → (get_offset_c dst (attach dst m1)).0 ≡ (if (m.labels dst).id == 0 then none else some addr)
unfolding get_offset_c find
get_offset_c-attach dst addr m m1 c pos fresh (defs, next, labels) =
    rw defs
      (ground (arith, ap (λ (f : ℕ → Label). (f dst).id) labels, ==_iff dst dst, fresh, pos, next))

abbrev attach_result : ℕ → LabelManager × CodeArray → Result (LabelManager × CodeArray)
attach_result dst q = ok (attach dst q.0, q.1)

assign-found :
    (dst src : ℕ) (m : LabelManager) (base : CodeArray) (v : ClabelVal)
    → find nat_eq (m.labels src).id m.clabel_def_list ≡ some v
    → assign dst src m base ≡ (define_id (m.labels dst).id v.offset m base >>= attach_result dst)
unfolding assign
assign-found dst src m base v there = rw (there, assign)

offset_of-found :
    (id : ℕ) (defs : List (ℕ × ClabelVal)) (v : ClabelVal)
    → find nat_eq id defs ≡ some v
    → offset_of id defs ≡ some v.offset
offset_of-found id defs v there =
    ap (λ (o : Option ClabelVal). elim o [ some w ↦ some w.offset | none ↦ none ]) there

-- In a manager whose next number is not 0 and not in the table, after `assign(dst, src)` has
-- returned, a lookup of `dst` finds the offset of `src` if `dst` had a number before; a `dst` that
-- was never used is not found.
pub assign-offset :
    (dst src : ℕ) (m m' : LabelManager) (base base' : CodeArray)
    → m.label_id ≢ 0
    → find nat_eq m.label_id m.clabel_def_list ≡ none
    → assign dst src m base ≡ ok (m', base')
    → (get_offset_c dst m').0
      ≡ (if (m.labels dst).id == 0 then none else offset_of (m.labels src).id m.clabel_def_list)
assign-offset dst src m m' base base' pos fresh e =
    elim (Option-cases (find nat_eq (m.labels src).id m.clabel_def_list)) [
      | inl none_there ↦ absurd (no_source none_there)
      | inr (v, there) ↦ (let (r, run, last) = defined v there in finish v there r run last)
    ]
  where
    no_source : find nat_eq (m.labels src).id m.clabel_def_list ≡ none → ⊥
    no_source h = unfold assign in ground (arith, h, e)

    defined :
        (v : ClabelVal)
        → find nat_eq (m.labels src).id m.clabel_def_list ≡ some v
        → (r : LabelManager × CodeArray) × (define_id (m.labels dst).id v.offset m base ≡ ok r)
          × (◌≡◌ {A = Result (LabelManager × CodeArray)}
              (ok (attach dst r.0, r.1))
              (ok (m', base')))
    defined v there =
        >>=-ok_inv (define_id (m.labels dst).id v.offset m base) (attach_result dst)
          (sym (assign-found dst src m base v there) ∙ e)

    finish :
        (v : ClabelVal)
        → find nat_eq (m.labels src).id m.clabel_def_list ≡ some v
        → (r : LabelManager × CodeArray) → define_id (m.labels dst).id v.offset m base ≡ ok r
        → ◌≡◌ {A = Result (LabelManager × CodeArray)} (ok (attach dst r.0, r.1)) (ok (m', base'))
        → (get_offset_c dst m').0
          ≡ (if (m.labels dst).id == 0 then none else offset_of (m.labels src).id m.clabel_def_list)
    finish v there r run last =
        let entered =
          OnOk-ok (Entered (m.labels dst).id v.offset m)
            (define_id (m.labels dst).id v.offset m base)
            (define_id-Entered (m.labels dst).id v.offset m base) run in
        let same : attach dst r.0 ≡ m' = cc in
        rw (← same, offset_of-found (m.labels src).id m.clabel_def_list v there)
          (get_offset_c-attach dst v.offset m r.0 r.1 pos fresh entered)
