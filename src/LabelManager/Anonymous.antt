-- ===== src/LabelManager/Anonymous.antt =====
-- The labels "@@", with "@b" for the last one and "@f" for the next one.
use Prim.Native.String.{String}
use text.Mathlib.Text.{◌==◌ as str_eq}
use text.Mathlib.TextEquality.{eq_iff}
use xbyak.Prelude.{
  ℕ, ◌≡◌, refl, ap, sym, ◌∙◌, inl, inr, ◌⊎◌, false, List, [], ◌∷◌, if◌then◌else◌, Option, none,
  some, Bool-cases, Option-cases,
}
use xbyak.Err.{Result, ok, OnOk, OnOk-map, OnOk-mono}
use xbyak.CodeArray.{CodeArray}
use xbyak.LabelTable.{find, erase, define_inner}
use xbyak.LabelTable.Define.{define_inner-defs}
use xbyak.LabelManager.{
  LabelManager, define_slabel, define_named, anonymous_name, get_offset_s, set_defs, is_local,
}

module _ {V : Type 0} where
  abbrev lookup : String → List (String × V) → Option V
  lookup k d = find str_eq k d

  abbrev remove : String → List (String × V) → List (String × V)
  remove k d = erase str_eq k d

  find-erase_other :
      (k j : String) (d : List (String × V))
      → str_eq j k ≡ false
      → lookup k (remove j d) ≡ lookup k d
  unfolding find erase
  find-erase_other k j [] other = refl
  find-erase_other k j ((i, v) ∷ d) other = elim (Bool-cases (str_eq i j)) [
    | inl same ↦ rw (same, ap (λ x. str_eq x k) ((eq_iff i j).0 same) ∙ other) refl
    | inr differ ↦
        rw differ (ap (λ o. if str_eq i k then some v else o) (find-erase_other k j d other))
  ]

  find-erase_absent :
      (k : String) (d : List (String × V)) → lookup k d ≡ none → lookup k (remove k d) ≡ none
  unfolding find erase
  find-erase_absent k [] h = refl
  find-erase_absent k ((i, v) ∷ d) h = elim (Bool-cases (str_eq i k)) [
    | inl same ↦ absurd (clash (rw same at h))
    | inr differ ↦ rw differ (rw differ (find-erase_absent k d (rw differ at h)))
  ]
    where
      clash : ◌≡◌ {A = Option V} (some v) none → ⊥
      clash e = cc

-- The table of the global labels has at most one of "@b" and "@f", once.
pub record Alternates (d : List (String × ℕ)) : Type 0 where
  pub once_f : lookup "@f" (remove "@f" d) ≡ none
  pub once_b : lookup "@b" (remove "@b" d) ≡ none
  pub one : (lookup "@f" d ≡ none) ⊎ (lookup "@b" d ≡ none)

-- The label "@@" that was defined last is at `addr`, under the name `name`.
pub record Latest (addr : ℕ) (name other : String) (d : List (String × ℕ)) : Type 0 where
  pub found : lookup name d ≡ some addr
  pub free : lookup other d ≡ none

module _ (d : List (String × ℕ)) (addr : ℕ) (alt : Alternates d) where
  after_b :
      {o : ℕ}
      → lookup "@f" d ≡ some o
      → Alternates (("@b", addr) ∷ remove "@f" d)
        × Latest addr "@b" "@f" (("@b", addr) ∷ remove "@f" d)
  unfolding find erase
  after_b {o} there =
      let free : lookup "@f" (remove "@f" d) ≡ none = alt.once_f in
      let no_b : lookup "@b" d ≡ none = elim (alt.one) [ inl f ↦ absurd (clash f) | inr b ↦ b ] in
      (
        record {
          once_f = find-erase_absent "@f" (remove "@f" d) free;
          once_b = find-erase_other "@b" "@f" d refl ∙ no_b;
          one = inl free;
        },
        record { found = refl; free = free },
      )
    where
      clash : lookup "@f" d ≡ none → ⊥
      clash f = cc

  after_f :
      lookup "@f" d ≡ none
      → Alternates (("@f", addr) ∷ remove "@b" d)
        × Latest addr "@f" "@b" (("@f", addr) ∷ remove "@b" d)
  unfolding find erase
  after_f absent =
      let free : lookup "@b" (remove "@b" d) ≡ none = alt.once_b in
      (
        record {
          once_f = find-erase_other "@f" "@b" d refl ∙ absent;
          once_b = find-erase_absent "@b" (remove "@b" d) free;
          one = inr free;
        },
        record { found = refl; free = free },
      )

-- What "@b" and "@f" are in a manager whose last "@@" is at `addr`.
abbrev pub Follows : ℕ → LabelManager → Type 0
Follows addr m =
    Alternates m.global.def_list
    × ((name : String) × (get_offset_s "@b" m ≡ ok (some addr, name)))
    × (get_offset_s "@f" m ≡ ok (none, (anonymous_name m).0))

abbrev place : Option ℕ → String → Result (Option ℕ × String)
place o name = ok (o, name)

name_f :
    (m : LabelManager)
    → lookup "@f" m.global.def_list ≡ none
    → anonymous_name m ≡ ("@f", set_defs (remove "@b" m.global.def_list) m)
unfolding anonymous_name
name_f m free = rw (free, anonymous_name) refl

name_b :
    (m : LabelManager) {o : ℕ}
    → lookup "@f" m.global.def_list ≡ some o
    → anonymous_name m ≡ ("@b", set_defs (remove "@f" m.global.def_list) m)
unfolding anonymous_name
name_b m there = rw (there, anonymous_name) refl

Follows-b :
    (addr : ℕ) (m : LabelManager)
    → Alternates m.global.def_list
    → Latest addr "@b" "@f" m.global.def_list
    → Follows addr m
unfolding get_offset_s
Follows-b addr m alt last = (
  alt,
  ("@b", rw (last.free, last.found) (ap (λ o. place o "@b") last.found)),
  rw last.free (
      rw last.free (ap (λ (r : String × LabelManager). place none r.0) (sym (name_f m last.free)))),
)

Follows-f :
    (addr : ℕ) (m : LabelManager)
    → Alternates m.global.def_list
    → Latest addr "@f" "@b" m.global.def_list
    → Follows addr m
unfolding get_offset_s
Follows-f addr m alt last = (
  alt,
  ("@f", rw last.found (ap (λ o. place o "@f") last.found)),
  rw last.found (
      rw last.free
        (ap (λ (r : String × LabelManager). place none r.0) (sym (name_b m last.found)))),
)

define_named-global :
    (name : String) (addr : ℕ) (d : List (String × ℕ)) (m : LabelManager) (base : CodeArray)
    → is_local name ≡ false
    → OnOk
        (λ (r : LabelManager × CodeArray). r.0.global.def_list ≡ (name, addr) ∷ d)
        (define_named name addr (set_defs d m) base)
unfolding define_named
define_named-global name addr d m base global = rw global (
    OnOk-map (λ r. r.0 ≡ (name, addr) ∷ d)
      (λ (r : LabelManager × CodeArray). r.0.global.def_list ≡ (name, addr) ∷ d)
      (define_inner str_eq (λ o. o) d m.global.undef_list name addr base) _
      (define_inner-defs str_eq (λ o. o) eq_iff (λ o. o) (λ o. refl) d m.global.undef_list name addr
        base)
      λ r e. e)

define_slabel-anonymous :
    (m : LabelManager) (base : CodeArray)
    → define_slabel "@@" m base
      ≡ define_named (anonymous_name m).0 base.size (anonymous_name m).1 base
unfolding define_slabel
define_slabel-anonymous m base = refl

-- In a manager whose table holds at most one of "@b" and "@f", once: after "@@" is defined, "@b" is found at the place of the definition, whether it is the first, an
-- odd or an even one, and "@f" is not found: it is renamed to the name that the next "@@" will get.
-- The condition that the table alternates holds again.
pub define_slabel-Follows :
    (m : LabelManager) (base : CodeArray)
    → Alternates m.global.def_list
    → OnOk (λ (r : LabelManager × CodeArray). Follows base.size r.0) (define_slabel "@@" m base)
define_slabel-Follows m base alt =
    let Q : LabelManager × CodeArray → Type 0 = λ r. Follows base.size r.0 in
    rw (define_slabel-anonymous m base) (elim (Option-cases (lookup "@f" m.global.def_list)) [
      | inl absent ↦
          (let d = remove "@b" m.global.def_list in
            let (alt', last) = after_f m.global.def_list base.size alt absent in
            rw (name_f m absent) (
              OnOk-mono
                (λ (r : LabelManager × CodeArray). r.0.global.def_list ≡ ("@f", base.size) ∷ d) Q
                (define_named "@f" base.size (set_defs d m) base)
                (λ r e. Follows-f base.size r.0 (rw e alt') (rw e last))
                (define_named-global "@f" base.size d m base refl)))
      | inr (o, there) ↦
          (let d = remove "@f" m.global.def_list in
            let (alt', last) = after_b m.global.def_list base.size alt there in
            rw (name_b m there) (
              OnOk-mono
                (λ (r : LabelManager × CodeArray). r.0.global.def_list ≡ ("@b", base.size) ∷ d) Q
                (define_named "@b" base.size (set_defs d m) base)
                (λ r e. Follows-b base.size r.0 (rw e alt') (rw e last))
                (define_named-global "@b" base.size d m base refl)))
    ])
