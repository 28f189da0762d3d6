-- ===== src/LabelTable/Define.antt =====
-- `resolve` and `define_inner` on a traced buffer that does not grow.
use xbyak.Prelude.{
  ℕ, ◌+◌, ◌-◌, ◌^◌, ◌≤◌, ◌<◌, ◌≡◌, ◌↔◌, refl, ◌∙◌, sym, Bool, true, false, List, [], ◌∷◌, ◌⊎◌, All,
  Option, arith, none, some, Bool-cases, Option-cases,
}
use mathlib.Core.Logic.{inl, inr}
use mathlib.Core.Path.{subst}
use xbyak.Err.{ErrorCode, ok, err, ◌>>=◌, OnOk, OnOk-mono, OnOk-bind, OnOk-map, OnOk-both}
use xbyak.CodeArray.{CodeArray, is_auto_grow}
use xbyak.CodeArray.Emit.{IsValid}
use xbyak.CodeArray.Patch.{read_word}
use xbyak.LabelTable.{JmpLabel, find, patch, resolve, define_inner}
use xbyak.LabelTable.Target.{Lands, Patched, patch-Patched}
use xbyak.LabelTable.Resolve.{
  Below, Frame, Frame-trans, Frame-weaken, Patched-Frame, Lands-same, Tracks, start, waits, landed,
}

module _ {K V : Type 0} (eqk : K → K → Bool) (offset : V → ℕ)
    (eqk_iff : (a b : K) → (eqk a b ≡ true) ↔ (a ≡ b)) where
  module _ (defs : List (K × V)) (k : K) (v : V) (new : find eqk k defs ≡ none) where
    find_self : (j : K) → eqk j k ≡ true → find eqk j ((k, v) ∷ defs) ≡ some v
    unfolding find
    find_self j h = rw ((eqk_iff k j).1 (sym ((eqk_iff j k).0 h)))

    find-other : (j : K) (w : V) → find eqk j defs ≡ some w → find eqk j ((k, v) ∷ defs) ≡ some w
    find-other j w h = elim (Bool-cases (eqk k j)) [
      | inl same ↦ absurd (clash (rw (← (eqk_iff k j).0 same) at h))
      | inr differ ↦ (unfold find in rw differ h)
    ]
      where
        clash : find eqk k defs ≡ some w → ⊥
        clash e = cc

    abbrev Resolved : ℕ → CodeArray → List (K × JmpLabel) → List (K × JmpLabel) × CodeArray → Type 0
    Resolved limit c t r = Tracks eqk offset ((k, v) ∷ defs) r.1 r.0 t × Frame limit c r.1

    -- `c` and `a` hold the same bytes up to an offset.
    abbrev SameBelow : ℕ → CodeArray → CodeArray → Type 0
    SameBelow limit a c = (j n : ℕ) → j + n ≤ limit → read_word c.bytes j n ≡ read_word a.bytes j n

    -- One more jump at the end of a trace: it lands on `w`, as it did in `a`.
    add_landed :
        (a c c' : CodeArray) (limit : ℕ) {u t : List (K × JmpLabel)} (j : K) (jmp : JmpLabel)
        (w : V)
        → Below limit ((j, jmp) ∷ t)
        → SameBelow limit a c
        → find eqk j defs ≡ some w
        → Lands a jmp (offset w)
        → Resolved (jmp.end_of_jmp - jmp.jmp_size) c t (u, c')
        → Resolved limit c ((j, jmp) ∷ t) (u, c')
    add_landed a c c' limit j jmp w b same e l (tracks, frame) = (
      landed j jmp w (find-other j w e)
          (Lands-same jmp (offset w) a c'
            (frame.above _ _ (omega arith) ∙ same _ _ (omega (arith, b.0.starts, b.0.ends))) l)
          tracks,
      Frame-weaken (jmp.end_of_jmp - jmp.jmp_size) limit (omega (arith, b.0.ends)) frame,
    )

    add-Patched :
        (c c1 c' : CodeArray) (limit : ℕ) {u t : List (K × JmpLabel)} (j : K) (jmp : JmpLabel)
        → eqk j k ≡ true
        → Below limit ((j, jmp) ∷ t)
        → Patched (offset v) jmp c c1
        → Resolved (jmp.end_of_jmp - jmp.jmp_size) c1 t (u, c')
        → Resolved limit c ((j, jmp) ∷ t) (u, c')
    add-Patched c c1 c' limit j jmp same b p (tracks, frame) = (
      landed j jmp v (find_self j same)
          (Lands-same jmp (offset v) c1 c' (frame.above _ _ (omega arith)) p.lands) tracks,
      Frame-trans (jmp.end_of_jmp - jmp.jmp_size) limit (omega (arith, b.0.ends))
          (Patched-Frame (offset v) limit jmp b.0 p) frame,
    )

    resolve-here :
        (j : K) (jmp : JmpLabel) (u : List (K × JmpLabel)) (c : CodeArray)
        → eqk j k ≡ true
        → resolve eqk k (offset v) ((j, jmp) ∷ u) c
          ≡ (patch (offset v) jmp c >>= λ c1. resolve eqk k (offset v) u c1)
    unfolding resolve
    resolve-here j jmp u c h = rw (h, resolve)

    resolve-other :
        (j : K) (jmp : JmpLabel) (u : List (K × JmpLabel)) (c : CodeArray)
        → eqk j k ≡ false
        → resolve eqk k (offset v) ((j, jmp) ∷ u) c
          ≡ (resolve eqk k (offset v) u c >>= λ r. ok ((j, jmp) ∷ r.0, r.1))
    unfolding resolve
    resolve-other j jmp u c h = rw (h, resolve)

    -- The loop, from the last jump of a trace down to the first.
    resolve-Resolved :
        (a : CodeArray) {u t : List (K × JmpLabel)} (limit : ℕ) (c : CodeArray)
        → IsValid c
        → is_auto_grow c ≡ false
        → limit ≤ c.size
        → c.size < 2 ^ 63
        → offset v < 2 ^ 63
        → Below limit t
        → SameBelow limit a c
        → Tracks eqk offset defs a u t
        → OnOk (Resolved limit c t) (resolve eqk k (offset v) u c)
    unfolding resolve
    resolve-Resolved a limit c val fixed inside small low b same start = (
      start,
      record {
        valid = val;
        above = λ j n h. refl;
        same_size = refl;
        same_max_size = refl;
        same_type = refl;
      },
    )
    resolve-Resolved a limit c val fixed inside small low b same (landed {u} {t} j jmp w e l r) =
        let limit' = jmp.end_of_jmp - jmp.jmp_size in
        OnOk-mono (Resolved limit' c t) (Resolved limit c ((j, jmp) ∷ t))
          (resolve eqk k (offset v) u c) (λ r' q. add_landed a c r'.1 limit j jmp w b same e l q)
          (resolve-Resolved a limit' c val fixed (omega (arith, b.0.ends)) small low b.1
            (λ i n h. same i n (omega (arith, b.0.ends))) r)
    resolve-Resolved a limit c val fixed inside small low b same (waits {u} {t} j jmp r) =
        let limit' = jmp.end_of_jmp - jmp.jmp_size in
        elim (Bool-cases (eqk j k)) [
          | inl here ↦ rw (resolve-here j jmp u c here) (
              OnOk-bind (Resolved limit c ((j, jmp) ∷ t)) (patch (offset v) jmp c) _ λ c1 run.
                let p = patch-Patched (offset v) limit jmp c val fixed b.0 inside small low run in
                OnOk-mono (Resolved limit' c1 t) (Resolved limit c ((j, jmp) ∷ t))
                  (resolve eqk k (offset v) u c1)
                  (λ r' q. add-Patched c c1 r'.1 limit j jmp here b p q)
                  (resolve-Resolved a limit' c1 p.rewritten.valid
                    (ground (arith, p.rewritten.same_type))
                    (omega (arith, b.0.ends, p.rewritten.same_size))
                    (omega (arith, p.rewritten.same_size)) low b.1
                    (λ i n h. p.rewritten.outside i n (inl h) ∙ same i n (omega (arith, b.0.ends)))
                    r))
          | inr differ ↦ rw (resolve-other j jmp u c differ) (
              OnOk-map (Resolved limit' c t) (Resolved limit c ((j, jmp) ∷ t))
                (resolve eqk k (offset v) u c) _
                (resolve-Resolved a limit' c val fixed (omega (arith, b.0.ends)) small low b.1
                  (λ i n h. same i n (omega (arith, b.0.ends))) r)
                λ r' q. (waits j jmp q.0, Frame-weaken limit' limit (omega (arith, b.0.ends)) q.1))
        ]

  -- No jump waits for the label any more: an entry that is left is one that was there before and is
  -- of another label.
  pub resolve-none_left :
      (k : K) (addr : ℕ) (u : List (K × JmpLabel)) (c : CodeArray)
      → OnOk (λ r. find eqk k r.0 ≡ none) (resolve eqk k addr u c)
  unfolding resolve find
  resolve-none_left k addr [] c = refl
  resolve-none_left k addr ((j, jmp) ∷ u) c = elim (Bool-cases (eqk j k)) [
    | inl here ↦
        rw (here, resolve)
          (OnOk-bind {A = CodeArray} (λ r. find eqk k r.0 ≡ none) (patch addr jmp c)
            (λ c'. resolve eqk k addr u c') (λ c' e. resolve-none_left k addr u c'))
    | inr other ↦
        rw (other, resolve)
          (OnOk-map (λ r. find eqk k r.0 ≡ none) (λ r. find eqk k r.0 ≡ none)
            (resolve eqk k addr u c) (λ r. ok ((j, jmp) ∷ r.0, r.1)) (resolve-none_left k addr u c)
            λ r e. rw other e)
  ]

  -- The tables and the buffer after `define_inner`: the trace is kept, and no byte outside of its
  -- fields has changed.
  abbrev pub Defined :
      ℕ → CodeArray → List (K × JmpLabel) → List (K × V) × List (K × JmpLabel) × CodeArray → Type 0
  Defined limit c t r = Tracks eqk offset r.0 r.2 r.1 t × Frame limit c r.2

  module _ (value : ℕ → V) (of_value : (o : ℕ) → offset (value o) ≡ o) where
    after_resolve :
        (limit : ℕ) (defs : List (K × V)) (u t : List (K × JmpLabel)) (k : K) (addr : ℕ)
        (c : CodeArray)
        → find eqk k defs ≡ none
        → OnOk
            (λ r. Tracks eqk offset ((k, value addr) ∷ defs) r.1 r.0 t × Frame limit c r.1)
            (resolve eqk k addr u c)
        → OnOk (Defined limit c t) (define_inner eqk value defs u k addr c)
    unfolding define_inner
    after_resolve limit defs u t k addr c new h =
        rw (new, define_inner)
          (OnOk-map (λ r. Tracks eqk offset ((k, value addr) ∷ defs) r.1 r.0 t × Frame limit c r.1)
            (Defined limit c t) (resolve eqk k addr u c) _ h (λ r q. q))

    pub define_inner-keeps_trace :
        (limit : ℕ) (defs : List (K × V)) {u t : List (K × JmpLabel)} (k : K) (addr : ℕ)
        (c : CodeArray)
        → IsValid c
        → is_auto_grow c ≡ false
        → limit ≤ c.size
        → c.size < 2 ^ 63
        → addr < 2 ^ 63
        → Below limit t
        → Tracks eqk offset defs c u t
        → OnOk (Defined limit c t) (define_inner eqk value defs u k addr c)
    define_inner-keeps_trace limit defs {u} {t} k addr c val fixed inside small low b tracks =
        elim (Option-cases (find eqk k defs)) [
          | inl new ↦ after_resolve limit defs u t k addr c new (
              rw of_value at (
                resolve-Resolved defs k (value addr) new c limit c val fixed inside small
                  (rw of_value low) b (λ j n h. refl) tracks))
          | inr old ↦ (unfold define_inner in rw (old.1, define_inner) tt)
        ]

    -- The label is the new entry of its table.
    pub define_inner-defs :
        (defs : List (K × V)) (u : List (K × JmpLabel)) (k : K) (addr : ℕ) (c : CodeArray)
        → OnOk {A = List (K × V) × List (K × JmpLabel) × CodeArray}
            (λ r. r.0 ≡ (k, value addr) ∷ defs)
            (define_inner eqk value defs u k addr c)
    unfolding define_inner
    define_inner-defs defs u k addr c =
        elim (find eqk k defs)
          as (λ o.
            OnOk {A = List (K × V) × List (K × JmpLabel) × CodeArray}
              (λ r. r.0 ≡ (k, value addr) ∷ defs)
              (elim o [
                | some _ ↦ err ErrorCode.err_label_is_redefined
                | none ↦ resolve eqk k addr u c >>= λ r. ok ((k, value addr) ∷ defs, r.0, r.1)
              ])) [
                | some w ↦ tt
                | none ↦
                    OnOk-bind {B = List (K × V) × List (K × JmpLabel) × CodeArray}
                      (λ r. r.0 ≡ (k, value addr) ∷ defs) (resolve eqk k addr u c) _ (λ r e. refl)
              ]

    none_left :
        (defs : List (K × V)) (u : List (K × JmpLabel)) (k : K) (addr : ℕ) (c : CodeArray)
        → OnOk {A = List (K × V) × List (K × JmpLabel) × CodeArray}
            (λ r. find eqk k r.1 ≡ none)
            (define_inner eqk value defs u k addr c)
    unfolding define_inner
    none_left defs u k addr c = elim (Option-cases (find eqk k defs)) [
      | inl new ↦
          rw (new, define_inner)
            (OnOk-map (λ r. find eqk k r.0 ≡ none) (λ r. find eqk k r.1 ≡ none)
              (resolve eqk k addr u c) _ (resolve-none_left k addr u c) (λ r e. e))
      | inr old ↦ rw (old.1, define_inner) tt
    ]

    -- Where no jump waits for a label, those to it have landed.
    All-landed :
        (defs : List (K × V)) (k : K) (addr : ℕ) (c : CodeArray) {u t : List (K × JmpLabel)}
        → Tracks eqk offset ((k, value addr) ∷ defs) c u t
        → find eqk k u ≡ none
        → All (λ (e : K × JmpLabel). (eqk e.0 k ≡ false) ⊎ Lands c e.1 addr) t
    unfolding find
    All-landed defs k addr c start e = tt
    All-landed defs k addr c (waits {u} {t} j jmp r) e = elim (Bool-cases (eqk j k)) [
      | inl here ↦ absurd (taken (rw here at e))
      | inr other ↦ (inl other, All-landed defs k addr c r (rw other at e))
    ]
      where
        taken : ◌≡◌ {A = Option JmpLabel} (some jmp) none → ⊥
        taken h = cc
    All-landed defs k addr c (landed {u} {t} j jmp w d l r) e = (
      elim (Bool-cases (eqk j k)) [
        | inl here ↦ inr (lands (rw ((eqk_iff k j).1 (sym ((eqk_iff j k).0 here))) at d))
        | inr other ↦ inl other
      ],
      All-landed defs k addr c r e,
    )
      where
        lands : ◌≡◌ {A = Option V} (some (value addr)) (some w) → Lands c jmp addr
        lands h = let same : value addr ≡ w = cc in rw (of_value addr) at (rw (← same) at l)

    -- What the call does with the jumps of a trace, and with both tables.
    abbrev pub Filled :
        ℕ
        → List (K × V)
        → K
        → ℕ
        → CodeArray
        → List (K × JmpLabel)
        → List (K × V) × List (K × JmpLabel) × CodeArray
        → Type 0
    Filled limit defs k addr c t r =
        Defined limit c t r
        × (r.0 ≡ (k, value addr) ∷ defs)
        × (find eqk k r.1 ≡ none)
        × All (λ e. (eqk e.0 k ≡ false) ⊎ Lands r.2 e.1 addr) t

    -- When a label is defined in a buffer that does not grow and is smaller than 2 ^ 63 bytes, for
    -- any table of labels and any trace of jumps in it, and the call returns: no jump
    -- waits for the label any more, and every jump of the trace to it is read from the code as a jump
    -- to the given offset; every other jump of the trace still waits in the table of jumps, or
    -- is read as a jump to the offset of its own label; the label is in its table with the offset;
    -- no byte behind the limit of the trace has changed, nor the size or the kind of the buffer.
    pub define_inner-Defined :
        (limit : ℕ) (defs : List (K × V)) {u t : List (K × JmpLabel)} (k : K) (addr : ℕ)
        (c : CodeArray)
        → IsValid c
        → is_auto_grow c ≡ false
        → limit ≤ c.size
        → c.size < 2 ^ 63
        → addr < 2 ^ 63
        → Below limit t
        → Tracks eqk offset defs c u t
        → OnOk (Filled limit defs k addr c t) (define_inner eqk value defs u k addr c)
    define_inner-Defined limit defs {u} {t} k addr c val fixed inside small low b tracks =
        let run = define_inner eqk value defs u k addr c in
        OnOk-mono
          (λ r. Defined limit c t r × ((r.0 ≡ (k, value addr) ∷ defs) × (find eqk k r.1 ≡ none)))
          (Filled limit defs k addr c t) run
          (λ r (d, (defined, none_waits)). (
            d,
            defined,
            none_waits,
            All-landed defs k addr r.2 (subst (λ l. Tracks eqk offset l r.2 r.1 t) defined d.0)
                none_waits,
          ))
          (OnOk-both (Defined limit c t)
            (λ r. (r.0 ≡ (k, value addr) ∷ defs) × (find eqk k r.1 ≡ none)) run
            (define_inner-keeps_trace limit defs k addr c val fixed inside small low b tracks)
            (OnOk-both (λ r. r.0 ≡ (k, value addr) ∷ defs) (λ r. find eqk k r.1 ≡ none) run
              (define_inner-defs defs u k addr c) (none_left defs u k addr c)))
