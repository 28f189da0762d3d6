-- ===== src/LabelTable/Resolve.antt =====
-- Traces of jumps, each waiting for its label or landed on it, and the frame of a change of the code.
use xbyak.Prelude.{ℕ, ◌+◌, ◌-◌, ◌≤◌, ◌≡◌, inr, ◌∙◌, Bool, List, [], ◌∷◌, arith, some}
use xbyak.CodeArray.{CodeArray}
use xbyak.CodeArray.Emit.{IsValid}
use xbyak.CodeArray.Patch.{read_word}
use xbyak.LabelTable.{JmpLabel, find}
use xbyak.LabelTable.Target.{IsField, Lands, Patched}

module _ {K : Type 0} where
  -- The fields of the jumps, the last one first, lie in the code and do not overlap.
  abbrev pub Below : ℕ → List (K × JmpLabel) → Type 0
  Below limit [] = Unit
  Below limit ((k, jmp) ∷ t) = IsField limit jmp × Below (jmp.end_of_jmp - jmp.jmp_size) t

  pub Below-weaken : (m n : ℕ) (t : List (K × JmpLabel)) → m ≤ n → Below m t → Below n t
  Below-weaken m n [] h b = tt
  Below-weaken m n ((k, jmp) ∷ t) h (f, b) = (
    record {
      sized = f.sized;
      starts = f.starts;
      ends = omega (arith, f.ends);
      relative = f.relative;
      no_disp = f.no_disp;
    },
    b,
  )

-- `c'` is the buffer `c` with other bytes, the same from an offset on.
pub record Frame (limit : ℕ) (c c' : CodeArray) : Type 0 where
  pub valid : IsValid c'
  pub above : (j n : ℕ) → limit ≤ j → read_word c'.bytes j n ≡ read_word c.bytes j n
  pub same_size : c'.size ≡ c.size
  pub same_max_size : c'.max_size ≡ c.max_size
  pub same_type : c'.type_ ≡ c.type_

pub Frame-trans : (m n : ℕ) {a b c : CodeArray} → m ≤ n → Frame n a b → Frame m b c → Frame n a c
Frame-trans m n le p q = record {
  valid = q.valid;
  above = λ j k h. q.above j k (omega arith) ∙ p.above j k h;
  same_size = q.same_size ∙ p.same_size;
  same_max_size = q.same_max_size ∙ p.same_max_size;
  same_type = q.same_type ∙ p.same_type;
}

pub Frame-weaken : (m n : ℕ) {a b : CodeArray} → m ≤ n → Frame m a b → Frame n a b
Frame-weaken m n le p = record {
  valid = p.valid;
  above = λ j k h. p.above j k (omega arith);
  same_size = p.same_size;
  same_max_size = p.same_max_size;
  same_type = p.same_type;
}

pub Patched-Frame :
    (addr limit : ℕ) (jmp : JmpLabel) {a b : CodeArray}
    → IsField limit jmp
    → Patched addr jmp a b
    → Frame limit a b
Patched-Frame addr limit jmp f p = record {
  valid = p.rewritten.valid;
  above = λ j k h. p.rewritten.outside j k (inr (omega (arith, f.starts, f.ends)));
  same_size = p.rewritten.same_size;
  same_max_size = p.rewritten.same_max_size;
  same_type = p.rewritten.same_type;
}

-- A jump whose field lies in a part that is the same lands where it did.
pub Lands-same :
    (jmp : JmpLabel) (target : ℕ) (c c' : CodeArray)
    → read_word c'.bytes (jmp.end_of_jmp - jmp.jmp_size) jmp.jmp_size
      ≡ read_word c.bytes (jmp.end_of_jmp - jmp.jmp_size) jmp.jmp_size
    → Lands c jmp target
    → Lands c' jmp target
Lands-same jmp target c c' e h = rw e h

module _ {K V : Type 0} (eqk : K → K → Bool) (offset : V → ℕ) where
  -- Each jump of a trace is either in the table of those that wait, or its label is defined and
  -- it lands there.
  pub data Tracks (defs : List (K × V)) (c : CodeArray)
      : List (K × JmpLabel) → List (K × JmpLabel) → Type 0 where
    start : Tracks defs c [] []
    waits :
        {u t : List (K × JmpLabel)} (k : K) (jmp : JmpLabel)
        → Tracks defs c u t
        → Tracks defs c ((k, jmp) ∷ u) ((k, jmp) ∷ t)
    landed :
        {u t : List (K × JmpLabel)} (k : K) (jmp : JmpLabel) (v : V)
        → find eqk k defs ≡ some v
        → Lands c jmp (offset v)
        → Tracks defs c u t
        → Tracks defs c u ((k, jmp) ∷ t)

  -- Bytes that change outside of the fields leave the trace as it is.
  pub Tracks-same :
      {defs : List (K × V)} {c : CodeArray} {u t : List (K × JmpLabel)} (c' : CodeArray) (limit : ℕ)
      → Below limit t
      → ((j n : ℕ) → j + n ≤ limit → read_word c'.bytes j n ≡ read_word c.bytes j n)
      → Tracks defs c u t
      → Tracks defs c' u t
  Tracks-same c' limit b same start = start
  Tracks-same c' limit b same (waits k jmp r) = waits k jmp (
      Tracks-same c' (jmp.end_of_jmp - jmp.jmp_size) b.1
        (λ j n h. same j n (omega (arith, b.0.ends))) r)
  Tracks-same {c} c' limit b same (landed k jmp v e l r) =
      landed k jmp v e
        (Lands-same jmp (offset v) c c' (same _ _ (omega (arith, b.0.ends, b.0.starts))) l)
        (Tracks-same c' (jmp.end_of_jmp - jmp.jmp_size) b.1
          (λ j n h. same j n (omega (arith, b.0.ends))) r)
