-- ===== src/Jump/Site.antt =====
-- The bytes of a jump to a label that is already there.
use xbyak.Prelude.{
  ◌∙◌, ap, ◌⊎◌, Bool-cases, ℕ, ◌+◌, ◌-◌, ◌%◌, ◌^◌, ◌≤◌, ◌<◌, ◌≡◌, refl, inl, inr, true, false, not,
  ◌&&◌, List, [], ◌∷◌, ◌++◌, arith, map, if◌then◌else◌, u8, u32, u64, sub32, sub64, length, ◌==◌,
}
use xbyak.Err.{ErrorCode, ok, err, OnOk}
use xbyak.CodeArray.{le_bytes, CodeArray, is_in_disp8, las_is}
use xbyak.CodeArray.Emit.{IsValid, Appends}
use xbyak.CodeArray.Patch.{read_word}
use xbyak.CodeArray.Read.{read_word-new}
use xbyak.LabelTable.{JmpLabel}
use xbyak.LabelTable.Target.{Lands, sign_extend, IsField}
use xbyak.Jump.{LabelType, make_jmp, long_header, is_short, is_t_near}

-- The jump that stands at the end of the code `c'`, which was `c` before it: its field has one
-- byte if the jump has two, and otherwise four.
abbrev pub site : CodeArray → CodeArray → JmpLabel
site c c' = record {
  end_of_jmp = c'.size;
  jmp_size = if c'.size == c.size + 2 then 1 else 4;
  mode = las_is;
  disp = 0;
}

-- What the bytes of a jump promise when they are appended at the end of the code.
abbrev pub Reaches : CodeArray → ℕ → List ℕ → Type 0
Reaches c target bs =
    (c' : CodeArray)
    → IsValid c
    → Appends c bs c'
    → IsField c'.size (site c c')
      × (c.size ≤ c'.size - (site c c').jmp_size)
      × Lands c' (site c c') target

field_size : ℕ → ℕ
field_size n = if n == 2 then 1 else 4

site_size : (c c' : CodeArray) (n : ℕ) → c'.size ≡ c.size + n → (site c c').jmp_size ≡ field_size n
unfolding field_size
site_size c c' n h = ground arith

land :
    (mem : List ℕ) (end s n start value target : ℕ)
    → s ≡ n
    → end - n ≡ start
    → read_word mem start n ≡ value
    → u64 (end + sign_extend n value) ≡ target
    → u64 (end + sign_extend s (read_word mem (end - s) s)) ≡ target
land mem end s n start value target p q r goal = rw (p, q, r) goal

reaches :
    (c : CodeArray) (target : ℕ) (bs : List ℕ) (header n value : ℕ)
    → length bs ≡ header + n
    → (n ≡ 1) ⊎ (n ≡ 4)
    → field_size (header + n) ≡ n
    → read_word (map u8 bs) header n ≡ value
    → u64 (c.size + (header + n) + sign_extend n value) ≡ target
    → Reaches c target bs
reaches c target bs header n value len sized field word goal c' v a =
    let grows : c'.size ≡ c.size + (header + n) = a.size_grows ∙ ap (λ (k : ℕ). c.size + k) len in
    let size : (site c c').jmp_size ≡ n = site_size c c' (header + n) grows ∙ field in
    let read : read_word c'.bytes (c.size + header) n ≡ value =
      read_word-new bs v a n header (omega arith) ∙ word in
    (
      record {
        sized = rw size sized;
        starts = omega (arith, size, grows);
        ends = omega arith;
        relative = refl;
        no_disp = refl;
      },
      omega (arith, size, grows),
      land c'.bytes c'.size (site c c').jmp_size n (c.size + header) value target size (omega arith)
          read (rw grows goal),
    )

short_Reaches :
    (target disp short : ℕ) (c : CodeArray)
    → target < 2 ^ 31
    → c.size < 2 ^ 31 - 16
    → disp ≡ u32 (sub64 target c.size)
    → is_in_disp8 (sub32 disp 2) ≡ true
    → Reaches c target (short ∷ sub32 disp 2 ∷ [])
unfolding field_size
short_Reaches target disp short c low small e near =
    reaches c target (short ∷ sub32 disp 2 ∷ []) 1 1 (sub32 disp 2 % 256) refl (inl refl) refl
      (omega arith) (ground arith)

long_Reaches :
    (target disp long pref : ℕ) (c : CodeArray)
    → target < 2 ^ 31
    → c.size < 2 ^ 31 - 16
    → disp ≡ u32 (sub64 target c.size)
    → Reaches c target
        (long_header long pref ++ le_bytes 4 (sub32 disp ((if pref == 0 then 1 else 2) + 4)))
unfolding field_size
long_Reaches target disp long pref c low small e = elim (Bool-cases (pref == 0)) [
  | inl none ↦
      rw none
        (reaches c target _ 1 4 (sub32 disp 5) refl (inr refl) refl (omega arith) (ground arith))
  | inr some ↦
      rw some
        (reaches c target _ 2 4 (sub32 disp 6) refl (inr refl) refl (omega arith) (ground arith))
]

-- A jump to a target that is known goes there, whether it is made short or long.
pub make_jmp-Reaches :
    (target disp : ℕ) (type : LabelType) (short long pref : ℕ) (c : CodeArray)
    → target < 2 ^ 31
    → c.size < 2 ^ 31 - 16
    → disp ≡ u32 (sub64 target c.size)
    → OnOk (Reaches c target) (make_jmp disp type short long pref)
unfolding make_jmp
make_jmp-Reaches target disp type short long pref c low small e =
    elim (Bool-cases (not (is_t_near type) && is_in_disp8 (sub32 disp 2))) [
      | inl near ↦ rw near (short_Reaches target disp short c low small e (ground (arith, near)))
      | inr far ↦
          rw far
            (elim (is_short type)
              as (λ b. OnOk (Reaches c target) (
                if b
                then err ErrorCode.err_label_is_too_far
                else ok (
                    long_header long pref
                    ++ le_bytes 4 (sub32 disp ((if pref == 0 then 1 else 2) + 4))))) [
                      | true ↦ tt
                      | false ↦ long_Reaches target disp long pref c low small e
                    ])
    ]
