-- ===== src/ModRm/RoundTrip.antt =====
-- The bytes of `setSIB`, read back by the decoder.
use xbyak.Prelude.{
  ℕ, ◌%◌, ◌^◌, ◌<◌, ◌≡◌, ◌≢◌, refl, ap, ◌∙◌, inl, inr, Bool-cases, arith, Bool, true, false, not,
  ◌&&◌, ◌||◌, ◌==◌, if◌then◌else◌, List, [], ◌∷◌, ◌++◌, Option, none, some, u32,
}
use xbyak.Err.{ok}
use xbyak.Operand.{get_idx}
use xbyak.RegExp.{RegExp, has_bit}
use xbyak.ModRm.{choose_mod, sib_header, sib_bytes, disp_bytes, check_disp, mod_rm, scale_bits}
use xbyak.ModRm.Decode.{
  Decoded, decode, decode_sib, read_disp, Written, IsUnit, near, choose_mod-Written, fields, Reads,
  IsScale, scale_bits_lem, decode-plain, decode-with_sib, decode_sib-base, decode_sib-no_base,
}

-- What the constructors and `verify` ensure of the index, and `x`: the number 4 is an index if it is
-- that of a vector register, and a prefix holds the higher bits of a number from 8 on.
pub record Indexed (x : Bool) (e : RegExp) : Type 0 where
  pub scale : has_bit e.index ≡ true → IsScale e.scale
  pub four : has_bit e.index ≡ true → get_idx e.index % 8 ≡ 4 → x ≡ true
  pub prefix : has_bit e.index ≡ false → x ≡ false

module _ (e : RegExp) (reg m : ℕ) where
  header-plain :
      has_bit e.index ≡ false
      → has_bit e.base ≡ true
      → get_idx e.base % 8 ≢ 4
      → sib_header e reg m ≡ mod_rm m reg (get_idx e.base % 8) ∷ []
  unfolding sib_header
  header-plain index base low = ground (arith, index, base, low)

  abbrev base_field : ℕ
  base_field = if has_bit e.base then get_idx e.base % 8 else 5

  abbrev index_field : ℕ
  index_field = if has_bit e.index then get_idx e.index % 8 else 4

  header-sib :
      (has_bit e.index || (get_idx e.base % 8 == 4 || not (has_bit e.base))) ≡ true
      → sib_header e reg m
        ≡ mod_rm m reg 4 ∷ mod_rm (scale_bits e.scale) index_field base_field ∷ []
  unfolding sib_header
  header-sib h = ground (arith, h)

  module _ (n : ℕ) (x : Bool) (ds : List ℕ) (i : Indexed x e) (small : m < 3)
      (base5 : m ≡ 0 → has_bit e.base ≡ true → get_idx e.base % 8 ≢ 5)
      (no_base0 : has_bit e.base ≡ false → m ≡ 0)
      (reads : read_disp n m (not (has_bit e.base)) ds ≡ some e.disp) where
    round_plain :
        has_bit e.index ≡ false
        → has_bit e.base ≡ true
        → get_idx e.base % 8 ≢ 4
        → decode n x (sib_header e reg m ++ ds) ≡ some (Reads e reg)
    round_plain index base low =
        let (high, mid, three) = fields m reg (get_idx e.base % 8) (omega arith) in
        ap (λ l. decode n x (l ++ ds)) (header-plain index base low)
        ∙ decode-plain n x (mod_rm m reg (get_idx e.base % 8)) m (reg % 8) (get_idx e.base % 8)
            e.disp ds high mid (omega (arith, three)) small low (λ z. base5 z base)
            (rw base at reads)
        ∙ rw (index, base) refl

    with_sib :
        (has_bit e.index || (get_idx e.base % 8 == 4 || not (has_bit e.base))) ≡ true
        → decode n x (sib_header e reg m ++ ds)
          ≡ decode_sib n x m (reg % 8) (mod_rm (scale_bits e.scale) index_field base_field) ds
    with_sib h =
        let (high, mid, low) = fields m reg 4 (omega arith) in
        ap (λ l. decode n x (l ++ ds)) (header-sib h)
        ∙ decode-with_sib n x (mod_rm m reg 4) (mod_rm (scale_bits e.scale) index_field base_field)
            m (reg % 8) ds high mid low small

    abbrev index_of : ℕ → ℕ → Option (ℕ × ℕ)
    index_of field scale = if field == 4 && not x then none else some (field, scale)

    index_lem :
        index_of index_field (2 ^ scale_bits e.scale)
        ≡ (if has_bit e.index then some (get_idx e.index % 8, e.scale) else none)
    index_lem = elim (Bool-cases (has_bit e.index)) [
      | inl there ↦
          rw (there, (scale_bits_lem e.scale (i.scale there)).1) (ground (arith, extended there))
      | inr absent ↦ rw absent (ground (arith, absent, i.prefix))
    ]
      where
        extended : has_bit e.index ≡ true → (get_idx e.index % 8 == 4 && not x) ≡ false
        extended there = ground (arith, i.four there)

    scale_small : scale_bits e.scale < 4
    scale_small = ground arith

    round_sib :
        (has_bit e.index || (get_idx e.base % 8 == 4 || not (has_bit e.base))) ≡ true
        → decode n x (sib_header e reg m ++ ds) ≡ some (Reads e reg)
    round_sib h =
        let s : ℕ = mod_rm (scale_bits e.scale) index_field base_field in
        let (high, mid, low) = fields (scale_bits e.scale) index_field base_field scale_small in
        with_sib h ∙ elim (Bool-cases (has_bit e.base)) [
          | inl base ↦
              decode_sib-base n x m (reg % 8) s index_field base_field (scale_bits e.scale) e.disp
                ds (low ∙ field_base) (mid ∙ field_index) high (λ z f. base5 z base (rw base at f))
                (rw base at reads)
              ∙ read_as (some base_field) (rw base refl)
          | inr none_there ↦ rw (no_base0 none_there) (
              decode_sib-no_base n x (reg % 8) s index_field (scale_bits e.scale) e.disp ds
                (low ∙ ground (arith, none_there)) (mid ∙ field_index) high
                (rw (none_there, no_base0 none_there) at reads)
              ∙ read_as none (rw none_there refl))
        ]
      where
        field_base : base_field % 8 ≡ base_field
        field_base = ground arith

        field_index : index_field % 8 ≡ index_field
        field_index = ground arith

        read_as :
            (o : Option ℕ)
            → o ≡ (if has_bit e.base then some (get_idx e.base % 8) else none)
            → ◌≡◌ {A = Option Decoded}
                (some (record {
                  reg = reg % 8;
                  base = o;
                  index = index_of index_field (2 ^ scale_bits e.scale);
                  disp = e.disp;
                }))
                (some (Reads e reg))
        read_as o same = rw (same, index_lem) refl

-- The bytes that `setSIB` writes for an address without a label: what the processor reads is the
-- base, the index and its scale, the displacement, in the units of `disp8N` where it is one byte,
-- and the register field, if the displacement is a signed word of 32 bits that passes the check of
-- `setSIB`, `disp8N` is 0 or a power of two up to 64, and an index has a scale of 1, 2, 4 or 8. The
-- numbers of the registers are those of the low three bits. The processor is told that 4 in the field
-- of the index is one where a prefix extends it or it is a vector register: an index without either
-- is not the register 4.
pub sib_bytes-Reads :
    (e : RegExp) (n reg : ℕ) (x : Bool)
    → e.label ≡ none
    → check_disp e ≡ ok tt
    → e.disp < 2 ^ 64
    → IsUnit n
    → Indexed x e
    → decode n x (sib_bytes e n reg) ≡ some (Reads e reg)
unfolding sib_bytes
sib_bytes-Reads e n reg x no_label checked word is_unit i =
    let p = choose_mod e n (u32 e.disp) in
    let w : Written e n p = choose_mod-Written e no_label (near e checked word) word n is_unit in
    elim (Bool-cases (has_bit e.index || (get_idx e.base % 8 == 4 || not (has_bit e.base)))) [
      | inl sib ↦ round_sib e reg p.0 n x (disp_bytes e p) i w.below w.base5 w.no_base w.reads sib
      | inr plain ↦
          round_plain e reg p.0 n x (disp_bytes e p) i w.below w.base5 w.no_base w.reads
            (ground (arith, plain)) (ground (arith, plain)) (ground (arith, plain))
    ]
