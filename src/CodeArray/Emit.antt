-- ===== src/CodeArray/Emit.antt =====
-- What the `db` family appends to the buffer.
use mathlib.Core.Logic.{◌⊎◌, inl, inr}
use native.Mathlib.Decide.{dec_lt}
use mathlib.Core.List.{append_assoc, append-nil, map-append}
use xbyak.Prelude.{
  ℕ, ◌+◌, ◌≤◌, ◌<◌, ◌≡◌, ◌≢◌, refl, ◌∙◌, sym, false, List, [], ◌∷◌, ◌++◌, map, arith, length,
  length-set, length-append, take, take-set-suc, u8,
}
use xbyak.Err.{OnOk, ErrorCode, ok, err, OnOk}
use xbyak.CodeArray.{CodeArray, Host, put_byte, db, db_seq, is_auto_grow}

pub record IsValid (c : CodeArray) : Type 0 where
  pub allocated : length c.bytes ≡ c.max_size
  pub within : c.size ≤ c.max_size
  pub present : c.top ≢ 0

-- The code written so far.
abbrev pub code : CodeArray → List ℕ
code c = take c.size c.bytes

-- `c'` is `c` with more code behind, nothing else that the code can read has changed but the place
-- of the buffer.
pub record Appends (c : CodeArray) (bs : List ℕ) (c' : CodeArray) : Type 0 where
  pub valid : IsValid c'
  pub code_grows : code c' ≡ code c ++ map u8 bs
  pub size_grows : c'.size ≡ c.size + length bs
  pub same_type : c'.type_ ≡ c.type_
  pub same_list : c'.addr_info_list ≡ c.addr_info_list

pub put_byte-IsValid :
    (b : ℕ) {c : CodeArray} → IsValid c → c.size < c.max_size → IsValid (put_byte b c)
put_byte-IsValid b {c} v room = record {
  allocated = length-set c.bytes c.size (u8 b) ∙ v.allocated;
  within = omega arith;
  present = v.present;
}

pub code-put_byte :
    (b : ℕ) {c : CodeArray}
    → IsValid c
    → c.size < c.max_size
    → code (put_byte b c) ≡ code c ++ u8 b ∷ []
code-put_byte b {c} v room = take-set-suc c.size c.bytes (u8 b) (omega (arith, v.allocated))

pub put_byte-Appends :
    (b : ℕ) {c : CodeArray} → IsValid c → c.size < c.max_size → Appends c (b ∷ []) (put_byte b c)
put_byte-Appends b v room = record {
  valid = put_byte-IsValid b v room;
  code_grows = code-put_byte b v room;
  size_grows = omega arith;
  same_type = refl;
  same_list = refl;
}

pub Appends-refl : {c : CodeArray} → IsValid c → Appends c [] c
Appends-refl v = record {
  valid = v;
  code_grows = sym (append-nil _);
  size_grows = omega arith;
  same_type = refl;
  same_list = refl;
}

pub Appends-trans :
    (bs ds : List ℕ) {a b c : CodeArray} → Appends a bs b → Appends b ds c → Appends a (bs ++ ds) c
Appends-trans bs ds p q = record {
  valid = q.valid;
  code_grows = simp (q.code_grows, p.code_grows, map-append, append_assoc);
  size_grows = omega (arith, p.size_grows, q.size_grows, length-append bs ds);
  same_type = q.same_type ∙ p.same_type;
  same_list = q.same_list ∙ p.same_list;
}

module _ (h : Host) where
  pub db_room :
      (b : ℕ) {c : CodeArray} → IsValid c → c.size < c.max_size → db h b c ≡ ok (put_byte b c)
  unfolding db
  db_room b v room = ground (arith, v.present)

  db_full :
      (b : ℕ) (c : CodeArray)
      → is_auto_grow c ≡ false
      → c.max_size ≤ c.size
      → db h b c ≡ err ErrorCode.err_code_is_too_big
  unfolding db
  db_full b c fixed full = ground arith

  pub db_seq-fits :
      (bs : List ℕ) (c : CodeArray)
      → IsValid c
      → c.size + length bs ≤ c.max_size
      → (c' : CodeArray) × (db_seq h bs c ≡ ok c') × Appends c bs c' × (c'.max_size ≡ c.max_size)
  unfolding db_seq
  db_seq-fits [] c v room = (c, refl, Appends-refl v, refl)
  db_seq-fits (b ∷ bs) c v room =
      let here : Appends c (b ∷ []) (put_byte b c) = put_byte-Appends b v (omega arith) in
      let (c', runs, rest, same) = db_seq-fits bs (put_byte b c) here.valid (omega arith) in
      (c', rw (db_room b v (omega arith)) runs, Appends-trans (b ∷ []) bs here rest, same)

  db_seq-overflows :
      (bs : List ℕ) (c : CodeArray)
      → IsValid c
      → is_auto_grow c ≡ false
      → c.max_size < c.size + length bs
      → db_seq h bs c ≡ err ErrorCode.err_code_is_too_big
  unfolding db_seq
  db_seq-overflows [] c v fixed over = absurd (omega (arith, v.within))
  db_seq-overflows (b ∷ bs) c v fixed over = elim (dec_lt c.size c.max_size) [
    | yes room ↦
        rw (db_room b v room)
          (db_seq-overflows bs (put_byte b c) (put_byte-IsValid b v room) fixed (omega arith))
    | no full ↦ rw (db_full b c fixed (omega arith))
  ]

  -- In a buffer that does not grow, the bytes are appended and nothing else changes if they fit,
  -- and otherwise the call fails with ERR_CODE_IS_TOO_BIG.
  pub db_seq-fixed :
      (bs : List ℕ) (c : CodeArray)
      → IsValid c
      → is_auto_grow c ≡ false
      → ((c.size + length bs ≤ c.max_size)
          × ((c' : CodeArray) × (db_seq h bs c ≡ ok c')
              × Appends c bs c'
              × (c'.max_size ≡ c.max_size)))
        ⊎ ((c.max_size < c.size + length bs) × (db_seq h bs c ≡ err ErrorCode.err_code_is_too_big))
  db_seq-fixed bs c v fixed = elim (dec_lt c.max_size (c.size + length bs)) [
    | yes over ↦ inr (over, db_seq-overflows bs c v fixed over)
    | no fits ↦ inl (omega arith, db_seq-fits bs c v (omega arith))
  ]

  -- The same as a condition on what the call returns.
  pub db_seq-OnOk :
      (bs : List ℕ) (c : CodeArray)
      → IsValid c
      → is_auto_grow c ≡ false
      → OnOk (λ c'. Appends c bs c' × (c'.max_size ≡ c.max_size)) (db_seq h bs c)
  db_seq-OnOk bs c v fixed = elim (db_seq-fixed bs c v fixed) [
    | inl (_, (c', e, r, same)) ↦ rw e (r, same)
    | inr (_, e) ↦ rw e tt
  ]
