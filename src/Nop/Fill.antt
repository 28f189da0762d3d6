-- ===== src/Nop/Fill.antt =====
-- What `nop` appends, in a buffer that does not grow.
use xbyak.Prelude.{
  ℕ, zero, suc, ◌+◌, ◌-◌, ◌≤◌, ◌<◌, ◌≡◌, refl, ◌∙◌, false, inl, inr, arith, min, ◌==◌, ==_iff,
  if◌then◌else◌, List, [], ◌∷◌, ◌++◌, length, length-append, length-replicate, replicate,
  all_below_sound, Bool-cases,
}
use xbyak.Err.{ok, OnOk, OnOk-map, OnOk-mono, OnOk-ok}
use xbyak.CodeArray.{CodeArray, Host, db, db_seq, is_auto_grow}
use xbyak.CodeArray.Emit.{IsValid, Appends, Appends-refl, Appends-trans, db_seq-fits}
use xbyak.Nop.{nop_row, row_count, nop_loop, nop}

-- A sequence of whole instructions of the table, of `n` bytes at most each.
pub data Nops (n : ℕ) : List ℕ → Type 0 where
  no_more : Nops n []
  then_row : {bs : List ℕ} (len : ℕ) → 0 < len → len ≤ n → Nops n bs → Nops n (nop_row len ++ bs)

length-nop_row : (i : ℕ) → i < 15 → length (nop_row (suc i)) ≡ suc i
length-nop_row i below =
    (==_iff (length (nop_row (suc i))) (suc i)).0
      (all_below_sound 15 (λ j. length (nop_row (suc j)) == suc j) i refl below)

length-nop_row_pos : (len : ℕ) → 0 < len → len ≤ 15 → length (nop_row len) ≡ len
length-nop_row_pos zero pos small = absurd (omega arith)
length-nop_row_pos (suc i) pos small = length-nop_row i (omega arith)

-- The buffer after `size` bytes of nops, none longer than `n`.
abbrev pub Filled : ℕ → ℕ → CodeArray → CodeArray → Type 0
Filled n size c c' =
    (bs : List ℕ) × Nops n bs
    × (length bs ≡ size)
    × Appends c bs c'
    × (c'.max_size ≡ c.max_size)
    × (c'.top ≡ c.top)

pub nothing : (n : ℕ) {c : CodeArray} → IsValid c → Filled n 0 c c
nothing n v = ([], no_more, refl, Appends-refl v, refl, refl)

module _ (h : Host) where
  db-same_top :
      (b : ℕ) (c : CodeArray)
      → is_auto_grow c ≡ false
      → OnOk (λ c'. (c'.top ≡ c.top) × (is_auto_grow c' ≡ false)) (db h b c)
  unfolding db
  db-same_top b c fixed = ground (arith, fixed)

  pub db_seq-same_top :
      (bs : List ℕ) (c : CodeArray)
      → is_auto_grow c ≡ false
      → OnOk (λ c'. c'.top ≡ c.top) (db_seq h bs c)
  unfolding db_seq
  db_seq-same_top [] c fixed = refl
  db_seq-same_top (b ∷ bs) c fixed =
      OnOk-map (λ c'. (c'.top ≡ c.top) × (is_auto_grow c' ≡ false)) (λ c'. c'.top ≡ c.top)
        (db h b c) (db_seq h bs) (db-same_top b c fixed)
        λ c' (same, still).
          OnOk-mono (λ q. q.top ≡ c'.top) (λ q. q.top ≡ c.top) (db_seq h bs c') (λ q e. e ∙ same)
            (db_seq-same_top bs c' still)

  -- One call of `db` with room for its bytes.
  fits :
      (bs : List ℕ) (c : CodeArray)
      → IsValid c
      → is_auto_grow c ≡ false
      → c.size + length bs ≤ c.max_size
      → (c' : CodeArray) × (db_seq h bs c ≡ ok c')
        × Appends c bs c'
        × (c'.max_size ≡ c.max_size)
        × (c'.top ≡ c.top)
  fits bs c v fixed room =
      let (c', run, a, same) = db_seq-fits h bs c v room in
      (
        c',
        run,
        a,
        same,
        OnOk-ok (λ q. q.top ≡ c.top) (db_seq h bs c) (db_seq-same_top bs c fixed) run,
      )

  Filled-trans :
      (n len size total : ℕ) {a b c : CodeArray}
      → 0 < len
      → len ≤ n
      → n ≤ 15
      → total ≡ len + size
      → Appends a (nop_row len) b × (b.max_size ≡ a.max_size) × (b.top ≡ a.top)
      → Filled n size b c
      → Filled n total a c
  Filled-trans n len size total pos small table whole (p, room, top)
        (bs, nops, count, q, room', top') =
      (
        nop_row len ++ bs,
        then_row len pos small nops,
        omega (
          arith,
          length-append (nop_row len) bs,
          length-nop_row_pos len pos (omega arith),
          count,
          whole,
        ),
        Appends-trans (nop_row len) bs p q,
        room' ∙ room,
        top' ∙ top,
      )

  nop_loop-Filled :
      (n fuel size : ℕ) (c : CodeArray)
      → 0 < n
      → n ≤ 15
      → size ≤ fuel
      → IsValid c
      → is_auto_grow c ≡ false
      → c.size + size ≤ c.max_size
      → (c' : CodeArray) × (nop_loop h n fuel size c ≡ ok c') × Filled n size c c'
  unfolding nop_loop
  nop_loop-Filled n zero zero c pos table enough v fixed room = (c, refl, nothing n v)
  nop_loop-Filled n zero (suc m) c pos table enough v fixed room = absurd (omega arith)
  nop_loop-Filled n (suc fuel) zero c pos table enough v fixed room = (c, refl, nothing n v)
  nop_loop-Filled n (suc fuel) (suc m) c pos table enough v fixed room =
      let len : ℕ = min n (suc m) in
      let row : length (nop_row len) ≡ len = length-nop_row_pos len (omega arith) (omega arith) in
      let (c1, run, a, same, top) = fits (nop_row len) c v fixed (omega (arith, row)) in
      let (c', rest, filled) =
        nop_loop-Filled n fuel (suc m - len) c1 pos table (omega arith) a.valid
          (ground (arith, a.same_type)) (omega (arith, a.size_grows, row, same)) in
      (
        c',
        rw run rest,
        Filled-trans n len (suc m - len) (suc m) (omega arith) (omega arith) table (omega arith)
            (a, same, top) filled,
      )

  pub replicate-Nops : (n size : ℕ) → 0 < n → Nops n (replicate size 0x90)
  replicate-Nops n zero pos = no_more
  replicate-Nops n (suc size) pos =
      then_row 1 (omega arith) (omega arith) (replicate-Nops n size pos)

  single_bytes : (size : ℕ) → length (replicate {A = ℕ} size 0x90) ≡ size
  single_bytes size = length-replicate {A = ℕ} size 0x90

  -- In a buffer that does not grow and has room for `size` more bytes, `nop` returns, and it has
  -- appended exactly `size` bytes, that are whole rows of the table: rows of one byte if
  -- `useMultiByteNop` is 0, of up to 15 bytes if it is 2, and else of up to 9 bytes.
  pub nop-Filled :
      (size multi : ℕ) (c : CodeArray)
      → IsValid c
      → is_auto_grow c ≡ false
      → c.size + size ≤ c.max_size
      → (c' : CodeArray) × (nop h size multi c ≡ ok c')
        × Filled (if multi == 0 then 1 else row_count multi) size c c'
  unfolding nop
  nop-Filled size multi c v fixed room = elim (Bool-cases (multi == 0)) [
    | inl single ↦ rw single (
        let (c', run, a, same, top) =
          fits (replicate size 0x90) c v fixed (omega (arith, single_bytes size)) in
        (
          c',
          run,
          (
            replicate size 0x90,
            replicate-Nops 1 size (omega arith),
            single_bytes size,
            a,
            same,
            top,
          ),
        ))
    | inr several ↦ rw several (
        nop_loop-Filled (row_count multi) size size c (ground arith) (ground arith) (omega arith) v
          fixed room)
  ]
