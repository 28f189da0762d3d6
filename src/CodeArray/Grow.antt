-- ===== src/CodeArray/Grow.antt =====
-- AutoGrow: `growMemory`, and the `db` family in a buffer that grows.
use mathlib.Core.List.{append-nil}
use native.Mathlib.Decide.{dec_lt}
use xbyak.Prelude.{
  ℕ, zero, suc, ◌+◌, ◌-◌, ◌≤◌, ◌<◌, ◌≡◌, ◌≢◌, refl, ◌∙◌, sym, true, List, [], ◌∷◌, ◌++◌, arith,
  length, length-append, take, take-take_append, length-take_le, u64, max, ◌^◌, ◌*◌,
}
use xbyak.Err.{ok}
use xbyak.CodeArray.{
  CodeArray, Host, put_byte, db, db_seq, grow_memory, alloc, block_bytes, is_auto_grow,
  default_max_code_size,
}
use xbyak.CodeArray.Emit.{IsValid, Appends, put_byte-Appends, Appends-refl, Appends-trans, db_room}

-- The system always has memory.
abbrev pub NeverFails : Host → Type 0
NeverFails h = (k size alignment : ℕ) → h.aligned_malloc k size alignment ≢ 0

length-block_bytes : (f : ℕ → ℕ) (n i : ℕ) → length (block_bytes f n i) ≡ n
length-block_bytes f zero i = refl
length-block_bytes f (suc n) i = omega (arith, length-block_bytes f n (i + 1))

module _ (h : Host) (memory : NeverFails h) where
  abbrev grown : CodeArray → CodeArray
  grown c =
      let new_size = max default_max_code_size (u64 (c.max_size * 2)) in
      record c {
        top = alloc h c.requests new_size;
        bytes =
            take c.size c.bytes ++ block_bytes (h.initial c.requests) (new_size - c.size) c.size;
        max_size = new_size;
        requests = c.requests + 1;
      }

  alloc-ne-zero : (k size : ℕ) → alloc h k size ≢ 0
  unfolding alloc
  alloc-ne-zero k size = memory _ _ _

  grow_memory-grown : (c : CodeArray) → grow_memory h c ≡ ok (grown c)
  unfolding grow_memory
  grow_memory-grown c =
      ground (arith, alloc-ne-zero c.requests (max default_max_code_size (u64 (c.max_size * 2))))

  grown-larger :
      (c : CodeArray)
      → c.size < 2 ^ 62
      → c.max_size ≤ c.size
      → IsValid c
      → c.size < (grown c).max_size
  grown-larger c small full v = omega (arith, v.within)

  length-grown :
      (c : CodeArray)
      → c.size < 2 ^ 62
      → c.max_size ≤ c.size
      → IsValid c
      → length (grown c).bytes ≡ (grown c).max_size
  length-grown c small full v = omega (
    arith,
    length-append (take c.size c.bytes)
        (block_bytes (h.initial c.requests) ((grown c).max_size - c.size) c.size),
    length-take_le c.size c.bytes (omega (arith, v.allocated, v.within)),
    length-block_bytes (h.initial c.requests) ((grown c).max_size - c.size) c.size,
    grown-larger c small full v,
  )

  grown-Appends :
      (c : CodeArray) → IsValid c → c.size < 2 ^ 62 → c.max_size ≤ c.size → Appends c [] (grown c)
  grown-Appends c v small full = record {
    valid = record {
      allocated = length-grown c small full v;
      within = omega (arith, v.within);
      present = alloc-ne-zero _ _;
    };
    code_grows =
        take-take_append c.size c.bytes _ (omega (arith, v.allocated, v.within))
        ∙ sym (append-nil _);
    size_grows = omega arith;
    same_type = refl;
    same_list = refl;
  }

  -- One byte, whether the buffer has to grow or not.
  db-Appends :
      (b : ℕ) (c : CodeArray)
      → IsValid c
      → is_auto_grow c ≡ true
      → c.size < 2 ^ 62
      → (c' : CodeArray) × (db h b c ≡ ok c') × Appends c (b ∷ []) c'
  db-Appends b c v auto small = elim (dec_lt c.size c.max_size) [
    | yes room ↦ (put_byte b c, db_room h b v room, put_byte-Appends b v room)
    | no full ↦
        (let step = grown-Appends c v small (omega arith) in
          let room = grown-larger c small (omega arith) v in
          (
            put_byte b (grown c),
            grows (omega arith) step.valid,
            Appends-trans [] (b ∷ []) step (put_byte-Appends b step.valid room),
          ))
  ]
    where
      grows : c.max_size ≤ c.size → IsValid (grown c) → db h b c ≡ ok (put_byte b (grown c))
      grows full w = unfold db in ground (arith, grow_memory-grown c, w.present)

  -- With AutoGrow, a system that always has memory, and less than 2 ^ 62 bytes of code, every
  -- sequence of bytes is appended, and the code before it is kept when the buffer moves.
  pub db_seq-auto_grow :
      (bs : List ℕ) (c : CodeArray)
      → IsValid c
      → is_auto_grow c ≡ true
      → c.size + length bs < 2 ^ 62
      → (c' : CodeArray) × (db_seq h bs c ≡ ok c') × Appends c bs c'
  unfolding db_seq
  db_seq-auto_grow [] c v auto small = (c, refl, Appends-refl v)
  db_seq-auto_grow (b ∷ bs) c v auto small =
      let (d, first, here) = db-Appends b c v auto (omega arith) in
      let (c', runs, rest) =
        db_seq-auto_grow bs d here.valid (ground (arith, here.same_type))
          (omega (arith, here.size_grows)) in
      (c', rw first runs, Appends-trans (b ∷ []) bs here rest)
