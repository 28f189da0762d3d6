-- ===== src/CodeArray.antt =====
-- xbyak/xbyak.h: `class CodeArray`, the buffer that the code is written to, its `Allocator` and
-- the list of addresses that AutoGrow fills in at the end. An object is a record, a method
-- returns the new one. `bytes` is the memory at `top`, of `max_size` bytes.
-- What the system supplies is a parameter (`Host`): the page size, the addresses and the first
-- contents of the blocks that `posix_memalign` hands out, and the answer of `mprotect`.

pub mod Emit
pub mod Grow
pub mod Patch
pub mod Read
use xbyak.Prelude.{
  ℕ, zero, suc, ◌+◌, ◌-◌, ◌*◌, ◌/◌, ◌%◌, ◌^◌, max, Bool, true, false, not, ◌&&◌, ◌||◌, ltb, leb,
  ◌==◌, if◌then◌else◌, List, [], ◌∷◌, ◌++◌, take, set, u8, u32, u64, sub64,
}
use xbyak.Err.{ErrorCode, Result, ok, err, throw_if, ◌>>=◌, ◌>>◌}

-- CodeArray::Type
pub data BufType : Type 0 where
  user_buf alloc_buf auto_grow : BufType

-- inner::LabelMode
pub data LabelMode : Type 0 where
  las_is labs ladd_top : LabelMode

-- CodeArray::ProtectMode
pub data ProtectMode : Type 0 where
  protect_rw protect_rwe protect_re : ProtectMode

pub record Host : Type 0 where
  pub page_size : ℕ
  -- The k-th request: its size and its alignment give an address, or 0.
  pub aligned_malloc : ℕ → ℕ → ℕ → ℕ
  -- The byte that the k-th block holds at an offset when it is handed out.
  pub initial : ℕ → ℕ → ℕ
  -- mprotect(address, size, mode) == 0
  pub mprotect : ℕ → ℕ → ProtectMode → Bool
  -- Allocator::useProtect
  pub use_protect : Bool

pub record AddrInfo : Type 0 where
  pub code_offset : ℕ
  pub jmp_addr : ℕ
  pub jmp_size : ℕ
  pub mode : LabelMode

pub record CodeArray : Type 0 where
  pub addr_info_list : List AddrInfo
  pub type_ : BufType
  pub max_size : ℕ
  pub top : ℕ
  pub bytes : List ℕ
  pub size : ℕ
  pub is_called_calc_jmp_address : Bool
  pub cur_mode : ProtectMode
  -- The number of blocks that were requested so far.
  pub requests : ℕ

abbrev pub default_max_code_size : ℕ
default_max_code_size = 4096

-- inner::IsInDisp8 and inner::IsInInt32, of a `uint32_t` and of a `uint64_t`.
abbrev pub is_in_disp8 : ℕ → Bool
is_in_disp8 x = leb 0xFFFFFF80 x || leb x 0x7F

abbrev pub is_in_int32 : ℕ → Bool
is_in_int32 x = leb 0xFFFFFFFF80000000 x || leb x 0x7FFFFFFF

-- inner::VerifyInInt32
unfoldable pub verify_in_int32 : ℕ → Result ℕ
verify_in_int32 x = do throw_if (not (is_in_int32 x)) ErrorCode.err_offset_is_too_big; ok (u32 x)

abbrev pub is_auto_grow : CodeArray → Bool
is_auto_grow c = elim (c.type_) [ auto_grow ↦ true | _ ↦ false ]

abbrev pub is_alloc_type : CodeArray → Bool
is_alloc_type c = elim (c.type_) [ user_buf ↦ false | _ ↦ true ]

-- AddrInfo::getVal
unfoldable pub get_val : AddrInfo → ℕ → Result ℕ
unfolding verify_in_int32
get_val a top =
    let disp : ℕ = elim (a.mode) [
      | ladd_top ↦ u64 (a.jmp_addr + top)
      | las_is ↦ a.jmp_addr
      | labs ↦ sub64 a.jmp_addr top
    ] in
    if a.jmp_size == 4 then verify_in_int32 disp else ok disp

-- The `n` low bytes of a word, the lowest first: `static_cast<uint8_t>(v >> (i * 8))`.
abbrev pub le_bytes : ℕ → ℕ → List ℕ
le_bytes zero v = []
le_bytes (suc n) v = u8 v ∷ le_bytes n (v / 256)

-- `for (i...) data[i] = ...`: the values are stored one after the other from an index on.
abbrev pub write_bytes : List ℕ → ℕ → List ℕ → List ℕ
write_bytes mem i [] = mem
write_bytes mem i (b ∷ bs) = write_bytes (set mem i b) (i + 1) bs

-- The bytes that a block holds from an offset on.
abbrev pub block_bytes : (ℕ → ℕ) → ℕ → ℕ → List ℕ
block_bytes f zero i = []
block_bytes f (suc n) i = f i ∷ block_bytes f n (i + 1)

-- The store at the end of `db(int)`.
abbrev pub put_byte : ℕ → CodeArray → CodeArray
put_byte code c = record c { bytes = set c.bytes c.size (u8 code); size = suc c.size }

module _ (h : Host) where
  -- Allocator::alloc: the size is rounded up to whole pages, a power of two.
  unfoldable pub alloc : ℕ → ℕ → ℕ
  alloc k size =
      let aligned_size_m1 = h.page_size - 1 in
      h.aligned_malloc k ((size + aligned_size_m1) / h.page_size * h.page_size) h.page_size

  unfoldable pub grow_memory : CodeArray → Result CodeArray
  unfolding alloc
  grow_memory c =
      let new_size = max default_max_code_size (u64 (c.max_size * 2)) in
      let new_top = alloc c.requests new_size in
      do
        throw_if (new_top == 0) ErrorCode.err_cant_alloc
        ok (record c {
          top = new_top;
          bytes =
              take c.size c.bytes ++ block_bytes (h.initial c.requests) (new_size - c.size) c.size;
          max_size = new_size;
          requests = c.requests + 1;
        })

  -- db(int)
  unfoldable pub db : ℕ → CodeArray → Result CodeArray
  unfolding grow_memory
  db code c = do
    c' ←
        (if leb c.max_size c.size
          then (if is_auto_grow c then grow_memory c else err ErrorCode.err_code_is_too_big)
          else ok c)
    throw_if (c'.top == 0) ErrorCode.err_cant_alloc
    ok (put_byte code c')

  -- db(const uint8_t*, size_t)
  unfoldable pub db_seq : List ℕ → CodeArray → Result CodeArray
  unfolding db
  db_seq [] c = ok c
  db_seq (b ∷ bs) c = db b c >>= db_seq bs

  -- db(uint64_t, size_t)
  unfoldable pub db_word : ℕ → ℕ → CodeArray → Result CodeArray
  unfolding db_seq
  db_word code code_size c = do
    throw_if (ltb 8 code_size) ErrorCode.err_bad_parameter
    db_seq (le_bytes code_size code) c

  -- dw, dd, dq
  unfoldable pub dw : ℕ → CodeArray → Result CodeArray
  unfolding db_word
  dw code = db_word code 2

  unfoldable pub dd : ℕ → CodeArray → Result CodeArray
  unfolding db_word
  dd code = db_word code 4

  unfoldable pub dq : ℕ → CodeArray → Result CodeArray
  unfolding db_word
  dq code = db_word code 8

  -- setProtectMode: `protect` rounds the address down to its page.
  unfoldable pub set_protect_mode : ProtectMode → Bool → CodeArray → Result (CodeArray × Bool)
  set_protect_mode mode throw_exception c =
      let round_addr = c.top / h.page_size * h.page_size in
      if h.mprotect round_addr (c.max_size + (c.top - round_addr)) mode
      then ok (record c { cur_mode = mode }, true)
      else if throw_exception
      then err ErrorCode.err_cant_protect
      else ok (c, false)

-- The second argument of the constructor: 0, AutoGrow, DontSetProtectRWE, or a buffer of the
-- user's, its address and what it holds.
pub data UserPtr : Type 0 where
  no_ptr auto_grow_ptr dont_set_protect_rwe : UserPtr
  user_ptr : ℕ → List ℕ → UserPtr

abbrev type_of : UserPtr → BufType
type_of no_ptr = alloc_buf
type_of auto_grow_ptr = auto_grow
type_of dont_set_protect_rwe = alloc_buf
type_of (user_ptr addr mem) = user_buf

-- The test that makes the constructor change the protection.
abbrev wants_rwe : UserPtr → Bool
wants_rwe no_ptr = true
wants_rwe _ = false

make_executable : Host → CodeArray → Result CodeArray
unfolding set_protect_mode
make_executable h c = do
  (c', done) ← set_protect_mode h protect_rwe false c
  throw_if (not done) ErrorCode.err_cant_protect
  ok c'

-- CodeArray(maxSize, userPtr)
unfoldable pub code_array : Host → ℕ → UserPtr → Result CodeArray
unfolding alloc make_executable
code_array h max_size p =
    let top : ℕ = elim p [ user_ptr addr mem ↦ addr | _ ↦ alloc h 0 (max max_size 1) ] in
    let c : CodeArray = record {
      addr_info_list = [];
      type_ = type_of p;
      max_size = max_size;
      top = top;
      bytes = elim p [ user_ptr addr mem ↦ mem | _ ↦ block_bytes (h.initial 0) max_size 0 ];
      size = 0;
      is_called_calc_jmp_address = false;
      cur_mode = protect_rw;
      requests = 1;
    } in
    do
      throw_if (ltb 0 max_size && top == 0) ErrorCode.err_cant_alloc
      if wants_rwe p && h.use_protect then make_executable h c else ok c

unfoldable pub reset_size : CodeArray → CodeArray
reset_size c = record c { size = 0; addr_info_list = []; is_called_calc_jmp_address = false }

unfoldable pub set_size : ℕ → CodeArray → Result CodeArray
set_size size c = do
  throw_if (ltb c.max_size size) ErrorCode.err_offset_is_too_big
  ok (record c { size = size })

-- rewrite(offset, disp, size)
unfoldable pub rewrite : ℕ → ℕ → ℕ → CodeArray → Result CodeArray
rewrite offset disp size c = do
  throw_if (leb c.max_size offset || ltb (c.max_size - offset) size) ErrorCode.err_offset_is_too_big
  throw_if (not (size == 1 || (size == 2 || (size == 4 || size == 8)))) ErrorCode.err_bad_parameter
  ok (record c { bytes = write_bytes c.bytes offset (le_bytes size disp) })

unfoldable pub save : ℕ → ℕ → ℕ → LabelMode → CodeArray → CodeArray
save offset val size mode c = record c {
  addr_info_list =
      c.addr_info_list
      ++ record { code_offset = offset; jmp_addr = val; jmp_size = size; mode = mode } ∷ [];
}

-- The loop of calcJmpAddress over the saved addresses.
unfoldable pub fill_addresses : List AddrInfo → CodeArray → Result CodeArray
unfolding get_val rewrite
fill_addresses [] c = ok c
fill_addresses (a ∷ rest) c = do
  disp ← get_val a c.top
  c' ← rewrite a.code_offset disp a.jmp_size c
  fill_addresses rest c'

unfoldable pub calc_jmp_address : CodeArray → Result CodeArray
unfolding fill_addresses
calc_jmp_address c = if c.is_called_calc_jmp_address then ok c else (do
  c' ← fill_addresses c.addr_info_list c
  ok (record c' { is_called_calc_jmp_address = true }))

-- getAlignedAddress, of a power of two: `(addr + n - 1) & ~(n - 1)`.
unfoldable pub get_aligned_address : ℕ → ℕ → ℕ
get_aligned_address addr aligned_size = (addr + aligned_size - 1) / aligned_size * aligned_size

-- getCurr
abbrev pub get_curr : CodeArray → ℕ
get_curr c = u64 (c.top + c.size)
