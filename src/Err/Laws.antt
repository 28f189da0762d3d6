-- ===== src/Err/Laws.antt =====
-- The texts of the exceptions.
use Prim.Native.String.{String}
use xbyak.Prelude.{ℕ, ◌≡◌, some, arith, get_elem?, get_elem?-lt, if◌then◌else◌, ltb, refl}
use xbyak.Prelude.Int.{ℤ, pos, negsuc}
use xbyak.Err.{code_of, err_tbl, make_error, what, convert_error_to_string}

-- Where the text of the exception made from a number stands: at the number itself if that is a
-- code, and otherwise at the last entry.
abbrev pub text_index : ℤ → ℕ
text_index (negsuc n) = 56
text_index (pos n) = if ltb 56 n then 56 else n

-- `what` of the exception made from any number, negative or too large ones too, is the entry of
-- the table at the number's place: the table is never read out of range.
pub what-make_error :
    (e : ℤ)
    → (s : String) × (get_elem? err_tbl (text_index e) ≡ some s) × (what (make_error e) ≡ some s)
unfolding what make_error convert_error_to_string code_of
what-make_error (negsuc n) = ("internal error", refl, refl)
what-make_error (pos n) =
    let (s, at) = get_elem?-lt err_tbl (text_index (pos n)) (ground arith) in
    (s, at, ground (arith, at))
