-- ===== src/Err.antt =====
-- xbyak/xbyak.h: the error codes, `ConvertErrorToString`, and the exception class `Error`.
-- `XBYAK_THROW` is the `err` of `Result`, the `do` blocks of the model run up to it.
mod Codes
mod Texts
pub mod Laws
use Prim.Native.String.{String}
use xbyak.Prelude.{
  ◌≡◌, refl, ℕ, Option, none, some, leb, ltb, get_elem?, if◌then◌else◌, Bool, true, false,
}
use xbyak.Prelude.Int.{ℤ, pos, negsuc}
pub use Texts.{err_tbl}
unfoldable pub use Codes.{code_of}
pub use Codes.*

-- What a call does: it throws a code, or returns.
pub data Result {ℓ} (A : Type ℓ) : Type ℓ where
  err : ErrorCode → Result A
  ok : A → Result A

-- `if (test) XBYAK_THROW(e)`.
abbrev pub throw_if : Bool → ErrorCode → Result (Unit {0})
throw_if false code = ok tt
throw_if true code = err code

infixl 5 ◌>>=◌
abbrev pub ◌>>=◌ {κ μ} : {B : Type κ} {C : Type μ} → Result B → (B → Result C) → Result C
err code >>= rest = err code
ok value >>= rest = rest value

infixl 5 ◌>>◌
abbrev pub ◌>>◌ {κ} : {B : Type κ} → Result (Unit {0}) → Result B → Result B
check >> rest = check >>= λ _. rest

-- Inversion of a successful bind.
pub >>=-ok_inv {κ μ} :
    {B : Type κ} {C : Type μ} (first : Result B) (rest : B → Result C) {c : C}
    → (first >>= rest) ≡ ok c
    → (b : B) × (first ≡ ok b) × (rest b ≡ ok c)
>>=-ok_inv (err code) rest runs = cc
>>=-ok_inv (ok b) rest runs = (b, refl, runs)

-- What holds of the value, if there is one.
abbrev pub OnOk {ℓ κ} : {A : Type ℓ} → (A → Type κ) → Result A → Type κ
OnOk P (ok a) = P a
OnOk P (err e) = Unit

pub OnOk-bind {ℓ κ μ} :
    {A : Type ℓ} {B : Type κ} (P : B → Type μ) (m : Result A) (f : A → Result B)
    → ((a : A) → m ≡ ok a → OnOk P (f a))
    → OnOk P (m >>= f)
OnOk-bind P (ok a) f h = h a refl
OnOk-bind P (err e) f h = tt

pub OnOk-map {ℓ κ μ ν} :
    {A : Type ℓ} {B : Type κ} (P : A → Type ν) (Q : B → Type μ) (m : Result A) (f : A → Result B)
    → OnOk P m
    → ((a : A) → P a → OnOk Q (f a))
    → OnOk Q (m >>= f)
OnOk-map P Q (ok a) f p h = h a p
OnOk-map P Q (err e) f p h = tt

pub OnOk-mono {ℓ κ μ} :
    {A : Type ℓ} (P : A → Type κ) (Q : A → Type μ) (m : Result A)
    → ((a : A) → P a → Q a)
    → OnOk P m
    → OnOk Q m
OnOk-mono P Q (ok a) f p = f a p
OnOk-mono P Q (err e) f p = tt

pub OnOk-both {ℓ κ μ} :
    {A : Type ℓ} (P : A → Type κ) (Q : A → Type μ) (m : Result A)
    → OnOk P m
    → OnOk Q m
    → OnOk (λ a. P a × Q a) m
OnOk-both P Q (ok a) p q = (p, q)
OnOk-both P Q (err e) p q = tt

pub OnOk-ok {ℓ κ} : {A : Type ℓ} (P : A → Type κ) (m : Result A) {a : A} → OnOk P m → m ≡ ok a → P a
OnOk-ok P m h e = rw e at h

abbrev pub last_code : ℕ
unfolding code_of
last_code = code_of err_internal

-- The C function reads the table at a negative index too, which is out of range: `none`.
unfoldable pub convert_error_to_string : ℤ → Option String
convert_error_to_string (pos n) =
    if leb n last_code then get_elem? err_tbl n else some "unknown err"
convert_error_to_string (negsuc n) = none

-- The constructor of `Error`: the code that it keeps.
unfoldable pub make_error : ℤ → ℤ
make_error (negsuc n) = pos last_code
make_error (pos n) = if ltb last_code n then pos last_code else pos n

-- `Error::what`
unfoldable pub what : ℤ → Option String
what e = convert_error_to_string e
