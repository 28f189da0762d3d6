-- ===== src/Mnemonic/Opcode/Distinct.antt =====
-- No two instructions of AVX share their encoding, but for four pairs.
use Prim.Native.String.{String}
use text.Mathlib.Text.{◌==◌ as str_eq}
use text.Mathlib.TextEquality.{eq_iff}
use xbyak.Prelude.{
  ℕ, zero, suc, ◌≡◌, refl, ◌⊎◌, arith, Bool, true, false, ◌&&◌, ◌||◌, ◌==◌, if◌then◌else◌, List, [],
  ◌∷◌, Option, none, some, get_elem?,
}
use xbyak.Mnemonic.{Method}
use xbyak.Mnemonic.Opcode.{vector_methods, key_of, are_confused}

abbrev with_key : Option ℕ → String → List (String × ℕ) → List (String × ℕ)
with_key none n ks = ks
with_key (some k) n ks = (n, k) ∷ ks

-- The names with their keys.
unfoldable pub keys : Bool → List Method → List (String × ℕ)
keys evex [] = []
keys evex (m ∷ ms) =
    with_key (key_of false evex m.body) m.name
      (with_key (key_of true evex m.body) m.name (keys evex ms))

-- The test on two names that share a key.
unfoldable pub may_share : String → String → Bool
may_share n n' = str_eq n n' || (are_confused n n' || are_confused n' n)

fits : String → ℕ → List (String × ℕ) → Bool
fits n k [] = true
fits n k ((n', k') ∷ ks) = (if k == k' then may_share n n' else true) && fits n k ks

pub distinct : List (String × ℕ) → Bool
unfolding fits may_share
distinct [] = true
distinct ((n, k) ∷ ks) = fits n k ks && distinct ks

pub all_distinct : (evex : Bool) → distinct (keys evex vector_methods) ≡ true
unfolding distinct keys key_of vector_methods are_confused
all_distinct true = refl
all_distinct false = refl

may_share_self : (n : String) → may_share n n ≡ true
unfolding may_share
may_share_self n = rw ((eq_iff n n).1 refl) refl

may_share_comm : (n n' : String) → may_share n n' ≡ true → may_share n' n ≡ true
unfolding may_share
may_share_comm n n' h = ground (arith, h, eq_iff n n', eq_iff n' n)

pub may_share-cases :
    (n n' : String)
    → may_share n n' ≡ true
    → (n ≡ n') ⊎ ((are_confused n n' ≡ true) ⊎ (are_confused n' n ≡ true))
unfolding may_share
may_share-cases n n' h = ground (arith, h, eq_iff n n')

fits_sound :
    (n n' : String) (k j : ℕ) (ks : List (String × ℕ))
    → fits n k ks ≡ true
    → get_elem? ks j ≡ some (n', k)
    → may_share n n' ≡ true
unfolding fits
fits_sound n n' k j [] h at_j = cc
fits_sound n n' k zero ((a, b) ∷ ks) h at_j = ground (arith, h, at_j)
fits_sound n n' k (suc j) ((a, b) ∷ ks) h at_j = fits_sound n n' k j ks (ground (arith, h)) at_j

pub distinct_sound :
    (n n' : String) (k i j : ℕ) (ks : List (String × ℕ))
    → distinct ks ≡ true
    → get_elem? ks i ≡ some (n, k)
    → get_elem? ks j ≡ some (n', k)
    → may_share n n' ≡ true
unfolding distinct
distinct_sound n n' k i j [] h at_i at_j = cc
distinct_sound n n' k zero zero ((a, b) ∷ ks) h at_i at_j =
    let same : n ≡ n' = ground (arith, at_i, at_j) in rw (← same) (may_share_self n)
distinct_sound n n' k zero (suc j) ((a, b) ∷ ks) h at_i at_j =
    let name : a ≡ n = ground (arith, at_i) in
    let key : b ≡ k = ground (arith, at_i) in
    let rest : fits a b ks ≡ true = ground (arith, h) in
    fits_sound n n' k j ks (rw (← name, ← key) rest) at_j
distinct_sound n n' k (suc i) zero ((a, b) ∷ ks) h at_i at_j =
    let name : a ≡ n' = ground (arith, at_j) in
    let key : b ≡ k = ground (arith, at_j) in
    let rest : fits a b ks ≡ true = ground (arith, h) in
    may_share_comm n' n (fits_sound n' n k i ks (rw (← name, ← key) rest) at_i)
distinct_sound n n' k (suc i) (suc j) ((a, b) ∷ ks) h at_i at_j =
    distinct_sound n n' k i j ks (ground (arith, h)) at_i at_j

with_key-here :
    (o : Option ℕ) (n : String) (k : ℕ) (ks : List (String × ℕ))
    → o ≡ some k
    → get_elem? (with_key o n ks) 0 ≡ some (n, k)
with_key-here none n k ks h = cc
with_key-here (some j) n k ks h = ground (arith, h)

with_key-later :
    (o : Option ℕ) (n : String) {e : String × ℕ} (j : ℕ) (ks : List (String × ℕ))
    → get_elem? ks j ≡ some e
    → (j' : ℕ) × (get_elem? (with_key o n ks) j' ≡ some e)
with_key-later none n j ks h = (j, h)
with_key-later (some k) n j ks h = (suc j, h)

pub keys-get_elem? :
    (second evex : Bool) (ms : List Method) (i : ℕ) (m : Method) (k : ℕ)
    → get_elem? ms i ≡ some m
    → key_of second evex m.body ≡ some k
    → (j : ℕ) × (get_elem? (keys evex ms) j ≡ some (m.name, k))
unfolding keys
keys-get_elem? second evex [] i m k at_i key = cc
keys-get_elem? false evex (a ∷ ms) zero m k at_i key =
    let same : a ≡ m = ground (arith, at_i) in
    (0, rw same (with_key-here (key_of false evex m.body) m.name k _ key))
keys-get_elem? true evex (a ∷ ms) zero m k at_i key =
    let same : a ≡ m = ground (arith, at_i) in
    rw same (
      with_key-later (key_of false evex m.body) m.name 0 _
        (with_key-here (key_of true evex m.body) m.name k (keys evex ms) key))
keys-get_elem? second evex (a ∷ ms) (suc i) m k at_i key =
    let (j, found) = keys-get_elem? second evex ms i m k at_i key in
    let (j', later) = with_key-later (key_of true evex a.body) a.name j (keys evex ms) found in
    with_key-later (key_of false evex a.body) a.name j' _ later
