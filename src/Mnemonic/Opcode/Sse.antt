-- ===== src/Mnemonic/Opcode/Sse.antt =====
-- The methods for AVX against those for SSE of the same name behind the `v`.
use Prim.Native.String.{String, ◌++◌}
use text.Mathlib.Text.{◌==◌ as str_eq}
use xbyak.Prelude.{
  ℕ, ◌≡◌, Bool, true, false, ◌&&◌, ◌||◌, ◌==◌, if◌then◌else◌, bit_or, List, [], ◌∷◌, none, some,
}
use xbyak.Flags.{get_pp, get_map}
use xbyak.Mnemonic.{Method, Body}
use xbyak.Mnemonic.Legacy.{LegacyLine, sse, mmx}
use xbyak.Mnemonic.Opcode.{vector_methods, format_of}

-- The flags and the opcode of a line for SSE, with a register of the class `Xmm`.
abbrev pub legacy_format : LegacyLine → ℕ × ℕ
legacy_format (sse t c) = (t, c)
legacy_format (mmx c t pref) = (bit_or t pref, c)

-- Whether a method for AVX has the prefix, the map and the opcode of a line for SSE.
unfoldable pub is_like : LegacyLine → Body → Bool
unfolding get_pp get_map
is_like l b = elim (format_of false b) [
  | none ↦ false
  | some (t, c, ext) ↦
      (let s = legacy_format l in c == s.1 && (get_pp t == get_pp s.0 && get_map t == get_map s.0))
]

-- The forms of another kind: a store, a shift by a constant, and a blend by the register of a fourth
-- operand (which is xmm0 in the instructions for SSE). They have opcodes of their own.
unfoldable pub is_other_form : Body → Bool
is_other_form (Body.avx2_store t c) = true
is_other_form (Body.avx_xm0_store t c) = true
is_other_form (Body.avx_ext ext t c) = true
is_other_form (Body.avx3_is4 t c) = true
is_other_form _ = false

-- A test of one method against one line.
unfoldable pub agrees : String → LegacyLine → Method → Bool
unfolding is_like is_other_form
agrees n l m = if str_eq m.name ("v" ++ n) then is_other_form m.body || is_like l m.body else true

methods_agree : String → LegacyLine → List Method → Bool
unfolding agrees
methods_agree n l [] = true
methods_agree n l (m ∷ ms) = agrees n l m && methods_agree n l ms

lines_agree : List (String × LegacyLine) → Bool
unfolding methods_agree vector_methods
lines_agree [] = true
lines_agree ((n, l) ∷ ls) = methods_agree n l vector_methods && lines_agree ls

-- The prefix, the map and the opcode of a method for AVX are those of a line for SSE.
abbrev pub IsLike : LegacyLine → Body → Type 0
IsLike l b =
    (t : ℕ) × (c : ℕ) × (ext : ℕ) × (format_of false b ≡ some (t, c, ext))
    × (c ≡ (legacy_format l).1)
    × (get_pp t ≡ get_pp (legacy_format l).0)
    × (get_map t ≡ get_map (legacy_format l).0)
