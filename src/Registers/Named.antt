-- ===== src/Registers/Named.antt =====
-- The names of the registers.
use Prim.Native.String.{String, ◌∷◌}
use text.Mathlib.Text.{◌==◌ as str_eq}
use xbyak.Prelude.{◌≡◌, refl, map, Option, some, none}
use xbyak.Err.{Result, ok}
use xbyak.LabelTable.{find}
use xbyak.Operand.{Operand}
use xbyak.Operand.Names.{to_string}
use xbyak.Registers.{all_registers}
use xbyak.Aliases.{convenience_all}

-- `toString` of every register that the macros declare is the name of its C variable.
pub to_string-all_registers :
    map (λ (e : String × Operand). to_string e.1) all_registers
    ≡ map (λ (e : String × Operand). ok (some e.0)) all_registers
unfolding to_string all_registers
to_string-all_registers = refl

-- The name of the register that an alias copies.
unfoldable pub resolved : String × String → Result (Option String)
unfolding to_string find all_registers
resolved a = elim (find str_eq a.1 all_registers) [ some r ↦ to_string r | none ↦ ok none ]

-- The name that an alias is short for: the second letter is doubled, as in xm5 and xmm5.
unfoldable pub long_name : String → String
long_name (c ∷ m ∷ rest) = c ∷ m ∷ m ∷ rest
long_name s = s

-- Every alias is initialized by a declared register, and prints the name that it is short for: xm5
-- prints xmm5, and so on for all of the three sizes.
pub resolved-convenience_all :
    map resolved convenience_all
    ≡ map (λ (a : String × String). ok (some (long_name a.0))) convenience_all
unfolding resolved long_name convenience_all
resolved-convenience_all = refl
