-- ===== src/Err/Texts.antt =====
-- `errTbl` of `ConvertErrorToString`.
use Prim.Native.String.{String}
use xbyak.Prelude.{List, [], ◌∷◌}

abbrev pub err_tbl : List String
err_tbl =
    "none" ∷ "bad addressing" ∷ "code is too big" ∷ "bad scale" ∷ "esp can't be index"
    ∷ "bad combination" ∷ "bad size of register" ∷ "imm is too big" ∷ "bad align"
    ∷ "label is redefined" ∷ "label is too far" ∷ "label is not found" ∷ "code is not copyable"
    ∷ "bad parameter" ∷ "can't protect" ∷ "can't use 64bit disp(use (void*))" ∷ "offset is too big"
    ∷ "MEM size is not specified" ∷ "bad mem size" ∷ "bad st combination" ∷ "over local label"
    ∷ "under local label" ∷ "can't alloc" ∷ "T_SHORT is not supported in AutoGrow"
    ∷ "bad protect mode" ∷ "bad pNum" ∷ "bad tNum" ∷ "bad vsib addressing" ∷ "can't convert"
    ∷ "label is not set by L()" ∷ "label is already set by L()" ∷ "bad label string" ∷ "err munmap"
    ∷ "opmask is already set" ∷ "rounding is already set" ∷ "k0 is invalid" ∷ "evex is invalid"
    ∷ "sae(suppress all exceptions) is invalid" ∷ "er(embedded rounding) is invalid"
    ∷ "invalid broadcast" ∷ "invalid opmask with memory" ∷ "invalid zero"
    ∷ "invalid rip in AutoGrow" ∷ "invalid mib address" ∷ "x2APIC is not supported"
    ∷ "not supported" ∷ "same regs are invalid" ∷ "invalid NF" ∷ "invalid ZU" ∷ "can't use rex2"
    ∷ "invalid dfv" ∷ "invalid reg index" ∷ "bad encoding mode" ∷ "can't use [abcd]h with rex"
    ∷ "can't init CpuTopology" ∷ "invalid cpumask index" ∷ "internal error" ∷ []
