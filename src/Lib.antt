-- ===== src/Lib.antt =====
-- xbyak: a C++ header that writes x86 and x64 machine code into memory. This development models the
-- core of xbyak/xbyak.h, the vector instructions of xbyak/xbyak_mnemonic.h and two classes of
-- xbyak/xbyak_util.h, in the 64-bit build (XBYAK64) with exceptions.
--
-- The parts. A `CodeGenerator` is a `CodeArray`, the buffer of the code, with a `LabelManager`. An
-- instruction is written by `db`, which appends bytes to the buffer. A jump to a label asks the manager
-- for the label's offset: if it is known the displacement is written, else zeros are written and the
-- place is noted in the table of undefined jumps. `L` defines a label at the present size of the buffer
-- and fills in the jumps that waited for it, by `rewrite`; with AutoGrow the buffer may move, so that
-- the place is only saved, and `ready` fills it in.
--
-- The files.
--   Prelude       names of the libraries, Boolean tests, lists, words and integers
--   Err           the codes, their texts and the class `Error`; `Result` stands for a call that throws
--   Operand       `class Operand` and the register classes; its children hold the kinds, the
--                 conversions (`setBit`, `cvt8` to `cvt512`), `toString`, and the proofs
--   Registers     the tables of XBYAK_FOR_EACH_REGISTER; Aliases: those of the short names
--   RegExp        `class RegExp` and the constructor of `class Address`
--   CodeArray     `class CodeArray`; its children are about the `db` family (Emit), AutoGrow (Grow), `rewrite`
--                 (Patch) and reading back (Read)
--   LabelTable    the templates of `LabelManager` over a table of labels (`define_inner`); its children:
--                 where a jump lands (Target), the loop (Resolve, Define), and when it returns (Total)
--   LabelManager  `class LabelManager` and `class Label`: Anonymous on "@@", Assign on `assignL`
--   Jump          `opJmp`, `makeJmp`, `putL_inner`, `L`, `ready`: the bytes of one jump (Site), the trace
--                 of all jumps (Trace), whole programs (Program), labels that are known (Known)
--   ModRm         `setModRM`, `setSIB`, `opAddr`, with a decoder (Decode) and the round trip (RoundTrip)
--   Rex           `rexRXB`, `rex2`, `rex`; Numbers: what the processor reads from the prefix
--   Flags         the flags of an instruction's `type`, `getPP` and `getMap`
--   RegMem        an argument that is a register or an address
--   Vex           `vex`; Decode: what the processor reads from the prefix, and from those of
--   Evex          `evex` (Decode) and `evexLeg` (Legacy)
--   Format        the formats that a mnemonic is one line of: `opRR` to `opRO_MR`; Arith: immediate
--                 values, shifts, push and pop (Imm: their sizes); Sse; Avx: `opVex` (Choice: the choice
--                 of the prefix); Cvt: conversions and gathers; Apx: APX, AMX and masks; Moves: `mov` and
--                 other instructions that are written by hand (Loads: what `mov` of a value loads)
--   Mnemonic      xbyak/xbyak_mnemonic.h: its lines as tables (Avx, Avx512, Omitted, with the lists of
--                 parameters in Signature), the calls that they make (Call), what tells the instructions
--                 apart (Opcode; Distinct), methods that are not told apart (Confused), lines for SSE
--                 (Legacy) and the methods for AVX of the same names (Opcode.Sse), and the methods named
--                 for a condition (Condition: Codes, Meaning, Agree)
--   Nop           `nop` and `align`
--   CpuMask       both versions of `class CpuMask` of xbyak/xbyak_util.h; its children: the fields of the word
--                 (Fields), its elements (Values, Words), `append` (Filled, Discrete, Paired, Refines),
--                 `appendRange` and `size` (Ranges)
--   StackFrame    `class StackFrame` of xbyak/xbyak_util.h: its pushes and pops, and in Frame its constructor and
--                 `close`; what they do to a machine (Restore, Balance, Saves), and the registers that are
--                 handed out (Registers)
--   Tests         the theorems at concrete inputs
--
-- How C++ is written. An object is a record and a method returns the new one; an exception is an `err`,
-- and the object that it leaves behind is not kept. `size_t` and `uint64_t` are natural numbers, and
-- `% 2 ^ 64` is written out where the code wraps around. A hash map is an association list. A pointer to
-- a `Label` is its number in a store. The system is the parameter `Host`: the page size, the blocks
-- that posix_memalign hands out, and the answers of mprotect.
--
-- Bounds. The theorems on jumps ask for buffers of less than 2 ^ 31 - 16 bytes, since `opJmp` checks the
-- distance from the start of a jump, while the field holds the one from its end. `nop` has fuel: every
-- round writes a byte at least, so the size is enough.
--
-- Not modelled: `opAVX10ZeroExt`, the methods of xbyak/xbyak_mnemonic.h before vaddpd that are not named for
-- a condition (but for the lines of Legacy), those of XBYAK64 and the few of the other sections whose bodies are more than one call of a
-- format (a table leaves their lines out), the other classes of xbyak/xbyak_util.h, and what only calls the system
-- (MmapAllocator, `dump`).
pub mod Prelude
pub mod Err
pub mod Flags
pub mod Operand
pub mod Registers
pub mod Aliases
pub mod CodeArray
pub mod LabelTable
pub mod LabelManager
pub mod Jump
pub mod RegExp
pub mod Nop
pub mod CpuMask
pub mod StackFrame
pub mod Rex
pub mod RegMem
pub mod Vex
pub mod Evex
pub mod Format
pub mod Mnemonic
pub mod ModRm
pub mod Tests
