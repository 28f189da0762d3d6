-- ===== src/Operand/Kind.antt =====
-- xbyak/xbyak.h: `Operand::Kind`, the kinds of operand as flags.
use xbyak.Prelude.{ℕ}

abbrev pub none_kind : ℕ
none_kind = 0

abbrev pub mem : ℕ
mem = 1

abbrev pub reg : ℕ
reg = 2

abbrev pub mmx : ℕ
mmx = 4

abbrev pub fpu : ℕ
fpu = 8

abbrev pub xmm : ℕ
xmm = 16

abbrev pub ymm : ℕ
ymm = 32

abbrev pub zmm : ℕ
zmm = 64

abbrev pub opmask : ℕ
opmask = 128

abbrev pub bndreg : ℕ
bndreg = 256

abbrev pub tmm : ℕ
tmm = 512

abbrev pub bsr : ℕ
bsr = 1024
