-- ===== src/Mnemonic/Signature.antt =====
-- The parameter lists of the methods of xbyak/xbyak_mnemonic.h, named for the classes in them: x, y
-- and z are vector registers, k a mask, o an operand, m an address, i a byte, r32 to r64 general
-- registers; oo and e have default values.
use xbyak.Prelude.{List, [], ◌∷◌}
use xbyak.Mnemonic.{Param}

abbrev pub k_k : List Param
k_k = Param.opmask_reg ∷ Param.opmask_reg ∷ []

abbrev pub k_k_i : List Param
k_k_i = Param.opmask_reg ∷ Param.opmask_reg ∷ Param.imm8 ∷ []

abbrev pub k_k_k : List Param
k_k_k = Param.opmask_reg ∷ Param.opmask_reg ∷ Param.opmask_reg ∷ []

abbrev pub k_o : List Param
k_o = Param.opmask_reg ∷ Param.operand ∷ []

abbrev pub k_x : List Param
k_x = Param.opmask_reg ∷ Param.xmm_reg ∷ []

abbrev pub k_x_o : List Param
k_x_o = Param.opmask_reg ∷ Param.xmm_reg ∷ Param.operand ∷ []

abbrev pub k_x_o_i : List Param
k_x_o_i = Param.opmask_reg ∷ Param.xmm_reg ∷ Param.operand ∷ Param.imm8 ∷ []

abbrev pub m : List Param
m = Param.address ∷ []

abbrev pub m_k : List Param
m_k = Param.address ∷ Param.opmask_reg ∷ []

abbrev pub m_x : List Param
m_x = Param.address ∷ Param.xmm_reg ∷ []

abbrev pub m_x_x : List Param
m_x_x = Param.address ∷ Param.xmm_reg ∷ Param.xmm_reg ∷ []

abbrev pub o_x : List Param
o_x = Param.operand ∷ Param.xmm_reg ∷ []

abbrev pub o_x_i : List Param
o_x_i = Param.operand ∷ Param.xmm_reg ∷ Param.imm8 ∷ []

abbrev pub o_y_i : List Param
o_y_i = Param.operand ∷ Param.ymm_reg ∷ Param.imm8 ∷ []

abbrev pub o_z_i : List Param
o_z_i = Param.operand ∷ Param.zmm_reg ∷ Param.imm8 ∷ []

abbrev pub r32_k : List Param
r32_k = Param.gpr32 ∷ Param.opmask_reg ∷ []

abbrev pub r32_o : List Param
r32_o = Param.gpr32 ∷ Param.operand ∷ []

abbrev pub r32e_o : List Param
r32e_o = Param.gpr32e ∷ Param.operand ∷ []

abbrev pub x_i : List Param
x_i = Param.xmm_reg ∷ Param.imm8 ∷ []

abbrev pub x_k : List Param
x_k = Param.xmm_reg ∷ Param.opmask_reg ∷ []

abbrev pub x_m : List Param
x_m = Param.xmm_reg ∷ Param.address ∷ []

abbrev pub x_m_x : List Param
x_m_x = Param.xmm_reg ∷ Param.address ∷ Param.xmm_reg ∷ []

abbrev pub x_o : List Param
x_o = Param.xmm_reg ∷ Param.operand ∷ []

abbrev pub x_o_i : List Param
x_o_i = Param.xmm_reg ∷ Param.operand ∷ Param.imm8 ∷ []

abbrev pub x_o_oo : List Param
x_o_oo = Param.xmm_reg ∷ Param.operand ∷ Param.operand_or_none ∷ []

abbrev pub x_o_x : List Param
x_o_x = Param.xmm_reg ∷ Param.operand ∷ Param.xmm_reg ∷ []

abbrev pub x_r32 : List Param
x_r32 = Param.xmm_reg ∷ Param.gpr32 ∷ []

abbrev pub x_x : List Param
x_x = Param.xmm_reg ∷ Param.xmm_reg ∷ []

abbrev pub x_x_m : List Param
x_x_m = Param.xmm_reg ∷ Param.xmm_reg ∷ Param.address ∷ []

abbrev pub x_x_o : List Param
x_x_o = Param.xmm_reg ∷ Param.xmm_reg ∷ Param.operand ∷ []

abbrev pub x_x_o_e : List Param
x_x_o_e = Param.xmm_reg ∷ Param.xmm_reg ∷ Param.operand ∷ Param.encoding_or_default ∷ []

abbrev pub x_x_o_i : List Param
x_x_o_i = Param.xmm_reg ∷ Param.xmm_reg ∷ Param.operand ∷ Param.imm8 ∷ []

abbrev pub x_x_o_i_e : List Param
x_x_o_i_e =
    Param.xmm_reg ∷ Param.xmm_reg ∷ Param.operand ∷ Param.imm8 ∷ Param.encoding_or_default ∷ []

abbrev pub x_x_o_x : List Param
x_x_o_x = Param.xmm_reg ∷ Param.xmm_reg ∷ Param.operand ∷ Param.xmm_reg ∷ []

abbrev pub x_x_oo : List Param
x_x_oo = Param.xmm_reg ∷ Param.xmm_reg ∷ Param.operand_or_none ∷ []

abbrev pub x_x_x : List Param
x_x_x = Param.xmm_reg ∷ Param.xmm_reg ∷ Param.xmm_reg ∷ []

abbrev pub y_m : List Param
y_m = Param.ymm_reg ∷ Param.address ∷ []

abbrev pub y_o : List Param
y_o = Param.ymm_reg ∷ Param.operand ∷ []

abbrev pub y_o_i : List Param
y_o_i = Param.ymm_reg ∷ Param.operand ∷ Param.imm8 ∷ []

abbrev pub y_y_o : List Param
y_y_o = Param.ymm_reg ∷ Param.ymm_reg ∷ Param.operand ∷ []

abbrev pub y_y_o_i : List Param
y_y_o_i = Param.ymm_reg ∷ Param.ymm_reg ∷ Param.operand ∷ Param.imm8 ∷ []

abbrev pub z_m : List Param
z_m = Param.zmm_reg ∷ Param.address ∷ []

abbrev pub z_o : List Param
z_o = Param.zmm_reg ∷ Param.operand ∷ []

abbrev pub z_z_o_i : List Param
z_z_o_i = Param.zmm_reg ∷ Param.zmm_reg ∷ Param.operand ∷ Param.imm8 ∷ []
