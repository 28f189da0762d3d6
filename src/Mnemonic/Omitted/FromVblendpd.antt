-- ===== src/Mnemonic/Omitted/FromVblendpd.antt =====
-- xbyak/xbyak_mnemonic.h: the forms whose destination is also the first source, from vblendpd to vcmpngt_uqps.
use xbyak.Prelude.{List, [], ◌∷◌}
use xbyak.Mnemonic.{Method, method, same_first}
use xbyak.Mnemonic.Signature.{x_o, x_o_i, x_o_x}

-- vblendpd to vcmpngt_uqps
unfoldable pub from_vblendpd : List Method
from_vblendpd =
    method "vblendpd" x_o_i same_first
    ∷ method "vblendps" x_o_i same_first
    ∷ method "vblendvpd" x_o_x same_first
    ∷ method "vblendvps" x_o_x same_first
    ∷ method "vcmpeq_ospd" x_o same_first
    ∷ method "vcmpeq_osps" x_o same_first
    ∷ method "vcmpeq_ossd" x_o same_first
    ∷ method "vcmpeq_osss" x_o same_first
    ∷ method "vcmpeq_uqpd" x_o same_first
    ∷ method "vcmpeq_uqps" x_o same_first
    ∷ method "vcmpeq_uqsd" x_o same_first
    ∷ method "vcmpeq_uqss" x_o same_first
    ∷ method "vcmpeq_uspd" x_o same_first
    ∷ method "vcmpeq_usps" x_o same_first
    ∷ method "vcmpeq_ussd" x_o same_first
    ∷ method "vcmpeq_usss" x_o same_first
    ∷ method "vcmpeqpd" x_o same_first
    ∷ method "vcmpeqps" x_o same_first
    ∷ method "vcmpeqsd" x_o same_first
    ∷ method "vcmpeqss" x_o same_first
    ∷ method "vcmpfalse_ospd" x_o same_first
    ∷ method "vcmpfalse_osps" x_o same_first
    ∷ method "vcmpfalse_ossd" x_o same_first
    ∷ method "vcmpfalse_osss" x_o same_first
    ∷ method "vcmpfalsepd" x_o same_first
    ∷ method "vcmpfalseps" x_o same_first
    ∷ method "vcmpfalsesd" x_o same_first
    ∷ method "vcmpfalsess" x_o same_first
    ∷ method "vcmpge_oqpd" x_o same_first
    ∷ method "vcmpge_oqps" x_o same_first
    ∷ method "vcmpge_oqsd" x_o same_first
    ∷ method "vcmpge_oqss" x_o same_first
    ∷ method "vcmpgepd" x_o same_first
    ∷ method "vcmpgeps" x_o same_first
    ∷ method "vcmpgesd" x_o same_first
    ∷ method "vcmpgess" x_o same_first
    ∷ method "vcmpgt_oqpd" x_o same_first
    ∷ method "vcmpgt_oqps" x_o same_first
    ∷ method "vcmpgt_oqsd" x_o same_first
    ∷ method "vcmpgt_oqss" x_o same_first
    ∷ method "vcmpgtpd" x_o same_first
    ∷ method "vcmpgtps" x_o same_first
    ∷ method "vcmpgtsd" x_o same_first
    ∷ method "vcmpgtss" x_o same_first
    ∷ method "vcmple_oqpd" x_o same_first
    ∷ method "vcmple_oqps" x_o same_first
    ∷ method "vcmple_oqsd" x_o same_first
    ∷ method "vcmple_oqss" x_o same_first
    ∷ method "vcmplepd" x_o same_first
    ∷ method "vcmpleps" x_o same_first
    ∷ method "vcmplesd" x_o same_first
    ∷ method "vcmpless" x_o same_first
    ∷ method "vcmplt_oqpd" x_o same_first
    ∷ method "vcmplt_oqps" x_o same_first
    ∷ method "vcmplt_oqsd" x_o same_first
    ∷ method "vcmplt_oqss" x_o same_first
    ∷ method "vcmpltpd" x_o same_first
    ∷ method "vcmpltps" x_o same_first
    ∷ method "vcmpltsd" x_o same_first
    ∷ method "vcmpltss" x_o same_first
    ∷ method "vcmpneq_oqpd" x_o same_first
    ∷ method "vcmpneq_oqps" x_o same_first
    ∷ method "vcmpneq_oqsd" x_o same_first
    ∷ method "vcmpneq_oqss" x_o same_first
    ∷ method "vcmpneq_ospd" x_o same_first
    ∷ method "vcmpneq_osps" x_o same_first
    ∷ method "vcmpneq_ossd" x_o same_first
    ∷ method "vcmpneq_osss" x_o same_first
    ∷ method "vcmpneq_uspd" x_o same_first
    ∷ method "vcmpneq_usps" x_o same_first
    ∷ method "vcmpneq_ussd" x_o same_first
    ∷ method "vcmpneq_usss" x_o same_first
    ∷ method "vcmpneqpd" x_o same_first
    ∷ method "vcmpneqps" x_o same_first
    ∷ method "vcmpneqsd" x_o same_first
    ∷ method "vcmpneqss" x_o same_first
    ∷ method "vcmpnge_uqpd" x_o same_first
    ∷ method "vcmpnge_uqps" x_o same_first
    ∷ method "vcmpnge_uqsd" x_o same_first
    ∷ method "vcmpnge_uqss" x_o same_first
    ∷ method "vcmpngepd" x_o same_first
    ∷ method "vcmpngeps" x_o same_first
    ∷ method "vcmpngesd" x_o same_first
    ∷ method "vcmpngess" x_o same_first
    ∷ method "vcmpngt_uqpd" x_o same_first
    ∷ method "vcmpngt_uqps" x_o same_first
    ∷ []
