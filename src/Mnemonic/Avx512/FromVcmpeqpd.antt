-- ===== src/Mnemonic/Avx512/FromVcmpeqpd.antt =====
-- xbyak/xbyak_mnemonic.h: the instructions of AVX-512, from vcmpeqpd to vcmpnlt_uqss.
use xbyak.Prelude.{List, [], ◌∷◌}
use xbyak.Mnemonic.{Method, method, calls}
use xbyak.Mnemonic.Signature.{k_x_o}

-- vcmpeqpd to vcmpnlt_uqss
unfoldable pub from_vcmpeqpd : List Method
from_vcmpeqpd =
    method "vcmpeqpd" k_x_o (calls "vcmppd" 0)
    ∷ method "vcmpeqps" k_x_o (calls "vcmpps" 0)
    ∷ method "vcmpeqsd" k_x_o (calls "vcmpsd" 0)
    ∷ method "vcmpeqss" k_x_o (calls "vcmpss" 0)
    ∷ method "vcmpfalse_ospd" k_x_o (calls "vcmppd" 27)
    ∷ method "vcmpfalse_osps" k_x_o (calls "vcmpps" 27)
    ∷ method "vcmpfalse_ossd" k_x_o (calls "vcmpsd" 27)
    ∷ method "vcmpfalse_osss" k_x_o (calls "vcmpss" 27)
    ∷ method "vcmpfalsepd" k_x_o (calls "vcmppd" 11)
    ∷ method "vcmpfalseps" k_x_o (calls "vcmpps" 11)
    ∷ method "vcmpfalsesd" k_x_o (calls "vcmpsd" 11)
    ∷ method "vcmpfalsess" k_x_o (calls "vcmpss" 11)
    ∷ method "vcmpge_oqpd" k_x_o (calls "vcmppd" 29)
    ∷ method "vcmpge_oqps" k_x_o (calls "vcmpps" 29)
    ∷ method "vcmpge_oqsd" k_x_o (calls "vcmpsd" 29)
    ∷ method "vcmpge_oqss" k_x_o (calls "vcmpss" 29)
    ∷ method "vcmpgepd" k_x_o (calls "vcmppd" 13)
    ∷ method "vcmpgeps" k_x_o (calls "vcmpps" 13)
    ∷ method "vcmpgesd" k_x_o (calls "vcmpsd" 13)
    ∷ method "vcmpgess" k_x_o (calls "vcmpss" 13)
    ∷ method "vcmpgt_oqpd" k_x_o (calls "vcmppd" 30)
    ∷ method "vcmpgt_oqps" k_x_o (calls "vcmpps" 30)
    ∷ method "vcmpgt_oqsd" k_x_o (calls "vcmpsd" 30)
    ∷ method "vcmpgt_oqss" k_x_o (calls "vcmpss" 30)
    ∷ method "vcmpgtpd" k_x_o (calls "vcmppd" 14)
    ∷ method "vcmpgtps" k_x_o (calls "vcmpps" 14)
    ∷ method "vcmpgtsd" k_x_o (calls "vcmpsd" 14)
    ∷ method "vcmpgtss" k_x_o (calls "vcmpss" 14)
    ∷ method "vcmple_oqpd" k_x_o (calls "vcmppd" 18)
    ∷ method "vcmple_oqps" k_x_o (calls "vcmpps" 18)
    ∷ method "vcmple_oqsd" k_x_o (calls "vcmpsd" 18)
    ∷ method "vcmple_oqss" k_x_o (calls "vcmpss" 18)
    ∷ method "vcmplepd" k_x_o (calls "vcmppd" 2)
    ∷ method "vcmpleps" k_x_o (calls "vcmpps" 2)
    ∷ method "vcmplesd" k_x_o (calls "vcmpsd" 2)
    ∷ method "vcmpless" k_x_o (calls "vcmpss" 2)
    ∷ method "vcmplt_oqpd" k_x_o (calls "vcmppd" 17)
    ∷ method "vcmplt_oqps" k_x_o (calls "vcmpps" 17)
    ∷ method "vcmplt_oqsd" k_x_o (calls "vcmpsd" 17)
    ∷ method "vcmplt_oqss" k_x_o (calls "vcmpss" 17)
    ∷ method "vcmpltpd" k_x_o (calls "vcmppd" 1)
    ∷ method "vcmpltps" k_x_o (calls "vcmpps" 1)
    ∷ method "vcmpltsd" k_x_o (calls "vcmpsd" 1)
    ∷ method "vcmpltss" k_x_o (calls "vcmpss" 1)
    ∷ method "vcmpneq_oqpd" k_x_o (calls "vcmppd" 12)
    ∷ method "vcmpneq_oqps" k_x_o (calls "vcmpps" 12)
    ∷ method "vcmpneq_oqsd" k_x_o (calls "vcmpsd" 12)
    ∷ method "vcmpneq_oqss" k_x_o (calls "vcmpss" 12)
    ∷ method "vcmpneq_ospd" k_x_o (calls "vcmppd" 28)
    ∷ method "vcmpneq_osps" k_x_o (calls "vcmpps" 28)
    ∷ method "vcmpneq_ossd" k_x_o (calls "vcmpsd" 28)
    ∷ method "vcmpneq_osss" k_x_o (calls "vcmpss" 28)
    ∷ method "vcmpneq_uspd" k_x_o (calls "vcmppd" 20)
    ∷ method "vcmpneq_usps" k_x_o (calls "vcmpps" 20)
    ∷ method "vcmpneq_ussd" k_x_o (calls "vcmpsd" 20)
    ∷ method "vcmpneq_usss" k_x_o (calls "vcmpss" 20)
    ∷ method "vcmpneqpd" k_x_o (calls "vcmppd" 4)
    ∷ method "vcmpneqps" k_x_o (calls "vcmpps" 4)
    ∷ method "vcmpneqsd" k_x_o (calls "vcmpsd" 4)
    ∷ method "vcmpneqss" k_x_o (calls "vcmpss" 4)
    ∷ method "vcmpnge_uqpd" k_x_o (calls "vcmppd" 25)
    ∷ method "vcmpnge_uqps" k_x_o (calls "vcmpps" 25)
    ∷ method "vcmpnge_uqsd" k_x_o (calls "vcmpsd" 25)
    ∷ method "vcmpnge_uqss" k_x_o (calls "vcmpss" 25)
    ∷ method "vcmpngepd" k_x_o (calls "vcmppd" 9)
    ∷ method "vcmpngeps" k_x_o (calls "vcmpps" 9)
    ∷ method "vcmpngesd" k_x_o (calls "vcmpsd" 9)
    ∷ method "vcmpngess" k_x_o (calls "vcmpss" 9)
    ∷ method "vcmpngt_uqpd" k_x_o (calls "vcmppd" 26)
    ∷ method "vcmpngt_uqps" k_x_o (calls "vcmpps" 26)
    ∷ method "vcmpngt_uqsd" k_x_o (calls "vcmpsd" 26)
    ∷ method "vcmpngt_uqss" k_x_o (calls "vcmpss" 26)
    ∷ method "vcmpngtpd" k_x_o (calls "vcmppd" 10)
    ∷ method "vcmpngtps" k_x_o (calls "vcmpps" 10)
    ∷ method "vcmpngtsd" k_x_o (calls "vcmpsd" 10)
    ∷ method "vcmpngtss" k_x_o (calls "vcmpss" 10)
    ∷ method "vcmpnle_uqpd" k_x_o (calls "vcmppd" 22)
    ∷ method "vcmpnle_uqps" k_x_o (calls "vcmpps" 22)
    ∷ method "vcmpnle_uqsd" k_x_o (calls "vcmpsd" 22)
    ∷ method "vcmpnle_uqss" k_x_o (calls "vcmpss" 22)
    ∷ method "vcmpnlepd" k_x_o (calls "vcmppd" 6)
    ∷ method "vcmpnleps" k_x_o (calls "vcmpps" 6)
    ∷ method "vcmpnlesd" k_x_o (calls "vcmpsd" 6)
    ∷ method "vcmpnless" k_x_o (calls "vcmpss" 6)
    ∷ method "vcmpnlt_uqpd" k_x_o (calls "vcmppd" 21)
    ∷ method "vcmpnlt_uqps" k_x_o (calls "vcmpps" 21)
    ∷ method "vcmpnlt_uqsd" k_x_o (calls "vcmpsd" 21)
    ∷ method "vcmpnlt_uqss" k_x_o (calls "vcmpss" 21)
    ∷ []
