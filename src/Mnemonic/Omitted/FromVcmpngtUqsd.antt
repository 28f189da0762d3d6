-- ===== src/Mnemonic/Omitted/FromVcmpngtUqsd.antt =====
-- xbyak/xbyak_mnemonic.h: the forms whose destination is also the first source, from vcmpngt_uqsd to vpcmpgtq.
use xbyak.Prelude.{List, [], ◌∷◌}
use xbyak.Mnemonic.{Method, method, same_first}
use xbyak.Mnemonic.Signature.{x_o, x_o_i, x_o_x}

-- vcmpngt_uqsd to vpcmpgtq
unfoldable pub from_vcmpngt_uqsd : List Method
from_vcmpngt_uqsd =
    method "vcmpngt_uqsd" x_o same_first
    ∷ method "vcmpngt_uqss" x_o same_first
    ∷ method "vcmpngtpd" x_o same_first
    ∷ method "vcmpngtps" x_o same_first
    ∷ method "vcmpngtsd" x_o same_first
    ∷ method "vcmpngtss" x_o same_first
    ∷ method "vcmpnle_uqpd" x_o same_first
    ∷ method "vcmpnle_uqps" x_o same_first
    ∷ method "vcmpnle_uqsd" x_o same_first
    ∷ method "vcmpnle_uqss" x_o same_first
    ∷ method "vcmpnlepd" x_o same_first
    ∷ method "vcmpnleps" x_o same_first
    ∷ method "vcmpnlesd" x_o same_first
    ∷ method "vcmpnless" x_o same_first
    ∷ method "vcmpnlt_uqpd" x_o same_first
    ∷ method "vcmpnlt_uqps" x_o same_first
    ∷ method "vcmpnlt_uqsd" x_o same_first
    ∷ method "vcmpnlt_uqss" x_o same_first
    ∷ method "vcmpnltpd" x_o same_first
    ∷ method "vcmpnltps" x_o same_first
    ∷ method "vcmpnltsd" x_o same_first
    ∷ method "vcmpnltss" x_o same_first
    ∷ method "vcmpord_spd" x_o same_first
    ∷ method "vcmpord_sps" x_o same_first
    ∷ method "vcmpord_ssd" x_o same_first
    ∷ method "vcmpord_sss" x_o same_first
    ∷ method "vcmpordpd" x_o same_first
    ∷ method "vcmpordps" x_o same_first
    ∷ method "vcmpordsd" x_o same_first
    ∷ method "vcmpordss" x_o same_first
    ∷ method "vcmppd" x_o_i same_first
    ∷ method "vcmpps" x_o_i same_first
    ∷ method "vcmpsd" x_o_i same_first
    ∷ method "vcmpss" x_o_i same_first
    ∷ method "vcmptrue_uspd" x_o same_first
    ∷ method "vcmptrue_usps" x_o same_first
    ∷ method "vcmptrue_ussd" x_o same_first
    ∷ method "vcmptrue_usss" x_o same_first
    ∷ method "vcmptruepd" x_o same_first
    ∷ method "vcmptrueps" x_o same_first
    ∷ method "vcmptruesd" x_o same_first
    ∷ method "vcmptruess" x_o same_first
    ∷ method "vcmpunord_spd" x_o same_first
    ∷ method "vcmpunord_sps" x_o same_first
    ∷ method "vcmpunord_ssd" x_o same_first
    ∷ method "vcmpunord_sss" x_o same_first
    ∷ method "vcmpunordpd" x_o same_first
    ∷ method "vcmpunordps" x_o same_first
    ∷ method "vcmpunordsd" x_o same_first
    ∷ method "vcmpunordss" x_o same_first
    ∷ method "vcvtsd2ss" x_o same_first
    ∷ method "vcvtsi2sd" x_o same_first
    ∷ method "vcvtsi2ss" x_o same_first
    ∷ method "vcvtss2sd" x_o same_first
    ∷ method "vdppd" x_o_i same_first
    ∷ method "vdpps" x_o_i same_first
    ∷ method "vinsertps" x_o_i same_first
    ∷ method "vmpsadbw" x_o_i same_first
    ∷ method "vpackssdw" x_o same_first
    ∷ method "vpacksswb" x_o same_first
    ∷ method "vpackusdw" x_o same_first
    ∷ method "vpackuswb" x_o same_first
    ∷ method "vpaddb" x_o same_first
    ∷ method "vpaddd" x_o same_first
    ∷ method "vpaddq" x_o same_first
    ∷ method "vpaddsb" x_o same_first
    ∷ method "vpaddsw" x_o same_first
    ∷ method "vpaddusb" x_o same_first
    ∷ method "vpaddusw" x_o same_first
    ∷ method "vpaddw" x_o same_first
    ∷ method "vpalignr" x_o_i same_first
    ∷ method "vpand" x_o same_first
    ∷ method "vpandn" x_o same_first
    ∷ method "vpavgb" x_o same_first
    ∷ method "vpavgw" x_o same_first
    ∷ method "vpblendd" x_o_i same_first
    ∷ method "vpblendvb" x_o_x same_first
    ∷ method "vpblendw" x_o_i same_first
    ∷ method "vpclmulqdq" x_o_i same_first
    ∷ method "vpcmpeqb" x_o same_first
    ∷ method "vpcmpeqd" x_o same_first
    ∷ method "vpcmpeqq" x_o same_first
    ∷ method "vpcmpeqw" x_o same_first
    ∷ method "vpcmpgtb" x_o same_first
    ∷ method "vpcmpgtd" x_o same_first
    ∷ method "vpcmpgtq" x_o same_first
    ∷ []
