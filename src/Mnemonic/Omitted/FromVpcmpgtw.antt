-- ===== src/Mnemonic/Omitted/FromVpcmpgtw.antt =====
-- xbyak/xbyak_mnemonic.h: the forms whose destination is also the first source, from vpcmpgtw to vunpcklps.
use xbyak.Prelude.{List, [], ◌∷◌}
use xbyak.Mnemonic.{Method, method, same_first}
use xbyak.Mnemonic.Signature.{x_i, x_o, x_o_i}

-- vpcmpgtw to vunpcklps
unfoldable pub from_vpcmpgtw : List Method
from_vpcmpgtw =
    method "vpcmpgtw" x_o same_first
    ∷ method "vphaddd" x_o same_first
    ∷ method "vphaddsw" x_o same_first
    ∷ method "vphaddw" x_o same_first
    ∷ method "vphsubd" x_o same_first
    ∷ method "vphsubsw" x_o same_first
    ∷ method "vphsubw" x_o same_first
    ∷ method "vpinsrb" x_o_i same_first
    ∷ method "vpinsrd" x_o_i same_first
    ∷ method "vpinsrq" x_o_i same_first
    ∷ method "vpinsrw" x_o_i same_first
    ∷ method "vpmaddubsw" x_o same_first
    ∷ method "vpmaddwd" x_o same_first
    ∷ method "vpmaxsb" x_o same_first
    ∷ method "vpmaxsd" x_o same_first
    ∷ method "vpmaxsw" x_o same_first
    ∷ method "vpmaxub" x_o same_first
    ∷ method "vpmaxud" x_o same_first
    ∷ method "vpmaxuw" x_o same_first
    ∷ method "vpminsb" x_o same_first
    ∷ method "vpminsd" x_o same_first
    ∷ method "vpminsw" x_o same_first
    ∷ method "vpminub" x_o same_first
    ∷ method "vpminud" x_o same_first
    ∷ method "vpminuw" x_o same_first
    ∷ method "vpmuldq" x_o same_first
    ∷ method "vpmulhrsw" x_o same_first
    ∷ method "vpmulhuw" x_o same_first
    ∷ method "vpmulhw" x_o same_first
    ∷ method "vpmulld" x_o same_first
    ∷ method "vpmullw" x_o same_first
    ∷ method "vpmuludq" x_o same_first
    ∷ method "vpor" x_o same_first
    ∷ method "vpsadbw" x_o same_first
    ∷ method "vpsignb" x_o same_first
    ∷ method "vpsignd" x_o same_first
    ∷ method "vpsignw" x_o same_first
    ∷ method "vpslld" x_o same_first
    ∷ method "vpslld" x_i same_first
    ∷ method "vpslldq" x_i same_first
    ∷ method "vpsllq" x_o same_first
    ∷ method "vpsllq" x_i same_first
    ∷ method "vpsllw" x_o same_first
    ∷ method "vpsllw" x_i same_first
    ∷ method "vpsrad" x_o same_first
    ∷ method "vpsrad" x_i same_first
    ∷ method "vpsraw" x_o same_first
    ∷ method "vpsraw" x_i same_first
    ∷ method "vpsrld" x_o same_first
    ∷ method "vpsrld" x_i same_first
    ∷ method "vpsrldq" x_i same_first
    ∷ method "vpsrlq" x_o same_first
    ∷ method "vpsrlq" x_i same_first
    ∷ method "vpsrlw" x_o same_first
    ∷ method "vpsrlw" x_i same_first
    ∷ method "vpsubb" x_o same_first
    ∷ method "vpsubd" x_o same_first
    ∷ method "vpsubq" x_o same_first
    ∷ method "vpsubsb" x_o same_first
    ∷ method "vpsubsw" x_o same_first
    ∷ method "vpsubusb" x_o same_first
    ∷ method "vpsubusw" x_o same_first
    ∷ method "vpsubw" x_o same_first
    ∷ method "vpunpckhbw" x_o same_first
    ∷ method "vpunpckhdq" x_o same_first
    ∷ method "vpunpckhqdq" x_o same_first
    ∷ method "vpunpckhwd" x_o same_first
    ∷ method "vpunpcklbw" x_o same_first
    ∷ method "vpunpckldq" x_o same_first
    ∷ method "vpunpcklqdq" x_o same_first
    ∷ method "vpunpcklwd" x_o same_first
    ∷ method "vpxor" x_o same_first
    ∷ method "vrcpss" x_o same_first
    ∷ method "vroundsd" x_o_i same_first
    ∷ method "vroundss" x_o_i same_first
    ∷ method "vrsqrtss" x_o same_first
    ∷ method "vshufpd" x_o_i same_first
    ∷ method "vshufps" x_o_i same_first
    ∷ method "vsqrtsd" x_o same_first
    ∷ method "vsqrtss" x_o same_first
    ∷ method "vunpckhpd" x_o same_first
    ∷ method "vunpckhps" x_o same_first
    ∷ method "vunpcklpd" x_o same_first
    ∷ method "vunpcklps" x_o same_first
    ∷ []
