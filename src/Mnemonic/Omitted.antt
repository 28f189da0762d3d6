-- ===== src/Mnemonic/Omitted.antt =====
-- xbyak/xbyak_mnemonic.h: the forms whose destination is also the first source, in the order of the source.
mod FromVblendpd
mod FromVcmpngtUqsd
mod FromVpcmpgtw
use xbyak.Prelude.{List, ◌++◌}
use xbyak.Mnemonic.{Method}
use FromVblendpd.{from_vblendpd}
use FromVcmpngtUqsd.{from_vcmpngt_uqsd}
use FromVpcmpgtw.{from_vpcmpgtw}

unfoldable pub omitted_methods : List Method
unfolding from_vblendpd from_vcmpngt_uqsd from_vpcmpgtw
omitted_methods = from_vblendpd ++ (from_vcmpngt_uqsd ++ (from_vpcmpgtw))
