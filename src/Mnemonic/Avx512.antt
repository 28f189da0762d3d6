-- ===== src/Mnemonic/Avx512.antt =====
-- xbyak/xbyak_mnemonic.h: the instructions of AVX-512, in the order of the source.
mod FromKaddb
mod FromVcmpeqpd
mod FromVcmpnltpd
mod FromVcvtss2sh
mod FromVcvtusi2ss
mod FromVgatherdpd
mod FromVpcmpb
mod FromVpmovq2m
mod FromVrangess
use xbyak.Prelude.{List, ◌++◌}
use xbyak.Mnemonic.{Method}
use FromKaddb.{from_kaddb}
use FromVcmpeqpd.{from_vcmpeqpd}
use FromVcmpnltpd.{from_vcmpnltpd}
use FromVcvtss2sh.{from_vcvtss2sh}
use FromVcvtusi2ss.{from_vcvtusi2ss}
use FromVgatherdpd.{from_vgatherdpd, from_vpbroadcastd}
use FromVpcmpb.{from_vpcmpb}
use FromVpmovq2m.{from_vpmovq2m}
use FromVrangess.{from_vrangess}

unfoldable pub avx512_methods : List Method
unfolding from_kaddb from_vcmpeqpd from_vcmpnltpd from_vcvtss2sh from_vcvtusi2ss from_vgatherdpd
    from_vpbroadcastd from_vpcmpb from_vpmovq2m from_vrangess
avx512_methods =
    from_kaddb
    ++ (from_vcmpeqpd
        ++ (from_vcmpnltpd
            ++ (from_vcvtss2sh
                ++ (from_vcvtusi2ss
                    ++ (from_vgatherdpd
                        ++ (from_vpbroadcastd
                            ++ (from_vpcmpb ++ (from_vpmovq2m ++ (from_vrangess)))))))))
