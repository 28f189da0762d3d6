-- ===== src/Mnemonic/Avx.antt =====
-- xbyak/xbyak_mnemonic.h: the instructions of AVX, in the order of the source.
mod FromVaddpd
mod FromVcmpneqsd
mod FromVfmadd132pd
mod FromVmovntdq
mod FromVpgatherdd
mod FromVpmovsxbd
use xbyak.Prelude.{List, ◌++◌}
use xbyak.Mnemonic.{Method}
use FromVaddpd.{from_vaddpd, from_vbroadcastss}
use FromVcmpneqsd.{from_vcmpneqsd, from_vcvtpd2dq}
use FromVfmadd132pd.{from_vfmadd132pd, from_vinsertps, from_vmaskmovdqu}
use FromVmovntdq.{from_vmovntdq, from_vmovq, from_vpermd}
use FromVpgatherdd.{from_vpgatherdd}
use FromVpmovsxbd.{from_vpmovsxbd, from_vshufpd, from_vsubpd}

unfoldable pub avx_methods : List Method
unfolding from_vaddpd from_vbroadcastss from_vcmpneqsd from_vcvtpd2dq from_vfmadd132pd
    from_vinsertps from_vmaskmovdqu from_vmovntdq from_vmovq from_vpermd from_vpgatherdd
    from_vpmovsxbd from_vshufpd from_vsubpd
avx_methods =
    from_vaddpd
    ++ (from_vbroadcastss
        ++ (from_vcmpneqsd
            ++ (from_vcvtpd2dq
                ++ (from_vfmadd132pd
                    ++ (from_vinsertps
                        ++ (from_vmaskmovdqu
                            ++ (from_vmovntdq
                                ++ (from_vmovq
                                    ++ (from_vpermd
                                        ++ (from_vpgatherdd
                                            ++ (from_vpmovsxbd
                                                ++ (from_vshufpd ++ (from_vsubpd)))))))))))))
