-- ===== src/Flags.antt =====
-- xbyak/xbyak.h: the flags of an instruction's `type`, and the two fields of a prefix that are
-- read from them. A set of flags is a number, `|` of two sets is `bit_or`.
use xbyak.Prelude.{ℕ, ◌+◌, has, if◌then◌else◌}

abbrev pub t_n1 : ℕ
t_n1 = 1

abbrev pub t_n2 : ℕ
t_n2 = 2

abbrev pub t_n4 : ℕ
t_n4 = 3

abbrev pub t_n8 : ℕ
t_n8 = 4

abbrev pub t_n16 : ℕ
t_n16 = 5

abbrev pub t_n32 : ℕ
t_n32 = 6

abbrev pub t_nx_mask : ℕ
t_nx_mask = 7

abbrev pub t_n_vl : ℕ
t_n_vl = 8

abbrev pub t_apx : ℕ
t_apx = 16

abbrev pub t_66 : ℕ
t_66 = 32

abbrev pub t_f3 : ℕ
t_f3 = 64

abbrev pub t_er_r : ℕ
t_er_r = 128

abbrev pub t_0f : ℕ
t_0f = 256

abbrev pub t_0f38 : ℕ
t_0f38 = 512

abbrev pub t_0f3a : ℕ
t_0f3a = 1024

abbrev pub t_map5 : ℕ
t_map5 = 2048

abbrev pub t_l1 : ℕ
t_l1 = 4096

abbrev pub t_w0 : ℕ
t_w0 = 8192

abbrev pub t_w1 : ℕ
t_w1 = 16384

abbrev pub t_ew1 : ℕ
t_ew1 = 65536

abbrev pub t_ymm : ℕ
t_ymm = 0x20000

abbrev pub t_evex : ℕ
t_evex = 0x40000

abbrev pub t_er_x : ℕ
t_er_x = 0x80000

abbrev pub t_er_y : ℕ
t_er_y = 0x100000

abbrev pub t_er_z : ℕ
t_er_z = 0x200000

abbrev pub t_sae_x : ℕ
t_sae_x = 0x400000

abbrev pub t_sae_y : ℕ
t_sae_y = 0x800000

abbrev pub t_sae_z : ℕ
t_sae_z = 0x1000000

abbrev pub t_must_evex : ℕ
t_must_evex = 0x2000000

abbrev pub t_b32 : ℕ
t_b32 = 0x4000000

abbrev pub t_b64 : ℕ
t_b64 = 0x8000000

abbrev pub t_m_k : ℕ
t_m_k = 0x10000000

abbrev pub t_vsib : ℕ
t_vsib = 0x20000000

abbrev pub t_mem_evex : ℕ
t_mem_evex = 0x40000000

abbrev pub t_map6 : ℕ
t_map6 = 0x80000000

abbrev pub t_nf : ℕ
t_nf = 0x100000000

abbrev pub t_code1_if1 : ℕ
t_code1_if1 = 0x200000000

abbrev pub t_nd1 : ℕ
t_nd1 = 0x800000000

abbrev pub t_zu : ℕ
t_zu = 0x1000000000

abbrev pub t_f2 : ℕ
t_f2 = 0x2000000000

abbrev pub t_sentry : ℕ
t_sentry = 0x3fffffffff

abbrev pub t_allow_diff_size : ℕ
t_allow_diff_size = 0x4000000000

abbrev pub t_allow_abcdh : ℕ
t_allow_abcdh = 0x8000000000

-- T_DUP and T_B16 are names of other values.
abbrev pub t_dup : ℕ
t_dup = t_nx_mask

abbrev pub t_b16 : ℕ
t_b16 = t_b32 + t_b64

-- getPP
unfoldable pub get_pp : ℕ → ℕ
get_pp type =
    if has type t_66 then 1 else if has type t_f3 then 2 else if has type t_f2 then 3 else 0

-- getMap
unfoldable pub get_map : ℕ → ℕ
get_map type =
    if has type t_map6
    then 6
    else if has type t_map5
    then 5
    else if has type t_0f
    then 1
    else if has type t_0f38
    then 2
    else if has type t_0f3a
    then 3
    else 0
