-- ===== src/Err/Codes.antt =====
-- The enum of error codes, in the order of the source, with the number that each stands for.
use xbyak.Prelude.{ℕ}

pub data ErrorCode : Type 0 where
  err_none err_bad_addressing err_code_is_too_big err_bad_scale err_esp_cant_be_index : ErrorCode
  err_bad_combination err_bad_size_of_register err_imm_is_too_big err_bad_align : ErrorCode
  err_label_is_redefined err_label_is_too_far err_label_is_not_found : ErrorCode
  err_code_isnot_copyable err_bad_parameter err_cant_protect err_cant_use_64bit_disp : ErrorCode
  err_offset_is_too_big err_mem_size_is_not_specified err_bad_mem_size : ErrorCode
  err_bad_st_combination err_over_local_label err_under_local_label err_cant_alloc : ErrorCode
  err_only_t_near_is_supported_in_auto_grow err_bad_protect_mode err_bad_pnum err_bad_tnum :
      ErrorCode
  err_bad_vsib_addressing err_cant_convert err_label_isnot_set_by_l : ErrorCode
  err_label_is_already_set_by_l err_bad_label_str err_munmap err_opmask_is_already_set : ErrorCode
  err_rounding_is_already_set err_k0_is_invalid err_evex_is_invalid err_sae_is_invalid : ErrorCode
  err_er_is_invalid err_invalid_broadcast err_invalid_opmask_with_memory err_invalid_zero :
      ErrorCode
  err_invalid_rip_in_auto_grow err_invalid_mib_address err_x2apic_is_not_supported : ErrorCode
  err_not_supported err_same_regs_are_invalid err_invalid_nf err_invalid_zu : ErrorCode
  err_cant_use_rex2 err_invalid_dfv err_invalid_reg_idx err_bad_encoding_mode : ErrorCode
  err_cant_use_abcdh err_cant_init_cputopology err_invalid_cpumask_index err_internal : ErrorCode

-- The number that the enumerator stands for.
unfoldable pub code_of : ErrorCode → ℕ
code_of err_none = 0
code_of err_bad_addressing = 1
code_of err_code_is_too_big = 2
code_of err_bad_scale = 3
code_of err_esp_cant_be_index = 4
code_of err_bad_combination = 5
code_of err_bad_size_of_register = 6
code_of err_imm_is_too_big = 7
code_of err_bad_align = 8
code_of err_label_is_redefined = 9
code_of err_label_is_too_far = 10
code_of err_label_is_not_found = 11
code_of err_code_isnot_copyable = 12
code_of err_bad_parameter = 13
code_of err_cant_protect = 14
code_of err_cant_use_64bit_disp = 15
code_of err_offset_is_too_big = 16
code_of err_mem_size_is_not_specified = 17
code_of err_bad_mem_size = 18
code_of err_bad_st_combination = 19
code_of err_over_local_label = 20
code_of err_under_local_label = 21
code_of err_cant_alloc = 22
code_of err_only_t_near_is_supported_in_auto_grow = 23
code_of err_bad_protect_mode = 24
code_of err_bad_pnum = 25
code_of err_bad_tnum = 26
code_of err_bad_vsib_addressing = 27
code_of err_cant_convert = 28
code_of err_label_isnot_set_by_l = 29
code_of err_label_is_already_set_by_l = 30
code_of err_bad_label_str = 31
code_of err_munmap = 32
code_of err_opmask_is_already_set = 33
code_of err_rounding_is_already_set = 34
code_of err_k0_is_invalid = 35
code_of err_evex_is_invalid = 36
code_of err_sae_is_invalid = 37
code_of err_er_is_invalid = 38
code_of err_invalid_broadcast = 39
code_of err_invalid_opmask_with_memory = 40
code_of err_invalid_zero = 41
code_of err_invalid_rip_in_auto_grow = 42
code_of err_invalid_mib_address = 43
code_of err_x2apic_is_not_supported = 44
code_of err_not_supported = 45
code_of err_same_regs_are_invalid = 46
code_of err_invalid_nf = 47
code_of err_invalid_zu = 48
code_of err_cant_use_rex2 = 49
code_of err_invalid_dfv = 50
code_of err_invalid_reg_idx = 51
code_of err_bad_encoding_mode = 52
code_of err_cant_use_abcdh = 53
code_of err_cant_init_cputopology = 54
code_of err_invalid_cpumask_index = 55
code_of err_internal = 56
