-- ===== src/Forward.antt =====
-- The small pure functions of windows-runtime-bridge/hip-unixlib that the two sides of the bridge
-- share: version_query.c, hip_forward.c, last_error.c and memcpy_kind.c. An out-parameter is part of
-- the result.
use dlssnr_on_amd_linux.Common.{
  ℕ, Bool, Option, none, some, ℤ, pos, minus_one, int_between, if◌then◌else◌,
}

-- `hip_version_query_apply`: what is written to `*out_version` and `*out_ret`.
unfoldable pub hip_version_query_apply : Bool → ℤ → ℤ → ℤ × ℤ
hip_version_query_apply have_symbol real_version real_ret =
    if have_symbol then (real_version, real_ret) else (pos 0, minus_one)

-- `hip_forward_ptr_result`: what is written to `*out_ptr` and `*out_ret`.
unfoldable pub hip_forward_ptr_result : Bool → ℕ → ℤ → ℕ × ℤ
hip_forward_ptr_result have_symbol real_ptr real_ret =
    if have_symbol then (real_ptr, real_ret) else (0, minus_one)

-- `hip_get_last_error_and_reset`: the value returned, and what `*out_new_state` holds afterwards;
-- `none` is a null `out_new_state`.
unfoldable pub hip_get_last_error_and_reset : ℤ → ℤ → Option ℤ → ℤ × Option ℤ
hip_get_last_error_and_reset current success_code none = (current, none)
hip_get_last_error_and_reset current success_code (some old) = (current, some success_code)

abbrev pub hip_memcpy_host_to_host : ℕ
hip_memcpy_host_to_host = 0

abbrev pub hip_memcpy_default : ℕ
hip_memcpy_default = 4

unfoldable pub hip_memcpy_kind_supported : ℤ → Bool
hip_memcpy_kind_supported kind = int_between hip_memcpy_host_to_host hip_memcpy_default kind
