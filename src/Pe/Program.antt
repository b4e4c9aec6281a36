-- ===== src/Pe/Program.antt =====
-- pe_shim.c: every exported function, as one type of calls, so that a program that uses the library
-- is a list of them. What a call returns is left out here: only the process afterwards counts.
pub mod Sound
pub mod Calls
pub mod Runs
use dlssnr_on_amd_linux.Common.{ℕ, ◌<◌, ℤ, Option, none, some, List, [], ◌∷◌, Bytes}
use dlssnr_on_amd_linux.AllocCap.{u64}
use dlssnr_on_amd_linux.Host.{Host}
use dlssnr_on_amd_linux.Pe.{Process}
use dlssnr_on_amd_linux.Pe.Registration.{
  hip_register_fat_binary, hip_register_function, hip_register_var, hip_unregister_fat_binary,
}
use dlssnr_on_amd_linux.Pe.Device.{hip_get_error_string}
use dlssnr_on_amd_linux.Pe.Api.{ApiCall, run_call}
use dlssnr_on_amd_linux.Pe.Api

pub data Export (F : Type 0) : Type 0 where
  api : ApiCall F → Export F
  register_fat_binary : ℕ → Export F
  register_function : ℕ → ℕ → Option Bytes → Export F
  register_var : ℕ → ℕ → Option Bytes → Export F
  unregister_fat_binary : ℕ → Export F
  get_error_string : ℤ → Export F

-- The process after a call.
abbrev pub process_of {κ} : {X : Type κ} {W : Type 0} → Option (X × Process W) → Option (Process W)
process_of none = none
process_of (some (x, p)) = some p

-- A size that is passed to hipMalloc is a `size_t`.
abbrev pub HasWords : {F : Type 0} → Export F → Type 0
HasWords (api (Api.malloc ptr size)) = size < u64
HasWords e = Unit

module _ (host : Host) where
  unfoldable pub run_export : Export host.Float → Process host.World → Option (Process host.World)
  run_export (api c) p = process_of (run_call host c p)
  run_export (register_fat_binary fatbin) p = process_of (hip_register_fat_binary host fatbin p)
  run_export (register_function fatbin_token host_fn device_name) p =
      process_of (hip_register_function host fatbin_token host_fn device_name p)
  run_export (register_var fatbin_token host_var device_name) p =
      process_of (hip_register_var host fatbin_token host_var device_name p)
  run_export (unregister_fat_binary fatbin_token) p =
      process_of (hip_unregister_fat_binary host fatbin_token p)
  run_export (get_error_string error) p = process_of (hip_get_error_string host error p)

  -- A program stops where a call crashes.
  unfoldable pub run_program :
      List (Export host.Float) → Process host.World → Option (Process host.World)
  run_program [] p = some p
  run_program (e ∷ es) p = elim (run_export e p) [ none ↦ none | some p' ↦ run_program es p' ]
