-- ===== src/Pe/Device.antt =====
-- pe_shim.c: the device and version queries, and the sticky error.
use dlssnr_on_amd_linux.Common.{ℕ, ℤ, pos, Option, none, some}
use dlssnr_on_amd_linux.Forward.{hip_get_last_error_and_reset}
use dlssnr_on_amd_linux.Host.{Host}
use dlssnr_on_amd_linux.Native.Args.{CString, null}
use dlssnr_on_amd_linux.Native.Structs.{
  get_device_count_struct, set_device_struct, get_version_struct, get_error_string_struct,
  get_device_properties_struct, device_synchronize_struct,
}
use dlssnr_on_amd_linux.Native.Dispatch.{
  get_device_count, set_device, driver_get_version, runtime_get_version, get_error_string,
  get_device_properties, device_synchronize,
}
use dlssnr_on_amd_linux.Pe.{
  Process, hip_success, hip_error_no_device, hip_error_not_supported, wine_unix_call, answer,
  reports, store,
}

module _ (host : Host) where
  unfoldable pub hip_get_device_count :
      Option ℤ → Process host.World → Option ((ℤ × Option ℤ) × Process host.World)
  hip_get_device_count count p =
      answer
        (wine_unix_call host get_device_count get_device_count_struct
          (record { count = pos 0; ret = pos 0 }) p)
        (λ a. a.ret) hip_error_no_device (λ a. store count a.count)

  unfoldable pub hip_get_device_properties_r0600 :
      ℕ → ℤ → Process host.World → Option ((ℤ × Unit {0}) × Process host.World)
  hip_get_device_properties_r0600 props device p =
      answer
        (wine_unix_call host get_device_properties get_device_properties_struct
          (record { props = props; device = device; ret = pos 0 }) p)
        (λ a. a.ret) hip_error_not_supported (λ a. tt)

  unfoldable pub hip_set_device :
      ℤ → Process host.World → Option ((ℤ × Unit {0}) × Process host.World)
  hip_set_device device p =
      answer
        (wine_unix_call host set_device set_device_struct (record { device = device; ret = pos 0 })
          p)
        (λ a. a.ret) hip_error_no_device (λ a. tt)

  unfoldable pub hip_device_synchronize :
      Process host.World → Option ((ℤ × Unit {0}) × Process host.World)
  hip_device_synchronize p =
      answer
        (wine_unix_call host device_synchronize device_synchronize_struct (record { ret = pos 0 })
          p)
        (λ a. a.ret) hip_error_not_supported (λ a. tt)

  -- The version queries report success whatever the native side answers.
  unfoldable pub hip_driver_get_version :
      Option ℤ → Process host.World → Option ((ℤ × Option ℤ) × Process host.World)
  hip_driver_get_version version p =
      reports
        (wine_unix_call host driver_get_version get_version_struct
          (record { version = pos 0; ret = pos 0 }) p)
        (λ a. store version a.version)

  unfoldable pub hip_runtime_get_version :
      Option ℤ → Process host.World → Option ((ℤ × Option ℤ) × Process host.World)
  hip_runtime_get_version version p =
      reports
        (wine_unix_call host runtime_get_version get_version_struct
          (record { version = pos 0; ret = pos 0 }) p)
        (λ a. store version a.version)

  unfoldable pub hip_get_error_string :
      ℤ → Process host.World → Option (CString × Process host.World)
  hip_get_error_string error p =
      elim (wine_unix_call host get_error_string get_error_string_struct
        (record { error = error; ret_str = null }) p) [
          | none ↦ none
          | some (a, p') ↦ some (a.ret_str, p')
        ]

-- The pointer to `last_error` is passed as the place of the new state.
unfoldable pub hip_get_last_error : {W : Type 0} → Process W → ℤ × Process W
hip_get_last_error p =
    let (ret, state) =
      hip_get_last_error_and_reset p.last_error (pos hip_success) (some p.last_error) in
    elim state [ none ↦ (ret, p) | some new_state ↦ (ret, record p { last_error = new_state }) ]
