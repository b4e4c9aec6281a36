-- ===== src/Pe/WithoutRuntime.antt =====
-- pe_shim.c over native.c where no HIP runtime can be loaded.
use dlssnr_on_amd_linux.Common.{ℕ, ℤ, pos, ◌≡◌, refl, Option, some, String}
use dlssnr_on_amd_linux.Host.{Host}
use dlssnr_on_amd_linux.Native.Loading.{IsUnloaded}
use dlssnr_on_amd_linux.Native.Unavailable.{attempted, unavailable-Refuses}
use dlssnr_on_amd_linux.Native.Dispatch.{HipUnixCall, unix_call}
use dlssnr_on_amd_linux.Pe.{Process, finish, set_last_error, wine_unix_call, store}
use dlssnr_on_amd_linux.Pe.Device.{
  hip_driver_get_version, hip_runtime_get_version, hip_get_device_count,
}
use dlssnr_on_amd_linux.Pe.Memory.{hip_malloc}

module _ (host : Host) where
  -- The process after an attempt at loading.
  abbrev pub after_attempt : Process host.World → Process host.World
  after_attempt p = record p { native = attempted host p.native }

  abbrev pub no_device : Process host.World → Process host.World
  no_device p = record (after_attempt p) { last_error = pos 100 }

  -- If no library can be opened and the runtime is not loaded yet, hipGetDeviceCount and hipMalloc
  -- return hipErrorNoDevice with a count of 0 and a null pointer and set the sticky error, but
  -- hipDriverGetVersion and hipRuntimeGetVersion return hipSuccess with version 0 and leave the
  -- sticky error as it was; otherwise only the world changes, by the attempt at loading.
  pub without_runtime :
      (version count : Option ℤ) (ptr : Option ℕ) (size : ℕ) (p : Process host.World)
      → ((c : String) (w : host.World) → (host.dlopen c w).0 ≡ 0)
      → IsUnloaded host p.native
      → (hip_driver_get_version host version p
          ≡ some ((pos 0, store version (pos 0)), after_attempt p))
        × (hip_runtime_get_version host version p
            ≡ some ((pos 0, store version (pos 0)), after_attempt p))
        × (hip_get_device_count host count p ≡ some ((pos 100, store count (pos 0)), no_device p))
        × (hip_malloc host ptr size p ≡ some ((pos 100, store ptr 0), no_device p))
  unfolding hip_driver_get_version hip_runtime_get_version hip_get_device_count hip_malloc
      wine_unix_call unix_call finish set_last_error
  without_runtime version count ptr size p closed u =
      let driver = unavailable-Refuses host closed HipUnixCall.driver_get_version p.native u in
      let runtime = unavailable-Refuses host closed HipUnixCall.runtime_get_version p.native u in
      let device = unavailable-Refuses host closed HipUnixCall.get_device_count p.native u in
      let malloc = unavailable-Refuses host closed HipUnixCall.malloc p.native u in
      (
        rw (driver (record { version = pos 0; ret = pos 0 })) refl,
        rw (runtime (record { version = pos 0; ret = pos 0 })) refl,
        rw (device (record { count = pos 0; ret = pos 0 })) refl,
        rw (malloc (record { ptr = 0; size = size; ret = pos 0 })) refl,
      )
