-- ===== src/KernelProbes/Index/Sweep.antt =====
-- windows-runtime-bridge/investigations/index_overflow_probe.c: when the probe crashes, and that its sweep
-- stops at a fault.
use dlssnr_on_amd_linux.Common.{ℕ, ◌≡◌, ◌≢◌, refl, ℤ, true, none, ==_of_ne}
use dlssnr_on_amd_linux.KernelProbes.{
  Gpu, open_runtime, find_symbols, has_required, has_device, at_least_one,
}
use dlssnr_on_amd_linux.KernelProbes.Index.{main}

module _ (gpu : Gpu) where
  -- The test on the symbols leaves out hipSetDevice: where the library opens at the first name, has
  -- the four functions that are tested and finds a device, the probe crashes if the library lacks
  -- hipSetDevice.
  pub main_crashes :
      (h : ℕ) (ret count : ℤ) (w w1 w2 : gpu.World)
      → gpu.dlopen "libamdhip64.so.7" w ≡ (h, w1)
      → h ≢ 0
      → has_required gpu (find_symbols gpu h w1) ≡ true
      → gpu.get_device_count (gpu.dlsym h "hipGetDeviceCount" w1) w1 ≡ (ret, count, w2)
      → at_least_one count ≡ true
      → gpu.dlsym h "hipSetDevice" w1 ≡ 0
      → main gpu w ≡ none
  unfolding main has_device open_runtime find_symbols
  main_crashes h ret count w w1 w2 opened opens required counted device missing =
      rw (opened, ==_of_ne h 0 opens, required, counted, device, missing) refl
