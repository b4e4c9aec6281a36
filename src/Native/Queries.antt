-- ===== src/Native/Queries.antt =====
-- native.c: the handlers of the device and version queries, and of hipDeviceSynchronize. A handler
-- returns the argument struct as it leaves it, and the new state.
use dlssnr_on_amd_linux.Common.{ℕ, ℤ, pos, minus_one, not, ◌==◌, if◌then◌else◌}
use dlssnr_on_amd_linux.Forward.{hip_version_query_apply}
use dlssnr_on_amd_linux.Host.{Host}
use dlssnr_on_amd_linux.Native.{
  Native, get_device_count, set_device, driver_get_version, runtime_get_version, get_error_string,
  get_device_properties, device_synchronize, resolve,
}
use dlssnr_on_amd_linux.Native.Args.{
  ArgsGetDeviceCount, ArgsSetDevice, ArgsGetVersion, ArgsGetErrorString, ArgsGetDeviceProperties,
  ArgsDeviceSynchronize, fallback, foreign,
}

module _ (host : Host) where
  unfoldable pub unix_get_device_count :
      ArgsGetDeviceCount → Native host.World → ArgsGetDeviceCount × Native host.World
  unix_get_device_count a s =
      let (fn, s') = resolve host get_device_count s in
      if fn == 0
      then (record a { ret = minus_one }, s')
      else (let (ret, count, w) = host.hip_get_device_count fn a.count s'.world in
          (record { count = count; ret = ret }, record s' { world = w }))

  unfoldable pub unix_set_device :
      ArgsSetDevice → Native host.World → ArgsSetDevice × Native host.World
  unix_set_device a s =
      let (fn, s') = resolve host set_device s in
      if fn == 0
      then (record a { ret = minus_one }, s')
      else (let (ret, w) = host.hip_set_device fn a.device s'.world in
          (record a { ret = ret }, record s' { world = w }))

  -- The call of a version function, where it is there; the version starts at 0.
  unfoldable pub query_version :
      (ℕ → host.World → ℤ × ℤ × host.World) → ℕ → host.World → ℤ × ℤ × host.World
  query_version call fn w = if fn == 0 then (minus_one, pos 0, w) else call fn w

  unfoldable pub unix_driver_get_version :
      ArgsGetVersion → Native host.World → ArgsGetVersion × Native host.World
  unfolding query_version
  unix_driver_get_version a s =
      let (fn, s') = resolve host driver_get_version s in
      let (real_ret, real_version, w) = query_version host.hip_driver_get_version fn s'.world in
      let (version, ret) = hip_version_query_apply (not (fn == 0)) real_version real_ret in
      (record { version = version; ret = ret }, record s' { world = w })

  unfoldable pub unix_runtime_get_version :
      ArgsGetVersion → Native host.World → ArgsGetVersion × Native host.World
  unfolding query_version
  unix_runtime_get_version a s =
      let (fn, s') = resolve host runtime_get_version s in
      let (real_ret, real_version, w) = query_version host.hip_runtime_get_version fn s'.world in
      let (version, ret) = hip_version_query_apply (not (fn == 0)) real_version real_ret in
      (record { version = version; ret = ret }, record s' { world = w })

  unfoldable pub unix_get_error_string :
      ArgsGetErrorString → Native host.World → ArgsGetErrorString × Native host.World
  unix_get_error_string a s =
      let (fn, s') = resolve host get_error_string s in
      if fn == 0
      then (record a { ret_str = fallback }, s')
      else (let (text, w) = host.hip_get_error_string fn a.error s'.world in
          (record a { ret_str = foreign text }, record s' { world = w }))

  unfoldable pub unix_get_device_properties :
      ArgsGetDeviceProperties → Native host.World → ArgsGetDeviceProperties × Native host.World
  unix_get_device_properties a s =
      let (fn, s') = resolve host get_device_properties s in
      if fn == 0
      then (record a { ret = minus_one }, s')
      else (let (ret, w) = host.hip_get_device_properties fn a.props a.device s'.world in
          (record a { ret = ret }, record s' { world = w }))

  unfoldable pub unix_device_synchronize :
      ArgsDeviceSynchronize → Native host.World → ArgsDeviceSynchronize × Native host.World
  unix_device_synchronize a s =
      let (fn, s') = resolve host device_synchronize s in
      if fn == 0
      then (record { ret = minus_one }, s')
      else (let (ret, w) = host.hip_device_synchronize fn s'.world in
          (record { ret = ret }, record s' { world = w }))
