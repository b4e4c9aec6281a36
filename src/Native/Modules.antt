-- ===== src/Native/Modules.antt =====
-- native.c: the registration of fat binaries, kernels and device variables, and the kernel launch.
use dlssnr_on_amd_linux.Common.{
  ℕ, minus_one, not, ◌||◌, Option, none, some, ◌==◌, int_eq, if◌then◌else◌,
}
use dlssnr_on_amd_linux.Registry.Bundle.{resolve_bundle_ptr}
use dlssnr_on_amd_linux.Registry.{registry_add_fatbin, registry_add_function, registry_add_var}
use dlssnr_on_amd_linux.Host.{Host}
use dlssnr_on_amd_linux.Native.{
  find_module, find_function, Native, module_load_data, module_get_function, module_get_global,
  module_launch_kernel, resolve,
}
use dlssnr_on_amd_linux.Native.Args.{
  ArgsRegisterFatBinary, ArgsRegisterFunction, ArgsUnregisterFatBinary, ArgsRegisterVar,
  ArgsLaunchKernel,
}

module _ (host : Host) where
  -- The handler after the bundle was found.
  unfoldable pub load_bundle :
      ℕ → ℕ → ArgsRegisterFatBinary → Native host.World → ArgsRegisterFatBinary × Native host.World
  load_bundle fn bundle a s =
      if bundle == 0
      then (record a { fatbin_token = 0 }, s)
      else (let (rc, hip_module, w) = host.hip_module_load_data fn bundle s.world in
          if not (int_eq rc 0) then (record a { fatbin_token = 0 }, record s { world = w }) else (
            record a { fatbin_token = a.fatbin },
            record s {
              registry = (registry_add_fatbin a.fatbin hip_module s.registry).1;
              world = w;
            },
          ))

  -- `none` is a crash: the data is read at an address that is not mapped.
  unfoldable pub unix_register_fat_binary :
      ArgsRegisterFatBinary → Native host.World → Option (ArgsRegisterFatBinary × Native host.World)
  unfolding load_bundle
  unix_register_fat_binary a s =
      let (fn, s') = resolve host module_load_data s in
      if fn == 0
      then some (record a { fatbin_token = 0 }, s')
      else elim (resolve_bundle_ptr (host.memory s'.world) a.fatbin) [
        | none ↦ none
        | some bundle ↦ some (load_bundle fn bundle a s')
      ]

  unfoldable pub unix_register_function :
      ArgsRegisterFunction → Native host.World → ArgsRegisterFunction × Native host.World
  unix_register_function a s =
      let hip_module = find_module a.fatbin_token s in
      let fn = s.symbols module_get_function in
      if hip_module == 0 || fn == 0
      then (a, s)
      else (let (rc, function, w) =
            host.hip_module_get_function fn hip_module a.device_name s.world in
          if not (int_eq rc 0) then (a, record s { world = w }) else (
            a,
            record s {
              registry = (registry_add_function a.host_fn function a.device_name s.registry).1;
              world = w;
            },
          ))

  unfoldable pub unix_register_var :
      ArgsRegisterVar → Native host.World → ArgsRegisterVar × Native host.World
  unix_register_var a s =
      let hip_module = find_module a.fatbin_token s in
      let fn = s.symbols module_get_global in
      if hip_module == 0 || fn == 0
      then (a, s)
      else (let (rc, device_ptr, device_size, w) =
            host.hip_module_get_global fn hip_module a.device_name s.world in
          if not (int_eq rc 0) then (a, record s { world = w }) else (
            a,
            record s {
              registry = (registry_add_var a.host_var device_ptr s.registry).1;
              world = w;
            },
          ))

  unfoldable pub unix_unregister_fat_binary :
      ArgsUnregisterFatBinary → Native host.World → ArgsUnregisterFatBinary × Native host.World
  unix_unregister_fat_binary a s = (a, s)

  unfoldable pub unix_launch_kernel :
      ArgsLaunchKernel → Native host.World → ArgsLaunchKernel × Native host.World
  unix_launch_kernel a s =
      let function = find_function a.host_fn s in
      let fn = s.symbols module_launch_kernel in
      if function == 0 || fn == 0
      then (record a { ret = minus_one }, s)
      else (let (ret, w) =
            host.hip_module_launch_kernel fn function a.grid.x a.grid.y a.grid.z a.block.x a.block.y
              a.block.z a.shared_mem a.stream a.args s.world in
          (record a { ret = ret }, record s { world = w }))
