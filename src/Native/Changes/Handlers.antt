-- ===== src/Native/Changes/Handlers.antt =====
-- native.c: the changes of the state that each handler makes.
use dlssnr_on_amd_linux.Common.{
  ℕ, inl, inr, Bool-cases, ◌==◌, ◌||◌, ◌&&◌, not, int_eq, Option-cases,
}
use dlssnr_on_amd_linux.Host.{Host}
use dlssnr_on_amd_linux.Registry.Bundle.{resolve_bundle_ptr}
use dlssnr_on_amd_linux.AllocCap.{alloc_cap_would_exceed, alloc_cap_total}
use dlssnr_on_amd_linux.Native.{Native, Symbol, resolve, find_module, find_var}
use dlssnr_on_amd_linux.Native.Args.{
  ArgsDestroyExternalMemory, ArgsDeviceSynchronize, ArgsEvent, ArgsEventCreate,
  ArgsEventElapsedTime, ArgsEventRecord, ArgsExternalMemoryGetMappedBuffer, ArgsFree,
  ArgsGetDeviceCount, ArgsGetDeviceProperties, ArgsGetErrorString, ArgsGetVersion,
  ArgsImportExternalMemory, ArgsLaunchKernel, ArgsMalloc, ArgsMemcpy, ArgsMemcpyToSymbol,
  ArgsMemset, ArgsRegisterFatBinary, ArgsRegisterFunction, ArgsRegisterVar, ArgsSetDevice,
  ArgsStreamCreate, ArgsStreamSynchronize, ArgsUnregisterFatBinary,
}
use dlssnr_on_amd_linux.Native.Queries.{
  unix_get_device_count, unix_set_device, unix_driver_get_version, unix_runtime_get_version,
  unix_get_error_string, unix_get_device_properties, unix_device_synchronize,
}
use dlssnr_on_amd_linux.Native.Memory.{
  ensure_vram_cap_read, limited_malloc, unix_malloc, unix_free, unix_memcpy, unix_memset,
  unix_memcpy_async, unix_memset_async, unix_memcpy_to_symbol,
}
use dlssnr_on_amd_linux.Native.Modules.{
  load_bundle, unix_register_fat_binary, unix_register_function, unix_register_var,
  unix_unregister_fat_binary, unix_launch_kernel,
}
use dlssnr_on_amd_linux.Native.Interop.{
  unix_import_external_memory, unix_external_memory_get_mapped_buffer, unix_destroy_external_memory,
  unix_event_create, unix_event_record, unix_event_synchronize, unix_event_query,
  unix_event_elapsed_time, unix_stream_create, unix_stream_synchronize,
}
use dlssnr_on_amd_linux.Native.Dispatch.{HipUnixCall}
use dlssnr_on_amd_linux.Native.Changes.{
  Changes, Leads, called-Changes, maybe_called-Changes, load, outside, read_cap, record_alloc,
  release, add_fatbin, add_function, add_var, done, then_,
}

module _ (host : Host) where
  pub unix_get_device_count-Changes :
      (size : ℕ) (a : ArgsGetDeviceCount) (s : Native host.World)
      → Changes host HipUnixCall.get_device_count size s (unix_get_device_count host a s).1
  unfolding unix_get_device_count
  unix_get_device_count-Changes size a s = called-Changes host _ _ _ s _ _ _ _

  pub unix_set_device-Changes :
      (size : ℕ) (a : ArgsSetDevice) (s : Native host.World)
      → Changes host HipUnixCall.set_device size s (unix_set_device host a s).1
  unfolding unix_set_device
  unix_set_device-Changes size a s = called-Changes host _ _ _ s _ _ _ _

  pub unix_get_error_string-Changes :
      (size : ℕ) (a : ArgsGetErrorString) (s : Native host.World)
      → Changes host HipUnixCall.get_error_string size s (unix_get_error_string host a s).1
  unfolding unix_get_error_string
  unix_get_error_string-Changes size a s = called-Changes host _ _ _ s _ _ _ _

  pub unix_get_device_properties-Changes :
      (size : ℕ) (a : ArgsGetDeviceProperties) (s : Native host.World)
      → Changes host HipUnixCall.get_device_properties size s
          (unix_get_device_properties host a s).1
  unfolding unix_get_device_properties
  unix_get_device_properties-Changes size a s = called-Changes host _ _ _ s _ _ _ _

  pub unix_device_synchronize-Changes :
      (size : ℕ) (a : ArgsDeviceSynchronize) (s : Native host.World)
      → Changes host HipUnixCall.device_synchronize size s (unix_device_synchronize host a s).1
  unfolding unix_device_synchronize
  unix_device_synchronize-Changes size a s = called-Changes host _ _ _ s _ _ _ _

  pub unix_memcpy-Changes :
      (size : ℕ) (a : ArgsMemcpy) (s : Native host.World)
      → Changes host HipUnixCall.memcpy size s (unix_memcpy host a s).1
  unfolding unix_memcpy
  unix_memcpy-Changes size a s = called-Changes host _ _ _ s _ _ _ _

  pub unix_memset-Changes :
      (size : ℕ) (a : ArgsMemset) (s : Native host.World)
      → Changes host HipUnixCall.memset size s (unix_memset host a s).1
  unfolding unix_memset
  unix_memset-Changes size a s = called-Changes host _ _ _ s _ _ _ _

  pub unix_memcpy_async-Changes :
      (size : ℕ) (a : ArgsMemcpy) (s : Native host.World)
      → Changes host HipUnixCall.memcpy_async size s (unix_memcpy_async host a s).1
  unfolding unix_memcpy_async
  unix_memcpy_async-Changes size a s = called-Changes host _ _ _ s _ _ _ _

  pub unix_memset_async-Changes :
      (size : ℕ) (a : ArgsMemset) (s : Native host.World)
      → Changes host HipUnixCall.memset_async size s (unix_memset_async host a s).1
  unfolding unix_memset_async
  unix_memset_async-Changes size a s = called-Changes host _ _ _ s _ _ _ _

  pub unix_destroy_external_memory-Changes :
      (size : ℕ) (a : ArgsDestroyExternalMemory) (s : Native host.World)
      → Changes host HipUnixCall.destroy_external_memory size s
          (unix_destroy_external_memory host a s).1
  unfolding unix_destroy_external_memory
  unix_destroy_external_memory-Changes size a s = called-Changes host _ _ _ s _ _ _ _

  pub unix_event_record-Changes :
      (size : ℕ) (a : ArgsEventRecord) (s : Native host.World)
      → Changes host HipUnixCall.event_record size s (unix_event_record host a s).1
  unfolding unix_event_record
  unix_event_record-Changes size a s = called-Changes host _ _ _ s _ _ _ _

  pub unix_event_synchronize-Changes :
      (size : ℕ) (a : ArgsEvent) (s : Native host.World)
      → Changes host HipUnixCall.event_synchronize size s (unix_event_synchronize host a s).1
  unfolding unix_event_synchronize
  unix_event_synchronize-Changes size a s = called-Changes host _ _ _ s _ _ _ _

  pub unix_event_query-Changes :
      (size : ℕ) (a : ArgsEvent) (s : Native host.World)
      → Changes host HipUnixCall.event_query size s (unix_event_query host a s).1
  unfolding unix_event_query
  unix_event_query-Changes size a s = called-Changes host _ _ _ s _ _ _ _

  pub unix_event_elapsed_time-Changes :
      (size : ℕ) (a : ArgsEventElapsedTime host.Float) (s : Native host.World)
      → Changes host HipUnixCall.event_elapsed_time size s (unix_event_elapsed_time host a s).1
  unfolding unix_event_elapsed_time
  unix_event_elapsed_time-Changes size a s = called-Changes host _ _ _ s _ _ _ _

  pub unix_stream_synchronize-Changes :
      (size : ℕ) (a : ArgsStreamSynchronize) (s : Native host.World)
      → Changes host HipUnixCall.stream_synchronize size s (unix_stream_synchronize host a s).1
  unfolding unix_stream_synchronize
  unix_stream_synchronize-Changes size a s = called-Changes host _ _ _ s _ _ _ _

  pub unix_driver_get_version-Changes :
      (size : ℕ) (a : ArgsGetVersion) (s : Native host.World)
      → Changes host HipUnixCall.driver_get_version size s (unix_driver_get_version host a s).1
  unfolding unix_driver_get_version resolve
  unix_driver_get_version-Changes size a s = then_ load (then_ outside done)

  pub unix_runtime_get_version-Changes :
      (size : ℕ) (a : ArgsGetVersion) (s : Native host.World)
      → Changes host HipUnixCall.runtime_get_version size s (unix_runtime_get_version host a s).1
  unfolding unix_runtime_get_version resolve
  unix_runtime_get_version-Changes size a s = then_ load (then_ outside done)

  pub unix_import_external_memory-Changes :
      (size : ℕ) (a : ArgsImportExternalMemory) (s : Native host.World)
      → Changes host HipUnixCall.import_external_memory size s
          (unix_import_external_memory host a s).1
  unfolding unix_import_external_memory resolve
  unix_import_external_memory-Changes size a s = then_ load (then_ outside done)

  pub unix_external_memory_get_mapped_buffer-Changes :
      (size : ℕ) (a : ArgsExternalMemoryGetMappedBuffer) (s : Native host.World)
      → Changes host HipUnixCall.external_memory_get_mapped_buffer size s
          (unix_external_memory_get_mapped_buffer host a s).1
  unfolding unix_external_memory_get_mapped_buffer resolve
  unix_external_memory_get_mapped_buffer-Changes size a s = then_ load (then_ outside done)

  pub unix_event_create-Changes :
      (size : ℕ) (a : ArgsEventCreate) (s : Native host.World)
      → Changes host HipUnixCall.event_create size s (unix_event_create host a s).1
  unfolding unix_event_create resolve
  unix_event_create-Changes size a s = then_ load (then_ outside done)

  pub unix_stream_create-Changes :
      (size : ℕ) (a : ArgsStreamCreate) (s : Native host.World)
      → Changes host HipUnixCall.stream_create size s (unix_stream_create host a s).1
  unfolding unix_stream_create resolve
  unix_stream_create-Changes size a s = then_ load (then_ outside done)

  limited_malloc-Changes :
      (fn : ℕ) (a : ArgsMalloc) (s : Native host.World)
      → Changes host HipUnixCall.malloc a.size s (limited_malloc host fn a s).1
  unfolding limited_malloc
  limited_malloc-Changes fn a s =
      let r = host.hip_malloc fn a.size s.world in
      elim (Bool-cases
        (alloc_cap_would_exceed (alloc_cap_total s.alloc_cap) a.size s.vram_cap_bytes)) [
          | inl over ↦ rw over done
          | inr within ↦ rw within (elim (Bool-cases (int_eq r.0 0 && not (r.1 == 0))) [
            | inl got ↦ rw got (then_ (record_alloc r.1) (then_ outside done))
            | inr failed ↦ rw failed (then_ outside done)
          ])
        ]

  pub unix_malloc-Changes :
      (a : ArgsMalloc) (s : Native host.World)
      → Changes host HipUnixCall.malloc a.size s (unix_malloc host a s).1
  unfolding unix_malloc resolve
  unix_malloc-Changes a s =
      let r = resolve host Symbol.malloc s in
      elim (Bool-cases (r.0 == 0)) [
        | inl missing ↦ rw missing (then_ load done)
        | inr there ↦ rw there (
            then_ load
              (then_ read_cap (limited_malloc-Changes r.0 a (ensure_vram_cap_read host r.1))))
      ]

  pub unix_free-Changes :
      (size : ℕ) (a : ArgsFree) (s : Native host.World)
      → Changes host HipUnixCall.free size s (unix_free host a s).1
  unfolding unix_free resolve
  unix_free-Changes size a s =
      let (fn, s') = resolve host Symbol.free s in
      elim (Bool-cases (fn == 0)) [
        | inl missing ↦ rw missing (then_ load done)
        | inr there ↦ rw there (elim (Bool-cases (int_eq (host.hip_free fn a.ptr s'.world).0 0)) [
          | inl freed ↦ rw freed (then_ load (then_ (release a.ptr) (then_ outside done)))
          | inr failed ↦ rw failed (then_ load (then_ outside done))
        ])
      ]

  pub unix_memcpy_to_symbol-Changes :
      (size : ℕ) (a : ArgsMemcpyToSymbol) (s : Native host.World)
      → Changes host HipUnixCall.memcpy_to_symbol size s (unix_memcpy_to_symbol host a s).1
  unfolding unix_memcpy_to_symbol
  unix_memcpy_to_symbol-Changes size a s = elim (Bool-cases (find_var a.symbol s == 0)) [
    | inl unknown ↦ rw unknown done
    | inr known ↦ rw known (called-Changes host _ _ _ s _ _ _ _)
  ]

  load_bundle-Changes :
      (size fn bundle : ℕ) (a : ArgsRegisterFatBinary) (s : Native host.World)
      → Changes host HipUnixCall.register_fat_binary size s (load_bundle host fn bundle a s).1
  unfolding load_bundle
  load_bundle-Changes size fn bundle a s =
      let (rc, hip_module, w) = host.hip_module_load_data fn bundle s.world in
      elim (Bool-cases (bundle == 0)) [
        | inl null ↦ rw null done
        | inr there ↦ rw there (elim (Bool-cases (int_eq rc 0)) [
          | inl loaded ↦ rw loaded (then_ (add_fatbin a.fatbin hip_module) (then_ outside done))
          | inr failed ↦ rw failed (then_ outside done)
        ])
      ]

  pub unix_register_fat_binary-Leads :
      (size : ℕ) (a : ArgsRegisterFatBinary) (s : Native host.World)
      → Leads host HipUnixCall.register_fat_binary size s (unix_register_fat_binary host a s)
  unfolding unix_register_fat_binary resolve
  unix_register_fat_binary-Leads size a s =
      let (fn, s') = resolve host Symbol.module_load_data s in
      elim (Bool-cases (fn == 0)) [
        | inl missing ↦ rw (missing, Leads) (then_ load done)
        | inr there ↦ elim (Option-cases (resolve_bundle_ptr (host.memory s'.world) a.fatbin)) [
          | inl unmapped ↦ rw (there, unmapped, Leads) tt
          | inr (bundle, found) ↦
              rw (there, found, Leads) (then_ load (load_bundle-Changes size fn bundle a s'))
        ]
      ]

  pub unix_register_function-Changes :
      (size : ℕ) (a : ArgsRegisterFunction) (s : Native host.World)
      → Changes host HipUnixCall.register_function size s (unix_register_function host a s).1
  unfolding unix_register_function
  unix_register_function-Changes size a s =
      let hip_module = find_module a.fatbin_token s in
      let fn = s.symbols Symbol.module_get_function in
      let (rc, function, w) = host.hip_module_get_function fn hip_module a.device_name s.world in
      elim (Bool-cases (hip_module == 0 || fn == 0)) [
        | inl unknown ↦ rw unknown done
        | inr known ↦ rw known (elim (Bool-cases (int_eq rc 0)) [
          | inl found ↦
              rw found (then_ (add_function a.host_fn function a.device_name) (then_ outside done))
          | inr failed ↦ rw failed (then_ outside done)
        ])
      ]

  pub unix_register_var-Changes :
      (size : ℕ) (a : ArgsRegisterVar) (s : Native host.World)
      → Changes host HipUnixCall.register_var size s (unix_register_var host a s).1
  unfolding unix_register_var
  unix_register_var-Changes size a s =
      let hip_module = find_module a.fatbin_token s in
      let fn = s.symbols Symbol.module_get_global in
      let (rc, device_ptr, device_size, w) =
        host.hip_module_get_global fn hip_module a.device_name s.world in
      elim (Bool-cases (hip_module == 0 || fn == 0)) [
        | inl unknown ↦ rw unknown done
        | inr known ↦ rw known (elim (Bool-cases (int_eq rc 0)) [
          | inl found ↦ rw found (then_ (add_var a.host_var device_ptr) (then_ outside done))
          | inr failed ↦ rw failed (then_ outside done)
        ])
      ]

  pub unix_unregister_fat_binary-Changes :
      (size : ℕ) (a : ArgsUnregisterFatBinary) (s : Native host.World)
      → Changes host HipUnixCall.unregister_fat_binary size s
          (unix_unregister_fat_binary host a s).1
  unfolding unix_unregister_fat_binary
  unix_unregister_fat_binary-Changes size a s = done

  pub unix_launch_kernel-Changes :
      (size : ℕ) (a : ArgsLaunchKernel) (s : Native host.World)
      → Changes host HipUnixCall.launch_kernel size s (unix_launch_kernel host a s).1
  unfolding unix_launch_kernel
  unix_launch_kernel-Changes size a s = maybe_called-Changes host _ _ s _ _ _ _
