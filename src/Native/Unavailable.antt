-- ===== src/Native/Unavailable.antt =====
-- native.c on a machine where no HIP runtime can be opened: every handler reports failure, makes no
-- result up, and calls no HIP function.
use dlssnr_on_amd_linux.Common.{
  pos, minus_one, ◌≡◌, refl, some, List, [], ◌∷◌, ◌==◌, String, arith, if◌then◌else◌, inl, inr,
  Bool-cases,
}
use dlssnr_on_amd_linux.Forward.{hip_version_query_apply, hip_forward_ptr_result}
use dlssnr_on_amd_linux.Host.{Host}
use dlssnr_on_amd_linux.Native.{
  Native, Symbol, candidates, open_first, set_ld_path, ensure_loaded, resolve, find_var,
}
use dlssnr_on_amd_linux.Native.Loading.{IsUnloaded}
use dlssnr_on_amd_linux.Native.Args.{
  ArgsDestroyExternalMemory, ArgsDeviceSynchronize, ArgsEvent, ArgsEventCreate,
  ArgsEventElapsedTime, ArgsEventRecord, ArgsExternalMemoryGetMappedBuffer, ArgsFree,
  ArgsGetDeviceCount, ArgsGetDeviceProperties, ArgsGetErrorString, ArgsGetVersion,
  ArgsImportExternalMemory, ArgsLaunchKernel, ArgsMalloc, ArgsMemcpy, ArgsMemcpyToSymbol,
  ArgsMemset, ArgsRegisterFatBinary, ArgsRegisterFunction, ArgsRegisterVar, ArgsSetDevice,
  ArgsStreamCreate, ArgsStreamSynchronize, ArgsUnregisterFatBinary, fallback,
}
use dlssnr_on_amd_linux.Native.Queries.{
  unix_get_device_count, unix_set_device, unix_driver_get_version, unix_runtime_get_version,
  unix_get_error_string, unix_get_device_properties, unix_device_synchronize,
}
use dlssnr_on_amd_linux.Native.Memory.{
  unix_malloc, unix_free, unix_memcpy, unix_memset, unix_memcpy_async, unix_memset_async,
  unix_memcpy_to_symbol,
}
use dlssnr_on_amd_linux.Native.Modules.{
  unix_register_fat_binary, unix_register_function, unix_register_var, unix_unregister_fat_binary,
  unix_launch_kernel,
}
use dlssnr_on_amd_linux.Native.Interop.{
  unix_import_external_memory, unix_external_memory_get_mapped_buffer, unix_destroy_external_memory,
  unix_event_create, unix_event_record, unix_event_synchronize, unix_event_query,
  unix_event_elapsed_time, unix_stream_create, unix_stream_synchronize,
}
use dlssnr_on_amd_linux.Native.Dispatch.{
  HipUnixCall, get_device_count, set_device, driver_get_version, runtime_get_version,
  get_error_string, get_device_properties, malloc, free, memcpy, device_synchronize,
  register_fat_binary, register_function, unregister_fat_binary, launch_kernel,
  import_external_memory, external_memory_get_mapped_buffer, destroy_external_memory, event_create,
  event_record, event_synchronize, event_query, event_elapsed_time, stream_create,
  stream_synchronize, memset, memset_async, register_var, memcpy_to_symbol, memcpy_async,
}

module _ (host : Host) where
  -- The attempts to open a library change the world alone.
  abbrev pub attempted : Native host.World → Native host.World
  attempted s = record s { world = (open_first host candidates (set_ld_path host s.world)).1 }

  -- What a handler does without the runtime: its reply, and the state in which it leaves the
  -- process, where only the world may differ, by the attempts to open the library.
  abbrev pub Refuses : HipUnixCall → Native host.World → Type 0
  Refuses get_device_count s =
      (a : ArgsGetDeviceCount)
      → unix_get_device_count host a s ≡ (record a { ret = minus_one }, attempted s)
  Refuses set_device s =
      (a : ArgsSetDevice) → unix_set_device host a s ≡ (record a { ret = minus_one }, attempted s)
  Refuses driver_get_version s =
      (a : ArgsGetVersion)
      → unix_driver_get_version host a s
        ≡ (record { version = pos 0; ret = minus_one }, attempted s)
  Refuses runtime_get_version s =
      (a : ArgsGetVersion)
      → unix_runtime_get_version host a s
        ≡ (record { version = pos 0; ret = minus_one }, attempted s)
  Refuses get_error_string s =
      (a : ArgsGetErrorString)
      → unix_get_error_string host a s ≡ (record a { ret_str = fallback }, attempted s)
  Refuses get_device_properties s =
      (a : ArgsGetDeviceProperties)
      → unix_get_device_properties host a s ≡ (record a { ret = minus_one }, attempted s)
  Refuses malloc s =
      (a : ArgsMalloc) → unix_malloc host a s ≡ (record a { ptr = 0; ret = minus_one }, attempted s)
  Refuses free s = (a : ArgsFree) → unix_free host a s ≡ (record a { ret = minus_one }, attempted s)
  Refuses memcpy s =
      (a : ArgsMemcpy) → unix_memcpy host a s ≡ (record a { ret = minus_one }, attempted s)
  Refuses device_synchronize s =
      (a : ArgsDeviceSynchronize)
      → unix_device_synchronize host a s ≡ (record { ret = minus_one }, attempted s)
  Refuses register_fat_binary s =
      (a : ArgsRegisterFatBinary)
      → unix_register_fat_binary host a s ≡ some (record a { fatbin_token = 0 }, attempted s)
  Refuses register_function s =
      (a : ArgsRegisterFunction) → unix_register_function host a s ≡ (a, s)
  Refuses unregister_fat_binary s =
      (a : ArgsUnregisterFatBinary) → unix_unregister_fat_binary host a s ≡ (a, s)
  Refuses launch_kernel s =
      (a : ArgsLaunchKernel) → unix_launch_kernel host a s ≡ (record a { ret = minus_one }, s)
  Refuses import_external_memory s =
      (a : ArgsImportExternalMemory)
      → unix_import_external_memory host a s
        ≡ (record a { ext_mem = 0; ret = minus_one }, attempted s)
  Refuses external_memory_get_mapped_buffer s =
      (a : ArgsExternalMemoryGetMappedBuffer)
      → unix_external_memory_get_mapped_buffer host a s
        ≡ (record a { dev_ptr = 0; ret = minus_one }, attempted s)
  Refuses destroy_external_memory s =
      (a : ArgsDestroyExternalMemory)
      → unix_destroy_external_memory host a s ≡ (record a { ret = minus_one }, attempted s)
  Refuses event_create s =
      (a : ArgsEventCreate)
      → unix_event_create host a s ≡ (record a { event = 0; ret = minus_one }, attempted s)
  Refuses event_record s =
      (a : ArgsEventRecord)
      → unix_event_record host a s ≡ (record a { ret = minus_one }, attempted s)
  Refuses event_synchronize s =
      (a : ArgsEvent)
      → unix_event_synchronize host a s ≡ (record a { ret = minus_one }, attempted s)
  Refuses event_query s =
      (a : ArgsEvent) → unix_event_query host a s ≡ (record a { ret = minus_one }, attempted s)
  Refuses event_elapsed_time s =
      (a : ArgsEventElapsedTime host.Float)
      → unix_event_elapsed_time host a s
        ≡ (record a { ms = host.zero_float; ret = minus_one }, attempted s)
  Refuses stream_create s =
      (a : ArgsStreamCreate)
      → unix_stream_create host a s ≡ (record a { stream = 0; ret = minus_one }, attempted s)
  Refuses stream_synchronize s =
      (a : ArgsStreamSynchronize)
      → unix_stream_synchronize host a s ≡ (record a { ret = minus_one }, attempted s)
  Refuses memset s =
      (a : ArgsMemset) → unix_memset host a s ≡ (record a { ret = minus_one }, attempted s)
  Refuses memset_async s =
      (a : ArgsMemset) → unix_memset_async host a s ≡ (record a { ret = minus_one }, attempted s)
  Refuses register_var s = (a : ArgsRegisterVar) → unix_register_var host a s ≡ (a, s)
  Refuses memcpy_to_symbol s =
      (a : ArgsMemcpyToSymbol)
      → unix_memcpy_to_symbol host a s
        ≡ (record a { ret = minus_one }, if find_var a.symbol s == 0 then s else attempted s)
  Refuses memcpy_async s =
      (a : ArgsMemcpy) → unix_memcpy_async host a s ≡ (record a { ret = minus_one }, attempted s)

  module _ (none_opens : (c : String) (w : host.World) → (host.dlopen c w).0 ≡ 0) where
    open_first_fails : (cs : List String) (w : host.World) → (open_first host cs w).0 ≡ 0
    unfolding open_first
    open_first_fails [] w = refl
    open_first_fails (c ∷ cs) w = rw (none_opens c w) (open_first_fails cs (host.dlopen c w).1)

    resolve_fails :
        (sym : Symbol) (s : Native host.World)
        → IsUnloaded host s
        → resolve host sym s ≡ (0, attempted s)
    unfolding resolve ensure_loaded
    resolve_fails sym s u = rw (u.handle, open_first_fails candidates (set_ld_path host s.world))

    -- If no library can be opened and the runtime is not loaded yet, each of the 29 handlers
    -- refuses its call: it reports -1 and yields a null result where it has these outputs (the
    -- fixed text for an error string), and the state stays as an attempt at loading leaves it, or
    -- unchanged where the handler does not try to load.
    pub unavailable-Refuses :
        (call : HipUnixCall) (s : Native host.World) → IsUnloaded host s → Refuses call s
    unfolding unix_get_device_count unix_set_device unix_driver_get_version unix_runtime_get_version
        unix_get_error_string unix_get_device_properties unix_malloc unix_free unix_memcpy
        unix_device_synchronize unix_register_fat_binary unix_register_function
        unix_unregister_fat_binary unix_launch_kernel unix_import_external_memory
        unix_external_memory_get_mapped_buffer unix_destroy_external_memory unix_event_create
        unix_event_record unix_event_synchronize unix_event_query unix_event_elapsed_time
        unix_stream_create unix_stream_synchronize unix_memset unix_memset_async unix_register_var
        unix_memcpy_to_symbol unix_memcpy_async hip_version_query_apply hip_forward_ptr_result
    unavailable-Refuses get_device_count s u = λ a. rw (resolve_fails Symbol.get_device_count s u)
    unavailable-Refuses set_device s u = λ a. rw (resolve_fails Symbol.set_device s u)
    unavailable-Refuses driver_get_version s u =
        λ a. rw (resolve_fails Symbol.driver_get_version s u)
    unavailable-Refuses runtime_get_version s u =
        λ a. rw (resolve_fails Symbol.runtime_get_version s u)
    unavailable-Refuses get_error_string s u = λ a. rw (resolve_fails Symbol.get_error_string s u)
    unavailable-Refuses get_device_properties s u =
        λ a. rw (resolve_fails Symbol.get_device_properties s u)
    unavailable-Refuses malloc s u = λ a. rw (resolve_fails Symbol.malloc s u)
    unavailable-Refuses free s u = λ a. rw (resolve_fails Symbol.free s u)
    unavailable-Refuses memcpy s u = λ a. rw (resolve_fails Symbol.memcpy s u)
    unavailable-Refuses device_synchronize s u =
        λ a. rw (resolve_fails Symbol.device_synchronize s u)
    unavailable-Refuses register_fat_binary s u =
        λ a. rw (resolve_fails Symbol.module_load_data s u)
    unavailable-Refuses register_function s u =
        λ a. ground (arith, u.symbols Symbol.module_get_function)
    unavailable-Refuses unregister_fat_binary s u = λ a. refl
    unavailable-Refuses launch_kernel s u =
        λ a. ground (arith, u.symbols Symbol.module_launch_kernel)
    unavailable-Refuses import_external_memory s u =
        λ a. rw (resolve_fails Symbol.import_external_memory s u)
    unavailable-Refuses external_memory_get_mapped_buffer s u =
        λ a. rw (resolve_fails Symbol.external_memory_get_mapped_buffer s u)
    unavailable-Refuses destroy_external_memory s u =
        λ a. rw (resolve_fails Symbol.destroy_external_memory s u)
    unavailable-Refuses event_create s u = λ a. elim (Bool-cases (a.flags == 0)) [
      | inl plain ↦ rw (plain, resolve_fails Symbol.event_create s u)
      | inr flagged ↦ rw (flagged, resolve_fails Symbol.event_create_with_flags s u)
    ]
    unavailable-Refuses event_record s u = λ a. rw (resolve_fails Symbol.event_record s u)
    unavailable-Refuses event_synchronize s u = λ a. rw (resolve_fails Symbol.event_synchronize s u)
    unavailable-Refuses event_query s u = λ a. rw (resolve_fails Symbol.event_query s u)
    unavailable-Refuses event_elapsed_time s u =
        λ a. rw (resolve_fails Symbol.event_elapsed_time s u)
    unavailable-Refuses stream_create s u =
        λ a. rw (resolve_fails Symbol.stream_create_with_flags s u)
    unavailable-Refuses stream_synchronize s u =
        λ a. rw (resolve_fails Symbol.stream_synchronize s u)
    unavailable-Refuses memset s u = λ a. rw (resolve_fails Symbol.memset s u)
    unavailable-Refuses memset_async s u = λ a. rw (resolve_fails Symbol.memset_async s u)
    unavailable-Refuses register_var s u = λ a. ground (arith, u.symbols Symbol.module_get_global)
    unavailable-Refuses memcpy_to_symbol s u = λ a. elim (Bool-cases (find_var a.symbol s == 0)) [
      | inl unknown ↦ rw unknown refl
      | inr known ↦ rw (known, resolve_fails Symbol.memcpy s u) refl
    ]
    unavailable-Refuses memcpy_async s u = λ a. rw (resolve_fails Symbol.memcpy_async s u)
