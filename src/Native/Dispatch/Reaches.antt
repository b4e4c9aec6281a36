-- ===== src/Native/Dispatch/Reaches.antt =====
-- Every call number of the bridge selects the handler that is meant for it, and that handler reads
-- the struct that the caller passes.
use dlssnr_on_amd_linux.Common.{◌≡◌, refl, some, arith}
use dlssnr_on_amd_linux.Host.{Host}
use dlssnr_on_amd_linux.Native.{Native}
use dlssnr_on_amd_linux.Native.Args.{
  ArgsDestroyExternalMemory, ArgsDeviceSynchronize, ArgsEvent, ArgsEventCreate,
  ArgsEventElapsedTime, ArgsEventRecord, ArgsExternalMemoryGetMappedBuffer, ArgsFree,
  ArgsGetDeviceCount, ArgsGetDeviceProperties, ArgsGetErrorString, ArgsGetVersion,
  ArgsImportExternalMemory, ArgsLaunchKernel, ArgsMalloc, ArgsMemcpy, ArgsMemcpyToSymbol,
  ArgsMemset, ArgsRegisterFatBinary, ArgsRegisterFunction, ArgsRegisterVar, ArgsSetDevice,
  ArgsStreamCreate, ArgsStreamSynchronize, ArgsUnregisterFatBinary,
}
use dlssnr_on_amd_linux.Native.Structs.{
  get_device_count_struct, set_device_struct, get_version_struct, get_error_string_struct,
  get_device_properties_struct, malloc_struct, free_struct, memcpy_struct, memset_struct,
  device_synchronize_struct, register_fat_binary_struct, register_function_struct,
  unregister_fat_binary_struct, register_var_struct, memcpy_to_symbol_struct, launch_kernel_struct,
  import_external_memory_struct, external_memory_get_mapped_buffer_struct,
  destroy_external_memory_struct, event_create_struct, event_record_struct, event_struct,
  event_elapsed_time_struct, stream_create_struct, stream_synchronize_struct,
}
use dlssnr_on_amd_linux.Native.Queries.{
  unix_get_device_count, unix_set_device, unix_driver_get_version, unix_runtime_get_version,
  unix_get_error_string, unix_get_device_properties, unix_device_synchronize,
}
use dlssnr_on_amd_linux.Native.Memory.{
  unix_malloc, unix_free, unix_memcpy, unix_memset, unix_memcpy_async, unix_memset_async,
  unix_memcpy_to_symbol,
}
use dlssnr_on_amd_linux.Native.Modules.{
  unix_register_fat_binary, unix_register_function, unix_register_var, unix_unregister_fat_binary,
  unix_launch_kernel,
}
use dlssnr_on_amd_linux.Native.Interop.{
  unix_import_external_memory, unix_external_memory_get_mapped_buffer, unix_destroy_external_memory,
  unix_event_create, unix_event_record, unix_event_synchronize, unix_event_query,
  unix_event_elapsed_time, unix_stream_create, unix_stream_synchronize,
}
use dlssnr_on_amd_linux.Native.Dispatch.{
  HipUnixCall, unix_call, get_device_count, set_device, driver_get_version, runtime_get_version,
  get_error_string, get_device_properties, malloc, free, memcpy, device_synchronize,
  register_fat_binary, register_function, unregister_fat_binary, launch_kernel,
  import_external_memory, external_memory_get_mapped_buffer, destroy_external_memory, event_create,
  event_record, event_synchronize, event_query, event_elapsed_time, stream_create,
  stream_synchronize, memset, memset_async, register_var, memcpy_to_symbol, memcpy_async,
}

module _ (host : Host) where
  -- The call runs its own handler on the caller's struct.
  abbrev pub Reaches : HipUnixCall → Type 0
  Reaches get_device_count =
      (a : ArgsGetDeviceCount) (s : Native host.World)
      → unix_call host get_device_count get_device_count_struct a s
        ≡ some (unix_get_device_count host a s)
  Reaches set_device =
      (a : ArgsSetDevice) (s : Native host.World)
      → unix_call host set_device set_device_struct a s ≡ some (unix_set_device host a s)
  Reaches driver_get_version =
      (a : ArgsGetVersion) (s : Native host.World)
      → unix_call host driver_get_version get_version_struct a s
        ≡ some (unix_driver_get_version host a s)
  Reaches runtime_get_version =
      (a : ArgsGetVersion) (s : Native host.World)
      → unix_call host runtime_get_version get_version_struct a s
        ≡ some (unix_runtime_get_version host a s)
  Reaches get_error_string =
      (a : ArgsGetErrorString) (s : Native host.World)
      → unix_call host get_error_string get_error_string_struct a s
        ≡ some (unix_get_error_string host a s)
  Reaches get_device_properties =
      (a : ArgsGetDeviceProperties) (s : Native host.World)
      → unix_call host get_device_properties get_device_properties_struct a s
        ≡ some (unix_get_device_properties host a s)
  Reaches malloc =
      (a : ArgsMalloc) (s : Native host.World)
      → unix_call host malloc malloc_struct a s ≡ some (unix_malloc host a s)
  Reaches free =
      (a : ArgsFree) (s : Native host.World)
      → unix_call host free free_struct a s ≡ some (unix_free host a s)
  Reaches memcpy =
      (a : ArgsMemcpy) (s : Native host.World)
      → unix_call host memcpy memcpy_struct a s ≡ some (unix_memcpy host a s)
  Reaches device_synchronize =
      (a : ArgsDeviceSynchronize) (s : Native host.World)
      → unix_call host device_synchronize device_synchronize_struct a s
        ≡ some (unix_device_synchronize host a s)
  Reaches register_fat_binary =
      (a : ArgsRegisterFatBinary) (s : Native host.World)
      → unix_call host register_fat_binary register_fat_binary_struct a s
        ≡ unix_register_fat_binary host a s
  Reaches register_function =
      (a : ArgsRegisterFunction) (s : Native host.World)
      → unix_call host register_function register_function_struct a s
        ≡ some (unix_register_function host a s)
  Reaches unregister_fat_binary =
      (a : ArgsUnregisterFatBinary) (s : Native host.World)
      → unix_call host unregister_fat_binary unregister_fat_binary_struct a s
        ≡ some (unix_unregister_fat_binary host a s)
  Reaches launch_kernel =
      (a : ArgsLaunchKernel) (s : Native host.World)
      → unix_call host launch_kernel launch_kernel_struct a s ≡ some (unix_launch_kernel host a s)
  Reaches import_external_memory =
      (a : ArgsImportExternalMemory) (s : Native host.World)
      → unix_call host import_external_memory import_external_memory_struct a s
        ≡ some (unix_import_external_memory host a s)
  Reaches external_memory_get_mapped_buffer =
      (a : ArgsExternalMemoryGetMappedBuffer) (s : Native host.World)
      → unix_call host external_memory_get_mapped_buffer external_memory_get_mapped_buffer_struct a
          s
        ≡ some (unix_external_memory_get_mapped_buffer host a s)
  Reaches destroy_external_memory =
      (a : ArgsDestroyExternalMemory) (s : Native host.World)
      → unix_call host destroy_external_memory destroy_external_memory_struct a s
        ≡ some (unix_destroy_external_memory host a s)
  Reaches event_create =
      (a : ArgsEventCreate) (s : Native host.World)
      → unix_call host event_create event_create_struct a s ≡ some (unix_event_create host a s)
  Reaches event_record =
      (a : ArgsEventRecord) (s : Native host.World)
      → unix_call host event_record event_record_struct a s ≡ some (unix_event_record host a s)
  Reaches event_synchronize =
      (a : ArgsEvent) (s : Native host.World)
      → unix_call host event_synchronize event_struct a s ≡ some (unix_event_synchronize host a s)
  Reaches event_query =
      (a : ArgsEvent) (s : Native host.World)
      → unix_call host event_query event_struct a s ≡ some (unix_event_query host a s)
  Reaches event_elapsed_time =
      (a : ArgsEventElapsedTime host.Float) (s : Native host.World)
      → unix_call host event_elapsed_time event_elapsed_time_struct a s
        ≡ some (unix_event_elapsed_time host a s)
  Reaches stream_create =
      (a : ArgsStreamCreate) (s : Native host.World)
      → unix_call host stream_create stream_create_struct a s ≡ some (unix_stream_create host a s)
  Reaches stream_synchronize =
      (a : ArgsStreamSynchronize) (s : Native host.World)
      → unix_call host stream_synchronize stream_synchronize_struct a s
        ≡ some (unix_stream_synchronize host a s)
  Reaches memset =
      (a : ArgsMemset) (s : Native host.World)
      → unix_call host memset memset_struct a s ≡ some (unix_memset host a s)
  Reaches memset_async =
      (a : ArgsMemset) (s : Native host.World)
      → unix_call host memset_async memset_struct a s ≡ some (unix_memset_async host a s)
  Reaches register_var =
      (a : ArgsRegisterVar) (s : Native host.World)
      → unix_call host register_var register_var_struct a s ≡ some (unix_register_var host a s)
  Reaches memcpy_to_symbol =
      (a : ArgsMemcpyToSymbol) (s : Native host.World)
      → unix_call host memcpy_to_symbol memcpy_to_symbol_struct a s
        ≡ some (unix_memcpy_to_symbol host a s)
  Reaches memcpy_async =
      (a : ArgsMemcpy) (s : Native host.World)
      → unix_call host memcpy_async memcpy_struct a s ≡ some (unix_memcpy_async host a s)

  -- For each of the 29 calls, the table entry at the number of the call is the handler meant for
  -- it: the call with its own argument struct answers with exactly what that handler makes of the
  -- struct and the state, without a fault. The one exception is the registration of a fat binary,
  -- which faults exactly where its handler does.
  pub unix_call-Reaches : (call : HipUnixCall) → Reaches call
  unfolding unix_call
  unix_call-Reaches get_device_count = λ a s. refl
  unix_call-Reaches set_device = λ a s. refl
  unix_call-Reaches driver_get_version = λ a s. refl
  unix_call-Reaches runtime_get_version = λ a s. refl
  unix_call-Reaches get_error_string = λ a s. refl
  unix_call-Reaches get_device_properties = λ a s. refl
  unix_call-Reaches malloc = λ a s. refl
  unix_call-Reaches free = λ a s. refl
  unix_call-Reaches memcpy = λ a s. refl
  unix_call-Reaches device_synchronize = λ a s. refl
  unix_call-Reaches register_fat_binary = λ a s. ground arith
  unix_call-Reaches register_function = λ a s. refl
  unix_call-Reaches unregister_fat_binary = λ a s. refl
  unix_call-Reaches launch_kernel = λ a s. refl
  unix_call-Reaches import_external_memory = λ a s. refl
  unix_call-Reaches external_memory_get_mapped_buffer = λ a s. refl
  unix_call-Reaches destroy_external_memory = λ a s. refl
  unix_call-Reaches event_create = λ a s. refl
  unix_call-Reaches event_record = λ a s. refl
  unix_call-Reaches event_synchronize = λ a s. refl
  unix_call-Reaches event_query = λ a s. refl
  unix_call-Reaches event_elapsed_time = λ a s. refl
  unix_call-Reaches stream_create = λ a s. refl
  unix_call-Reaches stream_synchronize = λ a s. refl
  unix_call-Reaches memset = λ a s. refl
  unix_call-Reaches memset_async = λ a s. refl
  unix_call-Reaches register_var = λ a s. refl
  unix_call-Reaches memcpy_to_symbol = λ a s. refl
  unix_call-Reaches memcpy_async = λ a s. refl
