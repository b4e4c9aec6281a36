-- ===== src/Native/Structs.antt =====
-- windows-runtime-bridge/hip-unixlib/unixlib.h: a pointer to an argument struct, as the `void *` that
-- crosses the boundary: which struct it points to is part of the value. A handler that is given
-- another struct than its own misreads it, which is a fault.
use dlssnr_on_amd_linux.Common.{Option, none, some}
use dlssnr_on_amd_linux.Native.Args.{
  ArgsDestroyExternalMemory, ArgsDeviceSynchronize, ArgsEvent, ArgsEventCreate,
  ArgsEventElapsedTime, ArgsEventRecord, ArgsExternalMemoryGetMappedBuffer, ArgsFree,
  ArgsGetDeviceCount, ArgsGetDeviceProperties, ArgsGetErrorString, ArgsGetVersion,
  ArgsImportExternalMemory, ArgsLaunchKernel, ArgsMalloc, ArgsMemcpy, ArgsMemcpyToSymbol,
  ArgsMemset, ArgsRegisterFatBinary, ArgsRegisterFunction, ArgsRegisterVar, ArgsSetDevice,
  ArgsStreamCreate, ArgsStreamSynchronize, ArgsUnregisterFatBinary,
}

pub data Args (F : Type 0) : Type 0 where
  get_device_count : ArgsGetDeviceCount → Args F
  set_device : ArgsSetDevice → Args F
  get_version : ArgsGetVersion → Args F
  get_error_string : ArgsGetErrorString → Args F
  get_device_properties : ArgsGetDeviceProperties → Args F
  malloc : ArgsMalloc → Args F
  free : ArgsFree → Args F
  memcpy : ArgsMemcpy → Args F
  memset : ArgsMemset → Args F
  device_synchronize : ArgsDeviceSynchronize → Args F
  register_fat_binary : ArgsRegisterFatBinary → Args F
  register_function : ArgsRegisterFunction → Args F
  unregister_fat_binary : ArgsUnregisterFatBinary → Args F
  register_var : ArgsRegisterVar → Args F
  memcpy_to_symbol : ArgsMemcpyToSymbol → Args F
  launch_kernel : ArgsLaunchKernel → Args F
  import_external_memory : ArgsImportExternalMemory → Args F
  external_memory_get_mapped_buffer : ArgsExternalMemoryGetMappedBuffer → Args F
  destroy_external_memory : ArgsDestroyExternalMemory → Args F
  event_create : ArgsEventCreate → Args F
  event_record : ArgsEventRecord → Args F
  event : ArgsEvent → Args F
  event_elapsed_time : ArgsEventElapsedTime F → Args F
  stream_create : ArgsStreamCreate → Args F
  stream_synchronize : ArgsStreamSynchronize → Args F

-- A struct as it is passed and as it is read.
pub record Struct (F A : Type 0) : Type 0 where
  pub pack : A → Args F
  pub unpack : Args F → Option A

module _ {F : Type 0} where
  abbrev unpack_get_device_count : Args F → Option ArgsGetDeviceCount
  unpack_get_device_count (get_device_count a) = some a
  unpack_get_device_count _ = none

  abbrev pub get_device_count_struct : Struct F ArgsGetDeviceCount
  get_device_count_struct = record { pack = get_device_count; unpack = unpack_get_device_count }

  abbrev unpack_set_device : Args F → Option ArgsSetDevice
  unpack_set_device (set_device a) = some a
  unpack_set_device _ = none

  abbrev pub set_device_struct : Struct F ArgsSetDevice
  set_device_struct = record { pack = set_device; unpack = unpack_set_device }

  abbrev unpack_get_version : Args F → Option ArgsGetVersion
  unpack_get_version (get_version a) = some a
  unpack_get_version _ = none

  abbrev pub get_version_struct : Struct F ArgsGetVersion
  get_version_struct = record { pack = get_version; unpack = unpack_get_version }

  abbrev unpack_get_error_string : Args F → Option ArgsGetErrorString
  unpack_get_error_string (get_error_string a) = some a
  unpack_get_error_string _ = none

  abbrev pub get_error_string_struct : Struct F ArgsGetErrorString
  get_error_string_struct = record { pack = get_error_string; unpack = unpack_get_error_string }

  abbrev unpack_get_device_properties : Args F → Option ArgsGetDeviceProperties
  unpack_get_device_properties (get_device_properties a) = some a
  unpack_get_device_properties _ = none

  abbrev pub get_device_properties_struct : Struct F ArgsGetDeviceProperties
  get_device_properties_struct = record {
    pack = get_device_properties;
    unpack = unpack_get_device_properties;
  }

  abbrev unpack_malloc : Args F → Option ArgsMalloc
  unpack_malloc (malloc a) = some a
  unpack_malloc _ = none

  abbrev pub malloc_struct : Struct F ArgsMalloc
  malloc_struct = record { pack = malloc; unpack = unpack_malloc }

  abbrev unpack_free : Args F → Option ArgsFree
  unpack_free (free a) = some a
  unpack_free _ = none

  abbrev pub free_struct : Struct F ArgsFree
  free_struct = record { pack = free; unpack = unpack_free }

  abbrev unpack_memcpy : Args F → Option ArgsMemcpy
  unpack_memcpy (memcpy a) = some a
  unpack_memcpy _ = none

  abbrev pub memcpy_struct : Struct F ArgsMemcpy
  memcpy_struct = record { pack = memcpy; unpack = unpack_memcpy }

  abbrev unpack_memset : Args F → Option ArgsMemset
  unpack_memset (memset a) = some a
  unpack_memset _ = none

  abbrev pub memset_struct : Struct F ArgsMemset
  memset_struct = record { pack = memset; unpack = unpack_memset }

  abbrev unpack_device_synchronize : Args F → Option ArgsDeviceSynchronize
  unpack_device_synchronize (device_synchronize a) = some a
  unpack_device_synchronize _ = none

  abbrev pub device_synchronize_struct : Struct F ArgsDeviceSynchronize
  device_synchronize_struct = record {
    pack = device_synchronize;
    unpack = unpack_device_synchronize;
  }

  abbrev unpack_register_fat_binary : Args F → Option ArgsRegisterFatBinary
  unpack_register_fat_binary (register_fat_binary a) = some a
  unpack_register_fat_binary _ = none

  abbrev pub register_fat_binary_struct : Struct F ArgsRegisterFatBinary
  register_fat_binary_struct = record {
    pack = register_fat_binary;
    unpack = unpack_register_fat_binary;
  }

  abbrev unpack_register_function : Args F → Option ArgsRegisterFunction
  unpack_register_function (register_function a) = some a
  unpack_register_function _ = none

  abbrev pub register_function_struct : Struct F ArgsRegisterFunction
  register_function_struct = record { pack = register_function; unpack = unpack_register_function }

  abbrev unpack_unregister_fat_binary : Args F → Option ArgsUnregisterFatBinary
  unpack_unregister_fat_binary (unregister_fat_binary a) = some a
  unpack_unregister_fat_binary _ = none

  abbrev pub unregister_fat_binary_struct : Struct F ArgsUnregisterFatBinary
  unregister_fat_binary_struct = record {
    pack = unregister_fat_binary;
    unpack = unpack_unregister_fat_binary;
  }

  abbrev unpack_register_var : Args F → Option ArgsRegisterVar
  unpack_register_var (register_var a) = some a
  unpack_register_var _ = none

  abbrev pub register_var_struct : Struct F ArgsRegisterVar
  register_var_struct = record { pack = register_var; unpack = unpack_register_var }

  abbrev unpack_memcpy_to_symbol : Args F → Option ArgsMemcpyToSymbol
  unpack_memcpy_to_symbol (memcpy_to_symbol a) = some a
  unpack_memcpy_to_symbol _ = none

  abbrev pub memcpy_to_symbol_struct : Struct F ArgsMemcpyToSymbol
  memcpy_to_symbol_struct = record { pack = memcpy_to_symbol; unpack = unpack_memcpy_to_symbol }

  abbrev unpack_launch_kernel : Args F → Option ArgsLaunchKernel
  unpack_launch_kernel (launch_kernel a) = some a
  unpack_launch_kernel _ = none

  abbrev pub launch_kernel_struct : Struct F ArgsLaunchKernel
  launch_kernel_struct = record { pack = launch_kernel; unpack = unpack_launch_kernel }

  abbrev unpack_import_external_memory : Args F → Option ArgsImportExternalMemory
  unpack_import_external_memory (import_external_memory a) = some a
  unpack_import_external_memory _ = none

  abbrev pub import_external_memory_struct : Struct F ArgsImportExternalMemory
  import_external_memory_struct = record {
    pack = import_external_memory;
    unpack = unpack_import_external_memory;
  }

  abbrev unpack_external_memory_get_mapped_buffer :
      Args F → Option ArgsExternalMemoryGetMappedBuffer
  unpack_external_memory_get_mapped_buffer (external_memory_get_mapped_buffer a) = some a
  unpack_external_memory_get_mapped_buffer _ = none

  abbrev pub external_memory_get_mapped_buffer_struct : Struct F ArgsExternalMemoryGetMappedBuffer
  external_memory_get_mapped_buffer_struct = record {
    pack = external_memory_get_mapped_buffer;
    unpack = unpack_external_memory_get_mapped_buffer;
  }

  abbrev unpack_destroy_external_memory : Args F → Option ArgsDestroyExternalMemory
  unpack_destroy_external_memory (destroy_external_memory a) = some a
  unpack_destroy_external_memory _ = none

  abbrev pub destroy_external_memory_struct : Struct F ArgsDestroyExternalMemory
  destroy_external_memory_struct = record {
    pack = destroy_external_memory;
    unpack = unpack_destroy_external_memory;
  }

  abbrev unpack_event_create : Args F → Option ArgsEventCreate
  unpack_event_create (event_create a) = some a
  unpack_event_create _ = none

  abbrev pub event_create_struct : Struct F ArgsEventCreate
  event_create_struct = record { pack = event_create; unpack = unpack_event_create }

  abbrev unpack_event_record : Args F → Option ArgsEventRecord
  unpack_event_record (event_record a) = some a
  unpack_event_record _ = none

  abbrev pub event_record_struct : Struct F ArgsEventRecord
  event_record_struct = record { pack = event_record; unpack = unpack_event_record }

  abbrev unpack_event : Args F → Option ArgsEvent
  unpack_event (event a) = some a
  unpack_event _ = none

  abbrev pub event_struct : Struct F ArgsEvent
  event_struct = record { pack = event; unpack = unpack_event }

  abbrev unpack_event_elapsed_time : Args F → Option (ArgsEventElapsedTime F)
  unpack_event_elapsed_time (event_elapsed_time a) = some a
  unpack_event_elapsed_time _ = none

  abbrev pub event_elapsed_time_struct : Struct F (ArgsEventElapsedTime F)
  event_elapsed_time_struct = record {
    pack = event_elapsed_time;
    unpack = unpack_event_elapsed_time;
  }

  abbrev unpack_stream_create : Args F → Option ArgsStreamCreate
  unpack_stream_create (stream_create a) = some a
  unpack_stream_create _ = none

  abbrev pub stream_create_struct : Struct F ArgsStreamCreate
  stream_create_struct = record { pack = stream_create; unpack = unpack_stream_create }

  abbrev unpack_stream_synchronize : Args F → Option ArgsStreamSynchronize
  unpack_stream_synchronize (stream_synchronize a) = some a
  unpack_stream_synchronize _ = none

  abbrev pub stream_synchronize_struct : Struct F ArgsStreamSynchronize
  stream_synchronize_struct = record {
    pack = stream_synchronize;
    unpack = unpack_stream_synchronize;
  }
