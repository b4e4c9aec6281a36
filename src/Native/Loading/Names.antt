-- ===== src/Native/Loading/Names.antt =====
-- native.c, `ensure_loaded`: each pointer is looked up under the name of its own function.
use dlssnr_on_amd_linux.Common.{◌≡◌, refl, String}
use dlssnr_on_amd_linux.Native.{Symbol, symbol_name}

-- The function of the HIP runtime that each pointer stands for.
abbrev pub hip_name : Symbol → String
hip_name Symbol.malloc = "hipMalloc"
hip_name Symbol.free = "hipFree"
hip_name Symbol.memcpy = "hipMemcpy"
hip_name Symbol.memset = "hipMemset"
hip_name Symbol.memcpy_async = "hipMemcpyAsync"
hip_name Symbol.memset_async = "hipMemsetAsync"
hip_name Symbol.get_error_string = "hipGetErrorString"
hip_name Symbol.get_device_count = "hipGetDeviceCount"
hip_name Symbol.set_device = "hipSetDevice"
hip_name Symbol.driver_get_version = "hipDriverGetVersion"
hip_name Symbol.runtime_get_version = "hipRuntimeGetVersion"
hip_name Symbol.import_external_memory = "hipImportExternalMemory"
hip_name Symbol.external_memory_get_mapped_buffer = "hipExternalMemoryGetMappedBuffer"
hip_name Symbol.destroy_external_memory = "hipDestroyExternalMemory"
hip_name Symbol.event_create = "hipEventCreate"
hip_name Symbol.event_create_with_flags = "hipEventCreateWithFlags"
hip_name Symbol.event_record = "hipEventRecord"
hip_name Symbol.event_synchronize = "hipEventSynchronize"
hip_name Symbol.event_query = "hipEventQuery"
hip_name Symbol.event_elapsed_time = "hipEventElapsedTime"
hip_name Symbol.stream_create_with_flags = "hipStreamCreateWithFlags"
hip_name Symbol.stream_synchronize = "hipStreamSynchronize"
hip_name Symbol.device_synchronize = "hipDeviceSynchronize"
hip_name Symbol.get_device_properties = "hipGetDevicePropertiesR0600"
hip_name Symbol.module_load_data = "hipModuleLoadData"
hip_name Symbol.module_get_function = "hipModuleGetFunction"
hip_name Symbol.module_get_global = "hipModuleGetGlobal"
hip_name Symbol.module_launch_kernel = "hipModuleLaunchKernel"

pub symbol_name-hip_name : (sym : Symbol) → symbol_name sym ≡ hip_name sym
symbol_name-hip_name Symbol.malloc = refl
symbol_name-hip_name Symbol.free = refl
symbol_name-hip_name Symbol.memcpy = refl
symbol_name-hip_name Symbol.memset = refl
symbol_name-hip_name Symbol.memcpy_async = refl
symbol_name-hip_name Symbol.memset_async = refl
symbol_name-hip_name Symbol.get_error_string = refl
symbol_name-hip_name Symbol.get_device_count = refl
symbol_name-hip_name Symbol.set_device = refl
symbol_name-hip_name Symbol.driver_get_version = refl
symbol_name-hip_name Symbol.runtime_get_version = refl
symbol_name-hip_name Symbol.import_external_memory = refl
symbol_name-hip_name Symbol.external_memory_get_mapped_buffer = refl
symbol_name-hip_name Symbol.destroy_external_memory = refl
symbol_name-hip_name Symbol.event_create = refl
symbol_name-hip_name Symbol.event_create_with_flags = refl
symbol_name-hip_name Symbol.event_record = refl
symbol_name-hip_name Symbol.event_synchronize = refl
symbol_name-hip_name Symbol.event_query = refl
symbol_name-hip_name Symbol.event_elapsed_time = refl
symbol_name-hip_name Symbol.stream_create_with_flags = refl
symbol_name-hip_name Symbol.stream_synchronize = refl
symbol_name-hip_name Symbol.device_synchronize = refl
symbol_name-hip_name Symbol.get_device_properties = refl
symbol_name-hip_name Symbol.module_load_data = refl
symbol_name-hip_name Symbol.module_get_function = refl
symbol_name-hip_name Symbol.module_get_global = refl
symbol_name-hip_name Symbol.module_launch_kernel = refl
