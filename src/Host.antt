-- ===== src/Host.antt =====
-- What the native side of windows-runtime-bridge/hip-unixlib/native.c calls and does not implement:
-- the C library, the dynamic linker and the real HIP runtime. All of it is a parameter, `Host`; a
-- `World` is the state outside the shim (the GPU, the driver, the process's memory and environment).
-- A HIP function is called through the address that `dlsym` gave, its first argument here. An
-- out-parameter is a result beside the `hipError_t`; where the caller's cell may hold something
-- other than zero, its old content is an argument.
use dlssnr_on_amd_linux.Common.{ℕ, ℤ, Option, Bytes, String}
use dlssnr_on_amd_linux.ExtMem.{HipExtMemHandleDesc, HipExtMemBufferDesc}

pub record Host : Type 1 where
  pub World : Type 0
  pub Float : Type 0
  pub zero_float : Float
  -- A byte of the process's memory; `none` where nothing is mapped.
  pub memory : World → ℕ → Option ℕ
  pub getenv : String → World → Option Bytes
  pub setenv : String → Bytes → World → World
  pub strtoull : Bytes → ℕ
  pub dlopen : String → World → ℕ × World
  pub dlsym : ℕ → String → World → ℕ
  pub hip_malloc : ℕ → ℕ → World → ℤ × ℕ × World
  pub hip_free : ℕ → ℕ → World → ℤ × World
  pub hip_memcpy : ℕ → ℕ → ℕ → ℕ → ℤ → World → ℤ × World
  pub hip_memset : ℕ → ℕ → ℤ → ℕ → World → ℤ × World
  pub hip_memcpy_async : ℕ → ℕ → ℕ → ℕ → ℤ → ℕ → World → ℤ × World
  pub hip_memset_async : ℕ → ℕ → ℤ → ℕ → ℕ → World → ℤ × World
  pub hip_get_error_string : ℕ → ℤ → World → ℕ × World
  pub hip_get_device_count : ℕ → ℤ → World → ℤ × ℤ × World
  pub hip_set_device : ℕ → ℤ → World → ℤ × World
  pub hip_driver_get_version : ℕ → World → ℤ × ℤ × World
  pub hip_runtime_get_version : ℕ → World → ℤ × ℤ × World
  pub hip_import_external_memory : ℕ → HipExtMemHandleDesc → World → ℤ × ℕ × World
  pub hip_external_memory_get_mapped_buffer : ℕ → ℕ → HipExtMemBufferDesc → World → ℤ × ℕ × World
  pub hip_destroy_external_memory : ℕ → ℕ → World → ℤ × World
  pub hip_event_create : ℕ → World → ℤ × ℕ × World
  pub hip_event_create_with_flags : ℕ → ℕ → World → ℤ × ℕ × World
  pub hip_event_record : ℕ → ℕ → ℕ → World → ℤ × World
  pub hip_event_synchronize : ℕ → ℕ → World → ℤ × World
  pub hip_event_query : ℕ → ℕ → World → ℤ × World
  pub hip_event_elapsed_time : ℕ → ℕ → ℕ → World → ℤ × Float × World
  pub hip_stream_create_with_flags : ℕ → ℕ → World → ℤ × ℕ × World
  pub hip_stream_synchronize : ℕ → ℕ → World → ℤ × World
  pub hip_device_synchronize : ℕ → World → ℤ × World
  pub hip_get_device_properties : ℕ → ℕ → ℤ → World → ℤ × World
  pub hip_module_load_data : ℕ → ℕ → World → ℤ × ℕ × World
  pub hip_module_get_function : ℕ → ℕ → Option Bytes → World → ℤ × ℕ × World
  pub hip_module_get_global : ℕ → ℕ → Option Bytes → World → ℤ × ℕ × ℕ × World
  -- The function, the grid, the block, the shared memory, the stream and the one kernel parameter.
  pub hip_module_launch_kernel : ℕ → ℕ → ℕ → ℕ → ℕ → ℕ → ℕ → ℕ → ℕ → ℕ → ℕ → World → ℤ × World
