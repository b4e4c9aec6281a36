-- ===== src/Tests.antt =====
-- A concrete host for the tests: the world counts the calls that reached the runtime, every library
-- opens under handle 7, every symbol stands at address 100, and each call of the runtime succeeds.
pub mod Stores
pub mod Calls
pub mod Windows
pub mod Ring
pub mod Probes
pub mod Kernels
pub mod Index
pub mod Programs
pub mod Timing
pub mod Environment
use dlssnr_on_amd_linux.Common.{
  ℕ, ℤ, pos, ◌+◌, ◌*◌, true, Option, none, some, String, Bytes, ltb, ◌==◌, if◌then◌else◌,
}
use dlssnr_on_amd_linux.Host.{Host}
use dlssnr_on_amd_linux.Native.{Native}
use dlssnr_on_amd_linux.Native
use dlssnr_on_amd_linux.Registry
use dlssnr_on_amd_linux.AllocCap
use dlssnr_on_amd_linux.Pe.{Process}
use dlssnr_on_amd_linux.Pe

abbrev pub host_with : (String → ℕ → ℕ × ℕ) → Host
host_with dlopen = record {
  World = ℕ;
  Float = ℕ;
  zero_float = 0;
  memory = λ w a. some 0;
  getenv = λ name w. none;
  setenv = λ name value w. w;
  strtoull = λ text. 0;
  dlopen = dlopen;
  dlsym = λ handle name w. 100;
  hip_malloc = λ fn size w. (pos 0, 4096 * (w + 1), w + 1);
  hip_free = λ fn ptr w. (pos 0, w + 1);
  hip_memcpy = λ fn dst src size kind w. (pos 0, w + 1);
  hip_memset = λ fn ptr value size w. (pos 0, w + 1);
  hip_memcpy_async = λ fn dst src size kind stream w. (pos 0, w + 1);
  hip_memset_async = λ fn ptr value size stream w. (pos 0, w + 1);
  hip_get_error_string = λ fn error w. (50, w);
  hip_get_device_count = λ fn count w. (pos 0, pos 1, w);
  hip_set_device = λ fn device w. if fn == 100 then (pos 1, w) else (pos 0, w);
  hip_driver_get_version = λ fn w. (pos 0, pos 70, w);
  hip_runtime_get_version = λ fn w. (pos 0, pos 72, w);
  hip_import_external_memory = λ fn desc w. (pos 0, 9000 + desc.handle, w + 1);
  hip_external_memory_get_mapped_buffer = λ fn ext_mem desc w. (pos 0, 9500, w + 1);
  hip_destroy_external_memory = λ fn ext_mem w. (pos 0, w + 1);
  hip_event_create = λ fn w. (pos 0, 600, w + 1);
  hip_event_create_with_flags = λ fn flags w. (pos 0, 601, w + 1);
  hip_event_record = λ fn event stream w. (pos 0, w + 1);
  hip_event_synchronize = λ fn event w. (pos 0, w + 1);
  hip_event_query = λ fn event w. (pos 600, w);
  hip_event_elapsed_time = λ fn start stop w. (pos 0, 5, w);
  hip_stream_create_with_flags = λ fn flags w. (pos 0, 700, w + 1);
  hip_stream_synchronize = λ fn stream w. (pos 0, w + 1);
  hip_device_synchronize = λ fn w. (pos 0, w + 1);
  hip_get_device_properties = λ fn props device w. (pos 0, w);
  hip_module_load_data = λ fn bundle w. (pos 0, 800, w + 1);
  hip_module_get_function = λ fn module_ name w. (pos 0, 900, w + 1);
  hip_module_get_global = λ fn module_ name w. (pos 0, 1000, 64, w + 1);
  hip_module_launch_kernel =
      λ fn function gx gy gz bx by bz shared_mem stream params w. (pos 0, w + gx * bx);
}

abbrev pub toy_host : Host
toy_host = host_with (λ name w. (7, w))

-- No library opens.
abbrev pub bare_host : Host
bare_host = host_with (λ name w. (0, w + 1))

-- The runtime is loaded, a limit of 1000 bytes is set, and nothing has been called.
abbrev pub loaded : Native ℕ
loaded = record {
  hip_handle = 7;
  symbols = λ sym. 100;
  registry = Registry.initial;
  alloc_cap = AllocCap.initial;
  vram_cap_bytes = 1000;
  vram_cap_read = true;
  world = 0;
}

abbrev pub fresh : Process ℕ
fresh = Pe.initial 0

-- A process whose runtime is loaded.
abbrev pub started : Process ℕ
started = record fresh { native = loaded }
