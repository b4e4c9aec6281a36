-- ===== src/Native.antt =====
-- windows-runtime-bridge/hip-unixlib/native.c: the state of the native side, the loading of the HIP
-- runtime, and the addresses of its functions. The mutexes are left out: a step here is a whole
-- call. Logging is left out. `Native` holds the file's static variables, those of registry.c and
-- alloc_cap.c, and the world outside.
pub mod Args
pub mod Loading
pub mod Queries
pub mod Memory
pub mod Modules
pub mod Interop
pub mod Unavailable
pub mod Kernels
pub mod Limit
pub mod Structs
pub mod Dispatch
pub mod Changes
use dlssnr_on_amd_linux.Common.{
  ℕ, suc, ◌+◌, Bool, true, false, not, ◌&&◌, Option, none, some, List, [], ◌∷◌, ◌++◌, ◌==◌,
  if◌then◌else◌, take, Bytes, codes, String,
}
use dlssnr_on_amd_linux.Registry.{
  Registry, registry_find_module, registry_find_function, registry_find_var,
}
use dlssnr_on_amd_linux.Registry
use dlssnr_on_amd_linux.AllocCap.{AllocCap}
use dlssnr_on_amd_linux.AllocCap
use dlssnr_on_amd_linux.Host.{Host}

-- The functions that are looked up in the runtime.
pub data Symbol : Type 0 where
  malloc free memcpy memset memcpy_async memset_async get_error_string : Symbol
  get_device_count set_device driver_get_version runtime_get_version : Symbol
  import_external_memory external_memory_get_mapped_buffer destroy_external_memory : Symbol
  event_create event_create_with_flags event_record event_synchronize event_query : Symbol
  event_elapsed_time stream_create_with_flags stream_synchronize device_synchronize : Symbol
  get_device_properties module_load_data module_get_function module_get_global : Symbol
  module_launch_kernel : Symbol

abbrev pub symbol_name : Symbol → String
symbol_name malloc = "hipMalloc"
symbol_name free = "hipFree"
symbol_name memcpy = "hipMemcpy"
symbol_name memset = "hipMemset"
symbol_name memcpy_async = "hipMemcpyAsync"
symbol_name memset_async = "hipMemsetAsync"
symbol_name get_error_string = "hipGetErrorString"
symbol_name get_device_count = "hipGetDeviceCount"
symbol_name set_device = "hipSetDevice"
symbol_name driver_get_version = "hipDriverGetVersion"
symbol_name runtime_get_version = "hipRuntimeGetVersion"
symbol_name import_external_memory = "hipImportExternalMemory"
symbol_name external_memory_get_mapped_buffer = "hipExternalMemoryGetMappedBuffer"
symbol_name destroy_external_memory = "hipDestroyExternalMemory"
symbol_name event_create = "hipEventCreate"
symbol_name event_create_with_flags = "hipEventCreateWithFlags"
symbol_name event_record = "hipEventRecord"
symbol_name event_synchronize = "hipEventSynchronize"
symbol_name event_query = "hipEventQuery"
symbol_name event_elapsed_time = "hipEventElapsedTime"
symbol_name stream_create_with_flags = "hipStreamCreateWithFlags"
symbol_name stream_synchronize = "hipStreamSynchronize"
symbol_name device_synchronize = "hipDeviceSynchronize"
symbol_name get_device_properties = "hipGetDevicePropertiesR0600"
symbol_name module_load_data = "hipModuleLoadData"
symbol_name module_get_function = "hipModuleGetFunction"
symbol_name module_get_global = "hipModuleGetGlobal"
symbol_name module_launch_kernel = "hipModuleLaunchKernel"

-- `symbols` are the pointers `p_hip…`; an address is 0 for NULL.
pub record Native (W : Type 0) : Type 0 where
  pub hip_handle : ℕ
  pub symbols : Symbol → ℕ
  pub registry : Registry
  pub alloc_cap : AllocCap
  pub vram_cap_bytes : ℕ
  pub vram_cap_read : Bool
  pub world : W

unfoldable pub initial : {W : Type 0} → W → Native W
initial w = record {
  hip_handle = 0;
  symbols = λ _. 0;
  registry = Registry.initial;
  alloc_cap = AllocCap.initial;
  vram_cap_bytes = 0;
  vram_cap_read = false;
  world = w;
}

abbrev pub find_module : {W : Type 0} → ℕ → Native W → ℕ
find_module token s = registry_find_module token s.registry

abbrev pub find_function : {W : Type 0} → ℕ → Native W → ℕ
find_function host_fn s = registry_find_function host_fn s.registry

abbrev pub find_var : {W : Type 0} → ℕ → Native W → ℕ
find_var host_var s = registry_find_var host_var s.registry

abbrev pub candidates : List String
candidates =
    "/opt/rocm-7.2.4/lib/libamdhip64.so.7" ∷ "/run/host/opt/rocm-7.2.4/lib/libamdhip64.so.7"
    ∷ "/run/host/opt/rocm/lib/libamdhip64.so.7" ∷ "/run/host/opt/rocm/lib/libamdhip64.so.6"
    ∷ "/opt/rocm/lib/libamdhip64.so.7" ∷ "/opt/rocm/lib/libamdhip64.so.6"
    ∷ "/run/host/usr/lib/x86_64-linux-gnu/libamdhip64.so.7"
    ∷ "/run/host/usr/lib/x86_64-linux-gnu/libamdhip64.so.6"
    ∷ "/usr/lib/x86_64-linux-gnu/libamdhip64.so.7" ∷ "/usr/lib/x86_64-linux-gnu/libamdhip64.so.6"
    ∷ "libamdhip64.so.7" ∷ "libamdhip64.so.6" ∷ "libamdhip64.so" ∷ []

-- The folders that are put in front of LD_LIBRARY_PATH.
unfoldable pub library_folders : Bytes
library_folders =
    codes "/opt/rocm-7.2.4/lib:/run/host/opt/rocm-7.2.4/lib:/run/host/opt/rocm/lib:/opt/rocm/lib:"
    ++ codes "/run/host/usr/lib/x86_64-linux-gnu:/run/host/lib/x86_64-linux-gnu"

-- `snprintf` into a buffer of 4096 bytes keeps 4095 of them.
unfoldable pub new_ld_path : Option Bytes → Bytes
new_ld_path none = take 4095 library_folders
new_ld_path (some []) = take 4095 library_folders
new_ld_path (some (c ∷ path)) = take 4095 (library_folders ++ codes ":" ++ (c ∷ path))

module _ (host : Host) where
  -- The loop over the candidates: the first that opens.
  unfoldable pub open_first : List String → host.World → ℕ × host.World
  open_first [] w = (0, w)
  open_first (c ∷ cs) w =
      let (handle, w') = host.dlopen c w in
      let rest = open_first cs w' in if handle == 0 then rest else (handle, w')

  unfoldable pub set_ld_path : host.World → host.World
  unfolding new_ld_path
  set_ld_path w = host.setenv "LD_LIBRARY_PATH" (new_ld_path (host.getenv "LD_LIBRARY_PATH" w)) w

  unfoldable pub ensure_loaded : Native host.World → Bool × Native host.World
  ensure_loaded s =
      if not (s.hip_handle == 0)
      then (true, s)
      else (let (handle, w) = open_first candidates (set_ld_path s.world) in
          if handle == 0 then (false, record s { world = w }) else (
            true,
            record s {
              hip_handle = handle;
              symbols = λ sym. host.dlsym handle (symbol_name sym) w;
              world = w;
            },
          ))

  -- `ensure_loaded() && p_hip…`: the function's address, or 0 if it cannot be called.
  unfoldable pub resolve : Symbol → Native host.World → ℕ × Native host.World
  resolve sym s = let (loaded, s') = ensure_loaded s in (if loaded then s'.symbols sym else 0, s')
