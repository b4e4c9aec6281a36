-- ===== src/Pe/Api.antt =====
-- pe_shim.c: its exported functions that return a `hipError_t`, as one type of calls, so that a
-- program is a list of calls. hipGetLastError stands apart: it reads the sticky error.
use dlssnr_on_amd_linux.Common.{ℕ, ℤ, Option, none, some, List, [], ◌∷◌}
use dlssnr_on_amd_linux.ExtMem.{HipExtMemHandleDesc, HipExtMemBufferDesc}
use dlssnr_on_amd_linux.Host.{Host}
use dlssnr_on_amd_linux.Native.Args.{Dim3}
use dlssnr_on_amd_linux.Pe.{Process}
use dlssnr_on_amd_linux.Pe.Config.{PopOut, hip_push_call_configuration, hip_pop_call_configuration}
use dlssnr_on_amd_linux.Pe.Registration.{hip_launch_kernel}
use dlssnr_on_amd_linux.Pe.Device.{
  hip_get_device_count, hip_get_device_properties_r0600, hip_set_device, hip_device_synchronize,
  hip_driver_get_version, hip_runtime_get_version, hip_get_last_error,
}
use dlssnr_on_amd_linux.Pe.Memory.{
  hip_malloc, hip_free, hip_memcpy, hip_memcpy_async, hip_memcpy_to_symbol, hip_memset,
  hip_memset_async,
}
use dlssnr_on_amd_linux.Pe.Interop.{
  hip_event_create, hip_event_create_with_flags, hip_event_query, hip_event_record,
  hip_event_synchronize, hip_event_elapsed_time, hip_stream_create_with_flags,
  hip_stream_synchronize, hip_import_external_memory, hip_external_memory_get_mapped_buffer,
  hip_destroy_external_memory,
}

pub data ApiCall (F : Type 0) : Type 0 where
  push_call_configuration : Option Dim3 → Option Dim3 → ℕ → ℕ → ApiCall F
  pop_call_configuration : PopOut → ApiCall F
  launch_kernel : ℕ → Option Dim3 → Option Dim3 → Option ℕ → ℕ → ℕ → ApiCall F
  get_device_count : Option ℤ → ApiCall F
  get_device_properties : ℕ → ℤ → ApiCall F
  set_device : ℤ → ApiCall F
  device_synchronize : ApiCall F
  driver_get_version : Option ℤ → ApiCall F
  runtime_get_version : Option ℤ → ApiCall F
  malloc : Option ℕ → ℕ → ApiCall F
  free : ℕ → ApiCall F
  memcpy : ℕ → ℕ → ℕ → ℤ → ApiCall F
  memcpy_async : ℕ → ℕ → ℕ → ℤ → ℕ → ApiCall F
  memcpy_to_symbol : ℕ → ℕ → ℕ → ℕ → ℤ → ApiCall F
  memset : ℕ → ℤ → ℕ → ApiCall F
  memset_async : ℕ → ℤ → ℕ → ℕ → ApiCall F
  event_create : Option ℕ → ApiCall F
  event_create_with_flags : Option ℕ → ℕ → ApiCall F
  event_query : ℕ → ApiCall F
  event_record : ℕ → ℕ → ApiCall F
  event_synchronize : ℕ → ApiCall F
  event_elapsed_time : Option F → ℕ → ℕ → ApiCall F
  stream_create_with_flags : Option ℕ → ℕ → ApiCall F
  stream_synchronize : ℕ → ApiCall F
  import_external_memory : Option ℕ → Option HipExtMemHandleDesc → ApiCall F
  external_memory_get_mapped_buffer : Option ℕ → ℕ → Option HipExtMemBufferDesc → ApiCall F
  destroy_external_memory : ℕ → ApiCall F
  get_last_error : ApiCall F

-- The code that a call returns; the out-parameters are dropped.
abbrev pub code_of : {W B : Type 0} → Option ((ℤ × B) × Process W) → Option (ℤ × Process W)
code_of none = none
code_of (some ((code, out), p)) = some (code, p)

module _ (host : Host) where
  unfoldable pub run_call :
      ApiCall host.Float → Process host.World → Option (ℤ × Process host.World)
  run_call (push_call_configuration g b m s) p = some (hip_push_call_configuration g b m s p)
  run_call (pop_call_configuration out) p = code_of (some (hip_pop_call_configuration out p))
  run_call (launch_kernel f g b a m s) p = code_of (hip_launch_kernel host f g b a m s p)
  run_call (get_device_count count) p = code_of (hip_get_device_count host count p)
  run_call (get_device_properties props device) p =
      code_of (hip_get_device_properties_r0600 host props device p)
  run_call (set_device device) p = code_of (hip_set_device host device p)
  run_call device_synchronize p = code_of (hip_device_synchronize host p)
  run_call (driver_get_version version) p = code_of (hip_driver_get_version host version p)
  run_call (runtime_get_version version) p = code_of (hip_runtime_get_version host version p)
  run_call (malloc ptr size) p = code_of (hip_malloc host ptr size p)
  run_call (free ptr) p = code_of (hip_free host ptr p)
  run_call (memcpy dst src size kind) p = code_of (hip_memcpy host dst src size kind p)
  run_call (memcpy_async dst src size kind stream) p =
      code_of (hip_memcpy_async host dst src size kind stream p)
  run_call (memcpy_to_symbol symbol src size offset kind) p =
      code_of (hip_memcpy_to_symbol host symbol src size offset kind p)
  run_call (memset ptr value size) p = code_of (hip_memset host ptr value size p)
  run_call (memset_async ptr value size stream) p =
      code_of (hip_memset_async host ptr value size stream p)
  run_call (event_create event) p = code_of (hip_event_create host event p)
  run_call (event_create_with_flags event flags) p =
      code_of (hip_event_create_with_flags host event flags p)
  run_call (event_query event) p = code_of (hip_event_query host event p)
  run_call (event_record event stream) p = code_of (hip_event_record host event stream p)
  run_call (event_synchronize event) p = code_of (hip_event_synchronize host event p)
  run_call (event_elapsed_time ms start stop) p =
      code_of (hip_event_elapsed_time host ms start stop p)
  run_call (stream_create_with_flags stream flags) p =
      code_of (hip_stream_create_with_flags host stream flags p)
  run_call (stream_synchronize stream) p = code_of (hip_stream_synchronize host stream p)
  run_call (import_external_memory ext_mem d) p =
      code_of (hip_import_external_memory host ext_mem d p)
  run_call (external_memory_get_mapped_buffer dev_ptr ext_mem d) p =
      code_of (hip_external_memory_get_mapped_buffer host dev_ptr ext_mem d p)
  run_call (destroy_external_memory ext_mem) p =
      code_of (hip_destroy_external_memory host ext_mem p)
  run_call get_last_error p = some (hip_get_last_error p)

  -- The code of a call, before what the rest of a program returned.
  abbrev pub prepend :
      ℤ → Option (List ℤ × Process host.World) → Option (List ℤ × Process host.World)
  prepend code none = none
  prepend code (some (codes, p)) = some (code ∷ codes, p)

  -- A program: the codes that its calls return, and the process afterwards.
  unfoldable pub run_calls :
      List (ApiCall host.Float) → Process host.World → Option (List ℤ × Process host.World)
  run_calls [] p = some ([], p)
  run_calls (c ∷ cs) p = elim (run_call c p) [
    | none ↦ none
    | some (code, p') ↦ prepend code (run_calls cs p')
  ]
