-- ===== src/Pe/Sticky/Calls.antt =====
-- pe_shim.c: the sticky error after each call, and after a program of calls.
use dlssnr_on_amd_linux.Common.{
  ℕ, ℤ, ◌≡◌, refl, Bool, true, false, Option, none, some, inl, inr, arith, ◌==◌, is_negative,
  Bool-cases,
}
use dlssnr_on_amd_linux.ExtMem.{HipExtMemHandleDesc, HipExtMemBufferDesc, hip_ext_mem_extract_fd}
use dlssnr_on_amd_linux.Forward.{hip_memcpy_kind_supported}
use dlssnr_on_amd_linux.Host.{Host}
use dlssnr_on_amd_linux.Native.Dispatch.{HipUnixCall}
use dlssnr_on_amd_linux.Native.Dispatch.Reaches.{unix_call-Reaches}
use dlssnr_on_amd_linux.Pe.{Process, store}
use dlssnr_on_amd_linux.Pe.Device.{
  hip_get_device_count, hip_get_device_properties_r0600, hip_set_device, hip_device_synchronize,
  hip_driver_get_version, hip_runtime_get_version,
}
use dlssnr_on_amd_linux.Pe.Memory.{
  hip_malloc, hip_free, hip_memcpy, hip_memcpy_async, hip_memcpy_to_symbol, hip_memset,
  hip_memset_async,
}
use dlssnr_on_amd_linux.Pe.Interop.{
  hip_event_create, hip_event_create_with_flags, hip_event_query, hip_event_record,
  hip_event_synchronize, hip_event_elapsed_time, hip_stream_create_with_flags,
  hip_stream_synchronize, hip_import_external_memory, hip_external_memory_get_mapped_buffer,
  hip_destroy_external_memory,
}
use dlssnr_on_amd_linux.Pe.Api.{
  ApiCall, code_of, run_call, push_call_configuration, pop_call_configuration, launch_kernel,
  get_device_count, get_device_properties, set_device, device_synchronize, driver_get_version,
  runtime_get_version, malloc, free, memcpy, memcpy_async, memcpy_to_symbol, memset, memset_async,
  event_create, event_create_with_flags, event_query, event_record, event_synchronize,
  event_elapsed_time, stream_create_with_flags, stream_synchronize, import_external_memory,
  external_memory_get_mapped_buffer, destroy_external_memory, get_last_error,
}
use dlssnr_on_amd_linux.Pe.Sticky.{
  Ends, forwarded-Ends, version-Ends, rejected-Ends, push-Ends, pop-Ends, launch-Ends,
}

-- Every exported call but hipGetLastError reports its failure to the sticky error.
abbrev pub reports_failure : {F : Type 0} → ApiCall F → Bool
reports_failure get_last_error = false
reports_failure c = true

module _ (host : Host) where
  free-Ends : (ptr : ℕ) (p : Process host.World) → Ends p (code_of (hip_free host ptr p))
  unfolding hip_free
  free-Ends ptr p = elim (Bool-cases (ptr == 0)) [
    | inl null ↦ rw (null, Ends) (inl (refl, refl))
    | inr there ↦
        rw (there, Ends)
          (forwarded-Ends host _ _ _ p _ (λ a. a.ret) 801 (λ a. tt) (omega arith)
            (unix_call-Reaches host HipUnixCall.free _ p.native))
  ]

  memcpy-Ends :
      (dst src size : ℕ) (kind : ℤ) (p : Process host.World)
      → Ends p (code_of (hip_memcpy host dst src size kind p))
  unfolding hip_memcpy
  memcpy-Ends dst src size kind p = elim (Bool-cases (hip_memcpy_kind_supported kind)) [
    | inl supported ↦
        rw (supported, Ends)
          (forwarded-Ends host _ _ _ p _ (λ a. a.ret) 801 (λ a. tt) (omega arith)
            (unix_call-Reaches host HipUnixCall.memcpy _ p.native))
    | inr not_supported ↦ rw (not_supported, Ends) (rejected-Ends host p)
  ]

  memcpy_async-Ends :
      (dst src size : ℕ) (kind : ℤ) (stream : ℕ) (p : Process host.World)
      → Ends p (code_of (hip_memcpy_async host dst src size kind stream p))
  unfolding hip_memcpy_async
  memcpy_async-Ends dst src size kind stream p =
      elim (Bool-cases (hip_memcpy_kind_supported kind)) [
        | inl supported ↦
            rw (supported, Ends)
              (forwarded-Ends host _ _ _ p _ (λ a. a.ret) 801 (λ a. tt) (omega arith)
                (unix_call-Reaches host HipUnixCall.memcpy_async _ p.native))
        | inr not_supported ↦ rw (not_supported, Ends) (rejected-Ends host p)
      ]

  memcpy_to_symbol-Ends :
      (symbol src size offset : ℕ) (kind : ℤ) (p : Process host.World)
      → Ends p (code_of (hip_memcpy_to_symbol host symbol src size offset kind p))
  unfolding hip_memcpy_to_symbol
  memcpy_to_symbol-Ends symbol src size offset kind p =
      elim (Bool-cases (hip_memcpy_kind_supported kind)) [
        | inl supported ↦
            rw (supported, Ends)
              (forwarded-Ends host _ _ _ p _ (λ a. a.ret) 801 (λ a. tt) (omega arith)
                (unix_call-Reaches host HipUnixCall.memcpy_to_symbol _ p.native))
        | inr not_supported ↦ rw (not_supported, Ends) (rejected-Ends host p)
      ]

  import-Ends :
      (ext_mem : Option ℕ) (d : Option HipExtMemHandleDesc) (p : Process host.World)
      → Ends p (code_of (hip_import_external_memory host ext_mem d p))
  unfolding hip_import_external_memory
  import-Ends ext_mem none p = rejected-Ends host p
  import-Ends ext_mem (some d) p =
      elim (Bool-cases (is_negative (hip_ext_mem_extract_fd (some d)))) [
        | inl negative ↦ rw (negative, Ends) (rejected-Ends host p)
        | inr found ↦
            rw (found, Ends)
              (forwarded-Ends host _ _ _ p _ (λ a. a.ret) 801 (λ a. store ext_mem a.ext_mem)
                (omega arith)
                (unix_call-Reaches host HipUnixCall.import_external_memory _ p.native))
      ]

  mapped_buffer-Ends :
      (dev_ptr : Option ℕ) (ext_mem : ℕ) (d : Option HipExtMemBufferDesc) (p : Process host.World)
      → Ends p (code_of (hip_external_memory_get_mapped_buffer host dev_ptr ext_mem d p))
  unfolding hip_external_memory_get_mapped_buffer
  mapped_buffer-Ends dev_ptr ext_mem none p = rejected-Ends host p
  mapped_buffer-Ends dev_ptr ext_mem (some d) p =
      forwarded-Ends host _ _ _ p _ (λ a. a.ret) 801 (λ a. store dev_ptr a.dev_ptr) (omega arith)
        (unix_call-Reaches host HipUnixCall.external_memory_get_mapped_buffer _ p.native)

  -- Every exported call that returns a code, other than hipGetLastError, returns without a fault;
  -- when it returns hipSuccess the sticky error is what it was, and when it returns another code
  -- the sticky error is that code.
  pub run_call-Ends :
      (c : ApiCall host.Float) (p : Process host.World)
      → reports_failure c ≡ true
      → Ends p (run_call host c p)
  unfolding run_call hip_get_device_count hip_get_device_properties_r0600 hip_set_device
      hip_device_synchronize hip_driver_get_version hip_runtime_get_version hip_malloc hip_memset
      hip_memset_async hip_event_create hip_event_create_with_flags hip_event_query hip_event_record
      hip_event_synchronize hip_event_elapsed_time hip_stream_create_with_flags
      hip_stream_synchronize hip_destroy_external_memory
  run_call-Ends (push_call_configuration g b m s) p h = push-Ends host g b m s p
  run_call-Ends (pop_call_configuration out) p h = pop-Ends host out p
  run_call-Ends (launch_kernel f g b a m s) p h = launch-Ends host f g b a m s p
  run_call-Ends (get_device_count count) p h =
      forwarded-Ends host _ _ _ p _ (λ a. a.ret) 100 (λ a. store count a.count) (omega arith)
        (unix_call-Reaches host HipUnixCall.get_device_count _ p.native)
  run_call-Ends (get_device_properties props device) p h =
      forwarded-Ends host _ _ _ p _ (λ a. a.ret) 801 (λ a. tt) (omega arith)
        (unix_call-Reaches host HipUnixCall.get_device_properties _ p.native)
  run_call-Ends (set_device device) p h =
      forwarded-Ends host _ _ _ p _ (λ a. a.ret) 100 (λ a. tt) (omega arith)
        (unix_call-Reaches host HipUnixCall.set_device _ p.native)
  run_call-Ends device_synchronize p h =
      forwarded-Ends host _ _ _ p _ (λ a. a.ret) 801 (λ a. tt) (omega arith)
        (unix_call-Reaches host HipUnixCall.device_synchronize _ p.native)
  run_call-Ends (driver_get_version version) p h =
      version-Ends host _ _ _ p _ (λ a. store version a.version)
        (unix_call-Reaches host HipUnixCall.driver_get_version _ p.native)
  run_call-Ends (runtime_get_version version) p h =
      version-Ends host _ _ _ p _ (λ a. store version a.version)
        (unix_call-Reaches host HipUnixCall.runtime_get_version _ p.native)
  run_call-Ends (malloc ptr size) p h =
      forwarded-Ends host _ _ _ p _ (λ a. a.ret) 100 (λ a. store ptr a.ptr) (omega arith)
        (unix_call-Reaches host HipUnixCall.malloc _ p.native)
  run_call-Ends (free ptr) p h = free-Ends ptr p
  run_call-Ends (memcpy dst src size kind) p h = memcpy-Ends dst src size kind p
  run_call-Ends (memcpy_async dst src size kind stream) p h =
      memcpy_async-Ends dst src size kind stream p
  run_call-Ends (memcpy_to_symbol symbol src size offset kind) p h =
      memcpy_to_symbol-Ends symbol src size offset kind p
  run_call-Ends (memset ptr value size) p h =
      forwarded-Ends host _ _ _ p _ (λ a. a.ret) 801 (λ a. tt) (omega arith)
        (unix_call-Reaches host HipUnixCall.memset _ p.native)
  run_call-Ends (memset_async ptr value size stream) p h =
      forwarded-Ends host _ _ _ p _ (λ a. a.ret) 801 (λ a. tt) (omega arith)
        (unix_call-Reaches host HipUnixCall.memset_async _ p.native)
  run_call-Ends (event_create event) p h =
      forwarded-Ends host _ _ _ p _ (λ a. a.ret) 801 (λ a. store event a.event) (omega arith)
        (unix_call-Reaches host HipUnixCall.event_create _ p.native)
  run_call-Ends (event_create_with_flags event flags) p h =
      forwarded-Ends host _ _ _ p _ (λ a. a.ret) 801 (λ a. store event a.event) (omega arith)
        (unix_call-Reaches host HipUnixCall.event_create _ p.native)
  run_call-Ends (event_query event) p h =
      forwarded-Ends host _ _ _ p _ (λ a. a.ret) 801 (λ a. tt) (omega arith)
        (unix_call-Reaches host HipUnixCall.event_query _ p.native)
  run_call-Ends (event_record event stream) p h =
      forwarded-Ends host _ _ _ p _ (λ a. a.ret) 801 (λ a. tt) (omega arith)
        (unix_call-Reaches host HipUnixCall.event_record _ p.native)
  run_call-Ends (event_synchronize event) p h =
      forwarded-Ends host _ _ _ p _ (λ a. a.ret) 801 (λ a. tt) (omega arith)
        (unix_call-Reaches host HipUnixCall.event_synchronize _ p.native)
  run_call-Ends (event_elapsed_time ms start stop) p h =
      forwarded-Ends host _ _ _ p _ (λ a. a.ret) 801 (λ a. store ms a.ms) (omega arith)
        (unix_call-Reaches host HipUnixCall.event_elapsed_time _ p.native)
  run_call-Ends (stream_create_with_flags stream flags) p h =
      forwarded-Ends host _ _ _ p _ (λ a. a.ret) 801 (λ a. store stream a.stream) (omega arith)
        (unix_call-Reaches host HipUnixCall.stream_create _ p.native)
  run_call-Ends (stream_synchronize stream) p h =
      forwarded-Ends host _ _ _ p _ (λ a. a.ret) 801 (λ a. tt) (omega arith)
        (unix_call-Reaches host HipUnixCall.stream_synchronize _ p.native)
  run_call-Ends (import_external_memory ext_mem d) p h = import-Ends ext_mem d p
  run_call-Ends (external_memory_get_mapped_buffer dev_ptr ext_mem d) p h =
      mapped_buffer-Ends dev_ptr ext_mem d p
  run_call-Ends (destroy_external_memory ext_mem) p h =
      forwarded-Ends host _ _ _ p _ (λ a. a.ret) 801 (λ a. tt) (omega arith)
        (unix_call-Reaches host HipUnixCall.destroy_external_memory _ p.native)
  run_call-Ends get_last_error p h = absurd (ground arith)
