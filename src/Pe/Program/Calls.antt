-- ===== src/Pe/Program/Calls.antt =====
-- pe_shim.c: each exported function keeps the invariant of a process.
use dlssnr_on_amd_linux.Common.{
  ℕ, ℤ, Option, none, some, inl, inr, arith, ◌==◌, is_negative, Bool-cases,
}
use dlssnr_on_amd_linux.ExtMem.{HipExtMemHandleDesc, HipExtMemBufferDesc, hip_ext_mem_extract_fd}
use dlssnr_on_amd_linux.Forward.{hip_memcpy_kind_supported, hip_get_last_error_and_reset}
use dlssnr_on_amd_linux.Host.{Host}
use dlssnr_on_amd_linux.Native.Dispatch.{HipUnixCall}
use dlssnr_on_amd_linux.Native.Dispatch.Reaches.{unix_call-Reaches}
use dlssnr_on_amd_linux.Pe.{Process, store}
use dlssnr_on_amd_linux.Pe.Device.{
  hip_get_device_count, hip_get_device_properties_r0600, hip_set_device, hip_device_synchronize,
  hip_driver_get_version, hip_runtime_get_version, hip_get_last_error,
}
use dlssnr_on_amd_linux.Pe.Memory.{
  hip_malloc, hip_free, hip_memcpy, hip_memcpy_async, hip_memcpy_to_symbol, hip_memset,
  hip_memset_async,
}
use dlssnr_on_amd_linux.Pe.Interop.{
  hip_event_create, hip_event_create_with_flags, hip_event_query, hip_event_record,
  hip_event_synchronize, hip_event_elapsed_time, hip_stream_create_with_flags,
  hip_stream_synchronize, hip_import_external_memory, hip_external_memory_get_mapped_buffer,
  hip_destroy_external_memory,
}
use dlssnr_on_amd_linux.Pe.Api.{
  ApiCall, code_of, run_call, push_call_configuration, pop_call_configuration, launch_kernel,
  get_device_count, get_device_properties, set_device, device_synchronize, driver_get_version,
  runtime_get_version, malloc, free, memcpy, memcpy_async, memcpy_to_symbol, memset, memset_async,
  event_create, event_create_with_flags, event_query, event_record, event_synchronize,
  event_elapsed_time, stream_create_with_flags, stream_synchronize, import_external_memory,
  external_memory_get_mapped_buffer, destroy_external_memory, get_last_error,
}
use dlssnr_on_amd_linux.Pe.Program.{process_of, HasWords, api}
use dlssnr_on_amd_linux.Pe.Program.Sound.{
  IsSound, EndsSound, forwarded-EndsSound, version-EndsSound, rejected-EndsSound, push-EndsSound,
  pop-EndsSound, launch-EndsSound,
}

module _ (host : Host) where
  free-EndsSound :
      (ptr : ℕ) (p : Process host.World)
      → IsSound host p
      → EndsSound host (process_of (code_of (hip_free host ptr p)))
  unfolding hip_free
  free-EndsSound ptr p v = elim (Bool-cases (ptr == 0)) [
    | inl null ↦ rw (null, EndsSound) v
    | inr there ↦
        rw (there, EndsSound)
          (forwarded-EndsSound host _ _ _ p _ (λ a. a.ret) 801 (λ a. tt) (omega arith)
            (unix_call-Reaches host HipUnixCall.free _ p.native) v)
  ]

  memcpy-EndsSound :
      (dst src size : ℕ) (kind : ℤ) (p : Process host.World)
      → IsSound host p
      → EndsSound host (process_of (code_of (hip_memcpy host dst src size kind p)))
  unfolding hip_memcpy
  memcpy-EndsSound dst src size kind p v = elim (Bool-cases (hip_memcpy_kind_supported kind)) [
    | inl supported ↦
        rw (supported, EndsSound)
          (forwarded-EndsSound host _ _ _ p _ (λ a. a.ret) 801 (λ a. tt) (omega arith)
            (unix_call-Reaches host HipUnixCall.memcpy _ p.native) v)
    | inr not_supported ↦ rw (not_supported, EndsSound) (rejected-EndsSound host 801 p v)
  ]

  memcpy_async-EndsSound :
      (dst src size : ℕ) (kind : ℤ) (stream : ℕ) (p : Process host.World)
      → IsSound host p
      → EndsSound host (process_of (code_of (hip_memcpy_async host dst src size kind stream p)))
  unfolding hip_memcpy_async
  memcpy_async-EndsSound dst src size kind stream p v =
      elim (Bool-cases (hip_memcpy_kind_supported kind)) [
        | inl supported ↦
            rw (supported, EndsSound)
              (forwarded-EndsSound host _ _ _ p _ (λ a. a.ret) 801 (λ a. tt) (omega arith)
                (unix_call-Reaches host HipUnixCall.memcpy_async _ p.native) v)
        | inr not_supported ↦ rw (not_supported, EndsSound) (rejected-EndsSound host 801 p v)
      ]

  memcpy_to_symbol-EndsSound :
      (symbol src size offset : ℕ) (kind : ℤ) (p : Process host.World)
      → IsSound host p
      → EndsSound host
          (process_of (code_of (hip_memcpy_to_symbol host symbol src size offset kind p)))
  unfolding hip_memcpy_to_symbol
  memcpy_to_symbol-EndsSound symbol src size offset kind p v =
      elim (Bool-cases (hip_memcpy_kind_supported kind)) [
        | inl supported ↦
            rw (supported, EndsSound)
              (forwarded-EndsSound host _ _ _ p _ (λ a. a.ret) 801 (λ a. tt) (omega arith)
                (unix_call-Reaches host HipUnixCall.memcpy_to_symbol _ p.native) v)
        | inr not_supported ↦ rw (not_supported, EndsSound) (rejected-EndsSound host 801 p v)
      ]

  import-EndsSound :
      (ext_mem : Option ℕ) (d : Option HipExtMemHandleDesc) (p : Process host.World)
      → IsSound host p
      → EndsSound host (process_of (code_of (hip_import_external_memory host ext_mem d p)))
  unfolding hip_import_external_memory
  import-EndsSound ext_mem none p v = rejected-EndsSound host 801 p v
  import-EndsSound ext_mem (some d) p v =
      elim (Bool-cases (is_negative (hip_ext_mem_extract_fd (some d)))) [
        | inl negative ↦ rw (negative, EndsSound) (rejected-EndsSound host 801 p v)
        | inr found ↦
            rw (found, EndsSound)
              (forwarded-EndsSound host _ _ _ p _ (λ a. a.ret) 801 (λ a. store ext_mem a.ext_mem)
                (omega arith) (unix_call-Reaches host HipUnixCall.import_external_memory _ p.native)
                v)
      ]

  mapped_buffer-EndsSound :
      (dev_ptr : Option ℕ) (ext_mem : ℕ) (d : Option HipExtMemBufferDesc) (p : Process host.World)
      → IsSound host p
      → EndsSound host
          (process_of (code_of (hip_external_memory_get_mapped_buffer host dev_ptr ext_mem d p)))
  unfolding hip_external_memory_get_mapped_buffer
  mapped_buffer-EndsSound dev_ptr ext_mem none p v = rejected-EndsSound host 801 p v
  mapped_buffer-EndsSound dev_ptr ext_mem (some d) p v =
      forwarded-EndsSound host _ _ _ p _ (λ a. a.ret) 801 (λ a. store dev_ptr a.dev_ptr)
        (omega arith)
        (unix_call-Reaches host HipUnixCall.external_memory_get_mapped_buffer _ p.native) v

  pub run_call-EndsSound :
      (c : ApiCall host.Float) (p : Process host.World)
      → HasWords (api c)
      → IsSound host p
      → EndsSound host (process_of (run_call host c p))
  unfolding run_call hip_get_device_count hip_get_device_properties_r0600 hip_set_device
      hip_device_synchronize hip_driver_get_version hip_runtime_get_version hip_malloc hip_memset
      hip_memset_async hip_event_create hip_event_create_with_flags hip_event_query hip_event_record
      hip_event_synchronize hip_event_elapsed_time hip_stream_create_with_flags
      hip_stream_synchronize hip_destroy_external_memory hip_get_last_error
      hip_get_last_error_and_reset
  run_call-EndsSound (push_call_configuration g b m s) p word v = push-EndsSound host g b m s p v
  run_call-EndsSound (pop_call_configuration out) p word v = pop-EndsSound host out p v
  run_call-EndsSound (launch_kernel f g b a m s) p word v = launch-EndsSound host f g b a m s p v
  run_call-EndsSound (get_device_count count) p word v =
      forwarded-EndsSound host _ _ _ p _ (λ a. a.ret) 100 (λ a. store count a.count) (omega arith)
        (unix_call-Reaches host HipUnixCall.get_device_count _ p.native) v
  run_call-EndsSound (get_device_properties props device) p word v =
      forwarded-EndsSound host _ _ _ p _ (λ a. a.ret) 801 (λ a. tt) (omega arith)
        (unix_call-Reaches host HipUnixCall.get_device_properties _ p.native) v
  run_call-EndsSound (set_device device) p word v =
      forwarded-EndsSound host _ _ _ p _ (λ a. a.ret) 100 (λ a. tt) (omega arith)
        (unix_call-Reaches host HipUnixCall.set_device _ p.native) v
  run_call-EndsSound device_synchronize p word v =
      forwarded-EndsSound host _ _ _ p _ (λ a. a.ret) 801 (λ a. tt) (omega arith)
        (unix_call-Reaches host HipUnixCall.device_synchronize _ p.native) v
  run_call-EndsSound (driver_get_version version) p word v =
      version-EndsSound host _ _ _ p _ (λ a. store version a.version) (omega arith)
        (unix_call-Reaches host HipUnixCall.driver_get_version _ p.native) v
  run_call-EndsSound (runtime_get_version version) p word v =
      version-EndsSound host _ _ _ p _ (λ a. store version a.version) (omega arith)
        (unix_call-Reaches host HipUnixCall.runtime_get_version _ p.native) v
  run_call-EndsSound (malloc ptr size) p word v =
      forwarded-EndsSound host _ _ _ p _ (λ a. a.ret) 100 (λ a. store ptr a.ptr) word
        (unix_call-Reaches host HipUnixCall.malloc _ p.native) v
  run_call-EndsSound (free ptr) p word v = free-EndsSound ptr p v
  run_call-EndsSound (memcpy dst src size kind) p word v = memcpy-EndsSound dst src size kind p v
  run_call-EndsSound (memcpy_async dst src size kind stream) p word v =
      memcpy_async-EndsSound dst src size kind stream p v
  run_call-EndsSound (memcpy_to_symbol symbol src size offset kind) p word v =
      memcpy_to_symbol-EndsSound symbol src size offset kind p v
  run_call-EndsSound (memset ptr value size) p word v =
      forwarded-EndsSound host _ _ _ p _ (λ a. a.ret) 801 (λ a. tt) (omega arith)
        (unix_call-Reaches host HipUnixCall.memset _ p.native) v
  run_call-EndsSound (memset_async ptr value size stream) p word v =
      forwarded-EndsSound host _ _ _ p _ (λ a. a.ret) 801 (λ a. tt) (omega arith)
        (unix_call-Reaches host HipUnixCall.memset_async _ p.native) v
  run_call-EndsSound (event_create event) p word v =
      forwarded-EndsSound host _ _ _ p _ (λ a. a.ret) 801 (λ a. store event a.event) (omega arith)
        (unix_call-Reaches host HipUnixCall.event_create _ p.native) v
  run_call-EndsSound (event_create_with_flags event flags) p word v =
      forwarded-EndsSound host _ _ _ p _ (λ a. a.ret) 801 (λ a. store event a.event) (omega arith)
        (unix_call-Reaches host HipUnixCall.event_create _ p.native) v
  run_call-EndsSound (event_query event) p word v =
      forwarded-EndsSound host _ _ _ p _ (λ a. a.ret) 801 (λ a. tt) (omega arith)
        (unix_call-Reaches host HipUnixCall.event_query _ p.native) v
  run_call-EndsSound (event_record event stream) p word v =
      forwarded-EndsSound host _ _ _ p _ (λ a. a.ret) 801 (λ a. tt) (omega arith)
        (unix_call-Reaches host HipUnixCall.event_record _ p.native) v
  run_call-EndsSound (event_synchronize event) p word v =
      forwarded-EndsSound host _ _ _ p _ (λ a. a.ret) 801 (λ a. tt) (omega arith)
        (unix_call-Reaches host HipUnixCall.event_synchronize _ p.native) v
  run_call-EndsSound (event_elapsed_time ms start stop) p word v =
      forwarded-EndsSound host _ _ _ p _ (λ a. a.ret) 801 (λ a. store ms a.ms) (omega arith)
        (unix_call-Reaches host HipUnixCall.event_elapsed_time _ p.native) v
  run_call-EndsSound (stream_create_with_flags stream flags) p word v =
      forwarded-EndsSound host _ _ _ p _ (λ a. a.ret) 801 (λ a. store stream a.stream) (omega arith)
        (unix_call-Reaches host HipUnixCall.stream_create _ p.native) v
  run_call-EndsSound (stream_synchronize stream) p word v =
      forwarded-EndsSound host _ _ _ p _ (λ a. a.ret) 801 (λ a. tt) (omega arith)
        (unix_call-Reaches host HipUnixCall.stream_synchronize _ p.native) v
  run_call-EndsSound (import_external_memory ext_mem d) p word v = import-EndsSound ext_mem d p v
  run_call-EndsSound (external_memory_get_mapped_buffer dev_ptr ext_mem d) p word v =
      mapped_buffer-EndsSound dev_ptr ext_mem d p v
  run_call-EndsSound (destroy_external_memory ext_mem) p word v =
      forwarded-EndsSound host _ _ _ p _ (λ a. a.ret) 801 (λ a. tt) (omega arith)
        (unix_call-Reaches host HipUnixCall.destroy_external_memory _ p.native) v
  run_call-EndsSound get_last_error p word v = record { native = v.native; stack = v.stack }
