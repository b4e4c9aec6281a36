-- ===== src/Pe/Interop.antt =====
-- pe_shim.c: events, streams and external memory.
use dlssnr_on_amd_linux.Common.{ℕ, ℤ, pos, Option, none, some, is_negative, if◌then◌else◌}
use dlssnr_on_amd_linux.ExtMem.{HipExtMemHandleDesc, HipExtMemBufferDesc, hip_ext_mem_extract_fd}
use dlssnr_on_amd_linux.Host.{Host}
use dlssnr_on_amd_linux.Native.Structs.{
  import_external_memory_struct, external_memory_get_mapped_buffer_struct,
  destroy_external_memory_struct, event_create_struct, event_record_struct, event_struct,
  event_elapsed_time_struct, stream_create_struct, stream_synchronize_struct,
}
use dlssnr_on_amd_linux.Native.Dispatch.{
  import_external_memory, external_memory_get_mapped_buffer, destroy_external_memory, event_create,
  event_record, event_synchronize, event_query, event_elapsed_time, stream_create,
  stream_synchronize,
}
use dlssnr_on_amd_linux.Pe.{
  Process, hip_error_not_supported, set_last_error, wine_unix_call, answer, store,
}

module _ (host : Host) where
  -- `hipEventCreate` passes no flags.
  unfoldable pub hip_event_create_with_flags :
      Option ℕ → ℕ → Process host.World → Option ((ℤ × Option ℕ) × Process host.World)
  hip_event_create_with_flags event flags p =
      answer
        (wine_unix_call host event_create event_create_struct
          (record { flags = flags; event = 0; ret = pos 0 }) p)
        (λ a. a.ret) hip_error_not_supported (λ a. store event a.event)

  unfoldable pub hip_event_create :
      Option ℕ → Process host.World → Option ((ℤ × Option ℕ) × Process host.World)
  hip_event_create event p =
      answer
        (wine_unix_call host event_create event_create_struct
          (record { flags = 0; event = 0; ret = pos 0 }) p)
        (λ a. a.ret) hip_error_not_supported (λ a. store event a.event)

  unfoldable pub hip_event_query :
      ℕ → Process host.World → Option ((ℤ × Unit {0}) × Process host.World)
  hip_event_query event p =
      answer
        (wine_unix_call host event_query event_struct (record { event = event; ret = pos 0 }) p)
        (λ a. a.ret) hip_error_not_supported (λ a. tt)

  unfoldable pub hip_stream_create_with_flags :
      Option ℕ → ℕ → Process host.World → Option ((ℤ × Option ℕ) × Process host.World)
  hip_stream_create_with_flags stream flags p =
      answer
        (wine_unix_call host stream_create stream_create_struct
          (record { flags = flags; stream = 0; ret = pos 0 }) p)
        (λ a. a.ret) hip_error_not_supported (λ a. store stream a.stream)

  unfoldable pub hip_stream_synchronize :
      ℕ → Process host.World → Option ((ℤ × Unit {0}) × Process host.World)
  hip_stream_synchronize stream p =
      answer
        (wine_unix_call host stream_synchronize stream_synchronize_struct
          (record { stream = stream; ret = pos 0 }) p)
        (λ a. a.ret) hip_error_not_supported (λ a. tt)

  unfoldable pub hip_event_record :
      ℕ → ℕ → Process host.World → Option ((ℤ × Unit {0}) × Process host.World)
  hip_event_record event stream p =
      answer
        (wine_unix_call host event_record event_record_struct
          (record { event = event; stream = stream; ret = pos 0 }) p)
        (λ a. a.ret) hip_error_not_supported (λ a. tt)

  unfoldable pub hip_event_synchronize :
      ℕ → Process host.World → Option ((ℤ × Unit {0}) × Process host.World)
  hip_event_synchronize event p =
      answer
        (wine_unix_call host event_synchronize event_struct (record { event = event; ret = pos 0 })
          p)
        (λ a. a.ret) hip_error_not_supported (λ a. tt)

  unfoldable pub hip_event_elapsed_time :
      Option host.Float
      → ℕ
      → ℕ
      → Process host.World
      → Option ((ℤ × Option host.Float) × Process host.World)
  hip_event_elapsed_time ms start stop p =
      answer
        (wine_unix_call host event_elapsed_time event_elapsed_time_struct
          (record { start = start; stop = stop; ms = host.zero_float; ret = pos 0 }) p)
        (λ a. a.ret) hip_error_not_supported (λ a. store ms a.ms)

  -- `*ext_mem` is NULL from the start on, so a refused import leaves no stale pointer.
  unfoldable pub hip_import_external_memory :
      Option ℕ
      → Option HipExtMemHandleDesc
      → Process host.World
      → Option ((ℤ × Option ℕ) × Process host.World)
  hip_import_external_memory ext_mem none p =
      let (code, p') = set_last_error hip_error_not_supported p in
      some ((code, store ext_mem 0), p')
  hip_import_external_memory ext_mem (some d) p =
      let fd = hip_ext_mem_extract_fd (some d) in
      if is_negative fd
      then (let (code, p') = set_last_error hip_error_not_supported p in
          some ((code, store ext_mem 0), p'))
      else answer
          (wine_unix_call host import_external_memory import_external_memory_struct
            (record { fd = fd; size = d.size; flags = d.flags; ext_mem = 0; ret = pos 0 }) p)
          (λ a. a.ret) hip_error_not_supported (λ a. store ext_mem a.ext_mem)

  unfoldable pub hip_external_memory_get_mapped_buffer :
      Option ℕ
      → ℕ
      → Option HipExtMemBufferDesc
      → Process host.World
      → Option ((ℤ × Option ℕ) × Process host.World)
  hip_external_memory_get_mapped_buffer dev_ptr ext_mem none p =
      let (code, p') = set_last_error hip_error_not_supported p in
      some ((code, store dev_ptr 0), p')
  hip_external_memory_get_mapped_buffer dev_ptr ext_mem (some d) p =
      answer
        (wine_unix_call host external_memory_get_mapped_buffer
          external_memory_get_mapped_buffer_struct
          (record {
            ext_mem = ext_mem;
            offset = d.offset;
            size = d.size;
            flags = d.flags;
            dev_ptr = 0;
            ret = pos 0;
          })
          p)
        (λ a. a.ret) hip_error_not_supported (λ a. store dev_ptr a.dev_ptr)

  unfoldable pub hip_destroy_external_memory :
      ℕ → Process host.World → Option ((ℤ × Unit {0}) × Process host.World)
  hip_destroy_external_memory ext_mem p =
      answer
        (wine_unix_call host destroy_external_memory destroy_external_memory_struct
          (record { ext_mem = ext_mem; ret = pos 0 }) p)
        (λ a. a.ret) hip_error_not_supported (λ a. tt)
