-- ===== src/Native/Interop.antt =====
-- native.c: the handlers of external memory, events and streams.
use dlssnr_on_amd_linux.Common.{ℕ, ℤ, pos, minus_one, not, ◌==◌, if◌then◌else◌}
use dlssnr_on_amd_linux.Forward.{hip_forward_ptr_result}
use dlssnr_on_amd_linux.ExtMem.{
  HipExtMemHandleDesc, HipExtMemBufferDesc, set_handle_fd, zeroed_desc, opaque_fd,
}
use dlssnr_on_amd_linux.Host.{Host}
use dlssnr_on_amd_linux.Native.{
  Native, import_external_memory, external_memory_get_mapped_buffer, destroy_external_memory,
  event_create, event_create_with_flags, event_record, event_synchronize, event_query,
  event_elapsed_time, stream_create_with_flags, stream_synchronize, resolve,
}
use dlssnr_on_amd_linux.Native.Args.{
  ArgsImportExternalMemory, ArgsExternalMemoryGetMappedBuffer, ArgsDestroyExternalMemory,
  ArgsEventCreate, ArgsEventRecord, ArgsEvent, ArgsEventElapsedTime, ArgsStreamCreate,
  ArgsStreamSynchronize,
}

module _ (host : Host) where
  -- A call that yields a pointer, where its function is there; the pointer starts at NULL.
  unfoldable pub query_pointer :
      (ℕ → host.World → ℤ × ℕ × host.World) → ℕ → host.World → ℤ × ℕ × host.World
  query_pointer call fn w = if fn == 0 then (minus_one, 0, w) else call fn w

  -- The descriptor that the native side builds: an OpaqueFd one.
  unfoldable pub opaque_desc : ArgsImportExternalMemory → HipExtMemHandleDesc
  opaque_desc a = record (set_handle_fd a.fd (record zeroed_desc { type = pos opaque_fd })) {
    size = a.size;
    flags = a.flags;
  }

  unfoldable pub unix_import_external_memory :
      ArgsImportExternalMemory → Native host.World → ArgsImportExternalMemory × Native host.World
  unfolding query_pointer opaque_desc
  unix_import_external_memory a s =
      let (fn, s') = resolve host import_external_memory s in
      let (real_ret, real_ptr, w) =
        query_pointer (λ f. host.hip_import_external_memory f (opaque_desc a)) fn s'.world in
      let (ext_mem, ret) = hip_forward_ptr_result (not (fn == 0)) real_ptr real_ret in
      (record a { ext_mem = ext_mem; ret = ret }, record s' { world = w })

  unfoldable pub unix_external_memory_get_mapped_buffer :
      ArgsExternalMemoryGetMappedBuffer
      → Native host.World
      → ArgsExternalMemoryGetMappedBuffer × Native host.World
  unfolding query_pointer
  unix_external_memory_get_mapped_buffer a s =
      let (fn, s') = resolve host external_memory_get_mapped_buffer s in
      let desc : HipExtMemBufferDesc = record {
        offset = a.offset;
        size = a.size;
        flags = a.flags;
      } in
      let (real_ret, real_ptr, w) =
        query_pointer (λ f. host.hip_external_memory_get_mapped_buffer f a.ext_mem desc) fn
          s'.world in
      let (dev_ptr, ret) = hip_forward_ptr_result (not (fn == 0)) real_ptr real_ret in
      (record a { dev_ptr = dev_ptr; ret = ret }, record s' { world = w })

  unfoldable pub unix_destroy_external_memory :
      ArgsDestroyExternalMemory → Native host.World → ArgsDestroyExternalMemory × Native host.World
  unix_destroy_external_memory a s =
      let (fn, s') = resolve host destroy_external_memory s in
      if fn == 0
      then (record a { ret = minus_one }, s')
      else (let (ret, w) = host.hip_destroy_external_memory fn a.ext_mem s'.world in
          (record a { ret = ret }, record s' { world = w }))

  -- Flags select which of two functions is used.
  unfoldable pub unix_event_create :
      ArgsEventCreate → Native host.World → ArgsEventCreate × Native host.World
  unfolding query_pointer
  unix_event_create a s =
      let plain = a.flags == 0 in
      let (fn, s') = resolve host (if plain then event_create else event_create_with_flags) s in
      let (real_ret, real_ptr, w) =
        query_pointer
          (λ f.
            if plain then host.hip_event_create f else host.hip_event_create_with_flags f a.flags)
          fn s'.world in
      let (event, ret) = hip_forward_ptr_result (not (fn == 0)) real_ptr real_ret in
      (record a { event = event; ret = ret }, record s' { world = w })

  unfoldable pub unix_event_record :
      ArgsEventRecord → Native host.World → ArgsEventRecord × Native host.World
  unix_event_record a s =
      let (fn, s') = resolve host event_record s in
      if fn == 0
      then (record a { ret = minus_one }, s')
      else (let (ret, w) = host.hip_event_record fn a.event a.stream s'.world in
          (record a { ret = ret }, record s' { world = w }))

  unfoldable pub unix_event_synchronize :
      ArgsEvent → Native host.World → ArgsEvent × Native host.World
  unix_event_synchronize a s =
      let (fn, s') = resolve host event_synchronize s in
      if fn == 0
      then (record a { ret = minus_one }, s')
      else (let (ret, w) = host.hip_event_synchronize fn a.event s'.world in
          (record a { ret = ret }, record s' { world = w }))

  unfoldable pub unix_event_query : ArgsEvent → Native host.World → ArgsEvent × Native host.World
  unix_event_query a s =
      let (fn, s') = resolve host event_query s in
      if fn == 0
      then (record a { ret = minus_one }, s')
      else (let (ret, w) = host.hip_event_query fn a.event s'.world in
          (record a { ret = ret }, record s' { world = w }))

  unfoldable pub unix_event_elapsed_time :
      ArgsEventElapsedTime host.Float
      → Native host.World
      → ArgsEventElapsedTime host.Float × Native host.World
  unix_event_elapsed_time a s =
      let (fn, s') = resolve host event_elapsed_time s in
      if fn == 0
      then (record a { ms = host.zero_float; ret = minus_one }, s')
      else (let (ret, ms, w) = host.hip_event_elapsed_time fn a.start a.stop s'.world in
          (record a { ms = ms; ret = ret }, record s' { world = w }))

  unfoldable pub unix_stream_create :
      ArgsStreamCreate → Native host.World → ArgsStreamCreate × Native host.World
  unfolding query_pointer
  unix_stream_create a s =
      let (fn, s') = resolve host stream_create_with_flags s in
      let (real_ret, real_ptr, w) =
        query_pointer (λ f. host.hip_stream_create_with_flags f a.flags) fn s'.world in
      let (stream, ret) = hip_forward_ptr_result (not (fn == 0)) real_ptr real_ret in
      (record a { stream = stream; ret = ret }, record s' { world = w })

  unfoldable pub unix_stream_synchronize :
      ArgsStreamSynchronize → Native host.World → ArgsStreamSynchronize × Native host.World
  unix_stream_synchronize a s =
      let (fn, s') = resolve host stream_synchronize s in
      if fn == 0
      then (record a { ret = minus_one }, s')
      else (let (ret, w) = host.hip_stream_synchronize fn a.stream s'.world in
          (record a { ret = ret }, record s' { world = w }))
