-- ===== src/Native/Changes/Calls.antt =====
-- native.c: the changes of the state that a call of the table makes, whatever struct it is given.
use dlssnr_on_amd_linux.Common.{ℕ, ◌≡◌, subst, arith, Option, none, some, inl, inr, Option-cases}
use dlssnr_on_amd_linux.Host.{Host}
use dlssnr_on_amd_linux.Native.{Native}
use dlssnr_on_amd_linux.Native.Args.{ArgsMalloc}
use dlssnr_on_amd_linux.Native.Structs
use dlssnr_on_amd_linux.Native.Structs.{
  Args, Struct, get_device_count_struct, set_device_struct, get_version_struct,
  get_error_string_struct, get_device_properties_struct, malloc_struct, free_struct, memcpy_struct,
  memset_struct, device_synchronize_struct, register_fat_binary_struct, register_function_struct,
  unregister_fat_binary_struct, register_var_struct, memcpy_to_symbol_struct, launch_kernel_struct,
  import_external_memory_struct, external_memory_get_mapped_buffer_struct,
  destroy_external_memory_struct, event_create_struct, event_record_struct, event_struct,
  event_elapsed_time_struct, stream_create_struct, stream_synchronize_struct,
}
use dlssnr_on_amd_linux.Native.Queries.{
  unix_get_device_count, unix_set_device, unix_driver_get_version, unix_runtime_get_version,
  unix_get_error_string, unix_get_device_properties, unix_device_synchronize,
}
use dlssnr_on_amd_linux.Native.Memory.{
  unix_malloc, unix_free, unix_memcpy, unix_memset, unix_memcpy_async, unix_memset_async,
  unix_memcpy_to_symbol,
}
use dlssnr_on_amd_linux.Native.Modules.{
  unix_register_fat_binary, unix_register_function, unix_register_var, unix_unregister_fat_binary,
  unix_launch_kernel,
}
use dlssnr_on_amd_linux.Native.Interop.{
  unix_import_external_memory, unix_external_memory_get_mapped_buffer, unix_destroy_external_memory,
  unix_event_create, unix_event_record, unix_event_synchronize, unix_event_query,
  unix_event_elapsed_time, unix_stream_create, unix_stream_synchronize,
}
use dlssnr_on_amd_linux.Native.Dispatch.{
  HipUnixCall, unix_call, partial_entry, get_device_count, set_device, driver_get_version,
  runtime_get_version, get_error_string, get_device_properties, malloc, free, memcpy,
  device_synchronize, register_fat_binary, register_function, unregister_fat_binary, launch_kernel,
  import_external_memory, external_memory_get_mapped_buffer, destroy_external_memory, event_create,
  event_record, event_synchronize, event_query, event_elapsed_time, stream_create,
  stream_synchronize, memset, memset_async, register_var, memcpy_to_symbol, memcpy_async,
}
use dlssnr_on_amd_linux.Native.Changes.{Changes, Leads, requested}
use dlssnr_on_amd_linux.Native.Changes.Handlers.{
  unix_get_device_count-Changes, unix_set_device-Changes, unix_get_error_string-Changes,
  unix_get_device_properties-Changes, unix_device_synchronize-Changes, unix_memcpy-Changes,
  unix_memset-Changes, unix_memcpy_async-Changes, unix_memset_async-Changes,
  unix_destroy_external_memory-Changes, unix_event_record-Changes, unix_event_synchronize-Changes,
  unix_event_query-Changes, unix_event_elapsed_time-Changes, unix_stream_synchronize-Changes,
  unix_driver_get_version-Changes, unix_runtime_get_version-Changes,
  unix_import_external_memory-Changes, unix_external_memory_get_mapped_buffer-Changes,
  unix_event_create-Changes, unix_stream_create-Changes, unix_malloc-Changes, unix_free-Changes,
  unix_memcpy_to_symbol-Changes, unix_register_fat_binary-Leads, unix_register_function-Changes,
  unix_register_var-Changes, unix_unregister_fat_binary-Changes, unix_launch_kernel-Changes,
}

module _ (host : Host) where
  -- The struct is read back after the handler.
  answered-Leads :
      {A : Type 0} (call : HipUnixCall) (size : ℕ) (s : Native host.World)
      (st : Struct host.Float A) (r : Option (Args host.Float × Native host.World))
      → Leads host call size s r
      → Leads host call size s (elim r [
        | none ↦ none
        | some (p, s') ↦ elim (st.unpack p) [ none ↦ none | some a ↦ some (a, s') ]
      ])
  answered-Leads call size s st none h = tt
  answered-Leads call size s st (some (p, s')) h = elim (Option-cases (st.unpack p)) [
    | inl other ↦ rw (other, Leads) tt
    | inr (a, own) ↦ rw (own, Leads) h
  ]

  packed-Leads :
      {A : Type 0} (call : HipUnixCall) (size : ℕ) (s : Native host.World)
      (st : Struct host.Float A) (r : Option (A × Native host.World))
      → Leads host call size s r
      → let r' : Option (Args host.Float × Native host.World) = elim r [
        | none ↦ none
        | some (a, s') ↦ some (st.pack a, s')
      ] in
        Leads host call size s r'
  packed-Leads call size s st none h = tt
  packed-Leads call size s st (some (a, s')) h = h

  -- A handler behind its `void *` changes what the handler changes.
  partial_entry-Leads :
      {A : Type 0} (call : HipUnixCall) (size : ℕ) (st : Struct host.Float A)
      (f : A → Native host.World → Option (A × Native host.World)) (p : Args host.Float)
      (s : Native host.World)
      → ((a : A) → st.unpack p ≡ some a → Leads host call size s (f a s))
      → Leads host call size s (partial_entry host st f p s)
  partial_entry-Leads call size st f p s h = elim (Option-cases (st.unpack p)) [
    | inl other ↦ rw (other, Leads) tt
    | inr (a, own) ↦ rw (own, Leads) (packed-Leads call size s st (f a s) (h a own))
  ]

  -- A call whose entry of the table is a handler with its struct.
  call-Leads :
      {A B : Type 0} (call : HipUnixCall) (st : Struct host.Float A) (own : Struct host.Float B)
      (f : B → Native host.World → Option (B × Native host.World)) (a : A) (s : Native host.World)
      → ((b : B)
          → own.unpack (st.pack a) ≡ some b
          → Leads host call (requested (st.pack a)) s (f b s))
      → Leads host call (requested (st.pack a)) s (elim (partial_entry host own f (st.pack a) s) [
        | none ↦ none
        | some (p, s') ↦ elim (st.unpack p) [ none ↦ none | some a' ↦ some (a', s') ]
      ])
  call-Leads call st own f a s h =
      answered-Leads call _ s st _ (partial_entry-Leads call _ own f (st.pack a) s h)

  -- The size in the struct of hipMalloc.
  requested-malloc :
      (p : Args host.Float) (a : ArgsMalloc)
      → malloc_struct.unpack p ≡ some a
      → a.size ≡ requested p
  requested-malloc (Structs.malloc b) a e = ground arith
  requested-malloc p a e = absurd (ground arith)

  -- Whatever struct a call is given, if it answers then it has made only changes of its own: it has
  -- loaded the runtime, or changed the world outside; hipMalloc alone has read the limit and
  -- recorded an allocation, of the size in its struct; hipFree alone has released one; and each of
  -- the three registrations alone has added to its own table.
  pub unix_call-Leads :
      {A : Type 0} (call : HipUnixCall) (st : Struct host.Float A) (a : A) (s : Native host.World)
      → Leads host call (requested (st.pack a)) s (unix_call host call st a s)
  unfolding unix_call
  unix_call-Leads get_device_count st a s =
      call-Leads get_device_count st get_device_count_struct
        (λ x s. some (unix_get_device_count host x s)) a s
        (λ x _. unix_get_device_count-Changes host _ x s)
  unix_call-Leads set_device st a s =
      call-Leads set_device st set_device_struct (λ x s. some (unix_set_device host x s)) a s
        (λ x _. unix_set_device-Changes host _ x s)
  unix_call-Leads driver_get_version st a s =
      call-Leads driver_get_version st get_version_struct
        (λ x s. some (unix_driver_get_version host x s)) a s
        (λ x _. unix_driver_get_version-Changes host _ x s)
  unix_call-Leads runtime_get_version st a s =
      call-Leads runtime_get_version st get_version_struct
        (λ x s. some (unix_runtime_get_version host x s)) a s
        (λ x _. unix_runtime_get_version-Changes host _ x s)
  unix_call-Leads get_error_string st a s =
      call-Leads get_error_string st get_error_string_struct
        (λ x s. some (unix_get_error_string host x s)) a s
        (λ x _. unix_get_error_string-Changes host _ x s)
  unix_call-Leads get_device_properties st a s =
      call-Leads get_device_properties st get_device_properties_struct
        (λ x s. some (unix_get_device_properties host x s)) a s
        (λ x _. unix_get_device_properties-Changes host _ x s)
  unix_call-Leads malloc st a s =
      call-Leads malloc st malloc_struct (λ x s. some (unix_malloc host x s)) a s
        (λ x own.
          subst (λ size. Changes host malloc size s (unix_malloc host x s).1)
            (requested-malloc (st.pack a) x own) (unix_malloc-Changes host x s))
  unix_call-Leads free st a s =
      call-Leads free st free_struct (λ x s. some (unix_free host x s)) a s
        (λ x _. unix_free-Changes host _ x s)
  unix_call-Leads memcpy st a s =
      call-Leads memcpy st memcpy_struct (λ x s. some (unix_memcpy host x s)) a s
        (λ x _. unix_memcpy-Changes host _ x s)
  unix_call-Leads device_synchronize st a s =
      call-Leads device_synchronize st device_synchronize_struct
        (λ x s. some (unix_device_synchronize host x s)) a s
        (λ x _. unix_device_synchronize-Changes host _ x s)
  unix_call-Leads register_fat_binary st a s =
      call-Leads register_fat_binary st register_fat_binary_struct (unix_register_fat_binary host) a
        s (λ x _. unix_register_fat_binary-Leads host _ x s)
  unix_call-Leads register_function st a s =
      call-Leads register_function st register_function_struct
        (λ x s. some (unix_register_function host x s)) a s
        (λ x _. unix_register_function-Changes host _ x s)
  unix_call-Leads unregister_fat_binary st a s =
      call-Leads unregister_fat_binary st unregister_fat_binary_struct
        (λ x s. some (unix_unregister_fat_binary host x s)) a s
        (λ x _. unix_unregister_fat_binary-Changes host _ x s)
  unix_call-Leads launch_kernel st a s =
      call-Leads launch_kernel st launch_kernel_struct (λ x s. some (unix_launch_kernel host x s)) a
        s (λ x _. unix_launch_kernel-Changes host _ x s)
  unix_call-Leads import_external_memory st a s =
      call-Leads import_external_memory st import_external_memory_struct
        (λ x s. some (unix_import_external_memory host x s)) a s
        (λ x _. unix_import_external_memory-Changes host _ x s)
  unix_call-Leads external_memory_get_mapped_buffer st a s =
      call-Leads external_memory_get_mapped_buffer st external_memory_get_mapped_buffer_struct
        (λ x s. some (unix_external_memory_get_mapped_buffer host x s)) a s
        (λ x _. unix_external_memory_get_mapped_buffer-Changes host _ x s)
  unix_call-Leads destroy_external_memory st a s =
      call-Leads destroy_external_memory st destroy_external_memory_struct
        (λ x s. some (unix_destroy_external_memory host x s)) a s
        (λ x _. unix_destroy_external_memory-Changes host _ x s)
  unix_call-Leads event_create st a s =
      call-Leads event_create st event_create_struct (λ x s. some (unix_event_create host x s)) a s
        (λ x _. unix_event_create-Changes host _ x s)
  unix_call-Leads event_record st a s =
      call-Leads event_record st event_record_struct (λ x s. some (unix_event_record host x s)) a s
        (λ x _. unix_event_record-Changes host _ x s)
  unix_call-Leads event_synchronize st a s =
      call-Leads event_synchronize st event_struct (λ x s. some (unix_event_synchronize host x s)) a
        s (λ x _. unix_event_synchronize-Changes host _ x s)
  unix_call-Leads event_query st a s =
      call-Leads event_query st event_struct (λ x s. some (unix_event_query host x s)) a s
        (λ x _. unix_event_query-Changes host _ x s)
  unix_call-Leads event_elapsed_time st a s =
      call-Leads event_elapsed_time st event_elapsed_time_struct
        (λ x s. some (unix_event_elapsed_time host x s)) a s
        (λ x _. unix_event_elapsed_time-Changes host _ x s)
  unix_call-Leads stream_create st a s =
      call-Leads stream_create st stream_create_struct (λ x s. some (unix_stream_create host x s)) a
        s (λ x _. unix_stream_create-Changes host _ x s)
  unix_call-Leads stream_synchronize st a s =
      call-Leads stream_synchronize st stream_synchronize_struct
        (λ x s. some (unix_stream_synchronize host x s)) a s
        (λ x _. unix_stream_synchronize-Changes host _ x s)
  unix_call-Leads memset st a s =
      call-Leads memset st memset_struct (λ x s. some (unix_memset host x s)) a s
        (λ x _. unix_memset-Changes host _ x s)
  unix_call-Leads memset_async st a s =
      call-Leads memset_async st memset_struct (λ x s. some (unix_memset_async host x s)) a s
        (λ x _. unix_memset_async-Changes host _ x s)
  unix_call-Leads register_var st a s =
      call-Leads register_var st register_var_struct (λ x s. some (unix_register_var host x s)) a s
        (λ x _. unix_register_var-Changes host _ x s)
  unix_call-Leads memcpy_to_symbol st a s =
      call-Leads memcpy_to_symbol st memcpy_to_symbol_struct
        (λ x s. some (unix_memcpy_to_symbol host x s)) a s
        (λ x _. unix_memcpy_to_symbol-Changes host _ x s)
  unix_call-Leads memcpy_async st a s =
      call-Leads memcpy_async st memcpy_struct (λ x s. some (unix_memcpy_async host x s)) a s
        (λ x _. unix_memcpy_async-Changes host _ x s)
