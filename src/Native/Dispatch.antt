-- ===== src/Native/Dispatch.antt =====
-- windows-runtime-bridge/hip-unixlib/unixlib.h, `enum hip_unix_call`, and native.c,
-- `__wine_unix_call_funcs`: a call's number selects its handler by position in the table.
pub mod Reaches
use dlssnr_on_amd_linux.Common.{ℕ, Option, none, some, List, [], ◌∷◌, get_elem?}
use dlssnr_on_amd_linux.Host.{Host}
use dlssnr_on_amd_linux.Native.{Native}
use dlssnr_on_amd_linux.Native.Structs.{
  Args, Struct, get_device_count_struct, set_device_struct, get_version_struct,
  get_error_string_struct, get_device_properties_struct, malloc_struct, free_struct, memcpy_struct,
  memset_struct, device_synchronize_struct, register_fat_binary_struct, register_function_struct,
  unregister_fat_binary_struct, register_var_struct, memcpy_to_symbol_struct, launch_kernel_struct,
  import_external_memory_struct, external_memory_get_mapped_buffer_struct,
  destroy_external_memory_struct, event_create_struct, event_record_struct, event_struct,
  event_elapsed_time_struct, stream_create_struct, stream_synchronize_struct,
}
use dlssnr_on_amd_linux.Native.Queries.{
  unix_get_device_count, unix_set_device, unix_driver_get_version, unix_runtime_get_version,
  unix_get_error_string, unix_get_device_properties, unix_device_synchronize,
}
use dlssnr_on_amd_linux.Native.Memory.{
  unix_malloc, unix_free, unix_memcpy, unix_memset, unix_memcpy_async, unix_memset_async,
  unix_memcpy_to_symbol,
}
use dlssnr_on_amd_linux.Native.Modules.{
  unix_register_fat_binary, unix_register_function, unix_register_var, unix_unregister_fat_binary,
  unix_launch_kernel,
}
use dlssnr_on_amd_linux.Native.Interop.{
  unix_import_external_memory, unix_external_memory_get_mapped_buffer, unix_destroy_external_memory,
  unix_event_create, unix_event_record, unix_event_synchronize, unix_event_query,
  unix_event_elapsed_time, unix_stream_create, unix_stream_synchronize,
}

-- The calls in the order of the enumeration.
pub data HipUnixCall : Type 0 where
  get_device_count : HipUnixCall
  set_device : HipUnixCall
  driver_get_version : HipUnixCall
  runtime_get_version : HipUnixCall
  get_error_string : HipUnixCall
  get_device_properties : HipUnixCall
  malloc : HipUnixCall
  free : HipUnixCall
  memcpy : HipUnixCall
  device_synchronize : HipUnixCall
  register_fat_binary : HipUnixCall
  register_function : HipUnixCall
  unregister_fat_binary : HipUnixCall
  launch_kernel : HipUnixCall
  import_external_memory : HipUnixCall
  external_memory_get_mapped_buffer : HipUnixCall
  destroy_external_memory : HipUnixCall
  event_create : HipUnixCall
  event_record : HipUnixCall
  event_synchronize : HipUnixCall
  event_query : HipUnixCall
  event_elapsed_time : HipUnixCall
  stream_create : HipUnixCall
  stream_synchronize : HipUnixCall
  memset : HipUnixCall
  memset_async : HipUnixCall
  register_var : HipUnixCall
  memcpy_to_symbol : HipUnixCall
  memcpy_async : HipUnixCall

-- The values that C gives to the enumeration's names.
abbrev pub call_number : HipUnixCall → ℕ
call_number get_device_count = 0
call_number set_device = 1
call_number driver_get_version = 2
call_number runtime_get_version = 3
call_number get_error_string = 4
call_number get_device_properties = 5
call_number malloc = 6
call_number free = 7
call_number memcpy = 8
call_number device_synchronize = 9
call_number register_fat_binary = 10
call_number register_function = 11
call_number unregister_fat_binary = 12
call_number launch_kernel = 13
call_number import_external_memory = 14
call_number external_memory_get_mapped_buffer = 15
call_number destroy_external_memory = 16
call_number event_create = 17
call_number event_record = 18
call_number event_synchronize = 19
call_number event_query = 20
call_number event_elapsed_time = 21
call_number stream_create = 22
call_number stream_synchronize = 23
call_number memset = 24
call_number memset_async = 25
call_number register_var = 26
call_number memcpy_to_symbol = 27
call_number memcpy_async = 28

module _ (host : Host) where
  abbrev Handler : Type 0
  Handler = Args host.Float → Native host.World → Option (Args host.Float × Native host.World)

  -- A handler behind its `void *`.
  abbrev pub partial_entry :
      {A : Type 0}
      → Struct host.Float A
      → (A → Native host.World → Option (A × Native host.World))
      → Handler
  partial_entry st f p s = elim (st.unpack p) [
    | none ↦ none
    | some a ↦ elim (f a s) [ none ↦ none | some (a', s') ↦ some (st.pack a', s') ]
  ]

  abbrev entry :
      {A : Type 0} → Struct host.Float A → (A → Native host.World → A × Native host.World) → Handler
  entry st f = partial_entry st (λ a s. some (f a s))

  unfoldable pub wine_unix_call_funcs : List Handler
  wine_unix_call_funcs =
      entry get_device_count_struct (unix_get_device_count host)
      ∷ entry set_device_struct (unix_set_device host)
      ∷ entry get_version_struct (unix_driver_get_version host)
      ∷ entry get_version_struct (unix_runtime_get_version host)
      ∷ entry get_error_string_struct (unix_get_error_string host)
      ∷ entry get_device_properties_struct (unix_get_device_properties host)
      ∷ entry malloc_struct (unix_malloc host)
      ∷ entry free_struct (unix_free host)
      ∷ entry memcpy_struct (unix_memcpy host)
      ∷ entry device_synchronize_struct (unix_device_synchronize host)
      ∷ partial_entry register_fat_binary_struct (unix_register_fat_binary host)
      ∷ entry register_function_struct (unix_register_function host)
      ∷ entry unregister_fat_binary_struct (unix_unregister_fat_binary host)
      ∷ entry launch_kernel_struct (unix_launch_kernel host)
      ∷ entry import_external_memory_struct (unix_import_external_memory host)
      ∷ entry external_memory_get_mapped_buffer_struct (unix_external_memory_get_mapped_buffer host)
      ∷ entry destroy_external_memory_struct (unix_destroy_external_memory host)
      ∷ entry event_create_struct (unix_event_create host)
      ∷ entry event_record_struct (unix_event_record host)
      ∷ entry event_struct (unix_event_synchronize host)
      ∷ entry event_struct (unix_event_query host)
      ∷ entry event_elapsed_time_struct (unix_event_elapsed_time host)
      ∷ entry stream_create_struct (unix_stream_create host)
      ∷ entry stream_synchronize_struct (unix_stream_synchronize host)
      ∷ entry memset_struct (unix_memset host)
      ∷ entry memset_struct (unix_memset_async host)
      ∷ entry register_var_struct (unix_register_var host)
      ∷ entry memcpy_to_symbol_struct (unix_memcpy_to_symbol host)
      ∷ entry memcpy_struct (unix_memcpy_async host)
      ∷ []

  -- `WINE_UNIX_CALL(call, &a)`, and what `a` holds afterwards.
  unfoldable pub unix_call :
      {A : Type 0}
      → HipUnixCall
      → Struct host.Float A
      → A
      → Native host.World
      → Option (A × Native host.World)
  unfolding wine_unix_call_funcs
  unix_call call st a s = elim (get_elem? wine_unix_call_funcs (call_number call)) [
    | none ↦ none
    | some handler ↦ elim (handler (st.pack a) s) [
      | none ↦ none
      | some (p, s') ↦ elim (st.unpack p) [ none ↦ none | some a' ↦ some (a', s') ]
    ]
  ]
