-- ===== src/Pe/Sticky.antt =====
-- pe_shim.c: the sticky error. Every call answers; one that succeeds leaves `last_error` alone, one
-- that fails puts there the code that it returns, and hipGetLastError reads and clears it.
pub mod Calls
pub mod History
use dlssnr_on_amd_linux.Common.{
  ℕ, ℤ, pos, negsuc, ◌≡◌, ◌≢◌, refl, Bool, true, false, not, Option, none, some, List, [], ◌∷◌, ◌⊎◌,
  inl, inr, arith, ◌==◌, int_eq, is_negative, if◌then◌else◌, Bool-cases, leb, subst, sym,
}
use dlssnr_on_amd_linux.ExtMem.{HipExtMemHandleDesc, HipExtMemBufferDesc, hip_ext_mem_extract_fd}
use dlssnr_on_amd_linux.Forward.{hip_memcpy_kind_supported, hip_get_last_error_and_reset}
use dlssnr_on_amd_linux.Host.{Host}
use dlssnr_on_amd_linux.Native.{Native}
use dlssnr_on_amd_linux.Native.Args.{Dim3}
use dlssnr_on_amd_linux.Native.Structs.{Struct}
use dlssnr_on_amd_linux.Native.Dispatch.{HipUnixCall, unix_call}
use dlssnr_on_amd_linux.Native.Dispatch.Reaches.{unix_call-Reaches}
use dlssnr_on_amd_linux.Pe.{Process, finish, set_last_error, wine_unix_call, answer, reports}
use dlssnr_on_amd_linux.Pe.Config.{
  PopOut, hip_push_call_configuration, hip_pop_call_configuration, push_config, pop_config,
  ensure_call_config_lock,
}
use dlssnr_on_amd_linux.Pe.Registration.{hip_launch_kernel, launch_forward}
use dlssnr_on_amd_linux.Pe.Device.{
  hip_get_device_count, hip_get_device_properties_r0600, hip_set_device, hip_device_synchronize,
  hip_driver_get_version, hip_runtime_get_version, hip_get_last_error,
}
use dlssnr_on_amd_linux.Pe.Memory.{
  hip_malloc, hip_free, hip_memcpy, hip_memcpy_async, hip_memcpy_to_symbol, hip_memset,
  hip_memset_async,
}
use dlssnr_on_amd_linux.Pe.Interop.{
  hip_event_create, hip_event_create_with_flags, hip_event_query, hip_event_record,
  hip_event_synchronize, hip_event_elapsed_time, hip_stream_create_with_flags,
  hip_stream_synchronize, hip_import_external_memory, hip_external_memory_get_mapped_buffer,
  hip_destroy_external_memory,
}
use dlssnr_on_amd_linux.Pe.Api.{
  ApiCall, code_of, run_call, run_calls, push_call_configuration, pop_call_configuration,
  launch_kernel, get_device_count, get_device_properties, set_device, device_synchronize,
  driver_get_version, runtime_get_version, malloc, free, memcpy, memcpy_async, memcpy_to_symbol,
  memset, memset_async, event_create, event_create_with_flags, event_query, event_record,
  event_synchronize, event_elapsed_time, stream_create_with_flags, stream_synchronize,
  import_external_memory, external_memory_get_mapped_buffer, destroy_external_memory,
  get_last_error,
}

-- Success leaves the sticky error alone, failure sets it to the code that is returned.
abbrev pub IsSticky : {W : Type 0} → Process W → ℤ → Process W → Type 0
IsSticky p code p' =
    ((code ≡ pos 0) × (p'.last_error ≡ p.last_error)) ⊎ ((code ≢ pos 0) × (p'.last_error ≡ code))

-- The call answers, and its code is sticky.
abbrev pub Ends : {W : Type 0} → Process W → Option (ℤ × Process W) → Type 0
Ends p none = ⊥
Ends p (some (code, p')) = IsSticky p code p'

set_last_error-IsSticky :
    {W : Type 0} (code : ℕ) (p q : Process W)
    → code ≢ 0
    → let (r, q') = set_last_error code q in IsSticky p r q'
unfolding set_last_error
set_last_error-IsSticky code p q h = inr (ground arith, refl)

finish-IsSticky :
    {W : Type 0} (ret : ℤ) (code : ℕ) (p q : Process W)
    → code ≢ 0
    → q.last_error ≡ p.last_error
    → let (r, q') = finish ret code q in IsSticky p r q'
unfolding finish
finish-IsSticky ret code p q h same = elim (Bool-cases (int_eq ret 0)) [
  | inl done ↦ rw done (inl (refl, same))
  | inr failed ↦ rw failed (set_last_error-IsSticky code p q h)
]

module _ (host : Host) where
  -- A call that the native side answers returns the struct, and changes the native state alone.
  pub wine_unix_call_answers :
      {A : Type 0} (call : HipUnixCall) (st : Struct host.Float A) (a : A) (p : Process host.World)
      (h : A × Native host.World)
      → unix_call host call st a p.native ≡ some h
      → wine_unix_call host call st a p ≡ some (h.0, record p { native = h.1 })
  unfolding wine_unix_call
  wine_unix_call_answers call st a p h e = rw (e, wine_unix_call)

  -- A function that forwards a call ends stickily, once the native side is known to answer.
  pub forwarded-Ends :
      {A B : Type 0} (call : HipUnixCall) (st : Struct host.Float A) (a : A)
      (p : Process host.World) (h : A × Native host.World) (ret : A → ℤ) (code : ℕ) (out : A → B)
      → code ≢ 0
      → unix_call host call st a p.native ≡ some h
      → Ends p (code_of (answer (wine_unix_call host call st a p) ret code out))
  forwarded-Ends call st a p h ret code out nonzero e =
      subst (λ o. Ends p (code_of (answer o ret code out)))
        (sym (wine_unix_call_answers call st a p h e))
        (finish-IsSticky (ret h.0) code p (record p { native = h.1 }) nonzero refl)

  -- A version query reports success.
  pub version-Ends :
      {A B : Type 0} (call : HipUnixCall) (st : Struct host.Float A) (a : A)
      (p : Process host.World) (h : A × Native host.World) (out : A → B)
      → unix_call host call st a p.native ≡ some h
      → Ends p (code_of (reports (wine_unix_call host call st a p) out))
  version-Ends call st a p h out e =
      subst (λ o. Ends p (code_of (reports o out))) (sym (wine_unix_call_answers call st a p h e))
        (inl (refl, refl))

  pub rejected-Ends : (p : Process host.World) → Ends p (some (set_last_error 801 p))
  unfolding set_last_error
  rejected-Ends p = inr (ground arith, refl)

  pub push-Ends :
      (g b : Option Dim3) (m s : ℕ) (p : Process host.World)
      → Ends p (some (hip_push_call_configuration g b m s p))
  unfolding hip_push_call_configuration set_last_error
  push-Ends none b m s p = rejected-Ends p
  push-Ends (some g) none m s p = rejected-Ends p
  push-Ends (some g) (some b) m s p = ground arith

  pub pop-Ends :
      (out : PopOut) (p : Process host.World)
      → Ends p (code_of (some (hip_pop_call_configuration out p)))
  unfolding hip_pop_call_configuration set_last_error
  pop-Ends out p = ground arith

  pub launch-Ends :
      (f : ℕ) (g b : Option Dim3) (a : Option ℕ) (m s : ℕ) (p : Process host.World)
      → Ends p (code_of (hip_launch_kernel host f g b a m s p))
  unfolding hip_launch_kernel
  launch-Ends f (some g) (some b) (some a) m s p = elim (Bool-cases (a == 0)) [
    | inl null ↦ rw (null, Ends) (rejected-Ends p)
    | inr there ↦
        rw (there, Ends)
          (forwarded-Ends _ _ _ p _ (λ x. x.ret) 801 (λ x. tt) (omega arith)
            (unix_call-Reaches host HipUnixCall.launch_kernel _ p.native))
  ]
  launch-Ends f g b a m s p = rejected-Ends p
