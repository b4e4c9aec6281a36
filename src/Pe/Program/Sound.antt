-- ===== src/Pe/Program/Sound.antt =====
-- pe_shim.c: the invariant of a process, both sides of the bridge together, and what a call that
-- forwards to the native side does to it.
use dlssnr_on_amd_linux.Common.{
  ℕ, ◌<◌, ◌≡◌, refl, subst, sym, ℤ, Option, none, some, inl, inr, Bool-cases, int_eq, ◌==◌, arith,
}
use dlssnr_on_amd_linux.AllocCap.{u64}
use dlssnr_on_amd_linux.Host.{Host}
use dlssnr_on_amd_linux.Native.{Native}
use dlssnr_on_amd_linux.Native.Args.{Dim3}
use dlssnr_on_amd_linux.Native.Structs.{Struct}
use dlssnr_on_amd_linux.Native.Dispatch.{HipUnixCall, unix_call}
use dlssnr_on_amd_linux.Native.Changes.{requested}
use dlssnr_on_amd_linux.Native.Changes.Invariant
use dlssnr_on_amd_linux.Native.Changes.Invariant.{unix_call-IsSound}
use dlssnr_on_amd_linux.Pe.{Process, finish, set_last_error, wine_unix_call, answer, reports}
use dlssnr_on_amd_linux.Native.Dispatch.Reaches.{unix_call-Reaches}
use dlssnr_on_amd_linux.Pe.Config.{PopOut, hip_push_call_configuration, hip_pop_call_configuration}
use dlssnr_on_amd_linux.Pe.Registration.{hip_launch_kernel}
use dlssnr_on_amd_linux.Pe.Api.{code_of}
use dlssnr_on_amd_linux.Pe.Stack
use dlssnr_on_amd_linux.Pe.Stack.{push, pop, stack_call, stack_call-Agrees}
use dlssnr_on_amd_linux.Pe.Sticky.{wine_unix_call_answers}
use dlssnr_on_amd_linux.Pe.Program.{process_of}

-- The native side is sound, and the stack of call configurations is within its array.
pub record IsSound (host : Host) (p : Process host.World) : Type 0 where
  pub native : Invariant.IsSound host p.native
  pub stack : Stack.IsValid p

module _ (host : Host) where
  -- The call answers, and leaves a sound process.
  abbrev pub EndsSound : Option (Process host.World) → Type 0
  EndsSound none = ⊥
  EndsSound (some p) = IsSound host p

  pub rejected-EndsSound :
      (code : ℕ) (p : Process host.World) → IsSound host p → IsSound host (set_last_error code p).1
  unfolding set_last_error
  rejected-EndsSound code p v = record { native = v.native; stack = v.stack }

  finish-IsSound :
      (ret : ℤ) (code : ℕ) (p : Process host.World)
      → IsSound host p
      → IsSound host (finish ret code p).1
  unfolding finish
  finish-IsSound ret code p v = elim (Bool-cases (int_eq ret 0)) [
    | inl done ↦ rw done v
    | inr failed ↦ rw failed (rejected-EndsSound code p v)
  ]

  pub forwarded-IsSound :
      {A : Type 0} (call : HipUnixCall) (st : Struct host.Float A) (a : A) (p : Process host.World)
      (h : A × Native host.World)
      → requested (st.pack a) < u64
      → unix_call host call st a p.native ≡ some h
      → IsSound host p
      → IsSound host (record p { native = h.1 })
  forwarded-IsSound call st a p h word e v = record {
    native = unix_call-IsSound host call st a h.0 p.native h.1 word e v.native;
    stack = v.stack;
  }

  -- A function that forwards a call and reports its failure.
  pub forwarded-EndsSound :
      {A B : Type 0} (call : HipUnixCall) (st : Struct host.Float A) (a : A)
      (p : Process host.World) (h : A × Native host.World) (ret : A → ℤ) (code : ℕ) (out : A → B)
      → requested (st.pack a) < u64
      → unix_call host call st a p.native ≡ some h
      → IsSound host p
      → EndsSound (process_of (code_of (answer (wine_unix_call host call st a p) ret code out)))
  forwarded-EndsSound call st a p h ret code out word e v =
      subst (λ o. EndsSound (process_of (code_of (answer o ret code out))))
        (sym (wine_unix_call_answers host call st a p h e))
        (finish-IsSound (ret h.0) code (record p { native = h.1 })
          (forwarded-IsSound call st a p h word e v))

  -- A function that forwards a call and reports success.
  pub version-EndsSound :
      {A B : Type 0} (call : HipUnixCall) (st : Struct host.Float A) (a : A)
      (p : Process host.World) (h : A × Native host.World) (out : A → B)
      → requested (st.pack a) < u64
      → unix_call host call st a p.native ≡ some h
      → IsSound host p
      → EndsSound (process_of (code_of (reports (wine_unix_call host call st a p) out)))
  version-EndsSound call st a p h out word e v =
      subst (λ o. EndsSound (process_of (code_of (reports o out))))
        (sym (wine_unix_call_answers host call st a p h e))
        (forwarded-IsSound call st a p h word e v)

  -- A function that forwards a call and returns no code.
  pub forwarded_void-EndsSound :
      {A B : Type 0} (call : HipUnixCall) (st : Struct host.Float A) (a : A)
      (p : Process host.World) (h : A × Native host.World) (out : A → B)
      → requested (st.pack a) < u64
      → unix_call host call st a p.native ≡ some h
      → IsSound host p
      → EndsSound (
          process_of (elim (wine_unix_call host call st a p) [
            | none ↦ none
            | some (a', p') ↦ some (out a', p')
          ]))
  forwarded_void-EndsSound call st a p h out word e v =
      rw (wine_unix_call_answers host call st a p h e) (forwarded-IsSound call st a p h word e v)

  pub push_native :
      (g b : Option Dim3) (m s : ℕ) (p : Process host.World)
      → (hip_push_call_configuration g b m s p).1.native ≡ p.native
  unfolding hip_push_call_configuration set_last_error
  push_native none b m s p = refl
  push_native (some g) none m s p = refl
  push_native (some g) (some b) m s p = ground arith

  pub pop_native :
      (out : PopOut) (p : Process host.World)
      → (hip_pop_call_configuration out p).1.native ≡ p.native
  unfolding hip_pop_call_configuration set_last_error
  pop_native out p = ground arith

  pub push-EndsSound :
      (g b : Option Dim3) (m s : ℕ) (p : Process host.World)
      → IsSound host p
      → EndsSound (process_of (some (hip_push_call_configuration g b m s p)))
  unfolding stack_call
  push-EndsSound g b m s p v =
      let (same, seen, valid) = stack_call-Agrees (push g b m s) p v.stack in
      record {
        native = subst (Invariant.IsSound host) (sym (push_native g b m s p)) v.native;
        stack = valid;
      }

  pub pop-EndsSound :
      (out : PopOut) (p : Process host.World)
      → IsSound host p
      → EndsSound (process_of (code_of (some (hip_pop_call_configuration out p))))
  unfolding stack_call
  pop-EndsSound out p v =
      let (same, seen, valid) = stack_call-Agrees (pop out) p v.stack in
      record {
        native = subst (Invariant.IsSound host) (sym (pop_native out p)) v.native;
        stack = valid;
      }

  pub launch-EndsSound :
      (f : ℕ) (g b : Option Dim3) (a : Option ℕ) (m s : ℕ) (p : Process host.World)
      → IsSound host p
      → EndsSound (process_of (code_of (hip_launch_kernel host f g b a m s p)))
  unfolding hip_launch_kernel
  launch-EndsSound f (some g) (some b) (some a) m s p v = elim (Bool-cases (a == 0)) [
    | inl null ↦ rw (null, EndsSound) (rejected-EndsSound 801 p v)
    | inr there ↦
        rw (there, EndsSound)
          (forwarded-EndsSound _ _ _ p _ (λ x. x.ret) 801 (λ x. tt) (omega arith)
            (unix_call-Reaches host HipUnixCall.launch_kernel _ p.native) v)
  ]
  launch-EndsSound f g b a m s p v = rejected-EndsSound 801 p v
