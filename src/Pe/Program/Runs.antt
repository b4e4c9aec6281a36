-- ===== src/Pe/Program/Runs.antt =====
-- pe_shim.c: the invariant of a process holds after every program of exported functions, and a
-- program crashes only where it registers a fat binary that is not mapped.
use dlssnr_on_amd_linux.Common.{
  ℕ, ◌≡◌, refl, ◌∙◌, subst, sym, arith, Option, none, some, List, [], ◌∷◌, All, inl, inr,
  Option-cases,
}
use dlssnr_on_amd_linux.Registry.Bundle.{resolve_bundle_ptr}
use dlssnr_on_amd_linux.Host.{Host}
use dlssnr_on_amd_linux.Native.{Native, Symbol, resolve}
use dlssnr_on_amd_linux.Native.Args.{ArgsRegisterFatBinary}
use dlssnr_on_amd_linux.Native.Structs.{Struct, register_fat_binary_struct}
use dlssnr_on_amd_linux.Native.Dispatch.{HipUnixCall, unix_call}
use dlssnr_on_amd_linux.Native.Dispatch.Reaches.{unix_call-Reaches}
use dlssnr_on_amd_linux.Native.Modules.{unix_register_fat_binary}
use dlssnr_on_amd_linux.Native.Changes.Invariant
use dlssnr_on_amd_linux.Pe.{Process, wine_unix_call}
use dlssnr_on_amd_linux.Pe
use dlssnr_on_amd_linux.Pe.Registration.{
  hip_register_fat_binary, hip_register_function, hip_register_var, hip_unregister_fat_binary,
}
use dlssnr_on_amd_linux.Pe.Device.{hip_get_error_string}
use dlssnr_on_amd_linux.Pe.Sticky.{wine_unix_call_answers}
use dlssnr_on_amd_linux.Pe.Program.{
  Export, HasWords, process_of, run_export, run_program, api, register_fat_binary,
  register_function, register_var, unregister_fat_binary, get_error_string,
}
use dlssnr_on_amd_linux.Pe.Program.Sound.{
  IsSound, EndsSound, forwarded-IsSound, forwarded_void-EndsSound,
}
use dlssnr_on_amd_linux.Pe.Program.Calls.{run_call-EndsSound}

module _ (host : Host) where
  -- The fat binary, or what it points to, is not mapped, where the runtime can be loaded.
  pub IsUnmapped : ℕ → Process host.World → Type 0
  IsUnmapped fatbin p =
      resolve_bundle_ptr (host.memory (resolve host Symbol.module_load_data p.native).1.world)
        fatbin
      ≡ none

  -- A call crashes only in registering a fat binary that is not mapped; else it leaves a sound process.
  abbrev pub Outcome : Export host.Float → Process host.World → Option (Process host.World) → Type 0
  Outcome e p (some p') = IsSound host p'
  Outcome (register_fat_binary fatbin) p none = IsUnmapped fatbin p
  Outcome e p none = ⊥

  unmapped_of_fault :
      (a : ArgsRegisterFatBinary) (s : Native host.World)
      → unix_register_fat_binary host a s ≡ none
      → resolve_bundle_ptr (host.memory (resolve host Symbol.module_load_data s).1.world) a.fatbin
        ≡ none
  unfolding unix_register_fat_binary
  unmapped_of_fault a s fault = ground arith

  wine_unix_call_faults :
      {A : Type 0} (call : HipUnixCall) (st : Struct host.Float A) (a : A) (p : Process host.World)
      → unix_call host call st a p.native ≡ none
      → wine_unix_call host call st a p ≡ none
  unfolding wine_unix_call
  wine_unix_call_faults call st a p e = rw (e, wine_unix_call)

  register_fat_binary-Outcome :
      (fatbin : ℕ) (p : Process host.World)
      → IsSound host p
      → Outcome (register_fat_binary fatbin) p (process_of (hip_register_fat_binary host fatbin p))
  unfolding hip_register_fat_binary IsUnmapped
  register_fat_binary-Outcome fatbin p v =
      let a : ArgsRegisterFatBinary = record { fatbin = fatbin; fatbin_token = 0 } in
      let call = HipUnixCall.register_fat_binary in
      elim (Option-cases (unix_call host call register_fat_binary_struct a p.native)) [
        | inl fault ↦
            rw (wine_unix_call_faults call register_fat_binary_struct a p fault, Outcome)
              (unmapped_of_fault a p.native (sym (unix_call-Reaches host call a p.native) ∙ fault))
        | inr (h, answer) ↦
            rw (wine_unix_call_answers host call register_fat_binary_struct a p h answer, Outcome)
              (forwarded-IsSound host call register_fat_binary_struct a p h (omega arith) answer v)
      ]

  answered-Outcome :
      (e : Export host.Float) (p : Process host.World) (r : Option (Process host.World))
      → EndsSound host r
      → Outcome e p r
  answered-Outcome e p none h = elim h [ ]
  answered-Outcome e p (some p') h = h

  run_export-Outcome :
      (e : Export host.Float) (p : Process host.World)
      → HasWords e
      → IsSound host p
      → Outcome e p (run_export host e p)
  unfolding run_export hip_register_function hip_register_var hip_unregister_fat_binary
      hip_get_error_string
  run_export-Outcome (api c) p words v =
      answered-Outcome (api c) p _ (run_call-EndsSound host c p words v)
  run_export-Outcome (register_fat_binary fatbin) p words v = register_fat_binary-Outcome fatbin p v
  run_export-Outcome (register_function fatbin_token host_fn device_name) p words v =
      answered-Outcome (register_function fatbin_token host_fn device_name) p _ (
        forwarded_void-EndsSound host _ _ _ p _ (λ a. tt) (omega arith)
          (unix_call-Reaches host HipUnixCall.register_function _ p.native) v)
  run_export-Outcome (register_var fatbin_token host_var device_name) p words v =
      answered-Outcome (register_var fatbin_token host_var device_name) p _ (
        forwarded_void-EndsSound host _ _ _ p _ (λ a. tt) (omega arith)
          (unix_call-Reaches host HipUnixCall.register_var _ p.native) v)
  run_export-Outcome (unregister_fat_binary fatbin_token) p words v =
      answered-Outcome (unregister_fat_binary fatbin_token) p _ (
        forwarded_void-EndsSound host _ _ _ p _ (λ a. tt) (omega arith)
          (unix_call-Reaches host HipUnixCall.unregister_fat_binary _ p.native) v)
  run_export-Outcome (get_error_string error) p words v =
      answered-Outcome (get_error_string error) p _ (
        forwarded_void-EndsSound host _ _ _ p _ (λ a. a.ret_str) (omega arith)
          (unix_call-Reaches host HipUnixCall.get_error_string _ p.native) v)

  -- A program crashes: the calls before one answer, and that one registers a fat binary that is not
  -- mapped.
  pub data Crashes : List (Export host.Float) → Process host.World → Type 0 where
    here :
        {fatbin : ℕ} {es : List (Export host.Float)} {p : Process host.World}
        → IsUnmapped fatbin p
        → Crashes (register_fat_binary fatbin ∷ es) p
    later :
        {e : Export host.Float} {es : List (Export host.Float)} {p p' : Process host.World}
        → run_export host e p ≡ some p'
        → Crashes es p'
        → Crashes (e ∷ es) p

  abbrev pub Ends :
      List (Export host.Float) → Process host.World → Option (Process host.World) → Type 0
  Ends es p none = Crashes es p
  Ends es p (some p') = IsSound host p'

  crashed-Crashes :
      (e : Export host.Float) (es : List (Export host.Float)) (p : Process host.World)
      → Outcome e p none
      → Crashes (e ∷ es) p
  crashed-Crashes (register_fat_binary fatbin) es p h = here h
  crashed-Crashes e es p h = elim h [ ]

  later-Ends :
      (e : Export host.Float) (es : List (Export host.Float)) (p p' : Process host.World)
      (r : Option (Process host.World))
      → run_export host e p ≡ some p'
      → Ends es p' r
      → Ends (e ∷ es) p r
  later-Ends e es p p' none answer h = later answer h
  later-Ends e es p p' (some q) answer h = h

  run_program-Ends_from :
      (es : List (Export host.Float)) (p : Process host.World)
      → All HasWords es
      → IsSound host p
      → Ends es p (run_program host es p)
  unfolding run_program
  run_program-Ends_from [] p words v = v
  run_program-Ends_from (e ∷ es) p (word, words) v =
      let step = run_export-Outcome e p word v in
      elim (Option-cases (run_export host e p)) [
        | inl crash ↦
            rw (crash, Ends) (crashed-Crashes e es p (subst (λ r. Outcome e p r) crash step))
        | inr (p', answer) ↦
            rw (answer, Ends)
              (later-Ends e es p p' _ answer
                (run_program-Ends_from es p' words (subst (λ r. Outcome e p r) answer step)))
      ]

  initial-IsSound : (w : host.World) → IsSound host (Pe.initial w)
  unfolding Pe.initial
  initial-IsSound w = record {
    native = Invariant.initial-IsSound host w;
    stack = (refl, omega arith);
  }

  -- Any program of exported functions, in any order and with any arguments whose sizes are 64-bit
  -- words, run from the start of the process, either ends with both sides sound: the registration
  -- tables well formed, the total of the device memory counting the entries of its table, the
  -- pointers to the runtime all NULL or all those of one opened library, the stack of call
  -- configurations within its array; or it crashes, and then in registering a fat binary that is
  -- not mapped, after calls that all answered.
  pub run_program-Ends :
      (es : List (Export host.Float)) (w : host.World)
      → All HasWords es
      → Ends es (Pe.initial w) (run_program host es (Pe.initial w))
  run_program-Ends es w words = run_program-Ends_from es (Pe.initial w) words (initial-IsSound w)
