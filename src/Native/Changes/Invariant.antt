-- ===== src/Native/Changes/Invariant.antt =====
-- native.c: the invariant of the native side's static variables, those of registry.c and alloc_cap.c
-- included.
use dlssnr_on_amd_linux.Common.{
  ℕ, ◌<◌, ◌≡◌, refl, ap, ◌∙◌, subst, sym, some, [], ◌∷◌, ◌⊎◌, inl, inr, ==_of_ne, Bool-cases,
  Option-cases,
}
use dlssnr_on_amd_linux.AllocCap.{u64}
use dlssnr_on_amd_linux.AllocCap.Totals.{
  IsCounted, initial-IsCounted, alloc_cap_record-IsCounted, alloc_cap_release-IsCounted,
}
use dlssnr_on_amd_linux.Registry.Lookup.{
  IsValid, initial-IsValid, registry_add_fatbin-IsValid, registry_add_function-IsValid,
  registry_add_var-IsValid,
}
use dlssnr_on_amd_linux.Host.{Host}
use dlssnr_on_amd_linux.Native.{Native, ensure_loaded}
use dlssnr_on_amd_linux.Native
use dlssnr_on_amd_linux.Native.Loading.{
  IsLoaded, IsUnloaded, ensure_loaded-IsKept, ensure_loaded_settles,
}
use dlssnr_on_amd_linux.Native.Memory.{ensure_vram_cap_read}
use dlssnr_on_amd_linux.Native.Structs.{Struct}
use dlssnr_on_amd_linux.Native.Dispatch.{HipUnixCall, unix_call}
use dlssnr_on_amd_linux.Native.Changes.{
  Change, Changes, Leads, requested, load, outside, read_cap, record_alloc, release, add_fatbin,
  add_function, add_var, done, then_,
}
use dlssnr_on_amd_linux.Native.Changes.Calls.{unix_call-Leads}

-- The tables are well formed, the total of the allocations counts the entries of their table, and
-- the pointers are either those of one library that was opened or all NULL.
pub record IsSound (host : Host) (s : Native host.World) : Type 0 where
  pub registry : IsValid s.registry
  pub alloc_cap : IsCounted s.alloc_cap
  pub runtime : IsUnloaded host s ⊎ IsLoaded host s

module _ (host : Host) where
  pub initial-IsSound : (w : host.World) → IsSound host (Native.initial w)
  unfolding Native.initial
  initial-IsSound w = record {
    registry = initial-IsValid;
    alloc_cap = initial-IsCounted;
    runtime = inl (record { handle = refl; symbols = λ sym. refl });
  }

  ensure_loaded_runtime :
      (s : Native host.World)
      → IsUnloaded host s ⊎ IsLoaded host s
      → IsUnloaded host (ensure_loaded host s).1 ⊎ IsLoaded host (ensure_loaded host s).1
  unfolding ensure_loaded
  ensure_loaded_runtime s (inl u) = elim (ensure_loaded_settles host s u) [
    | inl (answer, opens, loaded, again) ↦ inr loaded
    | inr (answer, opens, unloaded) ↦ inl unloaded
  ]
  ensure_loaded_runtime s (inr l) = rw (==_of_ne s.hip_handle 0 l.handle) (inr l)

  same_runtime :
      (s t : Native host.World)
      → t.hip_handle ≡ s.hip_handle
      → t.symbols ≡ s.symbols
      → IsUnloaded host s ⊎ IsLoaded host s
      → IsUnloaded host t ⊎ IsLoaded host t
  same_runtime s t handle symbols (inl u) = inl (record {
    handle = handle ∙ u.handle;
    symbols = λ sym. ap (λ f. f sym) symbols ∙ u.symbols sym;
  })
  same_runtime s t handle symbols (inr l) =
      let (w, found) = l.symbols in
      inr (record {
        handle = rw handle l.handle;
        symbols = (w, λ sym. rw (handle, symbols) (found sym));
      })

  -- A change that leaves the pointers alone.
  changed-IsSound :
      (s t : Native host.World)
      → IsSound host s
      → t.hip_handle ≡ s.hip_handle
      → t.symbols ≡ s.symbols
      → IsValid t.registry
      → IsCounted t.alloc_cap
      → IsSound host t
  changed-IsSound s t v handle symbols registry alloc_cap = record {
    registry = registry;
    alloc_cap = alloc_cap;
    runtime = same_runtime s t handle symbols v.runtime;
  }

  load-IsSound : (s : Native host.World) → IsSound host s → IsSound host (ensure_loaded host s).1
  load-IsSound s v =
      let kept = ensure_loaded-IsKept host s in
      record {
        registry = subst IsValid (sym kept.registry) v.registry;
        alloc_cap = subst IsCounted (sym kept.alloc_cap) v.alloc_cap;
        runtime = ensure_loaded_runtime s v.runtime;
      }

  read_cap-IsSound :
      (s : Native host.World) → IsSound host s → IsSound host (ensure_vram_cap_read host s)
  unfolding ensure_vram_cap_read
  read_cap-IsSound s v = elim (Bool-cases s.vram_cap_read) [
    | inl before ↦ rw before (changed-IsSound s _ v refl refl v.registry v.alloc_cap)
    | inr first ↦ elim (Option-cases (host.getenv "DLSSNR_VRAM_CAP_BYTES" s.world)) [
      | inl unset ↦ rw (first, unset) (changed-IsSound s _ v refl refl v.registry v.alloc_cap)
      | inr ([], there) ↦ rw (first, there) (changed-IsSound s _ v refl refl v.registry v.alloc_cap)
      | inr (c ∷ text, there) ↦
          rw (first, there) (changed-IsSound s _ v refl refl v.registry v.alloc_cap)
    ]
  ]

  Change-IsSound :
      (call : HipUnixCall) (size : ℕ) (s t : Native host.World)
      → size < u64
      → Change host call size s t
      → IsSound host s
      → IsSound host t
  Change-IsSound call size s t word load v = load-IsSound s v
  Change-IsSound call size s t word outside v =
      changed-IsSound s t v refl refl v.registry v.alloc_cap
  Change-IsSound call size s t word read_cap v = read_cap-IsSound s v
  Change-IsSound call size s t word (record_alloc ptr) v =
      changed-IsSound s t v refl refl v.registry
        (alloc_cap_record-IsCounted ptr size s.alloc_cap word v.alloc_cap)
  Change-IsSound call size s t word (release ptr) v =
      changed-IsSound s t v refl refl v.registry
        (alloc_cap_release-IsCounted ptr s.alloc_cap v.alloc_cap)
  Change-IsSound call size s t word (add_fatbin token hip_module) v =
      changed-IsSound s t v refl refl
        (registry_add_fatbin-IsValid token hip_module s.registry v.registry) v.alloc_cap
  Change-IsSound call size s t word (add_function host_fn function name) v =
      changed-IsSound s t v refl refl
        (registry_add_function-IsValid host_fn function name s.registry v.registry) v.alloc_cap
  Change-IsSound call size s t word (add_var host_var device_ptr) v =
      changed-IsSound s t v refl refl
        (registry_add_var-IsValid host_var device_ptr s.registry v.registry) v.alloc_cap

  Changes-IsSound :
      (call : HipUnixCall) (size : ℕ) (s t : Native host.World)
      → size < u64
      → Changes host call size s t
      → IsSound host s
      → IsSound host t
  Changes-IsSound call size s t word done v = v
  Changes-IsSound call size s t word (then_ {t = m} change rest) v =
      Changes-IsSound call size m t word rest (Change-IsSound call size s m word change v)

  -- From a sound state, a call of the table that answers, whatever struct it is given, leaves a
  -- sound state, where the size in a struct for hipMalloc is a 64-bit word.
  pub unix_call-IsSound :
      {A : Type 0} (call : HipUnixCall) (st : Struct host.Float A) (a a' : A)
      (s s' : Native host.World)
      → requested (st.pack a) < u64
      → unix_call host call st a s ≡ some (a', s')
      → IsSound host s
      → IsSound host s'
  unix_call-IsSound call st a a' s s' word answer v =
      Changes-IsSound call _ s s' word
        (subst (λ r. Leads host call (requested (st.pack a)) s r) answer
          (unix_call-Leads host call st a s))
        v
