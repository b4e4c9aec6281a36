-- ===== src/Native/Loading.antt =====
-- native.c, `ensure_loaded`: what loading the HIP runtime does and leaves alone.
pub mod LdPath
pub mod Names
use dlssnr_on_amd_linux.Common.{
  ℕ, ◌≡◌, ◌≢◌, refl, ap, subst, true, false, List, [], ◌∷◌, ◌==◌, String, arith, ◌⊎◌, inl, inr,
  Bool-cases,
}
use dlssnr_on_amd_linux.Native.Loading.Names.{hip_name, symbol_name-hip_name}
use dlssnr_on_amd_linux.Host.{Host}
use dlssnr_on_amd_linux.Native.{
  Native, Symbol, symbol_name, candidates, open_first, set_ld_path, ensure_loaded, resolve,
}

-- The parts of the state that loading leaves alone.
pub record IsKept {W : Type 0} (s s' : Native W) : Type 0 where
  pub registry : s'.registry ≡ s.registry
  pub alloc_cap : s'.alloc_cap ≡ s.alloc_cap
  pub vram_cap_bytes : s'.vram_cap_bytes ≡ s.vram_cap_bytes
  pub vram_cap_read : s'.vram_cap_read ≡ s.vram_cap_read

-- The runtime is loaded: its handle is there and each pointer is what `dlsym` finds in it.
pub record IsLoaded (host : Host) (s : Native host.World) : Type 0 where
  pub handle : s.hip_handle ≢ 0
  pub symbols :
      (w : host.World) × ((sym : Symbol) → s.symbols sym ≡ host.dlsym s.hip_handle (hip_name sym) w)

-- Before the runtime is loaded every pointer is NULL.
pub record IsUnloaded (host : Host) (s : Native host.World) : Type 0 where
  pub handle : s.hip_handle ≡ 0
  pub symbols : (sym : Symbol) → s.symbols sym ≡ 0

module _ (host : Host) where
  pub ensure_loaded-IsKept : (s : Native host.World) → IsKept s (ensure_loaded host s).1
  unfolding ensure_loaded
  ensure_loaded-IsKept s = ground arith

  pub resolve-IsKept : (sym : Symbol) (s : Native host.World) → IsKept s (resolve host sym s).1
  unfolding resolve
  resolve-IsKept sym s = ensure_loaded-IsKept s

  -- A handle that the search returns was opened under one of the names, and all names before it
  -- failed, each in the world that the attempts before it left; if it returns NULL, all failed.
  pub data Opens : List String → host.World → ℕ × host.World → Type 0 where
    exhausted : {w : host.World} → Opens [] w (0, w)
    opened :
        {c : String} {cs : List String} {w : host.World} {r : ℕ × host.World}
        → r ≡ host.dlopen c w
        → r.0 ≢ 0
        → Opens (c ∷ cs) w r
    failed :
        {c : String} {cs : List String} {w : host.World} {r : ℕ × host.World}
        → (host.dlopen c w).0 ≡ 0
        → Opens cs (host.dlopen c w).1 r
        → Opens (c ∷ cs) w r

  -- The loop over the names of the library returns the handle of the first name that opens, in the
  -- world that the failed attempts before it left; it returns NULL exactly when it has tried every
  -- name and all have failed.
  open_first-Opens : (cs : List String) (w : host.World) → Opens cs w (open_first host cs w)
  unfolding open_first
  open_first-Opens [] w = exhausted
  open_first-Opens (c ∷ cs) w = elim (Bool-cases ((host.dlopen c w).0 == 0)) [
    | inl closed ↦ rw closed (failed (ground arith) (open_first-Opens cs (host.dlopen c w).1))
    | inr open_ ↦ rw open_ (opened refl (ground arith))
  ]

  -- From a state where the runtime is not loaded, loading tries the names of the library in their
  -- order, each in the world that the attempts before it left. Either it succeeds, with the handle
  -- of the first name that opens and every pointer what dlsym finds in that library under the name
  -- of its function, and then a second call succeeds and changes nothing; or no name opens, it
  -- fails, and the runtime stays not loaded.
  pub ensure_loaded_settles :
      (s : Native host.World)
      → IsUnloaded host s
      → let (loaded, s') = ensure_loaded host s in
        ((loaded ≡ true)
          × Opens candidates (set_ld_path host s.world) (s'.hip_handle, s'.world)
          × IsLoaded host s'
          × (ensure_loaded host s' ≡ (true, s')))
        ⊎ ((loaded ≡ false)
            × Opens candidates (set_ld_path host s.world) (0, s'.world)
            × IsUnloaded host s')
  unfolding ensure_loaded
  ensure_loaded_settles s u =
      let r = open_first host candidates (set_ld_path host s.world) in
      let opens = open_first-Opens candidates (set_ld_path host s.world) in
      elim (Bool-cases (r.0 == 0)) [
        | inl closed ↦
            rw (u.handle, closed)
              (inr (
                refl,
                subst (λ h. Opens candidates (set_ld_path host s.world) (h, r.1)) (ground arith)
                    opens,
                record { handle = refl; symbols = u.symbols },
              ))
        | inr open_ ↦
            rw (u.handle, open_)
              (inl (
                refl,
                opens,
                record {
                  handle = ground arith;
                  symbols =
                      (r.1, λ sym. ap (λ name. host.dlsym r.0 name r.1) (symbol_name-hip_name sym));
                },
                ground arith,
              ))
      ]
