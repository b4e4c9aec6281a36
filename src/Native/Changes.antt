-- ===== src/Native/Changes.antt =====
-- native.c: which handler changes which part of the state, and the invariant of the native side that
-- follows for every call of the table.
pub mod Handlers
pub mod Calls
pub mod Invariant
use dlssnr_on_amd_linux.Common.{ℕ, Bool, true, false, Option, none, some, Bytes, if◌then◌else◌}
use dlssnr_on_amd_linux.AllocCap.{alloc_cap_record, alloc_cap_release}
use dlssnr_on_amd_linux.Registry.{
  Registry, registry_add_fatbin, registry_add_function, registry_add_var,
}
use dlssnr_on_amd_linux.Host.{Host}
use dlssnr_on_amd_linux.Native.{Native, Symbol, ensure_loaded, resolve}
use dlssnr_on_amd_linux.Native.Memory.{ensure_vram_cap_read}
use dlssnr_on_amd_linux.Native.Structs.{Args}
use dlssnr_on_amd_linux.Native.Structs
use dlssnr_on_amd_linux.Native.Dispatch.{HipUnixCall}

-- The size that a struct asks hipMalloc for; 0 if it is the struct of another call.
abbrev pub requested : {F : Type 0} → Args F → ℕ
requested (Structs.malloc a) = a.size
requested _ = 0

module _ (host : Host) where
  -- One change of the state in a call that asks for `size` bytes. A change that names a call is made
  -- by that call alone.
  pub data Change : HipUnixCall → ℕ → Native host.World → Native host.World → Type 0 where
    load :
        {call : HipUnixCall} {size : ℕ} {s : Native host.World}
        → Change call size s (ensure_loaded host s).1
    outside :
        {call : HipUnixCall} {size : ℕ} {s : Native host.World} {w : host.World}
        → Change call size s (record s { world = w })
    read_cap :
        {size : ℕ} {s : Native host.World}
        → Change HipUnixCall.malloc size s (ensure_vram_cap_read host s)
    record_alloc :
        {size : ℕ} {s : Native host.World} (ptr : ℕ)
        → Change HipUnixCall.malloc size s
            (record s { alloc_cap = (alloc_cap_record ptr size s.alloc_cap).1 })
    release :
        {size : ℕ} {s : Native host.World} (ptr : ℕ)
        → Change HipUnixCall.free size s
            (record s { alloc_cap = (alloc_cap_release ptr s.alloc_cap).1 })
    add_fatbin :
        {size : ℕ} {s : Native host.World} (token hip_module : ℕ)
        → Change HipUnixCall.register_fat_binary size s
            (record s { registry = (registry_add_fatbin token hip_module s.registry).1 })
    add_function :
        {size : ℕ} {s : Native host.World} (host_fn function : ℕ) (name : Option Bytes)
        → Change HipUnixCall.register_function size s
            (record s { registry = (registry_add_function host_fn function name s.registry).1 })
    add_var :
        {size : ℕ} {s : Native host.World} (host_var device_ptr : ℕ)
        → Change HipUnixCall.register_var size s
            (record s { registry = (registry_add_var host_var device_ptr s.registry).1 })

  -- A sequence of changes.
  pub data Changes : HipUnixCall → ℕ → Native host.World → Native host.World → Type 0 where
    done : {call : HipUnixCall} {size : ℕ} {s : Native host.World} → Changes call size s s
    then_ :
        {call : HipUnixCall} {size : ℕ} {s t u : Native host.World}
        → Change call size s t
        → Changes call size t u
        → Changes call size s u

  -- The shape of most handlers: the runtime is loaded, and its function is called if it is there.
  pub called-Changes :
      {A : Type 0} (call : HipUnixCall) (size : ℕ) (sym : Symbol) (s : Native host.World)
      (missing : Bool) (x y : A) (w : host.World)
      → let s' = (resolve host sym s).1 in
        let r : A × Native host.World = if missing then (x, s') else (y, record s' { world = w }) in
        Changes call size s r.1
  unfolding resolve
  called-Changes call size sym s true x y w = then_ load done
  called-Changes call size sym s false x y w = then_ load (then_ outside done)

  -- The same where nothing is loaded.
  pub maybe_called-Changes :
      {A : Type 0} (call : HipUnixCall) (size : ℕ) (s : Native host.World) (missing : Bool)
      (x y : A) (w : host.World)
      → let r : A × Native host.World = if missing then (x, s) else (y, record s { world = w }) in
        Changes call size s r.1
  maybe_called-Changes call size s true x y w = done
  maybe_called-Changes call size s false x y w = then_ outside done

  -- The changes of a call that answers.
  abbrev pub Leads :
      {A : Type 0} → HipUnixCall → ℕ → Native host.World → Option (A × Native host.World) → Type 0
  Leads call size s none = Unit
  Leads call size s (some (a, s')) = Changes call size s s'
