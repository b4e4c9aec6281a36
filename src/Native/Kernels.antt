-- ===== src/Native/Kernels.antt =====
-- native.c: what registering a kernel or a device variable means for the calls that use it later.
use dlssnr_on_amd_linux.Common.{
  ℕ, ◌+◌, ◌%◌, ◌≤◌, ◌<◌, ◌≡◌, ◌≢◌, refl, pos, Option, none, ==_of_ne, ==_refl, leb_of_lt, leb_of_le,
  Bytes, ◌∙◌,
}
use dlssnr_on_amd_linux.AllocCap.{u64}
use dlssnr_on_amd_linux.Registry.Table
use dlssnr_on_amd_linux.Registry.{
  Registry, FunctionEntry, VarEntry, registry_find_module, registry_find_function,
  registry_find_var, registry_add_function, registry_add_var,
}
use dlssnr_on_amd_linux.Registry.Lookup.{
  IsValid, find_function-add_function, find_var-add_var, find_module-add_fatbin,
}
use dlssnr_on_amd_linux.Host.{Host}
use dlssnr_on_amd_linux.Native.{Native, Symbol, resolve}
use dlssnr_on_amd_linux.Native.Args.{
  ArgsRegisterFatBinary, ArgsRegisterFunction, ArgsRegisterVar, ArgsLaunchKernel,
  ArgsMemcpyToSymbol,
}
use dlssnr_on_amd_linux.Native.Memory.{unix_memcpy_to_symbol}
use dlssnr_on_amd_linux.Native.Modules.{
  load_bundle, unix_register_function, unix_register_var, unix_launch_kernel,
}

-- No entry has the key yet.
abbrev pub IsFreshFunction : ℕ → Registry → Type 0
IsFreshFunction k r = Table.find (λ (e : FunctionEntry). e.host_fn) k r.functions ≡ none

abbrev pub IsFreshVar : ℕ → Registry → Type 0
IsFreshVar k r = Table.find (λ (e : VarEntry). e.host_var) k r.vars ≡ none

find_new_function :
    (k f : ℕ) (name : Option Bytes) (r : Registry)
    → IsValid r
    → r.functions.count < 256
    → IsFreshFunction k r
    → registry_find_function k (registry_add_function k f name r).1 ≡ f
find_new_function k f name r v room fresh =
    let (_, found, _) = find_function-add_function k f k name r v in
    found ∙ rw (leb_of_lt 256 r.functions.count room, fresh, ==_refl k)

find_new_var :
    (k p : ℕ) (r : Registry)
    → IsValid r
    → r.vars.count < 32
    → IsFreshVar k r
    → registry_find_var k (registry_add_var k p r).1 ≡ p
find_new_var k p r v room fresh =
    let (_, found) = find_var-add_var k p k r v in
    found ∙ rw (leb_of_lt 32 r.vars.count room, fresh, ==_refl k)

module _ (host : Host) where
  -- In a valid registry, after a kernel of a known fat binary was registered for the first time,
  -- with room in the table and the runtime finding it, a launch of its host function runs that
  -- kernel in the runtime with the grid, block, shared memory, stream and parameter of the call,
  -- and returns the runtime's code.
  pub launch-register_function :
      (a : ArgsRegisterFunction) (l : ArgsLaunchKernel) (s : Native host.World) (function : ℕ)
      (w : host.World)
      → IsValid s.registry
      → s.registry.functions.count < 256
      → IsFreshFunction a.host_fn s.registry
      → registry_find_module a.fatbin_token s.registry ≢ 0
      → s.symbols Symbol.module_get_function ≢ 0
      → s.symbols Symbol.module_launch_kernel ≢ 0
      → host.hip_module_get_function
          (s.symbols Symbol.module_get_function)
          (registry_find_module a.fatbin_token s.registry)
          a.device_name
          s.world
        ≡ (pos 0, function, w)
      → function ≢ 0
      → l.host_fn ≡ a.host_fn
      → let s' = (unix_register_function host a s).1 in
        let (ret, w') =
          host.hip_module_launch_kernel
            (s.symbols Symbol.module_launch_kernel)
            function
            l.grid.x
            l.grid.y
            l.grid.z
            l.block.x
            l.block.y
            l.block.z
            l.shared_mem
            l.stream
            l.args
            w in
        unix_launch_kernel host l s' ≡ (record l { ret = ret }, record s' { world = w' })
  unfolding unix_register_function unix_launch_kernel
  launch-register_function a l s function w v room fresh known get_fn launch_fn got nonzero same =
      rw (
        ==_of_ne _ 0 known,
        ==_of_ne _ 0 get_fn,
        got,
        same,
        find_new_function a.host_fn function a.device_name s.registry v room fresh,
        ==_of_ne function 0 nonzero,
        ==_of_ne _ 0 launch_fn,
      )

  registered_var :
      (a : ArgsRegisterVar) (s : Native host.World) (device_ptr size : ℕ) (w : host.World)
      → IsValid s.registry
      → s.registry.vars.count < 32
      → IsFreshVar a.host_var s.registry
      → registry_find_module a.fatbin_token s.registry ≢ 0
      → s.symbols Symbol.module_get_global ≢ 0
      → host.hip_module_get_global
          (s.symbols Symbol.module_get_global)
          (registry_find_module a.fatbin_token s.registry)
          a.device_name
          s.world
        ≡ (pos 0, device_ptr, size, w)
      → registry_find_var a.host_var (unix_register_var host a s).1.registry ≡ device_ptr
  unfolding unix_register_var
  registered_var a s device_ptr size w v room fresh known get_fn got =
      rw (==_of_ne _ 0 known, ==_of_ne _ 0 get_fn, got)
        (find_new_var a.host_var device_ptr s.registry v room fresh)

  -- In a valid registry, after a variable of a known fat binary was registered for the first time,
  -- with room in the table and the runtime finding it at an address that is not NULL, a copy to its
  -- symbol, where hipMemcpy can be called, copies to that address plus the offset modulo 2 ^ 64,
  -- and returns the runtime's code.
  pub memcpy_to_symbol-register_var :
      (a : ArgsRegisterVar) (m : ArgsMemcpyToSymbol) (s : Native host.World) (device_ptr size : ℕ)
      (w : host.World)
      → IsValid s.registry
      → s.registry.vars.count < 32
      → IsFreshVar a.host_var s.registry
      → registry_find_module a.fatbin_token s.registry ≢ 0
      → s.symbols Symbol.module_get_global ≢ 0
      → host.hip_module_get_global
          (s.symbols Symbol.module_get_global)
          (registry_find_module a.fatbin_token s.registry)
          a.device_name
          s.world
        ≡ (pos 0, device_ptr, size, w)
      → device_ptr ≢ 0
      → m.symbol ≡ a.host_var
      → (resolve host Symbol.memcpy (unix_register_var host a s).1).0 ≢ 0
      → let (fn, s') = resolve host Symbol.memcpy (unix_register_var host a s).1 in
        let (ret, w') =
          host.hip_memcpy fn ((device_ptr + m.offset) % u64) m.src m.size m.kind s'.world in
        unix_memcpy_to_symbol host m (unix_register_var host a s).1
        ≡ (record m { ret = ret }, record s' { world = w' })
  unfolding unix_memcpy_to_symbol
  memcpy_to_symbol-register_var a m s device_ptr size w v room fresh known get_fn got nonzero same
        there =
      rw (
        same,
        registered_var a s device_ptr size w v room fresh known get_fn got,
        ==_of_ne device_ptr 0 nonzero,
        ==_of_ne _ 0 there,
      )

  -- In a valid registry whose table of fat binaries is full, a new fat binary with a bundle that
  -- the runtime loads still gets a token, although its module is not kept: registering a kernel
  -- under that token then changes nothing.
  pub register_fat_binary_full :
      (a : ArgsRegisterFatBinary) (f : ArgsRegisterFunction) (fn bundle hip_module : ℕ)
      (s : Native host.World) (w : host.World)
      → IsValid s.registry
      → 16 ≤ s.registry.fatbins.count
      → registry_find_module a.fatbin s.registry ≡ 0
      → bundle ≢ 0
      → host.hip_module_load_data fn bundle s.world ≡ (pos 0, hip_module, w)
      → f.fatbin_token ≡ a.fatbin
      → let (a', s') = load_bundle host fn bundle a s in
        (a'.fatbin_token ≡ a.fatbin) × (unix_register_function host f s' ≡ (f, s'))
  unfolding load_bundle unix_register_function
  register_fat_binary_full a f fn bundle hip_module s w v full unknown there loaded same =
      let (_, lost) = find_module-add_fatbin a.fatbin hip_module a.fatbin s.registry v in
      rw
        (
          ==_of_ne bundle 0 there,
          loaded,
          same,
          lost,
          leb_of_le 16 s.registry.fatbins.count full,
          unknown,
        )
        (refl, refl)
