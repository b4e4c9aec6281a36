-- ===== src/Tests/Calls.antt =====
-- Tests of native.c on the concrete host.
use dlssnr_on_amd_linux.Common.{
  ◌^◌, ℕ, pos, ◌+◌, ◌%◌, ◌≡◌, ◌≢◌, ◌⊎◌, refl, arith, true, false, some, [], ◌∷◌, codes, replicate,
  ◌<◌,
}
use dlssnr_on_amd_linux.AllocCap
use dlssnr_on_amd_linux.AllocCap.{u64}
use dlssnr_on_amd_linux.AllocCap.Totals.{initial-IsCounted, sizes}
use dlssnr_on_amd_linux.AllocCap.Entries.{outstanding}
use dlssnr_on_amd_linux.Registry
use dlssnr_on_amd_linux.Registry.{Registry, registry_find_module, registry_add_fatbin, FatbinEntry}
use dlssnr_on_amd_linux.Registry.Table
use dlssnr_on_amd_linux.Registry.Lookup
use dlssnr_on_amd_linux.Registry.Lookup.{initial-IsValid, registry_add_fatbin-IsValid}
use dlssnr_on_amd_linux.Native
use dlssnr_on_amd_linux.Native.{
  set_ld_path, candidates, Native, Symbol, candidates, open_first, ensure_loaded, resolve,
}
use dlssnr_on_amd_linux.Native.Args.{
  ArgsMalloc, ArgsRegisterFunction, ArgsRegisterVar, ArgsMemcpyToSymbol,
}
use dlssnr_on_amd_linux.Native.Loading.{Opens, IsLoaded, IsUnloaded, ensure_loaded_settles}
use dlssnr_on_amd_linux.Native.Memory.{unix_malloc, unix_memcpy_to_symbol}
use dlssnr_on_amd_linux.Native.Modules.{load_bundle, unix_register_function, unix_register_var}
use dlssnr_on_amd_linux.Native.Limit.{
  IsWithinCap, mallocs, frees, memory_run, memory_run-IsWithinCap, unix_malloc_over_limit,
}
use dlssnr_on_amd_linux.Native.Kernels.{
  IsFreshFunction, IsFreshVar, memcpy_to_symbol-register_var, register_fat_binary_full,
}
use dlssnr_on_amd_linux.Native.Unavailable.{Refuses, unavailable-Refuses}
use dlssnr_on_amd_linux.Native.Dispatch.{HipUnixCall}
use dlssnr_on_amd_linux.Native.Dispatch.Reaches.{Reaches, unix_call-Reaches}
use dlssnr_on_amd_linux.Pe
use dlssnr_on_amd_linux.Pe.{Process, CallConfig}
use dlssnr_on_amd_linux.Pe.Stack.{IsValid, view}
use dlssnr_on_amd_linux.Pe.Launch.{register_and_launch, register_and_launch-launched}
use dlssnr_on_amd_linux.Tests.{toy_host, bare_host, loaded, started}

unloaded : IsUnloaded bare_host (Native.initial 0)
unfolding Native.initial
unloaded = record { handle = refl; symbols = λ sym. refl }

unix_call-Reaches_example : Reaches toy_host HipUnixCall.memcpy_async
unix_call-Reaches_example = unix_call-Reaches toy_host HipUnixCall.memcpy_async

unavailable-Refuses_example : Refuses bare_host HipUnixCall.malloc (Native.initial 0)
unavailable-Refuses_example =
    unavailable-Refuses bare_host (λ c w. refl) HipUnixCall.malloc (Native.initial 0) unloaded

ensure_loaded_settles_example :
    let (done, s') = ensure_loaded bare_host (Native.initial 0) in
    ((done ≡ true)
      × Opens bare_host candidates (set_ld_path bare_host 0) (s'.hip_handle, s'.world)
      × IsLoaded bare_host s'
      × (ensure_loaded bare_host s' ≡ (true, s')))
    ⊎ ((done ≡ false)
        × Opens bare_host candidates (set_ld_path bare_host 0) (0, s'.world)
        × IsUnloaded bare_host s')
unfolding Native.initial
ensure_loaded_settles_example = ensure_loaded_settles bare_host (Native.initial 0) unloaded

nothing_outstanding : sizes (outstanding AllocCap.initial) ≡ 0
unfolding outstanding AllocCap.initial
nothing_outstanding = refl

within : IsWithinCap loaded
within = record {
  counted = initial-IsCounted;
  read = refl;
  active = omega arith;
  word = omega arith;
  fits = omega (arith, nothing_outstanding);
}

memory_run-IsWithinCap_example :
    IsWithinCap (memory_run toy_host (mallocs 600 ∷ mallocs 600 ∷ frees 4096 ∷ []) loaded)
    × ((memory_run toy_host (mallocs 600 ∷ mallocs 600 ∷ frees 4096 ∷ []) loaded).vram_cap_bytes
        ≡ 1000)
memory_run-IsWithinCap_example =
    memory_run-IsWithinCap toy_host (mallocs 600 ∷ mallocs 600 ∷ frees 4096 ∷ []) loaded
      (omega arith, (omega arith, tt)) within

toy_resolves : (sym : Symbol) → resolve toy_host sym loaded ≡ (100, loaded)
unfolding resolve ensure_loaded
toy_resolves sym = refl

malloc_there : (resolve toy_host Symbol.malloc loaded).0 ≢ 0
malloc_there = rw (toy_resolves Symbol.malloc) (omega arith)

abbrev too_much : ArgsMalloc
too_much = record { ptr = 0; size = 2000; ret = pos 0 }

unix_malloc_over_limit_example :
    unix_malloc toy_host too_much loaded
    ≡ (record too_much { ptr = 0; ret = pos 2 }, (resolve toy_host Symbol.malloc loaded).1)
unix_malloc_over_limit_example =
    unix_malloc_over_limit toy_host too_much loaded (omega arith) within malloc_there
      (omega (arith, nothing_outstanding))

-- The fat binary 10 is registered as module 800.
abbrev with_module : Native ℕ
with_module = record loaded { registry = (registry_add_fatbin 10 800 Registry.initial).1 }

with_module-IsValid : Registry.Lookup.IsValid with_module.registry
with_module-IsValid = registry_add_fatbin-IsValid 10 800 Registry.initial initial-IsValid

module_known : registry_find_module 10 with_module.registry ≢ 0
unfolding registry_find_module registry_add_fatbin Registry.initial Table.find Table.add
module_known = omega arith

functions_room : with_module.registry.functions.count < 256
unfolding registry_add_fatbin Registry.initial Table.add
functions_room = omega arith

vars_room : with_module.registry.vars.count < 32
unfolding registry_add_fatbin Registry.initial Table.add
vars_room = omega arith

fresh_function : IsFreshFunction 20 with_module.registry
unfolding registry_add_fatbin Registry.initial Table.add Table.find
fresh_function = refl

fresh_var : IsFreshVar 30 with_module.registry
unfolding registry_add_fatbin Registry.initial Table.add Table.find
fresh_var = refl

abbrev kernel : ArgsRegisterFunction
kernel = record { fatbin_token = 10; host_fn = 20; device_name = some (codes "kernel") }

abbrev with_kernel : Process ℕ
with_kernel = record started { native = with_module }

with_kernel-IsValid : IsValid with_kernel
unfolding Pe.initial
with_kernel-IsValid = (refl, omega arith)

not_pushed : with_kernel.call_config_depth < 16
unfolding Pe.initial
not_pushed = omega arith

abbrev config : CallConfig
config = record {
  grid = record { x = 4; y = 1; z = 1 };
  block = record { x = 32; y = 1; z = 1 };
  shared_mem = 2 ^ 32 + 64;
  stream = 9;
}

register_and_launch-launched_example :
    (p' : Process ℕ) × (register_and_launch toy_host 10 20
        (some (codes "kernel"))
        config
        5000
        with_kernel
      ≡ some ((pos 0, tt), p'))
    × (p'.native.world ≡ 129)
    × (view p' ≡ view with_kernel)
register_and_launch-launched_example =
    register_and_launch-launched toy_host kernel config 5000 900 with_kernel 1 with_kernel-IsValid
      not_pushed with_module-IsValid functions_room fresh_function module_known (omega arith)
      (omega arith) refl (omega arith) (omega arith)

abbrev variable : ArgsRegisterVar
variable = record { fatbin_token = 10; host_var = 30; device_name = some (codes "table") }

abbrev copy : ArgsMemcpyToSymbol
copy = record { symbol = 30; src = 7000; size = 16; offset = 8; kind = pos 1; ret = pos 0 }

memcpy_there :
    (resolve toy_host Symbol.memcpy (unix_register_var toy_host variable with_module).1).0 ≢ 0
unfolding resolve ensure_loaded unix_register_var
memcpy_there = ground arith

memcpy_to_symbol-register_var_example :
    let (fn, s') =
      resolve toy_host Symbol.memcpy (unix_register_var toy_host variable with_module).1 in
    let (ret, w') = toy_host.hip_memcpy fn ((1000 + 8) % u64) 7000 16 (pos 1) s'.world in
    unix_memcpy_to_symbol toy_host copy (unix_register_var toy_host variable with_module).1
    ≡ (record copy { ret = ret }, record s' { world = w' })
memcpy_to_symbol-register_var_example =
    memcpy_to_symbol-register_var toy_host variable copy with_module 1000 64 1 with_module-IsValid
      vars_room fresh_var module_known (omega arith) refl (omega arith) refl memcpy_there

-- A state whose sixteen fat binaries are registered.
abbrev full_state : Native ℕ
full_state = record loaded {
  registry = record Registry.initial {
    fatbins = record { slots = replicate 16 (record { token = 1; hip_module = 2 }); count = 16 };
  };
}

full-IsValid : Registry.Lookup.IsValid full_state.registry
full-IsValid = record {
  fatbins = record { sized = refl; bounded = omega arith };
  functions = initial-IsValid.functions;
  vars = initial-IsValid.vars;
}

unknown : registry_find_module 10 full_state.registry ≡ 0
unfolding registry_find_module Table.find
unknown = refl

register_fat_binary_full_example :
    let (a', s') =
      load_bundle toy_host 100 9000 (record { fatbin = 10; fatbin_token = 0 }) full_state in
    (a'.fatbin_token ≡ 10) × (unix_register_function toy_host kernel s' ≡ (kernel, s'))
register_fat_binary_full_example =
    register_fat_binary_full toy_host (record { fatbin = 10; fatbin_token = 0 }) kernel 100 9000 800
      full_state 1 full-IsValid (omega arith) unknown (omega arith) refl refl
