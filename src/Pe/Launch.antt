-- ===== src/Pe/Launch.antt =====
-- pe_shim.c and native.c: a kernel from its registration through the stack of call configurations to
-- its launch, as the code that a compiler generates for `kernel<<<grid, block, …>>>(arg)` runs it.
use dlssnr_on_amd_linux.Common.{
  ℕ, ◌%◌, ◌^◌, ◌<◌, ◌≡◌, ◌≢◌, refl, subst, ap, ℤ, pos, Option, none, some, Bytes, int_eq, leb,
  leb_of_lt, ◌∙◌, false, ==_of_ne, ◌∷◌, inl, inr, Bool-cases, length, if◌then◌else◌, ◌>>=◌,
}
use dlssnr_on_amd_linux.Registry.{registry_find_module}
use dlssnr_on_amd_linux.Registry.Lookup
use dlssnr_on_amd_linux.Host.{Host}
use dlssnr_on_amd_linux.Native.{Native, Symbol}
use dlssnr_on_amd_linux.Native.Args.{ArgsRegisterFunction}
use dlssnr_on_amd_linux.Native.Structs.{register_function_struct, launch_kernel_struct}
use dlssnr_on_amd_linux.Native.Dispatch.{HipUnixCall}
use dlssnr_on_amd_linux.Native.Dispatch.Reaches.{unix_call-Reaches}
use dlssnr_on_amd_linux.Native.Modules.{unix_register_function, unix_launch_kernel}
use dlssnr_on_amd_linux.Native.Kernels.{IsFreshFunction, launch-register_function}
use dlssnr_on_amd_linux.Pe.{Process, CallConfig, finish, set_last_error}
use dlssnr_on_amd_linux.Pe.Config.{PopOut, hip_push_call_configuration, hip_pop_call_configuration}
use dlssnr_on_amd_linux.Pe.Registration.{hip_register_function, hip_launch_kernel, launch_args}
use dlssnr_on_amd_linux.Pe.Sticky.{wine_unix_call_answers}
use dlssnr_on_amd_linux.Pe.Stack.{
  IsValid, view, push, pop, stack_call, stack_call-Agrees, Agrees, spec_call, length-pushed,
}
use dlssnr_on_amd_linux.Pe.Program.Sound.{push_native, pop_native}

-- The cells that a pop writes, all of them there.
abbrev pub cells : PopOut
cells = record {
  grid_dim = some (record { x = 0; y = 0; z = 0 });
  block_dim = some (record { x = 0; y = 0; z = 0 });
  shared_mem = some 0;
  stream = some 0;
}

abbrev pub popped : CallConfig → PopOut
popped c = record {
  grid_dim = some c.grid;
  block_dim = some c.block;
  shared_mem = some c.shared_mem;
  stream = some c.stream;
}

abbrev out_of : Option PopOut → PopOut
out_of none = cells
out_of (some out) = out

abbrev pub or_zero : Option ℕ → ℕ
or_zero none = 0
or_zero (some n) = n

-- A configuration is pushed and popped again.
abbrev pub pass_config : {W : Type 0} → CallConfig → Process W → (ℤ × PopOut) × Process W
pass_config c p =
    hip_pop_call_configuration cells
      (hip_push_call_configuration (some c.grid) (some c.block) c.shared_mem c.stream p).1

pass_config-popped :
    {W : Type 0} (c : CallConfig) (p : Process W)
    → IsValid p
    → p.call_config_depth < 16
    → let ((code, out), p') = pass_config c p in
      (code ≡ pos 0) × (out ≡ popped c) × (view p' ≡ view p)
unfolding stack_call
pass_config-popped c p v room =
    let call = push (some c.grid) (some c.block) c.shared_mem c.stream in
    let (same, seen, valid) = stack_call-Agrees call p v in
    let below : leb 16 (length (view p)) ≡ false =
      rw (length-pushed p.call_config_stack p.call_config_depth)
        (leb_of_lt 16 p.call_config_depth room) in
    let on_top : view (stack_call call p).1 ≡ c ∷ view p = seen ∙ rw below refl in
    let (result, left, still) =
      subst (λ s. Agrees (stack_call (pop cells) (stack_call call p).1) (spec_call (pop cells) s))
        on_top (stack_call-Agrees (pop cells) (stack_call call p).1 valid) in
    (ap (λ r. r.0) result, ap (λ r. out_of r.1) result, left)

module _ (host : Host) where
  -- What the generated code does: it registers the kernel, pushes the configuration, pops it again
  -- in the kernel's stub and launches with what was popped.
  abbrev pub register_and_launch :
      ℕ
      → ℕ
      → Option Bytes
      → CallConfig
      → ℕ
      → Process host.World
      → Option ((ℤ × Unit {0}) × Process host.World)
  register_and_launch fatbin_token host_fn device_name c arg p = do
    (_, registered) ← hip_register_function host fatbin_token host_fn device_name p
    let ((_, out), ready) = pass_config c registered
    hip_launch_kernel host host_fn out.grid_dim out.block_dim (some arg) (or_zero out.shared_mem)
        (or_zero out.stream) ready

  pass_config_native :
      (c : CallConfig) (p : Process host.World) → (pass_config c p).1.native ≡ p.native
  pass_config_native c p =
      pop_native host cells _
      ∙ push_native host (some c.grid) (some c.block) c.shared_mem c.stream p

  register_function_answers :
      (fatbin_token host_fn : ℕ) (device_name : Option Bytes) (p : Process host.World)
      → let a : ArgsRegisterFunction = record {
        fatbin_token = fatbin_token;
        host_fn = host_fn;
        device_name = device_name;
      } in
        hip_register_function host fatbin_token host_fn device_name p
        ≡ some (tt, record p { native = (unix_register_function host a p.native).1 })
  unfolding hip_register_function
  register_function_answers fatbin_token host_fn device_name p =
      let a : ArgsRegisterFunction = record {
        fatbin_token = fatbin_token;
        host_fn = host_fn;
        device_name = device_name;
      } in
      ap
        (λ (o : Option (ArgsRegisterFunction × Process host.World)). elim o [
          | none ↦ none
          | some (a', p') ↦ some (tt, p')
        ])
        (wine_unix_call_answers host HipUnixCall.register_function register_function_struct a p _
          (unix_call-Reaches host HipUnixCall.register_function a p.native))

  launch_answers :
      (host_fn arg : ℕ) (c : CallConfig) (p : Process host.World) (ret : ℤ) (s : Native host.World)
      → arg ≢ 0
      → let l = launch_args host host_fn c.grid c.block arg c.shared_mem c.stream in
        unix_launch_kernel host l p.native ≡ (record l { ret = ret }, s)
        → hip_launch_kernel host host_fn
            (some c.grid)
            (some c.block)
            (some arg)
            c.shared_mem
            c.stream
            p
          ≡ (let (code, p') = finish ret 801 (record p { native = s }) in some ((code, tt), p'))
  unfolding hip_launch_kernel
  launch_answers host_fn arg c p ret s there e =
      let l = launch_args host host_fn c.grid c.block arg c.shared_mem c.stream in
      rw
        (
          ==_of_ne arg 0 there,
          wine_unix_call_answers host HipUnixCall.launch_kernel launch_kernel_struct l p _
              (unix_call-Reaches host HipUnixCall.launch_kernel l p.native),
          e,
        )
        refl

  finished :
      (ret : ℤ) (p : Process host.World)
      → ((finish ret 801 p).0 ≡ (if int_eq ret 0 then pos 0 else pos 801))
        × ((finish ret 801 p).1.native ≡ p.native)
        × (view (finish ret 801 p).1 ≡ view p)
  unfolding finish set_last_error
  finished ret p = elim (Bool-cases (int_eq ret 0)) [
    | inl done ↦ rw done (refl, refl, refl)
    | inr failed ↦ rw failed (refl, refl, refl)
  ]

  -- On a process whose stack of call configurations is valid and not full, in a valid registry,
  -- code that registers a kernel of a known fat binary for the first time, with room in the table
  -- and the runtime finding the kernel, pushes a configuration, pops it into cells that are there
  -- and launches with what they hold and one argument that is not NULL, runs that kernel in the
  -- runtime with the grid, block, shared memory modulo 2 ^ 32 and stream that were pushed and with
  -- that argument. It returns hipSuccess if the runtime does and hipErrorNotSupported otherwise,
  -- and leaves the stack of configurations as it was.
  pub register_and_launch-launched :
      (a : ArgsRegisterFunction) (c : CallConfig) (arg function : ℕ) (p : Process host.World)
      (w : host.World)
      → IsValid p
      → p.call_config_depth < 16
      → Lookup.IsValid p.native.registry
      → p.native.registry.functions.count < 256
      → IsFreshFunction a.host_fn p.native.registry
      → registry_find_module a.fatbin_token p.native.registry ≢ 0
      → p.native.symbols Symbol.module_get_function ≢ 0
      → p.native.symbols Symbol.module_launch_kernel ≢ 0
      → host.hip_module_get_function
          (p.native.symbols Symbol.module_get_function)
          (registry_find_module a.fatbin_token p.native.registry)
          a.device_name
          p.native.world
        ≡ (pos 0, function, w)
      → function ≢ 0
      → arg ≢ 0
      → let (ret, w') =
          host.hip_module_launch_kernel
            (p.native.symbols Symbol.module_launch_kernel)
            function
            c.grid.x
            c.grid.y
            c.grid.z
            c.block.x
            c.block.y
            c.block.z
            (c.shared_mem % 2 ^ 32)
            c.stream
            arg
            w in
        (p' : Process host.World) × (register_and_launch a.fatbin_token a.host_fn a.device_name c
            arg p
          ≡ some ((if int_eq ret 0 then pos 0 else pos 801, tt), p'))
        × (p'.native.world ≡ w')
        × (view p' ≡ view p)
  register_and_launch-launched a c arg function p w v room valid space fresh known get_fn launch_fn
        got nonzero there =
      let l = launch_args host a.host_fn c.grid c.block arg c.shared_mem c.stream in
      let launched =
        launch-register_function host a l p.native function w valid space fresh known get_fn
          launch_fn got nonzero refl in
      let registered = record p { native = (unix_register_function host a p.native).1 } in
      let (ok, out, seen) = pass_config-popped c registered v room in
      let ready = (pass_config c registered).1 in
      let answer =
        launch_answers a.host_fn arg c ready _ _ there
          (ap (unix_launch_kernel host l) (pass_config_native c registered) ∙ launched) in
      let (ret, w') =
        host.hip_module_launch_kernel (p.native.symbols Symbol.module_launch_kernel) function
          c.grid.x c.grid.y c.grid.z c.block.x c.block.y c.block.z (c.shared_mem % 2 ^ 32) c.stream
          arg w in
      let ran = record ready { native = record registered.native { world = w' } } in
      let (code, state, kept) = finished ret ran in
      (
        (finish ret 801 ran).1,
        rw (register_function_answers a.fatbin_token a.host_fn a.device_name p, out, answer, code)
            refl,
        ap (λ s. s.world) state,
        kept ∙ seen,
      )
