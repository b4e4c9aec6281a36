-- ===== src/Pe/Registration.antt =====
-- pe_shim.c: the registration functions that compiler-generated code calls, and the kernel launch.
use dlssnr_on_amd_linux.Common.{ℕ, ◌%◌, ◌^◌, ℤ, pos, Option, none, some, Bytes, ◌==◌, if◌then◌else◌}
use dlssnr_on_amd_linux.Host.{Host}
use dlssnr_on_amd_linux.Native.Args.{
  Dim3, ArgsRegisterFatBinary, ArgsRegisterFunction, ArgsRegisterVar, ArgsUnregisterFatBinary,
  ArgsLaunchKernel,
}
use dlssnr_on_amd_linux.Native.Structs.{
  register_fat_binary_struct, register_function_struct, register_var_struct,
  unregister_fat_binary_struct, launch_kernel_struct,
}
use dlssnr_on_amd_linux.Native.Dispatch.{
  register_fat_binary, register_function, register_var, unregister_fat_binary, launch_kernel,
}
use dlssnr_on_amd_linux.Pe.{
  Process, hip_error_not_supported, set_last_error, wine_unix_call, answer,
}

module _ (host : Host) where
  -- `__hipRegisterFatBinary`
  unfoldable pub hip_register_fat_binary : ℕ → Process host.World → Option (ℕ × Process host.World)
  hip_register_fat_binary fatbin p =
      let a : ArgsRegisterFatBinary = record { fatbin = fatbin; fatbin_token = 0 } in
      elim (wine_unix_call host register_fat_binary register_fat_binary_struct a p) [
        | none ↦ none
        | some (a', p') ↦ some (a'.fatbin_token, p')
      ]

  -- `__hipRegisterFunction`, without the parameters that it ignores.
  unfoldable pub hip_register_function :
      ℕ → ℕ → Option Bytes → Process host.World → Option (Unit {0} × Process host.World)
  hip_register_function fatbin_token host_fn device_name p =
      let a : ArgsRegisterFunction = record {
        fatbin_token = fatbin_token;
        host_fn = host_fn;
        device_name = device_name;
      } in
      elim (wine_unix_call host register_function register_function_struct a p) [
        | none ↦ none
        | some (a', p') ↦ some (tt, p')
      ]

  -- `__hipRegisterVar`
  unfoldable pub hip_register_var :
      ℕ → ℕ → Option Bytes → Process host.World → Option (Unit {0} × Process host.World)
  hip_register_var fatbin_token host_var device_name p =
      let a : ArgsRegisterVar = record {
        fatbin_token = fatbin_token;
        host_var = host_var;
        device_name = device_name;
      } in
      elim (wine_unix_call host register_var register_var_struct a p) [
        | none ↦ none
        | some (a', p') ↦ some (tt, p')
      ]

  -- `__hipUnregisterFatBinary`
  unfoldable pub hip_unregister_fat_binary :
      ℕ → Process host.World → Option (Unit {0} × Process host.World)
  hip_unregister_fat_binary fatbin_token p =
      let a : ArgsUnregisterFatBinary = record { fatbin_token = fatbin_token } in
      elim (wine_unix_call host unregister_fat_binary unregister_fat_binary_struct a p) [
        | none ↦ none
        | some (a', p') ↦ some (tt, p')
      ]

  -- The struct that a launch passes: the shared memory is cut to 32 bits.
  abbrev pub launch_args : ℕ → Dim3 → Dim3 → ℕ → ℕ → ℕ → ArgsLaunchKernel
  launch_args function grid block arg shared_mem stream = record {
    host_fn = function;
    grid = grid;
    block = block;
    args = arg;
    shared_mem = shared_mem % 2 ^ 32;
    stream = stream;
    ret = pos 0;
  }

  -- `hipLaunchKernel` for pointers that are not null; `arg` is `args[0]`.
  unfoldable pub launch_forward :
      ℕ
      → Dim3
      → Dim3
      → ℕ
      → ℕ
      → ℕ
      → Process host.World
      → Option ((ℤ × Unit {0}) × Process host.World)
  launch_forward function grid block arg shared_mem stream p =
      if arg == 0
      then (let (code, p') = set_last_error hip_error_not_supported p in some ((code, tt), p'))
      else answer
          (wine_unix_call host launch_kernel launch_kernel_struct
            (launch_args function grid block arg shared_mem stream) p)
          (λ a. a.ret) hip_error_not_supported (λ a. tt)

  -- `hipLaunchKernel`
  unfoldable pub hip_launch_kernel :
      ℕ
      → Option Dim3
      → Option Dim3
      → Option ℕ
      → ℕ
      → ℕ
      → Process host.World
      → Option ((ℤ × Unit {0}) × Process host.World)
  unfolding launch_forward
  hip_launch_kernel function (some grid) (some block) (some arg) shared_mem stream p =
      launch_forward function grid block arg shared_mem stream p
  hip_launch_kernel function grid_dim block_dim args shared_mem stream p =
      let (code, p') = set_last_error hip_error_not_supported p in some ((code, tt), p')
