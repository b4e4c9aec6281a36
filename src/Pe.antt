-- ===== src/Pe.antt =====
-- windows-runtime-bridge/hip-unixlib/pe_shim.c: the state of the Windows side, and how one of its
-- functions calls the native side. A `Process` holds the file's static variables and, since both sides
-- share one process, the native state. `none` is a crash. Logging and the lock around the stack of
-- call configurations are left out: a step is a whole call.
pub mod Config
pub mod Registration
pub mod Device
pub mod Memory
pub mod Interop
pub mod Api
pub mod Sticky
pub mod Stack
pub mod Program
pub mod Launch
pub mod EndToEnd
pub mod WithoutRuntime
use dlssnr_on_amd_linux.Common.{
  ℕ, ℤ, pos, Bool, true, false, Option, none, some, List, replicate, int_eq, if◌then◌else◌,
}
use dlssnr_on_amd_linux.Host.{Host}
use dlssnr_on_amd_linux.Native.{Native}
use dlssnr_on_amd_linux.Native
use dlssnr_on_amd_linux.Native.Args.{Dim3}
use dlssnr_on_amd_linux.Native.Structs.{Struct}
use dlssnr_on_amd_linux.Native.Dispatch.{HipUnixCall, unix_call}

abbrev pub hip_success : ℕ
hip_success = 0

abbrev pub hip_error_no_device : ℕ
hip_error_no_device = 100

abbrev pub hip_error_not_supported : ℕ
hip_error_not_supported = 801

-- An element of `call_config_stack`.
pub record CallConfig : Type 0 where
  pub grid : Dim3
  pub block : Dim3
  pub shared_mem : ℕ
  pub stream : ℕ

abbrev pub call_config_stack_size : ℕ
call_config_stack_size = 16

abbrev pub zero_config : CallConfig
zero_config = record {
  grid = record { x = 0; y = 0; z = 0 };
  block = record { x = 0; y = 0; z = 0 };
  shared_mem = 0;
  stream = 0;
}

pub record Process (W : Type 0) : Type 0 where
  pub native : Native W
  pub last_error : ℤ
  pub call_config_lock_init : Bool
  pub call_config_stack : List CallConfig
  pub call_config_depth : ℕ

unfoldable pub initial : {W : Type 0} → W → Process W
initial w = record {
  native = Native.initial w;
  last_error = pos hip_success;
  call_config_lock_init = false;
  call_config_stack = replicate call_config_stack_size zero_config;
  call_config_depth = 0;
}

unfoldable pub set_last_error : {W : Type 0} → ℕ → Process W → ℤ × Process W
set_last_error code p = (pos code, record p { last_error = pos code })

-- `a.ret == HIP_SUCCESS ? HIP_SUCCESS : set_last_error(code)`
unfoldable pub finish : {W : Type 0} → ℤ → ℕ → Process W → ℤ × Process W
unfolding set_last_error
finish ret code p = if int_eq ret hip_success then (pos hip_success, p) else set_last_error code p

-- `if (out) *out = value;`, where an out-pointer is the old content of its cell, or `none` for NULL.
abbrev pub store {ℓ} : {A : Type ℓ} → Option A → A → Option A
store none value = none
store (some old) value = some value

module _ (host : Host) where
  -- `WINE_UNIX_CALL(call, &a)`
  unfoldable pub wine_unix_call :
      {A : Type 0}
      → HipUnixCall
      → Struct host.Float A
      → A
      → Process host.World
      → Option (A × Process host.World)
  wine_unix_call call st a p = elim (unix_call host call st a p.native) [
    | none ↦ none
    | some (a', s) ↦ some (a', record p { native = s })
  ]

-- After a call that answered: the code of the function, and the out-parameter.
abbrev pub answer :
    {W A B : Type 0} → Option (A × Process W) → (A → ℤ) → ℕ → (A → B) → Option ((ℤ × B) × Process W)
answer none ret code out = none
answer (some (a, p)) ret code out = let (r, p') = finish (ret a) code p in some ((r, out a), p')

-- The result of a function that returns hipSuccess whatever the code of its call.
abbrev pub reports :
    {W A B : Type 0} → Option (A × Process W) → (A → B) → Option ((ℤ × B) × Process W)
reports none out = none
reports (some (a, p)) out = some ((pos hip_success, out a), p)
