-- ===== src/Pe/Config.antt =====
-- pe_shim.c: the stack of call configurations between a kernel's `<<<…>>>` and its launch.
use dlssnr_on_amd_linux.Common.{
  ℕ, ◌+◌, ◌-◌, ℤ, pos, true, Option, none, some, leb, ◌==◌, get_or, set, if◌then◌else◌,
}
use dlssnr_on_amd_linux.Native.Args.{Dim3}
use dlssnr_on_amd_linux.Pe.{
  Process, CallConfig, zero_config, call_config_stack_size, hip_error_not_supported, hip_success,
  set_last_error, store,
}

unfoldable pub ensure_call_config_lock : {W : Type 0} → Process W → Process W
ensure_call_config_lock p =
    if p.call_config_lock_init then p else record p { call_config_lock_init = true }

-- The critical section of a push.
unfoldable pub push_config : {W : Type 0} → CallConfig → Process W → ℤ × Process W
push_config config p =
    if leb call_config_stack_size p.call_config_depth
    then set_last_error hip_error_not_supported p
    else (
      pos hip_success,
      record p {
        call_config_stack = set p.call_config_stack p.call_config_depth config;
        call_config_depth = p.call_config_depth + 1;
      },
    )

-- `__hipPushCallConfiguration`; `none` is a null pointer.
unfoldable pub hip_push_call_configuration :
    {W : Type 0} → Option Dim3 → Option Dim3 → ℕ → ℕ → Process W → ℤ × Process W
unfolding ensure_call_config_lock push_config
hip_push_call_configuration none block_dim shared_mem stream p =
    set_last_error hip_error_not_supported p
hip_push_call_configuration (some grid) none shared_mem stream p =
    set_last_error hip_error_not_supported p
hip_push_call_configuration (some grid) (some block) shared_mem stream p =
    push_config (record { grid = grid; block = block; shared_mem = shared_mem; stream = stream })
      (ensure_call_config_lock p)

-- The out-pointers of a pop.
pub record PopOut : Type 0 where
  pub grid_dim : Option Dim3
  pub block_dim : Option Dim3
  pub shared_mem : Option ℕ
  pub stream : Option ℕ

unfoldable pub store_config : CallConfig → PopOut → PopOut
store_config config out = record {
  grid_dim = store out.grid_dim config.grid;
  block_dim = store out.block_dim config.block;
  shared_mem = store out.shared_mem config.shared_mem;
  stream = store out.stream config.stream;
}

-- The critical section of a pop.
unfoldable pub pop_config : {W : Type 0} → PopOut → Process W → (ℤ × PopOut) × Process W
unfolding store_config
pop_config out p =
    if p.call_config_depth == 0
    then (let (code, p') = set_last_error hip_error_not_supported p in ((code, out), p'))
    else (let depth = p.call_config_depth - 1 in
        (
          (pos hip_success, store_config (get_or p.call_config_stack depth zero_config) out),
          record p { call_config_depth = depth },
        ))

-- `__hipPopCallConfiguration`
unfoldable pub hip_pop_call_configuration :
    {W : Type 0} → PopOut → Process W → (ℤ × PopOut) × Process W
unfolding ensure_call_config_lock pop_config
hip_pop_call_configuration out p = pop_config out (ensure_call_config_lock p)
