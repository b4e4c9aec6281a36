-- ===== src/Pe/Memory.antt =====
-- pe_shim.c: the memory calls.
use dlssnr_on_amd_linux.Common.{ℕ, ℤ, pos, not, Option, some, ◌==◌, if◌then◌else◌}
use dlssnr_on_amd_linux.Forward.{hip_memcpy_kind_supported}
use dlssnr_on_amd_linux.Host.{Host}
use dlssnr_on_amd_linux.Native.Structs.{
  malloc_struct, free_struct, memcpy_struct, memset_struct, memcpy_to_symbol_struct,
}
use dlssnr_on_amd_linux.Native.Dispatch.{
  malloc, free, memcpy, memset, memcpy_async, memset_async, memcpy_to_symbol,
}
use dlssnr_on_amd_linux.Pe.{
  Process, hip_success, hip_error_no_device, hip_error_not_supported, set_last_error,
  wine_unix_call, answer, store,
}

-- `return set_last_error(HIP_ERROR_NOT_SUPPORTED)`
abbrev pub reject : {W : Type 0} → Process W → Option ((ℤ × Unit {0}) × Process W)
reject p = let (code, p') = set_last_error hip_error_not_supported p in some ((code, tt), p')

module _ (host : Host) where
  unfoldable pub hip_malloc :
      Option ℕ → ℕ → Process host.World → Option ((ℤ × Option ℕ) × Process host.World)
  hip_malloc ptr size p =
      answer
        (wine_unix_call host malloc malloc_struct (record { ptr = 0; size = size; ret = pos 0 }) p)
        (λ a. a.ret) hip_error_no_device (λ a. store ptr a.ptr)

  unfoldable pub hip_free : ℕ → Process host.World → Option ((ℤ × Unit {0}) × Process host.World)
  hip_free ptr p =
      if ptr == 0
      then some ((pos hip_success, tt), p)
      else answer (wine_unix_call host free free_struct (record { ptr = ptr; ret = pos 0 }) p)
          (λ a. a.ret) hip_error_not_supported (λ a. tt)

  unfoldable pub memcpy_forward :
      ℕ → ℕ → ℕ → ℤ → Process host.World → Option ((ℤ × Unit {0}) × Process host.World)
  memcpy_forward dst src size kind p =
      if not (hip_memcpy_kind_supported kind)
      then reject p
      else answer
          (wine_unix_call host memcpy memcpy_struct
            (record { dst = dst; src = src; size = size; kind = kind; stream = 0; ret = pos 0 }) p)
          (λ a. a.ret) hip_error_not_supported (λ a. tt)

  unfoldable pub hip_memcpy :
      ℕ → ℕ → ℕ → ℤ → Process host.World → Option ((ℤ × Unit {0}) × Process host.World)
  unfolding memcpy_forward
  hip_memcpy dst src size kind p = memcpy_forward dst src size kind p

  unfoldable pub hip_memcpy_async :
      ℕ → ℕ → ℕ → ℤ → ℕ → Process host.World → Option ((ℤ × Unit {0}) × Process host.World)
  hip_memcpy_async dst src size kind stream p =
      if not (hip_memcpy_kind_supported kind)
      then reject p
      else answer
          (wine_unix_call host memcpy_async memcpy_struct
            (record {
              dst = dst;
              src = src;
              size = size;
              kind = kind;
              stream = stream;
              ret = pos 0;
            })
            p)
          (λ a. a.ret) hip_error_not_supported (λ a. tt)

  unfoldable pub hip_memcpy_to_symbol :
      ℕ → ℕ → ℕ → ℕ → ℤ → Process host.World → Option ((ℤ × Unit {0}) × Process host.World)
  hip_memcpy_to_symbol symbol src size offset kind p =
      if not (hip_memcpy_kind_supported kind)
      then reject p
      else answer
          (wine_unix_call host memcpy_to_symbol memcpy_to_symbol_struct
            (record {
              symbol = symbol;
              src = src;
              size = size;
              offset = offset;
              kind = kind;
              ret = pos 0;
            })
            p)
          (λ a. a.ret) hip_error_not_supported (λ a. tt)

  unfoldable pub memset_forward :
      ℕ → ℤ → ℕ → Process host.World → Option ((ℤ × Unit {0}) × Process host.World)
  memset_forward ptr value size p =
      answer
        (wine_unix_call host memset memset_struct
          (record { ptr = ptr; value = value; size = size; stream = 0; ret = pos 0 }) p)
        (λ a. a.ret) hip_error_not_supported (λ a. tt)

  unfoldable pub hip_memset :
      ℕ → ℤ → ℕ → Process host.World → Option ((ℤ × Unit {0}) × Process host.World)
  unfolding memset_forward
  hip_memset ptr value size p = memset_forward ptr value size p

  unfoldable pub hip_memset_async :
      ℕ → ℤ → ℕ → ℕ → Process host.World → Option ((ℤ × Unit {0}) × Process host.World)
  hip_memset_async ptr value size stream p =
      answer
        (wine_unix_call host memset_async memset_struct
          (record { ptr = ptr; value = value; size = size; stream = stream; ret = pos 0 }) p)
        (λ a. a.ret) hip_error_not_supported (λ a. tt)
