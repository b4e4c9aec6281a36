-- ===== src/KernelProbes/Fp8.antt =====
-- windows-runtime-bridge/investigations/fp8_kernel_probe.c, `main`: as raw_pointer_fault_probe.c beside
-- it, with a second kernel that decodes an fp8 value into the buffer. The reading of comgr's logs is
-- left out.
use dlssnr_on_amd_linux.Common.{ℕ, ℤ, Option, String}
use dlssnr_on_amd_linux.KernelProbes.{Gpu, Program, ◌>>=◌, pure, Symbols}
use dlssnr_on_amd_linux.KernelProbes.RawPointer.{get_function, touch, with_module}

module _ (gpu : Gpu) where
  -- Both kernels write to the buffer, which is copied back after each.
  unfoldable pub touch_twice :
      String → Symbols → ℕ → ℕ → Program gpu.World (Option (ℤ × ℤ) × Option (ℤ × ℤ))
  unfolding get_function touch
  touch_twice name s module_ dev_out = do
    fn_touch ← get_function gpu s module_ "kernel_touch"
    touched ← touch gpu s fn_touch dev_out
    fn ← get_function gpu s module_ name
    touched' ← touch gpu s fn dev_out
    pure (touched, touched')

  unfoldable pub main : Program gpu.World (Option (ℤ × ℤ) × Option (ℤ × ℤ))
  unfolding with_module touch_twice
  main = with_module gpu (touch_twice "kernel_fp8_decode")
