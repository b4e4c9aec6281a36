-- ===== src/KernelProbes/Wmma.antt =====
-- windows-runtime-bridge/investigations/wmma_fp8_probe.c, `main`: fp8_kernel_probe.c beside it with
-- another second kernel, which multiplies fp8 matrices. The reading of comgr's logs is left out.
use dlssnr_on_amd_linux.Common.{ℤ, Option}
use dlssnr_on_amd_linux.KernelProbes.{Gpu, Program}
use dlssnr_on_amd_linux.KernelProbes.RawPointer.{with_module}
use dlssnr_on_amd_linux.KernelProbes.Fp8.{touch_twice}

module _ (gpu : Gpu) where
  unfoldable pub main : Program gpu.World (Option (ℤ × ℤ) × Option (ℤ × ℤ))
  unfolding with_module touch_twice
  main = with_module gpu (touch_twice gpu "kernel_wmma_fp8_touch")
