-- ===== src/KernelProbes/Launches.antt =====
-- raw_pointer_fault_probe.c, fp8_kernel_probe.c and wmma_fp8_probe.c of
-- windows-runtime-bridge/investigations: none of them crashes, and each makes both of its launches.
use dlssnr_on_amd_linux.Common.{◌≡◌, [], ◌∷◌, ℕ, ◌≢◌, ℤ, Option, none, some}
use dlssnr_on_amd_linux.KernelProbes.{Gpu, Symbols}
use dlssnr_on_amd_linux.KernelProbes.Outcome.{IsComplete}
use dlssnr_on_amd_linux.KernelProbes.RawPointer.{launch}
use dlssnr_on_amd_linux.KernelProbes.RawPointer
use dlssnr_on_amd_linux.KernelProbes.Fp8
use dlssnr_on_amd_linux.KernelProbes.Wmma

-- What the probe uses without a test, hipMemcpy included.
abbrev pub IsUsable : Symbols → Type 0
IsUsable s = IsComplete s × (s.memcpy ≢ 0)

module _ (gpu : Gpu) where
  -- The codes are what a launch of a kernel with this pointer returned, and the wait after it.
  abbrev Made : ℕ → Option (ℤ × ℤ) → Type 0
  Made ptr none = ⊥
  Made ptr (some (launch_ret, sync_ret)) =
      (launch sync fn : ℕ) × (w w1 w2 : gpu.World) × (fn ≢ 0)
      × (gpu.module_launch_kernel launch fn (ptr ∷ []) w ≡ (launch_ret, w1))
      × (gpu.device_synchronize sync w1 ≡ some (sync_ret, w2))

  -- Both kernels were launched on the buffer.
  abbrev pub BothMade : Option (ℤ × ℤ) × Option (ℤ × ℤ) → Type 0
  BothMade (touched, touched') = (out : ℕ) × Made out touched × Made out touched'

  -- The first kernel was launched on the buffer, the second on 0x100000000.
  abbrev pub RawMade : Option (ℤ × ℤ) × Option (ℤ × ℤ) → Type 0
  RawMade (touched, written) = (out : ℕ) × Made out touched × Made 4294967296 written
