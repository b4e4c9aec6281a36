-- ===== src/Tests/Kernels.antt =====
-- Tests of the probes that launch kernels, on a runtime where each call succeeds; the world counts
-- the launches.
use Prim.Native.String.{len}
use dlssnr_on_amd_linux.Common.{ℕ, ◌+◌, ◌≡◌, refl, arith, pos, some, none, ◌==◌, if◌then◌else◌}
use dlssnr_on_amd_linux.KernelProbes.{
  Gpu, find_symbols, has_required, run_logged, require_executable,
}
use dlssnr_on_amd_linux.KernelProbes.Index
use dlssnr_on_amd_linux.KernelProbes.Index.Sweep.{main_crashes}
use dlssnr_on_amd_linux.KernelProbes.RawPointer
use dlssnr_on_amd_linux.KernelProbes.Fp8
use dlssnr_on_amd_linux.KernelProbes.Wmma

abbrev toy_gpu : Gpu
toy_gpu = record {
  World = ℕ;
  dlopen = λ name w. (7, w);
  dlsym = λ h name w. 100;
  comgr = λ call w. some (0, w);
  exec_count = λ w. 1;
  get_device_count = λ fn w. (pos 0, pos 1, w);
  set_device = λ fn device w. (pos 0, w);
  malloc = λ fn size w. (pos 0, 4096, w);
  free = λ fn ptr w. (pos 0, w);
  memcpy_to_host = λ fn ptr size w. (pos 0, w);
  module_load_data = λ fn w. (pos 0, 800, w);
  module_get_function = λ fn module_ name w. (pos 0, 900, w);
  module_launch_kernel = λ fn function params w. (pos 0, w + 1);
  device_synchronize = λ fn w. some (pos 0, w);
}

-- The same runtime without hipSetDevice, the only one of the names that is 12 bytes long.
abbrev without_set_device : Gpu
without_set_device = record toy_gpu { dlsym = λ h name w. if len name == 12 then 0 else 100 }

main_crashes_example : Index.main without_set_device 0 ≡ none
unfolding find_symbols has_required
main_crashes_example =
    main_crashes without_set_device 7 (pos 0) (pos 1) 0 0 0 refl (omega arith) refl refl refl refl

-- Both launches are made.
raw_pointer_runs :
    RawPointer.main toy_gpu 0 ≡ some (some (some (pos 0, pos 0), some (pos 0, pos 0)), 2)
unfolding RawPointer.main run_logged require_executable
raw_pointer_runs = refl
