-- ===== src/Tests/Windows.antt =====
-- Tests of pe_shim.c on the concrete host.
use dlssnr_on_amd_linux.Common.{
  ◌⊎◌, inl, arith, ℕ, pos, ◌+◌, ◌*◌, ◌^◌, ◌≡◌, refl, arith, none, some, List, [], ◌∷◌,
}
use dlssnr_on_amd_linux.ExtMem.{HipExtMemHandleDesc}
use dlssnr_on_amd_linux.Native.{Symbol}
use dlssnr_on_amd_linux.Native.Args.{Dim3}
use dlssnr_on_amd_linux.Pe
use dlssnr_on_amd_linux.Pe.{Process, store}
use dlssnr_on_amd_linux.Pe.Config.{PopOut}
use dlssnr_on_amd_linux.Pe.Memory.{hip_malloc, hip_memcpy, hip_memcpy_async}
use dlssnr_on_amd_linux.Pe.Interop.{hip_import_external_memory}
use dlssnr_on_amd_linux.Native
use dlssnr_on_amd_linux.Native.Loading.{IsUnloaded}
use dlssnr_on_amd_linux.Pe.Device.{
  hip_driver_get_version, hip_runtime_get_version, hip_get_device_count,
}
use dlssnr_on_amd_linux.Pe.WithoutRuntime.{after_attempt, no_device, without_runtime}
use dlssnr_on_amd_linux.Pe.Api.{ApiCall, run_calls, malloc, memcpy, set_device, get_last_error}
use dlssnr_on_amd_linux.Pe.Sticky.History.{HasHistory, run_calls-HasHistory}
use dlssnr_on_amd_linux.Pe.Stack.{
  IsValid, view, StackCall, push, pop, stack_calls, spec_calls, stack_calls-spec_calls,
}
use dlssnr_on_amd_linux.Pe.EndToEnd.{
  Has, fd_desc, imported, copied, rejected, import_external_memory-smuggled,
  import_external_memory_refused, IsDocumented, memcpy-copied,
}
use dlssnr_on_amd_linux.Tests.{toy_host, bare_host, fresh, started}

-- A call that succeeds, one that fails with 100, one that fails with 801, and two readings.
abbrev program : List (ApiCall ℕ)
program =
    malloc (some 0) 64
    ∷ set_device (pos 3)
    ∷ memcpy 1 2 3 (pos 9)
    ∷ get_last_error
    ∷ get_last_error
    ∷ []

run_calls-HasHistory_example : HasHistory program started (run_calls toy_host program started)
run_calls-HasHistory_example = run_calls-HasHistory toy_host program started

unloaded : IsUnloaded bare_host fresh.native
unfolding Native.initial Pe.initial
unloaded = record { handle = refl; symbols = λ sym. refl }

without_runtime_example :
    (hip_driver_get_version bare_host (some (pos 5)) fresh
      ≡ some ((pos 0, some (pos 0)), after_attempt bare_host fresh))
    × (hip_runtime_get_version bare_host (some (pos 5)) fresh
        ≡ some ((pos 0, some (pos 0)), after_attempt bare_host fresh))
    × (hip_get_device_count bare_host none fresh
        ≡ some ((pos 100, none), no_device bare_host fresh))
    × (hip_malloc bare_host (some 7) 64 fresh ≡ some ((pos 100, some 0), no_device bare_host fresh))
without_runtime_example =
    without_runtime bare_host (some (pos 5)) none (some 7) 64 fresh (λ c w. refl) unloaded

started-IsValid : IsValid started
unfolding Pe.initial
started-IsValid = (refl, omega arith)

abbrev dim : ℕ → Dim3
dim n = record { x = n; y = 1; z = 1 }

abbrev into : PopOut
into = record {
  grid_dim = some (dim 0);
  block_dim = some (dim 0);
  shared_mem = some 0;
  stream = none;
}

-- Two pushes and three pops, the last of them on an empty stack.
abbrev pushes : List StackCall
pushes =
    push (some (dim 4)) (some (dim 32)) 0 0
    ∷ push (some (dim 5)) (some (dim 64)) 16 7
    ∷ pop into
    ∷ pop into
    ∷ pop into
    ∷ []

stack_calls-spec_calls_example :
    ((stack_calls pushes started).0 ≡ (spec_calls pushes (view started)).0)
    × (view (stack_calls pushes started).1 ≡ (spec_calls pushes (view started)).1)
    × IsValid (stack_calls pushes started).1
stack_calls-spec_calls_example = stack_calls-spec_calls pushes started started-IsValid

has : (sym : Symbol) → Has toy_host sym started
has sym = (omega arith, omega arith)

abbrev smuggling : HipExtMemHandleDesc
smuggling = record { type = pos 5; handle = 3 * 2 ^ 32 + 42; name = 0; size = 4096; flags = 1 }

import_external_memory-smuggled_example :
    hip_import_external_memory toy_host (some 1) (some smuggling) started
    ≡ imported toy_host
        (some 1)
        started
        (toy_host.hip_import_external_memory 100 (fd_desc toy_host 42 smuggling) 0)
import_external_memory-smuggled_example =
    import_external_memory-smuggled toy_host 42 3 (some 1) smuggling started (omega arith) refl refl
      (has Symbol.import_external_memory)

-- The descriptor is of a type that holds no file descriptor.
abbrev other_type : HipExtMemHandleDesc
other_type = record { type = pos 2; handle = 42; name = 0; size = 4096; flags = 1 }

import_external_memory_refused_example :
    hip_import_external_memory toy_host (some 1) (some other_type) started
    ≡ some ((pos 801, some 0), record started { last_error = pos 801 })
import_external_memory_refused_example =
    import_external_memory_refused toy_host (some 1) (some other_type) started
      (inl (ground arith, ground arith))

memcpy-copied_example :
    (IsDocumented toy_host (pos 4)
      × (hip_memcpy toy_host 1 2 3 (pos 4) started
          ≡ copied toy_host started (toy_host.hip_memcpy 100 1 2 3 (pos 4) 0))
      × (hip_memcpy_async toy_host 1 2 3 (pos 4) 9 started
          ≡ copied toy_host started (toy_host.hip_memcpy_async 100 1 2 3 (pos 4) 9 0)))
    ⊎ (¬ IsDocumented toy_host (pos 4)
        × (hip_memcpy toy_host 1 2 3 (pos 4) started ≡ rejected toy_host started)
        × (hip_memcpy_async toy_host 1 2 3 (pos 4) 9 started ≡ rejected toy_host started))
memcpy-copied_example =
    memcpy-copied toy_host 1 2 3 9 (pos 4) started (has Symbol.memcpy) (has Symbol.memcpy_async)
