-- ===== src/KernelProbes.antt =====
-- index_overflow_probe.c, raw_pointer_fault_probe.c, fp8_kernel_probe.c and wmma_fp8_probe.c of
-- windows-runtime-bridge/investigations: how they reach a kernel on the GPU. They open the HIP runtime, compile a kernel with comgr, load it and
-- launch it. The dynamic linker, comgr and the runtime are a parameter, `Gpu`.
pub mod Outcome
pub mod Index
pub mod RawPointer
pub mod Fp8
pub mod Wmma
pub mod Launches
use dlssnr_on_amd_linux.Common.{
  ℕ, ◌+◌, ℤ, pos, negsuc, Bool, true, false, not, ◌||◌, Option, none, some, List, [], ◌∷◌, String,
  ◌==◌, leb, int_eq, if◌then◌else◌,
}

-- The data sets that the compilation passes through.
pub data DataSet : Type 0 where
  input bc linked_bc reloc exec : DataSet

pub data Action : Type 0 where
  compile_source_with_device_libs_to_bc : Action
  link_bc_to_bc : Action
  codegen_bc_to_relocatable : Action
  link_relocatable_to_executable : Action

pub data ComgrCall : Type 0 where
  create_data set_data set_data_name data_set_add create_action_info : ComgrCall
  set_language set_isa_name set_logging : ComgrCall
  create_data_set : DataSet → ComgrCall
  do_action : Action → DataSet → DataSet → ComgrCall
  action_data_count action_data_get_data get_data_size get_data_bytes : ComgrCall

-- A function of the runtime is called through the address that `dlsym` gave. The first result of
-- `comgr` is its status, 0 for success. The world keeps what comgr has produced: `exec_count` is the
-- count that the program last got of it, 0 where it got none, and a module is loaded from the bytes
-- that were read last. A pointer that a call does not fill in is 0. `comgr` is `none` where it
-- crashes, as it may on a handle that a failed call before it left unset; `device_synchronize` is
-- `none` where the runtime aborts the process, as it may after a fault of the GPU.
pub record Gpu : Type 1 where
  pub World : Type 0
  pub dlopen : String → World → ℕ × World
  pub dlsym : ℕ → String → World → ℕ
  pub comgr : ComgrCall → World → Option (ℕ × World)
  pub exec_count : World → ℕ
  pub get_device_count : ℕ → World → ℤ × ℤ × World
  pub set_device : ℕ → ℤ → World → ℤ × World
  pub malloc : ℕ → ℕ → World → ℤ × ℕ × World
  pub free : ℕ → ℕ → World → ℤ × World
  pub memcpy_to_host : ℕ → ℕ → ℕ → World → ℤ × World
  pub module_load_data : ℕ → World → ℤ × ℕ × World
  pub module_get_function : ℕ → ℕ → String → World → ℤ × ℕ × World
  -- The function, and the kernel's parameters.
  pub module_launch_kernel : ℕ → ℕ → List ℕ → World → ℤ × World
  pub device_synchronize : ℕ → World → Option (ℤ × World)

-- A program that may crash or be aborted, `none`, or exit with code 1, `some (none, w)`.
abbrev pub Program : Type 0 → Type 0 → Type 0
Program W A = W → Option (Option A × W)

-- The rest of a program, where it has come that far.
abbrev pub continue :
    {W A B : Type 0} → (A → Program W B) → Option (Option A × W) → Option (Option B × W)
continue f none = none
continue f (some (none, w)) = some (none, w)
continue f (some (some a, w)) = f a w

infixl 5 ◌>>=◌
abbrev pub ◌>>=◌ : {W A B : Type 0} → Program W A → (A → Program W B) → Program W B
(m >>= f) w = continue f (m w)

abbrev pub pure : {W A : Type 0} → A → Program W A
pure a w = some (some a, w)

-- `if (!b) return 1;`
abbrev pub require : {W : Type 0} → Bool → Program W (Unit {0})
require b w = if b then some (some tt, w) else some (none, w)

-- A call through a pointer: NULL is a crash.
abbrev pub through : {W A : Type 0} → ℕ → (ℕ → W → A × W) → Program W A
through fn call w = if fn == 0 then none else (let (a, w') = call fn w in some (some a, w'))

-- The addresses that are used; index_overflow_probe.c does not look up hipMemcpy.
pub record Symbols : Type 0 where
  pub get_device_count : ℕ
  pub set_device : ℕ
  pub malloc : ℕ
  pub free : ℕ
  pub memcpy : ℕ
  pub module_load_data : ℕ
  pub module_get_function : ℕ
  pub module_launch_kernel : ℕ
  pub device_synchronize : ℕ

-- `count >= 1`
abbrev pub at_least_one : ℤ → Bool
at_least_one (pos n) = leb 1 n
at_least_one (negsuc n) = false

module _ (gpu : Gpu) where
  unfoldable pub open_runtime : Program gpu.World ℕ
  open_runtime w =
      let (h, w1) = gpu.dlopen "libamdhip64.so.7" w in
      let (h', w2) = gpu.dlopen "libamdhip64.so" w1 in
      if not (h == 0)
      then some (some h, w1)
      else if not (h' == 0)
      then some (some h', w2)
      else some (none, w2)

  unfoldable pub find_symbols : ℕ → gpu.World → Symbols
  find_symbols h w = record {
    get_device_count = gpu.dlsym h "hipGetDeviceCount" w;
    set_device = gpu.dlsym h "hipSetDevice" w;
    malloc = gpu.dlsym h "hipMalloc" w;
    free = gpu.dlsym h "hipFree" w;
    memcpy = gpu.dlsym h "hipMemcpy" w;
    module_load_data = gpu.dlsym h "hipModuleLoadData" w;
    module_get_function = gpu.dlsym h "hipModuleGetFunction" w;
    module_launch_kernel = gpu.dlsym h "hipModuleLaunchKernel" w;
    device_synchronize = gpu.dlsym h "hipDeviceSynchronize" w;
  }

  -- The test on the symbols: four of them are looked at.
  unfoldable pub has_required : Symbols → Bool
  has_required s = not (
      s.get_device_count == 0
      || s.module_load_data == 0
      || s.module_get_function == 0
      || s.module_launch_kernel == 0)

  -- The count of devices, whatever the call returns; it starts at 0.
  unfoldable pub has_device : ℕ → Program gpu.World Bool
  has_device fn w =
      let (ret, count, w') = gpu.get_device_count fn w in some (some (at_least_one count), w')

  -- From the library to the chosen device.
  unfoldable pub start_device : Program gpu.World Symbols
  unfolding open_runtime find_symbols has_required has_device
  start_device = do
    h ← open_runtime
    symbols ← λ w. some (some (find_symbols h w), w)
    _ ← require (has_required symbols)
    there ← has_device symbols.get_device_count
    _ ← require there
    _ ← through symbols.set_device (λ fn. gpu.set_device fn (pos 0))
    pure symbols

  -- The calls of comgr, each with an exit where it fails.
  unfoldable pub run_checked : List ComgrCall → Program gpu.World (Unit {0})
  run_checked [] w = some (some tt, w)
  run_checked (c ∷ cs) w = elim (gpu.comgr c w) [
    | none ↦ none
    | some (status, w') ↦
        let rest = run_checked cs w' in if status == 0 then rest else some (none, w')
  ]

  -- The same where a failure is printed and nothing else.
  unfoldable pub run_logged : List ComgrCall → Program gpu.World (Unit {0})
  run_logged [] w = some (some tt, w)
  run_logged (c ∷ cs) w = elim (gpu.comgr c w) [
    | none ↦ none
    | some (status, w') ↦ run_logged cs w'
  ]

  unfoldable pub require_executable : Program gpu.World (Unit {0})
  require_executable w = require (leb 1 (gpu.exec_count w)) w

  -- `if (buf) p_hipFree(buf);`
  unfoldable pub free_buffer : Symbols → ℕ → Program gpu.World (Unit {0})
  free_buffer s buf w =
      if buf == 0
      then some (some tt, w)
      else if s.free == 0
      then none
      else some (some tt, (gpu.free s.free buf w).1)
