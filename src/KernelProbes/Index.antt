-- ===== src/KernelProbes/Index.antt =====
-- windows-runtime-bridge/investigations/index_overflow_probe.c, `main`: the kernel is compiled, loaded
-- and launched over the cases of IndexProbe. A call of comgr that fails exits with code 1.
pub mod Sweep
use dlssnr_on_amd_linux.Common.{
  ℕ, ◌≡◌, ◌≢◌, refl, arith, ℤ, pos, Bool, true, false, not, ◌&&◌, ◌==◌, Option, none, some, List,
  [], ◌∷◌, int_eq, leb, if◌then◌else◌, ==_of_ne, Bool-cases, inl, inr,
}
use dlssnr_on_amd_linux.IndexProbe.{Dims, Coords, cases, sweep}
use dlssnr_on_amd_linux.KernelProbes.{
  Gpu, Program, ◌>>=◌, pure, require, through, Symbols, DataSet, Action, ComgrCall, create_data,
  set_data, set_data_name, data_set_add, create_action_info, set_language, set_isa_name,
  create_data_set, do_action, action_data_count, action_data_get_data, get_data_size,
  get_data_bytes, input, bc, linked_bc, reloc, exec, compile_source_with_device_libs_to_bc,
  link_bc_to_bc, codegen_bc_to_relocatable, link_relocatable_to_executable, open_runtime,
  find_symbols, has_required, has_device, at_least_one, start_device, run_checked,
  require_executable, free_buffer,
}

abbrev pub compile_calls : List ComgrCall
compile_calls =
    create_data
    ∷ set_data
    ∷ set_data_name
    ∷ create_data_set input
    ∷ data_set_add
    ∷ create_action_info
    ∷ set_language
    ∷ set_isa_name
    ∷ create_data_set bc
    ∷ do_action compile_source_with_device_libs_to_bc input bc
    ∷ create_data_set linked_bc
    ∷ do_action link_bc_to_bc bc linked_bc
    ∷ create_data_set reloc
    ∷ do_action codegen_bc_to_relocatable linked_bc reloc
    ∷ create_data_set exec
    ∷ do_action link_relocatable_to_executable reloc exec
    ∷ action_data_count
    ∷ []

abbrev pub read_calls : List ComgrCall
read_calls = action_data_get_data ∷ get_data_size ∷ get_data_bytes ∷ []

module _ (gpu : Gpu) where
  -- The executable, as bytes of the program.
  unfoldable pub compile_kernel : Program gpu.World (Unit {0})
  unfolding run_checked require_executable
  compile_kernel = do
    _ ← run_checked gpu compile_calls
    _ ← require_executable gpu
    run_checked gpu read_calls

  -- The kernel's function, from both calls with their tests.
  unfoldable pub load_kernel : Symbols → Program gpu.World ℕ
  load_kernel s = do
    (ret, module_) ← λ w.
        let (ret, module_, w') = gpu.module_load_data s.module_load_data w in
        some (some (ret, module_), w')
    _ ← require (int_eq ret 0 && not (module_ == 0))
    (ret', fn) ← λ w.
        let (ret', fn, w') =
          gpu.module_get_function s.module_get_function module_ "kernel_flat_index_write" w in
        some (some (ret', fn), w')
    _ ← require (int_eq ret' 0 && not (fn == 0))
    pure fn

  unfoldable pub malloc_buffer : Symbols → Program gpu.World ℕ
  malloc_buffer s =
      through s.malloc (λ malloc w. let (ret, buf, w') = gpu.malloc malloc 16384 w in (buf, w'))

  -- `none` is a wait through NULL, or one in which the process is aborted.
  unfoldable pub launch_case :
      Symbols → ℕ → ℕ → Dims → Coords → gpu.World → Option (ℤ × ℤ × gpu.World)
  launch_case s fn buf d at w =
      let (launch_ret, w1) =
        gpu.module_launch_kernel s.module_launch_kernel fn
          (buf ∷ d.z ∷ d.h ∷ d.w ∷ d.c ∷ at.z ∷ at.y ∷ at.x ∷ at.c ∷ []) w in
      if s.device_synchronize == 0
      then none
      else elim (gpu.device_synchronize s.device_synchronize w1) [
        | none ↦ none
        | some (sync_ret, w2) ↦ some (launch_ret, sync_ret, w2)
      ]

  unfoldable pub run_cases : Symbols → ℕ → ℕ → Program gpu.World (List (ℤ × ℤ))
  unfolding launch_case
  run_cases s fn buf w = elim (sweep (launch_case s fn buf) cases w) [
    | none ↦ none
    | some (codes, w') ↦ some (some codes, w')
  ]

  -- `main`, with the codes that it prints; it exits with 0.
  unfoldable pub main : Program gpu.World (List (ℤ × ℤ))
  unfolding start_device compile_kernel load_kernel malloc_buffer run_cases free_buffer
  main = do
    s ← start_device gpu
    _ ← compile_kernel
    fn ← load_kernel s
    buf ← malloc_buffer s
    codes ← run_cases s fn buf
    _ ← free_buffer gpu s buf
    pure codes
