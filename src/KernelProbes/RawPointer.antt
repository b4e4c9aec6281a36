-- ===== src/KernelProbes/RawPointer.antt =====
-- windows-runtime-bridge/investigations/raw_pointer_fault_probe.c, `main`: a kernel that writes through
-- an address which was never allocated, after one that writes to a buffer. What fails is printed, and
-- the probe goes on; the reading of comgr's logs is left out.
use dlssnr_on_amd_linux.Common.{
  ℕ, ℤ, not, ◌==◌, Option, none, some, List, [], ◌∷◌, String, if◌then◌else◌,
}
use dlssnr_on_amd_linux.KernelProbes.{
  Gpu, Program, ◌>>=◌, pure, require, through, Symbols, ComgrCall, create_data, set_data,
  set_data_name, data_set_add, create_action_info, set_language, set_isa_name, set_logging,
  create_data_set, do_action, action_data_count, action_data_get_data, get_data_size,
  get_data_bytes, input, bc, linked_bc, reloc, exec, compile_source_with_device_libs_to_bc,
  link_bc_to_bc, codegen_bc_to_relocatable, link_relocatable_to_executable, start_device,
  run_logged, require_executable, free_buffer,
}

abbrev pub compile_calls : List ComgrCall
compile_calls =
    create_data
    ∷ set_data
    ∷ set_data_name
    ∷ create_data_set input
    ∷ data_set_add
    ∷ create_action_info
    ∷ set_language
    ∷ set_isa_name
    ∷ set_logging
    ∷ create_data_set bc
    ∷ do_action compile_source_with_device_libs_to_bc input bc
    ∷ create_data_set linked_bc
    ∷ do_action link_bc_to_bc bc linked_bc
    ∷ create_data_set reloc
    ∷ do_action codegen_bc_to_relocatable linked_bc reloc
    ∷ create_data_set exec
    ∷ do_action link_relocatable_to_executable reloc exec
    ∷ action_data_count
    ∷ []

abbrev pub read_calls : List ComgrCall
read_calls = action_data_get_data ∷ get_data_size ∷ get_data_bytes ∷ []

-- `0x100000000`
abbrev pub bad_ptr : ℕ
bad_ptr = 4294967296

module _ (gpu : Gpu) where
  unfoldable pub compile_kernels : Program gpu.World (Unit {0})
  compile_kernels = do
    _ ← run_logged gpu compile_calls
    _ ← require_executable gpu
    run_logged gpu read_calls

  -- The kernel of that name, NULL where the lookup fails.
  unfoldable pub get_function : Symbols → ℕ → String → Program gpu.World ℕ
  get_function s module_ name w =
      let (ret, fn, w') = gpu.module_get_function s.module_get_function module_ name w in
      some (some fn, w')

  unfoldable pub load_module : Symbols → Program gpu.World ℕ
  load_module s = do
    module_ ← λ w.
        let (ret, module_, w') = gpu.module_load_data s.module_load_data w in
        some (some module_, w')
    _ ← require (not (module_ == 0))
    pure module_

  unfoldable pub malloc_out : Symbols → Program gpu.World ℕ
  malloc_out s =
      through s.malloc (λ malloc w. let (ret, dev_out, w') = gpu.malloc malloc 4 w in (dev_out, w'))

  -- A launch with one pointer, and the wait: their codes. The process may be aborted in the wait.
  unfoldable pub launch : Symbols → ℕ → ℕ → Program gpu.World (ℤ × ℤ)
  launch s fn ptr w =
      let (launch_ret, w1) = gpu.module_launch_kernel s.module_launch_kernel fn (ptr ∷ []) w in
      if s.device_synchronize == 0
      then none
      else elim (gpu.device_synchronize s.device_synchronize w1) [
        | none ↦ none
        | some (sync_ret, w2) ↦ some (some (launch_ret, sync_ret), w2)
      ]

  -- `if (fn_touch) { ... }`: the buffer is written and copied back.
  unfoldable pub touch : Symbols → ℕ → ℕ → Program gpu.World (Option (ℤ × ℤ))
  unfolding launch
  touch s fn dev_out w =
      if fn == 0
      then some (some none, w)
      else (launch s fn dev_out >>= (λ codes. through s.memcpy (λ memcpy w'.
            let (ret, w'') = gpu.memcpy_to_host memcpy dev_out 4 w' in (some codes, w''))))
          w

  -- `if (fn_raw) { ... }`
  unfoldable pub write_raw : Symbols → ℕ → Program gpu.World (Option (ℤ × ℤ))
  unfolding launch
  write_raw s fn w =
      if fn == 0
      then some (some none, w)
      else (launch s fn bad_ptr >>= (λ codes. pure (some codes))) w

  -- The way from the library to the module and the buffer, around what is done with them. The probe
  -- exits with 0.
  unfoldable pub with_module :
      {R : Type 0} → (Symbols → ℕ → ℕ → Program gpu.World R) → Program gpu.World R
  unfolding start_device compile_kernels load_module malloc_out free_buffer
  with_module run = do
    s ← start_device gpu
    _ ← compile_kernels
    module_ ← load_module s
    dev_out ← malloc_out s
    codes ← run s module_ dev_out
    _ ← free_buffer gpu s dev_out
    pure codes

  -- Both kernels, each looked up and launched.
  unfoldable pub run_kernels : Symbols → ℕ → ℕ → Program gpu.World (Option (ℤ × ℤ) × Option (ℤ × ℤ))
  unfolding get_function touch write_raw
  run_kernels s module_ dev_out = do
    fn_touch ← get_function s module_ "kernel_touch"
    touched ← touch s fn_touch dev_out
    fn_raw ← get_function s module_ "kernel_write_raw_ptr"
    written ← write_raw s fn_raw
    pure (touched, written)

  -- `main`, with the codes of both launches.
  unfoldable pub main : Program gpu.World (Option (ℤ × ℤ) × Option (ℤ × ℤ))
  unfolding with_module run_kernels
  main = with_module run_kernels
