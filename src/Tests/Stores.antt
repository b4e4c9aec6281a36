-- ===== src/Tests/Stores.antt =====
-- Tests of the registry, the table of allocations, the descriptors and the gate.
use dlssnr_on_amd_linux.Common.{
  ℕ, pos, negsuc, ◌+◌, ◌*◌, ◌^◌, ◌≡◌, ◌≢◌, ◌↔◌, ◌⊎◌, ◌≤◌, ◌<◌, ◌-◌, ltb, get_elem?, replicate, refl,
  arith, true, false, none, some, List, [], ◌∷◌, codes, length, take, if◌then◌else◌, ◌==◌,
}
use dlssnr_on_amd_linux.AllocCap
use dlssnr_on_amd_linux.AllocCap.{
  AllocCap, alloc_cap_record, alloc_cap_release, alloc_cap_would_exceed, alloc_cap_total,
}
use dlssnr_on_amd_linux.AllocCap.Entries.{
  Releases, alloc_cap_release-Releases, alloc_cap_record-IsSized, initial-IsSized,
}
use dlssnr_on_amd_linux.AllocCap.Totals.{IsCounted}
use dlssnr_on_amd_linux.AllocCap.Limit
use dlssnr_on_amd_linux.AllocCap.Limit.{
  record_alloc, release, run-initial-IsCounted, alloc_cap_would_exceed_wraps,
  alloc_cap_record_full_undercounts,
}
use dlssnr_on_amd_linux.ExtMem.{HipExtMemHandleDesc, set_handle_fd, hip_ext_mem_extract_fd}
use dlssnr_on_amd_linux.ExtMem.Handle.{extract_fd-set_handle_fd}
use dlssnr_on_amd_linux.SnapshotGate.{snapshot_batch_match}
use dlssnr_on_amd_linux.SnapshotGate.Laws.{IsLastOnce, snapshot_batch_match_iff}
use dlssnr_on_amd_linux.Registry.Table
use dlssnr_on_amd_linux.Registry.Bundle.{
  Memory, magic, HoldsAt, memcmp_eq, load_bytes, memcmp_eq_sound, resolve_bundle_ptr,
  resolve_bundle_ptr_sound, resolve_bundle_ptr-wrapper,
}
use dlssnr_on_amd_linux.Registry
use dlssnr_on_amd_linux.Registry.{
  FatbinEntry, FunctionEntry, VarEntry, registry_find_module, registry_find_function,
  registry_find_function_name, registry_find_var, registry_add_fatbin, registry_add_function,
  registry_add_var, stored_name,
}
use dlssnr_on_amd_linux.Registry.Lookup.{stored_name_fits, IsText}
use dlssnr_on_amd_linux.Registry.Refinement.{
  Op, add_fatbin, add_function, add_var, run, spec_run, empty, Reads, find-run,
}

-- A fat binary, a kernel of it, and a second module under the same token.
abbrev session : List Op
session =
    add_fatbin 10 800
    ∷ add_function 20 900 (some (codes "kernel"))
    ∷ add_fatbin 10 801
    ∷ add_var 30 1000
    ∷ []

find-run_example : Reads (run session Registry.initial) (spec_run session empty) 10
find-run_example = find-run session 10

-- The older module stays.
module_kept :
    registry_find_module 10
      (registry_add_fatbin 10 801 (registry_add_fatbin 10 800 Registry.initial).1).1
    ≡ 800
unfolding registry_find_module registry_add_fatbin Registry.initial Table.find Table.add
module_kept = refl

kernel-IsText : IsText (codes "_Z3addPf")
kernel-IsText = ground arith

stored_name_fits_example :
    (stored_name (some (codes "_Z3addPf")) ≡ take 127 (codes "_Z3addPf"))
    × (length (stored_name (some (codes "_Z3addPf"))) + 1 ≤ 128)
    × IsText (stored_name (some (codes "_Z3addPf")))
stored_name_fits_example = stored_name_fits (codes "_Z3addPf") kernel-IsText

-- A bundle at 16, and a wrapper at 100 whose data field holds 16; address 0 is not mapped.
abbrev memory : Memory
memory a =
    if ltb a 16
    then none
    else if ltb a 40
    then get_elem? magic (a - 16)
    else if a == 108
    then some 16
    else some 0

bundle-HoldsAt : HoldsAt memory 16 magic
unfolding memcmp_eq
bundle-HoldsAt = memcmp_eq_sound memory 16 magic refl

wrapper_differs : ¬ HoldsAt memory 100 magic
unfolding HoldsAt
wrapper_differs h = ground (arith, h.0)

wrapper_mapped : memcmp_eq memory 100 magic ≢ none
unfolding memcmp_eq
wrapper_mapped = ground arith

wrapper_loaded : load_bytes memory (100 + 8) 8 ≡ some 16
unfolding load_bytes
wrapper_loaded = refl

resolve_bundle_ptr-wrapper_example : resolve_bundle_ptr memory 100 ≡ some 16
resolve_bundle_ptr-wrapper_example =
    resolve_bundle_ptr-wrapper memory 100 16 wrapper_mapped wrapper_differs wrapper_loaded
      (omega arith) bundle-HoldsAt

wrapper_resolves : resolve_bundle_ptr memory 100 ≡ some 16
unfolding resolve_bundle_ptr memcmp_eq load_bytes
wrapper_resolves = refl

resolve_bundle_ptr_sound_example : (◌≡◌ {A = ℕ} 16 0) ⊎ HoldsAt memory 16 magic
resolve_bundle_ptr_sound_example = resolve_bundle_ptr_sound memory 100 16 wrapper_resolves

-- One allocation of 100 bytes.
abbrev one_alloc : AllocCap
one_alloc = (alloc_cap_record 4096 100 AllocCap.initial).1

alloc_cap_release-Releases_example : Releases 4096 one_alloc (alloc_cap_release 4096 one_alloc)
alloc_cap_release-Releases_example =
    alloc_cap_release-Releases 4096 one_alloc
      (alloc_cap_record-IsSized 4096 100 AllocCap.initial initial-IsSized) (omega arith)

run-initial-IsCounted_example : IsCounted (
    AllocCap.Limit.run
      (record_alloc 4096 100 ∷ record_alloc 8192 50 ∷ release 4096 ∷ [])
      AllocCap.initial)
run-initial-IsCounted_example =
    run-initial-IsCounted (record_alloc 4096 100 ∷ record_alloc 8192 50 ∷ release 4096 ∷ [])
      (omega arith, (omega arith, tt))

alloc_cap_would_exceed_wraps_example :
    (alloc_cap_would_exceed 900 (2 ^ 64 - 1) 1000 ≡ false) × (1000 < 900 + (2 ^ 64 - 1))
alloc_cap_would_exceed_wraps_example =
    alloc_cap_would_exceed_wraps 900 (2 ^ 64 - 1) 1000 (omega arith) (omega arith) (omega arith)
      (omega arith) (omega arith)

-- A table that is full of allocations of one byte.
abbrev full_table : AllocCap
full_table = record {
  allocs = replicate 4096 (record { ptr = 4096; size = 1 });
  alloc_count = 4096;
  total_bytes = 4096;
}

full_room : alloc_cap_total full_table + 500 ≤ 5000
unfolding alloc_cap_total
full_room = omega arith

full_over : 5000 < alloc_cap_total full_table + 800 + 500
unfolding alloc_cap_total
full_over = omega arith

alloc_cap_record_full_undercounts_example :
    alloc_cap_would_exceed (alloc_cap_total (alloc_cap_record 8192 800 full_table).1) 500 5000
    ≡ false
alloc_cap_record_full_undercounts_example =
    alloc_cap_record_full_undercounts 8192 800 500 5000 full_table (omega arith) (omega arith)
      full_room full_over

snapshot_batch_match_iff_example :
    (snapshot_batch_match 1 1 30 (some (10 ∷ 20 ∷ 30 ∷ [])) 3 ≡ true)
    ↔ ((◌≢◌ {A = ℕ} 30 0) × (3 ≤ 64) × (◌≡◌ {A = ℕ} 1 1) × IsLastOnce 30 (10 ∷ 20 ∷ 30 ∷ []))
snapshot_batch_match_iff_example = snapshot_batch_match_iff 1 1 30 (10 ∷ 20 ∷ 30 ∷ [])

-- A descriptor whose handle is the file descriptor 42, under garbage in the upper half.
abbrev smuggling : HipExtMemHandleDesc
smuggling = record { type = pos 5; handle = 3 * 2 ^ 32 + 42; name = 0; size = 4096; flags = 0 }

abbrev opaque : HipExtMemHandleDesc
opaque = record { type = pos 1; handle = 77; name = 0; size = 4096; flags = 0 }

extract_fd-set_handle_fd_example :
    hip_ext_mem_extract_fd (some (set_handle_fd (negsuc 0) opaque)) ≡ negsuc 0
extract_fd-set_handle_fd_example = extract_fd-set_handle_fd (negsuc 0) opaque (omega arith) refl
