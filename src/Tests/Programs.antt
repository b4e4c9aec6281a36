-- ===== src/Tests/Programs.antt =====
-- Tests of programs of exported functions, and of threads under the limit, on the concrete host.
use dlssnr_on_amd_linux.Common.{
  ℕ, ◌+◌, ◌*◌, ◌≤◌, ◌≡◌, refl, arith, pos, some, false, List, [], ◌∷◌, codes,
}
use dlssnr_on_amd_linux.AllocCap.{alloc_cap_total}
use dlssnr_on_amd_linux.AllocCap
use dlssnr_on_amd_linux.AllocCap.Entries.{outstanding}
use dlssnr_on_amd_linux.AllocCap.Totals.{sizes}
use dlssnr_on_amd_linux.Native.Args.{ArgsMalloc}
use dlssnr_on_amd_linux.Native.Structs.{malloc_struct}
use dlssnr_on_amd_linux.Native.Dispatch.{HipUnixCall, unix_call}
use dlssnr_on_amd_linux.Native.Changes.{Leads}
use dlssnr_on_amd_linux.Native.Changes.Calls.{unix_call-Leads}
use dlssnr_on_amd_linux.Native.Limit.Threads.{
  Shared, start, Reach, admit, complete, stay, then_, Reach-within,
}
use dlssnr_on_amd_linux.Native.Limit.Race.{race_exceeds}
use dlssnr_on_amd_linux.Pe.Api
use dlssnr_on_amd_linux.Pe.Program.{
  Export, run_program, api, register_fat_binary, register_function, get_error_string,
}
use dlssnr_on_amd_linux.Pe.Program.Runs.{Ends, run_program-Ends}
use dlssnr_on_amd_linux.Tests.{toy_host, loaded, fresh}

abbrev asked : ArgsMalloc
asked = record { ptr = 0; size = 400; ret = pos 0 }

unix_call-Leads_example :
    Leads toy_host HipUnixCall.malloc 400 loaded
      (unix_call toy_host HipUnixCall.malloc malloc_struct asked loaded)
unix_call-Leads_example = unix_call-Leads toy_host HipUnixCall.malloc malloc_struct asked loaded

-- The fat binary is mapped and all zeroes.
abbrev program : List (Export ℕ)
program =
    register_fat_binary 10
    ∷ register_function 10 20 (some (codes "kernel"))
    ∷ api (Api.malloc (some 0) 4096)
    ∷ api (Api.free 4096)
    ∷ api (Api.memset 64 (pos 0) 16)
    ∷ get_error_string (pos 100)
    ∷ []

run_program-Ends_example : Ends toy_host program fresh (run_program toy_host program fresh)
run_program-Ends_example =
    run_program-Ends toy_host program 0 (tt, (tt, (omega arith, (tt, (tt, (tt, tt))))))

-- Two threads ask for 600 bytes each, and both are admitted.
abbrev both_in : Shared
both_in = record {
  alloc_cap = (AllocCap.alloc_cap_record 8 600 AllocCap.initial).1;
  pending = 600 ∷ [];
}

not_full : AllocCap.alloc_cap_would_exceed (alloc_cap_total AllocCap.initial) 600 1000 ≡ false
unfolding AllocCap.alloc_cap_would_exceed alloc_cap_total AllocCap.initial
not_full = refl

Reach-within_example : sizes (outstanding both_in.alloc_cap) + 600 ≤ 1000 + 2 * 600
Reach-within_example = Reach-within 1000 2 600 both_in (omega arith) (omega arith) (omega arith) (
    then_ (admit 600 (omega arith) (omega arith) not_full) (
      then_ (admit 600 (omega arith) (omega arith) not_full)
        (then_ (complete 8 600 [] (600 ∷ []) refl) stay)))

race_exceeds_example :
    (t : Shared) × Reach 1000 2 1000 start t × (alloc_cap_total t.alloc_cap ≡ 1000 + 1000)
race_exceeds_example =
    race_exceeds 1000 8 16 (omega arith) (omega arith) (omega arith) (omega arith)
