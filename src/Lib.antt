-- ===== src/Lib.antt =====
-- The HIP bridge of windows-runtime-bridge: a Windows DLL that a program under Wine loads as its HIP
-- runtime, and the native library that hands its calls to the real HIP runtime of the host.
--
-- The parts and the files that model them:
--
-- - Common: names of the libraries passed on, Boolean tests, lists indexed by native numbers, C
--   integers (an `int` is a ℤ), byte strings.
-- - Registry: windows-runtime-bridge/hip-unixlib/registry.c. Registry.Table is the shape that its
--   three tables share, an array with a count. A `Registry` holds the static variables, and
--   `registry_reset`, `registry_add_*` and `registry_find_*` are the functions of the same names.
--   Registry.Bundle is `resolve_bundle_ptr`, over a partial memory of bytes. Registry.Lookup and
--   Registry.Refinement hold the proofs.
-- - AllocCap: windows-runtime-bridge/hip-unixlib/alloc_cap.c, one function for each of its functions.
--   Sizes and the total are 64-bit, so sums are taken modulo 2 ^ 64. AllocCap.Entries,
--   AllocCap.Totals and AllocCap.Limit hold the proofs.
-- - Forward: version_query.c, hip_forward.c, last_error.c and memcpy_kind.c beside them.
-- - ExtMem: ext_mem.h and ext_mem.c. The union of a handle descriptor is kept as its two 8-byte words.
-- - SnapshotGate: windows-runtime-bridge/investigations/snapshot_gate.c.
-- - RingSubmission: the ring of command lists in
--   windows-runtime-bridge/investigations/faithful_submission_probe.c, over a Queue of what D3D12
--   does; `none` is an exit of that program. RingSubmission.Readback is the comparison
--   of what is read back, RingSubmission.Slots and RingSubmission.Reuse the proofs on the ring, RingSubmission.Probe the main
--   of that program, over the Buffers of RingSubmission.Buffers.
--   RingSubmission.FullWait is the wait of readback_coherency_probe.c beside it.
-- - ReadbackCoherency: the main of windows-runtime-bridge/investigations/readback_coherency_probe.c,
--   over the same Queue and Buffers; ReadbackCoherency.Cycles holds its proofs.
-- - IndexProbe: the flat index and the sweep of
--   windows-runtime-bridge/investigations/index_overflow_probe.c, with the launch as a parameter.
-- - KernelProbes: what index_overflow_probe.c, raw_pointer_fault_probe.c, fp8_kernel_probe.c and
--   wmma_fp8_probe.c beside it share, over a Gpu of what the dynamic linker, comgr and the runtime
--   do. KernelProbes.Index, KernelProbes.RawPointer, KernelProbes.Fp8 and KernelProbes.Wmma are
--   their mains; `none` is a crash (a call through NULL, one inside comgr, or an abort
--   by the runtime after a fault of the GPU), and `some (none, w)` an exit with code 1.
--   KernelProbes.Outcome, KernelProbes.Index.Sweep and KernelProbes.Launches hold proofs.
-- - SubmissionTiming: windows-runtime-bridge/investigations/submission_timing_probe.c, over a Machine
--   of what D3D12, the counter and the mapped buffer do; `main` is its main, and `Poll` holds the
--   variables of its loop. SubmissionTiming.Budget, SubmissionTiming.Order, SubmissionTiming.Seen,
--   SubmissionTiming.Missed, SubmissionTiming.Resolution and SubmissionTiming.Verdict hold the
--   proofs. There `none` is an exit with code 1, or a wait that never ends.
-- - Host: what the native side calls and does not implement, as one record of operations: getenv,
--   setenv, strtoull, dlopen, dlsym, the mapped memory, and the functions of the HIP runtime. A
--   theorem holds for every Host, and the tests give a concrete one.
-- - Native: windows-runtime-bridge/hip-unixlib/native.c. A `Native` holds its static variables and the
--   world of the Host; `ensure_loaded` is the loading of the runtime. Native.Args and Native.Structs
--   are the argument structs of unixlib.h; Native.Queries, Native.Memory, Native.Modules and
--   Native.Interop are the 29 handlers `unix_*`, each a function from the struct and the state to
--   both; Native.Dispatch is `__wine_unix_call_funcs` and the call by number. Native.Limit.Threads is
--   a step relation of threads that share the table of allocations, which no lock guards. The other
--   files below Native hold proofs: Native.Changes gives the changes that each call may make, and
--   from them the invariant of the native state.
-- - Pe: windows-runtime-bridge/hip-unixlib/pe_shim.c. A `Process` holds its static variables and, as
--   both sides live in one process, the native state. Pe.Config, Pe.Registration, Pe.Device, Pe.Memory
--   and Pe.Interop are the exported functions (`hip_malloc` is hipMalloc), each over a call of the
--   native side; Pe.Api makes the functions that return a code one type of calls. Pe.Program
--   makes all exported functions one type, so that a program is a list of calls. Pe.Program's
--   children, Pe.Stack, Pe.Sticky, Pe.Launch, Pe.EndToEnd and Pe.WithoutRuntime hold proofs.
-- - Tests: a concrete host, and the theorems applied on it.
--
-- A function that runs on the state returns its result and the new state. `none` is a fault: a read
-- of memory that is not mapped, or a handler given a struct that is not its own. A pointer is a
-- number and NULL is 0; an out-pointer of the Windows side is the old content of its cell, or `none`
-- for NULL. The loops run over arrays of fixed size (16, 256, 32 and 4096 slots, 64 lists, 13 names
-- of libraries, 8 slots of the ring) by recursion on the number of rounds left. The polling loop of
-- SubmissionTiming alone runs on fuel: with a clock that moves at each reading, more fuel than the
-- readings that fit into a second is enough.
--
-- Not modelled: logging; the mutexes and the critical section, so a step is a whole call and calls of
-- several threads come one after the other, but for the table of allocations, where a step is a call
-- of alloc_cap.c; two calls of alloc_cap.c that overlap; the reserved words of the descriptors; the ignored
-- parameters of __hipRegisterFunction; DllMain; the reading of the logs of comgr in
-- the probes; windows-runtime-bridge/investigations/rocm_probe.c, which prints what the runtime
-- returns; the superseded Rust programs in windows-runtime-bridge/hip-bridge and
-- windows-runtime-bridge/hip-stub; the patches and scripts.
pub mod Common
pub mod Registry
pub mod AllocCap
pub mod Forward
pub mod ExtMem
pub mod SnapshotGate
pub mod RingSubmission
pub mod IndexProbe
pub mod SubmissionTiming
pub mod ReadbackCoherency
pub mod KernelProbes
pub mod Host
pub mod Native
pub mod Pe
mod Tests
