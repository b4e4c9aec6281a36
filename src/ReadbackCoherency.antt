-- ===== src/ReadbackCoherency.antt =====
-- windows-runtime-bridge/investigations/readback_coherency_probe.c: 200 cycles of a GPU write, a wait
-- for the whole queue and a CPU read. What D3D12 does is the Queue of RingSubmission, with the
-- buffers beside it; `none` is an exit of the program with code 1.
pub mod Cycles
use dlssnr_on_amd_linux.Common.{
  ℕ, zero, suc, ◌+◌, ◌%◌, ◌^◌, Option, none, some, ◌>>=◌, ◌==◌, if◌then◌else◌,
}
use dlssnr_on_amd_linux.RingSubmission.{Queue}
use dlssnr_on_amd_linux.RingSubmission.Buffers.{Buffers}
use dlssnr_on_amd_linux.RingSubmission.Readback.{Tally, no_mismatch}
use dlssnr_on_amd_linux.RingSubmission.FullWait.{wait_for_queue}

abbrev pub iterations : ℕ
iterations = 200

-- `UINT32`
abbrev pub marker : ℕ → ℕ
marker i = (1000 + i) % 2 ^ 32

-- The comparison at the end of a cycle; the counts are `unsigned int`.
unfoldable pub check_read : ℕ → ℕ → Tally → Tally
check_read i got t = if got == marker i then t else record {
  mismatches = (t.mismatches + 1) % 2 ^ 32;
  first = if t.mismatches == 0 then some (i, marker i, got) else t.first;
}

unfoldable pub exit_code : Tally → ℕ
exit_code t = if t.mismatches == 0 then 0 else 1

module _ (queue : Queue) (buffers : Buffers queue) where
  -- A cycle up to its wait.
  unfoldable pub submit_marker : ℕ → queue.World → Option queue.World
  submit_marker i w = do
    w1 ← buffers.map_upload w
    w2 ← queue.reset_allocator 0 (buffers.unmap_upload (buffers.write_upload 0 (marker i) w1))
    w3 ← queue.reset_list 0 w2
    w4 ← queue.close 0 (queue.copy 0 0 w3)
    some (queue.execute 0 w4)

  -- The body of the loop, with the fence value.
  unfoldable pub cycle : ℕ → ℕ → Tally → queue.World → Option (ℕ × Tally × queue.World)
  unfolding submit_marker check_read
  cycle i value t w = do
    w1 ← submit_marker i w
    (value', w2) ← wait_for_queue queue value w1
    w3 ← buffers.map_readback w2
    some (value', check_read i (buffers.read_back 0 w3) t, buffers.unmap_readback w3)

  -- The loop, over the rounds left.
  unfoldable pub cycles : ℕ → ℕ → ℕ → Tally → queue.World → Option (Tally × queue.World)
  unfolding cycle
  cycles i zero value t w = some (t, w)
  cycles i (suc rounds) value t w = do
    (value', t', w') ← cycle i value t w
    cycles (suc i) rounds value' t' w'

  -- `main` up to the loop.
  unfoldable pub set_up : queue.World → Option queue.World
  set_up w = do
    w1 ← buffers.load_library w
    w2 ← buffers.create_device w1
    w3 ← buffers.create_queue w2
    w4 ← queue.create_allocator 0 w3
    w5 ← queue.create_list 0 w4
    w6 ← queue.create_fence (buffers.close_unchecked 0 w5)
    w7 ← buffers.create_upload (queue.create_event w6)
    buffers.create_readback w7

  -- `main`: the exit code with the counts.
  unfoldable pub main : queue.World → Option ((ℕ × Tally) × queue.World)
  unfolding set_up cycles exit_code
  main w = do
    w1 ← set_up w
    (t, w2) ← cycles 0 iterations 0 no_mismatch w1
    some ((exit_code t, t), buffers.release w2)
