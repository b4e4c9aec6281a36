-- ===== src/ReadbackCoherency/Cycles.antt =====
-- windows-runtime-bridge/investigations/readback_coherency_probe.c: on a queue that works and memory
-- that is coherent, the probe passes.
use dlssnr_on_amd_linux.Common.{ℕ, ◌≤◌, ◌≡◌, Bool, true, some}
use dlssnr_on_amd_linux.RingSubmission.{Queue}
use dlssnr_on_amd_linux.RingSubmission.Buffers.{Buffers}
use dlssnr_on_amd_linux.RingSubmission.Reuse.{IsWorking}

-- What D3D12 documents of a copy: a submitted list takes what the upload buffer holds, and once the
-- fence has reached the value that was signalled after it, the CPU reads that in the other buffer.
-- `upload` is what the upload buffer holds, `recorded` whether the list holds the copy, and `target`
-- what the last submission writes.
pub record IsCoherent (queue : Queue) (buffers : Buffers queue) (works : IsWorking queue)
    : Type 0 where
  pub upload : queue.World → ℕ
  pub recorded : queue.World → Bool
  pub target : queue.World → ℕ
  pub map_upload : (w : queue.World) → (w' : queue.World) × (buffers.map_upload w ≡ some w')
  pub written :
      (v : ℕ) (w : queue.World) → upload (buffers.unmap_upload (buffers.write_upload 0 v w)) ≡ v
  pub reset_allocator :
      (w w' : queue.World) → queue.reset_allocator 0 w ≡ some w' → upload w' ≡ upload w
  pub reset_list : (w w' : queue.World) → queue.reset_list 0 w ≡ some w' → upload w' ≡ upload w
  pub copy :
      (w : queue.World)
      → (upload (queue.copy 0 0 w) ≡ upload w) × (recorded (queue.copy 0 0 w) ≡ true)
  pub close :
      (w w' : queue.World)
      → queue.close 0 w ≡ some w'
      → (upload w' ≡ upload w) × (recorded w' ≡ recorded w)
  pub execute : (w : queue.World) → recorded w ≡ true → target (queue.execute 0 w) ≡ upload w
  pub signal : (v : ℕ) (w w' : queue.World) → queue.signal v w ≡ some w' → target w' ≡ target w
  pub wait : (v : ℕ) (w w' : queue.World) → queue.wait v w ≡ some w' → target w' ≡ target w
  pub map_readback :
      (w : queue.World)
      → (w' : queue.World) × (buffers.map_readback w ≡ some w')
        × (target w' ≡ target w)
        × (works.signalled w' ≡ works.signalled w)
        × (queue.completed w ≤ queue.completed w')
  pub visible :
      (w : queue.World) → works.signalled w ≤ queue.completed w → buffers.read_back 0 w ≡ target w
