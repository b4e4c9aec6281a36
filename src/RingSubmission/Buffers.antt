-- ===== src/RingSubmission/Buffers.antt =====
-- windows-runtime-bridge/investigations/faithful_submission_probe.c and readback_coherency_probe.c: what
-- they use of D3D12 besides the queue, a parameter of both.
use dlssnr_on_amd_linux.Common.{ℕ, Option}
use dlssnr_on_amd_linux.RingSubmission.{Queue}

-- The library, the device and the two buffers. A write and a read name the element of the buffer.
pub record Buffers (queue : Queue) : Type 0 where
  pub load_library : queue.World → Option queue.World
  pub create_device : queue.World → Option queue.World
  pub create_queue : queue.World → Option queue.World
  -- The first `Close` of the list, whose result is not looked at.
  pub close_unchecked : ℕ → queue.World → queue.World
  pub create_upload : queue.World → Option queue.World
  pub create_readback : queue.World → Option queue.World
  pub map_upload : queue.World → Option queue.World
  pub write_upload : ℕ → ℕ → queue.World → queue.World
  pub unmap_upload : queue.World → queue.World
  pub map_readback : queue.World → Option queue.World
  pub read_back : ℕ → queue.World → ℕ
  pub unmap_readback : queue.World → queue.World
  pub release : queue.World → queue.World
