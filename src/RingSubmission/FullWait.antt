-- ===== src/RingSubmission/FullWait.antt =====
-- windows-runtime-bridge/investigations/readback_coherency_probe.c: the wait for the whole queue, over
-- the same Queue; its wait has no time limit, so that `none` is there a wait that never ends.
use dlssnr_on_amd_linux.Common.{
  ℕ, ◌+◌, ◌%◌, ◌^◌, ◌≤◌, ◌<◌, ◌≡◌, refl, arith, Option, some, ◌>>=◌, ltb, if◌then◌else◌, Bool-cases,
  inl, inr,
}
use dlssnr_on_amd_linux.RingSubmission.{Queue}
use dlssnr_on_amd_linux.RingSubmission.Reuse.{IsWorking}

module _ (queue : Queue) where
  -- The part after the fence value was signalled.
  unfoldable pub wait_unless_done : ℕ → queue.World → Option queue.World
  wait_unless_done value w = if ltb (queue.completed w) value then queue.wait value w else some w

  -- The new value of the counter, and the world.
  unfoldable pub wait_for_queue : ℕ → queue.World → Option (ℕ × queue.World)
  unfolding wait_unless_done
  wait_for_queue value w = do
    w1 ← queue.signal ((value + 1) % 2 ^ 64) w
    w2 ← wait_unless_done ((value + 1) % 2 ^ 64) w1
    some ((value + 1) % 2 ^ 64, w2)

  wait_unless_done_ends :
      (value : ℕ) (w : queue.World)
      → (works : IsWorking queue) → value ≤ works.signalled w
      → (w' : queue.World) × (wait_unless_done value w ≡ some w') × (value ≤ queue.completed w')
  unfolding wait_unless_done
  wait_unless_done_ends value w works told = elim (Bool-cases (ltb (queue.completed w) value)) [
    | inl early ↦
        let (w', e, reached, later, same, kept) = works.wait value w told in
        (w', rw early e, reached)
    | inr done ↦ (w, rw done refl, ground arith)
  ]

  pub answered :
      (value : ℕ) (w w1 w2 : queue.World)
      → value + 1 < 2 ^ 64
      → queue.signal (value + 1) w ≡ some w1
      → wait_unless_done (value + 1) w1 ≡ some w2
      → wait_for_queue value w ≡ some (value + 1, w2)
  unfolding wait_for_queue
  answered value w w1 w2 small e1 e2 =
      let word : (value + 1) % 2 ^ 64 ≡ value + 1 = omega arith in rw (word, e1, e2) refl

  -- On a working queue, the wait for the whole queue returns the next fence value, if that is below
  -- 2 ^ 64, in a world where the fence has reached it.
  pub wait_for_queue_ends :
      (value : ℕ) (w : queue.World)
      → IsWorking queue
      → value + 1 < 2 ^ 64
      → (w' : queue.World) × (wait_for_queue value w ≡ some (value + 1, w'))
        × (value + 1 ≤ queue.completed w')
  wait_for_queue_ends value w works small =
      let (w1, e1, later, told, kept) = works.signal (value + 1) w in
      let (w2, e2, reached) = wait_unless_done_ends (value + 1) w1 works (omega arith) in
      (w2, answered value w w1 w2 small e1 e2, reached)
