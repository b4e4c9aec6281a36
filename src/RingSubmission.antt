-- ===== src/RingSubmission.antt =====
-- windows-runtime-bridge/investigations/faithful_submission_probe.c: the ring of eight command lists
-- with a fence. What D3D12 does is a parameter, `Queue`; the allocator and the list of a slot are
-- named by the slot, and `none` is an exit of the program: a call that failed, or a wait that timed
-- out.
pub mod Slots
pub mod Reuse
pub mod Readback
pub mod FullWait
pub mod Buffers
pub mod Probe
use dlssnr_on_amd_linux.Common.{
  ℕ, zero, suc, ◌+◌, ◌*◌, ◌%◌, ◌^◌, Bool, Option, none, some, ◌>>=◌, List, [], ◌∷◌, leb, ◌==◌,
  get_or, set, replicate, if◌then◌else◌,
}
use dlssnr_on_amd_linux.SnapshotGate.{snapshot_batch_match}

abbrev pub ring_slots : ℕ
ring_slots = 8

-- The device, the queue and the fence. A `World` is their state.
pub record Queue : Type 1 where
  pub World : Type 0
  pub thread : ℕ
  pub lists : ℕ → ℕ
  pub completed : World → ℕ
  pub wait : ℕ → World → Option World
  pub get_device : World → Option World
  pub create_fence : World → Option World
  pub create_event : World → World
  pub create_allocator : ℕ → World → Option World
  pub create_list : ℕ → World → Option World
  pub reset_allocator : ℕ → World → Option World
  pub reset_list : ℕ → World → Option World
  pub copy : ℕ → ℕ → World → World
  pub close : ℕ → World → Option World
  pub execute : ℕ → World → World
  pub signal : ℕ → World → Option World

-- `struct RingSubmission`, without what stands in the queue.
pub record RingSubmission : Type 0 where
  pub value : ℕ
  pub ring_values : List ℕ

module _ (queue : Queue) where
  unfoldable pub ring_wait_value : ℕ → queue.World → Option queue.World
  ring_wait_value target w = if leb target (queue.completed w) then some w else queue.wait target w

  -- The loop over the slots, over the rounds left.
  unfoldable pub create_slots : ℕ → ℕ → queue.World → Option queue.World
  create_slots i zero w = some w
  create_slots i (suc rounds) w = do
    w1 ← queue.create_allocator i w
    w2 ← queue.create_list i w1
    w3 ← queue.close i w2
    create_slots (suc i) rounds w3

  unfoldable pub ring_create : queue.World → Option (RingSubmission × queue.World)
  unfolding create_slots
  ring_create w = do
    w1 ← queue.get_device w
    w2 ← queue.create_fence w1
    w3 ← create_slots 0 ring_slots (queue.create_event w2)
    some (record { value = 0; ring_values = replicate ring_slots 0 }, w3)

  -- The wait before a slot is used again.
  unfoldable pub slot_ready : RingSubmission → queue.World → Option queue.World
  unfolding ring_wait_value
  slot_ready r w =
      let used = get_or r.ring_values (r.value % ring_slots) 0 in
      if used == 0 then some w else ring_wait_value used w

  -- The new fence value.
  unfoldable pub next_value : RingSubmission → ℕ
  next_value r = (r.value + 1) % 2 ^ 64

  -- The commands and the submission of a slot.
  unfoldable pub record_slot : ℕ → ℕ → ℕ → queue.World → Option queue.World
  record_slot slot offset value w = do
    w1 ← queue.reset_allocator slot w
    w2 ← queue.reset_list slot w1
    w3 ← queue.close slot (queue.copy slot offset w2)
    queue.signal value (queue.execute slot w3)

  -- The fence value, what the gate says, and the state.
  unfoldable pub ring_submit :
      RingSubmission → ℕ → queue.World → Option ((ℕ × Bool) × RingSubmission × queue.World)
  unfolding slot_ready record_slot next_value
  ring_submit r offset w = do
    w1 ← slot_ready r w
    w2 ← record_slot (r.value % ring_slots) offset (next_value r) w1
    some (
      (
        next_value r,
        snapshot_batch_match queue.thread queue.thread (queue.lists (r.value % ring_slots))
            (some (queue.lists (r.value % ring_slots) ∷ [])) 1,
      ),
      record {
        value = next_value r;
        ring_values = set r.ring_values (r.value % ring_slots) (next_value r);
      },
      w2,
    )

  unfoldable pub ring_flush : RingSubmission → queue.World → Option queue.World
  unfolding ring_wait_value
  ring_flush r w = if r.value == 0 then some w else ring_wait_value r.value w

  -- The loop of `main` over the submissions, over the rounds left: the count of gate failures.
  unfoldable pub submit_all :
      ℕ → ℕ → RingSubmission → queue.World → Option (ℕ × RingSubmission × queue.World)
  submit_all i zero r w = some (0, r, w)
  submit_all i (suc rounds) r w = do
    ((value, gate_ok), r', w') ← ring_submit r (i * 4) w
    (failures, r'', w'') ← submit_all (suc i) rounds r' w'
    some ((if gate_ok then failures else failures + 1), r'', w'')
