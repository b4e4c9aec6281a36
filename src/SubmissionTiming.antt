-- ===== src/SubmissionTiming.antt =====
-- windows-runtime-bridge/investigations/submission_timing_probe.c: eight command lists that are
-- submitted without a wait, and the loop that polls for their results. What D3D12, the clock and the
-- mapped buffer do is a parameter, `Machine`; `none` is an exit of the program with code 1, or a
-- wait that never ends. A time is kept in ticks of the counter, where the source divides by the frequency in floating point.
pub mod Budget
pub mod Order
pub mod Seen
pub mod Missed
pub mod Resolution
pub mod Verdict
use dlssnr_on_amd_linux.Common.{
  ℕ, zero, suc, ◌+◌, ◌-◌, ◌*◌, ◌%◌, ◌^◌, ℤ, pos, negsuc, minus_one, Bool, true, false, not, ◌||◌,
  Option, none, some, ◌>>=◌, List, [], ◌∷◌, ltb, ◌==◌, get_or, set, replicate, if◌then◌else◌,
}

abbrev pub n_submissions : ℕ
n_submissions = 8

abbrev pub poll_budget_ms : ℕ
poll_budget_ms = 1000

abbrev pub marker : ℕ → ℕ
marker i = (7000 + i) % 2 ^ 32

-- The device with its queue and fence, the two buffers, and the counter; the allocator and the list
-- of a submission are named by its number. A `World` is their state.
pub record Machine : Type 1 where
  pub World : Type 0
  pub frequency : ℕ
  pub query_counter : World → ℕ × World
  pub load_library : World → Option World
  pub create_device : World → Option World
  pub create_queue : World → Option World
  pub create_fence : World → Option World
  pub create_event : World → World
  pub create_upload : World → Option World
  pub create_readback : World → Option World
  pub map_upload : World → Option World
  pub write_upload : ℕ → ℕ → World → World
  pub unmap_upload : World → World
  pub create_allocator : ℕ → World → Option World
  pub create_list : ℕ → World → Option World
  -- The list, and the offset in both buffers.
  pub copy : ℕ → ℕ → World → World
  pub close : ℕ → World → Option World
  pub map_readback : World → Option World
  pub read_back : ℕ → World → ℕ × World
  pub execute : ℕ → World → World
  pub signal : ℕ → World → World
  pub completed : World → ℕ
  -- The wait has no time limit.
  pub wait : ℕ → World → Option World
  pub release : World → World

-- The variables of `main` that the loop changes.
pub record Poll : Type 0 where
  pub resolved : List Bool
  pub resolved_at : List ℕ
  pub out_of_order : Bool
  pub last_resolved_index : ℤ

abbrev pub is_resolved : Poll → ℕ → Bool
is_resolved p i = get_or p.resolved i false

abbrev pub time_of : Poll → ℕ → ℕ
time_of p i = get_or p.resolved_at i 0

unfoldable pub fresh : Poll
fresh = record {
  resolved = replicate n_submissions false;
  resolved_at = replicate n_submissions 0;
  out_of_order = false;
  last_resolved_index = minus_one;
}

-- `i < x` and `i > x`, for a number that is not negative.
abbrev pub lt_int : ℕ → ℤ → Bool
lt_int i (pos m) = ltb i m
lt_int i (negsuc m) = false

abbrev pub gt_int : ℕ → ℤ → Bool
gt_int i (pos m) = ltb m i
gt_int i (negsuc m) = true

-- The body of the `if`: slot `i` is seen at a time.
unfoldable pub resolve : ℕ → ℕ → Poll → Poll
resolve i time p = record {
  resolved = set p.resolved i true;
  resolved_at = set p.resolved_at i time;
  out_of_order = lt_int i p.last_resolved_index || p.out_of_order;
  last_resolved_index = if gt_int i p.last_resolved_index then pos i else p.last_resolved_index;
}

-- The loop that looks for a slot that is not resolved, over the rounds left.
unfoldable pub all_resolved : ℕ → ℕ → Poll → Bool
all_resolved i zero p = true
all_resolved i (suc rounds) p =
    let rest = all_resolved (suc i) rounds p in if is_resolved p i then rest else false

-- The exit code of `main`.
unfoldable pub exit_code : Poll → ℕ
unfolding all_resolved
exit_code p = if not (all_resolved 0 n_submissions p) || p.out_of_order then 1 else 0

module _ (machine : Machine) where
  -- `qpc_ms_since`, in ticks.
  unfoldable pub ticks_since : ℕ → machine.World → ℕ × machine.World
  ticks_since start w = let (now, w') = machine.query_counter w in (now - start, w')

  unfoldable pub poll_slot : ℕ → ℕ → Poll → machine.World → Poll × machine.World
  unfolding ticks_since resolve
  poll_slot start i p w =
      if is_resolved p i
      then (p, w)
      else (let (value, w1) = machine.read_back i w in
          if not (value == marker i)
          then (p, w1)
          else (let (time, w2) = ticks_since start w1 in (resolve i time p, w2)))

  unfoldable pub poll_slots : ℕ → ℕ → ℕ → Poll → machine.World → Poll × machine.World
  unfolding poll_slot
  poll_slots start i zero p w = (p, w)
  poll_slots start i (suc rounds) p w =
      let (p', w') = poll_slot start i p w in poll_slots start (suc i) rounds p' w'

  -- The loop, on fuel; `none` is fuel that ran out.
  unfoldable pub poll : ℕ → ℕ → Poll → machine.World → Option (Poll × machine.World)
  unfolding ticks_since poll_slots all_resolved
  poll zero start p w = none
  poll (suc fuel) start p w =
      let (ticks, w1) = ticks_since start w in
      let (p', w2) = poll_slots start 0 n_submissions p w1 in
      let rest = poll fuel start p' w2 in
      if not (ltb (ticks * 1000) (poll_budget_ms * machine.frequency))
      then some (p, w1)
      else if all_resolved 0 n_submissions p'
      then some (p', w2)
      else rest

  unfoldable pub write_markers : ℕ → ℕ → machine.World → machine.World
  write_markers i zero w = w
  write_markers i (suc rounds) w =
      write_markers (suc i) rounds (machine.write_upload i (marker i) w)

  unfoldable pub record_lists : ℕ → ℕ → machine.World → Option machine.World
  record_lists i zero w = some w
  record_lists i (suc rounds) w = do
    w1 ← machine.create_allocator i w
    w2 ← machine.create_list i w1
    w3 ← machine.close i (machine.copy i (i * 4) w2)
    record_lists (suc i) rounds w3

  unfoldable pub execute_lists : ℕ → ℕ → machine.World → machine.World
  execute_lists i zero w = w
  execute_lists i (suc rounds) w = execute_lists (suc i) rounds (machine.execute i w)

  -- `main` up to the submissions.
  unfoldable pub set_up : machine.World → Option machine.World
  unfolding write_markers record_lists
  set_up w = do
    w1 ← machine.load_library w
    w2 ← machine.create_device w1
    w3 ← machine.create_queue w2
    w4 ← machine.create_fence w3
    w5 ← machine.create_upload (machine.create_event w4)
    w6 ← machine.create_readback w5
    w7 ← machine.map_upload w6
    w8 ← record_lists 0 n_submissions (machine.unmap_upload (write_markers 0 n_submissions w7))
    machine.map_readback w8

  -- The wait for the GPU, for fence value 1, and the releases.
  unfoldable pub tear_down : machine.World → Option machine.World
  tear_down w = do
    w1 ← some (machine.signal 1 w)
    w2 ← if ltb (machine.completed w1) 1 then machine.wait 1 w1 else some w1
    some (machine.release w2)

  -- `main`: the exit code with what the loop found.
  unfoldable pub main : ℕ → machine.World → Option ((ℕ × Poll) × machine.World)
  unfolding set_up execute_lists poll exit_code tear_down
  main fuel w = do
    w1 ← set_up w
    let (start, w2) = machine.query_counter w1
    (p, w3) ← poll fuel start fresh (execute_lists 0 n_submissions w2)
    w4 ← tear_down w3
    some ((exit_code p, p), w4)
