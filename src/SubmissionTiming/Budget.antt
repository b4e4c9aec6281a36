-- ===== src/SubmissionTiming/Budget.antt =====
-- windows-runtime-bridge/investigations/submission_timing_probe.c: the polling loop ends, since time
-- passes.
use dlssnr_on_amd_linux.Common.{
  ℕ, zero, suc, ◌+◌, ◌-◌, ◌*◌, ◌≤◌, ◌<◌, ◌≡◌, refl, arith, ltb, ◌==◌, some, Bool-cases, inl, inr,
}
use dlssnr_on_amd_linux.SubmissionTiming.{
  Machine, Poll, is_resolved, marker, fresh, ticks_since, poll_slot, poll_slots, poll, all_resolved,
  set_up, execute_lists, main, exit_code, tear_down,
}

-- The counter shows a time in steps of `resolution`, and a reading of it takes time; nothing else
-- turns it back.
pub record IsClock (machine : Machine) (clock : machine.World → ℕ) (resolution : ℕ) : Type 0 where
  pub reached : (w : machine.World) → (machine.query_counter w).0 * resolution ≤ clock w
  pub not_passed : (w : machine.World) → clock w < ((machine.query_counter w).0 + 1) * resolution
  pub passes : (w : machine.World) → clock w < clock (machine.query_counter w).1
  pub reads : (i : ℕ) (w : machine.World) → clock w ≤ clock (machine.read_back i w).1
  pub executes : (i : ℕ) (w : machine.World) → clock w ≤ clock (machine.execute i w)

-- What D3D12 documents of a fence: a wait for a value ends if the fence was told to take it.
-- `signalled` is the last value that it was told.
pub record IsFence (machine : Machine) (signalled : machine.World → ℕ) : Type 0 where
  pub told : (value : ℕ) (w : machine.World) → signalled (machine.signal value w) ≡ value
  pub ends :
      (value : ℕ) (w : machine.World)
      → value ≤ signalled w
      → (w' : machine.World) × (machine.wait value w ≡ some w')

pub product_le : (a b c : ℕ) → a ≤ b → a * c ≤ b * c
product_le zero b c h = omega arith
product_le (suc a) zero c h = omega arith
product_le (suc a) (suc b) c h = omega (arith, product_le a b c (omega arith))

module _ (machine : Machine) (clock : machine.World → ℕ) (resolution : ℕ) where
  poll_slot_later :
      (start i : ℕ) (p : Poll) (w : machine.World)
      → IsClock machine clock resolution
      → clock w ≤ clock (poll_slot machine start i p w).1
  unfolding poll_slot ticks_since
  poll_slot_later start i p w v =
      let (value, w1) = machine.read_back i w in
      let read = v.reads i w in
      let timed = v.passes w1 in
      elim (Bool-cases (is_resolved p i)) [
        | inl seen ↦ rw seen (omega arith)
        | inr open_ ↦ elim (Bool-cases (value == marker i)) [
          | inl arrived ↦ rw (open_, arrived) (omega arith)
          | inr early ↦ rw (open_, early) (omega arith)
        ]
      ]

  poll_slots_later :
      (start i rounds : ℕ) (p : Poll) (w : machine.World)
      → IsClock machine clock resolution
      → clock w ≤ clock (poll_slots machine start i rounds p w).1
  unfolding poll_slots
  poll_slots_later start i zero p w v = omega arith
  poll_slots_later start i (suc rounds) p w v =
      let (p', w') = poll_slot machine start i p w in
      omega (arith, poll_slot_later start i p w v, poll_slots_later start (suc i) rounds p' w' v)

  pub execute_lists_later :
      (i rounds : ℕ) (w : machine.World)
      → IsClock machine clock resolution
      → clock w ≤ clock (execute_lists machine i rounds w)
  unfolding execute_lists
  execute_lists_later i zero w v = omega arith
  execute_lists_later i (suc rounds) w v =
      omega (arith, v.executes i w, execute_lists_later (suc i) rounds (machine.execute i w) v)

  -- The loop goes on only while the time is below the end of the budget.
  within_budget :
      (start : ℕ) (w : machine.World)
      → IsClock machine clock resolution
      → (machine.query_counter w).0 - start < machine.frequency
      → clock w < (start + machine.frequency) * resolution
  within_budget start w v early = omega (
    arith,
    v.not_passed w,
    product_le ((machine.query_counter w).0 + 1) (start + machine.frequency) resolution
        (omega arith),
  )

  poll_ends :
      (fuel start : ℕ) (p : Poll) (w : machine.World)
      → IsClock machine clock resolution
      → 1 ≤ fuel
      → (start + machine.frequency) * resolution < fuel + clock w
      → (r : Poll × machine.World) × (poll machine fuel start p w ≡ some r)
  unfolding poll ticks_since
  poll_ends zero start p w v there enough = absurd (omega arith)
  poll_ends (suc fuel) start p w v there enough =
      let (now, w1) = machine.query_counter w in
      let (p', w2) = poll_slots machine start 0 8 p w1 in
      elim (Bool-cases (ltb ((now - start) * 1000) (1000 * machine.frequency))) [
        | inr over ↦ ((p, w1), rw over refl)
        | inl early ↦ elim (Bool-cases (all_resolved 0 8 p')) [
          | inl all ↦ ((p', w2), rw (early, all) refl)
          | inr some_left ↦
              let below = within_budget start w v (ground arith) in
              let passed = v.passes w in
              let later = poll_slots_later start 0 8 p w1 v in
              let (r, e) = poll_ends fuel start p' w2 v (omega arith) (omega arith) in
              (r, rw (early, some_left) e)
        ]
      ]

  tear_down_ends :
      (signalled : machine.World → ℕ) (w : machine.World)
      → IsFence machine signalled
      → (w' : machine.World) × (tear_down machine w ≡ some w')
  unfolding tear_down
  tear_down_ends signalled w fence =
      let w1 = machine.signal 1 w in
      let told = fence.told 1 w in
      elim (Bool-cases (ltb (machine.completed w1) 1)) [
        | inl early ↦
            let (w2, e) = fence.ends 1 w1 (omega arith) in (machine.release w2, rw (early, e) refl)
        | inr done ↦ (machine.release w1, rw done refl)
      ]

  -- Where the creation of the device, the lists and the buffers succeeds, the probe ends: with a
  -- counter that shows a time that passes at each reading, in steps of `resolution`, more fuel than
  -- the ticks of a second times that resolution is enough for the polling loop; and with a fence on
  -- which a wait ends for a value that it was told to take, the last wait ends. `main` answers with
  -- the exit code of what the loop found.
  pub main_ends :
      (signalled : machine.World → ℕ) (fuel : ℕ) (w w1 : machine.World)
      → IsClock machine clock resolution
      → IsFence machine signalled
      → set_up machine w ≡ some w1
      → machine.frequency * resolution < fuel
      → (p : Poll) × (w2 : machine.World) × (main machine fuel w ≡ some ((exit_code p, p), w2))
  unfolding main
  main_ends signalled fuel w w1 v fence ready enough =
      let (start, w2) = machine.query_counter w1 in
      let w3 = execute_lists machine 0 8 w2 in
      let reached = v.reached w1 in
      let passed = v.passes w1 in
      let later = execute_lists_later 0 8 w2 v in
      let ((p, w4), e) = poll_ends fuel start fresh w3 v (omega arith) (omega arith) in
      let (w5, closed) = tear_down_ends signalled w4 fence in (p, w5, rw (ready, e, closed) refl)
