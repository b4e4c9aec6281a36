-- ===== src/SubmissionTiming/Missed.antt =====
-- windows-runtime-bridge/investigations/submission_timing_probe.c: a slot that a pass of the loop leaves
-- unmarked was read without its marker.
use dlssnr_on_amd_linux.Common.{
  ℕ, zero, suc, ◌+◌, ◌-◌, ◌*◌, ◌≤◌, ◌<◌, ◌≡◌, ◌≢◌, sym, subst, ◌∙◌, ◌⊎◌, arith, true, false, ltb,
  ◌==◌, Option, none, some, Bool-cases, inl, inr,
}
use dlssnr_on_amd_linux.SubmissionTiming.{
  Machine, Poll, is_resolved, marker, fresh, ticks_since, resolve, poll_slot, poll_slots, poll,
  all_resolved,
}
use dlssnr_on_amd_linux.SubmissionTiming.Order.{other_slot, own_sized}
use dlssnr_on_amd_linux.SubmissionTiming.Seen.{IsSeen, poll_slot-IsSeen, poll_slots-IsSeen}

module _ (machine : Machine) where
  -- A reading of the slot gave something else than its marker.
  abbrev pub Missed : ℕ → Type 0
  Missed i = (w : machine.World) × ((machine.read_back i w).0 ≢ marker i)

  -- Every slot that is not marked was missed, or no pass was made.
  abbrev pub IsPassed : Poll → Type 0
  IsPassed p = (p ≡ fresh) ⊎ ((i : ℕ) → i < 8 → is_resolved p i ≡ false → Missed i)

  resolve_keeps :
      (start i j time : ℕ) (p : Poll)
      → i < 8
      → IsSeen machine start p
      → is_resolved (resolve i time p) j ≡ false
      → is_resolved p j ≡ false
  resolve_keeps start i j time p small v open_ = elim (Bool-cases (i == j)) [
    | inl same ↦
        let e : i ≡ j = ground arith in
        let marked =
          subst (λ k. is_resolved (resolve i time p) k ≡ true) e
            (own_sized i time p small v.sized v.timed).0 in
        absurd (ground arith)
    | inr other ↦ sym (other_slot i j time p (ground arith)).0 ∙ open_
  ]

  poll_slot_keeps :
      (start i j : ℕ) (p : Poll) (w : machine.World)
      → i < 8
      → IsSeen machine start p
      → is_resolved (poll_slot machine start i p w).0 j ≡ false
      → is_resolved p j ≡ false
  unfolding poll_slot ticks_since
  poll_slot_keeps start i j p w small v = elim (Bool-cases (is_resolved p i)) [
    | inl seen ↦ rw seen (λ open_. open_)
    | inr unseen ↦
        let (value, w1) = machine.read_back i w in
        elim (Bool-cases (value == marker i)) [
          | inl arrived ↦
              rw (unseen, arrived)
                (resolve_keeps start i j ((machine.query_counter w1).0 - start) p small v)
          | inr early ↦ rw (unseen, early) (λ open_. open_)
        ]
  ]

  poll_slot-Missed :
      (start i : ℕ) (p : Poll) (w : machine.World)
      → i < 8
      → IsSeen machine start p
      → is_resolved (poll_slot machine start i p w).0 i ≡ false
      → Missed i
  unfolding poll_slot ticks_since
  poll_slot-Missed start i p w small v = elim (Bool-cases (is_resolved p i)) [
    | inl seen ↦ rw seen (λ open_. absurd (ground arith))
    | inr unseen ↦
        let (value, w1) = machine.read_back i w in
        elim (Bool-cases (value == marker i)) [
          | inl arrived ↦
              let marked =
                (own_sized i ((machine.query_counter w1).0 - start) p small v.sized v.timed).0 in
              rw (unseen, arrived) (λ open_. absurd (ground arith))
          | inr early ↦ (λ open_. (w, ground arith))
        ]
  ]

  poll_slots_keeps :
      (start i rounds j : ℕ) (p : Poll) (w : machine.World)
      → i + rounds ≤ 8
      → IsSeen machine start p
      → is_resolved (poll_slots machine start i rounds p w).0 j ≡ false
      → is_resolved p j ≡ false
  unfolding poll_slots
  poll_slots_keeps start i zero j p w small v open_ = open_
  poll_slots_keeps start i (suc rounds) j p w small v open_ =
      let (p', w') = poll_slot machine start i p w in
      poll_slot_keeps start i j p w (omega arith) v (
        poll_slots_keeps start (suc i) rounds j p' w' (omega arith)
          (poll_slot-IsSeen machine start i p w (omega arith) v) open_)

  poll_slots-Missed :
      (start i rounds j : ℕ) (p : Poll) (w : machine.World)
      → i + rounds ≤ 8
      → i ≤ j
      → j < i + rounds
      → IsSeen machine start p
      → is_resolved (poll_slots machine start i rounds p w).0 j ≡ false
      → Missed j
  unfolding poll_slots
  poll_slots-Missed start i zero j p w small lo hi v open_ = absurd (omega arith)
  poll_slots-Missed start i (suc rounds) j p w small lo hi v open_ =
      let (p', w') = poll_slot machine start i p w in
      let v' = poll_slot-IsSeen machine start i p w (omega arith) v in
      elim (Bool-cases (i == j)) [
        | inl same ↦
            let e : i ≡ j = ground arith in
            subst Missed e (
              poll_slot-Missed start i p w (omega arith) v (
                poll_slots_keeps start (suc i) rounds i p' w' (omega arith) v' (
                  subst
                    (λ k. is_resolved (poll_slots machine start (suc i) rounds p' w').0 k ≡ false)
                    (sym e) open_)))
        | inr other ↦
            poll_slots-Missed start (suc i) rounds j p' w' (omega arith) (ground arith)
              (omega arith) v' open_
      ]

  abbrev pub EndsPassed : Option (Poll × machine.World) → Type 0
  EndsPassed none = Unit
  EndsPassed (some (p, w)) = IsPassed p

  pub poll-EndsPassed :
      (fuel start : ℕ) (p : Poll) (w : machine.World)
      → IsSeen machine start p
      → IsPassed p
      → EndsPassed (poll machine fuel start p w)
  unfolding poll ticks_since
  poll-EndsPassed zero start p w v passed = tt
  poll-EndsPassed (suc fuel) start p w v passed =
      let (now, w1) = machine.query_counter w in
      let (q, w2) = poll_slots machine start 0 8 p w1 in
      let v2 = poll_slots-IsSeen machine start 0 8 p w1 (omega arith) v in
      let passed2 : IsPassed q = inr (λ i small open_.
        poll_slots-Missed start 0 8 i p w1 (omega arith) (omega arith) (omega arith) v open_) in
      elim (Bool-cases (ltb ((now - start) * 1000) (1000 * machine.frequency))) [
        | inr over ↦ rw (over, EndsPassed) passed
        | inl early ↦ elim (Bool-cases (all_resolved 0 8 q)) [
          | inl all ↦ rw (early, all, EndsPassed) passed2
          | inr some_left ↦ rw (early, some_left) (poll-EndsPassed fuel start q w2 v2 passed2)
        ]
      ]
