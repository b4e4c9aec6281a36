-- ===== src/SubmissionTiming/Seen.antt =====
-- windows-runtime-bridge/investigations/submission_timing_probe.c: a slot is marked resolved only when
-- its marker was read, at the time that the counter showed right after the reading.
use dlssnr_on_amd_linux.Common.{
  ℕ, zero, suc, ◌+◌, ◌-◌, ◌*◌, ◌≤◌, ◌<◌, ◌≡◌, refl, sym, ◌∙◌, subst, arith, true, ltb, ◌==◌, Option,
  none, some, Bool-cases, inl, inr, length, length-set,
}
use dlssnr_on_amd_linux.SubmissionTiming.{
  Machine, Poll, is_resolved, time_of, marker, fresh, ticks_since, resolve, poll_slot, poll_slots,
  poll, all_resolved,
}
use dlssnr_on_amd_linux.SubmissionTiming.Order.{unresolved, other_slot, own_sized}

module _ (machine : Machine) where
  -- The marker of slot `i` was read, and its time is what the counter showed next, since `start`.
  abbrev pub SeenAt : ℕ → Poll → ℕ → Type 0
  SeenAt start p i =
      (w : machine.World) × ((machine.read_back i w).0 ≡ marker i)
      × (time_of p i ≡ (machine.query_counter (machine.read_back i w).1).0 - start)

  pub record IsSeen (start : ℕ) (p : Poll) : Type 0 where
    pub sized : length p.resolved ≡ 8
    pub timed : length p.resolved_at ≡ 8
    pub seen : (i : ℕ) → is_resolved p i ≡ true → SeenAt start p i

  pub fresh-IsSeen : (start : ℕ) → IsSeen start fresh
  unfolding fresh
  fresh-IsSeen start = record {
    sized = refl;
    timed = refl;
    seen = λ i h. absurd (unresolved 8 i h);
  }

  resolve-IsSeen :
      (start i : ℕ) (p : Poll) (w : machine.World)
      → i < 8
      → IsSeen start p
      → let (value, w1) = machine.read_back i w in
        value ≡ marker i → IsSeen start (resolve i ((machine.query_counter w1).0 - start) p)
  unfolding resolve
  resolve-IsSeen start i p w small v read =
      let time = (machine.query_counter (machine.read_back i w).1).0 - start in
      record {
        sized = rw (length-set p.resolved i true) v.sized;
        timed = rw (length-set p.resolved_at i time) v.timed;
        seen = λ j h. elim (Bool-cases (i == j)) [
          | inl same ↦
              let e : i ≡ j = ground arith in
              subst (SeenAt start (resolve i time p)) e
                (w, read, (own_sized i time p small v.sized v.timed).1)
          | inr other ↦
              let (kept, at) = other_slot i j time p (ground arith) in
              let (u, value, was) = v.seen j (sym kept ∙ h) in (u, value, at ∙ was)
        ];
      }

  pub poll_slot-IsSeen :
      (start i : ℕ) (p : Poll) (w : machine.World)
      → i < 8
      → IsSeen start p
      → IsSeen start (poll_slot machine start i p w).0
  unfolding poll_slot ticks_since
  poll_slot-IsSeen start i p w small v =
      let (value, w1) = machine.read_back i w in
      elim (Bool-cases (is_resolved p i)) [
        | inl seen ↦ rw seen v
        | inr open_ ↦ elim (Bool-cases (value == marker i)) [
          | inl arrived ↦ rw (open_, arrived) (resolve-IsSeen start i p w small v (ground arith))
          | inr early ↦ rw (open_, early) v
        ]
      ]

  pub poll_slots-IsSeen :
      (start i rounds : ℕ) (p : Poll) (w : machine.World)
      → i + rounds ≤ 8
      → IsSeen start p
      → IsSeen start (poll_slots machine start i rounds p w).0
  unfolding poll_slots
  poll_slots-IsSeen start i zero p w small v = v
  poll_slots-IsSeen start i (suc rounds) p w small v =
      let (p', w') = poll_slot machine start i p w in
      poll_slots-IsSeen start (suc i) rounds p' w' (omega arith)
        (poll_slot-IsSeen start i p w (omega arith) v)

  abbrev pub EndsSeen : ℕ → Option (Poll × machine.World) → Type 0
  EndsSeen start none = Unit
  EndsSeen start (some (p, w)) = IsSeen start p

  pub poll-EndsSeen :
      (fuel start : ℕ) (p : Poll) (w : machine.World)
      → IsSeen start p
      → EndsSeen start (poll machine fuel start p w)
  unfolding poll ticks_since
  poll-EndsSeen zero start p w v = tt
  poll-EndsSeen (suc fuel) start p w v =
      let (now, w1) = machine.query_counter w in
      let (q, w2) = poll_slots machine start 0 8 p w1 in
      let v2 = poll_slots-IsSeen start 0 8 p w1 (omega arith) v in
      elim (Bool-cases (ltb ((now - start) * 1000) (1000 * machine.frequency))) [
        | inr over ↦ rw (over, EndsSeen) v
        | inl early ↦ elim (Bool-cases (all_resolved 0 8 q)) [
          | inl all ↦ rw (early, all, EndsSeen) v2
          | inr some_left ↦ rw (early, some_left) (poll-EndsSeen fuel start q w2 v2)
        ]
      ]
