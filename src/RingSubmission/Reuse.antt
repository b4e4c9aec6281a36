-- ===== src/RingSubmission/Reuse.antt =====
-- The ring of faithful_submission_probe.c: a slot is recorded anew only after its last submission
-- has completed, and after a flush every submission has.
use dlssnr_on_amd_linux.Common.{
  ℕ, zero, suc, ◌+◌, ◌*◌, ◌%◌, ◌^◌, ◌≤◌, ◌<◌, ◌≡◌, ◌≢◌, refl, ap, ◌∙◌, arith, List, ◌++◌, inl, inr,
  true, some, [], ◌∷◌, leb, ◌==◌, get_or, Bool-cases,
}
use dlssnr_on_amd_linux.SnapshotGate.{snapshot_batch_match, absent_before}
use dlssnr_on_amd_linux.RingSubmission.{
  Queue, RingSubmission, ring_wait_value, slot_ready, next_value, record_slot, ring_submit,
  ring_flush, submit_all,
}
use dlssnr_on_amd_linux.RingSubmission.Slots.{
  IsRing, Holds-due, Holds-few, submitted, submitted-IsRing,
}

gate_passes :
    (thread list : ℕ)
    → list ≢ 0
    → snapshot_batch_match thread thread list (some (list ∷ [])) 1 ≡ true
unfolding snapshot_batch_match absent_before
gate_passes thread list h = ground arith

-- What D3D12 documents of a queue in use. `signalled` is the last value that the fence was told to
-- take, `recorded` the offsets of the copies that a list holds, and `submitted` the offsets of the
-- copies that were submitted, the last first. A call succeeds; but a wait is known to end only for a
-- value that was signalled. The fence never goes back, and a list is not null.
pub record IsWorking (queue : Queue) : Type 0 where
  pub signalled : queue.World → ℕ
  pub recorded : ℕ → queue.World → List ℕ
  pub submitted : queue.World → List ℕ
  pub lists : (i : ℕ) → queue.lists i ≢ 0
  pub wait :
      (t : ℕ) (w : queue.World)
      → t ≤ signalled w
      → (w' : queue.World) × (queue.wait t w ≡ some w')
        × (t ≤ queue.completed w')
        × (queue.completed w ≤ queue.completed w')
        × (signalled w' ≡ signalled w)
        × (submitted w' ≡ submitted w)
  pub reset_allocator :
      (i : ℕ) (w : queue.World)
      → (w' : queue.World) × (queue.reset_allocator i w ≡ some w')
        × (queue.completed w ≤ queue.completed w')
        × (submitted w' ≡ submitted w)
  pub reset_list :
      (i : ℕ) (w : queue.World)
      → (w' : queue.World) × (queue.reset_list i w ≡ some w')
        × (queue.completed w ≤ queue.completed w')
        × (recorded i w' ≡ [])
        × (submitted w' ≡ submitted w)
  pub copy :
      (i offset : ℕ) (w : queue.World)
      → (queue.completed w ≤ queue.completed (queue.copy i offset w))
        × (recorded i (queue.copy i offset w) ≡ offset ∷ recorded i w)
        × (submitted (queue.copy i offset w) ≡ submitted w)
  pub close :
      (i : ℕ) (w : queue.World)
      → (w' : queue.World) × (queue.close i w ≡ some w')
        × (queue.completed w ≤ queue.completed w')
        × (recorded i w' ≡ recorded i w)
        × (submitted w' ≡ submitted w)
  pub execute :
      (i : ℕ) (w : queue.World)
      → (queue.completed w ≤ queue.completed (queue.execute i w))
        × (submitted (queue.execute i w) ≡ recorded i w ++ submitted w)
  pub signal :
      (value : ℕ) (w : queue.World)
      → (w' : queue.World) × (queue.signal value w ≡ some w')
        × (queue.completed w ≤ queue.completed w')
        × (signalled w' ≡ value)
        × (submitted w' ≡ submitted w)

-- The offsets of `rounds` submissions from the `i`th on, before those of earlier ones.
abbrev pub offsets : ℕ → ℕ → List ℕ → List ℕ
offsets i zero earlier = earlier
offsets i (suc rounds) earlier = offsets (suc i) rounds (i * 4 ∷ earlier)

module _ (queue : Queue) (works : IsWorking queue) where
  ring_wait_value_ends :
      (t : ℕ) (w : queue.World)
      → t ≤ works.signalled w
      → (w' : queue.World) × (ring_wait_value queue t w ≡ some w')
        × (t ≤ queue.completed w')
        × (works.submitted w' ≡ works.submitted w)
  unfolding ring_wait_value
  ring_wait_value_ends t w told = elim (Bool-cases (leb t (queue.completed w))) [
    | inl done ↦ (w, rw done refl, ground arith, refl)
    | inr early ↦
        let (w', e, reached, later, same, kept) = works.wait t w told in
        (w', rw early e, reached, kept)
  ]

  -- The slot that is next is free: all but the last seven submissions have completed.
  slot_ready_ends :
      (r : RingSubmission) (w : queue.World)
      → IsRing r
      → r.value ≤ works.signalled w
      → (w' : queue.World) × (slot_ready queue r w ≡ some w')
        × (r.value ≤ queue.completed w' + 7)
        × (works.submitted w' ≡ works.submitted w)
  unfolding slot_ready
  slot_ready_ends r w v told =
      let x = get_or r.ring_values (r.value % 8) 0 in
      let holds = v.holds (r.value % 8) (omega arith) in
      elim (Bool-cases (x == 0)) [
        | inl fresh ↦
            (w, rw fresh refl, Holds-few r.value x holds (ground arith) (queue.completed w), refl)
        | inr used ↦
            let due = Holds-due r.value x holds (ground arith) in
            let (w', e, reached, kept) = ring_wait_value_ends x w (omega arith) in
            (w', rw used e, omega arith, kept)
      ]

  record_slot_ends :
      (slot offset value : ℕ) (w : queue.World)
      → (w' : queue.World) × (record_slot queue slot offset value w ≡ some w')
        × (queue.completed w ≤ queue.completed w')
        × (works.signalled w' ≡ value)
        × (works.submitted w' ≡ offset ∷ works.submitted w)
  unfolding record_slot
  record_slot_ends slot offset value w =
      let (w1, e1, le1, s1) = works.reset_allocator slot w in
      let (w2, e2, le2, cleared, s2) = works.reset_list slot w1 in
      let (le3, copied, s3) = works.copy slot offset w2 in
      let (w4, e4, le4, closed, s4) = works.close slot (queue.copy slot offset w2) in
      let (le5, executed) = works.execute slot w4 in
      let (w6, e6, le6, told, s6) = works.signal value (queue.execute slot w4) in
      let list : works.recorded slot w4 ≡ offset ∷ [] = rw (closed, copied, cleared) refl in
      (w6, rw (e1, e2, e4) e6, omega arith, told, rw (s6, executed, list, s4, s3, s2, s1) refl)

  pub ring_submit_ends :
      (r : RingSubmission) (offset : ℕ) (w : queue.World)
      → IsRing r
      → r.value + 1 < 2 ^ 64
      → r.value ≤ works.signalled w
      → (w1 w' : queue.World) × (slot_ready queue r w ≡ some w1)
        × (r.value ≤ queue.completed w1 + 7)
        × (ring_submit queue r offset w ≡ some ((r.value + 1, true), submitted r, w'))
        × (r.value + 1 ≤ queue.completed w' + 8)
        × (works.signalled w' ≡ r.value + 1)
        × (works.submitted w' ≡ offset ∷ works.submitted w)
        × IsRing (submitted r)
  unfolding ring_submit next_value
  ring_submit_ends r offset w v small told =
      let (w1, e1, free, kept) = slot_ready_ends r w v told in
      let (w2, e2, later, new, sent) = record_slot_ends (r.value % 8) offset (r.value + 1) w1 in
      let word : (r.value + 1) % 2 ^ 64 ≡ r.value + 1 = omega arith in
      let gate = gate_passes queue.thread (queue.lists (r.value % 8)) (works.lists (r.value % 8)) in
      (
        w1,
        w2,
        e1,
        free,
        rw (word, e1, e2, gate) refl,
        omega arith,
        new,
        sent ∙ ap (λ l. offset ∷ l) kept,
        submitted-IsRing r small v,
      )

  -- Flushing a ring returns in a world where all its submissions have completed.
  ring_flush_ends :
      (r : RingSubmission) (w : queue.World)
      → r.value ≤ works.signalled w
      → (w' : queue.World) × (ring_flush queue r w ≡ some w')
        × (r.value ≤ queue.completed w')
        × (works.submitted w' ≡ works.submitted w)
  unfolding ring_flush
  ring_flush_ends r w told = elim (Bool-cases (r.value == 0)) [
    | inl fresh ↦ (w, rw fresh refl, ground arith, refl)
    | inr used ↦
        let (w', e, reached, kept) = ring_wait_value_ends r.value w told in
        (w', rw used e, reached, kept)
  ]

  submit_all_ends :
      (i rounds : ℕ) (r : RingSubmission) (w : queue.World)
      → IsRing r
      → r.value + rounds < 2 ^ 64
      → r.value ≤ works.signalled w
      → (r' : RingSubmission) × (w' : queue.World) × (submit_all queue i rounds r w
          ≡ some (0, r', w'))
        × (r'.value ≡ r.value + rounds)
        × (r'.value ≤ works.signalled w')
        × (works.submitted w' ≡ offsets i rounds (works.submitted w))
        × IsRing r'
  unfolding submit_all
  submit_all_ends i zero r w v small told = (r, w, refl, omega arith, told, refl, v)
  submit_all_ends i (suc rounds) r w v small told =
      let (w1, w2, e1, free, e2, flight, new, sent, v2) =
        ring_submit_ends r (i * 4) w v (omega arith) told in
      let (r', w', e3, total, told', sent', v3) =
        submit_all_ends (suc i) rounds (submitted r) w2 v2 (omega arith) (omega arith) in
      (r', w', rw (e2, e3) refl, omega arith, told', sent' ∙ ap (offsets (suc i) rounds) sent, v3)

  -- On such a queue and from such a ring, any number of submissions that keeps the fence value
  -- below 2 ^ 64 goes through without a gate failure and counts the fence value up by one each; the
  -- flush after it returns with the fence at that value, so every submission has completed, with
  -- exactly the copies at their offsets submitted in their order, and the ring is valid.
  pub ring_flush-submit_all :
      (rounds : ℕ) (r : RingSubmission) (w : queue.World)
      → IsRing r
      → r.value + rounds < 2 ^ 64
      → r.value ≤ works.signalled w
      → (r' : RingSubmission) × (w' : queue.World) × (w'' : queue.World) × (submit_all queue 0
            rounds r w
          ≡ some (0, r', w'))
        × (ring_flush queue r' w' ≡ some w'')
        × (r'.value ≡ r.value + rounds)
        × (r.value + rounds ≤ queue.completed w'')
        × (works.submitted w'' ≡ offsets 0 rounds (works.submitted w))
        × IsRing r'
  ring_flush-submit_all rounds r w v small told =
      let (r', w', e, total, told', sent, v') = submit_all_ends 0 rounds r w v small told in
      let (w'', flushed, done, kept) = ring_flush_ends r' w' told' in
      (r', w', w'', e, flushed, total, omega arith, kept ∙ sent, v')
