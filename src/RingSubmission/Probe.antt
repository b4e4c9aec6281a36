-- ===== src/RingSubmission/Probe.antt =====
-- windows-runtime-bridge/investigations/faithful_submission_probe.c, `main`: forty submissions through
-- the ring, the flush, and the verdict on what is read back.
use dlssnr_on_amd_linux.Common.{
  ℕ, zero, suc, ◌≤◌, ◌≡◌, ◌↔◌, refl, ap, sym, subst, arith, not, ◌||◌, ◌==◌, Option, none, some,
  ◌>>=◌, List, [], ◌∷◌, length, replicate, if◌then◌else◌, Option-cases, inl, inr,
}
use dlssnr_on_amd_linux.RingSubmission.{
  Queue, RingSubmission, create_slots, ring_create, submit_all, ring_flush,
}
use dlssnr_on_amd_linux.RingSubmission.Buffers.{Buffers}
use dlssnr_on_amd_linux.RingSubmission.Readback.{
  marker, markers, Tally, compare, no_mismatch, compare_iff,
}
use dlssnr_on_amd_linux.RingSubmission.Slots.{IsRing, created-IsRing}
use dlssnr_on_amd_linux.RingSubmission.Reuse.{IsWorking, ring_flush-submit_all, offsets}

abbrev pub total_submissions : ℕ
total_submissions = 40

unfoldable pub exit_code : ℕ → Tally → ℕ
exit_code gate_failures t = if not (t.mismatches == 0) || not (gate_failures == 0) then 1 else 0

module _ (queue : Queue) (buffers : Buffers queue) where
  unfoldable pub write_markers : ℕ → ℕ → queue.World → queue.World
  write_markers i zero w = w
  write_markers i (suc rounds) w =
      write_markers (suc i) rounds (buffers.write_upload i (marker i) w)

  -- What the loop of the comparison reads.
  unfoldable pub read_all : ℕ → ℕ → queue.World → List ℕ
  read_all i zero w = []
  read_all i (suc rounds) w = buffers.read_back i w ∷ read_all (suc i) rounds w

  unfoldable pub open_device : queue.World → Option queue.World
  open_device w = do
    w1 ← buffers.load_library w
    w2 ← buffers.create_device w1
    buffers.create_queue w2

  -- The creation of the buffers, and the markers.
  unfoldable pub fill_buffers : queue.World → Option queue.World
  unfolding write_markers
  fill_buffers w = do
    w1 ← buffers.create_upload w
    w2 ← buffers.create_readback w1
    w3 ← buffers.map_upload w2
    some (buffers.unmap_upload (write_markers 0 total_submissions w3))

  -- `main`: the exit code, the gate failures and the mismatches.
  unfoldable pub main : queue.World → Option ((ℕ × ℕ × Tally) × queue.World)
  unfolding open_device fill_buffers read_all exit_code
  main w = do
    w1 ← open_device w
    (ring, w2) ← ring_create queue w1
    w3 ← fill_buffers w2
    (gate_failures, ring', w4) ← submit_all queue 0 total_submissions ring w3
    w5 ← ring_flush queue ring' w4
    w6 ← buffers.map_readback w5
    let t = compare 0 (read_all 0 total_submissions w6) no_mismatch
    some
        ((exit_code gate_failures t, gate_failures, t), buffers.release (buffers.unmap_readback w6))

  abbrev created : RingSubmission
  created = record { value = 0; ring_values = replicate 8 0 }

  abbrev IsCreated : Option (RingSubmission × queue.World) → Type 0
  IsCreated none = Unit
  IsCreated (some (r, w)) = r ≡ created

  ring_create-IsCreated : (w : queue.World) → IsCreated (ring_create queue w)
  unfolding ring_create
  ring_create-IsCreated w = elim (Option-cases (queue.get_device w)) [
    | inl exits ↦ rw (exits, IsCreated) tt
    | inr (w1, device) ↦ elim (Option-cases (queue.create_fence w1)) [
      | inl exits ↦ rw (device, exits, IsCreated) tt
      | inr (w2, fence) ↦ elim (Option-cases (create_slots queue 0 8 (queue.create_event w2))) [
        | inl exits ↦ rw (device, fence, exits, IsCreated) tt
        | inr (w3, slots) ↦ rw (device, fence, slots, IsCreated) refl
      ]
    ]
  ]

  length-read_all : (i n : ℕ) (w : queue.World) → length (read_all i n w) ≡ n
  unfolding read_all
  length-read_all i zero w = refl
  length-read_all i (suc n) w = ap suc (length-read_all (suc i) n w)

  exit_code_iff : (t : Tally) → (exit_code 0 t ≡ 0) ↔ (t.mismatches ≡ 0)
  unfolding exit_code
  exit_code_iff t = ground arith

  -- On a working queue, where the creation of the device, the ring and the buffers succeeds, and
  -- the buffer can be mapped for the reading, the probe ends without a gate failure. It reads what
  -- came back after it submitted the copies at the forty offsets in their order and the fence
  -- reached the last of the forty values, and it exits with 0 exactly if what it reads are the
  -- forty markers in their order.
  pub main_verdict :
      (r : RingSubmission) (w w1 w2 w3 : queue.World)
      → (works : IsWorking queue) → open_device w ≡ some w1
      → ring_create queue w1 ≡ some (r, w2)
      → fill_buffers w2 ≡ some w3
      → ((u : queue.World) → (u' : queue.World) × (buffers.map_readback u ≡ some u'))
      → (u : queue.World) × (u' : queue.World) × (40 ≤ queue.completed u)
        × (works.submitted u ≡ offsets 0 40 (works.submitted w3))
        × (buffers.map_readback u ≡ some u')
        × let t = compare 0 (read_all 0 40 u') no_mismatch in
          (main w ≡ some ((exit_code 0 t, 0, t), buffers.release (buffers.unmap_readback u')))
          × ((exit_code 0 t ≡ 0) ↔ (read_all 0 40 u' ≡ markers 0 40))
  unfolding main
  main_verdict r w w1 w2 w3 works device ring filled maps =
      let same : r ≡ created = subst IsCreated ring (ring_create-IsCreated w1) in
      let valid : IsRing r = subst IsRing (sym same) created-IsRing in
      let none_yet : r.value ≡ 0 = ap (λ c. c.value) same in
      let (r', w4, u, submitted, flushed, total, done, sent, still) =
        ring_flush-submit_all queue works 40 r w3 valid (omega arith) (omega arith) in
      let (u', mapped) = maps u in
      let read = read_all 0 40 u' in
      let counted = compare_iff read in
      let judged = exit_code_iff (compare 0 read no_mismatch) in
      let long = length-read_all 0 40 u' in
      (
        u,
        u',
        omega arith,
        sent,
        mapped,
        (
          rw (device, ring, filled, submitted, flushed, mapped) refl,
          (
            λ e. subst (λ n. read ≡ markers 0 n) long (counted.0 (judged.0 e)),
            λ e. judged.1 (counted.1 (subst (λ n. read ≡ markers 0 n) (sym long) e)),
          ),
        ),
      )
