-- ===== src/Tests/Ring.antt =====
-- Tests of the ring of command lists, on a queue whose fence counts up when it is waited for.
use dlssnr_on_amd_linux.Common.{List, ◌++◌, [], ◌∷◌, ℕ, ◌+◌, ◌≤◌, ◌≡◌, refl, arith, some, replicate}
use dlssnr_on_amd_linux.RingSubmission.{
  Queue, RingSubmission, ring_create, create_slots, ring_flush, submit_all,
}
use dlssnr_on_amd_linux.RingSubmission.Readback.{check_marker, compare, no_mismatch}
use dlssnr_on_amd_linux.RingSubmission.Slots.{IsRing, submitted, created-IsRing}
use dlssnr_on_amd_linux.RingSubmission.Reuse.{IsWorking, offsets, ring_flush-submit_all}

-- The world is the fence value that has completed, the last one that was signalled, what the list
-- holds, and what was submitted.
abbrev Toy : Type 0
Toy = ℕ × ℕ × List ℕ × List ℕ

abbrev toy_queue : Queue
toy_queue = record {
  World = Toy;
  thread = 1;
  lists = λ slot. slot + 100;
  completed = λ (done, told, list, sent). done;
  wait = λ target (done, told, list, sent). some (done + target, told, list, sent);
  get_device = λ w. some w;
  create_fence = λ w. some w;
  create_event = λ w. w;
  create_allocator = λ slot w. some w;
  create_list = λ slot w. some w;
  reset_allocator = λ slot w. some w;
  reset_list = λ slot (done, told, list, sent). some (done, told, [], sent);
  copy = λ slot offset (done, told, list, sent). (done, told, offset ∷ list, sent);
  close = λ slot w. some w;
  execute = λ slot (done, told, list, sent). (done, told, list, list ++ sent);
  signal = λ value (done, told, list, sent). some (done, value, list, sent);
}

abbrev toy_queue-IsWorking : IsWorking toy_queue
toy_queue-IsWorking = record {
  signalled = λ (done, told, list, sent). told;
  recorded = λ slot (done, told, list, sent). list;
  submitted = λ (done, told, list, sent). sent;
  lists = λ slot. omega arith;
  wait = λ target (done, told, list, sent) h.
      ((done + target, told, list, sent), refl, omega arith, omega arith, refl, refl);
  reset_allocator = λ slot w. (w, refl, omega arith, refl);
  reset_list =
      λ slot (done, told, list, sent). ((done, told, [], sent), refl, omega arith, refl, refl);
  copy = λ slot offset (done, told, list, sent). (omega arith, refl, refl);
  close = λ slot w. (w, refl, omega arith, refl, refl);
  execute = λ slot (done, told, list, sent). (omega arith, refl);
  signal =
      λ value (done, told, list, sent). ((done, value, list, sent), refl, omega arith, refl, refl);
}

abbrev unused : Toy
unused = (0, 0, [], [])

abbrev created : RingSubmission
created = record { value = 0; ring_values = replicate 8 0 }

ring_created : ring_create toy_queue unused ≡ some (created, unused)
unfolding ring_create create_slots
ring_created = refl

-- The forty submissions of the probe.
ring_flush-submit_all_example :
    (r' : RingSubmission) × (w' : Toy) × (w'' : Toy) × (submit_all toy_queue 0 40 created unused
      ≡ some (0, r', w'))
    × (ring_flush toy_queue r' w' ≡ some w'')
    × (r'.value ≡ 40)
    × (40 ≤ w''.0)
    × (w''.3 ≡ offsets 0 40 [])
    × IsRing r'
ring_flush-submit_all_example =
    ring_flush-submit_all toy_queue toy_queue-IsWorking 40 created unused created-IsRing
      (omega arith) (omega arith)

-- The mismatch at index 2 is counted and kept.
one_mismatch :
    compare 0 (9000 ∷ 9001 ∷ 7 ∷ []) no_mismatch
    ≡ record { mismatches = 1; first = some (2, 9002, 7) }
unfolding compare check_marker
one_mismatch = refl
