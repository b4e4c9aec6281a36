-- ===== src/Tests/Timing.antt =====
-- Tests of the submission timing probe, on a machine where a reading of the counter takes one tick,
-- and the result of submission `i` arrives at time 40 - i.
use dlssnr_on_amd_linux.Common.{
  ℕ, ◌+◌, ◌-◌, ◌≡◌, refl, arith, none, some, leb_of_le, leb, if◌then◌else◌,
}
use dlssnr_on_amd_linux.SubmissionTiming.{
  Machine, Poll, marker, set_up, record_lists, write_markers, main, exit_code,
}
use dlssnr_on_amd_linux.SubmissionTiming.Budget.{IsClock, IsFence, main_ends}

abbrev toy_machine : Machine
toy_machine = record {
  World = ℕ × ℕ;
  frequency = 100;
  query_counter = λ (t, told). (t, (t + 1, told));
  load_library = λ w. some w;
  create_device = λ w. some w;
  create_queue = λ w. some w;
  create_fence = λ w. some w;
  create_event = λ w. w;
  create_upload = λ w. some w;
  create_readback = λ w. some w;
  map_upload = λ w. some w;
  write_upload = λ i v w. w;
  unmap_upload = λ w. w;
  create_allocator = λ i w. some w;
  create_list = λ i w. some w;
  copy = λ i offset w. w;
  close = λ i w. some w;
  map_readback = λ w. some w;
  read_back = λ i w. (if leb (40 - i) w.0 then marker i else 0, w);
  execute = λ i w. w;
  signal = λ value (t, told). (t, value);
  completed = λ w. 0;
  wait = λ value (t, told). if leb value told then some (t, told) else none;
  release = λ w. w;
}

toy_machine-IsClock : IsClock toy_machine (λ w. w.0) 1
toy_machine-IsClock = record {
  reached = λ (t, told). omega arith;
  not_passed = λ (t, told). omega arith;
  passes = λ (t, told). omega arith;
  reads = λ i w. omega arith;
  executes = λ i w. omega arith;
}

toy_machine-IsFence : IsFence toy_machine (λ w. w.1)
toy_machine-IsFence = record {
  told = λ value (t, told). refl;
  ends = λ value (t, told) le. ((t, told), rw (leb_of_le value told le) refl);
}

ready : set_up toy_machine (0, 0) ≡ some (0, 0)
unfolding set_up record_lists write_markers
ready = refl

main_ends_example :
    (p : Poll) × (w2 : ℕ × ℕ) × (main toy_machine 101 (0, 0) ≡ some ((exit_code p, p), w2))
main_ends_example =
    main_ends toy_machine (λ w. w.0) 1 (λ w. w.1) 101 (0, 0) (0, 0) toy_machine-IsClock
      toy_machine-IsFence ready (omega arith)
