-- ===== src/Tests/Probes.antt =====
-- Tests of the two probes of the submission queue, each `main` on a small host.
use dlssnr_on_amd_linux.Common.{
  [], List, ◌++◌, ◌∷◌, ◌+◌, ◌≤◌, ◌≡◌, ◌↔◌, ℕ, refl, arith, replicate, Bool, true, false, Option,
  none, some, leb, if◌then◌else◌,
}
use dlssnr_on_amd_linux.RingSubmission.{Queue, ring_create, create_slots}
use dlssnr_on_amd_linux.RingSubmission.Probe.{
  exit_code, write_markers, read_all, open_device, fill_buffers, main_verdict,
}
use dlssnr_on_amd_linux.RingSubmission.Probe
use dlssnr_on_amd_linux.RingSubmission.Buffers.{Buffers}
use dlssnr_on_amd_linux.RingSubmission.Readback.{markers, compare, no_mismatch}
use dlssnr_on_amd_linux.RingSubmission.Reuse.{IsWorking, offsets}
use dlssnr_on_amd_linux.ReadbackCoherency.{main}

-- What the GPU writes is read once the fence has reached the value that was signalled.
abbrev Host : Type 0
Host = ℕ × Bool × ℕ × ℕ × ℕ × List ℕ × List ℕ

abbrev host_queue : Queue
host_queue = record {
  World = Host;
  thread = 1;
  lists = λ slot. slot + 100;
  completed = λ (u, r, t, s, d, l, n). d;
  wait = λ value (u, r, t, s, d, l, n). some (u, r, t, s, d + value, l, n);
  get_device = λ w. some w;
  create_fence = λ w. some w;
  create_event = λ w. w;
  create_allocator = λ slot w. some w;
  create_list = λ slot w. some w;
  reset_allocator = λ slot w. some w;
  reset_list = λ slot (u, r, t, s, d, l, n). some (u, false, t, s, d, [], n);
  copy = λ slot offset (u, r, t, s, d, l, n). (u, true, t, s, d, offset ∷ l, n);
  close = λ slot w. some w;
  execute = λ slot (u, r, t, s, d, l, n). (u, r, (if r then u else t), s, d, l, l ++ n);
  signal = λ value (u, r, t, s, d, l, n). some (u, r, t, value, d, l, n);
}

abbrev host_buffers : Buffers host_queue
host_buffers = record {
  load_library = λ w. some w;
  create_device = λ w. some w;
  create_queue = λ w. some w;
  close_unchecked = λ slot w. w;
  create_upload = λ w. some w;
  create_readback = λ w. some w;
  map_upload = λ w. some w;
  write_upload = λ i v (u, r, t, s, d, l, n). (v, r, t, s, d, l, n);
  unmap_upload = λ w. w;
  map_readback = λ w. some w;
  read_back = λ i (u, r, t, s, d, l, n). if leb s d then t else 0;
  unmap_readback = λ w. w;
  release = λ w. w;
}

abbrev host_queue-IsWorking : IsWorking host_queue
host_queue-IsWorking = record {
  signalled = λ (u, r, t, s, d, l, n). s;
  recorded = λ slot (u, r, t, s, d, l, n). l;
  submitted = λ (u, r, t, s, d, l, n). n;
  lists = λ slot. omega arith;
  wait = λ value (u, r, t, s, d, l, n) h.
      ((u, r, t, s, d + value, l, n), refl, omega arith, omega arith, refl, refl);
  reset_allocator = λ slot w. (w, refl, omega arith, refl);
  reset_list =
      λ slot (u, r, t, s, d, l, n). ((u, false, t, s, d, [], n), refl, omega arith, refl, refl);
  copy = λ slot offset (u, r, t, s, d, l, n). (omega arith, refl, refl);
  close = λ slot w. (w, refl, omega arith, refl, refl);
  execute = λ slot (u, r, t, s, d, l, n). (omega arith, refl);
  signal =
      λ value (u, r, t, s, d, l, n). ((u, r, t, value, d, l, n), refl, omega arith, refl, refl);
}

abbrev upload_of : Option Host → ℕ
upload_of none = 0
upload_of (some (u, r, t, s, d, l, n)) = u

abbrev recorded_of : Option Host → Bool
recorded_of none = false
recorded_of (some (u, r, t, s, d, l, n)) = r

abbrev target_of : Option Host → ℕ
target_of none = 0
target_of (some (u, r, t, s, d, l, n)) = t

-- The same host for the ring of command lists.
abbrev start : Host
start = (0, false, 0, 0, 0, [], [])

device_open : open_device host_queue host_buffers start ≡ some start
unfolding open_device
device_open = refl

ring_open :
    ring_create host_queue start ≡ some (record { value = 0; ring_values = replicate 8 0 }, start)
unfolding ring_create create_slots
ring_open = refl

-- What the upload buffer holds after the markers.
abbrev filled : Host
filled = (9039, false, 0, 0, 0, [], [])

buffers_filled : fill_buffers host_queue host_buffers start ≡ some filled
unfolding fill_buffers write_markers
buffers_filled = refl

main_verdict_example :
    (u : Host) × (u' : Host) × (40 ≤ host_queue.completed u)
    × (host_queue-IsWorking.submitted u ≡ offsets 0 40 [])
    × (host_buffers.map_readback u ≡ some u')
    × let t = compare 0 (read_all host_queue host_buffers 0 40 u') no_mismatch in
      (Probe.main host_queue host_buffers start
        ≡ some ((exit_code 0 t, 0, t), host_buffers.release (host_buffers.unmap_readback u')))
      × ((exit_code 0 t ≡ 0) ↔ (read_all host_queue host_buffers 0 40 u' ≡ markers 0 40))
main_verdict_example =
    main_verdict host_queue host_buffers (record { value = 0; ring_values = replicate 8 0 }) start
      start start filled host_queue-IsWorking device_open ring_open buffers_filled (λ u. (u, refl))
