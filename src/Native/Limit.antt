-- ===== src/Native/Limit.antt =====
-- native.c, `unix_malloc` and `unix_free`: the limit on outstanding device memory.
pub mod Threads
pub mod Race
use dlssnr_on_amd_linux.Common.{
  ℕ, ◌+◌, ◌≤◌, ◌<◌, ◌≡◌, ◌≢◌, refl, ◌∙◌, pos, true, false, not, ◌&&◌, List, [], ◌∷◌, ◌==◌, int_eq,
  arith, ==_of_ne, Bool-cases, inl, inr,
}
use dlssnr_on_amd_linux.AllocCap.{
  AllocCap, u64, alloc_cap_would_exceed, alloc_cap_record, alloc_cap_release, alloc_cap_total,
}
use dlssnr_on_amd_linux.AllocCap.Entries.{outstanding}
use dlssnr_on_amd_linux.AllocCap.Totals.{
  IsCounted, sizes, alloc_cap_record-IsCounted, alloc_cap_release-IsCounted,
  sizes-alloc_cap_record-le, sizes-alloc_cap_release-le,
}
use dlssnr_on_amd_linux.Host.{Host}
use dlssnr_on_amd_linux.Native.{Native, Symbol, resolve}
use dlssnr_on_amd_linux.Native.Loading.{IsKept, resolve-IsKept}
use dlssnr_on_amd_linux.Native.Args.{ArgsMalloc, ArgsFree}
use dlssnr_on_amd_linux.Native.Memory.{ensure_vram_cap_read, limited_malloc, unix_malloc, unix_free}

-- A limit is set and has been read, and the tracked allocations stay within it.
pub record IsWithinCap {W : Type 0} (s : Native W) : Type 0 where
  pub counted : IsCounted s.alloc_cap
  pub read : s.vram_cap_read ≡ true
  pub active : s.vram_cap_bytes ≢ 0
  pub word : s.vram_cap_bytes < u64
  pub fits : sizes (outstanding s.alloc_cap) ≤ s.vram_cap_bytes

IsWithinCap-kept : {W : Type 0} (s s' : Native W) → IsKept s s' → IsWithinCap s → IsWithinCap s'
IsWithinCap-kept s s' k v = record {
  counted = rw k.alloc_cap v.counted;
  read = rw k.vram_cap_read v.read;
  active = rw k.vram_cap_bytes v.active;
  word = rw k.vram_cap_bytes v.word;
  fits = rw (k.alloc_cap, k.vram_cap_bytes) v.fits;
}

-- The table after a call, with the world of the call.
abbrev with_cap : {W : Type 0} → Native W → AllocCap → W → Native W
with_cap s c w = record s { alloc_cap = c; world = w }

record-IsWithinCap :
    {W : Type 0} (ptr size : ℕ) (s : Native W) (w : W)
    → size < u64
    → sizes (outstanding s.alloc_cap) + size ≤ s.vram_cap_bytes
    → IsWithinCap s
    → IsWithinCap (with_cap s (alloc_cap_record ptr size s.alloc_cap).1 w)
record-IsWithinCap ptr size s w word room v = record {
  counted = alloc_cap_record-IsCounted ptr size s.alloc_cap word v.counted;
  read = v.read;
  active = v.active;
  word = v.word;
  fits = omega (arith, sizes-alloc_cap_record-le ptr size s.alloc_cap v.counted.sized);
}

moved-IsWithinCap :
    {W : Type 0} (s : Native W) (w : W) → IsWithinCap s → IsWithinCap (with_cap s s.alloc_cap w)
moved-IsWithinCap s w v = record {
  counted = v.counted;
  read = v.read;
  active = v.active;
  word = v.word;
  fits = v.fits;
}

release-IsWithinCap :
    {W : Type 0} (ptr : ℕ) (s : Native W) (w : W)
    → IsWithinCap s
    → IsWithinCap (with_cap s (alloc_cap_release ptr s.alloc_cap).1 w)
release-IsWithinCap ptr s w v = record {
  counted = alloc_cap_release-IsCounted ptr s.alloc_cap v.counted;
  read = v.read;
  active = v.active;
  word = v.word;
  fits = omega (arith, sizes-alloc_cap_release-le ptr s.alloc_cap v.counted);
}

module _ (host : Host) where
  refused_over :
      (size : ℕ) (s : Native host.World)
      → size + s.vram_cap_bytes < u64
      → IsWithinCap s
      → s.vram_cap_bytes < sizes (outstanding s.alloc_cap) + size
      → alloc_cap_would_exceed (alloc_cap_total s.alloc_cap) size s.vram_cap_bytes ≡ true
  unfolding alloc_cap_would_exceed alloc_cap_total
  refused_over size s small v h = ground (arith, v.counted.total, v.fits, v.word, v.active)

  admitted_room :
      (size : ℕ) (s : Native host.World)
      → size + s.vram_cap_bytes < u64
      → IsWithinCap s
      → alloc_cap_would_exceed (alloc_cap_total s.alloc_cap) size s.vram_cap_bytes ≡ false
      → sizes (outstanding s.alloc_cap) + size ≤ s.vram_cap_bytes
  unfolding alloc_cap_would_exceed alloc_cap_total
  admitted_room size s small v h = ground (arith, v.counted.total, v.fits, v.word, v.active)

  limited_malloc-IsWithinCap :
      (fn : ℕ) (a : ArgsMalloc) (s : Native host.World)
      → a.size + s.vram_cap_bytes < u64
      → IsWithinCap s
      → IsWithinCap (limited_malloc host fn a s).1
  unfolding limited_malloc
  limited_malloc-IsWithinCap fn a s small v =
      let (ret, ptr, w) = host.hip_malloc fn a.size s.world in
      elim (Bool-cases
        (alloc_cap_would_exceed (alloc_cap_total s.alloc_cap) a.size s.vram_cap_bytes)) [
          | inl refused ↦ rw refused v
          | inr admitted ↦ elim (Bool-cases (int_eq ret 0 && not (ptr == 0))) [
            | inl done ↦
                rw (admitted, done)
                  (record-IsWithinCap ptr a.size s w (omega arith)
                    (admitted_room a.size s small v admitted) v)
            | inr failed ↦ rw (admitted, failed) (moved-IsWithinCap s w v)
          ]
        ]

  cap_read_once : (s : Native host.World) → s.vram_cap_read ≡ true → ensure_vram_cap_read host s ≡ s
  unfolding ensure_vram_cap_read
  cap_read_once s h = ground arith

  -- While a limit is set, an allocation of a size that with the limit stays below 2 ^ 64 keeps the
  -- tracked allocations within the limit, whatever the runtime answers.
  pub unix_malloc-IsWithinCap :
      (a : ArgsMalloc) (s : Native host.World)
      → a.size + s.vram_cap_bytes < u64
      → IsWithinCap s
      → IsWithinCap (unix_malloc host a s).1
  unfolding unix_malloc
  unix_malloc-IsWithinCap a s small v =
      let fn = (resolve host Symbol.malloc s).0 in
      let l = (resolve host Symbol.malloc s).1 in
      let kept = resolve-IsKept host Symbol.malloc s in
      let v' = IsWithinCap-kept s l kept v in
      elim (Bool-cases (fn == 0)) [
        | inl missing ↦ rw missing v'
        | inr there ↦
            rw (there, cap_read_once l v'.read)
              (limited_malloc-IsWithinCap fn a l (rw kept.vram_cap_bytes small) v')
      ]

  -- A release keeps them within it.
  pub unix_free-IsWithinCap :
      (a : ArgsFree) (s : Native host.World) → IsWithinCap s → IsWithinCap (unix_free host a s).1
  unfolding unix_free
  unix_free-IsWithinCap a s v =
      let fn = (resolve host Symbol.free s).0 in
      let l = (resolve host Symbol.free s).1 in
      let v' = IsWithinCap-kept s l (resolve-IsKept host Symbol.free s) v in
      let w = (host.hip_free fn a.ptr l.world).1 in
      elim (Bool-cases (fn == 0)) [
        | inl missing ↦ rw missing v'
        | inr there ↦ elim (Bool-cases (int_eq (host.hip_free fn a.ptr l.world).0 0)) [
          | inl done ↦ rw (there, done) (release-IsWithinCap a.ptr l w v')
          | inr failed ↦ rw (there, failed) (moved-IsWithinCap l w v')
        ]
      ]

  -- While a limit is set and read and the tracked allocations are within it, a request that would
  -- take them above it, and that does not reach 2 ^ 64 with the limit added, is refused as out of
  -- memory where hipMalloc can be called; the runtime is not asked, and the state changes only by
  -- the loading of the runtime.
  pub unix_malloc_over_limit :
      (a : ArgsMalloc) (s : Native host.World)
      → a.size + s.vram_cap_bytes < u64
      → IsWithinCap s
      → (resolve host Symbol.malloc s).0 ≢ 0
      → s.vram_cap_bytes < sizes (outstanding s.alloc_cap) + a.size
      → unix_malloc host a s ≡ (record a { ptr = 0; ret = pos 2 }, (resolve host Symbol.malloc s).1)
  unfolding unix_malloc limited_malloc
  unix_malloc_over_limit a s small v there over =
      let l = (resolve host Symbol.malloc s).1 in
      let kept = resolve-IsKept host Symbol.malloc s in
      let v' = IsWithinCap-kept s l kept v in
      let refused =
        refused_over a.size l (rw kept.vram_cap_bytes small) v'
          (rw (kept.vram_cap_bytes, kept.alloc_cap) over) in
      rw (==_of_ne _ 0 there, cap_read_once l v'.read, refused)

  -- The memory calls of a program, as the argument structs hold them.
  pub data MemoryCall : Type 0 where
    mallocs frees : ℕ → MemoryCall

  unfoldable pub memory_step : MemoryCall → Native host.World → Native host.World
  memory_step (mallocs size) s =
      (unix_malloc host (record { ptr = 0; size = size; ret = pos 0 }) s).1
  memory_step (frees ptr) s = (unix_free host (record { ptr = ptr; ret = pos 0 }) s).1

  unfoldable pub memory_run : List MemoryCall → Native host.World → Native host.World
  unfolding memory_step
  memory_run [] s = s
  memory_run (c ∷ cs) s = memory_run cs (memory_step c s)

  -- No requested size, with the limit, reaches 2 ^ 64.
  abbrev pub AreSmall : ℕ → List MemoryCall → Type 0
  AreSmall cap [] = Unit {0}
  AreSmall cap (mallocs size ∷ cs) = (size + cap < u64) × AreSmall cap cs
  AreSmall cap (frees ptr ∷ cs) = AreSmall cap cs

  cap-memory_step :
      (c : MemoryCall) (s : Native host.World)
      → s.vram_cap_read ≡ true
      → (memory_step c s).vram_cap_bytes ≡ s.vram_cap_bytes
  unfolding memory_step unix_malloc limited_malloc unix_free
  cap-memory_step (mallocs size) s h =
      let l = (resolve host Symbol.malloc s).1 in
      let kept = resolve-IsKept host Symbol.malloc s in
      ground (arith, kept.vram_cap_bytes, cap_read_once l (kept.vram_cap_read ∙ h))
  cap-memory_step (frees ptr) s h =
      ground (arith, (resolve-IsKept host Symbol.free s).vram_cap_bytes)

  memory_step-IsWithinCap :
      (c : MemoryCall) (cs : List MemoryCall) (s : Native host.World)
      → AreSmall s.vram_cap_bytes (c ∷ cs)
      → IsWithinCap s
      → IsWithinCap (memory_step c s) × AreSmall s.vram_cap_bytes cs
  unfolding memory_step
  memory_step-IsWithinCap (mallocs size) cs s small v =
      (unix_malloc-IsWithinCap (record { ptr = 0; size = size; ret = pos 0 }) s small.0 v, small.1)
  memory_step-IsWithinCap (frees ptr) cs s small v =
      (unix_free-IsWithinCap (record { ptr = ptr; ret = pos 0 }) s v, small)

  -- While a limit is set and read, the tracked allocations are within it and no requested size
  -- reaches 2 ^ 64 with the limit added, any sequence of allocations and releases leaves the
  -- tracked allocations within the limit, whatever the runtime answers, and leaves the limit as it
  -- was.
  pub memory_run-IsWithinCap :
      (cs : List MemoryCall) (s : Native host.World)
      → AreSmall s.vram_cap_bytes cs
      → IsWithinCap s
      → IsWithinCap (memory_run cs s) × ((memory_run cs s).vram_cap_bytes ≡ s.vram_cap_bytes)
  unfolding memory_run
  memory_run-IsWithinCap [] s small v = (v, refl)
  memory_run-IsWithinCap (c ∷ cs) s small v =
      let (v', small') = memory_step-IsWithinCap c cs s small v in
      let same = cap-memory_step c s v.read in
      let (v'', same') = memory_run-IsWithinCap cs (memory_step c s) (rw same small') v' in
      (v'', same' ∙ same)
