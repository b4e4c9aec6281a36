-- ===== src/AllocCap/Limit.antt =====
-- alloc_cap.c: what `alloc_cap_would_exceed` decides, and where the 64-bit sum and the full table
-- let a request pass that the limit should refuse.
use dlssnr_on_amd_linux.Common.{
  ℕ, ◌+◌, ◌≤◌, ◌<◌, ◌≡◌, ◌≢◌, ◌↔◌, refl, arith, true, false, ◌==◌, List, [], ◌∷◌, Bool-cases, inl,
  inr,
}
use dlssnr_on_amd_linux.AllocCap.{
  AllocCap, u64, initial, alloc_cap_reset, alloc_cap_would_exceed, alloc_cap_record,
  alloc_cap_release, alloc_cap_total,
}
use dlssnr_on_amd_linux.AllocCap.Entries.{outstanding}
use dlssnr_on_amd_linux.AllocCap.Totals.{
  IsCounted, initial-IsCounted, alloc_cap_record-IsCounted, alloc_cap_release-IsCounted,
}

-- With a limit other than 0 and a sum below 2 ^ 64, a request is refused exactly when the sum of
-- the current total and the request is strictly above the limit.
alloc_cap_would_exceed_iff :
    (current requested cap : ℕ)
    → cap ≢ 0
    → current + requested < u64
    → (alloc_cap_would_exceed current requested cap ≡ true) ↔ (cap < current + requested)
unfolding alloc_cap_would_exceed
alloc_cap_would_exceed_iff current requested cap set fits = ground arith

-- For 64-bit arguments whose sum reaches 2 ^ 64 while its wrapped value is within the limit, the
-- request is admitted although the true sum is above the limit.
pub alloc_cap_would_exceed_wraps :
    (current requested cap : ℕ)
    → current < u64
    → requested < u64
    → cap < u64
    → u64 ≤ current + requested
    → current + requested ≤ cap + u64
    → (alloc_cap_would_exceed current requested cap ≡ false) × (cap < current + requested)
unfolding alloc_cap_would_exceed
alloc_cap_would_exceed_wraps current requested cap c r k over wrapped = ground arith

-- With the table full and a 64-bit limit, recording an allocation does not count it: a later
-- request is admitted that fits the limit with the total before it, even where the total, the
-- unrecorded size and the request together exceed the limit.
pub alloc_cap_record_full_undercounts :
    (ptr size requested cap : ℕ) (c : AllocCap)
    → 4096 ≤ c.alloc_count
    → cap < u64
    → alloc_cap_total c + requested ≤ cap
    → cap < alloc_cap_total c + size + requested
    → alloc_cap_would_exceed (alloc_cap_total (alloc_cap_record ptr size c).1) requested cap ≡ false
unfolding alloc_cap_record alloc_cap_would_exceed alloc_cap_total
alloc_cap_record_full_undercounts ptr size requested cap c full word under over =
    elim (Bool-cases (ptr == 0)) [ inl null ↦ ground arith | inr live ↦ ground arith ]

-- The calls that change the table.
pub data Op : Type 0 where
  reset : Op
  record_alloc : ℕ → ℕ → Op
  release : ℕ → Op

pub apply : Op → AllocCap → AllocCap
apply reset c = alloc_cap_reset c
apply (record_alloc ptr size) c = (alloc_cap_record ptr size c).1
apply (release ptr) c = (alloc_cap_release ptr c).1

unfoldable pub run : List Op → AllocCap → AllocCap
unfolding apply
run [] c = c
run (op ∷ ops) c = run ops (apply op c)

-- The sizes that are passed are 64-bit words.
abbrev pub AreWords : List Op → Type 0
AreWords [] = Unit {0}
AreWords (record_alloc ptr size ∷ ops) = (size < u64) × AreWords ops
AreWords (op ∷ ops) = AreWords ops

alloc_cap_reset-IsCounted : (c : AllocCap) → IsCounted c → IsCounted (alloc_cap_reset c)
unfolding alloc_cap_reset outstanding
alloc_cap_reset-IsCounted c v = record {
  sized = record { sized = v.sized.sized; bounded = omega arith };
  words = tt;
  total = refl;
}

run-IsCounted : (ops : List Op) (c : AllocCap) → AreWords ops → IsCounted c → IsCounted (run ops c)
unfolding run apply
run-IsCounted [] c w v = v
run-IsCounted (reset ∷ ops) c w v = run-IsCounted ops _ w (alloc_cap_reset-IsCounted c v)
run-IsCounted (record_alloc ptr size ∷ ops) c w v =
    run-IsCounted ops _ w.1 (alloc_cap_record-IsCounted ptr size c w.0 v)
run-IsCounted (release ptr ∷ ops) c w v =
    run-IsCounted ops _ w (alloc_cap_release-IsCounted ptr c v)

-- After any run of resets, recordings of 64-bit sizes and releases from the program's start, the
-- total is the sum of the sizes of the entries in use modulo 2 ^ 64, each of these sizes is below 2
-- ^ 64, and at most 4096 of the 4096 slots are in use.
pub run-initial-IsCounted : (ops : List Op) → AreWords ops → IsCounted (run ops initial)
run-initial-IsCounted ops w = run-IsCounted ops initial w initial-IsCounted
