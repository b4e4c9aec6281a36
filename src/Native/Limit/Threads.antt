-- ===== src/Native/Limit/Threads.antt =====
-- native.c, `unix_malloc` and `unix_free`, called from several threads: nothing locks the table of
-- allocations between the check of the limit and the recording, which surround the real hipMalloc.
-- A step is one call of alloc_cap.c; what the machine does when two such calls overlap is left out.
use dlssnr_on_amd_linux.Common.{
  ℕ, zero, suc, ◌+◌, ◌*◌, ◌≤◌, ◌<◌, ◌≡◌, ◌≢◌, refl, ap, arith, false, List, [], ◌∷◌, ◌++◌, length,
  All,
}
use dlssnr_on_amd_linux.AllocCap.{
  AllocCap, u64, alloc_cap_would_exceed, alloc_cap_record, alloc_cap_release, alloc_cap_total,
}
use dlssnr_on_amd_linux.AllocCap
use dlssnr_on_amd_linux.AllocCap.Entries.{outstanding}
use dlssnr_on_amd_linux.AllocCap.Totals.{
  IsCounted, sizes, initial-IsCounted, alloc_cap_record-IsCounted, alloc_cap_release-IsCounted,
  sizes-alloc_cap_record-le, sizes-alloc_cap_release-le,
}

-- `pending` are the sizes that have passed the check and are not recorded yet, one for each thread
-- that is inside hipMalloc.
pub record Shared : Type 0 where
  pub alloc_cap : AllocCap
  pub pending : List ℕ

abbrev pub start : Shared
start = record { alloc_cap = AllocCap.initial; pending = [] }

abbrev pub sum : List ℕ → ℕ
sum [] = 0
sum (x ∷ xs) = x + sum xs

module _ (cap threads largest : ℕ) where
  -- The steps of `threads` threads under a limit `cap`, whose requests are at most `largest`.
  pub data Step : Shared → Shared → Type 0 where
    admit :
        {s : Shared} (size : ℕ)
        → size ≤ largest
        → length s.pending < threads
        → alloc_cap_would_exceed (alloc_cap_total s.alloc_cap) size cap ≡ false
        → Step s (record s { pending = size ∷ s.pending })
    complete :
        {s : Shared} (ptr size : ℕ) (before after : List ℕ)
        → s.pending ≡ before ++ size ∷ after
        → Step s (record {
          alloc_cap = (alloc_cap_record ptr size s.alloc_cap).1;
          pending = before ++ after;
        })
    fail :
        {s : Shared} (size : ℕ) (before after : List ℕ)
        → s.pending ≡ before ++ size ∷ after
        → Step s (record s { pending = before ++ after })
    free :
        {s : Shared} (ptr : ℕ)
        → Step s (record s { alloc_cap = (alloc_cap_release ptr s.alloc_cap).1 })

  pub data Reach : Shared → Shared → Type 0 where
    stay : {s : Shared} → Reach s s
    then_ : {s t u : Shared} → Step s t → Reach t u → Reach s u

  -- What is outstanding, with what is on its way.
  abbrev pub claimed : Shared → ℕ
  claimed s = sizes (outstanding s.alloc_cap) + sum s.pending

  record IsBounded (s : Shared) : Type 0 where
    pub counted : IsCounted s.alloc_cap
    pub small : All (λ size. size ≤ largest) s.pending
    pub within : claimed s + largest ≤ cap + threads * largest

  sum_le :
      (xs : List ℕ) (n : ℕ) → All (λ size. size ≤ largest) xs → length xs ≤ n → sum xs ≤ n * largest
  sum_le [] n small short = omega arith
  sum_le (x ∷ xs) zero small short = omega arith
  sum_le (x ∷ xs) (suc n) small short = omega (arith, sum_le xs n small.1 (omega arith))

  sum_room :
      (xs : List ℕ) (n : ℕ)
      → All (λ size. size ≤ largest) xs
      → length xs < n
      → sum xs + largest ≤ n * largest
  sum_room xs zero small short = omega arith
  sum_room xs (suc n) small short = omega (arith, sum_le xs n small (omega arith))

  sum-removed :
      (before after : List ℕ) (size : ℕ)
      → sum (before ++ size ∷ after) ≡ size + sum (before ++ after)
  sum-removed [] after size = refl
  sum-removed (x ∷ before) after size = omega (arith, sum-removed before after size)

  All-removed :
      (before after : List ℕ) (size : ℕ)
      → All (λ size. size ≤ largest) (before ++ size ∷ after)
      → (size ≤ largest) × All (λ size. size ≤ largest) (before ++ after)
  All-removed [] after size h = h
  All-removed (x ∷ before) after size h =
      let (own, rest) = All-removed before after size h.1 in (own, (h.0, rest))

  admitted :
      (s : Shared) (size : ℕ)
      → cap ≢ 0
      → cap + threads * largest < u64
      → IsBounded s
      → size ≤ largest
      → length s.pending < threads
      → alloc_cap_would_exceed (alloc_cap_total s.alloc_cap) size cap ≡ false
      → sizes (outstanding s.alloc_cap) + size ≤ cap
  unfolding alloc_cap_would_exceed alloc_cap_total
  admitted s size set word v small idle passed =
      let total = v.counted.total in let bound = v.within in ground arith

  Step-IsBounded :
      (s t : Shared)
      → cap ≢ 0
      → 1 ≤ threads
      → cap + threads * largest < u64
      → Step s t
      → IsBounded s
      → IsBounded t
  Step-IsBounded s t set some_ word (admit size small idle passed) v = record {
    counted = v.counted;
    small = (small, v.small);
    within = omega (
      arith,
      admitted s size set word v small idle passed,
      sum_room s.pending threads v.small idle,
    );
  }
  Step-IsBounded s t set some_ word (complete ptr size before after here) v =
      let (own, rest) = All-removed before after size (rw here at v.small) in
      let bound = v.within in
      record {
        counted = alloc_cap_record-IsCounted ptr size s.alloc_cap (omega arith) v.counted;
        small = rest;
        within = omega (
          arith,
          sizes-alloc_cap_record-le ptr size s.alloc_cap v.counted.sized,
          sum-removed before after size,
          ap sum here,
        );
      }
  Step-IsBounded s t set some_ word (fail size before after here) v =
      let (own, rest) = All-removed before after size (rw here at v.small) in
      let bound = v.within in
      record {
        counted = v.counted;
        small = rest;
        within = omega (arith, sum-removed before after size, ap sum here);
      }
  Step-IsBounded s t set some_ word (free ptr) v =
      let bound = v.within in
      record {
        counted = alloc_cap_release-IsCounted ptr s.alloc_cap v.counted;
        small = v.small;
        within = omega (arith, sizes-alloc_cap_release-le ptr s.alloc_cap v.counted);
      }

  Reach-IsBounded :
      (s t : Shared)
      → cap ≢ 0
      → 1 ≤ threads
      → cap + threads * largest < u64
      → Reach s t
      → IsBounded s
      → IsBounded t
  Reach-IsBounded s t set some_ word stay v = v
  Reach-IsBounded s t set some_ word (then_ {t = m} step rest) v =
      Reach-IsBounded m t set some_ word rest (Step-IsBounded s m set some_ word step v)

  start-IsBounded : 1 ≤ threads → IsBounded start
  unfolding AllocCap.initial outstanding
  start-IsBounded some_ = record {
    counted = initial-IsCounted;
    small = tt;
    within = omega (arith, sum_room [] threads tt (omega arith));
  }

  -- Under a limit other than 0, with at least one thread and requests of at most `largest`, where
  -- the limit and a largest request of each thread together are below 2 ^ 64: however the checks,
  -- recordings, failures and releases of the threads follow each other from the start of the
  -- program, the allocations that the table holds exceed the limit by at most one largest request
  -- for each thread but one. With one thread they never exceed it. Allocations that found the table
  -- full are not among them.
  pub Reach-within :
      (t : Shared)
      → cap ≢ 0
      → 1 ≤ threads
      → cap + threads * largest < u64
      → Reach start t
      → sizes (outstanding t.alloc_cap) + largest ≤ cap + threads * largest
  Reach-within t set some_ word path =
      let bound = (Reach-IsBounded start t set some_ word path (start-IsBounded some_)).within in
      omega arith
