-- ===== src/AllocCap/Entries.antt =====
-- alloc_cap.c: the entries in use as a bag. A release takes out one entry and keeps the others,
-- though it changes their order.
use mathlib.Core.List.{Perm}
use mathlib.Core.List.Perm
use dlssnr_on_amd_linux.Common.{
  ℕ, zero, suc, ◌+◌, ◌-◌, ◌≤◌, ◌<◌, ◌≡◌, ◌≢◌, refl, ◌∙◌, none, some, List, [], ◌∷◌, arith, ◌==◌,
  length, get_or, set, take, length-set, length-replicate, Bool-cases, Option-cases, inl, inr, ◌⊎◌,
  All, ==_of_ne,
}
use dlssnr_on_amd_linux.AllocCap.{
  AllocCap, AllocEntry, no_entry, initial, alloc_cap_record, slot_of, drop_slot, alloc_cap_release,
}

-- The entries in use.
unfoldable pub outstanding : AllocCap → List AllocEntry
outstanding c = take c.alloc_count c.allocs

pub record IsSized (c : AllocCap) : Type 0 where
  pub sized : length c.allocs ≡ 4096
  pub bounded : c.alloc_count ≤ 4096

pub initial-IsSized : IsSized initial
unfolding initial
initial-IsSized = record { sized = length-replicate 4096 no_entry; bounded = omega arith }

pub alloc_cap_record-IsSized :
    (ptr size : ℕ) (c : AllocCap) → IsSized c → IsSized (alloc_cap_record ptr size c).1
unfolding alloc_cap_record
alloc_cap_record-IsSized ptr size c v =
    ground (arith, length-set c.allocs c.alloc_count (record { ptr = ptr; size = size }))

pub drop_slot-IsSized : (i : ℕ) (c : AllocCap) → IsSized c → IsSized (drop_slot i c).1
unfolding drop_slot
drop_slot-IsSized i c v = record {
  sized = length-set c.allocs i _ ∙ v.sized;
  bounded = omega arith;
}

pub alloc_cap_release-IsSized :
    (ptr : ℕ) (c : AllocCap) → IsSized c → IsSized (alloc_cap_release ptr c).1
unfolding alloc_cap_release
alloc_cap_release-IsSized ptr c v = elim (Bool-cases (ptr == 0)) [
  | inl null ↦ rw null v
  | inr live ↦ elim (Option-cases (slot_of ptr 0 c.allocs c.alloc_count)) [
    | inl miss ↦ rw (live, miss, alloc_cap_release) v
    | inr (i, hit) ↦ rw (live, hit, alloc_cap_release) (drop_slot-IsSized i c v)
  ]
]

-- What is found is a slot in use that holds the pointer.
pub slot_of-found :
    (ptr i n j : ℕ) (allocs : List AllocEntry)
    → slot_of ptr i allocs n ≡ some j
    → (k : ℕ) × (j ≡ i + k) × (k < n) × ((get_or allocs k no_entry).ptr ≡ ptr)
unfolding slot_of
slot_of-found ptr i zero j allocs h = cc
slot_of-found ptr i (suc n) j [] h = cc
slot_of-found ptr i (suc n) j (e ∷ allocs) h = elim (Bool-cases (e.ptr == ptr)) [
  | inl here ↦ (0, ground arith, omega arith, ground arith)
  | inr later ↦
      let (k, at, below, holds) = slot_of-found ptr (suc i) n j allocs (ground arith) in
      (suc k, omega arith, omega arith, holds)
]

pub slot_of-missing :
    (ptr i n : ℕ) (allocs : List AllocEntry)
    → slot_of ptr i allocs n ≡ none
    → All (λ e. e.ptr ≢ ptr) (take n allocs)
unfolding slot_of
slot_of-missing ptr i zero allocs h = tt
slot_of-missing ptr i (suc n) [] h = tt
slot_of-missing ptr i (suc n) (e ∷ allocs) h = ground (arith, slot_of-missing ptr (suc i) n allocs)

take_last-perm :
    {A : Type 0} (d : A) (n : ℕ) (xs : List A)
    → n < length xs
    → Perm (take (suc n) xs) (get_or xs n d ∷ take n xs)
take_last-perm d n [] h = absurd (omega arith)
take_last-perm d zero (x ∷ xs) h = Perm.refl (x ∷ [])
take_last-perm d (suc n) (x ∷ xs) h =
    Perm.trans (Perm.cons x (take_last-perm d n xs (omega arith))) (Perm.swap _ x _)

-- Moving the last of the first `suc n` entries into slot `k` and shortening takes out entry `k`.
drop_swap :
    {A : Type 0} (d : A) (n k : ℕ) (xs : List A)
    → k ≤ n
    → n < length xs
    → Perm (take (suc n) xs) (get_or xs k d ∷ take n (set xs k (get_or xs n d)))
drop_swap d n k [] h l = absurd (omega arith)
drop_swap d zero zero (x ∷ xs) h l = Perm.refl (x ∷ [])
drop_swap d zero (suc k) (x ∷ xs) h l = absurd (omega arith)
drop_swap d (suc n) zero (x ∷ xs) h l = Perm.cons x (take_last-perm d n xs (omega arith))
drop_swap d (suc n) (suc k) (x ∷ xs) h l =
    Perm.trans (Perm.cons x (drop_swap d n k xs (omega arith) (omega arith))) (Perm.swap _ x _)

-- What a release of a pointer does to the entries: it takes out one that holds the pointer and
-- returns its size, or finds none and changes nothing.
abbrev pub Releases : ℕ → AllocCap → ℕ × AllocCap → Type 0
Releases ptr c (size, c') =
    ((e : AllocEntry) × (e.ptr ≡ ptr) × (size ≡ e.size) × Perm (outstanding c) (e ∷ outstanding c'))
    ⊎ (All (λ (e : AllocEntry). e.ptr ≢ ptr) (outstanding c) × (size ≡ 0) × (c' ≡ c))

drop_slot-perm :
    (k n : ℕ) (c : AllocCap)
    → IsSized c
    → c.alloc_count ≡ suc n
    → k ≤ n
    → Perm (outstanding c) (get_or c.allocs k no_entry ∷ outstanding (drop_slot k c).1)
unfolding outstanding drop_slot
drop_slot-perm k n c v e h =
    let e' : c.alloc_count - 1 ≡ n = omega arith in
    rw (e', e) (drop_swap no_entry n k c.allocs h (omega arith))

-- In a table of the proper size, releasing a pointer that is not NULL takes out one entry that
-- holds it, returns the size of that entry and keeps all other entries, up to their order; if no
-- entry in use holds it, it returns 0 and changes nothing.
pub alloc_cap_release-Releases :
    (ptr : ℕ) (c : AllocCap) → IsSized c → ptr ≢ 0 → Releases ptr c (alloc_cap_release ptr c)
unfolding alloc_cap_release
alloc_cap_release-Releases ptr c v live =
    elim (Option-cases (slot_of ptr 0 c.allocs c.alloc_count)) [
      | inl miss ↦
          rw (==_of_ne ptr 0 live, miss, alloc_cap_release) (inr (missing miss, refl, refl))
      | inr (j, hit) ↦
          let (k, at, below, holds) = slot_of-found ptr 0 c.alloc_count j c.allocs hit in
          let same : j ≡ k = omega arith in
          rw (==_of_ne ptr 0 live, hit, alloc_cap_release)
            (inl (
              get_or c.allocs j no_entry,
              rw same holds,
              refl,
              drop_slot-perm j (c.alloc_count - 1) c v (omega arith) (omega arith),
            ))
    ]
  where
    missing :
        slot_of ptr 0 c.allocs c.alloc_count ≡ none
        → All (λ (e : AllocEntry). e.ptr ≢ ptr) (outstanding c)
    missing miss = unfold outstanding in slot_of-missing ptr 0 c.alloc_count c.allocs miss
