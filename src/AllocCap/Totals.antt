-- ===== src/AllocCap/Totals.antt =====
-- alloc_cap.c: the running total is the sum of the sizes of the entries in use, modulo 2 ^ 64.
use dlssnr_on_amd_linux.Common.{
  ℕ, zero, suc, ◌+◌, ◌-◌, ◌%◌, ◌≤◌, ◌<◌, ◌≡◌, ◌≢◌, refl, List, [], ◌∷◌, ◌++◌, arith, leb, ◌==◌,
  length, get_or, set, take, All, Bool-cases, Option-cases, inl, inr, take-set, ==_of_ne, leb_of_lt,
  ◌||◌, ◌⊎◌,
}
use dlssnr_on_amd_linux.AllocCap.{
  AllocCap, AllocEntry, no_entry, u64, initial, alloc_cap_record, slot_of, drop_slot,
  alloc_cap_release,
}
use dlssnr_on_amd_linux.AllocCap.Entries.{
  outstanding, IsSized, initial-IsSized, alloc_cap_record-IsSized, drop_slot-IsSized, slot_of-found,
}

abbrev pub sizes : List AllocEntry → ℕ
sizes [] = 0
sizes (e ∷ es) = e.size + sizes es

abbrev Words : List AllocEntry → Type 0
Words = All (λ (e : AllocEntry). e.size < u64)

pub record IsCounted (c : AllocCap) : Type 0 where
  pub sized : IsSized c
  pub words : Words (outstanding c)
  pub total : c.total_bytes ≡ sizes (outstanding c) % u64

sizes-append : (xs ys : List AllocEntry) → sizes (xs ++ ys) ≡ sizes xs + sizes ys
sizes-append [] ys = omega arith
sizes-append (x ∷ xs) ys = omega (arith, sizes-append xs ys)

Words-append : (xs ys : List AllocEntry) → Words xs → Words ys → Words (xs ++ ys)
Words-append [] ys hx hy = hy
Words-append (x ∷ xs) ys hx hy = (hx.0, Words-append xs ys hx.1 hy)

-- The sum, the words and the moved entry, as `drop_slot` leaves them.
abbrev Dropped : ℕ → ℕ → List AllocEntry → Type 0
Dropped n k xs =
    let e = get_or xs k no_entry in
    let rest = take n (set xs k (get_or xs n no_entry)) in
    (sizes (take (suc n) xs) ≡ e.size + sizes rest) × (e.size < u64) × Words rest

sizes-take_last :
    (n : ℕ) (xs : List AllocEntry)
    → n < length xs
    → Words (take (suc n) xs)
    → (sizes (take (suc n) xs) ≡ (get_or xs n no_entry).size + sizes (take n xs))
      × ((get_or xs n no_entry).size < u64)
      × Words (take n xs)
sizes-take_last n [] h w = absurd (omega arith)
sizes-take_last zero (x ∷ xs) h w = (refl, w.0, tt)
sizes-take_last (suc n) (x ∷ xs) h w =
    let (sum, word, rest) = sizes-take_last n xs (omega arith) w.1 in
    (omega arith, word, (w.0, rest))

Dropped-all :
    (n k : ℕ) (xs : List AllocEntry)
    → k ≤ n
    → n < length xs
    → Words (take (suc n) xs)
    → Dropped n k xs
Dropped-all n k [] h l w = absurd (omega arith)
Dropped-all zero zero (x ∷ xs) h l w = (refl, w.0, tt)
Dropped-all zero (suc k) (x ∷ xs) h l w = absurd (omega arith)
Dropped-all (suc n) zero (x ∷ xs) h l w =
    let (sum, word, rest) = sizes-take_last n xs (omega arith) w.1 in
    (omega arith, w.0, (word, rest))
Dropped-all (suc n) (suc k) (x ∷ xs) h l w =
    let (sum, word, rest) = Dropped-all n k xs (omega arith) (omega arith) w.1 in
    (omega arith, word, (w.0, rest))

sub_word :
    (total s t rest : ℕ)
    → total ≡ t % u64
    → t ≡ s + rest
    → s < u64
    → (total + u64 - s) % u64 ≡ rest % u64
sub_word total s t rest e f h = omega arith

drop_slot-IsCounted :
    (k n : ℕ) (c : AllocCap)
    → c.alloc_count ≡ suc n
    → k ≤ n
    → IsCounted c
    → IsCounted (drop_slot k c).1
unfolding drop_slot outstanding
drop_slot-IsCounted k n c e h v =
    let e' : c.alloc_count - 1 ≡ n = omega arith in
    let (sum, word, rest) =
      Dropped-all n k c.allocs h (omega (arith, v.sized.sized, v.sized.bounded))
        (rw e at v.words) in
    record {
      sized = drop_slot-IsSized k c v.sized;
      words = rw e' rest;
      total = rw e' (sub_word c.total_bytes _ _ _ (rw e at v.total) sum word);
    }

pub alloc_cap_release-IsCounted :
    (ptr : ℕ) (c : AllocCap) → IsCounted c → IsCounted (alloc_cap_release ptr c).1
unfolding alloc_cap_release
alloc_cap_release-IsCounted ptr c v = elim (Bool-cases (ptr == 0)) [
  | inl null ↦ rw null v
  | inr live ↦ elim (Option-cases (slot_of ptr 0 c.allocs c.alloc_count)) [
    | inl miss ↦ rw (live, miss, alloc_cap_release) v
    | inr (j, hit) ↦
        let (k, at, below, holds) = slot_of-found ptr 0 c.alloc_count j c.allocs hit in
        rw (live, hit, alloc_cap_release)
          (drop_slot-IsCounted j (c.alloc_count - 1) c (omega arith) (omega arith) v)
  ]
]

-- Recording appends the entry, where it records.
pub alloc_cap_record-appends :
    (ptr size : ℕ) (c : AllocCap)
    → IsSized c
    → ptr ≢ 0
    → c.alloc_count < 4096
    → outstanding (alloc_cap_record ptr size c).1
      ≡ outstanding c ++ record { ptr = ptr; size = size } ∷ []
unfolding outstanding alloc_cap_record
alloc_cap_record-appends ptr size c v live room =
    let next : c.alloc_count + 1 ≡ suc c.alloc_count = omega arith in
    rw (==_of_ne ptr 0 live, leb_of_lt 4096 c.alloc_count room, next)
      (take-set c.alloc_count c.allocs _ (omega arith))

record_cases :
    (ptr size : ℕ) (c : AllocCap)
    → ((ptr ≢ 0)
        × (c.alloc_count < 4096)
        × ((alloc_cap_record ptr size c).1.total_bytes ≡ (c.total_bytes + size) % u64))
      ⊎ (alloc_cap_record ptr size c ≡ (0, c))
unfolding alloc_cap_record
record_cases ptr size c = elim (Bool-cases (ptr == 0 || leb 4096 c.alloc_count)) [
  | inl refused ↦ inr (rw refused)
  | inr taken ↦ inl (ground arith, ground arith, rw taken)
]

-- The invariant survives a recording, of any pointer and any size that is a 64-bit word.
pub alloc_cap_record-IsCounted :
    (ptr size : ℕ) (c : AllocCap)
    → size < u64
    → IsCounted c
    → IsCounted (alloc_cap_record ptr size c).1
alloc_cap_record-IsCounted ptr size c word v = elim (record_cases ptr size c) [
  | inr same ↦ rw same v
  | inl (live, room, total) ↦
      let grown = alloc_cap_record-appends ptr size c v.sized live room in
      record {
        sized = alloc_cap_record-IsSized ptr size c v.sized;
        words = rw grown (Words-append (outstanding c) _ v.words (word, tt));
        total =
            rw (grown, total, sizes-append (outstanding c) (record { ptr = ptr; size = size } ∷ []))
              (omega (arith, v.total));
      }
]

pub initial-IsCounted : IsCounted initial
unfolding initial outstanding
initial-IsCounted = record { sized = initial-IsSized; words = tt; total = refl }

-- A recording adds at most its size to the sum.
pub sizes-alloc_cap_record-le :
    (ptr size : ℕ) (c : AllocCap)
    → IsSized c
    → sizes (outstanding (alloc_cap_record ptr size c).1) ≤ sizes (outstanding c) + size
sizes-alloc_cap_record-le ptr size c v = elim (record_cases ptr size c) [
  | inr same ↦ rw same (omega arith)
  | inl (live, room, total) ↦
      rw (alloc_cap_record-appends ptr size c v live room)
        (omega (arith, sizes-append (outstanding c) (record { ptr = ptr; size = size } ∷ [])))
]

sizes-drop_slot-le :
    (k n : ℕ) (c : AllocCap)
    → c.alloc_count ≡ suc n
    → k ≤ n
    → IsCounted c
    → sizes (outstanding (drop_slot k c).1) ≤ sizes (outstanding c)
unfolding drop_slot outstanding
sizes-drop_slot-le k n c e h v =
    let e' : c.alloc_count - 1 ≡ n = omega arith in
    let (sum, word, rest) =
      Dropped-all n k c.allocs h (omega (arith, v.sized.sized, v.sized.bounded))
        (rw e at v.words) in
    rw (e', e) (omega arith)

-- A release never raises the sum.
pub sizes-alloc_cap_release-le :
    (ptr : ℕ) (c : AllocCap)
    → IsCounted c
    → sizes (outstanding (alloc_cap_release ptr c).1) ≤ sizes (outstanding c)
unfolding alloc_cap_release
sizes-alloc_cap_release-le ptr c v = elim (Bool-cases (ptr == 0)) [
  | inl null ↦ rw null (omega arith)
  | inr live ↦ elim (Option-cases (slot_of ptr 0 c.allocs c.alloc_count)) [
    | inl miss ↦ rw (live, miss, alloc_cap_release) (omega arith)
    | inr (j, hit) ↦
        let (k, at, below, holds) = slot_of-found ptr 0 c.alloc_count j c.allocs hit in
        rw (live, hit, alloc_cap_release)
          (sizes-drop_slot-le j (c.alloc_count - 1) c (omega arith) (omega arith) v)
  ]
]
