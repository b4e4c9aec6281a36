-- ===== src/AllocCap.antt =====
-- windows-runtime-bridge/hip-unixlib/alloc_cap.c: the table of outstanding device allocations
-- behind the opt-in limit DLSSNR_VRAM_CAP_BYTES. Sizes and the running total are
-- `unsigned long long`, so sums wrap at 2 ^ 64.
pub mod Entries
pub mod Totals
pub mod Limit
use dlssnr_on_amd_linux.Common.{
  ℕ, zero, suc, ◌+◌, ◌-◌, ◌%◌, ◌^◌, Option, none, some, List, [], ◌∷◌, Bool, true, false, ◌||◌, leb,
  ltb, ◌==◌, if◌then◌else◌, get_or, set, replicate,
}

abbrev pub max_tracked_allocs : ℕ
max_tracked_allocs = 4096

abbrev pub u64 : ℕ
u64 = 2 ^ 64

pub record AllocEntry : Type 0 where
  pub ptr : ℕ
  pub size : ℕ

abbrev pub no_entry : AllocEntry
no_entry = record { ptr = 0; size = 0 }

pub record AllocCap : Type 0 where
  pub allocs : List AllocEntry
  pub alloc_count : ℕ
  pub total_bytes : ℕ

unfoldable pub initial : AllocCap
initial = record {
  allocs = replicate max_tracked_allocs no_entry;
  alloc_count = 0;
  total_bytes = 0;
}

unfoldable pub alloc_cap_reset : AllocCap → AllocCap
alloc_cap_reset c = record c { alloc_count = 0; total_bytes = 0 }

unfoldable pub alloc_cap_would_exceed : ℕ → ℕ → ℕ → Bool
alloc_cap_would_exceed current_total requested_size cap_bytes =
    if cap_bytes == 0 then false else ltb cap_bytes ((current_total + requested_size) % u64)

unfoldable pub alloc_cap_record : ℕ → ℕ → AllocCap → ℕ × AllocCap
alloc_cap_record ptr size c = if ptr == 0 || leb max_tracked_allocs c.alloc_count then (0, c) else (
  1,
  record c {
    allocs = set c.allocs c.alloc_count (record { ptr = ptr; size = size });
    alloc_count = c.alloc_count + 1;
    total_bytes = (c.total_bytes + size) % u64;
  },
)

-- The loop of `alloc_cap_release`, over the rounds left: the first slot that holds the pointer.
unfoldable pub slot_of : ℕ → ℕ → List AllocEntry → ℕ → Option ℕ
slot_of ptr i allocs zero = none
slot_of ptr i [] (suc rounds) = none
slot_of ptr i (e ∷ allocs) (suc rounds) =
    if e.ptr == ptr then some i else slot_of ptr (suc i) allocs rounds

-- The body of that loop at the slot: the last entry moves into it.
unfoldable pub drop_slot : ℕ → AllocCap → ℕ × AllocCap
drop_slot i c =
    let size = (get_or c.allocs i no_entry).size in
    (
      size,
      record c {
        allocs = set c.allocs i (get_or c.allocs (c.alloc_count - 1) no_entry);
        alloc_count = c.alloc_count - 1;
        total_bytes = (c.total_bytes + u64 - size) % u64;
      },
    )

unfoldable pub alloc_cap_release : ℕ → AllocCap → ℕ × AllocCap
unfolding slot_of drop_slot
alloc_cap_release ptr c =
    if ptr == 0
    then (0, c)
    else elim (slot_of ptr 0 c.allocs c.alloc_count) [ none ↦ (0, c) | some i ↦ drop_slot i c ]

unfoldable pub alloc_cap_total : AllocCap → ℕ
alloc_cap_total c = c.total_bytes
