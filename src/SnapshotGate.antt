-- ===== src/SnapshotGate.antt =====
-- windows-runtime-bridge/investigations/snapshot_gate.c: is the producer's command list the last one
-- of the batch just submitted, and only there? The array may be null (`none`).
pub mod Laws
use dlssnr_on_amd_linux.Common.{
  ℕ, zero, suc, ◌-◌, Bool, true, false, not, ◌||◌, Option, none, some, List, [], ◌∷◌, ◌==◌, ltb,
  if◌then◌else◌, get_or,
}

-- The loop over the entries before the last: does none of them equal the producer?
unfoldable pub absent_before : ℕ → List ℕ → ℕ → Bool
absent_before producer_list lists zero = true
absent_before producer_list [] (suc rounds) = true
absent_before producer_list (l ∷ lists) (suc rounds) =
    if l == producer_list then false else absent_before producer_list lists rounds

unfoldable pub snapshot_batch_match : ℕ → ℕ → ℕ → Option (List ℕ) → ℕ → Bool
unfolding absent_before
snapshot_batch_match producer_thread current_thread producer_list none count = false
snapshot_batch_match producer_thread current_thread producer_list (some lists) count =
    if producer_list == 0 || count == 0 || ltb 64 count || not (producer_thread == current_thread)
    then false
    else if not (get_or lists (count - 1) 0 == producer_list)
    then false
    else absent_before producer_list lists (count - 1)
