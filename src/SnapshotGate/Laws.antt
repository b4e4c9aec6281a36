-- ===== src/SnapshotGate/Laws.antt =====
-- snapshot_gate.c decides its specification.
use dlssnr_on_amd_linux.Common.{
  ℕ, zero, suc, ◌≤◌, ◌≡◌, ◌≢◌, ◌↔◌, refl, true, some, List, [], ◌∷◌, get_or, length, arith,
}
use dlssnr_on_amd_linux.SnapshotGate.{absent_before, snapshot_batch_match}

-- The list occurs in the batch exactly once, and last.
abbrev pub IsLastOnce : ℕ → List ℕ → Type 0
IsLastOnce p [] = ⊥
IsLastOnce p (l ∷ []) = l ≡ p
IsLastOnce p (l ∷ m ∷ ls) = (l ≢ p) × IsLastOnce p (m ∷ ls)

IsLastOnce-sound :
    (p n : ℕ) (ls : List ℕ)
    → length ls ≡ suc n
    → get_or ls n 0 ≡ p
    → absent_before p ls n ≡ true
    → IsLastOnce p ls
unfolding absent_before
IsLastOnce-sound p n [] e last h = absurd (omega arith)
IsLastOnce-sound p zero (l ∷ []) e last h = last
IsLastOnce-sound p (suc n) (l ∷ []) e last h = absurd (omega arith)
IsLastOnce-sound p zero (l ∷ m ∷ ls) e last h = absurd (omega arith)
IsLastOnce-sound p (suc n) (l ∷ m ∷ ls) e last h =
    (ground arith, IsLastOnce-sound p n (m ∷ ls) (omega arith) last (ground arith))

IsLastOnce-complete :
    (p n : ℕ) (ls : List ℕ)
    → length ls ≡ suc n
    → IsLastOnce p ls
    → (get_or ls n 0 ≡ p) × (absent_before p ls n ≡ true)
unfolding absent_before
IsLastOnce-complete p n [] e h = absurd (omega arith)
IsLastOnce-complete p zero (l ∷ []) e h = (h, refl)
IsLastOnce-complete p (suc n) (l ∷ []) e h = absurd (omega arith)
IsLastOnce-complete p zero (l ∷ m ∷ ls) e h = absurd (omega arith)
IsLastOnce-complete p (suc n) (l ∷ m ∷ ls) e h =
    ground (arith, IsLastOnce-complete p n (m ∷ ls) (omega arith) h.1)

-- For a batch given with its true length, the gate passes exactly if the producer's list is not
-- NULL, the batch has at most 64 lists, both threads are the same, and the producer's list occurs
-- in the batch exactly once and last.
pub snapshot_batch_match_iff :
    (producer_thread current_thread producer_list : ℕ) (lists : List ℕ)
    → (snapshot_batch_match producer_thread current_thread producer_list (some lists) (length lists)
        ≡ true)
      ↔ ((producer_list ≢ 0)
          × (length lists ≤ 64)
          × (producer_thread ≡ current_thread)
          × IsLastOnce producer_list lists)
unfolding snapshot_batch_match
snapshot_batch_match_iff t u p [] = (λ h. ground arith, λ h. absurd h.3)
snapshot_batch_match_iff t u p (l ∷ ls) = (
  λ h. (
    ground arith,
    ground arith,
    ground arith,
    IsLastOnce-sound p (length ls) (l ∷ ls) refl (ground arith) (ground arith),
  ),
  λ h. ground (arith, IsLastOnce-complete p (length ls) (l ∷ ls) refl h.3),
)
