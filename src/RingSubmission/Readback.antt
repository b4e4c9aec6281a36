-- ===== src/RingSubmission/Readback.antt =====
-- windows-runtime-bridge/investigations/faithful_submission_probe.c, `main`: the markers that are
-- uploaded, and the comparison of what is read back.
use dlssnr_on_amd_linux.Common.{
  ℕ, zero, suc, ◌+◌, ◌%◌, ◌^◌, ◌≤◌, ◌≡◌, ◌↔◌, refl, ap, sym, arith, true, false, Option, none, some,
  List, [], ◌∷◌, ◌==◌, if◌then◌else◌, length, ◌∙◌, ==_refl, Bool-cases, inl, inr,
}

abbrev pub marker : ℕ → ℕ
marker i = (9000 + i) % 2 ^ 32

unfoldable pub markers : ℕ → ℕ → List ℕ
markers i zero = []
markers i (suc rounds) = marker i ∷ markers (suc i) rounds

-- The count of mismatches, and the index, the expected and the found value of the first.
pub record Tally : Type 0 where
  pub mismatches : ℕ
  pub first : Option (ℕ × ℕ × ℕ)

unfoldable pub check_marker : ℕ → ℕ → Tally → Tally
check_marker i got t = if got == marker i then t else record {
  mismatches = t.mismatches + 1;
  first = if t.mismatches == 0 then some (i, marker i, got) else t.first;
}

unfoldable pub compare : ℕ → List ℕ → Tally → Tally
compare i [] t = t
compare i (got ∷ rest) t = compare (suc i) rest (check_marker i got t)

abbrev pub no_mismatch : Tally
no_mismatch = record { mismatches = 0; first = none }

check_marker-le : (i got : ℕ) (t : Tally) → t.mismatches ≤ (check_marker i got t).mismatches
unfolding check_marker
check_marker-le i got t = ground arith

compare-le : (i : ℕ) (xs : List ℕ) (t : Tally) → t.mismatches ≤ (compare i xs t).mismatches
unfolding compare
compare-le i [] t = omega arith
compare-le i (got ∷ rest) t =
    omega (arith, check_marker-le i got t, compare-le (suc i) rest (check_marker i got t))

check_marker_same : (i got : ℕ) (t : Tally) → (got == marker i) ≡ true → check_marker i got t ≡ t
unfolding check_marker
check_marker_same i got t h = rw h refl

check_marker_other :
    (i got : ℕ) (t : Tally)
    → (got == marker i) ≡ false
    → (check_marker i got t).mismatches ≡ t.mismatches + 1
unfolding check_marker
check_marker_other i got t h = rw h refl

compare_sound :
    (i : ℕ) (xs : List ℕ) (t : Tally)
    → (compare i xs t).mismatches ≡ t.mismatches
    → xs ≡ markers i (length xs)
unfolding compare markers
compare_sound i [] t h = refl
compare_sound i (got ∷ rest) t h = elim (Bool-cases (got == marker i)) [
  | inl same ↦
      let e : got ≡ marker i = ground arith in
      let kept = ap (λ u. (compare (suc i) rest u).mismatches) (check_marker_same i got t same) in
      ap (λ g. g ∷ rest) e ∙ ap (◌∷◌ (marker i)) (compare_sound (suc i) rest t (sym kept ∙ h))
  | inr other ↦ absurd (
      omega (
        arith,
        check_marker_other i got t other,
        compare-le (suc i) rest (check_marker i got t),
        h,
      ))
]

compare_complete : (i n : ℕ) (t : Tally) → compare i (markers i n) t ≡ t
unfolding compare markers
compare_complete i zero t = refl
compare_complete i (suc n) t =
    ap (compare (suc i) (markers (suc i) n)) (check_marker_same i (marker i) t (==_refl (marker i)))
    ∙ compare_complete (suc i) n t

-- The comparison of what is read back counts no mismatch exactly if it is the list of the markers
-- that were uploaded, from the first on.
pub compare_iff :
    (read : List ℕ)
    → ((compare 0 read no_mismatch).mismatches ≡ 0) ↔ (read ≡ markers 0 (length read))
compare_iff read = (
  compare_sound 0 read no_mismatch,
  λ same.
      ap (λ xs. (compare 0 xs no_mismatch).mismatches) same
      ∙ ap (λ t. t.mismatches) (compare_complete 0 (length read) no_mismatch),
)
