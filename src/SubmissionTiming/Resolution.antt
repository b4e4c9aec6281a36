-- ===== src/SubmissionTiming/Resolution.antt =====
-- windows-runtime-bridge/investigations/submission_timing_probe.c: the body of the loop, where a slot
-- is seen resolved, keeps the invariant.
use dlssnr_on_amd_linux.Common.{
  ℕ, ◌≤◌, ◌<◌, ◌≡◌, refl, subst, ◌∙◌, arith, pos, true, false, ltb, Bool-cases, inl, inr, ◌⊎◌,
  length-set, ltb_of_le, ltb_of_lt,
}
use dlssnr_on_amd_linux.SubmissionTiming.{Poll, is_resolved, time_of, lt_int, gt_int, resolve}
use dlssnr_on_amd_linux.SubmissionTiming.Order.{
  Reordered, Inverted, IsJudged, IsHighest, other_slot, own_slot, seen_slot, open_slot,
  kept-Reordered, kept-Inverted, ℤ-cases,
}

-- The verdict, for a new slot that is the highest.
highest-verdict :
    (i now : ℕ) (p : Poll)
    → i < 8
    → is_resolved p i ≡ false
    → IsJudged now p
    → IsHighest i p
    → ((p.out_of_order ≡ false) × ¬ Inverted (resolve i now p))
      ⊎ ((p.out_of_order ≡ true) × Reordered (resolve i now p))
highest-verdict i now p small open_ v highest = elim v.verdict [
  | inl (ordered, none_) ↦ inl (ordered, λ h. none_ (kept-Inverted i now p small v highest h))
  | inr (reordered, pair) ↦ inr (reordered, kept-Reordered i now p open_ pair)
]

-- The index of the highest slot: none yet, below the new slot, or above it.
last-cases :
    (i now : ℕ) (p : Poll)
    → is_resolved p i ≡ false
    → IsJudged now p
    → ((lt_int i p.last_resolved_index ≡ false)
        × (gt_int i p.last_resolved_index ≡ true)
        × IsHighest i p)
      ⊎ ((m : ℕ) × (p.last_resolved_index ≡ pos m) × (i < m))
unfolding IsHighest
last-cases i now p open_ v = elim (ℤ-cases p.last_resolved_index) [
  | inr (n, e) ↦ inl (rw e refl, rw e refl, λ j h. let (m, e', below) = v.last j h in ground arith)
  | inl (m, e) ↦
      let apart = open_slot i m p open_ (v.held m e) in
      elim (Bool-cases (ltb i m)) [
        | inl above ↦ inr (m, e, ground arith)
        | inr below ↦
            inl (
              rw e below,
              rw e (ground arith),
              λ j h. let (m', e', le) = v.last j h in ground arith,
            )
      ]
]

resolved_past :
    (i now : ℕ) (p : Poll)
    → i < 8
    → IsJudged now p
    → (j : ℕ) → is_resolved (resolve i now p) j ≡ true
    → time_of (resolve i now p) j ≤ now
resolved_past i now p small v j h = elim (seen_slot i j now p small v h) [
  | inl (own, time) ↦ omega arith
  | inr (other, before, time) ↦ omega (arith, v.past j before)
]

resolve_highest :
    (i now : ℕ) (p : Poll)
    → i < 8
    → is_resolved p i ≡ false
    → lt_int i p.last_resolved_index ≡ false
    → gt_int i p.last_resolved_index ≡ true
    → IsHighest i p
    → IsJudged now p
    → IsJudged now (resolve i now p)
unfolding resolve IsHighest
resolve_highest i now p small open_ lt gt highest v =
    let moved : (resolve i now p).last_resolved_index ≡ pos i = rw gt refl in
    record {
      sized = length-set p.resolved i true ∙ v.sized;
      timed = length-set p.resolved_at i now ∙ v.timed;
      past = resolved_past i now p small v;
      last = λ j h. elim (seen_slot i j now p small v h) [
        | inl (own, time) ↦ (i, moved, omega arith)
        | inr (other, before, time) ↦ (i, moved, omega (arith, highest j before))
      ];
      held = λ m e.
          let same : i ≡ m = ground arith in
          subst (λ k. is_resolved (resolve i now p) k ≡ true) same (own_slot i now p small v).0;
      verdict = rw lt (highest-verdict i now p small open_ v highest);
    }

resolve_below :
    (i m now : ℕ) (p : Poll)
    → i < 8
    → is_resolved p i ≡ false
    → p.last_resolved_index ≡ pos m
    → i < m
    → IsJudged now p
    → IsJudged now (resolve i now p)
unfolding resolve
resolve_below i m now p small open_ e above v =
    let (kept, time) = other_slot i m now p (omega arith) in
    let stays : (resolve i now p).last_resolved_index ≡ pos m =
      rw (e, ltb_of_le m i (omega arith)) refl in
    let (own, now_) = own_slot i now p small v in
    let held = v.held m e in
    record {
      sized = length-set p.resolved i true ∙ v.sized;
      timed = length-set p.resolved_at i now ∙ v.timed;
      past = resolved_past i now p small v;
      last = λ j h. elim (seen_slot i j now p small v h) [
        | inl (same, time) ↦ (m, stays, omega arith)
        | inr (other, before, time) ↦
            let (m', e', le) = v.last j before in
            let same : m ≡ m' = ground arith in (m, stays, omega arith)
      ];
      held = λ k e'.
          let same : m ≡ k = ground arith in
          subst (λ k. is_resolved (resolve i now p) k ≡ true) same (kept ∙ held);
      verdict = inr (
        rw (e, ltb_of_lt i m above) refl,
        (i, m, above, own, kept ∙ held, omega (arith, v.past m held)),
      );
    }

pub resolve-IsJudged :
    (i now : ℕ) (p : Poll)
    → i < 8
    → is_resolved p i ≡ false
    → IsJudged now p
    → IsJudged now (resolve i now p)
resolve-IsJudged i now p small open_ v = elim (last-cases i now p open_ v) [
  | inl (lt, gt, highest) ↦ resolve_highest i now p small open_ lt gt highest v
  | inr (m, e, above) ↦ resolve_below i m now p small open_ e above v
]

pub later-IsJudged : (now now' : ℕ) (p : Poll) → now ≤ now' → IsJudged now p → IsJudged now' p
later-IsJudged now now' p le v = record {
  sized = v.sized;
  timed = v.timed;
  past = λ i h. omega (arith, v.past i h);
  last = v.last;
  held = v.held;
  verdict = v.verdict;
}
