-- ===== src/SubmissionTiming/Order.antt =====
-- windows-runtime-bridge/investigations/submission_timing_probe.c: what the verdict of the probe says
-- about the times at which the results were seen.
use dlssnr_on_amd_linux.Common.{
  ℕ, zero, suc, ◌≤◌, ◌<◌, ◌≡◌, ◌≢◌, refl, sym, subst, ◌∙◌, arith, ℤ, pos, negsuc, true, false, ◌==◌,
  Bool-cases, inl, inr, ◌⊎◌, length, get_or, get_or-set_same, get_or-set_ne, replicate,
}
use dlssnr_on_amd_linux.SubmissionTiming.{Poll, is_resolved, time_of, fresh, resolve}

-- A later submission was seen resolved at the time of an earlier one, or before.
abbrev pub Reordered : Poll → Type 0
Reordered p =
    (i : ℕ) × (j : ℕ) × (i < j)
    × (is_resolved p i ≡ true)
    × (is_resolved p j ≡ true)
    × (time_of p j ≤ time_of p i)

-- A later submission was seen resolved strictly before an earlier one.
abbrev pub Inverted : Poll → Type 0
Inverted p =
    (i : ℕ) × (j : ℕ) × (i < j)
    × (is_resolved p i ≡ true)
    × (is_resolved p j ≡ true)
    × (time_of p j < time_of p i)

-- The invariant of the loop, before the counter shows `now`.
pub record IsJudged (now : ℕ) (p : Poll) : Type 0 where
  pub sized : length p.resolved ≡ 8
  pub timed : length p.resolved_at ≡ 8
  pub past : (i : ℕ) → is_resolved p i ≡ true → time_of p i ≤ now
  pub last : (i : ℕ) → is_resolved p i ≡ true → (m : ℕ) × (p.last_resolved_index ≡ pos m) × (i ≤ m)
  pub held : (m : ℕ) → p.last_resolved_index ≡ pos m → is_resolved p m ≡ true
  pub verdict : ((p.out_of_order ≡ false) × ¬ Inverted p) ⊎ ((p.out_of_order ≡ true) × Reordered p)

pub unresolved : (n i : ℕ) → get_or (replicate n false) i false ≡ true → ⊥
unresolved zero i h = ground arith
unresolved (suc n) zero h = ground arith
unresolved (suc n) (suc i) h = unresolved n i h

pub fresh-IsJudged : (now : ℕ) → IsJudged now fresh
unfolding fresh
fresh-IsJudged now = record {
  sized = refl;
  timed = refl;
  past = λ i h. absurd (unresolved 8 i h);
  last = λ i h. absurd (unresolved 8 i h);
  held = λ m e. ground arith;
  verdict = inl (refl, λ (i, j, below, h, h', time). unresolved 8 i h);
}

pub ℤ-cases : (x : ℤ) → ((m : ℕ) × (x ≡ pos m)) ⊎ ((n : ℕ) × (x ≡ negsuc n))
ℤ-cases (pos m) = inl (m, refl)
ℤ-cases (negsuc n) = inr (n, refl)

-- What a resolution leaves as it was.
pub other_slot :
    (i j now : ℕ) (p : Poll)
    → i ≢ j
    → (is_resolved (resolve i now p) j ≡ is_resolved p j)
      × (time_of (resolve i now p) j ≡ time_of p j)
unfolding resolve
other_slot i j now p other =
    (get_or-set_ne p.resolved i j true false other, get_or-set_ne p.resolved_at i j now 0 other)

pub own_sized :
    (i now : ℕ) (p : Poll)
    → i < 8
    → length p.resolved ≡ 8
    → length p.resolved_at ≡ 8
    → (is_resolved (resolve i now p) i ≡ true) × (time_of (resolve i now p) i ≡ now)
unfolding resolve
own_sized i now p small sized timed = (
  get_or-set_same p.resolved i true false (omega (arith, sized)),
  get_or-set_same p.resolved_at i now 0 (omega (arith, timed)),
)

pub own_slot :
    (i now : ℕ) (p : Poll)
    → i < 8
    → IsJudged now p
    → (is_resolved (resolve i now p) i ≡ true) × (time_of (resolve i now p) i ≡ now)
own_slot i now p small v = own_sized i now p small v.sized v.timed

-- A slot that is resolved afterwards is the new one, or was resolved before at the same time.
pub seen_slot :
    (i j now : ℕ) (p : Poll)
    → i < 8
    → IsJudged now p
    → is_resolved (resolve i now p) j ≡ true
    → ((j ≡ i) × (time_of (resolve i now p) j ≡ now))
      ⊎ ((j ≢ i) × (is_resolved p j ≡ true) × (time_of (resolve i now p) j ≡ time_of p j))
seen_slot i j now p small v h = elim (Bool-cases (i == j)) [
  | inl same ↦
      let e : i ≡ j = ground arith in
      inl (sym e, subst (λ k. time_of (resolve i now p) k ≡ now) e (own_slot i now p small v).1)
  | inr other ↦
      let (kept, time) = other_slot i j now p (ground arith) in
      inr (ground arith, sym kept ∙ h, time)
]

pub open_slot : (i j : ℕ) (p : Poll) → is_resolved p i ≡ false → is_resolved p j ≡ true → i ≢ j
open_slot i j p open_ h e =
    let h' : is_resolved p i ≡ true = subst (λ k. is_resolved p k ≡ true) (sym e) h in ground arith

pub kept-Reordered :
    (i now : ℕ) (p : Poll) → is_resolved p i ≡ false → Reordered p → Reordered (resolve i now p)
kept-Reordered i now p open_ (a, b, below, ha, hb, times) =
    let (ra, ta) = other_slot i a now p (open_slot i a p open_ ha) in
    let (rb, tb) = other_slot i b now p (open_slot i b p open_ hb) in
    (a, b, below, ra ∙ ha, rb ∙ hb, omega arith)

-- The new slot is above every slot that is resolved.
unfoldable pub IsHighest : ℕ → Poll → Type 0
IsHighest i p = (j : ℕ) → is_resolved p j ≡ true → j < i

pub kept-Inverted :
    (i now : ℕ) (p : Poll)
    → i < 8
    → IsJudged now p
    → IsHighest i p
    → Inverted (resolve i now p)
    → Inverted p
unfolding IsHighest
kept-Inverted i now p small v highest (a, b, below, ha, hb, times) =
    elim (seen_slot i a now p small v ha) [
      | inl (ea, ta) ↦ elim (seen_slot i b now p small v hb) [
        | inl (eb, tb) ↦ absurd (omega arith)
        | inr (nb, rb, tb) ↦ absurd (omega (arith, highest b rb))
      ]
      | inr (na, ra, ta) ↦ elim (seen_slot i b now p small v hb) [
        | inl (eb, tb) ↦ absurd (omega (arith, v.past a ra))
        | inr (nb, rb, tb) ↦ (a, b, below, ra, rb, omega arith)
      ]
    ]
