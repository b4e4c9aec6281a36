-- ===== src/RingSubmission/Slots.antt =====
-- The ring of faithful_submission_probe.c: what its slots hold, and that a submission keeps a ring valid.
use dlssnr_on_amd_linux.Common.{
  ℕ, zero, suc, ◌+◌, ◌-◌, ◌%◌, ◌^◌, ◌≤◌, ◌<◌, ◌≡◌, ◌≢◌, refl, subst, arith, ◌⊎◌, inl, inr, ◌==◌,
  get_or, set, length, length-set, get_or-set_same, get_or-set_ne, replicate, Bool-cases,
}
use dlssnr_on_amd_linux.RingSubmission.{RingSubmission}

-- What a slot holds: nothing while the ring has not come around to it, else the fence value of its
-- last submission, which is one of the last eight.
abbrev Holds : ℕ → ℕ → ℕ → Type 0
Holds i value x =
    ((x ≡ 0) × (value ≤ i)) ⊎ ((x ≢ 0) × ((x - 1) % 8 ≡ i) × (x ≤ value) × (value < x + 8))

pub record IsRing (r : RingSubmission) : Type 0 where
  pub sized : length r.ring_values ≡ 8
  pub word : r.value < 2 ^ 64
  pub holds : (i : ℕ) → i < 8 → Holds i r.value (get_or r.ring_values i 0)

pub Holds-next : (i value x : ℕ) → i < 8 → value % 8 ≢ i → Holds i value x → Holds i (value + 1) x
Holds-next i value x small other (inl (fresh, h)) = inl (fresh, omega arith)
Holds-next i value x small other (inr (used, at, below, recent)) =
    inr (used, at, omega arith, omega arith)

pub Holds-new : (value : ℕ) → Holds (value % 8) (value + 1) (value + 1)
Holds-new value = inr (omega arith, omega arith, omega arith, omega arith)

-- The last submission on the slot that is next was eight submissions ago.
pub Holds-due : (value x : ℕ) → Holds (value % 8) value x → x ≢ 0 → value ≡ x + 7
Holds-due value x (inl (fresh, h)) used = absurd (used fresh)
Holds-due value x (inr (_, at, below, recent)) used = omega arith

pub Holds-few : (value x : ℕ) → Holds (value % 8) value x → x ≡ 0 → (c : ℕ) → value ≤ c + 7
Holds-few value x (inl (fresh, h)) unused c = omega arith
Holds-few value x (inr (used, _, _, _)) unused c = absurd (used unused)

get_or-replicate : (n i d : ℕ) → get_or (replicate n d) i d ≡ d
get_or-replicate zero i d = refl
get_or-replicate (suc n) zero d = refl
get_or-replicate (suc n) (suc i) d = get_or-replicate n i d

pub created-IsRing : IsRing (record { value = 0; ring_values = replicate 8 0 })
created-IsRing = record {
  sized = refl;
  word = omega arith;
  holds = λ i below. inl (get_or-replicate 8 i 0, omega arith);
}

-- The state after a submission.
abbrev pub submitted : RingSubmission → RingSubmission
submitted r = record {
  value = r.value + 1;
  ring_values = set r.ring_values (r.value % 8) (r.value + 1);
}

pub submitted-IsRing : (r : RingSubmission) → r.value + 1 < 2 ^ 64 → IsRing r → IsRing (submitted r)
submitted-IsRing r small v = record {
  sized = rw (length-set r.ring_values (r.value % 8) (r.value + 1)) v.sized;
  word = small;
  holds = λ i below. elim (Bool-cases (r.value % 8 == i)) [
    | inl same ↦
        let e : r.value % 8 ≡ i = ground arith in
        subst
          (λ j. Holds j (r.value + 1) (get_or (set r.ring_values (r.value % 8) (r.value + 1)) j 0))
          e
          (rw (get_or-set_same r.ring_values (r.value % 8) (r.value + 1) 0 (omega (arith, v.sized)))
            (Holds-new r.value))
    | inr other ↦
        rw (get_or-set_ne r.ring_values (r.value % 8) i (r.value + 1) 0 (ground arith))
          (Holds-next i r.value (get_or r.ring_values i 0) below (ground arith) (v.holds i below))
  ];
}
