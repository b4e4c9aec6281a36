-- ===== src/IndexProbe/Wrap.antt =====
-- The flat index of index_overflow_probe.c is exact below 2 ^ 31 and wraps above.
use dlssnr_on_amd_linux.Common.{
  false, Option, some, ◌⊎◌, ℕ, ◌+◌, ◌-◌, ◌*◌, ◌%◌, ◌/◌, ◌^◌, ◌<◌, ◌≤◌, ◌≡◌, refl, sym, ap, ◌∙◌,
  arith, ℤ, negsuc, List, [], ◌∷◌, int_eq, int_of_word, Bool-cases, inl, inr, true,
}
use native.Mathlib.Nat.{
  add-mul, mul_assoc, mod-add-div, mod-add-mod, mod-mod, add-mul-mod_self_left,
}
use dlssnr_on_amd_linux.IndexProbe.{Dims, Coords, u32, mul_add, flat_index, last_element, sweep}

-- The index without any bound.
abbrev pub exact_index : Dims → Coords → ℕ
exact_index d at = ((at.z * d.h + at.y) * d.w + at.x) * d.c + at.c

mul-mod : (a b m : ℕ) → a % m * b % m ≡ a * b % m
mul-mod a b m =
    let split : a * b ≡ a % m * b + m * (a / m * b) =
      ap (λ k. k * b) (sym (mod-add-div a m))
      ∙ add-mul (a % m) (m * (a / m)) b
      ∙ ap (λ k. a % m * b + k) (mul_assoc m (a / m) b) in
    rw split (sym (add-mul-mod_self_left (a % m * b) m (a / m * b)))

mul_add_lem : (a b c : ℕ) → mul_add (a % u32) b c ≡ (a * b + c) % u32
unfolding mul_add
mul_add_lem a b c = rw (mul-mod a b u32, mod-add-mod (a * b) u32 c) refl

mul_add_exact : (a b c : ℕ) → mul_add a b c ≡ (a * b + c) % u32
unfolding mul_add
mul_add_exact a b c = mod-add-mod (a * b) u32 c

-- For all dimensions and coordinates, the flat index whose sums and products each wrap at 32 bits
-- is the exact index read as a 32-bit two's-complement int.
pub flat_index-exact_index :
    (d : Dims) (at : Coords) → flat_index d at ≡ int_of_word (exact_index d at)
unfolding flat_index int_of_word
flat_index-exact_index d at =
    rw
      (
        mul_add_exact at.z d.h at.y,
        mul_add_lem (at.z * d.h + at.y) d.w at.x,
        mul_add_lem ((at.z * d.h + at.y) * d.w + at.x) d.c at.c,
        mod-mod (exact_index d at) u32,
      )
      refl

-- An exact index from 2 ^ 31 up to below 2 ^ 32 comes out as a negative int, the exact index minus
-- 2 ^ 32.
flat_index_wraps :
    (d : Dims) (at : Coords)
    → 2 ^ 31 ≤ exact_index d at
    → exact_index d at < 2 ^ 32
    → flat_index d at ≡ negsuc (2 ^ 32 - exact_index d at - 1)
unfolding int_of_word
flat_index_wraps d at low high =
    let value = exact_index d at in flat_index-exact_index d at ∙ ground arith

-- One pair of codes for each case, up to and with the first wait that reports an error.
abbrev pub StopsAtFault : List Dims → List (ℤ × ℤ) → Type 0
StopsAtFault [] rs = rs ≡ []
StopsAtFault (d ∷ ds) [] = ⊥
StopsAtFault (d ∷ ds) (r ∷ rs) =
    ((int_eq r.1 0 ≡ true) × StopsAtFault ds rs) ⊎ ((int_eq r.1 0 ≡ false) × (rs ≡ []))

-- Where every launch and wait returns, the sweep over any list of cases ends, with one pair of
-- codes for each case up to and with the first wait that reports an error.
pub sweep-StopsAtFault :
    {W : Type 0} (launch : Dims → Coords → W → Option (ℤ × ℤ × W)) (ds : List Dims) (w : W)
    → ((d : Dims) (at : Coords) (u : W) → (r : ℤ × ℤ × W) × (launch d at u ≡ some r))
    → (rs : List (ℤ × ℤ)) × (w' : W) × (sweep launch ds w ≡ some (rs, w')) × StopsAtFault ds rs
unfolding sweep
sweep-StopsAtFault launch [] w returns = ([], w, refl, refl)
sweep-StopsAtFault launch (d ∷ ds) w returns =
    let ((launch_ret, sync_ret, w1), e) = returns d (last_element d) w in
    let (rs, w2, e2, stops) = sweep-StopsAtFault launch ds w1 returns in
    elim (Bool-cases (int_eq sync_ret 0)) [
      | inl ok ↦ ((launch_ret, sync_ret) ∷ rs, w2, rw (e, ok, e2) refl, inl (ok, stops))
      | inr fault ↦ ((launch_ret, sync_ret) ∷ [], w1, rw (e, fault) refl, inr (fault, refl))
    ]
