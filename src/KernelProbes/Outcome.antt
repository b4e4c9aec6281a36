-- ===== src/KernelProbes/Outcome.antt =====
-- index_overflow_probe.c and the probes like it in windows-runtime-bridge/investigations: what is
-- known of a program that does not crash, put together step by step.
use dlssnr_on_amd_linux.Common.{
  ℤ, ℕ, ◌≡◌, ◌≢◌, refl, pos, Bool, true, false, not, ◌==◌, Option, none, some, List, [], ◌∷◌,
  ==_of_ne, Bool-cases, inl, inr,
}
use dlssnr_on_amd_linux.KernelProbes.{
  Gpu, Program, continue, require, through, Symbols, ComgrCall, open_runtime, find_symbols,
  has_required, has_device, at_least_one, start_device, run_checked, run_logged, free_buffer,
}

-- The program does not crash, and what it returns satisfies `P`, if it does not exit early.
abbrev pub Ends : {W A : Type 0} → (A → Type 0) → Option (Option A × W) → Type 0
Ends P none = ⊥
Ends P (some (none, w)) = Unit
Ends P (some (some a, w)) = P a

pub continue-Ends :
    {W A B : Type 0} (P : A → Type 0) (Q : B → Type 0) (f : A → Program W B)
    (r : Option (Option A × W))
    → Ends P r
    → ((a : A) → P a → (w' : W) → Ends Q (f a w'))
    → Ends Q (continue f r)
continue-Ends P Q f none h next = h
continue-Ends P Q f (some (none, w)) h next = tt
continue-Ends P Q f (some (some a, w)) h next = next a h w

-- The functions that the test on the symbols leaves out are there.
pub record IsComplete (s : Symbols) : Type 0 where
  pub set_device : s.set_device ≢ 0
  pub malloc : s.malloc ≢ 0
  pub free : s.free ≢ 0
  pub device_synchronize : s.device_synchronize ≢ 0

pub require-Ends : {W : Type 0} (b : Bool) (w : W) → Ends (λ _. b ≡ true) (require b w)
require-Ends true w = refl
require-Ends false w = tt

pub require-Ends-any : {W : Type 0} (b : Bool) (w : W) → Ends (λ _. Unit {0}) (require b w)
require-Ends-any true w = tt
require-Ends-any false w = tt

pub through-Ends :
    {W A : Type 0} (fn : ℕ) (call : ℕ → W → A × W) (w : W)
    → fn ≢ 0
    → Ends (λ _. Unit {0}) (through fn call w)
through-Ends fn call w there = rw (==_of_ne fn 0 there, Ends) tt

-- A machine on which comgr does not crash, and where the runtime reports a fault of the GPU as a code
-- of the wait and does not abort the process.
pub record IsSteady (gpu : Gpu) : Type 0 where
  pub compiles : (c : ComgrCall) (w : gpu.World) → (r : ℕ × gpu.World) × (gpu.comgr c w ≡ some r)
  pub reports :
      (fn : ℕ) (w : gpu.World) → (r : ℤ × gpu.World) × (gpu.device_synchronize fn w ≡ some r)

module _ (gpu : Gpu) where
  open_runtime-Ends : (w : gpu.World) → Ends (λ _. Unit {0}) (open_runtime gpu w)
  unfolding open_runtime
  open_runtime-Ends w =
      let (h, w1) = gpu.dlopen "libamdhip64.so.7" w in
      let (h', w2) = gpu.dlopen "libamdhip64.so" w1 in
      elim (Bool-cases (not (h == 0))) [
        | inl first ↦ rw (first, Ends) tt
        | inr missing ↦ elim (Bool-cases (not (h' == 0))) [
          | inl second ↦ rw (missing, second, Ends) tt
          | inr none_opens ↦ rw (missing, none_opens, Ends) tt
        ]
      ]

  -- Where the symbols that are not tested are there, the device is set without a crash.
  pub start_device-Ends :
      (P : Symbols → Type 0) (w : gpu.World)
      → ((s : Symbols) → P s → s.set_device ≢ 0)
      → ((h : ℕ) (u : gpu.World) → P (find_symbols gpu h u))
      → Ends P (start_device gpu w)
  unfolding start_device has_device
  start_device-Ends P w sets complete =
      continue-Ends (λ _. Unit {0}) P _ _ (open_runtime-Ends w)
        (λ h there w1.
          let s = find_symbols gpu h w1 in
          continue-Ends (λ b. has_required gpu s ≡ true) P _ _
            (require-Ends (has_required gpu s) w1)
            (λ _ required w2.
              let (ret, count, w3) = gpu.get_device_count s.get_device_count w2 in
              continue-Ends (λ b. Unit {0}) P _ _ (require-Ends-any (at_least_one count) w3)
                (λ _ _ w4.
                  continue-Ends (λ b. Unit {0}) P _ _
                    (through-Ends s.set_device (λ fn. gpu.set_device fn (pos 0)) w4
                      (sets s (complete h w1)))
                    (λ _ _ w5. complete h w1))))

  pub run_checked-Ends :
      (cs : List ComgrCall) (w : gpu.World)
      → IsSteady gpu
      → Ends (λ _. Unit {0}) (run_checked gpu cs w)
  unfolding run_checked
  run_checked-Ends [] w steady = tt
  run_checked-Ends (c ∷ cs) w steady =
      let ((status, w'), e) = steady.compiles c w in
      let rest = run_checked-Ends cs w' steady in
      elim (Bool-cases (status == 0)) [
        | inl ok ↦ rw (e, ok, Ends) rest
        | inr failed ↦ rw (e, failed, Ends) tt
      ]

  pub run_logged-Ends :
      (cs : List ComgrCall) (w : gpu.World)
      → IsSteady gpu
      → Ends (λ _. Unit {0}) (run_logged gpu cs w)
  unfolding run_logged
  run_logged-Ends [] w steady = tt
  run_logged-Ends (c ∷ cs) w steady =
      let ((status, w'), e) = steady.compiles c w in rw (e, Ends) (run_logged-Ends cs w' steady)

  pub free_buffer-Ends :
      (s : Symbols) (buf : ℕ) (w : gpu.World)
      → s.free ≢ 0
      → Ends (λ _. Unit {0}) (free_buffer gpu s buf w)
  unfolding free_buffer
  free_buffer-Ends s buf w there = elim (Bool-cases (buf == 0)) [
    | inl null ↦ rw (null, Ends) tt
    | inr used ↦ rw (used, ==_of_ne s.free 0 there, Ends) tt
  ]
