-- ===== src/IndexProbe.antt =====
-- windows-runtime-bridge/investigations/index_overflow_probe.c: the flat index of its kernel in 32-bit
-- arithmetic, and the sweep over dimension products until a launch faults. The launch and the wait for
-- the device are a parameter of the sweep.
pub mod Wrap
use dlssnr_on_amd_linux.Common.{
  Option, some, ◌>>=◌, ℕ, ◌+◌, ◌-◌, ◌*◌, ◌%◌, ◌^◌, ℤ, pos, List, [], ◌∷◌, int_eq, int_of_word,
  if◌then◌else◌,
}

-- `struct { int Z, H, W, C; }` of a case.
pub record Dims : Type 0 where
  pub z : ℕ
  pub h : ℕ
  pub w : ℕ
  pub c : ℕ

-- A coordinate in each dimension.
pub record Coords : Type 0 where
  pub z : ℕ
  pub y : ℕ
  pub x : ℕ
  pub c : ℕ

abbrev pub u32 : ℕ
u32 = 2 ^ 32

-- A sum or product of two ints, as a 32-bit word.
unfoldable pub mul_add : ℕ → ℕ → ℕ → ℕ
mul_add a b c = (a * b % u32 + c) % u32

-- `((z * H + y) * W + x) * C + c`; the first dimension is not read.
unfoldable pub flat_index : Dims → Coords → ℤ
unfolding mul_add
flat_index d at = int_of_word (mul_add (mul_add (mul_add at.z d.h at.y) d.w at.x) d.c at.c)

abbrev pub cases : List Dims
cases =
    record { z = 1; h = 1; w = 1; c = 1000 }
    ∷ record { z = 1000; h = 1000; w = 1000; c = 2 }
    ∷ record { z = 1024; h = 1024; w = 1024; c = 2 }
    ∷ record { z = 1024; h = 1024; w = 1024; c = 4 }
    ∷ record { z = 2048; h = 2048; w = 1024; c = 4 }
    ∷ []

-- The last element of each dimension.
abbrev pub last_element : Dims → Coords
last_element d = record { z = d.z - 1; y = d.h - 1; x = d.w - 1; c = d.c - 1 }

-- The codes of the launch and of the wait, for each case up to the first fault; `none` is a launch or
-- a wait that did not return.
unfoldable pub sweep :
    {W : Type 0} (launch : Dims → Coords → W → Option (ℤ × ℤ × W))
    → List Dims
    → W
    → Option (List (ℤ × ℤ) × W)
sweep launch [] w = some ([], w)
sweep launch (d ∷ ds) w = do
  (launch_ret, sync_ret, w') ← launch d (last_element d) w
  let rest = sweep launch ds w'
  if int_eq sync_ret 0
      then (rest >>= (λ (codes, w''). some ((launch_ret, sync_ret) ∷ codes, w'')))
      else some ((launch_ret, sync_ret) ∷ [], w')
