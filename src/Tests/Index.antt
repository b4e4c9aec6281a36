-- ===== src/Tests/Index.antt =====
-- Tests of the index probe.
use dlssnr_on_amd_linux.Common.{
  Option, some, ℕ, ◌+◌, ◌≡◌, refl, ℤ, pos, [], ◌∷◌, int_of_word, ltb, if◌then◌else◌,
}
use dlssnr_on_amd_linux.IndexProbe.{Dims, Coords, cases, last_element, flat_index, sweep}
use dlssnr_on_amd_linux.IndexProbe.Wrap.{exact_index, flat_index-exact_index}

-- The case at the edge of 2 ^ 32, whose last index is -1.
abbrev edge : Dims
edge = record { z = 1024; h = 1024; w = 1024; c = 4 }

flat_index-exact_index_example :
    flat_index edge (last_element edge) ≡ int_of_word (exact_index edge (last_element edge))
flat_index-exact_index_example = flat_index-exact_index edge (last_element edge)

-- The world counts the launches; the third one faults.
abbrev third_faults : Dims → Coords → ℕ → Option (ℤ × ℤ × ℕ)
third_faults d at n = some (pos 0, (if ltb n 2 then pos 0 else pos 700), n + 1)

three_launches :
    sweep third_faults cases 0 ≡ some ((pos 0, pos 0) ∷ (pos 0, pos 0) ∷ (pos 0, pos 700) ∷ [], 3)
unfolding sweep
three_launches = refl
