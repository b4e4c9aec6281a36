-- ===== src/Common/Ints.antt =====
-- C's `int`, pointers and byte strings. An `int` is an integer (`negsuc n` is -(n + 1)); an
-- unsigned word and an address are numbers, the null pointer is 0.
use Prim.Native.Nat.{ℕ, ◌-◌, ◌%◌, ◌^◌}
use Prim.Native.Char.{code}
use Prim.Native.String.{String}
use mathlib.Core.Bool.{Bool, true, false, ◌&&◌}
use mathlib.Core.List.{List, [], ◌∷◌}
use dlssnr_on_amd_linux.Common.Tests.{ltb, leb, ◌==◌, if◌then◌else◌}

pub data ℤ : Type 0 where
  pos : ℕ → ℤ
  negsuc : ℕ → ℤ

abbrev pub minus_one : ℤ
minus_one = negsuc 0

-- `x < 0`
abbrev pub is_negative : ℤ → Bool
is_negative (pos n) = false
is_negative (negsuc n) = true

-- `x == n`, for a constant that is not negative.
abbrev pub int_eq : ℤ → ℕ → Bool
int_eq (pos m) n = m == n
int_eq (negsuc m) n = false

-- `lo <= x && x <= hi`, for constants that are not negative.
abbrev pub int_between : ℕ → ℕ → ℤ → Bool
int_between lo hi (pos m) = leb lo m && leb m hi
int_between lo hi (negsuc m) = false

-- `(int)(intptr_t)p`: the low 32 bits, in two's complement.
unfoldable pub int_of_word : ℕ → ℤ
int_of_word p =
    let low = p % 2 ^ 32 in if ltb low (2 ^ 31) then pos low else negsuc (2 ^ 32 - low - 1)

abbrev pub Bytes : Type 0
Bytes = List ℕ

-- The bytes of an ASCII literal.
abbrev pub codes : String → Bytes
codes String.[] = []
codes (String.◌∷◌ c s) = code c ∷ codes s
