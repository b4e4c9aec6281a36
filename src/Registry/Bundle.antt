-- ===== src/Registry/Bundle.antt =====
-- `resolve_bundle_ptr` of registry.c, over the memory of the process: `none` is an address that
-- is not mapped, and reading there is a crash, which is the `none` of a result.
use dlssnr_on_amd_linux.Common.{
  ◌>>=◌, ℕ, zero, suc, ◌+◌, ◌*◌, ◌≡◌, ◌≢◌, refl, Bool, true, false, Option, none, some, [], ◌∷◌,
  arith, ◌==◌, if◌then◌else◌, Bytes, codes, ◌⊎◌,
}

abbrev pub Memory : Type 0
Memory = ℕ → Option ℕ

-- "__CLANG_OFFLOAD_BUNDLE__", without its terminator.
abbrev pub magic : Bytes
magic = codes "__CLANG_OFFLOAD_BUNDLE__"

-- `memcmp(p, bytes, n) == 0`; all of the bytes are read.
unfoldable pub memcmp_eq : Memory → ℕ → Bytes → Option Bool
memcmp_eq m p [] = some true
memcmp_eq m p (b ∷ bs) = do
  c ← m p
  rest ← memcmp_eq m (p + 1) bs
  some (if c == b then rest else false)

-- An 8-byte pointer, low byte first.
unfoldable pub load_bytes : Memory → ℕ → ℕ → Option ℕ
load_bytes m p zero = some 0
load_bytes m p (suc n) = do low ← m p; rest ← load_bytes m (p + 1) n; some (low + 256 * rest)

-- The bundle itself, or the one that a wrapper's `data` field points to, or NULL.
unfoldable pub resolve_bundle_ptr : Memory → ℕ → Option ℕ
resolve_bundle_ptr m p = do
  raw ← memcmp_eq m p magic
  if raw then some p else do
    inner ← load_bytes m (p + 8) 8
    if inner == 0
        then some 0
        else do wrapped ← memcmp_eq m inner magic; some (if wrapped then inner else 0)

-- The bytes stand in memory at the address.
unfoldable pub HoldsAt : Memory → ℕ → Bytes → Type 0
HoldsAt m p [] = Unit {0}
HoldsAt m p (b ∷ bs) = (m p ≡ some b) × HoldsAt m (p + 1) bs

pub memcmp_eq_sound :
    (m : Memory) (p : ℕ) (bs : Bytes) → memcmp_eq m p bs ≡ some true → HoldsAt m p bs
unfolding memcmp_eq HoldsAt
memcmp_eq_sound m p [] h = tt
memcmp_eq_sound m p (b ∷ bs) h = ground (arith, memcmp_eq_sound m (p + 1) bs)

memcmp_eq_complete :
    (m : Memory) (p : ℕ) (bs : Bytes) → HoldsAt m p bs → memcmp_eq m p bs ≡ some true
unfolding memcmp_eq HoldsAt
memcmp_eq_complete m p [] h = refl
memcmp_eq_complete m p (b ∷ bs) h = ground (arith, memcmp_eq_complete m (p + 1) bs h.1)

memcmp_eq-differs :
    (m : Memory) (p : ℕ) (bs : Bytes)
    → memcmp_eq m p bs ≢ none
    → ¬ HoldsAt m p bs
    → memcmp_eq m p bs ≡ some false
memcmp_eq-differs m p bs mapped differs =
    ground (arith, memcmp_eq_sound m p bs, memcmp_eq_complete m p bs)

-- An address that the recognition of fat binaries returns is NULL or an address at which the
-- bundle's magic text stands.
pub resolve_bundle_ptr_sound :
    (m : Memory) (p q : ℕ) → resolve_bundle_ptr m p ≡ some q → (q ≡ 0) ⊎ HoldsAt m q magic
unfolding resolve_bundle_ptr
resolve_bundle_ptr_sound m p q h =
    ground (arith, memcmp_eq_sound m p magic, memcmp_eq_sound m q magic)

-- A bundle resolves to itself.
pub resolve_bundle_ptr-bundle :
    (m : Memory) (p : ℕ) → HoldsAt m p magic → resolve_bundle_ptr m p ≡ some p
unfolding resolve_bundle_ptr
resolve_bundle_ptr-bundle m p h = rw (memcmp_eq_complete m p magic h)

-- A wrapper, whose first 24 bytes are mapped and are not the magic text, and whose 8 bytes at
-- offset 8 are an address, not NULL, at which the magic text stands, resolves to that address.
pub resolve_bundle_ptr-wrapper :
    (m : Memory) (p q : ℕ)
    → memcmp_eq m p magic ≢ none
    → ¬ HoldsAt m p magic
    → load_bytes m (p + 8) 8 ≡ some q
    → q ≢ 0
    → HoldsAt m q magic
    → resolve_bundle_ptr m p ≡ some q
unfolding resolve_bundle_ptr
resolve_bundle_ptr-wrapper m p q mapped differs loaded nonzero h =
    ground (arith, memcmp_eq-differs m p magic mapped differs, memcmp_eq_complete m q magic h)

-- Data that is no bundle, with a null pointer at offset 8, resolves to NULL.
pub resolve_bundle_ptr-null :
    (m : Memory) (p : ℕ)
    → memcmp_eq m p magic ≢ none
    → ¬ HoldsAt m p magic
    → load_bytes m (p + 8) 8 ≡ some 0
    → resolve_bundle_ptr m p ≡ some 0
unfolding resolve_bundle_ptr
resolve_bundle_ptr-null m p mapped differs loaded =
    ground (arith, memcmp_eq-differs m p magic mapped differs)
