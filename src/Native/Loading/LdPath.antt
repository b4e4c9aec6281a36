-- ===== src/Native/Loading/LdPath.antt =====
-- native.c, `ensure_loaded`: what the attempts to load the runtime do to LD_LIBRARY_PATH while no
-- library can be opened.
use dlssnr_on_amd_linux.Common.{
  ℕ, zero, suc, ◌*◌, ◌≤◌, ◌≡◌, ◌≢◌, refl, ap, ◌∙◌, arith, Option, some, List, [], ◌∷◌, ◌++◌, length,
  take, length-append, Bytes, codes, String,
}
use dlssnr_on_amd_linux.Host.{Host}
use dlssnr_on_amd_linux.Native.{
  Native, library_folders, new_ld_path, candidates, open_first, set_ld_path, ensure_loaded,
}
use dlssnr_on_amd_linux.Native.Loading.{IsUnloaded}

take_append {ℓ} :
    {A : Type ℓ} (k m : ℕ) (xs ys : List A) → k ≤ m → take k (xs ++ take m ys) ≡ take k (xs ++ ys)
take_append zero m xs ys h = refl
take_append (suc k) m (x ∷ xs) ys h = ap (◌∷◌ x) (take_append k m xs ys (omega arith))
take_append (suc k) zero [] ys h = absurd (omega arith)
take_append (suc k) (suc m) [] [] h = refl
take_append (suc k) (suc m) [] (y ∷ ys) h = ap (◌∷◌ y) (take_append k m [] ys (omega arith))

take_enough {ℓ} :
    {A : Type ℓ} (k : ℕ) (xs ys : List A) → k ≤ length xs → take k (xs ++ ys) ≡ take k xs
take_enough zero xs ys h = refl
take_enough (suc k) [] ys h = absurd (omega arith)
take_enough (suc k) (x ∷ xs) ys h = ap (◌∷◌ x) (take_enough k xs ys (omega arith))

-- The folders of `n` attempts, each with its separator.
abbrev pub repeated : ℕ → Bytes
repeated zero = []
repeated (suc n) = library_folders ++ codes ":" ++ repeated n

length-library_folders : length library_folders ≡ 151
unfolding library_folders
length-library_folders = refl

new_ld_path_nonempty :
    (path : Bytes)
    → path ≢ []
    → new_ld_path (some path) ≡ take 4095 (library_folders ++ codes ":" ++ path)
unfolding new_ld_path
new_ld_path_nonempty [] there = absurd (there refl)
new_ld_path_nonempty (c ∷ path) there = refl

folders_there : (rest : Bytes) → take 4095 (library_folders ++ rest) ≢ []
unfolding library_folders
folders_there rest e = ground arith

-- One more attempt, after `n` of them.
new_ld_path-repeated :
    (n : ℕ) (user : Bytes)
    → take 4095 (repeated n ++ user) ≢ []
    → new_ld_path (some (take 4095 (repeated n ++ user))) ≡ take 4095 (repeated (suc n) ++ user)
unfolding library_folders
new_ld_path-repeated n user there =
    new_ld_path_nonempty (take 4095 (repeated n ++ user)) there
    ∙ (take_append 4095 4095 (library_folders ++ codes ":") (repeated n ++ user) (omega arith))

length-repeated : (n : ℕ) → length (repeated n) ≡ 152 * n
unfolding library_folders
length-repeated zero = refl
length-repeated (suc n) = omega (
  arith,
  length-append library_folders (codes ":" ++ repeated n),
  length-library_folders,
  length-repeated n,
)

-- A host on which no library opens, and whose environment keeps what is set.
pub record IsHopeless (host : Host) : Type 0 where
  pub closed : (name : String) (w : host.World) → (host.dlopen name w).0 ≡ 0
  pub kept :
      (name : String) (w : host.World)
      → host.getenv "LD_LIBRARY_PATH" (host.dlopen name w).1 ≡ host.getenv "LD_LIBRARY_PATH" w
  pub holds :
      (value : Bytes) (w : host.World)
      → host.getenv "LD_LIBRARY_PATH" (host.setenv "LD_LIBRARY_PATH" value w) ≡ some value

module _ (host : Host) where
  abbrev pub ld_path : host.World → Option Bytes
  ld_path w = host.getenv "LD_LIBRARY_PATH" w

  -- The state after `n` calls that try to load the runtime.
  abbrev pub attempts : ℕ → Native host.World → Native host.World
  attempts zero s = s
  attempts (suc n) s = (ensure_loaded host (attempts n s)).1

  open_first_closed :
      (cs : List String) (w : host.World)
      → IsHopeless host
      → ((open_first host cs w).0 ≡ 0) × (ld_path (open_first host cs w).1 ≡ ld_path w)
  unfolding open_first
  open_first_closed [] w v = (refl, refl)
  open_first_closed (c ∷ cs) w v =
      let (shut, same) = open_first_closed cs (host.dlopen c w).1 v in
      rw (v.closed c w) (shut, same ∙ v.kept c w)

  attempt-closed :
      (s : Native host.World)
      → IsHopeless host
      → IsUnloaded host s
      → IsUnloaded host (ensure_loaded host s).1
        × (ld_path (ensure_loaded host s).1.world ≡ some (new_ld_path (ld_path s.world)))
  unfolding ensure_loaded set_ld_path
  attempt-closed s v u =
      let (shut, same) = open_first_closed candidates (set_ld_path host s.world) v in
      rw (u.handle, shut) (record { handle = refl; symbols = u.symbols }, same ∙ v.holds _ s.world)

  attempts_closed :
      (n : ℕ) (s : Native host.World) (user : Bytes)
      → IsHopeless host
      → IsUnloaded host s
      → ld_path s.world ≡ some user
      → user ≢ []
      → IsUnloaded host (attempts (suc n) s)
        × (ld_path (attempts (suc n) s).world ≡ some (take 4095 (repeated (suc n) ++ user)))
  unfolding library_folders
  attempts_closed zero s user v u path there =
      let (unloaded, value) = attempt-closed s v u in
      (
        unloaded,
        value ∙ ap (λ p. some (new_ld_path p)) path ∙ ap some (new_ld_path_nonempty user there),
      )
  attempts_closed (suc n) s user v u path there =
      let (unloaded, before) = attempts_closed n s user v u path there in
      let (still, value) = attempt-closed (attempts (suc n) s) v unloaded in
      (
        still,
        value
            ∙ ap (λ p. some (new_ld_path p)) before
            ∙ ap some (
                new_ld_path-repeated (suc n) user
                  (folders_there (codes ":" ++ repeated n ++ user))),
      )

  -- On a host where no library opens, whose environment keeps what is set, after 27 or more calls
  -- from a state where the runtime is not loaded, LD_LIBRARY_PATH is the folders of the program
  -- over and over, cut at 4095 bytes: it no longer depends on the value that the user had set,
  -- which was not empty.
  pub attempts_forget :
      (n : ℕ) (s : Native host.World) (user : Bytes)
      → IsHopeless host
      → IsUnloaded host s
      → ld_path s.world ≡ some user
      → user ≢ []
      → 27 ≤ n
      → ld_path (attempts n s).world ≡ some (take 4095 (repeated n))
  attempts_forget zero s user v u path there many = absurd (omega arith)
  attempts_forget (suc n) s user v u path there many =
      (attempts_closed n s user v u path there).1
      ∙ ap some (take_enough 4095 (repeated (suc n)) user (omega (arith, length-repeated (suc n))))
