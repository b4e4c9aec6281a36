-- ===== src/Registry/Lookup.antt =====
-- What the `registry_find_*` functions of registry.c return after a registration, and the
-- invariant of the three tables.
use dlssnr_on_amd_linux.Common.{
  ℕ, zero, suc, ◌+◌, ◌≤◌, ◌≡◌, refl, Option, none, some, [], ◌∷◌, arith, Bytes, leb, ◌==◌,
  if◌then◌else◌, length, take, All, ◌≢◌,
}
use dlssnr_on_amd_linux.Registry.Table
use dlssnr_on_amd_linux.Registry.Table.{Table}
use dlssnr_on_amd_linux.Registry.{
  Registry, FatbinEntry, FunctionEntry, VarEntry, max_fatbins, max_functions, max_vars, initial,
  registry_reset, registry_add_fatbin, registry_find_module, copy_name, stored_name,
  registry_add_function, registry_find_function, registry_find_function_name, registry_add_var,
  registry_find_var,
}

pub record IsValid (r : Registry) : Type 0 where
  pub fatbins : Table.IsValid max_fatbins r.fatbins
  pub functions : Table.IsValid max_functions r.functions
  pub vars : Table.IsValid max_vars r.vars

pub initial-IsValid : IsValid initial
unfolding initial
initial-IsValid = record {
  fatbins = record { sized = refl; bounded = omega arith };
  functions = record { sized = refl; bounded = omega arith };
  vars = record { sized = refl; bounded = omega arith };
}

pub registry_reset-IsValid : (r : Registry) → IsValid r → IsValid (registry_reset r)
unfolding registry_reset
registry_reset-IsValid r v = record {
  fatbins = record { sized = v.fatbins.sized; bounded = omega arith };
  functions = record { sized = v.functions.sized; bounded = omega arith };
  vars = record { sized = v.vars.sized; bounded = omega arith };
}

pub registry_add_fatbin-IsValid :
    (token m : ℕ) (r : Registry) → IsValid r → IsValid (registry_add_fatbin token m r).1
unfolding registry_add_fatbin
registry_add_fatbin-IsValid token m r v = record {
  fatbins = Table.add-IsValid max_fatbins _ r.fatbins v.fatbins;
  functions = v.functions;
  vars = v.vars;
}

pub registry_add_function-IsValid :
    (host_fn function : ℕ) (name : Option Bytes) (r : Registry)
    → IsValid r
    → IsValid (registry_add_function host_fn function name r).1
unfolding registry_add_function
registry_add_function-IsValid host_fn function name r v = record {
  fatbins = v.fatbins;
  functions = Table.add-IsValid max_functions _ r.functions v.functions;
  vars = v.vars;
}

pub registry_add_var-IsValid :
    (host_var device_ptr : ℕ) (r : Registry)
    → IsValid r
    → IsValid (registry_add_var host_var device_ptr r).1
unfolding registry_add_var
registry_add_var-IsValid host_var device_ptr r v = record {
  fatbins = v.fatbins;
  functions = v.functions;
  vars = Table.add-IsValid max_vars _ r.vars v.vars;
}

-- In a valid registry, adding a fat binary returns 0 if the table is full and 1 otherwise. If it
-- was full no lookup changes; otherwise the lookup of any token returns the module found before,
-- or, where none was, the new module for the new token and NULL for another: an older module under
-- the same token stays.
pub find_module-add_fatbin :
    (token m other : ℕ) (r : Registry)
    → IsValid r
    → let (ret, r') = registry_add_fatbin token m r in
      (ret ≡ (if leb 16 r.fatbins.count then 0 else 1))
      × (registry_find_module other r' ≡ (
          if leb 16 r.fatbins.count
          then registry_find_module other r
          else elim (Table.find (λ (e : FatbinEntry). e.token) other r.fatbins) [
            | none ↦ if token == other then m else 0
            | some e ↦ e.hip_module
          ]))
unfolding registry_add_fatbin registry_find_module Table.or_else Table.add
find_module-add_fatbin token m other r v = ground (
  arith,
  Table.find-add max_fatbins (λ (e : FatbinEntry). e.token) other
      (record { token = token; hip_module = m }) r.fatbins v.fatbins,
)

-- In a valid registry, adding a kernel returns 0 if the table is full and 1 otherwise. If it was
-- full no lookup changes; otherwise the lookups of any host function return the function and the
-- name found before, or, where none was, the new function and the stored form of its name for the
-- new host function and NULL for another.
pub find_function-add_function :
    (host_fn function other : ℕ) (name : Option Bytes) (r : Registry)
    → IsValid r
    → let (ret, r') = registry_add_function host_fn function name r in
      let found = Table.find (λ (e : FunctionEntry). e.host_fn) other r.functions in
      (ret ≡ (if leb 256 r.functions.count then 0 else 1))
      × (registry_find_function other r' ≡ (
          if leb 256 r.functions.count then registry_find_function other r else elim found [
            | none ↦ if host_fn == other then function else 0
            | some e ↦ e.function
          ]))
      × (registry_find_function_name other r' ≡ (
          if leb 256 r.functions.count then registry_find_function_name other r else elim found [
            | none ↦ if host_fn == other then some (stored_name name) else none
            | some e ↦ some e.name
          ]))
unfolding registry_add_function registry_find_function registry_find_function_name Table.or_else
    Table.add
find_function-add_function host_fn function other name r v = ground (
  arith,
  Table.find-add max_functions (λ (e : FunctionEntry). e.host_fn) other
      (record { host_fn = host_fn; function = function; name = stored_name name }) r.functions
      v.functions,
)

-- In a valid registry, adding a variable returns 0 if the table is full and 1 otherwise. If it was
-- full no lookup changes; otherwise the lookup of any host variable returns the address found
-- before, or, where none was, the new address for the new variable and NULL for another.
pub find_var-add_var :
    (host_var device_ptr other : ℕ) (r : Registry)
    → IsValid r
    → let (ret, r') = registry_add_var host_var device_ptr r in
      (ret ≡ (if leb 32 r.vars.count then 0 else 1))
      × (registry_find_var other r' ≡ (
          if leb 32 r.vars.count
          then registry_find_var other r
          else elim (Table.find (λ (e : VarEntry). e.host_var) other r.vars) [
            | none ↦ if host_var == other then device_ptr else 0
            | some e ↦ e.device_ptr
          ]))
unfolding registry_add_var registry_find_var Table.or_else Table.add
find_var-add_var host_var device_ptr other r v = ground (
  arith,
  Table.find-add max_vars (λ (e : VarEntry). e.host_var) other
      (record { host_var = host_var; device_ptr = device_ptr }) r.vars v.vars,
)

-- A C string: no terminator among its bytes.
abbrev pub IsText : Bytes → Type 0
IsText = All (λ c. c ≢ 0)

copy_name-bounds :
    (room : ℕ) (name : Bytes) → (length (copy_name room name) ≤ room) × IsText (copy_name room name)
unfolding copy_name
copy_name-bounds zero name = (omega arith, tt)
copy_name-bounds (suc room) [] = (omega arith, tt)
copy_name-bounds (suc room) (c ∷ name) = ground (arith, copy_name-bounds room name)

copy_name-take : (room : ℕ) (name : Bytes) → IsText name → copy_name room name ≡ take room name
unfolding copy_name
copy_name-take zero name h = refl
copy_name-take (suc room) [] h = refl
copy_name-take (suc room) (c ∷ name) h = ground (arith, copy_name-take room name h.1)

-- A kernel's name without zero bytes is stored as its first 127 bytes, which fit the buffer of 128
-- with their terminator and hold no zero byte.
pub stored_name_fits :
    (name : Bytes)
    → IsText name
    → (stored_name (some name) ≡ take 127 name)
      × (length (stored_name (some name)) + 1 ≤ 128)
      × IsText (stored_name (some name))
unfolding stored_name
stored_name_fits name t = (
  copy_name-take 127 name t,
  omega (arith, (copy_name-bounds 127 name).0),
  (copy_name-bounds 127 name).1,
)
