-- ===== src/Registry/Refinement.antt =====
-- The registry of registry.c against its specification: three lists of entries in the order of
-- their registration, each cut at the size of its array. The lookups read the first match.
use dlssnr_on_amd_linux.Common.{
  ℕ, ◌≡◌, refl, ap, ◌∙◌, subst, Option, none, some, List, [], ◌∷◌, ◌++◌, arith, Bytes, leb,
  if◌then◌else◌, length,
}
use dlssnr_on_amd_linux.Registry.Table
use dlssnr_on_amd_linux.Registry.Table.{Table}
use dlssnr_on_amd_linux.Registry.Lookup.{
  IsValid, initial-IsValid, registry_reset-IsValid, registry_add_fatbin-IsValid,
  registry_add_function-IsValid, registry_add_var-IsValid,
}
use dlssnr_on_amd_linux.Registry.{
  Registry, FatbinEntry, FunctionEntry, VarEntry, max_fatbins, max_functions, max_vars, initial,
  registry_reset, registry_add_fatbin, registry_find_module, stored_name, registry_add_function,
  registry_find_function, registry_find_function_name, registry_add_var, registry_find_var,
}

-- The calls that change the registry.
pub data Op : Type 0 where
  reset : Op
  add_fatbin : ℕ → ℕ → Op
  add_function : ℕ → ℕ → Option Bytes → Op
  add_var : ℕ → ℕ → Op

pub apply : Op → Registry → Registry
apply reset r = registry_reset r
apply (add_fatbin token m) r = (registry_add_fatbin token m r).1
apply (add_function host_fn function name) r = (registry_add_function host_fn function name r).1
apply (add_var host_var device_ptr) r = (registry_add_var host_var device_ptr r).1

unfoldable pub run : List Op → Registry → Registry
unfolding apply
run [] r = r
run (op ∷ ops) r = run ops (apply op r)

pub record Spec : Type 0 where
  pub fatbins : List FatbinEntry
  pub functions : List FunctionEntry
  pub vars : List VarEntry

-- `Table.contents` of the three tables.
pub view : Registry → Spec
view r = record {
  fatbins = Table.contents r.fatbins;
  functions = Table.contents r.functions;
  vars = Table.contents r.vars;
}

-- Append, unless the list has reached its limit.
abbrev append_below {ℓ} : {A : Type ℓ} → ℕ → List A → A → List A
append_below limit es e = if leb limit (length es) then es else es ++ e ∷ []

spec_apply : Op → Spec → Spec
spec_apply reset s = record { fatbins = []; functions = []; vars = [] }
spec_apply (add_fatbin token m) s = record s {
  fatbins = append_below 16 s.fatbins (record { token = token; hip_module = m });
}
spec_apply (add_function host_fn function name) s =
    let e : FunctionEntry = record {
      host_fn = host_fn;
      function = function;
      name = stored_name name;
    } in
    record s { functions = append_below 256 s.functions e }
spec_apply (add_var host_var device_ptr) s = record s {
  vars = append_below 32 s.vars (record { host_var = host_var; device_ptr = device_ptr });
}

unfoldable pub spec_run : List Op → Spec → Spec
unfolding spec_apply
spec_run [] s = s
spec_run (op ∷ ops) s = spec_run ops (spec_apply op s)

apply-IsValid : (op : Op) (r : Registry) → IsValid r → IsValid (apply op r)
unfolding apply
apply-IsValid reset r v = registry_reset-IsValid r v
apply-IsValid (add_fatbin token m) r v = registry_add_fatbin-IsValid token m r v
apply-IsValid (add_function host_fn function name) r v =
    registry_add_function-IsValid host_fn function name r v
apply-IsValid (add_var host_var device_ptr) r v = registry_add_var-IsValid host_var device_ptr r v

contents-append_below {ℓ} :
    {E : Type ℓ} (limit : ℕ) (e : E) (t : Table E)
    → Table.IsValid limit t
    → Table.contents (Table.add limit e t).1 ≡ append_below limit (Table.contents t) e
contents-append_below limit e t v =
    rw (Table.contents-add limit e t v, Table.length-contents limit t v)

view-apply : (op : Op) (r : Registry) → IsValid r → view (apply op r) ≡ spec_apply op (view r)
unfolding view apply spec_apply registry_reset registry_add_fatbin registry_add_function
    registry_add_var Table.contents
view-apply reset r v = refl
view-apply (add_fatbin token m) r v =
    ap (λ es. record (view r) { fatbins = es })
      (contents-append_below max_fatbins (record { token = token; hip_module = m }) r.fatbins
        v.fatbins)
view-apply (add_function host_fn function name) r v =
    ap (λ es. record (view r) { functions = es })
      (contents-append_below max_functions _ r.functions v.functions)
view-apply (add_var host_var device_ptr) r v =
    ap (λ es. record (view r) { vars = es }) (contents-append_below max_vars _ r.vars v.vars)

-- From a valid registry, any run of resets and registrations keeps it valid, and the entries in use
-- are the lists of the specification: each registration appended in order, unless its list has
-- reached its limit of 16, 256 or 32.
view-run :
    (ops : List Op) (r : Registry)
    → IsValid r
    → IsValid (run ops r) × (view (run ops r) ≡ spec_run ops (view r))
unfolding run spec_run
view-run [] r v = (v, refl)
view-run (op ∷ ops) r v =
    let (valid, same) = view-run ops (apply op r) (apply-IsValid op r v) in
    (valid, same ∙ ap (spec_run ops) (view-apply op r v))

abbrev pub empty : Spec
empty = record { fatbins = []; functions = []; vars = [] }

view-initial : view initial ≡ empty
unfolding view initial Table.contents
view-initial = refl

-- What the lookups of a registry read in a specification.
abbrev pub Reads : Registry → Spec → ℕ → Type 0
Reads r s k =
    (registry_find_module k r ≡ elim (Table.first (λ (e : FatbinEntry). e.token) k s.fatbins) [
      | none ↦ 0
      | some e ↦ e.hip_module
    ])
    × (registry_find_function k r
        ≡ elim (Table.first (λ (e : FunctionEntry). e.host_fn) k s.functions) [
          | none ↦ 0
          | some e ↦ e.function
        ])
    × (registry_find_function_name k r
        ≡ elim (Table.first (λ (e : FunctionEntry). e.host_fn) k s.functions) [
          | none ↦ none
          | some e ↦ some e.name
        ])
    × (registry_find_var k r ≡ elim (Table.first (λ (e : VarEntry). e.host_var) k s.vars) [
      | none ↦ 0
      | some e ↦ e.device_ptr
    ])

Reads-view : (r : Registry) (k : ℕ) → Reads r (view r) k
unfolding view registry_find_module registry_find_function registry_find_function_name
    registry_find_var
Reads-view r k = ground (
  arith,
  Table.find-first (λ (e : FatbinEntry). e.token) k r.fatbins,
  Table.find-first (λ (e : FunctionEntry). e.host_fn) k r.functions,
  Table.find-first (λ (e : VarEntry). e.host_var) k r.vars,
)

-- After any run of resets and registrations from the program's start, the four lookups of a key
-- return what belongs to the first entry with that key in the specification's list, and NULL if
-- there is none.
pub find-run : (ops : List Op) (k : ℕ) → Reads (run ops initial) (spec_run ops empty) k
find-run ops k =
    subst (λ s. Reads (run ops initial) s k)
      ((view-run ops initial initial-IsValid).1 ∙ ap (spec_run ops) view-initial)
      (Reads-view (run ops initial) k)
