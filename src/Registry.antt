-- ===== src/Registry.antt =====
-- windows-runtime-bridge/hip-unixlib/registry.c: the three registration tables of the native side,
-- and the recognition of fat binaries. A pointer is a number and NULL is 0; a `Registry` holds the
-- file's static variables.
pub mod Table
pub mod Lookup
pub mod Refinement
pub mod Bundle
use dlssnr_on_amd_linux.Common.{
  ℕ, zero, suc, Option, none, some, List, [], ◌∷◌, ◌==◌, if◌then◌else◌, replicate, Bytes,
}

abbrev pub max_fatbins : ℕ
max_fatbins = 16

abbrev pub max_functions : ℕ
max_functions = 256

abbrev pub max_function_name : ℕ
max_function_name = 127

abbrev pub max_vars : ℕ
max_vars = 32

pub record FatbinEntry : Type 0 where
  pub token : ℕ
  pub hip_module : ℕ

-- `name` is the text of the `char` buffer, up to its terminator.
pub record FunctionEntry : Type 0 where
  pub host_fn : ℕ
  pub function : ℕ
  pub name : Bytes

pub record VarEntry : Type 0 where
  pub host_var : ℕ
  pub device_ptr : ℕ

pub record Registry : Type 0 where
  pub fatbins : Table.Table FatbinEntry
  pub functions : Table.Table FunctionEntry
  pub vars : Table.Table VarEntry

-- The static arrays before any call: zeroed.
unfoldable pub initial : Registry
initial = record {
  fatbins = record {
    slots = replicate max_fatbins (record { token = 0; hip_module = 0 });
    count = 0;
  };
  functions = record {
    slots = replicate max_functions (record { host_fn = 0; function = 0; name = [] });
    count = 0;
  };
  vars = record { slots = replicate max_vars (record { host_var = 0; device_ptr = 0 }); count = 0 };
}

-- The counts are cleared, the slots keep what they hold.
unfoldable pub registry_reset : Registry → Registry
registry_reset r = record {
  fatbins = record { slots = r.fatbins.slots; count = 0 };
  functions = record { slots = r.functions.slots; count = 0 };
  vars = record { slots = r.vars.slots; count = 0 };
}

unfoldable pub registry_add_fatbin : ℕ → ℕ → Registry → ℕ × Registry
registry_add_fatbin token hip_module r =
    let (ret, t) =
      Table.add max_fatbins (record { token = token; hip_module = hip_module }) r.fatbins in
    (ret, record r { fatbins = t })

unfoldable pub registry_find_module : ℕ → Registry → ℕ
registry_find_module token r = elim (Table.find (λ (e : FatbinEntry). e.token) token r.fatbins) [
  | none ↦ 0
  | some e ↦ e.hip_module
]

-- The copying loop: at most `room` bytes, up to the terminator.
unfoldable pub copy_name : ℕ → Bytes → Bytes
copy_name zero name = []
copy_name (suc room) [] = []
copy_name (suc room) (c ∷ name) = let rest = copy_name room name in if c == 0 then [] else c ∷ rest

unfoldable pub stored_name : Option Bytes → Bytes
unfolding copy_name
stored_name none = []
stored_name (some name) = copy_name max_function_name name

unfoldable pub registry_add_function : ℕ → ℕ → Option Bytes → Registry → ℕ × Registry
registry_add_function host_fn function name r =
    let entry : FunctionEntry = record {
      host_fn = host_fn;
      function = function;
      name = stored_name name;
    } in
    let (ret, t) = Table.add max_functions entry r.functions in (ret, record r { functions = t })

unfoldable pub registry_find_function : ℕ → Registry → ℕ
registry_find_function host_fn r =
    elim (Table.find (λ (e : FunctionEntry). e.host_fn) host_fn r.functions) [
      | none ↦ 0
      | some e ↦ e.function
    ]

-- `none` is NULL.
unfoldable pub registry_find_function_name : ℕ → Registry → Option Bytes
registry_find_function_name host_fn r =
    elim (Table.find (λ (e : FunctionEntry). e.host_fn) host_fn r.functions) [
      | none ↦ none
      | some e ↦ some e.name
    ]

unfoldable pub registry_add_var : ℕ → ℕ → Registry → ℕ × Registry
registry_add_var host_var device_ptr r =
    let (ret, t) =
      Table.add max_vars (record { host_var = host_var; device_ptr = device_ptr }) r.vars in
    (ret, record r { vars = t })

unfoldable pub registry_find_var : ℕ → Registry → ℕ
registry_find_var host_var r = elim (Table.find (λ (e : VarEntry). e.host_var) host_var r.vars) [
  | none ↦ 0
  | some e ↦ e.device_ptr
]
