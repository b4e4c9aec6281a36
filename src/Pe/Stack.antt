-- ===== src/Pe/Stack.antt =====
-- pe_shim.c: the stack of call configurations is a bounded stack: its array and its depth, seen as a
-- list with the last pushed configuration first.
use dlssnr_on_amd_linux.Common.{
  ℕ, zero, suc, ◌+◌, ◌-◌, ◌≤◌, ◌<◌, ◌≡◌, refl, sym, ap, subst, arith, ℤ, pos, Option, none, some,
  List, [], ◌∷◌, inl, inr, leb, ==_of_ne, get_or, get_or-set_same, get_or-set_ne, set, length,
  length-set, if◌then◌else◌, Bool-cases,
}
use dlssnr_on_amd_linux.Native.Args.{Dim3}
use dlssnr_on_amd_linux.Pe.{Process, CallConfig, zero_config, set_last_error, store}
use dlssnr_on_amd_linux.Pe.Config.{
  PopOut, ensure_call_config_lock, push_config, pop_config, store_config,
  hip_push_call_configuration, hip_pop_call_configuration,
}

-- The first `depth` elements of an array, the last of them first.
abbrev pub pushed : List CallConfig → ℕ → List CallConfig
pushed stack zero = []
pushed stack (suc depth) = get_or stack depth zero_config ∷ pushed stack depth

abbrev pub view : {W : Type 0} → Process W → List CallConfig
view p = pushed p.call_config_stack p.call_config_depth

-- The array has its 16 elements, and the depth stays within it.
abbrev pub IsValid : {W : Type 0} → Process W → Type 0
IsValid p = (length p.call_config_stack ≡ 16) × (p.call_config_depth ≤ 16)

-- A write at or above the depth is not seen.
pushed-set :
    (xs : List CallConfig) (i depth : ℕ) (v : CallConfig)
    → depth ≤ i
    → pushed (set xs i v) depth ≡ pushed xs depth
pushed-set xs i zero v h = refl
pushed-set xs i (suc depth) v h =
    rw (get_or-set_ne xs i depth v zero_config (omega arith), pushed-set xs i depth v (omega arith))
      refl

pushed-set_next :
    (xs : List CallConfig) (depth : ℕ) (v : CallConfig)
    → depth < length xs
    → pushed (set xs depth v) (depth + 1) ≡ v ∷ pushed xs depth
pushed-set_next xs depth v h =
    let next : depth + 1 ≡ suc depth = omega arith in
    rw (next, get_or-set_same xs depth v zero_config h, pushed-set xs depth depth v (omega arith))
      refl

pub length-pushed : (xs : List CallConfig) (depth : ℕ) → length (pushed xs depth) ≡ depth
length-pushed xs zero = refl
length-pushed xs (suc depth) = ap suc (length-pushed xs depth)

-- The calls of compiler-generated code on the stack.
pub data StackCall : Type 0 where
  push : Option Dim3 → Option Dim3 → ℕ → ℕ → StackCall
  pop : PopOut → StackCall

unfoldable pub stack_call : {W : Type 0} → StackCall → Process W → (ℤ × Option PopOut) × Process W
stack_call (push grid block shared_mem stream) p =
    let (code, p') = hip_push_call_configuration grid block shared_mem stream p in
    ((code, none), p')
stack_call (pop out) p =
    let ((code, out'), p') = hip_pop_call_configuration out p in ((code, some out'), p')

-- A bounded stack.
abbrev pub spec_push : CallConfig → List CallConfig → ℤ × List CallConfig
spec_push config s = if leb 16 (length s) then (pos 801, s) else (pos 0, config ∷ s)

abbrev pub spec_call : StackCall → List CallConfig → (ℤ × Option PopOut) × List CallConfig
spec_call (push (some grid) (some block) shared_mem stream) s =
    let (code, s') =
      spec_push (record { grid = grid; block = block; shared_mem = shared_mem; stream = stream })
        s in
    ((code, none), s')
spec_call (push _ _ shared_mem stream) s = ((pos 801, none), s)
spec_call (pop out) [] = ((pos 801, some out), [])
spec_call (pop out) (config ∷ s) = (
  (
    pos 0,
    some (record {
      grid_dim = store out.grid_dim config.grid;
      block_dim = store out.block_dim config.block;
      shared_mem = store out.shared_mem config.shared_mem;
      stream = store out.stream config.stream;
    }),
  ),
  s,
)

-- A call on the arrays agrees with the call on the list.
abbrev pub Agrees :
    {W : Type 0} → (ℤ × Option PopOut) × Process W → (ℤ × Option PopOut) × List CallConfig → Type 0
Agrees (r, p) (r', s) = (r ≡ r') × (view p ≡ s) × IsValid p

lock-Agrees :
    {W : Type 0} (p : Process W)
    → IsValid p
    → (view (ensure_call_config_lock p) ≡ view p) × IsValid (ensure_call_config_lock p)
unfolding ensure_call_config_lock
lock-Agrees p h = elim (Bool-cases p.call_config_lock_init) [
  | inl locked ↦ rw locked (refl, h)
  | inr fresh ↦ rw fresh (refl, h)
]

push_config-Agrees :
    {W : Type 0} (config : CallConfig) (p : Process W)
    → IsValid p
    → let (code, p') = push_config config p in
      let (code', s) = spec_push config (view p) in Agrees ((code, none), p') ((code', none), s)
unfolding push_config set_last_error
push_config-Agrees config p h =
    rw (length-pushed p.call_config_stack p.call_config_depth)
      (elim (Bool-cases (leb 16 p.call_config_depth)) [
        | inl full ↦ rw full (refl, refl, h)
        | inr room ↦ rw room (
          refl,
          pushed-set_next p.call_config_stack p.call_config_depth config (ground arith),
          (ground (arith, length-set p.call_config_stack p.call_config_depth config), ground arith),
        )
      ])

pop_config-Agrees :
    {W : Type 0} (depth : ℕ) (out : PopOut) (p : Process W)
    → p.call_config_depth ≡ depth
    → IsValid p
    → let ((code, out'), p') = pop_config out p in
      Agrees ((code, some out'), p') (spec_call (pop out) (pushed p.call_config_stack depth))
unfolding pop_config store_config set_last_error
pop_config-Agrees zero out p e h = rw e (refl, refl, (h.0, omega arith))
pop_config-Agrees (suc depth) out p e h =
    let below : suc depth - 1 ≡ depth = omega arith in
    rw (e, ==_of_ne (suc depth) 0 (omega arith), below) (refl, refl, (h.0, ground arith))

push-Agrees :
    {W : Type 0} (grid block : Option Dim3) (shared_mem stream : ℕ) (p : Process W)
    → IsValid p
    → Agrees
        (stack_call (push grid block shared_mem stream) p)
        (spec_call (push grid block shared_mem stream) (view p))
unfolding stack_call hip_push_call_configuration set_last_error
push-Agrees none block shared_mem stream p h = (refl, refl, h)
push-Agrees (some grid) none shared_mem stream p h = (refl, refl, h)
push-Agrees (some grid) (some block) shared_mem stream p h =
    let config : CallConfig = record {
      grid = grid;
      block = block;
      shared_mem = shared_mem;
      stream = stream;
    } in
    let (same, valid) = lock-Agrees p h in
    subst
      (λ s.
        Agrees (stack_call (push (some grid) (some block) shared_mem stream) p)
          (let (code', s') = spec_push config s in ((code', none), s')))
      same (push_config-Agrees config (ensure_call_config_lock p) valid)

pub stack_call-Agrees :
    {W : Type 0} (c : StackCall) (p : Process W)
    → IsValid p
    → Agrees (stack_call c p) (spec_call c (view p))
unfolding stack_call hip_pop_call_configuration
stack_call-Agrees (push grid block shared_mem stream) p h =
    push-Agrees grid block shared_mem stream p h
stack_call-Agrees (pop out) p h =
    let (same, valid) = lock-Agrees p h in
    subst (λ s. Agrees (stack_call (pop out) p) (spec_call (pop out) s)) same
      (pop_config-Agrees _ out (ensure_call_config_lock p) refl valid)

-- A sequence of stack calls: the codes and the out-parameters.
unfoldable pub stack_calls :
    {W : Type 0} → List StackCall → Process W → List (ℤ × Option PopOut) × Process W
stack_calls [] p = ([], p)
stack_calls (c ∷ cs) p =
    let (r, p') = stack_call c p in let (rs, p'') = stack_calls cs p' in (r ∷ rs, p'')

abbrev pub spec_calls :
    List StackCall → List CallConfig → List (ℤ × Option PopOut) × List CallConfig
spec_calls [] s = ([], s)
spec_calls (c ∷ cs) s =
    let (r, s') = spec_call c s in let (rs, s'') = spec_calls cs s' in (r ∷ rs, s'')

-- On a process whose stack is valid, any sequence of pushes and pops returns the codes and writes
-- the out-parameters of a bounded stack of 16 elements, last in first out: a pop of the empty
-- stack, a push on the full one and a push of a null dimension return hipErrorNotSupported and
-- leave the stack as it is. The stack stays valid and holds what the bounded stack holds.
pub stack_calls-spec_calls :
    {W : Type 0} (cs : List StackCall) (p : Process W)
    → IsValid p
    → ((stack_calls cs p).0 ≡ (spec_calls cs (view p)).0)
      × (view (stack_calls cs p).1 ≡ (spec_calls cs (view p)).1)
      × IsValid (stack_calls cs p).1
unfolding stack_calls
stack_calls-spec_calls [] p h = (refl, refl, h)
stack_calls-spec_calls (c ∷ cs) p h =
    let (same, seen, valid) = stack_call-Agrees c p h in
    let (rest, end, still) = stack_calls-spec_calls cs (stack_call c p).1 valid in
    rw (sym seen, sym same) (ap (◌∷◌ (stack_call c p).0) rest, end, still)
