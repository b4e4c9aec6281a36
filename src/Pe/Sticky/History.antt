-- ===== src/Pe/Sticky/History.antt =====
-- pe_shim.c: the sticky error over a program of calls.
use dlssnr_on_amd_linux.Common.{
  ℤ, pos, ◌≡◌, refl, sym, subst, true, false, Option, none, some, List, [], ◌∷◌, ◌⊎◌, inl, inr,
  arith, int_eq, if◌then◌else◌,
}
use dlssnr_on_amd_linux.Host.{Host}
use dlssnr_on_amd_linux.Pe.{Process}
use dlssnr_on_amd_linux.Pe.Device.{hip_get_last_error}
use dlssnr_on_amd_linux.Forward.{hip_get_last_error_and_reset}
use dlssnr_on_amd_linux.Pe.Api.{ApiCall, run_call, run_calls, prepend, get_last_error}
use dlssnr_on_amd_linux.Pe.Sticky.{IsSticky, Ends}
use dlssnr_on_amd_linux.Pe.Sticky.Calls.{reports_failure, run_call-Ends}

-- The sticky error after a call that reports failures.
abbrev sticky : ℤ → ℤ → ℤ
sticky before code = if int_eq code 0 then before else code

-- What a program of calls returns, against the value of the sticky error before and after it: a
-- call that reports failures replaces it by its code unless that is hipSuccess, hipGetLastError
-- returns it and clears it.
abbrev pub History : {F : Type 0} → List (ApiCall F) → ℤ → List ℤ → ℤ → Type 0
History [] before [] after = after ≡ before
History [] before (code ∷ codes) after = ⊥
History (c ∷ cs) before [] after = ⊥
History (c ∷ cs) before (code ∷ codes) after = elim (reports_failure c) [
  | true ↦ History cs (sticky before code) codes after
  | false ↦ (code ≡ before) × History cs (pos 0) codes after
]

abbrev pub HasHistory :
    {W F : Type 0} → List (ApiCall F) → Process W → Option (List ℤ × Process W) → Type 0
HasHistory cs p none = ⊥
HasHistory cs p (some (codes, p')) = History cs p.last_error codes p'.last_error

sticky-IsSticky :
    {W : Type 0} (p : Process W) (code : ℤ) (p' : Process W)
    → IsSticky p code p'
    → p'.last_error ≡ sticky p.last_error code
sticky-IsSticky p code p' h = ground arith

module _ (host : Host) where
  -- A call that reports failures comes first.
  cons-reporting :
      (c : ApiCall host.Float) (cs : List (ApiCall host.Float)) (p p' : Process host.World)
      (code : ℤ) (o : Option (List ℤ × Process host.World))
      → reports_failure c ≡ true
      → IsSticky p code p'
      → HasHistory cs p' o
      → HasHistory (c ∷ cs) p (prepend host code o)
  cons-reporting c cs p p' code none reporting step rest = elim rest [ ]
  cons-reporting c cs p p' code (some (codes, p'')) reporting step rest =
      subst
        (λ after. elim (reports_failure c) [
          | true ↦ History cs after codes p''.last_error
          | false ↦ (code ≡ p.last_error) × History cs (pos 0) codes p''.last_error
        ])
        (sticky-IsSticky p code p' step) (rw reporting rest)

  -- hipGetLastError comes first.
  cons-get_last_error :
      (cs : List (ApiCall host.Float)) (p : Process host.World)
      (o : Option (List ℤ × Process host.World))
      → HasHistory cs (record p { last_error = pos 0 }) o
      → HasHistory (get_last_error ∷ cs) p (prepend host p.last_error o)
  cons-get_last_error cs p none h = elim h [ ]
  cons-get_last_error cs p (some (codes, p')) h = (refl, h)

  -- A program's first call, for what it returns.
  cons-Ends :
      (c : ApiCall host.Float) (cs : List (ApiCall host.Float)) (p : Process host.World)
      (r : Option (ℤ × Process host.World))
      → reports_failure c ≡ true
      → Ends p r
      → ((q : Process host.World) → HasHistory cs q (run_calls host cs q))
      → HasHistory
          (c ∷ cs)
          p
          (elim r [ none ↦ none | some (code, p') ↦ prepend host code (run_calls host cs p') ])
  cons-Ends c cs p none reporting ends rest = elim ends [ ]
  cons-Ends c cs p (some (code, p')) reporting ends rest =
      cons-reporting c cs p p' code (run_calls host cs p') reporting ends (rest p')

  ApiCall-cases : (c : ApiCall host.Float) → (c ≡ get_last_error) ⊎ (reports_failure c ≡ true)
  ApiCall-cases get_last_error = inl refl
  ApiCall-cases c = inr refl

  -- Any program of exported calls that return a code runs to its end. Read in order, each code
  -- other than hipSuccess replaces the sticky error, hipGetLastError returns the sticky error and
  -- clears it, and nothing else changes it.
  pub run_calls-HasHistory :
      (cs : List (ApiCall host.Float)) (p : Process host.World)
      → HasHistory cs p (run_calls host cs p)
  unfolding run_calls run_call hip_get_last_error hip_get_last_error_and_reset
  run_calls-HasHistory [] p = refl
  run_calls-HasHistory (c ∷ cs) p =
      let rest : (q : Process host.World) → HasHistory cs q (run_calls host cs q) =
        run_calls-HasHistory cs in
      elim (ApiCall-cases c) [
        | inl last ↦
            subst (λ x. HasHistory (x ∷ cs) p (run_calls host (x ∷ cs) p)) (sym last)
              (cons-get_last_error cs p (run_calls host cs (record p { last_error = pos 0 }))
                (rest (record p { last_error = pos 0 })))
        | inr reporting ↦
            cons-Ends c cs p (run_call host c p) reporting (run_call-Ends host c p reporting) rest
      ]
