-- ===== src/Native/Limit/Race.antt =====
-- native.c, `unix_malloc` and `unix_free`, as steps of threads that share the table of allocations,
-- and the limit exceeded by two of them.
use dlssnr_on_amd_linux.Common.{
  ℕ, ◌+◌, ◌≤◌, ◌<◌, ◌≡◌, ◌≢◌, refl, arith, ℤ, pos, true, false, ◌⊎◌, List, [], ◌∷◌, ◌==◌, int_eq,
  Bool-cases, inl, inr, ==_of_ne,
}
use dlssnr_on_amd_linux.AllocCap.{
  AllocCap, u64, alloc_cap_would_exceed, alloc_cap_total, alloc_cap_record,
}
use dlssnr_on_amd_linux.AllocCap
use dlssnr_on_amd_linux.Host.{Host}
use dlssnr_on_amd_linux.Native.{Native, Symbol, resolve}
use dlssnr_on_amd_linux.Native.Loading.{resolve-IsKept}
use dlssnr_on_amd_linux.Native.Args.{ArgsMalloc, ArgsFree}
use dlssnr_on_amd_linux.Native.Memory.{unix_free}
use dlssnr_on_amd_linux.Native.Limit.Threads.{
  Shared, start, Step, Reach, admit, complete, free, stay, then_,
}

-- The table of allocations, while other threads wait for hipMalloc.
abbrev pub shared : {W : Type 0} → Native W → List ℕ → Shared
shared s waiting = record { alloc_cap = s.alloc_cap; pending = waiting }

module _ (host : Host) where
  -- How a call for `a.size` bytes is served, to which hipMalloc would answer `r`: it is refused with
  -- the table as it was; or it is admitted, and then recorded if hipMalloc gave memory, else given up
  -- with the table as it was.
  abbrev pub Serves : ℕ → ℕ → ArgsMalloc → ℤ × ℕ → Native host.World → List ℕ → Shared → Type 0
  Serves cap threads a r s waiting after =
      let before = shared s waiting in
      let admitted = shared s (a.size ∷ waiting) in
      ((alloc_cap_would_exceed (alloc_cap_total s.alloc_cap) a.size cap ≡ true) × (after ≡ before))
      ⊎ (Step cap threads a.size before admitted
          × (((r.0 ≡ pos 0)
                × (r.1 ≢ 0)
                × Step cap threads a.size admitted after
                × (after.alloc_cap ≡ (alloc_cap_record r.1 a.size s.alloc_cap).1))
              ⊎ (((r.0 ≢ pos 0) ⊎ (r.1 ≡ 0))
                  × Step cap threads a.size admitted after
                  × (after ≡ before))))

  -- The handler of hipFree makes at most one step, a release.
  pub unix_free-Reach :
      (cap threads largest : ℕ) (a : ArgsFree) (s : Native host.World) (waiting : List ℕ)
      → Reach cap threads largest (shared s waiting) (shared (unix_free host a s).1 waiting)
  unfolding unix_free
  unix_free-Reach cap threads largest a s waiting =
      let (fn, s') = resolve host Symbol.free s in
      let kept = (resolve-IsKept host Symbol.free s).alloc_cap in
      elim (Bool-cases (fn == 0)) [
        | inl missing ↦ rw (missing, kept) stay
        | inr there ↦ elim (Bool-cases (int_eq (host.hip_free fn a.ptr s'.world).0 0)) [
          | inl freed ↦ rw (there, freed, kept) (then_ (free a.ptr) stay)
          | inr failed ↦ rw (there, failed, kept) stay
        ]
      ]

-- With a limit of at least 1 that fits twice into 64 bits, two threads that both ask for the whole
-- limit reach twice the limit from the program's start: both pass the check before either records.
pub race_exceeds :
    (cap ptr other : ℕ)
    → 1 ≤ cap
    → cap + cap < u64
    → ptr ≢ 0
    → other ≢ 0
    → (t : Shared) × Reach cap 2 cap start t × (alloc_cap_total t.alloc_cap ≡ cap + cap)
unfolding alloc_cap_would_exceed alloc_cap_total alloc_cap_record AllocCap.initial
race_exceeds cap ptr other set word live live' =
    let passed : alloc_cap_would_exceed (alloc_cap_total AllocCap.initial) cap cap ≡ false =
      ground arith in
    (
      _,
      then_ (admit cap (omega arith) (omega arith) passed) (
          then_ (admit cap (omega arith) (omega arith) passed) (
            then_ (complete ptr cap [] (cap ∷ []) refl)
              (then_ (complete other cap [] [] refl) stay))),
      rw (==_of_ne ptr 0 live, ==_of_ne other 0 live') (ground arith),
    )
