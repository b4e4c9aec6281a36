-- ===== src/Pe/EndToEnd.antt =====
-- pe_shim.c over native.c: what reaches the HIP runtime of a call that the Windows side accepts, and
-- that a call which it rejects reaches nothing.
use dlssnr_on_amd_linux.Common.{
  ℕ, ◌+◌, ◌*◌, ◌^◌, ◌%◌, ◌<◌, ◌≡◌, ◌≢◌, refl, inl, inr, sym, arith, ℤ, pos, negsuc, true, false,
  ◌⊎◌, ◌≤◌, leb, Option, none, some, ==_of_ne, Bool-cases,
}
use dlssnr_on_amd_linux.Forward.{hip_memcpy_kind_supported, hip_forward_ptr_result}
use dlssnr_on_amd_linux.ExtMem.{HipExtMemHandleDesc, set_handle_fd, word_of_int}
use dlssnr_on_amd_linux.ExtMem.Handle.{extract_fd-smuggled, CarriesNoFd, extract_fd-CarriesNoFd}
use dlssnr_on_amd_linux.Host.{Host}
use dlssnr_on_amd_linux.Native.{Symbol, resolve, ensure_loaded}
use dlssnr_on_amd_linux.Native.Interop.{unix_import_external_memory, opaque_desc, query_pointer}
use dlssnr_on_amd_linux.Native.Memory.{unix_memcpy, unix_memcpy_async}
use dlssnr_on_amd_linux.Native.Dispatch.{unix_call}
use dlssnr_on_amd_linux.Pe.{Process, finish, set_last_error, wine_unix_call, store}
use dlssnr_on_amd_linux.Pe.Memory.{hip_memcpy, hip_memcpy_async}
use dlssnr_on_amd_linux.Pe.Interop.{hip_import_external_memory}

module _ (host : Host) where
  -- The runtime's function is there: the library is open, and dlsym found the symbol.
  abbrev pub Has : Symbol → Process host.World → Type 0
  Has sym p = (p.native.hip_handle ≢ 0) × (p.native.symbols sym ≢ 0)

  resolve-Has :
      (sym : Symbol) (p : Process host.World)
      → Has sym p
      → resolve host sym p.native ≡ (p.native.symbols sym, p.native)
  unfolding resolve ensure_loaded
  resolve-Has sym p h = ground arith

  -- The descriptor that reaches the runtime.
  abbrev pub fd_desc : ℕ → HipExtMemHandleDesc → HipExtMemHandleDesc
  fd_desc fd d = record { type = pos 1; handle = fd; name = 0; size = d.size; flags = d.flags }

  -- What the caller gets from an answer of the runtime.
  abbrev pub imported :
      Option ℕ
      → Process host.World
      → ℤ × ℕ × host.World
      → Option ((ℤ × Option ℕ) × Process host.World)
  imported ext_mem p (ret, ptr, w) =
      let (code, p') = finish ret 801 (record p { native = record p.native { world = w } }) in
      some ((code, store ext_mem ptr), p')

  -- With the runtime loaded, importing a D3D12Resource descriptor whose Win32 handle is a file
  -- descriptor below 2 ^ 31, with anything in the upper half of the word, asks the runtime to
  -- import an OpaqueFd descriptor with that file descriptor and the caller's size and flags. The
  -- caller gets the runtime's pointer, and its code as hipSuccess or, recorded as the sticky error,
  -- hipErrorNotSupported.
  pub import_external_memory-smuggled :
      (fd high : ℕ) (ext_mem : Option ℕ) (d : HipExtMemHandleDesc) (p : Process host.World)
      → fd < 2 ^ 31
      → d.type ≡ pos 5
      → d.handle ≡ high * 2 ^ 32 + fd
      → Has Symbol.import_external_memory p
      → hip_import_external_memory host ext_mem (some d) p
        ≡ imported ext_mem p (
            host.hip_import_external_memory
              (p.native.symbols Symbol.import_external_memory)
              (fd_desc fd d)
              p.native.world)
  unfolding hip_import_external_memory wine_unix_call unix_call unix_import_external_memory
      query_pointer opaque_desc set_handle_fd word_of_int hip_forward_ptr_result
  import_external_memory-smuggled fd high ext_mem d p small type handle has =
      let low : 0 + fd % 2 ^ 32 ≡ fd = omega arith in
      rw
        (
          extract_fd-smuggled fd high d small type handle,
          resolve-Has _ p has,
          ==_of_ne (p.native.symbols Symbol.import_external_memory) 0 has.1,
          low,
        )
        refl

  -- An import with a null descriptor, one that is neither OpaqueFd nor D3D12Resource, or one of
  -- these whose low 32 bits of the handle have the sign bit set, is refused before the native side
  -- is called: the result is hipErrorNotSupported, which becomes the sticky error, and a null
  -- pointer; nothing else changes.
  pub import_external_memory_refused :
      (ext_mem : Option ℕ) (d : Option HipExtMemHandleDesc) (p : Process host.World)
      → CarriesNoFd d
      → hip_import_external_memory host ext_mem d p
        ≡ some ((pos 801, store ext_mem 0), record p { last_error = pos 801 })
  unfolding hip_import_external_memory set_last_error
  import_external_memory_refused ext_mem none p h = refl
  import_external_memory_refused ext_mem (some d) p h = rw (extract_fd-CarriesNoFd (some d) h) refl

  -- The kinds that HIP documents, hipMemcpyHostToHost to hipMemcpyDefault.
  abbrev pub IsDocumented : ℤ → Type 0
  IsDocumented kind = (k : ℕ) × (k ≤ 4) × (kind ≡ pos k)

  kind_cases :
      (kind : ℤ)
      → ((hip_memcpy_kind_supported kind ≡ true) × IsDocumented kind)
        ⊎ ((hip_memcpy_kind_supported kind ≡ false) × ¬ IsDocumented kind)
  unfolding hip_memcpy_kind_supported
  kind_cases (pos k) = elim (Bool-cases (leb k 4)) [
    | inl below ↦ inl (ground arith, (k, ground arith, refl))
    | inr above ↦ inr (ground arith, λ (j, le, e). ground arith)
  ]
  kind_cases (negsuc n) = inr (refl, λ (j, le, e). ground arith)

  -- What the caller of a copy gets from an answer of the runtime.
  abbrev pub copied :
      Process host.World → ℤ × host.World → Option ((ℤ × Unit {0}) × Process host.World)
  copied p (ret, w) =
      let (code, p') = finish ret 801 (record p { native = record p.native { world = w } }) in
      some ((code, tt), p')

  -- What the caller of a rejected copy gets.
  abbrev pub rejected : Process host.World → Option ((ℤ × Unit {0}) × Process host.World)
  rejected p = some ((pos 801, tt), record p { last_error = pos 801 })

  -- With the runtime loaded, hipMemcpy and hipMemcpyAsync hand a copy of any of the five kinds from
  -- hipMemcpyHostToHost (0) to hipMemcpyDefault (4) to the runtime with the addresses, size and
  -- kind of the caller, and the stream for the latter, and return its code as hipSuccess or
  -- hipErrorNotSupported; a copy of another kind is rejected with hipErrorNotSupported as the
  -- sticky error, and nothing else changes.
  pub memcpy-copied :
      (dst src size stream : ℕ) (kind : ℤ) (p : Process host.World)
      → Has Symbol.memcpy p
      → Has Symbol.memcpy_async p
      → (IsDocumented kind
          × (hip_memcpy host dst src size kind p
              ≡ copied p (
                  host.hip_memcpy
                    (p.native.symbols Symbol.memcpy)
                    dst
                    src
                    size
                    kind
                    p.native.world))
          × (hip_memcpy_async host dst src size kind stream p
              ≡ copied p (
                  host.hip_memcpy_async
                    (p.native.symbols Symbol.memcpy_async)
                    dst
                    src
                    size
                    kind
                    stream
                    p.native.world)))
        ⊎ (¬ IsDocumented kind
            × (hip_memcpy host dst src size kind p ≡ rejected p)
            × (hip_memcpy_async host dst src size kind stream p ≡ rejected p))
  unfolding hip_memcpy hip_memcpy_async wine_unix_call unix_call unix_memcpy unix_memcpy_async
      set_last_error
  memcpy-copied dst src size stream kind p has has_async = elim (kind_cases kind) [
    | inl (supported, known) ↦ inl (
      known,
      rw (supported, resolve-Has _ p has, ==_of_ne (p.native.symbols Symbol.memcpy) 0 has.1) refl,
      rw
          (
            supported,
            resolve-Has _ p has_async,
            ==_of_ne (p.native.symbols Symbol.memcpy_async) 0 has_async.1,
          )
          refl,
    )
    | inr (other, unknown) ↦ inr (unknown, rw other refl, rw other refl)
  ]
