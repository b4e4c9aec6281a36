-- ===== src/ExtMem/Handle.antt =====
-- The file descriptor that ext_mem.c reads is the one that was put into the handle.
use dlssnr_on_amd_linux.Common.{
  ℕ, ◌+◌, ◌*◌, ◌%◌, ◌≤◌, ◌<◌, ◌^◌, ◌≡◌, ◌≢◌, ◌⊎◌, inl, inr, refl, arith, true, is_negative, Option,
  none, some, ℤ, pos, negsuc, minus_one,
}
use dlssnr_on_amd_linux.ExtMem.{HipExtMemHandleDesc, set_handle_fd, hip_ext_mem_extract_fd}

-- The range of a C `int`.
abbrev pub IsInt : ℤ → Type 0
IsInt (pos n) = n < 2 ^ 31
IsInt (negsuc n) = n < 2 ^ 31

-- An int written to the file descriptor of an OpaqueFd descriptor is extracted as it was, negative
-- values included, whatever the union held before.
pub extract_fd-set_handle_fd :
    (fd : ℤ) (desc : HipExtMemHandleDesc)
    → IsInt fd
    → desc.type ≡ pos 1
    → hip_ext_mem_extract_fd (some (set_handle_fd fd desc)) ≡ fd
unfolding hip_ext_mem_extract_fd set_handle_fd
extract_fd-set_handle_fd (pos n) desc h e = ground arith
extract_fd-set_handle_fd (negsuc n) desc h e = ground arith

-- From a D3D12Resource descriptor whose handle word is a file descriptor below 2 ^ 31 with anything
-- in the upper half, that file descriptor is extracted.
pub extract_fd-smuggled :
    (fd high : ℕ) (desc : HipExtMemHandleDesc)
    → fd < 2 ^ 31
    → desc.type ≡ pos 5
    → desc.handle ≡ high * 2 ^ 32 + fd
    → hip_ext_mem_extract_fd (some desc) ≡ pos fd
unfolding hip_ext_mem_extract_fd
extract_fd-smuggled fd high desc h e w = ground arith

-- A null descriptor, a descriptor of neither supported type, or one whose low 32 bits are a negative
-- int.
abbrev pub CarriesNoFd : Option HipExtMemHandleDesc → Type 0
CarriesNoFd none = Unit
CarriesNoFd (some d) =
    ((d.type ≢ pos 1) × (d.type ≢ pos 5))
    ⊎ (((d.type ≡ pos 1) ⊎ (d.type ≡ pos 5)) × (2 ^ 31 ≤ d.handle % 2 ^ 32))

pub extract_fd-CarriesNoFd :
    (d : Option HipExtMemHandleDesc) → CarriesNoFd d → is_negative (hip_ext_mem_extract_fd d) ≡ true
unfolding hip_ext_mem_extract_fd
extract_fd-CarriesNoFd none h = refl
extract_fd-CarriesNoFd (some d) (inl (a, b)) = ground arith
extract_fd-CarriesNoFd (some d) (inr (inl a, b)) = ground arith
extract_fd-CarriesNoFd (some d) (inr (inr a, b)) = ground arith

-- A null descriptor and a descriptor of any other type give -1, which is no file descriptor.
pub extract_fd_other :
    (desc : HipExtMemHandleDesc)
    → desc.type ≢ pos 1
    → desc.type ≢ pos 5
    → (hip_ext_mem_extract_fd none ≡ minus_one) × (hip_ext_mem_extract_fd (some desc) ≡ minus_one)
unfolding hip_ext_mem_extract_fd
extract_fd_other desc h k = (refl, ground arith)
