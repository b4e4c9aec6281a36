-- ===== src/ExtMem.antt =====
-- windows-runtime-bridge/hip-unixlib/ext_mem.h and ext_mem.c: the descriptors of the HIP external
-- memory API, and the extraction of a Linux file descriptor. The union of a handle descriptor is
-- kept as the two 8-byte words that it occupies; a 4-byte member reads the low half of the first.
pub mod Handle
use dlssnr_on_amd_linux.Common.{
  ℕ, ◌+◌, ◌-◌, ◌*◌, ◌/◌, ◌%◌, ◌^◌, Option, none, some, ℤ, pos, negsuc, minus_one, int_eq,
  int_of_word, if◌then◌else◌,
}

abbrev pub opaque_fd : ℕ
opaque_fd = 1

abbrev pub d3d12_resource : ℕ
d3d12_resource = 5

-- `struct hip_ext_mem_handle_desc`, without its reserved words.
pub record HipExtMemHandleDesc : Type 0 where
  pub type : ℤ
  pub handle : ℕ
  pub name : ℕ
  pub size : ℕ
  pub flags : ℕ

-- `struct hip_ext_mem_buffer_desc`, without its reserved words.
pub record HipExtMemBufferDesc : Type 0 where
  pub offset : ℕ
  pub size : ℕ
  pub flags : ℕ

-- The member `handle.fd`.
unfoldable pub handle_fd : HipExtMemHandleDesc → ℤ
unfolding int_of_word
handle_fd desc = int_of_word desc.handle

-- The 32 bits of an `int`.
unfoldable pub word_of_int : ℤ → ℕ
word_of_int (pos n) = n % 2 ^ 32
word_of_int (negsuc n) = (2 ^ 32 - 1 - n % 2 ^ 32)

-- `desc.handle.fd = fd`: the low half of the first word is written.
unfoldable pub set_handle_fd : ℤ → HipExtMemHandleDesc → HipExtMemHandleDesc
unfolding word_of_int
set_handle_fd fd desc = record desc { handle = desc.handle / 2 ^ 32 * 2 ^ 32 + word_of_int fd }

-- `none` is a null descriptor.
unfoldable pub hip_ext_mem_extract_fd : Option HipExtMemHandleDesc → ℤ
unfolding handle_fd int_of_word
hip_ext_mem_extract_fd none = minus_one
hip_ext_mem_extract_fd (some desc) =
    if int_eq desc.type opaque_fd
    then handle_fd desc
    else if int_eq desc.type d3d12_resource
    then int_of_word desc.handle
    else minus_one

-- What `memset(&desc, 0, sizeof(desc))` leaves.
abbrev pub zeroed_desc : HipExtMemHandleDesc
zeroed_desc = record { type = pos 0; handle = 0; name = 0; size = 0; flags = 0 }
