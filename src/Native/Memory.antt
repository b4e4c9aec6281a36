-- ===== src/Native/Memory.antt =====
-- native.c: the handlers of the memory calls, and the limit on device memory in front of hipMalloc.
use dlssnr_on_amd_linux.Common.{
  ℕ, ◌+◌, ◌%◌, pos, minus_one, true, not, ◌&&◌, none, some, [], ◌∷◌, ◌==◌, int_eq, if◌then◌else◌,
}
use dlssnr_on_amd_linux.AllocCap.{
  u64, alloc_cap_would_exceed, alloc_cap_record, alloc_cap_release, alloc_cap_total,
}
use dlssnr_on_amd_linux.Host.{Host}
use dlssnr_on_amd_linux.Native.{
  find_var, Native, malloc, free, memcpy, memset, memcpy_async, memset_async, resolve,
}
use dlssnr_on_amd_linux.Native.Args.{
  ArgsMalloc, ArgsFree, ArgsMemcpy, ArgsMemset, ArgsMemcpyToSymbol,
}

-- hipErrorOutOfMemory
abbrev pub hip_error_out_of_memory : ℕ
hip_error_out_of_memory = 2

module _ (host : Host) where
  -- The environment is read once.
  unfoldable pub ensure_vram_cap_read : Native host.World → Native host.World
  ensure_vram_cap_read s =
      if s.vram_cap_read then s else elim (host.getenv "DLSSNR_VRAM_CAP_BYTES" s.world) [
        | none ↦ record s { vram_cap_read = true }
        | some [] ↦ record s { vram_cap_read = true }
        | some (c ∷ text) ↦ record s {
          vram_cap_read = true;
          vram_cap_bytes = host.strtoull (c ∷ text);
        }
      ]

  -- The handler after the limit was read.
  unfoldable pub limited_malloc :
      ℕ → ArgsMalloc → Native host.World → ArgsMalloc × Native host.World
  limited_malloc fn a s =
      if alloc_cap_would_exceed (alloc_cap_total s.alloc_cap) a.size s.vram_cap_bytes
      then (record a { ptr = 0; ret = pos hip_error_out_of_memory }, s)
      else (let (ret, ptr, w) = host.hip_malloc fn a.size s.world in
          let cap =
            if int_eq ret 0 && not (ptr == 0)
            then (alloc_cap_record ptr a.size s.alloc_cap).1
            else s.alloc_cap in
          (record a { ptr = ptr; ret = ret }, record s { alloc_cap = cap; world = w }))

  unfoldable pub unix_malloc : ArgsMalloc → Native host.World → ArgsMalloc × Native host.World
  unix_malloc a s =
      let (fn, loaded) = resolve host malloc s in
      if fn == 0
      then (record a { ptr = 0; ret = minus_one }, loaded)
      else limited_malloc fn a (ensure_vram_cap_read loaded)

  unfoldable pub unix_free : ArgsFree → Native host.World → ArgsFree × Native host.World
  unix_free a s =
      let (fn, s') = resolve host free s in
      if fn == 0
      then (record a { ret = minus_one }, s')
      else (let (ret, w) = host.hip_free fn a.ptr s'.world in
          let cap =
            if int_eq ret 0 then (alloc_cap_release a.ptr s'.alloc_cap).1 else s'.alloc_cap in
          (record a { ret = ret }, record s' { alloc_cap = cap; world = w }))

  unfoldable pub unix_memcpy : ArgsMemcpy → Native host.World → ArgsMemcpy × Native host.World
  unix_memcpy a s =
      let (fn, s') = resolve host memcpy s in
      if fn == 0
      then (record a { ret = minus_one }, s')
      else (let (ret, w) = host.hip_memcpy fn a.dst a.src a.size a.kind s'.world in
          (record a { ret = ret }, record s' { world = w }))

  unfoldable pub unix_memset : ArgsMemset → Native host.World → ArgsMemset × Native host.World
  unix_memset a s =
      let (fn, s') = resolve host memset s in
      if fn == 0
      then (record a { ret = minus_one }, s')
      else (let (ret, w) = host.hip_memset fn a.ptr a.value a.size s'.world in
          (record a { ret = ret }, record s' { world = w }))

  unfoldable pub unix_memcpy_async : ArgsMemcpy → Native host.World → ArgsMemcpy × Native host.World
  unix_memcpy_async a s =
      let (fn, s') = resolve host memcpy_async s in
      if fn == 0
      then (record a { ret = minus_one }, s')
      else (let (ret, w) = host.hip_memcpy_async fn a.dst a.src a.size a.kind a.stream s'.world in
          (record a { ret = ret }, record s' { world = w }))

  unfoldable pub unix_memset_async : ArgsMemset → Native host.World → ArgsMemset × Native host.World
  unix_memset_async a s =
      let (fn, s') = resolve host memset_async s in
      if fn == 0
      then (record a { ret = minus_one }, s')
      else (let (ret, w) = host.hip_memset_async fn a.ptr a.value a.size a.stream s'.world in
          (record a { ret = ret }, record s' { world = w }))

  -- An unknown symbol is refused before anything is loaded. The address sum is 64-bit.
  unfoldable pub unix_memcpy_to_symbol :
      ArgsMemcpyToSymbol → Native host.World → ArgsMemcpyToSymbol × Native host.World
  unix_memcpy_to_symbol a s =
      let device_ptr = find_var a.symbol s in
      if device_ptr == 0
      then (record a { ret = minus_one }, s)
      else (let (fn, s') = resolve host memcpy s in
          if fn == 0
          then (record a { ret = minus_one }, s')
          else (let (ret, w) =
                host.hip_memcpy fn ((device_ptr + a.offset) % u64) a.src a.size a.kind s'.world in
              (record a { ret = ret }, record s' { world = w })))
