-- ===== src/Native/Args.antt =====
-- windows-runtime-bridge/hip-unixlib/unixlib.h: the argument structs that pass between the two sides.
-- A pointer is an address, `const char *` is a text or NULL (`none`), and `ret_str`, which may point
-- to the shim's own message, is a `CString`. `Float` is C's float.
use dlssnr_on_amd_linux.Common.{ℕ, ℤ, Option, Bytes}

pub data CString : Type 0 where
  null fallback : CString
  foreign : ℕ → CString

pub record ArgsGetDeviceCount : Type 0 where
  pub count : ℤ
  pub ret : ℤ

pub record ArgsSetDevice : Type 0 where
  pub device : ℤ
  pub ret : ℤ

pub record ArgsGetVersion : Type 0 where
  pub version : ℤ
  pub ret : ℤ

pub record ArgsGetErrorString : Type 0 where
  pub error : ℤ
  pub ret_str : CString

pub record ArgsGetDeviceProperties : Type 0 where
  pub props : ℕ
  pub device : ℤ
  pub ret : ℤ

pub record ArgsMalloc : Type 0 where
  pub ptr : ℕ
  pub size : ℕ
  pub ret : ℤ

pub record ArgsFree : Type 0 where
  pub ptr : ℕ
  pub ret : ℤ

pub record ArgsMemcpy : Type 0 where
  pub dst : ℕ
  pub src : ℕ
  pub size : ℕ
  pub kind : ℤ
  pub stream : ℕ
  pub ret : ℤ

pub record ArgsMemset : Type 0 where
  pub ptr : ℕ
  pub value : ℤ
  pub size : ℕ
  pub stream : ℕ
  pub ret : ℤ

pub record ArgsDeviceSynchronize : Type 0 where
  pub ret : ℤ

pub record ArgsRegisterFatBinary : Type 0 where
  pub fatbin : ℕ
  pub fatbin_token : ℕ

pub record ArgsRegisterFunction : Type 0 where
  pub fatbin_token : ℕ
  pub host_fn : ℕ
  pub device_name : Option Bytes

pub record ArgsUnregisterFatBinary : Type 0 where
  pub fatbin_token : ℕ

pub record ArgsRegisterVar : Type 0 where
  pub fatbin_token : ℕ
  pub host_var : ℕ
  pub device_name : Option Bytes

pub record ArgsMemcpyToSymbol : Type 0 where
  pub symbol : ℕ
  pub src : ℕ
  pub size : ℕ
  pub offset : ℕ
  pub kind : ℤ
  pub ret : ℤ

pub record Dim3 : Type 0 where
  pub x : ℕ
  pub y : ℕ
  pub z : ℕ

pub record ArgsLaunchKernel : Type 0 where
  pub host_fn : ℕ
  pub grid : Dim3
  pub block : Dim3
  pub args : ℕ
  pub shared_mem : ℕ
  pub stream : ℕ
  pub ret : ℤ

pub record ArgsImportExternalMemory : Type 0 where
  pub fd : ℤ
  pub size : ℕ
  pub flags : ℕ
  pub ext_mem : ℕ
  pub ret : ℤ

pub record ArgsExternalMemoryGetMappedBuffer : Type 0 where
  pub ext_mem : ℕ
  pub offset : ℕ
  pub size : ℕ
  pub flags : ℕ
  pub dev_ptr : ℕ
  pub ret : ℤ

pub record ArgsDestroyExternalMemory : Type 0 where
  pub ext_mem : ℕ
  pub ret : ℤ

pub record ArgsEventCreate : Type 0 where
  pub flags : ℕ
  pub event : ℕ
  pub ret : ℤ

pub record ArgsEventRecord : Type 0 where
  pub event : ℕ
  pub stream : ℕ
  pub ret : ℤ

-- `struct args_event_synchronize` and `struct args_event_query`.
pub record ArgsEvent : Type 0 where
  pub event : ℕ
  pub ret : ℤ

pub record ArgsEventElapsedTime (Float : Type 0) : Type 0 where
  pub start : ℕ
  pub stop : ℕ
  pub ms : Float
  pub ret : ℤ

pub record ArgsStreamCreate : Type 0 where
  pub flags : ℕ
  pub stream : ℕ
  pub ret : ℤ

pub record ArgsStreamSynchronize : Type 0 where
  pub stream : ℕ
  pub ret : ℤ
