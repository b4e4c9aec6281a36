-- ===== src/Tests/Environment.antt =====
-- Tests of LD_LIBRARY_PATH on a host where no library opens; its world is the value of that variable.
use dlssnr_on_amd_linux.Common.{
  ℕ, ◌+◌, ◌≡◌, ◌≢◌, refl, arith, pos, Option, some, [], take, Bytes, codes,
}
use dlssnr_on_amd_linux.Host.{Host}
use dlssnr_on_amd_linux.Native
use dlssnr_on_amd_linux.Native.Loading.{IsUnloaded}
use dlssnr_on_amd_linux.Native.Loading.LdPath.{
  IsHopeless, repeated, ld_path, attempts, attempts_forget,
}

abbrev environment_host : Host
environment_host = record {
  World = Option Bytes;
  Float = ℕ;
  zero_float = 0;
  memory = λ w a. some 0;
  getenv = λ name w. w;
  setenv = λ name value w. some value;
  strtoull = λ text. 0;
  dlopen = λ name w. (0, w);
  dlsym = λ handle name w. 100;
  hip_malloc = λ fn size w. (pos 0, 4096, w);
  hip_free = λ fn ptr w. (pos 0, w);
  hip_memcpy = λ fn dst src size kind w. (pos 0, w);
  hip_memset = λ fn ptr value size w. (pos 0, w);
  hip_memcpy_async = λ fn dst src size kind stream w. (pos 0, w);
  hip_memset_async = λ fn ptr value size stream w. (pos 0, w);
  hip_get_error_string = λ fn error w. (50, w);
  hip_get_device_count = λ fn count w. (pos 0, pos 1, w);
  hip_set_device = λ fn device w. (pos 0, w);
  hip_driver_get_version = λ fn w. (pos 0, pos 70, w);
  hip_runtime_get_version = λ fn w. (pos 0, pos 72, w);
  hip_import_external_memory = λ fn desc w. (pos 0, 9000 + desc.handle, w);
  hip_external_memory_get_mapped_buffer = λ fn ext_mem desc w. (pos 0, 9500, w);
  hip_destroy_external_memory = λ fn ext_mem w. (pos 0, w);
  hip_event_create = λ fn w. (pos 0, 600, w);
  hip_event_create_with_flags = λ fn flags w. (pos 0, 601, w);
  hip_event_record = λ fn event stream w. (pos 0, w);
  hip_event_synchronize = λ fn event w. (pos 0, w);
  hip_event_query = λ fn event w. (pos 600, w);
  hip_event_elapsed_time = λ fn start stop w. (pos 0, 5, w);
  hip_stream_create_with_flags = λ fn flags w. (pos 0, 700, w);
  hip_stream_synchronize = λ fn stream w. (pos 0, w);
  hip_device_synchronize = λ fn w. (pos 0, w);
  hip_get_device_properties = λ fn props device w. (pos 0, w);
  hip_module_load_data = λ fn bundle w. (pos 0, 800, w);
  hip_module_get_function = λ fn module_ name w. (pos 0, 900, w);
  hip_module_get_global = λ fn module_ name w. (pos 0, 1000, 64, w);
  hip_module_launch_kernel = λ fn function gx gy gz bx by bz shared_mem stream params w. (pos 0, w);
}

hopeless : IsHopeless environment_host
hopeless = record { closed = λ name w. refl; kept = λ name w. refl; holds = λ value w. refl }

abbrev user_path : Bytes
user_path = codes "/home/user/lib"

unloaded : IsUnloaded environment_host (Native.initial (some user_path))
unfolding Native.initial
unloaded = record { handle = refl; symbols = λ sym. refl }

set_by_user : ld_path environment_host (Native.initial (some user_path)).world ≡ some user_path
unfolding Native.initial
set_by_user = refl

user_path_there : user_path ≢ []
user_path_there e = ground arith

attempts_forget_example :
    ld_path environment_host (attempts environment_host 30 (Native.initial (some user_path))).world
    ≡ some (take 4095 (repeated 30))
attempts_forget_example =
    attempts_forget environment_host 30 (Native.initial (some user_path)) user_path hopeless
      unloaded set_by_user user_path_there (omega arith)
