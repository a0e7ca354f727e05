-- ===== src/Control/Machine.antt =====
-- What `handleCommand` asks of the machine. The type of `double`, its reading and its printing are
-- parameters.
use wireless_android_auto_do.Prelude.{[], Option, none, some, if◌then◌else◌}
use wireless_android_auto_do.Text.{Bytes, is_empty}
use wireless_android_auto_do.Control.{BuildInfo, System, read_first_line}

-- `getKernelRelease`, on the result of `uname`
unfoldable pub get_kernel_release : Option Bytes → Bytes
get_kernel_release none = []
get_kernel_release (some release) = release

-- `getBuildInfo`, on the constants of the build
unfoldable pub get_build_info : Bytes → Bytes → Bytes → BuildInfo
get_build_info version git_sha build_time_utc = record {
  version = version;
  git_sha = git_sha;
  build_time_utc = build_time_utc;
}

module _ {D : Type 0} (zero_sec : D) (parse_double : Bytes → D) (print_double : D → Bytes) where
  -- `getUptimeSec`, on the contents of /proc/uptime
  unfoldable pub get_uptime_sec : Bytes → D
  get_uptime_sec file =
      let up = read_first_line file in if is_empty up then zero_sec else parse_double up

  -- the start of the answer to `LIST`
  unfoldable pub system : Bytes → Bytes → Option Bytes → BuildInfo → System
  system uptime_file cmdline uname build = record {
    uptime_sec = print_double (get_uptime_sec uptime_file);
    cmdline = cmdline;
    kernel_release = get_kernel_release uname;
    build = build;
  }
