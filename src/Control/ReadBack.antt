-- ===== src/Control/ReadBack.antt =====
-- A reader of the answer to `LIST`, and what it recovers.
use wireless_android_auto_do.Prelude.{
  ℕ, zero, suc, ◌≤◌, ◌≡◌, refl, Bool, true, false, List, [], ◌∷◌, ◌++◌, Option, none, some, arith,
  if◌then◌else◌, append_assoc, length, drop,
}
use wireless_android_auto_do.Text.{Bytes, codes, has_byte, before, starts_with}
use wireless_android_auto_do.Text.Laws.{starts_with-append, drop-append, before-append}
use wireless_android_auto_do.Control.{
  BluetoothDeviceInfo, BuildInfo, System, slot_of, print_bool, print_device, print_more,
  print_devices, print_system, list_response, get_cmdline_token_value,
}
use wireless_android_auto_do.Control.Json.{read_string, read_string-json_escape}

infixl 5 ◌>>=◌
abbrev ◌>>=◌ : {A B : Type 0} → Option A → (A → Option B) → Option B
none >>= f = none
some a >>= f = f a

-- The text that has to stand next, and what follows it.
expect : Bytes → Bytes → Option Bytes
expect t s = if starts_with t s then some (drop (length t) s) else none

expect-append : (t rest : Bytes) → expect t (t ++ rest) ≡ some rest
unfolding expect
expect-append t rest = rw (starts_with-append t rest, drop-append t rest)

read_bool : Bytes → Option (Bool × Bytes)
read_bool s =
    if starts_with (codes "true") s
    then some (true, drop 4 s)
    else if starts_with (codes "false") s
    then some (false, drop 5 s)
    else none

read_bool-print_bool : (b : Bool) (rest : Bytes) → read_bool (print_bool b ++ rest) ≡ some (b, rest)
unfolding read_bool starts_with
read_bool-print_bool true rest = refl
read_bool-print_bool false rest = refl

-- One object of the array of devices.
read_device : Bytes → Option (BluetoothDeviceInfo × Bytes)
read_device s = do
  s ← expect (codes "{\"objectPath\":\"") s
  (object_path, s) ← read_string false s
  s ← expect (codes ",\"address\":\"") s
  (address, s) ← read_string false s
  s ← expect (codes ",\"name\":\"") s
  (name, s) ← read_string false s
  s ← expect (codes ",\"paired\":") s
  (paired, s) ← read_bool s
  s ← expect (codes ",\"trusted\":") s
  (trusted, s) ← read_bool s
  s ← expect (codes ",\"connected\":") s
  (connected, s) ← read_bool s
  s ← expect (codes "}") s
  some (
    record {
      object_path = object_path;
      address = address;
      name = name;
      paired = paired;
      trusted = trusted;
      connected = connected;
    },
    s,
  )

read_device-print_device :
    (d : BluetoothDeviceInfo) (rest : Bytes) → read_device (print_device d ++ rest) ≡ some (d, rest)
unfolding read_device print_device expect starts_with
read_device-print_device d rest = simp (append_assoc, read_string-json_escape, read_bool-print_bool)

-- The devices behind the first, up to the closing bracket; the number bounds them.
read_more : ℕ → Bytes → Option (List BluetoothDeviceInfo × Bytes)
read_more zero s = none
read_more (suc k) s = if starts_with (codes "]") s then some ([], drop 1 s) else do
  s ← expect (codes ",") s
  (d, s) ← read_device s
  (ds, s) ← read_more k s
  some (d ∷ ds, s)

read_more-print_more :
    (k : ℕ) (ds : List BluetoothDeviceInfo) (rest : Bytes)
    → suc (length ds) ≤ k
    → read_more k (print_more ds ++ b']' ∷ rest) ≡ some (ds, rest)
unfolding read_more print_more expect starts_with
read_more-print_more zero ds rest h = absurd (omega arith)
read_more-print_more (suc k) [] rest h = refl
read_more-print_more (suc k) (d ∷ ds) rest h =
    simp (append_assoc, read_device-print_device, read_more-print_more k ds rest (omega arith))

read_devices : ℕ → Bytes → Option (List BluetoothDeviceInfo × Bytes)
read_devices k s =
    if starts_with (codes "]") s
    then some ([], drop 1 s)
    else do (d, s) ← read_device s; (ds, s) ← read_more k s; some (d ∷ ds, s)

-- An object is not mistaken for the end of the array.
print_device-not-end :
    (d : BluetoothDeviceInfo) (rest : Bytes)
    → starts_with (codes "]") (print_device d ++ rest) ≡ false
unfolding print_device starts_with
print_device-not-end d rest = refl

read_devices-print_devices :
    (k : ℕ) (ds : List BluetoothDeviceInfo) (rest : Bytes)
    → length ds ≤ k
    → read_devices k (print_devices ds ++ b']' ∷ rest) ≡ some (ds, rest)
unfolding read_devices print_devices
read_devices-print_devices k [] rest h = unfold starts_with in refl
read_devices-print_devices k (d ∷ ds) rest h = simp (
  append_assoc,
  print_device-not-end,
  read_device-print_device,
  read_more-print_more k ds rest (omega arith),
)

-- What `LIST` tells.
pub record Answer : Type 0 where
  pub uptime_sec : Bytes
  pub root_dev : Bytes
  pub slot : Bytes
  pub kernel_release : Bytes
  pub build : BuildInfo
  pub devices : List BluetoothDeviceInfo

-- The answer to `LIST`, with at most `k` devices.
pub read_answer : ℕ → Bytes → Option (Answer × Bytes)
read_answer k s = do
  s ← expect (codes "{\"ok\":true,\"uptimeSec\":") s
  (uptime_sec, s) ← some (before b',' s, drop (length (before b',' s)) s)
  s ← expect (codes ",\"rootDev\":\"") s
  (root_dev, s) ← read_string false s
  s ← expect (codes ",\"slot\":\"") s
  (slot, s) ← read_string false s
  s ← expect (codes ",\"kernelRelease\":\"") s
  (kernel_release, s) ← read_string false s
  s ← expect (codes ",\"build\":{\"version\":\"") s
  (version, s) ← read_string false s
  s ← expect (codes ",\"gitSha\":\"") s
  (git_sha, s) ← read_string false s
  s ← expect (codes ",\"buildTimeUtc\":\"") s
  (build_time_utc, s) ← read_string false s
  s ← expect (codes "},\"devices\":[") s
  (devices, s) ← read_devices k s
  s ← expect (codes "}\n") s
  some (
    record {
      uptime_sec = uptime_sec;
      root_dev = root_dev;
      slot = slot;
      kernel_release = kernel_release;
      build = record { version = version; git_sha = git_sha; build_time_utc = build_time_utc };
      devices = devices;
    },
    s,
  )

-- A reader that knows the layout of the answer to `LIST` recovers from it all that went in: the
-- printed uptime, the root device and its slot, the kernel, the build, and the devices in order,
-- whatever bytes their names hold, where the printed uptime holds no comma.
pub read_answer-list_response :
    (sys : System) (ds : List BluetoothDeviceInfo)
    → has_byte b',' sys.uptime_sec ≡ false
    → let root_dev = get_cmdline_token_value sys.cmdline (codes "root") in
      read_answer (length ds) (list_response sys ds)
      ≡ some (
        record {
          uptime_sec = sys.uptime_sec;
          root_dev = root_dev;
          slot = slot_of root_dev;
          kernel_release = sys.kernel_release;
          build = sys.build;
          devices = ds;
        },
        [],
      )
unfolding read_answer list_response print_system expect starts_with
read_answer-list_response sys ds h = simp (
  append_assoc,
  λ (ys : Bytes). before-append b',' sys.uptime_sec ys h,
  drop-append,
  read_string-json_escape,
  read_devices-print_devices (length ds) ds (codes "}\n") (omega arith),
)
