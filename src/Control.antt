-- ===== src/Control.antt =====
-- controlSocket.cpp: the control socket that lists the devices and switches between them.
-- The Bluetooth handler, what the system says of itself, and the sockets are parameters.
pub mod Json
pub mod Tokens
pub mod ReadBack
pub mod Serve
pub mod Socket
pub mod Machine
mod Tests
use wireless_android_auto_do.Prelude.{
  ℕ, zero, suc, ◌-◌, Bool, true, false, not, ◌&&◌, ◌||◌, List, [], ◌∷◌, ◌++◌, Option, none, some,
  ltb, leb, ◌==◌, if◌then◌else◌, length, take, drop, flatten,
}
use wireless_android_auto_do.Text.{
  Bytes, codes, equal, starts_with, is_empty, before, has_byte, trim_front,
}
use wireless_android_auto_do.Stream.{Input, Ssize, count, error, Reading, read, delivered}

-- `struct BluetoothDeviceInfo`
pub record BluetoothDeviceInfo : Type 0 where
  pub object_path : Bytes
  pub address : Bytes
  pub name : Bytes
  pub paired : Bool
  pub trusted : Bool
  pub connected : Bool

-- `struct BuildInfo`
pub record BuildInfo : Type 0 where
  pub version : Bytes
  pub git_sha : Bytes
  pub build_time_utc : Bytes

-- one byte of `jsonEscape`
unfoldable pub escape_byte : ℕ → Bytes
escape_byte c =
    if c == b'\\'
    then b'\\' ∷ b'\\' ∷ []
    else if c == b'"'
    then b'\\' ∷ b'"' ∷ []
    else if c == b'\n'
    then b'\\' ∷ b'n' ∷ []
    else if c == b'\r'
    then b'\\' ∷ b'r' ∷ []
    else if c == b'\t'
    then b'\\' ∷ b't' ∷ []
    else c ∷ []

-- `jsonEscape`
unfoldable pub json_escape : Bytes → Bytes
json_escape [] = []
json_escape (c ∷ s) = escape_byte c ++ json_escape s

-- The loop of `writeAll`, over the return values of its calls of `write` (behind them stands a
-- full write): the result, and the bytes that were taken. It makes one call at least for each
-- value, and one full write ends it.
unfoldable pub write_all : List Ssize → Bytes → Bool × Bytes
write_all replies [] = (true, [])
write_all [] (b ∷ bs) = (true, b ∷ bs)
write_all (error ∷ rs) (b ∷ bs) = (false, [])
write_all (count zero ∷ rs) (b ∷ bs) = (false, [])
write_all (count (suc n) ∷ rs) (b ∷ bs) =
    let (ok, sent) = write_all rs (drop n bs) in (ok, take (suc n) (b ∷ bs) ++ sent)

-- `std::isspace` in the C locale
abbrev pub is_space : ℕ → Bool
is_space c = c == b' ' || (leb 9 c && leb c 13)

-- `is >> tok`: the bytes up to the next space
unfoldable pub word : Bytes → Bytes
word [] = []
word (c ∷ s) = if is_space c then [] else c ∷ word s

-- The loop of `getCmdlineTokenValue`, a step for each byte; the flag says that the byte starts a
-- token.
unfoldable pub token_value : Bytes → Bool → Bytes → Bytes
token_value prefix at_start [] = []
token_value prefix at_start (c ∷ s) =
    let later = token_value prefix (is_space c) s in
    if at_start && not (is_space c) && starts_with prefix (word (c ∷ s))
    then drop (length prefix) (word (c ∷ s))
    else later

-- `readFirstLine`, on the contents of the file; `std::getline` drops the newline
abbrev pub read_first_line : Bytes → Bytes
read_first_line file = before b'\n' file

-- `getCmdlineTokenValue`, on the contents of /proc/cmdline
unfoldable pub get_cmdline_token_value : Bytes → Bytes → Bytes
get_cmdline_token_value cmdline key = token_value (key ++ b'=' ∷ []) true (read_first_line cmdline)

-- What `LIST` asks of the system. `uptime_sec` is the printed form of the number.
pub record System : Type 0 where
  pub uptime_sec : Bytes
  pub cmdline : Bytes
  pub kernel_release : Bytes
  pub build : BuildInfo

-- `slot`
unfoldable pub slot_of : Bytes → Bytes
slot_of root_dev =
    if equal root_dev (codes "/dev/mmcblk0p3")
    then codes "B"
    else if equal root_dev (codes "/dev/mmcblk0p2")
    then codes "A"
    else codes "unknown"

abbrev pub print_bool : Bool → Bytes
print_bool b = if b then codes "true" else codes "false"

-- one turn of the loop over the devices, without the comma
abbrev pub device_pieces : BluetoothDeviceInfo → List Bytes
device_pieces d =
    (codes "{\"objectPath\":\""
      ∷ json_escape d.object_path
      ∷ codes "\",\"address\":\""
      ∷ json_escape d.address
      ∷ codes "\",\"name\":\""
      ∷ json_escape d.name
      ∷ codes "\",\"paired\":"
      ∷ print_bool d.paired
      ∷ codes ",\"trusted\":"
      ∷ print_bool d.trusted
      ∷ codes ",\"connected\":"
      ∷ print_bool d.connected
      ∷ codes "}"
      ∷ [])

unfoldable pub print_device : BluetoothDeviceInfo → Bytes
print_device d = flatten (device_pieces d)

-- the devices behind the first, each behind its comma
unfoldable pub print_more : List BluetoothDeviceInfo → Bytes
print_more [] = []
print_more (d ∷ ds) = b',' ∷ (print_device d ++ print_more ds)

unfoldable pub print_devices : List BluetoothDeviceInfo → Bytes
print_devices [] = []
print_devices (d ∷ ds) = print_device d ++ print_more ds

-- what stands in front of the devices
abbrev pub system_pieces : System → List Bytes
system_pieces sys =
    let root_dev = get_cmdline_token_value sys.cmdline (codes "root") in
    (codes "{\"ok\":true,\"uptimeSec\":"
      ∷ sys.uptime_sec
      ∷ codes ",\"rootDev\":\""
      ∷ json_escape root_dev
      ∷ codes "\",\"slot\":\""
      ∷ json_escape (slot_of root_dev)
      ∷ codes "\",\"kernelRelease\":\""
      ∷ json_escape sys.kernel_release
      ∷ codes "\",\"build\":{\"version\":\""
      ∷ json_escape sys.build.version
      ∷ codes "\",\"gitSha\":\""
      ∷ json_escape sys.build.git_sha
      ∷ codes "\",\"buildTimeUtc\":\""
      ∷ json_escape sys.build.build_time_utc
      ∷ codes "\"},\"devices\":["
      ∷ [])

unfoldable pub print_system : System → Bytes
print_system sys = flatten (system_pieces sys)

-- the answer to `LIST`
unfoldable pub list_response : System → List BluetoothDeviceInfo → Bytes
list_response sys devices = print_system sys ++ (print_devices devices ++ codes "]}\n")

-- What the server asks of the Bluetooth handler.
pub record Handler (S : Type 0) : Type 0 where
  pub list_devices : S → List BluetoothDeviceInfo × S
  pub disconnect_all : S → S
  pub switch_to_device : Bytes → S → Bool × S

abbrev pub switch_prefix : Bytes
switch_prefix = codes "SWITCH "

module _ {S : Type 0} (handler : Handler S) (sys : System) where
  open handler use {list_devices, disconnect_all, switch_to_device}

  -- `handleCommand`
  unfoldable pub handle_command : Bytes → S → Bytes × S
  handle_command line s =
      let (devices, listed) = list_devices s in
      let (ok, switched) = switch_to_device (drop (length switch_prefix) line) s in
      if equal line (codes "LIST")
      then (list_response sys devices, listed)
      else if equal line (codes "DISCONNECT")
      then (codes "{\"ok\":true}\n", disconnect_all s)
      else if starts_with switch_prefix line
      then (codes "{\"ok\":" ++ (print_bool ok ++ codes "}\n"), switched)
      else (codes "{\"ok\":false,\"error\":\"unknown command\"}\n", s)
