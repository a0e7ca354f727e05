-- ===== src/Mqtt.antt =====
-- mqttBridge.cpp: the bridge from MQTT to the control socket. The MQTT library, the sockets and
-- the shell are parameters.
pub mod Commands
pub mod EndToEnd
pub mod Shell
mod Tests
pub mod Settings
use wireless_android_auto_do.Prelude.{
  ℕ, zero, suc, Bool, true, false, not, ◌&&◌, ◌||◌, List, [], ◌∷◌, ◌++◌, Option, none, some, ltb,
  ◌==◌, if◌then◌else◌, length, drop,
}
use wireless_android_auto_do.Text.{
  Bytes, codes, equal, starts_with, is_empty, before, has_byte, trim_front, trim_back, contains,
  find, find_byte,
}
use wireless_android_auto_do.Stream.{Input, Ssize, count, error, Reading, read, delivered}
use wireless_android_auto_do.Proxy.{is_positive}

abbrev pub is_eol : ℕ → Bool
is_eol c = c == b'\n' || c == b'\r'

abbrev pub is_blank : ℕ → Bool
is_blank c = c == b' ' || c == b'\t'

-- `req.empty() || req.back() != '\n'`
unfoldable pub lacks_newline : Bytes → Bool
lacks_newline [] = true
lacks_newline (c ∷ []) = not (c == b'\n')
lacks_newline (c ∷ d ∷ s) = lacks_newline (d ∷ s)

-- the bytes of a request
unfoldable pub request : Bytes → Bytes
request line = if lacks_newline line then line ++ b'\n' ∷ [] else line

-- The loop that reads the answer; `none` means that the fuel ran out. Each round but the last
-- takes a byte at least.
unfoldable pub read_answer_loop : ℕ → Bytes → Input → Option Bytes
read_answer_loop zero out s = none
read_answer_loop (suc fuel) out s =
    let r = read 1024 s in
    let out' = out ++ r.stored in
    let more = read_answer_loop fuel out' r.rest in
    if is_positive r.len
    then if has_byte b'\n' out'
      then some out'
      else if ltb 65536 (length out')
      then some out'
      else more
    else some out

-- What the control socket did with a request: the results of `socket`, `connect` and `write`, and
-- what it delivers.
pub record Connection : Type 0 where
  pub socket_ok : Bool
  pub connect_ok : Bool
  pub write_ok : Bool
  pub input : Input

-- `unixSockRequest`: the answer, if there was one; `none` inside means that the fuel ran out
unfoldable pub unix_sock_request : Connection → Option (Option Bytes)
unix_sock_request c =
    if c.socket_ok && (c.connect_ok && c.write_ok)
    then elim (read_answer_loop (suc (length (delivered c.input))) [] c.input) [
      | none ↦ none
      | some out ↦ some (if is_empty out then none else some out)
    ]
    else some none

-- `publishStatus`: the payload that is published
unfoldable pub status_payload : Option Bytes → Bytes
status_payload (some list_resp) = list_resp
status_payload none = codes "{\"ok\":false,\"error\":\"control socket unavailable\"}\n"

published : Option (Option Bytes) → Option Bytes
published none = none
published (some list_resp) = some (status_payload list_resp)

-- `publishStatus`, over what becomes of its `LIST` request: the payload that is published
unfoldable pub publish_status : Connection → Option Bytes
unfolding published
publish_status c = published (unix_sock_request c)

-- The JSON branches of `parseCommandLine` from `s.find(key)` on: the text behind the key.
unfoldable pub quoted_value : Bytes → Option Bytes
quoted_value [] = none
quoted_value (c ∷ s) =
    let sel = before b'"' s in
    if not (c == b'"') then none else if is_empty sel then none else some sel

-- `pos = s.find(':', pos)`, `pos++`, and the blanks
unfoldable pub value_at : Option Bytes → Option Bytes
value_at none = none
value_at (some []) = none
value_at (some (colon ∷ s)) = quoted_value (trim_front is_blank s)

unfoldable pub value_behind : Option Bytes → Option Bytes
value_behind none = none
value_behind (some s) = value_at (find_byte b':' s)

unfoldable pub json_value : Bytes → Bytes → Option Bytes
json_value key s = value_behind (find key s)

unfoldable pub with_prefix : Bytes → Option Bytes → Option Bytes
with_prefix p none = none
with_prefix p (some v) = some (p ++ v)

-- the trims at the head of `parseCommandLine`
unfoldable pub strip : Bytes → Bytes
strip payload = trim_front is_blank (trim_back is_eol payload)

-- the tests of `parseCommandLine`, on the stripped text
unfoldable pub parse_stripped : Bytes → Option Bytes
parse_stripped s =
    let has_cmd = contains (codes "\"cmd\"") s in
    if equal s (codes "disconnect")
    then some (codes "DISCONNECT")
    else if starts_with (codes "switch ") s
    then some (codes "SWITCH " ++ drop 7 s)
    else if starts_with (codes "ota ") s
    then some (codes "OTA " ++ drop 4 s)
    else if has_cmd && contains (codes "disconnect") s
    then some (codes "DISCONNECT")
    else if has_cmd && contains (codes "switch") s
    then with_prefix (codes "SWITCH ") (json_value (codes "\"selector\"") s)
    else if has_cmd && contains (codes "ota") s
    then with_prefix (codes "OTA ") (json_value (codes "\"url\"") s)
    else none

-- `parseCommandLine`
unfoldable pub parse_command_line : Bytes → Option Bytes
parse_command_line payload = parse_stripped (strip payload)

-- What `onMessage` does: nothing, a command for the shell, or a request to the control socket.
pub data Action : Type 0 where
  ignore : Action
  shell : Bytes → Action
  ask : Bytes → Action

-- The command line that `std::system` is given: `command.c_str()` ends at the first NUL.
unfoldable pub ota_command : Bytes → Bytes
ota_command url = before 0 (codes "/usr/bin/aawg-ota-apply '" ++ (url ++ codes "'"))

unfoldable pub dispatch : Option Bytes → Action
dispatch none = ignore
dispatch (some c) = if starts_with (codes "OTA ") c then shell (ota_command (drop 4 c)) else ask c

-- `onMessage`; `none` is a message with no payload
unfoldable pub on_message : Option Bytes → Action
on_message none = ignore
on_message (some payload) =
    if is_empty payload then ignore else dispatch (parse_command_line payload)
