-- ===== src/Profiles.antt =====
-- bluetoothProfiles.cpp: the handshake over RFCOMM that tells the phone which Wi-Fi to join.
-- What only logs is left out, and so is the class boilerplate of the D-Bus objects.
pub mod ReadFully
pub mod SameReads
mod Tests
pub mod Messages
pub mod Launch
use wireless_android_auto_do.Prelude.{
  ℕ, zero, suc, ◌+◌, ◌-◌, ◌*◌, ◌/◌, ◌%◌, Bool, true, false, List, [], ◌∷◌, ◌++◌, Option, none, some,
  ltb, ◌==◌, if◌then◌else◌, length,
}
use wireless_android_auto_do.Text.{Bytes}
use wireless_android_auto_do.Stream.{Input, Ssize, count, error, Reading, read, delivered}
use wireless_android_auto_do.Proxy.{byte_at}

-- `readFully` of this file. `buffer` holds the `got` bytes; each round but the last takes at least
-- one byte, so `n` rounds are enough.
unfoldable pub read_fully_loop : ℕ → ℕ → Bytes → Input → Reading
read_fully_loop n zero buffer s = record { len = count n; stored = buffer; rest = s }
read_fully_loop n (suc fuel) buffer s =
    let r = read (n - length buffer) s in
    let more = read_fully_loop n fuel (buffer ++ r.stored) r.rest in
    if ltb (length buffer) n
    then elim r.len [
      | error ↦ record { len = error; stored = buffer; rest = r.rest }
      | count zero ↦ record { len = count (length buffer); stored = buffer; rest = r.rest }
      | count (suc k) ↦ more
    ]
    else record { len = count n; stored = buffer; rest = s }

unfoldable pub read_fully : ℕ → Input → Reading
read_fully n s = read_fully_loop n n [] s

-- `enum class MessageId`; a cast may give it any value of its underlying type.
pub data MessageId : Type 0 where
  invalid : MessageId
  wifi_start_request : MessageId
  wifi_info_request : MessageId
  wifi_info_response : MessageId
  wifi_version_request : MessageId
  wifi_version_response : MessageId
  wifi_connect_status : MessageId
  wifi_start_response : MessageId
  other : ℕ → MessageId

-- `static_cast<MessageId>(n)` of a `uint16_t`
unfoldable pub to_message_id : ℕ → MessageId
to_message_id n =
    if n == 1
    then wifi_start_request
    else if n == 2
    then wifi_info_request
    else if n == 3
    then wifi_info_response
    else if n == 4
    then wifi_version_request
    else if n == 5
    then wifi_version_response
    else if n == 6
    then wifi_connect_status
    else if n == 7
    then wifi_start_response
    else other n

-- `static_cast<uint16_t>(messageId)`
unfoldable pub id_number : MessageId → ℕ
id_number invalid = 65535
id_number wifi_start_request = 1
id_number wifi_info_request = 2
id_number wifi_info_response = 3
id_number wifi_version_request = 4
id_number wifi_version_response = 5
id_number wifi_connect_status = 6
id_number wifi_start_response = 7
id_number (other n) = n % 65536

-- the two bytes of `htons(n)`, and `ntohs` of two bytes
abbrev pub network_short : ℕ → Bytes
network_short n = (n / 256) ∷ (n % 256) ∷ []

abbrev pub host_short : Bytes → ℕ
host_short wire = byte_at 0 wire * 256 + byte_at 1 wire

-- What `SendMessage` hands to `write`: the bytes of the buffer; or, where it writes behind the end
-- of the buffer, nothing that is defined; or a header with a body that nothing was written to, of
-- as many unset bytes as the header says.
pub data Outgoing : Type 0 where
  frame : Bytes → Outgoing
  overrun : Outgoing
  unset : Outgoing

-- `SendMessage`, for a message whose serialisation is `body`. `SerializeToArray` refuses an array
-- that is shorter than the message.
unfoldable pub send_message : MessageId → Bytes → Outgoing
send_message message_id body =
    let message_size = length body % 65536 in
    let buffer_length = (message_size + 4) % 65536 in
    if ltb buffer_length (message_size + 4)
    then overrun
    else if ltb message_size (length body)
    then unset
    else frame (network_short message_size ++ (network_short (id_number message_id) ++ body))

-- `readBytes == n`
abbrev pub is_count : ℕ → Ssize → Bool
is_count n (count k) = k == n
is_count n error = false

-- `ReadMessage`: the id that it returns, and what is left of the stream
unfoldable pub read_message : Input → MessageId × Input
read_message s =
    let first = read_fully 2 s in
    let second = read_fully 2 first.rest in
    let size = host_short first.stored in
    let message_id = to_message_id (host_short second.stored) in
    let body = read_fully size second.rest in
    if is_count 2 first.len
    then if is_count 2 second.len
      then if ltb 0 size
        then if is_count size body.len then (message_id, body.rest) else (invalid, body.rest)
        else (message_id, second.rest)
      else (invalid, second.rest)
    else (invalid, first.rest)
