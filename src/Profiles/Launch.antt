-- ===== src/Profiles/Launch.antt =====
-- `AAWirelessLauncher::launch`: the handshake.
pub mod Handshake
pub mod Connection
pub mod Octets
use wireless_android_auto_do.Prelude.{
  ℕ, zero, suc, ◌-◌, Bool, true, false, List, [], ◌∷◌, ◌++◌, Option, none, some, length,
  if◌then◌else◌,
}
use wireless_android_auto_do.Text.{Bytes}
use wireless_android_auto_do.Stream.{Input, delivered}
use wireless_android_auto_do.Config.{WifiInfo}
use wireless_android_auto_do.Profiles.{
  MessageId, invalid, wifi_start_request, wifi_info_request, wifi_info_response,
  wifi_start_response, other, Outgoing, send_message, read_message,
}

-- The generated protobuf code: the serialised bodies of the two messages.
pub record Serializer : Type 0 where
  pub start_request : WifiInfo → Bytes
  pub info_response : WifiInfo → Bytes

-- How the launch ended: what it handed to `write`, whether the phone answered with
-- `WifiStartResponse`, and the rest of the stream.
pub record Launch : Type 0 where
  pub sent : List Outgoing
  pub completed : Bool
  pub rest : Input

-- The tests on `postInfoId`: the results for `Invalid`, for `WifiStartResponse` and for all else.
abbrev pub on_message {ℓ} : {A : Type ℓ} → MessageId → A → A → A → A
on_message invalid a b c = a
on_message wifi_start_response a b c = b
on_message _ a b c = c

-- The `while (true)` at the end of `launch`. `none` means that the fuel ran out.
unfoldable pub await_start_response : ℕ → Input → Option (Bool × Input)
await_start_response zero s = none
await_start_response (suc fuel) s =
    let (post_info_id, s') = read_message s in
    let more = await_start_response fuel s' in
    on_message post_info_id (some (false, s')) (some (true, s')) more

-- `messageId == MessageId::WifiInfoRequest`
abbrev pub is_info_request : MessageId → Bool
is_info_request wifi_info_request = true
is_info_request _ = false

abbrev pub finish : List Outgoing → Option (Bool × Input) → Option Launch
finish sent none = none
finish sent (some (ok, s)) = some (record { sent = sent; completed = ok; rest = s })

-- Each message takes at least four bytes, so the loop needs no more rounds than there are bytes,
-- and one.
unfoldable pub launch : Serializer → WifiInfo → Input → Option Launch
launch ser wifi_info s =
    let request = send_message wifi_start_request (ser.start_request wifi_info) in
    let response = send_message wifi_info_response (ser.info_response wifi_info) in
    let (message_id, s') = read_message s in
    let waited =
      finish (request ∷ response ∷ []) (await_start_response (suc (length (delivered s'))) s') in
    if is_info_request message_id
    then waited
    else some (record { sent = request ∷ []; completed = false; rest = s' })

-- The thread of `NewConnection`: the launch, and then `close` of the copy; the open descriptors are
-- counted.
abbrev pub close_copy : ℕ → Option Launch → Option (Option Launch × ℕ)
close_copy n none = none
close_copy n (some r) = some (some r, n - 1)

-- `AAWirelessProfile::NewConnection`, with the result of `dup`, up to the end of its thread:
-- the launch, if there is one, and the open descriptors.
unfoldable pub new_connection :
    Serializer → WifiInfo → Bool → Input → ℕ → Option (Option Launch × ℕ)
new_connection ser wifi_info dup_ok s n =
    let launched = close_copy (suc n) (launch ser wifi_info s) in
    if dup_ok then launched else some (none, n)
