-- ===== src/Profiles/Launch/Octets.antt =====
-- What the handshake writes is made of bytes.
use mathlib.Core.Path.{subst}
use wireless_android_auto_do.Profiles.Launch.Handshake.{launch_withholds}
use wireless_android_auto_do.Prelude.{
  sym, ℕ, ◌/◌, ◌%◌, ◌<◌, ◌≡◌, arith, inl, inr, Bool, true, false, List, [], ◌∷◌, some, length,
  if◌then◌else◌,
}
use wireless_android_auto_do.Text.{Bytes}
use wireless_android_auto_do.Stream.{Input}
use wireless_android_auto_do.Config.{WifiInfo}
use wireless_android_auto_do.Profiles.{
  MessageId, invalid, wifi_start_request, wifi_info_request, wifi_info_response,
  wifi_version_request, wifi_version_response, wifi_connect_status, wifi_start_response, other,
  id_number, Outgoing, frame, overrun, unset, send_message,
}
use wireless_android_auto_do.Profiles.Launch.{Serializer, Launch, launch}

-- Each number is that of a byte.
abbrev IsOctets : Bytes → Type 0
IsOctets [] = Unit
IsOctets (b ∷ bs) = (b < 256) × IsOctets bs

abbrev IsSendable : Outgoing → Type 0
IsSendable (frame bs) = IsOctets bs
IsSendable _ = Unit

abbrev AllSendable : List Outgoing → Type 0
AllSendable [] = Unit
AllSendable (m ∷ ms) = IsSendable m × AllSendable ms

high : (n : ℕ) → (n % 65536) / 256 < 256
high n = omega arith

id_number-high : (id : MessageId) → id_number id / 256 < 256
unfolding id_number
id_number-high (other n) = high n
id_number-high invalid = omega arith
id_number-high wifi_start_request = omega arith
id_number-high wifi_info_request = omega arith
id_number-high wifi_info_response = omega arith
id_number-high wifi_version_request = omega arith
id_number-high wifi_version_response = omega arith
id_number-high wifi_connect_status = omega arith
id_number-high wifi_start_response = omega arith

low : (n : ℕ) → n % 256 < 256
low n = omega arith

chosen :
    (too_long too_short : Bool) (bs : Bytes)
    → IsOctets bs
    → IsSendable (if too_long then overrun else if too_short then unset else frame bs)
chosen true too_short bs h = tt
chosen false true bs h = tt
chosen false false bs h = h

send_message-IsSendable :
    (id : MessageId) (body : Bytes) → IsOctets body → IsSendable (send_message id body)
unfolding send_message
send_message-IsSendable id body h =
    chosen _ _ _ (
      high (length body),
      (low (length body % 65536), (id_number-high id, (low (id_number id), h))),
    )

-- Where the generated code serialises to bytes, every frame that the launch hands to `write` is
-- made of bytes, its two lengths and the ids included, whatever the phone sends.
launch-AllSendable :
    (ser : Serializer) (wifi_info : WifiInfo) (s : Input) (r : Launch)
    → IsOctets (ser.start_request wifi_info)
    → IsOctets (ser.info_response wifi_info)
    → launch ser wifi_info s ≡ some r
    → AllSendable r.sent
launch-AllSendable ser wifi_info s r a b e =
    let request = send_message-IsSendable wifi_start_request (ser.start_request wifi_info) a in
    elim (launch_withholds ser wifi_info s r e) [
      | inl one ↦ subst AllSendable (sym one) (request, tt)
      | inr (both, _, _) ↦ subst AllSendable (sym both) (
        request,
        (send_message-IsSendable wifi_info_response (ser.info_response wifi_info) b, tt),
      )
    ]
