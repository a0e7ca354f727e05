-- ===== src/Profiles/Tests.antt =====
-- The theorems about bluetoothProfiles.cpp at concrete inputs.
use wireless_android_auto_do.Prelude.{none, if◌then◌else◌}
use wireless_android_auto_do.Proxy
use wireless_android_auto_do.Profiles.SameReads.{Same, read_fully-Same}
use wireless_android_auto_do.Profiles.Launch.{new_connection}
use wireless_android_auto_do.Profiles.Launch.Connection.{new_connection-total}
use wireless_android_auto_do.Prelude.{
  pos, ◌≡◌, refl, ◌⊎◌, true, false, List, [], ◌∷◌, ◌++◌, some, arith,
}
use wireless_android_auto_do.Text.{Bytes, codes}
use wireless_android_auto_do.Stream.{Input, chunk, read}
use wireless_android_auto_do.Config.{WifiInfo, wpa2_personal, dynamic_point}
use wireless_android_auto_do.Profiles.{
  MessageId, wifi_info_request, wifi_connect_status, wifi_version_request, wifi_start_response,
  send_message, read_message, read_fully, read_fully_loop, to_message_id, id_number,
}
use wireless_android_auto_do.Profiles.Messages.{
  encode, Received, Framed, read_message-send_message, read_message-Framed,
}
use wireless_android_auto_do.Profiles.Launch.{Serializer, Launch, launch, await_start_response}
use wireless_android_auto_do.Profiles.Launch.Handshake.{
  request_to, both_to, encode_all, Completed, launch-Completed, launch_withholds,
}

abbrev wifi : WifiInfo
wifi = record {
  ssid = codes "car";
  key = codes "secret";
  bssid = codes "00:11";
  security_mode = wpa2_personal;
  access_point_type = dynamic_point;
  ip_address = codes "10.0.0.1";
  port = pos 5288;
}

abbrev plain : Serializer
plain = record { start_request = λ w. w.ip_address; info_response = λ w. w.ssid ++ w.key }

-- The phone asks for the Wi-Fi, reports twice, and starts; one arrival to a byte at first.
abbrev before_start : List (MessageId × Bytes)
before_start = (wifi_connect_status, 8 ∷ 1 ∷ []) ∷ (wifi_version_request, []) ∷ []

abbrev talk : Input
talk =
    chunk (0 ∷ [])
    ∷ chunk (0 ∷ 0 ∷ [])
    ∷ chunk (2 ∷ encode_all before_start)
    ∷ chunk (encode wifi_start_response (1 ∷ []) ++ 5 ∷ [])
    ∷ []

talk_sent :
    launch plain wifi talk
    ≡ some (record { sent = both_to plain wifi; completed = true; rest = chunk (5 ∷ []) ∷ [] })
unfolding launch await_start_response read_message read_fully read_fully_loop read to_message_id
    id_number
talk_sent = refl

read_message-send_message_example :
    Received wifi_connect_status
      (5 ∷ [])
      (read_message (chunk (encode wifi_connect_status (8 ∷ 1 ∷ []) ++ 5 ∷ []) ∷ []))
unfolding send_message
read_message-send_message_example =
    read_message-send_message wifi_connect_status (8 ∷ 1 ∷ [])
      (encode wifi_connect_status (8 ∷ 1 ∷ []))
      (chunk (encode wifi_connect_status (8 ∷ 1 ∷ []) ++ 5 ∷ []) ∷ []) (5 ∷ []) tt (omega arith)
      refl refl

read_message-Framed_example : Framed talk (read_message talk)
unfolding read_message read_fully read_fully_loop read to_message_id id_number
read_message-Framed_example = read_message-Framed talk (λ e. cc)

launch-Completed_example : Completed (both_to plain wifi) (5 ∷ []) (launch plain wifi talk)
unfolding id_number
launch-Completed_example =
    launch-Completed plain wifi before_start [] (1 ∷ []) (5 ∷ []) talk (tt, tt, (tt, tt, tt)) refl

launch_withholds_example :
    let r : Launch = record { sent = request_to plain wifi ∷ []; completed = false; rest = [] } in
    (r.sent ≡ request_to plain wifi ∷ [])
    ⊎ ((r.sent ≡ both_to plain wifi)
        × ((read_message []).0 ≡ wifi_info_request)
        × Framed [] (read_message []))
unfolding launch read_message read_fully read_fully_loop read
launch_withholds_example =
    launch_withholds plain wifi []
      (record { sent = request_to plain wifi ∷ []; completed = false; rest = [] }) refl

new_connection-total_example :
    (r : Launch) × (launch plain wifi talk ≡ some r)
    × (new_connection plain wifi true talk 7 ≡ some (if true then some r else none, 7))
new_connection-total_example = new_connection-total plain wifi true talk 7

read_fully-Same_example : Same (Proxy.read_fully 40 talk) (read_fully 40 talk)
read_fully-Same_example = read_fully-Same 40 talk
