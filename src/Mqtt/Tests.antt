-- ===== src/Mqtt/Tests.antt =====
-- The theorems about mqttBridge.cpp at concrete inputs.
use wireless_android_auto_do.Prelude.{
  none, pos, if◌then◌else◌, ◌≡◌, refl, arith, true, [], ◌∷◌, ◌++◌, some,
}
use wireless_android_auto_do.Text.{Bytes, codes, has_byte, equal, trim_back}
use wireless_android_auto_do.Stream.{Input, chunk}
use wireless_android_auto_do.Control.{System, Handler}
use wireless_android_auto_do.Mqtt.{Connection, publish_status}
use wireless_android_auto_do.Config.{Environment}
use wireless_android_auto_do.Mqtt.Settings.{main, connected, getenv_str, getenv_int}
use wireless_android_auto_do.Mqtt.EndToEnd.{publish_status-IsLine}
use wireless_android_auto_do.Mqtt.Shell.{ReadAs, on_message-ReadAs}

abbrev dongle : System
dongle = record {
  uptime_sec = codes "1";
  cmdline = [];
  kernel_release = [];
  build = record { version = []; git_sha = []; build_time_utc = [] };
}

abbrev one_phone : Handler Bytes
one_phone = record {
  list_devices = λ s. ([], s);
  disconnect_all = λ s. [];
  switch_to_device = λ sel s. (equal sel (codes "Pixel 8"), sel);
}

abbrev cut : Input
cut = chunk (codes "SWITCH Pi") ∷ chunk (codes "xel 8\n") ∷ []

abbrev answer : Bytes
answer = codes "{\"ok\":true}\n"

abbrev up : Connection
up = record {
  socket_ok = true;
  connect_ok = true;
  write_ok = true;
  input = chunk (codes "{\"ok\":") ∷ chunk (codes "true}\n") ∷ [];
}

publish_status-IsLine_example : publish_status up ≡ some answer
unfolding has_byte
publish_status-IsLine_example =
    publish_status-IsLine answer up refl refl refl (codes "{\"ok\":true}", refl, refl) (omega arith)
      refl

on_message-ReadAs_example :
    ReadAs (codes "ota u") (some (codes "u", []))
    × ReadAs (codes "ota u';reboot;'") (some (codes "u", codes ";reboot;''"))
    × ReadAs (codes "ota u" ++ 0 ∷ codes ";reboot;'") none
unfolding has_byte trim_back
on_message-ReadAs_example =
    on_message-ReadAs (codes "u") (codes ";reboot;'") refl refl refl refl refl

abbrev broker_only : Environment
broker_only name = if equal name (codes "AAWG_MQTT_HOST") then some (codes "broker") else none

broker_runs :
    main broker_only true true
    ≡ connected (codes "broker") (pos 1883) (codes "aawgd") none (record {
      topic_prefix = codes "aawgd";
      topic_cmd = codes "aawgd/cmd";
      topic_status = codes "aawgd/status";
      status_interval_sec = pos 5;
    })
unfolding main getenv_str getenv_int equal
broker_runs = refl
