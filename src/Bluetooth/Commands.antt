-- ===== src/Bluetooth/Commands.antt =====
-- The Bluetooth handler behind the interface of the control socket, and a command from MQTT to
-- the devices.
use wireless_android_auto_do.Prelude.{
  ◌≤◌, ◌≡◌, ◌≢◌, ap, ◌∙◌, Bool, true, false, List, [], ◌++◌, Option, none, some, length,
}
use wireless_android_auto_do.Text.{Bytes, codes, has_byte}
use wireless_android_auto_do.Stream.{Input, delivered}
use wireless_android_auto_do.Control.{BluetoothDeviceInfo, Handler, System, print_bool}
use wireless_android_auto_do.Control.Serve.{serve_client}
use wireless_android_auto_do.Mqtt.{request, on_message, ask}
use wireless_android_auto_do.Mqtt.Commands.{EndsClean}
use wireless_android_auto_do.Mqtt.EndToEnd.{switch_reaches_handler}
use wireless_android_auto_do.Bluetooth.{
  Bus, BluetoothHandler, ready, find_device, list_devices, switch_to_device,
}
use wireless_android_auto_do.Bluetooth.Handover.{
  Documented, IsDevice, HandedOver, switch_to_device-HandedOver,
}
use wireless_android_auto_do.Bluetooth.Retry.{disconnect_all}

module _ {B : Type 0} where
  -- A state `none` is the daemon that an exception has ended; no answer is sent then.
  abbrev pub running : Option (Bool × BluetoothHandler B) → Bool × Option (BluetoothHandler B)
  running none = (false, none)
  running (some (ok, s)) = (ok, some s)

  abbrev pub listed_devices :
      Bus B → Option (BluetoothHandler B) → List BluetoothDeviceInfo × Option (BluetoothHandler B)
  listed_devices bluez none = ([], none)
  listed_devices bluez (some s) = (list_devices bluez s, some s)

  abbrev pub disconnected_all : Bus B → Option (BluetoothHandler B) → Option (BluetoothHandler B)
  disconnected_all bluez none = none
  disconnected_all bluez (some s) = disconnect_all bluez s

  abbrev pub switched :
      Bus B → Bool → Bytes → Option (BluetoothHandler B) → Bool × Option (BluetoothHandler B)
  switched bluez is_dongle_mode selector none = (false, none)
  switched bluez is_dongle_mode selector (some s) =
      running (switch_to_device bluez is_dongle_mode selector s)

-- `BluetoothHandler::instance()` as `handleCommand` uses it
abbrev pub bluetooth_handler : {B : Type 0} → Bus B → Bool → Handler (Option (BluetoothHandler B))
bluetooth_handler bluez is_dongle_mode = record {
  list_devices = listed_devices bluez;
  disconnect_all = disconnected_all bluez;
  switch_to_device = switched bluez is_dongle_mode;
}

module _ {B : Type 0} (bluez : Bus B) (is_connected : Bytes → B → Bool)
    (doc : Documented bluez is_connected) where
  -- The MQTT message `switch`, a space and a selector hands the phone's connection over: the
  -- bridge sends one request, and the server that reads it from the socket, however it is cut
  -- into arrivals, answers with the result of `switchToDevice`, which made the first listed
  -- device that matches the selector the preferred one, left no other device connected, and
  -- connected that device if the result is true. This holds on a BlueZ that works as documented
  -- and whose connected devices are among its objects, with the connection to the bus there and
  -- the promise of the retry thread without its value, for a selector of at most 4089 bytes with
  -- no newline in it and no end of line behind it.
  pub switch_hands_over :
      (is_dongle_mode : Bool) (sys : System) (selector : Bytes) (input : Input)
      (s : BluetoothHandler B) (d : BluetoothDeviceInfo)
      → EndsClean selector
      → has_byte b'\n' selector ≡ false
      → length selector ≤ 4089
      → delivered input ≡ request (codes "SWITCH " ++ selector)
      → s.connection ≡ true
      → s.promise ≢ ready
      → find_device selector (list_devices bluez s) ≡ some d
      → ((path : Bytes)
          → is_connected path s.bus ≡ true
          → IsDevice path (bluez.managed_objects s.bus))
      → (on_message (some (codes "switch " ++ selector)) ≡ ask (codes "SWITCH " ++ selector))
        × ((h : HandedOver bluez is_connected doc d.object_path
              (switch_to_device bluez is_dongle_mode selector s))
            × (serve_client (bluetooth_handler bluez is_dongle_mode) sys input [] (some s)
                ≡ some (codes "{\"ok\":" ++ (print_bool h.ok ++ codes "}\n"), some h.after)))
  switch_hands_over dm sys selector input s d clean one_line short sent up idle found known =
      let reached =
        switch_reaches_handler (bluetooth_handler bluez dm) sys selector input (some s) clean
          one_line short sent in
      let h =
        switch_to_device-HandedOver bluez is_connected doc dm selector s d up idle found known in
      (
        reached.0,
        (
          h,
          reached.1
              ∙ ap
                  (λ r.
                    some (
                      codes "{\"ok\":" ++ (print_bool (running r).0 ++ codes "}\n"),
                      (running r).1,
                    ))
                  h.returned,
        ),
      )
