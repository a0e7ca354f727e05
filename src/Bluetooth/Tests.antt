-- ===== src/Bluetooth/Tests.antt =====
-- The theorems about bluetoothHandler.cpp at concrete inputs.
use wireless_android_auto_do.Config.{Environment}
use wireless_android_auto_do.Prelude.{
  arith, ◌≡◌, ◌≢◌, refl, sym, ap, inl, inr, Bool, true, false, ◌||◌, List, [], ◌∷◌, ◌++◌, none,
  some, if◌then◌else◌, Bool-cases,
}
use wireless_android_auto_do.Text.{Bytes, codes, equal, has_byte, trim_back}
use wireless_android_auto_do.Text.Laws.{equal_iff}
use wireless_android_auto_do.Control.{BluetoothDeviceInfo, System, print_bool}
use wireless_android_auto_do.Control.Serve.{serve_client}
use wireless_android_auto_do.Stream.{Input, chunk}
use wireless_android_auto_do.Mqtt.{ask, on_message, request, lacks_newline}
use wireless_android_auto_do.Bluetooth.Commands.{bluetooth_handler, switch_hands_over}
use wireless_android_auto_do.Bluetooth.{
  Bus, BluetoothHandler, absent, has_device, stable_sort, insert, read_info, read_infos,
  list_devices, matches, find_device, text_less, switch_to_device,
}
use mathlib.Core.List.{Perm}
use wireless_android_auto_do.Prelude.{map}
use wireless_android_auto_do.Bluetooth.Listing.{AllInOrder, list_devices-AllInOrder}
use wireless_android_auto_do.Bluetooth.Tries.{TriesInOrder, connect_device-TriesInOrder}
use wireless_android_auto_do.Bluetooth.Retry.{device_paths}
use wireless_android_auto_do.Bluetooth.Handover.{
  Documented, IsDevice, HandedOver, switch_to_device-HandedOver,
}

-- A BlueZ whose state is the list of the connected paths, and which knows two devices.
abbrev holds : Bytes → List Bytes → Bool
holds path [] = false
holds path (x ∷ xs) = equal x path || holds path xs

abbrev without : Bytes → List Bytes → List Bytes
without path [] = []
without path (x ∷ xs) = if equal x path then without path xs else x ∷ without path xs

abbrev two_phones : Bus (List Bytes)
two_phones = record {
  managed_objects = λ b.
      (codes "/hci0", codes "org.bluez.Adapter1" ∷ [])
      ∷ (codes "/one", codes "org.bluez.Device1" ∷ [])
      ∷ (codes "/two", codes "org.bluez.Device1" ∷ [])
      ∷ [];
  address = λ path b. some path;
  name = λ path b. if equal path (codes "/two") then some (codes "Pixel") else none;
  paired = λ path b. some true;
  trusted = λ path b. some false;
  connected = λ path b. some (holds path b);
  disconnect = λ path b. (true, without path b);
  connect_profile = λ path uuid b. (true, path ∷ b);
}

holds-without : (path : Bytes) (b : List Bytes) → holds path (without path b) ≡ false
holds-without path [] = refl
holds-without path (x ∷ xs) = elim (Bool-cases (equal x path)) [
  | inl e ↦ rw e (holds-without path xs)
  | inr e ↦ rw (e, e) (holds-without path xs)
]

not_equal : (x y : Bytes) → x ≢ y → equal x y ≡ false
not_equal x y ne = elim (Bool-cases (equal x y)) [
  | inl e ↦ absurd (ne ((equal_iff x y).0 e))
  | inr e ↦ e
]

holds_others :
    (path other : Bytes) (b : List Bytes)
    → other ≢ path
    → holds other (without path b) ≡ holds other b
holds_others path other [] ne = refl
holds_others path other (x ∷ xs) ne = elim (Bool-cases (equal x path)) [
  | inl e ↦
      rw (e, not_equal x other (λ same. ne (cc (same, (equal_iff x path).0 e))))
        (holds_others path other xs ne)
  | inr e ↦ rw e (ap (λ r. equal x other || r) (holds_others path other xs ne))
]

two_phones-Documented : Documented two_phones holds
two_phones-Documented = record {
  property = λ path b. refl;
  disconnected = λ path b h. holds-without path b;
  others = λ path other b ne. holds_others path other b ne;
  connects = λ path uuid b h. rw ((equal_iff path path).1 refl);
  others' = λ path uuid other b ne. rw (not_equal path other (λ same. ne (cc same)));
}

abbrev one_connected : BluetoothHandler (List Bytes)
one_connected = record {
  connection = true;
  adapter = true;
  promise = absent;
  preferred = none;
  bus = codes "/one" ∷ [];
}

abbrev pixel : BluetoothDeviceInfo
pixel = record {
  object_path = codes "/two";
  address = codes "/two";
  name = codes "Pixel";
  paired = true;
  trusted = false;
  connected = false;
}

pixel_found : find_device (codes "pixel") (list_devices two_phones one_connected) ≡ some pixel
unfolding find_device matches list_devices stable_sort insert read_infos read_info has_device equal
    text_less
pixel_found = refl

or_false : (b : Bool) → (b || false) ≡ true → b ≡ true
or_false true h = refl
or_false false h = h

only_one : (path : Bytes) → holds path (codes "/one" ∷ []) ≡ true → path ≡ codes "/one"
only_one path h = sym ((equal_iff (codes "/one") path).0 (or_false (equal (codes "/one") path) h))

known :
    (path : Bytes)
    → holds path (codes "/one" ∷ []) ≡ true
    → IsDevice path (two_phones.managed_objects [])
unfolding has_device equal
known path h = inr (inl (only_one path h, refl))

switch_to_device-HandedOver_example :
    HandedOver two_phones holds two_phones-Documented
      (codes "/two")
      (switch_to_device two_phones false (codes "pixel") one_connected)
switch_to_device-HandedOver_example =
    switch_to_device-HandedOver two_phones holds two_phones-Documented false (codes "pixel")
      one_connected pixel refl (λ e. cc) pixel_found known

abbrev host : System
host = record {
  uptime_sec = codes "7";
  cmdline = [];
  kernel_release = [];
  build = record { version = []; git_sha = []; build_time_utc = [] };
}

abbrev arrivals : Input
arrivals = chunk (codes "SWITCH pi") ∷ chunk (codes "xel\n") ∷ []

switch_hands_over_example :
    (on_message (some (codes "switch " ++ codes "pixel")) ≡ ask (codes "SWITCH " ++ codes "pixel"))
    × ((h : HandedOver two_phones holds two_phones-Documented
          (codes "/two")
          (switch_to_device two_phones false (codes "pixel") one_connected))
        × (serve_client (bluetooth_handler two_phones false) host arrivals [] (some one_connected)
            ≡ some (codes "{\"ok\":" ++ (print_bool h.ok ++ codes "}\n"), some h.after)))
unfolding has_byte trim_back request lacks_newline
switch_hands_over_example =
    switch_hands_over two_phones holds two_phones-Documented false host (codes "pixel") arrivals
      one_connected pixel refl refl (omega arith) refl refl (λ e. cc) pixel_found known

-- the same objects, named in another order
list_devices-AllInOrder_example :
    AllInOrder (list_devices two_phones one_connected)
    × Perm (list_devices two_phones one_connected) (
        map
          (λ p. read_info two_phones p (codes "/one" ∷ []))
          (device_paths (two_phones.managed_objects [])))
list_devices-AllInOrder_example = list_devices-AllInOrder two_phones one_connected refl

abbrev unset : Environment
unset name = none

-- a device comes before the adapter
abbrev objects : List (Bytes × List Bytes)
objects =
    (codes "/hci0/dev", codes "org.bluez.Device1" ∷ [])
    ∷ (codes "/hci0", codes "org.bluez.Adapter1" ∷ [])
    ∷ []

connect_device-TriesInOrder_example :
    TriesInOrder two_phones holds two_phones-Documented
      (record one_connected { preferred = some (codes "/two") })
connect_device-TriesInOrder_example =
    connect_device-TriesInOrder two_phones holds two_phones-Documented
      (record one_connected { preferred = some (codes "/two") })
