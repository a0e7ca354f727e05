-- ===== src/Bluetooth.antt =====
-- bluetoothHandler.cpp: the devices, the switch between them and the retried connection. BlueZ
-- and its D-Bus objects are a parameter, and `GetManagedObjects` is taken to succeed.
pub mod Sort
pub mod Order
pub mod Sorted
pub mod Listing
pub mod Handover
pub mod Adapter
pub mod Retry
pub mod Tries
pub mod Commands
mod Tests
use wireless_android_auto_do.Prelude.{
  ℕ, ◌+◌, Bool, true, false, not, ◌&&◌, ◌||◌, List, [], ◌∷◌, ◌++◌, Option, none, some,
  if◌then◌else◌, leb, ltb, ◌==◌, map,
}
use wireless_android_auto_do.Text.{Bytes, codes, equal, is_empty}
use wireless_android_auto_do.Control.{BluetoothDeviceInfo}

-- What the handler asks of BlueZ, on a state of BlueZ. An answer `none` or `false` is a
-- `DBus::Error`.
pub record Bus (B : Type 0) : Type 0 where
  -- the paths in the order of the map, with the interfaces of each
  pub managed_objects : B → List (Bytes × List Bytes)
  pub address : Bytes → B → Option Bytes
  pub name : Bytes → B → Option Bytes
  pub paired : Bytes → B → Option Bool
  pub trusted : Bytes → B → Option Bool
  pub connected : Bytes → B → Option Bool
  pub disconnect : Bytes → B → Bool × B
  pub connect_profile : Bytes → Bytes → B → Bool × B

-- `connectWithRetryPromise`: null, without its value, or with it
pub data Promise : Type 0 where
  absent pending ready : Promise

pub record BluetoothHandler (B : Type 0) : Type 0 where
  pub connection : Bool
  pub adapter : Bool
  pub promise : Promise
  pub preferred : Option Bytes
  pub bus : B

abbrev pub hsp_ag_uuid : Bytes
hsp_ag_uuid = codes "00001112-0000-1000-8000-00805f9b34fb"

-- `interfaces.find(INTERFACE_BLUEZ_DEVICE) != interfaces.end()`
unfoldable pub has_device : List Bytes → Bool
has_device [] = false
has_device (i ∷ is) = equal i (codes "org.bluez.Device1") || has_device is

-- `std::stable_sort`, with the comparison of the caller
module _ {A : Type 0} (less : A → A → Bool) where
  unfoldable pub insert : A → List A → List A
  insert x [] = x ∷ []
  insert x (y ∷ ys) = let rest = insert x ys in if less y x then y ∷ rest else x ∷ y ∷ ys

  unfoldable pub stable_sort : List A → List A
  stable_sort [] = []
  stable_sort (x ∷ xs) = insert x (stable_sort xs)

-- the comparison of `connectDevice`
abbrev pub more_preferred : Bytes → Bytes → Bytes → Bool
more_preferred preferred a b = equal a preferred && not (equal b preferred)

-- `operator<` of two strings
unfoldable pub text_less : Bytes → Bytes → Bool
text_less s [] = false
text_less [] (d ∷ t) = true
text_less (c ∷ s) (d ∷ t) = let rest = text_less s t in if ltb c d then true else (c == d && rest)

-- the comparison of `listDevices`
abbrev pub listed_before : BluetoothDeviceInfo → BluetoothDeviceInfo → Bool
listed_before a b =
    if a.paired && not b.paired
    then true
    else if b.paired && not a.paired
    then false
    else if a.connected && not b.connected
    then true
    else if b.connected && not a.connected
    then false
    else text_less a.object_path b.object_path

-- `::tolower` in the C locale
abbrev pub lower : ℕ → ℕ
lower c = if leb 65 c && leb c 90 then c + 32 else c

-- `matches` of `switchToDevice`
unfoldable pub matches : Bytes → BluetoothDeviceInfo → Bool
matches selector d =
    if is_empty selector
    then false
    else if equal d.object_path selector
    then true
    else if not (is_empty d.address) && equal d.address selector
    then true
    else if not (is_empty d.name) && equal d.name selector
    then true
    else not (is_empty (map lower d.name)) && equal (map lower d.name) (map lower selector)

-- `std::find_if`
unfoldable pub find_device : Bytes → List BluetoothDeviceInfo → Option BluetoothDeviceInfo
find_device selector [] = none
find_device selector (d ∷ ds) =
    let later = find_device selector ds in if matches selector d then some d else later

-- `stopConnectWithRetry`, on the promise: `none` is the `std::future_error` of a second value.
unfoldable pub set_value : Promise → Option Promise
set_value absent = some absent
set_value pending = some ready
set_value ready = none

module _ {B : Type 0} (bluez : Bus B) where
  -- The reads of `listDevices`, in their order: the first that fails ends them, and what was read
  -- before it stays.
  unfoldable pub read_info : Bytes → B → BluetoothDeviceInfo
  read_info path b =
      let blank : BluetoothDeviceInfo = record {
        object_path = path;
        address = [];
        name = [];
        paired = false;
        trusted = false;
        connected = false;
      } in
      elim (bluez.address path b) [
        | none ↦ blank
        | some address ↦ elim (bluez.name path b) [
          | none ↦ record blank { address = address }
          | some name ↦ elim (bluez.paired path b) [
            | none ↦ record blank { address = address; name = name }
            | some paired ↦ elim (bluez.trusted path b) [
              | none ↦ record blank { address = address; name = name; paired = paired }
              | some trusted ↦ elim (bluez.connected path b) [
                | none ↦ record blank {
                  address = address;
                  name = name;
                  paired = paired;
                  trusted = trusted;
                }
                | some connected ↦ record blank {
                  address = address;
                  name = name;
                  paired = paired;
                  trusted = trusted;
                  connected = connected;
                }
              ]
            ]
          ]
        ]
      ]

  unfoldable pub read_infos : List (Bytes × List Bytes) → B → List BluetoothDeviceInfo
  read_infos [] b = []
  read_infos ((path, interfaces) ∷ objects) b =
      let rest = read_infos objects b in
      if has_device interfaces then read_info path b ∷ rest else rest

  -- `listDevices`
  unfoldable pub list_devices : BluetoothHandler B → List BluetoothDeviceInfo
  list_devices s =
      if s.connection
      then stable_sort listed_before (read_infos (bluez.managed_objects s.bus) s.bus)
      else []

  -- `disconnect()` where the device is connected; `false` is an error.
  abbrev pub disconnect_first : Option Bool → Bytes → B → Bool × B
  disconnect_first none path b = (false, b)
  disconnect_first (some true) path b = bluez.disconnect path b
  disconnect_first (some false) path b = (true, b)

  abbrev pub connect_behind : Bytes → Bytes → Bool × B → Bool × B
  connect_behind path uuid (false, b) = (false, b)
  connect_behind path uuid (true, b) = bluez.connect_profile path uuid b

  -- `connectDeviceByObjectPath`
  unfoldable pub connect_device_by_object_path : Bool → Bytes → B → Bool × B
  connect_device_by_object_path is_dongle_mode path b =
      connect_behind path (if is_dongle_mode then [] else hsp_ag_uuid)
        (disconnect_first (bluez.connected path b) path b)

  -- the loop of `disconnectAllConnectedDevices`
  unfoldable pub disconnect_each : List (Bytes × List Bytes) → B → B
  disconnect_each [] b = b
  disconnect_each ((path, interfaces) ∷ objects) b =
      disconnect_each objects
        (if has_device interfaces then (disconnect_first (bluez.connected path b) path b).1 else b)

  -- `switchToDevice` behind the choice of the device
  abbrev pub hand_over :
      Bool → Option BluetoothDeviceInfo → BluetoothHandler B → Bool × BluetoothHandler B
  hand_over is_dongle_mode none s = (false, s)
  hand_over is_dongle_mode (some d) s =
      let (ok, b) =
        connect_device_by_object_path is_dongle_mode d.object_path
          (disconnect_each (bluez.managed_objects s.bus) s.bus) in
      (ok, record s { preferred = some d.object_path; bus = b })

  -- `switchToDevice` once `stopConnectWithRetry` has returned
  abbrev pub switch_stopped :
      Bool → Bytes → BluetoothHandler B → Option Promise → Option (Bool × BluetoothHandler B)
  switch_stopped is_dongle_mode selector s none = none
  switch_stopped is_dongle_mode selector s (some p) =
      let s' = record s { promise = p } in
      some (hand_over is_dongle_mode (find_device selector (list_devices s')) s')

  -- `switchToDevice`; `none` is the exception of `stopConnectWithRetry`, which nothing catches.
  unfoldable pub switch_to_device :
      Bool → Bytes → BluetoothHandler B → Option (Bool × BluetoothHandler B)
  switch_to_device is_dongle_mode selector s =
      if s.connection
      then switch_stopped is_dongle_mode selector s (set_value s.promise)
      else some (false, s)

  -- the loop of `connectDevice`
  unfoldable pub connect_loop : Bool → List Bytes → B → B
  connect_loop is_dongle_mode [] b = b
  connect_loop is_dongle_mode (path ∷ paths) b =
      let (ok, b') = connect_device_by_object_path is_dongle_mode path b in
      let rest = connect_loop is_dongle_mode paths b' in
      if ok && not is_dongle_mode then b' else rest
