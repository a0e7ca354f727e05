-- ===== src/Bluetooth/Adapter.antt =====
-- The adapter of bluetoothHandler.cpp: `init`, the profiles, the power and the advertisement, as
-- the calls that they make of BlueZ. Each call is taken to succeed, and the results of
-- `register_object` are only logged.
use wireless_android_auto_do.Prelude.{
  Bool, true, false, not, ◌&&◌, ◌||◌, List, [], ◌∷◌, ◌++◌, Option, none, some, if◌then◌else◌,
}
use wireless_android_auto_do.Text.{Bytes, codes, equal, is_empty}
use wireless_android_auto_do.Config.{Environment, get_unique_suffix, get_bluetooth_name}

-- A call of BlueZ, with the path of its object. `register_profile` has the path of the profile, its
-- UUID and the options, the channel in its decimal form.
pub data BusCall : Type 0 where
  set_alias : Bytes → Bytes → BusCall
  set_powered set_discoverable set_pairable : Bytes → Bool → BusCall
  register_object : Bytes → BusCall
  register_profile : Bytes → Bytes → List (Bytes × Bytes) → BusCall
  register_advertisement unregister_advertisement : Bytes → Bytes → BusCall

-- The properties of `BLEAdvertisement`.
pub record BleAdvertisement : Type 0 where
  pub type : Bytes
  pub service_uuids : List Bytes
  pub local_name : Bytes

-- `m_adapter` as its path, `m_adapterAlias`, `m_leAdvertisement`, and the calls made so far, the
-- latest first.
pub record Adapter : Type 0 where
  pub adapter : Option Bytes
  pub adapter_alias : Bytes
  pub le_advertisement : Option BleAdvertisement
  pub calls : List BusCall

abbrev pub call : BusCall → Adapter → Adapter
call c s = record s { calls = c ∷ s.calls }

abbrev pub le_advertisement_object_path : Bytes
le_advertisement_object_path = codes "/com/aawgd/bluetooth/advertisement"

abbrev pub aawg_profile_object_path : Bytes
aawg_profile_object_path = codes "/com/aawgd/bluetooth/aawg"

abbrev pub aawg_profile_uuid : Bytes
aawg_profile_uuid = codes "4de17a00-52cb-11e6-bdf4-0800200c9a66"

abbrev pub hsp_hs_profile_object_path : Bytes
hsp_hs_profile_object_path = codes "/com/aawgd/bluetooth/hsp"

abbrev pub hsp_hs_uuid : Bytes
hsp_hs_uuid = codes "00001108-0000-1000-8000-00805f9b34fb"

-- `interface == INTERFACE_BLUEZ_ADAPTER`, for one of the interfaces
unfoldable pub has_adapter : List Bytes → Bool
has_adapter [] = false
has_adapter (i ∷ is) = equal i (codes "org.bluez.Adapter1") || has_adapter is

-- the loop of `initAdapter`: `adapter_path`, empty if there is none
unfoldable pub adapter_path : List (Bytes × List Bytes) → Bytes
adapter_path [] = []
adapter_path ((path, interfaces) ∷ objects) =
    let later = adapter_path objects in
    if has_adapter interfaces && not (is_empty path) then path else later

-- `initAdapter`
unfoldable pub init_adapter : List (Bytes × List Bytes) → Adapter → Adapter
init_adapter objects s =
    let path = adapter_path objects in
    if is_empty path
    then s
    else call (set_alias path s.adapter_alias) (record s { adapter = some path })

abbrev pub on_adapter : (Bytes → Adapter → Adapter) → Option Bytes → Adapter → Adapter
on_adapter f none s = s
on_adapter f (some path) s = f path s

-- `setPower`
unfoldable pub set_power : Bool → Adapter → Adapter
set_power on s = on_adapter (λ path. call (set_powered path on)) s.adapter s

-- `setPairable`
unfoldable pub set_pairable_to : Bool → Adapter → Adapter
set_pairable_to pairable s =
    on_adapter
      (λ path t. call (set_pairable path pairable) (call (set_discoverable path pairable) t))
      s.adapter s

-- `exportProfiles`
unfoldable pub export_profiles : Bool → Adapter → Adapter
export_profiles is_dongle_mode s =
    let aaw : Adapter =
      call
        (register_profile aawg_profile_object_path aawg_profile_uuid (
          (codes "Name", codes "AA Wireless")
          ∷ (codes "Role", codes "server")
          ∷ (codes "Channel", codes "8")
          ∷ []))
        (call (register_object aawg_profile_object_path) s) in
    if not is_dongle_mode
    then call
        (register_profile hsp_hs_profile_object_path hsp_hs_uuid
          ((codes "Name", codes "HSP HS") ∷ []))
        (call (register_object hsp_hs_profile_object_path) aaw)
    else aaw

-- `startAdvertising`
unfoldable pub start_advertising : Adapter → Adapter
start_advertising s =
    on_adapter
      (λ path t. call (register_advertisement path le_advertisement_object_path) (
        call (register_object le_advertisement_object_path) (record t {
          le_advertisement = some (record {
            type = codes "peripheral";
            service_uuids = aawg_profile_uuid ∷ [];
            local_name = t.adapter_alias;
          });
        })))
      s.adapter s

-- `stopAdvertising`
unfoldable pub stop_advertising : Adapter → Adapter
stop_advertising s =
    on_adapter (λ path. call (unregister_advertisement path le_advertisement_object_path)) s.adapter
      s

-- `powerOn`
unfoldable pub power_on : Bool → Adapter → Adapter
power_on is_dongle_mode s =
    on_adapter
      (λ _ t.
        let on = set_pairable_to true (set_power true t) in
        if is_dongle_mode then start_advertising on else on)
      s.adapter s

-- `powerOff`
unfoldable pub power_off : Bool → Adapter → Adapter
power_off is_dongle_mode s =
    on_adapter (λ _ t. set_power false (if is_dongle_mode then stop_advertising t else t)) s.adapter
      s

-- `m_adapterAlias`, from the environment and the contents of the serial-number file
unfoldable pub adapter_alias_of : Environment → Bool → Bytes → Bytes
adapter_alias_of env is_dongle_mode serial_file =
    let configured = get_bluetooth_name env in
    let prefix =
      if is_dongle_mode then codes "AndroidAuto-Dongle-" else codes "WirelessAADongle-" in
    if not (is_empty configured) then configured else prefix ++ get_unique_suffix env serial_file

-- `init`, with the objects of BlueZ
unfoldable pub init : Environment → Bool → Bytes → List (Bytes × List Bytes) → Adapter
init env is_dongle_mode serial_file objects = export_profiles is_dongle_mode (
    init_adapter objects (record {
      adapter = none;
      adapter_alias = adapter_alias_of env is_dongle_mode serial_file;
      le_advertisement = none;
      calls = [];
    }))
