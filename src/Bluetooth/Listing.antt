-- ===== src/Bluetooth/Listing.antt =====
-- `listDevices` against what it promises: the devices of BlueZ, each once, in an order of their own.
use mathlib.Core.List.{Perm}
use wireless_android_auto_do.Prelude.{
  ◌≡◌, refl, ap, ◌⊎◌, inl, inr, Bool, true, false, not, ◌&&◌, List, [], ◌∷◌, map, if◌then◌else◌,
  Bool-cases, arith,
}
use wireless_android_auto_do.Text.{Bytes}
use wireless_android_auto_do.Control.{BluetoothDeviceInfo}
use wireless_android_auto_do.Bluetooth.{
  Bus, BluetoothHandler, has_device, text_less, listed_before, read_info, read_infos, list_devices,
}
use wireless_android_auto_do.Bluetooth.Order.{listed_before-StrictWeak}
use wireless_android_auto_do.Bluetooth.Sorted.{
  Below, IsSorted, stable_sort-perm, stable_sort-IsSorted,
}
use wireless_android_auto_do.Bluetooth.Retry.{device_paths}

-- How two devices of the list stand: a paired one is before one that is not paired; of two that are
-- both paired or both not, a connected one is before one that is not; of two that are alike in
-- both, the first has no greater path.
pub data InOrder (a b : BluetoothDeviceInfo) : Type 0 where
  paired_first : a.paired ≡ true → b.paired ≡ false → InOrder a b
  connected_first : a.paired ≡ b.paired → a.connected ≡ true → b.connected ≡ false → InOrder a b
  by_path :
      a.paired ≡ b.paired
      → a.connected ≡ b.connected
      → text_less b.object_path a.object_path ≡ false
      → InOrder a b

abbrev pub AllBehind : BluetoothDeviceInfo → List BluetoothDeviceInfo → Type 0
AllBehind d [] = Unit
AllBehind d (e ∷ es) = InOrder d e × AllBehind d es

-- Each device stands so to every device behind it.
abbrev pub AllInOrder : List BluetoothDeviceInfo → Type 0
AllInOrder [] = Unit
AllInOrder (d ∷ ds) = AllBehind d ds × AllInOrder ds

-- the comparison of `listDevices`, taken apart
compared :
    (p q c d less : Bool)
    → (if q && not p
        then true
        else if p && not q
        then false
        else if d && not c
        then true
        else if c && not d
        then false
        else less)
      ≡ false
    → ((p ≡ true) × (q ≡ false))
      ⊎ ((p ≡ q) × (c ≡ true) × (d ≡ false))
      ⊎ ((p ≡ q) × (c ≡ d) × (less ≡ false))
compared p q c d less h = ground arith

not_before-InOrder : (a b : BluetoothDeviceInfo) → listed_before b a ≡ false → InOrder a b
not_before-InOrder a b h =
    elim (compared a.paired b.paired a.connected b.connected (text_less b.object_path a.object_path)
      h) [
        | inl x ↦ paired_first x.0 x.1
        | inr (inl x) ↦ connected_first x.0 x.1 x.2
        | inr (inr x) ↦ by_path x.0 x.1 x.2
      ]

Below-AllBehind :
    (d : BluetoothDeviceInfo) (ds : List BluetoothDeviceInfo)
    → Below listed_before d ds
    → AllBehind d ds
Below-AllBehind d [] h = tt
Below-AllBehind d (e ∷ es) h = (not_before-InOrder d e h.0, Below-AllBehind d es h.1)

IsSorted-AllInOrder : (ds : List BluetoothDeviceInfo) → IsSorted listed_before ds → AllInOrder ds
IsSorted-AllInOrder [] h = tt
IsSorted-AllInOrder (d ∷ ds) h = (Below-AllBehind d ds h.0, IsSorted-AllInOrder ds h.1)

module _ {B : Type 0} (bluez : Bus B) where
  read_infos-map :
      (objects : List (Bytes × List Bytes)) (b : B)
      → read_infos bluez objects b ≡ map (λ p. read_info bluez p b) (device_paths objects)
  unfolding read_infos device_paths
  read_infos-map [] b = refl
  read_infos-map ((path, interfaces) ∷ objects) b = elim (Bool-cases (has_device interfaces)) [
    | inl e ↦ rw e (ap (◌∷◌ (read_info bluez path b)) (read_infos-map objects b))
    | inr e ↦ rw e (read_infos-map objects b)
  ]

  -- The list that `listDevices` answers has the paired devices in front of the others, in each of
  -- these two parts the connected ones in front, and those that are alike in both by path; and it
  -- holds exactly what was read of each device among the objects of BlueZ, each once.
  pub list_devices-AllInOrder :
      (s : BluetoothHandler B)
      → s.connection ≡ true
      → AllInOrder (list_devices bluez s)
        × Perm
            (list_devices bluez s)
            (map (λ p. read_info bluez p s.bus) (device_paths (bluez.managed_objects s.bus)))
  unfolding list_devices
  list_devices-AllInOrder s h = rw h (
    IsSorted-AllInOrder _ (stable_sort-IsSorted listed_before listed_before-StrictWeak _),
    rw (← read_infos-map (bluez.managed_objects s.bus) s.bus)
        (stable_sort-perm listed_before (read_infos bluez (bluez.managed_objects s.bus) s.bus)),
  )
