-- ===== src/Bluetooth/Handover.antt =====
-- `switchToDevice`: the hand-over from the connected devices to the chosen one.
use wireless_android_auto_do.Prelude.{
  ◌≡◌, ◌≢◌, refl, ap, ◌∙◌, ◌⊎◌, inl, inr, Bool, true, false, List, [], ◌∷◌, Option, some,
  if◌then◌else◌, Bool-cases,
}
use wireless_android_auto_do.Text.{Bytes, equal}
use wireless_android_auto_do.Text.Laws.{equal_iff}
use wireless_android_auto_do.Control.{BluetoothDeviceInfo}
use wireless_android_auto_do.Bluetooth.{
  Bus, BluetoothHandler, hsp_ag_uuid, Promise, absent, pending, ready, has_device, find_device,
  set_value, list_devices, disconnect_first, connect_behind, connect_device_by_object_path,
  disconnect_each, hand_over, switch_stopped, switch_to_device,
}

-- BlueZ as its documentation describes it, with `is_connected` the devices that are connected: the
-- property tells whether a device is, `Disconnect` disconnects a connected device, a call of
-- `ConnectProfile` without an error connects the device, and the two methods change only the
-- device that they are called on.
pub record Documented {B : Type 0} (bluez : Bus B) (is_connected : Bytes → B → Bool) : Type 0 where
  pub property : (path : Bytes) (b : B) → bluez.connected path b ≡ some (is_connected path b)
  pub disconnected :
      (path : Bytes) (b : B)
      → is_connected path b ≡ true
      → is_connected path (bluez.disconnect path b).1 ≡ false
  pub others :
      (path other : Bytes) (b : B)
      → other ≢ path
      → is_connected other (bluez.disconnect path b).1 ≡ is_connected other b
  pub connects :
      (path uuid : Bytes) (b : B)
      → (bluez.connect_profile path uuid b).0 ≡ true
      → is_connected path (bluez.connect_profile path uuid b).1 ≡ true
  pub others' :
      (path uuid other : Bytes) (b : B)
      → other ≢ path
      → is_connected other (bluez.connect_profile path uuid b).1 ≡ is_connected other b

-- `path` is one of the devices among the objects.
abbrev pub IsDevice : Bytes → List (Bytes × List Bytes) → Type 0
IsDevice path [] = ⊥
IsDevice path ((other, interfaces) ∷ objects) =
    ((path ≡ other) × (has_device interfaces ≡ true)) ⊎ IsDevice path objects

path-cases : (p q : Bytes) → (p ≡ q) ⊎ (p ≢ q)
path-cases p q = elim (Bool-cases (equal p q)) [
  | inl e ↦ inl ((equal_iff p q).0 e)
  | inr e ↦ inr (λ same. differ e ((equal_iff p q).1 same))
]
  where
    differ : {b : Bool} → b ≡ false → b ≡ true → ⊥
    differ e h = cc

module _ {B : Type 0} (bluez : Bus B) (is_connected : Bytes → B → Bool)
    (doc : Documented bluez is_connected) where
  open doc use {property, disconnected, others, connects, others'}

  -- After the disconnection of a device, it is not connected, and the others are as they were.
  disconnect_first_others :
      (path other : Bytes) (b : B)
      → other ≢ path
      → is_connected other (disconnect_first bluez (bluez.connected path b) path b).1
        ≡ is_connected other b
  disconnect_first_others path other b ne = elim (Bool-cases (is_connected path b)) [
    | inl e ↦ rw (property path b, e) (others path other b ne)
    | inr e ↦ rw (property path b, e)
  ]

  disconnect_first_self :
      (path : Bytes) (b : B)
      → is_connected path (disconnect_first bluez (bluez.connected path b) path b).1 ≡ false
  disconnect_first_self path b = elim (Bool-cases (is_connected path b)) [
    | inl e ↦ rw (property path b, e) (disconnected path b e)
    | inr e ↦ rw (property path b, e) e
  ]

  disconnect_first_keeps :
      (path other : Bytes) (b : B)
      → is_connected other b ≡ false
      → is_connected other (disconnect_first bluez (bluez.connected path b) path b).1 ≡ false
  disconnect_first_keeps path other b n = elim (path-cases other path) [
    | inl same ↦ rw same (disconnect_first_self path b)
    | inr ne ↦ disconnect_first_others path other b ne ∙ n
  ]

  -- No device stays connected, and what was not connected is not connected.
  disconnect_each_clears :
      (objects : List (Bytes × List Bytes)) (path : Bytes) (b : B)
      → (IsDevice path objects ⊎ (is_connected path b ≡ false))
      → is_connected path (disconnect_each bluez objects b) ≡ false
  unfolding disconnect_each
  disconnect_each_clears [] path b (inl h) = absurd h
  disconnect_each_clears [] path b (inr n) = n
  disconnect_each_clears ((q, interfaces) ∷ objects) path b (inl (inl (same, device))) =
      rw device (disconnect_each_clears objects path _ (inr (rw same (disconnect_first_self q b))))
  disconnect_each_clears ((q, interfaces) ∷ objects) path b (inl (inr later)) =
      disconnect_each_clears objects path _ (inl later)
  disconnect_each_clears ((q, interfaces) ∷ objects) path b (inr n) =
      elim (Bool-cases (has_device interfaces)) [
        | inl e ↦
            rw e (disconnect_each_clears objects path _ (inr (disconnect_first_keeps q path b n)))
        | inr e ↦ rw e (disconnect_each_clears objects path b (inr n))
      ]

  connect_behind_others :
      (path uuid other : Bytes) (r : Bool × B)
      → other ≢ path
      → is_connected other (connect_behind bluez path uuid r).1 ≡ is_connected other r.1
  connect_behind_others path uuid other (false, b) ne = refl
  connect_behind_others path uuid other (true, b) ne = others' path uuid other b ne

  connect_behind_self :
      (path uuid : Bytes) (r : Bool × B)
      → (connect_behind bluez path uuid r).0 ≡ true
      → is_connected path (connect_behind bluez path uuid r).1 ≡ true
  connect_behind_self path uuid (false, b) h = cc
  connect_behind_self path uuid (true, b) h = connects path uuid b h

  set_value_total : (p : Promise) → p ≢ ready → (p' : Promise) × (set_value p ≡ some p')
  unfolding set_value
  set_value_total absent h = (absent, refl)
  set_value_total pending h = (ready, refl)
  set_value_total ready h = absurd (h refl)

  -- What `switchToDevice` leaves when it chose the device at `path`: that device is preferred, no
  -- other is connected, and it is connected if the result is true.
  pub record HandedOver (path : Bytes) (r : Option (Bool × BluetoothHandler B)) : Type 0 where
    pub ok : Bool
    pub after : BluetoothHandler B
    pub returned : r ≡ some (ok, after)
    pub preferred : after.preferred ≡ some path
    pub no_other : (other : Bytes) → other ≢ path → is_connected other after.bus ≡ false
    pub connected : ok ≡ true → is_connected path after.bus ≡ true

  switch_to_device_returns :
      (dm : Bool) (selector : Bytes) (s : BluetoothHandler B) (d : BluetoothDeviceInfo)
      (p : Promise)
      → s.connection ≡ true
      → set_value s.promise ≡ some p
      → find_device selector (list_devices bluez s) ≡ some d
      → switch_to_device bluez dm selector s
        ≡ some (hand_over bluez dm (some d) (record s { promise = p }))
  unfolding switch_to_device list_devices
  switch_to_device_returns dm selector s d p up e found =
      ap
        (λ c.
          if c then switch_stopped bluez dm selector s (set_value s.promise) else some (false, s))
        up
      ∙ ap (switch_stopped bluez dm selector s) e
      ∙ ap (λ f. some (hand_over bluez dm f (record s { promise = p }))) found

  hand_over-HandedOver :
      (dm : Bool) (d : BluetoothDeviceInfo) (s : BluetoothHandler B)
      → ((other : Bytes)
          → is_connected other (disconnect_each bluez (bluez.managed_objects s.bus) s.bus) ≡ false)
      → HandedOver d.object_path (some (hand_over bluez dm (some d) s))
  unfolding connect_device_by_object_path
  hand_over-HandedOver dm d s gone =
      let cleared = disconnect_each bluez (bluez.managed_objects s.bus) s.bus in
      let freed =
        disconnect_first bluez (bluez.connected d.object_path cleared) d.object_path cleared in
      let uuid = if dm then [] else hsp_ag_uuid in
      record {
        ok = (hand_over bluez dm (some d) s).0;
        after = (hand_over bluez dm (some d) s).1;
        returned = refl;
        preferred = refl;
        no_other = λ other ne.
            connect_behind_others d.object_path uuid other freed ne
            ∙ disconnect_first_keeps d.object_path other cleared (gone other);
        connected = λ h. connect_behind_self d.object_path uuid freed h;
      }

  -- On a BlueZ that works as documented and whose connected devices are among its objects,
  -- `switchToDevice` returns, if the connection to the bus is there and the promise of the retry
  -- thread does not have its value yet; and where a listed device matches the selector, the first
  -- that does becomes the preferred device, no other device stays connected, and the device is
  -- connected if the result is true.
  pub switch_to_device-HandedOver :
      (is_dongle_mode : Bool) (selector : Bytes) (s : BluetoothHandler B) (d : BluetoothDeviceInfo)
      → s.connection ≡ true
      → s.promise ≢ ready
      → find_device selector (list_devices bluez s) ≡ some d
      → ((path : Bytes)
          → is_connected path s.bus ≡ true
          → IsDevice path (bluez.managed_objects s.bus))
      → HandedOver d.object_path (switch_to_device bluez is_dongle_mode selector s)
  switch_to_device-HandedOver dm selector s d up idle found known =
      let (p, e) = set_value_total s.promise idle in
      rw (switch_to_device_returns dm selector s d p up e found) (
        hand_over-HandedOver dm d (record s { promise = p })
          (λ other.
            disconnect_each_clears (bluez.managed_objects s.bus) other s.bus (device_or_not other)))
    where
      device_or_not :
          (other : Bytes)
          → IsDevice other (bluez.managed_objects s.bus) ⊎ (is_connected other s.bus ≡ false)
      device_or_not other = elim (Bool-cases (is_connected other s.bus)) [
        | inl c ↦ inl (known other c)
        | inr n ↦ inr n
      ]
