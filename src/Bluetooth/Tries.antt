-- ===== src/Bluetooth/Tries.antt =====
-- Which devices `connectDevice` tries, and where it ends.
use mathlib.Core.Path.{subst}
use wireless_android_auto_do.Prelude.{
  ◌≡◌, refl, ap, ◌∙◌, inl, inr, Bool, true, false, List, [], ◌∷◌, ◌++◌, Option, none, some,
  Bool-cases,
}
use wireless_android_auto_do.Text.{Bytes}
use wireless_android_auto_do.Bluetooth.{
  Bus, BluetoothHandler, connect_device_by_object_path, connect_behind, connect_loop, hsp_ag_uuid,
}
use wireless_android_auto_do.Bluetooth.Retry.{device_paths, in_order, connect_device}
use wireless_android_auto_do.Bluetooth.Sort.{keep_if, is_preferred, is_other, stable_sort-keep_if}
use wireless_android_auto_do.Bluetooth.Handover.{Documented}

-- The devices that BlueZ knows, the preferred one first.
abbrev pub tried_order : Option Bytes → List Bytes → List Bytes
tried_order none paths = paths
tried_order (some preferred) paths =
    keep_if (is_preferred preferred) paths ++ keep_if (is_other preferred) paths

in_order_lem : (o : Option Bytes) (paths : List Bytes) → in_order o paths ≡ tried_order o paths
unfolding in_order
in_order_lem none paths = refl
in_order_lem (some preferred) paths = stable_sort-keep_if preferred paths

module _ {B : Type 0} (bluez : Bus B) where
  -- the state of BlueZ behind an attempt at each device, first to last
  abbrev pub behind_all : Bool → List Bytes → B → B
  behind_all d [] b = b
  behind_all d (path ∷ paths) b =
      behind_all d paths (connect_device_by_object_path bluez d path b).1

  -- Each attempt fails, at the state that those before it leave.
  abbrev pub AllFail : List Bytes → B → Type 0
  AllFail [] b = Unit
  AllFail (path ∷ paths) b =
      ((connect_device_by_object_path bluez false path b).0 ≡ false)
      × AllFail paths (connect_device_by_object_path bluez false path b).1

  -- Outside the dongle mode, over the devices in this order: all attempts fail, or the first that
  -- does not is the last, and its device is connected.
  pub data Tries (is_connected : Bytes → B → Bool) (paths : List Bytes) (b after : B) : Type 0 where
    no_device :
        AllFail paths b → after ≡ behind_all false paths b → Tries is_connected paths b after
    connects :
        (front back : List Bytes) (path : Bytes)
        → paths ≡ front ++ path ∷ back
        → AllFail front b
        → after ≡ (connect_device_by_object_path bluez false path (behind_all false front b)).1
        → is_connected path after ≡ true
        → Tries is_connected paths b after

  dongle_loop :
      (paths : List Bytes) (b : B) → connect_loop bluez true paths b ≡ behind_all true paths b
  unfolding connect_loop
  dongle_loop [] b = refl
  dongle_loop (path ∷ paths) b =
      elim (Bool-cases (connect_device_by_object_path bluez true path b).0) [
        | inl e ↦ rw e (dongle_loop paths _)
        | inr e ↦ rw e (dongle_loop paths _)
      ]

  module _ (is_connected : Bytes → B → Bool) (doc : Documented bluez is_connected) where
    open doc use {connects as connects_doc}

    behind-connected :
        (path uuid : Bytes) (r : Bool × B)
        → (connect_behind bluez path uuid r).0 ≡ true
        → is_connected path (connect_behind bluez path uuid r).1 ≡ true
    behind-connected path uuid (false, b) e = cc
    behind-connected path uuid (true, b) e = connects_doc path uuid b e

    later :
        (path : Bytes) (paths : List Bytes) (b after : B)
        → (connect_device_by_object_path bluez false path b).0 ≡ false
        → Tries is_connected paths (connect_device_by_object_path bluez false path b).1 after
        → Tries is_connected (path ∷ paths) b after
    later path paths b after e (no_device f h) = no_device (e, f) h
    later path paths b after e (connects front back p split f h c) =
        connects (path ∷ front) back p (ap (◌∷◌ path) split) (e, f) h c

    loop-Tries :
        (paths : List Bytes) (b : B) → Tries is_connected paths b (connect_loop bluez false paths b)
    unfolding connect_loop connect_device_by_object_path
    loop-Tries [] b = no_device tt refl
    loop-Tries (path ∷ paths) b =
        elim (Bool-cases (connect_device_by_object_path bluez false path b).0) [
          | inl e ↦
              rw e (connects [] paths path refl tt refl (behind-connected path hsp_ag_uuid _ e))
          | inr e ↦ rw e (later path paths b _ e (loop-Tries paths _))
        ]

    -- What `connectDevice` does, in the two kinds of mode.
    pub record TriesInOrder (s : BluetoothHandler B) : Type 0 where
      pub outside_dongle :
          Tries is_connected
            (tried_order s.preferred (device_paths (bluez.managed_objects s.bus)))
            s.bus
            (connect_device bluez false s).bus
      pub in_dongle :
          (connect_device bluez true s).bus
          ≡ behind_all true
              (tried_order s.preferred (device_paths (bluez.managed_objects s.bus)))
              s.bus

    -- `connectDevice` tries the devices that BlueZ knows, the preferred one first and the others
    -- in the order of BlueZ. Outside the dongle mode it ends behind the first attempt that
    -- succeeds, and that device is then connected; or all attempts fail. In the dongle mode it
    -- tries each device. BlueZ works as documented.
    pub connect_device-TriesInOrder : (s : BluetoothHandler B) → TriesInOrder s
    unfolding connect_device
    connect_device-TriesInOrder s =
        let paths = device_paths (bluez.managed_objects s.bus) in
        record {
          outside_dongle =
              subst (λ x. Tries is_connected x s.bus (connect_device bluez false s).bus)
                (in_order_lem s.preferred paths) (loop-Tries (in_order s.preferred paths) s.bus);
          in_dongle =
              dongle_loop (in_order s.preferred paths) s.bus
              ∙ ap (λ x. behind_all true x s.bus) (in_order_lem s.preferred paths);
        }
