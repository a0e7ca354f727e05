-- ===== src/Usb/Tests.antt =====
-- The theorems about usb.cpp at concrete inputs.
use wireless_android_auto_do.Prelude.{true, false, refl, arith, [], ◌∷◌, some}
use wireless_android_auto_do.Text.{codes, equal}
use wireless_android_auto_do.Uevent.{UeventEnv, lookup}
use wireless_android_auto_do.Usb.{
  enable_gadget, write_gadget_file, begin_wait, end_wait, new, disable_gadget, disable_one,
}
use wireless_android_auto_do.Usb.Waits.{
  Waits, start_waits, start_wait, finish_wait, disable_waits, is_start,
}
use wireless_android_auto_do.Usb.Waits.Heard.{Heard, hear-Heard}

abbrev accessory_start : UeventEnv
accessory_start = (codes "DEVNAME", codes "usb_accessory") ∷ (codes "ACCESSORY", codes "START") ∷ []

-- The first wait runs out of its time, and the second begins.
abbrev second_wait : Waits
second_wait =
    start_wait
      (disable_waits (finish_wait (start_wait (start_waits (some (codes "fe980000.usb" ∷ []))))).1)

hear-Heard_example : Heard true false accessory_start second_wait (1 ∷ [])
unfolding is_start lookup equal start_wait finish_wait start_waits disable_waits begin_wait end_wait
    new disable_gadget disable_one enable_gadget write_gadget_file
hear-Heard_example = hear-Heard accessory_start second_wait (1 ∷ []) refl refl (omega arith, tt)
