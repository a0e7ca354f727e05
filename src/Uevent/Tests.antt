-- ===== src/Uevent/Tests.antt =====
-- The theorems about uevent.cpp at concrete inputs.
use wireless_android_auto_do.Prelude.{◌≡◌, refl, [], ◌∷◌, ◌++◌}
use wireless_android_auto_do.Text.{codes, has_byte}
use wireless_android_auto_do.Uevent.{UeventEnv, lookup, parse}
use wireless_android_auto_do.Uevent.Parse.{render, parse-lookup}

abbrev start_event : UeventEnv
start_event = (codes "DEVNAME", codes "usb_accessory") ∷ (codes "ACCESSORY", codes "START") ∷ []

parse-lookup_example :
    lookup (codes "ACCESSORY") (parse (codes "change@/devices" ++ 0 ∷ render start_event))
    ≡ lookup (codes "ACCESSORY") start_event
unfolding has_byte
parse-lookup_example =
    parse-lookup (codes "change@/devices") start_event (codes "ACCESSORY") refl refl
      (((λ e. cc), refl, refl, refl), (((λ e. cc), refl, refl, refl), tt))
