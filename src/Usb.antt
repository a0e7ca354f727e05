-- ===== src/Usb.antt =====
-- usb.cpp: the USB gadgets of the dongle, switched through files of configfs. `fopen` is taken to
-- succeed: the init script creates both gadgets before the daemon starts.
pub mod Gadgets
pub mod Sessions
pub mod Waits
mod Tests
use wireless_android_auto_do.Prelude.{
  ℕ, Bool, true, false, not, List, [], ◌∷◌, ◌++◌, Option, none, some, if◌then◌else◌, ◌==◌,
}
use wireless_android_auto_do.Text.{Bytes, codes, equal, is_empty}
use wireless_android_auto_do.Uevent.{UeventEnv, lookup, Handler, add_handler}

pub data Gadget : Type 0 where
  default_gadget accessory_gadget : Gadget

abbrev pub gadget_name : Gadget → Bytes
gadget_name default_gadget = codes "default"
gadget_name accessory_gadget = codes "accessory"

-- The state of `UsbManager`, with the promise of `enableDefaultAndWaitForAccessory`: whether the
-- caller still holds it, and whether it has its value. `writes` are the files written and their
-- contents, the latest first.
pub record Usb : Type 0 where
  pub udc_name : Bytes
  pub writes : List (Bytes × Bytes)
  pub promise_held : Bool
  pub promise_set : Bool

-- the file that `writeGadgetFile` opens
abbrev pub gadget_file : Gadget → Bytes → Bytes
gadget_file g relative =
    codes "/sys/kernel/config/usb_gadget/" ++ (gadget_name g ++ (codes "/" ++ relative))

unfoldable pub write_gadget_file : Gadget → Bytes → Bytes → Usb → Usb
write_gadget_file g relative content u = record u {
  writes = (gadget_file g relative, content ++ b'\n' ∷ []) ∷ u.writes;
}

unfoldable pub enable_gadget : Gadget → Usb → Usb
enable_gadget g u = write_gadget_file g (codes "UDC") u.udc_name u

-- `disableGadget(gadgetName)`
unfoldable pub disable_one : Gadget → Usb → Usb
disable_one g u = write_gadget_file g (codes "UDC") [] u

unfoldable pub switch_to_accessory_gadget : Usb → Usb
switch_to_accessory_gadget u = enable_gadget accessory_gadget (disable_one default_gadget u)

-- `disableGadget()`
unfoldable pub disable_gadget : Usb → Usb
disable_gadget u = disable_one accessory_gadget (disable_one default_gadget u)

-- The loop of the constructor over the entries of /sys/class/udc/. A name with no bytes does not
-- start with a dot, and is taken as it is.
unfoldable pub find_udc : List Bytes → Bytes → Bytes
find_udc [] found = found
find_udc ([] ∷ names) found = find_udc names []
find_udc ((c ∷ name) ∷ names) found = find_udc names (if c == b'.' then found else c ∷ name)

-- The constructor; `none` is a directory that cannot be opened.
unfoldable pub new : Option (List Bytes) → Usb
new entries =
    let u : Usb =
      disable_gadget
        (record { udc_name = []; writes = []; promise_held = false; promise_set = false }) in
    elim entries [ none ↦ u | some names ↦ record u { udc_name = find_udc names [] } ]

-- `it == env.end() || it->second != value`
abbrev pub differs : Option Bytes → Bytes → Bool
differs none value = true
differs (some v) value = not (equal v value)

-- The handler that `enableDefaultAndWaitForAccessory` adds.
unfoldable pub accessory_handler : Handler Usb
accessory_handler env u =
    if not u.promise_held
    then (true, u)
    else if differs (lookup (codes "DEVNAME") env) (codes "usb_accessory")
    then (false, u)
    else if differs (lookup (codes "ACCESSORY") env) (codes "START")
    then (false, u)
    else (true, record (switch_to_accessory_gadget u) { promise_set = true })

-- `enableDefaultAndWaitForAccessory` up to its wait.
unfoldable pub begin_wait : List (Handler Usb) → Usb → List (Handler Usb) × Usb
begin_wait handlers u = (
  add_handler accessory_handler handlers,
  enable_gadget default_gadget (record u { promise_held = true; promise_set = false }),
)

-- Its return: the result is whether the promise has its value (with no time limit it returns only
-- then), and the promise is gone.
unfoldable pub end_wait : Usb → Bool × Usb
end_wait u = (u.promise_set, record u { promise_held = false })
