-- ===== src/Usb/Gadgets.antt =====
-- Which gadget is bound to the USB controller.
use wireless_android_auto_do.Prelude.{
  ◌≡◌, refl, Bool, true, false, not, ◌&&◌, List, [], ◌∷◌, ◌++◌, if◌then◌else◌,
}
use wireless_android_auto_do.Text.{Bytes, codes, equal}
use wireless_android_auto_do.Usb.{
  Gadget, default_gadget, accessory_gadget, gadget_file, Usb, write_gadget_file, enable_gadget,
  disable_one, switch_to_accessory_gadget, disable_gadget,
}

-- The last write to the gadget's UDC file held a name.
abbrev pub bound : Gadget → List (Bytes × Bytes) → Bool
bound g [] = false
bound g ((file, content) ∷ ws) =
    if equal file (gadget_file g (codes "UDC"))
    then not (equal content (codes "\n"))
    else bound g ws

-- At no time were both gadgets bound.
abbrev pub NeverBoth : List (Bytes × Bytes) → Type 0
NeverBoth [] = Unit
NeverBoth (w ∷ ws) =
    ((bound default_gadget (w ∷ ws) && bound accessory_gadget (w ∷ ws)) ≡ false) × NeverBoth ws

-- What an operation leaves: the history stays clean, and these gadgets are bound.
pub record Leaves (u : Usb) (default accessory : Bool) : Type 0 where
  pub clean : NeverBoth u.writes
  pub default_is : bound default_gadget u.writes ≡ default
  pub accessory_is : bound accessory_gadget u.writes ≡ accessory

-- `enableGadget` binds the gadget if there is a controller.
abbrev pub has_udc : Usb → Bool
has_udc u = not (equal (u.udc_name ++ codes "\n") (codes "\n"))

pub disable_gadget-Leaves : (u : Usb) → NeverBoth u.writes → Leaves (disable_gadget u) false false
unfolding disable_gadget disable_one write_gadget_file equal
disable_gadget-Leaves u h = record {
  clean = (refl, (refl, h));
  default_is = refl;
  accessory_is = refl;
}

pub enable_default-Leaves :
    (u : Usb) → Leaves u false false → Leaves (enable_gadget default_gadget u) (has_udc u) false
unfolding enable_gadget write_gadget_file equal
enable_default-Leaves u v = record {
  clean = (rw v.accessory_is (and_false _), v.clean);
  default_is = refl;
  accessory_is = v.accessory_is;
}
  where
    and_false : (b : Bool) → (b && false) ≡ false
    and_false true = refl
    and_false false = refl

switch_to_accessory_gadget-Leaves :
    (u : Usb) → NeverBoth u.writes → Leaves (switch_to_accessory_gadget u) false (has_udc u)
unfolding switch_to_accessory_gadget enable_gadget disable_one write_gadget_file equal
switch_to_accessory_gadget-Leaves u h = record {
  clean = (refl, (refl, h));
  default_is = refl;
  accessory_is = refl;
}
