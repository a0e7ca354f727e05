-- ===== src/Usb/Sessions.antt =====
-- The states of the gadgets over the connections of the daemon.
use wireless_android_auto_do.Prelude.{◌≡◌, refl, false, List, Option, none, some, true}
use wireless_android_auto_do.Text.{Bytes, equal}
use wireless_android_auto_do.Uevent.{Handler}
use wireless_android_auto_do.Usb.{
  default_gadget, accessory_gadget, Usb, write_gadget_file, enable_gadget, disable_one,
  disable_gadget, begin_wait, end_wait, new,
}
use wireless_android_auto_do.Usb.Gadgets.{
  bound, NeverBoth, Leaves, disable_gadget-Leaves, enable_default-Leaves,
}

-- Where the daemon is in its loop over the connections; `switching` is the sleep between the two
-- gadgets.
pub data Phase : Type 0 where
  idle waiting switching accessory : Phase

-- The states that the daemon reaches, where no wait ends while its handler switches the gadgets.
-- The kernel asks for the accessory mode only while the default gadget is on the bus, so the
-- events between the addition of the handler and the binding of the default gadget are none that
-- the handler acts on, and have no step. The return from a wait is taken whole.
pub data Reached : Phase → Usb → Type 0 where
  started : (entries : Option (List Bytes)) → Reached idle (new entries)
  waits : {u : Usb} (hs : List (Handler Usb)) → Reached idle u → Reached waiting (begin_wait hs u).1
  switches : {u : Usb} → Reached waiting u → Reached switching (disable_one default_gadget u)
  switched :
      {u : Usb}
      → Reached switching u
      → Reached accessory (record (enable_gadget accessory_gadget u) { promise_set = true })
  returns : {u : Usb} → Reached accessory u → Reached accessory (end_wait u).1
  times_out : {u : Usb} → Reached waiting u → Reached accessory (end_wait u).1
  -- no wait is needed
  skips : {u : Usb} → Reached idle u → Reached accessory u
  disables : {u : Usb} → Reached accessory u → Reached idle (disable_gadget u)

-- What each phase keeps.
abbrev pub Keeps : Phase → Usb → Type 0
Keeps idle u = Leaves u false false
Keeps waiting u = NeverBoth u.writes × (bound accessory_gadget u.writes ≡ false)
Keeps switching u = NeverBoth u.writes × (bound default_gadget u.writes ≡ false)
Keeps accessory u = NeverBoth u.writes

started-Leaves : (entries : Option (List Bytes)) → Leaves (new entries) false false
unfolding new disable_gadget disable_one write_gadget_file equal
started-Leaves none = record { clean = (refl, (refl, tt)); default_is = refl; accessory_is = refl }
started-Leaves (some names) = record {
  clean = (refl, (refl, tt));
  default_is = refl;
  accessory_is = refl;
}

waits-Keeps :
    (hs : List (Handler Usb)) (u : Usb) → Leaves u false false → Keeps waiting (begin_wait hs u).1
unfolding begin_wait
waits-Keeps hs u v =
    let after =
      enable_default-Leaves (record u { promise_held = true; promise_set = false })
        (record { clean = v.clean; default_is = v.default_is; accessory_is = v.accessory_is }) in
    (after.clean, after.accessory_is)

switches-Keeps : (u : Usb) → NeverBoth u.writes → Keeps switching (disable_one default_gadget u)
unfolding disable_one write_gadget_file equal
switches-Keeps u h = ((refl, h), refl)

switched-Keeps : (u : Usb) → Keeps switching u → NeverBoth (enable_gadget accessory_gadget u).writes
unfolding enable_gadget write_gadget_file equal
switched-Keeps u h = (rw h.1 refl, h.0)

end_wait-Keeps : (u : Usb) → NeverBoth u.writes → NeverBoth (end_wait u).1.writes
unfolding end_wait
end_wait-Keeps u h = h

pub Reached-Keeps : {p : Phase} {u : Usb} → Reached p u → Keeps p u
Reached-Keeps (started entries) = started-Leaves entries
Reached-Keeps (waits hs r) = waits-Keeps hs _ (Reached-Keeps r)
Reached-Keeps (switches r) = switches-Keeps _ (Reached-Keeps r).0
Reached-Keeps (switched r) = switched-Keeps _ (Reached-Keeps r)
Reached-Keeps (returns r) = end_wait-Keeps _ (Reached-Keeps r)
Reached-Keeps (times_out r) = end_wait-Keeps _ (Reached-Keeps r).0
Reached-Keeps (skips r) = (Reached-Keeps r).clean
Reached-Keeps (disables r) = disable_gadget-Leaves _ (Reached-Keeps r)

-- In every state that is reached, over any number of connections, the default and the accessory
-- gadget were at no time bound together.
pub Reached-NeverBoth : {p : Phase} {u : Usb} → Reached p u → NeverBoth u.writes
Reached-NeverBoth {p = idle} r = (Reached-Keeps r).clean
Reached-NeverBoth {p = waiting} r = (Reached-Keeps r).0
Reached-NeverBoth {p = switching} r = (Reached-Keeps r).0
Reached-NeverBoth {p = accessory} r = Reached-Keeps r
