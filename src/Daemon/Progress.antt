-- ===== src/Daemon/Progress.antt =====
-- The way from the head of the loop to a forwarded connection.
use wireless_android_auto_do.Prelude.{
  ℕ, zero, suc, ◌≡◌, true, false, List, [], ◌∷◌, Option, none, some, length,
}
use wireless_android_auto_do.Text.{codes}
use wireless_android_auto_do.Uevent.{UeventEnv}
use wireless_android_auto_do.Usb.{Usb, default_gadget, accessory_gadget}
use wireless_android_auto_do.Usb.Gadgets.{bound, has_udc}
use wireless_android_auto_do.Usb.Waits.{Waits}
use wireless_android_auto_do.Config.{ConnectionStrategy, usb_first}
use wireless_android_auto_do.Daemon.{
  forwarding, Daemon, Outcome, running, Choice, main_turn, proxy_turn, an_event, monitor_turn,
}

-- the event by which the car asks for the accessory mode, and one of the others
abbrev pub start_event : UeventEnv
start_event = (codes "DEVNAME", codes "usb_accessory") ∷ (codes "ACCESSORY", codes "START") ∷ []

abbrev pub other_event : UeventEnv
other_event = (codes "ACTION", codes "change") ∷ []

-- From the head of the loop to the forwarding, with a phone and a car that are there.
abbrev pub to_forwarding : ConnectionStrategy → List Choice
to_forwarding usb_first =
    main_turn true
    ∷ an_event start_event
    ∷ monitor_turn
    ∷ main_turn true
    ∷ main_turn true
    ∷ main_turn true
    ∷ main_turn true
    ∷ proxy_turn true
    ∷ proxy_turn true
    ∷ proxy_turn true
    ∷ []
to_forwarding _ =
    main_turn true
    ∷ main_turn true
    ∷ main_turn true
    ∷ main_turn true
    ∷ proxy_turn true
    ∷ proxy_turn true
    ∷ proxy_turn true
    ∷ an_event start_event
    ∷ monitor_turn
    ∷ proxy_turn true
    ∷ proxy_turn true
    ∷ []

-- The proxy forwards, and the accessory gadget is bound if there is a controller.
abbrev Forwards : Usb → Outcome → Type 0
Forwards u (running t) =
    (t.proxy ≡ forwarding)
    × (bound accessory_gadget t.usb.manager.writes ≡ has_udc u)
    × (bound default_gadget t.usb.manager.writes ≡ false)
Forwards u _ = ⊥

-- with no handler in the list
abbrev unheard : Usb → ℕ → Waits
unheard u n = record { manager = u; wait = n; handlers = []; switching = none }

-- Other events, so that the monitor removes the handlers of waits that are over.
abbrev pub others : ℕ → List Choice → List Choice
others zero cs = cs
others (suc n) cs = an_event other_event ∷ others n cs

-- A sleep of the monitor comes to its end.
abbrev pub wake : Option ℕ → List Choice → List Choice
wake none cs = cs
wake (some id) cs = monitor_turn ∷ cs

-- These come before the steps of the connection.
abbrev pub settle : Waits → List Choice → List Choice
settle w cs = wake w.switching (others (length w.handlers) cs)

abbrev listing : Usb → ℕ → List ℕ → Waits
listing u n ids = record { manager = u; wait = n; handlers = ids; switching = none }

-- The proxy forwards, the accessory gadget is bound, and the default gadget is not.
abbrev pub Connected : Outcome → Type 0
Connected (running t) =
    (t.proxy ≡ forwarding)
    × (bound accessory_gadget t.usb.manager.writes ≡ true)
    × (bound default_gadget t.usb.manager.writes ≡ false)
Connected _ = ⊥
