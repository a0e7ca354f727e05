-- ===== src/Daemon/Places.antt =====
-- Where the gadgets are, by the program counters of `main` and of the proxy.
use wireless_android_auto_do.Prelude.{
  ℕ, ◌≡◌, refl, Bool, true, false, List, Option, none, some, if◌then◌else◌,
}
use wireless_android_auto_do.Text.{Bytes}
use wireless_android_auto_do.Uevent.{UeventEnv}
use wireless_android_auto_do.Usb.Waits.{
  Waits, hear, finish_switch, start_waits, start_wait, finish_wait, disable_waits,
}
use wireless_android_auto_do.Bluetooth.{Promise}
use wireless_android_auto_do.Daemon.{
  MainPc, at_top, usb_wait, start_server, ProxyPc, no_proxy, accepting, stop_bluetooth, begin,
  accessory_wait, opening, forwarding, returned, Daemon, Outcome, with_value,
}
use wireless_android_auto_do.Daemon.Run.{is_returned, Into, is_none}

-- Where the gadgets are; `nowhere` is for program counters that do not meet.
pub data Place : Type 0 where
  at_idle at_wait at_after nowhere : Place

abbrev pub place : ProxyPc → Bool → MainPc → Place
place no_proxy f at_top = at_idle
place no_proxy true usb_wait = at_wait
place no_proxy true start_server = at_after
place no_proxy false start_server = at_idle
place no_proxy f m = nowhere
place accepting true m = at_after
place accepting false m = at_idle
place stop_bluetooth true m = at_after
place stop_bluetooth false m = at_idle
place begin true m = nowhere
place begin false m = at_idle
place accessory_wait true m = nowhere
place accessory_wait false m = at_wait
place _ f m = at_after

-- What a property of the places needs of the operations, to hold in every state that the daemon
-- reaches; `InTime` is what a wait that ends must fulfil.
pub record Kept (P : Place → Waits → Type 0) (InTime : Waits → Type 0) : Type 0 where
  pub starts : (entries : Option (List Bytes)) → P at_idle (start_waits entries)
  pub begins : (w : Waits) → P at_idle w → P at_wait (start_wait w)
  pub set_in_time : (w : Waits) → w.manager.promise_set ≡ true → InTime w
  pub ends : (w : Waits) → InTime w → P at_wait w → P at_after (finish_wait w).1
  pub skips : (w : Waits) → P at_idle w → P at_after w
  pub disabled : (w : Waits) → P at_after w → P at_idle (disable_waits w)
  pub nowhere_is : (w : Waits) → P nowhere w → ⊥
  pub heard :
      (k : Place) (env : UeventEnv) (w : Waits) → w.switching ≡ none → P k w → P k (hear env w)
  pub finished :
      (k : Place) (id : ℕ) (w : Waits) → w.switching ≡ some id → P k w → P k (finish_switch id w)

pub none_of : (P : ProxyPc → Type 0) (p : ProxyPc) → is_none p ≡ true → P no_proxy → P p
none_of P no_proxy e h = h
none_of P accepting e h = cc
none_of P stop_bluetooth e h = cc
none_of P begin e h = cc
none_of P accessory_wait e h = cc
none_of P opening e h = cc
none_of P forwarding e h = cc
none_of P returned e h = cc

pub returned_of : (P : ProxyPc → Type 0) (p : ProxyPc) → is_returned p ≡ true → P returned → P p
returned_of P returned e h = h
returned_of P no_proxy e h = cc
returned_of P accepting e h = cc
returned_of P stop_bluetooth e h = cc
returned_of P begin e h = cc
returned_of P accessory_wait e h = cc
returned_of P opening e h = cc
returned_of P forwarding e h = cc

pub if_lem :
    (P : Daemon → Type 0) (b : Bool) (x y : Outcome)
    → (b ≡ true → Into P x)
    → (b ≡ false → Into P y)
    → Into P (if b then x else y)
if_lem P true x y h k = h refl
if_lem P false x y h k = k refl

pub with_value_lem :
    (P : Daemon → Type 0) (o : Option Promise) (next : Promise → Outcome)
    → ((q : Promise) → Into P (next q))
    → Into P (with_value o next)
with_value_lem P none next h = tt
with_value_lem P (some q) next h = h q
