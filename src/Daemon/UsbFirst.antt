-- ===== src/Daemon/UsbFirst.antt =====
-- Where the car comes first, the proxy has no wait of its own.
use mathlib.Core.Path.{subst}
use wireless_android_auto_do.Prelude.{◌≡◌, refl, sym, ◌∙◌, arith, Bool}
use wireless_android_auto_do.Usb.Waits.{Waits}
use wireless_android_auto_do.Bluetooth.{set_value}
use wireless_android_auto_do.Config.{ConnectionStrategy, usb_first}
use wireless_android_auto_do.Daemon.{
  bus_error, calls_bus, MainPc, ProxyPc, accessory_wait, RetryPc, Daemon, is_usb_first, main_at,
  proxy_at, retry_at, command, Choice, main_turn, proxy_turn, retry_turn, a_command, an_event,
  monitor_turn, step, Reach, booted, later,
}
use wireless_android_auto_do.Daemon.Run.{throws_lem, Into, monitor_at_lem}
use wireless_android_auto_do.Daemon.Places.{place}
use wireless_android_auto_do.Daemon.Phases.{MeetsTime, InTimeAll}
use wireless_android_auto_do.Daemon.Listening.{Listed, Reach-Listed}

-- No step changes the strategy.
abbrev Keeps : ConnectionStrategy → Daemon → Type 0
Keeps strategy t = t.strategy ≡ strategy

main_at-Keeps :
    (m : MainPc) (r : RetryPc) (p : ProxyPc) (ok : Bool) (s : Daemon)
    → Into (Keeps s.strategy) (main_at m r p ok s)
unfolding main_at set_value
main_at-Keeps m r p ok s = ground arith

proxy_at-Keeps : (p : ProxyPc) (ok : Bool) (s : Daemon) → Into (Keeps s.strategy) (proxy_at p ok s)
unfolding proxy_at set_value
proxy_at-Keeps p ok s = ground arith

retry_at-Keeps : (r : RetryPc) (s : Daemon) → Into (Keeps s.strategy) (retry_at r s)
unfolding retry_at
retry_at-Keeps r s = ground arith

command-Keeps : (s : Daemon) → Into (Keeps s.strategy) (command s)
unfolding command set_value
command-Keeps s = ground arith

step-Keeps : (c : Choice) (s : Daemon) → Into (Keeps s.strategy) (step c s)
unfolding step
step-Keeps (main_turn ok) s = main_at-Keeps s.main s.retry s.proxy ok s
step-Keeps (proxy_turn ok) s = proxy_at-Keeps s.proxy ok s
step-Keeps retry_turn s = retry_at-Keeps s.retry s
step-Keeps a_command s = command-Keeps s
step-Keeps (an_event env) s = monitor_at_lem (Keeps s.strategy) s.usb.switching _ s (λ w. refl)
step-Keeps monitor_turn s = monitor_at_lem (Keeps s.strategy) s.usb.switching _ s (λ w. refl)
step-Keeps (bus_error caller) s = throws_lem (Keeps s.strategy) (calls_bus caller s)

-- The proxy is not in the wait.
no_wait : {s : Daemon} → Reach s → s.strategy ≡ usb_first → ¬ (s.proxy ≡ accessory_wait)
no_wait {s} r e p =
    subst (λ f. Listed (place accessory_wait (is_usb_first f) s.main) s.usb) e
      (subst (λ x. Listed (place x (is_usb_first s.strategy) s.main) s.usb) p (Reach-Listed r))

pub usb_first-InTimeAll :
    (T : Waits → Type 0) {s : Daemon} (r : Reach s) → s.strategy ≡ usb_first → InTimeAll T r
usb_first-InTimeAll T (booted strategy adapter entries) e = tt
usb_first-InTimeAll T (later {s} c r e') e =
    let before = sym (rw e' at (step-Keeps c s)) ∙ e in
    (usb_first-InTimeAll T r before, meets c before)
  where
    meets : (c : Choice) → s.strategy ≡ usb_first → MeetsTime T c s
    meets (main_turn ok) u = tt
    meets (proxy_turn ok) u = λ p. absurd (no_wait r u p)
    meets retry_turn u = tt
    meets a_command u = tt
    meets (an_event env) u = tt
    meets monitor_turn u = tt
    meets (bus_error caller) u = tt
