-- ===== src/Daemon/Crash.antt =====
-- When the daemon ends by an exception.
use mathlib.Core.Path.{subst}
use wireless_android_auto_do.Prelude.{◌≡◌, ◌⊎◌, arith, Bool, true, false, ℕ, Option, none, some}
use wireless_android_auto_do.Uevent.{UeventEnv}
use wireless_android_auto_do.Bluetooth.{Promise, ready, set_value}
use wireless_android_auto_do.Daemon.{
  bus_error, MainPc, at_top, usb_wait, start_server, power_on, connect, join_proxy, stop_retry,
  join_retry, disable, ProxyPc, no_proxy, accepting, stop_bluetooth, begin, accessory_wait, opening,
  forwarding, returned, RetryPc, connecting, testing, Daemon, crashed, main_at, proxy_at, retry_at,
  command, monitor_at, Choice, main_turn, proxy_turn, retry_turn, a_command, an_event, monitor_turn,
  step, Reach,
}
use wireless_android_auto_do.Daemon.Run.{at, retry_ok, Reach-Ordered}

main_at_crash :
    (m : MainPc) (p : ProxyPc) (r : RetryPc) (q : Promise) (ok : Bool) (s : Daemon)
    → main_at m r p ok (at m p r q s) ≡ crashed
    → q ≡ ready
unfolding main_at set_value
main_at_crash at_top p r q ok s e = ground arith
main_at_crash usb_wait p r q ok s e = ground arith
main_at_crash start_server p r q ok s e = ground arith
main_at_crash power_on p r q ok s e = cc
main_at_crash connect p r q ok s e = ground arith
main_at_crash join_proxy p r q ok s e = ground arith
main_at_crash stop_retry p r q ok s e = ground arith
main_at_crash join_retry p r q ok s e = ground arith
main_at_crash disable p r q ok s e = cc

proxy_at_crash :
    (m : MainPc) (p : ProxyPc) (r : RetryPc) (q : Promise) (ok : Bool) (s : Daemon)
    → proxy_at p ok (at m p r q s) ≡ crashed
    → q ≡ ready
unfolding proxy_at set_value
proxy_at_crash m no_proxy r q ok s e = cc
proxy_at_crash m accepting r q ok s e = cc
proxy_at_crash m stop_bluetooth r q ok s e = ground arith
proxy_at_crash m begin r q ok s e = cc
proxy_at_crash m accessory_wait r q ok s e = ground arith
proxy_at_crash m opening r q ok s e = cc
proxy_at_crash m forwarding r q ok s e = cc
proxy_at_crash m returned r q ok s e = cc

monitor_at_crash :
    (busy : Option ℕ) (event : Option UeventEnv) (s : Daemon)
    → ¬ (monitor_at busy event s ≡ crashed)
unfolding monitor_at
monitor_at_crash none (some env) s e = cc
monitor_at_crash none none s e = cc
monitor_at_crash (some id) (some env) s e = cc
monitor_at_crash (some id) none s e = cc

-- The step is not a call of BlueZ that throws.
abbrev pub no_bus_error : Choice → Bool
no_bus_error (bus_error caller) = false
no_bus_error _ = true

step_crash :
    (c : Choice) (s : Daemon) → no_bus_error c ≡ true → step c s ≡ crashed → s.promise ≡ ready
unfolding step command retry_at set_value
step_crash (main_turn ok) s n e = main_at_crash s.main s.proxy s.retry s.promise ok s e
step_crash (proxy_turn ok) s n e = proxy_at_crash s.main s.proxy s.retry s.promise ok s e
step_crash retry_turn s n e = ground arith
step_crash a_command s n e = ground arith
step_crash (an_event env) s n e = absurd (monitor_at_crash s.usb.switching (some env) s e)
step_crash (bus_error caller) s n e = cc
step_crash monitor_turn s n e = absurd (monitor_at_crash s.usb.switching none s e)

in_round : (m : MainPc) (r : RetryPc) → retry_ok m r ready ≡ true → (r ≡ connecting) ⊎ (r ≡ testing)
in_round m r h = ground arith

-- A step that is not a call of BlueZ that throws ends the daemon by an exception only where the
-- promise already has its value and the thread of retries has not yet finished the round in which
-- it will see it: the exception is that of a second value.
pub crash_within_round :
    {s : Daemon}
    → Reach s
    → (c : Choice) → no_bus_error c ≡ true
    → step c s ≡ crashed
    → (s.promise ≡ ready) × ((s.retry ≡ connecting) ⊎ (s.retry ≡ testing))
crash_within_round {s} r c n e =
    let h = step_crash c s n e in
    (
      h,
      in_round s.main s.retry
          (subst (λ q. retry_ok s.main s.retry q ≡ true) h (Reach-Ordered r).retry),
    )
