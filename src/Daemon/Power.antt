-- ===== src/Daemon/Power.antt =====
-- When the Bluetooth adapter is powered.
use wireless_android_auto_do.Prelude.{
  ◌≡◌, arith, Bool, true, false, not, ◌&&◌, ◌||◌, List, Option, none, some,
}
use wireless_android_auto_do.Text.{Bytes}
use wireless_android_auto_do.Bluetooth.{Promise, set_value}
use wireless_android_auto_do.Config.{ConnectionStrategy, dongle_mode}
use wireless_android_auto_do.Daemon.{
  bus_error, calls_bus, MainPc, at_top, usb_wait, start_server, power_on, connect, join_proxy,
  stop_retry, join_retry, disable, ProxyPc, no_proxy, accepting, stop_bluetooth, begin,
  accessory_wait, opening, forwarding, returned, RetryPc, no_thread, connecting, testing,
  powering_off, ended, Daemon, is_dongle_mode, boot, main_at, proxy_at, retry_at, command, Choice,
  main_turn, proxy_turn, retry_turn, a_command, an_event, monitor_turn, step, Reach, booted, later,
}
use wireless_android_auto_do.Daemon.Run.{
  throws_lem, monitor_at_lem, Ordered, Into, at, Reach-Ordered,
}

abbrev is_connect : MainPc → Bool
is_connect connect = true
is_connect _ = false

-- The thread of retries needs the adapter.
abbrev pub needs_power : RetryPc → Bool
needs_power connecting = true
needs_power testing = true
needs_power powering_off = true
needs_power _ = false

-- An adapter that is needed is there and powered; in the dongle mode it always is, if it is there.
abbrev pub power_ok : Bool → Bool → MainPc → RetryPc → Bool → Bool
power_ok dongle adapter m r powered =
    (not (dongle && adapter) || powered)
    && ((not (is_connect m && adapter) || powered) && (not (needs_power r) || powered))

abbrev IsPowered : Daemon → Type 0
IsPowered s = power_ok (is_dongle_mode s.strategy) s.adapter s.main s.retry s.powered ≡ true

main_at-IsPowered :
    (m : MainPc) (p : ProxyPc) (r : RetryPc) (q : Promise) (ok : Bool) (s : Daemon)
    → IsPowered (at m p r q s)
    → Into IsPowered (main_at m r p ok (at m p r q s))
unfolding main_at set_value
main_at-IsPowered at_top p r q ok s v = ground arith
main_at-IsPowered usb_wait p r q ok s v = ground arith
main_at-IsPowered start_server p r q ok s v = ground arith
main_at-IsPowered power_on p r q ok s v = ground arith
main_at-IsPowered connect p r q ok s v = ground arith
main_at-IsPowered join_proxy p r q ok s v = ground arith
main_at-IsPowered stop_retry p r q ok s v = ground arith
main_at-IsPowered join_retry p r q ok s v = ground arith
main_at-IsPowered disable p r q ok s v = ground arith

proxy_at-IsPowered :
    (p : ProxyPc) (ok : Bool) (s : Daemon) → IsPowered s → Into IsPowered (proxy_at p ok s)
unfolding proxy_at set_value
proxy_at-IsPowered no_proxy ok s v = tt
proxy_at-IsPowered stop_bluetooth ok s v = ground arith
proxy_at-IsPowered accepting ok s v = v
proxy_at-IsPowered begin ok s v = v
proxy_at-IsPowered accessory_wait ok s v = ground arith
proxy_at-IsPowered opening ok s v = v
proxy_at-IsPowered forwarding ok s v = v
proxy_at-IsPowered returned ok s v = tt

retry_at-IsPowered :
    (m : MainPc) (p : ProxyPc) (r : RetryPc) (q : Promise) (s : Daemon)
    → Ordered (at m p r q s)
    → IsPowered (at m p r q s)
    → Into IsPowered (retry_at r (at m p r q s))
unfolding retry_at
retry_at-IsPowered m p no_thread q s o v = tt
retry_at-IsPowered m p connecting q s o v = ground arith
retry_at-IsPowered m p testing q s o v = ground arith
retry_at-IsPowered m p powering_off q s o v = ground (arith, o.retry)
retry_at-IsPowered m p ended q s o v = tt

step-IsPowered : (c : Choice) (s : Daemon) → Ordered s → IsPowered s → Into IsPowered (step c s)
unfolding step command set_value
step-IsPowered (main_turn ok) s o v = main_at-IsPowered s.main s.proxy s.retry s.promise ok s v
step-IsPowered (proxy_turn ok) s o v = proxy_at-IsPowered s.proxy ok s v
step-IsPowered retry_turn s o v = retry_at-IsPowered s.main s.proxy s.retry s.promise s o v
step-IsPowered a_command s o v = ground arith
step-IsPowered (an_event env) s o v = monitor_at_lem IsPowered s.usb.switching (some env) s (λ w. v)
step-IsPowered monitor_turn s o v = monitor_at_lem IsPowered s.usb.switching none s (λ w. v)
step-IsPowered (bus_error caller) s o v = throws_lem IsPowered (calls_bus caller s)

boot-IsPowered :
    (strategy : ConnectionStrategy) (adapter : Bool) (entries : Option (List Bytes))
    → IsPowered (boot strategy adapter entries)
unfolding boot
boot-IsPowered strategy adapter entries = ground arith

Reach-IsPowered : {s : Daemon} → Reach s → IsPowered s
Reach-IsPowered (booted strategy adapter entries) = boot-IsPowered strategy adapter entries
Reach-IsPowered (later {s} c r e) =
    rw e at (step-IsPowered c s (Reach-Ordered r) (Reach-IsPowered r))

-- In every state that the daemon reaches, the adapter is powered while the thread of retries uses
-- it, and always in the dongle mode, where there is an adapter.
pub Reach-powered :
    {s : Daemon}
    → Reach s
    → (needs_power s.retry ≡ true → s.powered ≡ true)
      × (s.strategy ≡ dongle_mode → s.adapter ≡ true → s.powered ≡ true)
Reach-powered {s} r = ground (arith, Reach-IsPowered r)
