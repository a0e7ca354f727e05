-- ===== src/Daemon.antt =====
-- The daemon as a whole: `main` of aawgd.cpp, the thread of `AAWProxy::handleClient`, the thread
-- of `BluetoothHandler::retryConnectLoop`, the thread of `UeventMonitor::monitorLoop`, and what
-- reaches them from the control socket and from the kernel. Each thread is a program counter, that
-- of `monitorLoop` in the USB state; a step ends at the next access to what the threads share. A
-- test and a write of the promise are one step; the handlers of an event are one, too, but for the
-- sleep of `switchToAccessoryGadget`, which ends a step.
pub mod Run
mod Join
pub mod Crash
pub mod Power
pub mod Places
pub mod Progress
pub mod Phases
pub mod Listening
pub mod UsbFirst
pub mod Timely
pub mod Rank
pub mod Fair
mod Runs
mod Tests
use wireless_android_auto_do.Prelude.{
  ℕ, ◌≡◌, Bool, true, false, not, ◌&&◌, ◌||◌, List, [], ◌∷◌, Option, none, some, if◌then◌else◌,
}
use wireless_android_auto_do.Text.{Bytes}
use wireless_android_auto_do.Uevent.{UeventEnv}
use wireless_android_auto_do.Usb.Waits.{
  Waits, hear, finish_switch, start_waits, start_wait, finish_wait, disable_waits,
}
use wireless_android_auto_do.Bluetooth.{Promise, absent, pending, ready, set_value}
use wireless_android_auto_do.Config.{ConnectionStrategy, dongle_mode, phone_first, usb_first}

-- Where `main` is. `usb_wait` is inside `enableDefaultAndWaitForAccessory`.
pub data MainPc : Type 0 where
  at_top usb_wait start_server power_on connect join_proxy stop_retry join_retry disable : MainPc

-- Where `handleClient` is; `forwarding` is everything from the start of the two threads on.
pub data ProxyPc : Type 0 where
  no_proxy accepting stop_bluetooth begin accessory_wait opening forwarding returned : ProxyPc

-- Where `retryConnectLoop` is.
pub data RetryPc : Type 0 where
  no_thread connecting testing powering_off ended : RetryPc

pub record Daemon : Type 0 where
  pub strategy : ConnectionStrategy
  pub adapter : Bool
  pub main : MainPc
  pub proxy : ProxyPc
  pub retry : RetryPc
  pub promise : Promise
  pub powered : Bool
  pub usb : Waits

-- What a step comes to; `crashed` is an exception that nothing catches, of the promise or of BlueZ.
pub data Outcome : Type 0 where
  blocked exited crashed : Outcome
  running : Daemon → Outcome

abbrev pub is_dongle_mode : ConnectionStrategy → Bool
is_dongle_mode dongle_mode = true
is_dongle_mode _ = false

abbrev pub is_usb_first : ConnectionStrategy → Bool
is_usb_first usb_first = true
is_usb_first _ = false

abbrev pub with_value : Option Promise → (Promise → Outcome) → Outcome
with_value none next = crashed
with_value (some p) next = next p

-- the initialisation, up to the loop; `entries` are those of /sys/class/udc/
unfoldable pub boot : ConnectionStrategy → Bool → Option (List Bytes) → Daemon
boot strategy adapter entries = record {
  strategy = strategy;
  adapter = adapter;
  main = at_top;
  proxy = no_proxy;
  retry = no_thread;
  promise = absent;
  powered = is_dongle_mode strategy && adapter;
  usb = start_waits entries;
}

-- `powerOn` outside the dongle mode; without an adapter nothing happens.
abbrev pub power_up : Bool → Bool → Bool → Bool
power_up dongle adapter powered = if not dongle && adapter then true else powered

-- `powerOff` outside the dongle mode
abbrev pub power_down : Bool → Bool → Bool → Bool
power_down dongle adapter powered = if not dongle && adapter then false else powered

-- A step of `main`; `ok` is the result of `startServer`. `btConnectionThread` holds a value where
-- `retry` is not `no_thread`.
unfoldable pub main_at : MainPc → RetryPc → ProxyPc → Bool → Daemon → Outcome
main_at at_top r p ok s =
    if is_usb_first s.strategy
    then running (record s { main = usb_wait; usb = start_wait s.usb })
    else running (record s { main = start_server })
main_at usb_wait r p ok s =
    if s.usb.manager.promise_set
    then running (record s { main = start_server; usb = (finish_wait s.usb).1 })
    else blocked
main_at start_server r p ok s =
    if ok then running (record s { main = power_on; proxy = accepting }) else exited
main_at power_on r p ok s = running (record s {
  main = connect;
  powered = power_up (is_dongle_mode s.strategy) s.adapter s.powered;
})
main_at connect r p ok s =
    if s.adapter
    then running (record s { main = join_proxy; retry = connecting; promise = pending })
    else running (record s { main = join_proxy })
main_at join_proxy no_thread returned ok s = running (record s { main = disable })
main_at join_proxy r returned ok s = running (record s { main = stop_retry })
main_at join_proxy r p ok s = blocked
main_at stop_retry r p ok s =
    with_value (set_value s.promise) (λ q. running (record s { main = join_retry; promise = q }))
main_at join_retry ended p ok s = running (record s { main = disable; retry = no_thread })
main_at join_retry r p ok s = blocked
main_at disable r p ok s =
    running (record s { main = at_top; proxy = no_proxy; usb = disable_waits s.usb })

-- A step of `handleClient`; `ok` is the result of `accept`, or of `open` and `setsockopt`, and in
-- the wait whether its time is over.
unfoldable pub proxy_at : ProxyPc → Bool → Daemon → Outcome
proxy_at no_proxy ok s = blocked
proxy_at accepting ok s = running (record s { proxy = if ok then stop_bluetooth else returned })
proxy_at stop_bluetooth ok s = with_value (set_value s.promise) (λ q.
    running (record s { proxy = if is_usb_first s.strategy then opening else begin; promise = q }))
proxy_at begin ok s = running (record s { proxy = accessory_wait; usb = start_wait s.usb })
proxy_at accessory_wait ok s =
    if s.usb.manager.promise_set || ok
    then running (record s {
      proxy = if (finish_wait s.usb).0 then opening else returned;
      usb = (finish_wait s.usb).1;
    })
    else blocked
proxy_at opening ok s = running (record s { proxy = if ok then forwarding else returned })
proxy_at forwarding ok s = running (record s { proxy = returned })
proxy_at returned ok s = blocked

-- the test at the end of a round: the thread goes on, or clears the promise and leaves its loop
abbrev pub test_promise : Promise → Daemon → Daemon
test_promise ready s = record s { retry = powering_off; promise = absent }
test_promise pending s = record s { retry = connecting }
test_promise absent s = record s { retry = connecting }

-- A step of `retryConnectLoop`.
unfoldable pub retry_at : RetryPc → Daemon → Outcome
retry_at no_thread s = blocked
retry_at connecting s = running (record s { retry = testing })
retry_at testing s = running (test_promise s.promise s)
retry_at powering_off s = running (record s {
  retry = ended;
  powered = power_down (is_dongle_mode s.strategy) s.adapter s.powered;
})
retry_at ended s = blocked

-- `stopConnectWithRetry` by the commands SWITCH and DISCONNECT of the control socket
unfoldable pub command : Daemon → Outcome
command s = with_value (set_value s.promise) (λ q. running (record s { promise = q }))

-- The thread of `monitorLoop`: with an event it calls the handlers, up to one that switches the
-- gadgets; behind the sleep of that one it goes on. Until then an event waits in the socket.
unfoldable pub monitor_at : Option ℕ → Option UeventEnv → Daemon → Outcome
monitor_at none (some env) s = running (record s { usb = hear env s.usb })
monitor_at none none s = blocked
monitor_at (some id) (some env) s = blocked
monitor_at (some id) none s = running (record s { usb = finish_switch id s.usb })

-- Who makes the calls of BlueZ in which nothing catches a `DBus::Error`: `main` in `powerOn`, the
-- thread of retries in `getBluezObjects` and `powerOff`, and each command of the control socket in
-- `getBluezObjects`.
pub data BusCaller : Type 0 where
  by_main by_retry by_command : BusCaller

abbrev pub main_calls : MainPc → Bool → Bool
main_calls power_on powers = powers
main_calls _ powers = false

abbrev pub retry_calls : RetryPc → Bool → Bool
retry_calls connecting powers = true
retry_calls powering_off powers = powers
retry_calls _ powers = false

-- Whether such a call is the next of its caller. In the dongle mode the two of the power come before
-- the loop, or not at all.
unfoldable pub calls_bus : BusCaller → Daemon → Bool
calls_bus by_main s = main_calls s.main (not (is_dongle_mode s.strategy) && s.adapter)
calls_bus by_retry s = retry_calls s.retry (not (is_dongle_mode s.strategy) && s.adapter)
calls_bus by_command s = true

-- The call throws.
abbrev pub throws : Bool → Outcome
throws calls = if calls then crashed else blocked

-- Which thread makes the next step, with the results of its calls; or whose call of BlueZ throws.
pub data Choice : Type 0 where
  main_turn proxy_turn : Bool → Choice
  retry_turn a_command monitor_turn : Choice
  an_event : UeventEnv → Choice
  bus_error : BusCaller → Choice

unfoldable pub step : Choice → Daemon → Outcome
step (main_turn ok) s = main_at s.main s.retry s.proxy ok s
step (proxy_turn ok) s = proxy_at s.proxy ok s
step retry_turn s = retry_at s.retry s
step a_command s = command s
step (an_event env) s = monitor_at s.usb.switching (some env) s
step monitor_turn s = monitor_at s.usb.switching none s
step (bus_error caller) s = throws (calls_bus caller s)

-- The states that the daemon reaches, whatever the schedule and the results of the calls are.
pub data Reach : Daemon → Type 0 where
  booted :
      (strategy : ConnectionStrategy) (adapter : Bool) (entries : Option (List Bytes))
      → Reach (boot strategy adapter entries)
  later : {s t : Daemon} (c : Choice) → Reach s → step c s ≡ running t → Reach t
