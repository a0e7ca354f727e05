-- ===== src/Daemon/Run.antt =====
-- What the threads of the daemon leave to one another.
use mathlib.Core.Path.{subst}
use wireless_android_auto_do.Prelude.{
  ◌≡◌, refl, arith, Bool, true, false, not, ◌&&◌, ◌||◌, List, [], ◌∷◌, Option, none, some, ℕ,
}
use wireless_android_auto_do.Text.{Bytes}
use wireless_android_auto_do.Uevent.{UeventEnv}
use wireless_android_auto_do.Usb.Waits.{Waits, hear, finish_switch}
use wireless_android_auto_do.Bluetooth.{Promise, absent, ready, set_value}
use wireless_android_auto_do.Config.{ConnectionStrategy}
use wireless_android_auto_do.Daemon.{
  bus_error, calls_bus, throws, MainPc, at_top, usb_wait, start_server, power_on, connect,
  join_proxy, stop_retry, join_retry, disable, ProxyPc, no_proxy, accepting, stop_bluetooth, begin,
  accessory_wait, opening, forwarding, returned, RetryPc, no_thread, connecting, testing,
  powering_off, ended, Daemon, Outcome, blocked, exited, crashed, running, boot, main_at, proxy_at,
  retry_at, command, monitor_at, Choice, main_turn, proxy_turn, retry_turn, a_command, an_event,
  monitor_turn, step, Reach, booted, later,
}

abbrev is_absent : Promise → Bool
is_absent absent = true
is_absent _ = false

abbrev is_ready : Promise → Bool
is_ready ready = true
is_ready _ = false

-- `main` has come to its thread of retries, and not yet past it.
abbrev has_started : MainPc → Bool
has_started join_proxy = true
has_started stop_retry = true
has_started join_retry = true
has_started _ = false

abbrev is_joining : MainPc → Bool
is_joining join_retry = true
is_joining _ = false

-- The promise is there just while the thread of retries looks for it; where `main` waits for that
-- thread, the promise has its value.
abbrev pub retry_ok : MainPc → RetryPc → Promise → Bool
retry_ok join_retry no_thread q = false
retry_ok stop_retry no_thread q = false
retry_ok m no_thread q = is_absent q
retry_ok m connecting q = has_started m && not (is_absent q) && (not (is_joining m) || is_ready q)
retry_ok m testing q = has_started m && not (is_absent q) && (not (is_joining m) || is_ready q)
retry_ok m powering_off q = has_started m && is_absent q
retry_ok m ended q = has_started m && is_absent q

abbrev pub is_returned : ProxyPc → Bool
is_returned returned = true
is_returned _ = false

abbrev pub is_none : ProxyPc → Bool
is_none no_proxy = true
is_none _ = false

-- There is a thread of the proxy just while `main` may wait for it; behind that it has returned.
abbrev pub proxy_ok : MainPc → ProxyPc → Bool
proxy_ok at_top p = is_none p
proxy_ok usb_wait p = is_none p
proxy_ok start_server p = is_none p
proxy_ok power_on p = not (is_none p)
proxy_ok connect p = not (is_none p)
proxy_ok join_proxy p = not (is_none p)
proxy_ok stop_retry p = is_returned p
proxy_ok join_retry p = is_returned p
proxy_ok disable p = is_returned p

pub record Ordered (s : Daemon) : Type 0 where
  pub retry : retry_ok s.main s.retry s.promise ≡ true
  pub proxy : proxy_ok s.main s.proxy ≡ true

-- a state with its program counters and its promise in sight
abbrev pub at : MainPc → ProxyPc → RetryPc → Promise → Daemon → Daemon
at m p r q s = record s { main = m; proxy = p; retry = r; promise = q }

-- A property of the state that a step comes to, if it comes to one.
abbrev pub Into : (Daemon → Type 0) → Outcome → Type 0
Into P (running t) = P t
Into P _ = Unit

main_at-Ordered :
    (m : MainPc) (p : ProxyPc) (r : RetryPc) (q : Promise) (ok : Bool) (s : Daemon)
    → Ordered (at m p r q s)
    → Into Ordered (main_at m r p ok (at m p r q s))
unfolding main_at set_value
main_at-Ordered at_top p r q ok s v = ground arith
main_at-Ordered usb_wait p r q ok s v = ground arith
main_at-Ordered start_server p r q ok s v = ground arith
main_at-Ordered power_on p r q ok s v = ground arith
main_at-Ordered connect p r q ok s v = ground arith
main_at-Ordered join_proxy p r q ok s v = ground arith
main_at-Ordered stop_retry p r q ok s v = ground arith
main_at-Ordered join_retry p r q ok s v = ground arith
main_at-Ordered disable p r q ok s v = ground arith

proxy_at-Ordered :
    (m : MainPc) (p : ProxyPc) (r : RetryPc) (q : Promise) (ok : Bool) (s : Daemon)
    → Ordered (at m p r q s)
    → Into Ordered (proxy_at p ok (at m p r q s))
unfolding proxy_at set_value
proxy_at-Ordered m no_proxy r q ok s v = tt
proxy_at-Ordered m accepting r q ok s v = ground arith
proxy_at-Ordered m stop_bluetooth r q ok s v = ground arith
proxy_at-Ordered m begin r q ok s v = ground arith
proxy_at-Ordered m accessory_wait r q ok s v = ground arith
proxy_at-Ordered m opening r q ok s v = ground arith
proxy_at-Ordered m forwarding r q ok s v = ground arith
proxy_at-Ordered m returned r q ok s v = tt

retry_at-Ordered :
    (m : MainPc) (p : ProxyPc) (r : RetryPc) (q : Promise) (s : Daemon)
    → Ordered (at m p r q s)
    → Into Ordered (retry_at r (at m p r q s))
unfolding retry_at
retry_at-Ordered m p no_thread q s v = tt
retry_at-Ordered m p connecting q s v = ground arith
retry_at-Ordered m p testing q s v = ground arith
retry_at-Ordered m p powering_off q s v = ground arith
retry_at-Ordered m p ended q s v = tt

command-Ordered :
    (m : MainPc) (p : ProxyPc) (r : RetryPc) (q : Promise) (s : Daemon)
    → Ordered (at m p r q s)
    → Into Ordered (command (at m p r q s))
unfolding command set_value
command-Ordered m p r q s v = ground arith

-- A property of the state behind a step of the monitor_at, from one for all that the monitor changes.
pub monitor_at_lem :
    (P : Daemon → Type 0) (busy : Option ℕ) (event : Option UeventEnv) (s : Daemon)
    → ((w : Waits) → P (record s { usb = w }))
    → Into P (monitor_at busy event s)
unfolding monitor_at
monitor_at_lem P none (some env) s h = h (hear env s.usb)
monitor_at_lem P none none s h = tt
monitor_at_lem P (some id) (some env) s h = tt
monitor_at_lem P (some id) none s h = h (finish_switch id s.usb)

-- Behind an error that nothing catches there is no state.
pub throws_lem : (P : Daemon → Type 0) (calls : Bool) → Into P (throws calls)
throws_lem P true = tt
throws_lem P false = tt

step-Ordered : (c : Choice) (s : Daemon) → Ordered s → Into Ordered (step c s)
unfolding step
step-Ordered (main_turn ok) s v = main_at-Ordered s.main s.proxy s.retry s.promise ok s v
step-Ordered (proxy_turn ok) s v = proxy_at-Ordered s.main s.proxy s.retry s.promise ok s v
step-Ordered retry_turn s v = retry_at-Ordered s.main s.proxy s.retry s.promise s v
step-Ordered a_command s v = command-Ordered s.main s.proxy s.retry s.promise s v
step-Ordered (an_event env) s v =
    monitor_at_lem Ordered s.usb.switching (some env) s
      (λ w. record { retry = v.retry; proxy = v.proxy })
step-Ordered monitor_turn s v =
    monitor_at_lem Ordered s.usb.switching none s (λ w. record { retry = v.retry; proxy = v.proxy })
step-Ordered (bus_error caller) s v = throws_lem Ordered (calls_bus caller s)

boot-Ordered :
    (strategy : ConnectionStrategy) (adapter : Bool) (entries : Option (List Bytes))
    → Ordered (boot strategy adapter entries)
unfolding boot
boot-Ordered strategy adapter entries = record { retry = refl; proxy = refl }

pub Reach-Ordered : {s : Daemon} → Reach s → Ordered s
Reach-Ordered (booted strategy adapter entries) = boot-Ordered strategy adapter entries
Reach-Ordered (later {s} c r e) = rw e at (step-Ordered c s (Reach-Ordered r))

-- Steps in a row.
abbrev pub after : Outcome → (Daemon → Outcome) → Outcome
after (running t) next = next t
after blocked next = blocked
after exited next = exited
after crashed next = crashed

unfoldable pub drive : List Choice → Daemon → Outcome
drive [] s = running s
drive (c ∷ cs) s = after (step c s) (λ t. drive cs t)

at_top_lem :
    (p : ProxyPc) (r : RetryPc) (q : Promise)
    → retry_ok at_top r q ≡ true
    → proxy_ok at_top p ≡ true
    → (p ≡ no_proxy) × (r ≡ no_thread) × (q ≡ absent)
at_top_lem p r q h k = ground arith

-- At the head of the loop no thread of an earlier connection is left, and the promise is null.
pub at_top-alone :
    {s : Daemon}
    → Reach s
    → s.main ≡ at_top
    → (s.proxy ≡ no_proxy) × (s.retry ≡ no_thread) × (s.promise ≡ absent)
at_top-alone {s} r e =
    let v = Reach-Ordered r in
    at_top_lem s.proxy s.retry s.promise
      (subst (λ m. retry_ok m s.retry s.promise ≡ true) e v.retry)
      (subst (λ m. proxy_ok m s.proxy ≡ true) e v.proxy)
