-- ===== src/Daemon/Rank.antt =====
-- How far `main` is from the head of its loop, and whose turn brings it nearer.
use wireless_android_auto_do.Prelude.{
  ℕ, ◌+◌, ◌≤◌, ◌≡◌, ◌⊎◌, inr, refl, arith, Bool, true, false, Option, some, none, if◌then◌else◌,
  ltb,
}
use wireless_android_auto_do.Uevent.{UeventEnv}
use wireless_android_auto_do.Bluetooth.{Promise, set_value}
use wireless_android_auto_do.Daemon.{
  bus_error, calls_bus, throws, BusCaller, MainPc, at_top, usb_wait, start_server, power_on,
  connect, join_proxy, stop_retry, join_retry, disable, ProxyPc, no_proxy, accepting,
  stop_bluetooth, begin, accessory_wait, opening, forwarding, returned, RetryPc, no_thread,
  connecting, testing, powering_off, ended, Daemon, Outcome, blocked, exited, crashed, running,
  main_at, proxy_at, retry_at, command, monitor_at, Choice, main_turn, proxy_turn, retry_turn,
  a_command, an_event, monitor_turn, step, with_value,
}
use wireless_android_auto_do.Daemon.Run.{Ordered, at}

-- `main` serves a connection.
abbrev pub is_serving : MainPc → Bool
is_serving at_top = false
is_serving usb_wait = false
is_serving start_server = false
is_serving _ = true

abbrev pub is_top : MainPc → Bool
is_top at_top = true
is_top _ = false

abbrev pub proxy_rank : ProxyPc → ℕ
proxy_rank no_proxy = 0
proxy_rank accepting = 6
proxy_rank stop_bluetooth = 5
proxy_rank begin = 4
proxy_rank accessory_wait = 3
proxy_rank opening = 2
proxy_rank forwarding = 1
proxy_rank returned = 0

abbrev pub retry_rank : RetryPc → ℕ
retry_rank no_thread = 0
retry_rank connecting = 3
retry_rank testing = 2
retry_rank powering_off = 1
retry_rank ended = 0

-- What is left of the connection.
abbrev pub rank : MainPc → ProxyPc → RetryPc → ℕ
rank at_top p r = 0
rank usb_wait p r = 0
rank start_server p r = 0
rank disable p r = 1
rank join_retry p r = 2 + retry_rank r
rank stop_retry p r = 6
rank join_proxy p r = 7 + proxy_rank p
rank connect p r = 14 + proxy_rank p
rank power_on p r = 21 + proxy_rank p

pub data Thread : Type 0 where
  main_thread proxy_thread retry_thread : Thread

-- The thread whose turn brings the end nearer.
abbrev pub needed : ℕ → Thread
needed n =
    if ltb n 3
    then main_thread
    else if ltb n 6
    then retry_thread
    else if ltb n 8
    then main_thread
    else if ltb n 14
    then proxy_thread
    else main_thread

-- Where the proxy gets its turn, its wait for the car may be over.
abbrev pub gives : Thread → Choice → Bool
gives main_thread (main_turn ok) = true
gives proxy_thread (proxy_turn ok) = ok
gives retry_thread retry_turn = true
gives _ c = false

abbrev pub rank_of : Daemon → ℕ
rank_of s = rank s.main s.proxy s.retry

abbrev pub one_if : Bool → ℕ
one_if true = 1
one_if false = 0

-- A step ends the connection, or does not lead away from its end, and leads nearer if the thread
-- that is needed has the turn.
abbrev pub Nearer : ℕ → Bool → Outcome → Type 0
Nearer n turn (running t) =
    (is_top t.main ≡ true) ⊎ ((is_serving t.main ≡ true) × (rank_of t + one_if turn ≤ n))
Nearer n turn blocked = turn ≡ false
Nearer n turn crashed = Unit
Nearer n turn exited = ⊥

one_if_le : (b : Bool) → one_if b ≤ 1
one_if_le true = omega arith
one_if_le false = omega arith

if_lem : (P : Outcome → Type 0) (b : Bool) (x y : Outcome) → P x → P y → P (if b then x else y)
if_lem P true x y h k = h
if_lem P false x y h k = k

main_at-Nearer :
    (m : MainPc) (p : ProxyPc) (r : RetryPc) (q : Promise) (ok : Bool) (s : Daemon)
    → is_serving m ≡ true
    → Ordered (at m p r q s)
    → Nearer
        (rank m p r)
        (gives (needed (rank m p r)) (main_turn ok))
        (main_at m r p ok (at m p r q s))
unfolding main_at set_value
main_at-Nearer at_top p r q ok s e v = cc
main_at-Nearer usb_wait p r q ok s e v = cc
main_at-Nearer start_server p r q ok s e v = cc
main_at-Nearer power_on p r q ok s e v =
    let one = one_if_le (gives (needed (21 + proxy_rank p)) (main_turn ok)) in
    inr (refl, omega arith)
main_at-Nearer connect p r q ok s e v =
    let one = one_if_le (gives (needed (14 + proxy_rank p)) (main_turn ok)) in
    if_lem (Nearer (14 + proxy_rank p) (gives (needed (14 + proxy_rank p)) (main_turn ok)))
      s.adapter _ _ (inr (refl, omega arith)) (inr (refl, omega arith))
main_at-Nearer join_proxy p r q ok s e v = ground (arith, v.proxy, v.retry)
main_at-Nearer stop_retry p r q ok s e v = ground (arith, v.proxy, v.retry)
main_at-Nearer join_retry p r q ok s e v = ground (arith, v.proxy, v.retry)
main_at-Nearer disable p r q ok s e v = ground (arith, v.proxy, v.retry)

proxy_at-Nearer :
    (m : MainPc) (p : ProxyPc) (r : RetryPc) (q : Promise) (ok : Bool) (s : Daemon)
    → is_serving m ≡ true
    → Ordered (at m p r q s)
    → Nearer
        (rank m p r)
        (gives (needed (rank m p r)) (proxy_turn ok))
        (proxy_at p ok (at m p r q s))
unfolding proxy_at set_value
proxy_at-Nearer at_top p r q ok s e v = cc
proxy_at-Nearer usb_wait p r q ok s e v = cc
proxy_at-Nearer start_server p r q ok s e v = cc
proxy_at-Nearer power_on p r q ok s e v = ground (arith, v.proxy, v.retry)
proxy_at-Nearer connect p r q ok s e v = ground (arith, v.proxy, v.retry)
proxy_at-Nearer join_proxy p r q ok s e v = ground (arith, v.proxy, v.retry)
proxy_at-Nearer stop_retry p r q ok s e v = ground (arith, v.proxy, v.retry)
proxy_at-Nearer join_retry p r q ok s e v = ground (arith, v.proxy, v.retry)
proxy_at-Nearer disable p r q ok s e v = ground (arith, v.proxy, v.retry)

retry_at-Nearer :
    (m : MainPc) (p : ProxyPc) (r : RetryPc) (q : Promise) (s : Daemon)
    → is_serving m ≡ true
    → Ordered (at m p r q s)
    → Nearer (rank m p r) (gives (needed (rank m p r)) retry_turn) (retry_at r (at m p r q s))
unfolding retry_at
retry_at-Nearer at_top p r q s e v = cc
retry_at-Nearer usb_wait p r q s e v = cc
retry_at-Nearer start_server p r q s e v = cc
retry_at-Nearer power_on p r q s e v = ground (arith, v.proxy, v.retry)
retry_at-Nearer connect p r q s e v = ground (arith, v.proxy, v.retry)
retry_at-Nearer join_proxy p r q s e v = ground (arith, v.proxy, v.retry)
retry_at-Nearer stop_retry p r q s e v = ground (arith, v.proxy, v.retry)
retry_at-Nearer join_retry p r q s e v = ground (arith, v.proxy, v.retry)
retry_at-Nearer disable p r q s e v = ground (arith, v.proxy, v.retry)

no_command : (t : Thread) → gives t a_command ≡ false
no_command main_thread = refl
no_command proxy_thread = refl
no_command retry_thread = refl

no_event : (t : Thread) (env : UeventEnv) → gives t (an_event env) ≡ false
no_event main_thread env = refl
no_event proxy_thread env = refl
no_event retry_thread env = refl

no_monitor : (t : Thread) → gives t monitor_turn ≡ false
no_monitor main_thread = refl
no_monitor proxy_thread = refl
no_monitor retry_thread = refl

-- nothing but the USB state changes
monitor_at-Nearer :
    (busy : Option ℕ) (event : Option UeventEnv) (s : Daemon)
    → is_serving s.main ≡ true
    → Nearer (rank_of s) false (monitor_at busy event s)
unfolding monitor_at
monitor_at-Nearer none (some env) s e = inr (e, omega arith)
monitor_at-Nearer none none s e = refl
monitor_at-Nearer (some id) (some env) s e = refl
monitor_at-Nearer (some id) none s e = inr (e, omega arith)

command-Nearer : (s : Daemon) → is_serving s.main ≡ true → Nearer (rank_of s) false (command s)
unfolding command
command-Nearer s e = go (set_value s.promise)
  where
    go :
        (o : Option Promise)
        → Nearer (rank_of s) false (with_value o (λ q. running (record s { promise = q })))
    go none = tt
    go (some q) = inr (e, omega arith)

no_bus_error : (t : Thread) (caller : BusCaller) → gives t (bus_error caller) ≡ false
no_bus_error main_thread caller = refl
no_bus_error proxy_thread caller = refl
no_bus_error retry_thread caller = refl

throws-Nearer : (n : ℕ) (calls : Bool) → Nearer n false (throws calls)
throws-Nearer n true = tt
throws-Nearer n false = refl

pub step-Nearer :
    (c : Choice) (s : Daemon)
    → is_serving s.main ≡ true
    → Ordered s
    → Nearer (rank_of s) (gives (needed (rank_of s)) c) (step c s)
unfolding step
step-Nearer (main_turn ok) s e v = main_at-Nearer s.main s.proxy s.retry s.promise ok s e v
step-Nearer (proxy_turn ok) s e v = proxy_at-Nearer s.main s.proxy s.retry s.promise ok s e v
step-Nearer retry_turn s e v = retry_at-Nearer s.main s.proxy s.retry s.promise s e v
step-Nearer a_command s e v = rw (no_command (needed (rank_of s))) (command-Nearer s e)
step-Nearer (an_event env) s e v =
    rw (no_event (needed (rank_of s)) env) (monitor_at-Nearer s.usb.switching (some env) s e)
step-Nearer monitor_turn s e v =
    rw (no_monitor (needed (rank_of s))) (monitor_at-Nearer s.usb.switching none s e)
step-Nearer (bus_error caller) s e v =
    rw (no_bus_error (needed (rank_of s)) caller) (throws-Nearer (rank_of s) (calls_bus caller s))

pub rank_le : (m : MainPc) (p : ProxyPc) (r : RetryPc) → rank m p r ≤ 27
rank_le m p r = ground arith

pub rank_pos : (m : MainPc) (p : ProxyPc) (r : RetryPc) → is_serving m ≡ true → 1 ≤ rank m p r
rank_pos m p r e = ground arith
