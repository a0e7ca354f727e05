-- ===== src/Daemon/Runs.antt =====
-- Runs of the daemon, among them one in which both gadgets are enabled, and one in which the request
-- of the car is lost.
use wireless_android_auto_do.Daemon.Progress.{start_event}
use mathlib.Core.Path.{subst}
use wireless_android_auto_do.Prelude.{
  ℕ, ◌≡◌, refl, arith, ◌⊎◌, inl, inr, Bool, true, false, not, ◌&&◌, ◌||◌, Option, List, [], ◌∷◌,
  ◌++◌, none, some,
}
use wireless_android_auto_do.Text.{codes, equal}
use wireless_android_auto_do.Bluetooth.{set_value}
use wireless_android_auto_do.Config.{phone_first}
use wireless_android_auto_do.Daemon.{
  bus_error, Daemon, Outcome, blocked, exited, crashed, running, boot, main_at, proxy_at,
  monitor_at, Choice, main_turn, proxy_turn, retry_turn, a_command, an_event, monitor_turn, ProxyPc,
  accessory_wait, step, Reach, booted, later,
}
use wireless_android_auto_do.Usb.{
  Gadget, find_udc, new, default_gadget, accessory_gadget, begin_wait, end_wait, disable_gadget,
  enable_gadget, disable_one, write_gadget_file,
}
use wireless_android_auto_do.Usb.Gadgets.{bound}
use wireless_android_auto_do.Usb.Waits.{
  start_waits, start_wait, finish_wait, hear, call_from, call_behind, is_start, finish_switch,
  disable_waits,
}
use wireless_android_auto_do.Uevent.{lookup}
use wireless_android_auto_do.Daemon.Run.{Into, drive, after}
use wireless_android_auto_do.Daemon.Phases.{MeetsTime, InTimeAll}
use wireless_android_auto_do.Daemon.Timely.{InTime}

after_lem :
    (P : Daemon → Type 0) (o : Outcome) (next : Daemon → Outcome)
    → ((t : Daemon) → o ≡ running t → Into P (next t))
    → Into P (after o next)
after_lem P blocked next h = tt
after_lem P exited next h = tt
after_lem P crashed next h = tt
after_lem P (running t) next h = h t refl

pub drive-Reach : (cs : List Choice) (s : Daemon) → Reach s → Into Reach (drive cs s)
unfolding drive
drive-Reach [] s r = r
drive-Reach (c ∷ cs) s r =
    after_lem Reach (step c s) (λ t. drive cs t) (λ t e. drive-Reach cs t (later c r e))

abbrev fallback : Daemon
fallback = boot phone_first true none

abbrev pub state_of : Outcome → Daemon
state_of (running t) = t
state_of _ = fallback

-- A wait of the proxy that the choice ends, ends in time.
abbrev is_none_of : Option ℕ → Bool
is_none_of none = true
is_none_of (some id) = false

abbrev is_waiting : ProxyPc → Bool
is_waiting accessory_wait = true
is_waiting _ = false

abbrev is_in_time : Choice → Daemon → Bool
is_in_time (proxy_turn ok) s =
    not (is_waiting s.proxy) || (s.usb.manager.promise_set || is_none_of s.usb.switching)
is_in_time _ s = true

in_time_lem :
    (p : ProxyPc) (set : Bool) (o : Option ℕ)
    → (not (is_waiting p) || (set || is_none_of o)) ≡ true
    → p ≡ accessory_wait
    → (set ≡ true) ⊎ (o ≡ none)
in_time_lem p true o h e = inl refl
in_time_lem p false none h e = inr refl
in_time_lem p false (some id) h e = ground arith

meets : (c : Choice) (s : Daemon) → is_in_time c s ≡ true → MeetsTime InTime c s
meets (main_turn ok) s h = tt
meets (proxy_turn ok) s h = in_time_lem s.proxy s.usb.manager.promise_set s.usb.switching h
meets retry_turn s h = tt
meets a_command s h = tt
meets (an_event env) s h = tt
meets monitor_turn s h = tt
meets (bus_error caller) s h = tt

-- The state is reached, and every wait of the proxy has ended in time.
abbrev pub Timely : Daemon → Type 0
Timely s = (r : Reach s) × InTimeAll InTime r

abbrev then : Outcome → (Daemon → Bool) → Bool
then (running t) test = test t
then _ test = true

abbrev all_in_time : List Choice → Daemon → Bool
all_in_time [] s = true
all_in_time (c ∷ cs) s = is_in_time c s && then (step c s) (λ t. all_in_time cs t)

both : (a b : Bool) → (a && b) ≡ true → (a ≡ true) × (b ≡ true)
both true true h = (refl, refl)
both true false h = cc
both false b h = cc

drive-Timely :
    (cs : List Choice) (s : Daemon) → Timely s → all_in_time cs s ≡ true → Into Timely (drive cs s)
unfolding drive
drive-Timely [] s r h = r
drive-Timely (c ∷ cs) s r h =
    let (now, rest) = both (is_in_time c s) _ h in
    after_lem Timely (step c s) (λ t. drive cs t)
      (λ t e.
        drive-Timely cs t (later c r.0 e, (r.1, meets c s now))
          (subst (λ o. then o (λ t. all_in_time cs t) ≡ true) e rest))

-- a phone comes, and `accept` succeeds; the proxy waits for the accessory
abbrev phone_comes : List Choice
phone_comes =
    main_turn true
    ∷ main_turn true
    ∷ main_turn true
    ∷ main_turn true
    ∷ proxy_turn true
    ∷ proxy_turn true
    ∷ proxy_turn true
    ∷ []

-- the connection is over, and `main` comes back to the head of its loop
abbrev comes_back : List Choice
comes_back = main_turn true ∷ main_turn true ∷ []

abbrev connection : List Choice
connection =
    phone_comes
    ++ (an_event start_event
        ∷ monitor_turn
        ∷ proxy_turn true
        ∷ proxy_turn true
        ∷ proxy_turn true
        ∷ comes_back)

abbrev phone_started : Daemon
phone_started = boot phone_first false (some (codes "controller" ∷ []))

abbrev pub connected_once : Daemon
connected_once = state_of (drive connection phone_started)

pub connected_once-Timely : Timely connected_once
unfolding drive step main_at proxy_at monitor_at boot set_value start_waits start_wait finish_wait
    hear call_from call_behind is_start finish_switch begin_wait end_wait new disable_gadget
    disable_waits enable_gadget disable_one write_gadget_file equal lookup find_udc
connected_once-Timely =
    drive-Timely connection phone_started
      (booted phone_first false (some (codes "controller" ∷ [])), tt) refl

-- The wait runs out of its time while its handler switches the gadgets: the accessory gadget is
-- enabled behind the connection, and the next one enables the default gadget, too.
abbrev race : List Choice
race =
    phone_comes
    ++ (an_event start_event ∷ proxy_turn true ∷ comes_back ++ (monitor_turn ∷ phone_comes))

abbrev bound_after : List Choice → Gadget → Bool
bound_after cs g = bound g (state_of (drive cs phone_started)).usb.manager.writes

race_binds_both :
    (bound_after race default_gadget ≡ true) × (bound_after race accessory_gadget ≡ true)
unfolding drive step main_at proxy_at monitor_at boot set_value start_waits start_wait finish_wait
    hear call_from call_behind is_start finish_switch begin_wait end_wait new disable_gadget
    disable_waits enable_gadget disable_one write_gadget_file equal lookup find_udc
race_binds_both = (refl, refl)

-- Behind a wait that ran out of its time, the request of the car is passed over.
abbrev passed_over : List Choice
passed_over =
    phone_comes ++ (proxy_turn true ∷ comes_back ++ (phone_comes ++ (an_event start_event ∷ [])))

request_is_lost :
    (bound_after passed_over default_gadget ≡ true)
    × (bound_after passed_over accessory_gadget ≡ false)
    × ((state_of (drive passed_over phone_started)).usb.switching ≡ none)
unfolding drive step main_at proxy_at monitor_at boot set_value start_waits start_wait finish_wait
    hear call_from call_behind is_start finish_switch begin_wait end_wait new disable_gadget
    disable_waits enable_gadget disable_one write_gadget_file equal lookup find_udc
request_is_lost = (refl, refl, refl)
