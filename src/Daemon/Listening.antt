-- ===== src/Daemon/Listening.antt =====
-- The handlers under the threads of the daemon: a wait that has no value yet is heard.
use wireless_android_auto_do.Prelude.{ℕ}
use wireless_android_auto_do.Uevent.{UeventEnv}
use wireless_android_auto_do.Usb.Waits.{Waits, hear, finish_switch}
use wireless_android_auto_do.Usb.Waits.Present.{
  Over, Lasts, start_waits-Over, start_wait-Lasts, finish_wait-Over, disable_waits-Over, hear-Over,
  hear-Lasts,
}
use wireless_android_auto_do.Usb.Waits.Switched.{finish_switch-Over, finish_switch-Lasts}
use wireless_android_auto_do.Daemon.{
  bus_error, Daemon, Choice, main_turn, proxy_turn, retry_turn, a_command, an_event, monitor_turn,
  Reach, booted, later,
}
use wireless_android_auto_do.Daemon.Places.{Place, at_idle, at_wait, at_after, nowhere, Kept}
use wireless_android_auto_do.Daemon.Phases.{InPhase, MeetsTime, InTimeAll, Reach-In}

abbrev pub Listed : Place → Waits → Type 0
Listed at_idle w = Over w
Listed at_wait w = Lasts w
Listed at_after w = Over w
Listed nowhere w = ⊥

-- Any wait may end.
abbrev Anytime : Waits → Type 0
Anytime w = Unit

heard : (k : Place) (env : UeventEnv) (w : Waits) → Listed k w → Listed k (hear env w)
heard at_idle env w h = hear-Over env w h
heard at_wait env w h = hear-Lasts env w h
heard at_after env w h = hear-Over env w h
heard nowhere env w h = h

finished : (k : Place) (id : ℕ) (w : Waits) → Listed k w → Listed k (finish_switch id w)
finished at_idle id w h = finish_switch-Over id w h
finished at_wait id w h = finish_switch-Lasts id w h
finished at_after id w h = finish_switch-Over id w h
finished nowhere id w h = h

pub Listed-Kept : Kept Listed Anytime
Listed-Kept = record {
  starts = start_waits-Over;
  begins = start_wait-Lasts;
  set_in_time = λ w e. tt;
  ends = λ w t h. finish_wait-Over w h;
  skips = λ w h. h;
  disabled = disable_waits-Over;
  nowhere_is = λ w h. h;
  heard = λ k env w e h. heard k env w h;
  finished = λ k id w e h. finished k id w h;
}

anytime : {s : Daemon} (r : Reach s) → InTimeAll Anytime r
anytime (booted strategy adapter entries) = tt
anytime (later {s} c r e) = (anytime r, meets c)
  where
    meets : (c : Choice) → MeetsTime Anytime c s
    meets (main_turn ok) = tt
    meets (proxy_turn ok) = λ _. tt
    meets retry_turn = tt
    meets a_command = tt
    meets (an_event env) = tt
    meets monitor_turn = tt
    meets (bus_error caller) = tt

pub Reach-Listed : {s : Daemon} → Reach s → InPhase Listed s
Reach-Listed r = Reach-In Listed Anytime Listed-Kept r (anytime r)
