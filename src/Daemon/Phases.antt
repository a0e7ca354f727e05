-- ===== src/Daemon/Phases.antt =====
-- What the threads of the daemon keep of a property of the places.
use mathlib.Core.Path.{subst}
use wireless_android_auto_do.Prelude.{
  ◌≡◌, arith, Bool, true, false, ◌||◌, List, Option, if◌then◌else◌, none, some, ℕ, not, refl,
}
use wireless_android_auto_do.Text.{Bytes}
use wireless_android_auto_do.Uevent.{UeventEnv}
use wireless_android_auto_do.Usb.Waits.{Waits, start_wait, finish_wait}
use wireless_android_auto_do.Bluetooth.{Promise, set_value}
use wireless_android_auto_do.Config.{ConnectionStrategy}
use wireless_android_auto_do.Daemon.{
  bus_error, calls_bus, MainPc, at_top, usb_wait, start_server, power_on, connect, join_proxy,
  stop_retry, join_retry, disable, ProxyPc, no_proxy, accepting, stop_bluetooth, begin,
  accessory_wait, opening, forwarding, returned, RetryPc, no_thread, connecting, testing,
  powering_off, ended, Daemon, is_usb_first, boot, main_at, proxy_at, retry_at, command, monitor_at,
  Choice, main_turn, proxy_turn, retry_turn, a_command, an_event, monitor_turn, step, Reach, booted,
  later,
}
use wireless_android_auto_do.Daemon.Run.{
  throws_lem, Ordered, Into, at, is_none, proxy_ok, Reach-Ordered,
}
use wireless_android_auto_do.Daemon.Places.{
  none_of, returned_of, if_lem, with_value_lem, Place, at_idle, place, Kept,
}

-- The state is where the program counters say.
abbrev pub InPhase : (Place → Waits → Type 0) → Daemon → Type 0
InPhase P s = P (place s.proxy (is_usb_first s.strategy) s.main) s.usb

-- A wait of the proxy ends only where `InTime` holds: in a step, and in all steps.
abbrev pub MeetsTime : (Waits → Type 0) → Choice → Daemon → Type 0
MeetsTime InTime (proxy_turn ok) s = s.proxy ≡ accessory_wait → InTime s.usb
MeetsTime InTime _ s = Unit

abbrev pub InTimeAll : (Waits → Type 0) → {s : Daemon} → Reach s → Type 0
InTimeAll InTime (booted strategy adapter entries) = Unit
InTimeAll InTime (later {s} c r e) = InTimeAll InTime r × MeetsTime InTime c s

place_moves :
    (p : ProxyPc) (f : Bool) (m n : MainPc) → not (is_none p) ≡ true → place p f m ≡ place p f n
place_moves no_proxy f m n e = cc
place_moves accepting true m n e = refl
place_moves accepting false m n e = refl
place_moves stop_bluetooth true m n e = refl
place_moves stop_bluetooth false m n e = refl
place_moves begin true m n e = refl
place_moves begin false m n e = refl
place_moves accessory_wait true m n e = refl
place_moves accessory_wait false m n e = refl
place_moves opening f m n e = refl
place_moves forwarding f m n e = refl
place_moves returned f m n e = refl

module _ (P : Place → Waits → Type 0) (InTime : Waits → Type 0) (kept : Kept P InTime) where
  abbrev In : Daemon → Type 0
  In = InPhase P

  moves :
      (p : ProxyPc) (f : Bool) (m n : MainPc) (w : Waits)
      → not (is_none p) ≡ true
      → P (place p f m) w
      → P (place p f n) w
  moves p f m n w e h = subst (λ k. P k w) (place_moves p f m n e) h

  -- the head of the loop, the end of a wait there, and the start of the proxy
  top_yes :
      (f : Bool) (w : Waits) → f ≡ true → P at_idle w → P (place no_proxy f usb_wait) (start_wait w)
  top_yes true w e h = kept.begins w h
  top_yes false w e h = cc

  top_no : (f : Bool) (w : Waits) → f ≡ false → P at_idle w → P (place no_proxy f start_server) w
  top_no true w e h = cc
  top_no false w e h = h

  wait_ends :
      (f : Bool) (w : Waits)
      → w.manager.promise_set ≡ true
      → P (place no_proxy f usb_wait) w
      → P (place no_proxy f start_server) (finish_wait w).1
  wait_ends true w e h = kept.ends w (kept.set_in_time w e) h
  wait_ends false w e h = absurd (kept.nowhere_is w h)

  server_starts :
      (f : Bool) (m : MainPc) (w : Waits)
      → P (place no_proxy f start_server) w
      → P (place accepting f m) w
  server_starts true m w h = h
  server_starts false m w h = h

  -- What a step of `main` keeps, as a property of the place of the proxy.
  abbrev MainStep : MainPc → RetryPc → Promise → Bool → Daemon → ProxyPc → Type 0
  MainStep m r q ok s p = In (at m p r q s) → Into In (main_at m r p ok (at m p r q s))

  main_at-In :
      (m : MainPc) (p : ProxyPc) (r : RetryPc) (q : Promise) (ok : Bool) (s : Daemon)
      → proxy_ok m p ≡ true
      → MainStep m r q ok s p
  unfolding main_at set_value
  main_at-In at_top p r q ok s e = none_of (MainStep at_top r q ok s) p e (λ h.
      if_lem In (is_usb_first s.strategy) _ _ (λ f. top_yes _ s.usb f h) (λ f. top_no _ s.usb f h))
  main_at-In usb_wait p r q ok s e =
      none_of (MainStep usb_wait r q ok s) p e
        (λ h. if_lem In s.usb.manager.promise_set _ _ (λ e'. wait_ends _ s.usb e' h) (λ _. tt))
  main_at-In start_server p r q ok s e =
      none_of (MainStep start_server r q ok s) p e
        (λ h. if_lem In ok _ _ (λ _. server_starts _ power_on s.usb h) (λ _. tt))
  main_at-In power_on p r q ok s e = λ h. moves p _ power_on connect s.usb e h
  main_at-In connect p r q ok s e = λ h.
      let moved = moves p _ connect join_proxy s.usb e h in
      if_lem In s.adapter _ _ (λ _. moved) (λ _. moved)
  main_at-In join_proxy p r q ok s e = ground arith
  main_at-In stop_retry p r q ok s e =
      returned_of (MainStep stop_retry r q ok s) p e
        (λ h. with_value_lem In (set_value q) _ (λ _. h))
  main_at-In join_retry p r q ok s e =
      returned_of (MainStep join_retry r q ok s) p e (λ h. ground arith)
  main_at-In disable p r q ok s e =
      returned_of (MainStep disable r q ok s) p e (λ h. kept.disabled s.usb h)

  begin_of :
      (f : Bool) (m : MainPc) (w : Waits)
      → P (place begin f m) w
      → P (place accessory_wait f m) (start_wait w)
  begin_of true m w h = absurd (kept.nowhere_is w h)
  begin_of false m w h = kept.begins w h

  -- the two ends of `accept`, the choice behind `stopConnectWithRetry`, and the end of the wait
  accepts :
      (f ok : Bool) (m : MainPc) (w : Waits)
      → P (place accepting f m) w
      → P (place (if ok then stop_bluetooth else returned) f m) w
  accepts true true m w h = h
  accepts false true m w h = h
  accepts true false m w h = h
  accepts false false m w h = kept.skips w h

  chooses :
      (f : Bool) (m : MainPc) (w : Waits)
      → P (place stop_bluetooth f m) w
      → P (place (if f then opening else begin) f m) w
  chooses true m w h = h
  chooses false m w h = h

  opens :
      (f b : Bool) (m : MainPc) (w : Waits)
      → InTime w
      → P (place accessory_wait f m) w
      → P (place (if b then opening else returned) f m) (finish_wait w).1
  opens true b m w t h = absurd (kept.nowhere_is w h)
  opens false true m w t h = kept.ends w t h
  opens false false m w t h = kept.ends w t h

  proxy_at-In :
      (p : ProxyPc) (ok : Bool) (m : MainPc) (r : RetryPc) (q : Promise) (s : Daemon)
      → (p ≡ accessory_wait → InTime s.usb)
      → In (at m p r q s)
      → Into In (proxy_at p ok (at m p r q s))
  unfolding proxy_at set_value
  proxy_at-In no_proxy ok m r q s t h = tt
  proxy_at-In accepting ok m r q s t h = accepts _ ok m s.usb h
  proxy_at-In stop_bluetooth ok m r q s t h =
      with_value_lem In (set_value q) _ (λ _. chooses (is_usb_first s.strategy) m s.usb h)
  proxy_at-In begin ok m r q s t h = begin_of _ m s.usb h
  proxy_at-In accessory_wait ok m r q s t h =
      if_lem In (s.usb.manager.promise_set || ok) _ _
        (λ _. opens _ (finish_wait s.usb).0 m s.usb (t refl) h) (λ _. tt)
  proxy_at-In opening true m r q s t h = h
  proxy_at-In opening false m r q s t h = h
  proxy_at-In forwarding ok m r q s t h = h
  proxy_at-In returned ok m r q s t h = tt

  retry_at-In : (r : RetryPc) (s : Daemon) → In s → Into In (retry_at r s)
  unfolding retry_at
  retry_at-In no_thread s h = tt
  retry_at-In connecting s h = h
  retry_at-In testing s h = ground arith
  retry_at-In powering_off s h = h
  retry_at-In ended s h = tt

  monitor_at-In :
      (busy : Option ℕ) (event : Option UeventEnv) (s : Daemon)
      → s.usb.switching ≡ busy
      → In s
      → Into In (monitor_at busy event s)
  unfolding monitor_at
  monitor_at-In none (some env) s e h = kept.heard _ env s.usb e h
  monitor_at-In none none s e h = tt
  monitor_at-In (some id) (some env) s e h = tt
  monitor_at-In (some id) none s e h = kept.finished _ id s.usb e h

  step-In : (c : Choice) (s : Daemon) → Ordered s → MeetsTime InTime c s → In s → Into In (step c s)
  unfolding step command set_value
  step-In (main_turn ok) s o t h = main_at-In s.main s.proxy s.retry s.promise ok s o.proxy h
  step-In (proxy_turn ok) s o t h = proxy_at-In s.proxy ok s.main s.retry s.promise s t h
  step-In retry_turn s o t h = retry_at-In s.retry s h
  step-In a_command s o t h = with_value_lem In (set_value s.promise) _ (λ _. h)
  step-In (an_event env) s o t h = monitor_at-In s.usb.switching (some env) s refl h
  step-In monitor_turn s o t h = monitor_at-In s.usb.switching none s refl h
  step-In (bus_error caller) s o t h = throws_lem In (calls_bus caller s)

  boot-In :
      (strategy : ConnectionStrategy) (adapter : Bool) (entries : Option (List Bytes))
      → In (boot strategy adapter entries)
  unfolding boot
  boot-In strategy adapter entries = kept.starts entries

  pub Reach-In : {s : Daemon} (r : Reach s) → InTimeAll InTime r → In s
  Reach-In (booted strategy adapter entries) t = boot-In strategy adapter entries
  Reach-In (later {s} c r e) t = rw e at (step-In c s (Reach-Ordered r) t.1 (Reach-In r t.0))
