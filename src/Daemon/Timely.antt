-- ===== src/Daemon/Timely.antt =====
-- The gadgets under the threads of the daemon, where no wait runs out of its time while its handler
-- switches the gadgets.
use mathlib.Core.Path.{subst}
use wireless_android_auto_do.Prelude.{
  ℕ, ◌≡◌, refl, ◌⊎◌, inl, inr, Bool, true, false, ◌&&◌, List, [], ◌∷◌, ◌++◌, Option, some, none,
  if◌then◌else◌,
}
use wireless_android_auto_do.Text.{Bytes}
use wireless_android_auto_do.Uevent.{UeventEnv}
use wireless_android_auto_do.Usb.{
  default_gadget, accessory_gadget, begin_wait, end_wait, disable_one, enable_gadget,
  write_gadget_file,
}
use wireless_android_auto_do.Usb.Gadgets.{bound, NeverBoth}
use wireless_android_auto_do.Usb.Sessions.{
  Phase, idle, waiting, switching, accessory, Reached, started, waits, switches, switched, returns,
  times_out, skips, disables, Reached-NeverBoth, Reached-Keeps,
}
use wireless_android_auto_do.Usb.Waits.{
  Waits, is_start, called, hear, finish_switch, start_waits, start_wait, finish_wait, disable_waits,
}
use wireless_android_auto_do.Usb.Waits.Loop.{thin, is_even}
use wireless_android_auto_do.Usb.Waits.Present.{
  Lasts, earlier-AllDead, hear_dead, hear_over, hear_alive,
}
use wireless_android_auto_do.Usb.Waits.Switched.{finish_switch_present}
use wireless_android_auto_do.Daemon.{ProxyPc, at_top, Daemon, is_usb_first, Reach}
use wireless_android_auto_do.Daemon.Run.{is_none, proxy_ok, Reach-Ordered}
use wireless_android_auto_do.Daemon.Places.{
  none_of, Place, at_idle, at_wait, at_after, nowhere, place, Kept,
}
use wireless_android_auto_do.Daemon.Phases.{InTimeAll, Reach-In}
use wireless_android_auto_do.Daemon.UsbFirst.{usb_first-InTimeAll}
use wireless_android_auto_do.Config.{usb_first}
use wireless_android_auto_do.Daemon.Listening.{Listed, Listed-Kept}

-- A wait ends with its value, or while no handler switches the gadgets.
abbrev pub InTime : Waits → Type 0
InTime w = (w.manager.promise_set ≡ true) ⊎ (w.switching ≡ none)

-- The gadgets in a wait: the default one is bound, its handler switches, or has switched.
abbrev Switches : Waits → Type 0
Switches w =
    (Reached waiting w.manager × (w.manager.promise_set ≡ false) × (w.switching ≡ none))
    ⊎ ((Reached switching w.manager × (w.manager.promise_set ≡ false) × (w.switching ≡ some w.wait))
        ⊎ (Reached accessory w.manager × (w.manager.promise_set ≡ true) × (w.switching ≡ none)))

abbrev pub Bound : Place → Waits → Type 0
Bound at_idle w = Reached idle w.manager × (w.switching ≡ none)
Bound at_wait w = Switches w
Bound at_after w = Reached accessory w.manager × (w.switching ≡ none)
Bound nowhere w = ⊥

abbrev pub InGadgets : Place → Waits → Type 0
InGadgets k w = Listed k w × Bound k w

begins : (w : Waits) → Bound at_idle w → Bound at_wait (start_wait w)
unfolding start_wait begin_wait enable_gadget write_gadget_file
begins w h = inl (waits [] h.0, refl, h.1)

ends : (w : Waits) → InTime w → Bound at_wait w → Bound at_after (finish_wait w).1
unfolding finish_wait end_wait
ends w t (inl h) = (times_out h.0, h.2)
ends w (inl t) (inr (inl h)) = cc
ends w (inr t) (inr (inl h)) = cc
ends w t (inr (inr h)) = (returns h.0, h.2)

disabled : (w : Waits) → Bound at_after w → Bound at_idle (disable_waits w)
unfolding disable_waits
disabled w h = (disables h.0, h.1)

called-Switches :
    (b : Bool) (ids : List ℕ) (w : Waits)
    → Reached waiting w.manager
    → w.manager.promise_set ≡ false
    → Switches (called (ids, if b then some w.wait else none) w)
unfolding disable_one write_gadget_file
called-Switches true ids w h e = inr (inl (switches h, e, refl))
called-Switches false ids w h e = inl (h, e, refl)

-- An event in a wait; `switching` is not set before it.
hear-Switches :
    (env : UeventEnv) (w : Waits)
    → w.switching ≡ none
    → Lasts w
    → Switches w
    → Switches (hear env w)
hear-Switches env w e v (inl h) = elim v.hears [
  | inl set ↦ cc
  | inr listens ↦
      let l = listens.1 in
      rw (hear_alive env w l.earlier v.held l.last l.lower) (
        called-Switches (is_start env && is_even l.earlier) (thin l.earlier ++ w.wait ∷ []) w h.0
          h.1)
]
hear-Switches env w e v (inr (inl h)) = cc
hear-Switches env w e v (inr (inr h)) = elim v.hears [
  | inl set ↦ rw (hear_dead env w (earlier-AllDead w w.handlers set.1)) (inr (inr (h.0, h.1, refl)))
  | inr listens ↦ cc
]

heard :
    (k : Place) (env : UeventEnv) (w : Waits)
    → w.switching ≡ none
    → Listed k w
    → Bound k w
    → Bound k (hear env w)
heard at_idle env w e v h = rw (hear_over env w v.gone) (h.0, refl)
heard at_wait env w e v h = hear-Switches env w e v h
heard at_after env w e v h = rw (hear_over env w v.gone) (h.0, refl)
heard nowhere env w e v h = h

some_same : (a b : ℕ) (o : Option ℕ) → o ≡ some a → o ≡ some b → b ≡ a
some_same a b o e f = cc

finish_switch-Switches :
    (w : Waits)
    → Lasts w
    → Reached switching w.manager
    → w.manager.promise_set ≡ false
    → Switches (finish_switch w.wait w)
finish_switch-Switches w v h e = elim v.hears [
  | inl set ↦ cc
  | inr listens ↦
      let l = listens.1 in
      rw (finish_switch_present w l.earlier v.held l.last l.lower)
        (inr (inr (switched h, refl, refl)))
]

finished :
    (k : Place) (id : ℕ) (w : Waits)
    → w.switching ≡ some id
    → Listed k w
    → Bound k w
    → Bound k (finish_switch id w)
finished at_idle id w e v h = cc
finished at_wait id w e v (inl h) = cc
finished at_wait id w e v (inr (inl h)) =
    subst (λ x. Switches (finish_switch x w)) (some_same id w.wait w.switching e h.2)
      (finish_switch-Switches w v h.0 h.1)
finished at_wait id w e v (inr (inr h)) = cc
finished at_after id w e v h = cc
finished nowhere id w e v h = h

started-Bound : (entries : Option (List Bytes)) → Bound at_idle (start_waits entries)
unfolding start_waits
started-Bound entries = (started entries, refl)

InGadgets-Kept : Kept InGadgets InTime
InGadgets-Kept =
    let listed = Listed-Kept in
    record {
      starts = λ entries. (listed.starts entries, started-Bound entries);
      begins = λ w h. (listed.begins w h.0, begins w h.1);
      set_in_time = λ w e. inl e;
      ends = λ w t h. (listed.ends w tt h.0, ends w t h.1);
      skips = λ w h. (h.0, (skips h.1.0, h.1.1));
      disabled = λ w h. (listed.disabled w h.0, disabled w h.1);
      nowhere_is = λ w h. h.0;
      heard = λ k env w e h. (listed.heard k env w e h.0, heard k env w e h.0 h.1);
      finished = λ k id w e h. (listed.finished k id w e h.0, finished k id w e h.0 h.1);
    }

in_place : (k : Place) (w : Waits) → Bound k w → (p : Phase) × Reached p w.manager
in_place at_idle w h = (idle, h.0)
in_place at_wait w (inl h) = (waiting, h.0)
in_place at_wait w (inr (inl h)) = (switching, h.0)
in_place at_wait w (inr (inr h)) = (accessory, h.0)
in_place at_after w h = (accessory, h.0)
in_place nowhere w h = absurd h

idle_at_top :
    (p : ProxyPc) (f : Bool) (w : Waits)
    → is_none p ≡ true
    → Bound (place p f at_top) w
    → Reached idle w.manager
idle_at_top p f w e =
    none_of (λ p. Bound (place p f at_top) w → Reached idle w.manager) p e (λ h. h.0)

in_time :
    {s : Daemon} (r : Reach s) → (s.strategy ≡ usb_first) ⊎ InTimeAll InTime r → InTimeAll InTime r
in_time r (inl e) = usb_first-InTimeAll InTime r e
in_time r (inr t) = t

-- In every state that the daemon reaches, where the car comes first, or where no wait of the proxy
-- has run out of its time between the two writes of its handler's switch, the default and the
-- accessory gadget were at no time bound together, and at the head of the loop neither is bound.
pub Reach-NeverBoth :
    {s : Daemon} (r : Reach s)
    → (s.strategy ≡ usb_first) ⊎ InTimeAll InTime r
    → NeverBoth s.usb.manager.writes
      × (s.main ≡ at_top
          → (bound default_gadget s.usb.manager.writes ≡ false)
            × (bound accessory_gadget s.usb.manager.writes ≡ false))
Reach-NeverBoth {s} r t =
    let inside = (Reach-In InGadgets InTime InGadgets-Kept r (in_time r t)).1 in
    (
      Reached-NeverBoth (in_place _ _ inside).1,
      λ e.
          let h = subst (λ m. Bound (place s.proxy (is_usb_first s.strategy) m) s.usb) e inside in
          let o = subst (λ m. proxy_ok m s.proxy ≡ true) e (Reach-Ordered r).proxy in
          let left = Reached-Keeps (idle_at_top s.proxy _ s.usb o h) in
          (left.default_is, left.accessory_is),
    )
