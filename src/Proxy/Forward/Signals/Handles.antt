-- ===== src/Proxy/Forward/Signals/Handles.antt =====
-- When `stopForwarding` signals a thread that was joined.
use mathlib.Core.Path.{subst}
use wireless_android_auto_do.Prelude.{◌≡◌, ◌↔◌, refl, sym, arith, Bool, none, some}
use wireless_android_auto_do.Proxy.Forward.{
  tcp_to_usb, usb_to_tcp, Pc, at_test, at_read, after_read, at_write, after_write, at_stop,
  finished, World, step_at, step, stop_forwarding, turn,
}
use wireless_android_auto_do.Proxy.Forward.Signals.{
  JoinPc, reset_usb_tcp, Live, thread_at, stop, kill, interrupt, Event, thread_turn, call_returns,
  between_reads, handler_turn, live_step, Reached,
}
use wireless_android_auto_do.Proxy.Forward.Signals.Invariant.{IsLive, live_at, Reached-IsLive}

tcp_turn_undefined :
    (p q : Pc) (i j : Bool) (h : JoinPc) (w : World)
    → IsLive (live_at p q i j h w)
    → thread_at p tcp_to_usb (live_at p q i j h w) ≡ none
    → (p ≡ at_stop) × (h ≡ reset_usb_tcp)
unfolding thread_at stop kill interrupt turn step step_at stop_forwarding
tcp_turn_undefined at_test q i j h w v e = cc
tcp_turn_undefined at_read q i j h w v e = cc
tcp_turn_undefined after_read q i j h w v e = cc
tcp_turn_undefined at_write q i j h w v e = cc
tcp_turn_undefined after_write q i j h w v e = cc
tcp_turn_undefined at_stop q i j h w v e = ground (arith, v.joins)
tcp_turn_undefined finished q i j h w v e = cc

usb_turn_defined :
    (p q : Pc) (i j : Bool) (h : JoinPc) (w : World)
    → IsLive (live_at p q i j h w)
    → ¬ (thread_at q usb_to_tcp (live_at p q i j h w) ≡ none)
unfolding thread_at stop kill interrupt turn step step_at stop_forwarding
usb_turn_defined p at_test i j h w v e = cc
usb_turn_defined p at_read i j h w v e = cc
usb_turn_defined p after_read i j h w v e = cc
usb_turn_defined p at_write i j h w v e = cc
usb_turn_defined p after_write i j h w v e = cc
usb_turn_defined p at_stop i j h w v e = ground (arith, v.joins)
usb_turn_defined p finished i j h w v e = cc

tcp_stop_undefined :
    (q : Pc) (i j : Bool) (w : World)
    → IsLive (live_at at_stop q i j reset_usb_tcp w)
    → thread_at at_stop tcp_to_usb (live_at at_stop q i j reset_usb_tcp w) ≡ none
unfolding thread_at stop kill interrupt turn step step_at stop_forwarding
tcp_stop_undefined q i j w v = ground (arith, v.joins)

some_is_defined : (l : Live) → ¬ (some l ≡ none)
some_is_defined l e = cc

only_then :
    (e : Event) (l : Live)
    → IsLive l
    → live_step e l ≡ none
    → (e ≡ thread_turn tcp_to_usb) × (l.world.tcp_usb.pc ≡ at_stop) × (l.handler ≡ reset_usb_tcp)
unfolding live_step
only_then (thread_turn tcp_to_usb) l v n =
    let (p, h) =
      tcp_turn_undefined l.world.tcp_usb.pc l.world.usb_tcp.pc l.in_tcp_usb l.in_usb_tcp l.handler
        l.world v n in
    (refl, p, h)
only_then (thread_turn usb_to_tcp) l v n = absurd (
    usb_turn_defined l.world.tcp_usb.pc l.world.usb_tcp.pc l.in_tcp_usb l.in_usb_tcp l.handler
      l.world v n)
only_then (call_returns d) l v n = absurd (some_is_defined _ n)
only_then between_reads l v n = absurd (some_is_defined _ n)
only_then handler_turn l v n = absurd (some_is_defined _ n)

then_undefined :
    (l : Live)
    → IsLive l
    → l.world.tcp_usb.pc ≡ at_stop
    → l.handler ≡ reset_usb_tcp
    → live_step (thread_turn tcp_to_usb) l ≡ none
unfolding live_step
then_undefined l v p h =
    let State : Pc → JoinPc → Live =
      λ x y. live_at x l.world.usb_tcp.pc l.in_tcp_usb l.in_usb_tcp y l.world in
    let Goal : Pc → JoinPc → Type 0 =
      λ x y. IsLive (State x y) → thread_at x tcp_to_usb (State x y) ≡ none in
    subst (λ x. Goal x l.handler) (sym p)
      (subst (λ y. Goal at_stop y) (sym h)
        (tcp_stop_undefined l.world.usb_tcp.pc l.in_tcp_usb l.in_usb_tcp l.world))
      v

-- In every state that the two threads and `handleClient` come to, a step is undefined just if it is
-- the `stopForwarding` of the thread from TCP to USB while `handleClient` has joined the other
-- thread and not yet reset the variable that held it: `pthread_kill` is then called on a thread
-- that is gone. This is for a `stopForwarding` that runs whole, with no step of another thread
-- between its tests and its signals.
pub step_undefined :
    (e : Event) {l : Live}
    → Reached l
    → (live_step e l ≡ none) ↔ (
        (e ≡ thread_turn tcp_to_usb) × (l.world.tcp_usb.pc ≡ at_stop) × (l.handler ≡ reset_usb_tcp))
step_undefined e {l} r =
    let v = Reached-IsLive r in
    (
      only_then e l v,
      λ (same, p, h). subst (λ x. live_step x l ≡ none) (sym same) (then_undefined l v p h),
    )
