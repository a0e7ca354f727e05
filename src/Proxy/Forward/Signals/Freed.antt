-- ===== src/Proxy/Forward/Signals/Freed.antt =====
-- A thread that is outside of a call once `should_exit` is set.
use wireless_android_auto_do.Prelude.{
  ℕ, ◌+◌, ◌≤◌, ◌-◌, ◌≡◌, arith, Bool, true, false, List, [], ◌∷◌, Option, none, some,
}
use wireless_android_auto_do.Proxy.Forward.{
  ProxyDirection, tcp_to_usb, usb_to_tcp, Pc, at_test, at_read, after_read, at_write, after_write,
  at_stop, finished, World, step_at, step, stop_forwarding, turn,
}
use wireless_android_auto_do.Proxy.Forward.Signals.{
  JoinPc, Live, thread, is_call, thread_at, stop, kill, interrupt, handler_at, pause, Event,
  thread_turn, call_returns, between_reads, handler_turn, live_step, live_run, then_live,
}
use wireless_android_auto_do.Proxy.Forward.Signals.Invariant.{live_at}

-- The turns that a thread outside of a call still needs, once `should_exit` is set.
abbrev left : Pc → ℕ
left at_test = 2
left after_read = 2
left after_write = 2
left at_stop = 1
left _ = 0

abbrev one_if : Bool → ℕ
one_if true = 1
one_if false = 0

abbrev is_own : ProxyDirection → Event → Bool
is_own tcp_to_usb (thread_turn tcp_to_usb) = true
is_own usb_to_tcp (thread_turn usb_to_tcp) = true
is_own d e = false

-- How many turns of its own a thread has.
abbrev pub own_turns : ProxyDirection → List Event → ℕ
own_turns d [] = 0
own_turns d (e ∷ es) = one_if (is_own d e) + own_turns d es

-- The thread is outside of a call and is to stop, with so many turns left; or the program has
-- come to what is undefined.
abbrev pub Leaves : ProxyDirection → ℕ → Option Live → Type 0
Leaves d n none = Unit
Leaves d n (some l) =
    (is_call (thread d l.world).pc ≡ false)
    × (l.world.shared.should_exit ≡ true)
    × (left (thread d l.world).pc ≤ n)

tcp_own-Leaves :
    (p q : Pc) (i j : Bool) (h : JoinPc) (w : World)
    → w.shared.should_exit ≡ true
    → is_call p ≡ false
    → Leaves tcp_to_usb (left p - 1) (thread_at p tcp_to_usb (live_at p q i j h w))
unfolding thread_at stop kill interrupt turn step step_at stop_forwarding
tcp_own-Leaves at_test q i j h w x c = ground arith
tcp_own-Leaves at_read q i j h w x c = cc
tcp_own-Leaves after_read q i j h w x c = ground arith
tcp_own-Leaves at_write q i j h w x c = cc
tcp_own-Leaves after_write q i j h w x c = ground arith
tcp_own-Leaves at_stop q i j h w x c = ground arith
tcp_own-Leaves finished q i j h w x c = ground arith

tcp_other-Leaves :
    (p q : Pc) (i j : Bool) (h : JoinPc) (w : World)
    → w.shared.should_exit ≡ true
    → is_call p ≡ false
    → Leaves tcp_to_usb (left p - 0) (thread_at q usb_to_tcp (live_at p q i j h w))
unfolding thread_at stop kill interrupt turn step step_at stop_forwarding
tcp_other-Leaves p at_test i j h w x c = ground arith
tcp_other-Leaves p at_read i j h w x c = ground arith
tcp_other-Leaves p after_read i j h w x c = ground arith
tcp_other-Leaves p at_write i j h w x c = ground arith
tcp_other-Leaves p after_write i j h w x c = ground arith
tcp_other-Leaves p at_stop i j h w x c = ground arith
tcp_other-Leaves p finished i j h w x c = ground arith

usb_own-Leaves :
    (p q : Pc) (i j : Bool) (h : JoinPc) (w : World)
    → w.shared.should_exit ≡ true
    → is_call q ≡ false
    → Leaves usb_to_tcp (left q - 1) (thread_at q usb_to_tcp (live_at p q i j h w))
unfolding thread_at stop kill interrupt turn step step_at stop_forwarding
usb_own-Leaves p at_test i j h w x c = ground arith
usb_own-Leaves p at_read i j h w x c = cc
usb_own-Leaves p after_read i j h w x c = ground arith
usb_own-Leaves p at_write i j h w x c = cc
usb_own-Leaves p after_write i j h w x c = ground arith
usb_own-Leaves p at_stop i j h w x c = ground arith
usb_own-Leaves p finished i j h w x c = ground arith

usb_other-Leaves :
    (p q : Pc) (i j : Bool) (h : JoinPc) (w : World)
    → w.shared.should_exit ≡ true
    → is_call q ≡ false
    → Leaves usb_to_tcp (left q - 0) (thread_at p tcp_to_usb (live_at p q i j h w))
unfolding thread_at stop kill interrupt turn step step_at stop_forwarding
usb_other-Leaves at_test q i j h w x c = ground arith
usb_other-Leaves at_read q i j h w x c = ground arith
usb_other-Leaves after_read q i j h w x c = ground arith
usb_other-Leaves at_write q i j h w x c = ground arith
usb_other-Leaves after_write q i j h w x c = ground arith
usb_other-Leaves at_stop q i j h w x c = ground arith
usb_other-Leaves finished q i j h w x c = ground arith

tcp_step-Leaves :
    (e : Event) (p q : Pc) (i j : Bool) (h : JoinPc) (w : World)
    → w.shared.should_exit ≡ true
    → is_call p ≡ false
    → Leaves tcp_to_usb (left p - one_if (is_own tcp_to_usb e)) (live_step e (live_at p q i j h w))
unfolding live_step turn step step_at stop_forwarding pause handler_at
tcp_step-Leaves (thread_turn tcp_to_usb) p q i j h w x c = tcp_own-Leaves p q i j h w x c
tcp_step-Leaves (thread_turn usb_to_tcp) p q i j h w x c = tcp_other-Leaves p q i j h w x c
tcp_step-Leaves (call_returns tcp_to_usb) p q i j h w x c = ground arith
tcp_step-Leaves (call_returns usb_to_tcp) p q i j h w x c = ground arith
tcp_step-Leaves between_reads p q i j h w x c = ground arith
tcp_step-Leaves handler_turn p q i j h w x c = ground arith

usb_step-Leaves :
    (e : Event) (p q : Pc) (i j : Bool) (h : JoinPc) (w : World)
    → w.shared.should_exit ≡ true
    → is_call q ≡ false
    → Leaves usb_to_tcp (left q - one_if (is_own usb_to_tcp e)) (live_step e (live_at p q i j h w))
unfolding live_step turn step step_at stop_forwarding pause handler_at
usb_step-Leaves (thread_turn tcp_to_usb) p q i j h w x c = usb_other-Leaves p q i j h w x c
usb_step-Leaves (thread_turn usb_to_tcp) p q i j h w x c = usb_own-Leaves p q i j h w x c
usb_step-Leaves (call_returns tcp_to_usb) p q i j h w x c = ground arith
usb_step-Leaves (call_returns usb_to_tcp) p q i j h w x c = ground arith
usb_step-Leaves between_reads p q i j h w x c = ground arith
usb_step-Leaves handler_turn p q i j h w x c = ground arith

step-Leaves :
    (d : ProxyDirection) (e : Event) (l : Live)
    → l.world.shared.should_exit ≡ true
    → is_call (thread d l.world).pc ≡ false
    → Leaves d (left (thread d l.world).pc - one_if (is_own d e)) (live_step e l)
step-Leaves tcp_to_usb e l x c =
    tcp_step-Leaves e l.world.tcp_usb.pc l.world.usb_tcp.pc l.in_tcp_usb l.in_usb_tcp l.handler
      l.world x c
step-Leaves usb_to_tcp e l x c =
    usb_step-Leaves e l.world.tcp_usb.pc l.world.usb_tcp.pc l.in_tcp_usb l.in_usb_tcp l.handler
      l.world x c

-- The thread has returned; or the program has come to what is undefined.
abbrev pub Ends : ProxyDirection → Option Live → Type 0
Ends d none = Unit
Ends d (some l) = (thread d l.world).pc ≡ finished

ended : (p : Pc) → is_call p ≡ false → left p ≤ 0 → p ≡ finished
ended p c h = ground arith

pub run-Ends :
    (d : ProxyDirection) (es : List Event) (o : Option Live) (n : ℕ)
    → Leaves d n o
    → n ≤ own_turns d es
    → Ends d (then_live o (λ l. live_run es l))
unfolding live_run
run-Ends d es none n v le = tt
run-Ends d [] (some l) n v le = ended (thread d l.world).pc v.0 (omega (arith, v.2))
run-Ends d (e ∷ es) (some l) n v le =
    run-Ends d es (live_step e l) (left (thread d l.world).pc - one_if (is_own d e))
      (step-Leaves d e l v.1 v.0) (omega (arith, v.2))
