-- ===== src/Proxy/Forward/Signals/Invariant.antt =====
-- Where the threads and `handleClient` are together.
use wireless_android_auto_do.Prelude.{
  ◌≡◌, refl, arith, Bool, true, false, not, ◌&&◌, ◌||◌, Option, none, some,
}
use wireless_android_auto_do.Proxy.Forward.{
  tcp_to_usb, usb_to_tcp, Pc, at_test, at_read, after_read, at_write, after_write, at_stop,
  finished, World, step_at, step, stop_forwarding, turn,
}
use wireless_android_auto_do.Proxy.Forward.Signals.{
  JoinPc, join_usb_tcp, reset_usb_tcp, join_tcp_usb, reset_tcp_usb, joined, Live, is_call,
  is_finished, thread_at, stop, kill, interrupt, handler_at, pause, Event, thread_turn,
  call_returns, between_reads, handler_turn, live_step, Reached, begun, later, leave,
}

-- Which threads have ended, and which variables hold a value, where `handleClient` is there.
abbrev pub joins_ok : JoinPc → Bool → Bool → Bool → Bool → Bool
joins_ok join_usb_tcp tcp_ended usb_ended has_tcp has_usb = has_tcp && has_usb
joins_ok reset_usb_tcp tcp_ended usb_ended has_tcp has_usb = usb_ended && (has_tcp && has_usb)
joins_ok join_tcp_usb tcp_ended usb_ended has_tcp has_usb = usb_ended && (has_tcp && not has_usb)
joins_ok reset_tcp_usb tcp_ended usb_ended has_tcp has_usb =
    tcp_ended && (usb_ended && (has_tcp && not has_usb))
joins_ok joined tcp_ended usb_ended has_tcp has_usb =
    tcp_ended && (usb_ended && (not has_tcp && not has_usb))

-- A thread is inside a call only where it stands at one.
pub record IsLive (l : Live) : Type 0 where
  pub in_tcp_usb : (not l.in_tcp_usb || is_call l.world.tcp_usb.pc) ≡ true
  pub in_usb_tcp : (not l.in_usb_tcp || is_call l.world.usb_tcp.pc) ≡ true
  pub joins :
      joins_ok l.handler
        (is_finished l.world.tcp_usb.pc)
        (is_finished l.world.usb_tcp.pc)
        l.world.shared.tcp_usb_thread
        l.world.shared.usb_tcp_thread
      ≡ true

-- a state with its program counters in sight
abbrev pub live_at : Pc → Pc → Bool → Bool → JoinPc → World → Live
live_at p q i j h w = record {
  world = record w { tcp_usb = record w.tcp_usb { pc = p }; usb_tcp = record w.usb_tcp { pc = q } };
  in_tcp_usb = i;
  in_usb_tcp = j;
  handler = h;
}

abbrev pub After : (Live → Type 0) → Option Live → Type 0
After P none = Unit
After P (some l) = P l

tcp_turn-IsLive :
    (p q : Pc) (i j : Bool) (h : JoinPc) (w : World)
    → IsLive (live_at p q i j h w)
    → After IsLive (thread_at p tcp_to_usb (live_at p q i j h w))
unfolding thread_at stop kill interrupt turn step step_at stop_forwarding
tcp_turn-IsLive at_test q i j h w v = ground (arith, v.in_tcp_usb, v.in_usb_tcp, v.joins)
tcp_turn-IsLive at_read q i j h w v = ground (arith, v.in_tcp_usb, v.in_usb_tcp, v.joins)
tcp_turn-IsLive after_read q i j h w v = ground (arith, v.in_tcp_usb, v.in_usb_tcp, v.joins)
tcp_turn-IsLive at_write q i j h w v = ground (arith, v.in_tcp_usb, v.in_usb_tcp, v.joins)
tcp_turn-IsLive after_write q i j h w v = ground (arith, v.in_tcp_usb, v.in_usb_tcp, v.joins)
tcp_turn-IsLive at_stop q i j h w v = ground (arith, v.in_tcp_usb, v.in_usb_tcp, v.joins)
tcp_turn-IsLive finished q i j h w v = ground (arith, v.in_tcp_usb, v.in_usb_tcp, v.joins)

usb_turn-IsLive :
    (p q : Pc) (i j : Bool) (h : JoinPc) (w : World)
    → IsLive (live_at p q i j h w)
    → After IsLive (thread_at q usb_to_tcp (live_at p q i j h w))
unfolding thread_at stop kill interrupt turn step step_at stop_forwarding
usb_turn-IsLive p at_test i j h w v = ground (arith, v.in_tcp_usb, v.in_usb_tcp, v.joins)
usb_turn-IsLive p at_read i j h w v = ground (arith, v.in_tcp_usb, v.in_usb_tcp, v.joins)
usb_turn-IsLive p after_read i j h w v = ground (arith, v.in_tcp_usb, v.in_usb_tcp, v.joins)
usb_turn-IsLive p at_write i j h w v = ground (arith, v.in_tcp_usb, v.in_usb_tcp, v.joins)
usb_turn-IsLive p after_write i j h w v = ground (arith, v.in_tcp_usb, v.in_usb_tcp, v.joins)
usb_turn-IsLive p at_stop i j h w v = ground (arith, v.in_tcp_usb, v.in_usb_tcp, v.joins)
usb_turn-IsLive p finished i j h w v = ground (arith, v.in_tcp_usb, v.in_usb_tcp, v.joins)

tcp_leave-IsLive :
    (p q : Pc) (j : Bool) (h : JoinPc) (w : World)
    → IsLive (live_at p q true j h w)
    → IsLive (leave tcp_to_usb (live_at p q true j h w))
unfolding turn step step_at
tcp_leave-IsLive at_test q j h w v = cc
tcp_leave-IsLive at_read q j h w v = ground (arith, v.in_tcp_usb, v.in_usb_tcp, v.joins)
tcp_leave-IsLive after_read q j h w v = cc
tcp_leave-IsLive at_write q j h w v = ground (arith, v.in_tcp_usb, v.in_usb_tcp, v.joins)
tcp_leave-IsLive after_write q j h w v = cc
tcp_leave-IsLive at_stop q j h w v = cc
tcp_leave-IsLive finished q j h w v = cc

usb_leave-IsLive :
    (p q : Pc) (i : Bool) (h : JoinPc) (w : World)
    → IsLive (live_at p q i true h w)
    → IsLive (leave usb_to_tcp (live_at p q i true h w))
unfolding turn step step_at
usb_leave-IsLive p at_test i h w v = cc
usb_leave-IsLive p at_read i h w v = ground (arith, v.in_tcp_usb, v.in_usb_tcp, v.joins)
usb_leave-IsLive p after_read i h w v = cc
usb_leave-IsLive p at_write i h w v = ground (arith, v.in_tcp_usb, v.in_usb_tcp, v.joins)
usb_leave-IsLive p after_write i h w v = cc
usb_leave-IsLive p at_stop i h w v = cc
usb_leave-IsLive p finished i h w v = cc

tcp_returns-IsLive :
    (p q : Pc) (i j : Bool) (h : JoinPc) (w : World)
    → IsLive (live_at p q i j h w)
    → After IsLive (live_step (call_returns tcp_to_usb) (live_at p q i j h w))
unfolding live_step
tcp_returns-IsLive p q true j h w v = tcp_leave-IsLive p q j h w v
tcp_returns-IsLive p q false j h w v = v

usb_returns-IsLive :
    (p q : Pc) (i j : Bool) (h : JoinPc) (w : World)
    → IsLive (live_at p q i j h w)
    → After IsLive (live_step (call_returns usb_to_tcp) (live_at p q i j h w))
unfolding live_step
usb_returns-IsLive p q i true h w v = usb_leave-IsLive p q i h w v
usb_returns-IsLive p q i false h w v = v

pause-IsLive :
    (p q : Pc) (i j : Bool) (h : JoinPc) (w : World)
    → IsLive (live_at p q i j h w)
    → IsLive (pause p (live_at p q i j h w))
unfolding pause
pause-IsLive p q i j h w v = ground (arith, v.in_tcp_usb, v.in_usb_tcp, v.joins)

handler_at-IsLive :
    (p q : Pc) (i j : Bool) (h : JoinPc) (w : World)
    → IsLive (live_at p q i j h w)
    → IsLive (handler_at h (live_at p q i j h w))
unfolding handler_at
handler_at-IsLive p q i j join_usb_tcp w v = ground (arith, v.in_tcp_usb, v.in_usb_tcp, v.joins)
handler_at-IsLive p q i j reset_usb_tcp w v = ground (arith, v.in_tcp_usb, v.in_usb_tcp, v.joins)
handler_at-IsLive p q i j join_tcp_usb w v = ground (arith, v.in_tcp_usb, v.in_usb_tcp, v.joins)
handler_at-IsLive p q i j reset_tcp_usb w v = ground (arith, v.in_tcp_usb, v.in_usb_tcp, v.joins)
handler_at-IsLive p q i j joined w v = ground (arith, v.in_tcp_usb, v.in_usb_tcp, v.joins)

step-IsLive : (e : Event) (l : Live) → IsLive l → After IsLive (live_step e l)
unfolding live_step
step-IsLive (thread_turn tcp_to_usb) l v =
    tcp_turn-IsLive l.world.tcp_usb.pc l.world.usb_tcp.pc l.in_tcp_usb l.in_usb_tcp l.handler
      l.world v
step-IsLive (thread_turn usb_to_tcp) l v =
    usb_turn-IsLive l.world.tcp_usb.pc l.world.usb_tcp.pc l.in_tcp_usb l.in_usb_tcp l.handler
      l.world v
step-IsLive (call_returns tcp_to_usb) l v =
    tcp_returns-IsLive l.world.tcp_usb.pc l.world.usb_tcp.pc l.in_tcp_usb l.in_usb_tcp l.handler
      l.world v
step-IsLive (call_returns usb_to_tcp) l v =
    usb_returns-IsLive l.world.tcp_usb.pc l.world.usb_tcp.pc l.in_tcp_usb l.in_usb_tcp l.handler
      l.world v
step-IsLive between_reads l v =
    pause-IsLive l.world.tcp_usb.pc l.world.usb_tcp.pc l.in_tcp_usb l.in_usb_tcp l.handler l.world v
step-IsLive handler_turn l v =
    handler_at-IsLive l.world.tcp_usb.pc l.world.usb_tcp.pc l.in_tcp_usb l.in_usb_tcp l.handler
      l.world v

pub Reached-IsLive : {l : Live} → Reached l → IsLive l
Reached-IsLive (begun tcp usb usb_replies tcp_replies) = record {
  in_tcp_usb = refl;
  in_usb_tcp = refl;
  joins = refl;
}
Reached-IsLive (later {l} e r eq) = rw eq at (step-IsLive e l (Reached-IsLive r))
