-- ===== src/Proxy/Forward/Signals/Rank.antt =====
-- How far the threads and `handleClient` are from the last join, once `should_exit` is set.
use wireless_android_auto_do.Prelude.{
  ℕ, ◌+◌, ◌≤◌, ◌-◌, ◌≡◌, ◌⊎◌, refl, arith, Bool, true, false, Option, none, some, if◌then◌else◌,
}
use wireless_android_auto_do.Proxy.Forward.{
  ProxyDirection, tcp_to_usb, usb_to_tcp, Pc, at_test, at_read, after_read, at_write, after_write,
  at_stop, finished, World, step_at, step, stop_forwarding, turn,
}
use wireless_android_auto_do.Proxy.Forward.Signals.{
  JoinPc, join_usb_tcp, reset_usb_tcp, join_tcp_usb, reset_tcp_usb, joined, Live, is_finished,
  thread_at, stop, kill, interrupt, handler_at, Event, thread_turn, call_returns, between_reads,
  handler_turn, live_step,
}
use wireless_android_auto_do.Proxy.Forward.Signals.Invariant.{live_at}

-- The steps that a thread still needs, by whether it is inside its call.
abbrev need : Pc → Bool → ℕ
need at_read true = 3
need at_write true = 3
need at_read false = 4
need at_write false = 4
need at_stop _ = 1
need finished _ = 0
need _ _ = 2

abbrev to_join : JoinPc → ℕ
to_join join_usb_tcp = 4
to_join reset_usb_tcp = 3
to_join join_tcp_usb = 2
to_join reset_tcp_usb = 1
to_join joined = 0

abbrev pub rank : Live → ℕ
rank l =
    need l.world.tcp_usb.pc l.in_tcp_usb
    + (need l.world.usb_tcp.pc l.in_usb_tcp + to_join l.handler)

-- the step that takes a thread on
abbrev toward : ProxyDirection → Pc → Bool → Event
toward d at_read true = call_returns d
toward d at_write true = call_returns d
toward d _ _ = thread_turn d

-- A step that is sure to take the three on.
abbrev pub helpful : Live → Event
helpful l =
    if is_finished l.world.tcp_usb.pc
    then if is_finished l.world.usb_tcp.pc
      then handler_turn
      else toward usb_to_tcp l.world.usb_tcp.pc l.in_usb_tcp
    else toward tcp_to_usb l.world.tcp_usb.pc l.in_tcp_usb

abbrev pub gives : Event → Event → Bool
gives (thread_turn tcp_to_usb) (thread_turn tcp_to_usb) = true
gives (thread_turn usb_to_tcp) (thread_turn usb_to_tcp) = true
gives (call_returns tcp_to_usb) (call_returns tcp_to_usb) = true
gives (call_returns usb_to_tcp) (call_returns usb_to_tcp) = true
gives between_reads between_reads = true
gives handler_turn handler_turn = true
gives _ _ = false

-- The rank goes down, or the step is not the helpful one and changes nothing of this.
abbrev pub Moves : ℕ → Event → Event → Option Live → Type 0
Moves n e h none = Unit
Moves n e h (some l) =
    (l.world.shared.should_exit ≡ true)
    × ((rank l ≤ n - 1) ⊎ ((rank l ≡ n) × (helpful l ≡ h) × (gives h e ≡ false)))

tcp_stop-Moves :
    (q : Pc) (i j : Bool) (h : JoinPc) (w : World)
    → let l = live_at at_stop q i j h w in
      Moves (rank l) (thread_turn tcp_to_usb) (helpful l) (thread_at at_stop tcp_to_usb l)
unfolding thread_at stop kill interrupt turn step step_at stop_forwarding
tcp_stop-Moves at_test i j h w = ground arith
tcp_stop-Moves at_read i j h w = ground arith
tcp_stop-Moves after_read i j h w = ground arith
tcp_stop-Moves at_write i j h w = ground arith
tcp_stop-Moves after_write i j h w = ground arith
tcp_stop-Moves at_stop i j h w = ground arith
tcp_stop-Moves finished i j h w = ground arith

usb_stop-Moves :
    (p : Pc) (i j : Bool) (h : JoinPc) (w : World)
    → let l = live_at p at_stop i j h w in
      Moves (rank l) (thread_turn usb_to_tcp) (helpful l) (thread_at at_stop usb_to_tcp l)
unfolding thread_at stop kill interrupt turn step step_at stop_forwarding
usb_stop-Moves at_test i j h w = ground arith
usb_stop-Moves at_read i j h w = ground arith
usb_stop-Moves after_read i j h w = ground arith
usb_stop-Moves at_write i j h w = ground arith
usb_stop-Moves after_write i j h w = ground arith
usb_stop-Moves at_stop i j h w = ground arith
usb_stop-Moves finished i j h w = ground arith

tcp_turn-Moves :
    (p q : Pc) (i j : Bool) (h : JoinPc) (w : World)
    → w.shared.should_exit ≡ true
    → let l = live_at p q i j h w in
      Moves (rank l) (thread_turn tcp_to_usb) (helpful l) (thread_at p tcp_to_usb l)
unfolding thread_at turn step step_at
tcp_turn-Moves at_test q i j h w x = ground arith
tcp_turn-Moves at_read q i j h w x = ground arith
tcp_turn-Moves after_read q i j h w x = ground arith
tcp_turn-Moves at_write q i j h w x = ground arith
tcp_turn-Moves after_write q i j h w x = ground arith
tcp_turn-Moves at_stop q i j h w x = tcp_stop-Moves q i j h w
tcp_turn-Moves finished q i j h w x = ground arith

usb_turn-Moves :
    (p q : Pc) (i j : Bool) (h : JoinPc) (w : World)
    → w.shared.should_exit ≡ true
    → let l = live_at p q i j h w in
      Moves (rank l) (thread_turn usb_to_tcp) (helpful l) (thread_at q usb_to_tcp l)
unfolding thread_at turn step step_at
usb_turn-Moves p at_test i j h w x = ground arith
usb_turn-Moves p at_read i j h w x = ground arith
usb_turn-Moves p after_read i j h w x = ground arith
usb_turn-Moves p at_write i j h w x = ground arith
usb_turn-Moves p after_write i j h w x = ground arith
usb_turn-Moves p at_stop i j h w x = usb_stop-Moves p i j h w
usb_turn-Moves p finished i j h w x = ground arith

tcp_return-Moves :
    (p q : Pc) (i j : Bool) (h : JoinPc) (w : World)
    → w.shared.should_exit ≡ true
    → let l = live_at p q i j h w in
      Moves (rank l) (call_returns tcp_to_usb) (helpful l) (live_step (call_returns tcp_to_usb) l)
unfolding live_step turn step step_at stop_forwarding
tcp_return-Moves at_test q i j h w x = ground arith
tcp_return-Moves at_read q i j h w x = ground arith
tcp_return-Moves after_read q i j h w x = ground arith
tcp_return-Moves at_write q i j h w x = ground arith
tcp_return-Moves after_write q i j h w x = ground arith
tcp_return-Moves at_stop q i j h w x = ground arith
tcp_return-Moves finished q i j h w x = ground arith

usb_return-Moves :
    (p q : Pc) (i j : Bool) (h : JoinPc) (w : World)
    → w.shared.should_exit ≡ true
    → let l = live_at p q i j h w in
      Moves (rank l) (call_returns usb_to_tcp) (helpful l) (live_step (call_returns usb_to_tcp) l)
unfolding live_step turn step step_at stop_forwarding
usb_return-Moves p at_test i j h w x = ground arith
usb_return-Moves p at_read i j h w x = ground arith
usb_return-Moves p after_read i j h w x = ground arith
usb_return-Moves p at_write i j h w x = ground arith
usb_return-Moves p after_write i j h w x = ground arith
usb_return-Moves p at_stop i j h w x = ground arith
usb_return-Moves p finished i j h w x = ground arith

handler-Moves :
    (p q : Pc) (i j : Bool) (h : JoinPc) (w : World)
    → w.shared.should_exit ≡ true
    → let l = live_at p q i j h w in
      Moves (rank l) handler_turn (helpful l) (live_step handler_turn l)
unfolding live_step handler_at
handler-Moves p q i j join_usb_tcp w x = ground arith
handler-Moves p q i j reset_usb_tcp w x = ground arith
handler-Moves p q i j join_tcp_usb w x = ground arith
handler-Moves p q i j reset_tcp_usb w x = ground arith
handler-Moves p q i j joined w x = ground arith

-- Every step but a pause between two reads of a message.
abbrev pub wanted : Event → Bool
wanted between_reads = false
wanted _ = true

pub step-Moves :
    (e : Event) (l : Live)
    → wanted e ≡ true
    → l.world.shared.should_exit ≡ true
    → Moves (rank l) e (helpful l) (live_step e l)
unfolding live_step
step-Moves (thread_turn tcp_to_usb) l u x =
    tcp_turn-Moves l.world.tcp_usb.pc l.world.usb_tcp.pc l.in_tcp_usb l.in_usb_tcp l.handler l.world
      x
step-Moves (thread_turn usb_to_tcp) l u x =
    usb_turn-Moves l.world.tcp_usb.pc l.world.usb_tcp.pc l.in_tcp_usb l.in_usb_tcp l.handler l.world
      x
step-Moves (call_returns tcp_to_usb) l u x =
    tcp_return-Moves l.world.tcp_usb.pc l.world.usb_tcp.pc l.in_tcp_usb l.in_usb_tcp l.handler
      l.world x
step-Moves (call_returns usb_to_tcp) l u x =
    usb_return-Moves l.world.tcp_usb.pc l.world.usb_tcp.pc l.in_tcp_usb l.in_usb_tcp l.handler
      l.world x
step-Moves between_reads l u x = cc
step-Moves handler_turn l u x =
    handler-Moves l.world.tcp_usb.pc l.world.usb_tcp.pc l.in_tcp_usb l.in_usb_tcp l.handler l.world
      x

toward-wanted : (d : ProxyDirection) (p : Pc) (i : Bool) → wanted (toward d p i) ≡ true
toward-wanted d p i = ground arith

one_of :
    (a b : Bool) (e f : Event)
    → wanted e ≡ true
    → wanted f ≡ true
    → wanted (if a then if b then handler_turn else f else e) ≡ true
one_of true true e f h k = refl
one_of true false e f h k = k
one_of false b e f h k = h

pub helpful-wanted : (l : Live) → wanted (helpful l) ≡ true
helpful-wanted l =
    one_of (is_finished l.world.tcp_usb.pc) (is_finished l.world.usb_tcp.pc)
      (toward tcp_to_usb l.world.tcp_usb.pc l.in_tcp_usb)
      (toward usb_to_tcp l.world.usb_tcp.pc l.in_usb_tcp)
      (toward-wanted tcp_to_usb l.world.tcp_usb.pc l.in_tcp_usb)
      (toward-wanted usb_to_tcp l.world.usb_tcp.pc l.in_usb_tcp)

need_le : (p : Pc) (i : Bool) → need p i ≤ 4
need_le p i = ground arith

to_join_le : (h : JoinPc) → to_join h ≤ 4
to_join_le h = ground arith

pub rank_le : (l : Live) → rank l ≤ 12
rank_le l = omega (
  arith,
  need_le l.world.tcp_usb.pc l.in_tcp_usb,
  need_le l.world.usb_tcp.pc l.in_usb_tcp,
  to_join_le l.handler,
)

finished_lem : (p : Pc) (i : Bool) → need p i ≤ 0 → p ≡ finished
finished_lem p i h = ground arith

joined_lem : (h : JoinPc) → to_join h ≤ 0 → h ≡ joined
joined_lem h le = ground arith

pub rank-zero :
    (l : Live)
    → rank l ≤ 0
    → (l.handler ≡ joined) × (l.world.tcp_usb.pc ≡ finished) × (l.world.usb_tcp.pc ≡ finished)
rank-zero l le = (
  joined_lem l.handler (omega arith),
  finished_lem l.world.tcp_usb.pc l.in_tcp_usb (omega arith),
  finished_lem l.world.usb_tcp.pc l.in_usb_tcp (omega arith),
)
