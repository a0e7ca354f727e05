-- ===== src/Proxy/Forward/Signals/Stops.antt =====
-- What the signal of `stopForwarding` does to the other thread, and what it may do to the program.
use mathlib.Core.Path.{subst}
use wireless_android_auto_do.Prelude.{
  ℕ, ◌≤◌, ◌<◌, ◌⊎◌, inl, inr, ◌≡◌, sym, arith, Bool, true, false, Bool-cases, List, ◌∷◌, Option,
}
use wireless_android_auto_do.Proxy.Forward.{
  ProxyDirection, tcp_to_usb, usb_to_tcp, Pc, at_test, at_read, after_read, at_write, after_write,
  at_stop, finished, World, step_at, step, stop_forwarding, turn,
}
use wireless_android_auto_do.Proxy.Forward.Signals.{
  JoinPc, Live, thread, is_call, thread_at, stop, kill, interrupt, Event, thread_turn, live_step,
  live_run, Reached, is_inside,
}
use wireless_android_auto_do.Proxy.Forward.Signals.Invariant.{IsLive, live_at, Reached-IsLive}
use wireless_android_auto_do.Proxy.Forward.Signals.Missed.{
  other, no_return, Stands, Alone, run-Stands,
}
use wireless_android_auto_do.Proxy.Forward.Signals.Freed.{own_turns, Leaves, Ends, run-Ends}

le_cases : (m n : ℕ) → (m ≤ n) ⊎ (n < m)
le_cases m n = ground arith

tcp_stop-Leaves :
    (q : Pc) (i : Bool) (h : JoinPc) (w : World)
    → IsLive (live_at at_stop q i true h w)
    → Leaves usb_to_tcp 2 (thread_at at_stop tcp_to_usb (live_at at_stop q i true h w))
unfolding thread_at stop kill interrupt turn step step_at stop_forwarding
tcp_stop-Leaves at_read i h w v = ground (arith, v.joins)
tcp_stop-Leaves at_write i h w v = ground (arith, v.joins)
tcp_stop-Leaves at_test i h w v = ground (arith, v.in_usb_tcp)
tcp_stop-Leaves after_read i h w v = ground (arith, v.in_usb_tcp)
tcp_stop-Leaves after_write i h w v = ground (arith, v.in_usb_tcp)
tcp_stop-Leaves at_stop i h w v = ground (arith, v.in_usb_tcp)
tcp_stop-Leaves finished i h w v = ground (arith, v.in_usb_tcp)

usb_stop-Leaves :
    (p : Pc) (j : Bool) (h : JoinPc) (w : World)
    → IsLive (live_at p at_stop true j h w)
    → Leaves tcp_to_usb 2 (thread_at at_stop usb_to_tcp (live_at p at_stop true j h w))
unfolding thread_at stop kill interrupt turn step step_at stop_forwarding
usb_stop-Leaves at_read j h w v = ground (arith, v.joins)
usb_stop-Leaves at_write j h w v = ground (arith, v.joins)
usb_stop-Leaves at_test j h w v = ground (arith, v.in_tcp_usb)
usb_stop-Leaves after_read j h w v = ground (arith, v.in_tcp_usb)
usb_stop-Leaves after_write j h w v = ground (arith, v.in_tcp_usb)
usb_stop-Leaves at_stop j h w v = ground (arith, v.in_tcp_usb)
usb_stop-Leaves finished j h w v = ground (arith, v.in_tcp_usb)

tcp_stop-Alone :
    (q : Pc) (i : Bool) (h : JoinPc) (w : World)
    → IsLive (live_at at_stop q i false h w)
    → is_call q ≡ true
    → Alone usb_to_tcp q (thread_at at_stop tcp_to_usb (live_at at_stop q i false h w))
unfolding thread_at stop kill interrupt turn step step_at stop_forwarding
tcp_stop-Alone q i h w v c = ground (arith, v.joins, v.in_tcp_usb)

usb_stop-Alone :
    (p : Pc) (j : Bool) (h : JoinPc) (w : World)
    → IsLive (live_at p at_stop false j h w)
    → is_call p ≡ true
    → Alone tcp_to_usb p (thread_at at_stop usb_to_tcp (live_at p at_stop false j h w))
unfolding thread_at stop kill interrupt turn step step_at stop_forwarding
usb_stop-Alone p j h w v c = ground (arith, v.joins, v.in_usb_tcp)

-- the stop of a thread that is there, with the other inside its call, or before it
stop-Leaves :
    (d : ProxyDirection) (l : Live)
    → IsLive l
    → (thread d l.world).pc ≡ at_stop
    → is_inside (other d) l ≡ true
    → Leaves (other d) 2 (live_step (thread_turn d) l)
unfolding live_step
stop-Leaves tcp_to_usb l v e i =
    let State : Pc → Bool → Live =
      λ p j. live_at p l.world.usb_tcp.pc l.in_tcp_usb j l.handler l.world in
    let Goal : Pc → Bool → Type 0 =
      λ p j. IsLive (State p j) → Leaves usb_to_tcp 2 (thread_at p tcp_to_usb (State p j)) in
    subst (λ p. Goal p l.in_usb_tcp) (sym e)
      (subst (λ j. Goal at_stop j) (sym i)
        (tcp_stop-Leaves l.world.usb_tcp.pc l.in_tcp_usb l.handler l.world))
      v
stop-Leaves usb_to_tcp l v e i =
    let State : Pc → Bool → Live =
      λ q j. live_at l.world.tcp_usb.pc q j l.in_usb_tcp l.handler l.world in
    let Goal : Pc → Bool → Type 0 =
      λ q j. IsLive (State q j) → Leaves tcp_to_usb 2 (thread_at q usb_to_tcp (State q j)) in
    subst (λ q. Goal q l.in_tcp_usb) (sym e)
      (subst (λ j. Goal at_stop j) (sym i)
        (usb_stop-Leaves l.world.tcp_usb.pc l.in_usb_tcp l.handler l.world))
      v

stop-Alone :
    (d : ProxyDirection) (l : Live)
    → IsLive l
    → (thread d l.world).pc ≡ at_stop
    → is_inside (other d) l ≡ false
    → is_call (thread (other d) l.world).pc ≡ true
    → Alone (other d) (thread (other d) l.world).pc (live_step (thread_turn d) l)
unfolding live_step
stop-Alone tcp_to_usb l v e i c =
    let State : Pc → Bool → Live =
      λ p j. live_at p l.world.usb_tcp.pc l.in_tcp_usb j l.handler l.world in
    let Goal : Pc → Bool → Type 0 = λ p j.
      IsLive (State p j)
      → Alone usb_to_tcp l.world.usb_tcp.pc (thread_at p tcp_to_usb (State p j)) in
    subst (λ p. Goal p l.in_usb_tcp) (sym e)
      (subst (λ j. Goal at_stop j) (sym i)
        (λ u. tcp_stop-Alone l.world.usb_tcp.pc l.in_tcp_usb l.handler l.world u c))
      v
stop-Alone usb_to_tcp l v e i c =
    let State : Pc → Bool → Live =
      λ q j. live_at l.world.tcp_usb.pc q j l.in_usb_tcp l.handler l.world in
    let Goal : Pc → Bool → Type 0 = λ q j.
      IsLive (State q j)
      → Alone tcp_to_usb l.world.tcp_usb.pc (thread_at q usb_to_tcp (State q j)) in
    subst (λ q. Goal q l.in_tcp_usb) (sym e)
      (subst (λ j. Goal at_stop j) (sym i)
        (λ u. usb_stop-Alone l.world.tcp_usb.pc l.in_usb_tcp l.handler l.world u c))
      v

-- What comes of the other thread behind `stopForwarding`, by whether it is inside its call: it
-- returns, unless it has had fewer than two turns; or it stands, unless its call comes back.
abbrev pub Stopping : Bool → ProxyDirection → Pc → List Event → Option Live → Type 0
Stopping true d p es o = (own_turns d es < 2) ⊎ Ends d o
Stopping false d p es o = (no_return d es ≡ false) ⊎ Stands d p o

-- A thread is at `stopForwarding` while the other is at a `read` or `write`, and then come any
-- steps. If the other thread is inside the call, the signal ends the call, and the thread returns
-- as soon as it has had two turns, whatever else happens and whether or not anything arrives, if
-- the program does not first signal a thread that was joined. But if it is just before its call,
-- or between two reads of a message, the signal is lost: unless its call comes back by itself,
-- the thread stays at the call, though `should_exit` is set.
pub stop-Stopping :
    (d : ProxyDirection) {l : Live} (es : List Event)
    → Reached l
    → (thread d l.world).pc ≡ at_stop
    → is_call (thread (other d) l.world).pc ≡ true
    → Stopping
        (is_inside (other d) l)
        (other d)
        (thread (other d) l.world).pc
        es
        (live_run (thread_turn d ∷ es) l)
unfolding live_run
stop-Stopping d {l} es r e c =
    let v = Reached-IsLive r in
    let p = (thread (other d) l.world).pc in
    let After : Bool → Type 0 = λ b. Stopping b (other d) p es (live_run (thread_turn d ∷ es) l) in
    elim (Bool-cases (is_inside (other d) l)) [
      | inl i ↦ subst After (sym i) (elim (le_cases 2 (own_turns (other d) es)) [
        | inl le ↦
            inr (run-Ends (other d) es (live_step (thread_turn d) l) 2 (stop-Leaves d l v e i) le)
        | inr less ↦ inl less
      ])
      | inr i ↦ subst After (sym i) (elim (Bool-cases (no_return (other d) es)) [
        | inl n ↦
            inr
              (run-Stands (other d) p es (live_step (thread_turn d) l) c (stop-Alone d l v e i c) n)
        | inr n ↦ inl n
      ])
    ]
