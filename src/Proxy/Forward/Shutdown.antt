-- ===== src/Proxy/Forward/Shutdown.antt =====
-- The end of forwarding: one thread that stops takes the other with it.
use wireless_android_auto_do.Prelude.{
  ℕ, suc, ◌-◌, ◌≤◌, ◌≡◌, refl, true, List, [], ◌∷◌, arith, inl, inr, ◌⊎◌,
}
use wireless_android_auto_do.Stream.{Input, Ssize}
use wireless_android_auto_do.Proxy.Forward.{
  ProxyDirection, tcp_to_usb, usb_to_tcp, Pc, at_test, at_read, after_read, at_write, after_write,
  at_stop, finished, Thread, Shared, step_at, step, World, turn, run, started, stop_forwarding,
}

-- Steps that a thread still makes once `should_exit` is set.
abbrev rank : Pc → ℕ
rank at_test = 2
rank at_read = 3
rank after_read = 2
rank at_write = 3
rank after_write = 2
rank at_stop = 1
rank finished = 0

-- How often the scheduler picks a thread.
abbrev pub turns : ProxyDirection → List ProxyDirection → ℕ
turns d [] = 0
turns tcp_to_usb (tcp_to_usb ∷ ds) = suc (turns tcp_to_usb ds)
turns tcp_to_usb (usb_to_tcp ∷ ds) = turns tcp_to_usb ds
turns usb_to_tcp (tcp_to_usb ∷ ds) = turns usb_to_tcp ds
turns usb_to_tcp (usb_to_tcp ∷ ds) = suc (turns usb_to_tcp ds)

step_at-rank :
    (pc : Pc) (d : ProxyDirection) (sh : Shared) (t : Thread)
    → t.pc ≡ pc
    → sh.should_exit ≡ true
    → (rank (step_at pc d sh t).1.pc ≤ rank pc - 1) × ((step_at pc d sh t).0.should_exit ≡ true)
unfolding step_at stop_forwarding
step_at-rank at_test d sh t e x = ground arith
step_at-rank _ d sh t e x = ground arith

step-rank :
    (d : ProxyDirection) (sh : Shared) (t : Thread)
    → sh.should_exit ≡ true
    → (rank (step d sh t).1.pc ≤ rank t.pc - 1) × ((step d sh t).0.should_exit ≡ true)
unfolding step
step-rank d sh t x = step_at-rank t.pc d sh t refl x

finished_of_rank : (pc : Pc) → rank pc ≤ 0 → pc ≡ finished
finished_of_rank finished h = refl
finished_of_rank at_test h = absurd (omega arith)
finished_of_rank _ h = absurd (omega arith)

-- Both threads have returned from `forward`, and `join` returns.
abbrev pub Stopped : World → Type 0
Stopped w = (w.tcp_usb.pc ≡ finished) × (w.usb_tcp.pc ≡ finished)

run-Stopped :
    (ds : List ProxyDirection) (w : World)
    → w.shared.should_exit ≡ true
    → rank w.tcp_usb.pc ≤ turns tcp_to_usb ds
    → rank w.usb_tcp.pc ≤ turns usb_to_tcp ds
    → Stopped (run ds w)
unfolding run turn
run-Stopped [] w x a b = (finished_of_rank w.tcp_usb.pc a, finished_of_rank w.usb_tcp.pc b)
run-Stopped (tcp_to_usb ∷ ds) w x a b =
    let (less, still) = step-rank tcp_to_usb w.shared w.tcp_usb x in
    run-Stopped ds (turn tcp_to_usb w) still (omega arith) b
run-Stopped (usb_to_tcp ∷ ds) w x a b =
    let (less, still) = step-rank usb_to_tcp w.shared w.usb_tcp x in
    run-Stopped ds (turn usb_to_tcp w) still a (omega arith)

-- A thread that returned has set `should_exit`.
record Ended (w : World) : Type 0 where
  tcp_usb : w.tcp_usb.pc ≡ finished → w.shared.should_exit ≡ true
  usb_tcp : w.usb_tcp.pc ≡ finished → w.shared.should_exit ≡ true

step_at-Ended :
    (pc : Pc) (d : ProxyDirection) (sh : Shared) (t : Thread)
    → t.pc ≡ pc
    → (t.pc ≡ finished → sh.should_exit ≡ true)
    → ((step_at pc d sh t).1.pc ≡ finished → (step_at pc d sh t).0.should_exit ≡ true)
      × (sh.should_exit ≡ true → (step_at pc d sh t).0.should_exit ≡ true)
unfolding step_at stop_forwarding
step_at-Ended at_test d sh t e x = ground arith
step_at-Ended _ d sh t e x = ground arith

turn-Ended : (d : ProxyDirection) (w : World) → Ended w → Ended (turn d w)
unfolding turn step
turn-Ended tcp_to_usb w v =
    let (own, kept) = step_at-Ended w.tcp_usb.pc tcp_to_usb w.shared w.tcp_usb refl v.tcp_usb in
    record { tcp_usb = own; usb_tcp = λ e. kept (v.usb_tcp e) }
turn-Ended usb_to_tcp w v =
    let (own, kept) = step_at-Ended w.usb_tcp.pc usb_to_tcp w.shared w.usb_tcp refl v.usb_tcp in
    record { tcp_usb = λ e. kept (v.tcp_usb e); usb_tcp = own }

run-Ended : (ds : List ProxyDirection) (w : World) → Ended w → Ended (run ds w)
unfolding run
run-Ended [] w v = v
run-Ended (d ∷ ds) w v = run-Ended ds (turn d w) (turn-Ended d w v)

rank-le : (pc : Pc) → rank pc ≤ 3
rank-le at_test = omega arith
rank-le _ = omega arith

-- Once one of the threads has returned, whatever the schedule was until then, the other returns
-- too as soon as each of them has made three more steps, of which the return from a read or write
-- is one, whatever that call returns: it never goes on forwarding alone.
run_both_stop :
    (tcp usb : Input) (usb_replies tcp_replies : List Ssize) (before after : List ProxyDirection)
    → let w = run before (started tcp usb_replies usb tcp_replies) in
      (w.tcp_usb.pc ≡ finished) ⊎ (w.usb_tcp.pc ≡ finished)
      → 3 ≤ turns tcp_to_usb after
      → 3 ≤ turns usb_to_tcp after
      → Stopped (run after (run before (started tcp usb_replies usb tcp_replies)))
run_both_stop tcp usb usb_replies tcp_replies before after e a b =
    let w = run before (started tcp usb_replies usb tcp_replies) in
    let v =
      run-Ended before (started tcp usb_replies usb tcp_replies)
        (record { tcp_usb = λ h. cc; usb_tcp = λ h. cc }) in
    run-Stopped after w (elim e [ inl h ↦ v.tcp_usb h | inr h ↦ v.usb_tcp h ])
      (omega (arith, rank-le w.tcp_usb.pc)) (omega (arith, rank-le w.usb_tcp.pc))
