-- ===== src/Proxy/Forward/Writes.antt =====
-- Writes that take all of their buffer.
use wireless_android_auto_do.Prelude.{
  ◌≡◌, refl, sym, ap, ◌∙◌, List, [], ◌∷◌, ◌++◌, arith, length, take_all, flatten, flatten-concat,
}
use wireless_android_auto_do.Text.{Bytes}
use wireless_android_auto_do.Stream.{Input, delivered}
use wireless_android_auto_do.Proxy.Forward.{
  ProxyDirection, tcp_to_usb, usb_to_tcp, Pc, at_test, at_write, Thread, Shared, step_at, step,
  World, turn, run, started,
}
use wireless_android_auto_do.Proxy.Forward.Order.{run-IsFront}

-- Every call so far took its whole buffer, and so will the coming ones.
record Full (t : Thread) : Type 0 where
  sent : t.sent ≡ flatten t.calls
  replies : t.replies ≡ []

step_at-Full :
    (pc : Pc) (d : ProxyDirection) (sh : Shared) (t : Thread) → Full t → Full (step_at pc d sh t).1
unfolding step_at
step_at-Full at_write d sh t v = record {
  sent =
      rw (v.replies, take_all (length t.buffer) t.buffer (omega arith), v.sent)
        (sym (flatten-concat t.calls t.buffer));
  replies = rw v.replies;
}
step_at-Full at_test d sh t v = record { sent = v.sent; replies = v.replies }
step_at-Full _ d sh t v = record { sent = v.sent; replies = v.replies }

run-Full :
    (ds : List ProxyDirection) (w : World)
    → Full w.tcp_usb
    → Full w.usb_tcp
    → Full (run ds w).tcp_usb × Full (run ds w).usb_tcp
unfolding run turn step
run-Full [] w a b = (a, b)
run-Full (tcp_to_usb ∷ ds) w a b =
    run-Full ds (turn tcp_to_usb w) (step_at-Full w.tcp_usb.pc tcp_to_usb w.shared w.tcp_usb a) b
run-Full (usb_to_tcp ∷ ds) w a b =
    run-Full ds (turn usb_to_tcp w) a (step_at-Full w.usb_tcp.pc usb_to_tcp w.shared w.usb_tcp b)

-- Bytes that are the front of what a stream delivers.
abbrev pub IsPrefix : Bytes → Input → Type 0
IsPrefix bs s = (tail : Bytes) × (bs ++ tail ≡ delivered s)

-- Where every write takes its whole buffer, the bytes that the accessory and the phone received
-- are, under every schedule, a front part of what the other side delivered.
run-IsPrefix :
    (tcp usb : Input) (ds : List ProxyDirection)
    → let w = run ds (started tcp [] usb []) in
      IsPrefix w.tcp_usb.sent tcp × IsPrefix w.usb_tcp.sent usb
run-IsPrefix tcp usb ds =
    let (a, b) =
      run-Full ds (started tcp [] usb []) (record { sent = refl; replies = refl })
        (record { sent = refl; replies = refl }) in
    let (p, q) = run-IsFront tcp usb [] [] ds in
    ((p.0, ap (λ x. x ++ p.0) a.sent ∙ p.1), (q.0, ap (λ x. x ++ q.0) b.sent ∙ q.1))
