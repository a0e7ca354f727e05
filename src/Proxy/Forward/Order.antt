-- ===== src/Proxy/Forward/Order.antt =====
-- The bytes that a forwarding thread writes, under every schedule of the two threads.
use wireless_android_auto_do.Prelude.{
  ◌≡◌, refl, sym, ap, ◌∙◌, true, false, List, [], ◌∷◌, ◌++◌, arith, Bool-cases, inl, inr,
  if◌then◌else◌, append_assoc, flatten, flatten-concat,
}
use wireless_android_auto_do.Text.{Bytes}
use wireless_android_auto_do.Stream.{Input, Ssize, delivered}
use wireless_android_auto_do.Stream.Laws.{some_bytes, no_bytes, read-Reads}
use wireless_android_auto_do.Proxy.{is_positive}
use wireless_android_auto_do.Proxy.Buffer.{read_message-InBounds}
use wireless_android_auto_do.Proxy.ReadFully.{ending-not-positive}
use wireless_android_auto_do.Proxy.Forward.{
  ProxyDirection, tcp_to_usb, usb_to_tcp, Pc, at_test, at_read, after_read, at_write, after_write,
  at_stop, finished, Thread, Shared, fetch, buffer_len, go, is_error, step_at, step, World, turn,
  run, started,
}

-- What a thread knows of the bytes of its input that it has not handed to `write`.
abbrev Pending : Pc → Thread → Bytes → Type 0
Pending at_test t tail = tail ≡ delivered t.input
Pending at_read t tail = tail ≡ delivered t.input
Pending after_read t tail = is_positive t.len ≡ true → tail ≡ t.buffer ++ delivered t.input
Pending at_write t tail = tail ≡ t.buffer ++ delivered t.input
Pending after_write t tail = tail ≡ delivered t.input
Pending at_stop t tail = Unit
Pending finished t tail = Unit

-- `tail` is what is missing behind the written buffers to make up the bytes of the input.
record Inv (all : Bytes) (t : Thread) : Type 0 where
  tail : Bytes
  whole : flatten t.calls ++ tail ≡ all
  pending : Pending t.pc t tail

fetch_front :
    (d : ProxyDirection) (s : Input)
    → is_positive (fetch d s).len ≡ true
    → delivered s ≡ (fetch d s).stored ++ delivered (fetch d s).rest
fetch_front tcp_to_usb s p = (read_message-InBounds buffer_len s (omega arith)).front p
fetch_front usb_to_tcp s p = elim (read-Reads buffer_len s (omega arith)) [
  | some_bytes b bs l st le e _ ↦ rw st e
  | no_bytes l _ _ ↦ let z = ending-not-positive s in absurd (cc (l, z, p))
]

-- A thread that gives up keeps what it has written.
give_up : {all : Bytes} {t : Thread} → Inv all t → Inv all (go at_stop t)
give_up v = record { tail = v.tail; whole = v.whole; pending = tt }

module _ (all : Bytes) (d : ProxyDirection) (sh : Shared) where
  step_at-Inv : (pc : Pc) (t : Thread) → t.pc ≡ pc → Inv all t → Inv all (step_at pc d sh t).1
  unfolding step_at
  step_at-Inv at_test t e v =
      elim sh.should_exit as (λ b. Inv all (go (if b then at_stop else at_read) t)) [
        | true ↦ give_up v
        | false ↦ record { tail = v.tail; whole = v.whole; pending = rw e at v.pending }
      ]
  step_at-Inv at_read t e v = record {
    tail = v.tail;
    whole = v.whole;
    pending = λ p. (rw e at v.pending) ∙ fetch_front d t.input p;
  }
  step_at-Inv after_read t e v = elim (Bool-cases (is_positive t.len)) [
    | inl pos ↦
        rw pos (elim sh.should_exit as (λ b. Inv all (go (if b then at_stop else at_write) t)) [
          | true ↦ give_up v
          | false ↦ record { tail = v.tail; whole = v.whole; pending = (rw e at v.pending) pos }
        ])
    | inr z ↦ rw z (give_up v)
  ]
  step_at-Inv at_write t e v = record {
    tail = delivered t.input;
    whole =
        ap (λ x. x ++ delivered t.input) (flatten-concat t.calls t.buffer)
        ∙ append_assoc (flatten t.calls) t.buffer (delivered t.input)
        ∙ ap (λ x. flatten t.calls ++ x) (sym (rw e at v.pending))
        ∙ v.whole;
    pending = refl;
  }
  step_at-Inv after_write t e v =
      elim (is_error t.len)
        as (λ b.
          Inv all (go (if b then at_stop else if sh.should_exit then at_stop else at_test) t)) [
            | true ↦ give_up v
            | false ↦
                elim sh.should_exit as (λ b. Inv all (go (if b then at_stop else at_test) t)) [
                  | true ↦ give_up v
                  | false ↦ record { tail = v.tail; whole = v.whole; pending = rw e at v.pending }
                ]
          ]
  step_at-Inv at_stop t e v = record { tail = v.tail; whole = v.whole; pending = tt }
  step_at-Inv finished t e v = v

  step-Inv : (t : Thread) → Inv all t → Inv all (step d sh t).1
  unfolding step
  step-Inv t v = step_at-Inv t.pc t refl v

-- Both threads, each with the bytes of its own input.
record Both (tcp usb : Bytes) (w : World) : Type 0 where
  tcp_usb : Inv tcp w.tcp_usb
  usb_tcp : Inv usb w.usb_tcp

turn-Both :
    (tcp usb : Bytes) (d : ProxyDirection) (w : World) → Both tcp usb w → Both tcp usb (turn d w)
unfolding turn
turn-Both tcp usb tcp_to_usb w v = record {
  tcp_usb = step-Inv tcp tcp_to_usb w.shared w.tcp_usb v.tcp_usb;
  usb_tcp = v.usb_tcp;
}
turn-Both tcp usb usb_to_tcp w v = record {
  tcp_usb = v.tcp_usb;
  usb_tcp = step-Inv usb usb_to_tcp w.shared w.usb_tcp v.usb_tcp;
}

run-Both :
    (tcp usb : Bytes) (ds : List ProxyDirection) (w : World)
    → Both tcp usb w
    → Both tcp usb (run ds w)
unfolding run
run-Both tcp usb [] w v = v
run-Both tcp usb (d ∷ ds) w v = run-Both tcp usb ds (turn d w) (turn-Both tcp usb d w v)

-- The buffers that a thread handed to `write`, joined, are the front of what its input delivered.
abbrev pub IsFront : List Bytes → Input → Type 0
IsFront calls s = (tail : Bytes) × (flatten calls ++ tail ≡ delivered s)

-- Under every schedule of the two threads, and whatever their reads and writes return, each
-- thread hands to `write` a front part of the bytes that its own input delivered: none is lost
-- in front of another, doubled, reordered or taken from the other direction.
pub run-IsFront :
    (tcp usb : Input) (usb_replies tcp_replies : List Ssize) (ds : List ProxyDirection)
    → let w = run ds (started tcp usb_replies usb tcp_replies) in
      IsFront w.tcp_usb.calls tcp × IsFront w.usb_tcp.calls usb
run-IsFront tcp usb usb_replies tcp_replies ds =
    let v =
      run-Both (delivered tcp) (delivered usb) ds (started tcp usb_replies usb tcp_replies)
        (record {
          tcp_usb = record { tail = delivered tcp; whole = refl; pending = refl };
          usb_tcp = record { tail = delivered usb; whole = refl; pending = refl };
        }) in
    ((v.tcp_usb.tail, v.tcp_usb.whole), (v.usb_tcp.tail, v.usb_tcp.whole))
