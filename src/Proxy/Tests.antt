-- ===== src/Proxy/Tests.antt =====
-- The theorems about proxyHandler.cpp at concrete inputs.
use wireless_android_auto_do.Prelude.{
  ℕ, zero, suc, none, true, false, ◌≡◌, ◌↔◌, refl, List, [], ◌∷◌, arith,
}
use wireless_android_auto_do.Stream.{Input, chunk, count, error, read}
use wireless_android_auto_do.Proxy.Client.{Calls, client, serve}
use wireless_android_auto_do.Proxy.Client.Descriptors.{serve-left_open}
use wireless_android_auto_do.Proxy.{
  read_fully, read_fully_loop, read_message, read_body, message_length,
}
use wireless_android_auto_do.Proxy.Buffer.{InBounds, read_message-InBounds}
use wireless_android_auto_do.Proxy.ReadMessage.{Frame, wire, Received, read_message-Received}
use wireless_android_auto_do.Proxy.Forward.{
  ProxyDirection, tcp_to_usb, usb_to_tcp, step_at, step, stop_forwarding, turn, run, started, World,
  at_read, at_stop,
}
use wireless_android_auto_do.Proxy.Forward.Order.{IsFront, run-IsFront}
use wireless_android_auto_do.Proxy.Forward.Frames.{Fits, wires, Forwards}
use wireless_android_auto_do.Proxy.Forward.Pace.{KeepsUp, run-Forwards}
use wireless_android_auto_do.Proxy.Forward.Signals.{
  thread_turn, live_step, live_run, thread_at, Event, handler_turn, reset_usb_tcp, call_returns,
  between_reads, stop, kill, interrupt,
}
use wireless_android_auto_do.Proxy.Forward.Signals.Joins.{
  has, AllFair, run_rounds, ComesToEnd, rounds-ComesToEnd,
}
use wireless_android_auto_do.Proxy.Forward.Signals.Rank.{wanted}
use wireless_android_auto_do.Proxy.Forward.Signals.Stops.{Stopping, stop-Stopping}
use wireless_android_auto_do.Proxy.Forward.Signals.Handles.{step_undefined}
use wireless_android_auto_do.Proxy.Forward.Signals.Runs.{
  before_read, signalled, before_read-Reached, between, between-Reached,
}

-- A frame of two bytes, and the first frame of a longer message.
abbrev small : Frame
small = record { channel = 3; flags = 3; payload = 7 ∷ 8 ∷ [] }

abbrev first : Frame
first = record { channel = 1; flags = 9; payload = 0 ∷ 0 ∷ 2 ∷ 0 ∷ 5 ∷ [] }

abbrev empty : Frame
empty = record { channel = 3; flags = 3; payload = [] }

abbrev pieces : Input
pieces = chunk (3 ∷ []) ∷ chunk (3 ∷ 0 ∷ []) ∷ chunk (2 ∷ 7 ∷ 8 ∷ 1 ∷ []) ∷ []

wire-first : wire first ≡ 1 ∷ 9 ∷ 0 ∷ 1 ∷ 0 ∷ 0 ∷ 2 ∷ 0 ∷ 5 ∷ []
wire-first = refl

read_message-pieces : (read_message 16 pieces).stored ≡ 3 ∷ 3 ∷ 0 ∷ 2 ∷ 7 ∷ 8 ∷ []
unfolding read_message read_body message_length read_fully read_fully_loop read
read_message-pieces = refl

read_message-Received_example : Received small (1 ∷ []) (read_message 16384 pieces)
read_message-Received_example =
    read_message-Received 16384 small pieces (1 ∷ [])
      (record { has_extra = omega arith; fits = omega arith }) (omega arith) (omega arith) refl

read_message-InBounds_example : InBounds 5 pieces (read_message 5 pieces)
read_message-InBounds_example = read_message-InBounds 5 pieces (omega arith)

-- both threads by turns
abbrev by_turns : List ProxyDirection
by_turns = tcp_to_usb ∷ usb_to_tcp ∷ tcp_to_usb ∷ usb_to_tcp ∷ tcp_to_usb ∷ usb_to_tcp ∷ []

run-IsFront_example :
    let w = run by_turns (started pieces [] (chunk (4 ∷ []) ∷ []) (error ∷ [])) in
    IsFront w.tcp_usb.calls pieces × IsFront w.usb_tcp.calls (chunk (4 ∷ []) ∷ [])
run-IsFront_example = run-IsFront pieces (chunk (4 ∷ []) ∷ []) [] (error ∷ []) by_turns

-- Twelve turns of the thread that reads the phone, which are enough for two frames.
abbrev many_turns : ℕ → List ProxyDirection
many_turns zero = usb_to_tcp ∷ []
many_turns (suc n) = tcp_to_usb ∷ many_turns n

run-Forwards_example :
    let w = run (many_turns 12) (started (chunk (wires (small ∷ first ∷ [])) ∷ []) [] [] []) in
    Forwards w.tcp_usb.calls (small ∷ first ∷ []) × KeepsUp (small ∷ first ∷ []) [] 12 w
run-Forwards_example =
    run-Forwards (small ∷ first ∷ []) (chunk (wires (small ∷ first ∷ [])) ∷ []) [] [] []
      (many_turns 12) (fit, (fit', tt)) refl
  where
    fit : Fits small
    fit = record {
      well_formed = record { has_extra = omega arith; fits = omega arith };
      not_empty = omega arith;
      fits = omega arith;
    }

    fit' : Fits first
    fit' = record {
      well_formed = record { has_extra = omega arith; fits = omega arith };
      not_empty = omega arith;
      fits = omega arith;
    }

-- The first write of the accessory's bytes takes one of three.
abbrev short_run : List ProxyDirection
short_run =
    usb_to_tcp ∷ usb_to_tcp ∷ usb_to_tcp ∷ usb_to_tcp ∷ usb_to_tcp ∷ usb_to_tcp ∷ usb_to_tcp
    ∷ usb_to_tcp ∷ usb_to_tcp ∷ usb_to_tcp ∷ usb_to_tcp ∷ usb_to_tcp ∷ []

abbrev after_short : World
after_short =
    run short_run (started [] [] (chunk (7 ∷ 8 ∷ 9 ∷ []) ∷ chunk (5 ∷ 6 ∷ []) ∷ []) (count 1 ∷ []))

two_bytes_lost : after_short.usb_tcp.sent ≡ 7 ∷ 5 ∷ 6 ∷ []
unfolding run turn step step_at read
two_bytes_lost = refl

abbrev all_well : Calls
all_well = record {
  socket_ok = true;
  reuse_ok = true;
  bind_ok = true;
  listen_ok = true;
  accept_ok = true;
  accessory_came = true;
  open_ok = true;
  timeout_ok = true;
}

-- Two phones are accepted while the car does not come, and then one connection works.
abbrev no_car : Calls
no_car = record all_well { accessory_came = false }

serve-left_open_example :
    serve false (no_car ∷ no_car ∷ all_well ∷ []) [] ≡ (true, client ∷ client ∷ [])
serve-left_open_example =
    serve-left_open false (no_car ∷ no_car ∷ all_well ∷ []) []
      ((refl, refl, refl, refl), ((refl, refl, refl, refl), ((refl, refl, refl, refl), tt)))

abbrev more_turns : List Event
more_turns = thread_turn usb_to_tcp ∷ handler_turn ∷ thread_turn usb_to_tcp ∷ []

stop-Stopping_example :
    Stopping false usb_to_tcp at_read more_turns
      (live_run (thread_turn tcp_to_usb ∷ more_turns) before_read)
unfolding live_run live_step thread_at turn step step_at read_message read_fully read_fully_loop
    read
stop-Stopping_example =
    stop-Stopping tcp_to_usb {l = before_read} more_turns before_read-Reached refl refl

step_undefined_example : (live_step (thread_turn tcp_to_usb) between ≡ none) ↔ (
    (thread_turn tcp_to_usb ≡ thread_turn tcp_to_usb)
    × (between.world.tcp_usb.pc ≡ at_stop)
    × (between.handler ≡ reset_usb_tcp))
step_undefined_example = step_undefined (thread_turn tcp_to_usb) {l = between} between-Reached

abbrev all_steps : List Event
all_steps =
    handler_turn
    ∷ thread_turn usb_to_tcp
    ∷ call_returns usb_to_tcp
    ∷ thread_turn tcp_to_usb
    ∷ call_returns tcp_to_usb
    ∷ []

has-all_steps : (h : Event) → has h all_steps ≡ wanted h
has-all_steps (thread_turn tcp_to_usb) = refl
has-all_steps (thread_turn usb_to_tcp) = refl
has-all_steps (call_returns tcp_to_usb) = refl
has-all_steps (call_returns usb_to_tcp) = refl
has-all_steps between_reads = refl
has-all_steps handler_turn = refl

abbrev times : ℕ → List (List Event)
times zero = []
times (suc n) = all_steps ∷ times n

times-AllFair : (n : ℕ) → AllFair (times n)
times-AllFair zero = tt
times-AllFair (suc n) = (has-all_steps, times-AllFair n)

rounds-ComesToEnd_example : ComesToEnd (run_rounds (times 12) signalled)
unfolding live_run live_step thread_at stop kill interrupt turn step step_at stop_forwarding
    read_message read_fully read_fully_loop read
rounds-ComesToEnd_example =
    rounds-ComesToEnd signalled (times 12) refl (times-AllFair 12) (omega arith)
