-- ===== src/Proxy/Forward/Signals/Runs.antt =====
-- Runs of the forwarding threads with `handleClient`: one in which the signal is lost, and one that
-- signals a thread that was joined.
use wireless_android_auto_do.Prelude.{◌≡◌, refl, List, [], ◌∷◌, ◌++◌, Option, none, some}
use wireless_android_auto_do.Stream.{read}
use wireless_android_auto_do.Proxy.{read_message, read_fully, read_fully_loop}
use wireless_android_auto_do.Proxy.Forward.{
  tcp_to_usb, usb_to_tcp, at_read, step_at, step, stop_forwarding, turn,
}
use wireless_android_auto_do.Proxy.Forward.Signals.{
  Live, interrupt, kill, stop, thread_at, handler_at, Event, thread_turn, call_returns,
  handler_turn, live_step, live_run, then_live, begin_live, Reached, begun, later,
}

abbrev IsReached : Option Live → Type 0
IsReached none = Unit
IsReached (some l) = Reached l

then_live_lem :
    (o : Option Live) (es : List Event)
    → ((l : Live) → o ≡ some l → IsReached (live_run es l))
    → IsReached (then_live o (λ l. live_run es l))
then_live_lem none es h = tt
then_live_lem (some l) es h = h l refl

live_run-Reached : (es : List Event) (l : Live) → Reached l → IsReached (live_run es l)
unfolding live_run
live_run-Reached [] l r = r
live_run-Reached (e ∷ es) l r =
    then_live_lem (live_step e l) es (λ k eq. live_run-Reached es k (later e r eq))

abbrev begin : Live
begin = begin_live [] [] [] []

abbrev state_of : Option Live → Live
state_of none = begin
state_of (some l) = l

-- The phone closes its connection; the thread of the accessory has just made its test.
abbrev phone_gone : List Event
phone_gone =
    thread_turn tcp_to_usb
    ∷ thread_turn tcp_to_usb
    ∷ call_returns tcp_to_usb
    ∷ thread_turn tcp_to_usb
    ∷ thread_turn usb_to_tcp
    ∷ []

abbrev pub before_read : Live
before_read = state_of (live_run phone_gone begin)

pub before_read-Reached : Reached before_read
unfolding live_run live_step thread_at turn step step_at read_message read_fully read_fully_loop
    read
before_read-Reached = live_run-Reached phone_gone begin (begun [] [] [] [])

-- Its thread has called `stopForwarding`.
abbrev pub signalled : Live
signalled = state_of (live_run (thread_turn tcp_to_usb ∷ []) before_read)

-- It gets into its read behind the signal, and is still there after further turns.
signal_is_lost :
    (state_of (
      live_run
        (phone_gone
          ++ (thread_turn tcp_to_usb
              ∷ thread_turn usb_to_tcp
              ∷ thread_turn usb_to_tcp
              ∷ handler_turn
              ∷ []))
        begin)).world.usb_tcp.pc
    ≡ at_read
unfolding live_run live_step thread_at turn step step_at read_message read_fully read_fully_loop
    read stop kill interrupt stop_forwarding handler_at
signal_is_lost = refl

-- The car goes; its thread signals that of the phone, which stops while `handleClient` is between
-- the join and the reset.
abbrev car_gone : List Event
car_gone =
    thread_turn tcp_to_usb
    ∷ thread_turn tcp_to_usb
    ∷ thread_turn usb_to_tcp
    ∷ thread_turn usb_to_tcp
    ∷ call_returns usb_to_tcp
    ∷ thread_turn usb_to_tcp
    ∷ thread_turn usb_to_tcp
    ∷ handler_turn
    ∷ thread_turn tcp_to_usb
    ∷ []

abbrev pub between : Live
between = state_of (live_run car_gone begin)

pub between-Reached : Reached between
unfolding live_run live_step thread_at turn step step_at read_message read_fully read_fully_loop
    read stop kill interrupt stop_forwarding handler_at
between-Reached = live_run-Reached car_gone begin (begun [] [] [] [])

no_handle : live_run (car_gone ++ thread_turn tcp_to_usb ∷ []) begin ≡ none
unfolding live_run live_step thread_at turn step step_at read_message read_fully read_fully_loop
    read stop kill interrupt stop_forwarding handler_at
no_handle = refl
