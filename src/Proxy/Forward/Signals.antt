-- ===== src/Proxy/Forward/Signals.antt =====
-- The calls of the kernel that a forwarding thread waits in, the signals that end them, and the
-- joins of `handleClient`. A thread that stands at a call of `read` or `write` first gets into it;
-- the call comes back by an event of its own, or by the signal of `stopForwarding`. A signal that
-- finds a thread outside of a call runs the empty handler, and nothing else. The whole of
-- `stopForwarding`, its store, its two tests and its two signals, is one step with the end of the
-- thread: what another thread does between a test and the signal behind it is not among the runs.
pub mod Invariant
pub mod Missed
pub mod Freed
pub mod Stops
pub mod Handles
pub mod Rank
pub mod Joins
pub mod Runs
use wireless_android_auto_do.Prelude.{
  ◌≡◌, Bool, true, false, not, List, [], ◌∷◌, Option, none, some, if◌then◌else◌,
}
use wireless_android_auto_do.Stream.{Input, Ssize, error, failure}
use wireless_android_auto_do.Proxy.Forward.{
  ProxyDirection, tcp_to_usb, usb_to_tcp, Pc, at_test, at_read, after_read, at_write, after_write,
  at_stop, finished, Thread, Shared, World, turn, started,
}

-- Where `handleClient` is behind the start of the threads: it joins a thread, and then resets the
-- variable that holds it.
pub data JoinPc : Type 0 where
  join_usb_tcp reset_usb_tcp join_tcp_usb reset_tcp_usb joined : JoinPc

-- `in_tcp_usb` and `in_usb_tcp` say whether the thread is inside the call at which it stands.
pub record Live : Type 0 where
  pub world : World
  pub in_tcp_usb : Bool
  pub in_usb_tcp : Bool
  pub handler : JoinPc

abbrev pub thread : ProxyDirection → World → Thread
thread tcp_to_usb w = w.tcp_usb
thread usb_to_tcp w = w.usb_tcp

abbrev pub is_inside : ProxyDirection → Live → Bool
is_inside tcp_to_usb l = l.in_tcp_usb
is_inside usb_to_tcp l = l.in_usb_tcp

abbrev pub is_call : Pc → Bool
is_call at_read = true
is_call at_write = true
is_call _ = false

abbrev pub is_finished : Pc → Bool
is_finished finished = true
is_finished _ = false

abbrev pub enter : ProxyDirection → Live → Live
enter tcp_to_usb l = record l { in_tcp_usb = true }
enter usb_to_tcp l = record l { in_usb_tcp = true }

-- The call comes back, with what the descriptor has.
abbrev pub leave : ProxyDirection → Live → Live
leave tcp_to_usb l = record l { world = turn tcp_to_usb l.world; in_tcp_usb = false }
leave usb_to_tcp l = record l { world = turn usb_to_tcp l.world; in_usb_tcp = false }

-- The call that a signal ends fails with `EINTR`.
abbrev pub fail_call : Pc → Thread → Thread
fail_call at_read t = record t { input = failure ∷ t.input }
fail_call at_write t = record t { replies = error ∷ t.replies }
fail_call _ t = t

abbrev pub failing : ProxyDirection → World → World
failing tcp_to_usb w = record w { tcp_usb = fail_call w.tcp_usb.pc w.tcp_usb }
failing usb_to_tcp w = record w { usb_tcp = fail_call w.usb_tcp.pc w.usb_tcp }

unfoldable pub interrupt : ProxyDirection → Live → Live
interrupt d l = if is_inside d l then leave d (record l { world = failing d l.world }) else l

abbrev pub has_value : ProxyDirection → Shared → Bool
has_value tcp_to_usb sh = sh.tcp_usb_thread
has_value usb_to_tcp sh = sh.usb_tcp_thread

-- The variable holds a thread that was joined, which has no handle.
abbrev pub is_joined : ProxyDirection → JoinPc → Bool
is_joined usb_to_tcp reset_usb_tcp = true
is_joined tcp_to_usb reset_tcp_usb = true
is_joined _ _ = false

-- One test of `stopForwarding` with its `pthread_kill`; without a handle, that is undefined.
unfoldable pub kill : ProxyDirection → Live → Option Live
kill d l =
    if not (has_value d l.world.shared)
    then some l
    else if is_joined d l.handler
    then none
    else some (interrupt d l)

abbrev pub then_live : Option Live → (Live → Option Live) → Option Live
then_live none next = none
then_live (some l) next = next l

-- `stopForwarding`, and the end of the thread, in one step
unfoldable pub stop : ProxyDirection → Live → Option Live
stop d l =
    then_live (kill usb_to_tcp (record l { world = turn d l.world })) (λ l'. kill tcp_to_usb l')

-- A thread makes a step of its own: it gets into its call, or goes on behind it.
unfoldable pub thread_at : Pc → ProxyDirection → Live → Option Live
thread_at at_read d l = some (enter d l)
thread_at at_write d l = some (enter d l)
thread_at at_stop d l = stop d l
thread_at _ d l = some (record l { world = turn d l.world })

abbrev pub reset : ProxyDirection → World → World
reset tcp_to_usb w = record w { shared = record w.shared { tcp_usb_thread = false } }
reset usb_to_tcp w = record w { shared = record w.shared { usb_tcp_thread = false } }

-- A step of `handleClient`; `join` waits for the end of the thread.
unfoldable pub handler_at : JoinPc → Live → Live
handler_at join_usb_tcp l =
    if is_finished l.world.usb_tcp.pc then record l { handler = reset_usb_tcp } else l
handler_at reset_usb_tcp l = record l { world = reset usb_to_tcp l.world; handler = join_tcp_usb }
handler_at join_tcp_usb l =
    if is_finished l.world.tcp_usb.pc then record l { handler = reset_tcp_usb } else l
handler_at reset_tcp_usb l = record l { world = reset tcp_to_usb l.world; handler = joined }
handler_at joined l = l

-- `readMessage` makes several calls of `read`, and is outside of a call between two of them.
unfoldable pub pause : Pc → Live → Live
pause at_read l = record l { in_tcp_usb = false }
pause _ l = l

pub data Event : Type 0 where
  thread_turn call_returns : ProxyDirection → Event
  between_reads handler_turn : Event

unfoldable pub live_step : Event → Live → Option Live
live_step (thread_turn d) l = thread_at (thread d l.world).pc d l
live_step (call_returns d) l = some (if is_inside d l then leave d l else l)
live_step between_reads l = some (pause l.world.tcp_usb.pc l)
live_step handler_turn l = some (handler_at l.handler l)

unfoldable pub live_run : List Event → Live → Option Live
live_run [] l = some l
live_run (e ∷ es) l = then_live (live_step e l) (λ l'. live_run es l')

-- Both threads are started.
abbrev pub begin_live : Input → List Ssize → Input → List Ssize → Live
begin_live tcp usb_replies usb tcp_replies = record {
  world = started tcp usb_replies usb tcp_replies;
  in_tcp_usb = false;
  in_usb_tcp = false;
  handler = join_usb_tcp;
}

-- What the threads and `handleClient` come to, in any order of their steps.
pub data Reached : Live → Type 0 where
  begun :
      (tcp usb : Input) (usb_replies tcp_replies : List Ssize)
      → Reached (begin_live tcp usb_replies usb tcp_replies)
  later : {l k : Live} (e : Event) → Reached l → live_step e l ≡ some k → Reached k
