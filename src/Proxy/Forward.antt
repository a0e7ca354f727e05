-- ===== src/Proxy/Forward.antt =====
-- `AAWProxy::forward` and `AAWProxy::stopForwarding`: the two forwarding threads, which share
-- `should_exit` and `m_log_communication`. A thread is a program counter with what stands in its
-- buffer; a step of it ends at the next access to a shared variable or call of the kernel, and a
-- step at a call is the return from it, which Signals divides. `stopForwarding` is one step.
pub mod Frames
pub mod Pace
pub mod Order
pub mod Writes
pub mod Shutdown
pub mod Signals
use wireless_android_auto_do.Prelude.{
  ℕ, zero, suc, Bool, true, false, List, [], ◌∷◌, ◌++◌, if◌then◌else◌, length, take,
}
use wireless_android_auto_do.Text.{Bytes}
use wireless_android_auto_do.Stream.{Input, Ssize, count, error, Reading, read}
use wireless_android_auto_do.Proxy.{is_positive, read_message}

pub data ProxyDirection : Type 0 where
  tcp_to_usb usb_to_tcp : ProxyDirection

abbrev pub buffer_len : ℕ
buffer_len = 16384

pub data Pc : Type 0 where
  at_test : Pc
  at_read : Pc
  after_read : Pc
  at_write : Pc
  after_write : Pc
  at_stop : Pc
  finished : Pc

-- One thread, with the descriptors that it uses: `input` is what its read descriptor delivers,
-- `replies` are the return values of its coming calls of `write` (behind them stands a full
-- write), and `calls` and `sent` are the buffers that it handed to `write` and the bytes that
-- `write` took, first to last.
pub record Thread : Type 0 where
  pub pc : Pc
  pub buffer : Bytes
  pub len : Ssize
  pub input : Input
  pub replies : List Ssize
  pub calls : List Bytes
  pub sent : Bytes

pub record Shared : Type 0 where
  pub should_exit : Bool
  pub log_communication : Bool
  -- `m_usb_tcp_thread` and `m_tcp_usb_thread` hold a value
  pub usb_tcp_thread : Bool
  pub tcp_usb_thread : Bool
  -- the threads that `pthread_kill` was called on; a call of the kernel that a signal ends early
  -- shows as a `failure` among that thread's arrivals
  pub signalled : List ProxyDirection

-- `stopForwarding`
unfoldable pub stop_forwarding : Shared → Shared
stop_forwarding sh = record sh {
  should_exit = true;
  signalled =
      sh.signalled
      ++ (if sh.usb_tcp_thread then usb_to_tcp ∷ [] else [])
      ++ (if sh.tcp_usb_thread then tcp_to_usb ∷ [] else []);
}

-- `len <= 0`, and the flag that stays set once it was set
abbrev pub note_error : Ssize → Shared → Shared
note_error len sh = record sh {
  log_communication = if is_positive len then sh.log_communication else true;
}

-- the read of the loop
abbrev pub fetch : ProxyDirection → Input → Reading
fetch tcp_to_usb s = read_message buffer_len s
fetch usb_to_tcp s = read buffer_len s

-- the return value of the next `write` of `n` bytes
abbrev pub next_reply : ℕ → List Ssize → Ssize
next_reply n [] = count n
next_reply n (r ∷ rs) = r

abbrev pub later_replies : List Ssize → List Ssize
later_replies [] = []
later_replies (r ∷ rs) = rs

-- how many bytes a `write` took
abbrev pub accepted : Ssize → Bytes → Bytes
accepted (count n) bs = take n bs
accepted error bs = []

abbrev pub is_error : Ssize → Bool
is_error (count n) = false
is_error error = true

abbrev pub go : Pc → Thread → Thread
go pc t = record t { pc = pc }

unfoldable pub step_at : Pc → ProxyDirection → Shared → Thread → Shared × Thread
step_at at_test d sh t = (sh, go (if sh.should_exit then at_stop else at_read) t)
step_at at_read d sh t =
    let r = fetch d t.input in
    (sh, record t { pc = after_read; buffer = r.stored; len = r.len; input = r.rest })
step_at after_read d sh t = (
  note_error t.len sh,
  go (if is_positive t.len then if sh.should_exit then at_stop else at_write else at_stop) t,
)
step_at at_write d sh t =
    let w = next_reply (length t.buffer) t.replies in
    (
      sh,
      record t {
        pc = after_write;
        len = w;
        replies = later_replies t.replies;
        calls = t.calls ++ t.buffer ∷ [];
        sent = t.sent ++ accepted w t.buffer;
      },
    )
step_at after_write d sh t = (
  note_error t.len sh,
  go (if is_error t.len then at_stop else if sh.should_exit then at_stop else at_test) t,
)
step_at at_stop d sh t = (stop_forwarding sh, go finished t)
step_at finished d sh t = (sh, t)

unfoldable pub step : ProxyDirection → Shared → Thread → Shared × Thread
unfolding step_at
step d sh t = step_at t.pc d sh t

pub record World : Type 0 where
  pub shared : Shared
  pub tcp_usb : Thread
  pub usb_tcp : Thread

-- one step of the thread that the scheduler picks
unfoldable pub turn : ProxyDirection → World → World
turn tcp_to_usb w =
    let (sh, t) = step tcp_to_usb w.shared w.tcp_usb in record w { shared = sh; tcp_usb = t }
turn usb_to_tcp w =
    let (sh, t) = step usb_to_tcp w.shared w.usb_tcp in record w { shared = sh; usb_tcp = t }

unfoldable pub run : List ProxyDirection → World → World
run [] w = w
run (d ∷ ds) w = run ds (turn d w)

-- a thread as `handleClient` starts it
abbrev pub fresh : Input → List Ssize → Thread
fresh s replies = record {
  pc = at_test;
  buffer = [];
  len = count 0;
  input = s;
  replies = replies;
  calls = [];
  sent = [];
}

-- the world in which both threads are started and `handleClient` waits in `join`
abbrev pub started : Input → List Ssize → Input → List Ssize → World
started tcp usb_replies usb tcp_replies = record {
  shared = record {
    should_exit = false;
    log_communication = false;
    usb_tcp_thread = true;
    tcp_usb_thread = true;
    signalled = [];
  };
  tcp_usb = fresh tcp usb_replies;
  usb_tcp = fresh usb tcp_replies;
}
