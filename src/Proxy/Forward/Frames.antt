-- ===== src/Proxy/Forward/Frames.antt =====
-- The frames that the phone sends, and the calls of `write` on the USB side.
use wireless_android_auto_do.Prelude.{
  ℕ, ◌+◌, ◌≤◌, ◌<◌, ◌≡◌, refl, sym, ap, ◌∙◌, true, false, List, [], ◌∷◌, ◌++◌, arith, Bool-cases,
  inl, inr, if◌then◌else◌, length, append_assoc, flatten, length-append, map, map-append,
}
use wireless_android_auto_do.Text.{Bytes}
use wireless_android_auto_do.Stream.{Input, Ssize, count, delivered}
use wireless_android_auto_do.Proxy.{is_positive, read_message}
use wireless_android_auto_do.Proxy.Buffer.{read_message-InBounds}
use wireless_android_auto_do.Proxy.ReadMessage.{Frame, wire, IsFrame, read_message-Received}
use wireless_android_auto_do.Proxy.Forward.{
  ProxyDirection, tcp_to_usb, usb_to_tcp, Pc, at_test, at_read, after_read, at_write, after_write,
  at_stop, finished, Thread, Shared, buffer_len, go, is_error, step_at, step, World, turn, run,
}

-- A frame that the proxy can forward: it is well formed, not empty, and fits the buffer.
pub record Fits (f : Frame) : Type 0 where
  pub well_formed : IsFrame f
  pub not_empty : 0 < length f.payload
  pub fits : 4 + length f.payload ≤ buffer_len

abbrev pub AllFit : List Frame → Type 0
AllFit [] = Unit
AllFit (f ∷ fs) = Fits f × AllFit fs

abbrev pub wires : List Frame → Bytes
wires fs = flatten (map wire fs)

-- The buffer holds the next frame, and the stream the others.
pub record Holds (buffer : Bytes) (input : Input) (todo : List Frame) : Type 0 where
  pub next : Frame
  pub later : List Frame
  pub split : todo ≡ next ∷ later
  pub held : buffer ≡ wire next
  pub stream : delivered input ≡ wires later
  pub fit : AllFit later

abbrev pub Waits : Input → List Frame → Type 0
Waits input todo = (delivered input ≡ wires todo) × AllFit todo

abbrev pub Pending : Pc → Thread → List Frame → Type 0
Pending at_test t todo = Waits t.input todo
Pending at_read t todo = Waits t.input todo
Pending after_read t todo = is_positive t.len ≡ true → Holds t.buffer t.input todo
Pending at_write t todo = Holds t.buffer t.input todo
Pending after_write t todo = Waits t.input todo
Pending at_stop t todo = Unit
Pending finished t todo = Unit

pub record Inv (fs : List Frame) (t : Thread) : Type 0 where
  pub done : List Frame
  pub todo : List Frame
  pub split : done ++ todo ≡ fs
  pub calls : t.calls ≡ map wire done
  pub pending : Pending t.pc t todo

-- Nothing is read where nothing is delivered.
no_frame : (s : Input) → delivered s ≡ [] → is_positive (read_message buffer_len s).len ≡ true → ⊥
no_frame s e p =
    let b = read_message-InBounds buffer_len s (omega arith) in
    let r = read_message buffer_len s in
    let joined = ap length (sym e ∙ b.front p) ∙ length-append r.stored (delivered r.rest) in
    let z : length r.stored ≡ 0 = omega (arith, joined) in
    cc (sym p ∙ ap is_positive (b.counts p) ∙ ap (λ (n : ℕ). is_positive (count n)) z)

-- A read that succeeds yields the next frame.
fetched-Holds :
    (t : Thread) (todo : List Frame)
    → delivered t.input ≡ wires todo
    → AllFit todo
    → is_positive (read_message buffer_len t.input).len ≡ true
    → Holds (read_message buffer_len t.input).stored (read_message buffer_len t.input).rest todo
fetched-Holds t [] e fit p = absurd (no_frame t.input e p)
fetched-Holds t (f ∷ fs) e fit p =
    let r =
      read_message-Received buffer_len f t.input (wires fs) fit.0.well_formed fit.0.not_empty
        fit.0.fits e in
    record { next = f; later = fs; split = refl; held = r.stored; stream = r.rest; fit = fit.1 }

give_up : {fs : List Frame} {t : Thread} → Inv fs t → Inv fs (go at_stop t)
give_up v = record { done = v.done; todo = v.todo; split = v.split; calls = v.calls; pending = tt }

-- A written frame goes from `todo` to `done`.
written :
    {fs : List Frame} {t : Thread} (w : Ssize) (replies : List Ssize) (sent : Bytes) (v : Inv fs t)
    → Holds t.buffer t.input v.todo
    → Inv fs (record t {
      pc = after_write;
      len = w;
      replies = replies;
      calls = t.calls ++ t.buffer ∷ [];
      sent = sent;
    })
written {t} w replies sent v h = record {
  done = v.done ++ h.next ∷ [];
  todo = h.later;
  split = append_assoc v.done (h.next ∷ []) h.later ∙ ap (λ x. v.done ++ x) (sym h.split) ∙ v.split;
  calls =
      ap (λ x. x ++ t.buffer ∷ []) v.calls
      ∙ ap (λ x. map wire v.done ++ x ∷ []) h.held
      ∙ sym (map-append wire v.done (h.next ∷ []));
  pending = (h.stream, h.fit);
}

module _ (fs : List Frame) (sh : Shared) where
  pub step_at-Inv :
      (pc : Pc) (t : Thread) → t.pc ≡ pc → Inv fs t → Inv fs (step_at pc tcp_to_usb sh t).1
  unfolding step_at
  step_at-Inv at_test t e v =
      elim sh.should_exit as (λ b. Inv fs (go (if b then at_stop else at_read) t)) [
        | true ↦ give_up v
        | false ↦ record {
          done = v.done;
          todo = v.todo;
          split = v.split;
          calls = v.calls;
          pending = rw e at v.pending;
        }
      ]
  step_at-Inv at_read t e v =
      let waits : Waits t.input v.todo = rw e at v.pending in
      record {
        done = v.done;
        todo = v.todo;
        split = v.split;
        calls = v.calls;
        pending = fetched-Holds t v.todo waits.0 waits.1;
      }
  step_at-Inv after_read t e v = elim (Bool-cases (is_positive t.len)) [
    | inl pos ↦
        rw pos (elim sh.should_exit as (λ b. Inv fs (go (if b then at_stop else at_write) t)) [
          | true ↦ give_up v
          | false ↦ record {
            done = v.done;
            todo = v.todo;
            split = v.split;
            calls = v.calls;
            pending = (rw e at v.pending) pos;
          }
        ])
    | inr z ↦ rw z (give_up v)
  ]
  step_at-Inv at_write t e v = written _ _ _ v (rw e at v.pending)
  step_at-Inv after_write t e v =
      elim (is_error t.len)
        as (λ b.
          Inv fs (go (if b then at_stop else if sh.should_exit then at_stop else at_test) t)) [
            | true ↦ give_up v
            | false ↦ elim sh.should_exit as (λ b. Inv fs (go (if b then at_stop else at_test) t)) [
              | true ↦ give_up v
              | false ↦ record {
                done = v.done;
                todo = v.todo;
                split = v.split;
                calls = v.calls;
                pending = rw e at v.pending;
              }
            ]
          ]
  step_at-Inv at_stop t e v = record {
    done = v.done;
    todo = v.todo;
    split = v.split;
    calls = v.calls;
    pending = tt;
  }
  step_at-Inv finished t e v = v

pub run-Inv :
    (fs : List Frame) (ds : List ProxyDirection) (w : World)
    → Inv fs w.tcp_usb
    → Inv fs (run ds w).tcp_usb
unfolding run turn step
run-Inv fs [] w v = v
run-Inv fs (tcp_to_usb ∷ ds) w v =
    run-Inv fs ds (turn tcp_to_usb w) (step_at-Inv fs w.shared w.tcp_usb.pc w.tcp_usb refl v)
run-Inv fs (usb_to_tcp ∷ ds) w v = run-Inv fs ds (turn usb_to_tcp w) v

-- The frames of which these buffers are the wire form, and the frames still to come.
abbrev pub Forwards : List Bytes → List Frame → Type 0
Forwards calls fs =
    (done : List Frame) × (todo : List Frame) × (done ++ todo ≡ fs) × (calls ≡ map wire done)
