-- ===== src/Control/Socket.antt =====
-- `ControlSocketServer::start` and the whole of `run`, with the number of descriptors that are
-- open. The results of `unlink` and `chmod` are not looked at.
use wireless_android_auto_do.Prelude.{
  ℕ, suc, ◌-◌, ◌≤◌, ◌≡◌, refl, arith, Bool, true, false, not, List, [], ◌∷◌, ◌++◌, Option, none,
  some, if◌then◌else◌, length,
}
use wireless_android_auto_do.Text.{Bytes, has_byte}
use wireless_android_auto_do.Stream.{Input, delivered}
use wireless_android_auto_do.Control.{Handler, System, handle_command}
use wireless_android_auto_do.Control.Serve.{
  Accept, accept_failed, client, serve_client, trim_return,
}
use wireless_android_auto_do.Control.Serve.Lines.{serve_client-command}

-- The results of the calls that set up the socket.
pub record Setup : Type 0 where
  pub socket_ok : Bool
  pub bind_ok : Bool
  pub listen_ok : Bool

-- `run` up to its loop: whether it comes to the loop, and the open descriptors
unfoldable pub set_up : Setup → ℕ → Bool × ℕ
set_up c n =
    if not c.socket_ok
    then (false, n)
    else if not c.bind_ok
    then (false, suc n - 1)
    else if not c.listen_ok
    then (false, suc n - 1)
    else (true, suc n)

-- `start`: whether there is a thread before, and whether this call makes one
unfoldable pub start : Bool → Bool × Bool
start has_thread = if has_thread then (true, false) else (true, true)

-- What the loop has done: the answers, first to last, the open descriptors, and the state of the
-- handler.
pub record Served (S : Type 0) : Type 0 where
  pub answers : List Bytes
  pub open_count : ℕ
  pub state : S

abbrev add_answer : {S : Type 0} → Bytes → Option (Served S) → Option (Served S)
add_answer sent none = none
add_answer sent (some r) = some (record r { answers = sent ∷ r.answers })

abbrev pub then_serve :
    {S : Type 0} → Option (Bytes × S) → (S → Option (Served S)) → Option (Served S)
then_serve none others = none
then_serve (some (sent, s)) others = add_answer sent (others s)

-- Clients that come in a row, with failed calls of `accept` between them. Each sends a command of at
-- most 4096 bytes and a newline, cut in any way, and anything behind it, and every `write` to it
-- takes all of its bytes.
pub data Visits : List Accept → List Bytes → Type 0 where
  nobody : Visits [] []
  failed :
      {accepts : List Accept} {lines : List Bytes}
      → Visits accepts lines
      → Visits (accept_failed ∷ accepts) lines
  visit :
      {line : Bytes} {input : Input} {accepts : List Accept} {lines : List Bytes} (tail : Bytes)
      → delivered input ≡ line ++ b'\n' ∷ tail
      → has_byte b'\n' line ≡ false
      → trim_return line ≡ line
      → length line ≤ 4096
      → Visits accepts lines
      → Visits (client input [] ∷ accepts) (line ∷ lines)

close_one : (n : ℕ) → suc n - 1 ≡ n
close_one n = omega arith

module _ {S : Type 0} (handler : Handler S) (sys : System) where
  -- The loop with its descriptors: `accept` opens one, and `close` stands at the end of a round.
  unfoldable pub accept_loop : List Accept → ℕ → S → Option (Served S)
  accept_loop [] n s = some (record { answers = []; open_count = n; state = s })
  accept_loop (accept_failed ∷ accepts) n s = accept_loop accepts n s
  accept_loop (client input replies ∷ accepts) n s =
      then_serve (serve_client handler sys input replies s)
        (λ s'. accept_loop accepts (suc n - 1) s')

  -- `run`
  unfoldable pub run_socket : Setup → List Accept → ℕ → S → Option (Served S)
  run_socket c accepts n s =
      let (ok, n') = set_up c n in
      let served = accept_loop accepts n' s in
      if ok then served else some (record { answers = []; open_count = n'; state = s })

  -- What `handleCommand` answers to commands in a row.
  abbrev pub answers_to : List Bytes → S → List Bytes × S
  answers_to [] s = ([], s)
  answers_to (line ∷ lines) s =
      let (response, s') = handle_command handler sys line s in
      let (rest, s'') = answers_to lines s' in (response ∷ rest, s'')

  accept_loop-Visits :
      {accepts : List Accept} {lines : List Bytes}
      → Visits accepts lines
      → (m : ℕ) (s : S)
      → accept_loop accepts m s
        ≡ some (record {
          answers = (answers_to lines s).0;
          open_count = m;
          state = (answers_to lines s).1;
        })
  unfolding accept_loop
  accept_loop-Visits nobody m s = refl
  accept_loop-Visits (failed v) m s = accept_loop-Visits v m s
  accept_loop-Visits (visit {line} {input} tail d n t le v) m s =
      rw (serve_client-command handler sys line tail input s d n t le, close_one m)
        (rw (accept_loop-Visits v m (handle_command handler sys line s).1) refl)

  -- Where the set-up succeeds, and clients come in a row, with failed calls of `accept` between them,
  -- each of which sends one command of at most 4096 bytes and a newline, however it is cut into
  -- arrivals and whatever follows it, where the command holds no newline and does not end in a
  -- carriage return, and every write to a client takes all of its bytes, then each client in turn
  -- receives the whole answer of `handleCommand` to its command, the handler being left for it as
  -- the commands before it left it; and in the end just the socket is open besides what was open
  -- before.
  pub run_socket-Visits :
      {accepts : List Accept} {lines : List Bytes} (c : Setup) (n : ℕ) (s : S)
      → c.socket_ok ≡ true
      → c.bind_ok ≡ true
      → c.listen_ok ≡ true
      → Visits accepts lines
      → run_socket c accepts n s
        ≡ some (record {
          answers = (answers_to lines s).0;
          open_count = suc n;
          state = (answers_to lines s).1;
        })
  unfolding run_socket set_up
  run_socket-Visits c n s a b d v = rw (a, b, d) (accept_loop-Visits v (suc n) s)
