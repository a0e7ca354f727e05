-- ===== src/Control/Serve.antt =====
-- `ControlSocketServer::run`: one command for each client of the socket.
pub mod Lines
use wireless_android_auto_do.Prelude.{
  ℕ, zero, suc, ◌+◌, Bool, true, false, List, [], ◌∷◌, ◌++◌, Option, none, some, ltb, ◌==◌,
  if◌then◌else◌, length,
}
use wireless_android_auto_do.Text.{Bytes, before, has_byte}
use wireless_android_auto_do.Stream.{Input, Ssize, count, error, Reading, read, delivered}
use wireless_android_auto_do.Proxy.{is_positive}
use wireless_android_auto_do.Control.{Handler, System, handle_command, write_all}

-- The loop that reads a command; `line` is what was read before. `none` means that the fuel ran
-- out; each round but the last takes a byte at least.
unfoldable pub read_line_loop : ℕ → Bytes → Input → Option Bytes
read_line_loop zero line s = none
read_line_loop (suc fuel) line s =
    let r = read 256 s in
    let line' = line ++ r.stored in
    let more = read_line_loop fuel line' r.rest in
    if is_positive r.len
    then if has_byte b'\n' line'
      then some (before b'\n' line')
      else if ltb 4096 (length line')
      then some line'
      else more
    else some line

-- `if (!line.empty() && line.back() == '\r') line.pop_back();`
unfoldable pub trim_return : Bytes → Bytes
trim_return [] = []
trim_return (c ∷ []) = if c == b'\r' then [] else c ∷ []
trim_return (c ∷ d ∷ s) = c ∷ trim_return (d ∷ s)

abbrev trimmed : Option Bytes → Option Bytes
trimmed none = none
trimmed (some line) = some (trim_return line)

-- the command of one client
unfoldable pub read_line : Input → Option Bytes
read_line s = trimmed (read_line_loop (suc (length (delivered s))) [] s)

-- What `accept` returns: a failure, which is logged and tried again, or a client, with what it
-- sends and the return values of the calls of `write` on it.
pub data Accept : Type 0 where
  accept_failed : Accept
  client : Input → List Ssize → Accept

abbrev listed : {S : Type 0} → Bytes → Option (List Bytes × S) → Option (List Bytes × S)
listed sent none = none
listed sent (some (rest, s)) = some (sent ∷ rest, s)

-- One client was served, and then the others.
abbrev pub answered :
    {S : Type 0} → Option (Bytes × S) → (S → Option (List Bytes × S)) → Option (List Bytes × S)
answered none others = none
answered (some (sent, s)) others = listed sent (others s)

module _ {S : Type 0} (handler : Handler S) (sys : System) where
  -- A line, once it is read: what was written to the client, and the state of the handler. The
  -- result of `writeAll` is not looked at.
  unfoldable pub answer : List Ssize → S → Option Bytes → Option (Bytes × S)
  answer replies s none = none
  answer replies s (some line) =
      let (response, s') = handle_command handler sys line s in
      some ((write_all replies response).1, s')

  unfoldable pub serve_client : Input → List Ssize → S → Option (Bytes × S)
  serve_client input replies s = answer replies s (read_line input)

  -- The accept loop, over the results of `accept`: what each client received, first to last.
  unfoldable pub run : List Accept → S → Option (List Bytes × S)
  run [] s = some ([], s)
  run (accept_failed ∷ accepts) s = run accepts s
  run (client input replies ∷ accepts) s =
      answered (serve_client input replies s) (λ s'. run accepts s')
