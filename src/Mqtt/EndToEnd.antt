-- ===== src/Mqtt/EndToEnd.antt =====
-- From an MQTT message to the Bluetooth handler, and from the control socket to an MQTT status:
-- the bridge of mqttBridge.cpp against the server of controlSocket.cpp.
use wireless_android_auto_do.Prelude.{
  ℕ, zero, suc, ◌≤◌, ◌<◌, ◌≡◌, refl, sym, ap, ◌∙◌, inl, inr, true, false, [], ◌∷◌, ◌++◌, some,
  arith, ltb, Bool-cases, length, append_assoc, append-nil, length-append,
}
use wireless_android_auto_do.Text.{
  Bytes, codes, before, equal, starts_with, has_byte, is_empty, trim_back,
}
use wireless_android_auto_do.Text.Laws.{whole_line, has_byte_join, before-append, length-le-before}
use wireless_android_auto_do.Stream.{Input, read, delivered}
use wireless_android_auto_do.Stream.Laws.{some_bytes, no_bytes, read-Reads}
use wireless_android_auto_do.Control.{Handler, System, handle_command, print_bool}
use wireless_android_auto_do.Control.Json.{IsLine}
use wireless_android_auto_do.Control.Serve.{serve_client}
use wireless_android_auto_do.Control.Serve.Lines.{serve_client-command}
use wireless_android_auto_do.Mqtt.Commands.{
  EndsClean, EndsClean-behind, on_message-switch, trim_return-EndsClean,
}
use wireless_android_auto_do.Mqtt.{
  lacks_newline, request, read_answer_loop, Connection, unix_sock_request, ask, on_message,
  status_payload, publish_status,
}

lacks_newline-clean : (s : Bytes) → has_byte b'\n' s ≡ false → lacks_newline s ≡ true
unfolding lacks_newline has_byte
lacks_newline-clean [] h = refl
lacks_newline-clean (c ∷ []) h = ground arith
lacks_newline-clean (c ∷ d ∷ s) h = lacks_newline-clean (d ∷ s) (unfold has_byte in (ground arith))

request-clean : (line : Bytes) → has_byte b'\n' line ≡ false → request line ≡ line ++ b'\n' ∷ []
unfolding request
request-clean line h = rw (lacks_newline-clean line h)

module _ {S : Type 0} (handler : Handler S) (sys : System) where
  switch_answer :
      (selector : Bytes) (s : S)
      → let (ok, s') = handler.switch_to_device selector s in
        some (handle_command handler sys (codes "SWITCH " ++ selector) s)
        ≡ some (codes "{\"ok\":" ++ (print_bool ok ++ codes "}\n"), s')
  unfolding handle_command equal starts_with
  switch_answer selector s = refl

  -- The message `switch`, a space and a selector makes the bridge send one request, and the
  -- server, reading that request from the socket however it is cut into arrivals, has the handler
  -- switch to exactly this selector and answers with the result; where the selector holds no
  -- newline, does not end in a carriage return, and has at most 4089 bytes.
  pub switch_reaches_handler :
      (selector : Bytes) (input : Input) (s : S)
      → EndsClean selector
      → has_byte b'\n' selector ≡ false
      → length selector ≤ 4089
      → delivered input ≡ request (codes "SWITCH " ++ selector)
      → let (ok, s') = handler.switch_to_device selector s in
        (on_message (some (codes "switch " ++ selector)) ≡ ask (codes "SWITCH " ++ selector))
        × (serve_client handler sys input [] s
            ≡ some (codes "{\"ok\":" ++ (print_bool ok ++ codes "}\n"), s'))
  switch_reaches_handler selector input s clean n h d =
      let line = codes "SWITCH " ++ selector in
      let n' = has_byte_join b'\n' (codes "SWITCH ") selector (unfold has_byte in refl) n in
      (
        on_message-switch selector clean,
        serve_client-command handler sys line [] input s (d ∙ request-clean line n') n'
              (trim_return-EndsClean line
                (EndsClean-behind (codes "SWITCH") selector (unfold trim_back in refl) clean))
              (omega arith)
            ∙ switch_answer selector s,
      )

has_newline-line : (b : ℕ) (line : Bytes) → has_byte b (line ++ b ∷ []) ≡ true
unfolding has_byte
has_newline-line b [] = ground arith
has_newline-line b (c ∷ line) = ground (arith, has_newline-line b line)

not_longer : (n m : ℕ) → n ≤ m → m < 65536 → ltb 65536 n ≡ false
not_longer n m h k = ground arith

read_answer_loop-whole :
    (fuel : ℕ) (out line : Bytes) (s : Input)
    → length (delivered s) < fuel
    → has_byte b'\n' out ≡ false
    → has_byte b'\n' line ≡ false
    → out ++ delivered s ≡ line ++ b'\n' ∷ []
    → length line < 65536
    → read_answer_loop fuel out s ≡ some (line ++ b'\n' ∷ [])
unfolding read_answer_loop
read_answer_loop-whole zero out line s f a n e h = absurd (omega arith)
read_answer_loop-whole (suc fuel) out line s f a n e h = elim (read-Reads 1024 s (omega arith)) [
  | no_bytes l st d ↦ absurd (
      let out_whole = sym (append-nil out) ∙ ap (λ x. out ++ x) (sym d) ∙ e in
      cc (a, ap (has_byte b'\n') out_whole, has_newline-line b'\n' line))
  | some_bytes b bs l st le d _ ↦
      let after = (read 1024 s).rest in
      let out' = out ++ b ∷ bs in
      let same = append_assoc out (b ∷ bs) (delivered after) ∙ ap (λ x. out ++ x) (sym d) ∙ e in
      let size = ap length d ∙ length-append (b ∷ bs) (delivered after) in
      elim (Bool-cases (has_byte b'\n' out')) [
        | inl found ↦
            rw (l, st, found) (ap some (whole_line b'\n' out' (delivered after) line same n found))
        | inr more ↦
            let behind =
              ap (λ x. length (before b'\n' x)) same ∙ ap length (before-append b'\n' line [] n) in
            let short =
              not_longer (length out') (length line)
                (omega (arith, length-le-before b'\n' out' (delivered after) more, behind)) h in
            rw (l, st, more, short)
              (read_answer_loop-whole fuel out' line after (omega (arith, size)) more n same h)
      ]
]

not_empty : (line : Bytes) → is_empty (line ++ b'\n' ∷ []) ≡ false
not_empty [] = refl
not_empty (c ∷ line) = refl

-- The bridge publishes the answer of the control socket as its status, byte for byte, however the
-- answer is cut into arrivals, where the answer is one line of at most 65536 bytes, and the
-- socket takes the request.
pub publish_status-IsLine :
    (response : Bytes) (c : Connection)
    → c.socket_ok ≡ true
    → c.connect_ok ≡ true
    → c.write_ok ≡ true
    → IsLine response
    → length response ≤ 65536
    → delivered c.input ≡ response
    → publish_status c ≡ some response
unfolding publish_status unix_sock_request status_payload
publish_status-IsLine response c s k w (line, e, n) h d =
    let read =
      read_answer_loop-whole (suc (length (delivered c.input))) [] line c.input (omega arith)
        (unfold has_byte in refl) n (d ∙ e)
        (omega (arith, ap length e, length-append line (b'\n' ∷ []))) in
    rw (s, k, w, read, not_empty line) (ap some (sym e))
