-- ===== src/Mqtt/Commands.antt =====
-- The commands that `parseCommandLine` understands, and what becomes of them.
use wireless_android_auto_do.Prelude.{
  ℕ, ◌≡◌, ◌≢◌, refl, sym, ap, ◌∙◌, Bool, true, false, ◌||◌, [], ◌∷◌, ◌++◌, some, arith, ◌==◌,
  append_assoc, if◌then◌else◌,
}
use wireless_android_auto_do.Text.{
  Bytes, codes, equal, starts_with, has_byte, trim_front, trim_back, contains, find, find_byte,
}
use wireless_android_auto_do.Text.Laws.{
  before-append, trim_back-keep, trim_back-append, trim_back_tail, contains-append, contains-behind,
}
use wireless_android_auto_do.Control.Serve.{trim_return}
use wireless_android_auto_do.Mqtt.{
  is_eol, quoted_value, value_at, value_behind, json_value, with_prefix, strip, parse_stripped,
  parse_command_line, shell, ask, ota_command, dispatch, on_message,
}

-- `text` does not end in a newline or a carriage return.
abbrev pub EndsClean : Bytes → Type 0
EndsClean text = trim_back is_eol text ≡ text

pub EndsClean-behind :
    (word selector : Bytes)
    → EndsClean (word ++ codes " ")
    → EndsClean selector
    → EndsClean (word ++ (b' ' ∷ selector))
EndsClean-behind word [] h k = h
EndsClean-behind word (c ∷ selector) h k =
    ap (trim_back is_eol) (sym (append_assoc word (codes " ") (c ∷ selector)))
    ∙ trim_back-append is_eol (word ++ codes " ") c selector k
    ∙ append_assoc word (codes " ") (c ∷ selector)

-- The plain form: `switch`, a space and a selector, which may hold anything but must not end in
-- an end of line, asks the control socket to switch to that selector.
pub on_message-switch :
    (selector : Bytes)
    → EndsClean selector
    → on_message (some (codes "switch " ++ selector)) ≡ ask (codes "SWITCH " ++ selector)
unfolding on_message parse_command_line strip trim_front
on_message-switch selector h =
    rw (EndsClean-behind (codes "switch") selector (unfold trim_back in refl) h)
      (unfold parse_stripped equal starts_with dispatch in refl)

last :
    (b b' : Bool) (c : ℕ)
    → (if b || b' then [] else c ∷ []) ≡ c ∷ []
    → (if b' then [] else c ∷ []) ≡ c ∷ []
last b b' c h = ground arith

-- What the trims of the bridge leave alone, the trim of the server leaves alone.
pub trim_return-EndsClean : (text : Bytes) → EndsClean text → trim_return text ≡ text
unfolding trim_return
trim_return-EndsClean [] h = refl
trim_return-EndsClean (c ∷ []) h = last (c == b'\n') (c == b'\r') c (unfold trim_back in h)
trim_return-EndsClean (c ∷ d ∷ s) h =
    ap (◌∷◌ c) (trim_return-EndsClean (d ∷ s) (trim_back_tail is_eol c (d ∷ s) h))

-- The text of an object with the keys `cmd` and `key`.
abbrev pub json_switch : Bytes → Bytes
json_switch selector = codes "{\"cmd\":\"switch\",\"selector\":\"" ++ (selector ++ codes "\"}")

abbrev pub json_ota : Bytes → Bytes
json_ota url = codes "{\"cmd\":\"ota\",\"url\":\"" ++ (url ++ codes "\"}")

-- An object ends in a brace, which the trims keep.
EndsClean-object : (text : Bytes) → EndsClean (text ++ codes "\"}")
EndsClean-object text =
    ap (trim_back is_eol) (sym (append_assoc text (codes "\"") (codes "}")))
    ∙ trim_back-keep is_eol (text ++ codes "\"") b'}' refl
    ∙ append_assoc text (codes "\"") (codes "}")

quoted_value-quoted :
    (value rest : Bytes)
    → value ≢ []
    → has_byte b'"' value ≡ false
    → quoted_value (b'"' ∷ (value ++ b'"' ∷ rest)) ≡ some value
unfolding quoted_value
quoted_value-quoted [] rest ne n = absurd (ne refl)
quoted_value-quoted (c ∷ cs) rest ne n = rw (before-append b'"' (c ∷ cs) rest n)

module _ (selector : Bytes) where
  json_switch-cmd :
      (contains (codes "\"cmd\"") (json_switch selector) ≡ true)
      × (contains (codes "switch") (json_switch selector) ≡ true)
  unfolding contains starts_with
  json_switch-cmd = (refl, refl)

  json_switch-selector :
      selector ≢ []
      → has_byte b'"' selector ≡ false
      → json_value (codes "\"selector\"") (json_switch selector) ≡ some selector
  unfolding json_value value_behind value_at find starts_with find_byte trim_front
  json_switch-selector ne n = quoted_value-quoted selector (codes "}") ne n

  -- The JSON form of the same command, where the selector is not empty and holds no quote, and
  -- the word `disconnect` does not occur in the payload.
  on_message-json_switch :
      selector ≢ []
      → has_byte b'"' selector ≡ false
      → contains (codes "disconnect") (json_switch selector) ≡ false
      → on_message (some (json_switch selector)) ≡ ask (codes "SWITCH " ++ selector)
  unfolding on_message parse_command_line strip trim_front dispatch parse_stripped equal starts_with
      with_prefix
  on_message-json_switch ne n free = rw (
    EndsClean-object (codes "{\"cmd\":\"switch\",\"selector\":\"" ++ selector),
    json_switch-cmd.0,
    free,
    json_switch-cmd.1,
    json_switch-selector ne n,
  )

module _ (url : Bytes) where
  json_ota-cmd :
      (contains (codes "\"cmd\"") (json_ota url) ≡ true)
      × (contains (codes "ota") (json_ota url) ≡ true)
  unfolding contains starts_with
  json_ota-cmd = (refl, refl)

  json_ota-url :
      url ≢ [] → has_byte b'"' url ≡ false → json_value (codes "\"url\"") (json_ota url) ≡ some url
  unfolding json_value value_behind value_at find starts_with find_byte trim_front
  json_ota-url ne n = quoted_value-quoted url (codes "}") ne n

  -- The JSON form of an update runs the helper on the address, where the address is not empty and
  -- holds no quote, and neither `disconnect` nor `switch` occurs in the payload.
  on_message-json_ota :
      url ≢ []
      → has_byte b'"' url ≡ false
      → contains (codes "disconnect") (json_ota url) ≡ false
      → contains (codes "switch") (json_ota url) ≡ false
      → on_message (some (json_ota url)) ≡ shell (ota_command url)
  unfolding on_message parse_command_line strip trim_front dispatch parse_stripped equal starts_with
      with_prefix
  on_message-json_ota ne n free free' = rw (
    EndsClean-object (codes "{\"cmd\":\"ota\",\"url\":\"" ++ url),
    json_ota-cmd.0,
    free,
    free',
    json_ota-cmd.1,
    json_ota-url ne n,
  )

-- An update in its JSON form whose address holds the word `disconnect` is taken for the command
-- that disconnects.
on_message-ota_disconnect :
    (a b : Bytes)
    → on_message (some (json_ota (a ++ (codes "disconnect" ++ b)))) ≡ ask (codes "DISCONNECT")
unfolding on_message parse_command_line strip trim_front dispatch parse_stripped equal starts_with
on_message-ota_disconnect a b =
    let url = a ++ (codes "disconnect" ++ b) in
    let word : contains (codes "disconnect") (json_ota url) ≡ true =
      rw (append_assoc a (codes "disconnect" ++ b) (codes "\"}")) (
        contains-behind (codes "disconnect") (codes "{\"cmd\":\"ota\",\"url\":\"" ++ a)
          (codes "disconnect" ++ (b ++ codes "\"}"))
          (contains-append (codes "disconnect") (b ++ codes "\"}"))) in
    rw (EndsClean-object (codes "{\"cmd\":\"ota\",\"url\":\"" ++ url), (json_ota-cmd url).0, word)
