-- ===== src/Mqtt/Shell.antt =====
-- The command line of an update, as the shell of `std::system` reads its quotes.
use wireless_android_auto_do.Prelude.{
  ℕ, ◌≡◌, refl, ap, ◌∙◌, false, [], ◌∷◌, ◌++◌, Option, none, some, arith, ◌==◌, if◌then◌else◌,
  append_assoc,
}
use wireless_android_auto_do.Text.{
  Bytes, codes, before, has_byte, starts_with, equal, trim_front, trim_back,
}
use wireless_android_auto_do.Text.Laws.{trim_back-append, before_all, before-append, has_byte_join}
use wireless_android_auto_do.Mqtt.Commands.{EndsClean}
use wireless_android_auto_do.Mqtt.{
  is_eol, strip, parse_stripped, parse_command_line, shell, ota_command, dispatch, on_message,
}

abbrev push : ℕ → Option (Bytes × Bytes) → Option (Bytes × Bytes)
push c none = none
push c (some (cs, rest)) = some (c ∷ cs, rest)

-- POSIX single quotes, behind the opening one: the text up to the next single quote, taken as it
-- is, and what follows that quote; `none` where no quote closes it.
abbrev pub single_quoted : Bytes → Option (Bytes × Bytes)
single_quoted [] = none
single_quoted (c ∷ s) = if c == b'\'' then some ([], s) else push c (single_quoted s)

single_quoted_lem :
    (a rest : Bytes) → has_byte b'\'' a ≡ false → single_quoted (a ++ b'\'' ∷ rest) ≡ some (a, rest)
unfolding has_byte
single_quoted_lem [] rest n = refl
single_quoted_lem (c ∷ a) rest n = ground (arith, single_quoted_lem a rest)

single_quoted_open : (a : Bytes) → has_byte b'\'' a ≡ false → single_quoted a ≡ none
unfolding has_byte
single_quoted_open [] n = refl
single_quoted_open (c ∷ a) n = ground (arith, single_quoted_open a)

-- the command line up to the quote that it opens
abbrev pub helper : Bytes
helper = codes "/usr/bin/aawg-ota-apply '"

EndsClean-last : (c : ℕ) (s : Bytes) → is_eol c ≡ false → EndsClean s → EndsClean (c ∷ s)
unfolding trim_back
EndsClean-last c [] n h = ground arith
EndsClean-last c (d ∷ s) n h = trim_back-append is_eol (c ∷ []) d s h

EndsClean-join :
    (a : Bytes) (c : ℕ) (s : Bytes) → is_eol c ≡ false → EndsClean s → EndsClean (a ++ c ∷ s)
EndsClean-join a c s n h = trim_back-append is_eol a c s (EndsClean-last c s n h)

on_message-ota :
    (url : Bytes)
    → EndsClean url
    → on_message (some (codes "ota " ++ url)) ≡ shell (ota_command url)
unfolding on_message parse_command_line strip trim_front dispatch parse_stripped equal starts_with
on_message-ota url h = rw (EndsClean-join (codes "ota") b' ' url refl h) refl

-- The payload makes the bridge run a command line in which `cmd` stands behind the helper and the
-- opening quote, and the shell reads this as `r`.
abbrev pub ReadAs : Bytes → Option (Bytes × Bytes) → Type 0
ReadAs payload r =
    (cmd : Bytes) × (on_message (some payload) ≡ shell (helper ++ cmd)) × (single_quoted cmd ≡ r)

ota_command-whole :
    (url : Bytes) → has_byte 0 url ≡ false → ota_command url ≡ helper ++ (url ++ codes "'")
unfolding ota_command
ota_command-whole url n = before_all 0 (helper ++ (url ++ codes "'")) (
    has_byte_join 0 helper (url ++ codes "'") (unfold has_byte in refl)
      (has_byte_join 0 url (codes "'") n (unfold has_byte in refl)))

ota_command-cut : (a b : Bytes) → has_byte 0 a ≡ false → ota_command (a ++ 0 ∷ b) ≡ helper ++ a
unfolding ota_command
ota_command-cut a b n =
    ap (λ s. before 0 (helper ++ s)) (append_assoc a (0 ∷ b) (codes "'"))
    ∙ before-append 0 (helper ++ a) (b ++ codes "'")
        (has_byte_join 0 helper a (unfold has_byte in refl) n)

-- The message `ota`, a space and an address makes the bridge run the helper on the address. The
-- shell reads an address with no single quote and no NUL as one quoted word, with nothing behind
-- it. The first single quote of an address ends the word: what follows it in the address is read
-- by the shell as part of the command line. And the first NUL cuts the command line off, so that
-- the word is not closed. All this where neither part of the address ends in an end of line, and
-- where what is behind a single quote has no NUL.
pub on_message-ReadAs :
    (a b : Bytes)
    → has_byte b'\'' a ≡ false
    → has_byte 0 a ≡ false
    → has_byte 0 b ≡ false
    → EndsClean a
    → EndsClean b
    → ReadAs (codes "ota " ++ a) (some (a, []))
      × ReadAs (codes "ota " ++ (a ++ b'\'' ∷ b)) (some (a, b ++ codes "'"))
      × ReadAs (codes "ota " ++ (a ++ 0 ∷ b)) none
on_message-ReadAs a b q z z' h k =
    let quoted = a ++ b'\'' ∷ b in
    (
      (
        a ++ codes "'",
        on_message-ota a h ∙ ap shell (ota_command-whole a z),
        single_quoted_lem a [] q,
      ),
      (
        quoted ++ codes "'",
        on_message-ota quoted (EndsClean-join a b'\'' b refl k)
            ∙ ap shell (
                ota_command-whole quoted (has_byte_join 0 a (b'\'' ∷ b) z (unfold has_byte in z'))),
        rw (append_assoc a (b'\'' ∷ b) (codes "'")) (single_quoted_lem a (b ++ codes "'") q),
      ),
      (
        a,
        on_message-ota (a ++ 0 ∷ b) (EndsClean-join a 0 b refl k)
            ∙ ap shell (ota_command-cut a b z),
        single_quoted_open a q,
      ),
    )
