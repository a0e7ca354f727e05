-- ===== src/Control/Tokens.antt =====
-- `getCmdlineTokenValue` against the list of the tokens.
use wireless_android_auto_do.Prelude.{
  ℕ, ◌≡◌, refl, ap, inl, inr, Bool-cases, Bool, true, false, not, List, [], ◌∷◌, ◌++◌,
  if◌then◌else◌, length, drop,
}
use wireless_android_auto_do.Text.{Bytes, starts_with, before}
use wireless_android_auto_do.Control.{is_space, word, token_value, get_cmdline_token_value}

-- what stands behind the first word
abbrev pub behind_word : Bytes → Bytes
behind_word [] = []
behind_word (c ∷ s) = if is_space c then c ∷ s else behind_word s

abbrev starts_token : Bytes → Bool
starts_token [] = false
starts_token (c ∷ s) = not (is_space c)

-- A byte in front of the tokens: a new token, or the first byte of the next one.
abbrev put_byte : Bytes → Bytes → List Bytes → List Bytes
put_byte token s [] = token ∷ []
put_byte token s (w ∷ ws) = if starts_token s then (token ++ w) ∷ ws else token ∷ w ∷ ws

-- The tokens of a line: its longest pieces without white space.
abbrev pub tokens : Bytes → List Bytes
tokens [] = []
tokens (c ∷ s) = let rest = tokens s in if is_space c then rest else put_byte (c ∷ []) s rest

-- The rest of the first token with the prefix.
abbrev pub value_of : Bytes → List Bytes → Bytes
value_of prefix [] = []
value_of prefix (w ∷ ws) =
    if starts_with prefix w then drop (length prefix) w else value_of prefix ws

put_byte_new :
    (token s : Bytes) (ws : List Bytes) → starts_token s ≡ false → put_byte token s ws ≡ token ∷ ws
put_byte_new token s [] h = refl
put_byte_new token s (w ∷ ws) h = rw h refl

tokens-word :
    (c : ℕ) (s : Bytes)
    → is_space c ≡ false
    → tokens (c ∷ s) ≡ word (c ∷ s) ∷ tokens (behind_word s)
unfolding word
tokens-word c [] h = rw h refl
tokens-word c (d ∷ s) h = elim (Bool-cases (is_space d)) [
  | inl e ↦ rw (h, e) (rw e (put_byte_new (c ∷ []) (d ∷ s) (tokens s) (ap not e)))
  | inr e ↦ rw (h, tokens-word d s e, e) refl
]

-- inside a token, and at the start of one
token_value-tokens :
    (prefix s : Bytes)
    → (token_value prefix false s ≡ value_of prefix (tokens (behind_word s)))
      × (token_value prefix true s ≡ value_of prefix (tokens s))
unfolding token_value
token_value-tokens prefix [] = (refl, refl)
token_value-tokens prefix (c ∷ s) =
    let (inside, at_start) = token_value-tokens prefix s in
    elim (Bool-cases (is_space c)) [
      | inl e ↦ (rw e (rw e at_start), rw e at_start)
      | inr e ↦ (
        rw e inside,
        rw (tokens-word c s e, e)
            (ap
              (λ x.
                if starts_with prefix (word (c ∷ s))
                then drop (length prefix) (word (c ∷ s))
                else x)
              inside),
      )
    ]

-- The value of a key on the command line of the kernel is that of the first token that starts with
-- the key and `=`, among the pieces between white space of its first line; without such a token it
-- is empty.
pub get_cmdline_token_value-tokens :
    (cmdline key : Bytes)
    → get_cmdline_token_value cmdline key
      ≡ value_of (key ++ b'=' ∷ []) (tokens (before b'\n' cmdline))
unfolding get_cmdline_token_value
get_cmdline_token_value-tokens cmdline key = (token_value-tokens _ _).1
