-- ===== src/Proxy/Buffer.antt =====
-- `AAWProxy::readMessage` on every stream: the buffer is never overrun, and a positive return
-- value counts bytes that stood at the front of the stream.
use wireless_android_auto_do.Prelude.{
  ℕ, ◌+◌, ◌≤◌, ◌≡◌, refl, sym, ap, ◌∙◌, inl, inr, true, false, ◌++◌, arith, ltb, Bool-cases, length,
  append_assoc, length-append,
}
use wireless_android_auto_do.Stream.{Input, count, Reading, delivered}
use wireless_android_auto_do.Proxy.ReadFully.{full, short, read_fully-Fully}
use wireless_android_auto_do.Proxy.{
  is_positive, read_fully, message_length, read_body, read_message,
}

pub record InBounds (buffer_len : ℕ) (s : Input) (r : Reading) : Type 0 where
  pub within : length r.stored ≤ buffer_len
  pub counts : is_positive r.len ≡ true → r.len ≡ count (length r.stored)
  pub front : is_positive r.len ≡ true → delivered s ≡ r.stored ++ delivered r.rest

-- `readMessage` passes on a return value of `readFully` that is not positive.
refused :
    (buffer_len : ℕ) (s : Input) (r : Reading)
    → is_positive r.len ≡ false
    → length r.stored ≤ buffer_len
    → InBounds buffer_len s r
refused buffer_len s r z le = record { within = le; counts = λ p. cc; front = λ p. cc }

read_body-InBounds :
    (buffer_len : ℕ) (s : Input) (h : Reading)
    → 4 ≤ buffer_len
    → length h.stored ≡ 4
    → delivered s ≡ h.stored ++ delivered h.rest
    → InBounds buffer_len s (read_body buffer_len h)
unfolding read_body
read_body-InBounds buffer_len s h le four d =
    let body = read_fully (message_length h.stored) h.rest in
    let both = length-append h.stored body.stored in
    elim (Bool-cases (ltb buffer_len (4 + message_length h.stored))) [
      | inl big ↦ rw big (refused buffer_len s _ refl (omega arith))
      | inr fits ↦ elim (Bool-cases (is_positive body.len)) [
        | inl pos ↦ elim (read_fully-Fully (message_length h.stored) h.rest) [
          | full l size e ↦
              rw (fits, pos)
                (record {
                  within = ground arith;
                  counts = λ p. ap count (omega arith);
                  front = λ p. d ∙ ap (λ t. h.stored ++ t) e ∙ sym (append_assoc h.stored _ _);
                })
          | short z size ↦ absurd (cc)
        ]
        | inr none_left ↦ elim (read_fully-Fully (message_length h.stored) h.rest) [
          | full l size e ↦ rw (fits, none_left) (refused buffer_len s _ none_left (ground arith))
          | short z size ↦ rw (fits, none_left) (refused buffer_len s _ none_left (ground arith))
        ]
      ]
    ]

-- With room for a header, `readMessage` stores at most `buffer_len` bytes, whatever arrives; and
-- where it returns a positive number, that number counts the stored bytes, and they are the
-- bytes that stood at the front of the stream.
pub read_message-InBounds :
    (buffer_len : ℕ) (s : Input)
    → 4 ≤ buffer_len
    → InBounds buffer_len s (read_message buffer_len s)
unfolding read_message
read_message-InBounds buffer_len s le = elim (read_fully-Fully 4 s) [
  | full l size e ↦
      let pos : is_positive (read_fully 4 s).len ≡ true = rw l in
      rw pos (read_body-InBounds buffer_len s (read_fully 4 s) le size e)
  | short z size ↦ rw z (refused buffer_len s (read_fully 4 s) z (omega arith))
]
