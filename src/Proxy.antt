-- ===== src/Proxy.antt =====
-- proxyHandler.cpp: reading whole messages of the Android Auto stream.
-- `errno` is read for log lines only, and is left out.
pub mod ReadFully
mod Tests
pub mod ReadMessage
pub mod Forward
pub mod Buffer
pub mod Client
use wireless_android_auto_do.Prelude.{
  ℕ, zero, suc, ◌+◌, ◌-◌, ◌*◌, ◌%◌, Bool, true, false, List, [], ◌∷◌, ◌++◌, ltb, ◌==◌,
  if◌then◌else◌, length,
}
use wireless_android_auto_do.Text.{Bytes}
use wireless_android_auto_do.Stream.{Input, Ssize, count, error, Reading, read}

-- `len > 0`
abbrev pub is_positive : Ssize → Bool
is_positive (count zero) = false
is_positive (count (suc n)) = true
is_positive error = false

-- The loop of `AAWProxy::readFully`; `buffer` holds the bytes stored so far. Each round but the
-- last takes at least one byte off `remaining`, so `nbyte` rounds are enough: with no fuel left,
-- `remaining` is 0.
unfoldable pub read_fully_loop : ℕ → ℕ → ℕ → Bytes → Input → Reading
read_fully_loop nbyte zero remaining buffer s = record {
  len = count nbyte;
  stored = buffer;
  rest = s;
}
read_fully_loop nbyte (suc fuel) remaining buffer s =
    let r = read remaining s in
    let more =
      read_fully_loop nbyte fuel (remaining - length r.stored) (buffer ++ r.stored) r.rest in
    if remaining == 0
    then record { len = count nbyte; stored = buffer; rest = s }
    else if is_positive r.len
    then more
    else record { len = r.len; stored = buffer; rest = r.rest }

-- `AAWProxy::readFully`
unfoldable pub read_fully : ℕ → Input → Reading
read_fully nbyte s = read_fully_loop nbyte nbyte nbyte [] s

-- `buffer[i]`
abbrev pub byte_at : ℕ → Bytes → ℕ
byte_at i [] = 0
byte_at zero (b ∷ bs) = b
byte_at (suc i) (b ∷ bs) = byte_at i bs

abbrev pub header_length : ℕ
header_length = 4

-- `(buffer[1] & FRAME_TYPE_MASK) == FRAME_TYPE_FIRST`: the two low bits are 01
abbrev pub is_first_frame : Bytes → Bool
is_first_frame buffer = byte_at 1 buffer % 4 == 1

-- `message_length`, from the header
unfoldable pub message_length : Bytes → ℕ
message_length buffer =
    let length_field = byte_at 2 buffer * 256 + byte_at 3 buffer in
    if is_first_frame buffer then length_field + 4 else length_field

-- `AAWProxy::readMessage` once the header is in the buffer
unfoldable pub read_body : ℕ → Reading → Reading
read_body buffer_len header =
    let wanted = message_length header.stored in
    let body = read_fully wanted header.rest in
    if ltb buffer_len (header_length + wanted)
    then record { len = error; stored = header.stored; rest = header.rest }
    else if is_positive body.len
    then record {
      len = count (header_length + wanted);
      stored = header.stored ++ body.stored;
      rest = body.rest;
    }
    else record { len = body.len; stored = header.stored ++ body.stored; rest = body.rest }

-- `AAWProxy::readMessage`
unfoldable pub read_message : ℕ → Input → Reading
read_message buffer_len s =
    let header = read_fully header_length s in
    if is_positive header.len then read_body buffer_len header else header
