-- ===== src/Proxy/ReadMessage.antt =====
-- `AAWProxy::readMessage` against the frames of the Android Auto wire format.
use wireless_android_auto_do.Prelude.{
  ℕ, zero, suc, ◌+◌, ◌-◌, ◌/◌, ◌%◌, ◌≤◌, ◌<◌, ◌≡◌, refl, ◌∙◌, true, false, [], ◌∷◌, ◌++◌, arith,
  ◌==◌, if◌then◌else◌, ltb, lt→ltb, length, take, drop, length-append, take-append_le, take_all,
}
use wireless_android_auto_do.Text.{Bytes}
use wireless_android_auto_do.Stream.{Input, count, error, Reading, delivered}
use wireless_android_auto_do.Proxy.ReadFully.{read_fully-Filled}
use wireless_android_auto_do.Proxy.{
  is_positive, read_fully, message_length, read_body, read_message,
}

-- A frame as the phone sends it. `payload` is all that follows the four bytes of the header.
pub record Frame : Type 0 where
  pub channel : ℕ
  pub flags : ℕ
  pub payload : Bytes

-- A first frame of several carries the total length, four bytes that its length field leaves out.
abbrev pub extra : Frame → ℕ
extra f = if f.flags % 4 == 1 then 4 else 0

abbrev pub length_field : Frame → ℕ
length_field f = length f.payload - extra f

abbrev pub wire : Frame → Bytes
wire f = f.channel ∷ f.flags ∷ (length_field f / 256) ∷ (length_field f % 256) ∷ f.payload

-- The payload holds the extra bytes, and the length fits its two bytes.
pub record IsFrame (f : Frame) : Type 0 where
  pub has_extra : extra f ≤ length f.payload
  pub fits : length_field f < 65536

-- What a read of the header leaves: the four bytes, and the stream behind them.
record Header (f : Frame) (s : Input) (tail : Bytes) (r : Reading) : Type 0 where
  len : r.len ≡ count 4
  stored : r.stored ≡ take 4 (wire f)
  rest : delivered r.rest ≡ f.payload ++ tail

read_fully-Header :
    (f : Frame) (s : Input) (tail : Bytes)
    → delivered s ≡ wire f ++ tail
    → Header f s tail (read_fully 4 s)
read_fully-Header f s tail d =
    let filled = read_fully-Filled 4 s (rw d (omega arith)) in
    record { len = filled.len; stored = filled.stored ∙ rw d; rest = filled.rest ∙ rw d }

message_length-wire : (f : Frame) → IsFrame f → message_length (take 4 (wire f)) ≡ length f.payload
unfolding message_length
message_length-wire f v = ground arith

-- What is left of a read of the body, once the header is read.
record Body (f : Frame) (s : Input) (tail : Bytes) (r : Reading) : Type 0 where
  len : r.len ≡ count (length f.payload)
  stored : r.stored ≡ f.payload
  rest : delivered r.rest ≡ tail

take-append_self : (xs ys : Bytes) → take (length xs) (xs ++ ys) ≡ xs
take-append_self xs ys =
    take-append_le (length xs) xs ys (omega arith) ∙ take_all (length xs) xs (omega arith)

drop-append_self : (xs ys : Bytes) → drop (length xs) (xs ++ ys) ≡ ys
drop-append_self [] ys = refl
drop-append_self (x ∷ xs) ys = drop-append_self xs ys

read_fully-Body :
    (f : Frame) (s : Input) (tail : Bytes)
    → delivered s ≡ f.payload ++ tail
    → Body f s tail (read_fully (length f.payload) s)
read_fully-Body f s tail d =
    let filled =
      read_fully-Filled (length f.payload) s (rw d (omega (arith, length-append f.payload tail))) in
    record {
      len = filled.len;
      stored = filled.stored ∙ rw d (take-append_self f.payload tail);
      rest = filled.rest ∙ rw d (drop-append_self f.payload tail);
    }

ltb-false : (a b : ℕ) → b ≤ a → ltb a b ≡ false
ltb-false a b h = ground arith

is_positive-count : (n : ℕ) → 0 < n → is_positive (count n) ≡ true
is_positive-count zero h = absurd (omega arith)
is_positive-count (suc n) h = refl

-- What `readMessage` returns for a whole frame.
pub record Received (f : Frame) (tail : Bytes) (r : Reading) : Type 0 where
  pub len : r.len ≡ count (4 + length f.payload)
  pub stored : r.stored ≡ wire f
  pub rest : delivered r.rest ≡ tail

-- A well-formed frame with a payload that fits the buffer is returned whole, however the stream is cut into
-- arrivals, and what follows it is left in the stream.
pub read_message-Received :
    (buffer_len : ℕ) (f : Frame) (s : Input) (tail : Bytes)
    → IsFrame f
    → 0 < length f.payload
    → 4 + length f.payload ≤ buffer_len
    → delivered s ≡ wire f ++ tail
    → Received f tail (read_message buffer_len s)
unfolding read_message read_body
read_message-Received buffer_len f s tail v p fits d =
    let h = read_fully-Header f s tail d in
    let wanted = message_length-wire f v in
    let b = read_fully-Body f (read_fully 4 s).rest tail h.rest in
    rw (h.len, h.stored, wanted, ltb-false buffer_len (4 + length f.payload) fits, b.len)
      (rw (is_positive-count (length f.payload) p)
        (record { len = refl; stored = rw b.stored; rest = b.rest }))

-- An empty frame, a header whose length is 0, makes `readMessage` return 0 as the end of the
-- stream does, although the frame was read and the stream goes on.
pub read_message_empty :
    (buffer_len : ℕ) (f : Frame) (s : Input) (tail : Bytes)
    → IsFrame f
    → length f.payload ≡ 0
    → 4 ≤ buffer_len
    → delivered s ≡ wire f ++ tail
    → ((read_message buffer_len s).len ≡ count 0)
      × (delivered (read_message buffer_len s).rest ≡ tail)
unfolding read_message read_body
read_message_empty buffer_len f s tail v z fits d =
    let h = read_fully-Header f s tail d in
    let wanted = message_length-wire f v in
    let b = read_fully-Body f (read_fully 4 s).rest tail h.rest in
    rw (h.len, h.stored, wanted, ltb-false buffer_len (4 + length f.payload) (omega arith), b.len)
      (rw z (refl, rw (← z) b.rest))

-- A frame that does not fit the buffer is refused with an error; its header is taken and its
-- payload is left in the stream.
pub read_message_too_long :
    (buffer_len : ℕ) (f : Frame) (s : Input) (tail : Bytes)
    → IsFrame f
    → buffer_len < 4 + length f.payload
    → delivered s ≡ wire f ++ tail
    → ((read_message buffer_len s).len ≡ error)
      × (delivered (read_message buffer_len s).rest ≡ f.payload ++ tail)
unfolding read_message read_body
read_message_too_long buffer_len f s tail v big d =
    let h = read_fully-Header f s tail d in
    let wanted = message_length-wire f v in
    rw (h.len, h.stored, wanted, lt→ltb buffer_len (4 + length f.payload) big) (refl, h.rest)
