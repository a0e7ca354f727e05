-- ===== src/Profiles/Messages.antt =====
-- `SendMessage` and `ReadMessage` against each other.
use wireless_android_auto_do.Prelude.{
  ℕ, ◌+◌, ◌*◌, ◌/◌, ◌%◌, ◌≤◌, ◌<◌, ◌≡◌, ◌≢◌, refl, sym, ap, ◌∙◌, inl, inr, true, false, [], ◌∷◌,
  ◌++◌, arith, ltb, length, take, drop, length-append, Bool-cases,
}
use wireless_android_auto_do.Text.{Bytes}
use wireless_android_auto_do.Stream.{Input, count, delivered}
use wireless_android_auto_do.Profiles.ReadFully.{read_fully-Filled, read_fully_front}
use wireless_android_auto_do.Profiles.{
  read_fully, MessageId, invalid, other, to_message_id, id_number, host_short, frame, send_message,
  is_count, read_message,
}

-- The ids that two bytes can carry.
abbrev pub IsWireId : MessageId → Type 0
IsWireId invalid = ⊥
IsWireId (other n) = (8 ≤ n) × (n < 65536)
IsWireId _ = Unit

-- The bytes of a message, as the protocol has them.
abbrev pub encode : MessageId → Bytes → Bytes
encode id body =
    (length body / 256) ∷ (length body % 256) ∷ (id_number id / 256) ∷ (id_number id % 256) ∷ body

-- A body of fewer than 65532 bytes is sent in one frame: its length, the id, the body.
send_message-frame :
    (id : MessageId) (body : Bytes)
    → length body < 65532
    → send_message id body ≡ frame (encode id body)
unfolding send_message
send_message-frame id body h =
    rw (mod_small (length body) h, not_less (length body) h, same (length body))
  where
    mod_small : (n : ℕ) → n < 65532 → n % 65536 ≡ n
    mod_small n h = omega arith

    not_less : (n : ℕ) → n < 65532 → ltb ((n + 4) % 65536) (n + 4) ≡ false
    not_less n h = ground arith

    same : (n : ℕ) → ltb n n ≡ false
    same n = ground arith

to_message_id-id_number : (id : MessageId) → IsWireId id → to_message_id (id_number id) ≡ id
unfolding to_message_id id_number
to_message_id-id_number invalid h = absurd h
to_message_id-id_number (other n) h = ground arith
to_message_id-id_number _ h = refl

-- A number read off the wire is never the id that stands for a failure.
to_message_id-ne-invalid : (n : ℕ) → to_message_id n ≢ invalid
unfolding to_message_id
to_message_id-ne-invalid n = ground arith

host_short-network_short : (n : ℕ) → n / 256 * 256 + n % 256 ≡ n
host_short-network_short n = omega arith

-- One message off the front of the stream.
pub record Received (id : MessageId) (tail : Bytes) (r : MessageId × Input) : Type 0 where
  pub message_id : r.0 ≡ id
  pub rest : delivered r.1 ≡ tail

is_count_self : (n : ℕ) → is_count n (count n) ≡ true
is_count_self n = ground arith

drop-append_self : (xs ys : Bytes) → drop (length xs) (xs ++ ys) ≡ ys
drop-append_self [] ys = refl
drop-append_self (x ∷ xs) ys = drop-append_self xs ys

read_body :
    (n : ℕ) (body : Bytes) (s : Input) (tail : Bytes)
    → length body ≡ n
    → delivered s ≡ body ++ tail
    → ((read_fully n s).len ≡ count n) × (delivered (read_fully n s).rest ≡ tail)
read_body n body s tail z d =
    let f = read_fully-Filled n s (rw d (omega (arith, length-append body tail))) in
    (f.len, f.rest ∙ rw (d, ← z) (drop-append_self body tail))

nil_of_length : (xs : Bytes) → length xs ≡ 0 → xs ≡ []
nil_of_length [] h = refl
nil_of_length (x ∷ xs) h = absurd (omega arith)

pub read_message-encode :
    (id : MessageId) (body : Bytes) (s : Input) (tail : Bytes)
    → IsWireId id
    → delivered s ≡ encode id body ++ tail
    → Received id tail (read_message s)
unfolding read_message
read_message-encode id body s tail wire_id d =
    let r1 = read_fully 2 s in
    let first = read_fully-Filled 2 s (rw d (omega arith)) in
    let after = first.rest ∙ ap (λ t. drop 2 t) d in
    let r2 = read_fully 2 r1.rest in
    let second = read_fully-Filled 2 r1.rest (rw after (omega arith)) in
    let after' = second.rest ∙ ap (λ t. drop 2 t) after in
    let size =
      ap host_short (first.stored ∙ ap (λ t. take 2 t) d)
      ∙ host_short-network_short (length body) in
    let number =
      ap host_short (second.stored ∙ ap (λ t. take 2 t) after)
      ∙ host_short-network_short (id_number id) in
    let name = ap to_message_id number ∙ to_message_id-id_number id wire_id in
    let (whole, rest) = read_body (host_short r1.stored) body r2.rest tail (sym size) after' in
    let got = ap (is_count (host_short r1.stored)) whole ∙ is_count_self (host_short r1.stored) in
    elim (Bool-cases (ltb 0 (host_short r1.stored))) [
      | inl more ↦ rw (first.len, second.len, more, got) (record { message_id = name; rest = rest })
      | inr empty ↦
          rw (first.len, second.len, empty)
            (record {
              message_id = name;
              rest = after' ∙ ap (λ b. b ++ tail) (nil_of_length body (ground arith));
            })
    ]

-- `ReadMessage` returns the id of a message that `SendMessage` sent, if the body has fewer than
-- 65532 bytes and the id is one that two bytes carry, and leaves what follows the message in the
-- stream, however the bytes are cut into arrivals.
pub read_message-send_message :
    (id : MessageId) (body bytes : Bytes) (s : Input) (tail : Bytes)
    → IsWireId id
    → length body < 65532
    → send_message id body ≡ frame bytes
    → delivered s ≡ bytes ++ tail
    → Received id tail (read_message s)
read_message-send_message id body bytes s tail wire_id short sent d =
    read_message-encode id body s tail wire_id (d ∙ ap (λ b. b ++ tail) same)
  where
    same : bytes ≡ encode id body
    same = cc (sent, send_message-frame id body short)

-- What a message looks like in the stream, its bytes as they came.
pub record Framed (s : Input) (r : MessageId × Input) : Type 0 where
  pub length_bytes : Bytes
  pub id_bytes : Bytes
  pub body : Bytes
  pub two : length length_bytes ≡ 2
  pub two' : length id_bytes ≡ 2
  pub size : length body ≡ host_short length_bytes
  pub name : r.0 ≡ to_message_id (host_short id_bytes)
  pub split : delivered s ≡ length_bytes ++ (id_bytes ++ (body ++ delivered r.1))

-- `ReadMessage` fails only by returning `Invalid`: any other result is the id of a whole message
-- that stood at the front of the stream, and exactly that message was taken off.
pub read_message-Framed : (s : Input) → (read_message s).0 ≢ invalid → Framed s (read_message s)
unfolding read_message
read_message-Framed s ok = elim (Bool-cases (is_count 2 (read_fully 2 s).len)) [
  | inr z ↦ absurd (ok (rw z))
  | inl one ↦
      let r1 = read_fully 2 s in
      let (len1, split1) = read_fully_front 2 s one in
      elim (Bool-cases (is_count 2 (read_fully 2 r1.rest).len)) [
        | inr z ↦ absurd (ok (rw (one, z)))
        | inl two ↦
            let r2 = read_fully 2 r1.rest in
            let (len2, split2) = read_fully_front 2 r1.rest two in
            let front : (t : Bytes)
                → delivered r2.rest ≡ t
                → delivered s ≡ r1.stored ++ (r2.stored ++ t) =
              λ t e. split1 ∙ ap (λ x. r1.stored ++ x) (split2 ∙ ap (λ x. r2.stored ++ x) e) in
            let n = host_short r1.stored in
            elim (Bool-cases (ltb 0 n)) [
              | inr empty ↦
                  rw (one, two, empty)
                    (record {
                      length_bytes = r1.stored;
                      id_bytes = r2.stored;
                      body = [];
                      two = len1;
                      two' = len2;
                      size = ground arith;
                      name = refl;
                      split = front (delivered r2.rest) refl;
                    })
              | inl more ↦ elim (Bool-cases (is_count n (read_fully n r2.rest).len)) [
                | inr z ↦ absurd (ok (rw (one, two, more, z)))
                | inl three ↦
                    let (len3, split3) = read_fully_front n r2.rest three in
                    rw (one, two, more, three)
                      (record {
                        length_bytes = r1.stored;
                        id_bytes = r2.stored;
                        body = (read_fully n r2.rest).stored;
                        two = len1;
                        two' = len2;
                        size = len3;
                        name = refl;
                        split = front _ split3;
                      })
              ]
            ]
      ]
]
