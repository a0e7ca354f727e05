-- ===== src/Profiles/Launch/Handshake.antt =====
-- What the phone has to send for the handshake to complete, and what the dongle sends.
use wireless_android_auto_do.Prelude.{
  ℕ, zero, suc, ◌+◌, ◌≤◌, ◌<◌, ◌≡◌, ◌≢◌, refl, ap, ◌∙◌, ◌⊎◌, inl, inr, Bool, true, false, List, [],
  ◌∷◌, ◌++◌, Option, some, arith, length, append_assoc, length-append, Bool-cases,
}
use wireless_android_auto_do.Text.{Bytes}
use wireless_android_auto_do.Stream.{Input, delivered}
use wireless_android_auto_do.Config.{WifiInfo}
use wireless_android_auto_do.Profiles.Messages.{
  IsWireId, encode, read_message-encode, Framed, read_message-Framed,
}
use wireless_android_auto_do.Profiles.Launch.{
  Serializer, Launch, await_start_response, is_info_request, launch, on_message,
}
use wireless_android_auto_do.Profiles.{
  MessageId, invalid, wifi_start_request, wifi_info_request, wifi_info_response,
  wifi_start_response, Outgoing, send_message, read_message,
}

-- A message takes at least four bytes.
read_message-shorter :
    (s : Input)
    → (read_message s).0 ≢ invalid
    → 4 + length (delivered (read_message s).1) ≤ length (delivered s)
read_message-shorter s ok =
    let f = read_message-Framed s ok in
    let rest = delivered (read_message s).1 in
    omega (
      arith,
      ap length f.split,
      length-append f.length_bytes (f.id_bytes ++ (f.body ++ rest)),
      length-append f.id_bytes (f.body ++ rest),
      length-append f.body rest,
      f.two,
      f.two',
    )

-- The id of a message that the loop reads and drops.
abbrev pub IsDropped : MessageId → Type 0
IsDropped invalid = ⊥
IsDropped wifi_start_response = ⊥
IsDropped _ = Unit

on_message-cases :
    (id : MessageId) → (id ≡ invalid) ⊎ (id ≡ wifi_start_response) ⊎ (IsDropped id × (id ≢ invalid))
on_message-cases invalid = inl refl
on_message-cases wifi_start_response = inr (inl refl)
on_message-cases wifi_start_request = inr (inr (tt, λ e. cc))
on_message-cases _ = inr (inr (tt, λ e. cc))

on_message-IsDropped {ℓ} :
    {A : Type ℓ} (id : MessageId) (a b c : A) → IsDropped id → on_message id a b c ≡ c
on_message-IsDropped invalid a b c h = absurd h
on_message-IsDropped wifi_start_response a b c h = absurd h
on_message-IsDropped wifi_start_request a b c h = refl
on_message-IsDropped _ a b c h = refl

await_start_response-total :
    (fuel : ℕ) (s : Input)
    → length (delivered s) < fuel
    → (r : Bool × Input) × (await_start_response fuel s ≡ some r)
unfolding await_start_response
await_start_response-total zero s h = absurd (omega arith)
await_start_response-total (suc fuel) s h = elim (on_message-cases (read_message s).0) [
  | inl e ↦ ((false, (read_message s).1), rw e)
  | inr (inl e) ↦ ((true, (read_message s).1), rw e)
  | inr (inr (e, ne)) ↦
      let (r, found) =
        await_start_response-total fuel (read_message s).1
          (omega (arith, read_message-shorter s ne)) in
      (r, on_message-IsDropped (read_message s).0 _ _ _ e ∙ found)
]

-- The two messages of the dongle.
abbrev pub request_to : Serializer → WifiInfo → Outgoing
request_to ser wifi_info = send_message wifi_start_request (ser.start_request wifi_info)

abbrev pub both_to : Serializer → WifiInfo → List Outgoing
both_to ser wifi_info =
    request_to ser wifi_info ∷ send_message wifi_info_response (ser.info_response wifi_info) ∷ []

-- The handshake ends, whatever the phone sends, and however the bytes are cut into arrivals.
pub launch-total :
    (ser : Serializer) (wifi_info : WifiInfo) (s : Input)
    → (r : Launch) × (launch ser wifi_info s ≡ some r)
unfolding launch
launch-total ser wifi_info s = elim (Bool-cases (is_info_request (read_message s).0)) [
  | inr other_id ↦ (
    record { sent = request_to ser wifi_info ∷ []; completed = false; rest = (read_message s).1 },
    rw other_id,
  )
  | inl request ↦
      let s' = (read_message s).1 in
      let (r, e) = await_start_response-total (suc (length (delivered s'))) s' (omega arith) in
      (record { sent = both_to ser wifi_info; completed = r.0; rest = r.1 }, rw (request, e))
]

-- Messages that the phone may send before `WifiStartResponse`.
abbrev pub AllDropped : List (MessageId × Bytes) → Type 0
AllDropped [] = Unit
AllDropped ((id, body) ∷ ms) = IsWireId id × IsDropped id × AllDropped ms

abbrev pub encode_all : List (MessageId × Bytes) → Bytes
encode_all [] = []
encode_all ((id, body) ∷ ms) = encode id body ++ encode_all ms

-- `WifiStartResponse` was read, and the stream is `tail`.
record Awaited (tail : Bytes) (o : Option (Bool × Input)) : Type 0 where
  rest : Input
  found : o ≡ some (true, rest)
  left : delivered rest ≡ tail

await_start_response-Awaited :
    (fuel : ℕ) (ms : List (MessageId × Bytes)) (body : Bytes) (s : Input) (tail : Bytes)
    → AllDropped ms
    → length (delivered s) < fuel
    → delivered s ≡ encode_all ms ++ (encode wifi_start_response body ++ tail)
    → Awaited tail (await_start_response fuel s)
unfolding await_start_response
await_start_response-Awaited zero ms body s tail h l d = absurd (omega arith)
await_start_response-Awaited (suc fuel) [] body s tail h l d =
    let r = read_message-encode wifi_start_response body s tail tt d in
    record { rest = (read_message s).1; found = rw r.message_id; left = r.rest }
await_start_response-Awaited (suc fuel) ((id, b) ∷ ms) body s tail h l d =
    let behind = encode_all ms ++ (encode wifi_start_response body ++ tail) in
    let r = read_message-encode id b s behind h.0 (d ∙ append_assoc (encode id b) _ _) in
    let size = ap length d ∙ ap length (append_assoc (encode id b) _ _) in
    let fewer = length-append b behind in
    let ih =
      await_start_response-Awaited fuel ms body (read_message s).1 tail h.2
        (omega (arith, ap length r.rest, size, fewer)) r.rest in
    record {
      rest = ih.rest;
      found = on_message-IsDropped (read_message s).0 _ _ _ (rw r.message_id h.1) ∙ ih.found;
      left = ih.left;
    }

info_request_of : (id : MessageId) → is_info_request id ≡ true → id ≡ wifi_info_request
info_request_of wifi_info_request h = refl
info_request_of invalid h = cc
info_request_of _ h = cc

-- The handshake went through, both messages were sent, and the stream is `tail`.
pub record Completed (sent : List Outgoing) (tail : Bytes) (o : Option Launch) : Type 0 where
  pub result : Launch
  pub returned : o ≡ some result
  pub both_sent : result.sent ≡ sent
  pub completed : result.completed ≡ true
  pub left : delivered result.rest ≡ tail

-- Where the phone answers with `WifiInfoRequest` and then, after any number of other messages,
-- with `WifiStartResponse`, the handshake completes behind that message, both messages of the
-- dongle having been sent, however the bytes are cut into arrivals.
pub launch-Completed :
    (ser : Serializer) (wifi_info : WifiInfo) (ms : List (MessageId × Bytes))
    (body body' tail : Bytes) (s : Input)
    → AllDropped ms
    → delivered s
      ≡ encode wifi_info_request body
        ++ (encode_all ms ++ (encode wifi_start_response body' ++ tail))
    → Completed (both_to ser wifi_info) tail (launch ser wifi_info s)
unfolding launch
launch-Completed ser wifi_info ms body body' tail s h d =
    let r = read_message-encode wifi_info_request body s _ tt d in
    let s' = (read_message s).1 in
    let w =
      await_start_response-Awaited (suc (length (delivered s'))) ms body' s' tail h (omega arith)
        r.rest in
    record {
      result = record { sent = both_to ser wifi_info; completed = true; rest = w.rest };
      returned = rw (r.message_id, w.found);
      both_sent = refl;
      completed = refl;
      left = w.left;
    }

-- The second message, which holds the Wi-Fi key, is sent only to a phone whose first message was
-- a whole `WifiInfoRequest`; every other run of the handshake sends the first message alone.
pub launch_withholds :
    (ser : Serializer) (wifi_info : WifiInfo) (s : Input) (r : Launch)
    → launch ser wifi_info s ≡ some r
    → (r.sent ≡ request_to ser wifi_info ∷ [])
      ⊎ ((r.sent ≡ both_to ser wifi_info)
          × ((read_message s).0 ≡ wifi_info_request)
          × Framed s (read_message s))
unfolding launch
launch_withholds ser wifi_info s r e = elim (Bool-cases (is_info_request (read_message s).0)) [
  | inr other_id ↦ inl (ground arith)
  | inl request ↦
      let named = info_request_of (read_message s).0 request in
      let s' = (read_message s).1 in
      let (w, found) = await_start_response-total (suc (length (delivered s'))) s' (omega arith) in
      inr (ground arith, named, read_message-Framed s (λ e'. cc (named, e')))
]
