-- ===== src/Control/Serve/Lines.antt =====
-- The command that the server reads, over every way of cutting the stream into arrivals.
use wireless_android_auto_do.Prelude.{
  ℕ, zero, suc, ◌≤◌, ◌<◌, ◌≡◌, refl, sym, ap, ◌∙◌, inl, inr, true, false, List, [], ◌∷◌, ◌++◌, some,
  arith, ltb, Bool-cases, length, append_assoc, append-nil, length-append, take, drop,
  take-append-drop,
}
use wireless_android_auto_do.Text.{Bytes, before, has_byte}
use wireless_android_auto_do.Text.Laws.{
  before_all, before-append, before-append_has, length-le-before,
}
use wireless_android_auto_do.Stream.{Input, Ssize, count, error, read, delivered}
use wireless_android_auto_do.Stream.Laws.{some_bytes, no_bytes, read-Reads}
use wireless_android_auto_do.Proxy.ReadFully.{ending-not-positive}
use wireless_android_auto_do.Control.Serve.{
  read_line_loop, trim_return, read_line, serve_client, answer, run, Accept, accept_failed, client,
}
use wireless_android_auto_do.Control.{Handler, System, handle_command, write_all}

not_longer : (n m : ℕ) → n ≤ m → m ≤ 4096 → ltb 4096 n ≡ false
not_longer n m h k = ground arith

read_line_loop-before :
    (fuel : ℕ) (line : Bytes) (s : Input)
    → length (delivered s) < fuel
    → has_byte b'\n' line ≡ false
    → length (before b'\n' (line ++ delivered s)) ≤ 4096
    → read_line_loop fuel line s ≡ some (before b'\n' (line ++ delivered s))
unfolding read_line_loop
read_line_loop-before zero line s f n h = absurd (omega arith)
read_line_loop-before (suc fuel) line s f n h = elim (read-Reads 256 s (omega arith)) [
  | no_bytes l st d ↦
      rw (l, ending-not-positive s, d, append-nil) (ap some (sym (before_all b'\n' line n)))
  | some_bytes b bs l st le d e ↦
      let after = (read 256 s).rest in
      let line' = line ++ b ∷ bs in
      let same = ap (λ x. line ++ x) d ∙ sym (append_assoc line (b ∷ bs) (delivered after)) in
      let size = ap length d ∙ length-append (b ∷ bs) (delivered after) in
      elim (Bool-cases (has_byte b'\n' line')) [
        | inl found ↦
            rw (l, st, found, same)
              (ap some (sym (before-append_has b'\n' line' (delivered after) found)))
        | inr n' ↦
            let fits = rw same at h in
            let short =
              not_longer (length line') (length (before b'\n' (line' ++ delivered after)))
                (length-le-before b'\n' line' (delivered after) n') fits in
            rw (l, st, n', short, same)
              (read_line_loop-before fuel line' after (omega (arith, size)) n' fits)
      ]
]

-- The server takes as a command what stands in front of the first newline, or all that came
-- before the end of the stream, less a carriage return at its end, however the bytes are cut into
-- arrivals, if that is at most 4096 bytes.
pub read_line-before :
    (s : Input)
    → length (before b'\n' (delivered s)) ≤ 4096
    → read_line s ≡ some (trim_return (before b'\n' (delivered s)))
unfolding read_line
read_line-before s h = rw (
    read_line_loop-before (suc (length (delivered s))) [] s (omega arith) (unfold has_byte in refl)
      h)

read_line_loop-total :
    (fuel : ℕ) (line : Bytes) (s : Input)
    → length (delivered s) < fuel
    → (r : Bytes) × (read_line_loop fuel line s ≡ some r)
unfolding read_line_loop
read_line_loop-total zero line s f = absurd (omega arith)
read_line_loop-total (suc fuel) line s f = elim (read-Reads 256 s (omega arith)) [
  | no_bytes l st d ↦ (line, rw (l, ending-not-positive s))
  | some_bytes b bs l st le d e ↦
      let line' = line ++ b ∷ bs in
      let size = ap length d ∙ length-append (b ∷ bs) (delivered (read 256 s).rest) in
      elim (Bool-cases (has_byte b'\n' line')) [
        | inl found ↦ (before b'\n' line', rw (l, st, found))
        | inr n ↦ elim (Bool-cases (ltb 4096 (length line'))) [
          | inl long ↦ (line', rw (l, st, n, long))
          | inr short ↦
              rw (l, st, n, short)
                (read_line_loop-total fuel line' (read 256 s).rest (omega (arith, size)))
        ]
      ]
]

read_line-total : (s : Input) → (r : Bytes) × (read_line s ≡ some r)
unfolding read_line
read_line-total s =
    let (r, e) = read_line_loop-total (suc (length (delivered s))) [] s (omega arith) in
    (trim_return r, rw e)

-- `writeAll` returns true only if every byte was taken, in order; else the bytes that were taken
-- are the front of the text.
pub write_all-whole :
    (replies : List Ssize) (text : Bytes)
    → (tail : Bytes) × ((write_all replies text).1 ++ tail ≡ text)
      × ((write_all replies text).0 ≡ true → tail ≡ [])
unfolding write_all
write_all-whole replies [] = ([], refl, λ e. refl)
write_all-whole [] (b ∷ bs) = ([], append-nil (b ∷ bs), λ e. refl)
write_all-whole (error ∷ rs) (b ∷ bs) = (b ∷ bs, refl, λ e. cc)
write_all-whole (count zero ∷ rs) (b ∷ bs) = (b ∷ bs, refl, λ e. cc)
write_all-whole (count (suc n) ∷ rs) (b ∷ bs) =
    let (tail, joined, all) = write_all-whole rs (drop n bs) in
    (
      tail,
      append_assoc (take (suc n) (b ∷ bs)) (write_all rs (drop n bs)).1 tail
          ∙ ap (λ x. take (suc n) (b ∷ bs) ++ x) joined
          ∙ take-append-drop (suc n) (b ∷ bs),
      all,
    )

-- With no short write, all is taken.
write_all_full : (text : Bytes) → (write_all [] text).1 ≡ text
unfolding write_all
write_all_full [] = refl
write_all_full (b ∷ bs) = refl

module _ {S : Type 0} (handler : Handler S) (sys : System) where
  pub serve_client-total :
      (input : Input) (replies : List Ssize) (s : S)
      → (r : Bytes × S) × (serve_client handler sys input replies s ≡ some r)
  unfolding serve_client answer
  serve_client-total input replies s =
      let (line, e) = read_line-total input in
      let (response, s') = handle_command handler sys line s in
      (((write_all replies response).1, s'), rw e)

  -- The accept loop gets through every sequence of clients and failed calls of `accept`, whatever
  -- the clients send, and answers each client.
  pub run-total :
      (accepts : List Accept) (s : S) → (r : List Bytes × S) × (run handler sys accepts s ≡ some r)
  unfolding run
  run-total [] s = (([], s), refl)
  run-total (accept_failed ∷ accepts) s = run-total accepts s
  run-total (client input replies ∷ accepts) s =
      let ((sent, s'), e) = serve_client-total input replies s in
      let ((rest, s''), e') = run-total accepts s' in ((sent ∷ rest, s''), rw (e, e'))

  -- A client that sends a command of at most 4096 bytes and a newline gets the answer to that
  -- command, and the handler is left as the command leaves it, however the bytes are cut into
  -- arrivals and whatever follows the newline, where the command holds no newline and does not
  -- end in a carriage return, and every write takes all of its bytes.
  pub serve_client-command :
      (line tail : Bytes) (input : Input) (s : S)
      → delivered input ≡ line ++ b'\n' ∷ tail
      → has_byte b'\n' line ≡ false
      → trim_return line ≡ line
      → length line ≤ 4096
      → serve_client handler sys input [] s ≡ some (handle_command handler sys line s)
  unfolding serve_client answer
  serve_client-command line tail input s d n t h =
      let first : before b'\n' (delivered input) ≡ line = rw d (before-append b'\n' line tail n) in
      let read : read_line input ≡ some line =
        read_line-before input (rw first h) ∙ ap (λ x. some (trim_return x)) first ∙ ap some t in
      rw (read, write_all_full (handle_command handler sys line s).0)
