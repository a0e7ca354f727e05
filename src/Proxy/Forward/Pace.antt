-- ===== src/Proxy/Forward/Pace.antt =====
-- How soon the frames of the phone are written: five turns of the thread for each frame.
use mathlib.Core.Path.{subst}
use wireless_android_auto_do.Prelude.{
  ℕ, suc, ◌+◌, ◌*◌, ◌≤◌, ◌≡◌, ◌≢◌, ◌⊎◌, inl, inr, refl, sym, ap, ◌∙◌, Bool, true, false, ◌||◌, List,
  [], ◌∷◌, ◌++◌, arith, length, length-append, map, append-nil, Bool-cases,
}
use wireless_android_auto_do.Text.{Bytes}
use wireless_android_auto_do.Stream.{Input, Ssize, delivered}
use wireless_android_auto_do.Proxy.{is_positive, read_message}
use wireless_android_auto_do.Proxy.ReadMessage.{Frame, wire, read_message-Received}
use wireless_android_auto_do.Proxy.Forward.{
  ProxyDirection, tcp_to_usb, usb_to_tcp, Pc, at_test, at_read, after_read, at_write, after_write,
  at_stop, finished, Thread, Shared, buffer_len, is_error, next_reply, later_replies, step_at, step,
  stop_forwarding, World, turn, run, started,
}
use wireless_android_auto_do.Proxy.Forward.Shutdown.{turns}
use wireless_android_auto_do.Proxy.Forward.Frames.{
  AllFit, wires, Pending, Inv, step_at-Inv, run-Inv, Forwards,
}

-- One of the coming writes fails.
abbrev pub has_error : List Ssize → Bool
has_error [] = false
has_error (r ∷ rs) = is_error r || has_error rs

-- Behind `k` turns, with `m` frames written, the thread is there, and on its way.
abbrev AtPace : Pc → ℕ → ℕ → Ssize → Type 0
AtPace at_test k m len = k ≤ 5 * m
AtPace at_read k m len = k ≤ 5 * m + 1
AtPace after_read k m len = (k ≤ 5 * m + 2) × (is_positive len ≡ true)
AtPace at_write k m len = k ≤ 5 * m + 3
AtPace after_write k m len = (k + 1 ≤ 5 * m) × (is_error len ≡ false)
AtPace at_stop k m len = ⊥
AtPace finished k m len = ⊥

-- The other thread has returned, or there is no further frame, or the thread is on its way.
abbrev PacesAt : Pc → ℕ → ℕ → Shared → Pc → Thread → Type 0
PacesAt pc n k sh other t =
    (other ≡ finished)
    ⊎ (n ≤ length t.calls)
    ⊎ ((sh.should_exit ≡ false)
        × AtPace pc k (length t.calls) t.len
        × (has_error t.replies ≡ false))

abbrev Paces : ℕ → ℕ → World → Type 0
Paces n k w = PacesAt w.tcp_usb.pc n k w.shared w.usb_tcp.pc w.tcp_usb

reply_ok :
    (n : ℕ) (rs : List Ssize)
    → has_error rs ≡ false
    → (is_error (next_reply n rs) ≡ false) × (has_error (later_replies rs) ≡ false)
reply_ok n [] h = (refl, refl)
reply_ok n (r ∷ rs) h = ground arith

one_more : (k m : ℕ) → k ≤ 5 * m + 3 → k + 1 + 1 ≤ 5 * (m + 1)
one_more k m h = omega arith

length-map : (f : Frame → Bytes) (fs : List Frame) → length (map f fs) ≡ length fs
length-map f [] = refl
length-map f (x ∷ fs) = ap suc (length-map f fs)

length_all : (fs done : List Frame) → done ++ [] ≡ fs → length fs ≤ length done
length_all fs done e =
    subst (λ xs. length xs ≤ length done) e (omega (arith, length-append done []))

-- Where a frame is still to be read, the read returns it.
reads_frame :
    (fs : List Frame) (t : Thread) (done todo : List Frame)
    → done ++ todo ≡ fs
    → t.calls ≡ map wire done
    → delivered t.input ≡ wires todo
    → AllFit todo
    → (length fs ≤ length t.calls) ⊎ (is_positive (read_message buffer_len t.input).len ≡ true)
reads_frame fs t done [] e c d fit =
    inl
      (subst (λ n. length fs ≤ n) (sym (ap length c ∙ length-map wire done)) (length_all fs done e))
reads_frame fs t done (f ∷ todo) e c d fit =
    let r =
      read_message-Received buffer_len f t.input (wires todo) fit.0.well_formed fit.0.not_empty
        fit.0.fits d in
    inr (rw r.len (ground (arith, fit.0.not_empty)))

length_snoc : (bs : List Bytes) (b : Bytes) → length (bs ++ b ∷ []) ≡ length bs + 1
length_snoc bs b = length-append bs (b ∷ [])

-- One turn of the thread, which reads the next frame where there is one.
step_at-Paces :
    (pc : Pc) (sh : Shared) (t : Thread) (n k : ℕ) (other : Pc)
    → (pc ≡ at_read
        → (n ≤ length t.calls) ⊎ (is_positive (read_message buffer_len t.input).len ≡ true))
    → PacesAt pc n k sh other t
    → let (sh', t') = step_at pc tcp_to_usb sh (record t { pc = pc }) in
      PacesAt t'.pc n (k + 1) sh' other t'
unfolding step_at stop_forwarding
step_at-Paces at_test sh t n k other f h = ground arith
step_at-Paces at_read sh t n k other f h = ground (arith, f refl)
step_at-Paces after_read sh t n k other f h = ground arith
step_at-Paces at_write sh t n k other f h = ground (
  arith,
  length_snoc t.calls t.buffer,
  reply_ok (length t.buffer) t.replies,
  one_more k (length t.calls),
)
step_at-Paces after_write sh t n k other f h = ground arith
step_at-Paces at_stop sh t n k other f h = ground arith
step_at-Paces finished sh t n k other f h = ground arith

turn-Paces :
    (fs : List Frame) (w : World) (k : ℕ)
    → Inv fs w.tcp_usb
    → Paces (length fs) k w
    → Paces (length fs) (k + 1) (turn tcp_to_usb w)
unfolding turn step
turn-Paces fs w k v h =
    step_at-Paces w.tcp_usb.pc w.shared w.tcp_usb (length fs) k w.usb_tcp.pc
      (λ e.
        let (d, fit) = subst (λ p. Pending p w.tcp_usb v.todo) e v.pending in
        reads_frame fs w.tcp_usb v.done v.todo v.split v.calls d fit)
      h

-- A turn of the other thread sets `should_exit` only where it returns.
returns_or_not :
    (pc : Pc) (sh : Shared) (t : Thread)
    → let (sh', t') = step_at pc usb_to_tcp sh (record t { pc = pc }) in
      (t'.pc ≡ finished) ⊎ ((pc ≢ finished) × (sh'.should_exit ≡ sh.should_exit))
unfolding step_at stop_forwarding
returns_or_not at_stop sh t = inl refl
returns_or_not finished sh t = inl refl
returns_or_not at_test sh t = inr (λ e. cc, refl)
returns_or_not at_read sh t = inr (λ e. cc, refl)
returns_or_not after_read sh t = inr (λ e. cc, refl)
returns_or_not at_write sh t = inr (λ e. cc, refl)
returns_or_not after_write sh t = inr (λ e. cc, refl)

other-Paces : (n k : ℕ) (w : World) → Paces n k w → Paces n k (turn usb_to_tcp w)
unfolding turn step
other-Paces n k w h = elim (returns_or_not w.usb_tcp.pc w.shared w.usb_tcp) [
  | inl e ↦ inl e
  | inr (not_there, kept) ↦ elim h [
    | inl e ↦ absurd (not_there e)
    | inr (inl le) ↦ inr (inl le)
    | inr (inr (x, p, r)) ↦ inr (inr (kept ∙ x, p, r))
  ]
]

zero_more : (k : ℕ) → k ≡ k + 0
zero_more k = omega arith

one_on : (k j : ℕ) → k + 1 + j ≡ k + suc j
one_on k j = omega arith

run-Paces :
    (fs : List Frame) (ds : List ProxyDirection) (w : World) (k : ℕ)
    → Inv fs w.tcp_usb
    → Paces (length fs) k w
    → Inv fs (run ds w).tcp_usb × Paces (length fs) (k + turns tcp_to_usb ds) (run ds w)
unfolding run
run-Paces fs [] w k v h = (v, subst (λ j. Paces (length fs) j w) (zero_more k) h)
run-Paces fs (tcp_to_usb ∷ ds) w k v h =
    let w' = turn tcp_to_usb w in
    let (v', h') =
      run-Paces fs ds w' (k + 1)
        (unfold turn step in step_at-Inv fs w.shared w.tcp_usb.pc w.tcp_usb refl v)
        (turn-Paces fs w k v h) in
    (v', subst (λ j. Paces (length fs) j (run ds w')) (one_on k (turns tcp_to_usb ds)) h')
run-Paces fs (usb_to_tcp ∷ ds) w k v h =
    run-Paces fs ds (turn usb_to_tcp w) k (unfold turn step in v) (other-Paces (length fs) k w h)

at_most : (pc : Pc) (k m : ℕ) (len : Ssize) → AtPace pc k m len → k ≤ 5 * m + 3
at_most pc k m len h = ground arith

-- all of the frames, where there are as many calls
none_left :
    (fs : List Frame) (calls : List Bytes) (done todo : List Frame)
    → done ++ todo ≡ fs
    → calls ≡ map wire done
    → length fs ≤ length calls
    → calls ≡ map wire fs
none_left fs calls done [] e c le = c ∙ ap (map wire) (sym (append-nil done) ∙ e)
none_left fs calls done (f ∷ todo) e c le =
    let more = ap length (sym e) ∙ length-append done (f ∷ todo) in
    let same = ap length c ∙ length-map wire done in absurd (omega (arith, le, more, same))

-- How far the frames are written behind so many turns of the thread.
abbrev pub KeepsUp : List Frame → List Ssize → ℕ → World → Type 0
KeepsUp fs replies k w =
    (w.usb_tcp.pc ≡ finished)
    ⊎ (has_error replies ≡ true)
    ⊎ (w.tcp_usb.calls ≡ map wire fs)
    ⊎ (k ≤ 5 * length w.tcp_usb.calls + 3)

none_before : (k : ℕ) → 0 + k ≡ k
none_before k = omega arith

keeps_up :
    (fs : List Frame) (rs : List Ssize) (k j : ℕ) (w : World)
    → Inv fs w.tcp_usb
    → Paces (length fs) j w
    → j ≡ k
    → KeepsUp fs rs k w
keeps_up fs rs k j w v (inl e) same = inl e
keeps_up fs rs k j w v (inr (inl le)) same =
    inr (inr (inl (none_left fs w.tcp_usb.calls v.done v.todo v.split v.calls le)))
keeps_up fs rs k j w v (inr (inr (x, p, r))) same =
    let le = at_most w.tcp_usb.pc j (length w.tcp_usb.calls) w.tcp_usb.len p in
    inr (inr (inr (omega (arith, le, same))))

-- Where the phone sends frames that are well formed, not empty and fit the buffer, then under
-- every schedule, however the connection cuts the bytes, and whatever the other thread does, the
-- calls of `write` on the accessory are the first of these frames, in their order, one whole frame
-- to a call. And unless the other thread returns or a write fails, five turns of the thread bring
-- a further frame, until all of them are written; a turn at a `read` or `write` is one in which the
-- call has come back.
pub run-Forwards :
    (fs : List Frame) (tcp usb : Input) (usb_replies tcp_replies : List Ssize)
    (ds : List ProxyDirection)
    → AllFit fs
    → delivered tcp ≡ wires fs
    → let w = run ds (started tcp usb_replies usb tcp_replies) in
      Forwards w.tcp_usb.calls fs × KeepsUp fs usb_replies (turns tcp_to_usb ds) w
run-Forwards fs tcp usb usb_replies tcp_replies ds fit e =
    let w = started tcp usb_replies usb tcp_replies in
    let v : Inv fs w.tcp_usb = record {
      done = [];
      todo = fs;
      split = refl;
      calls = refl;
      pending = (e, fit);
    } in
    let u = run-Inv fs ds w v in
    (
      (u.done, u.todo, u.split, u.calls),
      elim (Bool-cases (has_error usb_replies)) [
        | inl bad ↦ inr (inl bad)
        | inr good ↦
            let (v', paces) = run-Paces fs ds w 0 v (inr (inr (refl, omega arith, good))) in
            keeps_up fs usb_replies (turns tcp_to_usb ds) (0 + turns tcp_to_usb ds) (run ds w) v'
              paces (none_before (turns tcp_to_usb ds))
      ],
    )
