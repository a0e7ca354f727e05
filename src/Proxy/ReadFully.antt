-- ===== src/Proxy/ReadFully.antt =====
-- `AAWProxy::readFully` over every way of cutting the stream into arrivals.
use native.Mathlib.Decide.{dec_le}
use wireless_android_auto_do.Prelude.{
  length-take, take-append-drop, ℕ, zero, suc, ◌-◌, ◌≤◌, ◌<◌, ◌≡◌, refl, sym, ap, ◌∙◌, inl, inr, [],
  ◌∷◌, ◌++◌, arith, length, take, drop, append-nil, append_assoc, take-append_ge, ◌==◌, false,
  drop-append_ge, length-append,
}
use wireless_android_auto_do.Text.{Bytes}
use wireless_android_auto_do.Stream.{Input, count, Reading, read, delivered, ending}
use wireless_android_auto_do.Stream.Laws.{some_bytes, no_bytes, read-Reads, ending-cases}
use wireless_android_auto_do.Proxy.{is_positive, read_fully_loop, read_fully}

-- All of the `n` bytes came, and were taken off the front of the stream.
pub record Filled (nbyte : ℕ) (buffer : Bytes) (n : ℕ) (s : Input) (r : Reading) : Type 0 where
  pub len : r.len ≡ count nbyte
  pub stored : r.stored ≡ buffer ++ take n (delivered s)
  pub rest : delivered r.rest ≡ drop n (delivered s)
  pub end : ending r.rest ≡ ending s

pub suc-eq-zero : (n : ℕ) → (suc n == 0) ≡ false
suc-eq-zero n = ground arith

read_fully_loop-Filled :
    (nbyte fuel remaining : ℕ) (buffer : Bytes) (s : Input)
    → remaining ≤ fuel
    → remaining ≤ length (delivered s)
    → Filled nbyte buffer remaining s (read_fully_loop nbyte fuel remaining buffer s)
unfolding read_fully_loop
read_fully_loop-Filled nbyte zero zero buffer s f h = record {
  len = refl;
  stored = sym (append-nil buffer);
  rest = refl;
  end = refl;
}
read_fully_loop-Filled nbyte zero (suc r) buffer s f h = absurd (omega arith)
read_fully_loop-Filled nbyte (suc fuel) zero buffer s f h = record {
  len = refl;
  stored = sym (append-nil buffer);
  rest = refl;
  end = refl;
}
read_fully_loop-Filled nbyte (suc fuel) (suc r) buffer s f h =
    elim (read-Reads (suc r) s (omega arith)) [
      | no_bytes l st d ↦ absurd (omega (arith, ap length d))
      | some_bytes b bs l st le d e ↦
          let after = (read (suc r) s).rest in
          let size = ap length d ∙ length-append (b ∷ bs) (delivered after) in
          let ih =
            read_fully_loop-Filled nbyte fuel (suc r - length (b ∷ bs)) (buffer ++ b ∷ bs) after
              (omega arith) (omega (arith, size)) in
          rw (l, st, suc-eq-zero r)
            (record {
              len = ih.len;
              stored =
                  ih.stored
                  ∙ append_assoc buffer (b ∷ bs) (take (suc r - length (b ∷ bs)) (delivered after))
                  ∙ ap (λ t. buffer ++ t)
                      (sym (take-append_ge (suc r) (b ∷ bs) (delivered after) le))
                  ∙ rw d;
              rest = ih.rest ∙ sym (drop-append_ge (suc r) (b ∷ bs) (delivered after) le) ∙ rw d;
              end = ih.end ∙ sym e;
            })
    ]

-- The bytes ran out first: the return value of the call that saw it is passed on.
pub record Short (buffer : Bytes) (s : Input) (r : Reading) : Type 0 where
  pub len : r.len ≡ ending s
  pub stored : r.stored ≡ buffer ++ delivered s

read_fully_loop-Short :
    (nbyte fuel remaining : ℕ) (buffer : Bytes) (s : Input)
    → remaining ≤ fuel
    → length (delivered s) < remaining
    → Short buffer s (read_fully_loop nbyte fuel remaining buffer s)
unfolding read_fully_loop
read_fully_loop-Short nbyte zero remaining buffer s f h = absurd (omega arith)
read_fully_loop-Short nbyte (suc fuel) zero buffer s f h = absurd (omega arith)
read_fully_loop-Short nbyte (suc fuel) (suc r) buffer s f h =
    elim (read-Reads (suc r) s (omega arith)) [
      | no_bytes l st d ↦ elim (ending-cases s) [
        | inl z ↦
            rw (l, z, suc-eq-zero r)
              (record { len = sym z; stored = sym (append-nil buffer) ∙ rw d })
        | inr z ↦
            rw (l, z, suc-eq-zero r)
              (record { len = sym z; stored = sym (append-nil buffer) ∙ rw d })
      ]
      | some_bytes b bs l st le d e ↦
          let after = (read (suc r) s).rest in
          let size = ap length d ∙ length-append (b ∷ bs) (delivered after) in
          let ih =
            read_fully_loop-Short nbyte fuel (suc r - length (b ∷ bs)) (buffer ++ b ∷ bs) after
              (omega arith) (omega (arith, size)) in
          rw (l, st, suc-eq-zero r)
            (record {
              len = ih.len ∙ sym e;
              stored = ih.stored ∙ append_assoc buffer (b ∷ bs) (delivered after) ∙ rw d;
            })
    ]

pub read_fully-Filled :
    (n : ℕ) (s : Input) → n ≤ length (delivered s) → Filled n [] n s (read_fully n s)
unfolding read_fully
read_fully-Filled n s h = read_fully_loop-Filled n n n [] s (omega arith) h

pub read_fully-Short : (n : ℕ) (s : Input) → length (delivered s) < n → Short [] s (read_fully n s)
unfolding read_fully
read_fully-Short n s h = read_fully_loop-Short n n n [] s (omega arith) h

-- Every run of `readFully`: it takes exactly `n` bytes off the front of the stream, or it returns
-- no positive number.
pub data Fully (n : ℕ) (s : Input) (r : Reading) : Type 0 where
  full :
      r.len ≡ count n
      → length r.stored ≡ n
      → delivered s ≡ r.stored ++ delivered r.rest
      → Fully n s r
  short : is_positive r.len ≡ false → length r.stored ≤ n → Fully n s r

pub ending-not-positive : (s : Input) → is_positive (ending s) ≡ false
ending-not-positive s = elim (ending-cases s) [ inl z ↦ rw z | inr z ↦ rw z ]

pub read_fully-Fully : (n : ℕ) (s : Input) → Fully n s (read_fully n s)
read_fully-Fully n s = elim (dec_le n (length (delivered s))) [
  | yes h ↦
      let f = read_fully-Filled n s h in
      full f.len (ap length f.stored ∙ omega (arith, length-take n (delivered s)))
        (sym (take-append-drop n (delivered s)) ∙ rw (f.stored, f.rest))
  | no h ↦
      let f = read_fully-Short n s (omega arith) in
      short (rw f.len (ending-not-positive s)) (rw f.stored (omega arith))
]
