-- ===== src/Profiles/ReadFully.antt =====
-- The `readFully` of bluetoothProfiles.cpp over every way of cutting the stream into arrivals.
use native.Mathlib.Decide.{dec_le}
use wireless_android_auto_do.Prelude.{
  ℕ, zero, suc, ◌+◌, ◌-◌, ◌≤◌, ◌<◌, ◌≡◌, refl, sym, ap, ◌∙◌, inl, inr, true, false, [], ◌∷◌, ◌++◌,
  arith, ltb, length, take, append-nil, append_assoc, take-append_ge, drop-append_ge, length-append,
  length-take, take-append-drop,
}
use wireless_android_auto_do.Text.{Bytes}
use wireless_android_auto_do.Stream.{Input, read, delivered}
use wireless_android_auto_do.Stream.Laws.{some_bytes, no_bytes, read-Reads, ending-cases}
use wireless_android_auto_do.Proxy.ReadFully.{Filled}
use wireless_android_auto_do.Profiles.{read_fully_loop, read_fully, is_count}

pub ltb_less : (a n m : ℕ) → a + suc m ≡ n → ltb a n ≡ true
ltb_less a n m h = ground arith

pub ltb_same : (a n : ℕ) → a ≡ n → ltb a n ≡ false
ltb_same a n h = ground arith

read_fully_loop-Filled :
    (n fuel m : ℕ) (buffer : Bytes) (s : Input)
    → length buffer + m ≡ n
    → m ≤ fuel
    → m ≤ length (delivered s)
    → Filled n buffer m s (read_fully_loop n fuel buffer s)
unfolding read_fully_loop
read_fully_loop-Filled n zero zero buffer s k f h = record {
  len = refl;
  stored = sym (append-nil buffer);
  rest = refl;
  end = refl;
}
read_fully_loop-Filled n zero (suc m) buffer s k f h = absurd (omega arith)
read_fully_loop-Filled n (suc fuel) zero buffer s k f h =
    rw (ltb_same (length buffer) n (omega arith))
      (record { len = refl; stored = sym (append-nil buffer); rest = refl; end = refl })
read_fully_loop-Filled n (suc fuel) (suc m) buffer s k f h =
    elim (read-Reads (n - length buffer) s (omega arith)) [
      | no_bytes l st d ↦ absurd (omega (arith, ap length d))
      | some_bytes b bs l st le d e ↦
          let after = (read (n - length buffer) s).rest in
          let size = ap length d ∙ length-append (b ∷ bs) (delivered after) in
          let ih =
            read_fully_loop-Filled n fuel (suc m - length (b ∷ bs)) (buffer ++ b ∷ bs) after
              (omega (arith, length-append buffer (b ∷ bs))) (omega arith) (omega (arith, size)) in
          rw (l, st, ltb_less (length buffer) n m k)
            (record {
              len = ih.len;
              stored =
                  ih.stored
                  ∙ append_assoc buffer (b ∷ bs) (take (suc m - length (b ∷ bs)) (delivered after))
                  ∙ ap (λ t. buffer ++ t)
                      (sym (take-append_ge (suc m) (b ∷ bs) (delivered after) (omega arith)))
                  ∙ rw d;
              rest =
                  ih.rest
                  ∙ sym (drop-append_ge (suc m) (b ∷ bs) (delivered after) (omega arith))
                  ∙ rw d;
              end = ih.end ∙ sym e;
            })
    ]

read_fully_loop-Short :
    (n fuel m : ℕ) (buffer : Bytes) (s : Input)
    → length buffer + m ≡ n
    → m ≤ fuel
    → length (delivered s) < m
    → is_count n (read_fully_loop n fuel buffer s).len ≡ false
unfolding read_fully_loop
read_fully_loop-Short n zero m buffer s k f h = absurd (omega arith)
read_fully_loop-Short n (suc fuel) zero buffer s k f h = absurd (omega arith)
read_fully_loop-Short n (suc fuel) (suc m) buffer s k f h =
    elim (read-Reads (n - length buffer) s (omega arith)) [
      | no_bytes l st d ↦ elim (ending-cases s) [
        | inl z ↦ rw (l, z, ltb_less (length buffer) n m k) (ground arith)
        | inr z ↦ rw (l, z, ltb_less (length buffer) n m k)
      ]
      | some_bytes b bs l st le d e ↦
          let after = (read (n - length buffer) s).rest in
          let size = ap length d ∙ length-append (b ∷ bs) (delivered after) in
          rw (l, st, ltb_less (length buffer) n m k)
            (read_fully_loop-Short n fuel (suc m - length (b ∷ bs)) (buffer ++ b ∷ bs) after
              (omega (arith, length-append buffer (b ∷ bs))) (omega arith) (omega (arith, size)))
    ]

pub read_fully-Filled :
    (n : ℕ) (s : Input) → n ≤ length (delivered s) → Filled n [] n s (read_fully n s)
unfolding read_fully
read_fully-Filled n s h = read_fully_loop-Filled n n n [] s (omega arith) (omega arith) h

-- It returns `n` exactly when the stream delivers `n` bytes.
pub read_fully_short :
    (n : ℕ) (s : Input) → length (delivered s) < n → is_count n (read_fully n s).len ≡ false
unfolding read_fully
read_fully_short n s h = read_fully_loop-Short n n n [] s (omega arith) (omega arith) h

-- Where it returns `n`, it took `n` bytes off the front of the stream.
pub read_fully_front :
    (n : ℕ) (s : Input)
    → is_count n (read_fully n s).len ≡ true
    → (length (read_fully n s).stored ≡ n)
      × (delivered s ≡ (read_fully n s).stored ++ delivered (read_fully n s).rest)
read_fully_front n s p = elim (dec_le n (length (delivered s))) [
  | yes h ↦
      let f = read_fully-Filled n s h in
      (
        ap length f.stored ∙ omega (arith, length-take n (delivered s)),
        sym (take-append-drop n (delivered s)) ∙ rw (f.stored, f.rest),
      )
  | no h ↦ absurd (let z = read_fully_short n s (omega arith) in cc)
]
