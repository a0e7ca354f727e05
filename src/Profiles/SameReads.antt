-- ===== src/Profiles/SameReads.antt =====
-- The two functions `readFully`, of proxyHandler.cpp and of bluetoothProfiles.cpp.
use wireless_android_auto_do.Prelude.{
  ℕ, zero, suc, ◌+◌, ◌-◌, ◌≤◌, ◌≡◌, refl, sym, ap, inl, inr, [], ◌∷◌, ◌++◌, arith, length,
  length-append,
}
use wireless_android_auto_do.Text.{Bytes}
use wireless_android_auto_do.Stream.{Input, Ssize, count, error, Reading, read}
use wireless_android_auto_do.Stream.Laws.{some_bytes, no_bytes, read-Reads, ending-cases}
use wireless_android_auto_do.Proxy
use wireless_android_auto_do.Proxy.ReadFully.{suc-eq-zero}
use wireless_android_auto_do.Profiles.{read_fully_loop, read_fully}
use wireless_android_auto_do.Profiles.ReadFully.{ltb_less, ltb_same}

-- What bluetoothProfiles.cpp makes of a result of the other: at the end of the stream it returns
-- the number of the bytes that it has got.
abbrev pub as_got : Ssize → Bytes → Ssize
as_got error buffer = error
as_got (count zero) buffer = count (length buffer)
as_got (count (suc n)) buffer = count (suc n)

pub record Same (p q : Reading) : Type 0 where
  pub stored : q.stored ≡ p.stored
  pub rest : q.rest ≡ p.rest
  pub len : q.len ≡ as_got p.len p.stored

as_got_whole : (n : ℕ) (buffer : Bytes) → length buffer ≡ n → count n ≡ as_got (count n) buffer
as_got_whole zero buffer h = ap count (sym h)
as_got_whole (suc n) buffer h = refl

read_fully_loop-Same :
    (n fuel m : ℕ) (buffer : Bytes) (s : Input)
    → length buffer + m ≡ n
    → m ≤ fuel
    → Same (Proxy.read_fully_loop n fuel m buffer s) (read_fully_loop n fuel buffer s)
unfolding read_fully_loop Proxy.read_fully_loop
read_fully_loop-Same n zero zero buffer s k f = record {
  stored = refl;
  rest = refl;
  len = as_got_whole n buffer (omega arith);
}
read_fully_loop-Same n zero (suc m) buffer s k f = absurd (omega arith)
read_fully_loop-Same n (suc fuel) zero buffer s k f =
    rw (ltb_same (length buffer) n (omega arith))
      (record { stored = refl; rest = refl; len = as_got_whole n buffer (omega arith) })
read_fully_loop-Same n (suc fuel) (suc m) buffer s k f = elim (read-Reads (suc m) s (omega arith)) [
  | no_bytes l st d ↦ elim (ending-cases s) [
    | inl z ↦
        rw
          (
            left n m (length buffer) k,
            ltb_less (length buffer) n m k,
            suc-eq-zero m,
            l,
            z,
            left n m (length buffer) k,
          )
          (record { stored = refl; rest = refl; len = refl })
    | inr z ↦
        rw
          (
            left n m (length buffer) k,
            ltb_less (length buffer) n m k,
            suc-eq-zero m,
            l,
            z,
            left n m (length buffer) k,
          )
          (record { stored = refl; rest = refl; len = refl })
  ]
  | some_bytes b bs l st le d e ↦
      let ih =
        read_fully_loop-Same n fuel (suc m - length (b ∷ bs)) (buffer ++ b ∷ bs)
          (read (suc m) s).rest (omega (arith, length-append buffer (b ∷ bs))) (omega arith) in
      rw
        (
          left n m (length buffer) k,
          ltb_less (length buffer) n m k,
          suc-eq-zero m,
          l,
          left n m (length buffer) k,
          st,
        )
        ih
]
  where
    left : (n m l : ℕ) → l + suc m ≡ n → n - l ≡ suc m
    left n m l h = omega arith

-- The two functions agree on every stream and every number of bytes: they store the same bytes,
-- leave the same rest, and return the same, but that at the end of the stream the one of
-- bluetoothProfiles.cpp returns the number of bytes stored, and the other 0.
pub read_fully-Same : (n : ℕ) (s : Input) → Same (Proxy.read_fully n s) (read_fully n s)
unfolding read_fully Proxy.read_fully
read_fully-Same n s = read_fully_loop-Same n n n [] s (omega arith) (omega arith)
