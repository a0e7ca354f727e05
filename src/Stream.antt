-- ===== src/Stream.antt =====
-- A readable file descriptor, as the sources use it through `read`.
-- What the peer and the kernel deliver is a list of arrivals; the list may cut the bytes anywhere.
pub mod Laws
use wireless_android_auto_do.Prelude.{
  ℕ, List, [], ◌∷◌, ◌++◌, ltb, if◌then◌else◌, length, take, drop,
}
use wireless_android_auto_do.Text.{Bytes}

pub data Arrival : Type 0 where
  chunk : Bytes → Arrival
  failure : Arrival

-- Behind the last arrival stands the end of the stream.
abbrev pub Input : Type 0
Input = List Arrival

-- `ssize_t`: a count, or -1
pub data Ssize : Type 0 where
  count : ℕ → Ssize
  error : Ssize

-- One call of `read`: its return value, the bytes it stored, and what is still to be read.
pub record Reading : Type 0 where
  pub len : Ssize
  pub stored : Bytes
  pub rest : Input

-- `read(fd, buffer, n)`: at most `n` bytes of the next arrival
unfoldable pub read : ℕ → Input → Reading
read n [] = record { len = count 0; stored = []; rest = [] }
read n (failure ∷ s) = record { len = error; stored = []; rest = s }
read n (chunk bs ∷ s) =
    if ltb n (length bs)
    then record { len = count n; stored = take n bs; rest = chunk (drop n bs) ∷ s }
    else record { len = count (length bs); stored = bs; rest = s }

-- The bytes that come before the first failure or return of 0.
abbrev pub delivered : Input → Bytes
delivered [] = []
delivered (failure ∷ s) = []
delivered (chunk [] ∷ s) = []
delivered (chunk (b ∷ bs) ∷ s) = (b ∷ bs) ++ delivered s

-- What `read` returns once these bytes are used up.
abbrev pub ending : Input → Ssize
ending [] = count 0
ending (failure ∷ s) = error
ending (chunk [] ∷ s) = count 0
ending (chunk (b ∷ bs) ∷ s) = ending s
