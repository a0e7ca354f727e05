-- ===== src/Stream/Laws.antt =====
-- `read` against the bytes that the stream delivers.
use wireless_android_auto_do.Prelude.{
  ℕ, zero, suc, ◌≤◌, ◌<◌, ◌≡◌, refl, ◌⊎◌, inl, inr, [], ◌∷◌, ◌++◌, arith, length, take, drop,
  Bool-cases, ltb, length-take, ap,
}
use wireless_android_auto_do.Text.{Bytes}
use wireless_android_auto_do.Stream.{chunk, failure, Input, count, error, read, delivered, ending}

delivered-chunk :
    (b : ℕ) (bs : Bytes) (s : Input) → delivered (chunk (b ∷ bs) ∷ s) ≡ (b ∷ bs) ++ delivered s
delivered-chunk b bs s = refl

-- What one `read` of at least one byte does: it takes bytes from the front, or the bytes are used up.
pub data Reads (n : ℕ) (s : Input) : Type 0 where
  some_bytes :
      (b : ℕ) (bs : Bytes)
      → (read n s).len ≡ count (length (b ∷ bs))
      → (read n s).stored ≡ b ∷ bs
      → length (b ∷ bs) ≤ n
      → delivered s ≡ (b ∷ bs) ++ delivered (read n s).rest
      → ending s ≡ ending (read n s).rest
      → Reads n s
  no_bytes : (read n s).len ≡ ending s → (read n s).stored ≡ [] → delivered s ≡ [] → Reads n s

pub ending-cases : (s : Input) → (ending s ≡ count 0) ⊎ (ending s ≡ error)
ending-cases [] = inl refl
ending-cases (failure ∷ s) = inr refl
ending-cases (chunk [] ∷ s) = inl refl
ending-cases (chunk (b ∷ bs) ∷ s) = ending-cases s

delivered-split :
    (n : ℕ) (b : ℕ) (bs : Bytes) (s : Input)
    → n < length bs
    → bs ++ delivered s ≡ take n bs ++ delivered (chunk (drop n bs) ∷ s)
delivered-split zero b (c ∷ bs) s h = refl
delivered-split zero b [] s h = absurd (omega arith)
delivered-split (suc n) b [] s h = absurd (omega arith)
delivered-split (suc n) b (c ∷ bs) s h = ap (◌∷◌ c) (delivered-split n b bs s (omega arith))

ending-split :
    (n : ℕ) (bs : Bytes) (s : Input) → n < length bs → ending s ≡ ending (chunk (drop n bs) ∷ s)
ending-split zero (c ∷ bs) s h = refl
ending-split zero [] s h = absurd (omega arith)
ending-split (suc n) [] s h = absurd (omega arith)
ending-split (suc n) (c ∷ bs) s h = ending-split n bs s (omega arith)

pub read-Reads : (n : ℕ) (s : Input) → 0 < n → Reads n s
unfolding read
read-Reads zero s h = absurd (omega arith)
read-Reads (suc n) [] h = no_bytes refl refl refl
read-Reads (suc n) (failure ∷ s) h = no_bytes refl refl refl
read-Reads (suc n) (chunk [] ∷ s) h = no_bytes (ground arith) (ground arith) refl
read-Reads (suc n) (chunk (b ∷ bs) ∷ s) h = elim (Bool-cases (ltb (suc n) (length (b ∷ bs)))) [
  | inl more ↦
      let inside : n < length bs = ground arith in
      some_bytes b (take n bs) (rw more (ap count (ground (arith, length-take n bs)))) (rw more)
        (ground (arith, length-take n bs)) (rw more (ap (◌∷◌ b) (delivered-split n b bs s inside)))
        (rw more (ending-split n bs s inside))
  | inr all ↦ some_bytes b bs (rw all) (rw all) (ground arith) (rw all) (rw all)
]
