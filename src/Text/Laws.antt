-- ===== src/Text/Laws.antt =====
-- Laws of the string operations.
use wireless_android_auto_do.Prelude.{
  ℕ, suc, ◌≤◌, ◌≡◌, ◌↔◌, refl, sym, ap, ◌∙◌, Bool, true, false, ◌&&◌, ◌||◌, [], ◌∷◌, ◌++◌, arith,
  length, drop, if◌then◌else◌,
}
use wireless_android_auto_do.Text.{
  Bytes, equal, starts_with, before, has_byte, trim_back, is_empty, contains,
}

pub equal_iff : (s t : Bytes) → (equal s t ≡ true) ↔ (s ≡ t)
unfolding equal
equal_iff [] [] = ground arith
equal_iff [] (c ∷ t) = ground arith
equal_iff (b ∷ s) [] = ground arith
equal_iff (b ∷ s) (c ∷ t) = ground (equal_iff s t, arith)

pub before-append : (b : ℕ) (xs ys : Bytes) → has_byte b xs ≡ false → before b (xs ++ b ∷ ys) ≡ xs
unfolding before has_byte
before-append b [] ys h = ground arith
before-append b (x ∷ xs) ys h = ground (arith, before-append b xs ys)

pub before_all : (b : ℕ) (xs : Bytes) → has_byte b xs ≡ false → before b xs ≡ xs
unfolding before has_byte
before_all b [] h = refl
before_all b (x ∷ xs) h = ground (arith, before_all b xs)

pub has_byte-append :
    (b : ℕ) (xs ys : Bytes) → has_byte b (xs ++ ys) ≡ (has_byte b xs || has_byte b ys)
unfolding has_byte
has_byte-append b [] ys = refl
has_byte-append b (x ∷ xs) ys = ground (arith, has_byte-append b xs ys)

-- A string without the byte `b` has none in its parts.
pub has_byte_parts :
    (b : ℕ) (xs ys : Bytes)
    → has_byte b (xs ++ ys) ≡ false
    → (has_byte b xs ≡ false) × (has_byte b ys ≡ false)
has_byte_parts b xs ys h = ground (arith, has_byte-append b xs ys)

pub has_byte_join :
    (b : ℕ) (xs ys : Bytes)
    → has_byte b xs ≡ false
    → has_byte b ys ≡ false
    → has_byte b (xs ++ ys) ≡ false
has_byte_join b xs ys h k = ground (arith, has_byte-append b xs ys)

pub starts_with-append : (p s : Bytes) → starts_with p (p ++ s) ≡ true
unfolding starts_with
starts_with-append [] s = refl
starts_with-append (x ∷ p) s = ground (arith, starts_with-append p s)

pub drop-append : (xs ys : Bytes) → drop (length xs) (xs ++ ys) ≡ ys
drop-append [] ys = refl
drop-append (x ∷ xs) ys = drop-append xs ys

pub append-assoc_cons : (xs : Bytes) (b : ℕ) (ys : Bytes) → (xs ++ b ∷ []) ++ ys ≡ xs ++ b ∷ ys
append-assoc_cons [] b ys = refl
append-assoc_cons (x ∷ xs) b ys = ap (◌∷◌ x) (append-assoc_cons xs b ys)

-- Where `b` stands in the front part, the front part decides.
pub before-append_has :
    (b : ℕ) (xs ys : Bytes) → has_byte b xs ≡ true → before b (xs ++ ys) ≡ before b xs
unfolding before has_byte
before-append_has b [] ys h = cc
before-append_has b (x ∷ xs) ys h = ground (arith, before-append_has b xs ys)

pub length-le-before :
    (b : ℕ) (xs ys : Bytes) → has_byte b xs ≡ false → length xs ≤ length (before b (xs ++ ys))
unfolding before has_byte
length-le-before b [] ys h = omega arith
length-le-before b (x ∷ xs) ys h = ground (arith, length-le-before b xs ys)

pub has_byte-before : (b : ℕ) (xs : Bytes) → has_byte b (before b xs) ≡ false
unfolding before has_byte
has_byte-before b [] = refl
has_byte-before b (x ∷ xs) = ground (arith, has_byte-before b xs)

-- A text whose last byte is kept is left alone.
pub trim_back-keep :
    (p : ℕ → Bool) (xs : Bytes) (c : ℕ) → p c ≡ false → trim_back p (xs ++ c ∷ []) ≡ xs ++ c ∷ []
unfolding trim_back
trim_back-keep p [] c h = rw h
trim_back-keep p (x ∷ []) c h = rw h
trim_back-keep p (x ∷ y ∷ xs) c h = rw (trim_back-keep p (y ∷ xs) c h)

pub contains-append : (t xs : Bytes) → contains t (t ++ xs) ≡ true
unfolding contains
contains-append [] [] = refl
contains-append [] (x ∷ xs) = refl
contains-append (y ∷ t) xs = rw (starts_with-append (y ∷ t) xs)

-- What a text contains, it contains behind any other.
pub contains-behind : (t xs ys : Bytes) → contains t ys ≡ true → contains t (xs ++ ys) ≡ true
unfolding contains
contains-behind t [] ys h = h
contains-behind t (x ∷ xs) ys h = ground (arith, contains-behind t xs ys h)

-- One byte in front: what is trimmed behind it decides.
trim_back_step :
    (p : ℕ → Bool) (x : ℕ) (t u : Bytes)
    → trim_back p t ≡ u
    → trim_back p (x ∷ t) ≡ (if is_empty u && p x then [] else x ∷ u)
unfolding trim_back
trim_back_step p x t u h = rw h

kept_tail :
    (b : Bool) (c : ℕ) (u t : Bytes) → (if is_empty u && b then [] else c ∷ u) ≡ c ∷ t → u ≡ t
kept_tail b c u t h = ground arith

-- A text that is left alone is left alone behind its first byte.
pub trim_back_tail :
    (p : ℕ → Bool) (c : ℕ) (t : Bytes) → trim_back p (c ∷ t) ≡ c ∷ t → trim_back p t ≡ t
trim_back_tail p c t h =
    kept_tail (p c) c (trim_back p t) t (sym (trim_back_step p c t (trim_back p t) refl) ∙ h)

pub trim_back-append :
    (p : ℕ → Bool) (xs : Bytes) (c : ℕ) (ys : Bytes)
    → trim_back p (c ∷ ys) ≡ c ∷ ys
    → trim_back p (xs ++ c ∷ ys) ≡ xs ++ c ∷ ys
trim_back-append p [] c ys h = h
trim_back-append p (x ∷ []) c ys h = trim_back_step p x (c ∷ ys) (c ∷ ys) h
trim_back-append p (x ∷ y ∷ xs) c ys h =
    trim_back_step p x (y ∷ (xs ++ c ∷ ys)) (y ∷ (xs ++ c ∷ ys))
      (trim_back-append p (y ∷ xs) c ys h)

-- A text that ends in the byte `b` behind no other `b`, cut where `b` has been seen, is whole.
pub whole_line :
    (b : ℕ) (xs ys line : Bytes)
    → xs ++ ys ≡ line ++ b ∷ []
    → has_byte b line ≡ false
    → has_byte b xs ≡ true
    → xs ≡ line ++ b ∷ []
unfolding has_byte
whole_line b [] ys line e n h = cc
whole_line b (x ∷ []) ys [] e n h = ground arith
whole_line b (x ∷ y ∷ xs) ys [] e n h = cc
whole_line b (x ∷ xs) ys (l ∷ line) e n h = ground (arith, whole_line b xs ys line)

pub drop-append_suc : (xs : Bytes) (b : ℕ) (ys : Bytes) → drop (suc (length xs)) (xs ++ b ∷ ys) ≡ ys
drop-append_suc [] b ys = refl
drop-append_suc (x ∷ xs) b ys = drop-append_suc xs b ys

pub has_byte_self : (b : ℕ) (xs ys : Bytes) → has_byte b (xs ++ b ∷ ys) ≡ true
unfolding has_byte
has_byte_self b [] ys = ground arith
has_byte_self b (x ∷ xs) ys = ground (arith, has_byte_self b xs ys)
