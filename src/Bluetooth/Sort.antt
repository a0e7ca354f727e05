-- ===== src/Bluetooth/Sort.antt =====
-- The order in which `connectDevice` tries the devices.
use wireless_android_auto_do.Prelude.{
  ◌≡◌, refl, ap, inl, inr, Bool, true, false, not, ◌&&◌, List, [], ◌∷◌, ◌++◌, if◌then◌else◌,
  Bool-cases,
}
use wireless_android_auto_do.Text.{Bytes, equal}
use wireless_android_auto_do.Bluetooth.{insert, stable_sort, more_preferred}

-- The elements that pass a test, in their order.
abbrev pub keep_if : {A : Type 0} → (A → Bool) → List A → List A
keep_if p [] = []
keep_if p (x ∷ xs) = let rest = keep_if p xs in if p x then x ∷ rest else rest

module _ (preferred : Bytes) where
  abbrev pub is_preferred : Bytes → Bool
  is_preferred a = equal a preferred

  abbrev pub is_other : Bytes → Bool
  is_other a = not (equal a preferred)

  insert_preferred :
      (x : Bytes) (ys : List Bytes)
      → is_preferred x ≡ true
      → insert (more_preferred preferred) x ys ≡ x ∷ ys
  unfolding insert
  insert_preferred x [] h = refl
  insert_preferred x (y ∷ ys) h = rw (h, and_false (is_preferred y))
    where
      and_false : (b : Bool) → (b && false) ≡ false
      and_false true = refl
      and_false false = refl

  insert_other :
      (x : Bytes) (xs ys : List Bytes)
      → is_preferred x ≡ false
      → insert (more_preferred preferred) x (keep_if is_preferred xs ++ keep_if is_other ys)
        ≡ keep_if is_preferred xs ++ x ∷ keep_if is_other ys
  unfolding insert
  insert_other x (z ∷ xs) ys h = elim (Bool-cases (is_preferred z)) [
    | inl e ↦ rw (e, e, h) (ap (◌∷◌ z) (insert_other x xs ys h))
    | inr e ↦ rw e (insert_other x xs ys h)
  ]
  insert_other x [] [] h = refl
  insert_other x [] (y ∷ ys) h = elim (Bool-cases (is_preferred y)) [
    | inl e ↦ rw e (insert_other x [] ys h)
    | inr e ↦ rw (e, e)
  ]

  -- `connectDevice` tries the preferred device first, if BlueZ knows it, and then the others in
  -- the order in which BlueZ lists them.
  pub stable_sort-keep_if :
      (paths : List Bytes)
      → stable_sort (more_preferred preferred) paths
        ≡ keep_if is_preferred paths ++ keep_if is_other paths
  unfolding stable_sort
  stable_sort-keep_if [] = refl
  stable_sort-keep_if (x ∷ xs) = elim (Bool-cases (is_preferred x)) [
    | inl e ↦ rw (e, stable_sort-keep_if xs) (insert_preferred x _ e)
    | inr e ↦ rw (e, stable_sort-keep_if xs) (insert_other x xs xs e)
  ]
