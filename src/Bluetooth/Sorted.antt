-- ===== src/Bluetooth/Sorted.antt =====
-- What `std::stable_sort` promises, for the sort of Bluetooth.
use mathlib.Core.List.{Perm}
use mathlib.Core.List.Perm
use wireless_android_auto_do.Prelude.{◌≡◌, inl, inr, Bool, false, List, [], ◌∷◌, Bool-cases}
use wireless_android_auto_do.Bluetooth.{insert, stable_sort}
use wireless_android_auto_do.Bluetooth.Order.{StrictWeak}

module _ {A : Type 0} (less : A → A → Bool) where
  -- No element of the list is before `x`.
  abbrev pub Below : A → List A → Type 0
  Below x [] = Unit
  Below x (y ∷ ys) = (less y x ≡ false) × Below x ys

  abbrev pub IsSorted : List A → Type 0
  IsSorted [] = Unit
  IsSorted (x ∷ xs) = Below x xs × IsSorted xs

  insert-perm : (x : A) (xs : List A) → Perm (insert less x xs) (x ∷ xs)
  unfolding insert
  insert-perm x [] = Perm.rfl
  insert-perm x (y ∷ ys) = elim (Bool-cases (less y x)) [
    | inl e ↦ rw e (Perm.trans (Perm.cons y (insert-perm x ys)) (Perm.swap x y ys))
    | inr e ↦ rw e Perm.rfl
  ]

  pub stable_sort-perm : (xs : List A) → Perm (stable_sort less xs) xs
  unfolding stable_sort
  stable_sort-perm [] = Perm.rfl
  stable_sort-perm (x ∷ xs) =
      Perm.trans (insert-perm x (stable_sort less xs)) (Perm.cons x (stable_sort-perm xs))

module _ {A : Type 0} (less : A → A → Bool) (laws : StrictWeak less) where
  open laws use {asymm, trans}

  Below-Below : (x y : A) (zs : List A) → less y x ≡ false → Below less y zs → Below less x zs
  Below-Below x y [] h b = tt
  Below-Below x y (z ∷ zs) h b = (trans x y z h b.0, Below-Below x y zs h b.1)

  Below-insert :
      (x y : A) (zs : List A) → less y x ≡ false → Below less x zs → Below less x (insert less y zs)
  unfolding insert
  Below-insert x y [] h b = (h, tt)
  Below-insert x y (z ∷ zs) h b = elim (Bool-cases (less z y)) [
    | inl e ↦ rw e (b.0, Below-insert x y zs h b.1)
    | inr e ↦ rw e (h, b)
  ]

  insert-IsSorted : (x : A) (ys : List A) → IsSorted less ys → IsSorted less (insert less x ys)
  unfolding insert
  insert-IsSorted x [] s = (tt, tt)
  insert-IsSorted x (y ∷ ys) s = elim (Bool-cases (less y x)) [
    | inl e ↦ rw e (Below-insert y x ys (asymm y x e) s.0, insert-IsSorted x ys s.1)
    | inr e ↦ rw e ((e, Below-Below x y ys e s.0), s)
  ]

  pub stable_sort-IsSorted : (xs : List A) → IsSorted less (stable_sort less xs)
  unfolding stable_sort
  stable_sort-IsSorted [] = tt
  stable_sort-IsSorted (x ∷ xs) = insert-IsSorted x (stable_sort less xs) (stable_sort-IsSorted xs)
