-- ===== src/Usb/Waits/Loop.antt =====
-- The loop of `monitorLoop` over the handlers of the waits.
use wireless_android_auto_do.Prelude.{
  ℕ, suc, ◌≤◌, ◌<◌, ◌≡◌, refl, ap, arith, Bool-cases, ◌⊎◌, inl, inr, Bool, true, false, ◌&&◌, List,
  [], ◌∷◌, ◌++◌, Option, none, some, length, ◌==◌, if◌then◌else◌,
}
use wireless_android_auto_do.Usb.Waits.{call_from, call_behind, erase_it}

-- What an event leaves of the handlers of waits that are over: every second one.
abbrev pub thin : List ℕ → List ℕ
thin [] = []
thin (id ∷ []) = []
thin (id ∷ next ∷ ids) = next ∷ thin ids

abbrev pub is_even : List ℕ → Bool
is_even [] = true
is_even (id ∷ []) = false
is_even (id ∷ next ∷ ids) = is_even ids

-- The waits of these handlers are over.
abbrev pub AllDead : (ℕ → Bool) → List ℕ → Type 0
AllDead alive [] = Unit
AllDead alive (id ∷ ids) = (alive id ≡ false) × AllDead alive ids

-- All these numbers are below one.
abbrev pub AllBelow : ℕ → List ℕ → Type 0
AllBelow n [] = Unit
AllBelow n (id ∷ ids) = (id < n) × AllBelow n ids

pub thin-AllBelow : (n : ℕ) (ids : List ℕ) → AllBelow n ids → AllBelow n (thin ids)
thin-AllBelow n [] h = tt
thin-AllBelow n (id ∷ []) h = tt
thin-AllBelow n (id ∷ next ∷ ids) h = (h.1.0, thin-AllBelow n ids h.1.1)

pub append-AllBelow : (n : ℕ) (ids : List ℕ) → AllBelow n ids → AllBelow (suc n) (ids ++ n ∷ [])
append-AllBelow n [] h = (omega arith, tt)
append-AllBelow n (id ∷ ids) h = (omega arith, append-AllBelow n ids h.1)

pub same : (n : ℕ) → (n == n) ≡ true
same n = ground arith

pub below : (a b : ℕ) → a < b → (a == b) ≡ false
below a b h = ground arith

-- No handler switches, and the handlers are none that are new.
pub record NoneOf (ids : List ℕ) (r : List ℕ × Option ℕ) : Type 0 where
  pub silent : r.1 ≡ none
  pub no_more : length r.0 ≤ length ids
  pub lower : (n : ℕ) → AllBelow n ids → AllBelow n r.0

length-thin : (ids : List ℕ) → length (thin ids) ≤ length ids
length-thin [] = omega arith
length-thin (id ∷ []) = omega arith
length-thin (id ∷ next ∷ ids) = let rest = length-thin ids in omega arith

-- The list of a present wait: its handler is the last, the others are of earlier waits.
pub record Listens (n : ℕ) (ids : List ℕ) : Type 0 where
  pub earlier : List ℕ
  pub last : ids ≡ earlier ++ n ∷ []
  pub lower : AllBelow n earlier

-- No handler switches, or the present one does.
abbrev pub Only : ℕ → Option ℕ → Type 0
Only n o = (o ≡ none) ⊎ (o ≡ some n)

pub record Finds (n : ℕ) (r : List ℕ × Option ℕ) : Type 0 where
  pub list : Listens n r.0
  pub only : Only n r.1

-- An event shortens a list that is not empty.
pub thin_shorter : (n : ℕ) (ids : List ℕ) → length ids ≤ suc n → length (thin ids) ≤ n
thin_shorter n [] h = omega arith
thin_shorter n (id ∷ []) h = omega arith
thin_shorter n (id ∷ next ∷ ids) h = let le = length-thin ids in omega arith

module _ (alive : ℕ → Bool) where
  -- An event that finds only waits that are over thins the list, and switches nothing.
  pub call_dead :
      (start : Bool) (ids : List ℕ)
      → AllDead alive ids
      → call_from alive start ids ≡ (thin ids, none)
  unfolding call_from
  call_dead start [] d = refl
  call_dead start (id ∷ []) d = rw d.0 refl
  call_dead start (id ∷ next ∷ ids) d = rw (d.0, call_dead start ids d.1.1) refl

  -- With the handler of the present wait behind them, it is called just if their number is even.
  pub call_alive :
      (start : Bool) (id : ℕ) (ids : List ℕ)
      → alive id ≡ true
      → AllDead alive ids
      → call_from alive start (ids ++ id ∷ [])
        ≡ (thin ids ++ id ∷ [], if start && is_even ids then some id else none)
  unfolding call_from
  call_alive true id [] a d = rw a refl
  call_alive false id [] a d = rw a refl
  call_alive true id (h ∷ []) a d = rw d.0 refl
  call_alive false id (h ∷ []) a d = rw d.0 refl
  call_alive start id (h ∷ next ∷ ids) a d = rw (d.0, call_alive start id ids a d.1.1) refl

  -- A handler that has switched the gadgets is found by its number and removed.
  pub call_behind_last :
      (id : ℕ) (ids : List ℕ)
      → AllBelow id ids
      → call_behind alive id (ids ++ id ∷ []) ≡ (ids, none)
  unfolding call_behind
  call_behind_last id [] b = rw (same id) refl
  call_behind_last id (h ∷ ids) b = rw (below h id b.0, call_behind_last id ids b.1) refl

  erase_it_dead : (ids : List ℕ) → AllDead alive ids → NoneOf ids (erase_it alive ids)
  erase_it_dead [] d = record { silent = refl; no_more = omega arith; lower = λ n b. b }
  erase_it_dead (next ∷ ids) d = rw (call_dead true ids d.1) (record {
    silent = refl;
    no_more = let rest = length-thin ids in omega arith;
    lower = λ n b. (b.0, thin-AllBelow n ids b.1);
  })

  -- Among waits that are over, no other handler switches.
  pub call_behind_dead :
      (id : ℕ) (ids : List ℕ) → AllDead alive ids → NoneOf ids (call_behind alive id ids)
  unfolding call_behind
  call_behind_dead id [] d = record { silent = refl; no_more = omega arith; lower = λ n b. b }
  call_behind_dead id (h ∷ ids) d = elim (Bool-cases (h == id)) [
    | inl e ↦
        let rest = erase_it_dead ids d.1 in
        rw e (record {
          silent = rest.silent;
          no_more = let le = rest.no_more in omega arith;
          lower = λ n b. rest.lower n b.1;
        })
    | inr e ↦
        let rest = call_behind_dead id ids d.1 in
        rw e (record {
          silent = rest.silent;
          no_more = let le = rest.no_more in omega arith;
          lower = λ n b. (b.0, rest.lower n b.1);
        })
  ]

  at_most : (b : Bool) (n : ℕ) → Only n (if b then some n else none)
  at_most true n = inr refl
  at_most false n = inl refl

  erase_it_alive :
      (n : ℕ) (ids : List ℕ)
      → alive n ≡ true
      → AllDead alive ids
      → AllBelow n ids
      → Finds n (erase_it alive (ids ++ n ∷ []))
  unfolding call_from
  erase_it_alive n [] a d b = record {
    list = record { earlier = []; last = refl; lower = tt };
    only = inl refl;
  }
  erase_it_alive n (next ∷ ids) a d b = rw (call_alive true n ids a d.1) (record {
    list = record {
      earlier = next ∷ thin ids;
      last = refl;
      lower = (b.0, thin-AllBelow n ids b.1);
    };
    only = at_most (is_even ids) n;
  })

  -- The handler of a wait that is over has switched: the present wait still listens, and perhaps
  -- its handler switches for the same event.
  pub call_behind_alive :
      (id n : ℕ) (ids : List ℕ)
      → (n == id) ≡ false
      → alive n ≡ true
      → AllDead alive ids
      → AllBelow n ids
      → Finds n (call_behind alive id (ids ++ n ∷ []))
  unfolding call_behind
  call_behind_alive id n [] e a d b =
      rw e (record { list = record { earlier = []; last = refl; lower = tt }; only = inl refl })
  call_behind_alive id n (h ∷ ids) e a d b = elim (Bool-cases (h == id)) [
    | inl f ↦ rw f (erase_it_alive n ids a d.1 b.1)
    | inr f ↦
        let rest = call_behind_alive id n ids e a d.1 b.1 in
        rw f (record {
          list = record {
            earlier = h ∷ rest.list.earlier;
            last = ap (λ x. h ∷ x) rest.list.last;
            lower = (b.0, rest.list.lower);
          };
          only = rest.only;
        })
  ]
