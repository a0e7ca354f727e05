-- ===== src/Usb/Waits/Switched.antt =====
-- What is kept behind the sleep of a switch.
use mathlib.Core.Path.{subst}
use wireless_android_auto_do.Prelude.{
  ℕ, suc, ◌≡◌, refl, arith, Bool-cases, inl, inr, true, false, List, [], ◌∷◌, ◌++◌, none, ◌==◌,
  length, ◌≤◌, if◌then◌else◌,
}
use wireless_android_auto_do.Usb.{Usb, accessory_gadget, enable_gadget, write_gadget_file}
use wireless_android_auto_do.Usb.Waits.{Waits, is_alive, call_behind, called, finish_switch}
use wireless_android_auto_do.Usb.Waits.Loop.{
  AllDead, AllBelow, Listens, Finds, call_behind_last, call_behind_dead, call_behind_alive,
}
use wireless_android_auto_do.Usb.Waits.Present.{
  Over, Lasts, over-AllDead, not_alive, earlier-AllDead, present_is_alive, called-Lasts,
}

-- the manager behind the sleep
abbrev pub behind_sleep : ℕ → Waits → Usb
behind_sleep id w =
    let u = enable_gadget accessory_gadget w.manager in
    if is_alive w id then record u { promise_set = true } else u

pub finish_switch_lem :
    (id : ℕ) (w : Waits)
    → finish_switch id w
      ≡ called (call_behind (is_alive w) id w.handlers) (record w { manager = behind_sleep id w })
unfolding finish_switch
finish_switch_lem id w = refl

pub behind_sleep_held :
    (id : ℕ) (w : Waits) → (behind_sleep id w).promise_held ≡ w.manager.promise_held
unfolding enable_gadget write_gadget_file
behind_sleep_held id w = elim (Bool-cases (is_alive w id)) [ inl e ↦ rw e refl | inr e ↦ rw e refl ]

behind_sleep_set :
    (id : ℕ) (w : Waits) → w.manager.promise_set ≡ true → (behind_sleep id w).promise_set ≡ true
unfolding enable_gadget write_gadget_file
behind_sleep_set id w h = elim (Bool-cases (is_alive w id)) [ inl e ↦ rw e refl | inr e ↦ rw e h ]

behind_sleep_other :
    (id : ℕ) (w : Waits)
    → is_alive w id ≡ false
    → (behind_sleep id w).promise_set ≡ w.manager.promise_set
unfolding enable_gadget write_gadget_file
behind_sleep_other id w e = rw e refl

behind_sleep_present :
    (w : Waits)
    → w.manager.promise_held ≡ true
    → behind_sleep w.wait w
      ≡ record (enable_gadget accessory_gadget w.manager) { promise_set = true }
behind_sleep_present w h = rw (present_is_alive w h) refl

-- Behind the switch of a wait that is over, the loop finds no wait.
finish_switch_dead :
    (id : ℕ) (w : Waits)
    → AllDead (is_alive w) w.handlers
    → finish_switch id w ≡ record w {
      manager = behind_sleep id w;
      handlers = (call_behind (is_alive w) id w.handlers).0;
      switching = none;
    }
finish_switch_dead id w d =
    rw (finish_switch_lem id w, (call_behind_dead (is_alive w) id w.handlers d).silent) refl

-- Where no wait lasts, the accessory gadget is enabled, and no list gets longer.
pub finish_switch_over :
    (id : ℕ) (w : Waits)
    → w.manager.promise_held ≡ false
    → (ids : List ℕ) × ((finish_switch id w ≡ record w {
      manager = enable_gadget accessory_gadget w.manager;
      handlers = ids;
      switching = none;
    })
        × (length ids ≤ length w.handlers))
finish_switch_over id w h =
    let d = over-AllDead w w.handlers h in
    (
      (call_behind (is_alive w) id w.handlers).0,
      (
        rw (finish_switch_dead id w d, h) refl,
        (call_behind_dead (is_alive w) id w.handlers d).no_more,
      ),
    )

pub finish_switch-Over : (id : ℕ) (w : Waits) → Over w → Over (finish_switch id w)
finish_switch-Over id w v =
    let d = over-AllDead w w.handlers v.gone in
    rw (finish_switch_dead id w d) (record {
      gone = rw (behind_sleep_held id w) v.gone;
      lower = (call_behind_dead (is_alive w) id w.handlers d).lower (suc w.wait) v.lower;
    })

-- The handler of the present wait has switched: the wait has its value.
pub finish_switch_present :
    (w : Waits) (ids : List ℕ)
    → w.manager.promise_held ≡ true
    → w.handlers ≡ ids ++ w.wait ∷ []
    → AllBelow w.wait ids
    → finish_switch w.wait w ≡ record w {
      manager = record (enable_gadget accessory_gadget w.manager) { promise_set = true };
      handlers = ids;
      switching = none;
    }
finish_switch_present w ids h e b =
    rw
      (
        finish_switch_lem w.wait w,
        behind_sleep_present w h,
        e,
        call_behind_last (is_alive w) w.wait ids b,
      )
      refl

pub equal_numbers : (a b : ℕ) → (a == b) ≡ true → a ≡ b
equal_numbers a b e = ground arith

turned : (a b : ℕ) → (a == b) ≡ false → (b == a) ≡ false
turned a b e = ground arith

finish_switch_own :
    (w : Waits)
    → Lasts w
    → w.manager.promise_set ≡ false
    → Listens w.wait w.handlers
    → Lasts (finish_switch w.wait w)
unfolding enable_gadget write_gadget_file
finish_switch_own w v h l =
    rw (finish_switch_present w l.earlier v.held l.last l.lower)
      (record { held = v.held; hears = inl (refl, l.lower) })

-- Behind the switch of another wait, the loop finds the present one.
pub behind_other :
    (id : ℕ) (w : Waits) (ids : List ℕ)
    → w.manager.promise_held ≡ true
    → (w.wait == id) ≡ false
    → AllBelow w.wait ids
    → Finds w.wait (call_behind (is_alive w) id (ids ++ w.wait ∷ []))
behind_other id w ids h e b =
    call_behind_alive (is_alive w) id w.wait ids e (present_is_alive w h) (earlier-AllDead w ids b)
      b

finish_switch_other :
    (id : ℕ) (w : Waits)
    → Lasts w
    → (w.wait == id) ≡ false
    → w.manager.promise_set ≡ false
    → Listens w.wait w.handlers
    → Lasts (finish_switch id w)
finish_switch_other id w v e h l =
    let over = not_alive w.manager.promise_held _ (turned w.wait id e) in
    let left = behind_other id w l.earlier v.held e l.lower in
    rw (finish_switch_lem id w) (
      called-Lasts (call_behind (is_alive w) id w.handlers)
        (record w { manager = behind_sleep id w }) (rw (behind_sleep_held id w) v.held)
        (inr (rw (behind_sleep_other id w over) h, rw l.last left.list)))

pub finish_switch-Lasts : (id : ℕ) (w : Waits) → Lasts w → Lasts (finish_switch id w)
finish_switch-Lasts id w v = elim v.hears [
  | inl h ↦
      let d = earlier-AllDead w w.handlers h.1 in
      rw (finish_switch_dead id w d) (record {
        held = rw (behind_sleep_held id w) v.held;
        hears = inl (
          behind_sleep_set id w h.0,
          (call_behind_dead (is_alive w) id w.handlers d).lower w.wait h.1,
        );
      })
  | inr h ↦ elim (Bool-cases (w.wait == id)) [
    | inl e ↦
        subst (λ x. Lasts (finish_switch x w)) (equal_numbers w.wait id e)
          (finish_switch_own w v h.0 h.1)
    | inr e ↦ finish_switch_other id w v e h.0 h.1
  ]
]
