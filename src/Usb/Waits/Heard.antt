-- ===== src/Usb/Waits/Heard.antt =====
-- Whether the request of the car is heard.
use mathlib.Core.Path.{subst}
use wireless_android_auto_do.Prelude.{
  ℕ, ◌≡◌, refl, sym, ap, inl, inr, Bool-cases, Bool, true, false, not, List, [], ◌∷◌, ◌++◌, none,
  some, if◌then◌else◌,
}
use wireless_android_auto_do.Text.{codes}
use wireless_android_auto_do.Uevent.{UeventEnv, lookup}
use wireless_android_auto_do.Usb.{
  Usb, default_gadget, accessory_handler, switch_to_accessory_gadget, disable_one,
  write_gadget_file, differs,
}
use wireless_android_auto_do.Usb.Waits.{Waits, is_start, hear, finish_switch}
use wireless_android_auto_do.Usb.Waits.Loop.{thin, is_even, AllBelow, thin-AllBelow}
use wireless_android_auto_do.Usb.Waits.Present.{hear_alive}
use wireless_android_auto_do.Usb.Waits.Switched.{finish_switch_present}

-- the tests of the handler, against those of `is_start`
acts :
    (held a b : Bool) (gone stays acted : Bool × Usb)
    → held ≡ true
    → (if a then false else if b then false else true) ≡ true
    → (if not held then gone else if a then stays else if b then stays else acted) ≡ acted
acts true false false gone stays acted h e = refl
acts true false true gone stays acted h e = cc
acts true true b gone stays acted h e = cc
acts false a b gone stays acted h e = cc

ignores :
    (held a b : Bool) (gone stays acted : Bool × Usb)
    → held ≡ true
    → (if a then false else if b then false else true) ≡ false
    → (if not held then gone else if a then stays else if b then stays else acted) ≡ stays
ignores true false false gone stays acted h e = cc
ignores true false true gone stays acted h e = refl
ignores true true b gone stays acted h e = refl
ignores false a b gone stays acted h e = cc

-- The handler of a wait, called with an event that asks for the accessory mode or with another.
handler_start :
    (env : UeventEnv) (u : Usb)
    → u.promise_held ≡ true
    → is_start env ≡ true
    → accessory_handler env u ≡ (true, record (switch_to_accessory_gadget u) { promise_set = true })
unfolding accessory_handler is_start
handler_start env u h e =
    acts u.promise_held (differs (lookup (codes "DEVNAME") env) (codes "usb_accessory"))
      (differs (lookup (codes "ACCESSORY") env) (codes "START")) (true, u) (false, u) _ h e

handler_other :
    (env : UeventEnv) (u : Usb)
    → u.promise_held ≡ true
    → is_start env ≡ false
    → accessory_handler env u ≡ (false, u)
unfolding accessory_handler is_start
handler_other env u h e =
    ignores u.promise_held (differs (lookup (codes "DEVNAME") env) (codes "usb_accessory"))
      (differs (lookup (codes "ACCESSORY") env) (codes "START")) (true, u) (false, u) _ h e

-- What an event comes to in a wait that has these handlers of earlier waits in front of its own.
-- `asked` is the event that the wait is for.
abbrev pub Heard : Bool → Bool → UeventEnv → Waits → List ℕ → Type 0
Heard true true env w ids =
    (hear env w ≡ record w {
      manager = disable_one default_gadget w.manager;
      handlers = thin ids ++ w.wait ∷ [];
      switching = some w.wait;
    })
    × ((finish_switch w.wait (hear env w)).manager ≡ (accessory_handler env w.manager).1)
Heard true false env w ids =
    hear env w ≡ record w { handlers = thin ids ++ w.wait ∷ []; switching = none }
Heard false even env w ids = hear env w ≡ record w {
  manager = (accessory_handler env w.manager).1;
  handlers = thin ids ++ w.wait ∷ [];
  switching = none;
}

hear_asked :
    (env : UeventEnv) (w : Waits) (ids : List ℕ)
    → w.manager.promise_held ≡ true
    → w.handlers ≡ ids ++ w.wait ∷ []
    → AllBelow w.wait ids
    → is_start env ≡ true
    → is_even ids ≡ true
    → Heard true true env w ids
unfolding switch_to_accessory_gadget disable_one write_gadget_file
hear_asked env w ids h e b st ev =
    let began : Waits = record w {
      manager = disable_one default_gadget w.manager;
      handlers = thin ids ++ w.wait ∷ [];
      switching = some w.wait;
    } in
    rw (hear_alive env w ids h e b, st, ev, handler_start env w.manager h st)
      (
        refl,
        ap (λ v. v.manager)
            (finish_switch_present began (thin ids) h refl (thin-AllBelow w.wait ids b)),
      )

-- In a wait with handlers of earlier waits in front of its own, an event that asks for the
-- accessory mode is heard just if their number is even: the handler of the wait begins its switch,
-- and behind the sleep it has done to the gadgets and to the promise what it does alone. What the
-- loop does when it then removes this handler, the last of the list, is undefined and not stated.
-- If the number is odd, the event is lost. Every other event leaves the USB state. Of the earlier
-- handlers the event removes the first, the third and so on.
pub hear-Heard :
    (env : UeventEnv) (w : Waits) (ids : List ℕ)
    → w.manager.promise_held ≡ true
    → w.handlers ≡ ids ++ w.wait ∷ []
    → AllBelow w.wait ids
    → Heard (is_start env) (is_even ids) env w ids
hear-Heard env w ids h e b = elim (Bool-cases (is_start env)) [
  | inl st ↦
      subst (λ x. Heard x (is_even ids) env w ids) (sym st)
        (elim (Bool-cases (is_even ids)) [
          | inl ev ↦ subst (λ x. Heard true x env w ids) (sym ev) (hear_asked env w ids h e b st ev)
          | inr od ↦
              subst (λ x. Heard true x env w ids) (sym od)
                (rw (hear_alive env w ids h e b, st, od) refl)
        ])
  | inr ot ↦
      subst (λ x. Heard x (is_even ids) env w ids) (sym ot)
        (rw (hear_alive env w ids h e b, ot, handler_other env w.manager h ot) refl)
]
