-- ===== src/Usb/Waits/Present.antt =====
-- What the operations keep of the handlers: while a wait lasts, its handler is the last of the
-- list, or has switched the gadgets; every other handler is of an earlier wait.
use wireless_android_auto_do.Prelude.{
  ℕ, suc, ◌≡◌, refl, arith, inl, inr, ◌⊎◌, Bool, true, false, ◌&&◌, List, [], ◌∷◌, ◌++◌, Option,
  none, some, if◌then◌else◌,
}
use wireless_android_auto_do.Text.{Bytes}
use wireless_android_auto_do.Uevent.{UeventEnv}
use wireless_android_auto_do.Usb.{
  Usb, enable_gadget, write_gadget_file, begin_wait, end_wait, disable_gadget, disable_one, new,
}
use wireless_android_auto_do.Usb.Waits.{
  Waits, is_alive, is_start, begin_switch, called, hear, start_waits, start_wait, finish_wait,
  disable_waits,
}
use wireless_android_auto_do.Usb.Waits.Loop.{
  thin, is_even, AllDead, AllBelow, thin-AllBelow, append-AllBelow, same, below, Listens, call_dead,
  call_alive,
}

-- No wait lasts.
pub record Over (w : Waits) : Type 0 where
  pub gone : w.manager.promise_held ≡ false
  pub lower : AllBelow (suc w.wait) w.handlers

-- The present wait has its value, or listens.
abbrev pub Hears : Waits → Type 0
Hears w =
    ((w.manager.promise_set ≡ true) × AllBelow w.wait w.handlers)
    ⊎ ((w.manager.promise_set ≡ false) × Listens w.wait w.handlers)

pub record Lasts (w : Waits) : Type 0 where
  pub held : w.manager.promise_held ≡ true
  pub hears : Hears w

pub over-AllDead :
    (w : Waits) (ids : List ℕ) → w.manager.promise_held ≡ false → AllDead (is_alive w) ids
over-AllDead w [] h = tt
over-AllDead w (id ∷ ids) h = (rw h refl, over-AllDead w ids h)

pub not_alive : (held e : Bool) → e ≡ false → (held && e) ≡ false
not_alive true e h = h
not_alive false e h = refl

pub earlier-AllDead : (w : Waits) (ids : List ℕ) → AllBelow w.wait ids → AllDead (is_alive w) ids
earlier-AllDead w [] b = tt
earlier-AllDead w (id ∷ ids) b =
    (not_alive w.manager.promise_held _ (below id w.wait b.0), earlier-AllDead w ids b.1)

pub present_is_alive : (w : Waits) → w.manager.promise_held ≡ true → is_alive w w.wait ≡ true
present_is_alive w h = rw (h, same w.wait) refl

-- An event that finds no wait thins the list.
pub hear_dead :
    (env : UeventEnv) (w : Waits)
    → AllDead (is_alive w) w.handlers
    → hear env w ≡ record w { handlers = thin w.handlers; switching = none }
unfolding hear
hear_dead env w d = rw (call_dead (is_alive w) (is_start env) w.handlers d) refl

-- An event that finds the present wait at the end of the list.
pub hear_alive :
    (env : UeventEnv) (w : Waits) (ids : List ℕ)
    → w.manager.promise_held ≡ true
    → w.handlers ≡ ids ++ w.wait ∷ []
    → AllBelow w.wait ids
    → hear env w
      ≡ called
          (thin ids ++ w.wait ∷ [], if is_start env && is_even ids then some w.wait else none)
          w
unfolding hear
hear_alive env w ids h e b =
    rw
      (
        e,
        call_alive (is_alive w) (is_start env) w.wait ids (present_is_alive w h)
            (earlier-AllDead w ids b),
      )
      refl

pub start_waits-Over : (entries : Option (List Bytes)) → Over (start_waits entries)
unfolding start_waits new disable_gadget disable_one write_gadget_file
start_waits-Over none = record { gone = refl; lower = tt }
start_waits-Over (some names) = record { gone = refl; lower = tt }

pub start_wait-Lasts : (w : Waits) → Over w → Lasts (start_wait w)
unfolding start_wait begin_wait enable_gadget write_gadget_file
start_wait-Lasts w v = record {
  held = refl;
  hears = inr (refl, record { earlier = w.handlers; last = refl; lower = v.lower });
}

weaker : (n : ℕ) (ids : List ℕ) → AllBelow n ids → AllBelow (suc n) ids
weaker n [] b = tt
weaker n (id ∷ ids) b = (omega arith, weaker n ids b.1)

pub finish_wait-Over : (w : Waits) → Lasts w → Over (finish_wait w).1
unfolding finish_wait end_wait
finish_wait-Over w v = record {
  gone = refl;
  lower = elim v.hears [
    | inl h ↦ weaker w.wait w.handlers h.1
    | inr h ↦ rw h.1.last (append-AllBelow w.wait h.1.earlier h.1.lower)
  ];
}

pub disable_waits-Over : (w : Waits) → Over w → Over (disable_waits w)
unfolding disable_waits disable_gadget disable_one write_gadget_file
disable_waits-Over w v = record { gone = v.gone; lower = v.lower }

pub hear_over :
    (env : UeventEnv) (w : Waits)
    → w.manager.promise_held ≡ false
    → hear env w ≡ record w { handlers = thin w.handlers; switching = none }
hear_over env w h = hear_dead env w (over-AllDead w w.handlers h)

pub hear-Over : (env : UeventEnv) (w : Waits) → Over w → Over (hear env w)
hear-Over env w v =
    rw (hear_over env w v.gone)
      (record { gone = v.gone; lower = thin-AllBelow (suc w.wait) w.handlers v.lower })

begin_switch_set : (o : Option ℕ) (u : Usb) → (begin_switch o u).promise_set ≡ u.promise_set
unfolding disable_one write_gadget_file
begin_switch_set none u = refl
begin_switch_set (some id) u = refl

begin_switch_held : (o : Option ℕ) (u : Usb) → (begin_switch o u).promise_held ≡ u.promise_held
unfolding disable_one write_gadget_file
begin_switch_held none u = refl
begin_switch_held (some id) u = refl

-- the list changes, and perhaps a handler begins to switch
pub called-Lasts :
    (r : List ℕ × Option ℕ) (w : Waits)
    → w.manager.promise_held ≡ true
    → Hears (record w { handlers = r.0 })
    → Lasts (called r w)
called-Lasts (ids, o) w h v = record {
  held = rw (begin_switch_held o w.manager) h;
  hears = rw (begin_switch_set o w.manager) v;
}

pub hear-Lasts : (env : UeventEnv) (w : Waits) → Lasts w → Lasts (hear env w)
hear-Lasts env w v = elim v.hears [
  | inl h ↦
      rw (hear_dead env w (earlier-AllDead w w.handlers h.1))
        (record { held = v.held; hears = inl (h.0, thin-AllBelow w.wait w.handlers h.1) })
  | inr h ↦
      let l = h.1 in
      rw (hear_alive env w l.earlier v.held l.last l.lower) (
        called-Lasts (thin l.earlier ++ w.wait ∷ [], _) w v.held
          (inr (
            h.0,
            record {
              earlier = thin l.earlier;
              last = refl;
              lower = thin-AllBelow w.wait l.earlier l.lower;
            },
          )))
]
