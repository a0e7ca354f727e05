-- ===== src/Usb/Waits.antt =====
-- The waits of `enableDefaultAndWaitForAccessory` over the lifetime of the daemon, and the thread of
-- `monitorLoop` that calls their handlers. A handler holds only a weak pointer to the promise of its
-- wait; it stays in the list when the wait is over, until an event finds it there. The thread is
-- inside `switchToAccessoryGadget` for the time of its sleep.
use wireless_android_auto_do.Prelude.{
  ℕ, zero, suc, ◌+◌, Bool, true, false, not, ◌&&◌, List, [], ◌∷◌, ◌++◌, Option, none, some, ◌==◌,
  if◌then◌else◌,
}
use wireless_android_auto_do.Text.{Bytes, codes}
use wireless_android_auto_do.Uevent.{UeventEnv, lookup}
use wireless_android_auto_do.Usb.{
  Usb, default_gadget, accessory_gadget, enable_gadget, disable_one, differs, new, begin_wait,
  end_wait, disable_gadget,
}
-- `manager` has the promise of the latest wait, whose number is `wait`; `handlers` are those of the
-- monitor, each as the number of its wait; `switching` is the wait whose handler the monitor is in.
pub mod Loop
pub mod Present
pub mod Switched
pub mod Heard

pub record Waits : Type 0 where
  pub manager : Usb
  pub wait : ℕ
  pub handlers : List ℕ
  pub switching : Option ℕ

-- `accessoryPromiseWeak.lock()`
abbrev pub is_alive : Waits → ℕ → Bool
is_alive w id = w.manager.promise_held && (id == w.wait)

-- the two tests on the event
unfoldable pub is_start : UeventEnv → Bool
is_start env =
    if differs (lookup (codes "DEVNAME") env) (codes "usb_accessory")
    then false
    else if differs (lookup (codes "ACCESSORY") env) (codes "START")
    then false
    else true

abbrev pub behind : ℕ → List ℕ × Option ℕ → List ℕ × Option ℕ
behind id (ids, heard) = (id ∷ ids, heard)

-- The loop over the handlers, from one handler on: the handlers that stay, up to the one that
-- switches the gadgets, if one does. `erase` returns the iterator behind the erased handler, and
-- `++it` passes that one over; at the end of the list it is taken to end the loop.
unfoldable pub call_from : (ℕ → Bool) → Bool → List ℕ → List ℕ × Option ℕ
call_from alive start [] = ([], none)
call_from alive start (id ∷ []) =
    if not (alive id) then ([], none) else if start then (id ∷ [], some id) else (id ∷ [], none)
call_from alive start (id ∷ next ∷ ids) =
    let erased = behind next (call_from alive start ids) in
    let kept = behind id (call_from alive start (next ∷ ids)) in
    if not (alive id) then erased else if start then (id ∷ next ∷ ids, some id) else kept

-- The loop from the handler on that has switched the gadgets, and returns `true`.
abbrev pub erase_it : (ℕ → Bool) → List ℕ → List ℕ × Option ℕ
erase_it alive [] = ([], none)
erase_it alive (next ∷ ids) = behind next (call_from alive true ids)

unfoldable pub call_behind : (ℕ → Bool) → ℕ → List ℕ → List ℕ × Option ℕ
call_behind alive id [] = ([], none)
call_behind alive id (h ∷ ids) =
    let later = behind h (call_behind alive id ids) in if h == id then erase_it alive ids else later

-- `disableGadget(defaultGadgetName)`, if a handler begins to switch
abbrev pub begin_switch : Option ℕ → Usb → Usb
begin_switch none u = u
begin_switch (some id) u = disable_one default_gadget u

abbrev pub called : List ℕ × Option ℕ → Waits → Waits
called (ids, heard) w = record w {
  manager = begin_switch heard w.manager;
  handlers = ids;
  switching = heard;
}

-- The monitor reads an event and calls the handlers.
unfoldable pub hear : UeventEnv → Waits → Waits
hear env w = called (call_from (is_alive w) (is_start env) w.handlers) w

-- Behind the sleep: the accessory gadget is enabled, and the promise of the wait gets its value,
-- which nothing reads any more if the wait is over; the loop goes on.
unfoldable pub finish_switch : ℕ → Waits → Waits
finish_switch id w =
    let u = enable_gadget accessory_gadget w.manager in
    let set = if is_alive w id then record u { promise_set = true } else u in
    called (call_behind (is_alive w) id w.handlers) (record w { manager = set })

unfoldable pub start_waits : Option (List Bytes) → Waits
start_waits entries = record { manager = new entries; wait = 0; handlers = []; switching = none }

-- `enableDefaultAndWaitForAccessory` up to its wait
unfoldable pub start_wait : Waits → Waits
start_wait w = record w {
  manager = (begin_wait [] w.manager).1;
  wait = suc w.wait;
  handlers = w.handlers ++ suc w.wait ∷ [];
}

-- its return
unfoldable pub finish_wait : Waits → Bool × Waits
finish_wait w = let (ok, u) = end_wait w.manager in (ok, record w { manager = u })

unfoldable pub disable_waits : Waits → Waits
disable_waits w = record w { manager = disable_gadget w.manager }
