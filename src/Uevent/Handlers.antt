-- ===== src/Uevent/Handlers.antt =====
-- The loop of `monitorLoop` over the handlers.
use wireless_android_auto_do.Prelude.{◌≡◌, refl, true, false, List, [], ◌∷◌, ◌++◌, none, some}
use wireless_android_auto_do.Uevent.{UeventEnv, Handler, call_handlers}

module _ {S : Type 0} (env : UeventEnv) where
  -- No handler asks to be removed, each at the state that those before it leave.
  abbrev AllStay : List (Handler S) → S → Type 0
  AllStay [] s = Unit
  AllStay (h ∷ hs) s = ((h env s).0 ≡ false) × AllStay hs (h env s).1

  -- What the handlers make of a state, called one after the other.
  abbrev run_all : List (Handler S) → S → S
  run_all [] s = s
  run_all (h ∷ hs) s = run_all hs (h env s).1

  -- Where no handler asks to be removed, all are called, in order, and all stay.
  call_handlers-AllStay :
      (hs : List (Handler S)) (s : S)
      → AllStay hs s
      → call_handlers env hs s ≡ some (hs, run_all hs s)
  unfolding call_handlers
  call_handlers-AllStay [] s h = refl
  call_handlers-AllStay (h ∷ []) s st = rw st.0
  call_handlers-AllStay (h ∷ next ∷ hs) s st =
      rw (st.0, call_handlers-AllStay (next ∷ hs) (h env s).1 st.1)

  -- Where the last handler of the list is reached and asks to be removed, the loop increments the
  -- end iterator, which is undefined.
  call_handlers_last :
      (hs : List (Handler S)) (h : Handler S) (s : S)
      → AllStay hs s
      → (h env (run_all hs s)).0 ≡ true
      → call_handlers env (hs ++ h ∷ []) s ≡ none
  unfolding call_handlers
  call_handlers_last [] h s st d = rw d
  call_handlers_last (g ∷ []) h s st d = rw (st.0, d)
  call_handlers_last (g ∷ g' ∷ hs) h s st d =
      rw (st.0, call_handlers_last (g' ∷ hs) h (g env s).1 st.1 d)

  -- A handler that asks to be removed is removed, and the handler behind it is passed over: it is
  -- not called for this event.
  call_handlers_passes_over :
      (h next : Handler S) (hs : List (Handler S)) (s : S)
      → (h env s).0 ≡ true
      → AllStay hs (h env s).1
      → call_handlers env (h ∷ next ∷ hs) s ≡ some (next ∷ hs, run_all hs (h env s).1)
  unfolding call_handlers
  call_handlers_passes_over h next hs s d st = rw (d, call_handlers-AllStay hs (h env s).1 st)
