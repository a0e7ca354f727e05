-- ===== src/Daemon/Join.antt =====
-- The end of `main`'s wait for the thread of retries.
use mathlib.Core.Path.{subst}
use wireless_android_auto_do.Prelude.{◌≡◌, sym, arith, true, List, [], ◌∷◌, ◌++◌}
use wireless_android_auto_do.Bluetooth.{Promise, absent}
use wireless_android_auto_do.Daemon.{
  join_retry, disable, ProxyPc, RetryPc, no_thread, connecting, testing, powering_off, ended,
  Daemon, Outcome, running, main_at, retry_at, Choice, main_turn, retry_turn, step, Reach,
}
use wireless_android_auto_do.Daemon.Run.{Ordered, at, drive, Reach-Ordered}

-- the steps that the thread of retries has still to make once its promise has its value
abbrev steps_left : RetryPc → List Choice
steps_left connecting = retry_turn ∷ retry_turn ∷ retry_turn ∷ []
steps_left testing = retry_turn ∷ retry_turn ∷ []
steps_left powering_off = retry_turn ∷ []
steps_left _ = []

-- `main` gets past its wait for the thread of retries.
abbrev GetsPast : Outcome → Type 0
GetsPast (running t) = (t.main ≡ disable) × (t.retry ≡ no_thread) × (t.promise ≡ absent)
GetsPast _ = ⊥

join_ends-at :
    (p : ProxyPc) (r : RetryPc) (q : Promise) (s : Daemon)
    → Ordered (at join_retry p r q s)
    → GetsPast (drive (steps_left r ++ main_turn true ∷ []) (at join_retry p r q s))
unfolding drive step retry_at main_at
join_ends-at p no_thread q s v = ground arith
join_ends-at p connecting q s v = ground arith
join_ends-at p testing q s v = ground arith
join_ends-at p powering_off q s v = ground arith
join_ends-at p ended q s v = ground arith

-- In every state that the daemon reaches in which `main` waits for the thread of retries, that
-- thread has at most three steps of its own to make until it ends; `main` then goes on, and the
-- promise is null.
join_ends :
    {s : Daemon}
    → Reach s
    → s.main ≡ join_retry
    → GetsPast (drive (steps_left s.retry ++ main_turn true ∷ []) s)
join_ends {s} r e =
    subst
      (λ m.
        GetsPast
          (drive (steps_left s.retry ++ main_turn true ∷ []) (at m s.proxy s.retry s.promise s)))
      (sym e)
      (join_ends-at s.proxy s.retry s.promise s
        (subst (λ m. Ordered (at m s.proxy s.retry s.promise s)) e (Reach-Ordered r)))
