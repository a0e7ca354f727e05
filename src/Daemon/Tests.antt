-- ===== src/Daemon/Tests.antt =====
-- The theorems about the daemon, at states that it reaches.
use wireless_android_auto_do.Prelude.{
  ℕ, zero, suc, arith, ◌≡◌, refl, ◌⊎◌, inr, true, false, List, [], ◌∷◌, some,
}
use wireless_android_auto_do.Text.{Bytes, codes}
use wireless_android_auto_do.Bluetooth.{ready, set_value}
use wireless_android_auto_do.Config.{dongle_mode, phone_first}
use wireless_android_auto_do.Daemon.{
  at_top, connecting, testing, Daemon, boot, main_at, proxy_at, command, Choice, main_turn,
  proxy_turn, retry_turn, a_command, step, Reach, booted,
}
use wireless_android_auto_do.Usb.{default_gadget, accessory_gadget}
use wireless_android_auto_do.Usb.Gadgets.{NeverBoth, bound}
use wireless_android_auto_do.Daemon.Run.{drive}
use wireless_android_auto_do.Daemon.Crash.{crash_within_round}
use wireless_android_auto_do.Daemon.Rank.{Thread, main_thread, proxy_thread, retry_thread}
use wireless_android_auto_do.Daemon.Fair.{has, AllFair, ComesToTop, passes, Reach-ComesToTop}
use wireless_android_auto_do.Daemon.Power.{needs_power, Reach-powered}
use wireless_android_auto_do.Daemon.Timely.{Reach-NeverBoth}
use wireless_android_auto_do.Daemon.Runs.{
  drive-Reach, state_of, connected_once, connected_once-Timely,
}

-- the phone is first: a connection up to the thread of retries
abbrev connects : List Choice
connects =
    main_turn true
    ∷ main_turn true
    ∷ main_turn true
    ∷ main_turn true
    ∷ proxy_turn true
    ∷ proxy_turn true
    ∷ []

abbrev controllers : List Bytes
controllers = codes "fe980000.usb" ∷ []

abbrev started : Daemon
started = boot phone_first true (some controllers)

abbrev in_round : Daemon
in_round = state_of (drive connects started)

in_round-Reach : Reach in_round
unfolding drive step main_at proxy_at boot set_value
in_round-Reach = drive-Reach connects started (booted phone_first true (some controllers))

crash_within_round_example :
    (in_round.promise ≡ ready) × ((in_round.retry ≡ connecting) ⊎ (in_round.retry ≡ testing))
unfolding drive step main_at proxy_at boot set_value command
crash_within_round_example = crash_within_round {s = in_round} in_round-Reach a_command refl refl

-- no phone comes: `main` stops the thread of retries and waits for it
abbrev joins : List Choice
joins =
    main_turn true
    ∷ main_turn true
    ∷ main_turn true
    ∷ main_turn true
    ∷ proxy_turn false
    ∷ main_turn true
    ∷ main_turn true
    ∷ []

abbrev joining : Daemon
joining = state_of (drive joins started)

abbrev loops : List Choice
loops = retry_turn ∷ retry_turn ∷ retry_turn ∷ main_turn true ∷ main_turn true ∷ []

abbrev looped : Daemon
looped = state_of (drive loops joining)

Reach-powered_example :
    (needs_power in_round.retry ≡ true → in_round.powered ≡ true)
    × (in_round.strategy ≡ dongle_mode → in_round.adapter ≡ true → in_round.powered ≡ true)
Reach-powered_example = Reach-powered {s = in_round} in_round-Reach

Reach-NeverBoth_example :
    NeverBoth connected_once.usb.manager.writes
    × (connected_once.main ≡ at_top
        → (bound default_gadget connected_once.usb.manager.writes ≡ false)
          × (bound accessory_gadget connected_once.usb.manager.writes ≡ false))
Reach-NeverBoth_example =
    Reach-NeverBoth {s = connected_once} connected_once-Timely.0 (inr connected_once-Timely.1)

abbrev fair_round : List Choice
fair_round = main_turn true ∷ proxy_turn true ∷ retry_turn ∷ []

abbrev fair_rounds : ℕ → List (List Choice)
fair_rounds zero = []
fair_rounds (suc n) = fair_round ∷ fair_rounds n

each_has_turn : (t : Thread) → has t fair_round ≡ true
each_has_turn main_thread = refl
each_has_turn proxy_thread = refl
each_has_turn retry_thread = refl

fair_rounds-AllFair : (n : ℕ) → AllFair (fair_rounds n)
fair_rounds-AllFair zero = tt
fair_rounds-AllFair (suc n) = (each_has_turn, fair_rounds-AllFair n)

Reach-ComesToTop_example : ComesToTop (passes (fair_rounds 27) in_round)
unfolding drive step main_at proxy_at boot set_value
Reach-ComesToTop_example =
    Reach-ComesToTop {s = in_round} in_round-Reach refl (fair_rounds 27) (omega arith)
      (fair_rounds-AllFair 27)
