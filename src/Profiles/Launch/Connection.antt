-- ===== src/Profiles/Launch/Connection.antt =====
-- The descriptors of `AAWirelessProfile::NewConnection`.
use wireless_android_auto_do.Prelude.{
  ℕ, suc, ◌-◌, ◌≡◌, refl, arith, Bool, true, false, none, some, if◌then◌else◌,
}
use wireless_android_auto_do.Stream.{Input}
use wireless_android_auto_do.Config.{WifiInfo}
use wireless_android_auto_do.Profiles.Launch.{Serializer, Launch, launch, new_connection}
use wireless_android_auto_do.Profiles.Launch.Handshake.{launch-total}

closed : (n : ℕ) → suc n - 1 ≡ n
closed n = omega arith

-- Whatever the phone sends, and wherever its stream ends, the thread of a new connection comes to
-- its end with the result of the launch, and the copy of the descriptor is closed again; where
-- there is no copy, nothing is launched and nothing is left open.
pub new_connection-total :
    (ser : Serializer) (wifi_info : WifiInfo) (dup_ok : Bool) (s : Input) (n : ℕ)
    → (r : Launch) × (launch ser wifi_info s ≡ some r)
      × (new_connection ser wifi_info dup_ok s n ≡ some (if dup_ok then some r else none, n))
unfolding new_connection
new_connection-total ser wifi_info true s n =
    let (r, e) = launch-total ser wifi_info s in (r, e, rw (e, closed n))
new_connection-total ser wifi_info false s n =
    let (r, e) = launch-total ser wifi_info s in (r, e, refl)
