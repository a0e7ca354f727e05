-- ===== src/Bluetooth/Retry.antt =====
-- `connectDevice`, `disconnectAll`, and the thread that retries the connection until its promise
-- has a value.
use wireless_android_auto_do.Prelude.{
  ℕ, zero, suc, ◌≡◌, refl, ap, ◌∙◌, Bool, true, false, List, [], ◌∷◌, Option, none, some,
  if◌then◌else◌,
}
use wireless_android_auto_do.Text.{Bytes}
use wireless_android_auto_do.Bluetooth.{
  Bus, BluetoothHandler, Promise, absent, pending, ready, has_device, stable_sort, more_preferred,
  set_value, disconnect_each, connect_loop,
}

-- the paths that `connectDevice` collects
unfoldable pub device_paths : List (Bytes × List Bytes) → List Bytes
device_paths [] = []
device_paths ((path, interfaces) ∷ objects) =
    let rest = device_paths objects in if has_device interfaces then path ∷ rest else rest

-- the preferred device first
unfoldable pub in_order : Option Bytes → List Bytes → List Bytes
in_order none paths = paths
in_order (some preferred) paths = stable_sort (more_preferred preferred) paths

-- The test at the end of a round of `retryConnectLoop`, on the promise: whether the loop ends.
abbrev pub end_round : {B : Type 0} → BluetoothHandler B → Promise → Bool × BluetoothHandler B
end_round s ready = (true, record s { promise = absent })
end_round s absent = (false, s)
end_round s pending = (false, s)

module _ {B : Type 0} (bluez : Bus B) where
  -- `connectDevice`
  unfoldable pub connect_device : Bool → BluetoothHandler B → BluetoothHandler B
  connect_device is_dongle_mode s = record s {
    bus =
        connect_loop bluez is_dongle_mode
          (in_order s.preferred (device_paths (bluez.managed_objects s.bus))) s.bus;
  }

  abbrev pub disconnect_stopped : BluetoothHandler B → Option Promise → Option (BluetoothHandler B)
  disconnect_stopped s none = none
  disconnect_stopped s (some p) = some (record s {
    promise = p;
    preferred = none;
    bus = disconnect_each bluez (bluez.managed_objects s.bus) s.bus;
  })

  -- `disconnectAll`
  unfoldable pub disconnect_all : BluetoothHandler B → Option (BluetoothHandler B)
  disconnect_all s = if s.connection then disconnect_stopped s (set_value s.promise) else some s

  -- `connectWithRetry`: whether it starts the thread
  unfoldable pub connect_with_retry : BluetoothHandler B → Bool × BluetoothHandler B
  connect_with_retry s = if s.adapter then (true, record s { promise = pending }) else (false, s)

  abbrev pub with_promise : BluetoothHandler B → Option Promise → Option (BluetoothHandler B)
  with_promise s none = none
  with_promise s (some p) = some (record s { promise = p })

  -- `stopConnectWithRetry`
  unfoldable pub stop_connect_with_retry : BluetoothHandler B → Option (BluetoothHandler B)
  stop_connect_with_retry s = with_promise s (set_value s.promise)

  -- One round of `retryConnectLoop`: whether the loop ends.
  unfoldable pub retry_round : Bool → BluetoothHandler B → Bool × BluetoothHandler B
  retry_round is_dongle_mode s = let s' = connect_device is_dongle_mode s in end_round s' s'.promise

  -- rounds in a row, while the loop goes on
  unfoldable pub retry_rounds : Bool → ℕ → BluetoothHandler B → BluetoothHandler B
  retry_rounds is_dongle_mode zero s = s
  retry_rounds is_dongle_mode (suc n) s =
      retry_rounds is_dongle_mode n (retry_round is_dongle_mode s).1

  -- The state `s` is left by `stopConnectWithRetry` in a state from which the loop ends with its
  -- next round; behind that round a second stop changes nothing, and before it a second stop
  -- raises the exception.
  pub record Stops (is_dongle_mode : Bool) (s : BluetoothHandler B) : Type 0 where
    pub stopped : BluetoothHandler B
    pub first : stop_connect_with_retry s ≡ some stopped
    pub ends : (retry_round is_dongle_mode stopped).0 ≡ true
    pub again :
        stop_connect_with_retry (retry_round is_dongle_mode stopped).1
        ≡ some (retry_round is_dongle_mode stopped).1
    pub too_early : stop_connect_with_retry stopped ≡ none

  pending-Stops : (d : Bool) (s : BluetoothHandler B) → s.promise ≡ pending → Stops d s
  unfolding stop_connect_with_retry set_value retry_round connect_device
  pending-Stops d s h = record {
    stopped = record s { promise = ready };
    first = ap (λ p. with_promise s (set_value p)) h;
    ends = refl;
    again = refl;
    too_early = refl;
  }

  round_pending :
      (d : Bool) (s : BluetoothHandler B)
      → s.promise ≡ pending
      → (retry_round d s).1.promise ≡ pending
  unfolding retry_round connect_device
  round_pending d s h = ap (λ p. (end_round (connect_device d s) p).1.promise) h ∙ h

  rounds_pending :
      (d : Bool) (n : ℕ) (s : BluetoothHandler B)
      → s.promise ≡ pending
      → (retry_rounds d n s).promise ≡ pending
  unfolding retry_rounds
  rounds_pending d zero s h = h
  rounds_pending d (suc n) s h = rounds_pending d n (retry_round d s).1 (round_pending d s h)

  started_pending :
      (s : BluetoothHandler B) → s.adapter ≡ true → (connect_with_retry s).1.promise ≡ pending
  unfolding connect_with_retry
  started_pending s h = rw h

  -- The caller that started the thread stops it, after any number of rounds that it made: the
  -- loop ends with its next round, and behind that round another stop changes nothing; but
  -- another stop before the end of that round raises an exception that nothing catches.
  stop_connect_with_retry-Stops :
      (is_dongle_mode : Bool) (n : ℕ) (s : BluetoothHandler B)
      → s.adapter ≡ true
      → Stops is_dongle_mode (retry_rounds is_dongle_mode n (connect_with_retry s).1)
  stop_connect_with_retry-Stops d n s h =
      pending-Stops d _ (rounds_pending d n _ (started_pending s h))
