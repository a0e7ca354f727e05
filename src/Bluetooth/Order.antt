-- ===== src/Bluetooth/Order.antt =====
-- The order in which `listDevices` lists the devices is a strict weak order.
use wireless_android_auto_do.Prelude.{
  ℕ, ◌+◌, ◌≡◌, refl, arith, Bool, true, false, not, ◌&&◌, [], ◌∷◌, if◌then◌else◌, ltb, ◌==◌,
}
use wireless_android_auto_do.Text.{Bytes}
use wireless_android_auto_do.Control.{BluetoothDeviceInfo}
use wireless_android_auto_do.Bluetooth.{text_less, listed_before}

text_less_asymm : (s t : Bytes) → text_less s t ≡ true → text_less t s ≡ false
unfolding text_less
text_less_asymm [] [] h = refl
text_less_asymm [] (d ∷ t) h = refl
text_less_asymm (c ∷ s) [] h = cc
text_less_asymm (c ∷ s) (d ∷ t) h = ground (arith, text_less_asymm s t)

text_less_trans :
    (s t u : Bytes) → text_less t s ≡ false → text_less u t ≡ false → text_less u s ≡ false
unfolding text_less
text_less_trans [] [] [] h k = refl
text_less_trans [] [] (e ∷ u) h k = refl
text_less_trans [] (d ∷ t) [] h k = cc
text_less_trans [] (d ∷ t) (e ∷ u) h k = refl
text_less_trans (c ∷ s) [] u h k = cc
text_less_trans (c ∷ s) (d ∷ t) [] h k = cc
text_less_trans (c ∷ s) (d ∷ t) (e ∷ u) h k = ground (arith, text_less_trans s t u)

-- paired devices first, then connected ones
abbrev rank : Bool → Bool → ℕ
rank paired connected = (if paired then 0 else 2) + (if connected then 0 else 1)

-- The comparison by rank, and then by path.
abbrev by_rank : ℕ → ℕ → Bool → Bool
by_rank m n less = if ltb m n then true else if m == n then less else false

listed_before-by_rank :
    (a b : BluetoothDeviceInfo)
    → listed_before a b
      ≡ by_rank
          (rank a.paired a.connected)
          (rank b.paired b.connected)
          (text_less a.object_path b.object_path)
listed_before-by_rank a b =
    go a.paired a.connected b.paired b.connected (text_less a.object_path b.object_path)
  where
    go :
        (p c q d less : Bool)
        → (if p && not q
            then true
            else if q && not p
            then false
            else if c && not d
            then true
            else if d && not c
            then false
            else less)
          ≡ by_rank (rank p c) (rank q d) less
    go p c q d less = ground arith

-- A comparison with these laws sorts.
pub record StrictWeak {A : Type 0} (less : A → A → Bool) : Type 0 where
  pub asymm : (a b : A) → less a b ≡ true → less b a ≡ false
  pub trans : (a b c : A) → less b a ≡ false → less c b ≡ false → less c a ≡ false

pub listed_before-StrictWeak : StrictWeak listed_before
listed_before-StrictWeak = record {
  asymm = λ a b h. rw (listed_before-by_rank b a) (
      asymm (rank a.paired a.connected) (rank b.paired b.connected)
        (rw (listed_before-by_rank a b) at h) (text_less_asymm a.object_path b.object_path));
  trans = λ a b c h k. rw (listed_before-by_rank c a) (
      trans (rank a.paired a.connected) (rank b.paired b.connected) (rank c.paired c.connected)
        (rw (listed_before-by_rank b a) at h) (rw (listed_before-by_rank c b) at k)
        (text_less_trans a.object_path b.object_path c.object_path));
}
  where
    asymm :
        (m n : ℕ) {less less' : Bool}
        → by_rank m n less ≡ true
        → (less ≡ true → less' ≡ false)
        → by_rank n m less' ≡ false
    asymm m n h k = ground arith

    trans :
        (l m n : ℕ) {lm mn ln : Bool}
        → by_rank m l lm ≡ false
        → by_rank n m mn ≡ false
        → (lm ≡ false → mn ≡ false → ln ≡ false)
        → by_rank n l ln ≡ false
    trans l m n h k f = ground arith
