-- ===== src/Config/Suffix.antt =====
-- The suffix of the adapter's name.
use wireless_android_auto_do.Prelude.{
  ◌-◌, ◌≡◌, ◌∙◌, [], ◌++◌, arith, length, length-append, length-drop, take, take-append-drop,
}
use wireless_android_auto_do.Text.{Bytes, codes, before}
use wireless_android_auto_do.Config.{Environment, getenv, get_unique_suffix}

-- Where the environment sets no suffix, the suffix is the last six bytes of the serial number,
-- zeros standing in front of a shorter one.
pub get_unique_suffix-ends :
    (env : Environment) (file : Bytes)
    → getenv env (codes "AAWG_UNIQUE_NAME_SUFFIX") [] ≡ []
    → (length (get_unique_suffix env file) ≡ 6)
      × ((front : Bytes) × (front ++ get_unique_suffix env file
            ≡ codes "00000000" ++ before 0 (before b'\n' file)))
unfolding get_unique_suffix
get_unique_suffix-ends env file unset =
    let serial = before 0 (before b'\n' file) in
    let padded = codes "00000000" ++ serial in
    rw unset (
      length-drop (length padded - 6) padded
          ∙ omega (arith, length-append (codes "00000000") serial),
      (take (length padded - 6) padded, take-append-drop (length padded - 6) padded),
    )
