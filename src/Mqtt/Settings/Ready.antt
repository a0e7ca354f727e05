-- ===== src/Mqtt/Settings/Ready.antt =====
-- What holds when the bridge runs.
use wireless_android_auto_do.Prelude.{
  ℕ, zero, suc, ℤ, pos, negsuc, ◌≡◌, ◌≢◌, refl, ap, Bool, true, false, not, [], ◌++◌, some,
  if◌then◌else◌,
}
use wireless_android_auto_do.Text.{Bytes, codes, is_empty}
use wireless_android_auto_do.Config.{Environment}
use wireless_android_auto_do.Mqtt.Settings.{
  AppCtx, Start, exit_code, connected, app_ctx, positive_or_five, getenv_int, getenv_str, main,
  on_connect,
}

-- The sleep between two publications is at least a second, the bridge has a host, and it listens
-- and publishes on different topics.
pub record IsReady (host : Bytes) (ctx : AppCtx) : Type 0 where
  pub has_host : host ≢ []
  pub seconds : ℕ
  pub sleeps : ctx.status_interval_sec ≡ pos (suc seconds)
  pub listens : on_connect (pos 0) ctx ≡ some (ctx.topic_prefix ++ codes "/cmd")
  pub publishes : ctx.topic_status ≡ ctx.topic_prefix ++ codes "/status"

abbrev pub Ready : Start → Type 0
Ready (exit_code n) = Unit
Ready (connected host port client_id login ctx) = IsReady host ctx

positive_or_five_lem : (n : ℤ) → (k : ℕ) × (positive_or_five n ≡ pos (suc k))
positive_or_five_lem (pos zero) = (4, refl)
positive_or_five_lem (pos (suc n)) = (n, refl)
positive_or_five_lem (negsuc n) = (4, refl)

app_ctx-IsReady :
    (env : Environment) (host : Bytes) → is_empty host ≡ false → IsReady host (app_ctx env)
unfolding on_connect
app_ctx-IsReady env host h =
    let (k, e) =
      positive_or_five_lem (getenv_int env (codes "AAWG_MQTT_STATUS_INTERVAL_SEC") (pos 5)) in
    record {
      has_host = λ empty. cc (h, ap is_empty empty);
      seconds = k;
      sleeps = e;
      listens = refl;
      publishes = refl;
    }

chosen :
    (no_host new_ok connect_ok : Bool) (r : Start)
    → (no_host ≡ false → Ready r)
    → Ready (
        if no_host
        then exit_code 1
        else if not new_ok
        then exit_code 2
        else if not connect_ok
        then exit_code 3
        else r)
chosen true new_ok connect_ok r h = tt
chosen false false connect_ok r h = tt
chosen false true false r h = tt
chosen false true true r h = h refl

-- Whatever the environment says, where `main` reaches its loop it has a host that is not empty,
-- sleeps at least a second between two publications, has subscribed to the commands below its
-- prefix once the broker accepts it, and publishes to the status below the same prefix.
pub main-Ready : (env : Environment) (new_ok connect_ok : Bool) → Ready (main env new_ok connect_ok)
unfolding main
main-Ready env new_ok connect_ok =
    let host = getenv_str env (codes "AAWG_MQTT_HOST") [] in
    chosen (is_empty host) new_ok connect_ok _ (λ h. app_ctx-IsReady env host h)
