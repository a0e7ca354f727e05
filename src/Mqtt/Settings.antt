-- ===== src/Mqtt/Settings.antt =====
-- The settings of the bridge, and the start of `main` in mqttBridge.cpp. The environment and the
-- results of the calls of the MQTT library are parameters.
pub mod Ready
use wireless_android_auto_do.Prelude.{
  ℕ, zero, suc, ℤ, pos, negsuc, Bool, true, false, not, List, [], ◌∷◌, ◌++◌, Option, none, some,
  if◌then◌else◌, ◌==◌,
}
use wireless_android_auto_do.Text.{Bytes, codes, is_empty}
use wireless_android_auto_do.Config.{Environment, stoi}

-- `v && *v`
abbrev pub non_empty : Option Bytes → Option Bytes
non_empty none = none
non_empty (some v) = if is_empty v then none else some v

abbrev pub text_or : Bytes → Option Bytes → Bytes
text_or def none = def
text_or def (some v) = v

-- `getenvStr`
unfoldable pub getenv_str : Environment → Bytes → Bytes → Bytes
getenv_str env name def = text_or def (non_empty (env name))

abbrev pub int_or : ℤ → Option ℤ → ℤ
int_or def none = def
int_or def (some n) = n

abbrev pub parse_int : Option Bytes → Option ℤ
parse_int none = none
parse_int (some v) = stoi v

-- `getenvInt`
unfoldable pub getenv_int : Environment → Bytes → ℤ → ℤ
getenv_int env name def = int_or def (parse_int (non_empty (env name)))

-- `AppCtx`
pub record AppCtx : Type 0 where
  pub topic_prefix : Bytes
  pub topic_cmd : Bytes
  pub topic_status : Bytes
  pub status_interval_sec : ℤ

-- `interval > 0 ? interval : 5`
abbrev pub positive_or_five : ℤ → ℤ
positive_or_five (pos zero) = pos 5
positive_or_five (pos (suc n)) = pos (suc n)
positive_or_five (negsuc n) = pos 5

-- What `main` comes to: a return, or the loop that publishes, with what it gave the library.
pub data Start : Type 0 where
  exit_code : ℕ → Start
  connected :
      (host : Bytes) (port : ℤ) (client_id : Bytes) (login : Option (Bytes × Option Bytes))
      (ctx : AppCtx)
      → Start

abbrev pub app_ctx : Environment → AppCtx
app_ctx env =
    let prefix = getenv_str env (codes "AAWG_MQTT_TOPIC_PREFIX") (codes "aawgd") in
    record {
      topic_prefix = prefix;
      topic_cmd = prefix ++ codes "/cmd";
      topic_status = prefix ++ codes "/status";
      status_interval_sec =
          positive_or_five (getenv_int env (codes "AAWG_MQTT_STATUS_INTERVAL_SEC") (pos 5));
    }

-- `mosquitto_username_pw_set`, where it is called
abbrev pub login_of : Bytes → Bytes → Option (Bytes × Option Bytes)
login_of username password =
    if is_empty username
    then none
    else some (username, (if is_empty password then none else some password))

-- `main`, over the results of `mosquitto_new` and `mosquitto_connect`
unfoldable pub main : Environment → Bool → Bool → Start
main env new_ok connect_ok =
    let host = getenv_str env (codes "AAWG_MQTT_HOST") [] in
    let username = getenv_str env (codes "AAWG_MQTT_USERNAME") [] in
    let password = getenv_str env (codes "AAWG_MQTT_PASSWORD") [] in
    let client_id = getenv_str env (codes "AAWG_MQTT_CLIENT_ID") (codes "aawgd") in
    let port = getenv_int env (codes "AAWG_MQTT_PORT") (pos 1883) in
    if is_empty host
    then exit_code 1
    else if not new_ok
    then exit_code 2
    else if not connect_ok
    then exit_code 3
    else connected host port client_id (login_of username password) (app_ctx env)

-- `onConnect`: the topic that it subscribes to
unfoldable pub on_connect : ℤ → AppCtx → Option Bytes
on_connect (pos zero) ctx = some ctx.topic_cmd
on_connect (pos (suc n)) ctx = none
on_connect (negsuc n) ctx = none
