-- ===== src/Config/Tests.antt =====
-- The theorems about common.cpp at concrete inputs.
use wireless_android_auto_do.Prelude.{
  negsuc, pos, ◌≡◌, ◌↔◌, ◌<◌, arith, [], refl, none, some, if◌then◌else◌,
}
use wireless_android_auto_do.Text.{codes, before, trim_front, equal}
use wireless_android_auto_do.Config.{
  Environment, dongle_mode, stoi, digits, getenv, getenv_int, get_unique_suffix,
  get_connection_strategy, get_wifi_info,
}
use wireless_android_auto_do.Config.Port.{Decimal, one, more, Agrees, server_port, server_port-told}

abbrev unset : Environment
unset name = none

abbrev zero_set : Environment
zero_set name = some (codes "0")

stoi_examples :
    (stoi (codes " -12x") ≡ some (negsuc 11))
    × (stoi (codes "2147483648") ≡ none)
    × (stoi (codes "+") ≡ none)
unfolding stoi digits trim_front
stoi_examples = (refl, refl, refl)

suffix_short : get_unique_suffix unset (codes "ab1\n") ≡ codes "000ab1"
unfolding get_unique_suffix getenv before
suffix_short = refl

strategy_kept :
    get_connection_strategy unset (get_connection_strategy zero_set none).1
    ≡ (dongle_mode, some dongle_mode)
unfolding get_connection_strategy getenv_int stoi digits trim_front
strategy_kept = refl

abbrev far_port : Environment
far_port name = if equal name (codes "AAWG_PROXY_PORT") then some (codes "70000") else none

seventy_thousand : Decimal 70000 (codes "70000")
seventy_thousand =
    let seven : Decimal 7 (codes "7") = one 7 (omega arith) in
    let z : 0 < 10 = omega arith in more (more (more (more seven 0 z) 0 z) 0 z) 0 z

server_port-told_example :
    (server_port 40000 far_port none [] ≡ 4464)
    × ((get_wifi_info far_port none []).port ≡ pos (server_port 40000 far_port none [])
        ↔ Agrees 70000)
    × ((get_wifi_info far_port none []).port ≡ pos 70000)
unfolding equal
server_port-told_example =
    server_port-told far_port 40000 (omega arith) (omega arith) seventy_thousand refl none none []
      []
