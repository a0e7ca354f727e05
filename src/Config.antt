-- ===== src/Config.antt =====
-- common.cpp: the settings of the daemon. The environment, the network interfaces and the files
-- that it reads are parameters.
pub mod Suffix
pub mod Port
mod Tests
use wireless_android_auto_do.Prelude.{
  ℕ, zero, suc, ◌+◌, ◌-◌, ◌*◌, ℤ, pos, negsuc, Bool, true, false, not, ◌&&◌, List, [], ◌∷◌, ◌++◌,
  Option, none, some, ltb, leb, ◌==◌, if◌then◌else◌, length, drop,
}
use wireless_android_auto_do.Text.{Bytes, codes, equal, is_empty, before, trim_front}
use wireless_android_auto_do.Control.{is_space}

-- The values of the two enums of WifiInfoResponse.proto that the daemon sends.
pub data SecurityMode : Type 0 where
  unknown_security_mode open_network wep_64 wep_128 wpa_personal wpa2_personal : SecurityMode
  wpa_wpa2_personal wpa_enterprise wpa2_enterprise wpa_wpa2_enterprise : SecurityMode

pub data AccessPointType : Type 0 where
  static_point dynamic_point : AccessPointType

pub record WifiInfo : Type 0 where
  pub ssid : Bytes
  pub key : Bytes
  pub bssid : Bytes
  pub security_mode : SecurityMode
  pub access_point_type : AccessPointType
  pub ip_address : Bytes
  pub port : ℤ

pub data ConnectionStrategy : Type 0 where
  dongle_mode phone_first usb_first : ConnectionStrategy

-- `std::getenv`
abbrev pub Environment : Type 0
Environment = Bytes → Option Bytes

abbrev pub is_digit : ℕ → Bool
is_digit c = leb 48 c && leb c 57

-- the number at the front of a text, behind the digits read before
unfoldable pub digits : ℕ → Bytes → ℕ
digits n [] = n
digits n (c ∷ s) = let more = digits (n * 10 + (c - 48)) s in if is_digit c then more else n

-- The value with its sign, if it is an `int`.
abbrev pub as_int : Bool → ℕ → Option ℤ
as_int true zero = some (pos 0)
as_int true (suc n) = if ltb n 2147483648 then some (negsuc n) else none
as_int false n = if ltb n 2147483648 then some (pos n) else none

abbrev pub unsigned : Bool → Bytes → Option ℤ
unsigned negative [] = none
unsigned negative (c ∷ s) = if is_digit c then as_int negative (digits 0 (c ∷ s)) else none

abbrev pub signed : Bytes → Option ℤ
signed [] = none
signed (c ∷ s) =
    if c == b'-'
    then unsigned true s
    else if c == b'+'
    then unsigned false s
    else unsigned false (c ∷ s)

-- `std::stoi`, where `none` is an exception: spaces, a sign, decimal digits, and anything behind
unfoldable pub stoi : Bytes → Option ℤ
stoi s = signed (trim_front is_space s)

abbrev or_default : {A : Type 0} → A → Option A → A
or_default a none = a
or_default a (some b) = b

abbrev read_int : Option Bytes → Option ℤ
read_int none = none
read_int (some v) = stoi v

-- `Config::getenv` for a number
unfoldable pub getenv_int : Environment → Bytes → ℤ → ℤ
unfolding stoi
getenv_int env name default = or_default default (read_int (env name))

-- `Config::getenv` for a text
unfoldable pub getenv : Environment → Bytes → Bytes → Bytes
getenv env name default = or_default default (env name)

-- One entry of `getifaddrs`; `text` is what `inet_ntop` makes of the address.
pub record Ifaddr : Type 0 where
  pub has_address : Bool
  pub is_inet : Bool
  pub name : Bytes
  pub text : Option Bytes

abbrev first_text : Option Bytes → Bytes → Bytes
first_text none later = later
first_text (some ip) later = ip

-- the loop of `getInterfaceIpv4Address`
unfoldable pub find_ipv4 : Bytes → List Ifaddr → Bytes
find_ipv4 interface [] = []
find_ipv4 interface (ifa ∷ ifas) =
    let later = find_ipv4 interface ifas in
    if not ifa.has_address
    then later
    else if not ifa.is_inet
    then later
    else if not (equal interface ifa.name)
    then later
    else first_text ifa.text later

-- `getInterfaceIpv4Address`; `none` is a failure of `getifaddrs`.
unfoldable pub get_interface_ipv4_address : Bytes → Option (List Ifaddr) → Bytes
get_interface_ipv4_address interface none = []
get_interface_ipv4_address interface (some ifas) = find_ipv4 interface ifas

-- `getMacAddress`, on the contents of the file
unfoldable pub get_mac_address : Bytes → Bytes
get_mac_address file = before b'\n' file

-- `getUniqueSuffix`, on the contents of the serial-number file
unfoldable pub get_unique_suffix : Environment → Bytes → Bytes
get_unique_suffix env file =
    let unique_suffix = getenv env (codes "AAWG_UNIQUE_NAME_SUFFIX") [] in
    let serial_number = codes "00000000" ++ before 0 (before b'\n' file) in
    if not (is_empty unique_suffix)
    then unique_suffix
    else drop (length serial_number - 6) serial_number

-- `getWifiInfo`, with the interfaces and the address file of wlan0
unfoldable pub get_wifi_info : Environment → Option (List Ifaddr) → Bytes → WifiInfo
get_wifi_info env ifas address_file =
    let detected_ip = get_interface_ipv4_address (codes "wlan0") ifas in
    let default_proxy_ip = if not (is_empty detected_ip) then detected_ip else codes "10.0.0.1" in
    record {
      ssid = getenv env (codes "AAWG_WIFI_SSID") (codes "AAWirelessDongle");
      key = getenv env (codes "AAWG_WIFI_PASSWORD") (codes "ConnectAAWirelessDongle");
      bssid = getenv env (codes "AAWG_WIFI_BSSID") (get_mac_address address_file);
      security_mode = wpa2_personal;
      access_point_type = dynamic_point;
      ip_address = getenv env (codes "AAWG_PROXY_IP_ADDRESS") default_proxy_ip;
      port = getenv_int env (codes "AAWG_PROXY_PORT") (pos 5288);
    }

-- the `switch` of `getConnectionStrategy`
abbrev pub strategy_of : ℤ → ConnectionStrategy
strategy_of (pos n) =
    if n == 0
    then dongle_mode
    else if n == 1
    then phone_first
    else if n == 2
    then usb_first
    else phone_first
strategy_of (negsuc n) = phone_first

-- `getConnectionStrategy`: its result, and the member `connectionStrategy` behind the call
unfoldable pub get_connection_strategy :
    Environment → Option ConnectionStrategy → ConnectionStrategy × Option ConnectionStrategy
get_connection_strategy env (some c) = (c, some c)
get_connection_strategy env none =
    let c = strategy_of (getenv_int env (codes "AAWG_CONNECTION_STRATEGY") (pos 1)) in (c, some c)

-- `getBluetoothName`
unfoldable pub get_bluetooth_name : Environment → Bytes
get_bluetooth_name env = getenv env (codes "AAWG_BLUETOOTH_NAME") []
