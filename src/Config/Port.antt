-- ===== src/Config/Port.antt =====
-- The port of the proxy: the setting of common.cpp, the server that `main` of aawgd.cpp starts on
-- it, and the number that `launch` of bluetoothProfiles.cpp tells the phone.
use wireless_android_auto_do.Prelude.{
  ℕ, ◌+◌, ◌*◌, ◌%◌, ◌≤◌, ◌<◌, ◌==◌, ◌≡◌, ◌↔◌, ◌⊎◌, ◌∙◌, ap, sym, refl, none, append_assoc,
  append-nil, pos, true, List, [], ◌∷◌, ◌++◌, Option, some, ltb, if◌then◌else◌, arith,
}
use wireless_android_auto_do.Text.{Bytes, codes, trim_front}
use wireless_android_auto_do.Proxy.Client.{bound_port}
use wireless_android_auto_do.Config.{
  Environment, Ifaddr, is_digit, digits, stoi, getenv_int, get_wifi_info,
}

-- `startServer(Config::instance()->getWifiInfo().port)`
unfoldable pub server_port : ℕ → Environment → Option (List Ifaddr) → Bytes → ℕ
server_port free env ifas address_file = bound_port free (get_wifi_info env ifas address_file).port

-- `s` is a decimal numeral of `n`, leading zeros allowed.
pub data Decimal : ℕ → Bytes → Type 0 where
  one : (d : ℕ) → d < 10 → Decimal d ((48 + d) ∷ [])
  more :
      {n : ℕ} {s : Bytes}
      → Decimal n s
      → (d : ℕ) → d < 10
      → Decimal (n * 10 + d) (s ++ (48 + d) ∷ [])

digit : (d : ℕ) → d < 10 → is_digit (48 + d) ≡ true
digit d h = ground arith

-- Behind a numeral of `n`, the loop has read `n`.
digits-append : {n : ℕ} {s : Bytes} → Decimal n s → (t : Bytes) → digits 0 (s ++ t) ≡ digits n t
unfolding digits
digits-append (one d h) t = rw (digit d h) (ap (λ k. digits k t) (omega arith))
digits-append (more {n} {s} x d h) t =
    ap (digits 0) (append_assoc s ((48 + d) ∷ []) t)
    ∙ digits-append x ((48 + d) ∷ t)
    ∙ rw (digit d h) (ap (λ k. digits k t) (omega arith))

begins :
    {n : ℕ} {s : Bytes} → Decimal n s → (c : ℕ) × (u : Bytes) × (s ≡ c ∷ u) × (is_digit c ≡ true)
begins (one d h) = (48 + d, [], refl, digit d h)
begins (more {n} {s} x d h) =
    let (c, u, e, g) = begins x in (c, u ++ (48 + d) ∷ [], ap (λ v. v ++ (48 + d) ∷ []) e, g)

stoi_digit :
    (c : ℕ) (u : Bytes)
    → is_digit c ≡ true
    → stoi (c ∷ u) ≡ (let n = digits 0 (c ∷ u) in if ltb n 2147483648 then some (pos n) else none)
unfolding stoi trim_front
stoi_digit c u h = ground arith

stoi-Decimal :
    {n : ℕ} {s : Bytes} → Decimal n s → stoi s ≡ (if ltb n 2147483648 then some (pos n) else none)
stoi-Decimal {n} {s} x =
    let (c, u, e, g) = begins x in
    let read : digits 0 s ≡ n =
      ap (digits 0) (sym (append-nil s)) ∙ digits-append x [] ∙ (unfold digits in refl) in
    ap stoi e
    ∙ stoi_digit c u g
    ∙ ap (λ k. if ltb k 2147483648 then some (pos k) else none) (ap (digits 0) (sym e) ∙ read)

-- The numbers of `AAWG_PROXY_PORT` for which the phone is told the port of the server.
abbrev pub Agrees : ℕ → Type 0
Agrees n = ((0 < n) × (n < 65536)) ⊎ (2147483648 ≤ n)

port_lem :
    {n : ℕ} {s : Bytes}
    → Decimal n s
    → (env : Environment) → env (codes "AAWG_PROXY_PORT") ≡ some s
    → (ifas : Option (List Ifaddr)) (file : Bytes)
    → (get_wifi_info env ifas file).port ≡ (if ltb n 2147483648 then pos n else pos 5288)
unfolding get_wifi_info getenv_int
port_lem {n} x env h ifas file = rw (h, stoi-Decimal x) (ground arith)

-- the port of the server, for a numeral of `n`
abbrev pub port_of : ℕ → ℕ → ℕ
port_of free n = if ltb n 2147483648 then if n % 65536 == 0 then free else n % 65536 else 5288

bound :
    (free n : ℕ) → bound_port free (if ltb n 2147483648 then pos n else pos 5288) ≡ port_of free n
unfolding bound_port
bound free n = ground arith

unwrap : (m n : ℕ) → pos m ≡ pos n → m ≡ n
unwrap m n e = cc

small_port :
    (free n : ℕ)
    → 0 < free
    → free < 65536
    → n ≡ (if n % 65536 == 0 then free else n % 65536)
    → (0 < n) × (n < 65536)
small_port free n p q e = ground arith

same_port :
    (free n : ℕ)
    → 0 < free
    → free < 65536
    → ((if ltb n 2147483648 then pos n else pos 5288) ≡ pos (port_of free n)) ↔ Agrees n
same_port free n p q = (
  λ e. ground (arith, unwrap n (if n % 65536 == 0 then free else n % 65536), small_port free n),
  λ e. ground arith,
)

-- Where `AAWG_PROXY_PORT` is a decimal numeral of `n`, the server listens on the port `n % 65536`,
-- or on the free port that `bind` takes if that is 0, or on 5288 if `n` does not fit in an `int`.
-- The phone is told the port on which the server listens just if `n` is a port number other than
-- 0 or does not fit in an `int`; for the other numbers, it is told `n`. The interfaces and the
-- address file may change between the two.
pub server_port-told :
    {n : ℕ} {s : Bytes} (env : Environment) (free : ℕ)
    → 0 < free
    → free < 65536
    → Decimal n s
    → env (codes "AAWG_PROXY_PORT") ≡ some s
    → (ifas later_ifas : Option (List Ifaddr)) (file later_file : Bytes)
    → (server_port free env ifas file ≡ port_of free n)
      × ((get_wifi_info env later_ifas later_file).port ≡ pos (server_port free env ifas file)
          ↔ Agrees n)
      × ((get_wifi_info env later_ifas later_file).port
          ≡ (if ltb n 2147483648 then pos n else pos 5288))
unfolding server_port
server_port-told {n} env free p q x h ifas later_ifas file later_file =
    let told = port_lem x env h later_ifas later_file in
    let served = ap (bound_port free) (port_lem x env h ifas file) ∙ bound free n in
    (served, rw (told, served) (same_port free n p q), told)
