-- ===== src/Control/Json.antt =====
-- `jsonEscape` against a reader of JSON strings, and the line structure of the answers.
use wireless_android_auto_do.Prelude.{
  ℕ, ◌≡◌, refl, Bool, true, false, List, [], ◌∷◌, ◌++◌, Option, none, some, arith, ◌==◌,
  if◌then◌else◌, append_assoc, flatten, Bool-cases, inl, inr, drop,
}
use wireless_android_auto_do.Text.{Bytes, codes, has_byte, equal, starts_with}
use wireless_android_auto_do.Text.Laws.{has_byte_join}
use wireless_android_auto_do.Control.{
  BluetoothDeviceInfo, escape_byte, json_escape, System, slot_of, print_bool, device_pieces,
  print_device, print_more, print_devices, system_pieces, print_system, list_response,
  get_cmdline_token_value, Handler, handle_command,
}

-- What the byte behind a backslash stands for.
abbrev unescape : ℕ → Option ℕ
unescape c =
    if c == b'\\'
    then some b'\\'
    else if c == b'"'
    then some b'"'
    else if c == b'n'
    then some b'\n'
    else if c == b'r'
    then some b'\r'
    else if c == b't'
    then some b'\t'
    else none

abbrev push : Option ℕ → Option (Bytes × Bytes) → Option (Bytes × Bytes)
push (some c) (some (cs, rest)) = some (c ∷ cs, rest)
push _ _ = none

-- A reader of a JSON string behind its opening quote: the text up to the closing quote, and what
-- follows that. The flag says that a backslash was read.
unfoldable pub read_string : Bool → Bytes → Option (Bytes × Bytes)
read_string escaped [] = none
read_string true (c ∷ s) = push (unescape c) (read_string false s)
read_string false (c ∷ s) =
    let plain = push (some c) (read_string false s) in
    let behind = read_string true s in
    if c == b'"' then some ([], s) else if c == b'\\' then behind else plain

-- What `jsonEscape` makes of a text is read back as that text, and the reader stops at the
-- closing quote: no byte of the text ends the string early.
pub read_string-json_escape :
    (s rest : Bytes) → read_string false (json_escape s ++ b'"' ∷ rest) ≡ some (s, rest)
unfolding read_string json_escape escape_byte
read_string-json_escape [] rest = refl
read_string-json_escape (c ∷ s) rest = ground (arith, read_string-json_escape s rest)

has_newline-json_escape : (s : Bytes) → has_byte b'\n' (json_escape s) ≡ false
unfolding json_escape escape_byte has_byte
has_newline-json_escape [] = refl
has_newline-json_escape (c ∷ s) = ground (arith, has_newline-json_escape s)

-- No piece holds a newline.
abbrev AllClean : List Bytes → Type 0
AllClean [] = Unit
AllClean (p ∷ ps) = (has_byte b'\n' p ≡ false) × AllClean ps

has_newline-flatten : (ps : List Bytes) → AllClean ps → has_byte b'\n' (flatten ps) ≡ false
has_newline-flatten [] h = unfold has_byte in refl
has_newline-flatten (p ∷ ps) h = has_byte_join b'\n' p (flatten ps) h.0 (has_newline-flatten ps h.1)

has_newline-print_bool : (b : Bool) → has_byte b'\n' (print_bool b) ≡ false
unfolding has_byte
has_newline-print_bool true = refl
has_newline-print_bool false = refl

has_newline-print_device : (d : BluetoothDeviceInfo) → has_byte b'\n' (print_device d) ≡ false
unfolding print_device has_byte
has_newline-print_device d = has_newline-flatten (device_pieces d) (
    (
      refl,
      (
        has_newline-json_escape d.object_path,
        (
          refl,
          (
            has_newline-json_escape d.address,
            (
              refl,
              (
                has_newline-json_escape d.name,
                (
                  refl,
                  (
                    has_newline-print_bool d.paired,
                    (
                      refl,
                      (
                        has_newline-print_bool d.trusted,
                        (refl, (has_newline-print_bool d.connected, (refl, tt))),
                      ),
                    ),
                  ),
                ),
              ),
            ),
          ),
        ),
      ),
    ))

has_newline-print_more : (ds : List BluetoothDeviceInfo) → has_byte b'\n' (print_more ds) ≡ false
unfolding print_more
has_newline-print_more [] = unfold has_byte in refl
has_newline-print_more (d ∷ ds) =
    has_byte_join b'\n' (b',' ∷ []) (print_device d ++ print_more ds) (unfold has_byte in refl) (
      has_byte_join b'\n' (print_device d) (print_more ds) (has_newline-print_device d)
        (has_newline-print_more ds))

has_newline-print_devices :
    (ds : List BluetoothDeviceInfo) → has_byte b'\n' (print_devices ds) ≡ false
unfolding print_devices
has_newline-print_devices [] = unfold has_byte in refl
has_newline-print_devices (d ∷ ds) =
    has_byte_join b'\n' (print_device d) (print_more ds) (has_newline-print_device d)
      (has_newline-print_more ds)

has_newline-print_system :
    (sys : System)
    → has_byte b'\n' sys.uptime_sec ≡ false
    → has_byte b'\n' (print_system sys) ≡ false
unfolding print_system has_byte
has_newline-print_system sys h =
    let escaped = has_newline-json_escape in
    let root_dev = get_cmdline_token_value sys.cmdline (codes "root") in
    has_newline-flatten (system_pieces sys) (
      (
        refl,
        (
          h,
          (
            refl,
            (
              escaped root_dev,
              (
                refl,
                (
                  escaped (slot_of root_dev),
                  (
                    refl,
                    (
                      escaped sys.kernel_release,
                      (
                        refl,
                        (
                          escaped sys.build.version,
                          (
                            refl,
                            (
                              escaped sys.build.git_sha,
                              (refl, (escaped sys.build.build_time_utc, (refl, tt))),
                            ),
                          ),
                        ),
                      ),
                    ),
                  ),
                ),
              ),
            ),
          ),
        ),
      ))

-- One line with its newline, and no other.
abbrev pub IsLine : Bytes → Type 0
IsLine r = (line : Bytes) × (r ≡ line ++ b'\n' ∷ []) × (has_byte b'\n' line ≡ false)

list_response-IsLine :
    (sys : System) (ds : List BluetoothDeviceInfo)
    → has_byte b'\n' sys.uptime_sec ≡ false
    → IsLine (list_response sys ds)
unfolding list_response has_byte
list_response-IsLine sys ds h = (
  print_system sys ++ (print_devices ds ++ codes "]}"),
  simp append_assoc,
  has_byte_join b'\n' (print_system sys) _ (has_newline-print_system sys h)
      (has_byte_join b'\n' (print_devices ds) _ (has_newline-print_devices ds) refl),
)

switch_response-IsLine : (ok : Bool) → IsLine (codes "{\"ok\":" ++ (print_bool ok ++ codes "}\n"))
unfolding has_byte
switch_response-IsLine true = (codes "{\"ok\":true}", refl, refl)
switch_response-IsLine false = (codes "{\"ok\":false}", refl, refl)

module _ {S : Type 0} (handler : Handler S) (sys : System) where
  -- Every answer of the control socket is one line with a newline at its end and none inside,
  -- whatever command came and whatever the names of the devices are, where the printed uptime
  -- holds no newline.
  pub handle_command-IsLine :
      (line : Bytes) (s : S)
      → has_byte b'\n' sys.uptime_sec ≡ false
      → IsLine (handle_command handler sys line s).0
  unfolding handle_command has_byte
  handle_command-IsLine line s h = elim (Bool-cases (equal line (codes "LIST"))) [
    | inl listed ↦ rw listed (list_response-IsLine sys _ h)
    | inr n ↦ elim (Bool-cases (equal line (codes "DISCONNECT"))) [
      | inl e ↦ rw (n, e) (codes "{\"ok\":true}", refl, refl)
      | inr m ↦ elim (Bool-cases (starts_with (codes "SWITCH ") line)) [
        | inl e ↦ rw (n, m, e) (switch_response-IsLine (handler.switch_to_device (drop 7 line) s).0)
        | inr e ↦ rw (n, m, e) (codes "{\"ok\":false,\"error\":\"unknown command\"}", refl, refl)
      ]
    ]
  ]
