-- ===== src/Proxy/Client.antt =====
-- `AAWProxy::startServer` and `AAWProxy::handleClient`, with the file descriptors that they open
-- and close, and the loop of aawgd.cpp that calls them. What the calls return is a parameter. The
-- forwarding between the opening and the closing is in Proxy/Forward, and the stop of the
-- Bluetooth retries in Bluetooth/Retry.
pub mod Descriptors
use wireless_android_auto_do.Prelude.{
  ◌==◌, ℕ, ◌%◌, ◌-◌, ℤ, pos, negsuc, Bool, true, false, not, ◌&&◌, List, [], ◌∷◌, if◌then◌else◌,
}

pub data Fd : Type 0 where
  server client usb : Fd

-- The results of the calls that one connection makes: `socket`, `setsockopt`, `bind` and `listen`
-- of `startServer`; `accept`, `enableDefaultAndWaitForAccessory`, `open` and `setsockopt` of
-- `handleClient`. The result of `sigaction` is only logged.
pub record Calls : Type 0 where
  pub socket_ok : Bool
  pub reuse_ok : Bool
  pub bind_ok : Bool
  pub listen_ok : Bool
  pub accept_ok : Bool
  pub accessory_came : Bool
  pub open_ok : Bool
  pub timeout_ok : Bool

abbrev pub same_fd : Fd → Fd → Bool
same_fd server server = true
same_fd client client = true
same_fd usb usb = true
same_fd _ _ = false

-- `close`, on the open descriptors, the latest first
unfoldable pub close : Fd → List Fd → List Fd
close f [] = []
close f (g ∷ gs) = let rest = close f gs in if same_fd f g then gs else g ∷ rest

-- `htons(port)`, as a number: the conversion of an `int32_t` to 16 bits
abbrev pub sin_port : ℤ → ℕ
sin_port (pos n) = n % 65536
sin_port (negsuc n) = 65535 - n % 65536

-- The port on which `startServer` listens. For `sin_port` 0, `bind` takes a free port, which is a
-- parameter.
unfoldable pub bound_port : ℕ → ℤ → ℕ
bound_port free port = let n = sin_port port in if n == 0 then free else n

-- `startServer`: whether the thread is started, and the open descriptors
unfoldable pub start_server : Calls → List Fd → Bool × List Fd
start_server c fds =
    if not c.socket_ok
    then (false, fds)
    else if not c.reuse_ok
    then (false, server ∷ fds)
    else if not c.bind_ok
    then (false, server ∷ fds)
    else if not c.listen_ok
    then (false, server ∷ fds)
    else (true, server ∷ fds)

-- `handleClient`: whether it came to forward, and the open descriptors when it returns
unfoldable pub handle_client : Bool → Calls → List Fd → Bool × List Fd
handle_client is_usb_first c fds =
    let rest = close server fds in
    if not c.accept_ok
    then (false, rest)
    else if not is_usb_first && not c.accessory_came
    then (false, client ∷ rest)
    else if not c.open_ok
    then (false, client ∷ rest)
    else if not c.timeout_ok
    then (false, usb ∷ client ∷ rest)
    else (true, close client (close usb (usb ∷ client ∷ rest)))

-- The loop of `main` over the connections; a server that does not start ends the daemon.
unfoldable pub serve : Bool → List Calls → List Fd → Bool × List Fd
serve is_usb_first [] fds = (true, fds)
serve is_usb_first (c ∷ cs) fds =
    let (ok, fds') = start_server c fds in
    let rest = serve is_usb_first cs (handle_client is_usb_first c fds').1 in
    if ok then rest else (false, fds')
