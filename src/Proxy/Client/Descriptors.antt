-- ===== src/Proxy/Client/Descriptors.antt =====
-- The descriptors that stay open when `handleClient` has returned.
use wireless_android_auto_do.Prelude.{
  ◌≡◌, refl, sym, ap, arith, Bool, true, ◌&&◌, List, [], ◌∷◌, ◌++◌, if◌then◌else◌, append_assoc,
}
use wireless_android_auto_do.Proxy.Client.{
  Fd, server, client, usb, Calls, close, start_server, handle_client, serve,
}

-- Every call of `startServer` succeeds.
abbrev pub Listens : Calls → Type 0
Listens c = (c.socket_ok ≡ true) × (c.reuse_ok ≡ true) × (c.bind_ok ≡ true) × (c.listen_ok ≡ true)

abbrev pub AllListen : List Calls → Type 0
AllListen [] = Unit
AllListen (c ∷ cs) = Listens c × AllListen cs

-- What a connection leaves open: nothing if the phone was not accepted or all went well, the
-- connection to the phone if it was accepted but the car's side was not there, and the accessory
-- as well if only the time limit of the socket could not be set.
abbrev pub left_open : Bool → Calls → List Fd
left_open is_usb_first c =
    let ready = (if is_usb_first then true else c.accessory_came) && c.open_ok in
    if c.accept_ok
    then (if ready then (if c.timeout_ok then [] else usb ∷ client ∷ []) else client ∷ [])
    else []

abbrev pub all_left_open : Bool → List Calls → List Fd
all_left_open is_usb_first [] = []
all_left_open is_usb_first (c ∷ cs) = all_left_open is_usb_first cs ++ left_open is_usb_first c

handle_client-left_open :
    (u : Bool) (c : Calls) (fds : List Fd)
    → (handle_client u c (server ∷ fds)).1 ≡ left_open u c ++ fds
unfolding handle_client close
handle_client-left_open u c fds = ground arith

start_server-Listens :
    (c : Calls) (fds : List Fd) → Listens c → start_server c fds ≡ (true, server ∷ fds)
unfolding start_server
start_server-Listens c fds (s, r, b, l) = rw (s, r, b, l)

-- Where every server starts, serving any number of connections adds to the open descriptors,
-- connection by connection: nothing where no phone was accepted or the streams were forwarded,
-- the connection of a phone for which the car's side did not come or could not be opened, and
-- that and the accessory where the time limit of the socket could not be set.
pub serve-left_open :
    (is_usb_first : Bool) (cs : List Calls) (fds : List Fd)
    → AllListen cs
    → serve is_usb_first cs fds ≡ (true, all_left_open is_usb_first cs ++ fds)
unfolding serve
serve-left_open u [] fds h = refl
serve-left_open u (c ∷ cs) fds h =
    rw
      (
        start_server-Listens c fds h.0,
        handle_client-left_open u c fds,
        serve-left_open u cs (left_open u c ++ fds) h.1,
      )
      (ap (λ x. (true, x)) (sym (append_assoc (all_left_open u cs) (left_open u c) fds)))
