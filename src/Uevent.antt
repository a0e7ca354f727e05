-- ===== src/Uevent.antt =====
-- uevent.cpp: the kernel's events and the handlers that wait for them.
pub mod Parse
pub mod Handlers
mod Tests
use wireless_android_auto_do.Prelude.{
  ℕ, zero, suc, ◌+◌, Bool, true, false, not, List, [], ◌∷◌, ◌++◌, Option, none, some, ◌==◌,
  if◌then◌else◌, length, drop,
}
use wireless_android_auto_do.Text.{Bytes, equal, before, has_byte, is_empty}

-- `UeventEnv`; only `find` and `emplace` are used of the map.
abbrev pub UeventEnv : Type 0
UeventEnv = List (Bytes × Bytes)

-- `env.find(key)`
unfoldable pub lookup : Bytes → UeventEnv → Option Bytes
lookup k [] = none
lookup k ((j, v) ∷ env) = if equal j k then some v else lookup k env

abbrev put : Option Bytes → Bytes → Bytes → UeventEnv → UeventEnv
put none k v env = env ++ (k, v) ∷ []
put (some _) k v env = env

-- `envMap.emplace(name, value)`: a key that is there keeps its value.
unfoldable pub emplace : Bytes → Bytes → UeventEnv → UeventEnv
emplace k v env = put (lookup k env) k v env

-- One string of the message: `strchr(current, '=')`, with `split > current`.
unfoldable pub add_entry : Bytes → UeventEnv → UeventEnv
add_entry text env =
    let name = before b'=' text in
    if has_byte b'=' text
    then if is_empty name then env else emplace name (drop (suc (length name)) text) env
    else env

-- The loop over the strings of a message, over the bytes from `current` to `end`. Each round takes
-- a byte at least, so as many rounds as there are bytes are enough: with no fuel left, no bytes
-- are left.
unfoldable pub parse_loop : ℕ → UeventEnv → Bytes → UeventEnv
parse_loop zero env msg = env
parse_loop (suc fuel) env [] = env
parse_loop (suc fuel) env (c ∷ msg) =
    let text = before 0 (c ∷ msg) in
    parse_loop fuel (add_entry text env) (drop (suc (length text)) (c ∷ msg))

unfoldable pub parse : Bytes → UeventEnv
parse msg = parse_loop (length msg) [] msg

-- A handler works on a state of its client, and says whether it is to be removed.
abbrev pub Handler : Type 0 → Type 0
Handler S = UeventEnv → S → Bool × S

abbrev pub keep :
    {S : Type 0} → Handler S → Option (List (Handler S) × S) → Option (List (Handler S) × S)
keep h none = none
keep h (some (hs, s)) = some (h ∷ hs, s)

-- The loop that calls the handlers, from the handler at `it` on: the handlers that are left in the
-- list, and the state. `erase` returns the iterator behind the erased handler, and the `++it` of
-- the loop then passes that one over; `none` is an increment of `cend()`, which is undefined.
unfoldable pub call_handlers :
    {S : Type 0} → UeventEnv → List (Handler S) → S → Option (List (Handler S) × S)
call_handlers env [] s = some ([], s)
call_handlers env (h ∷ []) s = let (done, s') = h env s in if done then none else some (h ∷ [], s')
call_handlers env (h ∷ next ∷ hs) s =
    let (done, s') = h env s in
    let erased = keep next (call_handlers env hs s') in
    let kept = keep h (call_handlers env (next ∷ hs) s') in if done then erased else kept

-- `addHandler`
unfoldable pub add_handler : {S : Type 0} → Handler S → List (Handler S) → List (Handler S)
add_handler h hs = hs ++ h ∷ []

-- One round of `monitorLoop`: what `read` returned, a message or nothing to act on.
unfoldable pub monitor_round :
    {S : Type 0} → Option Bytes → List (Handler S) → S → Option (List (Handler S) × S)
monitor_round none hs s = some (hs, s)
monitor_round (some msg) hs s =
    if is_empty msg then some (hs, s) else call_handlers (parse msg) hs s

-- The results of `socket`, `bind` and `setsockopt`.
pub record Netlink : Type 0 where
  pub socket_ok : Bool
  pub bind_ok : Bool
  pub passcred_ok : Bool

-- `start`: whether the thread of `monitorLoop` is started, and the number of open descriptors
unfoldable pub start : Netlink → ℕ → Bool × ℕ
start c n =
    if not c.socket_ok
    then (false, n)
    else if not c.bind_ok
    then (false, suc n)
    else if not c.passcred_ok
    then (false, suc n)
    else (true, suc n)
