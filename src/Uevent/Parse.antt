-- ===== src/Uevent/Parse.antt =====
-- The environment that the monitor reads out of a message.
use native.Mathlib.Nat.{add-suc}
use wireless_android_auto_do.Prelude.{
  ℕ, zero, suc, ◌+◌, ◌≤◌, ◌≡◌, ◌≢◌, refl, sym, ap, ◌∙◌, inl, inr, false, [], ◌∷◌, ◌++◌, Option,
  none, some, arith, length, append_assoc, append-nil, length-append, Option-cases, Bool-cases,
}
use wireless_android_auto_do.Text.{Bytes, equal, has_byte}
use wireless_android_auto_do.Text.Laws.{
  equal_iff, before-append, drop-append_suc, has_byte_self, has_byte_join,
}
use wireless_android_auto_do.Uevent.{UeventEnv, lookup, emplace, add_entry, parse_loop, parse}

-- A name and a value that a message can carry.
abbrev pub IsEntry : Bytes × Bytes → Type 0
IsEntry (k, v) =
    (k ≢ []) × (has_byte b'=' k ≡ false) × (has_byte 0 k ≡ false) × (has_byte 0 v ≡ false)

abbrev pub AllEntries : UeventEnv → Type 0
AllEntries [] = Unit
AllEntries (e ∷ env) = IsEntry e × AllEntries env

-- The strings of a message as the kernel writes them.
abbrev pub entry : Bytes × Bytes → Bytes
entry (k, v) = k ++ b'=' ∷ v

abbrev pub render : UeventEnv → Bytes
render [] = []
render (e ∷ env) = entry e ++ 0 ∷ render env

abbrev or_else : Option Bytes → Option Bytes → Option Bytes
or_else none o = o
or_else (some v) o = some v

lookup-append :
    (j : Bytes) (a b : UeventEnv) → lookup j (a ++ b) ≡ or_else (lookup j a) (lookup j b)
unfolding lookup
lookup-append j [] b = refl
lookup-append j ((k, v) ∷ a) b = ground (arith, lookup-append j a b)

lookup_other :
    (j k v : Bytes) (b : UeventEnv) → equal k j ≡ false → lookup j ((k, v) ∷ b) ≡ lookup j b
unfolding lookup
lookup_other j k v b n = rw n

-- A second entry for a key makes no difference to what is found.
lookup-emplace :
    (j k v : Bytes) (a b : UeventEnv) → lookup j (emplace k v a ++ b) ≡ lookup j (a ++ (k, v) ∷ b)
unfolding emplace
lookup-emplace j k v a b = elim (Option-cases (lookup k a)) [
  | inl e ↦ rw e (ap (lookup j) (append_assoc a ((k, v) ∷ []) b))
  | inr (w, e) ↦
      rw (e, lookup-append j a b, lookup-append j a ((k, v) ∷ b))
        (elim (Bool-cases (equal k j)) [
          | inl same ↦ rw (ap (λ x. lookup x a) (sym ((equal_iff k j).0 same)) ∙ e)
          | inr n ↦ rw (lookup_other j k v b n)
        ])
]

add_entry-entry :
    (k v : Bytes) (a : UeventEnv) → IsEntry (k, v) → add_entry (entry (k, v)) a ≡ emplace k v a
unfolding add_entry
add_entry-entry [] v a h = absurd (h.0 refl)
add_entry-entry (c ∷ k) v a h =
    rw (before-append b'=' (c ∷ k) v h.1, has_byte_self b'=' (c ∷ k) v)
      (ap (λ x. emplace (c ∷ k) x a) (drop-append_suc (c ∷ k) b'=' v))

-- One string off the front of a message.
parse_loop_step :
    (fuel : ℕ) (a : UeventEnv) (text rest : Bytes)
    → has_byte 0 text ≡ false
    → parse_loop (suc fuel) a (text ++ 0 ∷ rest) ≡ parse_loop fuel (add_entry text a) rest
unfolding parse_loop
parse_loop_step fuel a [] rest n = rw (before-append 0 [] rest n)
parse_loop_step fuel a (c ∷ text) rest n =
    rw (before-append 0 (c ∷ text) rest n, drop-append_suc (c ∷ text) 0 rest)

entry-clean : (e : Bytes × Bytes) → IsEntry e → has_byte 0 (entry e) ≡ false
entry-clean (k, v) h =
    has_byte_join 0 k (b'=' ∷ v) h.2 (has_byte_join 0 (b'=' ∷ []) v (unfold has_byte in refl) h.3)

header_adds : (header : Bytes) → has_byte b'=' header ≡ false → add_entry header [] ≡ []
unfolding add_entry
header_adds header n = rw n

parse_loop-lookup :
    (j : Bytes) (fuel : ℕ) (a es : UeventEnv)
    → AllEntries es
    → length (render es) ≤ fuel
    → lookup j (parse_loop fuel a (render es)) ≡ lookup j (a ++ es)
parse_loop-lookup j zero a [] h f = unfold parse_loop in ap (lookup j) (sym (append-nil a))
parse_loop-lookup j (suc fuel) a [] h f = unfold parse_loop in ap (lookup j) (sym (append-nil a))
parse_loop-lookup j zero a (e ∷ es) h f =
    absurd (omega (arith, length-append (entry e) (0 ∷ render es)))
parse_loop-lookup j (suc fuel) a ((k, v) ∷ es) h f =
    ap (lookup j) (parse_loop_step fuel a (entry (k, v)) (render es) (entry-clean (k, v) h.0))
    ∙ parse_loop-lookup j fuel (add_entry (entry (k, v)) a) es h.1
        (omega (arith, length-append (entry (k, v)) (0 ∷ render es)))
    ∙ ap (λ x. lookup j (x ++ es)) (add_entry-entry k v a h.0)
    ∙ lookup-emplace j k v a es

-- Of a message that the kernel wrote, a header with no `=` and then the variables, whose names
-- are not empty and hold no `=`, and with no zero byte but those behind each part, the monitor's
-- map holds for every name exactly the value of the first variable of that name, and nothing for
-- a name that the message has not.
pub parse-lookup :
    (header : Bytes) (env : UeventEnv) (j : Bytes)
    → has_byte b'=' header ≡ false
    → has_byte 0 header ≡ false
    → AllEntries env
    → lookup j (parse (header ++ 0 ∷ render env)) ≡ lookup j env
unfolding parse
parse-lookup header env j n z h =
    let size = length-append header (0 ∷ render env) in
    rw (size, add-suc (length header) (length (render env)))
      (ap (lookup j)
          (parse_loop_step (length header + length (render env)) [] header (render env) z)
        ∙ rw (header_adds header n)
            (parse_loop-lookup j (length header + length (render env)) [] env h (omega arith)))
