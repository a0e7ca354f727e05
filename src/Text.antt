-- ===== src/Text.antt =====
-- What the sources use of `std::string`: byte strings as lists of numbers.
-- An index into a string is represented by the suffix that starts there.
pub mod Laws
use Prim.Native.Char.{code}
use Prim.Native.String.{String}
use wireless_android_auto_do.Prelude.{
  ℕ, Bool, true, false, ◌&&◌, ◌||◌, List, [], ◌∷◌, Option, none, some, ◌==◌, if◌then◌else◌,
}

abbrev pub Bytes : Type 0
Bytes = List ℕ

-- The bytes of a literal of the sources; all of them are ASCII.
abbrev pub codes : String → Bytes
codes String.[] = []
codes (String.◌∷◌ c s) = code c ∷ codes s

-- `s == t`
unfoldable pub equal : Bytes → Bytes → Bool
equal [] [] = true
equal [] (c ∷ t) = false
equal (b ∷ s) [] = false
equal (b ∷ s) (c ∷ t) = b == c && equal s t

-- `s.empty()`
abbrev pub is_empty : Bytes → Bool
is_empty [] = true
is_empty (_ ∷ _) = false

-- `s.rfind(p, 0) == 0`
unfoldable pub starts_with : Bytes → Bytes → Bool
starts_with [] s = true
starts_with (p ∷ ps) [] = false
starts_with (p ∷ ps) (c ∷ s) = p == c && starts_with ps s

-- `s.find(t)`: the suffix of `s` at the first occurrence of `t`; `none` is `npos`
unfoldable pub find : Bytes → Bytes → Option Bytes
unfolding starts_with
find t [] = if is_empty t then some [] else none
find t (c ∷ s) = let later = find t s in if starts_with t (c ∷ s) then some (c ∷ s) else later

-- `s.find(t) != npos`
unfoldable pub contains : Bytes → Bytes → Bool
unfolding starts_with
contains t [] = is_empty t
contains t (c ∷ s) = starts_with t (c ∷ s) || contains t s

-- `s.find(c)` for a byte
unfoldable pub find_byte : ℕ → Bytes → Option Bytes
find_byte b [] = none
find_byte b (c ∷ s) = if c == b then some (c ∷ s) else find_byte b s

-- the part of `s` in front of the first byte `b`, and all of `s` if there is none
unfoldable pub before : ℕ → Bytes → Bytes
before b [] = []
before b (c ∷ s) = if c == b then [] else c ∷ before b s

unfoldable pub has_byte : ℕ → Bytes → Bool
has_byte b [] = false
has_byte b (c ∷ s) = c == b || has_byte b s

-- `while (!s.empty() && p(s.front())) s.erase(s.begin());`
unfoldable pub trim_front : (ℕ → Bool) → Bytes → Bytes
trim_front p [] = []
trim_front p (c ∷ s) = if p c then trim_front p s else c ∷ s

-- `while (!s.empty() && p(s.back())) s.pop_back();`
unfoldable pub trim_back : (ℕ → Bool) → Bytes → Bytes
trim_back p [] = []
trim_back p (c ∷ s) = let rest = trim_back p s in if is_empty rest && p c then [] else c ∷ rest
