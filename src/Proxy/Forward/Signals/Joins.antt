-- ===== src/Proxy/Forward/Signals/Joins.antt =====
-- What `handleClient` comes to once `should_exit` is set, where each call of the kernel comes back.
use mathlib.Core.Path.{subst}
use wireless_android_auto_do.Prelude.{
  ℕ, suc, ◌≤◌, ◌-◌, ◌≡◌, ◌∙◌, inl, inr, sym, refl, arith, Bool, true, false, ◌||◌, List, [], ◌∷◌,
  Option, none, some, length,
}
use wireless_android_auto_do.Proxy.Forward.{finished}
use wireless_android_auto_do.Proxy.Forward.Signals.{
  joined, Live, Event, thread_turn, call_returns, between_reads, handler_turn, live_step, live_run,
  then_live,
}
use wireless_android_auto_do.Proxy.Forward.Signals.Rank.{
  rank, helpful, gives, wanted, Moves, step-Moves, helpful-wanted, rank_le, rank-zero,
}

abbrev pub has : Event → List Event → Bool
has h [] = false
has h (e ∷ es) = gives h e || has h es

-- In each round there is every step, in any order and any number, but no pause between two reads.
abbrev pub AllFair : List (List Event) → Type 0
AllFair [] = Unit
AllFair (es ∷ rounds) = ((h : Event) → has h es ≡ wanted h) × AllFair rounds

unfoldable pub run_rounds : List (List Event) → Live → Option Live
run_rounds [] l = some l
run_rounds (es ∷ rounds) l = then_live (live_run es l) (λ l'. run_rounds rounds l')

abbrev one_if : Bool → ℕ
one_if true = 1
one_if false = 0

-- The rank is at most `n`; or the program has come to what is undefined.
abbrev Down : ℕ → Option Live → Type 0
Down n none = Unit
Down n (some l) = (l.world.shared.should_exit ≡ true) × (rank l ≤ n)

loosen-Down : (m n : ℕ) (o : Option Live) → m ≤ n → Down m o → Down n o
loosen-Down m n none le v = tt
loosen-Down m n (some l) le v = (v.0, omega (arith, v.1))

-- no pause among the steps
wanted_first :
    (e : Event) (es : List Event)
    → has between_reads (e ∷ es) ≡ false
    → (wanted e ≡ true) × (has between_reads es ≡ false)
wanted_first (thread_turn d) es h = (refl, h)
wanted_first (call_returns d) es h = (refl, h)
wanted_first between_reads es h = cc
wanted_first handler_turn es h = (refl, h)

less : (m n : ℕ) (b c : Bool) → m ≤ n - 1 → m - one_if b ≤ n - one_if c
less m n b c h = ground arith

self : (m : ℕ) (b : Bool) → m - one_if b ≤ m - one_if b
self m b = omega arith

same :
    (m n : ℕ) (h k e : Event) (es : List Event)
    → m ≡ n
    → k ≡ h
    → gives h e ≡ false
    → m - one_if (has k es) ≤ n - one_if (gives h e || has h es)
same m n h k e es x y z =
    subst (λ b. m - one_if (has k es) ≤ n - one_if (b || has h es)) (sym z)
      (subst (λ j. m - one_if (has j es) ≤ n - one_if (has h es)) (sym y)
        (subst (λ i. m - one_if (has h es) ≤ i - one_if (has h es)) x (self m (has h es))))

behind-Down :
    (n : ℕ) (e h : Event) (es : List Event) (o : Option Live)
    → Moves n e h o
    → ((l : Live)
        → l.world.shared.should_exit ≡ true
        → Down (rank l - one_if (has (helpful l) es)) (live_run es l))
    → Down (n - one_if (gives h e || has h es)) (then_live o (λ l. live_run es l))
behind-Down n e h es none v rest = tt
behind-Down n e h es (some l) v rest = elim v.1 [
  | inl le ↦
      loosen-Down _ _ (live_run es l)
        (less (rank l) n (has (helpful l) es) (gives h e || has h es) le) (rest l v.0)
  | inr (r, k, g) ↦
      loosen-Down _ _ (live_run es l) (same (rank l) n h (helpful l) e es r k g) (rest l v.0)
]

zero_off : (n : ℕ) → n ≤ n - 0
zero_off n = omega arith

round-Down :
    (es : List Event) (l : Live)
    → has between_reads es ≡ false
    → l.world.shared.should_exit ≡ true
    → Down (rank l - one_if (has (helpful l) es)) (live_run es l)
unfolding live_run
round-Down [] l c x = (x, zero_off (rank l))
round-Down (e ∷ es) l c x =
    let (w, c') = wanted_first e es c in
    behind-Down (rank l) e (helpful l) es (live_step e l) (step-Moves e l w x)
      (λ k y. round-Down es k c' y)

one_off : (m n : ℕ) (b : Bool) → m ≤ n → b ≡ true → m - one_if b ≤ n - 1
one_off m n b h e = ground arith

rounds_off : (n k : ℕ) → n - 1 - k ≤ n - suc k
rounds_off n k = omega arith

rounds-Down :
    (rounds : List (List Event)) (n : ℕ) (o : Option Live)
    → AllFair rounds
    → Down n o
    → Down (n - length rounds) (then_live o (λ l. run_rounds rounds l))
unfolding run_rounds
rounds-Down rounds n none f v = tt
rounds-Down [] n (some l) f v = (v.0, omega (arith, v.1))
rounds-Down (es ∷ rounds) n (some l) f v =
    let one : Down (n - 1) (live_run es l) =
      loosen-Down _ (n - 1) (live_run es l)
        (one_off (rank l) n (has (helpful l) es) v.1 (f.0 (helpful l) ∙ helpful-wanted l))
        (round-Down es l (f.0 between_reads) v.0) in
    loosen-Down _ _ (run_rounds (es ∷ rounds) l) (rounds_off n (length rounds))
      (rounds-Down rounds (n - 1) (live_run es l) f.1 one)

-- Both threads have returned, and `handleClient` is behind its joins; or the program has signalled
-- a thread that was joined.
abbrev pub ComesToEnd : Option Live → Type 0
ComesToEnd none = Unit
ComesToEnd (some l) =
    (l.handler ≡ joined) × (l.world.tcp_usb.pc ≡ finished) × (l.world.usb_tcp.pc ≡ finished)

comes_to_end : (o : Option Live) → Down 0 o → ComesToEnd o
comes_to_end none v = tt
comes_to_end (some l) v = rank-zero l v.1

-- Once `should_exit` is set, wherever the two threads and `handleClient` are, twelve rounds are
-- enough for both threads to return and for `handleClient` to get behind its joins, if it does
-- not come to signalling a thread that was joined; where in each round each of the three has a
-- turn and each call of the kernel in which a thread is comes back, whatever it returns, in any
-- order and any number, and no thread comes to be between two reads of a message.
pub rounds-ComesToEnd :
    (l : Live) (rounds : List (List Event))
    → l.world.shared.should_exit ≡ true
    → AllFair rounds
    → 12 ≤ length rounds
    → ComesToEnd (run_rounds rounds l)
rounds-ComesToEnd l rounds x fair le = comes_to_end (run_rounds rounds l) (
    loosen-Down _ _ (run_rounds rounds l) (omega (arith, le))
      (rounds-Down rounds 12 (some l) fair (x, rank_le l)))
