-- ===== src/Daemon/Fair.antt =====
-- Schedules that give every thread its turns.
use mathlib.Core.Path.{subst}
use wireless_android_auto_do.Prelude.{
  ℕ, suc, ◌+◌, ◌≤◌, ◌≡◌, ◌⊎◌, inl, inr, refl, arith, Bool, true, false, ◌||◌, List, [], ◌∷◌, length,
  if◌then◌else◌,
}
use wireless_android_auto_do.Daemon.{
  MainPc, at_top, Daemon, Outcome, blocked, exited, crashed, running, Choice, step, Reach, later,
}
use wireless_android_auto_do.Daemon.Run.{after, Reach-Ordered}
use wireless_android_auto_do.Daemon.Rank.{
  is_serving, is_top, Thread, needed, gives, rank_of, one_if, Nearer, step-Nearer, rank_le,
  rank_pos,
}

-- A thread that is blocked keeps its turn waiting.
abbrev pub or_waits : Daemon → Outcome → Outcome
or_waits s blocked = running s
or_waits s o = o

-- The steps of a schedule, up to the head of the loop.
unfoldable pub pass : List Choice → Daemon → Outcome
pass [] s = running s
pass (c ∷ cs) s =
    let next = after (or_waits s (step c s)) (λ t. pass cs t) in
    if is_top s.main then running s else next

unfoldable pub passes : List (List Choice) → Daemon → Outcome
passes [] s = running s
passes (cs ∷ rounds) s = after (pass cs s) (λ t. passes rounds t)

abbrev pub has : Thread → List Choice → Bool
has t [] = false
has t (c ∷ cs) = gives t c || has t cs

-- In each round `main` and the thread of retries have a turn, among other steps, and the proxy has
-- one in which its call has succeeded, or the time of its wait is over: `proxy_turn true`.
abbrev pub AllFair : List (List Choice) → Type 0
AllFair [] = Unit
AllFair (cs ∷ rounds) = ((t : Thread) → has t cs ≡ true) × AllFair rounds

-- What a round comes to.
abbrev End : ℕ → Bool → Outcome → Type 0
End n turn (running t) =
    Reach t
    × ((is_top t.main ≡ true) ⊎ ((is_serving t.main ≡ true) × (rank_of t + one_if turn ≤ n)))
End n turn crashed = Unit
End n turn _ = ⊥

pass_top : (cs : List Choice) (s : Daemon) → is_top s.main ≡ true → pass cs s ≡ running s
unfolding pass
pass_top [] s e = refl
pass_top (c ∷ cs) s e = rw e refl

not_top : (m : MainPc) → is_serving m ≡ true → is_top m ≡ false
not_top m e = ground arith

one_if_le : (b : Bool) → one_if b ≤ 1
one_if_le true = omega arith
one_if_le false = omega arith

-- A rank that is smaller makes up for a turn.
smaller-End : (m n : ℕ) (b b' : Bool) (o : Outcome) → m + 1 ≤ n → End m b o → End n b' o
smaller-End m n b b' (running t) le (r, inl top) = (r, inl top)
smaller-End m n b b' (running t) le (r, inr h) =
    let one = one_if_le b' in (r, inr (h.0, omega (arith, h.1)))
smaller-End m n b b' crashed le h = tt
smaller-End m n b b' blocked le h = h
smaller-End m n b b' exited le h = h

apart : (m n : ℕ) (g : Bool) → m + one_if g ≤ n → (m + 1 ≤ n) ⊎ ((m ≡ n) × (g ≡ false))
apart m n true h = inl h
apart m n false h = ground arith

-- The rest of a round, behind a step that this leads to.
behind-End :
    (cs : List Choice) (n : ℕ) (g : Bool) (t : Daemon)
    → Reach t
    → (is_top t.main ≡ true) ⊎ ((is_serving t.main ≡ true) × (rank_of t + one_if g ≤ n))
    → (is_serving t.main ≡ true → End (rank_of t) (has (needed (rank_of t)) cs) (pass cs t))
    → End n (g || has (needed n) cs) (pass cs t)
behind-End cs n g t r (inl top) rest = rw (pass_top cs t top) (r, inl top)
behind-End cs n g t r (inr h) rest = elim (apart (rank_of t) n g h.1) [
  | inl less ↦ smaller-End (rank_of t) n _ _ (pass cs t) less (rest h.0)
  | inr same ↦ rw same.1 (subst (λ k. End k (has (needed k) cs) (pass cs t)) same.0 (rest h.0))
]

step-End :
    (cs : List Choice) (n : ℕ) (g : Bool) (s : Daemon) (c : Choice) (o : Outcome)
    → step c s ≡ o
    → Nearer n g o
    → Reach s
    → End n (has (needed n) cs) (pass cs s)
    → ((t : Daemon)
        → Reach t
        → is_serving t.main ≡ true
        → End (rank_of t) (has (needed (rank_of t)) cs) (pass cs t))
    → End n (g || has (needed n) cs) (after (or_waits s o) (λ t. pass cs t))
step-End cs n g s c blocked e v r here rest = rw v here
step-End cs n g s c exited e v r here rest = v
step-End cs n g s c crashed e v r here rest = tt
step-End cs n g s c (running t) e v r here rest =
    behind-End cs n g t (later c r e) v (rest t (later c r e))

pass-End :
    (cs : List Choice) (s : Daemon)
    → Reach s
    → is_serving s.main ≡ true
    → End (rank_of s) (has (needed (rank_of s)) cs) (pass cs s)
unfolding pass
pass-End [] s r e = (r, inr (e, omega arith))
pass-End (c ∷ cs) s r e = rw (not_top s.main e) (
    step-End cs (rank_of s) _ s c (step c s) refl (step-Nearer c s e (Reach-Ordered r)) r
      (pass-End cs s r e) (λ t r' e'. pass-End cs t r' e'))

-- The head of the loop, or the exception that nothing catches.
abbrev pub ComesToTop : Outcome → Type 0
ComesToTop (running t) = t.main ≡ at_top
ComesToTop crashed = Unit
ComesToTop _ = ⊥

is_top_lem : (m : MainPc) → is_top m ≡ true → m ≡ at_top
is_top_lem m e = ground arith

passes_top :
    (rounds : List (List Choice)) (s : Daemon) → is_top s.main ≡ true → passes rounds s ≡ running s
unfolding passes
passes_top [] s e = refl
passes_top (cs ∷ rounds) s e = rw (pass_top cs s e) (passes_top rounds s e)

round-ComesToTop :
    (rounds : List (List Choice)) (n : ℕ) (o : Outcome)
    → End n true o
    → n ≤ suc (length rounds)
    → ((t : Daemon)
        → Reach t
        → is_serving t.main ≡ true
        → rank_of t ≤ length rounds
        → ComesToTop (passes rounds t))
    → ComesToTop (after o (λ t. passes rounds t))
round-ComesToTop rounds n blocked h le rest = h
round-ComesToTop rounds n exited h le rest = h
round-ComesToTop rounds n crashed h le rest = tt
round-ComesToTop rounds n (running t) (r, inl top) le rest =
    rw (passes_top rounds t top) (is_top_lem t.main top)
round-ComesToTop rounds n (running t) (r, inr h) le rest = rest t r h.0 (omega (arith, h.1))

passes-ComesToTop :
    (rounds : List (List Choice)) (s : Daemon)
    → Reach s
    → is_serving s.main ≡ true
    → rank_of s ≤ length rounds
    → AllFair rounds
    → ComesToTop (passes rounds s)
unfolding passes
passes-ComesToTop [] s r e le f =
    let pos = rank_pos s.main s.proxy s.retry e in absurd (none_left (rank_of s) pos le)
  where
    none_left : (n : ℕ) → 1 ≤ n → ¬ (n ≤ 0)
    none_left n pos le = omega arith
passes-ComesToTop (cs ∷ rounds) s r e le f =
    round-ComesToTop rounds (rank_of s) (pass cs s)
      (subst (λ b. End (rank_of s) b (pass cs s)) (f.0 (needed (rank_of s))) (pass-End cs s r e)) le
      (λ t r' e' le'. passes-ComesToTop rounds t r' e' le' f.1)

-- Once a connection is being served, the daemon comes back to the head of its loop, or ends by an
-- exception, under every schedule of 27 rounds in each of which `main` and the thread of retries
-- have a turn, and the proxy has one in which the call that it is in has come back: `accept` with a
-- phone, the wait at the end of its time at the latest, the opening of the descriptors, or the
-- forwarding at its end; whatever the order of the turns is, and whatever events, commands and
-- other turns come between them.
pub Reach-ComesToTop :
    {s : Daemon}
    → Reach s
    → is_serving s.main ≡ true
    → (rounds : List (List Choice)) → 27 ≤ length rounds
    → AllFair rounds
    → ComesToTop (passes rounds s)
Reach-ComesToTop {s} r e rounds le f =
    let rest = rank_le s.main s.proxy s.retry in passes-ComesToTop rounds s r e (omega arith) f
