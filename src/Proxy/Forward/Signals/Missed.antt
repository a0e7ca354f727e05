-- ===== src/Proxy/Forward/Signals/Missed.antt =====
-- A thread that no signal has reached in its call.
use mathlib.Core.Path.{subst}
use wireless_android_auto_do.Prelude.{
  ◌≡◌, refl, sym, arith, Bool, true, false, List, [], ◌∷◌, Option, none, some,
}
use wireless_android_auto_do.Proxy.Forward.{
  ProxyDirection, tcp_to_usb, usb_to_tcp, Pc, at_test, at_read, after_read, at_write, after_write,
  at_stop, finished, World, step_at, step, turn,
}
use wireless_android_auto_do.Proxy.Forward.Signals.{
  JoinPc, Live, thread, is_call, thread_at, handler_at, pause, Event, thread_turn, call_returns,
  between_reads, handler_turn, live_step, live_run, then_live,
}
use wireless_android_auto_do.Proxy.Forward.Signals.Invariant.{live_at}

abbrev pub other : ProxyDirection → ProxyDirection
other tcp_to_usb = usb_to_tcp
other usb_to_tcp = tcp_to_usb

-- The call of the thread does not come back.
abbrev pub no_return : ProxyDirection → List Event → Bool
no_return d [] = true
no_return tcp_to_usb (call_returns tcp_to_usb ∷ es) = false
no_return usb_to_tcp (call_returns usb_to_tcp ∷ es) = false
no_return d (e ∷ es) = no_return d es

-- The thread stands at this program counter.
abbrev pub Stands : ProxyDirection → Pc → Option Live → Type 0
Stands d p none = ⊥
Stands d p (some l) = (thread d l.world).pc ≡ p

-- The thread stands at a call, and the other has returned.
abbrev pub Alone : ProxyDirection → Pc → Option Live → Type 0
Alone d p none = ⊥
Alone d p (some l) = ((thread d l.world).pc ≡ p) × ((thread (other d) l.world).pc ≡ finished)

tcp_turn-Alone :
    (p : Pc) (i j : Bool) (h : JoinPc) (w : World)
    → is_call p ≡ true
    → Alone tcp_to_usb p (thread_at p tcp_to_usb (live_at p finished i j h w))
unfolding thread_at
tcp_turn-Alone at_read i j h w c = (refl, refl)
tcp_turn-Alone at_write i j h w c = (refl, refl)
tcp_turn-Alone at_test i j h w c = cc
tcp_turn-Alone after_read i j h w c = cc
tcp_turn-Alone after_write i j h w c = cc
tcp_turn-Alone at_stop i j h w c = cc
tcp_turn-Alone finished i j h w c = cc

usb_turn-Alone :
    (q : Pc) (i j : Bool) (h : JoinPc) (w : World)
    → is_call q ≡ true
    → Alone usb_to_tcp q (thread_at q usb_to_tcp (live_at finished q i j h w))
unfolding thread_at
usb_turn-Alone at_read i j h w c = (refl, refl)
usb_turn-Alone at_write i j h w c = (refl, refl)
usb_turn-Alone at_test i j h w c = cc
usb_turn-Alone after_read i j h w c = cc
usb_turn-Alone after_write i j h w c = cc
usb_turn-Alone at_stop i j h w c = cc
usb_turn-Alone finished i j h w c = cc

tcp_step-Alone :
    (e : Event) (p : Pc) (i j : Bool) (h : JoinPc) (w : World)
    → is_call p ≡ true
    → no_return tcp_to_usb (e ∷ []) ≡ true
    → Alone tcp_to_usb p (live_step e (live_at p finished i j h w))
unfolding live_step thread_at turn step step_at pause handler_at
tcp_step-Alone (thread_turn tcp_to_usb) p i j h w c n = tcp_turn-Alone p i j h w c
tcp_step-Alone (thread_turn usb_to_tcp) p i j h w c n = (refl, refl)
tcp_step-Alone (call_returns tcp_to_usb) p i j h w c n = cc
tcp_step-Alone (call_returns usb_to_tcp) p i true h w c n = (refl, refl)
tcp_step-Alone (call_returns usb_to_tcp) p i false h w c n = (refl, refl)
tcp_step-Alone between_reads p i j h w c n = ground arith
tcp_step-Alone handler_turn p i j h w c n = ground arith

usb_step-Alone :
    (e : Event) (q : Pc) (i j : Bool) (h : JoinPc) (w : World)
    → is_call q ≡ true
    → no_return usb_to_tcp (e ∷ []) ≡ true
    → Alone usb_to_tcp q (live_step e (live_at finished q i j h w))
unfolding live_step thread_at turn step step_at pause handler_at
usb_step-Alone (thread_turn usb_to_tcp) q i j h w c n = usb_turn-Alone q i j h w c
usb_step-Alone (thread_turn tcp_to_usb) q i j h w c n = (refl, refl)
usb_step-Alone (call_returns usb_to_tcp) q i j h w c n = cc
usb_step-Alone (call_returns tcp_to_usb) q true j h w c n = (refl, refl)
usb_step-Alone (call_returns tcp_to_usb) q false j h w c n = (refl, refl)
usb_step-Alone between_reads q i j h w c n = (refl, refl)
usb_step-Alone handler_turn q i j h w c n = ground arith

step-Alone :
    (d : ProxyDirection) (e : Event) (l : Live)
    → is_call (thread d l.world).pc ≡ true
    → (thread (other d) l.world).pc ≡ finished
    → no_return d (e ∷ []) ≡ true
    → Alone d (thread d l.world).pc (live_step e l)
step-Alone tcp_to_usb e l c f n =
    subst
      (λ q.
        Alone tcp_to_usb l.world.tcp_usb.pc
          (live_step e (live_at l.world.tcp_usb.pc q l.in_tcp_usb l.in_usb_tcp l.handler l.world)))
      (sym f) (tcp_step-Alone e l.world.tcp_usb.pc l.in_tcp_usb l.in_usb_tcp l.handler l.world c n)
step-Alone usb_to_tcp e l c f n =
    subst
      (λ p.
        Alone usb_to_tcp l.world.usb_tcp.pc
          (live_step e (live_at p l.world.usb_tcp.pc l.in_tcp_usb l.in_usb_tcp l.handler l.world)))
      (sym f) (usb_step-Alone e l.world.usb_tcp.pc l.in_tcp_usb l.in_usb_tcp l.handler l.world c n)

-- the first event, and the others
no_return_parts :
    (d : ProxyDirection) (e : Event) (es : List Event)
    → no_return d (e ∷ es) ≡ true
    → (no_return d (e ∷ []) ≡ true) × (no_return d es ≡ true)
no_return_parts tcp_to_usb (call_returns tcp_to_usb) es n = cc
no_return_parts tcp_to_usb (call_returns usb_to_tcp) es n = (refl, n)
no_return_parts tcp_to_usb (thread_turn x) es n = (refl, n)
no_return_parts tcp_to_usb between_reads es n = (refl, n)
no_return_parts tcp_to_usb handler_turn es n = (refl, n)
no_return_parts usb_to_tcp (call_returns tcp_to_usb) es n = (refl, n)
no_return_parts usb_to_tcp (call_returns usb_to_tcp) es n = cc
no_return_parts usb_to_tcp (thread_turn x) es n = (refl, n)
no_return_parts usb_to_tcp between_reads es n = (refl, n)
no_return_parts usb_to_tcp handler_turn es n = (refl, n)

-- A thread that is left alone at its call stays there until the call comes back.
pub run-Stands :
    (d : ProxyDirection) (p : Pc) (es : List Event) (o : Option Live)
    → is_call p ≡ true
    → Alone d p o
    → no_return d es ≡ true
    → Stands d p (then_live o (λ l. live_run es l))
unfolding live_run
run-Stands d p es none c a n = a
run-Stands d p [] (some l) c a n = a.0
run-Stands d p (e ∷ es) (some l) c a n =
    let (now, rest) = no_return_parts d e es n in
    let stays = step-Alone d e l (subst (λ x. is_call x ≡ true) (sym a.0) c) a.1 now in
    run-Stands d p es (live_step e l) c (subst (λ x. Alone d x (live_step e l)) a.0 stays) rest
