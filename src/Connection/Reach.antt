-- ===== src/Connection/Reach.antt =====
-- What core/connection_state.py promises of every sequence of requests.
use peerc.Common.{
  ◌≡◌, refl, ◌⊎◌, inl, inr, ◌↔◌, ◌≢◌, List, [], ◌∷◌, ◌++◌, true, false, Bool-cases, ok, err, arith,
  ◌∙◌, ap,
}
use mathlib.Core.List.{append-nil}
use peerc.Fsm.{run, entered, settle, keep, run-keeps}
use peerc.Connection.{
  ConnectionState, new, tcp_connected, handshaking, authenticated, established, closing, closed,
  cannot_transition, is_terminal, transition_to, require_established, after,
}

-- The arrows of the diagram of RELIABILITY_DESIGN.md, section 6.1.
infix 40 ◌⟶◌
pub data ◌⟶◌ : ConnectionState → ConnectionState → Type 0 where
  connect : new ⟶ tcp_connected
  start : tcp_connected ⟶ handshaking
  prove_identity : handshaking ⟶ authenticated
  establish : authenticated ⟶ established
  close : {s : ConnectionState} → is_terminal s ≡ false → s ⟶ closing
  close_again : closing ⟶ closing
  finish : closing ⟶ closed
  finish_again : closed ⟶ closed

ruleset edges =
    (connect, start, prove_identity, establish, close, close_again, finish, finish_again)

transition_to-⟶ : (s t : ConnectionState) → transition_to s t ≡ ok t → s ⟶ t
unfolding transition_to is_terminal
transition_to-⟶ new _ h = grind (arith, edges)
transition_to-⟶ _ _ h = grind (arith, edges)

⟶-transition_to : {s t : ConnectionState} → s ⟶ t → transition_to s t ≡ ok t
unfolding transition_to is_terminal
⟶-transition_to connect = refl
⟶-transition_to start = refl
⟶-transition_to prove_identity = refl
⟶-transition_to establish = refl
⟶-transition_to (close {s} live) = ground arith
⟶-transition_to close_again = refl
⟶-transition_to finish = refl
⟶-transition_to finish_again = refl

transition_to-cases :
    (s t : ConnectionState)
    → (transition_to s t ≡ ok t) ⊎ (transition_to s t ≡ err (cannot_transition s t))
unfolding transition_to
transition_to-cases s t = ground arith

-- A request is accepted exactly when the diagram has its arrow, and is refused, with an error that
-- names both states, exactly when it has not.
pub transition_to-iff-edge :
    (s t : ConnectionState)
    → ((transition_to s t ≡ ok t) ↔ (s ⟶ t))
      × ((transition_to s t ≡ err (cannot_transition s t)) ↔ (¬ (s ⟶ t)))
transition_to-iff-edge s t = (
  (transition_to-⟶ s t, ⟶-transition_to),
  (
    (λ refused edge. cc (⟶-transition_to edge)),
    λ no_edge. elim (transition_to-cases s t) [
      | inl accepted ↦ absurd (no_edge (transition_to-⟶ s t accepted))
      | inr refused ↦ refused
    ],
  ),
)

-- The requests that lead to a state that is not terminal, all of them.
abbrev pub route : ConnectionState → List ConnectionState
route tcp_connected = tcp_connected ∷ []
route handshaking = tcp_connected ∷ handshaking ∷ []
route authenticated = tcp_connected ∷ handshaking ∷ authenticated ∷ []
route established = tcp_connected ∷ handshaking ∷ authenticated ∷ established ∷ []
route _ = []

terminal-keeps :
    (s r : ConnectionState)
    → is_terminal s ≡ true
    → is_terminal (settle s (transition_to s r)) ≡ true
unfolding transition_to is_terminal
terminal-keeps s r h = ground arith

-- A closing or closed connection is never revived: whatever is requested of it afterwards, it stays
-- terminal, and the guard of application frames raises.
terminal_absorbs :
    (s : ConnectionState) (rs : List ConnectionState)
    → is_terminal s ≡ true
    → (is_terminal (run transition_to s rs) ≡ true)
      × (require_established (run transition_to s rs) ≢ ok tt)
unfolding require_established is_terminal
terminal_absorbs s rs h =
    let stays : is_terminal (run transition_to s rs) ≡ true =
      run-keeps transition_to (λ u. is_terminal u ≡ true) terminal-keeps s rs h in
    (stays, ground arith)

route-step :
    (s r : ConnectionState) (rest : List ConnectionState)
    → is_terminal (settle s (transition_to s r)) ≡ false
    → route s ++ keep (transition_to s r) rest ≡ route (settle s (transition_to s r)) ++ rest
unfolding transition_to is_terminal
route-step s r rest h = ground arith

live-route :
    (s : ConnectionState) (rs : List ConnectionState)
    → is_terminal (run transition_to s rs) ≡ false
    → route s ++ entered transition_to s rs ≡ route (run transition_to s rs)
unfolding run entered
live-route s [] h = append-nil (route s)
live-route s (r ∷ rs) h = elim (Bool-cases (is_terminal (settle s (transition_to s r)))) [
  | inl dead ↦ cc ((terminal_absorbs (settle s (transition_to s r)) rs dead).0)
  | inr live ↦
      route-step s r (entered transition_to (settle s (transition_to s r)) rs) live
      ∙ live-route (settle s (transition_to s r)) rs h
]

-- The states that a connection entered, in order, are fixed by the state that it is in while that
-- is not terminal: in particular an established connection has been through TCP_CONNECTED,
-- HANDSHAKING, AUTHENTICATED and ESTABLISHED, once each and in this order, and nothing else.
pub after-route :
    (rs : List ConnectionState)
    → is_terminal (after rs) ≡ false
    → entered transition_to new rs ≡ route (after rs)
after-route rs h = live-route new rs h

established_of_ok : (s : ConnectionState) → require_established s ≡ ok tt → s ≡ established
unfolding require_established
established_of_ok s h = ground arith

-- Application frames are dispatched only on a connection whose handshake was carried through: the
-- guard passes only if the four steps of the handshake, and nothing else, were entered.
pub require_established-handshake :
    (rs : List ConnectionState)
    → require_established (after rs) ≡ ok tt
    → entered transition_to new rs ≡ route established
unfolding require_established is_terminal
require_established-handshake rs h =
    let here : after rs ≡ established = established_of_ok (after rs) h in
    after-route rs (ap is_terminal here) ∙ ap route here

closed-keeps : (s r : ConnectionState) → s ≡ closed → settle s (transition_to s r) ≡ closed
unfolding transition_to
closed-keeps s r h = ground arith

close_steps :
    (s : ConnectionState)
    → (let t = settle s (transition_to s closing) in settle t (transition_to t closed)) ≡ closed
unfolding transition_to
close_steps s = ground arith

-- A connection can be closed from every state: after the requests CLOSING and CLOSED it is CLOSED,
-- and further requests leave it there.
close_from_anywhere :
    (s : ConnectionState) (rs : List ConnectionState)
    → run transition_to s (closing ∷ closed ∷ rs) ≡ closed
unfolding run
close_from_anywhere s rs =
    ap (λ u. run transition_to u rs) (close_steps s)
    ∙ run-keeps transition_to (λ u. u ≡ closed) closed-keeps closed rs refl
