-- ===== src/Connection/Examples.antt =====
-- Runs of the connection state machine: a handshake, a late frame, a close.
use peerc.Common.{◌≡◌, refl, ◌↔◌, List, [], ◌∷◌, ok, err}
use peerc.Fsm.{run, entered}
use peerc.Connection.{
  ConnectionState, new, tcp_connected, handshaking, authenticated, established, closed,
  cannot_transition, is_terminal, transition_to, require_established, after,
}
use peerc.Connection.Reach.{
  ◌⟶◌, route, transition_to-iff-edge, after-route, require_established-handshake,
}

-- A handshake with a premature request in it.
abbrev handshake : List ConnectionState
handshake = tcp_connected ∷ established ∷ handshaking ∷ authenticated ∷ established ∷ []

handshake_ends : after handshake ≡ established
unfolding run transition_to
handshake_ends = refl

transition_to-iff-edge_example :
    ((transition_to new closed ≡ ok closed) ↔ (new ⟶ closed))
    × ((transition_to new closed ≡ err (cannot_transition new closed)) ↔ (¬ (new ⟶ closed)))
transition_to-iff-edge_example = transition_to-iff-edge new closed

after-route_example : entered transition_to new handshake ≡ route (after handshake)
after-route_example = after-route handshake (unfold is_terminal run transition_to in refl)

require_established-handshake_example : entered transition_to new handshake ≡ route established
require_established-handshake_example =
    require_established-handshake handshake (unfold require_established run transition_to in refl)
