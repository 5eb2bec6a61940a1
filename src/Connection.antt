-- ===== src/Connection.antt =====
-- core/connection_state.py: the life of one connection, from NEW to CLOSED.
pub mod Reach
mod Examples
use peerc.Common.{List, [], ◌∷◌, Bool, true, false, contains, if◌then◌else◌, Result, ok, err}
use peerc.Fsm

pub data ConnectionState : Type 0 where
  new tcp_connected handshaking authenticated established closing closed : ConnectionState

pub ConnectionState-discrete : Discrete ConnectionState
ConnectionState-discrete = hlevel

-- The message of `InvalidConnectionTransition` names the state and what was asked of it.
pub data InvalidConnectionTransition : Type 0 where
  cannot_transition : ConnectionState → ConnectionState → InvalidConnectionTransition
  requires_established : ConnectionState → InvalidConnectionTransition

unfoldable pub allowed_transitions : ConnectionState → List ConnectionState
allowed_transitions new = tcp_connected ∷ closing ∷ []
allowed_transitions tcp_connected = handshaking ∷ closing ∷ []
allowed_transitions handshaking = authenticated ∷ closing ∷ []
allowed_transitions authenticated = established ∷ closing ∷ []
allowed_transitions established = closing ∷ []
allowed_transitions closing = closing ∷ closed ∷ []
allowed_transitions closed = closed ∷ []

unfoldable pub is_established : ConnectionState → Bool
is_established established = true
is_established _ = false

unfoldable pub is_terminal : ConnectionState → Bool
is_terminal closing = true
is_terminal closed = true
is_terminal _ = false

unfoldable pub transition_to :
    ConnectionState → ConnectionState → Result InvalidConnectionTransition ConnectionState
unfolding allowed_transitions ConnectionState-discrete
transition_to current new_state =
    if contains ConnectionState-discrete new_state (allowed_transitions current)
    then ok new_state
    else err (cannot_transition current new_state)

-- The guard before an application frame is dispatched.
unfoldable pub require_established : ConnectionState → Result InvalidConnectionTransition (Unit {0})
unfolding is_established
require_established state = if is_established state then ok tt else err (requires_established state)

-- The state of a connection after the requests that its owner made.
abbrev pub after : List ConnectionState → ConnectionState
after = Fsm.run transition_to new
