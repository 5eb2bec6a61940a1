-- ===== src/TransferState.antt =====
-- core/transfer_state.py: the guarded state machines of an outgoing and an incoming file transfer.
pub mod Outgoing
pub mod Incoming
pub mod IncomingRoute
mod Examples
use peerc.Common.{
  List, [], ◌∷◌, ◌++◌, Bool, true, ◌&&◌, contains, ite, if◌then◌else◌, Result, ok, err,
}

pub data OutgoingState : Type 0 where
  offered waiting_for_accept sending waiting_for_complete_ack completed failed rejected cancelled :
      OutgoingState

pub data IncomingState : Type 0 where
  offered accepted receiving paused resuming verifying completed rejected cancelled failed expired :
      IncomingState

pub OutgoingState-discrete : Discrete OutgoingState
OutgoingState-discrete = hlevel

pub IncomingState-discrete : Discrete IncomingState
IncomingState-discrete = hlevel

pub data InvalidTransferTransition (S : Type 0) : Type 0 where
  cannot_transition : S → S → InvalidTransferTransition S

unfoldable pub outgoing_transitions : OutgoingState → List OutgoingState
outgoing_transitions offered = waiting_for_accept ∷ []
outgoing_transitions waiting_for_accept = sending ∷ failed ∷ rejected ∷ cancelled ∷ []
outgoing_transitions sending = waiting_for_complete_ack ∷ failed ∷ cancelled ∷ []
outgoing_transitions waiting_for_complete_ack = completed ∷ failed ∷ cancelled ∷ []
outgoing_transitions completed = completed ∷ []
outgoing_transitions failed = failed ∷ []
outgoing_transitions rejected = rejected ∷ []
outgoing_transitions cancelled = cancelled ∷ []

abbrev pub incoming_terminal_outcomes : List IncomingState
incoming_terminal_outcomes = rejected ∷ cancelled ∷ failed ∷ expired ∷ []

unfoldable pub incoming_transitions : IncomingState → List IncomingState
incoming_transitions offered = accepted ∷ incoming_terminal_outcomes
incoming_transitions accepted = receiving ∷ incoming_terminal_outcomes
incoming_transitions receiving = receiving ∷ verifying ∷ paused ∷ incoming_terminal_outcomes
incoming_transitions paused = resuming ∷ incoming_terminal_outcomes
incoming_transitions resuming = receiving ∷ incoming_terminal_outcomes
incoming_transitions verifying = completed ∷ incoming_terminal_outcomes
incoming_transitions completed = completed ∷ []
incoming_transitions rejected = rejected ∷ []
incoming_transitions cancelled = cancelled ∷ []
incoming_transitions failed = failed ∷ []
incoming_transitions expired = expired ∷ []

module _ {S : Type 0} (dec : Discrete S) where
  -- Every element of the one list is in the other.
  abbrev pub subset : List S → List S → Bool
  subset [] ys = true
  subset (x ∷ xs) ys = contains dec x ys && subset xs ys

  -- `==` of two frozensets.
  abbrev pub same_set : List S → List S → Bool
  same_set xs ys = subset xs ys && subset ys xs

-- The mechanics that both directions share: `_TransferStateMachine` over its table.
module _ {S : Type 0} (dec : Discrete S) (table : S → List S) where
  unfoldable pub is_terminal : S → Bool
  is_terminal state = same_set dec (table state) (state ∷ [])

  unfoldable pub transition_to : S → S → Result (InvalidTransferTransition S) S
  transition_to current new_state =
      if contains dec new_state (table current)
      then ok new_state
      else err (cannot_transition current new_state)

-- `OutgoingTransferStateMachine` and `IncomingTransferStateMachine`: the two tables put in.
unfoldable pub outgoing_is_terminal : OutgoingState → Bool
unfolding is_terminal outgoing_transitions OutgoingState-discrete
outgoing_is_terminal = is_terminal OutgoingState-discrete outgoing_transitions

unfoldable pub outgoing_transition_to :
    OutgoingState → OutgoingState → Result (InvalidTransferTransition OutgoingState) OutgoingState
unfolding transition_to outgoing_transitions OutgoingState-discrete
outgoing_transition_to = transition_to OutgoingState-discrete outgoing_transitions

unfoldable pub incoming_is_terminal : IncomingState → Bool
unfolding is_terminal incoming_transitions IncomingState-discrete
incoming_is_terminal = is_terminal IncomingState-discrete incoming_transitions

unfoldable pub incoming_transition_to :
    IncomingState → IncomingState → Result (InvalidTransferTransition IncomingState) IncomingState
unfolding transition_to incoming_transitions IncomingState-discrete
incoming_transition_to = transition_to IncomingState-discrete incoming_transitions
