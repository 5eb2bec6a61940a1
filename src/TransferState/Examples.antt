-- ===== src/TransferState/Examples.antt =====
-- Two outgoing transfers and an incoming one.
use peerc.Common.{◌≡◌, refl, List, [], ◌∷◌}
use peerc.Fsm.{run, entered}
use peerc.TransferState.{
  OutgoingState, IncomingState, outgoing_is_terminal, incoming_is_terminal, incoming_transition_to,
}
use peerc.TransferState.Outgoing
use peerc.TransferState.Incoming
use peerc.TransferState.IncomingRoute

-- Accepted twice, sent, acknowledged twice.
abbrev upload : List OutgoingState
upload =
    OutgoingState.waiting_for_accept ∷ OutgoingState.sending ∷ OutgoingState.sending
    ∷ OutgoingState.waiting_for_complete_ack ∷ OutgoingState.completed ∷ OutgoingState.completed
    ∷ OutgoingState.failed ∷ []

-- A chunk in a paused transfer is refused, and the transfer is resumed and verified.
abbrev download : List IncomingState
download =
    IncomingState.accepted ∷ IncomingState.receiving ∷ IncomingState.paused
    ∷ IncomingState.receiving ∷ IncomingState.resuming ∷ IncomingState.receiving
    ∷ IncomingState.verifying ∷ IncomingState.completed ∷ []

outgoing_terminal-outcomes_example :
    outgoing_is_terminal OutgoingState.failed ≡ Outgoing.is_outcome OutgoingState.failed
outgoing_terminal-outcomes_example = Outgoing.outgoing_terminal-outcomes OutgoingState.failed

incoming_terminal-outcomes_example :
    incoming_is_terminal IncomingState.paused ≡ Incoming.is_outcome IncomingState.paused
incoming_terminal-outcomes_example = Incoming.incoming_terminal-outcomes IncomingState.paused

incoming_completes_verified_example :
    (l : List IncomingState) × IncomingRoute.IsReceipt l
    × (entered incoming_transition_to IncomingState.offered download
        ≡ IncomingState.accepted ∷ IncomingState.receiving ∷ l)
incoming_completes_verified_example =
    IncomingRoute.incoming_completes_verified download (unfold run incoming_transition_to in refl)
