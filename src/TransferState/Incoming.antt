-- ===== src/TransferState/Incoming.antt =====
-- The outcomes of an incoming transfer (core/transfer_state.py): it resolves once, and can always fail.
use peerc.Common.{◌≡◌, refl, ◌∙◌, sym, List, [], ◌∷◌, Bool, true, false, ok, err, arith, ite}
use peerc.Fsm.{run, settle}
use peerc.TransferState.{
  IncomingState, IncomingState-discrete, offered, completed, rejected, cancelled, failed, expired,
  cannot_transition, incoming_is_terminal, incoming_transition_to,
}

-- The five outcomes of the diagram.
abbrev pub is_outcome : IncomingState → Bool
is_outcome completed = true
is_outcome rejected = true
is_outcome cancelled = true
is_outcome failed = true
is_outcome expired = true
is_outcome _ = false

-- The test for a terminal state, which compares table rows, picks out exactly the five outcomes.
pub incoming_terminal-outcomes : (s : IncomingState) → incoming_is_terminal s ≡ is_outcome s
unfolding incoming_is_terminal
incoming_terminal-outcomes offered = refl
incoming_terminal-outcomes _ = refl

outcome-step :
    (s r : IncomingState) → is_outcome s ≡ true → settle s (incoming_transition_to s r) ≡ s
unfolding incoming_transition_to
outcome-step s r h = ground arith

pub outcome-run :
    (s : IncomingState) (rs : List IncomingState)
    → is_outcome s ≡ true
    → run incoming_transition_to s rs ≡ s
unfolding run
outcome-run s [] h = refl
outcome-run s (r ∷ rs) h = rw (outcome-step s r h) (outcome-run s rs h)

outcome-request :
    (s r : IncomingState)
    → is_outcome s ≡ true
    → incoming_transition_to s r
      ≡ ite (IncomingState-discrete r s) (ok s) (err (cannot_transition s r))
unfolding incoming_transition_to
outcome-request s r h = ground arith

-- A resolved transfer keeps its outcome through any later requests, and of a single request only the
-- one for the outcome that it has is accepted.
incoming_resolves_once :
    (s r : IncomingState) (rs : List IncomingState)
    → incoming_is_terminal s ≡ true
    → (run incoming_transition_to s rs ≡ s)
      × (incoming_transition_to s r
          ≡ ite (IncomingState-discrete r s) (ok s) (err (cannot_transition s r)))
incoming_resolves_once s r rs h =
    let outcome : is_outcome s ≡ true = sym (incoming_terminal-outcomes s) ∙ h in
    (outcome-run s rs outcome, outcome-request s r outcome)

-- Every transfer that is not resolved can still be failed: a peer's error or a lost connection
-- always finds a way to FAILED.
pub incoming_can_fail :
    (s : IncomingState)
    → incoming_is_terminal s ≡ false
    → incoming_transition_to s failed ≡ ok failed
unfolding incoming_transition_to incoming_is_terminal
incoming_can_fail s h = ground arith
