-- ===== src/TransferState/Outgoing.antt =====
-- The life of an outgoing transfer: it resolves once, and completes by one route only.
use peerc.Common.{
  ◌≡◌, refl, ap, ◌∙◌, inl, inr, List, [], ◌∷◌, ◌++◌, Bool, true, false, ok, err, arith, Bool-cases,
  ite, ℕ, suc, replicate, sym,
}
use peerc.Fsm.{run, entered, settle, keep}
use peerc.TransferState.{
  OutgoingState, OutgoingState-discrete, offered, waiting_for_accept, sending,
  waiting_for_complete_ack, completed, failed, rejected, cancelled, cannot_transition,
  outgoing_is_terminal, outgoing_transition_to,
}

-- The four outcomes of the diagram.
abbrev pub is_outcome : OutgoingState → Bool
is_outcome completed = true
is_outcome failed = true
is_outcome rejected = true
is_outcome cancelled = true
is_outcome _ = false

-- The test for a terminal state, which compares table rows, picks out exactly the four outcomes.
pub outgoing_terminal-outcomes : (s : OutgoingState) → outgoing_is_terminal s ≡ is_outcome s
unfolding outgoing_is_terminal
outgoing_terminal-outcomes offered = refl
outgoing_terminal-outcomes _ = refl

outcome-step :
    (s r : OutgoingState) → is_outcome s ≡ true → settle s (outgoing_transition_to s r) ≡ s
unfolding outgoing_transition_to
outcome-step s r h = ground arith

outcome-run :
    (s : OutgoingState) (rs : List OutgoingState)
    → is_outcome s ≡ true
    → run outgoing_transition_to s rs ≡ s
unfolding run
outcome-run s [] h = refl
outcome-run s (r ∷ rs) h = rw (outcome-step s r h) (outcome-run s rs h)

outcome-request :
    (s r : OutgoingState)
    → is_outcome s ≡ true
    → outgoing_transition_to s r
      ≡ ite (OutgoingState-discrete r s) (ok s) (err (cannot_transition s r))
unfolding outgoing_transition_to
outcome-request s r h = ground arith

-- A resolved transfer keeps its outcome through any later requests, and of a single request only the
-- one for the outcome that it has is accepted.
outgoing_resolves_once :
    (s r : OutgoingState) (rs : List OutgoingState)
    → outgoing_is_terminal s ≡ true
    → (run outgoing_transition_to s rs ≡ s)
      × (outgoing_transition_to s r
          ≡ ite (OutgoingState-discrete r s) (ok s) (err (cannot_transition s r)))
outgoing_resolves_once s r rs h =
    let outcome : is_outcome s ≡ true = sym (outgoing_terminal-outcomes s) ∙ h in
    (outcome-run s rs outcome, outcome-request s r outcome)

-- The states on the way to completion, with what was entered before each.
abbrev pub route : OutgoingState → List OutgoingState
route waiting_for_accept = waiting_for_accept ∷ []
route sending = waiting_for_accept ∷ sending ∷ []
route waiting_for_complete_ack = waiting_for_accept ∷ sending ∷ waiting_for_complete_ack ∷ []
route _ = []

live-route :
    (s r : OutgoingState) (rest : List OutgoingState)
    → is_outcome (settle s (outgoing_transition_to s r)) ≡ false
    → route s ++ keep (outgoing_transition_to s r) rest
      ≡ route (settle s (outgoing_transition_to s r)) ++ rest
unfolding outgoing_transition_to
live-route s r rest h = ground arith

last_step :
    (s r : OutgoingState)
    → is_outcome s ≡ false
    → settle s (outgoing_transition_to s r) ≡ completed
    → (s ≡ waiting_for_complete_ack) × (outgoing_transition_to s r ≡ ok completed)
unfolding outgoing_transition_to
last_step s r h e = ground arith

again :
    (r : OutgoingState) (rest : List OutgoingState) (k : ℕ)
    → rest ≡ replicate k completed
    → (j : ℕ) × (keep (outgoing_transition_to completed r) rest ≡ replicate j completed)
unfolding outgoing_transition_to
again completed rest k e = (suc k, ap (λ l. completed ∷ l) e)
again _ rest k e = (k, e)

entered-completed :
    (rs : List OutgoingState)
    → (k : ℕ) × (entered outgoing_transition_to completed rs ≡ replicate k completed)
unfolding entered
entered-completed [] = (0, refl)
entered-completed (r ∷ rs) =
    let (k, e) = entered-completed rs in
    rw (outcome-step completed r refl) (again r (entered outgoing_transition_to completed rs) k e)

last-route :
    (s r : OutgoingState) (rs : List OutgoingState)
    → s ≡ waiting_for_complete_ack
    → outgoing_transition_to s r ≡ ok completed
    → (k : ℕ) × (route s ++ entered outgoing_transition_to s (r ∷ rs)
        ≡ route waiting_for_complete_ack ++ replicate (suc k) completed)
unfolding entered
last-route s r rs p q =
    let (k, e) = entered-completed rs in
    (k, rw q (rw p (ap (λ l. route waiting_for_complete_ack ++ completed ∷ l) e)))

completed-route :
    (s : OutgoingState) (rs : List OutgoingState)
    → is_outcome s ≡ false
    → run outgoing_transition_to s rs ≡ completed
    → (k : ℕ) × (route s ++ entered outgoing_transition_to s rs
        ≡ route waiting_for_complete_ack ++ replicate (suc k) completed)
unfolding run entered
completed-route s [] h e = ground arith
completed-route s (r ∷ rs) h e =
    elim (Bool-cases (is_outcome (settle s (outgoing_transition_to s r)))) [
      | inl done ↦
          let (p, q) =
            last_step s r h
              (sym (outcome-run (settle s (outgoing_transition_to s r)) rs done) ∙ e) in
          last-route s r rs p q
      | inr live ↦
          let t = settle s (outgoing_transition_to s r) in
          let (k, rest) = completed-route t rs live e in
          (k, live-route s r (entered outgoing_transition_to t rs) live ∙ rest)
    ]

-- An outgoing transfer that completes was accepted, then sent, then waited for the acknowledgement,
-- each once and in this order; whatever requests came besides were refused or repeated COMPLETED.
outgoing_completes_by_route :
    (rs : List OutgoingState)
    → run outgoing_transition_to offered rs ≡ completed
    → (k : ℕ) × (entered outgoing_transition_to offered rs
        ≡ waiting_for_accept ∷ sending ∷ waiting_for_complete_ack ∷ replicate (suc k) completed)
outgoing_completes_by_route rs e = completed-route offered rs refl e
