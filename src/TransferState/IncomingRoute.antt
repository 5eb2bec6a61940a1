-- ===== src/TransferState/IncomingRoute.antt =====
-- The route of an incoming transfer that completes (core/transfer_state.py).
use peerc.Common.{
  ◌≡◌, ◌≢◌, refl, ap, ◌∙◌, sym, ◌⊎◌, inl, inr, ℕ, suc, List, [], ◌∷◌, ◌++◌, Bool, true, false, ok,
  err, arith, replicate, All,
}
use peerc.Fsm.{run, entered}
use peerc.TransferState.{
  IncomingState, offered, accepted, receiving, paused, resuming, verifying, completed,
  cannot_transition, incoming_transition_to,
}
use peerc.TransferState.Incoming.{is_outcome, outcome-run}

-- The states in which data arrives, or will arrive again.
abbrev pub is_active : IncomingState → Bool
is_active receiving = true
is_active paused = true
is_active resuming = true
is_active _ = false

abbrev Refused : IncomingState → IncomingState → Type 0
Refused s r = incoming_transition_to s r ≡ err (cannot_transition s r)

abbrev Entered : IncomingState → IncomingState → Type 0
Entered s r = incoming_transition_to s r ≡ ok r

-- What one request can do to a transfer that still waits for `next`.
abbrev Advances : IncomingState → IncomingState → IncomingState → Type 0
Advances next s r =
    Refused s r
    ⊎ (Entered s r × (r ≡ next))
    ⊎ (Entered s r × (is_outcome r ≡ true) × (r ≢ completed))

offered-cases : (r : IncomingState) → Advances accepted offered r
unfolding incoming_transition_to
offered-cases r = ground arith

accepted-cases : (r : IncomingState) → Advances receiving accepted r
unfolding incoming_transition_to
accepted-cases r = ground arith

verifying-cases : (r : IncomingState) → Advances completed verifying r
unfolding incoming_transition_to
verifying-cases r = ground arith

active-cases :
    (s r : IncomingState)
    → is_active s ≡ true
    → Advances verifying s r ⊎ (Entered s r × (is_active r ≡ true))
unfolding incoming_transition_to
active-cases s r h = ground arith

run-nil : (s : IncomingState) → run incoming_transition_to s [] ≡ s
unfolding run
run-nil s = refl

module _ (s r : IncomingState) (rs : List IncomingState) where
  run-refused :
      Refused s r → run incoming_transition_to s (r ∷ rs) ≡ run incoming_transition_to s rs
  unfolding run
  run-refused h = rw h

  run-entered :
      Entered s r → run incoming_transition_to s (r ∷ rs) ≡ run incoming_transition_to r rs
  unfolding run
  run-entered h = rw h

  entered-refused :
      Refused s r → entered incoming_transition_to s (r ∷ rs) ≡ entered incoming_transition_to s rs
  unfolding entered
  entered-refused h = rw h

  entered-entered :
      Entered s r
      → entered incoming_transition_to s (r ∷ rs) ≡ r ∷ entered incoming_transition_to r rs
  unfolding entered
  entered-entered h = rw h

  -- A transfer that took another outcome does not complete.
  lost :
      Entered s r
      → is_outcome r ≡ true
      → r ≢ completed
      → run incoming_transition_to s (r ∷ rs) ≢ completed
  lost h outcome other e = other (sym (run-entered h ∙ outcome-run r rs outcome) ∙ e)

again : (r : IncomingState) → Refused completed r ⊎ (Entered completed r × (r ≡ completed))
unfolding incoming_transition_to
again r = ground arith

completed-part :
    (rs : List IncomingState)
    → (k : ℕ) × (entered incoming_transition_to completed rs ≡ replicate k completed)
completed-part [] = (0, unfold entered in refl)
completed-part (r ∷ rs) =
    let (k, e) = completed-part rs in
    elim (again r) [
      | inl refused ↦ (k, entered-refused completed r rs refused ∙ e)
      | inr (h, same) ↦ (suc k, cc (entered-entered completed r rs h, same, e))
    ]

verifying-part :
    (rs : List IncomingState)
    → run incoming_transition_to verifying rs ≡ completed
    → (k : ℕ) × (entered incoming_transition_to verifying rs ≡ replicate (suc k) completed)
verifying-part [] e = cc (run-nil verifying)
verifying-part (r ∷ rs) e = elim (verifying-cases r) [
  | inl refused ↦
      let (k, rest) = verifying-part rs (sym (run-refused verifying r rs refused) ∙ e) in
      (k, entered-refused verifying r rs refused ∙ rest)
  | inr (inl (h, same)) ↦
      let (k, rest) = completed-part rs in (k, cc (entered-entered verifying r rs h, same, rest))
  | inr (inr (h, outcome, other)) ↦ absurd (lost verifying r rs h outcome other e)
]

-- The states entered from receiving on: data arrives, perhaps with pauses, and is then verified.
abbrev pub IsReceipt : List IncomingState → Type 0
IsReceipt l =
    (m : List IncomingState) × (k : ℕ) × All (λ s. is_active s ≡ true) m
    × (l ≡ m ++ (verifying ∷ replicate (suc k) completed))

active-part :
    (s : IncomingState) (rs : List IncomingState)
    → is_active s ≡ true
    → run incoming_transition_to s rs ≡ completed
    → IsReceipt (entered incoming_transition_to s rs)
active-part s [] h e = absurd (ground (arith, run-nil s))
active-part s (r ∷ rs) h e = elim (active-cases s r h) [
  | inl (inl refused) ↦
      let (m, k, ms, rest) = active-part s rs h (sym (run-refused s r rs refused) ∙ e) in
      (m, k, ms, entered-refused s r rs refused ∙ rest)
  | inl (inr (inl (q, same))) ↦
      let (k, rest) = verifying-part rs (cc (run-entered s r rs q, same, e)) in
      ([], k, tt, cc (entered-entered s r rs q, same, rest))
  | inl (inr (inr (q, outcome, other))) ↦ absurd (lost s r rs q outcome other e)
  | inr (q, active) ↦
      let (m, k, ms, rest) = active-part r rs active (sym (run-entered s r rs q) ∙ e) in
      (r ∷ m, k, (active, ms), entered-entered s r rs q ∙ ap (λ l. r ∷ l) rest)
]

accepted-part :
    (rs : List IncomingState)
    → run incoming_transition_to accepted rs ≡ completed
    → (l : List IncomingState) × IsReceipt l
      × (entered incoming_transition_to accepted rs ≡ receiving ∷ l)
accepted-part [] e = cc (run-nil accepted)
accepted-part (r ∷ rs) e = elim (accepted-cases r) [
  | inl refused ↦
      let (l, receipt, rest) = accepted-part rs (sym (run-refused accepted r rs refused) ∙ e) in
      (l, receipt, entered-refused accepted r rs refused ∙ rest)
  | inr (inl (q, same)) ↦
      let ended : run incoming_transition_to receiving rs ≡ completed =
        cc (run-entered accepted r rs q, same, e) in
      (
        entered incoming_transition_to receiving rs,
        active-part receiving rs refl ended,
        cc (entered-entered accepted r rs q, same),
      )
  | inr (inr (q, outcome, other)) ↦ absurd (lost accepted r rs q outcome other e)
]

-- An incoming transfer that completes entered ACCEPTED, then RECEIVING, then stayed among RECEIVING,
-- PAUSED and RESUMING until it entered VERIFYING, and only then COMPLETED: nothing is completed
-- without having been accepted and verified.
pub incoming_completes_verified :
    (rs : List IncomingState)
    → run incoming_transition_to offered rs ≡ completed
    → (l : List IncomingState) × IsReceipt l
      × (entered incoming_transition_to offered rs ≡ accepted ∷ receiving ∷ l)
incoming_completes_verified [] e = cc (run-nil offered)
incoming_completes_verified (r ∷ rs) e = elim (offered-cases r) [
  | inl refused ↦
      let (l, receipt, rest) =
        incoming_completes_verified rs (sym (run-refused offered r rs refused) ∙ e) in
      (l, receipt, entered-refused offered r rs refused ∙ rest)
  | inr (inl (q, same)) ↦
      let (l, receipt, rest) = accepted-part rs (cc (run-entered offered r rs q, same, e)) in
      (l, receipt, cc (entered-entered offered r rs q, same, rest))
  | inr (inr (q, outcome, other)) ↦ absurd (lost offered r rs q outcome other e)
]
