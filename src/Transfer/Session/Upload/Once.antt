-- ===== src/Transfer/Session/Upload/Once.antt =====
-- The peer's answers to an offer: whatever they are, the outcome of an upload is reported once.
use peerc.Common.{
  ◌≡◌, refl, sym, ap, ◌∙◌, ◌⊎◌, inl, inr, ℕ, ◌≤◌, List, [], ◌∷◌, ◌++◌, Bool, true, false, Option,
  none, some, length, String, eq_iff, arith, Option-cases, Result-cases,
}
use mathlib.Core.List.{append-nil}
use peerc.Common.Dicts.{lookup, insert, remove, lookup-insert, lookup-remove}
use peerc.Protocol.Errors.{transfer_not_found}
use peerc.TransferState.{
  OutgoingState, sending, waiting_for_complete_ack, failed, rejected, outgoing_transition_to,
}
use peerc.Transfer.Session.{
  Outgoing, Session, Completion, Reason, peer_aborted, uploaded, report_once,
}
use peerc.Transfer.Session as Session
use peerc.Transfer.Session.Reports.{report_once-keeps_uploads}
use peerc.Transfer.Session.Upload.{
  ack_in_state, accepted_offset, fail_outgoing, handle_accept, handle_reject, handle_complete_ack,
}

pub data Reply : Type 0 where
  accept : Option ℕ → Reply
  reject : Reply
  complete_ack : Bool → Reply

-- The handler of each reply.
unfoldable pub handle_reply : Session → String → String → Reply → Session
handle_reply session addr_key id (accept offset) = handle_accept session addr_key id offset
handle_reply session addr_key id reject = handle_reject session addr_key id
handle_reply session addr_key id (complete_ack success) =
    handle_complete_ack session addr_key id success

-- The session after replies about one transfer, each from the address beside it.
unfoldable pub after_replies : Session → String → List (String × Reply) → Session
after_replies session id [] = session
after_replies session id ((addr_key, reply) ∷ replies) =
    after_replies (handle_reply session addr_key id reply) id replies

-- The transfer is registered under its own id, or not at all.
abbrev pub OwnId : Session → String → Type 0
OwnId session id = (t : Outgoing) → lookup id session.outgoing ≡ some t → t.transfer_id ≡ id

-- One reply reports nothing, or the failure of the transfer, which is then no longer registered.
abbrev pub Resolves : Session → Session → String → Type 0
Resolves before after id =
    (OwnId after id
      × (after.completions ≡ before.completions)
      × (lookup id before.outgoing ≡ none → lookup id after.outgoing ≡ none))
    ⊎ ((t : Outgoing) × (lookup id before.outgoing ≡ some t)
        × (lookup id after.outgoing ≡ none)
        × ((c : Completion) × (after.completions ≡ before.completions ++ c ∷ [])))

same-Resolves :
    (before after : Session) (id : String)
    → OwnId before id
    → after.outgoing ≡ before.outgoing
    → after.completions ≡ before.completions
    → Resolves before after id
same-Resolves before after id own outgoing completions =
    inl (rw (outgoing) own, completions, λ h. rw (outgoing) h)

-- A transfer put back under its id, changed but with the same id.
put-Resolves :
    (before after : Session) (id : String) (t u : Outgoing)
    → OwnId before id
    → lookup id before.outgoing ≡ some t
    → u.transfer_id ≡ t.transfer_id
    → after.outgoing ≡ insert id u before.outgoing
    → after.completions ≡ before.completions
    → Resolves before after id
put-Resolves before after id t u own found name outgoing completions =
    let there : lookup id after.outgoing ≡ some u =
      ground (arith, lookup-insert id id u before.outgoing, eq_iff id id) in
    inl (
      λ v h. let same : u ≡ v = ground arith in rw (sym same) (name ∙ own t found),
      completions,
      λ h. absurd (ground arith),
    )

-- A transfer taken out, with its outcome reported.
out-Resolves :
    (before after : Session) (id : String) (t : Outgoing) (c : Completion)
    → OwnId before id
    → lookup id before.outgoing ≡ some t
    → after.outgoing ≡ remove t.transfer_id before.outgoing
    → after.completions ≡ before.completions ++ c ∷ []
    → Resolves before after id
out-Resolves before after id t c own found outgoing completions =
    let name = own t found in
    inr (
      t,
      found,
      ground (arith, lookup-remove t.transfer_id id before.outgoing, eq_iff t.transfer_id id),
      (c, completions),
    )

accept-Resolves :
    (session : Session) (addr_key id : String) (offset : Option ℕ)
    → OwnId session id
    → Resolves session (handle_accept session addr_key id offset) id
unfolding handle_accept
accept-Resolves session addr_key id offset own = elim (Option-cases (lookup id session.outgoing)) [
  | inl missing ↦
      let (outgoing, completions) =
        report_once-keeps_uploads session addr_key transfer_not_found id in
      same-Resolves session (handle_accept session addr_key id offset) id own
        (rw (missing) outgoing) (rw (missing) completions)
  | inr (t, found) ↦
      let u = record t { resume_offset = accepted_offset offset t.size } in
      elim (Result-cases (outgoing_transition_to t.state sending)) [
        | inl (e, late) ↦
            put-Resolves session (handle_accept session addr_key id offset) id t u own found refl
              (ground arith) (ground arith)
        | inr (state, moved) ↦
            put-Resolves session (handle_accept session addr_key id offset) id t
              (record u { state = state }) own found refl (ground arith) (ground arith)
      ]
]

reject-Resolves :
    (session : Session) (addr_key id : String)
    → OwnId session id
    → Resolves session (handle_reject session addr_key id) id
unfolding handle_reject
reject-Resolves session addr_key id own = elim (Option-cases (lookup id session.outgoing)) [
  | inl missing ↦
      same-Resolves session (handle_reject session addr_key id) id own (ground arith) (ground arith)
  | inr (t, found) ↦ elim (Result-cases (outgoing_transition_to t.state rejected)) [
    | inl (e, late) ↦
        same-Resolves session (handle_reject session addr_key id) id own (ground arith)
          (ground arith)
    | inr (state, moved) ↦
        out-Resolves session (handle_reject session addr_key id) id t
          (uploaded (record t { state = state }) false none (some Session.rejected)) own found
          (ground arith) (ground arith)
  ]
]

fail-Resolves :
    (session : Session) (id : String) (t : Outgoing) (reason : Reason)
    → OwnId session id
    → lookup id session.outgoing ≡ some t
    → Resolves session (fail_outgoing session t reason).0 id
unfolding fail_outgoing
fail-Resolves session id t reason own found =
    elim (Result-cases (outgoing_transition_to t.state failed)) [
      | inl (e, late) ↦
          same-Resolves session (fail_outgoing session t reason).0 id own (ground arith)
            (ground arith)
      | inr (state, moved) ↦
          out-Resolves session (fail_outgoing session t reason).0 id t
            (uploaded (record t { state = state; ack_success = false; ack_event = true }) false none
              (some reason))
            own found (ground arith) (ground arith)
    ]

ack_state-Resolves :
    (session : Session) (id : String) (success : Bool) (t : Outgoing) (s : OutgoingState)
    → OwnId session id
    → lookup id session.outgoing ≡ some t
    → Resolves session (ack_in_state session id success t s) id
unfolding ack_in_state
ack_state-Resolves session id success t waiting_for_complete_ack own found =
    let u = record t { ack_success = success; ack_event = true } in
    put-Resolves session (record session { outgoing = insert id u session.outgoing }) id t u own
      found refl refl refl
ack_state-Resolves session id true t sending own found =
    same-Resolves session session id own refl refl
ack_state-Resolves session id false t sending own found =
    fail-Resolves session id t peer_aborted own found
ack_state-Resolves session id success t _ own found = same-Resolves session session id own refl refl

ack-Resolves :
    (session : Session) (addr_key id : String) (success : Bool)
    → OwnId session id
    → Resolves session (handle_complete_ack session addr_key id success) id
unfolding handle_complete_ack
ack-Resolves session addr_key id success own = elim (Option-cases (lookup id session.outgoing)) [
  | inl missing ↦
      same-Resolves session (handle_complete_ack session addr_key id success) id own (ground arith)
        (ground arith)
  | inr (t, found) ↦
      let result : handle_complete_ack session addr_key id success
          ≡ ack_in_state session id success t t.state =
        rw (found) refl in
      rw (result) (ack_state-Resolves session id success t t.state own found)
]

pub handle_reply-Resolves :
    (session : Session) (addr_key id : String) (reply : Reply)
    → OwnId session id
    → Resolves session (handle_reply session addr_key id reply) id
unfolding handle_reply
handle_reply-Resolves session addr_key id (accept offset) own =
    accept-Resolves session addr_key id offset own
handle_reply-Resolves session addr_key id reject own = reject-Resolves session addr_key id own
handle_reply-Resolves session addr_key id (complete_ack success) own =
    ack-Resolves session addr_key id success own

-- Whatever replies arrive about an upload, in any order and from any peers, its outcome is reported
-- at most once: the completions grow by one entry at most.
pub upload_reported_once :
    (session : Session) (id : String) (replies : List (String × Reply))
    → OwnId session id
    → (news : List Completion) × ((after_replies session id replies).completions
        ≡ session.completions ++ news)
      × (length news ≤ 1)
      × (lookup id session.outgoing ≡ none → news ≡ [])
unfolding after_replies
upload_reported_once session id [] own =
    ([], sym (append-nil session.completions), omega arith, λ _. refl)
upload_reported_once session id ((addr_key, reply) ∷ replies) own =
    elim (handle_reply-Resolves session addr_key id reply own) [
      | inl (still, same, gone) ↦
          let (news, grows, short, quiet) =
            upload_reported_once (handle_reply session addr_key id reply) id replies still in
          (news, grows ∙ ap (λ l. l ++ news) same, short, λ h. quiet (gone h))
      | inr (t, found, gone, (c, reported)) ↦
          let (news, grows, short, quiet) =
            upload_reported_once (handle_reply session addr_key id reply) id replies
              (λ u h. absurd (ground arith)) in
          let none_more : news ≡ [] = quiet gone in
          (
            c ∷ [],
            grows ∙ rw (none_more) (append-nil _ ∙ reported),
            omega arith,
            λ h. absurd (ground arith),
          )
    ]
