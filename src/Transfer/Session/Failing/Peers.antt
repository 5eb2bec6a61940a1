-- ===== src/Transfer/Session/Failing/Peers.antt =====
-- `_handle_error`: an error message reaches transfers with the peer that sent it, and no others.
use peerc.Common.{
  ◌≡◌, ◌≢◌, refl, sym, ap, ◌∙◌, ◌⊎◌, inl, inr, true, false, Option, none, some, String, str_eq,
  eq_iff, arith, Option-cases, Bool-cases, Result-cases,
}
use peerc.Common.Dicts.{Dict, lookup, remove, lookup-remove}
use peerc.Protocol.Errors.{ErrorInfo, is_terminal_code}
use peerc.TransferState.{incoming_transition_to, outgoing_transition_to}
use peerc.TransferState as TransferState
use peerc.Transfer.Disk.{Disk, Io, whole_chunks}
use peerc.Transfer.Disk.Frame.{write_meta-files}
use peerc.Transfer.Session.{Incoming, Outgoing, Session, Reason, peer_error}
use peerc.Transfer.Session.Receiving.{sidecar_of, device_of}
use peerc.Transfer.Session.Upload.{fail_outgoing}
use peerc.Transfer.Session.Failing.{
  keep_for, keep_partial, incoming_of, outgoing_of, fail_incoming, handle_error,
}

-- Giving a transfer up with its part file kept changes no file.
pub keep_partial-files :
    (io : Io) (t : Incoming) (device : Option String) (disk : Disk)
    → (keep_partial io t device disk).files ≡ disk.files
unfolding keep_partial keep_for
keep_partial-files io t none disk = refl
keep_partial-files io t (some device) disk = elim (Option-cases (lookup t.part_path disk.files)) [
  | inl gone ↦ ground arith
  | inr (content, there) ↦ ground (
    arith,
    write_meta-files io t.part_path (sidecar_of t device (whole_chunks t.bytes_received)) disk,
  )
]

pub fail_outgoing-reach :
    (session : Session) (t : Outgoing) (reason : Reason)
    → ((fail_outgoing session t reason).0.incoming ≡ session.incoming)
      × ((fail_outgoing session t reason).0.disk ≡ session.disk)
      × (((fail_outgoing session t reason).0.outgoing ≡ session.outgoing)
          ⊎ ((fail_outgoing session t reason).0.outgoing ≡ remove t.transfer_id session.outgoing))
unfolding fail_outgoing
fail_outgoing-reach session t reason =
    elim (Result-cases (outgoing_transition_to t.state TransferState.OutgoingState.failed)) [
      | inl (e, late) ↦ (ground arith, ground arith, inl (ground arith))
      | inr (state, moved) ↦ (ground arith, ground arith, inr (ground arith))
    ]

-- Taking out an entry with one address keeps every entry with another.
pub others_kept :
    {V : Type 0} (name : V → String) (address : V → String) (before after : Dict V)
    (id j a : String) (u t : V)
    → lookup id before ≡ some u
    → name u ≡ id
    → address u ≡ a
    → lookup j before ≡ some t
    → address t ≢ a
    → (after ≡ before) ⊎ (after ≡ remove (name u) before)
    → lookup j after ≡ some t
others_kept name address before after id j a u t found called own h other (inl same) = rw (same) h
others_kept name address before after id j a u t found called own h other (inr taken) =
    elim (Bool-cases (str_eq (name u) j)) [
      | inr apart ↦ rw (taken) (ground (arith, lookup-remove (name u) j before))
      | inl here ↦
          let at_j : id ≡ j = ground (arith, eq_iff (name u) j) in
          let there : lookup j before ≡ some u = ap (λ k. lookup k before) (sym at_j) ∙ found in
          let same : u ≡ t = ground arith in absurd (other (ap address (sym same) ∙ own))
    ]

outgoing_of-some :
    (addr_key : String) (o : Option Outgoing) (t : Outgoing)
    → outgoing_of addr_key o ≡ some t
    → (o ≡ some t) × (t.addr_key ≡ addr_key)
outgoing_of-some addr_key none t h = absurd (ground arith)
outgoing_of-some addr_key (some u) t h = elim (Bool-cases (str_eq u.addr_key addr_key)) [
  | inl with_it ↦
      let same : some u ≡ some t = sym (rw (with_it) refl) ∙ h in
      (same, ground (arith, eq_iff u.addr_key addr_key))
  | inr other ↦ absurd (ground arith)
]

incoming_of-some :
    (addr_key : String) (o : Option Incoming) (t : Incoming)
    → incoming_of addr_key o ≡ some t
    → (o ≡ some t) × (t.addr_key ≡ addr_key)
incoming_of-some addr_key none t h = absurd (ground arith)
incoming_of-some addr_key (some u) t h = elim (Bool-cases (str_eq u.addr_key addr_key)) [
  | inl with_it ↦
      let same : some u ≡ some t = sym (rw (with_it) refl) ∙ h in
      (same, ground (arith, eq_iff u.addr_key addr_key))
  | inr other ↦ absurd (ground arith)
]

module _ (getter : String → Option String) where
  pub fail_incoming-reach :
      (io : Io) (session : Session) (t : Incoming) (reason : Reason)
      → let after = (fail_incoming getter io session t reason).0 in
        (after.outgoing ≡ session.outgoing)
        × (after.disk.files ≡ session.disk.files)
        × ((after.incoming ≡ session.incoming)
            ⊎ (after.incoming ≡ remove t.transfer_id session.incoming))
  unfolding fail_incoming
  fail_incoming-reach io session t reason =
      elim (Result-cases (incoming_transition_to t.state TransferState.IncomingState.failed)) [
        | inl (e, late) ↦ (ground arith, ground arith, inl (ground arith))
        | inr (state, moved) ↦ (
          ground arith,
          ground (arith, keep_partial-files io t (device_of getter t) session.disk),
          inr (ground arith),
        )
      ]

  -- An error changes nothing, or fails one transfer with the peer that sent it, and then its code is
  -- a terminal one.
  pub handle_error-cases :
      (io : Io) (session : Session) (addr_key : String) (info : ErrorInfo)
      → let after = handle_error getter io session addr_key info in
        (after ≡ session)
        ⊎ ((id : String) × (t : Outgoing) × (lookup id session.outgoing ≡ some t)
            × (t.addr_key ≡ addr_key)
            × (is_terminal_code info.code ≡ true)
            × (after ≡ (fail_outgoing session t (peer_error info.code)).0))
        ⊎ ((id : String) × (t : Incoming) × (lookup id session.incoming ≡ some t)
            × (t.addr_key ≡ addr_key)
            × (is_terminal_code info.code ≡ true)
            × (after ≡ (fail_incoming getter io session t (peer_error info.code)).0))
  unfolding handle_error
  handle_error-cases io session addr_key info = elim (Option-cases info.transfer_id) [
    | inl nothing ↦ inl (ground arith)
    | inr (id, about) ↦ elim (Bool-cases (is_terminal_code info.code)) [
      | inr passing ↦ inl (ground arith)
      | inl final ↦ elim (Option-cases (outgoing_of addr_key (lookup id session.outgoing))) [
        | inr (t, out) ↦
            let (found, own) = outgoing_of-some addr_key (lookup id session.outgoing) t out in
            inr (inl (id, t, found, own, final, ground arith))
        | inl no_out ↦ elim (Option-cases (incoming_of addr_key (lookup id session.incoming))) [
          | inr (t, inc) ↦
              let (found, own) = incoming_of-some addr_key (lookup id session.incoming) t inc in
              inr (inr (id, t, found, own, final, ground arith))
          | inl no_inc ↦ inl (ground arith)
        ]
      ]
    ]
  ]

  -- An error message whose code is not terminal changes nothing. Any error message leaves every file
  -- as it is, and every transfer with another peer than the one that sent it, where the transfers are
  -- registered under their own ids.
  handle_error_own_peer :
      (io : Io) (session : Session) (addr_key : String) (info : ErrorInfo)
      → ((j : String) (t : Outgoing) → lookup j session.outgoing ≡ some t → t.transfer_id ≡ j)
      → ((j : String) (t : Incoming) → lookup j session.incoming ≡ some t → t.transfer_id ≡ j)
      → let after = handle_error getter io session addr_key info in
        (is_terminal_code info.code ≡ false → after ≡ session)
        × (after.disk.files ≡ session.disk.files)
        × ((j : String) (t : Outgoing)
            → lookup j session.outgoing ≡ some t
            → t.addr_key ≢ addr_key
            → lookup j after.outgoing ≡ some t)
        × ((j : String) (t : Incoming)
            → lookup j session.incoming ≡ some t
            → t.addr_key ≢ addr_key
            → lookup j after.incoming ≡ some t)
  handle_error_own_peer io session addr_key info outs ins =
      elim (handle_error-cases io session addr_key info) [
        | inl same ↦ rw (same) (λ _. refl, refl, λ j t h _. h, λ j t h _. h)
        | inr (inl (id, u, found, own, final, result)) ↦
            let (incoming, disk, outgoing) = fail_outgoing-reach session u (peer_error info.code) in
            rw (result) (
              λ passing. absurd (ground arith),
              ap (λ (d : Disk). d.files) disk,
              λ j t h other.
                  others_kept (λ (v : Outgoing). v.transfer_id) (λ (v : Outgoing). v.addr_key)
                    session.outgoing (fail_outgoing session u (peer_error info.code)).0.outgoing id
                    j addr_key u t found (outs id u found) own h other outgoing,
              λ j t h _. rw (incoming) h,
            )
        | inr (inr (id, u, found, own, final, result)) ↦
            let (outgoing, files, incoming) =
              fail_incoming-reach io session u (peer_error info.code) in
            rw (result) (
              λ passing. absurd (ground arith),
              files,
              λ j t h _. rw (outgoing) h,
              λ j t h other.
                  others_kept (λ (v : Incoming). v.transfer_id) (λ (v : Incoming). v.addr_key)
                    session.incoming
                    (fail_incoming getter io session u (peer_error info.code)).0.incoming id j
                    addr_key u t found (ins id u found) own h other incoming,
            )
      ]
