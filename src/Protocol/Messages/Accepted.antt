-- ===== src/Protocol/Messages/Accepted.antt =====
-- The messages that this device sends pass the check at the other end.
use peerc.Common.{
  ◌≡◌, refl, inl, inr, List, [], ◌∷◌, none, some, true, false, String, str_eq, eq_iff, ok, arith,
  Bool-cases, ◌==◌,
}
use peerc.Protocol.Values.{object, Fields, get, all_texts}
use peerc.Protocol.Schema.{required_fields, missing}
use peerc.Protocol.Messages.{check_fields, validate_message, validate_endpoint_update_dict}
use peerc.Protocol.Messages.Parts.{texts}
use peerc.Protocol.Messages.Make.{
  make_chat_message, make_chat_ack, make_file_offer, make_file_accept, make_file_reject,
  make_file_chunk, make_file_done, make_file_complete_ack, make_hello, make_hello_ack,
  make_endpoint_update, make_handshake_init, make_handshake_response, make_handshake_finish,
  make_group_join_request, make_group_join_response, make_group_leave_request,
  make_group_leave_response, make_group_membership_revoke, make_group_export_request,
  make_group_export_capability, make_rendezvous_lookup, make_relay_request,
  make_relay_candidate_query, make_relay_candidate_response, make_relay_response,
  make_rendezvous_register, make_rendezvous_lookup_response,
}
use peerc.Protocol.Messages.Sent.{
  Sent, message_of, Filled, IsSendable, chat, chat_ack, file_offer, file_accept, file_reject,
  file_chunk, file_done, file_complete_ack, hello, hello_ack, endpoint_update, handshake_init,
  handshake_response, handshake_finish, group_join_request, group_join_response,
  group_leave_request, group_leave_response, group_membership_revoke, group_export_request,
  group_export_capability, rendezvous_lookup, relay_request, relay_candidate_query,
  relay_candidate_response, relay_response, rendezvous_register, rendezvous_lookup_response,
  IsUpdate,
}

no_text : (s : String) → Filled s → str_eq s "" ≡ false
no_text s h = ground (arith, eq_iff s "")

all_texts-texts : (ss : List String) → all_texts (texts ss) ≡ true
unfolding all_texts
all_texts-texts [] = refl
all_texts-texts (s ∷ ss) = all_texts-texts ss

update-accepted :
    (parent : String) (eu : Fields) → IsUpdate eu → validate_endpoint_update_dict parent eu ≡ ok tt
unfolding validate_endpoint_update_dict
update-accepted parent eu
      (
        device_id,
        kind,
        host,
        nonce,
        signature,
        port,
        timestamp,
        (d, d0),
        (k, k0, k1),
        (h, h0),
        (n, n0),
        (s, s0),
        (p, p0, p1),
        t,
      ) =
    ground (
      arith,
      no_text device_id d0,
      no_text kind k0,
      no_text host h0,
      no_text nonce n0,
      no_text signature s0,
    )

-- Every message but an error that this device makes for its callers passes `validate_message` at the
-- peer, where ids, names and signatures are not empty, ports and endpoint kinds are valid, also those
-- of an endpoint update that a rendezvous message carries, the text of a chat message is within the
-- limit, and an approval has its certificate or revocation.
pub sent-accepted : (s : Sent) → IsSendable s → validate_message (object (message_of s)) ≡ ok tt
unfolding validate_message required_fields missing check_fields get message_of make_chat_message
    make_chat_ack make_file_offer make_file_accept make_file_reject make_file_chunk make_file_done
    make_file_complete_ack make_hello make_hello_ack make_endpoint_update make_handshake_init
    make_handshake_response make_handshake_finish make_group_join_request make_group_join_response
    make_group_leave_request make_group_leave_response make_group_membership_revoke
    make_group_export_request make_group_export_capability make_rendezvous_lookup make_relay_request
    make_relay_candidate_query make_relay_candidate_response make_relay_response
    make_rendezvous_register make_rendezvous_lookup_response
sent-accepted (chat now message_id sender_id sender_name content) h0 = ground arith
sent-accepted (chat_ack now message_id) h = refl
sent-accepted (file_offer now transfer_id sender_id sender_name filename size checksum) (h0, h1) =
    rw (no_text filename h0, no_text checksum h1) refl
sent-accepted (file_accept now transfer_id resume_offset) h =
    elim (Bool-cases (resume_offset == 0)) [ inl e ↦ rw (e) refl | inr e ↦ rw (e) refl ]
sent-accepted (file_reject now transfer_id) h = refl
sent-accepted (file_chunk transfer_id chunk_index data_b64 is_last) h = refl
sent-accepted (file_done transfer_id checksum) h = refl
sent-accepted (file_complete_ack transfer_id success detail) h = refl
sent-accepted (hello now peer_id sender_name tcp_port) (h0, h1) = ground arith
sent-accepted (hello_ack now peer_id sender_name tcp_port) (h0, h1) = ground arith
sent-accepted (endpoint_update device_id kind host port timestamp nonce signature) (h0, h1, h2) =
    ground arith
sent-accepted (handshake_init now device_id public_key ephemeral_key nonce sender_name)
      (h0, h1, h2, h3) =
    rw (no_text device_id h0, no_text public_key h1, no_text ephemeral_key h2, no_text nonce h3)
      refl
sent-accepted
      (handshake_response now device_id public_key ephemeral_key nonce sender_name signature)
      (h0, h1, h2, h3, h4) =
    rw
      (
        no_text device_id h0,
        no_text public_key h1,
        no_text ephemeral_key h2,
        no_text nonce h3,
        no_text signature h4,
      )
      refl
sent-accepted (handshake_finish now signature) h0 = rw (no_text signature h0) refl
sent-accepted
      (group_join_request now request_id group_id device_id device_public_key requested_role
        requested_permissions signature reason timestamp)
      (h0, h1, h2, h3, h4) =
    rw
      (
        no_text group_id h0,
        no_text device_id h1,
        no_text signature h2,
        no_text device_public_key h3,
        no_text requested_role h4,
        all_texts-texts requested_permissions,
      )
      refl
sent-accepted
      (group_join_response now request_id group_id device_id approved admin_device_id signature
        certificate reason timestamp)
      (h0, h1, h2, h3, h4) =
    elim (Bool-cases approved) [
      | inl yes_ ↦
          rw
            (
              no_text group_id h0,
              no_text device_id h1,
              no_text signature h2,
              no_text admin_device_id h3,
              yes_,
              h4 yes_,
            )
            refl
      | inr no_ ↦
          rw
            (
              no_text group_id h0,
              no_text device_id h1,
              no_text signature h2,
              no_text admin_device_id h3,
              no_,
            )
            refl
    ]
sent-accepted (group_leave_request now request_id group_id device_id signature reason timestamp)
      (h0, h1, h2) =
    rw (no_text group_id h0, no_text device_id h1, no_text signature h2) refl
sent-accepted
      (group_leave_response now request_id group_id device_id approved admin_device_id signature
        revocation reason timestamp)
      (h0, h1, h2, h3, h4) =
    elim (Bool-cases approved) [
      | inl yes_ ↦
          rw
            (
              no_text group_id h0,
              no_text device_id h1,
              no_text signature h2,
              no_text admin_device_id h3,
              yes_,
              h4 yes_,
            )
            refl
      | inr no_ ↦
          rw
            (
              no_text group_id h0,
              no_text device_id h1,
              no_text signature h2,
              no_text admin_device_id h3,
              no_,
            )
            refl
    ]
sent-accepted
      (group_membership_revoke now revocation_id group_id device_id revoked_by signature reason
        timestamp)
      (h0, h1, h2, h3, h4) =
    rw
      (
        no_text group_id h0,
        no_text device_id h1,
        no_text signature h2,
        no_text revocation_id h3,
        no_text revoked_by h4,
      )
      refl
sent-accepted
      (group_export_request now request_id group_id device_id device_public_key file_id signature
        action reason timestamp)
      (h0, h1, h2, h3, h4) =
    rw
      (
        no_text group_id h0,
        no_text device_id h1,
        no_text signature h2,
        no_text device_public_key h3,
        no_text file_id h4,
      )
      refl
sent-accepted
      (group_export_capability capability_id request_id group_id device_id file_id issued_at
        expires_at nonce admin_device_id signature action)
      (h0, h1, h2, h3, h4, h5, h6) =
    rw
      (
        no_text group_id h0,
        no_text device_id h1,
        no_text signature h2,
        no_text capability_id h3,
        no_text file_id h4,
        no_text nonce h5,
        no_text admin_device_id h6,
      )
      refl
sent-accepted (rendezvous_lookup now group_id target_device_id) (h0, h1) =
    rw (no_text group_id h0, no_text target_device_id h1) refl
sent-accepted (relay_request now group_id target_device_id) (h0, h1) =
    rw (no_text group_id h0, no_text target_device_id h1) refl
sent-accepted (relay_candidate_query now group_id) h0 = rw (no_text group_id h0) refl
sent-accepted (relay_candidate_response now group_id available) h0 = rw (no_text group_id h0) refl
sent-accepted (relay_response now group_id target_device_id accepted) (h0, h1) =
    rw (no_text group_id h0, no_text target_device_id h1) refl
sent-accepted (rendezvous_register now group_id update) (h0, h1) =
    rw (no_text group_id h0, update-accepted "rendezvous_register.endpoint_update" update h1) refl
sent-accepted (rendezvous_lookup_response now group_id target_device_id none) (h0, h1) =
    rw (no_text group_id h0, no_text target_device_id h1) refl
sent-accepted (rendezvous_lookup_response now group_id target_device_id (some update))
      (h0, h1, h2) =
    rw
      (
        no_text group_id h0,
        no_text target_device_id h1,
        update-accepted "rendezvous_lookup_response.endpoint_update" update h2,
      )
      refl
