-- ===== src/Protocol/Messages/Make.antt =====
-- core/protocol/messages.py: the messages that this device sends.
pub mod Sessions
pub mod Groups
pub mod Relays
unfoldable pub use peerc.Protocol.Messages.Make.Sessions.{
  make_chat_message, make_chat_ack, make_file_offer, make_file_accept, make_file_reject,
  make_file_chunk, make_file_done, make_file_complete_ack, make_hello, make_hello_ack,
  make_endpoint_update, make_handshake_init, make_handshake_response, make_handshake_finish,
}
unfoldable pub use peerc.Protocol.Messages.Make.Groups.{
  make_group_join_request, make_group_join_response, make_group_leave_request,
  make_group_leave_response, make_group_membership_revoke, make_group_export_request,
  make_group_export_capability,
}
unfoldable pub use peerc.Protocol.Messages.Make.Relays.{
  make_rendezvous_register, make_rendezvous_lookup, make_rendezvous_lookup_response,
  make_relay_request, make_relay_candidate_query, make_relay_candidate_response,
  make_relay_response,
}
