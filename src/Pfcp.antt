-- ===== src/Pfcp.antt =====
-- PFCP messages: pfcp/udp/pfcp_message_type.go, and what the adapter uses of the package go-pfcp,
-- which is a parameter: an instance of `Pfcp` over a type of messages.
use upfadapter.Prelude.{ℕ, Bool, true, false, Option}
use upfadapter.Net.{Text}

-- The message types that the code names; any other carries its number.
pub data MsgType : Type 0 where
  heartbeat_request heartbeat_response : MsgType
  pfd_management_request pfd_management_response : MsgType
  association_setup_request association_setup_response : MsgType
  association_update_request association_update_response : MsgType
  association_release_request association_release_response : MsgType
  node_report_request node_report_response : MsgType
  session_set_deletion_request session_set_deletion_response : MsgType
  session_establishment_request session_establishment_response : MsgType
  session_modification_request session_modification_response : MsgType
  session_deletion_request session_deletion_response : MsgType
  session_report_request session_report_response : MsgType
  other_type : ℕ → MsgType

-- Marshalling and parsing fail with none; `has_type` is the type assertion to the struct of a type.
pub record Pfcp (M : Type 0) : Type 0 where
  pub message_type : M → MsgType
  pub sequence : M → ℕ
  pub set_sequence : ℕ → M → M
  pub seid : M → ℕ
  pub marshal : M → Option Text
  pub parse : Text → Option M
  pub has_type : MsgType → M → Bool
  pub report_rejection : ℕ → ℕ → M

abbrev pub request_type : MsgType → Bool
request_type heartbeat_request = true
request_type pfd_management_request = true
request_type association_setup_request = true
request_type association_update_request = true
request_type association_release_request = true
request_type node_report_request = true
request_type session_set_deletion_request = true
request_type session_establishment_request = true
request_type session_modification_request = true
request_type session_deletion_request = true
request_type session_report_request = true
request_type _ = false

abbrev pub response_type : MsgType → Bool
response_type heartbeat_response = true
response_type pfd_management_response = true
response_type association_setup_response = true
response_type association_update_response = true
response_type association_release_response = true
response_type node_report_response = true
response_type session_set_deletion_response = true
response_type session_establishment_response = true
response_type session_modification_response = true
response_type session_deletion_response = true
response_type session_report_response = true
response_type _ = false

module _ {M : Type 0} ⦃pfcp : Pfcp M⦄ where
  abbrev pub is_request : M → Bool
  is_request msg = request_type (pfcp.message_type msg)

  abbrev pub is_response : M → Bool
  is_response msg = response_type (pfcp.message_type msg)
