-- ===== src/Handlers.antt =====
-- The handlers of user planes' answers to the SMF's requests, the dispatcher and the error handlers:
-- pfcp/handler/handler.go, pfcp/dispatcher.go, and the error handlers that startTxLifeCycle of
-- pfcp/udp/udp.go calls. Each runs as one step.
pub mod Stable
pub mod Mailbox
pub mod Answers
use upfadapter.Prelude.{ℕ, Bool, true, false, Option, none, some, List, ◌==◌, if◌then◌else◌}
use upfadapter.Net.{Net, Text, UdpAddr}
use upfadapter.Pfcp.{
  Pfcp, MsgType, heartbeat_request, heartbeat_response, association_setup_request,
  association_setup_response, session_establishment_request, session_establishment_response,
  session_modification_request, session_modification_response, session_deletion_request,
  session_deletion_response, session_report_request, session_report_response,
}
use upfadapter.Elements.{Elements}
use upfadapter.Node.{new_node_id}
use upfadapter.Upfs.{accept_association}
use upfadapter.Udp.Tables.{Transaction}
use upfadapter.LifeCycle.{Outcome, Round, start_tx_life_cycle}
use upfadapter.Waiting.{get_upf_pfcp_txn}
use upfadapter.Report.{
  EventData, relayed_report, answer_returned, forwarded_request, unattended, relay_unanswered,
  handle_pfcp_session_report_request, handle_pfcp_session_report_response,
}
use upfadapter.Adapter.{HttpRsp, rsp, err, Adapter, Ran, done, locked_out, blocks, panics, put}

-- The types that HandlePfcpSendError reports to whoever waits.
abbrev pub is_reported : MsgType → Bool
is_reported association_setup_request = true
is_reported heartbeat_request = true
is_reported session_establishment_request = true
is_reported session_modification_request = true
is_reported session_deletion_request = true
is_reported _ = false

-- The error handler that startTxLifeCycle finds, if there is one.
abbrev pub held_handler : EventData → Option EventData
held_handler unattended = none
held_handler event_data = some event_data

module _ {M : Type 0} where
  -- The end of sendErrRsp and of encodeAndSendRsp: to whoever waits for the number, if anyone does.
  unfoldable pub send_to_waiting : ℕ → HttpRsp → Adapter M → Ran (Adapter M)
  send_to_waiting seq answer a =
      let (t, chan) = get_upf_pfcp_txn seq a.txns in
      elim chan [
        | none ↦ done (record a { txns = t })
        | some c ↦ put c answer (record a { txns = t })
      ]

module _ {M : Type 0} ⦃pfcp : Pfcp M⦄ where
  -- sendErrRsp
  pub send_err_rsp : M → Outcome → Adapter M → Ran (Adapter M)
  send_err_rsp msg outcome a = send_to_waiting (pfcp.sequence msg) (err outcome) a

  -- encodeAndSendRsp; its error is only logged.
  unfoldable pub encode_and_send_rsp : M → Adapter M → Ran (Adapter M)
  encode_and_send_rsp msg a = elim (pfcp.marshal msg) [
    | none ↦ done a
    | some bytes ↦ send_to_waiting (pfcp.sequence msg) (rsp bytes) a
  ]

  -- HandlePfcpSendError
  pub handle_pfcp_send_error : M → Outcome → Adapter M → Ran (Adapter M)
  handle_pfcp_send_error msg outcome a =
      if is_reported (pfcp.message_type msg) then send_err_rsp msg outcome a else done a

  -- The handlers of session establishment, modification and deletion responses, which differ in the
  -- type that they assert.
  pub handle_session_response : MsgType → M → Adapter M → Ran (Adapter M)
  handle_session_response type msg a =
      if pfcp.has_type type msg then encode_and_send_rsp msg a else done a

  -- HandlePfcpSessionEstablishmentResponse
  abbrev pub handle_pfcp_session_establishment_response : M → Adapter M → Ran (Adapter M)
  handle_pfcp_session_establishment_response msg a =
      handle_session_response session_establishment_response msg a

  -- HandlePfcpSessionModificationResponse
  abbrev pub handle_pfcp_session_modification_response : M → Adapter M → Ran (Adapter M)
  handle_pfcp_session_modification_response msg a =
      handle_session_response session_modification_response msg a

  -- HandlePfcpSessionDeletionResponse
  abbrev pub handle_pfcp_session_deletion_response : M → Adapter M → Ran (Adapter M)
  handle_pfcp_session_deletion_response msg a =
      handle_session_response session_deletion_response msg a

module _ {M : Type 0} ⦃net : Net⦄ ⦃pfcp : Pfcp M⦄ ⦃elements : Elements M⦄ where
  -- HandlePfcpHeartbeatResponse
  unfoldable pub handle_pfcp_heartbeat_response : M → Adapter M → Ran (Adapter M)
  handle_pfcp_heartbeat_response msg a =
      if pfcp.has_type heartbeat_response msg
      then elim (elements.recovery_time_stamp msg) [
        | none ↦ done a
        | some _ ↦ encode_and_send_rsp msg a
      ]
      else done a

  -- HandlePfcpAssociationSetupResponse past its cause, `order` being that of the range over the nodes.
  unfoldable pub accepted_association : List Text → M → Adapter M → Ran (Adapter M)
  accepted_association order msg a = elim (elements.node_id msg) [
    | none ↦ done a
    | some name ↦ elim (accept_association order (new_node_id name) msg a.upfs) [
      | none ↦ panics
      | some (upfs, stores) ↦
          if stores
          then encode_and_send_rsp msg (record a { upfs = upfs })
          else locked_out (record a { upfs = upfs })
    ]
  ]

  -- HandlePfcpAssociationSetupResponse
  unfoldable pub handle_pfcp_association_setup_response :
      List Text → M → Adapter M → Ran (Adapter M)
  handle_pfcp_association_setup_response order msg a =
      if pfcp.has_type association_setup_response msg
      then elim (elements.recovery_time_stamp msg) [
        | none ↦ done a
        | some _ ↦ elim (elements.cause msg) [
          | none ↦ done a
          | some cause ↦
              if cause == elements.cause_request_accepted
              then accepted_association order msg a
              else encode_and_send_rsp msg a
        ]
      ]
      else done a

  -- The handler of a session report request, on the state that it has.
  pub handle_report : M → UdpAddr → ℕ → ℕ → Adapter M → Ran (Adapter M)
  handle_report msg addr checked now a =
      elim (handle_pfcp_session_report_request M msg (some addr) checked now a.world) [
        | none ↦ panics
        | some world ↦ done (record a { world = world })
      ]

  -- Dispatch. What a handler reads beside the state is given: the order of a range and the times.
  unfoldable pub dispatch_type :
      MsgType → List Text → ℕ → ℕ → M → UdpAddr → Adapter M → Ran (Adapter M)
  dispatch_type heartbeat_response order checked now msg addr a =
      handle_pfcp_heartbeat_response msg a
  dispatch_type association_setup_response order checked now msg addr a =
      handle_pfcp_association_setup_response order msg a
  dispatch_type session_establishment_response order checked now msg addr a =
      handle_pfcp_session_establishment_response msg a
  dispatch_type session_modification_response order checked now msg addr a =
      handle_pfcp_session_modification_response msg a
  dispatch_type session_deletion_response order checked now msg addr a =
      handle_pfcp_session_deletion_response msg a
  dispatch_type session_report_request order checked now msg addr a =
      handle_report msg addr checked now a
  dispatch_type session_report_response order checked now msg addr a =
      done (record a { world = handle_pfcp_session_report_response M msg now a.world })
  dispatch_type _ order checked now msg addr a = done a

  unfoldable pub dispatch : List Text → ℕ → ℕ → M → UdpAddr → Adapter M → Ran (Adapter M)
  dispatch order checked now msg addr a =
      dispatch_type (pfcp.message_type msg) order checked now msg addr a

  -- The error handler that a transaction's event data holds.
  pub error_handler : EventData → M → Outcome → ℕ → Adapter M → Ran (Adapter M)
  error_handler (relayed_report seid) msg outcome now a =
      done (record a { world = relay_unanswered M seid (pfcp.sequence msg) now a.world })
  error_handler answer_returned msg outcome now a = done a
  error_handler forwarded_request msg outcome now a = handle_pfcp_send_error msg outcome a
  error_handler unattended msg outcome now a = done a

  -- startTxLifeCycle with the error handlers that the adapter sends with.
  pub finish_transaction : Transaction EventData → (ℕ → Round) → ℕ → Adapter M → Ran (Adapter M)
  finish_transaction tx rounds now a = elim a.world.server [
    | none ↦ done a
    | some server ↦
        let (server', failure) = start_tx_life_cycle {M = M} held_handler tx rounds server in
        let a' : Adapter M = record a { world = record a.world { server = some server' } } in
        elim failure [
          | none ↦ done a'
          | some (event_data, msg, outcome) ↦ error_handler event_data msg outcome now a'
        ]
  ]
