-- ===== src/Report.antt =====
-- Session reports through the adapter: HandlePfcpSessionReportRequest,
-- HandlePfcpSessionReportResponse and what they call of pfcp/handler/handler.go. A handler is one
-- step here; Go runs it in a goroutine of its own, which Goroutine follows call by call.
pub mod Outcomes
pub mod Relaying
pub mod Handling
pub mod Returning
pub mod Kept
mod Tests
use upfadapter.Prelude.{ℕ, zero, suc, Bool, Option, none, some, if◌then◌else◌}
use upfadapter.Net.{Net, UdpAddr, Ip}
use upfadapter.Pfcp.{Pfcp, session_report_request, session_report_response}
use upfadapter.Relay.{
  RelayTable, relay_generation, relay_report_sequence, renumber_report_relay, take_report_relay,
  forget_report_relay, fresh, retransmission, peer_released, sequence_exhausted, nil_dereference,
  renumbered, not_held, exhausted,
}
use upfadapter.Peers.{Peers, is_known_upf_addr}
use upfadapter.Udp.{send_pfcp}
use upfadapter.Udp.Tables.{Server, SendError, duplicate_sequence}
use upfadapter.Smf.{smf_addr}

-- The event data of a relayed report, with the SEID that its error handler holds, of an answer, of a
-- request of the SMF, and nil.
pub data EventData : Type 0 where
  relayed_report : ℕ → EventData
  answer_returned : EventData
  forwarded_request : EventData
  unattended : EventData

-- The state that the handlers share.
pub record World (H : Type 0) : Type 0 where
  pub peers : Peers H
  pub smf : Ip
  pub server : Option (Server EventData)

abbrev pub relay_send_attempts : ℕ
relay_send_attempts = 4

abbrev pub relays_of : {H : Type 0} → World H → RelayTable
relays_of w = w.peers.relay_table

abbrev pub with_relays : {H : Type 0} → RelayTable → World H → World H
with_relays t w = record w { peers = record w.peers { relay_table = t } }

module _ (M : Type 0) {H : Type 0} ⦃net : Net⦄ ⦃pfcp : Pfcp M⦄ where
  abbrev pub send : M → UdpAddr → EventData → World H → World H × Option SendError
  send msg addr event_data w =
      let (server, err) = send_pfcp msg addr event_data w.server in
      (record w { server = server }, err)

  -- rejectSessionReport
  unfoldable pub reject_session_report : ℕ → ℕ → UdpAddr → World H → World H × Option SendError
  reject_session_report seid upf_seq addr w =
      send (pfcp.report_rejection seid upf_seq) addr answer_returned w

  -- refuseAndRelease
  unfoldable pub refuse_and_release : ℕ → ℕ → UdpAddr → ℕ → World H → World H
  refuse_and_release seid upf_seq addr relay_seq w =
      let w' = (reject_session_report seid upf_seq addr w).0 in
      with_relays (forget_report_relay relay_seq (relays_of w')) w'

  -- The error handler of a relayed report, given the number that it was sent under.
  unfoldable pub relay_unanswered : ℕ → ℕ → ℕ → World H → World H
  relay_unanswered seid seq now w =
      let (t, taken) = take_report_relay seq now (relays_of w) in
      elim taken [
        | none ↦ with_relays t w
        | some (addr, upf_seq) ↦ refuse_and_release seid upf_seq addr seq (with_relays t w)
      ]

  -- The loop of HandlePfcpSessionReportRequest, with the attempts left.
  unfoldable pub relay_loop : ℕ → M → UdpAddr → UdpAddr → ℕ → World H → World H
  relay_loop zero report smf addr relay_seq w =
      refuse_and_release (pfcp.seid report) (pfcp.sequence report) addr relay_seq w
  relay_loop (suc attempts) report smf addr relay_seq w =
      let seid = pfcp.seid report in
      let (w1, err) = send (pfcp.set_sequence relay_seq report) smf (relayed_report seid) w in
      elim err [
        | none ↦ w1
        | some duplicate_sequence ↦
            let (t, result) = renumber_report_relay relay_seq (relays_of w1) in
            let w2 = with_relays t w1 in
            elim result [
              | not_held ↦ w2
              | exhausted ↦ refuse_and_release seid (pfcp.sequence report) addr relay_seq w2
              | renumbered next ↦ relay_loop attempts report smf addr next w2
            ]
        | some _ ↦ refuse_and_release seid (pfcp.sequence report) addr relay_seq w1
      ]

  -- HandlePfcpSessionReportRequest once the SMF's address is there; none where Go dereferences nil.
  unfoldable pub relay_report : M → UdpAddr → UdpAddr → ℕ → ℕ → World H → Option (World H)
  relay_report report smf addr authorised_under now w =
      let upf_seq = pfcp.sequence report in
      let (t, claim) = relay_report_sequence addr upf_seq now authorised_under (relays_of w) in
      let w1 = with_relays t w in
      elim claim [
        | peer_released ↦ some w1
        | nil_dereference ↦ none
        | sequence_exhausted ↦ some (reject_session_report (pfcp.seid report) upf_seq addr w1).0
        | retransmission seq ↦ some w1
        | fresh seq ↦ some (relay_loop relay_send_attempts report smf addr seq w1)
      ]

  -- HandlePfcpSessionReportRequest, with the times of its test of the source and of its claim.
  unfoldable pub handle_pfcp_session_report_request :
      M → Option UdpAddr → ℕ → ℕ → World H → Option (World H)
  handle_pfcp_session_report_request report none checked now w = some w
  handle_pfcp_session_report_request report (some addr) checked now w =
      let authorised_under = relay_generation (net.ip_string addr.ip) (relays_of w) in
      if pfcp.has_type session_report_request report
      then if is_known_upf_addr addr.ip checked w.peers
        then elim (smf_addr w.smf) [
          | none ↦ some (reject_session_report (pfcp.seid report) (pfcp.sequence report) addr w).0
          | some smf ↦ relay_report report smf addr authorised_under now w
        ]
        else some w
      else some w

  -- HandlePfcpSessionReportResponse
  unfoldable pub handle_pfcp_session_report_response : M → ℕ → World H → World H
  handle_pfcp_session_report_response response now w =
      let relay_seq = pfcp.sequence response in
      let (t, taken) = take_report_relay relay_seq now (relays_of w) in
      let w1 = with_relays t w in
      if pfcp.has_type session_report_response response
      then elim taken [
        | none ↦ w1
        | some (addr, upf_seq) ↦
            let w2 = (send (pfcp.set_sequence upf_seq response) addr answer_returned w1).0 in
            with_relays (forget_report_relay relay_seq (relays_of w2)) w2
      ]
      else w
