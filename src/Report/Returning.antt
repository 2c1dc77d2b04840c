-- ===== src/Report/Returning.antt =====
-- The way back: HandlePfcpSessionReportResponse and the error handler of a relayed report, of pfcp/handler/handler.go.
use upfadapter.Prelude.{
  then_branch, ℕ, ◌≡◌, ap, ◌∙◌, true, Option, none, some, List, ite, ℕ_discrete, nat_key, lookup,
}
use upfadapter.Net.{Net, UdpAddr}
use upfadapter.Pfcp.{Pfcp, response_type, is_response, session_report_response}
use upfadapter.Relay.{RelayTable, take_report_relay, forget_report_relay}
use upfadapter.Relay.Index.{lookup-forget_report_relay}
use upfadapter.Udp.Tables.{Transaction, Server}
use upfadapter.Report.{
  refuse_and_release, relay_unanswered, EventData, answer_returned, World, relays_of, with_relays,
  send, handle_pfcp_session_report_response,
}
use upfadapter.Report.Outcomes.{
  IsOpen, Encodes, Answered, send-Answered, reject_session_report-absorbs,
}

module _ {M H : Type 0} ⦃net : Net⦄ ⦃pfcp : Pfcp M⦄ (laws : Encodes M) where
  abbrev after_take : M → World H → RelayTable × Option (UdpAddr × ℕ) → World H
  after_take response w r =
      let w1 = with_relays r.0 w in
      elim r.1 [
        | none ↦ w1
        | some (addr, upf_seq) ↦
            let w2 = (send M (pfcp.set_sequence upf_seq response) addr answer_returned w1).0 in
            with_relays (forget_report_relay (pfcp.sequence response) (relays_of w2)) w2
      ]

  -- With an open socket whose tables no two consumers share, messages that can be encoded and
  -- numbers that can be set on them, a session report response of the SMF whose relay is taken is
  -- returned: one transaction is started, which carries the response, under the user plane's own
  -- number, to the address that raised the report, unless that number was answered there before, and
  -- then none is. Either way the number is answered there, and then the relay is gone, and no other.
  pub handle_pfcp_session_report_response_returns :
      (response : M) (now upf_seq : ℕ) (addr : UdpAddr) (old : List (Transaction EventData))
      (w : World H) (t : RelayTable) (o : IsOpen old w)
      → pfcp.has_type session_report_response response ≡ true
      → is_response response ≡ true
      → take_report_relay (pfcp.sequence response) now (relays_of w) ≡ (t, some (addr, upf_seq))
      → (socket : Server EventData) × ((handle_pfcp_session_report_response M response now w).server
          ≡ some socket)
        × Answered (pfcp.set_sequence upf_seq response) upf_seq addr o.socket socket
        × ((k : ℕ)
            → lookup k (relays_of (handle_pfcp_session_report_response M response now w)).relays
              ≡ ite (ℕ_discrete (pfcp.sequence response) k) none (lookup k t.relays))
  unfolding handle_pfcp_session_report_response
  handle_pfcp_session_report_response_returns response now upf_seq addr old w t o typed answer
        taken =
      let relay_seq = pfcp.sequence response in
      let msg = pfcp.set_sequence upf_seq response in
      let w1 = with_relays t w in
      let (s', sent, v, answered) =
        send-Answered response addr addr old laws msg upf_seq w1
          (record {
            socket = o.socket;
            there = o.there;
            listens = o.listens;
            separate = o.separate;
            began = o.began;
          })
          (laws.set_sequence_number upf_seq response)
          (ap response_type (laws.set_sequence_type upf_seq response) ∙ answer) in
      let result : World H =
        with_relays (forget_report_relay relay_seq t) (record w1 { server = some s' }) in
      let step : handle_pfcp_session_report_response M response now w ≡ result =
        then_branch w typed
        ∙ ap (after_take response w) taken
        ∙ ap (λ u. with_relays (forget_report_relay relay_seq (relays_of u)) u) sent in
      (
        s',
        ap (λ u. u.server) step,
        answered,
        λ k.
            ap (λ u. lookup k (relays_of u).relays) step ∙ lookup-forget_report_relay k relay_seq t,
      )

  abbrev after_timeout : ℕ → ℕ → World H → RelayTable × Option (UdpAddr × ℕ) → World H
  after_timeout seid seq w r = elim r.1 [
    | none ↦ with_relays r.0 w
    | some (addr, upf_seq) ↦ refuse_and_release M seid upf_seq addr seq (with_relays r.0 w)
  ]

  -- With an open socket whose tables no two consumers share, messages that can be encoded and
  -- rejections that are responses with the number they are given, a relayed report that the SMF did
  -- not answer is refused, if its relay can be taken: one transaction is started, which carries the
  -- rejection for its SEID, under the user plane's own number, to the address that raised the report,
  -- unless that number was answered there before, and then none is. Either way the number is answered
  -- there, and then the relay is gone, and no other.
  pub relay_unanswered_refuses :
      (seid seq now upf_seq : ℕ) (addr : UdpAddr) (old : List (Transaction EventData)) (w : World H)
      (t : RelayTable) (o : IsOpen old w)
      → take_report_relay seq now (relays_of w) ≡ (t, some (addr, upf_seq))
      → (socket : Server EventData) × ((relay_unanswered M seid seq now w).server ≡ some socket)
        × Answered (pfcp.report_rejection seid upf_seq) upf_seq addr o.socket socket
        × ((k : ℕ)
            → lookup k (relays_of (relay_unanswered M seid seq now w)).relays
              ≡ ite (ℕ_discrete seq k) none (lookup k t.relays))
  unfolding relay_unanswered refuse_and_release
  relay_unanswered_refuses seid seq now upf_seq addr old w t o taken =
      let w1 = with_relays t w in
      let (s', sent, v, absorbs) =
        reject_session_report-absorbs (pfcp.report_rejection seid upf_seq) addr addr old laws seid
          upf_seq w1
          (record {
            socket = o.socket;
            there = o.there;
            listens = o.listens;
            separate = o.separate;
            began = o.began;
          }) in
      let result : World H =
        with_relays (forget_report_relay seq t) (record w1 { server = some s' }) in
      let step : relay_unanswered M seid seq now w ≡ result =
        ap (after_timeout seid seq w) taken
        ∙ ap (λ u. with_relays (forget_report_relay seq (relays_of u)) u) sent in
      (
        s',
        ap (λ u. u.server) step,
        absorbs,
        λ k. ap (λ u. lookup k (relays_of u).relays) step ∙ lookup-forget_report_relay k seq t,
      )
