-- ===== src/Goroutine.antt =====
-- The goroutines that run the handlers of session reports (pfcp/handler/handler.go), one call of
-- config or udp at a time. Each of these calls holds the lock that it needs throughout, so the calls
-- of several goroutines come one after the other; between two calls a goroutine only stands at a
-- place in its handler. A panic, which ends the program, is a place that nothing leaves.
pub mod Alone
pub mod Interleaved
pub mod Held
pub mod Cautious
pub mod Advance
pub mod Guarded
pub mod Passing
pub mod Heading
pub mod Kept
pub mod Attended
mod Tests
use upfadapter.Prelude.{
  ℕ, zero, suc, Bool, true, false, Option, none, some, List, [], ◌∷◌, if◌then◌else◌,
}
use upfadapter.Net.{Net, UdpAddr}
use upfadapter.Pfcp.{Pfcp, session_report_request, session_report_response}
use upfadapter.Relay.{
  Claim, Renumbered, relay_generation, relay_report_sequence, renumber_report_relay,
  take_report_relay, forget_report_relay, fresh, retransmission, peer_released, sequence_exhausted,
  nil_dereference, renumbered, not_held, exhausted,
}
use upfadapter.Peers.{is_known_upf_addr}
use upfadapter.Udp.Tables.{SendError, duplicate_sequence}
use upfadapter.Smf.{smf_addr}
use upfadapter.Report.{
  World, relays_of, with_relays, relay_send_attempts, send, reject_session_report, relayed_report,
  answer_returned,
}

-- Where a goroutine stands: the call that it makes next, with what it has read so far. A number that
-- the handler counts down is that of the attempts left.
pub data Position (M : Type 0) : Type 0 where
  arriving : M → UdpAddr → Position M
  authorising : M → UdpAddr → ℕ → Position M
  reading_smf : M → UdpAddr → ℕ → Position M
  claiming : M → UdpAddr → UdpAddr → ℕ → Position M
  sending : ℕ → M → UdpAddr → UdpAddr → ℕ → Position M
  renumbering : ℕ → M → UdpAddr → UdpAddr → ℕ → Position M
  rejecting : ℕ → ℕ → UdpAddr → Position M
  refusing : ℕ → ℕ → UdpAddr → ℕ → Position M
  forgetting : ℕ → Position M
  taking_answer : M → Position M
  returning : M → UdpAddr → ℕ → Position M
  taking_failure : ℕ → ℕ → Position M
  finished panicked : Position M

module _ {M : Type 0} ⦃net : Net⦄ ⦃pfcp : Pfcp M⦄ where
  -- The head of the loop of HandlePfcpSessionReportRequest.
  unfoldable pub next_attempt : ℕ → M → UdpAddr → UdpAddr → ℕ → Position M
  next_attempt zero report smf addr seq =
      refusing (pfcp.seid report) (pfcp.sequence report) addr seq
  next_attempt (suc attempts) report smf addr seq = sending attempts report smf addr seq

  -- What HandlePfcpSessionReportRequest does next, by what IsKnownUpfAddr said,
  unfoldable pub after_check : M → UdpAddr → ℕ → Bool → Position M
  after_check report addr under true = reading_smf report addr under
  after_check report addr under false = finished

  -- by the address of the SMF,
  unfoldable pub after_smf : M → UdpAddr → ℕ → Option UdpAddr → Position M
  after_smf report addr under none = rejecting (pfcp.seid report) (pfcp.sequence report) addr
  after_smf report addr under (some smf) = claiming report smf addr under

  -- by the claim that it made,
  unfoldable pub after_claim : M → UdpAddr → UdpAddr → Claim → Position M
  after_claim report smf addr (fresh seq) = next_attempt relay_send_attempts report smf addr seq
  after_claim report smf addr (retransmission seq) = finished
  after_claim report smf addr peer_released = finished
  after_claim report smf addr sequence_exhausted =
      rejecting (pfcp.seid report) (pfcp.sequence report) addr
  after_claim report smf addr nil_dereference = panicked

  -- by the result of SendPfcp,
  unfoldable pub after_send : ℕ → M → UdpAddr → UdpAddr → ℕ → Option SendError → Position M
  after_send attempts report smf addr seq none = finished
  after_send attempts report smf addr seq (some duplicate_sequence) =
      renumbering attempts report smf addr seq
  after_send attempts report smf addr seq (some _) =
      refusing (pfcp.seid report) (pfcp.sequence report) addr seq

  -- and by that of RenumberReportRelay.
  unfoldable pub after_renumber : ℕ → M → UdpAddr → UdpAddr → ℕ → Renumbered → Position M
  after_renumber attempts report smf addr seq not_held = finished
  after_renumber attempts report smf addr seq exhausted =
      refusing (pfcp.seid report) (pfcp.sequence report) addr seq
  after_renumber attempts report smf addr seq (renumbered next) =
      next_attempt attempts report smf addr next

  -- What HandlePfcpSessionReportResponse does once it has looked for the relay,
  unfoldable pub after_answer : M → Option (UdpAddr × ℕ) → Position M
  after_answer response none = finished
  after_answer response (some (addr, upf_seq)) = returning response addr upf_seq

  -- and the error handler of a relayed report.
  unfoldable pub after_failure : ℕ → ℕ → Option (UdpAddr × ℕ) → Position M
  after_failure seid seq none = finished
  after_failure seid seq (some (addr, upf_seq)) = refusing seid upf_seq addr seq

  -- HandlePfcpSessionReportRequest up to its first call.
  unfoldable pub on_request : M → Option UdpAddr → Position M
  on_request report none = finished
  on_request report (some addr) =
      if pfcp.has_type session_report_request report then arriving report addr else finished

  -- HandlePfcpSessionReportResponse up to its first call.
  unfoldable pub on_response : M → Position M
  on_response response =
      if pfcp.has_type session_report_response response then taking_answer response else finished

module _ (M : Type 0) {H : Type 0} ⦃net : Net⦄ ⦃pfcp : Pfcp M⦄ where
  -- A goroutine makes its next call, at this time.
  unfoldable pub advance : ℕ → Position M → World H → World H × Position M
  advance now (arriving report addr) w =
      (w, authorising report addr (relay_generation (net.ip_string addr.ip) (relays_of w)))
  advance now (authorising report addr under) w =
      (w, after_check report addr under (is_known_upf_addr addr.ip now w.peers))
  advance now (reading_smf report addr under) w = (w, after_smf report addr under (smf_addr w.smf))
  advance now (claiming report smf addr under) w =
      let (t, claim) = relay_report_sequence addr (pfcp.sequence report) now under (relays_of w) in
      (with_relays t w, after_claim report smf addr claim)
  advance now (sending attempts report smf addr seq) w =
      let (w', err) =
        send M (pfcp.set_sequence seq report) smf (relayed_report (pfcp.seid report)) w in
      (w', after_send attempts report smf addr seq err)
  advance now (renumbering attempts report smf addr seq) w =
      let (t, result) = renumber_report_relay seq (relays_of w) in
      (with_relays t w, after_renumber attempts report smf addr seq result)
  advance now (rejecting seid upf_seq addr) w =
      ((reject_session_report M seid upf_seq addr w).0, finished)
  advance now (refusing seid upf_seq addr seq) w =
      ((reject_session_report M seid upf_seq addr w).0, forgetting seq)
  advance now (forgetting seq) w = (with_relays (forget_report_relay seq (relays_of w)) w, finished)
  advance now (taking_answer response) w =
      let (t, taken) = take_report_relay (pfcp.sequence response) now (relays_of w) in
      (with_relays t w, after_answer response taken)
  advance now (returning response addr upf_seq) w = (
    (send M (pfcp.set_sequence upf_seq response) addr answer_returned w).0,
    forgetting (pfcp.sequence response),
  )
  advance now (taking_failure seid seq) w =
      let (t, taken) = take_report_relay seq now (relays_of w) in
      (with_relays t w, after_failure seid seq taken)
  advance now finished w = (w, finished)
  advance now panicked w = (w, panicked)

  -- A goroutine that nothing interrupts, its calls made at these times.
  unfoldable pub alone : List ℕ → World H × Position M → World H × Position M
  alone [] r = r
  alone (now ∷ times) r = alone times (advance now r.1 r.0)
