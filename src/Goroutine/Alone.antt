-- ===== src/Goroutine/Alone.antt =====
-- The handlers of session reports as single steps, and call by call (pfcp/handler/handler.go).
pub mod Looping
use upfadapter.Prelude.{
  ℕ, zero, suc, ◌+◌, ◌*◌, ◌≤◌, ◌≡◌, refl, true, false, Bool, Option, none, some, List, [], ◌∷◌, inl,
  inr, length, Bool-cases, arith, if◌then◌else◌,
}
use upfadapter.Net.{Net, UdpAddr}
use upfadapter.Pfcp.{Pfcp, session_report_request, session_report_response}
use upfadapter.Relay.{
  Claim, Renumbered, renumber_report_relay, forget_report_relay, fresh, retransmission,
  peer_released, sequence_exhausted, nil_dereference, renumbered, not_held, exhausted, RelayTable,
}
use upfadapter.Udp.Tables.{SendError, duplicate_sequence}
use upfadapter.Smf.{smf_addr}
use upfadapter.Report.{
  World, relays_of, with_relays, relay_send_attempts, send, reject_session_report, relayed_report,
  answer_returned, refuse_and_release, relay_unanswered, relay_loop, relay_report,
  handle_pfcp_session_report_request, handle_pfcp_session_report_response,
}
use upfadapter.Goroutine.{
  Position, refusing, taking_failure, finished, panicked, next_attempt, after_check, after_smf,
  after_claim, after_send, after_renumber, after_answer, after_failure, on_request, on_response,
  advance, alone,
}
use upfadapter.Goroutine.Alone.Looping.{
  Ends, alone_finished, alone_panicked, alone_refusing, claimed, claimed-Ends,
}

module _ {M H : Type 0} ⦃net : Net⦄ ⦃pfcp : Pfcp M⦄ where
  module _ (report : M) (addr : UdpAddr) where
    -- The handler past the test of the source.
    authorised : ℕ → ℕ → World H → Option UdpAddr → Option (World H)
    authorised under now w smf = elim smf [
      | none ↦ some (reject_session_report M (pfcp.seid report) (pfcp.sequence report) addr w).0
      | some smf ↦ relay_report M report smf addr under now w
    ]

    authorised-Ends :
        (under now : ℕ) (times : List ℕ) (w : World H) (smf : Option UdpAddr)
        → 10 ≤ length times
        → Ends
            (authorised under now w smf)
            (alone M (now ∷ times) (w, after_smf report addr under smf))
    unfolding authorised alone advance after_smf relay_report claimed
    authorised-Ends under now times w none h = alone_finished times _
    authorised-Ends under now times w (some smf) h = claimed-Ends report smf addr times w _ h

    checked-Ends :
        (under now looked : ℕ) (times : List ℕ) (w : World H) (known : Bool)
        → 10 ≤ length times
        → Ends
            (if known then authorised under now w (smf_addr w.smf) else some w)
            (alone M (looked ∷ now ∷ times) (w, after_check report addr under known))
    unfolding alone advance after_check
    checked-Ends under now looked times w true h =
        authorised-Ends under now times w (smf_addr w.smf) h
    checked-Ends under now looked times w false h = alone_finished times w

    request-Ends :
        (read checked looked now : ℕ) (times : List ℕ) (w : World H)
        → 10 ≤ length times
        → Ends
            (handle_pfcp_session_report_request M report (some addr) checked now w)
            (alone M (read ∷ checked ∷ looked ∷ now ∷ times) (w, on_request report (some addr)))
    unfolding handle_pfcp_session_report_request on_request alone advance authorised
    request-Ends read checked looked now times w h =
        elim (Bool-cases (pfcp.has_type session_report_request report)) [
          | inl typed ↦ rw typed (checked-Ends _ now looked times w _ h)
          | inr other ↦ rw other (alone_finished times w)
        ]

  alone-answered :
      (response : M) (times : List ℕ) (w : World H) (r : RelayTable × Option (UdpAddr × ℕ))
      → 2 ≤ length times
      → alone M times (with_relays r.0 w, after_answer response r.1) ≡ (
        elim r.1 [
          | none ↦ with_relays r.0 w
          | some (addr, upf_seq) ↦
              let w2 =
                (send M
                  (pfcp.set_sequence upf_seq response)
                  addr
                  answer_returned
                  (with_relays r.0 w)).0 in
              with_relays (forget_report_relay (pfcp.sequence response) (relays_of w2)) w2
        ],
        finished,
      )
  unfolding alone advance after_answer
  alone-answered response times w (t, none) h = alone_finished times _
  alone-answered response [] w (t, some taken) h = absurd (omega arith)
  alone-answered response (now ∷ []) w (t, some taken) h = absurd (omega arith)
  alone-answered response (now ∷ later ∷ times) w (t, some (addr, upf_seq)) h =
      alone_finished times _

  response_alone :
      (response : M) (now : ℕ) (times : List ℕ) (w : World H)
      → 2 ≤ length times
      → alone M (now ∷ times) (w, on_response response)
        ≡ (handle_pfcp_session_report_response M response now w, finished)
  unfolding handle_pfcp_session_report_response on_response alone advance
  response_alone response now times w h =
      elim (Bool-cases (pfcp.has_type session_report_response response)) [
        | inl typed ↦ rw typed (alone-answered response times w _ h)
        | inr other ↦ rw other (alone_finished times w)
      ]

  alone-failed :
      (seid seq : ℕ) (times : List ℕ) (w : World H) (r : RelayTable × Option (UdpAddr × ℕ))
      → 2 ≤ length times
      → alone M times (with_relays r.0 w, after_failure seid seq r.1) ≡ (
        elim r.1 [
          | none ↦ with_relays r.0 w
          | some (addr, upf_seq) ↦ refuse_and_release M seid upf_seq addr seq (with_relays r.0 w)
        ],
        finished,
      )
  unfolding after_failure
  alone-failed seid seq times w (t, none) h = alone_finished times _
  alone-failed seid seq times w (t, some (addr, upf_seq)) h =
      alone_refusing seid upf_seq addr seq times _ h

  failure_alone :
      (seid seq now : ℕ) (times : List ℕ) (w : World H)
      → 2 ≤ length times
      → alone M (now ∷ times) (w, taking_failure seid seq)
        ≡ (relay_unanswered M seid seq now w, finished)
  unfolding relay_unanswered alone advance
  failure_alone seid seq now times w h = alone-failed seid seq times w _ h

  -- A goroutine that nothing interrupts leaves, within fourteen calls, exactly what its handler
  -- leaves as a single step, and is through: that of a session report request, whose four
  -- attempts to send are among them and which may panic in both, that of a session report
  -- response, and the error handler of a relayed report. The times of the single step are those
  -- of the test of the source, of the claim, and of the take.
  pub alone-handlers :
      (msg : M) (addr : UdpAddr) (seid seq read checked looked now : ℕ) (times : List ℕ)
      (w : World H)
      → 10 ≤ length times
      → Ends
          (handle_pfcp_session_report_request M msg (some addr) checked now w)
          (alone M (read ∷ checked ∷ looked ∷ now ∷ times) (w, on_request msg (some addr)))
        × (alone M (now ∷ times) (w, on_response msg)
            ≡ (handle_pfcp_session_report_response M msg now w, finished))
        × (alone M (now ∷ times) (w, taking_failure seid seq)
            ≡ (relay_unanswered M seid seq now w, finished))
  alone-handlers msg addr seid seq read checked looked now times w h = (
    request-Ends msg addr read checked looked now times w h,
    response_alone msg now times w (omega arith),
    failure_alone seid seq now times w (omega arith),
  )
