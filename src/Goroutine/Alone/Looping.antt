-- ===== src/Goroutine/Alone/Looping.antt =====
-- The goroutine of a session report request that nothing interrupts, from its claim on: the loop of
-- HandlePfcpSessionReportRequest (pfcp/handler/handler.go).
use upfadapter.Prelude.{
  ℕ, zero, suc, ◌+◌, ◌*◌, ◌≤◌, ◌≡◌, refl, Option, none, some, List, [], ◌∷◌, length, arith,
}
use upfadapter.Net.{Net, UdpAddr}
use upfadapter.Pfcp.{Pfcp}
use upfadapter.Relay.{
  Claim, Renumbered, renumber_report_relay, fresh, retransmission, peer_released,
  sequence_exhausted, nil_dereference, renumbered, not_held, exhausted, RelayTable,
}
use upfadapter.Udp.Tables.{SendError, duplicate_sequence}
use upfadapter.Report.{
  World, relays_of, with_relays, relay_send_attempts, send, reject_session_report, relayed_report,
  refuse_and_release, relay_loop,
}
use upfadapter.Goroutine.{
  Position, refusing, finished, panicked, next_attempt, after_claim, after_send, after_renumber,
  advance, alone,
}

module _ {M H : Type 0} ⦃net : Net⦄ ⦃pfcp : Pfcp M⦄ where
  -- The goroutine is through, and left what the handler leaves; or both panic.
  abbrev pub Ends : Option (World H) → World H × Position M → Type 0
  Ends (some w) r = r ≡ (w, finished)
  Ends none r = r.1 ≡ panicked

  pub alone_finished : (times : List ℕ) (w : World H) → alone M times (w, finished) ≡ (w, finished)
  unfolding alone advance
  alone_finished [] w = refl
  alone_finished (now ∷ times) w = alone_finished times w

  pub alone_panicked : (times : List ℕ) (w : World H) → (alone M times (w, panicked)).1 ≡ panicked
  unfolding alone advance
  alone_panicked [] w = refl
  alone_panicked (now ∷ times) w = alone_panicked times w

  pub alone_refusing :
      (seid upf_seq : ℕ) (addr : UdpAddr) (seq : ℕ) (times : List ℕ) (w : World H)
      → 2 ≤ length times
      → alone M times (w, refusing seid upf_seq addr seq)
        ≡ (refuse_and_release M seid upf_seq addr seq w, finished)
  unfolding alone advance refuse_and_release
  alone_refusing seid upf_seq addr seq [] w h = absurd (omega arith)
  alone_refusing seid upf_seq addr seq (t ∷ []) w h = absurd (omega arith)
  alone_refusing seid upf_seq addr seq (t ∷ u ∷ times) w h = alone_finished times _

  module _ (report : M) (smf addr : UdpAddr) where
    -- The rest of the loop after a renumbering, and after a send.
    loop_renumbered : ℕ → ℕ → World H → RelayTable × Renumbered → World H
    loop_renumbered attempts seq w r =
        let w2 = with_relays r.0 w in
        elim r.1 [
          | not_held ↦ w2
          | exhausted ↦ refuse_and_release M (pfcp.seid report) (pfcp.sequence report) addr seq w2
          | renumbered next ↦ relay_loop M attempts report smf addr next w2
        ]

    loop_sent : ℕ → ℕ → World H × Option SendError → World H
    loop_sent attempts seq r = elim r.1 [
      | none ↦ r.0
      | some duplicate_sequence ↦
          loop_renumbered attempts seq r.0 (renumber_report_relay seq (relays_of r.0))
      | some _ ↦ refuse_and_release M (pfcp.seid report) (pfcp.sequence report) addr seq r.0
    ]

    -- The goroutine from this place on leaves what the rest of the loop leaves.
    abbrev Follows : List ℕ → World H × Position M → World H → Type 0
    Follows times r w = alone M times r ≡ (w, finished)

    alone-renumbered :
        (attempts seq : ℕ) (times : List ℕ) (w : World H) (r : RelayTable × Renumbered)
        → 2 ≤ length times
        → ((next : ℕ) (w2 : World H)
            → Follows times
                (w2, next_attempt attempts report smf addr next)
                (relay_loop M attempts report smf addr next w2))
        → Follows times
            (with_relays r.0 w, after_renumber attempts report smf addr seq r.1)
            (loop_renumbered attempts seq w r)
    unfolding loop_renumbered after_renumber
    alone-renumbered attempts seq times w (t, not_held) h rest = alone_finished times _
    alone-renumbered attempts seq times w (t, exhausted) h rest =
        alone_refusing _ _ addr seq times _ h
    alone-renumbered attempts seq times w (t, renumbered next) h rest = rest next _

    alone-sent :
        (attempts seq now : ℕ) (times : List ℕ) (r : World H × Option SendError)
        → 2 ≤ length times
        → ((next : ℕ) (w2 : World H)
            → Follows times
                (w2, next_attempt attempts report smf addr next)
                (relay_loop M attempts report smf addr next w2))
        → Follows
            (now ∷ times)
            (r.0, after_send attempts report smf addr seq r.1)
            (loop_sent attempts seq r)
    unfolding loop_sent after_send
    alone-sent attempts seq now times (w, none) h rest = alone_finished (now ∷ times) w
    alone-sent attempts seq now times (w, some duplicate_sequence) h rest =
        unfold alone advance in alone-renumbered attempts seq times w _ h rest
    alone-sent attempts seq now times (w, some _) h rest =
        alone_refusing _ _ addr seq (now ∷ times) w (omega arith)

    alone-next_attempt :
        (attempts seq : ℕ) (times : List ℕ) (w : World H)
        → 2 * attempts + 2 ≤ length times
        → Follows times
            (w, next_attempt attempts report smf addr seq)
            (relay_loop M attempts report smf addr seq w)
    unfolding next_attempt relay_loop alone advance loop_sent loop_renumbered
    alone-next_attempt zero seq times w h = alone_refusing _ _ addr seq times w h
    alone-next_attempt (suc n) seq [] w h = absurd (omega arith)
    alone-next_attempt (suc n) seq (t ∷ []) w h = absurd (omega arith)
    alone-next_attempt (suc n) seq (t ∷ u ∷ times) w h =
        alone-sent n seq u times
          (send M (pfcp.set_sequence seq report) smf (relayed_report (pfcp.seid report)) w)
          (omega arith) (λ next w2. alone-next_attempt n next times w2 (omega arith))

    -- The handler past its claim.
    unfoldable pub claimed : World H → RelayTable × Claim → Option (World H)
    claimed w r =
        let w1 = with_relays r.0 w in
        elim r.1 [
          | peer_released ↦ some w1
          | nil_dereference ↦ none
          | sequence_exhausted ↦
              some (reject_session_report M (pfcp.seid report) (pfcp.sequence report) addr w1).0
          | retransmission seq ↦ some w1
          | fresh seq ↦ some (relay_loop M relay_send_attempts report smf addr seq w1)
        ]

    pub claimed-Ends :
        (times : List ℕ) (w : World H) (r : RelayTable × Claim)
        → 10 ≤ length times
        → Ends (claimed w r) (alone M times (with_relays r.0 w, after_claim report smf addr r.1))
    unfolding claimed after_claim
    claimed-Ends times w (t, fresh seq) h = alone-next_attempt 4 seq times _ h
    claimed-Ends times w (t, retransmission seq) h = alone_finished times _
    claimed-Ends times w (t, peer_released) h = alone_finished times _
    claimed-Ends [] w (t, sequence_exhausted) h = absurd (omega arith)
    claimed-Ends (now ∷ times) w (t, sequence_exhausted) h =
        unfold alone advance in alone_finished times _
    claimed-Ends times w (t, nil_dereference) h = alone_panicked times _
