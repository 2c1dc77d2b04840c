-- ===== src/Goroutine/Advance.antt =====
-- One call of a goroutine that runs a handler of session reports (pfcp/handler/handler.go), and the
-- tables that the others see.
use upfadapter.Prelude.{ℕ, ◌≡◌, refl, sym, subst, ℕ_discrete, nat_key, text_key, arith}
use upfadapter.Net.{Net, UdpAddr}
use upfadapter.Pfcp.{Pfcp}
use upfadapter.Relay.{relay_generation, relay_report_sequence, sweep_relays_locked}
use upfadapter.Relay.Claims.{relay_report_sequence-ClaimPost, relay_report_sequence_released}
use upfadapter.Relay.Answer.{take_report_relay-TakePost, renumber_report_relay-RenumberPost}
use upfadapter.Relay.WellFormed.{IsWellFormed}
use upfadapter.Report.{World, relays_of, with_relays, reject_session_report}
use upfadapter.Adapter.{Hooked}
use upfadapter.Goroutine.Held.{
  AtHeld, AtHeld-sweep, AtHeld-claimed, AtHeld-renumbered, AtHeld-taken, AtHeld-forgotten,
}
use upfadapter.Goroutine.Cautious.{
  Checked, Cautious, Cautious-after_check, Cautious-after_smf, Cautious-after_claim,
  Cautious-after_send, Cautious-after_renumber, Cautious-after_answer, Cautious-after_failure,
}
use upfadapter.Goroutine.{
  Position, arriving, authorising, reading_smf, claiming, sending, renumbering, rejecting, refusing,
  forgetting, taking_answer, returning, taking_failure, finished, panicked, advance,
}

module _ {M : Type 0} ⦃net : Net⦄ ⦃pfcp : Pfcp M⦄ where
  -- What the world keeps and the goroutine is after its call.
  abbrev pub Goes : World Hooked → World Hooked × Position M → Type 0
  Goes w r = AtHeld r.0.peers (relays_of r.0) × (r.0.peers.addrs ≡ w.peers.addrs) × Cautious r.0 r.1

  claiming-Goes :
      (now : ℕ) (report : M) (smf addr : UdpAddr) (under : ℕ) (w : World Hooked)
      → IsWellFormed (relays_of w)
      → AtHeld w.peers (relays_of w)
      → Checked w (net.ip_string addr.ip) under
      → Goes w (advance M now (claiming report smf addr under) w)
  unfolding advance
  claiming-Goes now report smf addr under w v h (read, there) =
      let t = relays_of w in
      let upf_seq = pfcp.sequence report in
      let w' = with_relays (relay_report_sequence addr upf_seq now under t).0 w in
      elim (ℕ_discrete (relay_generation (net.ip_string addr.ip) t) under) [
        | yes e ↦
            let (held, ne) =
              AtHeld-claimed addr upf_seq now w.peers (sweep_relays_locked now t) _ (there e)
                (relay_report_sequence-ClaimPost addr upf_seq now t under v.indexed e)
                (AtHeld-sweep now w.peers t h) in
            (held, refl, Cautious-after_claim w' report smf addr _ ne)
        | no other ↦
            let same = relay_report_sequence_released addr upf_seq now t under other in
            (
              subst (λ r. AtHeld w.peers r.0) (sym same) h,
              refl,
              Cautious-after_claim w' report smf addr _ (λ e. ground (arith, same, e)),
            )
      ]

  pub advance-Goes :
      (now : ℕ) (p : Position M) (w : World Hooked)
      → IsWellFormed (relays_of w)
      → AtHeld w.peers (relays_of w)
      → Cautious w p
      → Goes w (advance M now p w)
  unfolding advance reject_session_report
  advance-Goes now (arriving report addr) w v h c = (h, refl, omega arith)
  advance-Goes now (authorising report addr under) w v h c =
      (h, refl, Cautious-after_check w report addr under now _ refl c)
  advance-Goes now (reading_smf report addr under) w v h c =
      (h, refl, Cautious-after_smf w report addr under _ c)
  advance-Goes now (claiming report smf addr under) w v h c =
      claiming-Goes now report smf addr under w v h c
  advance-Goes now (sending attempts report smf addr seq) w v h c = (
    h,
    refl,
    Cautious-after_send (advance M now (sending attempts report smf addr seq) w).0 attempts report
        smf addr seq _,
  )
  advance-Goes now (renumbering attempts report smf addr seq) w v h c = (
    AtHeld-renumbered seq w.peers (relays_of w) _
        (renumber_report_relay-RenumberPost seq (relays_of w)) h,
    refl,
    Cautious-after_renumber (advance M now (renumbering attempts report smf addr seq) w).0 attempts
        report smf addr seq _,
  )
  advance-Goes now (rejecting seid upf_seq addr) w v h c = (h, refl, tt)
  advance-Goes now (refusing seid upf_seq addr seq) w v h c = (h, refl, tt)
  advance-Goes now (forgetting seq) w v h c =
      (AtHeld-forgotten seq w.peers (relays_of w) h, refl, tt)
  advance-Goes now (taking_answer response) w v h c =
      let seq = pfcp.sequence response in
      (
        AtHeld-taken seq now w.peers (relays_of w) _
            (take_report_relay-TakePost seq now (relays_of w)) h,
        refl,
        Cautious-after_answer (advance M now (taking_answer response) w).0 response _,
      )
  advance-Goes now (returning response addr upf_seq) w v h c = (h, refl, tt)
  advance-Goes now (taking_failure seid seq) w v h c = (
    AtHeld-taken seq now w.peers (relays_of w) _ (take_report_relay-TakePost seq now (relays_of w))
        h,
    refl,
    Cautious-after_failure M (advance M now (taking_failure seid seq) w).0 seid seq _,
  )
  advance-Goes now finished w v h c = (h, refl, tt)
  advance-Goes now panicked w v h c = elim c [ ]
