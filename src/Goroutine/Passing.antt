-- ===== src/Goroutine/Passing.antt =====
-- Who attends to a claimed session report, in pfcp/handler/handler.go: a handler that has more to do
-- with it, or a transaction of pfcp/udp that was started for it.
use upfadapter.Prelude.{
  sym, ℕ, zero, suc, ◌≡◌, refl, subst, true, Option, none, some, ◌⊎◌, inl, inr, Option-cases,
  ℕ_discrete, nat_key, text_key, lookup, contains, arith,
}
use upfadapter.Net.{Net, UdpAddr}
use upfadapter.Pfcp.{Pfcp}
use upfadapter.Relay.{
  RelayTable, Claim, fresh, retransmission, peer_released, sequence_exhausted, nil_dereference,
  Renumbered, renumbered, not_held, exhausted, relay_generation, sweep_relays_locked,
}
use upfadapter.Relay.Index.{IsIndexed, lookup-forget_report_relay}
use upfadapter.Relay.Sweep.{lookup-sweep_relays_locked}
use upfadapter.Relay.Claims.{
  ClaimPost, relay_report_sequence-ClaimPost, relay_report_sequence_released,
}
use upfadapter.Relay.Answer.{
  TakePost, take_report_relay-TakePost, RenumberPost, renumber_report_relay-RenumberPost,
}
use upfadapter.Udp.Tables.{Transaction, SendError, duplicate_sequence}
use upfadapter.Udp.Started.{HasStarted, HasStarted-sent}
use upfadapter.Report.{
  World, relays_of, with_relays, EventData, relayed_report, reject_session_report,
}
use upfadapter.Adapter.{Hooked}
use upfadapter.Goroutine.{
  Position, arriving, authorising, reading_smf, claiming, sending, renumbering, rejecting, refusing,
  forgetting, taking_answer, returning, taking_failure, finished, panicked, next_attempt,
  after_claim, after_send, after_renumber, advance,
}

-- A transaction that carries a session report under this number to such an address.
abbrev pub Relays :
    (M : Type 0) ⦃pfcp : Pfcp M⦄ → (UdpAddr → Type 0) → ℕ → Transaction EventData → Type 0
Relays M ⦃pfcp⦄ IsSmf k tx =
    (report : M) × (pfcp.marshal (pfcp.set_sequence k report) ≡ some tx.send_msg)
    × (tx.event_data ≡ relayed_report (pfcp.seid report))
    × IsSmf tx.dest_addr

module _ ⦃net : Net⦄ where
  swept_before :
      (k now : ℕ) (t : RelayTable)
      → contains k (sweep_relays_locked now t).relays ≡ true
      → contains k t.relays ≡ true
  swept_before k now t h = elim (Option-cases (lookup k t.relays)) [
    | inl e ↦ absurd (ground (arith, e, h, lookup-sweep_relays_locked now k t))
    | inr (r, e) ↦ ground (arith, e)
  ]

  -- A take leaves every relay in the table.
  taken_before :
      (k : ℕ) (w : World Hooked) (seq now : ℕ) (r : RelayTable × Option (UdpAddr × ℕ))
      → TakePost seq now (relays_of w) r
      → contains k r.0.relays ≡ true
      → contains k (relays_of w).relays ≡ true
  taken_before k w seq now (t', some (addr, upf_seq)) (r, held, new, live, here, same, looks, index)
        there =
      ground (arith, looks k, held, there)
  taken_before k w seq now (t', none) (refused, same) there =
      subst (λ t. contains k t.relays ≡ true) same there

module _ {M : Type 0} ⦃net : Net⦄ ⦃pfcp : Pfcp M⦄ where
  -- The goroutine has more to do with the relay under `k`: it sends it, renumbers it, or forgets it.
  abbrev pub Holds : ℕ → Position M → Type 0
  Holds k (sending attempts report smf addr seq) = seq ≡ k
  Holds k (renumbering attempts report smf addr seq) = seq ≡ k
  Holds k (refusing seid upf_seq addr seq) = seq ≡ k
  Holds k (forgetting seq) = seq ≡ k
  Holds k (returning response addr upf_seq) = pfcp.sequence response ≡ k
  Holds k _ = ⊥

  Holds-next_attempt :
      (attempts : ℕ) (report : M) (smf addr : UdpAddr) (seq : ℕ)
      → Holds seq (next_attempt attempts report smf addr seq)
  unfolding next_attempt
  Holds-next_attempt zero report smf addr seq = refl
  Holds-next_attempt (suc n) report smf addr seq = refl

  -- Where the goroutine sends a report, or means to.
  abbrev pub Heads : (UdpAddr → Type 0) → Position M → Type 0
  Heads IsSmf (claiming report smf addr under) = IsSmf smf
  Heads IsSmf (sending attempts report smf addr seq) = IsSmf smf
  Heads IsSmf (renumbering attempts report smf addr seq) = IsSmf smf
  Heads IsSmf _ = Unit

  -- After its call the goroutine holds the relay under `k`, or a transaction was started for it.
  abbrev pub IsOn : (UdpAddr → Type 0) → ℕ → World Hooked × Position M → Type 0
  IsOn IsSmf k r = Holds k r.1 ⊎ HasStarted (Relays M IsSmf k) r.0.server

  -- What a call leaves in the table: a relay that is on, or one that was there and not the
  -- goroutine's.
  abbrev pub Passes :
      (UdpAddr → Type 0) → ℕ → World Hooked → Position M → World Hooked × Position M → Type 0
  Passes IsSmf k w p r =
      contains k (relays_of r.0).relays ≡ true
      → IsOn IsSmf k r ⊎ ((contains k (relays_of w).relays ≡ true) × (¬ Holds k p))

  module _ (IsSmf : UdpAddr → Type 0) (k : ℕ) (w : World Hooked) where
    claimed-Passes :
        (report : M) (smf addr : UdpAddr) (under now : ℕ) (r : RelayTable × Claim)
        → ClaimPost addr (pfcp.sequence report) now (sweep_relays_locked now (relays_of w)) r
        → Passes IsSmf k w
            (claiming report smf addr under)
            (with_relays r.0 w, after_claim report smf addr r.1)
    unfolding after_claim
    claimed-Passes report smf addr under now (t', fresh c) (absent_now, free, looks, last) there =
        elim (ℕ_discrete c k) [
          | yes here ↦ inl (
              inl (
                subst (λ x. Holds x (next_attempt 4 report smf addr c)) here
                  (Holds-next_attempt 4 report smf addr c)))
          | no other ↦
              inr (swept_before k now (relays_of w) (ground (arith, looks k, other, there)), λ h. h)
        ]
    claimed-Passes report smf addr under now (t', retransmission c) (outstanding, same) there =
        inr (
          swept_before k now (relays_of w) (subst (λ t. contains k t.relays ≡ true) same there),
          λ h. h,
        )
    claimed-Passes report smf addr under now (t', sequence_exhausted) (absent_now, full, same)
          there =
        inr (
          swept_before k now (relays_of w) (subst (λ t. contains k t.relays ≡ true) same there),
          λ h. h,
        )
    claimed-Passes report smf addr under now (t', peer_released) post there = elim post [ ]
    claimed-Passes report smf addr under now (t', nil_dereference) post there = elim post [ ]

    claiming-Passes :
        (report : M) (smf addr : UdpAddr) (under now : ℕ)
        → IsIndexed (relays_of w)
        → Passes IsSmf k w
            (claiming report smf addr under)
            (advance M now (claiming report smf addr under) w)
    unfolding advance
    claiming-Passes report smf addr under now v there =
        let t = relays_of w in
        let upf_seq = pfcp.sequence report in
        elim (ℕ_discrete (relay_generation (net.ip_string addr.ip) t) under) [
          | yes e ↦
              claimed-Passes report smf addr under now _
                (relay_report_sequence-ClaimPost addr upf_seq now t under v e) there
          | no other ↦
              let same = relay_report_sequence_released addr upf_seq now t under other in
              inr (subst (λ r. contains k r.0.relays ≡ true) same there, λ h. h)
        ]

    sent-Passes :
        (attempts : ℕ) (report : M) (smf addr : UdpAddr) (seq : ℕ) (err : Option SendError)
        (w' : World Hooked)
        → relays_of w' ≡ relays_of w
        → (err ≡ none → HasStarted (Relays M IsSmf seq) w'.server)
        → Passes IsSmf k w
            (sending attempts report smf addr seq)
            (w', after_send attempts report smf addr seq err)
    unfolding after_send
    sent-Passes attempts report smf addr seq err w' same began there = elim (ℕ_discrete seq k) [
      | no other ↦ inr (subst (λ t. contains k t.relays ≡ true) same there, other)
      | yes here ↦ inl (on err here began)
    ]
      where
        on :
            (err : Option SendError)
            → seq ≡ k
            → (err ≡ none → HasStarted (Relays M IsSmf seq) w'.server)
            → IsOn IsSmf k (w', after_send attempts report smf addr seq err)
        on none here began =
            inr (subst (λ x. HasStarted (Relays M IsSmf x) w'.server) here (began refl))
        on (some duplicate_sequence) here began = inl here
        on (some _) here began = inl here

    renumbered-Passes :
        (attempts : ℕ) (report : M) (smf addr : UdpAddr) (seq : ℕ) (r : RelayTable × Renumbered)
        → RenumberPost seq (relays_of w) r
        → Passes IsSmf k w
            (renumbering attempts report smf addr seq)
            (with_relays r.0 w, after_renumber attempts report smf addr seq r.1)
    unfolding after_renumber
    renumbered-Passes attempts report smf addr seq (t', renumbered c) (r, held, free, looks) there =
        elim (ℕ_discrete c k) [
          | yes here ↦ inl (
              inl (
                subst (λ x. Holds x (next_attempt attempts report smf addr c)) here
                  (Holds-next_attempt attempts report smf addr c)))
          | no other ↦ inr (
            ground (arith, looks k, other, there),
            λ here. absurd (ground (arith, looks k, other, there, here)),
          )
        ]
    renumbered-Passes attempts report smf addr seq (t', not_held) (gone, same) there =
        let before = subst (λ t. contains k t.relays ≡ true) same there in
        inr (before, λ here. absurd (ground (arith, gone, before, here)))
    renumbered-Passes attempts report smf addr seq (t', exhausted) (full, same) there =
        elim (ℕ_discrete seq k) [
          | yes here ↦ inl (inl here)
          | no other ↦ inr (subst (λ t. contains k t.relays ≡ true) same there, other)
        ]

    -- A handler that holds this one number before and after its call.
    passed :
        (seq : ℕ) (p : Position M) (r : World Hooked × Position M)
        → relays_of r.0 ≡ relays_of w
        → (Holds k p → seq ≡ k)
        → (seq ≡ k → Holds k r.1)
        → Passes IsSmf k w p r
    passed seq p r same only still there = elim (ℕ_discrete seq k) [
      | yes here ↦ inl (inl (still here))
      | no other ↦ inr (subst (λ t. contains k t.relays ≡ true) same there, λ h. other (only h))
    ]

    pub advance-Passes :
        (now : ℕ) (p : Position M)
        → IsIndexed (relays_of w)
        → Heads IsSmf p
        → Passes IsSmf k w p (advance M now p w)
    unfolding advance reject_session_report
    advance-Passes now (arriving report addr) v heads there = inr (there, λ h. h)
    advance-Passes now (authorising report addr under) v heads there = inr (there, λ h. h)
    advance-Passes now (reading_smf report addr under) v heads there = inr (there, λ h. h)
    advance-Passes now (claiming report smf addr under) v heads there =
        claiming-Passes report smf addr under now v there
    advance-Passes now (sending attempts report smf addr seq) v heads there =
        sent-Passes attempts report smf addr seq _
          (advance M now (sending attempts report smf addr seq) w).0 refl
          (HasStarted-sent (Relays M IsSmf seq) (pfcp.set_sequence seq report) smf
            (relayed_report (pfcp.seid report)) w.server
            (λ tx bytes goes kept. (report, bytes, kept, subst IsSmf (sym goes) heads)))
          there
    advance-Passes now (renumbering attempts report smf addr seq) v heads there =
        renumbered-Passes attempts report smf addr seq _
          (renumber_report_relay-RenumberPost seq (relays_of w)) there
    advance-Passes now (rejecting seid upf_seq addr) v heads there = inr (there, λ h. h)
    advance-Passes now (refusing seid upf_seq addr seq) v heads there =
        passed seq (refusing seid upf_seq addr seq)
          (advance M now (refusing seid upf_seq addr seq) w) refl (λ h. h) (λ h. h) there
    advance-Passes now (forgetting seq) v heads there =
        let looks = lookup-forget_report_relay k seq (relays_of w) in
        inr (ground (arith, looks, there), λ here. absurd (ground (arith, looks, there, here)))
    advance-Passes now (taking_answer response) v heads there =
        let seq = pfcp.sequence response in
        inr (
          taken_before k w seq now _ (take_report_relay-TakePost seq now (relays_of w)) there,
          λ h. h,
        )
    advance-Passes now (returning response addr upf_seq) v heads there =
        passed (pfcp.sequence response) (returning response addr upf_seq)
          (advance M now (returning response addr upf_seq) w) refl (λ h. h) (λ h. h) there
    advance-Passes now (taking_failure seid seq) v heads there = inr (
      taken_before k w seq now _ (take_report_relay-TakePost seq now (relays_of w)) there,
      λ h. h,
    )
    advance-Passes now finished v heads there = inr (there, λ h. h)
    advance-Passes now panicked v heads there = inr (there, λ h. h)
