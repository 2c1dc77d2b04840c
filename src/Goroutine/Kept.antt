-- ===== src/Goroutine/Kept.antt =====
-- What the rest of the adapter, and a call of a goroutine, leave of the transactions that were started
-- (pfcp/udp/udp.go) and of the relays (config/config.go).
use upfadapter.Prelude.{
  ℕ, ◌≡◌, Bool-cases, true, none, some, inl, inr, Option-cases, nat_key, text_key, lookup, contains,
  arith, is_empty, delete,
}
use upfadapter.Net.{Net, Text}
use upfadapter.Pfcp.{Pfcp}
use upfadapter.Relay.Index.{IsIndexed}
use upfadapter.Relay.Release.{lookup-forget_relays_for_host, forget_relays_for_host-IsIndexed}
use upfadapter.Relay.WellFormed.{
  IsWellFormed, relay_report_sequence-IsWellFormed, renumber_report_relay-IsWellFormed,
  take_report_relay-IsWellFormed, forget_report_relay-IsWellFormed,
}
use upfadapter.Peers.{Peers, forget_upf_addr_locked}
use upfadapter.Udp.Tables.{Transaction, forget_consumer}
use upfadapter.Udp.Started.{
  HasStarted, HasStarted-send_pfcp, HasStarted-remove, HasStarted-forget_consumer,
}
use upfadapter.Report.{World, EventData, relays_of, reject_session_report}
use upfadapter.Adapter.{Hooked}
use upfadapter.Goroutine.{
  Position, arriving, authorising, reading_smf, claiming, sending, renumbering, rejecting, refusing,
  forgetting, taking_answer, returning, taking_failure, finished, panicked, advance,
}
use upfadapter.Goroutine.Interleaved.{end_transaction}

-- What was started stays started, whoever is released.
module _ ⦃net : Net⦄ (P : Transaction EventData → Type 0) where
  pub released-HasStarted :
      (node addr : Text) (clock : ℕ) (p : Peers Hooked)
      → HasStarted P p.hooked
      → HasStarted P (forget_upf_addr_locked (some forget_consumer) node addr clock p).hooked
  unfolding forget_upf_addr_locked
  released-HasStarted node addr clock p v = elim (Option-cases (lookup addr p.addrs)) [
    | inl e ↦ rw (e, forget_upf_addr_locked) v
    | inr (nodes, e) ↦ elim (Bool-cases (is_empty (delete node nodes))) [
      | inl last ↦
          rw (e, forget_upf_addr_locked) (rw last (HasStarted-forget_consumer P addr p.hooked v))
      | inr more ↦ rw (e, forget_upf_addr_locked) (rw more v)
    ]
  ]

-- A release takes relays away and adds none.
module _ ⦃net : Net⦄ (k : ℕ) (A : Type 0) where
  abbrev pub WasThere : Peers Hooked → Type 0
  WasThere p = IsIndexed p.relay_table × (contains k p.relay_table.relays ≡ true → A)

  pub released-WasThere :
      (node addr : Text) (clock : ℕ) (p : Peers Hooked)
      → WasThere p
      → WasThere (forget_upf_addr_locked (some forget_consumer) node addr clock p)
  unfolding forget_upf_addr_locked
  released-WasThere node addr clock p v = elim (Option-cases (lookup addr p.addrs)) [
    | inl e ↦ rw (e, forget_upf_addr_locked) v
    | inr (nodes, e) ↦ elim (Bool-cases (is_empty (delete node nodes))) [
      | inl last ↦
          rw (e, forget_upf_addr_locked)
            (rw last (
              forget_relays_for_host-IsIndexed addr clock p.relay_table v.0,
              λ there. v.1 (
                  ground
                    (arith, there, lookup-forget_relays_for_host addr clock k p.relay_table v.0)),
            ))
      | inr more ↦ rw (e, forget_upf_addr_locked) (rw more v)
    ]
  ]

-- Nor does the end of a transaction forget it.
pub end_transaction-HasStarted :
    (P : Transaction EventData → Type 0) (tx : Transaction EventData) (s : Hooked)
    → HasStarted P s
    → HasStarted P (end_transaction tx s)
end_transaction-HasStarted P tx none v = v
end_transaction-HasStarted P tx (some s) v = HasStarted-remove P tx s v

module _ {M : Type 0} ⦃net : Net⦄ ⦃pfcp : Pfcp M⦄ where
  pub HasStarted-advance :
      (P : Transaction EventData → Type 0) (now : ℕ) (p : Position M) (w : World Hooked)
      → HasStarted P w.server
      → HasStarted P (advance M now p w).0.server
  unfolding advance reject_session_report
  HasStarted-advance P now (sending attempts report smf addr seq) w v =
      HasStarted-send_pfcp P (pfcp.set_sequence seq report) smf _ w.server v
  HasStarted-advance P now (rejecting seid upf_seq addr) w v =
      HasStarted-send_pfcp P (pfcp.report_rejection seid upf_seq) addr _ w.server v
  HasStarted-advance P now (refusing seid upf_seq addr seq) w v =
      HasStarted-send_pfcp P (pfcp.report_rejection seid upf_seq) addr _ w.server v
  HasStarted-advance P now (returning response addr upf_seq) w v =
      HasStarted-send_pfcp P (pfcp.set_sequence upf_seq response) addr _ w.server v
  HasStarted-advance P now (arriving _ _) w v = v
  HasStarted-advance P now (authorising _ _ _) w v = v
  HasStarted-advance P now (reading_smf _ _ _) w v = v
  HasStarted-advance P now (claiming _ _ _ _) w v = v
  HasStarted-advance P now (renumbering _ _ _ _ _) w v = v
  HasStarted-advance P now (forgetting _) w v = v
  HasStarted-advance P now (taking_answer _) w v = v
  HasStarted-advance P now (taking_failure _ _) w v = v
  HasStarted-advance P now finished w v = v
  HasStarted-advance P now panicked w v = v

  pub advance-IsWellFormed :
      (now : ℕ) (p : Position M) (w : World Hooked)
      → IsWellFormed (relays_of w)
      → IsWellFormed (relays_of (advance M now p w).0)
  unfolding advance reject_session_report
  advance-IsWellFormed now (claiming report smf addr under) w v =
      relay_report_sequence-IsWellFormed addr (pfcp.sequence report) now under (relays_of w) v
  advance-IsWellFormed now (renumbering attempts report smf addr seq) w v =
      renumber_report_relay-IsWellFormed seq (relays_of w) v
  advance-IsWellFormed now (forgetting seq) w v =
      forget_report_relay-IsWellFormed seq (relays_of w) v
  advance-IsWellFormed now (taking_answer response) w v =
      take_report_relay-IsWellFormed (pfcp.sequence response) now (relays_of w) v
  advance-IsWellFormed now (taking_failure seid seq) w v =
      take_report_relay-IsWellFormed seq now (relays_of w) v
  advance-IsWellFormed now (sending _ _ _ _ _) w v = v
  advance-IsWellFormed now (rejecting _ _ _) w v = v
  advance-IsWellFormed now (refusing _ _ _ _) w v = v
  advance-IsWellFormed now (returning _ _ _) w v = v
  advance-IsWellFormed now (arriving _ _) w v = v
  advance-IsWellFormed now (authorising _ _ _) w v = v
  advance-IsWellFormed now (reading_smf _ _ _) w v = v
  advance-IsWellFormed now finished w v = v
  advance-IsWellFormed now panicked w v = v
