-- ===== src/Relay/Calls.antt =====
-- Every sequence of calls on the relay tables of config/config.go. Each call holds reportRelayMutex
-- throughout, so whatever goroutines make them, they come one after the other.
use upfadapter.Prelude.{ℕ, ◌≤◌, ◌≡◌, sym, ◌∙◌, List, [], ◌∷◌, nat_key, text_key, ℕ_discrete, arith}
use upfadapter.Net.{Net, UdpAddr, Text}
use upfadapter.Relay.{
  RelayTable, empty_table, relay_report_sequence, renumber_report_relay, take_report_relay,
  forget_report_relay, forget_relays_for_host,
}
use upfadapter.Relay.Search.{IsOutstanding}
use upfadapter.Relay.Invariant.{SameOrigin}
use upfadapter.Relay.WellFormed.{
  IsWellFormed, empty_table-IsWellFormed, relay_report_sequence-IsWellFormed,
  renumber_report_relay-IsWellFormed, take_report_relay-IsWellFormed,
  forget_report_relay-IsWellFormed, forget_relays_for_host-IsWellFormed,
}

-- A call on the tables.
pub data Call : Type 0 where
  report : UdpAddr → ℕ → ℕ → ℕ → Call
  renumber forget : ℕ → Call
  take : ℕ → ℕ → Call
  release : Text → ℕ → Call

module _ ⦃net : Net⦄ where
  unfoldable pub step : RelayTable → Call → RelayTable
  step t (report addr upf_seq now authorised_under) =
      (relay_report_sequence addr upf_seq now authorised_under t).0
  step t (renumber seq) = (renumber_report_relay seq t).0
  step t (take seq now) = (take_report_relay seq now t).0
  step t (forget seq) = forget_report_relay seq t
  step t (release addr now) = forget_relays_for_host addr now t

  unfoldable pub run : RelayTable → List Call → RelayTable
  run t [] = t
  run t (c ∷ cs) = run (step t c) cs

  pub step-IsWellFormed : (t : RelayTable) (c : Call) → IsWellFormed t → IsWellFormed (step t c)
  unfolding step
  step-IsWellFormed t (report addr upf_seq now authorised_under) v =
      relay_report_sequence-IsWellFormed addr upf_seq now authorised_under t v
  step-IsWellFormed t (renumber seq) v = renumber_report_relay-IsWellFormed seq t v
  step-IsWellFormed t (take seq now) v = take_report_relay-IsWellFormed seq now t v
  step-IsWellFormed t (forget seq) v = forget_report_relay-IsWellFormed seq t v
  step-IsWellFormed t (release addr now) v = forget_relays_for_host-IsWellFormed addr now t v

  run_from-IsWellFormed :
      (t : RelayTable) (cs : List Call) → IsWellFormed t → IsWellFormed (run t cs)
  unfolding run
  run_from-IsWellFormed t [] v = v
  run_from-IsWellFormed t (c ∷ cs) v = run_from-IsWellFormed (step t c) cs (step-IsWellFormed t c v)

  -- After any sequence of calls on the empty tables the index holds exactly the relays of the table
  -- by the address of their peer and no empty bucket, every number is in the adapter's range, and of
  -- two relays of one report one had outlived its lifetime when the other was recorded.
  pub run-IsWellFormed : (cs : List Call) → IsWellFormed (run empty_table cs)
  run-IsWellFormed cs = run_from-IsWellFormed empty_table cs empty_table-IsWellFormed

  -- One report has one relay: at a time not before either was recorded, no two numbers are
  -- outstanding for it, after any sequence of calls on the empty tables.
  pub one_relay_per_report :
      (cs : List Call) (addr : UdpAddr) (upf_seq now k k' : ℕ)
      (o : IsOutstanding addr upf_seq now (run empty_table cs) k)
      (o' : IsOutstanding addr upf_seq now (run empty_table cs) k')
      → o.relay.recorded ≤ now
      → o'.relay.recorded ≤ now
      → k ≡ k'
  one_relay_per_report cs addr upf_seq now k k' o o' past past' =
      let v = run-IsWellFormed cs in
      let same : SameOrigin o.relay o'.relay = record {
        same_host = o.same_host ∙ sym o'.same_host;
        same_port = o.same_port ∙ sym o'.same_port;
        same_seq = o.same_seq ∙ sym o'.same_seq;
      } in
      elim (ℕ_discrete k k') [
        | yes e ↦ e
        | no other ↦
            let apart = v.sound.solo k k' o.relay o'.relay o.stored o'.stored other same in
            absurd (ground (arith, apart, o.live, o'.live))
      ]
