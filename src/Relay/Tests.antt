-- ===== src/Relay/Tests.antt =====
-- Runs of the relay tables, and the theorems about them at concrete inputs.
use upfadapter.Prelude.{
  drop_from_host, ℕ, ◌+◌, ◌*◌, ◌≤◌, ◌≡◌, ◌↔◌, refl, true, none, some, [], ◌∷◌, List, if◌then◌else◌,
  ltb, ◌-◌, nat_key, text_key, ℕ_discrete, Text-discrete, Map, lookup, insert, delete, contains,
  mem, is_empty, arith,
}
use upfadapter.Net.{second}
use upfadapter.Sample.{test_net, peer}
use upfadapter.Relay.{
  relay_from_locked, held, ReportRelay, RelayTable, empty_table, relay_sequence_floor, fresh,
  retransmission, peer_released, renumbered, free_loop, next_free_relay_sequence, relay_from_loop,
  relay_from_locked, record_relay_locked, drop_relay_locked, sweep_relay, sweep_relays,
  sweep_generations, sweep_relays_locked, relay_generation, claim_number, claim_report,
  relay_report_sequence, renumber_to, renumber_report_relay, drop_all, forget_relays_for_host,
  forget_report_relay, take_report_relay, relay_sweep_interval,
}
use upfadapter.Relay.Index.{at_host}
use upfadapter.Relay.Sequence.{
  next_free_relay_sequence-FoundPost, FoundPost, next_free_relay_sequence-none_iff,
}
use upfadapter.Relay.Absorbs.{relay_from_locked-take_report_relay}
use upfadapter.Relay.Sweep.{SweepPost, sweep_relays_locked-SweepPost}
use upfadapter.Relay.Search.{IsOutstanding}
use upfadapter.Relay.Claims.{new_relay, ClaimPost, relay_report_sequence-ClaimPost}
use upfadapter.Relay.Release.{forget_relays_for_host_revokes}
use upfadapter.Relay.Answer.{
  TakePost, RenumberPost, take_report_relay-TakePost, renumber_report_relay-RenumberPost,
}
use upfadapter.Relay.WellFormed.{
  IsWellFormed, empty_table-IsWellFormed, relay_report_sequence-IsWellFormed,
}
use upfadapter.Relay.Calls.{Call, report, step, run, run-IsWellFormed, one_relay_per_report}

program : Unit {0}
unfolding free_loop next_free_relay_sequence relay_from_loop relay_from_locked record_relay_locked
    drop_relay_locked drop_from_host sweep_relay sweep_relays sweep_generations sweep_relays_locked
    relay_generation claim_number claim_report relay_report_sequence renumber_to
    renumber_report_relay drop_all forget_relays_for_host forget_report_relay take_report_relay
    lookup insert delete is_empty mem ℕ_discrete Text-discrete
program = tt

-- One report from the peer, under its number 7, at 100 seconds.
abbrev one_table : RelayTable
one_table = (relay_report_sequence peer 7 (100 * second) 0 empty_table).0

first_number :
    (relay_report_sequence peer 7 (100 * second) 0 empty_table).1 ≡ fresh relay_sequence_floor
unfolding program
first_number = refl

copy_absorbed :
    (relay_report_sequence peer 7 (101 * second) 0 one_table).1
    ≡ retransmission relay_sequence_floor
unfolding program
copy_absorbed = refl

copy_after_lifetime :
    (relay_report_sequence peer 7 (131 * second) 0 one_table).1 ≡ fresh (relay_sequence_floor + 1)
unfolding program
copy_after_lifetime = refl

refused_after_release :
    (relay_report_sequence peer 7
      (101 * second)
      0
      (forget_relays_for_host (10 ∷ 0 ∷ 0 ∷ 9 ∷ []) (100 * second) one_table)).1
    ≡ peer_released
unfolding program
refused_after_release = refl

answer_once : (take_report_relay relay_sequence_floor (102 * second) one_table).1 ≡ some (peer, 7)
unfolding program
answer_once = refl

moved :
    (renumber_report_relay relay_sequence_floor one_table).1 ≡ renumbered (relay_sequence_floor + 1)
unfolding program
moved = refl

abbrev two_copies : List Call
two_copies = report peer 7 (100 * second) 0 ∷ report peer 7 (101 * second) 0 ∷ []

abbrev the_relay : ReportRelay
the_relay = new_relay peer 7 (100 * second)

outstanding_once :
    IsOutstanding peer 7 (102 * second) (run empty_table two_copies) relay_sequence_floor
unfolding program run step
outstanding_once = record {
  relay = the_relay;
  stored = refl;
  same_host = refl;
  same_port = refl;
  same_seq = refl;
  live = omega arith;
}

one_relay_per_report_example : ◌≡◌ {A = ℕ} relay_sequence_floor relay_sequence_floor
unfolding outstanding_once
one_relay_per_report_example =
    one_relay_per_report two_copies peer 7 (102 * second) relay_sequence_floor relay_sequence_floor
      outstanding_once outstanding_once (omega arith) (omega arith)

run-IsWellFormed_example : IsWellFormed (run empty_table two_copies)
run-IsWellFormed_example = run-IsWellFormed two_copies

one_table-IsWellFormed : IsWellFormed one_table
one_table-IsWellFormed =
    relay_report_sequence-IsWellFormed peer 7 (100 * second) 0 empty_table empty_table-IsWellFormed

relay_report_sequence-ClaimPost_example :
    ClaimPost peer 7
      (101 * second)
      (sweep_relays_locked (101 * second) one_table)
      (relay_report_sequence peer 7 (101 * second) 0 one_table)
unfolding program
relay_report_sequence-ClaimPost_example =
    relay_report_sequence-ClaimPost peer 7 (101 * second) one_table 0 one_table-IsWellFormed.indexed
      refl

forget_relays_for_host_revokes_example :
    let after = forget_relays_for_host (10 ∷ 0 ∷ 0 ∷ 9 ∷ []) (100 * second) one_table in
    ((s : ℕ)
      → lookup s after.relays ≡ (
          if at_host (10 ∷ 0 ∷ 0 ∷ 9 ∷ []) (lookup s one_table.relays)
          then none
          else lookup s one_table.relays))
    × (relay_report_sequence peer 7
          (101 * second)
          (relay_generation (10 ∷ 0 ∷ 0 ∷ 9 ∷ []) one_table)
          after
        ≡ (after, peer_released))
unfolding program
forget_relays_for_host_revokes_example =
    forget_relays_for_host_revokes one_table peer (100 * second) 7 (101 * second)
      one_table-IsWellFormed.indexed (omega arith)

take_report_relay-TakePost_example :
    TakePost relay_sequence_floor
      (102 * second)
      one_table
      (take_report_relay relay_sequence_floor (102 * second) one_table)
take_report_relay-TakePost_example =
    take_report_relay-TakePost relay_sequence_floor (102 * second) one_table

abbrev taken_table : RelayTable
taken_table = (take_report_relay relay_sequence_floor (102 * second) one_table).0

relay_from_locked-take_report_relay_example :
    let t =
      (take_report_relay relay_sequence_floor (102 * second) (run empty_table two_copies)).0 in
    (s : ℕ) × (relay_from_locked peer 7 (102 * second) t ≡ held s)
    × IsOutstanding peer 7 (102 * second) t s
relay_from_locked-take_report_relay_example =
    relay_from_locked-take_report_relay peer 7 (102 * second) relay_sequence_floor (102 * second)
      relay_sequence_floor (run empty_table two_copies) (run-IsWellFormed two_copies)
      outstanding_once

renumber_report_relay-RenumberPost_example :
    RenumberPost relay_sequence_floor one_table
      (renumber_report_relay relay_sequence_floor one_table)
renumber_report_relay-RenumberPost_example =
    renumber_report_relay-RenumberPost relay_sequence_floor one_table

-- In a range of three numbers, with 4 and 5 waited on.
abbrev crowded : Map ℕ ReportRelay
crowded = (4, the_relay) ∷ (5, the_relay) ∷ []

next_free_relay_sequence-FoundPost_example :
    FoundPost crowded 6 4 6 (omega arith) (omega arith) (next_free_relay_sequence crowded 6 4 6)
next_free_relay_sequence-FoundPost_example =
    next_free_relay_sequence-FoundPost crowded 6 4 6 (omega arith) (omega arith)

next_free_relay_sequence-none_iff_example :
    (next_free_relay_sequence crowded 6 4 5 ≡ none)
    ↔ ((x : ℕ) → 4 ≤ x → x ≤ 5 → contains x crowded ≡ true)
next_free_relay_sequence-none_iff_example =
    next_free_relay_sequence-none_iff crowded 6 4 5 (omega arith) (omega arith)

sweep_relays_locked-SweepPost_example :
    SweepPost
      (131 * second)
      one_table
      (sweep_relays_locked (131 * second) one_table)
      (ltb (131 * second - one_table.last_sweep) relay_sweep_interval)
sweep_relays_locked-SweepPost_example = sweep_relays_locked-SweepPost (131 * second) one_table
