-- ===== src/Goroutine/Tests.antt =====
-- The theorems about the goroutines of the handlers of session reports at concrete inputs.
use upfadapter.Prelude.{
  ℕ, ◌≡◌, ◌≢◌, refl, ◌*◌, true, false, none, some, List, [], ◌∷◌, ℕ_discrete, Text-discrete,
  nat_key, text_key, lookup, insert, delete, contains, is_empty, arith,
}
use upfadapter.Net.{Text, second, Ip}
use upfadapter.Pfcp.{session_report_request}
use upfadapter.Sample.{test_net, test_pfcp, Message, peer, printed}
use upfadapter.Relay.{
  relay_report_sequence, relay_generation, claim_report, claim_number, relay_from_locked,
  relay_from_loop, record_relay_locked, drop_relay_locked, sweep_relays_locked, sweep_relays,
  sweep_relay, sweep_generations, forget_relays_for_host, drop_all, next_free_relay_sequence,
  free_loop,
}
use upfadapter.Relay.Index.{at_host}
use upfadapter.Relay.WellFormed.{IsWellFormed}
use upfadapter.Peers.{
  is_known_upf_addr, any_recent, record_upf_addr, note_node, expire_upf_addrs_locked, expire_nodes,
  expire_node, place_node, leave_address, forget_upf_addr_locked,
}
use upfadapter.Peers.Forget.{IsGuarded}
use upfadapter.Smf.{smf_addr, set_smf_addr}
use upfadapter.Udp.{send_pfcp, new_transaction}
use upfadapter.Udp.Tables.{
  Server, register_and_start, put_transaction, put_loop, put_once, load_or_store, still_holds,
  forget_consumer, delete_by_host, delete_hosts,
}
use upfadapter.Report.{World, relays_of, EventData}
use upfadapter.Adapter.{Hooked}
use upfadapter.Goroutine.{
  finished, panicked, on_request, advance, after_check, after_smf, after_claim, after_send,
  next_attempt,
}
use upfadapter.Goroutine.Interleaved.{Event, requested, calls, names, claims_smf, idle, step, run}
use upfadapter.Goroutine.Guarded.{run_keeps_to_held_addresses}
use upfadapter.Goroutine.Attended.{Attended, WasSmf, run_strands_no_relay}

program : Unit {0}
unfolding relay_generation relay_report_sequence claim_report claim_number relay_from_locked
    relay_from_loop record_relay_locked drop_relay_locked sweep_relays_locked sweep_relays
    sweep_relay sweep_generations forget_relays_for_host drop_all next_free_relay_sequence free_loop
    is_known_upf_addr any_recent record_upf_addr note_node expire_upf_addrs_locked expire_nodes
    expire_node place_node leave_address forget_upf_addr_locked smf_addr set_smf_addr send_pfcp
    new_transaction register_and_start put_transaction put_loop put_once load_or_store still_holds
    forget_consumer delete_by_host delete_hosts on_request advance after_check after_smf after_claim
    after_send next_attempt step run lookup insert delete is_empty Text-discrete ℕ_discrete
program = tt

abbrev socket : Server EventData
socket = record {
  addr = record { ip = some (10 ∷ 0 ∷ 0 ∷ 1 ∷ []); port = 8805 };
  listening = true;
  local_addr = 10 ∷ 0 ∷ 0 ∷ 1 ∷ b':' ∷ 8805 ∷ [];
  consumers = [];
  tables = [];
  next_table = 0;
  next_tx = 0;
  channels = [];
  started = [];
}

abbrev report : Message
report = record { kind = session_report_request; number = 5 }

abbrev node : Text
node = b'u' ∷ []

abbrev there : Ip
there = some (10 ∷ 0 ∷ 0 ∷ 9 ∷ [])

abbrev elsewhere : Ip
elsewhere = some (10 ∷ 0 ∷ 0 ∷ 8 ∷ [])

-- The user plane is named, and its report passes the test of the source. Before it is claimed the
-- SMF names the user plane at another address.
abbrev moved : List (Event Message)
moved =
    claims_smf (10 ∷ 7 ∷ [])
    ∷ names (100 * second) (100 * second) node there
    ∷ requested report (some peer)
    ∷ calls 0 (101 * second)
    ∷ calls 0 (101 * second)
    ∷ names (102 * second) (102 * second) node elsewhere
    ∷ calls 0 (103 * second)
    ∷ calls 0 (103 * second)
    ∷ []

-- Nothing is claimed.
moved_unclaimed : (relays_of (run (idle {M = Message} none (some socket)) moved).world).relays ≡ []
unfolding program
moved_unclaimed = refl

run_keeps_to_held_addresses_example :
    let g = run (idle {M = Message} none (some socket)) moved in
    IsWellFormed (relays_of g.world)
    × IsGuarded g.world.peers
    × ((i : ℕ) → lookup i g.running ≢ some panicked)
unfolding program
run_keeps_to_held_addresses_example =
    run_keeps_to_held_addresses printed none (some socket) moved (omega arith)

-- A handler reads the count of an address that was released once; then the claim of another report
-- sweeps the count away, and the address is released again. The count is what the handler read, and
-- its claim passes.
abbrev swept_meanwhile : List (Event Message)
swept_meanwhile =
    claims_smf (10 ∷ 7 ∷ [])
    ∷ names (100 * second) (100 * second) node there
    ∷ names (101 * second) (101 * second) node elsewhere
    ∷ names (102 * second) (102 * second) (b'v' ∷ []) there
    ∷ requested report (some peer)
    ∷ calls 0 (131 * second)
    ∷ calls 0 (131 * second)
    ∷ calls 0 (131 * second)
    ∷ requested report (some (record { ip = elsewhere; port = 8805 }))
    ∷ calls 1 (132 * second)
    ∷ calls 1 (132 * second)
    ∷ calls 1 (132 * second)
    ∷ calls 1 (132 * second)
    ∷ names (133 * second) (133 * second) (b'v' ∷ []) (some (10 ∷ 0 ∷ 0 ∷ 7 ∷ []))
    ∷ calls 0 (133 * second)
    ∷ []

-- The address is not held, and has a relay.
swept_meanwhile_claimed :
    let w = (run (idle {M = Message} none (some socket)) swept_meanwhile).world in
    (contains (10 ∷ 0 ∷ 0 ∷ 9 ∷ []) w.peers.addrs ≡ false)
    × (at_host (10 ∷ 0 ∷ 0 ∷ 9 ∷ []) (lookup 8388609 (relays_of w).relays) ≡ true)
unfolding program
swept_meanwhile_claimed = (refl, refl)

-- A report is relayed.
abbrev relayed : List (Event Message)
relayed =
    claims_smf (10 ∷ 7 ∷ [])
    ∷ names (100 * second) (100 * second) node there
    ∷ requested report (some peer)
    ∷ calls 0 (101 * second)
    ∷ calls 0 (101 * second)
    ∷ calls 0 (101 * second)
    ∷ calls 0 (101 * second)
    ∷ calls 0 (101 * second)
    ∷ []

run_strands_no_relay_example :
    Attended (WasSmf none relayed) 8388608 (run (idle {M = Message} none (some socket)) relayed)
unfolding program
run_strands_no_relay_example = run_strands_no_relay none (some socket) relayed 8388608 refl

-- Its handler is through.
relayed_finished :
    lookup 0 (run (idle {M = Message} none (some socket)) relayed).running ≡ some finished
unfolding program
relayed_finished = refl

abbrev named : World Hooked
named =
    (run (idle {M = Message} none (some socket))
      (claims_smf (10 ∷ 7 ∷ []) ∷ names (100 * second) (100 * second) node there ∷ [])).world

abbrev later : List ℕ
later = 1 ∷ 2 ∷ 3 ∷ 4 ∷ 5 ∷ 6 ∷ 7 ∷ 8 ∷ 9 ∷ 10 ∷ []
