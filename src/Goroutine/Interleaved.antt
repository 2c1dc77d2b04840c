-- ===== src/Goroutine/Interleaved.antt =====
-- The goroutines of the handlers of session reports together (pfcp/handler/handler.go), with what
-- else of the adapter touches the tables that they share: RecordUpfAddr and SetSmfAddr of
-- config/config.go, and the sends, reads and endings of pfcp/udp.
use upfadapter.Prelude.{
  ℕ, suc, ◌≤◌, Option, none, some, List, [], ◌∷◌, nat_key, Map, lookup, insert,
}
use upfadapter.Net.{Net, Text, Ip, UdpAddr}
use upfadapter.Pfcp.{Pfcp}
use upfadapter.Relay.{empty_table, relay_generation}
use upfadapter.Udp.{Packet, read_pfcp_message}
use upfadapter.Udp.Tables.{Transaction, remove_transaction}
use upfadapter.Smf.{set_smf_addr}
use upfadapter.Report.{World, EventData, relays_of, send}
use upfadapter.Adapter.{Hooked, name_peer}
use upfadapter.Goroutine.{
  Position, authorising, reading_smf, claiming, taking_failure, on_request, on_response, advance,
}

-- The goroutines by number, each at its place; the next one gets the number that is next.
pub record Goroutines (M : Type 0) : Type 0 where
  pub world : World Hooked
  pub running : Map ℕ (Position M)
  pub next : ℕ

-- Nothing was named, no report came, and no handler runs.
abbrev pub idle : {M : Type 0} → Ip → Hooked → Goroutines M
idle smf server = record {
  world = record {
    peers = record { addrs = []; nodes = []; relay_table = empty_table; hooked = none };
    smf = smf;
    server = server;
  };
  running = [];
  next = 0;
}

-- What happens next: a handler is started, by Dispatch or by a transaction that ends; a goroutine
-- makes its next call; the SMF names a user plane or itself; a message is sent; the socket is read; a
-- transaction is removed.
pub data Event (M : Type 0) : Type 0 where
  requested : M → Option UdpAddr → Event M
  responded : M → Event M
  failed : ℕ → ℕ → Event M
  calls : ℕ → ℕ → Event M
  names : ℕ → ℕ → Text → Ip → Event M
  claims_smf : Text → Event M
  sends : M → UdpAddr → EventData → Event M
  reads : Packet → Event M
  ends : Transaction EventData → Event M

-- removeTransaction, where the server may not be there yet.
abbrev pub end_transaction : Transaction EventData → Hooked → Hooked
end_transaction tx none = none
end_transaction tx (some s) = some (remove_transaction tx s).0

module _ ⦃net : Net⦄ where
  -- The count of this address does not fall from one world to the next.
  abbrev pub NotFallen : World Hooked → World Hooked → Option (Text × ℕ) → Type 0
  NotFallen w w' none = Unit
  NotFallen w w' (some (host, under)) =
      relay_generation host (relays_of w) ≤ relay_generation host (relays_of w')

module _ {M : Type 0} ⦃net : Net⦄ ⦃pfcp : Pfcp M⦄ where
  abbrev pub start : Position M → Goroutines M → Goroutines M
  start p g = record g { running = insert g.next p g.running; next = suc g.next }

  abbrev pub resume : ℕ → World Hooked × Position M → Goroutines M → Goroutines M
  resume i r g = record g { world = r.0; running = insert i r.1 g.running }

  unfoldable pub step : Goroutines M → Event M → Goroutines M
  step g (requested report addr) = start (on_request report addr) g
  step g (responded response) = start (on_response response) g
  step g (failed seid seq) = start (taking_failure seid seq) g
  step g (calls i now) = elim (lookup i g.running) [
    | none ↦ g
    | some p ↦ resume i (advance M now p g.world) g
  ]
  step g (names now clock node ip) = record g { world = name_peer now clock node ip g.world }
  step g (claims_smf ip) = record g { world = record g.world { smf = set_smf_addr ip g.world.smf } }
  step g (sends msg dest event_data) = record g { world = (send M msg dest event_data g.world).0 }
  step g (reads arrived) = record g {
    world = record g.world { server = (read_pfcp_message {M = M} arrived g.world.server).0 };
  }
  step g (ends tx) = record g {
    world = record g.world { server = end_transaction tx g.world.server };
  }

  unfoldable pub run : Goroutines M → List (Event M) → Goroutines M
  run g [] = g
  run g (e ∷ es) = run (step g e) es

  -- The count of releases that a goroutine has read and not yet claimed under, with its address.
  abbrev pub carried : Position M → Option (Text × ℕ)
  carried (authorising report addr under) = some (net.ip_string addr.ip, under)
  carried (reading_smf report addr under) = some (net.ip_string addr.ip, under)
  carried (claiming report smf addr under) = some (net.ip_string addr.ip, under)
  carried _ = none

  -- No count falls that a goroutine carries an earlier reading of, as it would by a sweep of its
  -- entry, and at its 2^64th release.
  abbrev pub Steady : World Hooked → World Hooked → Map ℕ (Position M) → Type 0
  Steady w w' [] = Unit
  Steady w w' ((i, p) ∷ rest) = NotFallen w w' (carried p) × Steady w w' rest

  abbrev pub AllSteady : Goroutines M → List (Event M) → Type 0
  AllSteady g [] = Unit
  AllSteady g (e ∷ es) = Steady g.world (step g e).world g.running × AllSteady (step g e) es
