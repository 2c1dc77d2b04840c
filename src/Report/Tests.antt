-- ===== src/Report/Tests.antt =====
-- The theorems about the handlers of session reports at concrete inputs.
use upfadapter.Prelude.{
  ℕ, ◌≡◌, refl, ite, ◌*◌, true, false, none, some, List, [], ◌∷◌, ℕ_discrete, Text-discrete,
  nat_key, text_key, lookup, arith, lookup-nil,
}
use upfadapter.Net.{Text, UdpAddr, second}
use upfadapter.Pfcp.{session_report_request, session_report_response}
use upfadapter.Sample.{test_net, test_pfcp, Message, peer}
use upfadapter.Relay.{ReportRelay, RelayTable, empty_table, take_report_relay}
use upfadapter.Relay.WellFormed.{empty_table-IsWellFormed}
use upfadapter.Peers.{is_known_upf_addr, any_recent}
use upfadapter.Smf.{smf_addr, pfcp_port}
use upfadapter.Udp.Tables.{Server}
use upfadapter.Udp.Register.{IsSeparate}
use upfadapter.Report.{
  relay_unanswered, EventData, World, relays_of, handle_pfcp_session_report_request,
  handle_pfcp_session_report_response,
}
use upfadapter.Report.Outcomes.{Answered, IsOpen, Encodes}
use upfadapter.Report.Handling.{Handled, handle_pfcp_session_report_request-Handled}
use upfadapter.Report.Returning.{
  handle_pfcp_session_report_response_returns, relay_unanswered_refuses,
}

program : Unit {0}
unfolding is_known_upf_addr any_recent take_report_relay smf_addr lookup Text-discrete ℕ_discrete
program = tt

abbrev socket : Server EventData
socket = record {
  addr = record { ip = some (10 ∷ 0 ∷ 0 ∷ 1 ∷ []); port = 8805 };
  listening = true;
  local_addr = 10 ∷ 0 ∷ 0 ∷ 1 ∷ b':' ∷ 8805 ∷ [];
  consumers = [];
  tables = [];
  next_table = 0;
  next_tx = 0;
  channels = [];
  started = [];
}

abbrev host : Text
host = 10 ∷ 0 ∷ 0 ∷ 9 ∷ []

abbrev node : Text
node = b'u' ∷ []

-- One user plane is named, at the peer's address, and these relays are held.
abbrev named : RelayTable → World (List Text)
named t = record {
  peers = record {
    addrs = (host, (node, tt) ∷ []) ∷ [];
    nodes = (node, record { seen = 100 * second; addr = host }) ∷ [];
    relay_table = t;
    hooked = [];
  };
  smf = some (10 ∷ 7 ∷ []);
  server = some socket;
}

socket-IsSeparate : IsSeparate socket
socket-IsSeparate = record {
  distinct = λ c c' id e e'. absurd (ground (arith, e, lookup-nil {V = ℕ} c));
  given = λ c id e. absurd (ground (arith, e, lookup-nil {V = ℕ} c));
}

named-IsOpen : (t : RelayTable) → IsOpen [] (named t)
named-IsOpen t = record {
  socket = socket;
  there = refl;
  listens = refl;
  separate = socket-IsSeparate;
  began = refl;
}

test_pfcp-Encodes : Encodes Message
test_pfcp-Encodes = record {
  encoded = λ m. (_, refl);
  rejection_number = λ seid seq. refl;
  rejection_answers = λ seid seq. refl;
  set_sequence_number = λ seq m. refl;
  set_sequence_type = λ seq m. refl;
}

abbrev report : Message
report = record { kind = session_report_request; number = 5 }

abbrev smf : UdpAddr
smf = record { ip = some (10 ∷ 7 ∷ []); port = pfcp_port }

abbrev at : ℕ
at = 101 * second

handle_pfcp_session_report_request-Handled_example :
    (w' : World (List Text)) × (handle_pfcp_session_report_request Message report
        (some peer)
        at
        at
        (named empty_table)
      ≡ some w')
    × Handled report smf peer at []
        (upfadapter.Relay.sweep_relays_locked at empty_table)
        (named empty_table)
        w'
unfolding program
handle_pfcp_session_report_request-Handled_example =
    handle_pfcp_session_report_request-Handled report smf peer at [] test_pfcp-Encodes
      (named empty_table) at empty_table-IsWellFormed.indexed (named-IsOpen empty_table) refl refl
      refl

-- The report is relayed under this number.
abbrev relay_seq : ℕ
relay_seq = 8388608

abbrev one_relay : RelayTable
one_relay = record empty_table {
  relays =
      (relay_seq, record { upf_addr = peer; recorded = at; upf_seq = 5; answered = false }) ∷ [];
}

abbrev answer : Message
answer = record { kind = session_report_response; number = relay_seq }

handle_pfcp_session_report_response_returns_example :
    (s : Server EventData) × ((handle_pfcp_session_report_response Message answer at
        (named one_relay)).server
      ≡ some s)
    × Answered (test_pfcp.set_sequence 5 answer) 5 peer (named-IsOpen one_relay).socket s
    × ((k : ℕ)
        → lookup k
            (relays_of
              (handle_pfcp_session_report_response Message answer at (named one_relay))).relays
          ≡ ite
              (ℕ_discrete relay_seq k)
              none
              (lookup k (take_report_relay relay_seq at one_relay).0.relays))
unfolding program
handle_pfcp_session_report_response_returns_example =
    handle_pfcp_session_report_response_returns test_pfcp-Encodes answer at 5 peer []
      (named one_relay) (take_report_relay relay_seq at one_relay).0 (named-IsOpen one_relay) refl
      refl refl

relay_unanswered_refuses_example :
    (s : Server EventData) × ((relay_unanswered Message 7 relay_seq at (named one_relay)).server
      ≡ some s)
    × Answered (test_pfcp.report_rejection 7 5) 5 peer (named-IsOpen one_relay).socket s
    × ((k : ℕ)
        → lookup k (relays_of (relay_unanswered Message 7 relay_seq at (named one_relay))).relays
          ≡ ite
              (ℕ_discrete relay_seq k)
              none
              (lookup k (take_report_relay relay_seq at one_relay).0.relays))
unfolding program
relay_unanswered_refuses_example =
    relay_unanswered_refuses test_pfcp-Encodes 7 relay_seq at 5 peer [] (named one_relay)
      (take_report_relay relay_seq at one_relay).0 (named-IsOpen one_relay) refl
