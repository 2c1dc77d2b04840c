-- ===== src/Udp/Tests.antt =====
-- Runs of the PFCP socket, and the theorems about it at
-- concrete inputs.
use upfadapter.Prelude.{
  ℕ, ◌≡◌, refl, true, Option, none, some, [], ◌∷◌, nat_key, text_key, ℕ_discrete, Text-discrete,
  lookup, insert, delete, mem, arith, lookup-nil,
}
use upfadapter.Pfcp.{session_report_request, session_report_response, heartbeat_request}
use upfadapter.Sample.{test_net, test_pfcp, Message, peer}
use upfadapter.Udp.{
  new_transaction, send_pfcp, find_transaction, receive, resend, dispatch, packet, socket_error,
  read_packet, read_pfcp_message, read_loop,
}
use upfadapter.Udp.Tables.{
  Transaction, Server, duplicate_sequence, load_or_store, still_holds, put_once, put_loop,
  put_transaction, register_and_start, remove_transaction, delete_hosts, delete_by_host,
  forget_consumer, notify, receive_resend_request,
}
use upfadapter.Udp.Register.{tx_at, IsSeparate, PutPost, put_transaction-PutPost}
use upfadapter.Udp.Resend.{send_pfcp_absorbs}
use upfadapter.LifeCycle.{expired, start_tx_life_cycle}
use upfadapter.LifeCycle.Ending.{start_tx_life_cycle_undoes}
use upfadapter.Udp.Calls.{send_call, run, step, run-IsSeparate}

program : Unit {0}
unfolding load_or_store still_holds put_once put_loop put_transaction register_and_start
    remove_transaction delete_hosts delete_by_host forget_consumer new_transaction send_pfcp
    find_transaction receive read_packet read_pfcp_message read_loop lookup insert delete mem
    ℕ_discrete Text-discrete
program = tt

abbrev quiet : Server ℕ
quiet = record {
  addr = record { ip = some (10 ∷ 0 ∷ 0 ∷ 1 ∷ []); port = 8805 };
  listening = true;
  local_addr = 10 ∷ 0 ∷ 0 ∷ 1 ∷ b':' ∷ 8805 ∷ [];
  consumers = [];
  tables = [];
  next_table = 0;
  next_tx = 0;
  channels = [];
  started = [];
}

abbrev report : Message
report = record { kind = session_report_request; number = 5 }

abbrev answer : Message
answer = record { kind = session_report_response; number = 5 }

abbrev beat : Message
beat = record { kind = heartbeat_request; number = 6 }

abbrev server : Option (Server ℕ) → Server ℕ
server none = quiet
server (some s) = s

-- The answer was sent to the peer.
abbrev answered : Server ℕ
answered = server (send_pfcp answer peer 0 (some quiet)).0

abbrev answer_tx : Transaction ℕ
answer_tx = (new_transaction answer (57 ∷ 5 ∷ []) peer 0 quiet).1

quiet-IsSeparate : IsSeparate quiet
quiet-IsSeparate = record {
  distinct = λ c c' id e e'. absurd (ground (arith, e, lookup-nil {V = ℕ} c));
  given = λ c id e. absurd (ground (arith, e, lookup-nil {V = ℕ} c));
}

sent_answer : send_pfcp answer peer 0 (some quiet) ≡ (some answered, none)
unfolding program
sent_answer = refl

held_answer : tx_at answered (test_net.udp_string peer) 5 ≡ some answer_tx
unfolding program
held_answer = refl

absorbed : (receive report peer answered).1 ≡ resend
unfolding program
absorbed = refl

dispatched : (receive report peer quiet).1 ≡ dispatch report peer
unfolding program
dispatched = refl

duplicate : (send_pfcp answer peer 0 (some answered)).1 ≡ some duplicate_sequence
unfolding program
duplicate = refl

put_transaction-PutPost_example : PutPost answer_tx quiet (put_transaction answer_tx quiet)
put_transaction-PutPost_example = put_transaction-PutPost answer_tx quiet quiet-IsSeparate

abbrev answered-IsSeparate : IsSeparate answered
unfolding program step run
answered-IsSeparate = run-IsSeparate (send_call answer peer 0 ∷ []) quiet quiet-IsSeparate

send_pfcp_absorbs_example :
    (tx : Transaction ℕ) × (test_pfcp.marshal answer ≡ some tx.send_msg)
    × (receive report peer answered ≡ (notify tx.id receive_resend_request answered, resend))
send_pfcp_absorbs_example =
    send_pfcp_absorbs answer report peer 0 quiet answered refl refl refl quiet-IsSeparate
      sent_answer

looped :
    (read_loop
      (packet (56 ∷ 5 ∷ []) peer ∷ socket_error ∷ packet (1 ∷ 6 ∷ []) peer ∷ [])
      (some answered)).1
    ≡ (beat, peer) ∷ []
unfolding program
looped = refl

registered_answer : put_transaction answer_tx quiet ≡ ((put_transaction answer_tx quiet).0, none)
unfolding program
registered_answer = refl

start_tx_life_cycle_undoes_example :
    tx_at
      (start_tx_life_cycle {M = Message}
        (λ e. some e)
        answer_tx
        (λ k. record { writes = true; wait = expired })
        (put_transaction answer_tx quiet).0).0
      (test_net.udp_string peer)
      5
    ≡ tx_at quiet (test_net.udp_string peer) 5
start_tx_life_cycle_undoes_example =
    start_tx_life_cycle_undoes Message (λ e. some e) answer_tx
      (λ k. record { writes = true; wait = expired }) quiet (put_transaction answer_tx quiet).0
      quiet-IsSeparate registered_answer (test_net.udp_string peer) 5
