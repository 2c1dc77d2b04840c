-- ===== src/System/Tests.antt =====
-- The theorems about the exchanges of the SMF with user planes at concrete inputs.
use upfadapter.Prelude.{
  ℕ, ◌≡◌, ◌+◌, ◌≢◌, refl, true, false, none, some, List, [], ◌∷◌, ℕ_discrete, Text-discrete,
  nat_key, text_key, lookup, insert, delete, mem, sym, subst, arith, lookup-nil,
}
use upfadapter.Net.{Text}
use upfadapter.Pfcp.{session_establishment_request}
use upfadapter.Sample.{test_net, Wire, wire_pfcp, wire_elements, peer}
use upfadapter.Relay.{empty_table}
use upfadapter.Relay.WellFormed.{empty_table-IsWellFormed}
use upfadapter.Node.{NodeId, ipv4_address, new_node_id, resolve_node_id_to_ip}
use upfadapter.Waiting.{insert_upf_pfcp_txn, get_upf_pfcp_txn}
use upfadapter.Udp.{send_pfcp, new_transaction}
use upfadapter.Udp.Tables.{
  Server, Transaction, sending_request, register_and_start, put_transaction, put_loop, put_once,
  load_or_store, still_holds,
}
use upfadapter.LifeCycle.{Round, expired, timed_out, start, request_loop}
use upfadapter.Report.{EventData, forwarded_request}
use upfadapter.Adapter.{
  Adapter, HttpRsp, rsp, err, done, locked_out, blocks, panics, put, receive_rsp,
}
use upfadapter.Handlers.{
  dispatch, dispatch_type, handle_pfcp_association_setup_response, accepted_association,
  handle_pfcp_heartbeat_response, encode_and_send_rsp, send_to_waiting, finish_transaction,
}
use upfadapter.Handlers.Mailbox.{HasMailbox}
use upfadapter.Handlers.Answers.{Delivers}
use upfadapter.Forward.{
  replied, forward_association_setup, Env, send_to_upf, register_and_send, rewritten,
  forward_request, forward_type, forward_pfcp_msg_to_upf,
}
use upfadapter.Forward.Registered.{ForwardPost, forward_pfcp_msg_to_upf-ForwardPost}
use upfadapter.Forward.Laws.{KeepsHeader}
use upfadapter.System.{Event, posts, dispatches, takes, run}
use upfadapter.Http.{Decoding, handler, forward_posted, name_upf}
use upfadapter.Peers.{
  record_upf_addr, note_node, expire_upf_addrs_locked, expire_nodes, expire_node, place_node,
  leave_address,
}
use upfadapter.System.Unblocked.{run_never_blocks}
use upfadapter.Retention.{answer_retention}
use upfadapter.Upfs.{
  associated_setup_success, unlocked, UpNode, is_node, is_upf_associated, get_upf_from_node_id,
  insert_upf_node, activate_upf_node, preserve_pfcp_association_rsp, accept_association,
}
use upfadapter.Upfs.Lookup.{IsAlone}
use upfadapter.Upfs.Settled.{empty-IsSettled}
use upfadapter.System.Order.{InOrder, run-InOrder, run_answers_associated}
use upfadapter.System.Exchange.{post_is_answered, failure_reaches_requester}

program : Unit {0}
unfolding record_upf_addr note_node expire_upf_addrs_locked expire_nodes expire_node place_node
    leave_address handler forward_posted name_upf send_to_upf register_and_send rewritten
    forward_request forward_type forward_pfcp_msg_to_upf run dispatch dispatch_type
    handle_pfcp_heartbeat_response handle_pfcp_association_setup_response accepted_association
    forward_association_setup is_upf_associated is_node get_upf_from_node_id insert_upf_node
    activate_upf_node preserve_pfcp_association_rsp accept_association new_node_id mem
    encode_and_send_rsp send_to_waiting put receive_rsp insert_upf_pfcp_txn get_upf_pfcp_txn
    resolve_node_id_to_ip send_pfcp register_and_start put_transaction put_loop put_once
    load_or_store still_holds new_transaction start request_loop lookup insert delete ℕ_discrete
    Text-discrete
program = tt

abbrev home : Text
home = 10 ∷ 0 ∷ 0 ∷ 1 ∷ []

abbrev socket : Server EventData
socket = record {
  addr = record { ip = some home; port = 8805 };
  listening = true;
  local_addr = 10 ∷ 0 ∷ 0 ∷ 1 ∷ b':' ∷ 8805 ∷ [];
  consumers = [];
  tables = [];
  next_table = 0;
  next_tx = 0;
  channels = [];
  started = [];
}

-- An adapter that no request waits in.
abbrev idle : Adapter Wire
idle = record {
  world = record {
    peers = record { addrs = []; nodes = []; relay_table = empty_table; hooked = none };
    smf = none;
    server = some socket;
  };
  txns = [];
  buffers = [];
  next_chan = 0;
  upfs = [];
  names = [];
}

idle-HasMailbox : HasMailbox idle
idle-HasMailbox = record {
  empty = λ s c e. lookup-nil {V = HttpRsp} c;
  single = λ s s' c e e'. absurd (ground (arith, e, lookup-nil {V = ℕ} s));
  made = λ s c e. absurd (ground (arith, e, lookup-nil {V = ℕ} s));
  unused = λ c above. lookup-nil {V = HttpRsp} c;
}

wire-KeepsHeader : KeepsHeader Wire
wire-KeepsHeader = record {
  time_stamp = λ t m. (refl, refl);
  node = λ name m. (refl, refl);
  fseid = λ seid ip m. (refl, refl);
  wire = λ bytes m e. (m, ground (arith, e), (refl, refl));
}

abbrev env : Env
env = record { resolver = λ name. none; order = []; adapter_ip = some home; start_time = 0 }

abbrev upf : NodeId
upf = record {
  node_id_type = ipv4_address;
  node_id_value = 10 ∷ 0 ∷ 0 ∷ 9 ∷ [];
  value_is_nil = false;
}

-- A body is the message to be forwarded to this user plane.
abbrev decoding : Decoding
decoding = record {
  unmarshal = λ body. some (record { smf_ip = 10 ∷ 7 ∷ []; body = body; up_node_id = upf });
  node_key = λ node. node.node_id_value;
}

abbrev request : Wire
request = record { kind = 50; number = 9 }

abbrev response : Wire
response = record { kind = 51; number = 9 }

abbrev heartbeat : Wire
heartbeat = record { kind = 2; number = 3 }

forward_pfcp_msg_to_upf-ForwardPost_example :
    ForwardPost env session_establishment_request request 0
      (record idle { next_chan = 1 })
      (forward_pfcp_msg_to_upf env upf request idle)
forward_pfcp_msg_to_upf-ForwardPost_example =
    forward_pfcp_msg_to_upf-ForwardPost env upf request idle

-- The request is posted twice under one number, and an answer and a heartbeat's come.
abbrev busy : List (Event Wire)
busy =
    posts decoding env 0 0 (50 ∷ 9 ∷ []) false
    ∷ posts decoding env 0 0 (50 ∷ 9 ∷ []) false
    ∷ dispatches [] 0 0 response peer
    ∷ dispatches [] 0 0 heartbeat peer
    ∷ takes 0
    ∷ []

run_never_blocks_example : run busy idle ≢ blocks
run_never_blocks_example = run_never_blocks busy idle idle-HasMailbox

-- The transaction of the request.
abbrev tx : Transaction EventData
tx = record {
  id = 0;
  send_msg = 50 ∷ 9 ∷ [];
  sequence_number = 9;
  message_type = session_establishment_request;
  tx_type = sending_request;
  dest_addr = record { ip = some upf.node_id_value; port = 8805 };
  consumer_addr = socket.local_addr;
  event_data = forwarded_request;
}

abbrev sent : Adapter Wire
sent = (forward_pfcp_msg_to_upf env upf request idle).0

abbrev between : List (Event Wire)
between = dispatches [] 0 0 heartbeat peer ∷ takes 0 ∷ []

abbrev body : Text
body = 50 ∷ 9 ∷ []

abbrev post_sent : Adapter Wire
post_sent = (handler decoding env 0 0 body false idle).0

post_is_answered_example : Delivers 0 (rsp (51 ∷ 9 ∷ [])) (dispatch [] 0 0 response peer post_sent)
unfolding program
post_is_answered_example =
    post_is_answered wire-KeepsHeader decoding env 0 0 body false
      (record { smf_ip = 10 ∷ 7 ∷ []; body = body; up_node_id = upf }) request response [] 0 idle
      post_sent post_sent between [] 0 0 peer (51 ∷ 9 ∷ []) idle-HasMailbox refl refl refl
      ((λ e. ground (arith, e)), (tt, tt)) refl refl refl refl

abbrev sent_server : Server EventData
sent_server = elim sent.world.server [ none ↦ socket | some s ↦ s ]

abbrev silent : ℕ → Round
silent k = record { writes = true; wait = expired }

failure_reaches_requester_example : Delivers 0 (err timed_out) (finish_transaction tx silent 0 sent)
unfolding program
failure_reaches_requester_example =
    failure_reaches_requester wire-KeepsHeader env upf request 0 idle sent sent socket sent_server
      sent_server tx between silent 0 timed_out idle-HasMailbox (λ e. ground (arith, e)) refl refl
      refl refl ((λ e. ground (arith, e)), (tt, tt)) refl refl refl

abbrev setup_response : Wire
setup_response = record { kind = 6; number = 4 }

-- An association is set up.
abbrev setting_up : List (Event Wire)
setting_up =
    posts decoding env 0 0 (5 ∷ 4 ∷ []) false
    ∷ dispatches (upf.node_id_value ∷ []) 0 0 setup_response peer
    ∷ takes 0
    ∷ []

-- What it leaves.
abbrev associated : Adapter Wire
associated = elim (run setting_up idle) [
  | done a ↦ a
  | locked_out a ↦ a
  | blocks ↦ idle
  | panics ↦ idle
]

idle-InOrder : InOrder idle
idle-InOrder = (idle-HasMailbox, empty-IsSettled, empty_table-IsWellFormed)

run-InOrder_example : InOrder associated
unfolding program
run-InOrder_example = run-InOrder setting_up idle associated idle-InOrder refl

abbrev settled_upf : UpNode Wire
settled_upf = record {
  upf_name = upf.node_id_value;
  last_asso_rsp = some setup_response;
  last_hb_rsp = none;
  an_ip = some upf.node_id_value;
  node_id = upf;
  state = associated_setup_success;
  upf_lock = unlocked;
}

settled-IsAlone : IsAlone upf ((upf.node_id_value, settled_upf) ∷ []) upf.node_id_value
unfolding is_node lookup Text-discrete ℕ_discrete
settled-IsAlone k u e = elim (Text-discrete upf.node_id_value k) [
  | yes same ↦
      let found : settled_upf ≡ u = ground (arith, e, same) in
      (λ is. sym same, λ here. subst (λ v. is_node upf v ≡ true) found refl)
  | no other ↦ absurd (ground (arith, e, other))
]

abbrev visiting : Env
visiting = record env { order = upf.node_id_value ∷ [] }

abbrev second_setup : Wire
second_setup = record { kind = 5; number = 12 }

run_answers_associated_example :
    (u : UpNode Wire) × (r : Wire) × (lookup upf.node_id_value associated.upfs ≡ some u)
    × (u.last_asso_rsp ≡ some r)
    × (forward_pfcp_msg_to_upf visiting upf second_setup associated ≡ (
      record associated { next_chan = associated.next_chan + 1 },
      replied (
          (answer_retention (wire_pfcp.set_sequence 12 r) second_setup).kind
          ∷ (answer_retention (wire_pfcp.set_sequence 12 r) second_setup).number
          ∷ []),
    ))
unfolding program
run_answers_associated_example =
    run_answers_associated (λ m. (m.kind ∷ m.number ∷ [], refl)) setting_up visiting upf
      second_setup idle associated idle-InOrder refl refl refl refl settled-IsAlone refl
