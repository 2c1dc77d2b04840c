-- ===== src/Http/Tests.antt =====
-- The theorem about the HTTP handler at a concrete post.
use upfadapter.Prelude.{
  ◌≡◌, ◌*◌, refl, true, false, none, some, [], ◌∷◌, arith, lookup-nil, text_key, nat_key, Set,
  Text-discrete, lookup,
}
use upfadapter.Net.{Text, second}
use upfadapter.Sample.{test_net, Wire, wire_pfcp, wire_elements, printed}
use upfadapter.Relay.{empty_table}
use upfadapter.Node.{ipv4_address, resolve_node_id_to_ip}
use upfadapter.Peers.{UpfNodeRecord, Peers, is_known_upf_addr}
use upfadapter.Peers.Forget.{IsPlaced}
use upfadapter.Adapter.{Adapter, Hooked}
use upfadapter.Forward.{Env}
use upfadapter.Http.{UdpPodPfcpMsg, Decoding, handler, returned, internal_error}
use upfadapter.Http.Named.{handler_names}

program : Unit {0}
unfolding handler resolve_node_id_to_ip lookup Text-discrete
program = tt

abbrev nobody : Peers Hooked
nobody = record { addrs = []; nodes = []; relay_table = empty_table; hooked = none }

abbrev idle : Adapter Wire
idle = record {
  world = record { peers = nobody; smf = none; server = none };
  txns = [];
  buffers = [];
  next_chan = 0;
  upfs = [];
  names = [];
}

nobody-IsPlaced : IsPlaced nobody
nobody-IsPlaced = record {
  agree = λ a n. ground (
    arith,
    lookup-nil {V = Set Text} a,
    lookup-nil {V = UpfNodeRecord} n,
    lookup-nil {V = Unit {0}} n,
  );
}

abbrev upf : Text
upf = 10 ∷ 0 ∷ 0 ∷ 9 ∷ []

abbrev posted : UdpPodPfcpMsg
posted = record {
  smf_ip = 10 ∷ 7 ∷ [];
  body = 50 ∷ 9 ∷ [];
  up_node_id = record { node_id_type = ipv4_address; node_id_value = upf; value_is_nil = false };
}

-- Any body but the empty one is this message.
abbrev decoding : Decoding
decoding = record {
  unmarshal = λ body. elim body [ [] ↦ none | c ∷ cs ↦ some posted ];
  node_key = λ node. node.node_id_value;
}

abbrev env : Env
env = record {
  resolver = λ name. none;
  order = [];
  adapter_ip = some (10 ∷ 1 ∷ []);
  start_time = 0;
}

-- A body that could not be read, and is not one: an error is written, and nothing else.
unread : handler decoding env 0 0 [] true idle ≡ (idle, returned (internal_error ∷ []))
unfolding program
unread = refl

handler_names_example :
    let a' = (handler decoding env (100 * second) (100 * second) (1 ∷ []) false idle).0 in
    (a'.world.smf ≡ some (10 ∷ 7 ∷ []))
    × (is_known_upf_addr (some upf) (200 * second) a'.world.peers ≡ true)
unfolding program
handler_names_example =
    handler_names printed decoding env (100 * second) (100 * second) (200 * second) (1 ∷ []) upf
      false posted (record { kind = 50; number = 9 }) idle nobody-IsPlaced refl refl refl refl
      (omega arith) (omega arith)
