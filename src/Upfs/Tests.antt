-- ===== src/Upfs/Tests.antt =====
-- Runs of the calls on the user planes at concrete inputs.
use upfadapter.Prelude.{
  false, ◌≡◌, refl, true, none, some, [], ◌∷◌, Text-discrete, ℕ_discrete, text_key, lookup, insert,
  delete, mem,
}
use upfadapter.Net.{Text}
use upfadapter.Sample.{test_net, Wire, wire_pfcp}
use upfadapter.Node.{NodeId, ipv4_address, resolve_node_id_to_ip}
use upfadapter.Upfs.{
  associated_setup_success, unlocked, UpNode, Upfs, is_node, is_upf_associated,
  get_upf_from_node_id, nil_header, lock_awaited, awaited, build_pfcp_association_response,
  insert_upf_node, activate_upf_node, preserve_pfcp_association_rsp, accept_association,
}

program : Unit {0}
unfolding build_pfcp_association_response is_node is_upf_associated get_upf_from_node_id
    insert_upf_node activate_upf_node preserve_pfcp_association_rsp accept_association
    resolve_node_id_to_ip lookup insert delete mem Text-discrete ℕ_discrete
program = tt

abbrev host : Text
host = 10 ∷ 0 ∷ 0 ∷ 9 ∷ []

abbrev node : NodeId
node = record { node_id_type = ipv4_address; node_id_value = host; value_is_nil = false }

abbrev accepted : Wire
accepted = record { kind = 6; number = 4 }

-- The node that the calls leave.
abbrev settled_upf : UpNode Wire
settled_upf = record {
  upf_name = host;
  last_asso_rsp = some accepted;
  last_hb_rsp = none;
  an_ip = some host;
  node_id = node;
  state = associated_setup_success;
  upf_lock = unlocked;
}

abbrev settled : Upfs Wire
settled = (host, settled_upf) ∷ []

-- What an insertion and an acceptance leave.
ran :
    accept_association (host ∷ []) node accepted (insert_upf_node (λ name. none) node [] []).1
    ≡ some (settled, true)
unfolding program
ran = refl

-- A node that was inserted and has no response yet.
abbrev inserted : Upfs Wire
inserted = (insert_upf_node (λ name. none) node [] []).1

-- Its response is asked for, and the dereference header_missing.
abbrev after_panic : Upfs Wire
after_panic = (build_pfcp_association_response (host ∷ []) node 7 inserted).0

header_missing : (build_pfcp_association_response (host ∷ []) node 7 inserted).1 ≡ nil_header
unfolding program
header_missing = refl

-- From then on the node counts as associated once it accepts, without its response, and whoever
-- asks for that waits.
left_locked :
    accept_association (host ∷ []) node accepted after_panic
    ≡ some ((host, record settled_upf { last_asso_rsp = none; upf_lock = awaited }) ∷ [], false)
unfolding program
left_locked = refl

waits_behind :
    (build_pfcp_association_response
      (host ∷ [])
      node
      7
      ((host, record settled_upf { last_asso_rsp = none; upf_lock = awaited }) ∷ [])).1
    ≡ lock_awaited
unfolding program
waits_behind = refl
