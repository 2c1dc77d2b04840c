-- ===== src/Forward.antt =====
-- The SMF's messages on their way to a user plane: ForwardPfcpMsgToUpf of pfcp/util.go and the
-- senders of pfcp/message/send.go.
pub mod Registered
pub mod Laws
pub mod Channels
pub mod Nodes
use upfadapter.Prelude.{ℕ, ◌+◌, Bool, true, false, Option, none, some, List, if◌then◌else◌}
use upfadapter.Net.{Net, Text, Ip, UdpAddr}
use upfadapter.Pfcp.{
  Pfcp, MsgType, association_setup_request, heartbeat_request, session_establishment_request,
  session_modification_request, session_deletion_request,
}
use upfadapter.Elements.{Elements}
use upfadapter.Node.{NodeId, resolve_node_id_to_ip}
use upfadapter.Upfs.{
  Built, upf_not_found, nil_header, lock_awaited, built, is_upf_associated, insert_upf_node,
  build_pfcp_association_response,
}
use upfadapter.Retention.{answer_retention}
use upfadapter.Udp.{send_pfcp}
use upfadapter.Udp.Tables.{SendError}
use upfadapter.Waiting.{Chan, insert_upf_pfcp_txn, forget_upf_pfcp_txn}
use upfadapter.Smf.{pfcp_port}
use upfadapter.Report.{EventData, forwarded_request, unattended, send}
use upfadapter.Adapter.{Adapter}

-- What a call reads beside the state: the resolver's answers, the order of a range over the nodes, and
-- the adapter's address and start time.
pub record Env : Type 0 where
  pub resolver : Text → Option Text
  pub order : List Text
  pub adapter_ip : Ip
  pub start_time : ℕ

pub data ForwardError : Type 0 where
  unknown_upf unencodable invalid_message no_fseid invalid_type : ForwardError
  unsent : SendError → ForwardError

-- Where the call is: it replied with bytes, returned an error, waits on a channel, waits for good for the
-- lock of a node, or panicked.
pub data Forwarded : Type 0 where
  replied : Text → Forwarded
  refused : ForwardError → Forwarded
  waits : Chan → Forwarded
  held_up panicked : Forwarded

module _ {M : Type 0} ⦃net : Net⦄ ⦃pfcp : Pfcp M⦄ where
  -- SendPfcpAssociationSetupRequest, SendHeartbeatRequest and the senders of session requests, which
  -- differ in their event data.
  unfoldable pub send_to_upf :
      (Text → Option Text) → NodeId → EventData → M → Adapter M → Adapter M × Option SendError
  send_to_upf resolver node event_data msg a =
      let (names, ip) = resolve_node_id_to_ip resolver node a.names in
      let (world, error) = send M msg (record { ip = ip; port = pfcp_port }) event_data a.world in
      (record a { names = names; world = world }, error)

  -- A registration, the send, and the registration's end where the send failed.
  unfoldable pub register_and_send :
      (Text → Option Text) → NodeId → EventData → Chan → M → Adapter M → Adapter M × Forwarded
  register_and_send resolver node event_data chan msg a =
      let seq = pfcp.sequence msg in
      let (a', error) =
        send_to_upf resolver node event_data msg
          (record a { txns = insert_upf_pfcp_txn seq chan a.txns }) in
      elim error [
        | none ↦ (a', waits chan)
        | some e ↦ (record a' { txns = forget_upf_pfcp_txn seq chan a'.txns }, refused (unsent e))
      ]

module _ {M : Type 0} ⦃net : Net⦄ ⦃pfcp : Pfcp M⦄ ⦃elements : Elements M⦄ where
  -- The answer to an association setup request for a node that is associated.
  pub replied_with : M → Built M → Forwarded
  replied_with msg upf_not_found = refused unknown_upf
  replied_with msg nil_header = panicked
  replied_with msg lock_awaited = held_up
  replied_with msg (built stored) = elim (pfcp.marshal (answer_retention stored msg)) [
    | none ↦ refused unencodable
    | some bytes ↦ replied bytes
  ]

  unfoldable pub reply_from_stored : Env → NodeId → M → Adapter M → Adapter M × Forwarded
  reply_from_stored env node msg a =
      let (upfs, result) =
        build_pfcp_association_response env.order node (pfcp.sequence msg) a.upfs in
      (record a { upfs = upfs }, replied_with msg result)

  -- What the adapter changes in each request before it goes out; none for a request that it refuses.
  unfoldable pub rewritten : Env → MsgType → M → Option M
  rewritten env association_setup_request msg = some (
      elements.set_node_id (net.ip_string env.adapter_ip)
        (elements.set_recovery_time_stamp env.start_time msg))
  rewritten env heartbeat_request msg = some (elements.set_recovery_time_stamp env.start_time msg)
  rewritten env session_establishment_request msg =
      let named = elements.set_node_id (net.ip_string env.adapter_ip) msg in
      elim (elements.cp_fseid named) [
        | none ↦ none
        | some seid ↦ some (elements.set_cp_fseid seid env.adapter_ip named)
      ]
  rewritten env _ msg = some msg

  -- One case of the switch: the type assertion, the changes, the registration and the send.
  unfoldable pub forward_request :
      Env → NodeId → EventData → MsgType → Chan → M → Adapter M → Adapter M × Forwarded
  forward_request env node event_data type chan msg a =
      if pfcp.has_type type msg
      then elim (rewritten env type msg) [
        | none ↦ (a, refused no_fseid)
        | some out ↦ register_and_send env.resolver node event_data chan out a
      ]
      else (a, refused invalid_message)

  unfoldable pub forward_association_setup :
      Env → NodeId → Chan → M → Adapter M → Adapter M × Forwarded
  forward_association_setup env node chan msg a =
      if is_upf_associated node a.upfs
      then reply_from_stored env node msg a
      else let (names, upfs) = insert_upf_node env.resolver node a.names a.upfs in
        forward_request env node forwarded_request association_setup_request chan msg
          (record a { names = names; upfs = upfs })

  unfoldable pub forward_type :
      MsgType → Env → NodeId → Chan → M → Adapter M → Adapter M × Forwarded
  forward_type association_setup_request env node chan msg a =
      forward_association_setup env node chan msg a
  forward_type heartbeat_request env node chan msg a =
      forward_request env node unattended heartbeat_request chan msg a
  forward_type session_establishment_request env node chan msg a =
      forward_request env node forwarded_request session_establishment_request chan msg a
  forward_type session_modification_request env node chan msg a =
      forward_request env node forwarded_request session_modification_request chan msg a
  forward_type session_deletion_request env node chan msg a =
      forward_request env node forwarded_request session_deletion_request chan msg a
  forward_type _ env node chan msg a = (a, refused invalid_type)

  -- ForwardPfcpMsgToUpf, up to its wait: the channel is made first.
  unfoldable pub forward_pfcp_msg_to_upf : Env → NodeId → M → Adapter M → Adapter M × Forwarded
  forward_pfcp_msg_to_upf env node msg a =
      forward_type (pfcp.message_type msg) env node a.next_chan msg
        (record a { next_chan = a.next_chan + 1 })
