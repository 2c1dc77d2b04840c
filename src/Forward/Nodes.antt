-- ===== src/Forward/Nodes.antt =====
-- What a call of ForwardPfcpMsgToUpf of pfcp/util.go leaves of the user planes, and how it answers an
-- association setup request for one that is associated.
use upfadapter.Prelude.{
  ◌+◌, ◌≡◌, sym, subst, true, Option, some, text_key, nat_key, inl, inr, Option-cases, Bool-cases,
  arith,
}
use upfadapter.Net.{Net, Text}
use upfadapter.Pfcp.{
  Pfcp, MsgType, association_setup_request, heartbeat_request, session_establishment_request,
  session_modification_request, session_deletion_request,
}
use upfadapter.Elements.{Elements}
use upfadapter.Node.{NodeId}
use upfadapter.Retention.{answer_retention}
use upfadapter.Upfs.{built, is_upf_associated, insert_upf_node, build_pfcp_association_response}
use upfadapter.Upfs.Settled.{
  IsSettled, insert_upf_node-IsSettled, build_pfcp_association_response-IsSettled,
}
use upfadapter.Waiting.{Chan}
use upfadapter.Report.{EventData, forwarded_request}
use upfadapter.Adapter.{Adapter}
use upfadapter.Forward.{
  Env, replied, replied_with, send_to_upf, register_and_send, reply_from_stored, rewritten,
  forward_request, forward_association_setup, forward_type, forward_pfcp_msg_to_upf,
}

module _ {M : Type 0} ⦃net : Net⦄ ⦃pfcp : Pfcp M⦄ where
  register_and_send-upfs :
      (resolver : Text → Option Text) (node : NodeId) (event_data : EventData) (chan : Chan)
      (out : M) (a : Adapter M)
      → (register_and_send resolver node event_data chan out a).0.upfs ≡ a.upfs
  unfolding register_and_send send_to_upf
  register_and_send-upfs resolver node event_data chan out a = ground arith

module _ {M : Type 0} ⦃net : Net⦄ ⦃pfcp : Pfcp M⦄ ⦃elements : Elements M⦄ where
  forward_request-upfs :
      (env : Env) (node : NodeId) (event_data : EventData) (type : MsgType) (chan : Chan) (msg : M)
      (a : Adapter M)
      → (forward_request env node event_data type chan msg a).0.upfs ≡ a.upfs
  unfolding forward_request
  forward_request-upfs env node event_data type chan msg a =
      elim (Option-cases (rewritten env type msg)) [
        | inl e ↦ ground (arith, e)
        | inr (out, e) ↦
            ground (arith, e, register_and_send-upfs env.resolver node event_data chan out a)
      ]

  forward_association_setup-IsSettled :
      (env : Env) (node : NodeId) (chan : Chan) (msg : M) (a : Adapter M)
      → IsSettled a.upfs
      → IsSettled (forward_association_setup env node chan msg a).0.upfs
  unfolding forward_association_setup reply_from_stored
  forward_association_setup-IsSettled env node chan msg a v =
      let (names, upfs) = insert_upf_node env.resolver node a.names a.upfs in
      let result = forward_association_setup env node chan msg a in
      elim (Bool-cases (is_upf_associated node a.upfs)) [
        | inl associated ↦
            let replied = reply_from_stored env node msg a in
            let same : result.0.upfs ≡ replied.0.upfs = ground (arith, associated) in
            subst IsSettled (sym same) (
              build_pfcp_association_response-IsSettled env.order node (pfcp.sequence msg) a.upfs v)
        | inr new ↦
            let same : result.0.upfs ≡ upfs = ground (
              arith,
              new,
              forward_request-upfs env node forwarded_request association_setup_request chan msg
                  (record a { names = names; upfs = upfs }),
            ) in
            subst IsSettled (sym same)
              (insert_upf_node-IsSettled env.resolver node a.names a.upfs v)
      ]

  forward_type-IsSettled :
      (type : MsgType) (env : Env) (node : NodeId) (chan : Chan) (msg : M) (a : Adapter M)
      → IsSettled a.upfs
      → IsSettled (forward_type type env node chan msg a).0.upfs
  unfolding forward_type
  forward_type-IsSettled association_setup_request env node chan msg a v =
      forward_association_setup-IsSettled env node chan msg a v
  forward_type-IsSettled heartbeat_request env node chan msg a v =
      subst IsSettled (sym (forward_request-upfs env node _ heartbeat_request chan msg a)) v
  forward_type-IsSettled session_establishment_request env node chan msg a v =
      subst IsSettled
        (sym (forward_request-upfs env node _ session_establishment_request chan msg a)) v
  forward_type-IsSettled session_modification_request env node chan msg a v =
      subst IsSettled
        (sym (forward_request-upfs env node _ session_modification_request chan msg a)) v
  forward_type-IsSettled session_deletion_request env node chan msg a v =
      subst IsSettled (sym (forward_request-upfs env node _ session_deletion_request chan msg a)) v
  forward_type-IsSettled _ env node chan msg a v = v

  pub forward_pfcp_msg_to_upf-IsSettled :
      (env : Env) (node : NodeId) (msg : M) (a : Adapter M)
      → IsSettled a.upfs
      → IsSettled (forward_pfcp_msg_to_upf env node msg a).0.upfs
  unfolding forward_pfcp_msg_to_upf
  forward_pfcp_msg_to_upf-IsSettled env node msg a v =
      forward_type-IsSettled (pfcp.message_type msg) env node a.next_chan msg
        (record a { next_chan = a.next_chan + 1 }) v

  pub forward_pfcp_msg_to_upf_associated :
      (env : Env) (node : NodeId) (msg : M) (a : Adapter M)
      → pfcp.message_type msg ≡ association_setup_request
      → is_upf_associated node a.upfs ≡ true
      → forward_pfcp_msg_to_upf env node msg a
        ≡ reply_from_stored env node msg (record a { next_chan = a.next_chan + 1 })
  unfolding forward_pfcp_msg_to_upf forward_type forward_association_setup reply_from_stored
  forward_pfcp_msg_to_upf_associated env node msg a setup associated =
      ground (arith, setup, associated)

  pub reply_from_stored_built :
      (env : Env) (node : NodeId) (msg stored : M) (bytes : Text) (a : Adapter M)
      → build_pfcp_association_response env.order node (pfcp.sequence msg) a.upfs
        ≡ (a.upfs, built stored)
      → pfcp.marshal (answer_retention stored msg) ≡ some bytes
      → reply_from_stored env node msg a ≡ (a, replied bytes)
  unfolding reply_from_stored replied_with
  reply_from_stored_built env node msg stored bytes a found encoded = ground (arith, found, encoded)
