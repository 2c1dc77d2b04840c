-- ===== src/Forward/Registered.antt =====
-- What a call of ForwardPfcpMsgToUpf of pfcp/util.go has done when it replies, fails or starts to wait.
use upfadapter.Prelude.{
  ℕ, ◌+◌, ◌≡◌, ◌≢◌, refl, sym, subst, true, Option, none, some, ite, ℕ_discrete, nat_key, lookup,
  inl, inr, Option-cases, Bool-cases, arith,
}
use upfadapter.Net.{Net, Text, Ip}
use upfadapter.Pfcp.{
  Pfcp, MsgType, association_setup_request, heartbeat_request, session_establishment_request,
  session_modification_request, session_deletion_request,
}
use upfadapter.Elements.{Elements}
use upfadapter.Node.{NodeId, resolve_node_id_to_ip}
use upfadapter.Upfs.{is_upf_associated, insert_upf_node}
use upfadapter.Udp.Tables.{SendError}
use upfadapter.Udp.Sent.{Started, send_pfcp-Started}
use upfadapter.Waiting.{Chan, insert_upf_pfcp_txn, forget_upf_pfcp_txn}
use upfadapter.Waiting.Delivery.{lookup-insert_upf_pfcp_txn, lookup-forgotten}
use upfadapter.Smf.{pfcp_port}
use upfadapter.Report.{EventData, forwarded_request, unattended}
use upfadapter.Adapter.{Adapter}
use upfadapter.Upfs.{build_pfcp_association_response}
use upfadapter.Handlers.{is_reported}
use upfadapter.Forward.{
  Env, unknown_upf, unencodable, invalid_message, no_fseid, invalid_type, unsent, Forwarded,
  replied, refused, waits, held_up, panicked, replied_with, send_to_upf, register_and_send,
  reply_from_stored, rewritten, forward_request, forward_association_setup, forward_type,
  forward_pfcp_msg_to_upf,
}

-- The event data that a request of a type is sent with.
abbrev pub event_of : MsgType → EventData
event_of heartbeat_request = unattended
event_of _ = forwarded_request

module _ {M : Type 0} ⦃net : Net⦄ ⦃pfcp : Pfcp M⦄ where
  -- A channel is registered under the number of what goes out, in place of any other, and one
  -- transaction was started, which carries it to the node.
  abbrev pub Waits : EventData → Chan → M → Adapter M → Adapter M → Type 0
  Waits event_data chan out a a' =
      ((k : ℕ)
        → lookup k a'.txns ≡ ite (ℕ_discrete (pfcp.sequence out) k) (some chan) (lookup k a.txns))
      × (ip : Ip) × Started out (record { ip = ip; port = pfcp_port }) event_data a.world.server
          a'.world.server

  -- Nothing is registered under the number any more, and the other registrations are as they were.
  abbrev pub Unregistered : M → Adapter M → Adapter M → Type 0
  Unregistered out a a' =
      (k : ℕ) → lookup k a'.txns ≡ ite (ℕ_discrete (pfcp.sequence out) k) none (lookup k a.txns)

  -- By the result of the send.
  abbrev SentPost : EventData → Chan → M → Adapter M → Adapter M × Forwarded → Type 0
  SentPost event_data chan out a (a', waits c) = (c ≡ chan) × Waits event_data chan out a a'
  SentPost event_data chan out a (a', refused (unsent e)) = Unregistered out a a'
  SentPost event_data chan out a (a', refused unknown_upf) = ⊥
  SentPost event_data chan out a (a', refused unencodable) = ⊥
  SentPost event_data chan out a (a', refused invalid_message) = ⊥
  SentPost event_data chan out a (a', refused no_fseid) = ⊥
  SentPost event_data chan out a (a', refused invalid_type) = ⊥
  SentPost event_data chan out a (a', replied bytes) = ⊥
  SentPost event_data chan out a (a', held_up) = ⊥
  SentPost event_data chan out a (a', panicked) = ⊥

  -- The channels' contents, the number of the next one, and what is known of the peers are the same.
  abbrev pub Untouched : Adapter M → Adapter M → Type 0
  Untouched a a' =
      (a'.buffers ≡ a.buffers)
      × (a'.next_chan ≡ a.next_chan)
      × (a'.world.peers ≡ a.world.peers)
      × (a'.world.smf ≡ a.world.smf)

  abbrev Registers : EventData → Chan → M → Adapter M → Adapter M × Forwarded → Type 0
  Registers event_data chan out a r = Untouched a r.0 × SentPost event_data chan out a r

  register_and_send-Registers :
      (resolver : Text → Option Text) (node : NodeId) (event_data : EventData) (chan : Chan)
      (out : M) (a : Adapter M)
      → Registers event_data chan out a (register_and_send resolver node event_data chan out a)
  unfolding register_and_send send_to_upf
  register_and_send-Registers resolver node event_data chan out a =
      let seq = pfcp.sequence out in
      let registered : Adapter M = record a { txns = insert_upf_pfcp_txn seq chan a.txns } in
      let (a', error) = send_to_upf resolver node event_data out registered in
      let ip = (resolve_node_id_to_ip resolver node a.names).1 in
      let result = register_and_send resolver node event_data chan out a in
      elim (Option-cases error) [
        | inl e ↦
            let same : result ≡ (a', waits chan) = ground (arith, e) in
            subst (Registers event_data chan out a) (sym same) (
              (refl, refl, refl, refl),
              (
                refl,
                (
                  lookup-insert_upf_pfcp_txn seq chan a.txns,
                  ip,
                  send_pfcp-Started out (record { ip = ip; port = pfcp_port }) event_data
                      a.world.server e,
                ),
              ),
            )
        | inr (err, e) ↦
            let forgot : Adapter M = record a' { txns = forget_upf_pfcp_txn seq chan a'.txns } in
            let same : result ≡ (forgot, refused (unsent err)) = ground (arith, e) in
            subst (Registers event_data chan out a) (sym same)
              ((refl, refl, refl, refl), lookup-forgotten seq chan a.txns)
      ]

module _ {M : Type 0} ⦃net : Net⦄ ⦃pfcp : Pfcp M⦄ ⦃elements : Elements M⦄ where
  abbrev Unregistering : Adapter M → Adapter M → Type 0
  Unregistering a a' = (a'.txns ≡ a.txns) × (a'.world ≡ a.world)

  -- What a call has done, by its result, `chan` being the channel that it made.
  abbrev pub Ended : Env → MsgType → M → Chan → Adapter M → Adapter M → Forwarded → Type 0
  Ended env type msg chan a a' (waits c) =
      (out : M) × (rewritten env type msg ≡ some out)
      × (is_reported type ≡ true)
      × (c ≡ chan)
      × Waits (event_of type) chan out a a'
  Ended env type msg chan a a' (refused (unsent e)) =
      (out : M) × (rewritten env type msg ≡ some out) × Unregistered out a a'
  Ended env type msg chan a a' (refused unknown_upf) = Unregistering a a'
  Ended env type msg chan a a' (refused unencodable) = Unregistering a a'
  Ended env type msg chan a a' (refused invalid_message) = Unregistering a a'
  Ended env type msg chan a a' (refused no_fseid) = Unregistering a a'
  Ended env type msg chan a a' (refused invalid_type) = Unregistering a a'
  Ended env type msg chan a a' (replied bytes) = Unregistering a a'
  Ended env type msg chan a a' held_up = Unregistering a a'
  Ended env type msg chan a a' panicked = Unregistering a a'

  abbrev pub ForwardPost : Env → MsgType → M → Chan → Adapter M → Adapter M × Forwarded → Type 0
  ForwardPost env type msg chan a r = Untouched a r.0 × Ended env type msg chan a r.0 r.1

  -- Of the type that the message has, what the send did is what the call has done.
  Ended-sent :
      (env : Env) (type : MsgType) (msg out : M) (chan : Chan) (a : Adapter M)
      (r : Adapter M × Forwarded)
      → is_reported type ≡ true
      → rewritten env type msg ≡ some out
      → Registers (event_of type) chan out a r
      → ForwardPost env type msg chan a r
  Ended-sent env type msg out chan a (a', waits c) h e (same, (own, rest)) =
      (same, (out, e, h, own, rest))
  Ended-sent env type msg out chan a (a', refused (unsent err)) h e (same, gone) =
      (same, (out, e, gone))
  Ended-sent env type msg out chan a (a', _) h e (same, never) = absurd never

  forward_request-ForwardPost :
      (env : Env) (node : NodeId) (type : MsgType) (chan : Chan) (msg : M) (a : Adapter M)
      → is_reported type ≡ true
      → ForwardPost env type msg chan a (forward_request env node (event_of type) type chan msg a)
  unfolding forward_request
  forward_request-ForwardPost env node type chan msg a h =
      let result = forward_request env node (event_of type) type chan msg a in
      elim (Bool-cases (pfcp.has_type type msg)) [
        | inr other ↦
            let same : result ≡ (a, refused invalid_message) = ground (arith, other) in
            subst (ForwardPost env type msg chan a) (sym same)
              ((refl, refl, refl, refl), (refl, refl))
        | inl has ↦ elim (Option-cases (rewritten env type msg)) [
          | inl e ↦
              let same : result ≡ (a, refused no_fseid) = ground (arith, has, e) in
              subst (ForwardPost env type msg chan a) (sym same)
                ((refl, refl, refl, refl), (refl, refl))
          | inr (out, e) ↦
              let sent = register_and_send env.resolver node (event_of type) chan out a in
              let same : result ≡ sent = ground (arith, has, e) in
              subst (ForwardPost env type msg chan a) (sym same) (
                Ended-sent env type msg out chan a sent h e
                  (register_and_send-Registers env.resolver node (event_of type) chan out a))
        ]
      ]

  Ended-own :
      (env : Env) (type : MsgType) (msg : M) (chan : Chan) (a a' : Adapter M) (result : Forwarded)
      → Unregistering a a'
      → ((c : Chan) → result ≢ waits c)
      → ((e : SendError) → result ≢ refused (unsent e))
      → Ended env type msg chan a a' result
  Ended-own env type msg chan a a' (waits c) kept calm clean = absurd (calm c refl)
  Ended-own env type msg chan a a' (refused (unsent e)) kept calm clean = absurd (clean e refl)
  Ended-own env type msg chan a a' (refused _) kept calm clean = kept
  Ended-own env type msg chan a a' _ kept calm clean = kept

  reply_from_stored-Ended :
      (env : Env) (node : NodeId) (msg : M) (chan : Chan) (a : Adapter M)
      → let r = reply_from_stored env node msg a in
        Ended env association_setup_request msg chan a r.0 r.1
  unfolding reply_from_stored replied_with
  reply_from_stored-Ended env node msg chan a =
      let result = (build_pfcp_association_response env.order node (pfcp.sequence msg) a.upfs).1 in
      Ended-own env association_setup_request msg chan a (reply_from_stored env node msg a).0
        (replied_with msg result) (refl, refl) (λ c e. ground (arith, e))
        (λ err e. ground (arith, e))

  forward_association_setup-ForwardPost :
      (env : Env) (node : NodeId) (chan : Chan) (msg : M) (a : Adapter M)
      → ForwardPost env association_setup_request msg chan a
          (forward_association_setup env node chan msg a)
  unfolding forward_association_setup reply_from_stored
  forward_association_setup-ForwardPost env node chan msg a =
      let post : Adapter M × Forwarded → Type 0 =
        ForwardPost env association_setup_request msg chan a in
      let result = forward_association_setup env node chan msg a in
      let (names, upfs) = insert_upf_node env.resolver node a.names a.upfs in
      let inserted : Adapter M = record a { names = names; upfs = upfs } in
      elim (Bool-cases (is_upf_associated node a.upfs)) [
        | inl yes_it_is ↦
            let same : result ≡ reply_from_stored env node msg a = ground (arith, yes_it_is) in
            subst post (sym same)
              ((refl, refl, refl, refl), reply_from_stored-Ended env node msg chan a)
        | inr new ↦
            let forwarded =
              forward_request env node forwarded_request association_setup_request chan msg
                inserted in
            let same : result ≡ forwarded = ground (arith, new) in
            subst post (sym same) (
              forward_request-ForwardPost env node association_setup_request chan msg inserted refl)
      ]

  forward_type-ForwardPost :
      (type : MsgType) (env : Env) (node : NodeId) (chan : Chan) (msg : M) (a : Adapter M)
      → ForwardPost env type msg chan a (forward_type type env node chan msg a)
  unfolding forward_type
  forward_type-ForwardPost association_setup_request env node chan msg a =
      forward_association_setup-ForwardPost env node chan msg a
  forward_type-ForwardPost heartbeat_request env node chan msg a =
      forward_request-ForwardPost env node heartbeat_request chan msg a refl
  forward_type-ForwardPost session_establishment_request env node chan msg a =
      forward_request-ForwardPost env node session_establishment_request chan msg a refl
  forward_type-ForwardPost session_modification_request env node chan msg a =
      forward_request-ForwardPost env node session_modification_request chan msg a refl
  forward_type-ForwardPost session_deletion_request env node chan msg a =
      forward_request-ForwardPost env node session_deletion_request chan msg a refl
  forward_type-ForwardPost _ env node chan msg a = ((refl, refl, refl, refl), (refl, refl))

  -- What a call has done when it ends or waits, by its result. Where it waits, it does on the channel
  -- that it made, which is registered under the number of what goes out, in place of any other, and
  -- one transaction was started, which carries what goes out to the PFCP port of an address. Where the
  -- send failed, nothing is registered under that number any more, not even what was before. In every
  -- other case the registrations and the reports' state are as they were. In each case the buffers of
  -- the channels, the peers and the SMF's address are.
  pub forward_pfcp_msg_to_upf-ForwardPost :
      (env : Env) (node : NodeId) (msg : M) (a : Adapter M)
      → ForwardPost env
          (pfcp.message_type msg)
          msg
          a.next_chan
          (record a { next_chan = a.next_chan + 1 })
          (forward_pfcp_msg_to_upf env node msg a)
  unfolding forward_pfcp_msg_to_upf
  forward_pfcp_msg_to_upf-ForwardPost env node msg a =
      forward_type-ForwardPost (pfcp.message_type msg) env node a.next_chan msg
        (record a { next_chan = a.next_chan + 1 })
