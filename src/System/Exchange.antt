-- ===== src/System/Exchange.antt =====
-- A request of the SMF from ForwardPfcpMsgToUpf of pfcp/util.go to the answer or the error that its
-- channel gives, with other events in between.
use upfadapter.Prelude.{
  Bool, ℕ, ◌+◌, ◌≡◌, ◌≢◌, sym, ap, subst, ◌∙◌, true, some, List, ◌∷◌, nat_key, lookup, arith,
}
use upfadapter.Net.{Net, Text, UdpAddr}
use upfadapter.Pfcp.{Pfcp, MsgType, heartbeat_request}
use upfadapter.Elements.{Elements}
use upfadapter.Node.{NodeId}
use upfadapter.Udp.Tables.{Server, Transaction}
use upfadapter.Waiting.{Chan}
use upfadapter.LifeCycle.{Outcome, Round, start, failed}
use upfadapter.Report.{World, EventData, forwarded_request}
use upfadapter.Adapter.{Hooked, rsp, err, Adapter, done}
use upfadapter.Handlers.{dispatch, finish_transaction, is_reported}
use upfadapter.Handlers.Stable.{Keeps}
use upfadapter.Handlers.Mailbox.{HasMailbox, WaitsOn}
use upfadapter.Handlers.Answers.{
  Delivers, is_answer, dispatch-Delivers, finish_transaction-Delivers,
}
use upfadapter.Forward.{
  Forwarded, replied, refused, held_up, panicked, Env, waits, forward_pfcp_msg_to_upf,
}
use upfadapter.Forward.Registered.{Ended, event_of, forward_pfcp_msg_to_upf-ForwardPost}
use upfadapter.Forward.Laws.{KeepsHeader, rewritten-SameHeader}
use upfadapter.Smf.{set_smf_addr}
use upfadapter.Http.{
  UdpPodPfcpMsg, Decoding, Write, pending, served, name_upf, forward_posted, handler,
}
use upfadapter.Http.Named.{handler_forwards}
use upfadapter.System.{Event, run}
use upfadapter.System.Unblocked.{AllAvoid, run-WaitsOn}
use upfadapter.Forward.Channels.{forward_pfcp_msg_to_upf-HasMailbox}

event_of_other : (type : MsgType) → type ≢ heartbeat_request → event_of type ≡ forwarded_request
event_of_other type other = ground (arith, other)

served_pending :
    (w written : List Write) (chan : Chan) (result : Forwarded)
    → served w result ≡ pending chan written
    → result ≡ waits chan
served_pending w written chan (waits c) e = ground (arith, e)
served_pending w written chan (replied bytes) e = absurd (ground (arith, e))
served_pending w written chan (refused error) e = absurd (ground (arith, e))
served_pending w written chan held_up e = absurd (ground (arith, e))
served_pending w written chan panicked e = absurd (ground (arith, e))

module _ {M : Type 0} ⦃net : Net⦄ ⦃pfcp : Pfcp M⦄ ⦃elements : Elements M⦄ where
  forward-Ended :
      (env : Env) (node : NodeId) (msg : M) (chan : Chan) (a a1 : Adapter M)
      → forward_pfcp_msg_to_upf env node msg a ≡ (a1, waits chan)
      → Ended env
          (pfcp.message_type msg)
          msg
          a.next_chan
          (record a { next_chan = a.next_chan + 1 })
          a1
          (waits chan)
  forward-Ended env node msg chan a a1 e =
      subst
        (λ r.
          Ended env (pfcp.message_type msg) msg a.next_chan
            (record a { next_chan = a.next_chan + 1 }) r.0 r.1)
        e (forward_pfcp_msg_to_upf-ForwardPost env node msg a).1

  -- What was forwarded waits under its number.
  forward-WaitsOn :
      (laws : KeepsHeader M) (env : Env) (node : NodeId) (msg : M) (chan : Chan) (a a1 : Adapter M)
      → forward_pfcp_msg_to_upf env node msg a ≡ (a1, waits chan)
      → HasMailbox a
      → WaitsOn (pfcp.sequence msg) chan a1
  forward-WaitsOn laws env node msg chan a a1 e v =
      let post = forward-Ended env node msg chan a a1 e in
      let same = rewritten-SameHeader laws (pfcp.message_type msg) env msg post.0 post.1 in
      (
        subst HasMailbox (ap (λ r. r.0) e) (forward_pfcp_msg_to_upf-HasMailbox env node msg a v),
        ground (arith, post.4.0 (pfcp.sequence msg), same.0, post.3),
      )

  -- A request that was forwarded and waits is answered: after any events that do not name its number,
  -- a response under it that passes its handler's checks is received on the request's channel, encoded.
  -- The number is that of the SMF's request, which the package go-pfcp is taken to keep.
  answer_reaches_requester :
      (laws : KeepsHeader M) (env : Env) (node : NodeId) (msg response : M) (chan : Chan)
      (a a1 a2 : Adapter M) (events : List (Event M)) (order : List Text) (checked now : ℕ)
      (addr : UdpAddr) (bytes : Text)
      → HasMailbox a
      → forward_pfcp_msg_to_upf env node msg a ≡ (a1, waits chan)
      → AllAvoid (pfcp.sequence msg) events
      → run events a1 ≡ done a2
      → pfcp.sequence response ≡ pfcp.sequence msg
      → is_answer (pfcp.message_type response) order response a2.upfs ≡ true
      → pfcp.marshal response ≡ some bytes
      → Delivers chan (rsp bytes) (dispatch order checked now response addr a2)
  answer_reaches_requester laws env node msg response chan a a1 a2 events order checked now addr
        bytes v e avoid ran same answers encoded =
      let seq = pfcp.sequence msg in
      let (v2, waiting) = subst (Keeps (WaitsOn seq chan)) ran (
        run-WaitsOn laws seq chan events a1 avoid
          (forward-WaitsOn laws env node msg chan a a1 e v)) in
      dispatch-Delivers order checked now response addr chan bytes a2 v2
        (ap (λ k. lookup k a2.txns) same ∙ waiting) answers encoded

  -- Where the channels of the waiting requests are empty, distinct and made, and the package go-pfcp
  -- keeps the number of a message, a post whose message was forwarded is answered: after any events
  -- that do not name that number, a response under it is received, encoded, on the channel that the
  -- post waits on, if it passes its handler's checks and, where it accepts an association, the lock of
  -- the node that it is for was not left locked by then.
  pub post_is_answered :
      (laws : KeepsHeader M) (decoding : Decoding) (env : Env) (now clock : ℕ) (req_body : Text)
      (read_failed : Bool) (posted : UdpPodPfcpMsg) (msg response : M) (written : List Write)
      (chan : Chan) (a a1 a2 : Adapter M) (events : List (Event M)) (order : List Text)
      (checked at : ℕ) (addr : UdpAddr) (bytes : Text)
      → HasMailbox a
      → decoding.unmarshal req_body ≡ some posted
      → pfcp.parse posted.body ≡ some msg
      → handler decoding env now clock req_body read_failed a ≡ (a1, pending chan written)
      → AllAvoid (pfcp.sequence msg) events
      → run events a1 ≡ done a2
      → pfcp.sequence response ≡ pfcp.sequence msg
      → is_answer (pfcp.message_type response) order response a2.upfs ≡ true
      → pfcp.marshal response ≡ some bytes
      → Delivers chan (rsp bytes) (dispatch order checked at response addr a2)
  unfolding forward_posted name_upf
  post_is_answered laws decoding env now clock req_body read_failed posted msg response written chan
        a a1 a2 events order checked at addr bytes v e f h avoid ran same answers encoded =
      let (w, forwards) =
        handler_forwards decoding env now clock req_body read_failed posted msg a e f in
      let world : World Hooked = record a.world { smf = set_smf_addr posted.smf_ip a.world.smf } in
      let named =
        name_upf env.resolver decoding.node_key now clock posted.up_node_id
          (record a { world = world }) in
      let (a', result) = forward_pfcp_msg_to_upf env posted.up_node_id msg named in
      let ends : (a', served w result) ≡ (a1, pending chan written) = sym forwards ∙ h in
      let waiting : result ≡ waits chan =
        served_pending w written chan result (ap (λ r. r.1) ends) in
      let forwarded : forward_pfcp_msg_to_upf env posted.up_node_id msg named ≡ (a1, waits chan) =
        ground (arith, ap (λ r. r.0) ends, waiting) in
      answer_reaches_requester laws env posted.up_node_id msg response chan named a1 a2 events order
        checked at addr bytes v forwarded avoid ran same answers encoded

  -- Where the channels of the waiting requests are empty, distinct and made, and the package go-pfcp keeps
  -- the type and the number of a message, a request other than a heartbeat that was forwarded over an
  -- open socket learns that it failed: after any events that do not name its number, if the transaction
  -- that was started for it ends in an error, that error is received on its channel.
  pub failure_reaches_requester :
      (laws : KeepsHeader M) (env : Env) (node : NodeId) (msg : M) (chan : Chan)
      (a a1 a2 : Adapter M) (s0 s1 s2 : Server EventData) (tx : Transaction EventData)
      (events : List (Event M)) (rounds : ℕ → Round) (now : ℕ) (outcome : Outcome)
      → HasMailbox a
      → pfcp.message_type msg ≢ heartbeat_request
      → forward_pfcp_msg_to_upf env node msg a ≡ (a1, waits chan)
      → a.world.server ≡ some s0
      → a1.world.server ≡ some s1
      → s1.started ≡ tx ∷ s0.started
      → AllAvoid (pfcp.sequence msg) events
      → run events a1 ≡ done a2
      → a2.world.server ≡ some s2
      → failed (start tx.tx_type rounds).1 ≡ some outcome
      → Delivers chan (err outcome) (finish_transaction tx rounds now a2)
  failure_reaches_requester laws env node msg chan a a1 a2 s0 s1 s2 tx events rounds now outcome v
        other e opened opened1 begun avoid ran opened2 fails =
      let seq = pfcp.sequence msg in
      let (
        out,
        rewrites,
        reported,
        own,
        (looks, ip, (s, s', tx', was, is, begins, encodes, dest, held)),
      ) =
        forward-Ended env node msg chan a a1 e in
      let own_tx : tx' ≡ tx = ground (arith, opened, was, opened1, is, begun, begins) in
      let (read, parsed, same) = laws.wire tx'.send_msg out encodes in
      let out_same = rewritten-SameHeader laws (pfcp.message_type msg) env msg out rewrites in
      let (v2, waiting) = subst (Keeps (WaitsOn seq chan)) ran (
        run-WaitsOn laws seq chan events a1 avoid
          (forward-WaitsOn laws env node msg chan a a1 e v)) in
      finish_transaction-Delivers tx rounds now read outcome chan s2 a2 v2 opened2
        (ap (λ t. t.event_data) (sym own_tx) ∙ held ∙ event_of_other (pfcp.message_type msg) other)
        fails (ap (λ t. pfcp.parse t.send_msg) (sym own_tx) ∙ parsed)
        (ap is_reported (same.1 ∙ out_same.1) ∙ reported)
        (ap (λ k. lookup k a2.txns) (same.0 ∙ out_same.0) ∙ waiting)
