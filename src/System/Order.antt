-- ===== src/System/Order.antt =====
-- What the adapter's events keep in order, and how a user plane that they left associated is answered
-- for.
use upfadapter.Prelude.{
  ℕ, ◌+◌, ◌≡◌, sym, subst, ◌∙◌, true, some, List, [], ◌∷◌, mem, text_key, nat_key, lookup, inl, inr,
  Option-cases,
}
use upfadapter.Net.{Net, Text}
use upfadapter.Pfcp.{Pfcp, association_setup_request}
use upfadapter.Elements.{Elements}
use upfadapter.Node.{NodeId}
use upfadapter.Retention.{answer_retention}
use upfadapter.Upfs.{UpNode, is_free, is_upf_associated}
use upfadapter.Upfs.Lookup.{IsAlone}
use upfadapter.Upfs.Settled.{
  IsSettled, accept_association-IsSettled, build_pfcp_association_response_stored,
}
use upfadapter.Report.{relays_of}
use upfadapter.Adapter.{HttpRsp, Adapter, done}
use upfadapter.Handlers.{send_to_waiting}
use upfadapter.Handlers.Mailbox.{
  HasMailbox, send_to_waiting-Keeps, send_to_waiting_held, send_to_waiting_free,
  receive_rsp-HasMailbox, receive_rsp-kept,
}
use upfadapter.Handlers.Stable.{Keeps, IsStable, dispatch-Keeps, finish_transaction-Keeps}
use upfadapter.Forward.{Env, replied, forward_pfcp_msg_to_upf}
use upfadapter.Relay.WellFormed.{IsWellFormed}
use upfadapter.Report.Kept.{
  handle_pfcp_session_report_request-RelaysKept, handle_pfcp_session_report_response-RelaysKept,
  relay_unanswered-RelaysKept,
}
use upfadapter.Http.{UdpPodPfcpMsg, Decoding, Write, name_upf, forward_posted}
use upfadapter.Http.Named.{forward_posted_knows}
use upfadapter.Peers.Relays.{record_upf_addr-IsWellFormed}
use upfadapter.Udp.Tables.{forget_consumer}
use upfadapter.Forward.Channels.{forward_pfcp_msg_to_upf-HasMailbox}
use upfadapter.Forward.Nodes.{
  forward_pfcp_msg_to_upf-IsSettled, forward_pfcp_msg_to_upf_associated, reply_from_stored_built,
}
use upfadapter.System.{Event, posts, dispatches, finishes, takes, step, run}
use upfadapter.System.Unblocked.{Keeps-then, Keeps-taken, handler_kept}

module _ {M : Type 0} ⦃net : Net⦄ where
  -- The channels, the nodes and the relay tables are in order.
  abbrev pub InOrder : Adapter M → Type 0
  InOrder a = HasMailbox a × IsSettled a.upfs × IsWellFormed (relays_of a.world)

  send_to_waiting-InOrder :
      (seq : ℕ) (answer : HttpRsp) (a : Adapter M)
      → InOrder a
      → Keeps InOrder (send_to_waiting seq answer a)
  send_to_waiting-InOrder seq answer a (v, settled, relays) =
      elim (Option-cases (lookup seq a.txns)) [
        | inl free ↦
            subst (Keeps InOrder) (sym (send_to_waiting_free seq answer a free))
              (v, settled, relays)
        | inr (chan, held) ↦
            let same = send_to_waiting_held seq chan answer a v held in
            subst (Keeps InOrder) (sym same) (
              subst (Keeps HasMailbox) same (send_to_waiting-Keeps seq answer a v),
              settled,
              relays,
            )
      ]

module _ {M : Type 0} ⦃net : Net⦄ ⦃pfcp : Pfcp M⦄ where
  InOrder-IsStable : IsStable {M = M} InOrder (λ seq. Unit {0})
  InOrder-IsStable = record {
    sent = λ seq answer a ok v. send_to_waiting-InOrder seq answer a v;
    server = λ s a v. v;
    reported = λ msg addr checked now w a e v. (
      v.0,
      v.1,
      handle_pfcp_session_report_request-RelaysKept M msg addr checked now a.world w e v.2,
    );
    returned = λ msg now a v.
        (v.0, v.1, handle_pfcp_session_report_response-RelaysKept M msg now a.world v.2);
    unanswered =
        λ seid seq now a v. (v.0, v.1, relay_unanswered-RelaysKept M seid seq now a.world v.2);
    accepted = λ order node msg u stores a e v.
        (v.0, accept_association-IsSettled order node msg a.upfs u stores e v.1, v.2);
  }

module _ {M : Type 0} ⦃net : Net⦄ ⦃pfcp : Pfcp M⦄ ⦃elements : Elements M⦄ where
  forward_posted-InOrder :
      (decoding : Decoding) (env : Env) (now clock : ℕ) (posted : UdpPodPfcpMsg) (msg : M)
      (written : List Write) (a : Adapter M)
      → InOrder a
      → InOrder (forward_posted decoding env now clock posted msg written a).0
  unfolding forward_posted name_upf
  forward_posted-InOrder decoding env now clock posted msg written a (v, settled, relays) = (
    forward_pfcp_msg_to_upf-HasMailbox env posted.up_node_id msg _ v,
    forward_pfcp_msg_to_upf-IsSettled env posted.up_node_id msg _ settled,
    subst (λ p. IsWellFormed p.relay_table)
        (sym (forward_posted_knows decoding env now clock posted msg written a).1)
        (record_upf_addr-IsWellFormed (some forget_consumer) now clock _ _ _ relays),
  )

  step-InOrder : (event : Event M) (a : Adapter M) → InOrder a → Keeps InOrder (step event a)
  step-InOrder (posts decoding env now clock req_body read_failed) a v =
      handler_kept InOrder decoding env now clock req_body read_failed a v
        (λ posted msg written e f.
          forward_posted-InOrder decoding env now clock posted msg written a v)
  step-InOrder (dispatches order checked now msg addr) a v =
      dispatch-Keeps InOrder-IsStable order checked now msg addr a tt v
  step-InOrder (finishes tx rounds now) a v =
      finish_transaction-Keeps InOrder-IsStable tx rounds now a (λ msg e. tt) v
  step-InOrder (takes chan) a (v, settled, relays) =
      Keeps-taken InOrder chan a (v, settled, relays)
        (λ a' answer e. (
          receive_rsp-HasMailbox chan a a' answer e v,
          subst IsSettled (sym (receive_rsp-kept chan a a' answer e).1) settled,
          subst (λ w. IsWellFormed (relays_of w)) (sym (receive_rsp-kept chan a a' answer e).2)
              relays,
        ))

  run-Keeps_order :
      (events : List (Event M)) (a : Adapter M) → InOrder a → Keeps InOrder (run events a)
  unfolding run
  run-Keeps_order [] a v = v
  run-Keeps_order (event ∷ events) a v =
      Keeps-then InOrder (step event a) (run events) (step-InOrder event a v)
        (run-Keeps_order events)

  -- Whatever the order of the events, the channels of the requests that wait stay empty, distinct and
  -- made, each user plane stays at the key that its identity gives and has a stored response if it counts
  -- as associated and its lock was not left locked, and the relay tables stay well formed: their index agrees with them, their numbers are
  -- in the adapter's range, and of two relays of one report one had outlived its lifetime when the
  -- other was recorded.
  pub run-InOrder :
      (events : List (Event M)) (a a' : Adapter M) → InOrder a → run events a ≡ done a' → InOrder a'
  run-InOrder events a a' v e = subst (Keeps InOrder) e (run-Keeps_order events a v)

  pub run_answers_associated :
      (encoded : (m : M) → (bytes : Text) × (pfcp.marshal m ≡ some bytes)) (events : List (Event M))
      (env : Env) (node : NodeId) (msg : M) (a a' : Adapter M)
      → InOrder a
      → run events a ≡ done a'
      → pfcp.message_type msg ≡ association_setup_request
      → is_upf_associated node a'.upfs ≡ true
      → is_free node.node_id_value a'.upfs ≡ true
      → IsAlone node a'.upfs node.node_id_value
      → mem node.node_id_value env.order ≡ true
      → (upf : UpNode M) × (rsp : M) × (lookup node.node_id_value a'.upfs ≡ some upf)
        × (upf.last_asso_rsp ≡ some rsp)
        × (forward_pfcp_msg_to_upf env node msg a' ≡ (
          record a' { next_chan = a'.next_chan + 1 },
          replied (encoded (answer_retention (pfcp.set_sequence (pfcp.sequence msg) rsp) msg)).0,
        ))
  run_answers_associated encoded events env node msg a a' v ran setup associated free alone
        visited =
      let seq = pfcp.sequence msg in
      let (upf, rsp, held, stored, found) =
        build_pfcp_association_response_stored env.order node seq a'.upfs
          (run-InOrder events a a' v ran).1 alone visited associated free in
      let (bytes, encodes) = encoded (answer_retention (pfcp.set_sequence seq rsp) msg) in
      (
        upf,
        rsp,
        held,
        stored,
        forward_pfcp_msg_to_upf_associated env node msg a' setup associated
            ∙ reply_from_stored_built env node msg (pfcp.set_sequence seq rsp) bytes
                (record a' { next_chan = a'.next_chan + 1 }) found encodes,
      )
