-- ===== src/Handlers/Answers.antt =====
-- What a requester receives: the answer that Dispatch of pfcp/dispatcher.go is given, or the error of
-- the transaction that startTxLifeCycle of pfcp/udp/udp.go ends.
use upfadapter.Prelude.{
  ℕ, ◌≡◌, sym, ap, subst, Bool, true, false, ◌&&◌, none, some, List, ◌==◌, if◌then◌else◌, is_some,
  nat_key, lookup, insert, delete, lookup-insert, inl, inr, Option-cases, Bool-cases, arith,
}
use upfadapter.Net.{Net, Text, UdpAddr}
use upfadapter.Pfcp.{
  Pfcp, MsgType, heartbeat_response, association_setup_response, session_establishment_response,
  session_modification_response, session_deletion_response,
}
use upfadapter.Elements.{Elements}
use upfadapter.Node.{new_node_id}
use upfadapter.Upfs.{Upfs, accept_association}
use upfadapter.LifeCycle.{Outcome, Round, start, failed, start_tx_life_cycle}
use upfadapter.LifeCycle.Ending.{start_tx_life_cycle_reports}
use upfadapter.Udp.Tables.{Transaction, Server}
use upfadapter.Report.{EventData, forwarded_request}
use upfadapter.Waiting.{Chan}
use upfadapter.Adapter.{HttpRsp, rsp, err, Adapter, Ran, done, receive_rsp}
use upfadapter.Handlers.{
  is_reported, send_to_waiting, encode_and_send_rsp, handle_pfcp_send_error, send_err_rsp,
  handle_session_response, handle_pfcp_heartbeat_response, accepted_association,
  handle_pfcp_association_setup_response, dispatch_type, dispatch, error_handler, held_handler,
  finish_transaction,
}
use upfadapter.Handlers.Mailbox.{HasMailbox, send_to_waiting_held}

module _ {M : Type 0} where
  -- The handler returned, and a receive on the channel then gives the answer.
  abbrev pub Delivers : Chan → HttpRsp → Ran (Adapter M) → Type 0
  Delivers chan answer r =
      (a : Adapter M) × (a' : Adapter M) × (r ≡ done a) × (receive_rsp chan a ≡ some (a', answer))

  send_to_waiting-Delivers :
      (seq chan : ℕ) (answer : HttpRsp) (a : Adapter M)
      → HasMailbox a
      → lookup seq a.txns ≡ some chan
      → Delivers chan answer (send_to_waiting seq answer a)
  unfolding receive_rsp
  send_to_waiting-Delivers seq chan answer a v held =
      let sent : Adapter M = record a {
        txns = delete seq a.txns;
        buffers = insert chan answer a.buffers;
      } in
      (
        sent,
        record sent { buffers = delete chan sent.buffers },
        send_to_waiting_held seq chan answer a v held,
        ground (arith, lookup-insert chan chan answer a.buffers),
      )

module _ {M : Type 0} ⦃net : Net⦄ ⦃pfcp : Pfcp M⦄ ⦃elements : Elements M⦄ where
  -- What an association setup response must pass: it has a cause, and one that accepts names a node
  -- that is found and whose lock is free.
  abbrev is_settled_by : List Text → M → Upfs M → Bool
  is_settled_by order msg upfs = elim (elements.cause msg) [
    | none ↦ false
    | some cause ↦
        if cause == elements.cause_request_accepted
        then elim (elements.node_id msg) [
          | none ↦ false
          | some name ↦ elim (accept_association order (new_node_id name) msg upfs) [
            | none ↦ false
            | some (upfs', stores) ↦ stores
          ]
        ]
        else true
  ]

  -- What a response must pass to be given to its requester, by its type.
  abbrev pub is_answer : MsgType → List Text → M → Upfs M → Bool
  is_answer heartbeat_response order msg upfs =
      pfcp.has_type heartbeat_response msg && is_some (elements.recovery_time_stamp msg)
  is_answer association_setup_response order msg upfs =
      pfcp.has_type association_setup_response msg
      && is_some (elements.recovery_time_stamp msg)
      && is_settled_by order msg upfs
  is_answer session_establishment_response order msg upfs =
      pfcp.has_type session_establishment_response msg
  is_answer session_modification_response order msg upfs =
      pfcp.has_type session_modification_response msg
  is_answer session_deletion_response order msg upfs = pfcp.has_type session_deletion_response msg
  is_answer _ order msg upfs = false

  encode_and_send_rsp-Delivers :
      (chan : Chan) (bytes : Text) (msg : M) (a : Adapter M)
      → HasMailbox a
      → lookup (pfcp.sequence msg) a.txns ≡ some chan
      → pfcp.marshal msg ≡ some bytes
      → Delivers chan (rsp bytes) (encode_and_send_rsp msg a)
  unfolding encode_and_send_rsp
  encode_and_send_rsp-Delivers chan bytes msg a v held e =
      let seq = pfcp.sequence msg in
      let same : encode_and_send_rsp msg a ≡ send_to_waiting seq (rsp bytes) a =
        ground (arith, e) in
      subst (Delivers chan (rsp bytes)) (sym same)
        (send_to_waiting-Delivers seq chan (rsp bytes) a v held)

  accepted_association_encodes :
      (order : List Text) (name : Text) (msg : M) (a : Adapter M) (upfs : Upfs M)
      → elements.node_id msg ≡ some name
      → accept_association order (new_node_id name) msg a.upfs ≡ some (upfs, true)
      → accepted_association order msg a ≡ encode_and_send_rsp msg (record a { upfs = upfs })
  unfolding accepted_association
  accepted_association_encodes order name msg a upfs e f = ground (arith, e, f)

  -- The handler of an association setup response past its type.
  handle_pfcp_association_setup_response_encodes :
      (order : List Text) (msg : M) (a : Adapter M)
      → is_answer association_setup_response order msg a.upfs ≡ true
      → (upfs : Upfs M) × (handle_pfcp_association_setup_response order msg a
          ≡ encode_and_send_rsp msg (record a { upfs = upfs }))
  unfolding handle_pfcp_association_setup_response
  handle_pfcp_association_setup_response_encodes order msg a h =
      elim (Option-cases (elements.cause msg)) [
        | inl e ↦ absurd (ground (arith, h, e))
        | inr (cause, e) ↦ elim (Bool-cases (cause == elements.cause_request_accepted)) [
          | inr other ↦ (a.upfs, ground (arith, h, e, other))
          | inl accepts ↦ elim (Option-cases (elements.node_id msg)) [
            | inl f ↦ absurd (ground (arith, h, e, accepts, f))
            | inr (name, f) ↦
                elim (Option-cases (accept_association order (new_node_id name) msg a.upfs)) [
                  | inl g ↦ absurd (ground (arith, h, e, accepts, f, g))
                  | inr ((upfs, stores), g) ↦ (
                    upfs,
                    ground (
                      arith,
                      h,
                      e,
                      accepts,
                      accepted_association_encodes order name msg a upfs f
                          (ground (arith, h, e, accepts, f, g)),
                    ),
                  )
                ]
          ]
        ]
      ]

  -- What an answer makes Dispatch do: it encodes it and sends it, after a change of the nodes at most.
  dispatch_type_encodes :
      (type : MsgType) (order : List Text) (checked now : ℕ) (msg : M) (addr : UdpAddr)
      (a : Adapter M)
      → is_answer type order msg a.upfs ≡ true
      → (upfs : Upfs M) × (dispatch_type type order checked now msg addr a
          ≡ encode_and_send_rsp msg (record a { upfs = upfs }))
  unfolding dispatch_type handle_pfcp_heartbeat_response handle_session_response
  dispatch_type_encodes heartbeat_response order checked now msg addr a h =
      (a.upfs, ground (arith, h))
  dispatch_type_encodes association_setup_response order checked now msg addr a h =
      handle_pfcp_association_setup_response_encodes order msg a h
  dispatch_type_encodes session_establishment_response order checked now msg addr a h =
      (a.upfs, ground (arith, h))
  dispatch_type_encodes session_modification_response order checked now msg addr a h =
      (a.upfs, ground (arith, h))
  dispatch_type_encodes session_deletion_response order checked now msg addr a h =
      (a.upfs, ground (arith, h))
  dispatch_type_encodes _ order checked now msg addr a h = absurd (ground (arith, h))

  -- A response whose number a request waits under, and which passes its handler's checks, is received
  -- on that request's channel, encoded.
  pub dispatch-Delivers :
      (order : List Text) (checked now : ℕ) (msg : M) (addr : UdpAddr) (chan : Chan) (bytes : Text)
      (a : Adapter M)
      → HasMailbox a
      → lookup (pfcp.sequence msg) a.txns ≡ some chan
      → is_answer (pfcp.message_type msg) order msg a.upfs ≡ true
      → pfcp.marshal msg ≡ some bytes
      → Delivers chan (rsp bytes) (dispatch order checked now msg addr a)
  unfolding dispatch
  dispatch-Delivers order checked now msg addr chan bytes a v held answers e =
      let (upfs, same) =
        dispatch_type_encodes (pfcp.message_type msg) order checked now msg addr a answers in
      subst (Delivers chan (rsp bytes)) (sym same)
        (encode_and_send_rsp-Delivers chan bytes msg (record a { upfs = upfs }) v held e)

  -- The error handler of a request of the SMF.
  error_handler-Delivers :
      (msg : M) (outcome : Outcome) (now : ℕ) (chan : Chan) (a : Adapter M)
      → HasMailbox a
      → lookup (pfcp.sequence msg) a.txns ≡ some chan
      → is_reported (pfcp.message_type msg) ≡ true
      → Delivers chan (err outcome) (error_handler forwarded_request msg outcome now a)
  unfolding error_handler handle_pfcp_send_error send_err_rsp
  error_handler-Delivers msg outcome now chan a v held reported =
      let seq = pfcp.sequence msg in
      let same : error_handler forwarded_request msg outcome now a
          ≡ send_to_waiting seq (err outcome) a =
        ground (arith, reported) in
      subst (Delivers chan (err outcome)) (sym same)
        (send_to_waiting-Delivers seq chan (err outcome) a v held)

  -- A transaction of a request of the SMF that ends in an error gives that error to the requester that
  -- waits under the request's number.
  pub finish_transaction-Delivers :
      (tx : Transaction EventData) (rounds : ℕ → Round) (now : ℕ) (msg : M) (outcome : Outcome)
      (chan : Chan) (server : Server EventData) (a : Adapter M)
      → HasMailbox a
      → a.world.server ≡ some server
      → tx.event_data ≡ forwarded_request
      → failed (start tx.tx_type rounds).1 ≡ some outcome
      → pfcp.parse tx.send_msg ≡ some msg
      → is_reported (pfcp.message_type msg) ≡ true
      → lookup (pfcp.sequence msg) a.txns ≡ some chan
      → Delivers chan (err outcome) (finish_transaction tx rounds now a)
  unfolding finish_transaction
  finish_transaction-Delivers tx rounds now msg outcome chan server a v opened event_data fails
        parsed reported held =
      let (server', failure) = start_tx_life_cycle {M = M} held_handler tx rounds server in
      let a' : Adapter M = record a { world = record a.world { server = some server' } } in
      let same : finish_transaction tx rounds now a
          ≡ error_handler forwarded_request msg outcome now a' =
        ground (
          arith,
          opened,
          start_tx_life_cycle_reports {M = M} held_handler tx rounds server outcome
              forwarded_request msg fails (ap held_handler event_data) parsed,
        ) in
      subst (Delivers chan (err outcome)) (sym same)
        (error_handler-Delivers msg outcome now chan a' v held reported)
