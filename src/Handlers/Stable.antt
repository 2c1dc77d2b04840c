-- ===== src/Handlers/Stable.antt =====
-- The handlers of pfcp/handler/handler.go, the dispatcher of pfcp/dispatcher.go and the error handlers,
-- against a predicate on the adapter's state.
use upfadapter.Prelude.{
  ℕ, ◌≡◌, refl, Bool, true, false, Option, none, some, List, if◌then◌else◌, nat_key, ◌==◌,
}
use upfadapter.Net.{Net, Text, UdpAddr}
use upfadapter.Pfcp.{
  Pfcp, MsgType, heartbeat_response, association_setup_response, session_establishment_response,
  session_modification_response, session_deletion_response, session_report_request,
  session_report_response,
}
use upfadapter.Elements.{Elements}
use upfadapter.Node.{NodeId, new_node_id}
use upfadapter.Upfs.{Upfs, accept_association}
use upfadapter.LifeCycle.Ending.{start_tx_life_cycle_parses}
use upfadapter.LifeCycle.{Outcome, Round, start_tx_life_cycle}
use upfadapter.Udp.Tables.{Transaction}
use upfadapter.Report.{
  EventData, relayed_report, answer_returned, forwarded_request, unattended,
  handle_pfcp_session_report_request, handle_pfcp_session_report_response, relay_unanswered, World,
}
use upfadapter.Adapter.{Hooked, HttpRsp, rsp, err, Adapter, Ran, done, locked_out, blocks, panics}
use upfadapter.Handlers.{
  send_to_waiting, send_err_rsp, encode_and_send_rsp, is_reported, handle_pfcp_send_error,
  handle_session_response, handle_pfcp_heartbeat_response, accepted_association,
  handle_pfcp_association_setup_response, handle_report, dispatch_type, dispatch, error_handler,
  held_handler, finish_transaction,
}

module _ {M : Type 0} where
  -- What a handler must leave: it may panic, but not block.
  abbrev pub Keeps : (Adapter M → Type 0) → Ran (Adapter M) → Type 0
  Keeps P (done a) = P a
  Keeps P (locked_out a) = P a
  Keeps P blocks = ⊥
  Keeps P panics = Unit {0}

  Keeps-if :
      (P : Adapter M → Type 0) (b : Bool) (x y : Ran (Adapter M))
      → Keeps P x
      → Keeps P y
      → Keeps P (if b then x else y)
  Keeps-if P true x y hx hy = hx
  Keeps-if P false x y hx hy = hy

  Keeps-option :
      {A : Type 0} (P : Adapter M → Type 0) (o : Option A) (x : Ran (Adapter M))
      (f : A → Ran (Adapter M))
      → Keeps P x
      → ((v : A) → o ≡ some v → Keeps P (f v))
      → Keeps P (elim o [ none ↦ x | some v ↦ f v ])
  Keeps-option P none x f hx hf = hx
  Keeps-option P (some v) x f hx hf = hf v refl

module _ {M : Type 0} ⦃net : Net⦄ ⦃pfcp : Pfcp M⦄ where
  -- A predicate that a send to whoever waits under an allowed number keeps, and every call with which
  -- a handler changes the rest: of the server, of the session reports' state, and of the nodes.
  pub record IsStable (P : Adapter M → Type 0) (Allowed : ℕ → Type 0) : Type 0 where
    pub sent :
        (seq : ℕ) (answer : HttpRsp) (a : Adapter M)
        → Allowed seq
        → P a
        → Keeps P (send_to_waiting seq answer a)
    pub server :
        (s : Hooked) (a : Adapter M) → P a → P (record a { world = record a.world { server = s } })
    pub reported :
        (msg : M) (addr : UdpAddr) (checked now : ℕ) (w : World Hooked) (a : Adapter M)
        → handle_pfcp_session_report_request M msg (some addr) checked now a.world ≡ some w
        → P a
        → P (record a { world = w })
    pub returned :
        (msg : M) (now : ℕ) (a : Adapter M)
        → P a
        → P (record a { world = handle_pfcp_session_report_response M msg now a.world })
    pub unanswered :
        (seid seq now : ℕ) (a : Adapter M)
        → P a
        → P (record a { world = relay_unanswered M seid seq now a.world })
    pub accepted :
        (order : List Text) (node : NodeId) (msg : M) (u : Upfs M) (stores : Bool) (a : Adapter M)
        → accept_association order node msg a.upfs ≡ some (u, stores)
        → P a
        → P (record a { upfs = u })

module _ {M : Type 0} ⦃net : Net⦄ ⦃pfcp : Pfcp M⦄ {P : Adapter M → Type 0} {Allowed : ℕ → Type 0}
    (stable : IsStable P Allowed) where
  encode_and_send_rsp-Keeps :
      (msg : M) (a : Adapter M)
      → Allowed (pfcp.sequence msg)
      → P a
      → Keeps P (encode_and_send_rsp msg a)
  unfolding encode_and_send_rsp
  encode_and_send_rsp-Keeps msg a ok v =
      Keeps-option P (pfcp.marshal msg) _ _ v
        (λ bytes e. stable.sent (pfcp.sequence msg) (rsp bytes) a ok v)

  handle_pfcp_send_error-Keeps :
      (msg : M) (outcome : Outcome) (a : Adapter M)
      → Allowed (pfcp.sequence msg)
      → P a
      → Keeps P (handle_pfcp_send_error msg outcome a)
  unfolding handle_pfcp_send_error send_err_rsp
  handle_pfcp_send_error-Keeps msg outcome a ok v =
      Keeps-if P (is_reported (pfcp.message_type msg)) _ _
        (stable.sent (pfcp.sequence msg) (err outcome) a ok v) v

  handle_session_response-Keeps :
      (type : MsgType) (msg : M) (a : Adapter M)
      → Allowed (pfcp.sequence msg)
      → P a
      → Keeps P (handle_session_response type msg a)
  unfolding handle_session_response
  handle_session_response-Keeps type msg a ok v =
      Keeps-if P (pfcp.has_type type msg) _ _ (encode_and_send_rsp-Keeps msg a ok v) v

module _ {M : Type 0} ⦃net : Net⦄ ⦃pfcp : Pfcp M⦄ ⦃elements : Elements M⦄ {P : Adapter M → Type 0}
    {Allowed : ℕ → Type 0} (stable : IsStable P Allowed) where
  handle_pfcp_heartbeat_response-Keeps :
      (msg : M) (a : Adapter M)
      → Allowed (pfcp.sequence msg)
      → P a
      → Keeps P (handle_pfcp_heartbeat_response msg a)
  unfolding handle_pfcp_heartbeat_response
  handle_pfcp_heartbeat_response-Keeps msg a ok v =
      Keeps-if P (pfcp.has_type heartbeat_response msg) _ _
        (Keeps-option P (elements.recovery_time_stamp msg) _ _ v
          (λ t e. encode_and_send_rsp-Keeps stable msg a ok v))
        v

  accepted_association-Keeps :
      (order : List Text) (msg : M) (a : Adapter M)
      → Allowed (pfcp.sequence msg)
      → P a
      → Keeps P (accepted_association order msg a)
  unfolding accepted_association
  accepted_association-Keeps order msg a ok v =
      Keeps-option P (elements.node_id msg) _ _ v (λ name e.
        Keeps-option P (accept_association order (new_node_id name) msg a.upfs) _ _ tt (λ r f.
          let kept = stable.accepted order (new_node_id name) msg r.0 r.1 a f v in
          Keeps-if P r.1 _ _
            (encode_and_send_rsp-Keeps stable msg (record a { upfs = r.0 }) ok kept) kept))

  handle_pfcp_association_setup_response-Keeps :
      (order : List Text) (msg : M) (a : Adapter M)
      → Allowed (pfcp.sequence msg)
      → P a
      → Keeps P (handle_pfcp_association_setup_response order msg a)
  unfolding handle_pfcp_association_setup_response
  handle_pfcp_association_setup_response-Keeps order msg a ok v =
      Keeps-if P (pfcp.has_type association_setup_response msg) _ _
        (Keeps-option P (elements.recovery_time_stamp msg) _ _ v (λ t e.
          Keeps-option P (elements.cause msg) _ _ v (λ cause f.
            Keeps-if P (cause == elements.cause_request_accepted) _ _
              (accepted_association-Keeps order msg a ok v)
              (encode_and_send_rsp-Keeps stable msg a ok v))))
        v

  handle_report-Keeps :
      (msg : M) (addr : UdpAddr) (checked now : ℕ) (a : Adapter M)
      → P a
      → Keeps P (handle_report msg addr checked now a)
  unfolding handle_report
  handle_report-Keeps msg addr checked now a v =
      Keeps-option P (handle_pfcp_session_report_request M msg (some addr) checked now a.world) _ _
        tt (λ world e. stable.reported msg addr checked now world a e v)

  dispatch_type-Keeps :
      (type : MsgType) (order : List Text) (checked now : ℕ) (msg : M) (addr : UdpAddr)
      (a : Adapter M)
      → Allowed (pfcp.sequence msg)
      → P a
      → Keeps P (dispatch_type type order checked now msg addr a)
  unfolding dispatch_type
  dispatch_type-Keeps heartbeat_response order checked now msg addr a ok v =
      handle_pfcp_heartbeat_response-Keeps msg a ok v
  dispatch_type-Keeps association_setup_response order checked now msg addr a ok v =
      handle_pfcp_association_setup_response-Keeps order msg a ok v
  dispatch_type-Keeps session_establishment_response order checked now msg addr a ok v =
      handle_session_response-Keeps stable session_establishment_response msg a ok v
  dispatch_type-Keeps session_modification_response order checked now msg addr a ok v =
      handle_session_response-Keeps stable session_modification_response msg a ok v
  dispatch_type-Keeps session_deletion_response order checked now msg addr a ok v =
      handle_session_response-Keeps stable session_deletion_response msg a ok v
  dispatch_type-Keeps session_report_request order checked now msg addr a ok v =
      handle_report-Keeps msg addr checked now a v
  dispatch_type-Keeps session_report_response order checked now msg addr a ok v =
      stable.returned msg now a v
  dispatch_type-Keeps _ order checked now msg addr a ok v = v

  pub dispatch-Keeps :
      (order : List Text) (checked now : ℕ) (msg : M) (addr : UdpAddr) (a : Adapter M)
      → Allowed (pfcp.sequence msg)
      → P a
      → Keeps P (dispatch order checked now msg addr a)
  unfolding dispatch
  dispatch-Keeps order checked now msg addr a ok v =
      dispatch_type-Keeps (pfcp.message_type msg) order checked now msg addr a ok v

  error_handler-Keeps :
      (event_data : EventData) (msg : M) (outcome : Outcome) (now : ℕ) (a : Adapter M)
      → Allowed (pfcp.sequence msg)
      → P a
      → Keeps P (error_handler event_data msg outcome now a)
  unfolding error_handler
  error_handler-Keeps (relayed_report seid) msg outcome now a ok v =
      stable.unanswered seid (pfcp.sequence msg) now a v
  error_handler-Keeps answer_returned msg outcome now a ok v = v
  error_handler-Keeps forwarded_request msg outcome now a ok v =
      handle_pfcp_send_error-Keeps stable msg outcome a ok v
  error_handler-Keeps unattended msg outcome now a ok v = v

  pub finish_transaction-Keeps :
      (tx : Transaction EventData) (rounds : ℕ → Round) (now : ℕ) (a : Adapter M)
      → ((msg : M) → pfcp.parse tx.send_msg ≡ some msg → Allowed (pfcp.sequence msg))
      → P a
      → Keeps P (finish_transaction tx rounds now a)
  unfolding finish_transaction
  finish_transaction-Keeps tx rounds now a ok v = Keeps-option P a.world.server _ _ v (λ server e.
      let (server', failure) = start_tx_life_cycle {M = M} held_handler tx rounds server in
      let w : World Hooked = record a.world { server = some server' } in
      Keeps-option P failure _ _ (stable.server (some server') a v) (λ failed f.
        error_handler-Keeps failed.0 failed.1 failed.2 now (record a { world = w })
          (ok failed.1
            (start_tx_life_cycle_parses held_handler tx rounds server failed.0 failed.1 failed.2 f))
          (stable.server (some server') a v)))
