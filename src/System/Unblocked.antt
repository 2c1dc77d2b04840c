-- ===== src/System/Unblocked.antt =====
-- The adapter's events and the channels of the requests that wait (pfcp/util.go,
-- pfcp/handler/handler.go).
use upfadapter.Prelude.{
  Bool, ℕ, ◌≡◌, ◌≢◌, sym, ap, subst, ◌∙◌, some, List, [], ◌∷◌, nat_key, lookup, inl, inr,
  Option-cases, arith,
}
use upfadapter.Net.{Net, Text}
use upfadapter.Pfcp.{Pfcp}
use upfadapter.Elements.{Elements}
use upfadapter.Waiting.{Chan}
use upfadapter.Adapter.{HttpRsp, Adapter, Ran, done, locked_out, blocks, panics, receive_rsp}
use upfadapter.Handlers.Mailbox.{
  HasMailbox, receive_rsp-HasMailbox, receive_rsp-kept, HasMailbox-IsStable, WaitsOn,
  WaitsOn-IsStable,
}
use upfadapter.Handlers.Stable.{Keeps, dispatch-Keeps, finish_transaction-Keeps}
use upfadapter.Forward.{Env}
use upfadapter.Forward.Laws.{KeepsHeader}
use upfadapter.Http.{UdpPodPfcpMsg, Decoding, Write, name_upf, forward_posted, handler}
use upfadapter.Http.Named.{handler_unread, handler_unparsed, handler_forwards}
use upfadapter.Forward.Channels.{
  forward_pfcp_msg_to_upf-HasMailbox, forward_pfcp_msg_to_upf-WaitsOn,
}
use upfadapter.System.{Event, posts, dispatches, finishes, takes, step, run}

module _ {M : Type 0} ⦃net : Net⦄ ⦃pfcp : Pfcp M⦄ ⦃elements : Elements M⦄ where
  pub Keeps-then :
      (P : Adapter M → Type 0) (r : Ran (Adapter M)) (f : Adapter M → Ran (Adapter M))
      → Keeps P r
      → ((a : Adapter M) → P a → Keeps P (f a))
      → Keeps P (elim r [ done a ↦ f a | locked_out a ↦ f a | blocks ↦ blocks | panics ↦ panics ])
  Keeps-then P (done a) f v hf = hf a v
  Keeps-then P (locked_out a) f v hf = hf a v
  Keeps-then P blocks f v hf = absurd v
  Keeps-then P panics f v hf = tt

  pub Keeps-taken :
      (P : Adapter M → Type 0) (chan : Chan) (a : Adapter M)
      → P a
      → ((a' : Adapter M) (answer : HttpRsp) → receive_rsp chan a ≡ some (a', answer) → P a')
      → Keeps P (step (takes chan) a)
  Keeps-taken P chan a v hv = elim (Option-cases (receive_rsp chan a)) [
    | inl e ↦
        let same : step (takes chan) a ≡ done a = ground (arith, e) in subst (Keeps P) (sym same) v
    | inr ((a', answer), e) ↦
        let same : step (takes chan) a ≡ done a' = ground (arith, e) in
        subst (Keeps P) (sym same) (hv a' answer e)
  ]

  -- What a post leaves, if its forwarding does.
  pub handler_kept :
      (P : Adapter M → Type 0) (decoding : Decoding) (env : Env) (now clock : ℕ) (req_body : Text)
      (read_failed : Bool) (a : Adapter M)
      → P a
      → ((posted : UdpPodPfcpMsg) (msg : M) (written : List Write)
          → decoding.unmarshal req_body ≡ some posted
          → pfcp.parse posted.body ≡ some msg
          → P (forward_posted decoding env now clock posted msg written a).0)
      → P (handler decoding env now clock req_body read_failed a).0
  handler_kept P decoding env now clock req_body read_failed a v hv =
      elim (Option-cases (decoding.unmarshal req_body)) [
        | inl e ↦ subst P (sym (handler_unread decoding env now clock req_body read_failed a e)) v
        | inr (posted, e) ↦ elim (Option-cases (pfcp.parse posted.body)) [
          | inl f ↦
              subst P
                (sym (handler_unparsed decoding env now clock req_body read_failed posted a e f)) v
          | inr (msg, f) ↦
              let (written, same) =
                handler_forwards decoding env now clock req_body read_failed posted msg a e f in
              subst P (ap (λ r. r.0) (sym same)) (hv posted msg written e f)
        ]
      ]

  forward_posted-HasMailbox :
      (decoding : Decoding) (env : Env) (now clock : ℕ) (posted : UdpPodPfcpMsg) (msg : M)
      (written : List Write) (a : Adapter M)
      → HasMailbox a
      → HasMailbox (forward_posted decoding env now clock posted msg written a).0
  unfolding forward_posted name_upf
  forward_posted-HasMailbox decoding env now clock posted msg written a v =
      forward_pfcp_msg_to_upf-HasMailbox env posted.up_node_id msg _ v

  forward_posted-WaitsOn :
      (laws : KeepsHeader M) (seq : ℕ) (chan : Chan) (decoding : Decoding) (env : Env)
      (now clock : ℕ) (posted : UdpPodPfcpMsg) (msg : M) (written : List Write) (a : Adapter M)
      → pfcp.sequence msg ≢ seq
      → WaitsOn seq chan a
      → WaitsOn seq chan (forward_posted decoding env now clock posted msg written a).0
  unfolding forward_posted name_upf
  forward_posted-WaitsOn laws seq chan decoding env now clock posted msg written a other v =
      forward_pfcp_msg_to_upf-WaitsOn laws seq chan env posted.up_node_id msg _ other v

  step-HasMailbox :
      (event : Event M) (a : Adapter M) → HasMailbox a → Keeps HasMailbox (step event a)
  step-HasMailbox (posts decoding env now clock req_body read_failed) a v =
      handler_kept HasMailbox decoding env now clock req_body read_failed a v
        (λ posted msg written e f.
          forward_posted-HasMailbox decoding env now clock posted msg written a v)
  step-HasMailbox (dispatches order checked now msg addr) a v =
      dispatch-Keeps HasMailbox-IsStable order checked now msg addr a tt v
  step-HasMailbox (finishes tx rounds now) a v =
      finish_transaction-Keeps HasMailbox-IsStable tx rounds now a (λ msg e. tt) v
  step-HasMailbox (takes chan) a v =
      Keeps-taken HasMailbox chan a v (λ a' answer e. receive_rsp-HasMailbox chan a a' answer e v)

  run-HasMailbox :
      (events : List (Event M)) (a : Adapter M) → HasMailbox a → Keeps HasMailbox (run events a)
  unfolding run
  run-HasMailbox [] a v = v
  run-HasMailbox (event ∷ events) a v =
      Keeps-then HasMailbox (step event a) (run events) (step-HasMailbox event a v)
        (run-HasMailbox events)

  -- Whatever the order of the events, no handler blocks on a channel: if the channels of the waiting
  -- requests are empty, distinct and made, as they are when none waits, the run does not end blocked.
  pub run_never_blocks :
      (events : List (Event M)) (a : Adapter M) → HasMailbox a → run events a ≢ blocks
  run_never_blocks events a v e = subst (Keeps HasMailbox) e (run-HasMailbox events a v)

  -- An event that does not name a number.
  abbrev pub Avoids : ℕ → Event M → Type 0
  Avoids seq (posts decoding env now clock req_body read_failed) =
      (posted : UdpPodPfcpMsg) (msg : M)
      → decoding.unmarshal req_body ≡ some posted
      → pfcp.parse posted.body ≡ some msg
      → pfcp.sequence msg ≢ seq
  Avoids seq (dispatches order checked now msg addr) = pfcp.sequence msg ≢ seq
  Avoids seq (finishes tx rounds now) =
      (msg : M) → pfcp.parse tx.send_msg ≡ some msg → pfcp.sequence msg ≢ seq
  Avoids seq (takes chan) = Unit {0}

  abbrev pub AllAvoid : ℕ → List (Event M) → Type 0
  AllAvoid seq [] = Unit {0}
  AllAvoid seq (event ∷ events) = Avoids seq event × AllAvoid seq events

  module _ (laws : KeepsHeader M) (seq : ℕ) (chan : Chan) where
    step-WaitsOn :
        (event : Event M) (a : Adapter M)
        → Avoids seq event
        → WaitsOn seq chan a
        → Keeps (WaitsOn seq chan) (step event a)
    step-WaitsOn (posts decoding env now clock req_body read_failed) a other v =
        handler_kept (WaitsOn seq chan) decoding env now clock req_body read_failed a v
          (λ posted msg written e f.
            forward_posted-WaitsOn laws seq chan decoding env now clock posted msg written a
              (other posted msg e f) v)
    step-WaitsOn (dispatches order checked now msg addr) a other v =
        dispatch-Keeps (WaitsOn-IsStable seq chan) order checked now msg addr a other v
    step-WaitsOn (finishes tx rounds now) a other v =
        finish_transaction-Keeps (WaitsOn-IsStable seq chan) tx rounds now a other v
    step-WaitsOn (takes c) a other (v, waiting) =
        Keeps-taken (WaitsOn seq chan) c a (v, waiting)
          (λ a' answer e. (
            receive_rsp-HasMailbox c a a' answer e v,
            ap (lookup seq) (receive_rsp-kept c a a' answer e).0 ∙ waiting,
          ))

    -- A request waits until its number is named: events that do not name it leave its registration.
    pub run-WaitsOn :
        (events : List (Event M)) (a : Adapter M)
        → AllAvoid seq events
        → WaitsOn seq chan a
        → Keeps (WaitsOn seq chan) (run events a)
    unfolding run
    run-WaitsOn [] a other v = v
    run-WaitsOn (event ∷ events) a (other, rest) v =
        Keeps-then (WaitsOn seq chan) (step event a) (run events) (step-WaitsOn event a other v)
          (λ a' v'. run-WaitsOn events a' rest v')
