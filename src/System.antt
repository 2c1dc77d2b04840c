-- ===== src/System.antt =====
-- The adapter as a whole: the handlers of HTTP posts (upfadapter.go), the dispatcher
-- (pfcp/dispatcher.go), the ends of transactions (pfcp/udp/udp.go) and the receives that end a post's
-- wait (pfcp/util.go), in any order, each as one step.
pub mod Unblocked
pub mod Exchange
pub mod Order
mod Tests
use upfadapter.Prelude.{
  Bool, ℕ, ◌+◌, ◌≡◌, ◌≢◌, sym, ap, subst, ◌∙◌, none, some, List, [], ◌∷◌, ite, ℕ_discrete, nat_key,
  Map, lookup, insert, lookup-insert, inl, inr, Option-cases, arith,
}
use upfadapter.Net.{Net, Text, UdpAddr}
use upfadapter.Pfcp.{Pfcp, MsgType}
use upfadapter.Elements.{Elements}
use upfadapter.Node.{NodeId}
use upfadapter.Udp.Tables.{Transaction}
use upfadapter.Waiting.{Chan, Txns}
use upfadapter.LifeCycle.{Round}
use upfadapter.Report.{EventData}
use upfadapter.Adapter.{HttpRsp, Adapter, Ran, done, locked_out, blocks, panics, receive_rsp}
use upfadapter.Handlers.{dispatch, finish_transaction}
use upfadapter.Handlers.Mailbox.{
  IsMailbox, HasMailbox, IsMailbox-fewer, IsMailbox-registered, receive_rsp-HasMailbox,
  receive_rsp-kept, HasMailbox-IsStable, WaitsOn, WaitsOn-IsStable,
}
use upfadapter.Handlers.Stable.{Keeps, dispatch-Keeps, finish_transaction-Keeps}
use upfadapter.Forward.{Env, unsent, Forwarded, refused, waits, forward_pfcp_msg_to_upf}
use upfadapter.Forward.Laws.{KeepsHeader, rewritten-SameHeader}
use upfadapter.Forward.Registered.{Ended, forward_pfcp_msg_to_upf-ForwardPost}
use upfadapter.Http.{Decoding, handler}

-- What happens to the adapter: the SMF posts a body, a message of a user plane or of the SMF is dispatched,
-- a transaction ends, and a requester looks at its channel.
pub data Event (M : Type 0) : Type 0 where
  posts : Decoding → Env → ℕ → ℕ → Text → Bool → Event M
  dispatches : List Text → ℕ → ℕ → M → UdpAddr → Event M
  finishes : Transaction EventData → (ℕ → Round) → ℕ → Event M
  takes : Chan → Event M

module _ {M : Type 0} ⦃net : Net⦄ ⦃pfcp : Pfcp M⦄ ⦃elements : Elements M⦄ where
  -- An HTTP handler that panics ends that post only, and leaves what it did to the state, a lock among
  -- it.
  abbrev pub step : Event M → Adapter M → Ran (Adapter M)
  step (posts decoding env now clock req_body read_failed) a =
      done (handler decoding env now clock req_body read_failed a).0
  step (dispatches order checked now msg addr) a = dispatch order checked now msg addr a
  step (finishes tx rounds now) a = finish_transaction tx rounds now a
  step (takes chan) a = elim (receive_rsp chan a) [ none ↦ done a | some (a', answer) ↦ done a' ]

  -- The events in turn: past a handler that waits for a lock the others go on; one that panics ends the
  -- program.
  unfoldable pub run : List (Event M) → Adapter M → Ran (Adapter M)
  run [] a = done a
  run (event ∷ events) a = elim (step event a) [
    | done a' ↦ run events a'
    | locked_out a' ↦ run events a'
    | blocks ↦ blocks
    | panics ↦ panics
  ]
