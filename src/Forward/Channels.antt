-- ===== src/Forward/Channels.antt =====
-- What a call of ForwardPfcpMsgToUpf of pfcp/util.go leaves of the channels and of the other requests.
use upfadapter.Prelude.{
  ℕ, ◌+◌, ◌≡◌, ◌≢◌, sym, ap, subst, ◌∙◌, some, ite, ℕ_discrete, nat_key, Map, lookup, insert,
  lookup-insert, arith,
}
use upfadapter.Net.{Net}
use upfadapter.Pfcp.{Pfcp, MsgType}
use upfadapter.Elements.{Elements}
use upfadapter.Node.{NodeId}
use upfadapter.Waiting.{Chan, Txns}
use upfadapter.Adapter.{HttpRsp, Adapter}
use upfadapter.Handlers.Mailbox.{
  IsMailbox, HasMailbox, IsMailbox-fewer, IsMailbox-registered, WaitsOn,
}
use upfadapter.Forward.{Env, unsent, Forwarded, refused, waits, forward_pfcp_msg_to_upf}
use upfadapter.Forward.Laws.{KeepsHeader, rewritten-SameHeader}
use upfadapter.Forward.Registered.{Ended, forward_pfcp_msg_to_upf-ForwardPost}

-- A channel that is made and not registered keeps it.
IsMailbox-made : (t : Txns) (b : Map Chan HttpRsp) (n : ℕ) → IsMailbox t b n → IsMailbox t b (n + 1)
IsMailbox-made t b n v = record {
  empty = v.empty;
  single = v.single;
  made = λ s c e. omega (arith, v.made s c e);
  unused = λ c above. v.unused c (omega (arith, above));
}

-- A registration by what a look-up finds.
IsMailbox-put :
    (seq : ℕ) (t t' : Txns) (b : Map Chan HttpRsp) (n : ℕ)
    → ((k : ℕ) → lookup k t' ≡ ite (ℕ_discrete seq k) (some n) (lookup k t))
    → IsMailbox t b n
    → IsMailbox t' b (n + 1)
IsMailbox-put seq t t' b n looks v =
    IsMailbox-fewer (insert seq n t) t' b (n + 1)
      (λ s c e. ground (arith, e, looks s, lookup-insert seq s n t))
      (IsMailbox-registered seq t b n v)

module _ {M : Type 0} ⦃net : Net⦄ ⦃pfcp : Pfcp M⦄ ⦃elements : Elements M⦄ where
  -- A call of ForwardPfcpMsgToUpf, the channels being `b` and the one that it made `n`.
  Ended-IsMailbox :
      (env : Env) (type : MsgType) (msg : M) (a a' : Adapter M) (b : Map Chan HttpRsp) (n : ℕ)
      (result : Forwarded)
      → Ended env type msg n a a' result
      → IsMailbox a.txns b n
      → IsMailbox a'.txns b (n + 1)
  Ended-IsMailbox env type msg a a' b n (waits c) post v =
      IsMailbox-put (pfcp.sequence post.0) a.txns a'.txns b n post.4.0 v
  Ended-IsMailbox env type msg a a' b n (refused (unsent cause)) post v =
      IsMailbox-fewer a.txns a'.txns b (n + 1) (λ s c f. ground (arith, f, post.2 s))
        (IsMailbox-made a.txns b n v)
  Ended-IsMailbox env type msg a a' b n (refused _) post v =
      subst (λ t. IsMailbox t b (n + 1)) (sym post.0) (IsMailbox-made a.txns b n v)
  Ended-IsMailbox env type msg a a' b n _ post v =
      subst (λ t. IsMailbox t b (n + 1)) (sym post.0) (IsMailbox-made a.txns b n v)

  pub forward_pfcp_msg_to_upf-HasMailbox :
      (env : Env) (node : NodeId) (msg : M) (a : Adapter M)
      → HasMailbox a
      → HasMailbox (forward_pfcp_msg_to_upf env node msg a).0
  forward_pfcp_msg_to_upf-HasMailbox env node msg a v =
      let (a', result) = forward_pfcp_msg_to_upf env node msg a in
      let ((buffers, next, peers, smf), end) = forward_pfcp_msg_to_upf-ForwardPost env node msg a in
      subst (λ b. IsMailbox a'.txns b a'.next_chan) (sym buffers)
        (subst (IsMailbox a'.txns a.buffers) (sym next) (
          Ended-IsMailbox env (pfcp.message_type msg) msg (record a { next_chan = a.next_chan + 1 })
            a' a.buffers a.next_chan result end v))

  Ended-kept :
      KeepsHeader M
      → (env : Env) (type : MsgType) (msg : M) (a a' : Adapter M) (n seq : ℕ) (result : Forwarded)
      → Ended env type msg n a a' result
      → pfcp.sequence msg ≢ seq
      → lookup seq a'.txns ≡ lookup seq a.txns
  Ended-kept laws env type msg a a' n seq (waits c) post other =
      let same = rewritten-SameHeader laws type env msg post.0 post.1 in
      ground (arith, post.4.0 seq, same.0, other)
  Ended-kept laws env type msg a a' n seq (refused (unsent cause)) post other =
      let same = rewritten-SameHeader laws type env msg post.0 post.1 in
      ground (arith, post.2 seq, same.0, other)
  Ended-kept laws env type msg a a' n seq (refused _) post other = ap (lookup seq) post.0
  Ended-kept laws env type msg a a' n seq _ post other = ap (lookup seq) post.0

  -- A call for another number leaves a request waiting.
  pub forward_pfcp_msg_to_upf-WaitsOn :
      (laws : KeepsHeader M) (seq : ℕ) (chan : Chan) (env : Env) (node : NodeId) (msg : M)
      (a : Adapter M)
      → pfcp.sequence msg ≢ seq
      → WaitsOn seq chan a
      → WaitsOn seq chan (forward_pfcp_msg_to_upf env node msg a).0
  forward_pfcp_msg_to_upf-WaitsOn laws seq chan env node msg a other (v, waiting) =
      let (a', result) = forward_pfcp_msg_to_upf env node msg a in
      let (same, end) = forward_pfcp_msg_to_upf-ForwardPost env node msg a in
      (
        forward_pfcp_msg_to_upf-HasMailbox env node msg a v,
        Ended-kept laws env (pfcp.message_type msg) msg (record a { next_chan = a.next_chan + 1 })
              a' a.next_chan seq result end other
            ∙ waiting,
      )
