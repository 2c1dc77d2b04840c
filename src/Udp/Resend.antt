-- ===== src/Udp/Resend.antt =====
-- Whole calls of the socket of pfcp/udp/udp.go: an answer and the copies of its request.
use upfadapter.Prelude.{
  ℕ, ◌≡◌, lookup-nil, ◌∙◌, refl, sym, ap, subst, true, none, some, if◌then◌else◌, nat_key, text_key,
  arith,
}
use upfadapter.Net.{Net, Text, UdpAddr}
use upfadapter.Pfcp.{Pfcp, is_request, is_response}
use upfadapter.Udp.{dispatch, resend, send_pfcp, receive}
use upfadapter.Udp.Tables.{
  Transaction, Server, load, is_host, delete_by_host, forget_consumer, notify,
  receive_resend_request,
}
use upfadapter.Udp.Register.{tx_at, IsSeparate}
use upfadapter.Udp.Absorb.{receive_absorbed, receive_fresh, load-delete_by_host, send_pfcp_answer}

nothing_held : {E : Type 0} (c : Text) (q : ℕ) (s : Server E) → load c s ≡ none → tx_at s c q ≡ none
nothing_held {E} c q s e = ground (arith, e, lookup-nil {V = Transaction E} q)

module _ {M : Type 0} {E : Type 0} ⦃net : Net⦄ ⦃pfcp : Pfcp M⦄ where
  -- With tables that no two consumers share, an answer that was sent to the address of a request,
  -- under the request's number, absorbs the next copy of that request from there: the transaction
  -- that holds the answer's bytes is told to send them again, and nothing is dispatched.
  pub send_pfcp_absorbs :
      (rsp req : M) (dest : UdpAddr) (event_data : E) (s s' : Server E)
      → is_response rsp ≡ true
      → is_request req ≡ true
      → pfcp.sequence req ≡ pfcp.sequence rsp
      → IsSeparate s
      → send_pfcp rsp dest event_data (some s) ≡ (some s', none)
      → (tx : Transaction E) × (pfcp.marshal rsp ≡ some tx.send_msg)
        × (receive req dest s' ≡ (notify tx.id receive_resend_request s', resend))
  send_pfcp_absorbs rsp req dest event_data s s' response request same v sent =
      let (tx, held, _, bytes, _) = send_pfcp_answer rsp dest event_data s s' response v sent in
      (
        tx,
        bytes,
        receive_absorbed req dest tx s' request
            (subst (λ q. tx_at s' (net.udp_string dest) q ≡ some tx) (sym same) held),
      )

  -- After the addresses of a host were released, a request from that host is dispatched, whatever
  -- was answered to it before and whatever its port.
  forget_consumer_dispatches :
      (req : M) (addr : UdpAddr) (ip : Text) (s : Server E)
      → is_request req ≡ true
      → is_host ip (net.udp_string addr) ≡ true
      → (s' : Server E) × (forget_consumer ip (some s) ≡ some s')
        × (receive req addr s' ≡ (s', dispatch req addr))
  unfolding forget_consumer
  forget_consumer_dispatches req addr ip s request host =
      let consumer = net.udp_string addr in
      let gone : load consumer (delete_by_host ip s) ≡ none =
        load-delete_by_host ip consumer s ∙ ap (λ b. if b then none else load consumer s) host in
      (
        delete_by_host ip s,
        refl,
        receive_fresh req addr (delete_by_host ip s) request
            (nothing_held consumer (pfcp.sequence req) (delete_by_host ip s) gone),
      )
