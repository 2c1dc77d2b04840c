-- ===== src/Udp/Absorb.antt =====
-- SendPfcp and readPfcpMessage of pfcp/udp/udp.go together: what a registered transaction absorbs,
-- and what a release or the end of the transaction gives up.
use upfadapter.Prelude.{
  ℕ, ◌≡◌, refl, sym, ap, subst, true, false, none, some, List, [], ◌∷◌, if◌then◌else◌, ◌==◌, ite,
  Text-discrete, ℕ_discrete, text_key, nat_key, Map, keys, lookup, insert, delete, mem, mem-keys,
  lookup-nil, lookup-insert, lookup-delete, inl, inr, Bool-cases, Option-cases, arith,
}
use upfadapter.Net.{Net, Text, UdpAddr}
use upfadapter.Pfcp.{MsgType, request_type, response_type, Pfcp, is_request, is_response}
use upfadapter.Udp.{dispatch, resend, new_transaction, send_pfcp, find_transaction, receive}
use upfadapter.Udp.Tables.{
  Transaction, Server, table_at, load, put_transaction, remove_transaction, is_host, delete_hosts,
  delete_by_host, register_and_start, notify, receive_resend_request, sending_response,
}
use upfadapter.Udp.Register.{tx_at, IsSeparate, PutPost, put_transaction-PutPost}

-- No message type is both a request and a response.
request_not_response : (t : MsgType) → request_type t ≡ true → response_type t ≡ false
request_not_response t h = ground arith

pub response_not_request : (t : MsgType) → response_type t ≡ true → request_type t ≡ false
response_not_request t h = ground arith

module _ {E : Type 0} where
  tx_at-removed :
      (tx : Transaction E) (id : ℕ) (s : Server E) (c : Text) (q : ℕ)
      → IsSeparate s
      → load tx.consumer_addr s ≡ some id
      → tx_at
          (record s { tables = insert id (delete tx.sequence_number (table_at id s)) s.tables })
          c
          q
        ≡ ite
            (Text-discrete tx.consumer_addr c)
            (ite (ℕ_discrete tx.sequence_number q) none (tx_at s c q))
            (tx_at s c q)
  tx_at-removed tx id s c q v held = elim (Option-cases (load c s)) [
    | inl e ↦ ground (arith, held, e, lookup-nil {V = Transaction E} q)
    | inr (id', e) ↦ ground (
      arith,
      held,
      e,
      v.distinct tx.consumer_addr c id,
      lookup-insert id id' (delete tx.sequence_number (table_at id s)) s.tables,
      lookup-delete tx.sequence_number q (table_at id s),
    )
  ]

  -- What the end of a transaction removes: its own entry, and no other's.
  pub tx_at-remove_transaction :
      (tx : Transaction E) (s : Server E) (c : Text) (q : ℕ)
      → IsSeparate s
      → tx_at (remove_transaction tx s).0 c q ≡ (
          if (remove_transaction tx s).1
          then ite
              (Text-discrete tx.consumer_addr c)
              (ite (ℕ_discrete tx.sequence_number q) none (tx_at s c q))
              (tx_at s c q)
          else tx_at s c q)
  unfolding remove_transaction
  tx_at-remove_transaction tx s c q v = elim (Option-cases (load tx.consumer_addr s)) [
    | inl e ↦ rw (e, remove_transaction) refl
    | inr (id, e) ↦ elim (Option-cases (lookup tx.sequence_number (table_at id s))) [
      | inl f ↦ rw (e, remove_transaction) (rw (f, remove_transaction) refl)
      | inr (current, f) ↦ elim (Bool-cases (current.id == tx.id)) [
        | inl same ↦
            rw (e, remove_transaction)
              (rw (f, remove_transaction) (rw same (tx_at-removed tx id s c q v e)))
        | inr other ↦ rw (e, remove_transaction) (rw (f, remove_transaction) (rw other refl))
      ]
    ]
  ]

  pub remove_transaction_held :
      (tx : Transaction E) (s : Server E)
      → tx_at s tx.consumer_addr tx.sequence_number ≡ some tx
      → (remove_transaction tx s).1 ≡ true
  unfolding remove_transaction
  remove_transaction_held tx s held = elim (Option-cases (load tx.consumer_addr s)) [
    | inl e ↦ absurd (ground (arith, held, e, lookup-nil {V = Transaction E} tx.sequence_number))
    | inr (id, e) ↦ ground (arith, held, e)
  ]

  pub register_and_start-ok :
      (tx : Transaction E) (s s' : Server E)
      → register_and_start tx s ≡ (s', none)
      → (s'' : Server E) × (put_transaction tx s ≡ (s'', none))
        × (s' ≡ record s'' { started = tx ∷ s''.started })
  unfolding register_and_start
  register_and_start-ok tx s s' h =
      let put = put_transaction tx s in
      elim (Option-cases put.1) [
        | inl e ↦ (put.0, ap (λ x. (put.0, x)) e, ground (arith, h, e))
        | inr (err, e) ↦ absurd (ground (arith, h, e))
      ]

module _ ⦃net : Net⦄ where
  load-delete_hosts :
      (ip c : Text) (ks : List Text) (m : Map Text ℕ)
      → lookup c (delete_hosts ip ks m)
        ≡ (if mem c ks then if is_host ip c then none else lookup c m else lookup c m)
  unfolding delete_hosts mem
  load-delete_hosts ip c [] m = refl
  load-delete_hosts ip c (k ∷ ks) m = ground (
    arith,
    load-delete_hosts ip c ks (if is_host ip k then delete k m else m),
    lookup-delete k c m,
  )

  -- A release of an address drops the tables of its consumers, on whatever port, and no other.
  pub load-delete_by_host :
      {E : Type 0} (ip c : Text) (s : Server E)
      → load c (delete_by_host ip s) ≡ (if is_host ip c then none else load c s)
  unfolding delete_by_host
  load-delete_by_host ip c s =
      ground (arith, load-delete_hosts ip c (keys s.consumers) s.consumers, mem-keys c s.consumers)

module _ {M : Type 0} {E : Type 0} ⦃net : Net⦄ ⦃pfcp : Pfcp M⦄ where
  -- A request whose number an answer to its sender is registered under is absorbed: the transaction
  -- is told, and nothing is dispatched.
  pub receive_absorbed :
      (req : M) (addr : UdpAddr) (tx : Transaction E) (s : Server E)
      → is_request req ≡ true
      → tx_at s (net.udp_string addr) (pfcp.sequence req) ≡ some tx
      → receive req addr s ≡ (notify tx.id receive_resend_request s, resend)
  unfolding receive find_transaction
  receive_absorbed req addr tx s request held =
      ground (arith, request, request_not_response (pfcp.message_type req) request, held)

  -- And one that nothing is registered under is dispatched, with the tables as they were.
  pub receive_fresh :
      (req : M) (addr : UdpAddr) (s : Server E)
      → is_request req ≡ true
      → tx_at s (net.udp_string addr) (pfcp.sequence req) ≡ none
      → receive req addr s ≡ (s, dispatch req addr)
  unfolding receive find_transaction
  receive_fresh req addr s request held =
      ground (arith, request, request_not_response (pfcp.message_type req) request, held)

  pub send_pfcp-ok :
      (msg : M) (dest : UdpAddr) (event_data : E) (s s' : Server E)
      → send_pfcp msg dest event_data (some s) ≡ (some s', none)
      → (bytes : Text) × (pfcp.marshal msg ≡ some bytes)
        × (register_and_start
              (new_transaction msg bytes dest event_data s).1
              (new_transaction msg bytes dest event_data s).0
            ≡ (s', none))
  unfolding send_pfcp
  send_pfcp-ok msg dest event_data s s' h = elim (Bool-cases s.listening) [
    | inr deaf ↦ absurd (ground (arith, h, deaf))
    | inl listens ↦ elim (Option-cases (pfcp.marshal msg)) [
      | inl e ↦ absurd (ground (arith, h, listens, e))
      | inr (bytes, e) ↦
          let done =
            register_and_start (new_transaction msg bytes dest event_data s).1
              (new_transaction msg bytes dest event_data s).0 in
          let opened : send_pfcp msg dest event_data (some s) ≡ (some done.0, done.1) =
            ground (arith, listens, e) in
          (bytes, e, ground (arith, h, opened))
    ]
  ]

  -- What the tables hold once an answer was sent: its bytes, under its number at its receiver.
  pub send_pfcp_answer :
      (rsp : M) (dest : UdpAddr) (event_data : E) (s s' : Server E)
      → is_response rsp ≡ true
      → IsSeparate s
      → send_pfcp rsp dest event_data (some s) ≡ (some s', none)
      → (tx : Transaction E) × (tx_at s' (net.udp_string dest) (pfcp.sequence rsp) ≡ some tx)
        × (tx.tx_type ≡ sending_response)
        × (pfcp.marshal rsp ≡ some tx.send_msg)
        × IsSeparate s'
  unfolding new_transaction
  send_pfcp_answer rsp dest event_data s s' response v sent =
      let (bytes, e, registered) = send_pfcp-ok rsp dest event_data s s' sent in
      let (s1, tx) = new_transaction rsp bytes dest event_data s in
      let (s2, stored, final) = register_and_start-ok tx s1 s' registered in
      let fresh : IsSeparate s1 = record { distinct = v.distinct; given = v.given } in
      let post : PutPost tx s1 (s2, none) =
        subst (PutPost tx s1) stored (put_transaction-PutPost tx s1 fresh) in
      let not_request = response_not_request (pfcp.message_type rsp) response in
      (
        tx,
        ground
            (arith, final, post.1 (net.udp_string dest) (pfcp.sequence rsp), response, not_request),
        ground (arith, response, not_request),
        e,
        subst IsSeparate (sym final) (record { distinct = post.2.distinct; given = post.2.given }),
      )
