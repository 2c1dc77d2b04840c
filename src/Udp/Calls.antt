-- ===== src/Udp/Calls.antt =====
-- SendPfcp, readPfcpMessage, removeTransaction and ForgetConsumer of pfcp/udp/udp.go in any order.
use upfadapter.Prelude.{
  ◌≡◌, refl, sym, ap, subst, Option, none, some, List, [], ◌∷◌, lookup, nat_key, text_key, inl, inr,
  Bool-cases, Option-cases, arith, ◌∙◌, ◌<◌,
}
use upfadapter.Net.{Net, Text, UdpAddr}
use upfadapter.Pfcp.{Pfcp}
use upfadapter.Udp.{
  Packet, packet, socket_closed, socket_error, new_transaction, send_pfcp, receive, read_packet,
  read_pfcp_message,
}
use upfadapter.Udp.Tables.{
  Transaction, Server, SendError, duplicate_sequence, table_detached, not_initialized,
  not_listening, marshal_failed, put_transaction, remove_transaction, delete_by_host,
  register_and_start,
}
use upfadapter.Udp.Register.{IsSeparate, PutPost, put_transaction-PutPost}
use upfadapter.Udp.Absorb.{load-delete_by_host}

-- A call on the socket, with what it is given; a read is given what the socket delivers.
pub data Call (M : Type 0) (E : Type 0) : Type 0 where
  send_call : M → UdpAddr → E → Call M E
  read_call : Packet → Call M E
  remove_call : Transaction E → Call M E
  forget_call : Text → Call M E

module _ {E : Type 0} where
  abbrev kept : Server E → Option (Server E) → Server E
  kept s none = s
  kept s (some s') = s'

  IsSeparate-same :
      (s s' : Server E)
      → s'.consumers ≡ s.consumers
      → s'.next_table ≡ s.next_table
      → IsSeparate s
      → IsSeparate s'
  IsSeparate-same s s' same_consumers same_next v = record {
    distinct = λ c c' id e e'.
        v.distinct c c' id (ap (lookup c) (sym same_consumers) ∙ e)
          (ap (lookup c') (sym same_consumers) ∙ e');
    given = λ c id e.
        subst (λ n. id < n) (sym same_next) (v.given c id (ap (lookup c) (sym same_consumers) ∙ e));
  }

  IsSeparate-of_PutPost :
      (tx : Transaction E) (s : Server E) (r : Server E × Option SendError)
      → PutPost tx s r
      → IsSeparate r.0
  IsSeparate-of_PutPost tx s (s', none) post = post.2
  IsSeparate-of_PutPost tx s (s', some duplicate_sequence) post = post.2
  IsSeparate-of_PutPost tx s (s', some table_detached) post = elim post [ ]
  IsSeparate-of_PutPost tx s (s', some not_initialized) post = elim post [ ]
  IsSeparate-of_PutPost tx s (s', some not_listening) post = elim post [ ]
  IsSeparate-of_PutPost tx s (s', some marshal_failed) post = elim post [ ]

  register_and_start-IsSeparate :
      (tx : Transaction E) (s : Server E) → IsSeparate s → IsSeparate (register_and_start tx s).0
  unfolding register_and_start
  register_and_start-IsSeparate tx s v =
      let put = put_transaction tx s in
      let v' = IsSeparate-of_PutPost tx s put (put_transaction-PutPost tx s v) in
      elim (Option-cases put.1) [
        | inl e ↦
            IsSeparate-same put.0 (register_and_start tx s).0 (ground (arith, e))
              (ground (arith, e)) v'
        | inr (err, e) ↦
            IsSeparate-same put.0 (register_and_start tx s).0 (ground (arith, e))
              (ground (arith, e)) v'
      ]

  remove_transaction-IsSeparate :
      (tx : Transaction E) (s : Server E) → IsSeparate s → IsSeparate (remove_transaction tx s).0
  unfolding remove_transaction
  remove_transaction-IsSeparate tx s v =
      IsSeparate-same s (remove_transaction tx s).0 (ground arith) (ground arith) v

  delete_by_host-IsSeparate :
      ⦃net : Net⦄ (ip : Text) (s : Server E) → IsSeparate s → IsSeparate (delete_by_host ip s)
  unfolding delete_by_host
  delete_by_host-IsSeparate ip s v = record {
    distinct = λ c c' id e e'.
        v.distinct c c' id (ground (arith, e, load-delete_by_host ip c s))
          (ground (arith, e', load-delete_by_host ip c' s));
    given = λ c id e. v.given c id (ground (arith, e, load-delete_by_host ip c s));
  }

module _ (M : Type 0) {E : Type 0} ⦃net : Net⦄ ⦃pfcp : Pfcp M⦄ where
  receive-same :
      (msg : M) (addr : UdpAddr) (s : Server E)
      → ((receive msg addr s).0.consumers ≡ s.consumers)
        × ((receive msg addr s).0.next_table ≡ s.next_table)
  unfolding receive
  receive-same msg addr s = (ground arith, ground arith)

  read-same :
      (p : Packet) (s : Server E)
      → ((kept s (read_pfcp_message {M = M} p (some s)).0).consumers ≡ s.consumers)
        × ((kept s (read_pfcp_message {M = M} p (some s)).0).next_table ≡ s.next_table)
  unfolding read_pfcp_message read_packet
  read-same socket_closed s = (ground arith, ground arith)
  read-same socket_error s = (ground arith, ground arith)
  read-same (packet bytes addr) s = elim (Option-cases (pfcp.parse bytes)) [
    | inl e ↦ (ground (arith, e), ground (arith, e))
    | inr (msg, e) ↦
        let same = receive-same msg addr s in (ground (arith, e, same.0), ground (arith, e, same.1))
  ]

  read_pfcp_message-IsSeparate :
      (p : Packet) (s : Server E)
      → IsSeparate s
      → IsSeparate (kept s (read_pfcp_message {M = M} p (some s)).0)
  read_pfcp_message-IsSeparate p s v =
      IsSeparate-same s (kept s (read_pfcp_message {M = M} p (some s)).0) (read-same p s).0
        (read-same p s).1 v

module _ {M : Type 0} {E : Type 0} ⦃net : Net⦄ ⦃pfcp : Pfcp M⦄ where
  -- The server after a call.
  unfoldable pub step : Server E → Call M E → Server E
  step s (send_call msg dest event_data) = kept s (send_pfcp msg dest event_data (some s)).0
  step s (read_call p) = kept s (read_pfcp_message {M = M} p (some s)).0
  step s (remove_call tx) = (remove_transaction tx s).0
  step s (forget_call ip) = delete_by_host ip s

  unfoldable pub run : Server E → List (Call M E) → Server E
  run s [] = s
  run s (c ∷ cs) = run (step s c) cs

  send_pfcp-IsSeparate :
      (msg : M) (dest : UdpAddr) (event_data : E) (s : Server E)
      → IsSeparate s
      → IsSeparate (kept s (send_pfcp msg dest event_data (some s)).0)
  unfolding send_pfcp new_transaction
  send_pfcp-IsSeparate msg dest event_data s v = elim (Bool-cases s.listening) [
    | inr deaf ↦
        IsSeparate-same s (kept s (send_pfcp msg dest event_data (some s)).0) (ground (arith, deaf))
          (ground (arith, deaf)) v
    | inl listens ↦ elim (Option-cases (pfcp.marshal msg)) [
      | inl e ↦
          IsSeparate-same s (kept s (send_pfcp msg dest event_data (some s)).0)
            (ground (arith, listens, e)) (ground (arith, listens, e)) v
      | inr (bytes, e) ↦
          let (s1, tx) = new_transaction msg bytes dest event_data s in
          let v1 : IsSeparate s1 = IsSeparate-same s s1 refl refl v in
          IsSeparate-same (register_and_start tx s1).0
            (kept s (send_pfcp msg dest event_data (some s)).0) (ground (arith, listens, e))
            (ground (arith, listens, e)) (register_and_start-IsSeparate tx s1 v1)
    ]
  ]

  step-IsSeparate : (s : Server E) (c : Call M E) → IsSeparate s → IsSeparate (step s c)
  unfolding step
  step-IsSeparate s (send_call msg dest event_data) v = send_pfcp-IsSeparate msg dest event_data s v
  step-IsSeparate s (read_call p) v = read_pfcp_message-IsSeparate M p s v
  step-IsSeparate s (remove_call tx) v = remove_transaction-IsSeparate tx s v
  step-IsSeparate s (forget_call ip) v = delete_by_host-IsSeparate ip s v

  -- After any sequence of sends, reads, ends of transactions and releases of addresses, no two
  -- consumer addresses share a transaction table, and every table in use has a number given before.
  pub run-IsSeparate : (cs : List (Call M E)) (s : Server E) → IsSeparate s → IsSeparate (run s cs)
  unfolding run
  run-IsSeparate [] s v = v
  run-IsSeparate (c ∷ cs) s v = run-IsSeparate cs (step s c) (step-IsSeparate s c v)
