-- ===== src/Udp/Sent.antt =====
-- SendPfcp of pfcp/udp/udp.go on an open socket: a message that was encoded is sent, or refused as a
-- duplicate.
use upfadapter.Prelude.{
  ℕ_discrete, is_some, if_pos, ℕ, zero, suc, ◌≡◌, refl, sym, ap, subst, ◌∙◌, true, Option, none,
  some, ◌∷◌, contains, nat_key, inl, inr, ◌⊎◌, Option-cases, arith, Text-discrete, text_key,
}
use upfadapter.Net.{Net, Text, UdpAddr}
use upfadapter.Pfcp.{Pfcp, is_response}
use upfadapter.Udp.Absorb.{response_not_request, register_and_start-ok, send_pfcp-ok}
use upfadapter.Udp.{new_transaction, send_pfcp}
use upfadapter.Udp.Tables.{
  Transaction, Server, SendError, duplicate_sequence, table_detached, not_initialized,
  not_listening, marshal_failed, table_of, load_or_store, put_once, put_loop, put_transaction,
  register_and_start,
}
use upfadapter.Udp.Register.{IsSeparate, PutPost, put_transaction-PutPost}

module _ {E : Type 0} where
  put_once-untouched :
      (tx : Transaction E) (s : Server E)
      → ((put_once tx s).0.started ≡ s.started) × ((put_once tx s).0.listening ≡ s.listening)
  unfolding put_once load_or_store
  put_once-untouched tx s = (ground arith, ground arith)

  pub put_loop-untouched :
      (n : ℕ) (tx : Transaction E) (s : Server E)
      → ((put_loop n tx s).0.started ≡ s.started) × ((put_loop n tx s).0.listening ≡ s.listening)
  unfolding put_loop
  put_loop-untouched zero tx s = (refl, refl)
  put_loop-untouched (suc n) tx s =
      let once = put_once-untouched tx s in
      let rest = put_loop-untouched n tx (put_once tx s).0 in
      (ground (arith, once.0, rest.0), ground (arith, once.1, rest.1))

  -- A registration is made or refused as a duplicate, and the number is waited on afterwards.
  put-cases :
      (tx : Transaction E) (s : Server E) (r : Server E × Option SendError)
      → PutPost tx s r
      → ((r.1 ≡ none)
          ⊎ ((r.1 ≡ some duplicate_sequence)
              × (contains tx.sequence_number (table_of tx.consumer_addr s) ≡ true)))
        × IsSeparate r.0
        × (contains tx.sequence_number (table_of tx.consumer_addr r.0) ≡ true)
  put-cases tx s (s', none) (free, looks, v) = (
    inl refl,
    v,
    ap is_some (
        looks tx.consumer_addr tx.sequence_number
        ∙ if_pos (Text-discrete tx.consumer_addr tx.consumer_addr) refl _ _
        ∙ if_pos (ℕ_discrete tx.sequence_number tx.sequence_number) refl _ _),
  )
  put-cases tx s (s', some duplicate_sequence) (taken, looks, v) =
      (inr (refl, taken), v, ap is_some (looks tx.consumer_addr tx.sequence_number) ∙ taken)
  put-cases tx s (s', some table_detached) post = elim post [ ]
  put-cases tx s (s', some not_initialized) post = elim post [ ]
  put-cases tx s (s', some not_listening) post = elim post [ ]
  put-cases tx s (s', some marshal_failed) post = elim post [ ]

  -- What an attempt to send leaves: the transaction was started, or the number was already waited on.
  abbrev pub Attempted : Transaction E → Server E → Server E → Option SendError → Type 0
  Attempted tx s s' err =
      IsSeparate s'
      × (s'.listening ≡ s.listening)
      × (contains tx.sequence_number (table_of tx.consumer_addr s') ≡ true)
      × (((err ≡ none) × (s'.started ≡ tx ∷ s.started))
          ⊎ ((err ≡ some duplicate_sequence)
              × (s'.started ≡ s.started)
              × (contains tx.sequence_number (table_of tx.consumer_addr s) ≡ true)))

  register_and_start-Attempted :
      (tx : Transaction E) (s : Server E)
      → IsSeparate s
      → Attempted tx s (register_and_start tx s).0 (register_and_start tx s).1
  unfolding register_and_start put_transaction
  register_and_start-Attempted tx s v =
      let put = put_transaction tx s in
      let same = put_loop-untouched 3 tx s in
      let (how, v', there) = put-cases tx s put (put_transaction-PutPost tx s v) in
      elim how [
        | inl e ↦
            let step : register_and_start tx s
                ≡ (record put.0 { started = tx ∷ put.0.started }, none) =
              ground (arith, e) in
            subst (λ r. Attempted tx s r.0 r.1) (sym step)
              (
                record { distinct = v'.distinct; given = v'.given },
                same.1,
                there,
                inl (refl, ap (λ x. tx ∷ x) same.0),
              )
        | inr (e, taken) ↦
            let step : register_and_start tx s ≡ (put.0, some duplicate_sequence) =
              ground (arith, e) in
            subst (λ r. Attempted tx s r.0 r.1) (sym step)
              (v', same.1, there, inr (refl, same.0, taken))
      ]

module _ {M : Type 0} {E : Type 0} ⦃net : Net⦄ ⦃pfcp : Pfcp M⦄ where
  -- On an open socket whose tables no two consumers share, a message that can be encoded is sent,
  -- and exactly its transaction is started, or it is refused as a duplicate and none is. Either way
  -- its number is waited on afterwards.
  pub send_pfcp-Attempted :
      (msg : M) (bytes : Text) (dest : UdpAddr) (event_data : E) (s : Server E)
      → s.listening ≡ true
      → pfcp.marshal msg ≡ some bytes
      → IsSeparate s
      → (s' : Server E) × (err : Option SendError) × (send_pfcp msg dest event_data (some s)
          ≡ (some s', err))
        × Attempted (new_transaction msg bytes dest event_data s).1 s s' err
  unfolding send_pfcp new_transaction
  send_pfcp-Attempted msg bytes dest event_data s listens e v =
      let (s1, tx) = new_transaction msg bytes dest event_data s in
      let done = register_and_start tx s1 in
      (
        done.0,
        done.1,
        ground (arith, listens, e),
        register_and_start-Attempted tx s1 (record { distinct = v.distinct; given = v.given }),
      )

  -- What a transaction carries, and where an answer's is looked for.
  pub new_transaction-carries :
      (msg : M) (bytes : Text) (dest : UdpAddr) (event_data : E) (s : Server E)
      → ((new_transaction msg bytes dest event_data s).1.send_msg ≡ bytes)
        × ((new_transaction msg bytes dest event_data s).1.dest_addr ≡ dest)
        × ((new_transaction msg bytes dest event_data s).1.sequence_number ≡ pfcp.sequence msg)
  unfolding new_transaction
  new_transaction-carries msg bytes dest event_data s = (refl, refl, refl)

  pub new_transaction-answers :
      (msg : M) (bytes : Text) (dest : UdpAddr) (event_data : E) (s : Server E)
      → is_response msg ≡ true
      → (new_transaction msg bytes dest event_data s).1.consumer_addr ≡ net.udp_string dest
  unfolding new_transaction
  new_transaction-answers msg bytes dest event_data s response =
      ground (arith, response, response_not_request (pfcp.message_type msg) response)

  -- What a send that succeeded has started: one transaction, which carries the message.
  abbrev pub Started : M → UdpAddr → E → Option (Server E) → Option (Server E) → Type 0
  Started msg dest event_data old new =
      (s : Server E) × (s' : Server E) × (tx : Transaction E) × (old ≡ some s)
      × (new ≡ some s')
      × (s'.started ≡ tx ∷ s.started)
      × (pfcp.marshal msg ≡ some tx.send_msg)
      × (tx.dest_addr ≡ dest)
      × (tx.event_data ≡ event_data)

  send_pfcp-opened :
      (msg : M) (dest : UdpAddr) (event_data : E) (s s' : Server E)
      → send_pfcp msg dest event_data (some s) ≡ (some s', none)
      → Started msg dest event_data (some s) (some s')
  unfolding new_transaction put_transaction
  send_pfcp-opened msg dest event_data s s' h =
      let (bytes, e, registered) = send_pfcp-ok msg dest event_data s s' h in
      let (s1, tx) = new_transaction msg bytes dest event_data s in
      let (s2, stored, final) = register_and_start-ok tx s1 s' registered in
      let same = put_loop-untouched 3 tx s1 in
      (
        s,
        s',
        tx,
        refl,
        refl,
        ground (arith, final, same.0, ap (λ r. r.0.started) stored),
        e,
        refl,
        refl,
      )

  -- A send that succeeded had a server, and started exactly one transaction.
  pub send_pfcp-Started :
      (msg : M) (dest : UdpAddr) (event_data : E) (old : Option (Server E))
      → (send_pfcp msg dest event_data old).1 ≡ none
      → Started msg dest event_data old (send_pfcp msg dest event_data old).0
  unfolding send_pfcp
  send_pfcp-Started msg dest event_data none h = absurd (ground (arith, h))
  send_pfcp-Started msg dest event_data (some s) h =
      let result = send_pfcp msg dest event_data (some s) in
      elim (Option-cases result.0) [
        | inl e ↦ absurd (ground (arith, h, e))
        | inr (s', e) ↦
            let both : result ≡ (some s', none) = ground (arith, h, e) in
            subst (Started msg dest event_data (some s)) (sym e)
              (send_pfcp-opened msg dest event_data s s' both)
      ]
