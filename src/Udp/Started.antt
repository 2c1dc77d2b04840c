-- ===== src/Udp/Started.antt =====
-- The transactions that the PFCP socket (pfcp/udp/udp.go) has started: none is forgotten.
use upfadapter.Prelude.{
  ℕ, ◌≡◌, sym, subst, Option, none, some, List, [], ◌∷◌, ◌⊎◌, inl, inr, Bool-cases, Option-cases,
  nat_key, text_key, arith,
}
use upfadapter.Net.{Net, Text, UdpAddr}
use upfadapter.Pfcp.{Pfcp}
use upfadapter.Udp.{
  Packet, packet, socket_closed, socket_error, new_transaction, send_pfcp, receive, read_packet,
  read_pfcp_message,
}
use upfadapter.Udp.Tables.{
  Transaction, Server, put_transaction, register_and_start, remove_transaction, forget_consumer,
  delete_by_host, notify, EventType,
}
use upfadapter.Udp.Sent.{put_loop-untouched, send_pfcp-Started}

module _ {E : Type 0} (P : Transaction E → Type 0) where
  abbrev pub AnyOf : List (Transaction E) → Type 0
  AnyOf [] = ⊥
  AnyOf (tx ∷ rest) = P tx ⊎ AnyOf rest

  -- There is a server, and it started such a transaction.
  abbrev pub HasStarted : Option (Server E) → Type 0
  HasStarted none = ⊥
  HasStarted (some s) = AnyOf s.started

  register_and_start-AnyOf :
      (tx : Transaction E) (s : Server E)
      → AnyOf s.started
      → AnyOf (register_and_start tx s).0.started
  unfolding register_and_start put_transaction
  register_and_start-AnyOf tx s v =
      let put = put_transaction tx s in
      let v' : AnyOf put.0.started = subst AnyOf (sym (put_loop-untouched 3 tx s).0) v in
      elim (Option-cases put.1) [
        | inl e ↦
            let step : (register_and_start tx s).0.started ≡ tx ∷ put.0.started =
              ground (arith, e) in
            subst AnyOf (sym step) (inr v')
        | inr (err, e) ↦
            let step : (register_and_start tx s).0.started ≡ put.0.started = ground (arith, e) in
            subst AnyOf (sym step) v'
      ]

  notify-started :
      (id : ℕ) (event : EventType) (s : Server E) → (notify id event s).started ≡ s.started
  notify-started id event s = ground arith

  pub HasStarted-remove :
      (tx : Transaction E) (s : Server E)
      → AnyOf s.started
      → AnyOf (remove_transaction tx s).0.started
  unfolding remove_transaction
  HasStarted-remove tx s v =
      let same : (remove_transaction tx s).0.started ≡ s.started = ground arith in
      subst AnyOf (sym same) v

  module _ ⦃net : Net⦄ where
    pub HasStarted-forget_consumer :
        (ip : Text) (s : Option (Server E)) → HasStarted s → HasStarted (forget_consumer ip s)
    unfolding forget_consumer delete_by_host
    HasStarted-forget_consumer ip none v = v
    HasStarted-forget_consumer ip (some s) v = v

    module _ {M : Type 0} ⦃pfcp : Pfcp M⦄ where
      pub HasStarted-send_pfcp :
          (msg : M) (dest : UdpAddr) (event_data : E) (old : Option (Server E))
          → HasStarted old
          → HasStarted (send_pfcp msg dest event_data old).0
      unfolding send_pfcp new_transaction
      HasStarted-send_pfcp msg dest event_data none v = v
      HasStarted-send_pfcp msg dest event_data (some s) v = elim (Bool-cases s.listening) [
        | inr closed ↦ rw closed v
        | inl listens ↦ elim (Option-cases (pfcp.marshal msg)) [
          | inl e ↦ rw listens (rw (e, send_pfcp) v)
          | inr (bytes, e) ↦ rw listens (
              rw (e, send_pfcp)
                (register_and_start-AnyOf (new_transaction msg bytes dest event_data s).1
                  (new_transaction msg bytes dest event_data s).0 v))
        ]
      ]

      -- A send that succeeded started a transaction that carries its message.
      pub HasStarted-sent :
          (msg : M) (dest : UdpAddr) (event_data : E) (old : Option (Server E))
          → ((tx : Transaction E)
              → pfcp.marshal msg ≡ some tx.send_msg
              → tx.dest_addr ≡ dest
              → tx.event_data ≡ event_data
              → P tx)
          → (send_pfcp msg dest event_data old).1 ≡ none
          → HasStarted (send_pfcp msg dest event_data old).0
      HasStarted-sent msg dest event_data old carries sent =
          let (s, s', tx, before, after, began, bytes, goes, kept) =
            send_pfcp-Started msg dest event_data old sent in
          subst HasStarted (sym after) (subst AnyOf (sym began) (inl (carries tx bytes goes kept)))

      receive-started :
          (msg : M) (addr : UdpAddr) (s : Server E) → (receive msg addr s).0.started ≡ s.started
      unfolding receive
      receive-started msg addr s = ground arith

    module _ (M : Type 0) ⦃pfcp : Pfcp M⦄ where
      pub HasStarted-read_pfcp_message :
          (p : Packet) (s : Option (Server E))
          → HasStarted s
          → HasStarted (read_pfcp_message {M = M} p s).0
      unfolding read_pfcp_message read_packet
      HasStarted-read_pfcp_message p none v = v
      HasStarted-read_pfcp_message p (some s) v = elim (Bool-cases s.listening) [
        | inr closed ↦ rw closed v
        | inl listens ↦ simp listens (read p)
      ]
        where
          read : (p : Packet) → HasStarted (read_packet {M = M} p s).0
          read socket_closed = v
          read socket_error = v
          read (packet bytes addr) = elim (Option-cases (pfcp.parse bytes)) [
            | inl e ↦ rw (e, read_packet) v
            | inr (msg, e) ↦ rw (e, read_packet) (subst AnyOf (sym (receive-started msg addr s)) v)
          ]
