-- ===== src/Udp/Reading.antt =====
-- readLoop of pfcp/udp/udp.go.
use upfadapter.Prelude.{
  ◌≡◌, sym, ap, subst, true, Option, some, List, [], ◌∷◌, ◌++◌, nat_key, text_key, inl, inr,
  Option-cases, arith, ◌∙◌,
}
use upfadapter.Net.{Net, UdpAddr}
use upfadapter.Pfcp.{Pfcp}
use upfadapter.Udp.{
  Read, dispatch, closed, Packet, packet, socket_closed, socket_error, receive, read_packet,
  read_pfcp_message, read_loop,
}
use upfadapter.Udp.Tables.{Server}

module _ (M : Type 0) {E : Type 0} ⦃net : Net⦄ ⦃pfcp : Pfcp M⦄ where
  -- What a round of the loop makes of its read and of the rounds after it.
  abbrev after_read :
      Option (Server E) × Read M
      → Option (Server E) × List (M × UdpAddr)
      → Option (Server E) × List (M × UdpAddr)
  after_read read rest = elim read.1 [
    | dispatch msg addr ↦ (rest.0, (msg, addr) ∷ rest.1)
    | closed ↦ (read.0, [])
    | _ ↦ (rest.0, rest.1)
  ]

  receive-open :
      (msg : M) (addr : UdpAddr) (s : Server E) → ((receive msg addr s).0.listening ≡ s.listening)
  unfolding receive
  receive-open msg addr s = ground arith

  pub read_packet-open :
      (p : Packet) (s : Server E)
      → s.listening ≡ true
      → (s' : Server E) × ((read_pfcp_message {M = M} p (some s)).0 ≡ some s')
        × (s'.listening ≡ true)
  unfolding read_pfcp_message read_packet
  read_packet-open socket_closed s h = (s, ground (arith, h), h)
  read_packet-open socket_error s h = (s, ground (arith, h), h)
  read_packet-open (packet bytes addr) s h = elim (Option-cases (pfcp.parse bytes)) [
    | inl e ↦ (s, ground (arith, h, e), h)
    | inr (msg, e) ↦ ((receive msg addr s).0, ground (arith, h, e), receive-open msg addr s ∙ h)
  ]

  -- With the socket open, the loop ends where the socket is closed: what it dispatched and the
  -- tables it leaves are those of the packets before, whatever comes after.
  read_loop-closed :
      (before after : List Packet) (s : Server E)
      → s.listening ≡ true
      → read_loop {M = M} (before ++ socket_closed ∷ after) (some s)
        ≡ read_loop {M = M} before (some s)
  unfolding read_loop read_pfcp_message read_packet
  read_loop-closed [] after s h = ground (arith, h)
  read_loop-closed (p ∷ ps) after s h =
      let (s', e, opened) = read_packet-open p s h in
      let rest =
        subst (λ x. read_loop {M = M} (ps ++ socket_closed ∷ after) x ≡ read_loop {M = M} ps x)
          (sym e) (read_loop-closed ps after s' opened) in
      ap (after_read (read_pfcp_message p (some s))) rest
