-- ===== src/Http/Named.antt =====
-- What a post of the SMF makes known, by the handler of upfadapter.go.
use upfadapter.Prelude.{
  none, ℕ, ◌-◌, ◌≤◌, ◌≡◌, ap, ◌∙◌, Bool, true, false, some, List, [], ◌∷◌, if◌then◌else◌, arith,
}
use upfadapter.Net.{Net, Text, Ip}
use upfadapter.Pfcp.{Pfcp}
use upfadapter.Elements.{Elements}
use upfadapter.Node.{resolve_node_id_to_ip}
use upfadapter.Peers.{
  Peers, is_blank, is_no_address, node_record, upf_addr_lifetime, record_upf_addr,
  is_known_upf_addr,
}
use upfadapter.Peers.Forget.{IsPlaced}
use upfadapter.Peers.Known.{record_upf_addr-is_known}
use upfadapter.Smf.{set_smf_addr}
use upfadapter.Smf.Claims.{destination, set_smf_addr_lem}
use upfadapter.Udp.Tables.{forget_consumer}
use upfadapter.Report.{World}
use upfadapter.Adapter.{Hooked, Adapter}
use upfadapter.Forward.{Env}
use upfadapter.Forward.Registered.{forward_pfcp_msg_to_upf-ForwardPost}
use upfadapter.Http.{
  UdpPodPfcpMsg, Decoding, Write, internal_error, name_upf, forward_posted, handler,
}

module _ {M : Type 0} ⦃net : Net⦄ ⦃pfcp : Pfcp M⦄ ⦃elements : Elements M⦄ where
  -- The peers and the SMF's address after a post, whatever becomes of its message.
  pub forward_posted_knows :
      (decoding : Decoding) (env : Env) (now clock : ℕ) (posted : UdpPodPfcpMsg) (msg : M)
      (written : List Write) (a : Adapter M)
      → let a' = (forward_posted decoding env now clock posted msg written a).0 in
        (a'.world.smf ≡ set_smf_addr posted.smf_ip a.world.smf)
        × (a'.world.peers
            ≡ record_upf_addr
                (some forget_consumer)
                now
                clock
                (decoding.node_key posted.up_node_id)
                (resolve_node_id_to_ip env.resolver posted.up_node_id a.names).1
                (record a.world.peers { hooked = a.world.server }))
  unfolding forward_posted name_upf
  forward_posted_knows decoding env now clock posted msg written a =
      let world : World Hooked = record a.world { smf = set_smf_addr posted.smf_ip a.world.smf } in
      let named =
        name_upf env.resolver decoding.node_key now clock posted.up_node_id
          (record a { world = world }) in
      let post = forward_pfcp_msg_to_upf-ForwardPost env posted.up_node_id msg named in
      (post.0.3, post.0.2)

  pub handler_unread :
      (decoding : Decoding) (env : Env) (now clock : ℕ) (req_body : Text) (read_failed : Bool)
      (a : Adapter M)
      → decoding.unmarshal req_body ≡ none
      → (handler decoding env now clock req_body read_failed a).0 ≡ a
  unfolding handler
  handler_unread decoding env now clock req_body read_failed a e = ground (arith, e)

  pub handler_unparsed :
      (decoding : Decoding) (env : Env) (now clock : ℕ) (req_body : Text) (read_failed : Bool)
      (posted : UdpPodPfcpMsg) (a : Adapter M)
      → decoding.unmarshal req_body ≡ some posted
      → pfcp.parse posted.body ≡ none
      → (handler decoding env now clock req_body read_failed a).0 ≡ a
  unfolding handler
  handler_unparsed decoding env now clock req_body read_failed posted a e f = ground (arith, e, f)

  pub handler_forwards :
      (decoding : Decoding) (env : Env) (now clock : ℕ) (req_body : Text) (read_failed : Bool)
      (posted : UdpPodPfcpMsg) (msg : M) (a : Adapter M)
      → decoding.unmarshal req_body ≡ some posted
      → pfcp.parse posted.body ≡ some msg
      → (written : List Write) × (handler decoding env now clock req_body read_failed a
          ≡ forward_posted decoding env now clock posted msg written a)
  unfolding handler
  handler_forwards decoding env now clock req_body read_failed posted msg a e f =
      (if read_failed then internal_error ∷ [] else [], ground (arith, e, f))

  pub handler_names :
      (named : (ip : Ip) → is_blank (net.ip_string ip) ≡ false) (decoding : Decoding) (env : Env)
      (now clock at : ℕ) (req_body octets : Text) (read_failed : Bool) (posted : UdpPodPfcpMsg)
      (msg : M) (a : Adapter M)
      → IsPlaced a.world.peers
      → decoding.unmarshal req_body ≡ some posted
      → pfcp.parse posted.body ≡ some msg
      → (resolve_node_id_to_ip env.resolver posted.up_node_id a.names).1 ≡ some octets
      → is_no_address (some octets) ≡ false
      → (node_record (decoding.node_key posted.up_node_id) a.world.peers.nodes).seen ≤ now
      → at - now ≤ upf_addr_lifetime
      → let a' = (handler decoding env now clock req_body read_failed a).0 in
        (a'.world.smf ≡ elim (destination posted.smf_ip) [ none ↦ a.world.smf | some d ↦ some d ])
        × (is_known_upf_addr (some octets) at a'.world.peers ≡ true)
  handler_names named decoding env now clock at req_body octets read_failed posted msg a v e f
        resolved good current soon =
      let (written, forwards) =
        handler_forwards decoding env now clock req_body read_failed posted msg a e f in
      let (smf, peers) = forward_posted_knows decoding env now clock posted msg written a in
      let hooked : Peers Hooked = record a.world.peers { hooked = a.world.server } in
      let known =
        record_upf_addr-is_known named (some forget_consumer) now clock
          (decoding.node_key posted.up_node_id) octets hooked (record { agree = v.agree }) current
          good at soon in
      (
        ap (λ r. r.0.world.smf) forwards ∙ smf ∙ set_smf_addr_lem posted.smf_ip a.world.smf,
        ground (arith, ap (λ r. r.0.world.peers) forwards, peers, resolved, known),
      )
