-- ===== src/Http.antt =====
-- The HTTP handler of upfadapter.go, which posts of the SMF reach. The body's JSON decoding is a
-- parameter, and so is the key that nodeKey of config/config.go prints.
pub mod Named
mod Tests
use upfadapter.Prelude.{ℕ, Bool, Option, none, some, List, [], ◌∷◌, ◌++◌, if◌then◌else◌}
use upfadapter.Net.{Net, Text, Ip}
use upfadapter.Pfcp.{Pfcp}
use upfadapter.Elements.{Elements}
use upfadapter.Node.{NodeId, Names, resolve_node_id_to_ip}
use upfadapter.Peers.{Peers, record_upf_addr}
use upfadapter.Smf.{set_smf_addr}
use upfadapter.Udp.Tables.{forget_consumer}
use upfadapter.Waiting.{Chan}
use upfadapter.Report.{World}
use upfadapter.Adapter.{name_peer, HttpRsp, rsp, err, Hooked, Adapter}
use upfadapter.Forward.{
  Env, Forwarded, replied, refused, waits, held_up, panicked, forward_pfcp_msg_to_upf,
}

-- UdpPodPfcpMsg, of which the handler reads these fields.
pub record UdpPodPfcpMsg : Type 0 where
  pub smf_ip : Text
  pub body : Text
  pub up_node_id : NodeId

pub record Decoding : Type 0 where
  pub unmarshal : Text → Option UdpPodPfcpMsg
  pub node_key : NodeId → Text

-- A write to the response: http.Error with status 500, or the bytes of an answer.
pub data Write : Type 0 where
  internal_error : Write
  answer_bytes : Text → Write

-- Where the handler is: it returned, waits on a channel, waits for good for a lock, or panicked; with what
-- it wrote.
pub data Served : Type 0 where
  returned : List Write → Served
  pending : Chan → List Write → Served
  stuck : List Write → Served
  crashed : Served

-- The end of the handler.
pub respond : List Write → HttpRsp → List Write
respond written (rsp bytes) = written ++ (answer_bytes bytes ∷ [])
respond written (err outcome) = written ++ (internal_error ∷ [])

-- What the handler does with what ForwardPfcpMsgToUpf gave.
abbrev pub served : List Write → Forwarded → Served
served written (replied bytes) = returned (respond written (rsp bytes))
served written (refused e) = returned (written ++ (internal_error ∷ []))
served written (waits chan) = pending chan written
served written held_up = stuck written
served written panicked = crashed

module _ {M : Type 0} ⦃net : Net⦄ where
  -- RecordUpfAddr, which resolves the node first.
  unfoldable pub name_upf :
      (Text → Option Text) → (NodeId → Text) → ℕ → ℕ → NodeId → Adapter M → Adapter M
  name_upf resolver node_key now clock node a =
      let (names, ip) = resolve_node_id_to_ip resolver node a.names in
      record a { names = names; world = name_peer now clock (node_key node) ip a.world }

module _ {M : Type 0} ⦃net : Net⦄ ⦃pfcp : Pfcp M⦄ ⦃elements : Elements M⦄ where
  -- The handler past the parsing of the message.
  unfoldable pub forward_posted :
      Decoding → Env → ℕ → ℕ → UdpPodPfcpMsg → M → List Write → Adapter M → Adapter M × Served
  forward_posted decoding env now clock posted msg written a =
      let world : World Hooked = record a.world { smf = set_smf_addr posted.smf_ip a.world.smf } in
      let named =
        name_upf env.resolver decoding.node_key now clock posted.up_node_id
          (record a { world = world }) in
      let (a', result) = forward_pfcp_msg_to_upf env posted.up_node_id msg named in
      (a', served written result)

  -- handler, up to its wait, with what was read of the body and whether the read failed.
  unfoldable pub handler : Decoding → Env → ℕ → ℕ → Text → Bool → Adapter M → Adapter M × Served
  handler decoding env now clock req_body read_failed a =
      let written = if read_failed then internal_error ∷ [] else [] in
      elim (decoding.unmarshal req_body) [
        | none ↦ (a, returned written)
        | some posted ↦ elim (pfcp.parse posted.body) [
          | none ↦ (a, returned (written ++ (internal_error ∷ [])))
          | some msg ↦ forward_posted decoding env now clock posted msg written a
        ]
      ]
