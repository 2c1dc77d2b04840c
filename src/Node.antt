-- ===== src/Node.antt =====
-- Node identities and the cache of resolved names: types/nodeid.go. The resolver is a parameter of
-- the operations: the first address that it finds for a name, or none where it fails. The cache has
-- no lock in the code; each operation here is one step.
pub mod Cache
mod Tests
use upfadapter.Prelude.{
  ℕ, Bool, false, Option, none, some, List, [], ◌∷◌, if◌then◌else◌, text_key, Map, keys, lookup,
  insert, delete,
}
use upfadapter.Net.{Net, Text, Ip}

pub data NodeIdType : Type 0 where
  ipv4_address ipv6_address fqdn : NodeIdType
  other_type : ℕ → NodeIdType

-- NodeID. A value that a body leaves out is nil, which is not the empty one.
pub record NodeId : Type 0 where
  pub node_id_type : NodeIdType
  pub node_id_value : Text
  pub value_is_nil : Bool

-- The value as an address.
abbrev pub value_of : NodeId → Ip
value_of node = if node.value_is_nil then none else some node.node_id_value

-- dnsHostIpCache
abbrev pub Names : Type 0
Names = Map Text Ip

-- The bytes of an address; those of nil are none.
abbrev pub bytes_of : Ip → Text
bytes_of none = []
bytes_of (some b) = b

abbrev pub ipv4_zero : Ip
ipv4_zero = some (0 ∷ 0 ∷ 0 ∷ 0 ∷ 0 ∷ 0 ∷ 0 ∷ 0 ∷ 0 ∷ 0 ∷ 255 ∷ 255 ∷ 0 ∷ 0 ∷ 0 ∷ 0 ∷ [])

module _ ⦃net : Net⦄ where
  -- NewNodeID
  unfoldable pub new_node_id : Text → NodeId
  new_node_id node_id = elim (net.parse_ip node_id) [
    | none ↦ record { node_id_type = fqdn; node_id_value = node_id; value_is_nil = false }
    | some b ↦ elim (net.to4 (some b)) [
      | some b4 ↦ record { node_id_type = ipv4_address; node_id_value = b4; value_is_nil = false }
      | none ↦ record {
        node_id_type = ipv6_address;
        node_id_value = bytes_of (net.to16 (some b));
        value_is_nil = false;
      }
    ]
  ]

  -- The name of a node, by the cache and then by the resolver.
  pub resolve_name : (Text → Option Text) → Text → Names → Names × Ip
  resolve_name resolver name cache = elim (lookup name cache) [
    | some ip ↦ (cache, ip)
    | none ↦ elim (resolver name) [
      | none ↦ (cache, ipv4_zero)
      | some address ↦ (insert name (net.parse_ip address) cache, net.parse_ip address)
    ]
  ]

  -- ResolveNodeIdToIp
  unfoldable pub resolve_node_id_to_ip : (Text → Option Text) → NodeId → Names → Names × Ip
  resolve_node_id_to_ip resolver node cache = elim node.node_id_type [
    | ipv4_address ↦ (cache, value_of node)
    | ipv6_address ↦ (cache, value_of node)
    | fqdn ↦ resolve_name resolver node.node_id_value cache
    | other_type _ ↦ (cache, ipv4_zero)
  ]

  -- The body of RefreshDnsHostIpCache. A name that is gone is not visited.
  pub refresh_name : (Text → Option Text) → Text → Names → Names
  refresh_name resolver name cache = elim (lookup name cache) [
    | none ↦ cache
    | some ip ↦ elim (resolver name) [
      | none ↦ delete name cache
      | some address ↦
          if net.ip_equal ip (net.parse_ip address)
          then cache
          else insert name (net.parse_ip address) cache
    ]
  ]

  pub refresh_names : (Text → Option Text) → List Text → Names → Names
  refresh_names resolver [] cache = cache
  refresh_names resolver (name ∷ names) cache =
      refresh_names resolver names (refresh_name resolver name cache)

  -- RefreshDnsHostIpCache
  pub refresh_dns_host_ip_cache : (Text → Option Text) → Names → Names
  refresh_dns_host_ip_cache resolver cache = refresh_names resolver (keys cache) cache
