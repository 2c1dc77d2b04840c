-- ===== src/Peers.antt =====
-- The user planes that the SMF names: upfAddrs and upfNodeAddrs of config/config.go, which
-- upfAddrMutex guards, with the two things that a release of an address reaches from inside that
-- lock, the relay tables and whatever the registered hook holds.
pub mod Forget
pub mod Expire
pub mod Naming
pub mod Known
pub mod Keeps
pub mod Relays
pub mod Released
mod Tests
use upfadapter.Prelude.{
  ℕ, ◌-◌, ◌*◌, Bool, true, false, not, ◌&&◌, ◌||◌, Option, none, some, List, [], ◌∷◌, if◌then◌else◌,
  ltb, leb, ite, Text-discrete, text_key, Map, Set, bucket, keys, is_empty, lookup, insert, delete,
}
use upfadapter.Net.{Net, Text, Ip, minute}
use upfadapter.Relay.{RelayTable, forget_relays_for_host}

-- `upfNodeRecord`; the address is empty while the node's name does not resolve.
pub record UpfNodeRecord : Type 0 where
  pub seen : ℕ
  pub addr : Text

pub record Peers (H : Type 0) : Type 0 where
  pub addrs : Map Text (Set Text)
  pub nodes : Map Text UpfNodeRecord
  pub relay_table : RelayTable
  pub hooked : H

abbrev pub upf_addr_lifetime : ℕ
upf_addr_lifetime = 30 * minute

abbrev pub is_recent : ℕ → UpfNodeRecord → Bool
is_recent now r = leb (now - r.seen) upf_addr_lifetime

-- `upfNodeAddrs[node]`, where a missing entry is the zero value.
abbrev pub node_record : Text → Map Text UpfNodeRecord → UpfNodeRecord
node_record node m = elim (lookup node m) [ none ↦ record { seen = 0; addr = [] } | some r ↦ r ]

abbrev pub is_blank : Text → Bool
is_blank [] = true
is_blank (c ∷ s) = false

abbrev pub text_eq : Text → Text → Bool
text_eq a b = ite (Text-discrete a b) true false

-- The loop of IsKnownUpfAddr over the nodes at one address.
unfoldable pub any_recent : ℕ → Map Text UpfNodeRecord → List Text → Bool
any_recent now m [] = false
any_recent now m (node ∷ rest) = is_recent now (node_record node m) || any_recent now m rest

-- `upfAddrReleased(addr)`, if a hook is registered.
abbrev pub run_hook : {H : Type 0} → Option (Text → H → H) → Text → H → H
run_hook hook addr h = elim hook [ none ↦ h | some f ↦ f addr h ]

module _ ⦃net : Net⦄ where
  -- The resolution gave no address to authorise: nil, or the unspecified address.
  abbrev pub is_no_address : Ip → Bool
  is_no_address none = true
  is_no_address (some ip) = net.is_unspecified (some ip)

  -- IsKnownUpfAddr
  unfoldable pub is_known_upf_addr : {H : Type 0} → Ip → ℕ → Peers H → Bool
  is_known_upf_addr none now p = false
  is_known_upf_addr (some ip) now p =
      any_recent now p.nodes (keys (bucket (net.ip_string (some ip)) p.addrs))

module _ ⦃net : Net⦄ {H : Type 0} (hook : Option (Text → H → H)) where
  -- forgetUpfAddrLocked; `clock` is the time that ForgetRelaysForHost reads.
  unfoldable pub forget_upf_addr_locked : Text → Text → ℕ → Peers H → Peers H
  forget_upf_addr_locked node addr clock p = elim (lookup addr p.addrs) [
    | none ↦ p
    | some nodes ↦
        let left = delete node nodes in
        if is_empty left
        then record p {
          addrs = delete addr p.addrs;
          relay_table = forget_relays_for_host addr clock p.relay_table;
          hooked = run_hook hook addr p.hooked;
        }
        else record p { addrs = insert addr left p.addrs }
  ]

  -- The body of the walk of expireUpfAddrsLocked. A record is read when it is visited.
  unfoldable pub expire_node : ℕ → ℕ → Text → Peers H → Peers H
  expire_node now clock node p = elim (lookup node p.nodes) [
    | none ↦ p
    | some r ↦
        let dropped : Peers H = record p { nodes = delete node p.nodes } in
        if is_recent now r
        then p
        else if is_blank r.addr
        then dropped
        else forget_upf_addr_locked node r.addr clock dropped
  ]

  unfoldable pub expire_nodes : ℕ → ℕ → List Text → Peers H → Peers H
  expire_nodes now clock [] p = p
  expire_nodes now clock (node ∷ rest) p =
      expire_nodes now clock rest (expire_node now clock node p)

  -- expireUpfAddrsLocked
  unfoldable pub expire_upf_addrs_locked : ℕ → ℕ → Peers H → Peers H
  expire_upf_addrs_locked now clock p = expire_nodes now clock (keys p.nodes) p

  -- The node leaves the address it had, unless that is where it is.
  unfoldable pub leave_address : ℕ → Text → Text → Text → Peers H → Peers H
  leave_address clock node from key p =
      if is_blank from || text_eq from key then p else forget_upf_addr_locked node from clock p

  -- The end of RecordUpfAddr: the node is placed at `key`.
  unfoldable pub place_node : ℕ → ℕ → Text → Text → Text → Peers H → Peers H
  place_node now clock node from key p =
      let left = leave_address clock node from key p in
      record left {
        addrs = insert key (insert node tt (bucket key left.addrs)) left.addrs;
        nodes = insert node (record { seen = now; addr = key }) left.nodes;
      }

  -- The first half of RecordUpfAddr: the node is noted as named, and the sweep runs.
  unfoldable pub note_node : ℕ → ℕ → Text → Peers H → Peers H
  note_node now clock node p =
      let r = node_record node p.nodes in
      expire_upf_addrs_locked now clock (
        if ltb now r.seen
        then p
        else record p { nodes = insert node (record r { seen = now }) p.nodes })

  -- RecordUpfAddr, with the node's key, the time read before its name was resolved, and what the
  -- name resolved to.
  unfoldable pub record_upf_addr : ℕ → ℕ → Text → Ip → Peers H → Peers H
  record_upf_addr now clock node ip p =
      let r = node_record node p.nodes in
      let noted = note_node now clock node p in
      if is_no_address ip || ltb now r.seen
      then noted
      else place_node now clock node r.addr (net.ip_string ip) noted
