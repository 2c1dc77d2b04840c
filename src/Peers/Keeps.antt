-- ===== src/Peers/Keeps.antt =====
-- RecordUpfAddr of config/config.go, step by step: what each of its writes keeps, it keeps.
use upfadapter.Prelude.{
  ℕ, ◌≡◌, ◌||◌, Option, some, if◌then◌else◌, lookup, ltb, inl, inr, Bool-cases, Map, Set, delete,
  insert, text_key,
}
use upfadapter.Net.{Net, Text, Ip}
use upfadapter.Peers.{
  UpfNodeRecord, Peers, is_blank, text_eq, node_record, is_no_address, forget_upf_addr_locked,
  note_node, leave_address, place_node, record_upf_addr,
}
use upfadapter.Peers.Expire.{expire_upf_addrs_locked_keeps}

module _ {κ} ⦃net : Net⦄ {H : Type 0} (hook : Option (Text → H → H)) (now clock : ℕ)
    (P : Peers H → Type κ)
    (forgets : (node addr : Text) (p : Peers H)
      → P p
      → P (forget_upf_addr_locked hook node addr clock p))
    (notes : (m : Map Text UpfNodeRecord) (p : Peers H) → P p → P (record p { nodes = m })) where
  pub note_node_keeps : (node : Text) (p : Peers H) → P p → P (note_node hook now clock node p)
  unfolding note_node
  note_node_keeps node p v = expire_upf_addrs_locked_keeps hook now clock P drop _ noted
    where
      drop :
          (node : Text) (r : UpfNodeRecord) (q : Peers H)
          → lookup node q.nodes ≡ some r
          → P q
          → P (
              let dropped : Peers H = record q { nodes = delete node q.nodes } in
              if is_blank r.addr
              then dropped
              else forget_upf_addr_locked hook node r.addr clock dropped)
      drop node r q e w = elim (Bool-cases (is_blank r.addr)) [
        | inl blank ↦ rw blank (notes (delete node q.nodes) q w)
        | inr placed ↦ rw placed (forgets node r.addr _ (notes (delete node q.nodes) q w))
      ]

      noted : P (
          if ltb now (node_record node p.nodes).seen then p else record p {
            nodes = insert node (record (node_record node p.nodes) { seen = now }) p.nodes;
          })
      noted = elim (Bool-cases (ltb now (node_record node p.nodes).seen)) [
        | inl late ↦ rw late v
        | inr current ↦ rw current (notes _ p v)
      ]

  pub leave_address_keeps :
      (node from key : Text) (p : Peers H) → P p → P (leave_address hook clock node from key p)
  unfolding leave_address
  leave_address_keeps node from key p v = elim (Bool-cases (is_blank from || text_eq from key)) [
    | inl same ↦ rw same v
    | inr other ↦ rw other (forgets node from p v)
  ]

  pub record_upf_addr_keeps :
      ((m : Map Text (Set Text)) (p : Peers H) → P p → P (record p { addrs = m }))
      → (node : Text) (ip : Ip) (p : Peers H) → P p
      → P (record_upf_addr hook now clock node ip p)
  unfolding record_upf_addr place_node
  record_upf_addr_keeps places node ip p v =
      let r = node_record node p.nodes in
      elim (Bool-cases (is_no_address ip || ltb now r.seen)) [
        | inl stays ↦ rw stays (note_node_keeps node p v)
        | inr placed ↦
            let left =
              leave_address hook clock node r.addr (net.ip_string ip)
                (note_node hook now clock node p) in
            rw placed (
              notes _ _ (
                places _ left (
                  leave_address_keeps node r.addr (net.ip_string ip) _ (note_node_keeps node p v))))
      ]
