-- ===== src/Peers/Released.antt =====
-- What RecordUpfAddr of config/config.go does to an address: held or not, and how often released.
use upfadapter.Prelude.{
  ℕ, ◌+◌, ◌%◌, ◌^◌, ◌≡◌, refl, true, false, ◌||◌, Option, none, some, ◌⊎◌, inl, inr, ltb,
  Bool-cases, Option-cases, text_key, bucket, is_empty, lookup, insert, delete, contains,
  lookup-insert, lookup-delete, arith,
}
use upfadapter.Net.{Net, Text, Ip}
use upfadapter.Relay.{relay_generation}
use upfadapter.Relay.Release.{generation-forget_relays_for_host}
use upfadapter.Peers.{
  Peers, node_record, is_no_address, forget_upf_addr_locked, leave_address, place_node,
  record_upf_addr, is_known_upf_addr, any_recent,
}
use upfadapter.Peers.Keeps.{note_node_keeps, leave_address_keeps}

module _ ⦃net : Net⦄ {H : Type 0} where
  -- The address stays as it is, with its count of releases; or it is lost, and the count goes up.
  abbrev pub Counted : Text → Peers H → Peers H → Type 0
  Counted a p p' =
      ((contains a p'.addrs ≡ contains a p.addrs)
        × (relay_generation a p'.relay_table ≡ relay_generation a p.relay_table))
      ⊎ ((contains a p.addrs ≡ true)
          × (contains a p'.addrs ≡ false)
          × (relay_generation a p'.relay_table ≡ (relay_generation a p.relay_table + 1) % 2 ^ 64))

  -- An address that is lost has its release counted.
  abbrev pub Released : Text → Peers H → Peers H → Type 0
  Released a p p' =
      contains a p.addrs ≡ true
      → contains a p'.addrs ≡ false
      → relay_generation a p'.relay_table ≡ (relay_generation a p.relay_table + 1) % 2 ^ 64

  Counted-trans : (a : Text) (p q r : Peers H) → Counted a p q → Counted a q r → Counted a p r
  Counted-trans a p q r h k = ground arith

  module _ (hook : Option (Text → H → H)) (a : Text) where
    forget_upf_addr_locked-Counted :
        (node addr : Text) (clock : ℕ) (p : Peers H)
        → Counted a p (forget_upf_addr_locked hook node addr clock p)
    unfolding forget_upf_addr_locked
    forget_upf_addr_locked-Counted node addr clock p = elim (Option-cases (lookup addr p.addrs)) [
      | inl e ↦ rw (e, forget_upf_addr_locked) (inl (refl, refl))
      | inr (nodes, e) ↦ elim (Bool-cases (is_empty (delete node nodes))) [
        | inl last ↦
            rw (e, forget_upf_addr_locked)
              (rw last (
                ground (
                  arith,
                  e,
                  lookup-delete addr a p.addrs,
                  generation-forget_relays_for_host addr a clock p.relay_table,
                )))
        | inr more ↦
            rw (e, forget_upf_addr_locked)
              (rw more (ground (arith, e, lookup-insert addr a (delete node nodes) p.addrs)))
      ]
    ]

    -- Another release after some.
    forget_upf_addr_locked-Counted_from :
        (clock : ℕ) (p : Peers H) (node addr : Text) (q : Peers H)
        → Counted a p q
        → Counted a p (forget_upf_addr_locked hook node addr clock q)
    forget_upf_addr_locked-Counted_from clock p node addr q h =
        Counted-trans a p q (forget_upf_addr_locked hook node addr clock q) h
          (forget_upf_addr_locked-Counted node addr clock q)

    place_node-Released :
        (now clock : ℕ) (node from key : Text) (p q : Peers H)
        → Counted a p q
        → Released a p (place_node hook now clock node from key q)
    unfolding place_node
    place_node-Released now clock node from key p q h =
        let left = leave_address hook clock node from key q in
        let looks = lookup-insert key a (insert node tt (bucket key left.addrs)) left.addrs in
        let both : Counted a p left =
          leave_address_keeps hook now clock (Counted a p)
            (forget_upf_addr_locked-Counted_from clock p) (λ m r v. v) node from key q h in
        λ there gone. ground (arith, there, gone, looks, both)

    -- Each release of an address that a message of the SMF causes is counted.
    pub record_upf_addr-Released :
        (now clock : ℕ) (node : Text) (ip : Ip) (p : Peers H)
        → Released a p (record_upf_addr hook now clock node ip p)
    unfolding record_upf_addr
    record_upf_addr-Released now clock node ip p =
        let r = node_record node p.nodes in
        let noted =
          note_node_keeps hook now clock (Counted a p) (forget_upf_addr_locked-Counted_from clock p)
            (λ m q v. v) node p (inl (refl, refl)) in
        elim (Bool-cases (is_no_address ip || ltb now r.seen)) [
          | inl stays ↦ rw stays (λ there gone. ground (arith, there, gone, noted))
          | inr placed ↦
              rw placed (place_node-Released now clock node r.addr (net.ip_string ip) p _ noted)
        ]

  -- Only an address that is held is known.
  pub held_of_known :
      (ip : Ip) (now : ℕ) (p : Peers H)
      → is_known_upf_addr ip now p ≡ true
      → contains (net.ip_string ip) p.addrs ≡ true
  unfolding is_known_upf_addr any_recent
  held_of_known none now p h = ground (arith, h)
  held_of_known (some octets) now p h =
      elim (Option-cases (lookup (net.ip_string (some octets)) p.addrs)) [
        | inl e ↦ absurd (ground (arith, h, e))
        | inr (nodes, e) ↦ ground (arith, e)
      ]
