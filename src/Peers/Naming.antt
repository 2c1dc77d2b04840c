-- ===== src/Peers/Naming.antt =====
-- RecordUpfAddr of config/config.go: where each node is recorded afterwards, and what is kept.
use upfadapter.Prelude.{
  ℕ, ◌≡◌, ap, false, ◌&&◌, ◌||◌, Option, none, some, [], ite, if◌then◌else◌, ltb, inl, inr,
  Bool-cases, Text-discrete, text_key, nat_key, in_bucket, lookup, insert, lookup-insert,
  in_bucket-insert, arith,
}
use upfadapter.Net.{Net, Text, Ip}
use upfadapter.Peers.{
  UpfNodeRecord, Peers, is_blank, text_eq, node_record, is_no_address, note_node, leave_address,
  place_node, record_upf_addr,
}
use upfadapter.Peers.Forget.{
  at_addr, IsPlaced, in_bucket-forget_upf_addr_locked, nodes-forget_upf_addr_locked,
}
use upfadapter.Peers.Expire.{
  recent_only, lookup-expire_upf_addrs_locked, expire_upf_addrs_locked-IsPlaced,
}

module _ ⦃net : Net⦄ where
  -- The record of the node that a message names. A message that was sent before the one last heard
  -- changes nothing; a name that does not resolve leaves the node at its address.
  abbrev pub after_naming : ℕ → Ip → Option UpfNodeRecord → Option UpfNodeRecord
  after_naming now ip none =
      if is_no_address ip
      then some (record { seen = now; addr = [] })
      else some (record { seen = now; addr = net.ip_string ip })
  after_naming now ip (some r) =
      if ltb now r.seen
      then some r
      else if is_no_address ip
      then some (record { seen = now; addr = r.addr })
      else some (record { seen = now; addr = net.ip_string ip })

  module _ {H : Type 0} (hook : Option (Text → H → H)) (now clock : ℕ) where
    -- The tables as noted, before the sweep.
    abbrev pub noted : Text → Peers H → Peers H
    noted node p =
        let r = node_record node p.nodes in
        if ltb now r.seen
        then p
        else record p { nodes = insert node (record r { seen = now }) p.nodes }

    pub lookup-note_node :
        (n node : Text) (p : Peers H)
        → lookup n (note_node hook now clock node p).nodes
          ≡ ite
              (Text-discrete node n)
              (after_naming now none (lookup n p.nodes))
              (recent_only now (lookup n p.nodes))
    unfolding note_node
    lookup-note_node n node p =
        let r = node_record node p.nodes in
        ground (
          arith,
          lookup-expire_upf_addrs_locked hook now clock n (noted node p),
          lookup-insert node n (record r { seen = now }) p.nodes,
        )

    nodes-leave_address :
        (node from key : Text) (p : Peers H)
        → (leave_address hook clock node from key p).nodes ≡ p.nodes
    unfolding leave_address
    nodes-leave_address node from key p =
        ground (arith, nodes-forget_upf_addr_locked hook from node clock p)

    nodes-place_node :
        (node from key : Text) (p : Peers H)
        → (place_node hook now clock node from key p).nodes
          ≡ insert node (record { seen = now; addr = key }) p.nodes
    unfolding place_node
    nodes-place_node node from key p =
        ap (insert node (record { seen = now; addr = key })) (nodes-leave_address node from key p)

    -- Where every node is recorded after a message that names one of them, on every branch.
    pub lookup-record_upf_addr :
        (n node : Text) (ip : Ip) (p : Peers H)
        → lookup n (record_upf_addr hook now clock node ip p).nodes
          ≡ ite
              (Text-discrete node n)
              (after_naming now ip (lookup n p.nodes))
              (recent_only now (lookup n p.nodes))
    unfolding record_upf_addr
    lookup-record_upf_addr n node ip p =
        let r = node_record node p.nodes in
        let noted = note_node hook now clock node p in
        elim (Bool-cases (is_no_address ip || ltb now r.seen)) [
          | inl stays ↦ rw stays (ground (arith, lookup-note_node n node p))
          | inr placed ↦ rw placed (
              ground (
                arith,
                lookup-note_node n node p,
                nodes-place_node node r.addr (net.ip_string ip) noted,
                lookup-insert node n (record { seen = now; addr = net.ip_string ip }) noted.nodes,
              ))
        ]

    noted-IsPlaced : (node : Text) (p : Peers H) → IsPlaced p → IsPlaced (noted node p)
    noted-IsPlaced node p v = record {
      agree = λ a n. ground (
        arith,
        v.agree a n,
        lookup-insert node n (record (node_record node p.nodes) { seen = now }) p.nodes,
      );
    }

    pub note_node-IsPlaced :
        (node : Text) (p : Peers H) → IsPlaced p → IsPlaced (note_node hook now clock node p)
    unfolding note_node
    note_node-IsPlaced node p v =
        expire_upf_addrs_locked-IsPlaced hook now clock (noted node p) (noted-IsPlaced node p v)

    -- Once it has left, the node is at no address but the one it is placed at.
    in_bucket-leave_address :
        (a n node key : Text) (q : UpfNodeRecord) (p : Peers H)
        → lookup node p.nodes ≡ some q
        → IsPlaced p
        → in_bucket a n (leave_address hook clock node q.addr key p).addrs
          ≡ ite
              (Text-discrete node n)
              (text_eq q.addr key && at_addr a (some q))
              (in_bucket a n p.addrs)
    unfolding leave_address
    in_bucket-leave_address a n node key q p e v =
        ground (arith, v.agree a n, in_bucket-forget_upf_addr_locked hook a q.addr n node clock p)

    pub place_node-IsPlaced :
        (node key : Text) (q : UpfNodeRecord) (p : Peers H)
        → lookup node p.nodes ≡ some q
        → is_blank key ≡ false
        → IsPlaced p
        → IsPlaced (place_node hook now clock node q.addr key p)
    unfolding place_node
    place_node-IsPlaced node key q p e named v = record {
      agree = λ a n.
          let left = leave_address hook clock node q.addr key p in
          rw (in_bucket-insert a key n node left.addrs) (
            ground (
              arith,
              in_bucket-leave_address a n node key q p e v,
              v.agree a n,
              nodes-leave_address node q.addr key p,
              lookup-insert node n (record { seen = now; addr = key }) left.nodes,
            ));
    }
