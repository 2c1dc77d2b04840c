-- ===== src/Peers/Known.antt =====
-- RecordUpfAddr and IsKnownUpfAddr of config/config.go together: which peers are relayed for.
use upfadapter.Prelude.{
  ℕ, ◌-◌, ◌≤◌, ◌<◌, ◌≡◌, refl, ◌≢◌, ◌↔◌, sym, ◌∙◌, ap, true, false, ◌||◌, Option, none, some, List,
  [], ◌∷◌, ltb, inl, inr, Bool-cases, Option-cases, Text-discrete, text_key, nat_key, Map, if_pos,
  if_neg, bucket, in_bucket, keys, lookup, insert, lookup-insert, mem, mem-keys, arith,
}
use upfadapter.Net.{Net, Text, Ip}
use upfadapter.Peers.{
  UpfNodeRecord, Peers, is_blank, text_eq, is_recent, node_record, is_no_address, note_node,
  leave_address, place_node, record_upf_addr, upf_addr_lifetime, any_recent, is_known_upf_addr,
}
use upfadapter.Peers.Forget.{at_addr, IsPlaced, IsGuarded, forget_upf_addr_locked-IsGuarded}
use upfadapter.Peers.Expire.{recent_only, expire_upf_addrs_locked-IsGuarded}
use upfadapter.Peers.Naming.{
  noted, lookup-note_node, lookup-record_upf_addr, note_node-IsPlaced, place_node-IsPlaced,
}

-- A node is recorded at `a`, and was named at most a lifetime before `now`.
pub record IsNamedAt {H : Type 0} (a : Text) (now : ℕ) (p : Peers H) : Type 0 where
  pub node : Text
  pub entry : UpfNodeRecord
  pub stored : lookup node p.nodes ≡ some entry
  pub placed : entry.addr ≡ a
  pub recent : now - entry.seen ≤ upf_addr_lifetime

-- The loop finds a recent node exactly if there is one among those that it visits.
any_recent_sound :
    (now : ℕ) (m : Map Text UpfNodeRecord) (ks : List Text)
    → any_recent now m ks ≡ true
    → (node : Text) × (mem node ks ≡ true) × (is_recent now (node_record node m) ≡ true)
unfolding any_recent mem
any_recent_sound now m [] h = cc
any_recent_sound now m (k ∷ ks) h = elim (Bool-cases (is_recent now (node_record k m))) [
  | inl e ↦ (k, if_pos (Text-discrete k k) refl _ _, e)
  | inr e ↦
      let (node, visited, recent) = any_recent_sound now m ks (ground (arith, h, e)) in
      (node, ground (arith, visited), recent)
]

any_recent_complete :
    (now : ℕ) (m : Map Text UpfNodeRecord) (ks : List Text) (node : Text)
    → mem node ks ≡ true
    → is_recent now (node_record node m) ≡ true
    → any_recent now m ks ≡ true
unfolding any_recent mem
any_recent_complete now m [] node visited recent = cc
any_recent_complete now m (k ∷ ks) node visited recent =
    ground (arith, any_recent_complete now m ks node)

recent_only-eq-some :
    (now : ℕ) (o : Option UpfNodeRecord) (r : UpfNodeRecord)
    → recent_only now o ≡ some r
    → o ≡ some r
recent_only-eq-some now none r e = e
recent_only-eq-some now (some q) r e = ground arith

module _ ⦃net : Net⦄ (named : (ip : Ip) → is_blank (net.ip_string ip) ≡ false) where
  known_node :
      {H : Type 0} (a : Text) (now : ℕ) (p : Peers H) (node : Text)
      → IsPlaced p
      → mem node (keys (bucket a p.addrs)) ≡ true
      → is_recent now (node_record node p.nodes) ≡ true
      → IsNamedAt a now p
  known_node a now p node v visited recent =
      let there = sym (v.agree a node) ∙ sym (mem-keys node (bucket a p.addrs)) ∙ visited in
      elim (Option-cases (lookup node p.nodes)) [
        | inl e ↦ absurd (ground arith)
        | inr (r, e) ↦ record {
          node = node;
          entry = r;
          stored = e;
          placed = ground arith;
          recent = ground arith;
        }
      ]

  named_node :
      {H : Type 0} (ip : Ip) (now : ℕ) (p : Peers H)
      → IsPlaced p
      → (o : IsNamedAt (net.ip_string ip) now p)
      → mem o.node (keys (bucket (net.ip_string ip) p.addrs)) ≡ true
  named_node ip now p v o =
      mem-keys o.node (bucket (net.ip_string ip) p.addrs)
      ∙ v.agree (net.ip_string ip) o.node
      ∙ ground (arith, o.stored, o.placed, named ip)

  -- A peer is relayed for exactly if some node is recorded at its address that the SMF named at
  -- most a lifetime ago, given that no address prints as the empty text.
  pub is_known_upf_addr_iff :
      {H : Type 0} (octets : Text) (now : ℕ) (p : Peers H)
      → IsPlaced p
      → (is_known_upf_addr (some octets) now p ≡ true)
        ↔ IsNamedAt (net.ip_string (some octets)) now p
  unfolding is_known_upf_addr
  is_known_upf_addr_iff octets now p v = (
    λ h.
        let (node, visited, recent) = any_recent_sound now p.nodes _ h in
        known_node _ now p node v visited recent,
    λ o.
        any_recent_complete now p.nodes _ o.node (named_node (some octets) now p v o)
          (ground (arith, o.stored, o.recent)),
  )

  module _ {H : Type 0} (hook : Option (Text → H → H)) (now clock : ℕ) where
    -- The two tables of user planes agree after every message of the SMF: an address holds exactly
    -- the nodes that are recorded at it.
    pub record_upf_addr-IsPlaced :
        (node : Text) (ip : Ip) (p : Peers H)
        → IsPlaced p
        → IsPlaced (record_upf_addr hook now clock node ip p)
    unfolding record_upf_addr
    record_upf_addr-IsPlaced node ip p v =
        let r = node_record node p.nodes in
        let after = note_node-IsPlaced hook now clock node p v in
        elim (Bool-cases (is_no_address ip || ltb now r.seen)) [
          | inl stays ↦ rw stays after
          | inr placed ↦ rw placed (
              place_node-IsPlaced hook now clock node (net.ip_string ip) (record r { seen = now })
                (note_node hook now clock node p)
                (ground (arith, lookup-note_node hook now clock node node p)) (named ip) after)
        ]

    pub record_upf_addr-IsGuarded :
        (node : Text) (ip : Ip) (p : Peers H)
        → IsGuarded p
        → IsGuarded (record_upf_addr hook now clock node ip p)
    unfolding record_upf_addr note_node place_node leave_address
    record_upf_addr-IsGuarded node ip p g =
        let r = node_record node p.nodes in
        let start : IsGuarded (noted hook now clock node p) = elim (Bool-cases (ltb now r.seen)) [
          | inl late ↦ rw late g
          | inr current ↦ rw current (record { indexed = g.indexed; authorised = g.authorised })
        ] in
        let after = expire_upf_addrs_locked-IsGuarded hook now clock _ start in
        elim (Bool-cases (is_no_address ip || ltb now r.seen)) [
          | inl stays ↦ rw stays after
          | inr placed ↦ rw placed (placed_guard node r.addr (net.ip_string ip) _ after)
        ]
      where
        left_guard :
            (node from key : Text) (q : Peers H)
            → IsGuarded q
            → IsGuarded (leave_address hook clock node from key q)
        left_guard node from key q g = elim (Bool-cases (is_blank from || text_eq from key)) [
          | inl same ↦ rw same g
          | inr other ↦ rw other (forget_upf_addr_locked-IsGuarded hook from node clock q g)
        ]

        placed_guard :
            (node from key : Text) (q : Peers H)
            → IsGuarded q
            → IsGuarded (place_node hook now clock node from key q)
        placed_guard node from key q g =
            let left = leave_address hook clock node from key q in
            let h = left_guard node from key q g in
            record {
              indexed = h.indexed;
              authorised = λ a s held. ground (
                arith,
                h.authorised a s held,
                lookup-insert key a (insert node tt (bucket key left.addrs)) left.addrs,
              );
            }

    module _ (node octets : Text) (p : Peers H) (v : IsPlaced p)
        (current : (node_record node p.nodes).seen ≤ now)
        (good : is_no_address (some octets) ≡ false) where
      -- A node named at an address, by a message not older than the last that named it, is relayed
      -- for there until a lifetime after that message.
      pub record_upf_addr-is_known :
          (at : ℕ)
          → at - now ≤ upf_addr_lifetime
          → is_known_upf_addr (some octets) at (record_upf_addr hook now clock node (some octets) p)
            ≡ true
      record_upf_addr-is_known at soon =
          (is_known_upf_addr_iff octets at _ (record_upf_addr-IsPlaced node (some octets) p v)).1
            (record {
              node = node;
              entry = record { seen = now; addr = net.ip_string (some octets) };
              stored =
                  ground (arith, lookup-record_upf_addr hook now clock node node (some octets) p);
              placed = refl;
              recent = soon;
            })

      -- An address that the node has left, and at which no other node is recorded, is not relayed
      -- for any more, at any time.
      pub record_upf_addr_moved :
          (left : Text) (at : ℕ)
          → net.ip_string (some left) ≢ net.ip_string (some octets)
          → ((n : Text) (r : UpfNodeRecord)
              → n ≢ node
              → lookup n p.nodes ≡ some r
              → r.addr ≢ net.ip_string (some left))
          → is_known_upf_addr (some left) at (record_upf_addr hook now clock node (some octets) p)
            ≡ false
      record_upf_addr_moved left at elsewhere alone =
          let after = record_upf_addr hook now clock node (some octets) p in
          elim (Bool-cases (is_known_upf_addr (some left) at after)) [
            | inr e ↦ e
            | inl e ↦
                let o =
                  (is_known_upf_addr_iff left at _
                      (record_upf_addr-IsPlaced node (some octets) p v)).0
                    e in
                let looks = lookup-record_upf_addr hook now clock o.node node (some octets) p in
                elim (Text-discrete node o.node) [
                  | yes same ↦ absurd (elsewhere (ground (arith, looks, o.stored, o.placed)))
                  | no other ↦
                      let before : recent_only now (lookup o.node p.nodes) ≡ some o.entry =
                        sym (if_neg (Text-discrete node o.node) other _ _) ∙ sym looks ∙ o.stored in
                      absurd (
                        alone o.node o.entry (λ back. other (sym back))
                          (recent_only-eq-some now _ _ before) o.placed)
                ]
          ]

    -- A message sent before the last that named the node moves it nowhere: its record, and the
    -- addresses that hold it, are as before.
    record_upf_addr_superseded :
        (node : Text) (ip : Ip) (p : Peers H)
        → IsPlaced p
        → now < (node_record node p.nodes).seen
        → (lookup node (record_upf_addr hook now clock node ip p).nodes ≡ lookup node p.nodes)
          × ((a : Text)
              → in_bucket a node (record_upf_addr hook now clock node ip p).addrs
                ≡ in_bucket a node p.addrs)
    record_upf_addr_superseded node ip p v late =
        let looks = lookup-record_upf_addr hook now clock node node ip p in
        let same : lookup node (record_upf_addr hook now clock node ip p).nodes
            ≡ lookup node p.nodes =
          ground (arith, looks) in
        (
          same,
          λ a.
              (record_upf_addr-IsPlaced node ip p v).agree a node
              ∙ ap (at_addr a) same
              ∙ sym (v.agree a node),
        )
