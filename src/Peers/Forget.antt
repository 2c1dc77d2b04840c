-- ===== src/Peers/Forget.antt =====
-- forgetUpfAddrLocked of config/config.go, and what the two tables of user planes must agree on.
use upfadapter.Prelude.{
  ℕ, ◌≡◌, Bool, true, false, not, ◌&&◌, Option, none, some, ite, inl, inr, Bool-cases, Option-cases,
  Text-discrete, text_key, nat_key, bucket, in_bucket, is_empty, lookup, delete, contains,
  lookup-nil, lookup-delete, lookup-insert, lookup_of_is_empty, arith,
}
use upfadapter.Net.{Net, Text}
use upfadapter.Relay.{forget_relays_for_host}
use upfadapter.Relay.Index.{IsIndexed, at_host}
use upfadapter.Relay.Release.{lookup-forget_relays_for_host, forget_relays_for_host-IsIndexed}
use upfadapter.Peers.{UpfNodeRecord, Peers, is_blank, text_eq, forget_upf_addr_locked}

-- The node's record says that it is at `a`. An empty address is none.
abbrev pub at_addr : Text → Option UpfNodeRecord → Bool
at_addr a none = false
at_addr a (some r) = not (is_blank a) && text_eq r.addr a

-- An address holds exactly the nodes whose records say so.
pub record IsPlaced {H : Type 0} (p : Peers H) : Type 0 where
  pub agree : (a node : Text) → in_bucket a node p.addrs ≡ at_addr a (lookup node p.nodes)

module _ ⦃net : Net⦄ where
  -- Every relay is one for an address that some node is recorded at.
  pub record IsGuarded {H : Type 0} (p : Peers H) : Type 0 where
    pub indexed : IsIndexed p.relay_table
    pub authorised :
        (a : Text) (s : ℕ)
        → at_host a (lookup s p.relay_table.relays) ≡ true
        → contains a p.addrs ≡ true

  released_guard :
      {H : Type 0} (addr : Text) (clock : ℕ) (p : Peers H) (a : Text) (s : ℕ)
      → IsGuarded p
      → at_host a (lookup s (forget_relays_for_host addr clock p.relay_table).relays) ≡ true
      → contains a (delete addr p.addrs) ≡ true
  released_guard addr clock p a s g h =
      let looks = lookup-forget_relays_for_host addr clock s p.relay_table g.indexed in
      let kept = lookup-delete addr a p.addrs in
      let before = g.authorised a s in ground (arith, looks, kept, before)

  module _ {H : Type 0} (hook : Option (Text → H → H)) where
    pub in_bucket-forget_upf_addr_locked :
        (a addr n node : Text) (clock : ℕ) (p : Peers H)
        → in_bucket a n (forget_upf_addr_locked hook node addr clock p).addrs
          ≡ ite
              (Text-discrete addr a)
              (ite (Text-discrete node n) false (in_bucket a n p.addrs))
              (in_bucket a n p.addrs)
    unfolding forget_upf_addr_locked
    in_bucket-forget_upf_addr_locked a addr n node clock p =
        let left = delete node (bucket addr p.addrs) in
        ground (
          arith,
          lookup-delete addr a p.addrs,
          lookup-insert addr a left p.addrs,
          lookup-delete node n (bucket addr p.addrs),
          lookup_of_is_empty n left,
          lookup-nil {V = Unit {0}} n,
        )

    pub nodes-forget_upf_addr_locked :
        (addr node : Text) (clock : ℕ) (p : Peers H)
        → (forget_upf_addr_locked hook node addr clock p).nodes ≡ p.nodes
    unfolding forget_upf_addr_locked
    nodes-forget_upf_addr_locked addr node clock p = ground arith

    pub forget_upf_addr_locked-IsGuarded :
        (addr node : Text) (clock : ℕ) (p : Peers H)
        → IsGuarded p
        → IsGuarded (forget_upf_addr_locked hook node addr clock p)
    unfolding forget_upf_addr_locked
    forget_upf_addr_locked-IsGuarded addr node clock p g =
        elim (Option-cases (lookup addr p.addrs)) [
          | inl e ↦ rw (e, forget_upf_addr_locked) g
          | inr (nodes, e) ↦ elim (Bool-cases (is_empty (delete node nodes))) [
            | inl last ↦
                rw (e, forget_upf_addr_locked)
                  (rw last (record {
                    indexed = forget_relays_for_host-IsIndexed addr clock p.relay_table g.indexed;
                    authorised = λ a s. released_guard addr clock p a s g;
                  }))
            | inr more ↦
                rw (e, forget_upf_addr_locked)
                  (rw more (record {
                    indexed = g.indexed;
                    authorised = λ a s h. ground (
                      arith,
                      g.authorised a s h,
                      lookup-insert addr a (delete node nodes) p.addrs,
                    );
                  }))
          ]
        ]
