-- ===== src/Peers/Expire.antt =====
-- expireUpfAddrsLocked of config/config.go: which nodes survive the sweep, and what it keeps.
use upfadapter.Prelude.{
  ℕ, ◌≡◌, refl, Option, none, some, List, [], ◌∷◌, ite, if◌then◌else◌, inl, inr, Bool-cases,
  Option-cases, Text-discrete, text_key, nat_key, keys, lookup, delete, lookup-delete, mem,
  mem-keys, arith,
}
use upfadapter.Net.{Net, Text}
use upfadapter.Peers.{
  UpfNodeRecord, Peers, is_blank, is_recent, forget_upf_addr_locked, expire_node, expire_nodes,
  expire_upf_addrs_locked,
}
use upfadapter.Peers.Forget.{
  IsPlaced, IsGuarded, in_bucket-forget_upf_addr_locked, nodes-forget_upf_addr_locked,
  forget_upf_addr_locked-IsGuarded,
}

-- What is left of a record once those not named for a lifetime are gone.
abbrev pub recent_only : ℕ → Option UpfNodeRecord → Option UpfNodeRecord
recent_only now none = none
recent_only now (some r) = if is_recent now r then some r else none

recent_only_twice :
    (now : ℕ) (o : Option UpfNodeRecord) → recent_only now (recent_only now o) ≡ recent_only now o
recent_only_twice now none = refl
recent_only_twice now (some r) = ground arith

module _ ⦃net : Net⦄ {H : Type 0} (hook : Option (Text → H → H)) (now clock : ℕ) where
  lookup-expire_node :
      (n node : Text) (p : Peers H)
      → lookup n (expire_node hook now clock node p).nodes
        ≡ ite (Text-discrete node n) (recent_only now (lookup n p.nodes)) (lookup n p.nodes)
  unfolding expire_node
  lookup-expire_node n node p = elim (Option-cases (lookup node p.nodes)) [
    | inl e ↦ ground arith
    | inr (r, e) ↦
        let dropped : Peers H = record p { nodes = delete node p.nodes } in
        ground (
          arith,
          lookup-delete node n p.nodes,
          nodes-forget_upf_addr_locked hook r.addr node clock dropped,
        )
  ]

  lookup-expire_nodes :
      (n : Text) (ks : List Text) (p : Peers H)
      → lookup n (expire_nodes hook now clock ks p).nodes
        ≡ (if mem n ks then recent_only now (lookup n p.nodes) else lookup n p.nodes)
  unfolding expire_nodes mem
  lookup-expire_nodes n [] p = refl
  lookup-expire_nodes n (k ∷ ks) p = ground (
    arith,
    lookup-expire_nodes n ks (expire_node hook now clock k p),
    lookup-expire_node n k p,
    recent_only_twice now (lookup n p.nodes),
  )

  -- The sweep forgets exactly the nodes that were not named for a lifetime.
  pub lookup-expire_upf_addrs_locked :
      (n : Text) (p : Peers H)
      → lookup n (expire_upf_addrs_locked hook now clock p).nodes
        ≡ recent_only now (lookup n p.nodes)
  unfolding expire_upf_addrs_locked
  lookup-expire_upf_addrs_locked n p =
      ground (arith, lookup-expire_nodes n (keys p.nodes) p, mem-keys n p.nodes)

  drop_node-IsPlaced :
      (node : Text) (r : UpfNodeRecord) (p : Peers H)
      → lookup node p.nodes ≡ some r
      → IsPlaced p
      → IsPlaced (
          let dropped : Peers H = record p { nodes = delete node p.nodes } in
          if is_blank r.addr
          then dropped
          else forget_upf_addr_locked hook node r.addr clock dropped)
  drop_node-IsPlaced node r p e v = record {
    agree = λ a n.
        let dropped : Peers H = record p { nodes = delete node p.nodes } in
        ground (
          arith,
          v.agree a n,
          lookup-delete node n p.nodes,
          nodes-forget_upf_addr_locked hook r.addr node clock dropped,
          in_bucket-forget_upf_addr_locked hook a r.addr n node clock dropped,
        );
  }

  drop_node-IsGuarded :
      (node : Text) (r : UpfNodeRecord) (p : Peers H)
      → IsGuarded p
      → IsGuarded (
          let dropped : Peers H = record p { nodes = delete node p.nodes } in
          if is_blank r.addr
          then dropped
          else forget_upf_addr_locked hook node r.addr clock dropped)
  drop_node-IsGuarded node r p g =
      let dropped : Peers H = record p { nodes = delete node p.nodes } in
      let kept : IsGuarded dropped = record { indexed = g.indexed; authorised = g.authorised } in
      elim (Bool-cases (is_blank r.addr)) [
        | inl blank ↦ rw blank kept
        | inr placed ↦
            rw placed (forget_upf_addr_locked-IsGuarded hook r.addr node clock dropped kept)
      ]

  -- A property that dropping one stale node keeps is kept by the whole sweep.
  pub expire_upf_addrs_locked_keeps {κ} :
      (P : Peers H → Type κ)
      → ((node : Text) (r : UpfNodeRecord) (p : Peers H)
          → lookup node p.nodes ≡ some r
          → P p
          → P (
              let dropped : Peers H = record p { nodes = delete node p.nodes } in
              if is_blank r.addr
              then dropped
              else forget_upf_addr_locked hook node r.addr clock dropped))
      → (p : Peers H) → P p
      → P (expire_upf_addrs_locked hook now clock p)
  unfolding expire_upf_addrs_locked expire_nodes expire_node
  expire_upf_addrs_locked_keeps P drop p v = walk (keys p.nodes) p v
    where
      one : (node : Text) (q : Peers H) → P q → P (expire_node hook now clock node q)
      one node q w = elim (Option-cases (lookup node q.nodes)) [
        | inl e ↦ rw (e, expire_node) w
        | inr (r, e) ↦ elim (Bool-cases (is_recent now r)) [
          | inl recent ↦ rw (e, expire_node) (rw recent w)
          | inr stale ↦ rw (e, expire_node) (rw stale (drop node r q e w))
        ]
      ]

      walk : (ks : List Text) (q : Peers H) → P q → P (expire_nodes hook now clock ks q)
      walk [] q w = w
      walk (k ∷ ks) q w = walk ks _ (one k q w)

  pub expire_upf_addrs_locked-IsPlaced :
      (p : Peers H) → IsPlaced p → IsPlaced (expire_upf_addrs_locked hook now clock p)
  expire_upf_addrs_locked-IsPlaced = expire_upf_addrs_locked_keeps IsPlaced drop_node-IsPlaced

  pub expire_upf_addrs_locked-IsGuarded :
      (p : Peers H) → IsGuarded p → IsGuarded (expire_upf_addrs_locked hook now clock p)
  expire_upf_addrs_locked-IsGuarded =
      expire_upf_addrs_locked_keeps IsGuarded (λ node r p e. drop_node-IsGuarded node r p)
