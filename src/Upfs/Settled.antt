-- ===== src/Upfs/Settled.antt =====
-- The stored responses of associated user planes: UpfCfg of config/config.go, written by InsertUpfNode
-- and, together, by ActivateUpfNode and PreservePfcpAssociationRsp.
use upfadapter.Prelude.{
  ℕ, ◌≡◌, ◌≢◌, refl, sym, ap, subst, true, Bool, Option, none, some, List, [], ite, Text-discrete,
  text_key, lookup, insert, contains, mem, lookup-nil, lookup-insert, inl, inr, Option-cases,
  Bool-cases, arith,
}
use upfadapter.Net.{Net, Text, Ip}
use upfadapter.Pfcp.{Pfcp}
use upfadapter.Node.{NodeId, Names, resolve_node_id_to_ip}
use upfadapter.Upfs.{
  not_associated, associated_setup_success, is_success, unlocked, left_read_locked, is_unlocked,
  is_awaited, locked, is_free, UpNode, Upfs, built, update, is_upf_associated,
  preserve_pfcp_association_rsp, get_upf_from_node_id, insert_upf_node, activate_upf_node,
  accept_association, build_pfcp_association_response,
}
use upfadapter.Upfs.Lookup.{lookup-update, IsAlone, get_upf_from_node_id_alone}

module _ {M : Type 0} where
  -- Each node is at the key that its identity gives, and an associated one has a stored response,
  -- unless its lock was left locked.
  pub record IsSettled (upfs : Upfs M) : Type 0 where
    pub keyed :
        (k : Text) (upf : UpNode M) → lookup k upfs ≡ some upf → upf.node_id.node_id_value ≡ k
    pub stored :
        (k : Text) (upf : UpNode M)
        → lookup k upfs ≡ some upf
        → is_success upf.state ≡ true
        → is_unlocked upf.upf_lock ≡ true
        → upf.last_asso_rsp ≢ none

  -- A change of one node that keeps its identity, and leaves a response where it leaves success.
  IsSettled-changed :
      (change : UpNode M → UpNode M) (key : Text) (upfs upfs' : Upfs M)
      → ((k : Text)
          → lookup k upfs' ≡ elim (lookup k upfs) [
            | none ↦ none
            | some upf ↦ some (ite (Text-discrete key k) (change upf) upf)
          ])
      → ((upf : UpNode M) → (change upf).node_id ≡ upf.node_id)
      → ((upf : UpNode M)
          → is_success (change upf).state ≡ true
          → is_unlocked (change upf).upf_lock ≡ true
          → (change upf).last_asso_rsp ≢ none)
      → IsSettled upfs
      → IsSettled upfs'
  IsSettled-changed change key upfs upfs' looks same full v = record {
    keyed = λ k upf e. elim (Option-cases (lookup k upfs)) [
      | inl f ↦ absurd (ground (arith, e, f, looks k))
      | inr (u, f) ↦ ground (arith, e, f, looks k, same u, v.keyed k u f)
    ];
    stored = λ k upf e ok free. elim (Option-cases (lookup k upfs)) [
      | inl f ↦ absurd (ground (arith, e, f, looks k))
      | inr (u, f) ↦ λ empty. ground (arith, e, f, ok, free, empty, looks k, full u, v.stored k u f)
    ];
  }

  pub empty-IsSettled : IsSettled []
  empty-IsSettled = record {
    keyed = λ k upf e. absurd (ground (arith, e, lookup-nil {V = UpNode M} k));
    stored = λ k upf e ok free. absurd (ground (arith, e, lookup-nil {V = UpNode M} k));
  }

  -- A node that was just inserted.
  abbrev new_node : NodeId → Ip → UpNode M
  new_node node ip = record {
    upf_name = node.node_id_value;
    last_asso_rsp = none;
    last_hb_rsp = none;
    an_ip = ip;
    node_id = node;
    state = not_associated;
    upf_lock = unlocked;
  }

  -- The changes of an accepted association, made together.
  abbrev settle : M → UpNode M → UpNode M
  settle rsp upf =
      locked (λ upf. record upf { last_asso_rsp = some rsp })
        (record upf { state = associated_setup_success })

  settle-same : (rsp : M) (upf : UpNode M) → (settle rsp upf).node_id ≡ upf.node_id
  settle-same rsp upf = ground arith

  settle_full :
      (rsp : M) (upf : UpNode M)
      → is_unlocked (settle rsp upf).upf_lock ≡ true
      → (settle rsp upf).last_asso_rsp ≢ none
  settle_full rsp upf free empty = ground (arith, free, empty)

module _ {M : Type 0} ⦃net : Net⦄ where
  pub insert_upf_node-IsSettled :
      (resolver : Text → Option Text) (node : NodeId) (names : Names) (upfs : Upfs M)
      → IsSettled upfs
      → IsSettled (insert_upf_node resolver node names upfs).1
  unfolding insert_upf_node
  insert_upf_node-IsSettled resolver node names upfs v =
      let result = (insert_upf_node resolver node names upfs).1 in
      elim (Bool-cases (contains node.node_id_value upfs)) [
        | inl held ↦ let same : result ≡ upfs = ground (arith, held) in subst IsSettled (sym same) v
        | inr new ↦
            let upf : UpNode M = new_node node (resolve_node_id_to_ip resolver node names).1 in
            let same : result ≡ insert node.node_id_value upf upfs = ground (arith, new) in
            subst IsSettled (sym same) (record {
              keyed = λ k u e.
                  ground (arith, e, v.keyed k u, lookup-insert node.node_id_value k upf upfs);
              stored = λ k u e ok free.
                  ground
                    (arith, e, ok, free, v.stored k u, lookup-insert node.node_id_value k upf upfs);
            })
      ]

  lookup-accept_association :
      (order : List Text) (node : NodeId) (rsp : M) (upfs upfs' : Upfs M) (stores : Bool)
      → accept_association order node rsp upfs ≡ some (upfs', stores)
      → (key : Text) × (get_upf_from_node_id order node upfs ≡ some key)
        × ((k : Text)
            → lookup k upfs' ≡ elim (lookup k upfs) [
              | none ↦ none
              | some upf ↦ some (ite (Text-discrete key k) (settle rsp upf) upf)
            ])
  unfolding accept_association activate_upf_node preserve_pfcp_association_rsp
  lookup-accept_association order node rsp upfs upfs' stores e =
      elim (Option-cases (get_upf_from_node_id order node upfs)) [
        | inl f ↦ absurd (ground (arith, e, f))
        | inr (key, f) ↦
            let active = update (λ upf. record upf { state = associated_setup_success }) key upfs in
            let same : update (locked (λ upf. record upf { last_asso_rsp = some rsp })) key active
                ≡ upfs' =
              ground (arith, e, f) in
            (
              key,
              f,
              λ k. ground (
                arith,
                ap (lookup k) same,
                lookup-update (locked (λ upf. record upf { last_asso_rsp = some rsp })) key k
                    active,
                lookup-update (λ upf. record upf { state = associated_setup_success }) key k upfs,
              ),
            )
      ]

  pub accept_association-IsSettled :
      (order : List Text) (node : NodeId) (rsp : M) (upfs upfs' : Upfs M) (stores : Bool)
      → accept_association order node rsp upfs ≡ some (upfs', stores)
      → IsSettled upfs
      → IsSettled upfs'
  accept_association-IsSettled order node rsp upfs upfs' stores e v =
      let (key, found, looks) = lookup-accept_association order node rsp upfs upfs' stores e in
      IsSettled-changed (settle rsp) key upfs upfs' looks (settle-same rsp)
        (λ upf ok. settle_full rsp upf) v

module _ {M : Type 0} ⦃net : Net⦄ where
  -- Where associated nodes that are not left locked have their responses, an association setup request for an associated node
  -- whose lock is free and that no other node passes for is answered from that node's own stored response, under the
  -- request's number, in whatever order the nodes are visited.
  pub build_pfcp_association_response_stored :
      ⦃pfcp : Pfcp M⦄ (order : List Text) (node : NodeId) (seq : ℕ) (upfs : Upfs M)
      → IsSettled upfs
      → IsAlone node upfs node.node_id_value
      → mem node.node_id_value order ≡ true
      → is_upf_associated node upfs ≡ true
      → is_free node.node_id_value upfs ≡ true
      → (upf : UpNode M) × (rsp : M) × (lookup node.node_id_value upfs ≡ some upf)
        × (upf.last_asso_rsp ≡ some rsp)
        × (build_pfcp_association_response order node seq upfs
            ≡ (upfs, built (pfcp.set_sequence seq rsp)))
  unfolding build_pfcp_association_response is_upf_associated
  build_pfcp_association_response_stored order node seq upfs v alone visited associated free =
      let key = node.node_id_value in
      elim (Option-cases (lookup key upfs)) [
        | inl e ↦ absurd (ground (arith, e, associated))
        | inr (upf, e) ↦
            let found = get_upf_from_node_id_alone node upfs order key upf alone e visited in
            elim (Option-cases upf.last_asso_rsp) [
              | inl f ↦
                  absurd
                    (v.stored key upf e (ground (arith, e, associated)) (ground (arith, e, free)) f)
              | inr (rsp, f) ↦ (upf, rsp, e, f, ground (arith, e, f, found, free))
            ]
      ]

  pub build_pfcp_association_response-IsSettled :
      ⦃pfcp : Pfcp M⦄ (order : List Text) (node : NodeId) (seq : ℕ) (upfs : Upfs M)
      → IsSettled upfs
      → IsSettled (build_pfcp_association_response order node seq upfs).0
  unfolding build_pfcp_association_response
  build_pfcp_association_response-IsSettled order node seq upfs v =
      let result = (build_pfcp_association_response order node seq upfs).0 in
      elim (Option-cases (get_upf_from_node_id order node upfs)) [
        | inl e ↦ let same : result ≡ upfs = ground (arith, e) in subst IsSettled (sym same) v
        | inr (key, e) ↦
            let change : UpNode M → UpNode M = λ upf. record upf { upf_lock = left_read_locked } in
            let left : IsSettled (update change key upfs) =
              IsSettled-changed change key upfs (update change key upfs)
                (λ k. lookup-update change key k upfs) (λ upf. refl)
                (λ upf ok free. absurd (ground (arith, free))) v in
            elim (Option-cases (lookup key upfs)) [
              | inl f ↦
                  let same : result ≡ upfs = ground (arith, e, f) in subst IsSettled (sym same) v
              | inr (upf, f) ↦ elim (Bool-cases (is_awaited upf.upf_lock)) [
                | inl waited ↦
                    let same : result ≡ upfs = ground (arith, e, f, waited) in
                    subst IsSettled (sym same) v
                | inr reads ↦ elim (Option-cases upf.last_asso_rsp) [
                  | inl g ↦
                      let same : result ≡ update change key upfs = ground (arith, e, f, reads, g) in
                      subst IsSettled (sym same) left
                  | inr (rsp, g) ↦
                      let same : result ≡ upfs = ground (arith, e, f, reads, g) in
                      subst IsSettled (sym same) v
                ]
              ]
            ]
      ]
