-- ===== src/Upfs/Lookup.antt =====
-- Which node GetUpfFromNodeId of config/config.go finds, and what the calls on the nodes write.
use upfadapter.Prelude.{
  ◌≡◌, ◌↔◌, true, none, some, List, [], ◌∷◌, ite, Text-discrete, text_key, lookup, mem,
  lookup-insert, inl, inr, Option-cases, Bool-cases, arith,
}
use upfadapter.Net.{Net, Text}
use upfadapter.Node.{NodeId}
use upfadapter.Upfs.{UpNode, Upfs, update, is_node, get_upf_from_node_id}

module _ {M : Type 0} where
  pub lookup-update :
      (change : UpNode M → UpNode M) (key k : Text) (upfs : Upfs M)
      → lookup k (update change key upfs) ≡ elim (lookup k upfs) [
        | none ↦ none
        | some upf ↦ some (ite (Text-discrete key k) (change upf) upf)
      ]
  lookup-update change key k upfs = elim (Option-cases (lookup key upfs)) [
    | inl e ↦ elim (Option-cases (lookup k upfs)) [
      | inl f ↦ ground (arith, e, f)
      | inr (u, f) ↦ ground (arith, e, f)
    ]
    | inr (upf, e) ↦ elim (Option-cases (lookup k upfs)) [
      | inl f ↦ ground (arith, e, f, lookup-insert key k (change upf) upfs)
      | inr (u, f) ↦ ground (arith, e, f, lookup-insert key k (change upf) upfs)
    ]
  ]

module _ {M : Type 0} ⦃net : Net⦄ (node : NodeId) (upfs : Upfs M) where
  -- The node is at this key, and no other node passes for it.
  abbrev pub IsAlone : Text → Type 0
  IsAlone key =
      (k : Text) (upf : UpNode M) → lookup k upfs ≡ some upf → (is_node node upf ≡ true) ↔ (k ≡ key)

  -- A node that is alone is found, in whatever order the nodes are visited.
  pub get_upf_from_node_id_alone :
      (order : List Text) (key : Text) (upf : UpNode M)
      → IsAlone key
      → lookup key upfs ≡ some upf
      → mem key order ≡ true
      → get_upf_from_node_id order node upfs ≡ some key
  unfolding get_upf_from_node_id mem
  get_upf_from_node_id_alone [] key upf alone held visited = cc
  get_upf_from_node_id_alone (k ∷ order) key upf alone held visited =
      let rest = get_upf_from_node_id_alone order key upf alone held in
      elim (Option-cases (lookup k upfs)) [
        | inl e ↦ ground (arith, e, held, rest)
        | inr (u, e) ↦ elim (Bool-cases (is_node node u)) [
          | inl is ↦ ground (arith, e, is, (alone k u e).0 is)
          | inr other ↦ ground (arith, e, other, (alone k u e).1, rest)
        ]
      ]
