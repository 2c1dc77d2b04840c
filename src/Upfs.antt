-- ===== src/Upfs.antt =====
-- The user planes that the SMF sets up associations with: UpfCfg of config/config.go, and
-- BuildPfcpAssociationResponse of pfcp/handler/handler.go. No node is ever taken out of the map, so
-- its key stands for the pointer to it. Go does not say in which order a range visits a map: the
-- order is an argument.
pub mod Settled
pub mod Lookup
mod Tests
use upfadapter.Prelude.{
  ℕ, Bool, true, false, Option, none, some, List, [], ◌∷◌, if◌then◌else◌, ite, Text-discrete,
  text_key, Map, lookup, insert, contains,
}
use upfadapter.Net.{Net, Text, Ip}
use upfadapter.Pfcp.{Pfcp}
use upfadapter.Node.{
  NodeId, NodeIdType, ipv4_address, ipv6_address, fqdn, other_type, Names, bytes_of,
  resolve_node_id_to_ip,
}

-- UPFStatus
pub data UpfStatus : Type 0 where
  not_associated associated_setting_up associated_setup_success : UpfStatus

-- UpfLock, between calls: free, left locked for reading by a reader that panicked, or that with a writer
-- that waits for good, behind which new readers wait too.
pub data UpfLock : Type 0 where
  unlocked left_read_locked awaited : UpfLock

-- UPNode; none for a stored response that is still the zero value, whose header is nil.
pub record UpNode (M : Type 0) : Type 0 where
  pub upf_name : Text
  pub last_asso_rsp : Option M
  pub last_hb_rsp : Option M
  pub an_ip : Ip
  pub node_id : NodeId
  pub state : UpfStatus
  pub upf_lock : UpfLock

-- UpfCfg.UPFs
abbrev pub Upfs : Type 0 → Type 0
Upfs M = Map Text (UpNode M)

abbrev pub is_success : UpfStatus → Bool
is_success associated_setup_success = true
is_success _ = false

abbrev pub is_unlocked : UpfLock → Bool
is_unlocked unlocked = true
is_unlocked _ = false

abbrev pub is_awaited : UpfLock → Bool
is_awaited awaited = true
is_awaited _ = false

abbrev pub is_fqdn : NodeIdType → Bool
is_fqdn fqdn = true
is_fqdn _ = false

abbrev pub text_eq : Text → Text → Bool
text_eq a b = ite (Text-discrete a b) true false

-- What BuildPfcpAssociationResponse gives: an error, a dereference of a nil header, a wait for the
-- lock, or the response.
pub data Built (M : Type 0) : Type 0 where
  upf_not_found nil_header lock_awaited : Built M
  built : M → Built M

module _ {M : Type 0} where
  -- IsUpfAssociated
  unfoldable pub is_upf_associated : NodeId → Upfs M → Bool
  is_upf_associated node upfs = elim (lookup node.node_id_value upfs) [
    | none ↦ false
    | some upf ↦ is_success upf.state
  ]

  -- An update of the node behind a pointer.
  abbrev pub update : (UpNode M → UpNode M) → Text → Upfs M → Upfs M
  update change key upfs = elim (lookup key upfs) [
    | none ↦ upfs
    | some upf ↦ insert key (change upf) upfs
  ]

  -- A write under the lock of a node, which waits for good where a reader left it locked.
  abbrev pub locked : (UpNode M → UpNode M) → UpNode M → UpNode M
  locked write upf = elim upf.upf_lock [
    | unlocked ↦ write upf
    | left_read_locked ↦ record upf { upf_lock = awaited }
    | awaited ↦ upf
  ]

  -- Whether a call that writes under the lock of a node goes on.
  abbrev pub is_free : Text → Upfs M → Bool
  is_free key upfs = elim (lookup key upfs) [ none ↦ true | some upf ↦ is_unlocked upf.upf_lock ]

  -- PreservePfcpAssociationRsp, and whether it returns.
  unfoldable pub preserve_pfcp_association_rsp : Text → M → Upfs M → Upfs M × Bool
  preserve_pfcp_association_rsp key rsp upfs =
      (update (locked (λ upf. record upf { last_asso_rsp = some rsp })) key upfs, is_free key upfs)

  -- PreservePfcpHeartBeatRsp, and whether it returns.
  pub preserve_pfcp_heartbeat_rsp : Text → M → Upfs M → Upfs M × Bool
  preserve_pfcp_heartbeat_rsp key rsp upfs =
      (update (locked (λ upf. record upf { last_hb_rsp = some rsp })) key upfs, is_free key upfs)

module _ {M : Type 0} ⦃net : Net⦄ where
  -- The test of GetUpfFromNodeId; nil equals the empty bytes.
  unfoldable pub is_node : NodeId → UpNode M → Bool
  is_node node upf = elim node.node_id_type [
    | ipv4_address ↦ text_eq (bytes_of (net.to4 upf.an_ip)) node.node_id_value
    | fqdn ↦
        if is_fqdn upf.node_id.node_id_type
        then text_eq node.node_id_value upf.node_id.node_id_value
        else false
    | ipv6_address ↦ false
    | other_type _ ↦ false
  ]

  -- GetUpfFromNodeId: the key of the node that it returns.
  unfoldable pub get_upf_from_node_id : List Text → NodeId → Upfs M → Option Text
  get_upf_from_node_id [] node upfs = none
  get_upf_from_node_id (key ∷ order) node upfs =
      let rest = get_upf_from_node_id order node upfs in
      elim (lookup key upfs) [
        | none ↦ rest
        | some upf ↦ if is_node node upf then some key else rest
      ]

  -- InsertUpfNode
  unfoldable pub insert_upf_node : (Text → Option Text) → NodeId → Names → Upfs M → Names × Upfs M
  insert_upf_node resolver node names upfs =
      if contains node.node_id_value upfs
      then (names, upfs)
      else let (names', ip) = resolve_node_id_to_ip resolver node names in
        let upf : UpNode M = record {
          upf_name = node.node_id_value;
          last_asso_rsp = none;
          last_hb_rsp = none;
          an_ip = ip;
          node_id = node;
          state = not_associated;
          upf_lock = unlocked;
        } in
        (names', insert node.node_id_value upf upfs)

  -- ActivateUpfNode
  unfoldable pub activate_upf_node : List Text → NodeId → Upfs M → Upfs M × Option Text
  activate_upf_node order node upfs = elim (get_upf_from_node_id order node upfs) [
    | none ↦ (upfs, none)
    | some key ↦
        (update (λ upf. record upf { state = associated_setup_success }) key upfs, some key)
  ]

  -- BuildPfcpAssociationResponse. The dereference of a nil header leaves the lock of the node locked
  -- for reading: the panic passes over its release.
  pub build_pfcp_association_response :
      ⦃pfcp : Pfcp M⦄ → List Text → NodeId → ℕ → Upfs M → Upfs M × Built M
  build_pfcp_association_response ⦃pfcp⦄ order node seq upfs =
      elim (get_upf_from_node_id order node upfs) [
        | none ↦ (upfs, upf_not_found)
        | some key ↦ elim (lookup key upfs) [
          | none ↦ (upfs, upf_not_found)
          | some upf ↦
              if is_awaited upf.upf_lock then (upfs, lock_awaited) else elim upf.last_asso_rsp [
                | none ↦ (
                  update (λ upf. record upf { upf_lock = left_read_locked }) key upfs,
                  nil_header,
                )
                | some rsp ↦ (upfs, built (pfcp.set_sequence seq rsp))
              ]
        ]
      ]

  -- ActivateUpfNode and PreservePfcpAssociationRsp as HandlePfcpAssociationSetupResponse calls them,
  -- with nothing in between, and whether the second returns; none where the node is nil, which Go
  -- dereferences.
  unfoldable pub accept_association : List Text → NodeId → M → Upfs M → Option (Upfs M × Bool)
  accept_association order node rsp upfs =
      let (upfs', key) = activate_upf_node order node upfs in
      elim key [ none ↦ none | some k ↦ some (preserve_pfcp_association_rsp k rsp upfs') ]
