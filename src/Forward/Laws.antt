-- ===== src/Forward/Laws.antt =====
-- What the exchange of a request and its answer relies on in the package go-pfcp: neither a change of an
-- information element nor the wire changes a message's type or number.
use upfadapter.Prelude.{ℕ, ◌≡◌, refl, subst, ◌∙◌, some, inl, inr, Option-cases, arith}
use mathlib.Core.Option.{some-injective}
use upfadapter.Net.{Net, Text, Ip}
use upfadapter.Pfcp.{
  Pfcp, MsgType, association_setup_request, heartbeat_request, session_establishment_request,
}
use upfadapter.Elements.{Elements}
use upfadapter.Forward.{Env, rewritten}

abbrev pub SameHeader : {M : Type 0} ⦃pfcp : Pfcp M⦄ → M → M → Type 0
SameHeader ⦃pfcp = pfcp⦄ m m' =
    (pfcp.sequence m ≡ pfcp.sequence m') × (pfcp.message_type m ≡ pfcp.message_type m')

pub record KeepsHeader (M : Type 0) ⦃pfcp : Pfcp M⦄ ⦃elements : Elements M⦄ : Type 0 where
  pub time_stamp : (t : ℕ) (msg : M) → SameHeader (elements.set_recovery_time_stamp t msg) msg
  pub node : (name : Text) (msg : M) → SameHeader (elements.set_node_id name msg) msg
  pub fseid : (seid : ℕ) (ip : Ip) (msg : M) → SameHeader (elements.set_cp_fseid seid ip msg) msg
  pub wire :
      (bytes : Text) (msg : M)
      → pfcp.marshal msg ≡ some bytes
      → (read : M) × (pfcp.parse bytes ≡ some read) × SameHeader read msg

module _ {M : Type 0} ⦃net : Net⦄ ⦃pfcp : Pfcp M⦄ ⦃elements : Elements M⦄ where
  SameHeader-trans : (a b c : M) → SameHeader a b → SameHeader b c → SameHeader a c
  SameHeader-trans a b c (s, t) (s', t') = (s ∙ s', t ∙ t')

  -- What goes out has the header of the request.
  pub rewritten-SameHeader :
      KeepsHeader M
      → (type : MsgType) (env : Env) (msg out : M) → rewritten env type msg ≡ some out
      → SameHeader out msg
  unfolding rewritten
  rewritten-SameHeader laws association_setup_request env msg out e =
      let stamped = elements.set_recovery_time_stamp env.start_time msg in
      let named = elements.set_node_id (net.ip_string env.adapter_ip) stamped in
      subst (λ m. SameHeader m msg) (some-injective named out e)
        (SameHeader-trans named stamped msg (laws.node _ stamped)
          (laws.time_stamp env.start_time msg))
  rewritten-SameHeader laws heartbeat_request env msg out e =
      subst (λ m. SameHeader m msg) (some-injective _ out e) (laws.time_stamp env.start_time msg)
  rewritten-SameHeader laws session_establishment_request env msg out e =
      let named = elements.set_node_id (net.ip_string env.adapter_ip) msg in
      elim (Option-cases (elements.cp_fseid named)) [
        | inl f ↦ absurd (ground (arith, e, f))
        | inr (seid, f) ↦
            let replaced = elements.set_cp_fseid seid env.adapter_ip named in
            let same : replaced ≡ out = ground (arith, e, f) in
            subst (λ m. SameHeader m msg) same
              (SameHeader-trans replaced named msg (laws.fseid seid env.adapter_ip named)
                (laws.node _ msg))
      ]
  rewritten-SameHeader laws _ env msg out e =
      subst (λ m. SameHeader m msg) (some-injective msg out e) (refl, refl)
