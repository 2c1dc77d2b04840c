-- ===== src/Peers/Relays.antt =====
-- What RecordUpfAddr of config/config.go leaves of the relay tables, which a release of an address
-- reaches.
use upfadapter.Prelude.{
  ℕ, ◌≡◌, sym, subst, Option, is_empty, delete, lookup, text_key, inl, inr, Bool-cases,
  Option-cases, arith,
}
use upfadapter.Net.{Net, Text, Ip}
use upfadapter.Relay.{forget_relays_for_host}
use upfadapter.Relay.WellFormed.{IsWellFormed, forget_relays_for_host-IsWellFormed}
use upfadapter.Peers.{Peers, forget_upf_addr_locked, record_upf_addr}
use upfadapter.Peers.Keeps.{record_upf_addr_keeps}

module _ ⦃net : Net⦄ {H : Type 0} (hook : Option (Text → H → H)) where
  forget_upf_addr_locked-IsWellFormed :
      (node addr : Text) (clock : ℕ) (p : Peers H)
      → IsWellFormed p.relay_table
      → IsWellFormed (forget_upf_addr_locked hook node addr clock p).relay_table
  unfolding forget_upf_addr_locked
  forget_upf_addr_locked-IsWellFormed node addr clock p v =
      let after = (forget_upf_addr_locked hook node addr clock p).relay_table in
      elim (Option-cases (lookup addr p.addrs)) [
        | inl e ↦
            let same : after ≡ p.relay_table = ground (arith, e) in subst IsWellFormed (sym same) v
        | inr (nodes, e) ↦ elim (Bool-cases (is_empty (delete node nodes))) [
          | inl last ↦
              let same : after ≡ forget_relays_for_host addr clock p.relay_table =
                ground (arith, e, last) in
              subst IsWellFormed (sym same)
                (forget_relays_for_host-IsWellFormed addr clock p.relay_table v)
          | inr more ↦
              let same : after ≡ p.relay_table = ground (arith, e, more) in
              subst IsWellFormed (sym same) v
        ]
      ]

  pub record_upf_addr-IsWellFormed :
      (now clock : ℕ) (node : Text) (ip : Ip) (p : Peers H)
      → IsWellFormed p.relay_table
      → IsWellFormed (record_upf_addr hook now clock node ip p).relay_table
  record_upf_addr-IsWellFormed now clock =
      record_upf_addr_keeps hook now clock (λ p. IsWellFormed p.relay_table)
        (λ node addr p. forget_upf_addr_locked-IsWellFormed node addr clock p) (λ m p v. v)
        (λ m p v. v)
