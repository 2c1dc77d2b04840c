-- ===== src/Relay/Release.antt =====
-- ForgetRelaysForHost of config/config.go: what a release of an address takes away.
use upfadapter.Prelude.{
  bucket, ℕ, ◌+◌, ◌%◌, ◌^◌, ◌<◌, ◌≡◌, refl, ◌∙◌, none, List, [], ◌∷◌, ite, if◌then◌else◌, nat_key,
  text_key, Text-discrete, lookup, mem, mem-keys, lookup-insert, arith,
}
use upfadapter.Net.{Net, UdpAddr, Text}
use upfadapter.Relay.{
  RelayGeneration, RelayTable, generation, drop_relay_locked, drop_all, forget_relays_for_host,
  relay_generation, relay_report_sequence, peer_released,
}
use upfadapter.Relay.Index.{
  IsIndexed, at_host, lookup-drop_relay_locked, drop_relay_locked-IsIndexed,
}
use upfadapter.Relay.Claims.{relay_report_sequence_released}

module _ ⦃net : Net⦄ where
  lookup-drop_all :
      (s : ℕ) (ks : List ℕ) (t : RelayTable)
      → lookup s (drop_all ks t).relays ≡ (if mem s ks then none else lookup s t.relays)
  unfolding drop_all mem
  lookup-drop_all s [] t = refl
  lookup-drop_all s (k ∷ ks) t =
      ground (arith, lookup-drop_all s ks (drop_relay_locked k t), lookup-drop_relay_locked s k t)

  drop_all-IsIndexed : (ks : List ℕ) (t : RelayTable) → IsIndexed t → IsIndexed (drop_all ks t)
  unfolding drop_all
  drop_all-IsIndexed [] t v = v
  drop_all-IsIndexed (k ∷ ks) t v = drop_all-IsIndexed ks _ (drop_relay_locked-IsIndexed k t v)

  generations-drop_relay_locked :
      (k : ℕ) (t : RelayTable) → (drop_relay_locked k t).generations ≡ t.generations
  unfolding drop_relay_locked
  generations-drop_relay_locked k t = ground arith

  generations-drop_all :
      (ks : List ℕ) (t : RelayTable) → (drop_all ks t).generations ≡ t.generations
  unfolding drop_all
  generations-drop_all [] t = refl
  generations-drop_all (k ∷ ks) t =
      generations-drop_all ks (drop_relay_locked k t) ∙ generations-drop_relay_locked k t

  pub forget_relays_for_host-IsIndexed :
      (addr : Text) (now : ℕ) (t : RelayTable)
      → IsIndexed t
      → IsIndexed (forget_relays_for_host addr now t)
  unfolding forget_relays_for_host
  forget_relays_for_host-IsIndexed addr now t v =
      drop_all-IsIndexed _ _ (record { agree = v.agree; no_empty = v.no_empty })

  pub lookup-forget_relays_for_host :
      (addr : Text) (now s : ℕ) (t : RelayTable)
      → IsIndexed t
      → lookup s (forget_relays_for_host addr now t).relays
        ≡ (if at_host addr (lookup s t.relays) then none else lookup s t.relays)
  unfolding forget_relays_for_host
  lookup-forget_relays_for_host addr now s t v =
      rw (lookup-drop_all s _ _, mem-keys s (bucket addr t.by_host), v.agree addr s) refl

  pub generation-forget_relays_for_host :
      (addr other : Text) (now : ℕ) (t : RelayTable)
      → relay_generation other (forget_relays_for_host addr now t)
        ≡ ite
            (Text-discrete addr other)
            ((relay_generation addr t + 1) % 2 ^ 64)
            (relay_generation other t)
  unfolding forget_relays_for_host relay_generation
  generation-forget_relays_for_host addr other now t = rw (generations-drop_all _ _) (
      ground (
        arith,
        lookup-insert addr other
            (let g : RelayGeneration = record {
              released_at = now;
              count = ((generation addr t.generations).count + 1) % 2 ^ 64;
            } in
              g)
            t.generations,
      ))

  -- A release of an address forgets exactly the relays raised from it, and a report from it whose
  -- source check read the count of releases before is refused: it claims nothing.
  pub forget_relays_for_host_revokes :
      (t : RelayTable) (peer : UdpAddr) (released upf_seq now : ℕ)
      → IsIndexed t
      → relay_generation (net.ip_string peer.ip) t < 2 ^ 64
      → let after = forget_relays_for_host (net.ip_string peer.ip) released t in
        ((s : ℕ)
          → lookup s after.relays ≡ (
              if at_host (net.ip_string peer.ip) (lookup s t.relays)
              then none
              else lookup s t.relays))
        × (relay_report_sequence peer upf_seq now (relay_generation (net.ip_string peer.ip) t) after
            ≡ (after, peer_released))
  forget_relays_for_host_revokes t peer released upf_seq now v small =
      let host = net.ip_string peer.ip in
      (
        λ s. lookup-forget_relays_for_host host released s t v,
        relay_report_sequence_released peer upf_seq now (forget_relays_for_host host released t)
            (relay_generation host t)
            (λ e. ground (arith, generation-forget_relays_for_host host host released t)),
      )
