-- ===== src/Node/Tests.antt =====
-- Runs of the cache of names, and the theorems about it at concrete inputs.
use upfadapter.Prelude.{
  false, ℕ_discrete, ◌≡◌, refl, Option, none, some, [], ◌∷◌, text_key, Text-discrete, lookup,
  insert, delete,
}
use upfadapter.Net.{Text}
use upfadapter.Sample.{test_net}
use upfadapter.Node.{
  NodeId, fqdn, new_node_id, resolve_name, resolve_node_id_to_ip, refresh_name, refresh_names,
  refresh_dns_host_ip_cache,
}
use upfadapter.Node.Cache.{refreshed, lookup-refresh_dns_host_ip_cache}

program : Unit {0}
unfolding new_node_id resolve_name resolve_node_id_to_ip refresh_name refresh_names
    refresh_dns_host_ip_cache lookup insert delete Text-discrete ℕ_discrete
program = tt

abbrev upf : Text
upf = b'u' ∷ []

abbrev node : NodeId
node = record { node_id_type = fqdn; node_id_value = upf; value_is_nil = false }

abbrev finds : Text → Option Text
finds name = some (10 ∷ 9 ∷ [])

abbrev fails : Text → Option Text
fails name = none

resolved :
    resolve_node_id_to_ip finds node [] ≡ ((upf, some (10 ∷ 9 ∷ [])) ∷ [], some (10 ∷ 9 ∷ []))
unfolding program
resolved = refl

dropped : refresh_dns_host_ip_cache fails ((upf, some (10 ∷ 9 ∷ [])) ∷ []) ≡ []
unfolding program
dropped = refl

lookup-refresh_dns_host_ip_cache_example :
    lookup upf (refresh_dns_host_ip_cache fails ((upf, some (10 ∷ 9 ∷ [])) ∷ []))
    ≡ refreshed fails upf (lookup upf ((upf, some (10 ∷ 9 ∷ [])) ∷ []))
lookup-refresh_dns_host_ip_cache_example =
    lookup-refresh_dns_host_ip_cache fails upf ((upf, some (10 ∷ 9 ∷ [])) ∷ [])
