-- ===== src/Node/Cache.antt =====
-- What the cache of types/nodeid.go holds after a refresh and after a resolution.
use upfadapter.Prelude.{
  ◌≡◌, refl, Option, none, some, List, [], ◌∷◌, if◌then◌else◌, ite, text_key, Text-discrete, keys,
  lookup, mem, mem-keys, lookup-insert, lookup-delete, arith, inl, inr, Option-cases,
}
use upfadapter.Net.{Net, Text, Ip}
use upfadapter.Node.{Names, refresh_name, refresh_names, refresh_dns_host_ip_cache}

module _ ⦃net : Net⦄ (resolver : Text → Option Text) where
  -- An entry of the cache after its name was asked for again.
  pub refreshed : Text → Option Ip → Option Ip
  refreshed name none = none
  refreshed name (some ip) = elim (resolver name) [
    | none ↦ none
    | some address ↦
        if net.ip_equal ip (net.parse_ip address) then some ip else some (net.parse_ip address)
  ]

  refreshed_again :
      (name : Text) (o : Option Ip) → refreshed name (refreshed name o) ≡ refreshed name o
  unfolding refreshed
  refreshed_again name none = refl
  refreshed_again name (some ip) = ground arith

  lookup-refresh_name :
      (name k : Text) (cache : Names)
      → lookup k (refresh_name resolver name cache)
        ≡ ite (Text-discrete name k) (refreshed k (lookup k cache)) (lookup k cache)
  unfolding refresh_name refreshed
  lookup-refresh_name name k cache = elim (Option-cases (lookup name cache)) [
    | inl f ↦ ground (arith, f)
    | inr (ip, f) ↦ elim (Option-cases (resolver name)) [
      | inl g ↦ ground (arith, f, g, lookup-delete name k cache)
      | inr (address, g) ↦ ground (arith, f, g, lookup-insert name k (net.parse_ip address) cache)
    ]
  ]

  lookup-refresh_names :
      (names : List Text) (k : Text) (cache : Names)
      → lookup k (refresh_names resolver names cache)
        ≡ (if mem k names then refreshed k (lookup k cache) else lookup k cache)
  unfolding refresh_names mem
  lookup-refresh_names [] k cache = refl
  lookup-refresh_names (name ∷ names) k cache = ground (
    arith,
    lookup-refresh_names names k (refresh_name resolver name cache),
    lookup-refresh_name name k cache,
    refreshed_again k (lookup k cache),
  )

  -- A refresh asks for every name of the cache and for no other: a name that no longer resolves is
  -- dropped, one that resolves to another address gets it, and any other entry stays.
  pub lookup-refresh_dns_host_ip_cache :
      (k : Text) (cache : Names)
      → lookup k (refresh_dns_host_ip_cache resolver cache) ≡ refreshed k (lookup k cache)
  unfolding refresh_dns_host_ip_cache refreshed
  lookup-refresh_dns_host_ip_cache k cache =
      ground (arith, lookup-refresh_names (keys cache) k cache, mem-keys k cache)
