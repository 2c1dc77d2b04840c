-- ===== src/Prelude/Index.antt =====
-- A map of sets: Go's `map[string]map[K]struct{}`, read and written one element at a time.
use Prim.Native.Nat.{ℕ}
use mathlib.Core.Path.{◌≡◌}
use mathlib.Core.Logic.{ite}
use mathlib.Core.Bool.{Bool, true, false}
use mathlib.Core.Option.{none, some}
use mathlib.Core.List.{List, []}
use native.Mathlib.Omega.{arith}
use upfadapter.Prelude.Tests.{if◌then◌else◌}
use upfadapter.Prelude.Maps.{
  Key, text_key, Text-discrete, Map, Set, is_empty, lookup, insert, delete, contains, lookup-nil,
  lookup-delete, lookup-insert, lookup_of_is_empty,
}

-- `m[host]`, where a missing entry is the empty set.
abbrev pub bucket : {K : Type 0} → List ℕ → Map (List ℕ) (Set K) → Set K
bucket host m = elim (lookup host m) [ none ↦ [] | some b ↦ b ]

module _ {K : Type 0} ⦃key : Key K⦄ where
  -- The set at `host` has `k`.
  abbrev pub in_bucket : List ℕ → K → Map (List ℕ) (Set K) → Bool
  in_bucket host k m = contains k (bucket host m)

  -- `delete(m[host], k)`, and then the set itself if nothing is left in it.
  unfoldable pub drop_from_host : List ℕ → K → Map (List ℕ) (Set K) → Map (List ℕ) (Set K)
  drop_from_host host k m =
      let left = delete k (bucket host m) in
      if is_empty left then delete host m else insert host left m

  pub in_bucket-insert :
      (h host : List ℕ) (s k : K) (m : Map (List ℕ) (Set K))
      → in_bucket h s (insert host (insert k tt (bucket host m)) m)
        ≡ ite (Text-discrete host h) (ite (key.dec k s) true (in_bucket h s m)) (in_bucket h s m)
  in_bucket-insert h host s k m = ground (
    arith,
    lookup-insert host h (insert k tt (bucket host m)) m,
    lookup-insert k s tt (bucket host m),
  )

  pub in_bucket-drop_from_host :
      (h host : List ℕ) (s k : K) (m : Map (List ℕ) (Set K))
      → in_bucket h s (drop_from_host host k m)
        ≡ ite (Text-discrete host h) (ite (key.dec k s) false (in_bucket h s m)) (in_bucket h s m)
  unfolding drop_from_host
  in_bucket-drop_from_host h host s k m =
      let left = delete k (bucket host m) in
      ground (
        arith,
        lookup-delete host h m,
        lookup-insert host h left m,
        lookup-delete k s (bucket host m),
        lookup_of_is_empty s left,
        lookup-nil {V = Unit {0}} s,
      )
