-- ===== src/Prelude/Maps.antt =====
-- Go's maps as association lists: a key that is inserted hides no older entry, and the order of
-- the entries stands for the order in which `range` visits them. A set is a map into `Unit`.
use Prim.Native.Nat.{ℕ}
use mathlib.Core.Path.{◌≡◌, refl}
use mathlib.Core.Logic.{ite}
use mathlib.Core.Bool.{Bool, true, false}
use mathlib.Core.Option.{Option, none, some}
use mathlib.Core.List.{List, [], ◌∷◌, map}
use native.Mathlib.Omega.{arith}
use native.Mathlib.Decide.{ℕ_discrete}

-- Keys are compared by a decision.
pub record Key {ℓ} (K : Type ℓ) : Type ℓ where
  pub dec : Discrete K

unfoldable pub Text-discrete : Discrete (List ℕ)
Text-discrete = hlevel ℕ_discrete

instance abbrev pub nat_key : Key ℕ
nat_key = record { dec = ℕ_discrete }

instance abbrev pub text_key : Key (List ℕ)
text_key = record { dec = Text-discrete }

abbrev pub Map : Type 0 → Type 0 → Type 0
Map K V = List (K × V)

abbrev pub Set : Type 0 → Type 0
Set K = Map K (Unit {0})

abbrev pub keys : {K V : Type 0} → Map K V → List K
keys = map (λ e. e.0)

-- `len(m) == 0`
unfoldable pub is_empty : {K V : Type 0} → Map K V → Bool
is_empty [] = true
is_empty (e ∷ m) = false

abbrev pub is_some : {A : Type 0} → Option A → Bool
is_some none = false
is_some (some a) = true

module _ {K : Type 0} ⦃key : Key K⦄ where
  unfoldable pub lookup : {V : Type 0} → K → Map K V → Option V
  lookup k [] = none
  lookup k ((j, v) ∷ m) = ite (key.dec j k) (some v) (lookup k m)

  -- `delete(m, k)`
  unfoldable pub delete : {V : Type 0} → K → Map K V → Map K V
  delete k [] = []
  delete k ((j, v) ∷ m) = ite (key.dec j k) (delete k m) ((j, v) ∷ delete k m)

  -- `m[k] = v`
  unfoldable pub insert : {V : Type 0} → K → V → Map K V → Map K V
  insert k v m = (k, v) ∷ delete k m

  -- `_, ok := m[k]`
  abbrev pub contains : {V : Type 0} → K → Map K V → Bool
  contains k m = is_some (lookup k m)

  unfoldable pub mem : K → List K → Bool
  mem k [] = false
  mem k (j ∷ ks) = ite (key.dec j k) true (mem k ks)

  module _ {V : Type 0} where
    pub lookup-nil : (k : K) → lookup {V = V} k [] ≡ none
    unfolding lookup
    lookup-nil k = refl

    pub lookup-delete :
        (k j : K) (m : Map K V) → lookup j (delete k m) ≡ ite (key.dec k j) none (lookup j m)
    unfolding lookup delete
    lookup-delete k j [] = ground arith
    lookup-delete k j ((i, v) ∷ m) = ground (arith, lookup-delete k j m)

    pub lookup-insert :
        (k j : K) (v : V) (m : Map K V)
        → lookup j (insert k v m) ≡ ite (key.dec k j) (some v) (lookup j m)
    unfolding lookup insert
    lookup-insert k j v m = ground (arith, lookup-delete k j m)

    pub mem-keys : (k : K) (m : Map K V) → mem k (keys m) ≡ contains k m
    unfolding lookup mem
    mem-keys k [] = refl
    mem-keys k ((j, v) ∷ m) = ground (arith, mem-keys k m)

    pub lookup_of_is_empty : (k : K) (m : Map K V) → is_empty m ≡ true → lookup k m ≡ none
    unfolding lookup is_empty
    lookup_of_is_empty k [] h = refl
    lookup_of_is_empty k (e ∷ m) h = cc

    pub is_empty-insert : (k : K) (v : V) (m : Map K V) → is_empty (insert k v m) ≡ false
    unfolding is_empty insert
    is_empty-insert k v m = refl
