-- ===== src/Relay/Sequence.antt =====
-- nextFreeRelaySequence of config/config.go: which number the search finds, and when it finds none.
use mathlib.Core.Option.{some-injective}
use upfadapter.Prelude.{
  ◌⊎◌, Option, sym, ◌∙◌, dec_le, ◌%◌, ◌^◌, subst, ap, ℕ, zero, suc, ◌+◌, ◌-◌, ◌≤◌, ◌<◌, ◌≡◌, refl,
  ◌≢◌, ◌↔◌, inl, inr, true, false, ◌||◌, none, some, if◌then◌else◌, ltb, leb, Bool-cases,
  Option-cases, nat_key, Map, contains, arith,
}
use upfadapter.Relay.{ReportRelay, next_candidate, free_loop, next_free_relay_sequence}

-- A number of the range that nothing is waiting on.
pub record IsFree (m : Map ℕ ReportRelay) (floor ceil x : ℕ) : Type 0 where
  pub above : floor ≤ x
  pub below : x ≤ ceil
  pub unused : contains x m ≡ false

-- The trip on which a search from `c` tries `x`: numbers are tried upwards from the one after `c`,
-- and from the floor again past the ceiling.
abbrev pub trip_of : ℕ → ℕ → ℕ → ℕ → ℕ
trip_of floor ceil c x =
    if ltb c floor || leb ceil c
    then x - floor + 1
    else if ltb c x
    then x - c
    else x + (ceil - floor + 1) - c

module _ (m : Map ℕ ReportRelay) (floor ceil : ℕ) (ordered : floor ≤ ceil) where
  trip_of-next_candidate :
      (c x : ℕ)
      → floor ≤ x
      → x ≤ ceil
      → x ≢ next_candidate floor ceil c
      → trip_of floor ceil c x ≡ suc (trip_of floor ceil (next_candidate floor ceil c) x)
  trip_of-next_candidate c x above below other = ground arith

  trip_of_self : (c : ℕ) → trip_of floor ceil c (next_candidate floor ceil c) ≡ 1
  trip_of_self c = ground arith

  trip_of-pos : (c x : ℕ) → floor ≤ x → x ≤ ceil → 1 ≤ trip_of floor ceil c x
  trip_of-pos c x above below = ground arith

  trip_of-le : (c x : ℕ) → floor ≤ x → x ≤ ceil → trip_of floor ceil c x ≤ ceil - floor + 1
  trip_of-le c x above below = ground arith

  next_candidate-range :
      (c : ℕ) → (floor ≤ next_candidate floor ceil c) × (next_candidate floor ceil c ≤ ceil)
  next_candidate-range c = ground arith

  free_loop-IsFree : (n c : ℕ) {r : ℕ} → free_loop m floor ceil n c ≡ some r → IsFree m floor ceil r
  unfolding free_loop
  free_loop-IsFree zero c h = cc
  free_loop-IsFree (suc n) c {r} h =
      let c' = next_candidate floor ceil c in
      elim (Bool-cases (contains c' m)) [
        | inl taken ↦ free_loop-IsFree n c' (rw taken at h)
        | inr unused ↦
            let e : c' ≡ r = some-injective _ _ (rw unused at h) in
            subst (IsFree m floor ceil) e (record {
              above = (next_candidate-range c).0;
              below = (next_candidate-range c).1;
              unused = unused;
            })
      ]

  free_loop_first :
      (n c x : ℕ)
      → IsFree m floor ceil x
      → trip_of floor ceil c x ≤ n
      → (r : ℕ) × (free_loop m floor ceil n c ≡ some r)
        × (trip_of floor ceil c r ≤ trip_of floor ceil c x)
  unfolding free_loop
  free_loop_first zero c x free h = absurd (omega (arith, trip_of-pos c x free.above free.below, h))
  free_loop_first (suc n) c x free h =
      let c' = next_candidate floor ceil c in
      elim (Bool-cases (contains c' m)) [
        | inl taken ↦
            let later : x ≢ c' = λ e. cc (ap (λ k. contains k m) e, free.unused) in
            let apart = trip_of-next_candidate c x free.above free.below later in
            let (r, found, least) = free_loop_first n c' x free (omega (arith, apart, h)) in
            let f = free_loop-IsFree n c' found in
            let other : r ≢ c' = λ e. cc (ap (λ k. contains k m) e, f.unused) in
            let apart' = trip_of-next_candidate c r f.above f.below other in
            (r, rw taken found, omega (arith, apart, apart', least))
        | inr unused ↦ (
          c',
          rw unused refl,
          omega (arith, trip_of_self c, trip_of-pos c x free.above free.below),
        )
      ]

module _ (m : Map ℕ ReportRelay) (from floor ceil : ℕ) (ordered : floor ≤ ceil)
    (narrow : ceil - floor + 1 < 2 ^ 32) where
  trips_eq : (ceil + 2 ^ 32 - floor + 1) % 2 ^ 32 ≡ ceil - floor + 1
  trips_eq = omega arith

  -- A free number is found no later than any other.
  next_free_relay_sequence_first :
      (x : ℕ)
      → IsFree m floor ceil x
      → (r : ℕ) × (next_free_relay_sequence m from floor ceil ≡ some r)
        × IsFree m floor ceil r
        × (trip_of floor ceil from r ≤ trip_of floor ceil from x)
  unfolding next_free_relay_sequence
  next_free_relay_sequence_first x free =
      let bound = trip_of-le m floor ceil ordered from x free.above free.below in
      let (r, found, least) =
        free_loop_first m floor ceil ordered _ from x free (omega (arith, trips_eq, bound)) in
      (r, found, free_loop-IsFree m floor ceil ordered _ from found, least)

  pub next_free_relay_sequence-IsFree :
      {r : ℕ} → next_free_relay_sequence m from floor ceil ≡ some r → IsFree m floor ceil r
  unfolding next_free_relay_sequence
  next_free_relay_sequence-IsFree h = free_loop-IsFree m floor ceil ordered _ from h

  pub next_free_relay_sequence-none_iff :
      (next_free_relay_sequence m from floor ceil ≡ none)
      ↔ ((x : ℕ) → floor ≤ x → x ≤ ceil → contains x m ≡ true)
  next_free_relay_sequence-none_iff = (full, fails)
    where
      full :
          next_free_relay_sequence m from floor ceil ≡ none
          → (x : ℕ) → floor ≤ x
          → x ≤ ceil
          → contains x m ≡ true
      full h x above below = elim (Bool-cases (contains x m)) [
        | inl taken ↦ taken
        | inr unused ↦
            let free : IsFree m floor ceil x = record {
              above = above;
              below = below;
              unused = unused;
            } in
            cc (h, (next_free_relay_sequence_first x free).1)
      ]

      fails :
          ((x : ℕ) → floor ≤ x → x ≤ ceil → contains x m ≡ true)
          → next_free_relay_sequence m from floor ceil ≡ none
      fails h = elim (Option-cases (next_free_relay_sequence m from floor ceil)) [
        | inl e ↦ e
        | inr (r, e) ↦
            let f = next_free_relay_sequence-IsFree e in cc (h r f.above f.below, f.unused)
      ]

  -- What the search gives: a free number that no other comes before, or none, with no number free.
  abbrev pub FoundPost : Option ℕ → Type 0
  FoundPost none = (x : ℕ) → (x < floor) ⊎ (ceil < x) ⊎ (contains x m ≡ true)
  FoundPost (some r) =
      IsFree m floor ceil r
      × ((x : ℕ)
          → (x < floor)
            ⊎ (ceil < x)
            ⊎ (contains x m ≡ true)
            ⊎ (trip_of floor ceil from r ≤ trip_of floor ceil from x))

  IsFree-cases :
      (x : ℕ) → ((x < floor) ⊎ (ceil < x) ⊎ (contains x m ≡ true)) ⊎ IsFree m floor ceil x
  IsFree-cases x = elim (dec_le floor x) [
    | no low ↦ inl (inl (omega arith))
    | yes above ↦ elim (dec_le x ceil) [
      | no high ↦ inl (inr (inl (omega arith)))
      | yes below ↦ elim (Bool-cases (contains x m)) [
        | inl taken ↦ inl (inr (inr taken))
        | inr unused ↦ inr (record { above = above; below = below; unused = unused })
      ]
    ]
  ]

  -- The search of a range of fewer than 2 ^ 32 numbers returns a number exactly when one is free: a
  -- free one, before every other free one on the wrapped trip from the last number; where it returns
  -- none, each number is outside the range or waited on.
  pub next_free_relay_sequence-FoundPost : FoundPost (next_free_relay_sequence m from floor ceil)
  next_free_relay_sequence-FoundPost =
      elim (Option-cases (next_free_relay_sequence m from floor ceil)) [
        | inl e ↦ rw e (λ x. elim (IsFree-cases x) [
          | inl other ↦ other
          | inr free ↦ absurd (cc (e, (next_free_relay_sequence_first x free).1))
        ])
        | inr (r, e) ↦ rw e (
          next_free_relay_sequence-IsFree e,
          λ x. elim (IsFree-cases x) [
            | inl (inl low) ↦ inl low
            | inl (inr (inl high)) ↦ inr (inl high)
            | inl (inr (inr taken)) ↦ inr (inr (inl taken))
            | inr free ↦
                let (first, found, is_free, least) = next_free_relay_sequence_first x free in
                let same : first ≡ r = some-injective _ _ (sym found ∙ e) in
                inr (
                  inr (
                    inr (
                      subst (λ c. trip_of floor ceil from c ≤ trip_of floor ceil from x) same
                        least)))
          ],
        )
      ]
