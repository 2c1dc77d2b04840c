-- ===== src/Relay/Sweep.antt =====
-- sweepRelaysLocked of config/config.go: which relays survive it.
use upfadapter.Prelude.{
  true, false, subst, sym, ◌∙◌, Bool, ap, ℕ, ◌-◌, ◌≡◌, refl, Option, none, some, List, [], ◌∷◌, ite,
  if◌then◌else◌, ltb, inl, inr, Bool-cases, Option-cases, nat_key, ℕ_discrete, keys, lookup, mem,
  mem-keys, arith,
}
use upfadapter.Net.{Net}
use upfadapter.Relay.{
  drop_relay_locked, ReportRelay, RelayTable, relay_sweep_interval, is_live, sweep_relay,
  sweep_relays, sweep_relays_locked, sweep_generations,
}
use upfadapter.Relay.Index.{IsIndexed, drop_relay_locked-IsIndexed, lookup-drop_relay_locked}

-- What is left of an entry when those past their lifetime are gone.
abbrev pub live_only : ℕ → Option ReportRelay → Option ReportRelay
live_only now none = none
live_only now (some r) = if is_live now r then some r else none

live_only_twice :
    (now : ℕ) (o : Option ReportRelay) → live_only now (live_only now o) ≡ live_only now o
live_only_twice now none = refl
live_only_twice now (some r) = ground arith

module _ ⦃net : Net⦄ (now : ℕ) where
  lookup-sweep_relay :
      (s k : ℕ) (t : RelayTable)
      → lookup s (sweep_relay now k t).relays
        ≡ ite (ℕ_discrete k s) (live_only now (lookup s t.relays)) (lookup s t.relays)
  unfolding sweep_relay
  lookup-sweep_relay s k t = ground (arith, lookup-drop_relay_locked s k t)

  lookup-sweep_relays :
      (s : ℕ) (ks : List ℕ) (t : RelayTable)
      → lookup s (sweep_relays now ks t).relays
        ≡ (if mem s ks then live_only now (lookup s t.relays) else lookup s t.relays)
  unfolding sweep_relays mem
  lookup-sweep_relays s [] t = refl
  lookup-sweep_relays s (k ∷ ks) t = ground (
    arith,
    lookup-sweep_relays s ks (sweep_relay now k t),
    lookup-sweep_relay s k t,
    live_only_twice now (lookup s t.relays),
  )

  sweep_relay-IsIndexed : (k : ℕ) (t : RelayTable) → IsIndexed t → IsIndexed (sweep_relay now k t)
  unfolding sweep_relay
  sweep_relay-IsIndexed k t v = elim (Option-cases (lookup k t.relays)) [
    | inl e ↦ rw (e, sweep_relay) v
    | inr (r, e) ↦ elim (Bool-cases (is_live now r)) [
      | inl live ↦ rw (e, sweep_relay) (rw live v)
      | inr old ↦ rw (e, sweep_relay) (rw old (drop_relay_locked-IsIndexed k t v))
    ]
  ]

  sweep_relays-IsIndexed :
      (ks : List ℕ) (t : RelayTable) → IsIndexed t → IsIndexed (sweep_relays now ks t)
  unfolding sweep_relays
  sweep_relays-IsIndexed [] t v = v
  sweep_relays-IsIndexed (k ∷ ks) t v =
      sweep_relays-IsIndexed ks (sweep_relay now k t) (sweep_relay-IsIndexed k t v)

  pub lookup-sweep_relays_locked :
      (s : ℕ) (t : RelayTable)
      → lookup s (sweep_relays_locked now t).relays ≡ (
          if ltb (now - t.last_sweep) relay_sweep_interval
          then lookup s t.relays
          else live_only now (lookup s t.relays))
  unfolding sweep_relays_locked
  lookup-sweep_relays_locked s t =
      elim (Bool-cases (ltb (now - t.last_sweep) relay_sweep_interval)) [
        | inl early ↦ rw early refl
        | inr due ↦ rw due (
            ground (
              arith,
              mem-keys s t.relays,
              lookup-sweep_relays s (keys t.relays) (record t {
                last_sweep = now;
                generations = sweep_generations now (keys t.generations) t.generations;
              }),
            ))
      ]

  pub sweep_relays_locked-IsIndexed :
      (t : RelayTable) → IsIndexed t → IsIndexed (sweep_relays_locked now t)
  unfolding sweep_relays_locked
  sweep_relays_locked-IsIndexed t v =
      elim (Bool-cases (ltb (now - t.last_sweep) relay_sweep_interval)) [
        | inl early ↦ rw early v
        | inr due ↦ rw due (
            sweep_relays-IsIndexed (keys t.relays) _
              (record { agree = v.agree; no_empty = v.no_empty }))
      ]

  sweep_relay-rest :
      (k : ℕ) (t : RelayTable)
      → ((sweep_relay now k t).last_sweep ≡ t.last_sweep)
        × ((sweep_relay now k t).last_seq ≡ t.last_seq)
        × ((sweep_relay now k t).generations ≡ t.generations)
  unfolding sweep_relay drop_relay_locked
  sweep_relay-rest k t = elim (Option-cases (lookup k t.relays)) [
    | inl e ↦ rw (e, sweep_relay) (refl, refl, refl)
    | inr (r, e) ↦ elim (Bool-cases (is_live now r)) [
      | inl live ↦ rw (e, sweep_relay) (rw live (refl, refl, refl))
      | inr old ↦
          rw (e, sweep_relay) (rw old (ground (arith, e), ground (arith, e), ground (arith, e)))
    ]
  ]

  sweep_relays-rest :
      (ks : List ℕ) (t : RelayTable)
      → ((sweep_relays now ks t).last_sweep ≡ t.last_sweep)
        × ((sweep_relays now ks t).last_seq ≡ t.last_seq)
        × ((sweep_relays now ks t).generations ≡ t.generations)
  unfolding sweep_relays
  sweep_relays-rest [] t = (refl, refl, refl)
  sweep_relays-rest (k ∷ ks) t =
      let rest = sweep_relays-rest ks (sweep_relay now k t) in
      let first = sweep_relay-rest k t in (rest.0 ∙ first.0, rest.1 ∙ first.1, rest.2 ∙ first.2)

  -- What a sweep leaves, by whether it comes early.
  abbrev pub SweepPost : RelayTable → RelayTable → Bool → Type 0
  SweepPost t t' true = t' ≡ t
  SweepPost t t' false =
      ((s : ℕ) → lookup s t'.relays ≡ live_only now (lookup s t.relays))
      × (t'.last_sweep ≡ now)
      × (t'.last_seq ≡ t.last_seq)
      × (t'.generations ≡ sweep_generations now (keys t.generations) t.generations)

  pub sweep_relays_locked-SweepPost :
      (t : RelayTable)
      → SweepPost t (sweep_relays_locked now t) (ltb (now - t.last_sweep) relay_sweep_interval)
  sweep_relays_locked-SweepPost t =
      elim (Bool-cases (ltb (now - t.last_sweep) relay_sweep_interval)) [
        | inl early ↦
            let step : sweep_relays_locked now t ≡ t =
              unfold sweep_relays_locked in rw early refl in
            subst (SweepPost t (sweep_relays_locked now t)) (sym early) step
        | inr due ↦
            let begun : RelayTable = record t {
              last_sweep = now;
              generations = sweep_generations now (keys t.generations) t.generations;
            } in
            let rest = sweep_relays-rest (keys t.relays) begun in
            let step : sweep_relays_locked now t ≡ sweep_relays now (keys t.relays) begun =
              unfold sweep_relays_locked in rw due refl in
            subst (SweepPost t (sweep_relays_locked now t)) (sym due) (
              λ s. ground (arith, lookup-sweep_relays_locked s t, due),
              ap (λ u. u.last_sweep) step ∙ rest.0,
              ap (λ u. u.last_seq) step ∙ rest.1,
              ap (λ u. u.generations) step ∙ rest.2,
            )
      ]
