-- ===== src/Relay/Answer.antt =====
-- TakeReportRelay, RenumberReportRelay and ForgetReportRelay of config/config.go.
use mathlib.Core.Option.{some-injective}
use upfadapter.Prelude.{
  ℕ, ◌-◌, ◌≤◌, ◌<◌, ◌≡◌, refl, ◌⊎◌, sym, ◌∙◌, true, false, not, ◌||◌, Option, none, some, subst,
  if_pos, ite, inl, inr, Bool-cases, Option-cases, nat_key, ℕ_discrete, lookup, contains,
  lookup-insert, ap, arith,
}
use upfadapter.Net.{Net, UdpAddr}
use upfadapter.Relay.{
  ReportRelay, RelayTable, Renumbered, renumbered, not_held, exhausted, is_live, drop_relay_locked,
  next_free_relay_sequence, relay_sequence_floor, relay_sequence_ceil, renumber_to,
  renumber_report_relay, take_report_relay, report_relay_lifetime,
}
use upfadapter.Relay.Index.{lookup-record_relay_locked, lookup-drop_relay_locked}
use upfadapter.Relay.Sequence.{
  IsFree, next_free_relay_sequence-IsFree, next_free_relay_sequence-none_iff,
}
use upfadapter.Relay.Search.{IsOutstanding}

-- The entry as taken.
abbrev pub taken : ReportRelay → ReportRelay
taken r = record r { answered = true }

-- What TakeReportRelay does, by whether it hands a report out.
abbrev pub TakePost : ℕ → ℕ → RelayTable → RelayTable × Option (UdpAddr × ℕ) → Type 0
TakePost seq now t (t', some (addr, upf_seq)) =
    (r : ReportRelay) × (lookup seq t.relays ≡ some r)
    × (r.answered ≡ false)
    × (now - r.recorded ≤ report_relay_lifetime)
    × (r.upf_addr ≡ addr)
    × (r.upf_seq ≡ upf_seq)
    × ((s : ℕ) → lookup s t'.relays ≡ ite (ℕ_discrete seq s) (some (taken r)) (lookup s t.relays))
    × (t' ≡ record t { relays = t'.relays })
TakePost seq now t (t', none) =
    ((r : ReportRelay)
      → lookup seq t.relays ≡ some r
      → (r.answered ≡ true) ⊎ (report_relay_lifetime < now - r.recorded))
    × (t' ≡ t)

refused_because :
    (r : ReportRelay) (now : ℕ)
    → (r.answered || not (is_live now r)) ≡ true
    → (r.answered ≡ true) ⊎ (report_relay_lifetime < now - r.recorded)
refused_because r now h = ground arith

-- A report is handed out exactly if its relay is held, live and not handed out before. The entry is
-- kept, marked as answered, and nothing else changes.
pub take_report_relay-TakePost :
    (seq now : ℕ) (t : RelayTable) → TakePost seq now t (take_report_relay seq now t)
unfolding take_report_relay
take_report_relay-TakePost seq now t = elim (Option-cases (lookup seq t.relays)) [
  | inl e ↦ rw (e, take_report_relay) ((λ r found. cc), refl)
  | inr (r, e) ↦ elim (Bool-cases (r.answered || not (is_live now r))) [
    | inl refused ↦
        rw (e, take_report_relay)
          (rw refused (
            (λ r' found. refused_because r' now (rw (some-injective _ _ (sym found ∙ e)) refused)),
            refl,
          ))
    | inr handed ↦
        rw (e, take_report_relay)
          (rw handed (
            r,
            e,
            ground arith,
            ground arith,
            refl,
            refl,
            λ s. lookup-insert seq s (taken r) t.relays,
            refl,
          ))
  ]
]

-- One relay is answered at most once: what was handed out is not handed out again, whenever the
-- second attempt comes.
take_report_relay_twice :
    (seq now later : ℕ) (t : RelayTable) {t' : RelayTable} {origin : UdpAddr × ℕ}
    → take_report_relay seq now t ≡ (t', some origin)
    → take_report_relay seq later t' ≡ (t', none)
unfolding take_report_relay
take_report_relay_twice seq now later t {t'} h =
    let (r, e, fresh, live, here, same, looks, index) =
      subst (TakePost seq now t) h (take_report_relay-TakePost seq now t) in
    let again : lookup seq t'.relays ≡ some (taken r) =
      looks seq ∙ if_pos (ℕ_discrete seq seq) refl _ _ in
    rw (again, take_report_relay) refl

module _ ⦃net : Net⦄ where
  IsOutstanding-TakePost :
      (addr : UdpAddr) (upf_seq at seq now k : ℕ) (t : RelayTable)
      (result : RelayTable × Option (UdpAddr × ℕ))
      → TakePost seq now t result
      → IsOutstanding addr upf_seq at t k
      → IsOutstanding addr upf_seq at result.0 k
  IsOutstanding-TakePost addr upf_seq at seq now k t (t', none) p o =
      subst (λ u. IsOutstanding addr upf_seq at u k) (sym p.1) o
  IsOutstanding-TakePost addr upf_seq at seq now k t (t', some origin) p o =
      let (r, e, fresh, live, here, same, looks, index) = p in
      elim (ℕ_discrete seq k) [
        | yes this ↦ record {
          relay = taken o.relay;
          stored = ground (arith, looks k, o.stored, e);
          same_host = o.same_host;
          same_port = o.same_port;
          same_seq = o.same_seq;
          live = o.live;
        }
        | no other ↦ record {
          relay = o.relay;
          stored = ground (arith, looks k, o.stored);
          same_host = o.same_host;
          same_port = o.same_port;
          same_seq = o.same_seq;
          live = o.live;
        }
      ]

  pub IsOutstanding-take_report_relay :
      (addr : UdpAddr) (upf_seq at seq now k : ℕ) (t : RelayTable)
      → IsOutstanding addr upf_seq at t k
      → IsOutstanding addr upf_seq at (take_report_relay seq now t).0 k
  IsOutstanding-take_report_relay addr upf_seq at seq now k t o =
      IsOutstanding-TakePost addr upf_seq at seq now k t _ (take_report_relay-TakePost seq now t) o

  -- What RenumberReportRelay does, by its outcome.
  abbrev pub RenumberPost : ℕ → RelayTable → RelayTable × Renumbered → Type 0
  RenumberPost seq t (t', renumbered c) =
      (r : ReportRelay) × (lookup seq t.relays ≡ some r)
      × IsFree t.relays relay_sequence_floor relay_sequence_ceil c
      × ((s : ℕ)
          → lookup s t'.relays
            ≡ ite (ℕ_discrete c s) (some r) (ite (ℕ_discrete seq s) none (lookup s t.relays)))
  RenumberPost seq t (t', not_held) = (lookup seq t.relays ≡ none) × (t' ≡ t)
  RenumberPost seq t (t', exhausted) =
      ((x : ℕ) → relay_sequence_floor ≤ x → x ≤ relay_sequence_ceil → contains x t.relays ≡ true)
      × (t' ≡ t)

  renumber_to-RenumberPost :
      (seq : ℕ) (r : ReportRelay) (t : RelayTable) (o : Option ℕ)
      → lookup seq t.relays ≡ some r
      → next_free_relay_sequence t.relays t.last_seq relay_sequence_floor relay_sequence_ceil ≡ o
      → RenumberPost seq t (renumber_to seq r t o)
  unfolding renumber_to
  renumber_to-RenumberPost seq r t none e h = (
    (next_free_relay_sequence-none_iff t.relays t.last_seq relay_sequence_floor relay_sequence_ceil
          (omega arith) (omega arith)).0
        h,
    refl,
  )
  renumber_to-RenumberPost seq r t (some c) e h = (
    r,
    e,
    next_free_relay_sequence-IsFree t.relays t.last_seq relay_sequence_floor relay_sequence_ceil
        (omega arith) (omega arith) h,
    λ s.
        lookup-record_relay_locked s c r (record (drop_relay_locked seq t) { last_seq = c })
        ∙ ap (ite (ℕ_discrete c s) (some r)) (lookup-drop_relay_locked s seq t),
  )

  -- A renumbered relay moves, whole, to a number that nothing was waiting on; with no such number
  -- the relay stays as it was, and a number that is not held changes nothing.
  pub renumber_report_relay-RenumberPost :
      (seq : ℕ) (t : RelayTable) → RenumberPost seq t (renumber_report_relay seq t)
  unfolding renumber_report_relay
  renumber_report_relay-RenumberPost seq t = elim (Option-cases (lookup seq t.relays)) [
    | inl e ↦ rw (e, renumber_report_relay) (e, refl)
    | inr (r, e) ↦ rw (e, renumber_report_relay) (renumber_to-RenumberPost seq r t _ e refl)
  ]
