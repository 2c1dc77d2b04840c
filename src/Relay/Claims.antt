-- ===== src/Relay/Claims.antt =====
-- RelayReportSequence of config/config.go: what it returns, and what it does to the tables.
use upfadapter.Prelude.{
  ℕ, ◌≤◌, ◌≡◌, refl, ◌≢◌, true, false, Option, none, some, ite, ==_iff, nat_key, text_key,
  ℕ_discrete, lookup, contains, arith,
}
use upfadapter.Net.{Net, UdpAddr}
use upfadapter.Relay.{
  ReportRelay, RelayTable, Found, held, absent, nil_address, Claim, fresh, retransmission,
  peer_released, sequence_exhausted, nil_dereference, relay_from_locked, record_relay_locked,
  next_free_relay_sequence, relay_sequence_floor, relay_sequence_ceil, sweep_relays_locked,
  relay_generation, claim_number, claim_report, relay_report_sequence,
}
use upfadapter.Relay.Index.{IsIndexed, lookup-record_relay_locked}
use upfadapter.Relay.Sequence.{
  IsFree, next_free_relay_sequence-IsFree, next_free_relay_sequence-none_iff,
}
use upfadapter.Relay.Sweep.{sweep_relays_locked-IsIndexed}
use upfadapter.Relay.Search.{IsOutstanding, SearchPost, relay_from_locked-SearchPost}

module _ ⦃net : Net⦄ (addr : UdpAddr) (upf_seq now : ℕ) where
  -- The entry of a fresh claim.
  abbrev pub new_relay : ReportRelay
  new_relay = record { upf_addr = addr; recorded = now; upf_seq = upf_seq; answered = false }

  -- What a claim on the tables `t` may be, by its outcome. `t'` are the tables afterwards.
  abbrev pub ClaimPost : RelayTable → RelayTable × Claim → Type 0
  ClaimPost t (t', fresh c) =
      ((k : ℕ) → ¬ IsOutstanding addr upf_seq now t k)
      × IsFree t.relays relay_sequence_floor relay_sequence_ceil c
      × ((s : ℕ) → lookup s t'.relays ≡ ite (ℕ_discrete c s) (some new_relay) (lookup s t.relays))
      × (t'.last_seq ≡ c)
  ClaimPost t (t', retransmission k) = IsOutstanding addr upf_seq now t k × (t' ≡ t)
  ClaimPost t (t', sequence_exhausted) =
      ((k : ℕ) → ¬ IsOutstanding addr upf_seq now t k)
      × ((x : ℕ) → relay_sequence_floor ≤ x → x ≤ relay_sequence_ceil → contains x t.relays ≡ true)
      × (t' ≡ t)
  ClaimPost t (t', peer_released) = ⊥
  ClaimPost t (t', nil_dereference) = ⊥

  claim_number-ClaimPost :
      (t : RelayTable) (o : Option ℕ)
      → next_free_relay_sequence t.relays t.last_seq relay_sequence_floor relay_sequence_ceil ≡ o
      → ((k : ℕ) → ¬ IsOutstanding addr upf_seq now t k)
      → ClaimPost t (claim_number addr upf_seq now t o)
  unfolding claim_number record_relay_locked
  claim_number-ClaimPost t none e absent_now = (
    absent_now,
    (next_free_relay_sequence-none_iff t.relays t.last_seq relay_sequence_floor relay_sequence_ceil
          (omega arith) (omega arith)).0
        e,
    refl,
  )
  claim_number-ClaimPost t (some c) e absent_now = (
    absent_now,
    next_free_relay_sequence-IsFree t.relays t.last_seq relay_sequence_floor relay_sequence_ceil
        (omega arith) (omega arith) e,
    λ s. lookup-record_relay_locked s c new_relay (record t { last_seq = c }),
    refl,
  )

  claim_report-ClaimPost :
      (t : RelayTable) → IsIndexed t → ClaimPost t (claim_report addr upf_seq now t)
  unfolding claim_report
  claim_report-ClaimPost t v =
      go (relay_from_locked addr upf_seq now t) (relay_from_locked-SearchPost addr upf_seq now t v)
    where
      next : Option ℕ
      next = next_free_relay_sequence t.relays t.last_seq relay_sequence_floor relay_sequence_ceil

      go :
          (f : Found)
          → SearchPost addr upf_seq now t f
          → ClaimPost t (elim f [
            | held k ↦ (t, retransmission k)
            | nil_address ↦ (t, nil_dereference)
            | absent ↦ claim_number addr upf_seq now t next
          ])
      go (held k) p = (p, refl)
      go nil_address p = p
      go absent p = claim_number-ClaimPost t next refl p

  -- On indexed tables, a report authorised under the current count of releases is recognised as a
  -- retransmission exactly while a live relay of it is in the swept tables, and then nothing is
  -- claimed; otherwise it is claimed under a free number of the range, and only that entry is new;
  -- or every number of the range is outstanding, and nothing is claimed. The search meets no nil
  -- address.
  pub relay_report_sequence-ClaimPost :
      (t : RelayTable) (authorised_under : ℕ)
      → IsIndexed t
      → relay_generation (net.ip_string addr.ip) t ≡ authorised_under
      → ClaimPost
          (sweep_relays_locked now t)
          (relay_report_sequence addr upf_seq now authorised_under t)
  unfolding relay_report_sequence
  relay_report_sequence-ClaimPost t authorised_under v e =
      rw ((==_iff _ _).1 e)
        (claim_report-ClaimPost (sweep_relays_locked now t) (sweep_relays_locked-IsIndexed now t v))

  -- A report whose address was released since its source check is refused, and claims nothing.
  pub relay_report_sequence_released :
      (t : RelayTable) (authorised_under : ℕ)
      → relay_generation (net.ip_string addr.ip) t ≢ authorised_under
      → relay_report_sequence addr upf_seq now authorised_under t ≡ (t, peer_released)
  unfolding relay_report_sequence
  relay_report_sequence_released t authorised_under other = ground arith
