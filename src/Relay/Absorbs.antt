-- ===== src/Relay/Absorbs.antt =====
-- Copies of a session report that is being answered: TakeReportRelay and relayFromLocked of
-- config/config.go.
use upfadapter.Prelude.{ℕ, ◌≡◌, refl, nat_key}
use upfadapter.Net.{Net, UdpAddr}
use upfadapter.Relay.{
  RelayTable, Found, held, absent, nil_address, relay_from_locked, take_report_relay,
}
use upfadapter.Relay.Answer.{IsOutstanding-take_report_relay}
use upfadapter.Relay.Search.{IsOutstanding, SearchPost, relay_from_locked-SearchPost}
use upfadapter.Relay.WellFormed.{IsWellFormed, take_report_relay-IsWellFormed}

module _ ⦃net : Net⦄ (addr : UdpAddr) (upf_seq at : ℕ) where
  -- A search of a table that has a live relay of the report finds one.
  SearchPost-held :
      (t : RelayTable) (k : ℕ) (f : Found)
      → SearchPost addr upf_seq at t f
      → IsOutstanding addr upf_seq at t k
      → (s : ℕ) × (f ≡ held s) × IsOutstanding addr upf_seq at t s
  SearchPost-held t k (held s) post o = (s, refl, post)
  SearchPost-held t k absent post o = absurd (post k o)
  SearchPost-held t k nil_address post o = absurd post

  -- Taking a report to answer it leaves it recognised: in well-formed tables, where a live relay of
  -- the report is held, the search for a copy of it still finds a live relay of it after the take of
  -- any number, the relay's own included.
  pub relay_from_locked-take_report_relay :
      (seq now k : ℕ) (t : RelayTable)
      → IsWellFormed t
      → IsOutstanding addr upf_seq at t k
      → let t' = (take_report_relay seq now t).0 in
        (s : ℕ) × (relay_from_locked addr upf_seq at t' ≡ held s)
        × IsOutstanding addr upf_seq at t' s
  relay_from_locked-take_report_relay seq now k t v o =
      let t' = (take_report_relay seq now t).0 in
      SearchPost-held t' k (relay_from_locked addr upf_seq at t')
        (relay_from_locked-SearchPost addr upf_seq at t'
          (take_report_relay-IsWellFormed seq now t v).indexed)
        (IsOutstanding-take_report_relay addr upf_seq at seq now k t o)
