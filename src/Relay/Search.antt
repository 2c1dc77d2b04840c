-- ===== src/Relay/Search.antt =====
-- relayFromLocked of config/config.go: a report is recognised exactly while a relay of it is live.
use mathlib.Core.Option.{some-injective}
use upfadapter.Prelude.{
  bucket, ℕ, ◌-◌, ◌≤◌, ◌≡◌, sym, ◌∙◌, subst, Bool, true, false, ◌&&◌, none, some, List, [], ◌∷◌,
  ◌==◌, inl, inr, Bool-cases, Option-cases, nat_key, text_key, ℕ_discrete, keys, lookup, mem,
  mem-keys, Map, arith,
}
use upfadapter.Net.{Net, UdpAddr}
use upfadapter.Relay.{
  ReportRelay, RelayTable, Found, held, absent, nil_address, host_of, is_live,
  report_relay_lifetime, relay_from_loop, relay_from_locked,
}
use upfadapter.Relay.Index.{IsIndexed, at_host}

module _ ⦃net : Net⦄ (addr : UdpAddr) (upf_seq now : ℕ) where
  -- A relay under `k` is waiting for the answer to this very report.
  pub record IsOutstanding (t : RelayTable) (k : ℕ) : Type 0 where
    pub relay : ReportRelay
    pub stored : lookup k t.relays ≡ some relay
    pub same_host : host_of relay ≡ net.ip_string addr.ip
    pub same_port : relay.upf_addr.port ≡ addr.port
    pub same_seq : relay.upf_seq ≡ upf_seq
    pub live : now - relay.recorded ≤ report_relay_lifetime

  -- The part of the test that the loop makes.
  abbrev Matches : ReportRelay → Type 0
  Matches r =
      (r.upf_addr.port ≡ addr.port)
      × (r.upf_seq ≡ upf_seq)
      × (now - r.recorded ≤ report_relay_lifetime)

  -- What the loop says of the keys that it visits.
  abbrev LoopPost : Map ℕ ReportRelay → List ℕ → Found → Type 0
  LoopPost m ks (held k) =
      (mem k ks ≡ true) × ((r : ReportRelay) × (lookup k m ≡ some r) × Matches r)
  LoopPost m ks absent =
      (k : ℕ) (r : ReportRelay) → mem k ks ≡ true → lookup k m ≡ some r → ¬ Matches r
  LoopPost m ks nil_address = (k : ℕ) × (mem k ks ≡ true) × (lookup k m ≡ none)

  LoopPost-cons :
      (m : Map ℕ ReportRelay) (k : ℕ) (ks : List ℕ) (f : Found)
      → ((r : ReportRelay) → lookup k m ≡ some r → ¬ Matches r)
      → LoopPost m ks f
      → LoopPost m (k ∷ ks) f
  unfolding mem
  LoopPost-cons m k ks (held j) here p = (ground arith, p.1)
  LoopPost-cons m k ks absent here p = λ j r e stored. elim (ℕ_discrete k j) [
    | yes same ↦ here r (rw same stored)
    | no other ↦ p j r (ground arith) stored
  ]
  LoopPost-cons m k ks nil_address here p = (p.0, ground arith, p.2)

  abbrev test : ReportRelay → Bool
  test r = (r.upf_seq == upf_seq) && (r.upf_addr.port == addr.port) && is_live now r

  Matches-of_test : (r : ReportRelay) → test r ≡ true → Matches r
  Matches-of_test r h = ground arith

  not-Matches-of_test : (r : ReportRelay) → test r ≡ false → ¬ Matches r
  not-Matches-of_test r h p = ground arith

  relay_from_loop-LoopPost :
      (m : Map ℕ ReportRelay) (ks : List ℕ) → LoopPost m ks (relay_from_loop m addr upf_seq now ks)
  unfolding relay_from_loop mem
  relay_from_loop-LoopPost m [] = λ k r e. cc
  relay_from_loop-LoopPost m (k ∷ ks) =
      let rest = relay_from_loop-LoopPost m ks in
      let tail = relay_from_loop m addr upf_seq now ks in
      let call = relay_from_loop m addr upf_seq now (k ∷ ks) in
      elim (Option-cases (lookup k m)) [
        | inl e ↦ elim (Bool-cases (0 == upf_seq)) [
          | inl zero_seq ↦
              let step : call ≡ nil_address = ground arith in
              subst (LoopPost m (k ∷ ks)) (sym step) (k, ground arith, e)
          | inr more ↦
              let step : call ≡ tail = ground arith in
              subst (LoopPost m (k ∷ ks)) (sym step) (LoopPost-cons m k ks tail (λ r e' p. cc) rest)
        ]
        | inr (r, e) ↦ elim (Bool-cases (test r)) [
          | inl hit ↦
              let step : call ≡ held k = ground arith in
              subst (LoopPost m (k ∷ ks)) (sym step) (ground arith, (r, e, Matches-of_test r hit))
          | inr miss ↦
              let step : call ≡ tail = ground arith in
              subst (LoopPost m (k ∷ ks)) (sym step) (
                LoopPost-cons m k ks tail
                  (λ r' e' p.
                    not-Matches-of_test r miss (subst Matches (some-injective _ _ (sym e' ∙ e)) p))
                  rest)
        ]
      ]

  mem-bucket :
      (t : RelayTable) (k : ℕ)
      → IsIndexed t
      → mem k (keys (bucket (net.ip_string addr.ip) t.by_host))
        ≡ at_host (net.ip_string addr.ip) (lookup k t.relays)
  mem-bucket t k v =
      mem-keys k (bucket (net.ip_string addr.ip) t.by_host) ∙ v.agree (net.ip_string addr.ip) k

  -- What the search says of the table: a number that it returns is that of a live relay of this
  -- report, without one it returns none, and it never meets a nil address.
  abbrev pub SearchPost : RelayTable → Found → Type 0
  SearchPost t (held k) = IsOutstanding t k
  SearchPost t absent = (k : ℕ) → ¬ IsOutstanding t k
  SearchPost t nil_address = ⊥

  at_host_of_stored :
      (t : RelayTable) (k : ℕ)
      → IsOutstanding t k
      → at_host (net.ip_string addr.ip) (lookup k t.relays) ≡ true
  at_host_of_stored t k o = ground arith

  SearchPost-of_LoopPost :
      (t : RelayTable) (f : Found)
      → IsIndexed t
      → LoopPost t.relays (keys (bucket (net.ip_string addr.ip) t.by_host)) f
      → SearchPost t f
  SearchPost-of_LoopPost t (held k) v (visited, (r, e, p)) = record {
    relay = r;
    stored = e;
    same_host = ground (arith, mem-bucket t k v);
    same_port = p.0;
    same_seq = p.1;
    live = p.2;
  }
  SearchPost-of_LoopPost t absent v none_matches = λ k o.
      none_matches k o.relay (mem-bucket t k v ∙ at_host_of_stored t k o) o.stored
        (o.same_port, o.same_seq, o.live)
  SearchPost-of_LoopPost t nil_address v (k, visited, e) = ground (arith, mem-bucket t k v)

  pub relay_from_locked-SearchPost :
      (t : RelayTable) → IsIndexed t → SearchPost t (relay_from_locked addr upf_seq now t)
  unfolding relay_from_locked
  relay_from_locked-SearchPost t v =
      SearchPost-of_LoopPost t _ v (relay_from_loop-LoopPost t.relays _)
