-- ===== src/Relay/Index.antt =====
-- relaysByHost against reportRelays of config/config.go: the two are written by recordRelayLocked
-- and dropRelayLocked only, and the index cannot drift from what it indexes.
use upfadapter.Prelude.{
  bucket, in_bucket, drop_from_host, in_bucket-insert, in_bucket-drop_from_host, ℕ, ◌≡◌, Bool, true,
  false, Option, none, some, ite, inl, inr, Option-cases, nat_key, text_key, Text-discrete,
  ℕ_discrete, Map, Set, is_empty, lookup, insert, delete, lookup-delete, lookup-insert,
  is_empty-insert, arith,
}
use upfadapter.Net.{Net, Text}
use upfadapter.Relay.{
  forget_report_relay, ReportRelay, RelayTable, host_of, record_relay_locked, drop_relay_locked,
}

module _ ⦃net : Net⦄ where
  -- The table holds a relay under `seq` whose peer is at `host`.
  abbrev pub at_host : Text → Option ReportRelay → Bool
  at_host host none = false
  at_host host (some r) = ite (Text-discrete (host_of r) host) true false

  pub record IsIndexed (t : RelayTable) : Type 0 where
    pub agree :
        (host : Text) (seq : ℕ) → in_bucket host seq t.by_host ≡ at_host host (lookup seq t.relays)
    pub no_empty : (host : Text) (b : Set ℕ) → lookup host t.by_host ≡ some b → is_empty b ≡ false

  pub lookup-record_relay_locked :
      (s seq : ℕ) (r : ReportRelay) (t : RelayTable)
      → lookup s (record_relay_locked seq r t).relays
        ≡ ite (ℕ_discrete seq s) (some r) (lookup s t.relays)
  unfolding record_relay_locked
  lookup-record_relay_locked s seq r t = lookup-insert seq s r t.relays

  pub lookup-drop_relay_locked :
      (s seq : ℕ) (t : RelayTable)
      → lookup s (drop_relay_locked seq t).relays ≡ ite (ℕ_discrete seq s) none (lookup s t.relays)
  unfolding drop_relay_locked
  lookup-drop_relay_locked s seq t = ground (arith, lookup-delete seq s t.relays)

  pub lookup-forget_report_relay :
      (s seq : ℕ) (t : RelayTable)
      → lookup s (forget_report_relay seq t).relays
        ≡ ite (ℕ_discrete seq s) none (lookup s t.relays)
  unfolding forget_report_relay
  lookup-forget_report_relay s seq t = lookup-drop_relay_locked s seq t

  pub record_relay_locked-IsIndexed :
      (seq : ℕ) (r : ReportRelay) (t : RelayTable)
      → lookup seq t.relays ≡ none
      → IsIndexed t
      → IsIndexed (record_relay_locked seq r t)
  unfolding record_relay_locked
  record_relay_locked-IsIndexed seq r t new v = record {
    agree = λ h s. ground (
      arith,
      in_bucket-insert h (host_of r) s seq t.by_host,
      lookup-insert seq s r t.relays,
      v.agree h s,
    );
    no_empty = λ h b e. ground (
      arith,
      lookup-insert (host_of r) h (insert seq tt (bucket (host_of r) t.by_host)) t.by_host,
      is_empty-insert seq tt (bucket (host_of r) t.by_host),
      v.no_empty h b,
    );
  }

  drop_from_host-no_empty :
      (m : Map Text (Set ℕ)) (h host : Text) (seq : ℕ) (b : Set ℕ)
      → ((b : Set ℕ) → lookup h m ≡ some b → is_empty b ≡ false)
      → lookup h (drop_from_host host seq m) ≡ some b
      → is_empty b ≡ false
  unfolding drop_from_host
  drop_from_host-no_empty m h host seq b v e =
      let left = delete seq (bucket host m) in
      ground (arith, lookup-delete host h m, lookup-insert host h left m, v b)

  pub drop_relay_locked-IsIndexed :
      (seq : ℕ) (t : RelayTable) → IsIndexed t → IsIndexed (drop_relay_locked seq t)
  unfolding drop_relay_locked
  drop_relay_locked-IsIndexed seq t v = elim (Option-cases (lookup seq t.relays)) [
    | inl e ↦ rw (e, drop_relay_locked) v
    | inr (r, e) ↦
        rw (e, drop_relay_locked)
          (record {
            agree = λ h s. ground (
              arith,
              in_bucket-drop_from_host h (host_of r) s seq t.by_host,
              lookup-delete seq s t.relays,
              v.agree h s,
            );
            no_empty = λ h b. drop_from_host-no_empty t.by_host h (host_of r) seq b (v.no_empty h);
          })
  ]
