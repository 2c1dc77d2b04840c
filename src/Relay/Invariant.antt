-- ===== src/Relay/Invariant.antt =====
-- What every sequence of calls on the relay tables keeps. The calls of config/config.go hold
-- reportRelayMutex throughout, so whatever goroutines make them, they come one after the other.
use mathlib.Core.Option.{some-injective}
use mathlib.Core.Path.{fun_ext}
use upfadapter.Prelude.{
  ℕ, ◌+◌, ◌-◌, ◌≤◌, ◌<◌, ◌≡◌, refl, ◌≢◌, ◌⊎◌, sym, ◌∙◌, Option, none, some, ite, inl, inr,
  Bool-cases, subst, nat_key, text_key, dec_lt, ltb, if_pos, if_neg, ℕ_discrete, lookup, ap, arith,
}
use upfadapter.Net.{Net, UdpAddr}
use upfadapter.Relay.{
  ReportRelay, RelayTable, Claim, fresh, retransmission, peer_released, sequence_exhausted,
  nil_dereference, host_of, report_relay_lifetime, relay_sequence_floor, relay_sequence_ceil,
  relay_sweep_interval, sweep_relays_locked,
}
use upfadapter.Relay.Sweep.{live_only, lookup-sweep_relays_locked}
use upfadapter.Relay.Search.{IsOutstanding}
use upfadapter.Relay.Claims.{new_relay, ClaimPost}

-- Every entry of `m` is one of `m'`, but for the mark that it was answered.
abbrev pub Within : (ℕ → Option ReportRelay) → (ℕ → Option ReportRelay) → Type 0
Within m m' =
    (s : ℕ) (r : ReportRelay)
    → m s ≡ some r
    → (r' : ReportRelay) × (m' s ≡ some r')
      × (r'.upf_addr ≡ r.upf_addr)
      × (r'.recorded ≡ r.recorded)
      × (r'.upf_seq ≡ r.upf_seq)

module _ ⦃net : Net⦄ where
  -- Two relays of one report: the same peer, and the same number at that peer.
  pub record SameOrigin (r r' : ReportRelay) : Type 0 where
    pub same_host : host_of r ≡ host_of r'
    pub same_port : r.upf_addr.port ≡ r'.upf_addr.port
    pub same_seq : r.upf_seq ≡ r'.upf_seq

  -- One of the two had outlived its lifetime when the other was recorded.
  abbrev pub Apart : ReportRelay → ReportRelay → Type 0
  Apart r r' =
      (r.recorded + report_relay_lifetime < r'.recorded)
      ⊎ (r'.recorded + report_relay_lifetime < r.recorded)

  -- The numbers lie in the adapter's range, and two relays of one report never overlap in time.
  pub record IsSound (m : ℕ → Option ReportRelay) : Type 0 where
    pub ranged :
        (s : ℕ) (r : ReportRelay)
        → m s ≡ some r
        → (relay_sequence_floor ≤ s) × (s ≤ relay_sequence_ceil)
    pub solo :
        (s s' : ℕ) (r r' : ReportRelay)
        → m s ≡ some r
        → m s' ≡ some r'
        → s ≢ s'
        → SameOrigin r r'
        → Apart r r'

  abbrev pub relay_at : RelayTable → ℕ → Option ReportRelay
  relay_at t s = lookup s t.relays

  pub IsSound-Within : (m m' : ℕ → Option ReportRelay) → Within m m' → IsSound m' → IsSound m
  IsSound-Within m m' w v = record {
    ranged = λ s r e. let (r', e', a, b, c) = w s r e in v.ranged s r' e';
    solo = λ s s' r r' e e' other same.
        let (q, f, a, b, c) = w s r e in
        let (q', f', a', b', c') = w s' r' e' in
        let as' : SameOrigin q q' = record {
          same_host =
              ap (λ u. net.ip_string u.ip) a
              ∙ same.same_host
              ∙ ap (λ u. net.ip_string u.ip) (sym a');
          same_port = ap (λ u. u.port) a ∙ same.same_port ∙ ap (λ u. u.port) (sym a');
          same_seq = c ∙ same.same_seq ∙ sym c';
        } in
        let apart = v.solo s s' q q' f f' other as' in ground (arith, b, b', apart);
  }

  Apart-sym : (r r' : ReportRelay) → Apart r r' → Apart r' r
  Apart-sym r r' a = ground arith

  SameOrigin-sym : {r r' : ReportRelay} → SameOrigin r r' → SameOrigin r' r
  SameOrigin-sym o = record {
    same_host = sym o.same_host;
    same_port = sym o.same_port;
    same_seq = sym o.same_seq;
  }

  abbrev pub put : ℕ → ReportRelay → (ℕ → Option ReportRelay) → ℕ → Option ReportRelay
  put c r m s = ite (ℕ_discrete c s) (some r) (m s)

  -- A relay is put where it overlaps with none of the same report.
  pub IsSound-put :
      (c : ℕ) (new : ReportRelay) (m : ℕ → Option ReportRelay)
      → relay_sequence_floor ≤ c
      → c ≤ relay_sequence_ceil
      → ((s : ℕ) (r : ReportRelay) → m s ≡ some r → SameOrigin new r → Apart new r)
      → IsSound m
      → IsSound (put c new m)
  IsSound-put c new m lo hi apart v = record {
    ranged = λ s r e. elim (ℕ_discrete c s) [
      | yes here ↦ (omega arith, omega arith)
      | no there ↦ v.ranged s r (sym (if_neg (ℕ_discrete c s) there _ _) ∙ e)
    ];
    solo = λ s s' r r' e e' other same.
        pair s s' r r' e e' other same (ℕ_discrete c s) (ℕ_discrete c s');
  }
    where
      at_c : (s : ℕ) (r : ReportRelay) → c ≡ s → put c new m s ≡ some r → new ≡ r
      at_c s r here e = some-injective _ _ (sym (if_pos (ℕ_discrete c s) here _ _) ∙ e)

      off_c : (s : ℕ) (r : ReportRelay) → c ≢ s → put c new m s ≡ some r → m s ≡ some r
      off_c s r there e = sym (if_neg (ℕ_discrete c s) there _ _) ∙ e

      pair :
          (s s' : ℕ) (r r' : ReportRelay)
          → put c new m s ≡ some r
          → put c new m s' ≡ some r'
          → s ≢ s'
          → SameOrigin r r'
          → Dec (c ≡ s)
          → Dec (c ≡ s')
          → Apart r r'
      pair s s' r r' e e' other same (yes here) (yes here') = absurd (other (sym here ∙ here'))
      pair s s' r r' e e' other same (yes here) (no there') =
          let q = at_c s r here e in
          subst (λ x. Apart x r') q
            (apart s' r' (off_c s' r' there' e') (subst (λ x. SameOrigin x r') (sym q) same))
      pair s s' r r' e e' other same (no there) (yes here') =
          let q = at_c s' r' here' e' in
          subst (λ x. Apart r x) q
            (Apart-sym new r (
              apart s r (off_c s r there e)
                (SameOrigin-sym (subst (λ x. SameOrigin r x) (sym q) same))))
      pair s s' r r' e e' other same (no there) (no there') =
          v.solo s s' r r' (off_c s r there e) (off_c s' r' there' e') other same

  pub IsSound-ext :
      (m m' : ℕ → Option ReportRelay) → ((s : ℕ) → m s ≡ m' s) → IsSound m' → IsSound m
  IsSound-ext m m' h v = subst IsSound (sym (fun_ext h)) v

  live_only-eq-some :
      (now : ℕ) (o : Option ReportRelay) (r : ReportRelay) → live_only now o ≡ some r → o ≡ some r
  live_only-eq-some now none r e = e
  live_only-eq-some now (some q) r e = ground arith

  pub IsSound-sweep_relays_locked :
      (now : ℕ) (t : RelayTable)
      → IsSound (relay_at t)
      → IsSound (relay_at (sweep_relays_locked now t))
  IsSound-sweep_relays_locked now t v =
      IsSound-Within (relay_at (sweep_relays_locked now t)) (relay_at t)
        (λ s r e. (r, survived s r e, refl, refl, refl)) v
    where
      survived :
          (s : ℕ) (r : ReportRelay)
          → relay_at (sweep_relays_locked now t) s ≡ some r
          → relay_at t s ≡ some r
      survived s r e = elim (Bool-cases (ltb (now - t.last_sweep) relay_sweep_interval)) [
        | inl early ↦ (rw early at (sym (lookup-sweep_relays_locked now s t))) ∙ e
        | inr due ↦
            live_only-eq-some now _ r ((rw due at (sym (lookup-sweep_relays_locked now s t))) ∙ e)
      ]

  pub IsSound-ClaimPost :
      (addr : UdpAddr) (upf_seq now : ℕ) (t : RelayTable) (result : RelayTable × Claim)
      → ClaimPost addr upf_seq now t result
      → IsSound (relay_at t)
      → IsSound (relay_at result.0)
  IsSound-ClaimPost addr upf_seq now t (t', fresh c) p v =
      let (absent_now, free, looks, last) = p in
      IsSound-ext (relay_at t') (put c (new_relay addr upf_seq now) (relay_at t)) looks (
        IsSound-put c (new_relay addr upf_seq now) (relay_at t) free.above free.below
          (λ s r e same. inr (expired s r e same absent_now)) v)
    where
      expired :
          (s : ℕ) (r : ReportRelay)
          → relay_at t s ≡ some r
          → SameOrigin (new_relay addr upf_seq now) r
          → ((k : ℕ) → ¬ IsOutstanding addr upf_seq now t k)
          → r.recorded + report_relay_lifetime < now
      expired s r e same absent_now = elim (dec_lt (r.recorded + report_relay_lifetime) now) [
        | yes old ↦ old
        | no live ↦ absurd (
            absent_now s (record {
              relay = r;
              stored = e;
              same_host = sym same.same_host;
              same_port = sym same.same_port;
              same_seq = sym same.same_seq;
              live = omega arith;
            }))
      ]
  IsSound-ClaimPost addr upf_seq now t (t', retransmission k) p v =
      subst (λ u. IsSound (relay_at u)) (sym p.1) v
  IsSound-ClaimPost addr upf_seq now t (t', sequence_exhausted) p v =
      subst (λ u. IsSound (relay_at u)) (sym p.2) v
  IsSound-ClaimPost addr upf_seq now t (t', peer_released) p v = absurd p
  IsSound-ClaimPost addr upf_seq now t (t', nil_dereference) p v = absurd p
