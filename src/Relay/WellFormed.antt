-- ===== src/Relay/WellFormed.antt =====
-- What each operation on the relay tables of config/config.go keeps: the agreement of the index with
-- the table, the range of the numbers, and that relays of one report do not overlap.
use upfadapter.Prelude.{
  ℕ, ◌≡◌, refl, sym, ◌∙◌, Option, none, some, List, ite, if◌then◌else◌, inl, inr, Option-cases,
  subst, nat_key, text_key, ℕ_discrete, lookup, ap, ==_iff, lookup-nil, if_neg, arith,
}
use upfadapter.Net.{Net, UdpAddr, Text}
use upfadapter.Relay.{
  ReportRelay, RelayTable, empty_table, Claim, retransmission, nil_dereference, Renumbered,
  renumbered, not_held, exhausted, relay_sequence_floor, relay_sequence_ceil,
  next_free_relay_sequence, sweep_relays_locked, relay_from_locked, claim_number, claim_report,
  relay_report_sequence, renumber_to, renumber_report_relay, take_report_relay, forget_report_relay,
  forget_relays_for_host, relay_generation, held, absent, nil_address, Found,
}
use upfadapter.Relay.Index.{
  IsIndexed, at_host, lookup-drop_relay_locked, drop_relay_locked-IsIndexed,
  record_relay_locked-IsIndexed,
}
use upfadapter.Relay.Sequence.{next_free_relay_sequence-IsFree}
use upfadapter.Relay.Sweep.{sweep_relays_locked-IsIndexed}
use upfadapter.Relay.Claims.{relay_report_sequence-ClaimPost, relay_report_sequence_released}
use upfadapter.Relay.Release.{lookup-forget_relays_for_host, forget_relays_for_host-IsIndexed}
use upfadapter.Relay.Answer.{
  TakePost, take_report_relay-TakePost, RenumberPost, renumber_report_relay-RenumberPost,
}
use upfadapter.Relay.Invariant.{
  IsSound, relay_at, put, IsSound-Within, IsSound-put, IsSound-ext, IsSound-sweep_relays_locked,
  IsSound-ClaimPost,
}

module _ ⦃net : Net⦄ where
  -- The index agrees with the table, and the table is sound.
  pub record IsWellFormed (t : RelayTable) : Type 0 where
    pub indexed : IsIndexed t
    pub sound : IsSound (relay_at t)

  pub empty_table-IsWellFormed : IsWellFormed empty_table
  empty_table-IsWellFormed = record {
    indexed = record {
      agree = λ host seq. ground (
        arith,
        lookup-nil {V = ReportRelay} seq,
        lookup-nil {V = Unit {0}} seq,
        lookup-nil {V = List (ℕ × Unit {0})} host,
      );
      no_empty = λ host b e. ground (arith, lookup-nil {V = List (ℕ × Unit {0})} host);
    };
    sound = record {
      ranged = λ s r e. ground (arith, lookup-nil {V = ReportRelay} s);
      solo = λ s s' r r' e e' other same. ground (arith, lookup-nil {V = ReportRelay} s);
    };
  }

  renumbered_last : (c : ℕ) (t : RelayTable) → IsIndexed t → IsIndexed (record t { last_seq = c })
  renumbered_last c t v = record { agree = v.agree; no_empty = v.no_empty }

  claim_number-IsIndexed :
      (addr : UdpAddr) (upf_seq now : ℕ) (t : RelayTable) (o : Option ℕ)
      → next_free_relay_sequence t.relays t.last_seq relay_sequence_floor relay_sequence_ceil ≡ o
      → IsIndexed t
      → IsIndexed (claim_number addr upf_seq now t o).0
  unfolding claim_number
  claim_number-IsIndexed addr upf_seq now t none e v = v
  claim_number-IsIndexed addr upf_seq now t (some c) e v =
      let free =
        next_free_relay_sequence-IsFree t.relays t.last_seq relay_sequence_floor relay_sequence_ceil
          (omega arith) (omega arith) e in
      record_relay_locked-IsIndexed c _ (record t { last_seq = c }) (ground (arith, free.unused))
        (renumbered_last c t v)

  claim_report-IsIndexed :
      (addr : UdpAddr) (upf_seq now : ℕ) (t : RelayTable)
      → IsIndexed t
      → IsIndexed (claim_report addr upf_seq now t).0
  unfolding claim_report
  claim_report-IsIndexed addr upf_seq now t v = go (relay_from_locked addr upf_seq now t)
    where
      go :
          (f : Found)
          → IsIndexed
              (elim f as (λ _. RelayTable × Claim) [
                | held k ↦ (t, retransmission k)
                | absent ↦ claim_number addr upf_seq now t (
                    next_free_relay_sequence t.relays t.last_seq relay_sequence_floor
                      relay_sequence_ceil)
                | nil_address ↦ (t, nil_dereference)
              ]).0
      go (held k) = v
      go absent = claim_number-IsIndexed addr upf_seq now t _ refl v
      go nil_address = v

  -- A report that arrives keeps the tables well formed, whatever the answer.
  pub relay_report_sequence-IsWellFormed :
      (addr : UdpAddr) (upf_seq now authorised_under : ℕ) (t : RelayTable)
      → IsWellFormed t
      → IsWellFormed (relay_report_sequence addr upf_seq now authorised_under t).0
  unfolding relay_report_sequence
  relay_report_sequence-IsWellFormed addr upf_seq now authorised_under t v =
      elim (ℕ_discrete (relay_generation (net.ip_string addr.ip) t) authorised_under) [
        | yes e ↦ record {
          indexed = rw ((==_iff _ _).1 e) (
              claim_report-IsIndexed addr upf_seq now _
                (sweep_relays_locked-IsIndexed now t v.indexed));
          sound =
              IsSound-ClaimPost addr upf_seq now (sweep_relays_locked now t) _
                (relay_report_sequence-ClaimPost addr upf_seq now t authorised_under v.indexed e)
                (IsSound-sweep_relays_locked now t v.sound);
        }
        | no other ↦
            subst (λ u. IsWellFormed u.0)
              (sym (relay_report_sequence_released addr upf_seq now t authorised_under other)) v
      ]

  renumber_to-IsIndexed :
      (seq : ℕ) (r : ReportRelay) (t : RelayTable) (o : Option ℕ)
      → next_free_relay_sequence t.relays t.last_seq relay_sequence_floor relay_sequence_ceil ≡ o
      → IsIndexed t
      → IsIndexed (renumber_to seq r t o).0
  unfolding renumber_to
  renumber_to-IsIndexed seq r t none e v = v
  renumber_to-IsIndexed seq r t (some c) e v =
      let free =
        next_free_relay_sequence-IsFree t.relays t.last_seq relay_sequence_floor relay_sequence_ceil
          (omega arith) (omega arith) e in
      record_relay_locked-IsIndexed c r _
        (ground (arith, free.unused, lookup-drop_relay_locked c seq t))
        (renumbered_last c _ (drop_relay_locked-IsIndexed seq t v))

  renumber_report_relay-IsIndexed :
      (seq : ℕ) (t : RelayTable) → IsIndexed t → IsIndexed (renumber_report_relay seq t).0
  unfolding renumber_report_relay
  renumber_report_relay-IsIndexed seq t v = elim (Option-cases (lookup seq t.relays)) [
    | inl e ↦ rw (e, renumber_report_relay) v
    | inr (r, e) ↦ rw (e, renumber_report_relay) (renumber_to-IsIndexed seq r t _ refl v)
  ]

  IsSound-drop :
      (seq : ℕ) (t : RelayTable)
      → IsSound (relay_at t)
      → IsSound (λ s. ite (ℕ_discrete seq s) none (relay_at t s))
  IsSound-drop seq t v =
      IsSound-Within (λ s. ite (ℕ_discrete seq s) none (relay_at t s)) (relay_at t)
        (λ s r e. (r, ground arith, refl, refl, refl)) v

  IsSound-RenumberPost :
      (seq : ℕ) (t : RelayTable) (result : RelayTable × Renumbered)
      → RenumberPost seq t result
      → IsSound (relay_at t)
      → IsSound (relay_at result.0)
  IsSound-RenumberPost seq t (t', renumbered c) p v =
      let (r, e, free, looks) = p in
      IsSound-ext (relay_at t') (put c r (λ s. ite (ℕ_discrete seq s) none (relay_at t s))) looks (
        IsSound-put c r (λ s. ite (ℕ_discrete seq s) none (relay_at t s)) free.above free.below
          (λ s q f same. elim (ℕ_discrete seq s) [
            | yes here ↦ ground arith
            | no there ↦
                v.solo seq s r q e (sym (if_neg (ℕ_discrete seq s) there _ _) ∙ f) there same
          ])
          (IsSound-drop seq t v))
  IsSound-RenumberPost seq t (t', not_held) p v = subst (λ u. IsSound (relay_at u)) (sym p.1) v
  IsSound-RenumberPost seq t (t', exhausted) p v = subst (λ u. IsSound (relay_at u)) (sym p.1) v

  pub renumber_report_relay-IsWellFormed :
      (seq : ℕ) (t : RelayTable) → IsWellFormed t → IsWellFormed (renumber_report_relay seq t).0
  renumber_report_relay-IsWellFormed seq t v = record {
    indexed = renumber_report_relay-IsIndexed seq t v.indexed;
    sound = IsSound-RenumberPost seq t _ (renumber_report_relay-RenumberPost seq t) v.sound;
  }

  IsWellFormed-TakePost :
      (seq now : ℕ) (t : RelayTable) (result : RelayTable × Option (UdpAddr × ℕ))
      → TakePost seq now t result
      → IsWellFormed t
      → IsWellFormed result.0
  IsWellFormed-TakePost seq now t (t', none) p v = subst IsWellFormed (sym p.1) v
  IsWellFormed-TakePost seq now t (t', some origin) p v =
      let (r, e, fresh_one, live, here, same, looks, rest) = p in
      let index : t'.by_host ≡ t.by_host = ap (λ u. u.by_host) rest in
      record {
        indexed = record {
          agree = λ host s. ground (arith, looks s, index, v.indexed.agree host s, e);
          no_empty = λ host b f. v.indexed.no_empty host b (sym (ap (lookup host) index) ∙ f);
        };
        sound =
            IsSound-Within (relay_at t') (relay_at t)
              (λ s q f. elim (ℕ_discrete seq s) [
                | yes at_seq ↦ (
                  r,
                  ground (arith, looks s, e),
                  ground (arith, looks s),
                  ground (arith, looks s),
                  ground (arith, looks s),
                )
                | no other ↦ (q, ground (arith, looks s), refl, refl, refl)
              ])
              v.sound;
      }

  pub take_report_relay-IsWellFormed :
      (seq now : ℕ) (t : RelayTable) → IsWellFormed t → IsWellFormed (take_report_relay seq now t).0
  take_report_relay-IsWellFormed seq now t v =
      IsWellFormed-TakePost seq now t _ (take_report_relay-TakePost seq now t) v

  pub forget_report_relay-IsWellFormed :
      (seq : ℕ) (t : RelayTable) → IsWellFormed t → IsWellFormed (forget_report_relay seq t)
  unfolding forget_report_relay
  forget_report_relay-IsWellFormed seq t v = record {
    indexed = drop_relay_locked-IsIndexed seq t v.indexed;
    sound = IsSound-ext _ _ (λ s. lookup-drop_relay_locked s seq t) (IsSound-drop seq t v.sound);
  }

  pub forget_relays_for_host-IsWellFormed :
      (addr : Text) (now : ℕ) (t : RelayTable)
      → IsWellFormed t
      → IsWellFormed (forget_relays_for_host addr now t)
  forget_relays_for_host-IsWellFormed addr now t v = record {
    indexed = forget_relays_for_host-IsIndexed addr now t v.indexed;
    sound =
        IsSound-Within (relay_at (forget_relays_for_host addr now t)) (relay_at t)
          (λ s r e. (
            r,
            kept s r (lookup-forget_relays_for_host addr now s t v.indexed) e,
            refl,
            refl,
            refl,
          ))
          v.sound;
  }
    where
      kept :
          (s : ℕ) (r : ReportRelay)
          → relay_at (forget_relays_for_host addr now t) s
            ≡ (if at_host addr (relay_at t s) then none else relay_at t s)
          → relay_at (forget_relays_for_host addr now t) s ≡ some r
          → relay_at t s ≡ some r
      kept s r h e = ground arith
