-- ===== src/Goroutine/Guarded.antt =====
-- The source check of HandlePfcpSessionReportRequest (pfcp/handler/handler.go) against releases of
-- addresses (config/config.go) that come between its calls.
use upfadapter.Prelude.{
  ℕ, ◌≤◌, ◌≡◌, ◌≢◌, refl, sym, ap, subst, ◌∙◌, false, none, some, List, [], ◌∷◌, inl, inr,
  Bool-cases, Option-cases, ℕ_discrete, nat_key, text_key, Map, lookup, lookup-insert, arith,
}
use upfadapter.Net.{Net, Text, Ip}
use upfadapter.Pfcp.{Pfcp, session_report_request, session_report_response}
use upfadapter.Relay.{relay_generation}
use upfadapter.Relay.WellFormed.{IsWellFormed, empty_table-IsWellFormed}
use upfadapter.Peers.{Peers, is_blank}
use upfadapter.Peers.Forget.{IsGuarded}
use upfadapter.Peers.Known.{record_upf_addr-IsGuarded}
use upfadapter.Peers.Relays.{record_upf_addr-IsWellFormed}
use upfadapter.Peers.Released.{Released, record_upf_addr-Released}
use upfadapter.Udp.Tables.{forget_consumer}
use upfadapter.Report.{World, relays_of}
use upfadapter.Adapter.{Hooked}
use upfadapter.Goroutine.Held.{AtHeld}
use upfadapter.Goroutine.Kept.{advance-IsWellFormed}
use upfadapter.Goroutine.Advance.{Goes, advance-Goes}
use upfadapter.Goroutine.Cautious.{Cautious, Cautious-kept}
use upfadapter.Goroutine.{Position, panicked, on_request, on_response, advance}
use upfadapter.Goroutine.Interleaved.{
  Goroutines, Event, requested, responded, failed, calls, names, claims_smf, sends, reads, ends,
  idle, start, resume, step, run, carried, NotFallen, Steady, AllSteady,
}

module _ ⦃net : Net⦄ where
  Released-same :
      (host : Text) (w w' : World Hooked)
      → w'.peers.addrs ≡ w.peers.addrs
      → Released host w.peers w'.peers
  Released-same host w w' same there gone = ground (arith, same, there, gone)

module _ {M : Type 0} ⦃net : Net⦄ ⦃pfcp : Pfcp M⦄ where
  -- The relay tables are in order, every relay is one for an address that is held, and each
  -- goroutine has what it relies on.
  record IsCareful (g : Goroutines M) : Type 0 where
    ordered : IsWellFormed (relays_of g.world)
    held : AtHeld g.world.peers (relays_of g.world)
    cautious : (i : ℕ) (p : Position M) → lookup i g.running ≡ some p → Cautious g.world p

  abbrev Rising : Goroutines M → World Hooked → Type 0
  Rising g w' =
      (i : ℕ) (p : Position M) (host : Text) (under : ℕ)
      → lookup i g.running ≡ some p
      → carried p ≡ some (host, under)
      → relay_generation host (relays_of g.world) ≤ relay_generation host (relays_of w')

  Rising-Steady :
      (w w' : World Hooked) (running : Map ℕ (Position M)) (i : ℕ) (p : Position M) (host : Text)
      (under : ℕ)
      → Steady w w' running
      → lookup i running ≡ some p
      → carried p ≡ some (host, under)
      → relay_generation host (relays_of w) ≤ relay_generation host (relays_of w')
  unfolding lookup
  Rising-Steady w w' [] i p host under steady e carries = cc
  Rising-Steady w w' ((j, q) ∷ rest) i p host under (first, others) e carries =
      elim (ℕ_discrete j i) [
        | yes here ↦
            let same : q ≡ p = ground (arith, e, here) in
            subst (NotFallen w w') (ap carried same ∙ carries) first
        | no other ↦
            Rising-Steady w w' rest i p host under others (ground (arith, e, other)) carries
      ]

  start-IsCareful :
      (p : Position M) (g : Goroutines M) → Cautious g.world p → IsCareful g → IsCareful (start p g)
  start-IsCareful p g c v = record {
    ordered = v.ordered;
    held = v.held;
    cautious = λ i q e. elim (ℕ_discrete g.next i) [
      | yes here ↦
          subst (Cautious g.world) (ground (arith, e, here, lookup-insert g.next i p g.running)) c
      | no other ↦ v.cautious i q (ground (arith, e, other, lookup-insert g.next i p g.running))
    ];
  }

  resume-IsCareful :
      (i : ℕ) (r : World Hooked × Position M) (g : Goroutines M)
      → Rising g r.0
      → IsWellFormed (relays_of r.0)
      → Goes g.world r
      → IsCareful g
      → IsCareful (resume i r g)
  resume-IsCareful i r g steady ordered (held, same, mine) v = record {
    ordered = ordered;
    held = held;
    cautious = λ j q e. elim (ℕ_discrete i j) [
      | yes here ↦
          subst (Cautious r.0) (ground (arith, e, here, lookup-insert i j r.1 g.running)) mine
      | no other ↦
          let before : lookup j g.running ≡ some q =
            ground (arith, e, other, lookup-insert i j r.1 g.running) in
          Cautious-kept g.world r.0 q (λ host. Released-same host g.world r.0 same)
            (λ host under carries. steady j q host under before carries) (v.cautious j q before)
    ];
  }

  -- The world changes, and no goroutine moves.
  world-IsCareful :
      (w' : World Hooked) (g : Goroutines M)
      → Rising g w'
      → IsWellFormed (relays_of w')
      → AtHeld w'.peers (relays_of w')
      → ((host : Text) → Released host g.world.peers w'.peers)
      → IsCareful g
      → IsCareful (record g { world = w' })
  world-IsCareful w' g steady ordered held released v = record {
    ordered = ordered;
    held = held;
    cautious = λ i q e.
        Cautious-kept g.world w' q released (λ host under carries. steady i q host under e carries)
          (v.cautious i q e);
  }

  -- Likewise where the user planes and the relays stay as they are.
  peers-IsCareful :
      (w' : World Hooked) (g : Goroutines M)
      → w'.peers ≡ g.world.peers
      → Rising g w'
      → IsCareful g
      → IsCareful (record g { world = w' })
  peers-IsCareful w' g same steady v =
      world-IsCareful w' g steady (subst (λ p. IsWellFormed p.relay_table) (sym same) v.ordered)
        (subst (λ p. AtHeld p p.relay_table) (sym same) v.held)
        (λ host. Released-same host g.world w' (ap (λ p. p.addrs) same)) v

  module _ (named : (ip : Ip) → is_blank (net.ip_string ip) ≡ false) where
    named-IsCareful :
        (now clock : ℕ) (node : Text) (ip : Ip) (g : Goroutines M)
        → Rising g (step g (names now clock node ip)).world
        → IsCareful g
        → IsCareful (step g (names now clock node ip))
    unfolding step
    named-IsCareful now clock node ip g steady v =
        let hook = some forget_consumer in
        let hooked : Peers Hooked = record g.world.peers { hooked = g.world.server } in
        let guarded =
          record_upf_addr-IsGuarded named hook now clock node ip hooked
            (record { indexed = v.ordered.indexed; authorised = v.held }) in
        world-IsCareful _ g steady
          (record_upf_addr-IsWellFormed hook now clock node ip hooked v.ordered) guarded.authorised
          (λ host. record_upf_addr-Released hook host now clock node ip hooked) v

    called-IsCareful :
        (i now : ℕ) (g : Goroutines M)
        → Rising g (step g (calls i now)).world
        → IsCareful g
        → IsCareful (step g (calls i now))
    unfolding step
    called-IsCareful i now g steady v = elim (Option-cases (lookup i g.running)) [
      | inl e ↦
          let same : step g (calls i now) ≡ g = ground (arith, e) in subst IsCareful (sym same) v
      | inr (p, e) ↦
          let r = advance M now p g.world in
          let same : step g (calls i now) ≡ resume i r g = ground (arith, e) in
          subst IsCareful (sym same) (
            resume-IsCareful i r g (subst (λ x. Rising g x.world) same steady)
              (advance-IsWellFormed now p g.world v.ordered)
              (advance-Goes now p g.world v.ordered v.held (v.cautious i p e)) v)
    ]

    step-IsCareful :
        (e : Event M) (g : Goroutines M)
        → Rising g (step g e).world
        → IsCareful g
        → IsCareful (step g e)
    unfolding step on_request on_response
    step-IsCareful (requested report none) g steady v = start-IsCareful _ g tt v
    step-IsCareful (requested report (some addr)) g steady v =
        elim (Bool-cases (pfcp.has_type session_report_request report)) [
          | inl typed ↦ start-IsCareful _ g (rw typed tt) v
          | inr other ↦ start-IsCareful _ g (rw other tt) v
        ]
    step-IsCareful (responded response) g steady v =
        elim (Bool-cases (pfcp.has_type session_report_response response)) [
          | inl typed ↦ start-IsCareful _ g (rw typed tt) v
          | inr other ↦ start-IsCareful _ g (rw other tt) v
        ]
    step-IsCareful (failed seid seq) g steady v = start-IsCareful _ g tt v
    step-IsCareful (calls i now) g steady v = called-IsCareful i now g steady v
    step-IsCareful (names now clock node ip) g steady v =
        named-IsCareful now clock node ip g steady v
    step-IsCareful (claims_smf ip) g steady v = peers-IsCareful _ g refl steady v
    step-IsCareful (sends msg dest event_data) g steady v = peers-IsCareful _ g refl steady v
    step-IsCareful (reads arrived) g steady v = peers-IsCareful _ g refl steady v
    step-IsCareful (ends tx) g steady v = peers-IsCareful _ g refl steady v

    run_from-IsCareful :
        (es : List (Event M)) (g : Goroutines M)
        → AllSteady g es
        → IsCareful g
        → IsCareful (run g es)
    unfolding run
    run_from-IsCareful [] g steady v = v
    run_from-IsCareful (e ∷ es) g (now_steady, later) v = run_from-IsCareful es (step g e) later (
        step-IsCareful e g
          (λ i p host under.
            Rising-Steady g.world (step g e).world g.running i p host under now_steady)
          v)

    not_panicked : (g : Goroutines M) (i : ℕ) → IsCareful g → lookup i g.running ≢ some panicked
    not_panicked g i v e = absurd (v.cautious i panicked e)

    pub run_keeps_to_held_addresses :
        (smf : Ip) (server : Hooked) (es : List (Event M))
        → AllSteady (idle smf server) es
        → let g = run (idle smf server) es in
          IsWellFormed (relays_of g.world)
          × IsGuarded g.world.peers
          × ((i : ℕ) → lookup i g.running ≢ some panicked)
    unfolding lookup
    run_keeps_to_held_addresses smf server es steady =
        let v = run_from-IsCareful es (idle smf server) steady (record {
          ordered = empty_table-IsWellFormed;
          held = λ a s h. cc;
          cautious = λ i p e. cc;
        }) in
        (
          v.ordered,
          record { indexed = v.ordered.indexed; authorised = v.held },
          λ i. not_panicked _ i v,
        )
