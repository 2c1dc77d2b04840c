-- ===== src/Goroutine/Attended.antt =====
-- Who attends to a claimed session report, in pfcp/handler/handler.go, however the handlers
-- interleave: a handler that has more to do with it, or a transaction of pfcp/udp that was started.
use upfadapter.Prelude.{
  ap, ◌∙◌, ℕ, ◌<◌, ◌≡◌, sym, subst, true, some, List, [], ◌∷◌, ◌⊎◌, inl, inr, Option-cases,
  ℕ_discrete, nat_key, text_key, lookup, contains, lookup-insert, insert, arith,
}
use upfadapter.Net.{Net, Ip, UdpAddr}
use upfadapter.Pfcp.{Pfcp}
use upfadapter.Relay.WellFormed.{IsWellFormed, empty_table-IsWellFormed}
use upfadapter.Peers.{Peers}
use upfadapter.Peers.Keeps.{record_upf_addr_keeps}
use upfadapter.Peers.Relays.{record_upf_addr-IsWellFormed}
use upfadapter.Udp.Tables.{forget_consumer}
use upfadapter.Udp.Started.{HasStarted, HasStarted-send_pfcp, HasStarted-read_pfcp_message}
use upfadapter.Report.{World, relays_of}
use upfadapter.Adapter.{Hooked}
use upfadapter.Goroutine.{Position, advance}
use upfadapter.Goroutine.Interleaved.{
  Goroutines, Event, requested, responded, failed, calls, names, claims_smf, sends, reads, ends,
  idle, start, resume, step, run,
}
use upfadapter.Goroutine.Kept.{
  released-HasStarted, WasThere, released-WasThere, end_transaction-HasStarted, HasStarted-advance,
  advance-IsWellFormed,
}
use upfadapter.Smf.{smf_addr}
use upfadapter.Goroutine.Heading.{
  Claimed, Claimed-later, Claimed-first, smf_addr-set_smf_addr, Heads-advance, advance-smf,
  Heads-on_request, Heads-on_response,
}
use upfadapter.Goroutine.Passing.{Holds, Heads, Relays, advance-Passes}

module _ {M : Type 0} ⦃net : Net⦄ ⦃pfcp : Pfcp M⦄ where
  -- A goroutine still has the relay under `k` to send, to renumber, to return, to refuse or to forget, or
  -- a transaction was started that carries a session report under that number to such an address.
  abbrev pub Attended : (UdpAddr → Type 0) → ℕ → Goroutines M → Type 0
  Attended IsSmf k g =
      ((i : ℕ) × (p : Position M) × (lookup i g.running ≡ some p) × Holds k p)
      ⊎ HasStarted (Relays M IsSmf k) g.world.server

module _ {M : Type 0} ⦃net : Net⦄ ⦃pfcp : Pfcp M⦄ (IsSmf : UdpAddr → Type 0) where
  record IsTended (g : Goroutines M) : Type 0 where
    ordered : IsWellFormed (relays_of g.world)
    attended : (k : ℕ) → contains k (relays_of g.world).relays ≡ true → Attended IsSmf k g
    numbered : (i : ℕ) (p : Position M) → lookup i g.running ≡ some p → i < g.next
    smf : (a : UdpAddr) → smf_addr g.world.smf ≡ some a → IsSmf a
    heads : (i : ℕ) (p : Position M) → lookup i g.running ≡ some p → Heads IsSmf p

  start-IsTended :
      (p : Position M) (g : Goroutines M) → Heads IsSmf p → IsTended g → IsTended (start p g)
  start-IsTended p g to v = record {
    ordered = v.ordered;
    attended = λ k there. elim (v.attended k there) [
      | inl (i, q, e, holds) ↦
          inl (i, q, ground (arith, e, v.numbered i q e, lookup-insert g.next i p g.running), holds)
      | inr began ↦ inr began
    ];
    numbered = λ i q e. elim (ℕ_discrete g.next i) [
      | yes here ↦ omega arith
      | no other ↦
          let older =
            v.numbered i q (ground (arith, e, other, lookup-insert g.next i p g.running)) in
          omega arith
    ];
    smf = v.smf;
    heads = λ i q e. elim (ℕ_discrete g.next i) [
      | yes here ↦
          let alike : p ≡ q = ground (arith, e, here, lookup-insert g.next i p g.running) in
          subst (Heads IsSmf) alike to
      | no other ↦ v.heads i q (ground (arith, e, other, lookup-insert g.next i p g.running))
    ];
  }

  resume-IsTended :
      (i now : ℕ) (p : Position M) (g : Goroutines M)
      → lookup i g.running ≡ some p
      → IsTended g
      → IsTended (resume i (advance M now p g.world) g)
  resume-IsTended i now p g here v =
      let r = advance M now p g.world in
      let mine : lookup i (insert i r.1 g.running) ≡ some r.1 =
        ground (arith, lookup-insert i i r.1 g.running) in
      record {
        ordered = advance-IsWellFormed now p g.world v.ordered;
        attended = λ k there.
            elim (advance-Passes IsSmf k g.world now p v.ordered.indexed (v.heads i p here) there) [
              | inl (inl holds) ↦ inl (i, r.1, mine, holds)
              | inl (inr began) ↦ inr began
              | inr (before, other) ↦ elim (v.attended k before) [
                | inr began ↦ inr (HasStarted-advance (Relays M IsSmf k) now p g.world began)
                | inl (j, q, e, holds) ↦ elim (ℕ_discrete i j) [
                  | yes same ↦
                      let alike : q ≡ p = ground (arith, e, here, same) in
                      absurd (other (subst (Holds k) alike holds))
                  | no apart ↦
                      inl (j, q, ground (arith, e, apart, lookup-insert i j r.1 g.running), holds)
                ]
              ]
            ];
        numbered = λ j q e. elim (ℕ_discrete i j) [
          | yes same ↦ subst (λ x. x < g.next) same (v.numbered i p here)
          | no apart ↦ v.numbered j q (ground (arith, e, apart, lookup-insert i j r.1 g.running))
        ];
        smf = λ a e. v.smf a (ap smf_addr (sym (advance-smf IsSmf now p g.world)) ∙ e);
        heads = λ j q e. elim (ℕ_discrete i j) [
          | yes same ↦
              let alike : r.1 ≡ q = ground (arith, e, same, lookup-insert i j r.1 g.running) in
              subst (Heads IsSmf) alike (Heads-advance IsSmf now p g.world v.smf (v.heads i p here))
          | no apart ↦ v.heads j q (ground (arith, e, apart, lookup-insert i j r.1 g.running))
        ];
      }

  -- The world changes, and no goroutine moves.
  world-IsTended :
      (w' : World Hooked) (g : Goroutines M)
      → IsWellFormed (relays_of w')
      → ((a : UdpAddr) → smf_addr w'.smf ≡ some a → IsSmf a)
      → ((k : ℕ)
          → contains k (relays_of w').relays ≡ true
          → contains k (relays_of g.world).relays ≡ true)
      → ((k : ℕ)
          → HasStarted (Relays M IsSmf k) g.world.server
          → HasStarted (Relays M IsSmf k) w'.server)
      → IsTended g
      → IsTended (record g { world = w' })
  world-IsTended w' g ordered legit before stays v = record {
    ordered = ordered;
    attended = λ k there. elim (v.attended k (before k there)) [
      | inl held ↦ inl held
      | inr began ↦ inr (stays k began)
    ];
    numbered = v.numbered;
    smf = legit;
    heads = v.heads;
  }

  step-IsTended :
      (e : Event M) (g : Goroutines M)
      → ((a : UdpAddr) → Claimed a (e ∷ []) → IsSmf a)
      → IsTended g
      → IsTended (step g e)
  unfolding step
  step-IsTended (requested report addr) g known v =
      start-IsTended _ g (Heads-on_request IsSmf report addr) v
  step-IsTended (responded response) g known v =
      start-IsTended _ g (Heads-on_response IsSmf response) v
  step-IsTended (failed seid seq) g known v = start-IsTended _ g tt v
  step-IsTended (calls i now) g known v = elim (Option-cases (lookup i g.running)) [
    | inl e ↦ let same : step g (calls i now) ≡ g = ground (arith, e) in subst IsTended (sym same) v
    | inr (p, e) ↦
        let same : step g (calls i now) ≡ resume i (advance M now p g.world) g =
          ground (arith, e) in
        subst IsTended (sym same) (resume-IsTended i now p g e v)
  ]
  step-IsTended (names now clock node ip) g known v =
      let hook = some forget_consumer in
      let hooked : Peers Hooked = record g.world.peers { hooked = g.world.server } in
      world-IsTended _ g (record_upf_addr-IsWellFormed hook now clock node ip hooked v.ordered)
        v.smf
        (λ k there.
          (record_upf_addr_keeps hook now clock
              (WasThere k (contains k (relays_of g.world).relays ≡ true))
              (λ n a p. released-WasThere k _ n a clock p) (λ m p h. h) (λ m p h. h) node ip hooked
              (v.ordered.indexed, λ h. h)).1
            there)
        (λ k began.
          record_upf_addr_keeps hook now clock (λ p. HasStarted (Relays M IsSmf k) p.hooked)
            (λ n a p. released-HasStarted (Relays M IsSmf k) n a clock p) (λ m p h. h) (λ m p h. h)
            node ip hooked began)
        v
  step-IsTended (claims_smf ip) g known v =
      world-IsTended _ g v.ordered
        (λ a e. elim (smf_addr-set_smf_addr ip g.world.smf a e) [
          | inl before ↦ v.smf a before
          | inr now ↦ known a (inl now)
        ])
        (λ k h. h) (λ k h. h) v
  step-IsTended (sends msg dest event_data) g known v =
      world-IsTended _ g v.ordered v.smf (λ k h. h)
        (λ k. HasStarted-send_pfcp (Relays M IsSmf k) msg dest event_data g.world.server) v
  step-IsTended (reads arrived) g known v =
      world-IsTended _ g v.ordered v.smf (λ k h. h)
        (λ k. HasStarted-read_pfcp_message (Relays M IsSmf k) M arrived g.world.server) v
  step-IsTended (ends tx) g known v =
      world-IsTended _ g v.ordered v.smf (λ k h. h)
        (λ k. end_transaction-HasStarted (Relays M IsSmf k) tx g.world.server) v

  run_from-IsTended :
      (es : List (Event M)) (g : Goroutines M)
      → ((a : UdpAddr) → Claimed a es → IsSmf a)
      → IsTended g
      → IsTended (run g es)
  unfolding run
  run_from-IsTended [] g known v = v
  run_from-IsTended (e ∷ es) g known v =
      run_from-IsTended es (step g e) (λ a h. known a (Claimed-later a e es h))
        (step-IsTended e g (λ a h. known a (Claimed-first a e es h)) v)

module _ {M : Type 0} ⦃net : Net⦄ ⦃pfcp : Pfcp M⦄ where
  -- An address that the SMF had at first, or that one of the events makes its own.
  abbrev pub WasSmf : Ip → List (Event M) → UdpAddr → Type 0
  WasSmf smf es a = (smf_addr smf ≡ some a) ⊎ Claimed a es

  pub run_strands_no_relay :
      (smf : Ip) (server : Hooked) (es : List (Event M)) (k : ℕ)
      → contains k (relays_of (run (idle smf server) es).world).relays ≡ true
      → Attended (WasSmf smf es) k (run (idle smf server) es)
  unfolding lookup
  run_strands_no_relay smf server es k there =
      let v =
        run_from-IsTended (WasSmf smf es) es (idle smf server) (λ a h. inr h)
          (record {
            ordered = empty_table-IsWellFormed;
            attended = λ j held. cc;
            numbered = λ i p e. cc;
            smf = λ a e. inl e;
            heads = λ i p e. cc;
          }) in
      v.attended k there
