-- ===== src/Report/Handling.antt =====
-- What becomes of a session report of a user plane that the SMF named, in pfcp/handler/handler.go.
use upfadapter.Prelude.{
  ℕ, ◌≡◌, refl, ap, ◌∙◌, true, false, Option, none, some, List, ◌∷◌, ite, ◌⊎◌, inl, inr, ℕ_discrete,
  nat_key, lookup, contains, arith, if_pos,
}
use upfadapter.Net.{Net, UdpAddr}
use upfadapter.Pfcp.{Pfcp, session_report_request}
use upfadapter.Peers.{is_known_upf_addr}
use upfadapter.Smf.{smf_addr}
use upfadapter.Relay.{
  RelayTable, Claim, fresh, retransmission, peer_released, sequence_exhausted, nil_dereference,
  relay_generation, relay_report_sequence, sweep_relays_locked,
}
use upfadapter.Relay.Index.{IsIndexed}
use upfadapter.Relay.Search.{IsOutstanding}
use upfadapter.Relay.Claims.{ClaimPost, new_relay, relay_report_sequence-ClaimPost}
use upfadapter.Udp.Tables.{Transaction, Server, table_of}
use upfadapter.Report.{
  EventData, World, relays_of, with_relays, reject_session_report, relay_loop, relay_send_attempts,
  relay_report, handle_pfcp_session_report_request,
}
use upfadapter.Report.Outcomes.{
  IsOpen, Encodes, IsRelayed, IsRefused, reject_session_report-absorbs,
}
use upfadapter.Report.Relaying.{relay_loop-Done}

module _ {M H : Type 0} ⦃net : Net⦄ ⦃pfcp : Pfcp M⦄ (report : M) (smf addr : UdpAddr) (now : ℕ)
    (old : List (Transaction EventData)) where
  -- The report is relayed to the SMF by the one transaction that was started, and its relay is the
  -- one entry that is new.
  abbrev pub Relayed : RelayTable → World H → Type 0
  Relayed t w' =
      (seq : ℕ) × (tx : Transaction EventData) × ((k : ℕ)
        → lookup k (relays_of w').relays
          ≡ ite (ℕ_discrete seq k) (some (new_relay addr (pfcp.sequence report) now))
              (lookup k t.relays))
      × (pfcp.marshal (pfcp.set_sequence seq report) ≡ some tx.send_msg)
      × (tx.dest_addr ≡ smf)
      × IsOpen (tx ∷ old) w'

  -- The user plane's number is answered at its address, and no relay is new.
  abbrev pub Refused : RelayTable → World H → Type 0
  Refused t w' =
      (socket : Server EventData) × (w'.server ≡ some socket)
      × (contains (pfcp.sequence report) (table_of (net.udp_string addr) socket) ≡ true)
      × ((k : ℕ) → lookup k (relays_of w').relays ≡ lookup k t.relays)

  -- What a handled report leaves, `t` being the swept tables.
  abbrev pub Handled : RelayTable → World H → World H → Type 0
  Handled t w w' =
      ((k : ℕ) × IsOutstanding addr (pfcp.sequence report) now t k × (w' ≡ with_relays t w))
      ⊎ (((k : ℕ) → ¬ IsOutstanding addr (pfcp.sequence report) now t k)
          × (Relayed t w' ⊎ Refused t w'))

  Handled-fresh :
      (c : ℕ) (t t1 : RelayTable) (w' : World H)
      → contains c t.relays ≡ false
      → ((k : ℕ)
          → lookup k t1.relays
            ≡ ite
                (ℕ_discrete c k)
                (some (new_relay addr (pfcp.sequence report) now))
                (lookup k t.relays))
      → (IsRelayed report smf addr old c t1 w' ⊎ IsRefused report smf addr old c t1 w')
      → Relayed t w' ⊎ Refused t w'
  Handled-fresh c t t1 w' free looks (inl d) = inl (
    d.seq,
    d.tx,
    (λ k. ground (arith, d.looks k, looks k, looks c, d.held, free)),
    d.carries,
    d.goes,
    d.opened,
  )
  Handled-fresh c t t1 w' free looks (inr d) =
      inr (d.socket, d.there, d.absorbs, λ k. ground (arith, d.looks k, looks k, free))

  abbrev after_claim : World H → RelayTable × Claim → Option (World H)
  after_claim w r =
      let w1 = with_relays r.0 w in
      elim r.1 [
        | peer_released ↦ some w1
        | nil_dereference ↦ none
        | sequence_exhausted ↦
            some (reject_session_report M (pfcp.seid report) (pfcp.sequence report) addr w1).0
        | retransmission seq ↦ some w1
        | fresh seq ↦ some (relay_loop M relay_send_attempts report smf addr seq w1)
      ]

  module _ (laws : Encodes M) where
    after_claim-Handled :
        (w : World H) (t : RelayTable) (r : RelayTable × Claim)
        → IsOpen old w
        → ClaimPost addr (pfcp.sequence report) now t r
        → (w' : World H) × (after_claim w r ≡ some w') × Handled t w w'
    after_claim-Handled w t (t', fresh c) o (absent_now, free, looks, last) =
        let w1 = with_relays t' w in
        let o1 : IsOpen old w1 = record {
          socket = o.socket;
          there = o.there;
          listens = o.listens;
          separate = o.separate;
          began = o.began;
        } in
        let done =
          relay_loop-Done report smf addr old laws relay_send_attempts c
            (new_relay addr (pfcp.sequence report) now) w1 o1
            (looks c ∙ if_pos (ℕ_discrete c c) refl _ _) in
        (
          relay_loop M relay_send_attempts report smf addr c w1,
          refl,
          inr (absent_now, Handled-fresh c t t' _ free.unused looks done),
        )
    after_claim-Handled w t (t', retransmission k) o (outstanding, same) =
        (with_relays t' w, refl, inl (k, outstanding, ap (λ u. with_relays u w) same))
    after_claim-Handled w t (t', sequence_exhausted) o (absent_now, full, same) =
        let w1 = with_relays t' w in
        let (s', sent, v, absorbs) =
          reject_session_report-absorbs report smf addr old laws (pfcp.seid report)
            (pfcp.sequence report) w1
            (record {
              socket = o.socket;
              there = o.there;
              listens = o.listens;
              separate = o.separate;
              began = o.began;
            }) in
        (
          record w1 { server = some s' },
          ap some sent,
          inr (absent_now, inr (s', refl, absorbs.0, λ k. ap (λ u. lookup k u.relays) same)),
        )
    after_claim-Handled w t (t', peer_released) o post = elim post [ ]
    after_claim-Handled w t (t', nil_dereference) o post = elim post [ ]

    -- With the relays indexed, an open socket whose tables no two consumers share, and messages that
    -- can be encoded, a report that was authorised under the current count of releases is never left
    -- without an answer to come, and the handler returns. While a live relay of it is in the swept
    -- tables, nothing is sent and nothing else changes. Otherwise it is relayed to the SMF by exactly
    -- one transaction, under the number of its one new relay; or its number is answered at its user
    -- plane, so that copies are absorbed there, and no relay of it is left behind.
    pub relay_report-Handled :
        (w : World H)
        → IsIndexed (relays_of w)
        → IsOpen old w
        → (w' : World H) × (relay_report M report smf addr
              (relay_generation (net.ip_string addr.ip) (relays_of w))
              now
              w
            ≡ some w')
          × Handled (sweep_relays_locked now (relays_of w)) w w'
    unfolding relay_report
    relay_report-Handled w v o =
        after_claim-Handled w (sweep_relays_locked now (relays_of w))
          (relay_report_sequence addr (pfcp.sequence report) now
            (relay_generation (net.ip_string addr.ip) (relays_of w)) (relays_of w))
          o
          (relay_report_sequence-ClaimPost addr (pfcp.sequence report) now (relays_of w)
            (relay_generation (net.ip_string addr.ip) (relays_of w)) v refl)

    -- With the relays indexed, an open socket whose tables no two consumers share, messages that can
    -- be encoded and rejections that are responses with the number they are given, the handler of a
    -- session report request from a user plane that the SMF named returns, if the SMF's address is
    -- known. While a live relay of the report is in the swept tables, the sweep is all that changes.
    -- Otherwise the report is relayed to the SMF by exactly one new transaction, under the number of
    -- its one new relay; or its number is answered at its user plane, and no relay is new.
    pub handle_pfcp_session_report_request-Handled :
        (w : World H) (checked : ℕ)
        → IsIndexed (relays_of w)
        → IsOpen old w
        → pfcp.has_type session_report_request report ≡ true
        → is_known_upf_addr addr.ip checked w.peers ≡ true
        → smf_addr w.smf ≡ some smf
        → (w' : World H) × (handle_pfcp_session_report_request M report (some addr) checked now w
            ≡ some w')
          × Handled (sweep_relays_locked now (relays_of w)) w w'
    unfolding handle_pfcp_session_report_request
    handle_pfcp_session_report_request-Handled w checked v o typed known there =
        let (w', e, handled) = relay_report-Handled w v o in
        (w', simp (typed, known, there, e), handled)
