-- ===== src/Report/Relaying.antt =====
-- The loop of HandlePfcpSessionReportRequest in pfcp/handler/handler.go, which sends a claimed
-- report under one number after another.
use upfadapter.Prelude.{
  ℕ, zero, suc, ◌≡◌, refl, if_pos, sym, ap, subst, ◌∙◌, false, Option, none, some, List, ◌∷◌, ite,
  ◌⊎◌, inl, inr, ℕ_discrete, nat_key, lookup, contains, arith,
}
use upfadapter.Net.{Net, UdpAddr}
use upfadapter.Pfcp.{Pfcp}
use upfadapter.Relay.{
  ReportRelay, RelayTable, renumber_report_relay, Renumbered, renumbered, not_held, exhausted,
}
use upfadapter.Relay.Answer.{RenumberPost, renumber_report_relay-RenumberPost}
use upfadapter.Udp.{new_transaction}
use upfadapter.Udp.Tables.{Transaction, SendError, duplicate_sequence}
use upfadapter.Udp.Sent.{new_transaction-carries}
use upfadapter.Report.{
  EventData, relayed_report, World, relays_of, with_relays, refuse_and_release, relay_loop,
}
use upfadapter.Report.Outcomes.{
  IsOpen, Encodes, IsRelayed, IsRefused, send-Attempted, IsRefused-refuse_and_release,
}

module _ {M H : Type 0} ⦃net : Net⦄ ⦃pfcp : Pfcp M⦄ (report : M) (smf addr : UdpAddr)
    (old : List (Transaction EventData)) (laws : Encodes M) where
  -- The loop after its first attempt to send.
  abbrev after_renumber : ℕ → ℕ → World H → RelayTable × Renumbered → World H
  after_renumber attempts relay_seq w r =
      let w2 = with_relays r.0 w in
      elim r.1 [
        | not_held ↦ w2
        | exhausted ↦
            refuse_and_release M (pfcp.seid report) (pfcp.sequence report) addr relay_seq w2
        | renumbered next ↦ relay_loop M attempts report smf addr next w2
      ]

  abbrev after_send : ℕ → ℕ → World H × Option SendError → World H
  after_send attempts relay_seq r = elim r.1 [
    | none ↦ r.0
    | some duplicate_sequence ↦
        after_renumber attempts relay_seq r.0 (renumber_report_relay relay_seq (relays_of r.0))
    | some _ ↦ refuse_and_release M (pfcp.seid report) (pfcp.sequence report) addr relay_seq r.0
  ]

  -- What the loop may do, started at this number with these tables.
  abbrev pub Done : ℕ → RelayTable → World H → Type 0
  Done relay_seq t w' =
      IsRelayed report smf addr old relay_seq t w' ⊎ IsRefused report smf addr old relay_seq t w'

  -- The rest of the loop after a renumbering, as seen from before it.
  Done-renumbered :
      (relay_seq next : ℕ) (r : ReportRelay) (t t' : RelayTable) (w' : World H)
      → lookup relay_seq t.relays ≡ some r
      → contains next t.relays ≡ false
      → ((k : ℕ)
          → lookup k t'.relays
            ≡ ite
                (ℕ_discrete next k)
                (some r)
                (ite (ℕ_discrete relay_seq k) none (lookup k t.relays)))
      → Done next t' w'
      → Done relay_seq t w'
  Done-renumbered relay_seq next r t t' w' held free looks (inl d) = inl (record {
    seq = d.seq;
    relay = d.relay;
    tx = d.tx;
    held = ground (arith, held, looks next, d.held);
    looks = λ k. ground (arith, d.looks k, looks k, free, looks next, d.held);
    carries = d.carries;
    goes = d.goes;
    opened = d.opened;
  })
  Done-renumbered relay_seq next r t t' w' held free looks (inr d) = inr (record {
    socket = d.socket;
    there = d.there;
    separate = d.separate;
    absorbs = d.absorbs;
    looks = λ k. ground (arith, d.looks k, looks k, free);
  })

  after_renumber-Done :
      (attempts relay_seq : ℕ) (r : ReportRelay) (w : World H) (result : RelayTable × Renumbered)
      → ((next : ℕ) (w2 : World H)
          → IsOpen old w2
          → lookup next (relays_of w2).relays ≡ some r
          → Done next (relays_of w2) (relay_loop M attempts report smf addr next w2))
      → IsOpen old w
      → lookup relay_seq (relays_of w).relays ≡ some r
      → RenumberPost relay_seq (relays_of w) result
      → Done relay_seq (relays_of w) (after_renumber attempts relay_seq w result)
  after_renumber-Done attempts relay_seq r w (t, not_held) rest o held post =
      absurd (ground (arith, held, post.0))
  after_renumber-Done attempts relay_seq r w (t, exhausted) rest o held post =
      let d =
        IsRefused-refuse_and_release report smf addr old laws relay_seq (with_relays t w) (record {
          socket = o.socket;
          there = o.there;
          listens = o.listens;
          separate = o.separate;
          began = o.began;
        }) in
      subst (λ u. Done relay_seq u (after_renumber attempts relay_seq w (t, exhausted))) post.1
        (inr d)
  after_renumber-Done attempts relay_seq r w (t, renumbered next) rest o held
        (r', held', free, looks) =
      let same : r' ≡ r = ground (arith, held, held') in
      Done-renumbered relay_seq next r' (relays_of w) t _ held' free.unused looks (
        rest next (with_relays t w)
          (record {
            socket = o.socket;
            there = o.there;
            listens = o.listens;
            separate = o.separate;
            began = o.began;
          })
          (looks next ∙ if_pos (ℕ_discrete next next) refl _ _ ∙ ap some same))

  pub relay_loop-Done :
      (attempts relay_seq : ℕ) (r : ReportRelay) (w : World H)
      → IsOpen old w
      → lookup relay_seq (relays_of w).relays ≡ some r
      → Done relay_seq (relays_of w) (relay_loop M attempts report smf addr relay_seq w)
  unfolding relay_loop
  relay_loop-Done zero relay_seq r w o held =
      inr (IsRefused-refuse_and_release report smf addr old laws relay_seq w o)
  relay_loop-Done (suc attempts) relay_seq r w o held =
      let msg = pfcp.set_sequence relay_seq report in
      let event_data = relayed_report (pfcp.seid report) in
      let (bytes, s', err, e, sent, (v, listens, waits, how)) =
        send-Attempted report smf addr old laws msg smf event_data w o in
      let tx = (new_transaction msg bytes smf event_data o.socket).1 in
      let carries = new_transaction-carries msg bytes smf event_data o.socket in
      let w1 : World H = record w { server = some s' } in
      let step = ap (after_send attempts relay_seq) sent in
      elim how [
        | inl (went, began) ↦
            subst (Done relay_seq (relays_of w))
              (sym (step ∙ ap (λ x. after_send attempts relay_seq (w1, x)) went))
              (inl (record {
                seq = relay_seq;
                relay = r;
                tx = tx;
                held = held;
                looks = λ k. ground (arith, held);
                carries = e ∙ ap some (sym carries.0);
                goes = carries.1;
                opened = record {
                  socket = s';
                  there = refl;
                  listens = listens ∙ o.listens;
                  separate = v;
                  began = began ∙ ap (λ x. tx ∷ x) o.began;
                };
              }))
        | inr (busy, began, taken) ↦
            subst (Done relay_seq (relays_of w))
              (sym (step ∙ ap (λ x. after_send attempts relay_seq (w1, x)) busy))
              (after_renumber-Done attempts relay_seq r w1
                (renumber_report_relay relay_seq (relays_of w1))
                (λ next w2 o2 held2. relay_loop-Done attempts next r w2 o2 held2)
                (record {
                  socket = s';
                  there = refl;
                  listens = listens ∙ o.listens;
                  separate = v;
                  began = began ∙ o.began;
                })
                held (renumber_report_relay-RenumberPost relay_seq (relays_of w1)))
      ]
