-- ===== src/Report/Kept.antt =====
-- The handlers of session reports (pfcp/handler/handler.go) and the relay tables of config/config.go.
use upfadapter.Prelude.{
  if◌then◌else◌, Bool, ℕ, zero, suc, ◌≡◌, sym, subst, true, false, Option, none, some, inl, inr,
  Bool-cases, Option-cases, arith,
}
use upfadapter.Net.{Net, UdpAddr}
use upfadapter.Pfcp.{Pfcp, session_report_request, session_report_response}
use upfadapter.Relay.{
  relay_generation, relay_report_sequence, renumber_report_relay, take_report_relay,
  forget_report_relay, fresh, retransmission, Renumbered, Claim, peer_released, sequence_exhausted,
  nil_dereference, renumbered, not_held, exhausted,
}
use upfadapter.Relay.WellFormed.{
  IsWellFormed, relay_report_sequence-IsWellFormed, renumber_report_relay-IsWellFormed,
  take_report_relay-IsWellFormed, forget_report_relay-IsWellFormed,
}
use upfadapter.Peers.{is_known_upf_addr}
use upfadapter.Udp.Tables.{SendError, duplicate_sequence}
use upfadapter.Smf.{smf_addr}
use upfadapter.Report.{
  World, relays_of, with_relays, relay_send_attempts, send, reject_session_report,
  refuse_and_release, relay_unanswered, relay_loop, relay_report, relayed_report,
  handle_pfcp_session_report_request, handle_pfcp_session_report_response,
}

-- What holds of each branch holds of the result.
of_renumbered :
    {W : Type 0} (P : W → Type 0) (result : Renumbered) (x y : W) (f : ℕ → W)
    → P x
    → P y
    → ((next : ℕ) → P (f next))
    → P (elim result [ not_held ↦ x | exhausted ↦ y | renumbered next ↦ f next ])
of_renumbered P not_held x y f hx hy hf = hx
of_renumbered P exhausted x y f hx hy hf = hy
of_renumbered P (renumbered next) x y f hx hy hf = hf next

of_send :
    {W : Type 0} (P : W → Type 0) (result : Option SendError) (x y z : W)
    → P x
    → P y
    → P z
    → P (elim result [ none ↦ x | some duplicate_sequence ↦ y | some _ ↦ z ])
of_send P none x y z hx hy hz = hx
of_send P (some duplicate_sequence) x y z hx hy hz = hy
of_send P (some _) x y z hx hy hz = hz

module _ (M : Type 0) {H : Type 0} ⦃net : Net⦄ ⦃pfcp : Pfcp M⦄ where
  abbrev pub RelaysKept : World H → Type 0
  RelaysKept w = IsWellFormed (relays_of w)

  refuse_and_release-RelaysKept :
      (seid upf_seq : ℕ) (addr : UdpAddr) (seq : ℕ) (w : World H)
      → RelaysKept w
      → RelaysKept (refuse_and_release M seid upf_seq addr seq w)
  unfolding refuse_and_release reject_session_report
  refuse_and_release-RelaysKept seid upf_seq addr seq w v =
      forget_report_relay-IsWellFormed seq (relays_of w) v

  pub relay_unanswered-RelaysKept :
      (seid seq now : ℕ) (w : World H)
      → RelaysKept w
      → RelaysKept (relay_unanswered M seid seq now w)
  unfolding relay_unanswered
  relay_unanswered-RelaysKept seid seq now w v =
      let (t, taken) = take_report_relay seq now (relays_of w) in
      let result = relay_unanswered M seid seq now w in
      let v' = take_report_relay-IsWellFormed seq now (relays_of w) v in
      elim (Option-cases taken) [
        | inl e ↦
            let same : result ≡ with_relays t w = ground (arith, e) in
            subst RelaysKept (sym same) v'
        | inr ((addr, upf_seq), e) ↦
            let same : result ≡ refuse_and_release M seid upf_seq addr seq (with_relays t w) =
              ground (arith, e) in
            subst RelaysKept (sym same)
              (refuse_and_release-RelaysKept seid upf_seq addr seq (with_relays t w) v')
      ]

  pub handle_pfcp_session_report_response-RelaysKept :
      (response : M) (now : ℕ) (w : World H)
      → RelaysKept w
      → RelaysKept (handle_pfcp_session_report_response M response now w)
  unfolding handle_pfcp_session_report_response
  handle_pfcp_session_report_response-RelaysKept response now w v =
      let seq = pfcp.sequence response in
      let (t, taken) = take_report_relay seq now (relays_of w) in
      let result = handle_pfcp_session_report_response M response now w in
      let v' = take_report_relay-IsWellFormed seq now (relays_of w) v in
      elim (Bool-cases (pfcp.has_type session_report_response response)) [
        | inr other ↦ let same : result ≡ w = ground (arith, other) in subst RelaysKept (sym same) v
        | inl has ↦ elim (Option-cases taken) [
          | inl e ↦
              let same : result ≡ with_relays t w = ground (arith, has, e) in
              subst RelaysKept (sym same) v'
          | inr ((addr, upf_seq), e) ↦
              let same : relays_of result ≡ forget_report_relay seq t = ground (arith, has, e) in
              subst IsWellFormed (sym same) (forget_report_relay-IsWellFormed seq t v')
        ]
      ]

  pub relay_loop-RelaysKept :
      (attempts : ℕ) (report : M) (smf addr : UdpAddr) (seq : ℕ) (w : World H)
      → RelaysKept w
      → RelaysKept (relay_loop M attempts report smf addr seq w)
  unfolding relay_loop
  relay_loop-RelaysKept zero report smf addr seq w v =
      refuse_and_release-RelaysKept (pfcp.seid report) (pfcp.sequence report) addr seq w v
  relay_loop-RelaysKept (suc attempts) report smf addr seq w v =
      let (w1, err) =
        send M (pfcp.set_sequence seq report) smf (relayed_report (pfcp.seid report)) w in
      let (t, result) = renumber_report_relay seq (relays_of w1) in
      let w2 = with_relays t w1 in
      let v2 = renumber_report_relay-IsWellFormed seq (relays_of w) v in
      of_send RelaysKept err _ _ _ v
        (of_renumbered RelaysKept result _ _ _ v2
          (refuse_and_release-RelaysKept (pfcp.seid report) (pfcp.sequence report) addr seq w2 v2)
          (λ next. relay_loop-RelaysKept attempts report smf addr next w2 v2))
        (refuse_and_release-RelaysKept (pfcp.seid report) (pfcp.sequence report) addr seq w1 v)

  -- A handler that did not panic.
  abbrev KeptIf : Option (World H) → Type 0
  KeptIf none = Unit {0}
  KeptIf (some w) = RelaysKept w

  if_kept : (b : Bool) (x y : Option (World H)) → KeptIf x → KeptIf y → KeptIf (if b then x else y)
  if_kept true x y hx hy = hx
  if_kept false x y hx hy = hy

  option_kept :
      {A : Type 0} (o : Option A) (x : Option (World H)) (f : A → Option (World H))
      → KeptIf x
      → ((a : A) → KeptIf (f a))
      → KeptIf (elim o [ none ↦ x | some a ↦ f a ])
  option_kept none x f hx hf = hx
  option_kept (some a) x f hx hf = hf a

  of_claim :
      (claim : Claim) (w : World H) (x y : Option (World H)) (f : ℕ → World H)
      → KeptIf x
      → KeptIf y
      → RelaysKept w
      → ((seq : ℕ) → RelaysKept (f seq))
      → KeptIf (elim claim [
        | peer_released ↦ x
        | nil_dereference ↦ none
        | sequence_exhausted ↦ y
        | retransmission seq ↦ some w
        | fresh seq ↦ some (f seq)
      ])
  of_claim peer_released w x y f hx hy hw hf = hx
  of_claim nil_dereference w x y f hx hy hw hf = tt
  of_claim sequence_exhausted w x y f hx hy hw hf = hy
  of_claim (retransmission seq) w x y f hx hy hw hf = hw
  of_claim (fresh seq) w x y f hx hy hw hf = hf seq

  relay_report-KeptIf :
      (report : M) (smf addr : UdpAddr) (authorised_under now : ℕ) (w : World H)
      → RelaysKept w
      → KeptIf (relay_report M report smf addr authorised_under now w)
  unfolding relay_report reject_session_report
  relay_report-KeptIf report smf addr authorised_under now w v =
      let upf_seq = pfcp.sequence report in
      let (t, claim) = relay_report_sequence addr upf_seq now authorised_under (relays_of w) in
      let w1 = with_relays t w in
      let v1 =
        relay_report_sequence-IsWellFormed addr upf_seq now authorised_under (relays_of w) v in
      of_claim claim w1 _ _ _ v1 v1 v1
        (λ seq. relay_loop-RelaysKept relay_send_attempts report smf addr seq w1 v1)

  pub handle_pfcp_session_report_request-RelaysKept :
      (report : M) (addr : UdpAddr) (checked now : ℕ) (w w' : World H)
      → handle_pfcp_session_report_request M report (some addr) checked now w ≡ some w'
      → RelaysKept w
      → RelaysKept w'
  unfolding handle_pfcp_session_report_request reject_session_report
  handle_pfcp_session_report_request-RelaysKept report addr checked now w w' e v =
      let under = relay_generation (net.ip_string addr.ip) (relays_of w) in
      subst KeptIf e (
        if_kept (pfcp.has_type session_report_request report) _ _
          (if_kept (is_known_upf_addr addr.ip checked w.peers) _ _
            (option_kept (smf_addr w.smf) _ _ v
              (λ smf. relay_report-KeptIf report smf addr under now w v))
            v)
          v)
