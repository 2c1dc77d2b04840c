-- ===== src/Goroutine/Heading.antt =====
-- Where the handler of a session report request of pfcp/handler/handler.go sends the report: the
-- addresses that config/config.go had of the SMF.
use upfadapter.Prelude.{
  ℕ, zero, suc, ◌≡◌, refl, true, false, Bool, Option, none, some, List, [], ◌∷◌, ◌⊎◌, inl, inr,
  Option-cases, arith,
}
use upfadapter.Net.{Net, UdpAddr, Ip}
use upfadapter.Pfcp.{Pfcp}
use upfadapter.Relay.{
  Claim, Renumbered, fresh, retransmission, peer_released, sequence_exhausted, nil_dereference,
  renumbered, not_held, exhausted,
}
use upfadapter.Udp.Tables.{SendError, duplicate_sequence}
use upfadapter.Smf.{smf_addr, set_smf_addr}
use upfadapter.Smf.Claims.{destination, set_smf_addr_lem}
use upfadapter.Report.{World, reject_session_report}
use upfadapter.Adapter.{Hooked}
use upfadapter.Goroutine.{
  Position, arriving, authorising, reading_smf, claiming, sending, renumbering, rejecting, refusing,
  forgetting, taking_answer, returning, taking_failure, finished, panicked, next_attempt,
  after_check, after_smf, after_claim, after_send, after_renumber, after_answer, after_failure,
  advance, on_request, on_response,
}
use upfadapter.Goroutine.Interleaved.{Event, claims_smf}
use upfadapter.Goroutine.Passing.{Heads}

module _ {M : Type 0} ⦃net : Net⦄ where
  -- One of the events makes this the SMF's address.
  abbrev pub Claimed : UdpAddr → List (Event M) → Type 0
  Claimed a [] = ⊥
  Claimed a (claims_smf ip ∷ es) = (smf_addr (destination ip) ≡ some a) ⊎ Claimed a es
  Claimed a (_ ∷ es) = Claimed a es

  pub Claimed-later :
      (a : UdpAddr) (e : Event M) (es : List (Event M)) → Claimed a es → Claimed a (e ∷ es)
  Claimed-later a (claims_smf ip) es h = inr h
  Claimed-later a _ es h = h

  pub Claimed-first :
      (a : UdpAddr) (e : Event M) (es : List (Event M)) → Claimed a (e ∷ []) → Claimed a (e ∷ es)
  Claimed-first a (claims_smf ip) es (inl h) = inl h
  Claimed-first a (claims_smf ip) es (inr never) = absurd never
  Claimed-first a _ es never = absurd never

module _ ⦃net : Net⦄ where
  -- The address that a claim leaves is the one before or its own.
  pub smf_addr-set_smf_addr :
      (ip : List ℕ) (old : Ip) (a : UdpAddr)
      → smf_addr (set_smf_addr ip old) ≡ some a
      → (smf_addr old ≡ some a) ⊎ (smf_addr (destination ip) ≡ some a)
  smf_addr-set_smf_addr ip old a e = elim (Option-cases (destination ip)) [
    | inl none_named ↦ inl (ground (arith, e, none_named, set_smf_addr_lem ip old))
    | inr (d, named) ↦ inr (ground (arith, e, named, set_smf_addr_lem ip old))
  ]

Heads-after_failure :
    (M : Type 0) ⦃net : Net⦄ ⦃pfcp : Pfcp M⦄ (IsSmf : UdpAddr → Type 0) (seid seq : ℕ)
    (o : Option (UdpAddr × ℕ))
    → Heads IsSmf (after_failure {M = M} seid seq o)
unfolding after_failure
Heads-after_failure M IsSmf seid seq none = tt
Heads-after_failure M IsSmf seid seq (some (addr, upf_seq)) = tt

module _ {M : Type 0} ⦃net : Net⦄ ⦃pfcp : Pfcp M⦄ (IsSmf : UdpAddr → Type 0) where
  Heads-next_attempt :
      (attempts : ℕ) (report : M) (smf addr : UdpAddr) (seq : ℕ)
      → IsSmf smf
      → Heads IsSmf (next_attempt attempts report smf addr seq)
  unfolding next_attempt
  Heads-next_attempt zero report smf addr seq h = tt
  Heads-next_attempt (suc n) report smf addr seq h = h

  Heads-after_check :
      (report : M) (addr : UdpAddr) (under : ℕ) (known : Bool)
      → Heads IsSmf (after_check report addr under known)
  unfolding after_check
  Heads-after_check report addr under true = tt
  Heads-after_check report addr under false = tt

  Heads-after_smf :
      (report : M) (addr : UdpAddr) (under : ℕ) (o : Option UdpAddr)
      → ((a : UdpAddr) → o ≡ some a → IsSmf a)
      → Heads IsSmf (after_smf report addr under o)
  unfolding after_smf
  Heads-after_smf report addr under none h = tt
  Heads-after_smf report addr under (some smf) h = h smf refl

  Heads-after_claim :
      (report : M) (smf addr : UdpAddr) (claim : Claim)
      → IsSmf smf
      → Heads IsSmf (after_claim report smf addr claim)
  unfolding after_claim
  Heads-after_claim report smf addr (fresh seq) h = Heads-next_attempt 4 report smf addr seq h
  Heads-after_claim report smf addr (retransmission seq) h = tt
  Heads-after_claim report smf addr peer_released h = tt
  Heads-after_claim report smf addr sequence_exhausted h = tt
  Heads-after_claim report smf addr nil_dereference h = tt

  Heads-after_send :
      (attempts : ℕ) (report : M) (smf addr : UdpAddr) (seq : ℕ) (err : Option SendError)
      → IsSmf smf
      → Heads IsSmf (after_send attempts report smf addr seq err)
  unfolding after_send
  Heads-after_send attempts report smf addr seq none h = tt
  Heads-after_send attempts report smf addr seq (some duplicate_sequence) h = h
  Heads-after_send attempts report smf addr seq (some _) h = tt

  Heads-after_renumber :
      (attempts : ℕ) (report : M) (smf addr : UdpAddr) (seq : ℕ) (result : Renumbered)
      → IsSmf smf
      → Heads IsSmf (after_renumber attempts report smf addr seq result)
  unfolding after_renumber
  Heads-after_renumber attempts report smf addr seq not_held h = tt
  Heads-after_renumber attempts report smf addr seq exhausted h = tt
  Heads-after_renumber attempts report smf addr seq (renumbered next) h =
      Heads-next_attempt attempts report smf addr next h

  Heads-after_answer :
      (response : M) (o : Option (UdpAddr × ℕ)) → Heads IsSmf (after_answer response o)
  unfolding after_answer
  Heads-after_answer response none = tt
  Heads-after_answer response (some (addr, upf_seq)) = tt

  -- A handler sends its report where the SMF's address was when it read it.
  pub Heads-advance :
      (now : ℕ) (p : Position M) (w : World Hooked)
      → ((a : UdpAddr) → smf_addr w.smf ≡ some a → IsSmf a)
      → Heads IsSmf p
      → Heads IsSmf (advance M now p w).1
  unfolding advance
  Heads-advance now (arriving report addr) w smf h = tt
  Heads-advance now (authorising report addr under) w smf h = Heads-after_check report addr under _
  Heads-advance now (reading_smf report addr under) w smf h =
      Heads-after_smf report addr under (smf_addr w.smf) smf
  Heads-advance now (claiming report to addr under) w smf h = Heads-after_claim report to addr _ h
  Heads-advance now (sending attempts report to addr seq) w smf h =
      Heads-after_send attempts report to addr seq _ h
  Heads-advance now (renumbering attempts report to addr seq) w smf h =
      Heads-after_renumber attempts report to addr seq _ h
  Heads-advance now (rejecting seid upf_seq addr) w smf h = tt
  Heads-advance now (refusing seid upf_seq addr seq) w smf h = tt
  Heads-advance now (forgetting seq) w smf h = tt
  Heads-advance now (taking_answer response) w smf h = Heads-after_answer response _
  Heads-advance now (returning response addr upf_seq) w smf h = tt
  Heads-advance now (taking_failure seid seq) w smf h = Heads-after_failure M IsSmf seid seq _
  Heads-advance now finished w smf h = tt
  Heads-advance now panicked w smf h = tt

  pub advance-smf :
      (now : ℕ) (p : Position M) (w : World Hooked) → (advance M now p w).0.smf ≡ w.smf
  unfolding advance reject_session_report
  advance-smf now (arriving report addr) w = refl
  advance-smf now (authorising report addr under) w = refl
  advance-smf now (reading_smf report addr under) w = refl
  advance-smf now (claiming report to addr under) w = refl
  advance-smf now (sending attempts report to addr seq) w = refl
  advance-smf now (renumbering attempts report to addr seq) w = refl
  advance-smf now (rejecting seid upf_seq addr) w = refl
  advance-smf now (refusing seid upf_seq addr seq) w = refl
  advance-smf now (forgetting seq) w = refl
  advance-smf now (taking_answer response) w = refl
  advance-smf now (returning response addr upf_seq) w = refl
  advance-smf now (taking_failure seid seq) w = refl
  advance-smf now finished w = refl
  advance-smf now panicked w = refl

  pub Heads-on_request : (report : M) (addr : Option UdpAddr) → Heads IsSmf (on_request report addr)
  unfolding on_request
  Heads-on_request report none = tt
  Heads-on_request report (some addr) = ground arith

  pub Heads-on_response : (response : M) → Heads IsSmf (on_response response)
  unfolding on_response
  Heads-on_response response = ground arith
