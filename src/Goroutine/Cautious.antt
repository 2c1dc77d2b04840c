-- ===== src/Goroutine/Cautious.antt =====
-- What a goroutine of HandlePfcpSessionReportRequest (pfcp/handler/handler.go) may rely on at its
-- place, of the address that its report came from.
use upfadapter.Prelude.{
  ℕ, zero, suc, ◌≤◌, ◌≡◌, ◌≢◌, refl, Bool, true, false, Option, none, some, inl, inr, Bool-cases,
  nat_key, text_key, contains, arith,
}
use upfadapter.Net.{Net, Text, UdpAddr}
use upfadapter.Pfcp.{Pfcp}
use upfadapter.Relay.{
  Claim, fresh, retransmission, peer_released, sequence_exhausted, nil_dereference, Renumbered,
  renumbered, not_held, exhausted, relay_generation,
}
use upfadapter.Peers.{is_known_upf_addr}
use upfadapter.Peers.Released.{Released, held_of_known}
use upfadapter.Udp.Tables.{SendError, duplicate_sequence}
use upfadapter.Report.{World, relays_of}
use upfadapter.Adapter.{Hooked}
use upfadapter.Goroutine.{
  Position, arriving, authorising, reading_smf, claiming, sending, renumbering, rejecting, refusing,
  forgetting, taking_answer, returning, taking_failure, finished, panicked, next_attempt,
  after_check, after_smf, after_claim, after_send, after_renumber, after_answer, after_failure,
}
use upfadapter.Goroutine.Interleaved.{carried}

module _ ⦃net : Net⦄ where
  -- Past its test: unless the count has moved on, the address is still held.
  abbrev pub Checked : World Hooked → Text → ℕ → Type 0
  Checked w host under =
      (under ≤ relay_generation host (relays_of w))
      × (relay_generation host (relays_of w) ≡ under → contains host w.peers.addrs ≡ true)

  Checked-kept :
      (w w' : World Hooked) (host : Text) (under : ℕ)
      → Released host w.peers w'.peers
      → relay_generation host (relays_of w) ≤ relay_generation host (relays_of w')
      → Checked w host under
      → Checked w' host under
  Checked-kept w w' host under released steady (read, there) = (
    omega arith,
    λ e. elim (Bool-cases (contains host w'.peers.addrs)) [
      | inl still ↦ still
      | inr gone ↦ absurd (omega (arith, released (there (omega arith)) gone))
    ],
  )

module _ {M : Type 0} ⦃net : Net⦄ ⦃pfcp : Pfcp M⦄ where
  -- What holds of a goroutine at its place.
  abbrev pub Cautious : World Hooked → Position M → Type 0
  Cautious w (authorising report addr under) =
      under ≤ relay_generation (net.ip_string addr.ip) (relays_of w)
  Cautious w (reading_smf report addr under) = Checked w (net.ip_string addr.ip) under
  Cautious w (claiming report smf addr under) = Checked w (net.ip_string addr.ip) under
  Cautious w panicked = ⊥
  Cautious w _ = Unit

  -- A goroutine stays so while others act.
  pub Cautious-kept :
      (w w' : World Hooked) (p : Position M)
      → ((host : Text) → Released host w.peers w'.peers)
      → ((host : Text) (under : ℕ)
          → carried p ≡ some (host, under)
          → relay_generation host (relays_of w) ≤ relay_generation host (relays_of w'))
      → Cautious w p
      → Cautious w' p
  Cautious-kept w w' (authorising report addr under) released steady c =
      omega (arith, steady (net.ip_string addr.ip) under refl)
  Cautious-kept w w' (reading_smf report addr under) released steady c =
      Checked-kept w w' (net.ip_string addr.ip) under (released _) (steady _ under refl) c
  Cautious-kept w w' (claiming report smf addr under) released steady c =
      Checked-kept w w' (net.ip_string addr.ip) under (released _) (steady _ under refl) c
  Cautious-kept w w' panicked released steady c = c
  Cautious-kept w w' (arriving _ _) released steady c = tt
  Cautious-kept w w' (sending _ _ _ _ _) released steady c = tt
  Cautious-kept w w' (renumbering _ _ _ _ _) released steady c = tt
  Cautious-kept w w' (rejecting _ _ _) released steady c = tt
  Cautious-kept w w' (refusing _ _ _ _) released steady c = tt
  Cautious-kept w w' (forgetting _) released steady c = tt
  Cautious-kept w w' (taking_answer _) released steady c = tt
  Cautious-kept w w' (returning _ _ _) released steady c = tt
  Cautious-kept w w' (taking_failure _ _) released steady c = tt
  Cautious-kept w w' finished released steady c = tt

  pub Cautious-next_attempt :
      (w : World Hooked) (attempts : ℕ) (report : M) (smf addr : UdpAddr) (seq : ℕ)
      → Cautious w (next_attempt attempts report smf addr seq)
  unfolding next_attempt
  Cautious-next_attempt w zero report smf addr seq = tt
  Cautious-next_attempt w (suc n) report smf addr seq = tt

  pub Cautious-after_check :
      (w : World Hooked) (report : M) (addr : UdpAddr) (under now : ℕ) (known : Bool)
      → is_known_upf_addr addr.ip now w.peers ≡ known
      → under ≤ relay_generation (net.ip_string addr.ip) (relays_of w)
      → Cautious w (after_check report addr under known)
  unfolding after_check
  Cautious-after_check w report addr under now true e c =
      (c, λ same. held_of_known addr.ip now w.peers e)
  Cautious-after_check w report addr under now false e c = tt

  pub Cautious-after_smf :
      (w : World Hooked) (report : M) (addr : UdpAddr) (under : ℕ) (smf : Option UdpAddr)
      → Checked w (net.ip_string addr.ip) under
      → Cautious w (after_smf report addr under smf)
  unfolding after_smf
  Cautious-after_smf w report addr under none c = tt
  Cautious-after_smf w report addr under (some smf) c = c

  pub Cautious-after_claim :
      (w : World Hooked) (report : M) (smf addr : UdpAddr) (claim : Claim)
      → claim ≢ nil_dereference
      → Cautious w (after_claim report smf addr claim)
  unfolding after_claim
  Cautious-after_claim w report smf addr (fresh seq) ne =
      Cautious-next_attempt w 4 report smf addr seq
  Cautious-after_claim w report smf addr (retransmission seq) ne = tt
  Cautious-after_claim w report smf addr peer_released ne = tt
  Cautious-after_claim w report smf addr sequence_exhausted ne = tt
  Cautious-after_claim w report smf addr nil_dereference ne = absurd (ne refl)

  pub Cautious-after_send :
      (w : World Hooked) (attempts : ℕ) (report : M) (smf addr : UdpAddr) (seq : ℕ)
      (err : Option SendError)
      → Cautious w (after_send attempts report smf addr seq err)
  unfolding after_send
  Cautious-after_send w attempts report smf addr seq none = tt
  Cautious-after_send w attempts report smf addr seq (some duplicate_sequence) = tt
  Cautious-after_send w attempts report smf addr seq (some _) = tt

  pub Cautious-after_renumber :
      (w : World Hooked) (attempts : ℕ) (report : M) (smf addr : UdpAddr) (seq : ℕ)
      (result : Renumbered)
      → Cautious w (after_renumber attempts report smf addr seq result)
  unfolding after_renumber
  Cautious-after_renumber w attempts report smf addr seq not_held = tt
  Cautious-after_renumber w attempts report smf addr seq exhausted = tt
  Cautious-after_renumber w attempts report smf addr seq (renumbered next) =
      Cautious-next_attempt w attempts report smf addr next

  pub Cautious-after_answer :
      (w : World Hooked) (response : M) (taken : Option (UdpAddr × ℕ))
      → Cautious w (after_answer response taken)
  unfolding after_answer
  Cautious-after_answer w response none = tt
  Cautious-after_answer w response (some (addr, upf_seq)) = tt

module _ (M : Type 0) ⦃net : Net⦄ ⦃pfcp : Pfcp M⦄ where
  pub Cautious-after_failure :
      (w : World Hooked) (seid seq : ℕ) (taken : Option (UdpAddr × ℕ))
      → Cautious {M = M} w (after_failure seid seq taken)
  unfolding after_failure
  Cautious-after_failure w seid seq none = tt
  Cautious-after_failure w seid seq (some (addr, upf_seq)) = tt
