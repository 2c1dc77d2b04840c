-- ===== src/Goroutine/Held.antt =====
-- The calls on the relay tables that the handlers of session reports make (config/config.go), and the
-- addresses of the user planes that the SMF names.
use upfadapter.Prelude.{
  ℕ, ◌≡◌, ◌≢◌, sym, subst, true, Option, none, some, nat_key, text_key, lookup, contains, arith,
}
use upfadapter.Net.{Net, Text, UdpAddr}
use upfadapter.Relay.{
  RelayTable, Claim, fresh, retransmission, peer_released, sequence_exhausted, nil_dereference,
  Renumbered, renumbered, not_held, exhausted, forget_report_relay, sweep_relays_locked,
  ReportRelay,
}
use upfadapter.Relay.Index.{at_host, lookup-forget_report_relay}
use upfadapter.Relay.Sweep.{lookup-sweep_relays_locked, live_only}
use upfadapter.Relay.Claims.{ClaimPost}
use upfadapter.Relay.Answer.{TakePost, RenumberPost}
use upfadapter.Peers.{Peers}
use upfadapter.Adapter.{Hooked}

module _ ⦃net : Net⦄ where
  -- Every relay of these tables is one for an address that `upfAddrs` holds.
  abbrev pub AtHeld : Peers Hooked → RelayTable → Type 0
  AtHeld p t = (a : Text) (s : ℕ) → at_host a (lookup s t.relays) ≡ true → contains a p.addrs ≡ true

  swept_host :
      (a : Text) (now : ℕ) (o : Option ReportRelay)
      → at_host a (live_only now o) ≡ true
      → at_host a o ≡ true
  swept_host a now none h = h
  swept_host a now (some r) h = ground arith

  pub AtHeld-sweep :
      (now : ℕ) (p : Peers Hooked) (t : RelayTable)
      → AtHeld p t
      → AtHeld p (sweep_relays_locked now t)
  AtHeld-sweep now p t v a s h =
      ground
        (arith, lookup-sweep_relays_locked now s t, swept_host a now (lookup s t.relays), h, v a s)

  pub AtHeld-claimed :
      (addr : UdpAddr) (upf_seq now : ℕ) (p : Peers Hooked) (t : RelayTable)
      (r : RelayTable × Claim)
      → contains (net.ip_string addr.ip) p.addrs ≡ true
      → ClaimPost addr upf_seq now t r
      → AtHeld p t
      → AtHeld p r.0 × (r.1 ≢ nil_dereference)
  AtHeld-claimed addr upf_seq now p t (t', fresh c) there (absent_now, free, looks, last) v =
      ((λ a s h. ground (arith, looks s, v a s, h, there)), λ e. cc)
  AtHeld-claimed addr upf_seq now p t (t', retransmission k) there (outstanding, same) v =
      (subst (AtHeld p) (sym same) v, λ e. cc)
  AtHeld-claimed addr upf_seq now p t (t', sequence_exhausted) there (absent_now, full, same) v =
      (subst (AtHeld p) (sym same) v, λ e. cc)
  AtHeld-claimed addr upf_seq now p t (t', peer_released) there post v = elim post [ ]
  AtHeld-claimed addr upf_seq now p t (t', nil_dereference) there post v = elim post [ ]

  pub AtHeld-renumbered :
      (seq : ℕ) (p : Peers Hooked) (t : RelayTable) (r : RelayTable × Renumbered)
      → RenumberPost seq t r
      → AtHeld p t
      → AtHeld p r.0
  AtHeld-renumbered seq p t (t', renumbered c) (r, held, free, looks) v =
      λ a s h. ground (arith, looks s, v a s, v a seq, held, h)
  AtHeld-renumbered seq p t (t', not_held) (gone, same) v = subst (AtHeld p) (sym same) v
  AtHeld-renumbered seq p t (t', exhausted) (full, same) v = subst (AtHeld p) (sym same) v

  pub AtHeld-taken :
      (seq now : ℕ) (p : Peers Hooked) (t : RelayTable) (r : RelayTable × Option (UdpAddr × ℕ))
      → TakePost seq now t r
      → AtHeld p t
      → AtHeld p r.0
  AtHeld-taken seq now p t (t', some (addr, upf_seq)) (r, held, new, live, here, same, looks, index)
        v =
      λ a s h. ground (arith, looks s, v a s, held, h)
  AtHeld-taken seq now p t (t', none) (refused, same) v = subst (AtHeld p) (sym same) v

  pub AtHeld-forgotten :
      (seq : ℕ) (p : Peers Hooked) (t : RelayTable)
      → AtHeld p t
      → AtHeld p (forget_report_relay seq t)
  AtHeld-forgotten seq p t v a s h = ground (arith, lookup-forget_report_relay s seq t, v a s, h)
