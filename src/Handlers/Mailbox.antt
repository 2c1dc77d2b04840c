-- ===== src/Handlers/Mailbox.antt =====
-- The channels of the requests that wait (config/config.go), and what the handlers of
-- pfcp/handler/handler.go and the receives of pfcp/util.go do to them.
use upfadapter.Prelude.{
  ℕ, ◌≤◌, ◌<◌, ◌+◌, ◌≡◌, ◌≢◌, sym, ap, subst, none, some, nat_key, Map, lookup, insert, delete,
  lookup-insert, lookup-delete, inl, inr, Option-cases, arith,
}
use upfadapter.Net.{Net}
use upfadapter.Pfcp.{Pfcp}
use upfadapter.Waiting.{Chan, Txns}
use upfadapter.Waiting.Delivery.{get_upf_pfcp_txn_held, get_upf_pfcp_txn_free}
use upfadapter.Adapter.{HttpRsp, Adapter, done, put, receive_rsp}
use upfadapter.Handlers.Stable.{Keeps, IsStable}
use upfadapter.Handlers.{send_to_waiting}

-- A registered channel is empty, has been made, and is registered under one number; a channel that is
-- still to be made is empty.
pub record IsMailbox (t : Txns) (buffers : Map Chan HttpRsp) (next_chan : ℕ) : Type 0 where
  pub empty : (seq chan : ℕ) → lookup seq t ≡ some chan → lookup chan buffers ≡ none
  pub single :
      (seq seq' chan : ℕ) → lookup seq t ≡ some chan → lookup seq' t ≡ some chan → seq ≡ seq'
  pub made : (seq chan : ℕ) → lookup seq t ≡ some chan → chan < next_chan
  pub unused : (chan : ℕ) → next_chan ≤ chan → lookup chan buffers ≡ none

-- A registered channel is given its answer and is no longer registered.
IsMailbox-delivered :
    (seq chan : ℕ) (answer : HttpRsp) (t : Txns) (b : Map Chan HttpRsp) (n : ℕ)
    → IsMailbox t b n
    → lookup seq t ≡ some chan
    → IsMailbox (delete seq t) (insert chan answer b) n
IsMailbox-delivered seq chan answer t b n v held = record {
  empty = λ s c e. ground (
    arith,
    e,
    held,
    lookup-delete seq s t,
    lookup-insert chan c answer b,
    v.empty s c,
    v.single s seq chan,
  );
  single = λ s s' c e e'.
      v.single s s' c (ground (arith, e, lookup-delete seq s t))
        (ground (arith, e', lookup-delete seq s' t));
  made = λ s c e. v.made s c (ground (arith, e, lookup-delete seq s t));
  unused = λ c above.
      ground (arith, above, v.made seq chan held, lookup-insert chan c answer b, v.unused c above);
}

-- What was taken from a channel leaves it empty.
IsMailbox-received :
    (chan : ℕ) (t : Txns) (b : Map Chan HttpRsp) (n : ℕ)
    → IsMailbox t b n
    → IsMailbox t (delete chan b) n
IsMailbox-received chan t b n v = record {
  empty = λ s c e. ground (arith, v.empty s c e, lookup-delete chan c b);
  single = v.single;
  made = v.made;
  unused = λ c above. ground (arith, v.unused c above, lookup-delete chan c b);
}

-- Fewer registrations keep it.
pub IsMailbox-fewer :
    (t t' : Txns) (b : Map Chan HttpRsp) (n : ℕ)
    → ((s c : ℕ) → lookup s t' ≡ some c → lookup s t ≡ some c)
    → IsMailbox t b n
    → IsMailbox t' b n
IsMailbox-fewer t t' b n fewer v = record {
  empty = λ s c e. v.empty s c (fewer s c e);
  single = λ s s' c e e'. v.single s s' c (fewer s c e) (fewer s' c e');
  made = λ s c e. v.made s c (fewer s c e);
  unused = v.unused;
}

-- So does a registration of a channel that is made for it.
pub IsMailbox-registered :
    (seq : ℕ) (t : Txns) (b : Map Chan HttpRsp) (n : ℕ)
    → IsMailbox t b n
    → IsMailbox (insert seq n t) b (n + 1)
IsMailbox-registered seq t b n v = record {
  empty = λ s c e. ground (arith, e, lookup-insert seq s n t, v.empty s c, v.unused n);
  single = λ s s' c e e'. ground (
    arith,
    e,
    e',
    lookup-insert seq s n t,
    lookup-insert seq s' n t,
    v.single s s' c,
    v.made s c,
    v.made s' c,
  );
  made = λ s c e. ground (arith, e, lookup-insert seq s n t, v.made s c);
  unused = λ c above. v.unused c (omega (arith, above));
}

module _ {M : Type 0} where
  abbrev pub HasMailbox : Adapter M → Type 0
  HasMailbox a = IsMailbox a.txns a.buffers a.next_chan

  -- What the send to a waiting channel does.
  pub send_to_waiting_held :
      (seq chan : ℕ) (answer : HttpRsp) (a : Adapter M)
      → HasMailbox a
      → lookup seq a.txns ≡ some chan
      → send_to_waiting seq answer a
        ≡ done (record a { txns = delete seq a.txns; buffers = insert chan answer a.buffers })
  unfolding send_to_waiting put
  send_to_waiting_held seq chan answer a v held =
      ground (arith, get_upf_pfcp_txn_held seq chan a.txns held, v.empty seq chan held)

  pub send_to_waiting_free :
      (seq : ℕ) (answer : HttpRsp) (a : Adapter M)
      → lookup seq a.txns ≡ none
      → send_to_waiting seq answer a ≡ done a
  unfolding send_to_waiting
  send_to_waiting_free seq answer a free = ground (arith, get_upf_pfcp_txn_free seq a.txns free)

  pub send_to_waiting-Keeps :
      (seq : ℕ) (answer : HttpRsp) (a : Adapter M)
      → HasMailbox a
      → Keeps HasMailbox (send_to_waiting seq answer a)
  send_to_waiting-Keeps seq answer a v = elim (Option-cases (lookup seq a.txns)) [
    | inl free ↦ subst (Keeps HasMailbox) (sym (send_to_waiting_free seq answer a free)) v
    | inr (chan, held) ↦
        subst (Keeps HasMailbox) (sym (send_to_waiting_held seq chan answer a v held))
          (IsMailbox-delivered seq chan answer a.txns a.buffers a.next_chan v held)
  ]

  -- A predicate that holds of a request that waits until its number is named.
  abbrev pub WaitsOn : ℕ → Chan → Adapter M → Type 0
  WaitsOn seq chan a = HasMailbox a × (lookup seq a.txns ≡ some chan)

  send_to_waiting-WaitsOn :
      (own : ℕ) (chan : Chan) (seq : ℕ) (answer : HttpRsp) (a : Adapter M)
      → seq ≢ own
      → WaitsOn own chan a
      → Keeps (WaitsOn own chan) (send_to_waiting seq answer a)
  send_to_waiting-WaitsOn own chan seq answer a other (v, waits) =
      elim (Option-cases (lookup seq a.txns)) [
        | inl free ↦
            subst (Keeps (WaitsOn own chan)) (sym (send_to_waiting_free seq answer a free))
              (v, waits)
        | inr (c, held) ↦
            subst (Keeps (WaitsOn own chan)) (sym (send_to_waiting_held seq c answer a v held)) (
              IsMailbox-delivered seq c answer a.txns a.buffers a.next_chan v held,
              ground (arith, waits, other, lookup-delete seq own a.txns),
            )
      ]

  -- The requester takes its answer.
  pub receive_rsp-HasMailbox :
      (chan : ℕ) (a a' : Adapter M) (answer : HttpRsp)
      → receive_rsp chan a ≡ some (a', answer)
      → HasMailbox a
      → HasMailbox a'
  unfolding receive_rsp
  receive_rsp-HasMailbox chan a a' answer e v = elim (Option-cases (lookup chan a.buffers)) [
    | inl f ↦ absurd (ground (arith, e, f))
    | inr (held, f) ↦
        let taken : record a { buffers = delete chan a.buffers } ≡ a' = ground (arith, e, f) in
        subst HasMailbox taken (IsMailbox-received chan a.txns a.buffers a.next_chan v)
  ]

  pub receive_rsp-kept :
      (chan : Chan) (a a' : Adapter M) (answer : HttpRsp)
      → receive_rsp chan a ≡ some (a', answer)
      → (a'.txns ≡ a.txns) × (a'.upfs ≡ a.upfs) × (a'.world ≡ a.world)
  unfolding receive_rsp
  receive_rsp-kept chan a a' answer e = elim (Option-cases (lookup chan a.buffers)) [
    | inl f ↦ absurd (ground (arith, e, f))
    | inr (held, f) ↦
        let taken : record a { buffers = delete chan a.buffers } ≡ a' = ground (arith, e, f) in
        (ap (λ x. x.txns) (sym taken), ap (λ x. x.upfs) (sym taken), ap (λ x. x.world) (sym taken))
  ]

module _ {M : Type 0} ⦃net : Net⦄ ⦃pfcp : Pfcp M⦄ where
  pub HasMailbox-IsStable : IsStable {M = M} HasMailbox (λ seq. Unit {0})
  HasMailbox-IsStable = record {
    sent = λ seq answer a ok v. send_to_waiting-Keeps seq answer a v;
    server = λ s a v. v;
    reported = λ msg addr checked now w a e v. v;
    returned = λ msg now a v. v;
    unanswered = λ seid seq now a v. v;
    accepted = λ order node msg u stores a e v. v;
  }

  pub WaitsOn-IsStable :
      (own : ℕ) (chan : Chan) → IsStable {M = M} (WaitsOn own chan) (λ seq. seq ≢ own)
  WaitsOn-IsStable own chan = record {
    sent = send_to_waiting-WaitsOn own chan;
    server = λ s a v. v;
    reported = λ msg addr checked now w a e v. v;
    returned = λ msg now a v. v;
    unanswered = λ seid seq now a v. v;
    accepted = λ order node msg u stores a e v. v;
  }
