-- ===== src/LifeCycle/Ending.antt =====
-- startTxLifeCycle of pfcp/udp/udp.go against PutTransaction: what the end of a transaction restores.
use upfadapter.Prelude.{
  then_branch, inl, inr, Option-cases, ℕ, ◌≡◌, if_pos, refl, subst, Option, none, some, ite,
  Text-discrete, ℕ_discrete, arith, ◌∙◌,
}
use upfadapter.Net.{Text}
use upfadapter.Pfcp.{Pfcp}
use upfadapter.Udp.Tables.{Transaction, Server, put_transaction}
use upfadapter.LifeCycle.{Round, Outcome, failed, start, start_tx_life_cycle}
use upfadapter.Udp.Register.{tx_at, IsSeparate, with_tx, PutPost, put_transaction-PutPost}
use upfadapter.Udp.Absorb.{remove_transaction_held, tx_at-remove_transaction}

module _ {E : Type 0} where
  with_tx-undone :
      (tx : Transaction E) (m m' : Text → ℕ → Option (Transaction E)) (c : Text) (q : ℕ)
      → m tx.consumer_addr tx.sequence_number ≡ none
      → m' c q ≡ with_tx tx m c q
      → ite
          (Text-discrete tx.consumer_addr c)
          (ite (ℕ_discrete tx.sequence_number q) none (m' c q))
          (m' c q)
        ≡ m c q
  with_tx-undone tx m m' c q free stored = elim (Text-discrete tx.consumer_addr c) [
    | yes e ↦ elim (ℕ_discrete tx.sequence_number q) [
      | yes f ↦ ground (arith, free, stored, e, f)
      | no f ↦ ground (arith, free, stored, e, f)
    ]
    | no e ↦ ground (arith, free, stored, e)
  ]

  -- With tables that no two consumers share, the end of a transaction right after it was registered
  -- gives back the look-ups of before, for every consumer and number, whatever its rounds brought.
  pub start_tx_life_cycle_undoes :
      (M : Type 0) {H : Type 0} ⦃pfcp : Pfcp M⦄ (err_handler : E → Option H) (tx : Transaction E)
      (rounds : ℕ → Round) (s s' : Server E)
      → IsSeparate s
      → put_transaction tx s ≡ (s', none)
      → (c : Text) (q : ℕ)
      → tx_at (start_tx_life_cycle {M = M} err_handler tx rounds s').0 c q ≡ tx_at s c q
  unfolding start_tx_life_cycle
  start_tx_life_cycle_undoes M err_handler tx rounds s s' v put c q =
      let post : PutPost tx s (s', none) =
        subst (PutPost tx s) put (put_transaction-PutPost tx s v) in
      let held : tx_at s' tx.consumer_addr tx.sequence_number ≡ some tx =
        post.1 tx.consumer_addr tx.sequence_number
        ∙ (if_pos (Text-discrete tx.consumer_addr tx.consumer_addr) refl _ _
            ∙ if_pos (ℕ_discrete tx.sequence_number tx.sequence_number) refl _ _) in
      let removed = tx_at-remove_transaction tx s' c q post.2 in
      removed
      ∙ then_branch (tx_at s' c q) (remove_transaction_held tx s' held)
      ∙ with_tx-undone tx (tx_at s) (tx_at s') c q post.0 (post.1 c q)

-- What is reported of a transaction that ended in an error, where its event data holds a handler.
pub start_tx_life_cycle_reports :
    {M : Type 0} {E : Type 0} {H : Type 0} ⦃pfcp : Pfcp M⦄ (err_handler : E → Option H)
    (tx : Transaction E) (rounds : ℕ → Round) (s : Server E) (outcome : Outcome) (handler : H)
    (msg : M)
    → failed (start tx.tx_type rounds).1 ≡ some outcome
    → err_handler tx.event_data ≡ some handler
    → pfcp.parse tx.send_msg ≡ some msg
    → (start_tx_life_cycle {M = M} err_handler tx rounds s).1 ≡ some (handler, msg, outcome)
unfolding start_tx_life_cycle
start_tx_life_cycle_reports err_handler tx rounds s outcome handler msg fails handles parsed =
    ground (arith, fails, handles, parsed)

-- What is reported is the transaction's own message.
pub start_tx_life_cycle_parses :
    {M : Type 0} {E : Type 0} {H : Type 0} ⦃pfcp : Pfcp M⦄ (err_handler : E → Option H)
    (tx : Transaction E) (rounds : ℕ → Round) (s : Server E) (handler : H) (msg : M)
    (outcome : Outcome)
    → (start_tx_life_cycle {M = M} err_handler tx rounds s).1 ≡ some (handler, msg, outcome)
    → pfcp.parse tx.send_msg ≡ some msg
unfolding start_tx_life_cycle
start_tx_life_cycle_parses ⦃pfcp = pfcp⦄ err_handler tx rounds s handler msg outcome e =
    elim (Option-cases (failed (start tx.tx_type rounds).1)) [
      | inl f ↦ absurd (ground (arith, e, f))
      | inr (why, f) ↦ elim (Option-cases (err_handler tx.event_data)) [
        | inl g ↦ absurd (ground (arith, e, f, g))
        | inr (h, g) ↦ elim (Option-cases (pfcp.parse tx.send_msg)) [
          | inl parsed ↦ absurd (ground (arith, e, f, g, parsed))
          | inr (m, parsed) ↦ ground (arith, e, f, g, parsed)
        ]
      ]
    ]
