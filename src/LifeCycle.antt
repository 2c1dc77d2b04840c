-- ===== src/LifeCycle.antt =====
-- The life of a registered transaction: Transaction.Start of pfcp/udp/transaction.go and
-- startTxLifeCycle of pfcp/udp/udp.go. Each round of Start writes the message and waits; what the
-- write and the wait give is a parameter, a function of the round.
pub mod Sending
pub mod Ending
pub mod Timed
pub mod Deadlines
mod Tests
use upfadapter.Prelude.{ℕ, zero, suc, Bool, Option, none, some, if◌then◌else◌}
use upfadapter.Pfcp.{Pfcp}
use upfadapter.Udp.Tables.{
  TransactionType, sending_request, sending_response, EventType, receive_resend_request,
  receive_valid_response, Transaction, Server, remove_transaction,
}

abbrev pub num_of_resend : ℕ
num_of_resend = 3

-- What a round's select takes: an event of the channel, or the timer.
pub data Wait : Type 0 where
  event : EventType → Wait
  expired : Wait

pub record Round : Type 0 where
  pub writes : Bool
  pub wait : Wait

-- What Start returns: `finished` for nil.
pub data Outcome : Type 0 where
  finished write_failed timed_out : Outcome

-- The loop of a request with so many rounds left, the next of which is round 0: the writes that
-- succeeded, and the result.
unfoldable pub request_loop : ℕ → (ℕ → Round) → ℕ × Outcome
request_loop zero rounds = (0, timed_out)
request_loop (suc left) rounds =
    let (sent, outcome) = request_loop left (λ k. rounds (suc k)) in
    if (rounds 0).writes
    then elim (rounds 0).wait [
      | event receive_valid_response ↦ (1, finished)
      | event receive_resend_request ↦ (suc sent, outcome)
      | expired ↦ (suc sent, outcome)
    ]
    else (0, write_failed)

-- The loop of a response.
pub response_loop : ℕ → (ℕ → Round) → ℕ × Outcome
response_loop zero rounds = (0, finished)
response_loop (suc left) rounds =
    let (sent, outcome) = response_loop left (λ k. rounds (suc k)) in
    if (rounds 0).writes
    then elim (rounds 0).wait [ event _ ↦ (suc sent, outcome) | expired ↦ (1, timed_out) ]
    else (0, write_failed)

-- Start
unfoldable pub start : TransactionType → (ℕ → Round) → ℕ × Outcome
start sending_request rounds = request_loop num_of_resend rounds
start sending_response rounds = response_loop num_of_resend rounds

abbrev pub failed : Outcome → Option Outcome
failed finished = none
failed write_failed = some write_failed
failed timed_out = some timed_out

module _ {M : Type 0} {E : Type 0} {H : Type 0} ⦃pfcp : Pfcp M⦄ where
  -- The call of the error handler, if there is one: its handler, the message and the error.
  -- `err_handler` is none where the event data is nil or holds no handler.
  abbrev pub report_failure : (E → Option H) → Transaction E → Outcome → Option (H × M × Outcome)
  report_failure err_handler tx outcome = elim (failed outcome) [
    | none ↦ none
    | some err ↦ elim (err_handler tx.event_data) [
      | none ↦ none
      | some handler ↦ elim (pfcp.parse tx.send_msg) [
        | none ↦ none
        | some msg ↦ some (handler, msg, err)
      ]
    ]
  ]

  -- startTxLifeCycle; what other goroutines do to the tables while Start waits comes before it.
  pub start_tx_life_cycle :
      (E → Option H) → Transaction E → (ℕ → Round) → Server E → Server E × Option (H × M × Outcome)
  start_tx_life_cycle err_handler tx rounds s =
      ((remove_transaction tx s).0, report_failure err_handler tx (start tx.tx_type rounds).1)
