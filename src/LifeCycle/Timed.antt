-- ===== src/LifeCycle/Timed.antt =====
-- Transaction.Start of pfcp/udp/transaction.go with its timers. The events that a transaction's
-- channel takes are a list, each with its time; a write and a step of the loop take no time. An
-- event that comes as the timer fires is taken, where Go takes either.
use upfadapter.Prelude.{ℕ, zero, suc, ◌+◌, ◌*◌, Bool, List, [], ◌∷◌, if◌then◌else◌, ltb}
use upfadapter.Udp.Tables.{
  TransactionType, sending_request, sending_response, EventType, receive_resend_request,
  receive_valid_response,
}
use upfadapter.LifeCycle.{
  num_of_resend, Wait, event, expired, Outcome, finished, write_failed, timed_out,
}

-- `ResendRequestTimeOutPeriod * time.Second`
abbrev pub resend_request_timeout : ℕ
resend_request_timeout = 3 * 1000000000

-- `ResendResponseTimeOutPeriod * time.Second`
abbrev pub resend_response_timeout : ℕ
resend_response_timeout = 15 * 1000000000

pub record Arrival : Type 0 where
  pub at : ℕ
  pub kind : EventType

-- How Start ended: the writes that succeeded, what it returns, when the last timer was set, the time
-- at the end, and the events that it has not taken.
pub record Ended : Type 0 where
  pub sent : ℕ
  pub outcome : Outcome
  pub armed : ℕ
  pub over : ℕ
  pub unread : List Arrival

-- The select of a round, at a time, with the time at which the timer fires.
unfoldable pub wait_until : ℕ → ℕ → List Arrival → Wait × ℕ × List Arrival
wait_until now deadline [] = (expired, deadline, [])
wait_until now deadline (a ∷ es) =
    if ltb deadline a.at
    then (expired, deadline, a ∷ es)
    else (event a.kind, if ltb a.at now then now else a.at, es)

-- The loop of a request: a timer for each round.
unfoldable pub request_timed : ℕ → (ℕ → Bool) → ℕ → ℕ → List Arrival → Ended
request_timed zero writes now armed es = record {
  sent = 0;
  outcome = timed_out;
  armed = armed;
  over = now;
  unread = es;
}
request_timed (suc left) writes now armed es =
    let (wait, at, later) = wait_until now (now + resend_request_timeout) es in
    let rest = request_timed left (λ k. writes (suc k)) at now later in
    if writes 0
    then elim wait [
      | event receive_valid_response ↦ record {
        sent = 1;
        outcome = finished;
        armed = now;
        over = at;
        unread = later;
      }
      | _ ↦ record rest { sent = suc rest.sent }
    ]
    else record { sent = 0; outcome = write_failed; armed = now; over = now; unread = es }

-- The loop of a response: one timer, set again by each request for a resend.
unfoldable pub response_timed : ℕ → (ℕ → Bool) → ℕ → ℕ → List Arrival → Ended
response_timed zero writes now armed es = record {
  sent = 0;
  outcome = finished;
  armed = armed;
  over = now;
  unread = es;
}
response_timed (suc left) writes now armed es =
    let (wait, at, later) = wait_until now (armed + resend_response_timeout) es in
    let reset = response_timed left (λ k. writes (suc k)) at at later in
    let kept = response_timed left (λ k. writes (suc k)) at armed later in
    if writes 0
    then elim wait [
      | event receive_resend_request ↦ record reset { sent = suc reset.sent }
      | event receive_valid_response ↦ record kept { sent = suc kept.sent }
      | expired ↦ record { sent = 1; outcome = timed_out; armed = armed; over = at; unread = later }
    ]
    else record { sent = 0; outcome = write_failed; armed = armed; over = now; unread = es }

-- Start, at a time: whether each write succeeds, and the events that come.
unfoldable pub start_timed : TransactionType → (ℕ → Bool) → ℕ → List Arrival → Ended
start_timed sending_request writes now es = request_timed num_of_resend writes now now es
start_timed sending_response writes now es = response_timed num_of_resend writes now now es
