-- ===== src/LifeCycle/Deadlines.antt =====
-- When Transaction.Start of pfcp/udp/transaction.go ends.
pub mod Waits
pub mod Rounds
mod Requests
mod Responses
use upfadapter.Prelude.{
  ℕ, zero, suc, ◌+◌, ◌*◌, ◌≤◌, ◌<◌, ◌⊎◌, ◌≡◌, refl, sym, ap, subst, ◌∙◌, Bool, true, false, List,
  [], ◌∷◌, inl, inr, Bool-cases, arith, if◌then◌else◌, ltb,
}
use upfadapter.Udp.Tables.{
  TransactionType, sending_request, sending_response, EventType, receive_resend_request,
  receive_valid_response,
}
use upfadapter.LifeCycle.{
  num_of_resend, Wait, event, expired, Round, Outcome, finished, write_failed, timed_out,
  request_loop, response_loop, start,
}
use upfadapter.LifeCycle.Timed.{
  resend_request_timeout, resend_response_timeout, Arrival, Ended, wait_until, request_timed,
  response_timed, start_timed,
}
use upfadapter.LifeCycle.Deadlines.Waits.{
  Within, Outside, Silent, Quiet, Waited, wait_until-Waited, Quiet-taken, unread-Silent,
}
use upfadapter.LifeCycle.Deadlines.Rounds.{
  timeout, loop, TimedPost, alike, first_round, unwritten, round-TimedPost,
}
use upfadapter.LifeCycle.Deadlines.Requests.{request_timed-TimedPost}
use upfadapter.LifeCycle.Deadlines.Responses.{response_timed-TimedPost}

-- Start ends: a request within nine seconds of its start, an answer within forty-five, if the events
-- come in order and not before the start. It has made the writes, and returns what it returns, over
-- some rounds with these results of its writes. A request that times out had no valid response
-- before its end; an answer that times out ends fifteen seconds after its timer was last set, with
-- no request for a resend in them.
pub start_timed-TimedPost :
    (type : TransactionType) (writes : ℕ → Bool) (now : ℕ) (es : List Arrival)
    → Within now es
    → TimedPost type num_of_resend writes now now es (start_timed type writes now es)
unfolding start_timed
start_timed-TimedPost sending_request writes now es w =
    request_timed-TimedPost num_of_resend writes now now es (omega arith) w
start_timed-TimedPost sending_response writes now es w =
    response_timed-TimedPost num_of_resend writes now now es (omega arith) w
