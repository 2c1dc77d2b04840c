-- ===== src/LifeCycle/Tests.antt =====
-- Runs of the life of a transaction, and the theorems about it at concrete inputs.
use upfadapter.Prelude.{
  ℕ, ◌*◌, Bool, List, [], ◌∷◌, arith, ◌≡◌, refl, true, ◌==◌, if◌then◌else◌, nat_key, text_key,
}
use upfadapter.Sample.{test_pfcp}
use upfadapter.Udp.Tables.{
  sending_request, sending_response, receive_resend_request, receive_valid_response,
}
use upfadapter.LifeCycle.{
  Round, event, expired, finished, request_loop, response_loop, start, start_tx_life_cycle,
  num_of_resend, timed_out,
}
use upfadapter.LifeCycle.Timed.{Arrival, wait_until, request_timed, response_timed, start_timed}
use upfadapter.LifeCycle.Deadlines.Waits.{Within}
use upfadapter.LifeCycle.Deadlines.Rounds.{TimedPost}
use upfadapter.LifeCycle.Deadlines.{start_timed-TimedPost}
use upfadapter.LifeCycle.Sending.{LoopPost, start-LoopPost}

program : Unit {0}
unfolding request_loop response_loop start start_tx_life_cycle wait_until request_timed
    response_timed start_timed
program = tt

-- The answer comes in the second round.
abbrev late_answer : ℕ → Round
late_answer k = record {
  writes = true;
  wait = if k == 1 then event receive_valid_response else expired;
}

abbrev asked_again : ℕ → Round
asked_again k = record { writes = true; wait = event receive_resend_request }

answered_late : start sending_request late_answer ≡ (2, finished)
unfolding program
answered_late = refl

-- The third request for a resend gets none: the loop is over.
asked_three_times : start sending_response asked_again ≡ (3, finished)
unfolding program
asked_three_times = refl

start-LoopPost_example :
    LoopPost sending_request num_of_resend late_answer (start sending_request late_answer)
start-LoopPost_example = start-LoopPost sending_request late_answer

abbrev second : ℕ
second = 1000000000

abbrev written : ℕ → Bool
written k = true

-- The user plane asks again after ten seconds, and ten seconds later.
abbrev asked_twice : List Arrival
asked_twice =
    record { at = 10 * second; kind = receive_resend_request }
    ∷ record { at = 20 * second; kind = receive_resend_request }
    ∷ []

-- Nothing answers: three writes, and nine seconds.
unanswered :
    start_timed sending_request written 0 []
    ≡ record { sent = 3; outcome = timed_out; armed = 6 * second; over = 9 * second; unread = [] }
unfolding program
unanswered = refl

-- Each request for a resend sets the timer again.
kept_open :
    start_timed sending_response written 0 asked_twice
    ≡ record { sent = 3; outcome = timed_out; armed = 20 * second; over = 35 * second; unread = [] }
unfolding program
kept_open = refl

asked_twice-Within : Within 0 asked_twice
unfolding Within
asked_twice-Within = (omega arith, (omega arith, tt))

start_timed-TimedPost_example :
    TimedPost sending_response num_of_resend written 0 0 asked_twice
      (start_timed sending_response written 0 asked_twice)
start_timed-TimedPost_example =
    start_timed-TimedPost sending_response written 0 asked_twice asked_twice-Within
