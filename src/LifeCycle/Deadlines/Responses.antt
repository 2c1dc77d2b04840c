-- ===== src/LifeCycle/Deadlines/Responses.antt =====
-- When the loop of a response in Transaction.Start (pfcp/udp/transaction.go) ends.
use upfadapter.Prelude.{
  ℕ, zero, suc, ◌+◌, ◌≤◌, ◌≡◌, refl, Bool, true, List, inl, inr, Bool-cases, arith, if◌then◌else◌,
}
use upfadapter.Udp.Tables.{sending_response, receive_resend_request, receive_valid_response}
use upfadapter.LifeCycle.{Wait, event, expired, write_failed, timed_out, response_loop}
use upfadapter.LifeCycle.Timed.{resend_response_timeout, Arrival, Ended, wait_until, response_timed}
use upfadapter.LifeCycle.Deadlines.Waits.{
  Within, Outside, Quiet, Waited, wait_until-Waited, Quiet-taken,
}
use upfadapter.LifeCycle.Deadlines.Rounds.{
  TimedPost, alike, first_round, unwritten, round-TimedPost,
}

-- The end of a response, from what its select gave.
responded : ℕ → (ℕ → Bool) → ℕ → ℕ → List Arrival → Wait × ℕ × List Arrival → Ended
responded left writes now armed es (wait, at, later) =
    let reset = response_timed left (λ k. writes (suc k)) at at later in
    let kept = response_timed left (λ k. writes (suc k)) at armed later in
    if writes 0
    then elim wait [
      | event receive_resend_request ↦ record reset { sent = suc reset.sent }
      | event receive_valid_response ↦ record kept { sent = suc kept.sent }
      | expired ↦ record { sent = 1; outcome = timed_out; armed = armed; over = at; unread = later }
    ]
    else record { sent = 0; outcome = write_failed; armed = armed; over = now; unread = es }

module _ (left : ℕ) (writes : ℕ → Bool) (now armed : ℕ) (es : List Arrival) where
  abbrev Resumed : Type 0
  Resumed =
      (at set : ℕ) (later : List Arrival)
      → set ≤ at
      → Within at later
      → TimedPost sending_response left (λ k. writes (suc k)) at set later
          (response_timed left (λ k. writes (suc k)) at set later)

  written_response :
      (r : Wait × ℕ × List Arrival)
      → writes 0 ≡ true
      → armed ≤ now
      → Waited now (armed + resend_response_timeout) es r
      → Resumed
      → TimedPost sending_response
          (suc left)
          writes
          now
          armed
          es
          (responded left writes now armed es r)
  unfolding responded Waited response_loop first_round alike Quiet Outside
  written_response (expired, at, later) sent h (e, same, within, silent) rest = rw sent (record {
    rounds = alike expired writes;
    as_written = λ k. refl;
    by_rounds = rw sent refl;
    in_time = omega arith;
    set = omega arith;
    quiet = (e, silent sending_response armed);
  })
  written_response (event receive_resend_request, at, later) sent h
        (a, same, kind, came, after, before, within) rest =
      let post = rest at at later (omega arith) within in
      let more = response_timed left (λ k. writes (suc k)) at at later in
      rw sent (
        round-TimedPost left writes now armed es sending_response (event receive_resend_request) at
          at later more (λ rounds. refl) sent (omega arith) (omega arith)
          (Quiet-taken sending_response a es later _ more same kind
            (inl (omega (arith, came, post.set))) post.quiet)
          post)
  written_response (event receive_valid_response, at, later) sent h
        (a, same, kind, came, after, before, within) rest =
      let post = rest at armed later (omega arith) within in
      let more = response_timed left (λ k. writes (suc k)) at armed later in
      rw sent (
        round-TimedPost left writes now armed es sending_response (event receive_valid_response) at
          armed later more (λ rounds. refl) sent (omega arith) (omega arith)
          (Quiet-taken sending_response a es later _ more same kind tt post.quiet) post)

  responded-TimedPost :
      (r : Wait × ℕ × List Arrival)
      → armed ≤ now
      → Waited now (armed + resend_response_timeout) es r
      → Resumed
      → TimedPost sending_response
          (suc left)
          writes
          now
          armed
          es
          (responded left writes now armed es r)
  unfolding responded
  responded-TimedPost r h waited rest = elim (Bool-cases (writes 0)) [
    | inl sent ↦ written_response r sent h waited rest
    | inr lost ↦
        rw lost (unwritten left writes now armed es sending_response armed lost (omega arith))
  ]

pub response_timed-TimedPost :
    (left : ℕ) (writes : ℕ → Bool) (now armed : ℕ) (es : List Arrival)
    → armed ≤ now
    → Within now es
    → TimedPost sending_response left writes now armed es (response_timed left writes now armed es)
unfolding response_timed responded response_loop Quiet alike
response_timed-TimedPost zero writes now armed es h w = record {
  rounds = alike expired writes;
  as_written = λ k. refl;
  by_rounds = refl;
  in_time = omega arith;
  set = omega arith;
  quiet = tt;
}
response_timed-TimedPost (suc left) writes now armed es h w =
    responded-TimedPost left writes now armed es
      (wait_until now (armed + resend_response_timeout) es) h (wait_until-Waited now _ es w)
      (λ at set later before within.
        response_timed-TimedPost left (λ k. writes (suc k)) at set later before within)
