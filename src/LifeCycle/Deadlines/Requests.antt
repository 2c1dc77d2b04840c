-- ===== src/LifeCycle/Deadlines/Requests.antt =====
-- When the loop of a request in Transaction.Start (pfcp/udp/transaction.go) ends.
use upfadapter.Prelude.{
  ℕ, zero, suc, ◌+◌, ◌≤◌, ◌≡◌, refl, subst, Bool, true, List, inl, inr, Bool-cases, arith,
  if◌then◌else◌,
}
use upfadapter.Udp.Tables.{sending_request, receive_resend_request, receive_valid_response}
use upfadapter.LifeCycle.{Wait, event, expired, finished, write_failed, request_loop}
use upfadapter.LifeCycle.Timed.{resend_request_timeout, Arrival, Ended, wait_until, request_timed}
use upfadapter.LifeCycle.Deadlines.Waits.{
  Within, Outside, Quiet, Waited, wait_until-Waited, Quiet-taken, unread-Silent,
}
use upfadapter.LifeCycle.Deadlines.Rounds.{
  TimedPost, alike, first_round, unwritten, round-TimedPost,
}

-- The end of a request, from what its select gave.
requested : ℕ → (ℕ → Bool) → ℕ → List Arrival → Wait × ℕ × List Arrival → Ended
requested left writes now es (wait, at, later) =
    let rest = request_timed left (λ k. writes (suc k)) at now later in
    if writes 0
    then elim wait [
      | event receive_valid_response ↦ record {
        sent = 1;
        outcome = finished;
        armed = now;
        over = at;
        unread = later;
      }
      | _ ↦ record rest { sent = suc rest.sent }
    ]
    else record { sent = 0; outcome = write_failed; armed = now; over = now; unread = es }

module _ (left : ℕ) (writes : ℕ → Bool) (now armed : ℕ) (es : List Arrival) where
  abbrev Resumed : Type 0
  Resumed =
      (at : ℕ) (later : List Arrival)
      → now ≤ at
      → Within at later
      → TimedPost sending_request left (λ k. writes (suc k)) at now later
          (request_timed left (λ k. writes (suc k)) at now later)

  written_request :
      (r : Wait × ℕ × List Arrival)
      → writes 0 ≡ true
      → armed ≤ now
      → Waited now (now + resend_request_timeout) es r
      → Resumed
      → TimedPost sending_request (suc left) writes now armed es (requested left writes now es r)
  unfolding requested Waited request_loop first_round alike Quiet Outside
  written_request (expired, at, later) sent h (e, same, within, silent) rest =
      let post = rest at later (omega arith) within in
      let more = request_timed left (λ k. writes (suc k)) at now later in
      rw sent (
        round-TimedPost left writes now armed es sending_request expired at now later more
          (λ rounds. refl) sent (omega arith) h
          (subst (λ es. Quiet sending_request es more.armed more.over more.outcome) same post.quiet)
          post)
  written_request (event receive_valid_response, at, later) sent h
        (a, same, kind, came, after, before, within) rest =
      rw sent (record {
        rounds = alike (event receive_valid_response) writes;
        as_written = λ k. refl;
        by_rounds = rw sent refl;
        in_time = omega arith;
        set = h;
        quiet = tt;
      })
  written_request (event receive_resend_request, at, later) sent h
        (a, same, kind, came, after, before, within) rest =
      let post = rest at later after within in
      let more = request_timed left (λ k. writes (suc k)) at now later in
      rw sent (
        round-TimedPost left writes now armed es sending_request (event receive_resend_request) at
          now later more (λ rounds. refl) sent (omega arith) h
          (Quiet-taken sending_request a es later _ more same kind tt post.quiet) post)

  requested-TimedPost :
      (r : Wait × ℕ × List Arrival)
      → armed ≤ now
      → Waited now (now + resend_request_timeout) es r
      → Resumed
      → TimedPost sending_request (suc left) writes now armed es (requested left writes now es r)
  unfolding requested
  requested-TimedPost r h waited rest = elim (Bool-cases (writes 0)) [
    | inl sent ↦ written_request r sent h waited rest
    | inr lost ↦ rw lost (unwritten left writes now armed es sending_request now lost h)
  ]

pub request_timed-TimedPost :
    (left : ℕ) (writes : ℕ → Bool) (now armed : ℕ) (es : List Arrival)
    → armed ≤ now
    → Within now es
    → TimedPost sending_request left writes now armed es (request_timed left writes now armed es)
unfolding request_timed requested request_loop Quiet alike
request_timed-TimedPost zero writes now armed es h w = record {
  rounds = alike expired writes;
  as_written = λ k. refl;
  by_rounds = refl;
  in_time = omega arith;
  set = omega arith;
  quiet = unread-Silent armed now now es w (omega arith);
}
request_timed-TimedPost (suc left) writes now armed es h w =
    requested-TimedPost left writes now armed es (wait_until now (now + resend_request_timeout) es)
      h (wait_until-Waited now _ es w)
      (λ at later after within.
        request_timed-TimedPost left (λ k. writes (suc k)) at now later after within)
