-- ===== src/LifeCycle/Deadlines/Rounds.antt =====
-- The rounds of Transaction.Start (pfcp/udp/transaction.go) that write, and go on or not.
use upfadapter.Prelude.{
  ℕ, zero, suc, ◌+◌, ◌*◌, ◌≤◌, ◌≡◌, refl, sym, ap, ◌∙◌, Bool, true, false, List, arith,
}
use upfadapter.Udp.Tables.{TransactionType, sending_request, sending_response}
use upfadapter.LifeCycle.{Wait, expired, Round, Outcome, write_failed, request_loop, response_loop}
use upfadapter.LifeCycle.Timed.{resend_request_timeout, resend_response_timeout, Arrival, Ended}
use upfadapter.LifeCycle.Deadlines.Waits.{Quiet}

abbrev pub timeout : TransactionType → ℕ
timeout sending_request = resend_request_timeout
timeout sending_response = resend_response_timeout

abbrev pub loop : TransactionType → ℕ → (ℕ → Round) → ℕ × Outcome
loop sending_request = request_loop
loop sending_response = response_loop

-- How the loop ends whose timer was set at a time, with so many rounds left.
pub record TimedPost (type : TransactionType) (left : ℕ) (writes : ℕ → Bool) (now armed : ℕ)
    (es : List Arrival) (e : Ended) : Type 0 where
  pub rounds : ℕ → Round
  pub as_written : (k : ℕ) → (rounds k).writes ≡ writes k
  pub by_rounds : (e.sent, e.outcome) ≡ loop type left rounds
  pub in_time : e.over ≤ now + left * timeout type
  pub set : armed ≤ e.armed
  pub quiet : Quiet type es e.armed e.over e.outcome

-- The rounds whose writes are given and whose wait is this.
unfoldable pub alike : Wait → (ℕ → Bool) → ℕ → Round
alike wait writes k = record { writes = writes k; wait = wait }

unfoldable pub first_round : Round → (ℕ → Round) → ℕ → Round
first_round r rounds zero = r
first_round r rounds (suc k) = rounds k

first_round_as_written :
    (r : Round) (rounds : ℕ → Round) (writes : ℕ → Bool)
    → r.writes ≡ writes 0
    → ((k : ℕ) → (rounds k).writes ≡ writes (suc k))
    → (k : ℕ) → (first_round r rounds k).writes ≡ writes k
unfolding first_round
first_round_as_written r rounds writes first rest zero = first
first_round_as_written r rounds writes first rest (suc k) = rest k

module _ (left : ℕ) (writes : ℕ → Bool) (now armed : ℕ) (es : List Arrival) where
  pub unwritten :
      (type : TransactionType) (set : ℕ)
      → writes 0 ≡ false
      → armed ≤ set
      → TimedPost type
          (suc left)
          writes
          now
          armed
          es
          (record { sent = 0; outcome = write_failed; armed = set; over = now; unread = es })
  unfolding request_loop response_loop alike Quiet
  unwritten sending_request set lost h = record {
    rounds = alike expired writes;
    as_written = λ k. refl;
    by_rounds = rw lost refl;
    in_time = omega arith;
    set = h;
    quiet = tt;
  }
  unwritten sending_response set lost h = record {
    rounds = alike expired writes;
    as_written = λ k. refl;
    by_rounds = rw lost refl;
    in_time = omega arith;
    set = h;
    quiet = tt;
  }

  -- A round that goes on, before the rest of the loop.
  pub round-TimedPost :
      (type : TransactionType) (wait : Wait) (at set : ℕ) (later : List Arrival) (e : Ended)
      → ((rounds : ℕ → Round)
          → loop type (suc left) (first_round (record { writes = true; wait = wait }) rounds)
            ≡ (suc (loop type left rounds).0, (loop type left rounds).1))
      → writes 0 ≡ true
      → at + left * timeout type ≤ now + suc left * timeout type
      → armed ≤ set
      → Quiet type es e.armed e.over e.outcome
      → TimedPost type left (λ k. writes (suc k)) at set later e
      → TimedPost type (suc left) writes now armed es (record e { sent = suc e.sent })
  round-TimedPost type wait at set later e step sent soon after quiet post = record {
    rounds = first_round (record { writes = true; wait = wait }) post.rounds;
    as_written = first_round_as_written _ post.rounds writes (sym sent) post.as_written;
    by_rounds = ap (λ r. (suc r.0, r.1)) post.by_rounds ∙ sym (step post.rounds);
    in_time = omega (arith, soon, post.in_time);
    set = omega (arith, after, post.set);
    quiet = quiet;
  }
