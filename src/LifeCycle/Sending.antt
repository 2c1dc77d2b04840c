-- ===== src/LifeCycle/Sending.antt =====
-- How often Transaction.Start of pfcp/udp/transaction.go writes, and with what result.
use upfadapter.Prelude.{
  ℕ, zero, suc, ◌<◌, subst, ◌⊎◌, ◌≡◌, ◌≢◌, refl, sym, ap, true, false, inl, inr, Bool-cases, arith,
}
use upfadapter.Udp.Tables.{
  TransactionType, sending_request, sending_response, EventType, receive_resend_request,
  receive_valid_response,
}
use upfadapter.LifeCycle.{
  num_of_resend, Wait, event, expired, Round, Outcome, finished, write_failed, timed_out,
  request_loop, response_loop, start,
}

-- A round that goes on: its write succeeds, and its wait brings no end.
abbrev pub GoesOn : TransactionType → Round → Type 0
GoesOn sending_request r = (r.writes ≡ true) × (r.wait ≢ event receive_valid_response)
GoesOn sending_response r = (r.writes ≡ true) × (r.wait ≢ expired)

-- The writes that the loop makes, and what the last of its rounds gave.
abbrev pub LoopPost : TransactionType → ℕ → (ℕ → Round) → ℕ × Outcome → Type 0
LoopPost sending_request left rounds (sent, finished) =
    (k : ℕ) × (sent ≡ suc k)
    × (k < left)
    × ((j : ℕ) → j < k → GoesOn sending_request (rounds j))
    × ((rounds k).writes ≡ true)
    × ((rounds k).wait ≡ event receive_valid_response)
LoopPost sending_request left rounds (sent, timed_out) =
    (sent ≡ left) × ((j : ℕ) → j < left → GoesOn sending_request (rounds j))
LoopPost sending_response left rounds (sent, finished) =
    (sent ≡ left) × ((j : ℕ) → j < left → GoesOn sending_response (rounds j))
LoopPost sending_response left rounds (sent, timed_out) =
    (k : ℕ) × (sent ≡ suc k)
    × (k < left)
    × ((j : ℕ) → j < k → GoesOn sending_response (rounds j))
    × ((rounds k).writes ≡ true)
    × ((rounds k).wait ≡ expired)
LoopPost type left rounds (sent, write_failed) =
    (sent < left) × ((j : ℕ) → j < sent → GoesOn type (rounds j)) × ((rounds sent).writes ≡ false)

goes_on :
    (type : TransactionType) (n : ℕ) (rounds : ℕ → Round)
    → GoesOn type (rounds 0)
    → ((j : ℕ) → j < n → GoesOn type (rounds (suc j)))
    → (j : ℕ) → j < suc n
    → GoesOn type (rounds j)
goes_on type n rounds first rest zero below = first
goes_on type n rounds first rest (suc j) below = rest j (omega (arith, below))

LoopPost-suc :
    (type : TransactionType) (left : ℕ) (rounds : ℕ → Round) (r : ℕ × Outcome)
    → GoesOn type (rounds 0)
    → LoopPost type left (λ k. rounds (suc k)) r
    → LoopPost type (suc left) rounds (suc r.0, r.1)
LoopPost-suc sending_request left rounds (sent, finished) first (k, e, below, rest, writes, wait) =
    (
      suc k,
      ap suc e,
      omega (arith, below),
      goes_on sending_request k rounds first rest,
      writes,
      wait,
    )
LoopPost-suc sending_request left rounds (sent, timed_out) first (e, rest) =
    (ap suc e, goes_on sending_request left rounds first rest)
LoopPost-suc sending_response left rounds (sent, finished) first (e, rest) =
    (ap suc e, goes_on sending_response left rounds first rest)
LoopPost-suc sending_response left rounds (sent, timed_out) first
      (k, e, below, rest, writes, wait) =
    (
      suc k,
      ap suc e,
      omega (arith, below),
      goes_on sending_response k rounds first rest,
      writes,
      wait,
    )
LoopPost-suc sending_request left rounds (sent, write_failed) first (below, rest, writes) =
    (omega (arith, below), goes_on sending_request sent rounds first rest, writes)
LoopPost-suc sending_response left rounds (sent, write_failed) first (below, rest, writes) =
    (omega (arith, below), goes_on sending_response sent rounds first rest, writes)

LoopPost-unwritten :
    (type : TransactionType) (left : ℕ) (rounds : ℕ → Round)
    → (rounds 0).writes ≡ false
    → LoopPost type (suc left) rounds (0, write_failed)
LoopPost-unwritten sending_request left rounds e =
    (omega arith, λ j below. absurd (omega (arith, below)), e)
LoopPost-unwritten sending_response left rounds e =
    (omega arith, λ j below. absurd (omega (arith, below)), e)

Wait-cases :
    (w : Wait)
    → (w ≡ event receive_valid_response) ⊎ ((w ≡ event receive_resend_request) ⊎ (w ≡ expired))
Wait-cases (event receive_valid_response) = inl refl
Wait-cases (event receive_resend_request) = inr (inl refl)
Wait-cases expired = inr (inr refl)

Wait-late : (w : Wait) → (w ≡ expired) ⊎ ((e : EventType) × (w ≡ event e))
Wait-late (event e) = inr (e, refl)
Wait-late expired = inl refl

request_loop-LoopPost :
    (left : ℕ) (rounds : ℕ → Round)
    → LoopPost sending_request left rounds (request_loop left rounds)
unfolding request_loop
request_loop-LoopPost zero rounds = (refl, λ j below. absurd (omega (arith, below)))
request_loop-LoopPost (suc left) rounds =
    let more = request_loop left (λ k. rounds (suc k)) in
    let rest = request_loop-LoopPost left (λ k. rounds (suc k)) in
    let Post = LoopPost sending_request (suc left) rounds in
    elim (Bool-cases (rounds 0).writes) [
      | inr lost ↦
          let step : request_loop (suc left) rounds ≡ (0, write_failed) = ground (arith, lost) in
          subst Post (sym step) (LoopPost-unwritten sending_request left rounds lost)
      | inl sent ↦ elim (Wait-cases (rounds 0).wait) [
        | inl valid ↦
            let step : request_loop (suc left) rounds ≡ (1, finished) =
              ground (arith, sent, valid) in
            subst Post (sym step)
              (0, refl, omega arith, λ j below. absurd (omega (arith, below)), sent, valid)
        | inr other ↦
            let waits : (rounds 0).wait ≢ event receive_valid_response = ground (arith, other) in
            let step : request_loop (suc left) rounds ≡ (suc more.0, more.1) =
              ground (arith, sent, other) in
            subst Post (sym step) (LoopPost-suc sending_request left rounds more (sent, waits) rest)
      ]
    ]

response_loop-LoopPost :
    (left : ℕ) (rounds : ℕ → Round)
    → LoopPost sending_response left rounds (response_loop left rounds)
unfolding response_loop
response_loop-LoopPost zero rounds = (refl, λ j below. absurd (omega (arith, below)))
response_loop-LoopPost (suc left) rounds =
    let more = response_loop left (λ k. rounds (suc k)) in
    let rest = response_loop-LoopPost left (λ k. rounds (suc k)) in
    let Post = LoopPost sending_response (suc left) rounds in
    elim (Bool-cases (rounds 0).writes) [
      | inr lost ↦
          let step : response_loop (suc left) rounds ≡ (0, write_failed) = ground (arith, lost) in
          subst Post (sym step) (LoopPost-unwritten sending_response left rounds lost)
      | inl sent ↦ elim (Wait-late (rounds 0).wait) [
        | inl late ↦
            let step : response_loop (suc left) rounds ≡ (1, timed_out) =
              ground (arith, sent, late) in
            subst Post (sym step)
              (0, refl, omega arith, λ j below. absurd (omega (arith, below)), sent, late)
        | inr (e, asked) ↦
            let step : response_loop (suc left) rounds ≡ (suc more.0, more.1) =
              ground (arith, sent, asked) in
            subst Post (sym step)
              (LoopPost-suc sending_response left rounds more (sent, ground (arith, asked)) rest)
      ]
    ]

-- A request is written until a write fails or a valid response comes, three times at most, and it
-- timed out exactly if three rounds went by with neither. An answer is written again for each event
-- that comes before the timer, three times at most: it timed out if the timer came first, and it
-- ends without an error after the third event.
pub start-LoopPost :
    (type : TransactionType) (rounds : ℕ → Round)
    → LoopPost type num_of_resend rounds (start type rounds)
unfolding start
start-LoopPost sending_request rounds = request_loop-LoopPost num_of_resend rounds
start-LoopPost sending_response rounds = response_loop-LoopPost num_of_resend rounds
