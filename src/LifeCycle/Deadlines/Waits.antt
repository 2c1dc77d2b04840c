-- ===== src/LifeCycle/Deadlines/Waits.antt =====
-- What the select of a round of Transaction.Start (pfcp/udp/transaction.go) waits for, and gives.
use upfadapter.Prelude.{
  ℕ, ◌+◌, ◌≤◌, ◌<◌, ◌⊎◌, ◌≡◌, refl, sym, subst, List, [], ◌∷◌, inl, inr, Bool-cases, arith,
  if◌then◌else◌, ltb,
}
use upfadapter.Udp.Tables.{
  TransactionType, sending_request, sending_response, EventType, receive_resend_request,
  receive_valid_response,
}
use upfadapter.LifeCycle.{Wait, event, expired, Outcome, finished, write_failed, timed_out}
use upfadapter.LifeCycle.Timed.{resend_response_timeout, Arrival, Ended, wait_until}

-- The events come in order, the first not before this time.
unfoldable pub Within : ℕ → List Arrival → Type 0
Within now [] = Unit
Within now (a ∷ es) = (now ≤ a.at) × Within a.at es

-- Not the event that ends the wait of a request, or starts that of a response again, between
-- these times.
unfoldable pub Outside : TransactionType → EventType → ℕ → ℕ → ℕ → Type 0
Outside sending_request receive_valid_response from to t = to ≤ t
Outside sending_response receive_resend_request from to t = (t ≤ from) ⊎ (to < t)
Outside sending_request receive_resend_request from to t = Unit
Outside sending_response receive_valid_response from to t = Unit

pub Silent : TransactionType → ℕ → ℕ → List Arrival → Type 0
Silent type from to [] = Unit
Silent type from to (a ∷ es) = Outside type a.kind from to a.at × Silent type from to es

-- What a timeout means.
unfoldable pub Quiet : TransactionType → List Arrival → ℕ → ℕ → Outcome → Type 0
Quiet sending_request es armed over timed_out = Silent sending_request armed over es
Quiet sending_response es armed over timed_out =
    (over ≡ armed + resend_response_timeout) × Silent sending_response armed over es
Quiet type es armed over finished = Unit
Quiet type es armed over write_failed = Unit

-- No event of these comes by the time that the timer fires, or the first of them does.
unfoldable pub Waited : ℕ → ℕ → List Arrival → Wait × ℕ × List Arrival → Type 0
Waited now deadline es (expired, at, later) =
    (at ≡ deadline)
    × (later ≡ es)
    × Within at later
    × ((type : TransactionType) (from : ℕ) → Silent type from at es)
Waited now deadline es (event kind, at, later) =
    (a : Arrival) × (es ≡ a ∷ later)
    × (a.kind ≡ kind)
    × (a.at ≡ at)
    × (now ≤ at)
    × (at ≤ deadline)
    × Within at later

late-Outside :
    (type : TransactionType) (kind : EventType) (from to at : ℕ)
    → to < at
    → Outside type kind from to at
unfolding Outside
late-Outside sending_request receive_valid_response from to at h = omega arith
late-Outside sending_response receive_resend_request from to at h = inr h
late-Outside sending_request receive_resend_request from to at h = tt
late-Outside sending_response receive_valid_response from to at h = tt

late-Silent :
    (type : TransactionType) (from to at : ℕ) (es : List Arrival)
    → Within at es
    → to < at
    → Silent type from to es
unfolding Silent Within
late-Silent type from to at [] w h = tt
late-Silent type from to at (a ∷ es) (w, within) h = (
  late-Outside type a.kind from to a.at (omega arith),
  late-Silent type from to a.at es within (omega arith),
)

pub wait_until-Waited :
    (now deadline : ℕ) (es : List Arrival)
    → Within now es
    → Waited now deadline es (wait_until now deadline es)
unfolding Waited wait_until Within Silent
wait_until-Waited now deadline [] w = (refl, refl, tt, λ type from. tt)
wait_until-Waited now deadline (a ∷ es) (w, within) = elim (Bool-cases (ltb deadline a.at)) [
  | inl late ↦ rw late (
    refl,
    refl,
    (ground (arith, late), within),
    λ type from. (
      late-Outside type a.kind from deadline a.at (ground (arith, late)),
      late-Silent type from deadline a.at es within (ground (arith, late)),
    ),
  )
  | inr soon ↦
      let on_time : (if ltb a.at now then now else a.at) ≡ a.at = ground arith in
      rw (soon, on_time) (a, refl, refl, refl, w, ground (arith, soon), within)
]

Quiet-event :
    (type : TransactionType) (a : Arrival) (es : List Arrival) (armed over : ℕ) (outcome : Outcome)
    → Outside type a.kind armed over a.at
    → Quiet type es armed over outcome
    → Quiet type (a ∷ es) armed over outcome
unfolding Quiet Silent
Quiet-event sending_request a es armed over timed_out first rest = (first, rest)
Quiet-event sending_response a es armed over timed_out first (exact, rest) = (exact, (first, rest))
Quiet-event type a es armed over finished first rest = tt
Quiet-event type a es armed over write_failed first rest = tt

unread-Outside :
    (kind : EventType) (from to at : ℕ) → to ≤ at → Outside sending_request kind from to at
unfolding Outside
unread-Outside receive_valid_response from to at h = h
unread-Outside receive_resend_request from to at h = tt

pub unread-Silent :
    (from to at : ℕ) (es : List Arrival)
    → Within at es
    → to ≤ at
    → Silent sending_request from to es
unfolding Silent Within
unread-Silent from to at [] w h = tt
unread-Silent from to at (a ∷ es) (w, within) h = (
  unread-Outside a.kind from to a.at (omega arith),
  unread-Silent from to a.at es within (omega arith),
)

pub Quiet-taken :
    (type : TransactionType) (a : Arrival) (es later : List Arrival) (kind : EventType) (e : Ended)
    → es ≡ a ∷ later
    → a.kind ≡ kind
    → Outside type kind e.armed e.over a.at
    → Quiet type later e.armed e.over e.outcome
    → Quiet type es e.armed e.over e.outcome
Quiet-taken type a es later kind e same is outside rest = rw (same) (
    Quiet-event type a later e.armed e.over e.outcome
      (subst (λ kind. Outside type kind e.armed e.over a.at) (sym is) outside) rest)
