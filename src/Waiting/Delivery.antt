-- ===== src/Waiting/Delivery.antt =====
-- To whom UpfTxns of config/config.go gives an answer.
use upfadapter.Prelude.{
  ℕ, ◌+◌, ◌≤◌, ◌≡◌, subst, if_pos, ◌≢◌, refl, sym, ap, ◌∙◌, Bool, true, false, none, some, List, [],
  ◌∷◌, ◌==◌, ite, ℕ_discrete, nat_key, lookup, insert, delete, lookup-insert, lookup-delete, inl,
  inr, Option-cases, arith,
}
use upfadapter.Waiting.{Chan, Txns, insert_upf_pfcp_txn, forget_upf_pfcp_txn, get_upf_pfcp_txn}

-- Forgetting takes away the number's registration exactly if it is the one that was given, and
-- leaves every other number's.
pub lookup-forget_upf_pfcp_txn :
    (seq : ℕ) (own : Chan) (t : Txns) (k : ℕ)
    → lookup k (forget_upf_pfcp_txn seq own t) ≡ elim (lookup k t) [
      | none ↦ none
      | some held ↦ ite (ℕ_discrete seq k) (ite (ℕ_discrete held own) none (some held)) (some held)
    ]
unfolding forget_upf_pfcp_txn
lookup-forget_upf_pfcp_txn seq own t k = ground (arith, lookup-delete seq k t)

pub lookup-insert_upf_pfcp_txn :
    (seq : ℕ) (chan : Chan) (t : Txns) (k : ℕ)
    → lookup k (insert_upf_pfcp_txn seq chan t) ≡ ite (ℕ_discrete seq k) (some chan) (lookup k t)
unfolding insert_upf_pfcp_txn
lookup-insert_upf_pfcp_txn seq chan t k = lookup-insert seq k chan t

-- A registration that is forgotten does not bring back the one that it replaced.
pub lookup-forgotten :
    (seq : ℕ) (chan : Chan) (t : Txns) (k : ℕ)
    → lookup k (forget_upf_pfcp_txn seq chan (insert_upf_pfcp_txn seq chan t))
      ≡ ite (ℕ_discrete seq k) none (lookup k t)
lookup-forgotten seq chan t k = ground (
  arith,
  lookup-forget_upf_pfcp_txn seq chan (insert_upf_pfcp_txn seq chan t) k,
  lookup-insert_upf_pfcp_txn seq chan t k,
)

forget_upf_pfcp_txn_other :
    (seq : ℕ) (own held : Chan) (t : Txns)
    → lookup seq t ≡ some held
    → held ≢ own
    → forget_upf_pfcp_txn seq own t ≡ t
unfolding forget_upf_pfcp_txn
forget_upf_pfcp_txn_other seq own held t e other = ground (arith, e, other)

pub get_upf_pfcp_txn_free :
    (seq : ℕ) (t : Txns) → lookup seq t ≡ none → get_upf_pfcp_txn seq t ≡ (t, none)
unfolding get_upf_pfcp_txn
get_upf_pfcp_txn_free seq t e = ground (arith, e)

pub get_upf_pfcp_txn_held :
    (seq : ℕ) (held : Chan) (t : Txns)
    → lookup seq t ≡ some held
    → get_upf_pfcp_txn seq t ≡ (delete seq t, some held)
unfolding get_upf_pfcp_txn
get_upf_pfcp_txn_held seq held t e = ground (arith, e)

get_upf_pfcp_txn_deleted :
    (seq : ℕ) (t : Txns) → get_upf_pfcp_txn seq (delete seq t) ≡ (delete seq t, none)
unfolding get_upf_pfcp_txn
get_upf_pfcp_txn_deleted seq t = ground (arith, lookup-delete seq seq t)

-- A request whose send failed takes nothing from a later request under the same number: the answer
-- goes to the later one, and to it once.
retransmission_keeps_its_answer :
    (seq : ℕ) (first second : Chan) (t : Txns)
    → second ≢ first
    → let failed =
        forget_upf_pfcp_txn seq first
          (insert_upf_pfcp_txn seq second (insert_upf_pfcp_txn seq first t)) in
      let answered = get_upf_pfcp_txn seq failed in
      (answered.1 ≡ some second) × ((get_upf_pfcp_txn seq answered.0).1 ≡ none)
unfolding insert_upf_pfcp_txn
retransmission_keeps_its_answer seq first second t other =
    let both = insert_upf_pfcp_txn seq second (insert_upf_pfcp_txn seq first t) in
    let held : lookup seq both ≡ some second =
      lookup-insert seq seq second (insert_upf_pfcp_txn seq first t)
      ∙ if_pos (ℕ_discrete seq seq) refl _ _ in
    let kept = forget_upf_pfcp_txn_other seq first second both held other in
    let given = get_upf_pfcp_txn_held seq second both held in
    subst
      (λ u.
        ((get_upf_pfcp_txn seq u).1 ≡ some second)
        × ((get_upf_pfcp_txn seq (get_upf_pfcp_txn seq u).0).1 ≡ none))
      (sym kept)
      (subst (λ r. (r.1 ≡ some second) × ((get_upf_pfcp_txn seq r.0).1 ≡ none)) (sym given)
        (refl, ap (λ r. r.1) (get_upf_pfcp_txn_deleted seq both)))

-- A call on the registrations.
pub data Call : Type 0 where
  insert_call forget_call : ℕ → Chan → Call
  get_call : ℕ → Call

pub step : Call → Txns → Txns
step (insert_call seq chan) t = insert_upf_pfcp_txn seq chan t
step (forget_call seq own) t = forget_upf_pfcp_txn seq own t
step (get_call seq) t = (get_upf_pfcp_txn seq t).0

abbrev one_if : Bool → ℕ
one_if true = 1
one_if false = 0

-- How often the calls give this channel out.
pub delivered : Chan → List Call → Txns → ℕ
delivered chan [] t = 0
delivered chan (get_call seq ∷ cs) t =
    let rest = delivered chan cs (step (get_call seq) t) in
    elim (get_upf_pfcp_txn seq t).1 [ none ↦ rest | some c ↦ one_if (c == chan) + rest ]
delivered chan (c ∷ cs) t = delivered chan cs (step c t)

-- How often they register it.
pub inserted : Chan → List Call → ℕ
inserted chan [] = 0
inserted chan (insert_call seq c ∷ cs) = one_if (c == chan) + inserted chan cs
inserted chan (c ∷ cs) = inserted chan cs

-- The numbers that it is registered under.
pub holders : Chan → Txns → ℕ
holders chan [] = 0
holders chan ((k, c) ∷ t) = one_if (c == chan) + holders chan t

holders-delete : (chan : Chan) (seq : ℕ) (t : Txns) → holders chan (delete seq t) ≤ holders chan t
unfolding holders delete
holders-delete chan seq [] = omega arith
holders-delete chan seq ((k, c) ∷ t) = ground (arith, holders-delete chan seq t)

-- Giving a channel out leaves one number fewer.
holders-taken :
    (chan c : Chan) (seq : ℕ) (t : Txns)
    → lookup seq t ≡ some c
    → one_if (c == chan) + holders chan (delete seq t) ≤ holders chan t
unfolding holders delete lookup
holders-taken chan c seq [] e = absurd (ground (arith, e))
holders-taken chan c seq ((k, d) ∷ t) e = elim (ℕ_discrete k seq) [
  | yes f ↦ ground (arith, e, f, holders-delete chan seq t)
  | no f ↦ ground (arith, e, f, holders-taken chan c seq t)
]

holders-insert_upf_pfcp_txn :
    (chan : Chan) (seq : ℕ) (c : Chan) (t : Txns)
    → holders chan (insert_upf_pfcp_txn seq c t) ≤ one_if (c == chan) + holders chan t
unfolding holders insert insert_upf_pfcp_txn
holders-insert_upf_pfcp_txn chan seq c t = omega (arith, holders-delete chan seq t)

holders-forget_upf_pfcp_txn :
    (chan : Chan) (seq : ℕ) (own : Chan) (t : Txns)
    → holders chan (forget_upf_pfcp_txn seq own t) ≤ holders chan t
unfolding forget_upf_pfcp_txn
holders-forget_upf_pfcp_txn chan seq own t = ground (arith, holders-delete chan seq t)

-- Whatever the order of the calls, a channel is given out at most as often as it was registered,
-- before them or by them: no registration is answered twice.
pub delivered-inserted :
    (chan : Chan) (cs : List Call) (t : Txns)
    → delivered chan cs t ≤ inserted chan cs + holders chan t
unfolding delivered inserted step
delivered-inserted chan [] t = omega arith
delivered-inserted chan (insert_call seq c ∷ cs) t = omega (
  arith,
  delivered-inserted chan cs (insert_upf_pfcp_txn seq c t),
  holders-insert_upf_pfcp_txn chan seq c t,
)
delivered-inserted chan (forget_call seq own ∷ cs) t = omega (
  arith,
  delivered-inserted chan cs (forget_upf_pfcp_txn seq own t),
  holders-forget_upf_pfcp_txn chan seq own t,
)
delivered-inserted chan (get_call seq ∷ cs) t = elim (Option-cases (lookup seq t)) [
  | inl e ↦ ground (arith, e, get_upf_pfcp_txn_free seq t e, delivered-inserted chan cs t)
  | inr (c, e) ↦ ground (
    arith,
    get_upf_pfcp_txn_held seq c t e,
    holders-taken chan c seq t e,
    delivered-inserted chan cs (delete seq t),
  )
]
