-- ===== src/Waiting/Tests.antt =====
-- Runs of the registrations, and the theorems about them at concrete inputs.
use upfadapter.Prelude.{
  ◌≡◌, ◌≤◌, ◌+◌, refl, some, [], ◌∷◌, ℕ_discrete, nat_key, lookup, insert, delete,
}
use upfadapter.Waiting.{insert_upf_pfcp_txn, forget_upf_pfcp_txn, get_upf_pfcp_txn, Txns}
use upfadapter.Waiting.Delivery.{
  insert_call, get_call, delivered, inserted, holders, delivered-inserted,
}

program : Unit {0}
unfolding insert_upf_pfcp_txn forget_upf_pfcp_txn get_upf_pfcp_txn lookup insert delete ℕ_discrete
program = tt

abbrev two_waiting : Txns
two_waiting = (4, 40) ∷ (5, 50) ∷ []

fetched : get_upf_pfcp_txn 5 two_waiting ≡ ((4, 40) ∷ [], some 50)
unfolding program
fetched = refl

not_its_own : forget_upf_pfcp_txn 5 40 two_waiting ≡ two_waiting
unfolding program
not_its_own = refl

delivered-inserted_example :
    delivered 50 (get_call 5 ∷ insert_call 7 50 ∷ get_call 7 ∷ get_call 5 ∷ []) two_waiting
    ≤ inserted 50 (get_call 5 ∷ insert_call 7 50 ∷ get_call 7 ∷ get_call 5 ∷ [])
      + holders 50 two_waiting
delivered-inserted_example =
    delivered-inserted 50 (get_call 5 ∷ insert_call 7 50 ∷ get_call 7 ∷ get_call 5 ∷ []) two_waiting
