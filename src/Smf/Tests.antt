-- ===== src/Smf/Tests.antt =====
-- Runs of the address of the SMF, and the theorem about it at a concrete input.
use upfadapter.Prelude.{◌≡◌, refl, none, some, List, [], ◌∷◌}
use upfadapter.Net.{Text}
use upfadapter.Sample.{test_net}
use upfadapter.Smf.{pfcp_port, set_smf_addr, smf_addr}
use upfadapter.Smf.Claims.{last_destination, claims_made, smf_addr-claims_made}

program : Unit {0}
unfolding set_smf_addr smf_addr
program = tt

-- A usable claim, the unspecified address and no address.
abbrev three_claims : List Text
three_claims = (10 ∷ 7 ∷ []) ∷ (0 ∷ 0 ∷ []) ∷ [] ∷ []

kept : set_smf_addr (0 ∷ 0 ∷ []) (some (10 ∷ 7 ∷ [])) ≡ some (10 ∷ 7 ∷ [])
unfolding program
kept = refl

smf_addr-claims_made_example :
    smf_addr (claims_made three_claims none) ≡ elim (last_destination three_claims) [
      | none ↦ none
      | some addr ↦ some (record { ip = some addr; port = pfcp_port })
    ]
smf_addr-claims_made_example = smf_addr-claims_made three_claims
