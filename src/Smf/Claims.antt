-- ===== src/Smf/Claims.antt =====
-- What a sequence of claims leaves as the address of the SMF, in config/config.go.
use upfadapter.Prelude.{◌≡◌, refl, none, some, List, [], ◌∷◌, if◌then◌else◌, arith}
use upfadapter.Net.{Net, Text, Ip}
use upfadapter.Smf.{pfcp_port, set_smf_addr, smf_addr}

module _ ⦃net : Net⦄ where
  -- The address that a claim names, if it is one to send to.
  abbrev pub destination : Text → Ip
  destination [] = none
  destination (c ∷ ip) = elim (net.parse_ip (c ∷ ip)) [
    | none ↦ none
    | some parsed ↦ if net.is_unspecified (some parsed) then none else some parsed
  ]

  -- The last claim of a sequence that names one.
  pub last_destination : List Text → Ip
  last_destination [] = none
  last_destination (claim ∷ claims) = elim (last_destination claims) [
    | none ↦ destination claim
    | some addr ↦ some addr
  ]

  pub claims_made : List Text → Ip → Ip
  claims_made [] addr = addr
  claims_made (claim ∷ claims) addr = claims_made claims (set_smf_addr claim addr)

  pub set_smf_addr_lem :
      (claim : Text) (addr : Ip)
      → set_smf_addr claim addr ≡ elim (destination claim) [ none ↦ addr | some a ↦ some a ]
  unfolding set_smf_addr
  set_smf_addr_lem [] addr = refl
  set_smf_addr_lem (c ∷ ip) addr = ground arith

  claims_made_lem :
      (claims : List Text) (addr : Ip)
      → claims_made claims addr ≡ elim (last_destination claims) [ none ↦ addr | some a ↦ some a ]
  unfolding claims_made last_destination
  claims_made_lem [] addr = refl
  claims_made_lem (claim ∷ claims) addr =
      ground (arith, claims_made_lem claims (set_smf_addr claim addr), set_smf_addr_lem claim addr)

  -- Messages of the user plane go to the address that the last usable claim named, on the port of
  -- PFCP, whatever unusable claims came after it, and nowhere if there was none.
  pub smf_addr-claims_made :
      (claims : List Text)
      → smf_addr (claims_made claims none) ≡ elim (last_destination claims) [
        | none ↦ none
        | some addr ↦ some (record { ip = some addr; port = pfcp_port })
      ]
  unfolding smf_addr
  smf_addr-claims_made claims = ground (arith, claims_made_lem claims none)
