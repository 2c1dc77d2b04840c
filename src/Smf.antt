-- ===== src/Smf.antt =====
-- The address of the SMF: SetSmfAddr and SmfAddr of config/config.go.
pub mod Claims
mod Tests
use upfadapter.Prelude.{ℕ, Option, none, some, List, [], ◌∷◌, if◌then◌else◌}
use upfadapter.Net.{Net, Text, Ip, UdpAddr}

abbrev pub pfcp_port : ℕ
pfcp_port = 8805

module _ ⦃net : Net⦄ where
  -- SetSmfAddr
  unfoldable pub set_smf_addr : Text → Ip → Ip
  set_smf_addr [] smf_addr = smf_addr
  set_smf_addr (c ∷ ip) smf_addr = elim (net.parse_ip (c ∷ ip)) [
    | none ↦ smf_addr
    | some parsed ↦ if net.is_unspecified (some parsed) then smf_addr else some parsed
  ]

-- SmfAddr
unfoldable pub smf_addr : Ip → Option UdpAddr
smf_addr none = none
smf_addr (some addr) = some (record { ip = some addr; port = pfcp_port })
