-- ===== src/Elements.antt =====
-- What the adapter uses of the information elements of PFCP messages, in the package go-pfcp: a
-- parameter, an instance of `Elements` over a type of messages.
use upfadapter.Prelude.{ℕ, Bool, Option}
use upfadapter.Net.{Text, Ip}

-- A read is none where go-pfcp gives an error. `asrsp_flags` is none where the element is missing, and
-- `some none` where it cannot be read. `asks_retention` holds of an association setup request that
-- has the element.
pub record Elements (M : Type 0) : Type 0 where
  pub recovery_time_stamp : M → Option ℕ
  pub set_recovery_time_stamp : ℕ → M → M
  pub cause : M → Option ℕ
  pub cause_request_accepted : ℕ
  pub node_id : M → Option Text
  pub set_node_id : Text → M → M
  pub cp_fseid : M → Option ℕ
  pub set_cp_fseid : ℕ → Ip → M → M
  pub asks_retention : M → Bool
  pub asrsp_flags : M → Option (Option ℕ)
  pub set_asrsp_flags : Option ℕ → M → M
