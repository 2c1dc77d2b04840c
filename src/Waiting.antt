-- ===== src/Waiting.antt =====
-- The requests that wait for an answer of a user plane: UpfTxns of config/config.go. A channel is a
-- number; its only maker never registers a nil one.
pub mod Delivery
mod Tests
use upfadapter.Prelude.{
  ℕ, Option, none, some, List, [], ◌∷◌, ◌==◌, if◌then◌else◌, nat_key, Map, lookup, insert, delete,
}

abbrev pub Chan : Type 0
Chan = ℕ

-- UpfTxns
abbrev pub Txns : Type 0
Txns = Map ℕ Chan

-- InsertUpfPfcpTxn
unfoldable pub insert_upf_pfcp_txn : ℕ → Chan → Txns → Txns
insert_upf_pfcp_txn seq chan t = insert seq chan t

-- ForgetUpfPfcpTxn
pub forget_upf_pfcp_txn : ℕ → Chan → Txns → Txns
forget_upf_pfcp_txn seq own t = elim (lookup seq t) [
  | none ↦ t
  | some held ↦ if held == own then delete seq t else t
]

-- GetUpfPfcpTxn: none where Go returns nil.
unfoldable pub get_upf_pfcp_txn : ℕ → Txns → Txns × Option Chan
get_upf_pfcp_txn seq t = elim (lookup seq t) [
  | none ↦ (t, none)
  | some chan ↦ (delete seq t, some chan)
]
