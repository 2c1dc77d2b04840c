-- ===== src/Adapter.antt =====
-- The adapter's state as its handlers share it: that of the session reports, the requests of the SMF
-- that wait for an answer (config/config.go) with the buffers of their channels, the associated user
-- planes and the cache of names.
use upfadapter.Prelude.{ℕ, Option, none, some, nat_key, Map, lookup, insert, delete}
use upfadapter.Net.{Net, Text, Ip}
use upfadapter.LifeCycle.{Outcome}
use upfadapter.Waiting.{Chan, Txns}
use upfadapter.Upfs.{Upfs}
use upfadapter.Node.{Names}
use upfadapter.Peers.{Peers, record_upf_addr}
use upfadapter.Udp.Tables.{Server, forget_consumer}
use upfadapter.Report.{World, EventData}

-- PfcpHttpRsp: the encoded response, or the error.
pub data HttpRsp : Type 0 where
  rsp : Text → HttpRsp
  err : Outcome → HttpRsp

-- What the hook OnUpfAddrReleased works on: the server. `world` has the server itself; RecordUpfAddr
-- gives it to the hook, so what `world.peers` holds of it between two calls does not matter.
abbrev pub Hooked : Type 0
Hooked = Option (Server EventData)

-- RecordUpfAddr as the adapter runs it: the hook is ForgetConsumer, on the server.
abbrev pub name_peer : ⦃net : Net⦄ → ℕ → ℕ → Text → Ip → World Hooked → World Hooked
name_peer now clock node ip w =
    let hooked : Peers Hooked = record w.peers { hooked = w.server } in
    let peers = record_upf_addr (some forget_consumer) now clock node ip hooked in
    record w { peers = peers; server = peers.hooked }

-- `buffers` holds what was sent on a channel and not received; each has room for one.
pub record Adapter (M : Type 0) : Type 0 where
  pub world : World Hooked
  pub txns : Txns
  pub buffers : Map Chan HttpRsp
  pub next_chan : Chan
  pub upfs : Upfs M
  pub names : Names

-- What becomes of a goroutine that runs a handler: it returns, waits for good for the lock of a node,
-- blocks for good on a full channel, or panics.
pub data Ran (A : Type 0) : Type 0 where
  done locked_out : A → Ran A
  blocks panics : Ran A

module _ {M : Type 0} where
  -- `pfcpTxnChan <- rsp`
  unfoldable pub put : Chan → HttpRsp → Adapter M → Ran (Adapter M)
  put chan answer a = elim (lookup chan a.buffers) [
    | none ↦ done (record a { buffers = insert chan answer a.buffers })
    | some _ ↦ blocks
  ]

  -- `<-pfcpTxnChan`; none where it has to wait.
  unfoldable pub receive_rsp : Chan → Adapter M → Option (Adapter M × HttpRsp)
  receive_rsp chan a = elim (lookup chan a.buffers) [
    | none ↦ none
    | some answer ↦ some (record a { buffers = delete chan a.buffers }, answer)
  ]
