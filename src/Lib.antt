-- ===== src/Lib.antt =====
-- upfadapter: the PFCP adapter between an SMF and its user planes.
--
-- The SMF posts PFCP messages over HTTP; the adapter sends them to the user plane they name, and
-- answers the post with the user plane's response. A session report goes the other way: a user
-- plane raises it, the adapter relays it to the SMF under a number of its own, and the SMF's answer
-- goes back under the user plane's number.
--
-- The parts, and the files that model them:
--   Relay: the session reports in flight (config/config.go). `RelayTable` holds reportRelays,
--     relaysByHost, relayGenerations, reportRelaySeq and lastRelaySweep. RelayReportSequence is
--     `relay_report_sequence`, RenumberReportRelay `renumber_report_relay`, TakeReportRelay
--     `take_report_relay`, ForgetReportRelay `forget_report_relay`, ForgetRelaysForHost
--     `forget_relays_for_host`, RelayGeneration `relay_generation`.
--   Peers: the addresses of the user planes that the SMF names (config/config.go). `Peers` holds
--     upfAddrs, upfNodeAddrs, the relay tables that a release clears and the state of the hook
--     OnUpfAddrReleased. RecordUpfAddr is `record_upf_addr`, IsKnownUpfAddr `is_known_upf_addr`.
--   Pfcp: the message types (pfcp/udp/pfcp_message_type.go).
--   Udp: the socket and its transaction tables (pfcp/udp/udp.go, pfcp/udp/transaction.go). `Server`
--     is PfcpServer; PutTransaction is `put_transaction`, SendPfcp `send_pfcp`, readPfcpMessage
--     `read_pfcp_message`, readLoop `read_loop`, removeTransaction `remove_transaction`,
--     ForgetConsumer `forget_consumer`. The tables stand in Udp/Tables. Udp/Service is Run, serve and
--     readLoop as two goroutines, over a list of events: a read of the socket and the start of
--     Dispatch are events of their own.
--   LifeCycle: Transaction.Start is `start`, startTxLifeCycle `start_tx_life_cycle`. LifeCycle/Timed is
--     Start with its timers, `start_timed`, over events that come at given times.
--   Waiting: UpfTxns, the requests that wait for an answer (config/config.go).
--   Smf: SetSmfAddr and SmfAddr (config/config.go).
--   Report: the handlers of session reports (pfcp/handler/handler.go) over a `World` of the parts:
--     HandlePfcpSessionReportRequest is `handle_pfcp_session_report_request`, its loop `relay_loop`,
--     its error handler `relay_unanswered`, HandlePfcpSessionReportResponse
--     `handle_pfcp_session_report_response`, refuseAndRelease `refuse_and_release`.
--   Goroutine: the same handlers call by call (pfcp/handler/handler.go). A `Position` is the call that a
--     goroutine makes next, with what it has read; `advance` makes it. Goroutine/Interleaved runs any
--     number of them with whatever else touches their tables, over a list of events.
--   Node: NewNodeID, ResolveNodeIdToIp and RefreshDnsHostIpCache (types/nodeid.go), over the cache
--     of resolved names; the resolver is a parameter.
--   Upfs: the user planes that associations are set up with (config/config.go). `Upfs` is UpfCfg.UPFs;
--     IsUpfAssociated is `is_upf_associated`, GetUpfFromNodeId `get_upf_from_node_id`, InsertUpfNode
--     `insert_upf_node`, ActivateUpfNode `activate_upf_node`, PreservePfcpAssociationRsp
--     `preserve_pfcp_association_rsp`; BuildPfcpAssociationResponse (pfcp/handler/handler.go) is
--     `build_pfcp_association_response`. `UpfLock` is what the calls leave of a node's UpfLock: a read
--     lock that a panic passed over is never released.
--   Retention: answerRetention (pfcp/util.go), on the byte of flags.
--   Adapter: the state of all parts together, with the channels of the requests that wait: a channel
--     is a number, and what was sent on it and not received is in `buffers`, which has room for one.
--   Handlers: the handlers of responses, HandlePfcpSendError (pfcp/handler/handler.go), Dispatch
--     (pfcp/dispatcher.go) is `dispatch`, and startTxLifeCycle with the adapter's error handlers is
--     `finish_transaction`. A handler returns, waits for good for the lock of a node, blocks for good on a
--     full channel, or panics (`Ran`).
--     Handlers/Stable says what all of them keep; Handlers/Mailbox and System/Order apply it.
--   Forward: ForwardPfcpMsgToUpf up to its wait is `forward_pfcp_msg_to_upf` (pfcp/util.go), the five
--     senders of pfcp/message/send.go are `send_to_upf`; the receive that ends the wait is
--     `receive_rsp`.
--   Http: the HTTP handler up to its wait is `handler` (upfadapter.go), what it writes after the wait
--     `respond`.
--   System: posts, the dispatcher, the ends of transactions and the receives in any order, as `run`
--     over a list of events on the state of all parts; System/Exchange follows one request through
--     such a run.
--   Program: what the init functions set, and main and serve of upfadapter.go with the goroutine of
--     udp.Run, over a list of events: the signal, a failure of the HTTP server, the choice of the
--     select, the end of Shutdown, the receive that waits for Run, and the events of Udp/Service.
--   Prelude holds the maps, the sets of a map and the Boolean tests that the parts share; Net the
--     addresses and times; Sample a network and messages for the tests, which stand in each part's
--     Tests.
-- Pointers to tables and transactions are numbers into a store of the state, so that the sharing of
-- a table that a release detached is kept. A map is a list of entries; a walk over one goes through
-- its keys as they are when the walk begins, and reads an entry when it visits it.
--
-- Each operation that holds a mutex throughout is one function from state to state. Sequences of
-- calls are lists, in whatever order goroutines make them. Where one operation calls several parts,
-- as RecordUpfAddr does, it holds the lock of the first throughout. SendPfcp
-- with the start of its transaction is one step.
--
-- Bounds and fuel: the search for a free number makes `(ceil + 2 ^ 32 - floor + 1) % 2 ^ 32` trips,
-- as the code does, which is every number of the range. The count of releases wraps at `2 ^ 64`.
-- PutTransaction has three attempts, Start three rounds and the loop of a report four attempts, as
-- in the code. The rounds of Start and the packets of the socket are given, a function and a list.
--
-- Parameters: the package net (`Net`) and the package go-pfcp (`Pfcp`, and `Elements` for the
-- information elements), as records of functions without laws; where a theorem needs a law of them,
-- it is a hypothesis (`Encodes` for the handlers of reports, `KeepsHeader` for an exchange). The
-- decoding of JSON and the printing of a node's key are parameters too (`Decoding`). Go leaves open
-- in which order a range visits a map: where the order decides, it is given. Times are nanoseconds
-- since the zero time, given to each operation.
--
-- Not modelled: logging and its level; what Listen, ListenAndServe and Shutdown do inside, whose
-- results are parameters and events; the ticker that calls RefreshDnsHostIpCache; how long a
-- transaction takes beside the rest of the adapter, where its rounds are given; what other
-- goroutines do while a call of ForwardPfcpMsgToUpf up to its wait runs, or a handler of a response
-- other than a session report's, each of which is one step; a read of a missing information element
-- is an error here, whatever go-pfcp does with it. A panic of one goroutine ends the program in Go;
-- among the goroutines of Goroutine it is a place that is not left, and the others may go on.
pub mod Prelude
pub mod Net
pub mod Relay
pub mod Peers
pub mod Sample
pub mod Pfcp
pub mod Elements
pub mod Udp
pub mod LifeCycle
pub mod Waiting
pub mod Smf
pub mod Report
pub mod Goroutine
pub mod Node
pub mod Upfs
pub mod Retention
pub mod Adapter
pub mod Handlers
pub mod Forward
pub mod Http
pub mod System
pub mod Program
