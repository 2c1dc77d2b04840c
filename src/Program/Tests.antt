-- ===== src/Program/Tests.antt =====
-- The theorems about main at concrete inputs.
use upfadapter.Prelude.{
  ◌≡◌, refl, none, some, List, [], ◌∷◌, ◌++◌, Text-discrete, ℕ_discrete, lookup, insert, delete,
}
use upfadapter.Net.{Text, UdpAddr}
use upfadapter.Sample.{test_net, test_pfcp, Message, peer}
use upfadapter.Udp.{packet, receive, read_packet, read_pfcp_message, find_transaction}
use upfadapter.Report.{EventData}
use upfadapter.Udp.Service.{
  Service, Stage, reads, dispatches, cancels, closes, returns, run, read_step, dispatch_step,
  serve_step, serve,
}
use upfadapter.Udp.Stopping.{in_hand, Waited, serve_stops}
use upfadapter.Program.{
  MainEvent, signals, pfcp_runs, terminated, main, shut, join, live_step, main_step, execute,
  listen_addr,
}
use upfadapter.Program.Place.{Told}
use upfadapter.Program.Ending.{finale, main_ends_in_order, main_terminates}

program : Unit {0}
unfolding receive read_packet read_pfcp_message find_transaction run read_step dispatch_step
    serve_step serve main shut join live_step main_step execute listen_addr lookup insert delete
    Text-discrete ℕ_discrete
program = tt

abbrev home : Text
home = 10 ∷ 0 ∷ 0 ∷ 1 ∷ []

abbrev home_port : Text
home_port = 10 ∷ 0 ∷ 0 ∷ 1 ∷ b':' ∷ 8805 ∷ []

abbrev socket_addr : UdpAddr
socket_addr = record { ip = some home; port = 8805 }

-- Run listens on the address that POD_IP gives.
listens_at_home : listen_addr (λ name. none) home ≡ socket_addr
unfolding program upfadapter.Node.resolve_node_id_to_ip
listens_at_home = refl

-- A session report request is read when the signal comes.
abbrev signalled : List MainEvent
signalled = pfcp_runs (reads (packet (56 ∷ 5 ∷ []) peer)) ∷ signals ∷ []

-- It is dispatched all the same.
in_hand_dispatched :
    (execute
      (execute (main {M = Message} socket_addr (some home_port) 7) signalled)
      (finale (packet (56 ∷ 6 ∷ []) peer))).service.dispatched
    ≡ (record { kind = upfadapter.Pfcp.session_report_request; number = 5 }, peer) ∷ []
unfolding program
in_hand_dispatched = refl

main_ends_in_order_example :
    let p =
      execute
        (main {M = Message} socket_addr (some home_port) 7)
        (signalled ++ finale (packet (56 ∷ 6 ∷ []) peer)) in
    Told p.stage p.http p.signalled p.service.stage
main_ends_in_order_example =
    main_ends_in_order Message socket_addr (some home_port) 7
      (signalled ++ finale (packet (56 ∷ 6 ∷ []) peer))

main_terminates_example :
    (execute
      (execute (main {M = Message} socket_addr (some home_port) 7) signalled)
      (finale (packet (56 ∷ 6 ∷ []) peer))).stage
    ≡ terminated
unfolding program
main_terminates_example =
    main_terminates Message socket_addr (some home_port) 7 signalled (packet (56 ∷ 6 ∷ []) peer)
      refl refl

serve_stops_example :
    let s : Service Message EventData =
      serve (run socket_addr (some home_port) 7 none 0) (reads (packet (56 ∷ 5 ∷ []) peer) ∷ []) in
    let seen = serve (serve_step s cancels) (dispatches ∷ reads (packet (56 ∷ 7 ∷ []) peer) ∷ []) in
    let f = serve (serve_step seen closes) (dispatches ∷ []) in
    (f.dispatched ++ in_hand f.loop ≡ seen.dispatched ++ in_hand seen.loop)
    × Waited f.stage f.loop
    × ((serve f (dispatches ∷ reads (packet (56 ∷ 6 ∷ []) peer) ∷ returns ∷ [])).stage
        ≡ Stage.returned)
    × ((run {M = Message} {E = EventData} socket_addr none 7 none 0).stage ≡ Stage.returned)
    × ((run {M = Message} {E = EventData} socket_addr none 7 none 0).server ≡ none)
serve_stops_example =
    serve_stops socket_addr home_port 7 0 none (reads (packet (56 ∷ 5 ∷ []) peer) ∷ [])
      (dispatches ∷ reads (packet (56 ∷ 7 ∷ []) peer) ∷ []) (dispatches ∷ [])
      (packet (56 ∷ 6 ∷ []) peer)
