-- ===== src/Program.antt =====
-- The program: what the packages' init functions set (config/config.go, pfcp/udp/udp.go), and main and
-- serve of upfadapter.go with the goroutine that runs udp.Run. The signal, the end of ListenAndServe,
-- the choice of a select and the end of Shutdown are events.
pub mod Place
pub mod Ending
mod Tests
use upfadapter.Prelude.{
  is_some, ℕ, Bool, true, false, Option, none, some, List, [], ◌∷◌, if◌then◌else◌, ◌&&◌, not,
}
use upfadapter.Net.{Net, Text, Ip, UdpAddr}
use upfadapter.Pfcp.{Pfcp}
use upfadapter.Node.{NodeId, ipv4_address, Names, bytes_of, resolve_node_id_to_ip}
use upfadapter.Smf.{pfcp_port}
use upfadapter.Relay.{empty_table}
use upfadapter.Report.{EventData}
use upfadapter.Adapter.{Adapter}
use upfadapter.Udp.Service.{
  Stage, serving, closing, returned, Service, ServiceEvent, reads, dispatches, cancels, returns,
  run, serve_step,
}

module _ ⦃net : Net⦄ where
  -- config's init, given POD_IP.
  abbrev pub upf_adapter_ip : Text → Ip
  upf_adapter_ip pod_ip = net.to4 (net.parse_ip pod_ip)

  -- CPNodeID, as udp's init sets it.
  abbrev pub cp_node_id : Text → NodeId
  cp_node_id pod_ip = record {
    node_id_type = ipv4_address;
    node_id_value = bytes_of (upf_adapter_ip pod_ip);
    value_is_nil = not (is_some (upf_adapter_ip pod_ip));
  }

  -- The address that Run listens on.
  unfoldable pub listen_addr : (Text → Option Text) → Text → UdpAddr
  listen_addr resolver pod_ip = record {
    ip = net.parse_ip (net.ip_string (resolve_node_id_to_ip resolver (cp_node_id pod_ip) []).1);
    port = pfcp_port;
  }

-- The adapter before anything has happened.
abbrev pub initial : {M : Type 0} → Adapter M
initial = record {
  world = record {
    peers = record { addrs = []; nodes = []; relay_table = empty_table; hooked = none };
    smf = none;
    server = none;
  };
  txns = [];
  buffers = [];
  next_chan = 0;
  upfs = [];
  names = [];
}

-- The HTTP server: in ListenAndServe, out of it with an error that serve has not read, or shut down.
pub data HttpStage : Type 0 where
  listening broken shut_down : HttpStage

-- Where main stands: in the select of serve, in Shutdown, before `<-pfcpDone`, or out: after an error
-- of the HTTP server, or at its end.
pub data MainStage : Type 0 where
  selecting shutting_down joining failed terminated : MainStage

pub record Program (M : Type 0) : Type 0 where
  pub service : Service M EventData
  pub http : HttpStage
  pub stage : MainStage
  pub signalled : Bool

pub data MainEvent : Type 0 where
  signals http_fails takes_error takes_done shuts joins : MainEvent
  pfcp_runs : ServiceEvent → MainEvent

abbrev pub has_returned : Stage → Bool
has_returned returned = true
has_returned _ = false

-- What ListenAndServe, the select, Shutdown and the receive do, where they can.
abbrev pub breaks : HttpStage → HttpStage
breaks listening = broken
breaks http = http

abbrev pub take_error : HttpStage → MainStage → MainStage
take_error broken selecting = failed
take_error http stage = stage

abbrev pub take_done : Bool → MainStage → MainStage
take_done true selecting = shutting_down
take_done signalled stage = stage

-- The context of the PFCP socket is the program's.
abbrev pub is_ready : Bool → ServiceEvent → Bool
is_ready signalled cancels = signalled
is_ready signalled _ = true

abbrev pub is_over : MainStage → Bool
is_over failed = true
is_over terminated = true
is_over _ = false

module _ {M : Type 0} where
  -- main up to the select of serve.
  unfoldable pub main : UdpAddr → Option Text → ℕ → Program M
  main addr listened now = record {
    service = run addr listened now none 0;
    http = listening;
    stage = selecting;
    signalled = false;
  }

  unfoldable pub shut : MainStage → Program M → Program M
  shut shutting_down p = record p { stage = joining; http = shut_down }
  shut stage p = p

  unfoldable pub join : MainStage → Program M → Program M
  join joining p = if has_returned p.service.stage then record p { stage = terminated } else p
  join stage p = p

  module _ ⦃net : Net⦄ ⦃pfcp : Pfcp M⦄ where
    unfoldable pub live_step : Program M → MainEvent → Program M
    live_step p signals = record p { signalled = true }
    live_step p http_fails = record p { http = breaks p.http }
    live_step p takes_error = record p { stage = take_error p.http p.stage }
    live_step p takes_done = record p { stage = take_done p.signalled p.stage }
    live_step p shuts = shut p.stage p
    live_step p joins = join p.stage p
    live_step p (pfcp_runs e) =
        if is_ready p.signalled e then record p { service = serve_step p.service e } else p

    -- Once main is out, the process ends.
    unfoldable pub main_step : Program M → MainEvent → Program M
    main_step p e = if is_over p.stage then p else live_step p e

    unfoldable pub execute : Program M → List MainEvent → Program M
    execute p [] = p
    execute p (e ∷ es) = execute (main_step p e) es
