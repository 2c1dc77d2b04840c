-- ===== src/Udp/Service.antt =====
-- Run, serve and readLoop of pfcp/udp/udp.go as goroutines: the one that runs the read loop, and the
-- one in serve, which waits for the context and then for the loop. What the kernel gives Listen and
-- what the socket delivers are parameters; a closed socket fails every read with net.ErrClosed.
use upfadapter.Prelude.{ℕ, true, Option, none, some, List, [], ◌∷◌, ◌++◌}
use upfadapter.Net.{Net, Text, UdpAddr}
use upfadapter.Pfcp.{Pfcp}
use upfadapter.Udp.{
  Packet, socket_closed, Read, dispatch, resend, closed, read_failed, read_pfcp_message,
}
use upfadapter.Udp.Tables.{Server}

-- Where the goroutine of readLoop stands: before a read, before it starts Dispatch, or through.
pub data Loop (M : Type 0) : Type 0 where
  reading stopped : Loop M
  dispatching : M → UdpAddr → Loop M

-- Where Run stands: it waits for the context, it has still to close the socket, it waits for the loop
-- with the socket closed, or it has returned.
pub data Stage : Type 0 where
  serving context_ended closing returned : Stage

-- `dispatched` holds the messages that Dispatch was started with, in order.
pub record Service (M E : Type 0) : Type 0 where
  pub server : Option (Server E)
  pub start_time : ℕ
  pub loop : Loop M
  pub stage : Stage
  pub dispatched : List (M × UdpAddr)

pub data ServiceEvent : Type 0 where
  reads : Packet → ServiceEvent
  dispatches cancels closes returns : ServiceEvent

-- `&PfcpServer{Addr: addr, Conn: conn}`
abbrev pub new_server : {E : Type 0} → UdpAddr → Text → Server E
new_server addr local_addr = record {
  addr = addr;
  listening = true;
  local_addr = local_addr;
  consumers = [];
  tables = [];
  next_table = 0;
  next_tx = 0;
  channels = [];
  started = [];
}

-- What a read of the socket gives, by whether it is closed.
abbrev pub delivered : Stage → Packet → Packet
delivered serving p = p
delivered context_ended p = p
delivered _ p = socket_closed

-- `<-ctx.Done()`
abbrev pub cancelled : Stage → Stage
cancelled serving = context_ended
cancelled stage = stage

-- `conn.Close()`; the read loop may have read and dispatched more since the context was cancelled.
abbrev pub shut_socket : Stage → Stage
shut_socket context_ended = closing
shut_socket stage = stage

module _ {M : Type 0} where
  -- readLoop after a read.
  abbrev pub after_read : Read M → Loop M
  after_read (dispatch msg addr) = dispatching msg addr
  after_read closed = stopped
  after_read resend = reading
  after_read read_failed = reading

  -- The wait for the loop.
  abbrev pub waited : Loop M → Stage → Stage
  waited stopped closing = returned
  waited loop stage = stage

module _ {M E : Type 0} where
  -- Run up to its wait; the socket has the address that Listen gave, or could not be opened. What was
  -- there before is that of package variables.
  unfoldable pub run : UdpAddr → Option Text → ℕ → Option (Server E) → ℕ → Service M E
  run addr none now server start_time = record {
    server = server;
    start_time = start_time;
    loop = stopped;
    stage = returned;
    dispatched = [];
  }
  run addr (some local_addr) now server start_time = record {
    server = some (new_server addr local_addr);
    start_time = now;
    loop = reading;
    stage = serving;
    dispatched = [];
  }

  module _ ⦃net : Net⦄ ⦃pfcp : Pfcp M⦄ where
    unfoldable pub read_step : Loop M → Packet → Service M E → Service M E
    read_step reading p s =
        let (server, r) = read_pfcp_message (delivered s.stage p) s.server in
        record s { server = server; loop = after_read r }
    read_step loop p s = s

    unfoldable pub dispatch_step : Loop M → Service M E → Service M E
    dispatch_step (dispatching msg addr) s = record s {
      loop = reading;
      dispatched = s.dispatched ++ ((msg, addr) ∷ []);
    }
    dispatch_step loop s = s

    unfoldable pub serve_step : Service M E → ServiceEvent → Service M E
    serve_step s (reads p) = read_step s.loop p s
    serve_step s dispatches = dispatch_step s.loop s
    serve_step s cancels = record s { stage = cancelled s.stage }
    serve_step s closes = record s { stage = shut_socket s.stage }
    serve_step s returns = record s { stage = waited s.loop s.stage }

    unfoldable pub serve : Service M E → List ServiceEvent → Service M E
    serve s [] = s
    serve s (e ∷ es) = serve (serve_step s e) es
