-- ===== src/Udp.antt =====
-- The PFCP socket: pfcp/udp/udp.go. Udp/Tables has the tables of its transactions.
pub mod Tables
pub mod Register
pub mod Absorb
pub mod Sent
pub mod Started
pub mod Resend
pub mod Reading
pub mod Calls
pub mod Service
pub mod Stopping
mod Tests
use upfadapter.Prelude.{
  ℕ, zero, suc, ◌+◌, Bool, true, false, Option, none, some, List, [], ◌∷◌, if◌then◌else◌, ◌==◌, ite,
  Text-discrete, text_key, nat_key, Map, keys, lookup, insert, delete, contains,
}
use upfadapter.Net.{Net, Text, UdpAddr}
use upfadapter.Pfcp.{Pfcp, MsgType, is_request, is_response}
use upfadapter.Udp.Tables.{
  EventType, SendError, Server, Transaction, TransactionType, TxTable, delete_by_host, delete_hosts,
  duplicate_sequence, forget_consumer, is_host, load, load_or_store, marshal_failed,
  not_initialized, not_listening, notify, put_attempts, put_loop, put_once, put_transaction,
  receive_resend_request, receive_valid_response, register_and_start, remove_transaction,
  sending_request, sending_response, still_holds, table_at, table_detached, table_of,
}

-- What findTransaction returns: nil and no error, a transaction, or an error.
pub data Lookup (E : Type 0) : Type 0 where
  no_transaction : Lookup E
  transaction : Transaction E → Lookup E
  no_table no_number : Lookup E

-- What a read gives: a message to dispatch, or an error. `resend` is ErrResendRequest and `closed` is
-- net.ErrClosed.
pub data Read (M : Type 0) : Type 0 where
  dispatch : M → UdpAddr → Read M
  resend : Read M
  closed : Read M
  read_failed : Read M

-- What the socket delivers: a packet, or an error.
pub data Packet : Type 0 where
  packet : Text → UdpAddr → Packet
  socket_closed socket_error : Packet

module _ {M : Type 0} {E : Type 0} ⦃net : Net⦄ ⦃pfcp : Pfcp M⦄ where
  -- NewTransaction; the message, its bytes and the destination are given. What is neither a request
  -- nor a response keeps the zero values.
  unfoldable pub new_transaction : M → Text → UdpAddr → E → Server E → Server E × Transaction E
  new_transaction msg bytes dest event_data s =
      let tx : Transaction E = record {
        id = s.next_tx;
        send_msg = bytes;
        sequence_number = pfcp.sequence msg;
        message_type = pfcp.message_type msg;
        tx_type =
            if is_request msg
            then sending_request
            else if is_response msg
            then sending_response
            else sending_request;
        dest_addr = dest;
        consumer_addr =
            if is_request msg
            then s.local_addr
            else if is_response msg
            then net.udp_string dest
            else [];
        event_data = event_data;
      } in
      (record s { next_tx = suc s.next_tx }, tx)

  -- SendPfcp
  unfoldable pub send_pfcp :
      M → UdpAddr → E → Option (Server E) → Option (Server E) × Option SendError
  send_pfcp msg dest event_data none = (none, some not_initialized)
  send_pfcp msg dest event_data (some s) =
      if s.listening
      then elim (pfcp.marshal msg) [
        | none ↦ (some s, some marshal_failed)
        | some bytes ↦
            let (s', tx) = new_transaction msg bytes dest event_data s in
            let (s'', err) = register_and_start tx s' in (some s'', err)
      ]
      else (some s, some not_listening)

  -- findTransaction
  unfoldable pub find_transaction : M → UdpAddr → Server E → Lookup E
  find_transaction msg addr s =
      let consumer = net.udp_string addr in
      if is_response msg
      then elim (load consumer s) [
        | none ↦ no_table
        | some id ↦ elim (lookup (pfcp.sequence msg) (table_at id s)) [
          | none ↦ no_number
          | some tx ↦ transaction tx
        ]
      ]
      else if is_request msg
      then elim (lookup (pfcp.sequence msg) (table_of consumer s)) [
        | none ↦ no_transaction
        | some tx ↦ transaction tx
      ]
      else no_transaction

  -- readPfcpMessage past the parsing of a packet.
  unfoldable pub receive : M → UdpAddr → Server E → Server E × Read M
  receive msg addr s =
      if is_request msg
      then elim (find_transaction msg addr s) [
        | no_transaction ↦ (s, dispatch msg addr)
        | transaction tx ↦ (notify tx.id receive_resend_request s, resend)
        | _ ↦ (s, read_failed)
      ]
      else if is_response msg
      then elim (find_transaction msg s.addr s) [
        | transaction tx ↦ (notify tx.id receive_valid_response s, dispatch msg addr)
        | _ ↦ (s, read_failed)
      ]
      else (s, dispatch msg addr)

  -- readPfcpMessage with the socket there.
  unfoldable pub read_packet : Packet → Server E → Option (Server E) × Read M
  read_packet socket_closed s = (some s, closed)
  read_packet socket_error s = (some s, read_failed)
  read_packet (packet bytes addr) s = elim (pfcp.parse bytes) [
    | none ↦ (some s, read_failed)
    | some msg ↦ let (s', r) = receive msg addr s in (some s', r)
  ]

  -- readPfcpMessage
  unfoldable pub read_pfcp_message : Packet → Option (Server E) → Option (Server E) × Read M
  read_pfcp_message p none = (none, read_failed)
  read_pfcp_message p (some s) = if s.listening then read_packet p s else (some s, read_failed)

  -- readLoop, over what the socket delivers: the messages that it dispatches, in order. Go's loop
  -- goes on for as long as the socket delivers; the list is what it delivers.
  pub read_loop : List Packet → Option (Server E) → Option (Server E) × List (M × UdpAddr)
  read_loop [] s = (s, [])
  read_loop (p ∷ ps) s =
      let (s', r) = read_pfcp_message p s in
      let (s'', rest) = read_loop ps s' in
      elim r [ dispatch msg addr ↦ (s'', (msg, addr) ∷ rest) | closed ↦ (s', []) | _ ↦ (s'', rest) ]
