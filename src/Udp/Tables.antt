-- ===== src/Udp/Tables.antt =====
-- The transaction tables of the PFCP socket: pfcp/udp/transaction.go, and PutTransaction,
-- removeTransaction and ForgetConsumer of pfcp/udp/udp.go. Tables are shared by pointer, so they
-- stand in a store and the consumer table holds their numbers; a transaction's number is its
-- pointer. PutTransaction and DeleteByHost hold registerMu throughout.
use upfadapter.Prelude.{
  ℕ, zero, suc, Bool, true, false, Option, none, some, List, [], ◌∷◌, if◌then◌else◌, ◌==◌, ite,
  Text-discrete, text_key, nat_key, Map, keys, lookup, insert, delete, contains,
}
use upfadapter.Net.{Net, Text, UdpAddr}
use upfadapter.Pfcp.{MsgType}

pub data TransactionType : Type 0 where
  sending_request sending_response : TransactionType

pub data EventType : Type 0 where
  receive_resend_request receive_valid_response : EventType

-- `Transaction`, over the type of the event data.
pub record Transaction (E : Type 0) : Type 0 where
  pub id : ℕ
  pub send_msg : Text
  pub sequence_number : ℕ
  pub message_type : MsgType
  pub tx_type : TransactionType
  pub dest_addr : UdpAddr
  pub consumer_addr : Text
  pub event_data : E

-- `TxTable`
abbrev pub TxTable : Type 0 → Type 0
TxTable E = Map ℕ (Transaction E)

-- `PfcpServer`: its tables, the event that each transaction's channel holds, and the transactions
-- whose life cycle was started, the latest first. `listening` says that the socket is there.
pub record Server (E : Type 0) : Type 0 where
  pub addr : UdpAddr
  pub listening : Bool
  pub local_addr : Text
  pub consumers : Map Text ℕ
  pub tables : Map ℕ (TxTable E)
  pub next_table : ℕ
  pub next_tx : ℕ
  pub channels : Map ℕ EventType
  pub started : List (Transaction E)

pub data SendError : Type 0 where
  not_initialized not_listening marshal_failed duplicate_sequence table_detached : SendError

abbrev pub put_attempts : ℕ
put_attempts = 3

module _ {E : Type 0} where
  -- The table behind a pointer.
  abbrev pub table_at : ℕ → Server E → TxTable E
  table_at id s = elim (lookup id s.tables) [ none ↦ [] | some t ↦ t ]

  -- ConsumerTable.Load
  abbrev pub load : Text → Server E → Option ℕ
  load consumer s = lookup consumer s.consumers

  -- The transactions that a look-up for this consumer reaches.
  abbrev pub table_of : Text → Server E → TxTable E
  table_of consumer s = elim (load consumer s) [ none ↦ [] | some id ↦ table_at id s ]

  -- ConsumerTable.LoadOrStore, with a new table.
  unfoldable pub load_or_store : Text → Server E → Server E × ℕ
  load_or_store consumer s = elim (load consumer s) [
    | some id ↦ (record s { next_table = suc s.next_table }, id)
    | none ↦ (
      record s {
        consumers = insert consumer s.next_table s.consumers;
        tables = insert s.next_table [] s.tables;
        next_table = suc s.next_table;
      },
      s.next_table,
    )
  ]

  -- ConsumerTable.stillHolds
  unfoldable pub still_holds : Text → ℕ → Server E → Bool
  still_holds consumer id s = elim (load consumer s) [ none ↦ false | some current ↦ current == id ]

  -- One round of PutTransaction; none if the table turned out to be detached.
  unfoldable pub put_once : Transaction E → Server E → Server E × Option (Option SendError)
  put_once tx s =
      let (s', id) = load_or_store tx.consumer_addr s in
      let table = table_at id s' in
      let stored : Server E = record s' {
        tables = insert id (insert tx.sequence_number tx table) s'.tables;
      } in
      if contains tx.sequence_number table
      then (s', some (some duplicate_sequence))
      else if still_holds tx.consumer_addr id stored
      then (stored, some none)
      else (stored, none)

  unfoldable pub put_loop : ℕ → Transaction E → Server E → Server E × Option SendError
  put_loop zero tx s = (s, some table_detached)
  put_loop (suc attempts) tx s =
      let (s', done) = put_once tx s in
      elim done [ some result ↦ (s', result) | none ↦ put_loop attempts tx s' ]

  -- PutTransaction: none where Go returns nil.
  unfoldable pub put_transaction : Transaction E → Server E → Server E × Option SendError
  put_transaction = put_loop put_attempts

  -- The rest of SendPfcp, once the socket is there and the message is encoded.
  unfoldable pub register_and_start : Transaction E → Server E → Server E × Option SendError
  register_and_start tx s =
      let (s', err) = put_transaction tx s in
      elim err [ some e ↦ (s', some e) | none ↦ (record s' { started = tx ∷ s'.started }, none) ]

  -- removeTransaction: whether it removed this very transaction.
  unfoldable pub remove_transaction : Transaction E → Server E → Server E × Bool
  remove_transaction tx s = elim (load tx.consumer_addr s) [
    | none ↦ (s, false)
    | some id ↦ elim (lookup tx.sequence_number (table_at id s)) [
      | none ↦ (s, false)
      | some current ↦
          if current.id == tx.id
          then (
            record s { tables = insert id (delete tx.sequence_number (table_at id s)) s.tables },
            true,
          )
          else (s, false)
    ]
  ]

  -- A transaction's channel takes one event; another is dropped while it waits.
  abbrev pub notify : ℕ → EventType → Server E → Server E
  notify id event s = elim (lookup id s.channels) [
    | none ↦ record s { channels = insert id event s.channels }
    | some _ ↦ s
  ]

module _ ⦃net : Net⦄ where
  -- `host, _, err := net.SplitHostPort(consumerAddr); err == nil && host == ip`
  abbrev pub is_host : Text → Text → Bool
  is_host ip consumer = elim (net.split_host consumer) [
    | none ↦ false
    | some host ↦ ite (Text-discrete host ip) true false
  ]

  -- The walk of DeleteByHost over the consumers.
  unfoldable pub delete_hosts : Text → List Text → Map Text ℕ → Map Text ℕ
  delete_hosts ip [] m = m
  delete_hosts ip (consumer ∷ rest) m =
      delete_hosts ip rest (if is_host ip consumer then delete consumer m else m)

  -- DeleteByHost
  unfoldable pub delete_by_host : {E : Type 0} → Text → Server E → Server E
  delete_by_host ip s = record s { consumers = delete_hosts ip (keys s.consumers) s.consumers }

  -- ForgetConsumer, where the server may not be there yet.
  unfoldable pub forget_consumer : {E : Type 0} → Text → Option (Server E) → Option (Server E)
  forget_consumer ip none = none
  forget_consumer ip (some s) = some (delete_by_host ip s)
