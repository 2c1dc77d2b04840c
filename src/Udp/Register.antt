-- ===== src/Udp/Register.antt =====
-- PutTransaction of pfcp/udp/udp.go against the map that a look-up sees: for each consumer address,
-- its transactions by sequence number.
use mathlib.Core.Path.{fun_ext}
use upfadapter.Prelude.{
  ℕ, suc, ◌<◌, ◌≡◌, refl, sym, ◌∙◌, ap, subst, true, Option, none, some, [], if◌then◌else◌, ite,
  if_pos, Text-discrete, ℕ_discrete, text_key, nat_key, lookup, insert, contains, lookup-nil,
  lookup-insert, inl, inr, Bool-cases, Option-cases, arith,
}
use upfadapter.Net.{Text}
use upfadapter.Udp.Tables.{
  Transaction, TxTable, Server, SendError, duplicate_sequence, table_detached, not_initialized,
  not_listening, marshal_failed, table_at, load, table_of, load_or_store, still_holds, put_once,
  put_loop, put_transaction,
}

module _ {E : Type 0} where
  -- The transaction that a look-up finds for this consumer under this number.
  abbrev pub tx_at : Server E → Text → ℕ → Option (Transaction E)
  tx_at s consumer seq = lookup seq (table_of consumer s)

  -- No two consumers share a table, and no table in use has a number that is still to be given.
  pub record IsSeparate (s : Server E) : Type 0 where
    pub distinct : (c c' : Text) (id : ℕ) → load c s ≡ some id → load c' s ≡ some id → c ≡ c'
    pub given : (c : Text) (id : ℕ) → load c s ≡ some id → id < s.next_table

  -- The look-ups after `tx` was stored.
  abbrev pub with_tx :
      Transaction E → (Text → ℕ → Option (Transaction E)) → Text → ℕ → Option (Transaction E)
  with_tx tx m c q =
      ite (Text-discrete tx.consumer_addr c)
        (ite (ℕ_discrete tx.sequence_number q) (some tx) (m c q)) (m c q)

  -- What registering a transaction does, by its result.
  abbrev pub PutPost : Transaction E → Server E → Server E × Option SendError → Type 0
  PutPost tx s (s', none) =
      (tx_at s tx.consumer_addr tx.sequence_number ≡ none)
      × ((c : Text) (q : ℕ) → tx_at s' c q ≡ with_tx tx (tx_at s) c q)
      × IsSeparate s'
  PutPost tx s (s', some duplicate_sequence) =
      (contains tx.sequence_number (table_of tx.consumer_addr s) ≡ true)
      × ((c : Text) (q : ℕ) → tx_at s' c q ≡ tx_at s c q)
      × IsSeparate s'
  PutPost tx s (s', some table_detached) = ⊥
  PutPost tx s (s', some not_initialized) = ⊥
  PutPost tx s (s', some not_listening) = ⊥
  PutPost tx s (s', some marshal_failed) = ⊥

  load_or_store_known :
      (c : Text) (s : Server E) (id : ℕ)
      → load c s ≡ some id
      → load_or_store c s ≡ (record s { next_table = suc s.next_table }, id)
  unfolding load_or_store
  load_or_store_known c s id e = ground arith

  load_or_store_new :
      (c : Text) (s : Server E)
      → load c s ≡ none
      → load_or_store c s ≡ (
        record s {
          consumers = insert c s.next_table s.consumers;
          tables = insert s.next_table [] s.tables;
          next_table = suc s.next_table;
        },
        s.next_table,
      )
  unfolding load_or_store
  load_or_store_new c s e = ground arith

  -- Storing into the table that the consumer has.
  abbrev stored : Transaction E → ℕ → Server E → Server E
  stored tx id s = record s {
    tables = insert id (insert tx.sequence_number tx (table_at id s)) s.tables;
  }

  put_once_held :
      (tx : Transaction E) (s s' : Server E) (id : ℕ)
      → load_or_store tx.consumer_addr s ≡ (s', id)
      → load tx.consumer_addr s' ≡ some id
      → put_once tx s ≡ (
          if contains tx.sequence_number (table_at id s')
          then (s', some (some duplicate_sequence))
          else (stored tx id s', some none))
  unfolding put_once still_holds
  put_once_held tx s s' id e held = ground (arith, e, held)

  put_transaction_held :
      (tx : Transaction E) (s s' : Server E) (id : ℕ)
      → load_or_store tx.consumer_addr s ≡ (s', id)
      → load tx.consumer_addr s' ≡ some id
      → put_transaction tx s ≡ (
          if contains tx.sequence_number (table_at id s')
          then (s', some duplicate_sequence)
          else (stored tx id s', none))
  unfolding put_transaction put_loop
  put_transaction_held tx s s' id e held = ground (arith, put_once_held tx s s' id e held)

  tx_at-stored :
      (tx : Transaction E) (id : ℕ) (s : Server E) (c : Text) (q : ℕ)
      → IsSeparate s
      → load tx.consumer_addr s ≡ some id
      → tx_at (stored tx id s) c q ≡ with_tx tx (tx_at s) c q
  tx_at-stored tx id s c q v held = elim (Option-cases (load c s)) [
    | inl e ↦ ground (arith, held, e, lookup-nil {V = Transaction E} q)
    | inr (id', e) ↦ ground (
      arith,
      held,
      e,
      v.distinct tx.consumer_addr c id,
      lookup-insert id id' (insert tx.sequence_number tx (table_at id s)) s.tables,
      lookup-insert tx.sequence_number q tx (table_at id s),
    )
  ]

  PutPost-duplicate :
      (tx : Transaction E) (s s' : Server E)
      → contains tx.sequence_number (table_of tx.consumer_addr s) ≡ true
      → ((c : Text) (q : ℕ) → tx_at s' c q ≡ tx_at s c q)
      → IsSeparate s'
      → PutPost tx s (s', some duplicate_sequence)
  PutPost-duplicate tx s s' taken same v = (taken, same, v)

  PutPost-of_held :
      (tx : Transaction E) (s s' : Server E) (id : ℕ)
      → load_or_store tx.consumer_addr s ≡ (s', id)
      → load tx.consumer_addr s' ≡ some id
      → IsSeparate s'
      → ((c : Text) (q : ℕ) → tx_at s' c q ≡ tx_at s c q)
      → PutPost tx s (put_transaction tx s)
  PutPost-of_held tx s s' id e held v same =
      let call = put_transaction_held tx s s' id e held in
      let there = same tx.consumer_addr tx.sequence_number in
      elim (Bool-cases (contains tx.sequence_number (table_at id s'))) [
        | inl taken ↦
            let step : put_transaction tx s ≡ (s', some duplicate_sequence) =
              ground (arith, call, taken) in
            subst (PutPost tx s) (sym step)
              (PutPost-duplicate tx s s' (ground (arith, there, taken, held)) same v)
        | inr free ↦
            let step : put_transaction tx s ≡ (stored tx id s', none) =
              ground (arith, call, free) in
            subst (PutPost tx s) (sym step) (
              ground (arith, there, free, held),
              λ c q.
                  tx_at-stored tx id s' c q v held
                  ∙ ap (λ m. with_tx tx m c q) (fun_ext (λ a. fun_ext (λ b. same a b))),
              record { distinct = v.distinct; given = v.given },
            )
      ]

  known-IsSeparate :
      (s : Server E) → IsSeparate s → IsSeparate (record s { next_table = suc s.next_table })
  known-IsSeparate s v = record {
    distinct = v.distinct;
    given = λ c id e. omega (arith, v.given c id e);
  }

  -- A look-up finds nothing new in a table that was just made.
  new_table : Text → Server E → Server E
  new_table c s = record s {
    consumers = insert c s.next_table s.consumers;
    tables = insert s.next_table [] s.tables;
    next_table = suc s.next_table;
  }

  tx_at-new_table :
      (c : Text) (s : Server E)
      → load c s ≡ none
      → IsSeparate s
      → (c' : Text) (q : ℕ) → tx_at (new_table c s) c' q ≡ tx_at s c' q
  unfolding new_table
  tx_at-new_table c s e v c' q = elim (Option-cases (load c' s)) [
    | inl e' ↦ ground (
      arith,
      e',
      lookup-insert c c' s.next_table s.consumers,
      lookup-insert {V = TxTable E} s.next_table s.next_table [] s.tables,
    )
    | inr (id, e') ↦ ground (
      arith,
      e,
      e',
      v.given c' id e',
      lookup-insert c c' s.next_table s.consumers,
      lookup-insert {V = TxTable E} s.next_table id [] s.tables,
    )
  ]

  new_table-IsSeparate :
      (c : Text) (s : Server E) → load c s ≡ none → IsSeparate s → IsSeparate (new_table c s)
  unfolding new_table
  new_table-IsSeparate c s e v = record {
    distinct = λ a b id ea eb. ground (
      arith,
      lookup-insert c a s.next_table s.consumers,
      lookup-insert c b s.next_table s.consumers,
      v.given a id,
      v.given b id,
      v.distinct a b id,
    );
    given = λ a id ea. ground (arith, lookup-insert c a s.next_table s.consumers, v.given a id);
  }

  -- With tables that no two consumers share, registering a transaction succeeds exactly if its
  -- number is not waited on at its consumer, and then only that look-up changes; otherwise it is
  -- refused as a duplicate and no look-up changes. The table is never found detached.
  pub put_transaction-PutPost :
      (tx : Transaction E) (s : Server E) → IsSeparate s → PutPost tx s (put_transaction tx s)
  unfolding new_table
  put_transaction-PutPost tx s v = elim (Option-cases (load tx.consumer_addr s)) [
    | inl e ↦
        PutPost-of_held tx s (new_table tx.consumer_addr s) s.next_table
          (load_or_store_new tx.consumer_addr s e)
          (lookup-insert tx.consumer_addr tx.consumer_addr s.next_table s.consumers
            ∙ if_pos (Text-discrete tx.consumer_addr tx.consumer_addr) refl _ _)
          (new_table-IsSeparate tx.consumer_addr s e v) (tx_at-new_table tx.consumer_addr s e v)
    | inr (id, e) ↦
        PutPost-of_held tx s (record s { next_table = suc s.next_table }) id
          (load_or_store_known tx.consumer_addr s id e) e (known-IsSeparate s v) (λ c q. refl)
  ]
