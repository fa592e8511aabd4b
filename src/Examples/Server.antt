-- ===== src/Examples/Server.antt =====
-- A balance and a spend, asked of a small table.
use blockchain_indexer.Base.{
  ℕ, ◌+◌, ◌≡◌, List, refl, true, false, [], ◌∷◌, ◌++◌, Str, map, replicate, arith, some, pos, ok,
}
use blockchain_indexer.Base.Text.{text, pad8, setw, dec, dec_loop, str_eq, str_lt}
use blockchain_indexer.Dict.{lookup}
use blockchain_indexer.Dict.Keys.{str_key}
use blockchain_indexer.Leveldb.{range, until}
use blockchain_indexer.Leveldb.Table.{Table, table, table_get, table_seek}
use blockchain_indexer.MempoolMonitor.{empty_mempool, get_txos}
use blockchain_indexer.BlockIndexer.{tx_block_key, spent_key}
use blockchain_indexer.HttpServer.{Balance, balance_of, outpoint_answer}
use blockchain_indexer.HttpServer.Entries.{Entry, entry_text}
use blockchain_indexer.HttpServer.Sums.{
  sums, unspent_sum, available_sum, transactions, claims, waiting_sum, waiting_transactions,
  SumsFit, balance_of-entries,
}
use blockchain_indexer.HttpServer.Daemon.{Daemon, given, refused}
use blockchain_indexer.HttpServer.AddressTxos.{TxoItem, confirmed_txos}
use blockchain_indexer.HttpServer.AddressTxos.Listing.{
  unspent_query, unspent_items, value_sum, confirmed_txos-entries, balance_of-confirmed_txos,
}
use blockchain_indexer.HttpServer.Spends.{spend_text, outpoint_answer-stored}

abbrev hash_of : ℕ → Str
hash_of c = replicate 64 c

abbrev an_entry : Entry
an_entry = record { tx_hash = hash_of b'1'; index = 0; height = 5; value = 700 }

abbrev one_output : Table
one_output = (text "a-txo-00000001", entry_text an_entry) ∷ []

stored-once :
    map
      (λ e. e.1)
      (range table one_output (text "a" ++ text "-txo-00000001") (text "a" ++ text "-txo-99999999"))
    ≡ map entry_text (an_entry ∷ [])
unfolding range until table_seek str_lt
stored-once = refl

-- Whatever of it is spent.
small-sums :
    (m : Table)
    → SumsFit table m empty_mempool
        (unspent_sum table m empty_mempool (an_entry ∷ []))
        (available_sum table m empty_mempool (an_entry ∷ [])
          + waiting_sum table m empty_mempool (get_txos empty_mempool (text "a")))
        (transactions table m empty_mempool (an_entry ∷ []))
        (claims table m empty_mempool (an_entry ∷ [])
          + waiting_transactions table m empty_mempool (get_txos empty_mempool (text "a")))
unfolding unspent_sum available_sum transactions claims waiting_sum waiting_transactions get_txos
    lookup
small-sums m = record {
  confirmed = ground arith;
  available = ground arith;
  txs = ground arith;
  claimed = ground arith;
}

balance_of-entries_example :
    balance_of table one_output empty_mempool (text "a")
    ≡ ok (
        sums table one_output empty_mempool
          (unspent_sum table one_output empty_mempool (an_entry ∷ []))
          (available_sum table one_output empty_mempool (an_entry ∷ [])
            + waiting_sum table one_output empty_mempool (get_txos empty_mempool (text "a")))
          (transactions table one_output empty_mempool (an_entry ∷ []))
          (claims table one_output empty_mempool (an_entry ∷ [])
            + waiting_transactions table one_output empty_mempool
                (get_txos empty_mempool (text "a"))))
balance_of-entries_example =
    balance_of-entries table one_output empty_mempool (text "a") (an_entry ∷ [])
      (record { hash = refl; index = omega arith; height = omega arith; value = omega arith }, tt)
      stored-once (small-sums one_output)

abbrev one_spend : Table
one_spend =
    (spent_key (hash_of b'1') 0, spend_text (hash_of b'2') (hash_of b'3') 1)
    ∷ (tx_block_key (hash_of b'1'), hash_of b'4')
    ∷ (text "block-hash-" ++ hash_of b'2', pad8 5)
    ∷ []

known-output : table.get one_spend (tx_block_key (hash_of b'1')) ≡ some (hash_of b'4')
unfolding table_get tx_block_key spent_key str_eq pad8 setw dec dec_loop
known-output = refl

known-spend :
    table.get one_spend (spent_key (hash_of b'1') 0)
    ≡ some (spend_text (hash_of b'2') (hash_of b'3') 1)
unfolding table_get tx_block_key spent_key str_eq pad8 setw dec dec_loop
known-spend = refl

known-height : table.get one_spend (text "block-hash-" ++ hash_of b'2') ≡ some (pad8 5)
unfolding table_get tx_block_key spent_key str_eq pad8 setw dec dec_loop
known-height = refl

outpoint_answer-stored_example :
    outpoint_answer table one_spend empty_mempool
      (record { txid = hash_of b'1'; vout = pos 0; raw = pos 0; unconfirmed = pos 0 })
    ≡ ok (record {
      failure = false;
      spent = some true;
      spender = some (hash_of b'3');
      height = some (pos 5);
    })
outpoint_answer-stored_example =
    outpoint_answer-stored table one_spend empty_mempool (hash_of b'1') (hash_of b'2')
      (hash_of b'3') (hash_of b'4') 0 1 5 (pos 0) (pos 0) refl refl (omega arith) known-output
      known-spend known-height

abbrev no_daemon : Daemon
no_daemon = record {
  raw_transaction = λ h. refused [];
  script_hex = λ h n. refused [];
  verbose_transaction = λ h. refused [];
  send_raw_transaction = λ h. refused [];
}

abbrev one_timed : Table
one_timed =
    (text "a-txo-00000001", entry_text an_entry) ∷ (text "block-time-00000005", text "90") ∷ []

timed-once :
    map
      (λ e. e.1)
      (range table one_timed (text "a" ++ text "-txo-00000001") (text "a" ++ text "-txo-99999999"))
    ≡ map entry_text (an_entry ∷ [])
unfolding range until table_seek str_lt
timed-once = refl

an_entry-timed : table.get one_timed (text "block-time-" ++ pad8 5) ≡ some (dec 90)
unfolding table_get str_eq pad8 setw dec dec_loop
an_entry-timed = refl

confirmed_txos-entries_example :
    confirmed_txos table one_timed empty_mempool no_daemon unspent_query (text "a")
    ≡ ok (given (unspent_items table one_timed empty_mempool no_daemon (λ h. 90) (an_entry ∷ [])))
confirmed_txos-entries_example =
    confirmed_txos-entries table one_timed empty_mempool no_daemon (λ h. 90) (text "a")
      (an_entry ∷ [])
      (record { hash = refl; index = omega arith; height = omega arith; value = omega arith }, tt)
      ((an_entry-timed, omega arith), tt) timed-once

balance_of-confirmed_txos_example :
    (items : List TxoItem) × (b : Balance) × (confirmed_txos table one_timed empty_mempool no_daemon
        unspent_query
        (text "a")
      ≡ ok (given items))
    × (balance_of table one_timed empty_mempool (text "a") ≡ ok b)
    × (value_sum items ≡ b.balance)
balance_of-confirmed_txos_example =
    balance_of-confirmed_txos table one_timed empty_mempool no_daemon (λ h. 90) (text "a")
      (an_entry ∷ [])
      (record { hash = refl; index = omega arith; height = omega arith; value = omega arith }, tt)
      ((an_entry-timed, omega arith), tt) timed-once (small-sums one_timed)
