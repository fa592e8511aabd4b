-- ===== src/Examples/Index.antt =====
-- An empty index in memory, a block, and a mempool with one transaction.
use blockchain_indexer.Base.{
  to_int, ◌≡◌, inl, refl, true, [], ◌∷◌, Str, arith, ok, err, none, some, if◌then◌else◌, Result,
  Bool, false,
}
use blockchain_indexer.Base.Text.{text, str_eq, str_lt, pad8}
use blockchain_indexer.Types.{Block, TransactionInput, TransactionOutput}
use blockchain_indexer.Dict.{lookup, Distinct}
use blockchain_indexer.Dict.Keys.{str_key}
use blockchain_indexer.Leveldb.{range, until}
use blockchain_indexer.Leveldb.Table.{
  table_put, table, table_get, table_write, table_seek, table-Laws,
}
use blockchain_indexer.MempoolMonitor.{Mempool, empty_mempool, get_txos, transaction_indexed}
use blockchain_indexer.MempoolMonitor.Removal.{others, get_txos-transaction_indexed}
use blockchain_indexer.BlockIndexer.{
  emit, Indexer, block_entries, is_indexed, has_indexed_block, replace_block, raise_highest,
  index_transactions, write_block, index_block, get_next_txo_index, clear_block_txos,
  index_transaction, index_inputs, index_input, index_outputs, spent_key,
}
use blockchain_indexer.BlockIndexer.Clear.{listed_for, get-clear_block_txos}
use blockchain_indexer.BlockIndexer.Indexed.{index_block-has_indexed}
use blockchain_indexer.BlockIndexer.Spent.{index_block-Recorded}
use blockchain_indexer.BlockIndexer.Recorded.{Recorded}
use blockchain_indexer.BlockIndexer.Highest.{Reaches, raise_highest-Reaches}
use blockchain_indexer.Examples.{toy_crypto, vertcoin}
use blockchain_indexer.Examples.Spends.{on_main, spender}

abbrev pub new_index : Indexer table
new_index = record { db = []; next_txo_index = []; mempool = empty_mempool }

abbrev empty_block : Block
empty_block = record on_main { transactions = [] }

abbrev after_raise : Indexer table
after_raise = record new_index { db = table.put_one new_index.db (text "highestblock") (pad8 1) }

abbrev after_block : Indexer table
after_block = record after_raise {
  db = (table.write after_raise.db (block_entries table empty_block)).0;
}

empty_block-indexed :
    index_block table toy_crypto vertcoin empty_block new_index ≡ ok (true, after_block)
unfolding index_block is_indexed replace_block raise_highest write_block index_transactions
    table_get table_write
empty_block-indexed = refl

index_block-has_indexed_example : has_indexed_block table (text "m") (to_int 1) after_block ≡ true
index_block-has_indexed_example =
    index_block-has_indexed table table-Laws (λ db ops. refl) toy_crypto vertcoin empty_block
      new_index after_block true empty_block-indexed (omega arith)

first-raised : raise_highest table 1 new_index ≡ ok after_raise
unfolding raise_highest table_get
first-raised = refl

raise_highest-Reaches_example : Reaches 1 (table.get after_raise.db (text "highestblock"))
raise_highest-Reaches_example =
    raise_highest-Reaches table table-Laws 1 1 new_index after_raise (omega arith)
      (inl (omega arith)) first-raised

abbrev txo_of : Str → TransactionOutput
txo_of tx_hash = record { value = 10; script = []; index = 0; tx_hash = tx_hash }

abbrev two_waiting : Mempool
two_waiting = record {
  mempool_transactions = (text "t", spender (text "t")) ∷ (text "u", spender (text "u")) ∷ [];
  address_mempool_transactions =
      (text "x", txo_of (text "t") ∷ txo_of (text "u") ∷ [])
      ∷ (text "y", txo_of (text "u") ∷ [])
      ∷ [];
}

waiting-Distinct : Distinct two_waiting.address_mempool_transactions
unfolding lookup str_eq
waiting-Distinct = (refl, (refl, tt))

waiting-found : lookup (text "t") two_waiting.mempool_transactions ≡ some (spender (text "t"))
unfolding lookup str_eq
waiting-found = refl

get_txos-transaction_indexed_example :
    get_txos (transaction_indexed (text "t") two_waiting) (text "x")
    ≡ others (text "t") (get_txos two_waiting (text "x"))
get_txos-transaction_indexed_example =
    get_txos-transaction_indexed (text "t") (text "x") two_waiting (spender (text "t"))
      waiting-Distinct waiting-found

-- The index lists one output for the block m.
abbrev one_listed : Indexer table
one_listed = record new_index {
  db = (text "a-txo-00000001", text "t") ∷ (text "m-txo-00000001", text "a-txo-00000001") ∷ [];
}

cleared : (clear_block_txos table (text "m") one_listed).0 ≡ true
unfolding clear_block_txos
cleared = refl

get-clear_block_txos_example :
    table.get (clear_block_txos table (text "m") one_listed).1.db (text "a-txo-00000001") ≡ (
      if listed_for table table-Laws (text "m") one_listed.db (text "a-txo-00000001")
      then none
      else table.get one_listed.db (text "a-txo-00000001"))
get-clear_block_txos_example =
    get-clear_block_txos table table-Laws (text "m") (text "a-txo-00000001") one_listed cleared

-- With the entries 2 and 3 left of three, a new counter starts at a number that is in use.
number-reused :
    (get_next_txo_index table (text "a-txo") (record {
      indexer = record new_index {
        db = (text "a-txo-00000002", []) ∷ (text "a-txo-00000003", []) ∷ [];
      };
      batch = [];
      overflowed = false;
    })).0
    ≡ 3
unfolding get_next_txo_index range until table_seek str_lt lookup
number-reused = refl

unfoldable pub index_of : Result (Bool × Indexer table) → Indexer table
index_of (ok (b, ix)) = ix
index_of (err e) = new_index

abbrev spent_input : TransactionInput
spent_input = record {
  index = 0;
  tx_hash = text "ab";
  txo_index = 0;
  sequence = 0;
  coinbase = false;
  script = [];
  witness_data = [];
}

abbrev after_spend : Indexer table
after_spend = index_of (index_block table toy_crypto vertcoin on_main new_index)

on_main-new : is_indexed table (text "m") 1 new_index ≡ false
unfolding is_indexed table_get
on_main-new = refl

on_main-indexed : index_block table toy_crypto vertcoin on_main new_index ≡ ok (true, after_spend)
unfolding index_of index_block is_indexed replace_block raise_highest write_block index_transactions
    index_transaction index_outputs index_inputs index_input table_get table_write emit
    get_next_txo_index lookup range until table_seek table_put str_lt
on_main-indexed = refl

index_block-Recorded_example :
    Recorded on_main (spent_key (text "ab") 0) (table.get after_spend.db (spent_key (text "ab") 0))
index_block-Recorded_example =
    index_block-Recorded table table-Laws (λ db ops. refl) toy_crypto vertcoin on_main 0 0
      (spender (text "t")) spent_input refl refl refl new_index after_spend true on_main-new
      on_main-indexed
