-- ===== src/Examples/Indexed.antt =====
-- Requests to the server after a block was indexed.
use blockchain_indexer.Base.{
  ℕ, zero, suc, ◌≡◌, ◌∙◌, refl, true, false, [], ◌∷◌, ◌++◌, Str, length, replicate, get_elem?,
  arith, Option, some, pos, ok, to_uint64,
}
use blockchain_indexer.Base.Text.{
  text, str_eq, str_lt, pad8, setw, dec, dec_ℤ, dec_loop, stoll-pad8,
}
use blockchain_indexer.Types.{TransactionInput, Transaction, Block}
use blockchain_indexer.Stream.{open_stream, ◌>>=◌, read_uint, seekg_beg}
use blockchain_indexer.FileReader.{read_var_int, read_hash}
use blockchain_indexer.Leveldb.{until, range, after}
use blockchain_indexer.Leveldb.Table.{
  table_seek, table, table_get, table_put, table_write, table-Laws,
}
use blockchain_indexer.External.{Crypto, Digests}
use blockchain_indexer.Dict.{lookup}
use blockchain_indexer.Dict.Keys.{str_key}
use blockchain_indexer.MempoolMonitor.{empty_mempool}
use blockchain_indexer.Utility.HexText.{IsHex}
use blockchain_indexer.BlockReader.{read_block, read_block_at, read_transactions}
use blockchain_indexer.BlockIndexer.{
  Indexer, block_key, spent_key, tx_block_key, block_entries, is_indexed, replace_block,
  raise_highest, index_transactions, write_block, index_block, index_transaction, index_inputs,
  index_input, index_outputs, emit, get_next_txo_index, indexed_key,
}
use blockchain_indexer.BlockIndexer.Recorded.{IsInput}
use blockchain_indexer.HttpServer.{outpoint_answer}
use blockchain_indexer.HttpServer.Daemon.{success}
use blockchain_indexer.HttpServer.Blocks.{get_block, block_members, highest_block, text_of}
use blockchain_indexer.HttpServer.Blocks.Indexed.{get_block-index_block}
use blockchain_indexer.HttpServer.Spends.Indexed.{outpoint_answer-index_block}
use blockchain_indexer.Examples.{some_junk, vertcoin}
use blockchain_indexer.Examples.Index.{new_index, index_of}
use blockchain_indexer.Examples.Spends.{on_main, spender}

-- Digests that do not depend on their input.
abbrev pub constant : Crypto
constant = record {
  sha256 = λ input. replicate 32 7;
  ripe_md160 = λ input. replicate 20 7;
  bech32_encode = λ prefix values. prefix ++ values;
}

constant-Digests : Digests constant
constant-Digests = record {
  length-sha256 = λ input. refl;
  length-ripe_md160 = λ input. refl;
  sha256-IsByte = λ input. omega arith;
}

abbrev pub zeros : Str → Option Str
zeros path = some (replicate 200 0)

-- The block of zeros at the front of the file.
abbrev zero_block : Block
zero_block =
    read_block_at constant some_junk (text "blk00000.dat") 0 5 false (open_stream (replicate 200 0))

zero_block-read :
    read_block constant some_junk zeros (text "blocks") (text "blk00000.dat") 0 5 false
    ≡ ok zero_block
unfolding read_block
zero_block-read = refl

zero_block-new : is_indexed table zero_block.block_hash zero_block.height new_index ≡ false
unfolding is_indexed table_get
zero_block-new = refl

abbrev zeros_raised : Indexer table
zeros_raised = record new_index { db = table.put_one new_index.db (text "highestblock") (pad8 5) }

abbrev after_zeros : Indexer table
after_zeros = record zeros_raised {
  db = (table.write zeros_raised.db (block_entries table zero_block)).0;
}

zero_block-indexed :
    index_block table constant vertcoin zero_block new_index ≡ ok (true, after_zeros)
unfolding index_block is_indexed replace_block raise_highest write_block index_transactions
    table_get read_block_at read_transactions read_var_int ◌>>=◌ read_uint seekg_beg read_hash
zero_block-indexed = refl

zeros_raised-highest :
    after
      (block_entries table zero_block)
      (text "highestblock")
      (table.get zeros_raised.db (text "highestblock"))
    ≡ some (pad8 5)
unfolding after block_entries str_eq table_get table_put block_key
zeros_raised-highest = refl

highest_text : table.get after_zeros.db (text "highestblock") ≡ some (pad8 5)
highest_text =
    table-Laws.get-write zeros_raised.db (block_entries table zero_block) (text "highestblock") refl
    ∙ zeros_raised-highest

highest-five : highest_block table after_zeros.db ≡ ok 5
unfolding highest_block text_of to_uint64
highest-five = rw (highest_text, text_of) (rw (stoll-pad8 5 (omega arith)))

get_block-index_block_example :
    get_block table after_zeros.db constant some_junk zeros (text "blocks") zero_block.block_hash
    ≡ ok (success (block_members 5 zero_block))
get_block-index_block_example =
    get_block-index_block table table-Laws (λ db ops. refl) constant constant-Digests vertcoin
      some_junk zeros (text "blocks") (text "blk00000.dat") 0 5 5 zero_block new_index after_zeros
      true refl (omega arith) (omega arith) zero_block-read zero_block-new zero_block-indexed
      highest-five

-- A block whose transaction spends the output 0 of "ab", over an index that knows "ab".
abbrev the_spender : Transaction
the_spender = spender (replicate 64 b'c')

abbrev spending : Block
spending = record on_main { block_hash = replicate 64 b'a'; transactions = the_spender ∷ [] }

abbrev spent_input : TransactionInput
spent_input = record {
  index = 0;
  tx_hash = text "ab";
  txo_index = 0;
  sequence = 0;
  coinbase = false;
  script = [];
  witness_data = [];
}

abbrev knowing : Indexer table
knowing = record new_index { db = (tx_block_key (text "ab"), text "m") ∷ [] }

abbrev after_spending : Indexer table
after_spending = index_of (index_block table constant vertcoin spending knowing)

spending-new : is_indexed table spending.block_hash spending.height knowing ≡ false
unfolding is_indexed table_get tx_block_key block_key str_eq
spending-new = refl

spending-indexed : index_block table constant vertcoin spending knowing ≡ ok (true, after_spending)
unfolding index_of index_block is_indexed replace_block raise_highest write_block index_transactions
    index_transaction index_outputs index_inputs index_input table_get table_write tx_block_key
    block_key str_eq emit get_next_txo_index lookup range until table_seek table_put str_lt
spending-indexed = refl

still-known : table.get after_spending.db (tx_block_key (text "ab")) ≡ some (text "m")
unfolding index_of index_block is_indexed replace_block raise_highest write_block index_transactions
    index_transaction index_outputs index_inputs index_input table_get table_write table_put
    tx_block_key block_key str_eq str_lt block_entries emit get_next_txo_index spent_key indexed_key
    pad8 setw dec dec_loop dec_ℤ lookup range until table_seek
still-known = refl

hashes-long :
    (i : ℕ) (t : Transaction) → get_elem? spending.transactions i ≡ some t → length t.tx_hash ≡ 64
hashes-long zero t e = let same : the_spender ≡ t = cc e in rw (← same) refl
hashes-long (suc i) t e = cc e

IsHex-replicate : (n : ℕ) → IsHex (replicate n b'a')
IsHex-replicate zero = tt
IsHex-replicate (suc n) = (refl, IsHex-replicate n)

outpoint_answer-index_block_example :
    (t : Transaction) × (ti : TransactionInput) × IsInput spending t ti
    × (spent_key (text "ab") 0 ≡ spent_key ti.tx_hash ti.txo_index)
    × (outpoint_answer table after_spending.db empty_mempool
          (record { txid = text "ab"; vout = pos 0; raw = pos 0; unconfirmed = pos 0 })
        ≡ ok (record {
          failure = false;
          spent = some true;
          spender = some t.tx_hash;
          height = some (pos 1);
        }))
outpoint_answer-index_block_example =
    outpoint_answer-index_block table table-Laws (λ db ops. refl) constant vertcoin spending
      (IsHex-replicate 64) refl (omega arith) hashes-long 0 0 the_spender spent_input knowing
      after_spending true empty_mempool (text "m") (pos 0) (pos 0) refl refl refl spending-new
      spending-indexed still-known
