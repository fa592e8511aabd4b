-- ===== src/Examples/Answers.antt =====
-- Pages of a block, a proof of a transaction, and the spend of an outpoint.
use blockchain_indexer.Base.{
  ℕ, ◌/◌, ◌%◌, ◌*◌, ◌<◌, ◌≡◌, refl, true, List, [], ◌∷◌, Str, length, get_elem?, take, drop, map,
  replicate, if◌then◌else◌, ltb, arith, Option, none, some, pos, ok, to_uint64,
}
use blockchain_indexer.Base.Text.{text, str_eq, substr, stoll}
use blockchain_indexer.Types.{Transaction, Block}
use blockchain_indexer.Stream.{open_stream}
use blockchain_indexer.Leveldb.{Leveldb}
use blockchain_indexer.Leveldb.Table.{Table, table, table_get}
use blockchain_indexer.BlockReader.{read_block, read_block_at}
use blockchain_indexer.BlockIndexer.{tx_block_key}
use blockchain_indexer.MempoolMonitor.{Mempool, outpoint_spend, spender_in, spends}
use blockchain_indexer.HttpServer.{SpendRequest, to_uint32}
use blockchain_indexer.HttpServer.Blocks.{read_stored}
use blockchain_indexer.HttpServer.BlockTransactions.{page_transactions, pages_total}
use blockchain_indexer.HttpServer.BlockTransactions.Pages.{
  page_transactions-slice, page_transactions-covers,
}
use blockchain_indexer.HttpServer.Proof.{proof_headers}
use blockchain_indexer.HttpServer.Proof.Headers.{countdown, proof_headers-countdown}
use blockchain_indexer.HttpServer.OutpointSpends.Lost.{request_key, is_left_open}
use blockchain_indexer.Examples.{toy_crypto, some_junk}
use blockchain_indexer.Examples.Spends.{spender}

abbrev twelve : List Transaction
twelve = replicate 12 (spender (text "t"))

page_transactions-slice_example :
    page_transactions (pos 0) twelve ≡ ok (take 11 (drop (10 * 0) twelve))
page_transactions-slice_example = page_transactions-slice 0 twelve (omega arith) (omega arith)

page_transactions-covers_example :
    (11 / 10 < pages_total (length twelve))
    × (listed : List Transaction) × (page_transactions (pos (11 / 10)) twelve ≡ ok listed)
    × (get_elem? listed (11 % 10) ≡ get_elem? twelve 11)
page_transactions-covers_example = page_transactions-covers 11 twelve (omega arith) (omega arith)

-- A database that holds the same text under every key, and a file of zeros.
abbrev same_text : Leveldb
same_text = record {
  Db = Str;
  get = λ db k. some db;
  write = λ db ops. (db, true);
  put_one = λ db k v. db;
  seek = λ db k. [];
  seek_back = λ db k. [];
}

abbrev at_front : Str
at_front = text "blk00000.dat000000000000"

abbrev zeros : Str → Option Str
zeros path = some (replicate 200 0)

abbrev zero_header : ℕ → Block
zero_header height =
    read_block_at toy_crypto some_junk (text "blk00000.dat") 0 height true
      (open_stream (replicate 200 0))

front_read :
    (height : ℕ)
    → read_stored same_text at_front toy_crypto some_junk zeros (text "blocks") at_front height true
      ≡ ok (zero_header height)
unfolding read_stored substr stoll read_block to_uint64
front_read height = refl

proof_headers-countdown_example :
    proof_headers same_text at_front toy_crypto some_junk zeros (text "blocks") 12
    ≡ ok (some (map zero_header (countdown (if ltb 12 10 then 0 else 10) 12)))
proof_headers-countdown_example =
    proof_headers-countdown same_text at_front toy_crypto some_junk zeros (text "blocks")
      zero_header 12 (omega arith)
      (λ i h j. record { file_position = at_front; found = refl; header = front_read i })

abbrev claimed : Mempool
claimed = record {
  mempool_transactions = (text "t", spender (text "t")) ∷ [];
  address_mempool_transactions = [];
}

abbrev asked : SpendRequest
asked = record { txid = text "ab"; vout = pos 0; raw = pos 0; unconfirmed = pos 1 }

abbrev unspent_table : Table
unspent_table = (tx_block_key (text "ab"), text "m") ∷ []

is_known : table.get unspent_table (tx_block_key (text "ab")) ≡ some (text "m")
unfolding table_get str_eq tx_block_key
is_known = refl

is_unspent : table.get unspent_table (request_key table unspent_table claimed asked) ≡ none
unfolding table_get str_eq tx_block_key
is_unspent = refl

-- The outpoint that the mempool spends is one of those that are left open.
claimed-left_open : is_left_open table unspent_table claimed asked ≡ true
unfolding is_left_open table_get str_eq tx_block_key outpoint_spend to_uint32 spender_in spends
claimed-left_open = refl
