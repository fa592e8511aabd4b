-- ===== src/HttpServer/BlockTransactions.antt =====
-- src/httpserver.cpp, getBlockTransactions: the transactions of a block, ten to a page.
pub mod Pages
use blockchain_indexer.Base.{
  ℕ, zero, suc, ◌+◌, ◌*◌, ◌-◌, ◌/◌, ◌%◌, ◌^◌, Bool, true, false, not, ◌&&◌, List, [], ◌∷◌, ◌++◌,
  Bytes, Str, length, map, any, ltb, get_elem?, if◌then◌else◌, Option, none, some, ℤ, pos, negsuc,
  pos_part, ◌+ℤ◌, ◌-ℤ◌, ltb_ℤ, is_int, to_int, to_uint64, Result, ok, err, out_of_range, undefined,
  ◌>>=◌,
}
use blockchain_indexer.Base.Text.{text, substr, stoi, stoll}
use blockchain_indexer.Types.{TransactionInput, TransactionOutput, Transaction, Block}
use blockchain_indexer.Leveldb.{Leveldb}
use blockchain_indexer.External.{Crypto, Indeterminate}
use blockchain_indexer.Utility.{hash_to_hex}
use blockchain_indexer.ScriptSolver.{get_script_type_name}
use blockchain_indexer.BlockIndexer.{spent_key}
use blockchain_indexer.MempoolMonitor.{Mempool}
use blockchain_indexer.Json.{Json, bool, string, json_object, json_array, number, natural}
use blockchain_indexer.HttpServer.{get_addresses_for_txo, get_value_for_txo}
use blockchain_indexer.HttpServer.Daemon.{Answer, success}
use blockchain_indexer.HttpServer.Blocks.{
  confirmations, no_block, highest_block, find_block, read_stored,
}
use Prim.Native.String.{String}

-- `10 * n`, as an integer.
abbrev pub ten_times : ℤ → ℤ
ten_times (pos n) = pos (10 * n)
ten_times (negsuc n) = negsuc (10 * n + 9)

unfoldable pub pages_total : ℕ → ℕ
pages_total size =
    let left_over = size % 10 in (size - left_over) / 10 + (if ltb 0 left_over then 1 else 0)

-- `vector::at` of an `int`: a negative one is an index beyond any vector.
unfoldable pub transaction_at : List Transaction → ℤ → Result Transaction
transaction_at txs (negsuc i) = err out_of_range
transaction_at txs (pos i) = elim (get_elem? txs i) [ none ↦ err out_of_range | some tx ↦ ok tx ]

unfoldable pub transactions_from : ℕ → ℤ → List Transaction → Result (List Transaction)
transactions_from zero i txs = ok []
transactions_from (suc rounds) i txs = do
  tx ← transaction_at txs i
  rest ← transactions_from rounds (i +ℤ pos 1) txs
  ok (tx ∷ rest)

-- `std::min` of two integers.
abbrev pub min_ℤ : ℤ → ℤ → ℤ
min_ℤ a b = if ltb_ℤ b a then b else a

-- The loop from pageStart to pageEnd, the latter included.
unfoldable pub transactions_between : ℤ → ℤ → List Transaction → Result (List Transaction)
transactions_between page_start page_end txs =
    if ltb_ℤ page_end page_start
    then ok []
    else transactions_from (pos_part ((page_end -ℤ page_start) +ℤ pos 1)) page_start txs

unfoldable pub max_index : ℕ → ℤ
max_index size = to_int ((size + 2 ^ 64 - 1) % 2 ^ 64)

-- A product or sum that is no `int` has undefined behaviour.
unfoldable pub page_transactions : ℤ → List Transaction → Result (List Transaction)
page_transactions page_num txs =
    let page_start = ten_times page_num in
    if is_int page_start && is_int (page_start +ℤ pos 10)
    then transactions_between page_start (min_ℤ (page_start +ℤ pos 10) (max_index (length txs))) txs
    else err undefined

abbrev joined : List Str → Str
joined [] = []
joined (a ∷ []) = a
joined (a ∷ b ∷ rest) = a ++ (text " " ++ joined (b ∷ rest))

module _ (ldb : Leveldb) (db : ldb.Db) (mempool : Mempool) where
  unfoldable pub input_json : TransactionInput → Result Json
  input_json txi = do
    value ← get_value_for_txo ldb db mempool txi.tx_hash txi.txo_index
    ok (
        json_object (
          ("sequence", natural txi.sequence)
          ∷ ("n", natural txi.index)
          ∷ ("txid", string txi.tx_hash)
          ∷ ("vout", natural txi.txo_index)
          ∷ ("scriptSig", json_object (("hex", string (hash_to_hex txi.script)) ∷ []))
          ∷ (
            "addr",
            string (joined (get_addresses_for_txo ldb db mempool txi.tx_hash txi.txo_index)),
          )
          ∷ ("valueSat", natural (to_uint64 value))
          ∷ []))

  unfoldable pub inputs_json : List TransactionInput → Result (List Json)
  inputs_json [] = ok []
  inputs_json (txi ∷ inputs) = do vin ← input_json txi; rest ← inputs_json inputs; ok (vin ∷ rest)

  -- The members about the spend of an output.
  unfoldable pub spent_members : Option Str → Result (List (String × Json))
  spent_members none = ok []
  spent_members (some spent_tx) = do
    tx_id ← substr 64 64 spent_tx
    digits ← substr 128 8 spent_tx
    index ← stoll digits
    block ← substr 0 64 spent_tx
    let members =
        ("spentTxId", string tx_id)
        ∷ ("spentIndex", number index)
        ∷ ("spentBlock", string block)
        ∷ []
    elim (ldb.get db (text "block-hash-" ++ block)) [
      | none ↦ ok members
      | some height_text ↦ do
        height ← stoll height_text
        ok (members ++ ("spentHeight", number height) ∷ [])
    ]

  unfoldable pub output_json : Transaction → TransactionOutput → Result Json
  output_json tx txo = do
    spent ← spent_members (ldb.get db (spent_key tx.tx_hash txo.index))
    script_type ← get_script_type_name txo.script
    ok (
        json_object (
          spent
          ++ (
            "scriptPubKey",
            json_object (
                ("hex", string (hash_to_hex txo.script))
                ∷ (
                  "addresses",
                  json_array (
                      map (λ a. string a)
                        (get_addresses_for_txo ldb db mempool tx.tx_hash txo.index)),
                )
                ∷ ("type", string script_type)
                ∷ []),
          )
            ∷ ("valueSat", natural txo.value)
            ∷ []))

  unfoldable pub outputs_json : Transaction → List TransactionOutput → Result (List Json)
  outputs_json tx [] = ok []
  outputs_json tx (txo ∷ outputs) = do
    vout ← output_json tx txo
    rest ← outputs_json tx outputs
    ok (vout ∷ rest)

  unfoldable pub transaction_json : ℕ → Block → Transaction → Result Json
  transaction_json highest block tx = do
    vins ← inputs_json tx.inputs
    vouts ← outputs_json tx tx.outputs
    ok (
        json_object (
          ("txid", string tx.tx_hash)
          ∷ ("version", natural tx.version)
          ∷ ("locktime", natural tx.lock_time)
          ∷ ("size", natural tx.byte_size)
          ∷ ("confirmations", natural (confirmations highest block))
          ∷ ("blockhash", string block.block_hash)
          ∷ ("blockheight", natural block.height)
          ∷ ("isCoinBase", bool (any (λ (txi : TransactionInput). txi.coinbase) tx.inputs))
          ∷ ("vin", json_array vins)
          ∷ ("vout", json_array vouts)
          ∷ []))

  unfoldable pub transactions_json : ℕ → Block → List Transaction → Result (List Json)
  transactions_json highest block [] = ok []
  transactions_json highest block (tx ∷ txs) = do
    jtx ← transaction_json highest block tx
    rest ← transactions_json highest block txs
    ok (jtx ∷ rest)

  unfoldable pub page_json : ℤ → ℕ → Block → Result Json
  page_json page_num highest block = do
    listed ← page_transactions page_num block.transactions
    txs ← transactions_json highest block listed
    ok (
        json_object (
          ("pagesTotal", natural (pages_total (length block.transactions)))
          ∷ ("txs", json_array txs)
          ∷ []))

  module _ (crypto : Crypto) (junk : Indeterminate) (files : Str → Option Bytes)
      (blocks_dir : Str) where
    unfoldable pub get_block_transactions : Str → Str → Result Answer
    get_block_transactions block_hash page = do
      highest ← highest_block ldb db
      page_num ← stoi page
      found ← find_block ldb db block_hash
      elim found [
        | none ↦ ok no_block
        | some (height, file_position) ↦ do
          block ← read_stored ldb db crypto junk files blocks_dir file_position height false
          response ← page_json page_num highest block
          ok (success response)
      ]
