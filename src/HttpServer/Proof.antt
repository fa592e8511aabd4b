-- ===== src/HttpServer/Proof.antt =====
-- src/httpserver.cpp, getTransactionProof: the block of a transaction, and the headers up to it.
pub mod Headers
use blockchain_indexer.Base.{
  ℕ, zero, suc, ◌+◌, true, false, ◌&&◌, List, [], ◌∷◌, ◌++◌, Bytes, Str, ltb, map, Option, none,
  some, to_uint64, Result, ok, ◌>>=◌,
}
use blockchain_indexer.Base.Text.{text, pad8, stoll}
use blockchain_indexer.Types.{Block}
use blockchain_indexer.Leveldb.{Leveldb}
use blockchain_indexer.External.{Crypto, Indeterminate}
use blockchain_indexer.BlockReader.{sub64}
use blockchain_indexer.BlockIndexer.{tx_block_key}
use blockchain_indexer.Json.{Json, string, json_object, json_array, natural}
use blockchain_indexer.HttpServer.Daemon.{Answer, success, failure}
use blockchain_indexer.HttpServer.Blocks.{no_block, read_stored}

unfoldable pub header_json : Block → Json
header_json block = json_object (
    ("blockHash", string block.block_hash)
    ∷ ("previousBlockHash", string block.previous_block_hash)
    ∷ ("merkleRoot", string block.merkle_root)
    ∷ ("version", natural block.version)
    ∷ ("time", natural block.time)
    ∷ ("bits", natural block.bits)
    ∷ ("nonce", natural block.nonce)
    ∷ ("height", natural block.height)
    ∷ [])

module _ (ldb : Leveldb) (db : ldb.Db) (crypto : Crypto) (junk : Indeterminate)
    (files : Str → Option Bytes) (blocks_dir : Str) where
  -- The loop over the headers from below the counter `n` down to above `bound`: `none` where the
  -- position of a block is not stored.
  unfoldable pub headers_below : ℕ → ℕ → Result (Option (List Block))
  headers_below bound zero = ok (some [])
  headers_below bound (suc i) = elim (ltb 0 i && ltb bound i) [
    | false ↦ ok (some [])
    | true ↦ elim (ldb.get db (text "block-filePosition-" ++ pad8 i)) [
      | none ↦ ok none
      | some file_position ↦ do
        block ← read_stored ldb db crypto junk files blocks_dir file_position i true
        rest ← headers_below bound i
        ok (elim rest [ none ↦ none | some blocks ↦ some (block ∷ blocks) ])
    ]
  ]

  -- `blockHeight-10` has 64 bits.
  unfoldable pub proof_headers : ℕ → Result (Option (List Block))
  proof_headers height = headers_below (sub64 height 10) (height + 1)

  unfoldable pub proof_answer : Str → Str → ℕ → Option (List Block) → Answer
  proof_answer tx_id block_hash height none = no_block
  proof_answer tx_id block_hash height (some chain) = success (
      json_object (
        ("txHash", string tx_id)
        ∷ ("blockHash", string block_hash)
        ∷ ("blockHeight", natural height)
        ∷ ("chain", json_array (map header_json chain))
        ∷ []))

  unfoldable pub get_transaction_proof : Str → Result Answer
  get_transaction_proof tx_id = elim (ldb.get db (tx_block_key tx_id)) [
    | none ↦ ok (failure 404 (text "TX not found"))
    | some block_hash ↦ elim (ldb.get db (text "block-hash-" ++ block_hash)) [
      | none ↦ ok no_block
      | some height_text ↦ do
        height ← stoll height_text
        chain ← proof_headers (to_uint64 height)
        ok (proof_answer tx_id block_hash (to_uint64 height) chain)
    ]
  ]
