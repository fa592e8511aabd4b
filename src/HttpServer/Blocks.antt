-- ===== src/HttpServer/Blocks.antt =====
-- src/httpserver.cpp: a block by its hash, and lists of blocks.
pub mod Indexed
use blockchain_indexer.Base.{
  ℕ, ◌+◌, ◌%◌, ◌^◌, Bool, true, false, ◌||◌, List, [], ◌∷◌, ◌++◌, Bytes, Str, length, map,
  if◌then◌else◌, Option, none, some, ℤ, pos, ◌-ℤ◌, is_zero_ℤ, ltb_ℤ, to_uint64, Result, ok, ◌>>=◌,
}
use blockchain_indexer.Base.Text.{text, str_lt, pad8, setw, dec_ℤ, substr, stoi, stoll}
use blockchain_indexer.Types.{Transaction, Block}
use blockchain_indexer.Leveldb.{Leveldb}
use blockchain_indexer.External.{Crypto, Indeterminate}
use blockchain_indexer.BlockReader.{read_block, sub64}
use blockchain_indexer.Json.{Json, null, bool, string, json_object, json_array, number, natural}
use blockchain_indexer.HttpServer.Daemon.{Answer, success, failure}

abbrev pub no_block : Answer
no_block = failure 404 (text "Block not found")

-- `highestBlock-block.height+1` in 64 bits.
abbrev pub confirmations : ℕ → Block → ℕ
confirmations highest block = (sub64 highest block.height + 1) % 2 ^ 64

unfoldable pub block_members : ℕ → Block → Json
block_members highest block = json_object (
    ("hash", string block.block_hash)
    ∷ ("previousBlockHash", string block.previous_block_hash)
    ∷ ("merkleRoot", string block.merkle_root)
    ∷ ("version", natural block.version)
    ∷ ("time", natural block.time)
    ∷ ("bits", natural block.bits)
    ∷ ("nonce", natural block.nonce)
    ∷ ("height", natural block.height)
    ∷ ("confirmations", natural (confirmations highest block))
    ∷ ("size", natural block.byte_size)
    ∷ ("tx", json_array (map (λ (tx : Transaction). string tx.tx_hash) block.transactions))
    ∷ ("ismainchain", bool true)
    ∷ [])

module _ (ldb : Leveldb) (db : ldb.Db) where
  -- `Get` leaves the text empty when there is no entry.
  unfoldable pub text_of : Str → Str
  text_of key = elim (ldb.get db key) [ none ↦ [] | some value ↦ value ]

  unfoldable pub highest_block : Result ℕ
  highest_block = do highest ← stoll (text_of (text "highestblock")); ok (to_uint64 highest)

  -- The height of a block and the text of its position.
  unfoldable pub find_block : Str → Result (Option (ℕ × Str))
  find_block block_hash = elim (ldb.get db (text "block-hash-" ++ block_hash)) [
    | none ↦ ok none
    | some height_text ↦ do
      height ← stoll height_text
      ok (elim (ldb.get db (text "block-filePosition-" ++ pad8 (to_uint64 height))) [
        | none ↦ none
        | some position ↦ some (to_uint64 height, position)
      ])
  ]

  module _ (crypto : Crypto) (junk : Indeterminate) (files : Str → Option Bytes)
      (blocks_dir : Str) where
    unfoldable pub read_stored : Str → ℕ → Bool → Result Block
    read_stored file_position height header_only = do
      name ← substr 0 12 file_position
      digits ← substr 12 12 file_position
      position ← stoll digits
      read_block crypto junk files blocks_dir name (to_uint64 position) height header_only

    unfoldable pub get_block : Str → Result Answer
    get_block block_hash = do
      highest ← highest_block
      found ← find_block block_hash
      elim found [
        | none ↦ ok no_block
        | some (height, file_position) ↦ do
          block ← read_stored file_position height false
          ok (success (block_members highest block))
      ]

  -- A block in a list, by the text of its height.
  unfoldable pub block_summary : Str → Str → Result Json
  block_summary block_hash height_text = do
    height ← stoll height_text
    size ← stoll (text_of (text "block-size-" ++ height_text))
    time ← stoll (text_of (text "block-time-" ++ height_text))
    tx_length ← stoll (text_of (text "block-txcount-" ++ height_text))
    ok (
        json_object (
          ("hash", string block_hash)
          ∷ ("height", number height)
          ∷ ("size", number size)
          ∷ ("time", number time)
          ∷ ("txlength", number tx_length)
          ∷ ("poolInfo", null)
          ∷ []))

  -- The loop `for (it->Seek(start); it->Valid() && it->key() > limit; it->Prev())`.
  unfoldable pub down_to : Str → List (Str × Str) → Result (List Json)
  down_to limit [] = ok []
  down_to limit ((k, v) ∷ entries) = elim (str_lt limit k) [
    | false ↦ ok []
    | true ↦ do
      height_text ← substr 6 (length k) k
      summary ← block_summary v height_text
      rest ← down_to limit entries
      ok (summary ∷ rest)
  ]

  -- How many blocks are listed: none given, and more than a hundred, are a hundred.
  unfoldable pub clamp_limit : ℤ → ℤ
  clamp_limit limit = if is_zero_ℤ limit || ltb_ℤ (pos 100) limit then pos 100 else limit

  unfoldable pub get_blocks : Str → Result Answer
  get_blocks limit_parameter = do
    limit ← stoi limit_parameter
    let highest_text = text_of (text "highestblock")
    highest ← stoll highest_text
    let lowest_text = setw 8 (dec_ℤ (highest -ℤ clamp_limit limit))
    blocks ←
        down_to (text "block-" ++ lowest_text) (ldb.seek_back db (text "block-" ++ highest_text))
    ok (success (json_array blocks))

  -- The loop `for (it->Seek(start); it->Valid() && it->key() <= limit; it->Next())`.
  unfoldable pub up_to : Str → List (Str × Str) → Result (List Json)
  up_to limit [] = ok []
  up_to limit ((k, v) ∷ entries) = elim (str_lt limit k) [
    | true ↦ ok []
    | false ↦ do
      summary ← block_summary v (text_of (text "block-hash-" ++ v))
      rest ← up_to limit entries
      ok (summary ∷ rest)
  ]

  unfoldable pub get_blocks_by_date : Str → Str → Result Answer
  get_blocks_by_date start_parameter end_parameter = do
    start ← stoll start_parameter
    last ← stoll end_parameter
    blocks ←
        up_to (text "block-hash-time-" ++ setw 12 (dec_ℤ last))
          (ldb.seek db (text "block-hash-time-" ++ setw 12 (dec_ℤ start)))
    ok (success (json_array blocks))
